-- ===== src/Fbb/Transfer/Progress.antt =====
-- The reader of a message puts nothing back on the connection.
use wl2k_go.Prelude.{
  ℕ, zero, suc, ◌≤◌, ◌<◌, ◌≡◌, refl, false, Option, none, some, [], ◌∷◌, Bytes, arith, ◌==◌, length,
}
use wl2k_go.Prelude.Int.{ℤ}
use wl2k_go.Go.Strings.{cut_at}
use wl2k_go.Fbb.Error.{
  Error, Ends, Ends-bind, Ends-if, Ends-mono, is_fuel, title_unparsed, offset_unparsed,
}
use wl2k_go.Fbb.Proposal.{Proposal}
use wl2k_go.Fbb.Transfer.{
  chr_soh, chr_stx, chr_eot, block_length, read_byte_or_zero, read_byte, read_field, Received,
  read_block, read_end, read_blocks, check_header, read_header, read_data, cms_line,
  read_compressed,
}
use wl2k_go.Fbb.Transfer.Errors.{read_block-Ends, read_byte_or_zero_shorter, check_header-Ends}

-- A result with a rest that is no longer than `n`.
abbrev pub Within {κ} : {A : Type κ} → ℕ → A × Bytes → Type 0
Within n r = length r.1 ≤ n

read_end-Within :
    (size : ℤ) (s : Bytes) (r : Received) → Ends (Within (length s)) (read_end size s r)
unfolding read_end
read_end-Within size s r = ground arith

read_blocks-Within :
    (f : ℕ) (size : ℤ) (s : Bytes) (r : Received)
    → length s < f
    → Ends (Within (length s)) (read_blocks f size s r)
unfolding read_blocks
read_blocks-Within zero size s r h = absurd (omega arith)
read_blocks-Within (suc f) size [] r h = refl
read_blocks-Within (suc f) size (c ∷ s) r h =
    let (n, s') = read_byte_or_zero s in
    Ends-if (Within (length (c ∷ s))) (c == chr_stx) _ _
      (Ends-bind (λ p. length p.1 ≤ length s') (Within (length (c ∷ s)))
        (read_block (block_length n) s' r) (λ p. read_blocks f size p.1 p.0)
        (read_block-Ends (block_length n) s' r)
        (λ p k.
          Ends-mono (Within (length p.1)) (Within (length (c ∷ s))) (read_blocks f size p.1 p.0)
            (λ q l. omega (arith, read_byte_or_zero_shorter s))
            (read_blocks-Within f size p.1 p.0 (omega (arith, read_byte_or_zero_shorter s)))))
      (Ends-if (Within (length (c ∷ s))) (c == chr_eot) _ _
        (Ends-mono (Within (length s)) (Within (length (c ∷ s))) (read_end size s r)
          (λ q l. omega arith) (read_end-Within size s r))
        refl)

read_byte-Within : (s : Bytes) → Ends (Within (length s)) (read_byte s)
read_byte-Within [] = refl
read_byte-Within (c ∷ s) = omega arith

-- What is left behind a cut.
AtMost : ℕ → Option (Bytes × Bytes) → Type 0
AtMost n none = Unit {0}
AtMost n (some r) = length r.1 ≤ n

cut_at-AtMost : (c : ℕ) (s : Bytes) → AtMost (length s) (cut_at c s)
unfolding cut_at AtMost
cut_at-AtMost c [] = tt
cut_at-AtMost c (x ∷ s) = ground (arith, cut_at-AtMost c s)

read_field-Within :
    (e : Error) (s : Bytes) → is_fuel e ≡ false → Ends (Within (length s)) (read_field e s)
unfolding AtMost
read_field-Within e s h = ground (arith, cut_at-AtMost 0 s)

module _ (decode : Bytes → Bytes) where
  read_header-Within :
      (s : Bytes) (p : Proposal) → Ends (Within (length s)) (read_header decode s p)
  unfolding read_header
  read_header-Within s p =
      Ends-bind (Within (length s)) (Within (length s)) (read_byte s) _ (read_byte-Within s) λ a k.
        Ends-bind (Within (length a.1)) (Within (length s)) (read_field title_unparsed a.1) _
          (read_field-Within title_unparsed a.1 refl)
          λ b l.
            Ends-bind (Within (length b.1)) (Within (length s)) (read_field offset_unparsed b.1) _
              (read_field-Within offset_unparsed b.1 refl)
              λ c m.
                Ends-bind _ (Within (length s)) (check_header decode a.0 b.0 c.0 p) _
                  (check_header-Ends decode a.0 b.0 c.0 p) λ p' _. omega arith

  read_data-Within : (s : Bytes) (p : Proposal) → Ends (Within (length s)) (read_data decode s p)
  unfolding read_data
  read_data-Within s p =
      Ends-bind (Within (length s)) (Within (length s))
        (read_blocks (suc (length s)) p.compressed_size s (record { buf = []; sum = 0 })) _
        (read_blocks-Within (suc (length s)) p.compressed_size s _ (omega arith)) (λ b k. k)

  cms_line-Within : (s : Bytes) → Ends (Within (length s)) (cms_line decode s)
  unfolding cms_line
  cms_line-Within s = ground arith

  pub read_compressed-Within :
      (s : Bytes) (p : Proposal) → Ends (Within (length s)) (read_compressed decode s p)
  unfolding read_compressed
  read_compressed-Within [] p = refl
  read_compressed-Within (c ∷ s) p =
      Ends-if (Within (length (c ∷ s))) (c == chr_soh) _ _
        (Ends-bind (Within (length s)) (Within (length (c ∷ s))) (read_header decode s p) _
          (read_header-Within s p)
          λ r k.
            Ends-mono (Within (length r.1)) (Within (length (c ∷ s))) (read_data decode r.1 r.0)
              (λ q l. omega arith) (read_data-Within r.1 r.0))
        (Ends-if (Within (length (c ∷ s))) (c == b'*') _ _
          (Ends-mono (Within (length s)) (Within (length (c ∷ s))) (cms_line decode s)
            (λ q l. omega arith) (cms_line-Within s))
          refl)
