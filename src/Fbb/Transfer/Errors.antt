-- ===== src/Fbb/Transfer/Errors.antt =====
-- What readCompressed refuses, and what it lets through.
use wl2k_go.Prelude.{
  ℕ, zero, suc, ◌+◌, ◌≤◌, ◌<◌, ◌≡◌, ◌≢◌, refl, ap, ◌∙◌, true, false, [], ◌∷◌, Bytes, arith, ◌==◌,
  length,
}
use wl2k_go.Prelude.Int.{ℤ, pos, negsuc, eq_ℤ}
use wl2k_go.Go.Result.{ok, err}
use wl2k_go.Go.Strconv.{atoi}
use wl2k_go.Fbb.Error.{
  Error, out_of_fuel, title_unparsed, offset_unparsed, is_fuel, Ends, Ends-bind, Ends-if, Ends-mono,
  Ends-ok, Ends-fuel,
}
use wl2k_go.Fbb.Proposal.{Proposal, data_is_complete}
use wl2k_go.Fbb.Transfer.{
  chr_soh, chr_stx, chr_eot, block_length, read_byte_or_zero, read_byte, read_field, Received,
  take_in, read_block, read_blocks, read_end, check_header, read_header, read_data, cms_line,
  read_compressed,
}

pub read_block-Ends :
    (n : ℕ) (s : Bytes) (r : Received) → Ends (λ p. length p.1 ≤ length s) (read_block n s r)
unfolding read_block
read_block-Ends zero s r = omega arith
read_block-Ends (suc n) [] r = refl
read_block-Ends (suc n) (c ∷ s) r =
    Ends-mono _ _ (read_block n s (take_in r c)) (λ p h. omega arith)
      (read_block-Ends n s (take_in r c))

-- The data that is accepted has the size that is expected.
abbrev HasSize : ℤ → Bytes × Bytes → Type 0
HasSize size p = eq_ℤ size (pos (length p.0)) ≡ true

read_end-Ends : (size : ℤ) (s : Bytes) (r : Received) → Ends (HasSize size) (read_end size s r)
unfolding read_end
read_end-Ends size s r = ground arith

pub read_byte_or_zero_shorter : (s : Bytes) → length (read_byte_or_zero s).1 ≤ length s
read_byte_or_zero_shorter [] = omega arith
read_byte_or_zero_shorter (c ∷ s) = omega arith

read_blocks-Ends :
    (f : ℕ) (size : ℤ) (s : Bytes) (r : Received)
    → length s < f
    → Ends (HasSize size) (read_blocks f size s r)
unfolding read_blocks
read_blocks-Ends zero size s r h = absurd (omega arith)
read_blocks-Ends (suc f) size [] r h = refl
read_blocks-Ends (suc f) size (c ∷ s) r h =
    let (n, s') = read_byte_or_zero s in
    Ends-if (HasSize size) (c == chr_stx) _ _
      (Ends-bind (λ p. length p.1 ≤ length s') (HasSize size) (read_block (block_length n) s' r)
        (λ p. read_blocks f size p.1 p.0) (read_block-Ends (block_length n) s' r)
        (λ p k. read_blocks-Ends f size p.1 p.0 (omega (arith, read_byte_or_zero_shorter s))))
      (Ends-if (HasSize size) (c == chr_eot) _ _ (read_end-Ends size s r) refl)

eq_ℤ_comm : (a b : ℤ) → eq_ℤ a b ≡ eq_ℤ b a
eq_ℤ_comm (pos a) (pos b) = ground arith
eq_ℤ_comm (pos a) (negsuc b) = refl
eq_ℤ_comm (negsuc a) (pos b) = refl
eq_ℤ_comm (negsuc a) (negsuc b) = ground arith

-- A proposal whose title alone is another.
abbrev Titled : Proposal → Proposal → Type 0
Titled p p' = p' ≡ record p { title = p'.title }

-- The proposal has new data of the size that was offered; beside its title all else is as it was.
abbrev pub Delivered : Proposal → Proposal → Type 0
Delivered p p' =
    (p' ≡ record p { title = p'.title; compressed_data = p'.compressed_data })
    × (data_is_complete p' ≡ true)

read_byte-Ends : (s : Bytes) → Ends (λ a. Unit {0}) (read_byte s)
read_byte-Ends [] = refl
read_byte-Ends (c ∷ s) = tt

read_field-Ends :
    (e : Error) (s : Bytes) → is_fuel e ≡ false → Ends (λ a. Unit {0}) (read_field e s)
read_field-Ends e s h = ground (arith)

delivered_from :
    (p q r : Proposal)
    → Titled p q
    → r ≡ record q { title = r.title; compressed_data = r.compressed_data }
    → r ≡ record p { title = r.title; compressed_data = r.compressed_data }
delivered_from p q r t d =
    d ∙ ap (λ (x : Proposal). record x { title = r.title; compressed_data = r.compressed_data }) t

module _ (decode : Bytes → Bytes) where
  pub check_header-Ends :
      (n : ℕ) (title offset : Bytes) (p : Proposal)
      → Ends (Titled p) (check_header decode n title offset p)
  unfolding check_header
  check_header-Ends n title offset p =
      Ends-if (Titled p) (n == length title + length offset + 2) _ _
        (Ends-if (Titled p) (atoi offset).1 _ _
          (Ends-if (Titled p) (eq_ℤ (atoi offset).0 p.offset) _ _ refl refl) refl)
        refl

  read_data-Ends : (s : Bytes) (p : Proposal) → Ends (λ r. Delivered p r.0) (read_data decode s p)
  unfolding read_data data_is_complete
  read_data-Ends s p =
      Ends-bind (HasSize p.compressed_size) (λ r. Delivered p r.0)
        (read_blocks (suc (length s)) p.compressed_size s (record { buf = []; sum = 0 }))
        (λ b. ok (record p { compressed_data = b.0 }, b.1))
        (read_blocks-Ends (suc (length s)) p.compressed_size s _ (omega arith))
        (λ b h. (refl, eq_ℤ_comm (pos (length b.0)) p.compressed_size ∙ h))

  read_header-Ends : (s : Bytes) (p : Proposal) → Ends (λ r. Titled p r.0) (read_header decode s p)
  unfolding read_header
  read_header-Ends s p =
      Ends-bind (λ a. Unit) (λ r. Titled p r.0) (read_byte s) _ (read_byte-Ends s)
        λ a _.
          Ends-bind (λ b. Unit) (λ r. Titled p r.0) (read_field title_unparsed a.1) _
            (read_field-Ends title_unparsed a.1 refl)
            λ b _.
              Ends-bind (λ c. Unit) (λ r. Titled p r.0) (read_field offset_unparsed b.1) _
                (read_field-Ends offset_unparsed b.1 refl)
                λ c _.
                  Ends-bind (Titled p) (λ r. Titled p r.0) (check_header decode a.0 b.0 c.0 p) _
                    (check_header-Ends a.0 b.0 c.0 p) λ p' t. t

  cms_line-Ends : (s : Bytes) (p : Proposal) → Ends (λ r. Delivered p r.0) (cms_line decode s)
  unfolding cms_line
  cms_line-Ends s p = ground arith

  pub read_compressed-Ends :
      (s : Bytes) (p : Proposal) → Ends (λ r. Delivered p r.0) (read_compressed decode s p)
  unfolding read_compressed
  read_compressed-Ends [] p = refl
  read_compressed-Ends (c ∷ s) p =
      Ends-if (λ r. Delivered p r.0) (c == chr_soh) _ _
        (Ends-bind (λ r. Titled p r.0) (λ r. Delivered p r.0) (read_header decode s p)
          (λ r. read_data decode r.1 r.0) (read_header-Ends s p)
          (λ r t.
            Ends-mono (λ r'. Delivered r.0 r'.0) (λ r'. Delivered p r'.0) (read_data decode r.1 r.0)
              (λ r' d. (delivered_from p r.0 r'.0 t d.0, d.1)) (read_data-Ends r.1 r.0)))
        (Ends-if (λ r. Delivered p r.0) (c == b'*') _ _ (cms_line-Ends s p) refl)

  -- Whatever stands on the connection: if a message is accepted, then its data has the compressed size
  -- that was offered, and the proposal is otherwise unchanged but for its title.
  pub read_compressed_sound :
      (s : Bytes) (p p' : Proposal) (rest : Bytes)
      → read_compressed decode s p ≡ ok (p', rest)
      → Delivered p p'
  read_compressed_sound s p p' rest e =
      Ends-ok (λ r. Delivered p r.0) (read_compressed decode s p) (p', rest)
        (read_compressed-Ends s p) e

  -- The loop over the blocks always ends: the reader's fuel never runs out.
  pub read_compressed_ends :
      (s : Bytes) (p : Proposal) → read_compressed decode s p ≢ err out_of_fuel
  read_compressed_ends s p =
      Ends-fuel (λ r. Delivered p r.0) (read_compressed decode s p) (read_compressed-Ends s p)
