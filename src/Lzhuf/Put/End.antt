-- ===== src/Lzhuf/Put/End.antt =====
-- `encodeEnd` writes what is left.
use wl2k_go.Prelude.{
  ℕ, ◌+◌, ◌-◌, ◌/◌, ◌%◌, ◌<◌, ◌≡◌, sym, ap, ◌∙◌, List, [], ◌++◌, append_assoc, append-nil, arith,
  ◌==◌, ==_iff, Bool-cases, inl, inr,
}
use wl2k_go.Lzhuf.Bits.{shr, shl, bits_of, bits_of-split, bits_of-shl_add, shl-add, shr-shl_self}
use wl2k_go.Lzhuf.Put.{Put, encode_end}
use wl2k_go.Lzhuf.Put.Stream.{AreBytes, AreBytes-byte, stream, Holds, stream-byte, high_byte}

last_bits :
    (n top putbuf : ℕ)
    → n < 8
    → putbuf ≡ shl top (16 - n)
    → bits_of 8 (shr putbuf 8) ≡ bits_of n top ++ bits_of (8 - n) 0
last_bits n top putbuf h e =
    let split : 16 - n ≡ 8 + (8 - n) = omega arith in
    let whole : ◌+◌ 8 0 ≡ (8 - n) + n = omega arith in
    let zero_low : shl top (8 - n) ≡ shl top (8 - n) + 0 = omega arith in
    ap (λ x. bits_of 8 (shr x 8)) (e ∙ ap (shl top) split ∙ shl-add 8 (8 - n) top)
    ∙ ap (bits_of 8) (shr-shl_self 8 (shl top (8 - n)))
    ∙ ap (λ k. bits_of k (shl top (8 - n))) whole
    ∙ bits_of-split n (8 - n) (shl top (8 - n))
    ∙ ap (λ x. bits_of n x ++ bits_of (8 - n) (shl top (8 - n))) (shr-shl_self (8 - n) top)
    ∙ ap (λ x. bits_of n top ++ bits_of (8 - n) x) zero_low
    ∙ ap (λ x. bits_of n top ++ x) (bits_of-shl_add (8 - n) top 0)

-- `encodeEnd` writes the bits that are left, and fills the last byte with zeros.
pub stream-encode_end :
    (s : Put) (xs : List ℕ) → Holds s xs → (pad : List ℕ) × (stream (encode_end s).buf ≡ xs ++ pad)
unfolding encode_end bits_of
stream-encode_end s xs h = elim (Bool-cases (s.putlen == 0)) [
  | inl e ↦ (
    [],
    rw e (
        let none_left = (==_iff s.putlen 0).0 e in
        sym (append-nil (stream s.buf))
        ∙ ap (λ k. stream s.buf ++ bits_of k h.top) (sym none_left)
        ∙ sym h.bits_eq
        ∙ sym (append-nil xs)),
  )
  | inr e ↦ (
    bits_of (8 - s.putlen) 0,
    rw e (
        stream-byte s.buf (s.putbuf / 256 % 256)
        ∙ ap (λ x. stream s.buf ++ x)
            (high_byte s.putbuf ∙ last_bits s.putlen h.top s.putbuf h.few h.buffer_eq)
        ∙ sym (append_assoc (stream s.buf) (bits_of s.putlen h.top) (bits_of (8 - s.putlen) 0))
        ∙ ap (λ x. x ++ bits_of (8 - s.putlen) 0) (sym h.bits_eq)),
  )
]

pub AreBytes-encode_end : (s : Put) (xs : List ℕ) → Holds s xs → AreBytes (encode_end s).buf
unfolding encode_end
AreBytes-encode_end s xs h = elim (Bool-cases (s.putlen == 0)) [
  | inl e ↦ rw e h.bytes
  | inr e ↦ rw e (AreBytes-byte s.buf (s.putbuf / 256) h.bytes)
]
