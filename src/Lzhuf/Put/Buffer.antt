-- ===== src/Lzhuf/Put/Buffer.antt =====
-- The buffer with the code, in the two cases of its length.
use wl2k_go.Prelude.{ℕ, ◌+◌, ◌-◌, ◌<◌, ◌≡◌, sym, ap, ◌∙◌, ◌++◌, arith, bit_or}
use wl2k_go.Lzhuf.Bits.{
  shr, shl, bits_of, bits_of-split, bits_of-shl_add, shr-shl_add, shl-add, shr-add, shr-shl,
  shr-shl_self, shl-add_arg,
}
use wl2k_go.Lzhuf.Or.{bit_or-shl}
use wl2k_go.Lzhuf.Put.Stream.{IsCode}

pub or_short :
    (n l u top c m : ℕ)
    → n + l + u ≡ 16
    → IsCode l c m
    → bit_or (shl top (16 - n)) (shr c n) ≡ shl (shl top l + m) u
or_short n l u top c m e h =
    let t : 16 - l ≡ n + u = omega arith in
    let r : 16 - n ≡ u + l = omega arith in
    let low : shr c n ≡ shl m u =
      ap (λ x. shr x n) (h.code_eq ∙ ap (shl m) t ∙ shl-add n u m) ∙ shr-shl_self n (shl m u) in
    ap (λ k. bit_or (shl top k) (shr c n)) r
    ∙ ap (bit_or (shl top (u + l))) low
    ∙ bit_or-shl (u + l) top (shl m u) (shr-shl u l m ∙ h.narrow)
    ∙ ap (λ x. x + shl m u) (shl-add u l top)
    ∙ sym (shl-add_arg u (shl top l) m)

pub or_long :
    (n l k top c m : ℕ)
    → n + l ≡ 16 + k
    → n < 8
    → IsCode l c m
    → bit_or (shl top (16 - n)) (shr c n) ≡ shl top (16 - n) + shr m k
or_long n l k top c m e few h =
    let t : n ≡ (16 - l) + k = omega (arith, h.long) in
    let back : k + (16 - n) ≡ l = omega arith in
    let low : shr c n ≡ shr m k =
      ap (λ x. shr x n) h.code_eq ∙ ap (shr (shl m (16 - l))) t ∙ shr-shl (16 - l) k m in
    ap (bit_or (shl top (16 - n))) low
    ∙ bit_or-shl (16 - n) top (shr m k) (sym (shr-add k (16 - n) m) ∙ ap (shr m) back ∙ h.narrow)

-- The bits of the buffer behind the bits that were there: those of the code.
pub top_bits :
    (n l top m : ℕ) → shr m l ≡ 0 → bits_of (l + n) (shl top l + m) ≡ bits_of n top ++ bits_of l m
top_bits n l top m h =
    bits_of-split n l (shl top l + m)
    ∙ ap (λ x. bits_of n x ++ bits_of l (shl top l + m)) (shr-shl_add l top m h)
    ∙ ap (λ x. bits_of n top ++ x) (bits_of-shl_add l top m)
