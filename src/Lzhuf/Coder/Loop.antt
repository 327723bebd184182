-- ===== src/Lzhuf/Coder/Loop.antt =====
-- Bits that are read one by one, and a byte of bits.
use wl2k_go.Prelude.{
  ℕ, zero, suc, ◌+◌, ◌*◌, ◌/◌, ◌<◌, ◌≡◌, refl, sym, ap, ◌∙◌, List, ◌∷◌, ◌++◌, arith, get_or, drop,
}
use wl2k_go.Lzhuf.Bits.{shr, shl, bits_of, shl-add, shl-add_arg, shr-add, shr-rest}
use wl2k_go.Lzhuf.Read.{BitReader, read_bits}
use wl2k_go.Lzhuf.Read.Stream.{ahead, IsFine, get_bit}
use wl2k_go.Lzhuf.Coder.Encode.{code_bits}
use wl2k_go.Lzhuf.Coder.{position_loop}

loop_step :
    (j i b : ℕ) (r r' : BitReader)
    → read_bits 1 r ≡ (r', b)
    → position_loop (suc j) i r ≡ position_loop j (i * 2 + b) r'
unfolding position_loop
loop_step j i b r r' e = rw e

loop_zero : (i v : ℕ) (r : BitReader) → shr v 0 ≡ 0 → position_loop 0 i r ≡ (r, shl i 0 + v)
unfolding position_loop shl shr
loop_zero i v r n = let plus : i ≡ i + v = omega (arith, n) in ap (λ x. (r, x)) plus

no_bits : (v : ℕ) (ys : List ℕ) → bits_of 0 v ++ ys ≡ ys
unfolding bits_of
no_bits v ys = refl

-- The highest of `j + 1` bits is a bit.
top_bit : (j v : ℕ) → shr v (suc j) ≡ 0 → shr v j < 2
unfolding shr
top_bit j v n =
    let e : shr v j / 2 ≡ 0 =
      sym (shr-add j 1 v) ∙ ap (shr v) (let o : j + 1 ≡ suc j = omega arith in o) ∙ n in
    omega arith

shl-next : (j i b : ℕ) → shl (i * 2 + b) j ≡ shl i (suc j) + shl b j
unfolding shl
shl-next j i b =
    shl-add_arg j (i * 2) b
    ∙ ap (λ x. x + shl b j)
        (ap (λ x. shl x j) (let e : i * 2 ≡ shl i 1 = omega arith in e)
          ∙ sym (shl-add j 1 i)
          ∙ ap (shl i) (let o : j + 1 ≡ suc j = omega arith in o))

-- The loop appends the bits that it reads.
pub position_loop-bits :
    (j i v : ℕ) (r : BitReader) (ys : List ℕ)
    → shr v j ≡ 0
    → IsFine r
    → ahead r ≡ bits_of j v ++ ys
    → (r' : BitReader) × (position_loop j i r ≡ (r', shl i j + v)) × (ahead r' ≡ ys) × IsFine r'
position_loop-bits zero i v r ys n bytes e = (r, loop_zero i v r n, e ∙ no_bits v ys, bytes)
position_loop-bits (suc j) i v r ys n bytes e =
    let b = shr v j in
    let (w, v-eq, w-low) = shr-rest j v in
    let bits : bits_of (suc j) v ≡ b ∷ bits_of j w =
      ap (bits_of (suc j)) v-eq ∙ code_bits j w b (top_bit j v n) w-low in
    let (r₁, e1, a1, b1) = get_bit r b (bits_of j w ++ ys) bytes (e ∙ ap (λ x. x ++ ys) bits) in
    let (r', e2, a2, b2) = position_loop-bits j (i * 2 + b) w r₁ ys w-low b1 a1 in
    let value : shl (i * 2 + b) j + w ≡ shl i (suc j) + v = omega (arith, shl-next j i b, v-eq) in
    (r', loop_step j i b r r₁ e1 ∙ e2 ∙ ap (λ x. (r', x)) value, a2, b2)

-- Eight bits in front of a list determine a byte.
pub front_byte :
    (u v : ℕ) (xs ys : List ℕ)
    → u < 256
    → v < 256
    → bits_of 8 u ++ xs ≡ bits_of 8 v ++ ys
    → (u ≡ v) × (xs ≡ ys)
unfolding bits_of
front_byte u v xs ys hu hv e =
    let at = λ (k : ℕ). ap (λ l. get_or l k 0) e in
    (omega (arith, at 0, at 1, at 2, at 3, at 4, at 5, at 6, at 7), ap (λ l. drop 8 l) e)
