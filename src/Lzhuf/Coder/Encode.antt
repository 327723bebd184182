-- ===== src/Lzhuf/Coder/Encode.antt =====
-- The code that `encodeChar` makes has the bits of the path from the root to the leaf.
use wl2k_go.Prelude.{
  ℕ, zero, suc, ◌+◌, ◌-◌, ◌/◌, ◌%◌, ◌≤◌, ◌<◌, ◌≡◌, ◌≢◌, sym, ap, ◌∙◌, some, List, [], ◌∷◌, ◌++◌,
  append_assoc, arith, ◌==◌, length, length-append, if◌then◌else◌,
}
use native.Mathlib.Nat.{add_comm}
use wl2k_go.Lzhuf.Bits.{
  shr, shl, bits_of, bits_of-split, bits_of-shl_add, shl-add, shl-add_arg, shr-add, shr-shl_add,
}
use wl2k_go.Lzhuf.Put.Stream.{IsCode}
use wl2k_go.Lzhuf.Tree.{Tree, root}
use wl2k_go.Lzhuf.Tree.Links.{Descends, top, below}
use wl2k_go.Lzhuf.Coder.{code_loop}

high_bit : (b : ℕ) → b < 2 → (if b == 0 then 0 else 0x8000) ≡ shl b 15
unfolding shl
high_bit b h = ground arith

half_shl : (u m : ℕ) → shl m (suc u) / 2 ≡ shl m u
unfolding shl
half_shl u m = omega arith

-- A round puts a bit in front of the code.
IsCode-step :
    (j i m b : ℕ)
    → suc j ≤ 16
    → b < 2
    → IsCode j i m
    → IsCode (suc j) (i / 2 + (if b == 0 then 0 else 0x8000)) (shl b j + m)
unfolding shr
IsCode-step j i m b h lt c =
    let u = 16 - suc j in
    let back : 16 - j ≡ suc u = omega arith in
    let next : suc j ≡ j + 1 = omega arith in
    let top : ◌+◌ 15 0 ≡ u + j = omega arith in
    record {
      long = h;
      code_eq =
          ap (λ x. x + (if b == 0 then 0 else 0x8000))
            (ap (λ x. x / 2) (c.code_eq ∙ ap (shl m) back) ∙ half_shl u m)
          ∙ ap (λ x. shl m u + x) (high_bit b lt ∙ ap (shl b) top ∙ shl-add u j b)
          ∙ add_comm (shl m u) (shl (shl b j) u)
          ∙ sym (shl-add_arg u (shl b j) m);
      narrow =
          ap (shr (shl b j + m)) next
          ∙ shr-add j 1 (shl b j + m)
          ∙ ap (λ x. shr x 1) (shr-shl_add j b m c.narrow)
          ∙ (let none : b / 2 ≡ 0 = omega arith in none);
    }

pub one_bit : (b : ℕ) → b < 2 → bits_of 1 b ≡ b ∷ []
unfolding bits_of
one_bit b h = let e : b % 2 ≡ b = omega arith in rw e

pub code_bits : (j m b : ℕ) → b < 2 → shr m j ≡ 0 → bits_of (suc j) (shl b j + m) ≡ b ∷ bits_of j m
code_bits j m b lt h =
    let next : suc j ≡ j + 1 = omega arith in
    ap (λ k. bits_of k (shl b j + m)) next
    ∙ bits_of-split 1 j (shl b j + m)
    ∙ ap (λ x. bits_of 1 x ++ bits_of j (shl b j + m)) (shr-shl_add j b m h)
    ∙ ap (λ x. x ++ bits_of j (shl b j + m)) (one_bit b lt)
    ∙ ap (λ x. b ∷ x) (bits_of-shl_add j b m)

-- The code that the loop makes of a node has the bits from the root to it, in front of those it began with.
abbrev pub Coded : Tree → ℕ → ℕ → ℕ → ℕ → ℕ → ℕ → List ℕ → Type 0
Coded z f k i j m n bits =
    (i' : ℕ) × (m' : ℕ) × (code_loop f z k i j ≡ some (n, i'))
    × IsCode n i' m'
    × (bits_of n m' ≡ bits ++ bits_of j m)

loop_top :
    (z : Tree) (f k i j : ℕ)
    → z.prnt k ≡ root
    → code_loop (suc f) z k i j ≡ some (suc j, i / 2 + (if k % 2 == 0 then 0 else 0x8000))
unfolding code_loop
loop_top z f k i j e = ground (arith, e)

loop_below :
    (z : Tree) (f k i j : ℕ)
    → z.prnt k ≢ root
    → code_loop (suc f) z k i j
      ≡ code_loop f z (z.prnt k) (i / 2 + (if k % 2 == 0 then 0 else 0x8000)) (suc j)
unfolding code_loop
loop_below z f k i j e = ground (arith, e)

pub code_loop-Descends :
    (z : Tree) {k : ℕ} {bits : List ℕ}
    → Descends z k bits
    → (f i j m n : ℕ) → n ≡ length bits + j
    → n ≤ 16
    → length bits ≤ f
    → IsCode j i m
    → Coded z f k i j m n bits
code_loop-Descends z (top k lt e) zero i j m n q h g c = absurd (omega arith)
code_loop-Descends z (top k lt e) (suc f) i j m n q h g c =
    let q' : n ≡ suc j = omega arith in
    rw q' (
      i / 2 + (if k % 2 == 0 then 0 else 0x8000),
      shl (k % 2) j + m,
      loop_top z f k i j e,
      IsCode-step j i m (k % 2) (omega arith) (omega arith) c,
      code_bits j m (k % 2) (omega arith) c.narrow,
    )
code_loop-Descends z (below k bits lt ne d) zero i j m n q h g c =
    absurd (omega (arith, length-append {0} bits (k % 2 ∷ [])))
code_loop-Descends z (below k bits lt ne d) (suc f) i j m n q h g c =
    let len : length (bits ++ k % 2 ∷ []) ≡ suc (length bits) =
      omega (arith, length-append {0} bits (k % 2 ∷ [])) in
    let i₁ = i / 2 + (if k % 2 == 0 then 0 else 0x8000) in
    let m₁ = shl (k % 2) j + m in
    let (i', m', e1, c1, b1) =
      code_loop-Descends z d f i₁ (suc j) m₁ n (omega arith) h (omega arith)
        (IsCode-step j i m (k % 2) (omega arith) (omega arith) c) in
    (
      i',
      m',
      loop_below z f k i j ne ∙ e1,
      c1,
      b1
          ∙ ap (λ x. bits ++ x) (code_bits j m (k % 2) (omega arith) c.narrow)
          ∙ sym (append_assoc bits (k % 2 ∷ []) (bits_of j m)),
    )
