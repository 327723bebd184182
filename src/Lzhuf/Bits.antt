-- ===== src/Lzhuf/Bits.antt =====
-- Shifts of numbers, and the bits of a number as a list, the highest first.
use wl2k_go.Prelude.{
  ℕ, zero, suc, ◌+◌, ◌*◌, ◌/◌, ◌%◌, ◌<◌, ◌≡◌, refl, sym, ap, ◌∙◌, List, [], ◌∷◌, ◌++◌, append_assoc,
  append-nil, arith,
}
use native.Mathlib.Nat.{
  zero-add, mul_assoc, mod-add-div, mod-lt, mod-eq_of_lt, add-mul-mod_self_left,
}

-- `x >> k` and `x << k`.
unfoldable pub shr : ℕ → ℕ → ℕ
shr x zero = x
shr x (suc k) = shr (x / 2) k

unfoldable pub shl : ℕ → ℕ → ℕ
shl x zero = x
shl x (suc k) = 2 * shl x k

unfoldable pub bits_of : ℕ → ℕ → List ℕ
bits_of zero v = []
bits_of (suc w) v = bits_of w (v / 2) ++ v % 2 ∷ []

pub bits_of-split : (a b v : ℕ) → bits_of (b + a) v ≡ bits_of a (shr v b) ++ bits_of b v
unfolding bits_of shr
bits_of-split a zero v = ap (λ n. bits_of n v) (zero-add a) ∙ sym (append-nil (bits_of a v))
bits_of-split a (suc b) v =
    let e : suc b + a ≡ suc (b + a) = omega arith in
    ap (λ n. bits_of n v) e
    ∙ ap (λ l. l ++ v % 2 ∷ []) (bits_of-split a b (v / 2))
    ∙ append_assoc (bits_of a (shr (v / 2) b)) (bits_of b (v / 2)) (v % 2 ∷ [])

pub bits_of-shl_add : (b q r : ℕ) → bits_of b (shl q b + r) ≡ bits_of b r
unfolding bits_of shl
bits_of-shl_add zero q r = refl
bits_of-shl_add (suc b) q r =
    let half : (2 * shl q b + r) / 2 ≡ shl q b + r / 2 = omega arith in
    let low : (2 * shl q b + r) % 2 ≡ r % 2 = omega arith in
    rw (half, low, bits_of-shl_add b q (r / 2))

pub shr-shl_add : (b q r : ℕ) → shr r b ≡ 0 → shr (shl q b + r) b ≡ q
unfolding shl shr
shr-shl_add zero q r h = omega arith
shr-shl_add (suc b) q r h =
    let half : (2 * shl q b + r) / 2 ≡ shl q b + r / 2 = omega arith in
    rw half (shr-shl_add b q (r / 2) h)

pub shl-add : (b a q : ℕ) → shl q (b + a) ≡ shl (shl q a) b
unfolding shl
shl-add zero a q = ap (shl q) (zero-add a)
shl-add (suc b) a q =
    let e : suc b + a ≡ suc (b + a) = omega arith in ap (shl q) e ∙ rw (shl-add b a q)

pub shl-add_arg : (b p q : ℕ) → shl (p + q) b ≡ shl p b + shl q b
unfolding shl
shl-add_arg zero p q = refl
shl-add_arg (suc b) p q = omega (arith, shl-add_arg b p q)

pub shr-add : (a b x : ℕ) → shr x (a + b) ≡ shr (shr x a) b
unfolding shr
shr-add zero b x = ap (shr x) (zero-add b)
shr-add (suc a) b x =
    let e : suc a + b ≡ suc (a + b) = omega arith in ap (shr x) e ∙ shr-add a b (x / 2)

pub shr-zero : (a : ℕ) → shr 0 a ≡ 0
unfolding shr
shr-zero zero = refl
shr-zero (suc a) = shr-zero a

-- A shift to the left is undone.
pub shr-shl : (a b x : ℕ) → shr (shl x a) (a + b) ≡ shr x b
unfolding shl shr
shr-shl a b x =
    shr-add a b (shl x a)
    ∙ ap (λ y. shr y b)
        (let plus : shl x a ≡ shl x a + 0 = omega arith in
          ap (λ y. shr y a) plus ∙ shr-shl_add a x 0 (shr-zero a))

pub shr-shl_self : (a x : ℕ) → shr (shl x a) a ≡ x
unfolding shr
shr-shl_self a x = let e : a ≡ a + 0 = omega arith in ap (shr (shl x a)) e ∙ shr-shl a 0 x

double_mod : (a b : ℕ) → 0 < b → (2 * a) % (2 * b) ≡ 2 * (a % b)
double_mod a b h =
    let e : 2 * a ≡ 2 * (a % b) + 2 * b * (a / b) =
      omega (arith, ap (λ t. 2 * t) (mod-add-div a b), mul_assoc 2 b (a / b)) in
    ap (λ t. t % (2 * b)) e
    ∙ add-mul-mod_self_left (2 * (a % b)) (2 * b) (a / b)
    ∙ mod-eq_of_lt (omega (arith, mod-lt a h))

pub shl_pos : (k : ℕ) → 0 < shl 1 k
unfolding shl
shl_pos zero = omega arith
shl_pos (suc k) = omega (arith, shl_pos k)

-- A word that drops high bits keeps the shift.
pub shl-mod : (k j x : ℕ) → shl x k % shl 1 (k + j) ≡ shl (x % shl 1 j) k
unfolding shl
shl-mod zero j x = ap (λ n. x % shl 1 n) (zero-add j)
shl-mod (suc k) j x =
    let e : suc k + j ≡ suc (k + j) = omega arith in
    ap (λ n. shl x (suc k) % shl 1 n) e
    ∙ double_mod (shl x k) (shl 1 (k + j)) (shl_pos (k + j))
    ∙ ap (λ t. 2 * t) (shl-mod k j x)

shl-eq-mul : (k x : ℕ) → shl x k ≡ shl 1 k * x
unfolding shl
shl-eq-mul zero x = omega arith
shl-eq-mul (suc k) x = omega (arith, shl-eq-mul k x, mul_assoc 2 (shl 1 k) x)

-- The low bits do not see what a longer word drops.
pub bits_of-mod : (n i x : ℕ) → bits_of n (x % shl 1 (n + i)) ≡ bits_of n x
bits_of-mod n i x =
    let m = shl 1 (n + i) in
    let e : x ≡ shl (shl (x / m) i) n + x % m =
      omega (arith, mod-add-div x m, shl-eq-mul (n + i) (x / m), shl-add n i (x / m)) in
    sym (ap (bits_of n) e ∙ bits_of-shl_add n (shl (x / m) i) (x % m))

-- The bits of a number below a place, and those above.
pub shr-rest : (j v : ℕ) → (w : ℕ) × (v ≡ shl (shr v j) j + w) × (shr w j ≡ 0)
unfolding shl shr
shr-rest zero v = (0, omega arith, refl)
shr-rest (suc j) v =
    let (w, e, n) = shr-rest j (v / 2) in
    let half : (2 * w + v % 2) / 2 ≡ w = omega arith in
    (2 * w + v % 2, omega (arith, e), ap (λ x. shr x j) half ∙ n)
