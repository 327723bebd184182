-- ===== src/Lzhuf/Or.antt =====
-- `|` of a shifted number and one that fits below it is their sum.
use wl2k_go.Prelude.{ℕ, zero, suc, ◌+◌, ◌*◌, ◌/◌, ◌%◌, ◌≤◌, ◌≡◌, refl, ap, ◌∙◌, arith, bit_or}
use Prim.Native.Nat.{max, digits, bit_or-bitwise}
use wl2k_go.Lzhuf.Bits.{shr, shl}

-- `bit_or` stands for a recursion on digits with fuel; any fuel that is enough gives the same.
abbrev or_digits : ℕ → ℕ → ℕ → ℕ
or_digits f a b = digits (λ y. y) max f a b

or_digits_fuel : (f g a b : ℕ) → a ≤ f → a ≤ g → or_digits f a b ≡ or_digits g a b
or_digits_fuel zero zero a b p q = refl
or_digits_fuel zero (suc g) zero b p q = refl
or_digits_fuel zero (suc g) (suc a) b p q = absurd (omega arith)
or_digits_fuel (suc f) zero zero b p q = refl
or_digits_fuel (suc f) zero (suc a) b p q = absurd (omega arith)
or_digits_fuel (suc f) (suc g) zero b p q = refl
or_digits_fuel (suc f) (suc g) (suc a) b p q =
    omega (arith, or_digits_fuel f g (suc a / 2) (b / 2) (omega arith) (omega arith))

zero-bit_or : (b : ℕ) → bit_or 0 b ≡ b
zero-bit_or b = bit_or-bitwise 0 b

bit_or_step : (a b : ℕ) → bit_or a b ≡ bit_or (a / 2) (b / 2) * 2 + max (a % 2) (b % 2)
bit_or_step zero b = omega (arith, zero-bit_or b, zero-bit_or (b / 2))
bit_or_step (suc a) b = omega (
  arith,
  bit_or-bitwise (suc a) b,
  bit_or-bitwise (suc a / 2) (b / 2),
  or_digits_fuel a (suc a / 2) (suc a / 2) (b / 2) (omega arith) (omega arith),
)

bit_or-zero_fuel : (f a : ℕ) → a ≤ f → bit_or a 0 ≡ a
bit_or-zero_fuel f zero h = zero-bit_or 0
bit_or-zero_fuel zero (suc a) h = absurd (omega arith)
bit_or-zero_fuel (suc f) (suc a) h =
    omega (arith, bit_or_step (suc a) 0, bit_or-zero_fuel f (suc a / 2) (omega arith))

pub bit_or-shl : (k q r : ℕ) → shr r k ≡ 0 → bit_or (shl q k) r ≡ shl q k + r
unfolding shl shr
bit_or-shl zero q r h = ap (bit_or q) h ∙ bit_or-zero_fuel q q (omega arith) ∙ omega arith
bit_or-shl (suc k) q r h =
    let half : (2 * shl q k) / 2 ≡ shl q k = omega arith in
    let tail = ap (λ x. bit_or x (r / 2)) half ∙ bit_or-shl k q (r / 2) h in
    omega (arith, bit_or_step (2 * shl q k) r, tail)
