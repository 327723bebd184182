-- ===== src/Lzhuf/Crc/Bounds.antt =====
-- The sums of lzhuf/crc.go have 16 bits, as the words of the source.
use wl2k_go.Prelude.{
  ℕ, zero, suc, ◌*◌, ◌/◌, ◌%◌, ◌≤◌, ◌<◌, ◌≡◌, refl, true, [], ◌∷◌, ◌++◌, Bytes, arith, bit_and,
  bit_xor, ltb, ltb→lt, get_or, all_from, all_from_sound,
}
use Prim.Native.Nat.{min, differ, digits, bit_and-bitwise, bit_xor-bitwise}
use wl2k_go.Lzhuf.Bits.{shl}
use wl2k_go.Lzhuf.Put.Stream.{AreBytes}
use wl2k_go.Lzhuf.Crc.{crc16tab, udp_crc16, add_bytes, crc}

-- An operation on digits, digit by digit.
module _ (z : ℕ → ℕ) (f : ℕ → ℕ → ℕ) (z_le : (b : ℕ) → z b ≤ b)
    (f_le : (x y : ℕ) → x ≤ 1 → y ≤ 1 → f x y ≤ 1) where
  digits_lt : (k n a b : ℕ) → a < shl 1 k → b < shl 1 k → digits z f n a b < shl 1 k
  unfolding shl
  digits_lt k zero a b p q = omega (arith, z_le b)
  digits_lt k (suc n) zero b p q = omega (arith, z_le b)
  digits_lt zero (suc n) (suc a) b p q = absurd (omega arith)
  digits_lt (suc k) (suc n) (suc a) b p q = omega (
    arith,
    digits_lt k n (suc a / 2) (b / 2) (omega arith) (omega arith),
    f_le (suc a % 2) (b % 2) (omega arith) (omega arith),
  )

differ_le : (x y : ℕ) → x ≤ 1 → y ≤ 1 → differ x y ≤ 1
differ_le zero y p q = q
differ_le (suc x) zero p q = p
differ_le (suc x) (suc y) p q = differ_le x y (omega arith) (omega arith)

min_le : (x y : ℕ) → x ≤ 1 → y ≤ 1 → min x y ≤ 1
min_le x y p q = omega arith

bit_xor_lt : (k a b : ℕ) → a < shl 1 k → b < shl 1 k → bit_xor a b < shl 1 k
bit_xor_lt k a b p q =
    omega (
      arith,
      bit_xor-bitwise a b,
      digits_lt (λ b. b) differ (λ b. omega arith) differ_le k a a b p q,
    )

bit_and_lt : (k a b : ℕ) → a < shl 1 k → b < shl 1 k → bit_and a b < shl 1 k
bit_and_lt k a b p q =
    omega (arith, bit_and-bitwise a b, digits_lt (λ b. 0) min (λ b. omega arith) min_le k a a b p q)

table_run : all_from 0 256 (λ i. ltb (get_or crc16tab i 0) 65536) ≡ true
unfolding all_from
table_run = refl

pub udp_crc16_lt : (c sum : ℕ) → c < 256 → sum < 65536 → udp_crc16 c sum < 65536
unfolding udp_crc16 shl
udp_crc16_lt c sum small lt =
    let i = bit_and (sum / 256) 0xff in
    let entry = ltb→lt _ _ (
      all_from_sound 0 256 (λ i. ltb (get_or crc16tab i 0) 65536) i i table_run (omega arith)
        (bit_and_lt 8 (sum / 256) 0xff (omega arith) (omega arith))) in
    bit_xor_lt 16 _ c
      (bit_xor_lt 16 _ (get_or crc16tab i 0)
        (bit_and_lt 16 (sum * 256 % 65536) 0xff00 (omega arith) (omega arith)) entry)
      (omega arith)

add_bytes_lt : (p : Bytes) (sum : ℕ) → AreBytes p → sum < 65536 → add_bytes p sum < 65536
unfolding add_bytes
add_bytes_lt [] sum h lt = lt
add_bytes_lt (c ∷ p) sum (b, h) lt = add_bytes_lt p (udp_crc16 c sum) h (udp_crc16_lt c sum b lt)

pub with_zeros : (p : Bytes) → AreBytes p → AreBytes (p ++ 0 ∷ 0 ∷ [])
with_zeros [] h = (omega arith, (omega arith, tt))
with_zeros (c ∷ p) (b, h) = (b, with_zeros p h)

pub crc_lt : (p : Bytes) → AreBytes p → crc p < 65536
unfolding crc
crc_lt p h = add_bytes_lt (p ++ 0 ∷ 0 ∷ []) 0 (with_zeros p h) (omega arith)
