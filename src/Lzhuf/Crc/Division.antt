-- ===== src/Lzhuf/Crc/Division.antt =====
-- The table and the loops of lzhuf/crc.go, and the division by the polynomial, bit by bit.
use wl2k_go.Prelude.{
  ℕ, ◌*◌, ◌%◌, ◌/◌, ◌<◌, ◌≡◌, refl, ap, ◌∙◌, sym, true, List, [], ◌∷◌, ◌++◌, Bytes, arith, bit_and,
  bit_xor, ltb, ◌==◌, if◌then◌else◌, get_or, all_from, all_from_sound,
}
use wl2k_go.Go.Sort.{All}
use wl2k_go.Lzhuf.Put.Stream.{AreBytes}
use wl2k_go.Lzhuf.Crc.{
  crc16tab, udp_crc16, add_bytes, new_crc_writer, crc_writer_sum, crc, write_all, joined,
  add_bytes-append, write_all-joined,
}
use wl2k_go.Lzhuf.Crc.Bounds.{udp_crc16_lt, with_zeros}

-- One step of the division by x^16 + x^12 + x^5 + 1: the remainder, of 16 bits, is shifted by one bit, and what
-- is shifted out takes the polynomial off.
abbrev pub divide_step : ℕ → ℕ
divide_step n = if ltb n 32768 then n * 2 else bit_xor (n * 2 % 65536) 0x1021

abbrev pub divide_byte : ℕ → ℕ
divide_byte n = divide_step (
    divide_step
      (divide_step (divide_step (divide_step (divide_step (divide_step (divide_step n)))))))

-- The remainder of the bytes behind a remainder `n`: eight steps for each, and the byte comes in below.
abbrev pub divide : Bytes → ℕ → ℕ
divide [] n = n
divide (c ∷ s) n = divide s (bit_xor (divide_byte n) c)

shifted : ℕ → ℕ
shifted n = bit_xor (bit_and (n * 256 % 65536) 0xff00) (get_or crc16tab (bit_and (n / 256) 0xff) 0)

table_run : all_from 0 65536 (λ n. shifted n == divide_byte n) ≡ true
unfolding all_from shifted
table_run = refl

==→≡ : (a b : ℕ) → (a == b) ≡ true → a ≡ b
==→≡ a b h = ground arith

shifted-divide_byte : (n : ℕ) → n < 65536 → shifted n ≡ divide_byte n
shifted-divide_byte n h =
    ==→≡ _ _
      (all_from_sound 0 65536 (λ n. shifted n == divide_byte n) n n table_run (omega arith) h)

udp_crc16-divide_byte : (c sum : ℕ) → sum < 65536 → udp_crc16 c sum ≡ bit_xor (divide_byte sum) c
unfolding udp_crc16 shifted
udp_crc16-divide_byte c sum h = ap (λ x. bit_xor x c) (shifted-divide_byte sum h)

add_bytes-divide : (s : Bytes) (sum : ℕ) → AreBytes s → sum < 65536 → add_bytes s sum ≡ divide s sum
unfolding add_bytes
add_bytes-divide [] sum b h = refl
add_bytes-divide (c ∷ s) sum (small, b) h =
    add_bytes-divide s (udp_crc16 c sum) b (udp_crc16_lt c sum small h)
    ∙ ap (divide s) (udp_crc16-divide_byte c sum h)

AreBytes-append : (s t : Bytes) → AreBytes s → AreBytes t → AreBytes (s ++ t)
AreBytes-append [] t b b' = b'
AreBytes-append (c ∷ s) t (small, b) b' = (small, AreBytes-append s t b b')

AreBytes-joined : (ps : List Bytes) → All AreBytes ps → AreBytes (joined ps)
unfolding joined
AreBytes-joined [] b = tt
AreBytes-joined (p ∷ ps) (b, bs) = AreBytes-append p (joined ps) b (AreBytes-joined ps bs)

-- A file of bytes that is written to the checksum piece by piece, however it is cut, has the sum that `crc` gives
-- of the whole; and that is the remainder of the whole, with two zeros behind it, by the polynomial x^16 + x^12 +
-- x^5 + 1, divided bit by bit.
pub crc_writer_sum-divide :
    (ps : List Bytes)
    → All AreBytes ps
    → (crc_writer_sum (write_all ps new_crc_writer) ≡ crc (joined ps))
      × (crc (joined ps) ≡ divide (joined ps ++ 0 ∷ 0 ∷ []) 0)
unfolding crc
crc_writer_sum-divide ps b = (
  ap (add_bytes (0 ∷ 0 ∷ [])) (write_all-joined ps 0)
      ∙ sym (add_bytes-append (joined ps) (0 ∷ 0 ∷ []) 0),
  add_bytes-divide (joined ps ++ 0 ∷ 0 ∷ []) 0 (with_zeros (joined ps) (AreBytes-joined ps b))
      (omega arith),
)
