-- ===== src/Lzhuf/Position.antt =====
-- lzhuf/lzhuf.go: the tables of the code for the upper six bits of a position.
use wl2k_go.Prelude.{
  ℕ, ◌+◌, ◌-◌, ◌%◌, ◌^◌, ◌<◌, ◌≡◌, refl, Bool, true, ◌&&◌, List, [], ◌∷◌, arith, ltb, ◌==◌, get_or,
  all_from, all_from_sound,
}

abbrev pub p_code : List ℕ
p_code =
    0x00 ∷ 0x20 ∷ 0x30 ∷ 0x40 ∷ 0x50 ∷ 0x58 ∷ 0x60 ∷ 0x68 ∷ 0x70 ∷ 0x78 ∷ 0x80 ∷ 0x88 ∷ 0x90 ∷ 0x94
    ∷ 0x98 ∷ 0x9C ∷ 0xA0 ∷ 0xA4 ∷ 0xA8 ∷ 0xAC ∷ 0xB0 ∷ 0xB4 ∷ 0xB8 ∷ 0xBC ∷ 0xC0 ∷ 0xC2 ∷ 0xC4
    ∷ 0xC6 ∷ 0xC8 ∷ 0xCA ∷ 0xCC ∷ 0xCE ∷ 0xD0 ∷ 0xD2 ∷ 0xD4 ∷ 0xD6 ∷ 0xD8 ∷ 0xDA ∷ 0xDC ∷ 0xDE
    ∷ 0xE0 ∷ 0xE2 ∷ 0xE4 ∷ 0xE6 ∷ 0xE8 ∷ 0xEA ∷ 0xEC ∷ 0xEE ∷ 0xF0 ∷ 0xF1 ∷ 0xF2 ∷ 0xF3 ∷ 0xF4
    ∷ 0xF5 ∷ 0xF6 ∷ 0xF7 ∷ 0xF8 ∷ 0xF9 ∷ 0xFA ∷ 0xFB ∷ 0xFC ∷ 0xFD ∷ 0xFE ∷ 0xFF ∷ []

abbrev pub p_len : List ℕ
p_len =
    0x03 ∷ 0x04 ∷ 0x04 ∷ 0x04 ∷ 0x05 ∷ 0x05 ∷ 0x05 ∷ 0x05 ∷ 0x05 ∷ 0x05 ∷ 0x05 ∷ 0x05 ∷ 0x06 ∷ 0x06
    ∷ 0x06 ∷ 0x06 ∷ 0x06 ∷ 0x06 ∷ 0x06 ∷ 0x06 ∷ 0x06 ∷ 0x06 ∷ 0x06 ∷ 0x06 ∷ 0x07 ∷ 0x07 ∷ 0x07
    ∷ 0x07 ∷ 0x07 ∷ 0x07 ∷ 0x07 ∷ 0x07 ∷ 0x07 ∷ 0x07 ∷ 0x07 ∷ 0x07 ∷ 0x07 ∷ 0x07 ∷ 0x07 ∷ 0x07
    ∷ 0x07 ∷ 0x07 ∷ 0x07 ∷ 0x07 ∷ 0x07 ∷ 0x07 ∷ 0x07 ∷ 0x07 ∷ 0x08 ∷ 0x08 ∷ 0x08 ∷ 0x08 ∷ 0x08
    ∷ 0x08 ∷ 0x08 ∷ 0x08 ∷ 0x08 ∷ 0x08 ∷ 0x08 ∷ 0x08 ∷ 0x08 ∷ 0x08 ∷ 0x08 ∷ 0x08 ∷ []

abbrev pub d_code : List ℕ
d_code =
    0x00 ∷ 0x00 ∷ 0x00 ∷ 0x00 ∷ 0x00 ∷ 0x00 ∷ 0x00 ∷ 0x00 ∷ 0x00 ∷ 0x00 ∷ 0x00 ∷ 0x00 ∷ 0x00 ∷ 0x00
    ∷ 0x00 ∷ 0x00 ∷ 0x00 ∷ 0x00 ∷ 0x00 ∷ 0x00 ∷ 0x00 ∷ 0x00 ∷ 0x00 ∷ 0x00 ∷ 0x00 ∷ 0x00 ∷ 0x00
    ∷ 0x00 ∷ 0x00 ∷ 0x00 ∷ 0x00 ∷ 0x00 ∷ 0x01 ∷ 0x01 ∷ 0x01 ∷ 0x01 ∷ 0x01 ∷ 0x01 ∷ 0x01 ∷ 0x01
    ∷ 0x01 ∷ 0x01 ∷ 0x01 ∷ 0x01 ∷ 0x01 ∷ 0x01 ∷ 0x01 ∷ 0x01 ∷ 0x02 ∷ 0x02 ∷ 0x02 ∷ 0x02 ∷ 0x02
    ∷ 0x02 ∷ 0x02 ∷ 0x02 ∷ 0x02 ∷ 0x02 ∷ 0x02 ∷ 0x02 ∷ 0x02 ∷ 0x02 ∷ 0x02 ∷ 0x02 ∷ 0x03 ∷ 0x03
    ∷ 0x03 ∷ 0x03 ∷ 0x03 ∷ 0x03 ∷ 0x03 ∷ 0x03 ∷ 0x03 ∷ 0x03 ∷ 0x03 ∷ 0x03 ∷ 0x03 ∷ 0x03 ∷ 0x03
    ∷ 0x03 ∷ 0x04 ∷ 0x04 ∷ 0x04 ∷ 0x04 ∷ 0x04 ∷ 0x04 ∷ 0x04 ∷ 0x04 ∷ 0x05 ∷ 0x05 ∷ 0x05 ∷ 0x05
    ∷ 0x05 ∷ 0x05 ∷ 0x05 ∷ 0x05 ∷ 0x06 ∷ 0x06 ∷ 0x06 ∷ 0x06 ∷ 0x06 ∷ 0x06 ∷ 0x06 ∷ 0x06 ∷ 0x07
    ∷ 0x07 ∷ 0x07 ∷ 0x07 ∷ 0x07 ∷ 0x07 ∷ 0x07 ∷ 0x07 ∷ 0x08 ∷ 0x08 ∷ 0x08 ∷ 0x08 ∷ 0x08 ∷ 0x08
    ∷ 0x08 ∷ 0x08 ∷ 0x09 ∷ 0x09 ∷ 0x09 ∷ 0x09 ∷ 0x09 ∷ 0x09 ∷ 0x09 ∷ 0x09 ∷ 0x0A ∷ 0x0A ∷ 0x0A
    ∷ 0x0A ∷ 0x0A ∷ 0x0A ∷ 0x0A ∷ 0x0A ∷ 0x0B ∷ 0x0B ∷ 0x0B ∷ 0x0B ∷ 0x0B ∷ 0x0B ∷ 0x0B ∷ 0x0B
    ∷ 0x0C ∷ 0x0C ∷ 0x0C ∷ 0x0C ∷ 0x0D ∷ 0x0D ∷ 0x0D ∷ 0x0D ∷ 0x0E ∷ 0x0E ∷ 0x0E ∷ 0x0E ∷ 0x0F
    ∷ 0x0F ∷ 0x0F ∷ 0x0F ∷ 0x10 ∷ 0x10 ∷ 0x10 ∷ 0x10 ∷ 0x11 ∷ 0x11 ∷ 0x11 ∷ 0x11 ∷ 0x12 ∷ 0x12
    ∷ 0x12 ∷ 0x12 ∷ 0x13 ∷ 0x13 ∷ 0x13 ∷ 0x13 ∷ 0x14 ∷ 0x14 ∷ 0x14 ∷ 0x14 ∷ 0x15 ∷ 0x15 ∷ 0x15
    ∷ 0x15 ∷ 0x16 ∷ 0x16 ∷ 0x16 ∷ 0x16 ∷ 0x17 ∷ 0x17 ∷ 0x17 ∷ 0x17 ∷ 0x18 ∷ 0x18 ∷ 0x19 ∷ 0x19
    ∷ 0x1A ∷ 0x1A ∷ 0x1B ∷ 0x1B ∷ 0x1C ∷ 0x1C ∷ 0x1D ∷ 0x1D ∷ 0x1E ∷ 0x1E ∷ 0x1F ∷ 0x1F ∷ 0x20
    ∷ 0x20 ∷ 0x21 ∷ 0x21 ∷ 0x22 ∷ 0x22 ∷ 0x23 ∷ 0x23 ∷ 0x24 ∷ 0x24 ∷ 0x25 ∷ 0x25 ∷ 0x26 ∷ 0x26
    ∷ 0x27 ∷ 0x27 ∷ 0x28 ∷ 0x28 ∷ 0x29 ∷ 0x29 ∷ 0x2A ∷ 0x2A ∷ 0x2B ∷ 0x2B ∷ 0x2C ∷ 0x2C ∷ 0x2D
    ∷ 0x2D ∷ 0x2E ∷ 0x2E ∷ 0x2F ∷ 0x2F ∷ 0x30 ∷ 0x31 ∷ 0x32 ∷ 0x33 ∷ 0x34 ∷ 0x35 ∷ 0x36 ∷ 0x37
    ∷ 0x38 ∷ 0x39 ∷ 0x3A ∷ 0x3B ∷ 0x3C ∷ 0x3D ∷ 0x3E ∷ 0x3F ∷ []

abbrev pub d_len : List ℕ
d_len =
    0x03 ∷ 0x03 ∷ 0x03 ∷ 0x03 ∷ 0x03 ∷ 0x03 ∷ 0x03 ∷ 0x03 ∷ 0x03 ∷ 0x03 ∷ 0x03 ∷ 0x03 ∷ 0x03 ∷ 0x03
    ∷ 0x03 ∷ 0x03 ∷ 0x03 ∷ 0x03 ∷ 0x03 ∷ 0x03 ∷ 0x03 ∷ 0x03 ∷ 0x03 ∷ 0x03 ∷ 0x03 ∷ 0x03 ∷ 0x03
    ∷ 0x03 ∷ 0x03 ∷ 0x03 ∷ 0x03 ∷ 0x03 ∷ 0x04 ∷ 0x04 ∷ 0x04 ∷ 0x04 ∷ 0x04 ∷ 0x04 ∷ 0x04 ∷ 0x04
    ∷ 0x04 ∷ 0x04 ∷ 0x04 ∷ 0x04 ∷ 0x04 ∷ 0x04 ∷ 0x04 ∷ 0x04 ∷ 0x04 ∷ 0x04 ∷ 0x04 ∷ 0x04 ∷ 0x04
    ∷ 0x04 ∷ 0x04 ∷ 0x04 ∷ 0x04 ∷ 0x04 ∷ 0x04 ∷ 0x04 ∷ 0x04 ∷ 0x04 ∷ 0x04 ∷ 0x04 ∷ 0x04 ∷ 0x04
    ∷ 0x04 ∷ 0x04 ∷ 0x04 ∷ 0x04 ∷ 0x04 ∷ 0x04 ∷ 0x04 ∷ 0x04 ∷ 0x04 ∷ 0x04 ∷ 0x04 ∷ 0x04 ∷ 0x04
    ∷ 0x04 ∷ 0x05 ∷ 0x05 ∷ 0x05 ∷ 0x05 ∷ 0x05 ∷ 0x05 ∷ 0x05 ∷ 0x05 ∷ 0x05 ∷ 0x05 ∷ 0x05 ∷ 0x05
    ∷ 0x05 ∷ 0x05 ∷ 0x05 ∷ 0x05 ∷ 0x05 ∷ 0x05 ∷ 0x05 ∷ 0x05 ∷ 0x05 ∷ 0x05 ∷ 0x05 ∷ 0x05 ∷ 0x05
    ∷ 0x05 ∷ 0x05 ∷ 0x05 ∷ 0x05 ∷ 0x05 ∷ 0x05 ∷ 0x05 ∷ 0x05 ∷ 0x05 ∷ 0x05 ∷ 0x05 ∷ 0x05 ∷ 0x05
    ∷ 0x05 ∷ 0x05 ∷ 0x05 ∷ 0x05 ∷ 0x05 ∷ 0x05 ∷ 0x05 ∷ 0x05 ∷ 0x05 ∷ 0x05 ∷ 0x05 ∷ 0x05 ∷ 0x05
    ∷ 0x05 ∷ 0x05 ∷ 0x05 ∷ 0x05 ∷ 0x05 ∷ 0x05 ∷ 0x05 ∷ 0x05 ∷ 0x05 ∷ 0x05 ∷ 0x05 ∷ 0x05 ∷ 0x05
    ∷ 0x06 ∷ 0x06 ∷ 0x06 ∷ 0x06 ∷ 0x06 ∷ 0x06 ∷ 0x06 ∷ 0x06 ∷ 0x06 ∷ 0x06 ∷ 0x06 ∷ 0x06 ∷ 0x06
    ∷ 0x06 ∷ 0x06 ∷ 0x06 ∷ 0x06 ∷ 0x06 ∷ 0x06 ∷ 0x06 ∷ 0x06 ∷ 0x06 ∷ 0x06 ∷ 0x06 ∷ 0x06 ∷ 0x06
    ∷ 0x06 ∷ 0x06 ∷ 0x06 ∷ 0x06 ∷ 0x06 ∷ 0x06 ∷ 0x06 ∷ 0x06 ∷ 0x06 ∷ 0x06 ∷ 0x06 ∷ 0x06 ∷ 0x06
    ∷ 0x06 ∷ 0x06 ∷ 0x06 ∷ 0x06 ∷ 0x06 ∷ 0x06 ∷ 0x06 ∷ 0x06 ∷ 0x06 ∷ 0x07 ∷ 0x07 ∷ 0x07 ∷ 0x07
    ∷ 0x07 ∷ 0x07 ∷ 0x07 ∷ 0x07 ∷ 0x07 ∷ 0x07 ∷ 0x07 ∷ 0x07 ∷ 0x07 ∷ 0x07 ∷ 0x07 ∷ 0x07 ∷ 0x07
    ∷ 0x07 ∷ 0x07 ∷ 0x07 ∷ 0x07 ∷ 0x07 ∷ 0x07 ∷ 0x07 ∷ 0x07 ∷ 0x07 ∷ 0x07 ∷ 0x07 ∷ 0x07 ∷ 0x07
    ∷ 0x07 ∷ 0x07 ∷ 0x07 ∷ 0x07 ∷ 0x07 ∷ 0x07 ∷ 0x07 ∷ 0x07 ∷ 0x07 ∷ 0x07 ∷ 0x07 ∷ 0x07 ∷ 0x07
    ∷ 0x07 ∷ 0x07 ∷ 0x07 ∷ 0x07 ∷ 0x07 ∷ 0x08 ∷ 0x08 ∷ 0x08 ∷ 0x08 ∷ 0x08 ∷ 0x08 ∷ 0x08 ∷ 0x08
    ∷ 0x08 ∷ 0x08 ∷ 0x08 ∷ 0x08 ∷ 0x08 ∷ 0x08 ∷ 0x08 ∷ 0x08 ∷ []

-- The bits of a byte behind the code for `i`.
abbrev pub free_bits : ℕ → ℕ
free_bits i = 2 ^ (8 - get_or p_len i 0)

-- The value and the length that the decoder looks up for a code and the bits behind it.
abbrev reads_back : ℕ → ℕ → Bool
reads_back i r =
    get_or d_code (get_or p_code i 0 + r) 0 == i
    && get_or d_len (get_or p_code i 0 + r) 0 == get_or p_len i 0

reads_back_run : all_from 0 64 (λ i. all_from 0 (free_bits i) (reads_back i)) ≡ true
unfolding all_from
reads_back_run = refl

-- A byte is the code of its value, then other bits.
abbrev begins : ℕ → Bool
begins x = let i = get_or d_code x 0 in ltb i 64 && get_or p_code i 0 + x % free_bits i == x

begins_run : all_from 0 256 begins ≡ true
unfolding all_from
begins_run = refl

both_tests : (a b c d : ℕ) → (a == b && c == d) ≡ true → (a ≡ b) × (c ≡ d)
both_tests a b c d h = (ground arith, ground arith)

bounded_test : (a b c d : ℕ) → (ltb a b && c == d) ≡ true → (a < b) × (c ≡ d)
bounded_test a b c d h = (ground arith, ground arith)

-- The code of any six bits, with any bits behind it in the byte, is looked up as these six bits and as
-- long as it is: the tables of the decoder invert those of the encoder.
pub d_code-p_code :
    (i r : ℕ)
    → i < 64
    → r < free_bits i
    → (get_or d_code (get_or p_code i 0 + r) 0 ≡ i)
      × (get_or d_len (get_or p_code i 0 + r) 0 ≡ get_or p_len i 0)
d_code-p_code i r h k =
    let row =
      all_from_sound 0 64 (λ i. all_from 0 (free_bits i) (reads_back i)) i i reads_back_run
        (omega arith) h in
    both_tests _ _ _ _ (all_from_sound 0 (free_bits i) (reads_back i) r r row (omega arith) k)

-- Every byte begins with the code of some six bits, so that the decoder never reads an unknown code.
pub p_code-d_code :
    (x : ℕ)
    → x < 256
    → (get_or d_code x 0 < 64)
      × (get_or p_code (get_or d_code x 0) 0 + x % free_bits (get_or d_code x 0) ≡ x)
p_code-d_code x h =
    bounded_test _ _ _ _ (all_from_sound 0 256 begins x x begins_run (omega arith) h)
