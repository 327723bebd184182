-- ===== src/Go/Utf8.antt =====
-- Package `unicode/utf8`: the runes of a text, as `for _, c := range s` reads them.
use wl2k_go.Prelude.{
  ℕ, zero, suc, ◌+◌, ◌*◌, ◌%◌, Bool, true, not, ◌&&◌, List, [], ◌∷◌, Bytes, ltb, leb, ◌==◌,
  if◌then◌else◌, length, drop,
}

abbrev pub within : ℕ → ℕ → ℕ → Bool
within lo hi c = leb lo c && leb c hi

-- U+FFFD of one byte, for a byte that begins no valid sequence.
abbrev rune_error : ℕ × ℕ
rune_error = (0xFFFD, 1)

-- Sequences of two, three and four bytes; the second byte lies in the range that the first allows.
two_bytes : ℕ → Bytes → ℕ × ℕ
two_bytes a [] = rune_error
two_bytes a (b ∷ s) = if within 0x80 0xBF b then (a % 32 * 64 + b % 64, 2) else rune_error

three_bytes : ℕ → ℕ → ℕ → Bytes → ℕ × ℕ
three_bytes lo hi a [] = rune_error
three_bytes lo hi a (b ∷ []) = rune_error
three_bytes lo hi a (b ∷ c ∷ s) =
    if within lo hi b && within 0x80 0xBF c
    then ((a % 16 * 64 + b % 64) * 64 + c % 64, 3)
    else rune_error

four_bytes : ℕ → ℕ → ℕ → Bytes → ℕ × ℕ
four_bytes lo hi a [] = rune_error
four_bytes lo hi a (b ∷ []) = rune_error
four_bytes lo hi a (b ∷ c ∷ []) = rune_error
four_bytes lo hi a (b ∷ c ∷ d ∷ s) =
    if within lo hi b && within 0x80 0xBF c && within 0x80 0xBF d
    then (((a % 8 * 64 + b % 64) * 64 + c % 64) * 64 + d % 64, 4)
    else rune_error

-- The first byte chooses.
multi_byte : ℕ → Bytes → ℕ × ℕ
unfolding two_bytes three_bytes four_bytes
multi_byte a s =
    if within 0xC2 0xDF a
    then two_bytes a s
    else (if within 0xE0 0xEF a
        then three_bytes (if ltb 0xE0 a then 0x80 else 0xA0) (if a % 16 == 13 then 0x9F else 0xBF) a
            s
        else (if within 0xF0 0xF4 a
            then four_bytes (if ltb 0xF0 a then 0x80 else 0x90) (if a == 0xF4 then 0x8F else 0xBF) a
                s
            else rune_error))

-- `utf8.DecodeRuneInString(s)`: the rune, and its width in bytes.
unfoldable pub decode_rune : Bytes → ℕ × ℕ
unfolding multi_byte
decode_rune [] = (0xFFFD, 0)
decode_rune (a ∷ s) = if ltb a 0x80 then (a, 1) else multi_byte a s

-- A round takes a byte at least, so `length s` rounds read the text.
unfoldable pub runes_loop : ℕ → Bytes → List ℕ
runes_loop zero s = []
runes_loop (suc f) [] = []
runes_loop (suc f) (c ∷ s) =
    (decode_rune (c ∷ s)).0 ∷ runes_loop f (drop (decode_rune (c ∷ s)).1 (c ∷ s))

unfoldable pub runes : Bytes → List ℕ
unfolding runes_loop
runes s = runes_loop (length s) s

-- A round of `utf8.Valid`: a byte that begins no valid sequence is read as U+FFFD of width 1.
unfoldable pub valid_loop : ℕ → Bytes → Bool
unfolding decode_rune
valid_loop zero s = true
valid_loop (suc f) [] = true
valid_loop (suc f) (c ∷ s) =
    let (r, w) = decode_rune (c ∷ s) in not (r == 0xFFFD && w == 1) && valid_loop f (drop w (c ∷ s))

unfoldable pub valid : Bytes → Bool
unfolding valid_loop
valid s = valid_loop (length s) s
