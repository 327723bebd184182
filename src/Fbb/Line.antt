-- ===== src/Fbb/Line.antt =====
-- fbb/helpers.go: the lines of a session, their clean-up, and the errors that they carry.
pub mod Clean
pub mod Progress
mod Tests
use wl2k_go.Prelude.{
  ℕ, zero, suc, ◌-◌, Bool, true, false, ◌&&◌, ◌||◌, Option, none, some, List, [], ◌∷◌, ◌++◌, Bytes,
  ltb, leb, ◌==◌, if◌then◌else◌, length, drop,
}
use mathlib.Core.List.{reverse}
use wl2k_go.Go.Result.{ok, err, panic, ◌>>=◌}
use wl2k_go.Go.Strings.{cut_at}
use wl2k_go.Go.Utf8.{within}
use wl2k_go.Fbb.Error.{Error, Result, eof, remote_error}

-- `unicode.IsSpace` of one byte.
abbrev pub is_space : ℕ → Bool
is_space c = within 9 13 c || c == b' '

-- The width of the space that begins a text, 0 if none does: ASCII, then U+0085 and U+00A0,
-- then U+1680, U+2000 to U+200A, U+2028, U+2029, U+202F, U+205F and U+3000.
unfoldable pub wide_space : ℕ → ℕ → ℕ → Bool
wide_space a b c =
    (a == 0xE1 && b == 0x9A && c == 0x80)
    || (a == 0xE2 && b == 0x80 && (within 0x80 0x8A c || c == 0xA8 || c == 0xA9 || c == 0xAF))
    || (a == 0xE2 && b == 0x81 && c == 0x9F)
    || (a == 0xE3 && b == 0x80 && c == 0x80)

abbrev pub pair_space : ℕ → ℕ → Bool
pair_space a b = a == 0xC2 && (b == 0x85 || b == 0xA0)

unfoldable pub space_width : Bytes → ℕ
space_width [] = 0
space_width (a ∷ []) = if is_space a then 1 else 0
space_width (a ∷ b ∷ []) = if is_space a then 1 else (if pair_space a b then 2 else 0)
space_width (a ∷ b ∷ c ∷ s) =
    if is_space a then 1 else (if pair_space a b then 2 else (if wide_space a b c then 3 else 0))

-- The same at the end of a text, which is given back to front.
unfoldable pub last_space_width : Bytes → ℕ
last_space_width [] = 0
last_space_width (a ∷ []) = if is_space a then 1 else 0
last_space_width (b ∷ a ∷ []) = if is_space b then 1 else (if pair_space a b then 2 else 0)
last_space_width (c ∷ b ∷ a ∷ s) =
    if is_space c then 1 else (if pair_space b c then 2 else (if wide_space a b c then 3 else 0))

unfoldable pub trim_loop : (Bytes → ℕ) → ℕ → Bytes → Bytes
trim_loop width zero s = s
trim_loop width (suc f) s = elim (width s) [ zero ↦ s | suc w ↦ trim_loop width f (drop (suc w) s) ]

-- `strings.TrimSpace`. A round takes a byte at least.
unfoldable pub trim_space : Bytes → Bytes
trim_space s =
    let left = trim_loop space_width (length s) s in
    reverse (trim_loop last_space_width (length left) (reverse left))

-- `str[0 : len(str)-2]`, where the last byte is a NUL; the argument is the text before it, back
-- to front. A text of one byte has no such slice.
unfoldable pub cut_nul : Bytes → Result Bytes
cut_nul [] = panic
cut_nul (c ∷ r) = ok (reverse r)

-- `str[len(str)-1] == 0`, on a text that is given back to front.
unfoldable pub clean_end : Bytes → Result Bytes
clean_end [] = panic
clean_end (c ∷ r) = if c == 0 then cut_nul r else ok (reverse (c ∷ r))

unfoldable pub clean_begin : Bytes → Result Bytes
clean_begin [] = ok []
clean_begin (c ∷ s) = if c == 0 then clean_end (reverse s) else clean_end (reverse (c ∷ s))

unfoldable pub clean_string : Bytes → Result Bytes
clean_string str = clean_begin (trim_space str)

-- What follows the last `c`, if there is one.
unfoldable pub after_last : ℕ → Bytes → Option Bytes
after_last c [] = none
after_last c (x ∷ s) = elim (after_last c s) [
  | some r ↦ some r
  | none ↦ if x == c then some s else none
]

-- The text of the error that a line carries, or none.
unfoldable pub err_line : Bytes → Option Bytes
err_line [] = none
err_line (c ∷ s) =
    if c == b'*'
    then elim (after_last b'*' (c ∷ s)) [
      | none ↦ none
      | some [] ↦ none
      | some (x ∷ r) ↦ some (trim_space (x ∷ r))
    ]
    else none

-- The end of `nextLineRemoteErr`: a line is an error if it carries one and errors are asked for.
unfoldable pub checked_line : Bool → Bytes → Bytes → Result (Bytes × Bytes)
checked_line parse_err line rest = elim (err_line line) [
  | none ↦ ok (line, rest)
  | some e ↦ if parse_err then err (remote_error e) else ok (line, rest)
]

-- The line, and what follows it on the connection.
unfoldable pub next_line_remote_err : Bool → Bytes → Result (Bytes × Bytes)
next_line_remote_err parse_err s = elim (cut_at 13 s) [
  | none ↦ err eof
  | some (before, rest) ↦
      clean_string (before ++ (13 ∷ [])) >>= λ line. checked_line parse_err line rest
]

unfoldable pub next_line : Bytes → Result (Bytes × Bytes)
next_line = next_line_remote_err true
