-- ===== src/Fbb/Line/Clean.antt =====
-- The lines that reach a session as they were sent, and a line that stops it.
use wl2k_go.Prelude.{
  ℕ, zero, suc, ◌≤◌, ◌≡◌, ◌≢◌, refl, ap, ◌∙◌, Bool, none, [], ◌∷◌, ◌++◌, Bytes, arith, length,
}
use mathlib.Core.List.{reverse, reverse-append, reverse-reverse}
use wl2k_go.Go.Result.{ok, panic}
use wl2k_go.Go.Strings.{Free, cut_at, cut_at-append}
use wl2k_go.Fbb.Line.{
  wide_space, space_width, last_space_width, trim_loop, trim_space, cut_nul, clean_end, clean_begin,
  clean_string, err_line, checked_line, next_line_remote_err, next_line,
}

-- Printable ASCII without the space.
abbrev pub IsGraphic : ℕ → Type 0
IsGraphic c = (33 ≤ c) × (c ≤ 126)

space_width-graphic : (a : ℕ) (s : Bytes) → IsGraphic a → space_width (a ∷ s) ≡ 0
unfolding space_width wide_space
space_width-graphic a [] h = ground arith
space_width-graphic a (b ∷ []) h = ground arith
space_width-graphic a (b ∷ c ∷ s) h = ground arith

last_space_width-graphic : (z : ℕ) (r : Bytes) → IsGraphic z → last_space_width (z ∷ r) ≡ 0
unfolding last_space_width wide_space
last_space_width-graphic z [] h = ground arith
last_space_width-graphic z (b ∷ []) h = ground arith
last_space_width-graphic z (b ∷ a ∷ r) h = ground arith

trim_loop_stop : (width : Bytes → ℕ) (f : ℕ) (s : Bytes) → width s ≡ 0 → trim_loop width f s ≡ s
unfolding trim_loop
trim_loop_stop width zero s h = refl
trim_loop_stop width (suc f) s h = rw (h, trim_loop)

trim_loop_one :
    (width : Bytes → ℕ) (f c : ℕ) (s : Bytes)
    → width (c ∷ s) ≡ 1
    → width s ≡ 0
    → trim_loop width (suc f) (c ∷ s) ≡ s
unfolding trim_loop
trim_loop_one width f c s h k = rw (h, trim_loop) (trim_loop_stop width f s k)

last_space_width-cr : (r : Bytes) → last_space_width (13 ∷ r) ≡ 1
unfolding last_space_width
last_space_width-cr [] = refl
last_space_width-cr (b ∷ []) = refl
last_space_width-cr (b ∷ a ∷ r) = refl

-- A line that begins and ends with a graphic character.
abbrev pub line_of : ℕ → Bytes → ℕ → Bytes
line_of a m z = a ∷ (m ++ z ∷ [])

reverse_line : (a : ℕ) (m : Bytes) (z : ℕ) → reverse (line_of a m z) ≡ z ∷ reverse (a ∷ m)
reverse_line a m z = reverse-append (a ∷ m) (z ∷ [])

-- The carriage return is trimmed, and nothing else, where the text begins and ends with no space.
trim_space-cr :
    (a : ℕ) (m : Bytes) (z : ℕ)
    → IsGraphic a
    → last_space_width (z ∷ reverse (a ∷ m)) ≡ 0
    → trim_space (line_of a m z ++ (13 ∷ [])) ≡ line_of a m z
unfolding trim_space
trim_space-cr a m z ha hz =
    let raw = line_of a m z ++ (13 ∷ []) in
    let back = reverse (line_of a m z) in
    rw
      (
        trim_loop_stop space_width (length raw) raw (space_width-graphic a _ ha),
        reverse-append (line_of a m z) (13 ∷ []),
      )
      (ap reverse (
          trim_loop_one last_space_width (length ((m ++ z ∷ []) ++ (13 ∷ []))) 13 back
            (last_space_width-cr back) (rw (reverse_line a m z) hz))
        ∙ reverse-reverse (line_of a m z))

clean_begin-line :
    (a : ℕ) (m : Bytes) (z : ℕ)
    → IsGraphic a
    → IsGraphic z
    → clean_begin (line_of a m z) ≡ ok (line_of a m z)
unfolding clean_begin clean_end
clean_begin-line a m z ha hz = ground (arith, reverse_line a m z, reverse-reverse (line_of a m z))

clean_begin_nul_end :
    (a : ℕ) (m : Bytes) (z : ℕ) → IsGraphic a → clean_begin (line_of a (m ++ z ∷ []) 0) ≡ ok (a ∷ m)
unfolding clean_begin clean_end cut_nul
clean_begin_nul_end a m z ha =
    ground (arith, reverse_line a (m ++ z ∷ []) 0, reverse_line a m z, reverse-reverse (a ∷ m))

err_line-none : (a : ℕ) (s : Bytes) → a ≢ b'*' → err_line (a ∷ s) ≡ none
unfolding err_line
err_line-none a s h = ground arith

next_line-cut :
    (before rest line : Bytes)
    → Free 13 before
    → clean_string (before ++ (13 ∷ [])) ≡ ok line
    → err_line line ≡ none
    → next_line (before ++ 13 ∷ rest) ≡ ok (line, rest)
unfolding next_line next_line_remote_err checked_line
next_line-cut before rest line free e n = ground (arith, cut_at-append 13 before rest free, e, n)

clean_string-line :
    (a : ℕ) (m : Bytes) (z : ℕ)
    → IsGraphic a
    → IsGraphic z
    → clean_string (line_of a m z ++ (13 ∷ [])) ≡ ok (line_of a m z)
unfolding clean_string
clean_string-line a m z ha hz =
    rw (trim_space-cr a m z ha (last_space_width-graphic z _ hz)) (clean_begin-line a m z ha hz)

last_space_width-nul : (r : Bytes) → last_space_width (0 ∷ r) ≡ 0
unfolding last_space_width wide_space
last_space_width-nul [] = refl
last_space_width-nul (b ∷ []) = ground arith
last_space_width-nul (b ∷ a ∷ r) = ground arith

clean_string_nul_end :
    (a : ℕ) (m : Bytes) (z : ℕ)
    → IsGraphic a
    → clean_string (line_of a (m ++ z ∷ []) 0 ++ (13 ∷ [])) ≡ ok (a ∷ m)
unfolding clean_string
clean_string_nul_end a m z ha =
    rw (trim_space-cr a (m ++ z ∷ []) 0 ha (last_space_width-nul _)) (clean_begin_nul_end a m z ha)

-- A line that begins and ends with a printable character, holds no carriage return and begins with no
-- '*' is returned as it was sent, and the rest of the connection is left.
pub next_line-line :
    (a : ℕ) (m : Bytes) (z : ℕ) (rest : Bytes)
    → IsGraphic a
    → IsGraphic z
    → a ≢ b'*'
    → Free 13 (line_of a m z)
    → next_line (line_of a m z ++ 13 ∷ rest) ≡ ok (line_of a m z, rest)
next_line-line a m z rest ha hz star free =
    next_line-cut (line_of a m z) rest (line_of a m z) free (clean_string-line a m z ha hz)
      (err_line-none a _ star)

-- A NUL at the end of such a line takes the character before it along: `cleanString` cuts off two bytes.
pub next_line_nul_end :
    (a : ℕ) (m : Bytes) (z : ℕ) (rest : Bytes)
    → IsGraphic a
    → a ≢ b'*'
    → Free 13 (line_of a (m ++ z ∷ []) 0)
    → next_line (line_of a (m ++ z ∷ []) 0 ++ 13 ∷ rest) ≡ ok (a ∷ m, rest)
next_line_nul_end a m z rest ha star free =
    next_line-cut (line_of a (m ++ z ∷ []) 0) rest (a ∷ m) free (clean_string_nul_end a m z ha)
      (err_line-none a _ star)

-- A line of a NUL alone panics, whether the caller asks for remote errors or not.
pub next_line_nul_only :
    (parse_err : Bool) (rest : Bytes) → next_line_remote_err parse_err (0 ∷ 13 ∷ rest) ≡ panic
unfolding next_line_remote_err cut_at clean_string clean_begin clean_end trim_space trim_loop
    space_width last_space_width
next_line_nul_only parse_err rest = refl
