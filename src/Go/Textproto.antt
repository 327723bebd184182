-- ===== src/Go/Textproto.antt =====
-- Package `net/textproto` of Go 1.19, as the program calls it: header keys and values, and
-- `ReadMIMEHeader`. A header is Go's map of keys to values, as an association list.
pub mod Trim
pub mod Fields
pub mod Map
pub mod Progress
use wl2k_go.Prelude.{
  ℕ, zero, suc, ◌+◌, ◌-◌, Bool, true, false, not, ◌&&◌, ◌||◌, Option, none, some, List, [], ◌∷◌,
  ◌++◌, Bytes, ◌==◌, if◌then◌else◌, length,
}
use wl2k_go.Go.Result.{Result as Outcome, ok, err, panic, ◌>>=◌}
use wl2k_go.Go.Strings.{bytes_eq, cut_at}
use wl2k_go.Go.Utf8.{within}
use mathlib.Core.List.{reverse}

-- `out_of_fuel` is no Go value.
pub data Error : Type 0 where
  eof malformed out_of_fuel : Error

abbrev pub Header : Type 0
Header = List (Bytes × List Bytes)

-- `h[key]`, which is nil for a missing key.
unfoldable pub lookup : Bytes → Header → List Bytes
lookup key [] = []
lookup key ((k, vs) ∷ h) = if bytes_eq k key then vs else lookup key h

-- `h[key] = values`.
unfoldable pub assign : Bytes → List Bytes → Header → Header
assign key values [] = (key, values) ∷ []
assign key values ((k, vs) ∷ h) =
    if bytes_eq k key then (k, values) ∷ h else (k, vs) ∷ assign key values h

-- `h[key] = append(h[key], value)`.
abbrev pub append_to : Bytes → Bytes → Header → Header
append_to key value h = assign key (lookup key h ++ value ∷ []) h

-- `delete(h, key)`.
unfoldable pub delete : Bytes → Header → Header
delete key [] = []
delete key ((k, vs) ∷ h) =
    let rest = delete key h in if bytes_eq k key then rest else (k, vs) ∷ rest

-- The first value, or the empty text.
abbrev pub first : List Bytes → Bytes
first [] = []
first (v ∷ vs) = v

abbrev pub is_blank : ℕ → Bool
is_blank c = c == b' ' || c == 9

abbrev pub is_space : ℕ → Bool
is_space c = c == b' ' || c == 9 || c == 10 || c == 13

unfoldable pub trim_left : (ℕ → Bool) → Bytes → Bytes
trim_left space [] = []
trim_left space (c ∷ s) = if space c then trim_left space s else c ∷ s

-- A byte in front of a text that is trimmed on the right.
abbrev trim_onto : (ℕ → Bool) → ℕ → Bytes → Bytes
trim_onto space c [] = if space c then [] else c ∷ []
trim_onto space c (d ∷ s) = c ∷ d ∷ s

unfoldable pub trim_right : (ℕ → Bool) → Bytes → Bytes
trim_right space [] = []
trim_right space (c ∷ s) = trim_onto space c (trim_right space s)

-- `TrimString`, and `trim`, which leaves the ends of lines.
abbrev pub trim_string : Bytes → Bytes
trim_string s = trim_right is_space (trim_left is_space s)

abbrev pub trim : Bytes → Bytes
trim s = trim_right is_blank (trim_left is_blank s)

-- `validHeaderFieldByte`.
unfoldable pub is_token : ℕ → Bool
is_token c =
    within b'a' b'z' c
    || within b'A' b'Z' c
    || within b'0' b'9' c
    || c == b'!'
    || within b'#' b'\'' c
    || c == b'*'
    || c == b'+'
    || c == b'-'
    || c == b'.'
    || within b'^' b'`' c
    || c == b'|'
    || c == b'~'

unfoldable pub all_tokens : Bytes → Bool
all_tokens [] = true
all_tokens (c ∷ s) = is_token c && all_tokens s

-- The flag says that the next letter is in upper case.
abbrev capital : Bool → ℕ → ℕ
capital true c = if within b'a' b'z' c then c - 32 else c
capital false c = if within b'A' b'Z' c then c + 32 else c

unfoldable pub capitals : Bool → Bytes → Bytes
capitals upper [] = []
capitals upper (c ∷ s) = capital upper c ∷ capitals (c == b'-') s

-- `CanonicalMIMEHeaderKey`. A key with other bytes than those of tokens stays as it is.
unfoldable pub canonical_key : Bytes → Bytes
canonical_key key = if all_tokens key then capitals true key else key

-- `MIMEHeader.Add`, `Set`, `Get` and `Del`.
unfoldable pub header_add : Bytes → Bytes → Header → Header
header_add key value h = append_to (canonical_key key) value h

unfoldable pub header_set : Bytes → Bytes → Header → Header
header_set key value h = assign (canonical_key key) (value ∷ []) h

unfoldable pub header_get : Bytes → Header → Bytes
header_get key h = first (lookup (canonical_key key) h)

unfoldable pub header_del : Bytes → Header → Header
header_del key h = delete (canonical_key key) h

-- A carriage return in front of the end of the line is dropped with it.
unfoldable pub drop_return : Bytes → Bytes
drop_return [] = []
drop_return (c ∷ []) = if c == 13 then [] else c ∷ []
drop_return (c ∷ d ∷ s) = c ∷ drop_return (d ∷ s)

abbrev pub last_line : Bytes → Option (Bytes × Bytes)
last_line [] = none
last_line (c ∷ s) = some (c ∷ s, [])

-- `readLineSlice`: a line and what follows it, or nothing at the end of the input.
unfoldable pub read_line : Bytes → Option (Bytes × Bytes)
unfolding cut_at
read_line s = elim (cut_at 10 s) [
  | none ↦ last_line s
  | some (line, rest) ↦ some (drop_return line, rest)
]

abbrev pub starts_blank : Bytes → Bool
starts_blank [] = false
starts_blank (c ∷ s) = is_blank c

-- The lines that continue one: each begins with a blank. An end of the input in one of them is dropped.
unfoldable pub continued : ℕ → Bytes → Bytes → Bytes × Bytes
continued zero line s = (line, s)
continued (suc f) line s =
    let more : Bytes × Bytes = elim (read_line (trim_left is_blank s)) [
      | none ↦ (line ++ b' ' ∷ [], [])
      | some (next, rest) ↦ continued f (line ++ b' ' ∷ trim next) rest
    ] in
    if starts_blank s then more else (line, s)

-- The key and the value of a line that was cut at its colon. A line with no key is skipped.
unfoldable pub add_field : Bytes → Bytes → Header → Header
add_field key value h = elim (canonical_key key) [
  | [] ↦ h
  | c ∷ k ↦ append_to (c ∷ k) (trim_left is_blank value) h
]

-- The loop of `ReadMIMEHeader`. A line takes a byte of the input at least.
unfoldable pub read_fields : ℕ → Bytes → Header → Outcome Error (Header × Bytes)
read_fields zero s h = err out_of_fuel
read_fields (suc f) s h = elim (read_line s) [
  | none ↦ err eof
  | some ([], rest) ↦ ok (h, rest)
  | some (c ∷ line, rest) ↦ elim (cut_at b':' (c ∷ line)) [
    | none ↦ err malformed
    | some found ↦
        let (whole, after) = continued (length rest) (trim (c ∷ line)) rest in
        elim (cut_at b':' whole) [
          | none ↦ err malformed
          | some (key, value) ↦ read_fields f after (add_field key value h)
        ]
  ]
]

-- `ReadMIMEHeader`. The first line must not begin with a blank.
unfoldable pub read_mime_header : Bytes → Outcome Error (Header × Bytes)
unfolding read_fields
read_mime_header s = if starts_blank s then err malformed else read_fields (suc (length s)) s []
