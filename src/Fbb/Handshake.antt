-- ===== src/Fbb/Handshake.antt =====
-- fbb/handshake.go and fbb/secure.go: the lines of the handshake.
pub mod Sid
mod Tests
use wl2k_go.Prelude.{
  ℕ, zero, suc, ◌+◌, ◌*◌, ◌-◌, ◌%◌, Bool, true, false, not, ◌&&◌, ◌||◌, Option, none, some, List,
  [], ◌∷◌, ◌++◌, Bytes, ◌==◌, leb, if◌then◌else◌, map, drop, length, replicate,
}
use mathlib.Core.List.{reverse}
use wl2k_go.Prelude.Int.{pos}
use wl2k_go.Go.Result.{ok, err, panic}
use wl2k_go.Go.Strings.{codes, has_prefix, has_suffix, contains, split, cut_at}
use wl2k_go.Go.Strconv.{show_int}
use wl2k_go.Fbb.Error.{Error, Result, bad_sid, malformed_forward}
use wl2k_go.Fbb.Proposal.{wl2k_proposal, gzip_proposal}
use wl2k_go.Fbb.Address.{Address, address_from_string, to_upper}

-- What the application configures: the fields of `Session` that the handshake uses. `secure_login` is the
-- handler, which gives a password and whether there is no error; `gzip` and `fw_aux_only` are the values of
-- the environment variables.
pub record Station : Type 0 where
  pub mycall : Bytes
  pub targetcall : Bytes
  pub locator : Bytes
  pub local_fw : List Address
  pub ua_name : Bytes
  pub ua_version : Bytes
  pub motd : List Bytes
  pub secure_login : Option (Address → Bytes × Bool)
  pub gzip : Bool
  pub fw_aux_only : Bool

abbrev pub s_fb_comp2 : Bytes
s_fb_comp2 = codes "B2"

abbrev pub s_gzip : Bytes
s_gzip = codes "G"

-- `localSID`, with the code for gzip before its last character in the experiment.
abbrev pub local_sid : Bool → Bytes
local_sid gzip = if gzip then codes "B2FHMG$" else codes "B2FHM$"

abbrev pub write_sid : Station → Bytes
write_sid st =
    b'[' ∷ (st.ua_name ++ b'-' ∷ (st.ua_version ++ b'-' ∷ (local_sid st.gzip ++ b']' ∷ 13 ∷ [])))

abbrev pub write_secure_login_response : Bytes → Bytes
write_secure_login_response response = codes ";PR: " ++ (response ++ (13 ∷ []))

abbrev pub is_sid : Bytes → Bool
is_sid s = has_prefix s (codes "[") && has_suffix s (codes "]")

-- `sid.Has`
unfoldable pub sid_has : Bytes → Bytes → Bool
sid_has sid code = contains sid (to_upper code)

-- A cut of a text that was given back to front.
abbrev pub turn : Option (Bytes × Bytes) → Option (Bytes × Bytes)
turn none = none
turn (some (a, b)) = some (reverse b, reverse a)

-- What is before the last `c` and what is behind it.
unfoldable pub cut_last : ℕ → Bytes → Option (Bytes × Bytes)
cut_last c s = turn (cut_at c (reverse s))

-- The last two parts of the expression: what is behind the last '-' of the text before the last ']'.
abbrev pub behind : Option (Bytes × Bytes) → Option Bytes
behind none = none
behind (some r) = some r.1

abbrev pub inside : Option (Bytes × Bytes) → Option Bytes
inside none = none
inside (some r) = behind (cut_last b'-' r.0)

-- The expression `\[.*-(.*)\]` in one line: from the first '[', up to the last ']' behind it, and there
-- from the last '-' on.
unfoldable pub match_sid : Bytes → Option Bytes
match_sid line = elim (cut_at b'[' line) [ none ↦ none | some r ↦ inside (cut_last b']' r.1) ]

abbrev pub or_else : Option Bytes → Option Bytes → Option Bytes
or_else none o = o
or_else (some code) o = some code

-- The first match; none spans two lines.
unfoldable pub first_match : List Bytes → Option Bytes
first_match [] = none
first_match (line ∷ lines) = or_else (match_sid line) (first_match lines)

abbrev pub read_sid : Option Bytes → Result Bytes
read_sid none = err bad_sid
read_sid (some code) = ok (to_upper code)

unfoldable pub parse_sid : Bytes → Result Bytes
parse_sid str = read_sid (first_match (split 10 str))

-- The text before the first '|', which begins a password hash.
abbrev pub strip_hash : Bytes → Bytes
strip_hash s = elim (cut_at b'|' s) [ none ↦ s | some r ↦ r.0 ]

unfoldable pub parse_fw : Bytes → Result (List Address)
parse_fw line =
    if has_prefix line (codes ";FW: ")
    then ok (map (λ s. address_from_string (strip_hash s)) (split b' ' (drop 5 line)))
    else err malformed_forward

-- `fmt.Sprintf("%08d", pr)`, then the last eight characters.
unfoldable pub eight_digits : ℕ → Bytes
eight_digits n =
    let padded = replicate (8 - length (show_int (pos n))) b'0' ++ show_int (pos n) in
    drop (length padded - 8) padded

abbrev pub sum_byte : Bytes → ℕ → ℕ
sum_byte sum i = byte (drop i sum)
  where
    byte : Bytes → ℕ
    byte [] = 0
    byte (x ∷ xs) = x

abbrev pub winlink_secure_salt : Bytes
winlink_secure_salt =
    77 ∷ 197 ∷ 101 ∷ 206 ∷ 190 ∷ 249 ∷ 93 ∷ 200 ∷ 51 ∷ 243 ∷ 93 ∷ 237 ∷ 71 ∷ 94 ∷ 239 ∷ 138 ∷ 68
    ∷ 108 ∷ 70 ∷ 185 ∷ 225 ∷ 137 ∷ 217 ∷ 16 ∷ 51 ∷ 122 ∷ 193 ∷ 48 ∷ 194 ∷ 195 ∷ 198 ∷ 175 ∷ 172
    ∷ 169 ∷ 70 ∷ 84 ∷ 61 ∷ 62 ∷ 104 ∷ 186 ∷ 114 ∷ 52 ∷ 61 ∷ 168 ∷ 66 ∷ 129 ∷ 192 ∷ 208 ∷ 187 ∷ 249
    ∷ 232 ∷ 193 ∷ 41 ∷ 113 ∷ 41 ∷ 45 ∷ 240 ∷ 16 ∷ 29 ∷ 228 ∷ 208 ∷ 228 ∷ 61 ∷ 20 ∷ []

-- `md5` is `md5.Sum`; the low 30 bits of its first four bytes.
unfoldable pub secure_login_response : (Bytes → Bytes) → Bytes → Bytes → Bytes
secure_login_response md5 challenge password =
    let sum = md5 (challenge ++ (password ++ winlink_secure_salt)) in
    eight_digits
      (((sum_byte sum 3 % 64 * 256 + sum_byte sum 2) * 256 + sum_byte sum 1) * 256 + sum_byte sum 0)

-- `highestPropCode`
abbrev pub highest_prop_code : Bool → Bytes → ℕ
highest_prop_code gzip sid = if sid_has sid s_gzip && gzip then gzip_proposal else wl2k_proposal
