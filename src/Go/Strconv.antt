-- ===== src/Go/Strconv.antt =====
-- Package `strconv` and the verbs of `fmt` that the program uses. An int has 64 bits.
pub mod RoundTrip
use wl2k_go.Prelude.{
  ℕ, zero, suc, ◌+◌, ◌-◌, ◌*◌, ◌/◌, ◌%◌, ◌^◌, Bool, true, false, ◌&&◌, ◌||◌, Option, none, some,
  List, [], ◌∷◌, Bytes, ltb, leb, ◌==◌, if◌then◌else◌,
}
use wl2k_go.Prelude.Int.{ℤ, pos, negsuc}

-- The value of a digit in a base, as the loop of `ParseUint` reads it.
unfoldable pub digit_value : ℕ → ℕ → Option ℕ
digit_value base c =
    if leb b'0' c && leb c b'9' && ltb (c - b'0') base
    then some (c - b'0')
    else (if leb b'a' c && leb c b'z' && ltb (c - b'a' + 10) base
        then some (c - b'a' + 10)
        else (if leb b'A' c && leb c b'Z' && ltb (c - b'A' + 10) base
            then some (c - b'A' + 10)
            else none))

-- The three ends of `ParseUint`.
pub data Scan : Type 0 where
  scanned : ℕ → Scan
  syntax_error range_error : Scan

-- The loop of `ParseUint(s, base, 64)` behind the digits that made up `n`.
unfoldable pub scan : ℕ → ℕ → Bytes → Scan
scan base n [] = scanned n
scan base n (c ∷ s) = elim (digit_value base c) [
  | none ↦ syntax_error
  | some d ↦ if ltb (n * base + d) (2 ^ 64) then scan base (n * base + d) s else range_error
]

-- What `ParseInt` makes of the unsigned result: the value, and whether there is no error.
unfoldable pub signed : Bool → Scan → ℤ × Bool
signed neg syntax_error = (pos 0, false)
signed true range_error = (negsuc (2 ^ 63 - 1), false)
signed false range_error = (pos (2 ^ 63 - 1), false)
signed false (scanned n) = if ltb n (2 ^ 63) then (pos n, true) else (pos (2 ^ 63 - 1), false)
signed true (scanned zero) = (pos 0, true)
signed true (scanned (suc n)) =
    if ltb n (2 ^ 63) then (negsuc n, true) else (negsuc (2 ^ 63 - 1), false)

-- Digits are needed behind a sign.
unfoldable pub unsigned_part : ℕ → Bytes → Scan
unsigned_part base [] = syntax_error
unsigned_part base (c ∷ s) = scan base 0 (c ∷ s)

-- `ParseInt(s, base, 64)`, and `Atoi(s)` at base 10: the value, and whether the error is nil.
unfoldable pub parse_int : ℕ → Bytes → ℤ × Bool
parse_int base [] = (pos 0, false)
parse_int base (c ∷ s) =
    if c == b'-'
    then signed true (unsigned_part base s)
    else (if c == b'+'
        then signed false (unsigned_part base s)
        else signed false (unsigned_part base (c ∷ s)))

unfoldable pub atoi : Bytes → ℤ × Bool
atoi = parse_int 10

-- The decimal digits of a number below 10 ^ fuel, in front of `rest`.
unfoldable pub digits : ℕ → ℕ → Bytes → Bytes
digits zero n rest = (b'0' + n % 10) ∷ rest
digits (suc f) n rest =
    let more = digits f (n / 10) ((b'0' + n % 10) ∷ rest) in
    if ltb n 10 then (b'0' + n) ∷ rest else more

-- The verb `%d`. A 64-bit int has at most 19 digits.
unfoldable pub show_int : ℤ → Bytes
show_int (pos n) = digits 19 n []
show_int (negsuc n) = b'-' ∷ digits 19 (suc n) []

-- The verb `%X` of one digit.
unfoldable pub hex_digit : ℕ → ℕ
hex_digit d = if ltb d 10 then b'0' + d else b'A' + d - 10

-- The verb `%02X` of a value below 256.
unfoldable pub show_hex2 : ℕ → Bytes
show_hex2 n = hex_digit (n / 16) ∷ hex_digit (n % 16) ∷ []
