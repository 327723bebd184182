-- ===== src/Go/Strconv/RoundTrip.antt =====
-- Numbers that are printed are read back.
use wl2k_go.Prelude.{
  ℕ, zero, suc, ◌+◌, ◌-◌, ◌*◌, ◌/◌, ◌%◌, ◌^◌, ◌<◌, ◌≤◌, ◌≡◌, refl, sym, ◌∙◌, ap, append_assoc, inl,
  inr, Bool-cases, tests, Bool, true, false, none, some, [], ◌∷◌, ◌++◌, Bytes, arith, ltb, ◌==◌,
  all_from, all_from_sound,
}
use native.Mathlib.Nat.{pow-suc}
use wl2k_go.Prelude.Int.{ℤ, pos, negsuc, ◌≤ℤ◌}
use wl2k_go.Go.Strings.{Free}
use wl2k_go.Go.Strconv.{
  scan, scanned, syntax_error, digit_value, signed, unsigned_part, parse_int, atoi, digits,
  show_int, show_hex2, hex_digit,
}

digit_value-digit : (d : ℕ) → d < 10 → digit_value 10 (b'0' + d) ≡ some d
unfolding digit_value
digit_value-digit d h = ground arith

scan_digit :
    (n d : ℕ) (rest : Bytes)
    → d < 10
    → n * 10 + d < 2 ^ 64
    → scan 10 n ((b'0' + d) ∷ rest) ≡ scan 10 (n * 10 + d) rest
unfolding scan
scan_digit n d rest h k = ground (arith, digit_value-digit d h)

fewer : (f n : ℕ) → n < 10 ^ suc (suc f) → n / 10 < 10 ^ suc f
fewer f n h = omega (arith, pow-suc 10 (suc f))

-- Reading the digits of `n` from nothing leaves the reader behind `n`.
scan-digits :
    (f n : ℕ) (rest : Bytes)
    → n < 10 ^ suc f
    → n < 2 ^ 64
    → scan 10 0 (digits f n rest) ≡ scan 10 n rest
unfolding digits
scan-digits zero n rest h k = ground (arith, scan_digit 0 (n % 10) rest)
scan-digits (suc f) n rest h k = ground (
  arith,
  scan_digit 0 n rest,
  scan_digit (n / 10) (n % 10) rest,
  scan-digits f (n / 10) ((b'0' + n % 10) ∷ rest) (fewer f n h),
)

-- Digits begin with a digit, which is no sign.
pub digits-cons :
    (f n : ℕ) (rest : Bytes)
    → (c : ℕ) × (s : Bytes) × (digits f n rest ≡ c ∷ s) × (b'0' ≤ c) × (c ≤ b'9')
unfolding digits
digits-cons zero n rest = (b'0' + n % 10, rest, refl, omega arith, omega arith)
digits-cons (suc f) n rest = elim (Bool-cases (ltb n 10)) [
  | inl e ↦ (b'0' + n, rest, rw e, omega arith, omega tests)
  | inr e ↦ rw e (digits-cons f (n / 10) ((b'0' + n % 10) ∷ rest))
]

unsigned_part-cons : (c : ℕ) (s : Bytes) → unsigned_part 10 (c ∷ s) ≡ scan 10 0 (c ∷ s)
unfolding unsigned_part
unsigned_part-cons c s = refl

scan-nil : (n : ℕ) → scan 10 n [] ≡ scanned n
unfolding scan
scan-nil n = refl

unsigned_part-digits :
    (f n : ℕ) (rest : Bytes)
    → n < 10 ^ suc f
    → n < 2 ^ 64
    → unsigned_part 10 (digits f n rest) ≡ scan 10 n rest
unsigned_part-digits f n rest h k =
    let (c, s, e, lo, hi) = digits-cons f n rest in
    rw e (unsigned_part-cons c s ∙ rw e at (scan-digits f n rest h k))

parse_int-digits :
    (f n : ℕ) (rest : Bytes)
    → n < 10 ^ suc f
    → n < 2 ^ 64
    → parse_int 10 (digits f n rest) ≡ signed false (scan 10 n rest)
unfolding parse_int
parse_int-digits f n rest h k =
    let (c, s, e, lo, hi) = digits-cons f n rest in
    ground (arith, e, unsigned_part-digits f n rest h k)

parse_int_minus : (s : Bytes) → parse_int 10 (b'-' ∷ s) ≡ signed true (unsigned_part 10 s)
unfolding parse_int
parse_int_minus s = refl

-- Every 64-bit int is read back from its decimal print, with no error.
pub atoi-show_int :
    (i : ℤ) → negsuc (2 ^ 63 - 1) ≤ℤ i → i ≤ℤ pos (2 ^ 63 - 1) → atoi (show_int i) ≡ (i, true)
unfolding atoi show_int signed
atoi-show_int (pos n) lo hi =
    ground (arith, parse_int-digits 19 n [] (omega arith) (omega arith), scan-nil n)
atoi-show_int (negsuc n) lo hi = ground (
  arith,
  parse_int_minus (digits 19 (suc n) []),
  unsigned_part-digits 19 (suc n) [] (omega arith) (omega arith),
  scan-nil (suc n),
)

digit-Free : (x d : ℕ) → d < 10 → x < b'0' → ((b'0' + d == x) ≡ false)
digit-Free x d h k = ground arith

digits-Free : (x f n : ℕ) (rest : Bytes) → x < b'0' → Free x rest → Free x (digits f n rest)
unfolding digits
digits-Free x zero n rest h k = (digit-Free x (n % 10) (omega arith) h, k)
digits-Free x (suc f) n rest h k = ground (
  arith,
  digit-Free x n,
  digit-Free x (n % 10) (omega arith) h,
  digits-Free x f (n / 10) ((b'0' + n % 10) ∷ rest),
)

-- A printed int holds digits and a sign, and so no space and no NUL.
pub show_int-Free : (x : ℕ) (i : ℤ) → x < b'-' → Free x (show_int i)
unfolding show_int
show_int-Free x (pos n) h = digits-Free x 19 n [] (omega arith) tt
show_int-Free x (negsuc n) h = (ground arith, digits-Free x 19 (suc n) [] (omega arith) tt)

is_value : ℕ → ℤ × Bool → Bool
is_value n (pos m, true) = m == n
is_value n (pos m, false) = false
is_value n (negsuc m, b) = false

is_value→eq : (n : ℕ) (r : ℤ × Bool) → is_value n r ≡ true → r ≡ (pos n, true)
unfolding is_value
is_value→eq n (pos m, true) h = ground arith
is_value→eq n (pos m, false) h = ground arith
is_value→eq n (negsuc m, b) h = ground arith

hex2_table : all_from 0 256 (λ n. is_value n (parse_int 16 (show_hex2 n))) ≡ true
unfolding all_from is_value parse_int signed unsigned_part scan digit_value show_hex2 hex_digit
hex2_table = refl

-- A byte is read back from its two hexadecimal digits, with no error.
pub parse_int-show_hex2 : (n : ℕ) → n < 256 → parse_int 16 (show_hex2 n) ≡ (pos n, true)
parse_int-show_hex2 n h = is_value→eq n _ (all_from_sound 0 256 _ n n hex2_table (omega arith) h)

-- The digits stand in front of the rest.
pub digits-append : (f n : ℕ) (rest : Bytes) → digits f n rest ≡ digits f n [] ++ rest
unfolding digits
digits-append zero n rest = refl
digits-append (suc f) n rest = elim (Bool-cases (ltb n 10)) [
  | inl e ↦ rw e
  | inr e ↦ rw e (
      digits-append f (n / 10) ((b'0' + n % 10) ∷ rest)
      ∙ sym (
          ap (λ l. l ++ rest) (digits-append f (n / 10) ((b'0' + n % 10) ∷ []))
          ∙ append_assoc (digits f (n / 10) []) ((b'0' + n % 10) ∷ []) rest))
]

scan_stop : (n c : ℕ) (rest : Bytes) → digit_value 10 c ≡ none → scan 10 n (c ∷ rest) ≡ syntax_error
unfolding scan
scan_stop n c rest e = ground (arith, e)

-- An int with a text behind it that begins with no digit is no number: the value is 0.
pub atoi_trailing :
    (n c : ℕ) (rest : Bytes)
    → n < 2 ^ 63
    → digit_value 10 c ≡ none
    → atoi (show_int (pos n) ++ c ∷ rest) ≡ (pos 0, false)
unfolding atoi show_int
atoi_trailing n c rest h e = rw (← digits-append 19 n (c ∷ rest)) (
    parse_int-digits 19 n (c ∷ rest) (omega arith) (omega arith)
    ∙ rw (scan_stop n c rest e) (unfold signed in refl))
