-- ===== src/Go/Mime.antt =====
-- Package `mime`: the encoding of header text that the program calls as
-- `mime.QEncoding.Encode("utf-8", s)`.
use wl2k_go.Prelude.{
  ℕ, zero, suc, ◌+◌, ◌*◌, ◌/◌, ◌%◌, ◌≡◌, inl, inr, Bool, true, false, not, ◌&&◌, ◌||◌, [], ◌∷◌,
  ◌++◌, Bytes, arith, ltb, ◌==◌, if◌then◌else◌, Bool-cases, length, take, drop,
}
use wl2k_go.Go.Strings.{codes, Free, Free-append}
use wl2k_go.Go.Strconv.{hex_digit}
use wl2k_go.Go.Utf8.{within, decode_rune}

-- A byte that needs no encoded word: printable ASCII or a tab.
abbrev is_plain : ℕ → Bool
is_plain c = within b' ' b'~' c || c == 9

needs_encoding : Bytes → Bool
needs_encoding [] = false
needs_encoding (c ∷ s) = if is_plain c then needs_encoding s else true

-- A byte that stands for itself inside an encoded word, if it is no space.
abbrev is_literal : ℕ → Bool
is_literal c = within b' ' b'~' c && not (c == b'=' || c == b'?' || c == b'_')

q_string : Bytes → Bytes
unfolding hex_digit
q_string [] = []
q_string (c ∷ s) =
    if c == b' '
    then b'_' ∷ q_string s
    else (if is_literal c
        then c ∷ q_string s
        else b'=' ∷ hex_digit (c / 16) ∷ hex_digit (c % 16) ∷ q_string s)

abbrev open_word : Bytes
open_word = codes "=?utf-8?q?"

abbrev close_word : Bytes
close_word = codes "?="

-- What stands before a rune: the end of one word and the beginning of the next, or nothing.
abbrev separator : Bool → Bytes
separator true = close_word ++ (b' ' ∷ open_word)
separator false = []

-- The rune at the front: its bytes, and how many its encoding takes.
abbrev rune_len : Bytes → ℕ × ℕ
rune_len [] = (0, 0)
rune_len (c ∷ s) =
    if is_literal c then (1, 1) else ((decode_rune (c ∷ s)).1, 3 * (decode_rune (c ∷ s)).1)

-- A word holds 63 bytes of content at most; no rune is split over two words.
q_words : ℕ → Bytes → ℕ → Bytes
unfolding q_string decode_rune
q_words zero s n = []
q_words (suc f) [] n = []
q_words (suc f) (c ∷ s) n =
    let (w, e) = rune_len (c ∷ s) in
    let full = ltb 63 (n + e) in
    separator full
    ++ (q_string (take w (c ∷ s)) ++ q_words f (drop w (c ∷ s)) (if full then e else n + e))

-- `mime.QEncoding.Encode("utf-8", s)`. A round takes a byte at least.
unfoldable pub q_encode : Bytes → Bytes
unfolding needs_encoding q_words
q_encode s = if needs_encoding s then open_word ++ (q_words (length s) s 0 ++ close_word) else s

plain-Free : (s : Bytes) → needs_encoding s ≡ false → Free 0 s
unfolding needs_encoding
plain-Free [] h = tt
plain-Free (c ∷ s) h = ground (arith, plain-Free s)

hex_digit_pos : (d : ℕ) → (hex_digit d == 0) ≡ false
unfolding hex_digit
hex_digit_pos d = ground arith

q_string-Free : (s : Bytes) → Free 0 (q_string s)
unfolding q_string
q_string-Free [] = tt
q_string-Free (c ∷ s) =
    ground (arith, q_string-Free s, hex_digit_pos (c / 16), hex_digit_pos (c % 16))

separator-Free : (b : Bool) → Free 0 (separator b)
separator-Free true = ground arith
separator-Free false = tt

q_words-Free : (f : ℕ) (s : Bytes) (n : ℕ) → Free 0 (q_words f s n)
unfolding q_words
q_words-Free zero s n = tt
q_words-Free (suc f) [] n = tt
q_words-Free (suc f) (c ∷ s) n =
    let (w, e) = rune_len (c ∷ s) in
    let full = ltb 63 (n + e) in
    let word = q_string (take w (c ∷ s)) in
    let more = q_words f (drop w (c ∷ s)) (if full then e else n + e) in
    Free-append 0 (separator full) (word ++ more) (separator-Free full) (
      Free-append 0 word more (q_string-Free (take w (c ∷ s)))
        (q_words-Free f (drop w (c ∷ s)) (if full then e else n + e)))

-- An encoded text holds no NUL.
pub q_encode-Free : (s : Bytes) → Free 0 (q_encode s)
unfolding q_encode
q_encode-Free s = elim (Bool-cases (needs_encoding s)) [
  | inl e ↦ rw e (
      let words = q_words (length s) s 0 in
      Free-append 0 open_word (words ++ close_word) (ground arith)
        (Free-append 0 words close_word (q_words-Free (length s) s 0) (ground arith)))
  | inr e ↦ rw e (plain-Free s e)
]

-- `mime.QEncoding.Encode("ISO-8859-1", s)`: a word of another charset than UTF-8 is not split.
unfoldable pub q_encode_latin1 : Bytes → Bytes
unfolding needs_encoding q_string
q_encode_latin1 s =
    if needs_encoding s then codes "=?ISO-8859-1?q?" ++ (q_string s ++ close_word) else s
