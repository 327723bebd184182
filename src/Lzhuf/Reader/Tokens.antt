-- ===== src/Lzhuf/Reader/Tokens.antt =====
-- Tokens that are encoded one after the other are decoded as they were.
use wl2k_go.Prelude.{
  ℕ, ◌+◌, ◌-◌, ◌≤◌, ◌<◌, ◌≡◌, refl, ap, ◌∙◌, Option, none, some, List, [], ◌∷◌, ◌++◌, append_assoc,
  append-nil, arith, length, false, ltb,
}
use mathlib.Core.Path.{subst}
use wl2k_go.Go.Sort.{All}
use wl2k_go.Lzhuf.Bits.{bits_of, shl}
use wl2k_go.Lzhuf.Put.{Put}
use wl2k_go.Lzhuf.Put.Stream.{Holds, stream}
use wl2k_go.Lzhuf.Read.{BitReader}
use wl2k_go.Lzhuf.Read.Stream.{ahead, IsFine}
use wl2k_go.Lzhuf.Tree.{Tree, root, table_size, num_char, update}
use wl2k_go.Lzhuf.Tree.Climb.{IsTree}
use wl2k_go.Lzhuf.Tree.Keeps.{update-IsTree}
use wl2k_go.Lzhuf.Tree.Depth.{IsTree-IsLinked}
use wl2k_go.Lzhuf.Coder.{encode_position, decode_position}
use wl2k_go.Lzhuf.Coder.Char.{encode_char-Descends, decode_char-Descends}
use wl2k_go.Lzhuf.Coder.RoundTrip.{char_path}
use wl2k_go.Lzhuf.Coder.Place.{
  position_bits, encode_position-Holds, decode_position-encode_position,
}
use wl2k_go.Lzhuf.Search.{buffer_size, lookahead, threshold}
use wl2k_go.Lzhuf.Writer.{Token, literal, copy, encode_token, with_position}
use wl2k_go.Lzhuf.Reader.{decode_token, got_token}

abbrev pub IsToken : Token → Type 0
IsToken (literal c) = c < 256
IsToken (copy n position) = (threshold < n) × (n ≤ lookahead) × (position < buffer_size)

-- The character that a token is written with.
abbrev pub char_of : Token → ℕ
char_of (literal c) = c
char_of (copy n position) = 255 - threshold + n

-- `encode`, token by token.
unfoldable pub encode_tokens : List Token → Tree → Put → Option (Put × Tree)
unfolding encode_token
encode_tokens [] z s = some (s, z)
encode_tokens (t ∷ ts) z s = elim (encode_token t z s) [
  | none ↦ none
  | some (s', z') ↦ encode_tokens ts z' s'
]

abbrev pub update_all : List Token → Tree → Tree
update_all [] z = z
update_all (t ∷ ts) z = update_all ts (update (char_of t) z)

-- A token and the bits that it is written as, in a tree.
pub record IsCoded (z : Tree) (t : Token) (bits : List ℕ) : Type 0 where
  pub encoded :
      (s : Put) (xs : List ℕ)
      → Holds s xs
      → (s' : Put) × (encode_token t z s ≡ some (s', update (char_of t) z)) × Holds s' (xs ++ bits)
  pub decoded :
      (r : BitReader) (ys : List ℕ)
      → IsFine r
      → ahead r ≡ bits ++ ys
      → (r' : BitReader) × (decode_token z r ≡ some (t, r', update (char_of t) z))
        × (ahead r' ≡ ys)
        × IsFine r'

literal-IsCoded :
    (z : Tree) (c : ℕ)
    → IsTree z table_size
    → z.freq root < 4181
    → c < 256
    → (bits : List ℕ) × IsCoded z (literal c) bits
unfolding encode_token decode_token
literal-IsCoded z c t few lt =
    let (bits, d, short) = char_path z c t few (omega arith) in
    (
      bits,
      record {
        encoded = encode_char-Descends z c bits d short;
        decoded = λ r ys fine h.
            let (r', e, left, fine') =
              decode_char-Descends z (IsTree-IsLinked t) c bits (omega arith) d short r ys fine h in
            (r', ap got_token e ∙ ground arith, left, fine');
      },
    )

got_copy :
    (n position : ℕ) (r r' : BitReader) (z : Tree)
    → threshold < n
    → decode_position r ≡ (r', position)
    → got_token (some (r, 255 - threshold + n, z)) ≡ some (copy n position, r', z)
got_copy n position r r' z long e =
    let more : ltb (255 - threshold + n) 256 ≡ false = ground arith in
    let length_eq : 255 - threshold + n + threshold - 255 ≡ n = omega arith in
    rw (more, e, length_eq) refl

abbrev pub nothing : Put
nothing = record { buf = []; putbuf = 0; putlen = 0 }

pub nothing-Holds : Holds nothing []
unfolding stream bits_of shl
nothing-Holds = record { bytes = tt; few = omega arith; top = 0; buffer_eq = refl; bits_eq = refl }

copy-IsCoded :
    (z : Tree) (n position : ℕ)
    → IsTree z table_size
    → z.freq root < 4181
    → IsToken (copy n position)
    → (bits : List ℕ) × IsCoded z (copy n position) bits
unfolding encode_token decode_token
copy-IsCoded z n position t few (long, small, near) =
    let c = 255 - threshold + n in
    let (bits, d, short) = char_path z c t few (omega arith) in
    (
      bits ++ position_bits position,
      record {
        encoded = λ s xs held.
            let (s', e, held') = encode_char-Descends z c bits d short s xs held in
            (
              encode_position position s',
              ap (with_position position) e,
              subst (Holds (encode_position position s'))
                  (append_assoc xs bits (position_bits position))
                  (encode_position-Holds position s' (xs ++ bits) (omega arith) held'),
            );
        decoded = λ r ys fine h.
            let (r₁, e, left, fine') =
              decode_char-Descends z (IsTree-IsLinked t) c bits (omega arith) d short r
                (position_bits position ++ ys) fine
                (h ∙ append_assoc bits (position_bits position) ys) in
            let (_, (r', e', left', fine₂)) =
              decode_position-encode_position position nothing [] (omega arith) nothing-Holds r₁ ys
                fine' left in
            (r', ap got_token e ∙ got_copy n position r₁ r' (update c z) long e', left', fine₂);
      },
    )

token-IsCoded :
    (z : Tree) (t : Token)
    → IsTree z table_size
    → z.freq root < 4181
    → IsToken t
    → (bits : List ℕ) × IsCoded z t bits
token-IsCoded z (literal c) w few h = literal-IsCoded z c w few h
token-IsCoded z (copy n position) w few h = copy-IsCoded z n position w few h

char_of_lt : (t : Token) → IsToken t → char_of t < num_char
char_of_lt (literal c) h = omega arith
char_of_lt (copy n position) h = omega (arith, h.1)

-- The tokens of a text and the bits that they are written as. Those are written behind what was put before;
-- and where they are read, each call of the decoder gives the next token.
pub data AreCoded : Tree → List Token → List ℕ → Type 0 where
  none_left : {z : Tree} → AreCoded z [] []
  one_more :
      {z : Tree} {t : Token} {ts : List Token} {bits rest : List ℕ}
      → IsCoded z t bits
      → AreCoded (update (char_of t) z) ts rest
      → AreCoded z (t ∷ ts) (bits ++ rest)

pub tokens-AreCoded :
    (ts : List Token) (z : Tree)
    → All IsToken ts
    → IsTree z table_size
    → z.freq root + length ts ≤ 4181
    → (bits : List ℕ) × AreCoded z ts bits
tokens-AreCoded [] z w t few = ([], none_left)
tokens-AreCoded (x ∷ ts) z (h, hs) t few =
    let (bits, c) = token-IsCoded z x t (omega arith) h in
    let (t', count) = update-IsTree (char_of x) z (char_of_lt x h) t (omega arith) in
    let (rest, cs) = tokens-AreCoded ts (update (char_of x) z) hs t' (omega (arith, count)) in
    (bits ++ rest, one_more c cs)

pub encode_tokens-AreCoded :
    {z : Tree} {ts : List Token} {bits : List ℕ}
    → AreCoded z ts bits
    → (s : Put) (xs : List ℕ) → Holds s xs
    → (s' : Put) × (encode_tokens ts z s ≡ some (s', update_all ts z)) × Holds s' (xs ++ bits)
unfolding encode_tokens
encode_tokens-AreCoded none_left s xs held = (s, refl, rw (append-nil xs) held)
encode_tokens-AreCoded (one_more {z} {t} {ts} {bits} {rest} c cs) s xs held =
    let (s₁, e, held₁) = c.encoded s xs held in
    let (s₂, e', held₂) = encode_tokens-AreCoded cs s₁ (xs ++ bits) held₁ in
    (s₂, rw (encode_tokens, e) e', subst (Holds s₂) (append_assoc xs bits rest) held₂)
