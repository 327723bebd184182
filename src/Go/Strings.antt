-- ===== src/Go/Strings.antt =====
-- Package `strings` and string indexing, over bytes.
use wl2k_go.Prelude.{
  ℕ, ◌<◌, ◌≡◌, ◌↔◌, refl, inl, inr, Option-cases, length, Bool, true, false, ◌&&◌, ◌||◌, Option,
  none, some, List, [], ◌∷◌, ◌++◌, Bytes, arith, ◌==◌, if◌then◌else◌,
}
use Prim.Native.Char.{code}
use Prim.Native.String.{String}
use mathlib.Core.List.{reverse}

-- The bytes of an ASCII literal.
abbrev pub codes : String → Bytes
codes String.[] = []
codes (String.◌∷◌ c s) = code c ∷ codes s

-- Equality of byte strings.
abbrev pub bytes_eq : Bytes → Bytes → Bool
bytes_eq [] [] = true
bytes_eq [] (y ∷ ys) = false
bytes_eq (x ∷ xs) [] = false
bytes_eq (x ∷ xs) (y ∷ ys) = x == y && bytes_eq xs ys

pub bytes_eq_refl : (xs : Bytes) → bytes_eq xs xs ≡ true
bytes_eq_refl [] = refl
bytes_eq_refl (x ∷ xs) = ground (arith, bytes_eq_refl xs)

pub bytes_eq→eq : (xs ys : Bytes) → bytes_eq xs ys ≡ true → xs ≡ ys
bytes_eq→eq [] [] h = refl
bytes_eq→eq [] (y ∷ ys) h = ground arith
bytes_eq→eq (x ∷ xs) [] h = ground arith
bytes_eq→eq (x ∷ xs) (y ∷ ys) h = ground (arith, bytes_eq→eq xs ys)

pub bytes_eq_iff : (xs ys : Bytes) → (bytes_eq xs ys ≡ true) ↔ (xs ≡ ys)
bytes_eq_iff xs ys = (bytes_eq→eq xs ys, λ e. rw e (bytes_eq_refl ys))

-- `strings.HasPrefix(s, p)`.
abbrev pub has_prefix : Bytes → Bytes → Bool
has_prefix s [] = true
has_prefix [] (p ∷ ps) = false
has_prefix (c ∷ s) (p ∷ ps) = c == p && has_prefix s ps

-- `strings.HasSuffix(s, p)`.
abbrev pub has_suffix : Bytes → Bytes → Bool
has_suffix s p = has_prefix (reverse s) (reverse p)

-- `strings.Contains(s, p)`.
abbrev pub contains : Bytes → Bytes → Bool
contains [] p = has_prefix [] p
contains (c ∷ s) p = has_prefix (c ∷ s) p || contains s p

-- `bytes.IndexByte(s, c)` and `s[:i]`, `s[i+1:]` around it: the text before the first `c`, and after.
unfoldable pub cut_at : ℕ → Bytes → Option (Bytes × Bytes)
cut_at c [] = none
cut_at c (x ∷ xs) =
    if x == c
    then some ([], xs)
    else elim (cut_at c xs) [ none ↦ none | some (a, b) ↦ some (x ∷ a, b) ]

-- One more byte in front of the words of a text; a separator begins a new word.
push_word : Bool → ℕ → List Bytes → List Bytes
push_word true x ws = [] ∷ ws
push_word false x [] = (x ∷ []) ∷ []
push_word false x (w ∷ ws) = (x ∷ w) ∷ ws

-- `strings.Split(s, sep)` for a separator of one byte.
unfoldable pub split : ℕ → Bytes → List Bytes
unfolding push_word
split c [] = [] ∷ []
split c (x ∷ xs) = push_word (x == c) x (split c xs)

-- No byte of the text is `c`.
abbrev pub Free : ℕ → Bytes → Type 0
Free c [] = Unit {0}
Free c (x ∷ xs) = ((x == c) ≡ false) × Free c xs

pub Free-append : (c : ℕ) (xs ys : Bytes) → Free c xs → Free c ys → Free c (xs ++ ys)
Free-append c [] ys h k = k
Free-append c (x ∷ xs) ys h k = (h.0, Free-append c xs ys h.1 k)

-- A text with no `c`, then `c`: that is where it is cut.
pub cut_at-append :
    (c : ℕ) (xs rest : Bytes) → Free c xs → cut_at c (xs ++ c ∷ rest) ≡ some (xs, rest)
unfolding cut_at
cut_at-append c [] rest h = ground arith
cut_at-append c (x ∷ xs) rest h = ground (arith, cut_at-append c xs rest h.1)

pub split_word : (c : ℕ) (xs : Bytes) → Free c xs → split c xs ≡ xs ∷ []
unfolding split
split_word c [] h = refl
split_word c (x ∷ xs) h = ground (arith, split_word c xs h.1)

pub split-append :
    (c : ℕ) (xs rest : Bytes) → Free c xs → split c (xs ++ c ∷ rest) ≡ xs ∷ split c rest
unfolding split
split-append c [] rest h = ground arith
split-append c (x ∷ xs) rest h = ground (arith, split-append c xs rest h.1)

-- `cut_at` leaves less than the text.
pub cut_at_shorter :
    (c : ℕ) (s before rest : Bytes) → cut_at c s ≡ some (before, rest) → length rest < length s
unfolding cut_at
cut_at_shorter c [] before rest e = cc
cut_at_shorter c (x ∷ s) before rest e = elim (Option-cases (cut_at c s)) [
  | inl n ↦ ground (arith, n)
  | inr (r, n) ↦ ground (arith, n, cut_at_shorter c s r.0 r.1 n)
]
