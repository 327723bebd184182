-- ===== src/Go/Textproto/Trim.antt =====
-- Keys and values of headers: what trimming and cutting leave of them.
use wl2k_go.Prelude.{
  ℕ, ◌≡◌, ◌≢◌, refl, inl, inr, Bool, true, false, Bool-cases, [], ◌∷◌, ◌++◌, Bytes, arith, ◌==◌,
  ==_iff,
}
use wl2k_go.Go.Strings.{Free}
use wl2k_go.Go.Textproto.{
  is_token, all_tokens, canonical_key, is_blank, is_space, trim_left, trim_onto, trim_right,
  trim_string, starts_blank,
}

-- The first byte, and the last one, if there is one.
abbrev pub starts : (ℕ → Bool) → Bytes → Bool
starts p [] = false
starts p (c ∷ s) = p c

abbrev pub stops : (ℕ → Bool) → Bytes → Bool
stops p [] = false
stops p (c ∷ []) = p c
stops p (c ∷ d ∷ s) = stops p (d ∷ s)

-- A key in canonical form, and a value of one line with no space at its ends.
pub record IsKey (key : Bytes) : Type 0 where
  pub ne_nil : key ≢ []
  pub tokens : all_tokens key ≡ true
  pub canonical : canonical_key key ≡ key

pub record IsValue (value : Bytes) : Type 0 where
  pub one_line : Free 10 value
  pub front : starts is_space value ≡ false
  pub back : stops is_space value ≡ false

pub trim_left-eq : (p : ℕ → Bool) (v : Bytes) → starts p v ≡ false → trim_left p v ≡ v
unfolding trim_left
trim_left-eq p [] h = refl
trim_left-eq p (c ∷ s) h = rw h

trim_right-eq : (p : ℕ → Bool) (v : Bytes) → stops p v ≡ false → trim_right p v ≡ v
unfolding trim_right
trim_right-eq p [] h = refl
trim_right-eq p (c ∷ []) h = rw h
trim_right-eq p (c ∷ d ∷ s) h = rw (trim_right-eq p (d ∷ s) h)

starts-is_blank : (v : Bytes) → starts is_space v ≡ false → starts is_blank v ≡ false
starts-is_blank [] h = refl
starts-is_blank (c ∷ s) h = ground arith

stops-is_blank : (v : Bytes) → stops is_space v ≡ false → stops is_blank v ≡ false
stops-is_blank [] h = refl
stops-is_blank (c ∷ []) h = ground arith
stops-is_blank (c ∷ d ∷ s) h = stops-is_blank (d ∷ s) h

-- `Write` leaves such a value as it is.
pub trim_string-IsValue : {v : Bytes} → IsValue v → trim_string v ≡ v
trim_string-IsValue {v} h = rw (trim_left-eq is_space v h.front) (trim_right-eq is_space v h.back)

-- Trimming stops at a byte that is no blank.
pub trim_right-append :
    (p : ℕ → Bool) (xs : Bytes) (c : ℕ) (ys : Bytes)
    → p c ≡ false
    → trim_right p (xs ++ c ∷ ys) ≡ xs ++ c ∷ trim_right p ys
unfolding trim_right
trim_right-append p [] c ys h = elim (trim_right p ys) as (λ t. trim_onto p c t ≡ c ∷ t) [
  | [] ↦ rw h
  | d ∷ s ↦ refl
]
trim_right-append p (x ∷ []) c ys h = rw (trim_right-append p [] c ys h)
trim_right-append p (x ∷ y ∷ xs) c ys h = rw (trim_right-append p (y ∷ xs) c ys h)

-- The text behind the colon of a line, once trimmed.
pub value_trimmed :
    {v : Bytes} → IsValue v → trim_left is_blank (trim_right is_blank (b' ' ∷ v)) ≡ v
unfolding trim_right trim_left
value_trimmed {v = []} h = refl
value_trimmed {v = c ∷ s} h =
    rw (trim_right-eq is_blank (c ∷ s) (stops-is_blank (c ∷ s) h.back))
      (trim_left-eq is_blank (c ∷ s) (starts-is_blank (c ∷ s) h.front))

token-ne_blank : (c : ℕ) → is_token c ≡ true → is_blank c ≡ false
unfolding is_token
token-ne_blank c h = ground arith

-- A byte that is no token stands in no key.
tokens-Free : (x : ℕ) (k : Bytes) → is_token x ≡ false → all_tokens k ≡ true → Free x k
unfolding all_tokens
tokens-Free x [] e h = tt
tokens-Free x (c ∷ k) e h = elim (Bool-cases (is_token c)) [
  | inl t ↦ (
    elim (Bool-cases (c == x)) [
      | inl same ↦ absurd (let same' = (==_iff c x).0 same in cc)
      | inr other ↦ other
    ],
    tokens-Free x k e (rw t at h),
  )
  | inr t ↦ absurd (let h' = rw t at h in cc)
]

pub IsKey-Free : (x : ℕ) {k : Bytes} → is_token x ≡ false → IsKey k → Free x k
IsKey-Free x {k} e h = tokens-Free x k e h.tokens

pub IsKey-starts_blank : (k rest : Bytes) → IsKey k → starts_blank (k ++ rest) ≡ false
unfolding all_tokens
IsKey-starts_blank [] rest h = absurd (h.ne_nil refl)
IsKey-starts_blank (c ∷ k) rest h = elim (Bool-cases (is_token c)) [
  | inl t ↦ token-ne_blank c t
  | inr t ↦ absurd (let h' = rw t at h.tokens in cc)
]
