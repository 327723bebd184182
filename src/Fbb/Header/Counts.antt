-- ===== src/Fbb/Header/Counts.antt =====
-- How often a key stands in the lines of a header: once, if it has values.
use wl2k_go.Prelude.{
  ℕ, zero, suc, ◌≡◌, refl, sym, ap, ◌∙◌, inl, inr, Bool, false, Bool-cases, List, [], ◌∷◌, ◌++◌,
  Bytes, arith, if◌then◌else◌, append-nil,
}
use wl2k_go.Go.Strings.{bytes_eq, bytes_eq_iff}
use wl2k_go.Go.Sort.{insert, stable_sort}
use wl2k_go.Go.Textproto.{Header, lookup}
use wl2k_go.Go.Textproto.Map.{values}
use wl2k_go.Fbb.Address.{equal_fold}
use wl2k_go.Fbb.Header.{header_mid, other_keys}
use wl2k_go.Fbb.Header.Wire.{IsNew, AreEntries, key_fields, fields}

abbrev pub count : Bytes → List Bytes → ℕ
count k [] = 0
count k (j ∷ ks) = if bytes_eq j k then suc (count k ks) else count k ks

abbrev pub repeat : ℕ → List Bytes → List Bytes
repeat zero vs = []
repeat (suc n) vs = vs ++ repeat n vs

values-key_fields :
    (k j : Bytes) (vs : List Bytes) (fs : List (Bytes × Bytes))
    → values k (key_fields j vs fs) ≡ (if bytes_eq j k then vs ++ values k fs else values k fs)
values-key_fields k j [] fs = elim (Bool-cases (bytes_eq j k)) [ inl e ↦ rw e | inr e ↦ rw e ]
values-key_fields k j (v ∷ vs) fs = elim (Bool-cases (bytes_eq j k)) [
  | inl e ↦ rw (values-key_fields k j vs fs) (rw e)
  | inr e ↦ rw (values-key_fields k j vs fs) (rw e)
]

pub values-fields :
    (k : Bytes) (h : Header) (ks : List Bytes)
    → values k (fields h ks) ≡ repeat (count k ks) (lookup k h)
unfolding fields
values-fields k h [] = refl
values-fields k h (j ∷ ks) =
    values-key_fields k j (lookup j h) (fields h ks) ∙ elim (Bool-cases (bytes_eq j k)) [
      | inl e ↦ rw (e, values-fields k h ks, (bytes_eq_iff j k).0 e)
      | inr e ↦ rw e (values-fields k h ks)
    ]

count-insert :
    (less : Bytes → Bytes → Bool) (k x : Bytes) (ys : List Bytes)
    → count k (insert less x ys) ≡ count k (x ∷ ys)
unfolding insert
count-insert less k x [] = refl
count-insert less k x (y ∷ ys) = ground (arith, count-insert less k x ys)

pub count-stable_sort :
    (less : Bytes → Bytes → Bool) (k : Bytes) (xs : List Bytes)
    → count k (stable_sort less xs) ≡ count k xs
unfolding stable_sort
count-stable_sort less k [] = refl
count-stable_sort less k (x ∷ xs) =
    count-insert less k x (stable_sort less xs) ∙ rw (count-stable_sort less k xs)

other_keys-IsNew : (k : Bytes) (h : Header) → IsNew k h → count k (other_keys h) ≡ 0
unfolding other_keys
other_keys-IsNew k [] n = refl
other_keys-IsNew k ((j, vs) ∷ h) n = elim (Bool-cases (equal_fold j header_mid)) [
  | inl same ↦ rw same (other_keys-IsNew k h n.1)
  | inr other ↦ rw (other, n.0) (other_keys-IsNew k h n.1)
]

-- The message id is left out.
pub count-mid : (h : Header) → AreEntries h → count header_mid (other_keys h) ≡ 0
unfolding other_keys
count-mid [] e = refl
count-mid ((j, vs) ∷ h) e = elim (Bool-cases (equal_fold j header_mid)) [
  | inl same ↦ rw same (count-mid h e.4)
  | inr other ↦ rw (other, sym e.2 ∙ other) (count-mid h e.4)
]

-- The values that a key has in the lines of the other keys are those that it has in the header.
pub repeat-other_keys :
    (k : Bytes) (h : Header)
    → AreEntries h
    → bytes_eq k header_mid ≡ false
    → repeat (count k (other_keys h)) (lookup k h) ≡ lookup k h
unfolding other_keys lookup
repeat-other_keys k [] e n = refl
repeat-other_keys k ((j, vs) ∷ h) e n = elim (Bool-cases (bytes_eq j k)) [
  | inl same ↦
      let fold : equal_fold j header_mid ≡ false =
        e.2 ∙ ap (λ t. bytes_eq t header_mid) ((bytes_eq_iff j k).0 same) ∙ n in
      let alone : count k (other_keys h) ≡ 0 =
        ap (λ t. count t (other_keys h)) (sym ((bytes_eq_iff j k).0 same))
        ∙ other_keys-IsNew j h e.3 in
      rw (fold, same, alone) (append-nil vs)
  | inr differ ↦ elim (Bool-cases (equal_fold j header_mid)) [
    | inl fold ↦ rw (fold, differ) (repeat-other_keys k h e.4 n)
    | inr fold ↦ rw (fold, differ) (repeat-other_keys k h e.4 n)
  ]
]
