-- ===== src/Go/Sort.antt =====
-- Package `sort`. `Sort` and `Stable` leave a sorted permutation; insertion from the back is one
-- such order, and it is stable.
use wl2k_go.Prelude.{
  ◌≡◌, ◌⊎◌, inl, inr, Bool, true, false, Bool-cases, List, [], ◌∷◌, if◌then◌else◌,
}
use mathlib.Core.List.{Perm}
use mathlib.Core.List.Perm

-- One of the elements.
abbrev pub Among : {A : Type 0} → A → List A → Type 0
Among a [] = ⊥
Among a (x ∷ xs) = (a ≡ x) ⊎ Among a xs

module _ {ℓ} {A : Type ℓ} where
  -- Every element of the list.
  abbrev pub All : (A → Type 0) → List A → Type 0
  All P [] = Unit {0}
  All P (x ∷ xs) = P x × All P xs

  -- Every element stands in the relation to all later ones.
  abbrev pub Ordered : (A → A → Type 0) → List A → Type 0
  Ordered R [] = Unit {0}
  Ordered R (x ∷ xs) = All (R x) xs × Ordered R xs

  pub All-mono : (P Q : A → Type 0) (xs : List A) → ((x : A) → P x → Q x) → All P xs → All Q xs
  All-mono P Q [] k h = tt
  All-mono P Q (x ∷ xs) k h = (k x h.0, All-mono P Q xs k h.1)

module _ {ℓ} {A : Type ℓ} (less : A → A → Bool) where
  unfoldable pub insert : A → List A → List A
  insert x [] = x ∷ []
  insert x (y ∷ ys) = if less y x then y ∷ insert x ys else x ∷ y ∷ ys

  unfoldable pub stable_sort : List A → List A
  stable_sort [] = []
  stable_sort (x ∷ xs) = insert x (stable_sort xs)

  insert-perm : (x : A) (ys : List A) → Perm (insert x ys) (x ∷ ys)
  unfolding insert
  insert-perm x [] = Perm.refl (x ∷ [])
  insert-perm x (y ∷ ys) = elim (Bool-cases (less y x)) [
    | inl e ↦ rw e (Perm.trans (Perm.cons y (insert-perm x ys)) (Perm.swap x y ys))
    | inr e ↦ rw e (Perm.refl (x ∷ y ∷ ys))
  ]

  -- Nothing is lost or added.
  pub stable_sort-perm : (xs : List A) → Perm (stable_sort xs) xs
  unfolding stable_sort
  stable_sort-perm [] = Perm.refl []
  stable_sort-perm (x ∷ xs) =
      Perm.trans (insert-perm x (stable_sort xs)) (Perm.cons x (stable_sort-perm xs))

  All-insert : (P : A → Type 0) (x : A) (ys : List A) → P x → All P ys → All P (insert x ys)
  unfolding insert
  All-insert P x [] h k = (h, tt)
  All-insert P x (y ∷ ys) h k = elim (Bool-cases (less y x)) [
    | inl e ↦ rw e (k.0, All-insert P x ys h k.1)
    | inr e ↦ rw e (h, k)
  ]

  pub All-stable_sort : (P : A → Type 0) (xs : List A) → All P xs → All P (stable_sort xs)
  unfolding stable_sort
  All-stable_sort P [] h = tt
  All-stable_sort P (x ∷ xs) h = All-insert P x (stable_sort xs) h.0 (All-stable_sort P xs h.1)

  -- `R` holds of a new element and one that it is put behind or in front of, and passes on.
  module _ (R S : A → A → Type 0) (behind : (x y : A) → less y x ≡ true → S x y → R y x)
      (front : (x y : A) → less y x ≡ false → S x y → R x y)
      (pass : (x y z : A) → less y x ≡ false → R y z → S x z → R x z) where
    passes : (x y : A) (ys : List A) → less y x ≡ false → All (S x) ys → All (R y) ys → All (R x) ys
    passes x y [] e h k = tt
    passes x y (z ∷ zs) e h k = (pass x y z e k.0 h.0, passes x y zs e h.1 k.1)

    Ordered-insert : (x : A) (ys : List A) → All (S x) ys → Ordered R ys → Ordered R (insert x ys)
    unfolding insert
    Ordered-insert x [] h k = (tt, tt)
    Ordered-insert x (y ∷ ys) h k = elim (Bool-cases (less y x)) [
      | inl e ↦ rw e (All-insert (R y) x ys (behind x y e h.0) k.0, Ordered-insert x ys h.1 k.1)
      | inr e ↦ rw e ((front x y e h.0, passes x y ys e h.1 k.0), k)
    ]

    pub Ordered-stable_sort : (xs : List A) → Ordered S xs → Ordered R (stable_sort xs)
    unfolding stable_sort
    Ordered-stable_sort [] h = tt
    Ordered-stable_sort (x ∷ xs) h =
        Ordered-insert x (stable_sort xs) (All-stable_sort (S x) xs h.0)
          (Ordered-stable_sort xs h.1)
