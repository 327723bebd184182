-- ===== src/Fbb/Sorting/Order.antt =====
-- The offered order: by precedence, then by compressed size, then by message id.
use wl2k_go.Prelude.{
  ℕ, zero, suc, ◌<◌, ◌≡◌, refl, sym, ap, ◌∙◌, ◌⊎◌, inl, inr, true, false, Bool-cases, if-cases,
  no_bool, List, [], ◌∷◌, ◌++◌, Bytes, arith, ◌==◌,
}
use wl2k_go.Prelude.Int.{◌≤ℤ◌}
use wl2k_go.Go.Strings.{codes, contains, has_prefix}
use mathlib.Core.List.{Perm}
use mathlib.Core.List.Perm
use wl2k_go.Go.Sort.{All, All-mono, Ordered, stable_sort, stable_sort-perm, Ordered-stable_sort}
use wl2k_go.Fbb.Proposal.{Proposal, precedence}
use wl2k_go.Fbb.Sorting.{bytes_less, by_size_less, by_precedence_less, sort_proposals}

bytes_less_asym : (a b : Bytes) → bytes_less b a ≡ true → bytes_less a b ≡ false
unfolding bytes_less
bytes_less_asym [] [] h = refl
bytes_less_asym [] (y ∷ ys) h = ground arith
bytes_less_asym (x ∷ xs) [] h = refl
bytes_less_asym (x ∷ xs) (y ∷ ys) h = ground (arith, bytes_less_asym xs ys)

bytes_less_trans :
    (a b c : Bytes) → bytes_less b a ≡ false → bytes_less c b ≡ false → bytes_less c a ≡ false
unfolding bytes_less
bytes_less_trans [] [] [] h k = refl
bytes_less_trans [] [] (z ∷ zs) h k = refl
bytes_less_trans [] (y ∷ ys) [] h k = ground arith
bytes_less_trans [] (y ∷ ys) (z ∷ zs) h k = refl
bytes_less_trans (x ∷ xs) [] [] h k = ground arith
bytes_less_trans (x ∷ xs) [] (z ∷ zs) h k = ground arith
bytes_less_trans (x ∷ xs) (y ∷ ys) [] h k = ground arith
bytes_less_trans (x ∷ xs) (y ∷ ys) (z ∷ zs) h k = ground (arith, bytes_less_trans xs ys zs)

-- The order of the bytes of two texts; a text comes before its continuations.
abbrev pub BytesLe : Bytes → Bytes → Type 0
BytesLe [] ys = Unit {0}
BytesLe (x ∷ xs) [] = ⊥
BytesLe (x ∷ xs) (y ∷ ys) = (x < y) ⊎ ((x ≡ y) × BytesLe xs ys)

-- Neither larger, nor of the same size with a larger message id, by the code's own test.
abbrev SizeLe : Proposal → Proposal → Type 0
SizeLe a b = by_size_less b a ≡ false

size_asym : (a b : Proposal) → by_size_less b a ≡ true → SizeLe b a
unfolding by_size_less
size_asym a b h = ground (arith, bytes_less_asym a.mid b.mid)

size_trans : (a b c : Proposal) → SizeLe a b → SizeLe b c → SizeLe a c
unfolding by_size_less
size_trans a b c h k = ground (arith, bytes_less_trans a.mid b.mid c.mid)

-- The sizes ascend, and the message ids among proposals of the same size.
abbrev pub SizeOrder : Proposal → Proposal → Type 0
SizeOrder a b =
    (a.compressed_size ≤ℤ b.compressed_size)
    × (b.compressed_size ≤ℤ a.compressed_size → BytesLe a.mid b.mid)

bytes_less-BytesLe : (a b : Bytes) → bytes_less b a ≡ false → BytesLe a b
unfolding bytes_less
bytes_less-BytesLe [] ys h = tt
bytes_less-BytesLe (x ∷ xs) [] h = ground arith
bytes_less-BytesLe (x ∷ xs) (y ∷ ys) h = elim (Bool-cases (y == x)) [
  | inl e ↦ inr (ground (arith, e), bytes_less-BytesLe xs ys (ground (arith, e, h)))
  | inr e ↦ inl (ground (arith, e, h))
]

SizeLe-SizeOrder : (a b : Proposal) → SizeLe a b → SizeOrder a b
unfolding by_size_less
SizeLe-SizeOrder a b h = (ground arith, λ k. bytes_less-BytesLe a.mid b.mid (ground (arith, k, h)))

-- A mark of the title.
abbrev pub Has : Bytes → Bytes → Type 0
Has title mark = (before : Bytes) × (behind : Bytes) × (title ≡ before ++ (mark ++ behind))

has_prefix-append : (p s : Bytes) → has_prefix (p ++ s) p ≡ true
has_prefix-append [] s = refl
has_prefix-append (c ∷ p) s = ground (arith, has_prefix-append p s)

has_prefix-behind : (s p : Bytes) → has_prefix s p ≡ true → (behind : Bytes) × (s ≡ p ++ behind)
has_prefix-behind s [] h = (s, refl)
has_prefix-behind [] (c ∷ p) h = absurd (no_bool h)
has_prefix-behind (x ∷ s) (c ∷ p) h =
    let (behind, e) = has_prefix-behind s p (ground (arith, h)) in
    let same : x ≡ c = ground (arith, h) in (behind, ap (λ y. y ∷ s) same ∙ ap (λ t. c ∷ t) e)

contains-Has : (s p : Bytes) → contains s p ≡ true → Has s p
contains-Has [] p h = let (behind, e) = has_prefix-behind [] p h in ([], behind, e)
contains-Has (c ∷ s) p h = elim (Bool-cases (has_prefix (c ∷ s) p)) [
  | inl e ↦ let (behind, e') = has_prefix-behind (c ∷ s) p e in ([], behind, e')
  | inr e ↦
      let (before, behind, e') = contains-Has s p (ground (arith, h, e)) in
      (c ∷ before, behind, ap (λ t. c ∷ t) e')
]

prefix-contains : (s p : Bytes) → has_prefix s p ≡ true → contains s p ≡ true
prefix-contains [] p h = h
prefix-contains (c ∷ s) p h = ground (arith, h)

contains-append : (before p behind : Bytes) → contains (before ++ (p ++ behind)) p ≡ true
contains-append [] p behind = prefix-contains (p ++ behind) p (has_prefix-append p behind)
contains-append (c ∷ before) p behind = ground (arith, contains-append before p behind)

contains-false : (s p : Bytes) → contains s p ≡ false → Has s p → ⊥
contains-false s p h (before, behind, e) =
    no_bool (sym h ∙ ap (λ t. contains t p) e ∙ contains-append before p behind)

-- The rank of a proposal, from the marks in its title: 0 is the most urgent.
abbrev pub Rank : Proposal → ℕ → Type 0
Rank p zero = Has p.title (codes "//WL2K Z/")
Rank p (suc zero) = Has p.title (codes "//WL2K O/") × ¬ Has p.title (codes "//WL2K Z/")
Rank p (suc (suc zero)) =
    Has p.title (codes "//WL2K P/")
    × (¬ Has p.title (codes "//WL2K O/"))
    × (¬ Has p.title (codes "//WL2K Z/"))
Rank p (suc (suc (suc zero))) =
    (¬ Has p.title (codes "//WL2K P/"))
    × (¬ Has p.title (codes "//WL2K O/"))
    × (¬ Has p.title (codes "//WL2K Z/"))
Rank p (suc (suc (suc (suc n)))) = ⊥

Rank-precedence : (p : Proposal) → Rank p (precedence p)
unfolding precedence
Rank-precedence p =
    let t = p.title in
    let z = codes "//WL2K Z/" in
    let o = codes "//WL2K O/" in
    let r = codes "//WL2K P/" in
    if-cases (Rank p) (contains t z) _ _ (contains-Has t z) λ e.
      if-cases (Rank p) (contains t o) _ _ (λ e'. (contains-Has t o e', contains-false t z e))
        λ e'.
          if-cases (Rank p) (contains t r) _ _
            (λ f. (contains-Has t r f, contains-false t o e', contains-false t z e))
            (λ f. (contains-false t r f, contains-false t o e', contains-false t z e))

-- `a` is to come before `b`.
abbrev pub ComesFirst : Proposal → Proposal → Type 0
ComesFirst a b = (i : ℕ) × (j : ℕ) × Rank a i × Rank b j × ((i < j) ⊎ ((i ≡ j) × SizeOrder a b))

-- `a` may be offered before `b`.
abbrev OfferedFirst : Proposal → Proposal → Type 0
OfferedFirst a b = (precedence a < precedence b) ⊎ ((precedence a ≡ precedence b) × SizeLe a b)

OfferedFirst-ComesFirst : (a b : Proposal) → OfferedFirst a b → ComesFirst a b
OfferedFirst-ComesFirst a b (inl lt) =
    (precedence a, precedence b, Rank-precedence a, Rank-precedence b, inl lt)
OfferedFirst-ComesFirst a b (inr (e, s)) = (
  precedence a,
  precedence b,
  Rank-precedence a,
  Rank-precedence b,
  inr (e, SizeLe-SizeOrder a b s),
)

Ordered-mono :
    (R S : Proposal → Proposal → Type 0) (xs : List Proposal)
    → ((a b : Proposal) → R a b → S a b)
    → Ordered R xs
    → Ordered S xs
Ordered-mono R S [] k h = tt
Ordered-mono R S (x ∷ xs) k (h, hs) = (All-mono (R x) (S x) xs (k x) h, Ordered-mono R S xs k hs)

all_pairs : (xs : List Proposal) → Ordered (λ a b. Unit {0}) xs
all_pairs [] = tt
all_pairs (x ∷ xs) = (units xs, all_pairs xs)
  where
    units : (ys : List Proposal) → All (λ b. Unit {0}) ys
    units [] = tt
    units (y ∷ ys) = (tt, units ys)

Ordered-by_size : (xs : List Proposal) → Ordered SizeLe (stable_sort by_size_less xs)
Ordered-by_size xs =
    Ordered-stable_sort by_size_less SizeLe (λ a b. Unit {0}) (λ x y e _. size_asym x y e)
      (λ x y e _. e) (λ x y z e r _. size_trans x y z e r) xs (all_pairs xs)

ahead : (x y : Proposal) → by_precedence_less y x ≡ true → OfferedFirst y x
unfolding by_precedence_less
ahead x y e = ground arith

level : (x y : Proposal) → by_precedence_less y x ≡ false → SizeLe x y → OfferedFirst x y
unfolding by_precedence_less
level x y e s = ground arith

beyond :
    (x y z : Proposal)
    → by_precedence_less y x ≡ false
    → OfferedFirst y z
    → SizeLe x z
    → OfferedFirst x z
unfolding by_precedence_less
beyond x y z e r s = ground arith

Ordered-by_less : (props : List Proposal) → Ordered OfferedFirst (sort_proposals props)
unfolding sort_proposals
Ordered-by_less props =
    Ordered-stable_sort by_precedence_less OfferedFirst SizeLe (λ x y e s. ahead x y e) level beyond
      (stable_sort by_size_less props) (Ordered-by_size props)

-- `sortProposals` neither loses nor adds a proposal, and it leaves every proposal before every later one in this
-- order. First come the proposals whose title holds "//WL2K Z/", then those with "//WL2K O/", then those with
-- "//WL2K P/", then the others; a title with several of them counts by the first of these. Among those of one
-- rank the compressed sizes ascend, and among those of one size the message ids, in the order of their bytes.
pub sort_proposals_lem :
    (props : List Proposal)
    → Perm (sort_proposals props) props × Ordered ComesFirst (sort_proposals props)
unfolding sort_proposals
sort_proposals_lem props = (
  Perm.trans (stable_sort-perm by_precedence_less (stable_sort by_size_less props))
      (stable_sort-perm by_size_less props),
  Ordered-mono OfferedFirst ComesFirst (sort_proposals props) OfferedFirst-ComesFirst
      (Ordered-by_less props),
)
