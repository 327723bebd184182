-- ===== src/Lzhuf/Tree/Shape.antt =====
-- What update keeps of the tree: how its nodes hang together, and their frequencies.
use wl2k_go.Prelude.{
  ℕ, zero, suc, ◌+◌, ◌-◌, ◌%◌, ◌≤◌, ◌<◌, ◌≡◌, ◌≢◌, sym, ap, ◌∙◌, Bool, true, false, ◌&&◌, ◌||◌,
  arith, ◌==◌, ==_iff, Bool-cases, ◌⊎◌, ltb, ltb→lt, inl, inr, if◌then◌else◌,
}
use wl2k_go.Lzhuf.Tree.{Array, root, table_size, num_char}

-- The place of a node or of the leaf of a character, in the table of parents.
abbrev pub IsPlace : ℕ → Type 0
IsPlace x = (x < table_size + num_char) × (x ≢ root)

-- Each node has the leaf of a character under it, or two nodes beside each other in front of it; and the
-- tables of the parents and of the children agree.
pub record IsShape (prnt son : Array) : Type 0 where
  pub small : (j : ℕ) → j ≤ root → son j < table_size + num_char
  pub even : (j : ℕ) → j ≤ root → son j < table_size → son j % 2 ≡ 0
  pub low : (j : ℕ) → j ≤ root → son j < table_size → suc (son j) < j
  pub child : (j : ℕ) → j ≤ root → prnt (son j) ≡ j
  pub twin : (j : ℕ) → j ≤ root → son j < table_size → prnt (suc (son j)) ≡ j
  pub up_le : (x : ℕ) → IsPlace x → prnt x ≤ root
  pub node : (k : ℕ) → k < root → son (prnt k) ≡ k - k % 2
  pub leaf : (c : ℕ) → c < num_char → son (prnt (c + table_size)) ≡ c + table_size
  pub top : prnt root ≡ 0

-- One if the sum of the node `p` waits for the node `c` to be raised.
abbrev pub pend : ℕ → ℕ → ℕ
pend c p = if p == c then 1 else 0

-- The nodes stand in the order of their frequencies, and the frequency of a node is the sum of those below
-- it; but for that of `c`, if `c` is a node, which is one less.
pub record IsWeighed (freq prnt : Array) (c : ℕ) : Type 0 where
  pub positive : (k : ℕ) → k ≤ root → 0 < freq k
  pub sorted : (k : ℕ) → k < root → freq k ≤ freq (suc k)
  pub sum :
      (k : ℕ)
      → k < root
      → freq (prnt k) + pend c (prnt k) ≡ freq (k - k % 2) + freq (suc (k - k % 2))
  pub last : freq table_size ≡ 0xffff

-- The places that are set with the one at `i`.
abbrev pub is_below : ℕ → ℕ → Bool
is_below i x = x == i || (ltb i table_size && x == suc i)

is_below-true : (i x : ℕ) → (x ≡ i) ⊎ ((i < table_size) × (x ≡ suc i)) → is_below i x ≡ true
is_below-true i x (inl e) = ground arith
is_below-true i x (inr (h, e)) = ground arith

pub is_below-false : (i x : ℕ) → x ≢ i → (i < table_size → x ≢ suc i) → is_below i x ≡ false
is_below-false i x n m = ground arith

module _ {prnt son : Array} (s : IsShape prnt son) where
  pub prnt_gt : (k : ℕ) → k < root → k < prnt k
  prnt_gt k lt =
      let le = s.up_le k (omega arith, omega arith) in
      let e = s.node k lt in omega (arith, s.low (prnt k) le (omega (arith, e)), e)

  -- A place is one of those below its parent.
  pub below_parent :
      (x : ℕ)
      → IsPlace x
      → (x ≡ son (prnt x)) ⊎ ((son (prnt x) < table_size) × (x ≡ suc (son (prnt x))))
  below_parent x (small, ne) = elim (Bool-cases (ltb x root)) [
    | inl e ↦
        let lt = ltb→lt x root e in
        let at = s.node x lt in
        elim (Bool-cases (x % 2 == 0)) [
          | inl o ↦ inl (ground (arith, o, at))
          | inr o ↦ inr (omega (arith, at), ground (arith, o, at))
        ]
    | inr e ↦
        let from : x - table_size + table_size ≡ x = ground (arith, e) in
        inl (sym (rw from at (s.leaf (x - table_size) (omega arith))))
  ]

  -- The places below a node are those whose parent it is.
  pub is_below-child : (p x : ℕ) → p ≤ root → IsPlace x → is_below (son p) x ≡ (prnt x == p)
  is_below-child p x le h = elim (Bool-cases (prnt x == p)) [
    | inl e ↦
        let at : son (prnt x) ≡ son p = ap son ((==_iff (prnt x) p).0 e) in
        rw e (rw at at (is_below-true (son (prnt x)) x (below_parent x h)))
    | inr e ↦ rw e (
        is_below-false (son p) x
          (λ q. let f = (==_iff (prnt x) p).1 (ap prnt q ∙ s.child p le) in cc)
          (λ g q. let f = (==_iff (prnt x) p).1 (ap prnt q ∙ s.twin p le g) in cc))
  ]

  module _ {freq : Array} {c : ℕ} (w : IsWeighed freq prnt c) where
    pub sorted_le : (i j : ℕ) → i ≤ j → j ≤ root → freq i ≤ freq j
    sorted_le i zero h r = let e : i ≡ 0 = omega arith in omega (arith, ap freq e)
    sorted_le i (suc j) h r = elim (Bool-cases (i == suc j)) [
      | inl e ↦ omega (arith, ap freq ((==_iff i (suc j)).0 e))
      | inr e ↦
          omega (arith, sorted_le i j (ground (arith, e)) (omega arith), w.sorted j (omega arith))
    ]

    pub sorted_lt : (i k : ℕ) → i ≤ root → freq i < freq k → i < k
    sorted_lt i k hi lt = elim (Bool-cases (ltb i k)) [
      | inl e ↦ ltb→lt i k e
      | inr e ↦ absurd (omega (arith, sorted_le k i (ground (arith, e)) hi))
    ]

    -- A node is less than the sum of the nodes below its parent.
    pub child_lt : (k : ℕ) → k < root → freq k < freq (prnt k) + pend c (prnt k)
    child_lt k lt =
        let e = w.sum k lt in
        let p = w.positive (k - k % 2) (omega arith) in
        let q = w.positive (suc (k - k % 2)) (omega arith) in
        elim (Bool-cases (k % 2 == 0)) [
          | inl o ↦ let at : k - k % 2 ≡ k = ground (arith, o) in omega (arith, e, q, ap freq at)
          | inr o ↦
              let at : suc (k - k % 2) ≡ k = ground (arith, o) in omega (arith, e, p, ap freq at)
        ]

    -- The sum at a node that has nodes below it.
    pub sum_at :
        (j : ℕ)
        → j ≤ root
        → son j < table_size
        → freq j + pend c j ≡ freq (son j) + freq (suc (son j))
    sum_at j le lt =
        let at : son j - son j % 2 ≡ son j = omega (arith, s.even j le lt) in
        let front : son j < root = omega (arith, s.low j le lt) in
        rw (s.child j le, at) at (w.sum (son j) front)
