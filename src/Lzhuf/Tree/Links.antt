-- ===== src/Lzhuf/Tree/Links.antt =====
-- The links between the nodes of the tree, and the path from the root to a node.
use wl2k_go.Prelude.{
  ℕ, zero, suc, ◌+◌, ◌-◌, ◌%◌, ◌≤◌, ◌<◌, ◌≡◌, ◌≢◌, List, [], ◌∷◌, ◌++◌, arith, ◌==◌, ==_iff,
  Bool-cases, inl, inr, length, length-append,
}
use wl2k_go.Lzhuf.Tree.{Tree, root, table_size, num_char}

-- Each character has a leaf; each node but the root has a parent behind it, whose children are the node
-- and its neighbour.
pub record IsLinked (z : Tree) : Type 0 where
  pub leaf_lt : (c : ℕ) → c < num_char → z.prnt (c + table_size) < root
  pub leaf_eq : (c : ℕ) → c < num_char → z.son (z.prnt (c + table_size)) ≡ c + table_size
  pub parent_gt : (k : ℕ) → k < root → k < z.prnt k
  pub parent_le : (k : ℕ) → k < root → z.prnt k ≤ root
  pub child_eq : (k : ℕ) → k < root → z.son (z.prnt k) ≡ k - k % 2

-- The bits from the root to a node.
pub data Descends (z : Tree) : ℕ → List ℕ → Type 0 where
  top : (k : ℕ) → k < root → z.prnt k ≡ root → Descends z k (k % 2 ∷ [])
  below :
      (k : ℕ) (bits : List ℕ)
      → k < root
      → z.prnt k ≢ root
      → Descends z (z.prnt k) bits
      → Descends z k (bits ++ k % 2 ∷ [])

-- Every node has such a path, and each step of it goes to a node behind.
pub Descends-exists :
    (z : Tree) (w : IsLinked z) (n k : ℕ)
    → k < root
    → root ≤ n + k
    → (bits : List ℕ) × Descends z k bits × (length bits ≤ n)
Descends-exists z w zero k lt h = absurd (omega arith)
Descends-exists z w (suc n) k lt h = elim (Bool-cases (z.prnt k == root)) [
  | inl e ↦ (k % 2 ∷ [], top k lt ((==_iff (z.prnt k) root).0 e), omega arith)
  | inr e ↦
      let up = w.parent_gt k lt in
      let ne : z.prnt k ≢ root = ground (arith, e) in
      let (bits, d, short) =
        Descends-exists z w n (z.prnt k) (omega (arith, w.parent_le k lt)) (omega arith) in
      (bits ++ k % 2 ∷ [], below k bits lt ne d, omega (arith, length-append {0} bits (k % 2 ∷ [])))
]
