-- ===== src/Lzhuf/Tree/Exchange.antt =====
-- The exchange of two nodes, and the search for the node to exchange with.
use wl2k_go.Prelude.{
  ℕ, zero, suc, ◌+◌, ◌≤◌, ◌<◌, ◌≡◌, ◌≢◌, ap, ◌∙◌, false, arith, ◌==◌, ==_iff, Bool-cases, ltb,
  ltb→lt, inl, inr, if◌then◌else◌,
}
use wl2k_go.Lzhuf.Tree.{Array, Tree, root, table_size, store, last_equal, exchange_nodes}
use wl2k_go.Lzhuf.Tree.Shape.{is_below, is_below-false, is_below-child, IsPlace, IsShape}
use wl2k_go.Lzhuf.Tree.Raise.{swapped}

-- The search ends in front of the first frequency that is not less.
pub last_equal_lem :
    (n k : ℕ) (freq : Array) (l m : ℕ)
    → l ≤ m
    → m < n + l
    → k ≤ freq (m + 1)
    → (l ≤ last_equal n k freq l)
      × (last_equal n k freq l ≤ m)
      × (k ≤ freq (last_equal n k freq l + 1))
      × ((i : ℕ) → l < i → i ≤ last_equal n k freq l → freq i < k)
unfolding last_equal
last_equal_lem zero k freq l m le lt h = absurd (omega arith)
last_equal_lem (suc n) k freq l m le lt h = elim (Bool-cases (ltb (freq (l + 1)) k)) [
  | inl e ↦
      let less = ltb→lt (freq (l + 1)) k e in
      let ne : l ≢ m = λ x. omega (arith, less, h, ap (λ y. freq (y + 1)) x) in
      let (a, b, c, d) = last_equal_lem n k freq (suc l) m (omega arith) (omega arith) h in
      rw e (
        omega arith,
        b,
        c,
        λ i p q. elim (Bool-cases (i == l + 1)) [
          | inl f ↦ omega (arith, less, ap freq ((==_iff i (l + 1)).0 f))
          | inr f ↦ d i (ground (arith, f)) q
        ],
      )
  | inr e ↦ rw e (omega arith, le, ground (arith, e), λ i p q. absurd (omega arith))
]

module _ (z : Tree) (s : IsShape z.prnt z.son) (c l : ℕ) (lt : c < l) (le : l ≤ root) where
  stored :
      (i j x : ℕ)
      → (let up = store i l z.prnt in
          let up' = if ltb i table_size then store (i + 1) l up else up in
          let down = store j c up' in (if ltb j table_size then store (j + 1) c down else down) x)
        ≡ (if is_below j x then c else (if is_below i x then l else z.prnt x))
  stored i j x = ground arith

  -- The exchange, as the tables after it.
  pub exchange-prnt : (x : ℕ) → IsPlace x → (exchange_nodes c l z).prnt x ≡ swapped c l (z.prnt x)
  unfolding exchange_nodes
  exchange-prnt x p =
      stored (z.son c) (z.son l) x
      ∙ rw (is_below-child s l x le p, is_below-child s c x (omega arith) p) (ground arith)

  pub exchange-son : (x : ℕ) → (exchange_nodes c l z).son x ≡ z.son (swapped c l x)
  unfolding exchange_nodes
  exchange-son x = ground arith

  pub exchange-freq : (x : ℕ) → (exchange_nodes c l z).freq x ≡ z.freq (swapped c l x)
  unfolding exchange_nodes
  exchange-freq x = ground arith

  is_below-root : (p : ℕ) → p ≤ root → is_below (z.son p) root ≡ false
  is_below-root p h =
      is_below-false (z.son p) root (ground (arith, s.low p h)) (λ g. omega (arith, s.low p h g))

  pub exchange-root : (exchange_nodes c l z).prnt root ≡ 0
  unfolding exchange_nodes
  exchange-root =
      stored (z.son c) (z.son l) root ∙ rw (is_below-root l le, is_below-root c (omega arith)) s.top
