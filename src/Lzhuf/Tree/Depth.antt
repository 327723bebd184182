-- ===== src/Lzhuf/Tree/Depth.antt =====
-- How deep a well-formed tree can be: frequencies grow towards the root at least like Fibonacci's numbers.
use wl2k_go.Prelude.{
  ℕ, zero, suc, ◌+◌, ◌-◌, ◌%◌, ◌≤◌, ◌<◌, ◌≡◌, ◌≢◌, refl, ap, List, [], ◌∷◌, ◌++◌, arith, ◌==◌,
  ==_iff, Bool-cases, ltb, inl, inr, length, length-append,
}
use wl2k_go.Lzhuf.Tree.{Tree, root, table_size}
use wl2k_go.Lzhuf.Tree.Links.{IsLinked, Descends, top, below}
use wl2k_go.Lzhuf.Tree.Shape.{pend, prnt_gt, sorted_le, child_lt}
use wl2k_go.Lzhuf.Tree.Climb.{IsTree}

-- `n` steps of Fibonacci's sequence from `a` and `b`.
unfoldable pub fibonacci : ℕ → ℕ → ℕ → ℕ
fibonacci zero a b = a
fibonacci (suc n) a b = fibonacci n b (a + b)

fibonacci_mono : (n a b a' b' : ℕ) → a ≤ a' → b ≤ b' → fibonacci n a b ≤ fibonacci n a' b'
unfolding fibonacci
fibonacci_mono zero a b a' b' p q = p
fibonacci_mono (suc n) a b a' b' p q = fibonacci_mono n b (a + b) b' (a' + b') q (omega arith)

fibonacci_le : (n m a b : ℕ) → n ≤ m → a ≤ b → fibonacci n a b ≤ fibonacci m a b
unfolding fibonacci
fibonacci_le n zero a b h g =
    let e : n ≡ 0 = omega arith in omega (arith, ap (λ x. fibonacci x a b) e)
fibonacci_le n (suc m) a b h g = elim (Bool-cases (n == suc m)) [
  | inl e ↦ omega (arith, ap (λ x. fibonacci x a b) ((==_iff n (suc m)).0 e))
  | inr e ↦ omega (
    arith,
    fibonacci_le n m a b (ground (arith, e)) g,
    fibonacci_mono m a b b (a + b) g (omega arith),
  )
]

seventeen : fibonacci 17 1 2 ≡ 4181
unfolding fibonacci
seventeen = refl

module _ {z : Tree} (t : IsTree z table_size) where
  exact : (p : ℕ) → p ≤ root → pend table_size p ≡ 0
  exact p h = ground arith

  pub IsTree-IsLinked : IsLinked z
  IsTree-IsLinked =
      let s = t.shape in
      let up = prnt_gt s 625 (omega arith) in
      let at : z.prnt 625 ≡ root = omega (arith, s.up_le 625 (omega arith, omega arith)) in
      let two : z.son root ≡ 624 = rw at at (s.node 625 (omega arith)) in
      record {
        leaf_lt = λ c h.
            let ne : z.prnt (c + table_size) ≢ root =
              λ e. omega (arith, two, s.leaf c h, ap z.son e) in
            omega (arith, s.up_le (c + table_size) (omega arith, omega arith));
        leaf_eq = s.leaf;
        parent_gt = prnt_gt s;
        parent_le = λ k h. s.up_le k (omega arith, omega arith);
        child_eq = s.node;
      }

  -- The frequency of a node and that of its parent make at most that of the parent's parent.
  grandparent :
      (k : ℕ)
      → k < root
      → z.prnt k < root
      → z.freq k + z.freq (z.prnt k) ≤ z.freq (z.prnt (z.prnt k))
  grandparent k lt lt' =
      let w = t.weighed in
      let p = z.prnt k in
      let up = prnt_gt t.shape k lt in
      let whole = w.sum p lt' in
      let none_open = exact (z.prnt p) (t.shape.up_le p (omega arith, omega arith)) in
      elim (Bool-cases (p % 2 == 0)) [
        | inl o ↦
            let at : p - p % 2 ≡ p = ground (arith, o) in
            let behind = sorted_le t.shape w k (suc p) (omega arith) (omega arith) in
            omega (arith, rw at at whole, none_open, behind)
        | inr o ↦
            let at : suc (p - p % 2) ≡ p = ground (arith, o) in
            let front = sorted_le t.shape w k (p - p % 2) (omega (arith, at)) (omega arith) in
            omega (arith, rw at at whole, none_open, front)
      ]

  pub root_ge :
      (k : ℕ) (bits : List ℕ)
      → Descends z k bits
      → fibonacci (length bits) (z.freq k) (z.freq (z.prnt k)) ≤ z.freq root
  unfolding fibonacci
  root_ge k bits (top k' lt e) = omega (arith, ap z.freq e)
  root_ge k bits (below k' bits' lt ne d) =
      let up = t.shape.up_le k' (omega arith, omega arith) in
      let len : length (bits' ++ k' % 2 ∷ []) ≡ suc (length bits') =
        omega (arith, length-append {0} bits' (k' % 2 ∷ [])) in
      rw len (
        omega (
          arith,
          root_ge (z.prnt k') bits' d,
          fibonacci_mono (length bits') (z.freq (z.prnt k')) (z.freq k' + z.freq (z.prnt k'))
              (z.freq (z.prnt k')) (z.freq (z.prnt (z.prnt k'))) (omega arith)
              (grandparent k' lt (omega arith)),
        ))

  -- In a well-formed tree in which less than 4181 has been counted in all, there are at most 16 steps from the root to
  -- a node, so the code of each character has at most 16 bits, as many as `encodeChar` keeps.
  pub Descends-short :
      (k : ℕ) (bits : List ℕ) → k < root → Descends z k bits → z.freq root < 4181 → length bits ≤ 16
  Descends-short k bits lt d few = elim (Bool-cases (ltb (length bits) 17)) [
    | inl e ↦ ground (arith, e)
    | inr e ↦
        let a = z.freq k in
        let b = z.freq (z.prnt k) in
        let up = t.shape.up_le k (omega arith, omega arith) in
        let one = t.weighed.positive k (omega arith) in
        let more = child_lt t.shape t.weighed k lt in
        absurd (
          omega (
            arith,
            seventeen,
            fibonacci_mono 17 1 2 a b (omega arith) (omega (arith, exact (z.prnt k) up)),
            fibonacci_le 17 (length bits) a b (ground (arith, e))
                (omega (arith, exact (z.prnt k) up)),
            root_ge k bits d,
          ))
  ]
