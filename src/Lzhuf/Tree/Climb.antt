-- ===== src/Lzhuf/Tree/Climb.antt =====
-- The loop of update: what it does at each node, and that it keeps the shape and the frequencies in order.
use wl2k_go.Prelude.{
  ℕ, zero, suc, ◌+◌, ◌-◌, ◌%◌, ◌≤◌, ◌<◌, ◌≡◌, ◌≢◌, refl, ap, ◌∙◌, Bool, true, false, ◌||◌, arith,
  ◌==◌, ==_iff, Bool-cases, leb, inl, inr, if◌then◌else◌,
}
use wl2k_go.Lzhuf.Tree.{Tree, root, table_size, store, last_equal, exchange_nodes, climb}
use wl2k_go.Lzhuf.Put.{uint}
use wl2k_go.Lzhuf.Tree.Shape.{IsShape, IsWeighed, pend, prnt_gt, sorted_le, child_lt}
use wl2k_go.Lzhuf.Tree.Raise.{
  swapped, swapped-cases, swapped-cases, IsRaised, raised-IsShape, raised-IsWeighed, prnt_kept,
}
use wl2k_go.Lzhuf.Tree.Exchange.{
  last_equal_lem, exchange-prnt, exchange-son, exchange-freq, exchange-root,
}

-- A node whose frequency is counted up.
abbrev counted : ℕ → Tree → Tree
counted c z = record z { freq = store c (uint (z.freq c + 1)) z.freq }

abbrev in_order : ℕ → Tree → Bool
in_order c z =
    leb ((counted c z).freq c) ((counted c z).freq (c + 1)) || leb (table_size + 1) (c + 2)

abbrev last : ℕ → Tree → ℕ
last c z = last_equal table_size ((counted c z).freq c) (counted c z).freq (c + 1)

climb-plain :
    (n c : ℕ) (z : Tree)
    → in_order c z ≡ true
    → climb (suc n) c z ≡ (if z.prnt c == 0 then counted c z else climb n (z.prnt c) (counted c z))
unfolding climb
climb-plain n c z o = rw o

climb-exchange :
    (n c : ℕ) (z : Tree)
    → in_order c z ≡ false
    → climb (suc n) c z ≡ (
        let y = exchange_nodes c (last c z) (counted c z) in
        if y.prnt (last c z) == 0 then y else climb n (y.prnt (last c z)) y)
unfolding climb
climb-exchange n c z o = rw o

-- What a tree keeps, while the node `c` is to be counted up.
pub record IsTree (z : Tree) (c : ℕ) : Type 0 where
  pub shape : IsShape z.prnt z.son
  pub weighed : IsWeighed z.freq z.prnt c
  pub few : z.freq root < 0xffff

module _ {z : Tree} {c : ℕ} (t : IsTree z c) where
  count_eq : c ≤ root → uint (z.freq c + 1) ≡ suc (z.freq c)
  count_eq h = omega (arith, sorted_le t.shape t.weighed c root h (omega arith), t.few)

  counted-freq :
      c ≤ root → (x : ℕ) → (counted c z).freq x ≡ (if x == c then suc (z.freq c) else z.freq x)
  counted-freq h x = ground (arith, count_eq h)

  plain-IsRaised : c < root → IsRaised z.freq z.prnt z.son c c (counted c z).freq z.prnt z.son
  plain-IsRaised lt = record {
    freq_eq = λ i. counted-freq (omega arith) i;
    son_eq = λ j h. ap z.son (ground arith);
    prnt_eq = λ x h. ground arith;
    top_eq = t.shape.top;
  }

  exchanged-freq :
      (l : ℕ)
      → c < l
      → l < root
      → z.freq c ≡ z.freq l
      → (i : ℕ) → (counted c z).freq (swapped c l i) ≡ (if i == l then suc (z.freq l) else z.freq i)
  exchanged-freq l lt le same i =
      let at = counted-freq (omega arith) in
      elim (swapped-cases c l i) [
        | inl (e, f) ↦ ap (counted c z).freq f ∙ at l ∙ ground (arith, same, ap z.freq e)
        | inr (inl (e, n, f)) ↦ ap (counted c z).freq f ∙ at c ∙ ground (arith, same)
        | inr (inr (n, m, f)) ↦ ap (counted c z).freq f ∙ at i ∙ ground arith
      ]

  exchange-IsRaised :
      (l : ℕ)
      → c < l
      → l < root
      → z.freq c ≡ z.freq l
      → (let y = exchange_nodes c l (counted c z) in
          IsRaised z.freq z.prnt z.son c l y.freq y.prnt y.son)
  exchange-IsRaised l lt le same = record {
    freq_eq = λ i.
        exchange-freq (counted c z) t.shape c l lt (omega arith) i ∙ exchanged-freq l lt le same i;
    son_eq = λ j h. exchange-son (counted c z) t.shape c l lt (omega arith) j;
    prnt_eq = λ x h. exchange-prnt (counted c z) t.shape c l lt (omega arith) x h;
    top_eq = exchange-root (counted c z) t.shape c l lt (omega arith);
  }

  -- The root is counted up at the end, and then no sum is open.
  root-IsWeighed : c ≡ root → IsWeighed (counted c z).freq z.prnt table_size
  root-IsWeighed e = record {
    positive = λ k h. rw (counted-freq (omega arith) k) (ground (arith, t.weighed.positive k h));
    sorted = λ k h. elim (Bool-cases (suc k == c)) [
      | inl f ↦
          let on = ap z.freq ((==_iff (suc k) c).0 f) in
          rw (counted-freq (omega arith) k, counted-freq (omega arith) (suc k))
            (ground (arith, t.weighed.sorted k h, on))
      | inr f ↦
          rw (counted-freq (omega arith) k, counted-freq (omega arith) (suc k))
            (ground (arith, t.weighed.sorted k h, f))
    ];
    sum = λ k h.
        rw
          (
            counted-freq (omega arith) (z.prnt k),
            counted-freq (omega arith) (k - k % 2),
            counted-freq (omega arith) (suc (k - k % 2)),
          )
          (let up = t.shape.up_le k (omega arith, omega arith) in
            elim (Bool-cases (z.prnt k == c)) [
              | inl f ↦ ground (arith, t.weighed.sum k h, ap z.freq ((==_iff (z.prnt k) c).0 f))
              | inr f ↦ ground (arith, t.weighed.sum k h, f)
            ]);
    last = counted-freq (omega arith) table_size ∙ ground (arith, t.weighed.last);
  }

  -- A node that is as frequent as the one behind it stands in front of the root.
  before_root : c < root → suc (z.freq c) ≤ z.freq root
  before_root lt =
      let up = prnt_gt t.shape 625 (omega arith) in
      let at : z.prnt 625 ≡ root = omega (arith, t.shape.up_le 625 (omega arith, omega arith)) in
      let exact : pend c root ≡ 0 = ground arith in
      omega (
        arith,
        sorted_le t.shape t.weighed c 625 (omega arith) (omega arith),
        rw at at (child_lt t.shape t.weighed 625 (omega arith)),
        exact,
      )

-- A round of the loop at a node in front of the root: the tree and the node of the next round.
record Round (n c : ℕ) (z : Tree) : Type 0 where
  tree : Tree
  at : ℕ
  kept : IsTree tree at
  same_root : tree.freq root ≡ z.freq root
  up : c < at
  at_le : at ≤ root
  climb_eq : climb (suc n) c z ≡ climb n at tree

module _ {z : Tree} {c : ℕ} (t : IsTree z c) (lt : c < root) (n : ℕ) where
  -- The node `l` is raised in place of `c`.
  raised :
      (l : ℕ) (y : Tree)
      → IsRaised z.freq z.prnt z.son c l y.freq y.prnt y.son
      → c ≤ l
      → l < root
      → z.freq c ≡ z.freq l
      → suc (z.freq l) ≤ z.freq (suc l)
      → climb (suc n) c z ≡ (if y.prnt l == 0 then y else climb n (y.prnt l) y)
      → Round n c z
  raised l y r le below same next eq =
      let up = prnt_gt t.shape l below in
      let at = prnt_kept t.shape t.weighed r le below same next in
      let root_eq : y.freq root ≡ z.freq root = r.freq_eq root ∙ ground arith in
      let not_top : (y.prnt l == 0) ≡ false = ground (arith, at) in
      record {
        tree = y;
        at = z.prnt l;
        kept = record {
          shape = raised-IsShape t.shape t.weighed r le below same next;
          weighed = raised-IsWeighed t.shape t.weighed r le below same next;
          few = omega (arith, root_eq, t.few);
        };
        same_root = root_eq;
        up = omega arith;
        at_le = t.shape.up_le l (omega arith, omega arith);
        climb_eq = eq ∙ rw (not_top, at);
      }

  plain-Round : leb ((counted c z).freq c) ((counted c z).freq (c + 1)) ≡ true → Round n c z
  plain-Round o =
      let next : suc (z.freq c) ≤ z.freq (suc c) =
        ground (arith, o, counted-freq t (omega arith) c, counted-freq t (omega arith) (c + 1)) in
      raised c (counted c z) (plain-IsRaised t lt) (omega arith) lt refl next
        (climb-plain n c z (ground (arith, o)))

  exchange-Round : leb ((counted c z).freq c) ((counted c z).freq (c + 1)) ≡ false → Round n c z
  exchange-Round o =
      let at = counted-freq t (omega arith) in
      let l = last c z in
      let here : (counted c z).freq c ≡ suc (z.freq c) = at c ∙ ground arith in
      let here_root : (counted c z).freq root ≡ z.freq root = at root ∙ ground arith in
      let less : (counted c z).freq (c + 1) < (counted c z).freq c = ground (arith, o) in
      let front = before_root t lt in
      let inner : c + 1 ≢ root =
        λ x. omega (arith, less, here, here_root, front, ap (counted c z).freq x) in
      let (from, to, stop, between) =
        last_equal_lem table_size ((counted c z).freq c) (counted c z).freq (c + 1) 625
          (omega arith) (omega arith) (omega (arith, here, here_root, front)) in
      let at_l : (counted c z).freq l ≡ z.freq l = at l ∙ ground arith in
      let at_next : (counted c z).freq (l + 1) ≡ z.freq (suc l) = at (l + 1) ∙ ground arith in
      let low : (counted c z).freq l < (counted c z).freq c = elim (Bool-cases (l == c + 1)) [
        | inl e ↦ omega (arith, less, ap (counted c z).freq ((==_iff l (c + 1)).0 e))
        | inr e ↦ between l (ground (arith, e)) (omega arith)
      ] in
      let same : z.freq c ≡ z.freq l =
        omega
          (arith, low, here, at_l, sorted_le t.shape t.weighed c l (omega arith) (omega arith)) in
      raised l (exchange_nodes c l (counted c z))
        (exchange-IsRaised t l (omega arith) (omega arith) same) (omega arith) (omega arith) same
        (omega (arith, stop, here, at_next, same)) (climb-exchange n c z (ground (arith, o, inner)))

-- After the loop, from a node to the root, the tree is as it has to be, with one more in all.
pub climb-IsTree :
    (n c : ℕ) (z : Tree)
    → IsTree z c
    → z.freq root < 0xfffe
    → c ≤ root
    → root < n + c
    → IsTree (climb n c z) table_size × ((climb n c z).freq root ≡ suc (z.freq root))
climb-IsTree zero c z t few le enough = absurd (omega arith)
climb-IsTree (suc n) c z t few le enough = elim (Bool-cases (c == root)) [
  | inl e ↦
      let at = (==_iff c root).0 e in
      let count : (counted c z).freq root ≡ suc (z.freq root) =
        counted-freq t le root ∙ ground (arith, ap z.freq at) in
      let stop : climb (suc n) c z ≡ counted c z =
        climb-plain n c z (ground arith) ∙ rw (at, t.shape.top) in
      rw stop (
        record { shape = t.shape; weighed = root-IsWeighed t at; few = omega (arith, count) },
        count,
      )
  | inr e ↦
      let r : Round n c z =
        elim (Bool-cases (leb ((counted c z).freq c) ((counted c z).freq (c + 1)))) [
          | inl o ↦ plain-Round t (ground (arith, e)) n o
          | inr o ↦ exchange-Round t (ground (arith, e)) n o
        ] in
      let (done, count) =
        climb-IsTree n r.at r.tree r.kept (omega (arith, r.same_root)) r.at_le
          (omega (arith, r.up)) in
      rw r.climb_eq (done, count ∙ ap suc r.same_root)
]
