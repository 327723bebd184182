-- ===== src/Lzhuf/Tree/Keeps.antt =====
-- The tree that newLZHUFF makes is well-formed, and update keeps it so.
use wl2k_go.Prelude.{
  ℕ, suc, ◌+◌, ◌-◌, ◌*◌, ◌/◌, ◌%◌, ◌≤◌, ◌<◌, ◌≡◌, ◌≢◌, refl, ap, ◌∙◌, Bool, true, false, ◌&&◌,
  arith, ◌==◌, ==_iff, Bool-cases, ltb, leb, ltb→lt, ◌⊎◌, inl, inr, all_from, all_from_sound,
}
use wl2k_go.Lzhuf.Tree.{
  Tree, root, table_size, num_char, max_freq, update, new_lzhuff, new_leaves, new_nodes,
}
use wl2k_go.Lzhuf.Tree.Shape.{IsPlace, IsShape}
use wl2k_go.Lzhuf.Tree.Climb.{IsTree, climb-IsTree}
use wl2k_go.Lzhuf.Tree.New.{new-prnt, new-leaf, new-son_leaf, new-son, new_lzhuff-IsLinked}

-- Nothing hangs on the node above a leaf.
wait_for_leaf :
    (z : Tree) (c : ℕ) → c < num_char → IsTree z table_size → IsTree z (z.prnt (c + table_size))
wait_for_leaf z c lt t =
    let w = t.weighed in
    record {
      shape = t.shape;
      weighed = record {
        positive = w.positive;
        sorted = w.sorted;
        sum = λ k h.
            let at = t.shape.node k h in
            let leaf = t.shape.leaf c lt in
            let other : z.prnt k ≢ z.prnt (c + table_size) =
              λ e. omega (arith, at, leaf, ap z.son e) in
            let up = t.shape.up_le k (omega arith, omega arith) in ground (arith, w.sum k h);
        last = w.last;
      };
      few = t.few;
    }

-- A character is counted in a well-formed tree: each node is the parent of its children, two of them side by side and
-- both below it; the frequencies are sorted, and each is the sum of those of the two children. If the count of all
-- characters is below the limit at which the table is made anew, the tree is well-formed afterwards, and the count has
-- grown by one.
pub update-IsTree :
    (c : ℕ) (z : Tree)
    → c < num_char
    → IsTree z table_size
    → z.freq root < max_freq
    → IsTree (update c z) table_size × ((update c z).freq root ≡ suc (z.freq root))
unfolding update
update-IsTree c z lt t few =
    let old : (z.freq root == max_freq) ≡ false = ground arith in
    rw old (
      climb-IsTree table_size (z.prnt (c + table_size)) z (wait_for_leaf z c lt t) (omega arith)
        (t.shape.up_le (c + table_size) (omega arith, omega arith)) (omega arith))

pub new-total : new_lzhuff.freq root ≡ 314
unfolding new_lzhuff new_nodes new_leaves
new-total = refl

new-top : new_lzhuff.prnt root ≡ 0
unfolding new_lzhuff
new-top = refl

new-last : new_lzhuff.freq table_size ≡ 0xffff
unfolding new_lzhuff
new-last = refl

abbrev fits : ℕ → Bool
fits k =
    let f = new_lzhuff.freq in
    ltb 0 (f k) && leb (f k) (f (suc k)) && (f (314 + k / 2) == f (k - k % 2) + f (suc (k - k % 2)))

all_fit : all_from 0 626 fits ≡ true
unfolding new_lzhuff new_nodes new_leaves all_from
all_fit = refl

fit : (k : ℕ) → k < root → fits k ≡ true
fit k lt = all_from_sound 0 626 fits k k all_fit (omega arith) lt

new-son_cases :
    (j : ℕ)
    → j ≤ root
    → ((j < num_char) × (new_lzhuff.son j ≡ j + table_size))
      ⊎ ((num_char ≤ j) × (new_lzhuff.son j ≡ 2 * (j - num_char)))
new-son_cases j le = elim (Bool-cases (ltb j num_char)) [
  | inl e ↦ let lt = ltb→lt j num_char e in inl (lt, new-son_leaf j lt)
  | inr e ↦ let h : num_char ≤ j = ground (arith, e) in inr (h, new-son j h (omega arith))
]

new-child : (j : ℕ) → j ≤ root → new_lzhuff.prnt (new_lzhuff.son j) ≡ j
new-child j le = elim (new-son_cases j le) [
  | inl (h, e) ↦ ap new_lzhuff.prnt e ∙ new-leaf j h
  | inr (h, e) ↦
      let half : 314 + 2 * (j - num_char) / 2 ≡ j = omega arith in
      ap new_lzhuff.prnt e ∙ new-prnt (2 * (j - num_char)) (omega arith) ∙ half
]

new-twin :
    (j : ℕ)
    → j ≤ root
    → new_lzhuff.son j < table_size
    → new_lzhuff.prnt (suc (new_lzhuff.son j)) ≡ j
new-twin j le lt = elim (new-son_cases j le) [
  | inl (h, e) ↦ absurd (omega (arith, e))
  | inr (h, e) ↦
      let half : 314 + suc (2 * (j - num_char)) / 2 ≡ j = omega arith in
      ap (λ x. new_lzhuff.prnt (suc x)) e ∙ new-prnt (suc (2 * (j - num_char))) (omega arith) ∙ half
]

new-up_le : (x : ℕ) → IsPlace x → new_lzhuff.prnt x ≤ root
new-up_le x (small, ne) = elim (Bool-cases (ltb x root)) [
  | inl e ↦ let lt = ltb→lt x root e in omega (arith, new-prnt x lt)
  | inr e ↦
      let from : x - table_size + table_size ≡ x = ground (arith, e) in
      omega (arith, rw from at (new-leaf (x - table_size) (omega arith)))
]

new-IsShape : IsShape new_lzhuff.prnt new_lzhuff.son
new-IsShape = record {
  small = λ j h. elim (new-son_cases j h) [
    | inl (g, e) ↦ omega (arith, e)
    | inr (g, e) ↦ omega (arith, e)
  ];
  even = λ j h g. elim (new-son_cases j h) [
    | inl (f, e) ↦ absurd (omega (arith, e))
    | inr (f, e) ↦ omega (arith, e)
  ];
  low = λ j h g. elim (new-son_cases j h) [
    | inl (f, e) ↦ absurd (omega (arith, e))
    | inr (f, e) ↦ omega (arith, e)
  ];
  child = new-child;
  twin = new-twin;
  up_le = new-up_le;
  node = new_lzhuff-IsLinked.child_eq;
  leaf = new_lzhuff-IsLinked.leaf_eq;
  top = new-top;
}

-- The tree that a writer and a reader begin with is well-formed.
pub new_lzhuff-IsTree : IsTree new_lzhuff table_size
new_lzhuff-IsTree = record {
  shape = new-IsShape;
  weighed = record {
    positive = λ k h. elim (Bool-cases (k == root)) [
      | inl e ↦ omega (arith, ap new_lzhuff.freq ((==_iff k root).0 e), new-total)
      | inr e ↦ ground (arith, fit k (ground (arith, e)))
    ];
    sorted = λ k h. ground (arith, fit k h);
    sum = λ k h. rw (new-prnt k h) (ground (arith, fit k h));
    last = new-last;
  };
  few = omega (arith, new-total);
}
