-- ===== src/Lzhuf/Tree/Raise.antt =====
-- A node is raised by one, after it has been exchanged with the last of the nodes that are as frequent.
use wl2k_go.Prelude.{
  ℕ, suc, ◌+◌, ◌-◌, ◌%◌, ◌≤◌, ◌<◌, ◌≡◌, ◌≢◌, sym, ap, ◌∙◌, arith, ◌==◌, ==_iff, Bool-cases, ◌⊎◌,
  ltb, ltb→lt, inl, inr, if◌then◌else◌,
}
use wl2k_go.Lzhuf.Tree.{Array, root, table_size}
use wl2k_go.Lzhuf.Tree.Shape.{IsPlace, IsShape, IsWeighed, pend, prnt_gt, sorted_lt, sum_at}

-- The nodes `c` and `l` in each other's place.
abbrev pub swapped : ℕ → ℕ → ℕ → ℕ
swapped c l x = if x == c then l else (if x == l then c else x)

swapped_twice : (c l x : ℕ) → swapped c l (swapped c l x) ≡ x
swapped_twice c l x = ground arith

pub swapped-cases :
    (c l x : ℕ)
    → ((x ≡ c) × (swapped c l x ≡ l))
      ⊎ (((x ≡ l) × (x ≢ c) × (swapped c l x ≡ c)) ⊎ ((x ≢ c) × (x ≢ l) × (swapped c l x ≡ x)))
swapped-cases c l x = elim (Bool-cases (x == c)) [
  | inl e ↦ inl ((==_iff x c).0 e, ground arith)
  | inr e ↦ elim (Bool-cases (x == l)) [
    | inl f ↦ inr (inl ((==_iff x l).0 f, ground (arith, e), ground arith))
    | inr f ↦ inr (inr (ground (arith, e), ground (arith, f), ground arith))
  ]
]

swapped_le : (c l x n : ℕ) → c ≤ n → l ≤ n → x ≤ n → swapped c l x ≤ n
swapped_le c l x n p q h = ground arith

-- The tables after the exchange of `c` and `l`, with `l` raised.
pub record IsRaised (freq prnt son : Array) (c l : ℕ) (freq' prnt' son' : Array) : Type 0 where
  pub freq_eq : (i : ℕ) → freq' i ≡ (if i == l then suc (freq l) else freq i)
  pub son_eq : (j : ℕ) → j ≤ root → son' j ≡ son (swapped c l j)
  pub prnt_eq : (x : ℕ) → IsPlace x → prnt' x ≡ swapped c l (prnt x)
  pub top_eq : prnt' root ≡ 0

module _ {freq prnt son : Array} {c l : ℕ} {freq' prnt' son' : Array} (s : IsShape prnt son)
    (w : IsWeighed freq prnt c) (r : IsRaised freq prnt son c l freq' prnt' son') (le : c ≤ l)
    (lt : l < root) (same : freq c ≡ freq l) (next : suc (freq l) ≤ freq (suc l)) where
  -- The children of `l` stand in front of `c`.
  low_l : son l < table_size → suc (son l) < c
  low_l h = elim (Bool-cases (c == l)) [
    | inl e ↦ omega (arith, s.low l (omega arith) h, (==_iff c l).0 e)
    | inr e ↦
        let no : pend c l ≡ 0 = ground (arith, e) in
        sorted_lt s w (suc (son l)) c (omega (arith, s.low l (omega arith) h)) (
          omega (
            arith,
            sum_at s w l (omega arith) h,
            no,
            same,
            w.positive (son l) (omega (arith, s.low l (omega arith) h)),
          ))
  ]

  at_le : (j : ℕ) → j ≤ root → swapped c l j ≤ root
  at_le j h = swapped_le c l j root (omega arith) (omega arith) h

  swapped-low :
      (j : ℕ) → j ≤ root → son (swapped c l j) < table_size → suc (son (swapped c l j)) < j
  swapped-low j h g = elim (swapped-cases c l j) [
    | inl (e, f) ↦ rw (f, e) (low_l (rw f at g))
    | inr (inl (e, n, f)) ↦ rw f (omega (arith, s.low c (omega arith) (rw f at g), e))
    | inr (inr (n, m, f)) ↦ rw f (s.low j h (rw f at g))
  ]

  son-IsPlace : (j : ℕ) → j ≤ root → IsPlace (son j)
  son-IsPlace j h = (
    s.small j h,
    elim (Bool-cases (ltb (son j) table_size)) [
      | inl e ↦ omega (arith, s.low j h (ltb→lt (son j) table_size e))
      | inr e ↦ ground (arith, e)
    ],
  )

  twin-IsPlace : (j : ℕ) → j ≤ root → son j < table_size → IsPlace (suc (son j))
  twin-IsPlace j h g = (omega (arith, s.low j h g), omega (arith, s.low j h g))

  node_kept : (x : ℕ) → IsPlace x → son' (prnt' x) ≡ son (prnt x)
  node_kept x h = rw (
    r.prnt_eq x h,
    r.son_eq (swapped c l (prnt x)) (at_le (prnt x) (s.up_le x h)),
    swapped_twice c l (prnt x),
  )

  pub raised-IsShape : IsShape prnt' son'
  raised-IsShape = record {
    small = λ j h. rw (r.son_eq j h) (s.small (swapped c l j) (at_le j h));
    even = λ j h g. rw (r.son_eq j h) (s.even (swapped c l j) (at_le j h) (rw (r.son_eq j h) at g));
    low = λ j h g. rw (r.son_eq j h) (swapped-low j h (rw (r.son_eq j h) at g));
    child = λ j h.
        rw
          (
            r.son_eq j h,
            r.prnt_eq (son (swapped c l j)) (son-IsPlace (swapped c l j) (at_le j h)),
            s.child (swapped c l j) (at_le j h),
          )
          (swapped_twice c l j);
    twin = λ j h g.
        (let g' = rw (r.son_eq j h) at g in
          rw
            (
              r.son_eq j h,
              r.prnt_eq (suc (son (swapped c l j))) (twin-IsPlace (swapped c l j) (at_le j h) g'),
              s.twin (swapped c l j) (at_le j h) g',
            )
            (swapped_twice c l j));
    up_le = λ x h. rw (r.prnt_eq x h) (at_le (prnt x) (s.up_le x h));
    node = λ k h. node_kept k (omega arith, omega arith) ∙ s.node k h;
    leaf = λ x h. node_kept (x + table_size) (omega arith, omega arith) ∙ s.leaf x h;
    top = r.top_eq;
  }

  unraised : (i : ℕ) → i ≢ l → freq' i ≡ freq i
  unraised i n = r.freq_eq i ∙ ground arith

  pub prnt_kept : prnt' l ≡ prnt l
  prnt_kept = let up = prnt_gt s l lt in r.prnt_eq l (omega arith, omega arith) ∙ ground arith

  -- The sum at the parent of `k`, if that is neither of the two.
  other-sum :
      (k : ℕ)
      → k < root
      → prnt k ≢ c
      → freq (prnt k) + pend (prnt l) (prnt k) ≡ freq' (k - k % 2) + freq' (suc (k - k % 2))
  other-sum k h n =
      let p = prnt k in
      let le' = s.up_le k (omega arith, omega arith) in
      let at = s.node k h in
      let exact : pend c p ≡ 0 = ground arith in
      elim (Bool-cases (p == prnt l)) [
        | inl e ↦
            let here : k - k % 2 ≡ l - l % 2 =
              sym at ∙ ap son ((==_iff p (prnt l)).0 e) ∙ s.node l lt in
            let waits : pend (prnt l) p ≡ 1 = ground (arith, e) in
            let rest = w.sum k h in
            elim (Bool-cases (l % 2 == 0)) [
              | inl o ↦
                  let on : k - k % 2 ≡ l = omega (arith, here, (==_iff (l % 2) 0).0 o) in
                  let a : freq' (k - k % 2) ≡ suc (freq l) =
                    ap freq' on ∙ r.freq_eq l ∙ ground arith in
                  rw (a, unraised (suc (k - k % 2)) (omega (arith, on)))
                    (omega (arith, exact, waits, rest, ap freq on))
              | inr o ↦
                  let odd : l % 2 ≡ 1 = ground (arith, o) in
                  let on : suc (k - k % 2) ≡ l = omega (arith, here, odd) in
                  let a : freq' (suc (k - k % 2)) ≡ suc (freq l) =
                    ap freq' on ∙ r.freq_eq l ∙ ground arith in
                  rw (a, unraised (k - k % 2) (omega (arith, on)))
                    (omega (arith, exact, waits, rest, ap freq on))
            ]
        | inr e ↦
            let q : k - k % 2 ≢ l = λ x.
              let f : prnt l ≡ p = ap prnt (sym x) ∙ ap prnt (sym at) ∙ s.child p le' in
              let g = (==_iff p (prnt l)).1 (sym f) in cc in
            let q' : suc (k - k % 2) ≢ l = λ x.
              let f : prnt l ≡ p =
                ap prnt (sym x)
                ∙ ap (λ y. prnt (suc y)) (sym at)
                ∙ s.twin p le' (omega (arith, at)) in
              let g = (==_iff p (prnt l)).1 (sym f) in cc in
            let done : pend (prnt l) p ≡ 0 = ground (arith, e) in
            rw (unraised (k - k % 2) q, unraised (suc (k - k % 2)) q')
              (omega (arith, exact, done, w.sum k h))
      ]

  -- The sum at the parent of `k`, once more, when `l` waits for it.
  raised-sum :
      (k : ℕ)
      → k < root
      → freq' (prnt' k) + pend (prnt l) (prnt' k) ≡ freq' (k - k % 2) + freq' (suc (k - k % 2))
  raised-sum k h =
      let up = prnt_gt s l lt in
      let old = w.sum k h in
      let at = s.node k h in
      let eq = r.prnt_eq k (omega arith, omega arith) in
      elim (swapped-cases c l (prnt k)) [
        | inl (e, f) ↦
            let front : suc (k - k % 2) < c =
              omega (arith, s.low c (omega arith) (omega (arith, ap son e, at)), ap son e, at) in
            let raised : freq' l ≡ suc (freq l) = r.freq_eq l ∙ ground arith in
            let waits : pend c c ≡ 1 = ground arith in
            let done : pend (prnt l) l ≡ 0 = ground arith in
            rw
              (eq ∙ f, unraised (k - k % 2) (omega arith), unraised (suc (k - k % 2)) (omega arith))
              (omega (arith, raised, waits, done, rw e at old, same))
        | inr (inl (e, n, f)) ↦
            let front : suc (k - k % 2) < c =
              omega (arith, low_l (omega (arith, ap son e, at)), ap son e, at) in
            let exact : pend c l ≡ 0 = ground arith in
            let done : pend (prnt l) c ≡ 0 = ground arith in
            rw
              (
                eq ∙ f,
                unraised c (omega arith),
                unraised (k - k % 2) (omega arith),
                unraised (suc (k - k % 2)) (omega arith),
              )
              (omega (arith, exact, done, rw e at old, same))
        | inr (inr (n, m, f)) ↦ rw (eq ∙ f, unraised (prnt k) m) (other-sum k h n)
      ]

  raised-sorted : (k : ℕ) → k < root → freq' k ≤ freq' (suc k)
  raised-sorted k h = elim (Bool-cases (k == l)) [
    | inl e ↦
        let on : k ≡ l = (==_iff k l).0 e in
        let a : freq' k ≡ suc (freq l) = ap freq' on ∙ r.freq_eq l ∙ ground arith in
        omega (arith, a, unraised (suc k) (omega (arith, on)), next, ap (λ x. freq (suc x)) on)
    | inr e ↦ elim (Bool-cases (suc k == l)) [
      | inl f ↦
          let on : suc k ≡ l = (==_iff (suc k) l).0 f in
          let a : freq' (suc k) ≡ suc (freq l) = ap freq' on ∙ r.freq_eq l ∙ ground arith in
          omega (arith, a, unraised k (omega (arith, on)), w.sorted k h, ap freq on)
      | inr f ↦ omega (
        arith,
        unraised k (ground (arith, e)),
        unraised (suc k) (ground (arith, f)),
        w.sorted k h,
      )
    ]
  ]

  pub raised-IsWeighed : IsWeighed freq' prnt' (prnt l)
  raised-IsWeighed = record {
    positive = λ k h. rw (r.freq_eq k) (ground (arith, w.positive k h));
    sorted = raised-sorted;
    sum = raised-sum;
    last = unraised table_size (omega arith) ∙ w.last;
  }
