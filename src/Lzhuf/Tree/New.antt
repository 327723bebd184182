-- ===== src/Lzhuf/Tree/New.antt =====
-- The links of the tree that `newLZHUFF` makes fit.
use wl2k_go.Prelude.{
  ℕ, zero, suc, ◌+◌, ◌-◌, ◌*◌, ◌/◌, ◌%◌, ◌≤◌, ◌<◌, ◌≡◌, ap, ◌∙◌, Bool, ◌&&◌, arith, ltb, leb,
  if◌then◌else◌,
}
use wl2k_go.Lzhuf.Tree.{Tree, root, table_size, num_char, new_leaves, new_nodes, new_lzhuff}
use wl2k_go.Lzhuf.Tree.Links.{IsLinked}

-- `k` is one of the `n` numbers from `i` on.
abbrev among : ℕ → ℕ → ℕ → Bool
among n i k = leb i k && ltb k (i + n)

leaves-son :
    (n i k : ℕ) (z : Tree)
    → (new_leaves n i z).son k ≡ (if among n i k then k + table_size else z.son k)
unfolding new_leaves
leaves-son zero i k z = ground arith
leaves-son (suc n) i k z = leaves-son n (suc i) k _ ∙ ground arith

leaves-prnt :
    (n i k : ℕ) (z : Tree)
    → (new_leaves n i z).prnt k ≡ (if among n (i + table_size) k then k - table_size else z.prnt k)
unfolding new_leaves
leaves-prnt zero i k z = ground arith
leaves-prnt (suc n) i k z = leaves-prnt n (suc i) k _ ∙ ground arith

nodes-son :
    (n i j k : ℕ) (z : Tree)
    → (new_nodes n i j z).son k ≡ (if among n j k then i + 2 * (k - j) else z.son k)
unfolding new_nodes
nodes-son zero i j k z = ground arith
nodes-son (suc n) i j k z = nodes-son n (i + 2) (j + 1) k _ ∙ ground arith

nodes-prnt :
    (n i j k : ℕ) (z : Tree)
    → (new_nodes n i j z).prnt k ≡ (if among (2 * n) i k then j + (k - i) / 2 else z.prnt k)
unfolding new_nodes
nodes-prnt zero i j k z = ground arith
nodes-prnt (suc n) i j k z = nodes-prnt n (i + 2) (j + 1) k _ ∙ ground arith

-- The two loops run one after the other over the same table.
abbrev blank : Tree
blank = record { freq = λ k. 0; prnt = λ k. 0; son = λ k. 0 }

abbrev leaves : Tree
leaves = new_leaves num_char 0 blank

pub new-prnt : (k : ℕ) → k < root → new_lzhuff.prnt k ≡ 314 + k / 2
unfolding new_lzhuff
new-prnt k h = ground (arith, nodes-prnt (table_size - num_char) 0 num_char k leaves)

pub new-leaf : (c : ℕ) → c < num_char → new_lzhuff.prnt (c + table_size) ≡ c
unfolding new_lzhuff
new-leaf c h = ground (
  arith,
  nodes-prnt (table_size - num_char) 0 num_char (c + table_size) leaves,
  leaves-prnt num_char 0 (c + table_size) blank,
)

pub new-son_leaf : (c : ℕ) → c < num_char → new_lzhuff.son c ≡ c + table_size
unfolding new_lzhuff
new-son_leaf c h =
    ground
      (arith, nodes-son (table_size - num_char) 0 num_char c leaves, leaves-son num_char 0 c blank)

pub new-son : (k : ℕ) → num_char ≤ k → k < table_size → new_lzhuff.son k ≡ 2 * (k - num_char)
unfolding new_lzhuff
new-son k lo hi = ground (arith, nodes-son (table_size - num_char) 0 num_char k leaves)

-- The tree that a writer and a reader begin with has fitting links.
pub new_lzhuff-IsLinked : IsLinked new_lzhuff
new_lzhuff-IsLinked = record {
  leaf_lt = λ c h. omega (arith, new-leaf c h);
  leaf_eq = λ c h. ap new_lzhuff.son (new-leaf c h) ∙ new-son_leaf c h;
  parent_gt = λ k h. omega (arith, new-prnt k h);
  parent_le = λ k h. omega (arith, new-prnt k h);
  child_eq = λ k h.
      ap new_lzhuff.son (new-prnt k h)
      ∙ new-son (314 + k / 2) (omega arith) (omega arith)
      ∙ (let e : 2 * (314 + k / 2 - num_char) ≡ k - k % 2 = omega arith in e);
}
