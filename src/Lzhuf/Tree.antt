-- ===== src/Lzhuf/Tree.antt =====
-- lzhuf/lzhuf.go: the adaptive Huffman tree. An array is a function of its index; an index out of range,
-- at which Go panics, reads a 0 here.
pub mod Links
pub mod Shape
pub mod Raise
pub mod Exchange
pub mod Climb
pub mod Keeps
pub mod Depth
pub mod New
use wl2k_go.Prelude.{
  ℕ, zero, suc, ◌+◌, ◌-◌, ◌*◌, ◌/◌, ◌%◌, ◌^◌, Bool, true, false, ◌||◌, Option, none, some, ltb, leb,
  ◌==◌, if◌then◌else◌,
}
use wl2k_go.Lzhuf.Put.{uint}

abbrev pub num_char : ℕ
num_char = 314

abbrev pub table_size : ℕ
table_size = 627

abbrev pub root : ℕ
root = 626

abbrev pub max_freq : ℕ
max_freq = 0x8000

abbrev pub Array : Type 0
Array = ℕ → ℕ

-- `a[i] = v`.
abbrev pub store : ℕ → ℕ → Array → Array
store i v a = λ k. if k == i then v else a k

pub record Tree : Type 0 where
  pub freq : Array
  pub prnt : Array
  pub son : Array

abbrev zeros : Array
zeros = λ k. 0

-- The first loop of `newLZHUFF`, from the leaf `i` on.
unfoldable pub new_leaves : ℕ → ℕ → Tree → Tree
new_leaves zero i z = z
new_leaves (suc n) i z = new_leaves n (suc i) (record {
  freq = store i 1 z.freq;
  son = store i (i + table_size) z.son;
  prnt = store (i + table_size) i z.prnt;
})

-- The second loop, at the node `j` over the nodes `i` and `i + 1`.
unfoldable pub new_nodes : ℕ → ℕ → ℕ → Tree → Tree
new_nodes zero i j z = z
new_nodes (suc n) i j z = new_nodes n (i + 2) (j + 1) (record {
  freq = store j (uint (z.freq i + z.freq (i + 1))) z.freq;
  son = store j i z.son;
  prnt = store (i + 1) j (store i j z.prnt);
})

-- `newLZHUFF`.
unfoldable pub new_lzhuff : Tree
new_lzhuff =
    let z = new_leaves num_char 0 (record { freq = zeros; prnt = zeros; son = zeros }) in
    let y = new_nodes (table_size - num_char) 0 num_char z in
    record y { freq = store table_size 0xffff y.freq; prnt = store root 0 y.prnt }

-- The first loop of `reconst`: the leaves in front, their frequencies halved.
unfoldable pub collect : ℕ → ℕ → ℕ → Tree → Tree
collect zero i j z = z
collect (suc n) i j z =
    let kept = collect n (suc i) (suc j) (record z {
      freq = store j (uint (z.freq i + 1) / 2) z.freq;
      son = store j (z.son i) z.son;
    }) in
    let other = collect n (suc i) j z in if leb table_size (z.son i) then kept else other

-- `for k = j; first < freq[k-1]; k--`. At index 0 the loop would panic.
unfoldable pub insert_at : ℕ → Array → ℕ → ℕ
insert_at first freq zero = zero
insert_at first freq (suc k) =
    let before = insert_at first freq k in if ltb first (freq k) then before else suc k

-- `copy(a[k+1:], a[k:k+last])` with `last = j - k`, and `a[k] = v`.
abbrev pub insert_value : ℕ → ℕ → ℕ → Array → Array
insert_value k j v a =
    λ i. if i == k then v else (if ltb k i then (if leb i j then a (i - 1) else a i) else a i)

-- The second loop.
unfoldable pub rebuild : ℕ → ℕ → ℕ → Tree → Tree
rebuild zero i j z = z
rebuild (suc n) i j z =
    let first = uint (z.freq i + z.freq (i + 1)) in
    let freq = store j first z.freq in
    let k = insert_at first freq j in
    rebuild n (i + 2) (j + 1)
      (record z { freq = insert_value k j first freq; son = insert_value k j i z.son })

-- The third loop.
unfoldable pub connect : ℕ → ℕ → Tree → Tree
connect zero i z = z
connect (suc n) i z =
    let k = z.son i in
    connect n (suc i) (record z {
      prnt = if leb table_size k then store k i z.prnt else store k i (store (k + 1) i z.prnt);
    })

-- `reconst`.
unfoldable pub reconst : Tree → Tree
reconst z =
    connect table_size 0 (rebuild (table_size - num_char) 0 num_char (collect table_size 0 0 z))

-- `for k > freq[l+1] { l++ }`. The last entry of the table is above every frequency.
unfoldable pub last_equal : ℕ → ℕ → Array → ℕ → ℕ
last_equal zero k freq l = l
last_equal (suc n) k freq l =
    let next = last_equal n k freq (suc l) in if ltb (freq (l + 1)) k then next else l

-- The exchange of the nodes `c` and `l`, with their subtrees.
unfoldable pub exchange_nodes : ℕ → ℕ → Tree → Tree
exchange_nodes c l z =
    let k = z.freq c in
    let i = z.son c in
    let up = store i l z.prnt in
    let up' = if ltb i table_size then store (i + 1) l up else up in
    let j = z.son l in
    let down = store j c up' in
    record {
      freq = store l k (store c (z.freq l) z.freq);
      son = store c j (store l i z.son);
      prnt = if ltb j table_size then store (j + 1) c down else down;
    }

-- The loop of `update` over the nodes from a leaf to the root. Each round goes to a parent.
unfoldable pub climb : ℕ → ℕ → Tree → Tree
climb zero c z = z
climb (suc n) c z =
    let z' = record z { freq = store c (uint (z.freq c + 1)) z.freq } in
    let order = leb (z'.freq c) (z'.freq (c + 1)) || leb (table_size + 1) (c + 2) in
    let l = last_equal table_size (z'.freq c) z'.freq (c + 1) in
    let at = if order then c else l in
    let y = if order then z' else exchange_nodes c l z' in
    let next = climb n (y.prnt at) y in if y.prnt at == 0 then y else next

-- `update`.
unfoldable pub update : ℕ → Tree → Tree
update c z =
    let z' = if z.freq root == max_freq then reconst z else z in
    climb table_size (z'.prnt (c + table_size)) z'
