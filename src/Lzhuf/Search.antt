-- ===== src/Lzhuf/Search.antt =====
-- lzhuf/lzhuf.go: the search tree over the text buffer. Arrays are functions of their index; an index out of range,
-- at which Go panics, reads a 0 here.
use wl2k_go.Prelude.{
  ℕ, zero, suc, ◌+◌, ◌-◌, ◌%◌, Bool, true, false, ◌&&◌, Option, none, some, ltb, leb, ◌==◌,
  if◌then◌else◌,
}
use wl2k_go.Lzhuf.Tree.{Array, store}

-- `_N`, `_F`, `_NIL` and `_Threshold`.
abbrev pub buffer_size : ℕ
buffer_size = 2048

abbrev pub lookahead : ℕ
lookahead = 60

abbrev pub nil : ℕ
nil = buffer_size

abbrev pub threshold : ℕ
threshold = 2

pub record Search : Type 0 where
  pub dad : Array
  pub lson : Array
  pub rson : Array
  pub text : Array
  pub match_length : ℕ
  pub match_position : ℕ

-- `InitTree`, on the arrays that `newLZHUFF` made.
unfoldable pub init_tree : Search
init_tree = record {
  dad = λ i. if ltb i buffer_size then nil else 0;
  lson = λ i. 0;
  rson = λ i. if ltb buffer_size i && leb i (buffer_size + 256) then nil else 0;
  text = λ i. 0;
  match_length = 0;
  match_position = 0;
}

-- `for rson[q] != _NIL { q = rson[q] }`.
unfoldable pub last_right : ℕ → Array → ℕ → Option ℕ
last_right zero rson q = none
last_right (suc f) rson q =
    let rest = last_right f rson (rson q) in if rson q == nil then some q else rest

-- The node that takes the place of `p` when it has two children, moved to the place if it is not a child.
abbrev move_up : ℕ → ℕ → Search → Search
move_up p q z = record z {
  rson = store (z.dad q) (z.lson q) z.rson;
  dad = store (z.lson p) q (store (z.lson q) (z.dad q) z.dad);
  lson = store q (z.lson p) z.lson;
}

abbrev adopt_right : ℕ → ℕ → Search → Search
adopt_right p q z = record z { rson = store q (z.rson p) z.rson; dad = store (z.rson p) q z.dad }

-- The switch of `DeleteNode`: the node that takes the place of `p`, and the tree.
unfoldable pub successor : ℕ → Search → Option (ℕ × Search)
unfolding last_right
successor p z =
    let left = z.lson p in
    let inner : Option (ℕ × Search) = elim (last_right (buffer_size + 1) z.rson left) [
      | none ↦ none
      | some q ↦ some (q, adopt_right p q (move_up p q z))
    ] in
    if z.rson p == nil
    then some (z.lson p, z)
    else (if z.lson p == nil
        then some (z.rson p, z)
        else (if z.rson left == nil then some (left, adopt_right p left z) else inner))

-- `q` under the parent of `p`, and `p` out of the tree.
unfoldable pub take_place : ℕ → ℕ → Search → Search
take_place p q z =
    let up = z.dad p in
    let z' = record z { dad = store p nil (store q up z.dad) } in
    if z.rson up == p
    then record z' { rson = store up q z.rson }
    else record z' { lson = store up q z.lson }

-- `DeleteNode`.
unfoldable pub delete_node : ℕ → Search → Option Search
unfolding successor take_place
delete_node p z =
    let gone : Option Search = elim (successor p z) [
      | none ↦ none
      | some (q, z') ↦ some (take_place p q z')
    ] in
    if z.dad p == nil then some z else gone

-- The loop that compares the text at `r` with that at `p`: the length that agrees, and whether the text at
-- `r` is not less.
unfoldable pub compare_text : ℕ → ℕ → ℕ → ℕ → Array → ℕ × Bool
compare_text zero i r p text = (i, true)
compare_text (suc f) i r p text =
    let rest = compare_text f (suc i) r p text in
    if text (r + i) == text (p + i) then rest else (i, ltb (text (p + i)) (text (r + i)))

-- `((r - p) & (_N - 1)) - 1`, of two places that are not the same.
abbrev pub distance : ℕ → ℕ → ℕ
distance r p = (r + buffer_size - p) % buffer_size - 1

-- What is kept of a match of length `i` at `p`, and whether it is the longest possible.
unfoldable pub note_match : ℕ → ℕ → ℕ → Search → Search × Bool
note_match i r p z =
    let longer = record z { match_position = distance r p; match_length = i } in
    let nearer = record z { match_position = distance r p } in
    if ltb threshold i
    then (if ltb z.match_length i
        then (longer, leb lookahead i)
        else (if i == z.match_length && ltb (distance r p) z.match_position
            then (nearer, false)
            else (z, false)))
    else (z, false)

-- `r` in the place of `p`, which is taken out.
unfoldable pub replace_node : ℕ → ℕ → Search → Search
replace_node r p z =
    let dad = store (z.rson p) r (store (z.lson p) r (store r (z.dad p) z.dad)) in
    let lson = store r (z.lson p) z.lson in
    let rson = store r (z.rson p) z.rson in
    let up = dad p in
    if rson up == p
    then record z { dad = store p nil dad; lson = lson; rson = store up r rson }
    else record z { dad = store p nil dad; lson = store up r lson; rson = rson }

-- The loop of `InsertNode` from the node `p`; `right` says that the comparison was not less.
unfoldable pub descend : ℕ → ℕ → ℕ → Bool → Search → Option Search
unfolding compare_text note_match replace_node
descend zero r p right z = none
descend (suc f) r p right z =
    let next = if right then z.rson p else z.lson p in
    let hung =
      if right
      then record z { rson = store p r z.rson; dad = store r p z.dad }
      else record z { lson = store p r z.lson; dad = store r p z.dad } in
    let (i, right') = compare_text (lookahead - 1) 1 r next z.text in
    let (z', whole) = note_match i r next z in
    let rest = descend f r next right' z' in
    if next == nil then some hung else (if whole then some (replace_node r next z') else rest)

-- `InsertNode`.
unfoldable pub insert_node : ℕ → Search → Option Search
unfolding descend
insert_node r z =
    descend (buffer_size + 2) r (buffer_size + 1 + z.text r) true
      (record z { rson = store r nil z.rson; lson = store r nil z.lson; match_length = 0 })
