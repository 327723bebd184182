-- ===== src/Lzhuf/Coder/RoundTrip.antt =====
-- encodeChar and decodeChar in a well-formed tree: the code of a character is the path to its leaf.
use wl2k_go.Prelude.{
  ℕ, zero, suc, ◌+◌, ◌%◌, ◌≤◌, ◌<◌, ◌≡◌, sym, ap, ◌∙◌, some, List, [], ◌∷◌, ◌++◌, arith, length,
  length-append, ◌==◌, if◌then◌else◌,
}
use mathlib.Core.Path.{subst}
use wl2k_go.Lzhuf.Put.{Put}
use wl2k_go.Lzhuf.Put.Stream.{Holds}
use wl2k_go.Lzhuf.Read.{BitReader}
use wl2k_go.Lzhuf.Read.Stream.{ahead, IsFine}
use wl2k_go.Lzhuf.Tree.{Tree, root, table_size, num_char, update}
use wl2k_go.Lzhuf.Tree.Links.{Descends, Descends-exists, top, below}
use wl2k_go.Lzhuf.Tree.Climb.{IsTree}
use wl2k_go.Lzhuf.Tree.Depth.{IsTree-IsLinked, Descends-short}
use wl2k_go.Lzhuf.Coder.{encode_char, decode_char}
use wl2k_go.Lzhuf.Coder.Char.{encode_char-Descends, decode_char-Descends}

-- The path to the leaf of a character.
pub char_path :
    (z : Tree) (c : ℕ)
    → IsTree z table_size
    → z.freq root < 4181
    → c < num_char
    → (bits : List ℕ) × Descends z (z.prnt (c + table_size)) bits × (length bits ≤ 16)
char_path z c t few lt =
    let w = IsTree-IsLinked t in
    let k = z.prnt (c + table_size) in
    let (bits, d, _) = Descends-exists z w root k (w.leaf_lt c lt) (omega arith) in
    (bits, d, Descends-short t k bits (w.leaf_lt c lt) d few)

-- The sides, 0 or 1, of the nodes from the root down to the node `k`, at most `n` of them.
abbrev pub path_bits : ℕ → Tree → ℕ → List ℕ
path_bits zero z k = []
path_bits (suc n) z k =
    let up = path_bits n z (z.prnt k) in if z.prnt k == root then k % 2 ∷ [] else up ++ k % 2 ∷ []

pub path_bits-Descends :
    (z : Tree) {k : ℕ} {bits : List ℕ}
    → Descends z k bits
    → (n : ℕ) → length bits ≤ n
    → path_bits n z k ≡ bits
path_bits-Descends z (top k lt e) zero h = absurd (omega arith)
path_bits-Descends z (top k lt e) (suc n) h = ground (arith, e)
path_bits-Descends z (below k bits lt ne d) zero h =
    absurd (omega (arith, length-append {0} bits (k % 2 ∷ [])))
path_bits-Descends z (below k bits lt ne d) (suc n) h =
    let ih = path_bits-Descends z d n (omega (arith, length-append {0} bits (k % 2 ∷ []))) in
    ground (arith, ne, ih)

-- In a well-formed tree in which less than 4181 has been counted, a character is encoded and decoded. Its code is the
-- path from the root to its leaf and has at most 16 bits, as many as `encodeChar` keeps. `encodeChar` puts it
-- behind the bits that were put before and updates the tree; where it is next on a reader that has not failed,
-- `decodeChar` gives the character and the same tree, and leaves what follows.
pub decode_char-encode_char :
    (c : ℕ) (z : Tree) (s : Put) (xs : List ℕ) (r : BitReader) (ys : List ℕ)
    → IsTree z table_size
    → z.freq root < 4181
    → c < num_char
    → Holds s xs
    → IsFine r
    → ahead r ≡ path_bits table_size z (z.prnt (c + table_size)) ++ ys
    → (length (path_bits table_size z (z.prnt (c + table_size))) ≤ 16)
      × ((s' : Put) × (encode_char c z s ≡ some (s', update c z))
          × Holds s' (xs ++ path_bits table_size z (z.prnt (c + table_size))))
      × ((r' : BitReader) × (decode_char z r ≡ some (r', c, update c z))
          × (ahead r' ≡ ys)
          × IsFine r')
decode_char-encode_char c z s xs r ys t few lt held fine h =
    let (bits, d, short) = char_path z c t few lt in
    let path = path_bits-Descends z d table_size (omega (arith, short)) in
    subst
      (λ p.
        (length p ≤ 16)
        × ((s' : Put) × (encode_char c z s ≡ some (s', update c z)) × Holds s' (xs ++ p))
        × ((r' : BitReader) × (decode_char z r ≡ some (r', c, update c z))
            × (ahead r' ≡ ys)
            × IsFine r'))
      (sym path)
      (
        short,
        encode_char-Descends z c bits d short s xs held,
        decode_char-Descends z (IsTree-IsLinked t) c bits lt d short r ys fine
            (h ∙ ap (λ p. p ++ ys) path),
      )
