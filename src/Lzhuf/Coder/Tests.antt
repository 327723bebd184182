-- ===== src/Lzhuf/Coder/Tests.antt =====
-- Runs of the coder, and its theorems at concrete inputs.
use wl2k_go.Prelude.{
  ℕ, ◌+◌, ◌/◌, ◌%◌, ◌<◌, ◌≡◌, ◌≢◌, ◌≤◌, suc, length, refl, sym, ap, some, ◌∙◌, false, List, [], ◌∷◌,
  ◌++◌, arith,
}
use mathlib.Core.Path.{subst}
use wl2k_go.Lzhuf.Bits.{bits_of, shl, shr}
use wl2k_go.Lzhuf.Put.{Put}
use wl2k_go.Lzhuf.Put.Stream.{Holds, stream}
use wl2k_go.Lzhuf.Read.{BitReader, read_bits, fill}
use wl2k_go.Lzhuf.Read.Stream.{ahead, IsFine}
use wl2k_go.Lzhuf.Tree.{root, table_size, new_lzhuff, update}
use wl2k_go.Lzhuf.Tree.Climb.{IsTree}
use wl2k_go.Lzhuf.Tree.Keeps.{new-total, new_lzhuff-IsTree, update-IsTree}
use wl2k_go.Lzhuf.Coder.RoundTrip.{path_bits, path_bits-Descends, decode_char-encode_char}
use wl2k_go.Lzhuf.Tree.Links.{Descends, top, below}
use wl2k_go.Lzhuf.Tree.New.{new-prnt, new-leaf}
use wl2k_go.Lzhuf.Coder.{encode_char, decode_char, encode_position, decode_position}
use wl2k_go.Lzhuf.Coder.Place.{position_bits, decode_position-encode_position}

abbrev empty : Put
empty = record { buf = []; putbuf = 0; putlen = 0 }

empty-Holds : Holds empty []
unfolding stream bits_of shl
empty-Holds = record { bytes = tt; few = omega arith; top = 0; buffer_eq = refl; bits_eq = refl }

abbrev two_bytes : BitReader
two_bytes = record { rest = 0xA5 ∷ 0x0F ∷ []; n = 0; bits = 0; failed = false }

read_bits_run : (read_bits 3 two_bytes).1 ≡ 5
unfolding read_bits fill shr shl
read_bits_run = refl

-- A step of the path from the root, in the first tree.
step :
    (k : ℕ) (bits : List ℕ)
    → k < root
    → 314 + k / 2 ≢ root
    → Descends new_lzhuff (314 + k / 2) bits
    → Descends new_lzhuff k (bits ++ k % 2 ∷ [])
step k bits lt ne d =
    below k bits lt (λ e. ne (sym (new-prnt k lt) ∙ e))
      (subst (λ p. Descends new_lzhuff p bits) (sym (new-prnt k lt)) d)

abbrev path_65 : List ℕ
path_65 = 1 ∷ 1 ∷ 1 ∷ 0 ∷ 0 ∷ 1 ∷ 1 ∷ 0 ∷ 1 ∷ []

path_65-Descends : Descends new_lzhuff 65 path_65
path_65-Descends = step 65 (1 ∷ 1 ∷ 1 ∷ 0 ∷ 0 ∷ 1 ∷ 1 ∷ 0 ∷ []) (omega arith) (omega arith) (
    step 346 (1 ∷ 1 ∷ 1 ∷ 0 ∷ 0 ∷ 1 ∷ 1 ∷ []) (omega arith) (omega arith) (
      step 487 (1 ∷ 1 ∷ 1 ∷ 0 ∷ 0 ∷ 1 ∷ []) (omega arith) (omega arith) (
        step 557 (1 ∷ 1 ∷ 1 ∷ 0 ∷ 0 ∷ []) (omega arith) (omega arith) (
          step 592 (1 ∷ 1 ∷ 1 ∷ 0 ∷ []) (omega arith) (omega arith) (
            step 610 (1 ∷ 1 ∷ 1 ∷ []) (omega arith) (omega arith) (
              step 619 (1 ∷ 1 ∷ []) (omega arith) (omega arith) (
                step 623 (1 ∷ []) (omega arith) (omega arith)
                  (top 625 (omega arith) (new-prnt 625 (omega arith))))))))))

-- The node of the character 'A' in the first tree, and its path.
leaf_65 : new_lzhuff.prnt (65 + table_size) ≡ 65
leaf_65 = new-leaf 65 (omega arith)

leaf_65-path : path_bits table_size new_lzhuff (new_lzhuff.prnt (65 + table_size)) ≡ path_65
leaf_65-path =
    ap (path_bits table_size new_lzhuff) leaf_65
    ∙ path_bits-Descends new_lzhuff path_65-Descends table_size (omega arith)

abbrev coded_65 : BitReader
coded_65 = record { rest = []; n = 461; bits = 9; failed = false }

coded_65-ahead : ahead coded_65 ≡ path_65 ++ []
unfolding bits_of stream shr
coded_65-ahead = refl

decode_char-encode_char_example :
    (length (path_bits table_size new_lzhuff (new_lzhuff.prnt (65 + table_size))) ≤ 16)
    × ((s' : Put) × (encode_char 65 new_lzhuff empty ≡ some (s', update 65 new_lzhuff))
        × Holds s' ([] ++ path_bits table_size new_lzhuff (new_lzhuff.prnt (65 + table_size))))
    × ((r' : BitReader) × (decode_char new_lzhuff coded_65 ≡ some (r', 65, update 65 new_lzhuff))
        × (ahead r' ≡ [])
        × IsFine r')
decode_char-encode_char_example =
    decode_char-encode_char 65 new_lzhuff empty [] coded_65 [] new_lzhuff-IsTree
      (omega (arith, new-total)) (omega arith) empty-Holds (tt, refl)
      (coded_65-ahead ∙ ap (λ p. p ++ []) (sym leaf_65-path))

update-IsTree_example :
    IsTree (update 65 new_lzhuff) table_size × ((update 65 new_lzhuff).freq root ≡ suc 314)
update-IsTree_example =
    subst
      (λ n. IsTree (update 65 new_lzhuff) table_size × ((update 65 new_lzhuff).freq root ≡ suc n))
      new-total
      (update-IsTree 65 new_lzhuff (omega arith) new_lzhuff-IsTree (omega (arith, new-total)))

abbrev coded_1000 : BitReader
coded_1000 = record { rest = []; n = 2536; bits = 12; failed = false }

coded_1000-ahead : ahead coded_1000 ≡ position_bits 1000 ++ []
unfolding bits_of stream position_bits shr
coded_1000-ahead = refl

decode_position-encode_position_example :
    Holds (encode_position 1000 empty) ([] ++ position_bits 1000)
    × ((r' : BitReader) × (decode_position coded_1000 ≡ (r', 1000)) × (ahead r' ≡ []) × IsFine r')
decode_position-encode_position_example =
    decode_position-encode_position 1000 empty [] (omega arith) empty-Holds coded_1000 [] (tt, refl)
      coded_1000-ahead
