-- ===== src/Lzhuf/Coder/Char.antt =====
-- A character that is encoded is decoded, in a tree whose links fit.
use wl2k_go.Prelude.{
  ℕ, suc, ◌+◌, ◌-◌, ◌%◌, ◌≤◌, ◌<◌, ◌≡◌, refl, sym, ap, ◌∙◌, some, List, [], ◌∷◌, ◌++◌, append_assoc,
  append-nil, arith, length, length-append,
}
use mathlib.Core.Path.{subst}
use wl2k_go.Lzhuf.Bits.{shr, shl, bits_of}
use wl2k_go.Lzhuf.Put.{Put, put_code}
use wl2k_go.Lzhuf.Put.Stream.{Holds, IsCode}
use wl2k_go.Lzhuf.Put.Append.{put_code-Holds}
use wl2k_go.Lzhuf.Read.{BitReader, read_bits}
use wl2k_go.Lzhuf.Read.Stream.{ahead, IsFine, get_bit}
use wl2k_go.Lzhuf.Tree.Links.{IsLinked, Descends, top, below}
use wl2k_go.Lzhuf.Coder.Encode.{code_loop-Descends}
use wl2k_go.Lzhuf.Tree.{Tree, root, table_size, num_char, update}
use wl2k_go.Lzhuf.Coder.{code_loop, put_char, got_char, encode_char, decode_loop, decode_char}

decode_step :
    (f : ℕ) (z : Tree) (c b : ℕ) (r r' : BitReader)
    → c < table_size
    → read_bits 1 r ≡ (r', b)
    → decode_loop (suc f) z c r ≡ decode_loop f z (z.son (c + b)) r'
unfolding decode_loop
decode_step f z c b r r' h e = ground (arith, e)

decode_stop :
    (f : ℕ) (z : Tree) (c : ℕ) (r : BitReader)
    → decode_loop (suc f) z (c + table_size) r ≡ some (r, c)
unfolding decode_loop
decode_stop f z c r = ground arith

-- The bits of a path lead from the root to its node.
decode-Descends :
    (z : Tree) (w : IsLinked z) {k : ℕ} {bits : List ℕ}
    → Descends z k bits
    → (f n : ℕ) (r : BitReader) (ys : List ℕ) → n ≡ length bits + f
    → IsFine r
    → ahead r ≡ bits ++ ys
    → (r' : BitReader) × (decode_loop n z (z.son root) r ≡ decode_loop f z (z.son k) r')
      × (ahead r' ≡ ys)
      × IsFine r'
decode-Descends z w (top k lt e) f n r ys q bytes h =
    let (r', e1, e2, b') = get_bit r (k % 2) ys bytes h in
    let first : z.son root ≡ k - k % 2 = ap z.son (sym e) ∙ w.child_eq k lt in
    let node : k - k % 2 + k % 2 ≡ k = omega arith in
    let n' : n ≡ suc f = omega arith in
    (
      r',
      ap (λ x. decode_loop x z (z.son root) r) n'
          ∙ ap (λ x. decode_loop (suc f) z x r) first
          ∙ decode_step f z (k - k % 2) (k % 2) r r' (omega arith) e1
          ∙ ap (λ x. decode_loop f z (z.son x) r') node,
      e2,
      b',
    )
decode-Descends z w (below k bits lt ne d) f n r ys q bytes h =
    let (r₁, e0, e2, b₁) =
      decode-Descends z w d (suc f) n r (k % 2 ∷ ys)
        (omega (arith, length-append {0} bits (k % 2 ∷ []))) bytes
        (h ∙ append_assoc bits (k % 2 ∷ []) ys) in
    let (r', e1, e3, b') = get_bit r₁ (k % 2) ys b₁ e2 in
    let node : k - k % 2 + k % 2 ≡ k = omega arith in
    (
      r',
      e0
          ∙ ap (λ x. decode_loop (suc f) z x r₁) (w.child_eq k lt)
          ∙ decode_step f z (k - k % 2) (k % 2) r₁ r' (omega arith) e1
          ∙ ap (λ x. decode_loop f z (z.son x) r') node,
      e3,
      b',
    )

encode_char-eq :
    (z : Tree) (c j i : ℕ) (s : Put)
    → code_loop table_size z (z.prnt (c + table_size)) 0 0 ≡ some (j, i)
    → encode_char c z s ≡ some (put_code j i s, update c z)
unfolding encode_char
encode_char-eq z c j i s e = ap (put_char c z s) e

decode_char-eq :
    (z : Tree) (c : ℕ) (r r' : BitReader)
    → decode_loop table_size z (z.son root) r ≡ some (r', c)
    → decode_char z r ≡ some (r', c, update c z)
unfolding decode_char
decode_char-eq z c r r' e = ap (got_char z) e

no-IsCode : IsCode 0 0 0
unfolding shl shr
no-IsCode = record { long = omega arith; code_eq = refl; narrow = refl }

pub encode_char-Descends :
    (z : Tree) (c : ℕ) (bits : List ℕ)
    → Descends z (z.prnt (c + table_size)) bits
    → length bits ≤ 16
    → (s : Put) (xs : List ℕ) → Holds s xs
    → (s' : Put) × (encode_char c z s ≡ some (s', update c z)) × Holds s' (xs ++ bits)
unfolding bits_of
encode_char-Descends z c bits d short s xs held =
    let (i, m, e, code, eq) =
      code_loop-Descends z d table_size 0 0 0 (length bits) (omega arith) short (omega arith)
        no-IsCode in
    (
      put_code (length bits) i s,
      encode_char-eq z c (length bits) i s e,
      subst (λ x. Holds (put_code (length bits) i s) (xs ++ x)) (eq ∙ append-nil bits)
          (put_code-Holds (length bits) i m code s xs held),
    )

pub decode_char-Descends :
    (z : Tree) (w : IsLinked z) (c : ℕ) (bits : List ℕ)
    → c < num_char
    → Descends z (z.prnt (c + table_size)) bits
    → length bits ≤ 16
    → (r : BitReader) (ys : List ℕ) → IsFine r
    → ahead r ≡ bits ++ ys
    → (r' : BitReader) × (decode_char z r ≡ some (r', c, update c z)) × (ahead r' ≡ ys) × IsFine r'
decode_char-Descends z w c bits lt d short r ys fine h =
    let left = table_size - length bits in
    let (r', e1, e2, b') = decode-Descends z w d left table_size r ys (omega arith) fine h in
    let last : left ≡ suc (left - 1) = omega arith in
    let stop : decode_loop left z (z.son (z.prnt (c + table_size))) r' ≡ some (r', c) =
      ap (λ x. decode_loop left z x r') (w.leaf_eq c lt)
      ∙ ap (λ x. decode_loop x z (c + table_size) r') last
      ∙ decode_stop (left - 1) z c r' in
    (r', decode_char-eq z c r r' (e1 ∙ stop), e2, b')
