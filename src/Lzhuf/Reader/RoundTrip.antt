-- ===== src/Lzhuf/Reader/RoundTrip.antt =====
-- Tokens that are encoded, and packed as Close of the writer does it, are read as the text that they stand for.
use wl2k_go.Prelude.{
  ℕ, zero, suc, ◌+◌, ◌≤◌, ◌<◌, ◌≡◌, refl, sym, ap, ◌∙◌, Option, none, some, List, [], ◌++◌, Bytes,
  append_assoc, append-nil, arith, length, length-append, true, false, Bool, not, ◌&&◌, ltb,
  if◌then◌else◌,
}
use mathlib.Core.Path.{subst}
use wl2k_go.Prelude.Int.{pos, ltb_ℤ}
use wl2k_go.Go.Sort.{All}
use wl2k_go.Lzhuf.Read.{BitReader}
use wl2k_go.Lzhuf.Read.Stream.{ahead, IsFine}
use wl2k_go.Lzhuf.Tree.{Array, Tree, update}
use wl2k_go.Lzhuf.Writer.{Token, literal, copy}
use wl2k_go.Lzhuf.Reader.{Reader, decode_token, use_token, read_loop}
use wl2k_go.Lzhuf.Reader.Tokens.{IsToken, char_of, AreCoded, none_left, one_more}
use wl2k_go.Lzhuf.Reader.Window.{
  Window, push_all, expand_token, expand, InStep, length-repeat, use_token-Gave,
}

-- A reader that has read on up to some place.
abbrev pub later : Reader → BitReader → Tree → Array → ℕ → ℕ → Reader
later d bits tree text r at = record d { bits = bits; tree = tree; text = text; r = r; at = at }

-- The loop of `Read` gave some bytes and stopped without an error.
pub record Decoded (d : Reader) (out s : Bytes) (x : Option (Reader × Bytes)) : Type 0 where
  pub bits : BitReader
  pub tree : Tree
  pub text : Array
  pub r : ℕ
  pub result : x ≡ some (later d bits tree text r (d.at + length s), out ++ s)
  pub fine : bits.failed ≡ false

-- The test of the loop of `Read`.
abbrev goes_on : ℕ → Reader → Bytes → Bool
goes_on room d out = ltb (length out) room && not d.bits.failed && ltb_ℤ (pos d.at) d.size

taken :
    (b : Bool) (x : Option (Token × BitReader × Tree)) (y : Token × BitReader × Tree)
    → (go : Token → BitReader → Tree → Option (Reader × Bytes)) (other : Option (Reader × Bytes))
    → b ≡ true
    → x ≡ some y
    → (if b
        then (elim x [ none ↦ none | some (token, bits, tree) ↦ go token bits tree ])
        else other)
      ≡ go y.0 y.1 y.2
taken b x y go other p q = rw (p, q) refl

-- The loop with its test.
loop_on :
    (f room : ℕ) (d : Reader) (out : Bytes) (t : Token) (bits : BitReader) (tree : Tree)
    → goes_on room d out ≡ true
    → decode_token d.tree d.bits ≡ some (t, bits, tree)
    → read_loop (suc f) room (d, out)
      ≡ read_loop f room (use_token room t (record d { bits = bits; tree = tree }, out))
unfolding read_loop
loop_on f room d out t bits tree on e =
    taken (goes_on room d out) (decode_token d.tree d.bits) (t, bits, tree)
      (λ t bits tree.
        read_loop f room (use_token room t (record d { bits = bits; tree = tree }, out)))
      (some (d, out)) on e

goes_on-true :
    (room : ℕ) (d : Reader) (out : Bytes) (n : ℕ)
    → length out < room
    → d.bits.failed ≡ false
    → d.size ≡ pos n
    → d.at < n
    → goes_on room d out ≡ true
goes_on-true room d out n lt fine size more =
    let fits : ltb (length out) room ≡ true = ground arith in
    let on : ltb (d.at + 0) (n + 0) ≡ true = ground arith in rw (fits, fine, size, on) refl

pub expand_token-some : (t : Token) (h : Window) → IsToken t → 0 < length (expand_token t h)
expand_token-some (literal c) h ok = omega arith
expand_token-some (copy n position) h ok = omega (arith, length-repeat n position h, ok.0)

goes_on-false :
    (room : ℕ) (d : Reader) (out : Bytes) → d.size ≡ pos (d.at + 0) → goes_on room d out ≡ false
goes_on-false room d out size = rw size (ground arith)

same-Decoded :
    (d : Reader) (out : Bytes) (x : Option (Reader × Bytes))
    → d.bits.failed ≡ false
    → x ≡ some (d, out)
    → Decoded d out [] x
same-Decoded d out x fine e =
    let same : d.at ≡ d.at + 0 = omega arith in
    record {
      bits = d.bits;
      tree = d.tree;
      text = d.text;
      r = d.r;
      result =
          e
          ∙ ap (λ n. some (later d d.bits d.tree d.text d.r n, out)) same
          ∙ ap (λ o. some (later d d.bits d.tree d.text d.r (d.at + 0), o)) (sym (append-nil out));
      fine = fine;
    }

at_end :
    (f room : ℕ) (d : Reader) (out : Bytes)
    → d.size ≡ pos (d.at + 0)
    → read_loop f room (d, out) ≡ some (d, out)
unfolding read_loop
at_end zero room d out size = refl
at_end (suc f) room d out size = rw (goes_on-false room d out size) refl

-- One token, and then some more.
then-Decoded :
    (d d' : Reader) (out s s' : Bytes) (x : Option (Reader × Bytes))
    → (bits : BitReader) (tree : Tree) (text : Array) (r : ℕ)
    → d' ≡ later d bits tree text r (d.at + length s)
    → Decoded d' (out ++ s) s' x
    → Decoded d out (s ++ s') x
then-Decoded d d' out s s' x bits tree text r e g =
    let count : d.at + length s + length s' ≡ d.at + length (s ++ s') =
      omega (arith, length-append {0} s s') in
    let at = ap (λ d. d.at) e in
    record {
      bits = g.bits;
      tree = g.tree;
      text = g.text;
      r = g.r;
      result =
          g.result
          ∙ ap (λ d. some (later d g.bits g.tree g.text g.r (d.at + length s'), (out ++ s) ++ s')) e
          ∙ ap (λ n. some (later d g.bits g.tree g.text g.r n, (out ++ s) ++ s')) count
          ∙ ap (λ o. some (later d g.bits g.tree g.text g.r (d.at + length (s ++ s')), o))
              (append_assoc out s s');
      fine = g.fine;
    }

-- The loop of `Read`, with room for what is left of the text, decodes it to its end.
pub read_loop-AreCoded :
    {z : Tree} {ts : List Token} {code : List ℕ}
    → AreCoded z ts code
    → All IsToken ts
    → (f room : ℕ) (d : Reader) (h : Window) (out : Bytes) (pad : List ℕ) → d.tree ≡ z
    → IsFine d.bits
    → ahead d.bits ≡ code ++ pad
    → InStep d.text d.r h
    → d.size ≡ pos (d.at + length (expand ts h))
    → length out + length (expand ts h) ≤ room
    → length ts ≤ f
    → Decoded d out (expand ts h) (read_loop f room (d, out))
read_loop-AreCoded none_left ok f room d h out pad tree fine left s size fits enough =
    same-Decoded d out (read_loop f room (d, out)) fine.1 (at_end f room d out size)
read_loop-AreCoded (one_more c cs) ok zero room d h out pad tree fine left s size fits enough =
    absurd (omega arith)
read_loop-AreCoded (one_more {z} {t} {ts} {bits} {rest} c cs) (is, ok) (suc f) room d h out pad tree
      fine left s size fits enough =
    let out' = expand_token t h in
    let h' = push_all out' h in
    let more = expand_token-some t h is in
    let sum = length-append {0} out' (expand ts h') in
    let joined = length-append {0} out out' in
    let (reader, e, left', fine') =
      c.decoded d.bits (rest ++ pad) fine (left ∙ append_assoc bits rest pad) in
    let z' = update (char_of t) z in
    let d₁ = record d { bits = reader; tree = z' } in
    let g = use_token-Gave t room d₁ h out s is (omega (arith, sum)) in
    let d₂ = later d reader z' g.text g.r (d.at + length out') in
    let on =
      goes_on-true room d out (d.at + length (out' ++ expand ts h')) (omega (arith, sum)) fine.1
        size (omega (arith, sum)) in
    let first : read_loop (suc f) room (d, out) ≡ read_loop f room (d₂, out ++ out') =
      loop_on f room d out t reader z' on (ap (λ z. decode_token z d.bits) tree ∙ e)
      ∙ ap (read_loop f room) g.result in
    let size' : d.size ≡ pos (d.at + length out' + length (expand ts h')) =
      size ∙ ap pos (omega (arith, sum)) in
    let rest' =
      read_loop-AreCoded cs ok f room d₂ h' (out ++ out') pad refl fine' left' g.in_step size'
        (omega (arith, sum, joined)) (omega arith) in
    subst (Decoded d out (out' ++ expand ts h')) (sym first) (
      then-Decoded d d₂ out out' (expand ts h') (read_loop f room (d₂, out ++ out')) reader z'
        g.text g.r refl rest')
