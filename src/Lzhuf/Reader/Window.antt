-- ===== src/Lzhuf/Reader/Window.antt =====
-- What tokens stand for, said without a text buffer; and that the text buffer of the Reader is such a window on what
-- has been decoded.
use wl2k_go.Prelude.{
  ℕ, zero, suc, ◌+◌, ◌-◌, ◌*◌, ◌%◌, ◌≤◌, ◌<◌, ◌≡◌, ◌≢◌, refl, sym, ap, ◌∙◌, inl, inr, true, List,
  [], ◌∷◌, ◌++◌, Bytes, append_assoc, append-nil, arith, length, length-append, ltb, ◌==◌, ==_iff,
  Bool-cases, if◌then◌else◌,
}
use mathlib.Core.Path.{subst}
use wl2k_go.Lzhuf.Tree.{Array, store}
use wl2k_go.Lzhuf.Search.{buffer_size}
use wl2k_go.Lzhuf.Writer.{Token, literal, copy}
use wl2k_go.Lzhuf.Reader.{Reader, deliver, copy_text, use_token}
use wl2k_go.Lzhuf.Reader.Tokens.{IsToken}

-- The byte that stands so many places back.
abbrev pub Window : Type 0
Window = ℕ → ℕ

abbrev pub push : ℕ → Window → Window
push c h = λ i. if i == 0 then c else h (i - 1)

abbrev pub push_all : Bytes → Window → Window
push_all [] h = h
push_all (c ∷ s) h = push_all s (push c h)

-- `n` times the byte that is so far back.
abbrev pub repeat : ℕ → ℕ → Window → Bytes
repeat zero position h = []
repeat (suc n) position h = h position ∷ repeat n position (push (h position) h)

abbrev pub expand_token : Token → Window → Bytes
expand_token (literal c) h = c ∷ []
expand_token (copy n position) h = repeat n position h

-- The text that some tokens stand for.
abbrev pub expand : List Token → Window → Bytes
expand [] h = []
expand (t ∷ ts) h = expand_token t h ++ expand ts (push_all (expand_token t h) h)

pub length-repeat : (n position : ℕ) (h : Window) → length (repeat n position h) ≡ n
length-repeat zero position h = refl
length-repeat (suc n) position h = ap suc (length-repeat n position (push (h position) h))

-- The text buffer, up to its size, is the window.
pub record InStep (text : Array) (r : ℕ) (h : Window) : Type 0 where
  pub inside : r < buffer_size
  pub seen : (i : ℕ) → i < buffer_size → text ((r + 2047 - i) % buffer_size) ≡ h i

abbrev pub next : ℕ → ℕ
next r = (r + 1) % buffer_size

back_one :
    (r i : ℕ)
    → r < 2048
    → 0 < i
    → i < 2048
    → (next r + 2047 - i) % 2048 ≡ (r + 2047 - (i - 1)) % 2048
back_one r i lt h small = omega arith

back_other : (r i : ℕ) → r < 2048 → i < 2047 → (r + 2047 - i) % 2048 ≢ r
back_other r i lt h e = omega arith

InStep-push :
    (text : Array) (r c : ℕ) (h : Window)
    → InStep text r h
    → InStep (store r c text) (next r) (push c h)
InStep-push text r c h s = record {
  inside = omega (arith, s.inside);
  seen = λ i lt. elim (Bool-cases (i == 0)) [
    | inl e ↦
        let at : (next r + 2047 - i) % buffer_size ≡ r =
          omega (arith, s.inside, (==_iff i 0).0 e) in
        rw (at, e) (ground arith)
    | inr e ↦
        let more : 0 < i = ground arith in
        let from = back_one r i s.inside more lt in
        let other = back_other r (i - 1) s.inside (omega arith) in
        let known = s.seen (i - 1) (omega arith) in rw (from, e) (ground (arith, known, other))
  ];
}

-- A reader that has decoded some bytes.
abbrev pub moved : Reader → Array → ℕ → ℕ → Reader
moved d text r at = record d { text = text; r = r; at = at }

-- Some bytes were given to the caller, and the window has moved on over them.
pub record Gave (d : Reader) (h : Window) (out s : Bytes) (x : Reader × Bytes) : Type 0 where
  pub text : Array
  pub r : ℕ
  pub result : x ≡ (moved d text r (d.at + length s), out ++ s)
  pub in_step : InStep text r (push_all s h)

delivered :
    (room c : ℕ) (d : Reader) (out : Bytes)
    → length out < room
    → deliver room c (d, out) ≡ (moved d (store d.r c d.text) (next d.r) (d.at + 1), out ++ c ∷ [])
unfolding deliver
delivered room c d out lt = let fits : ltb (length out) room ≡ true = ground arith in rw fits refl

none-Gave : (d : Reader) (h : Window) (out : Bytes) → InStep d.text d.r h → Gave d h out [] (d, out)
none-Gave d h out s =
    let same : d.at ≡ d.at + 0 = omega arith in
    record {
      text = d.text;
      r = d.r;
      result =
          ap (λ n. (moved d d.text d.r n, out)) same
          ∙ ap (λ o. (moved d d.text d.r (d.at + 0), o)) (sym (append-nil out));
      in_step = s;
    }

-- One byte given, and then some more.
then-Gave :
    (d : Reader) (h : Window) (out : Bytes) (c : ℕ) (s : Bytes) (x : Reader × Bytes)
    → (text : Array) (r : ℕ) → Gave (moved d text r (d.at + 1)) (push c h) (out ++ c ∷ []) s x
    → Gave d h out (c ∷ s) x
then-Gave d h out c s x text r g =
    let count : d.at + 1 + length s ≡ d.at + suc (length s) = omega arith in
    record {
      text = g.text;
      r = g.r;
      result =
          g.result
          ∙ ap (λ n. (moved d g.text g.r n, (out ++ c ∷ []) ++ s)) count
          ∙ ap (λ o. (moved d g.text g.r (d.at + suc (length s)), o)) (append_assoc out (c ∷ []) s);
      in_step = g.in_step;
    }

-- The place that is copied from, as it was written.
copied :
    (text : Array) (r i position : ℕ) (h : Window)
    → InStep text r h
    → position < buffer_size
    → i % buffer_size ≡ (r + 2047 - position) % buffer_size
    → text (i % buffer_size) ≡ h position
copied text r i position h s near at = ap text at ∙ s.seen position near

on_by_one :
    (r i position : ℕ)
    → r < 2048
    → position < 2048
    → i % 2048 ≡ (r + 2047 - position) % 2048
    → (i + 1) % 2048 ≡ ((r + 1) % 2048 + 2047 - position) % 2048
on_by_one r i position lt near at = omega arith

copy_text-Gave :
    (k i position room : ℕ) (d : Reader) (h : Window) (out : Bytes)
    → InStep d.text d.r h
    → position < buffer_size
    → i % buffer_size ≡ (d.r + 2047 - position) % buffer_size
    → length out + k ≤ room
    → Gave d h out (repeat k position h) (copy_text k i room (d, out))
unfolding copy_text
copy_text-Gave zero i position room d h out s near at lt = none-Gave d h out s
copy_text-Gave (suc k) i position room d h out s near at lt =
    let c = h position in
    let text = store d.r c d.text in
    let d' = moved d text (next d.r) (d.at + 1) in
    let more : length (out ++ c ∷ []) + k ≤ room = omega (arith, length-append {0} out (c ∷ [])) in
    let e : copy_text (suc k) i room (d, out) ≡ copy_text k (i + 1) room (d', out ++ c ∷ []) =
      ap (λ b. copy_text k (i + 1) room (deliver room b (d, out)))
        (copied d.text d.r i position h s near at)
      ∙ ap (copy_text k (i + 1) room) (delivered room c d out (omega arith)) in
    let rest =
      copy_text-Gave k (i + 1) position room d' (push c h) (out ++ c ∷ [])
        (InStep-push d.text d.r c h s) near (on_by_one d.r i position s.inside near at) more in
    subst (Gave d h out (repeat (suc k) position h)) (sym e) (
      then-Gave d h out c (repeat k position (push c h))
        (copy_text k (i + 1) room (d', out ++ c ∷ [])) text (next d.r) rest)

copy_start :
    (r position : ℕ)
    → r < 2048
    → position < 2048
    → (r + 4096 - position - 1) % 2048 % 2048 ≡ (r + 2047 - position) % 2048
copy_start r position lt near = omega arith

-- A token gives the bytes that it stands for.
pub use_token-Gave :
    (t : Token) (room : ℕ) (d : Reader) (h : Window) (out : Bytes)
    → InStep d.text d.r h
    → IsToken t
    → length out + length (expand_token t h) ≤ room
    → Gave d h out (expand_token t h) (use_token room t (d, out))
unfolding use_token
use_token-Gave (literal c) room d h out s ok lt =
    subst (Gave d h out (c ∷ [])) (sym (delivered room c d out (omega arith))) (
      then-Gave d h out c [] (moved d (store d.r c d.text) (next d.r) (d.at + 1), out ++ c ∷ [])
        (store d.r c d.text) (next d.r)
        (none-Gave (moved d (store d.r c d.text) (next d.r) (d.at + 1)) (push c h) (out ++ c ∷ [])
          (InStep-push d.text d.r c h s)))
use_token-Gave (copy n position) room d h out s (long, short, near) lt =
    copy_text-Gave n ((d.r + 2 * buffer_size - position - 1) % buffer_size) position room d h out s
      near (copy_start d.r position s.inside near) (omega (arith, length-repeat n position h))
