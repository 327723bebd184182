-- ===== src/Fbb/Body/Lines.antt =====
-- The lines of a body that is sent: how long they are, what they hold, and what is lost.
use wl2k_go.Prelude.{
  ℕ, zero, suc, ◌+◌, ◌-◌, ◌<◌, ◌≤◌, ◌≡◌, refl, sym, ap, ◌∙◌, inl, inr, Bool-cases, List, [], ◌∷◌,
  ◌++◌, Bytes, arith, tests, leb, length, drop, append-nil, append_assoc, length-append,
  length-take, length-drop, take-append-drop,
}
use wl2k_go.Go.Strings.{cut_at, Free, cut_at-append}
use wl2k_go.Go.Sort.{All}
use wl2k_go.Go.Textproto.{drop_return}
use wl2k_go.Fbb.Body.{
  max_scan_token_size, scan_lines, max_line, pieces, all_pieces, write_lines, body_text,
}

-- A line fits, with its end.
abbrev pub FitsLine : Bytes → Type 0
FitsLine l = length l + 2 ≤ max_line

abbrev pub join : List Bytes → Bytes
join [] = []
join (l ∷ ls) = l ++ join ls

pieces-FitsLine : (f : ℕ) (l : Bytes) → All FitsLine (pieces f l)
unfolding pieces
pieces-FitsLine zero l = tt
pieces-FitsLine (suc f) l = elim (Bool-cases (leb (length l) (max_line - 2))) [
  | inl e ↦ rw e (omega tests, tt)
  | inr e ↦
      rw e (omega (arith, length-take (max_line - 2) l), pieces-FitsLine f (drop (max_line - 2) l))
]

-- With a round for each byte, and one more, nothing of the line is lost.
join-pieces : (f : ℕ) (l : Bytes) → length l < f → join (pieces f l) ≡ l
unfolding pieces
join-pieces zero l h = absurd (omega arith)
join-pieces (suc f) l h = elim (Bool-cases (leb (length l) (max_line - 2))) [
  | inl e ↦ rw e (append-nil l)
  | inr e ↦ rw e (
      rw (join-pieces f (drop (max_line - 2) l) (ground (arith, length-drop (max_line - 2) l)))
        (take-append-drop (max_line - 2) l))
]

All-append : (xs ys : List Bytes) → All FitsLine xs → All FitsLine ys → All FitsLine (xs ++ ys)
All-append [] ys h k = k
All-append (x ∷ xs) ys h k = (h.0, All-append xs ys h.1 k)

join-append : (xs ys : List Bytes) → join (xs ++ ys) ≡ join xs ++ join ys
join-append [] ys = refl
join-append (x ∷ xs) ys = rw (join-append xs ys) (sym (append_assoc x (join xs) (join ys)))

all_pieces-FitsLine : (ls : List Bytes) → All FitsLine (all_pieces ls)
unfolding all_pieces
all_pieces-FitsLine [] = tt
all_pieces-FitsLine (l ∷ ls) =
    All-append (pieces (suc (length l)) l) (all_pieces ls) (pieces-FitsLine (suc (length l)) l)
      (all_pieces-FitsLine ls)

join-all_pieces : (ls : List Bytes) → join (all_pieces ls) ≡ join ls
unfolding all_pieces
join-all_pieces [] = refl
join-all_pieces (l ∷ ls) =
    join-append (pieces (suc (length l)) l) (all_pieces ls)
    ∙ rw (join-pieces (suc (length l)) l (omega arith), join-all_pieces ls)

-- The body is made of lines of at most 1000 bytes, their ends included, and the lines hold the bytes of
-- the lines that were scanned, in their order.
pub body_text_lem :
    (s : Bytes)
    → (ls : List Bytes) × (body_text s ≡ write_lines ls)
      × All FitsLine ls
      × (join ls ≡ join (scan_lines (suc (length s)) s))
unfolding body_text
body_text_lem s =
    let scanned = scan_lines (suc (length s)) s in
    (all_pieces scanned, refl, all_pieces-FitsLine scanned, join-all_pieces scanned)

scan_lines-long :
    (f : ℕ) (line rest : Bytes)
    → Free 10 line
    → max_scan_token_size ≤ length line
    → scan_lines (suc f) (line ++ 10 ∷ rest) ≡ []
unfolding scan_lines
scan_lines-long f line rest h k = ground (arith, cut_at-append 10 line rest h)

scan_lines-line :
    (f : ℕ) (line rest : Bytes)
    → Free 10 line
    → length line < max_scan_token_size
    → scan_lines (suc f) (line ++ 10 ∷ rest) ≡ drop_return line ∷ scan_lines f rest
unfolding scan_lines
scan_lines-line f line rest h k = ground (arith, cut_at-append 10 line rest h)

scan_lines-nil : (f : ℕ) → scan_lines f [] ≡ []
unfolding scan_lines cut_at
scan_lines-nil zero = refl
scan_lines-nil (suc f) = refl

-- A line of 64 KB or more ends the body: it and all text behind it are lost, whatever they are, and the
-- lines before it are sent.
pub body_text_truncated :
    (before line rest : Bytes)
    → Free 10 before
    → length before < max_scan_token_size
    → Free 10 line
    → max_scan_token_size ≤ length line
    → body_text (before ++ 10 ∷ (line ++ 10 ∷ rest)) ≡ body_text (before ++ 10 ∷ [])
unfolding body_text
body_text_truncated before line rest hb lb hl ll =
    let after = line ++ 10 ∷ rest in
    let n : length (before ++ 10 ∷ after) ≡ suc (length before + length after) =
      omega (arith, length-append {0} before (10 ∷ after)) in
    ap (λ ls. write_lines (all_pieces ls))
      (scan_lines-line (length (before ++ 10 ∷ after)) before after hb lb
        ∙ ap (λ ls. drop_return before ∷ ls)
            (ap (λ f. scan_lines f after) n
              ∙ scan_lines-long (length before + length after) line rest hl ll
              ∙ sym (scan_lines-nil (length (before ++ 10 ∷ []))))
        ∙ sym (scan_lines-line (length (before ++ 10 ∷ [])) before [] hb lb))
