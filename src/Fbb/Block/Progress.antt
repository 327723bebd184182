-- ===== src/Fbb/Block/Progress.antt =====
-- The loop over the lines of a block ends, and takes at least one line.
use wl2k_go.Prelude.{ℕ, zero, suc, ◌<◌, ◌≡◌, refl, List, [], ◌∷◌, ◌++◌, Bytes, arith, length, drop}
use wl2k_go.Go.Sort.{All}
use wl2k_go.Go.Strconv.{atoi}
use wl2k_go.Go.Strings.{split}
use wl2k_go.Fbb.Error.{Result, Ends, Ends-bind, Ends-if, Ends-mono}
use wl2k_go.Fbb.Line.{next_line}
use wl2k_go.Fbb.Line.Progress.{next_line-Ends}
use wl2k_go.Fbb.Proposal.{
  Proposal, empty_proposal, second, parse_parts, parse_b2_proposal, parse_coded, parse_proposal,
}
use wl2k_go.Fbb.Block.{
  add_line, Command, command, proposal, no_more, quit, prompt, unknown, BlockEnd, finished,
  quitting, prompted, read_prompt, is_ignored, is_unexpected, read_lines,
}

-- A parser of a proposal leaves its answer as it is.
abbrev KeepsAnswer : Proposal → Result Proposal → Type 0
KeepsAnswer p m = Ends (λ q. q.answer ≡ p.answer) m

parse_parts-Ends :
    (i : ℕ) (parts : List Bytes) (p : Proposal) → KeepsAnswer p (parse_parts i parts p)
unfolding parse_parts
parse_parts-Ends i [] p = refl
parse_parts-Ends zero (a ∷ as') p =
    ground (arith, parse_parts-Ends 1 as' (record p { msg_type = a }))
parse_parts-Ends (suc zero) (a ∷ as') p = parse_parts-Ends 2 as' (record p { mid = a })
parse_parts-Ends (suc (suc zero)) (a ∷ as') p =
    parse_parts-Ends 3 as' (record p { size = (atoi a).0 })
parse_parts-Ends (suc (suc (suc zero))) (a ∷ as') p =
    parse_parts-Ends 4 as' (record p { compressed_size = (atoi a).0 })
parse_parts-Ends (suc (suc (suc (suc zero)))) (a ∷ as') p = parse_parts-Ends 5 as' p
parse_parts-Ends (suc (suc (suc (suc (suc i))))) (a ∷ as') p = refl

parse_b2_proposal-Ends : (line : Bytes) (p : Proposal) → KeepsAnswer p (parse_b2_proposal line p)
unfolding parse_b2_proposal
parse_b2_proposal-Ends line p = ground (arith, parse_parts-Ends 0 (split b' ' (drop 3 line)) p)

parse_coded-Ends : (c : ℕ) (line : Bytes) (p : Proposal) → KeepsAnswer p (parse_coded c line p)
unfolding parse_coded
parse_coded-Ends c line p = ground (arith, parse_b2_proposal-Ends line (record p { code = c }))

parse_proposal-Ends : (line : Bytes) (p : Proposal) → KeepsAnswer p (parse_proposal line p)
unfolding parse_proposal
parse_proposal-Ends [] p = refl
parse_proposal-Ends (f ∷ []) p = ground arith
parse_proposal-Ends (f ∷ c ∷ rest) p = ground (arith, parse_coded-Ends c (f ∷ c ∷ rest) p)

-- The proposals of a block that was read.
abbrev pub proposals_of : BlockEnd → List Proposal
proposals_of (finished props) = props
proposals_of (quitting props) = props
proposals_of (prompted props) = props

-- No proposal has an answer yet.
abbrev pub Unanswered : List Proposal → Type 0
Unanswered props = All (λ p. p.answer ≡ 0) props

All-snoc :
    (props : List Proposal) (p : Proposal)
    → Unanswered props
    → p.answer ≡ 0
    → Unanswered (props ++ (p ∷ []))
All-snoc [] p h e = (e, tt)
All-snoc (q ∷ props) p h e = (h.0, All-snoc props p h.1 e)

-- Fewer than `n` bytes are left behind a block without answers.
abbrev BlockOf : ℕ → BlockEnd × Bytes → Type 0
BlockOf n r = (length r.1 < n) × Unanswered (proposals_of r.0)

read_prompt-Ends :
    (line rest : Bytes) (checksum : ℕ) (props : List Proposal) (n : ℕ)
    → length rest < n
    → Unanswered props
    → Ends (BlockOf n) (read_prompt line rest checksum props)
unfolding read_prompt
read_prompt-Ends line rest checksum props n lt h = ground arith

by_command :
    (P : BlockEnd × Bytes → Type 0) (c : Command) (a b d e f : Result (BlockEnd × Bytes))
    → Ends P a
    → Ends P b
    → Ends P d
    → Ends P e
    → Ends P f
    → Ends P (elim c [ proposal ↦ a | no_more ↦ b | quit ↦ d | prompt ↦ e | unknown ↦ f ])
by_command P proposal a b d e f ha hb hd he hf = ha
by_command P no_more a b d e f ha hb hd he hf = hb
by_command P quit a b d e f ha hb hd he hf = hd
by_command P prompt a b d e f ha hb hd he hf = he
by_command P unknown a b d e f ha hb hd he hf = hf

-- With more fuel than bytes the loop comes to its end: at an end of the block behind which fewer bytes
-- are left, at an error or at a panic. If it begins with no answered proposal, then none of those that
-- it has read has an answer yet.
pub read_lines-Ends :
    (f : ℕ) (s : Bytes) (checksum : ℕ) (props : List Proposal)
    → length s < f
    → Unanswered props
    → Ends
        (λ r. (length r.1 < length s) × Unanswered (proposals_of r.0))
        (read_lines f s checksum props)
unfolding read_lines
read_lines-Ends zero s checksum props h un = absurd (omega arith)
read_lines-Ends (suc f) s checksum props h un =
    let P = BlockOf (length s) in
    Ends-bind (λ r. length r.1 < length s) P (next_line s) _ (next_line-Ends s)
      λ r lt.
        Ends-if P (is_ignored r.0) _ _
          (Ends-mono (BlockOf (length r.1)) P _ (λ q k. (omega arith, k.1))
            (read_lines-Ends f r.1 checksum props (omega arith) un))
          (Ends-if P (is_unexpected r.0) _ _ refl (
            by_command P (command (second r.0)) _ _ _ _ _
              (Ends-bind (λ p. p.answer ≡ 0) P (parse_proposal r.0 empty_proposal) _
                (parse_proposal-Ends r.0 empty_proposal)
                λ p none.
                  Ends-mono (BlockOf (length r.1)) P _ (λ q k. (omega arith, k.1))
                    (read_lines-Ends f r.1 (add_line checksum r.0) (props ++ (p ∷ [])) (omega arith)
                      (All-snoc props p un none)))
              (lt, un) (lt, un) (read_prompt-Ends r.0 r.1 checksum props (length s) lt un) refl))
