-- ===== src/Fbb/Answer/RoundTrip.antt =====
-- The answers that one side writes are the answers that the other side reads.
use wl2k_go.Prelude.{
  ℕ, suc, ◌≡◌, refl, ap, ◌∙◌, ◌⊎◌, inl, inr, false, Option, none, some, List, [], ◌∷◌, ◌++◌, Bytes,
  arith, ◌==◌, length, append_assoc,
}
use wl2k_go.Go.Result.{ok, ◌>>=◌}
use wl2k_go.Go.Strings.{codes, Free}
use wl2k_go.Go.Sort.{All}
use wl2k_go.Fbb.Line.{next_line}
use wl2k_go.Fbb.Line.Clean.{IsGraphic, next_line-line}
use wl2k_go.Fbb.Proposal.{Proposal, accept, reject, defer}
use wl2k_go.Fbb.Answer.{
  answers, answer_line, answer_all, answer_one, write_proposals_answer, read_answer, parse_answers,
  parse_proposal_answer,
}

-- One of the three answers.
abbrev pub IsAnswer : ℕ → Type 0
IsAnswer c = (c ≡ accept) ⊎ ((c ≡ reject) ⊎ (c ≡ defer))

-- The handler, if there is one, gives only such answers.
abbrev pub Answers : Option (Proposal → ℕ) → Type 0
Answers none = Unit {0}
Answers (some answer) = (q : Proposal) → IsAnswer (answer q)

-- The proposals of the sender with the answers of the receiver.
abbrev pub take_answers : List Proposal → List Proposal → List Proposal
take_answers [] qs = qs
take_answers (p ∷ ps) [] = []
take_answers (p ∷ ps) (q ∷ qs) = record q { answer = p.answer } ∷ take_answers ps qs

parse_answers_step :
    (c : ℕ) (s : Bytes) (q : Proposal) (qs : List Proposal)
    → IsAnswer c
    → parse_answers (c ∷ s) (q ∷ qs)
      ≡ (parse_answers s qs >>= λ r. ok (record q { answer = c } ∷ r))
unfolding parse_answers read_answer
parse_answers_step c s q qs (inl e) = rw e
parse_answers_step c s q qs (inr (inl e)) = rw e
parse_answers_step c s q qs (inr (inr e)) = rw e

parse_answers-answers :
    (ps qs : List Proposal)
    → All (λ p. IsAnswer p.answer) ps
    → length ps ≡ length qs
    → parse_answers (answers ps) qs ≡ ok (take_answers ps qs)
parse_answers-answers [] qs h e = unfold parse_answers in refl
parse_answers-answers (p ∷ ps) [] h e = absurd (omega arith)
parse_answers-answers (p ∷ ps) (q ∷ qs) h e =
    parse_answers_step p.answer (answers ps) q qs h.0
    ∙ ap (λ m. m >>= λ r. ok (record q { answer = p.answer } ∷ r))
        (parse_answers-answers ps qs h.1 (omega arith))

answer_one-IsAnswer :
    (handler : Option (Proposal → ℕ)) (seen : List Bytes) (p : Proposal)
    → Answers handler
    → IsAnswer (answer_one handler seen p)
unfolding answer_one
answer_one-IsAnswer none seen p h = ground arith
answer_one-IsAnswer (some answer) seen p h = ground (arith, h p)

answer_all-IsAnswer :
    (handler : Option (Proposal → ℕ)) (seen : List Bytes) (ps : List Proposal)
    → Answers handler
    → All (λ p. IsAnswer p.answer) (answer_all handler seen ps)
unfolding answer_all
answer_all-IsAnswer handler seen [] h = tt
answer_all-IsAnswer handler seen (p ∷ ps) h =
    (answer_one-IsAnswer handler seen p h, answer_all-IsAnswer handler (p.mid ∷ seen) ps h)

length-answer_all :
    (handler : Option (Proposal → ℕ)) (seen : List Bytes) (ps : List Proposal)
    → length (answer_all handler seen ps) ≡ length ps
unfolding answer_all
length-answer_all handler seen [] = refl
length-answer_all handler seen (p ∷ ps) = ap suc (length-answer_all handler (p.mid ∷ seen) ps)

parse_proposal_answer-fs :
    (s : Bytes) (qs : List Proposal)
    → parse_proposal_answer (codes "FS " ++ s) qs ≡ parse_answers s qs
unfolding parse_proposal_answer
parse_proposal_answer-fs s qs = refl

IsAnswer-IsGraphic : (c : ℕ) → IsAnswer c → IsGraphic c × ((c == 13) ≡ false)
IsAnswer-IsGraphic c h = ground arith

-- A list of answers that is not empty ends in one.
last_answer :
    (p : Proposal) (ps : List Proposal)
    → All (λ p. IsAnswer p.answer) (p ∷ ps)
    → (m : Bytes) × (z : ℕ) × (answers (p ∷ ps) ≡ m ++ z ∷ []) × IsAnswer z × Free 13 (m ++ z ∷ [])
last_answer p [] h = ([], p.answer, refl, h.0, ((IsAnswer-IsGraphic p.answer h.0).1, tt))
last_answer p (q ∷ ps) h =
    let (m, z, e, a, f) = last_answer q ps h.1 in
    (p.answer ∷ m, z, ap (λ l. p.answer ∷ l) e, a, ((IsAnswer-IsGraphic p.answer h.0).1, f))

fs_line :
    (t m : Bytes) (z : ℕ) (rest : Bytes)
    → t ≡ m ++ z ∷ []
    → IsAnswer z
    → Free 13 (m ++ z ∷ [])
    → next_line ((codes "FS " ++ (t ++ 13 ∷ [])) ++ rest) ≡ ok (codes "FS " ++ t, rest)
fs_line t m z rest e a f = rw e (
    ap (λ l. next_line (codes "FS " ++ l)) (append_assoc (m ++ z ∷ []) (13 ∷ []) rest)
    ∙ next_line-line b'F' (b'S' ∷ b' ' ∷ m) z rest (omega arith) (IsAnswer-IsGraphic z a).0
        (omega arith) (refl, (refl, (refl, f))))

next_line-answers :
    (p : Proposal) (ps : List Proposal) (rest : Bytes)
    → All (λ p. IsAnswer p.answer) (p ∷ ps)
    → next_line (answer_line (p ∷ ps) ++ rest) ≡ ok (codes "FS " ++ answers (p ∷ ps), rest)
unfolding answer_line
next_line-answers p ps rest h =
    let (m, z, e, a, f) = last_answer p ps h in fs_line (answers (p ∷ ps)) m z rest e a f

-- The receiver's answers to a block of one or more proposals reach the sender as one line, whatever
-- follows it, and the sender, with as many proposals, sets each to the answer that the receiver
-- has given. The handler, if there is one, gives only the three answers of the protocol.
pub parse_proposal_answer-write_proposals_answer :
    (handler : Option (Proposal → ℕ)) (p : Proposal) (ps qs : List Proposal) (rest : Bytes)
    → Answers handler
    → length (p ∷ ps) ≡ length qs
    → let (answered, _, sent) = write_proposals_answer handler (p ∷ ps) in
      (line : Bytes) × (next_line (sent ++ rest) ≡ ok (line, rest))
      × (parse_proposal_answer line qs ≡ ok (take_answers answered qs))
unfolding write_proposals_answer
parse_proposal_answer-write_proposals_answer handler p ps qs rest h e =
    let answered = answer_all handler [] (p ∷ ps) in
    let valid = answer_all-IsAnswer handler [] (p ∷ ps) h in
    (
      codes "FS " ++ answers answered,
      (unfold answer_all in
          next_line-answers (record p { answer = answer_one handler [] p })
            (answer_all handler (p.mid ∷ []) ps) rest valid),
      parse_proposal_answer-fs (answers answered) qs
          ∙ parse_answers-answers answered qs valid (length-answer_all handler [] (p ∷ ps) ∙ e),
    )
