-- ===== src/Fbb/Answer/Tests.antt =====
-- Runs of the answers, and their theorems at concrete inputs.
use wl2k_go.Prelude.{ℕ, ◌≡◌, refl, inl, Option, some, List, [], ◌∷◌, ◌++◌, map, Bytes, arith}
use wl2k_go.Prelude.Int.{pos, negsuc}
use wl2k_go.Go.Result.{ok, err}
use wl2k_go.Go.Strings.{codes}
use wl2k_go.Go.Sort.{All, Ordered}
use wl2k_go.Go.Strconv.{show_int}
use wl2k_go.Go.Mime.{q_encode}
use wl2k_go.Fbb.Error.{invalid_answer}
use wl2k_go.Fbb.Line.{next_line}
use wl2k_go.Fbb.Transfer.{write_compressed, write_header, panicked}
use wl2k_go.Fbb.Proposal.{Proposal, empty_proposal, accept, wl2k_proposal}
use wl2k_go.Fbb.Answer.{
  answer_one, answer_all, count_accepted, answer_line, write_proposals_answer, read_answer,
  parse_answers, parse_proposal_answer,
}
use wl2k_go.Fbb.Answer.RoundTrip.{take_answers, parse_proposal_answer-write_proposals_answer}
use wl2k_go.Fbb.Answer.Offset.{negative_offset_panics}
use wl2k_go.Fbb.Answer.Duplicates.{DefersRepeat, DefersUnknown, answer_all_lem}

abbrev message : Bytes → Proposal
message mid = record empty_proposal { code = wl2k_proposal; mid = mid; compressed_size = pos 10 }

abbrev accept_all : Option (Proposal → ℕ)
accept_all = some (λ p. accept)

abbrev block : List Proposal
block = message (codes "A") ∷ message (codes "B") ∷ message (codes "A") ∷ []

answers_run : (write_proposals_answer accept_all block).2 ≡ codes "FS ++=" ++ (13 ∷ [])
unfolding write_proposals_answer answer_all answer_one answer_line
answers_run = refl

accepted_run : (write_proposals_answer accept_all block).1 ≡ 2
unfolding write_proposals_answer answer_all answer_one count_accepted
accepted_run = refl

invalid_run : parse_proposal_answer (codes "FS +?") block ≡ err (invalid_answer b'?')
unfolding parse_proposal_answer parse_answers read_answer
invalid_run = refl

parse_proposal_answer-write_proposals_answer_example :
    let (answered, _, sent) = write_proposals_answer accept_all block in
    (line : Bytes) × (next_line (sent ++ codes "FF") ≡ ok (line, codes "FF"))
    × (parse_proposal_answer line block ≡ ok (take_answers answered block))
parse_proposal_answer-write_proposals_answer_example =
    parse_proposal_answer-write_proposals_answer accept_all (message (codes "A"))
      (message (codes "B") ∷ message (codes "A") ∷ []) block (codes "FF") (λ q. inl refl) refl

negative_offset_panics_example :
    (q' : Proposal) × (parse_proposal_answer
        (codes "FS !" ++ show_int (negsuc 4))
        (message (codes "A") ∷ [])
      ≡ ok (q' ∷ []))
    × (write_compressed q' ≡ panicked (write_header (q_encode []) (show_int (negsuc 4))))
negative_offset_panics_example =
    negative_offset_panics 4 (message (codes "A")) (omega arith) (omega arith)

answer_all_lem_example :
    Ordered DefersRepeat (answer_all accept_all [] block)
    × All DefersUnknown (answer_all accept_all [] block)
    × (map (λ p. p.mid) (answer_all accept_all [] block) ≡ map (λ p. p.mid) block)
answer_all_lem_example = answer_all_lem accept_all block
