-- ===== src/Fbb/Session/Inbound.antt =====
-- fbb/b2f.go, handleInbound: the other side's turn.
pub mod Fetch
pub mod Turn
use wl2k_go.Prelude.{
  ℕ, zero, suc, Bool, true, false, Option, none, some, List, [], ◌∷◌, ◌++◌, Bytes, ltb, ◌==◌,
  if◌then◌else◌, length,
}
use wl2k_go.Go.Result.{ok, err, panic}
use wl2k_go.Fbb.Error.{Error, Result, eof, handler_error, bad_message, out_of_fuel}
use wl2k_go.Fbb.Proposal.{Proposal, accept}
use wl2k_go.Fbb.Answer.{write_proposals_answer}
use wl2k_go.Fbb.Block.{BlockEnd, finished, quitting, prompted, read_lines}
use wl2k_go.Fbb.Transfer.{read_compressed}
use wl2k_go.Fbb.Session.Defs.{
  MboxHandler, Messages, parsed, cut_short, malformed, panicked, Session,
}
use wl2k_go.Fbb.Session.Steps.{Step, after, write, advance}

module _ {M Msg : Type 0} (h : Option (MboxHandler M Msg)) (msgs : Messages Msg)
    (decode : Bytes → Bytes) where
  -- `s.h.ProcessInbound(msg)`, and the record of the message if it returns no error. A call of a handler
  -- that is not there panics.
  abbrev pub process : Bytes → Msg → Step M (Unit {0})
  process mid msg s = elim h [
    | none ↦ (s, panic)
    | some mb ↦
        let (m, valid) = mb.process_inbound msg s.mbox in
        let s' = record s { mbox = m } in
        if valid
        then (record s' { received = s'.received ++ (mid ∷ []) }, ok tt)
        else (s', err handler_error)
  ]

  -- One accepted message. The error of a text that ends too soon is that of the reader, `io.EOF` or
  -- `io.ErrUnexpectedEOF`.
  unfoldable pub fetch_one : Proposal → Step M (Unit {0})
  fetch_one p s = after (advance s (read_compressed decode s.rd p)) λ p' s₁.
      elim (msgs.from_proposal p') [
        | parsed msg ↦ process p'.mid msg s₁
        | cut_short ↦ (s₁, err eof)
        | malformed ↦ (s₁, err bad_message)
        | panicked ↦ (s₁, panic)
      ]

  -- The loop over the proposals.
  unfoldable pub fetch_all : List Proposal → Step M (Unit {0})
  fetch_all [] s = (s, ok tt)
  fetch_all (p ∷ ps) s =
      let skipped = fetch_all ps s in
      let fetched =
        after (fetch_one p (record s { remote_no_msgs = false })) λ _ s'. fetch_all ps s' in
      if p.answer == accept then fetched else skipped

  -- "Fetch and decompress accepted"
  abbrev pub fetch : List Proposal → Bool → Step M Bool
  fetch ps quit s = after (fetch_all ps (record s { remote_no_msgs = true })) λ _ s'. (s', ok quit)

  abbrev pub answerer : Session M → Option (Proposal → ℕ)
  answerer s = elim h [ none ↦ none | some mb ↦ some (mb.get_inbound_answer s.mbox) ]

  -- The prompt behind a block: an empty block ends the turn, and one of which nothing is accepted is
  -- followed by another.
  unfoldable pub answer_block : List Proposal → (Session M → Session M × Result Bool) → Step M Bool
  answer_block [] again s = (s, ok false)
  answer_block (p ∷ ps) again s =
      let (answered, n, line) = write_proposals_answer (answerer s) (p ∷ ps) in
      let s' = write line s in if ltb 0 n then fetch answered false s' else again s'

  abbrev pub end_of_block : BlockEnd → (Session M → Session M × Result Bool) → Step M Bool
  end_of_block (finished props) again s = fetch props false s
  end_of_block (quitting props) again s = fetch props true s
  end_of_block (prompted props) again s = answer_block props again s

  -- `handleInbound`: true if the quit command was received. A quit with accepted proposals is an error
  -- there; it cannot come about, since a block with an accepted proposal ends the loop. Each round reads a
  -- line, so it takes a byte at least. At an error of a line the session is left as it was.
  unfoldable pub handle_inbound : ℕ → Step M Bool
  handle_inbound zero s = (s, err out_of_fuel)
  handle_inbound (suc f) s =
      after (advance s (read_lines (suc (length s.rd)) s.rd 0 []))
        λ e s'. end_of_block e (handle_inbound f) s'
