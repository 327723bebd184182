-- ===== src/Fbb/Session/Outbound.antt =====
-- fbb/b2f.go, sendOutbound and handleOutbound: this side's turn.
pub mod Steady
pub mod Turn
pub mod Sent
use wl2k_go.Prelude.{
  ℕ, zero, suc, Bool, true, false, not, ◌&&◌, ◌||◌, Option, none, some, List, [], ◌∷◌, ◌++◌, Bytes,
  ◌==◌, if◌then◌else◌, length, take,
}
use wl2k_go.Go.Result.{ok, err, panic}
use wl2k_go.Go.Strings.{codes, bytes_eq, has_prefix}
use wl2k_go.Fbb.Error.{Error, Result, eof, unexpected_response, unexpected_answer, out_of_fuel}
use wl2k_go.Fbb.Proposal.{Proposal, accept, reject, defer}
use wl2k_go.Fbb.Answer.{parse_proposal_answer}
use wl2k_go.Fbb.Block.{write_block}
use wl2k_go.Fbb.Transfer.{Written, done, failed, panicked, write_compressed}
use wl2k_go.Fbb.Session.Defs.{MboxHandler, Messages, Session, outbound}
use wl2k_go.Fbb.Session.Steps.{Step, after, ◌>>=◌, pure, lift, write, read_line}

abbrev pub max_block_size : ℕ
max_block_size = 5

-- `map[string]bool`: the message ids with an answer, true for a rejected one.
abbrev pub SentMap : Type 0
SentMap = List (Bytes × Bool)

unfoldable pub put : Bytes → Bool → SentMap → SentMap
put mid rej [] = (mid, rej) ∷ []
put mid rej ((m, r) ∷ sent) = if bytes_eq m mid then (m, rej) ∷ sent else (m, r) ∷ put mid rej sent

-- The entries that are not rejected.
unfoldable pub unrejected : SentMap → SentMap
unrejected [] = []
unrejected ((m, true) ∷ sent) = unrejected sent
unrejected ((m, false) ∷ sent) = (m, false) ∷ unrejected sent

abbrev pub is_empty {ℓ} : {A : Type ℓ} → List A → Bool
is_empty [] = true
is_empty (x ∷ xs) = false

-- The loop that waits for the answer. A line takes a byte at least. The error shows the reply, which is
-- still empty, and not the line.
unfoldable pub wait_reply : {M : Type 0} → ℕ → Step M Bytes
wait_reply zero s = (s, err out_of_fuel)
wait_reply (suc f) s = after (read_line s) λ line s'.
    let more = wait_reply f s' in
    if has_prefix line (codes "FS ")
    then (s', ok line)
    else (if has_prefix line (codes ";") then more else (s', err (unexpected_answer [])))

-- The first byte of the other side's turn confirms the block.
abbrev pub confirms : Bytes → Bool
confirms [] = false
confirms (c ∷ s) = c == b'F' || c == b';'

module _ {M Msg : Type 0} (h : Option (MboxHandler M Msg)) (msgs : Messages Msg) where
  -- Calls of the handler. Without one nothing is pending, and no call is made.
  abbrev pub set_sent : Bytes → Bool → Session M → Session M
  set_sent mid rej s = elim h [
    | none ↦ s
    | some mb ↦ record s { mbox = mb.set_sent mid rej s.mbox }
  ]

  abbrev pub set_deferred : Bytes → Session M → Session M
  set_deferred mid s = elim h [
    | none ↦ s
    | some mb ↦ record s { mbox = mb.set_deferred mid s.mbox }
  ]

  -- The end of one transfer: the error of `writeCompressed`, or the next proposal.
  abbrev pub transmitted :
      Written → Session M → (Session M → Session M × Result SentMap) → Session M × Result SentMap
  transmitted (done out) s next = next (write out s)
  transmitted (failed out e) s next = (write out s, err e)
  transmitted (panicked out) s next = (write out s, panic)

  -- The last loop of `sendOutbound`, over the answered proposals.
  unfoldable pub transmit : List Proposal → SentMap → Step M SentMap
  transmit [] sent s = (s, ok sent)
  transmit (p ∷ ps) sent s =
      let deferred = transmit ps sent (set_deferred p.mid s) in
      let rejected = transmit ps (put p.mid true sent) s in
      let unanswered = transmit ps sent s in
      let accepted = transmitted (write_compressed p) s (transmit ps (put p.mid false sent)) in
      if p.answer == defer
      then deferred
      else (if p.answer == reject
          then rejected
          else (if p.answer == accept then accepted else unanswered))

  -- `sendOutbound`, at the pending proposals.
  unfoldable pub send_outbound : List Proposal → Step M SentMap
  send_outbound pending s =
      let offered = take max_block_size pending in
      let s' = write (write_block offered) s in
      after (wait_reply (suc (length s'.rd)) s') λ reply s₁.
        after (s₁, parse_proposal_answer reply offered) λ answered s₂. transmit answered [] s₂

  -- The rejected messages are reported at once.
  unfoldable pub report_rejected : SentMap → Session M → Session M
  report_rejected [] s = s
  report_rejected ((mid, true) ∷ sent) s = report_rejected sent (set_sent mid true s)
  report_rejected ((mid, false) ∷ sent) s = report_rejected sent s

  -- The others are reported, and recorded, when the block is confirmed.
  unfoldable pub report_sent : SentMap → Session M → Session M
  report_sent [] s = s
  report_sent ((mid, true) ∷ sent) s = report_sent sent (set_sent mid true s)
  report_sent ((mid, false) ∷ sent) s =
      report_sent sent (let s' = set_sent mid false s in record s' { sent = s'.sent ++ (mid ∷ []) })

  unfoldable pub confirm : SentMap → Step M Bool
  confirm sent s =
      if is_empty s.rd
      then (s, err eof)
      else (if confirms s.rd
          then (report_sent sent s, ok false)
          else after (read_line s) λ line s'. (s', err (unexpected_response line)))

  -- The session turnover, behind the report of the rejected messages.
  unfoldable pub turnover : SentMap → Step M Bool
  turnover sent s =
      if is_empty sent
      then (if s.remote_no_msgs
          then (write (codes "FQ" ++ (13 ∷ [])) s, ok true)
          else confirm sent (write (codes "FF" ++ (13 ∷ [])) s))
      else confirm sent s

  abbrev pub offer_pending : Session M → Session M × Result SentMap
  offer_pending s =
      if is_empty (outbound h msgs s) then (s, ok []) else send_outbound (outbound h msgs s) s

  -- `handleOutbound`: true if the quit command was sent. A round in which all was deferred or rejected has
  -- read a line, so it takes a byte at least.
  unfoldable pub handle_outbound : ℕ → Step M Bool
  handle_outbound zero s = (s, err out_of_fuel)
  handle_outbound (suc f) s = after (offer_pending s) λ sent s₁.
      let s₂ = report_rejected sent s₁ in
      let again = handle_outbound f s₂ in
      if is_empty (unrejected sent) && not (is_empty (outbound h msgs s₂))
      then again
      else turnover (unrejected sent) s₂
