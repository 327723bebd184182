-- ===== src/Fbb/Session/Outbound/Steady.antt =====
-- The steps of this side's turn before the turnover: what they leave alone, and that they end.
use wl2k_go.Prelude.{
  ℕ, zero, suc, ◌<◌, ◌≡◌, refl, Bool, true, false, Option, none, some, List, [], ◌∷◌, Bytes, arith,
  ◌==◌, length, take,
}
use wl2k_go.Go.Result.{ok, err, panic, ◌>>=◌}
use wl2k_go.Go.Strings.{codes, has_prefix}
use wl2k_go.Go.Strconv.{atoi}
use wl2k_go.Fbb.Error.{Result, Ends, Ends-bind, Ends-mono, is_fuel, offset_without_index}
use wl2k_go.Fbb.Proposal.{Proposal, accept, reject, defer}
use wl2k_go.Fbb.Answer.{
  Answer, accepted, rejected, deferred, offset, unknown, parse_answers, read_answer,
  parse_proposal_answer, cut_last_digit, limit_offset, trim_fs,
}
use wl2k_go.Fbb.Block.{write_block}
use wl2k_go.Fbb.Transfer.{Written, done, failed, panicked, write_compressed}
use wl2k_go.Fbb.Session.Defs.{MboxHandler, Messages, Session}
use wl2k_go.Fbb.Session.Steps.{write, read_line}
use wl2k_go.Fbb.Session.Kept.{
  Same, Same-refl, Same-trans, Kept, Kept-after, Kept-if, Kept-mono, read_line-Kept,
}
use wl2k_go.Fbb.Session.Outbound.{
  SentMap, put, wait_reply, set_sent, set_deferred, transmitted, transmit, send_outbound,
  max_block_size, report_rejected,
}

abbrev pub Shorter : {M : Type 0} → Session M → Session M → Type 0
Shorter s t = length t.rd < length s.rd

wait_reply-Kept :
    {M : Type 0} (f : ℕ) (s : Session M) → length s.rd < f → Kept (Shorter s) s (wait_reply f s)
unfolding wait_reply
wait_reply-Kept zero s h = absurd (omega arith)
wait_reply-Kept (suc f) s h =
    Kept-after (Shorter s) (Shorter s) s (read_line s) _ (read_line-Kept s) λ line t same lt.
      Kept-if (Shorter s) t (has_prefix line (codes "FS ")) _ _ (Same-refl t, lt)
        (Kept-if (Shorter s) t (has_prefix line (codes ";")) _ _
          (Kept-mono (Shorter t) (Shorter s) t (wait_reply f t) (λ u k. omega arith)
            (wait_reply-Kept f t (omega arith)))
          (Same-refl t, refl))

-- Any value, but no exhausted fuel.
abbrev Unfuelled {κ} : {A : Type κ} → Result A → Type 0
Unfuelled m = Ends (λ a. Unit {0}) m

answered-Ends :
    (p : Proposal) (m : Result (List Proposal)) → Unfuelled m → Unfuelled (m >>= λ r. ok (p ∷ r))
answered-Ends p m h = Ends-bind (λ r. Unit) (λ r. Unit) m _ h (λ r _. tt)

by_answer :
    (a : Answer) (m n o p q : Result (List Proposal))
    → Unfuelled m
    → Unfuelled n
    → Unfuelled o
    → Unfuelled p
    → Unfuelled q
    → Unfuelled (elim a [ accepted ↦ m | rejected ↦ n | deferred ↦ o | offset ↦ p | unknown ↦ q ])
by_answer accepted m n o p q h i j k l = h
by_answer rejected m n o p q h i j k l = i
by_answer deferred m n o p q h i j k l = j
by_answer offset m n o p q h i j k l = k
by_answer unknown m n o p q h i j k l = l

by_offset :
    (o : Option (Bytes × Bytes)) (p : Proposal) (props : List Proposal)
    → ((s : Bytes) → Unfuelled (parse_answers s props))
    → Unfuelled (elim o [
      | none ↦ err offset_without_index
      | some (number, rest) ↦ parse_answers rest props >>= λ r.
          ok (record p { answer = accept; offset = limit_offset (atoi number).0 } ∷ r)
    ])
by_offset none p props h = refl
by_offset (some (number, rest)) p props h = answered-Ends _ _ (h rest)

parse_answers-Ends : (s : Bytes) (props : List Proposal) → Unfuelled (parse_answers s props)
unfolding parse_answers
parse_answers-Ends [] props = tt
parse_answers-Ends (c ∷ s) [] = refl
parse_answers-Ends (c ∷ s) (p ∷ props) =
    by_answer (read_answer c) _ _ _ _ _
      (answered-Ends (record p { answer = accept }) _ (parse_answers-Ends s props))
      (answered-Ends (record p { answer = reject }) _ (parse_answers-Ends s props))
      (answered-Ends (record p { answer = defer }) _ (parse_answers-Ends s props))
      (by_offset (cut_last_digit s) p props λ rest. parse_answers-Ends rest props) refl

parse_proposal_answer-Ends :
    (line : Bytes) (props : List Proposal) → Unfuelled (parse_proposal_answer line props)
unfolding parse_proposal_answer
parse_proposal_answer-Ends line props = parse_answers-Ends (trim_fs line) props

module _ {M Msg : Type 0} where
  pub Same-set_deferred :
      (h : Option (MboxHandler M Msg)) (msgs : Messages Msg) (mid : Bytes) (s : Session M)
      → Same s (set_deferred h msgs mid s)
  Same-set_deferred none msgs mid s = Same-refl s
  Same-set_deferred (some mb) msgs mid s = ground (arith)

  pub Same-set_sent :
      (h : Option (MboxHandler M Msg)) (msgs : Messages Msg) (mid : Bytes) (rej : Bool)
      (s : Session M)
      → Same s (set_sent h msgs mid rej s)
  Same-set_sent none msgs mid rej s = Same-refl s
  Same-set_sent (some mb) msgs mid rej s = ground arith

pub Same-write : {M : Type 0} (b : Bytes) (s : Session M) → Same s (write b s)
Same-write b s = ground arith

-- An error of the writer is no exhausted fuel.
abbrev pub Settled : Written → Type 0
Settled (failed out e) = is_fuel e ≡ false
Settled (done out) = Unit {0}
Settled (panicked out) = Unit {0}

pub write_compressed-Settled : (p : Proposal) → Settled (write_compressed p)
unfolding write_compressed
write_compressed-Settled p = ground arith

abbrev Anything : {M : Type 0} → Session M → Type 0
Anything s = Unit {0}

pub Kept-from :
    {M A : Type 0} (P : Session M → Type 0) (s t : Session M) (x : Session M × Result A)
    → Same s t
    → Kept P t x
    → Kept P s x
Kept-from P s t x h k = (Same-trans h k.0, k.1)

Kept-Same :
    {M A : Type 0} (P Q : Session M → Type 0) (s : Session M) (x : Session M × Result A)
    → ((t : Session M) → Same s t → Q t)
    → Kept P s x
    → Kept Q s x
Kept-Same P Q s (t, ok a) f h = (h.0, f t h.0)
Kept-Same P Q s (t, err e) f h = h
Kept-Same P Q s (t, panic) f h = h

module _ {M Msg : Type 0} (h : Option (MboxHandler M Msg)) (msgs : Messages Msg) where
  transmitted-Kept :
      (w : Written) (s : Session M) (next : Session M → Session M × Result SentMap)
      → Settled w
      → ((t : Session M) → Kept Anything t (next t))
      → Kept Anything s (transmitted h msgs w s next)
  transmitted-Kept (done out) s next k f =
      Kept-from Anything s (write out s) _ (Same-write out s) (f (write out s))
  transmitted-Kept (failed out e) s next k f = (Same-write out s, k)
  transmitted-Kept (panicked out) s next k f = (Same-write out s, tt)

  transmit-Kept :
      (ps : List Proposal) (sent : SentMap) (s : Session M)
      → Kept Anything s (transmit h msgs ps sent s)
  unfolding transmit
  transmit-Kept [] sent s = (Same-refl s, tt)
  transmit-Kept (p ∷ ps) sent s =
      Kept-if Anything s (p.answer == defer) _ _
        (Kept-from Anything s (set_deferred h msgs p.mid s) _ (Same-set_deferred h msgs p.mid s)
          (transmit-Kept ps sent (set_deferred h msgs p.mid s)))
        (Kept-if Anything s (p.answer == reject) _ _ (transmit-Kept ps (put p.mid true sent) s) (
          Kept-if Anything s (p.answer == accept) _ _
            (transmitted-Kept (write_compressed p) s (transmit h msgs ps (put p.mid false sent))
              (write_compressed-Settled p) (transmit-Kept ps (put p.mid false sent)))
            (transmit-Kept ps sent s)))

  pub send_outbound-Kept :
      (pending : List Proposal) (s : Session M)
      → Kept (Shorter s) s (send_outbound h msgs pending s)
  unfolding send_outbound
  send_outbound-Kept pending s =
      let offered = take max_block_size pending in
      let s' = write (write_block offered) s in
      Kept-from (Shorter s) s s' _ (Same-write (write_block offered) s) (
        Kept-after (Shorter s') (Shorter s) s' (wait_reply (suc (length s'.rd)) s') _
          (wait_reply-Kept (suc (length s'.rd)) s' (omega arith))
          λ line t same lt.
            Kept-after (Shorter s) (Shorter s) t (t, parse_proposal_answer line offered) _
              (
                Same-refl t,
                Ends-mono (λ a. Unit) (λ a. Shorter s t) (parse_proposal_answer line offered)
                    (λ a _. lt) (parse_proposal_answer-Ends line offered),
              )
              λ answered u same' lt'.
                Kept-Same Anything (Shorter s) u (transmit h msgs answered [] u)
                  (λ v e. omega arith) (transmit-Kept answered [] u))

pub Same-report_rejected :
    {M Msg : Type 0} (h : Option (MboxHandler M Msg)) (msgs : Messages Msg) (sent : SentMap)
    (s : Session M)
    → Same s (report_rejected h msgs sent s)
unfolding report_rejected
Same-report_rejected h msgs [] s = Same-refl s
Same-report_rejected h msgs ((mid, true) ∷ sent) s =
    Same-trans (Same-set_sent h msgs mid true s)
      (Same-report_rejected h msgs sent (set_sent h msgs mid true s))
Same-report_rejected h msgs ((mid, false) ∷ sent) s = Same-report_rejected h msgs sent s
