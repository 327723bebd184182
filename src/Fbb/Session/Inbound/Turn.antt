-- ===== src/Fbb/Session/Inbound/Turn.antt =====
-- How the other side's turn ends, in each case.
use wl2k_go.Prelude.{
  ℕ, zero, suc, ◌≤◌, ◌<◌, ◌≡◌, refl, ◌∙◌, sym, ap, inl, inr, ◌⊎◌, Bool, true, false, Option, List,
  [], ◌∷◌, ◌++◌, append-nil, Bytes, arith, ltb, if◌then◌else◌, length,
}
use wl2k_go.Go.Result.{ok, err, panic}
use wl2k_go.Fbb.Error.{Result, Ends, is_fuel}
use wl2k_go.Fbb.Proposal.{Proposal}
use wl2k_go.Fbb.Answer.{write_proposals_answer}
use wl2k_go.Fbb.Block.{BlockEnd, finished, quitting, prompted, read_lines}
use wl2k_go.Fbb.Block.Progress.{proposals_of, Unanswered, read_lines-Ends}
use wl2k_go.Fbb.Session.Defs.{MboxHandler, Messages, Session}
use wl2k_go.Fbb.Session.Steps.{after, advance, write}
use wl2k_go.Fbb.Session.Kept.{Same, Same-refl}
use wl2k_go.Fbb.Session.Outbound.{is_empty}
use wl2k_go.Fbb.Session.Outbound.Steady.{Same-write}
use wl2k_go.Fbb.Session.Inbound.{
  fetch_all, fetch, answerer, answer_block, end_of_block, handle_inbound,
}
use wl2k_go.Fbb.Session.Inbound.Fetch.{accepted_mids, Unsent, Fetched, fetch_all-Fetched}

module _ {M : Type 0} where
  -- Some messages are recorded as received behind those of before.
  abbrev pub Receives : List Bytes → Session M → Session M → Type 0
  Receives mids s t = t.received ≡ s.received ++ mids

  -- The end of the turn, with less than `n` bytes left on the connection.
  abbrev pub Outcome : ℕ → Session M → Session M → Result Bool → Type 0
  Outcome n s t (ok true) =
      (t.received ≡ s.received) × (t.remote_no_msgs ≡ true) × (length t.rd < n)
  Outcome n s t (ok false) =
      (mids : List Bytes) × Receives mids s t
      × ((t.remote_no_msgs ≡ is_empty mids) ⊎ ((mids ≡ []) × (t.remote_no_msgs ≡ s.remote_no_msgs)))
      × (length t.rd < n)
  Outcome n s t (err e) = (mids : List Bytes) × Receives mids s t × (is_fuel e ≡ false)
  Outcome n s t panic = (mids : List Bytes) × Receives mids s t

  abbrev pub InboundEnd : ℕ → Session M → Session M × Result Bool → Type 0
  InboundEnd n s (t, r) = Unsent s t × Outcome n s t r

  Fetched-End :
      (mids : List Bytes) (n : ℕ) (quit : Bool) (s : Session M) (x : Session M × Result (Unit {0}))
      → length s.rd < n
      → (quit ≡ true → mids ≡ [])
      → Fetched mids (is_empty mids) (record s { remote_no_msgs = true }) x
      → InboundEnd n s (after x λ _ s'. (s', ok quit))
  Fetched-End mids n true s (t, ok a) lt empty (sent, rd, (recv, flag)) = (
    sent,
    (
      recv ∙ ap (λ l. s.received ++ l) (empty refl) ∙ append-nil s.received,
      flag ∙ ap is_empty (empty refl),
      omega arith,
    ),
  )
  Fetched-End mids n false s (t, ok a) lt empty (sent, rd, (recv, flag)) =
      (sent, (mids, recv, inl flag, omega arith))
  Fetched-End mids n quit s (t, err e) lt empty (sent, rd, ((first, rest, e₁, e₂), nf)) =
      (sent, (first, e₂, nf))
  Fetched-End mids n quit s (t, panic) lt empty (sent, rd, (first, rest, e₁, e₂)) =
      (sent, (first, e₂))

  Outcome-from :
      (n m : ℕ) (s t u : Session M) (r : Result Bool)
      → Same s t
      → n ≤ m
      → Outcome n t u r
      → Outcome m s u r
  Outcome-from n m s t u (ok true) e le (a, b, c) = (a ∙ e.same_received, b, omega arith)
  Outcome-from n m s t u (ok false) e le (mids, a, inl b, c) =
      (mids, a ∙ ap (λ l. l ++ mids) e.same_received, inl b, omega arith)
  Outcome-from n m s t u (ok false) e le (mids, a, inr (b, d), c) =
      (mids, a ∙ ap (λ l. l ++ mids) e.same_received, inr (b, d ∙ e.same_no_msgs), omega arith)
  Outcome-from n m s t u (err x) e le (mids, a, b) =
      (mids, a ∙ ap (λ l. l ++ mids) e.same_received, b)
  Outcome-from n m s t u panic e le (mids, a) = (mids, a ∙ ap (λ l. l ++ mids) e.same_received)

  InboundEnd-from :
      (n m : ℕ) (s t : Session M) (x : Session M × Result Bool)
      → Same s t
      → n ≤ m
      → InboundEnd n t x
      → InboundEnd m s x
  InboundEnd-from n m s t (u, r) e le (a, b) =
      ((a.0 ∙ e.same_sent, a.1 ∙ e.same_quits.1), Outcome-from n m s t u r e le b)

  -- An end at once, with nothing received.
  InboundEnd-at_once : (n : ℕ) (s : Session M) → length s.rd < n → InboundEnd n s (s, ok false)
  InboundEnd-at_once n s lt =
      ((refl, refl), ([], sym (append-nil s.received), inr (refl, refl), lt))

accepted_mids-Unanswered : (props : List Proposal) → Unanswered props → accepted_mids props ≡ []
accepted_mids-Unanswered [] h = refl
accepted_mids-Unanswered (p ∷ props) h = ground (arith, h.0, accepted_mids-Unanswered props h.1)

module _ {M Msg : Type 0} (h : Option (MboxHandler M Msg)) (msgs : Messages Msg)
    (decode : Bytes → Bytes) where
  fetch-End :
      (ps : List Proposal) (quit : Bool) (n : ℕ) (s : Session M)
      → length s.rd < n
      → (quit ≡ true → accepted_mids ps ≡ [])
      → InboundEnd n s (fetch h msgs decode ps quit s)
  fetch-End ps quit n s lt empty =
      Fetched-End (accepted_mids ps) n quit s
        (fetch_all h msgs decode ps (record s { remote_no_msgs = true })) lt empty
        (fetch_all-Fetched h msgs decode ps (record s { remote_no_msgs = true }))

  answer_block-End :
      (props : List Proposal) (n : ℕ) (s : Session M) (again : Session M → Session M × Result Bool)
      → length s.rd < n
      → ((t : Session M) → length t.rd ≤ length s.rd → InboundEnd (length t.rd) t (again t))
      → InboundEnd n s (answer_block h msgs decode props again s)
  unfolding answer_block
  answer_block-End [] n s again lt ih = InboundEnd-at_once n s lt
  answer_block-End (p ∷ ps) n s again lt ih =
      let (answered, count, line) = write_proposals_answer (answerer h msgs decode s) (p ∷ ps) in
      let t = write line s in
      InboundEnd-from n n s t
        (if ltb 0 count then fetch h msgs decode answered false t else again t) (Same-write line s)
        (omega arith)
        (either (ltb 0 count) _ _ t (fetch-End answered false n t lt (λ e. cc)) (
          InboundEnd-from (length t.rd) n t t (again t) (Same-refl t) (omega arith)
            (ih t (omega arith))))
    where
      either :
          (b : Bool) (x y : Session M × Result Bool) (u : Session M)
          → InboundEnd n u x
          → InboundEnd n u y
          → InboundEnd n u (if b then x else y)
      either true x y u i j = i
      either false x y u i j = j

  end_of_block-End :
      (e : BlockEnd) (n : ℕ) (s : Session M) (again : Session M → Session M × Result Bool)
      → Unanswered (proposals_of e)
      → length s.rd < n
      → ((t : Session M) → length t.rd ≤ length s.rd → InboundEnd (length t.rd) t (again t))
      → InboundEnd n s (end_of_block h msgs decode e again s)
  end_of_block-End (finished props) n s again un lt ih = fetch-End props false n s lt (λ e. cc)
  end_of_block-End (quitting props) n s again un lt ih =
      fetch-End props true n s lt (λ e. accepted_mids-Unanswered props un)
  end_of_block-End (prompted props) n s again un lt ih = answer_block-End props n s again lt ih

  pub handle_inbound-InboundEnd :
      (f : ℕ) (s : Session M)
      → length s.rd < f
      → InboundEnd (length s.rd) s (handle_inbound h msgs decode f s)
  unfolding handle_inbound
  handle_inbound-InboundEnd zero s lt = absurd (omega arith)
  handle_inbound-InboundEnd (suc f) s lt =
      lines (read_lines (suc (length s.rd)) s.rd 0 [])
        (read_lines-Ends (suc (length s.rd)) s.rd 0 [] (omega arith) tt)
        (λ t lt'. handle_inbound-InboundEnd f t (omega arith))
    where
      lines :
          (r : Result (BlockEnd × Bytes))
          → Ends (λ q. (length q.1 < length s.rd) × Unanswered (proposals_of q.0)) r
          → ((t : Session M)
              → length t.rd < length s.rd
              → InboundEnd (length t.rd) t (handle_inbound h msgs decode f t))
          → InboundEnd (length s.rd) s (
              after
                (advance s r)
                λ e s'. end_of_block h msgs decode e (handle_inbound h msgs decode f) s')
      lines (ok (e, rest)) (lt', un) ih =
          let t = record s { rd = rest } in
          InboundEnd-from (length s.rd) (length s.rd) s t
            (end_of_block h msgs decode e (handle_inbound h msgs decode f) t)
            (record {
              same_sent = refl;
              same_received = refl;
              same_quits = (refl, refl);
              same_no_msgs = refl;
              no_longer = omega arith;
            })
            (omega arith)
            (end_of_block-End e (length s.rd) t (handle_inbound h msgs decode f) un lt'
              (λ u le. ih u (omega arith)))
      lines (err e) nf ih = ((refl, refl), ([], sym (append-nil s.received), nf))
      lines panic nf ih = ((refl, refl), ([], sym (append-nil s.received)))
