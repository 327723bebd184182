-- ===== src/Fbb/Session/Outbound/Turn.antt =====
-- How this side's turn ends, in each case.
use wl2k_go.Prelude.{
  ℕ, zero, suc, ◌≤◌, ◌<◌, ◌≡◌, refl, ◌∙◌, ap, Bool, true, false, not, ◌&&◌, Option, none, some,
  List, [], ◌∷◌, ◌++◌, append_assoc, append-nil, Bytes, arith, length, if◌then◌else◌,
}
use wl2k_go.Go.Result.{ok, err, panic}
use wl2k_go.Go.Strings.{codes}
use wl2k_go.Fbb.Error.{Result, is_fuel}
use wl2k_go.Fbb.Session.Defs.{MboxHandler, Messages, Session, outbound}
use wl2k_go.Fbb.Session.Steps.{Step, after, write, read_line}
use wl2k_go.Fbb.Session.Kept.{Same, Kept, read_line-Kept}
use wl2k_go.Fbb.Session.Outbound.{
  SentMap, is_empty, set_sent, unrejected, send_outbound, report_rejected, report_sent, confirms,
  confirm, turnover, handle_outbound,
}
use wl2k_go.Fbb.Session.Outbound.Steady.{
  Shorter, Same-write, send_outbound-Kept, Same-report_rejected,
}

-- More messages are recorded behind those of before.
abbrev pub Extends : List Bytes → List Bytes → Type 0
Extends xs ys = (mids : List Bytes) × (ys ≡ xs ++ mids)

module _ {M Msg : Type 0} (h : Option (MboxHandler M Msg)) (msgs : Messages Msg) where
  -- The end of the turn, and what is recorded as sent in it.
  abbrev pub Outcome : Session M → Session M → Result Bool → Type 0
  Outcome s t (ok true) =
      (s.remote_no_msgs ≡ true) × (is_empty (outbound h msgs t) ≡ true) × (t.sent ≡ s.sent)
  Outcome s t (ok false) = (confirms t.rd ≡ true) × Extends s.sent t.sent
  Outcome s t (err e) = (t.sent ≡ s.sent) × (is_fuel e ≡ false)
  Outcome s t panic = t.sent ≡ s.sent

  -- The messages received, and the other side's quit, are as before.
  abbrev pub Unreceived : Session M → Session M → Type 0
  Unreceived s t = (t.received ≡ s.received) × (t.quit_received ≡ s.quit_received)

  -- The end of a turn that begins in `s`.
  abbrev pub TurnEnd : Session M → Session M × Result Bool → Type 0
  TurnEnd s (t, r) =
      Unreceived s t
      × (t.remote_no_msgs ≡ s.remote_no_msgs)
      × (length t.rd ≤ length s.rd)
      × Outcome s t r

  Outcome-from : (s t u : Session M) (r : Result Bool) → Same s t → Outcome t u r → Outcome s u r
  Outcome-from s t u (ok true) e (a, b, c) = (cc, b, c ∙ e.same_sent)
  Outcome-from s t u (ok false) e (a, (mids, b)) = (a, (mids, b ∙ ap (λ l. l ++ mids) e.same_sent))
  Outcome-from s t u (err x) e (a, b) = (a ∙ e.same_sent, b)
  Outcome-from s t u panic e a = a ∙ e.same_sent

  TurnEnd-from :
      (s t : Session M) (x : Session M × Result Bool) → Same s t → TurnEnd t x → TurnEnd s x
  TurnEnd-from s t (u, r) e (a, b, l, c) = (
    (a.0 ∙ e.same_received, a.1 ∙ e.same_quits.0),
    b ∙ e.same_no_msgs,
    omega arith,
    Outcome-from s t u r e c,
  )

  set_sent_keeps :
      (h : Option (MboxHandler M Msg)) (mid : Bytes) (rej : Bool) (s : Session M)
      → let t = set_sent h msgs mid rej s in
        Unreceived s t × (t.remote_no_msgs ≡ s.remote_no_msgs) × (t.rd ≡ s.rd) × (t.sent ≡ s.sent)
  set_sent_keeps none mid rej s = ((refl, refl), refl, refl, refl)
  set_sent_keeps (some mb) mid rej s = ((refl, refl), refl, refl, refl)

  report_sent_lem :
      (sent : SentMap) (s : Session M)
      → let t = report_sent h msgs sent s in
        Unreceived s t
        × (t.remote_no_msgs ≡ s.remote_no_msgs)
        × (t.rd ≡ s.rd)
        × Extends s.sent t.sent
  unfolding report_sent
  report_sent_lem [] s = ((refl, refl), refl, refl, ([], cc (append-nil s.sent)))
  report_sent_lem ((mid, true) ∷ sent) s =
      let (a, b, c, d) = set_sent_keeps h mid true s in
      let (e, f, g, (mids, i)) = report_sent_lem sent (set_sent h msgs mid true s) in
      ((e.0 ∙ a.0, e.1 ∙ a.1), f ∙ b, g ∙ c, (mids, i ∙ ap (λ l. l ++ mids) d))
  report_sent_lem ((mid, false) ∷ sent) s =
      let s' = set_sent h msgs mid false s in
      let (a, b, c, d) = set_sent_keeps h mid false s in
      let (e, f, g, (mids, i)) =
        report_sent_lem sent (record s' { sent = s'.sent ++ (mid ∷ []) }) in
      (
        (e.0 ∙ a.0, e.1 ∙ a.1),
        f ∙ b,
        g ∙ c,
        (mid ∷ mids, i ∙ append_assoc s'.sent (mid ∷ []) mids ∙ ap (λ l. l ++ mid ∷ mids) d),
      )

  TurnEnd-after :
      {A : Type 0} (P : Session M → Type 0) (s : Session M) (x : Session M × Result A)
      (k : A → Step M Bool)
      → Kept P s x
      → ((a : A) (t : Session M) → Same s t → P t → TurnEnd t (k a t))
      → TurnEnd s (after x k)
  TurnEnd-after P s (t, ok a) k (same, p) f = TurnEnd-from s t (k a t) same (f a t same p)
  TurnEnd-after P s (t, err e) k (same, p) f = (
    (same.same_received, same.same_quits.0),
    same.same_no_msgs,
    same.no_longer,
    (same.same_sent, p),
  )
  TurnEnd-after P s (t, panic) k (same, p) f =
      ((same.same_received, same.same_quits.0), same.same_no_msgs, same.no_longer, same.same_sent)

  TurnEnd-if :
      (s : Session M) (b : Bool) (x y : Session M × Result Bool)
      → (b ≡ true → TurnEnd s x)
      → (b ≡ false → TurnEnd s y)
      → TurnEnd s (if b then x else y)
  TurnEnd-if s true x y f g = f refl
  TurnEnd-if s false x y f g = g refl

  confirm-TurnEnd : (sent : SentMap) (s : Session M) → TurnEnd s (confirm h msgs sent s)
  unfolding confirm
  confirm-TurnEnd sent s =
      TurnEnd-if s (is_empty s.rd) _ _ (λ e. ((refl, refl), refl, omega arith, (refl, refl)))
        λ e.
          TurnEnd-if s (confirms s.rd) _ _
            (λ c.
              let (a, b, rd, more) = report_sent_lem sent s in
              (a, b, omega (arith, ap length rd), (ap confirms rd ∙ c, more)))
            (λ c.
              TurnEnd-after (Shorter s) s (read_line s) _ (read_line-Kept s)
                λ line t same lt. ((refl, refl), refl, omega arith, (refl, refl)))

  outbound-write : (b : Bytes) (s : Session M) → outbound h msgs (write b s) ≡ outbound h msgs s
  unfolding outbound
  outbound-write b s = refl

  -- The turnover comes when all messages of this round are answered for.
  turnover-TurnEnd :
      (sent : SentMap) (s : Session M)
      → (is_empty sent ≡ true → is_empty (outbound h msgs s) ≡ true)
      → TurnEnd s (turnover h msgs sent s)
  unfolding turnover
  turnover-TurnEnd sent s none_left =
      TurnEnd-if s (is_empty sent) _ _
        (λ e.
          TurnEnd-if s s.remote_no_msgs _ _
            (λ r. (
              (refl, refl),
              refl,
              omega arith,
              (r, ap is_empty (outbound-write (codes "FQ" ++ (13 ∷ [])) s) ∙ none_left e, refl),
            ))
            λ r.
              TurnEnd-from s (write (codes "FF" ++ (13 ∷ [])) s)
                (confirm h msgs sent (write (codes "FF" ++ (13 ∷ [])) s))
                (Same-write (codes "FF" ++ (13 ∷ [])) s)
                (confirm-TurnEnd sent (write (codes "FF" ++ (13 ∷ [])) s)))
        (λ e. confirm-TurnEnd sent s)

  -- One round: there is another if no message is left to be confirmed, and some are pending.
  abbrev more : SentMap → Session M → Bool
  more sent s = is_empty (unrejected sent) && not (is_empty (outbound h msgs s))

  abbrev round : ℕ → SentMap → Session M → Session M × Result Bool
  round f sent t =
      if more sent t then handle_outbound h msgs f t else turnover h msgs (unrejected sent) t

  round-TurnEnd :
      (f : ℕ) (sent : SentMap) (s : Session M)
      → (more sent (report_rejected h msgs sent s) ≡ true
          → length (report_rejected h msgs sent s).rd < f)
      → ((t : Session M) → length t.rd < f → TurnEnd t (handle_outbound h msgs f t))
      → TurnEnd s (round f sent (report_rejected h msgs sent s))
  round-TurnEnd f sent s lt ih =
      let t = report_rejected h msgs sent s in
      TurnEnd-from s t (round f sent t) (Same-report_rejected h msgs sent s) (
        TurnEnd-if t (more sent t) _ _ (λ e. ih t (lt e))
          λ e.
            turnover-TurnEnd (unrejected sent) t
              λ i. nothing_left (is_empty (unrejected sent)) (is_empty (outbound h msgs t)) i e)
    where
      nothing_left : (a b : Bool) → a ≡ true → a && not b ≡ false → b ≡ true
      nothing_left true true i e = refl
      nothing_left true false i e = cc
      nothing_left false b i e = cc

  offered-TurnEnd :
      (f : ℕ) (s : Session M) (none_pending : Bool)
      → is_empty (outbound h msgs s) ≡ none_pending
      → length s.rd < suc f
      → ((t : Session M) → length t.rd < f → TurnEnd t (handle_outbound h msgs f t))
      → TurnEnd s (
          after
            (if none_pending then (s, ok []) else send_outbound h msgs (outbound h msgs s) s)
            λ sent s₁. round f sent (report_rejected h msgs sent s₁))
  unfolding report_rejected
  offered-TurnEnd f s true e lt ih = round-TurnEnd f [] s (λ m. ground (arith, e, m)) ih
  offered-TurnEnd f s false e lt ih =
      TurnEnd-after (Shorter s) s (send_outbound h msgs (outbound h msgs s) s) _
        (send_outbound-Kept h msgs (outbound h msgs s) s)
        λ sent t same lt'.
          round-TurnEnd f sent t (λ m. let k = Same-report_rejected h msgs sent t in omega arith) ih

  -- A turn ends with the quit command only if the other side has no messages and nothing is pending here;
  -- nothing is recorded as sent then in this turn. It is handed over only when what the other side
  -- sends next begins as its turn must, and the messages recorded as sent are behind those of before.
  -- At an error or a panic no message is recorded as sent. Nothing is recorded as received. Fuel for the bytes of the connection suffices.
  pub handle_outbound-TurnEnd :
      (f : ℕ) (s : Session M) → length s.rd < f → TurnEnd s (handle_outbound h msgs f s)
  unfolding handle_outbound
  handle_outbound-TurnEnd zero s lt = absurd (omega arith)
  handle_outbound-TurnEnd (suc f) s lt =
      offered-TurnEnd f s (is_empty (outbound h msgs s)) refl lt (handle_outbound-TurnEnd f)
