-- ===== src/Fbb/Session/Exchange/End.antt =====
-- How the turns of a session come to an end.
use wl2k_go.Prelude.{
  ℕ, zero, suc, ◌+◌, ◌*◌, ◌≤◌, ◌<◌, ◌≡◌, refl, ◌∙◌, sym, ap, inl, inr, ◌⊎◌, Bool, true, false, not,
  Option, List, [], ◌++◌, append_assoc, append-nil, Bytes, arith, if◌then◌else◌, length,
}
use wl2k_go.Go.Result.{ok, err, panic}
use wl2k_go.Fbb.Error.{Result, is_fuel}
use wl2k_go.Fbb.Session.Defs.{MboxHandler, Messages, Session, outbound}
use wl2k_go.Fbb.Session.Steps.{Step, after}
use wl2k_go.Fbb.Session.Outbound.{is_empty}
use wl2k_go.Fbb.Session.Outbound.Turn.{Extends, TurnEnd, handle_outbound-TurnEnd}
use wl2k_go.Fbb.Session.Inbound.Turn.{InboundEnd, handle_inbound-InboundEnd}
use wl2k_go.Fbb.Session.Exchange.{is_done, outbound_turn, inbound_turn, turns, exchange_turns}

module _ {M Msg : Type 0} (h : Option (MboxHandler M Msg)) (msgs : Messages Msg) where
  -- A session that is done: one side has quit, the other side has no messages, and if the quit is ours then
  -- nothing is pending here.
  abbrev pub IsOver : Session M → Type 0
  IsOver s =
      (s.remote_no_msgs ≡ true)
      × ((s.quit_received ≡ true) ⊎ ((s.quit_sent ≡ true) × (is_empty (outbound h msgs s) ≡ true)))

  abbrev pub Over : Session M → Result (Unit {0}) → Type 0
  Over t (ok a) = IsOver t
  Over t (err e) = is_fuel e ≡ false
  Over t panic = Unit {0}

  -- The end of the turns: what is recorded stands behind what was recorded before.
  abbrev pub ExchangeEnd : Session M → Session M × Result (Unit {0}) → Type 0
  ExchangeEnd s (t, r) = Extends s.sent t.sent × Extends s.received t.received × Over t r

  -- Before a turn: a session that is done is over.
  abbrev DoneIsOver : Session M → Type 0
  DoneIsOver s = is_done s ≡ true → IsOver s

Extends-refl : (xs : List Bytes) → Extends xs xs
Extends-refl xs = ([], sym (append-nil xs))

Extends-trans : (xs ys zs : List Bytes) → Extends xs ys → Extends ys zs → Extends xs zs
Extends-trans xs ys zs (a, e) (b, f) = (a ++ b, f ∙ ap (λ l. l ++ b) e ∙ append_assoc xs a b)

Extends-eq : (xs ys : List Bytes) → ys ≡ xs → Extends xs ys
Extends-eq xs ys e = ([], e ∙ sym (append-nil xs))

module _ {M Msg : Type 0} (h : Option (MboxHandler M Msg)) (msgs : Messages Msg)
    (decode : Bytes → Bytes) where
  ExchangeEnd-from :
      (s t : Session M) (x : Session M × Result (Unit {0}))
      → Extends s.sent t.sent
      → Extends s.received t.received
      → ExchangeEnd h msgs t x
      → ExchangeEnd h msgs s x
  ExchangeEnd-from s t (u, r) a b (c, d, o) = (
    Extends-trans s.sent t.sent u.sent a c,
    Extends-trans s.received t.received u.received b d,
    o,
  )

  outbound-quit_sent :
      (b : Bool) (s : Session M) → outbound h msgs (record s { quit_sent = b }) ≡ outbound h msgs s
  unfolding outbound
  outbound-quit_sent b s = refl

  not_received : (s : Session M) → is_done s ≡ false → s.quit_received ≡ false
  not_received s e = ground arith

  not_sent : (s : Session M) → is_done s ≡ false → s.quit_sent ≡ false
  not_sent s e = ground arith

  -- Our turn, and what follows it.
  sending-End :
      (s : Session M) (x : Session M × Result Bool) (next : Step M (Unit {0}))
      → is_done s ≡ false
      → TurnEnd h msgs s x
      → ((t : Session M)
          → length t.rd ≤ length s.rd
          → DoneIsOver h msgs t
          → ExchangeEnd h msgs t (next t))
      → ExchangeEnd h msgs s (after x λ quit s'. next (record s' { quit_sent = quit }))
  sending-End s (t, ok true) next going (recv, flag, le, (no_more, empty, sent)) ih =
      let t' = record t { quit_sent = true } in
      ExchangeEnd-from s t' (next t') (Extends-eq s.sent t.sent sent)
        (Extends-eq s.received t.received recv.0)
        (ih t' le
          λ e. (flag ∙ no_more, inr (refl, ap is_empty (outbound-quit_sent true t) ∙ empty)))
  sending-End s (t, ok false) next going (recv, flag, le, (ready, more)) ih =
      let t' = record t { quit_sent = false } in
      ExchangeEnd-from s t' (next t') more (Extends-eq s.received t.received recv.0)
        (ih t' le λ e. ground (arith, recv.1, not_received s going, e))
  sending-End s (t, err e) next going (recv, flag, le, (sent, nf)) ih =
      (Extends-eq s.sent t.sent sent, Extends-eq s.received t.received recv.0, nf)
  sending-End s (t, panic) next going (recv, flag, le, sent) ih =
      (Extends-eq s.sent t.sent sent, Extends-eq s.received t.received recv.0, tt)

  -- The other side's turn, and what follows it.
  receiving-End :
      (s : Session M) (x : Session M × Result Bool) (next : Step M (Unit {0}))
      → is_done s ≡ false
      → InboundEnd (length s.rd) s x
      → ((t : Session M)
          → length t.rd < length s.rd
          → DoneIsOver h msgs t
          → ExchangeEnd h msgs t (next t))
      → ExchangeEnd h msgs s (after x λ quit s'. next (record s' { quit_received = quit }))
  receiving-End s (t, ok true) next going (sent, (recv, no_more, lt)) ih =
      let t' = record t { quit_received = true } in
      ExchangeEnd-from s t' (next t') (Extends-eq s.sent t.sent sent.0)
        (Extends-eq s.received t.received recv) (ih t' lt λ e. (no_more, inl refl))
  receiving-End s (t, ok false) next going (sent, (mids, recv, flag, lt)) ih =
      let t' = record t { quit_received = false } in
      ExchangeEnd-from s t' (next t') (Extends-eq s.sent t.sent sent.0) (mids, recv)
        (ih t' lt λ e. ground (arith, sent.1, not_sent s going, e))
  receiving-End s (t, err e) next going (sent, (mids, recv, nf)) ih =
      (Extends-eq s.sent t.sent sent.0, (mids, recv), nf)
  receiving-End s (t, panic) next going (sent, (mids, recv)) ih =
      (Extends-eq s.sent t.sent sent.0, (mids, recv), tt)

  over-End :
      (s : Session M) (x : Session M × Result (Unit {0}))
      → DoneIsOver h msgs s
      → (is_done s ≡ false → ExchangeEnd h msgs s x)
      → (b : Bool) → is_done s ≡ b
      → ExchangeEnd h msgs s (if b then (s, ok tt) else x)
  over-End s x over go true e = (Extends-refl s.sent, Extends-refl s.received, over e)
  over-End s x over go false e = go e

  turns-End :
      (f : ℕ) (my_turn : Bool) (s : Session M)
      → 2 * length s.rd + (if my_turn then 3 else 2) ≤ f
      → DoneIsOver h msgs s
      → ExchangeEnd h msgs s (turns h msgs decode f my_turn s)
  unfolding turns
  turns-End zero true s lt over = absurd (omega arith)
  turns-End zero false s lt over = absurd (omega arith)
  turns-End (suc f) true s lt over =
      over-End s _ over
        (λ going.
          sending-End s (outbound_turn h msgs decode s) (turns h msgs decode f false) going
            (handle_outbound-TurnEnd h msgs (suc (length s.rd)) s (omega arith))
            λ t le o. turns-End f false t (omega arith) o)
        (is_done s) refl
  turns-End (suc f) false s lt over =
      over-End s _ over
        (λ going.
          receiving-End s (inbound_turn h msgs decode s) (turns h msgs decode f true) going
            (handle_inbound-InboundEnd h msgs decode (suc (length s.rd)) s (omega arith))
            λ t le o. turns-End f true t (omega arith) o)
        (is_done s) refl

  -- A session in which no side has quit yet comes to an end: the fuel suffices for its turns. If they end
  -- without an error then one side has quit and the other side has no more messages, and if the quit was
  -- ours then nothing is pending here. However they end, no record of a message sent or received before is
  -- lost.
  pub exchange_turns-ExchangeEnd :
      (s : Session M) → is_done s ≡ false → ExchangeEnd h msgs s (exchange_turns h msgs decode s)
  unfolding exchange_turns
  exchange_turns-ExchangeEnd s going =
      turns-End (2 * length s.rd + 4) (not s.master) s (ground arith) λ e. ground (arith, going, e)
