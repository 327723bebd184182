-- ===== src/Fbb/Session/Exchange/Whole.antt =====
-- How a whole session comes to an end.
use wl2k_go.Prelude.{
  ◌≡◌, ◌∙◌, sym, ap, Bool, true, false, Option, none, some, List, [], ◌++◌, append-nil, Bytes,
  arith, if◌then◌else◌,
}
use wl2k_go.Go.Result.{ok, err, panic}
use wl2k_go.Fbb.Error.{Error, Result, handler_error}
use wl2k_go.Fbb.Handshake.{Station}
use wl2k_go.Fbb.Session.Defs.{MboxHandler, Messages, Session}
use wl2k_go.Fbb.Session.Steps.{Step, after}
use wl2k_go.Fbb.Session.Kept.{Same, Same-refl, Kept}
use wl2k_go.Fbb.Session.Handshake.{handshake}
use wl2k_go.Fbb.Session.Handshake.Agreed.{Agreed, handshake-Kept}
use wl2k_go.Fbb.Session.Outbound.Turn.{Extends}
use wl2k_go.Fbb.Session.Exchange.{is_done, close_session, aux_only, prepare_mbox, exchange}
use wl2k_go.Fbb.Session.Exchange.End.{ExchangeEnd, exchange_turns-ExchangeEnd}

Extends-Same : (xs ys : List Bytes) → ys ≡ xs → Extends xs ys
Extends-Same xs ys e = ([], e ∙ sym (append-nil xs))

module _ {M Msg : Type 0} (h : Option (MboxHandler M Msg)) (msgs : Messages Msg) where
  ExchangeEnd-Same :
      (s t : Session M) (x : Session M × Result (Unit {0}))
      → Same s t
      → ExchangeEnd h msgs t x
      → ExchangeEnd h msgs s x
  ExchangeEnd-Same s t (u, r) e ((mids, a), (mids', b), o) = (
    (mids, a ∙ ap (λ l. l ++ mids) e.same_sent),
    (mids', b ∙ ap (λ l. l ++ mids') e.same_received),
    o,
  )

  ExchangeEnd-after :
      {A : Type 0} (P : Session M → Type 0) (s : Session M) (x : Session M × Result A)
      (k : A → Step M (Unit {0}))
      → Kept P s x
      → ((a : A) (t : Session M) → Same s t → ExchangeEnd h msgs t (k a t))
      → ExchangeEnd h msgs s (after x k)
  ExchangeEnd-after P s (t, ok a) k (same, p) f = ExchangeEnd-Same s t (k a t) same (f a t same)
  ExchangeEnd-after P s (t, err e) k (same, nf) f = (
    Extends-Same s.sent t.sent same.same_sent,
    Extends-Same s.received t.received same.same_received,
    nf,
  )
  ExchangeEnd-after P s (t, panic) k (same, p) f = (
    Extends-Same s.sent t.sent same.same_sent,
    Extends-Same s.received t.received same.same_received,
    tt,
  )

  close_session-ExchangeEnd :
      (show_error : Error → Bytes) (s : Session M) (x : Session M × Result (Unit {0}))
      → ExchangeEnd h msgs s x
      → ExchangeEnd h msgs s (close_session show_error x)
  unfolding close_session
  close_session-ExchangeEnd show_error s (t, ok a) e = e
  close_session-ExchangeEnd show_error s (t, panic) e = e
  close_session-ExchangeEnd show_error s (t, err x) e = ground (arith, e)

prepare_mbox-Kept :
    {M Msg : Type 0} (h : Option (MboxHandler M Msg)) (msgs : Messages Msg)
    (decode md5 : Bytes → Bytes) (show_error : Error → Bytes) (st : Station) (s : Session M)
    → Kept (λ t. Unit {0}) s (prepare_mbox h msgs decode md5 show_error st s)
unfolding prepare_mbox
prepare_mbox-Kept none msgs decode md5 show_error st s = (Same-refl s, tt)
prepare_mbox-Kept (some mb) msgs decode md5 show_error st s = prepared (mb.prepare s.mbox).1
  where
    prepared :
        (valid : Bool)
        → Kept {A = Unit {0}}
            (λ t. Unit {0})
            s
            (let s' = record s { mbox = (mb.prepare s.mbox).0 } in
              if valid then (s', ok tt) else (s', err handler_error))
    prepared true = ground arith
    prepared false = ground arith

not_done : {M : Type 0} (s t : Session M) → Same s t → is_done s ≡ false → is_done t ≡ false
not_done s t e h = ground (arith, e.same_quits.0, e.same_quits.1, h)

module _ {M Msg : Type 0} (h : Option (MboxHandler M Msg)) (msgs : Messages Msg)
    (decode md5 : Bytes → Bytes) (show_error : Error → Bytes) (st : Station) where
  -- A session in which no side has quit yet runs to its end, whatever the other side sends: the fuel
  -- suffices for the handshake and for all turns. If it ends without an error then one side has quit and the
  -- other side has no more messages, and if the quit was ours then nothing is pending here. However it
  -- ends, no record of a message sent or received before is lost.
  pub exchange-ExchangeEnd :
      (s : Session M)
      → is_done s ≡ false
      → ExchangeEnd h msgs s (exchange h msgs decode md5 show_error st s)
  unfolding exchange
  exchange-ExchangeEnd s going = rw going (
      close_session-ExchangeEnd h msgs show_error s _ (
        ExchangeEnd-after h msgs (λ t. Unit {0}) s (prepare_mbox h msgs decode md5 show_error st s)
          _ (prepare_mbox-Kept h msgs decode md5 show_error st s)
          λ _ t same.
            ExchangeEnd-after h msgs Agreed t (handshake (aux_only st) md5 t) _
              (handshake-Kept (aux_only st) md5 t)
              λ _ u same'.
                exchange_turns-ExchangeEnd h msgs decode u
                  (not_done t u same' (not_done s t same going))))
