-- ===== src/Fbb/Session/Exchange.antt =====
-- fbb/wl2k.go, Exchange: a whole session.
pub mod End
pub mod Whole
use wl2k_go.Prelude.{
  ℕ, zero, suc, ◌+◌, ◌*◌, Bool, true, false, not, ◌||◌, Option, none, some, List, [], ◌∷◌, ◌++◌,
  Bytes, if◌then◌else◌, length,
}
use wl2k_go.Go.Result.{ok, err, panic}
use wl2k_go.Go.Strings.{codes}
use wl2k_go.Fbb.Error.{
  Error, Result, eof, title_unparsed, offset_unparsed, conn_lost, handler_error, out_of_fuel,
}
use wl2k_go.Fbb.Address.{Address}
use wl2k_go.Fbb.Handshake.{Station}
use wl2k_go.Fbb.Session.Defs.{MboxHandler, Messages, Session}
use wl2k_go.Fbb.Session.Steps.{Step, after, write}
use wl2k_go.Fbb.Session.Handshake.{handshake}
use wl2k_go.Fbb.Session.Outbound.{handle_outbound}
use wl2k_go.Fbb.Session.Inbound.{handle_inbound}

-- `Done()`
abbrev pub is_done : {M : Type 0} → Session M → Bool
is_done s = s.quit_received || s.quit_sent

module _ {M Msg : Type 0} (h : Option (MboxHandler M Msg)) (msgs : Messages Msg)
    (decode : Bytes → Bytes) where
  -- One turn, with more fuel than there are bytes on the connection.
  abbrev pub outbound_turn : Step M Bool
  outbound_turn s = handle_outbound h msgs (suc (length s.rd)) s

  abbrev pub inbound_turn : Step M Bool
  inbound_turn s = handle_inbound h msgs decode (suc (length s.rd)) s

  -- The loop of `Exchange`: the sides take turns until one of them quits. A turn of the other side takes a
  -- byte at least.
  unfoldable pub turns : ℕ → Bool → Step M (Unit {0})
  turns zero my_turn s = (s, err out_of_fuel)
  turns (suc f) my_turn s =
      let sending =
        after (outbound_turn s) λ quit s'. turns f (not my_turn) (record s' { quit_sent = quit }) in
      let receiving =
        after (inbound_turn s)
          λ quit s'. turns f (not my_turn) (record s' { quit_received = quit }) in
      if is_done s then (s, ok tt) else (if my_turn then sending else receiving)

  -- The loop behind the handshake: the side that is not the master begins.
  unfoldable pub exchange_turns : Step M (Unit {0})
  exchange_turns s = turns (2 * length s.rd + 4) (not s.master) s

-- `errors.Is` of io.EOF or io.ErrUnexpectedEOF, which two errors of `readCompressed` wrap.
abbrev pub is_lost : Error → Bool
is_lost eof = true
is_lost title_unparsed = true
is_lost offset_unparsed = true
is_lost _ = false

-- The deferred function of `Exchange`: a lost connection is an error of its own, and another error is told
-- to the other side, in the text that `show_error` gives it.
unfoldable pub close_session :
    {M : Type 0} → (Error → Bytes) → Session M × Result (Unit {0}) → Session M × Result (Unit {0})
close_session show_error (s, ok a) = (s, ok a)
close_session show_error (s, panic) = (s, panic)
close_session show_error (s, err e) =
    if is_lost e
    then (s, err conn_lost)
    else (write (codes "*** " ++ (show_error e ++ 13 ∷ 10 ∷ [])) s, err e)

-- The experiment with auxiliary addresses leaves out the first address.
abbrev pub aux_only : Station → Station
aux_only st = record st { local_fw = if st.fw_aux_only then rest st.local_fw else st.local_fw }
  where
    rest : List Address → List Address
    rest [] = []
    rest (a ∷ []) = a ∷ []
    rest (a ∷ b ∷ as') = b ∷ as'

module _ {M Msg : Type 0} (h : Option (MboxHandler M Msg)) (msgs : Messages Msg)
    (decode : Bytes → Bytes) (md5 : Bytes → Bytes) (show_error : Error → Bytes) (st : Station) where
  -- `s.h.Prepare()`
  unfoldable pub prepare_mbox : Step M (Unit {0})
  prepare_mbox s = elim h [
    | none ↦ (s, ok tt)
    | some mb ↦
        let (m, valid) = mb.prepare s.mbox in
        let s' = record s { mbox = m } in if valid then (s', ok tt) else (s', err handler_error)
  ]

  unfoldable pub exchange : Step M (Unit {0})
  exchange s =
      let run = close_session show_error (
        after (prepare_mbox s)
          λ _ s₁. after (handshake (aux_only st) md5 s₁) λ _ s₂. exchange_turns h msgs decode s₂) in
      if is_done s then (s, ok tt) else run
