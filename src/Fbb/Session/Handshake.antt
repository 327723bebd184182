-- ===== src/Fbb/Session/Handshake.antt =====
-- fbb/handshake.go, the handshake of a session.
pub mod Agreed
use wl2k_go.Prelude.{
  ℕ, zero, suc, Bool, true, false, not, ◌&&◌, ◌||◌, Option, none, some, List, [], ◌∷◌, ◌++◌, Bytes,
  ltb, ◌==◌, if◌then◌else◌, length, drop,
}
use wl2k_go.Go.Result.{ok, err, panic}
use wl2k_go.Go.Strings.{codes, has_prefix, has_suffix}
use wl2k_go.Fbb.Error.{
  Error, Result, eof, no_fb2, no_sid, no_login_handler, handler_error, out_of_fuel,
}
use wl2k_go.Fbb.Line.{next_line_remote_err}
use wl2k_go.Fbb.Address.{Address}
use wl2k_go.Fbb.Handshake.{
  Station, s_fb_comp2, write_sid, write_secure_login_response, is_sid, sid_has, parse_sid, parse_fw,
  secure_login_response, highest_prop_code,
}
use wl2k_go.Fbb.Session.Defs.{Session}
use wl2k_go.Fbb.Session.Steps.{Step, after, write, advance}
use wl2k_go.Fbb.Session.Outbound.{is_empty}

-- `handshakeData`
pub record HandshakeData : Type 0 where
  pub sid : Bytes
  pub fw : List Address
  pub secure_challenge : Bytes

abbrev pub no_data : HandshakeData
no_data = record { sid = []; fw = []; secure_challenge = [] }

-- `s.rd.Peek(1)` is an 'F'.
abbrev pub begins_command : Bytes → Bool
begins_command [] = false
begins_command (c ∷ s) = c == b'F'

-- The loop of `readHandshake`. Each round reads a line, so it takes a byte at least.
unfoldable pub read_handshake : {M : Type 0} → ℕ → HandshakeData → Step M HandshakeData
read_handshake zero got s = (s, err out_of_fuel)
read_handshake (suc f) got s =
    let reading = after (advance s (next_line_remote_err false s.rd)) λ line s'.
      let with_sid =
        after (s', parse_sid line)
          λ sid s''.
            let more = read_handshake f (record got { sid = sid }) s'' in
            if sid_has sid s_fb_comp2 then more else (s'', err no_fb2) in
      let with_fw =
        after (s', parse_fw line) λ fw s''. read_handshake f (record got { fw = fw }) s'' in
      let with_challenge = read_handshake f (record got { secure_challenge = drop 5 line }) s' in
      let ignored = read_handshake f got s' in
      if is_sid line
      then with_sid
      else (if has_prefix line (codes ";FW")
          then with_fw
          else (if has_prefix line (codes ";PQ")
              then (if ltb (length line) 5 then (s', panic) else with_challenge)
              else (if has_suffix line (codes ">") then (s', ok got) else ignored))) in
    if is_empty s.rd
    then (s, err eof)
    else (if begins_command s.rd && s.master then (s, ok got) else reading)

unfoldable pub motd_lines : List Bytes → Bytes
motd_lines [] = []
motd_lines (l ∷ ls) = l ++ 13 ∷ motd_lines ls

module _ (st : Station) (md5 : Bytes → Bytes) where
  -- An auxiliary address, with the hash of its password if there is one.
  unfoldable pub aux_address : (Address → Bytes × Bool) → Bytes → Address → Bytes
  aux_address login challenge a =
      if is_empty (login a).0
      then b' ' ∷ a.addr
      else b' ' ∷ (a.addr ++ b'|' ∷ secure_login_response md5 challenge (login a).0)

  unfoldable pub aux_addresses : (Address → Bytes) → List Address → Bytes
  aux_addresses show [] = []
  aux_addresses show (a ∷ as') = show a ++ aux_addresses show as'

  -- The addresses of the line ";FW:", the first without a hash.
  unfoldable pub fw_addresses : (Address → Bytes) → List Address → Bytes
  fw_addresses show [] = []
  fw_addresses show (a ∷ as') = b' ' ∷ (a.addr ++ aux_addresses show as')

  -- The lines around the response to the challenge.
  unfoldable pub handshake_text : Bool → (Address → Bytes) → Bytes → Bytes
  handshake_text master show response =
      codes ";FW:"
      ++ (fw_addresses show st.local_fw
          ++ 13
            ∷ (write_sid st
                ++ (response
                    ++ (codes "; "
                        ++ (st.targetcall
                            ++ (codes " DE "
                                ++ (st.mycall
                                    ++ (codes " ("
                                        ++ (st.locator
                                            ++ (if master then codes ")>" else codes ")")
                                            ++ (13 ∷ []))))))))))

  -- `sendHandshake`. What it writes is buffered, so that nothing is written at an error.
  unfoldable pub send_handshake : {M : Type 0} → Bytes → Step M (Unit {0})
  send_handshake [] s = (write (handshake_text s.master (λ a. b' ' ∷ a.addr) []) s, ok tt)
  send_handshake (c ∷ cs) s = elim st.secure_login [
    | none ↦ (s, err no_login_handler)
    | some login ↦ elim st.local_fw [
      | [] ↦ (s, panic)
      | a ∷ as' ↦
          let (password, valid) = login a in
          let response =
            write_secure_login_response (secure_login_response md5 (c ∷ cs) password) in
          if valid
          then (write (handshake_text s.master (aux_address login (c ∷ cs)) response) s, ok tt)
          else (s, err handler_error)
    ]
  ]

  -- What the other side has told is stored; a SID is required.
  abbrev pub agree : {M : Type 0} → HandshakeData → Step M (Unit {0})
  agree got s =
      let s' = record s {
        remote_sid = got.sid;
        remote_fw = got.fw;
        prop_code = highest_prop_code st.gzip got.sid;
      } in
      if is_empty got.sid
      then (s, err no_sid)
      else (if s.master then (s', ok tt) else send_handshake got.secure_challenge s')

  -- `readHandshake`, and what follows it.
  abbrev pub listen : {M : Type 0} → Step M (Unit {0})
  listen s = after (read_handshake (suc (length s.rd)) no_data s) agree

  unfoldable pub handshake : {M : Type 0} → Step M (Unit {0})
  handshake s =
      if s.master
      then (after (send_handshake [] (write (motd_lines st.motd) s)) λ _ s'. listen s')
      else listen s
