-- ===== src/Fbb/Session/Handshake/Agreed.antt =====
-- What a handshake agrees on, and that it ends.
use wl2k_go.Prelude.{
  ℕ, zero, suc, ◌<◌, ◌≡◌, refl, ◌∙◌, ap, inl, inr, ◌⊎◌, Bool, true, false, ◌&&◌, [], ◌∷◌, Bytes,
  arith, ltb, Bool-cases, if◌then◌else◌, length, drop,
}
use wl2k_go.Go.Result.{ok, err, panic}
use wl2k_go.Go.Strings.{codes, has_prefix, has_suffix}
use wl2k_go.Fbb.Error.{Result, Ends, Ends-mono}
use wl2k_go.Fbb.Line.{next_line_remote_err}
use wl2k_go.Fbb.Line.Progress.{next_line_remote_err-Ends}
use wl2k_go.Fbb.Handshake.{
  Station, s_fb_comp2, is_sid, sid_has, parse_sid, parse_fw, highest_prop_code,
}
use wl2k_go.Fbb.Session.Defs.{Session}
use wl2k_go.Fbb.Session.Steps.{Step, after, write, advance}
use wl2k_go.Fbb.Session.Kept.{
  Same, Same-refl, Same-trans, Kept, Kept-after, Kept-if, Kept-mono, advance-Kept,
}
use wl2k_go.Fbb.Session.Outbound.{is_empty}
use wl2k_go.Fbb.Session.Outbound.Steady.{Same-write, Kept-from}
use wl2k_go.Fbb.Session.Handshake.{
  HandshakeData, no_data, begins_command, read_handshake, send_handshake, motd_lines, agree, listen,
  handshake,
}

parse_sid-Ends : (line : Bytes) → Ends (λ a. Unit {0}) (parse_sid line)
unfolding parse_sid
parse_sid-Ends line = ground arith

parse_fw-Ends : (line : Bytes) → Ends (λ a. Unit {0}) (parse_fw line)
unfolding parse_fw
parse_fw-Ends line = ground arith

-- Nothing is known of the SID yet, or it has the code of the B2 protocol.
abbrev Supported : HandshakeData → Type 0
Supported got = (got.sid ≡ []) ⊎ (sid_has got.sid s_fb_comp2 ≡ true)

module _ {M : Type 0} where
  -- A step that records nothing, whose fuel suffices, and whose value is supported.
  abbrev Heard : Session M → Session M × Result HandshakeData → Type 0
  Heard s x = Same s x.0 × Ends Supported x.1

  Heard-from :
      (s t : Session M) (x : Session M × Result HandshakeData) → Same s t → Heard t x → Heard s x
  Heard-from s t x e (a, b) = (Same-trans e a, b)

  Heard-after :
      {A : Type 0} (P : Session M → Type 0) (s : Session M) (x : Session M × Result A)
      (k : A → Step M HandshakeData)
      → Kept P s x
      → ((a : A) (t : Session M) → Same s t → P t → Heard t (k a t))
      → Heard s (after x k)
  Heard-after P s (t, ok a) k (same, p) f = Heard-from s t (k a t) same (f a t same p)
  Heard-after P s (t, err e) k (same, p) f = (same, p)
  Heard-after P s (t, panic) k (same, p) f = (same, tt)

  Heard-if :
      (s : Session M) (b : Bool) (x y : Session M × Result HandshakeData)
      → (b ≡ true → Heard s x)
      → Heard s y
      → Heard s (if b then x else y)
  Heard-if s true x y h k = h refl
  Heard-if s false x y h k = k

  pure-Kept :
      {A : Type 0} (P : Session M → Type 0) (s : Session M) (r : Result A)
      → Ends (λ a. Unit {0}) r
      → P s
      → Kept P s (s, r)
  pure-Kept P s r h p = (Same-refl s, Ends-mono (λ a. Unit) (λ a. P s) r (λ a _. p) h)

  read_handshake-Heard :
      (f : ℕ) (got : HandshakeData) (s : Session M)
      → length s.rd < f
      → Supported got
      → Heard s (read_handshake f got s)
  unfolding read_handshake
  read_handshake-Heard zero got s lt sup = absurd (omega arith)
  read_handshake-Heard (suc f) got s lt sup =
      Heard-if s (is_empty s.rd) _ _ (λ e. (Same-refl s, refl))
        (Heard-if s (begins_command s.rd && s.master) _ _ (λ e. (Same-refl s, sup))
          (Heard-after (λ t. length t.rd < length s.rd) s
            (advance s (next_line_remote_err false s.rd)) _
            (advance-Kept s (next_line_remote_err false s.rd)
              (next_line_remote_err-Ends false s.rd))
            λ line t same lt'.
              let P : Session M → Type 0 = λ u. length u.rd < f in
              Heard-if t (is_sid line) _ _
                (λ e.
                  Heard-after P t (t, parse_sid line) _
                    (pure-Kept P t (parse_sid line) (parse_sid-Ends line) (omega arith))
                    λ sid u same' lt''.
                      Heard-if u (sid_has sid s_fb_comp2) _ _
                        (λ h. read_handshake-Heard f (record got { sid = sid }) u lt'' (inr h))
                        (Same-refl u, refl))
                (Heard-if t (has_prefix line (codes ";FW")) _ _
                  (λ e.
                    Heard-after P t (t, parse_fw line) _
                      (pure-Kept P t (parse_fw line) (parse_fw-Ends line) (omega arith))
                      λ fw u same' lt''. read_handshake-Heard f (record got { fw = fw }) u lt'' sup)
                  (Heard-if t (has_prefix line (codes ";PQ")) _ _
                    (λ e.
                      Heard-if t (ltb (length line) 5) _ _ (λ e'. (Same-refl t, tt))
                        (read_handshake-Heard f (record got { secure_challenge = drop 5 line }) t
                          (omega arith) sup))
                    (Heard-if t (has_suffix line (codes ">")) _ _ (λ e. (Same-refl t, sup))
                      (read_handshake-Heard f got t (omega arith) sup))))))

  -- The SID that a session holds has the code of the B2 protocol.
  abbrev pub Agreed : Session M → Type 0
  Agreed s = sid_has s.remote_sid s_fb_comp2 ≡ true

module _ (st : Station) (md5 : Bytes → Bytes) {M : Type 0} where
  send_handshake-Kept :
      (challenge : Bytes) (s : Session M)
      → Kept (λ t. t.remote_sid ≡ s.remote_sid) s (send_handshake st md5 challenge s)
  unfolding send_handshake
  send_handshake-Kept [] s = (Same-write _ s, refl)
  send_handshake-Kept (c ∷ cs) s = ground arith

  told : HandshakeData → Session M → Session M
  told got s = record s {
    remote_sid = got.sid;
    remote_fw = got.fw;
    prop_code = highest_prop_code st.gzip got.sid;
  }

  Same-told : (got : HandshakeData) (s : Session M) → Same s (told got s)
  unfolding told
  Same-told got s = record {
    same_sent = refl;
    same_received = refl;
    same_quits = (refl, refl);
    same_no_msgs = refl;
    no_longer = omega arith;
  }

  answered-Kept :
      (got : HandshakeData) (s : Session M)
      → sid_has got.sid s_fb_comp2 ≡ true
      → Kept Agreed s (
          if s.master
          then (told got s, ok tt)
          else send_handshake st md5 got.secure_challenge (told got s))
  answered-Kept got s h =
      Kept-if Agreed s s.master _ _ (Same-told got s, unfold told in h)
        (Kept-from Agreed s (told got s) (send_handshake st md5 got.secure_challenge (told got s))
          (Same-told got s)
          (Kept-mono (λ t. t.remote_sid ≡ (told got s).remote_sid) Agreed (told got s) _
            (λ t e. ap (λ sid. sid_has sid s_fb_comp2) e ∙ unfold told in h)
            (send_handshake-Kept got.secure_challenge (told got s))))

  agree-Kept :
      (got : HandshakeData) (s : Session M) → Supported got → Kept Agreed s (agree st md5 got s)
  unfolding told
  agree-Kept got s sup = elim (Bool-cases (is_empty got.sid)) [
    | inl e ↦ rw e (Same-refl s, refl)
    | inr e ↦ rw e (answered-Kept got s (supported e sup))
  ]
    where
      supported : is_empty got.sid ≡ false → Supported got → sid_has got.sid s_fb_comp2 ≡ true
      supported e (inl nil) = ground (arith, ap is_empty nil, e)
      supported e (inr h) = h

  listen-Kept : (s : Session M) → Kept Agreed s (listen st md5 s)
  listen-Kept s =
      go (read_handshake (suc (length s.rd)) no_data s)
        (read_handshake-Heard (suc (length s.rd)) no_data s (omega arith) (inl refl))
    where
      go :
          (x : Session M × Result HandshakeData)
          → Heard s x
          → Kept Agreed s (after x (agree st md5))
      go (t, ok got) (same, sup) =
          Kept-from Agreed s t (agree st md5 got t) same (agree-Kept got t sup)
      go (t, err e) h = h
      go (t, panic) h = h

  -- A handshake ends, however the other side behaves: the fuel suffices. If it succeeds, then the SID
  -- that is stored has the code of the B2 protocol. It records no message, no quit and nothing about
  -- the other side's messages, and puts nothing back on the connection.
  pub handshake-Kept : (s : Session M) → Kept Agreed s (handshake st md5 s)
  unfolding handshake
  handshake-Kept s =
      Kept-if Agreed s s.master _ _
        (Kept-from Agreed s (write (motd_lines st.motd) s) _ (Same-write (motd_lines st.motd) s) (
          Kept-after (λ t. t.remote_sid ≡ s.remote_sid) Agreed (write (motd_lines st.motd) s)
            (send_handshake st md5 [] (write (motd_lines st.motd) s)) _
            (send_handshake-Kept [] (write (motd_lines st.motd) s)) λ _ t same e. listen-Kept t))
        (listen-Kept s)
