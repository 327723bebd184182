-- ===== src/Fbb/Session/Inbound/Fetch.antt =====
-- What is recorded of the messages that are fetched.
use wl2k_go.Prelude.{
  ◌≤◌, ◌≡◌, refl, ◌∙◌, sym, ap, Bool, true, false, ◌&&◌, Option, none, some, List, [], ◌∷◌, ◌++◌,
  append_assoc, append-nil, Bytes, arith, ◌==◌, if◌then◌else◌, length,
}
use mathlib.Core.Path.{subst}
use wl2k_go.Go.Result.{ok, err, panic}
use wl2k_go.Fbb.Error.{Result, Ends, is_fuel, eof, handler_error, bad_message}
use wl2k_go.Fbb.Proposal.{Proposal, accept}
use wl2k_go.Fbb.Transfer.{read_compressed}
use wl2k_go.Fbb.Transfer.Errors.{Delivered, read_compressed-Ends}
use wl2k_go.Fbb.Transfer.Progress.{Within, read_compressed-Within}
use wl2k_go.Fbb.Session.Defs.{
  MboxHandler, Messages, Parsed, parsed, cut_short, malformed, panicked, Session,
}
use wl2k_go.Fbb.Session.Steps.{Step, after, advance}
use wl2k_go.Fbb.Session.Outbound.{is_empty}
use wl2k_go.Fbb.Session.Inbound.{process, fetch_one, fetch_all}

-- The ids of the accepted messages, in order.
abbrev pub accepted_mids : List Proposal → List Bytes
accepted_mids [] = []
accepted_mids (p ∷ ps) = if p.answer == accept then p.mid ∷ accepted_mids ps else accepted_mids ps

-- Some of the first of `mids` are recorded, behind what was recorded before.
abbrev pub RecordsFirst : List Bytes → List Bytes → List Bytes → Type 0
RecordsFirst mids before now =
    (first rest : List Bytes) × (mids ≡ first ++ rest) × (now ≡ before ++ first)

RecordsFirst-none : (mids : List Bytes) (xs : List Bytes) → RecordsFirst mids xs xs
RecordsFirst-none mids xs = ([], mids, refl, sym (append-nil xs))

module _ {M : Type 0} where
  -- The messages sent, and our quit, are as before.
  abbrev pub Unsent : Session M → Session M → Type 0
  Unsent s t = (t.sent ≡ s.sent) × (t.quit_sent ≡ s.quit_sent)

  -- The messages `mids` are received, and recorded in this order, and the flag is `no_msgs`; an error or a
  -- panic comes behind some of them. Nothing is recorded as sent, and nothing put back on the connection.
  abbrev pub Received : {A : Type 0} → List Bytes → Bool → Session M → Session M → Result A → Type 0
  Received mids no_msgs s t (ok a) =
      (t.received ≡ s.received ++ mids) × (t.remote_no_msgs ≡ no_msgs)
  Received mids no_msgs s t (err e) = RecordsFirst mids s.received t.received × (is_fuel e ≡ false)
  Received mids no_msgs s t panic = RecordsFirst mids s.received t.received

  abbrev pub Fetched : {A : Type 0} → List Bytes → Bool → Session M → Session M × Result A → Type 0
  Fetched mids no_msgs s (t, r) =
      Unsent s t × (length t.rd ≤ length s.rd) × Received mids no_msgs s t r

  Received-append :
      {B : Type 0} (xs ys : List Bytes) (c : Bool) (s t u : Session M) (r : Result B)
      → t.received ≡ s.received ++ xs
      → Received ys c t u r
      → Received (xs ++ ys) c s u r
  Received-append xs ys c s t u (ok a) e (recv, flag) =
      (recv ∙ ap (λ l. l ++ ys) e ∙ append_assoc s.received xs ys, flag)
  Received-append xs ys c s t u (err x) e ((first, rest, e₁, e₂), nf) = (
    (
      xs ++ first,
      rest,
      ap (λ l. xs ++ l) e₁ ∙ sym (append_assoc xs first rest),
      e₂ ∙ ap (λ l. l ++ first) e ∙ append_assoc s.received xs first,
    ),
    nf,
  )
  Received-append xs ys c s t u panic e (first, rest, e₁, e₂) = (
    xs ++ first,
    rest,
    ap (λ l. xs ++ l) e₁ ∙ sym (append_assoc xs first rest),
    e₂ ∙ ap (λ l. l ++ first) e ∙ append_assoc s.received xs first,
  )

  Fetched-after :
      {A B : Type 0} (P : A → Type 0) (xs ys : List Bytes) (b c : Bool) (s : Session M)
      (x : Session M × Result A) (k : A → Step M B)
      → Fetched xs b s x
      → Ends P x.1
      → ((a : A) (t : Session M) → P a → t.remote_no_msgs ≡ b → Fetched ys c t (k a t))
      → Fetched (xs ++ ys) c s (after x k)
  Fetched-after P xs ys b c s (t, ok a) k (sent, rd, (recv, flag)) p f =
      let (sent', rd', more) = f a t p flag in
      (
        (sent'.0 ∙ sent.0, sent'.1 ∙ sent.1),
        omega arith,
        Received-append xs ys c s t (k a t).0 (k a t).1 recv more,
      )
  Fetched-after P xs ys b c s (t, err e) k (sent, rd, ((first, rest, e₁, e₂), nf)) p f =
      (sent, rd, ((first, rest ++ ys, ap (λ l. l ++ ys) e₁ ∙ append_assoc first rest ys, e₂), nf))
  Fetched-after P xs ys b c s (t, panic) k (sent, rd, (first, rest, e₁, e₂)) p f =
      (sent, rd, (first, rest ++ ys, ap (λ l. l ++ ys) e₁ ∙ append_assoc first rest ys, e₂))

  -- Reading a message delivers it without a record.
  advance-Fetched :
      (s : Session M) (r : Result (Proposal × Bytes))
      → Ends (Within (length s.rd)) r
      → Fetched [] s.remote_no_msgs s (advance s r)
  advance-Fetched s (ok (p, rest)) h = ((refl, refl), h, (sym (append-nil s.received), refl))
  advance-Fetched s (err e) h = ((refl, refl), omega arith, (RecordsFirst-none [] s.received, h))
  advance-Fetched s panic h = ((refl, refl), omega arith, RecordsFirst-none [] s.received)

  advance-Ends :
      {A : Type 0} (P : A → Type 0) (s : Session M) (r : Result (A × Bytes))
      → Ends (λ q. P q.0) r
      → Ends P (advance s r).1
  advance-Ends P s (ok (a, rest)) h = h
  advance-Ends P s (err e) h = h
  advance-Ends P s panic h = tt

  Fetched-Ends :
      {A : Type 0} (xs : List Bytes) (b : Bool) (s : Session M) (x : Session M × Result A)
      → Fetched xs b s x
      → Ends (λ a. Unit {0}) x.1
  Fetched-Ends xs b s (t, ok a) h = tt
  Fetched-Ends xs b s (t, err e) (sent, rd, (first, nf)) = nf
  Fetched-Ends xs b s (t, panic) h = tt

  -- One proposal and those behind it.
  fetch_more :
      (mid : Bytes) (mids : List Bytes) (s : Session M) (x : Session M × Result (Unit {0}))
      (next : Step M (Unit {0}))
      → Fetched (mid ∷ []) false s x
      → ((t : Session M) → Fetched mids (t.remote_no_msgs && is_empty mids) t (next t))
      → Fetched (mid ∷ mids) false s (after x λ _ t. next t)
  fetch_more mid mids s x next h ih =
      Fetched-after (λ _. Unit {0}) (mid ∷ []) mids false false s x _ h
        (Fetched-Ends (mid ∷ []) false s x h)
        λ _ t _ flag. subst (λ b. Fetched mids b t (next t)) (ground (arith, flag)) (ih t)

module _ {M Msg : Type 0} (msgs : Messages Msg) (decode : Bytes → Bytes) (mid mid' : Bytes)
    (same : mid' ≡ mid) where
  process-Fetched :
      (h : Option (MboxHandler M Msg)) (b : Bool) (msg : Msg) (s : Session M)
      → s.remote_no_msgs ≡ b
      → Fetched (mid ∷ []) b s (process h msgs decode mid' msg s)
  process-Fetched none b msg s flag =
      ((refl, refl), omega arith, RecordsFirst-none (mid ∷ []) s.received)
  process-Fetched (some mb) b msg s flag = processed (mb.process_inbound msg s.mbox).1
    where
      processed :
          (valid : Bool)
          → Fetched {A = Unit {0}} (mid ∷ []) b s (
              let s' = record s { mbox = (mb.process_inbound msg s.mbox).0 } in
              if valid
              then (record s' { received = s'.received ++ (mid' ∷ []) }, ok tt)
              else (s', err handler_error))
      processed true = ((refl, refl), omega arith, (ap (λ m. s.received ++ (m ∷ [])) same, flag))
      processed false = ((refl, refl), omega arith, (RecordsFirst-none (mid ∷ []) s.received, refl))

  message-Fetched :
      (h : Option (MboxHandler M Msg)) (m : Parsed Msg) (b : Bool) (s : Session M)
      → s.remote_no_msgs ≡ b
      → Fetched {A = Unit {0}} (mid ∷ []) b s (elim m [
        | parsed msg ↦ process h msgs decode mid' msg s
        | cut_short ↦ (s, err eof)
        | malformed ↦ (s, err bad_message)
        | panicked ↦ (s, panic)
      ])
  message-Fetched h (parsed msg) b s flag = process-Fetched h b msg s flag
  message-Fetched h cut_short b s flag =
      ((refl, refl), omega arith, (RecordsFirst-none (mid ∷ []) s.received, refl))
  message-Fetched h malformed b s flag =
      ((refl, refl), omega arith, (RecordsFirst-none (mid ∷ []) s.received, refl))
  message-Fetched h panicked b s flag =
      ((refl, refl), omega arith, RecordsFirst-none (mid ∷ []) s.received)

module _ {M Msg : Type 0} (h : Option (MboxHandler M Msg)) (msgs : Messages Msg)
    (decode : Bytes → Bytes) where
  fetch_one-Fetched :
      (p : Proposal) (s : Session M)
      → Fetched (p.mid ∷ []) s.remote_no_msgs s (fetch_one h msgs decode p s)
  unfolding fetch_one
  fetch_one-Fetched p s =
      Fetched-after (Delivered p) [] (p.mid ∷ []) s.remote_no_msgs s.remote_no_msgs s
        (advance s (read_compressed decode s.rd p)) _
        (advance-Fetched s (read_compressed decode s.rd p) (read_compressed-Within decode s.rd p))
        (advance-Ends (Delivered p) s (read_compressed decode s.rd p)
          (read_compressed-Ends decode s.rd p))
        λ p' t delivered flag.
          message-Fetched msgs decode p.mid p'.mid (ap (λ q. q.mid) delivered.0) h
            (msgs.from_proposal p') s.remote_no_msgs t flag

  -- The messages of all accepted proposals are fetched: without an error, they are recorded as received in
  -- their order, and the flag says that the other side has no messages if it said so before and none was
  -- accepted. An error or a panic comes behind the record of some of the first. Nothing is recorded as
  -- sent, and nothing is put back on the connection.
  pub fetch_all-Fetched :
      (ps : List Proposal) (s : Session M)
      → Fetched
          (accepted_mids ps)
          (s.remote_no_msgs && is_empty (accepted_mids ps))
          s
          (fetch_all h msgs decode ps s)
  unfolding fetch_all
  fetch_all-Fetched [] s = ((refl, refl), omega arith, (sym (append-nil s.received), ground arith))
  fetch_all-Fetched (p ∷ ps) s =
      by_answer (p.answer == accept) _ _
        (fetch_more p.mid (accepted_mids ps) (record s { remote_no_msgs = false })
          (fetch_one h msgs decode p (record s { remote_no_msgs = false }))
          (fetch_all h msgs decode ps) (fetch_one-Fetched p (record s { remote_no_msgs = false }))
          (fetch_all-Fetched ps))
        (fetch_all-Fetched ps s)
    where
      by_answer :
          (a : Bool) (x y : Session M × Result (Unit {0}))
          → Fetched (p.mid ∷ accepted_mids ps) false s x
          → Fetched (accepted_mids ps) (s.remote_no_msgs && is_empty (accepted_mids ps)) s y
          → let mids = if a then p.mid ∷ accepted_mids ps else accepted_mids ps in
            Fetched mids (s.remote_no_msgs && is_empty mids) s (if a then x else y)
      by_answer true x y f g =
          subst (λ b. Fetched (p.mid ∷ accepted_mids ps) b s x) (ground arith) f
      by_answer false x y f g = g
