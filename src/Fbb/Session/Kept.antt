-- ===== src/Fbb/Session/Kept.antt =====
-- Steps that record nothing: what they leave alone, and that they end.
use wl2k_go.Prelude.{
  ◌≤◌, ◌<◌, ◌≡◌, refl, ◌∙◌, Bool, true, false, Bytes, arith, length, if◌then◌else◌,
}
use wl2k_go.Go.Result.{ok, err, panic}
use wl2k_go.Fbb.Error.{Result, Ends}
use wl2k_go.Fbb.Line.{next_line}
use wl2k_go.Fbb.Line.Progress.{next_line-Ends}
use wl2k_go.Fbb.Session.Defs.{Session}
use wl2k_go.Fbb.Session.Steps.{Step, after, advance, read_line}

module _ {M : Type 0} where
  -- The sent and received messages, the flags and the addresses are as before, and nothing is put back
  -- on the connection.
  pub record Same (s s' : Session M) : Type 0 where
    pub same_sent : s'.sent ≡ s.sent
    pub same_received : s'.received ≡ s.received
    pub same_quits : (s'.quit_received ≡ s.quit_received) × (s'.quit_sent ≡ s.quit_sent)
    pub same_no_msgs : s'.remote_no_msgs ≡ s.remote_no_msgs
    pub no_longer : length s'.rd ≤ length s.rd

  pub Same-refl : (s : Session M) → Same s s
  Same-refl s = record {
    same_sent = refl;
    same_received = refl;
    same_quits = (refl, refl);
    same_no_msgs = refl;
    no_longer = omega arith;
  }

  pub Same-trans : {s t u : Session M} → Same s t → Same t u → Same s u
  Same-trans p q = record {
    same_sent = q.same_sent ∙ p.same_sent;
    same_received = q.same_received ∙ p.same_received;
    same_quits = (q.same_quits.0 ∙ p.same_quits.0, q.same_quits.1 ∙ p.same_quits.1);
    same_no_msgs = q.same_no_msgs ∙ p.same_no_msgs;
    no_longer = omega arith;
  }

  -- A step of this kind, whose fuel suffices; behind a value `P` holds of the session.
  abbrev pub Kept : {A : Type 0} → (Session M → Type 0) → Session M → Session M × Result A → Type 0
  Kept P s x = Same s x.0 × Ends (λ a. P x.0) x.1

  pub Kept-after :
      {A B : Type 0} (P Q : Session M → Type 0) (s : Session M) (x : Session M × Result A)
      (k : A → Step M B)
      → Kept P s x
      → ((a : A) (t : Session M) → Same s t → P t → Kept Q t (k a t))
      → Kept Q s (after x k)
  Kept-after P Q s (t, ok a) k h g = let (same, rest) = g a t h.0 h.1 in (Same-trans h.0 same, rest)
  Kept-after P Q s (t, err e) k h g = h
  Kept-after P Q s (t, panic) k h g = h

  -- A line that is read makes the rest of the connection shorter.
  pub advance-Kept :
      {A : Type 0} (s : Session M) (r : Result (A × Bytes))
      → Ends (λ p. length p.1 < length s.rd) r
      → Kept (λ t. length t.rd < length s.rd) s (advance s r)
  advance-Kept s (ok (a, rest)) h = (
    record {
      same_sent = refl;
      same_received = refl;
      same_quits = (refl, refl);
      same_no_msgs = refl;
      no_longer = omega arith;
    },
    h,
  )
  advance-Kept s (err e) h = (Same-refl s, h)
  advance-Kept s panic h = (Same-refl s, tt)

  pub read_line-Kept : (s : Session M) → Kept (λ t. length t.rd < length s.rd) s (read_line s)
  read_line-Kept s = advance-Kept s (next_line s.rd) (next_line-Ends s.rd)

  pub Kept-if :
      {A : Type 0} (P : Session M → Type 0) (s : Session M) (b : Bool) (x y : Session M × Result A)
      → Kept P s x
      → Kept P s y
      → Kept P s (if b then x else y)
  Kept-if P s true x y h k = h
  Kept-if P s false x y h k = k

  pub Kept-mono :
      {A : Type 0} (P Q : Session M → Type 0) (s : Session M) (x : Session M × Result A)
      → ((t : Session M) → P t → Q t)
      → Kept P s x
      → Kept Q s x
  Kept-mono P Q s (t, ok a) f h = (h.0, f t h.1)
  Kept-mono P Q s (t, err e) f h = h
  Kept-mono P Q s (t, panic) f h = h
