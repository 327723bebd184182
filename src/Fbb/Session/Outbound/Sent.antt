-- ===== src/Fbb/Session/Outbound/Sent.antt =====
-- Which messages this side takes for sent.
use mathlib.Core.Path.{subst}
use wl2k_go.Prelude.{
  ◌≡◌, refl, sym, inl, inr, Bool, true, false, Bool-cases, Option, List, [], ◌∷◌, Bytes, ◌==◌,
  if◌then◌else◌,
}
use wl2k_go.Go.Strings.{bytes_eq, bytes_eq→eq}
use wl2k_go.Go.Sort.{All}
use wl2k_go.Fbb.Error.{Result, Ends}
use wl2k_go.Fbb.Proposal.{Proposal, accept, reject, defer}
use wl2k_go.Fbb.Transfer.{Written, done, failed, panicked, write_compressed}
use wl2k_go.Fbb.Session.Defs.{MboxHandler, Messages, Session}
use wl2k_go.Fbb.Session.Steps.{write}
use wl2k_go.Fbb.Session.Outbound.{SentMap, put, set_deferred, transmitted, transmit}
use wl2k_go.Fbb.Session.Outbound.Steady.{write_compressed-Settled, Settled}

-- One of the proposals for this message was accepted and written without an error.
pub data Accepted (mid : Bytes) : List Proposal → Type 0 where
  here :
      {p : Proposal} {ps : List Proposal}
      → p.mid ≡ mid
      → (p.answer == accept) ≡ true
      → (out : Bytes) → write_compressed p ≡ done out
      → Accepted mid (p ∷ ps)
  there : {p : Proposal} {ps : List Proposal} → Accepted mid ps → Accepted mid (p ∷ ps)

-- An entry of the map of messages: a message that is not rejected was accepted.
abbrev pub Justified : List Proposal → Bytes × Bool → Type 0
Justified ps (mid, true) = Unit {0}
Justified ps (mid, false) = Accepted mid ps

put-All :
    (P : Bytes × Bool → Type 0) (mid : Bytes) (rej : Bool) (sent : SentMap)
    → P (mid, rej)
    → All P sent
    → All P (put mid rej sent)
unfolding put
put-All P mid rej [] p h = (p, tt)
put-All P mid rej ((m, r) ∷ sent) p h = elim (Bool-cases (bytes_eq m mid)) [
  | inl e ↦ rw e (subst (λ k. P (k, rej)) (sym (bytes_eq→eq m mid e)) p, h.1)
  | inr e ↦ rw e (h.0, put-All P mid rej sent p h.1)
]

abbrev Answered : {M : Type 0} → List Proposal → Session M × Result SentMap → Type 0
Answered all x = Ends (λ sent. All (Justified all) sent) x.1

Answered-if :
    {M : Type 0} (all : List Proposal) (b : Bool) (x y : Session M × Result SentMap)
    → (b ≡ true → Answered all x)
    → Answered all y
    → Answered all (if b then x else y)
Answered-if all true x y h k = h refl
Answered-if all false x y h k = k

module _ {M Msg : Type 0} (h : Option (MboxHandler M Msg)) (msgs : Messages Msg) where
  transmitted-Answered :
      (all : List Proposal) (w : Written) (s : Session M)
      (next : Session M → Session M × Result SentMap)
      → Settled w
      → ((out : Bytes) (t : Session M) → w ≡ done out → Answered all (next t))
      → Answered all (transmitted h msgs w s next)
  transmitted-Answered all (done out) s next settled f = f out (write out s) refl
  transmitted-Answered all (failed out e) s next settled f = settled
  transmitted-Answered all (panicked out) s next settled f = tt

  transmit-Answered :
      (all ps : List Proposal) (sent : SentMap) (s : Session M)
      → ((mid : Bytes) → Accepted mid ps → Accepted mid all)
      → All (Justified all) sent
      → Answered all (transmit h msgs ps sent s)
  unfolding transmit
  transmit-Answered all [] sent s sub k = k
  transmit-Answered all (p ∷ ps) sent s sub k =
      let sub' : (mid : Bytes) → Accepted mid ps → Accepted mid all = λ mid a. sub mid (there a) in
      Answered-if all (p.answer == defer) _ _
        (λ e. transmit-Answered all ps sent (set_deferred h msgs p.mid s) sub' k)
        (Answered-if all (p.answer == reject) _ _
          (λ e.
            transmit-Answered all ps (put p.mid true sent) s sub'
              (put-All (Justified all) p.mid true sent tt k))
          (Answered-if all (p.answer == accept) _ _
            (λ e.
              transmitted-Answered all (write_compressed p) s
                (transmit h msgs ps (put p.mid false sent)) (write_compressed-Settled p)
                λ out t w.
                  transmit-Answered all ps (put p.mid false sent) t sub'
                    (put-All (Justified all) p.mid false sent (sub p.mid (here refl e out w)) k))
            (transmit-Answered all ps sent s sub' k)))

  -- The messages that this side takes for sent behind the answers to a block are messages with a proposal that
  -- the other side has accepted, and whose transfer was written without an error.
  pub transmit_lem :
      (answered : List Proposal) (s : Session M)
      → Ends (λ sent. All (Justified answered) sent) (transmit h msgs answered [] s).1
  transmit_lem answered s = transmit-Answered answered answered [] s (λ mid a. a) tt
