-- ===== src/Fbb/Answer/Duplicates.antt =====
-- Which proposals can be accepted in one block.
use wl2k_go.Prelude.{
  ℕ, ◌≡◌, ◌≢◌, refl, ap, ◌⊎◌, inl, inr, true, false, Bool-cases, Option, List, [], ◌∷◌, map, Bytes,
  arith,
}
use wl2k_go.Go.Strings.{bytes_eq, bytes_eq_refl, bytes_eq→eq}
use wl2k_go.Go.Sort.{All, Ordered}
use wl2k_go.Fbb.Proposal.{Proposal, wl2k_proposal, gzip_proposal, defer}
use wl2k_go.Fbb.Answer.{seen_mid, answer_one, answer_all}

-- Deferred, or of another message than the first.
abbrev pub DefersRepeat : Proposal → Proposal → Type 0
DefersRepeat p q = (p.mid ≢ q.mid) ⊎ (q.answer ≡ defer)

-- Deferred, or in a format that the session can receive.
abbrev pub DefersUnknown : Proposal → Type 0
DefersUnknown q = (q.answer ≡ defer) ⊎ ((q.code ≡ wl2k_proposal) ⊎ (q.code ≡ gzip_proposal))

differ : (a b : Bytes) → bytes_eq a b ≡ false → a ≢ b
differ a b h e = cc (bytes_eq_refl b, rw e at h)

module _ (handler : Option (Proposal → ℕ)) where
  seen_defers_one :
      (mid : Bytes) (seen : List Bytes) (q : Proposal)
      → seen_mid mid seen ≡ true
      → (mid ≢ q.mid) ⊎ (answer_one handler seen q ≡ defer)
  unfolding answer_one
  seen_defers_one mid seen q h = elim (Bool-cases (bytes_eq mid q.mid)) [
    | inl e ↦ inr (rw (rw (bytes_eq→eq mid q.mid e) at h))
    | inr e ↦ inl (differ mid q.mid e)
  ]

  -- Of a message that was seen every copy is deferred.
  seen_defers :
      (mid : Bytes) (seen : List Bytes) (props : List Proposal)
      → seen_mid mid seen ≡ true
      → All (λ q. (mid ≢ q.mid) ⊎ (q.answer ≡ defer)) (answer_all handler seen props)
  unfolding answer_all
  seen_defers mid seen [] h = tt
  seen_defers mid seen (q ∷ qs) h =
      (seen_defers_one mid seen q h, seen_defers mid (q.mid ∷ seen) qs (ground (arith)))

  answer_all_repeats :
      (seen : List Bytes) (props : List Proposal)
      → Ordered DefersRepeat (answer_all handler seen props)
  unfolding answer_all
  answer_all_repeats seen [] = tt
  answer_all_repeats seen (p ∷ ps) = (
    seen_defers p.mid (p.mid ∷ seen) ps (ground (arith, bytes_eq_refl p.mid)),
    answer_all_repeats (p.mid ∷ seen) ps,
  )

  answer_all_formats :
      (seen : List Bytes) (props : List Proposal)
      → All DefersUnknown (answer_all handler seen props)
  unfolding answer_all answer_one
  answer_all_formats seen [] = tt
  answer_all_formats seen (p ∷ ps) = (ground arith, answer_all_formats (p.mid ∷ seen) ps)

  answer_all_mids :
      (seen : List Bytes) (props : List Proposal)
      → map (λ p. p.mid) (answer_all handler seen props) ≡ map (λ p. p.mid) props
  unfolding answer_all
  answer_all_mids seen [] = refl
  answer_all_mids seen (p ∷ ps) = ap (λ l. p.mid ∷ l) (answer_all_mids (p.mid ∷ seen) ps)

  -- However the handler answers: of several proposals for one message in a block all but the first are
  -- deferred, proposals in a format that is not of the B2 protocol are deferred, and the answers
  -- belong to the proposals in their order.
  pub answer_all_lem :
      (props : List Proposal)
      → Ordered DefersRepeat (answer_all handler [] props)
        × All DefersUnknown (answer_all handler [] props)
        × (map (λ p. p.mid) (answer_all handler [] props) ≡ map (λ p. p.mid) props)
  answer_all_lem props =
      (answer_all_repeats [] props, answer_all_formats [] props, answer_all_mids [] props)
