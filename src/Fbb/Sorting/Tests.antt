-- ===== src/Fbb/Sorting/Tests.antt =====
-- A run of the sorting, and its theorem at a concrete input.
use wl2k_go.Prelude.{ℕ, ◌≡◌, refl, List, [], ◌∷◌, Bytes, map}
use wl2k_go.Prelude.Int.{pos}
use mathlib.Core.List.{Perm}
use wl2k_go.Go.Strings.{codes}
use wl2k_go.Go.Sort.{Ordered, insert, stable_sort}
use wl2k_go.Fbb.Proposal.{Proposal, empty_proposal, precedence}
use wl2k_go.Fbb.Sorting.{bytes_less, by_size_less, by_precedence_less, sort_proposals}
use wl2k_go.Fbb.Sorting.Order.{ComesFirst, sort_proposals_lem}

abbrev entry : Bytes → Bytes → ℕ → Proposal
entry mid title n = record empty_proposal { mid = mid; title = title; compressed_size = pos n }

abbrev mails : List Proposal
mails =
    entry (codes "R2") (codes "news") 20
    ∷ entry (codes "R1") (codes "hello") 10
    ∷ entry (codes "Z") (codes "Re: //WL2K Z/ help") 90
    ∷ []

sort_run : map (λ p. p.mid) (sort_proposals mails) ≡ codes "Z" ∷ codes "R1" ∷ codes "R2" ∷ []
unfolding sort_proposals stable_sort insert by_precedence_less by_size_less bytes_less precedence
sort_run = refl

sort_proposals_lem_example :
    Perm (sort_proposals mails) mails × Ordered ComesFirst (sort_proposals mails)
sort_proposals_lem_example = sort_proposals_lem mails
