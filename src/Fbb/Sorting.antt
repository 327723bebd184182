-- ===== src/Fbb/Sorting.antt =====
-- fbb/wl2k.go, sortProposals: the order in which outbound proposals are offered.
pub mod Order
mod Tests
use wl2k_go.Prelude.{ℕ, Bool, true, false, List, [], ◌∷◌, Bytes, ltb, ◌==◌, if◌then◌else◌}
use wl2k_go.Prelude.Int.{eq_ℤ, ltb_ℤ}
use wl2k_go.Go.Sort.{stable_sort}
use wl2k_go.Fbb.Proposal.{Proposal, precedence}

-- `<` on strings.
unfoldable pub bytes_less : Bytes → Bytes → Bool
bytes_less [] [] = false
bytes_less [] (y ∷ ys) = true
bytes_less (x ∷ xs) [] = false
bytes_less (x ∷ xs) (y ∷ ys) = if x == y then bytes_less xs ys else ltb x y

-- `bySize.Less`
unfoldable pub by_size_less : Proposal → Proposal → Bool
by_size_less a b =
    if eq_ℤ a.compressed_size b.compressed_size
    then bytes_less a.mid b.mid
    else ltb_ℤ a.compressed_size b.compressed_size

-- `byPrecedence.Less`
unfoldable pub by_precedence_less : Proposal → Proposal → Bool
by_precedence_less a b = ltb (precedence a) (precedence b)

unfoldable pub sort_proposals : List Proposal → List Proposal
sort_proposals props = stable_sort by_precedence_less (stable_sort by_size_less props)
