-- ===== src/Prelude/Bits.antt =====
-- Tables over a small range of numbers, checked by evaluation.
use Prim.Native.Nat.{ℕ, zero, suc, ◌+◌, ◌<◌}
use mathlib.Core.Path.{◌≡◌}
use mathlib.Core.Bool.{Bool, true, ◌&&◌}
use native.Mathlib.Omega.{arith}

-- A test of the `count` numbers from `first` on.
unfoldable pub all_from : (first count : ℕ) → (ℕ → Bool) → Bool
all_from first zero test = true
all_from first (suc count) test = test first && all_from (suc first) count test

pub all_from_sound :
    (first count : ℕ) (test : ℕ → Bool) (x : ℕ) (d : ℕ)
    → all_from first count test ≡ true
    → x ≡ d + first
    → d < count
    → test x ≡ true
unfolding all_from
all_from_sound first zero test x d h e lt = absurd (omega arith)
all_from_sound first (suc count) test x zero h e lt = ground (arith)
all_from_sound first (suc count) test x (suc d) h e lt =
    ground (arith, all_from_sound (suc first) count test x d)
