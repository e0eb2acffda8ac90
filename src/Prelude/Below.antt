-- ===== src/Prelude/Below.antt =====
-- A test that holds of every number below a bound: tables over a byte are checked by evaluation.
use Prim.Native.Nat.{ℕ, zero, suc, ◌<◌}
use mathlib.Core.Path.{◌≡◌}
use mathlib.Core.Bool.{Bool, true, false}
use native.Mathlib.Omega.{arith}
use linux_like_os.Prelude.Tests.{if◌then◌else◌}

unfoldable pub all_below : ℕ → (ℕ → Bool) → Bool
all_below zero test = true
all_below (suc size) test = if test size then all_below size test else false

pub all_below_sound :
    (size : ℕ) (test : ℕ → Bool) (i : ℕ) → all_below size test ≡ true → i < size → test i ≡ true
unfolding all_below
all_below_sound zero test i whole inside = absurd (omega arith)
all_below_sound (suc size) test i whole inside = ground (arith, all_below_sound size test i)
