-- ===== src/Prelude/Bounded.antt =====
-- Checking a Boolean test of every number below a bound by evaluating it.
use Prim.Native.Nat.{ℕ, zero, suc, ◌<◌}
use mathlib.Core.Path.{◌≡◌}
use mathlib.Core.Bool.{Bool, true, false}
use native.Mathlib.Omega.{arith}
use omnipresent.Prelude.Tests.{if◌then◌else◌}

-- The test holds of every number below the bound.
unfoldable pub holds_below : (ℕ → Bool) → ℕ → Bool
holds_below test zero = true
holds_below test (suc bound) = if test bound then holds_below test bound else false

pub tested :
    (test : ℕ → Bool) (bound m : ℕ) → m < bound → holds_below test bound ≡ true → test m ≡ true
unfolding holds_below
tested test zero m below h = absurd (omega arith)
tested test (suc bound) m below h = ground (arith, tested test bound m)
