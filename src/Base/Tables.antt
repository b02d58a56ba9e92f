-- ===== src/Base/Tables.antt =====
-- A test over a small range, run value by value.
use Prim.Native.Nat.{ℕ, zero, suc, ◌<◌}
use mathlib.Core.Path.{◌≡◌}
use mathlib.Core.Bool.{Bool, true, ◌&&◌}
use native.Mathlib.Omega.{arith}

unfoldable pub passes_below : ℕ → (ℕ → Bool) → Bool
passes_below zero test = true
passes_below (suc n) test = test n && passes_below n test

pub passes_below-lt :
    (n : ℕ) (test : ℕ → Bool) (x : ℕ) → passes_below n test ≡ true → x < n → test x ≡ true
unfolding passes_below
passes_below-lt zero test x table below = absurd (omega arith)
passes_below-lt (suc n) test x table below = ground (arith, passes_below-lt n test x)
