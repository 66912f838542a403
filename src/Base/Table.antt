-- ===== src/Base/Table.antt =====
-- A test on small numbers, checked at every one of them.
use Prim.Native.Nat.{ℕ, zero, suc, ◌<◌}
use mathlib.Core.Path.{◌≡◌}
use mathlib.Core.Bool.{Bool, true, ◌&&◌}
use native.Mathlib.Omega.{arith}

unfoldable pub every : ℕ → (ℕ → Bool) → Bool
every zero test = true
every (suc n) test = test n && every n test

pub every-at : (n : ℕ) (test : ℕ → Bool) (k : ℕ) → every n test ≡ true → k < n → test k ≡ true
unfolding every
every-at zero test k h lt = absurd (omega arith)
every-at (suc n) test k h lt = ground (arith, every-at n test k)
