-- ===== src/Prelude/Tables.antt =====
-- A Boolean test on every number of a range, which the checker evaluates, and its consequence for
-- each of them.
use Prim.Native.Nat.{ℕ, zero, suc, ◌<◌}
use mathlib.Core.Path.{◌≡◌}
use mathlib.Core.Bool.{Bool, true, ◌&&◌}
use native.Mathlib.Omega.{arith}

module _ (test : ℕ → Bool) where
  unfoldable pub upto : ℕ → Bool
  upto zero = true
  upto (suc last) = upto last && test last

  pub upto_at : (i count : ℕ) → i < count → upto count ≡ true → test i ≡ true
  unfolding upto
  upto_at i zero inside table = absurd (omega arith)
  upto_at i (suc last) inside table = ground (arith, upto_at i last)
