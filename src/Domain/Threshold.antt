-- ===== src/Domain/Threshold.antt =====
-- internal/domain/pool.go: the threshold under which the pool counts as low. Floating-point numbers are
-- a parameter.
use try_it_now.Base.{ℕ, ◌<◌, ◌≡◌, Bool, false, arith, ltb, ◌==◌, if◌then◌else◌}
use try_it_now.Domain.Stats.{PoolStats, available_capacity, replenishment_needed}

-- float64, with what IEEE 754 says of the quotient of two whole numbers that it holds exactly: it is
-- below 1 just where the numerator is the smaller.
pub record Floats (F : Type 0) : Type 0 where
  pub of_nat : ℕ → F
  pub divide : F → F → F
  pub below : F → F → Bool
  pub one : F
  pub below_one :
      (a b : ℕ)
      → 0 < b
      → a < 0x20000000000000
      → b < 0x20000000000000
      → below (divide (of_nat a) (of_nat b)) one ≡ ltb a b

module _ {F : Type 0} (floats : Floats F) where
  -- NeedsReplenishment
  pub needs_replenishment : PoolStats → F → Bool
  needs_replenishment s threshold =
      if s.target == 0
      then false
      else floats.below (floats.divide (floats.of_nat s.ready) (floats.of_nat s.target)) threshold

  -- At the threshold 1, a pool of fewer than 2^53 instances that is not low has nothing to create.
  pub replenishment_needed-needs_replenishment :
      (s : PoolStats)
      → s.ready < 0x20000000000000
      → s.target < 0x20000000000000
      → needs_replenishment s floats.one ≡ false
      → replenishment_needed s ≡ 0
  unfolding needs_replenishment replenishment_needed available_capacity
  replenishment_needed-needs_replenishment s a b enough =
      ground (arith, enough, floats.below_one s.ready s.target)
