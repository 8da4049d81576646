-- ===== src/Domain/Stats.antt =====
-- internal/domain/pool.go: how many instances the pool should create.
use Prim.Native.Nat.{min}
use try_it_now.Base.{ℕ, ◌+◌, ◌-◌, ◌≤◌, ◌<◌, ◌≡◌, arith, leb, ltb, if◌then◌else◌}

pub record PoolStats : Type 0 where
  pub ready : ℕ
  pub assigned : ℕ
  pub warming : ℕ
  pub target : ℕ
  pub capacity : ℕ

unfoldable pub available_capacity : PoolStats → ℕ
available_capacity s =
    let used = s.ready + s.assigned + s.warming in
    if leb s.capacity used then 0 else s.capacity - used

-- `gap <= 0` of the signed difference.
unfoldable pub replenishment_needed : PoolStats → ℕ
unfolding available_capacity
replenishment_needed s =
    let gap = s.target - s.ready - s.warming in
    let available = available_capacity s in
    if leb s.target (s.ready + s.warming) then 0 else if ltb available gap then available else gap

-- What is asked for is the gap to the target or the room under the capacity, whichever is smaller;
-- each is 0 where the target or the capacity is passed already.
pub replenishment_needed-eq-min :
    (s : PoolStats)
    → replenishment_needed s
      ≡ min (s.target - (s.ready + s.warming)) (s.capacity - (s.ready + s.assigned + s.warming))
unfolding replenishment_needed
replenishment_needed-eq-min s = ground arith

-- Where any instance is asked for, that many more still fit under the target and the capacity.
pub replenishment_needed_fits :
    (s : PoolStats)
    → 0 < replenishment_needed s
    → (s.ready + s.warming + replenishment_needed s ≤ s.target)
      × (s.ready + s.assigned + s.warming + replenishment_needed s ≤ s.capacity)
unfolding replenishment_needed
replenishment_needed_fits s h = ground arith
