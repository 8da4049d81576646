-- ===== src/Server/Gauges.antt =====
-- cmd/server/main.go: the goroutine that sets the gauges of the pool.
use try_it_now.Base.{ℕ, ◌≡◌, ◌⊎◌, inl, inr, refl, List, [], ◌∷◌}
use try_it_now.Domain.Stats.{PoolStats}
use try_it_now.World.{Services, World, Result, ok, err, M, pure, attempt, ◌>>=◌, Result-cases}
use try_it_now.Pool.{Config, stats}

-- The gauges of metrics.Collector that tell of the pool.
pub record Gauges : Type 0 where
  pub pool_ready : ℕ
  pub pool_assigned : ℕ
  pub pool_warming : ℕ
  pub pool_target : ℕ
  pub pool_capacity : ℕ

abbrev pub gauges_of : PoolStats → Gauges
gauges_of p = record {
  pool_ready = p.ready;
  pool_assigned = p.assigned;
  pool_warming = p.warming;
  pool_target = p.target;
  pool_capacity = p.capacity;
}

-- What the select takes: the end of the context, or a tick.
pub data Wake : Type 0 where
  done tick : Wake

abbrev pub set_gauges : Result PoolStats → Gauges → Gauges
set_gauges (ok p) g = gauges_of p
set_gauges (err e) g = g

unfoldable pub update_gauges : Services → Config → List Wake → Gauges → M Gauges
update_gauges x c [] g = pure g
update_gauges x c (done ∷ wakes) g = pure g
update_gauges x c (tick ∷ wakes) g = do
  found ← attempt (stats x c)
  update_gauges x c wakes (set_gauges found g)

-- The gauges are as they were, or all of them come from one reading of the statistics.
abbrev pub IsReading : Services → Config → Gauges → Result Gauges → Type 0
IsReading x c g (err e) = ⊥
IsReading x c g (ok g') =
    (g' ≡ g) ⊎ ((w : World) × (p : PoolStats) × ((stats x c w).0 ≡ ok p) × (g' ≡ gauges_of p))

later :
    (x : Services) (c : Config) (w : World) (g : Gauges) (p : PoolStats) (r : Result Gauges)
    → (stats x c w).0 ≡ ok p
    → IsReading x c (gauges_of p) r
    → IsReading x c g r
later x c w g p (err e) read h = h
later x c w g p (ok g') read (inl same) = inr (w, p, read, same)
later x c w g p (ok g') read (inr other) = inr other

-- Whatever the updater meets, whichever readings fail, it ends without an error, and the gauges never
-- mix two readings of the statistics.
pub update_gauges-IsReading :
    (x : Services) (c : Config) (wakes : List Wake) (g : Gauges) (w : World)
    → IsReading x c g (update_gauges x c wakes g w).0
unfolding update_gauges
update_gauges-IsReading x c [] g w = inl refl
update_gauges-IsReading x c (done ∷ wakes) g w = inl refl
update_gauges-IsReading x c (tick ∷ wakes) g w =
    let w' = (stats x c w).1 in
    elim (Result-cases (stats x c w).0) [
      | inl (p, read) ↦ rw read (
          later x c w g p (update_gauges x c wakes (gauges_of p) w').0 read
            (update_gauges-IsReading x c wakes (gauges_of p) w'))
      | inr (e, failed) ↦ rw failed (update_gauges-IsReading x c wakes g w')
    ]
