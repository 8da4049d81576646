-- ===== src/Store/Totals.antt =====
-- store/valkey.go: GetPoolStats, IncrementCounter and Ping.
use try_it_now.Base.{String}
use try_it_now.Domain.{assigned, warming}
use try_it_now.Domain.Stats.{PoolStats}
use try_it_now.Valkey.{pool_ready, state_set, counter}
use try_it_now.World.{Services, M, pure, now, query, perform, ◌>>=◌}

-- The target and the capacity are filled in by the pool manager.
unfoldable pub get_pool_stats : Services → M PoolStats
get_pool_stats x = do
  ready ← query x (x.valkey.llen pool_ready)
  in_use ← query x (x.valkey.scard (state_set assigned))
  prepared ← query x (x.valkey.scard (state_set warming))
  pure (record { ready = ready; assigned = in_use; warming = prepared; target = 0; capacity = 0 })

unfoldable pub increment_counter : Services → String → M (Unit {0})
increment_counter x key = do t ← now; perform x (x.valkey.incr t (counter key))

unfoldable pub ping : Services → M (Unit {0})
ping x = perform x (λ ks. ks)
