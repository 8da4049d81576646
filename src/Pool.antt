-- ===== src/Pool.antt =====
-- internal/pool/impl.go: the warm pool over the repository, the container runtime, the route manager
-- and the database. Logging and metrics are left out.
pub mod Frames
pub mod Release
pub mod Acquire
pub mod Unrouted
use try_it_now.Base.{
  ℕ, zero, suc, ◌+◌, ◌*◌, String, Bool, true, false, Option, none, some, List, [], ◌∷◌, ltb, str_eq,
  if◌then◌else◌,
}
use try_it_now.Base.Text.{decimal, first_chars, without_char, ◌<>◌}
use try_it_now.Domain.{Instance, InstanceState, ready, Error, failure, route_creation_failed}
use try_it_now.Domain.Stats.{PoolStats, replenishment_needed}
use try_it_now.World.{
  Services, World, Route, StartOptions, Database, Call, restored, started, stopped, checked,
  route_added, route_removed, tables_dropped, domain_updated, caches_cleared, Result, ok, err, M,
  pure, fail, attempt, lift, now, external, record_call, ◌>>=◌, ◌>>◌,
}
use try_it_now.Store.Instances.{get_instance, delete_instance, list_expired}
use try_it_now.Store.Queue.{acquire_from_pool, add_to_pool}
use try_it_now.Store.Ttl.{set_instance_ttl, expiring_at}
use try_it_now.Store.Ports.{allocate_port, release_port}
use try_it_now.Store.Totals.{get_pool_stats, increment_counter}

-- ManagerConfig, and the fields of PoolManager that are settings; the others drive nothing here.
pub record Config : Type 0 where
  pub target_pool_size : ℕ
  pub max_pool_size : ℕ
  pub default_ttl : ℕ
  pub base_domain : String

unfoldable pub add_route : Services → Route → M (Unit {0})
unfolding external
add_route x r = external x (route_added r) (λ n. x.routes.add_route n r)

unfoldable pub remove_route : Services → String → M (Unit {0})
unfolding external
remove_route x hostname =
    external x (route_removed hostname) (λ n. x.routes.remove_route n hostname)

unfoldable pub stop_container : Services → String → M (Unit {0})
unfolding external
stop_container x id = external x (stopped id) (λ n. x.runtime.stop n id)

-- `m.psDB != nil && instance.DBPrefix != ""`
abbrev pub drop_tables : Services → Option Database → String → M (Unit {0})
drop_tables x none prefix = pure tt
drop_tables x (some db) prefix =
    if str_eq prefix ""
    then pure tt
    else external x (tables_dropped prefix) (λ n. db.drop_prefixed_tables n prefix)

-- Release, once the instance is at hand: only the deletion can fail it.
unfoldable pub clean_up : Services → String → Instance → M (Unit {0})
unfolding external remove_route stop_container
clean_up x id i = do
  attempt (remove_route x i.hostname)
  attempt (drop_tables x x.database i.db_prefix)
  attempt (stop_container x i.container_id)
  attempt (release_port x i.port)
  delete_instance x id

unfoldable pub release : Services → String → M (Unit {0})
release x id = do i ← get_instance x id; clean_up x id i

abbrev pub route_of : Instance → Route
route_of i = record {
  hostname = i.hostname;
  upstream_url = "http://localhost:" <> decimal i.port;
  instance_id = i.id;
}

-- `replenishCh` has room for one trigger, and one more is dropped.
abbrev pub trigger : M (Unit {0})
trigger w = (ok tt, record w { triggered = true })

-- Acquire, once the route has been asked for.
abbrev pub acquire_routed : Services → Instance → Result (Unit {0}) → M Instance
acquire_routed x i (err e) = do attempt (release x i.id); fail route_creation_failed
acquire_routed x i (ok _) = do attempt (increment_counter x "acquisitions"); trigger; pure i

-- Acquire, once the expiry has been set.
abbrev pub acquire_expiring : Services → Config → Instance → Result (Unit {0}) → M Instance
acquire_expiring x c i (err e) = do attempt (release x i.id); fail e
acquire_expiring x c i (ok _) = do
  t ← now
  let expiring = expiring_at (t + c.default_ttl) i
  routed ← attempt (add_route x (route_of expiring))
  acquire_routed x expiring routed

unfoldable pub acquire : Services → Config → M Instance
acquire x c = do
  i ← acquire_from_pool x
  set ← attempt (set_instance_ttl x i.id c.default_ttl)
  acquire_expiring x c i set

unfoldable pub stats : Services → Config → M PoolStats
stats x c = do
  s ← get_pool_stats x
  pure (record s { target = c.target_pool_size; capacity = c.max_pool_size })

-- cleanupExpired
unfoldable pub release_all : Services → List Instance → M (Unit {0})
release_all x [] = pure tt
release_all x (i ∷ is) = do attempt (release x i.id); release_all x is

unfoldable pub cleanup_expired : Services → M (Unit {0})
unfolding release_all
cleanup_expired x = do expired ← list_expired x; release_all x expired
