-- ===== src/Provision.antt =====
-- internal/pool/impl.go: provisioning an instance, and the loop that fills the pool.
pub mod Frames
pub mod Growth
pub mod Stopped
pub mod Conserved
pub mod Replenish
use try_it_now.Base.{
  ℕ, zero, suc, ◌+◌, ◌*◌, String, Bool, true, false, Option, none, some, List, [], ◌∷◌, ltb, str_eq,
  if◌then◌else◌,
}
use try_it_now.Base.Text.{decimal, first_chars, without_char, ◌<>◌}
use try_it_now.Domain.{Instance, InstanceState, ready, Error, failure}
use try_it_now.Domain.Stats.{PoolStats, replenishment_needed}
use try_it_now.World.{
  Services, World, StartOptions, Database, restored, started, checked, domain_updated,
  caches_cleared, Result, ok, err, M, pure, fail, attempt, now, external, record_call, ◌>>=◌, ◌>>◌,
}
use try_it_now.Store.Queue.{add_to_pool}
use try_it_now.Store.Ports.{allocate_port, release_port}
use try_it_now.Pool.{Config, stop_container, stats}

-- Two identifiers are drawn for each provisioning, at a place of its own.
abbrev pub fresh_uuids : Services → M (String × String)
fresh_uuids x w = (ok (x.uuid (2 * w.place), x.uuid (2 * w.place + 1)), w)

unfoldable pub generate_hostname : String → String
generate_hostname uuid = "demo-" <> uuid

unfoldable pub generate_db_prefix : String → String
unfolding first_chars without_char
generate_db_prefix uuid = "d" <> (without_char b'-' (first_chars 8 uuid) <> "_")

-- The settings of a container that vary; the labels repeat the hostname.
unfoldable pub start_options : ℕ → String → String → StartOptions
start_options port hostname db_prefix = record {
  name = "demo-" <> hostname;
  hostname = hostname;
  port = port;
  db_prefix = db_prefix;
}

abbrev pub answered : Option Instance → M Instance
answered none w = (err failure, w)
answered (some i) w = (ok i, w)

abbrev pub is_answer : Option Instance → Bool
is_answer none = false
is_answer (some i) = true

unfoldable pub restore_from_checkpoint : Services → StartOptions → M Instance
restore_from_checkpoint x o w =
    let answer = x.runtime.restore w.place o in
    answered answer (record_call x (restored o (is_answer answer)) w)

unfoldable pub start_container : Services → StartOptions → M Instance
start_container x o w =
    let answer = x.runtime.start w.place o in
    answered answer (record_call x (started o (is_answer answer)) w)

-- The shop's domain after a restore; failures are only logged.
abbrev pub update_shop : Services → Option Database → String → String → M (Unit {0})
update_shop x none prefix domain = pure tt
update_shop x (some db) prefix domain = do
  attempt (external x (domain_updated prefix) (λ n. db.update_domain n prefix domain))
  attempt (external x (caches_cleared prefix) (λ n. db.clear_caches n prefix))
  pure tt

abbrev pub or_start : Services → Config → StartOptions → Result Instance → M Instance
or_start x c o (err e) = start_container x o
or_start x c o (ok i) = do
  update_shop x x.database o.db_prefix (o.hostname <> ("." <> c.base_domain))
  pure i

-- A restore where the runtime has CRIU, and a cold start where it has not or the restore failed.
unfoldable pub create_container : Services → Config → StartOptions → M Instance
unfolding restore_from_checkpoint start_container
create_container x c o =
    let from_checkpoint = attempt (restore_from_checkpoint x o) >>= or_start x c o in
    if x.runtime.criu then from_checkpoint else start_container x o

unfoldable pub check_health : Services → Instance → M (Option Bool)
check_health x i w =
    let answer = x.runtime.health_check w.place i.container_id in
    (ok answer, record_call x (checked i.container_id answer) w)

-- The ticks of one second that the timer of two minutes leaves room for.
abbrev pub ready_rounds : ℕ
ready_rounds = 120

-- One tick for each round; a check that errs or finds the container unhealthy waits for the next.
unfoldable pub wait_for_ready : ℕ → Services → Instance → M (Unit {0})
unfolding check_health
wait_for_ready zero x i w = (err failure, w)
wait_for_ready (suc rounds) x i w =
    let (answer, w') = check_health x i w in
    elim (x.interrupted w.place) [
      | true ↦ (err failure, w)
      | false ↦ elim (x.runtime.health_check w.place i.container_id) [
        | some true ↦ (ok tt, w')
        | some false ↦ wait_for_ready rounds x i w'
        | none ↦ wait_for_ready rounds x i w'
      ]
    ]

-- The container of an instance that does not reach the pool is stopped.
abbrev pub or_stop : Services → Instance → Result (Unit {0}) → M (Unit {0})
or_stop x i (ok _) = pure tt
or_stop x i (err e) = do attempt (stop_container x i.container_id); fail e

abbrev pub pool_ready_instance : Services → Instance → Result (Unit {0}) → M (Unit {0})
pool_ready_instance x i (err e) = or_stop x i (err e)
pool_ready_instance x i (ok _) = do
  pooled ← attempt (add_to_pool x (record i { state = ready }))
  or_stop x i pooled

-- provisionInstance, once the port is allocated.
unfoldable pub provision_on : Services → Config → ℕ → M (Unit {0})
provision_on x c port = do
  (hostname_uuid, prefix_uuid) ← fresh_uuids x
  let hostname = generate_hostname hostname_uuid
  let db_prefix = generate_db_prefix prefix_uuid
  created ← create_container x c (start_options port hostname db_prefix)
  let i = record created { hostname = hostname; db_prefix = db_prefix }
  healthy ← attempt (wait_for_ready ready_rounds x i)
  pool_ready_instance x i healthy

-- The deferred function: the port goes back unless the instance reached the pool.
abbrev pub or_release_port : Services → ℕ → Result (Unit {0}) → M (Unit {0})
or_release_port x port (ok _) = pure tt
or_release_port x port (err e) = do attempt (release_port x port); fail e

unfoldable pub provision_instance : Services → Config → M (Unit {0})
provision_instance x c = do
  port ← allocate_port x
  result ← attempt (provision_on x c port)
  or_release_port x port result

-- One round of TriggerReplenish: whether to go on.
abbrev pub provision_needed : Services → Config → ℕ → M Bool
provision_needed x c zero = pure false
provision_needed x c (suc n) = do provision_instance x c; pure true

unfoldable pub replenish_round : Services → Config → M Bool
replenish_round x c = do s ← stats x c; provision_needed x c (replenishment_needed s)

-- TriggerReplenish, on fuel; `none` means that the fuel ran out.
unfoldable pub trigger_replenish :
    ℕ → Services → Config → World → Option (Result (Unit {0}) × World)
trigger_replenish zero x c w = none
trigger_replenish (suc fuel) x c w =
    let (again, w') = replenish_round x c w in
    elim again [
      | err e ↦ some (err e, w')
      | ok false ↦ some (ok tt, w')
      | ok true ↦ trigger_replenish fuel x c w'
    ]
