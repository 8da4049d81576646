-- ===== src/Tests/Pool.antt =====
-- The theorems about the pool manager at concrete inputs.
use Prim.Native.Nat.{max}
use try_it_now.Provision.Replenish.{ready_count}
use try_it_now.Provision.Stopped.{EndsStopped, provision_on-EndsStopped}
use try_it_now.Provision.Frames.{options}
use try_it_now.Provision.{start_container, start_options, wait_for_ready}
use try_it_now.Replenisher.{on_demand, tick, stop_asked, replenish_loop}
use try_it_now.Replenisher.Bounded.{EndsWithin}
use try_it_now.Replenisher.Loop.{replenish_loop-EndsWithin}
use try_it_now.Base.{ℕ, ◌≡◌, refl, true, false, none, [], ◌∷◌, arith}
use try_it_now.Domain.{Instance, ready, pool_exhausted, route_creation_failed}
use try_it_now.World.{World, ok, err, command, perform, query, Route}
use try_it_now.Tests.Sample.{
  sample_valkey-IsDocumented, sample_instance, calm, calm-IsReliable, unrouted, unrouted-IsReliable,
  sample_world,
}
use try_it_now.Store.Queue.{acquire_from_pool, add_to_pool}
use try_it_now.Store.Ports.{allocate_port}
use try_it_now.Store.Ports.Exclusive.{is_available}
use try_it_now.Store.Queue.Fifo.{queued}
use try_it_now.Store.Instances.Lookup.{stored}
use try_it_now.Store.Ttl.{set_instance_ttl}
use try_it_now.Store.Instances.{move_state}
use try_it_now.Pool.{Config, acquire, release, add_route}
use try_it_now.Pool.Acquire.{Served, acquire-Served}
use try_it_now.Pool.Release.{Released, release-Released, acquire_from_pool-release}
use try_it_now.Pool.Unrouted.{acquire_unrouted}
use try_it_now.Provision.{
  provision_instance, trigger_replenish, provision_on, create_container, wait_for_ready,
}
use try_it_now.World.{Services}
use try_it_now.World.Reliable.{IsReliable}
use try_it_now.Domain.{failure}
use try_it_now.Base.{contains}
use try_it_now.Store.Ports.Exclusive.{is_in_use, IsExclusive}
use try_it_now.Provision.Conserved.{provision_instance_conserves}
use try_it_now.Provision.Replenish.{Replenished, trigger_replenish-Replenished}

abbrev pub sample_config : Config
sample_config = record {
  target_pool_size = 4;
  max_pool_size = 5;
  default_ttl = 3600000000000;
  base_domain = "example.org";
}

abbrev served : Instance
served = elim (acquire calm sample_config sample_world).0 [
  | ok i ↦ i
  | err e ↦ sample_instance "" 0 ready
]

abbrev served_world : World
served_world = (acquire calm sample_config sample_world).1

acquires : acquire calm sample_config sample_world ≡ (ok served, served_world)
unfolding acquire acquire_from_pool command set_instance_ttl query move_state perform add_route
acquires = refl

acquire_example : Served served served_world
acquire_example = acquire-Served calm sample_config sample_world served served_world acquires

release_example :
    ((release calm "b" sample_world).0 ≡ ok tt)
    × Released "b" 2 sample_world.keyspace (release calm "b" sample_world).1.keyspace
release_example =
    release-Released calm "b" (sample_instance "b" 2 ready) sample_world calm-IsReliable refl

release_pooled_example :
    ((acquire_from_pool calm (release calm "a" sample_world).1).0 ≡ err pool_exhausted)
    × (queued (acquire_from_pool calm (release calm "a" sample_world).1).1.keyspace
        ≡ "b" ∷ "a" ∷ [])
release_pooled_example =
    acquire_from_pool-release calm "a" ("b" ∷ []) (sample_instance "a" 1 ready) sample_world
      calm-IsReliable refl refl

no_route : (n : ℕ) (route : Route) → unrouted.routes.add_route n route ≡ false
no_route n route = refl

unrouted_example :
    ((acquire unrouted sample_config sample_world).0 ≡ err route_creation_failed)
    × (stored "a" (acquire unrouted sample_config sample_world).1.keyspace ≡ none)
    × (is_available 1 (acquire unrouted sample_config sample_world).1.keyspace ≡ true)
    × (queued (acquire unrouted sample_config sample_world).1.keyspace ≡ "b" ∷ [])
unrouted_example =
    acquire_unrouted unrouted sample_config sample_world "a" ("b" ∷ [])
      (sample_instance "a" 1 ready) unrouted-IsReliable no_route refl refl refl

pub provisions : (provision_instance calm sample_config sample_world).0 ≡ ok tt
unfolding provision_instance allocate_port command perform provision_on create_container
    wait_for_ready add_to_pool
provisions = refl

replenish_example :
    Replenished sample_config sample_world.keyspace
      (trigger_replenish 3 calm sample_config sample_world)
replenish_example =
    trigger_replenish-Replenished calm sample_config 3 sample_world sample_valkey-IsDocumented
      (omega arith)

replenish_loop_example :
    EndsWithin
      (max (ready_count sample_world.keyspace) sample_config.target_pool_size)
      (replenish_loop 30 calm sample_config (on_demand ∷ tick ∷ stop_asked ∷ []) sample_world)
replenish_loop_example =
    replenish_loop-EndsWithin calm sample_config 30 (on_demand ∷ tick ∷ stop_asked ∷ [])
      sample_world sample_valkey-IsDocumented (omega arith)

-- Every wait is cut short.
abbrev hasty : Services
hasty = record calm { interrupted = λ n. true }

hasty_container :
    (create_container hasty sample_config
      (options hasty sample_config 3 sample_world)
      sample_world).0
    ≡ ok (sample_instance "new" 3 ready)
unfolding create_container options start_container start_options
hasty_container = refl

hasty_failure : (provision_on hasty sample_config 3 sample_world).0 ≡ err failure
unfolding provision_on create_container start_container wait_for_ready
hasty_failure = refl

stopped_example : EndsStopped "c1" (provision_on hasty sample_config 3 sample_world).1.trace
stopped_example =
    provision_on-EndsStopped hasty sample_config 3 sample_world (sample_instance "new" 3 ready)
      failure hasty_container hasty_failure

-- A runtime that starts no container.
abbrev startless : Services
startless = record calm { runtime = record calm.runtime { start = λ n o. none } }

startless-IsReliable : IsReliable startless
startless-IsReliable = record {
  documented_server = sample_valkey-IsDocumented;
  all_delivered = λ n. refl;
}

sample_ports-IsExclusive : IsExclusive sample_world.keyspace
unfolding contains
sample_ports-IsExclusive p = ground arith

starts_nothing : (provision_instance startless sample_config sample_world).0 ≡ err failure
unfolding provision_instance allocate_port command perform provision_on create_container
starts_nothing = refl

conserve_example :
    (is_available 3 (provision_instance startless sample_config sample_world).1.keyspace
      ≡ is_available 3 sample_world.keyspace)
    × (is_in_use 3 (provision_instance startless sample_config sample_world).1.keyspace
        ≡ is_in_use 3 sample_world.keyspace)
conserve_example =
    provision_instance_conserves startless sample_config sample_world failure 3 startless-IsReliable
      sample_ports-IsExclusive starts_nothing
