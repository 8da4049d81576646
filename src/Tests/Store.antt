-- ===== src/Tests/Store.antt =====
-- The theorems about the store at concrete inputs.
use Prim.Native.Nat.{min}
use try_it_now.Base.{
  ℕ, ◌≡◌, refl, String, true, false, List, [], ◌∷◌, ◌++◌, ◌&&◌, arith, if◌then◌else◌, ◌==◌, length,
  eq_iff, contains,
}
use try_it_now.Domain.{Instance, ready, assigned, warming, expired, pool_exhausted}
use try_it_now.Valkey.{Key}
use try_it_now.World.{Services, World, command, perform, ok, err, Fault, delivered, refused}
use try_it_now.Tests.Sample.{
  sample_valkey, sample_valkey-IsDocumented, sample_instance, sample_services, calm,
  calm-IsReliable, sample_keyspace, sample_world, full_world,
}
use try_it_now.Store.Instances.{get_instance, delete_instance, update_state_script, decode}
use try_it_now.Store.Instances.Lookup.{stored, get_instance_lem}
use try_it_now.Store.Instances.Index.{IsIndexed, update_state_script-IsIndexed}
use try_it_now.Store.Queue.{acquire_from_pool}
use try_it_now.Store.Queue.Fifo.{queued, hand_out, hand_out_prefix}
use try_it_now.Store.Queue.Stale.{acquire_from_pool_stale, queued-delete_instance}
use try_it_now.Store.Ports.{allocate_port, release_port, initialize_ports}
use try_it_now.Store.Ports.Exclusive.{is_available, is_in_use, IsExclusive}
use try_it_now.Store.Ports.Effects.{release_port_lem}
use try_it_now.Store.Ports.Initial.{EndsWell, initialize_ports_reissues}

abbrev a_ready : Instance
a_ready = sample_instance "a" 1 ready

abbrev b_ready : Instance
b_ready = sample_instance "b" 2 ready

abbrev c_ready : Instance
c_ready = sample_instance "c" 3 ready

sample-IsIndexed : IsIndexed sample_keyspace
unfolding contains
sample-IsIndexed id warming = ground arith
sample-IsIndexed id ready =
    ground (arith, eq_iff "a" id, eq_iff id "a", eq_iff "b" id, eq_iff id "b")
sample-IsIndexed id assigned = ground arith
sample-IsIndexed id expired = ground arith

get_instance_example :
    ((get_instance calm "a" sample_world).0 ≡ decode (stored "a" sample_world.keyspace))
    × ((get_instance calm "a" sample_world).1.keyspace ≡ sample_world.keyspace)
get_instance_example = get_instance_lem calm sample_world "a" calm-IsReliable

update_state_example :
    IsIndexed (update_state_script sample_valkey assigned "a" 9 sample_keyspace).1
update_state_example =
    update_state_script-IsIndexed sample_valkey assigned "a" 9 sample_keyspace
      sample_valkey-IsDocumented sample-IsIndexed

hand_out_example :
    ((hand_out sample_valkey (5 ∷ []) sample_keyspace).0
        ++ queued (hand_out sample_valkey (5 ∷ []) sample_keyspace).1
      ≡ "a" ∷ "b" ∷ [])
    × (length (hand_out sample_valkey (5 ∷ []) sample_keyspace).0 ≡ min 1 2)
hand_out_example =
    hand_out_prefix sample_valkey (5 ∷ []) sample_keyspace sample_valkey-IsDocumented
      ((a_ready, refl, refl), ((b_ready, refl, refl), tt))

-- The queue begins with an identifier of which nothing is stored.
abbrev stale_lists : Key → List String
stale_lists k = "gone" ∷ "b" ∷ []

abbrev stale_world : World
stale_world = record sample_world { keyspace = record sample_keyspace { lists = stale_lists } }

stale_example :
    ((acquire_from_pool calm stale_world).0 ≡ err pool_exhausted)
    × (queued (acquire_from_pool calm stale_world).1.keyspace ≡ "b" ∷ "gone" ∷ [])
stale_example = acquire_from_pool_stale calm stale_world "gone" ("b" ∷ []) calm-IsReliable refl refl

queued_example :
    queued (delete_instance calm "a" sample_world).1.keyspace ≡ queued sample_world.keyspace
queued_example = queued-delete_instance calm sample_world "a" calm-IsReliable

sample-IsExclusive : IsExclusive sample_keyspace
unfolding contains
sample-IsExclusive p = ground arith

abbrev allocated_world : World
allocated_world = (allocate_port calm sample_world).1

allocates_three : allocate_port calm sample_world ≡ (ok 3, allocated_world)
unfolding allocate_port command perform
allocates_three = refl

release_port_example :
    (is_available 2 (release_port calm 1 sample_world).1.keyspace
      ≡ (if 1 == 2 then true else is_available 2 sample_world.keyspace))
    × (is_in_use 2 (release_port calm 1 sample_world).1.keyspace
        ≡ (if 1 == 2 then false else is_in_use 2 sample_world.keyspace))
release_port_example = release_port_lem calm sample_world 1 2 calm-IsReliable

-- The second command is refused.
abbrev refuse_second : ℕ → Fault
refuse_second n = if n == 1 then refused else delivered

abbrev refusing : Services
refusing = sample_services refuse_second true

initialize_again_example :
    EndsWell
      (λ ks. (is_available 2 ks && is_in_use 2 ks) ≡ true)
      (initialize_ports calm 1 2 full_world)
unfolding contains
initialize_again_example =
    initialize_ports_reissues calm full_world 1 2 2 calm-IsReliable refl (omega arith) (omega arith)
      refl
