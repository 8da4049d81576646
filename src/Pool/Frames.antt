-- ===== src/Pool/Frames.antt =====
-- What the calls of the pool manager leave alone, whatever faults they meet.
use try_it_now.Base.{ℕ, ◌≡◌, refl, String, Bool, Option, none, some, arith}
use try_it_now.Valkey.{IsDocumented, Keyspace, ports_available}
use try_it_now.World.{
  Services, World, tables_dropped, Call, Database, Route, external, command, perform,
}
use try_it_now.World.Reliable.{documented_services, documented_services_lem}
use try_it_now.Store.Ports.{allocate_port, release_port}
use try_it_now.Pool.{drop_tables, stop_container, remove_route, add_route}

module _ (x : Services) (w : World) where
  pub keyspace-external :
      (c : Bool → Call) (answer : ℕ → Bool) → (external x c answer w).1.keyspace ≡ w.keyspace
  unfolding external
  keyspace-external c answer = ground arith

  pub keyspace-remove_route :
      (hostname : String) → (remove_route x hostname w).1.keyspace ≡ w.keyspace
  unfolding remove_route
  keyspace-remove_route hostname = ground arith

  pub keyspace-add_route : (r : Route) → (add_route x r w).1.keyspace ≡ w.keyspace
  unfolding add_route
  keyspace-add_route r = ground arith

  pub keyspace-stop_container : (id : String) → (stop_container x id w).1.keyspace ≡ w.keyspace
  unfolding stop_container
  keyspace-stop_container id = ground arith

  pub keyspace-drop_tables :
      (db : Option Database) (prefix : String) → (drop_tables x db prefix w).1.keyspace ≡ w.keyspace
  keyspace-drop_tables none prefix = refl
  keyspace-drop_tables (some db) prefix =
      ground
        (arith, keyspace-external (tables_dropped prefix) (λ n. db.drop_prefixed_tables n prefix))

-- The ports are kept apart from the instances and the queue.
pub record KeepsInstances (before after : Keyspace) : Type 0 where
  pub strings : after.strings ≡ before.strings
  pub lists : after.lists ≡ before.lists
  pub sets : after.sets ≡ before.sets

release_documented :
    (x : Services) (w : World) (port : ℕ)
    → KeepsInstances w.keyspace (release_port (documented_services x) port w).1.keyspace
unfolding release_port perform command
release_documented x w port = record {
  strings = ground arith;
  lists = ground arith;
  sets = ground arith;
}

pub release_port-KeepsInstances :
    (x : Services) (w : World) (port : ℕ)
    → IsDocumented x.valkey
    → KeepsInstances w.keyspace (release_port x port w).1.keyspace
release_port-KeepsInstances x w port d =
    rw (documented_services_lem x d) (release_documented x w port)

allocate_documented :
    (x : Services) (d : IsDocumented x.valkey) (w : World)
    → KeepsInstances w.keyspace (allocate_port (documented_services x) w).1.keyspace
unfolding allocate_port perform command
allocate_documented x d w = record {
  strings = ground (arith, d.port_spop_lem ports_available w.keyspace);
  lists = ground (arith, d.port_spop_lem ports_available w.keyspace);
  sets = ground (arith, d.port_spop_lem ports_available w.keyspace);
}

pub allocate_port-KeepsInstances :
    (x : Services) (w : World)
    → IsDocumented x.valkey
    → KeepsInstances w.keyspace (allocate_port x w).1.keyspace
allocate_port-KeepsInstances x w d = rw (documented_services_lem x d) (allocate_documented x d w)
