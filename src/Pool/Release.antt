-- ===== src/Pool/Release.antt =====
-- Release takes an instance out of the store and gives its port back, whatever the runtime, the
-- route manager and the database answer. It does not take the identifier out of the queue.
use try_it_now.Base.{
  ℕ, ◌≡◌, refl, ◌∙◌, ap, subst, String, true, false, Option, none, some, List, [], ◌∷◌, ◌++◌, arith,
  if◌then◌else◌, ◌==◌, str_eq, eq_iff,
}
use try_it_now.Domain.{Instance, instance_not_found, pool_exhausted}
use try_it_now.Valkey.{Keyspace, Key, Value, json, instance_key, pool_ready}
use try_it_now.World.{Services, World, ok, err, perform, query, command}
use try_it_now.World.Reliable.{IsReliable, reliable, reliable_lem}
use try_it_now.Store.Instances.{get_instance, delete_instance, decode}
use try_it_now.Store.Instances.Lookup.{stored, get_instance_lem}
use try_it_now.Store.Ports.{release_port}
use try_it_now.Store.Ports.Exclusive.{is_available, is_in_use}
use try_it_now.Store.Ports.Effects.{release_port_lem}
use try_it_now.Store.Queue.{acquire_from_pool}
use try_it_now.Store.Queue.Fifo.{queued}
use try_it_now.Store.Queue.Stale.{queued-delete_instance, acquire_from_pool_stale}
use try_it_now.Pool.{release, clean_up, drop_tables, stop_container, remove_route}
use try_it_now.Pool.Frames.{
  keyspace-remove_route, keyspace-stop_container, keyspace-drop_tables, release_port-KeepsInstances,
}

-- The world once the route, the tables and the container have been asked to go.
before_port : Services → Instance → World → World
before_port x i w =
    (stop_container x i.container_id
      (drop_tables x x.database i.db_prefix (remove_route x i.hostname w).1).1).1

keyspace-before_port :
    (x : Services) (i : Instance) (w : World) → (before_port x i w).keyspace ≡ w.keyspace
unfolding before_port
keyspace-before_port x i w =
    keyspace-stop_container x _ i.container_id
    ∙ keyspace-drop_tables x _ x.database i.db_prefix
    ∙ keyspace-remove_route x w i.hostname

clean_up_steps :
    (x : Services) (id : String) (i : Instance) (w : World)
    → clean_up x id i w ≡ delete_instance x id (release_port x i.port (before_port x i w)).1
unfolding clean_up before_port
clean_up_steps x id i w = refl

release_steps :
    (x : Services) (id : String) (i : Instance) (w : World)
    → (get_instance x id w).0 ≡ ok i
    → release x id w ≡ clean_up x id i (get_instance x id w).1
unfolding release
release_steps x id i w h = rw (h, release) refl

-- The instance is gone, its port is available again, and nothing else has changed among the
-- instances, the ports and the queue.
pub record Released (id : String) (port : ℕ) (before after : Keyspace) : Type 0 where
  pub gone :
      (other : String)
      → stored other after ≡ (if str_eq id other then none else stored other before)
  pub available :
      (p : ℕ) → is_available p after ≡ (if port == p then true else is_available p before)
  pub in_use : (p : ℕ) → is_in_use p after ≡ (if port == p then false else is_in_use p before)
  pub queue : queued after ≡ queued before

delete_reliable :
    (x : Services) (w : World) (id : String) (i : Instance)
    → stored id w.keyspace ≡ some (json i)
    → ((delete_instance (reliable x) id w).0 ≡ ok tt)
      × ((other : String)
          → stored other (delete_instance (reliable x) id w).1.keyspace
            ≡ (if str_eq id other then none else stored other w.keyspace))
      × ((delete_instance (reliable x) id w).1.keyspace.port_sets ≡ w.keyspace.port_sets)
unfolding delete_instance perform query command
delete_reliable x w id i s = (ground arith, λ other. ground (arith, eq_iff id other), ground arith)

delete_lem :
    (x : Services)
    → IsReliable x
    → (w : World) (id : String) (i : Instance) → stored id w.keyspace ≡ some (json i)
    → ((delete_instance x id w).0 ≡ ok tt)
      × ((other : String)
          → stored other (delete_instance x id w).1.keyspace
            ≡ (if str_eq id other then none else stored other w.keyspace))
      × ((delete_instance x id w).1.keyspace.port_sets ≡ w.keyspace.port_sets)
delete_lem x r w id i s = rw (reliable_lem x r) (delete_reliable x w id i s)

module _ (x : Services) (r : IsReliable x) (id : String) (i : Instance) (w : World) where
  clean_up_lem :
      stored id w.keyspace ≡ some (json i)
      → ((clean_up x id i w).0 ≡ ok tt)
        × Released id i.port w.keyspace (clean_up x id i w).1.keyspace
  clean_up_lem s =
      let w₁ = before_port x i w in
      let w₂ = (release_port x i.port w₁).1 in
      let same = keyspace-before_port x i w in
      let kept = release_port-KeepsInstances x w₁ i.port r.documented_server in
      let strings : w₂.keyspace.strings ≡ w.keyspace.strings =
        kept.strings ∙ ap (λ (k : Keyspace). k.strings) same in
      let at = λ (j : String). ap (λ (f : Key → Option Value). f (instance_key j)) strings in
      let ports_at = λ (p : ℕ). release_port_lem x w₁ i.port p r in
      let (done, gone, ports) = delete_lem x r w₂ id i (at id ∙ s) in
      rw (clean_up_steps x id i w) (
        done,
        record {
          gone = λ other. gone other ∙ ap (λ t. if str_eq id other then none else t) (at other);
          available = λ p. rw ports ((ports_at p).0 ∙ rw same refl);
          in_use = λ p. rw ports ((ports_at p).1 ∙ rw same refl);
          queue =
              queued-delete_instance x w₂ id r
              ∙ ap (λ (f : Key → List String). f pool_ready) kept.lists
              ∙ ap queued same;
        },
      )

-- Where no command is lost: releasing a stored instance succeeds, whatever the runtime, the route
-- manager and the database answer: the instance is gone from the store, its port is available and
-- no longer in use, and no other instance, no other port and nothing in the queue has changed.
pub release-Released :
    (x : Services) (id : String) (i : Instance) (w : World)
    → IsReliable x
    → stored id w.keyspace ≡ some (json i)
    → ((release x id w).0 ≡ ok tt) × Released id i.port w.keyspace (release x id w).1.keyspace
release-Released x id i w r s =
    let (got, same) = get_instance_lem x w id r in
    let w' = (get_instance x id w).1 in
    rw (release_steps x id i w (got ∙ ap decode s)) (
      subst
        (λ k.
          ((clean_up x id i w').0 ≡ ok tt) × Released id i.port k (clean_up x id i w').1.keyspace)
        same (clean_up_lem x r id i w' (ap (stored id) same ∙ s)))

release_missing_reliable :
    (x : Services) (id : String) (w : World)
    → stored id w.keyspace ≡ none
    → ((release (reliable x) id w).0 ≡ err instance_not_found)
      × ((release (reliable x) id w).1.keyspace ≡ w.keyspace)
      × ((release (reliable x) id w).1.trace ≡ w.trace)
unfolding release get_instance query command
release_missing_reliable x id w s = ground arith

-- Where no command is lost: releasing an instance that is not stored is an error, and nothing is
-- changed and no call is made to the runtime, the route manager or the database: a second release
-- of one instance is harmless.
pub release_missing :
    (x : Services) (id : String) (w : World)
    → IsReliable x
    → stored id w.keyspace ≡ none
    → ((release x id w).0 ≡ err instance_not_found)
      × ((release x id w).1.keyspace ≡ w.keyspace)
      × ((release x id w).1.trace ≡ w.trace)
release_missing x id w r s = rw (reliable_lem x r) (release_missing_reliable x id w s)

-- Where no command is lost: releasing the instance at the front of the queue leaves its identifier
-- there: the next caller is told that the pool is exhausted, whatever waits behind it, and the
-- identifier goes to the back.
pub acquire_from_pool-release :
    (x : Services) (id : String) (rest : List String) (i : Instance) (w : World)
    → IsReliable x
    → stored id w.keyspace ≡ some (json i)
    → queued w.keyspace ≡ id ∷ rest
    → ((acquire_from_pool x (release x id w).1).0 ≡ err pool_exhausted)
      × (queued (acquire_from_pool x (release x id w).1).1.keyspace ≡ rest ++ id ∷ [])
acquire_from_pool-release x id rest i w r s q =
    let (_, released) = release-Released x id i w r s in
    acquire_from_pool_stale x (release x id w).1 id rest r (released.queue ∙ q)
      (ground (arith, released.gone id, eq_iff id id))
