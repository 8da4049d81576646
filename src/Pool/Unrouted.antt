-- ===== src/Pool/Unrouted.antt =====
-- Acquire where the route manager refuses the route: the instance that was taken is released again.
use try_it_now.Base.{
  ℕ, ◌+◌, ◌≡◌, refl, ◌∙◌, ap, String, true, false, none, some, List, ◌∷◌, arith, eq_iff,
}
use try_it_now.Domain.{Instance, Error, failure, route_creation_failed}
use try_it_now.Valkey.{Key, json, pool_ready}
use try_it_now.World.{Services, World, Route, ok, err, perform, query, command}
use try_it_now.World.Reliable.{IsReliable, reliable, reliable_lem}
use try_it_now.Store.Instances.{get_instance}
use try_it_now.Store.Instances.Lookup.{stored}
use try_it_now.Store.Queue.{acquire_from_pool}
use try_it_now.Store.Queue.Fifo.{queued, taken, acquire_from_pool_front}
use try_it_now.Store.Ttl.{set_instance_ttl, expiring_at}
use try_it_now.Store.Ports.Exclusive.{is_available}
use try_it_now.Pool.{Config, acquire, release, add_route, route_of}
use try_it_now.Pool.Frames.{keyspace-add_route}
use try_it_now.Pool.Release.{release-Released}

set_reliable :
    (x : Services) (w : World) (id : String) (ttl : ℕ) (i : Instance)
    → stored id w.keyspace ≡ some (json i)
    → ((set_instance_ttl (reliable x) id ttl w).0 ≡ ok tt)
      × (stored id (set_instance_ttl (reliable x) id ttl w).1.keyspace
          ≡ some (json (expiring_at (w.clock + x.elapsed w.place + ttl) i)))
      × ((set_instance_ttl (reliable x) id ttl w).1.keyspace.lists ≡ w.keyspace.lists)
unfolding set_instance_ttl get_instance perform query command
set_reliable x w id ttl i s = (ground arith, ground (arith, eq_iff id id), ground arith)

set_lem :
    (x : Services)
    → IsReliable x
    → (w : World) (id : String) (ttl : ℕ) (i : Instance) → stored id w.keyspace ≡ some (json i)
    → ((set_instance_ttl x id ttl w).0 ≡ ok tt)
      × (stored id (set_instance_ttl x id ttl w).1.keyspace
          ≡ some (json (expiring_at (w.clock + x.elapsed w.place + ttl) i)))
      × ((set_instance_ttl x id ttl w).1.keyspace.lists ≡ w.keyspace.lists)
set_lem x r w id ttl i s = rw (reliable_lem x r) (set_reliable x w id ttl i s)

add_route_refused :
    (x : Services) (r : Route) (w : World)
    → ((n : ℕ) (route : Route) → x.routes.add_route n route ≡ false)
    → (add_route x r w).0 ≡ err failure
unfolding add_route
add_route_refused x r w down = ground (arith, down w.place r)

-- The steps of a call that gets an instance, an expiry, and no route.
acquire_steps :
    (x : Services) (c : Config) (w : World) (i : Instance) (e : Error)
    → let w₁ = (acquire_from_pool x w).1 in
      let w₂ = (set_instance_ttl x i.id c.default_ttl w₁).1 in
      let route = route_of (expiring_at (w₂.clock + c.default_ttl) i) in
      (acquire_from_pool x w).0 ≡ ok i
      → (set_instance_ttl x i.id c.default_ttl w₁).0 ≡ ok tt
      → (add_route x route w₂).0 ≡ err e
      → acquire x c w ≡ (err route_creation_failed, (release x i.id (add_route x route w₂).1).1)
unfolding acquire
acquire_steps x c w i e got set refused = rw (got, acquire) (rw (set, refused) refl)

-- Where no command is lost and the route manager adds no route, a caller is told so, and the
-- instance at the front of the queue, stored under its own identifier, that was meant for the
-- caller is not kept: it is gone from the store, its port is available, and that identifier alone
-- has left the queue.
pub acquire_unrouted :
    (x : Services) (c : Config) (w : World) (id : String) (rest : List String) (i : Instance)
    → IsReliable x
    → ((n : ℕ) (route : Route) → x.routes.add_route n route ≡ false)
    → queued w.keyspace ≡ id ∷ rest
    → stored id w.keyspace ≡ some (json i)
    → i.id ≡ id
    → ((acquire x c w).0 ≡ err route_creation_failed)
      × (stored id (acquire x c w).1.keyspace ≡ none)
      × (is_available i.port (acquire x c w).1.keyspace ≡ true)
      × (queued (acquire x c w).1.keyspace ≡ rest)
acquire_unrouted x c w id rest i r down q s same =
    let j = taken w.clock i in
    let (got, left, others) = acquire_from_pool_front x w id rest i r q s in
    let w₁ = (acquire_from_pool x w).1 in
    let s₁ : stored i.id w₁.keyspace ≡ some (json j) =
      others i.id ∙ ground (arith, eq_iff id i.id) in
    let (set, s₂, lists) = set_lem x r w₁ i.id c.default_ttl j s₁ in
    let w₂ = (set_instance_ttl x i.id c.default_ttl w₁).1 in
    let route = route_of (expiring_at (w₂.clock + c.default_ttl) j) in
    let w₃ = (add_route x route w₂).1 in
    let kept = keyspace-add_route x w₂ route in
    let (_, released) = release-Released x i.id _ w₃ r (ap (stored i.id) kept ∙ s₂) in
    rw (acquire_steps x c w j failure got set (add_route_refused x route w₂ down)) (
      refl,
      ground (arith, released.gone id, eq_iff i.id id),
      ground (arith, released.available i.port),
      released.queue ∙ ap queued kept ∙ ap (λ (f : Key → List String). f pool_ready) lists ∙ left,
    )
