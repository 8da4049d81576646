-- ===== src/Pool/Acquire.antt =====
-- Acquire: what a caller that gets an instance can rely on, and what becomes of one that it does not
-- get.
use try_it_now.Base.{ℕ, ◌+◌, ◌≡◌, refl, String, true, some, List, [], ◌∷◌, ◌++◌, arith}
use try_it_now.Domain.{Instance, unix}
use try_it_now.World.{Services, World, Route, Result, ok, err, Call, route_added, perform, command}
use try_it_now.Store.Queue.{acquire_from_pool}
use try_it_now.Store.Ttl.{set_instance_ttl, expiring_at}
use try_it_now.Store.Totals.{increment_counter}
use try_it_now.Pool.{Config, acquire, add_route, route_of, acquire_expiring, acquire_routed}

trace-add_route :
    (x : Services) (r : Route) (w : World)
    → (add_route x r w).0 ≡ ok tt
    → (add_route x r w).1.trace ≡ w.trace ++ route_added r true ∷ []
unfolding add_route
trace-add_route x r w h = ground arith

trace-increment_counter :
    (x : Services) (name : String) (w : World) → (increment_counter x name w).1.trace ≡ w.trace
unfolding increment_counter perform command
trace-increment_counter x name w = ground arith

-- What a caller that is given the instance `i` can rely on in the world `w`.
pub record Served (i : Instance) (w : World) : Type 0 where
  pub expiry : ℕ
  pub expires : i.expires_at ≡ some expiry
  pub expires_unix : i.expires_at_unix ≡ unix expiry
  pub earlier : List Call
  pub routed : w.trace ≡ earlier ++ route_added (route_of i) true ∷ []
  pub replenishing : w.triggered ≡ true

module _ (x : Services) (c : Config) where
  acquire_routed-Served :
      (i : Instance) (t : ℕ) (w : World) (j : Instance) (w' : World) (routed : Result (Unit {0}))
      → (add_route x (route_of (expiring_at t i)) w).0 ≡ routed
      → acquire_routed x (expiring_at t i) routed (add_route x (route_of (expiring_at t i)) w).1
        ≡ (ok j, w')
      → Served j w'
  acquire_routed-Served i t w j w' (err e) got h = ground arith
  acquire_routed-Served i t w j w' (ok _) got h = record {
    expiry = t;
    expires = ground arith;
    expires_unix = ground arith;
    earlier = w.trace;
    routed = ground (
      arith,
      trace-increment_counter x "acquisitions" (add_route x (route_of (expiring_at t i)) w).1,
      trace-add_route x (route_of (expiring_at t i)) w,
    );
    replenishing = ground arith;
  }

  acquire_expiring-Served :
      (i : Instance) (w : World) (j : Instance) (w' : World) (set : Result (Unit {0}))
      → acquire_expiring x c i set w ≡ (ok j, w')
      → Served j w'
  acquire_expiring-Served i w j w' (err e) h = ground arith
  acquire_expiring-Served i w j w' (ok _) h =
      acquire_routed-Served i (w.clock + c.default_ttl) w j w' _ refl h

  acquire-found :
      (w : World) (j : Instance) (w' : World) (got : Result Instance)
      → (acquire_from_pool x w).0 ≡ got
      → acquire x c w ≡ (ok j, w')
      → Served j w'
  unfolding acquire
  acquire-found w j w' (err e) g h = ground arith
  acquire-found w j w' (ok i) g h =
      let w₁ = (acquire_from_pool x w).1 in
      acquire_expiring-Served i (set_instance_ttl x i.id c.default_ttl w₁).1 j w'
        (set_instance_ttl x i.id c.default_ttl w₁).0 (rw (g, acquire) at h)

-- Whatever faults the commands meet and whatever the services answer: a caller that is given an
-- instance is given one with an expiry, the last call made was that of the route manager that added
-- its route, and a replenishment is triggered.
pub acquire-Served :
    (x : Services) (c : Config) (w : World) (i : Instance) (w' : World)
    → acquire x c w ≡ (ok i, w')
    → Served i w'
acquire-Served x c w i w' h = acquire-found x c w i w' (acquire_from_pool x w).0 refl h
