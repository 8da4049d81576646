-- ===== src/Provision/Stopped.antt =====
-- The container of a provisioning that fails.
use try_it_now.Base.{ℕ, ◌≡◌, String, Bool, List, [], ◌∷◌, ◌++◌, arith}
use try_it_now.Domain.{Instance, ready, Error}
use try_it_now.World.{Services, World, Call, stopped, Result, ok, err, external}
use try_it_now.Store.Queue.{add_to_pool}
use try_it_now.Pool.{Config, stop_container}
use try_it_now.Provision.{
  create_container, wait_for_ready, ready_rounds, or_stop, pool_ready_instance, provision_on,
}
use try_it_now.Provision.Frames.{options, named, created, provision_steps}

-- The last call asks the runtime to stop the container.
abbrev pub EndsStopped : String → List Call → Type 0
EndsStopped id calls =
    (before : List Call) × (answer : Bool) × (calls ≡ before ++ stopped id answer ∷ [])

or_stop-EndsStopped :
    (x : Services) (i : Instance) (r : Result (Unit {0})) (w : World) (e : Error)
    → (or_stop x i r w).0 ≡ err e
    → EndsStopped i.container_id (or_stop x i r w).1.trace
unfolding stop_container external
or_stop-EndsStopped x i (ok _) w e h = ground (arith, h)
or_stop-EndsStopped x i (err f) w e h =
    (w.trace, x.runtime.stop w.place i.container_id, ground arith)

pool_ready-EndsStopped :
    (x : Services) (i : Instance) (healthy : Result (Unit {0})) (w : World) (e : Error)
    → (pool_ready_instance x i healthy w).0 ≡ err e
    → EndsStopped i.container_id (pool_ready_instance x i healthy w).1.trace
pool_ready-EndsStopped x i (err f) w e h = or_stop-EndsStopped x i (err f) w e h
pool_ready-EndsStopped x i (ok _) w e h =
    let pooled = add_to_pool x (record i { state = ready }) w in
    or_stop-EndsStopped x i pooled.0 pooled.1 e h

-- A provisioning that fails after it has got a container, restored or started, asks the runtime last
-- of all to stop this container, whatever it was that failed.
pub provision_on-EndsStopped :
    (x : Services) (c : Config) (port : ℕ) (w : World) (i : Instance) (e : Error)
    → (create_container x c (options x c port w) w).0 ≡ ok i
    → (provision_on x c port w).0 ≡ err e
    → EndsStopped i.container_id (provision_on x c port w).1.trace
unfolding named
provision_on-EndsStopped x c port w i e got h =
    let healthy = wait_for_ready ready_rounds x (named x c port w i) (created x c port w) in
    let steps = provision_steps x c port w i got in
    rw steps (pool_ready-EndsStopped x (named x c port w i) healthy.0 healthy.1 e (rw steps at h))
