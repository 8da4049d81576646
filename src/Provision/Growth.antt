-- ===== src/Provision/Growth.antt =====
-- What a provisioning does to the queue, whatever faults the commands meet: one that succeeds adds
-- one identifier.
use try_it_now.Base.{ℕ, ◌≡◌, refl, ◌∙◌, ap, subst, String, List, [], ◌∷◌, ◌++◌, arith, inl, inr}
use try_it_now.Domain.{Instance, ready}
use try_it_now.Valkey.{IsDocumented, Keyspace, Key, pool_ready}
use try_it_now.World.{Services, World, Result, Result-cases, ok, err, perform, command}
use try_it_now.World.Reliable.{documented_services, documented_services_lem}
use try_it_now.Store.Queue.{add_to_pool}
use try_it_now.Store.Queue.Fifo.{queued}
use try_it_now.Store.Ports.{allocate_port}
use try_it_now.Pool.{Config}
use try_it_now.Pool.Frames.{allocate_port-KeepsInstances}
use try_it_now.Provision.{
  wait_for_ready, create_container, or_stop, or_release_port, provision_on, provision_instance,
  pool_ready_instance, ready_rounds,
}
use try_it_now.Provision.Frames.{
  keyspace-wait_for_ready, keyspace-create_container, options, named, created, provision_steps,
  provision_fails,
}

-- An addition that succeeds has appended the identifier.
queue_grows :
    (x : Services) (w : World) (i : Instance)
    → (add_to_pool (documented_services x) i w).0 ≡ ok tt
    → queued (add_to_pool (documented_services x) i w).1.keyspace ≡ queued w.keyspace ++ i.id ∷ []
unfolding add_to_pool perform command
queue_grows x w i h = ground arith

add_to_pool_grows :
    (x : Services) (w : World) (i : Instance)
    → IsDocumented x.valkey
    → (add_to_pool x i w).0 ≡ ok tt
    → queued (add_to_pool x i w).1.keyspace ≡ queued w.keyspace ++ i.id ∷ []
add_to_pool_grows x w i d h =
    rw (documented_services_lem x d) (queue_grows x w i (rw (documented_services_lem x d) at h))

-- One more identifier stands at the end of the queue.
pub record Grown (before after : Keyspace) : Type 0 where
  pub added : String
  pub at_end : queued after ≡ queued before ++ added ∷ []

module _ (x : Services) (d : IsDocumented x.valkey) where
  pooled_grows :
      (i : Instance) (w : World) (pooled : Result (Unit {0}))
      → (add_to_pool x (record i { state = ready }) w).0 ≡ pooled
      → (or_stop x i pooled (add_to_pool x (record i { state = ready }) w).1).0 ≡ ok tt
      → Grown w.keyspace
          (or_stop x i pooled (add_to_pool x (record i { state = ready }) w).1).1.keyspace
  pooled_grows i w (err e) got h = ground arith
  pooled_grows i w (ok _) got h = record {
    added = i.id;
    at_end = add_to_pool_grows x w (record i { state = ready }) d got;
  }

  healthy_grows :
      (i : Instance) (w : World) (healthy : Result (Unit {0}))
      → (pool_ready_instance x i healthy w).0 ≡ ok tt
      → Grown w.keyspace (pool_ready_instance x i healthy w).1.keyspace
  healthy_grows i w (err e) h = ground arith
  healthy_grows i w (ok _) h =
      pooled_grows i w (add_to_pool x (record i { state = ready }) w).0 refl h

module _ (x : Services) (d : IsDocumented x.valkey) (c : Config) (port : ℕ) (w : World) where
  pub provision_on_grows :
      (provision_on x c port w).0 ≡ ok tt → Grown w.keyspace (provision_on x c port w).1.keyspace
  unfolding created
  provision_on_grows h = elim (Result-cases (create_container x c (options x c port w) w).0) [
    | inl (i, got) ↦
        let healthy = wait_for_ready ready_rounds x (named x c port w i) (created x c port w) in
        let steps = provision_steps x c port w i got in
        let grown = healthy_grows x d (named x c port w i) healthy.1 healthy.0 (rw steps at h) in
        rw steps (
          subst
            (λ k.
              Grown k (pool_ready_instance x (named x c port w i) healthy.0 healthy.1).1.keyspace)
            (keyspace-wait_for_ready ready_rounds x (named x c port w i) (created x c port w)
              ∙ keyspace-create_container x c (options x c port w) w)
            grown)
    | inr (e, got) ↦ ground (arith, provision_fails x c port w e got)
  ]

provision_grows :
    (x : Services) (d : IsDocumented x.valkey) (c : Config) (w : World) (port : Result ℕ)
    → (allocate_port x w).0 ≡ port
    → (provision_instance x c w).0 ≡ ok tt
    → Grown w.keyspace (provision_instance x c w).1.keyspace
unfolding provision_instance
provision_grows x d c w (err e) got h = ground arith
provision_grows x d c w (ok port) got h =
    let w₁ = (allocate_port x w).1 in
    let steps : provision_instance x c w
        ≡ or_release_port x port (provision_on x c port w₁).0 (provision_on x c port w₁).1 =
      rw (got, provision_instance) refl in
    elim (Result-cases (provision_on x c port w₁).0) [
      | inl (_, done) ↦
          let grown = provision_on_grows x d c port w₁ done in
          let lists = (allocate_port-KeepsInstances x w d).lists in
          rw (steps, done)
            (record {
              added = grown.added;
              at_end =
                  grown.at_end
                  ∙ ap (λ (f : Key → List String). f pool_ready ++ grown.added ∷ []) lists;
            })
      | inr (e, failed) ↦ ground (arith, steps, failed)
    ]

-- A provisioning that reports success has put one more identifier at the end of the queue, whatever
-- faults its commands met.
pub provision_instance-Grown :
    (x : Services) (c : Config) (w : World)
    → IsDocumented x.valkey
    → (provision_instance x c w).0 ≡ ok tt
    → Grown w.keyspace (provision_instance x c w).1.keyspace
provision_instance-Grown x c w d h = provision_grows x d c w (allocate_port x w).0 refl h
