-- ===== src/Replenisher/Bounded.antt =====
-- The length of the queue over a provisioning and a replenishment.
use Prim.Native.Nat.{max}
use try_it_now.Base.{
  ℕ, zero, suc, ◌+◌, ◌-◌, ◌≤◌, ◌<◌, ◌≡◌, refl, ◌∙◌, ap, sym, String, [], ◌∷◌, length-append, Bool,
  true, false, Option, none, some, arith, inl, inr,
}
use try_it_now.Domain.{Instance, ready}
use try_it_now.Domain.Stats.{replenishment_needed}
use try_it_now.Valkey.{IsDocumented, Keyspace, json, instance_key, state_set, pool_ready}
use try_it_now.World.{
  Services, World, Result, Result-cases, ok, err, attempt, perform, pure, fail, ◌>>=◌,
}
use try_it_now.Store.Instances.{save_instance}
use try_it_now.Store.Queue.{add_to_pool}
use try_it_now.Store.Ports.{allocate_port, release_port}
use try_it_now.Pool.{Config, stats, stop_container}
use try_it_now.Pool.Frames.{allocate_port-KeepsInstances, keyspace-stop_container}
use try_it_now.Provision.{
  create_container, wait_for_ready, ready_rounds, or_stop, pool_ready_instance, provision_on,
  or_release_port, provision_instance, provision_needed, replenish_round, trigger_replenish,
}
use try_it_now.Provision.Frames.{
  keyspace-wait_for_ready, keyspace-create_container, options, named, created, provision_steps,
  provision_fails,
}
use try_it_now.Provision.Growth.{Grown}
use try_it_now.Provision.Replenish.{
  ready_count, shortage, stats_lem, keyspace-stats, below_target, Round, added, round_lem,
  ready_count-Grown,
}
use try_it_now.Replenisher.{world_of, replenish}
use try_it_now.Replenisher.Effects.{
  AddsAtMost, in_turn, attempted, unmoved, idle, performed, listless, first, release_port_at_most,
}

module _ (x : Services) (d : IsDocumented x.valkey) where
  saved : (i : Instance) → AddsAtMost 0 (save_instance x i)
  unfolding save_instance
  saved i =
      in_turn {m = perform x (x.valkey.set (instance_key i.id) (json i))}
        {f = λ _. perform x (x.valkey.sadd (state_set i.state) i.id)}
        (performed 0 x (x.valkey.set (instance_key i.id) (json i)) (λ ks.
          listless ks (x.valkey.set (instance_key i.id) (json i) ks)
            (ap (λ (v : Keyspace). v.lists) (d.set_lem (instance_key i.id) (json i) ks))))
        (λ _. performed 0 x (x.valkey.sadd (state_set i.state) i.id) (λ ks.
          listless ks (x.valkey.sadd (state_set i.state) i.id ks)
            (ap (λ (v : Keyspace). v.lists) (d.sadd_lem (state_set i.state) i.id ks))))

  pushed :
      (id : String) (ks : Keyspace)
      → ready_count (x.valkey.rpush pool_ready id ks) ≤ 1 + ready_count ks
  pushed id ks =
      rw (d.rpush_lem pool_ready id ks)
        (omega (arith, length-append (ks.lists pool_ready) (id ∷ [])))

  pooled : (i : Instance) → AddsAtMost 1 (add_to_pool x i)
  unfolding add_to_pool
  pooled i =
      in_turn {m = save_instance x (record i { state = ready })}
        {f = λ _. perform x (x.valkey.rpush pool_ready i.id)} (saved (record i { state = ready }))
        (λ _. performed 1 x (x.valkey.rpush pool_ready i.id) (pushed i.id))

  stopped_or_not : (i : Instance) (r : Result (Unit {0})) → AddsAtMost 0 (or_stop x i r)
  stopped_or_not i (ok _) = idle (ok tt)
  stopped_or_not i (err e) =
      first (stop_container x i.container_id) (fail e)
        (unmoved (stop_container x i.container_id)
          (λ w. keyspace-stop_container x w i.container_id))
        (idle (err e))

  offered :
      (i : Instance) (healthy : Result (Unit {0})) → AddsAtMost 1 (pool_ready_instance x i healthy)
  offered i (ok _) =
      in_turn {m = attempt (add_to_pool x (record i { state = ready }))} {f = or_stop x i}
        (attempted {m = add_to_pool x (record i { state = ready })}
          (pooled (record i { state = ready })))
        (stopped_or_not i)
  offered i (err e) = record {
    at_most = λ w. let less = (stopped_or_not i (err e)).at_most w in omega (arith, less);
  }

module _ (x : Services) (d : IsDocumented x.valkey) (c : Config) where
  provisioned_on : (port : ℕ) → AddsAtMost 1 (provision_on x c port)
  unfolding created
  provisioned_on port = record {
    at_most = λ w. elim (Result-cases (create_container x c (options x c port w) w).0) [
      | inl (i, got) ↦
          let healthy = wait_for_ready ready_rounds x (named x c port w i) (created x c port w) in
          let less = (offered x d (named x c port w i) healthy.0).at_most healthy.1 in
          let same = ap ready_count (
            keyspace-wait_for_ready ready_rounds x (named x c port w i) (created x c port w)
            ∙ keyspace-create_container x c (options x c port w) w) in
          rw (provision_steps x c port w i got) (omega (arith, less, same))
      | inr (e, got) ↦
          let same = ap ready_count (keyspace-create_container x c (options x c port w) w) in
          rw (provision_fails x c port w e got) (omega (arith, same))
    ];
  }

  given_back : (port : ℕ) (r : Result (Unit {0})) → AddsAtMost 0 (or_release_port x port r)
  given_back port (ok _) = idle (ok tt)
  given_back port (err e) =
      first (release_port x port) (fail e) (release_port_at_most x d port) (idle (err e))

  allocated : AddsAtMost 0 (allocate_port x)
  allocated = record {
    at_most = λ w.
        listless w.keyspace (allocate_port x w).1.keyspace
          (allocate_port-KeepsInstances x w d).lists;
  }

  provisioned : AddsAtMost 1 (provision_instance x c)
  unfolding provision_instance
  provisioned =
      in_turn {m = allocate_port x}
        {f = λ port. attempt (provision_on x c port) >>= or_release_port x port} allocated
        (λ port.
          in_turn {m = attempt (provision_on x c port)} {f = or_release_port x port}
            (attempted {m = provision_on x c port} (provisioned_on port)) (given_back port))

  needed_at_most :
      (n : ℕ) (w : World)
      → n ≡ shortage c w.keyspace
      → ready_count (provision_needed x c n w).1.keyspace
        ≤ max (ready_count w.keyspace) c.target_pool_size
  needed_at_most zero w short = omega arith
  needed_at_most (suc n) w short =
      let below = below_target c w.keyspace (omega arith) in
      let run =
        in_turn {m = provision_instance x c} {f = λ _. pure true} provisioned
          (λ _. idle (ok true)) in
      let more : ready_count (provision_needed x c (suc n) w).1.keyspace
          ≤ 1 + ready_count w.keyspace =
        run.at_most w in
      omega arith

  round_at_most :
      (w : World)
      → ready_count (replenish_round x c w).1.keyspace
        ≤ max (ready_count w.keyspace) c.target_pool_size
  unfolding replenish_round shortage
  round_at_most w = elim (Result-cases (stats x c w).0) [
    | inl (s, got) ↦
        let same = keyspace-stats x c w in
        let short : replenishment_needed s ≡ shortage c (stats x c w).1.keyspace =
          ap replenishment_needed (stats_lem x c w s d got) ∙ ap (shortage c) (sym same) in
        let more = needed_at_most (replenishment_needed s) (stats x c w).1 short in
        rw (got, replenish_round) (omega (arith, more, ap ready_count same))
    | inr (e, failed) ↦
        rw (failed, replenish_round) (omega (arith, ap ready_count (keyspace-stats x c w)))
  ]

-- It ends, in a world whose queue is no longer than `most`.
abbrev pub EndsWithin : ℕ → Option World → Type 0
EndsWithin most none = ⊥
EndsWithin most (some w) = ready_count w.keyspace ≤ most

EndsWithin-weaker : (a b : ℕ) (r : Option World) → a ≤ b → EndsWithin a r → EndsWithin b r
EndsWithin-weaker a b none le p = p
EndsWithin-weaker a b (some w) le p = omega arith

module _ (x : Services) (d : IsDocumented x.valkey) (c : Config) where
  after_round :
      (fuel : ℕ) (w : World) (again : Result Bool) (after : Keyspace)
      → (replenish_round x c w).0 ≡ again
      → (replenish_round x c w).1.keyspace ≡ after
      → Round c w.keyspace after again
      → ready_count after ≤ max (ready_count w.keyspace) c.target_pool_size
      → (Grown w.keyspace after
          → ready_count w.keyspace < c.target_pool_size
          → EndsWithin
              (max (ready_count after) c.target_pool_size)
              (world_of (trigger_replenish fuel x c (replenish_round x c w).1)))
      → EndsWithin
          (max (ready_count w.keyspace) c.target_pool_size)
          (world_of (trigger_replenish (suc fuel) x c w))
  unfolding trigger_replenish
  after_round fuel w (ok true) after e _ (added short more) most rest =
      let below = below_target c w.keyspace short in
      rw (e, trigger_replenish)
        (EndsWithin-weaker (max (ready_count after) c.target_pool_size)
          (max (ready_count w.keyspace) c.target_pool_size)
          (world_of (trigger_replenish fuel x c (replenish_round x c w).1)) (omega arith)
          (rest more below))
  after_round fuel w (ok false) after e at _ most rest =
      rw (e, trigger_replenish) (omega (arith, ap ready_count at))
  after_round fuel w (err f) after e at _ most rest =
      rw (e, trigger_replenish) (omega (arith, ap ready_count at))

  trigger_ends :
      (fuel : ℕ) (w : World)
      → c.target_pool_size - ready_count w.keyspace < fuel
      → EndsWithin
          (max (ready_count w.keyspace) c.target_pool_size)
          (world_of (trigger_replenish fuel x c w))
  trigger_ends zero w h = absurd (omega arith)
  trigger_ends (suc fuel) w h =
      let w' = (replenish_round x c w).1 in
      after_round fuel w (replenish_round x c w).0 w'.keyspace refl refl (round_lem x d c w)
        (round_at_most x d c w)
        (λ more below. trigger_ends fuel w' (omega (arith, ready_count-Grown more)))

  -- One replenishment leaves a queue that is within the limit there.
  pub replenish_ends :
      (fuel most : ℕ) (w : World)
      → c.target_pool_size < fuel
      → c.target_pool_size ≤ most
      → ready_count w.keyspace ≤ most
      → EndsWithin most (replenish fuel x c w)
  unfolding replenish
  replenish_ends fuel most w h t b =
      EndsWithin-weaker (max (ready_count w.keyspace) c.target_pool_size) most
        (world_of (trigger_replenish fuel x c w)) (omega arith) (trigger_ends fuel w (omega arith))
