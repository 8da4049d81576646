-- ===== src/Provision/Conserved.antt =====
-- A provisioning that fails gives its port back, where no command is lost.
use try_it_now.Base.{ℕ, List, ◌≡◌, refl, ◌∙◌, ap, sym, Option-cases, inl, inr, arith}
use try_it_now.Domain.{Instance, Error, ready}
use try_it_now.Valkey.{Keyspace, Key, ports_available, ports_in_use, ports_contain}
use try_it_now.World.{Services, World, Result, Result-cases, ok, err, command, perform}
use try_it_now.World.Reliable.{IsReliable, reliable, reliable_lem}
use try_it_now.Store.Queue.{add_to_pool}
use try_it_now.Store.Ports.{allocate_port, release_port}
use try_it_now.Store.Ports.Exclusive.{is_available, is_in_use, IsExclusive}
use try_it_now.Store.Ports.Effects.{allocate_port-Moved, release_port_lem}
use try_it_now.Pool.{Config}
use try_it_now.Pool.Frames.{keyspace-stop_container}
use try_it_now.Provision.{
  create_container, wait_for_ready, ready_rounds, or_stop, pool_ready_instance, provision_on,
  provision_instance,
}
use try_it_now.Provision.Frames.{
  keyspace-wait_for_ready, keyspace-create_container, options, named, created, provision_steps,
  provision_fails,
}

abbrev port_sets_of : World → Key → List ℕ
port_sets_of w = w.keyspace.port_sets

add_keeps_ports :
    (x : Services) (w : World) (i : Instance)
    → port_sets_of (add_to_pool (reliable x) i w).1 ≡ port_sets_of w
unfolding add_to_pool perform command
add_keeps_ports x w i = ground arith

keyspace-or_stop :
    (x : Services) (i : Instance) (result : Result (Unit {0})) (w : World)
    → (or_stop x i result w).1.keyspace ≡ w.keyspace
keyspace-or_stop x i (ok _) w = refl
keyspace-or_stop x i (err e) w = keyspace-stop_container x w i.container_id

module _ (x : Services) (r : IsReliable x) where
  pooled_keeps_ports :
      (i : Instance) (healthy : Result (Unit {0})) (w : World)
      → port_sets_of (pool_ready_instance x i healthy w).1 ≡ port_sets_of w
  pooled_keeps_ports i (err e) w =
      ap (λ (k : Keyspace). k.port_sets) (keyspace-or_stop x i (err e) w)
  pooled_keeps_ports i (ok _) w =
      let (pooled, w₁) = add_to_pool x (record i { state = ready }) w in
      let added : port_sets_of w₁ ≡ port_sets_of w =
        rw (reliable_lem x r) (add_keeps_ports x w (record i { state = ready })) in
      ap (λ (k : Keyspace). k.port_sets) (keyspace-or_stop x i pooled w₁) ∙ added

  provision_on_keeps_ports :
      (c : Config) (port : ℕ) (w : World)
      → port_sets_of (provision_on x c port w).1 ≡ port_sets_of w
  unfolding created
  provision_on_keeps_ports c port w =
      let start = options x c port w in
      let made = ap (λ (k : Keyspace). k.port_sets) (keyspace-create_container x c start w) in
      elim (Result-cases (create_container x c start w).0) [
        | inl (i, got) ↦
            let j = named x c port w i in
            let (healthy, w₁) = wait_for_ready ready_rounds x j (created x c port w) in
            let waited =
              ap (λ (k : Keyspace). k.port_sets)
                (keyspace-wait_for_ready ready_rounds x j (created x c port w)) in
            rw (provision_steps x c port w i got) (pooled_keeps_ports j healthy w₁ ∙ waited ∙ made)
        | inr (e, got) ↦ rw (provision_fails x c port w e got) made
      ]

  no_port_taken :
      (e : Error) (w : World)
      → (allocate_port (reliable x) w).0 ≡ err e
      → (allocate_port (reliable x) w).1.keyspace.port_sets ≡ w.keyspace.port_sets
  unfolding allocate_port command perform
  no_port_taken e w h = elim (Option-cases (x.valkey.port_spop ports_available w.keyspace).0) [
    | inl n ↦ ground (arith, r.documented_server.port_spop_lem ports_available w.keyspace)
    | inr (p, n) ↦ ground arith
  ]

-- The port is available again and not in use, after a failure with it.
given_back :
    (x : Services) (w : World) (p q : ℕ) (w' w'' : World)
    → IsReliable x
    → IsExclusive w.keyspace
    → allocate_port x w ≡ (ok p, w')
    → port_sets_of w'' ≡ port_sets_of w'
    → (is_available q (release_port x p w'').1.keyspace ≡ is_available q w.keyspace)
      × (is_in_use q (release_port x p w'').1.keyspace ≡ is_in_use q w.keyspace)
given_back x w p q w' w'' r ex h same =
    let moved = allocate_port-Moved x w p w' r h in
    let (free, used) = release_port_lem x w'' p q r in
    let free_same = ap (λ f. ports_contain q (f ports_available)) same in
    let used_same = ap (λ f. ports_contain q (f ports_in_use)) same in
    ground (
      arith,
      moved.was_available,
      moved.available q,
      moved.in_use q,
      ex q,
      free,
      used,
      free_same,
      used_same,
    )

provision_conserves :
    (x : Services) (c : Config) (w : World) (e : Error) (q : ℕ) (port : Result ℕ) (w' : World)
    → IsReliable x
    → IsExclusive w.keyspace
    → allocate_port x w ≡ (port, w')
    → (provision_instance x c w).0 ≡ err e
    → (is_available q (provision_instance x c w).1.keyspace ≡ is_available q w.keyspace)
      × (is_in_use q (provision_instance x c w).1.keyspace ≡ is_in_use q w.keyspace)
unfolding provision_instance
provision_conserves x c w e q (err f) w' r ex got h =
    let none_taken : port_sets_of (allocate_port x w).1 ≡ port_sets_of w =
      rw (reliable_lem x r)
        (no_port_taken x r f w (ap (λ s. s.0) (rw (reliable_lem x r) at got))) in
    let same : port_sets_of w' ≡ port_sets_of w =
      ap (λ s. port_sets_of s.1) (sym got) ∙ none_taken in
    rw (got, provision_instance)
      (
        ap (λ g. ports_contain q (g ports_available)) same,
        ap (λ g. ports_contain q (g ports_in_use)) same,
      )
provision_conserves x c w e q (ok p) w' r ex got h = elim (Result-cases (provision_on x c p w').0) [
  | inl (_, done) ↦ ground (arith, got, done)
  | inr (f, failed) ↦
      let w'' = (provision_on x c p w').1 in
      let back = given_back x w p q w' w'' r ex got (provision_on_keeps_ports x r c p w') in
      rw (got, failed, provision_instance) back
]

-- Where no command is lost and no port is both available and in use, a provisioning that fails, for
-- whatever reason, leaves every port as it was: available, in use or neither.
pub provision_instance_conserves :
    (x : Services) (c : Config) (w : World) (e : Error) (q : ℕ)
    → IsReliable x
    → IsExclusive w.keyspace
    → (provision_instance x c w).0 ≡ err e
    → (is_available q (provision_instance x c w).1.keyspace ≡ is_available q w.keyspace)
      × (is_in_use q (provision_instance x c w).1.keyspace ≡ is_in_use q w.keyspace)
provision_instance_conserves x c w e q r ex h =
    provision_conserves x c w e q (allocate_port x w).0 (allocate_port x w).1 r ex refl h
