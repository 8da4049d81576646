-- ===== src/Provision/Frames.antt =====
-- The steps of a provisioning that leave the server alone, and how the others follow them.
use try_it_now.Base.{
  ℕ, zero, suc, ◌+◌, ◌≡◌, refl, ◌∙◌, ap, ◌*◌, String, Option, none, some, arith, Bool-cases, inl,
  inr,
}
use try_it_now.Base.Text.{◌<>◌}
use try_it_now.Domain.{Instance, Error}
use try_it_now.World.{
  Services, World, Database, StartOptions, Result, ok, err, continue, pure, domain_updated,
  caches_cleared,
}
use try_it_now.Pool.{Config}
use try_it_now.Pool.Frames.{keyspace-external}
use try_it_now.Provision.{
  check_health, wait_for_ready, restore_from_checkpoint, start_container, update_shop, or_start,
  create_container, provision_on, pool_ready_instance, ready_rounds, start_options,
  generate_hostname, generate_db_prefix,
}

pub keyspace-wait_for_ready :
    (rounds : ℕ) (x : Services) (i : Instance) (w : World)
    → (wait_for_ready rounds x i w).1.keyspace ≡ w.keyspace
unfolding wait_for_ready
keyspace-wait_for_ready zero x i w = refl
keyspace-wait_for_ready (suc rounds) x i w =
    ground (arith, keyspace-wait_for_ready rounds x i (check_health x i w).1)

keyspace-start_container :
    (x : Services) (o : StartOptions) (w : World) → (start_container x o w).1.keyspace ≡ w.keyspace
unfolding start_container
keyspace-start_container x o w = ground arith

keyspace-restore :
    (x : Services) (o : StartOptions) (w : World)
    → (restore_from_checkpoint x o w).1.keyspace ≡ w.keyspace
unfolding restore_from_checkpoint
keyspace-restore x o w = ground arith

keyspace-update_shop :
    (x : Services) (db : Option Database) (prefix domain : String) (w : World)
    → (update_shop x db prefix domain w).1.keyspace ≡ w.keyspace
keyspace-update_shop x none prefix domain w = refl
keyspace-update_shop x (some db) prefix domain w =
    keyspace-external x _ (caches_cleared prefix) (λ n. db.clear_caches n prefix)
    ∙ keyspace-external x w (domain_updated prefix) (λ n. db.update_domain n prefix domain)

-- A result that is dropped for another leaves the world alone.
then_pure : {A B : Type 0} (r : Result A) (b : B) (w : World) → (continue r (λ _. pure b) w).1 ≡ w
then_pure (ok a) b w = refl
then_pure (err e) b w = refl

keyspace-or_start :
    (x : Services) (c : Config) (o : StartOptions) (r : Result Instance) (w : World)
    → (or_start x c o r w).1.keyspace ≡ w.keyspace
keyspace-or_start x c o (err e) w = keyspace-start_container x o w
keyspace-or_start x c o (ok i) w =
    let domain = o.hostname <> ("." <> c.base_domain) in
    ap (λ (v : World). v.keyspace)
      (then_pure (update_shop x x.database o.db_prefix domain w).0 i
        (update_shop x x.database o.db_prefix domain w).1)
    ∙ keyspace-update_shop x x.database o.db_prefix domain w

pub keyspace-create_container :
    (x : Services) (c : Config) (o : StartOptions) (w : World)
    → (create_container x c o w).1.keyspace ≡ w.keyspace
unfolding create_container
keyspace-create_container x c o w = elim (Bool-cases x.runtime.criu) [
  | inl has ↦ simp has (
      keyspace-or_start x c o (restore_from_checkpoint x o w).0 (restore_from_checkpoint x o w).1
      ∙ keyspace-restore x o w)
  | inr has_not ↦ simp has_not (keyspace-start_container x o w)
]

module _ (x : Services) (c : Config) (port : ℕ) (w : World) where
  unfoldable pub options : StartOptions
  options =
      start_options port (generate_hostname (x.uuid (2 * w.place)))
        (generate_db_prefix (x.uuid (2 * w.place + 1)))

  unfoldable pub named : Instance → Instance
  named i = record i { hostname = options.hostname; db_prefix = options.db_prefix }

  unfoldable pub created : World
  created = (create_container x c options w).1

  pub provision_steps :
      (i : Instance)
      → (create_container x c options w).0 ≡ ok i
      → provision_on x c port w
        ≡ pool_ready_instance x
            (named i)
            (wait_for_ready ready_rounds x (named i) created).0
            (wait_for_ready ready_rounds x (named i) created).1
  unfolding provision_on options named created start_options
  provision_steps i h = rw (h, provision_on) refl

  pub provision_fails :
      (e : Error)
      → (create_container x c options w).0 ≡ err e
      → provision_on x c port w ≡ (err e, created)
  unfolding provision_on options created
  provision_fails e h = rw (h, provision_on) refl
