-- ===== src/Container/Podman/Refines.antt =====
-- The Podman runtime against the contract of Container.Contract (podman.go).
use try_it_now.Base.{
  ℕ, ◌≡◌, ◌≢◌, ◌<◌, refl, String, Bool, true, false, none, some, arith, Bool-cases, Option-cases,
  inl, inr,
}
use try_it_now.Domain.{Instance}
use try_it_now.World.{StartOptions, ok}
use try_it_now.Container.{
  ContainerOptions, Setup, inspect_container, health_check, Boxes, Outcome, done_well,
  no_such_container, failed, Report, inspected, Network, ShopConfig, new_instance,
}
use try_it_now.Container.Contract.{
  IsDocumented, AsAsked, Abilities, IsRuntime, OnlyAt, Started, restored_setup,
}
use try_it_now.Container.Starts.{
  create_and_start-Started, create_and_start_succeeds, create_and_start_keeps, health_check-Healthy,
  health_check-Unhealthy, health_check_succeeds,
}
use try_it_now.Container.Podman.{
  Podman, RestoreSpec, restore_spec, restored, u16, podman_spec, podman_start, podman_restore,
  podman_stop, podman_removed, podman_inspect, podman_health_check, podman_runtime,
}
use try_it_now.Container.Podman.Environment.{podman_setup, podman_env-sets}

-- Podman behaves as documented: its engine does, and what it restores is new and runs, and is the
-- container of the checkpoint under the name and at the port that it is given.
pub record IsPodman (checkpoint : Setup) (p : Podman) : Type 0 where
  pub documented_engine : IsDocumented podman_setup p.engine
  pub restore_makes :
      (n : ℕ) (s : RestoreSpec) (boxes : Boxes) (id : String)
      → (p.restore n s boxes).0 ≡ some id
      → (boxes id ≡ none)
        × ((p.restore n s boxes).1 id
            ≡ some (record {
              running = true;
              setup = record checkpoint { published = s.publish_port; name = s.container_name };
            }))

outcome_gone :
    (id : String) (o : Outcome) (boxes : Boxes)
    → (o ≢ failed → boxes id ≡ none)
    → (podman_removed (o, boxes)).0 ≡ ok tt
    → (podman_removed (o, boxes)).1 id ≡ none
outcome_gone id failed boxes gone h = ground (arith, h)
outcome_gone id done_well boxes gone h = gone (λ e. ground (arith, e))
outcome_gone id no_such_container boxes gone h = gone (λ e. ground (arith, e))

module _ (checkpoint : Setup) (p : Podman) (d : IsPodman checkpoint p) (net : Network) (n : ℕ) where
  restored_lem :
      (o : StartOptions) (boxes : Boxes) (i : Instance) (id : String)
      → (p.restore n (restore_spec net n o) boxes).0 ≡ some id
      → (restored net n o (some id, (p.restore n (restore_spec net n o) boxes).1)).0 ≡ ok i
      → Started o i
          (restored_setup net n checkpoint o)
          boxes
          (restored net n o (some id, (p.restore n (restore_spec net n o) boxes).1)).1
  restored_lem o boxes i id made h =
      let (fresh, runs) = d.restore_makes n (restore_spec net n o) boxes id made in
      record {
        same_port = ground (arith, h);
        same_hostname = ground (arith, h);
        same_prefix = ground (arith, h);
        is_warming = ground (arith, h);
        was_new = ground (arith, h, fresh);
        runs = ground (arith, h, runs);
      }

  restore-Started :
      (criu : Bool) (o : StartOptions) (boxes : Boxes) (i : Instance)
      → (podman_restore criu p net n o boxes).0 ≡ ok i
      → (criu ≡ true)
        × Started o i
            (restored_setup net n checkpoint o)
            boxes
            (podman_restore criu p net n o boxes).1
  unfolding podman_restore
  restore-Started false o boxes i h = ground (arith, h)
  restore-Started true o boxes i h = elim (Bool-cases (p.has_checkpoint n)) [
    | inl there ↦ elim (Option-cases (p.restore n (restore_spec net n o) boxes).0) [
      | inl not_made ↦ ground (arith, there, not_made, h)
      | inr (id, made) ↦ (
        refl,
        rw (there, made, podman_restore)
            (restored_lem o boxes i id made (rw (there, made, podman_restore) at h)),
      )
    ]
    | inr missing ↦ ground (arith, missing, h)
  ]

  stopped_gone :
      (id : String) (boxes : Boxes)
      → (podman_stop p n id boxes).0 ≡ ok tt
      → (podman_stop p n id boxes).1 id ≡ none
  unfolding podman_stop
  stopped_gone id boxes h =
      let stopped = (p.engine.stop n id boxes).1 in
      outcome_gone id (p.engine.remove n id stopped).0 (p.engine.remove n id stopped).1
        (d.documented_engine.remove_removes n id stopped) h

  stopped_only : (id : String) (boxes : Boxes) → OnlyAt id boxes (podman_stop p n id boxes).1
  unfolding podman_stop
  stopped_only id boxes other differ = ground (
    arith,
    d.documented_engine.stop_only n id boxes other differ,
    d.documented_engine.remove_only n id (p.engine.stop n id boxes).1 other differ,
  )

restore_succeeds_lem :
    (p : Podman) (net : Network) (n : ℕ) (criu : Bool) (o : StartOptions) (boxes : Boxes)
    (id : String)
    → criu ≡ true
    → p.has_checkpoint n ≡ true
    → (p.restore n (restore_spec net n o) boxes).0 ≡ some id
    → (i : Instance) × ((podman_restore criu p net n o boxes).0 ≡ ok i)
unfolding podman_restore
restore_succeeds_lem p net n criu o boxes id on there made =
    (new_instance net n id o, rw (on, there, made) refl)

stop_succeeds_lem :
    (p : Podman) (n : ℕ) (id : String) (boxes : Boxes)
    → (p.engine.remove n id (p.engine.stop n id boxes).1).0 ≢ failed
    → (podman_stop p n id boxes).0 ≡ ok tt
unfolding podman_stop
stop_succeeds_lem p n id boxes removes =
    after_removal (p.engine.remove n id (p.engine.stop n id boxes).1).0
      (p.engine.remove n id (p.engine.stop n id boxes).1).1 removes
  where
    after_removal : (o : Outcome) (left : Boxes) → o ≢ failed → (podman_removed (o, left)).0 ≡ ok tt
    after_removal failed left h = absurd (h refl)
    after_removal done_well left h = refl
    after_removal no_such_container left h = refl

-- A port that fits into 16 bits is the one that is published.
u16_fits : (n : ℕ) → n < 65536 → u16 n ≡ n
u16_fits n h = omega arith

podman_spec-AsAsked :
    (c : ShopConfig) (o : ContainerOptions)
    → o.common.port < 65536
    → AsAsked c o (podman_setup (podman_spec c o))
unfolding podman_spec podman_setup
podman_spec-AsAsked c o fits = record {
  port = u16_fits o.common.port fits;
  image = refl;
  name = refl;
  hostname = refl;
  labels = refl;
  network = refl;
  environment = podman_env-sets c o;
}

-- The engine creates the container and it starts; the checkpoint is there and is restored; a removal
-- fails at nothing but a container that is not there; and the container is there for an inspection.
abbrev pub podman_abilities : Podman → ShopConfig → Network → Abilities
podman_abilities p c net = record {
  can_start = λ n o boxes.
      (id : String) × ((p.engine.create n (podman_spec c o) boxes).0 ≡ some id)
      × ((p.engine.start n id (p.engine.create n (podman_spec c o) boxes).1).0 ≡ true);
  can_restore = λ n o boxes.
      (id : String) × (p.has_checkpoint n ≡ true)
      × ((p.restore n (restore_spec net n o) boxes).0 ≡ some id);
  can_stop = λ n id boxes. (p.engine.remove n id (p.engine.stop n id boxes).1).0 ≢ failed;
  can_inspect = λ n id boxes. (r : Report) × (p.engine.inspect n id boxes ≡ inspected r);
}

-- Where Podman behaves as documented, the Podman runtime keeps the contract of a runtime. What it
-- reports as started, at a port below 65536, is new, runs, and has the image, name, hostname, port,
-- labels and network that are asked for, and an environment with every setting of the options and, for
-- a key that they leave out, the shop's. What it reports as restored is new, runs, and has the port
-- that is asked for and the name with the time, but all else of the checkpoint, the environment
-- included. A start leaves every container that was there as it was. A stop that succeeds has removed
-- its container, and no stop touches another. A check that finds a container healthy has found it
-- running, with a port that accepts and answers with a status from 200 to 499; one that does not has
-- not, if the container runs. A start, a restore, a stop and a check succeed where Podman does what
-- they ask of it.
pub podman_runtime-IsRuntime :
    (criu : Bool) (p : Podman) (c : ShopConfig) (net : Network) (checkpoint : Setup)
    → IsPodman checkpoint p
    → IsRuntime c net checkpoint (podman_abilities p c net) (podman_runtime criu p c net)
unfolding podman_start podman_health_check podman_inspect health_check inspect_container
podman_runtime-IsRuntime criu p c net checkpoint d = record {
  starts = λ n o boxes i fits h. (
    podman_setup (podman_spec c o),
    podman_spec-AsAsked c o fits,
    create_and_start-Started podman_setup p.engine d.documented_engine net n o.common
        (podman_spec c o) boxes i h,
  );
  start_succeeds = λ n o boxes able.
      create_and_start_succeeds podman_setup p.engine d.documented_engine net n o.common
        (podman_spec c o) boxes able.0 able.1 able.2;
  restores = λ n o boxes i h. restore-Started checkpoint p d net n criu o boxes i h;
  restore_succeeds =
      λ n o boxes on able. restore_succeeds_lem p net n criu o boxes able.0 on able.1 able.2;
  start_keeps = λ n o boxes id there.
      create_and_start_keeps podman_setup p.engine d.documented_engine net n o.common
        (podman_spec c o) boxes id there;
  stops = λ n id boxes h. stopped_gone checkpoint p d net n id boxes h;
  stop_succeeds = λ n id boxes able. stop_succeeds_lem p n id boxes able;
  stop_only = λ n id boxes. stopped_only checkpoint p d net n id boxes;
  healthy = λ n id boxes h.
      health_check-Healthy podman_setup p.engine d.documented_engine net n id boxes h;
  not_healthy = λ n id boxes b h.
      health_check-Unhealthy podman_setup p.engine d.documented_engine net n id boxes h b;
  checks = λ n id boxes able.
      health_check_succeeds podman_setup p.engine d.documented_engine net n id boxes able.0 able.1;
}
