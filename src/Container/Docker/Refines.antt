-- ===== src/Container/Docker/Refines.antt =====
-- The Docker runtime against the contract of Container.Contract (docker.go).
use try_it_now.Base.{ℕ, ◌≡◌, ◌≢◌, refl, String, true, none, some, arith}
use try_it_now.World.{ok}
use try_it_now.Container.{
  ContainerOptions, Setup, Boxes, Outcome, done_well, no_such_container, failed, Report, inspected,
  Engine, Network, ShopConfig,
}
use try_it_now.Container.Contract.{IsDocumented, AsAsked, Abilities, IsRuntime, OnlyAt}
use try_it_now.Container.Starts.{
  create_and_start-Started, create_and_start_succeeds, create_and_start_keeps, health_check-Healthy,
  health_check-Unhealthy, health_check_succeeds,
}
use try_it_now.Container.Docker.{
  DockerSpec, docker_spec, docker_start, docker_stop, docker_stopped, docker_removed,
  docker_runtime,
}
use try_it_now.Container.Docker.Environment.{docker_setup, docker_env-sets}

outcome_gone :
    (id : String) (o : Outcome) (boxes : Boxes)
    → (o ≢ failed → boxes id ≡ none)
    → (docker_removed (o, boxes)).0 ≡ ok tt
    → (docker_removed (o, boxes)).1 id ≡ none
outcome_gone id failed boxes gone h = ground (arith, h)
outcome_gone id done_well boxes gone h = gone (λ e. ground (arith, e))
outcome_gone id no_such_container boxes gone h = gone (λ e. ground (arith, e))

module _ (e : Engine DockerSpec) (d : IsDocumented docker_setup e) (n : ℕ) (id : String) where
  removed_gone :
      (boxes : Boxes)
      → (docker_removed (e.remove n id boxes)).0 ≡ ok tt
      → (docker_removed (e.remove n id boxes)).1 id ≡ none
  removed_gone boxes h =
      outcome_gone id (e.remove n id boxes).0 (e.remove n id boxes).1 (d.remove_removes n id boxes)
        h

  stopped_gone :
      (boxes : Boxes)
      → (docker_stop e n id boxes).0 ≡ ok tt
      → (docker_stop e n id boxes).1 id ≡ none
  unfolding docker_stop
  stopped_gone boxes h = after_stop (e.stop n id boxes).0 (e.stop n id boxes).1 h
    where
      after_stop :
          (o : Outcome) (stopped : Boxes)
          → (docker_stopped e n id (o, stopped)).0 ≡ ok tt
          → (docker_stopped e n id (o, stopped)).1 id ≡ none
      after_stop failed stopped h = ground (arith, h)
      after_stop done_well stopped h = removed_gone stopped h
      after_stop no_such_container stopped h = removed_gone stopped h

  stopped_only : (boxes : Boxes) → OnlyAt id boxes (docker_stop e n id boxes).1
  unfolding docker_stop
  stopped_only boxes other differ = ground (
    arith,
    d.stop_only n id boxes other differ,
    d.remove_only n id (e.stop n id boxes).1 other differ,
  )

docker_spec-AsAsked :
    (c : ShopConfig) (o : ContainerOptions) → AsAsked c o (docker_setup (docker_spec c o))
unfolding docker_spec
docker_spec-AsAsked c o = record {
  port = refl;
  image = refl;
  name = refl;
  hostname = refl;
  labels = refl;
  network = refl;
  environment = docker_env-sets c o;
}

-- The engine creates the container and it starts; a stop and a removal fail at nothing but a container
-- that is not there; and the container is there for an inspection.
abbrev pub docker_abilities : Engine DockerSpec → ShopConfig → Abilities
docker_abilities e c = record {
  can_start = λ n o boxes.
      (id : String) × ((e.create n (docker_spec c o) boxes).0 ≡ some id)
      × ((e.start n id (e.create n (docker_spec c o) boxes).1).0 ≡ true);
  can_restore = λ n o boxes. ⊥;
  can_stop = λ n id boxes.
      ((e.stop n id boxes).0 ≢ failed) × ((e.remove n id (e.stop n id boxes).1).0 ≢ failed);
  can_inspect = λ n id boxes. (r : Report) × (e.inspect n id boxes ≡ inspected r);
}

stop_succeeds_lem :
    (e : Engine DockerSpec) (n : ℕ) (id : String) (boxes : Boxes)
    → (e.stop n id boxes).0 ≢ failed
    → (e.remove n id (e.stop n id boxes).1).0 ≢ failed
    → (docker_stop e n id boxes).0 ≡ ok tt
unfolding docker_stop
stop_succeeds_lem e n id boxes stops removes =
    after_stop (e.stop n id boxes).0 (e.stop n id boxes).1 stops removes
  where
    after_removal : (o : Outcome) (left : Boxes) → o ≢ failed → (docker_removed (o, left)).0 ≡ ok tt
    after_removal failed left h = absurd (h refl)
    after_removal done_well left h = refl
    after_removal no_such_container left h = refl

    after_stop :
        (o : Outcome) (stopped : Boxes)
        → o ≢ failed
        → (e.remove n id stopped).0 ≢ failed
        → (docker_stopped e n id (o, stopped)).0 ≡ ok tt
    after_stop failed stopped h g = absurd (h refl)
    after_stop done_well stopped h g =
        after_removal (e.remove n id stopped).0 (e.remove n id stopped).1 g
    after_stop no_such_container stopped h g =
        after_removal (e.remove n id stopped).0 (e.remove n id stopped).1 g

-- Over an engine that behaves as documented, the Docker runtime keeps the contract of a runtime. What
-- it reports as started, at a port below 65536, is new, runs, and has the image, name, hostname, port,
-- labels and network that are asked for, and an environment with every setting of the options and, for
-- a key that they leave out, the shop's; a start leaves every container that was there as it was. A
-- stop that succeeds has removed its container, and no stop touches another. A check that finds a
-- container healthy has found it running, with a port that accepts and answers with a status from 200
-- to 499; one that does not has not, if the container runs. A start, a stop and a check succeed where
-- the engine does what they ask of it; no restore does.
pub docker_runtime-IsRuntime :
    (e : Engine DockerSpec) (c : ShopConfig) (net : Network) (checkpoint : Setup)
    → IsDocumented docker_setup e
    → IsRuntime c net checkpoint (docker_abilities e c) (docker_runtime e c net)
unfolding docker_start
docker_runtime-IsRuntime e c net checkpoint d = record {
  starts = λ n o boxes i fits h. (
    docker_setup (docker_spec c o),
    docker_spec-AsAsked c o,
    create_and_start-Started docker_setup e d net n o.common (docker_spec c o) boxes i h,
  );
  start_succeeds = λ n o boxes able.
      create_and_start_succeeds docker_setup e d net n o.common (docker_spec c o) boxes able.0
        able.1 able.2;
  restores = λ n o boxes i h. ground (arith, h);
  restore_succeeds = λ n o boxes criu able. absurd able;
  start_keeps = λ n o boxes id there.
      create_and_start_keeps docker_setup e d net n o.common (docker_spec c o) boxes id there;
  stops = λ n id boxes h. stopped_gone e d n id boxes h;
  stop_succeeds = λ n id boxes able. stop_succeeds_lem e n id boxes able.0 able.1;
  stop_only = λ n id boxes. stopped_only e d n id boxes;
  healthy = λ n id boxes h. health_check-Healthy docker_setup e d net n id boxes h;
  not_healthy = λ n id boxes b h. health_check-Unhealthy docker_setup e d net n id boxes h b;
  checks = λ n id boxes able. health_check_succeeds docker_setup e d net n id boxes able.0 able.1;
}
