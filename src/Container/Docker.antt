-- ===== src/Container/Docker.antt =====
-- internal/container/docker.go: the runtime over Docker, which has no checkpoints.
pub mod Environment
pub mod Refines
use try_it_now.Base.{
  ℕ, String, Bool, true, false, Option, none, some, List, [], ◌∷◌, ◌++◌, str_eq, if◌then◌else◌,
}
use try_it_now.Base.Text.{◌<>◌, decimal}
use try_it_now.Domain.{Instance, failure}
use try_it_now.World.{StartOptions, Result, ok, err}
use try_it_now.Container.{
  ContainerOptions, Boxes, Outcome, done_well, no_such_container, failed, Engine, Network,
  ShopConfig, ContainerRuntime, create_and_start, health_check,
}

-- What ContainerCreate is given; the container's port is 80/tcp, on 127.0.0.1.
pub record DockerSpec : Type 0 where
  pub image : String
  pub name : String
  pub hostname : String
  pub env : List String
  pub labels : List (String × String)
  pub host_port : ℕ
  pub network : Option String

abbrev pub setting : String → String → String
setting key value = key <> ("=" <> value)

abbrev pub settings : List (String × String) → List String
settings [] = []
settings ((key, value) ∷ rest) = setting key value ∷ settings rest

unfoldable pub docker_env : ShopConfig → ContainerOptions → List String
docker_env c o =
    (setting "PS_DOMAIN" (o.common.hostname <> ("." <> c.base_domain))
      ∷ setting "MYSQL_HOST" c.db_host
      ∷ setting "MYSQL_PORT" (decimal c.db_port)
      ∷ setting "MYSQL_DATABASE" c.db_name
      ∷ setting "MYSQL_USER" c.db_user
      ∷ setting "MYSQL_PASSWORD" c.db_password
      ∷ setting "ADMIN_MAIL_OVERRIDE" c.demo_user
      ∷ setting "ADMIN_PASSWORD_OVERRIDE" c.demo_pass
      ∷ [])
    ++ settings o.env_vars

abbrev pub optional : String → Option String
optional s = if str_eq s "" then none else some s

unfoldable pub docker_spec : ShopConfig → ContainerOptions → DockerSpec
unfolding docker_env
docker_spec c o = record {
  image = o.image;
  name = o.common.name;
  hostname = o.common.hostname;
  env = docker_env c o;
  labels = o.labels;
  host_port = o.common.port;
  network = optional o.network_id;
}

unfoldable pub docker_start :
    Engine DockerSpec
    → ShopConfig
    → Network
    → ℕ
    → ContainerOptions
    → Boxes
    → Result Instance × Boxes
unfolding docker_spec create_and_start
docker_start e c net n o boxes = create_and_start e net n o.common (docker_spec c o) boxes

-- Only a container that is not there may fail to be removed.
abbrev pub docker_removed : Outcome × Boxes → Result (Unit {0}) × Boxes
docker_removed (failed, boxes) = (err failure, boxes)
docker_removed (done_well, boxes) = (ok tt, boxes)
docker_removed (no_such_container, boxes) = (ok tt, boxes)

-- A container that cannot be stopped is not removed.
abbrev pub docker_stopped :
    Engine DockerSpec → ℕ → String → Outcome × Boxes → Result (Unit {0}) × Boxes
docker_stopped e n id (failed, boxes) = (err failure, boxes)
docker_stopped e n id (done_well, boxes) = docker_removed (e.remove n id boxes)
docker_stopped e n id (no_such_container, boxes) = docker_removed (e.remove n id boxes)

unfoldable pub docker_stop : Engine DockerSpec → ℕ → String → Boxes → Result (Unit {0}) × Boxes
docker_stop e n id boxes = docker_stopped e n id (e.stop n id boxes)

-- ErrCRIUNotSupported
abbrev pub docker_restore : ℕ → StartOptions → Boxes → Result Instance × Boxes
docker_restore n o boxes = (err failure, boxes)

abbrev pub docker_runtime : Engine DockerSpec → ShopConfig → Network → ContainerRuntime
docker_runtime e c net = record {
  criu_available = false;
  restore_from_checkpoint = docker_restore;
  start = docker_start e c net;
  stop = docker_stop e;
  check_health = health_check e net;
}
