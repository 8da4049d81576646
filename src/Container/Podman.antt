-- ===== src/Container/Podman.antt =====
-- internal/container/podman.go: the runtime over Podman, with checkpoints where CRIU is there.
pub mod Environment
pub mod Refines
pub mod Version
use try_it_now.Base.{
  ℕ, String, Bool, true, false, Option, none, some, List, [], ◌∷◌, ◌++◌, ◌%◌, str_eq, not,
  if◌then◌else◌,
}
use try_it_now.Base.Text.{◌<>◌, decimal, has_text}
use try_it_now.Domain.{Instance, failure}
use try_it_now.World.{StartOptions, Result, ok, err}
use try_it_now.Container.{
  ContainerOptions, Boxes, Outcome, done_well, no_such_container, failed, Engine, Network,
  ShopConfig, ContainerRuntime, new_instance, create_and_start, inspect_container, checked_info,
  ContainerInfo,
}

-- The SpecGenerator; the container's port is 80, on 127.0.0.1.
pub record PodmanSpec : Type 0 where
  pub image : String
  pub name : String
  pub hostname : String
  pub env : List (String × String)
  pub labels : List (String × String)
  pub host_port : ℕ
  pub network : Option String

abbrev pub without_key : String → List (String × String) → List (String × String)
without_key key [] = []
without_key key ((k, v) ∷ env) =
    let others = without_key key env in if str_eq k key then others else (k, v) ∷ others

-- `env[k] = v`, on a map as a list.
abbrev pub set_env : List (String × String) → List (String × String) → List (String × String)
set_env env [] = env
set_env env ((key, value) ∷ rest) = set_env ((key, value) ∷ without_key key env) rest

unfoldable pub podman_env : ShopConfig → ContainerOptions → List (String × String)
podman_env c o =
    set_env
      (("PS_DOMAIN", o.common.hostname <> ("." <> c.base_domain))
        ∷ ("MYSQL_HOST", c.db_host)
        ∷ ("MYSQL_PORT", decimal c.db_port)
        ∷ ("MYSQL_DATABASE", c.db_name)
        ∷ ("MYSQL_USER", c.db_user)
        ∷ ("MYSQL_PASSWORD", c.db_password)
        ∷ ("ADMIN_MAIL_OVERRIDE", c.demo_user)
        ∷ ("ADMIN_PASSWORD_OVERRIDE", c.demo_pass)
        ∷ [])
      o.env_vars

-- `uint16(opts.Port)`
abbrev pub u16 : ℕ → ℕ
u16 n = n % 65536

unfoldable pub podman_spec : ShopConfig → ContainerOptions → PodmanSpec
unfolding podman_env
podman_spec c o = record {
  image = o.image;
  name = o.common.name;
  hostname = o.common.hostname;
  env = podman_env c o;
  labels = o.labels;
  host_port = u16 o.common.port;
  network = if str_eq o.network_id "" then none else some o.network_id;
}

-- What Podman tells of its host: whether it runs without root, and the version of the OCI runtime.
pub record HostInfo : Type 0 where
  pub rootless : Bool
  pub oci_version : Option String

-- What a restore is given; the port is published on 127.0.0.1, to the container's port 80.
pub record RestoreSpec : Type 0 where
  pub container_name : String
  pub publish_port : ℕ

-- Podman, and the file system: whether the checkpoint is there.
pub record Podman : Type 0 where
  pub engine : Engine PodmanSpec
  pub restore : ℕ → RestoreSpec → Boxes → Option String × Boxes
  pub has_checkpoint : ℕ → Bool

abbrev pub has_criu : Option String → Bool
has_criu none = false
has_criu (some version) = has_text "+CRIU" version

-- checkCRIUAvailability, on what system.Info answers, and whether the checkpoint is there.
unfoldable pub check_criu_availability : Option HostInfo → Bool → Bool
check_criu_availability none exists = false
check_criu_availability (some info) exists =
    if info.rootless then false else if has_criu info.oci_version then exists else false

-- NewPodmanRuntime asks only where the configuration says so.
unfoldable pub criu_on : Bool → Option HostInfo → Bool → Bool
unfolding check_criu_availability
criu_on enabled info exists = if enabled then check_criu_availability info exists else false

unfoldable pub podman_start :
    Podman → ShopConfig → Network → ℕ → ContainerOptions → Boxes → Result Instance × Boxes
unfolding podman_spec create_and_start
podman_start p c net n o boxes = create_and_start p.engine net n o.common (podman_spec c o) boxes

abbrev pub restored : Network → ℕ → StartOptions → Option String × Boxes → Result Instance × Boxes
restored net n o (none, boxes) = (err failure, boxes)
restored net n o (some id, boxes) = (ok (new_instance net n id o), boxes)

-- The name that is asked for, with the time.
abbrev pub restore_spec : Network → ℕ → StartOptions → RestoreSpec
restore_spec net n o = record {
  container_name = o.name <> ("-" <> decimal (net.time n));
  publish_port = o.port;
}

unfoldable pub podman_restore :
    Bool → Podman → Network → ℕ → StartOptions → Boxes → Result Instance × Boxes
podman_restore criu p net n o boxes =
    let attempted = restored net n o (p.restore n (restore_spec net n o) boxes) in
    if criu
    then if p.has_checkpoint n then attempted else (err failure, boxes)
    else (err failure, boxes)

abbrev pub podman_removed : Outcome × Boxes → Result (Unit {0}) × Boxes
podman_removed (failed, boxes) = (err failure, boxes)
podman_removed (done_well, boxes) = (ok tt, boxes)
podman_removed (no_such_container, boxes) = (ok tt, boxes)

-- The removal is tried whatever the stop came to.
unfoldable pub podman_stop : Podman → ℕ → String → Boxes → Result (Unit {0}) × Boxes
podman_stop p n id boxes = podman_removed (p.engine.remove n id (p.engine.stop n id boxes).1)

-- Inspect
unfoldable pub podman_inspect : Podman → ℕ → String → Boxes → Result ContainerInfo
unfolding inspect_container
podman_inspect p n id boxes = inspect_container p.engine n id boxes

-- HealthCheck
unfoldable pub podman_health_check : Podman → Network → ℕ → String → Boxes → Result Bool
unfolding podman_inspect
podman_health_check p net n id boxes = checked_info net n (podman_inspect p n id boxes)

abbrev pub podman_runtime : Bool → Podman → ShopConfig → Network → ContainerRuntime
podman_runtime criu p c net = record {
  criu_available = criu;
  restore_from_checkpoint = podman_restore criu p net;
  start = podman_start p c net;
  stop = podman_stop p;
  check_health = podman_health_check p net;
}
