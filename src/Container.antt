-- ===== src/Container.antt =====
-- internal/container: what a runtime is asked for and promises (runtime.go), and the health check that
-- both runtimes share (health.go). The container engine is a parameter: what it answers, and what it
-- keeps of each container.
pub mod Contract
pub mod Starts
pub mod Docker
pub mod Podman
pub mod Address
use try_it_now.Base.{
  ℕ, suc, ◌≡◌, ◌≢◌, String, Bool, true, false, Option, none, some, List, [], ◌∷◌, ◌&&◌, leb, ltb,
  ◌==◌, str_eq, if◌then◌else◌,
}
use try_it_now.Base.Text.{◌<>◌, decimal}
use try_it_now.Domain.{Instance, warming, Error, failure}
use try_it_now.World.{StartOptions, Result, ok, err}

-- container.StartOptions: what varies from one to the next, and the settings of the pool manager.
pub record ContainerOptions : Type 0 where
  pub common : StartOptions
  pub image : String
  pub env_vars : List (String × String)
  pub labels : List (String × String)
  pub network_id : String

-- How a container has been set up: the host's port for its port 80, and what else it was given; `sets
-- key value` tells that its environment sets the key to the value.
pub record Setup : Type 0 where
  pub published : ℕ
  pub image : String
  pub name : String
  pub hostname : String
  pub sets : String → String → Bool
  pub labels : List (String × String)
  pub network : Option String

-- What the engine keeps of a container.
pub record Box : Type 0 where
  pub running : Bool
  pub setup : Setup

-- By their identifiers.
abbrev pub Boxes : Type 0
Boxes = String → Option Box

-- What a stop or a removal comes to.
pub data Outcome : Type 0 where
  done_well no_such_container failed : Outcome

-- What an engine reports of a container. A host's port that is no number is `none`.
pub record Report : Type 0 where
  pub container_id : String
  pub name : String
  pub status : String
  pub ip_address : String
  pub network_addresses : List String
  pub port_bindings : List (ℕ × List (Option ℕ))

pub data Inspected : Type 0 where
  inspected : Report → Inspected
  not_inspected inspection_failed : Inspected

-- An engine that creates containers from specifications `S`; the first argument of each is the moment.
pub record Engine (S : Type 0) : Type 0 where
  pub create : ℕ → S → Boxes → Option String × Boxes
  pub start : ℕ → String → Boxes → Bool × Boxes
  pub stop : ℕ → String → Boxes → Outcome × Boxes
  pub remove : ℕ → String → Boxes → Outcome × Boxes
  pub inspect : ℕ → String → Boxes → Inspected

-- What the settings of a runtime are made of: PrestaShopConfig and the base domain.
pub record ShopConfig : Type 0 where
  pub db_host : String
  pub db_port : ℕ
  pub db_name : String
  pub db_user : String
  pub db_password : String
  pub demo_user : String
  pub demo_pass : String
  pub base_domain : String

-- The host's network, as a check sees it: whether a port accepts, and the status of `GET /`.
pub record Network : Type 0 where
  pub accepts : ℕ → ℕ → Bool
  pub responds : ℕ → ℕ → Option ℕ
  -- time.Now and the n-th fresh UUID.
  pub time : ℕ → ℕ
  pub uuid : ℕ → String

unfoldable pub generate_instance_id : String → String
generate_instance_id uuid = "demo-" <> uuid

-- The instance that both runtimes answer with.
abbrev pub new_instance : Network → ℕ → String → StartOptions → Instance
new_instance net n id o = record {
  id = generate_instance_id (net.uuid n);
  container_id = id;
  hostname = o.hostname;
  port = o.port;
  state = warming;
  db_prefix = o.db_prefix;
  user_ip = "";
  created_at = net.time n;
  assigned_at = none;
  expires_at = none;
  expires_at_unix = 0;
}

-- ContainerInfo
pub record ContainerInfo : Type 0 where
  pub info_id : String
  pub info_name : String
  pub info_state : String
  pub info_address : String
  pub info_ports : List (ℕ × ℕ)

-- The first binding of each port that has one; a number that does not parse is 0.
abbrev pub bound_port : Option ℕ → ℕ
bound_port none = 0
bound_port (some p) = p

abbrev pub first_bindings : List (ℕ × List (Option ℕ)) → List (ℕ × ℕ)
first_bindings [] = []
first_bindings ((port, []) ∷ rest) = first_bindings rest
first_bindings ((port, binding ∷ others) ∷ rest) = (port, bound_port binding) ∷ first_bindings rest

abbrev pub first_address : String → List String → String
first_address own [] = own
first_address own (address ∷ others) =
    let later = first_address own others in if str_eq address "" then later else address

abbrev pub container_info : Inspected → Result ContainerInfo
container_info not_inspected = err failure
container_info inspection_failed = err failure
container_info (inspected r) = ok (record {
  info_id = r.container_id;
  info_name = r.name;
  info_state = r.status;
  info_address = first_address r.ip_address r.network_addresses;
  info_ports = first_bindings r.port_bindings;
})

-- `info.Ports[port]`
abbrev pub port_of : ℕ → List (ℕ × ℕ) → Option ℕ
port_of port [] = none
port_of port ((q, host_port) ∷ rest) =
    let later = port_of port rest in if q == port then some host_port else later

-- `resp.StatusCode >= 200 && resp.StatusCode < 500`
abbrev pub is_healthy_status : Option ℕ → Bool
is_healthy_status none = false
is_healthy_status (some status) = leb 200 status && ltb status 500

-- CheckContainerHealth: a connection first, then a request; neither failure is an error.
unfoldable pub check_container_health : Network → ℕ → ℕ → Bool
check_container_health net n port =
    if net.accepts n port then is_healthy_status (net.responds n port) else false

abbrev pub checked_port : Network → ℕ → Option ℕ → Result Bool
checked_port net n none = ok false
checked_port net n (some port) = ok (check_container_health net n port)

abbrev pub checked_info : Network → ℕ → Result ContainerInfo → Result Bool
checked_info net n (err e) = err e
checked_info net n (ok info) =
    if str_eq info.info_state "running"
    then checked_port net n (port_of 80 info.info_ports)
    else ok false

-- Inspect and HealthCheck, which are alike in both runtimes.
unfoldable pub inspect_container :
    {S : Type 0} → Engine S → ℕ → String → Boxes → Result ContainerInfo
inspect_container e n id boxes = container_info (e.inspect n id boxes)

unfoldable pub health_check : {S : Type 0} → Engine S → Network → ℕ → String → Boxes → Result Bool
unfolding inspect_container
health_check e net n id boxes = checked_info net n (inspect_container e n id boxes)

-- A container that does not start is removed, whatever that comes to.
abbrev pub started :
    {S : Type 0}
    → Engine S
    → Network
    → ℕ
    → StartOptions
    → String
    → Bool × Boxes
    → Result Instance × Boxes
started e net n o id (true, boxes) = (ok (new_instance net n id o), boxes)
started e net n o id (false, boxes) = (err failure, (e.remove n id boxes).1)

abbrev pub created :
    {S : Type 0}
    → Engine S
    → Network
    → ℕ
    → StartOptions
    → Option String × Boxes
    → Result Instance × Boxes
created e net n o (none, boxes) = (err failure, boxes)
created e net n o (some id, boxes) = started e net n o id (e.start n id boxes)

-- Both runtimes start what they have specified alike.
unfoldable pub create_and_start :
    {S : Type 0} → Engine S → Network → ℕ → StartOptions → S → Boxes → Result Instance × Boxes
create_and_start e net n o spec boxes = created e net n o (e.create n spec boxes)

-- A runtime, as internal/pool uses it.
pub record ContainerRuntime : Type 0 where
  pub criu_available : Bool
  pub restore_from_checkpoint : ℕ → StartOptions → Boxes → Result Instance × Boxes
  pub start : ℕ → ContainerOptions → Boxes → Result Instance × Boxes
  pub stop : ℕ → String → Boxes → Result (Unit {0}) × Boxes
  pub check_health : ℕ → String → Boxes → Result Bool
