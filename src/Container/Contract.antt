-- ===== src/Container/Contract.antt =====
-- What internal/pool expects of either runtime, and what a runtime relies on, of its engine.
use try_it_now.Base.{
  ℕ, ◌≡◌, ◌≢◌, ◌⊎◌, ◌<◌, ◌≤◌, String, Bool, true, false, Option, none, some, List, [], ◌∷◌, str_eq,
  if◌then◌else◌,
}
use try_it_now.Base.Text.{◌<>◌, decimal}
use try_it_now.Domain.{Instance, warming}
use try_it_now.World.{StartOptions, ok}
use try_it_now.Container.{
  ContainerOptions, Setup, Box, Boxes, failed, Report, inspected, Engine, ShopConfig, Network,
  ContainerRuntime,
}

-- All but the one container are as they were.
abbrev pub OnlyAt : String → Boxes → Boxes → Type 0
OnlyAt id before after = (other : String) → str_eq id other ≡ false → after other ≡ before other

-- The container's port 80 has an entry, and the first binding there is to the host's port.
abbrev pub Publishes : ℕ → List (ℕ × List (Option ℕ)) → Type 0
Publishes host_port [] = ⊥
Publishes host_port ((port, bindings) ∷ rest) =
    ((port ≡ 80) × ((others : List (Option ℕ)) × (bindings ≡ some host_port ∷ others)))
    ⊎ ((port ≢ 80) × Publishes host_port rest)

-- An engine that sets a container up as `setup_of s` for a specification `s`.
pub record IsDocumented {S : Type 0} (setup_of : S → Setup) (e : Engine S) : Type 0 where
  -- A new container has an identifier that no other has, and does not run yet.
  pub create_makes :
      (n : ℕ) (s : S) (boxes : Boxes) (id : String)
      → (e.create n s boxes).0 ≡ some id
      → (boxes id ≡ none)
        × ((e.create n s boxes).1 id ≡ some (record { running = false; setup = setup_of s }))
        × OnlyAt id boxes (e.create n s boxes).1
  pub create_fails :
      (n : ℕ) (s : S) (boxes : Boxes)
      → (e.create n s boxes).0 ≡ none
      → (e.create n s boxes).1 ≡ boxes
  pub start_runs :
      (n : ℕ) (id : String) (boxes : Boxes) (b : Box)
      → boxes id ≡ some b
      → (e.start n id boxes).0 ≡ true
      → (e.start n id boxes).1 id ≡ some (record b { running = true })
  pub start_only : (n : ℕ) (id : String) (boxes : Boxes) → OnlyAt id boxes (e.start n id boxes).1
  pub stop_only : (n : ℕ) (id : String) (boxes : Boxes) → OnlyAt id boxes (e.stop n id boxes).1
  pub remove_only : (n : ℕ) (id : String) (boxes : Boxes) → OnlyAt id boxes (e.remove n id boxes).1
  pub remove_removes :
      (n : ℕ) (id : String) (boxes : Boxes)
      → (e.remove n id boxes).0 ≢ failed
      → (e.remove n id boxes).1 id ≡ none
  pub inspect_reports :
      (n : ℕ) (id : String) (boxes : Boxes) (r : Report)
      → e.inspect n id boxes ≡ inspected r
      → (b : Box) × (boxes id ≡ some b)
        × (str_eq r.status "running" ≡ b.running)
        × (b.running ≡ true → Publishes b.setup.published r.port_bindings)

-- What the environment of a container is to set a key to: what the options say, and where they say
-- nothing, what the shop needs.
abbrev pub shop_setting : ShopConfig → StartOptions → String → Option String
shop_setting c o key =
    if str_eq "PS_DOMAIN" key
    then some (o.hostname <> ("." <> c.base_domain))
    else if str_eq "MYSQL_HOST" key
    then some c.db_host
    else if str_eq "MYSQL_PORT" key
    then some (decimal c.db_port)
    else if str_eq "MYSQL_DATABASE" key
    then some c.db_name
    else if str_eq "MYSQL_USER" key
    then some c.db_user
    else if str_eq "MYSQL_PASSWORD" key
    then some c.db_password
    else if str_eq "ADMIN_MAIL_OVERRIDE" key
    then some c.demo_user
    else if str_eq "ADMIN_PASSWORD_OVERRIDE" key
    then some c.demo_pass
    else none

unfoldable pub overridden : String → List (String × String) → Option String → Option String
overridden key [] default = default
overridden key ((k, v) ∷ rest) default =
    overridden key rest (if str_eq k key then some v else default)

abbrev pub wanted : ShopConfig → ContainerOptions → String → Option String
wanted c o key = overridden key o.env_vars (shop_setting c o.common key)

-- The container is set up as the options ask.
pub record AsAsked (c : ShopConfig) (o : ContainerOptions) (s : Setup) : Type 0 where
  pub port : s.published ≡ o.common.port
  pub image : s.image ≡ o.image
  pub name : s.name ≡ o.common.name
  pub hostname : s.hostname ≡ o.common.hostname
  pub labels : s.labels ≡ o.labels
  pub network : s.network ≡ (if str_eq o.network_id "" then none else some o.network_id)
  pub environment : (key value : String) → wanted c o key ≡ some value → s.sets key value ≡ true

-- A container that is restored is the one of the checkpoint, but for its port and its name, which is
-- the one that is asked for with the time.
abbrev pub restored_setup : Network → ℕ → Setup → StartOptions → Setup
restored_setup net n checkpoint o = record checkpoint {
  published = o.port;
  name = o.name <> ("-" <> decimal (net.time n));
}

-- The instance is as asked for, and its container is new, runs, and is set up so.
pub record Started (o : StartOptions) (i : Instance) (s : Setup) (before after : Boxes)
    : Type 0 where
  pub same_port : i.port ≡ o.port
  pub same_hostname : i.hostname ≡ o.hostname
  pub same_prefix : i.db_prefix ≡ o.db_prefix
  pub is_warming : i.state ≡ warming
  pub was_new : before i.container_id ≡ none
  pub runs : after i.container_id ≡ some (record { running = true; setup = s })

-- A port accepts connections, and answers a request with a status from 200 to 499.
abbrev pub Responds : Network → ℕ → ℕ → Type 0
Responds net n port =
    (net.accepts n port ≡ true)
    × ((status : ℕ) × (net.responds n port ≡ some status) × (200 ≤ status) × (status < 500))

-- When the engine does what a call asks of it.
pub record Abilities : Type 1 where
  pub can_start : ℕ → ContainerOptions → Boxes → Type 0
  pub can_restore : ℕ → StartOptions → Boxes → Type 0
  pub can_stop : ℕ → String → Boxes → Type 0
  pub can_inspect : ℕ → String → Boxes → Type 0

-- A runtime that starts what it is asked for and removes what it is told to stop, and does so where
-- its engine can.
pub record IsRuntime (c : ShopConfig) (net : Network) (checkpoint : Setup) (a : Abilities)
    (r : ContainerRuntime) : Type 0 where
  pub starts :
      (n : ℕ) (o : ContainerOptions) (boxes : Boxes) (i : Instance)
      → o.common.port < 65536
      → (r.start n o boxes).0 ≡ ok i
      → (s : Setup) × AsAsked c o s × Started o.common i s boxes (r.start n o boxes).1
  pub start_succeeds :
      (n : ℕ) (o : ContainerOptions) (boxes : Boxes)
      → a.can_start n o boxes
      → (i : Instance) × ((r.start n o boxes).0 ≡ ok i)
  pub restores :
      (n : ℕ) (o : StartOptions) (boxes : Boxes) (i : Instance)
      → (r.restore_from_checkpoint n o boxes).0 ≡ ok i
      → (r.criu_available ≡ true)
        × Started o i
            (restored_setup net n checkpoint o)
            boxes
            (r.restore_from_checkpoint n o boxes).1
  pub restore_succeeds :
      (n : ℕ) (o : StartOptions) (boxes : Boxes)
      → r.criu_available ≡ true
      → a.can_restore n o boxes
      → (i : Instance) × ((r.restore_from_checkpoint n o boxes).0 ≡ ok i)
  -- A start, whatever it comes to, leaves every container that was there as it was.
  pub start_keeps :
      (n : ℕ) (o : ContainerOptions) (boxes : Boxes) (id : String)
      → boxes id ≢ none
      → (r.start n o boxes).1 id ≡ boxes id
  pub stops :
      (n : ℕ) (id : String) (boxes : Boxes)
      → (r.stop n id boxes).0 ≡ ok tt
      → (r.stop n id boxes).1 id ≡ none
  pub stop_succeeds :
      (n : ℕ) (id : String) (boxes : Boxes) → a.can_stop n id boxes → (r.stop n id boxes).0 ≡ ok tt
  pub stop_only : (n : ℕ) (id : String) (boxes : Boxes) → OnlyAt id boxes (r.stop n id boxes).1
  -- A check that can be made finds a container healthy just where it runs and its port responds.
  pub healthy :
      (n : ℕ) (id : String) (boxes : Boxes)
      → r.check_health n id boxes ≡ ok true
      → (b : Box) × (boxes id ≡ some b) × (b.running ≡ true) × Responds net n b.setup.published
  pub not_healthy :
      (n : ℕ) (id : String) (boxes : Boxes) (b : Box)
      → r.check_health n id boxes ≡ ok false
      → boxes id ≡ some b
      → b.running ≡ true
      → ¬ Responds net n b.setup.published
  pub checks :
      (n : ℕ) (id : String) (boxes : Boxes)
      → a.can_inspect n id boxes
      → (h : Bool) × (r.check_health n id boxes ≡ ok h)
