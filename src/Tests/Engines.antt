-- ===== src/Tests/Engines.antt =====
-- A container engine and a Podman that behave as documented, and the theorems about the runtimes.
use try_it_now.Base.{
  ◌≡◌, refl, String, Bool, true, false, Option, none, some, [], ◌∷◌, arith, ap, sym, subst, ◌∙◌,
  str_eq, eq_refl, ◌&&◌, inl, if◌then◌else◌,
}
use try_it_now.Container.{
  ContainerOptions, Setup, Box, Boxes, Outcome, done_well, no_such_container, Report, Inspected,
  inspected, not_inspected, inspection_failed, Engine, ShopConfig, Network,
}
use try_it_now.Container.Contract.{IsDocumented, Publishes, IsRuntime}
use try_it_now.Container.Docker.{docker_runtime}
use try_it_now.Container.Docker.Environment.{docker_setup}
use try_it_now.Container.Docker.Refines.{docker_abilities, docker_runtime-IsRuntime}
use try_it_now.Container.Podman.{Podman, RestoreSpec, podman_runtime}
use try_it_now.Container.Podman.Environment.{podman_setup}
use try_it_now.Container.Podman.Refines.{IsPodman, podman_abilities, podman_runtime-IsRuntime}

abbrev put : String → Option Box → Boxes → Boxes
put id box boxes other = if str_eq id other then box else boxes other

-- Each operation, on what the engine keeps under the identifier. There is room for one container.
abbrev create_on : Setup → Option Box → Boxes → Option String × Boxes
create_on setup none boxes =
    (some "c1", put "c1" (some (record { running = false; setup = setup })) boxes)
create_on setup (some b) boxes = (none, boxes)

abbrev start_on : String → Option Box → Boxes → Bool × Boxes
start_on id none boxes = (false, boxes)
start_on id (some b) boxes = (true, put id (some (record b { running = true })) boxes)

abbrev stop_on : String → Option Box → Boxes → Outcome × Boxes
stop_on id none boxes = (no_such_container, boxes)
stop_on id (some b) boxes = (done_well, put id (some (record b { running = false })) boxes)

abbrev remove_on : String → Option Box → Boxes → Outcome × Boxes
remove_on id none boxes = (no_such_container, boxes)
remove_on id (some b) boxes = (done_well, put id none boxes)

abbrev report_of : String → Box → Report
report_of id b = record {
  container_id = id;
  name = "demo";
  status = if b.running then "running" else "exited";
  ip_address = "";
  network_addresses = [];
  port_bindings = (80, some b.setup.published ∷ []) ∷ [];
}

abbrev inspect_on : String → Option Box → Inspected
inspect_on id none = not_inspected
inspect_on id (some b) = inspected (report_of id b)

abbrev sample_engine : {S : Type 0} → (S → Setup) → Engine S
sample_engine setup_of = record {
  create = λ n s boxes. create_on (setup_of s) (boxes "c1") boxes;
  start = λ n id boxes. start_on id (boxes id) boxes;
  stop = λ n id boxes. stop_on id (boxes id) boxes;
  remove = λ n id boxes. remove_on id (boxes id) boxes;
  inspect = λ n id boxes. inspect_on id (boxes id);
}

-- Everything under another identifier is as it was.
put-other :
    (id other : String) (box : Option Box) (boxes : Boxes)
    → str_eq id other ≡ false
    → put id box boxes other ≡ boxes other
put-other id other box boxes h = ground (arith, h)

create_makes_lem :
    (setup : Setup) (kept : Option Box) (boxes : Boxes) (id : String)
    → boxes "c1" ≡ kept
    → (create_on setup kept boxes).0 ≡ some id
    → (boxes id ≡ none)
      × ((create_on setup kept boxes).1 id ≡ some (record { running = false; setup = setup }))
      × ((other : String)
          → str_eq id other ≡ false
          → (create_on setup kept boxes).1 other ≡ boxes other)
create_makes_lem setup none boxes id e h =
    subst
      (λ name.
        (boxes name ≡ none)
        × ((create_on setup none boxes).1 name ≡ some (record { running = false; setup = setup }))
        × ((other : String)
            → str_eq name other ≡ false
            → (create_on setup none boxes).1 other ≡ boxes other))
      (ground (arith, h)) (e, refl, λ other differ. put-other "c1" other _ boxes differ)
create_makes_lem setup (some b) boxes id e h = ground (arith, h)

create_fails_lem :
    (setup : Setup) (kept : Option Box) (boxes : Boxes)
    → (create_on setup kept boxes).0 ≡ none
    → (create_on setup kept boxes).1 ≡ boxes
create_fails_lem setup none boxes h = ground (arith, h)
create_fails_lem setup (some b) boxes h = refl

start_only_lem :
    (id : String) (kept : Option Box) (boxes : Boxes) (other : String)
    → str_eq id other ≡ false
    → (start_on id kept boxes).1 other ≡ boxes other
start_only_lem id none boxes other h = refl
start_only_lem id (some b) boxes other h = put-other id other _ boxes h

stop_only_lem :
    (id : String) (kept : Option Box) (boxes : Boxes) (other : String)
    → str_eq id other ≡ false
    → (stop_on id kept boxes).1 other ≡ boxes other
stop_only_lem id none boxes other h = refl
stop_only_lem id (some b) boxes other h = put-other id other _ boxes h

remove_only_lem :
    (id : String) (kept : Option Box) (boxes : Boxes) (other : String)
    → str_eq id other ≡ false
    → (remove_on id kept boxes).1 other ≡ boxes other
remove_only_lem id none boxes other h = refl
remove_only_lem id (some b) boxes other h = put-other id other none boxes h

remove_removes_lem :
    (id : String) (kept : Option Box) (boxes : Boxes)
    → boxes id ≡ kept
    → (remove_on id kept boxes).1 id ≡ none
remove_removes_lem id none boxes e = e
remove_removes_lem id (some b) boxes e = ground (arith, eq_refl id)

inspect_lem :
    (id : String) (kept : Option Box) (boxes : Boxes) (r : Report)
    → boxes id ≡ kept
    → inspect_on id kept ≡ inspected r
    → (b : Box) × (boxes id ≡ some b)
      × (str_eq r.status "running" ≡ b.running)
      × (b.running ≡ true → Publishes b.setup.published r.port_bindings)
inspect_lem id none boxes r e h = ground (arith, h)
inspect_lem id (some b) boxes r e h =
    let same : report_of id b ≡ r = report_injective h in
    (
      b,
      e,
      ap (λ (q : Report). str_eq q.status "running") (sym same) ∙ is_running b.running,
      λ runs.
          subst (λ (q : Report). Publishes b.setup.published q.port_bindings) same
            (inl (refl, ([], refl))),
    )
  where
    report_or : Inspected → Report
    report_or (inspected q) = q
    report_or not_inspected = report_of id b
    report_or inspection_failed = report_of id b

    report_injective : {q q' : Report} → inspected q ≡ inspected q' → q ≡ q'
    report_injective h = ap report_or h

    is_running :
        (running : Bool) → str_eq (if running then "running" else "exited") "running" ≡ running
    is_running true = refl
    is_running false = refl

sample_engine-IsDocumented :
    {S : Type 0} (setup_of : S → Setup) → IsDocumented setup_of (sample_engine setup_of)
sample_engine-IsDocumented setup_of = record {
  create_makes = λ n s boxes id h. create_makes_lem (setup_of s) (boxes "c1") boxes id refl h;
  create_fails = λ n s boxes h. create_fails_lem (setup_of s) (boxes "c1") boxes h;
  start_runs = λ n id boxes b e h. rw e (ground (arith, eq_refl id));
  start_only = λ n id boxes other h. start_only_lem id (boxes id) boxes other h;
  stop_only = λ n id boxes other h. stop_only_lem id (boxes id) boxes other h;
  remove_only = λ n id boxes other h. remove_only_lem id (boxes id) boxes other h;
  remove_removes = λ n id boxes h. remove_removes_lem id (boxes id) boxes refl;
  inspect_reports = λ n id boxes r h. inspect_lem id (boxes id) boxes r refl h;
}

abbrev restore_on : Setup → Option Box → Boxes → Option String × Boxes
restore_on setup none boxes =
    (some "c1", put "c1" (some (record { running = true; setup = setup })) boxes)
restore_on setup (some b) boxes = (none, boxes)

-- What the checkpoint was made of.
abbrev checkpointed : Setup
checkpointed = record {
  published = 8888;
  image = "shop";
  name = "prestashop-checkpoint";
  hostname = "template";
  sets = λ key value. str_eq key "DB_PREFIX" && str_eq value "template_";
  labels = [];
  network = none;
}

abbrev restored_by : RestoreSpec → Setup
restored_by s = record checkpointed { published = s.publish_port; name = s.container_name }

abbrev sample_podman : Podman
sample_podman = record {
  engine = sample_engine podman_setup;
  restore = λ n s boxes. restore_on (restored_by s) (boxes "c1") boxes;
  has_checkpoint = λ n. true;
}

restore_lem :
    (setup : Setup) (kept : Option Box) (boxes : Boxes) (id : String)
    → boxes "c1" ≡ kept
    → (restore_on setup kept boxes).0 ≡ some id
    → (boxes id ≡ none)
      × ((restore_on setup kept boxes).1 id ≡ some (record { running = true; setup = setup }))
restore_lem setup none boxes id e h =
    subst
      (λ name.
        (boxes name ≡ none)
        × ((restore_on setup none boxes).1 name ≡ some (record { running = true; setup = setup })))
      (ground (arith, h)) (e, refl)
restore_lem setup (some b) boxes id e h = ground (arith, h)

sample_podman-IsPodman : IsPodman checkpointed sample_podman
sample_podman-IsPodman = record {
  documented_engine = sample_engine-IsDocumented podman_setup;
  restore_makes = λ n s boxes id h. restore_lem (restored_by s) (boxes "c1") boxes id refl h;
}

abbrev pub sample_shop : ShopConfig
sample_shop = record {
  db_host = "db";
  db_port = 3306;
  db_name = "demos";
  db_user = "demo";
  db_password = "secret";
  demo_user = "demo@demo.com";
  demo_pass = "demodemo";
  base_domain = "example.org";
}

-- Every port accepts and answers 200.
abbrev pub sample_network : Network
sample_network = record {
  accepts = λ n port. true;
  responds = λ n port. some 200;
  time = λ n. 7;
  uuid = λ n. "0123-4567-89ab";
}

abbrev pub sample_options : ContainerOptions
sample_options = record {
  common = record { name = "demo-1"; hostname = "demo1"; port = 3001; db_prefix = "d01234567_" };
  image = "shop";
  env_vars = [];
  labels = [];
  network_id = "";
}

docker_runtime_example :
    IsRuntime sample_shop sample_network checkpointed
      (docker_abilities (sample_engine docker_setup) sample_shop)
      (docker_runtime (sample_engine docker_setup) sample_shop sample_network)
docker_runtime_example =
    docker_runtime-IsRuntime (sample_engine docker_setup) sample_shop sample_network checkpointed
      (sample_engine-IsDocumented docker_setup)

podman_runtime_example :
    IsRuntime sample_shop sample_network checkpointed
      (podman_abilities sample_podman sample_shop sample_network)
      (podman_runtime true sample_podman sample_shop sample_network)
podman_runtime_example =
    podman_runtime-IsRuntime true sample_podman sample_shop sample_network checkpointed
      sample_podman-IsPodman
