-- ===== src/Checkpoint.antt =====
-- cmd/checkpoint/main.go: the program that makes the checkpoint from which Podman restores. What the
-- commands that it runs, the shop and the file system answer are parameters; what it asks of them is
-- kept, oldest first. Logging and the report at the end are left out.
pub mod Health
pub mod Order
pub mod Removal
use try_it_now.Base.{
  ℕ, zero, suc, ◌+◌, ◌*◌, String, Bool, true, false, Option, none, some, List, [], ◌∷◌, ◌++◌, ltb,
  ◌==◌, if◌then◌else◌,
}
use Prim.Native.Char.{code}
use Prim.Native.String
use try_it_now.Base.Text.{◌<>◌, decimal, split_at, trim_space}
use try_it_now.Domain.{second}

-- CheckpointMetadata; what is not known is left out.
pub record CheckpointMetadata : Type 0 where
  pub version : String
  pub image : String
  pub image_digest : Option String
  pub created_at : ℕ
  pub criu_version : Option String
  pub podman_version : Option String
  pub host : Option String
  pub db_host : String
  pub db_name : String
  pub db_prefix : String

-- config
pub record Flags : Type 0 where
  pub image : String
  pub container_name : String
  pub port : ℕ
  pub mysql_host : String
  pub mysql_user : String
  pub mysql_pass : String
  pub mysql_db : String
  pub db_prefix : String
  pub checkpoint_path : String
  pub keep_container : Bool
  pub timeout : ℕ

-- What parseFlags sets where no flag is given.
abbrev pub default_flags : Flags
default_flags = record {
  image = "prestashop/prestashop-flashlight:9.0.0";
  container_name = "prestashop-checkpoint-template";
  port = 8888;
  mysql_host = "host.containers.internal";
  mysql_user = "demo";
  mysql_pass = "devpass";
  mysql_db = "prestashop_demos";
  db_prefix = "template_";
  checkpoint_path = "/var/lib/checkpoints/prestashop.tar.gz";
  keep_container = false;
  timeout = 600 * second;
}

-- What is asked, and what came of it: a command's success or output, and the status of a request.
pub data Act : Type 0 where
  ran : List String → Bool → Act
  read_output : List String → Option String → Act
  visited : String → Option ℕ → Act
  directory_made : String → Bool → Act
  written : String → CheckpointMetadata → Bool → Act

-- The answers, by the place of the question in the run, and how long each took.
pub record Host : Type 0 where
  pub succeeds : ℕ → List String → Bool
  pub output : ℕ → List String → Option String
  pub status : ℕ → String → Option ℕ
  pub makes_directory : ℕ → String → Bool
  pub writes : ℕ → String → Bool
  pub name : Option String
  pub elapsed : ℕ → ℕ

pub record Machine : Type 0 where
  pub clock : ℕ
  pub place : ℕ
  pub acts : List Act

abbrev pub Step : Type 0 → Type 0
Step A = Machine → A × Machine

abbrev pub keep_act : Host → Act → Machine → Machine
keep_act h a m = record m {
  clock = m.clock + h.elapsed m.place;
  place = suc m.place;
  acts = m.acts ++ a ∷ [];
}

unfoldable pub run_command : Host → List String → Step Bool
run_command h args m =
    let answer = h.succeeds m.place args in (answer, keep_act h (ran args answer) m)

unfoldable pub visit : Host → String → Step (Option ℕ)
visit h url m = let answer = h.status m.place url in (answer, keep_act h (visited url answer) m)

unfoldable pub command_output : Host → List String → Step (Option String)
command_output h args m =
    let answer = h.output m.place args in (answer, keep_act h (read_output args answer) m)

-- cleanupContainer: what the commands come to is not looked at.
unfoldable pub cleanup_container : Host → String → Machine → Machine
unfolding run_command
cleanup_container h name m =
    let (_, m₁) = run_command h ("podman" ∷ "stop" ∷ name ∷ []) m in
    let (_, m₂) = run_command h ("podman" ∷ "rm" ∷ "-f" ∷ name ∷ []) m₁ in m₂

unfoldable pub start_args : Flags → List String
start_args f =
    "podman"
    ∷ "run"
    ∷ "-d"
    ∷ "--name"
    ∷ f.container_name
    ∷ "-p"
    ∷ (decimal f.port <> ":80")
    ∷ "-e"
    ∷ "PS_DOMAIN=template.internal"
    ∷ "-e"
    ∷ ("MYSQL_HOST=" <> f.mysql_host)
    ∷ "-e"
    ∷ ("MYSQL_USER=" <> f.mysql_user)
    ∷ "-e"
    ∷ ("MYSQL_PASSWORD=" <> f.mysql_pass)
    ∷ "-e"
    ∷ ("MYSQL_DATABASE=" <> f.mysql_db)
    ∷ "-e"
    ∷ ("DB_PREFIX=" <> f.db_prefix)
    ∷ "-e"
    ∷ "PS_DEV_MODE=0"
    ∷ f.image
    ∷ []

unfoldable pub start_container : Host → Flags → Step Bool
unfolding run_command
start_container h f m = run_command h (start_args f) m

-- `resp.StatusCode < 500`
abbrev pub is_ready : Option ℕ → Bool
is_ready none = false
is_ready (some status) = ltb status 500

abbrev pub sleep : ℕ → Machine → Machine
sleep duration m = record m { clock = m.clock + duration }

-- waitForHealth, on fuel; `none` means that the fuel ran out. `expires` is the time at which the
-- context is done.
unfoldable pub wait_for_health : ℕ → Host → ℕ → ℕ → String → Machine → Option (Bool × Machine)
wait_for_health zero h expires deadline url m = none
wait_for_health (suc fuel) h expires deadline url m =
    let answer = h.status m.place url in
    let after = keep_act h (visited url answer) m in
    elim (ltb m.clock deadline) [
      | false ↦ some (false, m)
      | true ↦ elim (ltb m.clock expires) [
        | false ↦ some (false, m)
        | true ↦ elim (is_ready answer) [
          | true ↦ some (true, after)
          | false ↦ wait_for_health fuel h expires deadline url (sleep (2 * second) after)
        ]
      ]
    ]

abbrev pub base_url : Flags → String
base_url f = "http://localhost:" <> decimal f.port

-- warmCaches: what the pages answer is not looked at.
unfoldable pub visit_all : Host → List String → Machine → Machine
unfolding visit
visit_all h [] m = m
visit_all h (url ∷ urls) m = let (_, m') = visit h url m in visit_all h urls m'

unfoldable pub warm_caches : Host → Flags → Machine → Machine
unfolding visit_all
warm_caches h f m =
    visit_all h
      ((base_url f <> "/") ∷ (base_url f <> "/en/2-home-accessories") ∷ (base_url f <> "/en/") ∷ [])
      m

-- `path[:strings.LastIndex(path, "/")]`; without a slash the index is -1 and the expression panics.
unfoldable pub directory_of : String → Option String
directory_of String.[] = none
directory_of (String.◌∷◌ c s) = elim (directory_of s) [
  | some front ↦ some (String.◌∷◌ c front)
  | none ↦ if code c == b'/' then some "" else none
]

unfoldable pub checkpoint_args : Flags → List String
checkpoint_args f =
    "podman" ∷ "container" ∷ "checkpoint" ∷ "--export" ∷ f.checkpoint_path ∷ "--tcp-established"
    ∷ f.container_name ∷ []

-- What a step comes to.
pub data Outcome : Type 0 where
  done failed panicked : Outcome

-- First without sudo, then with it.
unfoldable pub export_checkpoint : Host → Flags → Step Outcome
unfolding run_command checkpoint_args
export_checkpoint h f m =
    let (plain, m₁) = run_command h (checkpoint_args f) m in
    let (with_sudo, m₂) = run_command h ("sudo" ∷ checkpoint_args f) m₁ in
    if plain then (done, m₁) else (if with_sudo then done else failed, m₂)

abbrev pub create_checkpoint_in : Host → Flags → Option String → Step Outcome
create_checkpoint_in h f none m = (panicked, m)
create_checkpoint_in h f (some directory) m =
    let made = h.makes_directory m.place directory in
    let m' = keep_act h (directory_made directory made) m in
    if made then export_checkpoint h f m' else (failed, m')

unfoldable pub create_checkpoint : Host → Flags → Step Outcome
unfolding export_checkpoint directory_of
create_checkpoint h f m = create_checkpoint_in h f (directory_of f.checkpoint_path) m

abbrev pub trimmed : Option String → Option String
trimmed none = none
trimmed (some s) = some (trim_space s)

-- getImageDigest and getPodmanVersion; getCRIUVersion takes the first line.
abbrev pub first_line : List String → String
first_line [] = ""
first_line (line ∷ lines) = line

abbrev pub trimmed_line : Option String → Option String
trimmed_line none = none
trimmed_line (some s) = some (trim_space (first_line (split_at (λ d. d == b'\n') s)))

-- generateMetadata
unfoldable pub generate_metadata : Host → Flags → Machine → Machine
unfolding command_output
generate_metadata h f m =
    let created = m.clock in
    let (digest, m₁) =
      command_output h ("podman" ∷ "image" ∷ "inspect" ∷ "--format" ∷ "{{.Digest}}" ∷ f.image ∷ [])
        m in
    let (criu, m₂) = command_output h ("criu" ∷ "--version" ∷ []) m₁ in
    let (podman, m₃) = command_output h ("podman" ∷ "--version" ∷ []) m₂ in
    let meta : CheckpointMetadata = record {
      version = "1.0";
      image = f.image;
      image_digest = trimmed digest;
      created_at = created;
      criu_version = trimmed_line criu;
      podman_version = trimmed podman;
      host = h.name;
      db_host = f.mysql_host;
      db_name = f.mysql_db;
      db_prefix = f.db_prefix;
    } in
    let path = f.checkpoint_path <> ".json" in
    keep_act h (written path meta (h.writes m₃.place path)) m₃

abbrev pub clean_unless : Bool → Host → Flags → Machine → Machine
clean_unless true h f m = m
clean_unless false h f m = cleanup_container h f.container_name m

-- main, once the checkpoint has been tried; log.Fatalf exits.
abbrev pub finish : Host → Flags → Outcome × Machine → Outcome × Machine
finish h f (panicked, m) = (panicked, m)
finish h f (failed, m) = (failed, clean_unless f.keep_container h f m)
finish h f (done, m) = (done, clean_unless f.keep_container h f (generate_metadata h f m))

-- main, once the wait is over.
abbrev pub checkpoint_ready : Host → Flags → Option (Bool × Machine) → Option (Outcome × Machine)
checkpoint_ready h f none = none
checkpoint_ready h f (some (false, m)) = some (failed, cleanup_container h f.container_name m)
checkpoint_ready h f (some (true, m)) =
    some (finish h f (create_checkpoint h f (warm_caches h f m)))

-- main, once the container has been asked to start.
abbrev pub wait_started : ℕ → Host → Flags → ℕ → Bool × Machine → Option (Outcome × Machine)
wait_started fuel h f expires (false, m) = some (failed, m)
wait_started fuel h f expires (true, m) =
    checkpoint_ready h f
      (wait_for_health fuel h expires (m.clock + 300 * second) (base_url f <> "/") m)

unfoldable pub main : ℕ → Host → Flags → Machine → Option (Outcome × Machine)
unfolding cleanup_container start_container
main fuel h f m =
    wait_started fuel h f (m.clock + f.timeout)
      (start_container h f (cleanup_container h f.container_name m))
