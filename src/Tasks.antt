-- ===== src/Tasks.antt =====
-- internal/queue: the handlers of tasks (handlers.go) and what a worker does with a message
-- (nats.go). NATS is left out but for what is told to it of each message.
pub mod Consumer
pub mod Outcomes
pub mod Publisher
pub mod Redelivery
use try_it_now.Base.{
  ℕ, zero, suc, ◌+◌, String, Bool, true, false, Option, none, some, List, [], ◌∷◌, ltb, str_eq,
  if◌then◌else◌,
}
use try_it_now.Domain.{Error}
use try_it_now.World.{Services, World, Result, ok, err, M, pure, fail, attempt, ◌>>=◌, ◌>>◌}
use try_it_now.Store.Instances.{delete_instance}
use try_it_now.Store.Ports.{release_port}
use try_it_now.Pool.{Config, stop_container, remove_route, drop_tables}
use try_it_now.Provision.{provision_instance}

pub record ProvisionTask : Type 0 where
  pub task_id : String
  pub priority : ℕ
  -- time.Time
  pub created_at : ℕ

pub record CleanupTask : Type 0 where
  pub task_id : String
  pub instance_id : String
  pub container_id : String
  pub db_prefix : String
  pub hostname : String
  pub port : ℕ
  pub created_at : ℕ

-- The provisioner is the pool manager.
unfoldable pub provision_handler : Services → Config → ProvisionTask → M (Unit {0})
provision_handler x c task = provision_instance x c

-- A step for a resource that the task may not name.
abbrev pub unless : Bool → M (Unit {0}) → M (Result (Unit {0}))
unless true m = pure (ok tt)
unless false m = attempt m

unfoldable pub cleanup_handler : Services → CleanupTask → M (Unit {0})
cleanup_handler x task = do
  unless (str_eq task.container_id "") (stop_container x task.container_id)
  attempt (drop_tables x x.database task.db_prefix)
  unless (str_eq task.hostname "") (remove_route x task.hostname)
  unless (if ltb 0 task.port then false else true) (release_port x task.port)
  unless (str_eq task.instance_id "") (delete_instance x task.instance_id)
  pure tt

-- What the worker tells the server of a message.
pub data Verdict : Type 0 where
  ack nak term : Verdict

abbrev pub verdict : Result (Unit {0}) → M Verdict
verdict (ok _) = pure ack
verdict (err e) = pure nak

-- The message's data as a task, `none` where it does not decode.
unfoldable pub process_provision_message : Services → Config → Option ProvisionTask → M Verdict
unfolding provision_handler
process_provision_message x c none = pure term
process_provision_message x c (some task) = do
  result ← attempt (provision_handler x c task)
  verdict result

unfoldable pub process_cleanup_message : Services → Option CleanupTask → M Verdict
process_cleanup_message x none = pure term
process_cleanup_message x (some task) = do result ← attempt (cleanup_handler x task); verdict result

-- A worker's loop, on what each round of it meets: a signal to stop, a failed fetch, or a message,
-- which is given back where the signal has come after the fetch.
pub data Round (A : Type 0) : Type 0 where
  stop_signal fetch_failed : Round A
  fetched : Bool → A → Round A

unfoldable pub run_worker : {A : Type 0} → (A → M Verdict) → List (Round A) → M (List Verdict)
run_worker process [] = pure []
run_worker process (stop_signal ∷ rounds) = pure []
run_worker process (fetch_failed ∷ rounds) = run_worker process rounds
run_worker process (fetched true message ∷ rounds) = pure (nak ∷ [])
run_worker process (fetched false message ∷ rounds) = do
  first ← process message
  others ← run_worker process rounds
  pure (first ∷ others)
