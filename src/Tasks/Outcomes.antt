-- ===== src/Tasks/Outcomes.antt =====
-- What becomes of a message, whatever faults the commands meet.
use try_it_now.Base.{
  ◌≡◌, refl, ◌∙◌, Bool, true, false, Option, none, some, List, [], ◌∷◌, arith, ltb, str_eq,
  if◌then◌else◌, inl, inr,
}
use try_it_now.Domain.{Error}
use try_it_now.Valkey.{IsDocumented}
use try_it_now.World.{Services, World, Result, Result-cases, ok, err, M, pure, continue, ◌>>◌}
use try_it_now.Pool.{Config, stop_container, drop_tables, remove_route}
use try_it_now.Store.Ports.{release_port}
use try_it_now.Store.Instances.{delete_instance}
use try_it_now.Provision.{provision_instance}
use try_it_now.Provision.Growth.{Grown, provision_instance-Grown}
use try_it_now.Tasks.{
  ProvisionTask, CleanupTask, Verdict, ack, nak, term, Round, stop_signal, fetch_failed, fetched,
  process_provision_message, process_cleanup_message, cleanup_handler, run_worker, unless,
}

-- A step that may be left out never fails.
unless_then :
    {B : Type 0} (b : Bool) (m : M (Unit {0})) (k : M B) (w : World)
    → (unless b m >> k) w ≡ k (unless b m w).1
unless_then true m k w = refl
unless_then false m k w = refl

-- The world after the container, the tables and the route have been asked to go.
unfoldable pub before_cleanup_port : Services → CleanupTask → World → World
before_cleanup_port x task w =
    let w₁ = (unless (str_eq task.container_id "") (stop_container x task.container_id) w).1 in
    let w₂ = (drop_tables x x.database task.db_prefix w₁).1 in
    (unless (str_eq task.hostname "") (remove_route x task.hostname) w₂).1

-- And after the port has been given back.
unfoldable pub before_cleanup_delete : Services → CleanupTask → World → World
before_cleanup_delete x task w =
    (unless (if ltb 0 task.port then false else true) (release_port x task.port)
      (before_cleanup_port x task w)).1

pub cleanup_steps :
    (x : Services) (task : CleanupTask) (w : World)
    → cleanup_handler x task w ≡ (
      ok tt,
      (unless
          (str_eq task.instance_id "")
          (delete_instance x task.instance_id)
          (before_cleanup_delete x task w)).1,
    )
unfolding cleanup_handler before_cleanup_delete before_cleanup_port
cleanup_steps x task w =
    unless_then (str_eq task.container_id "") (stop_container x task.container_id) _ w
    ∙ unless_then (str_eq task.hostname "") (remove_route x task.hostname) _ _
    ∙ unless_then (if ltb 0 task.port then false else true) (release_port x task.port) _ _
    ∙ unless_then (str_eq task.instance_id "") (delete_instance x task.instance_id) (pure tt) _

-- A cleanup task that decodes is acknowledged whatever fails in it: its steps are never tried again.
pub process_cleanup_message_acks :
    (x : Services) (task : CleanupTask) (w : World)
    → (process_cleanup_message x (some task) w).0 ≡ ok ack
unfolding process_cleanup_message
process_cleanup_message_acks x task w = rw (cleanup_steps x task w)

-- A provisioning task that is acknowledged has put one more identifier at the end of the queue.
pub process_provision_message-Grown :
    (x : Services) (c : Config) (task : ProvisionTask) (w : World)
    → IsDocumented x.valkey
    → (process_provision_message x c (some task) w).0 ≡ ok ack
    → Grown w.keyspace (process_provision_message x c (some task) w).1.keyspace
unfolding process_provision_message
process_provision_message-Grown x c task w d h = elim (Result-cases (provision_instance x c w).0) [
  | inl (_, done) ↦ rw done (provision_instance-Grown x c w d done)
  | inr (e, failed) ↦ ground (arith, failed)
]

-- A run of a provisioning worker: what it tells the server of each message, and what it has done.
-- A message that does not decode is terminated, and nothing changes. One that decodes is acknowledged
-- only with one identifier more at the end of the queue, and given back where its provisioning has
-- failed. After a signal to stop no message is handled; one that is held then is given back as it is.
pub data Worked (x : Services) (c : Config)
    : List (Round (Option ProvisionTask)) → World → List Verdict → World → Type 0 where
  no_more : (w : World) → Worked x c [] w [] w
  stops :
      (rounds : List (Round (Option ProvisionTask))) (w : World)
      → Worked x c (stop_signal ∷ rounds) w [] w
  gives_back :
      (message : Option ProvisionTask) (rounds : List (Round (Option ProvisionTask))) (w : World)
      → Worked x c (fetched true message ∷ rounds) w (nak ∷ []) w
  fetches_nothing :
      (rounds : List (Round (Option ProvisionTask))) (w w' : World) (vs : List Verdict)
      → Worked x c rounds w vs w'
      → Worked x c (fetch_failed ∷ rounds) w vs w'
  terminates :
      (rounds : List (Round (Option ProvisionTask))) (w w' : World) (vs : List Verdict)
      → Worked x c rounds w vs w'
      → Worked x c (fetched false none ∷ rounds) w (term ∷ vs) w'
  provisions :
      (task : ProvisionTask) (rounds : List (Round (Option ProvisionTask))) (w w' : World)
      (vs : List Verdict)
      → Grown w.keyspace (provision_instance x c w).1.keyspace
      → Worked x c rounds (provision_instance x c w).1 vs w'
      → Worked x c (fetched false (some task) ∷ rounds) w (ack ∷ vs) w'
  fails :
      (task : ProvisionTask) (rounds : List (Round (Option ProvisionTask))) (w w' : World)
      (vs : List Verdict) (e : Error)
      → (provision_instance x c w).0 ≡ err e
      → Worked x c rounds (provision_instance x c w).1 vs w'
      → Worked x c (fetched false (some task) ∷ rounds) w (nak ∷ vs) w'

-- It ends without an error, in such a run.
abbrev pub WorkedThrough :
    Services
    → Config
    → List (Round (Option ProvisionTask))
    → World
    → Result (List Verdict) × World
    → Type 0
WorkedThrough x c rounds w (err e, w') = ⊥
WorkedThrough x c rounds w (ok vs, w') = Worked x c rounds w vs w'

module _ (x : Services) (c : Config) (task : ProvisionTask)
    (rounds : List (Round (Option ProvisionTask))) (w : World) where
  goes_on :
      (v : Verdict) (later : Result (List Verdict)) (before after : World)
      → ((vs : List Verdict)
          → Worked x c rounds before vs after
          → Worked x c (fetched false (some task) ∷ rounds) w (v ∷ vs) after)
      → WorkedThrough x c rounds before (later, after)
      → WorkedThrough x c
          (fetched false (some task) ∷ rounds)
          w
          (continue later (λ vs. pure (v ∷ vs)) after)
  goes_on v (ok vs) before after step h = step vs h
  goes_on v (err e) before after step h = h

goes_on_malformed :
    (x : Services) (c : Config) (rounds : List (Round (Option ProvisionTask))) (w after : World)
    (later : Result (List Verdict))
    → WorkedThrough x c rounds w (later, after)
    → WorkedThrough x c
        (fetched false none ∷ rounds)
        w
        (continue later (λ vs. pure (term ∷ vs)) after)
goes_on_malformed x c rounds w after (ok vs) h = terminates rounds w after vs h
goes_on_malformed x c rounds w after (err e) h = h

fetched_nothing :
    (x : Services) (c : Config) (rounds : List (Round (Option ProvisionTask))) (w : World)
    (r : Result (List Verdict) × World)
    → WorkedThrough x c rounds w r
    → WorkedThrough x c (fetch_failed ∷ rounds) w r
fetched_nothing x c rounds w (ok vs, after) h = fetches_nothing rounds w after vs h
fetched_nothing x c rounds w (err e, after) h = h

-- On a server that behaves as documented, whatever faults the commands meet and in whatever order
-- signals, failed fetches and messages come: a provisioning worker ends without an error. It
-- terminates each message that does not decode, without doing anything else; it acknowledges a task
-- only with one identifier more at the end of the queue than before it, and gives it back where its
-- provisioning fails; and it handles no message once the signal to stop has come.
pub run_worker-WorkedThrough :
    (x : Services) (c : Config) (rounds : List (Round (Option ProvisionTask))) (w : World)
    → IsDocumented x.valkey
    → WorkedThrough x c rounds w (run_worker (process_provision_message x c) rounds w)
unfolding run_worker process_provision_message
run_worker-WorkedThrough x c [] w d = no_more w
run_worker-WorkedThrough x c (stop_signal ∷ rounds) w d = stops rounds w
run_worker-WorkedThrough x c (fetched true message ∷ rounds) w d = gives_back message rounds w
run_worker-WorkedThrough x c (fetch_failed ∷ rounds) w d =
    fetched_nothing x c rounds w (run_worker (process_provision_message x c) rounds w)
      (run_worker-WorkedThrough x c rounds w d)
run_worker-WorkedThrough x c (fetched false none ∷ rounds) w d =
    let rest = run_worker (process_provision_message x c) rounds w in
    goes_on_malformed x c rounds w rest.1 rest.0 (run_worker-WorkedThrough x c rounds w d)
run_worker-WorkedThrough x c (fetched false (some task) ∷ rounds) w d =
    let w₁ = (provision_instance x c w).1 in
    let rest = run_worker (process_provision_message x c) rounds w₁ in
    let later = run_worker-WorkedThrough x c rounds w₁ d in
    elim (Result-cases (provision_instance x c w).0) [
      | inl (_, done) ↦
          let grown = provision_instance-Grown x c w d done in
          rw done (
            goes_on x c task rounds w ack rest.0 w₁ rest.1
              (λ vs worked. provisions task rounds w rest.1 vs grown worked) later)
      | inr (e, failed) ↦ rw failed (
          goes_on x c task rounds w nak rest.0 w₁ rest.1
            (λ vs worked. fails task rounds w rest.1 vs e failed worked) later)
    ]
