-- ===== src/Checkpoint/Order.antt =====
-- What cmd/checkpoint asks of the host, and in what order.
use try_it_now.Base.{
  ℕ, ◌≡◌, ◌≢◌, refl, sym, ◌∙◌, ap, String, Bool, true, false, Option, none, some, List, [], ◌∷◌,
  ◌++◌, ◌&&◌, ◌||◌, if◌then◌else◌, map, str_eq, Bool-cases, inl, inr,
}
use try_it_now.Base.Text.{◌<>◌}
use try_it_now.Checkpoint.{
  Act, ran, read_output, visited, directory_made, written, Host, Flags, Machine, Outcome, done,
  failed, panicked, keep_act, base_url, start_args, start_container, run_command, command_output,
  visit, visit_all, warm_caches, cleanup_container, directory_of, checkpoint_args,
  export_checkpoint, create_checkpoint_in, create_checkpoint, generate_metadata, clean_unless,
  finish, checkpoint_ready, main,
}
use try_it_now.Checkpoint.Health.{below_500, Told, Waited, main_cases}

-- `podman container checkpoint …`, and the same under sudo.
abbrev exports : List String → Bool
exports (a ∷ b ∷ c ∷ args) = str_eq a "podman" && str_eq b "container" && str_eq c "checkpoint"
exports args = false

abbrev is_export : List String → Bool
is_export (a ∷ args) = exports (a ∷ args) || (str_eq a "sudo" && exports args)
is_export [] = false

-- What has been seen: no request answered below 500, such a request, or a checkpoint before any.
pub data Seen : Type 0 where
  not_ready ready too_early : Seen

abbrev pub note : Seen → Act → Seen
note too_early a = too_early
note ready a = ready
note not_ready (visited url answer) = if below_500 answer then ready else not_ready
note not_ready (ran args ok) = if is_export args then too_early else not_ready
note not_ready (read_output args out) = not_ready
note not_ready (directory_made path ok) = not_ready
note not_ready (written path meta ok) = not_ready

pub seen : Seen → List Act → Seen
seen s [] = s
seen s (a ∷ acts) = seen (note s a) acts

seen-append : (s : Seen) (xs ys : List Act) → seen s (xs ++ ys) ≡ seen (seen s xs) ys
unfolding seen
seen-append s [] ys = refl
seen-append s (a ∷ xs) ys = seen-append (note s a) xs ys

seen-ready : (acts : List Act) → seen ready acts ≡ ready
unfolding seen
seen-ready [] = refl
seen-ready (a ∷ acts) = seen-ready acts

-- What a wait that ended tells is what has been seen.
seen-answers :
    (url : String) (result : Bool) (answers : List (Option ℕ))
    → Told result answers
    → seen not_ready (map (visited url) answers) ≡ (if result then ready else not_ready)
unfolding seen
seen-answers url result [] told = rw told
seen-answers url result (answer ∷ later) told = elim (Bool-cases (below_500 answer)) [
  | inl good ↦
      rw (good, seen)
        (seen-ready (map (visited url) later)
          ∙ ap (λ b. if b then ready else not_ready) (sym (rw good at told).0))
  | inr busy ↦ rw (busy, seen) (seen-answers url result later (rw busy at told))
]

abbrev pub view : Machine → Seen
view m = seen not_ready m.acts

module _ (h : Host) where
  -- What an act adds to what has been seen.
  view-keep_act : (a : Act) (m : Machine) → view (keep_act h a m) ≡ note (view m) a
  unfolding seen
  view-keep_act a m = seen-append not_ready m.acts (a ∷ [])

  view-run_command :
      (args : List String) (m : Machine)
      → view (run_command h args m).1 ≡ note (view m) (ran args (h.succeeds m.place args))
  unfolding run_command
  view-run_command args m = view-keep_act (ran args (h.succeeds m.place args)) m

  run_command-ready :
      (args : List String) (m : Machine) → view m ≡ ready → view (run_command h args m).1 ≡ ready
  run_command-ready args m r = view-run_command args m ∙ rw r refl

  run_command-not_ready :
      (args : List String) (m : Machine)
      → is_export args ≡ false
      → view m ≡ not_ready
      → view (run_command h args m).1 ≡ not_ready
  run_command-not_ready args m e r = view-run_command args m ∙ rw (r, note, e) refl

  cleanup_container-ready :
      (name : String) (m : Machine) → view m ≡ ready → view (cleanup_container h name m) ≡ ready
  unfolding cleanup_container
  cleanup_container-ready name m r =
      run_command-ready _ (run_command h ("podman" ∷ "stop" ∷ name ∷ []) m).1
        (run_command-ready _ m r)

  cleanup_container-not_ready :
      (name : String) (m : Machine)
      → view m ≡ not_ready
      → view (cleanup_container h name m) ≡ not_ready
  unfolding cleanup_container
  cleanup_container-not_ready name m r =
      run_command-not_ready _ (run_command h ("podman" ∷ "stop" ∷ name ∷ []) m).1 refl
        (run_command-not_ready _ m refl r)

  start_container-not_ready :
      (f : Flags) (m : Machine) → view m ≡ not_ready → view (start_container h f m).1 ≡ not_ready
  unfolding start_args start_container
  start_container-not_ready f m r = run_command-not_ready _ m refl r

  visit_all-ready :
      (urls : List String) (m : Machine) → view m ≡ ready → view (visit_all h urls m) ≡ ready
  unfolding visit visit_all
  visit_all-ready [] m r = r
  visit_all-ready (url ∷ urls) m r =
      visit_all-ready urls (keep_act h (visited url (h.status m.place url)) m)
        (view-keep_act (visited url (h.status m.place url)) m ∙ rw r refl)

  -- A wait that ended: what it tells is what has been seen.
  wait-view :
      (url : String) (m m' : Machine) (result : Bool)
      → view m ≡ not_ready
      → Waited 150 url m (some (result, m'))
      → view m' ≡ (if result then ready else not_ready)
  wait-view url m m' result r (answers, asked, few, told) =
      ap (λ acts. seen not_ready acts) asked
      ∙ seen-append not_ready m.acts (map (visited url) answers)
      ∙ ap (λ s. seen s (map (visited url) answers)) r
      ∙ seen-answers url result answers told

  clean_unless-ready :
      (keep : Bool) (f : Flags) (m : Machine)
      → view m ≡ ready
      → view (clean_unless keep h f m) ≡ ready
  clean_unless-ready true f m r = r
  clean_unless-ready false f m r = cleanup_container-ready f.container_name m r

  command_output-ready :
      (args : List String) (m : Machine) → view m ≡ ready → view (command_output h args m).1 ≡ ready
  unfolding command_output
  command_output-ready args m r =
      view-keep_act (read_output args (h.output m.place args)) m ∙ rw r refl

  keep_act-ready : (a : Act) (m : Machine) → view m ≡ ready → view (keep_act h a m) ≡ ready
  keep_act-ready a m r = view-keep_act a m ∙ rw r refl

  generate_metadata-ready :
      (f : Flags) (m : Machine) → view m ≡ ready → view (generate_metadata h f m) ≡ ready
  unfolding generate_metadata
  generate_metadata-ready f m r =
      let digest = "podman" ∷ "image" ∷ "inspect" ∷ "--format" ∷ "{{.Digest}}" ∷ f.image ∷ [] in
      let m₁ = (command_output h digest m).1 in
      let m₂ = (command_output h ("criu" ∷ "--version" ∷ []) m₁).1 in
      let m₃ = (command_output h ("podman" ∷ "--version" ∷ []) m₂).1 in
      keep_act-ready _ m₃
        (command_output-ready _ m₂ (command_output-ready _ m₁ (command_output-ready digest m r)))

  either-ready :
      (b : Bool) (x y : Outcome × Machine)
      → view x.1 ≡ ready
      → view y.1 ≡ ready
      → view (if b then x else y).1 ≡ ready
  either-ready true x y p q = p
  either-ready false x y p q = q

  export_checkpoint-ready :
      (f : Flags) (m : Machine) → view m ≡ ready → view (export_checkpoint h f m).1 ≡ ready
  unfolding export_checkpoint checkpoint_args
  export_checkpoint-ready f m r =
      let m₁ = (run_command h (checkpoint_args f) m).1 in
      let first = run_command-ready (checkpoint_args f) m r in
      either-ready (run_command h (checkpoint_args f) m).0 (done, m₁) _ first
        (run_command-ready ("sudo" ∷ checkpoint_args f) m₁ first)

  create_checkpoint-ready :
      (f : Flags) (m : Machine) → view m ≡ ready → view (create_checkpoint h f m).1 ≡ ready
  unfolding create_checkpoint
  create_checkpoint-ready f m r = create_checkpoint_in-ready f (directory_of f.checkpoint_path) m r
    where
      create_checkpoint_in-ready :
          (f : Flags) (directory : Option String) (m : Machine)
          → view m ≡ ready
          → view (create_checkpoint_in h f directory m).1 ≡ ready
      create_checkpoint_in-ready f none m r = r
      create_checkpoint_in-ready f (some directory) m r =
          let made = h.makes_directory m.place directory in
          let m' = keep_act h (directory_made directory made) m in
          let after = keep_act-ready (directory_made directory made) m r in
          either-ready made (export_checkpoint h f m') (failed, m')
            (export_checkpoint-ready f m' after) after

-- The run ended, and it made no checkpoint before a request was answered below 500. Unless it failed,
-- there was such a request.
abbrev pub Kept : Option (Outcome × Machine) → Type 0
Kept none = ⊥
Kept (some (failed, m)) = view m ≢ too_early
Kept (some (done, m)) = view m ≡ ready
Kept (some (panicked, m)) = view m ≡ ready

finish-Kept :
    (h : Host) (f : Flags) (x : Outcome × Machine) → view x.1 ≡ ready → Kept (some (finish h f x))
finish-Kept h f (panicked, m) r = r
finish-Kept h f (failed, m) r =
    let after : view (clean_unless f.keep_container h f m) ≡ ready =
      clean_unless-ready h f.keep_container f m r in
    λ early. cc
finish-Kept h f (done, m) r =
    clean_unless-ready h f.keep_container f _ (generate_metadata-ready h f m r)

ready-Kept :
    (h : Host) (f : Flags) (answer : Bool) (m : Machine)
    → view m ≡ (if answer then ready else not_ready)
    → Kept (checkpoint_ready h f (some (answer, m)))
unfolding warm_caches
ready-Kept h f false m r =
    let after : view (cleanup_container h f.container_name m) ≡ not_ready =
      cleanup_container-not_ready h f.container_name m r in
    λ early. cc
ready-Kept h f true m r = finish-Kept h f (create_checkpoint h f (warm_caches h f m)) (
    create_checkpoint-ready h f (warm_caches h f m) (
      visit_all-ready h
        ((base_url f <> "/")
          ∷ (base_url f <> "/en/2-home-accessories")
          ∷ (base_url f <> "/en/")
          ∷ [])
        m r))

-- The whole run ends, with 151 units of fuel, and keeps the order: on every path, failing commands and
-- a timeout included, no `podman container checkpoint`, plain or under sudo, comes before a request that
-- was answered below 500; and a run that did not fail has made such a request.
pub main-keeps_order : (h : Host) (f : Flags) (m : Machine) → m.acts ≡ [] → Kept (main 151 h f m)
unfolding seen
main-keeps_order h f m fresh =
    let not_yet : view m ≡ not_ready = ap (seen not_ready) fresh in
    let running : view (start_container h f (cleanup_container h f.container_name m)).1
        ≡ not_ready =
      start_container-not_ready h f _ (cleanup_container-not_ready h f.container_name m not_yet) in
    main_cases Kept h f m (λ _. λ early. cc)
      λ answer m' waiting. ready-Kept h f answer m' (
        wait-view h (base_url f <> "/")
          (start_container h f (cleanup_container h f.container_name m)).1 m' answer running
          waiting)
