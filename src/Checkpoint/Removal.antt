-- ===== src/Checkpoint/Removal.antt =====
-- What becomes of the container of cmd/checkpoint when a run is over.
use try_it_now.Base.{
  ◌≡◌, ◌≢◌, ◌⊎◌, refl, ◌∙◌, String, Bool, true, false, Option, none, some, List, [], ◌∷◌, ◌++◌,
  arith, inl, inr,
}
use try_it_now.Checkpoint.{
  Act, ran, directory_made, Host, Flags, Machine, Outcome, done, failed, panicked, keep_act,
  start_args, start_container, run_command, warm_caches, cleanup_container, directory_of,
  export_checkpoint, create_checkpoint_in, create_checkpoint, clean_unless, finish,
  checkpoint_ready, main,
}
use try_it_now.Checkpoint.Health.{main_cases}

pub last_act : List Act → Option Act
last_act [] = none
last_act (a ∷ []) = some a
last_act (a ∷ b ∷ acts) = last_act (b ∷ acts)

last_act-append : (xs : List Act) (a : Act) → last_act (xs ++ a ∷ []) ≡ some a
unfolding last_act
last_act-append [] a = refl
last_act-append (x ∷ []) a = refl
last_act-append (x ∷ y ∷ xs) a = last_act-append (y ∷ xs) a

-- The last thing done was to remove the container by force.
abbrev pub IsRemoved : Flags → Machine → Type 0
IsRemoved f m =
    (ok : Bool) × (last_act m.acts ≡ some (ran ("podman" ∷ "rm" ∷ "-f" ∷ f.container_name ∷ []) ok))

-- The last thing done was a start that failed.
abbrev pub IsUnstarted : Flags → Machine → Type 0
IsUnstarted f m = last_act m.acts ≡ some (ran (start_args f) false)

-- The run ended without a panic and removed the container, or failed to start it and did no more.
abbrev pub Tidied : Flags → Option (Outcome × Machine) → Type 0
Tidied f none = ⊥
Tidied f (some (panicked, m)) = ⊥
Tidied f (some (done, m)) = IsRemoved f m
Tidied f (some (failed, m)) = IsRemoved f m ⊎ IsUnstarted f m

module _ (h : Host) (f : Flags) where
  cleanup_container-IsRemoved : (m : Machine) → IsRemoved f (cleanup_container h f.container_name m)
  unfolding run_command cleanup_container
  cleanup_container-IsRemoved m = (_, last_act-append _ _)

  start_container-IsUnstarted :
      (m : Machine) → (start_container h f m).0 ≡ false → IsUnstarted f (start_container h f m).1
  unfolding run_command start_container
  start_container-IsUnstarted m e = last_act-append m.acts _ ∙ rw e refl

  clean_unless-IsRemoved :
      (keep : Bool) (m : Machine) → keep ≡ false → IsRemoved f (clean_unless keep h f m)
  clean_unless-IsRemoved true m e = cc
  clean_unless-IsRemoved false m e = cleanup_container-IsRemoved m

  finish-Tidied :
      (x : Outcome × Machine)
      → f.keep_container ≡ false
      → x.0 ≢ panicked
      → Tidied f (some (finish h f x))
  finish-Tidied (panicked, m) e n = absurd (n refl)
  finish-Tidied (failed, m) e n = inl (clean_unless-IsRemoved f.keep_container m e)
  finish-Tidied (done, m) e n = clean_unless-IsRemoved f.keep_container _ e

  export_checkpoint-ne-panicked : (m : Machine) → (export_checkpoint h f m).0 ≢ panicked
  unfolding export_checkpoint
  export_checkpoint-ne-panicked m = λ e. ground (arith)

  create_checkpoint_in-ne-panicked :
      (directory : Option String) (m : Machine)
      → directory ≢ none
      → (create_checkpoint_in h f directory m).0 ≢ panicked
  create_checkpoint_in-ne-panicked none m given = absurd (given refl)
  create_checkpoint_in-ne-panicked (some directory) m given = λ e. ground (
    arith,
    export_checkpoint-ne-panicked
        (keep_act h (directory_made directory (h.makes_directory m.place directory)) m),
  )

  ready-Tidied :
      (answer : Bool) (m : Machine)
      → f.keep_container ≡ false
      → directory_of f.checkpoint_path ≢ none
      → Tidied f (checkpoint_ready h f (some (answer, m)))
  unfolding create_checkpoint
  ready-Tidied false m e given = inl (cleanup_container-IsRemoved m)
  ready-Tidied true m e given =
      finish-Tidied (create_checkpoint h f (warm_caches h f m)) e (
        create_checkpoint_in-ne-panicked (directory_of f.checkpoint_path) (warm_caches h f m) given)

  -- Without --keep-container, and with an output path that has a slash, a run ends with 151 units of
  -- fuel and does not panic. Its last command is `podman rm -f` of its container, whether it made the
  -- checkpoint or failed, unless what failed was the start: then the failed start is the last command,
  -- and nothing removes what it may have left.
  pub main-Tidied :
      (m : Machine)
      → f.keep_container ≡ false
      → directory_of f.checkpoint_path ≢ none
      → Tidied f (main 151 h f m)
  main-Tidied m e given =
      main_cases (Tidied f) h f m (λ unstarted. inr (start_container-IsUnstarted _ unstarted))
        (λ answer m' waiting. ready-Tidied answer m' e given)
