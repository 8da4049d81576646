-- ===== src/Checkpoint/Health.antt =====
-- The wait of cmd/checkpoint for a shop that is ready (waitForHealth).
use try_it_now.Base.{
  ℕ, zero, suc, ◌+◌, ◌*◌, ◌≤◌, ◌≡◌, refl, sym, ◌∙◌, ap, String, Bool, true, false, Option, none,
  some, List, [], ◌∷◌, ◌++◌, length, map, arith, ltb, Bool-cases, inl, inr,
}
use mathlib.Core.List.{append-nil, append_assoc}
use try_it_now.Domain.{second}
use try_it_now.Base.Text.{◌<>◌}
use try_it_now.Checkpoint.{
  visited, Host, Flags, Machine, Outcome, failed, keep_act, is_ready, sleep, base_url,
  start_container, cleanup_container, wait_for_health, checkpoint_ready, wait_started, main,
}

-- There was an answer, and it was no server error.
abbrev pub below_500 : Option ℕ → Bool
below_500 none = false
below_500 (some status) = ltb status 500

is_ready-below_500 : (answer : Option ℕ) → is_ready answer ≡ below_500 answer
is_ready-below_500 none = refl
is_ready-below_500 (some status) = refl

-- What the last of the answers decides, and no earlier one.
abbrev pub Decided : Bool → Bool → List (Option ℕ) → Type 0 → Type 0
Decided true result later rest = (result ≡ true) × (later ≡ [])
Decided false result later rest = rest

-- The result is that of the answers: `true` where the last one is ready, `false` where none is.
abbrev pub Told : Bool → List (Option ℕ) → Type 0
Told result [] = result ≡ false
Told result (answer ∷ later) = Decided (below_500 answer) result later (Told result later)

-- The wait ended: it made at most `most` requests, one after the other, and tells what came of them.
abbrev pub Waited : ℕ → String → Machine → Option (Bool × Machine) → Type 0
Waited most url m none = ⊥
Waited most url m (some (result, m')) =
    (answers : List (Option ℕ)) × (m'.acts ≡ m.acts ++ map (visited url) answers)
    × (length answers ≤ most)
    × Told result answers

module _ (h : Host) (expires deadline : ℕ) (url : String) where
  Waited-later :
      (most : ℕ) (m m' : Machine) (answer : Option ℕ) (r : Option (Bool × Machine))
      → m'.acts ≡ m.acts ++ visited url answer ∷ []
      → below_500 answer ≡ false
      → Waited most url m' r
      → Waited (suc most) url m r
  Waited-later most m m' answer none e not_yet w = w
  Waited-later most m m' answer (some (result, after)) e not_yet (answers, asked, few, told) = (
    answer ∷ answers,
    asked
        ∙ ap (λ acts. acts ++ map (visited url) answers) e
        ∙ append_assoc m.acts (visited url answer ∷ []) (map (visited url) answers),
    omega arith,
    rw not_yet told,
  )

  -- The wait after a request that was not answered well.
  abbrev resumed : Machine → Machine
  resumed m = sleep (2 * second) (keep_act h (visited url (h.status m.place url)) m)

  Waited-first :
      (most : ℕ) (m : Machine)
      → ltb m.clock deadline ≡ true
      → Waited most url (resumed m) (wait_for_health (suc most) h expires deadline url (resumed m))
      → Waited (suc most) url m (wait_for_health (suc (suc most)) h expires deadline url m)
  unfolding wait_for_health
  Waited-first most m early again = elim (Bool-cases (ltb m.clock expires)) [
    | inr gone ↦ rw (early, gone, wait_for_health) ([], sym (append-nil m.acts), omega arith, refl)
    | inl there ↦ elim (Bool-cases (is_ready (h.status m.place url))) [
      | inl ready ↦
          rw (early, there, ready, wait_for_health)
            (
              h.status m.place url ∷ [],
              refl,
              omega arith,
              rw (sym (is_ready-below_500 (h.status m.place url)) ∙ ready) (refl, refl),
            )
      | inr busy ↦
          rw (early, there, busy, wait_for_health)
            (Waited-later most m (resumed m) (h.status m.place url) _ refl
              (sym (is_ready-below_500 (h.status m.place url)) ∙ busy) again)
    ]
  ]

  Waited-late :
      (most : ℕ) (m : Machine)
      → ltb m.clock deadline ≡ false
      → Waited most url m (wait_for_health (suc most) h expires deadline url m)
  unfolding wait_for_health
  Waited-late most m late =
      rw (late, wait_for_health) ([], sym (append-nil m.acts), omega arith, refl)

  -- When `most` waits of two seconds reach the deadline, `most + 1` units of fuel are enough: the wait
  -- ends with at most `most` requests made, and it succeeds exactly when the last of them was answered
  -- below 500. No request follows such an answer.
  pub wait_for_health-Waited :
      (most : ℕ) (m : Machine)
      → deadline ≤ m.clock + most * (2 * second)
      → Waited most url m (wait_for_health (suc most) h expires deadline url m)
  wait_for_health-Waited zero m soon = Waited-late 0 m (ground arith)
  wait_for_health-Waited (suc most) m soon = elim (Bool-cases (ltb m.clock deadline)) [
    | inr late ↦ Waited-late (suc most) m late
    | inl early ↦ Waited-first most m early (wait_for_health-Waited most (resumed m) (omega arith))
  ]

module _ (P : Option (Outcome × Machine) → Type 0) (h : Host) (f : Flags) where
  wait_cases :
      (m : Machine) (r : Option (Bool × Machine))
      → Waited 150 (base_url f <> "/") m r
      → ((answer : Bool) (m' : Machine)
          → Waited 150 (base_url f <> "/") m (some (answer, m'))
          → P (checkpoint_ready h f (some (answer, m'))))
      → P (checkpoint_ready h f r)
  wait_cases m none w waiting = absurd w
  wait_cases m (some (answer, m')) w waiting = waiting answer m' w

  started_cases :
      (expires : ℕ) (started : Bool × Machine)
      → (started.0 ≡ false → P (some (failed, started.1)))
      → ((answer : Bool) (m' : Machine)
          → Waited 150 (base_url f <> "/") started.1 (some (answer, m'))
          → P (checkpoint_ready h f (some (answer, m'))))
      → P (wait_started 151 h f expires started)
  started_cases expires (false, m) unstarted waiting = unstarted refl
  started_cases expires (true, m) unstarted waiting =
      wait_cases m _
        (wait_for_health-Waited h expires (m.clock + 300 * second) (base_url f <> "/") 150 m
          (omega arith))
        waiting

  -- The ways that a run takes: the start fails, or the wait for the shop ends. For the wait of five
  -- minutes 151 units of fuel are enough.
  pub main_cases :
      (m : Machine)
      → let started = start_container h f (cleanup_container h f.container_name m) in
        (started.0 ≡ false → P (some (failed, started.1)))
        → ((answer : Bool) (m' : Machine)
            → Waited 150 (base_url f <> "/") started.1 (some (answer, m'))
            → P (checkpoint_ready h f (some (answer, m'))))
        → P (main 151 h f m)
  unfolding main
  main_cases m unstarted waiting =
      started_cases (m.clock + f.timeout)
        (start_container h f (cleanup_container h f.container_name m)) unstarted waiting
