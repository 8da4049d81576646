-- ===== src/Store/Runs/Ports.antt =====
-- How often a port is given in a run of calls to a repository.
use try_it_now.Base.{
  ℕ, ◌+◌, ◌≤◌, String, ◌≡◌, inl, inr, sym, ap, ◌∙◌, subst, true, Option, none, some, List, [], ◌∷◌,
  ◌++◌, str_eq, ◌==◌, ==_iff, arith, remove_first, Bool-cases, All,
}
use try_it_now.Domain.{Instance, InstanceState, state_eq, ready}
use try_it_now.Valkey.{Keyspace, Value, json, malformed}
use try_it_now.World.{World, Result, ok, err}
use try_it_now.Store.Contract.{
  Repository, Stock, put, list_in, unlist, enqueue, take_port, mark_port, unmark_port, return_port,
  restate_text, hand_text, hand_front, Finishes, Allocates, outcome, IsRepository,
}
use try_it_now.Store.Runs.{
  Call, save, look_up, delete, restate, acquire, add, withdraw, allocate, release, Gift,
  instance_given, port_given, gifts, made, run, one, OneOf-All, Finishes-All, Answers-All,
}

abbrev pub gives : ℕ → Gift → ℕ
gives p (instance_given i) = 0
gives p (port_given q) = one (q == p)

pub times_given : ℕ → List Gift → ℕ
times_given p [] = 0
times_given p (g ∷ gs) = gives p g + times_given p gs

abbrev pub releases : ℕ → Call → ℕ
releases p (release q) = one (q == p)
releases p _ = 0

pub times_released : ℕ → List Call → ℕ
times_released p [] = 0
times_released p (c ∷ calls) = releases p c + times_released p calls

times_given-append :
    (p : ℕ) (xs ys : List Gift) → times_given p (xs ++ ys) ≡ times_given p xs + times_given p ys
unfolding times_given
times_given-append p [] ys = omega arith
times_given-append p (x ∷ xs) ys = omega (arith, times_given-append p xs ys)

-- The port is free only if it was, or was released so often.
abbrev Freed : ℕ → ℕ → Stock → Stock → Type 0
Freed p n before s = one (s.free p) ≤ n + one (before.free p)

-- What is given, and what is free afterwards, was free or released.
abbrev Covered : ℕ → ℕ → Stock → List Gift → Stock → Type 0
Covered p n before given s = times_given p given + one (s.free p) ≤ n + one (before.free p)

module _ (p : ℕ) (n : ℕ) (before : Stock) where
  ungiven : (s : Stock) → Freed p n before s → Covered p n before [] s
  unfolding times_given
  ungiven s few = omega (arith, few)

  instance_ungiven :
      (z : Result Instance × Stock)
      → Freed p n before z.1
      → Covered p n before (gifts instance_given z.0) z.1
  unfolding times_given
  instance_ungiven (ok i, s) few = omega (arith, few)
  instance_ungiven (err e, s) few = omega (arith, few)

  finished :
      (partly : List Stock) (done : Stock) (z : Result (Unit {0}) × Stock)
      → Freed p n before done
      → All (Freed p n before) partly
      → Finishes partly done z
      → Covered p n before [] z.1
  finished partly done z few all promise =
      ungiven z.1 (Finishes-All (Freed p n before) partly done z few all promise)

restate_text-Freed :
    (p : ℕ) (j : String) (new : InstanceState) (at : ℕ) (t : Option Value) (before : Stock)
    → Freed p 0 before (restate_text j new at t before).1
restate_text-Freed p j new at none before = omega arith
restate_text-Freed p j new at (some malformed) before = omega arith
restate_text-Freed p j new at (some (json i)) before = elim (Bool-cases (state_eq i.state new)) [
  | inl same ↦ rw same (omega arith)
  | inr other ↦ rw other (omega arith)
]

hand_text-Freed :
    (p at : ℕ) (front : String) (t : Option Value) (before : Stock)
    → Freed p 0 before (hand_text at front t before).1
hand_text-Freed p at front none before = omega arith
hand_text-Freed p at front (some malformed) before = omega arith
hand_text-Freed p at front (some (json i)) before = omega arith

hand_front-Freed :
    (p at : ℕ) (l : List String) (before : Stock) → Freed p 0 before (hand_front at l before).1
hand_front-Freed p at [] before = omega arith
hand_front-Freed p at (front ∷ rest) before =
    hand_text-Freed p at front (before.texts front) (record before { queue = rest })

-- A port that is taken was free, and is not.
taken_once :
    (p q : ℕ) (before : Stock)
    → before.free q ≡ true
    → one (q == p) + one ((take_port q before).free p) ≤ 0 + one (before.free p)
taken_once p q before free = elim (Bool-cases (q == p)) [
  | inl same ↦
      let e : q ≡ p = (==_iff q p).0 same in
      let was : before.free p ≡ true = ap before.free (sym e) ∙ free in rw (same, was) (omega arith)
  | inr other ↦ rw other (omega arith)
]

allocated :
    (p : ℕ) (before : Stock) (z : Result ℕ × Stock)
    → Allocates before z
    → Covered p 0 before (gifts port_given z.0) z.1
unfolding times_given
allocated p before (ok q, s) (free, e) =
    subst (λ (t : Stock). one (q == p) + 0 + one (t.free p) ≤ 0 + one (before.free p)) (sym e)
      (omega (arith, taken_once p q before free))
allocated p before (err e, s) (inl same) = subst (Covered p 0 before []) (sym same) (omega arith)
allocated p before (err e, s) (inr (q, free, among)) =
    let less : Freed p 0 before (take_port q before) = omega (arith, taken_once p q before free) in
    ungiven p 0 before s (
      OneOf-All (Freed p 0 before) s (take_port q before ∷ mark_port q (take_port q before) ∷ [])
        (less, (less, tt)) among)

returned :
    (p q : ℕ) (before : Stock)
    → Freed p (one (q == p)) before (return_port q (unmark_port q before))
returned p q before = ground arith

module _ (r : Repository) (view : Keyspace → Stock) (law : IsRepository r view) (p : ℕ) where
  made-Covered :
      (c : Call) (w : World)
      → Covered p (releases p c) (view w.keyspace) (made r c w).0 (view (made r c w).1.keyspace)
  unfolding made
  made-Covered (save i) w =
      let before = view w.keyspace in
      let text = put i.id (some (json i)) before in
      finished p 0 before (before ∷ text ∷ []) (list_in i.state i.id text)
        (outcome view (r.save_instance i w)) (omega arith) (omega arith, (omega arith, tt))
        (law.saves i w)
  made-Covered (look_up j) w =
      let before = view w.keyspace in
      ungiven p 0 before (outcome view (r.get_instance j w)).1
        (subst (Freed p 0 before) (sym (law.looks_up j w).1) (omega arith))
  made-Covered (delete j) w =
      let before = view w.keyspace in
      let unlisted = unlist j (before.texts j) before in
      finished p 0 before (before ∷ unlisted ∷ []) (put j none unlisted)
        (outcome view (r.delete_instance j w)) (omega arith) (omega arith, (omega arith, tt))
        (law.deletes j w)
  made-Covered (restate j new) w =
      let before = view w.keyspace in
      let after = restate_text j new w.clock (before.texts j) before in
      let freed = restate_text-Freed p j new w.clock (before.texts j) before in
      ungiven p 0 before (outcome view (r.update_instance_state j new w)).1 (
        Answers-All (λ z. Freed p 0 before z.1) before after
          (outcome view (r.update_instance_state j new w)) freed (omega arith) freed
          (law.restates j new w))
  made-Covered acquire w =
      let before = view w.keyspace in
      let after = hand_front w.clock before.queue before in
      let freed = hand_front-Freed p w.clock before.queue before in
      instance_ungiven p 0 before (outcome view (r.acquire_from_pool w)) (
        Answers-All (λ z. Freed p 0 before z.1) before after (outcome view (r.acquire_from_pool w))
          freed (omega arith) freed (law.hands_out w))
  made-Covered (add i) w =
      let before = view w.keyspace in
      let text = put i.id (some (json (record i { state = ready }))) before in
      let saved = list_in ready i.id text in
      finished p 0 before (before ∷ text ∷ saved ∷ []) (enqueue i.id saved)
        (outcome view (r.add_to_pool i w)) (omega arith)
        (omega arith, (omega arith, (omega arith, tt))) (law.adds i w)
  made-Covered (withdraw j) w =
      let before = view w.keyspace in
      finished p 0 before (before ∷ [])
        (record before { queue = remove_first str_eq j before.queue })
        (outcome view (r.remove_from_pool j w)) (omega arith) (omega arith, tt) (law.removes j w)
  made-Covered allocate w =
      allocated p (view w.keyspace) (outcome view (r.allocate_port w)) (law.allocates w)
  made-Covered (release q) w =
      let before = view w.keyspace in
      finished p (one (q == p)) before (before ∷ unmark_port q before ∷ [])
        (return_port q (unmark_port q before)) (outcome view (r.release_port q w))
        (returned p q before) (omega arith, (omega arith, tt)) (law.releases q w)

  -- Of a repository that keeps the promises of its interface: in any run of calls, whatever fails, a
  -- port is given at most as often as it was released, and once more if it was free at the start; if
  -- it is free at the end, once less.
  pub given_at_most :
      (calls : List Call) (w : World)
      → times_given p (run r calls w).0 + one ((view (run r calls w).1.keyspace).free p)
        ≤ times_released p calls + one ((view w.keyspace).free p)
  unfolding run times_given times_released
  given_at_most [] w = omega arith
  given_at_most (c ∷ calls) w =
      let (given, w') = made r c w in
      omega (
        arith,
        made-Covered c w,
        given_at_most calls w',
        times_given-append p given (run r calls w').0,
      )
