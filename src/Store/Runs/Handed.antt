-- ===== src/Store/Runs/Handed.antt =====
-- How often an instance is handed out in a run of calls to a repository.
use try_it_now.Base.{
  ℕ, ◌+◌, ◌≤◌, String, ◌≡◌, inl, inr, refl, sym, ap, subst, Option, none, some, List, [], ◌∷◌, ◌++◌,
  str_eq, eq_iff, arith, remove_first, Bool-cases, All,
}
use try_it_now.Domain.{Instance, InstanceState, state_eq, ready, failure}
use try_it_now.Valkey.{Keyspace, Value, json, malformed}
use try_it_now.World.{World, Result, ok, err}
use try_it_now.Store.Contract.{
  Repository, Stock, put, list_in, unlist, enqueue, take_port, mark_port, unmark_port, return_port,
  restate_text, hand_text, hand_front, Finishes, Allocates, outcome, IsRepository,
}
use try_it_now.Store.Runs.{
  Call, save, look_up, delete, restate, acquire, add, withdraw, allocate, release, Gift,
  instance_given, port_given, gifts, made, run, one, OneOf-All, Finishes-All, Answers-All,
}

pub times : String → List String → ℕ
times id [] = 0
times id (x ∷ xs) = one (str_eq x id) + times id xs

abbrev pub hands : String → Gift → ℕ
hands id (instance_given i) = one (str_eq i.id id)
hands id (port_given p) = 0

pub times_handed : String → List Gift → ℕ
times_handed id [] = 0
times_handed id (g ∷ gs) = hands id g + times_handed id gs

abbrev pub additions : String → Call → ℕ
additions id (add i) = one (str_eq i.id id)
additions id _ = 0

pub times_added : String → List Call → ℕ
times_added id [] = 0
times_added id (c ∷ calls) = additions id c + times_added id calls

times-append : (id : String) (xs ys : List String) → times id (xs ++ ys) ≡ times id xs + times id ys
unfolding times
times-append id [] ys = omega arith
times-append id (x ∷ xs) ys = omega (arith, times-append id xs ys)

times-remove_first-le :
    (id : String) (a : String) (xs : List String)
    → times id (remove_first str_eq a xs) ≤ times id xs
unfolding times remove_first
times-remove_first-le id a [] = omega arith
times-remove_first-le id a (x ∷ xs) = ground (arith, times-remove_first-le id a xs)

times_handed-append :
    (id : String) (xs ys : List Gift)
    → times_handed id (xs ++ ys) ≡ times_handed id xs + times_handed id ys
unfolding times_handed
times_handed-append id [] ys = omega arith
times_handed-append id (x ∷ xs) ys = omega (arith, times_handed-append id xs ys)

-- Every stored instance is stored under its own identifier.
abbrev pub IsKeyed : Stock → Type 0
IsKeyed s = (id : String) (i : Instance) → s.texts id ≡ some (json i) → i.id ≡ id

put-IsKeyed :
    (id : String) (i : Instance) (s : Stock)
    → i.id ≡ id
    → IsKeyed s
    → IsKeyed (put id (some (json i)) s)
put-IsKeyed id i s e h j k stored = elim (Bool-cases (str_eq id j)) [
  | inl same ↦ ground (arith, same, stored, e, eq_iff id j)
  | inr other ↦ h j k (ground (arith, other, stored))
]

put-none-IsKeyed : (id : String) (s : Stock) → IsKeyed s → IsKeyed (put id none s)
put-none-IsKeyed id s h j k stored = elim (Bool-cases (str_eq id j)) [
  | inl same ↦ ground (arith, same, stored)
  | inr other ↦ h j k (ground (arith, other, stored))
]

-- A stock with at most `n` more of an identifier in its queue than before, and its instances keyed.
abbrev Within : String → ℕ → Stock → Stock → Type 0
Within id n before s = (times id s.queue ≤ n + times id before.queue) × IsKeyed s

-- The same, where an answer may have given out an instance.
abbrev Paid : String → Stock → Result Instance × Stock → Type 0
Paid id before (r, s) =
    (times_handed id (gifts instance_given r) + times id s.queue ≤ 0 + times id before.queue)
    × IsKeyed s

longer :
    (id added : String) (before : Stock)
    → times id (before.queue ++ added ∷ []) ≤ one (str_eq added id) + times id before.queue
unfolding times
longer id added before = omega (arith, times-append id before.queue (added ∷ []))

module _ (id : String) (before : Stock) (keyed : IsKeyed before) where
  hand_text-Paid :
      (at : ℕ) (front : String) (rest : List String)
      → before.queue ≡ front ∷ rest
      → (t : Option Value) → before.texts front ≡ t
      → Paid id before (hand_text at front t (record before { queue = rest }))
  unfolding times times_handed
  hand_text-Paid at front rest q none e =
      (rw q (omega (arith, times-append id rest (front ∷ []))), keyed)
  hand_text-Paid at front rest q (some malformed) e = (rw q (omega arith), keyed)
  hand_text-Paid at front rest q (some (json i)) e =
      let own : i.id ≡ front = keyed front i e in
      (rw (q, own) (omega arith), put-IsKeyed front _ (record before { queue = rest }) own keyed)

  hand_front-Paid :
      (at : ℕ) (l : List String) → before.queue ≡ l → Paid id before (hand_front at l before)
  unfolding times_handed
  hand_front-Paid at [] q = (omega arith, keyed)
  hand_front-Paid at (front ∷ rest) q = hand_text-Paid at front rest q (before.texts front) refl

  unpaid : Paid id before (err failure, before)
  unfolding times_handed
  unpaid = (omega arith, keyed)

  failed-Paid : (z : Result Instance × Stock) → Paid id before z → Paid id before (err failure, z.1)
  unfolding times_handed
  failed-Paid z (few, k) = (omega (arith, few), k)

  restate-Within :
      (j : String) (new : InstanceState) (at : ℕ) (t : Option Value)
      → before.texts j ≡ t
      → Within id 0 before (restate_text j new at t before).1
  restate-Within j new at none e = (omega arith, keyed)
  restate-Within j new at (some malformed) e = (omega arith, keyed)
  restate-Within j new at (some (json i)) e = elim (Bool-cases (state_eq i.state new)) [
    | inl same ↦ rw same (omega arith, keyed)
    | inr other ↦ rw other (omega arith, put-IsKeyed j _ before (keyed j i e) keyed)
  ]

  -- What a call that deals in no instances leaves.
  unmoved-Within :
      (s : Stock) → s.queue ≡ before.queue → s.texts ≡ before.texts → Within id 0 before s
  unmoved-Within s q t = (
    rw q (omega arith),
    subst
        (λ (texts : String → Option Value).
          (j : String) (i : Instance) → texts j ≡ some (json i) → i.id ≡ j)
        (sym t) keyed,
  )

  Allocates-Within : (z : Result ℕ × Stock) → Allocates before z → Within id 0 before z.1
  Allocates-Within (ok p, s) (free, e) =
      unmoved-Within s (ap (λ t. t.queue) e) (ap (λ t. t.texts) e)
  Allocates-Within (err e, s) (inl same) =
      unmoved-Within s (ap (λ t. t.queue) same) (ap (λ t. t.texts) same)
  Allocates-Within (err e, s) (inr (p, free, among)) =
      OneOf-All (Within id 0 before) s (take_port p before ∷ mark_port p (take_port p before) ∷ [])
        ((omega arith, keyed), ((omega arith, keyed), tt)) among

-- What a call hands out and leaves in the queue is covered by the queue before it and what it adds.
abbrev Covered : String → ℕ → Stock → List Gift → Stock → Type 0
Covered id n before given s =
    (times_handed id given + times id s.queue ≤ n + times id before.queue) × IsKeyed s

ungiven :
    {A : Type 0} (id : String) (n : ℕ) (before : Stock) (z : Result A × Stock)
    → Within id n before z.1
    → Covered id n before [] z.1
unfolding times_handed
ungiven id n before (r, s) (few, k) = (omega (arith, few), k)

port_ungiven :
    (id : String) (before : Stock) (z : Result ℕ × Stock)
    → Within id 0 before z.1
    → Covered id 0 before (gifts port_given z.0) z.1
unfolding times_handed
port_ungiven id before (ok p, s) (few, k) = (omega (arith, few), k)
port_ungiven id before (err e, s) (few, k) = (omega (arith, few), k)

-- A call without an answer, by the stocks in which it may end.
finished :
    (id : String) (n : ℕ) (before : Stock) (partly : List Stock) (done : Stock)
    (z : Result (Unit {0}) × Stock)
    → Within id n before done
    → All (Within id n before) partly
    → Finishes partly done z
    → Covered id n before [] z.1
finished id n before partly done z p all promise =
    ungiven id n before z (Finishes-All (Within id n before) partly done z p all promise)

module _ (r : Repository) (view : Keyspace → Stock) (law : IsRepository r view) (id : String) where
  made-Covered :
      (c : Call) (w : World)
      → IsKeyed (view w.keyspace)
      → Covered id (additions id c) (view w.keyspace) (made r c w).0 (view (made r c w).1.keyspace)
  unfolding made
  made-Covered (save i) w k =
      let before = view w.keyspace in
      let text = put i.id (some (json i)) before in
      let keyed = put-IsKeyed i.id i before refl k in
      finished id 0 before (before ∷ text ∷ []) (list_in i.state i.id text)
        (outcome view (r.save_instance i w)) (omega arith, keyed)
        ((omega arith, k), ((omega arith, keyed), tt)) (law.saves i w)
  made-Covered (look_up j) w k =
      let before = view w.keyspace in
      ungiven id 0 before (outcome view (r.get_instance j w))
        (subst (Within id 0 before) (sym (law.looks_up j w).1) (omega arith, k))
  made-Covered (delete j) w k =
      let before = view w.keyspace in
      let unlisted = unlist j (before.texts j) before in
      finished id 0 before (before ∷ unlisted ∷ []) (put j none unlisted)
        (outcome view (r.delete_instance j w)) (omega arith, put-none-IsKeyed j before k)
        ((omega arith, k), ((omega arith, k), tt)) (law.deletes j w)
  made-Covered (restate j new) w k =
      let before = view w.keyspace in
      let moved = restate-Within id before k j new w.clock (before.texts j) refl in
      ungiven id 0 before (outcome view (r.update_instance_state j new w)) (
        Answers-All (λ z. Within id 0 before z.1) before
          (restate_text j new w.clock (before.texts j) before)
          (outcome view (r.update_instance_state j new w)) moved (omega arith, k) moved
          (law.restates j new w))
  made-Covered acquire w k =
      let before = view w.keyspace in
      let hand = hand_front w.clock before.queue before in
      let paid = hand_front-Paid id before k w.clock before.queue refl in
      Answers-All (Paid id before) before hand (outcome view (r.acquire_from_pool w)) paid
        (unpaid id before k) (failed-Paid id before k hand paid) (law.hands_out w)
  made-Covered (add i) w k =
      let before = view w.keyspace in
      let n = one (str_eq i.id id) in
      let keyed = put-IsKeyed i.id (record i { state = ready }) before refl k in
      let text = put i.id (some (json (record i { state = ready }))) before in
      let saved = list_in ready i.id text in
      finished id n before (before ∷ text ∷ saved ∷ []) (enqueue i.id saved)
        (outcome view (r.add_to_pool i w)) (longer id i.id before, keyed)
        ((omega arith, k), ((omega arith, keyed), ((omega arith, keyed), tt))) (law.adds i w)
  made-Covered (withdraw j) w k =
      let before = view w.keyspace in
      finished id 0 before (before ∷ [])
        (record before { queue = remove_first str_eq j before.queue })
        (outcome view (r.remove_from_pool j w))
        (omega (arith, times-remove_first-le id j before.queue), k) ((omega arith, k), tt)
        (law.removes j w)
  made-Covered allocate w k =
      let before = view w.keyspace in
      port_ungiven id before (outcome view (r.allocate_port w))
        (Allocates-Within id before k (outcome view (r.allocate_port w)) (law.allocates w))
  made-Covered (release p) w k =
      let before = view w.keyspace in
      finished id 0 before (before ∷ unmark_port p before ∷ [])
        (return_port p (unmark_port p before)) (outcome view (r.release_port p w)) (omega arith, k)
        ((omega arith, k), ((omega arith, k), tt)) (law.releases p w)

  -- Of a repository that keeps the promises of its interface, whose instances are stored under their
  -- own identifiers: in any run of calls, whatever fails, an identifier is handed out, and left in the
  -- queue, at most as often as it was in the queue and was added.
  pub handed_at_most :
      (calls : List Call) (w : World)
      → IsKeyed (view w.keyspace)
      → times_handed id (run r calls w).0 + times id (view (run r calls w).1.keyspace).queue
        ≤ times_added id calls + times id (view w.keyspace).queue
  unfolding run times_handed times_added
  handed_at_most [] w k = omega arith
  handed_at_most (c ∷ calls) w k =
      let (given, w') = made r c w in
      let now = made-Covered c w k in
      omega (
        arith,
        now.0,
        handed_at_most calls w' now.1,
        times_handed-append id given (run r calls w').0,
      )
