-- ===== src/Replenisher/Switch/Alone.antt =====
-- How many loops of the replenisher are alive at a time.
use try_it_now.Base.{
  ℕ, zero, suc, ◌≤◌, ◌<◌, ◌≡◌, ◌⊎◌, refl, ◌∙◌, ap, sym, true, false, List, [], ◌∷◌, ◌==◌, contains,
  remove_first, length, All, arith, Bool-cases, inl, inr,
}
use try_it_now.Replenisher.Switch.{
  Switch, closed_at, start_replenisher, stop_replenisher, never_started, Step, start_called,
  stop_called, entered, returned, done_read, received, stops_pending, loops_alive, InTurn, at_rest,
  then_started, then_stepped,
}

own_of_contains : (c g : ℕ) (xs : List ℕ) → All (λ x. x ≡ c) xs → contains ◌==◌ g xs ≡ true → g ≡ c
unfolding contains
own_of_contains c g [] own h = ground (arith, h)
own_of_contains c g (x ∷ xs) (e, own) h = elim (Bool-cases (contains ◌==◌ g xs)) [
  | inl later ↦ own_of_contains c g xs own later
  | inr nowhere ↦ ground (arith, h, nowhere, e)
]

All-remove_first :
    (c g : ℕ) (xs : List ℕ) → All (λ x. x ≡ c) xs → All (λ x. x ≡ c) (remove_first ◌==◌ g xs)
unfolding remove_first
All-remove_first c g [] own = tt
All-remove_first c g (x ∷ xs) (e, own) = elim (Bool-cases (x == g)) [
  | inl same ↦ rw (same, remove_first) own
  | inr differ ↦ rw (differ, remove_first) (e, All-remove_first c g xs own)
]

length-remove_first :
    (g : ℕ) (xs : List ℕ)
    → contains ◌==◌ g xs ≡ true
    → suc (length (remove_first ◌==◌ g xs)) ≡ length xs
unfolding contains remove_first
length-remove_first g [] h = ground (arith, h)
length-remove_first g (x ∷ xs) h = ground (arith, length-remove_first g xs, h)

nothing_owned : (c : ℕ) (xs : List ℕ) → length xs ≡ 0 → All (λ x. x ≡ c) xs
nothing_owned c [] h = tt
nothing_owned c (x ∷ xs) h = absurd (omega (arith, h))

-- What holds as long as starts and stops come in turn.
pub record IsOrderly (s : Switch) : Type 0 where
  pub loops_own : All (λ g. g ≡ s.current) s.loops
  pub waits_own : All (λ g. g ≡ s.current) s.waiting
  pub at_most_one : loops_alive s ≤ 1
  pub finished : s.done_closed s.current ≡ true → loops_alive s ≡ 0
  pub not_yet : (g : ℕ) → s.current < g → s.done_closed g ≡ false
  pub quiet : s.running ≡ false → stops_pending s ≡ 0 → loops_alive s ≡ 0
  pub none_stops : s.running ≡ true → stops_pending s ≡ 0

never_started-IsOrderly : IsOrderly never_started
never_started-IsOrderly = record {
  loops_own = tt;
  waits_own = tt;
  at_most_one = omega arith;
  finished = λ h. refl;
  not_yet = λ g h. refl;
  quiet = λ h k. refl;
  none_stops = λ h. refl;
}

start_replenisher-IsOrderly :
    (s : Switch) → IsOrderly s → stops_pending s ≡ 0 → IsOrderly (start_replenisher s)
unfolding start_replenisher
start_replenisher-IsOrderly s o none = elim (Bool-cases s.running) [
  | inl on ↦ simp (on, start_replenisher) o
  | inr off ↦
      let alone = o.quiet off none in
      rw (off, start_replenisher)
        (record {
          loops_own = nothing_owned (suc s.current) s.loops (omega arith);
          waits_own = nothing_owned (suc s.current) s.waiting (omega arith);
          at_most_one = omega arith;
          finished = λ h. ground (arith, h, o.not_yet (suc s.current) (omega arith));
          not_yet = λ g h. o.not_yet g (omega arith);
          quiet = λ h k. ground (arith, h);
          none_stops = λ h. none;
        })
]

stop_replenisher-IsOrderly : (s : Switch) → IsOrderly s → IsOrderly (stop_replenisher s)
unfolding stop_replenisher
stop_replenisher-IsOrderly s o = elim (Bool-cases s.running) [
  | inl on ↦
      rw (on, stop_replenisher)
        (record {
          loops_own = o.loops_own;
          waits_own = o.waits_own;
          at_most_one = o.at_most_one;
          finished = o.finished;
          not_yet = o.not_yet;
          quiet = λ h k. absurd (omega (arith, k));
          none_stops = λ h. ground (arith, h);
        })
  | inr off ↦ simp (off, stop_replenisher) o
]

entered-IsOrderly :
    (s : Switch) (n : ℕ)
    → IsOrderly s
    → s.spawned ≡ suc n
    → IsOrderly (record s { spawned = n; loops = s.current ∷ s.loops })
entered-IsOrderly s n o e =
    let one = o.at_most_one in
    record {
      loops_own = (refl, o.loops_own);
      waits_own = o.waits_own;
      at_most_one = omega (arith, e, one);
      finished = λ h. let ended = o.finished h in omega (arith, e, ended);
      not_yet = o.not_yet;
      quiet = λ h k. let calm = o.quiet h k in omega (arith, e, calm);
      none_stops = o.none_stops;
    }

returned-IsOrderly :
    (s : Switch) (g : ℕ)
    → IsOrderly s
    → contains ◌==◌ g s.loops ≡ true
    → IsOrderly
        (record s { loops = remove_first ◌==◌ g s.loops; done_closed = closed_at g s.done_closed })
returned-IsOrderly s g o h =
    let own = own_of_contains s.current g s.loops o.loops_own h in
    let fewer = length-remove_first g s.loops h in
    let one = o.at_most_one in
    record {
      loops_own = All-remove_first s.current g s.loops o.loops_own;
      waits_own = o.waits_own;
      at_most_one = omega (arith, fewer, one);
      finished = λ k. omega (arith, fewer, one);
      not_yet = λ k after. ground (arith, own, after, o.not_yet k after);
      quiet = λ off k. omega (arith, fewer, one);
      none_stops = o.none_stops;
    }

done_read-IsOrderly :
    (s : Switch) (n : ℕ)
    → IsOrderly s
    → s.unread ≡ suc n
    → IsOrderly (record s { unread = n; waiting = s.current ∷ s.waiting })
done_read-IsOrderly s n o e = record {
  loops_own = o.loops_own;
  waits_own = (refl, o.waits_own);
  at_most_one = o.at_most_one;
  finished = o.finished;
  not_yet = o.not_yet;
  quiet = λ off k. absurd (omega (arith, k));
  none_stops = λ on. let calm = o.none_stops on in omega (arith, e, calm);
}

received-IsOrderly :
    (s : Switch) (g : ℕ)
    → IsOrderly s
    → contains ◌==◌ g s.waiting ≡ true
    → s.done_closed g ≡ true
    → IsOrderly (record s { waiting = remove_first ◌==◌ g s.waiting })
received-IsOrderly s g o h closed =
    let own = own_of_contains s.current g s.waiting o.waits_own h in
    let fewer = length-remove_first g s.waiting h in
    let ended = o.finished (ap s.done_closed (sym own) ∙ closed) in
    record {
      loops_own = o.loops_own;
      waits_own = All-remove_first s.current g s.waiting o.waits_own;
      at_most_one = o.at_most_one;
      finished = o.finished;
      not_yet = o.not_yet;
      quiet = λ off k. ended;
      none_stops = λ on. let calm = o.none_stops on in absurd (omega (arith, fewer, calm));
    }

Step-IsOrderly : (s t : Switch) → IsOrderly s → Step s false t → IsOrderly t
Step-IsOrderly s t o stop_called = stop_replenisher-IsOrderly s o
Step-IsOrderly s t o (entered n e) = entered-IsOrderly s n o e
Step-IsOrderly s t o (returned g h) = returned-IsOrderly s g o h
Step-IsOrderly s t o (done_read n e) = done_read-IsOrderly s n o e
Step-IsOrderly s t o (received g h closed) = received-IsOrderly s g o h closed

start-IsOrderly : (s t : Switch) → IsOrderly s → stops_pending s ≡ 0 → Step s true t → IsOrderly t
start-IsOrderly s t o none start_called = start_replenisher-IsOrderly s o none

InTurn-IsOrderly : (s t : Switch) → IsOrderly s → InTurn s t → IsOrderly t
InTurn-IsOrderly s t o at_rest = o
InTurn-IsOrderly s u o (then_started t _ turn none step) =
    start-IsOrderly t u (InTurn-IsOrderly s t o turn) none step
InTurn-IsOrderly s u o (then_stepped t _ turn step) =
    Step-IsOrderly t u (InTurn-IsOrderly s t o turn) step

-- However the goroutines interleave, as long as no start is called before every stop has returned, at
-- most one loop is alive, and once nothing runs and every stop has returned, none is.
pub one_loop :
    (s : Switch)
    → InTurn never_started s
    → (loops_alive s ≤ 1) × ((s.running ≡ true) ⊎ ((0 < stops_pending s) ⊎ (loops_alive s ≡ 0)))
one_loop s turn =
    let o = InTurn-IsOrderly never_started s never_started-IsOrderly turn in
    (
      o.at_most_one,
      elim (Bool-cases s.running) [
        | inl on ↦ inl on
        | inr off ↦ inr (pending_or_quiet (stops_pending s) (loops_alive s) (o.quiet off))
      ],
    )
  where
    pending_or_quiet : (p l : ℕ) → (p ≡ 0 → l ≡ 0) → (0 < p) ⊎ (l ≡ 0)
    pending_or_quiet zero l h = inr (h refl)
    pending_or_quiet (suc p) l h = inl (omega arith)
