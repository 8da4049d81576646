-- ===== src/Replenisher/Switch.antt =====
-- internal/pool/impl.go: StartReplenisher and StopReplenisher, with the loops that they start and end.
-- Every step is what one goroutine does while it holds the lock, or one read or close of a channel.
pub mod Alone
use try_it_now.Base.{
  ℕ, suc, ◌+◌, ◌≡◌, Bool, true, false, List, [], ◌∷◌, ◌==◌, contains, remove_first, length,
  if◌then◌else◌,
}

-- The channels are numbered by the start that made them.
pub record Switch : Type 0 where
  pub running : Bool
  -- Those that `stopCh` and `doneCh` hold.
  pub current : ℕ
  pub stop_closed : ℕ → Bool
  pub done_closed : ℕ → Bool
  -- Goroutines that are started and have not entered the loop.
  pub spawned : ℕ
  -- The loops that run, each by the `doneCh` that it is to close, read as it was entered.
  pub loops : List ℕ
  -- Calls of StopReplenisher that have let go of the lock, before they read `doneCh`, and after.
  pub unread : ℕ
  pub waiting : List ℕ

abbrev pub closed_at : ℕ → (ℕ → Bool) → ℕ → Bool
closed_at g closed h = if g == h then true else closed h

-- StartReplenisher where nothing is running; where something is, it changes nothing.
unfoldable pub start_replenisher : Switch → Switch
start_replenisher s =
    if s.running
    then s
    else record s { running = true; current = suc s.current; spawned = suc s.spawned }

-- StopReplenisher up to its unlocking.
unfoldable pub stop_replenisher : Switch → Switch
stop_replenisher s =
    if s.running
    then record s {
      running = false;
      stop_closed = closed_at s.current s.stop_closed;
      unread = suc s.unread;
    }
    else s

-- Nothing has been started yet.
abbrev pub never_started : Switch
never_started = record {
  running = false;
  current = 0;
  stop_closed = λ g. false;
  done_closed = λ g. false;
  spawned = 0;
  loops = [];
  unread = 0;
  waiting = [];
}

-- What happens next, and whether it is a call of StartReplenisher.
pub data Step (s : Switch) : Bool → Switch → Type 0 where
  start_called : Step s true (start_replenisher s)
  stop_called : Step s false (stop_replenisher s)
  -- The goroutine enters the loop.
  entered :
      (n : ℕ)
      → s.spawned ≡ suc n
      → Step s false (record s { spawned = n; loops = s.current ∷ s.loops })
  -- A loop returns, at a stop, at the end of its context or in a panic, and closes its channel.
  returned :
      (g : ℕ)
      → contains ◌==◌ g s.loops ≡ true
      → Step s false (record s {
        loops = remove_first ◌==◌ g s.loops;
        done_closed = closed_at g s.done_closed;
      })
  -- The call of StopReplenisher reads `doneCh`, and later receives from it and returns.
  done_read :
      (n : ℕ)
      → s.unread ≡ suc n
      → Step s false (record s { unread = n; waiting = s.current ∷ s.waiting })
  received :
      (g : ℕ)
      → contains ◌==◌ g s.waiting ≡ true
      → s.done_closed g ≡ true
      → Step s false (record s { waiting = remove_first ◌==◌ g s.waiting })

-- The calls of StopReplenisher that have not returned.
abbrev pub stops_pending : Switch → ℕ
stops_pending s = s.unread + length s.waiting

abbrev pub loops_alive : Switch → ℕ
loops_alive s = s.spawned + length s.loops

-- Steps in which no StartReplenisher is called before every StopReplenisher has returned.
pub data InTurn (s : Switch) : Switch → Type 0 where
  at_rest : InTurn s s
  then_started : (t u : Switch) → InTurn s t → stops_pending t ≡ 0 → Step t true u → InTurn s u
  then_stepped : (t u : Switch) → InTurn s t → Step t false u → InTurn s u
