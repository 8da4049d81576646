-- ===== src/Tasks/Consumer.antt =====
-- internal/queue/nats.go: Start and Stop of NATSConsumer, with the workers that they start and end. The
-- stream is a parameter: whether each of the two durable consumers could be made.
use try_it_now.Base.{ℕ, suc, ◌+◌, ◌≡◌, refl, Bool, true, false, ◌&&◌, arith, if◌then◌else◌}
use try_it_now.Domain.{failure}
use try_it_now.World.{Result, ok, err}

-- The channels are those of the last start; `awaited` is the goroutine that waits for the workers and
-- then closes `doneCh`.
pub record Consumer : Type 0 where
  pub running : Bool
  pub stop_closed : Bool
  pub done_closed : Bool
  pub workers : ℕ
  pub awaited : Bool

-- A consumer that NewNATSConsumer has made.
abbrev pub new_consumer : Consumer
new_consumer = record {
  running = false;
  stop_closed = false;
  done_closed = false;
  workers = 0;
  awaited = false;
}

-- Start, once the consumer is marked as running: the workers of both kinds, if both consumers are made.
abbrev pub start_workers : ℕ → Bool → Bool → Consumer → Result (Unit {0}) × Consumer
start_workers count provision cleanup c =
    if provision && cleanup
    then (ok tt, record c { workers = c.workers + (count + count); awaited = true })
    else (err failure, c)

unfoldable pub start : ℕ → Bool → Bool → Consumer → Result (Unit {0}) × Consumer
start count provision cleanup c =
    let begun =
      start_workers count provision cleanup
        (record c { running = true; stop_closed = false; done_closed = false }) in
    if c.running then (err failure, c) else begun

-- Stop, up to its wait for `doneCh` or for its context.
unfoldable pub stop : Consumer → Consumer
stop c = if c.running then record c { running = false; stop_closed = true } else c

-- What happens on its own, or by a call of Start.
pub data Step (c : Consumer) : Consumer → Type 0 where
  start_called : (count : ℕ) (provision cleanup : Bool) → Step c (start count provision cleanup c).1
  worker_left : (n : ℕ) → c.workers ≡ suc n → Step c (record c { workers = n })
  workers_done :
      c.awaited ≡ true → c.workers ≡ 0 → Step c (record c { done_closed = true; awaited = false })

pub data Steps (c : Consumer) : Consumer → Type 0 where
  at_rest : Steps c c
  then_step : (d e : Consumer) → Steps c d → Step d e → Steps c e

-- Marked as running, with nobody to close `doneCh`.
record IsStuck (c : Consumer) : Type 0 where
  is_running : c.running ≡ true
  nobody : c.awaited ≡ false
  still_open : c.done_closed ≡ false

start-IsStuck :
    (count : ℕ) (provision cleanup : Bool) (c : Consumer)
    → c.running ≡ true
    → start count provision cleanup c ≡ (err failure, c)
unfolding start
start-IsStuck count provision cleanup c h = ground (arith, h)

Step-IsStuck : (c d : Consumer) → IsStuck c → Step c d → IsStuck d
Step-IsStuck c d s (start_called count provision cleanup) =
    rw (start-IsStuck count provision cleanup c s.is_running) s
Step-IsStuck c d s (worker_left n h) = record {
  is_running = s.is_running;
  nobody = s.nobody;
  still_open = s.still_open;
}
Step-IsStuck c d s (workers_done h k) = absurd (ground (arith, h, s.nobody))

Steps-IsStuck : (c d : Consumer) → IsStuck c → Steps c d → IsStuck d
Steps-IsStuck c d s at_rest = s
Steps-IsStuck c e s (then_step d _ steps step) = Step-IsStuck d e (Steps-IsStuck c d s steps) step

failed-IsStuck :
    (count : ℕ) (provision cleanup : Bool)
    → (provision && cleanup) ≡ false
    → IsStuck (start count provision cleanup new_consumer).1
unfolding start
failed-IsStuck count provision cleanup h =
    rw h (record { is_running = refl; nobody = refl; still_open = refl })

-- After a first Start that could not make both of its consumers, whatever workers leave and however
-- often Start is called, a Start is refused, also where the stream is well again, and `doneCh` is still
-- open when Stop comes to wait for it.
pub start_fails_for_good :
    (count : ℕ) (provision cleanup : Bool) (c : Consumer) (later : ℕ)
    → (provision && cleanup) ≡ false
    → Steps (start count provision cleanup new_consumer).1 c
    → (start later true true c ≡ (err failure, c)) × ((stop c).done_closed ≡ false)
unfolding stop
start_fails_for_good count provision cleanup c later h steps =
    let s =
      Steps-IsStuck (start count provision cleanup new_consumer).1 c
        (failed-IsStuck count provision cleanup h) steps in
    let open_still = s.still_open in
    (start-IsStuck later true true c s.is_running, ground (arith, open_still))
