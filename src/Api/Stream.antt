-- ===== src/Api/Stream.antt =====
-- internal/api/handler.go: demoStatus, the stream of the remaining time.
use try_it_now.Base.{ℕ, String, true, false, List, [], ◌∷◌}
use try_it_now.Domain.{Instance, ttl_remaining, is_expired}
use try_it_now.World.{Services, Result, ok, err, M, pure, attempt, now, ◌>>=◌}
use try_it_now.Store.Instances.{get_instance}
use try_it_now.Api.{
  Response, Event, ttl, expired_event, error_event, reconnect, stream, reply, lookup_problem,
  seconds,
}

-- What follows a tick's event, at the time `t`: the end of the stream where the instance has
-- expired, and else the ticks that follow.
abbrev pub tick_events : String → Instance → ℕ → M (List Event) → M (List Event)
tick_events id i t rest w =
    let (more, w') = rest w in
    let event = ttl id (seconds (ttl_remaining t i)) i.state in
    elim (is_expired t i) [
      | true ↦ (ok (event ∷ expired_event id ∷ []), w)
      | false ↦ elim more [ ok events ↦ (ok (event ∷ events), w') | err e ↦ (err e, w') ]
    ]

abbrev pub tick : String → Result Instance → M (List Event) → M (List Event)
tick id (err e) rest = pure (error_event ∷ [])
tick id (ok i) rest = do t ← now; tick_events id i t rest

-- What the loop's `select` meets: a tick, the end of the longest duration, or a client that goes away.
pub data Wake : Type 0 where
  tick_due deadline_met client_gone : Wake

-- On the wakes that come; ticks that are late are dropped by the ticker, so their
-- number is open. At the end of the list the loop still waits, with these events sent.
unfoldable pub stream_events : List Wake → Services → String → M (List Event)
stream_events [] x id w = (ok [], w)
stream_events (client_gone ∷ wakes) x id w = (ok [], w)
stream_events (deadline_met ∷ wakes) x id w = (ok (reconnect ∷ []), w)
stream_events (tick_due ∷ wakes) x id w =
    let (found, w') = get_instance x id w in tick id found (stream_events wakes x id) w'

abbrev pub stream_reply : List Wake → Services → String → Result Instance → M Response
stream_reply wakes x id (err e) = lookup_problem e
stream_reply wakes x id (ok _) = do events ← stream_events wakes x id; reply 200 (stream events)

unfoldable pub demo_status : List Wake → Services → String → M Response
demo_status wakes x id = do found ← attempt (get_instance x id); stream_reply wakes x id found
