-- ===== src/Api/Events.antt =====
-- internal/api/handler.go: what a stream of demoStatus consists of, whatever faults its commands meet.
use try_it_now.Base.{length, ℕ, zero, suc, ◌≡◌, refl, String, Bool, true, false, List, [], ◌∷◌}
use try_it_now.Domain.{Instance, InstanceState, is_expired, ttl_remaining}
use try_it_now.World.{Services, World, Result, ok, err, M}
use try_it_now.Store.Instances.{get_instance}
use try_it_now.Api.{Event, ttl, expired_event, error_event, reconnect, seconds}
use try_it_now.Api.Stream.{
  Wake, tick_due, deadline_met, client_gone, tick_events, tick, stream_events,
}

-- Reports on the instance, `rounds` at most, and then nothing more or one event that ends the stream:
-- that the instance has expired, that it could not be read, or that the client should connect again.
abbrev pub IsStream : String → ℕ → List Event → Type 0
IsStream id rounds [] = Unit {0}
IsStream id zero (ttl j left state ∷ events) = ⊥
IsStream id (suc rounds) (ttl j left state ∷ events) = (j ≡ id) × IsStream id rounds events
IsStream id rounds (expired_event j ∷ events) = (j ≡ id) × (events ≡ [])
IsStream id rounds (error_event ∷ events) = events ≡ []
IsStream id rounds (reconnect ∷ events) = events ≡ []

abbrev pub Streams : String → ℕ → Result (List Event) → Type 0
Streams id rounds (ok events) = IsStream id rounds events
Streams id rounds (err e) = ⊥

expired_ends : (id : String) (rounds : ℕ) → IsStream id rounds (expired_event id ∷ [])
expired_ends id zero = (refl, refl)
expired_ends id (suc rounds) = (refl, refl)

after_report :
    (id : String) (rounds left : ℕ) (state : InstanceState) (past : Bool)
    (more : Result (List Event)) (w w' : World)
    → Streams id rounds more
    → Streams id
        (suc rounds)
        (elim past as (λ b. Result (List Event) × World) [
          | true ↦ (ok (ttl id left state ∷ expired_event id ∷ []), w)
          | false ↦ elim more as (λ r. Result (List Event) × World) [
            | ok events ↦ (ok (ttl id left state ∷ events), w')
            | err e ↦ (err e, w')
          ]
        ]).0
after_report id rounds left state true more w w' h = (refl, expired_ends id rounds)
after_report id rounds left state false (ok events) w w' h = (refl, h)
after_report id rounds left state false (err e) w w' h = h

tick_events-Streams :
    (id : String) (i : Instance) (t rounds : ℕ) (rest : M (List Event)) (w : World)
    → Streams id rounds (rest w).0
    → Streams id (suc rounds) (tick_events id i t rest w).0
tick_events-Streams id i t rounds rest w h =
    after_report id rounds (seconds (ttl_remaining t i)) i.state (is_expired t i) (rest w).0 w
      (rest w).1 h

tick-Streams :
    (id : String) (found : Result Instance) (rounds : ℕ) (rest : M (List Event)) (w : World)
    → Streams id rounds (rest w).0
    → Streams id (suc rounds) (tick id found rest w).0
tick-Streams id (err e) rounds rest w h = refl
tick-Streams id (ok i) rounds rest w h = tick_events-Streams id i w.clock rounds rest w h

-- Whatever faults its commands meet and whatever wakes it, a stream reports on its own instance, at
-- most once for each time that it wakes, and nothing follows an event that ends it.
pub stream_events-Streams :
    (wakes : List Wake) (x : Services) (id : String) (w : World)
    → Streams id (length wakes) (stream_events wakes x id w).0
unfolding stream_events
stream_events-Streams [] x id w = tt
stream_events-Streams (client_gone ∷ wakes) x id w = tt
stream_events-Streams (deadline_met ∷ wakes) x id w = refl
stream_events-Streams (tick_due ∷ wakes) x id w =
    let (found, w₁) = get_instance x id w in
    tick-Streams id found (length wakes) (stream_events wakes x id) w₁
      (stream_events-Streams wakes x id w₁)
