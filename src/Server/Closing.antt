-- ===== src/Server/Closing.antt =====
-- What the server's deferred calls close.
use try_it_now.Base.{◌≡◌, refl, Bool, true, false, List, [], ◌∷◌, ◌++◌}
use try_it_now.Server.{
  Part, Event, opened, closed, served, returned, exited, Run, Startup, defer_close, fatal_unless,
  with_database, serve, database, repository, publisher, consumer, replenisher, gauges, runtime_of,
  replenished, consumed, connected, main,
}

-- The server serves once, and each part is closed after all that was opened within it.
pub data Nested : List Event → Type 0 where
  serves : Nested (served ∷ [])
  around :
      (p : Part) (events : List Event)
      → Nested events
      → Nested (opened p ∷ (events ++ closed p ∷ []))

abbrev pub none_closed : List Event → Bool
none_closed [] = true
none_closed (opened p ∷ events) = none_closed events
none_closed (closed p ∷ events) = false
none_closed (served ∷ events) = none_closed events

abbrev pub Tidy : Run → Type 0
Tidy (events, returned) = Nested events
Tidy (events, exited) = none_closed events ≡ true

Tidy-defer_close : (p : Part) (r : Run) → Tidy r → Tidy (defer_close p r)
Tidy-defer_close p (events, returned) h = around p events h
Tidy-defer_close p (events, exited) h = h

Tidy-fatal_unless : (ok : Bool) (r : Run) → Tidy r → Tidy (fatal_unless ok r)
Tidy-fatal_unless true r h = h
Tidy-fatal_unless false r h = refl

Tidy-with_database : (opens : Bool) (r : Run) → Tidy r → Tidy (with_database opens r)
Tidy-with_database true r h = Tidy-defer_close database r h
Tidy-with_database false r h = h

Tidy-serve : (shuts_down : Bool) → Tidy (serve shuts_down)
Tidy-serve true = serves
Tidy-serve false = refl

replenished-Tidy : (a : Startup) → Tidy (replenished a)
replenished-Tidy a =
    Tidy-fatal_unless a.replenisher_starts
      (defer_close replenisher (defer_close gauges (serve a.shuts_down)))
      (Tidy-defer_close replenisher (defer_close gauges (serve a.shuts_down))
        (Tidy-defer_close gauges (serve a.shuts_down) (Tidy-serve a.shuts_down)))

consumed-Tidy : (a : Startup) → Tidy (consumed a)
consumed-Tidy a =
    let inner = Tidy-defer_close consumer (replenished a) (replenished-Tidy a) in
    Tidy-fatal_unless a.consumer_opens
      (fatal_unless a.consumer_starts (defer_close consumer (replenished a)))
      (Tidy-fatal_unless a.consumer_starts (defer_close consumer (replenished a)) inner)

connected-Tidy : (a : Startup) → Tidy (connected a)
connected-Tidy a =
    let runs = defer_close (runtime_of a.mode) (consumed a) in
    let runtime_tidy =
      Tidy-fatal_unless a.runtime_opens runs
        (Tidy-defer_close (runtime_of a.mode) (consumed a) (consumed-Tidy a)) in
    Tidy-fatal_unless a.publisher_opens (defer_close publisher (fatal_unless a.runtime_opens runs))
      (Tidy-defer_close publisher (fatal_unless a.runtime_opens runs) runtime_tidy)

-- Whatever can be opened and started and whatever cannot: where main returns, it has served once and
-- closed every part that it opened, each after all that was opened later; where it exits by
-- logger.Fatal, also where the shutdown fails, it has closed nothing.
pub main-Tidy : (a : Startup) → Tidy (main a)
unfolding main
main-Tidy a =
    let rest = with_database a.database_opens (connected a) in
    Tidy-fatal_unless a.repository_opens
      (defer_close repository (fatal_unless a.ports_initialize rest))
      (Tidy-defer_close repository (fatal_unless a.ports_initialize rest) (
        Tidy-fatal_unless a.ports_initialize rest
          (Tidy-with_database a.database_opens (connected a) (connected-Tidy a))))
