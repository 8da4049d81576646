-- ===== src/Server.antt =====
-- cmd/server/main.go: what the program opens, serves and closes, in order. Whether each part can be
-- opened is an argument; loading the configuration, logging and metrics are left out.
pub mod Closing
pub mod Gauges
use try_it_now.Base.{Bool, true, false, String, List, [], ◌∷◌, ◌++◌, str_eq, if◌then◌else◌}

pub data Part : Type 0 where
  repository database publisher docker podman consumer replenisher gauges : Part

-- `served` is the wait for a signal or an error of the server, and the shutdown that follows.
pub data Event : Type 0 where
  opened closed : Part → Event
  served : Event

-- main returns, or logger.Fatal exits from it.
pub data Ending : Type 0 where
  returned exited : Ending

abbrev pub Run : Type 0
Run = List Event × Ending

-- What each call comes to; `mode` is cfg.Container.Mode.
pub record Startup : Type 0 where
  pub mode : String
  pub repository_opens : Bool
  pub ports_initialize : Bool
  pub database_opens : Bool
  pub publisher_opens : Bool
  pub runtime_opens : Bool
  pub consumer_opens : Bool
  pub consumer_starts : Bool
  pub replenisher_starts : Bool
  pub shuts_down : Bool

-- A part that is opened, and closed by a deferred call; os.Exit makes no deferred call.
abbrev pub defer_close : Part → Run → Run
defer_close p (events, returned) = (opened p ∷ (events ++ closed p ∷ []), returned)
defer_close p (events, exited) = (opened p ∷ events, exited)

-- `if err != nil { logger.Fatal(…) }`
abbrev pub fatal_unless : Bool → Run → Run
fatal_unless ok rest = if ok then rest else ([], exited)

-- The database is optional.
abbrev pub with_database : Bool → Run → Run
with_database opens rest = if opens then defer_close database rest else rest

-- Every mode but "podman" is Docker's.
abbrev pub runtime_of : String → Part
runtime_of mode = if str_eq mode "podman" then podman else docker

abbrev pub serve : Bool → Run
serve shuts_down = (served ∷ [], if shuts_down then returned else exited)

-- main, from the replenisher, the consumer and the connections on.
abbrev pub replenished : Startup → Run
replenished a =
    fatal_unless a.replenisher_starts
      (defer_close replenisher (defer_close gauges (serve a.shuts_down)))

abbrev pub consumed : Startup → Run
consumed a =
    fatal_unless a.consumer_opens
      (fatal_unless a.consumer_starts (defer_close consumer (replenished a)))

abbrev pub connected : Startup → Run
connected a = fatal_unless a.publisher_opens (
    defer_close publisher
      (fatal_unless a.runtime_opens (defer_close (runtime_of a.mode) (consumed a))))

unfoldable pub main : Startup → Run
main a = fatal_unless a.repository_opens (
    defer_close repository
      (fatal_unless a.ports_initialize (with_database a.database_opens (connected a))))
