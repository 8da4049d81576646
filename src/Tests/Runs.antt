-- ===== src/Tests/Runs.antt =====
-- The theorems about the background goroutines at concrete runs.
use try_it_now.Base.{◌≤◌, ◌<◌, ◌≡◌, ◌⊎◌, refl, true, false, [], ◌∷◌}
use try_it_now.Domain.{failure}
use try_it_now.World.{err}
use try_it_now.Replenisher.Switch.{
  Switch, start_replenisher, stop_replenisher, never_started, Step, start_called, stop_called,
  entered, stops_pending, loops_alive, InTurn, at_rest, then_started, then_stepped,
}
use try_it_now.Replenisher.Switch.Alone.{one_loop}
use try_it_now.Server.{Startup, main}
use try_it_now.Server.Closing.{Tidy, main-Tidy}
use try_it_now.Tasks.Consumer.{
  Consumer, new_consumer, start, stop, Steps, at_rest, then_step, start_called as called_again,
  start_fails_for_good,
}

abbrev started_once : Switch
started_once = start_replenisher never_started

abbrev in_the_loop : Switch
in_the_loop = record started_once { spawned = 0; loops = 1 ∷ [] }

abbrev stopped_once : Switch
stopped_once = stop_replenisher in_the_loop

into_the_loop : Step started_once false in_the_loop
unfolding start_replenisher
into_the_loop = entered 0 refl

stopped_run : InTurn never_started stopped_once
stopped_run =
    then_stepped in_the_loop stopped_once
      (then_stepped started_once in_the_loop
        (then_started never_started started_once at_rest refl start_called) into_the_loop)
      stop_called

one_loop_example :
    (loops_alive stopped_once ≤ 1)
    × ((stopped_once.running ≡ true)
        ⊎ ((0 < stops_pending stopped_once) ⊎ (loops_alive stopped_once ≡ 0)))
one_loop_example = one_loop stopped_once stopped_run

abbrev half_started : Consumer
half_started = (start 3 true false new_consumer).1

fails_for_good_example :
    (start 3 true true (start 3 true true half_started).1
      ≡ (err failure, (start 3 true true half_started).1))
    × ((stop (start 3 true true half_started).1).done_closed ≡ false)
fails_for_good_example =
    start_fails_for_good 3 true false (start 3 true true half_started).1 3 refl (
      then_step half_started (start 3 true true half_started).1 Steps.at_rest
        (called_again 3 true true))

-- Everything opens but the database.
abbrev sample_startup : Startup
sample_startup = record {
  mode = "podman";
  repository_opens = true;
  ports_initialize = true;
  database_opens = false;
  publisher_opens = true;
  runtime_opens = true;
  consumer_opens = true;
  consumer_starts = true;
  replenisher_starts = true;
  shuts_down = true;
}

main_example : Tidy (main sample_startup)
main_example = main-Tidy sample_startup
