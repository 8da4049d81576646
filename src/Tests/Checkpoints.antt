-- ===== src/Tests/Checkpoints.antt =====
-- Runs of cmd/checkpoint against a host that is written out.
use try_it_now.Base.{◌*◌, refl, true, none, some, [], arith, ltb, if◌then◌else◌, str_eq, contains}
use try_it_now.Domain.{second}
use try_it_now.Checkpoint.{Host, Machine, default_flags, directory_of, wait_for_health, main}
use try_it_now.Checkpoint.Health.{Waited, wait_for_health-Waited}
use try_it_now.Checkpoint.Order.{Kept, main-keeps_order}
use try_it_now.Checkpoint.Removal.{Tidied, main-Tidied}

-- The shop answers from the sixth question on; the checkpoint needs sudo.
abbrev host : Host
host = record {
  succeeds = λ place args. if contains str_eq "sudo" args then true else ltb place 6;
  output = λ place args. none;
  status = λ place url. if ltb place 5 then none else some 302;
  makes_directory = λ place path. true;
  writes = λ place path. true;
  name = some "builder";
  elapsed = λ place. second;
}

abbrev fresh : Machine
fresh = record { clock = 0; place = 0; acts = [] }

wait_for_health_example :
    Waited 150 "http://localhost:8888/" fresh
      (wait_for_health 151 host (600 * second) (300 * second) "http://localhost:8888/" fresh)
wait_for_health_example =
    wait_for_health-Waited host (600 * second) (300 * second) "http://localhost:8888/" 150 fresh
      (omega arith)

main-keeps_order_example : Kept (main 151 host default_flags fresh)
main-keeps_order_example = main-keeps_order host default_flags fresh refl

main-Tidied_example : Tidied default_flags (main 151 host default_flags fresh)
unfolding directory_of
main-Tidied_example = main-Tidied host default_flags fresh refl (λ e. cc)
