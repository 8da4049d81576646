-- ===== src/Tests/Requests.antt =====
-- The theorems about the handlers of requests and of tasks at concrete inputs.
use try_it_now.Base.{
  ◌≡◌, true, false, Option, none, some, List, [], ◌∷◌, arith, if◌then◌else◌, ◌==◌,
}
use try_it_now.World.{ok}
use try_it_now.Tests.Sample.{sample_valkey-IsDocumented, calm, calm-IsReliable, sample_world}
use try_it_now.Tests.Pool.{sample_config, provisions}
use try_it_now.Base.{refl}
use try_it_now.Domain.{ready}
use try_it_now.Tests.Sample.{sample_instance}
use try_it_now.Api.{
  Config, error_response, release_response, not_found, rate_limited, release_demo, get_demo,
  acquire_demo,
}
use try_it_now.Api.Stream.{Wake, tick_due, deadline_met, stream_events}
use try_it_now.Api.Events.{Streams, stream_events-Streams}
use try_it_now.Api.Answers.{acquire_demo_limited, get_demo-release_demo}
use try_it_now.Api.Guard.{Request, post_acquire, Serves, serve-Serves}
use try_it_now.Provision.Growth.{Grown}
use try_it_now.Store.Ports.Exclusive.{is_available, is_in_use}
use try_it_now.Tasks.{
  ProvisionTask, CleanupTask, ack, Round, stop_signal, fetch_failed, fetched,
  process_provision_message, cleanup_handler, run_worker,
}
use try_it_now.Tasks.Outcomes.{
  process_provision_message-Grown, WorkedThrough, run_worker-WorkedThrough,
}
use try_it_now.Tasks.Redelivery.{cleanup_handler_frees_port}

abbrev api_config : Config
api_config = record {
  pool = sample_config;
  api_key = "key";
  requests_per_hour = 2;
  requests_per_day = 3;
  max_ttl = 7200000000000;
  admin_path = "admin";
  mode = "docker";
}

abbrev keyless : Request
keyless = record {
  route = post_acquire;
  client_ip = "x";
  header_key = "";
  query_key = "wrong";
  wakes = [];
}

serve_example : Serves calm api_config
serve_example = serve-Serves calm api_config

abbrev cleanup_of_two : CleanupTask
cleanup_of_two = record {
  task_id = "t";
  instance_id = "b";
  container_id = "c1";
  db_prefix = "d1_";
  hostname = "demo-1";
  port = 2;
  created_at = 7;
}

frees_port_example :
    (is_available 2 (cleanup_handler calm cleanup_of_two sample_world).1.keyspace
      ≡ (if 2 == 2 then true else is_available 2 sample_world.keyspace))
    × (is_in_use 2 (cleanup_handler calm cleanup_of_two sample_world).1.keyspace
        ≡ (if 2 == 2 then false else is_in_use 2 sample_world.keyspace))
frees_port_example =
    cleanup_handler_frees_port calm cleanup_of_two sample_world 2 calm-IsReliable (omega arith)

abbrev task : ProvisionTask
task = record { task_id = "t"; priority = 1; created_at = 7 }

acked : (process_provision_message calm sample_config (some task) sample_world).0 ≡ ok ack
unfolding process_provision_message
acked = rw provisions

task_example :
    Grown sample_world.keyspace
      (process_provision_message calm sample_config (some task) sample_world).1.keyspace
task_example =
    process_provision_message-Grown calm sample_config task sample_world sample_valkey-IsDocumented
      acked

abbrev rounds : List (Round (Option ProvisionTask))
rounds = fetch_failed ∷ fetched false (some task) ∷ fetched false none ∷ stop_signal ∷ []

worker_example :
    WorkedThrough calm sample_config rounds sample_world
      (run_worker (process_provision_message calm sample_config) rounds sample_world)
worker_example =
    run_worker-WorkedThrough calm sample_config rounds sample_world sample_valkey-IsDocumented

release_found_example :
    ((release_demo calm "a" sample_world).0
      ≡ ok (record { status = 200; body = release_response "a" }))
    × ((get_demo calm api_config "a" (release_demo calm "a" sample_world).1).0
        ≡ ok (record { status = 404; body = error_response not_found }))
release_found_example =
    get_demo-release_demo calm api_config "a" (sample_instance "a" 1 ready) sample_world
      calm-IsReliable refl

-- An address that may make no requests.
abbrev closed_config : Config
closed_config = record api_config { requests_per_hour = 0 }

limited_example :
    ((acquire_demo calm closed_config "x" sample_world).0
      ≡ ok (record { status = 429; body = error_response rate_limited }))
    × ((acquire_demo calm closed_config "x" sample_world).1.keyspace ≡ sample_world.keyspace)
    × ((acquire_demo calm closed_config "x" sample_world).1.trace ≡ sample_world.trace)
limited_example = acquire_demo_limited calm closed_config "x" sample_world calm-IsReliable refl

abbrev wakes : List Wake
wakes = tick_due ∷ tick_due ∷ deadline_met ∷ []

stream_example : Streams "a" 3 (stream_events wakes calm "a" sample_world).0
stream_example = stream_events-Streams wakes calm "a" sample_world
