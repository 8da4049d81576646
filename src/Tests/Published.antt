-- ===== src/Tests/Published.antt =====
-- A publication to a stream that is written out.
use try_it_now.Base.{
  ◌≡◌, refl, String, Bool, true, false, Option, none, some, [], str_eq, contains, if◌then◌else◌,
  arith, inl, inr, ◌==◌, ◌&&◌, Bool-cases,
}
use try_it_now.Base.Int.{pos}
use try_it_now.Config.{QueueConfig}
use try_it_now.Tasks.{ProvisionTask, CleanupTask}
use try_it_now.Tasks.Publisher.{
  StreamConfig, Message, Stream, append, is_duplicate, Codec, JetStream, PublishOutcome, is_literal,
}
use try_it_now.Tasks.Publisher.Routing.{Task, provision, publish_task, Routed, publish_task-Routed}

-- An encoding of the tasks of no priority and no time by their identifiers.
abbrev marshal : ProvisionTask → Option String
marshal t = if t.priority == 0 && t.created_at == 0 then some t.task_id else none

abbrev unmarshal : String → Option ProvisionTask
unmarshal id = some (record { task_id = id; priority = 0; created_at = 0 })

marshal_back : (t : ProvisionTask) (s : String) → marshal t ≡ some s → unmarshal s ≡ some t
marshal_back t s e = ground (arith, e)

abbrev nothing_marshalled : CleanupTask → Option String
nothing_marshalled t = none

abbrev nothing_unmarshalled : String → Option CleanupTask
nothing_unmarshalled s = none

no_cleanup_back :
    (t : CleanupTask) (s : String) → nothing_marshalled t ≡ some s → nothing_unmarshalled s ≡ some t
no_cleanup_back t s e = cc

abbrev codec : Codec
codec = record {
  marshal_provision = marshal;
  unmarshal_provision = unmarshal;
  marshal_cleanup = nothing_marshalled;
  unmarshal_cleanup = nothing_unmarshalled;
  provision_back = marshal_back;
  cleanup_back = no_cleanup_back;
}

abbrev publish : StreamConfig → Message → Stream → Bool × Stream
publish config m s =
    if contains str_eq m.subject config.subjects
    then (true, if is_duplicate m.id s then s else append m s)
    else (false, s)

publish-PublishOutcome :
    (config : StreamConfig) (m : Message) (s : Stream)
    → PublishOutcome config m s (publish config m s)
publish-PublishOutcome config m s = elim (Bool-cases (contains str_eq m.subject config.subjects)) [
  | inl known ↦ rw known (known, refl)
  | inr unknown ↦ rw unknown (inl refl)
]

abbrev server : JetStream
server = record {
  takes = λ filter subject. str_eq filter subject;
  publish = publish;
  takes_literal = λ filter subject h. refl;
  publish_lem = publish-PublishOutcome;
}

abbrev config : QueueConfig
config = record {
  nats_url = "nats://localhost:4222";
  stream_name = "PROVISIONING";
  worker_count = pos 3;
}

abbrev task : Task
task = provision (record { task_id = "t-17"; priority = 0; created_at = 0 })

abbrev empty : Stream
empty = record { messages = []; recent = [] }

publish_task_example :
    Routed codec server config task empty (publish_task codec server config task empty)
unfolding is_literal
publish_task_example = publish_task-Routed codec server config task empty refl
