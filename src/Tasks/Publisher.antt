-- ===== src/Tasks/Publisher.antt =====
-- internal/queue/nats.go: the publisher, the stream and its consumers. JetStream and the encoding of
-- tasks are parameters; what their documentation says is a record of laws.
pub mod Routing
use try_it_now.Base.{
  ℕ, ◌*◌, String, ◌≡◌, ◌⊎◌, ◌+◌, Bool, true, false, Option, none, some, List, [], ◌∷◌, ◌++◌, ◌&&◌,
  str_eq, ◌==◌, not, contains, if◌then◌else◌,
}
use Prim.Native.Char.{code}
use Prim.Native.String
use try_it_now.Base.Int.{ℤ, pos, negsuc}
use try_it_now.Base.Text.{◌<>◌}
use try_it_now.Config.{QueueConfig}
use try_it_now.Domain.{second, failure}
use try_it_now.World.{Result, ok, err}
use try_it_now.Tasks.{ProvisionTask, CleanupTask}

-- jetstream.RetentionPolicy, jetstream.StorageType and jetstream.DiscardPolicy
pub data RetentionPolicy : Type 0 where
  limits_policy interest_policy work_queue_policy : RetentionPolicy

pub data StorageType : Type 0 where
  file_storage memory_storage : StorageType

pub data DiscardPolicy : Type 0 where
  discard_old discard_new : DiscardPolicy

-- jetstream.StreamConfig, as far as it is set.
pub record StreamConfig : Type 0 where
  pub name : String
  pub description : String
  pub subjects : List String
  pub retention : RetentionPolicy
  pub max_consumers : ℤ
  pub max_msgs : ℤ
  pub max_bytes : ℤ
  pub max_age : ℕ
  pub storage : StorageType
  pub replicas : ℕ
  pub discard : DiscardPolicy

abbrev pub stream_config : QueueConfig → StreamConfig
stream_config q = record {
  name = q.stream_name;
  description = "Demo instance provisioning and cleanup tasks";
  subjects = (q.stream_name <> ".provision") ∷ (q.stream_name <> ".cleanup") ∷ [];
  retention = work_queue_policy;
  max_consumers = negsuc 0;
  max_msgs = negsuc 0;
  max_bytes = negsuc 0;
  max_age = 24 * (3600 * second);
  storage = file_storage;
  replicas = 1;
  discard = discard_old;
}

-- `c.cfg.WorkerCount * 2`
abbrev pub doubled : ℤ → ℤ
doubled (pos n) = pos (n * 2)
doubled (negsuc n) = negsuc (n * 2 + 1)

pub data AckPolicy : Type 0 where
  ack_explicit ack_all ack_none : AckPolicy

-- jetstream.ConsumerConfig, as far as it is set.
pub record ConsumerConfig : Type 0 where
  pub durable : String
  pub description : String
  pub filter_subject : String
  pub ack_policy : AckPolicy
  pub ack_wait : ℕ
  pub max_deliver : ℕ
  pub max_ack_pending : ℤ

abbrev pub provision_consumer : QueueConfig → ConsumerConfig
provision_consumer q = record {
  durable = "provision-workers";
  description = "Workers that process provisioning tasks";
  filter_subject = q.stream_name <> ".provision";
  ack_policy = ack_explicit;
  ack_wait = 30 * second;
  max_deliver = 5;
  max_ack_pending = doubled q.worker_count;
}

abbrev pub cleanup_consumer : QueueConfig → ConsumerConfig
cleanup_consumer q = record {
  durable = "cleanup-workers";
  description = "Workers that process cleanup tasks";
  filter_subject = q.stream_name <> ".cleanup";
  ack_policy = ack_explicit;
  ack_wait = 60 * second;
  max_deliver = 3;
  max_ack_pending = doubled q.worker_count;
}

-- A message of the stream, its identifier empty where it has none, and the identifiers by which the
-- server knows what it has stored lately.
pub record Message : Type 0 where
  pub subject : String
  pub id : String
  pub body : String

pub record Stream : Type 0 where
  pub messages : List Message
  pub recent : List String

abbrev pub append : Message → Stream → Stream
append m s = record {
  messages = s.messages ++ m ∷ [];
  recent = if str_eq m.id "" then s.recent else m.id ∷ s.recent;
}

-- Nats-Msg-Id is set only where there is an identifier; a message without it is no duplicate.
abbrev pub is_duplicate : String → Stream → Bool
is_duplicate id s = not (str_eq id "") && contains str_eq id s.recent

-- encoding/json, on tasks. Decoding gives back what was encoded.
pub record Codec : Type 0 where
  pub marshal_provision : ProvisionTask → Option String
  pub unmarshal_provision : String → Option ProvisionTask
  pub marshal_cleanup : CleanupTask → Option String
  pub unmarshal_cleanup : String → Option CleanupTask
  pub provision_back :
      (t : ProvisionTask) (s : String)
      → marshal_provision t ≡ some s
      → unmarshal_provision s ≡ some t
  pub cleanup_back :
      (t : CleanupTask) (s : String) → marshal_cleanup t ≡ some s → unmarshal_cleanup s ≡ some t

-- A text without the wildcards `*` and `>`.
unfoldable pub is_literal : String → Bool
is_literal String.[] = true
is_literal (String.◌∷◌ c s) = not (code c == b'*') && (not (code c == b'>') && is_literal s)

-- Publish stores a message whose subject is one of the stream's, unless it has an identifier and the
-- server has stored that lately. An error may come before or after the message is stored.
abbrev pub PublishOutcome : StreamConfig → Message → Stream → Bool × Stream → Type 0
PublishOutcome config m s (false, after) =
    (after ≡ s) ⊎ ((contains str_eq m.subject config.subjects ≡ true) × (after ≡ append m s))
PublishOutcome config m s (true, after) =
    (contains str_eq m.subject config.subjects ≡ true)
    × (after ≡ (if is_duplicate m.id s then s else append m s))

-- JetStream: whether a filter takes a subject, and what a publication comes to.
pub record JetStream : Type 0 where
  pub takes : String → String → Bool
  pub publish : StreamConfig → Message → Stream → Bool × Stream
  pub takes_literal :
      (filter subject : String)
      → is_literal filter ≡ true
      → takes filter subject ≡ str_eq filter subject
  pub publish_lem :
      (config : StreamConfig) (m : Message) (s : Stream)
      → PublishOutcome config m s (publish config m s)

abbrev pub published : Bool × Stream → Result (Unit {0}) × Stream
published (true, s) = (ok tt, s)
published (false, s) = (err failure, s)

-- The rest of a publication, from the encoded task on.
abbrev pub publish_encoded :
    JetStream → QueueConfig → String → String → Option String → Stream → Result (Unit {0}) × Stream
publish_encoded j q subject id none s = (err failure, s)
publish_encoded j q subject id (some body) s =
    published (j.publish (stream_config q) (record { subject = subject; id = id; body = body }) s)

unfoldable pub publish_provision_task :
    Codec → JetStream → QueueConfig → ProvisionTask → Stream → Result (Unit {0}) × Stream
publish_provision_task c j q task s =
    publish_encoded j q (q.stream_name <> ".provision") task.task_id (c.marshal_provision task) s

unfoldable pub publish_cleanup_task :
    Codec → JetStream → QueueConfig → CleanupTask → Stream → Result (Unit {0}) × Stream
publish_cleanup_task c j q task s =
    publish_encoded j q (q.stream_name <> ".cleanup") task.task_id (c.marshal_cleanup task) s

-- What NewNATSPublisher and NewNATSConsumer do to their connection: each step may fail.
pub data Wire : Type 0 where
  opened closed : Wire

abbrev pub with_stream : Bool → Result (Unit {0}) × List Wire
with_stream true = (ok tt, opened ∷ [])
with_stream false = (err failure, opened ∷ closed ∷ [])

-- What both have in common: `stream` tells whether the stream is at hand.
unfoldable pub new_nats_client : Bool → Bool → Bool → Result (Unit {0}) × List Wire
new_nats_client connects context stream =
    if connects
    then (if context then with_stream stream else (err failure, opened ∷ closed ∷ []))
    else (err failure, [])

-- NewNATSPublisher creates or updates the stream.
unfoldable pub new_nats_publisher : Bool → Bool → Bool → Result (Unit {0}) × List Wire
unfolding new_nats_client
new_nats_publisher connects context stream_made = new_nats_client connects context stream_made

-- NewNATSConsumer asks for the stream, which has to exist.
unfoldable pub new_nats_consumer : Bool → Bool → Bool → Result (Unit {0}) × List Wire
unfolding new_nats_client
new_nats_consumer connects context stream_found = new_nats_client connects context stream_found
