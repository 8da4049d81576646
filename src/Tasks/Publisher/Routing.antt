-- ===== src/Tasks/Publisher/Routing.antt =====
-- Which workers a published task reaches.
use try_it_now.Base.{
  String, ◌≡◌, ◌⊎◌, inl, inr, refl, ◌∙◌, Bool, true, false, Option, none, some, List, [], ◌∷◌,
  str_eq, eq_iff, eq_refl, arith, contains, Bool-cases,
}
use text.Mathlib.TextLemmas.{nil-append, cons-append, append_cancel_left}
use try_it_now.Base.Text.{◌<>◌}
use try_it_now.Config.{QueueConfig}
use try_it_now.World.{Result, ok, err}
use try_it_now.Tasks.{ProvisionTask, CleanupTask}
use try_it_now.Tasks.Publisher.{
  stream_config, provision_consumer, cleanup_consumer, Message, Stream, append, is_duplicate, Codec,
  is_literal, PublishOutcome, JetStream, Wire, opened, closed, new_nats_client, new_nats_publisher,
  new_nats_consumer, published, publish_encoded, publish_provision_task, publish_cleanup_task,
}

abbrev is_ok : Result (Unit {0}) → Bool
is_ok (ok _) = true
is_ok (err e) = false

pub data Task : Type 0 where
  provision : ProvisionTask → Task
  cleanup : CleanupTask → Task

abbrev pub task_id : Task → String
task_id (provision t) = t.task_id
task_id (cleanup t) = t.task_id

abbrev pub is_provision : Task → Bool
is_provision (provision t) = true
is_provision (cleanup t) = false

abbrev pub is_cleanup : Task → Bool
is_cleanup (provision t) = false
is_cleanup (cleanup t) = true

abbrev pub publish_task :
    Codec → JetStream → QueueConfig → Task → Stream → Result (Unit {0}) × Stream
publish_task c j q (provision t) s = publish_provision_task c j q t s
publish_task c j q (cleanup t) s = publish_cleanup_task c j q t s

-- What the worker that gets the body makes of it.
abbrev pub Decodes : Codec → Task → String → Type 0
Decodes c (provision t) body = c.unmarshal_provision body ≡ some t
Decodes c (cleanup t) body = c.unmarshal_cleanup body ≡ some t

-- The message for a task: under a subject of the stream, with the task's identifier, taken by the
-- consumer of the task's kind alone, and decoded to the task.
pub record IsMessageOf (c : Codec) (j : JetStream) (q : QueueConfig) (k : Task) (m : Message)
    : Type 0 where
  pub of_stream : contains str_eq m.subject (stream_config q).subjects ≡ true
  pub named : m.id ≡ task_id k
  pub for_provision : j.takes (provision_consumer q).filter_subject m.subject ≡ is_provision k
  pub for_cleanup : j.takes (cleanup_consumer q).filter_subject m.subject ≡ is_cleanup k
  pub decodes : Decodes c k m.body

abbrev pub Arrived : Codec → JetStream → QueueConfig → Task → Stream → Stream → Type 0
Arrived c j q k s after = (m : Message) × IsMessageOf c j q k m × (after ≡ append m s)

-- What a publication comes to.
abbrev pub Routed :
    Codec → JetStream → QueueConfig → Task → Stream → Result (Unit {0}) × Stream → Type 0
Routed c j q k s (err e, after) = (after ≡ s) ⊎ Arrived c j q k s after
Routed c j q k s (ok _, after) =
    ((is_duplicate (task_id k) s ≡ true) × (after ≡ s)) ⊎ Arrived c j q k s after

is_literal-append :
    (s t : String) → is_literal s ≡ true → is_literal t ≡ true → is_literal (s <> t) ≡ true
unfolding is_literal
is_literal-append String.[] t h k = rw (nil-append t) k
is_literal-append (String.◌∷◌ c s) t h k =
    rw (cons-append c s t) (ground (arith, h, is_literal-append s t))

subjects_differ : (name a b : String) → str_eq a b ≡ false → str_eq (name <> a) (name <> b) ≡ false
subjects_differ name a b differ = elim (Bool-cases (str_eq (name <> a) (name <> b))) [
  | inl same ↦
      let e : a ≡ b = append_cancel_left name a b ((eq_iff (name <> a) (name <> b)).0 same) in
      ground (arith, differ, eq_iff a b)
  | inr other ↦ other
]

module _ (c : Codec) (j : JetStream) (q : QueueConfig)
    (literal : is_literal q.stream_name ≡ true) where
  takes-subject :
      (suffix subject : String)
      → is_literal suffix ≡ true
      → j.takes (q.stream_name <> suffix) subject ≡ str_eq (q.stream_name <> suffix) subject
  takes-subject suffix subject h =
      j.takes_literal (q.stream_name <> suffix) subject
        (is_literal-append q.stream_name suffix literal h)

  provision_message :
      (t : ProvisionTask) (body : String)
      → c.marshal_provision t ≡ some body
      → IsMessageOf c j q
          (provision t)
          (record { subject = q.stream_name <> ".provision"; id = t.task_id; body = body })
  unfolding is_literal contains
  provision_message t body e = record {
    of_stream = rw (eq_refl (q.stream_name <> ".provision")) refl;
    named = refl;
    for_provision =
        takes-subject ".provision" (q.stream_name <> ".provision") refl
        ∙ eq_refl (q.stream_name <> ".provision");
    for_cleanup =
        takes-subject ".cleanup" (q.stream_name <> ".provision") refl
        ∙ subjects_differ q.stream_name ".cleanup" ".provision" refl;
    decodes = c.provision_back t body e;
  }

  cleanup_message :
      (t : CleanupTask) (body : String)
      → c.marshal_cleanup t ≡ some body
      → IsMessageOf c j q
          (cleanup t)
          (record { subject = q.stream_name <> ".cleanup"; id = t.task_id; body = body })
  unfolding is_literal contains
  cleanup_message t body e = record {
    of_stream = ground (arith, eq_refl (q.stream_name <> ".cleanup"));
    named = refl;
    for_provision =
        takes-subject ".provision" (q.stream_name <> ".cleanup") refl
        ∙ subjects_differ q.stream_name ".provision" ".cleanup" refl;
    for_cleanup =
        takes-subject ".cleanup" (q.stream_name <> ".cleanup") refl
        ∙ eq_refl (q.stream_name <> ".cleanup");
    decodes = c.cleanup_back t body e;
  }

  outcome-Routed :
      (k : Task) (m : Message) (s : Stream) (o : Bool × Stream)
      → IsMessageOf c j q k m
      → PublishOutcome (stream_config q) m s o
      → Routed c j q k s (published o)
  outcome-Routed k m s (false, after) is_message (inl same) = inl same
  outcome-Routed k m s (false, after) is_message (inr (known, e)) = inr (m, is_message, e)
  outcome-Routed k m s (true, after) is_message (known, e) =
      elim (Bool-cases (is_duplicate m.id s)) [
        | inl old ↦ inl (rw (← is_message.named) old, rw old at e)
        | inr new ↦ inr (m, is_message, rw new at e)
      ]

  encoded-Routed :
      (k : Task) (subject : String) (encoded : Option String) (s : Stream)
      → ((body : String)
          → encoded ≡ some body
          → IsMessageOf c j q k (record { subject = subject; id = task_id k; body = body }))
      → Routed c j q k s (publish_encoded j q subject (task_id k) encoded s)
  encoded-Routed k subject none s is_message = inl refl
  encoded-Routed k subject (some body) s is_message =
      let m : Message = record { subject = subject; id = task_id k; body = body } in
      outcome-Routed k m s (j.publish (stream_config q) m s) (is_message body refl)
        (j.publish_lem (stream_config q) m s)

-- If the name of the stream has no wildcard: a publication that succeeds leaves the stream with one
-- message more, at its end, or as it was if the task has an identifier and the server has lately
-- stored a message with the same. What becomes of the message later is not said. The message lies under a subject of the stream, has the task's
-- identifier, is taken by the consumer of the task's kind and by no other, and decodes to the task. A
-- publication that fails has left the stream as it was, or has put that same message into it.
pub publish_task-Routed :
    (c : Codec) (j : JetStream) (q : QueueConfig) (k : Task) (s : Stream)
    → is_literal q.stream_name ≡ true
    → Routed c j q k s (publish_task c j q k s)
unfolding publish_provision_task publish_cleanup_task
publish_task-Routed c j q (provision t) s literal =
    encoded-Routed c j q literal (provision t) (q.stream_name <> ".provision")
      (c.marshal_provision t) s (provision_message c j q literal t)
publish_task-Routed c j q (cleanup t) s literal =
    encoded-Routed c j q literal (cleanup t) (q.stream_name <> ".cleanup") (c.marshal_cleanup t) s
      (cleanup_message c j q literal t)

-- Whether the connection is open at the end.
abbrev pub is_open : List Wire → Bool
is_open [] = false
is_open (opened ∷ wires) = elim wires [ [] ↦ true | _ ↦ is_open wires ]
is_open (closed ∷ wires) = is_open wires

client-is_open :
    (connects context stream : Bool)
    → is_open (new_nats_client connects context stream).1
      ≡ is_ok (new_nats_client connects context stream).0
unfolding new_nats_client
client-is_open false context stream = refl
client-is_open true false stream = refl
client-is_open true true false = refl
client-is_open true true true = refl

-- A publisher or a consumer that could not be made has left no connection open, and one that was made
-- has its own.
new_nats_clients-is_open :
    (connects context stream : Bool)
    → (is_open (new_nats_publisher connects context stream).1
        ≡ is_ok (new_nats_publisher connects context stream).0)
      × (is_open (new_nats_consumer connects context stream).1
          ≡ is_ok (new_nats_consumer connects context stream).0)
unfolding new_nats_publisher new_nats_consumer
new_nats_clients-is_open connects context stream =
    (client-is_open connects context stream, client-is_open connects context stream)
