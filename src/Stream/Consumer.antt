-- ===== src/Stream/Consumer.antt =====
-- src/treasury/consumer/treasury.consumer.ts, from a message of the client library to the commit of
-- its offset, and the record that src/treasury/dlq/dlq.publisher.ts sends.
-- The services' infrastructure and the broker may fail at any call, before or after its effect.
use Prim.Native.Nat.{max}
use invoice_reservation.Prelude.{
  ℕ, suc, Option, none, some, List, [], ◌∷◌, ◌++◌, map, if◌then◌else◌, or_else, find,
}
use invoice_reservation.Prelude.Text.{Text, codes, text_eq}
use invoice_reservation.Prelude.Decimal.{show_ℤ}
use invoice_reservation.Prelude.Int.{ℤ, pos, ◌+ℤ◌}
use invoice_reservation.Prelude.Result.{Result, ok, err, map_err}
use invoice_reservation.Position.{Date}
use invoice_reservation.Store.{Database, Failure}
use invoice_reservation.Service.TreasuryEvent.{
  QuarantineReason, unknown_program, currency_mismatch, version_conflict, missing_ack_marker,
  implausible_delta, snapshot_inconsistent, schema_invalid, handler_failure,
}
use invoice_reservation.Stream.Classifier.{Thrown, is_transient_failure}
use invoice_reservation.Stream.Retry.{RetryPolicy, RetryError, rethrown, exhausted, Run, with_retry}
use invoice_reservation.Stream.Handlers.{
  HeaderScalar, text, bytes, InboundMessage, HandleOutcome, applied, skipped, quarantined, Handling,
  handle_event, handle_snapshot,
}

pub data HeaderValue : Type 0 where
  one : HeaderScalar → HeaderValue
  many : List HeaderScalar → HeaderValue
  undefined : HeaderValue

-- A message of the client library.
pub record KafkaMessage : Type 0 where
  pub offset : ℤ
  pub key : Option (List ℕ)
  pub value : Option (List ℕ)
  pub headers : List (Text × HeaderValue)

abbrev pub first_of : HeaderValue → Option HeaderScalar
first_of (one x) = some x
first_of (many []) = none
first_of (many (x ∷ xs)) = some x
first_of undefined = none

abbrev pub to_inbound_headers : List (Text × HeaderValue) → List (Text × Option HeaderScalar)
to_inbound_headers = map (λ h. (h.0, first_of h.1))

-- The `inbound` of `handleEachMessage`.
abbrev pub inbound_of : Text → ℤ → KafkaMessage → InboundMessage
inbound_of topic partition m = record {
  topic = topic;
  partition = partition;
  offset = m.offset;
  key = m.key;
  value = m.value;
  headers = to_inbound_headers m.headers;
}

abbrev scalar_text : (List ℕ → Text) → Option HeaderScalar → Option Text
scalar_text utf8 none = none
scalar_text utf8 (some (text t)) = some t
scalar_text utf8 (some (bytes b)) = some (utf8 b)

abbrev header_text : (List ℕ → Text) → Option (Text × Option HeaderScalar) → Option Text
header_text utf8 none = none
header_text utf8 (some h) = scalar_text utf8 h.1

unfoldable pub correlation_id_of : (List ℕ → Text) → List (Text × Option HeaderScalar) → Option Text
correlation_id_of utf8 hs = header_text utf8 (find (λ h. text_eq h.0 (codes "correlationId")) hs)

pub record DlqRecord : Type 0 where
  pub reason : QuarantineReason
  pub correlation_id : Option Text
  pub original_topic : Text
  pub original_partition : ℤ
  pub original_offset : ℤ
  pub key : Option (List ℕ)
  pub value : Option (List ℕ)

abbrev pub reason_text : QuarantineReason → Text
reason_text unknown_program = codes "UNKNOWN_PROGRAM"
reason_text currency_mismatch = codes "CURRENCY_MISMATCH"
reason_text version_conflict = codes "VERSION_CONFLICT"
reason_text missing_ack_marker = codes "MISSING_ACK_MARKER"
reason_text implausible_delta = codes "IMPLAUSIBLE_DELTA"
reason_text snapshot_inconsistent = codes "SNAPSHOT_INCONSISTENT"
reason_text schema_invalid = codes "SCHEMA_INVALID"
reason_text handler_failure = codes "HANDLER_FAILURE"

-- A message of the dead-letter topic.
pub record DlqMessage : Type 0 where
  pub key : Option (List ℕ)
  pub value : Option (List ℕ)
  pub headers : List (Text × Text)

-- The message of `KafkaDlqPublisher.publish`.
unfoldable pub dlq_message : DlqRecord → DlqMessage
dlq_message r = record {
  key = r.key;
  value = r.value;
  headers =
      (codes "reason", reason_text r.reason)
      ∷ (codes "correlationId", or_else r.correlation_id [])
      ∷ (codes "originalTopic", r.original_topic)
      ∷ (codes "originalPartition", show_ℤ r.original_partition)
      ∷ (codes "originalOffset", show_ℤ r.original_offset)
      ∷ [];
}

-- An argument of `commitOffsets`.
pub record TopicOffset : Type 0 where
  pub topic : Text
  pub partition : ℤ
  pub offset : ℤ

-- The offset of the next message.
unfoldable pub next_offset : InboundMessage → TopicOffset
next_offset m = record { topic = m.topic; partition = m.partition; offset = m.offset +ℤ pos 1 }

-- How a call of the outside goes: it works, it throws with no effect, or after its effect.
pub data Fault : Type 0 where
  fine : Fault
  before after : Thrown → Fault

-- The time of a call and how it goes.
pub record Conditions : Type 0 where
  pub now : Date
  pub fault : Fault

-- `tick` counts the calls of the outside.
pub record World : Type 0 where
  pub database : Database
  pub published : List DlqMessage
  pub committed : List TopicOffset
  pub tick : ℕ

-- What the consumer is built with. `thrown_of` is the error object that the driver or a service
-- throws for a failure.
pub record Consumer : Type 0 where
  pub handling : Handling
  pub policy : RetryPolicy
  pub snapshots_topic : Text
  pub thrown_of : Failure → Thrown
  pub conditions : ℕ → Conditions

abbrev pub ticked : World → World
ticked w = record w { tick = suc w.tick }

-- A call that goes as `f` says; `done` is its result and the world after it.
abbrev pub suffer : {A : Type 0} → Fault → World → Result A Thrown × World → Result A Thrown × World
suffer fine w done = done
suffer (before e) w done = (err e, w)
suffer (after e) w done = (err e, done.1)

module _ (c : Consumer) (m : InboundMessage) where
  abbrev pub handle_now : Date → Database → Result HandleOutcome Failure × Database
  handle_now now db =
      if text_eq m.topic c.snapshots_topic
      then handle_snapshot c.handling now m db
      else handle_event c.handling now m db

  abbrev pub handled : Date → World → Result HandleOutcome Thrown × World
  handled now w =
      let (r, db) = handle_now now w.database in (map_err r c.thrown_of, record w { database = db })

  unfoldable pub dispatch : World → Result HandleOutcome Thrown × World
  dispatch w =
      let now = (c.conditions w.tick).now in
      suffer (c.conditions w.tick).fault (ticked w) (handled now (ticked w))

  unfoldable pub record_of : QuarantineReason → DlqRecord
  record_of reason = record {
    reason = reason;
    correlation_id = correlation_id_of c.handling.decoders.utf8 m.headers;
    original_topic = m.topic;
    original_partition = m.partition;
    original_offset = m.offset;
    key = m.key;
    value = m.value;
  }

  unfoldable pub publish : DlqRecord → World → Result (Unit {0}) Thrown × World
  publish r w =
      suffer (c.conditions w.tick).fault (ticked w)
        (ok tt, record (ticked w) { published = w.published ++ dlq_message r ∷ [] })

  -- `quarantine`
  unfoldable pub quarantine : QuarantineReason → World → Option (Run World (Unit {0}))
  quarantine reason = with_retry (publish (record_of reason)) c.policy

  -- `commitOffset`, whose error `processMessage` does not catch.
  unfoldable pub commit_offset : World → Result (Unit {0}) Thrown × World
  commit_offset w =
      suffer (c.conditions w.tick).fault (ticked w)
        (ok tt, record (ticked w) { committed = w.committed ++ next_offset m ∷ [] })

  -- What `processMessage` throws, if it does, and the world after it.
  abbrev pub Processed : Type 0
  Processed = Result (Unit {0}) RetryError × World

  abbrev pub commit : World → Processed
  commit w = let (r, w') = commit_offset w in (map_err r rethrown, w')

  abbrev pub commit_after : Result (Unit {0}) RetryError → World → Processed
  commit_after (ok u) w = commit w
  commit_after (err e) w = (err e, w)

  abbrev pub commit_published : Option (Run World (Unit {0})) → Option Processed
  commit_published none = none
  commit_published (some run) = some (commit_after run.outcome run.state)

  abbrev pub quarantine_and_commit : QuarantineReason → World → Option Processed
  quarantine_and_commit reason w = commit_published (quarantine reason w)

  -- What follows the handler's retried call.
  unfoldable pub conclude : Result HandleOutcome RetryError → World → Option Processed
  conclude (ok applied) w = some (commit w)
  conclude (ok skipped) w = some (commit w)
  conclude (ok (quarantined reason)) w = quarantine_and_commit reason w
  conclude (err (rethrown e)) w = quarantine_and_commit handler_failure w
  conclude (err (exhausted e)) w =
      if is_transient_failure e
      then some (err (exhausted e), w)
      else quarantine_and_commit handler_failure w

  abbrev pub conclude_run : Option (Run World HandleOutcome) → Option Processed
  conclude_run none = none
  conclude_run (some run) = conclude run.outcome run.state

  -- `processMessage`
  unfoldable pub process_message : World → Option Processed
  process_message w = conclude_run (with_retry dispatch c.policy w)

-- `handleEachMessage`
unfoldable pub handle_each_message :
    Consumer → Text → ℤ → KafkaMessage → World → Option (Result (Unit {0}) RetryError × World)
handle_each_message c topic partition m = process_message c (inbound_of topic partition m)

-- `restartDelayMs`
abbrev pub restart_delay_ms : RetryPolicy → ℕ
restart_delay_ms p = max p.base_delay_ms 1
