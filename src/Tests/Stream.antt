-- ===== src/Tests/Stream.antt =====
-- The theorems on src/treasury, applied to messages of a program with an empty ledger.
use invoice_reservation.Prelude.{
  ◌≡◌, refl, ℕ, suc, true, false, none, some, [], ◌∷◌, arith, ◌<◌, ◌⊎◌, inl, find, update_where,
  filter, ◌^◌, if◌then◌else◌, ◌==◌, map,
}
use invoice_reservation.Prelude.Text.{Text, codes, text_eq}
use invoice_reservation.Prelude.Int.{pos, neg_ℤ, ◌+ℤ◌, ◌-ℤ◌}
use invoice_reservation.Prelude.Result.{Result, ok, err}
use invoice_reservation.Position.{advance_position, total_reserved, is_over_limit, available}
use invoice_reservation.Policy.Snapshot.{AcknowledgementKind}
use invoice_reservation.Store.{
  Database, tx_ops, find_program, with_program_lock, program_constraints, local_within_limit,
  persist_advance, upsert, upsert_position, transaction,
}
use invoice_reservation.Store.Tables.{ProgramEntity}
use invoice_reservation.Service.TreasuryEvent.{
  CapacityEvent, CapacityEventType, apply, apply_locked, apply_new, apply_or_suppress, apply_entry,
  build_entry, insert_processed, record_applied, inspect,
}
use invoice_reservation.Service.Snapshot.{ReconciliationSnapshot}
use invoice_reservation.Audit.{ledger_sum, audit_components, audit_programs, audit_ledger}
use invoice_reservation.Stream.Classifier.{
  Thrown, transient, primitive, object, is_transient_code, is_transient_message,
  is_transient_failure, classify_failure,
}
use invoice_reservation.Stream.Retry.{
  RetryPolicy, RetryError, Run, delay_ms, on_error, retry_from, with_retry,
}
use invoice_reservation.Stream.Retry.Bounds.{
  after_calls, schedule, Ends, with_retry-Ends, with_retry-survives,
}
use invoice_reservation.Stream.Json.{
  Members, end, member, string, number, integer, object, array, nil, item, text, Decoders,
  check_keys, decode, message_id_of, program_id_of, effective_at_of, correlation_id_of, currency_of,
  parse_object,
}
use invoice_reservation.Stream.EventSchema.{
  version_of, type_of, amount_of, reference_of, parse_members, parse_payload, parse_event,
  parse_capacity_event,
}
use invoice_reservation.Stream.SnapshotSchema.{
  safe_version_of, minor_of, references_of, reservation_ids_of, parse_explicit, parse_marker,
  parse_acknowledgement, parse_snapshot, parse_reconciliation_snapshot,
}
use invoice_reservation.Stream.Accepted.{IsEvent, parse_capacity_event-IsEvent}
use invoice_reservation.Stream.Accepted.Snapshot.{
  IsSnapshot, parse_reconciliation_snapshot-IsSnapshot,
}
use invoice_reservation.Stream.Handlers.{InboundMessage, HandleOutcome, handle_event}
use invoice_reservation.Stream.Consumer.{
  Fault, World, Consumer, handle_now, dispatch, process_message,
}
use invoice_reservation.Stream.Safety.{Settles, process_message-Settles}
use invoice_reservation.Stream.Effects.{process_message-audit_ledger}
use invoice_reservation.Stream.Outage.{settled, process_message-survives}
use invoice_reservation.Tests.{program, position, database}

-- A connection that was refused, as the driver's socket reports it.
abbrev refused : Thrown
refused = Thrown.object (record { code = some (codes "ECONNREFUSED"); message = none }) none none

refused_is_transient : is_transient_failure refused ≡ true
unfolding is_transient_failure is_transient_code text_eq
refused_is_transient = refl

closed_is_transient : is_transient_message (codes "Connection to db has been CLOSED") ≡ true
unfolding is_transient_message
closed_is_transient = refl

-- A dropped connection with no code, by its cause's message.
dropped_is_transient :
    is_transient_failure (
      Thrown.object
        (record { code = none; message = none })
        none
        (some (record { code = none; message = some (codes "socket hang up") })))
    ≡ true
unfolding is_transient_failure is_transient_message
dropped_is_transient = refl

unique_violation_is_not : is_transient_code (codes "23505") ≡ false
unfolding is_transient_code text_eq
unique_violation_is_not = refl

abbrev policy : RetryPolicy
policy = record { max_attempts = 3; base_delay_ms = 10; max_delay_ms = 15 }

-- Fails until the state is 2.
abbrev flaky : ℕ → Result ℕ Thrown × ℕ
flaky n = if n == 2 then (ok 7, 3) else (err primitive, suc n)

flaky_run :
    with_retry flaky policy 0 ≡ some (record { outcome = ok 7; state = 3; delays = 10 ∷ 15 ∷ [] })
unfolding with_retry retry_from on_error classify_failure is_transient_failure delay_ms
flaky_run = refl

with_retry-Ends_example :
    (run : Run ℕ ℕ) × (with_retry flaky policy 0 ≡ some run) × Ends flaky policy 1 0 run
with_retry-Ends_example = with_retry-Ends flaky policy 0

primitive_is_retried : classify_failure primitive ≡ transient
unfolding classify_failure is_transient_failure
primitive_is_retried = refl

with_retry-survives_example :
    with_retry flaky policy 0
    ≡ some (record { outcome = ok 7; state = 3; delays = schedule policy 1 2 })
with_retry-survives_example =
    with_retry-survives flaky policy 2 0 (omega arith)
      (primitive_is_retried, (primitive_is_retried, tt)) refl

abbrev uuid : Text
uuid = codes "00000000-0000-0000-0000-00000000000a"

abbrev event_members : Members
event_members = member (codes "messageId") (string (codes "message1")) (
    member (codes "programId") (string uuid) (
      member (codes "version") (number (integer (pos 1))) (
        member (codes "effectiveAt") (string (codes "now")) (
          member (codes "type") (string (codes "LIMIT_CHANGED")) (
            member (codes "payload")
              (object (
                member (codes "amountMinor") (string (codes "50"))
                  (member (codes "currency") (string (codes "EUR")) end)))
              end)))))

abbrev snapshot_members : Members
snapshot_members = member (codes "messageId") (string (codes "message2")) (
    member (codes "programId") (string uuid) (
      member (codes "version") (number (integer (pos 2))) (
        member (codes "effectiveAt") (string (codes "now")) (
          member (codes "currency") (string (codes "EUR")) (
            member (codes "creditLimitMinor") (string (codes "60")) (
              member (codes "reservedMinor") (string (codes "0")) (
                member (codes "acknowledgement")
                  (object (
                    member (codes "kind") (string (codes "EXPLICIT")) (
                      member (codes "reservationIds") (array (item (string (codes "t1")) nil))
                        end)))
                  end)))))))

-- Decoders that read every text as this object and every date as 5.
abbrev decoders_of : Members → Decoders
decoders_of ms = record {
  utf8 = λ bytes. bytes;
  parse_json = λ t. some (object ms);
  parse_date = λ t. some (pos 5);
}

abbrev limit_event : CapacityEvent
limit_event = record {
  message_id = codes "message1";
  program_id = uuid;
  version = pos 1;
  effective_at = pos 5;
  correlation_id = none;
  type = CapacityEventType.limit_changed;
  amount_minor = pos 50;
  currency = codes "EUR";
  reservation_reference = none;
}

limit_event-parsed : parse_capacity_event (decoders_of event_members) (text []) ≡ ok limit_event
unfolding parse_capacity_event decode parse_object parse_event check_keys filter text_eq
    message_id_of program_id_of version_of effective_at_of type_of correlation_id_of parse_payload
    parse_members amount_of currency_of reference_of
limit_event-parsed = refl

parse_capacity_event-IsEvent_example : IsEvent limit_event
parse_capacity_event-IsEvent_example =
    parse_capacity_event-IsEvent (decoders_of event_members) (text []) limit_event-parsed

-- A version that no BIGINT column holds is accepted.
huge_version : version_of (some (number (integer (pos (2 ^ 63))))) ≡ ok (pos (2 ^ 63))
unfolding version_of
huge_version = refl

abbrev limit_snapshot : ReconciliationSnapshot
limit_snapshot = record {
  message_id = codes "message2";
  program_id = uuid;
  version = pos 2;
  effective_at = pos 5;
  correlation_id = none;
  currency = codes "EUR";
  credit_limit_minor = pos 60;
  reserved_minor = pos 0;
  acknowledgement = some (record {
    kind = AcknowledgementKind.explicit;
    reservation_references = some (codes "t1" ∷ []);
    ingested_through = none;
  });
}

limit_snapshot-parsed :
    parse_reconciliation_snapshot (decoders_of snapshot_members) (text []) ≡ ok limit_snapshot
unfolding parse_reconciliation_snapshot decode parse_object parse_snapshot check_keys filter text_eq
    message_id_of program_id_of safe_version_of effective_at_of correlation_id_of currency_of
    minor_of references_of reservation_ids_of parse_explicit parse_marker parse_acknowledgement
limit_snapshot-parsed = refl

parse_reconciliation_snapshot-IsSnapshot_example : IsSnapshot limit_snapshot
parse_reconciliation_snapshot-IsSnapshot_example =
    parse_reconciliation_snapshot-IsSnapshot (decoders_of snapshot_members) (text [])
      limit_snapshot-parsed

-- A program that the treasury has given no limit yet.
abbrev new_program : ProgramEntity
new_program = record program {
  position = record position {
    id = uuid;
    credit_limit_minor = pos 0;
    treasury_reserved_minor = pos 0;
    next_sequence = pos 0;
  };
}

abbrev new_database : Database
new_database = record database { programs = new_program ∷ []; ledger = [] }

-- The broker and the services fail in the first call only.
abbrev consumer : Consumer
consumer = record {
  handling = record {
    decoders = decoders_of event_members;
    event_hash = λ e. e.message_id;
    snapshot_hash = λ s. s.message_id;
    basis_points = 1000;
  };
  policy = policy;
  snapshots_topic = codes "snapshots";
  thrown_of = λ f. primitive;
  conditions =
      λ n. record { now = pos 9; fault = if n == 0 then Fault.before refused else Fault.fine };
}

abbrev message : InboundMessage
message = record {
  topic = codes "events";
  partition = pos 0;
  offset = pos 4;
  key = none;
  value = some [];
  headers = [];
}

abbrev world : World
world = record { database = new_database; published = []; committed = []; tick = 0 }

-- To compute with the handler of an event.
unfoldable handle_ops : Unit {0}
unfolding handle_event inspect apply apply_locked apply_new apply_or_suppress apply_entry
    build_entry insert_processed record_applied parse_capacity_event decode parse_object parse_event
    check_keys filter text_eq message_id_of program_id_of version_of effective_at_of type_of
    correlation_id_of parse_payload parse_members amount_of currency_of reference_of tx_ops find
    update_where find_program with_program_lock program_constraints local_within_limit
    persist_advance upsert upsert_position transaction advance_position total_reserved available
    is_over_limit ◌+ℤ◌ ◌-ℤ◌ neg_ℤ
handle_ops = tt

abbrev after_event : Database
after_event = (handle_now consumer message (pos 9) new_database).1

event_handled :
    handle_now consumer message (pos 9) new_database ≡ (ok HandleOutcome.applied, after_event)
unfolding handle_ops
event_handled = refl

new_limit : map (λ p. p.credit_limit_minor) after_event.programs ≡ pos 50 ∷ []
unfolding handle_ops
new_limit = refl

refused_is_retried : classify_failure refused ≡ transient
unfolding classify_failure is_transient_failure is_transient_code text_eq
refused_is_retried = refl

process_message-survives_example :
    process_message consumer message world
    ≡ some (ok tt, settled consumer message world after_event 3)
process_message-survives_example =
    process_message-survives consumer message 1 world (omega arith)
      (refused, refl, refused_is_retried, tt) refl event_handled (inl refl) refl

process_message-Settles_example :
    (k : ℕ) × (k < consumer.policy.max_attempts ⊎ (k ≡ 0))
    × (r : Result (Unit {0}) RetryError) × (w' : World) × (process_message consumer message world
        ≡ some (r, w'))
    × Settles consumer message world
        (dispatch consumer message
          (after_calls (dispatch consumer message) consumer.policy k world)).0
        r
        w'
process_message-Settles_example = process_message-Settles consumer message world

new_audit : (audit_ledger new_database).mismatch ≡ none
unfolding audit_ledger audit_programs audit_components ledger_sum
new_audit = refl

process_message-audit_ledger_example :
    (audit_ledger (settled consumer message world after_event 3).database).mismatch ≡ none
process_message-audit_ledger_example =
    process_message-audit_ledger consumer message world process_message-survives_example new_audit
