-- ===== src/Service/TreasuryEvent.antt =====
-- src/capacity/application/apply-treasury-event.service.ts, with the types of
-- src/shared/treasury/capacity-event.ts.
use invoice_reservation.Prelude.{
  Bool, true, false, not, ◌&&◌, ◌||◌, Option, none, some, [], ◌∷◌, ◌++◌, if◌then◌else◌, find,
  update_where, or_else, is_some,
}
use invoice_reservation.Prelude.Text.{Text, codes, text_eq}
use invoice_reservation.Prelude.Int.{ℤ, neg_ℤ, ◌-ℤ◌, ltb_ℤ, ◌==ℤ◌}
use invoice_reservation.Prelude.Result.{Result, ok, err}
use invoice_reservation.Position.{
  Date, PositionComponent, LedgerCause, PendingLedgerEntry, advance_position,
}
use invoice_reservation.Store.{
  Database, Failure, program_not_found, Tx, pure, ◌>>=◌, ◌>>◌, gets, modify, check, in_int64,
  find_program, has_id, with_program_lock, transaction, persist_advance, upsert_position,
}
use invoice_reservation.Store.Tables.{
  ProgramEntity, InvoiceReservation, ProcessedMessage, MessageKind, StreamCoordinates,
}

pub data CapacityEventType : Type 0 where
  limit_changed reservation_booked reservation_released : CapacityEventType

-- `CapacityEvent`, its payload's fields among its own.
pub record CapacityEvent : Type 0 where
  pub message_id : Text
  pub program_id : Text
  pub version : ℤ
  pub effective_at : Date
  pub correlation_id : Option Text
  pub type : CapacityEventType
  pub amount_minor : ℤ
  pub currency : Text
  pub reservation_reference : Option Text

-- `QuarantineReason` of both streams.
pub data QuarantineReason : Type 0 where
  unknown_program currency_mismatch version_conflict : QuarantineReason
  missing_ack_marker implausible_delta snapshot_inconsistent : QuarantineReason
  schema_invalid handler_failure : QuarantineReason

pub data InspectOutcome : Type 0 where
  proceed already_applied : InspectOutcome
  quarantined : QuarantineReason → InspectOutcome

pub data ApplyOutcome : Type 0 where
  applied already_applied echo_suppressed : ApplyOutcome
  quarantined : QuarantineReason → ApplyOutcome

abbrev pub has_message : Text → ProcessedMessage → Bool
has_message id m = text_eq m.message_id id

abbrev pub kind_eq : MessageKind → MessageKind → Bool
kind_eq MessageKind.event MessageKind.event = true
kind_eq MessageKind.snapshot MessageKind.snapshot = true
kind_eq _ _ = false

-- `WHERE program_id = $1 AND kind = … AND version = $2`
abbrev pub has_version : Text → MessageKind → ℤ → ProcessedMessage → Bool
has_version program kind version m =
    text_eq m.program_id program && kind_eq m.kind kind && m.version ==ℤ version

-- `INSERT INTO processed_message`, once no row has the id.
unfoldable pub insert_processed : ProcessedMessage → Tx (Unit {0})
insert_processed m = do
  check (in_int64 m.version)
  modify λ db. record db { processed = db.processed ++ m ∷ [] }

-- The `SET` of `treasury_applied_effective_at` under its guard, which keeps the column monotonic.
abbrev pub later_of : Option Date → Date → Option Date
later_of none t = some t
later_of (some a) t = if ltb_ℤ a t then some t else some a

abbrev pub note_applied : Date → ProgramEntity → ProgramEntity
note_applied t p = record p {
  treasury_applied_effective_at = later_of p.treasury_applied_effective_at t;
}

unfoldable pub record_applied : Text → Date → Tx (Unit {0})
record_applied id t =
    modify λ db. record db { programs = update_where (has_id id) (note_applied t) db.programs }

abbrev pub has_treasury_reference : Text → Text → InvoiceReservation → Bool
has_treasury_reference program reference r =
    text_eq r.program_id program
    && elim r.treasury_reference [ none ↦ false | some t ↦ text_eq t reference ]

-- The echo's UPDATE, on the rows that no version has acknowledged.
abbrev pub acknowledge_echo : Date → ℤ → InvoiceReservation → InvoiceReservation
acknowledge_echo now version r = if r.treasury_acknowledged then r else record r {
  treasury_acknowledged = true;
  acknowledged_by_version = some version;
  updated_at = now;
}

abbrev pub is_reservation_event : CapacityEventType → Bool
is_reservation_event limit_changed = false
is_reservation_event reservation_booked = true
is_reservation_event reservation_released = true

-- `buildEntry`, by the event's type.
unfoldable pub build_entry : CapacityEventType → CapacityEvent → ProgramEntity → PendingLedgerEntry
build_entry reservation_booked e p = record {
  delta_minor = e.amount_minor;
  component = PositionComponent.treasury;
  cause = LedgerCause.treasury_event;
  origin_reference = some (or_else e.reservation_reference e.message_id);
  actor = codes "treasury";
  correlation_id = or_else e.correlation_id e.message_id;
}
build_entry reservation_released e p = record {
  delta_minor = neg_ℤ e.amount_minor;
  component = PositionComponent.treasury;
  cause = LedgerCause.treasury_event;
  origin_reference = some (or_else e.reservation_reference e.message_id);
  actor = codes "treasury";
  correlation_id = or_else e.correlation_id e.message_id;
}
build_entry limit_changed e p = record {
  delta_minor = e.amount_minor -ℤ p.credit_limit_minor;
  component = PositionComponent.limit;
  cause = LedgerCause.limit_change;
  origin_reference = some e.message_id;
  actor = codes "treasury";
  correlation_id = or_else e.correlation_id e.message_id;
}

-- The hash of an event's content is a parameter: `contentHash` is SHA-256 over its JSON.
module _ (content_hash : CapacityEvent → Text) (now : Date) where
  -- `inspect`, in the order of its queries.
  unfoldable pub inspect : CapacityEvent → Database → InspectOutcome
  inspect e db =
      if is_some (find (has_message e.message_id) db.processed)
      then InspectOutcome.already_applied
      else elim (find_program e.program_id db) [
        | none ↦ InspectOutcome.quarantined unknown_program
        | some p ↦
            if not (text_eq p.currency e.currency)
            then InspectOutcome.quarantined currency_mismatch
            else elim (find (has_version e.program_id MessageKind.event e.version) db.processed) [
              | none ↦ InspectOutcome.proceed
              | some m ↦
                  if text_eq m.content_hash (content_hash e)
                  then InspectOutcome.already_applied
                  else InspectOutcome.quarantined version_conflict
            ]
      ]

  -- What a message of the same version, found under the lock, means.
  unfoldable pub on_same_version : CapacityEvent → ProcessedMessage → ApplyOutcome
  on_same_version e m =
      if text_eq m.message_id e.message_id || text_eq m.content_hash (content_hash e)
      then ApplyOutcome.already_applied
      else ApplyOutcome.quarantined version_conflict

  -- The ledger entry, and what follows it.
  unfoldable pub apply_entry : CapacityEvent → StreamCoordinates → ProgramEntity → Tx ApplyOutcome
  apply_entry e c p = do
    let result = advance_position p.position (build_entry e.type e p ∷ []) now
    persist_advance false p.position e.program_id result now
    record_applied e.program_id e.effective_at
    upsert_position e.program_id c now
    pure applied

  unfoldable pub suppress_echo : CapacityEvent → StreamCoordinates → Text → Tx ApplyOutcome
  suppress_echo e c reference = do
    modify λ db. record db {
      reservations =
          update_where (has_treasury_reference e.program_id reference)
            (acknowledge_echo now e.version) db.reservations;
    }
    upsert_position e.program_id c now
    record_applied e.program_id e.effective_at
    pure echo_suppressed

  -- Only an event about a reservation can be the echo of a booking of this service.
  unfoldable pub apply_or_suppress :
      CapacityEvent → StreamCoordinates → ProgramEntity → Option Text → Tx ApplyOutcome
  apply_or_suppress e c p none db = apply_entry e c p db
  apply_or_suppress e c p (some reference) db =
      if is_reservation_event e.type
        && is_some (find (has_treasury_reference e.program_id reference) db.reservations)
      then suppress_echo e c reference db
      else apply_entry e c p db

  abbrev pub processed_event : CapacityEvent → ProcessedMessage
  processed_event e = record {
    message_id = e.message_id;
    program_id = e.program_id;
    kind = MessageKind.event;
    version = e.version;
    content_hash = content_hash e;
    processed_at = now;
  }

  -- `INSERT … ON CONFLICT (message_id) DO NOTHING`, and what follows it.
  unfoldable pub apply_new : CapacityEvent → StreamCoordinates → ProgramEntity → Tx ApplyOutcome
  apply_new e c p = do
    seen ← gets (λ db. find (has_message e.message_id) db.processed)
    if is_some seen then pure ApplyOutcome.already_applied else do
      insert_processed (processed_event e)
      apply_or_suppress e c p e.reservation_reference

  unfoldable pub apply_locked : CapacityEvent → StreamCoordinates → ProgramEntity → Tx ApplyOutcome
  apply_locked e c p db =
      if not (text_eq p.currency e.currency)
      then ok (ApplyOutcome.quarantined currency_mismatch, db)
      else elim (find (has_version e.program_id MessageKind.event e.version) db.processed) [
        | some m ↦ ok (on_same_version e m, db)
        | none ↦ apply_new e c p db
      ]

  -- `catch (error)`: a program that is not there is a quarantine, all else is thrown on.
  abbrev pub catch_unknown : Result ApplyOutcome Failure → Result ApplyOutcome Failure
  catch_unknown (err (program_not_found id)) = ok (ApplyOutcome.quarantined unknown_program)
  catch_unknown r = r

  unfoldable pub apply :
      CapacityEvent → StreamCoordinates → Database → Result ApplyOutcome Failure × Database
  apply e c db =
      let (r, db') = transaction (with_program_lock e.program_id (apply_locked e c)) db in
      (catch_unknown r, db')
