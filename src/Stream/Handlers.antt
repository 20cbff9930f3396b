-- ===== src/Stream/Handlers.antt =====
-- src/treasury/handlers: from a message to the services.
use invoice_reservation.Prelude.{ℕ, Option, none, some, List}
use invoice_reservation.Prelude.Text.{Text}
use invoice_reservation.Prelude.Int.{ℤ}
use invoice_reservation.Prelude.Result.{Result, ok, err, map_ok}
use invoice_reservation.Position.{Date}
use invoice_reservation.Policy.Snapshot.{SnapshotMarker}
use invoice_reservation.Store.{Database, Failure}
use invoice_reservation.Store.Tables.{StreamCoordinates}
use invoice_reservation.Service.TreasuryEvent.{
  CapacityEvent, InspectOutcome, ApplyOutcome, QuarantineReason, schema_invalid, missing_ack_marker,
}
use invoice_reservation.Service.TreasuryEvent
use invoice_reservation.Service.Snapshot.{
  ReconciliationSnapshot, SnapshotInspectOutcome, SnapshotApplyOutcome,
}
use invoice_reservation.Service.Snapshot
use invoice_reservation.Stream.Json.{Decoders, Raw, buffer, missing, Parsed}
use invoice_reservation.Stream.EventSchema.{parse_capacity_event}
use invoice_reservation.Stream.SnapshotSchema.{parse_reconciliation_snapshot}

-- A header of the client library is a scalar, a list of them or undefined.
pub data HeaderScalar : Type 0 where
  text : Text → HeaderScalar
  bytes : List ℕ → HeaderScalar

-- The client library's offset, a decimal string, is the number that it spells.
pub record InboundMessage : Type 0 where
  pub topic : Text
  pub partition : ℤ
  pub offset : ℤ
  pub key : Option (List ℕ)
  pub value : Option (List ℕ)
  pub headers : List (Text × Option HeaderScalar)

pub data HandleOutcome : Type 0 where
  applied skipped : HandleOutcome
  quarantined : QuarantineReason → HandleOutcome

-- What the handlers are built with: the decoders, the content hashes and the guard's basis points.
pub record Handling : Type 0 where
  pub decoders : Decoders
  pub event_hash : CapacityEvent → Text
  pub snapshot_hash : ReconciliationSnapshot → Text
  pub basis_points : ℕ

abbrev pub raw_of : InboundMessage → Raw
raw_of m = elim m.value [ none ↦ missing | some b ↦ buffer b ]

abbrev pub coordinates_of : InboundMessage → StreamCoordinates
coordinates_of m = record { topic = m.topic; partition = m.partition; offset = m.offset }

abbrev pub Handled : Type 0
Handled = Result HandleOutcome Failure × Database

abbrev pub of_apply : ApplyOutcome → HandleOutcome
of_apply (ApplyOutcome.quarantined reason) = quarantined reason
of_apply ApplyOutcome.applied = applied
of_apply ApplyOutcome.already_applied = skipped
of_apply ApplyOutcome.echo_suppressed = skipped

abbrev pub of_snapshot_apply : SnapshotApplyOutcome → HandleOutcome
of_snapshot_apply (SnapshotApplyOutcome.quarantined reason) = quarantined reason
of_snapshot_apply SnapshotApplyOutcome.applied = applied
of_snapshot_apply SnapshotApplyOutcome.ignored = skipped

module _ (h : Handling) (now : Date) (m : InboundMessage) where
  abbrev pub apply_inspected : CapacityEvent → Database → InspectOutcome → Handled
  apply_inspected e db (InspectOutcome.quarantined reason) = (ok (quarantined reason), db)
  apply_inspected e db InspectOutcome.already_applied = (ok skipped, db)
  apply_inspected e db InspectOutcome.proceed =
      let (r, db') = TreasuryEvent.apply h.event_hash now e (coordinates_of m) db in
      (map_ok r of_apply, db')

  abbrev pub handle_parsed : Parsed CapacityEvent → Database → Handled
  handle_parsed (err detail) db = (ok (quarantined schema_invalid), db)
  handle_parsed (ok e) db = apply_inspected e db (TreasuryEvent.inspect h.event_hash now e db)

  -- `CapacityEventHandler.handle`
  unfoldable pub handle_event : Database → Handled
  handle_event db = handle_parsed (parse_capacity_event h.decoders (raw_of m)) db

  abbrev pub apply_marked_snapshot :
      ReconciliationSnapshot → Database → Option SnapshotMarker → Handled
  apply_marked_snapshot s db none = (ok (quarantined missing_ack_marker), db)
  apply_marked_snapshot s db (some marker) =
      let (r, db') = Snapshot.apply h.snapshot_hash now h.basis_points s (coordinates_of m) db in
      (map_ok r of_snapshot_apply, db')

  abbrev pub apply_inspected_snapshot :
      ReconciliationSnapshot → Database → SnapshotInspectOutcome → Handled
  apply_inspected_snapshot s db (SnapshotInspectOutcome.quarantined reason) =
      (ok (quarantined reason), db)
  apply_inspected_snapshot s db SnapshotInspectOutcome.ignored = (ok skipped, db)
  apply_inspected_snapshot s db SnapshotInspectOutcome.proceed =
      apply_marked_snapshot s db s.acknowledgement

  abbrev pub handle_parsed_snapshot : Parsed ReconciliationSnapshot → Database → Handled
  handle_parsed_snapshot (err detail) db = (ok (quarantined schema_invalid), db)
  handle_parsed_snapshot (ok s) db =
      apply_inspected_snapshot s db (Snapshot.inspect h.snapshot_hash now h.basis_points s db)

  -- `ReconciliationSnapshotHandler.handle`
  unfoldable pub handle_snapshot : Database → Handled
  handle_snapshot db =
      handle_parsed_snapshot (parse_reconciliation_snapshot h.decoders (raw_of m)) db
