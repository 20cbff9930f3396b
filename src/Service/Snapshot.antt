-- ===== src/Service/Snapshot.antt =====
-- src/capacity/application/apply-snapshot.service.ts, with the types of
-- src/shared/treasury/reconciliation-snapshot.ts.
use invoice_reservation.Prelude.{
  ℕ, Bool, true, not, ◌&&◌, ◌||◌, Option, none, some, List, [], ◌∷◌, ◌++◌, map, if◌then◌else◌, find,
  filter, update_where, or_else, is_some,
}
use invoice_reservation.Prelude.Text.{Text, codes, text_eq}
use invoice_reservation.Prelude.Int.{ℤ, pos, neg_ℤ, ◌*ℤ◌, ltb_ℤ, ◌==ℤ◌}
use invoice_reservation.Prelude.Result.{Result, ok, err}
use invoice_reservation.Money.{has}
use invoice_reservation.Position.{
  Date, PositionComponent, LedgerCause, PendingLedgerEntry, advance_position,
}
use invoice_reservation.Policy.Snapshot.{
  AcknowledgementKind, explicit, watermark, SnapshotMarker, SnapshotReservation, SnapshotDeltas,
  SnapshotDecision, apply_snapshot_policy,
}
use invoice_reservation.Policy.Snapshot
use invoice_reservation.Store.{
  Database, Failure, program_not_found, Tx, pure, ◌>>◌, modify, check, find_program, has_id,
  with_program_lock, transaction, persist_advance, upsert_position,
}
use invoice_reservation.Store.Tables.{
  ProgramEntity, InvoiceReservation, ProcessedMessage, MessageKind, StreamCoordinates,
}
use invoice_reservation.Service.TreasuryEvent.{
  QuarantineReason, unknown_program, currency_mismatch, version_conflict, missing_ack_marker,
  implausible_delta, snapshot_inconsistent, has_message, has_version, insert_processed, later_of,
}

pub record ReconciliationSnapshot : Type 0 where
  pub message_id : Text
  pub program_id : Text
  pub version : ℤ
  pub effective_at : Date
  pub correlation_id : Option Text
  pub currency : Text
  pub credit_limit_minor : ℤ
  pub reserved_minor : ℤ
  pub acknowledgement : Option SnapshotMarker

pub data SnapshotInspectOutcome : Type 0 where
  proceed ignored : SnapshotInspectOutcome
  quarantined : QuarantineReason → SnapshotInspectOutcome

pub data SnapshotApplyOutcome : Type 0 where
  applied ignored : SnapshotApplyOutcome
  quarantined : QuarantineReason → SnapshotApplyOutcome

abbrev pub of_program : Text → InvoiceReservation → Bool
of_program id r = text_eq r.program_id id

abbrev pub snapshot_reservation : InvoiceReservation → SnapshotReservation
snapshot_reservation r = record {
  id = r.id;
  origin = r.origin;
  outstanding_reserved_minor = r.outstanding_reserved_minor;
  treasury_acknowledged = r.treasury_acknowledged;
  acknowledged_by_version = r.acknowledged_by_version;
  treasury_reference = r.treasury_reference;
  confirmed_at = r.confirmed_at;
}

-- `loadReservations`
unfoldable pub load_reservations : Text → List InvoiceReservation → List SnapshotReservation
load_reservations id rs = map snapshot_reservation (filter (of_program id) rs)

-- The `push` of `buildEntries`: one entry for a delta that is not zero, none for zero.
unfoldable pub push_entry : ReconciliationSnapshot → PositionComponent → ℤ → List PendingLedgerEntry
push_entry s component delta =
    if delta ==ℤ pos 0
    then []
    else record {
      delta_minor = delta;
      component = component;
      cause = LedgerCause.reconciliation_adjustment;
      origin_reference = some s.message_id;
      actor = codes "treasury";
      correlation_id = or_else s.correlation_id s.message_id;
    }
      ∷ []

unfoldable pub build_entries : SnapshotDeltas → ReconciliationSnapshot → List PendingLedgerEntry
unfolding push_entry
build_entries d s =
    push_entry s PositionComponent.treasury d.treasury
    ++ (push_entry s PositionComponent.local d.local
        ++ push_entry s PositionComponent.limit d.limit)

-- `exceedsMagnitudeGuard`, on the basis points that the configured ratio rounds to.
unfoldable pub exceeds_magnitude_guard : ℕ → ℤ → ℤ → Bool
exceeds_magnitude_guard basis_points delta_treasury credit_limit =
    let size = if ltb_ℤ delta_treasury (pos 0) then neg_ℤ delta_treasury else delta_treasury in
    ltb_ℤ (pos basis_points *ℤ credit_limit) (size *ℤ pos 10000)

-- The UPDATE of `program` after the advance.
abbrev pub note_snapshot : ReconciliationSnapshot → Bool → ProgramEntity → ProgramEntity
note_snapshot s investigation p = record p {
  position = record (p.position) {
    investigation_required = p.investigation_required || investigation;
    position_verified = true;
  };
  treasury_version = s.version;
  treasury_effective_at = some s.effective_at;
  treasury_applied_effective_at = later_of p.treasury_applied_effective_at s.effective_at;
}

abbrev pub acknowledge_row : Date → ℤ → InvoiceReservation → InvoiceReservation
acknowledge_row now version r = record r {
  treasury_acknowledged = true;
  acknowledged_by_version = some version;
  updated_at = now;
}

-- `WHERE program_id = $1 AND id = ANY($2)`
abbrev pub is_among : Text → List Text → InvoiceReservation → Bool
is_among program ids r = text_eq r.program_id program && has ids r.id

-- The two CHECK constraints of `snapshot_acknowledgement`.
unfoldable pub marker_constraints : AcknowledgementKind → SnapshotMarker → Bool
marker_constraints explicit m = is_some m.reservation_references && not (is_some m.ingested_through)
marker_constraints watermark m =
    not (is_some m.reservation_references) && is_some m.ingested_through

-- The parameters: the hash of a snapshot's content, the clock, and
-- `Math.round(SNAPSHOT_DELTA_GUARD_RATIO * 10_000)`.
module _ (content_hash : ReconciliationSnapshot → Text) (now : Date) (basis_points : ℕ) where
  unfoldable pub inspect : ReconciliationSnapshot → Database → SnapshotInspectOutcome
  inspect s db =
      if is_some (find (has_message s.message_id) db.processed)
      then SnapshotInspectOutcome.ignored
      else elim (find_program s.program_id db) [
        | none ↦ SnapshotInspectOutcome.quarantined unknown_program
        | some p ↦
            if not (text_eq p.currency s.currency)
            then SnapshotInspectOutcome.quarantined currency_mismatch
            else if ltb_ℤ s.version p.treasury_version
            then SnapshotInspectOutcome.ignored
            else if s.version ==ℤ p.treasury_version
            then elim (find (has_version s.program_id MessageKind.snapshot s.version)
                db.processed) [
                  | none ↦ SnapshotInspectOutcome.proceed
                  | some m ↦
                      if text_eq m.content_hash (content_hash s)
                      then SnapshotInspectOutcome.ignored
                      else SnapshotInspectOutcome.quarantined version_conflict
                ]
            else SnapshotInspectOutcome.proceed
      ]

  unfoldable pub on_same_version : ReconciliationSnapshot → ProcessedMessage → SnapshotApplyOutcome
  on_same_version s m =
      if text_eq m.message_id s.message_id || text_eq m.content_hash (content_hash s)
      then SnapshotApplyOutcome.ignored
      else SnapshotApplyOutcome.quarantined version_conflict

  abbrev pub processed_snapshot : ReconciliationSnapshot → ProcessedMessage
  processed_snapshot s = record {
    message_id = s.message_id;
    program_id = s.program_id;
    kind = MessageKind.snapshot;
    version = s.version;
    content_hash = content_hash s;
    processed_at = now;
  }

  -- The writes, once the snapshot has been accepted.
  unfoldable pub write_snapshot :
      ReconciliationSnapshot
      → SnapshotMarker
      → StreamCoordinates
      → ProgramEntity
      → List Text
      → Bool
      → SnapshotDeltas
      → Tx SnapshotApplyOutcome
  write_snapshot s m c p ids investigation deltas = do
    insert_processed (processed_snapshot s)
    let result = advance_position p.position (build_entries deltas s) now
    persist_advance true p.position s.program_id result now
    check (marker_constraints m.kind m)
    modify λ db. record db {
      programs = update_where (has_id s.program_id) (note_snapshot s investigation) db.programs;
      acknowledgements =
          db.acknowledgements
          ++ record {
            message_id = s.message_id;
            program_id = s.program_id;
            version = s.version;
            kind = m.kind;
            reservation_references = m.reservation_references;
            ingested_through = m.ingested_through;
          }
            ∷ [];
      reservations =
          update_where (is_among s.program_id ids) (acknowledge_row now s.version) db.reservations;
    }
    upsert_position s.program_id c now
    pure applied

  unfoldable pub on_decision :
      ReconciliationSnapshot
      → SnapshotMarker
      → StreamCoordinates
      → ProgramEntity
      → SnapshotDecision
      → Tx SnapshotApplyOutcome
  on_decision s m c p Snapshot.refuse db = ok (quarantined snapshot_inconsistent, db)
  on_decision s m c p (Snapshot.apply ids investigation deltas) db =
      if exceeds_magnitude_guard basis_points deltas.treasury p.credit_limit_minor
      then ok (quarantined implausible_delta, db)
      else write_snapshot s m c p ids investigation deltas db

  unfoldable pub decide :
      ReconciliationSnapshot → SnapshotMarker → ProgramEntity → Database → SnapshotDecision
  decide s m p db = apply_snapshot_policy (record {
    program = p.position;
    version = s.version;
    reserved_minor = s.reserved_minor;
    credit_limit_minor = s.credit_limit_minor;
    marker = m;
    reservations = load_reservations s.program_id db.reservations;
  })

  unfoldable pub apply_locked :
      ReconciliationSnapshot
      → SnapshotMarker
      → StreamCoordinates
      → ProgramEntity
      → Tx SnapshotApplyOutcome
  apply_locked s m c p db =
      if not (text_eq p.currency s.currency)
      then ok (quarantined currency_mismatch, db)
      else if is_some (find (has_message s.message_id) db.processed)
      then ok (ignored, db)
      else elim (find (has_version s.program_id MessageKind.snapshot s.version) db.processed) [
        | some x ↦ ok (on_same_version s x, db)
        | none ↦
            if ltb_ℤ s.version p.treasury_version
            then ok (ignored, db)
            else on_decision s m c p (decide s m p db) db
      ]

  abbrev pub catch_unknown :
      Result SnapshotApplyOutcome Failure → Result SnapshotApplyOutcome Failure
  catch_unknown (err (program_not_found id)) = ok (quarantined unknown_program)
  catch_unknown r = r

  unfoldable pub apply_marked :
      ReconciliationSnapshot
      → StreamCoordinates
      → Option SnapshotMarker
      → Database
      → Result SnapshotApplyOutcome Failure × Database
  apply_marked s c none db = (ok (quarantined missing_ack_marker), db)
  apply_marked s c (some m) db =
      let (r, db') = transaction (with_program_lock s.program_id (apply_locked s m c)) db in
      (catch_unknown r, db')

  unfoldable pub apply :
      ReconciliationSnapshot
      → StreamCoordinates
      → Database
      → Result SnapshotApplyOutcome Failure × Database
  apply s c db = apply_marked s c s.acknowledgement db
