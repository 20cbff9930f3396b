-- ===== src/Stream/Effects.antt =====
-- src/treasury/consumer/treasury.consumer.ts: what a processed message does to the database.
use mathlib.Core.Path.{subst}
use invoice_reservation.Prelude.{◌≡◌, sym, ap, Bool, true, false, Option, none, some, if◌then◌else◌}
use invoice_reservation.Prelude.Text.{text_eq}
use invoice_reservation.Prelude.Result.{Result, ok, err}
use invoice_reservation.Position.{Date}
use invoice_reservation.Policy.Snapshot.{SnapshotMarker}
use invoice_reservation.Store.{Database}
use invoice_reservation.Service.TreasuryEvent.{
  CapacityEvent, InspectOutcome, QuarantineReason, handler_failure,
}
use invoice_reservation.Service.TreasuryEvent
use invoice_reservation.Service.Snapshot.{ReconciliationSnapshot, SnapshotInspectOutcome}
use invoice_reservation.Service.Snapshot
use invoice_reservation.Audit.{audit_ledger}
use invoice_reservation.Audit.Reach.{
  Reaches-audit_ledger, Reaches, here, after, applies_event, applies_snapshot,
}
use invoice_reservation.Stream.Classifier.{is_transient_failure}
use invoice_reservation.Stream.Retry.{RetryError, rethrown, exhausted}
use invoice_reservation.Stream.Retry.Bounds.{Ends-keeps, with_retry-Ends}
use invoice_reservation.Stream.Json.{Parsed}
use invoice_reservation.Stream.Handlers.{
  Handling, InboundMessage, HandleOutcome, applied, skipped, quarantined, coordinates_of,
  apply_inspected, handle_parsed, handle_event, apply_marked_snapshot, apply_inspected_snapshot,
  handle_parsed_snapshot, handle_snapshot,
}
use invoice_reservation.Stream.Consumer.{
  World, Consumer, handle_now, dispatch, record_of, publish, quarantine, commit_offset, commit,
  commit_after, commit_published, quarantine_and_commit, conclude, conclude_run, process_message,
}
use invoice_reservation.Stream.Publishing.{suffer-keeps}

-- A handler's call runs one transaction of a service, or none.
module _ (db0 : Database) (h : Handling) (now : Date) (m : InboundMessage) where
  apply_inspected-Reaches :
      (e : CapacityEvent) (db : Database) (o : InspectOutcome)
      → Reaches db0 db
      → Reaches db0 (apply_inspected h now m e db o).1
  apply_inspected-Reaches e db (InspectOutcome.quarantined reason) k = k
  apply_inspected-Reaches e db InspectOutcome.already_applied k = k
  apply_inspected-Reaches e db InspectOutcome.proceed k =
      after k (applies_event h.event_hash now e (coordinates_of m))

  handle_parsed-Reaches :
      (p : Parsed CapacityEvent) (db : Database)
      → Reaches db0 db
      → Reaches db0 (handle_parsed h now m p db).1
  handle_parsed-Reaches (err detail) db k = k
  handle_parsed-Reaches (ok e) db k =
      apply_inspected-Reaches e db (TreasuryEvent.inspect h.event_hash now e db) k

  apply_marked-Reaches :
      (s : ReconciliationSnapshot) (db : Database) (marker : Option SnapshotMarker)
      → Reaches db0 db
      → Reaches db0 (apply_marked_snapshot h now m s db marker).1
  apply_marked-Reaches s db none k = k
  apply_marked-Reaches s db (some marker) k =
      after k (applies_snapshot h.snapshot_hash now h.basis_points s (coordinates_of m))

  apply_inspected_snapshot-Reaches :
      (s : ReconciliationSnapshot) (db : Database) (o : SnapshotInspectOutcome)
      → Reaches db0 db
      → Reaches db0 (apply_inspected_snapshot h now m s db o).1
  apply_inspected_snapshot-Reaches s db (SnapshotInspectOutcome.quarantined reason) k = k
  apply_inspected_snapshot-Reaches s db SnapshotInspectOutcome.ignored k = k
  apply_inspected_snapshot-Reaches s db SnapshotInspectOutcome.proceed k =
      apply_marked-Reaches s db s.acknowledgement k

  handle_parsed_snapshot-Reaches :
      (p : Parsed ReconciliationSnapshot) (db : Database)
      → Reaches db0 db
      → Reaches db0 (handle_parsed_snapshot h now m p db).1
  handle_parsed_snapshot-Reaches (err detail) db k = k
  handle_parsed_snapshot-Reaches (ok s) db k =
      apply_inspected_snapshot-Reaches s db
        (Snapshot.inspect h.snapshot_hash now h.basis_points s db) k

abbrev OnSome : {A : Type 0} → (A → Type 0) → Option A → Type 0
OnSome P none = Unit
OnSome P (some a) = P a

module _ (db0 : Database) (c : Consumer) (m : InboundMessage) where
  handle_now-Reaches :
      (now : Date) (db : Database) → Reaches db0 db → Reaches db0 (handle_now c m now db).1
  unfolding handle_event handle_snapshot
  handle_now-Reaches now db k = by_topic (text_eq m.topic c.snapshots_topic)
    where
      by_topic :
          (b : Bool)
          → Reaches db0
              (if b
                then handle_snapshot c.handling now m db
                else handle_event c.handling now m db).1
      by_topic true = handle_parsed_snapshot-Reaches db0 c.handling now m _ db k
      by_topic false = handle_parsed-Reaches db0 c.handling now m _ db k

  abbrev ReachesWorld : World → Type 0
  ReachesWorld w = Reaches db0 w.database

  dispatch-Reaches : (w : World) → ReachesWorld w → ReachesWorld (dispatch c m w).1
  unfolding dispatch
  dispatch-Reaches w k =
      suffer-keeps ReachesWorld _ _ _ k (handle_now-Reaches (c.conditions w.tick).now w.database k)

  publish-Reaches :
      (reason : QuarantineReason) (w : World)
      → ReachesWorld w
      → ReachesWorld (publish c m (record_of c m reason) w).1
  unfolding publish
  publish-Reaches reason w k = suffer-keeps ReachesWorld _ _ _ k k

  commit-Reaches : (w : World) → ReachesWorld w → ReachesWorld (commit c m w).1
  unfolding commit_offset
  commit-Reaches w k = suffer-keeps ReachesWorld _ _ _ k k

  commit_after-Reaches :
      (r : Result (Unit {0}) RetryError) (w : World)
      → ReachesWorld w
      → ReachesWorld (commit_after c m r w).1
  commit_after-Reaches (ok u) w k = commit-Reaches w k
  commit_after-Reaches (err e) w k = k

  abbrev AfterIt : Option (Result (Unit {0}) RetryError × World) → Type 0
  AfterIt = OnSome (λ out. ReachesWorld out.1)

  quarantine-Reaches :
      (reason : QuarantineReason) (w : World)
      → ReachesWorld w
      → AfterIt (quarantine_and_commit c m reason w)
  unfolding quarantine
  quarantine-Reaches reason w k =
      let (run, found, ends) = with_retry-Ends (publish c m (record_of c m reason)) c.policy w in
      subst AfterIt (sym (ap (commit_published c m) found)) (
        commit_after-Reaches run.outcome run.state (
          Ends-keeps (publish c m (record_of c m reason)) c.policy ReachesWorld
            (publish-Reaches reason) ends k))

  conclude-Reaches :
      (r : Result HandleOutcome RetryError) (w : World)
      → ReachesWorld w
      → AfterIt (conclude c m r w)
  unfolding conclude
  conclude-Reaches (ok applied) w k = commit-Reaches w k
  conclude-Reaches (ok skipped) w k = commit-Reaches w k
  conclude-Reaches (ok (quarantined reason)) w k = quarantine-Reaches reason w k
  conclude-Reaches (err (rethrown e)) w k = quarantine-Reaches handler_failure w k
  conclude-Reaches (err (exhausted e)) w k = by_transient (is_transient_failure e)
    where
      by_transient :
          (b : Bool)
          → AfterIt (
              if b
              then some (err (exhausted e), w)
              else quarantine_and_commit c m handler_failure w)
      by_transient true = k
      by_transient false = quarantine-Reaches handler_failure w k

  process_message-keeps : (w : World) → ReachesWorld w → AfterIt (process_message c m w)
  unfolding process_message
  process_message-keeps w k =
      let (run, found, ends) = with_retry-Ends (dispatch c m) c.policy w in
      subst AfterIt (sym (ap (conclude_run c m) found)) (
        conclude-Reaches run.outcome run.state
          (Ends-keeps (dispatch c m) c.policy ReachesWorld dispatch-Reaches ends k))

  -- However often a message's processing is retried, and wherever the services or the broker fail,
  -- the database that it leaves is one that calls of the services lead to from the one before.
  pub process_message-Reaches :
      (w : World) {r : Result (Unit {0}) RetryError} {w' : World}
      → Reaches db0 w.database
      → process_message c m w ≡ some (r, w')
      → Reaches db0 w'.database
  process_message-Reaches w k found = subst AfterIt found (process_message-keeps w k)

-- If the ledger's audit finds no mismatch before a message is processed, then it finds none after
-- it, whatever the message holds, however often its handler is called, and wherever the services or
-- the broker fail.
pub process_message-audit_ledger :
    (c : Consumer) (m : InboundMessage) (w : World) {r : Result (Unit {0}) RetryError} {w' : World}
    → process_message c m w ≡ some (r, w')
    → (audit_ledger w.database).mismatch ≡ none
    → (audit_ledger w'.database).mismatch ≡ none
process_message-audit_ledger c m w {w'} found =
    Reaches-audit_ledger w.database w'.database
      (process_message-Reaches w.database c m w here found)
