-- ===== src/Audit/Treasury.antt =====
-- The treasury services of src/capacity/application and the audit of scripts/audit-ledger.ts.
use invoice_reservation.Prelude.{
  ◌≡◌, refl, ◌∙◌, inl, inr, ℕ, Bool, true, false, Bool-cases, Option, none, some, List, [], ◌∷◌,
  find, update_where, if◌then◌else◌, is_some, not,
}
use invoice_reservation.Prelude.Text.{Text, text_eq}
use invoice_reservation.Prelude.Result.{ok}
use invoice_reservation.Prelude.Int.{ltb_ℤ}
use invoice_reservation.Position.{Date, PositionComponent}
use invoice_reservation.Position.Replay.{component_of}
use invoice_reservation.Policy.Snapshot.{SnapshotMarker, SnapshotDeltas, SnapshotDecision}
use invoice_reservation.Policy.Snapshot as Policy
use invoice_reservation.Store.{Database, has_id, find_program}
use invoice_reservation.Store.Tables.{
  ProgramEntity, LedgerRow, StreamCoordinates, ProcessedMessage, MessageKind,
}
use invoice_reservation.Store.Triples.{
  Triple, bind_triple, check_triple, modify_triple, gets_triple, pure_triple, if_triple, if_ensures,
  weaken, Ensures, ends, transaction_triple,
}
use invoice_reservation.Service.Frames.{
  lock_triple, insert_processed-triple, upsert_position-triple,
}
use invoice_reservation.Service.TreasuryEvent
use invoice_reservation.Service.TreasuryEvent.{
  CapacityEvent, ApplyOutcome, record_applied, note_applied, later_of, has_message, has_version,
}
use invoice_reservation.Service.Snapshot
use invoice_reservation.Service.Snapshot.{
  ReconciliationSnapshot, SnapshotApplyOutcome, note_snapshot,
}
use invoice_reservation.Audit.Sums.{Audited}
use invoice_reservation.Audit.Writes.{
  IsAudited, Locked, persist_advance-triple, advance_position-IsAdvance,
}

-- A change of a program's row that keeps its id and its components keeps the audit.
pub Audited-update_where :
    (ls : List LedgerRow) (ps : List ProgramEntity) (t : ProgramEntity → Bool)
    (f : ProgramEntity → ProgramEntity)
    → ((p : ProgramEntity) → (f p).id ≡ p.id)
    → ((c : PositionComponent) (p : ProgramEntity)
        → component_of c (f p).position ≡ component_of c p.position)
    → Audited ls ps
    → Audited ls (update_where t f ps)
unfolding update_where
Audited-update_where ls [] t f hi hc a = tt
Audited-update_where ls (p ∷ ps) t f hi hc a = elim (Bool-cases (t p)) [
  | inl h ↦ rw h (λ c. hc c p ∙ a.0 c ∙ rw (hi p), Audited-update_where ls ps t f hi hc a.1)
  | inr h ↦ rw h (a.0, Audited-update_where ls ps t f hi hc a.1)
]

component_of-note_snapshot :
    (s : ReconciliationSnapshot) (b : Bool) (c : PositionComponent) (p : ProgramEntity)
    → component_of c (note_snapshot s b p).position ≡ component_of c p.position
component_of-note_snapshot s b PositionComponent.local p = refl
component_of-note_snapshot s b PositionComponent.treasury p = refl
component_of-note_snapshot s b PositionComponent.limit p = refl

record_applied-triple :
    (id : Text) (t : Date) → Triple IsAudited (record_applied id t) (λ _. IsAudited)
unfolding record_applied
record_applied-triple id t = modify_triple _ λ db k.
    Audited-update_where db.ledger db.programs (has_id id) (note_applied t) (λ p. refl)
      (λ c p. refl) k

module _ (hash : CapacityEvent → Text) (now : Date) (e : CapacityEvent) (c : StreamCoordinates)
    (p : ProgramEntity) where
  apply_entry-triple :
      Triple (Locked e.program_id p) (TreasuryEvent.apply_entry hash now e c p) (λ _. IsAudited)
  unfolding TreasuryEvent.apply_entry
  apply_entry-triple =
      bind_triple _ _
        (persist_advance-triple false e.program_id p _ now
          (advance_position-IsAdvance p.position _ now))
        λ _.
          bind_triple _ _ (record_applied-triple _ _)
            λ _. bind_triple _ _ (upsert_position-triple (λ db ss k. k) _ _ _) λ _. pure_triple _

  suppress_echo-triple :
      (reference : Text)
      → Triple
          (Locked e.program_id p)
          (TreasuryEvent.suppress_echo hash now e c reference)
          (λ _. IsAudited)
  unfolding TreasuryEvent.suppress_echo
  suppress_echo-triple reference =
      bind_triple _ _ (modify_triple {Q = IsAudited} _ (λ db k. k.0)) λ _.
        bind_triple _ _ (upsert_position-triple (λ db ss k. k) _ _ _)
          λ _. bind_triple _ _ (record_applied-triple _ _) λ _. pure_triple _

  apply_or_suppress-triple :
      (o : Option Text)
      → Triple
          (Locked e.program_id p)
          (TreasuryEvent.apply_or_suppress hash now e c p o)
          (λ _. IsAudited)
  unfolding TreasuryEvent.apply_or_suppress
  apply_or_suppress-triple none = apply_entry-triple
  apply_or_suppress-triple (some reference) = record {
    run = λ db k.
        if_ensures _ ((suppress_echo-triple reference).run db k) (apply_entry-triple.run db k);
  }

  apply_new-triple :
      Triple (Locked e.program_id p) (TreasuryEvent.apply_new hash now e c p) (λ _. IsAudited)
  unfolding TreasuryEvent.apply_new
  apply_new-triple = bind_triple _ _ (gets_triple _) λ seen.
      if_triple _ (weaken (λ db k. k.0) (pure_triple _)) (
        bind_triple _ _ (insert_processed-triple (λ db ms k. k) _)
          λ _. apply_or_suppress-triple e.reservation_reference)

  on_version-ensures :
      (o : Option ProcessedMessage) (db : Database)
      → Locked e.program_id p db
      → Ensures
          (λ _. IsAudited)
          (elim o [
            | some m ↦ ok (TreasuryEvent.on_same_version hash now e m, db)
            | none ↦ TreasuryEvent.apply_new hash now e c p db
          ])
  on_version-ensures (some m) db k = ends k.0
  on_version-ensures none db k = apply_new-triple.run db k

  apply_locked-triple :
      Triple (Locked e.program_id p) (TreasuryEvent.apply_locked hash now e c p) (λ _. IsAudited)
  unfolding TreasuryEvent.apply_locked
  apply_locked-triple = record { run = λ db k. if_ensures _ (ends k.0) (on_version-ensures _ db k) }

pub apply_event-IsAudited :
    (hash : CapacityEvent → Text) (now : Date) (e : CapacityEvent) (c : StreamCoordinates)
    (db : Database)
    → IsAudited db
    → IsAudited (TreasuryEvent.apply hash now e c db).1
unfolding TreasuryEvent.apply find_program
apply_event-IsAudited hash now e c db =
    transaction_triple _ (lock_triple _ _ λ p. apply_locked-triple hash now e c p) db

module _ (hash : ReconciliationSnapshot → Text) (now : Date) (points : ℕ)
    (s : ReconciliationSnapshot) (m : SnapshotMarker) (c : StreamCoordinates)
    (p : ProgramEntity) where
  write_snapshot-triple :
      (ids : List Text) (investigation : Bool) (d : SnapshotDeltas)
      → Triple
          (Locked s.program_id p)
          (Snapshot.write_snapshot hash now points s m c p ids investigation d)
          (λ _. IsAudited)
  unfolding Snapshot.write_snapshot
  write_snapshot-triple ids investigation d =
      bind_triple _ _ (insert_processed-triple (λ db ms k. k) _) λ _.
        bind_triple _ _
          (persist_advance-triple true s.program_id p _ now
            (advance_position-IsAdvance p.position _ now))
          λ _. bind_triple _ _ (check_triple _) λ _.
            bind_triple _ _
              (modify_triple {Q = IsAudited} _ λ db k.
                Audited-update_where db.ledger db.programs (has_id s.program_id)
                  (note_snapshot s investigation) (λ q. refl)
                  (component_of-note_snapshot s investigation) k)
              λ _. bind_triple _ _ (upsert_position-triple (λ db ss k. k) _ _ _) λ _. pure_triple _

  on_snapshot_decision-triple :
      (d : SnapshotDecision)
      → Triple
          (Locked s.program_id p)
          (Snapshot.on_decision hash now points s m c p d)
          (λ _. IsAudited)
  unfolding Snapshot.on_decision
  on_snapshot_decision-triple Policy.refuse = record { run = λ db k. ends k.0 }
  on_snapshot_decision-triple (Policy.apply ids investigation d) = record {
    run = λ db k. if_ensures _ (ends k.0) ((write_snapshot-triple ids investigation d).run db k);
  }

  on_snapshot_version-ensures :
      (o : Option ProcessedMessage) (db : Database)
      → Locked s.program_id p db
      → Ensures
          (λ _. IsAudited)
          (elim o [
            | some x ↦ ok (Snapshot.on_same_version hash now points s x, db)
            | none ↦
                if ltb_ℤ s.version p.treasury_version
                then ok (SnapshotApplyOutcome.ignored, db)
                else Snapshot.on_decision hash now points s m c p
                    (Snapshot.decide hash now points s m p db)
                    db
          ])
  on_snapshot_version-ensures (some x) db k = ends k.0
  on_snapshot_version-ensures none db k =
      if_ensures _ (ends k.0) ((on_snapshot_decision-triple _).run db k)

  apply_snapshot_body-triple :
      Triple
        (Locked s.program_id p)
        (Snapshot.apply_locked hash now points s m c p)
        (λ _. IsAudited)
  unfolding Snapshot.apply_locked
  apply_snapshot_body-triple = record {
    run = λ db k. if_ensures (not (text_eq p.currency s.currency)) (ends k.0) (
        if_ensures (is_some (find (has_message s.message_id) db.processed)) (ends k.0) (
          on_snapshot_version-ensures
            (find (has_version s.program_id MessageKind.snapshot s.version) db.processed) db k));
  }

apply_marked-IsAudited :
    (hash : ReconciliationSnapshot → Text) (now : Date) (points : ℕ) (s : ReconciliationSnapshot)
    (c : StreamCoordinates) (marker : Option SnapshotMarker) (db : Database)
    → IsAudited db
    → IsAudited (Snapshot.apply_marked hash now points s c marker db).1
unfolding Snapshot.apply_marked find_program
apply_marked-IsAudited hash now points s c none db k = k
apply_marked-IsAudited hash now points s c (some m) db k =
    transaction_triple _ (lock_triple _ _ λ p. apply_snapshot_body-triple hash now points s m c p)
      db k

pub apply_snapshot-IsAudited :
    (hash : ReconciliationSnapshot → Text) (now : Date) (points : ℕ) (s : ReconciliationSnapshot)
    (c : StreamCoordinates) (db : Database)
    → IsAudited db
    → IsAudited (Snapshot.apply hash now points s c db).1
unfolding Snapshot.apply
apply_snapshot-IsAudited hash now points s c db =
    apply_marked-IsAudited hash now points s c s.acknowledgement db
