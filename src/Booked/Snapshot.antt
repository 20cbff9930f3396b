-- ===== src/Booked/Snapshot.antt =====
-- src/capacity/application/apply-snapshot.service.ts: the local component that a snapshot writes.
use invoice_reservation.Prelude.{
  ◌≡◌, refl, sym, ap, ◌∙◌, ℕ, Bool, true, not, Bool-cases, inl, inr, Option, none, some, List, [],
  ◌∷◌, ◌++◌, find, filter, if◌then◌else◌, is_some,
}
use invoice_reservation.Prelude.Text.{Text, text_eq}
use invoice_reservation.Prelude.Int.{ℤ, pos, ◌+ℤ◌, +ℤ_zero, int_laws, ltb_ℤ, ◌==ℤ◌, ==ℤ_iff}
use invoice_reservation.Prelude.Result.{ok}
use invoice_reservation.Position.{Date, PositionComponent, PendingLedgerEntry}
use invoice_reservation.Position.Replay.{share}
use invoice_reservation.Position.Components.{sum_pending, component_of-advance_position}
use invoice_reservation.Policy.Snapshot.{SnapshotMarker, SnapshotDeltas, SnapshotDecision}
use invoice_reservation.Policy.Snapshot as Policy
use invoice_reservation.Policy.Snapshot.Additive.{outstanding, apply_snapshot_policy-adds}
use invoice_reservation.Store.{Database, has_id, find_program}
use invoice_reservation.Store.Tables.{
  ProgramEntity, InvoiceReservation, StreamCoordinates, ProcessedMessage, MessageKind,
}
use invoice_reservation.Store.Triples.{
  Triple, bind_triple, check_triple, modify_triple, pure_triple, if_ensures, Ensures, ends,
  transaction_triple,
}
use invoice_reservation.Service.Frames.{
  lock_triple, insert_processed-triple, upsert_position-triple,
}
use invoice_reservation.Service.TreasuryEvent.{has_message, has_version}
use invoice_reservation.Service.Snapshot
use invoice_reservation.Service.Snapshot.{
  ReconciliationSnapshot, SnapshotApplyOutcome, note_snapshot, acknowledge_row, push_entry,
  build_entries, load_reservations,
}
use invoice_reservation.Booked.Treasury.{rows-IsBooked, Agree-update_where}
use invoice_reservation.Booked.Rows.{booked, AreRows}
use invoice_reservation.Booked.Writes.{
  IsBooked, Locked, Locked-IsOff, IsOff-IsBooked, persist_advance-IsOff,
}

sum_pending-append :
    (c : PositionComponent) (xs ys : List PendingLedgerEntry)
    → sum_pending c (xs ++ ys) ≡ sum_pending c xs +ℤ sum_pending c ys
sum_pending-append c [] ys = omega int_laws
sum_pending-append c (x ∷ xs) ys = rw (sum_pending-append c xs ys) (omega int_laws)

-- An entry is left out only where its delta is zero.
sum_pending-push_entry :
    (s : ReconciliationSnapshot) (component : PositionComponent) (d : ℤ)
    → sum_pending PositionComponent.local (push_entry s component d)
      ≡ share PositionComponent.local component d
unfolding push_entry
sum_pending-push_entry s PositionComponent.local d = elim (Bool-cases (d ==ℤ pos 0)) [
  | inl zero_delta ↦ rw zero_delta (sym ((==ℤ_iff d (pos 0)).0 zero_delta))
  | inr other ↦ rw other (+ℤ_zero d)
]
sum_pending-push_entry s PositionComponent.treasury d = elim (Bool-cases (d ==ℤ pos 0)) [
  | inl zero_delta ↦ rw zero_delta refl
  | inr other ↦ rw other (+ℤ_zero (pos 0))
]
sum_pending-push_entry s PositionComponent.limit d = elim (Bool-cases (d ==ℤ pos 0)) [
  | inl zero_delta ↦ rw zero_delta refl
  | inr other ↦ rw other (+ℤ_zero (pos 0))
]

sum_pending-build_entries :
    (d : SnapshotDeltas) (s : ReconciliationSnapshot)
    → sum_pending PositionComponent.local (build_entries d s) ≡ d.local
unfolding build_entries
sum_pending-build_entries d s =
    rw
      (
        sum_pending-append PositionComponent.local
            (push_entry s PositionComponent.treasury d.treasury),
        sum_pending-append PositionComponent.local (push_entry s PositionComponent.local d.local),
        sum_pending-push_entry s PositionComponent.treasury d.treasury,
        sum_pending-push_entry s PositionComponent.local d.local,
        sum_pending-push_entry s PositionComponent.limit d.limit,
      )
      (omega int_laws)

-- What the policy sums is what the rows have outstanding.
outstanding-load_reservations :
    (id : Text) (rs : List InvoiceReservation)
    → AreRows rs
    → outstanding (load_reservations id rs) ≡ booked id rs
unfolding load_reservations filter
outstanding-load_reservations id [] h = refl
outstanding-load_reservations id (r ∷ rs) ((origin, closed), one, h) =
    let rest = outstanding-load_reservations id rs h in
    elim (Bool-cases (text_eq r.program_id id)) [
      | inl same ↦ rw (same, origin, rest) refl
      | inr other ↦ rw (other, rest) (omega int_laws)
    ]

module _ (hash : ReconciliationSnapshot → Text) (now : Date) (points : ℕ)
    (s : ReconciliationSnapshot) (m : SnapshotMarker) (c : StreamCoordinates)
    (p : ProgramEntity) where
  abbrev Here : Database → Type 0
  Here = Locked s.program_id p

  -- The deltas take the local component to what the rows have.
  abbrev Decided : SnapshotDeltas → Database → Type 0
  Decided d db = Here db × (p.local_reserved_minor +ℤ d.local ≡ booked s.program_id db.reservations)

  decide-Decided :
      (ids : List Text) (investigation : Bool) (d : SnapshotDeltas) (db : Database)
      → Here db
      → Snapshot.decide hash now points s m p db ≡ Policy.apply ids investigation d
      → Decided d db
  unfolding Snapshot.decide
  decide-Decided ids investigation d db k decided = (
    k,
    (apply_snapshot_policy-adds _ ids investigation d decided).1
        ∙ outstanding-load_reservations s.program_id db.reservations k.0.0,
  )

  write_snapshot-triple :
      (ids : List Text) (investigation : Bool) (d : SnapshotDeltas)
      → Triple
          (Decided d)
          (Snapshot.write_snapshot hash now points s m c p ids investigation d)
          (λ _. IsBooked)
  unfolding Snapshot.write_snapshot
  write_snapshot-triple ids investigation d =
      bind_triple _ _ (insert_processed-triple (λ db ms k. k) _) λ _.
        bind_triple _ _
          (persist_advance-IsOff (λ _. Unit) true s.program_id (pos 0) (pos 0) p.position _ now
            λ db k. (
              Locked-IsOff s.program_id p db k.0,
              +ℤ_zero _
                  ∙ component_of-advance_position PositionComponent.local p.position
                      (build_entries d s) now
                  ∙ ap (λ x. p.local_reserved_minor +ℤ x) (sum_pending-build_entries d s)
                  ∙ k.1,
              tt,
            ))
          λ _. bind_triple _ _ (check_triple _) λ _.
            bind_triple _ _
              (modify_triple {Q = IsBooked} _ λ db k.
                let (rows, agree) =
                  rows-IsBooked _ (acknowledge_row now s.version) (λ r. refl, λ r. refl)
                    (λ r. (refl, refl, refl)) db
                    (IsOff-IsBooked s.program_id (pos 0) db refl k.0) in
                (
                  rows,
                  Agree-update_where _ db.programs (has_id s.program_id)
                      (note_snapshot s investigation) (λ q. refl) (λ q. refl) agree,
                ))
              λ _. bind_triple _ _ (upsert_position-triple (λ db ss k. k) _ _ _) λ _. pure_triple _

  on_decision-ensures :
      (d : SnapshotDecision) (db : Database)
      → Here db
      → Snapshot.decide hash now points s m p db ≡ d
      → Ensures (λ _. IsBooked) (Snapshot.on_decision hash now points s m c p d db)
  unfolding Snapshot.on_decision
  on_decision-ensures Policy.refuse db k decided = ends k.0
  on_decision-ensures (Policy.apply ids investigation d) db k decided = if_ensures _ (ends k.0) (
      (write_snapshot-triple ids investigation d).run db
        (decide-Decided ids investigation d db k decided))

  on_version-ensures :
      (o : Option ProcessedMessage) (db : Database)
      → Here db
      → Ensures
          (λ _. IsBooked)
          (elim o [
            | some x ↦ ok (Snapshot.on_same_version hash now points s x, db)
            | none ↦
                if ltb_ℤ s.version p.treasury_version
                then ok (SnapshotApplyOutcome.ignored, db)
                else Snapshot.on_decision hash now points s m c p
                    (Snapshot.decide hash now points s m p db)
                    db
          ])
  on_version-ensures (some x) db k = ends k.0
  on_version-ensures none db k = if_ensures _ (ends k.0) (on_decision-ensures _ db k refl)

  apply_locked-triple : Triple Here (Snapshot.apply_locked hash now points s m c p) (λ _. IsBooked)
  unfolding Snapshot.apply_locked
  apply_locked-triple = record {
    run = λ db k. if_ensures (not (text_eq p.currency s.currency)) (ends k.0) (
        if_ensures (is_some (find (has_message s.message_id) db.processed)) (ends k.0) (
          on_version-ensures
            (find (has_version s.program_id MessageKind.snapshot s.version) db.processed) db k));
  }

apply_marked-IsBooked :
    (hash : ReconciliationSnapshot → Text) (now : Date) (points : ℕ) (s : ReconciliationSnapshot)
    (c : StreamCoordinates) (marker : Option SnapshotMarker) (db : Database)
    → IsBooked db
    → IsBooked (Snapshot.apply_marked hash now points s c marker db).1
unfolding Snapshot.apply_marked find_program
apply_marked-IsBooked hash now points s c none db k = k
apply_marked-IsBooked hash now points s c (some m) db k =
    transaction_triple _ (lock_triple _ _ λ p. apply_locked-triple hash now points s m c p) db k

pub apply_snapshot-IsBooked :
    (hash : ReconciliationSnapshot → Text) (now : Date) (points : ℕ) (s : ReconciliationSnapshot)
    (c : StreamCoordinates) (db : Database)
    → IsBooked db
    → IsBooked (Snapshot.apply hash now points s c db).1
unfolding Snapshot.apply
apply_snapshot-IsBooked hash now points s c db =
    apply_marked-IsBooked hash now points s c s.acknowledgement db
