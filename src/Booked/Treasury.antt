-- ===== src/Booked/Treasury.antt =====
-- src/capacity/application/apply-treasury-event.service.ts and apply-snapshot.service.ts: what the
-- treasury reports leaves the local component in agreement with the rows.
use invoice_reservation.Prelude.{
  ◌≡◌, refl, sym, ◌∙◌, Bool, false, Bool-cases, inl, inr, Option, none, some, List, [], ◌∷◌,
  update_where,
}
use invoice_reservation.Prelude.Text.{Text}
use invoice_reservation.Prelude.Int.{ℤ, pos, +ℤ_zero, int_laws}
use invoice_reservation.Prelude.Result.{ok}
use invoice_reservation.Position.{Date, PositionComponent, advance_position}
use invoice_reservation.Position.Components.{component_of-advance_position}
use invoice_reservation.Store.{Database, has_id, find_program}
use invoice_reservation.Store.Tables.{
  ProgramEntity, InvoiceReservation, StreamCoordinates, ProcessedMessage,
}
use invoice_reservation.Store.Triples.{
  Triple, bind_triple, modify_triple, gets_triple, pure_triple, if_triple, if_ensures, weaken,
  Ensures, ends, transaction_triple,
}
use invoice_reservation.Service.Frames.{
  lock_triple, insert_processed-triple, upsert_position-triple,
}
use invoice_reservation.Service.TreasuryEvent
use invoice_reservation.Service.TreasuryEvent.{
  CapacityEvent, CapacityEventType, limit_changed, reservation_booked, reservation_released,
  ApplyOutcome, build_entry, record_applied, note_applied, has_message, has_version,
  acknowledge_echo,
}
use invoice_reservation.Booked.Rows.{
  booked, KeepsKeys, KeepsWorth, AreRows-update_where, booked-same, IsRow-kept,
}
use invoice_reservation.Booked.Writes.{
  IsBooked, Agree, Locked, Locked-agrees, Locked-IsOff, IsOff-IsBooked, persist_advance-IsOff,
}

Agree-rows :
    (rs rs' : List InvoiceReservation) (ps : List ProgramEntity)
    → ((id : Text) → booked id rs' ≡ booked id rs)
    → Agree rs ps
    → Agree rs' ps
Agree-rows rs rs' [] same h = tt
Agree-rows rs rs' (p ∷ ps) same (h, k) = (h ∙ sym (same p.id), Agree-rows rs rs' ps same k)

-- A change of programs that keeps the id and the local component.
pub Agree-update_where :
    (rs : List InvoiceReservation) (ps : List ProgramEntity) (t : ProgramEntity → Bool)
    (f : ProgramEntity → ProgramEntity)
    → ((p : ProgramEntity) → (f p).id ≡ p.id)
    → ((p : ProgramEntity) → (f p).local_reserved_minor ≡ p.local_reserved_minor)
    → Agree rs ps
    → Agree rs (update_where t f ps)
unfolding update_where
Agree-update_where rs [] t f hi hl h = tt
Agree-update_where rs (p ∷ ps) t f hi hl (h, k) = elim (Bool-cases (t p)) [
  | inl chosen ↦ rw (chosen, hi p) (hl p ∙ h, Agree-update_where rs ps t f hi hl k)
  | inr other ↦ rw other (h, Agree-update_where rs ps t f hi hl k)
]

-- A change of rows that keeps what counts.
pub rows-IsBooked :
    (t : InvoiceReservation → Bool) (f : InvoiceReservation → InvoiceReservation)
    → KeepsKeys f
    → KeepsWorth f
    → (db : Database) → IsBooked db
    → IsBooked (record db { reservations = update_where t f db.reservations })
rows-IsBooked t f keys worth db (rows, agree) = (
  AreRows-update_where t f db.reservations keys (IsRow-kept f worth) rows,
  Agree-rows db.reservations (update_where t f db.reservations) db.programs
      (λ id. booked-same t f id db.reservations keys worth) agree,
)

record_applied-triple :
    (id : Text) (t : Date) → Triple IsBooked (record_applied id t) (λ _. IsBooked)
unfolding record_applied
record_applied-triple id t = modify_triple _ λ db k. (
  k.0,
  Agree-update_where db.reservations db.programs (has_id id) (note_applied t) (λ p. refl)
      (λ p. refl) k.1,
)

event_local :
    (ty : CapacityEventType) (e : CapacityEvent) (p : ProgramEntity) (now : Date)
    → (advance_position p.position (build_entry ty e p ∷ []) now).program.local_reserved_minor
      ≡ p.local_reserved_minor
unfolding build_entry
event_local limit_changed e p now =
    component_of-advance_position PositionComponent.local p.position
      (build_entry limit_changed e p ∷ []) now
    ∙ omega int_laws
event_local reservation_booked e p now =
    component_of-advance_position PositionComponent.local p.position
      (build_entry reservation_booked e p ∷ []) now
    ∙ omega int_laws
event_local reservation_released e p now =
    component_of-advance_position PositionComponent.local p.position
      (build_entry reservation_released e p ∷ []) now
    ∙ omega int_laws

echo-keys : (now : Date) (version : ℤ) → KeepsKeys (acknowledge_echo now version)
echo-keys now version = (
  λ r. elim (Bool-cases r.treasury_acknowledged) [ inl h ↦ rw h refl | inr h ↦ rw h refl ],
  λ r. elim (Bool-cases r.treasury_acknowledged) [ inl h ↦ rw h refl | inr h ↦ rw h refl ],
)

echo-worth : (now : Date) (version : ℤ) → KeepsWorth (acknowledge_echo now version)
echo-worth now version r = elim (Bool-cases r.treasury_acknowledged) [
  | inl h ↦ rw h (refl, refl, refl)
  | inr h ↦ rw h (refl, refl, refl)
]

module _ (hash : CapacityEvent → Text) (now : Date) (e : CapacityEvent) (c : StreamCoordinates)
    (p : ProgramEntity) where
  abbrev Here : Database → Type 0
  Here = Locked e.program_id p

  apply_entry-triple : Triple Here (TreasuryEvent.apply_entry hash now e c p) (λ _. IsBooked)
  unfolding TreasuryEvent.apply_entry
  apply_entry-triple =
      bind_triple _ _
        (persist_advance-IsOff (λ _. Unit) false e.program_id (pos 0) (pos 0) p.position _ now
          λ db k. (
            Locked-IsOff e.program_id p db k,
            +ℤ_zero _ ∙ event_local e.type e p now ∙ Locked-agrees e.program_id p db k,
            tt,
          ))
        λ _.
          bind_triple _ _
            (weaken (λ db k. IsOff-IsBooked e.program_id (pos 0) db refl k.0)
              (record_applied-triple _ _))
            λ _. bind_triple _ _ (upsert_position-triple (λ db ss k. k) _ _ _) λ _. pure_triple _

  suppress_echo-triple :
      (reference : Text)
      → Triple Here (TreasuryEvent.suppress_echo hash now e c reference) (λ _. IsBooked)
  unfolding TreasuryEvent.suppress_echo
  suppress_echo-triple reference =
      bind_triple _ _
        (modify_triple {Q = IsBooked} _ λ db k.
          rows-IsBooked _ (acknowledge_echo now e.version) (echo-keys now e.version)
            (echo-worth now e.version) db k.0)
        λ _.
          bind_triple _ _ (upsert_position-triple (λ db ss k. k) _ _ _)
            λ _. bind_triple _ _ (record_applied-triple _ _) λ _. pure_triple _

  apply_or_suppress-triple :
      (o : Option Text)
      → Triple Here (TreasuryEvent.apply_or_suppress hash now e c p o) (λ _. IsBooked)
  unfolding TreasuryEvent.apply_or_suppress
  apply_or_suppress-triple none = apply_entry-triple
  apply_or_suppress-triple (some reference) = record {
    run = λ db k.
        if_ensures _ ((suppress_echo-triple reference).run db k) (apply_entry-triple.run db k);
  }

  apply_new-triple : Triple Here (TreasuryEvent.apply_new hash now e c p) (λ _. IsBooked)
  unfolding TreasuryEvent.apply_new
  apply_new-triple = bind_triple _ _ (gets_triple _) λ seen.
      if_triple _ (weaken (λ db k. k.0) (pure_triple _)) (
        bind_triple _ _ (insert_processed-triple (λ db ms k. k) _)
          λ _. apply_or_suppress-triple e.reservation_reference)

  on_version-ensures :
      (o : Option ProcessedMessage) (db : Database)
      → Here db
      → Ensures
          (λ _. IsBooked)
          (elim o [
            | some m ↦ ok (TreasuryEvent.on_same_version hash now e m, db)
            | none ↦ TreasuryEvent.apply_new hash now e c p db
          ])
  on_version-ensures (some m) db k = ends k.0
  on_version-ensures none db k = apply_new-triple.run db k

  apply_locked-triple : Triple Here (TreasuryEvent.apply_locked hash now e c p) (λ _. IsBooked)
  unfolding TreasuryEvent.apply_locked
  apply_locked-triple = record { run = λ db k. if_ensures _ (ends k.0) (on_version-ensures _ db k) }

pub apply_event-IsBooked :
    (hash : CapacityEvent → Text) (now : Date) (e : CapacityEvent) (c : StreamCoordinates)
    (db : Database)
    → IsBooked db
    → IsBooked (TreasuryEvent.apply hash now e c db).1
unfolding TreasuryEvent.apply find_program
apply_event-IsBooked hash now e c db =
    transaction_triple _ (lock_triple _ _ λ p. apply_locked-triple hash now e c p) db
