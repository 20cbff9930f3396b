-- ===== src/Booked/Reach.antt =====
-- src/capacity/application/reconciliation-check.service.ts, after any sequence of calls.
use mathlib.Core.List.{cons-ne-nil}
use invoice_reservation.Prelude.{
  ◌≡◌, refl, sym, ◌∙◌, Bool, true, false, List, [], ◌∷◌, if◌then◌else◌,
}
use invoice_reservation.Prelude.Text.{Text}
use invoice_reservation.Prelude.Int.{◌==ℤ◌, ==ℤ_iff}
use invoice_reservation.Store.{Database, has_id}
use invoice_reservation.Store.Tables.{ProgramEntity, InvoiceReservation}
use invoice_reservation.Store.Triples.{transaction_triple}
use invoice_reservation.Service.Reconciliation.{
  ReconciliationMismatch, is_unflagged, require_investigation, flag_mismatches, mismatches_of,
  active_outstanding, check,
}
use invoice_reservation.Service.Recovery.{hold_unverified, hold_all, flagged_of, detect}
use invoice_reservation.Service.Retention.{sweep}
use invoice_reservation.Audit.Reach.{
  Step, reserves, releases, cancels, applies_event, applies_snapshot, checks_reconciliation,
  detects_recovery, sweeps_requests, Reaches, here, after,
}
use invoice_reservation.Booked.Rows.{AreRows, active_outstanding-booked}
use invoice_reservation.Booked.Writes.{Agree, IsBooked}
use invoice_reservation.Booked.Reserve.{reserve-IsBooked}
use invoice_reservation.Booked.Release.{release-IsBooked, cancel-IsBooked}
use invoice_reservation.Booked.Treasury.{Agree-update_where, apply_event-IsBooked}
use invoice_reservation.Booked.Snapshot.{apply_snapshot-IsBooked}

flag_mismatches-Agree :
    (rs : List InvoiceReservation) (ms : List ReconciliationMismatch) (ps : List ProgramEntity)
    → Agree rs ps
    → Agree rs (flag_mismatches ms ps)
unfolding flag_mismatches
flag_mismatches-Agree rs [] ps k = k
flag_mismatches-Agree rs (m ∷ ms) ps k = flag_mismatches-Agree rs ms _ (
    Agree-update_where rs ps (is_unflagged m.program_id) require_investigation (λ p. refl)
      (λ p. refl) k)

hold_all-Agree :
    (rs : List InvoiceReservation) (ids : List Text) (ps : List ProgramEntity)
    → Agree rs ps
    → Agree rs (hold_all ids ps)
unfolding hold_all
hold_all-Agree rs [] ps k = k
hold_all-Agree rs (id ∷ ids) ps k =
    hold_all-Agree rs ids _
      (Agree-update_where rs ps (has_id id) hold_unverified (λ p. refl) (λ p. refl) k)

Step-IsBooked : {db end : Database} → Step db end → IsBooked db → IsBooked end
unfolding check detect sweep
Step-IsBooked (reserves env c {db}) k = transaction_triple _ (reserve-IsBooked env c) db k
Step-IsBooked (releases env c {db}) k = transaction_triple _ (release-IsBooked env c) db k
Step-IsBooked (cancels env c {db}) k = transaction_triple _ (cancel-IsBooked env c) db k
Step-IsBooked (applies_event hash now e c {db}) k = apply_event-IsBooked hash now e c db k
Step-IsBooked (applies_snapshot hash now points s c {db}) k =
    apply_snapshot-IsBooked hash now points s c db k
Step-IsBooked (checks_reconciliation {db}) k = (
  k.0,
  flag_mismatches-Agree db.reservations (mismatches_of db.reservations db.programs) db.programs k.1,
)
Step-IsBooked (detects_recovery {db}) k =
    (k.0, hold_all-Agree db.reservations (flagged_of db db.programs) db.programs k.1)
Step-IsBooked (sweeps_requests now days {db}) k = k

Reaches-IsBooked : {db end : Database} → Reaches db end → IsBooked db → IsBooked end
Reaches-IsBooked here k = k
Reaches-IsBooked (after r s) k = Step-IsBooked s (Reaches-IsBooked r k)

-- The check compares exactly what the invariant states.
mismatches_of-none :
    (rs : List InvoiceReservation) (ps : List ProgramEntity)
    → AreRows rs
    → Agree rs ps
    → mismatches_of rs ps ≡ []
unfolding mismatches_of
mismatches_of-none rs [] rows k = refl
mismatches_of-none rs (p ∷ ps) rows (h, k) =
    let equal =
      (==ℤ_iff (active_outstanding p.id rs) p.local_reserved_minor).1
        (active_outstanding-booked p.id rs rows ∙ sym h) in
    rw equal (mismatches_of-none rs ps rows k)

none_reported :
    (b : Bool) (m : ReconciliationMismatch) (ms : List ReconciliationMismatch)
    → (if b then ms else m ∷ ms) ≡ []
    → (b ≡ true) × (ms ≡ [])
none_reported true m ms h = (refl, h)
none_reported false m ms h = absurd (cons-ne-nil m ms h)

none-Agree :
    (rs : List InvoiceReservation) (ps : List ProgramEntity)
    → AreRows rs
    → mismatches_of rs ps ≡ []
    → Agree rs ps
unfolding mismatches_of
none-Agree rs [] rows h = tt
none-Agree rs (p ∷ ps) rows h =
    let (equal, rest) =
      none_reported (active_outstanding p.id rs ==ℤ p.local_reserved_minor) _ _ h in
    (
      sym ((==ℤ_iff (active_outstanding p.id rs) p.local_reserved_minor).0 equal)
          ∙ active_outstanding-booked p.id rs rows,
      none-Agree rs ps rows rest,
    )

-- If the reservations of a database are local, one for each invoice of a program, with nothing
-- outstanding once closed, and its reconciliation check finds no mismatch, then the check of any
-- database that calls of the services and of the sweeps lead to finds none.
pub Reaches-check :
    (db end : Database)
    → AreRows db.reservations
    → Reaches db end
    → (check db).0.mismatches ≡ []
    → (check end).0.mismatches ≡ []
unfolding check
Reaches-check db end rows r h =
    let (rows', agree) = Reaches-IsBooked r (rows, none-Agree db.reservations db.programs rows h) in
    mismatches_of-none end.reservations end.programs rows' agree
