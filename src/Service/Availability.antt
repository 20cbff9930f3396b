-- ===== src/Service/Availability.antt =====
-- src/capacity/application/availability.service.ts.
use invoice_reservation.Prelude.{
  Bool, true, false, not, ◌&&◌, ◌||◌, Option, none, some, List, [], ◌∷◌, if◌then◌else◌,
}
use invoice_reservation.Prelude.Text.{Text, text_eq}
use invoice_reservation.Prelude.Int.{ℤ, ltb_ℤ, ◌==ℤ◌}
use invoice_reservation.Prelude.Result.{Result, ok, err}
use invoice_reservation.Errors.{not_found}
use invoice_reservation.Money.{has}
use invoice_reservation.Policy.Release.{ReservationStatus, active}
use invoice_reservation.Policy.Snapshot.{AcknowledgementKind, explicit, watermark}
use invoice_reservation.Store.{Database, Failure, refusal, find_program}
use invoice_reservation.Store.Tables.{InvoiceReservation, SnapshotAcknowledgement, AvailabilityBody}
use invoice_reservation.Service.Environment.{Environment}
use invoice_reservation.Service.Projection.{to_availability_body}

abbrev pub is_explicit : AcknowledgementKind → Bool
is_explicit explicit = true
is_explicit watermark = false

abbrev pub explicit_of : Text → SnapshotAcknowledgement → Bool
explicit_of id a = text_eq a.program_id id && is_explicit a.kind

abbrev max_version : Option ℤ → ℤ → ℤ
max_version none v = v
max_version (some w) v = if ltb_ℤ v w then w else v

-- `SELECT MAX(version) …`
unfoldable pub newest_explicit : Text → List SnapshotAcknowledgement → Option ℤ
newest_explicit id [] = none
newest_explicit id (a ∷ as') =
    let rest = newest_explicit id as' in
    if explicit_of id a then some (max_version rest a.version) else rest

abbrev is_active : ReservationStatus → Bool
is_active active = true
is_active _ = false

abbrev among_references : Option Text → Option (List Text) → Bool
among_references none refs = false
among_references (some t) none = false
among_references (some t) (some refs) = has refs t

-- The join with a reservation that is no longer ACTIVE.
abbrev pub has_closed : SnapshotAcknowledgement → List InvoiceReservation → Bool
has_closed a [] = false
has_closed a (r ∷ rs) =
    text_eq r.program_id a.program_id
      && among_references r.treasury_reference a.reservation_references
      && not (is_active r.status)
    || has_closed a rs

abbrev is_version : Option ℤ → ℤ → Bool
is_version none v = false
is_version (some w) v = v ==ℤ w

any_pending : Text → Option ℤ → List InvoiceReservation → List SnapshotAcknowledgement → Bool
any_pending id newest rs [] = false
any_pending id newest rs (a ∷ as') =
    explicit_of id a && is_version newest a.version && has_closed a rs
    || any_pending id newest rs as'

unfoldable pub reconciliation_pending : Text → Database → Bool
unfolding any_pending newest_explicit
reconciliation_pending id db =
    any_pending id (newest_explicit id db.acknowledgements) db.reservations db.acknowledgements

unfoldable pub for_program : Environment → Text → Database → Result AvailabilityBody Failure
for_program env id db = elim (find_program id db) [
  | none ↦ err (refusal (record { code = not_found; details = none }))
  | some p ↦
      ok (to_availability_body p (reconciliation_pending id db) (env.newest_observed_for p.id))
]
