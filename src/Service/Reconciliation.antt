-- ===== src/Service/Reconciliation.antt =====
-- src/capacity/application/reconciliation-check.service.ts. The programs come in the order of the
-- table's list, and no other transaction runs between the query and the updates.
use invoice_reservation.Prelude.{
  ℕ, Bool, true, false, not, ◌&&◌, List, [], ◌∷◌, if◌then◌else◌, update_where, length,
}
use invoice_reservation.Prelude.Text.{Text, text_eq}
use invoice_reservation.Prelude.Int.{ℤ, pos, ◌+ℤ◌, ◌==ℤ◌}
use invoice_reservation.Policy.Release.{ReservationStatus, active, partially_released}
use invoice_reservation.Policy.Snapshot.{is_local}
use invoice_reservation.Store.{Database, has_id}
use invoice_reservation.Store.Tables.{ProgramEntity, InvoiceReservation}

pub record ReconciliationMismatch : Type 0 where
  pub program_id : Text
  pub expected : ℤ
  pub actual : ℤ

pub record ReconciliationReport : Type 0 where
  pub programs_checked : ℕ
  pub mismatches : List ReconciliationMismatch

-- `r.status IN ('ACTIVE', 'PARTIALLY_RELEASED')`
abbrev pub is_open : ReservationStatus → Bool
is_open active = true
is_open partially_released = true
is_open _ = false

-- The condition of the join.
abbrev pub counts_for : Text → InvoiceReservation → Bool
counts_for id r = text_eq r.program_id id && is_local r.origin && is_open r.status

-- `COALESCE(SUM(r.outstanding_reserved_minor), 0)`
unfoldable pub active_outstanding : Text → List InvoiceReservation → ℤ
active_outstanding id [] = pos 0
active_outstanding id (r ∷ rs) =
    let rest = active_outstanding id rs in
    if counts_for id r then r.outstanding_reserved_minor +ℤ rest else rest

-- The loop, without its updates.
unfoldable pub mismatches_of :
    List InvoiceReservation → List ProgramEntity → List ReconciliationMismatch
unfolding active_outstanding
mismatches_of rs [] = []
mismatches_of rs (p ∷ ps) =
    let rest = mismatches_of rs ps in
    if active_outstanding p.id rs ==ℤ p.local_reserved_minor
    then rest
    else record {
      program_id = p.id;
      expected = active_outstanding p.id rs;
      actual = p.local_reserved_minor;
    }
      ∷ rest

abbrev pub require_investigation : ProgramEntity → ProgramEntity
require_investigation p = record p {
  position = record (p.position) { investigation_required = true };
}

-- `WHERE id = $1 AND investigation_required = FALSE`
abbrev pub is_unflagged : Text → ProgramEntity → Bool
is_unflagged id p = has_id id p && not p.investigation_required

unfoldable pub flag_mismatches :
    List ReconciliationMismatch → List ProgramEntity → List ProgramEntity
flag_mismatches [] ps = ps
flag_mismatches (m ∷ ms) ps =
    flag_mismatches ms (update_where (is_unflagged m.program_id) require_investigation ps)

unfoldable pub check : Database → ReconciliationReport × Database
check db =
    let mismatches = mismatches_of db.reservations db.programs in
    (
      record { programs_checked = length db.programs; mismatches = mismatches },
      record db { programs = flag_mismatches mismatches db.programs },
    )
