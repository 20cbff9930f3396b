-- ===== src/Audit.antt =====
-- scripts/audit-ledger.ts, and `sumByComponent` of
-- src/capacity/infrastructure/repositories/ledger.repository.ts: the replay of the ledger.
pub mod Sums
pub mod Writes
pub mod Services
pub mod Treasury
pub mod Reach
use invoice_reservation.Prelude.{ℕ, suc, Option, none, some, List, [], ◌∷◌, if◌then◌else◌}
use invoice_reservation.Prelude.Text.{Text, text_eq}
use invoice_reservation.Prelude.Int.{ℤ, pos, ◌+ℤ◌, ◌==ℤ◌}
use invoice_reservation.Position.{PositionComponent}
use invoice_reservation.Position.Replay.{component_of, share}
use invoice_reservation.Store.{Database}
use invoice_reservation.Store.Tables.{ProgramEntity, LedgerRow}

-- `SUM(delta_minor)` of a program's entries of one component; zero where there is none.
unfoldable pub ledger_sum : PositionComponent → Text → List LedgerRow → ℤ
ledger_sum c id [] = pos 0
ledger_sum c id (l ∷ ls) =
    (if text_eq l.program_id id then share c l.entry.component l.entry.delta_minor else pos 0)
    +ℤ ledger_sum c id ls

pub record LedgerMismatch : Type 0 where
  pub program_id : Text
  pub component : PositionComponent
  pub ledger_sum : ℤ
  pub cached : ℤ

pub record AuditResult : Type 0 where
  pub programs_checked : ℕ
  pub mismatch : Option LedgerMismatch

-- The inner loop, over COMPONENTS.
unfoldable pub audit_components :
    ProgramEntity → List LedgerRow → List PositionComponent → Option LedgerMismatch
audit_components p ls [] = none
audit_components p ls (c ∷ cs) =
    let rest = audit_components p ls cs in
    let found = ledger_sum c p.id ls in
    if found ==ℤ component_of c p.position
    then rest
    else some (record {
      program_id = p.id;
      component = c;
      ledger_sum = found;
      cached = component_of c p.position;
    })

abbrev pub components : List PositionComponent
components = PositionComponent.local ∷ PositionComponent.treasury ∷ PositionComponent.limit ∷ []

unfoldable pub audit_programs : ℕ → List ProgramEntity → List LedgerRow → AuditResult
audit_programs checked [] ls = record { programs_checked = checked; mismatch = none }
audit_programs checked (p ∷ ps) ls =
    let rest = audit_programs (suc checked) ps ls in
    elim (audit_components p ls components) [
      | none ↦ rest
      | some m ↦ record { programs_checked = checked; mismatch = some m }
    ]

unfoldable pub audit_ledger : Database → AuditResult
audit_ledger db = audit_programs 0 db.programs db.ledger
