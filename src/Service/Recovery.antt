-- ===== src/Service/Recovery.antt =====
-- src/capacity/application/recovery-detection.service.ts. The programs come in the order of the
-- table's list.
pub mod Held
pub mod Latest
use invoice_reservation.Prelude.{
  Bool, true, false, ◌&&◌, Option, none, some, List, [], ◌∷◌, if◌then◌else◌, update_where,
}
use invoice_reservation.Prelude.Text.{Text, codes, text_eq}
use invoice_reservation.Prelude.Int.{ltb_ℤ}
use invoice_reservation.Position.{Date, LedgerCause}
use invoice_reservation.Store.{Database, has_id}
use invoice_reservation.Store.Tables.{ProgramEntity, LedgerRow, StreamPosition}
use invoice_reservation.Service.TreasuryEvent.{later_of}

-- `cle.cause IN (…)`
abbrev pub is_treasury_cause : LedgerCause → Bool
is_treasury_cause LedgerCause.treasury_event = true
is_treasury_cause LedgerCause.limit_change = true
is_treasury_cause LedgerCause.reconciliation_adjustment = true
is_treasury_cause _ = false

abbrev pub from_treasury : Text → LedgerRow → Bool
from_treasury id l =
    text_eq l.program_id id
    && text_eq l.entry.actor (codes "treasury")
    && is_treasury_cause l.entry.cause

-- `MAX(cle.occurred_at)`
unfoldable pub ledger_at : Text → List LedgerRow → Option Date
ledger_at id [] = none
ledger_at id (l ∷ ls) =
    let rest = ledger_at id ls in if from_treasury id l then later_of rest l.occurred_at else rest

-- `MAX(psp.updated_at)`
unfoldable pub position_at : Text → List StreamPosition → Option Date
position_at id [] = none
position_at id (s ∷ ss) =
    let rest = position_at id ss in
    if text_eq s.program_id id then later_of rest s.updated_at else rest

-- The tests of the loop.
abbrev pub is_behind : Option Date → Option Date → Bool
is_behind none position = false
is_behind (some ledger) none = true
is_behind (some ledger) (some position) = ltb_ℤ position ledger

abbrev pub is_flagged : Database → ProgramEntity → Bool
is_flagged db p =
    p.position_verified
    && is_behind (ledger_at p.id db.ledger) (position_at p.id db.stream_positions)

unfoldable pub flagged_of : Database → List ProgramEntity → List Text
unfolding ledger_at position_at
flagged_of db [] = []
flagged_of db (p ∷ ps) =
    let rest = flagged_of db ps in if is_flagged db p then p.id ∷ rest else rest

abbrev pub hold_unverified : ProgramEntity → ProgramEntity
hold_unverified p = record p { position = record (p.position) { position_verified = false } }

unfoldable pub hold_all : List Text → List ProgramEntity → List ProgramEntity
hold_all [] ps = ps
hold_all (id ∷ ids) ps = hold_all ids (update_where (has_id id) hold_unverified ps)

unfoldable pub detect : Database → List Text × Database
detect db =
    let flagged = flagged_of db db.programs in
    (flagged, record db { programs = hold_all flagged db.programs })
