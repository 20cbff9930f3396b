-- ===== src/Position.antt =====
-- src/capacity/domain/ledger-entry.ts, program.ts and position.ts: the position of a program and
-- how ledger entries advance it. A `Date` is its number of milliseconds since the epoch.
pub mod Replay
pub mod Sequence
pub mod OverLimit
pub mod Components
use invoice_reservation.Prelude.{
  Bool, true, false, not, ◌&&◌, Option, none, some, List, [], ◌∷◌, ◌++◌, if◌then◌else◌, is_some,
}
use invoice_reservation.Prelude.Text.{Text, codes}
use invoice_reservation.Prelude.Int.{ℤ, pos, ◌+ℤ◌, ◌-ℤ◌, ltb_ℤ}

abbrev pub Date : Type 0
Date = ℤ

pub data PositionComponent : Type 0 where
  local treasury limit : PositionComponent

pub data LedgerCause : Type 0 where
  reservation release cancellation write_off treasury_event limit_change : LedgerCause
  reconciliation_adjustment over_limit_onset over_limit_cleared : LedgerCause

-- An entry as requested by a caller, before a sequence is assigned.
pub record PendingLedgerEntry : Type 0 where
  pub delta_minor : ℤ
  pub component : PositionComponent
  pub cause : LedgerCause
  pub origin_reference : Option Text
  pub actor : Text
  pub correlation_id : Text

pub record SequencedLedgerEntry : Type 0 where
  pub pending : PendingLedgerEntry
  pub open pending use *
  pub sequence : ℤ

pub record ProgramPosition : Type 0 where
  pub id : Text
  pub currency : Text
  pub credit_limit_minor : ℤ
  pub local_reserved_minor : ℤ
  pub treasury_reserved_minor : ℤ
  pub next_sequence : ℤ
  pub over_limit_since : Option Date
  pub investigation_required : Bool
  pub position_verified : Bool

unfoldable pub total_reserved : ProgramPosition → ℤ
total_reserved p = p.local_reserved_minor +ℤ p.treasury_reserved_minor

unfoldable pub available : ProgramPosition → ℤ
unfolding total_reserved
available p = p.credit_limit_minor -ℤ total_reserved p

unfoldable pub is_over_limit : ProgramPosition → Bool
unfolding total_reserved
is_over_limit p = ltb_ℤ p.credit_limit_minor (total_reserved p)

pub record AdvanceResult : Type 0 where
  pub program : ProgramPosition
  pub entries : List SequencedLedgerEntry

-- The `switch` of the loop: the delta goes to the component that the entry names.
pub add_to : PositionComponent → ℤ → ProgramPosition → ProgramPosition
add_to PositionComponent.local d p = record p { local_reserved_minor = p.local_reserved_minor +ℤ d }
add_to PositionComponent.treasury d p = record p {
  treasury_reserved_minor = p.treasury_reserved_minor +ℤ d;
}
add_to PositionComponent.limit d p = record p { credit_limit_minor = p.credit_limit_minor +ℤ d }

-- One round of the loop, and the push of a marker after it: number the entry, then push it.
pub append_entry : PendingLedgerEntry → AdvanceResult → AdvanceResult
append_entry e r =
    let p = r.program in
    record {
      program = record p { next_sequence = p.next_sequence +ℤ pos 1 };
      entries = r.entries ++ record { pending = e; sequence = p.next_sequence } ∷ [];
    }

pub advance_loop : List PendingLedgerEntry → AdvanceResult → AdvanceResult
unfolding append_entry add_to
advance_loop [] r = r
advance_loop (e ∷ es) r =
    advance_loop es
      (append_entry e (record r { program = add_to e.component e.delta_minor r.program }))

-- The correlation id of the last entry, `system` if there is none.
pub last_correlation_id : List PendingLedgerEntry → Text
last_correlation_id [] = codes "system"
last_correlation_id (e ∷ []) = e.correlation_id
last_correlation_id (e ∷ f ∷ es) = last_correlation_id (f ∷ es)

abbrev pub marker : LedgerCause → Text → PendingLedgerEntry
marker cause correlation_id = record {
  delta_minor = pos 0;
  component = PositionComponent.limit;
  cause = cause;
  origin_reference = none;
  actor = codes "system";
  correlation_id = correlation_id;
}

-- The `if … else if …` at the end, on `wasOverLimit` and `nowOverLimit`.
pub mark_crossing : Bool → Bool → Text → Date → AdvanceResult → AdvanceResult
unfolding append_entry
mark_crossing false true correlation_id now r =
    append_entry (marker LedgerCause.over_limit_onset correlation_id)
      (record r { program = record (r.program) { over_limit_since = some now } })
mark_crossing true false correlation_id now r =
    append_entry (marker LedgerCause.over_limit_cleared correlation_id)
      (record r { program = record (r.program) { over_limit_since = none } })
mark_crossing _ _ correlation_id now r = r

unfoldable pub advance_position : ProgramPosition → List PendingLedgerEntry → Date → AdvanceResult
unfolding advance_loop mark_crossing is_over_limit last_correlation_id
advance_position program entries now =
    let looped = advance_loop entries (record { program = program; entries = [] }) in
    mark_crossing (is_some program.over_limit_since) (is_over_limit looped.program)
      (last_correlation_id entries) now looped
