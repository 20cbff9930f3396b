-- ===== src/Store.antt =====
-- The tables (src/capacity/infrastructure/entities, the CHECK constraints and the trigger of
-- src/migrations) and the transaction of src/capacity/infrastructure/unit-of-work.ts.
-- A transaction is a function of the database that returns a new one or fails; a failed one leaves
-- the database as it was. Transactions run one after another: each locks its program's row.
pub mod Tables
pub mod Triples
use invoice_reservation.Prelude.{
  Bool, true, false, not, ◌&&◌, ◌||◌, Option, none, some, List, [], ◌∷◌, ◌++◌, map, ◌^◌, ◌-◌,
  if◌then◌else◌, is_some, find, update_where, or_else,
}
use invoice_reservation.Prelude.Text.{Text, text_eq}
use invoice_reservation.Prelude.Int.{ℤ, pos, negsuc, ltb_ℤ, leb_ℤ, ◌==ℤ◌}
use invoice_reservation.Prelude.Result.{Result, ok, err}
use invoice_reservation.Errors.{RefusalCode, CapacityRefusal}
use invoice_reservation.Money.{MoneyError}
use invoice_reservation.Position.{Date, ProgramPosition, SequencedLedgerEntry, AdvanceResult}
use Tables.{
  ProgramEntity, InvoiceReservation, LedgerRow, RequestRecord, ProcessedMessage, StreamPosition,
  SnapshotAcknowledgement, StreamCoordinates,
}

pub record Database : Type 0 where
  pub programs : List ProgramEntity
  pub reservations : List InvoiceReservation
  pub ledger : List LedgerRow
  pub requests : List RequestRecord
  pub processed : List ProcessedMessage
  pub stream_positions : List StreamPosition
  pub acknowledgements : List SnapshotAcknowledgement

-- What a transaction throws.
pub data Failure : Type 0 where
  refusal : CapacityRefusal → Failure
  program_not_found : Text → Failure
  -- a check, the trigger, or a value out of range
  query_failed : Failure
  -- a unique constraint: of the driver's code 23505
  unique_violation : Failure
  type_error : MoneyError → Failure
  -- `throw new Error(…)`
  unexpected : Failure

abbrev pub Tx : Type 0 → Type 0
Tx A = Database → Result (A × Database) Failure

module _ {A : Type 0} where
  unfoldable pub pure : A → Tx A
  pure a db = ok (a, db)

  unfoldable pub throw : Failure → Tx A
  throw e db = err e

  unfoldable pub lift_money : Result A MoneyError → Tx A
  lift_money (ok a) db = ok (a, db)
  lift_money (err e) db = err (type_error e)

abbrev pub refuse_with : {A : Type 0} → RefusalCode → Tx A
refuse_with code = throw (refusal (record { code = code; details = none }))

infixl 5 ◌>>=◌ ◌>>◌
unfoldable pub ◌>>=◌ : {A B : Type 0} → Tx A → (A → Tx B) → Tx B
◌>>=◌ m f db = elim (m db) [ ok (a, db') ↦ f a db' | err e ↦ err e ]

abbrev pub ◌>>◌ : {B : Type 0} → Tx (Unit {0}) → Tx B → Tx B
m >> k = m >>= λ _. k

unfoldable pub gets : {A : Type 0} → (Database → A) → Tx A
gets f db = ok (f db, db)

unfoldable pub modify : (Database → Database) → Tx (Unit {0})
modify f db = ok (tt, f db)

-- A statement that a constraint may reject.
unfoldable pub check : Bool → Tx (Unit {0})
check b db = if b then ok (tt, db) else err query_failed

-- A statement that a unique constraint may reject.
unfoldable pub check_unique : Bool → Tx (Unit {0})
check_unique b db = if b then ok (tt, db) else err unique_violation

-- To compute with all of the above.
unfoldable pub tx_ops : Unit {0}
unfolding pure throw lift_money ◌>>=◌ gets modify check check_unique
tx_ops = tt

-- `SELECT * FROM program WHERE id = $1`
abbrev pub has_id : Text → ProgramEntity → Bool
has_id id p = text_eq p.id id

unfoldable pub find_program : Text → Database → Option ProgramEntity
find_program id db = find (has_id id) db.programs

-- `withProgramLock`, inside the transaction.
unfoldable pub with_program_lock : {A : Type 0} → Text → (ProgramEntity → Tx A) → Tx A
unfolding find_program
with_program_lock id body db = elim (find_program id db) [
  | none ↦ err (program_not_found id)
  | some program ↦ body program db
]

-- `dataSource.transaction`: what a transaction that throws has written is rolled back.
unfoldable pub transaction : {A : Type 0} → Tx A → Database → Result A Failure × Database
transaction m db = elim (m db) [ ok (a, db') ↦ (ok a, db') | err e ↦ (err e, db) ]

-- A BIGINT column holds a signed 64-bit value.
abbrev pub in_int64 : ℤ → Bool
in_int64 z = leb_ℤ (negsuc (2 ^ 63 - 1)) z && leb_ℤ z (pos (2 ^ 63 - 1))

all_in_int64 : List ℤ → Bool
all_in_int64 [] = true
all_in_int64 (z ∷ zs) = in_int64 z && all_in_int64 zs

-- The CHECK constraints of `program`, and its BIGINT columns that an advance writes.
unfoldable pub program_constraints : ProgramPosition → Bool
unfolding all_in_int64
program_constraints p =
    leb_ℤ (pos 0) p.local_reserved_minor
    && leb_ℤ (pos 0) p.treasury_reserved_minor
    && leb_ℤ (pos 0) p.credit_limit_minor
    && all_in_int64 (
        p.local_reserved_minor ∷ p.treasury_reserved_minor ∷ p.credit_limit_minor ∷ p.next_sequence
        ∷ [])

-- The trigger `program_local_within_limit`, on the old and the new row. Its function returns at
-- once where `capacity.reconciliation_in_progress` is on.
unfoldable pub local_within_limit : Bool → ProgramPosition → ProgramPosition → Bool
local_within_limit reconciling old new =
    if ltb_ℤ old.local_reserved_minor new.local_reserved_minor
    then reconciling || leb_ℤ new.local_reserved_minor new.credit_limit_minor
    else true

-- The rows that an advance adds to `capacity_ledger_entry`.
abbrev pub ledger_rows : Text → Date → List SequencedLedgerEntry → List LedgerRow
ledger_rows id now = map (λ e. record { program_id = id; entry = e; occurred_at = now })

deltas_in_int64 : List SequencedLedgerEntry → Bool
deltas_in_int64 [] = true
deltas_in_int64 (e ∷ es) = in_int64 e.delta_minor && in_int64 e.sequence && deltas_in_int64 es

-- `UNIQUE (program_id, sequence)`
sequence_is_free : Text → ℤ → List LedgerRow → Bool
sequence_is_free id n [] = true
sequence_is_free id n (l ∷ ls) =
    not (text_eq l.program_id id && l.entry.sequence ==ℤ n) && sequence_is_free id n ls

sequences_are_free : Text → List SequencedLedgerEntry → List LedgerRow → Bool
unfolding sequence_is_free
sequences_are_free id [] ls = true
sequences_are_free id (e ∷ es) ls = sequence_is_free id e.sequence ls && sequences_are_free id es ls

-- The columns that the UPDATE of `persistAdvance` sets.
abbrev pub write_position : ProgramPosition → Date → ProgramEntity → ProgramEntity
write_position new now p = record p {
  position = record (p.position) {
    credit_limit_minor = new.credit_limit_minor;
    local_reserved_minor = new.local_reserved_minor;
    treasury_reserved_minor = new.treasury_reserved_minor;
    next_sequence = new.next_sequence;
    over_limit_since = new.over_limit_since;
  };
  position_changed_at = now;
}

-- `ProgramRepository.persistAdvance`; `old` is the row that the lock read, `reconciling` the
-- setting that the trigger reads.
unfoldable pub persist_advance :
    Bool → ProgramPosition → Text → AdvanceResult → Date → Tx (Unit {0})
unfolding deltas_in_int64 sequences_are_free
persist_advance reconciling old id result now = do
  check (deltas_in_int64 result.entries)
  check_unique (sequences_are_free id result.entries (← gets (λ db. db.ledger)))
  modify (λ db. record db { ledger = db.ledger ++ ledger_rows id now result.entries })
  check (program_constraints result.program)
  check (local_within_limit reconciling old result.program)
  modify λ db. record db {
    programs = update_where (has_id id) (write_position result.program now) db.programs;
  }

abbrev pub at_coordinates : Text → StreamCoordinates → StreamPosition → Bool
at_coordinates id c s =
    text_eq s.program_id id && text_eq s.topic c.topic && s.partition ==ℤ c.partition

-- The `WHERE` of `DO UPDATE`.
abbrev pub advance_offset : StreamCoordinates → Date → StreamPosition → StreamPosition
advance_offset c now s =
    if ltb_ℤ s.offset c.offset then record s { offset = c.offset; updated_at = now } else s

-- `ProgramStreamPositionRepository.upsert`, on the table.
unfoldable pub upsert : Text → StreamCoordinates → Date → List StreamPosition → List StreamPosition
upsert id c now [] =
    record {
      program_id = id;
      topic = c.topic;
      partition = c.partition;
      offset = c.offset;
      updated_at = now;
    }
    ∷ []
upsert id c now (s ∷ ss) =
    let rest = upsert id c now ss in
    if at_coordinates id c s then advance_offset c now s ∷ ss else s ∷ rest

unfoldable pub upsert_position : Text → StreamCoordinates → Date → Tx (Unit {0})
upsert_position id c now = do
  check (in_int64 c.offset)
  modify λ db. record db { stream_positions = upsert id c now db.stream_positions }
