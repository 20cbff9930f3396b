-- ===== src/AuditRead/Ledger.antt =====
-- src/capacity/application/audit-read.service.ts: `listLedger`.
pub mod Complete
use invoice_reservation.Prelude.{
  ◌≡◌, ◌≢◌, ℕ, suc, Bool, true, false, ◌&&◌, Option, none, some, List, take, filter, arith,
}
use invoice_reservation.Prelude.Text.{Text, codes, text_eq}
use invoice_reservation.Prelude.Decimal.{show_ℤ}
use invoice_reservation.Prelude.Int.{ℤ, ltb_ℤ, leb_ℤ, int_laws, eq_of_parts}
use invoice_reservation.Prelude.Result.{Result, ok, err, ◌>>=◌}
use invoice_reservation.Errors.{not_found}
use invoice_reservation.Position.{Date, PositionComponent, LedgerCause}
use invoice_reservation.Store.{Database, find_program}
use invoice_reservation.Store.Tables.{LedgerRow, MoneyBody}
use invoice_reservation.Service.Projection.{money_body}
use invoice_reservation.Stream.Json.{Json, Number, string, member, end, object}
use invoice_reservation.AuditRead.Cursor.{
  Codec, ReadError, refused, decode_cursor, property, Bound, unset, at, bind, bound_limit,
}
use invoice_reservation.AuditRead.Doubles.{double_of}
use invoice_reservation.AuditRead.Order.{Listing, order_by}
use invoice_reservation.AuditRead.Pages.{Page, page_of}

-- `ListLedgerQuery`, without the cursor.
pub record ListLedgerQuery : Type 0 where
  pub from : Option Date
  pub to : Option Date
  pub cause : Option LedgerCause
  pub limit : Option Number

pub record LedgerEntryBody : Type 0 where
  pub sequence : ℤ
  pub delta : MoneyBody
  pub component : PositionComponent
  pub cause : LedgerCause
  pub origin_reference : Option Text
  pub actor : Text
  pub correlation_id : Text
  pub occurred_at : Date

abbrev pub ledger_default_limit : ℕ
ledger_default_limit = 100

abbrev pub ledger_max_limit : ℕ
ledger_max_limit = 1000

-- `LedgerCause`, as the column holds it.
abbrev pub cause_text : LedgerCause → Text
cause_text LedgerCause.reservation = codes "RESERVATION"
cause_text LedgerCause.release = codes "RELEASE"
cause_text LedgerCause.cancellation = codes "CANCELLATION"
cause_text LedgerCause.write_off = codes "WRITE_OFF"
cause_text LedgerCause.treasury_event = codes "TREASURY_EVENT"
cause_text LedgerCause.limit_change = codes "LIMIT_CHANGE"
cause_text LedgerCause.reconciliation_adjustment = codes "RECONCILIATION_ADJUSTMENT"
cause_text LedgerCause.over_limit_onset = codes "OVER_LIMIT_ONSET"
cause_text LedgerCause.over_limit_cleared = codes "OVER_LIMIT_CLEARED"

abbrev pub is_from : Option Date → Date → Bool
is_from none t = true
is_from (some from) t = leb_ℤ from t

abbrev pub is_to : Option Date → Date → Bool
is_to none t = true
is_to (some to) t = leb_ℤ t to

abbrev pub has_cause : Option LedgerCause → LedgerCause → Bool
has_cause none c = true
has_cause (some cause) c = text_eq (cause_text c) (cause_text cause)

-- The conditions of the query, but for the cursor's.
unfoldable pub in_ledger : Text → ListLedgerQuery → LedgerRow → Bool
in_ledger id query row =
    text_eq row.program_id id
    && is_from query.from row.occurred_at
    && is_to query.to row.occurred_at
    && has_cause query.cause row.entry.cause

abbrev pub sequence_of : LedgerRow → ℤ
sequence_of row = row.entry.sequence

pub newer_irrefl : (a : ℤ) → ltb_ℤ a a ≡ false
newer_irrefl a = ground arith

pub newer_trans : (a b c : ℤ) → ltb_ℤ b a ≡ true → ltb_ℤ c b ≡ true → ltb_ℤ c a ≡ true
newer_trans a b c h k = ground arith

pub newer_connex : (a b : ℤ) → ltb_ℤ b a ≡ false → a ≢ b → ltb_ℤ a b ≡ true
newer_connex a b h apart = ground (arith, eq_of_parts a b, apart)

-- `sequence DESC`
abbrev pub newest_sequence : Listing ℤ
newest_sequence = record {
  precedes = λ a b. ltb_ℤ b a;
  precedes_irrefl = newer_irrefl;
  precedes_trans = newer_trans;
  precedes_connex = newer_connex;
}

-- `sequence < $n::bigint`, where there is a cursor.
abbrev pub is_below : Option (Bound ℤ) → LedgerRow → Bool
is_below none row = true
is_below (some unset) row = false
is_below (some (at k)) row = ltb_ℤ (sequence_of row) k

abbrev pub ledger_bound : Codec → Option Text → Result (Option (Bound ℤ)) ReadError
ledger_bound codec none = ok none
ledger_bound codec (some cursor) = decode_cursor codec cursor >>= λ json.
    property (codes "sequence") json >>= λ value.
    bind codec.bigint_of value >>= λ bound. ok (some bound)

-- `{ sequence: last.sequence }`, a bigint column being read as its text.
abbrev pub sequence_object : ℤ → Json
sequence_object n = object (member (codes "sequence") (string (show_ℤ n)) end)

-- `encodeCursor`
abbrev pub sequence_cursor : Codec → ℤ → Text
sequence_cursor codec n = codec.encode (sequence_object n)

abbrev pub ledger_body : Text → LedgerRow → LedgerEntryBody
ledger_body currency row = record {
  sequence = double_of row.entry.sequence;
  delta = money_body row.entry.delta_minor currency;
  component = row.entry.component;
  cause = row.entry.cause;
  origin_reference = row.entry.origin_reference;
  actor = row.entry.actor;
  correlation_id = row.entry.correlation_id;
  occurred_at = row.occurred_at;
}

-- `programCurrency`
abbrev pub program_currency : Text → Database → Result Text ReadError
program_currency id db = elim (find_program id db) [
  | none ↦ err (refused (record { code = not_found; details = none }))
  | some p ↦ ok p.currency
]

-- The query and the page that is made of its rows.
abbrev pub ledger_page :
    Codec → Text → ListLedgerQuery → Database → ℕ → Text → Option (Bound ℤ) → Page LedgerEntryBody
ledger_page codec id query db limit currency bound =
    page_of (λ row. sequence_cursor codec (sequence_of row)) (ledger_body currency) limit
      (take (suc limit) (
        order_by newest_sequence sequence_of
          (filter (λ row. in_ledger id query row && is_below bound row) db.ledger)))

unfoldable pub list_ledger :
    Codec
    → Text
    → ListLedgerQuery
    → Database
    → Option Text
    → Result (Page LedgerEntryBody) ReadError
list_ledger codec id query db cursor =
    bound_limit query.limit ledger_default_limit ledger_max_limit >>= λ limit.
    program_currency id db >>= λ currency.
    ledger_bound codec cursor >>= λ bound. ok (ledger_page codec id query db limit currency bound)
