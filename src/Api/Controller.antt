-- ===== src/Api/Controller.antt =====
-- src/capacity/api/capacity.controller.ts and audit.controller.ts, behind the guards and under the
-- error filter.
use invoice_reservation.Prelude.{
  ℕ, Bool, true, false, ◌||◌, Option, none, some, [], ◌∷◌, if◌then◌else◌, ltb, length,
}
use invoice_reservation.Prelude.Text.{Text, codes}
use invoice_reservation.Prelude.Int.{ℤ, pos, minus}
use invoice_reservation.Prelude.Result.{Result, ok, err}
use invoice_reservation.Money.{number_from}
use invoice_reservation.Money.Decimal.{strip_minus}
use invoice_reservation.Store.{
  Database, Failure, refusal, program_not_found, query_failed, unique_violation, type_error,
  unexpected, transaction,
}
use invoice_reservation.Store.Tables.{Body, AvailabilityBody, ReservationBody}
use invoice_reservation.Service.Environment.{Environment}
use invoice_reservation.Service.Reserve.{ReserveCommand, Outcome, reserve}
use invoice_reservation.Service.Release.{ReleaseCommand, release}
use invoice_reservation.Service.Cancel.{CancelCommand, CancelReason, cancel}
use invoice_reservation.Service.Availability.{for_program}
use invoice_reservation.AuditRead.Cursor.{Codec, ReadError}
use invoice_reservation.AuditRead.Cursor
use invoice_reservation.AuditRead.Pages.{Page}
use invoice_reservation.AuditRead.Ledger.{ListLedgerQuery, LedgerEntryBody, list_ledger}
use invoice_reservation.AuditRead.Reservations.{
  ListReservationsQuery, list_reservations, get_reservation,
}
use invoice_reservation.Stream.Json.{end, member, string, object, all, is_digit}
use invoice_reservation.Api.ErrorFilter.{
  HttpError, Exception, capacity_refusal, http, error, Response, respond,
}
use invoice_reservation.Api.Guards.{Gate, AuthContext, coded_error, guard_chain}

pub record MoneyDto : Type 0 where
  pub amount_minor : Text
  pub currency : Text

-- A route and what its handler is given: the header `idempotency-key`, the invoice id of the route,
-- the body, the query.
pub data Call : Type 0 where
  create_reservation : (key : Option Text) → (invoice_id : Text) → (amount : MoneyDto) → Call
  create_release : (key : Option Text) → (invoice_id : Text) → (amount : MoneyDto) → Call
  cancel_reservation :
      (key : Option Text)
      → (invoice_id : Text) → (reason : CancelReason) → (note : Option Text) → Call
  get_availability : Call
  reservations_of : ListReservationsQuery → (cursor : Option Text) → Call
  reservation_of : (invoice_id : Text) → Call
  ledger_of : ListLedgerQuery → (cursor : Option Text) → Call

-- `@RequiredScope`
abbrev pub required_scope : Call → Text
required_scope (create_reservation key invoice_id amount) = codes "capacity:write"
required_scope (create_release key invoice_id amount) = codes "capacity:write"
required_scope (cancel_reservation key invoice_id reason comment) = codes "capacity:write"
required_scope get_availability = codes "capacity:read"
required_scope (reservations_of query cursor) = codes "capacity:read"
required_scope (reservation_of invoice_id) = codes "capacity:read"
required_scope (ledger_of query cursor) = codes "capacity:audit"

-- What an answer carries.
pub data Reply : Type 0 where
  outcome_reply : Body → Reply
  availability_reply : AvailabilityBody → Reply
  reservation_reply : ReservationBody → Reply
  reservations_reply : Page ReservationBody → Reply
  ledger_reply : Page LedgerEntryBody → Reply

pub data Answer : Type 0 where
  replied : (status : ℕ) → Reply → Answer
  failed : Response → Answer

-- What a request is answered with: the guards' surroundings, the services', the cursors' codec, and
-- the exception of the route's pipes, where they throw: ParseUUIDPipe on the program's id, and the
-- ValidationPipe with the decorators of src/capacity/api/dto.
pub record Server : Type 0 where
  pub gate : Gate
  pub environment : Environment
  pub codec : Codec
  pub pipes : Text → Call → Option HttpError

abbrev pub key_required : Exception
key_required = http (record {
  status = 400;
  payload = object (
      member (codes "code") (string (codes "VALIDATION_FAILED")) (
        member (codes "message") (string (codes "Idempotency-Key is required.")) (
          member (codes "details")
            (object (
              member (codes "idempotencyKey") (string (codes "required, 8 to 128 characters")) end))
            end)));
  message = codes "Idempotency-Key is required.";
  is_bad_request = true;
})

abbrev pub checked_key : Option Text → Result Text Exception
checked_key none = err key_required
checked_key (some key) =
    if ltb (length key) 8 || ltb 128 (length key) then err key_required else ok key

abbrev pub is_number_text : Bool × Text → Bool
is_number_text (negative, []) = false
is_number_text (negative, c ∷ t) = all is_digit (c ∷ t)

abbrev pub signed : Bool × Text → ℤ
signed (true, t) = minus (number_from 0 t)
signed (false, t) = pos (number_from 0 t)

abbrev pub number_of : Bool × Text → Result ℤ Exception
number_of p = if is_number_text p then ok (signed p) else err (error (codes "SyntaxError") none)

-- `BigInt(dto.amount.amountMinor)` of decimal digits, which are all that the DTO's pattern admits.
abbrev pub minor_of_text : Text → Result ℤ Exception
minor_of_text t = number_of (strip_minus t)

-- What a service throws, as the filter reads it. Of the driver's codes, the filter tells apart only
-- that of a unique violation.
abbrev pub exception_of : Failure → Exception
exception_of (refusal r) = capacity_refusal r
exception_of (program_not_found id) = error (codes "ProgramNotFoundError") none
exception_of query_failed = error (codes "QueryFailedError") none
exception_of unique_violation = error (codes "QueryFailedError") (some (codes "23505"))
exception_of (type_error e) = error (codes "TypeError") none
exception_of unexpected = error (codes "Error") none

abbrev pub read_exception : ReadError → Exception
read_exception (Cursor.bad_request message) = coded_error 400 (codes "VALIDATION_FAILED") message
read_exception (Cursor.refused r) = capacity_refusal r
read_exception Cursor.query_refused = error (codes "QueryFailedError") none
read_exception Cursor.type_error = error (codes "TypeError") none

module _ (server : Server) (correlation_id program_id : Text) where
  abbrev pub fail : Exception → Answer
  fail x = failed (respond correlation_id x)

  -- `response.status(outcome.created ? 201 : 200)`
  abbrev pub of_outcome : Result Outcome Failure → Answer
  of_outcome (ok o) = replied (if o.created then 201 else 200) (outcome_reply o.body)
  of_outcome (err f) = fail (exception_of f)

  abbrev pub of_read : {A : Type 0} → (A → Reply) → Result A ReadError → Answer
  of_read reply (ok a) = replied 200 (reply a)
  of_read reply (err e) = fail (read_exception e)

  abbrev pub of_availability : Result AvailabilityBody Failure → Answer
  of_availability (ok body) = replied 200 (availability_reply body)
  of_availability (err f) = fail (exception_of f)

  abbrev pub reserve_command : AuthContext → Text → Text → ℤ → Text → ReserveCommand
  reserve_command auth key invoice_id amount currency = record {
    organisation_id = auth.org;
    program_id = program_id;
    request_id = key;
    invoice_id = invoice_id;
    amount_minor = amount;
    currency = currency;
    actor = auth.org;
    correlation_id = correlation_id;
  }

  abbrev pub release_command : AuthContext → Text → Text → ℤ → Text → ReleaseCommand
  release_command auth key invoice_id amount currency = record {
    organisation_id = auth.org;
    program_id = program_id;
    request_id = key;
    invoice_id = invoice_id;
    release_minor = amount;
    currency = currency;
    actor = auth.org;
    correlation_id = correlation_id;
  }

  abbrev pub cancel_command : AuthContext → Text → Text → CancelReason → Option Text → CancelCommand
  cancel_command auth key invoice_id reason comment = record {
    organisation_id = auth.org;
    program_id = program_id;
    request_id = key;
    invoice_id = invoice_id;
    reason = reason;
    note = comment;
    actor = auth.org;
    correlation_id = correlation_id;
  }

  -- A write's key, then its amount, then its service.
  abbrev pub with_key :
      Option Text → (Text → Database → Answer × Database) → Database → Answer × Database
  with_key key serve db = elim (checked_key key) [ ok k ↦ serve k db | err x ↦ (fail x, db) ]

  abbrev pub with_amount : Text → (ℤ → Database → Answer × Database) → Database → Answer × Database
  with_amount t serve db = elim (minor_of_text t) [ ok n ↦ serve n db | err x ↦ (fail x, db) ]

  abbrev pub answer_outcome : Result Outcome Failure × Database → Answer × Database
  answer_outcome (r, db) = (of_outcome r, db)

  abbrev pub reserve_at : AuthContext → Text → MoneyDto → Text → ℤ → Database → Answer × Database
  reserve_at auth invoice_id amount key n db = answer_outcome (
      transaction
        (reserve server.environment (reserve_command auth key invoice_id n amount.currency)) db)

  abbrev pub release_at : AuthContext → Text → MoneyDto → Text → ℤ → Database → Answer × Database
  release_at auth invoice_id amount key n db = answer_outcome (
      transaction
        (release server.environment (release_command auth key invoice_id n amount.currency)) db)

  abbrev pub cancel_at :
      AuthContext → Text → CancelReason → Option Text → Text → Database → Answer × Database
  cancel_at auth invoice_id reason comment key db = answer_outcome (
      transaction (cancel server.environment (cancel_command auth key invoice_id reason comment))
        db)

  -- The handlers of the writes.
  abbrev pub on_create_reservation :
      AuthContext → Option Text → Text → MoneyDto → Database → Answer × Database
  on_create_reservation auth key invoice_id amount =
      with_key key (λ k. with_amount amount.amount_minor (reserve_at auth invoice_id amount k))

  abbrev pub on_create_release :
      AuthContext → Option Text → Text → MoneyDto → Database → Answer × Database
  on_create_release auth key invoice_id amount =
      with_key key (λ k. with_amount amount.amount_minor (release_at auth invoice_id amount k))

  abbrev pub on_cancel_reservation :
      AuthContext → Option Text → Text → CancelReason → Option Text → Database → Answer × Database
  on_cancel_reservation auth key invoice_id reason comment =
      with_key key (cancel_at auth invoice_id reason comment)

  -- The handlers of the reads.
  abbrev pub on_availability : Database → Answer
  on_availability db = of_availability (for_program server.environment program_id db)

  abbrev pub on_list_reservations : ListReservationsQuery → Option Text → Database → Answer
  on_list_reservations query cursor db =
      of_read reservations_reply (list_reservations server.codec program_id query db cursor)

  abbrev pub on_get_reservation : Text → Database → Answer
  on_get_reservation invoice_id db =
      of_read reservation_reply (get_reservation program_id invoice_id db)

  abbrev pub on_list_ledger : ListLedgerQuery → Option Text → Database → Answer
  on_list_ledger query cursor db =
      of_read ledger_reply (list_ledger server.codec program_id query db cursor)

  unfoldable pub run_call : AuthContext → Call → Database → Answer × Database
  run_call auth (create_reservation key invoice_id amount) =
      on_create_reservation auth key invoice_id amount
  run_call auth (create_release key invoice_id amount) =
      on_create_release auth key invoice_id amount
  run_call auth (cancel_reservation key invoice_id reason comment) =
      on_cancel_reservation auth key invoice_id reason comment
  run_call auth get_availability = λ db. (on_availability db, db)
  run_call auth (reservations_of query cursor) = λ db. (on_list_reservations query cursor db, db)
  run_call auth (reservation_of invoice_id) = λ db. (on_get_reservation invoice_id db, db)
  run_call auth (ledger_of query cursor) = λ db. (on_list_ledger query cursor db, db)

  abbrev pub after_pipes : Option HttpError → AuthContext → Call → Database → Answer × Database
  after_pipes (some e) auth call db = (fail (http e), db)
  after_pipes none auth call db = run_call auth call db

  abbrev pub after_guards : Result AuthContext Exception → Call → Database → Answer × Database
  after_guards (err x) call db = (fail x, db)
  after_guards (ok auth) call db = after_pipes (server.pipes program_id call) auth call db

  -- A request to a route of the program: the guards, the pipes, the handler, the filter.
  unfoldable pub handle : Option Text → Call → Database → Answer × Database
  unfolding run_call
  handle authorization call db =
      after_guards
        (guard_chain server.gate correlation_id (some (required_scope call))
          (record { authorization = authorization; program_id = some program_id }) db)
        call db
