-- ===== src/Api/ErrorFilter.antt =====
-- src/capacity/api/error.filter.ts. A body is the list of its members, a detail's too.
use invoice_reservation.Prelude.{
  ℕ, Bool, false, ◌&&◌, Option, none, some, List, [], ◌∷◌, if◌then◌else◌, ltb, ◌==◌, take, is_some,
}
use invoice_reservation.Prelude.Text.{Text, codes, text_eq}
use invoice_reservation.Errors.{
  RefusalCode, CapacityRefusal, Details, position_unverified, program_over_limit,
  fx_rate_unavailable, amount_rounds_to_zero, insufficient_capacity, duplicate_invoice,
  idempotency_conflict, idempotency_expired, request_in_flight, invalid_amount, currency_mismatch,
  reservation_terminal, release_exceeds_reserved, not_found,
}
use invoice_reservation.Stream.Json.{
  Json, Items, nil, item, Members, end, member, string, array, object, get,
}

-- An HttpException: `is_bad_request` where it is a BadRequestException.
pub record HttpError : Type 0 where
  pub status : ℕ
  pub payload : Json
  pub message : Text
  pub is_bad_request : Bool

-- What a handler may throw.
pub data Exception : Type 0 where
  capacity_refusal : CapacityRefusal → Exception
  http : HttpError → Exception
  -- any other Error, by its name and its driver error's code
  error : (name : Text) → (driver_code : Option Text) → Exception
  not_an_error : Exception

pub record Response : Type 0 where
  pub status : ℕ
  pub body : Members

abbrev pub code_text : RefusalCode → Text
code_text insufficient_capacity = codes "INSUFFICIENT_CAPACITY"
code_text program_over_limit = codes "PROGRAM_OVER_LIMIT"
code_text fx_rate_unavailable = codes "FX_RATE_UNAVAILABLE"
code_text amount_rounds_to_zero = codes "AMOUNT_ROUNDS_TO_ZERO"
code_text duplicate_invoice = codes "DUPLICATE_INVOICE"
code_text idempotency_conflict = codes "IDEMPOTENCY_CONFLICT"
code_text idempotency_expired = codes "IDEMPOTENCY_EXPIRED"
code_text request_in_flight = codes "REQUEST_IN_FLIGHT"
code_text position_unverified = codes "POSITION_UNVERIFIED"
code_text invalid_amount = codes "INVALID_AMOUNT"
code_text currency_mismatch = codes "CURRENCY_MISMATCH"
code_text reservation_terminal = codes "RESERVATION_TERMINAL"
code_text release_exceeds_reserved = codes "RELEASE_EXCEEDS_RESERVED"
code_text not_found = codes "NOT_FOUND"

-- MESSAGES
abbrev pub message_of : RefusalCode → Text
message_of insufficient_capacity = codes "The amount exceeds available capacity."
message_of program_over_limit = codes "The program is over its credit limit."
message_of fx_rate_unavailable =
    codes "No exchange rate is available for the requested currency pair."
message_of amount_rounds_to_zero =
    codes "The converted amount rounds to zero in the program currency."
message_of duplicate_invoice =
    codes "A reservation already exists for this invoice on this program."
message_of idempotency_conflict =
    codes "The Idempotency-Key was used before with different content."
message_of idempotency_expired = codes "The Idempotency-Key has expired and cannot be replayed."
message_of request_in_flight = codes "An identical request is still being applied."
message_of position_unverified = codes "The program position cannot be verified at this time."
message_of invalid_amount = codes "The release amount must be positive."
message_of currency_mismatch =
    codes "The release must be denominated in the invoice's own currency."
message_of reservation_terminal = codes "The reservation is already released or closed."
message_of release_exceeds_reserved =
    codes "The release exceeds what remains reserved for this invoice."
message_of not_found = codes "The program or reservation does not exist."

-- REFUSAL_STATUS
abbrev pub status_of : RefusalCode → ℕ
status_of position_unverified = 503
status_of invalid_amount = 400
status_of not_found = 404
status_of _ = 409

-- CODE_BY_STATUS, with the code of any other status.
abbrev pub code_by_status : ℕ → Text
code_by_status n =
    if n == 400
    then codes "VALIDATION_FAILED"
    else if n == 401
    then codes "UNAUTHORIZED"
    else if n == 403
    then codes "FORBIDDEN"
    else if n == 404
    then codes "NOT_FOUND"
    else if n == 405
    then codes "METHOD_NOT_ALLOWED"
    else if n == 406
    then codes "NOT_ACCEPTABLE"
    else if n == 409
    then codes "CONFLICT"
    else if n == 413
    then codes "PAYLOAD_TOO_LARGE"
    else if n == 415
    then codes "UNSUPPORTED_MEDIA_TYPE"
    else if n == 422
    then codes "UNPROCESSABLE_ENTITY"
    else if n == 429
    then codes "RATE_LIMITED"
    else if n == 503
    then codes "SERVICE_UNAVAILABLE"
    else codes "HTTP_ERROR"

-- `object[key] = value`
unfoldable pub put : Text → Json → Members → Members
put key v end = member key v end
put key v (member k w ms) =
    let rest = put key v ms in if text_eq k key then member k v ms else member k w rest

abbrev pub first_word : Text → Text
first_word [] = []
first_word (c ∷ t) = let rest = first_word t in if c == b' ' then [] else c ∷ rest

abbrev pub max_details : ℕ
max_details = 20

abbrev entries_of : Items → List Json
entries_of nil = []
entries_of (item j js) = j ∷ entries_of js

-- `isRecord(payload) && Array.isArray(payload.message) ? payload.message : []`
abbrev pub messages_of : Json → List Json
messages_of (object ms) = elim (get (codes "message") ms) [
  | some (array js) ↦ entries_of js
  | _ ↦ []
]
messages_of _ = []

-- The loop of `toValidationDetails`.
unfoldable pub add_details : List Json → Members → Members
unfolding put
add_details [] details = details
add_details (string [] ∷ js) details = add_details js details
add_details (string (c ∷ t) ∷ js) details =
    add_details js (put (first_word (c ∷ t)) (string (c ∷ t)) details)
add_details (_ ∷ js) details = add_details js details

unfoldable pub to_validation_details : Json → Members
unfolding add_details
to_validation_details payload = add_details (take max_details (messages_of payload)) end

-- `code`, `message` and `correlationId`, and `details` where there are any.
abbrev pub body_with : Text → Text → Text → Option Members → Members
body_with code message id none =
    member (codes "code") (string code)
      (member (codes "message") (string message) (member (codes "correlationId") (string id) end))
body_with code message id (some details) = member (codes "code") (string code) (
    member (codes "message") (string message)
      (member (codes "correlationId") (string id) (member (codes "details") (object details) end)))

abbrev pub details_of : Details → Members
details_of [] = end
details_of ((k, v) ∷ ds) = member k (string v) (details_of ds)

abbrev pub refusal_details : Option Details → Option Members
refusal_details none = none
refusal_details (some ds) = some (details_of ds)

-- The code of a payload that `hasStringCode` accepts, with its members.
abbrev pub coded : Json → Option Members
coded (object ms) = elim (get (codes "code") ms) [ some (string t) ↦ some ms | _ ↦ none ]
coded _ = none

-- `if (body.correlationId === undefined) body.correlationId = …`
abbrev pub with_correlation : Text → Members → Members
with_correlation id ms =
    if is_some (get (codes "correlationId") ms)
    then ms
    else put (codes "correlationId") (string id) ms

abbrev pub non_empty : Members → Option Members
non_empty end = none
non_empty (member k v ms) = some (member k v ms)

-- The message of a plain framework exception.
abbrev pub plain_message : HttpError → Text
plain_message e = elim e.payload [
  | string t ↦ t
  | object ms ↦ elim (get (codes "message") ms) [ some (string t) ↦ t | _ ↦ e.message ]
  | _ ↦ e.message
]

abbrev pub internal : Text → Response
internal id = record {
  status = 500;
  body = body_with (codes "INTERNAL") (codes "An unexpected error occurred.") id none;
}

unfoldable pub respond_plain : Text → HttpError → Response
unfolding to_validation_details
respond_plain id e =
    if e.is_bad_request
    then record {
      status = e.status;
      body =
          body_with (codes "VALIDATION_FAILED") (codes "Request validation failed.") id
            (non_empty (to_validation_details e.payload));
    }
    else if ltb e.status 500
    then record {
      status = e.status;
      body = body_with (code_by_status e.status) (plain_message e) id none;
    }
    else internal id

unfoldable pub respond_http : Text → HttpError → Response
unfolding respond_plain put
respond_http id e = elim (coded e.payload) [
  | some ms ↦ record { status = e.status; body = with_correlation id ms }
  | none ↦ respond_plain id e
]

abbrev pub is_unique_violation : Text → Option Text → Bool
is_unique_violation name none = false
is_unique_violation name (some code) =
    text_eq name (codes "QueryFailedError") && text_eq code (codes "23505")

-- `catch`, under the correlation id of the request.
unfoldable pub respond : Text → Exception → Response
unfolding respond_http
respond id (capacity_refusal r) = record {
  status = status_of r.code;
  body = body_with (code_text r.code) (message_of r.code) id (refusal_details r.details);
}
respond id (http e) = respond_http id e
respond id (error name driver_code) =
    if text_eq name (codes "ProgramNotFoundError")
    then record {
      status = 404;
      body = body_with (codes "NOT_FOUND") (codes "Program not found.") id none;
    }
    else if is_unique_violation name driver_code
    then record {
      status = 409;
      body = body_with (codes "DUPLICATE_INVOICE") (message_of duplicate_invoice) id none;
    }
    else internal id
respond id not_an_error = internal id
