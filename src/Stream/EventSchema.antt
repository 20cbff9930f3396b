-- ===== src/Stream/EventSchema.antt =====
-- src/treasury/schemas/capacity-event.schema.ts.
use invoice_reservation.Prelude.{Option, none, some, [], ◌∷◌, if◌then◌else◌, List}
use invoice_reservation.Prelude.Text.{Text, codes, text_eq}
use invoice_reservation.Prelude.Int.{ℤ, pos}
use invoice_reservation.Prelude.Result.{ok, err, ◌>>=◌, ◌>>◌}
use invoice_reservation.Store.{in_int64}
use invoice_reservation.Service.TreasuryEvent.{
  CapacityEvent, CapacityEventType, limit_changed, reservation_booked, reservation_released,
}
use invoice_reservation.Stream.Json.{
  Json, Members, Raw, Decoders, Parsed, number, integer, string, object, null, get, check_keys,
  decode, is_signed_minor, big_int, message_id_of, program_id_of, effective_at_of,
  correlation_id_of, currency_of, parse_object,
}

abbrev pub event_required : List Text
event_required =
    codes "messageId"
    ∷ codes "programId"
    ∷ codes "version"
    ∷ codes "effectiveAt"
    ∷ codes "type"
    ∷ codes "payload"
    ∷ []

abbrev pub event_keys : List Text
event_keys =
    codes "messageId"
    ∷ codes "programId"
    ∷ codes "version"
    ∷ codes "effectiveAt"
    ∷ codes "type"
    ∷ codes "payload"
    ∷ codes "correlationId"
    ∷ []

abbrev pub payload_required : List Text
payload_required = codes "amountMinor" ∷ codes "currency" ∷ []

abbrev pub payload_keys : List Text
payload_keys = codes "amountMinor" ∷ codes "currency" ∷ codes "reservationReference" ∷ []

-- The payload's fields in the event.
pub record Payload : Type 0 where
  pub amount_minor : ℤ
  pub currency : Text
  pub reservation_reference : Option Text

unfoldable pub version_of : Option Json → Parsed ℤ
version_of (some (number (integer (pos n)))) = ok (pos n)
version_of _ = err (codes "version must be an integer greater than or equal to 0")

unfoldable pub type_of : Option Json → Parsed CapacityEventType
type_of (some (string t)) =
    if text_eq t (codes "LIMIT_CHANGED")
    then ok limit_changed
    else if text_eq t (codes "RESERVATION_BOOKED")
    then ok reservation_booked
    else if text_eq t (codes "RESERVATION_RELEASED")
    then ok reservation_released
    else err (codes "type is not a recognised capacity event type")
type_of _ = err (codes "type is not a recognised capacity event type")

unfoldable pub amount_of : Option Json → Parsed ℤ
amount_of (some (string t)) =
    if is_signed_minor t
    then if in_int64 (big_int t)
      then ok (big_int t)
      else err (codes "payload.amountMinor is outside the signed 64-bit range")
    else err (codes "payload.amountMinor must match ^-?[0-9]{1,19}$")
amount_of _ = err (codes "payload.amountMinor must match ^-?[0-9]{1,19}$")

unfoldable pub reference_of : Option Json → Parsed (Option Text)
reference_of none = ok none
reference_of (some null) = ok none
reference_of (some (string t)) = ok (some t)
reference_of (some _) = err (codes "payload.reservationReference must be a string or null")

unfoldable pub parse_members : Members → Parsed Payload
parse_members ms = do
  check_keys (codes "payload") payload_keys payload_required ms
  amount_minor ← amount_of (get (codes "amountMinor") ms)
  currency ←
      currency_of (codes "payload.currency must match ^[A-Z]{3}$") (get (codes "currency") ms)
  reference ← reference_of (get (codes "reservationReference") ms)
  ok (record {
    amount_minor = amount_minor;
    currency = currency;
    reservation_reference = reference;
  })

-- `parsePayload`
unfoldable pub parse_payload : Option Json → Parsed Payload
parse_payload (some (object ms)) = parse_members ms
parse_payload _ = err (codes "payload must be an object")

-- From the parsed object on.
unfoldable pub parse_event : Decoders → Members → Parsed CapacityEvent
parse_event d ms = do
  check_keys (codes "event") event_keys event_required ms
  message_id ← message_id_of (get (codes "messageId") ms)
  program_id ← program_id_of (get (codes "programId") ms)
  version ← version_of (get (codes "version") ms)
  effective_at ← effective_at_of d (get (codes "effectiveAt") ms)
  type ← type_of (get (codes "type") ms)
  correlation_id ← correlation_id_of (get (codes "correlationId") ms)
  payload ← parse_payload (get (codes "payload") ms)
  ok (record {
    message_id = message_id;
    program_id = program_id;
    version = version;
    effective_at = effective_at;
    correlation_id = correlation_id;
    type = type;
    amount_minor = payload.amount_minor;
    currency = payload.currency;
    reservation_reference = payload.reservation_reference;
  })

unfoldable pub parse_capacity_event : Decoders → Raw → Parsed CapacityEvent
parse_capacity_event d raw = do
  decoded ← decode d (codes "event") raw
  members ← parse_object d (codes "event") decoded
  parse_event d members
