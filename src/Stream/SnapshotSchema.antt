-- ===== src/Stream/SnapshotSchema.antt =====
-- src/treasury/schemas/reconciliation-snapshot.schema.ts.
use invoice_reservation.Prelude.{
  ℕ, suc, Option, none, some, [], ◌∷◌, ◌++◌, if◌then◌else◌, List, ◌-◌, ◌^◌, leb, length,
}
use invoice_reservation.Prelude.Text.{Text, codes, text_eq}
use invoice_reservation.Prelude.Int.{ℤ, pos, leb_ℤ}
use invoice_reservation.Prelude.Result.{ok, err, map_ok, ◌>>=◌, ◌>>◌}
use invoice_reservation.Policy.Snapshot.{SnapshotMarker, explicit, watermark}
use invoice_reservation.Service.Snapshot.{ReconciliationSnapshot}
use invoice_reservation.Stream.Json.{
  Json, Items, nil, item, Members, Raw, Decoders, Parsed, number, integer, string, object, array,
  null, get, check_keys, decode, is_minor, big_int, bigint_max, message_id_of, program_id_of,
  effective_at_of, correlation_id_of, currency_of, date_or, parse_object,
}

abbrev pub snapshot_required : List Text
snapshot_required =
    codes "messageId"
    ∷ codes "programId"
    ∷ codes "version"
    ∷ codes "effectiveAt"
    ∷ codes "currency"
    ∷ codes "creditLimitMinor"
    ∷ codes "reservedMinor"
    ∷ []

abbrev pub snapshot_keys : List Text
snapshot_keys =
    codes "messageId"
    ∷ codes "programId"
    ∷ codes "version"
    ∷ codes "effectiveAt"
    ∷ codes "correlationId"
    ∷ codes "currency"
    ∷ codes "creditLimitMinor"
    ∷ codes "reservedMinor"
    ∷ codes "acknowledgement"
    ∷ []

abbrev pub max_safe_integer : ℕ
max_safe_integer = 2 ^ 53 - 1

abbrev pub max_reservation_references : ℕ
max_reservation_references = 10000

unfoldable pub safe_version_of : Option Json → Parsed ℤ
safe_version_of (some (number (integer (pos n)))) =
    if leb n max_safe_integer
    then ok (pos n)
    else err (codes "version must be an integer between 0 and 9007199254740991")
safe_version_of _ = err (codes "version must be an integer between 0 and 9007199254740991")

unfoldable pub minor_of : Text → Option Json → Parsed ℤ
minor_of key (some (string t)) =
    if is_minor t
    then if leb_ℤ (big_int t) bigint_max
      then ok (big_int t)
      else err (key ++ codes " is outside the signed 64-bit range")
    else err (key ++ codes " must match ^[0-9]{1,19}$")
minor_of key _ = err (key ++ codes " must match ^[0-9]{1,19}$")

-- `parseMinor`
abbrev pub parse_minor : Text → Members → Parsed ℤ
parse_minor key ms = minor_of key (get key ms)

abbrev pub count : Items → ℕ
count nil = 0
count (item j js) = suc (count js)

-- The loop over `reservationIds`.
unfoldable pub references_of : Items → Parsed (List Text)
references_of nil = ok []
references_of (item (string t) js) =
    let rest = references_of js in
    if leb (length t) 128
    then map_ok rest (λ ts. t ∷ ts)
    else err
        (codes "acknowledgement.reservationIds items must be strings of at most 128 characters")
references_of (item _ js) =
    err (codes "acknowledgement.reservationIds items must be strings of at most 128 characters")

abbrev pub explicit_marker : List Text → SnapshotMarker
explicit_marker ts = record {
  kind = explicit;
  reservation_references = some ts;
  ingested_through = none;
}

unfoldable pub reservation_ids_of : Option Json → Parsed SnapshotMarker
unfolding references_of
reservation_ids_of (some (array js)) =
    if leb (count js) max_reservation_references
    then map_ok (references_of js) explicit_marker
    else err (codes "acknowledgement.reservationIds must hold at most 10000 items")
reservation_ids_of _ = err (codes "acknowledgement.reservationIds must be an array")

unfoldable pub parse_explicit : Members → Parsed SnapshotMarker
parse_explicit ms = do
  check_keys (codes "acknowledgement") (codes "kind" ∷ codes "reservationIds" ∷ [])
      (codes "reservationIds" ∷ []) ms
  reservation_ids_of (get (codes "reservationIds") ms)

unfoldable pub ingested_through_of : Decoders → Option Json → Parsed ℤ
ingested_through_of d (some (string t)) =
    date_or (codes "acknowledgement.ingestedThrough must be a valid date-time") (d.parse_date t)
ingested_through_of d _ = err (codes "acknowledgement.ingestedThrough must be a valid date-time")

unfoldable pub parse_watermark : Decoders → Members → Parsed SnapshotMarker
parse_watermark d ms = do
  check_keys (codes "acknowledgement") (codes "kind" ∷ codes "ingestedThrough" ∷ [])
      (codes "ingestedThrough" ∷ []) ms
  ingested_through ← ingested_through_of d (get (codes "ingestedThrough") ms)
  ok (record {
    kind = watermark;
    reservation_references = none;
    ingested_through = some ingested_through;
  })

unfoldable pub parse_marker : Decoders → Members → Option Json → Parsed SnapshotMarker
parse_marker d ms (some (string kind)) =
    if text_eq kind (codes "EXPLICIT")
    then parse_explicit ms
    else if text_eq kind (codes "WATERMARK")
    then parse_watermark d ms
    else err (codes "acknowledgement.kind must be EXPLICIT or WATERMARK")
parse_marker d ms _ = err (codes "acknowledgement.kind must be EXPLICIT or WATERMARK")

unfoldable pub parse_acknowledgement : Decoders → Option Json → Parsed (Option SnapshotMarker)
parse_acknowledgement d none = ok none
parse_acknowledgement d (some null) = ok none
parse_acknowledgement d (some (object ms)) = map_ok (parse_marker d ms (get (codes "kind") ms)) some
parse_acknowledgement d (some _) = err (codes "acknowledgement must be an object")

-- From the parsed object on.
unfoldable pub parse_snapshot : Decoders → Members → Parsed ReconciliationSnapshot
parse_snapshot d ms = do
  check_keys (codes "snapshot") snapshot_keys snapshot_required ms
  message_id ← message_id_of (get (codes "messageId") ms)
  program_id ← program_id_of (get (codes "programId") ms)
  version ← safe_version_of (get (codes "version") ms)
  effective_at ← effective_at_of d (get (codes "effectiveAt") ms)
  currency ← currency_of (codes "currency must match ^[A-Z]{3}$") (get (codes "currency") ms)
  credit_limit_minor ← parse_minor (codes "creditLimitMinor") ms
  reserved_minor ← parse_minor (codes "reservedMinor") ms
  correlation_id ← correlation_id_of (get (codes "correlationId") ms)
  acknowledgement ← parse_acknowledgement d (get (codes "acknowledgement") ms)
  ok (record {
    message_id = message_id;
    program_id = program_id;
    version = version;
    effective_at = effective_at;
    correlation_id = correlation_id;
    currency = currency;
    credit_limit_minor = credit_limit_minor;
    reserved_minor = reserved_minor;
    acknowledgement = acknowledgement;
  })

unfoldable pub parse_reconciliation_snapshot : Decoders → Raw → Parsed ReconciliationSnapshot
parse_reconciliation_snapshot d raw = do
  decoded ← decode d (codes "snapshot") raw
  members ← parse_object d (codes "snapshot") decoded
  parse_snapshot d members
