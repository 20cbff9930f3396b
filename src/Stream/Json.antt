-- ===== src/Stream/Json.antt =====
-- The value that JSON.parse returns, and the checks of its parts that
-- src/treasury/schemas/capacity-event.schema.ts and reconciliation-snapshot.schema.ts share.
use invoice_reservation.Prelude.{
  ℕ, suc, Bool, true, false, not, ◌&&◌, ◌||◌, Option, none, some, List, [], ◌∷◌, ◌++◌, ◌+◌, ◌-◌,
  ◌*◌, if◌then◌else◌, is_some, ◌==◌, leb, length, take, drop, filter, ◌^◌,
}
use invoice_reservation.Prelude.Text.{Text, codes, text_eq}
use invoice_reservation.Prelude.Int.{ℤ, pos, minus}
use invoice_reservation.Prelude.Result.{Result, ok, err, ◌>>◌}
use invoice_reservation.Stream.Classifier.{one_of}

-- A number, as Number.isInteger tells them apart.
pub data Number : Type 0 where
  integer : ℤ → Number
  fraction : Number

mutual
  pub data Json : Type 0 where
    null : Json
    boolean : Bool → Json
    number : Number → Json
    string : Text → Json
    array : Items → Json
    object : Members → Json

  pub data Items : Type 0 where
    nil : Items
    item : Json → Items → Items

  pub data Members : Type 0 where
    end : Members
    member : Text → Json → Members → Members

-- The value of a message: a buffer, a string, or neither.
pub data Raw : Type 0 where
  buffer : List ℕ → Raw
  text : Text → Raw
  missing : Raw

-- The code that the schemas call: Buffer.toString, JSON.parse, which may throw, and Date.parse,
-- which may return NaN.
pub record Decoders : Type 0 where
  pub utf8 : List ℕ → Text
  pub parse_json : Text → Option Json
  pub parse_date : Text → Option ℤ

-- A value, or the detail of its rejection.
abbrev pub Parsed : Type 0 → Type 0
Parsed A = Result A Text

-- `Object.hasOwn`, and the property's value.
abbrev pub get : Text → Members → Option Json
get key end = none
get key (member k v ms) = if text_eq k key then some v else get key ms

abbrev pub keys : Members → List Text
keys end = []
keys (member k v ms) = k ∷ keys ms

abbrev pub unknown_keys : Members → List Text → List Text
unknown_keys ms allowed = filter (λ k. not (one_of allowed k)) (keys ms)

abbrev pub missing_keys : Members → List Text → List Text
missing_keys ms required = filter (λ k. not (is_some (get k ms))) required

abbrev pub join_commas : List Text → Text
join_commas [] = []
join_commas (t ∷ []) = t
join_commas (t ∷ u ∷ ts) = t ++ (codes ", " ++ join_commas (u ∷ ts))

-- `if (found.length > 0)`
abbrev pub none_of : Text → List Text → Parsed (Unit {0})
none_of detail [] = ok tt
none_of detail (k ∷ ks) = err (detail ++ join_commas (k ∷ ks))

unfoldable pub check_keys : Text → (allowed required : List Text) → Members → Parsed (Unit {0})
check_keys what allowed required ms = do
  none_of (what ++ codes " has unexpected properties: ") (unknown_keys ms allowed)
  none_of (what ++ codes " is missing properties: ") (missing_keys ms required)

unfoldable pub decode : Decoders → Text → Raw → Parsed Text
decode d what (buffer bytes) = ok (d.utf8 bytes)
decode d what (text t) = ok t
decode d what missing = err (what ++ codes " value must be a string or buffer")

abbrev pub all : (ℕ → Bool) → Text → Bool
all p [] = true
all p (c ∷ t) = p c && all p t

abbrev pub is_digit : ℕ → Bool
is_digit c = leb b'0' c && leb c b'9'

abbrev pub is_upper : ℕ → Bool
is_upper c = leb b'A' c && leb c b'Z'

abbrev pub is_hex : ℕ → Bool
is_hex c = is_digit c || leb b'a' c && leb c b'f' || leb b'A' c && leb c b'F'

abbrev starts_with_dash : Text → Bool
starts_with_dash [] = false
starts_with_dash (c ∷ t) = c == b'-'

-- Runs of hexadecimal digits of these lengths, a dash between two of them.
abbrev pub hex_groups : List ℕ → Text → Bool
hex_groups [] t = false
hex_groups (n ∷ []) t = length t == n && all is_hex t
hex_groups (n ∷ m ∷ ns) t =
    length (take n t) == n
    && all is_hex (take n t)
    && starts_with_dash (drop n t)
    && hex_groups (m ∷ ns) (drop (suc n) t)

-- UUID_PATTERN
abbrev pub is_uuid : Text → Bool
is_uuid t = hex_groups (8 ∷ 4 ∷ 4 ∷ 4 ∷ 12 ∷ []) t

-- CURRENCY_PATTERN
abbrev pub is_currency : Text → Bool
is_currency t = length t == 3 && all is_upper t

-- `^[0-9]{1,19}$`
abbrev pub is_minor : Text → Bool
is_minor t = leb 1 (length t) && leb (length t) 19 && all is_digit t

-- `^-?[0-9]{1,19}$`
abbrev pub is_signed_minor : Text → Bool
is_signed_minor [] = false
is_signed_minor (c ∷ t) = if c == b'-' then is_minor t else is_minor (c ∷ t)

-- The number that digits spell after `n`.
abbrev pub read_from : ℕ → Text → ℕ
read_from n [] = n
read_from n (c ∷ t) = read_from (n * 10 + (c - b'0')) t

-- `BigInt` of a text that passed one of the patterns.
abbrev pub big_int : Text → ℤ
big_int [] = pos 0
big_int (c ∷ t) = if c == b'-' then minus (read_from 0 t) else pos (read_from 0 (c ∷ t))

abbrev pub bigint_max : ℤ
bigint_max = pos (2 ^ 63 - 1)

-- The fields that both messages have.
unfoldable pub message_id_of : Option Json → Parsed Text
message_id_of (some (string t)) =
    if leb 8 (length t) && leb (length t) 128
    then ok t
    else err (codes "messageId must be a string of 8 to 128 characters")
message_id_of _ = err (codes "messageId must be a string of 8 to 128 characters")

unfoldable pub program_id_of : Option Json → Parsed Text
program_id_of (some (string t)) = if is_uuid t then ok t else err (codes "programId must be a UUID")
program_id_of _ = err (codes "programId must be a UUID")

-- What Date.parse read, or the detail.
abbrev pub date_or : Text → Option ℤ → Parsed ℤ
date_or detail none = err detail
date_or detail (some at) = ok at

unfoldable pub effective_at_of : Decoders → Option Json → Parsed ℤ
effective_at_of d (some (string t)) =
    date_or (codes "effectiveAt must be a valid date-time string") (d.parse_date t)
effective_at_of d _ = err (codes "effectiveAt must be a valid date-time string")

-- `parseCorrelationId`
unfoldable pub correlation_id_of : Option Json → Parsed (Option Text)
correlation_id_of none = ok none
correlation_id_of (some null) = ok none
correlation_id_of (some (string t)) =
    if leb (length t) 128
    then ok (some t)
    else err (codes "correlationId must be a string of at most 128 characters")
correlation_id_of (some _) = err (codes "correlationId must be a string of at most 128 characters")

-- `detail` is the message of the schema that asks.
unfoldable pub currency_of : Text → Option Json → Parsed Text
currency_of detail (some (string t)) = if is_currency t then ok t else err detail
currency_of detail _ = err detail

-- JSON.parse, and the test that its value is an object.
unfoldable pub parse_object : Decoders → Text → Text → Parsed Members
parse_object d what t = elim (d.parse_json t) [
  | some (object ms) ↦ ok ms
  | some _ ↦ err (what ++ codes " must be a JSON object")
  | none ↦ err (what ++ codes " value is not valid JSON")
]
