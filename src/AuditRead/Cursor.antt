-- ===== src/AuditRead/Cursor.antt =====
-- src/capacity/application/audit-read.service.ts: limits, cursors, and what a query makes of them.
use invoice_reservation.Prelude.{◌≡◌, ◌<◌, arith, ℕ, ◌||◌, Option, none, some, if◌then◌else◌}
use invoice_reservation.Prelude.Text.{Text, codes}
use invoice_reservation.Prelude.Int.{ℤ, pos, negsuc, pos_part, ltb_ℤ}
use invoice_reservation.Prelude.Result.{Result, ok, err}
use invoice_reservation.Errors.{CapacityRefusal}
use invoice_reservation.Stream.Json.{Json, Number, integer, fraction, null, object, get}

-- What a read throws.
pub data ReadError : Type 0 where
  -- a BadRequestException, by its message; its code is VALIDATION_FAILED
  bad_request : Text → ReadError
  refused : CapacityRefusal → ReadError
  -- the database refuses the query
  query_refused : ReadError
  -- a property of null
  type_error : ReadError

-- The code that the cursors call: base64url of JSON.stringify's UTF-8 text, and back, which may
-- throw; what the database reads in a bound value as a bigint, a timestamptz and a uuid, where it
-- does; and the text of `created_at` in microseconds.
pub record Codec : Type 0 where
  pub encode : Json → Text
  pub decode : Text → Option Json
  pub bigint_of : Json → Option ℤ
  pub timestamp_of : Json → Option ℤ
  pub uuid_of : Json → Option Text
  pub micros_text : ℤ → Text

abbrev pub decoded : Option Json → Result Json ReadError
decoded (some json) = ok json
decoded none = err (bad_request (codes "The cursor is malformed."))

-- `decodeCursor`
abbrev pub decode_cursor : Codec → Text → Result Json ReadError
decode_cursor codec cursor = decoded (codec.decode cursor)

-- `cursor.<key>`, undefined where there is none.
abbrev pub property : Text → Json → Result (Option Json) ReadError
property key null = err type_error
property key (object ms) = ok (get key ms)
property key _ = ok none

-- A bound value: NULL, or a value of the column's type.
pub data Bound (A : Type 0) : Type 0 where
  unset : Bound A
  at : A → Bound A

abbrev pub bind_some : {A : Type 0} → Option A → Result (Bound A) ReadError
bind_some none = err query_refused
bind_some (some a) = ok (at a)

abbrev pub bind : {A : Type 0} → (Json → Option A) → Option Json → Result (Bound A) ReadError
bind read none = ok unset
bind read (some null) = ok unset
bind read (some j) = bind_some (read j)

-- `boundLimit`
unfoldable pub bound_limit : Option Number → ℕ → ℕ → Result ℕ ReadError
bound_limit none fallback maximum = ok fallback
bound_limit (some fraction) fallback maximum =
    err (bad_request (codes "The limit is out of range."))
bound_limit (some (integer n)) fallback maximum =
    if ltb_ℤ n (pos 1) || ltb_ℤ (pos maximum) n
    then err (bad_request (codes "The limit is out of range."))
    else ok (pos_part n)

pub bound_limit-positive :
    (limit : Option Number) (fallback maximum n : ℕ)
    → 0 < fallback
    → bound_limit limit fallback maximum ≡ ok n
    → 0 < n
unfolding bound_limit
bound_limit-positive none fallback maximum n h e = ground arith
bound_limit-positive (some fraction) fallback maximum n h e = absurd cc
bound_limit-positive (some (integer (pos k))) fallback maximum n h e = ground arith
bound_limit-positive (some (integer (negsuc k))) fallback maximum n h e = ground arith
