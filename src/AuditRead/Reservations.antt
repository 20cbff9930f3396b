-- ===== src/AuditRead/Reservations.antt =====
-- src/capacity/application/audit-read.service.ts: `listReservations` and `getReservation`.
pub mod Complete
use invoice_reservation.Prelude.{
  ◌≡◌, ◌≢◌, refl, ap, ℕ, suc, Bool, true, false, ◌&&◌, ◌||◌, Bool-cases, inl, inr, Option, none,
  some, List, [], ◌∷◌, take, filter, find, ltb, ◌==◌, ==_iff, if◌then◌else◌, arith,
}
use invoice_reservation.Prelude.Text.{Text, codes, text_eq}
use invoice_reservation.Prelude.Int.{ℤ, ltb_ℤ, ◌==ℤ◌, ==ℤ_iff, eq_of_parts}
use invoice_reservation.Prelude.Result.{Result, ok, err, ◌>>=◌}
use invoice_reservation.Errors.{not_found}
use invoice_reservation.Position.{Date}
use invoice_reservation.Policy.Release.{
  ReservationStatus, active, partially_released, fully_released, cancelled, written_off,
}
use invoice_reservation.Store.{Database}
use invoice_reservation.Store.Tables.{InvoiceReservation, ReservationBody}
use invoice_reservation.Service.Projection.{to_reservation_body}
use invoice_reservation.Stream.Json.{Json, Number, string, member, end, object}
use invoice_reservation.AuditRead.Cursor.{
  Codec, ReadError, refused, decode_cursor, property, Bound, unset, at, bind, bound_limit,
}
use invoice_reservation.AuditRead.Order.{Listing, order_by}
use invoice_reservation.AuditRead.Pages.{Page, page_of}

-- `ListReservationsQuery`, without the cursor.
pub record ListReservationsQuery : Type 0 where
  pub status : Option ReservationStatus
  pub limit : Option Number

abbrev pub reservation_default_limit : ℕ
reservation_default_limit = 50

abbrev pub reservation_max_limit : ℕ
reservation_max_limit = 200

-- `ReservationStatus`, as the column holds it.
abbrev pub status_text : ReservationStatus → Text
status_text active = codes "ACTIVE"
status_text partially_released = codes "PARTIALLY_RELEASED"
status_text fully_released = codes "FULLY_RELEASED"
status_text cancelled = codes "CANCELLED"
status_text written_off = codes "WRITTEN_OFF"

abbrev pub has_status : Option ReservationStatus → ReservationStatus → Bool
has_status none s = true
has_status (some status) s = text_eq (status_text s) (status_text status)

-- The conditions of the query, but for the cursor's.
unfoldable pub in_listing : Text → ListReservationsQuery → InvoiceReservation → Bool
in_listing id query row = text_eq row.program_id id && has_status query.status row.status

abbrev pub CreatedKey : Type 0
CreatedKey = ℤ × Text

abbrev pub created_key : InvoiceReservation → CreatedKey
created_key row = (row.created_at, row.id)

-- The order of ids, which is that of their canonical texts.
unfoldable pub text_ltb : Text → Text → Bool
text_ltb [] [] = false
text_ltb [] (d ∷ t) = true
text_ltb (c ∷ s) [] = false
text_ltb (c ∷ s) (d ∷ t) = let rest = text_ltb s t in ltb c d || c == d && rest

-- `(created_at, id) < (…, …)`
unfoldable pub key_ltb : CreatedKey → CreatedKey → Bool
unfolding text_ltb
key_ltb (a, s) (b, t) = ltb_ℤ a b || a ==ℤ b && text_ltb s t

text_ltb_irrefl : (s : Text) → text_ltb s s ≡ false
unfolding text_ltb
text_ltb_irrefl [] = refl
text_ltb_irrefl (c ∷ s) = ground (arith, text_ltb_irrefl s)

text_ltb_trans : (s t u : Text) → text_ltb s t ≡ true → text_ltb t u ≡ true → text_ltb s u ≡ true
unfolding text_ltb
text_ltb_trans [] [] u h k = absurd cc
text_ltb_trans [] (d ∷ t) [] h k = absurd cc
text_ltb_trans [] (d ∷ t) (e ∷ u) h k = refl
text_ltb_trans (c ∷ s) [] u h k = absurd cc
text_ltb_trans (c ∷ s) (d ∷ t) [] h k = absurd cc
text_ltb_trans (c ∷ s) (d ∷ t) (e ∷ u) h k = ground (arith, text_ltb_trans s t u)

text_ltb_connex : (s t : Text) → text_ltb s t ≡ false → s ≢ t → text_ltb t s ≡ true
unfolding text_ltb
text_ltb_connex [] [] h apart = absurd (apart refl)
text_ltb_connex [] (d ∷ t) h apart = absurd cc
text_ltb_connex (c ∷ s) [] h apart = refl
text_ltb_connex (c ∷ s) (d ∷ t) h apart = elim (Bool-cases (c == d)) [
  | inr other ↦ ground arith
  | inl same ↦
      let eq : c ≡ d = (==_iff c d).0 same in
      let rest : s ≢ t = λ e. apart (cc) in
      let low : text_ltb s t ≡ false = ground arith in ground (arith, text_ltb_connex s t low rest)
]

pub key_irrefl : (a : CreatedKey) → key_ltb a a ≡ false
unfolding key_ltb
key_irrefl (a, s) = ground (arith, text_ltb_irrefl s)

pub key_trans : (a b c : CreatedKey) → key_ltb b a ≡ true → key_ltb c b ≡ true → key_ltb c a ≡ true
unfolding key_ltb
key_trans (a, s) (b, t) (c, u) h k = ground (arith, text_ltb_trans u t s)

pub key_connex : (a b : CreatedKey) → key_ltb b a ≡ false → a ≢ b → key_ltb a b ≡ true
unfolding key_ltb
key_connex (a, s) (b, t) h apart = elim (Bool-cases (a ==ℤ b)) [
  | inr other ↦ ground arith
  | inl same ↦
      let eq : a ≡ b = (==ℤ_iff a b).0 same in
      let rest : t ≢ s = λ e. apart (cc) in
      let low : text_ltb t s ≡ false = ground arith in ground (arith, text_ltb_connex t s low rest)
]

-- `created_at DESC, id DESC`
abbrev pub newest_created : Listing CreatedKey
newest_created = record {
  precedes = λ a b. key_ltb b a;
  precedes_irrefl = key_irrefl;
  precedes_trans = key_trans;
  precedes_connex = key_connex;
}

-- A comparison of rows with NULL: a NULL time decides nothing, and a NULL id only where the times
-- differ.
abbrev pub is_before : Option (Bound Date × Bound Text) → InvoiceReservation → Bool
is_before none row = true
is_before (some (unset, id)) row = false
is_before (some (at t, unset)) row = ltb_ℤ row.created_at t
is_before (some (at t, at id)) row = key_ltb (created_key row) (t, id)

abbrev pub reservation_bound :
    Codec → Option Text → Result (Option (Bound Date × Bound Text)) ReadError
reservation_bound codec none = ok none
reservation_bound codec (some cursor) = decode_cursor codec cursor >>= λ json.
    property (codes "createdAt") json >>= λ created_at. property (codes "id") json >>= λ id.
    bind codec.timestamp_of created_at >>= λ t. bind codec.uuid_of id >>= λ i. ok (some (t, i))

-- `{ createdAt: last.created_at_cursor, id: last.id }`
abbrev pub created_object : Text → Text → Json
created_object created_at id =
    object (member (codes "createdAt") (string created_at) (member (codes "id") (string id) end))

-- `encodeCursor`
abbrev pub created_cursor : Codec → CreatedKey → Text
created_cursor codec (t, id) = codec.encode (created_object (codec.micros_text t) id)

abbrev pub reservation_page :
    Codec
    → Text
    → ListReservationsQuery
    → Database
    → ℕ
    → Option (Bound Date × Bound Text)
    → Page ReservationBody
reservation_page codec id query db limit bound =
    page_of (λ row. created_cursor codec (created_key row)) to_reservation_body limit
      (take (suc limit) (
        order_by newest_created created_key
          (filter (λ row. in_listing id query row && is_before bound row) db.reservations)))

unfoldable pub list_reservations :
    Codec
    → Text
    → ListReservationsQuery
    → Database
    → Option Text
    → Result (Page ReservationBody) ReadError
list_reservations codec id query db cursor =
    bound_limit query.limit reservation_default_limit reservation_max_limit >>= λ limit.
    reservation_bound codec cursor >>= λ bound. ok (reservation_page codec id query db limit bound)

abbrev is_invoice : Text → Text → InvoiceReservation → Bool
is_invoice program_id invoice_id row =
    text_eq row.program_id program_id && text_eq row.invoice_id invoice_id

unfoldable pub get_reservation : Text → Text → Database → Result ReservationBody ReadError
get_reservation program_id invoice_id db =
    elim (find (is_invoice program_id invoice_id) db.reservations) [
      | none ↦ err (refused (record { code = not_found; details = none }))
      | some row ↦ ok (to_reservation_body row)
    ]
