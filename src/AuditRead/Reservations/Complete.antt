-- ===== src/AuditRead/Reservations/Complete.antt =====
-- src/capacity/application/audit-read.service.ts: to follow the cursors of `listReservations`.
use invoice_reservation.Prelude.{
  ◌≡◌, refl, ap, ◌∙◌, ℕ, suc, ◌≤◌, ◌&&◌, Option, none, some, List, [], ◌∷◌, map, length, take,
  filter, arith,
}
use invoice_reservation.Prelude.Text.{Text, codes, text_eq}
use invoice_reservation.Prelude.Result.{ok, ◌>>=◌, bind_ok}
use invoice_reservation.Position.{Date}
use invoice_reservation.Store.{Database}
use invoice_reservation.Store.Tables.{InvoiceReservation}
use invoice_reservation.Service.Projection.{to_reservation_body}
use invoice_reservation.Stream.Json.{string}
use invoice_reservation.AuditRead.Cursor.{
  Codec, decoded, bind_some, property, Bound, at, bind, bound_limit, bound_limit-positive,
}
use invoice_reservation.AuditRead.Order.{
  order_by, follows, Distinct, order_by-Ordered, order_by-filter_and, length-order_by,
  filter-follows-none,
}
use invoice_reservation.AuditRead.Pages.{page_of, follow_pages}
use invoice_reservation.AuditRead.Follow.{
  AllRows, order_by-AllRows, filter-AllRows, cursor_at, Answers, follow_pages_from,
}
use invoice_reservation.AuditRead.Reservations.{
  ListReservationsQuery, in_listing, CreatedKey, created_key, newest_created, is_before,
  reservation_bound, created_object, created_cursor, reservation_page, list_reservations,
  reservation_default_limit, reservation_max_limit,
}

-- What the cursors rely on: what is encoded is decoded, and the database reads a time's text.
pub record ReadsTimes (codec : Codec) : Type 0 where
  pub decode-encode :
      (created_at id : Text)
      → codec.decode (codec.encode (created_object created_at id))
        ≡ some (created_object created_at id)
  pub timestamp_of-text : (t : Date) → codec.timestamp_of (string (codec.micros_text t)) ≡ some t

-- The text of an id that the database reads as that id.
abbrev pub IsCanonical : Codec → Text → Type 0
IsCanonical codec id = codec.uuid_of (string id) ≡ some id

abbrev Asked : Codec → ℕ → Option CreatedKey → Type 0
Asked codec n none = Unit
Asked codec n (some key) = IsCanonical codec key.1

abbrev bound_of : Option CreatedKey → Option (Bound Date × Bound Text)
bound_of none = none
bound_of (some key) = some (at key.0, at key.1)

reservation_bound-cursor :
    (codec : Codec) (h : ReadsTimes codec) (n : ℕ) (since : Option CreatedKey)
    → Asked codec n since
    → reservation_bound codec (cursor_at (created_cursor codec) since) ≡ ok (bound_of since)
unfolding text_eq
reservation_bound-cursor codec h n none asked = refl
reservation_bound-cursor codec h n (some key) asked =
    ap
      (λ o. decoded o >>= λ json. property (codes "createdAt") json >>= λ created_at.
        property (codes "id") json >>= λ id.
        bind codec.timestamp_of created_at >>= λ t. bind codec.uuid_of id >>= λ i. ok (some (t, i)))
      (h.decode-encode (codec.micros_text key.0) key.1)
    ∙ ap
        (λ o.
          bind_some o >>= λ t. bind_some (codec.uuid_of (string key.1)) >>= λ i. ok (some (t, i)))
        (h.timestamp_of-text key.0)
    ∙ ap (λ o. bind_some o >>= λ i. ok (some (at key.0, i))) asked

abbrev pub listed_rows :
    Text → ListReservationsQuery → List InvoiceReservation → List InvoiceReservation
listed_rows id query rows = order_by newest_created created_key (filter (in_listing id query) rows)

rows_since :
    (id : Text) (query : ListReservationsQuery) (rows : List InvoiceReservation)
    (since : Option CreatedKey)
    → Distinct newest_created created_key (filter (in_listing id query) rows)
    → order_by newest_created created_key
        (filter (λ row. in_listing id query row && is_before (bound_of since) row) rows)
      ≡ filter (follows newest_created created_key since) (listed_rows id query rows)
rows_since id query rows none distinct =
    order_by-filter_and newest_created created_key (in_listing id query) none rows distinct
rows_since id query rows (some k) distinct =
    order_by-filter_and newest_created created_key (in_listing id query) (some k) rows distinct

list_reservations-page :
    (codec : Codec) (id : Text) (query : ListReservationsQuery) (db : Database) (limit : ℕ)
    (cursor : Option Text) (bound : Option (Bound Date × Bound Text))
    → bound_limit query.limit reservation_default_limit reservation_max_limit ≡ ok limit
    → reservation_bound codec cursor ≡ ok bound
    → list_reservations codec id query db cursor
      ≡ ok (reservation_page codec id query db limit bound)
unfolding list_reservations
list_reservations-page codec id query db limit cursor bound h l = bind_ok _ h ∙ bind_ok _ l

answers :
    (codec : Codec) (id : Text) (query : ListReservationsQuery) (db : Database) (limit : ℕ)
    → ReadsTimes codec
    → bound_limit query.limit reservation_default_limit reservation_max_limit ≡ ok limit
    → Distinct newest_created created_key (filter (in_listing id query) db.reservations)
    → Answers newest_created created_key
        (created_cursor codec)
        to_reservation_body
        limit
        (Asked codec)
        (λ n. list_reservations codec id query db)
        (listed_rows id query db.reservations)
answers codec id query db limit reads bounded distinct n since asked =
    list_reservations-page codec id query db limit _ _ bounded
      (reservation_bound-cursor codec reads n since asked)
    ∙ ap
        (λ rows. ok (
          page_of (λ row. created_cursor codec (created_key row)) to_reservation_body limit
            (take (suc limit) rows)))
        (rows_since id query db.reservations since distinct)

-- A client follows the cursors of `listReservations`, the first of them asked for with none, while
-- the table stays as it is. If the rows that the query shows have keys apart, and the database reads
-- the text of each row's id as that id, then as many pages as there are rows are enough, and the
-- client gets all of them, each once, by time and id, the newest first, and no other.
pub list_reservations-follow_pages :
    (codec : Codec) (id : Text) (query : ListReservationsQuery) (n limit : ℕ) (db : Database)
    → ReadsTimes codec
    → bound_limit query.limit reservation_default_limit reservation_max_limit ≡ ok limit
    → AllRows (λ row. IsCanonical codec row.id) db.reservations
    → Distinct newest_created created_key (filter (in_listing id query) db.reservations)
    → length (filter (in_listing id query) db.reservations) ≤ n
    → follow_pages n (λ m. list_reservations codec id query db) none
      ≡ ok (map to_reservation_body (listed_rows id query db.reservations))
list_reservations-follow_pages codec id query n limit db reads bounded canonical distinct short =
    let rows = filter (in_listing id query) db.reservations in
    let s = listed_rows id query db.reservations in
    let all = filter-follows-none newest_created created_key s in
    follow_pages_from newest_created created_key (created_cursor codec) to_reservation_body
      (Asked codec) limit n (λ m. list_reservations codec id query db) s none
      (bound_limit-positive query.limit reservation_default_limit reservation_max_limit limit
        (omega arith) bounded)
      (order_by-Ordered newest_created created_key rows distinct)
      (order_by-AllRows newest_created created_key _ rows (
        filter-AllRows _ (in_listing id query) db.reservations
          (asked_all db.reservations canonical)))
      (answers codec id query db limit reads bounded distinct) tt
      (omega (arith, ap length all, length-order_by newest_created created_key rows, short))
    ∙ ap (λ xs. ok (map to_reservation_body xs)) all
  where
    asked_all :
        (rows : List InvoiceReservation)
        → AllRows (λ row. IsCanonical codec row.id) rows
        → AllRows (λ row. (m : ℕ) → Asked codec m (some (created_key row))) rows
    asked_all [] h = tt
    asked_all (row ∷ rows) h = ((λ m. h.0), asked_all rows h.1)
