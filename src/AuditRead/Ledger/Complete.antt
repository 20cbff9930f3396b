-- ===== src/AuditRead/Ledger/Complete.antt =====
-- src/capacity/application/audit-read.service.ts: to follow the cursors of `listLedger`, while the
-- services append entries.
use mathlib.Core.List.{append-nil}
use invoice_reservation.Prelude.{
  ◌≡◌, refl, ap, ◌∙◌, ℕ, suc, ◌≤◌, true, false, ◌&&◌, Bool-cases, inl, inr, Option, none, some,
  List, [], ◌∷◌, ◌++◌, map, length, take, filter, filter-append, arith,
}
use invoice_reservation.Prelude.Text.{Text, codes, text_eq}
use invoice_reservation.Prelude.Decimal.{show_ℤ}
use invoice_reservation.Prelude.Int.{ℤ, ltb_ℤ, leb_ℤ}
use invoice_reservation.Prelude.Result.{ok, ◌>>=◌, bind_ok}
use invoice_reservation.Store.{Database}
use invoice_reservation.Store.Tables.{LedgerRow}
use invoice_reservation.Stream.Json.{string}
use invoice_reservation.AuditRead.Cursor.{
  Codec, decoded, bind_some, property, Bound, at, bind, bound_limit, bound_limit-positive,
}
use invoice_reservation.AuditRead.Order.{
  order_by, follows, Distinct, order_by-Ordered, order_by-filter_and, length-order_by,
  filter-follows-none,
}
use invoice_reservation.AuditRead.Pages.{Page, page_of, follow_pages}
use invoice_reservation.AuditRead.Follow.{
  AllRows, order_by-AllRows, cursor_at, Answers, follow_pages_from,
}
use invoice_reservation.AuditRead.Ledger.{
  ListLedgerQuery, LedgerEntryBody, in_ledger, sequence_of, newest_sequence, is_below, ledger_bound,
  sequence_object, sequence_cursor, ledger_body, program_currency, ledger_page, list_ledger,
  ledger_default_limit, ledger_max_limit,
}

-- What the cursors rely on: what is encoded is decoded, and the database reads a bigint's text.
pub record ReadsSequences (codec : Codec) : Type 0 where
  pub decode-encode :
      (n : ℤ) → codec.decode (codec.encode (sequence_object n)) ≡ some (sequence_object n)
  pub bigint_of-text : (n : ℤ) → codec.bigint_of (string (show_ℤ n)) ≡ some n

abbrev bound_of : Option ℤ → Option (Bound ℤ)
bound_of none = none
bound_of (some n) = some (at n)

ledger_bound-cursor :
    (codec : Codec) (h : ReadsSequences codec) (since : Option ℤ)
    → ledger_bound codec (cursor_at (sequence_cursor codec) since) ≡ ok (bound_of since)
unfolding text_eq
ledger_bound-cursor codec h none = refl
ledger_bound-cursor codec h (some n) =
    ap
      (λ o. decoded o >>= λ json. property (codes "sequence") json >>= λ value.
        bind codec.bigint_of value >>= λ bound. ok (some bound))
      (h.decode-encode n)
    ∙ ap (λ o. bind_some o >>= λ bound. ok (some bound)) (h.bigint_of-text n)

-- The table `ledger` with the rows that were appended since: those of the program are numbered from
-- `next`, and the ones that were there before stay below it.
pub record Appended (id : Text) (next : ℤ) (before ledger : List LedgerRow) : Type 0 where
  pub rows : List LedgerRow
  pub appends : ledger ≡ before ++ rows
  pub older :
      AllRows (λ row. (text_eq row.program_id id && leb_ℤ next (sequence_of row)) ≡ false) before
  pub newer :
      AllRows (λ row. (text_eq row.program_id id && ltb_ℤ (sequence_of row) next) ≡ false) rows

not_shown :
    (id : Text) (query : ListLedgerQuery) (next k : ℤ) (row : LedgerRow)
    → ltb_ℤ k next ≡ true
    → (text_eq row.program_id id && ltb_ℤ (sequence_of row) next) ≡ false
    → (in_ledger id query row && is_below (some (at k)) row) ≡ false
unfolding in_ledger
not_shown id query next k row h newer = elim (Bool-cases (text_eq row.program_id id)) [
  | inr other ↦ rw other refl
  | inl own ↦ elim (Bool-cases (ltb_ℤ (sequence_of row) k)) [
    | inl low ↦ ground arith
    | inr high ↦ ground arith
  ]
]

-- A cursor at an old row shows none of the appended ones.
filter-newer :
    (id : Text) (query : ListLedgerQuery) (next k : ℤ) (rows : List LedgerRow)
    → ltb_ℤ k next ≡ true
    → AllRows (λ row. (text_eq row.program_id id && ltb_ℤ (sequence_of row) next) ≡ false) rows
    → filter (λ row. in_ledger id query row && is_below (some (at k)) row) rows ≡ []
unfolding filter
filter-newer id query next k [] h newer = refl
filter-newer id query next k (row ∷ rows) h newer =
    let rest = filter-newer id query next k rows h newer.1 in
    let out : (in_ledger id query row && is_below (some (at k)) row) ≡ false =
      not_shown id query next k row h newer.0 in
    rw out rest

-- `none` may be asked for at the first call, a key below `next` at any.
abbrev Asked : ℤ → ℕ → ℕ → Option ℤ → Type 0
Asked next first n none = n ≡ first
Asked next first n (some k) = ltb_ℤ k next ≡ true

abbrev pub ledger_rows : Text → ListLedgerQuery → List LedgerRow → List LedgerRow
ledger_rows id query ledger =
    order_by newest_sequence sequence_of (filter (in_ledger id query) ledger)

shown_below :
    (id : Text) (query : ListLedgerQuery) (next : ℤ) (row : LedgerRow)
    → (text_eq row.program_id id && leb_ℤ next (sequence_of row)) ≡ false
    → in_ledger id query row ≡ true
    → ltb_ℤ (sequence_of row) next ≡ true
unfolding in_ledger
shown_below id query next row h shown = elim (Bool-cases (text_eq row.program_id id)) [
  | inl own ↦ ground arith
  | inr other ↦ ground arith
]

-- Each row that is shown may be asked for.
rows_below :
    (id : Text) (query : ListLedgerQuery) (next : ℤ) (first : ℕ) (rows : List LedgerRow)
    → AllRows (λ row. (text_eq row.program_id id && leb_ℤ next (sequence_of row)) ≡ false) rows
    → AllRows
        (λ row. (n : ℕ) → Asked next first n (some (sequence_of row)))
        (filter (in_ledger id query) rows)
unfolding filter
rows_below id query next first [] h = tt
rows_below id query next first (row ∷ rows) h =
    let rest = rows_below id query next first rows h.1 in
    elim (Bool-cases (in_ledger id query row)) [
      | inl shown ↦ rw shown ((λ n. shown_below id query next row h.0 shown), rest)
      | inr hidden ↦ rw hidden rest
    ]

-- The rows of a query with a cursor on the table as it was.
rows_since :
    (id : Text) (query : ListLedgerQuery) (before : List LedgerRow) (since : Option ℤ)
    → Distinct newest_sequence sequence_of (filter (in_ledger id query) before)
    → order_by newest_sequence sequence_of
        (filter (λ row. in_ledger id query row && is_below (bound_of since) row) before)
      ≡ filter (follows newest_sequence sequence_of since) (ledger_rows id query before)
rows_since id query before none distinct =
    order_by-filter_and newest_sequence sequence_of (in_ledger id query) none before distinct
rows_since id query before (some k) distinct =
    order_by-filter_and newest_sequence sequence_of (in_ledger id query) (some k) before distinct

-- What was appended changes no page that an old row's cursor asks for.
rows_since_later :
    (id : Text) (query : ListLedgerQuery) (next k : ℤ) (before ledger : List LedgerRow)
    → Appended id next before ledger
    → ltb_ℤ k next ≡ true
    → filter (λ row. in_ledger id query row && is_below (some (at k)) row) ledger
      ≡ filter (λ row. in_ledger id query row && is_below (some (at k)) row) before
rows_since_later id query next k before ledger a h =
    let shown = λ (row : LedgerRow). in_ledger id query row && is_below (some (at k)) row in
    ap (filter shown) a.appends
    ∙ filter-append shown before a.rows
    ∙ ap (λ rows. filter shown before ++ rows) (filter-newer id query next k a.rows h a.newer)
    ∙ append-nil (filter shown before)

list_ledger-page :
    (codec : Codec) (id : Text) (query : ListLedgerQuery) (db : Database) (limit : ℕ)
    (currency : Text) (cursor : Option Text) (bound : Option (Bound ℤ))
    → bound_limit query.limit ledger_default_limit ledger_max_limit ≡ ok limit
    → program_currency id db ≡ ok currency
    → ledger_bound codec cursor ≡ ok bound
    → list_ledger codec id query db cursor ≡ ok (ledger_page codec id query db limit currency bound)
unfolding list_ledger
list_ledger-page codec id query db limit currency cursor bound h k l =
    bind_ok _ h ∙ bind_ok _ k ∙ bind_ok _ l

module _ (codec : Codec) (id : Text) (query : ListLedgerQuery) (next : ℤ) (first limit : ℕ)
    (currency : Text) (dbs : ℕ → Database) where
  abbrev shown : List LedgerRow → Page LedgerEntryBody
  shown = page_of (λ row. sequence_cursor codec (sequence_of row)) (ledger_body currency) limit

  answers :
      ReadsSequences codec
      → bound_limit query.limit ledger_default_limit ledger_max_limit ≡ ok limit
      → ((n : ℕ) → program_currency id (dbs n) ≡ ok currency)
      → ((n : ℕ) → Appended id next (dbs first).ledger (dbs n).ledger)
      → Distinct newest_sequence sequence_of (filter (in_ledger id query) (dbs first).ledger)
      → Answers newest_sequence sequence_of
          (sequence_cursor codec)
          (ledger_body currency)
          limit
          (Asked next first)
          (λ n. list_ledger codec id query (dbs n))
          (ledger_rows id query (dbs first).ledger)
  answers reads bounded priced appended distinct n none asked =
      list_ledger-page codec id query (dbs n) limit currency none none bounded (priced n) refl
      ∙ ap (λ db. ok (ledger_page codec id query db limit currency none)) (ap dbs asked)
      ∙ ap (λ rows. ok (shown (take (suc limit) rows)))
          (rows_since id query (dbs first).ledger none distinct)
  answers reads bounded priced appended distinct n (some k) asked =
      list_ledger-page codec id query (dbs n) limit currency _ _ bounded (priced n)
        (ledger_bound-cursor codec reads (some k))
      ∙ ap (λ rows. ok (shown (take (suc limit) (order_by newest_sequence sequence_of rows))))
          (rows_since_later id query next k (dbs first).ledger (dbs n).ledger (appended n) asked)
      ∙ ap (λ rows. ok (shown (take (suc limit) rows)))
          (rows_since id query (dbs first).ledger (some k) distinct)

-- A client follows the cursors of `listLedger`, the first of them asked for with none; the services
-- append entries between the calls, and `dbs n` is the database where `n` more pages may come. If
-- the program's rows before the first call are numbered apart and below `next`, and what is appended
-- is numbered from `next`, then as many pages as there are rows are enough, and the client gets the
-- rows that the first database has for the query, each once, the newest first, and no other.
pub list_ledger-follow_pages :
    (codec : Codec) (id : Text) (query : ListLedgerQuery) (next : ℤ) (first limit : ℕ)
    (currency : Text) (dbs : ℕ → Database)
    → ReadsSequences codec
    → bound_limit query.limit ledger_default_limit ledger_max_limit ≡ ok limit
    → ((n : ℕ) → program_currency id (dbs n) ≡ ok currency)
    → ((n : ℕ) → Appended id next (dbs first).ledger (dbs n).ledger)
    → Distinct newest_sequence sequence_of (filter (in_ledger id query) (dbs first).ledger)
    → length (filter (in_ledger id query) (dbs first).ledger) ≤ first
    → follow_pages first (λ n. list_ledger codec id query (dbs n)) none
      ≡ ok (map (ledger_body currency) (ledger_rows id query (dbs first).ledger))
list_ledger-follow_pages codec id query next first limit currency dbs reads bounded priced appended
      distinct short =
    let rows = filter (in_ledger id query) (dbs first).ledger in
    let s = ledger_rows id query (dbs first).ledger in
    let all = filter-follows-none newest_sequence sequence_of s in
    follow_pages_from newest_sequence sequence_of (sequence_cursor codec) (ledger_body currency)
      (Asked next first) limit first (λ n. list_ledger codec id query (dbs n)) s none
      (bound_limit-positive query.limit ledger_default_limit ledger_max_limit limit (omega arith)
        bounded)
      (order_by-Ordered newest_sequence sequence_of rows distinct)
      (order_by-AllRows newest_sequence sequence_of _ rows
        (rows_below id query next first (dbs first).ledger (appended first).older))
      (answers codec id query next first limit currency dbs reads bounded priced appended distinct)
      refl (omega (arith, ap length all, length-order_by newest_sequence sequence_of rows, short))
    ∙ ap (λ xs. ok (map (ledger_body currency) xs)) all
