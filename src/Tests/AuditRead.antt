-- ===== src/Tests/AuditRead.antt =====
-- Concrete pages of src/capacity/application/audit-read.service.ts, and a codec for their cursors.
use invoice_reservation.Prelude.{
  ◌≡◌, refl, ap, ◌∙◌, ℕ, zero, suc, ◌++◌, Bool, true, false, Option, none, some, [], ◌∷◌, map,
  length, filter, take, drop, find, arith,
}
use invoice_reservation.Prelude.Text.{Text, codes, text_eq}
use invoice_reservation.Prelude.Decimal.{show_ℤ, show_ℕ}
use invoice_reservation.Prelude.Int.{ℤ, pos, negsuc, minus}
use invoice_reservation.Prelude.Result.{ok}
use invoice_reservation.Money.{number_from, all_digits}
use invoice_reservation.Money.Decimal.{strip_minus}
use invoice_reservation.Money.Decimal.Digits.{
  number_from-show_ℕ, all_digits-show_ℕ, strip_minus-all_digits,
}
use invoice_reservation.Position.{PositionComponent, LedgerCause}
use invoice_reservation.Store.{Database, find_program}
use invoice_reservation.Store.Tables.{InvoiceReservation}
use invoice_reservation.Stream.Json.{Json, integer, string, object, member, end}
use invoice_reservation.AuditRead.Cursor.{Codec, bound_limit}
use invoice_reservation.AuditRead.Pages.{follow_pages}
use invoice_reservation.AuditRead.Ledger.{
  ListLedgerQuery, program_currency, in_ledger, list_ledger, ledger_body,
}
use invoice_reservation.AuditRead.Ledger.Complete.{
  ReadsSequences, Appended, ledger_rows, list_ledger-follow_pages,
}
use invoice_reservation.AuditRead.Reservations.{
  ListReservationsQuery, in_listing, list_reservations, created_object,
}
use invoice_reservation.AuditRead.Reservations.Complete.{
  ReadsTimes, listed_rows, list_reservations-follow_pages,
}
use invoice_reservation.Service.Projection.{to_reservation_body}
use invoice_reservation.Policy.Release.{active}
use invoice_reservation.Policy.Snapshot.{Origin}
use invoice_reservation.Tests.{database, opening}

abbrev signed : Bool × Text → ℤ
signed (true, t) = minus (number_from 0 t)
signed (false, t) = pos (number_from 0 t)

abbrev read_integer : Json → Option ℤ
read_integer (string t) = some (signed (strip_minus t))
read_integer _ = none

-- The two texts of an object, the length of the first before them.
abbrev encode : Json → Text
encode (object (member k (string s) end)) = 0 ∷ s
encode (object (member k (string s) (member l (string t) end))) = suc (length s) ∷ s ++ t
encode _ = []

abbrev decode : Text → Option Json
decode [] = none
decode (zero ∷ t) = some (object (member (codes "sequence") (string t) end))
decode (suc n ∷ t) = some (
    object (
      member (codes "createdAt") (string (take n t)) (member (codes "id") (string (drop n t)) end)))

abbrev read_id : Json → Option Text
read_id (string t) = some t
read_id _ = none

abbrev pub codec : Codec
codec = record {
  encode = encode;
  decode = decode;
  bigint_of = read_integer;
  timestamp_of = read_integer;
  uuid_of = read_id;
  micros_text = show_ℤ;
}

read_digits :
    (t : Text) → all_digits t ≡ true → read_integer (string t) ≡ some (pos (number_from 0 t))
read_digits t h = ap (λ p. some (signed p)) (strip_minus-all_digits t h)

show_pos : (n : ℕ) → show_ℤ (pos n) ≡ show_ℕ n
unfolding show_ℤ
show_pos n = refl

show_negsuc : (n : ℕ) → show_ℤ (negsuc n) ≡ b'-' ∷ show_ℕ (suc n)
unfolding show_ℤ
show_negsuc n = refl

read_integer-show_ℤ : (n : ℤ) → read_integer (string (show_ℤ n)) ≡ some n
read_integer-show_ℤ (pos n) =
    ap (λ t. read_integer (string t)) (show_pos n)
    ∙ read_digits (show_ℕ n) (all_digits-show_ℕ n)
    ∙ ap (λ k. some (pos k)) (number_from-show_ℕ n)
read_integer-show_ℤ (negsuc n) =
    ap (λ t. read_integer (string t)) (show_negsuc n)
    ∙ ap (λ k. some (minus k)) (number_from-show_ℕ (suc n))

reads_sequences : ReadsSequences codec
reads_sequences = record { decode-encode = λ n. refl; bigint_of-text = read_integer-show_ℤ }

abbrev ledger_query : ListLedgerQuery
ledger_query = record { from = none; to = none; cause = none; limit = some (integer (pos 1)) }

-- A row that a service appends while the pages are read.
abbrev grown : Database
grown = record database {
  ledger =
      database.ledger
      ++ opening PositionComponent.local LedgerCause.reservation (pos 3) (pos 2) ∷ [];
}

abbrev databases : ℕ → Database
databases (suc (suc n)) = database
databases _ = grown

list_ledger-follow_pages_example :
    follow_pages 2 (λ n. list_ledger codec (codes "p") ledger_query (databases n)) none
    ≡ ok (map (ledger_body (codes "EUR")) (ledger_rows (codes "p") ledger_query database.ledger))
unfolding bound_limit find_program find in_ledger filter text_eq
list_ledger-follow_pages_example =
    list_ledger-follow_pages codec (codes "p") ledger_query (pos 2) 2 1 (codes "EUR") databases
      reads_sequences refl priced appended (((λ e. (cc)), tt), (tt, tt)) (omega arith)
  where
    priced : (n : ℕ) → program_currency (codes "p") (databases n) ≡ ok (codes "EUR")
    priced zero = refl
    priced (suc zero) = refl
    priced (suc (suc n)) = refl

    appended : (n : ℕ) → Appended (codes "p") (pos 2) database.ledger (databases n).ledger
    appended zero = record {
      rows = opening PositionComponent.local LedgerCause.reservation (pos 3) (pos 2) ∷ [];
      appends = refl;
      older = (refl, (refl, tt));
      newer = (refl, tt);
    }
    appended (suc zero) = record {
      rows = opening PositionComponent.local LedgerCause.reservation (pos 3) (pos 2) ∷ [];
      appends = refl;
      older = (refl, (refl, tt));
      newer = (refl, tt);
    }
    appended (suc (suc n)) = record {
      rows = [];
      appends = refl;
      older = (refl, (refl, tt));
      newer = tt;
    }

take-append : (s t : Text) → take (length s) (s ++ t) ≡ s
take-append [] t = refl
take-append (c ∷ s) t = ap (λ u. c ∷ u) (take-append s t)

drop-append : (s t : Text) → drop (length s) (s ++ t) ≡ t
drop-append [] t = refl
drop-append (c ∷ s) t = drop-append s t

reads_times : ReadsTimes codec
reads_times = record {
  decode-encode = λ s t.
      ap (λ u. some (created_object u (drop (length s) (s ++ t)))) (take-append s t)
      ∙ ap (λ u. some (created_object s u)) (drop-append s t);
  timestamp_of-text = read_integer-show_ℤ;
}

abbrev listing_query : ListReservationsQuery
listing_query = record { status = none; limit = some (integer (pos 1)) }

abbrev held : InvoiceReservation
held = record {
  id = codes "r";
  program_id = codes "p";
  invoice_id = codes "i1";
  invoice_amount_minor = pos 20;
  invoice_currency = codes "EUR";
  program_currency = codes "EUR";
  reserved_minor = pos 20;
  outstanding_invoice_minor = pos 20;
  outstanding_reserved_minor = pos 20;
  fx_rate = none;
  fx_rate_effective_at = none;
  fx_rate_source = none;
  status = active;
  origin = Origin.local;
  treasury_acknowledged = false;
  acknowledged_by_version = none;
  treasury_reference = none;
  confirmed_at = pos 7;
  created_at = pos 7;
  updated_at = pos 7;
}

-- Two reservations of one instant.
abbrev listed : Database
listed = record database {
  reservations = held ∷ (record held { id = codes "r2"; invoice_id = codes "i2" }) ∷ [];
}

list_reservations-follow_pages_example :
    follow_pages 2 (λ n. list_reservations codec (codes "p") listing_query listed) none
    ≡ ok (map to_reservation_body (listed_rows (codes "p") listing_query listed.reservations))
unfolding bound_limit in_listing filter text_eq
list_reservations-follow_pages_example =
    list_reservations-follow_pages codec (codes "p") listing_query 2 1 listed reads_times refl
      (refl, (refl, tt)) (((λ e. (cc)), tt), (tt, tt)) (omega arith)
