-- ===== src/Booked/Rows.antt =====
-- What is outstanding of a program's reservations (src/capacity/application), and how a change of
-- the rows moves it.
use invoice_reservation.Prelude.{
  ◌≡◌, refl, ap, ◌∙◌, Bool, true, false, Bool-cases, inl, inr, none, some, List, [], ◌∷◌, ◌++◌,
  if◌then◌else◌, find, find-none_cons, find-append_none, find-none-update_where, update_where-none,
  update_where, arith,
}
use invoice_reservation.Prelude.Text.{Text, text_eq, text_eq_iff, text_eq_sym}
use invoice_reservation.Prelude.Int.{ℤ, pos, ◌+ℤ◌, ◌-ℤ◌, int_laws}
use invoice_reservation.Policy.Snapshot.{Origin}
use invoice_reservation.Store.Tables.{InvoiceReservation}
use invoice_reservation.Service.Reserve.{has_invoice}
use invoice_reservation.Service.Reconciliation.{is_open, active_outstanding}

abbrev pub booked : Text → List InvoiceReservation → ℤ
booked id [] = pos 0
booked id (r ∷ rs) =
    (if text_eq r.program_id id then r.outstanding_reserved_minor else pos 0) +ℤ booked id rs

-- A reservation of this service, with nothing outstanding once it is closed.
abbrev pub IsRow : InvoiceReservation → Type 0
IsRow r =
    (r.origin ≡ Origin.local) × (is_open r.status ≡ false → r.outstanding_reserved_minor ≡ pos 0)

-- The rows of the table: each invoice of a program has one.
abbrev pub AreRows : List InvoiceReservation → Type 0
AreRows [] = Unit
AreRows (r ∷ rs) = IsRow r × (find (has_invoice r.program_id r.invoice_id) rs ≡ none) × AreRows rs

pub active_outstanding-booked :
    (id : Text) (rs : List InvoiceReservation)
    → AreRows rs
    → active_outstanding id rs ≡ booked id rs
unfolding active_outstanding
active_outstanding-booked id [] h = refl
active_outstanding-booked id (r ∷ rs) ((origin, closed), one, h) =
    elim (Bool-cases (text_eq r.program_id id)) [
      | inr other ↦ rw (other, active_outstanding-booked id rs h) (omega int_laws)
      | inl same ↦ elim (Bool-cases (is_open r.status)) [
        | inl open_row ↦ rw (same, origin, open_row, active_outstanding-booked id rs h) refl
        | inr shut ↦
            rw (same, origin, shut, closed shut, active_outstanding-booked id rs h) (omega int_laws)
      ]
    ]

pub booked-append :
    (id : Text) (rs : List InvoiceReservation) (r : InvoiceReservation)
    → booked id (rs ++ r ∷ [])
      ≡ booked id rs +ℤ (if text_eq r.program_id id then r.outstanding_reserved_minor else pos 0)
booked-append id [] r = omega int_laws
booked-append id (x ∷ rs) r = rw (booked-append id rs r) (omega int_laws)

-- The keys of a row.
has_invoice_sym :
    (r x : InvoiceReservation)
    → has_invoice r.program_id r.invoice_id x ≡ false
    → has_invoice x.program_id x.invoice_id r ≡ false
has_invoice_sym r x h =
    ground (arith, text_eq_sym r.program_id x.program_id, text_eq_sym r.invoice_id x.invoice_id)

pub AreRows-append :
    (r : InvoiceReservation) (rs : List InvoiceReservation)
    → find (has_invoice r.program_id r.invoice_id) rs ≡ none
    → AreRows rs
    → IsRow r
    → AreRows (rs ++ r ∷ [])
unfolding find
AreRows-append r [] h k row = (row, refl, tt)
AreRows-append r (x ∷ rs) h (xrow, one, k) row =
    let (apart, rest) = find-none_cons (has_invoice r.program_id r.invoice_id) x rs h in
    (xrow, find-append_none _ rs r one (has_invoice_sym r x apart), AreRows-append r rs rest k row)

-- An update of a row that keeps its keys.
abbrev pub KeepsKeys : (InvoiceReservation → InvoiceReservation) → Type 0
KeepsKeys f =
    ((r : InvoiceReservation) → (f r).program_id ≡ r.program_id)
    × ((r : InvoiceReservation) → (f r).invoice_id ≡ r.invoice_id)

has_invoice-kept :
    (f : InvoiceReservation → InvoiceReservation)
    → KeepsKeys f
    → (program invoice : Text) (r : InvoiceReservation)
    → has_invoice program invoice (f r) ≡ has_invoice program invoice r
has_invoice-kept f (kp, ki) program invoice r = rw (kp r, ki r) refl

pub AreRows-update_where :
    (t : InvoiceReservation → Bool) (f : InvoiceReservation → InvoiceReservation)
    (rs : List InvoiceReservation)
    → KeepsKeys f
    → ((r : InvoiceReservation) → IsRow r → IsRow (f r))
    → AreRows rs
    → AreRows (update_where t f rs)
unfolding update_where
AreRows-update_where t f [] keys kept h = tt
AreRows-update_where t f (r ∷ rs) keys kept (row, one, h) =
    let later = AreRows-update_where t f rs keys kept h in
    let alone =
      find-none-update_where (has_invoice r.program_id r.invoice_id) t f rs
        (has_invoice-kept f keys r.program_id r.invoice_id) one in
    elim (Bool-cases (t r)) [
      | inl chosen ↦ rw (chosen, keys.0 r, keys.1 r) (kept r row, alone, later)
      | inr other ↦ rw other (row, alone, later)
    ]

pub has_invoice-ids :
    (program invoice : Text) (r : InvoiceReservation)
    → has_invoice program invoice r ≡ true
    → (r.program_id ≡ program) × (r.invoice_id ≡ invoice)
has_invoice-ids program invoice r h = (
  (text_eq_iff r.program_id program).0 (ground arith),
  (text_eq_iff r.invoice_id invoice).0 (ground arith),
)

moved :
    (b : Bool) (x y s : ℤ)
    → (if b then y else pos 0) +ℤ s ≡ (if b then x else pos 0) +ℤ s +ℤ (if b then y -ℤ x else pos 0)
moved true x y s = omega int_laws
moved false x y s = omega int_laws

-- The update of the row that a locked transaction has found.
pub booked-update_where :
    (program invoice id : Text) (f : InvoiceReservation → InvoiceReservation)
    (rs : List InvoiceReservation) (row : InvoiceReservation)
    → KeepsKeys f
    → AreRows rs
    → find (has_invoice program invoice) rs ≡ some row
    → booked id (update_where (has_invoice program invoice) f rs)
      ≡ booked id rs
        +ℤ (if text_eq program id
            then (f row).outstanding_reserved_minor -ℤ row.outstanding_reserved_minor
            else pos 0)
unfolding find update_where
booked-update_where program invoice id f [] row keys h found = cc
booked-update_where program invoice id f (r ∷ rs) row keys (_, one, h) found =
    elim (Bool-cases (has_invoice program invoice r)) [
      | inl hit ↦
          let same : r ≡ row = ground arith in
          let (program_same, invoice_same) = has_invoice-ids program invoice r hit in
          let last : find (has_invoice program invoice) rs ≡ none =
            rw (← program_same, ← invoice_same) one in
          rw (hit, keys.0 r, update_where-none _ f rs last, ← same)
            (moved (text_eq r.program_id id) r.outstanding_reserved_minor
                (f r).outstanding_reserved_minor (booked id rs)
              ∙ ap
                  (λ q.
                    (if text_eq r.program_id id then r.outstanding_reserved_minor else pos 0)
                    +ℤ booked id rs
                    +ℤ (if text_eq q id
                        then (f r).outstanding_reserved_minor -ℤ r.outstanding_reserved_minor
                        else pos 0))
                  program_same)
      | inr miss ↦
          rw (miss, booked-update_where program invoice id f rs row keys h (ground arith))
            (omega int_laws)
    ]

-- An update that changes nothing that counts.
abbrev pub KeepsWorth : (InvoiceReservation → InvoiceReservation) → Type 0
KeepsWorth f =
    (r : InvoiceReservation)
    → ((f r).origin ≡ r.origin)
      × ((f r).status ≡ r.status)
      × ((f r).outstanding_reserved_minor ≡ r.outstanding_reserved_minor)

pub booked-same :
    (t : InvoiceReservation → Bool) (f : InvoiceReservation → InvoiceReservation) (id : Text)
    (rs : List InvoiceReservation)
    → KeepsKeys f
    → KeepsWorth f
    → booked id (update_where t f rs) ≡ booked id rs
unfolding update_where
booked-same t f id [] keys worth = refl
booked-same t f id (r ∷ rs) keys worth =
    let rest = booked-same t f id rs keys worth in
    elim (Bool-cases (t r)) [
      | inl chosen ↦ rw (chosen, keys.0 r, (worth r).2, rest) refl
      | inr other ↦ rw (other, rest) refl
    ]

pub IsRow-kept :
    (f : InvoiceReservation → InvoiceReservation)
    → KeepsWorth f
    → (r : InvoiceReservation) → IsRow r
    → IsRow (f r)
IsRow-kept f worth r (origin, closed) =
    let (o, s, z) = worth r in (o ∙ origin, λ shut. z ∙ closed (rw (← s) shut))
