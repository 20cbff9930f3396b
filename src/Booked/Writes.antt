-- ===== src/Booked/Writes.antt =====
-- The writes of src/capacity/application to a program's row and to its reservations.
use invoice_reservation.Prelude.{
  ◌≡◌, refl, sym, ap, ◌∙◌, Bool, true, false, Bool-cases, inl, inr, some, List, [], ◌∷◌,
  if◌then◌else◌, find, update_where, arith,
}
use invoice_reservation.Prelude.Text.{Text, text_eq, text_eq_iff, text_eq_sym, text_ne_sym}
use invoice_reservation.Prelude.Int.{ℤ, pos, ◌+ℤ◌, int_laws, +ℤ_zero}
use invoice_reservation.Prelude.Result.{Result, ok, err}
use invoice_reservation.Money.{MoneyError}
use invoice_reservation.Position.{Date, ProgramPosition, AdvanceResult}
use invoice_reservation.Store.{
  Database, Tx, has_id, write_position, persist_advance, gets, lift_money,
}
use invoice_reservation.Store.Tables.{ProgramEntity, InvoiceReservation}
use invoice_reservation.Store.Triples.{
  ends, fails, Triple, bind_triple, check_triple, check_unique_triple, modify_triple, gets_triple,
}
use invoice_reservation.Booked.Rows.{booked, AreRows}

-- Each program's local component, with `d` added for the program `id`, is what its reservations
-- have outstanding.
abbrev pub Off : Text → ℤ → List InvoiceReservation → List ProgramEntity → Type 0
Off id d rs [] = Unit
Off id d rs (p ∷ ps) =
    (p.local_reserved_minor +ℤ (if text_eq id p.id then d else pos 0) ≡ booked p.id rs)
    × Off id d rs ps

abbrev pub Agree : List InvoiceReservation → List ProgramEntity → Type 0
Agree rs [] = Unit
Agree rs (p ∷ ps) = (p.local_reserved_minor ≡ booked p.id rs) × Agree rs ps

-- The invariant: each local component is what the program's reservations have outstanding.
abbrev pub IsBooked : Database → Type 0
IsBooked db = AreRows db.reservations × Agree db.reservations db.programs

zero_either : (b : Bool) (x : ℤ) → x +ℤ (if b then pos 0 else pos 0) ≡ x
zero_either true x = +ℤ_zero x
zero_either false x = +ℤ_zero x

pub Agree-Off :
    (id : Text) (rs : List InvoiceReservation) (ps : List ProgramEntity)
    → Agree rs ps
    → Off id (pos 0) rs ps
Agree-Off id rs [] h = tt
Agree-Off id rs (p ∷ ps) (h, k) =
    (zero_either (text_eq id p.id) p.local_reserved_minor ∙ h, Agree-Off id rs ps k)

pub Off-Agree :
    (id : Text) (d : ℤ) (rs : List InvoiceReservation) (ps : List ProgramEntity)
    → d ≡ pos 0
    → Off id d rs ps
    → Agree rs ps
Off-Agree id d rs [] z h = tt
Off-Agree id d rs (p ∷ ps) z (h, k) = (
  sym (zero_either (text_eq id p.id) p.local_reserved_minor)
      ∙ ap (λ x. p.local_reserved_minor +ℤ (if text_eq id p.id then x else pos 0)) (sym z)
      ∙ h,
  Off-Agree id d rs ps z k,
)

-- The rows move by `e`.
pub Off-rows :
    (id : Text) (d e : ℤ) (rs rs' : List InvoiceReservation) (ps : List ProgramEntity)
    → ((other : Text)
        → booked other rs' ≡ booked other rs +ℤ (if text_eq id other then e else pos 0))
    → Off id d rs ps
    → Off id (d +ℤ e) rs' ps
Off-rows id d e rs rs' [] move h = tt
Off-rows id d e rs rs' (p ∷ ps) move (h, k) = (
  added (text_eq id p.id) p.local_reserved_minor d e
      ∙ ap (λ t. t +ℤ (if text_eq id p.id then e else pos 0)) h
      ∙ sym (move p.id),
  Off-rows id d e rs rs' ps move k,
)
  where
    added :
        (b : Bool) (x y z : ℤ)
        → x +ℤ (if b then y +ℤ z else pos 0)
          ≡ x +ℤ (if b then y else pos 0) +ℤ (if b then z else pos 0)
    added true x y z = omega int_laws
    added false x y z = omega int_laws

pub Agree-find :
    (id : Text) (rs : List InvoiceReservation) (ps : List ProgramEntity) (p : ProgramEntity)
    → Agree rs ps
    → find (has_id id) ps ≡ some p
    → (p.id ≡ id) × (p.local_reserved_minor ≡ booked id rs)
unfolding find
Agree-find id rs [] p h found = cc
Agree-find id rs (q ∷ ps) p (h, k) found = elim (Bool-cases (text_eq q.id id)) [
  | inl hit ↦
      let same : q ≡ p = ground arith in
      let qid : q.id ≡ id = (text_eq_iff q.id id).0 hit in
      (ap (λ (x : ProgramEntity). x.id) (sym same) ∙ qid, rw (← same, ← qid) h)
  | inr miss ↦ Agree-find id rs ps p k (ground arith)
]

-- The position of the program `id` is written.
pub Off-write :
    (id : Text) (d d' : ℤ) (rs : List InvoiceReservation) (ps : List ProgramEntity)
    (new : ProgramPosition) (now : Date)
    → new.local_reserved_minor +ℤ d' ≡ booked id rs
    → Off id d rs ps
    → Off id d' rs (update_where (has_id id) (write_position new now) ps)
unfolding update_where
Off-write id d d' rs [] new now fits h = tt
Off-write id d d' rs (p ∷ ps) new now fits (h, k) = elim (Bool-cases (text_eq p.id id)) [
  | inl hit ↦ rw hit (
    rw (text_eq_sym p.id id hit) (fits ∙ ap (λ x. booked x rs) (sym ((text_eq_iff p.id id).0 hit))),
    Off-write id d d' rs ps new now fits k,
  )
  | inr miss ↦ rw miss (
    rw (text_ne_sym p.id id miss) (
        ap (λ b. p.local_reserved_minor +ℤ (if b then d else pos 0))
          (sym (text_ne_sym p.id id miss))
        ∙ h),
    Off-write id d d' rs ps new now fits k,
  )
]

-- `Off` and the rows' own facts, for the database.
abbrev pub IsOff : Text → ℤ → Database → Type 0
IsOff id d db = AreRows db.reservations × Off id d db.reservations db.programs

-- The position is written while the rows, and what is known of them, stay.
pub persist_advance-IsOff :
    (Q : List InvoiceReservation → Type 0) (reconciling : Bool) (id : Text) (d d' : ℤ)
    (old : ProgramPosition) (r : AdvanceResult) (now : Date) {P : Database → Type 0}
    → ((db : Database)
        → P db
        → IsOff id d db
          × (r.program.local_reserved_minor +ℤ d' ≡ booked id db.reservations)
          × Q db.reservations)
    → Triple P
        (persist_advance reconciling old id r now)
        (λ _ db. IsOff id d' db × Q db.reservations)
unfolding persist_advance
persist_advance-IsOff Q reconciling id d d' old r now {P} h = bind_triple _ _ (check_triple _) λ _.
    bind_triple _ _ (gets_triple _) λ rows. bind_triple _ _ (check_unique_triple _) λ _.
      bind_triple _ _ (modify_triple {Q = Mid} _ (λ db k. h db k)) λ _.
        bind_triple _ _ (check_triple _) λ _. bind_triple _ _ (check_triple _) λ _.
          modify_triple _ λ db k.
            ((k.0.0, Off-write id d d' db.reservations db.programs r.program now k.1 k.0.1), k.2)
  where
    Mid : Database → Type 0
    Mid db =
        IsOff id d db
        × (r.program.local_reserved_minor +ℤ d' ≡ booked id db.reservations)
        × Q db.reservations

pub IsOff-IsBooked : (id : Text) (d : ℤ) (db : Database) → d ≡ pos 0 → IsOff id d db → IsBooked db
IsOff-IsBooked id d db z (rows, off) = (rows, Off-Agree id d db.reservations db.programs z off)

-- The row that the lock has read.
abbrev pub Locked : Text → ProgramEntity → Database → Type 0
Locked id p db = IsBooked db × (find (has_id id) db.programs ≡ some p)

pub Locked-agrees :
    (id : Text) (p : ProgramEntity) (db : Database)
    → Locked id p db
    → p.local_reserved_minor ≡ booked id db.reservations
Locked-agrees id p db k = (Agree-find id db.reservations db.programs p k.0.1 k.1).1

pub Locked-IsOff :
    (id : Text) (p : ProgramEntity) (db : Database) → Locked id p db → IsOff id (pos 0) db
Locked-IsOff id p db k = (k.0.0, Agree-Off id db.reservations db.programs k.0.1)

-- The value that a step returns is known after it.
module _ {P : Database → Type 0} {A : Type 0} where
  pub gets_eq_triple : (f : Database → A) → Triple P (gets f) (λ a db. P db × (f db ≡ a))
  unfolding gets
  gets_eq_triple f = record { run = λ db p. ends (p, refl) }

  pub lift_money_eq_triple :
      (r : Result A MoneyError) → Triple P (lift_money r) (λ a db. P db × (r ≡ ok a))
  unfolding lift_money
  lift_money_eq_triple (ok a) = record { run = λ db p. ends (p, refl) }
  lift_money_eq_triple (err e) = record { run = λ db p. fails }

-- What is known of values, not of the database.
pub known_triple :
    {P : Database → Type 0} {F : Type 0} {A : Type 0} {Q : A → Database → Type 0} {m : Tx A}
    → (F → Triple P m Q)
    → Triple (λ db. P db × F) m Q
known_triple h = record { run = λ db k. (h k.1).run db k.0 }
