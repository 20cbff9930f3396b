-- ===== src/Booked/Release.antt =====
-- src/capacity/application/release.service.ts and cancel.service.ts: what is returned leaves the
-- local component and the row alike.
use invoice_reservation.Prelude.{
  ◌≡◌, refl, ap, ◌∙◌, Bool, true, false, Option, none, some, List, [], ◌∷◌, find, update_where,
  if◌then◌else◌,
}
use invoice_reservation.Prelude.Text.{Text}
use invoice_reservation.Prelude.Int.{ℤ, pos, neg_ℤ, ◌+ℤ◌, ◌-ℤ◌, int_laws}
use invoice_reservation.Prelude.Result.{Result, ok, err}
use invoice_reservation.Errors.{RefusalCode, reservation_terminal}
use invoice_reservation.Position.{PendingLedgerEntry, PositionComponent, advance_position}
use invoice_reservation.Position.Components.{local_entry_lem}
use invoice_reservation.Policy.Release.{
  ReleaseDecision, ReservationStatus, active, partially_released, fully_released, cancelled,
  written_off, is_terminal,
}
use invoice_reservation.Policy.Release.Movement.{Moves, release_policy-Moves}
use invoice_reservation.Policy.Cancel.{CancelDecision, cancel_policy, close_as}
use invoice_reservation.Store.{Database, find_program}
use invoice_reservation.Store.Tables.{ProgramEntity, InvoiceReservation}
use invoice_reservation.Store.Triples.{
  Triple, bind_triple, check_triple, modify_triple, pure_triple, throw_triple, lift_money_triple,
  if_triple,
}
use invoice_reservation.Service.Environment.{Environment}
use invoice_reservation.Service.Reserve.{has_invoice}
use invoice_reservation.Service.Reconciliation.{is_open}
use invoice_reservation.Service.Release.{
  ReleaseCommand, release, release_locked, release_fresh, release_row, on_release, apply_release,
  released_row, release_entry,
}
use invoice_reservation.Service.Cancel.{
  CancelCommand, cancel, cancel_locked, cancel_fresh, cancel_row, on_cancel, apply_cancel,
  closed_row, cancel_entry,
}
use invoice_reservation.Service.Frames.{
  lock_triple, begin_triple, complete_request-triple, on_decision-triple,
}
use invoice_reservation.Booked.Rows.{
  booked, IsRow, KeepsKeys, AreRows-update_where, booked-update_where,
}
use invoice_reservation.Booked.Writes.{
  IsBooked, IsOff, Locked, Locked-agrees, Locked-IsOff, IsOff-IsBooked, Off-rows,
  persist_advance-IsOff, known_triple, gets_eq_triple, lift_money_eq_triple,
}

pub is_terminal_lem : (s : ReservationStatus) → is_open s ≡ false → is_terminal s ≡ true
is_terminal_lem active h = cc
is_terminal_lem partially_released h = cc
is_terminal_lem fully_released h = refl
is_terminal_lem cancelled h = refl
is_terminal_lem written_off h = refl

back : (x d : ℤ) → x +ℤ neg_ℤ d +ℤ d ≡ x
back x d = omega int_laws

settled : (x y d : ℤ) → d ≡ x -ℤ y → d +ℤ (y -ℤ x) ≡ pos 0
settled x y d h = rw h (omega int_laws)

module _ (id invoice : Text) (p : ProgramEntity) where
  abbrev pub IsFound : InvoiceReservation → List InvoiceReservation → Type 0
  IsFound row rs = find (has_invoice id invoice) rs ≡ some row

  -- The program is locked, and its row for the invoice read.
  abbrev pub Found : InvoiceReservation → Database → Type 0
  Found row db = Locked id p db × IsFound row db.reservations

  -- The advance of a release takes `d` off the local component, which the rows still have.
  pub returned :
      (row : InvoiceReservation) (e : PendingLedgerEntry) (now d : ℤ)
      → e.component ≡ PositionComponent.local
      → e.delta_minor ≡ neg_ℤ d
      → (db : Database) → Found row db
      → IsOff id (pos 0) db
        × ((advance_position p.position (e ∷ []) now).program.local_reserved_minor +ℤ d
            ≡ booked id db.reservations)
        × IsFound row db.reservations
  returned row e now d local delta db (k, found) = (
    Locked-IsOff id p db k,
    ap (λ x. x +ℤ d)
          ((local_entry_lem p.position e now local).0 ∙ ap (λ x. p.local_reserved_minor +ℤ x) delta)
        ∙ back p.local_reserved_minor d
        ∙ Locked-agrees id p db k,
    found,
  )

  -- Then the row gives up what was taken.
  pub given_up :
      (row : InvoiceReservation) (f : InvoiceReservation → InvoiceReservation) (d : ℤ)
      → KeepsKeys f
      → ((r : InvoiceReservation) → IsRow r → IsRow (f r))
      → d ≡ row.outstanding_reserved_minor -ℤ (f row).outstanding_reserved_minor
      → (db : Database) → IsOff id d db × IsFound row db.reservations
      → IsBooked
          (record db { reservations = update_where (has_invoice id invoice) f db.reservations })
  given_up row f d keys kept taken db ((rows, off), found) =
      let rs' = update_where (has_invoice id invoice) f db.reservations in
      let e = (f row).outstanding_reserved_minor -ℤ row.outstanding_reserved_minor in
      IsOff-IsBooked id (d +ℤ e) (record db { reservations = rs' })
        (settled row.outstanding_reserved_minor (f row).outstanding_reserved_minor d taken)
        (
          AreRows-update_where (has_invoice id invoice) f db.reservations keys kept rows,
          Off-rows id d e db.reservations rs' db.programs
              (λ other. booked-update_where id invoice other f db.reservations row keys rows found)
              off,
        )

module _ (env : Environment) (c : ReleaseCommand) (p : ProgramEntity) where
  apply_release-triple :
      (row : InvoiceReservation) (d : ReleaseDecision)
      → Moves row.outstanding_reserved_minor d
      → Triple (Found c.program_id c.invoice_id p row) (apply_release env c p row d) (λ _. IsBooked)
  unfolding apply_release
  apply_release-triple row d (moves, closes) =
      bind_triple _ _
        (persist_advance-IsOff (IsFound c.program_id c.invoice_id p row) false c.program_id (pos 0)
          d.delta_minor p.position _ env.now
          (returned c.program_id c.invoice_id p row (release_entry c d) env.now d.delta_minor refl
            refl))
        λ _. bind_triple _ _ (check_triple _) λ _.
          bind_triple _ _
            (modify_triple {Q = IsBooked} _ (
              given_up c.program_id c.invoice_id p row (released_row env d) d.delta_minor
                (λ r. refl, λ r. refl)
                (λ r k. (k.0, λ shut. closes (is_terminal_lem d.status shut))) moves))
            λ _. bind_triple _ _ (complete_request-triple (λ db rs k. k) _ _) λ _. pure_triple _

  on_release-triple :
      (row : InvoiceReservation) (d : Result ReleaseDecision RefusalCode)
      → ((applied : ReleaseDecision)
          → d ≡ ok applied
          → Moves row.outstanding_reserved_minor applied)
      → Triple (Found c.program_id c.invoice_id p row) (on_release env c p row d) (λ _. IsBooked)
  unfolding on_release
  on_release-triple row (err code) h = throw_triple _
  on_release-triple row (ok applied) h = apply_release-triple row applied (h applied refl)

  release_row-triple :
      (o : Option InvoiceReservation)
      → Triple
          (λ db.
            Locked c.program_id p db
            × (find (has_invoice c.program_id c.invoice_id) db.reservations ≡ o))
          (release_row env c p o)
          (λ _. IsBooked)
  unfolding release_row
  release_row-triple none = throw_triple _
  release_row-triple (some row) = bind_triple _ _ (lift_money_triple _) λ rate.
      bind_triple _ _ (lift_money_eq_triple _) λ d. known_triple λ decided.
        on_release-triple row d λ applied same. release_policy-Moves _ (decided ∙ ap ok same)

pub release-IsBooked :
    (env : Environment) (c : ReleaseCommand) → Triple IsBooked (release env c) (λ _. IsBooked)
unfolding release release_locked release_fresh find_program
release-IsBooked env c = lock_triple _ _ λ p. bind_triple _ _ (begin_triple (λ db rs k. k) _ _) λ d.
    on_decision-triple d _ (λ o db k. k.0)
      (if_triple _ (throw_triple _)
        (bind_triple _ _ (gets_eq_triple _) λ row. release_row-triple env c p row))

minus_zero : (x : ℤ) → x ≡ x -ℤ pos 0
minus_zero x = omega int_laws

module _ (env : Environment) (c : CancelCommand) (p : ProgramEntity) where
  apply_cancel-triple :
      (row : InvoiceReservation) (d : CancelDecision)
      → d.delta_minor ≡ row.outstanding_reserved_minor
      → Triple (Found c.program_id c.invoice_id p row) (apply_cancel env c p row d) (λ _. IsBooked)
  unfolding apply_cancel
  apply_cancel-triple row d all =
      bind_triple _ _
        (persist_advance-IsOff (IsFound c.program_id c.invoice_id p row) false c.program_id (pos 0)
          d.delta_minor p.position _ env.now
          (returned c.program_id c.invoice_id p row (cancel_entry c d) env.now d.delta_minor refl
            refl))
        λ _. bind_triple _ _ (check_triple _) λ _.
          bind_triple _ _
            (modify_triple {Q = IsBooked} _ (
              given_up c.program_id c.invoice_id p row (closed_row env d) d.delta_minor
                (λ r. refl, λ r. refl) (λ r k. (k.0, λ shut. refl))
                (all ∙ minus_zero row.outstanding_reserved_minor)))
            λ _. bind_triple _ _ (complete_request-triple (λ db rs k. k) _ _) λ _. pure_triple _

  close_as-all : (x : ℤ) (s : ReservationStatus) → (close_as x s).delta_minor ≡ x
  unfolding close_as
  close_as-all x active = refl
  close_as-all x partially_released = refl
  close_as-all x fully_released = refl
  close_as-all x cancelled = refl
  close_as-all x written_off = refl

  cancel_row-triple :
      (o : Option InvoiceReservation)
      → Triple
          (λ db.
            Locked c.program_id p db
            × (find (has_invoice c.program_id c.invoice_id) db.reservations ≡ o))
          (cancel_row env c p o)
          (λ _. IsBooked)
  unfolding cancel_row cancel_policy on_cancel
  cancel_row-triple none = throw_triple _
  cancel_row-triple (some row) = by_status (is_terminal row.status)
    where
      by_status :
          (b : Bool)
          → Triple
              (Found c.program_id c.invoice_id p row)
              (on_cancel env c p row (
                if b
                then err reservation_terminal
                else ok (close_as row.outstanding_reserved_minor row.status)))
              (λ _. IsBooked)
      by_status true = throw_triple _
      by_status false =
          apply_cancel-triple row _ (close_as-all row.outstanding_reserved_minor row.status)

pub cancel-IsBooked :
    (env : Environment) (c : CancelCommand) → Triple IsBooked (cancel env c) (λ _. IsBooked)
unfolding cancel cancel_locked cancel_fresh find_program
cancel-IsBooked env c = lock_triple _ _ λ p. bind_triple _ _ (begin_triple (λ db rs k. k) _ _) λ d.
    on_decision-triple d _ (λ o db k. k.0)
      (if_triple _ (throw_triple _)
        (bind_triple _ _ (gets_eq_triple _) λ row. cancel_row-triple env c p row))
