-- ===== src/Booked/Reserve.antt =====
-- src/capacity/application/reserve.service.ts: a booking moves the local component and the rows
-- alike.
use invoice_reservation.Prelude.{
  ◌≡◌, refl, sym, ap, ◌∙◌, false, Option, none, some, [], ◌∷◌, ◌++◌, find, is_some,
}
use invoice_reservation.Prelude.Text.{text_eq_refl}
use invoice_reservation.Prelude.Int.{ℤ, pos, ◌+ℤ◌, +ℤ_zero}
use invoice_reservation.Position.Components.{local_entry_lem}
use invoice_reservation.Policy.Reserve.{FxRate, ReserveDecision, accepted}
use invoice_reservation.Policy.Reserve
use invoice_reservation.Store.{Database, find_program}
use invoice_reservation.Store.Tables.{ProgramEntity}
use invoice_reservation.Store.Triples.{
  Triple, bind_triple, check_triple, gets_triple, check_unique_triple, modify_triple, pure_triple,
  throw_triple, lift_money_triple, if_triple, split_triple, weaken,
}
use invoice_reservation.Service.Environment.{Environment}
use invoice_reservation.Service.Reserve.{
  ReserveCommand, has_invoice, new_reservation, reserve_entry, reserve, reserve_locked,
  reserve_fresh, carry_out, book, insert_reservation, resolve_fx,
}
use invoice_reservation.Service.Frames.{
  lock_triple, begin_triple, complete_request-triple, on_decision-triple,
}
use invoice_reservation.Booked.Rows.{booked, AreRows-append, booked-append}
use invoice_reservation.Booked.Writes.{
  IsBooked, IsOff, Locked, Locked-agrees, IsOff-IsBooked, Agree-Off, Off-rows,
  persist_advance-IsOff, gets_eq_triple,
}

none_of_is_some : {A : Type 0} (o : Option A) → is_some o ≡ false → o ≡ none
none_of_is_some none h = refl
none_of_is_some (some a) h = cc

module _ (env : Environment) (c : ReserveCommand) (p : ProgramEntity) where
  -- No row has the invoice.
  abbrev Fresh : Database → Type 0
  Fresh db =
      Locked c.program_id p db
      × (find (has_invoice c.program_id c.invoice_id) db.reservations ≡ none)

  -- The row is inserted, and the position not yet written.
  abbrev Inserted : ℤ → Database → Type 0
  Inserted reserved db =
      IsOff c.program_id (pos 0 +ℤ reserved) db
      × (p.local_reserved_minor +ℤ reserved ≡ booked c.program_id db.reservations)

  inserted :
      (reserved : ℤ) (fx : Option FxRate) (db : Database)
      → Fresh db
      → Inserted reserved
          (record db { reservations = db.reservations ++ new_reservation env c p reserved fx ∷ [] })
  inserted reserved fx db (k, apart) =
      let row = new_reservation env c p reserved fx in
      let more = booked-append c.program_id db.reservations row in
      (
        (
          AreRows-append row db.reservations apart k.0.0 (refl, λ shut. cc),
          Off-rows c.program_id (pos 0) reserved db.reservations (db.reservations ++ row ∷ [])
              db.programs (λ other. booked-append other db.reservations row)
              (Agree-Off c.program_id db.reservations db.programs k.0.1),
        ),
        ap (λ t. t +ℤ reserved) (Locked-agrees c.program_id p db k)
            ∙ sym (more ∙ rw (text_eq_refl c.program_id) refl),
      )

  book-triple :
      (reserved : ℤ) (fx : Option FxRate) → Triple Fresh (book env c p reserved fx) (λ _. IsBooked)
  unfolding book insert_reservation
  book-triple reserved fx =
      bind_triple _ _
        (bind_triple _ _ (check_triple _) λ _. bind_triple _ _ (gets_triple _) λ rows.
          bind_triple _ _ (check_unique_triple _) λ _.
            bind_triple _ _ (modify_triple {Q = Inserted reserved} _ (inserted reserved fx))
              λ _. pure_triple _)
        λ row.
          bind_triple _ _
            (persist_advance-IsOff (λ _. Unit) false c.program_id (pos 0 +ℤ reserved) (pos 0)
              p.position _ env.now
              λ db k. (
                k.0,
                +ℤ_zero _
                    ∙ (local_entry_lem p.position (reserve_entry c reserved) env.now refl).0
                    ∙ k.1,
                tt,
              ))
            λ _.
              bind_triple _ _ (complete_request-triple (λ db rs k. k) _ _) λ _.
                weaken (λ db k. IsOff-IsBooked c.program_id (pos 0) db refl k.0) (pure_triple _)

  carry_out-triple : (d : ReserveDecision) → Triple Fresh (carry_out env c p d) (λ _. IsBooked)
  unfolding carry_out
  carry_out-triple (Reserve.refused code details) = throw_triple _
  carry_out-triple (accepted reserved fx) = book-triple reserved fx

  reserve_fresh-triple : Triple (Locked c.program_id p) (reserve_fresh env c p) (λ _. IsBooked)
  unfolding reserve_fresh resolve_fx
  reserve_fresh-triple = bind_triple _ _ (gets_eq_triple _) λ d.
      split_triple (is_some d) (λ _. throw_triple _)
        λ no_row.
          weaken (λ db k. (k.0, k.1 ∙ none_of_is_some d no_row))
            (bind_triple _ _
              (if_triple _ (pure_triple _)
                (bind_triple _ _ (lift_money_triple _) λ r. pure_triple _))
              λ fx. bind_triple _ _ (lift_money_triple _) λ decision. carry_out-triple decision)

pub reserve-IsBooked :
    (env : Environment) (c : ReserveCommand) → Triple IsBooked (reserve env c) (λ _. IsBooked)
unfolding reserve reserve_locked find_program
reserve-IsBooked env c = lock_triple _ _ λ p.
    bind_triple _ _ (begin_triple (λ db rs k. k) _ _)
      λ d. on_decision-triple d _ (λ o db k. k.0) (reserve_fresh-triple env c p)
