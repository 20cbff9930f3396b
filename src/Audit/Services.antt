-- ===== src/Audit/Services.antt =====
-- The commands of src/capacity/application and the audit of scripts/audit-ledger.ts.
use invoice_reservation.Prelude.{false, Option, none, some}
use invoice_reservation.Prelude.Result.{Result, ok, err}
use invoice_reservation.Prelude.Int.{ℤ}
use invoice_reservation.Errors.{RefusalCode}
use invoice_reservation.Policy.Reserve.{FxRate, ReserveDecision, accepted}
use invoice_reservation.Policy.Reserve
use invoice_reservation.Policy.Release.{ReleaseDecision}
use invoice_reservation.Policy.Cancel.{CancelDecision}
use invoice_reservation.Store.{find_program}
use invoice_reservation.Store.Tables.{ProgramEntity, InvoiceReservation}
use invoice_reservation.Store.Triples.{
  Triple, bind_triple, check_triple, check_unique_triple, modify_triple, gets_triple, pure_triple,
  throw_triple, lift_money_triple, if_triple,
}
use invoice_reservation.Service.Environment.{Environment}
use invoice_reservation.Service.Reserve.{
  ReserveCommand, reserve, reserve_locked, reserve_fresh, carry_out, book, insert_reservation,
  resolve_fx,
}
use invoice_reservation.Service.Release.{
  ReleaseCommand, release, release_locked, release_fresh, release_row, on_release, apply_release,
}
use invoice_reservation.Service.Cancel.{
  CancelCommand, cancel, cancel_locked, cancel_fresh, cancel_row, on_cancel, apply_cancel,
}
use invoice_reservation.Service.Frames.{
  lock_triple, begin_triple, complete_request-triple, on_decision-triple,
}
use invoice_reservation.Audit.Writes.{
  IsAudited, Locked, persist_advance-triple, advance_position-IsAdvance,
}

module _ (env : Environment) (c : ReserveCommand) (p : ProgramEntity) where
  book-triple :
      (reserved : ℤ) (fx : Option FxRate)
      → Triple (Locked c.program_id p) (book env c p reserved fx) (λ _. IsAudited)
  unfolding book insert_reservation
  book-triple reserved fx =
      bind_triple _ _
        (bind_triple _ _ (check_triple _) λ _. bind_triple _ _ (gets_triple _) λ rows.
          bind_triple _ _ (check_unique_triple _) λ _.
            bind_triple _ _ (modify_triple {Q = Locked c.program_id p} _ (λ db k. k))
              λ _. pure_triple _)
        λ row.
          bind_triple _ _
            (persist_advance-triple false c.program_id p _ env.now
              (advance_position-IsAdvance p.position _ env.now))
            λ _. bind_triple _ _ (complete_request-triple (λ db rs k. k) _ _) λ _. pure_triple _

  reserve_fresh-triple : Triple (Locked c.program_id p) (reserve_fresh env c p) (λ _. IsAudited)
  unfolding reserve_fresh carry_out resolve_fx
  reserve_fresh-triple = bind_triple _ _ (gets_triple _) λ d. if_triple _ (throw_triple _) (
      bind_triple _ _
        (if_triple _ (pure_triple _) (bind_triple _ _ (lift_money_triple _) λ r. pure_triple _))
        λ fx. bind_triple _ _ (lift_money_triple _) λ decision. carried decision)
    where
      carried :
          (d : ReserveDecision)
          → Triple (Locked c.program_id p) (carry_out env c p d) (λ _. IsAudited)
      carried (Reserve.refused code details) = throw_triple _
      carried (accepted reserved fx) = book-triple reserved fx

pub reserve-IsAudited :
    (env : Environment) (c : ReserveCommand) → Triple IsAudited (reserve env c) (λ _. IsAudited)
unfolding reserve reserve_locked find_program
reserve-IsAudited env c = lock_triple _ _ λ p.
    bind_triple _ _ (begin_triple (λ db rs k. k) _ _)
      λ d. on_decision-triple d _ (λ o db k. k.0) (reserve_fresh-triple env c p)

module _ (env : Environment) (c : ReleaseCommand) (p : ProgramEntity) where
  apply_release-triple :
      (row : InvoiceReservation) (applied : ReleaseDecision)
      → Triple (Locked c.program_id p) (apply_release env c p row applied) (λ _. IsAudited)
  unfolding apply_release
  apply_release-triple row applied =
      bind_triple _ _
        (persist_advance-triple false c.program_id p _ env.now
          (advance_position-IsAdvance p.position _ env.now))
        λ _. bind_triple _ _ (check_triple _) λ _.
          bind_triple _ _ (modify_triple {Q = IsAudited} _ (λ db k. k))
            λ _. bind_triple _ _ (complete_request-triple (λ db rs k. k) _ _) λ _. pure_triple _

  on_release-triple :
      (row : InvoiceReservation) (d : Result ReleaseDecision RefusalCode)
      → Triple (Locked c.program_id p) (on_release env c p row d) (λ _. IsAudited)
  unfolding on_release
  on_release-triple row (err code) = throw_triple _
  on_release-triple row (ok applied) = apply_release-triple row applied

  release_row-triple :
      (row : Option InvoiceReservation)
      → Triple (Locked c.program_id p) (release_row env c p row) (λ _. IsAudited)
  unfolding release_row
  release_row-triple none = throw_triple _
  release_row-triple (some row) =
      bind_triple _ _ (lift_money_triple _)
        λ rate. bind_triple _ _ (lift_money_triple _) λ d. on_release-triple row d

pub release-IsAudited :
    (env : Environment) (c : ReleaseCommand) → Triple IsAudited (release env c) (λ _. IsAudited)
unfolding release release_locked release_fresh find_program
release-IsAudited env c = lock_triple _ _ λ p.
    bind_triple _ _ (begin_triple (λ db rs k. k) _ _) λ d.
      on_decision-triple d _ (λ o db k. k.0)
        (if_triple _ (throw_triple _)
          (bind_triple _ _ (gets_triple _) λ row. release_row-triple env c p row))

module _ (env : Environment) (c : CancelCommand) (p : ProgramEntity) where
  apply_cancel-triple :
      (row : InvoiceReservation) (applied : CancelDecision)
      → Triple (Locked c.program_id p) (apply_cancel env c p row applied) (λ _. IsAudited)
  unfolding apply_cancel
  apply_cancel-triple row applied =
      bind_triple _ _
        (persist_advance-triple false c.program_id p _ env.now
          (advance_position-IsAdvance p.position _ env.now))
        λ _. bind_triple _ _ (check_triple _) λ _.
          bind_triple _ _ (modify_triple {Q = IsAudited} _ (λ db k. k))
            λ _. bind_triple _ _ (complete_request-triple (λ db rs k. k) _ _) λ _. pure_triple _

  on_cancel-triple :
      (row : InvoiceReservation) (d : Result CancelDecision RefusalCode)
      → Triple (Locked c.program_id p) (on_cancel env c p row d) (λ _. IsAudited)
  unfolding on_cancel
  on_cancel-triple row (err code) = throw_triple _
  on_cancel-triple row (ok applied) = apply_cancel-triple row applied

  cancel_row-triple :
      (row : Option InvoiceReservation)
      → Triple (Locked c.program_id p) (cancel_row env c p row) (λ _. IsAudited)
  unfolding cancel_row
  cancel_row-triple none = throw_triple _
  cancel_row-triple (some row) = on_cancel-triple row _

pub cancel-IsAudited :
    (env : Environment) (c : CancelCommand) → Triple IsAudited (cancel env c) (λ _. IsAudited)
unfolding cancel cancel_locked cancel_fresh find_program
cancel-IsAudited env c = lock_triple _ _ λ p. bind_triple _ _ (begin_triple (λ db rs k. k) _ _) λ d.
    on_decision-triple d _ (λ o db k. k.0)
      (if_triple _ (throw_triple _)
        (bind_triple _ _ (gets_triple _) λ row. cancel_row-triple env c p row))
