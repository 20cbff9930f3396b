-- ===== src/Service/Replays/Commands.antt =====
-- The commands of src/capacity/application, sent again after they succeeded.
use mathlib.Core.Path.{subst}
use invoice_reservation.Prelude.{◌≡◌, sym, ap, ◌∙◌, false, Option, none, some, [], or_else}
use invoice_reservation.Prelude.Text.{Text}
use invoice_reservation.Prelude.Decimal.{show_ℤ}
use invoice_reservation.Prelude.Result.{Result, ok, err}
use invoice_reservation.Errors.{RefusalCode}
use invoice_reservation.Position.{Date}
use invoice_reservation.Policy.Reserve.{FxRate, ReserveDecision, accepted}
use invoice_reservation.Policy.Reserve
use invoice_reservation.Policy.Release.{ReleaseDecision}
use invoice_reservation.Policy.Cancel.{CancelDecision}
use invoice_reservation.Store.{
  Database, Failure, Tx, pure, find_program, with_program_lock, program_not_found, ◌>>=◌,
}
use invoice_reservation.Store.Tables.{
  ProgramEntity, InvoiceReservation, reserve_op, release_op, cancel_op,
}
use invoice_reservation.Store.Triples.{
  succeeded, Triple, bind_triple, check_triple, check_unique_triple, modify_triple, gets_triple,
  pure_triple, throw_triple, lift_money_triple, if_triple, weaken,
}
use invoice_reservation.Service.Environment.{Environment}
use invoice_reservation.Service.Idempotency.{
  RequestIdentity, begin, reserve_fingerprint, cancel_fingerprint,
}
use invoice_reservation.Service.Reserve.{
  ReserveCommand, Outcome, reserve_identity, reserve, reserve_locked, reserve_fresh, carry_out,
  book, insert_reservation, resolve_fx, on_decision,
}
use invoice_reservation.Service.Release.{
  ReleaseCommand, release_identity, release, release_locked, release_fresh, release_row, on_release,
  apply_release,
}
use invoice_reservation.Service.Cancel.{
  CancelCommand, reason_text, cancel_identity, cancel, cancel_locked, cancel_fresh, cancel_row,
  on_cancel, apply_cancel,
}
use invoice_reservation.Service.Frames.{lock_triple}
use invoice_reservation.Service.Replays.{
  Remembers, Present, Midway, Answered, persist_advance-Midway, complete_request-Remembers,
  pure_outcome, on_decision-Answered, begin-Begun,
}

module _ (env : Environment) (c : ReserveCommand) (p : ProgramEntity) where
  carry_out-Answered :
      (d : ReserveDecision)
      → Triple
          (Midway (reserve_identity env c) c.program_id)
          (carry_out env c p d)
          (Answered (reserve_identity env c) c.program_id)
  unfolding carry_out book insert_reservation
  carry_out-Answered (Reserve.refused code details) = throw_triple _
  carry_out-Answered (accepted reserved fx) =
      let i = reserve_identity env c in
      bind_triple _ _
        (bind_triple _ _ (check_triple _) λ _. bind_triple _ _ (gets_triple _) λ rows.
          bind_triple _ _ (check_unique_triple _) λ _.
            bind_triple _ _ (modify_triple {Q = Midway i c.program_id} _ (λ db k. k))
              λ _. pure_triple _)
        λ row.
          bind_triple _ _ (persist_advance-Midway i c.program_id false p.position _ env.now) λ _.
            bind_triple _ _ (complete_request-Remembers i c.program_id _)
              λ _. pure_outcome i c.program_id _

  reserve_fresh-Answered :
      Triple
        (Midway (reserve_identity env c) c.program_id)
        (reserve_fresh env c p)
        (Answered (reserve_identity env c) c.program_id)
  unfolding reserve_fresh resolve_fx
  reserve_fresh-Answered = bind_triple _ _ (gets_triple _) λ d. if_triple _ (throw_triple _) (
      bind_triple _ _
        (if_triple _ (pure_triple _) (bind_triple _ _ (lift_money_triple _) λ r. pure_triple _))
        λ fx. bind_triple _ _ (lift_money_triple _) λ decision. carry_out-Answered decision)

reserve-Answered :
    (env : Environment) (c : ReserveCommand)
    → Triple (λ _. Unit) (reserve env c) (Answered (reserve_identity env c) c.program_id)
unfolding reserve reserve_locked find_program
reserve-Answered env c = lock_triple _ _ λ p.
    let i = reserve_identity env c in
    bind_triple _ _ (weaken (λ db k. (p, k.1)) (begin-Begun i c.program_id env.now))
      λ d. on_decision-Answered i c.program_id d _ (reserve_fresh-Answered env c p)

module _ (env : Environment) (c : ReleaseCommand) (p : ProgramEntity) where
  on_release-Answered :
      (row : InvoiceReservation) (d : Result ReleaseDecision RefusalCode)
      → Triple
          (Midway (release_identity env c) c.program_id)
          (on_release env c p row d)
          (Answered (release_identity env c) c.program_id)
  unfolding on_release apply_release
  on_release-Answered row (err code) = throw_triple _
  on_release-Answered row (ok applied) =
      let i = release_identity env c in
      bind_triple _ _ (persist_advance-Midway i c.program_id false p.position _ env.now) λ _.
        bind_triple _ _ (check_triple _) λ _.
          bind_triple _ _ (modify_triple {Q = Midway i c.program_id} _ (λ db k. k)) λ _.
            bind_triple _ _ (complete_request-Remembers i c.program_id _)
              λ _. pure_outcome i c.program_id _

  release_row-Answered :
      (row : Option InvoiceReservation)
      → Triple
          (Midway (release_identity env c) c.program_id)
          (release_row env c p row)
          (Answered (release_identity env c) c.program_id)
  unfolding release_row
  release_row-Answered none = throw_triple _
  release_row-Answered (some row) =
      bind_triple _ _ (lift_money_triple _)
        λ rate. bind_triple _ _ (lift_money_triple _) λ d. on_release-Answered row d

release-Answered :
    (env : Environment) (c : ReleaseCommand)
    → Triple (λ _. Unit) (release env c) (Answered (release_identity env c) c.program_id)
unfolding release release_locked release_fresh find_program
release-Answered env c = lock_triple _ _ λ p.
    let i = release_identity env c in
    bind_triple _ _ (weaken (λ db k. (p, k.1)) (begin-Begun i c.program_id env.now)) λ d.
      on_decision-Answered i c.program_id d _ (
        if_triple _ (throw_triple _)
          (bind_triple _ _ (gets_triple _) λ row. release_row-Answered env c p row))

module _ (env : Environment) (c : CancelCommand) (p : ProgramEntity) where
  on_cancel-Answered :
      (row : InvoiceReservation) (d : Result CancelDecision RefusalCode)
      → Triple
          (Midway (cancel_identity env c) c.program_id)
          (on_cancel env c p row d)
          (Answered (cancel_identity env c) c.program_id)
  unfolding on_cancel apply_cancel
  on_cancel-Answered row (err code) = throw_triple _
  on_cancel-Answered row (ok applied) =
      let i = cancel_identity env c in
      bind_triple _ _ (persist_advance-Midway i c.program_id false p.position _ env.now) λ _.
        bind_triple _ _ (check_triple _) λ _.
          bind_triple _ _ (modify_triple {Q = Midway i c.program_id} _ (λ db k. k)) λ _.
            bind_triple _ _ (complete_request-Remembers i c.program_id _)
              λ _. pure_outcome i c.program_id _

  cancel_row-Answered :
      (row : Option InvoiceReservation)
      → Triple
          (Midway (cancel_identity env c) c.program_id)
          (cancel_row env c p row)
          (Answered (cancel_identity env c) c.program_id)
  unfolding cancel_row
  cancel_row-Answered none = throw_triple _
  cancel_row-Answered (some row) = on_cancel-Answered row _

cancel-Answered :
    (env : Environment) (c : CancelCommand)
    → Triple (λ _. Unit) (cancel env c) (Answered (cancel_identity env c) c.program_id)
unfolding cancel cancel_locked cancel_fresh find_program
cancel-Answered env c = lock_triple _ _ λ p.
    let i = cancel_identity env c in
    bind_triple _ _ (weaken (λ db k. (p, k.1)) (begin-Begun i c.program_id env.now)) λ d.
      on_decision-Answered i c.program_id d _ (
        if_triple _ (throw_triple _)
          (bind_triple _ _ (gets_triple _) λ row. cancel_row-Answered env c p row))

-- What a command answers once the key is remembered and the program is there.
abbrev pub again : Outcome → Outcome
again o = record { created = false; body = o.body }

-- The shape that the three commands share, on a key that is remembered.
locked_again :
    (i : RequestIdentity) (id : Text) (now : Date) (fresh : ProgramEntity → Tx Outcome)
    (o : Outcome) (end : Database)
    → Remembers i o.body end
    → Present id end.programs
    → with_program_lock id (λ p. begin i now >>= λ d. on_decision d (fresh p)) end
      ≡ ok (again o, end)
unfolding with_program_lock ◌>>=◌ on_decision pure
locked_again i id now fresh o end r (p, present) =
    ap
      (λ x. elim x as (λ _. Result (Outcome × Database) Failure) [
        | none ↦ err (program_not_found id)
        | some q ↦ elim (begin i now end) as (λ _. Result (Outcome × Database) Failure) [
          | ok (d, db) ↦ on_decision d (fresh q) db
          | err e ↦ err e
        ]
      ])
      present
    ∙ ap
        (λ x. elim x as (λ _. Result (Outcome × Database) Failure) [
          | ok (d, db) ↦ on_decision d (fresh p) db
          | err e ↦ err e
        ])
        (r now)

reserve_identity-eq :
    (env later : Environment) (c : ReserveCommand)
    → later.sha256 ≡ env.sha256
    → reserve_identity env c ≡ reserve_identity later c
unfolding reserve_identity
reserve_identity-eq env later c h =
    ap
      (λ h. record {
        organisation_id = c.organisation_id;
        request_id = c.request_id;
        operation = reserve_op;
        fingerprint =
            reserve_fingerprint h c.program_id c.invoice_id (show_ℤ c.amount_minor) c.currency;
      })
      (sym h)

-- If a reservation succeeds, its response created or replayed, then the same command sent again
-- later (with the same hash) succeeds with the same body, creates nothing, and leaves the database as
-- it is.
pub reserve-replays :
    (env later : Environment) (c : ReserveCommand) (o : Outcome) (db end : Database)
    → later.sha256 ≡ env.sha256
    → reserve env c db ≡ ok (o, end)
    → reserve later c end ≡ ok (again o, end)
unfolding reserve reserve_locked
reserve-replays env later c o db end same h =
    let (remembers, present) =
      succeeded o end (reserve env c db) ((reserve-Answered env c).run db tt) h in
    locked_again (reserve_identity later c) c.program_id later.now (reserve_fresh later c) o end
      (subst (λ i. Remembers i o.body end) (reserve_identity-eq env later c same) remembers) present

release_identity-eq :
    (env later : Environment) (c : ReleaseCommand)
    → later.sha256 ≡ env.sha256
    → release_identity env c ≡ release_identity later c
unfolding release_identity
release_identity-eq env later c h =
    ap
      (λ h. record {
        organisation_id = c.organisation_id;
        request_id = c.request_id;
        operation = release_op;
        fingerprint =
            reserve_fingerprint h c.program_id c.invoice_id (show_ℤ c.release_minor) c.currency;
      })
      (sym h)

-- If a release succeeds, its response created or replayed, then the same command sent again
-- later (with the same hash) succeeds with the same body, creates nothing, and leaves the database as
-- it is.
pub release-replays :
    (env later : Environment) (c : ReleaseCommand) (o : Outcome) (db end : Database)
    → later.sha256 ≡ env.sha256
    → release env c db ≡ ok (o, end)
    → release later c end ≡ ok (again o, end)
unfolding release release_locked
release-replays env later c o db end same h =
    let (remembers, present) =
      succeeded o end (release env c db) ((release-Answered env c).run db tt) h in
    locked_again (release_identity later c) c.program_id later.now (release_fresh later c) o end
      (subst (λ i. Remembers i o.body end) (release_identity-eq env later c same) remembers) present

cancel_identity-eq :
    (env later : Environment) (c : CancelCommand)
    → later.sha256 ≡ env.sha256
    → cancel_identity env c ≡ cancel_identity later c
unfolding cancel_identity
cancel_identity-eq env later c h =
    ap
      (λ h. record {
        organisation_id = c.organisation_id;
        request_id = c.request_id;
        operation = cancel_op;
        fingerprint =
            cancel_fingerprint h c.program_id c.invoice_id (reason_text c.reason)
              (or_else c.note []);
      })
      (sym h)

-- If a cancellation succeeds, its response created or replayed, then the same command sent again
-- later (with the same hash) succeeds with the same body, creates nothing, and leaves the database as
-- it is.
pub cancel-replays :
    (env later : Environment) (c : CancelCommand) (o : Outcome) (db end : Database)
    → later.sha256 ≡ env.sha256
    → cancel env c db ≡ ok (o, end)
    → cancel later c end ≡ ok (again o, end)
unfolding cancel cancel_locked
cancel-replays env later c o db end same h =
    let (remembers, present) =
      succeeded o end (cancel env c db) ((cancel-Answered env c).run db tt) h in
    locked_again (cancel_identity later c) c.program_id later.now (cancel_fresh later c) o end
      (subst (λ i. Remembers i o.body end) (cancel_identity-eq env later c same) remembers) present
