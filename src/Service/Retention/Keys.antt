-- ===== src/Service/Retention/Keys.antt =====
-- src/capacity/application/request-retention.job.ts and idempotency.service.ts: a key after a sweep.
use invoice_reservation.Prelude.{
  ◌≡◌, refl, ap, ◌∙◌, ℕ, Bool, Option, none, [], ◌∷◌, ◌++◌, update_where, arith, true, false, some,
  if◌then◌else◌, find, find-update_where_other, ◌*◌,
}
use invoice_reservation.Prelude.Text.{text_eq}
use invoice_reservation.Prelude.Result.{Result, ok}
use invoice_reservation.Prelude.Int.{pos, ◌-ℤ◌, ◌<ℤ◌, ◌≤ℤ◌}
use invoice_reservation.Position.{Date}
use invoice_reservation.Errors.{idempotency_expired}
use invoice_reservation.Store.{Database, Failure, pure}
use invoice_reservation.Store.Tables.{Body, complete, RequestRecord}
use invoice_reservation.Service.Idempotency.{
  IdempotencyDecision, replay, pending_record, RequestIdentity, has_key, operation_eq, decide_state,
  decide_existing, begin,
}
use invoice_reservation.Service.Idempotency
use invoice_reservation.Service.Retention.{cutoff_of, is_due, expire, sweep}

-- The record of a key that was answered with `body`.
pub record Answered (i : RequestIdentity) (body : Body) (r : RequestRecord) : Type 0 where
  pub operation : operation_eq r.operation i.operation ≡ true
  pub fingerprint : text_eq r.content_fingerprint i.fingerprint ≡ true
  pub state : r.state ≡ complete
  pub outcome : r.outcome ≡ some body

cutoff_of_lem : (now : Date) (days : ℕ) → cutoff_of now days ≡ now -ℤ pos (days * 86400000)
unfolding cutoff_of
cutoff_of_lem now days = ap (λ n. now -ℤ pos n) (omega arith)

due_before :
    (now : Date) (days : ℕ) (r : RequestRecord)
    → r.state ≡ complete
    → r.recorded_at <ℤ now -ℤ pos (days * 86400000)
    → is_due (cutoff_of now days) r ≡ true
due_before now days r done old = rw (cutoff_of_lem now days, done) (ground arith)

kept_since :
    (now : Date) (days : ℕ) (r : RequestRecord)
    → now -ℤ pos (days * 86400000) ≤ℤ r.recorded_at
    → is_due (cutoff_of now days) r ≡ false
kept_since now days r recent = rw (cutoff_of_lem now days) (ground arith)

module _ (i : RequestIdentity) (body : Body) (later : Date) where
  decide_existing-kept :
      (b : Bool) (r : RequestRecord) (db : Database)
      → Answered i body r
      → decide_existing i (if b then expire r else r) db
        ≡ ok (if b then Idempotency.refused idempotency_expired else replay body, db)
  unfolding decide_existing decide_state pure
  decide_existing-kept true r db a = rw (a.operation, a.fingerprint) refl
  decide_existing-kept false r db a = rw (a.operation, a.fingerprint, a.state, a.outcome) refl

  found_on :
      (db : Database) (o : Option RequestRecord) (r : RequestRecord)
      → o ≡ some r
      → ◌≡◌ {A = Result (IdempotencyDecision × Database) Failure}
          (elim o [
            | none ↦ ok (
              Idempotency.proceed,
              record db { requests = db.requests ++ pending_record i later ∷ [] },
            )
            | some x ↦ decide_existing i x db
          ])
          (decide_existing i r db)
  found_on db none r h = cc
  found_on db (some x) r h = ap (λ y. decide_existing i y db) (ground arith)

  begin_swept :
      (now : Date) (days : ℕ) (db : Database) (r : RequestRecord)
      → find (has_key i) db.requests ≡ some r
      → Answered i body r
      → begin i later (sweep now days db).1
        ≡ ok (
          if is_due (cutoff_of now days) r
              then Idempotency.refused idempotency_expired
              else replay body,
          (sweep now days db).1,
        )
  unfolding begin sweep
  begin_swept now days db r found a =
      let due = is_due (cutoff_of now days) in
      let swept = find-update_where_other (has_key i) due expire db.requests r (λ y. refl) found in
      found_on (sweep now days db).1 (find (has_key i) (update_where due expire db.requests))
        (if due r then expire r else r) swept
      ∙ decide_existing-kept (due r) r (sweep now days db).1 a

  -- A request whose key has been answered, sent again after a sweep: where its record was recorded
  -- before the retention's days, the answer is that the key has expired; else it is the same body.
  -- The request is not carried out again, and the database stays as the sweep left it.
  pub sweep-begin :
      (now : Date) (days : ℕ) (db : Database) (r : RequestRecord)
      → find (has_key i) db.requests ≡ some r
      → Answered i body r
      → (r.recorded_at <ℤ now -ℤ pos (days * 86400000)
          → begin i later (sweep now days db).1
            ≡ ok (Idempotency.refused idempotency_expired, (sweep now days db).1))
        × (now -ℤ pos (days * 86400000) ≤ℤ r.recorded_at
            → begin i later (sweep now days db).1 ≡ ok (replay body, (sweep now days db).1))
  sweep-begin now days db r found a = (
    λ old. begin_swept now days db r found a ∙ ap answer (due_before now days r a.state old),
    λ recent. begin_swept now days db r found a ∙ ap answer (kept_since now days r recent),
  )
    where
      answer : Bool → Result (IdempotencyDecision × Database) Failure
      answer b = ok (
        if b then Idempotency.refused idempotency_expired else replay body,
        (sweep now days db).1,
      )
