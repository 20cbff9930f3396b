-- ===== src/Service/Replays.antt =====
-- What the commands of src/capacity/application leave under the key of idempotency.service.ts.
pub mod Commands
use invoice_reservation.Prelude.{
  ◌≡◌, refl, sym, ap, ◌∙◌, inl, inr, Bool, true, false, not, ◌&&◌, ◌||◌, Bool-cases, Option, none,
  some, List, [], ◌∷◌, ◌++◌, arith, if◌then◌else◌, find, update_where, find-update_where,
}
use invoice_reservation.Prelude.Text.{Text, text_eq, text_eq_refl}
use invoice_reservation.Prelude.Int.{ℤ}
use invoice_reservation.Prelude.Result.{Result, ok, err}
use invoice_reservation.Errors.{RefusalCode}
use invoice_reservation.Position.{Date, ProgramPosition, AdvanceResult}
use invoice_reservation.Policy.Reserve.{FxRate, ReserveDecision, accepted}
use invoice_reservation.Policy.Reserve
use invoice_reservation.Policy.Release.{ReleaseDecision}
use invoice_reservation.Policy.Cancel.{CancelDecision}
use invoice_reservation.Store.{
  Database, Failure, Tx, pure, throw, unexpected, has_id, find_program, transaction, write_position,
  persist_advance, with_program_lock,
}
use invoice_reservation.Store.Tables.{
  Body, ProgramEntity, InvoiceReservation, LedgerRow, Operation, reserve_op, release_op, cancel_op,
  RequestState, pending, complete, expired, RequestRecord,
}
use invoice_reservation.Store.Triples.{
  Ensures, ends, fails, Triple, bind_triple, check_triple, check_unique_triple, modify_triple,
  gets_triple, pure_triple, throw_triple, lift_money_triple, if_triple, split_triple, weaken,
}
use invoice_reservation.Service.Environment.{Environment}
use invoice_reservation.Service.Idempotency.{
  IdempotencyDecision, proceed, replay, RequestIdentity, has_key, begin, complete_request,
  completed, pending_record, decide_existing, decide_state, operation_eq,
}
use invoice_reservation.Service.Idempotency
use invoice_reservation.Service.Reserve.{
  ReserveCommand, Outcome, reserve_identity, reserve, reserve_locked, reserve_fresh, carry_out,
  book, insert_reservation, resolve_fx, on_decision,
}
use invoice_reservation.Service.Release.{
  ReleaseCommand, release_identity, release, release_locked, release_fresh, release_row, on_release,
  apply_release,
}
use invoice_reservation.Service.Cancel.{
  CancelCommand, cancel_identity, cancel, cancel_locked, cancel_fresh, cancel_row, on_cancel,
  apply_cancel,
}
use invoice_reservation.Service.Frames.{lock_triple}

-- The key of `i` now answers with `b`.
abbrev pub Remembers : RequestIdentity → Body → Database → Type 0
Remembers i b db = (later : Date) → begin i later db ≡ ok (replay b, db)

-- The program's row is there.
abbrev pub Present : Text → List ProgramEntity → Type 0
Present id ps = (p : ProgramEntity) × (find (has_id id) ps ≡ some p)

-- The key of `i` is the last record, pending.
abbrev pub Started : RequestIdentity → List RequestRecord → Type 0
Started i rs =
    (now : Date) × (old : List RequestRecord) × (rs ≡ old ++ pending_record i now ∷ [])
    × (find (has_key i) old ≡ none)

Present-update_where :
    (id : Text) (q : ProgramPosition) (now : Date) (ps : List ProgramEntity)
    → Present id ps
    → Present id (update_where (has_id id) (write_position q now) ps)
unfolding find update_where
Present-update_where id q now [] (p, h) = cc
Present-update_where id q now (x ∷ ps) (p, h) = elim (Bool-cases (has_id id x)) [
  | inl hit ↦ (write_position q now x, rw (hit, hit) refl)
  | inr miss ↦
      let (y, e) = Present-update_where id q now ps (p, ground arith) in (y, rw (miss, miss) e)
]

operation_eq_refl : (o : Operation) → operation_eq o o ≡ true
operation_eq_refl o = ground arith

skip :
    (o f : Bool) (m n : Tx IdempotencyDecision)
    → o ≡ true
    → f ≡ true
    → (if not o || not f then m else n) ≡ n
skip o f m n h k = rw (h, k) refl

decided :
    (i : RequestIdentity) (now : Date) (b : Body) (db : Database)
    → decide_existing i (completed b (pending_record i now)) db ≡ ok (replay b, db)
unfolding decide_existing decide_state pure
decided i now b db =
    ap (λ (m : Tx IdempotencyDecision). m db)
      (skip (operation_eq i.operation i.operation) (text_eq i.fingerprint i.fingerprint) _ _
        (operation_eq_refl i.operation) (text_eq_refl i.fingerprint))

-- A complete record of the same request answers with its body.
remembered :
    (i : RequestIdentity) (now : Date) (b : Body) (db : Database)
    → find (has_key i) db.requests ≡ some (completed b (pending_record i now))
    → Remembers i b db
unfolding begin
remembered i now b db h later =
    ap
      (λ o. elim o as (λ _. Result (IdempotencyDecision × Database) Failure) [
        | none ↦ ok (proceed, record db { requests = db.requests ++ pending_record i later ∷ [] })
        | some r ↦ decide_existing i r db
      ])
      h
    ∙ decided i now b db

module _ (i : RequestIdentity) (id : Text) where
  abbrev pub Midway : Database → Type 0
  Midway db = Started i db.requests × Present id db.programs

  abbrev pub Answered : Outcome → Database → Type 0
  Answered o db = Remembers i o.body db × Present id db.programs

  -- What `begin` leaves, by its decision.
  abbrev pub Begun : IdempotencyDecision → Database → Type 0
  Begun proceed db = Midway db
  Begun (replay b) db = Remembers i b db × Present id db.programs
  Begun (Idempotency.refused code) db = Unit

  pub persist_advance-Midway :
      (reconciling : Bool) (old : ProgramPosition) (r : AdvanceResult) (now : Date)
      → Triple Midway (persist_advance reconciling old id r now) (λ _. Midway)
  unfolding persist_advance
  persist_advance-Midway reconciling old r now = bind_triple _ _ (check_triple _) λ _.
      bind_triple _ _ (gets_triple _) λ rows. bind_triple _ _ (check_unique_triple _) λ _.
        bind_triple _ _ (modify_triple {Q = Midway} _ (λ db k. k)) λ _.
          bind_triple _ _ (check_triple _) λ _. bind_triple _ _ (check_triple _) λ _.
            modify_triple _ (λ db k. (k.0, Present-update_where id r.program now db.programs k.1))

  pub complete_request-Remembers :
      (b : Body)
      → Triple Midway (complete_request i b) (λ _ db. Remembers i b db × Present id db.programs)
  unfolding complete_request
  complete_request-Remembers b = modify_triple _ λ db k.
      let (now, old, e, unused) = k.0 in
      (
        remembered i now b _ (
            rw e (
              find-update_where (has_key i) (completed b) old (pending_record i now) unused
                (rw (text_eq_refl i.organisation_id, text_eq_refl i.request_id) refl)
                (rw (text_eq_refl i.organisation_id, text_eq_refl i.request_id) refl))),
        k.1,
      )

  -- What is asked of a record that was found: `conflicts` is its test.
  abbrev conflicts : RequestRecord → Bool
  conflicts r =
      not (operation_eq r.operation i.operation)
      || not (text_eq r.content_fingerprint i.fingerprint)

  recalled :
      (r : RequestRecord) (b : Body) (db : Database)
      → find (has_key i) db.requests ≡ some r
      → conflicts r ≡ false
      → r.state ≡ complete
      → r.outcome ≡ some b
      → Remembers i b db
  unfolding begin decide_existing decide_state pure
  recalled r b db h c s o later =
      ap
        (λ x. elim x as (λ _. Result (IdempotencyDecision × Database) Failure) [
          | none ↦ ok (proceed, record db { requests = db.requests ++ pending_record i later ∷ [] })
          | some y ↦ decide_existing i y db
        ])
        h
      ∙ rw (c, s, o) refl

  decide_state-Begun :
      (r : RequestRecord) (s : RequestState) (o : Option Body)
      → conflicts r ≡ false
      → r.state ≡ s
      → r.outcome ≡ o
      → Triple
          (λ db. (find (has_key i) db.requests ≡ some r) × Present id db.programs)
          (decide_state s o)
          Begun
  unfolding decide_state pure throw
  decide_state-Begun r pending o c e f = record { run = λ db k. ends tt }
  decide_state-Begun r expired o c e f = record { run = λ db k. ends tt }
  decide_state-Begun r complete none c e f = record { run = λ db k. fails }
  decide_state-Begun r complete (some b) c e f = record {
    run = λ db k. ends (recalled r b db k.0 c e f, k.1);
  }

  decide_existing-Begun :
      (r : RequestRecord)
      → Triple
          (λ db. (find (has_key i) db.requests ≡ some r) × Present id db.programs)
          (decide_existing i r)
          Begun
  unfolding decide_existing pure
  decide_existing-Begun r =
      split_triple (conflicts r) (λ _. record { run = λ db k. ends tt })
        (λ c. decide_state-Begun r r.state r.outcome c refl refl)

  begin_ensures-Begun :
      (now : Date) (db : Database) (o : Option RequestRecord)
      → find (has_key i) db.requests ≡ o
      → Present id db.programs
      → Ensures Begun (elim o [
        | none ↦ ok (proceed, record db { requests = db.requests ++ pending_record i now ∷ [] })
        | some r ↦ decide_existing i r db
      ])
  begin_ensures-Begun now db none h k = ends ((now, db.requests, refl, h), k)
  begin_ensures-Begun now db (some r) h k = (decide_existing-Begun r).run db (h, k)

  pub begin-Begun : (now : Date) → Triple (λ db. Present id db.programs) (begin i now) Begun
  unfolding begin
  begin-Begun now = record { run = λ db k. begin_ensures-Begun now db _ refl k }

  pub pure_outcome :
      (b : Body)
      → Triple
          (λ db. Remembers i b db × Present id db.programs)
          (pure (record { created = true; body = b }))
          Answered
  unfolding pure
  pure_outcome b = record { run = λ db k. ends k }

  pub on_decision-Answered :
      (d : IdempotencyDecision) (fresh : Tx Outcome)
      → Triple Midway fresh Answered
      → Triple (Begun d) (on_decision d fresh) Answered
  unfolding on_decision pure throw
  on_decision-Answered (Idempotency.refused code) fresh h = record { run = λ db k. fails }
  on_decision-Answered (replay b) fresh h = record { run = λ db k. ends k }
  on_decision-Answered proceed fresh h = h
