-- ===== src/Service/Frames.antt =====
-- What the shared steps of the services of src/capacity/application leave alone: any property of
-- the database that does not read the table which a step writes.
use invoice_reservation.Prelude.{
  ◌≡◌, refl, Option, none, some, List, [], ◌∷◌, ◌++◌, find, update_where, Bool,
}
use invoice_reservation.Prelude.Text.{Text}
use invoice_reservation.Prelude.Result.{ok, err}
use invoice_reservation.Position.{Date, ProgramPosition, AdvanceResult}
use invoice_reservation.Store.{
  Database, Tx, pure, throw, with_program_lock, find_program, program_not_found, upsert_position,
  has_id, write_position, persist_advance,
}
use invoice_reservation.Store.Tables.{
  ProgramEntity, Body, RequestState, pending, complete, expired, RequestRecord, ProcessedMessage,
  StreamPosition, StreamCoordinates, LedgerRow,
}
use invoice_reservation.Store.Triples.{
  Ensures, ends, fails, Triple, bind_triple, check_triple, check_unique_triple, modify_triple,
  pure_triple, if_triple, gets_triple,
}
use invoice_reservation.Service.Idempotency.{
  IdempotencyDecision, proceed, replay, RequestIdentity, begin, decide_existing, complete_request,
  has_key, pending_record,
}
use invoice_reservation.Service.Idempotency
use invoice_reservation.Service.Reserve.{Outcome, on_decision}
use invoice_reservation.Service.TreasuryEvent.{insert_processed}

module _ {P : Database → Type 0} where
  lock_ensures :
      {A : Type 0} {Q : A → Database → Type 0} (id : Text) (body : ProgramEntity → Tx A)
      (db : Database) (o : Option ProgramEntity)
      → find_program id db ≡ o
      → ((p : ProgramEntity) → Triple (λ db'. P db' × (find_program id db' ≡ some p)) (body p) Q)
      → P db
      → Ensures Q (elim o [ none ↦ err (program_not_found id) | some program ↦ body program db ])
  lock_ensures id body db none e h p = fails
  lock_ensures id body db (some q) e h p = (h q).run db (p, e)

  -- The body of a locked transaction may rely on the row that the lock read.
  pub lock_triple :
      {A : Type 0} {Q : A → Database → Type 0} (id : Text) (body : ProgramEntity → Tx A)
      → ((p : ProgramEntity) → Triple (λ db. P db × (find_program id db ≡ some p)) (body p) Q)
      → Triple P (with_program_lock id body) Q
  unfolding with_program_lock
  lock_triple id body h = record {
    run = λ db p. lock_ensures id body db (find_program id db) refl h p;
  }

module _ {P : Database → Type 0}
    (stable : (db : Database) (rs : List RequestRecord)
      → P db
      → P (record db { requests = rs })) where
  decide_state-ensures :
      (s : RequestState) (o : Option Body) (db : Database)
      → P db
      → Ensures (λ _. P) (Idempotency.decide_state s o db)
  unfolding Idempotency.decide_state pure throw
  decide_state-ensures pending o db p = ends p
  decide_state-ensures expired o db p = ends p
  decide_state-ensures complete none db p = fails
  decide_state-ensures complete (some b) db p = ends p

  decide_existing-triple :
      (i : RequestIdentity) (r : RequestRecord) → Triple P (decide_existing i r) (λ _. P)
  unfolding decide_existing
  decide_existing-triple i r =
      if_triple _ (pure_triple _) (record { run = decide_state-ensures r.state r.outcome })

  begin_ensures :
      (i : RequestIdentity) (now : Date) (db : Database) (o : Option RequestRecord)
      → P db
      → Ensures
          (λ _. P)
          (elim o [
            | none ↦ ok (proceed, record db { requests = db.requests ++ pending_record i now ∷ [] })
            | some r ↦ decide_existing i r db
          ])
  begin_ensures i now db none p = ends (stable db _ p)
  begin_ensures i now db (some r) p = (decide_existing-triple i r).run db p

  pub begin_triple : (i : RequestIdentity) (now : Date) → Triple P (begin i now) (λ _. P)
  unfolding begin
  begin_triple i now = record {
    run = λ db p. begin_ensures i now db (find (has_key i) db.requests) p;
  }

  pub complete_request-triple :
      (i : RequestIdentity) (b : Body) → Triple P (complete_request i b) (λ _. P)
  unfolding complete_request
  complete_request-triple i b = modify_triple _ (λ db p. stable db _ p)

pub on_decision-triple :
    {P : Database → Type 0} {Q : Outcome → Database → Type 0} (d : IdempotencyDecision)
    (fresh : Tx Outcome)
    → ((o : Outcome) (db : Database) → P db → Q o db)
    → Triple P fresh Q
    → Triple P (on_decision d fresh) Q
unfolding on_decision pure throw
on_decision-triple (Idempotency.refused code) fresh w h = record { run = λ db p. fails }
on_decision-triple (replay body) fresh w h = record { run = λ db p. ends (w _ db p) }
on_decision-triple proceed fresh w h = h

pub insert_processed-triple :
    {P : Database → Type 0}
    (stable : (db : Database) (ms : List ProcessedMessage)
      → P db
      → P (record db { processed = ms }))
    (m : ProcessedMessage)
    → Triple P (insert_processed m) (λ _. P)
unfolding insert_processed
insert_processed-triple stable m =
    bind_triple _ _ (check_triple _) λ _. modify_triple _ (λ db p. stable db _ p)

pub upsert_position-triple :
    {P : Database → Type 0}
    (stable : (db : Database) (ss : List StreamPosition)
      → P db
      → P (record db { stream_positions = ss }))
    (id : Text) (c : StreamCoordinates) (now : Date)
    → Triple P (upsert_position id c now) (λ _. P)
unfolding upsert_position
upsert_position-triple stable id c now =
    bind_triple _ _ (check_triple _) λ _. modify_triple _ (λ db p. stable db _ p)

pub persist_advance-triple :
    {P : Database → Type 0} (id : Text)
    (ledger : (db : Database) (ls : List LedgerRow) → P db → P (record db { ledger = ls }))
    (written : (q : ProgramPosition) (now : Date) (db : Database)
      → P db
      → P (record db { programs = update_where (has_id id) (write_position q now) db.programs }))
    (reconciling : Bool) (old : ProgramPosition) (r : AdvanceResult) (now : Date)
    → Triple P (persist_advance reconciling old id r now) (λ _. P)
unfolding persist_advance
persist_advance-triple {P} id ledger written reconciling old r now =
    bind_triple _ _ (check_triple _) λ _. bind_triple _ _ (gets_triple _) λ rows.
      bind_triple _ _ (check_unique_triple _) λ _.
        bind_triple _ _ (modify_triple {Q = P} _ (λ db k. ledger db _ k)) λ _.
          bind_triple _ _ (check_triple _) λ _.
            bind_triple _ _ (check_triple _)
              λ _. modify_triple _ (λ db k. written r.program now db k)
