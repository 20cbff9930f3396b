-- ===== src/Stream/Outage.antt =====
-- src/treasury/consumer/treasury.consumer.ts: an outage that the retries outlast.
use invoice_reservation.Prelude.{
  ◌≡◌, refl, ◌∙◌, ap, ℕ, zero, suc, ◌+◌, ◌<◌, some, [], ◌∷◌, ◌++◌, arith, ◌⊎◌, inl, inr,
}
use invoice_reservation.Prelude.Result.{Result, ok, err, map_err}
use invoice_reservation.Store.{Database, Failure}
use invoice_reservation.Stream.Classifier.{Thrown, transient, classify_failure}
use invoice_reservation.Stream.Retry.{RetryError}
use invoice_reservation.Stream.Retry.Bounds.{
  AllRetried, after_calls, after_calls_last, with_retry-survives,
}
use invoice_reservation.Stream.Handlers.{InboundMessage, HandleOutcome, applied, skipped}
use invoice_reservation.Stream.Consumer.{
  fine, before, World, Consumer, next_offset, handle_now, handled, dispatch, commit_offset, commit,
  conclude, conclude_run, process_message, ticked, suffer,
}

module _ (c : Consumer) (m : InboundMessage) where
  -- From the call `tick` on, `k` calls fail without effect, each with an error that is retried.
  abbrev pub Outage : (k tick : ℕ) → Type 0
  Outage zero tick = Unit
  Outage (suc k) tick =
      (e : Thrown) × ((c.conditions tick).fault ≡ before e)
      × (classify_failure e ≡ transient)
      × Outage k (suc tick)

  abbrev later : ℕ → World → World
  later zero w = w
  later (suc k) w = later k (ticked w)

  later_lem : (k : ℕ) (w : World) → later k w ≡ record w { tick = k + w.tick }
  later_lem zero w = ap (λ n. record w { tick = n }) (omega arith)
  later_lem (suc k) w = later_lem k (ticked w) ∙ ap (λ n. record w { tick = n }) (omega arith)

  dispatch_fails :
      (w : World) (e : Thrown)
      → (c.conditions w.tick).fault ≡ before e
      → dispatch c m w ≡ (err e, ticked w)
  unfolding dispatch
  dispatch_fails w e h =
      ap (λ f. suffer f (ticked w) (handled c m (c.conditions w.tick).now (ticked w))) h

  Outage-calls :
      (k : ℕ) (w : World)
      → Outage k w.tick
      → AllRetried (dispatch c m) c.policy k w
        × (after_calls (dispatch c m) c.policy k w ≡ later k w)
  Outage-calls zero w out = (tt, refl)
  Outage-calls (suc k) w (e, failed, again, out) =
      let (retried, reached) = Outage-calls k (ticked w) out in
      rw (dispatch_fails w e failed) ((again, retried), reached)

  abbrev Kept : HandleOutcome → Type 0
  Kept o = (o ≡ applied) ⊎ (o ≡ skipped)

  -- The world once a message is handled with no dead letter.
  abbrev pub settled : (w : World) (db : Database) (calls : ℕ) → World
  settled w db calls = record {
    database = db;
    published = w.published;
    committed = w.committed ++ next_offset m ∷ [];
    tick = calls + w.tick;
  }

  dispatch_works :
      (w : World) {o : HandleOutcome} {db : Database}
      → (c.conditions w.tick).fault ≡ fine
      → handle_now c m (c.conditions w.tick).now w.database ≡ (ok o, db)
      → dispatch c m w ≡ (ok o, record (ticked w) { database = db })
  unfolding dispatch
  dispatch_works w works returned =
      ap (λ f. suffer f (ticked w) (handled c m (c.conditions w.tick).now (ticked w))) works
      ∙ ap
          (λ (x : Result HandleOutcome Failure × Database).
            (map_err x.0 c.thrown_of, record (ticked w) { database = x.1 }))
          returned

  commit_works :
      (w : World)
      → (c.conditions w.tick).fault ≡ fine
      → commit c m w ≡ (ok tt, record (ticked w) { committed = w.committed ++ next_offset m ∷ [] })
  unfolding commit_offset
  commit_works w works =
      ap
        (λ f.
          let x =
            suffer f (ticked w)
              (ok tt, record (ticked w) { committed = w.committed ++ next_offset m ∷ [] }) in
          (map_err x.0 RetryError.rethrown, x.1))
        works

  conclude-Kept :
      (o : HandleOutcome) (w : World) → Kept o → conclude c m (ok o) w ≡ some (commit c m w)
  unfolding conclude
  conclude-Kept o w (inl h) = rw h refl
  conclude-Kept o w (inr h) = rw h refl

  -- Where the first `k` calls of the handler fail without effect and with errors that are retried,
  -- `k` is below the attempts of the policy, the next call returns that the message is applied or
  -- skipped, and the commit works, the processing succeeds: the database is the one which that call
  -- alone gives, the offset is committed, and no dead letter is sent.
  pub process_message-survives :
      (k : ℕ) (w : World) {o : HandleOutcome} {db : Database}
      → k < c.policy.max_attempts
      → Outage k w.tick
      → (c.conditions (k + w.tick)).fault ≡ fine
      → handle_now c m (c.conditions (k + w.tick)).now w.database ≡ (ok o, db)
      → Kept o
      → (c.conditions (suc (k + w.tick))).fault ≡ fine
      → process_message c m w ≡ some (ok tt, settled w db (suc (suc k)))
  unfolding process_message
  process_message-survives k w {o} {db} lt out works returned kept commits =
      let (retried, reached) = Outage-calls k w out in
      let last = dispatch_works (record w { tick = k + w.tick }) works returned in
      let there = reached ∙ later_lem k w in
      ap (conclude_run c m) (
        with_retry-survives (dispatch c m) c.policy k w lt retried
          (ap (λ x. (dispatch c m x).0) there ∙ ap (λ x. x.0) last))
      ∙ ap (conclude c m (ok o)) (
          after_calls_last (dispatch c m) c.policy k w
          ∙ ap (λ x. (dispatch c m x).1) there
          ∙ ap (λ x. x.1) last)
      ∙ conclude-Kept o _ kept
      ∙ ap some (commit_works (record w { database = db; tick = suc (k + w.tick) }) commits)
      ∙ ap (λ n. some (ok tt, record (settled w db 0) { tick = n })) (omega arith)
