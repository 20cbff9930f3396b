-- ===== src/Stream/Safety.antt =====
-- src/treasury/consumer/treasury.consumer.ts: what a processed message leaves.
use mathlib.Core.List.{append-nil}
use invoice_reservation.Prelude.{
  ◌≡◌, refl, sym, ◌∙◌, ap, ℕ, suc, Bool, true, false, some, List, [], ◌∷◌, ◌++◌, ◌⊎◌, inl, inr, ◌+◌,
  ◌<◌, ◌≤◌, arith, Option, if◌then◌else◌,
}
use invoice_reservation.Prelude.Result.{Result, ok, err, map_err}
use invoice_reservation.Service.TreasuryEvent.{QuarantineReason, handler_failure}
use invoice_reservation.Stream.Classifier.{
  Thrown, transient, permanent, classify_failure, is_transient_failure,
}
use invoice_reservation.Stream.Retry.{RetryError, rethrown, exhausted, Run}
use invoice_reservation.Stream.Retry.Bounds.{
  after_calls, after_calls-keeps, after_calls_last, Concludes, Concludes-ok, Ends, Ends-keeps,
  with_retry-Ends,
}
use invoice_reservation.Stream.Handlers.{
  InboundMessage, HandleOutcome, applied, skipped, quarantined,
}
use invoice_reservation.Stream.Consumer.{
  Fault, fine, before, after, DlqMessage, dlq_message, next_offset, World, Consumer, dispatch,
  record_of, publish, quarantine, commit_offset, commit, commit_after, conclude, process_message,
  quarantine_and_commit, commit_published, conclude_run, Processed, ticked, suffer,
}
use invoice_reservation.Stream.Publishing.{
  copies, SameTopics, Published, dispatch-SameTopics, SomePublished, publish-SomePublished,
  publish_ok,
}

module _ (c : Consumer) (m : InboundMessage) where
  -- Why a message is sent to the dead-letter topic, from the result of the last call of its handler:
  -- the handler has given the reason, or it has failed with an error that is permanent or that is not
  -- transient.
  pub data Refused : Result HandleOutcome Thrown → QuarantineReason → Type 0 where
    by_handler : {reason : QuarantineReason} → Refused (ok (quarantined reason)) reason
    by_class : {e : Thrown} → classify_failure e ≡ permanent → Refused (err e) handler_failure
    by_failure : {e : Thrown} → is_transient_failure e ≡ false → Refused (err e) handler_failure

  -- What stands for the message once its offset may be committed, with the result of the handler's
  -- last call: that the message was applied or skipped, or a refusal that the dead-letter topic has.
  pub data Disposed (w : World) : Result HandleOutcome Thrown → List DlqMessage → Type 0 where
    was_applied : {ps : List DlqMessage} → ps ≡ w.published → Disposed w (ok applied) ps
    was_skipped : {ps : List DlqMessage} → ps ≡ w.published → Disposed w (ok skipped) ps
    was_quarantined :
        {last : Result HandleOutcome Thrown} {ps : List DlqMessage} (reason : QuarantineReason)
        (n : ℕ)
        → Refused last reason
        → ps ≡ w.published ++ copies (suc n) (dlq_message (record_of c m reason))
        → Disposed w last ps

  -- How a message's processing may end, from the result of the handler's last call.
  pub data Settles (w : World)
      : Result HandleOutcome Thrown → Result (Unit {0}) RetryError → World → Type 0 where
    left :
        {w' : World} {e : Thrown}
        → classify_failure e ≡ transient
        → is_transient_failure e ≡ true
        → SameTopics c m w w'
        → Settles w (err e) (err (exhausted e)) w'
    unpublished :
        {last : Result HandleOutcome Thrown} {w' : World} {e : RetryError}
        (reason : QuarantineReason) (n : ℕ)
        → Refused last reason
        → Published c m reason w n w'
        → Settles w last (err e) w'
    uncommitted :
        {last : Result HandleOutcome Thrown} {w' : World} {e : Thrown}
        → Disposed w last w'.published
        → (w'.committed ≡ w.committed) ⊎ (w'.committed ≡ w.committed ++ next_offset m ∷ [])
        → Settles w last (err (rethrown e)) w'
    committed :
        {last : Result HandleOutcome Thrown} {w' : World}
        → Disposed w last w'.published
        → w'.committed ≡ w.committed ++ next_offset m ∷ []
        → Settles w last (ok tt) w'

  commit-Settles :
      (last : Result HandleOutcome Thrown) (w w1 : World)
      → Disposed w last w1.published
      → w1.committed ≡ w.committed
      → Settles w last (commit c m w1).0 (commit c m w1).1
  unfolding commit_offset
  commit-Settles last w w1 disposed same = by_fault (c.conditions w1.tick).fault
    where
      more : w1.committed ++ next_offset m ∷ [] ≡ w.committed ++ next_offset m ∷ []
      more = ap (λ ts. ts ++ next_offset m ∷ []) same

      done : Result (Unit {0}) Thrown × World
      done = (ok tt, record (ticked w1) { committed = w1.committed ++ next_offset m ∷ [] })

      by_fault :
          (f : Fault)
          → Settles w last
              (map_err (suffer f (ticked w1) done).0 rethrown)
              (suffer f (ticked w1) done).1
      by_fault fine = committed disposed more
      by_fault (before e) = uncommitted disposed (inl same)
      by_fault (after e) = uncommitted disposed (inr more)

  -- From a loop of publishes that ended.
  published-Settles :
      (result : Result HandleOutcome Thrown) (reason : QuarantineReason) (w w1 : World)
      (run : Run World (Unit {0}))
      → Refused result reason
      → SameTopics c m w w1
      → Ends (publish c m (record_of c m reason)) c.policy 1 w1 run
      → Settles w result
          (commit_after c m run.outcome run.state).0
          (commit_after c m run.outcome run.state).1
  published-Settles result reason w w1 run refused (same, kept) ends =
      by_outcome run.outcome ends.concluded
    where
      last : World
      last = after_calls (publish c m (record_of c m reason)) c.policy ends.calls w1

      before_last : SomePublished c m reason w last
      before_last =
          after_calls-keeps (publish c m (record_of c m reason)) c.policy
            (SomePublished c m reason w) (publish-SomePublished c m reason w) ends.calls w1
            (0, (same ∙ sym (append-nil w.published), kept))

      ended : run.state ≡ (publish c m (record_of c m reason) last).1
      ended =
          ends.reached
          ∙ after_calls_last (publish c m (record_of c m reason)) c.policy ends.calls w1

      by_outcome :
          (r : Result (Unit {0}) RetryError)
          → Concludes
              (publish c m (record_of c m reason))
              c.policy
              (ends.calls + 1)
              (publish c m (record_of c m reason) last).0
              r
          → Settles w result (commit_after c m r run.state).0 (commit_after c m r run.state).1
      by_outcome (ok u) k = rw ended (
          let (n, sent) =
            publish_ok c m reason w last before_last
              (Concludes-ok (publish c m (record_of c m reason)) c.policy (ends.calls + 1) _ k) in
          commit-Settles result w _ (was_quarantined reason n refused sent.0) sent.1)
      by_outcome (err e) k = rw ended (
          let (n, sent) = publish-SomePublished c m reason w last before_last in
          unpublished reason n refused sent)

  -- A message that the handler's last call, with the result `last`, leaves in the world `w1`.
  abbrev SettlesAs : World → Result HandleOutcome Thrown → Option (Processed c m) → Type 0
  SettlesAs w last o =
      (r : Result (Unit {0}) RetryError) × (w' : World) × (o ≡ some (r, w')) × Settles w last r w'

  quarantine-Settles :
      (last : Result HandleOutcome Thrown) (reason : QuarantineReason) (w w1 : World)
      → Refused last reason
      → SameTopics c m w w1
      → SettlesAs w last (quarantine_and_commit c m reason w1)
  unfolding quarantine
  quarantine-Settles last reason w w1 refused same =
      let (run, found, ends) = with_retry-Ends (publish c m (record_of c m reason)) c.policy w1 in
      (
        _,
        _,
        ap (commit_published c m) found,
        published-Settles last reason w w1 run refused same ends,
      )

  exhausted-Settles :
      (w w1 : World) (e : Thrown)
      → classify_failure e ≡ transient
      → SameTopics c m w w1
      → (b : Bool) → is_transient_failure e ≡ b
      → SettlesAs w
          (err e)
          (if b then some (err (exhausted e), w1) else quarantine_and_commit c m handler_failure w1)
  exhausted-Settles w w1 e class same true again = (_, _, refl, left class again same)
  exhausted-Settles w w1 e class same false never =
      quarantine-Settles (err e) handler_failure w w1 (by_failure never) same

  conclude-Settles :
      (w w1 : World) (n : ℕ) (last : Result HandleOutcome Thrown)
      (r : Result HandleOutcome RetryError)
      → SameTopics c m w w1
      → Concludes (dispatch c m) c.policy n last r
      → SettlesAs w last (conclude c m r w1)
  unfolding conclude
  conclude-Settles w w1 n (ok o) r same concluded = rw concluded (on_outcome o)
    where
      on_outcome : (o : HandleOutcome) → SettlesAs w (ok o) (conclude c m (ok o) w1)
      on_outcome applied =
          (_, _, refl, commit-Settles (ok applied) w w1 (was_applied same.0) same.1)
      on_outcome skipped =
          (_, _, refl, commit-Settles (ok skipped) w w1 (was_skipped same.0) same.1)
      on_outcome (quarantined reason) =
          quarantine-Settles (ok (quarantined reason)) reason w w1 by_handler same
  conclude-Settles w w1 n (err e) (ok o) same concluded = absurd concluded
  conclude-Settles w w1 n (err e) (err (rethrown x)) same (class, equal) =
      quarantine-Settles (err e) handler_failure w w1 (by_class class) same
  conclude-Settles w w1 n (err e) (err (exhausted x)) same (class, equal, last) =
      rw equal (exhausted-Settles w w1 e class same (is_transient_failure e) refl)

  -- The processing of a message ends, after calls of the handler of which the last, on an attempt
  -- within the policy's, decides how. Where it returns that the message was applied or skipped, no
  -- dead letter is sent and the offset is committed, unless the commit itself throws. Where it
  -- returns a reason for quarantine, or fails with an error that is permanent or not transient, the
  -- dead letter is sent, maybe several times, and then the offset is committed, unless the publishing
  -- or the commit throws; nothing is committed where the dead letter could not be published. Where it
  -- fails with a transient error, neither topic changes and the error is thrown as exhausted.
  pub process_message-Settles :
      (w : World)
      → (k : ℕ) × (k < c.policy.max_attempts ⊎ (k ≡ 0))
        × (r : Result (Unit {0}) RetryError) × (w' : World) × (process_message c m w ≡ some (r, w'))
        × Settles w (dispatch c m (after_calls (dispatch c m) c.policy k w)).0 r w'
  unfolding process_message
  process_message-Settles w =
      let (run, found, ends) = with_retry-Ends (dispatch c m) c.policy w in
      let same =
        Ends-keeps (dispatch c m) c.policy (SameTopics c m w) (dispatch-SameTopics c m w) ends
          (refl, refl) in
      let (r, w', found', settles) =
        conclude-Settles w run.state (ends.calls + 1) _ run.outcome same ends.concluded in
      (ends.calls, within ends.bounded, r, w', ap (conclude_run c m) found ∙ found', settles)
    where
      within :
          {k : ℕ} → k + 1 ≤ c.policy.max_attempts ⊎ (k ≡ 0) → k < c.policy.max_attempts ⊎ (k ≡ 0)
      within h = ground arith
