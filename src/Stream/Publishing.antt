-- ===== src/Stream/Publishing.antt =====
-- src/treasury/consumer/treasury.consumer.ts: what a dispatch and the publishing of a dead letter leave
-- of the topics.
use invoice_reservation.Prelude.{◌≡◌, refl, ◌∙◌, ap, ℕ, zero, suc, List, [], ◌∷◌, ◌++◌}
use invoice_reservation.Prelude.Result.{Result, ok}
use invoice_reservation.Service.TreasuryEvent.{QuarantineReason}
use invoice_reservation.Stream.Classifier.{Thrown}
use invoice_reservation.Stream.Handlers.{InboundMessage}
use invoice_reservation.Stream.Consumer.{
  Fault, fine, before, after, DlqMessage, dlq_message, World, Consumer, dispatch, record_of,
  publish, suffer,
}

abbrev pub copies : ℕ → DlqMessage → List DlqMessage
copies zero x = []
copies (suc n) x = x ∷ copies n x

copies-suc :
    (n : ℕ) (ps : List DlqMessage) (x : DlqMessage)
    → (ps ++ copies n x) ++ x ∷ [] ≡ ps ++ copies (suc n) x
copies-suc zero [] x = refl
copies-suc (suc n) [] x = ap (λ xs. x ∷ xs) (copies-suc n [] x)
copies-suc n (p ∷ ps) x = ap (λ xs. p ∷ xs) (copies-suc n ps x)

-- A property of the worlds that a call may leave.
pub suffer-keeps :
    {A : Type 0} (P : World → Type 0) (f : Fault) (w : World) (done : Result A Thrown × World)
    → P w
    → P done.1
    → P (suffer f w done).1
suffer-keeps P fine w done p q = q
suffer-keeps P (before e) w done p q = p
suffer-keeps P (after e) w done p q = q

-- A call that returns has gone well.
suffer_ok :
    {A : Type 0} (f : Fault) (w : World) (done : Result A Thrown × World) {a : A}
    → (suffer f w done).0 ≡ ok a
    → (suffer f w done).1 ≡ done.1
suffer_ok fine w done h = refl
suffer_ok (before e) w done h = cc
suffer_ok (after e) w done h = refl

module _ (c : Consumer) (m : InboundMessage) where
  -- Nothing was sent to the broker.
  abbrev pub SameTopics : World → World → Type 0
  SameTopics w w' = (w'.published ≡ w.published) × (w'.committed ≡ w.committed)

  pub dispatch-SameTopics : (w0 w : World) → SameTopics w0 w → SameTopics w0 (dispatch c m w).1
  unfolding dispatch
  dispatch-SameTopics w0 w k = suffer-keeps (SameTopics w0) _ _ _ k k

  -- The broker may have stored the dead letter more than once, and has no new commit.
  abbrev pub Published : QuarantineReason → World → ℕ → World → Type 0
  Published reason w n w' =
      (w'.published ≡ w.published ++ copies n (dlq_message (record_of c m reason)))
      × (w'.committed ≡ w.committed)

  abbrev pub SomePublished : QuarantineReason → World → World → Type 0
  SomePublished reason w w' = (n : ℕ) × Published reason w n w'

  one_more :
      (reason : QuarantineReason) (w0 w : World) (n : ℕ)
      → Published reason w0 n w
      → w.published ++ dlq_message (record_of c m reason) ∷ []
        ≡ w0.published ++ copies (suc n) (dlq_message (record_of c m reason))
  one_more reason w0 w n (sent, same) =
      ap (λ ps. ps ++ dlq_message (record_of c m reason) ∷ []) sent ∙ copies-suc n w0.published _

  pub publish-SomePublished :
      (reason : QuarantineReason) (w0 w : World)
      → SomePublished reason w0 w
      → SomePublished reason w0 (publish c m (record_of c m reason) w).1
  unfolding publish
  publish-SomePublished reason w0 w (n, k) =
      suffer-keeps (SomePublished reason w0) _ _ _ (n, k) (suc n, (one_more reason w0 w n k, k.1))

  pub publish_ok :
      (reason : QuarantineReason) (w0 w : World)
      → SomePublished reason w0 w
      → (publish c m (record_of c m reason) w).0 ≡ ok tt
      → (n : ℕ) × Published reason w0 (suc n) (publish c m (record_of c m reason) w).1
  unfolding publish
  publish_ok reason w0 w (n, k) h = rw (suffer_ok _ _ _ h) (n, (one_more reason w0 w n k, k.1))
