-- ===== src/Stream/Retry.antt =====
-- src/treasury/retry/failure-classifier.ts: `withRetry`.
pub mod Bounds
use invoice_reservation.Prelude.{
  ℕ, zero, suc, Option, none, some, List, [], ◌∷◌, if◌then◌else◌, ◌-◌, ◌*◌, ◌^◌, leb, map,
}
use invoice_reservation.Prelude.Result.{Result, ok, err}
use invoice_reservation.Stream.Classifier.{
  Thrown, FailureClass, transient, permanent, classify_failure,
}

pub record RetryPolicy : Type 0 where
  pub max_attempts : ℕ
  pub base_delay_ms : ℕ
  pub max_delay_ms : ℕ

-- What `withRetry` throws: the call's own error, or a RetryExhaustedError with the last one.
pub data RetryError : Type 0 where
  rethrown exhausted : Thrown → RetryError

-- What the loop leaves: its outcome, the state after it, and the delays it slept.
pub record Run (S A : Type 0) : Type 0 where
  pub outcome : Result A RetryError
  pub state : S
  pub delays : List ℕ

-- `Math.min(maxDelayMs, baseDelayMs * 2 ** (attempt - 1))`
abbrev pub min : ℕ → ℕ → ℕ
min a b = if leb a b then a else b

unfoldable pub delay_ms : RetryPolicy → ℕ → ℕ
delay_ms policy attempt = min policy.max_delay_ms (policy.base_delay_ms * 2 ^ (attempt - 1))

module _ {S A : Type 0} where
  abbrev pub after_delay : ℕ → Option (Run S A) → Option (Run S A)
  after_delay delay none = none
  after_delay delay (some run) = some (record run { delays = delay ∷ run.delays })

  abbrev pub stops : Result A RetryError → S → Option (Run S A)
  stops r s = some (record { outcome = r; state = s; delays = [] })

  -- The `catch`; `again` is the rest of the loop.
  abbrev pub on_class :
      RetryPolicy → ℕ → Thrown → S → Option (Run S A) → FailureClass → Option (Run S A)
  on_class policy attempt e s again permanent = stops (err (rethrown e)) s
  on_class policy attempt e s again transient =
      if leb policy.max_attempts attempt
      then stops (err (exhausted e)) s
      else after_delay (delay_ms policy attempt) again

  unfoldable pub on_error : RetryPolicy → ℕ → Thrown → S → Option (Run S A) → Option (Run S A)
  on_error policy attempt e s again = on_class policy attempt e s again (classify_failure e)

  -- A call of `fn` takes the state before it to its result and the state after it.
  module _ (fn : S → Result A Thrown × S) (policy : RetryPolicy) where
    -- `none` where the fuel ends.
    unfoldable pub retry_from : (fuel attempt : ℕ) → S → Option (Run S A)
    unfolding on_error
    retry_from zero attempt s = none
    retry_from (suc fuel) attempt s =
        let (r, s') = fn s in
        elim r [
          | ok a ↦ stops (ok a) s'
          | err e ↦ on_error policy attempt e s' (retry_from fuel (suc attempt) s')
        ]

    unfoldable pub with_retry : S → Option (Run S A)
    with_retry s = retry_from (suc policy.max_attempts) 1 s
