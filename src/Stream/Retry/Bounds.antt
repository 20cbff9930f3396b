-- ===== src/Stream/Retry/Bounds.antt =====
-- src/treasury/retry/failure-classifier.ts: how often `withRetry` calls, and how long it sleeps.
use mathlib.Core.Path.{subst}
use invoice_reservation.Prelude.{
  ap, ◌⊎◌, false, sym, ◌≡◌, refl, ℕ, zero, suc, Option, none, some, List, [], ◌∷◌, ◌+◌, ◌≤◌, ◌<◌,
  leb, arith, Bool-cases, inl, inr,
}
use invoice_reservation.Prelude.Result.{Result, ok, err}
use invoice_reservation.Stream.Classifier.{
  Thrown, FailureClass, transient, permanent, classify_failure,
}
use invoice_reservation.Stream.Retry.{
  RetryPolicy, RetryError, rethrown, exhausted, Run, delay_ms, stops, on_error, retry_from,
  with_retry,
}

-- The delays before the attempts that follow `attempt`.
abbrev pub schedule : RetryPolicy → ℕ → ℕ → List ℕ
schedule policy attempt zero = []
schedule policy attempt (suc k) = delay_ms policy attempt ∷ schedule policy (suc attempt) k

pub delay_ms-le :
    (policy : RetryPolicy) (attempt : ℕ) → delay_ms policy attempt ≤ policy.max_delay_ms
unfolding delay_ms
delay_ms-le policy attempt = ground arith

class_cases : (c : FailureClass) → (c ≡ permanent) ⊎ (c ≡ transient)
class_cases permanent = inl refl
class_cases transient = inr refl

module _ {S A : Type 0} (fn : S → Result A Thrown × S) (policy : RetryPolicy) where
  by_value :
      {a b : A}
      → (◌≡◌ {A = Result A Thrown} (ok a) (ok b))
      → (◌≡◌ {A = Result A RetryError} (ok a) (ok b))
  by_value h = cc

  -- The state after `k` calls.
  abbrev pub after_calls : ℕ → S → S
  after_calls zero s = s
  after_calls (suc k) s = after_calls k (fn s).1

  -- What every call keeps, `k` calls keep.
  pub after_calls-keeps :
      (P : S → Type 0) → ((s : S) → P s → P (fn s).1) → (k : ℕ) (s : S) → P s → P (after_calls k s)
  after_calls-keeps P keeps zero s p = p
  after_calls-keeps P keeps (suc k) s p = after_calls-keeps P keeps k (fn s).1 (keeps s p)

  pub after_calls_last : (k : ℕ) (s : S) → after_calls (suc k) s ≡ (fn (after_calls k s)).1
  after_calls_last zero s = refl
  after_calls_last (suc k) s = after_calls_last k (fn s).1

  abbrev pub IsRetried : Result A Thrown → Type 0
  IsRetried (ok a) = ⊥
  IsRetried (err e) = classify_failure e ≡ transient

  -- Each of the first `k` calls fails with an error that is retried.
  abbrev pub AllRetried : ℕ → S → Type 0
  AllRetried zero s = Unit
  AllRetried (suc k) s = IsRetried (fn s).0 × AllRetried k (fn s).1

  -- The loop's outcome is that of its last call, on attempt `n`.
  abbrev pub Concludes : ℕ → Result A Thrown → Result A RetryError → Type 0
  Concludes n (ok a) r = r ≡ ok a
  Concludes n (err e) (ok a) = ⊥
  Concludes n (err e) (err (rethrown x)) = (classify_failure e ≡ permanent) × (x ≡ e)
  Concludes n (err e) (err (exhausted x)) =
      (classify_failure e ≡ transient) × (x ≡ e) × (policy.max_attempts ≤ n)

  same_value :
      {a b : A}
      → ◌≡◌ {A = Result A RetryError} (ok a) (ok b)
      → ◌≡◌ {A = Result A Thrown} (ok b) (ok a)
  same_value h = cc

  pub Concludes-ok : (n : ℕ) (r : Result A Thrown) {a : A} → Concludes n r (ok a) → r ≡ ok a
  Concludes-ok n (ok b) h = same_value h
  Concludes-ok n (err e) h = absurd h

  pub Concludes-exhausted :
      (n : ℕ) (r : Result A Thrown) {e : Thrown} → Concludes n r (err (exhausted e)) → r ≡ err e
  Concludes-exhausted n (ok b) h = cc
  Concludes-exhausted n (err e) h = ap err (sym h.1)

  -- The first `k` calls from `attempt` on are retried, and the next one ends the loop.
  pub record Ends (attempt : ℕ) (s : S) (run : Run S A) : Type 0 where
    pub calls : ℕ
    pub bounded : calls + attempt ≤ policy.max_attempts ⊎ (calls ≡ 0)
    pub slept : run.delays ≡ schedule policy attempt calls
    pub reached : run.state ≡ after_calls (suc calls) s
    pub retried : AllRetried calls s
    pub concluded : Concludes (calls + attempt) (fn (after_calls calls s)).0 run.outcome

  pub Ends-keeps :
      (P : S → Type 0)
      → ((s : S) → P s → P (fn s).1)
      → {attempt : ℕ} {s : S} {run : Run S A} → Ends attempt s run
      → P s
      → P run.state
  Ends-keeps P keeps {s} ends p =
      subst P (sym ends.reached) (after_calls-keeps P keeps (suc ends.calls) s p)

  pub Ends-ok :
      {attempt : ℕ} {s : S} {run : Run S A} {a : A} (ends : Ends attempt s run)
      → run.outcome ≡ ok a
      → (fn (after_calls ends.calls s)).0 ≡ ok a
  Ends-ok {attempt} {s} ends h =
      Concludes-ok (ends.calls + attempt) _ (
        subst (Concludes (ends.calls + attempt) (fn (after_calls ends.calls s)).0) h ends.concluded)

  now-Ends :
      (attempt : ℕ) (s : S) (r : Result A RetryError)
      → Concludes attempt (fn s).0 r
      → Ends attempt s (record { outcome = r; state = (fn s).1; delays = [] })
  now-Ends attempt s r c = record {
    calls = 0;
    bounded = inr refl;
    slept = refl;
    reached = refl;
    retried = tt;
    concluded = subst (λ n. Concludes n (fn s).0 r) (omega arith) c;
  }

  later-Ends :
      (attempt : ℕ) (s : S) (run : Run S A)
      → suc attempt ≤ policy.max_attempts
      → IsRetried (fn s).0
      → Ends (suc attempt) (fn s).1 run
      → Ends attempt s (record run { delays = delay_ms policy attempt ∷ run.delays })
  later-Ends attempt s run le again e = record {
    calls = suc e.calls;
    bounded = inl (ground (arith, e.bounded));
    slept = ap (λ ds. delay_ms policy attempt ∷ ds) e.slept;
    reached = e.reached;
    retried = (again, e.retried);
    concluded =
        subst (λ n. Concludes n (fn (after_calls (suc e.calls) s)).0 run.outcome) (omega arith)
          e.concluded;
  }

  Ends-on_error :
      (attempt : ℕ) (s : S) (e : Thrown) (again : Option (Run S A))
      → (fn s).0 ≡ err e
      → (suc attempt ≤ policy.max_attempts
          → (run : Run S A) × (again ≡ some run) × Ends (suc attempt) (fn s).1 run)
      → (run : Run S A) × (on_error policy attempt e (fn s).1 again ≡ some run) × Ends attempt s run
  unfolding on_error
  Ends-on_error attempt s e again failed ih = elim (class_cases (classify_failure e)) [
    | inl p ↦ (_, rw p refl, now-Ends attempt s (err (rethrown e)) (rw failed (p, refl)))
    | inr t ↦ elim (Bool-cases (leb policy.max_attempts attempt)) [
      | inl last ↦ (
        _,
        rw (t, last) refl,
        now-Ends attempt s (err (exhausted e)) (rw failed (t, refl, ground arith)),
      )
      | inr more ↦
          let (run, found, ends) = ih (ground arith) in
          (_, rw (t, more, found) refl, later-Ends attempt s run (ground arith) (rw failed t) ends)
    ]
  ]

  Ends-on_outcome :
      (attempt : ℕ) (s : S) (again : Option (Run S A)) (r : Result A Thrown)
      → (fn s).0 ≡ r
      → (suc attempt ≤ policy.max_attempts
          → (run : Run S A) × (again ≡ some run) × Ends (suc attempt) (fn s).1 run)
      → (run : Run S A) × (elim r [
        | ok a ↦ stops (ok a) (fn s).1
        | err e ↦ on_error policy attempt e (fn s).1 again
      ]
          ≡ some run)
        × Ends attempt s run
  Ends-on_outcome attempt s again (ok a) returned ih =
      (_, refl, now-Ends attempt s (ok a) (rw returned refl))
  Ends-on_outcome attempt s again (err e) failed ih = Ends-on_error attempt s e again failed ih

  retry_from-Ends :
      (fuel attempt : ℕ) (s : S)
      → policy.max_attempts < suc fuel + attempt
      → (run : Run S A) × (retry_from fn policy (suc fuel) attempt s ≡ some run)
        × Ends attempt s run
  unfolding retry_from
  retry_from-Ends zero attempt s enough =
      Ends-on_outcome attempt s none (fn s).0 refl (λ le. absurd (omega arith))
  retry_from-Ends (suc fuel) attempt s enough =
      Ends-on_outcome attempt s (retry_from fn policy (suc fuel) (suc attempt) (fn s).1) (fn s).0
        refl (λ le. retry_from-Ends fuel (suc attempt) (fn s).1 (omega arith))

  -- The loop ends: it calls at least once and at most `max_attempts` times, or once if that is 0.
  -- Every call but the last fails with an error that is retried and is followed by the scheduled
  -- delay, the state is that after the last call, and the outcome is the last call's: its value,
  -- its error if that is permanent, or the error as exhausted once no attempt is left.
  pub with_retry-Ends :
      (s : S) → (run : Run S A) × (with_retry fn policy s ≡ some run) × Ends 1 s run
  unfolding with_retry
  with_retry-Ends s = retry_from-Ends policy.max_attempts 1 s (omega arith)

  goes_on :
      (attempt : ℕ) (s : S) (again : Option (Run S A)) (run : Run S A) (r : Result A Thrown)
      → IsRetried r
      → attempt < policy.max_attempts
      → again ≡ some run
      → elim r [ ok a ↦ stops (ok a) (fn s).1 | err e ↦ on_error policy attempt e (fn s).1 again ]
        ≡ some (record run { delays = delay_ms policy attempt ∷ run.delays })
  unfolding on_error
  goes_on attempt s again run (ok a) t more found = absurd t
  goes_on attempt s again run (err e) t more found =
      let test : leb policy.max_attempts attempt ≡ false = ground arith in rw (t, test, found) refl

  returns_now :
      (attempt : ℕ) (s : S) (again : Option (Run S A)) (r : Result A Thrown) {a : A}
      → r ≡ ok a
      → elim r [ ok a ↦ stops (ok a) (fn s).1 | err e ↦ on_error policy attempt e (fn s).1 again ]
        ≡ stops (ok a) (fn s).1
  returns_now attempt s again (ok b) h = ap (λ r. stops r (fn s).1) (by_value h)
  returns_now attempt s again (err e) h = cc

  retry_from-survives :
      (k fuel attempt : ℕ) (s : S) {a : A}
      → k + attempt ≤ policy.max_attempts ⊎ (k ≡ 0)
      → k < fuel
      → AllRetried k s
      → (fn (after_calls k s)).0 ≡ ok a
      → retry_from fn policy fuel attempt s
        ≡ some (record {
          outcome = ok a;
          state = after_calls (suc k) s;
          delays = schedule policy attempt k;
        })
  unfolding retry_from
  retry_from-survives k zero attempt s within enough retried works = absurd (omega arith)
  retry_from-survives zero (suc fuel) attempt s within enough retried works =
      returns_now attempt s _ (fn s).0 works
  retry_from-survives (suc k) (suc fuel) attempt s {a} within enough (again, retried) works =
      goes_on attempt s (retry_from fn policy fuel (suc attempt) (fn s).1) _ (fn s).0 again
        (ground arith)
        (retry_from-survives k fuel (suc attempt) (fn s).1 (inl (ground arith)) (omega arith)
          retried works)

  -- An outage that the budget outlasts: where each of the first `k` calls fails with an error that
  -- is retried, `k` is below `max_attempts` and the next call returns, the loop returns its value,
  -- after `k` delays.
  pub with_retry-survives :
      (k : ℕ) (s : S) {a : A}
      → k < policy.max_attempts
      → AllRetried k s
      → (fn (after_calls k s)).0 ≡ ok a
      → with_retry fn policy s
        ≡ some
            (record { outcome = ok a; state = after_calls (suc k) s; delays = schedule policy 1 k })
  unfolding with_retry
  with_retry-survives k s lt retried works =
      retry_from-survives k (suc policy.max_attempts) 1 s (inl (omega arith)) (omega arith) retried
        works
