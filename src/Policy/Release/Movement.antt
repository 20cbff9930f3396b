-- ===== src/Policy/Release/Movement.antt =====
-- src/capacity/domain/policies/release.policy.ts: what an accepted release moves, at any rate.
use invoice_reservation.Prelude.{
  ◌≡◌, refl, sym, ap, ◌∙◌, Bool, true, false, not, ◌&&◌, if◌then◌else◌, arith,
}
use invoice_reservation.Prelude.Text.{Text, text_eq}
use invoice_reservation.Prelude.Int.{ℤ, pos, ◌-ℤ◌, ◌*ℤ◌, ltb_ℤ, leb_ℤ, ◌==ℤ◌, ==ℤ_iff}
use invoice_reservation.Prelude.Result.{Result, ok, err, ◌>>=◌, bind_inv}
use invoice_reservation.Errors.{
  RefusalCode, release_exceeds_reserved, amount_rounds_to_zero, invalid_amount, currency_mismatch,
  reservation_terminal,
}
use invoice_reservation.Money.{
  Money, MoneyError, parse_currency, money, convert, round_half_up, rate_scale, ConversionOutcome,
  converted, rounds_to_zero,
}
use invoice_reservation.Money.Rounding.{round_half_up_lem, nearest-zero}
use invoice_reservation.Policy.Release.{
  ReleaseInput, ReleaseDecision, partially_released, fully_released, converted_minor, conclude,
  settle, release_policy, is_terminal,
}

-- What a decision makes of a reservation with `reserved` outstanding.
abbrev pub Moves : ℤ → ReleaseDecision → Type 0
Moves reserved d =
    (d.delta_minor ≡ reserved -ℤ d.outstanding_reserved_minor)
    × (is_terminal d.status ≡ true → d.outstanding_reserved_minor ≡ pos 0)

outcome_eq :
    {x y : ConversionOutcome} → ◌≡◌ {A = Result ConversionOutcome MoneyError} (ok x) (ok y) → x ≡ y
outcome_eq h = cc

decided_eq :
    {x y : Result ReleaseDecision RefusalCode}
    → ◌≡◌ {A = Result (Result ReleaseDecision RefusalCode) MoneyError} (ok x) (ok y)
    → x ≡ y
decided_eq h = cc

refused :
    {code : RefusalCode} {d : ReleaseDecision}
    → ◌≡◌ {A = Result (Result ReleaseDecision RefusalCode) MoneyError} (ok (err code)) (ok (ok d))
    → ⊥
refused h = cc

decision_eq :
    {x d : ReleaseDecision} → ◌≡◌ {A = Result ReleaseDecision RefusalCode} (ok x) (ok d) → x ≡ d
decision_eq h = cc

chosen-Moves :
    (oi reserved rem : ℤ) (low zero_delta zero_rem zero_oi : Bool) {d : ReleaseDecision}
    → (zero_rem ≡ true → rem ≡ pos 0)
    → (zero_oi ≡ true → rem ≡ pos 0)
    → (◌≡◌ {A = Result ReleaseDecision RefusalCode}
        (if low
          then err release_exceeds_reserved
          else if zero_delta
          then err amount_rounds_to_zero
          else if zero_rem
          then ok (record {
            delta_minor = reserved -ℤ rem;
            outstanding_invoice_minor = pos 0;
            outstanding_reserved_minor = pos 0;
            status = fully_released;
          })
          else ok (record {
            delta_minor = reserved -ℤ rem;
            outstanding_invoice_minor = oi;
            outstanding_reserved_minor = rem;
            status = if zero_oi then fully_released else partially_released;
          }))
        (ok d))
    → Moves reserved d
chosen-Moves oi reserved rem true b c e z w h = cc
chosen-Moves oi reserved rem false true c e z w h = cc
chosen-Moves oi reserved rem false false true e z w h =
    rw (← decision_eq h) (ap (λ x. reserved -ℤ x) (z refl), λ _. refl)
chosen-Moves oi reserved rem false false false true z w h = rw (← decision_eq h) (refl, λ _. w refl)
chosen-Moves oi reserved rem false false false false z w h = rw (← decision_eq h) (refl, λ t. cc)

conclude-Moves :
    (oi reserved rem : ℤ) {d : ReleaseDecision}
    → (oi ≡ pos 0 → rem ≡ pos 0)
    → conclude oi reserved rem ≡ ok d
    → Moves reserved d
unfolding conclude
conclude-Moves oi reserved rem w h =
    chosen-Moves oi reserved rem (ltb_ℤ (reserved -ℤ rem) (pos 0)) (reserved -ℤ rem ==ℤ pos 0)
      (rem ==ℤ pos 0) (oi ==ℤ pos 0) (λ t. (==ℤ_iff rem (pos 0)).0 t)
      (λ t. w ((==ℤ_iff oi (pos 0)).0 t)) h

-- Nothing is worth nothing, at any rate.
zero_times : (k : ℤ) → pos 0 *ℤ k ≡ pos 0
unfolding ◌*ℤ◌
zero_times k = ground arith

rounded_zero :
    (x k : ℤ) {result : ℤ}
    → x ≡ pos 0
    → round_half_up (x *ℤ k) (pos rate_scale) ≡ ok result
    → result ≡ pos 0
rounded_zero x k z h = value_eq (
    sym h
    ∙ ap (λ n. round_half_up n (pos rate_scale)) (ap (λ y. y *ℤ k) z ∙ zero_times k)
    ∙ round_half_up_lem (pos 0) rate_scale (omega arith)
    ∙ ap (λ n. ok (pos n)) (nearest-zero rate_scale (omega arith)))
  where
    value_eq : {a b : ℤ} → ◌≡◌ {A = Result ℤ MoneyError} (ok a) (ok b) → a ≡ b
    value_eq e = cc

money_minor : (a : ℤ) (code : Text) {m : Money} → money a code ≡ ok m → m.minor ≡ a
unfolding money
money_minor a code h =
    let (c, found, made) = bind_inv (parse_currency code) _ _ h in sym (minor_eq made)
  where
    minor_eq : {x y : Money} → ◌≡◌ {A = Result Money MoneyError} (ok x) (ok y) → x.minor ≡ y.minor
    minor_eq e = cc

kept_zero :
    (b : Bool) (x : ℤ) (code : Text) {o : ConversionOutcome}
    → x ≡ pos 0
    → (if b then ok rounds_to_zero else (money x code >>= λ m. ok (converted m))) ≡ ok o
    → converted_minor o ≡ pos 0
kept_zero true x code z h = sym (ap converted_minor (outcome_eq h))
kept_zero false x code z h =
    let (m, made, same) = bind_inv (money x code) _ _ h in
    sym (ap converted_minor (outcome_eq same)) ∙ money_minor x code made ∙ z

convert_zero :
    (m : Money) (code : Text) (k : ℤ) {o : ConversionOutcome}
    → m.minor ≡ pos 0
    → convert m code k ≡ ok o
    → converted_minor o ≡ pos 0
unfolding convert
convert_zero m code k z h =
    let (x, rounded, rest) = bind_inv (round_half_up (m.minor *ℤ k) (pos rate_scale)) _ _ h in
    kept_zero (x ==ℤ pos 0 && not (m.minor ==ℤ pos 0)) x code (rounded_zero m.minor k z rounded)
      rest

settle-Moves :
    (i : ReleaseInput) {d : ReleaseDecision}
    → settle i ≡ ok (ok d)
    → Moves i.reservation.outstanding_reserved_minor d
unfolding settle
settle-Moves i h =
    let r = i.reservation in
    let oi = r.outstanding_invoice_minor -ℤ i.release_minor in
    let (m, made, h1) = bind_inv (money oi r.program_currency) _ _ h in
    let (rem, turned, h2) = bind_inv (convert m r.program_currency i.scaled_rate) _ _ h1 in
    conclude-Moves oi r.outstanding_reserved_minor (converted_minor rem)
      (λ z.
        convert_zero m r.program_currency i.scaled_rate (money_minor oi r.program_currency made ∙ z)
          turned)
      (decided_eq h2)

branch-Moves :
    (i : ReleaseInput) (o : ConversionOutcome) {d : ReleaseDecision}
    → ◌≡◌ {A = Result (Result ReleaseDecision RefusalCode) MoneyError}
        (elim o [ rounds_to_zero ↦ ok (err amount_rounds_to_zero) | converted _ ↦ settle i ])
        (ok (ok d))
    → Moves i.reservation.outstanding_reserved_minor d
branch-Moves i rounds_to_zero h = absurd (refused h)
branch-Moves i (converted m) h = settle-Moves i h

guarded-Moves :
    (i : ReleaseInput) (a b c e : Bool) {d : ReleaseDecision}
    → ◌≡◌ {A = Result (Result ReleaseDecision RefusalCode) MoneyError}
        (if a
          then ok (err invalid_amount)
          else if b
          then ok (err currency_mismatch)
          else if c
          then ok (err reservation_terminal)
          else if e
          then ok (err release_exceeds_reserved)
          else (money i.release_minor i.release_currency >>= λ m.
              convert m i.reservation.program_currency i.scaled_rate >>= λ o. elim o [
                | rounds_to_zero ↦ ok (err amount_rounds_to_zero)
                | converted _ ↦ settle i
              ]))
        (ok (ok d))
    → Moves i.reservation.outstanding_reserved_minor d
guarded-Moves i true b c e h = absurd (refused h)
guarded-Moves i false true c e h = absurd (refused h)
guarded-Moves i false false true e h = absurd (refused h)
guarded-Moves i false false false true h = absurd (refused h)
guarded-Moves i false false false false h =
    let (m, made, h1) = bind_inv (money i.release_minor i.release_currency) _ _ h in
    let (o, turned, h2) =
      bind_inv (convert m i.reservation.program_currency i.scaled_rate) _ _ h1 in
    branch-Moves i o h2

-- An accepted release returns what it takes off the reservation, and leaves nothing outstanding on
-- a reservation that it closes.
pub release_policy-Moves :
    (i : ReleaseInput) {d : ReleaseDecision}
    → release_policy i ≡ ok (ok d)
    → Moves i.reservation.outstanding_reserved_minor d
unfolding release_policy
release_policy-Moves i h =
    guarded-Moves i (leb_ℤ i.release_minor (pos 0))
      (not (text_eq i.release_currency i.reservation.invoice_currency))
      (is_terminal i.reservation.status)
      (ltb_ℤ i.reservation.outstanding_invoice_minor i.release_minor) h
