-- ===== src/Policy/Reserve/Admission.antt =====
-- src/capacity/domain/policies/reserve.policy.ts: what an accepted reservation leaves available.
use invoice_reservation.Prelude.{
  ◌≡◌, ap, ◌∙◌, inl, inr, true, false, Bool-cases, Option, [], ◌∷◌, arith,
}
use invoice_reservation.Prelude.Int.{ℤ, ◌+ℤ◌, ◌-ℤ◌, ◌≤ℤ◌, ltb_ℤ, ltb_ℤ-false, int_laws}
use invoice_reservation.Prelude.Result.{Result, ok, err, ◌>>=◌}
use invoice_reservation.Errors.{RefusalCode}
use invoice_reservation.Money.{MoneyError}
use invoice_reservation.Position.{
  Date, ProgramPosition, PositionComponent, PendingLedgerEntry, total_reserved, available,
  is_over_limit, advance_position,
}
use invoice_reservation.Position.Components.{local_entry_lem}
use invoice_reservation.Policy.Reserve.{
  FxRate, FxResolution, accepted, price, fit, decide_reservation,
}

fit-fits :
    (p : ProgramPosition) (priced : Result (ℤ × Option FxRate) RefusalCode) (reserved : ℤ)
    (fx : Option FxRate)
    → fit p priced ≡ accepted reserved fx
    → reserved ≤ℤ available p
unfolding fit
fit-fits p (err code) reserved fx h = cc
fit-fits p (ok (r, x)) reserved fx h = elim (Bool-cases (ltb_ℤ (available p) r)) [
  | inl over ↦ ground arith
  | inr within ↦ ground arith
]

priced-fits :
    (p : ProgramPosition) (r : Result (Result (ℤ × Option FxRate) RefusalCode) MoneyError)
    (reserved : ℤ) (fx : Option FxRate)
    → (r >>= λ priced. ok (fit p priced)) ≡ ok (accepted reserved fx)
    → reserved ≤ℤ available p
priced-fits p (err e) reserved fx h = cc
priced-fits p (ok priced) reserved fx h = fit-fits p priced reserved fx cc

accepted_lem :
    (p : ProgramPosition) (amount : ℤ) (r : FxResolution) (reserved : ℤ) (fx : Option FxRate)
    → decide_reservation p amount r ≡ ok (accepted reserved fx)
    → (p.position_verified ≡ true) × (is_over_limit p ≡ false) × (reserved ≤ℤ available p)
unfolding decide_reservation
accepted_lem p amount r reserved fx h = elim (Bool-cases p.position_verified) [
  | inr unverified ↦ ground arith
  | inl verified ↦ elim (Bool-cases (is_over_limit p)) [
    | inl over ↦ ground arith
    | inr within ↦ (verified, within, priced-fits p (price p amount r) reserved fx (ground arith))
  ]
]

moved :
    (p q : ProgramPosition) (reserved : ℤ)
    → q.local_reserved_minor ≡ p.local_reserved_minor +ℤ reserved
    → q.treasury_reserved_minor ≡ p.treasury_reserved_minor
    → q.credit_limit_minor ≡ p.credit_limit_minor
    → reserved ≤ℤ available p
    → (available q ≡ available p -ℤ reserved) × (is_over_limit q ≡ false)
unfolding available is_over_limit total_reserved
moved p q reserved l t k fits =
    rw (l, t, k)
      (
        omega int_laws,
        ltb_ℤ-false p.credit_limit_minor
            (p.local_reserved_minor +ℤ reserved +ℤ p.treasury_reserved_minor) (omega int_laws),
      )

-- If the policy accepts a reservation, then the position was verified and within its limit, the
-- reserved amount was available, and the position that the accepted entry of the local component
-- advances has exactly that much less available and is still within its limit.
pub decide_reservation-available :
    (p : ProgramPosition) (amount : ℤ) (r : FxResolution) (reserved : ℤ) (fx : Option FxRate)
    (e : PendingLedgerEntry) (now : Date)
    → decide_reservation p amount r ≡ ok (accepted reserved fx)
    → e.component ≡ PositionComponent.local
    → e.delta_minor ≡ reserved
    → let q = (advance_position p (e ∷ []) now).program in
      (p.position_verified ≡ true)
      × (is_over_limit p ≡ false)
      × (reserved ≤ℤ available p)
      × (available q ≡ available p -ℤ reserved)
      × (is_over_limit q ≡ false)
decide_reservation-available p amount r reserved fx e now h hc hd =
    let (verified, within, fits) = accepted_lem p amount r reserved fx h in
    let (l, t, k) = local_entry_lem p e now hc in
    let (less, inside) =
      moved p (advance_position p (e ∷ []) now).program reserved
        (l ∙ ap (λ d. p.local_reserved_minor +ℤ d) hd) t k fits in
    (verified, within, fits, less, inside)
