-- ===== src/Policy/Reserve.antt =====
-- src/capacity/domain/policies/reserve.policy.ts and ports/fx-rate.provider.ts.
pub mod Admission
use invoice_reservation.Prelude.{
  Bool, true, false, not, Option, none, some, List, [], ◌∷◌, if◌then◌else◌,
}
use invoice_reservation.Prelude.Text.{Text, codes}
use invoice_reservation.Prelude.Decimal.{show_ℤ}
use invoice_reservation.Prelude.Int.{ℤ, ltb_ℤ}
use invoice_reservation.Prelude.Result.{Result, ok, err, ◌>>=◌}
use invoice_reservation.Money.{MoneyError, money, convert, converted, rounds_to_zero}
use invoice_reservation.Errors.{
  RefusalCode, position_unverified, program_over_limit, fx_rate_unavailable, amount_rounds_to_zero,
  insufficient_capacity, Details,
}
use invoice_reservation.Position.{Date, ProgramPosition, available, is_over_limit}

-- A rate resolved for a currency pair.
pub record FxRate : Type 0 where
  pub scaled_rate : ℤ
  pub rate : Text
  pub effective_at : Date
  pub source : Text

pub data FxResolution : Type 0 where
  same_currency : FxResolution
  at_rate : FxRate → FxResolution
  unavailable : FxResolution

pub data ReserveDecision : Type 0 where
  accepted : ℤ → Option FxRate → ReserveDecision
  refused : RefusalCode → Option Details → ReserveDecision

-- The amount in the program's currency with the rate that gave it, or the early refusal.
unfoldable pub price :
    ProgramPosition → ℤ → FxResolution → Result (Result (ℤ × Option FxRate) RefusalCode) MoneyError
price program amount unavailable = ok (err fx_rate_unavailable)
price program amount same_currency = ok (ok (amount, none))
price program amount (at_rate rate) = do
  m ← money amount program.currency
  outcome ← convert m program.currency rate.scaled_rate
  elim outcome [
    | rounds_to_zero ↦ ok (err amount_rounds_to_zero)
    | converted c ↦ ok (ok (c.minor, some rate))
  ]

unfoldable pub fit : ProgramPosition → Result (ℤ × Option FxRate) RefusalCode → ReserveDecision
fit program (err code) = refused code none
fit program (ok (reserved, fx)) =
    if ltb_ℤ (available program) reserved
    then refused insufficient_capacity (
        some (
          (codes "requestedMinor", show_ℤ reserved)
          ∷ (codes "availableMinor", show_ℤ (available program))
          ∷ []))
    else accepted reserved fx

unfoldable pub decide_reservation :
    ProgramPosition → ℤ → FxResolution → Result ReserveDecision MoneyError
decide_reservation program amount fx =
    if not program.position_verified
    then ok (refused position_unverified none)
    else if is_over_limit program
    then ok (refused program_over_limit none)
    else do priced ← price program amount fx; ok (fit program priced)
