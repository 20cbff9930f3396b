-- ===== src/Policy/Release.antt =====
-- src/capacity/domain/policies/release.policy.ts.
pub mod Rounds
pub mod Movement
use invoice_reservation.Prelude.{Bool, true, false, not, if◌then◌else◌}
use invoice_reservation.Prelude.Text.{Text, text_eq}
use invoice_reservation.Prelude.Int.{ℤ, pos, ◌-ℤ◌, ltb_ℤ, leb_ℤ, ◌==ℤ◌}
use invoice_reservation.Prelude.Result.{Result, ok, err, ◌>>=◌}
use invoice_reservation.Money.{
  MoneyError, money, convert, ConversionOutcome, converted, rounds_to_zero,
}
use invoice_reservation.Errors.{
  RefusalCode, invalid_amount, currency_mismatch, reservation_terminal, release_exceeds_reserved,
  amount_rounds_to_zero,
}

pub data ReservationStatus : Type 0 where
  active partially_released fully_released cancelled written_off : ReservationStatus

-- The domain view of a reservation that the policy decides on.
pub record ReservationSnapshot : Type 0 where
  pub invoice_currency : Text
  pub program_currency : Text
  pub outstanding_invoice_minor : ℤ
  pub outstanding_reserved_minor : ℤ
  pub status : ReservationStatus

pub record ReleaseInput : Type 0 where
  pub release_minor : ℤ
  pub release_currency : Text
  pub reservation : ReservationSnapshot
  pub scaled_rate : ℤ

pub record ReleaseDecision : Type 0 where
  -- the capacity returned, as a positive magnitude
  pub delta_minor : ℤ
  pub outstanding_invoice_minor : ℤ
  pub outstanding_reserved_minor : ℤ
  pub status : ReservationStatus

-- TERMINAL_STATUSES.has
abbrev pub is_terminal : ReservationStatus → Bool
is_terminal active = false
is_terminal partially_released = false
is_terminal fully_released = true
is_terminal cancelled = true
is_terminal written_off = true

-- `kind === 'converted' ? amount.minor : 0n`
abbrev pub converted_minor : ConversionOutcome → ℤ
converted_minor (converted m) = m.minor
converted_minor rounds_to_zero = pos 0

-- The end of the policy, from what is left of the invoice, what was reserved, and what the rest of
-- the invoice is worth.
unfoldable pub conclude : ℤ → ℤ → ℤ → Result ReleaseDecision RefusalCode
conclude outstanding_invoice reserved remainder =
    let delta = reserved -ℤ remainder in
    if ltb_ℤ delta (pos 0)
    then err release_exceeds_reserved
    else if delta ==ℤ pos 0
    then err amount_rounds_to_zero
    else if remainder ==ℤ pos 0
    then ok (record {
      delta_minor = delta;
      outstanding_invoice_minor = pos 0;
      outstanding_reserved_minor = pos 0;
      status = fully_released;
    })
    else ok (record {
      delta_minor = delta;
      outstanding_invoice_minor = outstanding_invoice;
      outstanding_reserved_minor = remainder;
      status = if outstanding_invoice ==ℤ pos 0 then fully_released else partially_released;
    })

-- The conversion of what remains of the invoice, and the decision.
unfoldable pub settle : ReleaseInput → Result (Result ReleaseDecision RefusalCode) MoneyError
settle input = do
  let r = input.reservation
  let outstanding_invoice = r.outstanding_invoice_minor -ℤ input.release_minor
  m ← money outstanding_invoice r.program_currency
  remainder ← convert m r.program_currency input.scaled_rate
  ok (conclude outstanding_invoice r.outstanding_reserved_minor (converted_minor remainder))

unfoldable pub release_policy :
    ReleaseInput → Result (Result ReleaseDecision RefusalCode) MoneyError
release_policy input =
    let r = input.reservation in
    if leb_ℤ input.release_minor (pos 0)
    then ok (err invalid_amount)
    else if not (text_eq input.release_currency r.invoice_currency)
    then ok (err currency_mismatch)
    else if is_terminal r.status
    then ok (err reservation_terminal)
    else if ltb_ℤ r.outstanding_invoice_minor input.release_minor
    then ok (err release_exceeds_reserved)
    else do
      m ← money input.release_minor input.release_currency
      release_conversion ← convert m r.program_currency input.scaled_rate
      elim release_conversion [
        | rounds_to_zero ↦ ok (err amount_rounds_to_zero)
        | converted _ ↦ settle input
      ]
