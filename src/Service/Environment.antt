-- ===== src/Service/Environment.antt =====
-- What the services of src/capacity/application take from outside: the clock, ids made by the
-- database, SHA-256, the newest effective time seen on the stream (shared/stream-lag), and the
-- port `FxRateProvider`.
use invoice_reservation.Prelude.{Option}
use invoice_reservation.Prelude.Text.{Text}
use invoice_reservation.Prelude.Int.{ℤ}
use invoice_reservation.Prelude.Result.{Result}
use invoice_reservation.Money.{MoneyError}
use invoice_reservation.Position.{Date}
use invoice_reservation.Policy.Reserve.{FxRate}

pub record Environment : Type 0 where
  -- `new Date()`
  pub now : Date
  -- `gen_random_uuid()`
  pub new_id : Text
  -- `createHash('sha256').update(…).digest('hex')`
  pub sha256 : Text → Text
  -- `StreamLagRegistry.newestObservedFor`
  pub newest_observed_for : Text → Option ℤ
  pub rate_for : Text → Text → Date → Result (Option FxRate) MoneyError
