-- ===== src/Errors.antt =====
-- src/capacity/domain/errors.ts.
use invoice_reservation.Prelude.{Option, List}
use invoice_reservation.Prelude.Text.{Text}

pub data RefusalCode : Type 0 where
  position_unverified program_over_limit fx_rate_unavailable amount_rounds_to_zero : RefusalCode
  insufficient_capacity duplicate_invoice idempotency_conflict idempotency_expired : RefusalCode
  request_in_flight invalid_amount currency_mismatch reservation_terminal : RefusalCode
  release_exceeds_reserved not_found : RefusalCode

-- `Record<string, string>`
abbrev pub Details : Type 0
Details = List (Text × Text)

-- A refusal that changed nothing.
pub record CapacityRefusal : Type 0 where
  pub code : RefusalCode
  pub details : Option Details
