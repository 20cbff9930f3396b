-- ===== src/Policy/Cancel.antt =====
-- src/capacity/domain/policies/cancel.policy.ts.
use invoice_reservation.Prelude.{if◌then◌else◌}
use invoice_reservation.Prelude.Int.{ℤ}
use invoice_reservation.Prelude.Result.{Result, ok, err}
use invoice_reservation.Errors.{RefusalCode, reservation_terminal}
use invoice_reservation.Position.{LedgerCause}
use invoice_reservation.Policy.Release.{
  ReservationSnapshot, ReservationStatus, partially_released, written_off, cancelled, is_terminal,
}

pub record CancelDecision : Type 0 where
  -- the capacity returned, as a positive magnitude
  pub delta_minor : ℤ
  pub cause : LedgerCause
  pub status : ReservationStatus

-- `status === 'PARTIALLY_RELEASED'`
unfoldable pub close_as : ℤ → ReservationStatus → CancelDecision
close_as delta partially_released = record {
  delta_minor = delta;
  cause = LedgerCause.write_off;
  status = written_off;
}
close_as delta _ = record {
  delta_minor = delta;
  cause = LedgerCause.cancellation;
  status = cancelled;
}

unfoldable pub cancel_policy : ReservationSnapshot → Result CancelDecision RefusalCode
unfolding close_as
cancel_policy r =
    if is_terminal r.status
    then err reservation_terminal
    else ok (close_as r.outstanding_reserved_minor r.status)
