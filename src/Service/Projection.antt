-- ===== src/Service/Projection.antt =====
-- src/capacity/application/reservation.projection.ts and availability.projection.ts.
use invoice_reservation.Prelude.{Bool, Option, none, some, if◌then◌else◌}
use invoice_reservation.Prelude.Text.{Text}
use invoice_reservation.Prelude.Decimal.{show_ℤ}
use invoice_reservation.Prelude.Int.{ℤ, pos, ◌-ℤ◌, leb_ℤ, div_trunc}
use invoice_reservation.Position.{Date, total_reserved, available, is_over_limit}
use invoice_reservation.Store.Tables.{
  ProgramEntity, InvoiceReservation, MoneyBody, ReservationFxBody, ReservationBody,
  AvailabilityBody,
}

abbrev pub money_body : ℤ → Text → MoneyBody
money_body minor currency = record { amount_minor = show_ℤ minor; currency = currency }

abbrev pub fx_body : Option Text → Option Date → Option Text → Option ReservationFxBody
fx_body (some rate) (some at) (some source) =
    some (record { rate = rate; effective_at = at; source = source })
fx_body _ _ _ = none

unfoldable pub to_reservation_body : InvoiceReservation → ReservationBody
to_reservation_body row = record {
  invoice_id = row.invoice_id;
  program_id = row.program_id;
  status = row.status;
  invoice_amount = money_body row.invoice_amount_minor row.invoice_currency;
  reserved = money_body row.reserved_minor row.program_currency;
  outstanding_invoice = money_body row.outstanding_invoice_minor row.invoice_currency;
  outstanding_reserved = money_body row.outstanding_reserved_minor row.program_currency;
  fx = fx_body row.fx_rate row.fx_rate_effective_at row.fx_rate_source;
  created_at = row.created_at;
}

-- `lagSecondsFor`
unfoldable pub lag_seconds_for : Option Date → Option ℤ → Option ℤ
lag_seconds_for (some applied) (some observed) =
    let delta = observed -ℤ applied in
    some (if leb_ℤ delta (pos 0) then pos 0 else div_trunc delta (pos 1000))
lag_seconds_for _ _ = none

unfoldable pub to_availability_body : ProgramEntity → Bool → Option ℤ → AvailabilityBody
unfolding lag_seconds_for
to_availability_body p reconciliation_pending newest = record {
  program_id = p.id;
  currency = p.currency;
  credit_limit = money_body p.credit_limit_minor p.currency;
  reserved_total = money_body (total_reserved p.position) p.currency;
  reserved_local = money_body p.local_reserved_minor p.currency;
  reserved_treasury = money_body p.treasury_reserved_minor p.currency;
  available = money_body (available p.position) p.currency;
  position_verified = p.position_verified;
  investigation_required = p.investigation_required;
  reconciliation_pending = reconciliation_pending;
  over_limit_active = is_over_limit p.position;
  over_limit_since = p.over_limit_since;
  position_changed_at = p.position_changed_at;
  applied_version = p.treasury_version;
  effective_at = p.treasury_effective_at;
  lag_seconds = lag_seconds_for p.treasury_applied_effective_at newest;
}
