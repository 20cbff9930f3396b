-- ===== src/Service/Release.antt =====
-- src/capacity/application/release.service.ts.
use invoice_reservation.Prelude.{
  true, false, not, Option, none, some, [], ◌∷◌, if◌then◌else◌, find, update_where, or_else,
}
use invoice_reservation.Prelude.Text.{Text, codes}
use invoice_reservation.Prelude.Decimal.{show_ℤ}
use invoice_reservation.Prelude.Int.{ℤ, neg_ℤ}
use invoice_reservation.Prelude.Result.{Result, ok, err}
use invoice_reservation.Errors.{RefusalCode, position_unverified, not_found}
use invoice_reservation.Money.{scale_rate}
use invoice_reservation.Position.{
  PositionComponent, LedgerCause, PendingLedgerEntry, advance_position,
}
use invoice_reservation.Policy.Release.{ReservationSnapshot, ReleaseDecision, release_policy}
use invoice_reservation.Store.{
  Tx, pure, lift_money, refuse_with, ◌>>=◌, ◌>>◌, gets, modify, check, with_program_lock,
  persist_advance,
}
use invoice_reservation.Store.Tables.{ProgramEntity, InvoiceReservation, release_op}
use invoice_reservation.Service.Environment.{Environment}
use invoice_reservation.Service.Idempotency.{
  RequestIdentity, reserve_fingerprint, begin, complete_request,
}
use invoice_reservation.Service.Reserve.{
  Outcome, has_invoice, body_of, on_decision, outstanding_bounded,
}

pub record ReleaseCommand : Type 0 where
  pub organisation_id : Text
  pub program_id : Text
  pub request_id : Text
  pub invoice_id : Text
  pub release_minor : ℤ
  pub currency : Text
  pub actor : Text
  pub correlation_id : Text

unfoldable pub release_identity : Environment → ReleaseCommand → RequestIdentity
release_identity env c = record {
  organisation_id = c.organisation_id;
  request_id = c.request_id;
  operation = release_op;
  fingerprint =
      reserve_fingerprint env.sha256 c.program_id c.invoice_id (show_ℤ c.release_minor) c.currency;
}

-- The columns of the row that the policies read.
abbrev pub snapshot_of : InvoiceReservation → ReservationSnapshot
snapshot_of row = record {
  invoice_currency = row.invoice_currency;
  program_currency = row.program_currency;
  outstanding_invoice_minor = row.outstanding_invoice_minor;
  outstanding_reserved_minor = row.outstanding_reserved_minor;
  status = row.status;
}

abbrev pub release_entry : ReleaseCommand → ReleaseDecision → PendingLedgerEntry
release_entry c applied = record {
  delta_minor = neg_ℤ applied.delta_minor;
  component = PositionComponent.local;
  cause = LedgerCause.release;
  origin_reference = some c.invoice_id;
  actor = c.actor;
  correlation_id = c.correlation_id;
}

abbrev pub released_row : Environment → ReleaseDecision → InvoiceReservation → InvoiceReservation
released_row env applied row = record row {
  outstanding_invoice_minor = applied.outstanding_invoice_minor;
  outstanding_reserved_minor = applied.outstanding_reserved_minor;
  status = applied.status;
  updated_at = env.now;
}

-- From the accepted decision to the response.
unfoldable pub apply_release :
    Environment → ReleaseCommand → ProgramEntity → InvoiceReservation → ReleaseDecision → Tx Outcome
apply_release env c p row applied = do
  let result = advance_position p.position (release_entry c applied ∷ []) env.now
  persist_advance false p.position c.program_id result env.now
  check (outstanding_bounded (released_row env applied row))
  modify λ db. record db {
    reservations =
        update_where (has_invoice c.program_id c.invoice_id) (released_row env applied)
          db.reservations;
  }
  let body = body_of env (released_row env applied row) p result
  complete_request (release_identity env c) body
  pure (record { created = true; body = body })

unfoldable pub on_release :
    Environment
    → ReleaseCommand
    → ProgramEntity
    → InvoiceReservation
    → Result ReleaseDecision RefusalCode
    → Tx Outcome
on_release env c p row (err code) = refuse_with code
on_release env c p row (ok applied) = apply_release env c p row applied

unfoldable pub release_row :
    Environment → ReleaseCommand → ProgramEntity → Option InvoiceReservation → Tx Outcome
release_row env c p none = refuse_with not_found
release_row env c p (some row) = do
  scaled_rate ← lift_money (scale_rate (or_else row.fx_rate (codes "1.0")))
  decision ← lift_money (
      release_policy (record {
        release_minor = c.release_minor;
        release_currency = c.currency;
        reservation = snapshot_of row;
        scaled_rate = scaled_rate;
      }))
  on_release env c p row decision

unfoldable pub release_fresh : Environment → ReleaseCommand → ProgramEntity → Tx Outcome
release_fresh env c p = if not p.position_verified then refuse_with position_unverified else do
  row ← gets (λ db. find (has_invoice c.program_id c.invoice_id) db.reservations)
  release_row env c p row

unfoldable pub release_locked : Environment → ReleaseCommand → ProgramEntity → Tx Outcome
release_locked env c p = do
  decision ← begin (release_identity env c) env.now
  on_decision decision (release_fresh env c p)

unfoldable pub release : Environment → ReleaseCommand → Tx Outcome
release env c = with_program_lock c.program_id (release_locked env c)
