-- ===== src/Service/Cancel.antt =====
-- src/capacity/application/cancel.service.ts.
use invoice_reservation.Prelude.{
  true, false, not, Option, none, some, [], ◌∷◌, if◌then◌else◌, find, update_where, or_else,
}
use invoice_reservation.Prelude.Text.{Text, codes}
use invoice_reservation.Prelude.Int.{pos, neg_ℤ}
use invoice_reservation.Prelude.Result.{Result, ok, err}
use invoice_reservation.Errors.{RefusalCode, position_unverified, not_found}
use invoice_reservation.Position.{PositionComponent, PendingLedgerEntry, advance_position}
use invoice_reservation.Policy.Cancel.{CancelDecision, cancel_policy}
use invoice_reservation.Store.{
  Tx, pure, refuse_with, ◌>>=◌, ◌>>◌, gets, modify, check, with_program_lock, persist_advance,
}
use invoice_reservation.Store.Tables.{ProgramEntity, InvoiceReservation, cancel_op}
use invoice_reservation.Service.Environment.{Environment}
use invoice_reservation.Service.Idempotency.{
  RequestIdentity, cancel_fingerprint, begin, complete_request,
}
use invoice_reservation.Service.Reserve.{
  Outcome, has_invoice, body_of, on_decision, outstanding_bounded,
}
use invoice_reservation.Service.Release.{snapshot_of}

pub data CancelReason : Type 0 where
  cancelled written_off : CancelReason

abbrev pub reason_text : CancelReason → Text
reason_text cancelled = codes "CANCELLED"
reason_text written_off = codes "WRITTEN_OFF"

pub record CancelCommand : Type 0 where
  pub organisation_id : Text
  pub program_id : Text
  pub request_id : Text
  pub invoice_id : Text
  pub reason : CancelReason
  pub note : Option Text
  pub actor : Text
  pub correlation_id : Text

unfoldable pub cancel_identity : Environment → CancelCommand → RequestIdentity
cancel_identity env c = record {
  organisation_id = c.organisation_id;
  request_id = c.request_id;
  operation = cancel_op;
  fingerprint =
      cancel_fingerprint env.sha256 c.program_id c.invoice_id (reason_text c.reason)
        (or_else c.note []);
}

abbrev pub cancel_entry : CancelCommand → CancelDecision → PendingLedgerEntry
cancel_entry c applied = record {
  delta_minor = neg_ℤ applied.delta_minor;
  component = PositionComponent.local;
  cause = applied.cause;
  origin_reference = some c.invoice_id;
  actor = c.actor;
  correlation_id = c.correlation_id;
}

abbrev pub closed_row : Environment → CancelDecision → InvoiceReservation → InvoiceReservation
closed_row env applied row = record row {
  outstanding_reserved_minor = pos 0;
  status = applied.status;
  updated_at = env.now;
}

-- From the accepted decision to the response.
unfoldable pub apply_cancel :
    Environment → CancelCommand → ProgramEntity → InvoiceReservation → CancelDecision → Tx Outcome
apply_cancel env c p row applied = do
  let result = advance_position p.position (cancel_entry c applied ∷ []) env.now
  persist_advance false p.position c.program_id result env.now
  check (outstanding_bounded (closed_row env applied row))
  modify λ db. record db {
    reservations =
        update_where (has_invoice c.program_id c.invoice_id) (closed_row env applied)
          db.reservations;
  }
  let body = body_of env (closed_row env applied row) p result
  complete_request (cancel_identity env c) body
  pure (record { created = true; body = body })

unfoldable pub on_cancel :
    Environment
    → CancelCommand
    → ProgramEntity
    → InvoiceReservation
    → Result CancelDecision RefusalCode
    → Tx Outcome
on_cancel env c p row (err code) = refuse_with code
on_cancel env c p row (ok applied) = apply_cancel env c p row applied

unfoldable pub cancel_row :
    Environment → CancelCommand → ProgramEntity → Option InvoiceReservation → Tx Outcome
cancel_row env c p none = refuse_with not_found
cancel_row env c p (some row) = on_cancel env c p row (cancel_policy (snapshot_of row))

unfoldable pub cancel_fresh : Environment → CancelCommand → ProgramEntity → Tx Outcome
cancel_fresh env c p = if not p.position_verified then refuse_with position_unverified else do
  row ← gets (λ db. find (has_invoice c.program_id c.invoice_id) db.reservations)
  cancel_row env c p row

unfoldable pub cancel_locked : Environment → CancelCommand → ProgramEntity → Tx Outcome
cancel_locked env c p = do
  decision ← begin (cancel_identity env c) env.now
  on_decision decision (cancel_fresh env c p)

unfoldable pub cancel : Environment → CancelCommand → Tx Outcome
cancel env c = with_program_lock c.program_id (cancel_locked env c)
