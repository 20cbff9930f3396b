-- ===== src/Service/Reserve.antt =====
-- src/capacity/application/reserve.service.ts, and the table constraints that its INSERT meets
-- (src/migrations/1758240000000-InitialSchema.ts).
use invoice_reservation.Prelude.{
  Bool, true, false, not, ◌&&◌, Option, none, some, List, [], ◌∷◌, ◌++◌, ◌^◌, if◌then◌else◌, find,
  is_some,
}
use invoice_reservation.Prelude.Text.{Text, text_eq}
use invoice_reservation.Prelude.Decimal.{show_ℤ}
use invoice_reservation.Prelude.Int.{ℤ, pos, ltb_ℤ, leb_ℤ}
use invoice_reservation.Prelude.Result.{ok, err}
use invoice_reservation.Errors.{duplicate_invoice}
use invoice_reservation.Money.{scale_rate}
use invoice_reservation.Position.{
  Date, PositionComponent, LedgerCause, PendingLedgerEntry, AdvanceResult, advance_position,
}
use invoice_reservation.Policy.Reserve.{
  FxRate, FxResolution, same_currency, at_rate, unavailable, ReserveDecision, accepted,
  decide_reservation,
}
use invoice_reservation.Policy.Reserve
use invoice_reservation.Policy.Release.{active}
use invoice_reservation.Policy.Snapshot.{Origin}
use invoice_reservation.Store.{
  refusal, Tx, pure, throw, lift_money, refuse_with, ◌>>=◌, ◌>>◌, gets, modify, check, check_unique,
  with_program_lock, in_int64, persist_advance,
}
use invoice_reservation.Store.Tables.{ProgramEntity, InvoiceReservation, Body, reserve_op}
use invoice_reservation.Service.Environment.{Environment}
use invoice_reservation.Service.Idempotency.{
  RequestIdentity, IdempotencyDecision, proceed, replay, reserve_fingerprint, begin,
  complete_request,
}
use invoice_reservation.Service.Idempotency
use invoice_reservation.Service.Projection.{to_reservation_body, to_availability_body}

pub record ReserveCommand : Type 0 where
  pub organisation_id : Text
  pub program_id : Text
  pub request_id : Text
  pub invoice_id : Text
  pub amount_minor : ℤ
  pub currency : Text
  pub actor : Text
  pub correlation_id : Text

-- `ReserveOutcome`, `ReleaseOutcome` and `CancelOutcome`.
pub record Outcome : Type 0 where
  pub created : Bool
  pub body : Body

unfoldable pub reserve_identity : Environment → ReserveCommand → RequestIdentity
reserve_identity env c = record {
  organisation_id = c.organisation_id;
  request_id = c.request_id;
  operation = reserve_op;
  fingerprint =
      reserve_fingerprint env.sha256 c.program_id c.invoice_id (show_ℤ c.amount_minor) c.currency;
}

abbrev pub has_invoice : Text → Text → InvoiceReservation → Bool
has_invoice program invoice r = text_eq r.program_id program && text_eq r.invoice_id invoice

unfoldable pub resolve_fx : Environment → Text → Text → Tx FxResolution
resolve_fx env from to = if text_eq from to then pure same_currency else do
  rate ← lift_money (env.rate_for from to env.now)
  pure (elim rate [ none ↦ unavailable | some r ↦ at_rate r ])

abbrev pub rate_text : Option FxRate → Option Text
rate_text none = none
rate_text (some fx) = some fx.rate

abbrev pub rate_time : Option FxRate → Option Date
rate_time none = none
rate_time (some fx) = some fx.effective_at

abbrev pub rate_source : Option FxRate → Option Text
rate_source none = none
rate_source (some fx) = some fx.source

abbrev pub new_reservation :
    Environment → ReserveCommand → ProgramEntity → ℤ → Option FxRate → InvoiceReservation
new_reservation env c p reserved fx = record {
  id = env.new_id;
  program_id = c.program_id;
  invoice_id = c.invoice_id;
  invoice_amount_minor = c.amount_minor;
  invoice_currency = c.currency;
  program_currency = p.currency;
  reserved_minor = reserved;
  outstanding_invoice_minor = c.amount_minor;
  outstanding_reserved_minor = reserved;
  fx_rate = rate_text fx;
  fx_rate_effective_at = rate_time fx;
  fx_rate_source = rate_source fx;
  status = active;
  origin = Origin.local;
  treasury_acknowledged = false;
  acknowledged_by_version = none;
  treasury_reference = none;
  confirmed_at = env.now;
  created_at = env.now;
  updated_at = env.now;
}

bool_eq : Bool → Bool → Bool
bool_eq true b = b
bool_eq false b = not b

-- What is outstanding is between zero and the amount.
unfoldable pub outstanding_bounded : InvoiceReservation → Bool
outstanding_bounded r =
    leb_ℤ (pos 0) r.outstanding_invoice_minor
    && leb_ℤ r.outstanding_invoice_minor r.invoice_amount_minor
    && leb_ℤ (pos 0) r.outstanding_reserved_minor
    && leb_ℤ r.outstanding_reserved_minor r.reserved_minor

-- The column and the constraint of a rate: NUMERIC(20, 10), which is positive.
unfoldable pub rate_constraint : Option Text → Bool
rate_constraint none = true
rate_constraint (some t) = elim (scale_rate t) [
  | ok scaled ↦ ltb_ℤ (pos 0) scaled && ltb_ℤ scaled (pos (10 ^ 20))
  | err e ↦ false
]

-- The constraints of `invoice_reservation` on a new row: amounts positive and within BIGINT, what is
-- outstanding bounded by them, a rate exactly when the currencies differ, and positive, an
-- acknowledging version exactly when acknowledged.
unfoldable pub reservation_constraints : InvoiceReservation → Bool
unfolding bool_eq outstanding_bounded rate_constraint
reservation_constraints r =
    ltb_ℤ (pos 0) r.invoice_amount_minor
    && ltb_ℤ (pos 0) r.reserved_minor
    && in_int64 r.invoice_amount_minor
    && in_int64 r.reserved_minor
    && bool_eq (text_eq r.invoice_currency r.program_currency) (not (is_some r.fx_rate))
    && rate_constraint r.fx_rate
    && outstanding_bounded r
    && bool_eq r.treasury_acknowledged (is_some r.acknowledged_by_version)

-- UNIQUE (program_id, invoice_id)
abbrev pub invoice_is_free : InvoiceReservation → List InvoiceReservation → Bool
invoice_is_free r rs = not (is_some (find (has_invoice r.program_id r.invoice_id) rs))

unfoldable pub insert_reservation : InvoiceReservation → Tx InvoiceReservation
insert_reservation r = do
  check (reservation_constraints r)
  check_unique (invoice_is_free r (← gets (λ db. db.reservations)))
  modify λ db. record db { reservations = db.reservations ++ r ∷ [] }
  pure r

abbrev pub reserve_entry : ReserveCommand → ℤ → PendingLedgerEntry
reserve_entry c reserved = record {
  delta_minor = reserved;
  component = PositionComponent.local;
  cause = LedgerCause.reservation;
  origin_reference = some c.invoice_id;
  actor = c.actor;
  correlation_id = c.correlation_id;
}

-- The response, from the row and the program as they were just written.
abbrev pub body_of : Environment → InvoiceReservation → ProgramEntity → AdvanceResult → Body
body_of env row p result = record {
  reservation = to_reservation_body row;
  availability =
      to_availability_body (record p { position = result.program; position_changed_at = env.now })
        false (env.newest_observed_for result.program.id);
}

-- From the accepted decision to the response.
unfoldable pub book : Environment → ReserveCommand → ProgramEntity → ℤ → Option FxRate → Tx Outcome
book env c p reserved fx = do
  row ← insert_reservation (new_reservation env c p reserved fx)
  let result = advance_position p.position (reserve_entry c reserved ∷ []) env.now
  persist_advance false p.position c.program_id result env.now
  let body = body_of env row p result
  complete_request (reserve_identity env c) body
  pure (record { created = true; body = body })

unfoldable pub carry_out :
    Environment → ReserveCommand → ProgramEntity → ReserveDecision → Tx Outcome
carry_out env c p (Reserve.refused code details) =
    throw (refusal (record { code = code; details = details }))
carry_out env c p (accepted reserved fx) = book env c p reserved fx

-- What follows a first use of the key.
unfoldable pub reserve_fresh : Environment → ReserveCommand → ProgramEntity → Tx Outcome
reserve_fresh env c p = do
  duplicate ← gets (λ db. find (has_invoice c.program_id c.invoice_id) db.reservations)
  if is_some duplicate then refuse_with duplicate_invoice else do
    fx ← resolve_fx env c.currency p.currency
    decision ← lift_money (decide_reservation p.position c.amount_minor fx)
    carry_out env c p decision

-- The early returns on the idempotency decision, which the three services share.
unfoldable pub on_decision : IdempotencyDecision → Tx Outcome → Tx Outcome
on_decision (Idempotency.refused code) fresh = refuse_with code
on_decision (replay body) fresh = pure (record { created = false; body = body })
on_decision proceed fresh = fresh

unfoldable pub reserve_locked : Environment → ReserveCommand → ProgramEntity → Tx Outcome
reserve_locked env c p = do
  decision ← begin (reserve_identity env c) env.now
  on_decision decision (reserve_fresh env c p)

unfoldable pub reserve : Environment → ReserveCommand → Tx Outcome
reserve env c = with_program_lock c.program_id (reserve_locked env c)
