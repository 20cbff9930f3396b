-- ===== src/Service/Idempotency.antt =====
-- src/capacity/application/idempotency.service.ts.
use invoice_reservation.Prelude.{
  Bool, true, false, not, ◌&&◌, ◌||◌, Option, none, some, [], ◌∷◌, ◌++◌, if◌then◌else◌, find,
  update_where,
}
use invoice_reservation.Prelude.Text.{Text, text_eq}
use invoice_reservation.Prelude.Result.{ok}
use invoice_reservation.Errors.{
  RefusalCode, idempotency_conflict, idempotency_expired, request_in_flight,
}
use invoice_reservation.Position.{Date}
use invoice_reservation.Store.{unexpected, Tx, pure, throw, modify}
use invoice_reservation.Store.Tables.{
  Body, Operation, reserve_op, release_op, cancel_op, RequestState, pending, complete, expired,
  RequestRecord,
}

pub data IdempotencyDecision : Type 0 where
  proceed : IdempotencyDecision
  replay : Body → IdempotencyDecision
  refused : RefusalCode → IdempotencyDecision

pub record RequestIdentity : Type 0 where
  pub organisation_id : Text
  pub request_id : Text
  pub operation : Operation
  pub fingerprint : Text

-- `${a}|${b}|${c}|${d}`
unfoldable pub join_bars : Text → Text → Text → Text → Text
join_bars a b c d = a ++ (b'|' ∷ (b ++ (b'|' ∷ (c ++ (b'|' ∷ d)))))

-- `reserveFingerprint`, of program, invoice, amount and currency.
unfoldable pub reserve_fingerprint : (Text → Text) → Text → Text → Text → Text → Text
unfolding join_bars
reserve_fingerprint sha256 program invoice amount currency =
    sha256 (join_bars program invoice amount currency)

-- `cancelFingerprint`, of program, invoice, reason and note.
unfoldable pub cancel_fingerprint : (Text → Text) → Text → Text → Text → Text → Text
unfolding join_bars
cancel_fingerprint sha256 program invoice reason note =
    sha256 (join_bars program invoice reason note)

abbrev pub has_key : RequestIdentity → RequestRecord → Bool
has_key i r = text_eq r.organisation_id i.organisation_id && text_eq r.request_id i.request_id

abbrev pub operation_eq : Operation → Operation → Bool
operation_eq reserve_op reserve_op = true
operation_eq release_op release_op = true
operation_eq cancel_op cancel_op = true
operation_eq _ _ = false

abbrev pub pending_record : RequestIdentity → Date → RequestRecord
pending_record i now = record {
  organisation_id = i.organisation_id;
  request_id = i.request_id;
  operation = i.operation;
  content_fingerprint = i.fingerprint;
  state = pending;
  outcome = none;
  recorded_at = now;
}

-- The `switch` on the state of the record that was found.
unfoldable pub decide_state : RequestState → Option Body → Tx IdempotencyDecision
decide_state pending outcome = pure (refused request_in_flight)
decide_state expired outcome = pure (refused idempotency_expired)
decide_state complete none = throw unexpected
decide_state complete (some body) = pure (replay body)

unfoldable pub decide_existing : RequestIdentity → RequestRecord → Tx IdempotencyDecision
decide_existing i r =
    if not (operation_eq r.operation i.operation)
      || not (text_eq r.content_fingerprint i.fingerprint)
    then pure (refused idempotency_conflict)
    else decide_state r.state r.outcome

-- `INSERT … ON CONFLICT DO NOTHING` inserts exactly when no record has the key.
unfoldable pub begin : RequestIdentity → Date → Tx IdempotencyDecision
begin i now db = elim (find (has_key i) db.requests) [
  | none ↦ ok (proceed, record db { requests = db.requests ++ pending_record i now ∷ [] })
  | some r ↦ decide_existing i r db
]

abbrev pub completed : Body → RequestRecord → RequestRecord
completed body r = record r { state = complete; outcome = some body }

-- `complete` of the service.
unfoldable pub complete_request : RequestIdentity → Body → Tx (Unit {0})
complete_request i body =
    modify λ db. record db { requests = update_where (has_key i) (completed body) db.requests }
