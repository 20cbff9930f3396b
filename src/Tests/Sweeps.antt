-- ===== src/Tests/Sweeps.antt =====
-- The theorems on the sweeps of src/capacity/application, applied to the runs of the commands.
use invoice_reservation.Prelude.{◌≡◌, refl, none, some, [], ◌∷◌, find, arith}
use invoice_reservation.Prelude.Text.{codes, text_eq}
use invoice_reservation.Prelude.Int.{pos, ◌+ℤ◌, ◌-ℤ◌, ◌<ℤ◌, ◌≤ℤ◌}
use invoice_reservation.Prelude.Result.{ok}
use invoice_reservation.Errors.{idempotency_expired}
use invoice_reservation.Position.{PositionComponent, LedgerCause}
use invoice_reservation.Store.{Database}
use invoice_reservation.Store.Tables.{LedgerRow, RequestRecord, reserve_op, complete}
use invoice_reservation.Service.Idempotency.{IdempotencyDecision, has_key, begin}
use invoice_reservation.Service.Idempotency
use invoice_reservation.Service.Reserve.{reserve_identity}
use invoice_reservation.Service.Reconciliation.{active_outstanding, mismatches_of, check}
use invoice_reservation.Service.Recovery.{ledger_at, position_at, flagged_of, detect}
use invoice_reservation.Service.Recovery.Held.{AllCurrent, KeepsCovered, detect-AllCurrent}
use invoice_reservation.Service.Retention.{sweep}
use invoice_reservation.Service.Retention.Keys.{Answered, sweep-begin}
use invoice_reservation.Booked.Reach.{Reaches-check}
use invoice_reservation.Tests.{
  environment, program, database, command, final, run, first, service_ops,
}

opening-check : (check database).0.mismatches ≡ []
unfolding check mismatches_of active_outstanding ◌+ℤ◌
opening-check = refl

Reaches-check_example : (check final).0.mismatches ≡ []
Reaches-check_example = Reaches-check database final tt run opening-check

-- A program whose local component has no reservation behind it is reported.
reports :
    (check (record database {
      programs =
          record program { position = record (program.position) { local_reserved_minor = pos 3 } }
          ∷ [];
    })).0.mismatches
    ≡ record { program_id = codes "p"; expected = pos 0; actual = pos 3 } ∷ []
unfolding check mismatches_of active_outstanding
reports = refl

abbrev treasury_row : LedgerRow
treasury_row = record {
  program_id = codes "p";
  entry = record {
    pending = record {
      delta_minor = pos 5;
      component = PositionComponent.treasury;
      cause = LedgerCause.treasury_event;
      origin_reference = none;
      actor = codes "treasury";
      correlation_id = codes "c";
    };
    sequence = pos 0;
  };
  occurred_at = pos 7;
}

-- An entry of the treasury with no stream position holds the program.
held : (detect (record database { ledger = treasury_row ∷ [] })).0 ≡ codes "p" ∷ []
unfolding detect flagged_of ledger_at position_at text_eq
held = refl

abbrev recovering : Database
recovering = record database { ledger = treasury_row ∷ [] }

-- The one program is held, since its entry has no stream position after it.
detect-AllCurrent_example :
    AllCurrent recovering (detect recovering).1.programs
    × KeepsCovered recovering (detect recovering).1.programs
detect-AllCurrent_example = detect-AllCurrent recovering

abbrev answered_record : RequestRecord
answered_record = record {
  organisation_id = codes "o";
  request_id = codes "k1";
  operation = reserve_op;
  content_fingerprint = (reserve_identity environment command).fingerprint;
  state = complete;
  outcome = some first.body;
  recorded_at = pos 100;
}

abbrev answered : Database
answered = record database { requests = answered_record ∷ [] }

answered-found :
    find (has_key (reserve_identity environment command)) answered.requests ≡ some answered_record
unfolding service_ops
answered-found = refl

answered_record-Answered :
    Answered (reserve_identity environment command) first.body answered_record
unfolding service_ops
answered_record-Answered = record {
  operation = refl;
  fingerprint = refl;
  state = refl;
  outcome = refl;
}

-- A day later the record of time 100 has expired.
sweep-begin_example :
    (pos 100 <ℤ pos 86400101 -ℤ pos 86400000
      → begin (reserve_identity environment command) (pos 0) (sweep (pos 86400101) 1 answered).1
        ≡ ok (Idempotency.refused idempotency_expired, (sweep (pos 86400101) 1 answered).1))
    × (pos 86400101 -ℤ pos 86400000 ≤ℤ pos 100
        → begin (reserve_identity environment command) (pos 0) (sweep (pos 86400101) 1 answered).1
          ≡ ok (Idempotency.replay first.body, (sweep (pos 86400101) 1 answered).1))
sweep-begin_example =
    sweep-begin (reserve_identity environment command) first.body (pos 0) (pos 86400101) 1 answered
      answered_record answered-found answered_record-Answered

expired_then :
    begin (reserve_identity environment command) (pos 0) (sweep (pos 86400101) 1 answered).1
    ≡ ok (Idempotency.refused idempotency_expired, (sweep (pos 86400101) 1 answered).1)
unfolding ◌-ℤ◌
expired_then = sweep-begin_example.0 (omega arith)
