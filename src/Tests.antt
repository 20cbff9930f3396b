-- ===== src/Tests.antt =====
-- Concrete runs of the modules named for src/capacity and src/shared: data, and the theorems
-- applied to it.
pub mod Api
pub mod AuditRead
pub mod Policies
pub mod Seed
pub mod Stream
pub mod StreamLag
pub mod Sweeps
use invoice_reservation.Prelude.{
  ◌≡◌, refl, ℕ, Bool, true, false, Option, none, some, List, [], ◌∷◌, find, update_where, map,
}
use invoice_reservation.Prelude.Text.{Text, codes, text_eq}
use invoice_reservation.Prelude.Decimal.{show_ℤ}
use invoice_reservation.Prelude.Int.{ℤ, pos, neg_ℤ, ◌+ℤ◌, ◌-ℤ◌, ◌*ℤ◌, div_trunc, rem_trunc}
use invoice_reservation.Prelude.Result.{Result, ok, err}
use invoice_reservation.Money.{rate_scale, scale_rate, convert, round_half_up, money}
use invoice_reservation.Position.{
  Date, ProgramPosition, PositionComponent, LedgerCause, PendingLedgerEntry, SequencedLedgerEntry,
  total_reserved, available, is_over_limit, advance_position,
}
use invoice_reservation.Policy.Reserve.{FxRate, price, fit, decide_reservation}
use invoice_reservation.Policy.Release.{conclude, settle, release_policy}
use invoice_reservation.Policy.Cancel.{cancel_policy}
use invoice_reservation.Store.{
  Database, Failure, transaction, tx_ops, has_id, find_program, with_program_lock,
  program_constraints, local_within_limit, persist_advance,
}
use invoice_reservation.Store.Tables.{ProgramEntity, LedgerRow, Body}
use invoice_reservation.Service.Environment.{Environment}
use invoice_reservation.Service.Idempotency.{
  join_bars, reserve_fingerprint, cancel_fingerprint, decide_state, decide_existing, begin,
  complete_request,
}
use invoice_reservation.Service.Projection.{
  to_reservation_body, lag_seconds_for, to_availability_body,
}
use invoice_reservation.Service.Reserve.{
  ReserveCommand, Outcome, reserve_identity, resolve_fx, outstanding_bounded, rate_constraint,
  reservation_constraints, insert_reservation, book, carry_out, reserve_fresh, on_decision,
  reserve_locked, reserve, body_of, new_reservation, reserve_entry,
}
use invoice_reservation.Service.Release.{
  ReleaseCommand, release_identity, apply_release, on_release, release_row, release_fresh,
  release_locked, release,
}
use invoice_reservation.Service.Cancel.{
  CancelCommand, CancelReason, cancel_identity, apply_cancel, on_cancel, cancel_row, cancel_fresh,
  cancel_locked, cancel,
}
use invoice_reservation.Service.Replays.Commands.{
  again, reserve-replays, release-replays, cancel-replays,
}
use invoice_reservation.Audit.{ledger_sum, audit_components, audit_programs, audit_ledger}
use invoice_reservation.Audit.Reach.{
  Reaches, here, after, reserves, releases, cancels, Reaches-audit_ledger,
}
use invoice_reservation.Service.TreasuryEvent.{
  CapacityEvent, CapacityEventType, ApplyOutcome, apply, apply_locked, apply_new, apply_or_suppress,
  apply_entry, build_entry, insert_processed, record_applied,
}
use invoice_reservation.Service.Delivery.Once.{apply_once}
use invoice_reservation.Store.{upsert_position, upsert}
use invoice_reservation.Store.Tables.{StreamCoordinates}

abbrev environment : Environment
environment = record {
  now = pos 100;
  new_id = codes "r1";
  sha256 = λ t. t;
  newest_observed_for = λ id. none;
  rate_for = λ from to at. ok none;
}

abbrev position : ProgramPosition
position = record {
  id = codes "p";
  currency = codes "EUR";
  credit_limit_minor = pos 50;
  local_reserved_minor = pos 0;
  treasury_reserved_minor = pos 5;
  next_sequence = pos 2;
  over_limit_since = none;
  investigation_required = false;
  position_verified = true;
}

abbrev program : ProgramEntity
program = record {
  position = position;
  organisation_id = codes "o";
  treasury_version = pos 1;
  treasury_effective_at = none;
  treasury_applied_effective_at = none;
  position_changed_at = pos 1;
}

abbrev opening : PositionComponent → LedgerCause → ℤ → ℤ → LedgerRow
opening c cause delta n = record {
  program_id = codes "p";
  entry = record {
    pending = record {
      delta_minor = delta;
      component = c;
      cause = cause;
      origin_reference = none;
      actor = codes "seed";
      correlation_id = codes "seed";
    };
    sequence = n;
  };
  occurred_at = pos 1;
}

abbrev database : Database
database = record {
  programs = program ∷ [];
  reservations = [];
  ledger =
      opening PositionComponent.limit LedgerCause.limit_change (pos 50) (pos 0)
      ∷ opening PositionComponent.treasury LedgerCause.treasury_event (pos 5) (pos 1)
      ∷ [];
  requests = [];
  processed = [];
  stream_positions = [];
  acknowledgements = [];
}

abbrev command : ReserveCommand
command = record {
  organisation_id = codes "o";
  program_id = codes "p";
  request_id = codes "k1";
  invoice_id = codes "i";
  amount_minor = pos 20;
  currency = codes "EUR";
  actor = codes "a";
  correlation_id = codes "c";
}

-- To compute with the services.
unfoldable service_ops : Unit {0}
unfolding ◌+ℤ◌ ◌-ℤ◌ ◌*ℤ◌ neg_ℤ div_trunc rem_trunc show_ℤ text_eq find update_where scale_rate
    convert round_half_up money total_reserved available is_over_limit advance_position price fit
    decide_reservation conclude settle release_policy cancel_policy tx_ops find_program
    with_program_lock program_constraints local_within_limit persist_advance join_bars
    reserve_fingerprint cancel_fingerprint decide_state decide_existing begin complete_request
    to_reservation_body lag_seconds_for to_availability_body reserve_identity resolve_fx
    outstanding_bounded rate_constraint reservation_constraints insert_reservation book carry_out
    reserve_fresh on_decision reserve_locked reserve release_identity apply_release on_release
    release_row release_fresh release_locked release cancel_identity apply_cancel on_cancel
    cancel_row cancel_fresh cancel_locked cancel transaction
service_ops = tt

-- The outcome and the database of a run, an empty one where it failed.
abbrev outcome_in : Outcome → Result (Outcome × Database) Failure → Outcome
outcome_in d (ok (o, db)) = o
outcome_in d (err e) = d

abbrev database_in : Result (Outcome × Database) Failure → Database
database_in (ok (o, db)) = db
database_in (err e) = database

abbrev first : Outcome
first = record {
  created = true;
  body =
      body_of environment (new_reservation environment command program (pos 20) none) program
        (advance_position position (reserve_entry command (pos 20) ∷ []) (pos 100));
}

abbrev booked : Database
booked = database_in (reserve environment command database)

reserve-succeeds : reserve environment command database ≡ ok (first, booked)
unfolding service_ops
reserve-succeeds = refl

reserve-replays_example : reserve environment command booked ≡ ok (again first, booked)
reserve-replays_example =
    reserve-replays environment environment command first database booked refl reserve-succeeds

abbrev release_command : ReleaseCommand
release_command = record {
  organisation_id = codes "o";
  program_id = codes "p";
  request_id = codes "k2";
  invoice_id = codes "i";
  release_minor = pos 5;
  currency = codes "EUR";
  actor = codes "a";
  correlation_id = codes "c";
}

abbrev released : Database
released = database_in (release environment release_command booked)

abbrev second : Outcome
second = outcome_in first (release environment release_command booked)

release-succeeds : release environment release_command booked ≡ ok (second, released)
unfolding service_ops
release-succeeds = refl

release-replays_example : release environment release_command released ≡ ok (again second, released)
release-replays_example =
    release-replays environment environment release_command second booked released refl
      release-succeeds

abbrev cancel_command : CancelCommand
cancel_command = record {
  organisation_id = codes "o";
  program_id = codes "p";
  request_id = codes "k3";
  invoice_id = codes "i";
  reason = CancelReason.written_off;
  note = none;
  actor = codes "a";
  correlation_id = codes "c";
}

abbrev closed : Database
closed = database_in (cancel environment cancel_command released)

abbrev third : Outcome
third = outcome_in first (cancel environment cancel_command released)

cancel-succeeds : cancel environment cancel_command released ≡ ok (third, closed)
unfolding service_ops
cancel-succeeds = refl

cancel-replays_example : cancel environment cancel_command closed ≡ ok (again third, closed)
cancel-replays_example =
    cancel-replays environment environment cancel_command third released closed refl cancel-succeeds

-- After the three commands, what was reserved is free again.
closed-local : map (λ (p : ProgramEntity). p.local_reserved_minor) closed.programs ≡ pos 0 ∷ []
unfolding service_ops
closed-local = refl

-- All three commands, one after another.
abbrev final : Database
final =
    (transaction (cancel environment cancel_command)
      (transaction (release environment release_command)
        (transaction (reserve environment command) database).1).1).1

abbrev run : Reaches database final
run =
    after (after (after here (reserves environment command)) (releases environment release_command))
      (cancels environment cancel_command)

opening-audit : (audit_ledger database).mismatch ≡ none
unfolding audit_ledger audit_programs audit_components ledger_sum text_eq ◌+ℤ◌
opening-audit = refl

Reaches-audit_ledger_example : (audit_ledger final).mismatch ≡ none
Reaches-audit_ledger_example = Reaches-audit_ledger database final run opening-audit

-- The treasury books 10.
abbrev booking : CapacityEvent
booking = record {
  message_id = codes "m1";
  program_id = codes "p";
  version = pos 2;
  effective_at = pos 90;
  correlation_id = none;
  type = CapacityEventType.reservation_booked;
  amount_minor = pos 10;
  currency = codes "EUR";
  reservation_reference = none;
}

abbrev coordinates : StreamCoordinates
coordinates = record { topic = codes "t"; partition = pos 0; offset = pos 7 }

abbrev content_hash : CapacityEvent → Text
content_hash e = e.message_id

abbrev after_booking : Database
after_booking = (apply content_hash (pos 100) booking coordinates database).1

booking-succeeds :
    apply content_hash (pos 100) booking coordinates database
    ≡ (ok ApplyOutcome.applied, after_booking)
unfolding service_ops apply apply_locked apply_new apply_or_suppress apply_entry build_entry
    insert_processed record_applied upsert_position upsert
booking-succeeds = refl

apply_once_example :
    apply content_hash (pos 200) booking coordinates after_booking
    ≡ (ok ApplyOutcome.already_applied, after_booking)
apply_once_example =
    apply_once content_hash (pos 100) (pos 200) booking coordinates coordinates ApplyOutcome.applied
      database after_booking booking-succeeds refl
