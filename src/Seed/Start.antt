-- ===== src/Seed/Start.antt =====
-- scripts/seed.ts, and what the services of src/capacity/application make of the seeded database.
use invoice_reservation.Prelude.{◌≡◌, refl, none, true, [], find, update_where}
use invoice_reservation.Prelude.Text.{text_eq}
use invoice_reservation.Prelude.Int.{ℤ, ◌+ℤ◌, ◌-ℤ◌}
use invoice_reservation.Prelude.Result.{is_ok}
use invoice_reservation.Position.{Date, advance_position, total_reserved, is_over_limit}
use invoice_reservation.Store.{
  Database, find_program, persist_advance, transaction, tx_ops, program_constraints,
  local_within_limit,
}
use invoice_reservation.Audit.{audit_ledger, audit_programs, audit_components, ledger_sum}
use invoice_reservation.Audit.Reach.{Reaches, Reaches-audit_ledger}
use invoice_reservation.Service.Reconciliation.{
  check, mismatches_of, active_outstanding, flag_mismatches,
}
use invoice_reservation.Booked.Rows.{AreRows}
use invoice_reservation.Money.{is_currency_code}
use invoice_reservation.Booked.Reach.{Reaches-check}
use invoice_reservation.Seed.{
  insert_program, load_program_for_update, set_limit, seed_program, seed_programs, run_seed,
}

-- The tables after the migrations.
abbrev pub empty : Database
empty = record {
  programs = [];
  reservations = [];
  ledger = [];
  requests = [];
  processed = [];
  stream_positions = [];
  acknowledgements = [];
}

abbrev pub seeded : Date → ℤ → Database
seeded now seconds = (transaction (run_seed now seconds) empty).1

run_seed-is_ok :
    (now : Date) (seconds : ℤ) → is_ok (transaction (run_seed now seconds) empty).0 ≡ true
unfolding tx_ops find_program persist_advance advance_position total_reserved is_over_limit
    transaction insert_program load_program_for_update set_limit seed_program seed_programs run_seed
    text_eq find update_where ◌+ℤ◌ ◌-ℤ◌ is_currency_code program_constraints local_within_limit
run_seed-is_ok now seconds = refl

audit_ledger-seeded :
    (now : Date) (seconds : ℤ) → (audit_ledger (seeded now seconds)).mismatch ≡ none
unfolding audit_ledger audit_programs audit_components ledger_sum tx_ops find_program
    persist_advance advance_position total_reserved is_over_limit transaction insert_program
    load_program_for_update set_limit seed_program seed_programs run_seed text_eq find update_where
    ◌+ℤ◌ ◌-ℤ◌ is_currency_code program_constraints local_within_limit
audit_ledger-seeded now seconds = refl

check-seeded : (now : Date) (seconds : ℤ) → (check (seeded now seconds)).0.mismatches ≡ []
unfolding check mismatches_of active_outstanding flag_mismatches tx_ops find_program persist_advance
    advance_position total_reserved is_over_limit transaction insert_program load_program_for_update
    set_limit seed_program seed_programs run_seed text_eq find update_where ◌+ℤ◌ ◌-ℤ◌
    is_currency_code program_constraints local_within_limit
check-seeded now seconds = refl

no_reservations : (now : Date) (seconds : ℤ) → AreRows (seeded now seconds).reservations
unfolding tx_ops find_program persist_advance advance_position total_reserved is_over_limit
    transaction insert_program load_program_for_update set_limit seed_program seed_programs run_seed
    text_eq find update_where ◌+ℤ◌ ◌-ℤ◌ is_currency_code program_constraints local_within_limit
no_reservations now seconds = tt

-- The seeding of the empty tables succeeds, at any time; and after it and any sequence of calls of the
-- services and of the sweeps the audit of the ledger and the reconciliation check find no mismatch.
pub run_seed-Reaches :
    (now : Date) (seconds : ℤ) (end : Database)
    → Reaches (seeded now seconds) end
    → (is_ok (transaction (run_seed now seconds) empty).0 ≡ true)
      × ((audit_ledger end).mismatch ≡ none)
      × ((check end).0.mismatches ≡ [])
run_seed-Reaches now seconds end r = (
  run_seed-is_ok now seconds,
  Reaches-audit_ledger (seeded now seconds) end r (audit_ledger-seeded now seconds),
  Reaches-check (seeded now seconds) end (no_reservations now seconds) r (check-seeded now seconds),
)
