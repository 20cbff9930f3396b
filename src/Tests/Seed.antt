-- ===== src/Tests/Seed.antt =====
-- The database that scripts/seed.ts makes of empty tables, seeded again, and a reservation on it.
use invoice_reservation.Prelude.{◌≡◌, refl, true, none, [], map, find, update_where}
use invoice_reservation.Prelude.Text.{codes, text_eq}
use invoice_reservation.Prelude.Int.{pos, ◌+ℤ◌, ◌-ℤ◌}
use invoice_reservation.Prelude.Result.{ok, is_ok}
use invoice_reservation.Money.{is_currency_code}
use invoice_reservation.Position.{advance_position, total_reserved, is_over_limit}
use invoice_reservation.Store.{
  Database, find_program, persist_advance, transaction, tx_ops, program_constraints,
  local_within_limit,
}
use invoice_reservation.Service.Reserve.{ReserveCommand, reserve}
use invoice_reservation.Service.Reconciliation.{check}
use invoice_reservation.Audit.{audit_ledger}
use invoice_reservation.Audit.Reach.{here, after, reserves}
use invoice_reservation.Seed.{
  insert_program, load_program_for_update, set_limit, seed_program, seed_programs, run_seed,
  organisations, token_claims, northwind_organisation_id,
}
use invoice_reservation.Seed.Once.{run_seed-again}
use invoice_reservation.Seed.Start.{empty, seeded, run_seed-Reaches}
use invoice_reservation.Tests.{environment}

abbrev start : Database
start = seeded (pos 1) (pos 2)

run_seed-start :
    run_seed (pos 1) (pos 2) empty ≡ ok (map (token_claims (pos 2)) organisations, start)
unfolding tx_ops find_program persist_advance advance_position total_reserved is_over_limit
    transaction insert_program load_program_for_update set_limit seed_program seed_programs run_seed
    text_eq find update_where ◌+ℤ◌ ◌-ℤ◌ is_currency_code program_constraints local_within_limit
run_seed-start = refl

run_seed-again_example :
    run_seed (pos 8) (pos 9) start ≡ ok (map (token_claims (pos 9)) organisations, start)
run_seed-again_example =
    run_seed-again (pos 1) (pos 8) (pos 2) (pos 9) (map (token_claims (pos 2)) organisations) empty
      start run_seed-start

abbrev first_command : ReserveCommand
first_command = record {
  organisation_id = northwind_organisation_id;
  program_id = codes "b1b2c3d4-0001-4000-8000-000000000011";
  request_id = codes "key-0001";
  invoice_id = codes "i";
  amount_minor = pos 20;
  currency = codes "USD";
  actor = northwind_organisation_id;
  correlation_id = codes "c";
}

abbrev reserved : Database
reserved = (transaction (reserve environment first_command) start).1

run_seed-Reaches_example :
    (is_ok (transaction (run_seed (pos 1) (pos 2)) empty).0 ≡ true)
    × ((audit_ledger reserved).mismatch ≡ none)
    × ((check reserved).0.mismatches ≡ [])
run_seed-Reaches_example =
    run_seed-Reaches (pos 1) (pos 2) reserved (after here (reserves environment first_command))
