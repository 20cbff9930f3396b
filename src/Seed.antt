-- ===== src/Seed.antt =====
-- scripts/seed.ts: the programs that it creates, and the tokens' claims. The tables of organisations
-- and of exchange rates, which no part of the model reads, are left out.
pub mod Once
pub mod Start
use invoice_reservation.Prelude.{
  ◌+◌, Bool, true, false, Option, none, some, List, [], ◌∷◌, ◌++◌, map, if◌then◌else◌, is_some,
}
use invoice_reservation.Prelude.Text.{Text, codes}
use invoice_reservation.Prelude.Int.{ℤ, pos, ◌+ℤ◌}
use invoice_reservation.Money.{is_currency_code}
use invoice_reservation.Position.{
  Date, PositionComponent, LedgerCause, PendingLedgerEntry, advance_position,
}
use invoice_reservation.Store.{
  Database, Tx, Failure, unexpected, pure, throw, ◌>>=◌, ◌>>◌, gets, modify, check, find_program,
  persist_advance,
}
use invoice_reservation.Store.Tables.{ProgramEntity}
use invoice_reservation.Stream.Json.{Json, integer, number, string, object, member, end}

pub record ProgramSeed : Type 0 where
  pub id : Text
  pub organisation_id : Text
  pub currency : Text
  pub credit_limit_minor : ℤ

abbrev pub northwind_organisation_id : Text
northwind_organisation_id = codes "a1b2c3d4-0001-4000-8000-000000000001"

abbrev pub contoso_organisation_id : Text
contoso_organisation_id = codes "a1b2c3d4-0002-4000-8000-000000000002"

abbrev pub organisations : List Text
organisations = northwind_organisation_id ∷ contoso_organisation_id ∷ []

-- PROGRAMS
abbrev pub program_seeds : List ProgramSeed
program_seeds =
    record {
      id = codes "b1b2c3d4-0001-4000-8000-000000000011";
      organisation_id = northwind_organisation_id;
      currency = codes "USD";
      credit_limit_minor = pos 1000000000;
    }
    ∷ record {
      id = codes "b1b2c3d4-0002-4000-8000-000000000012";
      organisation_id = northwind_organisation_id;
      currency = codes "EUR";
      credit_limit_minor = pos 500000000;
    }
    ∷ record {
      id = codes "b1b2c3d4-0003-4000-8000-000000000013";
      organisation_id = contoso_organisation_id;
      currency = codes "USD";
      credit_limit_minor = pos 200000000;
    }
    ∷ []

-- The row of an INSERT that gives three columns; `now` is that of the database.
abbrev pub new_program : Date → ProgramSeed → ProgramEntity
new_program now s = record {
  position = record {
    id = s.id;
    currency = s.currency;
    credit_limit_minor = pos 0;
    local_reserved_minor = pos 0;
    treasury_reserved_minor = pos 0;
    next_sequence = pos 1;
    over_limit_since = none;
    investigation_required = false;
    position_verified = true;
  };
  organisation_id = s.organisation_id;
  treasury_version = pos 0;
  treasury_effective_at = none;
  treasury_applied_effective_at = none;
  position_changed_at = now;
}

-- `INSERT … ON CONFLICT (id) DO NOTHING RETURNING id`: whether a row was inserted.
unfoldable pub insert_program : Date → ProgramSeed → Tx Bool
insert_program now s = do
  found ← gets (find_program s.id)
  if is_some found then pure false else do
    check (is_currency_code s.currency)
    modify λ db. record db { programs = db.programs ++ new_program now s ∷ [] }
    pure true

-- `loadProgramForUpdate`
unfoldable pub load_program_for_update : Text → Tx ProgramEntity
load_program_for_update id = do
  found ← gets (find_program id)
  elim found [ some p ↦ pure p | none ↦ throw unexpected ]

abbrev pub limit_change : ProgramSeed → PendingLedgerEntry
limit_change s = record {
  delta_minor = s.credit_limit_minor;
  component = PositionComponent.limit;
  cause = LedgerCause.limit_change;
  origin_reference = none;
  actor = codes "seed";
  correlation_id = codes "seed-limit-change";
}

unfoldable pub set_limit : Date → ProgramSeed → Tx (Unit {0})
set_limit now s = do
  p ← load_program_for_update s.id
  persist_advance false p.position s.id (advance_position p.position (limit_change s ∷ []) now) now

unfoldable pub seed_program : Date → ProgramSeed → Tx (Unit {0})
seed_program now s = do
  inserted ← insert_program now s
  if inserted then set_limit now s else pure tt

unfoldable pub seed_programs : Date → List ProgramSeed → Tx (Unit {0})
seed_programs now [] = pure tt
seed_programs now (s ∷ ss) = do seed_program now s; seed_programs now ss

-- The payload that `sign` is given for an organisation; `seconds` is the clock's.
abbrev pub token_claims : ℤ → Text → Json
token_claims seconds org = object (
    member (codes "org") (string org) (
      member (codes "scope") (string (codes "capacity:read capacity:write capacity:audit"))
        (member (codes "exp") (number (integer (seconds +ℤ pos 86400))) end)))

-- `runSeed`, inside its transaction: the tokens' claims.
unfoldable pub run_seed : Date → ℤ → Tx (List Json)
run_seed now seconds = do
  seed_programs now program_seeds
  pure (map (token_claims seconds) organisations)
