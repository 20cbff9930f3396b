-- ===== src/Lib.antt =====
-- The capacity ledger of the invoice-reservation service: how a program's credit limit is drawn on by
-- reservations of invoices, given back by releases and cancellations, and corrected by the treasury's
-- events and snapshots.
--
-- Parts, and the files that model them (paths from the repository's root):
--   Money       src/shared/money (money.ts, convert.ts, minor-units.ts): amounts in minor units, rates
--               scaled by 10^10, rounding, conversion
--   Position    src/capacity/domain/{ledger-entry,program,position}.ts: a program's position, and
--               `advancePosition`, which numbers entries, adds them up and emits over-limit markers
--   Errors      src/capacity/domain/errors.ts
--   Policy      src/capacity/domain/policies: the pure decisions on a reservation, a release, a
--               cancellation and a snapshot
--   Store       src/capacity/infrastructure: the tables, `UnitOfWork.withProgramLock`,
--               `persistAdvance`, the upsert of stream positions, and the CHECK constraints and the
--               trigger of src/migrations
--   Service     src/capacity/application: idempotency.service.ts, the projections, and the services
--               `reserve`, `release`, `cancel`, and `inspect` and `apply` of treasury events and
--               snapshots, whole handlers in the order of their statements
--               in Reconciliation, Recovery, Retention and Availability the sweeps and the view of
--               reconciliation-check, recovery-detection, request-retention and availability
--   Stream      src/treasury: the retry and the failure classes, the schemas of both messages over
--               JSON values, the handlers, and the consumer's processing, quarantine and commit
--   Api         src/capacity/api and src/auth: the guards, the handlers of the two controllers, and the
--               error filter, from a request to its answer and the database after it
--   StreamLag   src/shared/stream-lag: the registry of the newest time seen on the stream, and the
--               probe of src/treasury/consumer that feeds it
--   Fx          src/fx: the two providers of exchange rates
--   Audit       scripts/audit-ledger.ts, which replays the ledger against the cached position; in
--               Reach the sequences of calls of the services and the sweeps
--   AuditRead   src/capacity/application/audit-read.service.ts: both listings page by page, and the
--               client that follows their cursors
--   Booked      the local component of a program against its reservations, write by write
--   Seed        scripts/seed.ts: the programs that it creates in empty tables or finds there
--   Prelude     lists, texts, integers and src/shared/result
--   Tests       runs on concrete data
--
-- A service is a function of the database that returns an outcome and a new database, or a failure;
-- `transaction` keeps the old database on a failure. Each service locks its program's row for the
-- whole transaction, so transactions of one program run one after another; the model runs all of them
-- one after another, and each sweep as one step between them. The handlers call the policies, the
-- policies call Money, and what a policy accepts is written by `persist_advance` with what
-- `advance_position` made of it. A message of the treasury goes through `process_message`: the consumer
-- dispatches it under `with_retry` to a handler, which parses it and calls a service, then publishes a
-- dead letter or not, and commits. There the world is the database, the dead letters, the commits and
-- the number of calls so far; every call of a handler or of the broker meets the conditions that the
-- consumer's parameter `conditions` gives for its number, and may throw before or after its effect.
--
-- A `bigint` is an integer without bound; a BIGINT column refuses what a signed 64-bit value cannot
-- hold. A string is the list of its code units, a `Date` its milliseconds since the epoch. A number of
-- JSON is an integer or not one. A unique key is a search for the first row with the key. Parameters,
-- as arguments or in `Environment`, `Handling`, `Decoders`, `Consumer`, `Codec`, `Gate` and `Server`: the
-- clock, generated ids, SHA-256 and the content hashes (over JSON), the FX provider's port, the newest time seen on the
-- stream, the guard ratio in basis points, JSON.parse, Date.parse, the UTF-8 decoder, the error objects
-- of the driver, the conditions of the outside, the text of a cursor, what the database reads in a bound
-- value, the verification of a token, the throttler and the validation pipes.
-- `digits_before` has as many rounds as the number plus one, and the number of digits is smaller; `with_retry` has one round more than the policy has
-- attempts, of which it needs at most as many as there are attempts, and one.
--
-- A request to a route of a program goes through `guard_chain`, the pipes and `run_call`, and what it
-- throws through `respond`. The guard looks a program up by its id's canonical text, as the database
-- does; the services' model compares the texts of ids, which is the same for an id written canonically.
-- The client `follow_pages` asks for at most as many pages as there are rows, of which each shows at
-- least one.
--
-- Not modelled: the routing and the decorators of HTTP, public routes, connecting
-- and rebuilding the Kafka client, configuration, metrics and logging; foreign keys; the rewriting of a
-- rate's text by a NUMERIC column; times in a response stay dates.
pub mod Prelude
pub mod Money
pub mod Position
pub mod Errors
pub mod Policy
pub mod Store
pub mod Service
pub mod Audit
pub mod AuditRead
pub mod Fx
pub mod Booked
pub mod Seed
pub mod Stream
pub mod StreamLag
pub mod Api
pub mod Tests
