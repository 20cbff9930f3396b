-- ===== src/Api/Replays.antt =====
-- src/capacity/api/capacity.controller.ts: a write that is sent again.
use invoice_reservation.Prelude.{◌≡◌, refl, sym, ap, ◌∙◌, ℕ, Bool, true, false, Option, none, some}
use invoice_reservation.Prelude.Text.{Text}
use invoice_reservation.Prelude.Int.{ℤ}
use invoice_reservation.Prelude.Result.{Result, ok, err}
use invoice_reservation.Store.{Database, Tx, Failure, transaction}
use invoice_reservation.Store.Tables.{Body, AvailabilityBody}
use invoice_reservation.Service.Reserve.{Outcome, reserve}
use invoice_reservation.Service.Release.{release}
use invoice_reservation.Service.Cancel.{cancel}
use invoice_reservation.Service.Replays.Commands.{
  again, reserve-replays, release-replays, cancel-replays,
}
use invoice_reservation.Service.Availability.{for_program}
use invoice_reservation.AuditRead.Cursor.{ReadError}
use invoice_reservation.AuditRead.Ledger.{list_ledger}
use invoice_reservation.AuditRead.Reservations.{list_reservations, get_reservation}
use invoice_reservation.Api.ErrorFilter.{HttpError, Exception}
use invoice_reservation.Api.Guards.{AuthContext, guard_chain}
use invoice_reservation.Api.Controller.{
  Server, Call, create_reservation, create_release, cancel_reservation, get_availability,
  reservations_of, reservation_of, ledger_of, required_scope, Answer, replied, failed, Reply,
  outcome_reply, reservation_reply, reservations_reply, ledger_reply, of_read, of_availability,
  fail, reserve_at, release_at, cancel_at, checked_key, minor_of_text, answer_outcome, with_key,
  with_amount, run_call, after_pipes, after_guards, handle, reserve_command, release_command,
  cancel_command,
}

-- The second call gives again what the first gave.
abbrev Again : Tx Outcome → Tx Outcome → Type 0
Again first second =
    (o : Outcome) (db end : Database) → first db ≡ ok (o, end) → second end ≡ ok (again o, end)

abbrev is_outcome_reply : Reply → Bool
is_outcome_reply (outcome_reply b) = true
is_outcome_reply _ = false

abbrev is_outcome : Answer → Bool
is_outcome (replied status reply) = is_outcome_reply reply
is_outcome (failed response) = false

availability_reads :
    (server : Server) (correlation_id id : Text) (r : Result AvailabilityBody Failure)
    → is_outcome (of_availability server correlation_id id r) ≡ false
availability_reads server correlation_id id (ok a) = refl
availability_reads server correlation_id id (err f) = refl

read_reads :
    {A : Type 0} (server : Server) (correlation_id id : Text) (reply : A → Reply)
    → ((a : A) → is_outcome_reply (reply a) ≡ false)
    → (r : Result A ReadError) → is_outcome (of_read server correlation_id id reply r) ≡ false
read_reads server correlation_id id reply h (ok a) = h a
read_reads server correlation_id id reply h (err e) = refl

module _ (server later : Server) (correlation_id id : Text) (status : ℕ) (body : Body)
    (db end : Database) where
  abbrev shown : ℕ → Answer × Database
  shown s = (replied s (outcome_reply body), end)

  answer-Again :
      (first second : Tx Outcome)
      → Again first second
      → answer_outcome server correlation_id id (transaction first db) ≡ shown status
      → answer_outcome later correlation_id id (transaction second end) ≡ shown 200
  unfolding transaction
  answer-Again first second replays h = go (first db) refl h
    where
      go :
          (r : Result (Outcome × Database) Failure)
          → first db ≡ r
          → answer_outcome server correlation_id id
              (elim r as (λ _. Result Outcome Failure × Database) [
                | ok (o, db') ↦ (ok o, db')
                | err e ↦ (err e, db)
              ])
            ≡ shown status
          → answer_outcome later correlation_id id (transaction second end) ≡ shown 200
      go (err f) e k = absurd cc
      go (ok (o, end')) e k =
          let same : end' ≡ end = ap (λ r. r.1) k in
          let told : o.body ≡ body = cc in
          ap (λ d. answer_outcome later correlation_id id (transaction second d)) (sym same)
          ∙ ap
              (λ r.
                answer_outcome later correlation_id id
                  (elim r as (λ _. Result Outcome Failure × Database) [
                    | ok (p, db') ↦ (ok p, db')
                    | err f ↦ (err f, end')
                  ]))
              (replays o db end' e)
          ∙ (λ i. (replied 200 (outcome_reply (told i)), same i))

  key_again :
      (key : Option Text) (serve resume : Text → Database → Answer × Database)
      → ((k : Text) → serve k db ≡ shown status → resume k end ≡ shown 200)
      → with_key server correlation_id id key serve db ≡ shown status
      → with_key later correlation_id id key resume end ≡ shown 200
  key_again key serve resume each h = go (checked_key key) h
    where
      go :
          (r : Result Text Exception)
          → (elim r as (λ _. Answer × Database) [
            | ok k ↦ serve k db
            | err x ↦ (fail server correlation_id id x, db)
          ])
            ≡ shown status
          → (elim r as (λ _. Answer × Database) [
            | ok k ↦ resume k end
            | err x ↦ (fail later correlation_id id x, end)
          ])
            ≡ shown 200
      go (ok k) e = each k e
      go (err x) e = absurd cc

  amount_again :
      (t : Text) (serve resume : ℤ → Database → Answer × Database)
      → ((n : ℤ) → serve n db ≡ shown status → resume n end ≡ shown 200)
      → with_amount server correlation_id id t serve db ≡ shown status
      → with_amount later correlation_id id t resume end ≡ shown 200
  amount_again t serve resume each h = go (minor_of_text t) h
    where
      go :
          (r : Result ℤ Exception)
          → (elim r as (λ _. Answer × Database) [
            | ok n ↦ serve n db
            | err x ↦ (fail server correlation_id id x, db)
          ])
            ≡ shown status
          → (elim r as (λ _. Answer × Database) [
            | ok n ↦ resume n end
            | err x ↦ (fail later correlation_id id x, end)
          ])
            ≡ shown 200
      go (ok n) e = each n e
      go (err x) e = absurd cc

  run_call-again :
      (auth : AuthContext) (call : Call)
      → later.environment.sha256 ≡ server.environment.sha256
      → run_call server correlation_id id auth call db ≡ shown status
      → run_call later correlation_id id auth call end ≡ shown 200
  unfolding run_call
  run_call-again auth (create_reservation key invoice_id amount) same h =
      let first = reserve_at server correlation_id id auth invoice_id amount in
      let second = reserve_at later correlation_id id auth invoice_id amount in
      key_again key (λ k. with_amount server correlation_id id amount.amount_minor (first k))
        (λ k. with_amount later correlation_id id amount.amount_minor (second k))
        (λ k. amount_again amount.amount_minor (first k) (second k) (λ n.
          let c = reserve_command server correlation_id id auth k invoice_id n amount.currency in
          answer-Again (reserve server.environment c) (reserve later.environment c)
            (λ o d e. reserve-replays server.environment later.environment c o d e same)))
        h
  run_call-again auth (create_release key invoice_id amount) same h =
      let first = release_at server correlation_id id auth invoice_id amount in
      let second = release_at later correlation_id id auth invoice_id amount in
      key_again key (λ k. with_amount server correlation_id id amount.amount_minor (first k))
        (λ k. with_amount later correlation_id id amount.amount_minor (second k))
        (λ k. amount_again amount.amount_minor (first k) (second k) (λ n.
          let c = release_command server correlation_id id auth k invoice_id n amount.currency in
          answer-Again (release server.environment c) (release later.environment c)
            (λ o d e. release-replays server.environment later.environment c o d e same)))
        h
  run_call-again auth (cancel_reservation key invoice_id reason comment) same h =
      key_again key (cancel_at server correlation_id id auth invoice_id reason comment)
        (cancel_at later correlation_id id auth invoice_id reason comment)
        (λ k.
          let c = cancel_command server correlation_id id auth k invoice_id reason comment in
          answer-Again (cancel server.environment c) (cancel later.environment c)
            (λ o d e. cancel-replays server.environment later.environment c o d e same))
        h
  run_call-again auth get_availability same h =
      let other =
        availability_reads server correlation_id id (for_program server.environment id db) in
      let told = ap (λ a. is_outcome a.0) h in absurd cc
  run_call-again auth (reservations_of query cursor) same h =
      let other =
        read_reads server correlation_id id reservations_reply (λ a. refl)
          (list_reservations server.codec id query db cursor) in
      let told = ap (λ a. is_outcome a.0) h in absurd cc
  run_call-again auth (reservation_of invoice_id) same h =
      let other =
        read_reads server correlation_id id reservation_reply (λ a. refl)
          (get_reservation id invoice_id db) in
      let told = ap (λ a. is_outcome a.0) h in absurd cc
  run_call-again auth (ledger_of query cursor) same h =
      let other =
        read_reads server correlation_id id ledger_reply (λ a. refl)
          (list_ledger server.codec id query db cursor) in
      let told = ap (λ a. is_outcome a.0) h in absurd cc

  after_pipes-again :
      (auth : AuthContext) (call : Call) (thrown : Option HttpError)
      → later.environment.sha256 ≡ server.environment.sha256
      → after_pipes server correlation_id id thrown auth call db ≡ shown status
      → after_pipes later correlation_id id thrown auth call end ≡ shown 200
  after_pipes-again auth call none same h = run_call-again auth call same h
  after_pipes-again auth call (some e) same h = absurd cc

  after_guards-again :
      (call : Call) (r : Result AuthContext Exception)
      → later.environment.sha256 ≡ server.environment.sha256
      → later.pipes id call ≡ server.pipes id call
      → after_guards server correlation_id id r call db ≡ shown status
      → after_guards later correlation_id id r call end ≡ shown 200
  after_guards-again call (err x) same passes h = absurd cc
  after_guards-again call (ok auth) same passes h =
      ap (λ thrown. after_pipes later correlation_id id thrown auth call end) passes
      ∙ after_pipes-again auth call (server.pipes id call) same h

-- If a request is answered with the outcome of a write, whether it was carried out or replayed, and
-- the guards and the pipes let the same request pass again, later and with the same hash, then it is
-- answered with status 200 and the same body, and the database stays as it is.
pub handle-again :
    (server later : Server) (correlation_id id : Text) (authorization : Option Text) (call : Call)
    (status : ℕ) (body : Body) (db end : Database)
    → later.environment.sha256 ≡ server.environment.sha256
    → later.pipes id call ≡ server.pipes id call
    → guard_chain later.gate correlation_id
        (some (required_scope call))
        (record { authorization = authorization; program_id = some id })
        end
      ≡ guard_chain server.gate correlation_id
          (some (required_scope call))
          (record { authorization = authorization; program_id = some id })
          db
    → handle server correlation_id id authorization call db
      ≡ (replied status (outcome_reply body), end)
    → handle later correlation_id id authorization call end
      ≡ (replied 200 (outcome_reply body), end)
unfolding handle
handle-again server later correlation_id id authorization call status body db end same passes guards
      h =
    ap (λ r. after_guards later correlation_id id r call end) guards
    ∙ after_guards-again server later correlation_id id status body db end call _ same passes h
