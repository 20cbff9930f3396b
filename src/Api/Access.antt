-- ===== src/Api/Access.antt =====
-- src/auth and src/capacity/api: who is answered with what.
use mathlib.Core.Path.{subst}
use invoice_reservation.Prelude.{
  ◌≡◌, refl, sym, ap, ◌∙◌, ◌⊎◌, Bool, true, false, Bool-cases, inl, inr, Option, some, [], ◌∷◌,
}
use invoice_reservation.Prelude.Text.{Text, codes}
use invoice_reservation.Prelude.Result.{Result, ok, err, ◌>>=◌, ◌>>◌}
use invoice_reservation.Store.{Database}
use invoice_reservation.Stream.Json.{is_uuid}
use invoice_reservation.Api.ErrorFilter.{Exception}
use invoice_reservation.Api.Guards.{
  AuthContext, Gate, is_nonempty, jwt_auth_guard, org_throttler_guard, program_not_found_error,
  organisation_of, is_owner, program_scope_guard, scope_guard, guard_chain,
}
use invoice_reservation.Api.Caller.{IsAuthorised, guard_chain-IsAuthorised}
use invoice_reservation.Api.Controller.{
  Server, Call, create_reservation, create_release, cancel_reservation, get_availability,
  reservations_of, reservation_of, ledger_of, required_scope, Answer, replied, failed, fail,
  after_guards, handle,
}

-- No caller whom the token names owns the program.
abbrev pub IsForeign : Gate → Option Text → Text → Database → Type 0
IsForeign gate authorization id db =
    (auth : AuthContext)
    → jwt_auth_guard gate authorization ≡ ok auth
    → is_owner (organisation_of id db) auth.org ≡ false

-- What the guards say of a foreign program, which depends on no database.
abbrev foreign_chain : Gate → Text → Option Text → Result AuthContext Exception
foreign_chain gate correlation_id authorization = jwt_auth_guard gate authorization >>= λ auth.
    org_throttler_guard gate correlation_id auth >> err program_not_found_error

abbrev error_of : {A : Type 0} → Result A Exception → Exception
error_of (ok a) = program_not_found_error
error_of (err x) = x

abbrev foreign_error : Gate → Text → Option Text → Exception
foreign_error gate correlation_id authorization =
    error_of (foreign_chain gate correlation_id authorization)

program_scope_guard-foreign :
    (id : Text) (auth : AuthContext) (db : Database)
    → is_nonempty id ≡ true
    → is_owner (organisation_of id db) auth.org ≡ false
    → program_scope_guard (some id) auth db ≡ err program_not_found_error
unfolding program_scope_guard
program_scope_guard-foreign [] auth db h foreign = absurd cc
program_scope_guard-foreign (c ∷ t) auth db h foreign = elim (Bool-cases (is_uuid (c ∷ t))) [
  | inl uuid ↦ rw (uuid, foreign) refl
  | inr other ↦ rw other refl
]

guard_chain-foreign :
    (gate : Gate) (correlation_id id : Text) (required authorization : Option Text) (db : Database)
    → is_nonempty id ≡ true
    → IsForeign gate authorization id db
    → guard_chain gate correlation_id required
        (record { authorization = authorization; program_id = some id })
        db
      ≡ foreign_chain gate correlation_id authorization
unfolding guard_chain
guard_chain-foreign gate correlation_id id required authorization db h foreign =
    go (jwt_auth_guard gate authorization) (λ auth e. foreign auth e)
  where
    refused_on :
        (r s : Result (Unit {0}) Exception) (auth : AuthContext)
        → (r >> err program_not_found_error >> s >> ok auth) ≡ (r >> err program_not_found_error)
    refused_on (ok u) s auth = refl
    refused_on (err x) s auth = refl

    go :
        (r : Result AuthContext Exception)
        → ((auth : AuthContext) → r ≡ ok auth → is_owner (organisation_of id db) auth.org ≡ false)
        → (r >>= λ auth.
            org_throttler_guard gate correlation_id auth
            >> program_scope_guard (some id) auth db
            >> scope_guard required auth
            >> ok auth)
          ≡ (r >>= λ auth.
              org_throttler_guard gate correlation_id auth >> err program_not_found_error)
    go (err x) k = refl
    go (ok auth) k =
        ap
          (λ g.
            org_throttler_guard gate correlation_id auth
            >> g
            >> scope_guard required auth
            >> ok auth)
          (program_scope_guard-foreign id auth db h (k auth refl))
        ∙ refused_on (org_throttler_guard gate correlation_id auth) (scope_guard required auth) auth

throttled_error :
    (u : Result (Unit {0}) Exception) (x : Exception)
    → ◌≡◌ {A = Result AuthContext Exception}
        (u >> err x)
        (err (error_of {A = AuthContext} (u >> err x)))
throttled_error (ok u) x = refl
throttled_error (err y) x = refl

chain_error :
    (r : Result AuthContext Exception) (admit : AuthContext → Result (Unit {0}) Exception)
    (x : Exception)
    → ◌≡◌ {A = Result AuthContext Exception}
        (r >>= λ auth. admit auth >> err x)
        (err (error_of {A = AuthContext} (r >>= λ auth. admit auth >> err x)))
chain_error (err y) admit x = refl
chain_error (ok auth) admit x = throttled_error (admit auth) x

-- A request for a foreign program: one answer, whatever the database holds of it.
handle-foreign :
    (server : Server) (correlation_id id : Text) (authorization : Option Text) (call : Call)
    (db : Database)
    → is_nonempty id ≡ true
    → IsForeign server.gate authorization id db
    → handle server correlation_id id authorization call db
      ≡ (fail server correlation_id id (foreign_error server.gate correlation_id authorization), db)
unfolding handle
handle-foreign server correlation_id id authorization call db h foreign =
    ap (λ r. after_guards server correlation_id id r call db)
      (guard_chain-foreign server.gate correlation_id id (some (required_scope call)) authorization
          db h foreign
        ∙ chain_error (jwt_auth_guard server.gate authorization)
            (org_throttler_guard server.gate correlation_id) program_not_found_error)

-- A request for a program that none of the caller's tokens owns, in either of two databases: the
-- answers are the same, whether the program exists there or not, and each database stays as it is.
pub handle-hides :
    (server : Server) (correlation_id id : Text) (authorization : Option Text) (call : Call)
    (db other : Database)
    → is_nonempty id ≡ true
    → IsForeign server.gate authorization id db
    → IsForeign server.gate authorization id other
    → ((handle server correlation_id id authorization call db).0
        ≡ (handle server correlation_id id authorization call other).0)
      × ((handle server correlation_id id authorization call db).1 ≡ db)
      × ((handle server correlation_id id authorization call other).1 ≡ other)
handle-hides server correlation_id id authorization call db other h foreign elsewhere =
    let here = handle-foreign server correlation_id id authorization call db h foreign in
    let there = handle-foreign server correlation_id id authorization call other h elsewhere in
    (ap (λ r. r.0) here ∙ sym (ap (λ r. r.0) there), ap (λ r. r.1) here, ap (λ r. r.1) there)

-- The scope that a call needs: to read, to read the ledger, or to write.
abbrev pub needed_scope : Call → Text
needed_scope get_availability = codes "capacity:read"
needed_scope (reservations_of query cursor) = codes "capacity:read"
needed_scope (reservation_of invoice_id) = codes "capacity:read"
needed_scope (ledger_of query cursor) = codes "capacity:audit"
needed_scope _ = codes "capacity:write"

required_scope-needed : (call : Call) → required_scope call ≡ needed_scope call
required_scope-needed (create_reservation key invoice_id amount) = refl
required_scope-needed (create_release key invoice_id amount) = refl
required_scope-needed (cancel_reservation key invoice_id reason comment) = refl
required_scope-needed get_availability = refl
required_scope-needed (reservations_of query cursor) = refl
required_scope-needed (reservation_of invoice_id) = refl
required_scope-needed (ledger_of query cursor) = refl

abbrev pub is_failed : Answer → Bool
is_failed (replied status reply) = false
is_failed (failed response) = true

-- A request for a program id that is not empty is answered with an error and changes nothing, or its
-- caller is authorised: the header's token is verified, with a time of expiry; its organisation is a
-- uuid and owns a program of the table with the id; and the scope that the call needs is a word of its
-- scopes.
pub handle-IsAuthorised :
    (server : Server) (correlation_id id : Text) (authorization : Option Text) (call : Call)
    (db : Database)
    → is_nonempty id ≡ true
    → ((is_failed (handle server correlation_id id authorization call db).0 ≡ true)
        × ((handle server correlation_id id authorization call db).1 ≡ db))
      ⊎ IsAuthorised server.gate id authorization (needed_scope call) db
unfolding handle
handle-IsAuthorised server correlation_id id authorization call db h =
    go
      (guard_chain server.gate correlation_id (some (required_scope call))
        (record { authorization = authorization; program_id = some id }) db)
      refl
  where
    go :
        (r : Result AuthContext Exception)
        → guard_chain server.gate correlation_id
            (some (required_scope call))
            (record { authorization = authorization; program_id = some id })
            db
          ≡ r
        → ((is_failed (after_guards server correlation_id id r call db).0 ≡ true)
            × ((after_guards server correlation_id id r call db).1 ≡ db))
          ⊎ IsAuthorised server.gate id authorization (needed_scope call) db
    go (err x) e = inl (refl, refl)
    go (ok auth) e = inr (
        subst (λ scope. IsAuthorised server.gate id authorization scope db)
          (required_scope-needed call)
          (guard_chain-IsAuthorised server.gate correlation_id id (required_scope call)
            authorization db auth h e))
