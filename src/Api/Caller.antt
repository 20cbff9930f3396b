-- ===== src/Api/Caller.antt =====
-- src/auth: whom the guards let through.
use invoice_reservation.Prelude.{
  ◌≡◌, refl, true, not, Option, none, some, [], ◌∷◌, ◌++◌, find, find-mem, Memᴰ,
}
use invoice_reservation.Prelude.Text.{Text, codes, text_eq_iff}
use invoice_reservation.Prelude.Result.{ok, ◌>>◌, bind_inv, throw_if}
use invoice_reservation.Money.{has}
use invoice_reservation.Store.{Database, has_id, find_program}
use invoice_reservation.Store.Tables.{ProgramEntity}
use invoice_reservation.Stream.Json.{Number, Members, number, string, object, get, is_uuid}
use invoice_reservation.Api.Guards.{
  AuthContext, Gate, is_nonempty, trim_start, trim_end, split_spaces, jwt_auth_guard,
  org_throttler_guard, program_not_found_error, canonical, organisation_of, is_owner,
  program_scope_guard, scope_guard, guard_chain,
}
use invoice_reservation.Api.Token.{scopes_of-mem, not_thrown, jwt_auth_guard-IsVerified}

-- The caller of a request for the program `id` on a route of the scope `required`: the header carries a
-- token that is verified, with a time of expiry; its organisation is a uuid and that of a program of
-- the table with the id, and the scope is a word of its scopes.
pub record IsAuthorised (gate : Gate) (id : Text) (authorization : Option Text) (required : Text)
    (db : Database) : Type 0 where
  pub token : Text
  pub given : authorization ≡ some (codes "Bearer " ++ token)
  pub claims : Members
  pub verified : gate.verify (trim_end (trim_start token)) ≡ some (object claims)
  pub expiry : Number
  pub expires : get (codes "exp") claims ≡ some (number expiry)
  pub organisation : Text
  pub named : get (codes "org") claims ≡ some (string organisation)
  pub is_id : is_uuid organisation ≡ true
  pub scopes : Text
  pub granted : get (codes "scope") claims ≡ some (string scopes)
  pub in_scope : Memᴰ required (split_spaces scopes)
  pub program : ProgramEntity
  pub listed : Memᴰ program db.programs
  pub found : program.id ≡ canonical id
  pub owns : program.organisation_id ≡ organisation

is_owner-program :
    (id org : Text) (db : Database)
    → is_owner (organisation_of id db) org ≡ true
    → (p : ProgramEntity) × Memᴰ p db.programs × (p.id ≡ canonical id) × (p.organisation_id ≡ org)
unfolding organisation_of find_program
is_owner-program id org db h = on_found (find (has_id (canonical id)) db.programs) refl h
  where
    on_found :
        (o : Option ProgramEntity)
        → find (has_id (canonical id)) db.programs ≡ o
        → is_owner (elim o [ none ↦ none | some p ↦ some p.organisation_id ]) org ≡ true
        → (p : ProgramEntity) × Memᴰ p db.programs
          × (p.id ≡ canonical id)
          × (p.organisation_id ≡ org)
    on_found none e k = absurd cc
    on_found (some p) e k =
        let (m, named) = find-mem (has_id (canonical id)) db.programs p e in
        (p, m, (text_eq_iff p.id (canonical id)).0 named, (text_eq_iff p.organisation_id org).0 k)

pub program_scope_guard_passed :
    (id : Text) (auth : AuthContext) (db : Database)
    → is_nonempty id ≡ true
    → program_scope_guard (some id) auth db ≡ ok tt
    → is_owner (organisation_of id db) auth.org ≡ true
unfolding program_scope_guard
program_scope_guard_passed [] auth db h k = absurd cc
program_scope_guard_passed (c ∷ t) auth db h k =
    let (u, shaped, owned) =
      bind_inv (throw_if (not (is_uuid (c ∷ t))) program_not_found_error)
        (λ _.
          throw_if (not (is_owner (organisation_of (c ∷ t) db) auth.org)) program_not_found_error)
        tt k in
    not_thrown (is_owner (organisation_of (c ∷ t) db) auth.org) program_not_found_error owned

-- The caller whom all of the guards let through.
pub guard_chain-IsAuthorised :
    (gate : Gate) (correlation_id id required : Text) (authorization : Option Text) (db : Database)
    (auth : AuthContext)
    → is_nonempty id ≡ true
    → guard_chain gate correlation_id
        (some required)
        (record { authorization = authorization; program_id = some id })
        db
      ≡ ok auth
    → IsAuthorised gate id authorization required db
unfolding guard_chain scope_guard
guard_chain-IsAuthorised gate correlation_id id required authorization db auth h passed =
    let (own, e, h1) =
      bind_inv (jwt_auth_guard gate authorization)
        (λ auth.
          org_throttler_guard gate correlation_id auth
          >> program_scope_guard (some id) auth db
          >> scope_guard (some required) auth
          >> ok auth)
        auth passed in
    let (u, h2, same) =
      bind_inv
        (org_throttler_guard gate correlation_id own
          >> program_scope_guard (some id) own db
          >> scope_guard (some required) own)
        (λ _. ok own) auth h1 in
    let (v, h3, scoped) =
      bind_inv (org_throttler_guard gate correlation_id own >> program_scope_guard (some id) own db)
        (λ _. scope_guard (some required) own) tt h2 in
    let (w, admitted, owned) =
      bind_inv (org_throttler_guard gate correlation_id own)
        (λ _. program_scope_guard (some id) own db) tt h3 in
    let caller = jwt_auth_guard-IsVerified gate authorization own e in
    let (program, listed, found, owns) =
      is_owner-program id own.org db (program_scope_guard_passed id own db h owned) in
    let granted : has own.scopes required ≡ true = not_thrown (has own.scopes required) _ scoped in
    let (scopes, given, in_scope) =
      scopes_of-mem (get (codes "scope") caller.claims) required (rw caller.scopes at granted) in
    record {
      token = caller.token;
      given = caller.given;
      claims = caller.claims;
      verified = caller.verified;
      expiry = caller.expiry;
      expires = caller.expires;
      organisation = own.org;
      named = caller.named;
      is_id = caller.is_id;
      scopes = scopes;
      granted = given;
      in_scope = in_scope;
      program = program;
      listed = listed;
      found = found;
      owns = owns;
    }
