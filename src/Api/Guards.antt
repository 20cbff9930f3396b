-- ===== src/Api/Guards.antt =====
-- The guards of src/auth, in the order of auth.module.ts: jwt-auth.guard.ts, org-throttler.guard.ts,
-- program-scope.guard.ts and scope.guard.ts. A Set is the list of its values.
use invoice_reservation.Prelude.{
  ℕ, ◌+◌, Bool, true, false, not, ◌&&◌, ◌||◌, Option, none, some, List, [], ◌∷◌, map, if◌then◌else◌,
  ◌==◌, leb, take, drop, filter,
}
use invoice_reservation.Prelude.Text.{Text, codes, text_eq}
use invoice_reservation.Prelude.Result.{Result, ok, err, ◌>>=◌, ◌>>◌, throw_if}
use invoice_reservation.Money.{has}
use invoice_reservation.Store.{Database, find_program}
use invoice_reservation.Stream.Json.{
  Json, Members, end, member, number, string, array, object, get, is_uuid,
}
use invoice_reservation.Api.ErrorFilter.{Exception, http}

pub record AuthContext : Type 0 where
  pub org : Text
  pub scopes : List Text

-- What the guards read of a request: the header `authorization` where it is a text, the route's
-- parameter `programId`.
pub record GuardedRequest : Type 0 where
  pub authorization : Option Text
  pub program_id : Option Text

-- What the guards take from outside: `verifyAsync` with the options of the guard, which may throw,
-- and whether the throttler's storage admits one more call of this tracker.
pub record Gate : Type 0 where
  pub verify : Text → Option Json
  pub admits : Text → Bool

-- An exception of the framework with a code and a message, of an HTTP status.
abbrev pub coded_error : ℕ → Text → Text → Exception
coded_error status code message = http (record {
  status = status;
  payload =
      object (member (codes "code") (string code) (member (codes "message") (string message) end));
  message = message;
  is_bad_request = status == 400;
})

abbrev pub unauthenticated : Exception
unauthenticated = coded_error 401 (codes "UNAUTHENTICATED") (codes "Authentication is required.")

-- `authorization.slice('Bearer '.length)`, of a text that starts so.
abbrev pub bearer : Text → Option Text
bearer t = if text_eq (take 7 t) (codes "Bearer ") then some (drop 7 t) else none

-- The code units that `trim` removes.
abbrev pub is_space : ℕ → Bool
is_space c =
    leb 9 c && leb c 13
    || c == 32
    || c == 160
    || c == 5760
    || leb 8192 c && leb c 8202
    || c == 8232
    || c == 8233
    || c == 8239
    || c == 8287
    || c == 12288
    || c == 65279

abbrev pub trim_start : Text → Text
trim_start [] = []
trim_start (c ∷ t) = let rest = trim_start t in if is_space c then rest else c ∷ t

abbrev pub trim_end : Text → Text
trim_end [] = []
trim_end (c ∷ t) = elim (trim_end t) [ [] ↦ if is_space c then [] else c ∷ [] | d ∷ u ↦ c ∷ d ∷ u ]

abbrev add_to_first : ℕ → List Text → List Text
add_to_first c [] = (c ∷ []) ∷ []
add_to_first c (w ∷ ws) = (c ∷ w) ∷ ws

-- `split(' ')`
abbrev pub split_spaces : Text → List Text
split_spaces [] = [] ∷ []
split_spaces (c ∷ t) =
    let rest = split_spaces t in if c == b' ' then [] ∷ rest else add_to_first c rest

abbrev pub is_nonempty : Text → Bool
is_nonempty [] = false
is_nonempty (c ∷ t) = true

abbrev pub scopes_of : Option Json → List Text
scopes_of (some (string t)) = filter is_nonempty (split_spaces t)
scopes_of _ = []

-- The properties of a payload that is an object; an array has none of them.
abbrev pub claims_of : Json → Option Members
claims_of (object ms) = some ms
claims_of (array js) = some end
claims_of _ = none

abbrev pub is_number : Option Json → Bool
is_number (some (number n)) = true
is_number _ = false

abbrev pub org_of : Option Json → Result Text Exception
org_of (some (string t)) = if is_uuid t then ok t else err unauthenticated
org_of _ = err unauthenticated

abbrev pub or_unauthenticated : {A : Type 0} → Option A → Result A Exception
or_unauthenticated none = err unauthenticated
or_unauthenticated (some a) = ok a

-- `JwtAuthGuard.canActivate` on a route that is not public.
unfoldable pub jwt_auth_guard : Gate → Option Text → Result AuthContext Exception
jwt_auth_guard gate authorization = or_unauthenticated authorization >>= λ header.
    or_unauthenticated (bearer header) >>= λ rest.
    let token = trim_end (trim_start rest) in
    throw_if (not (is_nonempty token)) unauthenticated
    >> or_unauthenticated (gate.verify token)
    >>= λ payload. or_unauthenticated (claims_of payload) >>= λ claims.
        throw_if (not (is_number (get (codes "exp") claims))) unauthenticated
        >> org_of (get (codes "org") claims)
        >>= λ org. ok (record { org = org; scopes = scopes_of (get (codes "scope") claims) })

abbrev pub rate_limited : Text → Exception
rate_limited correlation_id = http (record {
  status = 429;
  payload = object (
      member (codes "code") (string (codes "RATE_LIMITED")) (
        member (codes "message") (string (codes "Request budget exceeded for this organisation."))
          (member (codes "correlationId") (string correlation_id) end)));
  message = codes "Request budget exceeded for this organisation.";
  is_bad_request = false;
})

-- `OrgThrottlerGuard`: `getTracker`, after the guard before it, and `throwThrottlingException`.
unfoldable pub org_throttler_guard : Gate → Text → AuthContext → Result (Unit {0}) Exception
org_throttler_guard gate correlation_id auth =
    throw_if (not (gate.admits auth.org)) (rate_limited correlation_id)

abbrev pub program_not_found_error : Exception
program_not_found_error = coded_error 404 (codes "NOT_FOUND") (codes "Program not found.")

abbrev lower_code : ℕ → ℕ
lower_code c = if leb b'A' c && leb c b'Z' then c + 32 else c

-- The text of the uuid that the database reads in a text of one.
abbrev pub canonical : Text → Text
canonical t = map lower_code t

-- `rows[0]?.organisation_id`
unfoldable pub organisation_of : Text → Database → Option Text
organisation_of id db = elim (find_program (canonical id) db) [
  | none ↦ none
  | some p ↦ some p.organisation_id
]

abbrev pub is_owner : Option Text → Text → Bool
is_owner none org = false
is_owner (some owner) org = text_eq owner org

-- `ProgramScopeGuard.canActivate`
unfoldable pub program_scope_guard :
    Option Text → AuthContext → Database → Result (Unit {0}) Exception
program_scope_guard none auth db = ok tt
program_scope_guard (some []) auth db = ok tt
program_scope_guard (some (c ∷ t)) auth db =
    throw_if (not (is_uuid (c ∷ t))) program_not_found_error
    >> throw_if (not (is_owner (organisation_of (c ∷ t) db) auth.org)) program_not_found_error

-- `ScopeGuard.canActivate`
unfoldable pub scope_guard : Option Text → AuthContext → Result (Unit {0}) Exception
scope_guard none auth = ok tt
scope_guard (some required) auth =
    throw_if (not (has auth.scopes required))
      (coded_error 403 (codes "INSUFFICIENT_SCOPE") (codes "The token lacks a required scope."))

-- The global guards, one after another.
unfoldable pub guard_chain :
    Gate → Text → Option Text → GuardedRequest → Database → Result AuthContext Exception
guard_chain gate correlation_id required request db =
    jwt_auth_guard gate request.authorization >>= λ auth.
    org_throttler_guard gate correlation_id auth
    >> program_scope_guard request.program_id auth db
    >> scope_guard required auth
    >> ok auth
