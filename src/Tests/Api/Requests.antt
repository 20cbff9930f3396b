-- ===== src/Tests/Api/Requests.antt =====
-- Concrete requests to src/capacity/api, through the guards of src/auth.
use mathlib.Core.Path.{subst}
use invoice_reservation.Prelude.{
  ◌≡◌, ◌⊎◌, refl, ap, true, false, Option, none, some, [], ◌∷◌, filter, find, if◌then◌else◌,
}
use invoice_reservation.Prelude.Text.{Text, codes, text_eq}
use invoice_reservation.Prelude.Int.{ℤ, pos, ◌<ℤ◌}
use invoice_reservation.Prelude.Result.{Result, ok, err}
use invoice_reservation.Money.{has, number_from}
use invoice_reservation.Store.{Database, find_program, in_int64}
use invoice_reservation.Store.Tables.{Body}
use invoice_reservation.Stream.Json.{Json, integer, object, member, end, number, string}
use invoice_reservation.Api.ErrorFilter.{Exception}
use invoice_reservation.Api.Guards.{
  AuthContext, jwt_auth_guard, org_throttler_guard, program_scope_guard, scope_guard, guard_chain,
  organisation_of,
}
use invoice_reservation.Api.Controller.{
  minor_of_text, Server, Call, create_reservation, Answer, replied, outcome_reply, run_call, handle,
}
use invoice_reservation.Api.Access.{IsForeign, is_failed, handle-hides, handle-IsAuthorised}
use invoice_reservation.Api.Caller.{IsAuthorised}
use invoice_reservation.Api.Replays.{handle-again}
use invoice_reservation.Api.Dto.{minor_of_text-in_int64}
use invoice_reservation.Tests.{environment, program, position, database, first, service_ops}
use invoice_reservation.Tests.AuditRead.{codec}

abbrev id : Text
id = codes "11111111-1111-4111-8111-111111111111"

abbrev org : Text
org = codes "22222222-2222-4222-8222-222222222222"

abbrev claims : Json
claims = object (
    member (codes "org") (string org) (
      member (codes "exp") (number (integer (pos 9)))
        (member (codes "scope") (string (codes "capacity:read capacity:write")) end)))

abbrev verify : Text → Option Json
verify t = if text_eq t (codes "tok") then some claims else none

abbrev server : Server
server = record {
  gate = record { verify = verify; admits = λ tracker. true };
  environment = environment;
  codec = codec;
  pipes = λ p call. none;
}

abbrev owned_by : Text → Database
owned_by owner = record database {
  programs =
      (record program { position = record position { id = id }; organisation_id = owner }) ∷ [];
}

abbrev call : Call
call =
    create_reservation (some (codes "key-0001")) (codes "i")
      (record { amount_minor = codes "20"; currency = codes "EUR" })

abbrev bearer_token : Option Text
bearer_token = some (codes "Bearer tok")

jwt_lem :
    jwt_auth_guard server.gate bearer_token
    ≡ ok (record { org = org; scopes = codes "capacity:read" ∷ codes "capacity:write" ∷ [] })
unfolding jwt_auth_guard text_eq filter
jwt_lem = refl

abbrev org_in : Result AuthContext Exception → Text
org_in (ok auth) = auth.org
org_in (err x) = []

owned_by_other : IsForeign server.gate bearer_token id (owned_by (codes "other"))
unfolding jwt_auth_guard text_eq filter organisation_of find_program find
owned_by_other auth h = subst (λ o. text_eq (codes "other") o ≡ false) (ap org_in h) refl

nowhere : IsForeign server.gate bearer_token id database
unfolding organisation_of find_program find text_eq
nowhere auth h = refl

-- A program of another organisation, and one that does not exist.
handle-hides_example :
    ((handle server (codes "c") id bearer_token call (owned_by (codes "other"))).0
      ≡ (handle server (codes "c") id bearer_token call database).0)
    × ((handle server (codes "c") id bearer_token call (owned_by (codes "other"))).1
        ≡ owned_by (codes "other"))
    × ((handle server (codes "c") id bearer_token call database).1 ≡ database)
handle-hides_example =
    handle-hides server (codes "c") id bearer_token call (owned_by (codes "other")) database refl
      owned_by_other nowhere

handle-IsAuthorised_example :
    ((is_failed (handle server (codes "c") id bearer_token call (owned_by org)).0 ≡ true)
      × ((handle server (codes "c") id bearer_token call (owned_by org)).1 ≡ owned_by org))
    ⊎ IsAuthorised server.gate id bearer_token (codes "capacity:write") (owned_by org)
handle-IsAuthorised_example =
    handle-IsAuthorised server (codes "c") id bearer_token call (owned_by org) refl

abbrev body_in : Answer → Body
body_in (replied status (outcome_reply body)) = body
body_in _ = first.body

abbrev carried_out : Answer × Database
carried_out = handle server (codes "c") id bearer_token call (owned_by org)

handle-carries_out :
    handle server (codes "c") id bearer_token call (owned_by org)
    ≡ (replied 201 (outcome_reply (body_in carried_out.0)), carried_out.1)
unfolding service_ops jwt_auth_guard org_throttler_guard organisation_of program_scope_guard
    scope_guard guard_chain has number_from run_call handle filter
handle-carries_out = refl

handle-again_example :
    handle server (codes "c") id bearer_token call carried_out.1
    ≡ (replied 200 (outcome_reply (body_in carried_out.0)), carried_out.1)
unfolding service_ops jwt_auth_guard org_throttler_guard organisation_of program_scope_guard
    scope_guard guard_chain has number_from run_call handle filter
handle-again_example =
    handle-again server server (codes "c") id bearer_token call 201 (body_in carried_out.0)
      (owned_by org) carried_out.1 refl refl refl handle-carries_out

minor_of_text-in_int64_example :
    (n : ℤ) × (minor_of_text (codes "20") ≡ ok n) × (pos 0 <ℤ n) × (in_int64 n ≡ true)
unfolding number_from
minor_of_text-in_int64_example = minor_of_text-in_int64 (codes "20") refl refl
