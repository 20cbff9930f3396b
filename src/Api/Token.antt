-- ===== src/Api/Token.antt =====
-- src/auth/jwt-auth.guard.ts and the texts that the guards read: what a token says that they accept.
use invoice_reservation.Prelude.{
  ◌≡◌, refl, sym, ap, ◌∙◌, Bool, true, false, not, Bool-cases, inl, inr, Option, none, some, List,
  [], ◌∷◌, ◌++◌, take, drop, take-append-drop, filter-mem, Memᴰ,
}
use invoice_reservation.Prelude.Text.{Text, codes, text_eq, text_eq_iff}
use invoice_reservation.Prelude.Result.{Result, ok, err, ◌>>=◌, ◌>>◌, bind_inv, throw_if}
use invoice_reservation.Money.{has}
use invoice_reservation.Stream.Json.{
  Json, Number, Members, end, number, string, array, object, get, is_uuid,
}
use invoice_reservation.Api.ErrorFilter.{Exception}
use invoice_reservation.Api.Guards.{
  AuthContext, Gate, is_nonempty, bearer, trim_start, trim_end, split_spaces, scopes_of, claims_of,
  is_number, org_of, or_unauthenticated, unauthenticated, jwt_auth_guard,
}

or_unauthenticated-ok :
    {A : Type 0} (o : Option A) (a : A) → or_unauthenticated o ≡ ok a → o ≡ some a
or_unauthenticated-ok none a h = absurd cc
or_unauthenticated-ok (some b) a h = cc

bearer-some : (t rest : Text) → bearer t ≡ some rest → t ≡ codes "Bearer " ++ rest
bearer-some t rest h = elim (Bool-cases (text_eq (take 7 t) (codes "Bearer "))) [
  | inl starts ↦
      let same : some (drop 7 t) ≡ some rest = rw starts at h in
      let left : drop 7 t ≡ rest = cc in
      sym (take-append-drop 7 t)
      ∙ ap (λ s. s ++ drop 7 t) ((text_eq_iff (take 7 t) (codes "Bearer ")).0 starts)
      ∙ ap (λ s. codes "Bearer " ++ s) left
  | inr other ↦ let never : none ≡ some rest = rw other at h in absurd cc
]

claims_of-object :
    (payload : Json) (claims : Members) (n : Number)
    → claims_of payload ≡ some claims
    → get (codes "exp") claims ≡ some (number n)
    → payload ≡ object claims
claims_of-object (object ms) claims n h k = let same : ms ≡ claims = cc in ap object same
claims_of-object (array js) claims n h k =
    let same : end ≡ claims = cc in
    let gone : none ≡ some (number n) = rw (← same) at k in absurd cc
claims_of-object Json.null claims n h k = absurd cc
claims_of-object (Json.boolean b) claims n h k = absurd cc
claims_of-object (number x) claims n h k = absurd cc
claims_of-object (string t) claims n h k = absurd cc

is_number-number : (o : Option Json) → is_number o ≡ true → (n : Number) × (o ≡ some (number n))
is_number-number (some (number n)) h = (n, refl)
is_number-number none h = absurd cc
is_number-number (some Json.null) h = absurd cc
is_number-number (some (Json.boolean b)) h = absurd cc
is_number-number (some (string t)) h = absurd cc
is_number-number (some (array js)) h = absurd cc
is_number-number (some (object ms)) h = absurd cc

org_of-ok :
    (o : Option Json) (org : Text)
    → org_of o ≡ ok org
    → (o ≡ some (string org)) × (is_uuid org ≡ true)
org_of-ok none org h = absurd cc
org_of-ok (some Json.null) org h = absurd cc
org_of-ok (some (Json.boolean b)) org h = absurd cc
org_of-ok (some (number n)) org h = absurd cc
org_of-ok (some (array js)) org h = absurd cc
org_of-ok (some (object ms)) org h = absurd cc
org_of-ok (some (string t)) org h = elim (Bool-cases (is_uuid t)) [
  | inl uuid ↦
      let same : ◌≡◌ {A = Result Text Exception} (ok t) (ok org) = rw uuid at h in
      let equal : t ≡ org = cc in (ap (λ s. some (string s)) equal, rw (← equal) uuid)
  | inr other ↦
      let never : ◌≡◌ {A = Result Text Exception} (err unauthenticated) (ok org) = rw other at h in
      absurd cc
]

has-mem : (cs : List Text) (c : Text) → has cs c ≡ true → Memᴰ c cs
unfolding has
has-mem [] c h = absurd cc
has-mem (d ∷ cs) c h = elim (Bool-cases (text_eq d c)) [
  | inl same ↦ Memᴰ.head (sym ((text_eq_iff d c).0 same))
  | inr other ↦ Memᴰ.tail (has-mem cs c (rw other at h))
]

pub scopes_of-mem :
    (o : Option Json) (c : Text)
    → has (scopes_of o) c ≡ true
    → (t : Text) × (o ≡ some (string t)) × Memᴰ c (split_spaces t)
unfolding has
scopes_of-mem none c h = absurd cc
scopes_of-mem (some Json.null) c h = absurd cc
scopes_of-mem (some (Json.boolean b)) c h = absurd cc
scopes_of-mem (some (number n)) c h = absurd cc
scopes_of-mem (some (array js)) c h = absurd cc
scopes_of-mem (some (object ms)) c h = absurd cc
scopes_of-mem (some (string t)) c h =
    (t, refl, filter-mem is_nonempty (split_spaces t) c (has-mem _ c h))

pub not_thrown : (b : Bool) (x : Exception) → throw_if (not b) x ≡ ok tt → b ≡ true
not_thrown true x h = refl
not_thrown false x h = absurd cc

-- What the verified token of a header says.
pub record IsVerified (gate : Gate) (authorization : Option Text) (auth : AuthContext)
    : Type 0 where
  pub token : Text
  pub given : authorization ≡ some (codes "Bearer " ++ token)
  pub claims : Members
  pub verified : gate.verify (trim_end (trim_start token)) ≡ some (object claims)
  pub expiry : Number
  pub expires : get (codes "exp") claims ≡ some (number expiry)
  pub named : get (codes "org") claims ≡ some (string auth.org)
  pub is_id : is_uuid auth.org ≡ true
  pub scopes : auth.scopes ≡ scopes_of (get (codes "scope") claims)

-- The steps of the guard, one after another.
abbrev of_org : Members → Text → Result AuthContext Exception
of_org claims org = ok (record { org = org; scopes = scopes_of (get (codes "scope") claims) })

abbrev checked_org : Members → Result Text Exception
checked_org claims =
    throw_if (not (is_number (get (codes "exp") claims))) unauthenticated
    >> org_of (get (codes "org") claims)

abbrev of_claims : Members → Result AuthContext Exception
of_claims claims = checked_org claims >>= of_org claims

abbrev of_payload : Json → Result AuthContext Exception
of_payload payload = or_unauthenticated (claims_of payload) >>= of_claims

abbrev verified_payload : Gate → Text → Result Json Exception
verified_payload gate rest =
    throw_if (not (is_nonempty (trim_end (trim_start rest)))) unauthenticated
    >> or_unauthenticated (gate.verify (trim_end (trim_start rest)))

abbrev of_bearer : Gate → Text → Result AuthContext Exception
of_bearer gate rest = verified_payload gate rest >>= of_payload

pub jwt_auth_guard-IsVerified :
    (gate : Gate) (authorization : Option Text) (auth : AuthContext)
    → jwt_auth_guard gate authorization ≡ ok auth
    → IsVerified gate authorization auth
unfolding jwt_auth_guard
jwt_auth_guard-IsVerified gate authorization auth h =
    let (header, e1, h1) =
      bind_inv (or_unauthenticated authorization)
        (λ header. or_unauthenticated (bearer header) >>= of_bearer gate) auth h in
    let (rest, e2, h2) = bind_inv (or_unauthenticated (bearer header)) (of_bearer gate) auth h1 in
    let (payload, e3, h3) = bind_inv (verified_payload gate rest) of_payload auth h2 in
    let (u, nonempty, e4) =
      bind_inv (throw_if (not (is_nonempty (trim_end (trim_start rest)))) unauthenticated)
        (λ _. or_unauthenticated (gate.verify (trim_end (trim_start rest)))) payload e3 in
    let (claims, e5, h5) = bind_inv (or_unauthenticated (claims_of payload)) of_claims auth h3 in
    let (org, e6, h6) = bind_inv (checked_org claims) (of_org claims) auth h5 in
    let (v, timed, e7) =
      bind_inv (throw_if (not (is_number (get (codes "exp") claims))) unauthenticated)
        (λ _. org_of (get (codes "org") claims)) org e6 in
    let (expiry, expires) =
      is_number-number (get (codes "exp") claims)
        (not_thrown (is_number (get (codes "exp") claims)) unauthenticated timed) in
    let (named, uuid) = org_of-ok (get (codes "org") claims) org e7 in
    rw (← same_auth h6) (record {
      token = rest;
      given =
          or_unauthenticated-ok authorization header e1
          ∙ ap some (bearer-some header rest (or_unauthenticated-ok (bearer header) rest e2));
      claims = claims;
      verified =
          or_unauthenticated-ok (gate.verify (trim_end (trim_start rest))) payload e4
          ∙ ap some (
              claims_of-object payload claims expiry
                (or_unauthenticated-ok (claims_of payload) claims e5) expires);
      expiry = expiry;
      expires = expires;
      named = named;
      is_id = uuid;
      scopes = refl;
    })
  where
    same_auth : {a b : AuthContext} → ◌≡◌ {A = Result AuthContext Exception} (ok a) (ok b) → a ≡ b
    same_auth h = cc
