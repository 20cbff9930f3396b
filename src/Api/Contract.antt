-- ===== src/Api/Contract.antt =====
-- src/capacity/api/error.filter.ts: what every answer holds.
use invoice_reservation.Prelude.{
  ◌≡◌, refl, sym, ap, ◌∙◌, Bool, true, false, Bool-cases, inl, inr, Option, none, some,
  if◌then◌else◌, is_some, ltb,
}
use invoice_reservation.Prelude.Text.{Text, codes, text_eq, text_eq_iff, text_eq_refl}
use invoice_reservation.Errors.{duplicate_invoice}
use invoice_reservation.Stream.Json.{
  Json, Members, end, member, null, boolean, number, string, array, object, get,
}
use invoice_reservation.Api.ErrorFilter.{
  HttpError, Exception, capacity_refusal, http, error, not_an_error, Response, put, body_with,
  coded, with_correlation, respond_plain, respond_http, respond, internal, is_unique_violation,
  to_validation_details, non_empty, code_by_status, plain_message, code_text, message_of,
  refusal_details,
}

-- A string member.
abbrev pub HasText : Text → Members → Type 0
HasText key ms = (t : Text) × (get key ms ≡ some (string t))

-- The contract of a body: its code is a string, and it has a correlation id.
abbrev pub IsContract : Members → Type 0
IsContract ms = HasText (codes "code") ms × (is_some (get (codes "correlationId") ms) ≡ true)

body_with-IsContract :
    (code message id : Text) (details : Option Members)
    → IsContract (body_with code message id details)
unfolding text_eq
body_with-IsContract code message id none = ((code, refl), refl)
body_with-IsContract code message id (some ds) = ((code, refl), refl)

get-put : (key : Text) (v : Json) (ms : Members) → get key (put key v ms) ≡ some v
unfolding put
get-put key v end = rw (text_eq_refl key) refl
get-put key v (member k w ms) = elim (Bool-cases (text_eq k key)) [
  | inl same ↦ rw (same, same) refl
  | inr other ↦ rw (other, other) (get-put key v ms)
]

get-put_other :
    (key key' : Text) (v : Json) (ms : Members)
    → text_eq key key' ≡ false
    → get key' (put key v ms) ≡ get key' ms
unfolding put
get-put_other key key' v end apart = rw apart refl
get-put_other key key' v (member k w ms) apart = elim (Bool-cases (text_eq k key)) [
  | inl same ↦
      let away : text_eq k key' ≡ false =
        ap (λ x. text_eq x key') ((text_eq_iff k key).0 same) ∙ apart in
      rw (same, away) refl
  | inr other ↦ rw (other, get-put_other key key' v ms apart) refl
]

code_apart : text_eq (codes "correlationId") (codes "code") ≡ false
unfolding text_eq
code_apart = refl

with_correlation-IsContract :
    (id : Text) (ms : Members) → HasText (codes "code") ms → IsContract (with_correlation id ms)
with_correlation-IsContract id ms (t, h) =
    elim (Bool-cases (is_some (get (codes "correlationId") ms))) [
      | inl there ↦ rw there ((t, h), there)
      | inr absent ↦ rw absent (
        (t, get-put_other (codes "correlationId") (codes "code") (string id) ms code_apart ∙ h),
        ap is_some (get-put (codes "correlationId") (string id) ms),
      )
    ]

-- What either branch of a test holds.
either :
    (b : Bool) (r s : Response)
    → IsContract r.body
    → IsContract s.body
    → IsContract (if b then r else s).body
either true r s h k = h
either false r s h k = k

internal-IsContract : (id : Text) → IsContract (internal id).body
internal-IsContract id =
    body_with-IsContract (codes "INTERNAL") (codes "An unexpected error occurred.") id none

respond_plain-IsContract : (id : Text) (e : HttpError) → IsContract (respond_plain id e).body
unfolding respond_plain
respond_plain-IsContract id e =
    either e.is_bad_request _ _
      (body_with-IsContract (codes "VALIDATION_FAILED") (codes "Request validation failed.") id
        (non_empty (to_validation_details e.payload)))
      (either (ltb e.status 500) _ _
        (body_with-IsContract (code_by_status e.status) (plain_message e) id none)
        (internal-IsContract id))

value_eq : {A : Type 0} → {x y : A} → some x ≡ some y → x ≡ y
value_eq h = cc

-- The members of a payload with a code.
coded-HasText :
    (payload : Json) (ms : Members) → coded payload ≡ some ms → HasText (codes "code") ms
coded-HasText null ms h = absurd cc
coded-HasText (boolean b) ms h = absurd cc
coded-HasText (number n) ms h = absurd cc
coded-HasText (string t) ms h = absurd cc
coded-HasText (array js) ms h = absurd cc
coded-HasText (object own) ms h = go (get (codes "code") own) refl h
  where
    go :
        (found : Option Json)
        → get (codes "code") own ≡ found
        → elim found [ some (string t) ↦ some own | _ ↦ none ] ≡ some ms
        → HasText (codes "code") ms
    go none e k = absurd cc
    go (some null) e k = absurd cc
    go (some (boolean b)) e k = absurd cc
    go (some (number n)) e k = absurd cc
    go (some (string t)) e k = (t, ap (get (codes "code")) (value_eq (sym k)) ∙ e)
    go (some (array js)) e k = absurd cc
    go (some (object o)) e k = absurd cc

respond_http-IsContract : (id : Text) (e : HttpError) → IsContract (respond_http id e).body
unfolding respond_http
respond_http-IsContract id e = go (coded e.payload) refl
  where
    go :
        (found : Option Members)
        → coded e.payload ≡ found
        → IsContract
            (elim found as (λ _. Response) [
              | some ms ↦ record { status = e.status; body = with_correlation id ms }
              | none ↦ respond_plain id e
            ]).body
    go none h = respond_plain-IsContract id e
    go (some ms) h = with_correlation-IsContract id ms (coded-HasText e.payload ms h)

-- For every exception and every correlation id: the answer's body has a member `code` that is
-- a string, and a member `correlationId`.
pub respond-IsContract : (id : Text) (x : Exception) → IsContract (respond id x).body
unfolding respond
respond-IsContract id (capacity_refusal r) =
    body_with-IsContract (code_text r.code) (message_of r.code) id (refusal_details r.details)
respond-IsContract id (http e) = respond_http-IsContract id e
respond-IsContract id (error name driver_code) =
    either (text_eq name (codes "ProgramNotFoundError")) _ _
      (body_with-IsContract (codes "NOT_FOUND") (codes "Program not found.") id none)
      (either (is_unique_violation name driver_code) _ _
        (body_with-IsContract (codes "DUPLICATE_INVOICE") (message_of duplicate_invoice) id none)
        (internal-IsContract id))
respond-IsContract id not_an_error = internal-IsContract id
