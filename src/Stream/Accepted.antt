-- ===== src/Stream/Accepted.antt =====
-- src/treasury/schemas: what an accepted message satisfies.
pub mod Snapshot
use mathlib.Core.Path.{subst}
use invoice_reservation.Prelude.{
  ◌≡◌, refl, ℕ, Bool, true, false, Option, none, some, List, [], ◌∷◌, length, ◌≤◌, ◌⊎◌, arith,
  if◌then◌else◌, leb, ◌&&◌,
}
use invoice_reservation.Prelude.Text.{Text, codes, text_eq}
use invoice_reservation.Prelude.Int.{ℤ, pos, negsuc, ◌≤ℤ◌, leb_ℤ}
use invoice_reservation.Prelude.Result.{Result, ok, err, ◌>>=◌, map_ok}
use invoice_reservation.Policy.Snapshot.{SnapshotMarker}
use invoice_reservation.Service.TreasuryEvent.{CapacityEvent}
use invoice_reservation.Service.Snapshot.{ReconciliationSnapshot, marker_constraints}
use invoice_reservation.Store.{in_int64}
use invoice_reservation.Stream.Json
use invoice_reservation.Stream.Json.{
  Json, Number, Items, Members, Raw, Decoders, Parsed, null, boolean, number, integer, fraction,
  string, array, object, get, decode, is_uuid, is_currency, is_signed_minor, message_id_of,
  program_id_of, currency_of, correlation_id_of, big_int, effective_at_of,
}
use invoice_reservation.Stream.EventSchema.{
  Payload, type_of, version_of, amount_of, parse_payload, parse_members, parse_event,
  parse_capacity_event,
}

-- A property of the value, if there is one.
pub data AllOk {A : Type 0} (P : A → Type 0) : Parsed A → Type 0 where
  accepted : {a : A} → P a → AllOk P (ok a)
  rejected : {detail : Text} → AllOk P (err detail)

module _ {A B : Type 0} {Q : B → Type 0} where
  -- What follows a value with `P`.
  pub then_ok :
      {P : A → Type 0} {r : Parsed A} (f : A → Parsed B)
      → AllOk P r
      → ((a : A) → P a → AllOk Q (f a))
      → AllOk Q (r >>= f)
  then_ok f (accepted {a} p) k = k a p
  then_ok f rejected k = rejected

  -- What follows a value of which nothing is used.
  pub after_ok : (r : Parsed A) (f : A → Parsed B) → ((a : A) → AllOk Q (f a)) → AllOk Q (r >>= f)
  after_ok (ok a) f k = k a
  after_ok (err e) f k = rejected

  pub map_ok_lem :
      {P : A → Type 0} {r : Parsed A} (f : A → B)
      → AllOk P r
      → ((a : A) → P a → Q (f a))
      → AllOk Q (map_ok r f)
  map_ok_lem f (accepted {a} p) k = accepted (k a p)
  map_ok_lem f rejected k = rejected

pub split_ok :
    {A : Type 0} {P : A → Type 0} (b : Bool) {x y : Parsed A}
    → (b ≡ true → AllOk P x)
    → AllOk P y
    → AllOk P (if b then x else y)
split_ok true h k = h refl
split_ok false h k = k

value_eq : {A : Type 0} {a b : A} → ◌≡◌ {A = Parsed A} (ok a) (ok b) → a ≡ b
value_eq h = cc

pub of_AllOk : {A : Type 0} {P : A → Type 0} {r : Parsed A} {a : A} → AllOk P r → r ≡ ok a → P a
of_AllOk {P} (accepted {a = b} p) e = subst P (value_eq e) p
of_AllOk rejected e = cc

abbrev pub HasLength : (lo hi : ℕ) → Text → Type 0
HasLength lo hi t = (lo ≤ length t) × (length t ≤ hi)

abbrev pub AtMost : ℕ → Option Text → Type 0
AtMost hi none = Unit
AtMost hi (some t) = length t ≤ hi

pub message_id_of-HasLength : (o : Option Json) → AllOk (HasLength 8 128) (message_id_of o)
unfolding message_id_of
message_id_of-HasLength (some (string t)) =
    split_ok (leb 8 (length t) && leb (length t) 128) (λ h. accepted (ground arith)) rejected
message_id_of-HasLength _ = rejected

pub program_id_of-valid : (o : Option Json) → AllOk (λ t. is_uuid t ≡ true) (program_id_of o)
unfolding program_id_of
program_id_of-valid (some (string t)) = split_ok (is_uuid t) (λ h. accepted h) rejected
program_id_of-valid _ = rejected

pub currency_of-valid :
    (detail : Text) (o : Option Json) → AllOk (λ t. is_currency t ≡ true) (currency_of detail o)
unfolding currency_of
currency_of-valid detail (some (string t)) = split_ok (is_currency t) (λ h. accepted h) rejected
currency_of-valid detail _ = rejected

pub correlation_id_of-AtMost : (o : Option Json) → AllOk (AtMost 128) (correlation_id_of o)
unfolding correlation_id_of
correlation_id_of-AtMost none = accepted tt
correlation_id_of-AtMost (some null) = accepted tt
correlation_id_of-AtMost (some (string t)) =
    split_ok (leb (length t) 128) (λ h. accepted (ground arith)) rejected
correlation_id_of-AtMost (some _) = rejected

version_of-pos : (o : Option Json) → AllOk (λ v. pos 0 ≤ℤ v) (version_of o)
unfolding version_of
version_of-pos (some (number (integer (pos n)))) = accepted (omega arith)
version_of-pos _ = rejected

amount_of-in_int64 : (o : Option Json) → AllOk (λ z. in_int64 z ≡ true) (amount_of o)
unfolding amount_of
amount_of-in_int64 (some (string t)) =
    split_ok (is_signed_minor t) (λ h. split_ok (in_int64 (big_int t)) (λ k. accepted k) rejected)
      rejected
amount_of-in_int64 _ = rejected

-- What the payload's checks give.
abbrev IsPayload : Payload → Type 0
IsPayload p = (in_int64 p.amount_minor ≡ true) × (is_currency p.currency ≡ true)

parse_payload-IsPayload : (o : Option Json) → AllOk IsPayload (parse_payload o)
unfolding parse_payload parse_members
parse_payload-IsPayload (some (object ms)) = after_ok _ _ λ _.
    then_ok _ (amount_of-in_int64 (get (codes "amountMinor") ms)) λ z fits.
      then_ok _ (currency_of-valid _ (get (codes "currency") ms))
        λ t valid. after_ok _ _ λ reference. accepted (fits, valid)
parse_payload-IsPayload _ = rejected

pub record IsEvent (e : CapacityEvent) : Type 0 where
  pub message_id : HasLength 8 128 e.message_id
  pub program_id : is_uuid e.program_id ≡ true
  pub version : pos 0 ≤ℤ e.version
  pub correlation_id : AtMost 128 e.correlation_id
  pub amount_minor : in_int64 e.amount_minor ≡ true
  pub currency : is_currency e.currency ≡ true

parse_event-IsEvent : (d : Decoders) (ms : Members) → AllOk IsEvent (parse_event d ms)
unfolding parse_event
parse_event-IsEvent d ms = after_ok _ _ λ _.
    then_ok _ (message_id_of-HasLength (get (codes "messageId") ms)) λ m hm.
      then_ok _ (program_id_of-valid (get (codes "programId") ms)) λ p hp.
        then_ok _ (version_of-pos (get (codes "version") ms)) λ v hv.
          after_ok (effective_at_of d (get (codes "effectiveAt") ms)) _ λ t.
            after_ok (type_of (get (codes "type") ms)) _ λ ty.
              then_ok _ (correlation_id_of-AtMost (get (codes "correlationId") ms)) λ c hc.
                then_ok _ (parse_payload-IsPayload (get (codes "payload") ms)) λ b hb.
                  accepted (record {
                    message_id = hm;
                    program_id = hp;
                    version = hv;
                    correlation_id = hc;
                    amount_minor = hb.0;
                    currency = hb.1;
                  })

-- An accepted capacity event has a message id of 8 to 128 code units, a UUID as program, a version
-- that is not negative, a correlation id of at most 128 code units if any, an amount in the signed
-- 64-bit range and a currency of three capital letters.
pub parse_capacity_event-IsEvent :
    (d : Decoders) (raw : Raw) {e : CapacityEvent} → parse_capacity_event d raw ≡ ok e → IsEvent e
unfolding parse_capacity_event
parse_capacity_event-IsEvent d raw =
    of_AllOk
      (after_ok (decode d (codes "event") raw) _ λ t. after_ok _ _ λ ms. parse_event-IsEvent d ms)
