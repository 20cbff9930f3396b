-- ===== src/Stream/Accepted/Snapshot.antt =====
-- src/treasury/schemas/reconciliation-snapshot.schema.ts: what an accepted snapshot satisfies.
use invoice_reservation.Prelude.{
  ◌≡◌, refl, ℕ, true, Option, none, some, List, [], ◌∷◌, length, ◌≤◌, arith, leb,
}
use invoice_reservation.Prelude.Text.{Text, codes, text_eq}
use invoice_reservation.Prelude.Int.{ℤ, pos, ◌≤ℤ◌, leb_ℤ}
use invoice_reservation.Prelude.Result.{ok}
use invoice_reservation.Policy.Snapshot.{SnapshotMarker}
use invoice_reservation.Service.Snapshot.{ReconciliationSnapshot, marker_constraints}
use invoice_reservation.Store.{in_int64}
use invoice_reservation.Stream.Json.{
  Json, Items, nil, item, Members, Raw, Decoders, null, number, integer, string, array, object, get,
  decode, is_uuid, is_currency, is_minor, big_int, bigint_max, effective_at_of,
}
use invoice_reservation.Stream.SnapshotSchema.{
  max_safe_integer, max_reservation_references, safe_version_of, minor_of, ingested_through_of,
  count, references_of, explicit_marker, reservation_ids_of, parse_explicit, parse_watermark,
  parse_marker, parse_acknowledgement, parse_snapshot, parse_reconciliation_snapshot,
}
use invoice_reservation.Stream.Accepted.{
  AllOk, accepted, rejected, then_ok, after_ok, map_ok_lem, split_ok, of_AllOk, HasLength, AtMost,
  message_id_of-HasLength, program_id_of-valid, currency_of-valid, correlation_id_of-AtMost,
}

abbrev pub AllAtMost : ℕ → List Text → Type 0
AllAtMost hi [] = Unit
AllAtMost hi (t ∷ ts) = (length t ≤ hi) × AllAtMost hi ts

abbrev pub IsReferences : Option (List Text) → Type 0
IsReferences none = Unit
IsReferences (some ts) = (length ts ≤ max_reservation_references) × AllAtMost 128 ts

-- What the code and the CHECK constraints of `snapshot_acknowledgement` ask of a marker.
abbrev pub IsMarker : Option SnapshotMarker → Type 0
IsMarker none = Unit
IsMarker (some m) = IsReferences m.reservation_references × (marker_constraints m.kind m ≡ true)

safe_version_of-bounded :
    (o : Option Json) → AllOk (λ v. (pos 0 ≤ℤ v) × (v ≤ℤ pos max_safe_integer)) (safe_version_of o)
unfolding safe_version_of
safe_version_of-bounded (some (number (integer (pos n)))) =
    split_ok (leb n max_safe_integer) (λ h. accepted (ground arith)) rejected
safe_version_of-bounded _ = rejected

minor_in_range :
    (t : Text)
    → is_minor t ≡ true
    → leb_ℤ (big_int t) bigint_max ≡ true
    → (pos 0 ≤ℤ big_int t) × (in_int64 (big_int t) ≡ true)
minor_in_range [] h k = ground arith
minor_in_range (c ∷ t) h k = ground arith

abbrev IsMinor : ℤ → Type 0
IsMinor z = (pos 0 ≤ℤ z) × (in_int64 z ≡ true)

minor_of-IsMinor : (key : Text) (o : Option Json) → AllOk IsMinor (minor_of key o)
unfolding minor_of
minor_of-IsMinor key (some (string t)) =
    split_ok (is_minor t)
      (λ h. split_ok (leb_ℤ (big_int t) bigint_max) (λ k. accepted (minor_in_range t h k)) rejected)
      rejected
minor_of-IsMinor key _ = rejected

references_of-IsReferences :
    (js : Items) → AllOk (λ ts. (length ts ≡ count js) × AllAtMost 128 ts) (references_of js)
unfolding references_of
references_of-IsReferences nil = accepted (refl, tt)
references_of-IsReferences (item (string t) js) =
    split_ok (leb (length t) 128)
      (λ h.
        map_ok_lem (λ ts. t ∷ ts) (references_of-IsReferences js)
          (λ ts k. (omega (arith, k.0), (ground arith, k.1))))
      rejected
references_of-IsReferences (item _ js) = rejected

abbrev Marked : SnapshotMarker → Type 0
Marked m = IsMarker (some m)

reservation_ids_of-Marked : (o : Option Json) → AllOk Marked (reservation_ids_of o)
unfolding reservation_ids_of marker_constraints
reservation_ids_of-Marked (some (array js)) =
    split_ok (leb (count js) max_reservation_references)
      (λ h.
        map_ok_lem explicit_marker (references_of-IsReferences js)
          (λ ts k. ((ground arith, k.1), refl)))
      rejected
reservation_ids_of-Marked _ = rejected

parse_watermark-Marked : (d : Decoders) (ms : Members) → AllOk Marked (parse_watermark d ms)
unfolding parse_watermark marker_constraints
parse_watermark-Marked d ms = after_ok _ _ λ _.
    after_ok (ingested_through_of d (get (codes "ingestedThrough") ms)) _ λ at. accepted (tt, refl)

parse_marker-Marked :
    (d : Decoders) (ms : Members) (o : Option Json) → AllOk Marked (parse_marker d ms o)
unfolding parse_marker parse_explicit
parse_marker-Marked d ms (some (string kind)) =
    split_ok (text_eq kind (codes "EXPLICIT"))
      (λ _. after_ok _ _ λ _. reservation_ids_of-Marked (get (codes "reservationIds") ms))
      (split_ok (text_eq kind (codes "WATERMARK")) (λ _. parse_watermark-Marked d ms) rejected)
parse_marker-Marked d ms _ = rejected

parse_acknowledgement-IsMarker :
    (d : Decoders) (o : Option Json) → AllOk IsMarker (parse_acknowledgement d o)
unfolding parse_acknowledgement
parse_acknowledgement-IsMarker d none = accepted tt
parse_acknowledgement-IsMarker d (some null) = accepted tt
parse_acknowledgement-IsMarker d (some (object ms)) =
    map_ok_lem some (parse_marker-Marked d ms (get (codes "kind") ms)) (λ m k. k)
parse_acknowledgement-IsMarker d (some _) = rejected

pub record IsSnapshot (s : ReconciliationSnapshot) : Type 0 where
  pub message_id : HasLength 8 128 s.message_id
  pub program_id : is_uuid s.program_id ≡ true
  pub version : (pos 0 ≤ℤ s.version) × (s.version ≤ℤ pos max_safe_integer)
  pub currency : is_currency s.currency ≡ true
  pub credit_limit : IsMinor s.credit_limit_minor
  pub reserved : IsMinor s.reserved_minor
  pub correlation_id : AtMost 128 s.correlation_id
  pub acknowledgement : IsMarker s.acknowledgement

parse_snapshot-IsSnapshot : (d : Decoders) (ms : Members) → AllOk IsSnapshot (parse_snapshot d ms)
unfolding parse_snapshot
parse_snapshot-IsSnapshot d ms = after_ok _ _ λ _.
    then_ok _ (message_id_of-HasLength (get (codes "messageId") ms)) λ m hm.
      then_ok _ (program_id_of-valid (get (codes "programId") ms)) λ p hp.
        then_ok _ (safe_version_of-bounded (get (codes "version") ms)) λ v hv.
          after_ok (effective_at_of d (get (codes "effectiveAt") ms)) _ λ t.
            then_ok _ (currency_of-valid _ (get (codes "currency") ms)) λ u hu.
              then_ok _ (minor_of-IsMinor _ (get (codes "creditLimitMinor") ms)) λ l hl.
                then_ok _ (minor_of-IsMinor _ (get (codes "reservedMinor") ms)) λ r hr.
                  then_ok _ (correlation_id_of-AtMost (get (codes "correlationId") ms)) λ c hc.
                    then_ok _ (parse_acknowledgement-IsMarker d (get (codes "acknowledgement") ms))
                      λ a ha. accepted (record {
                        message_id = hm;
                        program_id = hp;
                        version = hv;
                        currency = hu;
                        credit_limit = hl;
                        reserved = hr;
                        correlation_id = hc;
                        acknowledgement = ha;
                      })

-- An accepted snapshot has a message id of 8 to 128 code units, a UUID as program, a version from 0
-- to 2^53 - 1, a currency of three capital letters, a credit limit and a total from 0 to 2^63 - 1
-- and a correlation id of at most 128 code units if any. Its marker, if any, names at most 10000
-- references of at most 128 code units each and meets the CHECK constraints of its table.
pub parse_reconciliation_snapshot-IsSnapshot :
    (d : Decoders) (raw : Raw) {s : ReconciliationSnapshot}
    → parse_reconciliation_snapshot d raw ≡ ok s
    → IsSnapshot s
unfolding parse_reconciliation_snapshot
parse_reconciliation_snapshot-IsSnapshot d raw = of_AllOk (
    after_ok (decode d (codes "snapshot") raw) _
      λ t. after_ok _ _ λ ms. parse_snapshot-IsSnapshot d ms)
