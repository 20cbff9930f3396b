-- ===== src/StreamLag/Probe.antt =====
-- src/treasury/consumer/stream-lag.probe.ts: what a message of the stream tells the registry.
use invoice_reservation.Prelude.{◌≡◌, refl, sym, ap, ◌∙◌, ℕ, Option, none, some, List, [], ◌∷◌, map}
use invoice_reservation.Prelude.Text.{Text, codes}
use invoice_reservation.Prelude.Int.{ℤ}
use invoice_reservation.Stream.Json.{
  Json, Members, end, null, boolean, number, string, array, object, get, Decoders,
}
use invoice_reservation.StreamLag.{Registry, observe, newest_observed_for, observe_all}
use invoice_reservation.StreamLag.Newest.{newest_of, newest_observed_for-observe_all}

-- The properties of what was parsed: of null they throw, and what is not an object has none.
abbrev pub fields_of : Json → Option Members
fields_of null = none
fields_of (object ms) = some ms
fields_of _ = some end

abbrev pub observe_at : Decoders → Text → Option Json → Registry → Registry
observe_at d id (some (string t)) r = elim (d.parse_date t) [
  | none ↦ r
  | some ms ↦ observe id (some ms) r
]
observe_at d id _ r = r

-- From `programId` and `effectiveAt`.
abbrev pub observe_named : Decoders → Option Json → Option Json → Registry → Registry
observe_named d (some (string (c ∷ t))) at r = observe_at d (c ∷ t) at r
observe_named d _ at r = r

abbrev pub observe_fields : Decoders → Members → Registry → Registry
observe_fields d ms r =
    observe_named d (get (codes "programId") ms) (get (codes "effectiveAt") ms) r

abbrev pub observe_json : Decoders → Option Json → Registry → Registry
observe_json d none r = r
observe_json d (some j) r = elim (fields_of j) [ none ↦ r | some ms ↦ observe_fields d ms r ]

-- `handleEachMessage`; what throws is caught.
unfoldable pub handle_each : Decoders → Option (List ℕ) → Registry → Registry
handle_each d none r = r
handle_each d (some bytes) r = observe_json d (d.parse_json (d.utf8 bytes)) r

unfoldable pub handle_all : Decoders → List (Option (List ℕ)) → Registry → Registry
unfolding handle_each
handle_all d [] r = r
handle_all d (m ∷ ms) r = handle_all d ms (handle_each d m r)

-- The program and the time that a message carries, none of use where it carries none.
abbrev pub time_in : Decoders → Option Json → Option ℤ
time_in d (some (string t)) = d.parse_date t
time_in d _ = none

abbrev pub head_named : Decoders → Option Json → Option Json → Text × Option ℤ
head_named d (some (string id)) at = (id, time_in d at)
head_named d _ at = ([], none)

abbrev pub head_of_fields : Decoders → Members → Text × Option ℤ
head_of_fields d ms = head_named d (get (codes "programId") ms) (get (codes "effectiveAt") ms)

abbrev pub head_of_json : Decoders → Option Json → Text × Option ℤ
head_of_json d (some (object ms)) = head_of_fields d ms
head_of_json d _ = ([], none)

abbrev pub head_of : Decoders → Option (List ℕ) → Text × Option ℤ
head_of d none = ([], none)
head_of d (some bytes) = head_of_json d (d.parse_json (d.utf8 bytes))

observe_nothing : (t : Option ℤ) (r : Registry) → observe [] t r ≡ r
unfolding observe
observe_nothing t r = refl

observe-none : (id : Text) (r : Registry) → observe id none r ≡ r
unfolding observe
observe-none [] r = refl
observe-none (c ∷ t) r = refl

observe_at-observe :
    (d : Decoders) (id : Text) (v : Option Json) (r : Registry)
    → observe_at d id v r ≡ observe id (time_in d v) r
observe_at-observe d id (some (string t)) r = go (d.parse_date t)
  where
    go :
        (o : Option ℤ)
        → elim o as (λ _. Registry) [ none ↦ r | some ms ↦ observe id (some ms) r ] ≡ observe id o r
    go none = sym (observe-none id r)
    go (some ms) = refl
observe_at-observe d id none r = sym (observe-none id r)
observe_at-observe d id (some null) r = sym (observe-none id r)
observe_at-observe d id (some (boolean b)) r = sym (observe-none id r)
observe_at-observe d id (some (number n)) r = sym (observe-none id r)
observe_at-observe d id (some (array js)) r = sym (observe-none id r)
observe_at-observe d id (some (object ms)) r = sym (observe-none id r)

abbrev observe_head : Text × Option ℤ → Registry → Registry
observe_head (id, t) r = observe id t r

observe_named-observe :
    (d : Decoders) (id at : Option Json) (r : Registry)
    → observe_named d id at r ≡ observe_head (head_named d id at) r
observe_named-observe d (some (string [])) at r = sym (observe_nothing (time_in d at) r)
observe_named-observe d (some (string (c ∷ t))) at r = observe_at-observe d (c ∷ t) at r
observe_named-observe d none at r = sym (observe_nothing none r)
observe_named-observe d (some null) at r = sym (observe_nothing none r)
observe_named-observe d (some (boolean b)) at r = sym (observe_nothing none r)
observe_named-observe d (some (number n)) at r = sym (observe_nothing none r)
observe_named-observe d (some (array js)) at r = sym (observe_nothing none r)
observe_named-observe d (some (object ms)) at r = sym (observe_nothing none r)

observe_json-observe :
    (d : Decoders) (j : Option Json) (r : Registry)
    → observe_json d j r ≡ observe_head (head_of_json d j) r
observe_json-observe d none r = sym (observe_nothing none r)
observe_json-observe d (some null) r = sym (observe_nothing none r)
observe_json-observe d (some (boolean b)) r = sym (observe_nothing none r)
observe_json-observe d (some (number n)) r = sym (observe_nothing none r)
observe_json-observe d (some (string t)) r = sym (observe_nothing none r)
observe_json-observe d (some (array js)) r = sym (observe_nothing none r)
observe_json-observe d (some (object ms)) r = observe_named-observe d _ _ r

handle_each-observe :
    (d : Decoders) (m : Option (List ℕ)) (r : Registry)
    → handle_each d m r ≡ observe_head (head_of d m) r
unfolding handle_each
handle_each-observe d none r = sym (observe_nothing none r)
handle_each-observe d (some bytes) r = observe_json-observe d (d.parse_json (d.utf8 bytes)) r

handle_all-observe_all :
    (d : Decoders) (ms : List (Option (List ℕ))) (r : Registry)
    → handle_all d ms r ≡ observe_all (map (head_of d) ms) r
unfolding handle_all observe_all
handle_all-observe_all d [] r = refl
handle_all-observe_all d (m ∷ ms) r =
    ap (λ s. handle_all d ms s) (handle_each-observe d m r)
    ∙ handle_all-observe_all d ms (observe_head (head_of d m) r)

-- After any messages of the stream, unreadable ones among them and in any order, the newest time
-- observed for a program is the greatest of the usable times that messages with its id carry.
pub newest_observed_for-handle_all :
    (d : Decoders) (id : Text) (ms : List (Option (List ℕ)))
    → newest_observed_for id (handle_all d ms []) ≡ newest_of id (map (head_of d) ms)
newest_observed_for-handle_all d id ms =
    ap (newest_observed_for id) (handle_all-observe_all d ms [])
    ∙ newest_observed_for-observe_all id (map (head_of d) ms)
