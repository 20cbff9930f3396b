-- ===== src/Tests/StreamLag.antt =====
-- Concrete calls of src/shared/stream-lag/stream-lag.registry.ts: times out of order, a late one, one
-- that is not finite, and another program's.
use invoice_reservation.Prelude.{ℕ, map, length, ◌≡◌, refl, Option, none, some, List, [], ◌∷◌}
use invoice_reservation.Prelude.Text.{Text, codes, text_eq}
use invoice_reservation.Prelude.Int.{ℤ, pos}
use invoice_reservation.StreamLag.{newest_observed_for, observe_all, observe, lookup, set_observed}
use invoice_reservation.Stream.Json.{Json, string, object, member, end, Decoders}
use invoice_reservation.StreamLag.Probe.{
  handle_each, handle_all, head_of, newest_observed_for-handle_all,
}
use invoice_reservation.StreamLag.Newest.{newest_of}

abbrev seen : List (Text × Option ℤ)
seen =
    (codes "a", some (pos 5))
    ∷ (codes "b", some (pos 9))
    ∷ (codes "a", some (pos 7))
    ∷ (codes "a", none)
    ∷ (codes "a", some (pos 6))
    ∷ (codes "a", some (pos 0))
    ∷ []

newest_seen : newest_observed_for (codes "a") (observe_all seen []) ≡ some (pos 7)
unfolding newest_observed_for observe_all observe lookup set_observed text_eq
newest_seen = refl

-- A message is the text of its time; an empty one is no JSON.
abbrev parse_message : Text → Option Json
parse_message [] = none
parse_message (c ∷ t) = some (
    object (
      member (codes "programId") (string (codes "a"))
        (member (codes "effectiveAt") (string (c ∷ t)) end)))

abbrev decoders : Decoders
decoders = record {
  utf8 = λ bytes. bytes;
  parse_json = parse_message;
  parse_date = λ t. some (pos (length t));
}

abbrev messages : List (Option (List ℕ))
messages = some (codes "22") ∷ none ∷ some (codes "4444") ∷ some [] ∷ some (codes "1") ∷ []

newest_messages : newest_observed_for (codes "a") (handle_all decoders messages []) ≡ some (pos 4)
unfolding newest_observed_for handle_each handle_all observe lookup set_observed text_eq
newest_messages = refl

newest_observed_for-handle_all_example :
    newest_observed_for (codes "a") (handle_all decoders messages [])
    ≡ newest_of (codes "a") (map (head_of decoders) messages)
newest_observed_for-handle_all_example =
    newest_observed_for-handle_all decoders (codes "a") messages
