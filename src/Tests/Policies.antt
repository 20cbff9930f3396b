-- ===== src/Tests/Policies.antt =====
-- The theorems on src/capacity/domain and src/shared/money, applied to small amounts.
use invoice_reservation.Prelude.{
  ◌≡◌, ◌≢◌, refl, ℕ, true, false, not, none, some, List, [], ◌∷◌, arith,
}
use invoice_reservation.Prelude.Text.{Text, codes, text_eq}
use invoice_reservation.Prelude.Int.{
  ℤ, pos, negsuc, ◌+ℤ◌, ◌-ℤ◌, ◌*ℤ◌, ◌≤ℤ◌, ◌==ℤ◌, div_trunc, rem_trunc,
}
use invoice_reservation.Prelude.Result.{ok}
use invoice_reservation.Money.{convert, round_half_up, money, has, is_currency_code}
use invoice_reservation.Money.{Money}
use invoice_reservation.Money.Decimal.{render, to_decimal_string, from_decimal_string}
use invoice_reservation.Money.Decimal.RoundTrip.{from_decimal_string-to_decimal_string}
use invoice_reservation.Prelude.Decimal.{show_ℕ}
use invoice_reservation.Money.Rounding.{round_half_up_lem}
use invoice_reservation.Money.Conversion.{worth, convert_lem, outcome_of}
use invoice_reservation.Position.{
  ProgramPosition, PositionComponent, LedgerCause, PendingLedgerEntry, total_reserved, available,
  is_over_limit, advance_position,
}
use invoice_reservation.Position.Replay.{component_of, sum_deltas, advance_position-Agrees}
use invoice_reservation.Position.Sequence.{NumberedFrom, advance_position-NumberedFrom}
use invoice_reservation.Position.OverLimit.{since_after, advance_position-over_limit_since}
use invoice_reservation.Policy.Reserve.{same_currency, accepted, price, fit, decide_reservation}
use invoice_reservation.Policy.Reserve.Admission.{decide_reservation-available}
use invoice_reservation.Policy.Release.{
  active, fully_released, partially_released, ReservationSnapshot, ReleaseDecision, conclude,
  settle, release_policy,
}
use invoice_reservation.Policy.Release.Rounds.{
  IsConsistent, Releases, input_of, release_policy-Releases, release_all,
}
use invoice_reservation.Policy.Snapshot.{
  AcknowledgementKind, Origin, SnapshotReservation, ApplySnapshotInput, SnapshotDeltas, apply, mark,
  sums, acknowledges, apply_snapshot_policy,
}
use invoice_reservation.Policy.Snapshot.Additive.{
  outstanding, unknown, acknowledged_ids, apply_snapshot_policy-adds,
}
use invoice_reservation.Prelude.{◌⊎◌, find, update_where}
use invoice_reservation.Money.{scale_rate}
use invoice_reservation.Policy.Reserve.{FxRate}
use invoice_reservation.Position.{Date}
use invoice_reservation.Fx.{
  RateEntry, static_rate_for, newest_entry, applies, is_newer, priced, priced_option, CacheEntry,
  cache_key, put, cached_rate_for, serve, is_fresh, look_up, remember,
}
use invoice_reservation.Fx.Newest.{IsNewest}
use invoice_reservation.Fx.Effective.{IsCached, static_rate_for-IsNewest, cached_rate_for-effective}
use invoice_reservation.Service.Idempotency.{cancel_fingerprint}
use invoice_reservation.Service.Fingerprints.{cancel_fingerprint-collides}

-- A program with a limit of 50, of which 5 are the treasury's.
abbrev position : ProgramPosition
position = record {
  id = codes "p";
  currency = codes "EUR";
  credit_limit_minor = pos 50;
  local_reserved_minor = pos 0;
  treasury_reserved_minor = pos 5;
  next_sequence = pos 2;
  over_limit_since = none;
  investigation_required = false;
  position_verified = true;
}

abbrev entry : PositionComponent → ℤ → PendingLedgerEntry
entry c delta = record {
  delta_minor = delta;
  component = c;
  cause = LedgerCause.reservation;
  origin_reference = none;
  actor = codes "a";
  correlation_id = codes "c";
}

-- A reservation of 20, then a limit that falls below what is reserved.
abbrev entries : List PendingLedgerEntry
entries = entry PositionComponent.local (pos 20) ∷ entry PositionComponent.limit (negsuc 39) ∷ []

-- The third entry is the marker of the crossing.
marker_is_emitted : (advance_position position entries (pos 9)).program.next_sequence ≡ pos 5
unfolding advance_position ◌+ℤ◌ total_reserved is_over_limit
marker_is_emitted = refl

advance_position-Agrees_example :
    let r = advance_position position entries (pos 9) in
    component_of PositionComponent.local r.program
    ≡ pos 0 +ℤ sum_deltas PositionComponent.local r.entries
advance_position-Agrees_example =
    advance_position-Agrees PositionComponent.local position entries (pos 9)

advance_position-NumberedFrom_example :
    let r = advance_position position entries (pos 9) in
    NumberedFrom (pos 2) r.entries r.program.next_sequence
advance_position-NumberedFrom_example = advance_position-NumberedFrom position entries (pos 9)

advance_position-over_limit_since_example :
    let q = (advance_position position entries (pos 9)).program in
    q.over_limit_since ≡ since_after none (is_over_limit q) (pos 9)
advance_position-over_limit_since_example =
    advance_position-over_limit_since position entries (pos 9)

is_accepted : decide_reservation position (pos 20) same_currency ≡ ok (accepted (pos 20) none)
unfolding decide_reservation price fit is_over_limit total_reserved available ◌+ℤ◌ ◌-ℤ◌
is_accepted = refl

decide_reservation-available_example :
    let q =
      (advance_position position (entry PositionComponent.local (pos 20) ∷ []) (pos 9)).program in
    (true ≡ true)
    × (is_over_limit position ≡ false)
    × (pos 20 ≤ℤ available position)
    × (available q ≡ available position -ℤ pos 20)
    × (is_over_limit q ≡ false)
decide_reservation-available_example =
    decide_reservation-available position (pos 20) same_currency (pos 20) none
      (entry PositionComponent.local (pos 20)) (pos 9) is_accepted refl refl

-- 10 units of an invoice at the rate 1.5.
abbrev rate : ℕ
rate = 15000000000

abbrev reservation : ReservationSnapshot
reservation = record {
  invoice_currency = codes "EUR";
  program_currency = codes "USD";
  outstanding_invoice_minor = pos 10;
  outstanding_reserved_minor = pos 15;
  status = active;
}

reservation-IsConsistent : IsConsistent 10 rate reservation
unfolding worth is_currency_code
reservation-IsConsistent = record {
  invoice = refl;
  reserved = refl;
  invoice_code = refl;
  program_code = refl;
}

-- 3 of the 10: the rest is worth 10.5, which rounds to 11, so 4 are returned.
abbrev release_decision : ReleaseDecision
release_decision = record {
  delta_minor = pos 4;
  outstanding_invoice_minor = pos 7;
  outstanding_reserved_minor = pos 11;
  status = partially_released;
}

is_released : release_policy (input_of reservation 3 rate) ≡ ok (ok release_decision)
unfolding release_policy conclude settle convert round_half_up money div_trunc rem_trunc ◌*ℤ◌ ◌-ℤ◌
    ◌+ℤ◌ text_eq
is_released = refl

release_policy-Releases_example : Releases rate reservation release_decision
release_policy-Releases_example =
    release_policy-Releases (input_of reservation 3 rate) 10 rate release_decision
      reservation-IsConsistent refl is_released

worth_more : worth 10 rate ≢ 0
unfolding worth
worth_more = omega arith

release_all_example :
    release_policy (input_of reservation 10 rate)
    ≡ ok (
        ok (record {
          delta_minor = pos 15;
          outstanding_invoice_minor = pos 0;
          outstanding_reserved_minor = pos 0;
          status = fully_released;
        }))
release_all_example = release_all reservation 10 rate reservation-IsConsistent refl worth_more

-- -15 by 10 is -1.5, and a half goes away from zero.
round_half_up_lem_example : round_half_up (negsuc 14) (pos 10) ≡ ok (negsuc 1)
round_half_up_lem_example = round_half_up_lem (negsuc 14) 10 (omega arith)

is_dollar : is_currency_code (codes "USD") ≡ true
unfolding is_currency_code
is_dollar = refl

convert_lem_example :
    convert (record { minor = pos 3; currency = codes "EUR" }) (codes "USD") (pos rate)
    ≡ ok (outcome_of 3 rate (codes "USD"))
convert_lem_example = convert_lem 3 rate (codes "EUR") (codes "USD") is_dollar

-- Two local reservations of 20 and 7; the snapshot's marker names the first.
abbrev held : Text → ℤ → SnapshotReservation
held reference amount = record {
  id = reference;
  origin = Origin.local;
  outstanding_reserved_minor = amount;
  treasury_acknowledged = false;
  acknowledged_by_version = none;
  treasury_reference = some reference;
  confirmed_at = pos 1;
}

abbrev snapshot_input : ApplySnapshotInput
snapshot_input = record {
  program = record position { local_reserved_minor = pos 27 };
  version = pos 2;
  reserved_minor = pos 30;
  credit_limit_minor = pos 60;
  marker = record {
    kind = AcknowledgementKind.explicit;
    reservation_references = some (codes "t1" ∷ []);
    ingested_through = none;
  };
  reservations = held (codes "t1") (pos 20) ∷ held (codes "t2") (pos 7) ∷ [];
}

abbrev deltas : SnapshotDeltas
deltas = record { treasury = pos 5; local = pos 0; limit = pos 10 }

is_applied : apply_snapshot_policy snapshot_input ≡ apply (codes "t1" ∷ []) false deltas
unfolding apply_snapshot_policy mark sums acknowledges has ◌+ℤ◌ ◌-ℤ◌ text_eq
is_applied = refl

apply_snapshot_policy-adds_example :
    (pos 0 ≤ℤ pos 5 +ℤ pos 5)
    × (pos 27 +ℤ pos 0 ≡ outstanding snapshot_input.reservations)
    × (pos 50 +ℤ pos 10 ≡ pos 60)
    × (pos 5 +ℤ pos 5 +ℤ (pos 27 +ℤ pos 0)
        ≡ pos 30 +ℤ unknown snapshot_input.marker (pos 2) snapshot_input.reservations)
    × (codes "t1" ∷ [] ≡ acknowledged_ids snapshot_input.marker (pos 2) snapshot_input.reservations)
    × (false ≡ not (outstanding snapshot_input.reservations ==ℤ pos 27))
apply_snapshot_policy-adds_example =
    apply_snapshot_policy-adds snapshot_input (codes "t1" ∷ []) false deltas is_applied

-- Invoice A with the note X|CANCELLED|Y, and invoice A|CANCELLED|X with the note Y.
cancel_fingerprint-collides_example :
    cancel_fingerprint (λ t. t) (codes "p") (codes "A") (codes "CANCELLED") (codes "X|CANCELLED|Y")
    ≡ cancel_fingerprint
        (λ t. t)
        (codes "p")
        (codes "A|CANCELLED|X")
        (codes "CANCELLED")
        (codes "Y")
cancel_fingerprint-collides_example =
    cancel_fingerprint-collides (λ t. t) (codes "p") (codes "A") (codes "CANCELLED") (codes "X")
      (codes "Y")

abbrev quoted : Date → Text → RateEntry
quoted at rate = record {
  base = codes "EUR";
  quote = codes "USD";
  rate = rate;
  effective_at = at;
  source = codes "s";
}

-- The rate of time 5 is the newest at time 7; that of time 9 is not effective yet.
abbrev quotes : List RateEntry
quotes =
    quoted (pos 2) (codes "1.1") ∷ quoted (pos 9) (codes "1.3") ∷ quoted (pos 5) (codes "1.2") ∷ []

abbrev quoted_rate : FxRate
quoted_rate = record {
  scaled_rate = pos 12000000000;
  rate = codes "1.2";
  effective_at = pos 5;
  source = codes "s";
}

is_quoted : static_rate_for quotes (codes "EUR") (codes "USD") (pos 7) ≡ ok (some quoted_rate)
unfolding static_rate_for newest_entry applies is_newer priced priced_option scale_rate text_eq
is_quoted = refl

static_rate_for-IsNewest_example : IsNewest (codes "EUR") (codes "USD") (pos 7) quotes quoted_rate
static_rate_for-IsNewest_example =
    static_rate_for-IsNewest quotes (codes "EUR") (codes "USD") (pos 7) quoted_rate is_quoted

-- A live entry of the cache that takes effect at 9 does not answer for time 7.
abbrev cache : List CacheEntry
cache =
    record {
      key = cache_key (codes "EUR") (codes "USD");
      value = record quoted_rate { effective_at = pos 9 };
      expires_at = pos 200;
    }
    ∷ []

is_looked_up :
    (cached_rate_for (pos 100) quotes (codes "EUR") (codes "USD") (pos 7) cache).0
    ≡ ok (some quoted_rate)
unfolding cached_rate_for serve is_fresh look_up remember newest_entry applies is_newer priced
    priced_option scale_rate text_eq find put update_where ◌+ℤ◌
is_looked_up = refl

cached_rate_for-effective_example :
    IsCached (codes "EUR") (codes "USD") (pos 100) (pos 7) cache quoted_rate
    ⊎ IsNewest (codes "EUR") (codes "USD") (pos 7) quotes quoted_rate
cached_rate_for-effective_example =
    cached_rate_for-effective (pos 100) quotes (codes "EUR") (codes "USD") (pos 7) cache quoted_rate
      is_looked_up

euro_is_code : is_currency_code (codes "EUR") ≡ true
unfolding is_currency_code
euro_is_code = refl

from_decimal_string-to_decimal_string_example :
    let a : Money = record { minor = negsuc 1204; currency = codes "EUR" } in
    from_decimal_string (to_decimal_string a 2) (codes "EUR") 2 ≡ ok a
from_decimal_string-to_decimal_string_example =
    from_decimal_string-to_decimal_string (negsuc 1204) (codes "EUR") 2 euro_is_code (omega arith)
      (omega arith)

small_amount :
    to_decimal_string (record { minor = negsuc 4; currency = codes "EUR" }) 2 ≡ codes "-0.05"
unfolding to_decimal_string render show_ℕ
small_amount = refl
