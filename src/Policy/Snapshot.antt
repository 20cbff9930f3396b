-- ===== src/Policy/Snapshot.antt =====
-- src/capacity/domain/policies/apply-snapshot.policy.ts.
pub mod Additive
use invoice_reservation.Prelude.{
  Bool, true, false, not, ◌&&◌, Option, none, some, List, [], ◌∷◌, if◌then◌else◌, or_else,
}
use invoice_reservation.Prelude.Text.{Text}
use invoice_reservation.Prelude.Int.{ℤ, pos, ◌+ℤ◌, ◌-ℤ◌, ltb_ℤ, leb_ℤ, ◌==ℤ◌}
use invoice_reservation.Money.{has}
use invoice_reservation.Position.{Date, ProgramPosition}

pub data AcknowledgementKind : Type 0 where
  explicit watermark : AcknowledgementKind

pub record SnapshotMarker : Type 0 where
  pub kind : AcknowledgementKind
  pub reservation_references : Option (List Text)
  pub ingested_through : Option Date

pub data Origin : Type 0 where
  local treasury : Origin

pub record SnapshotReservation : Type 0 where
  pub id : Text
  pub origin : Origin
  pub outstanding_reserved_minor : ℤ
  pub treasury_acknowledged : Bool
  pub acknowledged_by_version : Option ℤ
  pub treasury_reference : Option Text
  pub confirmed_at : Date

pub record ApplySnapshotInput : Type 0 where
  pub program : ProgramPosition
  pub version : ℤ
  pub reserved_minor : ℤ
  pub credit_limit_minor : ℤ
  pub marker : SnapshotMarker
  pub reservations : List SnapshotReservation

pub record SnapshotDeltas : Type 0 where
  pub treasury : ℤ
  pub local : ℤ
  pub limit : ℤ

pub data SnapshotDecision : Type 0 where
  apply : List Text → Bool → SnapshotDeltas → SnapshotDecision
  -- with the reason SNAPSHOT_INCONSISTENT
  refuse : SnapshotDecision

names : Option (List Text) → Option Text → Bool
names references none = false
names references (some reference) = has (or_else references []) reference

reaches : Option Date → Date → Bool
reaches none confirmed_at = false
reaches (some t) confirmed_at = leb_ℤ confirmed_at t

-- The `if` of `markerMatches`, on the marker's kind.
matches_kind : AcknowledgementKind → SnapshotMarker → SnapshotReservation → Bool
unfolding names reaches
matches_kind explicit m r = names m.reservation_references r.treasury_reference
matches_kind watermark m r = reaches m.ingested_through r.confirmed_at

pub marker_matches : SnapshotMarker → SnapshotReservation → Bool
unfolding matches_kind
marker_matches m r = matches_kind m.kind m r

-- `acknowledgedByVersion !== null && acknowledgedByVersion >= version`
pub is_superseded : Option ℤ → ℤ → Bool
is_superseded none version = false
is_superseded (some v) version = leb_ℤ version v

-- Whether the marker acknowledges a reservation anew.
unfoldable pub acknowledges : SnapshotMarker → ℤ → SnapshotReservation → Bool
unfolding marker_matches is_superseded
acknowledges m version r =
    marker_matches m r && not (is_superseded r.acknowledged_by_version version)

abbrev pub acknowledge : ℤ → SnapshotReservation → SnapshotReservation
acknowledge version r = record r {
  treasury_acknowledged = true;
  acknowledged_by_version = some version;
}

-- The reservations with the marker applied, and the ids that it acknowledged, in order.
unfoldable pub mark :
    SnapshotMarker → ℤ → List SnapshotReservation → List SnapshotReservation × List Text
mark m version [] = ([], [])
mark m version (r ∷ rs) =
    let (marked, ids) = mark m version rs in
    if acknowledges m version r
    then (acknowledge version r ∷ marked, r.id ∷ ids)
    else (r ∷ marked, ids)

abbrev pub is_local : Origin → Bool
is_local Origin.local = true
is_local Origin.treasury = false

-- The loop over the marked reservations: `ackedLocal` and `localTotal`.
unfoldable pub sums : List SnapshotReservation → ℤ × ℤ → ℤ × ℤ
sums [] acc = acc
sums (r ∷ rs) (acked_local, local_total) = sums rs (
    if is_local r.origin
    then (
      if r.treasury_acknowledged then acked_local +ℤ r.outstanding_reserved_minor else acked_local,
      local_total +ℤ r.outstanding_reserved_minor,
    )
    else (acked_local, local_total))

unfoldable pub apply_snapshot_policy : ApplySnapshotInput → SnapshotDecision
apply_snapshot_policy input =
    let p = input.program in
    let (marked, ids) = mark input.marker input.version input.reservations in
    let (acked_local, local_total) = sums marked (pos 0, pos 0) in
    let target_treasury = input.reserved_minor -ℤ acked_local in
    if ltb_ℤ target_treasury (pos 0)
    then refuse
    else apply ids (not (local_total ==ℤ p.local_reserved_minor)) (record {
      treasury = target_treasury -ℤ p.treasury_reserved_minor;
      local = local_total -ℤ p.local_reserved_minor;
      limit = input.credit_limit_minor -ℤ p.credit_limit_minor;
    })
