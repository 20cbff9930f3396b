-- ===== src/Policy/Snapshot/Additive.antt =====
-- src/capacity/domain/policies/apply-snapshot.policy.ts: the additive rule.
use invoice_reservation.Prelude.{
  ◌≡◌, refl, sym, ap, ◌∙◌, inl, inr, Bool, true, false, not, ◌&&◌, Bool-cases, List, [], ◌∷◌, arith,
  if◌then◌else◌,
}
use invoice_reservation.Prelude.Text.{Text}
use invoice_reservation.Prelude.Int.{ℤ, pos, ◌+ℤ◌, ◌-ℤ◌, ◌≤ℤ◌, ltb_ℤ, ◌==ℤ◌, int_laws}
use invoice_reservation.Policy.Snapshot.{
  ApplySnapshotInput, SnapshotReservation, SnapshotMarker, SnapshotDeltas, apply, refuse,
  acknowledges, acknowledge, mark, is_local, sums, apply_snapshot_policy,
}

-- What the local reservations have outstanding: all of them, and those that the treasury has not
-- acknowledged, once the marker of the snapshot is applied.
abbrev pub outstanding : List SnapshotReservation → ℤ
outstanding [] = pos 0
outstanding (r ∷ rs) =
    (if is_local r.origin then r.outstanding_reserved_minor else pos 0) +ℤ outstanding rs

abbrev pub is_known : SnapshotMarker → ℤ → SnapshotReservation → Bool
is_known m version r = if acknowledges m version r then true else r.treasury_acknowledged

abbrev pub unknown : SnapshotMarker → ℤ → List SnapshotReservation → ℤ
unknown m version [] = pos 0
unknown m version (r ∷ rs) =
    (if is_local r.origin && not (is_known m version r)
      then r.outstanding_reserved_minor
      else pos 0)
    +ℤ unknown m version rs

abbrev pub acknowledged_ids : SnapshotMarker → ℤ → List SnapshotReservation → List Text
acknowledged_ids m version [] = []
acknowledged_ids m version (r ∷ rs) =
    if acknowledges m version r
    then r.id ∷ acknowledged_ids m version rs
    else acknowledged_ids m version rs

abbrev pub marked_by : SnapshotMarker → ℤ → List SnapshotReservation → List SnapshotReservation
marked_by m version [] = []
marked_by m version (r ∷ rs) =
    (if acknowledges m version r then acknowledge version r else r) ∷ marked_by m version rs

mark_lem :
    (m : SnapshotMarker) (version : ℤ) (rs : List SnapshotReservation)
    → mark m version rs ≡ (marked_by m version rs, acknowledged_ids m version rs)
unfolding mark
mark_lem m version [] = refl
mark_lem m version (r ∷ rs) = elim (Bool-cases (acknowledges m version r)) [
  | inl h ↦ rw (h, mark_lem m version rs) refl
  | inr h ↦ rw (h, mark_lem m version rs) refl
]

sums-step :
    (b l : Bool) (version : ℤ) (r : SnapshotReservation) (rest : List SnapshotReservation) (a t : ℤ)
    → is_local r.origin ≡ l
    → sums ((if b then acknowledge version r else r) ∷ rest) (a, t)
      ≡ sums rest (
        if l && (if b then true else r.treasury_acknowledged)
            then a +ℤ r.outstanding_reserved_minor
            else a,
        if l then t +ℤ r.outstanding_reserved_minor else t,
      )
unfolding sums
sums-step true true version r rest a t h = rw h refl
sums-step false true version r rest a t h = rw h refl
sums-step true false version r rest a t h = rw h refl
sums-step false false version r rest a t h = rw h refl

shift : (e u b o x : ℤ) → e +ℤ u ≡ b +ℤ o → e +ℤ (x +ℤ u) ≡ b +ℤ (x +ℤ o)
shift e u b o x h =
    let left : e +ℤ (x +ℤ u) ≡ e +ℤ u +ℤ x = omega int_laws in
    let right : b +ℤ o +ℤ x ≡ b +ℤ (x +ℤ o) = omega int_laws in left ∙ ap (λ z. z +ℤ x) h ∙ right

sums-round :
    (l k : Bool) (x a t o u : ℤ) (s : ℤ × ℤ → ℤ × ℤ)
    → ((b v : ℤ) → ((s (b, v)).1 ≡ v +ℤ o) × ((s (b, v)).0 +ℤ u ≡ b +ℤ o))
    → let e = s (if l && k then a +ℤ x else a, if l then t +ℤ x else t) in
      (e.1 ≡ t +ℤ ((if l then x else pos 0) +ℤ o))
      × (e.0 +ℤ ((if l && not k then x else pos 0) +ℤ u) ≡ a +ℤ ((if l then x else pos 0) +ℤ o))
sums-round true true x a t o u s h =
    let (p, q) = h (a +ℤ x) (t +ℤ x) in
    (p ∙ omega int_laws, shift _ u _ o (pos 0) q ∙ omega int_laws)
sums-round true false x a t o u s h =
    let (p, q) = h a (t +ℤ x) in (p ∙ omega int_laws, shift _ u _ o x q)
sums-round false true x a t o u s h =
    let (p, q) = h a t in (p ∙ omega int_laws, shift _ u _ o (pos 0) q)
sums-round false false x a t o u s h =
    let (p, q) = h a t in (p ∙ omega int_laws, shift _ u _ o (pos 0) q)

-- The loop's sums, against what is outstanding and what the treasury does not know.
sums-marked_by :
    (m : SnapshotMarker) (version : ℤ) (rs : List SnapshotReservation) (a t : ℤ)
    → ((sums (marked_by m version rs) (a, t)).1 ≡ t +ℤ outstanding rs)
      × ((sums (marked_by m version rs) (a, t)).0 +ℤ unknown m version rs ≡ a +ℤ outstanding rs)
unfolding sums
sums-marked_by m version [] a t = (omega int_laws, refl)
sums-marked_by m version (r ∷ rs) a t =
    rw
      (sums-step (acknowledges m version r) (is_local r.origin) version r (marked_by m version rs) a
        t refl)
      (sums-round (is_local r.origin) (is_known m version r) r.outstanding_reserved_minor a t
        (outstanding rs) (unknown m version rs) (λ e. sums (marked_by m version rs) e)
        (sums-marked_by m version rs))

-- The decision, from the sums of the loop.
decided :
    (i : ApplySnapshotInput) (acked total : ℤ) (ids known : List Text) (investigation : Bool)
    (d : SnapshotDeltas)
    → let p = i.program in
      (if ltb_ℤ (i.reserved_minor -ℤ acked) (pos 0)
          then refuse
          else apply known (not (total ==ℤ p.local_reserved_minor)) (record {
            treasury = i.reserved_minor -ℤ acked -ℤ p.treasury_reserved_minor;
            local = total -ℤ p.local_reserved_minor;
            limit = i.credit_limit_minor -ℤ p.credit_limit_minor;
          }))
        ≡ apply ids investigation d
      → (pos 0 ≤ℤ p.treasury_reserved_minor +ℤ d.treasury)
        × (p.treasury_reserved_minor +ℤ d.treasury ≡ i.reserved_minor -ℤ acked)
        × (p.local_reserved_minor +ℤ d.local ≡ total)
        × (p.credit_limit_minor +ℤ d.limit ≡ i.credit_limit_minor)
        × (ids ≡ known)
        × (investigation ≡ not (total ==ℤ p.local_reserved_minor))
decided i acked total ids known investigation d h =
    elim (Bool-cases (ltb_ℤ (i.reserved_minor -ℤ acked) (pos 0))) [
      | inl negative ↦ ground arith
      | inr enough ↦
          let p = i.program in
          let target = i.reserved_minor -ℤ acked in
          let deltas : SnapshotDeltas = record {
            treasury = target -ℤ p.treasury_reserved_minor;
            local = total -ℤ p.local_reserved_minor;
            limit = i.credit_limit_minor -ℤ p.credit_limit_minor;
          } in
          let same : apply known (not (total ==ℤ p.local_reserved_minor)) deltas
              ≡ apply ids investigation d =
            ground arith in
          let e : d ≡ deltas = cc in
          let treasury : p.treasury_reserved_minor +ℤ d.treasury ≡ target = rw e (omega int_laws) in
          let positive : pos 0 ≤ℤ target = ground arith in
          (rw treasury positive, treasury, rw e (omega int_laws), rw e (omega int_laws), cc, cc)
    ]

-- The policy on the list and the ids that the marker gives.
marked_lem :
    (i : ApplySnapshotInput)
    → let p = i.program in
      let s = sums (marked_by i.marker i.version i.reservations) (pos 0, pos 0) in
      apply_snapshot_policy i ≡ (
        if ltb_ℤ (i.reserved_minor -ℤ s.0) (pos 0)
        then refuse
        else apply
            (acknowledged_ids i.marker i.version i.reservations)
            (not (s.1 ==ℤ p.local_reserved_minor))
            (record {
              treasury = i.reserved_minor -ℤ s.0 -ℤ p.treasury_reserved_minor;
              local = s.1 -ℤ p.local_reserved_minor;
              limit = i.credit_limit_minor -ℤ p.credit_limit_minor;
            }))
unfolding apply_snapshot_policy
marked_lem i = rw (mark_lem i.marker i.version i.reservations) refl

cover : (reserved acked u o : ℤ) → acked +ℤ u ≡ pos 0 +ℤ o → reserved -ℤ acked +ℤ o ≡ reserved +ℤ u
cover reserved acked u o h =
    let all : o ≡ acked +ℤ u = omega int_laws ∙ sym h in rw all (omega int_laws)

-- If the policy applies a snapshot, then the deltas take the treasury component to the snapshot's
-- total less what it covers of the local reservations, the local one to what the reservations have
-- outstanding, and the limit to the snapshot's. So the total reserved is the snapshot's total plus the
-- outstanding local reservations that the treasury does not know, the ids are those that the marker
-- acknowledges, and an investigation is asked for exactly when the cached local component was wrong.
pub apply_snapshot_policy-adds :
    (i : ApplySnapshotInput) (ids : List Text) (investigation : Bool) (d : SnapshotDeltas)
    → apply_snapshot_policy i ≡ apply ids investigation d
    → let p = i.program in
      let treasury = p.treasury_reserved_minor +ℤ d.treasury in
      let local = p.local_reserved_minor +ℤ d.local in
      (pos 0 ≤ℤ treasury)
      × (local ≡ outstanding i.reservations)
      × (p.credit_limit_minor +ℤ d.limit ≡ i.credit_limit_minor)
      × (treasury +ℤ local ≡ i.reserved_minor +ℤ unknown i.marker i.version i.reservations)
      × (ids ≡ acknowledged_ids i.marker i.version i.reservations)
      × (investigation ≡ not (outstanding i.reservations ==ℤ p.local_reserved_minor))
apply_snapshot_policy-adds i ids investigation d h =
    let s = sums (marked_by i.marker i.version i.reservations) (pos 0, pos 0) in
    let u = unknown i.marker i.version i.reservations in
    let o = outstanding i.reservations in
    let loop = sums-marked_by i.marker i.version i.reservations (pos 0) (pos 0) in
    let whole : s.1 ≡ o = loop.0 ∙ omega int_laws in
    let (positive, treasury, total, limit, known, wrong) =
      decided i s.0 s.1 ids (acknowledged_ids i.marker i.version i.reservations) investigation d
        (sym (marked_lem i) ∙ h) in
    (
      positive,
      total ∙ whole,
      limit,
      rw (treasury, total, whole) (cover i.reserved_minor s.0 u o loop.1),
      known,
      wrong ∙ ap (λ t. not (t ==ℤ i.program.local_reserved_minor)) whole,
    )
