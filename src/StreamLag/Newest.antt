-- ===== src/StreamLag/Newest.antt =====
-- src/shared/stream-lag/stream-lag.registry.ts: what the registry holds after any calls.
use invoice_reservation.Prelude.{
  ◌≡◌, refl, sym, ap, ◌∙◌, false, Bool-cases, inl, inr, Option, none, some, List, [], ◌∷◌,
  if◌then◌else◌, ◌&&◌, arith,
}
use invoice_reservation.Prelude.Text.{Text, text_eq, text_eq_iff, text_eq_refl}
use invoice_reservation.Prelude.Int.{ℤ, ltb_ℤ}
use invoice_reservation.StreamLag.{
  Registry, lookup, set_observed, is_usable, is_newer, observe_usable, observe, newest_observed_for,
  observe_all,
}

-- The later of two times.
abbrev pub later : Option ℤ → Option ℤ → Option ℤ
later none t = t
later (some t) none = some t
later (some t) (some u) = some (if ltb_ℤ t u then u else t)

-- The newest of the program's usable times.
abbrev pub newest_of : Text → List (Text × Option ℤ) → Option ℤ
newest_of id [] = none
newest_of id ((own, t) ∷ seen) =
    let rest = newest_of id seen in if is_usable own t && text_eq own id then later t rest else rest

later-none : (t : Option ℤ) → later t none ≡ t
later-none none = refl
later-none (some t) = refl

later_assoc : (s t u : Option ℤ) → later (later s t) u ≡ later s (later t u)
later_assoc none t u = refl
later_assoc (some s) none u = refl
later_assoc (some s) (some t) none = refl
later_assoc (some s) (some t) (some u) = ground arith

lookup-set_observed : (id : Text) (t : ℤ) (r : Registry) → lookup id (set_observed id t r) ≡ some t
unfolding lookup set_observed
lookup-set_observed id t [] = rw (text_eq_refl id) refl
lookup-set_observed id t ((own, u) ∷ r) = elim (Bool-cases (text_eq own id)) [
  | inl same ↦ rw (same, same) refl
  | inr other ↦ rw (other, other) (lookup-set_observed id t r)
]

lookup-set_observed_other :
    (id other : Text) (t : ℤ) (r : Registry)
    → text_eq other id ≡ false
    → lookup id (set_observed other t r) ≡ lookup id r
unfolding lookup set_observed
lookup-set_observed_other id other t [] apart = rw apart refl
lookup-set_observed_other id other t ((own, u) ∷ r) apart = elim (Bool-cases (text_eq own other)) [
  | inl same ↦
      let away : text_eq own id ≡ false =
        ap (λ x. text_eq x id) ((text_eq_iff own other).0 same) ∙ apart in
      rw (same, away) refl
  | inr off ↦ rw (off, lookup-set_observed_other id other t r apart) refl
]

-- A usable time is kept where it is newer.
lookup-observe_usable :
    (id : Text) (t : Option ℤ) (r : Registry)
    → lookup id (observe_usable id t r) ≡ later (lookup id r) t
lookup-observe_usable id none r = sym (later-none (lookup id r))
lookup-observe_usable id (some t) r = go (lookup id r) refl
  where
    go :
        (held : Option ℤ)
        → lookup id r ≡ held
        → lookup id (if is_newer held t then set_observed id t r else r) ≡ later held (some t)
    go none h = lookup-set_observed id t r
    go (some u) h = elim (Bool-cases (ltb_ℤ u t)) [
      | inl newer ↦ rw newer (lookup-set_observed id t r)
      | inr old ↦ rw old h
    ]

lookup-observe_usable_other :
    (id other : Text) (t : Option ℤ) (r : Registry)
    → text_eq other id ≡ false
    → lookup id (observe_usable other t r) ≡ lookup id r
lookup-observe_usable_other id other none r apart = refl
lookup-observe_usable_other id other (some t) r apart =
    elim (Bool-cases (is_newer (lookup other r) t)) [
      | inl newer ↦ rw newer (lookup-set_observed_other id other t r apart)
      | inr old ↦ rw old refl
    ]

-- What the registry holds for a program, before and after a call.
lookup-observe :
    (id own : Text) (t : Option ℤ) (r : Registry) (rest : Option ℤ)
    → later (lookup id (observe own t r)) rest
      ≡ later (lookup id r) (if is_usable own t && text_eq own id then later t rest else rest)
unfolding observe
lookup-observe id own t r rest = elim (Bool-cases (is_usable own t)) [
  | inr refused ↦ rw refused refl
  | inl usable ↦ elim (Bool-cases (text_eq own id)) [
    | inl same ↦
        rw (usable, same)
          (ap (λ x. later x rest) (of_program ((text_eq_iff own id).0 same))
            ∙ later_assoc (lookup id r) t rest)
    | inr apart ↦
        rw (usable, apart) (ap (λ x. later x rest) (lookup-observe_usable_other id own t r apart))
  ]
]
  where
    of_program : own ≡ id → lookup id (observe_usable own t r) ≡ later (lookup id r) t
    of_program same = rw same (lookup-observe_usable id t r)

lookup-observe_all :
    (id : Text) (seen : List (Text × Option ℤ)) (r : Registry)
    → lookup id (observe_all seen r) ≡ later (lookup id r) (newest_of id seen)
unfolding observe_all
lookup-observe_all id [] r = sym (later-none (lookup id r))
lookup-observe_all id ((own, t) ∷ seen) r =
    lookup-observe_all id seen (observe own t r) ∙ lookup-observe id own t r (newest_of id seen)

-- After any calls of `observe` on an empty registry, in any order and for any programs, the newest
-- time observed for a program is the greatest of the usable times that the calls gave for it, and
-- there is none where they gave none.
pub newest_observed_for-observe_all :
    (id : Text) (seen : List (Text × Option ℤ))
    → newest_observed_for id (observe_all seen []) ≡ newest_of id seen
unfolding newest_observed_for lookup
newest_observed_for-observe_all id seen = lookup-observe_all id seen []
