-- ===== src/StreamLag.antt =====
-- src/shared/stream-lag/stream-lag.registry.ts: the newest time seen on the stream, by program.
pub mod Newest
pub mod Probe
use invoice_reservation.Prelude.{
  Bool, true, false, Option, none, some, List, [], ◌∷◌, if◌then◌else◌, not,
}
use invoice_reservation.Prelude.Text.{Text, text_eq}
use invoice_reservation.Prelude.Int.{ℤ, pos, ltb_ℤ, leb_ℤ}

-- The entries of `observed`.
abbrev pub Registry : Type 0
Registry = List (Text × ℤ)

unfoldable pub lookup : Text → Registry → Option ℤ
lookup id [] = none
lookup id ((own, t) ∷ r) = if text_eq own id then some t else lookup id r

unfoldable pub set_observed : Text → ℤ → Registry → Registry
set_observed id t [] = (id, t) ∷ []
set_observed id t ((own, u) ∷ r) =
    let rest = set_observed id t r in if text_eq own id then (own, t) ∷ r else (own, u) ∷ rest

-- The two early returns. A time that is not finite is `none`.
abbrev pub is_usable : Text → Option ℤ → Bool
is_usable [] t = false
is_usable (c ∷ id) none = false
is_usable (c ∷ id) (some t) = not (leb_ℤ t (pos 0))

abbrev pub is_newer : Option ℤ → ℤ → Bool
is_newer none t = true
is_newer (some current) t = ltb_ℤ current t

abbrev pub observe_usable : Text → Option ℤ → Registry → Registry
observe_usable id none r = r
observe_usable id (some t) r = if is_newer (lookup id r) t then set_observed id t r else r

unfoldable pub observe : Text → Option ℤ → Registry → Registry
observe id t r = if is_usable id t then observe_usable id t r else r

unfoldable pub newest_observed_for : Text → Registry → Option ℤ
newest_observed_for id r = lookup id r

-- The calls of `observe` in their order.
unfoldable pub observe_all : List (Text × Option ℤ) → Registry → Registry
observe_all [] r = r
observe_all ((id, t) ∷ seen) r = observe_all seen (observe id t r)
