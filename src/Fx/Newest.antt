-- ===== src/Fx/Newest.antt =====
-- src/fx/static-rate.provider.ts: the entry that the loop ends with, and the rate of an entry.
use mathlib.Core.List.Memᴰ
use invoice_reservation.Prelude.{
  ◌≡◌, refl, sym, ap, ◌∙◌, ◌⊎◌, inl, inr, Bool, true, false, ◌&&◌, Bool-cases, Option, none, some,
  List, [], ◌∷◌, arith, if◌then◌else◌, Memᴰ, ◌↔◌,
}
use invoice_reservation.Prelude.Text.{Text, text_eq_iff}
use invoice_reservation.Prelude.Int.{ℤ, ◌≤ℤ◌, le_trans_ℤ}
use invoice_reservation.Prelude.Result.{Result, ok, err, map_ok}
use invoice_reservation.Money.{MoneyError, scale_rate}
use invoice_reservation.Position.{Date}
use invoice_reservation.Policy.Reserve.{FxRate}
use invoice_reservation.Fx.{RateEntry, applies, is_newer, newest_entry, priced, priced_option}

-- An entry of the pair that is effective by `as_of`.
abbrev pub IsEffective : Text → Text → Date → RateEntry → Type 0
IsEffective base quote as_of e = (e.base ≡ base) × (e.quote ≡ quote) × (e.effective_at ≤ℤ as_of)

-- A rate that an entry gives, the newest of the pair that is effective by `as_of`.
pub record IsNewest (base quote : Text) (as_of : Date) (rates : List RateEntry) (r : FxRate)
    : Type 0 where
  pub entry : RateEntry
  pub listed : Memᴰ entry rates
  pub effective : IsEffective base quote as_of entry
  pub newest :
      (e : RateEntry)
      → Memᴰ e rates
      → IsEffective base quote as_of e
      → e.effective_at ≤ℤ entry.effective_at
  pub scaled : scale_rate entry.rate ≡ ok r.scaled_rate
  pub rate : r.rate ≡ entry.rate
  pub effective_at : r.effective_at ≡ entry.effective_at
  pub source : r.source ≡ entry.source

-- None of the entries that apply is effective after `at`.
abbrev pub NoneAfter : Text → Text → Date → Date → List RateEntry → Type 0
NoneAfter base quote as_of at [] = Unit
NoneAfter base quote as_of at (e ∷ es) =
    (applies base quote as_of e ≡ true → e.effective_at ≤ℤ at) × NoneAfter base quote as_of at es

applies-IsEffective :
    (base quote : Text) (as_of : Date) (e : RateEntry)
    → (applies base quote as_of e ≡ true) ↔ IsEffective base quote as_of e
unfolding applies
applies-IsEffective base quote as_of e =
    ground (arith, text_eq_iff e.base base, text_eq_iff e.quote quote)

pub NoneAfter-mem :
    (base quote : Text) (as_of at : Date) (es : List RateEntry)
    → NoneAfter base quote as_of at es
    → (e : RateEntry) → Memᴰ e es
    → IsEffective base quote as_of e
    → e.effective_at ≤ℤ at
NoneAfter-mem base quote as_of at [] h e m k = absurd (Memᴰ.not-nil m)
NoneAfter-mem base quote as_of at (x ∷ es) (h, rest) e (Memᴰ.head same) k =
    rw (← same) at h ((applies-IsEffective base quote as_of e).1 k)
NoneAfter-mem base quote as_of at (x ∷ es) (h, rest) e (Memᴰ.tail m) k =
    NoneAfter-mem base quote as_of at es rest e m k

applies-as_of :
    (base quote : Text) (as_of : Date) (e : RateEntry)
    → applies base quote as_of e ≡ true
    → e.effective_at ≤ℤ as_of
applies-as_of base quote as_of e h = ((applies-IsEffective base quote as_of e).0 h).2

and-left : (a b : Bool) → (a && b) ≡ true → a ≡ true
and-left a b h = ground arith

-- What the loop keeps is no older than what it held.
newer_le :
    (start : Option RateEntry) (e s : RateEntry) (b : Bool)
    → (b && is_newer start e) ≡ true
    → start ≡ some s
    → s.effective_at ≤ℤ e.effective_at
unfolding is_newer
newer_le none e s b h k = cc
newer_le (some t) e s b h k = let same : t ≡ s = cc in rw (← same) (ground arith)

-- What it skips, though it applies, is no newer than what it holds.
skipped_le :
    (start : Option RateEntry) (e : RateEntry) (b : Bool)
    → (b && is_newer start e) ≡ false
    → b ≡ true
    → (s : RateEntry) × (start ≡ some s) × (e.effective_at ≤ℤ s.effective_at)
unfolding is_newer
skipped_le none e b h k = ground arith
skipped_le (some t) e b h k = (t, refl, ground arith)

-- What the loop ends with is what it started with or later, is no later than asked for, and is the
-- newest of what it has seen.
pub newest_entry_lem :
    (base quote : Text) (as_of : Date) (start : Option RateEntry) (es : List RateEntry)
    (n : RateEntry)
    → ((s : RateEntry) → start ≡ some s → s.effective_at ≤ℤ as_of)
    → newest_entry base quote as_of start es ≡ some n
    → (n.effective_at ≤ℤ as_of)
      × ((s : RateEntry) → start ≡ some s → s.effective_at ≤ℤ n.effective_at)
      × NoneAfter base quote as_of n.effective_at es
unfolding newest_entry
newest_entry_lem base quote as_of start [] n k h =
    (k n h, λ s e. let same : s ≡ n = cc in rw same (omega arith), tt)
newest_entry_lem base quote as_of start (e ∷ es) n k h =
    elim (Bool-cases (applies base quote as_of e && is_newer start e)) [
      | inl take ↦
          let held = and-left _ _ take in
          let (a, b, c) =
            newest_entry_lem base quote as_of (some e) es n
              (λ s q. let same : e ≡ s = cc in rw (← same) (applies-as_of base quote as_of e held))
              (sym (ap (λ t. newest_entry base quote as_of (if t then some e else start) es) take)
                ∙ h) in
          (
            a,
            λ s q.
                le_trans_ℤ s.effective_at e.effective_at n.effective_at
                  (newer_le start e s _ take q) (b e refl),
            (λ _. b e refl, c),
          )
      | inr skip ↦
          let (a, b, c) = newest_entry_lem base quote as_of start es n k (
            sym (ap (λ t. newest_entry base quote as_of (if t then some e else start) es) skip)
            ∙ h) in
          (
            a,
            b,
            (
              λ held.
                  let (s, q, le) = skipped_le start e _ skip held in
                  le_trans_ℤ e.effective_at s.effective_at n.effective_at le (b s q),
              c,
            ),
          )
    ]

-- What the loop ends with is what it started with, or one of the entries that apply.
pub newest_entry-listed :
    (base quote : Text) (as_of : Date) (start : Option RateEntry) (es : List RateEntry)
    (n : RateEntry)
    → newest_entry base quote as_of start es ≡ some n
    → (start ≡ some n) ⊎ (Memᴰ n es × IsEffective base quote as_of n)
unfolding newest_entry
newest_entry-listed base quote as_of start [] n h = inl h
newest_entry-listed base quote as_of start (e ∷ es) n h =
    elim (Bool-cases (applies base quote as_of e && is_newer start e)) [
      | inl take ↦
          let held = (applies-IsEffective base quote as_of e).0 (and-left _ _ take) in
          elim (newest_entry-listed base quote as_of (some e) es n (
            sym (ap (λ t. newest_entry base quote as_of (if t then some e else start) es) take)
            ∙ h)) [
              | inl same ↦ let q : e ≡ n = cc in inr (Memᴰ.head (sym q), rw (← q) held)
              | inr (m, k) ↦ inr (Memᴰ.tail m, k)
            ]
      | inr skip ↦
          elim (newest_entry-listed base quote as_of start es n (
            sym (ap (λ t. newest_entry base quote as_of (if t then some e else start) es) skip)
            ∙ h)) [ inl same ↦ inl same | inr (m, k) ↦ inr (Memᴰ.tail m, k) ]
    ]

-- The rate that an entry gives.
abbrev pub IsRateOf : RateEntry → FxRate → Type 0
IsRateOf e r =
    (scale_rate e.rate ≡ ok r.scaled_rate)
    × (r.rate ≡ e.rate)
    × (r.effective_at ≡ e.effective_at)
    × (r.source ≡ e.source)

pub priced_option-IsRateOf :
    (o : Option RateEntry) (r : FxRate)
    → priced_option o ≡ ok (some r)
    → (n : RateEntry) × (o ≡ some n) × IsRateOf n r
unfolding priced_option priced
priced_option-IsRateOf none r h = cc
priced_option-IsRateOf (some e) r h = (e, refl, from_scaled (scale_rate e.rate) refl h)
  where
    from_scaled :
        (x : Result ℤ MoneyError)
        → scale_rate e.rate ≡ x
        → map_ok
            (map_ok x λ scaled. record {
              scaled_rate = scaled;
              rate = e.rate;
              effective_at = e.effective_at;
              source = e.source;
            })
            some
          ≡ ok (some r)
        → IsRateOf e r
    from_scaled (ok s) q k =
        let built : FxRate = record {
          scaled_rate = s;
          rate = e.rate;
          effective_at = e.effective_at;
          source = e.source;
        } in
        let same : built ≡ r = cc in rw (← same) (q, refl, refl, refl)
    from_scaled (err x) q k = cc
