-- ===== src/Fx/Effective.antt =====
-- src/fx: which rate the providers answer with.
use invoice_reservation.Prelude.{
  ◌≡◌, refl, sym, ap, ◌∙◌, ◌⊎◌, inl, inr, Bool, true, Bool-cases, Option, none, some, List, ◌∷◌,
  arith, if◌then◌else◌, find, find-mem, Memᴰ, ◌++◌,
}
use invoice_reservation.Prelude.Text.{Text, text_eq_iff}
use invoice_reservation.Prelude.Int.{◌≤ℤ◌, ◌<ℤ◌}
use invoice_reservation.Prelude.Result.{Result, ok, err}
use invoice_reservation.Money.{MoneyError}
use invoice_reservation.Position.{Date}
use invoice_reservation.Policy.Reserve.{FxRate}
use invoice_reservation.Fx.{
  RateEntry, static_rate_for, CacheEntry, cache_key, has_cache_key, is_fresh, remember, look_up,
  serve, cached_rate_for,
}
use invoice_reservation.Fx.Newest.{
  IsNewest, NoneAfter-mem, newest_entry_lem, newest_entry-listed, priced_option-IsRateOf,
}

-- If the static provider answers with a rate, then it is that of an entry of the pair which is effective
-- at the time asked for, and no such entry is newer.
pub static_rate_for-IsNewest :
    (rates : List RateEntry) (base quote : Text) (as_of : Date) (r : FxRate)
    → static_rate_for rates base quote as_of ≡ ok (some r)
    → IsNewest base quote as_of rates r
unfolding static_rate_for
static_rate_for-IsNewest rates base quote as_of r h =
    let (n, e, (scaled, same_rate, same_time, same_source)) = priced_option-IsRateOf _ r h in
    let (a, b, c) = newest_entry_lem base quote as_of none rates n (λ s q. cc) e in
    elim (newest_entry-listed base quote as_of none rates n e) [
      | inl q ↦ cc
      | inr (m, k) ↦ record {
        entry = n;
        listed = m;
        effective = k;
        newest = NoneAfter-mem base quote as_of n.effective_at rates c;
        scaled = scaled;
        rate = same_rate;
        effective_at = same_time;
        source = same_source;
      }
    ]

remember-value :
    (key : Text) (now : Date) (cached : Option CacheEntry) (cache : List CacheEntry)
    (x : Result (Option FxRate) MoneyError)
    → (remember key now cached cache x).0 ≡ x
unfolding remember
remember-value key now cached cache (err e) = refl
remember-value key now cached cache (ok none) = refl
remember-value key now cached cache (ok (some v)) = refl

looked_up :
    (now : Date) (rows : List RateEntry) (base quote : Text) (as_of : Date)
    (cached : Option CacheEntry) (cache : List CacheEntry) (r : FxRate)
    → (look_up now rows base quote as_of cached cache).0 ≡ ok (some r)
    → IsNewest base quote as_of rows r
unfolding look_up static_rate_for
looked_up now rows base quote as_of cached cache r h =
    static_rate_for-IsNewest rows base quote as_of r
      (sym (remember-value (cache_key base quote) now cached cache _) ∙ h)

fresh_lem :
    (now as_of : Date) (c : CacheEntry)
    → is_fresh now as_of c ≡ true
    → (now <ℤ c.expires_at) × (c.value.effective_at ≤ℤ as_of)
unfolding is_fresh
fresh_lem now as_of c h = ground arith

-- A rate that an entry of the cache holds under the key of the pair, not expired and effective.
abbrev pub IsCached : Text → Text → Date → Date → List CacheEntry → FxRate → Type 0
IsCached base quote now as_of cache r =
    (c : CacheEntry) × Memᴰ c cache
    × (c.key ≡ base ++ (b':' ∷ quote))
    × (c.value ≡ r)
    × (now <ℤ c.expires_at)
    × (r.effective_at ≤ℤ as_of)

find-cached :
    (key : Text) (cache : List CacheEntry) (c : CacheEntry)
    → find (has_cache_key key) cache ≡ some c
    → Memᴰ c cache × (c.key ≡ key)
find-cached key cache c h =
    let (m, k) = find-mem (has_cache_key key) cache c h in (m, (text_eq_iff c.key key).0 k)

served :
    (now : Date) (rows : List RateEntry) (base quote : Text) (as_of : Date)
    (cached : Option CacheEntry) (cache : List CacheEntry) (r : FxRate)
    → find (has_cache_key (cache_key base quote)) cache ≡ cached
    → (serve now rows base quote as_of cached cache).0 ≡ ok (some r)
    → IsCached base quote now as_of cache r ⊎ IsNewest base quote as_of rows r
unfolding serve
served now rows base quote as_of none cache r found h =
    inr (looked_up now rows base quote as_of none cache r h)
served now rows base quote as_of (some c) cache r found h =
    elim (Bool-cases (is_fresh now as_of c)) [
      | inl fresh ↦
          let (live, effective) = fresh_lem now as_of c fresh in
          let (m, k) = find-cached (cache_key base quote) cache c found in
          let hit : ok (some c.value) ≡ ok (some r) = sym (ap answer fresh) ∙ h in
          let same : c.value ≡ r = cc in inl (c, m, k, same, live, rw (← same) effective)
      | inr stale ↦
          inr (looked_up now rows base quote as_of (some c) cache r (sym (ap answer stale) ∙ h))
    ]
  where
    answer : Bool → Result (Option FxRate) MoneyError
    answer t =
        (if◌then◌else◌ {A = Result (Option FxRate) MoneyError × List CacheEntry} t
          (ok (some c.value), cache) (look_up now rows base quote as_of (some c) cache)).0

-- If the cached provider answers with a rate, then an entry of the cache holds it under the pair's key,
-- has not expired, and the rate is effective at the time asked for, whatever time filled the cache; or
-- it is the rate of a row of the pair which is effective at that time, and no such row is newer.
pub cached_rate_for-effective :
    (now : Date) (rows : List RateEntry) (base quote : Text) (as_of : Date)
    (cache : List CacheEntry) (r : FxRate)
    → (cached_rate_for now rows base quote as_of cache).0 ≡ ok (some r)
    → IsCached base quote now as_of cache r ⊎ IsNewest base quote as_of rows r
unfolding cached_rate_for
cached_rate_for-effective now rows base quote as_of cache r h =
    served now rows base quote as_of (find (has_cache_key (cache_key base quote)) cache) cache r
      refl h
