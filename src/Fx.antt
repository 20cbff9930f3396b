-- ===== src/Fx.antt =====
-- src/fx: the providers of exchange rates, static-rate.provider.ts and cached-rate.provider.ts.
pub mod Newest
pub mod Effective
use invoice_reservation.Prelude.{
  Bool, true, false, not, ◌&&◌, ◌||◌, Option, none, some, List, [], ◌∷◌, ◌++◌, if◌then◌else◌, find,
  update_where, is_some,
}
use invoice_reservation.Prelude.Text.{Text, text_eq}
use invoice_reservation.Prelude.Int.{ℤ, pos, ◌+ℤ◌, ltb_ℤ, leb_ℤ}
use invoice_reservation.Prelude.Result.{Result, ok, err, map_ok}
use invoice_reservation.Money.{MoneyError, scale_rate}
use invoice_reservation.Position.{Date}
use invoice_reservation.Policy.Reserve.{FxRate}

-- An entry of the static provider, and a row of the table `fx_rate`, whose rate is never null.
pub record RateEntry : Type 0 where
  pub base : Text
  pub quote : Text
  pub rate : Text
  pub effective_at : Date
  pub source : Text

-- What the loop does not skip.
unfoldable pub applies : Text → Text → Date → RateEntry → Bool
applies base quote as_of e =
    text_eq e.base base && text_eq e.quote quote && leb_ℤ e.effective_at as_of

-- `newest === null || entry.effectiveAt > newest.effectiveAt`
unfoldable pub is_newer : Option RateEntry → RateEntry → Bool
is_newer none e = true
is_newer (some n) e = ltb_ℤ n.effective_at e.effective_at

-- The loop, from what `newest` holds.
unfoldable pub newest_entry :
    Text → Text → Date → Option RateEntry → List RateEntry → Option RateEntry
newest_entry base quote as_of newest [] = newest
newest_entry base quote as_of newest (e ∷ es) =
    newest_entry base quote as_of
      (if applies base quote as_of e && is_newer newest e then some e else newest) es

unfoldable pub priced : RateEntry → Result FxRate MoneyError
priced e = map_ok (scale_rate e.rate) λ scaled. record {
  scaled_rate = scaled;
  rate = e.rate;
  effective_at = e.effective_at;
  source = e.source;
}

unfoldable pub priced_option : Option RateEntry → Result (Option FxRate) MoneyError
priced_option none = ok none
priced_option (some e) = map_ok (priced e) some

-- `StaticRateProvider.rateFor`
unfoldable pub static_rate_for :
    List RateEntry → Text → Text → Date → Result (Option FxRate) MoneyError
static_rate_for rates base quote as_of = priced_option (newest_entry base quote as_of none rates)

-- An entry of the cache's map, with its key.
pub record CacheEntry : Type 0 where
  pub key : Text
  pub value : FxRate
  pub expires_at : Date

-- `${base}:${quote}`
abbrev pub cache_key : Text → Text → Text
cache_key base quote = base ++ (b':' ∷ quote)

abbrev pub has_cache_key : Text → CacheEntry → Bool
has_cache_key key c = text_eq c.key key

-- `set` of the map.
unfoldable pub put : CacheEntry → List CacheEntry → List CacheEntry
put c cache =
    if is_some (find (has_cache_key c.key) cache)
    then update_where (has_cache_key c.key) (λ _. c) cache
    else cache ++ c ∷ []

-- CACHE_TTL_MS
abbrev pub cache_ttl : ℤ
cache_ttl = pos 60000

-- Whether the cached entry is served.
unfoldable pub is_fresh : Date → Date → CacheEntry → Bool
is_fresh now as_of c = ltb_ℤ now c.expires_at && leb_ℤ c.value.effective_at as_of

abbrev pub may_replace : FxRate → Option CacheEntry → Bool
may_replace value none = true
may_replace value (some c) = leb_ℤ c.value.effective_at value.effective_at

-- After the query: the value, and the cache that keeps it unless it holds a newer one.
unfoldable pub remember :
    Text
    → Date
    → Option CacheEntry
    → List CacheEntry
    → Result (Option FxRate) MoneyError
    → Result (Option FxRate) MoneyError × List CacheEntry
remember key now cached cache (err e) = (err e, cache)
remember key now cached cache (ok none) = (ok none, cache)
remember key now cached cache (ok (some value)) = (
  ok (some value),
  if may_replace value cached
      then put (record { key = key; value = value; expires_at = now +ℤ cache_ttl }) cache
      else cache,
)

-- The query: the newest row of the pair that is effective at `as_of`. The primary key is the pair
-- with the time, so there is one newest row.
unfoldable pub look_up :
    Date
    → List RateEntry
    → Text
    → Text
    → Date
    → Option CacheEntry
    → List CacheEntry
    → Result (Option FxRate) MoneyError × List CacheEntry
look_up now rows base quote as_of cached cache =
    remember (cache_key base quote) now cached cache
      (priced_option (newest_entry base quote as_of none rows))

unfoldable pub serve :
    Date
    → List RateEntry
    → Text
    → Text
    → Date
    → Option CacheEntry
    → List CacheEntry
    → Result (Option FxRate) MoneyError × List CacheEntry
serve now rows base quote as_of none cache = look_up now rows base quote as_of none cache
serve now rows base quote as_of (some c) cache =
    if is_fresh now as_of c
    then (ok (some c.value), cache)
    else look_up now rows base quote as_of (some c) cache

-- `CachedRateProvider.rateFor`, on the cache and the rows of `fx_rate`.
unfoldable pub cached_rate_for :
    Date
    → List RateEntry
    → Text
    → Text
    → Date
    → List CacheEntry
    → Result (Option FxRate) MoneyError × List CacheEntry
cached_rate_for now rows base quote as_of cache =
    serve now rows base quote as_of (find (has_cache_key (cache_key base quote)) cache) cache
