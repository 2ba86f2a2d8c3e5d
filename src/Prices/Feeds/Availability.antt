-- ===== src/Prices/Feeds/Availability.antt =====
-- src/price-service.ts: when a price is answered, and how old it can be.
use xrplink.Store.{Outcome, returned, threw}
use xrplink.Prices.Feeds.{
  PriceCache, Caches, Ages, Moment, cache_is_fresh, cache_is_usable, refresh_prices,
  fetch_live_prices, is_price_feed_available,
}
use xrplink.Prelude.{ℕ, ◌+◌, ◌≤◌, ◌≡◌, ◌⊎◌, Bool, true, false, ◌||◌, Option, none, some, arith}

abbrev is_returned : {A : Type 0} → Outcome A → Bool
is_returned (returned a) = true
is_returned (threw m) = false

abbrev pub has_cache : Option PriceCache → (ℕ → Bool) → Bool
has_cache none p = false
has_cache (some c) p = p c.timestamp

module _ (ages : Ages) where
  -- With feeds that answer within the maximum age, and a refresh time of at most that age, a price is
  -- there exactly if the cache is fresh, or one of the two feeds answers, or the cached price is not
  -- past its maximum age when the call ends.
  is_price_feed_available_iff :
      (m : Moment) (s : Caches)
      → m.now ≤ m.later
      → m.later ≤ m.now + ages.max_age_ms
      → ages.refresh_ms ≤ ages.max_age_ms
      → (is_price_feed_available ages m s).0 ≡ (
          has_cache s.prices (λ t. cache_is_fresh ages t m.now)
          || (is_returned m.ftso_answer
              || (is_returned m.kraken_answer
                  || has_cache s.prices (λ t. cache_is_usable ages t m.later))))
  unfolding is_price_feed_available fetch_live_prices refresh_prices
  is_price_feed_available_iff m s h k r = ground arith

  -- Whatever the feeds do, an answered price was fetched at most the maximum age before the call
  -- ends, or it is a cached one that was at most so old when the call started.
  pub fetch_live_prices-age :
      (m : Moment) (s : Caches) (c : PriceCache)
      → (fetch_live_prices ages m s).0 ≡ returned c
      → (m.later ≤ c.timestamp + ages.max_age_ms)
        ⊎ ((s.prices ≡ some c) × (m.now ≤ c.timestamp + ages.max_age_ms))
  unfolding fetch_live_prices refresh_prices
  fetch_live_prices-age m s c e = ground arith
