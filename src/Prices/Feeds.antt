-- ===== src/Prices/Feeds.antt =====
-- src/price-service.ts: the prices from the FTSO, from Kraken or from the cache, and the fee from the
-- chain, from its cache or from the environment. Ages are in milliseconds.
pub mod Availability
use xrplink.Store.{Outcome, returned, threw}
use xrplink.X402.{Number}
use xrplink.Prices.{PriceSource, ftso, kraken}
use xrplink.Prelude.{
  ℕ, ◌+◌, max, String, ◌++◌, Bool, true, false, ◌&&◌, Option, none, some, ltb, leb, if◌then◌else◌,
}

pub record Rates : Type 0 where
  pub flr_usd : Number
  pub xrp_usd : Number

pub record PriceCache : Type 0 where
  pub rates : Rates
  pub timestamp : ℕ
  pub source : PriceSource

pub data FeeSource : Type 0 where
  chain env : FeeSource

pub record FeeCache : Type 0 where
  pub fee_flr : Number
  pub timestamp : ℕ
  pub source : FeeSource

-- The two caches of the module.
pub record Caches : Type 0 where
  pub prices : Option PriceCache
  pub fee : Option FeeCache

pub record Ages : Type 0 where
  pub refresh_ms : ℕ
  pub max_age_ms : ℕ

-- What the feeds answer to one call, and the clock: when it starts and when it ends.
pub record Moment : Type 0 where
  pub now : ℕ
  pub later : ℕ
  pub ftso_answer : Outcome Rates
  pub kraken_answer : Outcome Rates

module _ (ages : Ages) where
  -- `now - timestamp < refresh`: an entry from the future is fresh.
  abbrev pub cache_is_fresh : ℕ → ℕ → Bool
  cache_is_fresh timestamp now = ltb now (timestamp + ages.refresh_ms)

  abbrev pub cache_is_usable : ℕ → ℕ → Bool
  cache_is_usable timestamp now = leb now (timestamp + ages.max_age_ms)

  abbrev cached : Option PriceCache → ℕ → (PriceCache → Bool) → Option PriceCache
  cached none now p = none
  cached (some c) now p = if p c then some c else none

  abbrev refreshed : ℕ → PriceSource → Rates → Caches → Outcome PriceCache × Caches
  refreshed now source rates s =
      let c : PriceCache = record { rates = rates; timestamp = now; source = source } in
      (returned c, record s { prices = some c })

  abbrev from_cache : String → ℕ → Caches → Outcome PriceCache × Caches
  from_cache message now s = elim (cached s.prices now (λ c. cache_is_usable c.timestamp now)) [
    | some c ↦ (returned c, s)
    | none ↦ (threw ("Price feed unavailable: " ++ message), s)
  ]

  -- The FTSO, then Kraken, then the cache.
  unfoldable pub refresh_prices : Moment → Caches → Outcome PriceCache × Caches
  refresh_prices m s = elim m.ftso_answer [
    | returned rates ↦ refreshed m.now ftso rates s
    | threw ftso_message ↦ elim m.kraken_answer [
      | returned rates ↦ refreshed m.now kraken rates s
      | threw kraken_message ↦
          from_cache ("FTSO (" ++ (ftso_message ++ ("); Kraken (" ++ (kraken_message ++ ")"))))
            m.now s
    ]
  ]

  abbrev stale : Outcome PriceCache
  stale = threw "Price feed stale (max age exceeded)"

  -- The age is looked at again when the feeds have answered.
  abbrev checked : ℕ → Outcome PriceCache × Caches → Outcome PriceCache × Caches
  checked later (threw m, s) = (threw m, s)
  checked later (returned c, s) =
      if cache_is_usable c.timestamp later then (returned c, s) else (stale, s)

  unfoldable pub fetch_live_prices : Moment → Caches → Outcome PriceCache × Caches
  unfolding refresh_prices
  fetch_live_prices m s = elim (cached s.prices m.now (λ c. cache_is_fresh c.timestamp m.now)) [
    | some c ↦ if cache_is_usable c.timestamp m.now then (returned c, s) else (stale, s)
    | none ↦ checked m.later (refresh_prices m s)
  ]

  unfoldable pub is_price_feed_available : Moment → Caches → Bool × Caches
  unfolding fetch_live_prices
  is_price_feed_available m s =
      let (r, t) = fetch_live_prices m s in ((elim r [ returned c ↦ true | threw e ↦ false ]), t)

  -- The fee: a young cache, the chain, an old cache, the environment. It is always there.
  unfoldable pub resolve_attestation_fee_flr :
      ℕ → Outcome Number → Number → Caches → Number × Caches
  resolve_attestation_fee_flr now on_chain fallback s =
      let young : Option Number = elim s.fee [
        | none ↦ none
        | some c ↦
            if cache_is_fresh c.timestamp now && cache_is_usable c.timestamp now
            then some c.fee_flr
            else none
      ] in
      let old : Option Number = elim s.fee [
        | none ↦ none
        | some c ↦ if cache_is_usable c.timestamp now then some c.fee_flr else none
      ] in
      elim young [
        | some fee ↦ (fee, s)
        | none ↦ elim on_chain [
          | returned fee ↦ (
            fee,
            record s { fee = some (record { fee_flr = fee; timestamp = now; source = chain }) },
          )
          | threw m ↦ elim old [
            | some fee ↦ (fee, s)
            | none ↦ (
              fallback,
              record s {
                fee = some (record { fee_flr = fallback; timestamp = now; source = env });
              },
            )
          ]
        ]
      ]

  unfoldable pub clear_price_cache : Caches → Caches
  clear_price_cache s = record { prices = none; fee = none }
