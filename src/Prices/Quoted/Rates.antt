-- ===== src/Prices/Quoted/Rates.antt =====
-- src/price-service.ts: which rates a quoted price is computed from.
use mathlib.Core.Path.{subst}
use xrplink.Store.{Outcome, returned, threw}
use xrplink.X402.{Number}
use xrplink.Prices.{
  Arithmetic, AttestationPrice, PriceInput, PriceError, calculate_attestation_price,
}
use xrplink.Prices.Feeds.{
  PriceCache, Caches, Ages, Moment, fetch_live_prices, refresh_prices, resolve_attestation_fee_flr,
}
use xrplink.Prices.Feeds.Availability.{fetch_live_prices-age}
use xrplink.Prices.Quoted.{no_feed, Pricing, priced, price_input, answer, get_attestation_price}
use xrplink.Prelude.{
  ℕ, ◌+◌, ◌≤◌, ◌≡◌, refl, sym, ◌∙◌, ◌⊎◌, inl, inr, true, false, ◌&&◌, some, arith,
}

-- The price repeats its rates, which are usable, and its limits are in order.
pub record IsPricedAt (n : Arithmetic) (i : PriceInput) (p : AttestationPrice) : Type 0 where
  pub flr_usd : p.flr_usd_rate ≡ i.flr_usd
  pub xrp_usd : p.xrp_usd_rate ≡ i.xrp_usd
  pub source : p.price_source ≡ i.price_source
  pub fee : p.flr_cost ≡ i.fee_flr
  pub usable : n.positive i.flr_usd && (n.positive i.xrp_usd && n.positive i.fee_flr) ≡ true
  pub ordered : n.below i.cap_usd i.floor_usd ≡ false

module _ (n : Arithmetic) where
  calculate_attestation_price-IsPricedAt :
      (i : PriceInput) (p : AttestationPrice)
      → calculate_attestation_price n i ≡ inr p
      → IsPricedAt n i p
  unfolding calculate_attestation_price
  calculate_attestation_price-IsPricedAt i p e = record {
    flr_usd = ground arith;
    xrp_usd = ground arith;
    source = ground arith;
    fee = ground arith;
    usable = ground arith;
    ordered = ground arith;
  }

module _ (ages : Ages) where
  fetch_live_prices-cached :
      (m : Moment) (s : Caches) (c : PriceCache)
      → (fetch_live_prices ages m s).0 ≡ returned c
      → (fetch_live_prices ages m s).1.prices ≡ some c
  unfolding fetch_live_prices refresh_prices
  fetch_live_prices-cached m s c e = ground arith

  resolve_attestation_fee_flr-prices :
      (now : ℕ) (on_chain : Outcome Number) (fallback : Number) (s : Caches)
      → (resolve_attestation_fee_flr ages now on_chain fallback s).1.prices ≡ s.prices
  unfolding resolve_attestation_fee_flr
  resolve_attestation_fee_flr-prices now on_chain fallback s = ground arith

module _ (n : Arithmetic) (ages : Ages) (pricing : Pricing) where
  answer-priced :
      (r : PriceError ⊎ AttestationPrice) (p : AttestationPrice)
      → answer n ages pricing r ≡ priced p
      → r ≡ inr p
  answer-priced (inl e) p h = cc
  answer-priced (inr q) p h = cc

  priced_by :
      (o : Outcome PriceCache) (fee : Number) (p : AttestationPrice)
      → (elim o [
        | threw message ↦ no_feed message
        | returned c ↦
            answer n ages pricing (calculate_attestation_price n (price_input n ages pricing c fee))
      ])
        ≡ priced p
      → (c : PriceCache) × (o ≡ returned c)
        × (calculate_attestation_price n (price_input n ages pricing c fee) ≡ inr p)
  priced_by (threw message) fee p h = cc
  priced_by (returned c) fee p h = (c, refl, answer-priced _ p h)

  -- An attestation is only priced at positive rates and a positive fee, which the price repeats, with
  -- a floor that is not above the cap. The rates are those of the entry that the price cache holds
  -- after the call, which was fetched at most the maximum age before the call ends, or stood in the
  -- cache before and was at most so old when the call started.
  pub get_attestation_price-IsPricedAt :
      (m : Moment) (on_chain : Outcome Number) (s : Caches) (p : AttestationPrice)
      → (get_attestation_price n ages pricing m on_chain s).0 ≡ priced p
      → (c : PriceCache) × ((get_attestation_price n ages pricing m on_chain s).1.prices ≡ some c)
        × IsPricedAt n (price_input n ages pricing c p.flr_cost) p
        × ((m.later ≤ c.timestamp + ages.max_age_ms)
            ⊎ ((s.prices ≡ some c) × (m.now ≤ c.timestamp + ages.max_age_ms)))
  unfolding get_attestation_price
  get_attestation_price-IsPricedAt m on_chain s p e =
      let t = (fetch_live_prices ages m s).1 in
      let fallback = pricing.fallback_fee_flr in
      let fee = (resolve_attestation_fee_flr ages m.now on_chain fallback t).0 in
      let (c, found, priced_at) = priced_by (fetch_live_prices ages m s).0 fee p e in
      let facts = calculate_attestation_price-IsPricedAt n _ p priced_at in
      (
        c,
        resolve_attestation_fee_flr-prices ages m.now on_chain fallback t
            ∙ fetch_live_prices-cached ages m s c found,
        subst (λ (x : Number). IsPricedAt n (price_input n ages pricing c x) p) (sym facts.fee)
            facts,
        fetch_live_prices-age ages m s c found,
      )
