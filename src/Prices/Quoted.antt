-- ===== src/Prices/Quoted.antt =====
-- src/price-service.ts: `getAttestationPrice`, the price at the rates and the fee of the moment.
pub mod Rates
use xrplink.Store.{Outcome, returned, threw}
use xrplink.X402.{Number}
use xrplink.Prices.{
  Arithmetic, PriceSource, AttestationPrice, PriceInput, PriceError, calculate_attestation_price,
}
use xrplink.Prices.Feeds.{
  PriceCache, Caches, Ages, Moment, fetch_live_prices, resolve_attestation_fee_flr,
}
use xrplink.Prices.Feeds.Availability.{fetch_live_prices-age}
use xrplink.Prelude.{◌-◌, String, ◌⊎◌, inl, inr}

-- What the environment sets: `getMarkup` and the others.
pub record Pricing : Type 0 where
  pub markup : Number
  pub floor_usd : Number
  pub cap_usd : Number
  pub step_usd : Number
  pub xrp_buffer : Number
  pub fallback_fee_flr : Number

pub data Quoting : Type 0 where
  priced : AttestationPrice → Quoting
  unusable : PriceError → Quoting
  no_feed : String → Quoting

module _ (n : Arithmetic) (ages : Ages) (pricing : Pricing) where
  abbrev pub price_input : PriceCache → Number → PriceInput
  price_input c fee = record {
    flr_usd = c.rates.flr_usd;
    xrp_usd = c.rates.xrp_usd;
    fee_flr = fee;
    markup = pricing.markup;
    floor_usd = pricing.floor_usd;
    cap_usd = pricing.cap_usd;
    step_usd = pricing.step_usd;
    xrp_buffer = pricing.xrp_buffer;
    price_source = c.source;
  }

  abbrev pub answer : PriceError ⊎ AttestationPrice → Quoting
  answer (inl e) = unusable e
  answer (inr p) = priced p

  -- The rates and the fee are asked for at the same time, and change different caches.
  unfoldable pub get_attestation_price : Moment → Outcome Number → Caches → Quoting × Caches
  get_attestation_price m on_chain s =
      let (prices, t) = fetch_live_prices ages m s in
      let (fee, u) = resolve_attestation_fee_flr ages m.now on_chain pricing.fallback_fee_flr t in
      (
        (elim prices [
          | threw message ↦ no_feed message
          | returned c ↦ answer (calculate_attestation_price n (price_input c fee))
        ]),
        u,
      )
