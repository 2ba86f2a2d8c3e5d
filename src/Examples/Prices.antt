-- ===== src/Examples/Prices.antt =====
-- Runs of src/price-service.ts, with whole numbers in place of doubles.
use xrplink.Store.{threw}
use xrplink.Prelude.Text.{decimal_text}
use xrplink.Prices.{
  Arithmetic, AttestationPrice, ftso, calculate_attestation_price, trim_decimal, round_up_to_step,
}
use xrplink.Prices.Feeds.{
  Rates, PriceCache, Caches, Ages, Moment, fetch_live_prices, refresh_prices,
  resolve_attestation_fee_flr,
}
use xrplink.Prices.Quoted.{Pricing, price_input, get_attestation_price}
use xrplink.Prices.Quoted.Rates.{IsPricedAt, get_attestation_price-IsPricedAt}
use xrplink.X402.{Number, bits}
use xrplink.Prelude.{
  ℕ, ◌+◌, ◌-◌, ◌*◌, ◌/◌, ◌≤◌, String, ◌≡◌, refl, ◌⊎◌, Bool, false, none, some, ltb, leb,
  if◌then◌else◌,
}

abbrev ages : Ages
ages = record { refresh_ms = 60000; max_age_ms = 300000 }

abbrev rates : Rates
rates = record { flr_usd = bits 1; xrp_usd = bits 2 }

-- Both feeds fail, and the cache is four minutes old.
abbrev outage : Moment
outage = record {
  now = 240000;
  later = 241000;
  ftso_answer = threw "rpc";
  kraken_answer = threw "http";
}

abbrev old_cache : PriceCache
old_cache = record { rates = rates; timestamp = 0; source = ftso }

abbrev caches : Caches
caches = record { prices = some old_cache; fee = none }

abbrev lift : (ℕ → ℕ → ℕ) → Number → Number → Number
lift f (bits a) (bits b) = bits (f a b)

abbrev same_number : Number → Number
same_number a = a

abbrev test_on : (ℕ → ℕ → Bool) → Number → Number → Bool
test_on f (bits a) (bits b) = f a b

abbrev digits_of : Number → String
digits_of (bits a) = decimal_text a

abbrev whole : Arithmetic
whole = record {
  plus = lift (λ a b. a + b);
  minus = lift (λ a b. a - b);
  times = lift (λ a b. a * b);
  divide = lift (λ a b. a / b);
  smaller = lift (λ a b. if leb a b then a else b);
  larger = lift (λ a b. if leb a b then b else a);
  below = test_on ltb;
  at_most = test_on leb;
  positive = test_on ltb (bits 0);
  negative = λ a. false;
  ceil = same_number;
  round = same_number;
  absolute = same_number;
  one = bits 1;
  million = bits 1000000;
  tiny = bits 0;
  small = bits 1;
  integer_text = digits_of;
  to_fixed = λ a n. digits_of a;
  parse = λ s. bits 0;
}

abbrev pricing : Pricing
pricing = record {
  markup = bits 2;
  floor_usd = bits 3;
  cap_usd = bits 50;
  step_usd = bits 1;
  xrp_buffer = bits 0;
  fallback_fee_flr = bits 10;
}

-- The price at the old rates and the fallback fee.
abbrev old_price : AttestationPrice
old_price = record {
  usd = bits 0;
  xrp_drops = "9999999";
  xrp = bits 10;
  rlusd = "20";
  flr_cost = bits 10;
  flr_usd_rate = bits 1;
  xrp_usd_rate = bits 2;
  floor_applied = false;
  cap_applied = false;
  step_applied = false;
  xrp_buffer = bits 0;
  price_source = ftso;
}

priced_example :
    (c : PriceCache) × ((get_attestation_price whole ages pricing outage
        (threw "rpc")
        caches).1.prices
      ≡ some c)
    × IsPricedAt whole (price_input whole ages pricing c (bits 10)) old_price
    × ((241000 ≤ c.timestamp + 300000)
        ⊎ ((caches.prices ≡ some c) × (240000 ≤ c.timestamp + 300000)))
unfolding get_attestation_price fetch_live_prices refresh_prices resolve_attestation_fee_flr
    calculate_attestation_price trim_decimal round_up_to_step decimal_text
priced_example =
    get_attestation_price-IsPricedAt whole ages pricing outage (threw "rpc") caches old_price refl
