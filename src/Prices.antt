-- ===== src/Prices.antt =====
-- src/price-service.ts: the price of an attestation, and the feeds with their caches. The arithmetic on
-- doubles and what the feeds answer are parameters; the overrides for tests are off.
pub mod Feeds
pub mod Quoted
use Prim.Native.Char.{code}
use Prim.Native.String
use xrplink.Prelude.Split.{lacks}
use xrplink.X402.{Number}
use xrplink.Prelude.{
  ℕ, String, ◌≡◌, refl, ◌⊎◌, inl, inr, Bool, not, ◌&&◌, ◌||◌, [], ◌∷◌, ◌==◌, nat_eq, if◌then◌else◌,
}

-- The operations on doubles that the formula uses. `at_most` is `<=`, `positive` is `> 0`; then
-- come `Math.ceil`, `Math.round`, the constants of the tolerances, `toFixed`, and reading it back.
pub record Arithmetic : Type 0 where
  pub plus : Number → Number → Number
  pub minus : Number → Number → Number
  pub times : Number → Number → Number
  pub divide : Number → Number → Number
  pub smaller : Number → Number → Number
  pub larger : Number → Number → Number
  pub below : Number → Number → Bool
  pub at_most : Number → Number → Bool
  pub positive : Number → Bool
  pub negative : Number → Bool
  pub ceil : Number → Number
  pub round : Number → Number
  pub absolute : Number → Number
  pub one : Number
  pub million : Number
  pub tiny : Number
  pub small : Number
  pub integer_text : Number → String
  pub to_fixed : Number → ℕ → String
  pub parse : String → Number

pub data PriceSource : Type 0 where
  ftso kraken mock : PriceSource

pub record AttestationPrice : Type 0 where
  pub usd : Number
  pub xrp_drops : String
  pub xrp : Number
  pub rlusd : String
  pub flr_cost : Number
  pub flr_usd_rate : Number
  pub xrp_usd_rate : Number
  pub floor_applied : Bool
  pub cap_applied : Bool
  pub step_applied : Bool
  pub xrp_buffer : Number
  pub price_source : PriceSource

pub record PriceInput : Type 0 where
  pub flr_usd : Number
  pub xrp_usd : Number
  pub fee_flr : Number
  pub markup : Number
  pub floor_usd : Number
  pub cap_usd : Number
  pub step_usd : Number
  pub xrp_buffer : Number
  pub price_source : PriceSource

pub data PriceError : Type 0 where
  non_positive cap_below_floor : PriceError

strip_zeros : String → String
strip_zeros String.[] = ""
strip_zeros (String.◌∷◌ c s) =
    let rest = strip_zeros s in if nat_eq (code c) b'0' && rest == "" then "" else String.◌∷◌ c rest

drop_dot : String → String
drop_dot String.[] = ""
drop_dot (String.◌∷◌ c s) =
    let rest = drop_dot s in if nat_eq (code c) b'.' && s == "" then "" else String.◌∷◌ c rest

-- `s.replace(/\.?0+$/, "") || "0"`, for a text with a dot.
unfoldable pub trim_decimal : String → String
unfolding strip_zeros drop_dot
trim_decimal s =
    if lacks b'.' s
    then s
    else (let stripped = if strip_zeros s == s then s else drop_dot (strip_zeros s) in
        if stripped == "" then "0" else stripped)

trim_test : trim_decimal "2.500000" ≡ "2.5"
unfolding trim_decimal
trim_test = refl

trim_whole : trim_decimal "10.000000" ≡ "10"
unfolding trim_decimal
trim_whole = refl

module _ (n : Arithmetic) where
  open n use {
    plus, minus, times, divide, smaller, larger, below, at_most, positive, negative, ceil, round,
    absolute, one, million, tiny, small, integer_text, to_fixed, parse,
  }

  -- Within the tolerance of a multiple, the multiple; else up.
  unfoldable pub round_up_to_step : Number → Number → Number
  round_up_to_step value step =
      let units = divide value step in
      if not (positive step)
      then value
      else if below (absolute (minus units (round units))) small
      then times (round units) step
      else times (ceil (minus units tiny)) step

  abbrev usable : PriceInput → Bool
  usable i =
      positive i.flr_usd
      && (positive i.xrp_usd
          && (positive i.fee_flr
              && (positive i.markup
                  && (positive i.floor_usd
                      && (positive i.cap_usd
                          && (positive i.step_usd && not (negative i.xrp_buffer)))))))

  -- The price before it is rounded for display.
  abbrev pub price_usd : PriceInput → Number
  price_usd i =
      let marked_up = times (times i.fee_flr i.flr_usd) i.markup in
      let clamped = smaller i.cap_usd (larger i.floor_usd marked_up) in
      smaller i.cap_usd (larger i.floor_usd (round_up_to_step clamped i.step_usd))

  unfoldable pub calculate_attestation_price : PriceInput → PriceError ⊎ AttestationPrice
  unfolding round_up_to_step
  calculate_attestation_price i =
      let marked_up = times (times i.fee_flr i.flr_usd) i.markup in
      let clamped = smaller i.cap_usd (larger i.floor_usd marked_up) in
      let stepped = round_up_to_step clamped i.step_usd in
      let xrp = times (divide (price_usd i) i.xrp_usd) (plus one i.xrp_buffer) in
      if not (usable i)
      then inl non_positive
      else if below i.cap_usd i.floor_usd
      then inl cap_below_floor
      else inr (record {
        usd = parse (to_fixed (price_usd i) 2);
        xrp_drops = integer_text (ceil (minus (times xrp million) small));
        xrp = xrp;
        rlusd = trim_decimal (to_fixed (price_usd i) 6);
        flr_cost = i.fee_flr;
        flr_usd_rate = i.flr_usd;
        xrp_usd_rate = i.xrp_usd;
        floor_applied = at_most marked_up (plus i.floor_usd tiny);
        cap_applied =
            at_most (minus i.cap_usd tiny) marked_up || below (plus i.cap_usd tiny) stepped;
        step_applied = below small (absolute (minus stepped clamped));
        xrp_buffer = i.xrp_buffer;
        price_source = i.price_source;
      })
