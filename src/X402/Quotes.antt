-- ===== src/X402/Quotes.antt =====
-- src/x402-service.ts: making a 402 quote, finding it again, and matching a payload to it.
pub mod Laws
use xrplink.Prelude.{
  ℕ, String, Option, none, some, List, [], ◌∷◌, ◌==◌, if◌then◌else◌, or_else, truthy, find,
}
use xrplink.Prelude.Text.{upper}
use xrplink.Dict
use xrplink.Store.{Outcome, returned, threw}
use xrplink.X402.{
  AttestationPrice, Requirements, StoredQuote, quoted, PaymentRecord, Payload, State, Save, Config,
  rlusd_hex, is_xrpl_address, get_pay_to_address, max_timeout_seconds, is_expired, pruned,
  persist_unlocked,
}

abbrev requirements_for : Config → String → String → Option String → String → String → Requirements
requirements_for cfg asset amount issuer invoice_id tx_hash = record {
  network = cfg.network;
  asset = asset;
  pay_to = get_pay_to_address cfg;
  amount = amount;
  max_timeout_seconds = max_timeout_seconds cfg;
  invoice_id = invoice_id;
  issuer = issuer;
  tx_hash = tx_hash;
}

-- The `accepts` list: RLUSD if the issuer is an address, then XRP.
unfoldable pub accepts_for : Config → AttestationPrice → String → String → List Requirements
unfolding is_xrpl_address
accepts_for cfg price invoice_id tx_hash =
    let xrp = requirements_for cfg "XRP" price.xrp_drops none invoice_id tx_hash in
    if is_xrpl_address cfg.rlusd_issuer
    then requirements_for cfg rlusd_hex price.rlusd (some cfg.rlusd_issuer) invoice_id tx_hash
      ∷ (xrp ∷ [])
    else xrp ∷ []

abbrev pub quoted_record : String → String → ℕ → PaymentRecord
quoted_record invoice_id tx_hash now = record {
  invoice_id = invoice_id;
  tx_hash = tx_hash;
  status = quoted;
  settlement_tx = none;
  payer = none;
  asset = none;
  amount = none;
  issuer = none;
  created_at = now;
  updated_at = now;
}

-- `buildPaymentRequired`. `price` is what `getAttestationPrice` gives (`none`: it throws), `invoice_id`
-- the identifier that is generated.
unfoldable pub build_payment_required :
    Config
    → Option AttestationPrice
    → String
    → String
    → ℕ
    → Save
    → State
    → Outcome StoredQuote × State
build_payment_required cfg price invoice_id tx_hash now save s =
    if get_pay_to_address cfg == ""
    then (threw "X402_PAY_TO_ADDRESS is not configured", s)
    else elim price [
      | none ↦ (threw "Price feed unavailable", s)
      | some p ↦
          let quote : StoredQuote = record {
            invoice_id = invoice_id;
            tx_hash = tx_hash;
            accepts = accepts_for cfg p invoice_id tx_hash;
            price = p;
            created_at = now;
          } in
          let (failure, t) = persist_unlocked cfg now save (record s {
            memory = record s.memory {
              quotes = Dict.set s.quotes invoice_id quote;
              payments = Dict.set s.payments invoice_id (quoted_record invoice_id tx_hash now);
            };
          }) in
          ((elim failure [ none ↦ returned quote | some message ↦ threw message ]), t)
    ]

-- `a || b || c || null` over optional texts.
abbrev pub first_truthy : Option String → Option String → Option String → Option String
first_truthy a b c = or_else (truthy a) (or_else (truthy b) (truthy c))

unfoldable pub extract_invoice_id : Payload → Option String
extract_invoice_id p = first_truthy p.accepted_invoice p.extra_invoice p.invoice

-- `getQuote`: expired quotes are dropped from memory on the way.
unfoldable pub get_quote : Config → String → ℕ → State → Option StoredQuote × State
get_quote cfg invoice_id now s =
    let t = pruned cfg now s in
    (
      elim (Dict.get t.quotes invoice_id) [
        | none ↦ none
        | some q ↦ if is_expired cfg now q then none else some q
      ],
      t,
    )

-- `accepts.find((a) => a.asset.toUpperCase() === asset.toUpperCase())`
abbrev pub of_asset : String → List Requirements → Option Requirements
of_asset asset accepts = find (λ a. upper a.asset == upper asset) accepts

unfoldable pub match_accept : Payload → List Requirements → Option Requirements
unfolding upper
match_accept p accepts =
    let second : Option Requirements = elim (or_else (truthy p.asset) (truthy p.price_asset)) [
      | none ↦ none
      | some asset ↦ of_asset asset accepts
    ] in
    elim (truthy p.accepted_asset) [
      | none ↦ second
      | some asset ↦ or_else (of_asset asset accepts) second
    ]
