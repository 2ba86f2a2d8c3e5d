-- ===== src/X402/Facilitator.antt =====
-- src/x402-service.ts: what a payment is answered, what the facilitator's replies mean, and the records
-- that a settlement leaves.
use xrplink.Prelude.{
  ℕ, String, Bool, true, false, not, ◌||◌, Option, none, some, ◌==◌, ltb, if◌then◌else◌, get_or,
  or_else, truthy, find,
}
use xrplink.X402.{
  AttestationPrice, Requirements, StoredQuote, settled, PaymentRecord, SettledEvent, Flag, yes_bool,
  no_bool, yes_text, VerifyReply, SettleReply, Config, Outside, rlusd_hex, get_pay_to_address,
  max_timeout_seconds,
}
use xrplink.X402.Settlement.{LedgerError}

-- `network` and `errorReason` of a response only go back to the caller.
pub record SettlementResponse : Type 0 where
  pub transaction : Option String
  pub payer : Option String

-- One constructor for each message; `facilitator` carries the facilitator's own.
pub data PaymentError : Type 0 where
  invalid_encoding missing_invoice_id bound_elsewhere unknown_or_expired : PaymentError
  asset_not_accepted : PaymentError
  facilitator : String → PaymentError
  ledger : LedgerError → PaymentError

pub data ProcessResult : Type 0 where
  settled_now : String → SettlementResponse → Requirements → ProcessResult
  retry_fdc : String → SettlementResponse → Option Requirements → ProcessResult
  replay : String → ProcessResult
  failed : PaymentError → ProcessResult

abbrev is_yes : Flag → Bool
is_yes yes_bool = true
is_yes _ = false

abbrev is_yes_text : Flag → Bool
is_yes_text yes_text = true
is_yes_text _ = false

abbrev is_no : Flag → Bool
is_no no_bool = true
is_no _ = false

-- `a || b || c || d` over texts
abbrev message : Option String → Option String → Option String → String → String
message a b c d = get_or (or_else (truthy a) (or_else (truthy b) (truthy c))) d

-- `verifyWithFacilitator`: `none` is a valid payment.
unfoldable pub verify_error : VerifyReply → Option PaymentError
verify_error r =
    if not r.http_ok || not (is_yes r.is_valid || (is_yes r.valid || is_yes_text r.is_valid))
    then some (
        facilitator (message r.invalid_reason r.error_reason r.error "Payment verification failed"))
    else none

-- `settleWithFacilitator`
unfoldable pub settle_error : SettleReply → Option PaymentError
settle_error r =
    if not r.http_ok || is_no r.success
    then some (facilitator (message r.error_reason r.error r.invalid_reason "Settlement failed"))
    else none

-- `retryRequirements`
unfoldable pub retry_requirements :
    Config → PaymentRecord → Option StoredQuote → Option Requirements
unfolding get_pay_to_address max_timeout_seconds
retry_requirements cfg rec quote =
    let from_quote : Option Requirements = elim quote [
      | none ↦ none
      | some q ↦
          find (λ a. elim rec.asset [ none ↦ false | some asset ↦ a.asset == asset ]) q.accepts
    ] in
    elim (truthy rec.asset) [
      | none ↦ from_quote
      | some asset ↦ elim (truthy rec.amount) [
        | none ↦ from_quote
        | some amount ↦ some (record {
          network = cfg.network;
          asset = asset;
          pay_to = get_pay_to_address cfg;
          amount = amount;
          max_timeout_seconds = max_timeout_seconds cfg;
          invoice_id = rec.invoice_id;
          issuer = rec.issuer;
          tx_hash = rec.tx_hash;
        })
      ]
    ]

abbrev pub settled_record :
    String → String → SettleReply → Requirements → Option PaymentRecord → ℕ → PaymentRecord
settled_record invoice_id tx_hash reply requirements rec later = record {
  invoice_id = invoice_id;
  tx_hash = tx_hash;
  status = settled;
  settlement_tx = reply.transaction;
  payer = reply.payer;
  asset = some requirements.asset;
  amount = some requirements.amount;
  issuer = requirements.issuer;
  created_at = elim rec [
    | none ↦ later
    | some r ↦ if ltb 0 r.created_at then r.created_at else later
  ];
  updated_at = later;
}

abbrev pub settled_event :
    Outside → String → ℕ → Requirements → AttestationPrice → SettleReply → SettledEvent
settled_event o invoice_id later requirements price reply = record {
  invoice_id = invoice_id;
  time = later;
  asset = if requirements.asset == rlusd_hex then "RLUSD" else requirements.asset;
  amount = requirements.amount;
  usd = price.usd;
  flr_usd = price.flr_usd_rate;
  fee_flr = price.flr_cost;
  flr_cost_usd = o.times price.flr_cost price.flr_usd_rate;
  settlement_tx = reply.transaction;
}
