-- ===== src/Examples.antt =====
-- Concrete runs: the data that the runs below share.
mod Payments
mod Stores
mod Deployments
mod Guards
mod Prices
mod Webhooks
mod Accounts
mod Requests
mod Subscriptions
mod Polls
mod Migrations
mod Locks
mod Clients
use xrplink.Prelude.{String, true, none, some, [], ◌∷◌}
use xrplink.X402.{
  Number, bits, AttestationPrice, Requirements, StoredQuote, Payload, Memory, State, VerifyReply,
  SettleReply, absent, yes_bool, Config, Outside, saved,
}
use xrplink.Xrpl.{TxResult, Meta, native, found, not_found}
use xrplink.X402.Payment.{Run}
use xrplink.X402.Facilitator.{SettlementResponse}

-- The attested transaction.
abbrev pub attested_hash : String
attested_hash = "388076B7245A60A13D6A764C8D0B5919F8A77E04E720C32CA1E30E9B7A291F22"

abbrev pub pay_to : String
pay_to = "rPayToPayToPayToPayToPayTo1"

abbrev pub config : Config
config = record {
  enabled = true;
  pay_to = pay_to;
  rlusd_issuer = "";
  network = "xrpl:0";
  quote_ttl_ms = 600000;
}

abbrev pub price : AttestationPrice
price = record {
  usd = bits 1;
  flr_cost = bits 2;
  flr_usd_rate = bits 3;
  xrp_drops = "250000";
  rlusd = "0.61";
}

abbrev pub xrp_requirements : Requirements
xrp_requirements = record {
  network = "xrpl:0";
  asset = "XRP";
  pay_to = pay_to;
  amount = "250000";
  max_timeout_seconds = 600;
  invoice_id = "inv1";
  issuer = none;
  tx_hash = attested_hash;
}

abbrev pub quote : StoredQuote
quote = record {
  invoice_id = "inv1";
  tx_hash = attested_hash;
  accepts = xrp_requirements ∷ [];
  price = price;
  created_at = 1000;
}

abbrev pub payload : Payload
payload = record {
  accepted_invoice = some "inv1";
  extra_invoice = none;
  invoice = none;
  accepted_asset = some "XRP";
  asset = none;
  price_asset = none;
}

-- The payment on the ledger.
abbrev pub payment_tx : TxResult
payment_tx = record {
  account = "rPayer";
  destination = some pay_to;
  amount = some (native "250000");
  flags = some 0;
  invoice_id = some "ab12";
  memos = [];
  transaction_type = "Payment";
  meta = none;
  date = some 800000000;
  validated = some true;
}

abbrev pub verify_reply : VerifyReply
verify_reply = record {
  http_ok = true;
  is_valid = yes_bool;
  valid = absent;
  invalid_reason = none;
  error_reason = none;
  error = none;
}

abbrev pub settle_reply : SettleReply
settle_reply = record {
  http_ok = true;
  success = yes_bool;
  transaction = some "SETTLE";
  payer = some "rPayer";
  invalid_reason = none;
  error_reason = none;
  error = none;
}

-- A facilitator that accepts, and a ledger that shows the payment. The hashes are stand-ins.
abbrev pub outside : Outside
outside = record {
  decode = λ signature. some payload;
  payload_fingerprint = λ signature. signature;
  invoice_binding_hash = λ id. "AB12";
  memo_text = λ memo. memo;
  covers = λ value quoted. true;
  times = λ a b. a;
  verify = λ p q. some verify_reply;
  settle = λ p q. some settle_reply;
  lookup = λ hash. found payment_tx;
}

abbrev pub run : Run
run = record { now = 2000; later = 3000; save = saved; ledger_save = saved }

abbrev pub quoted_memory : Memory
quoted_memory = record { quotes = ("inv1", quote) ∷ []; payments = []; used_payload_hashes = [] }

-- A quote is out; nothing is paid.
abbrev pub quoted_state : State
quoted_state = record { memory = quoted_memory; disk = quoted_memory; ledger = []; sent = [] }

abbrev pub response : SettlementResponse
response = record { transaction = some "SETTLE"; payer = some "rPayer" }
