-- ===== src/X402.antt =====
-- src/x402-service.ts: pay-per-attestation quotes and payments. This file has the records, the state
-- and what the code takes from outside; the parts of the service are in the modules below.
pub mod Quotes
pub mod Settlement
pub mod Facilitator
pub mod Payment
pub mod Marks
use xrplink.Prelude.{
  ℕ, ◌+◌, ◌*◌, ◌/◌, max, String, Bool, false, not, ◌&&◌, ◌||◌, Option, none, some, List, [], ◌∷◌,
  ◌==◌, ltb, leb, nat_eq, if◌then◌else◌,
}
use xrplink.Prelude.Text.{is_digit, all_chars}
use xrplink.Dict
use xrplink.Dict.{Dict}
use xrplink.Xrpl.{XrplLookup}
use Prim.Native.Char.{code}
use Prim.Native.String.{count}

-- A JavaScript number, by the bits of its double. The arithmetic on it is a parameter.
pub data Number : Type 0 where
  bits : ℕ → Number

pub record AttestationPrice : Type 0 where
  pub usd : Number
  pub flr_cost : Number
  pub flr_usd_rate : Number
  pub xrp_drops : String
  pub rlusd : String

-- The fields that vary: `scheme`, `areFeesSponsored`, `assetTransferMethod`, `sourceTag` and `resource`
-- are constants of the source.
pub record Requirements : Type 0 where
  pub network : String
  pub asset : String
  pub pay_to : String
  pub amount : String
  pub max_timeout_seconds : ℕ
  pub invoice_id : String
  pub issuer : Option String
  pub tx_hash : String

pub record StoredQuote : Type 0 where
  pub invoice_id : String
  pub tx_hash : String
  pub accepts : List Requirements
  pub price : AttestationPrice
  pub created_at : ℕ

pub data PaymentStatus : Type 0 where
  quoted settled fdc_ok fdc_failed : PaymentStatus

pub record PaymentRecord : Type 0 where
  pub invoice_id : String
  pub tx_hash : String
  pub status : PaymentStatus
  pub settlement_tx : Option String
  pub payer : Option String
  pub asset : Option String
  pub amount : Option String
  pub issuer : Option String
  pub created_at : ℕ
  pub updated_at : ℕ

-- `quotes`, `payments`, `usedPayloadHashes`; also the contents of `x402-state.json`.
pub record Memory : Type 0 where
  pub quotes : Dict StoredQuote
  pub payments : Dict PaymentRecord
  pub used_payload_hashes : List String

-- The fields of a decoded PAYMENT-SIGNATURE that are read, where they are texts.
pub record Payload : Type 0 where
  pub accepted_invoice : Option String
  pub extra_invoice : Option String
  pub invoice : Option String
  pub accepted_asset : Option String
  pub asset : Option String
  pub price_asset : Option String

-- A settlement event of src/x402-ledger.ts, as `recordX402Settlement` appends it.
pub record SettledEvent : Type 0 where
  pub invoice_id : String
  pub time : ℕ
  pub asset : String
  pub amount : String
  pub usd : Number
  pub flr_usd : Number
  pub fee_flr : Number
  pub flr_cost_usd : Number
  pub settlement_tx : Option String

-- A request that was sent to the facilitator.
pub data FacilitatorCall : Type 0 where
  verify_call settle_call : Payload → Requirements → FacilitatorCall

-- `sent` is no state of the program: it records what went out to the facilitator, oldest first.
pub record State : Type 0 where
  pub memory : Memory
  pub open memory use *
  pub disk : Memory
  pub ledger : List SettledEvent
  pub sent : List FacilitatorCall

-- How a write of the state file ends.
pub data Save : Type 0 where
  saved : Save
  save_failed : String → Save

-- A JSON value where the code asks for `true`, `false` or `"true"`.
pub data Flag : Type 0 where
  absent yes_bool no_bool yes_text other : Flag

pub record VerifyReply : Type 0 where
  pub http_ok : Bool
  pub is_valid : Flag
  pub valid : Flag
  pub invalid_reason : Option String
  pub error_reason : Option String
  pub error : Option String

pub record SettleReply : Type 0 where
  pub http_ok : Bool
  pub success : Flag
  pub transaction : Option String
  pub payer : Option String
  pub invalid_reason : Option String
  pub error_reason : Option String
  pub error : Option String

-- The environment variables that the service reads.
pub record Config : Type 0 where
  pub enabled : Bool
  pub pay_to : String
  pub rlusd_issuer : String
  pub network : String
  pub quote_ttl_ms : ℕ

-- What is not this program: hashes, text decoding, floating-point comparison and product, the
-- facilitator (`none` is a request that throws) and the ledger look-up.
pub record Outside : Type 0 where
  pub decode : String → Option Payload
  pub payload_fingerprint : String → String
  pub invoice_binding_hash : String → String
  pub memo_text : String → String
  pub covers : String → String → Bool
  pub times : Number → Number → Number
  pub verify : Payload → Requirements → Option VerifyReply
  pub settle : Payload → Requirements → Option SettleReply
  pub lookup : String → XrplLookup

abbrev pub rlusd_hex : String
rlusd_hex = "524C555344000000000000000000000000000000"

abbrev is_base58 : ℕ → Bool
is_base58 c =
    (is_digit c && not (nat_eq c b'0'))
    || ((leb b'A' c && leb c b'Z' && not (nat_eq c b'I') && not (nat_eq c b'O'))
        || (leb b'a' c && leb c b'z' && not (nat_eq c b'l')))

-- `XRPL_ADDRESS_RE`
unfoldable pub is_xrpl_address : String → Bool
is_xrpl_address String.[] = false
is_xrpl_address (String.◌∷◌ c s) =
    nat_eq (code c) b'r' && (all_chars is_base58 s && (leb 24 (count s) && leb (count s) 34))

-- `getPayToAddress`, for a value that is already trimmed.
unfoldable pub get_pay_to_address : Config → String
unfolding is_xrpl_address
get_pay_to_address cfg = if is_xrpl_address cfg.pay_to then cfg.pay_to else ""

unfoldable pub is_x402_configured : Config → Bool
unfolding get_pay_to_address
is_x402_configured cfg = cfg.enabled && not (get_pay_to_address cfg == "")

-- `maxTimeoutSeconds`
unfoldable pub max_timeout_seconds : Config → ℕ
max_timeout_seconds cfg = max 1 ((cfg.quote_ttl_ms + 999) / 1000)

abbrev pub is_expired : Config → ℕ → StoredQuote → Bool
is_expired cfg now q = ltb (q.created_at + cfg.quote_ttl_ms) now

-- `pruneQuotes`
unfoldable pub prune_quotes : Config → ℕ → Dict StoredQuote → Dict StoredQuote
prune_quotes cfg now [] = []
prune_quotes cfg now ((id, q) ∷ quotes) =
    let rest = prune_quotes cfg now quotes in if is_expired cfg now q then rest else (id, q) ∷ rest

abbrev pub pruned : Config → ℕ → State → State
pruned cfg now s = record s { memory = record s.memory { quotes = prune_quotes cfg now s.quotes } }

-- `persistUnlocked`: the quotes are pruned, then the file is written.
unfoldable pub persist_unlocked : Config → ℕ → Save → State → Option String × State
persist_unlocked cfg now saved s = let t = pruned cfg now s in (none, record t { disk = t.memory })
persist_unlocked cfg now (save_failed message) s = (some message, pruned cfg now s)

-- Whether `loadState` can read and parse the state file at the restart.
pub data StateRead : Type 0 where
  intact corrupt : StateRead

abbrev pub empty_memory : Memory
empty_memory = record { quotes = []; payments = []; used_payload_hashes = [] }

-- A restart: memory is dropped and read again from the file, then pruned. A file that cannot be read
-- or parsed counts as empty, and nothing brings its rows back.
unfoldable pub reload : Config → StateRead → ℕ → State → State
reload cfg intact now s = pruned cfg now (record s { memory = s.disk })
reload cfg corrupt now s = record s { memory = empty_memory; disk = empty_memory }
