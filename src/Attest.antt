-- ===== src/Attest.antt =====
-- src/attest.ts: attesting an XRP payment, for a key inside its quota or against an x402 payment. One
-- request runs from its start to its answer; what it calls outside is a field of `Env`.
pub mod Effects
pub mod Submit
pub mod Access
pub mod Flow
pub mod Poll
use xrplink.Prelude.{ℕ, String, Bool, true, false, Option, none}
use xrplink.Store.{
  Tier, AttestationStatus, ApiKey, ProofResponse, Store, Write, Outcome, returned, threw,
}
use xrplink.Users.{UserStore}
use xrplink.Xrpl.{PreflightCode}
use xrplink.X402.{AttestationPrice, State, Save, StoredQuote, Config, Outside}
use xrplink.X402.Payment.{Run}
use xrplink.X402.Facilitator.{SettlementResponse, PaymentError}
use xrplink.Quota.{BillingPeriod, QuotaExceededError}

-- What a request changes: the store, the accounts and the x402 service.
pub record World : Type 0 where
  pub store : Store
  pub users : UserStore
  pub x402 : State

-- A thrown value. `verifier` is set for a `FdcVerifierError`, to its HTTP status.
pub record Failure : Type 0 where
  pub message : String
  pub verifier : Option (Option ℕ)

pub data Attempt {ℓ} (A : Type ℓ) : Type ℓ where
  done : A → Attempt A
  raised : Failure → Attempt A

abbrev pub plain : String → Failure
plain m = record { message = m; verifier = none }

-- The places of the code that write the store.
pub data Site : Type 0 where
  verified_create verified_update increment reserve release create encoded round failing : Site

-- One request's surroundings: clocks, configuration, fresh identifiers, the fate of each write, and
-- the services. `is_already_verified` is `none` where the check throws.
pub record Env : Type 0 where
  pub now : ℕ
  pub sha256 : String → String
  pub fate : Site → Write
  pub quote_fate : Save
  pub mark_fate : Save
  pub attestation_id : String
  pub invoice_id : String
  pub is_mainnet : Bool
  pub has_verifier_contract : Bool
  pub limits : Tier → ℕ
  pub price : Option AttestationPrice
  pub x402_config : Config
  pub outside : Outside
  pub run : Run
  pub is_already_verified : String → Option Bool
  pub prepare_request : String → Attempt String
  pub submit_request : String → Attempt ℕ

pub record Request : Type 0 where
  pub tx_hash : String
  pub api_key_header : Option String
  pub api_key_record : Option ApiKey
  pub payment_signature : Option String

-- The body of a 200 or 202 answer, and the settlement in its header.
pub record AttestSuccess : Type 0 where
  pub http_status : ℕ
  pub id : String
  pub tx_hash : String
  pub round_id : Option ℕ
  pub status : AttestationStatus
  pub cached : Bool
  pub x402 : Bool
  pub payment_response : Option SettlementResponse

-- The invoice that may be retried without a second charge, where there is one.
abbrev pub Retry : Type 0
Retry = Option String

pub data AttestError : Type 0 where
  missing_tx_hash invalid_tx_hash x402_unavailable invalid_api_key missing_api_key : AttestError
  price_unavailable : String → AttestError
  quota_exceeded : QuotaExceededError → AttestError
  preflight_failed : PreflightCode → AttestError
  payment_replay : String → AttestError
  payment_failed : PaymentError → AttestError
  verifier_error submit_failed : String → Retry → AttestError

pub data AttestResult : Type 0 where
  ok : AttestSuccess → AttestResult
  payment_required : StoredQuote → Option QuotaExceededError → AttestResult
  error : ℕ → AttestError → AttestResult

abbrev pub is_ok : AttestResult → Bool
is_ok (ok s) = true
is_ok _ = false

-- A piece of the request: what it gives or throws, and the world after it.
abbrev pub Flow {ℓ} : Type ℓ → Type ℓ
Flow A = World → Attempt A × World

infixl 5 ◌>>=◌
unfoldable pub ◌>>=◌ {ℓ κ} : {A : Type ℓ} {B : Type κ} → Flow A → (A → Flow B) → Flow B
(m >>= f) w = let (r, v) = m w in elim r [ done a ↦ f a v | raised e ↦ (raised e, v) ]

abbrev pub pure {ℓ} : {A : Type ℓ} → A → Flow A
pure a w = (done a, w)

-- `try { m } catch (err) { handler(err) }`
unfoldable pub catching {ℓ} : {A : Type ℓ} → Flow A → (Failure → Flow A) → Flow A
catching m handler w = let (r, v) = m w in elim r [ done a ↦ (done a, v) | raised e ↦ handler e v ]

-- An operation of the store, and of the x402 service, as a piece of the request.
unfoldable pub on_store {ℓ} : {A : Type ℓ} → (Store → Outcome A × Store) → Flow A
on_store f w =
    let (r, s) = f w.store in
    ((elim r [ returned a ↦ done a | threw m ↦ raised (plain m) ]), record w { store = s })

unfoldable pub on_x402 {ℓ} : {A : Type ℓ} → (State → Outcome A × State) → Flow A
on_x402 f w =
    let (r, s) = f w.x402 in
    ((elim r [ returned a ↦ done a | threw m ↦ raised (plain m) ]), record w { x402 = s })
