-- ===== src/Xrpl.antt =====
-- src/xrpl-tx.ts: looking a transaction up over the XRPL endpoints, and the preflight of a hash that
-- the Flare verifier could not prove. What an endpoint answers is a parameter.
pub mod Lookup
pub mod Preflight
use xrplink.Prelude.{
  ℕ, ◌+◌, ◌/◌, String, Bool, true, false, not, Option, none, some, List, [], ◌∷◌, ◌==◌, ltb,
  if◌then◌else◌, is_some,
}
use xrplink.Prelude.Text.{decimal}

pub record IssuedAmount : Type 0 where
  pub currency : Option String
  pub issuer : Option String
  pub value : Option String

-- `string | XrplIssuedAmount`
pub data Amount : Type 0 where
  native : String → Amount
  issued : IssuedAmount → Amount

pub record Meta : Type 0 where
  pub transaction_result : Option String
  pub delivered_amount : Option Amount
  pub delivered_amount_pascal : Option Amount

-- `memos` holds the `MemoData` of each memo.
pub record TxResult : Type 0 where
  pub account : String
  pub destination : Option String
  pub amount : Option Amount
  pub flags : Option ℕ
  pub invoice_id : Option String
  pub memos : List (Option String)
  pub transaction_type : String
  pub meta : Option Meta
  pub date : Option ℕ
  pub validated : Option Bool

pub data XrplLookup : Type 0 where
  found : TxResult → XrplLookup
  not_found unavailable : XrplLookup

-- What one endpoint does with the request: a transaction with an `Account`, `txnNotFound`, any other
-- body, or a throw (network, timeout, not JSON).
pub data EndpointAnswer : Type 0 where
  has_account : TxResult → EndpointAnswer
  txn_not_found other_body fails : EndpointAnswer

-- The loop of `lookupXrplTx` over the endpoints that are left, with `sawNotFound` and whether
-- `lastError` is set.
lookup_from : List EndpointAnswer → Bool → Bool → XrplLookup
lookup_from [] saw_not_found last_error =
    if saw_not_found then not_found else if last_error then unavailable else not_found
lookup_from (has_account tx ∷ rest) saw_not_found last_error = found tx
lookup_from (txn_not_found ∷ rest) saw_not_found last_error = lookup_from rest true last_error
lookup_from (other_body ∷ rest) saw_not_found last_error = lookup_from rest saw_not_found last_error
lookup_from (fails ∷ rest) saw_not_found last_error = lookup_from rest saw_not_found true

-- `answers` are those of the endpoints in their order, each used only if it is asked.
unfoldable pub lookup_xrpl_tx : List EndpointAnswer → XrplLookup
unfolding lookup_from
lookup_xrpl_tx answers = lookup_from answers false false

unfoldable pub fetch_xrpl_tx : List EndpointAnswer → Option TxResult
unfolding lookup_xrpl_tx
fetch_xrpl_tx answers = elim (lookup_xrpl_tx answers) [ found tx ↦ some tx | _ ↦ none ]

abbrev pub ripple_epoch : ℕ
ripple_epoch = 946684800

-- `FDC_XRP_PAYMENT_LUT_LIMIT_SECONDS`
abbrev pub lut_limit_seconds : ℕ
lut_limit_seconds = 0x127500

abbrev pub lut_limit_days : ℕ
lut_limit_days = lut_limit_seconds / 86400

-- `TF_PARTIAL_PAYMENT`
abbrev pub tf_partial_payment : ℕ
tf_partial_payment = 0x20000

unfoldable pub xrpl_close_time_unix : ℕ → ℕ
xrpl_close_time_unix ripple_date = ripple_epoch + ripple_date

-- `floor(now / 1000)` minus the close time, which may be later than the clock: the pair of what is
-- subtracted from and what is subtracted stands for the signed difference.
pub record AgeSeconds : Type 0 where
  pub now_sec : ℕ
  pub close_sec : ℕ

unfoldable pub xrpl_age_seconds : ℕ → ℕ → AgeSeconds
unfolding xrpl_close_time_unix
xrpl_age_seconds ripple_date now = record {
  now_sec = now / 1000;
  close_sec = xrpl_close_time_unix ripple_date;
}

-- `ageSeconds > n`
abbrev pub is_older : AgeSeconds → ℕ → Bool
is_older age n = ltb (n + age.close_sec) age.now_sec

-- `/^[0-9]+$/` on a native amount.
unfoldable pub is_native_xrp_amount : Option Amount → Bool
unfolding decimal
is_native_xrp_amount none = false
is_native_xrp_amount (some (issued a)) = false
is_native_xrp_amount (some (native drops)) = is_some (decimal drops)

pub data PreflightCode : Type 0 where
  tx_not_on_ledger tx_not_payment tx_not_native_xrp tx_too_old : PreflightCode

-- A refusal names the HTTP status with the code.
pub data PreflightResult : Type 0 where
  passes : PreflightResult
  fails_with : PreflightCode → ℕ → PreflightResult

preflight_age : Option ℕ → ℕ → PreflightResult
unfolding xrpl_age_seconds
preflight_age none now = passes
preflight_age (some date) now =
    if is_older (xrpl_age_seconds date now) lut_limit_seconds
    then fails_with tx_too_old 400
    else passes

preflight_tx : TxResult → ℕ → PreflightResult
unfolding preflight_age is_native_xrp_amount
preflight_tx tx now =
    if not (tx.transaction_type == "Payment")
    then fails_with tx_not_payment 400
    else if not (is_native_xrp_amount tx.amount)
    then fails_with tx_not_native_xrp 400
    else preflight_age tx.date now

unfoldable pub preflight_xrpl_payment : XrplLookup → ℕ → PreflightResult
unfolding preflight_tx
preflight_xrpl_payment unavailable now = passes
preflight_xrpl_payment not_found now = fails_with tx_not_on_ledger 404
preflight_xrpl_payment (found tx) now = preflight_tx tx now
