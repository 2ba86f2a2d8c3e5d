-- ===== src/Routes.antt =====
-- src/routes.ts: the routes on attestations, webhooks, keys and margins, after their guards. Pages and
-- documents are left out, and so are the texts of the answers.
pub mod Registration
pub mod Accounts
use Prim.Native.String.{count}
use xrplink.Dict
use xrplink.Keys.{is_api_key_hash, mask_api_key, plaintext_prefix, hash_api_key}
use xrplink.Prelude.Text.{strip_0x, upper}
use xrplink.Attest.Flow.{is_hex_tx_hash}
use xrplink.Store.{
  Attestation, AttestationStatus, ApiKey, Tier, free, Webhook, Store, Write, Outcome, returned,
  threw, StoreHealth,
}
use xrplink.Store.Attestations.{get_attestation, get_by_tx_hash}
use xrplink.Store.ApiKeys.{create_api_key, delete_api_key, list_api_keys}
use xrplink.Store.Webhooks.{register_webhook, count_webhooks_for_api_key}
use xrplink.Users.{StoredUser}
use xrplink.Views.{View, caller_owns_attestation, attestation_view_for_caller}
use xrplink.Webhooks.Url.{ParsedUrl, Resolved, UnsafeUrl, assert_safe_webhook_url}
use xrplink.Ledger.{LedgerFile, DailyMarginSummary, get_daily_margin, get_margin_summaries}
use xrplink.X402.{Number}
use xrplink.Middleware.{
  Refusal, not_found, missing_url, missing_attestation_id, webhook_limit, invalid_tx_hash,
}
use xrplink.Prelude.{
  ℕ, zero, suc, ◌*◌, String, Bool, true, false, not, ◌&&◌, ◌||◌, Option, none, some, List, [], ◌∷◌,
  ◌==◌, leb, if◌then◌else◌, is_some, get_or, truthy, any, concat,
}

-- An answer: the body of a success with its status, a refusal, or an unsafe URL.
pub data Answer {ℓ} (A : Type ℓ) : Type ℓ where
  answer : ℕ → A → Answer A
  refusal : ℕ → Refusal → Answer A
  invalid_url : UnsafeUrl → Answer A
  failed : String → Answer A

abbrev pub max_webhooks_per_key : ℕ
max_webhooks_per_key = 10

-- GET /health
unfoldable pub get_health : StoreHealth → ℕ
get_health h = if h.ok then 200 else 503

pub record PublicApiKey : Type 0 where
  pub key : String
  pub key_prefix : String
  pub key_last4 : String
  pub name : String
  pub tier : Tier
  pub active : Bool
  pub usage_count : ℕ
  pub created_at : ℕ
  pub id : Option String

unfoldable pub to_public_api_key : Bool → ApiKey → PublicApiKey
to_public_api_key include_id k =
    let prefix = get_or (truthy k.key_prefix) plaintext_prefix in
    let last4 = get_or (truthy k.key_last4) "****" in
    record {
      key = mask_api_key prefix last4;
      key_prefix = prefix;
      key_last4 = last4;
      name = k.name;
      tier = k.tier;
      active = k.active;
      usage_count = k.usage_count;
      created_at = k.created_at;
      id = if include_id && is_api_key_hash k.key then some k.key else none;
    }

module _ (sha256 utf8_of_hex : String → String) where
  abbrev shown : Option Attestation → ApiKey → Answer View
  shown found caller = elim found [
    | none ↦ refusal 404 not_found
    | some a ↦ answer 200 (attestation_view_for_caller sha256 utf8_of_hex a (some caller.key))
  ]

  -- GET /api/v1/status/:id, for the key that passed `requireApiKey`.
  unfoldable pub get_status : String → ApiKey → Store → Answer View
  get_status id caller s = shown (get_attestation id s) caller

  -- GET /api/v1/status-by-tx/:txHash
  unfoldable pub get_status_by_tx : String → ApiKey → Store → Answer View
  get_status_by_tx param caller s =
      let tx_hash = upper (strip_0x param) in
      if not (is_hex_tx_hash tx_hash)
      then refusal 400 invalid_tx_hash
      else shown (get_by_tx_hash tx_hash s) caller

pub record ReceiptRow : Type 0 where
  pub id : String
  pub tx_hash : String
  pub status : AttestationStatus
  pub created_at : ℕ
  pub error : Option String

abbrev receipt_row : Attestation → ReceiptRow
receipt_row a = record {
  id = a.id;
  tx_hash = a.tx_hash;
  status = a.status;
  created_at = a.created_at;
  error = a.error;
}

-- The loop of GET /receipts: hashes of no attestation are passed over, and `left` rows may follow.
abbrev receipt_rows : ℕ → List String → Store → List ReceiptRow
receipt_rows left [] s = []
receipt_rows zero (h ∷ hashes) s = []
receipt_rows (suc left) (h ∷ hashes) s =
    let without = receipt_rows (suc left) hashes s in
    let rest = receipt_rows left hashes s in
    elim (get_by_tx_hash h s) [ none ↦ without | some a ↦ receipt_row a ∷ rest ]

abbrev backwards : List String → List String
backwards [] = []
backwards (h ∷ hashes) = concat (backwards hashes) (h ∷ [])

unfoldable pub get_receipts : StoredUser → Store → List ReceiptRow
get_receipts user s = receipt_rows 50 (backwards (get_or user.receipt_tx_hashes [])) s

pub record DashboardStatus : Type 0 where
  pub id : String
  pub tx_hash : String
  pub round_id : Option ℕ
  pub status : AttestationStatus
  pub verified_tx_hash : Option String
  pub error : Option String

-- GET /api/v1/dashboard/status/:id: only for a transaction among the user's receipts.
unfoldable pub get_dashboard_status : StoredUser → String → Store → Answer DashboardStatus
get_dashboard_status user id s = elim (get_attestation id s) [
  | none ↦ refusal 404 not_found
  | some a ↦
      if any (λ h. h == a.tx_hash) (get_or user.receipt_tx_hashes [])
      then answer 200 (record {
        id = a.id;
        tx_hash = a.tx_hash;
        round_id = a.round_id;
        status = a.status;
        verified_tx_hash = a.verified_tx_hash;
        error = a.error;
      })
      else refusal 404 not_found
]

-- The fields of the body, if they are texts.
pub record RegisterWebhookBody : Type 0 where
  pub url : Option String
  pub attestation_id : Option String

module _ (sha256 : String → String) (parse_url : String → Option ParsedUrl) (is_ip : String → ℕ)
    (dns : String → Resolved) where
  abbrev registered : Outcome Webhook × Store → Answer Webhook × Store
  registered (returned h, s) = (answer 201 h, s)
  registered (threw m, s) = (failed m, s)

  -- The part after the URL was found safe: the owner, the limit, and the registration.
  unfoldable pub register_owned :
      Write → ℕ → String → String → String → ApiKey → Store → Answer Webhook × Store
  register_owned w now id url attestation_id caller s = elim (get_attestation attestation_id s) [
    | none ↦ (refusal 404 not_found, s)
    | some a ↦
        if not (caller_owns_attestation sha256 a (some caller.key))
        then (refusal 404 not_found, s)
        else if leb max_webhooks_per_key (count_webhooks_for_api_key sha256 caller.key s)
        then (refusal 400 webhook_limit, s)
        else registered (register_webhook sha256 w now id url attestation_id caller.key none s)
  ]

  -- POST /api/v1/webhooks, as one step: no other request runs between its reads and its write.
  unfoldable pub post_webhook :
      Write → ℕ → String → RegisterWebhookBody → ApiKey → Store → Answer Webhook × Store
  post_webhook w now id body caller s = elim (truthy body.url) [
    | none ↦ (refusal 400 missing_url, s)
    | some url ↦ elim (truthy body.attestation_id) [
      | none ↦ (refusal 400 missing_attestation_id, s)
      | some attestation_id ↦ elim (assert_safe_webhook_url parse_url is_ip dns url) [
        | some e ↦ (invalid_url e, s)
        | none ↦ register_owned w now id url attestation_id caller s
      ]
    ]
  ]

-- POST, GET and DELETE /api/v1/admin/keys, after `requireAdmin`.
module _ (sha256 : String → String) where
  unfoldable pub post_admin_key :
      Write → ℕ → String → Option String → Option Tier → Store → Outcome ApiKey × Store
  post_admin_key w now plaintext name tier s =
      create_api_key sha256 w now plaintext (get_or (truthy name) "unnamed") (get_or tier free) s

  abbrev public_keys : List ApiKey → List PublicApiKey
  public_keys [] = []
  public_keys (k ∷ keys) = to_public_api_key true k ∷ public_keys keys

  unfoldable pub get_admin_keys : Store → List PublicApiKey
  get_admin_keys s = public_keys (list_api_keys s)

  abbrev deleted : Outcome Bool × Store → Answer (Unit {0}) × Store
  deleted (threw m, s) = (failed m, s)
  deleted (returned true, s) = (answer 200 tt, s)
  deleted (returned false, s) = (refusal 404 not_found, s)

  unfoldable pub delete_admin_key : Write → String → Store → Answer (Unit {0}) × Store
  delete_admin_key w key s = deleted (delete_api_key sha256 w key s)

pub data Margins : Type 0 where
  days : List DailyMarginSummary → Margins
  one_day : DailyMarginSummary → Margins

-- GET /api/v1/admin/x402-margin
unfoldable pub get_x402_margin :
    (Number → Number → Number)
    → (Number → Number → Number)
    → (Number → Number)
    → Number
    → String
    → Option String
    → Option String
    → Option String
    → LedgerFile
    → Margins
get_x402_margin plus minus round_usd zero_usd today date from_date to_date file =
    if is_some (truthy from_date) || is_some (truthy to_date)
    then days (get_margin_summaries plus minus round_usd zero_usd today from_date to_date file)
    else one_day (get_daily_margin plus minus round_usd zero_usd today date file)
