-- ===== src/Examples/Webhooks.antt =====
-- Runs of src/webhook-url.ts, src/webhook-service.ts, src/attestation-view.ts and the webhook route of
-- src/routes.ts.
use xrplink.Dict
use xrplink.Keys.{hash_api_key, is_plaintext_api_key, is_api_key_hash, api_key_lookup_id}
use xrplink.Prelude.Split.{split, ends_with}
use xrplink.Prelude.Text.{lower, decimal, decimal_text}
use xrplink.Store.{Attestation, ApiKey, Webhook, Store, written, commit, verified, free}
use xrplink.Store.Attestations.{get_attestation, new_attestation}
use xrplink.Store.Webhooks.{register_webhook, count_webhooks_for_api_key}
use xrplink.Views.{McpContext, caller_owns_attestation, attestation_view_for_mcp}
use xrplink.Views.Redaction.{redact, attestation_view_for_mcp-redact}
use xrplink.Webhooks.Addresses.{
  octet, octets, parse_canonical_ipv4, parse_decimal_or_hex_ipv4, is_blocked_ip_address,
  expand_ipv4_mapped, is_private_ipv4,
}
use xrplink.Webhooks.Addresses.Ranges.{
  missed_blocks, is_in, is_reserved, dotted, is_private_ipv4-eq-is_reserved,
}
use xrplink.Webhooks.Url.{
  ParsedUrl, Resolved, addresses, assert_safe_webhook_url, parse_https_url, host_error,
  resolve_addresses, strip_trailing_dots, is_blocked_hostname, starts_like_ipv4,
}
use xrplink.Webhooks.Delivery.{
  WebhookPayload, Attempt, answered, deliver_webhooks, validate_webhook_signature,
}
use xrplink.Webhooks.Delivery.Retries.{IsAllowed, deliver_webhooks-IsAllowed}
use xrplink.Webhooks.Delivery.Signature.{IsWritten, validate_webhook_signature_iff}
use xrplink.Routes.{RegisterWebhookBody, post_webhook, register_owned}
use xrplink.Routes.Registration.{IsRegistered, post_webhook-IsRegistered}
use xrplink.Examples.Stores.{empty_store, digest, sha256}
use xrplink.Prelude.{
  not, ◌&&◌, ℕ, ◌+◌, ◌*◌, ◌≤◌, String, ◌++◌, ◌≡◌, refl, ◌↔◌, true, Option, none, some, [], ◌∷◌,
  arith, ◌==◌, nat_eq, if◌then◌else◌, All,
}

private_example : is_private_ipv4 (dotted 192 0 2 1) ≡ (
    is_reserved (192 * 16777216 + 0 * 65536 + 2 * 256 + 1)
    && not (is_in missed_blocks (192 * 16777216 + 0 * 65536 + 2 * 256 + 1)))
private_example =
    is_private_ipv4-eq-is_reserved 192 0 2 1 (omega arith) (omega arith) (omega arith) (omega arith)

abbrev hmac : String → String → String
hmac secret message = secret ++ message

validate_example :
    (validate_webhook_signature hmac 1000 "{}" "sha256=k900.{}" 900 "k" 300 ≡ true) ↔ (
      (1000 ≤ 900 + 300)
      × (900 ≤ 1000 + 300)
      × IsWritten (hmac "k" (decimal_text 900 ++ ("." ++ "{}"))) "sha256=k900.{}")
validate_example = validate_webhook_signature_iff hmac 1000 "{}" "sha256=k900.{}" 900 "k" 300

abbrev owned_row : Attestation
owned_row = record (new_attestation 5 "a1" "AB" (some digest)) { status = verified }

abbrev hook : Webhook
hook = record {
  id = "w1";
  url = "https://hooks.example.com/x";
  attestation_id = some "a1";
  api_key_id = some digest;
  secret = none;
  created_at = 6;
  active = some true;
}

abbrev hook_store : Store
hook_store = record empty_store {
  data_in_memory = record empty_store.data_in_memory {
    attestations = ("a1", owned_row) ∷ [];
    webhooks = ("w1", hook) ∷ [];
  };
}

abbrev parse_url : String → Option ParsedUrl
parse_url url =
    some
      (record { protocol = "https:"; username = ""; password = ""; hostname = "hooks.example.com" })

abbrev is_ip : String → ℕ
is_ip s = if s == "93.184.216.34" then 4 else 0

abbrev dns : String → Resolved
dns host = addresses ("93.184.216.34" ∷ [])

-- The first attempt is broken by the receiver, and the next ones are answered.
abbrev net : String → ℕ → Attempt
net id n = record {
  dns = dns;
  now = n * 2000;
  reply = answered (if nat_eq n 1 then 503 else 200) "";
}

abbrev to_json : WebhookPayload → String
to_json p = p.id

deliver_example :
    All
      (IsAllowed parse_url is_ip hmac to_json "" sha256 net owned_row "a1")
      (deliver_webhooks parse_url is_ip hmac to_json "" sha256 net "a1" hook_store)
unfolding get_attestation Dict.get
deliver_example =
    deliver_webhooks-IsAllowed parse_url is_ip hmac to_json "" sha256 net "a1" hook_store owned_row
      refl

abbrev stranger : McpContext
stranger = record { http = true; api_key_record = none; api_key = some "sk_live_other" }

redact_example :
    attestation_view_for_mcp sha256 (λ s. s) stranger (redact owned_row)
    ≡ attestation_view_for_mcp sha256 (λ s. s) stranger owned_row
unfolding caller_owns_attestation api_key_lookup_id is_api_key_hash is_plaintext_api_key
redact_example = attestation_view_for_mcp-redact sha256 (λ s. s) stranger owned_row refl refl

abbrev caller : ApiKey
caller = record {
  key = digest;
  name = "k";
  tier = free;
  active = true;
  usage_count = 0;
  created_at = 1;
  key_prefix = none;
  key_last4 = none;
}

abbrev body : RegisterWebhookBody
body = record { url = some "https://hooks.example.com/x"; attestation_id = some "a1" }

abbrev new_hook : Webhook
new_hook = record hook { id = "w2" }

registered_example :
    IsRegistered sha256 parse_url is_ip dns body "w2" caller hook_store
      (post_webhook sha256 parse_url is_ip dns written 6 "w2" body caller hook_store).1
      new_hook
unfolding post_webhook register_owned get_attestation Dict.get Dict.set caller_owns_attestation
    assert_safe_webhook_url parse_https_url host_error strip_trailing_dots lower is_blocked_hostname
    ends_with parse_decimal_or_hex_ipv4 decimal parse_canonical_ipv4 split starts_like_ipv4
    resolve_addresses is_blocked_ip_address expand_ipv4_mapped is_private_ipv4 octets octet
    decimal_text api_key_lookup_id is_api_key_hash hash_api_key is_plaintext_api_key
    count_webhooks_for_api_key register_webhook commit
registered_example =
    post_webhook-IsRegistered sha256 parse_url is_ip dns written 6 "w2" body caller hook_store 201
      new_hook refl
