-- ===== src/Webhooks/Delivery.antt =====
-- src/webhook-service.ts: the delivery of a completed attestation to the webhooks of its owner, the
-- retries, and the check of a signature by the receiver. JSON, HMAC, the network and the clock are
-- parameters; a text's characters are its code points.
pub mod Retries
pub mod Signature
use Prim.Native.Nat.{bit_or, bit_xor}
use Prim.Native.Char.{code}
use Prim.Native.String
use Prim.Native.String.{count, slice, len}
use text.Mathlib.Text.{starts_with}
use xrplink.Prelude.Text.{decimal_text}
use xrplink.Store.{Attestation, AttestationStatus, ResponseBody, Store, Webhook}
use xrplink.Store.Attestations.{get_attestation}
use xrplink.Store.Webhooks.{get_webhooks_for_attestation}
use xrplink.Views.{caller_owns_attestation}
use xrplink.Webhooks.Url.{ParsedUrl, Resolved, UnsafeUrl, redirected, assert_safe_webhook_url}
use xrplink.Prelude.{
  ℕ, zero, suc, ◌+◌, ◌-◌, ◌*◌, ◌/◌, ◌^◌, String, ◌++◌, Bool, true, false, not, ◌&&◌, Option, none,
  some, List, [], ◌∷◌, ◌==◌, ltb, leb, nat_eq, if◌then◌else◌, is_some, truthy, length, keep, concat,
}

abbrev pub max_retries : ℕ
max_retries = 3

-- In milliseconds.
abbrev pub initial_backoff : ℕ
initial_backoff = 1000

pub record PayloadProof : Type 0 where
  pub voting_round : String
  pub response_body : ResponseBody
  pub merkle_proof_entries : ℕ

pub record WebhookPayload : Type 0 where
  pub event : String
  pub id : String
  pub tx_hash : String
  pub round_id : Option ℕ
  pub status : AttestationStatus
  pub verified_tx_hash : Option String
  pub proof : Option PayloadProof

unfoldable pub payload_of : Attestation → WebhookPayload
payload_of a = record {
  event = "attestation.completed";
  id = a.id;
  tx_hash = a.tx_hash;
  round_id = a.round_id;
  status = a.status;
  verified_tx_hash = a.verified_tx_hash;
  proof = elim a.proof [
    | none ↦ none
    | some p ↦ some (record {
      voting_round = p.voting_round;
      response_body = p.response_body;
      merkle_proof_entries = length p.proof;
    })
  ];
}

-- How `fetch` ends.
pub data Reply : Type 0 where
  answered : ℕ → String → Reply
  broken_off : String → Reply

-- What one attempt meets: the resolver, the clock in milliseconds, and the reply.
pub record Attempt : Type 0 where
  pub dns : String → Resolved
  pub now : ℕ
  pub reply : Reply

pub data Failure : Type 0 where
  unsafe : UnsafeUrl → Failure
  http_error : ℕ → String → Failure
  network_error : String → Failure

-- A request that left the server, with the number of its attempt.
pub record Sent : Type 0 where
  pub attempt : ℕ
  pub url : String
  pub body : String
  pub timestamp : ℕ
  pub signature : Option String

pub record Delivery : Type 0 where
  pub failure : Option Failure
  pub sent : List Sent
  pub waits : List ℕ

-- A payload, signed, as `signPayload` does.
unfoldable pub sign_payload : (String → String → String) → String → ℕ → String → String
sign_payload hmac payload timestamp secret =
    hmac secret (decimal_text timestamp ++ ("." ++ payload))

unfoldable pub reply_failure : Reply → Option Failure
reply_failure (broken_off m) = some (network_error m)
reply_failure (answered status text) =
    if leb 300 status && ltb status 400
    then some (unsafe (redirected status))
    else if leb 200 status && ltb status 300
    then none
    else some (http_error status text)

abbrev pub is_final : Option Failure → Bool
is_final none = true
is_final (some (unsafe e)) = true
is_final (some (http_error status text)) = false
is_final (some (network_error m)) = false

abbrev pub then_retry : ℕ → Delivery → Delivery → Delivery
then_retry wait first rest = record {
  failure = rest.failure;
  sent = concat first.sent rest.sent;
  waits = wait ∷ rest.waits;
}

pub record Report : Type 0 where
  pub hook : Webhook
  pub delivery : Delivery

abbrev pub is_owners : (String → String) → Attestation → Webhook → Bool
is_owners sha256 a h =
    is_some (truthy h.api_key_id) && caller_owns_attestation sha256 a h.api_key_id

module _ (parse_url : String → Option ParsedUrl) (is_ip : String → ℕ)
    (hmac : String → String → String) (to_json : WebhookPayload → String)
    (signing_secret : String) where
  abbrev pub signature_header : String → ℕ → Option String → Option String
  signature_header body timestamp secret = elim (truthy secret) [
    | some key ↦ some ("sha256=" ++ sign_payload hmac body timestamp key)
    | none ↦
        if signing_secret == ""
        then none
        else some ("sha256=" ++ sign_payload hmac body timestamp signing_secret)
  ]

  abbrev pub request : ℕ → ℕ → String → WebhookPayload → Option String → Sent
  request n now url payload secret = record {
    attempt = n;
    url = url;
    body = to_json payload;
    timestamp = now / 1000;
    signature = signature_header (to_json payload) (now / 1000) secret;
  }

  unfoldable pub deliver : ℕ → Attempt → String → WebhookPayload → Option String → Delivery
  deliver n a url payload secret = elim (assert_safe_webhook_url parse_url is_ip a.dns url) [
    | some e ↦ record { failure = some (unsafe e); sent = []; waits = [] }
    | none ↦ record {
      failure = reply_failure a.reply;
      sent = request n a.now url payload secret ∷ [];
      waits = [];
    }
  ]

  -- Attempt `n`, with `left` more allowed: `n + left` is `max_retries`.
  unfoldable pub deliver_with_retry :
      ℕ → ℕ → (ℕ → Attempt) → String → WebhookPayload → Option String → Delivery
  deliver_with_retry zero n net url payload secret = deliver n (net n) url payload secret
  deliver_with_retry (suc left) n net url payload secret =
      let first = deliver n (net n) url payload secret in
      let rest = deliver_with_retry left (n + 1) net url payload secret in
      if is_final first.failure
      then first
      else then_retry (initial_backoff * 2 ^ (n - 1)) first rest

  abbrev report : (String → ℕ → Attempt) → WebhookPayload → Webhook → Report
  report net payload h = record {
    hook = h;
    delivery = deliver_with_retry (max_retries - 1) 1 (net h.id) h.url payload h.secret;
  }

  abbrev reports : (String → ℕ → Attempt) → WebhookPayload → List Webhook → List Report
  reports net payload [] = []
  reports net payload (h ∷ hooks) = report net payload h ∷ reports net payload hooks

  -- `net` gives what each attempt for a webhook meets. A delivery's failure is only logged.
  unfoldable pub deliver_webhooks :
      (String → String) → (String → ℕ → Attempt) → String → Store → List Report
  unfolding get_attestation
  deliver_webhooks sha256 net attestation_id s = elim (get_attestation attestation_id s) [
    | none ↦ []
    | some a ↦
        reports net (payload_of a)
          (keep (is_owners sha256 a) (get_webhooks_for_attestation attestation_id s))
  ]

any_difference : ℕ → String → String → ℕ
any_difference result String.[] b = result
any_difference result (String.◌∷◌ c a) String.[] = result
any_difference result (String.◌∷◌ c a) (String.◌∷◌ d b) =
    any_difference (bit_or result (bit_xor (code c) (code d))) a b

unfoldable pub timing_safe_equal : String → String → Bool
unfolding any_difference
timing_safe_equal a b =
    if not (nat_eq (count a) (count b)) then false else nat_eq (any_difference 0 a b) 0

-- `signature.replace(/^sha256=/, "")`
abbrev pub provided : String → String
provided signature =
    if starts_with signature "sha256=" then slice signature 7 (len signature) else signature

-- `now` and the timestamp in seconds.
unfoldable pub validate_webhook_signature :
    (String → String → String) → ℕ → String → String → ℕ → String → ℕ → Bool
unfolding sign_payload timing_safe_equal
validate_webhook_signature hmac now body signature timestamp secret tolerance =
    if ltb tolerance (now - timestamp + (timestamp - now))
    then false
    else timing_safe_equal (sign_payload hmac body timestamp secret) (provided signature)
