-- ===== src/Routes/Registration.antt =====
-- src/routes.ts: when POST /api/v1/webhooks registers a webhook.
use mathlib.Core.Path.{subst}
use xrplink.Dict
use xrplink.Dict.{get-set}
use xrplink.Keys.{api_key_lookup_id}
use xrplink.Store.{Attestation, ApiKey, Webhook, Store, Write, written, broken, commit}
use xrplink.Store.Attestations.{get_attestation}
use xrplink.Store.Webhooks.{register_webhook, count_webhooks_for_api_key}
use xrplink.Views.{caller_owns_attestation}
use xrplink.Webhooks.Url.{ParsedUrl, Resolved, assert_safe_webhook_url}
use xrplink.Routes.{
  Answer, answer, RegisterWebhookBody, max_webhooks_per_key, registered, register_owned,
  post_webhook,
}
use xrplink.Prelude.{
  ℕ, ◌<◌, String, ◌≡◌, sym, ap, ◌∙◌, inl, inr, Bool, true, false, Option, none, some, arith, eq_iff,
  Option-cases, get_or, truthy,
}

some_of_truthy : (o : Option String) (v : String) → truthy o ≡ some v → o ≡ some v
some_of_truthy none v h = cc
some_of_truthy (some x) v h = ground arith

module _ (sha256 : String → String) (parse_url : String → Option ParsedUrl) (is_ip : String → ℕ)
    (dns : String → Resolved) where
  -- The attestation is there, and the key owns it.
  abbrev pub is_owned : ApiKey → Option Attestation → Bool
  is_owned caller none = false
  is_owned caller (some a) = caller_owns_attestation sha256 a (some caller.key)

  registered-answer :
      (w : Write) (now : ℕ) (id url attestation_id key : String) (s : Store) (status : ℕ)
      (h : Webhook)
      → (registered sha256 parse_url is_ip dns
          (register_webhook sha256 w now id url attestation_id key none s)).0
        ≡ answer status h
      → (h.url ≡ url)
        × (h.attestation_id ≡ some attestation_id)
        × (h.api_key_id ≡ some (api_key_lookup_id sha256 key))
        × (Dict.get
              (registered sha256 parse_url is_ip dns
                (register_webhook sha256 w now id url attestation_id key none s)).1.webhooks
              id
            ≡ some h)
  unfolding register_webhook commit
  registered-answer written now id url attestation_id key s status h e = (
    ground arith,
    ground arith,
    ground arith,
    ground (arith, get-set s.webhooks id id h, eq_iff id id),
  )
  registered-answer (broken n m) now id url attestation_id key s status h e = (cc, cc, cc, cc)

  register_owned-answer :
      (w : Write) (now : ℕ) (id url attestation_id : String) (caller : ApiKey) (s : Store)
      (status : ℕ) (h : Webhook)
      → (register_owned sha256 parse_url is_ip dns w now id url attestation_id caller s).0
        ≡ answer status h
      → (is_owned caller (get_attestation attestation_id s) ≡ true)
        × (count_webhooks_for_api_key sha256 caller.key s < max_webhooks_per_key)
        × ((register_owned sha256 parse_url is_ip dns w now id url attestation_id caller s)
            ≡ registered sha256 parse_url is_ip dns
                (register_webhook sha256 w now id url attestation_id caller.key none s))
  unfolding register_owned
  register_owned-answer w now id url attestation_id caller s status h e =
      (ground arith, ground arith, ground arith)

  -- What a registration that is answered by a webhook means.
  pub record IsRegistered (body : RegisterWebhookBody) (id : String) (caller : ApiKey) (s t : Store)
      (h : Webhook) : Type 0 where
    pub asked : body.url ≡ some h.url
    pub safe : assert_safe_webhook_url parse_url is_ip dns h.url ≡ none
    pub named : h.attestation_id ≡ body.attestation_id
    pub owned : is_owned caller (get_attestation (get_or body.attestation_id "") s) ≡ true
    pub keyed : h.api_key_id ≡ some (api_key_lookup_id sha256 caller.key)
    pub below : count_webhooks_for_api_key sha256 caller.key s < max_webhooks_per_key
    pub stored : Dict.get t.webhooks id ≡ some h

  post_owned :
      (w : Write) (now : ℕ) (id url attestation_id : String) (caller : ApiKey) (s : Store)
      (status : ℕ) (h : Webhook)
      → assert_safe_webhook_url parse_url is_ip dns url ≡ none
      → (register_owned sha256 parse_url is_ip dns w now id url attestation_id caller s).0
        ≡ answer status h
      → IsRegistered
          (record { url = some url; attestation_id = some attestation_id })
          id
          caller
          s
          (register_owned sha256 parse_url is_ip dns w now id url attestation_id caller s).1
          h
  post_owned w now id url attestation_id caller s status h safe e =
      let o = register_owned-answer w now id url attestation_id caller s status h e in
      let r =
        registered-answer w now id url attestation_id caller.key s status h
          (subst (λ (x : Answer Webhook × Store). x.0 ≡ answer status h) o.2 e) in
      record {
        asked = ap some (sym r.0);
        safe = subst (λ u. assert_safe_webhook_url parse_url is_ip dns u ≡ none) (sym r.0) safe;
        named = r.1;
        owned = o.0;
        keyed = r.2;
        below = o.1;
        stored =
            subst (λ (x : Answer Webhook × Store). Dict.get x.1.webhooks id ≡ some h) (sym o.2) r.3;
      }

  post_webhook-answer :
      (w : Write) (now : ℕ) (id : String) (body : RegisterWebhookBody) (caller : ApiKey) (s : Store)
      (status : ℕ) (h : Webhook)
      → (post_webhook sha256 parse_url is_ip dns w now id body caller s).0 ≡ answer status h
      → (url : String) × (attestation_id : String) × (truthy body.url ≡ some url)
        × (truthy body.attestation_id ≡ some attestation_id)
        × (assert_safe_webhook_url parse_url is_ip dns url ≡ none)
        × (post_webhook sha256 parse_url is_ip dns w now id body caller s
            ≡ register_owned sha256 parse_url is_ip dns w now id url attestation_id caller s)
  unfolding post_webhook
  post_webhook-answer w now id body caller s status h e = elim (Option-cases (truthy body.url)) [
    | inl u ↦ absurd (ground arith)
    | inr (url, u) ↦ elim (Option-cases (truthy body.attestation_id)) [
      | inl a ↦ absurd (ground arith)
      | inr (attestation_id, a) ↦
          elim (Option-cases (assert_safe_webhook_url parse_url is_ip dns url)) [
            | inl safe ↦ (url, attestation_id, u, a, safe, ground arith)
            | inr (x, unsafe) ↦ absurd (ground arith)
          ]
    ]
  ]

  -- A webhook is answered only for a URL that was asked for and found safe, for an attestation that
  -- exists and that the presented key owns, while the key has fewer than ten active webhooks; it is
  -- then stored for that attestation and that key.
  pub post_webhook-IsRegistered :
      (w : Write) (now : ℕ) (id : String) (body : RegisterWebhookBody) (caller : ApiKey) (s : Store)
      (status : ℕ) (h : Webhook)
      → (post_webhook sha256 parse_url is_ip dns w now id body caller s).0 ≡ answer status h
      → IsRegistered body id caller s
          (post_webhook sha256 parse_url is_ip dns w now id body caller s).1
          h
  post_webhook-IsRegistered w now id body caller s status h e =
      let (url, attestation_id, u, a, safe, same) =
        post_webhook-answer w now id body caller s status h e in
      let r =
        post_owned w now id url attestation_id caller s status h safe
          (subst (λ (x : Answer Webhook × Store). x.0 ≡ answer status h) same e) in
      record {
        asked = some_of_truthy body.url url u ∙ r.asked;
        safe = r.safe;
        named = r.named ∙ sym (some_of_truthy body.attestation_id attestation_id a);
        owned =
            subst (λ o. is_owned caller (get_attestation (get_or o "") s) ≡ true)
              (sym (some_of_truthy body.attestation_id attestation_id a)) r.owned;
        keyed = r.keyed;
        below = r.below;
        stored =
            subst (λ (x : Answer Webhook × Store). Dict.get x.1.webhooks id ≡ some h) (sym same)
              r.stored;
      }
