-- ===== src/Webhooks/Delivery/Retries.antt =====
-- src/webhook-service.ts: which requests a delivery sends, and when it gives up.
use mathlib.Core.Path.{subst}
use xrplink.Dict
use xrplink.Store.{Attestation, Store, Webhook}
use xrplink.Store.Attestations.{get_attestation}
use xrplink.Store.Webhooks.{get_webhooks_for_attestation, is_active}
use xrplink.Views.{caller_owns_attestation}
use xrplink.Webhooks.Url.{UnsafeUrl, ParsedUrl, assert_safe_webhook_url}
use xrplink.Webhooks.Delivery.{
  WebhookPayload, Attempt, Sent, Delivery, unsafe, reply_failure, deliver, request,
  deliver_with_retry, deliver_webhooks, reports, Report, is_owners, max_retries, payload_of,
  is_final, then_retry, initial_backoff,
}
use xrplink.Prelude.{
  ℕ, zero, suc, ◌+◌, ◌-◌, ◌*◌, ◌^◌, ◌≤◌, String, ◌≡◌, refl, sym, ap, ◌⊎◌, inl, inr, Bool, true,
  false, Option, none, some, List, [], ◌∷◌, arith, ◌==◌, eq_iff, if◌then◌else◌, Bool-cases,
  Option-cases, length, keep, All, concat,
}

All-concat :
    {A : Type 0} (P : A → Type 0) (xs ys : List A) → All P xs → All P ys → All P (concat xs ys)
All-concat P [] ys p q = q
All-concat P (x ∷ xs) ys p q = (p.0, All-concat P xs ys p.1 q)

All-choice :
    (P : Sent → Type 0) (b : Bool) (d e : Delivery)
    → All P d.sent
    → All P e.sent
    → All P (if b then d else e).sent
All-choice P true d e p q = p
All-choice P false d e p q = q

-- What two filters let through meets both tests.
All-keep :
    {A : Type 0} (p q : A → Bool) (P : A → Type 0)
    → ((x : A) → p x ≡ true → q x ≡ true → P x)
    → (xs : List A) → All P (keep p (keep q xs))
All-keep p q P both [] = tt
All-keep p q P both (x ∷ xs) = elim (Bool-cases (q x)) [
  | inr e ↦ rw (e, keep) (All-keep p q P both xs)
  | inl e ↦ elim (Bool-cases (p x)) [
    | inr f ↦ rw (e, f, keep) (All-keep p q P both xs)
    | inl f ↦ rw (e, f, keep) (both x f e, All-keep p q P both xs)
  ]
]

named :
    (o : Option String) (id : String)
    → (elim o [ none ↦ false | some other ↦ other == id ]) ≡ true
    → o ≡ some id
named none id h = cc
named (some other) id h = ap some ((eq_iff other id).0 h)

length-choice :
    (b : Bool) (d e : Delivery) (n : ℕ)
    → length d.sent ≤ n
    → length e.sent ≤ n
    → length (if b then d else e).sent ≤ n
length-choice true d e n p q = p
length-choice false d e n p q = q

length-concat : {A : Type 0} (xs ys : List A) → length (concat xs ys) ≡ length xs + length ys
length-concat [] ys = omega arith
length-concat (x ∷ xs) ys = omega (arith, length-concat xs ys)

module _ (parse_url : String → Option ParsedUrl) (is_ip : String → ℕ)
    (hmac : String → String → String) (to_json : WebhookPayload → String)
    (signing_secret : String) where
  -- The request goes to the URL, which the addresses of that attempt show to be safe.
  abbrev pub IsSafe : (ℕ → Attempt) → String → Sent → Type 0
  IsSafe net url r =
      (r.url ≡ url) × (assert_safe_webhook_url parse_url is_ip (net r.attempt).dns url ≡ none)

  -- An attempt sends nothing, or one request that is safe.
  deliver-cases :
      (n : ℕ) (a : Attempt) (url : String) (payload : WebhookPayload) (secret : Option String)
      → ((e : UnsafeUrl) × (assert_safe_webhook_url parse_url is_ip a.dns url ≡ some e)
          × (deliver parse_url is_ip hmac to_json signing_secret n a url payload secret
              ≡ record { failure = some (unsafe e); sent = []; waits = [] }))
        ⊎ ((assert_safe_webhook_url parse_url is_ip a.dns url ≡ none)
            × (deliver parse_url is_ip hmac to_json signing_secret n a url payload secret ≡ record {
              failure = reply_failure a.reply;
              sent =
                  request parse_url is_ip hmac to_json signing_secret n a.now url payload secret
                  ∷ [];
              waits = [];
            }))
  unfolding deliver
  deliver-cases n a url payload secret =
      elim (Option-cases (assert_safe_webhook_url parse_url is_ip a.dns url)) [
        | inl e ↦ inr (e, rw (e, deliver) refl)
        | inr (u, e) ↦ inl (u, e, rw (e, deliver) refl)
      ]

  deliver-IsSafe :
      (n : ℕ) (net : ℕ → Attempt) (url : String) (payload : WebhookPayload) (secret : Option String)
      → All
          (IsSafe net url)
          (deliver parse_url is_ip hmac to_json signing_secret n (net n) url payload secret).sent
  deliver-IsSafe n net url payload secret = elim (deliver-cases n (net n) url payload secret) [
    | inl (u, e, d) ↦ subst (λ (r : Delivery). All (IsSafe net url) r.sent) (sym d) tt
    | inr (e, d) ↦ subst (λ (r : Delivery). All (IsSafe net url) r.sent) (sym d) ((refl, e), tt)
  ]

  length-deliver-le :
      (n : ℕ) (a : Attempt) (url : String) (payload : WebhookPayload) (secret : Option String)
      → length (deliver parse_url is_ip hmac to_json signing_secret n a url payload secret).sent ≤ 1
  length-deliver-le n a url payload secret = elim (deliver-cases n a url payload secret) [
    | inl (u, e, d) ↦ subst (λ (r : Delivery). length r.sent ≤ 1) (sym d) (omega arith)
    | inr (e, d) ↦ subst (λ (r : Delivery). length r.sent ≤ 1) (sym d) (omega arith)
  ]

  deliver_with_retry-IsSafe :
      (left n : ℕ) (net : ℕ → Attempt) (url : String) (payload : WebhookPayload)
      (secret : Option String)
      → All
          (IsSafe net url)
          (deliver_with_retry parse_url is_ip hmac to_json signing_secret left n net url payload
            secret).sent
  unfolding deliver_with_retry
  deliver_with_retry-IsSafe zero n net url payload secret = deliver-IsSafe n net url payload secret
  deliver_with_retry-IsSafe (suc left) n net url payload secret =
      let first =
        deliver parse_url is_ip hmac to_json signing_secret n (net n) url payload secret in
      let rest =
        deliver_with_retry parse_url is_ip hmac to_json signing_secret left (n + 1) net url payload
          secret in
      All-choice (IsSafe net url) (is_final first.failure) first
        (then_retry (initial_backoff * 2 ^ (n - 1)) first rest)
        (deliver-IsSafe n net url payload secret)
        (All-concat (IsSafe net url) first.sent rest.sent (deliver-IsSafe n net url payload secret)
          (deliver_with_retry-IsSafe left (n + 1) net url payload secret))

  length-deliver_with_retry-le :
      (left n : ℕ) (net : ℕ → Attempt) (url : String) (payload : WebhookPayload)
      (secret : Option String)
      → length
          (deliver_with_retry parse_url is_ip hmac to_json signing_secret left n net url payload
            secret).sent
        ≤ suc left
  unfolding deliver_with_retry
  length-deliver_with_retry-le zero n net url payload secret =
      length-deliver-le n (net n) url payload secret
  length-deliver_with_retry-le (suc left) n net url payload secret =
      let first =
        deliver parse_url is_ip hmac to_json signing_secret n (net n) url payload secret in
      let rest =
        deliver_with_retry parse_url is_ip hmac to_json signing_secret left (n + 1) net url payload
          secret in
      length-choice (is_final first.failure) first
        (then_retry (initial_backoff * 2 ^ (n - 1)) first rest) (suc (suc left))
        (omega (arith, length-deliver-le n (net n) url payload secret))
        (omega (
          arith,
          length-concat first.sent rest.sent,
          length-deliver-le n (net n) url payload secret,
          length-deliver_with_retry-le left (n + 1) net url payload secret,
        ))

  -- The webhook is one that is told of the attestation, and each request for it is allowed.
  pub record IsAllowed (sha256 : String → String) (net : String → ℕ → Attempt) (a : Attestation)
      (attestation_id : String) (r : Report) : Type 0 where
    pub active : is_active r.hook ≡ true
    pub attested : r.hook.attestation_id ≡ some attestation_id
    pub owned : caller_owns_attestation sha256 a r.hook.api_key_id ≡ true
    pub safe : All (IsSafe (net r.hook.id) r.hook.url) r.delivery.sent
    pub few : length r.delivery.sent ≤ max_retries

  All-reports :
      (sha256 : String → String) (net : String → ℕ → Attempt) (a : Attestation)
      (attestation_id : String) (payload : WebhookPayload) (hooks : List Webhook)
      → All
          (λ (h : Webhook).
            (is_active h ≡ true)
            × (h.attestation_id ≡ some attestation_id)
            × (caller_owns_attestation sha256 a h.api_key_id ≡ true))
          hooks
      → All
          (IsAllowed sha256 net a attestation_id)
          (reports parse_url is_ip hmac to_json signing_secret net payload hooks)
  All-reports sha256 net a attestation_id payload [] p = tt
  All-reports sha256 net a attestation_id payload (h ∷ hooks) (p, rest) = (
    record {
      active = p.0;
      attested = p.1;
      owned = p.2;
      safe = deliver_with_retry-IsSafe (max_retries - 1) 1 (net h.id) h.url payload h.secret;
      few = length-deliver_with_retry-le (max_retries - 1) 1 (net h.id) h.url payload h.secret;
    },
    All-reports sha256 net a attestation_id payload hooks rest,
  )

  -- Everything that is sent for a completed attestation, whatever the network does, is sent for an
  -- active webhook that names the attestation and whose key owns it, goes to that webhook's URL, at an
  -- attempt whose fresh resolution of that URL was found safe, and is one of at most three requests
  -- for the webhook.
  pub deliver_webhooks-IsAllowed :
      (sha256 : String → String) (net : String → ℕ → Attempt) (attestation_id : String) (s : Store)
      (a : Attestation)
      → get_attestation attestation_id s ≡ some a
      → All
          (IsAllowed sha256 net a attestation_id)
          (deliver_webhooks parse_url is_ip hmac to_json signing_secret sha256 net attestation_id s)
  unfolding deliver_webhooks get_webhooks_for_attestation
  deliver_webhooks-IsAllowed sha256 net attestation_id s a found =
      subst
        (λ (o : Option Attestation). All (IsAllowed sha256 net a attestation_id) (elim o [
          | none ↦ []
          | some b ↦
              reports parse_url is_ip hmac to_json signing_secret net (payload_of b)
                (keep (is_owners sha256 b) (get_webhooks_for_attestation attestation_id s))
        ]))
        (sym found)
        (All-reports sha256 net a attestation_id (payload_of a)
          (keep (is_owners sha256 a) (get_webhooks_for_attestation attestation_id s))
          (All-keep (is_owners sha256 a) _
            (λ (h : Webhook).
              (is_active h ≡ true)
              × (h.attestation_id ≡ some attestation_id)
              × (caller_owns_attestation sha256 a h.api_key_id ≡ true))
            (λ h own listed.
              (ground arith, named h.attestation_id attestation_id (ground arith), ground arith))
            (Dict.values s.webhooks)))
