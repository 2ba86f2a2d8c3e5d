-- ===== src/Attest/Access.antt =====
-- src/attest.ts: who pays for a request: the look-up of its key, the free answers of rows that are
-- there, and the 402 quote.
use xrplink.Prelude.{
  ℕ, String, Bool, false, ◌&&◌, Option, none, some, ltb, if◌then◌else◌, get_or, or_else, truthy,
}
use xrplink.Keys.{api_key_lookup_id}
use xrplink.Store.{Attestation, returned, threw, ApiKey, AttestationStatus, verified}
use xrplink.Store.Attestations.{no_updates, create_attestation}
use xrplink.Store.ApiKeys.{get_api_key, increment_api_key_usage}
use xrplink.Users.{StoredUser, find_by_api_key, add_receipt}
use xrplink.X402.{is_x402_configured}
use xrplink.X402.Quotes.{build_payment_required}
use xrplink.Quota.{BillingPeriod, QuotaExceededError, get_fallback_billing_period}
use xrplink.Attest.{
  World, done, raised, plain, verified_create, verified_update, increment, Env, Request,
  AttestError, AttestResult, ok, payment_required, error, Flow, ◌>>=◌, pure, catching, on_store,
  x402_unavailable, invalid_api_key, missing_api_key, price_unavailable,
}
use xrplink.Attest.Submit.{update_at}

pub data Payer : Type 0 where
  by_payment : String → Payer
  by_key : ApiKey → Payer

-- Who pays, or the answer that the request has got already.
pub data Authority : Type 0 where
  answered : AttestResult → Authority
  granted : Payer → Authority

-- `opts.apiKeyHeader || opts.apiKeyRecord?.key`, where it is not empty.
abbrev pub presented_key : Request → Option String
presented_key req =
    or_else (truthy req.api_key_header)
      (truthy (elim req.api_key_record [ none ↦ none | some k ↦ some k.key ]))

module _ (env : Env) where
  -- `paymentRequiredResult`
  unfoldable pub payment_required_result : String → Option QuotaExceededError → Flow AttestResult
  payment_required_result clean_hash quota w =
      let (r, s) =
        build_payment_required env.x402_config env.price env.invoice_id clean_hash env.now
          env.quote_fate w.x402 in
      (
        done (elim r [
          | returned quote ↦ payment_required quote quota
          | threw reason ↦ error 503 (price_unavailable reason)
        ]),
        record w { x402 = s },
      )

  unfoldable pub resolve_billing_period : ApiKey → World → BillingPeriod
  resolve_billing_period key w = elim (find_by_api_key env.sha256 key.key w.users) [
    | none ↦ get_fallback_billing_period key.created_at env.now
    | some owner ↦
        let start = get_or owner.billing_period_start 0 in
        let end = get_or owner.billing_period_end 0 in
        if ltb 0 start && ltb 0 end
        then record { start = start; end = end }
        else get_fallback_billing_period owner.created_at env.now
  ]

  abbrev pub owner_of : Option String → World → Option StoredUser
  owner_of key w = elim key [ none ↦ none | some k ↦ find_by_api_key env.sha256 k w.users ]

  -- `if (owner) userStore.addReceipt(owner.id, txHash)`
  abbrev pub add_receipt_of : (World → Option StoredUser) → String → Flow (Unit {0})
  add_receipt_of owner tx_hash w = (
    done tt,
    elim (owner w) [
      | none ↦ w
      | some user ↦ record w { users = add_receipt user.id tx_hash w.users }
    ],
  )

  unfoldable pub record_receipt_for_caller : Request → String → Flow (Unit {0})
  record_receipt_for_caller req tx_hash = add_receipt_of (owner_of (presented_key req)) tx_hash

  abbrev id_of_active : Option ApiKey → Option String
  id_of_active none = none
  id_of_active (some k) = if k.active then some (api_key_lookup_id env.sha256 k.key) else none

  unfoldable pub resolve_owner_key_id : Request → World → Option String
  resolve_owner_key_id req w =
      or_else (id_of_active req.api_key_record) (elim (truthy req.api_key_header) [
        | none ↦ none
        | some key ↦ id_of_active (get_api_key env.sha256 key w.store)
      ])

  abbrev pub free_answer : String → String → Option ℕ → AttestationStatus → Bool → AttestResult
  free_answer id clean_hash round_id status cached = ok (record {
    http_status = 200;
    id = id;
    tx_hash = clean_hash;
    round_id = round_id;
    status = status;
    cached = cached;
    x402 = false;
    payment_response = none;
  })

  unfoldable pub record_found : Request → String → Option Attestation → Flow (Option AttestResult)
  record_found req clean_hash none w = (raised (plain "Cannot read properties of undefined"), w)
  record_found req clean_hash (some a) w =
      (update_at env verified_update a.id (record no_updates { status = some verified }) >>= λ _.
      record_receipt_for_caller req clean_hash >>= λ _.
      pure (some (free_answer a.id clean_hash none verified false)))
        w

  -- The row is made, or found, and set to verified.
  unfoldable pub record_verified : Request → String → Flow (Option AttestResult)
  record_verified req clean_hash w =
      (on_store (
            create_attestation (env.fate verified_create) env.now env.attestation_id clean_hash
              (resolve_owner_key_id req w))
          >>= record_found req clean_hash)
        w

  -- The check on chain; whatever throws in it is swallowed.
  unfoldable pub verified_on_chain : Request → String → Flow (Option AttestResult)
  verified_on_chain req clean_hash =
      if env.has_verifier_contract
      then elim (env.is_already_verified clean_hash) [
        | none ↦ pure none
        | some b ↦
            if b then catching (record_verified req clean_hash) (λ _. pure none) else pure none
      ]
      else pure none

  -- `incrementApiKeyUsage` is not awaited, so what it throws does not reach the request.
  abbrev pub count_use : Request → String → World → World
  count_use req key w = elim req.api_key_record [
    | some k ↦ w
    | none ↦ record w {
      store = (increment_api_key_usage env.sha256 (env.fate increment) key w.store).1;
    }
  ]

  abbrev pub refuse : String → AttestError → Flow Authority
  refuse clean_hash e =
      let quoted : Flow Authority =
        payment_required_result clean_hash none >>= λ r. pure (answered r) in
      if is_x402_configured env.x402_config then quoted else pure (answered (error 401 e))

  unfoldable pub authorize_key : Request → String → String → Flow Authority
  authorize_key req clean_hash key w =
      elim (or_else req.api_key_record (get_api_key env.sha256 key w.store)) [
        | none ↦ refuse clean_hash invalid_api_key w
        | some k ↦
            if k.active
            then (done (granted (by_key k)), count_use req key w)
            else refuse clean_hash invalid_api_key w
      ]

  unfoldable pub authorize : Request → String → Flow Authority
  authorize req clean_hash = elim (truthy req.payment_signature) [
    | some signature ↦
        if is_x402_configured env.x402_config
        then pure (granted (by_payment signature))
        else pure (answered (error 400 x402_unavailable))
    | none ↦ elim (presented_key req) [
      | none ↦ refuse clean_hash missing_api_key
      | some key ↦ authorize_key req clean_hash key
    ]
  ]
