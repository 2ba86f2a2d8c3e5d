-- ===== src/Attest/Flow/Quiet.antt =====
-- src/attest.ts: the submission and the steps before the reservation leave the quota counters alone.
use xrplink.Prelude.{
  ℕ, String, ◌≡◌, refl, inl, inr, true, false, Option, none, some, Bool-cases, Option-cases,
  or_else, truthy,
}
use xrplink.Store.{Attestation, ApiKey}
use xrplink.Store.Attestations.{Updates, update_attestation, create_attestation}
use xrplink.Quota.{QuotaExceededError, BillingPeriod}
use xrplink.Attest.{World, Failure, Site, Env, Request, AttestError, ◌>>=◌, pure, on_store}
use xrplink.Attest.Effects.{
  usage, IsQuiet, pure-IsQuiet, bind-IsQuiet, catching-IsQuiet, on_x402-IsQuiet, on_store-IsQuiet,
  usage-create_attestation, usage-update_attestation, usage-increment_api_key_usage,
}
use xrplink.Attest.Submit.{
  update_at, mark_ok, mark_failed, submit_row, submit_failure, submit_to_fdc,
}
use xrplink.Attest.Access.{
  payment_required_result, record_receipt_for_caller, record_verified, verified_on_chain,
  authorize_key, authorize, count_use, refuse,
}
use xrplink.Attest.Flow.{over_quota}
use xrplink.Users.{StoredUser}
use xrplink.Attest.Submit.{submit_found}
use xrplink.Attest.Access.{record_found, add_receipt_of}
use xrplink.X402.{is_x402_configured}
use xrplink.Store.ApiKeys.{get_api_key}
use xrplink.Attest.Access.{owner_of, presented_key, resolve_owner_key_id, answered}

module _ (env : Env) where
  update_at-IsQuiet : (site : Site) (id : String) (u : Updates) → IsQuiet (update_at env site id u)
  update_at-IsQuiet site id u =
      on_store-IsQuiet (update_attestation (env.fate site) env.now id u)
        (usage-update_attestation (env.fate site) env.now id u)

  mark_ok-IsQuiet : (invoice : Option String) → IsQuiet (mark_ok env invoice)
  mark_ok-IsQuiet none = pure-IsQuiet tt
  mark_ok-IsQuiet (some id) = on_x402-IsQuiet _

  mark_failed-IsQuiet : (invoice : Option String) → IsQuiet (mark_failed env invoice)
  mark_failed-IsQuiet none = pure-IsQuiet tt
  mark_failed-IsQuiet (some id) = on_x402-IsQuiet _

  submit_row-IsQuiet :
      (clean_hash : String) (invoice : Option String) (a : Attestation)
      → IsQuiet (submit_row env clean_hash invoice a)
  unfolding submit_row
  submit_row-IsQuiet clean_hash invoice a =
      bind-IsQuiet _ _ (λ w. refl)
        (λ abi. bind-IsQuiet _ _ (update_at-IsQuiet _ a.id _) (λ _.
          bind-IsQuiet _ _ (λ w. refl)
            (λ n.
              bind-IsQuiet _ _ (update_at-IsQuiet _ a.id _)
                (λ _. bind-IsQuiet _ _ (mark_ok-IsQuiet invoice) (λ _. λ w. refl)))))

  submit_failure-IsQuiet :
      (invoice : Option String) (a : Attestation) (e : Failure)
      → IsQuiet (submit_failure env invoice a e)
  unfolding submit_failure
  submit_failure-IsQuiet invoice a e =
      bind-IsQuiet _ _ (update_at-IsQuiet _ a.id _)
        (λ _. bind-IsQuiet _ _ (mark_failed-IsQuiet invoice) (λ _. λ w. refl))

  create-IsQuiet :
      (site : Site) (clean_hash : String) (owner : Option String)
      → IsQuiet (
          on_store (create_attestation (env.fate site) env.now env.attestation_id clean_hash owner))
  create-IsQuiet site clean_hash owner =
      on_store-IsQuiet _
        (usage-create_attestation (env.fate site) env.now env.attestation_id clean_hash owner)

  submit_found-IsQuiet :
      (clean_hash : String) (invoice : Option String) (row : Option Attestation)
      → IsQuiet (submit_found env clean_hash invoice row)
  unfolding submit_found
  submit_found-IsQuiet clean_hash invoice none w = refl
  submit_found-IsQuiet clean_hash invoice (some a) w =
      catching-IsQuiet (submit_row env clean_hash invoice a) (submit_failure env invoice a)
        (submit_row-IsQuiet clean_hash invoice a) (submit_failure-IsQuiet invoice a) w

  pub submit_to_fdc-IsQuiet :
      (clean_hash : String) (invoice owner : Option String)
      → IsQuiet (submit_to_fdc env clean_hash invoice owner)
  unfolding submit_to_fdc
  submit_to_fdc-IsQuiet clean_hash invoice owner =
      bind-IsQuiet _ _ (create-IsQuiet _ clean_hash owner) (submit_found-IsQuiet clean_hash invoice)

  payment_required_result-IsQuiet :
      (clean_hash : String) (quota : Option QuotaExceededError)
      → IsQuiet (payment_required_result env clean_hash quota)
  unfolding payment_required_result
  payment_required_result-IsQuiet clean_hash quota w = refl

  pub over_quota-IsQuiet :
      (clean_hash : String) (key : ApiKey) (used : ℕ) (period : BillingPeriod)
      → IsQuiet (over_quota env clean_hash key used period)
  unfolding over_quota
  over_quota-IsQuiet clean_hash key used period w =
      elim (Bool-cases (is_x402_configured env.x402_config)) [
        | inl e ↦ rw (e, over_quota) (payment_required_result-IsQuiet clean_hash _ w)
        | inr e ↦ rw (e, over_quota) refl
      ]

  pub add_receipt_of-IsQuiet :
      (owner : World → Option StoredUser) (tx_hash : String)
      → IsQuiet (add_receipt_of env owner tx_hash)
  add_receipt_of-IsQuiet owner tx_hash w = elim (Option-cases (owner w)) [
    | inl e ↦ rw (e, usage) refl
    | inr (user, e) ↦ rw (e, usage) refl
  ]

  pub record_receipt-IsQuiet :
      (req : Request) (tx_hash : String) → IsQuiet (record_receipt_for_caller env req tx_hash)
  unfolding record_receipt_for_caller
  record_receipt-IsQuiet req tx_hash =
      add_receipt_of-IsQuiet (owner_of env (presented_key req)) tx_hash

  receipt-IsQuiet :
      {A : Type 0} (req : Request) (tx_hash : String) (a : A)
      → IsQuiet (record_receipt_for_caller env req tx_hash >>= λ _. pure a)
  receipt-IsQuiet req tx_hash a =
      bind-IsQuiet _ _ (record_receipt-IsQuiet req tx_hash) (λ _ w. refl)

  record_found-IsQuiet :
      (req : Request) (clean_hash : String) (row : Option Attestation)
      → IsQuiet (record_found env req clean_hash row)
  unfolding record_found
  record_found-IsQuiet req clean_hash none w = refl
  record_found-IsQuiet req clean_hash (some a) w =
      bind-IsQuiet _ _ (update_at-IsQuiet _ a.id _) (λ _. receipt-IsQuiet req clean_hash _) w

  record_verified-IsQuiet :
      (req : Request) (clean_hash : String) → IsQuiet (record_verified env req clean_hash)
  unfolding record_verified
  record_verified-IsQuiet req clean_hash w =
      bind-IsQuiet _ _ (create-IsQuiet _ clean_hash (resolve_owner_key_id env req w))
        (record_found-IsQuiet req clean_hash) w

  pub verified_on_chain-IsQuiet :
      (req : Request) (clean_hash : String) → IsQuiet (verified_on_chain env req clean_hash)
  unfolding verified_on_chain
  verified_on_chain-IsQuiet req clean_hash w =
      let swallowed =
        catching-IsQuiet (record_verified env req clean_hash) (λ _. pure none)
          (record_verified-IsQuiet req clean_hash) (λ _ _. refl) w in
      elim (Bool-cases env.has_verifier_contract) [
        | inr e ↦ rw (e, verified_on_chain) refl
        | inl e ↦ elim (Option-cases (env.is_already_verified clean_hash)) [
          | inl f ↦ rw (e, f, verified_on_chain) refl
          | inr (true, f) ↦ rw (e, f, verified_on_chain) swallowed
          | inr (false, f) ↦ rw (e, f, verified_on_chain) refl
        ]
      ]

  refuse-IsQuiet : (clean_hash : String) (e : AttestError) → IsQuiet (refuse env clean_hash e)
  refuse-IsQuiet clean_hash e w =
      let quoted =
        bind-IsQuiet (payment_required_result env clean_hash none) (λ r. pure (answered r))
          (payment_required_result-IsQuiet clean_hash none) (λ r. pure-IsQuiet (answered r)) w in
      elim (Bool-cases (is_x402_configured env.x402_config)) [
        | inl f ↦ rw f quoted
        | inr f ↦ rw f refl
      ]

  count_use-usage :
      (req : Request) (key : String) (w : World) → usage (count_use env req key w) ≡ usage w
  count_use-usage req key w = elim (Option-cases req.api_key_record) [
    | inl e ↦ rw e (usage-increment_api_key_usage env.sha256 _ key w.store)
    | inr (k, e) ↦ rw e refl
  ]

  authorize_key-IsQuiet :
      (req : Request) (clean_hash key : String) → IsQuiet (authorize_key env req clean_hash key)
  unfolding authorize_key
  authorize_key-IsQuiet req clean_hash key w =
      elim (Option-cases (or_else req.api_key_record (get_api_key env.sha256 key w.store))) [
        | inl e ↦ rw (e, authorize_key) (refuse-IsQuiet clean_hash _ w)
        | inr (k, e) ↦ elim (Bool-cases k.active) [
          | inl f ↦ rw (e, f, authorize_key) (count_use-usage req key w)
          | inr f ↦ rw (e, f, authorize_key) (refuse-IsQuiet clean_hash _ w)
        ]
      ]

  pub authorize-IsQuiet :
      (req : Request) (clean_hash : String) → IsQuiet (authorize env req clean_hash)
  unfolding authorize
  authorize-IsQuiet req clean_hash w = elim (Option-cases (truthy req.payment_signature)) [
    | inr (signature, e) ↦ elim (Bool-cases (is_x402_configured env.x402_config)) [
      | inl f ↦ rw (e, f, authorize) refl
      | inr f ↦ rw (e, f, authorize) refl
    ]
    | inl e ↦ elim (Option-cases (presented_key req)) [
      | inl f ↦ rw (e, f, authorize) (refuse-IsQuiet clean_hash _ w)
      | inr (key, f) ↦ rw (e, f, authorize) (authorize_key-IsQuiet req clean_hash key w)
    ]
  ]
