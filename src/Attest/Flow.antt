-- ===== src/Attest/Flow.antt =====
-- src/attest.ts: `attestXrpPayment`, in the order of its steps.
pub mod Quiet
pub mod Counted
pub mod Quota
pub mod Releases
use xrplink.Prelude.{
  ℕ, String, Bool, true, false, ◌&&◌, ◌||◌, Option, none, some, ◌==◌, leb, nat_eq, if◌then◌else◌,
  or_else,
}
use Prim.Native.String.{count}
use xrplink.Prelude.Text.{strip_0x, upper, is_digit, all_chars}
use xrplink.Keys.{api_key_lookup_id}
use xrplink.Store.{
  returned, threw, ApiKey, Attestation, AttestationStatus, verified, failed, not_found,
}
use xrplink.Store.Attestations.{no_updates, get_by_tx_hash, create_attestation}
use xrplink.Store.ApiKeys.{get_api_key, increment_api_key_usage}
use xrplink.Store.Usage.{reserve_attestation_usage, release_attestation_usage, Reservation}
use xrplink.Users.{StoredUser, find_by_api_key, add_receipt}
use xrplink.Xrpl.{preflight_xrpl_payment, passes, fails_with}
use xrplink.X402.{is_x402_configured}
use xrplink.X402.Quotes.{build_payment_required}
use xrplink.X402.Payment.{process_x402_payment}
use xrplink.X402.Facilitator.{ProcessResult, SettlementResponse, settled_now, retry_fdc, replay}
use xrplink.Quota.{
  BillingPeriod, QuotaExceededError, get_billing_period_key, get_fallback_billing_period,
  check_quota, build_quota_exceeded_error,
}
use xrplink.Attest.{
  World, Failure, Attempt, done, raised, plain, Site, verified_create, verified_update, increment,
  reserve, release, Env, Request, AttestSuccess, AttestError, AttestResult, ok, payment_required,
  error, is_ok, Flow, ◌>>=◌, pure, catching, on_store, on_x402, missing_tx_hash, invalid_tx_hash,
  x402_unavailable, invalid_api_key, missing_api_key, price_unavailable, quota_exceeded,
  preflight_failed, payment_replay, payment_failed,
}
use xrplink.Attest.Submit.{update_at, submit_to_fdc}
use xrplink.Attest.Access.{
  Payer, granted, Authority, answered, by_payment, by_key, presented_key, owner_of, add_receipt_of,
  payment_required_result, resolve_billing_period, free_answer, record_receipt_for_caller,
  verified_on_chain, authorize,
}

abbrev is_hex : ℕ → Bool
is_hex c = is_digit c || ((leb b'A' c && leb c b'F') || (leb b'a' c && leb c b'f'))

unfoldable pub is_hex_tx_hash : String → Bool
is_hex_tx_hash v = all_chars is_hex v && nat_eq (count v) 64

-- The reserved key and period; `none` where there is nothing to release.
abbrev pub Held : Type 0
Held = Option (String × String)

module _ (env : Env) where
  -- `releaseReservation`
  unfoldable pub release_reservation : Held → Flow (Unit {0})
  release_reservation none = pure tt
  release_reservation (some (key, period)) =
      on_store (release_attestation_usage env.sha256 (env.fate release) key period)

  -- After the submission: a result that is not ok gives the slot back.
  unfoldable pub finish :
      Request
      → String
      → Held
      → Option SettlementResponse
      → Option ApiKey
      → AttestResult
      → Flow AttestResult
  finish req clean_hash held settlement key (ok s) w =
      (add_receipt_of env
            (λ v.
              or_else (owner_of env (elim key [ none ↦ none | some k ↦ some k.key ]) v)
                (owner_of env (presented_key req) v))
            clean_hash
          >>= λ _. pure (ok (record s { payment_response = settlement })))
        w
  finish req clean_hash held settlement key (payment_required quote quota) w =
      (release_reservation held >>= λ _. pure (payment_required quote quota)) w
  finish req clean_hash held settlement key (error status e) w =
      (release_reservation held >>= λ _. pure (error status e)) w

  unfoldable pub submit_and_finish :
      Request
      → String
      → Held
      → Option String
      → Option SettlementResponse
      → Option ApiKey
      → Flow AttestResult
  submit_and_finish req clean_hash held invoice settlement key =
      submit_to_fdc env clean_hash invoice
        (elim key [ none ↦ none | some k ↦ some (api_key_lookup_id env.sha256 k.key) ])
      >>= finish req clean_hash held settlement key

  unfoldable pub after_payment : Request → String → Held → ProcessResult → Flow AttestResult
  after_payment req clean_hash held (replay id) w =
      (release_reservation held >>= λ _. pure (error 409 (payment_replay id))) w
  after_payment req clean_hash held (ProcessResult.failed e) w =
      (release_reservation held >>= λ _. pure (error 402 (payment_failed e))) w
  after_payment req clean_hash held (settled_now id response requirements) w =
      submit_and_finish req clean_hash held (some id) (some response) none w
  after_payment req clean_hash held (retry_fdc id response requirements) w =
      submit_and_finish req clean_hash held (some id) (some response) none w

  unfoldable pub pay_and_submit : Request → String → Held → String → Flow AttestResult
  pay_and_submit req clean_hash held signature =
      on_x402 (process_x402_payment env.outside env.x402_config env.run signature clean_hash)
      >>= after_payment req clean_hash held

  -- The preflight, the payment, the submission.
  unfoldable pub proceed : Request → String → Held → Payer → Flow AttestResult
  proceed req clean_hash held payer =
      elim (preflight_xrpl_payment (env.outside.lookup clean_hash) env.now) [
        | fails_with code status ↦
            release_reservation held >>= λ _. pure (error status (preflight_failed code))
        | passes ↦ elim payer [
          | by_payment signature ↦ pay_and_submit req clean_hash held signature
          | by_key k ↦ submit_and_finish req clean_hash held none none (some k)
        ]
      ]

  -- The `catch` block: the slot is still held there.
  unfoldable pub release_and_throw : Held → Failure → Flow AttestResult
  release_and_throw held e = release_reservation held >>= λ _ w. (raised e, w)

  -- The `try` block after the reservation.
  unfoldable pub guarded : Request → String → Held → Payer → Flow AttestResult
  guarded req clean_hash held payer =
      catching (proceed req clean_hash held payer) (release_and_throw held)

  -- The reservation was refused.
  unfoldable pub over_quota : String → ApiKey → ℕ → BillingPeriod → Flow AttestResult
  over_quota clean_hash key used period =
      let quota = build_quota_exceeded_error (check_quota env.limits key.tier used period) in
      if is_x402_configured env.x402_config
      then payment_required_result env clean_hash (some quota)
      else pure (error 402 (quota_exceeded quota))

  abbrev pub reserving : ApiKey → String → Flow Reservation
  reserving key period_key = on_store (
      reserve_attestation_usage env.sha256 (env.fate reserve) key.key period_key
        (env.limits key.tier))

  abbrev pub after_reservation :
      Request → String → ApiKey → BillingPeriod → Reservation → Flow AttestResult
  after_reservation req clean_hash key period reservation =
      if reservation.reserved
      then guarded req clean_hash (some (key.key, get_billing_period_key period)) (by_key key)
      else over_quota clean_hash key reservation.used period

  unfoldable pub reserve_and_proceed : Request → String → ApiKey → Flow AttestResult
  reserve_and_proceed req clean_hash key w =
      let period = resolve_billing_period env key w in
      (reserving key (get_billing_period_key period)
          >>= after_reservation req clean_hash key period)
        w

  -- A key is counted on mainnet only.
  unfoldable pub attest_by_key : Bool → Request → String → ApiKey → Flow AttestResult
  attest_by_key true req clean_hash k w = reserve_and_proceed req clean_hash k w
  attest_by_key false req clean_hash k w = guarded req clean_hash none (by_key k) w

  unfoldable pub attest_authorized : Request → String → Authority → Flow AttestResult
  attest_authorized req clean_hash (answered r) w = pure r w
  attest_authorized req clean_hash (granted (by_payment signature)) w =
      guarded req clean_hash none (by_payment signature) w
  attest_authorized req clean_hash (granted (by_key k)) w =
      attest_by_key env.is_mainnet req clean_hash k w

  -- A row that may answer for free: neither failed nor not found.
  abbrev pub is_live : AttestationStatus → Bool
  is_live failed = false
  is_live not_found = false
  is_live _ = true

  abbrev pub is_verified : AttestationStatus → Bool
  is_verified verified = true
  is_verified _ = false

  abbrev pub live_row : String → World → Option Attestation
  live_row clean_hash w = elim (get_by_tx_hash clean_hash w.store) [
    | none ↦ none
    | some a ↦ if is_live a.status then some a else none
  ]

  -- Nothing on chain: the request needs an authority.
  unfoldable pub after_check : Request → String → Option AttestResult → Flow AttestResult
  after_check req clean_hash (some r) w = pure r w
  after_check req clean_hash none w =
      (authorize env req clean_hash >>= attest_authorized req clean_hash) w

  unfoldable pub attest_clean : Request → String → Flow AttestResult
  attest_clean req clean_hash w = elim (live_row clean_hash w) [
    | some a ↦
        (record_receipt_for_caller env req clean_hash >>= λ _.
        pure (free_answer env a.id clean_hash a.round_id a.status (is_verified a.status)))
          w
    | none ↦ (verified_on_chain env req clean_hash >>= after_check req clean_hash) w
  ]

  unfoldable pub attest_xrp_payment : Request → Flow AttestResult
  attest_xrp_payment req =
      if req.tx_hash == ""
      then pure (error 400 missing_tx_hash)
      else (let clean_hash = upper (strip_0x req.tx_hash) in
          if is_hex_tx_hash clean_hash
          then attest_clean req clean_hash
          else pure (error 400 invalid_tx_hash))
