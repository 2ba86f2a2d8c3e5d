-- ===== src/Attest/Flow/Counted.antt =====
-- src/attest.ts: what a request does to the quota counters.
use xrplink.Prelude.{
  ◌⊎◌, inl, inr, ℕ, ◌-◌, String, ◌≡◌, refl, sym, ap, ◌∙◌, Bool, false, Option, none, some, arith,
  ◌==◌, if◌then◌else◌, get_or,
}
use xrplink.Dict
use xrplink.Store.{broken, ApiKey, Write, written, Store}
use xrplink.Store.Usage.{usage_key, release_attestation_usage}
use xrplink.Store.Usage.Laws.{used_at, used_at-release}
use xrplink.Attest.{
  catching, returned, World, Attempt, done, raised, release, Env, Request, AttestResult, ok,
  payment_required, error, is_ok, Flow, ◌>>=◌, pure, on_store,
}
use xrplink.Attest.Effects.{IsQuiet, on_x402-IsQuiet}
use xrplink.Attest.Access.{Payer, by_payment, by_key, add_receipt_of}
use xrplink.X402.Facilitator.{ProcessResult, SettlementResponse, settled_now, retry_fdc, replay}
use xrplink.Xrpl.{PreflightCode, PreflightResult, preflight_xrpl_payment, passes, fails_with}
use xrplink.Attest.Flow.Quiet.{add_receipt_of-IsQuiet, submit_to_fdc-IsQuiet}
use xrplink.Attest.Flow.{
  release_and_throw, guarded, proceed, finish, after_payment, Held, release_reservation,
  submit_and_finish, pay_and_submit,
}

abbrev pub used : String → World → ℕ
used u w = used_at u w.store

-- The request ends with an attestation.
abbrev pub is_success : Attempt AttestResult → Bool
is_success (done r) = is_ok r
is_success (raised e) = false

preflight-cases :
    (r : PreflightResult)
    → (r ≡ passes) ⊎ ((code : PreflightCode) × (status : ℕ) × (r ≡ fails_with code status))
preflight-cases passes = inl refl
preflight-cases (fails_with code status) = inr (code, status, refl)

module _ (env : Env) (works : env.fate release ≡ written) (u : String) where
  -- The count after what is held is given back.
  abbrev pub back : Held → ℕ → ℕ
  back none n = n
  back (some (key, period)) n = if usage_key env.sha256 key period == u then n - 1 else n

  -- Before the `catch`: a failed answer has given the slot back, a throw has not yet.
  abbrev IsSettled : Held → World → Attempt AttestResult → World → Type 0
  IsSettled held w (done r) v = used u v ≡ (if is_ok r then used u w else back held (used u w))
  IsSettled held w (raised e) v = used u v ≡ used u w

  returned_of_written :
      (w : Write) (key period : String) (s : Store)
      → w ≡ written
      → (release_attestation_usage env.sha256 w key period s).0 ≡ returned tt
  unfolding release_attestation_usage
  returned_of_written written key period s e = ground arith
  returned_of_written (broken n m) key period s e = ground arith

  released :
      (held : Held) (w : World)
      → ((release_reservation env held w).0 ≡ done tt)
        × (used u (release_reservation env held w).1 ≡ back held (used u w))
  unfolding release_reservation on_store
  released none w = (refl, refl)
  released (some (key, period)) w = (
    rw (returned_of_written (env.fate release) key period w.store works, on_store) refl,
    used_at-release env.sha256 (env.fate release) key period w.store u,
  )

  released-IsSettled :
      (held : Held) (r : AttestResult) (w : World)
      → is_ok r ≡ false
      → IsSettled held w
          ((release_reservation env held >>= λ _. pure r) w).0
          ((release_reservation env held >>= λ _. pure r) w).1
  unfolding ◌>>=◌
  released-IsSettled held r w e = let (a, b) = released held w in rw (a, e, ◌>>=◌) b

  module _ (held : Held) where
    moved :
        (v w : World)
        → used u v ≡ used u w
        → (r : Attempt AttestResult) (x : World) → IsSettled held v r x
        → IsSettled held w r x
    moved v w e (done r) x h = rw (sym e) h
    moved v w e (raised f) x h = h ∙ e

    bound :
        {A : Type 0} (f : A → Flow AttestResult)
        → ((a : A) (v : World) → IsSettled held v (f a v).0 (f a v).1)
        → (w v : World) → used u v ≡ used u w
        → (r : Attempt A)
        → IsSettled held w
            (elim r as (λ _. Attempt AttestResult × World) [
              | done a ↦ f a v
              | raised e ↦ (raised e, v)
            ]).0
            (elim r as (λ _. Attempt AttestResult × World) [
              | done a ↦ f a v
              | raised e ↦ (raised e, v)
            ]).1
    bound f h w v e (done a) = moved v w e (f a v).0 (f a v).1 (h a v)
    bound f h w v e (raised x) = e

    quiet-IsSettled :
        {A : Type 0} (m : Flow A) (f : A → Flow AttestResult)
        → IsQuiet m
        → ((a : A) (v : World) → IsSettled held v (f a v).0 (f a v).1)
        → (w : World) → IsSettled held w ((m >>= f) w).0 ((m >>= f) w).1
    unfolding ◌>>=◌
    quiet-IsSettled m f q h w =
        bound f h w (m w).1 (ap (λ d. get_or (Dict.get d u) 0) (q w)) (m w).0

    module _ (req : Request) (clean_hash : String) where
      finish-IsSettled :
          (settlement : Option SettlementResponse) (key : Option ApiKey) (r : AttestResult)
          (w : World)
          → IsSettled held w
              (finish env req clean_hash held settlement key r w).0
              (finish env req clean_hash held settlement key r w).1
      unfolding finish
      finish-IsSettled settlement key (ok s) w =
          quiet-IsSettled (add_receipt_of env _ clean_hash) (λ _. pure (ok _))
            (add_receipt_of-IsQuiet env _ clean_hash) (λ _ v. refl) w
      finish-IsSettled settlement key (payment_required quote quota) w =
          released-IsSettled held (payment_required quote quota) w refl
      finish-IsSettled settlement key (error status e) w =
          released-IsSettled held (error status e) w refl

      submitted-IsSettled :
          (invoice : Option String) (settlement : Option SettlementResponse) (key : Option ApiKey)
          (w : World)
          → IsSettled held w
              (submit_and_finish env req clean_hash held invoice settlement key w).0
              (submit_and_finish env req clean_hash held invoice settlement key w).1
      unfolding submit_and_finish
      submitted-IsSettled invoice settlement key =
          quiet-IsSettled _ _ (submit_to_fdc-IsQuiet env clean_hash invoice _)
            (finish-IsSettled settlement key)

      after_payment-IsSettled :
          (paid : ProcessResult) (w : World)
          → IsSettled held w
              (after_payment env req clean_hash held paid w).0
              (after_payment env req clean_hash held paid w).1
      unfolding after_payment
      after_payment-IsSettled (settled_now id response q) w =
          submitted-IsSettled (some id) (some response) none w
      after_payment-IsSettled (retry_fdc id response q) w =
          submitted-IsSettled (some id) (some response) none w
      after_payment-IsSettled (replay id) w = released-IsSettled held _ w refl
      after_payment-IsSettled (ProcessResult.failed e) w = released-IsSettled held _ w refl

      pay_and_submit-IsSettled :
          (signature : String) (w : World)
          → IsSettled held w
              (pay_and_submit env req clean_hash held signature w).0
              (pay_and_submit env req clean_hash held signature w).1
      unfolding pay_and_submit
      pay_and_submit-IsSettled signature =
          quiet-IsSettled _ _ (on_x402-IsQuiet _) after_payment-IsSettled

      proceed-IsSettled :
          (payer : Payer) (w : World)
          → IsSettled held w
              (proceed env req clean_hash held payer w).0
              (proceed env req clean_hash held payer w).1
      unfolding proceed
      proceed-IsSettled payer w =
          elim (preflight-cases (preflight_xrpl_payment (env.outside.lookup clean_hash) env.now)) [
            | inr (code, status, e) ↦ rw (e, proceed) (released-IsSettled held _ w refl)
            | inl e ↦
                elim payer
                  as (λ p.
                    IsSettled held w (proceed env req clean_hash held p w).0
                      (proceed env req clean_hash held p w).1) [
                        | by_payment signature ↦
                            rw (e, proceed) (pay_and_submit-IsSettled signature w)
                        | by_key k ↦ rw (e, proceed) (submitted-IsSettled none none (some k) w)
                      ]
          ]

      caught :
          (w v : World) (r : Attempt AttestResult)
          → IsSettled held w r v
          → (let (s, x) = elim r as (λ _. Attempt AttestResult × World) [
            | done a ↦ (done a, v)
            | raised e ↦ release_and_throw env held e v
          ] in
              used u x ≡ (if is_success s then used u w else back held (used u w)))
      unfolding release_and_throw ◌>>=◌
      caught w v (done r) h = h
      caught w v (raised e) h = let (a, b) = released held v in rw (a, ◌>>=◌) (b ∙ ap (back held) h)

      -- The whole `try`: what is held is given back unless the request succeeds.
      pub used-guarded :
          (payer : Payer) (w : World)
          → let (r, v) = guarded env req clean_hash held payer w in
            used u v ≡ (if is_success r then used u w else back held (used u w))
      unfolding guarded catching
      used-guarded payer w =
          caught w (proceed env req clean_hash held payer w).1
            (proceed env req clean_hash held payer w).0 (proceed-IsSettled payer w)
