-- ===== src/Attest/Flow/Quota.antt =====
-- src/attest.ts: a request takes one slot of its key's quota if it succeeds, and none otherwise.
use xrplink.Prelude.{
  ℕ, ◌+◌, ◌<◌, String, ◌≡◌, refl, sym, ap, ◌∙◌, ◌⊎◌, inl, inr, Bool, true, false, ◌&&◌, Option,
  none, some, arith, ◌==◌, eq_iff, ltb, if◌then◌else◌, ltb→lt, Bool-cases, Option-cases, get_or,
}
use xrplink.Dict
use xrplink.Store.{broken, ApiKey, Write, written, Store, returned}
use xrplink.Store.Usage.{usage_key, reserve_attestation_usage, Reservation, get_attestation_usage}
use xrplink.Store.Usage.Laws.{used_at, used_at-reserve}
use xrplink.Quota.{BillingPeriod, get_billing_period_key}
use xrplink.Prelude.Text.{strip_0x, upper}
use xrplink.Attest.{
  World, Attempt, done, raised, release, reserve, Env, Request, AttestResult, Flow, ◌>>=◌, pure,
  on_store,
}
use xrplink.Attest.Effects.{usage, IsQuiet}
use xrplink.Attest.Access.{
  record_receipt_for_caller, Payer, by_payment, by_key, Authority, answered, granted,
  resolve_billing_period,
}
use xrplink.Attest.Flow.{
  attest_by_key, guarded, reserving, after_reservation, reserve_and_proceed, attest_authorized,
  after_check, live_row, is_hex_tx_hash, attest_clean, attest_xrp_payment,
}
use xrplink.Attest.Flow.Quiet.{
  record_receipt-IsQuiet, over_quota-IsQuiet, verified_on_chain-IsQuiet, authorize-IsQuiet,
}
use xrplink.Attest.Flow.Counted.{used, is_success, back, used-guarded}

module _ (env : Env) where
  -- No counter has moved.
  abbrev pub Unchanged : World → World → Type 0
  Unchanged w v = (u : String) → used u v ≡ used u w

  -- The counter of the key in the period was below the limit of its tier and is one up; no other moved.
  pub record IsCounted (key : ApiKey) (period : String) (w v : World) : Type 0 where
    pub below : used (usage_key env.sha256 key.key period) w < env.limits key.tier
    pub counted :
        (u : String)
        → used u v ≡ (if usage_key env.sha256 key.key period == u then used u w + 1 else used u w)

  -- On mainnet, the request that ended with an attestation took one slot of one key.
  pub record IsCharged (w v : World) (r : Attempt AttestResult) : Type 0 where
    pub on_mainnet : env.is_mainnet ≡ true
    pub successful : is_success r ≡ true
    pub key : ApiKey
    pub period : String
    pub taken : IsCounted key period w v

  abbrev pub Verdict : World → Attempt AttestResult × World → Type 0
  Verdict w (r, v) = Unchanged w v ⊎ IsCharged w v r

  from_unchanged :
      (w v : World) (m : Attempt AttestResult × World) → Unchanged w v → Verdict v m → Verdict w m
  from_unchanged w v m same (inl k) = inl (λ u. k u ∙ same u)
  from_unchanged w v m same (inr k) = inr (record {
    on_mainnet = k.on_mainnet;
    successful = k.successful;
    key = k.key;
    period = k.period;
    taken = record {
      below = rw (sym (same (usage_key env.sha256 k.key.key k.period))) k.taken.below;
      counted = λ u. rw (sym (same u)) (k.taken.counted u);
    };
  })

  Unchanged-of_usage : (w v : World) → usage v ≡ usage w → Unchanged w v
  Unchanged-of_usage w v e u = ap (λ d. get_or (Dict.get d u) 0) e

  abbrev slot : Bool → ℕ → Reservation
  slot given n = record { reserved = given; used = if given then n + 1 else n }

  reservation_of :
      (x : Write) (key period : String) (limit : ℕ) (s : Store)
      → x ≡ written
      → let n = used_at (usage_key env.sha256 key period) s in
        (reserve_attestation_usage env.sha256 x key period limit s).0
        ≡ returned (slot (ltb n limit) n)
  unfolding reserve_attestation_usage get_attestation_usage
  reservation_of written key period limit s e = ground arith
  reservation_of (broken n m) key period limit s e = ground arith

  bound :
      {A : Type 0} (f : A → Flow AttestResult)
      → ((a : A) (v : World) → Verdict v (f a v))
      → (w v : World) → Unchanged w v
      → (r : Attempt A)
      → Verdict w (elim r as (λ _. Attempt AttestResult × World) [
        | done a ↦ f a v
        | raised e ↦ (raised e, v)
      ])
  bound f h w v same (done a) = from_unchanged w v (f a v) same (h a v)
  bound f h w v same (raised e) = inl same

  quiet-Verdict :
      {A : Type 0} (m : Flow A) (f : A → Flow AttestResult)
      → IsQuiet m
      → ((a : A) (v : World) → Verdict v (f a v))
      → (w : World) → Verdict w ((m >>= f) w)
  unfolding ◌>>=◌
  quiet-Verdict m f q h w = bound f h w (m w).1 (Unchanged-of_usage w (m w).1 (q w)) (m w).0

  module _ (released : env.fate release ≡ written) (reserved : env.fate reserve ≡ written)
      (req : Request) (clean_hash : String) where
    module _ (key : ApiKey) (period : BillingPeriod) (w : World) where
      abbrev key_period : String
      key_period = get_billing_period_key period

      abbrev counter : String
      counter = usage_key env.sha256 key.key key_period

      -- The world after the reservation.
      abbrev reserved_world : World
      reserved_world = record w {
        store =
            (reserve_attestation_usage env.sha256 (env.fate reserve) key.key key_period
              (env.limits key.tier) w.store).1;
      }

      used-reserved :
          (u : String)
          → used u reserved_world ≡ (
              if ltb (used counter w) (env.limits key.tier) && (counter == u)
              then used counter w + 1
              else used u w)
      used-reserved u =
          used_at-reserve env.sha256 (env.fate reserve) key.key key_period (env.limits key.tier)
            w.store u

      on_slot :
          env.is_mainnet ≡ true
          → ltb (used counter w) (env.limits key.tier) ≡ true
          → Verdict w
              (guarded env req clean_hash (some (key.key, key_period)) (by_key key) reserved_world)
      on_slot mainnet free =
          let m =
            guarded env req clean_hash (some (key.key, key_period)) (by_key key) reserved_world in
          let count : (u : String)
              → used u m.1 ≡ (
                  if is_success m.0
                  then used u reserved_world
                  else back env released u (some (key.key, key_period)) (used u reserved_world)) =
            λ u.
              used-guarded env released u (some (key.key, key_period)) req clean_hash (by_key key)
                reserved_world in
          elim (Bool-cases (is_success m.0)) [
            | inl good ↦ inr (record {
              on_mainnet = mainnet;
              successful = good;
              key = key;
              period = key_period;
              taken = record {
                below = ltb→lt _ _ free;
                counted = λ u. ground (arith, count u, used-reserved u, eq_iff counter u);
              };
            })
            | inr bad ↦ inl (λ u. ground (arith, count u, used-reserved u, eq_iff counter u))
          ]

      opened :
          (reserving env key key_period >>= after_reservation env req clean_hash key period) w
          ≡ after_reservation env req clean_hash key period
              (slot (ltb (used counter w) (env.limits key.tier)) (used counter w))
              reserved_world
      unfolding ◌>>=◌ on_store
      opened =
          rw
            (
              reservation_of (env.fate reserve) key.key key_period (env.limits key.tier) w.store
                  reserved,
              on_store,
              ◌>>=◌,
            )
            refl

      after_slot :
          env.is_mainnet ≡ true
          → Verdict w
              ((reserving env key key_period >>= after_reservation env req clean_hash key period) w)
      after_slot mainnet = elim (Bool-cases (ltb (used counter w) (env.limits key.tier))) [
        | inl free ↦ rw (opened, free) (on_slot mainnet free)
        | inr full ↦
            rw (opened, full)
              (inl (λ u.
                ap (λ d. get_or (Dict.get d u) 0)
                  (over_quota-IsQuiet env clean_hash key (used counter w) period reserved_world)
                ∙ (ground (arith, used-reserved u))))
      ]

    unheld : (payer : Payer) (w : World) → Verdict w (guarded env req clean_hash none payer w)
    unheld payer w =
        inl (λ u. ground (arith, used-guarded env released u none req clean_hash payer w))

    by_key-Verdict :
        (mainnet : Bool) (k : ApiKey) (w : World)
        → env.is_mainnet ≡ mainnet
        → Verdict w (attest_by_key env mainnet req clean_hash k w)
    unfolding attest_by_key reserve_and_proceed
    by_key-Verdict true k w e = after_slot k (resolve_billing_period env k w) w e
    by_key-Verdict false k w e = unheld (by_key k) w

    attest_authorized-Verdict :
        (authority : Authority) (w : World)
        → Verdict w (attest_authorized env req clean_hash authority w)
    unfolding attest_authorized
    attest_authorized-Verdict (answered r) w = inl (λ u. refl)
    attest_authorized-Verdict (granted (by_payment signature)) w = unheld (by_payment signature) w
    attest_authorized-Verdict (granted (by_key k)) w = by_key-Verdict env.is_mainnet k w refl

    after_check-Verdict :
        (verdict : Option AttestResult) (w : World)
        → Verdict w (after_check env req clean_hash verdict w)
    unfolding after_check
    after_check-Verdict (some r) w = inl (λ u. refl)
    after_check-Verdict none w =
        quiet-Verdict _ _ (authorize-IsQuiet env req clean_hash) attest_authorized-Verdict w

    receipt-Verdict :
        (r : AttestResult) (w : World)
        → Verdict w ((record_receipt_for_caller env req clean_hash >>= λ _. pure r) w)
    receipt-Verdict r =
        quiet-Verdict _ _ (record_receipt-IsQuiet env req clean_hash) (λ _ v. inl (λ u. refl))

    attest_clean-Verdict : (w : World) → Verdict w (attest_clean env req clean_hash w)
    unfolding attest_clean
    attest_clean-Verdict w = elim (Option-cases (live_row env clean_hash w)) [
      | inl e ↦
          rw (e, attest_clean)
            (quiet-Verdict _ _ (verified_on_chain-IsQuiet env req clean_hash) after_check-Verdict w)
      | inr (a, e) ↦ rw (e, attest_clean) (receipt-Verdict _ w)
    ]

  -- If the writes of reserving and of releasing a slot work, whatever else throws: a request leaves
  -- every quota counter as it was, or it is on mainnet, it ends with an attestation, and it has taken
  -- one slot of one key, whose counter was below the limit of the key's tier.
  pub attest_xrp_payment-quota :
      (req : Request) (w : World)
      → env.fate release ≡ written
      → env.fate reserve ≡ written
      → Verdict w (attest_xrp_payment env req w)
  unfolding attest_xrp_payment
  attest_xrp_payment-quota req w released reserved =
      let clean_hash = upper (strip_0x req.tx_hash) in
      elim (Bool-cases (req.tx_hash == "")) [
        | inl e ↦ rw (e, attest_xrp_payment) (inl (λ u. refl))
        | inr e ↦ elim (Bool-cases (is_hex_tx_hash clean_hash)) [
          | inl f ↦
              rw (e, f, attest_xrp_payment)
                (attest_clean-Verdict released reserved req clean_hash w)
          | inr f ↦ rw (e, f, attest_xrp_payment) (inl (λ u. refl))
        ]
      ]
