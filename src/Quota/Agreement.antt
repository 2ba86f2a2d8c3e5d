-- ===== src/Quota/Agreement.antt =====
-- src/attestation-quota.ts and src/store.ts: the quota test and the reservation agree.
use xrplink.Prelude.{ℕ, ◌+◌, ◌-◌, String, ◌≡◌, arith, if◌then◌else◌}
use xrplink.Store.{Tier, Store, written, returned}
use xrplink.Store.Usage.{Reservation, get_attestation_usage, reserve_attestation_usage}
use xrplink.Quota.{BillingPeriod, check_quota, get_billing_period_key}

-- If its write works, the reservation of a slot in a period is granted exactly if the quota test for
-- the count before it allows one more attestation, and it reports the count with the slot that it
-- took. What the quota test says is left over goes down by one then, and stays at nothing when the
-- reservation is refused.
reserve-check_quota :
    (sha256 : String → String) (limits : Tier → ℕ) (tier : Tier) (key : String)
    (period : BillingPeriod) (s : Store)
    → let n = get_attestation_usage sha256 key (get_billing_period_key period) s in
      let before = check_quota limits tier n period in
      let reservation : Reservation = record {
        reserved = before.allowed;
        used = if before.allowed then n + 1 else n;
      } in
      ((reserve_attestation_usage sha256 written key
          (get_billing_period_key period)
          (limits tier)
          s).0
        ≡ returned reservation)
      × ((check_quota limits tier reservation.used period).remaining ≡ before.remaining - 1)
unfolding check_quota reserve_attestation_usage get_billing_period_key
reserve-check_quota sha256 limits tier key period s = (ground arith, ground arith)
