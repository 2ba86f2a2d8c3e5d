-- ===== src/Quota.antt =====
-- src/attestation-quota.ts: the limits of the tiers, billing periods, and the quota test. The limits
-- are read from the environment and are a parameter; instants are milliseconds since 1970, in UTC.
pub mod Periods
pub mod Agreement
use xrplink.Prelude.{ℕ, zero, suc, ◌+◌, ◌-◌, ◌*◌, ◌/◌, ◌%◌, String, Bool, ltb, leb, if◌then◌else◌}
use xrplink.Prelude.Text.{decimal_text}
use xrplink.Store.{Tier}

-- In seconds.
pub record BillingPeriod : Type 0 where
  pub start : ℕ
  pub end : ℕ

unfoldable pub get_billing_period_key : BillingPeriod → String
get_billing_period_key period = decimal_text period.start

pub record QuotaCheckResult : Type 0 where
  pub allowed : Bool
  pub used : ℕ
  pub limit : ℕ
  pub remaining : ℕ
  pub reset_date : ℕ
  pub tier : Tier
  pub period_key : String

-- `resetDate` is kept as its instant; the source formats it.
unfoldable pub check_quota : (Tier → ℕ) → Tier → ℕ → BillingPeriod → QuotaCheckResult
check_quota limits tier current_usage period = record {
  allowed = ltb current_usage (limits tier);
  used = current_usage;
  limit = limits tier;
  remaining = limits tier - current_usage;
  reset_date = period.end;
  tier = tier;
  period_key = get_billing_period_key period;
}

-- `QuotaExceededError`, without its texts.
pub record QuotaExceededError : Type 0 where
  pub tier : Tier
  pub limit : ℕ
  pub used : ℕ
  pub reset_date : ℕ

unfoldable pub build_quota_exceeded_error : QuotaCheckResult → QuotaExceededError
build_quota_exceeded_error r = record {
  tier = r.tier;
  limit = r.limit;
  used = r.used;
  reset_date = r.reset_date;
}

-- A date as JavaScript counts it: months from 0, days from 1.
pub record Day : Type 0 where
  pub year : ℕ
  pub month : ℕ
  pub day : ℕ

-- The number of a day from 0000-03-01, for a year that begins in March.
abbrev march_day : ℕ → ℕ → ℕ → ℕ
march_day year month_from_march day =
    year * 365 + year / 4 - year / 100 + year / 400 + (153 * month_from_march + 2) / 5 + day - 1

-- `Date.UTC(year, month, day)` in days since 1970, for a day that may be past the month's end.
unfoldable pub date_utc : ℕ → ℕ → ℕ → ℕ
date_utc year month day =
    let y = year + month / 12 in
    let m = month % 12 in
    (if leb 2 m then march_day y (m - 2) day else march_day (y - 1) (m + 10) day) - 719468

-- `getUTCFullYear`, `getUTCMonth` and `getUTCDate` of an instant.
unfoldable pub day_of : ℕ → Day
day_of ms =
    let z = ms / 86400000 + 719468 in
    let era = z / 146097 in
    let doe = z % 146097 in
    let yoe = (doe + doe / 36524 - doe / 1460 - doe / 146096) / 365 in
    let doy = doe - (365 * yoe + yoe / 4 - yoe / 100) in
    let mp = (5 * doy + 2) / 153 in
    let y = yoe + era * 400 in
    record {
      year = if leb 10 mp then y + 1 else y;
      month = if leb 10 mp then mp - 10 else mp + 2;
      day = doy - (153 * mp + 2) / 5 + 1;
    }

-- `Date.UTC(year, month - 1, day)`
abbrev previous_month : ℕ → ℕ → ℕ → ℕ
previous_month year zero day = date_utc (year - 1) 11 day
previous_month year (suc month) day = date_utc year month day

unfoldable pub get_fallback_billing_period : ℕ → ℕ → BillingPeriod
get_fallback_billing_period created_at now =
    let anchor_day = (day_of created_at).day in
    let today = day_of now in
    let this_month = date_utc today.year today.month anchor_day in
    let start =
      if ltb now (this_month * 86400000)
      then previous_month today.year today.month anchor_day
      else this_month in
    let start_day = day_of (start * 86400000) in
    record {
      start = start * 86400;
      end = date_utc start_day.year (start_day.month + 1) anchor_day * 86400;
    }
