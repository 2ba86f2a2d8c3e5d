-- ===== src/Quota/Periods.antt =====
-- src/attestation-quota.ts: runs of the fallback billing period.
use xrplink.Prelude.{◌*◌, ◌≡◌, refl}
use xrplink.Quota.{day_of, date_utc, get_fallback_billing_period}

epoch : date_utc 1970 0 1 ≡ 0
unfolding date_utc
epoch = refl

leap_day : day_of (date_utc 2024 1 29 * 86400000) ≡ record { year = 2024; month = 1; day = 29 }
unfolding date_utc day_of
leap_day = refl

new_year : day_of (date_utc 2025 0 1 * 86400000) ≡ record { year = 2025; month = 0; day = 1 }
unfolding date_utc day_of
new_year = refl

-- Created on the 15th of January, asked on the 1st of March.
mid_month :
    get_fallback_billing_period (date_utc 2025 0 15 * 86400000) (date_utc 2025 2 1 * 86400000)
    ≡ record { start = date_utc 2025 1 15 * 86400; end = date_utc 2025 2 15 * 86400 }
unfolding get_fallback_billing_period day_of date_utc
mid_month = refl

-- Created on the 31st of January, asked on the 1st of March: the period begins after the question.
month_end :
    get_fallback_billing_period (date_utc 2025 0 31 * 86400000) (date_utc 2025 2 1 * 86400000)
    ≡ record { start = date_utc 2025 2 3 * 86400; end = date_utc 2025 3 31 * 86400 }
unfolding get_fallback_billing_period day_of date_utc
month_end = refl
