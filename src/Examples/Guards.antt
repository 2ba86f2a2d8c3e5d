-- ===== src/Examples/Guards.antt =====
-- A run of `requireApiKey` of src/middleware.ts.
use xrplink.Prelude.Text.{decimal_text}
use xrplink.Examples.Stores.{sha256, secret, key_store}
use xrplink.Store.{Tier, free, paid, pro, written, broken}
use xrplink.Middleware.{Headers, Gate, window_key}
use xrplink.Middleware.Budget.{Step, requested, expired, passes_on, passes_on-le}
use xrplink.Prelude.{ℕ, ◌≤◌, refl, Option, none, some, List, [], ◌∷◌}

abbrev rate_limits : Tier → Option ℕ
rate_limits free = some 10
rate_limits paid = some 100
rate_limits pro = none

abbrev with_key : Headers
with_key = record {
  x_api_key = some secret;
  authorization = none;
  cookie = none;
  x_admin_key = none;
  x_forwarded_host = none;
  host = none;
  origin = none;
  referer = none;
}

abbrev gate : Gate
gate = record { store = key_store; windows = (window_key secret 60000, 9) ∷ [] }

-- Two requests in the second minute, when nine have passed, and the timer of the first minute.
abbrev steps : List Step
steps =
    requested written 60001 with_key
    ∷ (expired (window_key secret 0) ∷ (requested (broken 1 "disk full") 70000 with_key ∷ []))

minute_example : passes_on sha256 rate_limits (window_key secret 60000) 10 steps gate ≤ 10
unfolding decimal_text
minute_example =
    passes_on-le sha256 rate_limits (window_key secret 60000) 10 steps gate
      (refl, (refl, (refl, tt)))
