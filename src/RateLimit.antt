-- ===== src/RateLimit.antt =====
-- src/rate-limit.ts: the fixed-window limiter. The map of windows is the state, the clock an argument.
pub mod Budget
use xrplink.Prelude.{
  [], ◌∷◌, or_else, ◌*◌, get_or, List, ℕ, ◌+◌, ◌-◌, ◌/◌, max, String, ◌++◌, Bool, true, false, not,
  Option, none, some, ◌==◌, leb, if◌then◌else◌, truthy,
}
use xrplink.Dict
use xrplink.Environment.{trim}
use xrplink.Prelude.Text.{decimal}
use xrplink.Dict.{Dict}

pub record WindowHit : Type 0 where
  pub count : ℕ
  pub reset_at : ℕ

abbrev pub Windows : Type 0
Windows = Dict WindowHit

pub record Verdict : Type 0 where
  pub allowed : Bool
  pub retry_after_sec : ℕ
  pub remaining : ℕ

-- `Math.ceil(ms / 1000)`
abbrev pub ceil_sec : ℕ → ℕ
ceil_sec ms = (ms + 999) / 1000

-- The branch for a key with no window that is still open.
abbrev open_window : String → ℕ → ℕ → ℕ → Windows → Verdict × Windows
open_window key limit window_ms now ws = (
  record { allowed = true; retry_after_sec = ceil_sec window_ms; remaining = limit - 1 },
  Dict.set ws key (record { count = 1; reset_at = now + window_ms }),
)

unfoldable pub consume_rate_limit : String → ℕ → ℕ → ℕ → Windows → Verdict × Windows
consume_rate_limit key limit window_ms now ws = elim (Dict.get ws key) [
  | none ↦ open_window key limit window_ms now ws
  | some existing ↦
      if leb existing.reset_at now
      then open_window key limit window_ms now ws
      else if leb limit existing.count
      then (
        record {
          allowed = false;
          retry_after_sec = max 1 (ceil_sec (existing.reset_at - now));
          remaining = 0;
        },
        ws,
      )
      else (
        record {
          allowed = true;
          retry_after_sec = max 1 (ceil_sec (existing.reset_at - now));
          remaining = limit - (existing.count + 1);
        },
        Dict.set ws key (record existing { count = existing.count + 1 }),
      )
]

-- The answer of a middleware: `next()`, or 429 with the header and the limit of the bucket that is full.
pub data Reply : Type 0 where
  next : Reply
  too_many : ℕ → ℕ → Reply

pub record IpAndEmail : Type 0 where
  pub name : String
  pub ip_limit : ℕ
  pub email_limit : ℕ
  pub window_ms : ℕ

-- `rateLimit`, for a request whose bucket is `id`.
unfoldable pub rate_limit : String → ℕ → ℕ → ℕ → Windows → Reply × Windows
unfolding consume_rate_limit
rate_limit id limit window_ms now ws =
    let (hit, ws') = consume_rate_limit id limit window_ms now ws in
    ((if hit.allowed then next else too_many hit.retry_after_sec limit), ws')

-- `rateLimitIpAndEmail`, for a request of that ip and normalised email.
unfoldable pub rate_limit_ip_and_email :
    IpAndEmail → String → String → ℕ → Windows → Reply × Windows
unfolding consume_rate_limit
rate_limit_ip_and_email opts ip email now ws =
    let (ip_hit, ws') =
      consume_rate_limit (opts.name ++ ("-ip:" ++ ip)) opts.ip_limit opts.window_ms now ws in
    if not ip_hit.allowed
    then (too_many ip_hit.retry_after_sec opts.ip_limit, ws')
    else if email == ""
    then (next, ws')
    else let (email_hit, ws'') =
        consume_rate_limit (opts.name ++ ("-email:" ++ email)) opts.email_limit opts.window_ms now
          ws' in
      (
        (if email_hit.allowed then next else too_many email_hit.retry_after_sec opts.email_limit),
        ws'',
      )

pub record Limits : Type 0 where
  pub verify_ip : ℕ
  pub verify_key : ℕ
  pub signup_ip : ℕ
  pub login_ip : ℕ
  pub reset_ip : ℕ
  pub reset_email : ℕ
  pub contact_ip : ℕ
  pub contact_email : ℕ
  pub receipt_ip : ℕ

-- `envInt`: a value that is not made of digits counts as none.
abbrev pub env_int : Option String → ℕ → ℕ
env_int raw fallback = elim (truthy raw) [ none ↦ fallback | some r ↦ get_or (decimal r) fallback ]

-- `LIMITS`, for what the environment says, and for a deployment that is not production.
unfoldable pub limits_of : (String → Option String) → Bool → Limits
limits_of env is_test =
    let limit = λ (name : String) (test production : ℕ).
      env_int (env name) (if is_test then test else production) in
    record {
      verify_ip = limit "RL_VERIFY_IP" 500 20;
      verify_key = limit "RL_VERIFY_KEY" 500 30;
      signup_ip = limit "RL_SIGNUP_IP" 80 8;
      login_ip = limit "RL_LOGIN_IP" 80 15;
      reset_ip = limit "RL_RESET_IP" 40 5;
      reset_email = limit "RL_RESET_EMAIL" 20 3;
      contact_ip = limit "RL_CONTACT_IP" 40 5;
      contact_email = limit "RL_CONTACT_EMAIL" 20 3;
      receipt_ip = limit "RL_RECEIPT_IP" 200 30;
    }

abbrev pub minute : ℕ
minute = 60000

-- `authWindowMs`: a minute, or an hour in production.
unfoldable pub auth_window_ms : Bool → ℕ
auth_window_ms is_test = if is_test then minute else 60 * minute

-- The header `cf-connecting-ip`: missing, once, or several times.
pub data CfHeader : Type 0 where
  no_header : CfHeader
  one_value : String → CfHeader
  many_values : List String → CfHeader

-- `req.ip || req.socket?.remoteAddress || "unknown"`
abbrev direct_ip : Option String → Option String → String
direct_ip ip remote = get_or (or_else (truthy ip) (truthy remote)) "unknown"

unfoldable pub client_ip : CfHeader → Option String → Option String → String
client_ip no_header ip remote = direct_ip ip remote
client_ip (one_value cf) ip remote = get_or (truthy (some (trim cf))) (direct_ip ip remote)
client_ip (many_values []) ip remote = direct_ip ip remote
client_ip (many_values (cf ∷ more)) ip remote = if cf == "" then direct_ip ip remote else trim cf

pub record Checked : Type 0 where
  pub allowed : Bool
  pub retry_after_sec : ℕ

abbrev checked : Verdict → Checked
checked v = record { allowed = v.allowed; retry_after_sec = v.retry_after_sec }

unfoldable pub check_verify_rate_limit :
    Limits → String → Option String → ℕ → Windows → Checked × Windows
unfolding consume_rate_limit
check_verify_rate_limit limits ip api_key now ws =
    let (ip_hit, ws') = consume_rate_limit ("verify-ip:" ++ ip) limits.verify_ip minute now ws in
    if not ip_hit.allowed then (checked ip_hit, ws') else elim (truthy api_key) [
      | none ↦ (record { allowed = true; retry_after_sec = 0 }, ws')
      | some key ↦
          let (key_hit, ws'') =
            consume_rate_limit ("verify-key:" ++ key) limits.verify_key minute now ws' in
          if not key_hit.allowed
          then (checked key_hit, ws'')
          else (record { allowed = true; retry_after_sec = 0 }, ws'')
    ]
