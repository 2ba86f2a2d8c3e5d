-- ===== src/Middleware.antt =====
-- src/middleware.ts, src/session.ts and the admin key of src/api-keys.ts: who gets past a route's
-- guards. Digests, `decodeURIComponent` and the URL parser are parameters.
pub mod Budget
use Prim.Native.String.{count, slice, len}
use text.Mathlib.Text.{starts_with}
use xrplink.Dict
use xrplink.Dict.{Dict}
use xrplink.Prelude.Text.{decimal_text, lower}
use xrplink.Prelude.Split.{split, join}
use xrplink.Environment.{is_effectively_unset, trim}
use xrplink.Store.{Store, ApiKey, Tier, Write}
use xrplink.Store.ApiKeys.{get_api_key, increment_api_key_usage}
use xrplink.Users.{StoredUser, UserStore}
use xrplink.Users.Sessions.{AuthError, Crypto, get_user_from_token}
use xrplink.Prelude.{
  ℕ, ◌+◌, ◌/◌, String, ◌++◌, Bool, false, not, Option, none, some, List, [], ◌∷◌, ◌==◌, ltb, leb,
  if◌then◌else◌, get_or, truthy,
}

-- The headers that the guards read.
pub record Headers : Type 0 where
  pub x_api_key : Option String
  pub authorization : Option String
  pub cookie : Option String
  pub x_admin_key : Option String
  pub x_forwarded_host : Option String
  pub host : Option String
  pub origin : Option String
  pub referer : Option String

-- The codes of `formatError`, each with its status.
pub data Refusal : Type 0 where
  missing_api_key invalid_api_key missing_auth invalid_auth not_found forbidden : Refusal
  missing_url missing_attestation_id webhook_limit invalid_tx_hash : Refusal
  missing_email missing_params : Refusal
  rate_limited : Tier → ℕ → Refusal
  auth_failed : AuthError → Refusal
  too_many : ℕ → ℕ → Refusal

pub data Guarded {ℓ} (A : Type ℓ) : Type ℓ where
  passed : A → Guarded A
  refused : ℕ → Refusal → Guarded A

abbrev pub session_cookie : String
session_cookie = "xrplink_session"

-- The value of the first cookie of the session's name.
abbrev cookie_value : (String → Option String) → String → List String → Option String
cookie_value decode raw_name rest =
    if raw_name == session_cookie
    then some (get_or (decode (join "=" rest)) (join "=" rest))
    else none

abbrev one_cookie : (String → Option String) → List String → Option String
one_cookie decode [] = none
one_cookie decode (raw_name ∷ rest) = cookie_value decode raw_name rest

abbrev find_cookie : (String → Option String) → List String → String
find_cookie decode [] = ""
find_cookie decode (part ∷ parts) =
    let later = find_cookie decode parts in
    elim (one_cookie decode (split b'=' (trim part))) [ some token ↦ token | none ↦ later ]

unfoldable pub get_session_token : (String → Option String) → Headers → String
get_session_token decode h = elim (truthy h.cookie) [
  | none ↦ ""
  | some header ↦ find_cookie decode (split b';' header)
]

unfoldable pub get_request_token : (String → Option String) → Headers → String
unfolding get_session_token
get_request_token decode h =
    let auth = get_or h.authorization "" in
    if starts_with auth "Bearer " then slice auth 7 (len auth) else get_session_token decode h

module _ (c : Crypto) (decode : String → Option String) where
  abbrev with_token : String → UserStore → Guarded StoredUser
  with_token token users =
      if token == "" then refused 401 missing_auth else (elim (get_user_from_token c token users) [
        | none ↦ refused 401 invalid_auth
        | some user ↦ passed user
      ])

  unfoldable pub require_auth : Headers → UserStore → Guarded StoredUser
  unfolding get_request_token
  require_auth h users = with_token (get_request_token decode h) users

  unfoldable pub require_session_cookie : Headers → UserStore → Guarded StoredUser
  unfolding get_session_token
  require_session_cookie h users = with_token (get_session_token decode h) users

  unfoldable pub optional_user : Headers → UserStore → Option StoredUser
  unfolding get_request_token
  optional_user h users =
      let token = get_request_token decode h in
      if token == "" then none else get_user_from_token c token users

-- `process.env.ADMIN_API_KEY`
unfoldable pub get_admin_api_key : Option String → String
get_admin_api_key value = if is_effectively_unset value then "" else get_or value ""

unfoldable pub is_admin_api_key_configured : Option String → Bool
unfolding get_admin_api_key
is_admin_api_key_configured value = ltb 0 (count (get_admin_api_key value))

-- The digests are compared, in constant time.
unfoldable pub timing_safe_equal_string : (String → String) → String → String → Bool
timing_safe_equal_string sha256 a b = sha256 a == sha256 b

unfoldable pub require_admin : (String → String) → Option String → Headers → Guarded (Unit {0})
unfolding is_admin_api_key_configured get_admin_api_key timing_safe_equal_string
require_admin sha256 admin_key h =
    if not (is_admin_api_key_configured admin_key)
    then refused 404 not_found
    else (elim h.x_admin_key [
      | none ↦ refused 403 forbidden
      | some provided ↦
          if timing_safe_equal_string sha256 provided (get_admin_api_key admin_key)
          then passed tt
          else refused 403 forbidden
    ])

abbrev first_part : List String → String
first_part [] = ""
first_part (part ∷ parts) = part

unfoldable pub forwarded_host : Headers → String
forwarded_host h =
    let xf = get_or h.x_forwarded_host "" in
    if trim xf == "" then lower (get_or h.host "") else lower (trim (first_part (split b',' xf)))

module _ (host_of_url : String → Option String) where
  abbrev names_host : String → String → Bool
  names_host url host = elim (host_of_url url) [ none ↦ false | some h ↦ lower h == host ]

  unfoldable pub is_same_origin_request : Headers → Bool
  unfolding forwarded_host
  is_same_origin_request h =
      let host = forwarded_host h in
      if host == "" then false else (elim (truthy h.origin) [
        | some origin ↦ names_host origin host
        | none ↦ elim (truthy h.referer) [ some referer ↦ names_host referer host | none ↦ false ]
      ])

  unfoldable pub require_same_origin : Headers → Guarded (Unit {0})
  unfolding is_same_origin_request
  require_same_origin h = if is_same_origin_request h then passed tt else refused 403 forbidden

-- The store, and `rateLimitWindows`.
pub record Gate : Type 0 where
  pub store : Store
  pub windows : Dict ℕ

abbrev pub window_key : String → ℕ → String
window_key key now = "rl:" ++ (key ++ (":" ++ decimal_text (now / 60000)))

-- `limits` is `config.rateLimits`, with `none` for Infinity.
module _ (sha256 : String → String) (limits : Tier → Option ℕ) where
  abbrev pub count_hit : String → ℕ → ApiKey → ℕ → Gate → Guarded ApiKey × Gate
  count_hit key now k limit g =
      let hits = get_or (Dict.get g.windows (window_key key now)) 0 in
      if leb limit hits
      then (refused 429 (rate_limited k.tier limit), g)
      else (passed k, record g { windows = Dict.set g.windows (window_key key now) (hits + 1) })

  -- The use count is raised without waiting for its write.
  unfoldable pub require_api_key : Write → ℕ → Headers → Gate → Guarded ApiKey × Gate
  require_api_key w now h g = elim (truthy h.x_api_key) [
    | none ↦ (refused 401 missing_api_key, g)
    | some key ↦ elim (get_api_key sha256 key g.store) [
      | none ↦ (refused 403 invalid_api_key, g)
      | some k ↦
          if not k.active
          then (refused 403 invalid_api_key, g)
          else (let t = record g { store = (increment_api_key_usage sha256 w key g.store).1 } in
              elim (limits k.tier) [
                | none ↦ (passed k, t)
                | some limit ↦ count_hit key now k limit t
              ])
    ]
  ]

-- The timer of a window, 60 seconds after one of its hits.
unfoldable pub expire_window : String → Gate → Gate
expire_window key g = record g { windows = Dict.remove g.windows key }
