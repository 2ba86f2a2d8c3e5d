-- ===== src/Routes/Accounts.antt =====
-- src/routes.ts: the routes of accounts and the dashboard, after their rate limits. A reply is an answer
-- and what it does to the session cookie.
pub mod Laws
use xrplink.Dict
use xrplink.Keys.{hash_api_key}
use xrplink.Store.{ApiKey, Tier, Store, Write, Outcome, returned, threw}
use xrplink.Store.ApiKeys.{get_api_key, list_api_keys}
use xrplink.Users.{StoredUser, UserStore, find_by_id, add_receipt}
use xrplink.Users.Sessions.{
  Crypto, AuthResult, accepted, refused, signup, login, get_user_from_token, issue_session_token,
  revoke_user_sessions, generate_reset_token, reset_password,
}
use xrplink.KeyRotation.{Site, Rotated, rotate_user_api_key}
use xrplink.RateLimit.{Limits, Windows, consume_rate_limit, check_verify_rate_limit, minute}
use xrplink.Middleware.{
  Headers, Guarded, passed, Refusal, auth_failed, missing_email, missing_params, not_found,
  too_many, get_request_token,
}
use xrplink.Attest.{World, Attempt, done, raised, Env, Request, AttestResult, ok, Flow}
use xrplink.Attest.Flow.{attest_xrp_payment}
use xrplink.Routes.{Answer, answer, refusal, failed, PublicApiKey, to_public_api_key}
use xrplink.Prelude.{
  ℕ, zero, suc, ◌+◌, ◌-◌, ◌*◌, ◌/◌, ◌%◌, ◌^◌, ◌≤◌, ◌<◌, min, max, String, ◌++◌, ◌≡◌, refl, sym, ap,
  ◌∙◌, ◌≢◌, ◌↔◌, ◌⊎◌, inl, inr, Bool, true, false, not, ◌&&◌, ◌||◌, Option, none, some, List, [],
  ◌∷◌, arith, ◌==◌, eq_iff, eq_refl, ltb, leb, nat_eq, if◌then◌else◌, ltb→lt, lt→ltb, Bool-cases,
  Option-cases, is_some, get_or, or_else, truthy, truthy_of_ne, length, take, drop, take_last, keep,
  find, any, length-append, All, concat, newest_first,
}

pub data SessionCookie : Type 0 where
  unchanged cleared : SessionCookie
  set_to : String → SessionCookie

pub data CookieReply {ℓ} (A : Type ℓ) : Type ℓ where
  reply : Answer A → SessionCookie → CookieReply A

-- `verifyRateLimit`
unfoldable pub verify_rate_limit :
    Limits → String → Option String → ℕ → Windows → Guarded (Unit {0}) × Windows
unfolding check_verify_rate_limit
verify_rate_limit limits ip key now ws =
    let (hit, ws') = check_verify_rate_limit limits ip key now ws in
    (
      (if hit.allowed
          then passed tt
          else Guarded.refused 429 (too_many hit.retry_after_sec limits.verify_ip)),
      ws',
    )

-- `allowReceiptXrplLookup`
unfoldable pub allow_receipt_xrpl_lookup : ℕ → String → ℕ → Windows → Guarded (Unit {0}) × Windows
unfolding consume_rate_limit
allow_receipt_xrpl_lookup receipt_ip ip now ws =
    let (hit, ws') = consume_rate_limit ("receipt-xrpl:" ++ ip) receipt_ip minute now ws in
    (
      (if hit.allowed
          then passed tt
          else Guarded.refused 429 (too_many hit.retry_after_sec receipt_ip)),
      ws',
    )

-- `req.body || {}`
pub record Credentials : Type 0 where
  pub email : Option String
  pub password : Option String

pub record Issued : Type 0 where
  pub token : String
  pub api_key : Option String

pub record SessionUser : Type 0 where
  pub id : String
  pub email : String
  pub tier : Tier

pub record Me : Type 0 where
  pub user : SessionUser
  pub created_at : ℕ
  pub usage_count : ℕ
  pub api_keys : List PublicApiKey

abbrev session_user : StoredUser → SessionUser
session_user u = record { id = u.id; email = u.email; tier = u.tier }

abbrev authenticated : ℕ → ℕ → AuthResult → CookieReply Issued
authenticated good bad (refused e) = reply (refusal bad (auth_failed e)) unchanged
authenticated good bad (accepted u token key) =
    reply (answer good (record { token = token; api_key = key })) (set_to token)

abbrev pub signed_up : Outcome AuthResult → CookieReply Issued
signed_up (threw m) = reply (failed m) unchanged
signed_up (returned r) = authenticated 201 400 r

abbrev usage_of : List ApiKey → ℕ
usage_of [] = 0
usage_of (k ∷ keys) = k.usage_count + usage_of keys

abbrev public_keys : List ApiKey → List PublicApiKey
public_keys [] = []
public_keys (k ∷ keys) = to_public_api_key false k ∷ public_keys keys

-- The keys of an account, by the id of the row or by the digest of an old row in plain text.
abbrev pub keys_of : (String → String) → StoredUser → Store → List ApiKey
keys_of sha256 user s =
    keep
      (λ k.
        any (λ i. i == k.key) user.api_key_ids
        || any (λ i. i == hash_api_key sha256 k.key) user.api_key_ids)
      (list_api_keys s)

module _ (c : Crypto) (decode : String → Option String) where
  -- `requestUser`
  unfoldable pub request_user : Headers → UserStore → Option StoredUser
  unfolding get_request_token
  request_user h users =
      let token = get_request_token decode h in
      if token == "" then none else get_user_from_token c token users

  -- POST /auth/signup
  unfoldable pub post_signup :
      Write
      → ℕ
      → String
      → String
      → Credentials
      → UserStore
      → Store
      → CookieReply Issued × (UserStore × Store)
  unfolding signup
  post_signup w now id secret body users s =
      let (r, after) =
        signup c w now id secret (get_or body.email "") (get_or body.password "") users s in
      (signed_up r, after)

  -- POST /auth/login
  unfoldable pub post_login : Credentials → UserStore → CookieReply Issued
  unfolding login
  post_login body users =
      authenticated 200 401 (login c (get_or body.email "") (get_or body.password "") users)

  -- POST /auth/logout
  unfoldable pub post_logout : Headers → UserStore → CookieReply (Unit {0}) × UserStore
  unfolding request_user
  post_logout h users = (
    reply (answer 200 tt) cleared,
    elim (request_user h users) [
      | none ↦ users
      | some user ↦ (revoke_user_sessions user.id users).1
    ],
  )

  -- GET /auth/session
  unfoldable pub get_session : Headers → UserStore → CookieReply (Option SessionUser)
  unfolding request_user
  get_session h users = elim (request_user h users) [
    | none ↦ reply (answer 200 none) unchanged
    | some user ↦
        reply (answer 200 (some (session_user user))) (set_to (issue_session_token c user))
  ]

  -- POST /auth/reset-password: the answer does not tell whether there is such an account.
  unfoldable pub post_reset_password :
      ℕ → String → Option String → UserStore → CookieReply (Unit {0}) × UserStore
  unfolding generate_reset_token
  post_reset_password now token email users = elim (truthy email) [
    | none ↦ (reply (refusal 400 missing_email) unchanged, users)
    | some e ↦ (reply (answer 200 tt) unchanged, (generate_reset_token c now token e users).1)
  ]

  abbrev reset : AuthResult → CookieReply (Unit {0})
  reset (refused e) = reply (refusal 401 (auth_failed e)) unchanged
  reset (accepted u token key) = reply (answer 200 tt) unchanged

  -- POST /auth/reset-password/confirm
  unfoldable pub post_reset_confirm :
      ℕ → Option String → Option String → UserStore → CookieReply (Unit {0}) × UserStore
  unfolding reset_password
  post_reset_confirm now token password users = elim (truthy token) [
    | none ↦ (reply (refusal 400 missing_params) unchanged, users)
    | some t ↦ elim (truthy password) [
      | none ↦ (reply (refusal 400 missing_params) unchanged, users)
      | some p ↦ let (r, after) = reset_password c now t p users in (reset r, after)
    ]
  ]

  -- GET /me, for the user that passed `requireAuth`.
  unfoldable pub get_me : StoredUser → Store → CookieReply Me
  get_me user s =
      let keys = keys_of c.sha256 user s in
      reply
        (answer 200 (record {
          user = session_user user;
          created_at = user.created_at;
          usage_count = usage_of keys;
          api_keys = public_keys keys;
        }))
        (set_to (issue_session_token c user))

  abbrev fresh_token : StoredUser → UserStore → Option String
  fresh_token user users = elim (find_by_id user.id users) [
    | none ↦ none
    | some fresh ↦ some (issue_session_token c fresh)
  ]

  abbrev cookie_of : Option String → SessionCookie
  cookie_of none = unchanged
  cookie_of (some token) = set_to token

  abbrev rotated_reply :
      StoredUser → UserStore → Outcome (Option Rotated) → CookieReply (Rotated × Option String)
  rotated_reply user after (threw m) = reply (failed m) unchanged
  rotated_reply user after (returned none) = reply (refusal 404 not_found) unchanged
  rotated_reply user after (returned (some r)) =
      reply (answer 200 (r, fresh_token user after)) (cookie_of (fresh_token user after))

  -- POST /api/v1/keys/rotate, after its guards.
  unfoldable pub post_rotate :
      (Site → Write)
      → ℕ
      → String
      → StoredUser
      → UserStore
      → Store
      → CookieReply (Rotated × Option String) × (UserStore × Store)
  unfolding rotate_user_api_key
  post_rotate fate now secret user users s =
      let (r, after) = rotate_user_api_key c.sha256 fate now secret user users s in
      (rotated_reply user after.0 r, after)

-- POST /api/v1/dashboard/verify, after its guards: the receipt is listed only if the request is answered
-- with an attestation.
module _ (env : Env) where
  abbrev with_receipt : String → Attempt AttestResult → World → World
  with_receipt id (done (ok body)) w = record w { users = add_receipt id body.tx_hash w.users }
  with_receipt id (done r) w = w
  with_receipt id (raised e) w = w

  abbrev verified_as : StoredUser → Option String → ApiKey → World → Attempt AttestResult × World
  verified_as user tx_hash k w =
      let (r, v) =
        attest_xrp_payment env
          (record {
            tx_hash = get_or tx_hash "";
            api_key_header = none;
            api_key_record = some k;
            payment_signature = none;
          })
          w in
      (r, with_receipt user.id r v)

  abbrev linked_key : StoredUser → Store → Option ApiKey
  linked_key user s = elim user.api_key_ids [
    | [] ↦ none
    | id ∷ ids ↦ if id == "" then none else get_api_key env.sha256 id s
  ]

  unfoldable pub post_dashboard_verify :
      StoredUser → Option String → World → Option (Attempt AttestResult) × World
  unfolding attest_xrp_payment
  post_dashboard_verify user tx_hash w = elim (linked_key user w.store) [
    | none ↦ (none, w)
    | some k ↦
        if k.active then (let (r, v) = verified_as user tx_hash k w in (some r, v)) else (none, w)
  ]
