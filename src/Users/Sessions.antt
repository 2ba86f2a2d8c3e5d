-- ===== src/Users/Sessions.antt =====
-- src/auth.ts: signing up and in, session tokens, and password resets. Token signing, password
-- hashing and SHA-256 are parameters; e-mails are not modelled.
pub mod Laws
use xrplink.Prelude.{
  ℕ, ◌+◌, String, ◌++◌, Bool, true, ◌||◌, Option, none, some, [], ◌∷◌, ◌==◌, ltb, nat_eq,
  if◌then◌else◌, is_some, truthy,
}
use Prim.Native.String.{count}
use xrplink.Dict
use xrplink.Keys.{hash_api_key}
use xrplink.Store.{free, ApiKey, Store, Write, Outcome, returned, threw}
use xrplink.Store.ApiKeys.{create_api_key}
use xrplink.Users.{
  StoredUser, UserStore, find_by_email, find_by_id, create, update, current_session_version,
  bump_session_version, find_by_reset_token_hash,
}

-- `SessionPayload`, the claims of a token.
pub record SessionPayload : Type 0 where
  pub user_id : String
  pub email : String
  pub purpose : Option String
  pub sv : Option ℕ

pub data AuthError : Type 0 where
  email_and_password_required password_too_short email_registered invalid_login invalid_reset :
      AuthError

-- `AuthResult`; a user may be missing after a reset.
pub data AuthResult : Type 0 where
  accepted : Option StoredUser → String → Option String → AuthResult
  refused : AuthError → AuthResult

-- What is not this program. `verify` is `none` if `jwt.verify` throws, a token with no user id included.
pub record Crypto : Type 0 where
  pub sign : SessionPayload → String
  pub verify : String → Option SessionPayload
  pub hash_password : String → String
  pub compare : String → String → Bool
  pub sha256 : String → String

abbrev pub session_token_purpose : String
session_token_purpose = "session"

abbrev pub reset_token_ttl_ms : ℕ
reset_token_ttl_ms = 3600000

module _ (c : Crypto) where
  abbrev pub claims_of : StoredUser → SessionPayload
  claims_of user = record {
    user_id = user.id;
    email = user.email;
    purpose = some session_token_purpose;
    sv = some (current_session_version user);
  }

  unfoldable pub issue_session_token : StoredUser → String
  issue_session_token user = c.sign (claims_of user)

  unfoldable pub verify_token : String → Option SessionPayload
  verify_token token = elim (c.verify token) [
    | none ↦ none
    | some payload ↦ if payload.user_id == "" then none else elim (truthy payload.purpose) [
      | none ↦ some payload
      | some purpose ↦ if purpose == session_token_purpose then some payload else none
    ]
  ]

  -- A token with no version is from before there were versions.
  abbrev pub is_current : SessionPayload → StoredUser → Bool
  is_current payload user = elim payload.sv [
    | none ↦ nat_eq (current_session_version user) 1
    | some sv ↦ nat_eq sv (current_session_version user)
  ]

  unfoldable pub get_user_from_token : String → UserStore → Option StoredUser
  get_user_from_token token s = elim (verify_token token) [
    | none ↦ none
    | some payload ↦ elim (find_by_id payload.user_id s) [
      | none ↦ none
      | some user ↦ if is_current payload user then some user else none
    ]
  ]

  unfoldable pub login : String → String → UserStore → AuthResult
  login email password s =
      if (email == "") || (password == "")
      then refused email_and_password_required
      else elim (find_by_email email s) [
        | none ↦ refused invalid_login
        | some user ↦
            if c.compare password user.password_hash
            then accepted (some user) (issue_session_token user) none
            else refused invalid_login
      ]

  -- `id`, `secret` and `now` are the fresh identifier, the fresh key and the clock.
  unfoldable pub signup :
      Write
      → ℕ
      → String
      → String
      → String
      → String
      → UserStore
      → Store
      → Outcome AuthResult × (UserStore × Store)
  signup w now id secret email password s keys =
      if (email == "") || (password == "")
      then (returned (refused email_and_password_required), (s, keys))
      else if ltb (count password) 8
      then (returned (refused password_too_short), (s, keys))
      else if is_some (find_by_email email s)
      then (returned (refused email_registered), (s, keys))
      else let (user, t) = create now id email (c.hash_password password) s in
        let (key, keys2) = create_api_key c.sha256 w now secret ("User: " ++ email) free keys in
        elim key [
          | threw m ↦ (threw m, (t, keys2))
          | returned k ↦ (
            returned (accepted (some user) (issue_session_token user) (some k.key)),
            (
              update user.id (λ u. record u { api_key_ids = hash_api_key c.sha256 k.key ∷ [] }) t,
              keys2,
            ),
          )
        ]

  -- `token` is 32 random bytes, in text.
  unfoldable pub generate_reset_token : ℕ → String → String → UserStore → Option String × UserStore
  generate_reset_token now token email s = elim (find_by_email email s) [
    | none ↦ (none, s)
    | some user ↦ (
      some token,
      update user.id
          (λ u. record u {
            reset_token_hash = some (c.sha256 token);
            reset_token_expires_at = some (now + reset_token_ttl_ms);
          })
          s,
    )
  ]

  abbrev pub with_password : String → ℕ → StoredUser → StoredUser
  with_password password version u = record u {
    password_hash = c.hash_password password;
    session_version = some version;
    reset_token_hash = none;
    reset_token_expires_at = none;
  }

  -- `!expires || expires < now`
  abbrev pub is_lapsed : ℕ → StoredUser → Bool
  is_lapsed now user = elim user.reset_token_expires_at [
    | none ↦ true
    | some expires ↦ nat_eq expires 0 || ltb expires now
  ]

  unfoldable pub reset_password : ℕ → String → String → UserStore → AuthResult × UserStore
  reset_password now token password s =
      if (token == "") || (password == "")
      then (refused invalid_reset, s)
      else if ltb (count password) 8
      then (refused password_too_short, s)
      else elim (find_by_reset_token_hash (c.sha256 token) s) [
        | none ↦ (refused invalid_reset, s)
        | some user ↦
            if is_lapsed now user
            then (refused invalid_reset, s)
            else let t =
                update user.id (with_password password (current_session_version user + 1)) s in
              (accepted (find_by_id user.id t) "" none, t)
      ]

unfoldable pub revoke_user_sessions : String → UserStore → Option StoredUser × UserStore
revoke_user_sessions id s = bump_session_version id s
