-- ===== src/Examples/Accounts.antt =====
-- Runs of src/auth.ts and of the routes of accounts.
use xrplink.Environment.{trim}
use xrplink.Prelude.Split.{split}
use xrplink.Routes.{answer}
use xrplink.Middleware.{get_request_token, Headers, Guarded, passed, invalid_auth, require_auth}
use xrplink.Routes.Accounts.{Credentials, reply, set_to, request_user, post_signup, post_logout}
use xrplink.Routes.Accounts.Laws.{
  signed_up_user, post_signup-require_auth, post_logout-require_auth,
}
use xrplink.Prelude.{◌+◌, arith, eq_iff, String, ◌≡◌, refl, ◌≢◌, true, none, some, [], ◌∷◌}
use xrplink.Examples.Stores.{empty_store}
use xrplink.Store.{written, returned, free, commit}
use xrplink.Keys.{
  hash_api_key, api_key_lookup_id, is_api_key_hash, is_plaintext_api_key, api_key_display_parts,
}
use xrplink.Store.ApiKeys.{new_api_key, create_api_key, get_api_key, find_api_key}
use xrplink.KeyRotation.{
  Rotated, rotate_user_api_key, rotate_current, count_and_retire, chain, retire, finish_rotation,
}
use xrplink.KeyRotation.Laws.{rotate_user_api_key-revokes, without_first}
use xrplink.Dict
use xrplink.Prelude.Text.{lower}
use xrplink.Examples.Stores.{sha256, digest, digest-IsHexDigest}
use xrplink.Users.Load.{load_users, FileUser, UsersFile, wrapped}
use xrplink.Users.Load.Repaired.{load_users-AreRepaired, AreRepaired}
use xrplink.X402.{saved, save_failed}
use xrplink.Users.{
  find_by_email, StoredUser, UserStore, new_user, find_by_reset_token_hash, find_by_id, update,
  current_session_version,
}
use xrplink.Users.Sessions.{
  SessionPayload, accepted, Crypto, claims_of, issue_session_token, verify_token,
  get_user_from_token, reset_password, with_password,
}
use xrplink.Users.Sessions.Laws.{get_user_from_token-reset_password}

-- A user with a pending reset.
abbrev alice : StoredUser
alice = record (new_user 5 "u1" "alice@example.com" "hash") {
  reset_token_hash = some digest;
  reset_token_expires_at = some 9000;
}

abbrev accounts : UserStore
accounts = record { users = ("u1", alice) ∷ []; email_index = ("alice@example.com", "u1") ∷ [] }

abbrev claims : SessionPayload
claims = record {
  user_id = "u1";
  email = "alice@example.com";
  purpose = some "session";
  sv = some 1;
}

-- Every token carries the same claims.
abbrev crypto : Crypto
crypto = record {
  sign = λ payload. "token";
  verify = λ token. some claims;
  hash_password = λ password. password;
  compare = λ password hash. true;
  sha256 = sha256;
}

abbrev new_key : Rotated
new_key = record {
  plaintext = "sk_live_0123456789abcdef";
  public_key = new_api_key sha256 5 "sk_live_0123456789abcdef" "User: alice@example.com" free;
}

verified_token : verify_token crypto "token" ≡ some claims
unfolding verify_token
verified_token = refl

accepted_token : get_user_from_token crypto "token" accounts ≡ some alice
unfolding get_user_from_token verify_token find_by_id Dict.get current_session_version
accepted_token = refl

abbrev device : Headers
device = record {
  x_api_key = none;
  authorization = some "Bearer token";
  cookie = none;
  x_admin_key = none;
  x_forwarded_host = none;
  host = none;
  origin = none;
  referer = none;
}

-- Another device, which sends the cookie.
abbrev browser : Headers
browser = record device { authorization = none; cookie = some "xrplink_session=token" }

keyed_accounts : (i : String) (v : StoredUser) → Dict.get accounts.users i ≡ some v → v.id ≡ i
unfolding Dict.get
keyed_accounts i v e = ground (arith, eq_iff "u1" i)

called_by_alice : request_user crypto some device accounts ≡ some alice
unfolding request_user get_user_from_token verify_token find_by_id Dict.get current_session_version
called_by_alice = refl

browsed_by_alice : require_auth crypto some browser accounts ≡ passed alice
unfolding require_auth split trim get_user_from_token verify_token find_by_id Dict.get
    current_session_version
browsed_by_alice = refl

logout_example :
    require_auth crypto some browser (post_logout crypto some device accounts).1
    ≡ Guarded.refused 401 invalid_auth
logout_example =
    post_logout-require_auth crypto some device browser accounts alice keyed_accounts
      called_by_alice browsed_by_alice

found_by_reset : find_by_reset_token_hash (sha256 "reset") accounts ≡ some alice
unfolding find_by_reset_token_hash
found_by_reset = refl

reset_done :
    (reset_password crypto 8000 "reset" "new password" accounts).0
    ≡ accepted (some (with_password crypto "new password" 2 alice)) "" none
unfolding reset_password find_by_reset_token_hash find_by_id update Dict.get Dict.set
    current_session_version
reset_done = refl

reset_example :
    get_user_from_token crypto "token"
      (reset_password crypto 8000 "reset" "new password" accounts).1
    ≡ none
reset_example =
    get_user_from_token-reset_password crypto "token" claims alice 8000 "reset" "new password"
      accounts verified_token accepted_token refl found_by_reset
      (some (with_password crypto "new password" 2 alice)) "" reset_done

abbrev secret : String
secret = "sk_live_0123456789abcdef"

abbrev bob : Credentials
bob = record { email = some "Bob@example.com"; password = some "long enough" }

abbrev bob_crypto : Crypto
bob_crypto = record crypto {
  verify = λ token. some (record claims { user_id = "u2"; email = "bob@example.com" });
}

abbrev bob_user : StoredUser
bob_user = signed_up_user bob_crypto some 7 "u2" secret "Bob@example.com" "long enough"

bob_named : ◌≢◌ {A = String} "u2" ""
bob_named e = cc

bob_signed :
    bob_crypto.verify (issue_session_token bob_crypto bob_user)
    ≡ some (claims_of bob_crypto bob_user)
unfolding current_session_version lower
bob_signed = refl

bob_token : ◌≢◌ {A = String} (issue_session_token bob_crypto bob_user) ""
unfolding issue_session_token
bob_token e = cc

bob_signed_up :
    (post_signup bob_crypto some written 7 "u2" secret bob accounts empty_store).0
    ≡ reply (answer 201 (record { token = "token"; api_key = some secret })) (set_to "token")
unfolding post_signup find_by_email Dict.get lower create_api_key commit issue_session_token
bob_signed_up = refl

signup_example :
    let after = (post_signup bob_crypto some written 7 "u2" secret bob accounts empty_store).1 in
    (require_auth bob_crypto some browser after.0 ≡ passed bob_user)
    × (some secret ≡ some secret)
    × (get_api_key sha256 secret after.1
        ≡ some (new_api_key sha256 7 secret "User: Bob@example.com" free))
unfolding is_plaintext_api_key is_api_key_hash get_request_token split trim
signup_example =
    post_signup-require_auth bob_crypto some written 7 "u2" secret bob accounts empty_store
      (record { token = "token"; api_key = some secret }) (set_to "token") browser bob_signed
      bob_token digest-IsHexDigest refl refl bob_named bob_signed_up refl

-- The key store of a user with no key yet.
rotated :
    (rotate_user_api_key sha256
      (λ site. written)
      5
      "sk_live_0123456789abcdef"
      alice
      accounts
      empty_store).0
    ≡ returned (some new_key)
unfolding rotate_user_api_key find_by_id rotate_current count_and_retire chain retire
    finish_rotation create_api_key commit get_api_key find_api_key hash_api_key api_key_lookup_id
    is_api_key_hash is_plaintext_api_key Dict.get Dict.set api_key_display_parts lower
rotated = refl

rotated_example :
    let after =
      (rotate_user_api_key sha256
        (λ site. written)
        5
        "sk_live_0123456789abcdef"
        alice
        accounts
        empty_store).1.0 in
    (Dict.get after.users "u1"
      ≡ some (record alice {
        api_key_ids =
            hash_api_key sha256 "sk_live_0123456789abcdef" ∷ without_first alice.api_key_ids;
        session_version = some (current_session_version alice + 1);
      }))
    × (get_user_from_token crypto "token" after ≡ none)
rotated_example =
    rotate_user_api_key-revokes crypto sha256 (λ site. written) 5 "sk_live_0123456789abcdef" "token"
      claims alice accounts empty_store new_key verified_token accepted_token refl rotated

-- Alice's row as an earlier version wrote it: the key itself, and no session version.
abbrev old_alice : FileUser
old_alice = record {
  id = alice.id;
  email = alice.email;
  password_hash = alice.password_hash;
  api_key_ids = some ("sk_live_0123456789abcdef" ∷ []);
  stripe_customer_id = alice.stripe_customer_id;
  stripe_subscription_id = alice.stripe_subscription_id;
  tier = alice.tier;
  subscription_status = alice.subscription_status;
  created_at = alice.created_at;
  billing_period_start = none;
  billing_period_end = none;
  receipt_tx_hashes = none;
  session_version = none;
  reset_token_hash = none;
  reset_token_expires_at = none;
}

abbrev old_file : UsersFile
old_file = wrapped (("u1", old_alice) ∷ [])

loaded_example :
    let first = load_users sha256 saved old_file in
    AreRepaired sha256 (("u1", old_alice) ∷ []) first.memory.users
    × (load_users sha256 (save_failed "disk full") first.file ≡ first)
loaded_example = load_users-AreRepaired sha256 digest-IsHexDigest old_file (save_failed "disk full")
