-- ===== src/Users.antt =====
-- src/user-store.ts: the accounts, with their index by e-mail address. The file write that ends an
-- operation is taken to succeed, so the file is what is in memory.
pub mod Load
pub mod Sessions
use xrplink.Prelude.{
  ℕ, ◌+◌, String, ◌++◌, false, not, ◌||◌, Option, none, some, List, [], ◌∷◌, ◌==◌, leb,
  if◌then◌else◌, get_or, truthy, take_last, keep, find, any,
}
use mathlib.Core.List
use xrplink.Dict
use xrplink.Dict.{Dict}
use xrplink.Prelude.Text.{lower, upper, strip_0x}
use xrplink.Keys.{api_key_lookup_id}
use xrplink.Store.{Tier, free}

pub data SubscriptionStatus : Type 0 where
  active past_due canceled nothing : SubscriptionStatus

pub record StoredUser : Type 0 where
  pub id : String
  pub email : String
  pub password_hash : String
  pub api_key_ids : List String
  pub stripe_customer_id : String
  pub stripe_subscription_id : String
  pub tier : Tier
  pub subscription_status : SubscriptionStatus
  pub created_at : ℕ
  pub billing_period_start : Option ℕ
  pub billing_period_end : Option ℕ
  pub receipt_tx_hashes : Option (List String)
  pub session_version : Option ℕ
  pub reset_token_hash : Option String
  pub reset_token_expires_at : Option ℕ

pub record UserStore : Type 0 where
  pub users : Dict StoredUser
  pub email_index : Dict String

-- `id ? users[id] : undefined`
unfoldable pub find_by_email : String → UserStore → Option StoredUser
find_by_email email s = elim (truthy (Dict.get s.email_index (lower email))) [
  | none ↦ none
  | some id ↦ Dict.get s.users id
]

unfoldable pub find_by_id : String → UserStore → Option StoredUser
find_by_id id s = Dict.get s.users id

abbrev pub new_user : ℕ → String → String → String → StoredUser
new_user now id email password_hash = record {
  id = id;
  email = lower email;
  password_hash = password_hash;
  api_key_ids = [];
  stripe_customer_id = "";
  stripe_subscription_id = "";
  tier = free;
  subscription_status = nothing;
  created_at = now;
  billing_period_start = none;
  billing_period_end = none;
  receipt_tx_hashes = some [];
  session_version = some 1;
  reset_token_hash = none;
  reset_token_expires_at = none;
}

-- `id` is the fresh `uuid()`, `now` the clock.
unfoldable pub create : ℕ → String → String → String → UserStore → StoredUser × UserStore
create now id email password_hash s =
    let user = new_user now id email password_hash in
    (
      user,
      record {
        users = Dict.set s.users id user;
        email_index = Dict.set s.email_index (lower email) id;
      },
    )

unfoldable pub find_by_stripe_customer_id : String → UserStore → Option StoredUser
find_by_stripe_customer_id customer_id s =
    find (λ u. u.stripe_customer_id == customer_id) (Dict.values s.users)

-- `{ ...user, ...updates }`, where `change` is what the updates do to a row.
unfoldable pub update : String → (StoredUser → StoredUser) → UserStore → UserStore
update id change s = elim (Dict.get s.users id) [
  | none ↦ s
  | some user ↦ record s { users = Dict.set s.users id (change user) }
]

-- Versions are whole numbers; a missing one, or one below 1, counts as 1.
unfoldable pub current_session_version : StoredUser → ℕ
current_session_version user = elim user.session_version [
  | none ↦ 1
  | some v ↦ if leb 1 v then v else 1
]

unfoldable pub bump_session_version : String → UserStore → Option StoredUser × UserStore
bump_session_version id s = elim (Dict.get s.users id) [
  | none ↦ (none, s)
  | some user ↦
      let t =
        update id (λ u. record u { session_version = some (current_session_version user + 1) }) s in
      (Dict.get t.users id, t)
]

-- `timingSafeEqualString` tells whether two texts are equal; an empty stored hash is skipped.
unfoldable pub find_by_reset_token_hash : String → UserStore → Option StoredUser
find_by_reset_token_hash hash s =
    if hash == ""
    then none
    else find (λ u. elim (truthy u.reset_token_hash) [ none ↦ false | some h ↦ h == hash ])
        (Dict.values s.users)

unfoldable pub delete : String → UserStore → UserStore
delete id s = elim (Dict.get s.users id) [
  | none ↦ s
  | some user ↦ record {
    users = Dict.remove s.users id;
    email_index = Dict.remove s.email_index (lower user.email);
  }
]

-- The hash goes to the end of the list, which keeps its last 100.
unfoldable pub add_receipt : String → String → UserStore → UserStore
add_receipt user_id tx_hash s = elim (Dict.get s.users user_id) [
  | none ↦ s
  | some user ↦
      let hash = upper (strip_0x tx_hash) in
      let existing = keep (λ h. not (h == hash)) (get_or user.receipt_tx_hashes []) in
      record s {
        users = Dict.set s.users user_id (record user {
          receipt_tx_hashes = some (take_last 100 (List.◌++◌ existing (hash ∷ [])));
        });
      }
]

-- The owner of a key by its secret or by its id.
unfoldable pub find_by_api_key : (String → String) → String → UserStore → Option StoredUser
find_by_api_key sha256 api_key s =
    let hashed = api_key_lookup_id sha256 api_key in
    find (λ u. any (λ k. k == api_key) u.api_key_ids || any (λ k. k == hashed) u.api_key_ids)
      (Dict.values s.users)
