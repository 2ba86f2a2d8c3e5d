-- ===== src/KeyRotation.antt =====
-- src/key-rotation.ts: a user's first key is replaced by a new one.
pub mod Laws
use xrplink.Prelude.{
  ℕ, ◌+◌, String, ◌++◌, Bool, true, not, Option, none, some, [], ◌∷◌, ◌==◌, ltb, if◌then◌else◌,
  get_or, truthy, keep,
}
use xrplink.Keys.{hash_api_key}
use xrplink.Store.{Tier, ApiKey, Store, Write, Outcome, returned, threw}
use xrplink.Store.ApiKeys.{
  create_api_key, get_api_key, delete_api_key, set_api_key_usage_count, rekey_attestation_usage,
}
use xrplink.Users.{StoredUser, UserStore, find_by_id, update, current_session_version}

-- The four writes of the store, in their order.
pub data Site : Type 0 where
  creating counting rekeying deleting : Site

-- The secret of the new key, and its row as it is shown.
pub record Rotated : Type 0 where
  pub plaintext : String
  pub public_key : ApiKey

abbrev pub Result : Type 0
Result = Outcome (Option Rotated) × (UserStore × Store)

-- What `await` does with a store operation that throws.
unfoldable pub chain : {A : Type 0} → UserStore → Outcome A × Store → (A → Store → Result) → Result
chain users (returned a, s) k = k a s
chain users (threw m, s) k = (threw m, (users, s))

abbrev first_id : StoredUser → Option String
first_id user = elim user.api_key_ids [ [] ↦ none | id ∷ ids ↦ some id ]

-- `id !== oldId`
abbrev differs : Option String → String → Bool
differs none id = true
differs (some old) id = not (id == old)

-- The change of the account: the new id first, and every session revoked.
abbrev pub with_new_key : String → StoredUser → StoredUser → StoredUser
with_new_key new_id current u = record u {
  api_key_ids = new_id ∷ keep (differs (first_id current)) current.api_key_ids;
  session_version = some (current_session_version current + 1);
}

module _ (sha256 : String → String) (fate : Site → Write) where
  unfoldable pub retire : UserStore → Option String → String → Store → (Store → Result) → Result
  retire users none new_id s k = k s
  retire users (some old) new_id s k =
      chain users (rekey_attestation_usage sha256 (fate rekeying) old new_id s)
        (λ _ t. chain users (delete_api_key sha256 (fate deleting) old t) (λ _ v. k v))

  unfoldable pub finish_rotation : StoredUser → UserStore → ApiKey → Store → Result
  finish_rotation current users created s =
      let new_id = hash_api_key sha256 created.key in
      (
        returned (
            some (record {
              plaintext = created.key;
              public_key = get_or (get_api_key sha256 new_id s) (record created { key = new_id });
            })),
        (update current.id (with_new_key new_id current) users, s),
      )

  unfoldable pub count_and_retire :
      StoredUser → Option String → ℕ → UserStore → ApiKey → Store → Result
  count_and_retire current old usage users created s =
      let new_id = hash_api_key sha256 created.key in
      let counted : Outcome Bool × Store =
        if ltb 0 usage
        then set_api_key_usage_count sha256 usage (fate counting) new_id s
        else (returned true, s) in
      chain users counted
        (λ _ t. retire users old new_id t (λ v. finish_rotation current users created v))

  unfoldable pub rotate_current : ℕ → String → StoredUser → UserStore → Store → Result
  rotate_current now secret current users s =
      let old = truthy (first_id current) in
      let old_record : Option ApiKey = elim old [
        | none ↦ none
        | some id ↦ get_api_key sha256 id s
      ] in
      let name : String =
        get_or (truthy (elim old_record [ none ↦ none | some r ↦ some r.name ]))
          ("User: " ++ current.email) in
      let usage : ℕ = elim old_record [ none ↦ 0 | some r ↦ r.usage_count ] in
      chain users (create_api_key sha256 (fate creating) now secret name current.tier s)
        (count_and_retire current old usage users)

  -- `secret` is the key that `createApiKey` generates.
  unfoldable pub rotate_user_api_key : ℕ → String → StoredUser → UserStore → Store → Result
  rotate_user_api_key now secret user users s = elim (find_by_id user.id users) [
    | none ↦ (returned none, (users, s))
    | some current ↦ rotate_current now secret current users s
  ]
