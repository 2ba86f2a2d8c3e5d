-- ===== src/Store/ApiKeys.antt =====
-- src/store.ts: the API keys. A key is kept under its id; a row from before the hashing of keys may
-- still stand under the secret itself.
pub mod Laws
pub mod Rekey
use xrplink.Prelude.{
  ℕ, ◌+◌, String, ◌++◌, Bool, true, false, ◌||◌, Option, none, some, List, [], ◌∷◌, ◌==◌,
  if◌then◌else◌, get_or,
}
use xrplink.Dict
use xrplink.Prelude.Text.{split_last_colon}
use xrplink.Keys.{hash_api_key, api_key_lookup_id, api_key_display_parts}
use xrplink.Store.{Tier, ApiKey, Store, PersistedData, Write, Outcome, returned, threw, commit}

abbrev set_api_key : String → ApiKey → Store → PersistedData
set_api_key id k s = record s.data_in_memory { api_keys = Dict.set s.api_keys id k }

unfoldable pub list_api_keys : Store → List ApiKey
list_api_keys s = Dict.values s.api_keys

module _ (sha256 : String → String) where
  abbrev pub new_api_key : ℕ → String → String → Tier → ApiKey
  new_api_key now plaintext name tier = record {
    key = hash_api_key sha256 plaintext;
    name = name;
    tier = tier;
    active = true;
    usage_count = 0;
    created_at = now;
    key_prefix = some (api_key_display_parts plaintext).key_prefix;
    key_last4 = some (api_key_display_parts plaintext).key_last4;
  }

  -- `plaintext` is what `generateApiKeyPlaintext` gives; only the result carries it.
  unfoldable pub create_api_key :
      Write → ℕ → String → String → Tier → Store → Outcome ApiKey × Store
  create_api_key w now plaintext name tier s =
      let k = new_api_key now plaintext name tier in
      commit w (set_api_key (hash_api_key sha256 plaintext) k s) (record k { key = plaintext }) s

  -- The row of a key and the id under which it stands: the hashed id first, then the key itself.
  unfoldable pub find_api_key : String → Store → Option (String × ApiKey)
  find_api_key key s = elim (Dict.get s.api_keys (api_key_lookup_id sha256 key)) [
    | some k ↦ some (api_key_lookup_id sha256 key, k)
    | none ↦ elim (Dict.get s.api_keys key) [ some k ↦ some (key, k) | none ↦ none ]
  ]

  unfoldable pub get_api_key : String → Store → Option ApiKey
  get_api_key key s = elim (find_api_key key s) [ some (id, k) ↦ some k | none ↦ none ]

  -- `if (!id) return false`: a row under the empty id is not deleted.
  unfoldable pub delete_api_key : Write → String → Store → Outcome Bool × Store
  delete_api_key w key s = elim (find_api_key key s) [
    | none ↦ (returned false, s)
    | some (id, k) ↦
        if id == ""
        then (returned false, s)
        else commit w (record s.data_in_memory { api_keys = Dict.remove s.api_keys id }) true s
  ]

  -- `record.field = …` on the row of a key, then the write.
  unfoldable pub change_api_key : (ApiKey → ApiKey) → Write → String → Store → Outcome Bool × Store
  change_api_key f w key s = elim (find_api_key key s) [
    | none ↦ (returned false, s)
    | some (id, k) ↦ commit w (set_api_key id (f k) s) true s
  ]

  -- The source returns nothing: whether there was a row is not seen by its callers.
  unfoldable pub increment_api_key_usage : Write → String → Store → Outcome Bool × Store
  increment_api_key_usage = change_api_key (λ k. record k { usage_count = k.usage_count + 1 })

  unfoldable pub update_api_key_tier : Tier → Write → String → Store → Outcome Bool × Store
  update_api_key_tier tier = change_api_key (λ k. record k { tier = tier })

  unfoldable pub set_api_key_usage_count : ℕ → Write → String → Store → Outcome Bool × Store
  set_api_key_usage_count n = change_api_key (λ k. record k { usage_count = n })

  -- One turn of the loop of `rekeyAttestationUsage`.
  unfoldable pub rekey_entry : String → String → String × ℕ → Dict.Dict ℕ → Dict.Dict ℕ
  rekey_entry old_key new_key (usage_key, n) next =
      let (id, period) = get_or (split_last_colon usage_key) (usage_key, "") in
      let moved = api_key_lookup_id sha256 new_key ++ (":" ++ period) in
      if (api_key_lookup_id sha256 id == api_key_lookup_id sha256 old_key) || (id == old_key)
      then Dict.set next moved (get_or (Dict.get next moved) 0 + n)
      else Dict.set next usage_key n

  unfoldable pub rekey_entries : String → String → List (String × ℕ) → Dict.Dict ℕ → Dict.Dict ℕ
  rekey_entries old_key new_key [] next = next
  rekey_entries old_key new_key (e ∷ entries) next =
      rekey_entries old_key new_key entries (rekey_entry old_key new_key e next)

  unfoldable pub rekey_attestation_usage :
      Write → String → String → Store → Outcome (Unit {0}) × Store
  rekey_attestation_usage w old_key new_key s =
      commit w
        (record s.data_in_memory {
          attestation_usage = rekey_entries old_key new_key s.attestation_usage [];
        })
        tt s
