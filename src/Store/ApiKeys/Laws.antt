-- ===== src/Store/ApiKeys/Laws.antt =====
-- src/store.ts: which API keys are found after a key is created, changed or deleted.
use xrplink.Prelude.{
  ℕ, String, ◌≡◌, sym, ap, ◌∙◌, ◌≢◌, ◌⊎◌, inl, inr, true, false, none, some, arith, ◌==◌, eq_iff,
  eq_refl, Option-cases,
}
use xrplink.Dict
use xrplink.Dict.{get-set, get-remove}
use xrplink.Keys.{
  api_key_lookup_id-hash_api_key, lookup_id-secret, IsHexDigest, is_plaintext_api_key,
  is_api_key_hash, hash_api_key, api_key_lookup_id,
}
use xrplink.Store.{Tier, ApiKey, Store, Write, data_in_memory-commit}
use xrplink.Store.ApiKeys.{new_api_key, create_api_key, find_api_key, get_api_key, delete_api_key}

module _ (sha256 : String → String) where
  get_api_key-of_row :
      (key : String) (k : ApiKey) (s : Store)
      → Dict.get s.api_keys (api_key_lookup_id sha256 key) ≡ some k
      → get_api_key sha256 key s ≡ some k
  unfolding get_api_key find_api_key
  get_api_key-of_row key k s e = ground arith

  find_api_key-of_row :
      (key : String) (k : ApiKey) (s : Store)
      → Dict.get s.api_keys (api_key_lookup_id sha256 key) ≡ some k
      → find_api_key sha256 key s ≡ some (api_key_lookup_id sha256 key, k)
  unfolding find_api_key
  find_api_key-of_row key k s e = ground arith

  find_api_key-of_no_row :
      (key : String) (s : Store)
      → Dict.get s.api_keys (api_key_lookup_id sha256 key) ≡ none
      → Dict.get s.api_keys key ≡ none
      → find_api_key sha256 key s ≡ none
  unfolding find_api_key
  find_api_key-of_no_row key s e f = ground arith

  get_api_key-of_no_row :
      (key : String) (s : Store)
      → Dict.get s.api_keys (api_key_lookup_id sha256 key) ≡ none
      → Dict.get s.api_keys key ≡ none
      → get_api_key sha256 key s ≡ none
  unfolding get_api_key find_api_key
  get_api_key-of_no_row key s e f = ground arith

  -- A key that was created is found by its secret, and by the id that the store keeps it under,
  -- whatever the fate of the write, and the row that is found does not hold the secret but its hash.
  pub get_api_key-create_api_key :
      (w : Write) (now : ℕ) (secret name : String) (tier : Tier) (s : Store)
      → IsHexDigest sha256
      → is_plaintext_api_key secret ≡ true
      → is_api_key_hash secret ≡ false
      → let t = (create_api_key sha256 w now secret name tier s).1 in
        (get_api_key sha256 secret t ≡ some (new_api_key sha256 now secret name tier))
        × (get_api_key sha256 (hash_api_key sha256 secret) t
            ≡ some (new_api_key sha256 now secret name tier))
  unfolding create_api_key
  get_api_key-create_api_key w now secret name tier s hex plain raw =
      let k = new_api_key sha256 now secret name tier in
      let id = hash_api_key sha256 secret in
      let t = (create_api_key sha256 w now secret name tier s).1 in
      let row : Dict.get t.api_keys id ≡ some k =
        ap (λ d. Dict.get d.api_keys id) (data_in_memory-commit w _ _ s)
        ∙ (ground (arith, get-set s.api_keys id id k, eq_refl id)) in
      let by_secret : api_key_lookup_id sha256 secret ≡ id =
        lookup_id-secret sha256 secret plain raw in
      let by_id : api_key_lookup_id sha256 id ≡ id =
        api_key_lookup_id-hash_api_key sha256 secret hex plain raw ∙ by_secret in
      (
        get_api_key-of_row secret k t (ap (λ i. Dict.get t.api_keys i) by_secret ∙ row),
        get_api_key-of_row id k t (ap (λ i. Dict.get t.api_keys i) by_id ∙ row),
      )

  delete_row :
      (w : Write) (key id : String) (k : ApiKey) (s : Store)
      → find_api_key sha256 key s ≡ some (id, k)
      → id ≢ ""
      → (delete_api_key sha256 w key s).1.api_keys ≡ Dict.remove s.api_keys id
  unfolding delete_api_key
  delete_row w key id k s e named =
      let other : (id == "") ≡ false = ground (arith, eq_iff id "") in
      rw (e, other, delete_api_key) (ap (λ d. d.api_keys) (data_in_memory-commit w _ _ s))

  -- A key that was deleted is found no more, whatever the fate of the write, if no second row stands
  -- under the secret itself and the id is not empty.
  get_api_key-delete_api_key :
      (w : Write) (key : String) (s : Store)
      → (api_key_lookup_id sha256 key ≢ "")
      → (Dict.get s.api_keys key ≡ none) ⊎ (api_key_lookup_id sha256 key ≡ key)
      → get_api_key sha256 key (delete_api_key sha256 w key s).1 ≡ none
  unfolding delete_api_key
  get_api_key-delete_api_key w key s named sole =
      let id = api_key_lookup_id sha256 key in
      let t = (delete_api_key sha256 w key s).1 in
      elim (Option-cases (Dict.get s.api_keys id)) [
        | inl e ↦
            let alone : Dict.get s.api_keys key ≡ none = elim sole [
              | inl f ↦ f
              | inr f ↦ ap (λ i. Dict.get s.api_keys i) (sym f) ∙ e
            ] in
            let missing = find_api_key-of_no_row key s e alone in
            rw (missing, delete_api_key) (get_api_key-of_no_row key s e alone)
        | inr (k, e) ↦
            let gone = delete_row w key id k s (find_api_key-of_row key k s e) named in
            get_api_key-of_no_row key t
              (ap (λ d. Dict.get d id) gone
                ∙ (ground (arith, get-remove s.api_keys id id, eq_refl id)))
              (ap (λ d. Dict.get d key) gone
                ∙ (ground (arith, get-remove s.api_keys id key, eq_refl key, eq_iff id key)))
      ]
