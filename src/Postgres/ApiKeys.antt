-- ===== src/Postgres/ApiKeys.antt =====
-- src/store.ts: the API keys of PostgresStore. A row under the secret itself is from before the hashing
-- of keys; it is rewritten when it is looked up.
use xrplink.Keys.{api_key_lookup_id, hash_api_key, is_plaintext_api_key, api_key_display_parts}
use xrplink.Store.{ApiKey, Tier, Outcome, returned, threw}
use xrplink.Store.ApiKeys.{new_api_key}
use xrplink.Postgres.{Postgres, with_api_keys, update_where, fits, too_long, duplicate}
use xrplink.Postgres.Usage.{rekey_rows}
use xrplink.Prelude.{
  ℕ, ◌+◌, String, Bool, true, false, not, ◌&&◌, Option, none, some, List, [], ◌∷◌, ◌==◌,
  if◌then◌else◌, get_or, truthy, keep, find, any, concat, newest_first,
}

abbrev pub is_key : String → ApiKey → Bool
is_key k row = row.key == k

-- `key_prefix || undefined`
unfoldable pub row_to_api_key : ApiKey → ApiKey
row_to_api_key row = record row {
  key_prefix = truthy row.key_prefix;
  key_last4 = truthy row.key_last4;
}

abbrev pub row_fits : ApiKey → Bool
row_fits k =
    fits 100 k.key
    && (fits 255 k.name && (fits 16 (get_or k.key_prefix "") && fits 8 (get_or k.key_last4 "")))

abbrev rows_to_api_keys : List ApiKey → List ApiKey
rows_to_api_keys [] = []
rows_to_api_keys (row ∷ rows) = row_to_api_key row ∷ rows_to_api_keys rows

-- `ORDER BY created_at DESC`, rows of one instant in the order of the table.
unfoldable pub list_api_keys : Postgres → List ApiKey
unfolding row_to_api_key
list_api_keys s = rows_to_api_keys (newest_first (λ row. row.created_at) s.api_keys)

module _ (sha256 : String → String) where
  unfoldable pub create_api_key : ℕ → String → String → Tier → Postgres → Outcome ApiKey × Postgres
  unfolding row_to_api_key
  create_api_key now plaintext name tier s =
      let row = new_api_key sha256 now plaintext name tier in
      if not (row_fits row)
      then (threw too_long, s)
      else if any (is_key row.key) s.api_keys
      then (threw duplicate, s)
      else (
        returned (record (row_to_api_key row) { key = plaintext }),
        with_api_keys (concat s.api_keys (row ∷ [])) s,
      )

  abbrev hashed_row : ApiKey → ApiKey
  hashed_row row = record row {
    key = hash_api_key sha256 row.key;
    key_prefix = some (api_key_display_parts row.key).key_prefix;
    key_last4 = some (api_key_display_parts row.key).key_last4;
  }

  -- `INSERT … ON CONFLICT (key) DO NOTHING`, then the `DELETE` of the old row.
  abbrev replace_row : ApiKey → List ApiKey → List ApiKey
  replace_row row rows =
      let inserted =
        if any (is_key (hash_api_key sha256 row.key)) rows
        then rows
        else concat rows (hashed_row row ∷ []) in
      keep (λ r. not (is_key row.key r)) inserted

  -- Three statements: the second failure leaves what the first two did.
  unfoldable pub migrate_postgres_api_key_row : ApiKey → Postgres → Outcome (Unit {0}) × Postgres
  migrate_postgres_api_key_row row s =
      if not (is_plaintext_api_key row.key)
      then (returned tt, s)
      else if not (row_fits (hashed_row row))
      then (threw too_long, s)
      else rekey_rows sha256 (λ k. k == row.key) (hash_api_key sha256 row.key)
          (with_api_keys (replace_row row s.api_keys) s)

  abbrev as_api_key : Option ApiKey → Option ApiKey
  as_api_key none = none
  as_api_key (some row) = some (row_to_api_key row)

  unfoldable pub get_api_key : String → Postgres → Outcome (Option ApiKey) × Postgres
  unfolding row_to_api_key migrate_postgres_api_key_row
  get_api_key key s =
      let hashed = api_key_lookup_id sha256 key in
      elim (find (is_key hashed) s.api_keys) [
        | some row ↦ (returned (some (row_to_api_key row)), s)
        | none ↦
            if key == hashed then (returned none, s) else (elim (find (is_key key) s.api_keys) [
              | none ↦ (returned none, s)
              | some row ↦
                  if is_plaintext_api_key row.key
                  then (let (r, t) = migrate_postgres_api_key_row row s in
                      elim r [
                        | threw m ↦ (threw m, t)
                        | returned u ↦ (returned (as_api_key (find (is_key hashed) t.api_keys)), t)
                      ])
                  else (returned (some (row_to_api_key row)), s)
            ])
      ]

  -- The row that a key names: the hashed id first, then the key itself.
  abbrev row_id : String → List ApiKey → Option String
  row_id key rows =
      let hashed = api_key_lookup_id sha256 key in
      if any (is_key hashed) rows
      then some hashed
      else if any (is_key key) rows
      then some key
      else none

  unfoldable pub delete_api_key : String → Postgres → Outcome Bool × Postgres
  delete_api_key key s = elim (row_id key s.api_keys) [
    | none ↦ (returned false, s)
    | some id ↦ (returned true, with_api_keys (keep (λ r. not (is_key id r)) s.api_keys) s)
  ]

  -- `UPDATE api_keys SET … WHERE key = $2`, for the id and then for the key.
  unfoldable pub change_api_key : (ApiKey → ApiKey) → String → Postgres → Outcome Bool × Postgres
  change_api_key f key s = elim (row_id key s.api_keys) [
    | none ↦ (returned false, s)
    | some id ↦ (returned true, with_api_keys (update_where (is_key id) f s.api_keys) s)
  ]

  unfoldable pub increment_api_key_usage : String → Postgres → Outcome Bool × Postgres
  unfolding change_api_key
  increment_api_key_usage = change_api_key (λ k. record k { usage_count = k.usage_count + 1 })

  unfoldable pub update_api_key_tier : Tier → String → Postgres → Outcome Bool × Postgres
  unfolding change_api_key
  update_api_key_tier tier = change_api_key (λ k. record k { tier = tier })

  unfoldable pub set_api_key_usage_count : ℕ → String → Postgres → Outcome Bool × Postgres
  unfolding change_api_key
  set_api_key_usage_count n = change_api_key (λ k. record k { usage_count = n })
