-- ===== src/Store/Load.antt =====
-- src/store.ts: the start of the JSON store. The four files are read, rows of older versions are
-- rewritten, the index by transaction hash is rebuilt, and everything is written back.
pub mod Copies
pub mod Index
pub mod Restart
use xrplink.Dict
use xrplink.Dict.{Dict}
use xrplink.Prelude.Text.{lower, split_last_colon}
use xrplink.Keys.{is_plaintext_api_key, hash_api_key, api_key_lookup_id, api_key_display_parts}
use xrplink.Store.{
  Attestation, ApiKey, Webhook, PersistedData, Files, Write, written, broken, Outcome, returned,
  threw,
}
use xrplink.Store.Webhooks.{is_active}
use xrplink.Prelude.{
  ℕ, ◌+◌, String, ◌++◌, ◌&&◌, ◌||◌, Option, none, some, [], ◌∷◌, ◌==◌, ltb, if◌then◌else◌, is_some,
  get_or, or_else, truthy,
}

-- A file as `readJson` finds it: not there, a JSON object, or not JSON.
pub data FileRead (A : Type 0) : Type 0 where
  absent : FileRead A
  parsed : Dict A → FileRead A
  malformed : String → FileRead A

pub record Disk : Type 0 where
  pub attestations : FileRead Attestation
  pub api_keys : FileRead ApiKey
  pub webhooks : FileRead Webhook
  pub attestation_usage : FileRead ℕ

-- `this.readJson(path) || {}`
abbrev pub read_json : {A : Type 0} → FileRead A → Outcome (Dict A)
read_json absent = returned []
read_json (parsed d) = returned d
read_json (malformed m) = threw m

unfoldable pub sanitize_webhook_record : Webhook → Webhook
sanitize_webhook_record h = record h {
  active =
      some ((is_some (truthy h.attestation_id) && is_some (truthy h.api_key_id)) && is_active h);
}

unfoldable pub sanitize_webhooks : Dict Webhook → Dict Webhook → Dict Webhook
unfolding sanitize_webhook_record
sanitize_webhooks [] next = next
sanitize_webhooks ((id, h) ∷ raw) next =
    sanitize_webhooks raw (Dict.set next id (sanitize_webhook_record h))

-- The loop that rebuilds `txHashIndex`: a later row of the same hash wins.
unfoldable pub index_of : Dict Attestation → Dict String → Dict String
index_of [] index = index
index_of ((id, a) ∷ rows) index = index_of rows (Dict.set index (lower a.tx_hash) id)

abbrev pub empty : PersistedData
empty = record {
  attestations = [];
  tx_hash_index = [];
  api_keys = [];
  webhooks = [];
  attestation_usage = [];
}

-- What a file that throws does to the rest of `load`.
abbrev and_then :
    {A : Type 0}
    → Outcome (Dict A)
    → (Dict A → PersistedData × Option String)
    → PersistedData × Option String
and_then (returned d) k = k d
and_then (threw m) k = (empty, some m)

pub record Started : Type 0 where
  pub data_in_memory : PersistedData
  pub disk : Disk
  pub last_error : Option String

abbrev rewritten : {A : Type 0} → ℕ → ℕ → FileRead A → Dict A → FileRead A
rewritten place n old new = if ltb place n then parsed new else old

-- The files after the first `n` writes of `syncPersist`.
abbrev pub rewritten_disk : ℕ → PersistedData → Disk → Disk
rewritten_disk n d disk = record {
  attestations = rewritten 0 n disk.attestations d.attestations;
  api_keys = rewritten 1 n disk.api_keys d.api_keys;
  webhooks = rewritten 2 n disk.webhooks d.webhooks;
  attestation_usage = rewritten 3 n disk.attestation_usage d.attestation_usage;
}

module _ (sha256 : String → String) where
  -- One turn of the loop of `migrateJsonApiKeys`.
  unfoldable pub migrate_api_key : String × ApiKey → Dict ApiKey → Dict ApiKey
  migrate_api_key (id, k) next =
      if is_plaintext_api_key id || is_plaintext_api_key k.key
      then (let plaintext = if is_plaintext_api_key id then id else k.key in
          let hashed = hash_api_key sha256 plaintext in
          let display = api_key_display_parts plaintext in
          Dict.set next hashed (record k {
            key = hashed;
            key_prefix = or_else (truthy k.key_prefix) (some display.key_prefix);
            key_last4 = or_else (truthy k.key_last4) (some display.key_last4);
          }))
      else Dict.set next id k

  unfoldable pub migrate_json_api_keys : Dict ApiKey → Dict ApiKey → Dict ApiKey
  migrate_json_api_keys [] next = next
  migrate_json_api_keys (row ∷ raw) next = migrate_json_api_keys raw (migrate_api_key row next)

  -- The key under which a counter is kept from now on.
  unfoldable pub migrated_usage_key : String → String
  migrated_usage_key usage_key =
      let (id, period) = get_or (split_last_colon usage_key) (usage_key, "") in
      let normalized = api_key_lookup_id sha256 id in
      if period == "" then normalized else normalized ++ (":" ++ period)

  unfoldable pub migrate_json_attestation_usage : Dict ℕ → Dict ℕ → Dict ℕ
  migrate_json_attestation_usage [] next = next
  migrate_json_attestation_usage ((usage_key, n) ∷ raw) next =
      let new_key = migrated_usage_key usage_key in
      migrate_json_attestation_usage raw
        (Dict.set next new_key (get_or (Dict.get next new_key) 0 + n))

  -- The data, and `lastError`.
  unfoldable pub load : Disk → PersistedData × Option String
  load disk = and_then (read_json disk.attestations) (λ attestations.
      and_then (read_json disk.api_keys) (λ api_keys.
        and_then (read_json disk.webhooks) (λ webhooks.
          and_then (read_json disk.attestation_usage) (λ usage. (
            record {
              attestations = attestations;
              tx_hash_index = index_of attestations [];
              api_keys = migrate_json_api_keys api_keys [];
              webhooks = sanitize_webhooks webhooks [];
              attestation_usage = migrate_json_attestation_usage usage [];
            },
            none,
          )))))

  -- The constructor: `load`, then `syncPersist`, which sets `lastError` anew.
  unfoldable pub start : Write → Disk → Started
  unfolding load
  start written disk =
      let d = (load disk).0 in
      record { data_in_memory = d; disk = rewritten_disk 4 d disk; last_error = none }
  start (broken n m) disk =
      let d = (load disk).0 in
      record { data_in_memory = d; disk = rewritten_disk n d disk; last_error = some m }

-- The four files of a running store, as a restart finds them.
abbrev pub disk_of : Files → Disk
disk_of f = record {
  attestations = parsed f.attestations;
  api_keys = parsed f.api_keys;
  webhooks = parsed f.webhooks;
  attestation_usage = parsed f.attestation_usage;
}
