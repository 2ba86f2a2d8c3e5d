-- ===== src/Store/Load/Restart.antt =====
-- src/store.ts: what a restart finds of a store, and what a file that is not JSON costs.
use xrplink.Store.Load.Copies.{
  IsClean, migrate_json_api_keys-id, sanitize_webhooks-id, migrate_json_attestation_usage-id,
}
use xrplink.Store.Load.Index.{index_of-get}
use xrplink.Dict
use xrplink.Store.Attestations.Index.{IsIndexed}
use xrplink.Dict.{get-empty, get-set}
use xrplink.Dict.{Dict}
use xrplink.Store.{PersistedData, Write, written, broken, Store, commit}
use xrplink.Store.Load.{
  rewritten_disk, empty, FileRead, parsed, malformed, Disk, disk_of, sanitize_webhooks, index_of,
  migrate_json_api_keys, migrate_json_attestation_usage, load, start,
}
use xrplink.Prelude.{ℕ, String, ◌≡◌, refl, ap, Bool, true, false, ◌||◌, none, [], arith}

abbrev pub is_malformed : {A : Type 0} → FileRead A → Bool
is_malformed (malformed m) = true
is_malformed other = false

module _ (sha256 : String → String) where
  reloaded :
      (d : PersistedData)
      → IsClean sha256 d
      → ◌≡◌ {A = PersistedData}
          (record {
            attestations = d.attestations;
            tx_hash_index = index_of d.attestations [];
            api_keys = migrate_json_api_keys sha256 d.api_keys [];
            webhooks = sanitize_webhooks d.webhooks [];
            attestation_usage = migrate_json_attestation_usage sha256 d.attestation_usage [];
          })
          (record d { tx_hash_index = index_of d.attestations [] })
  reloaded d c =
      rw
        (
          migrate_json_api_keys-id sha256 d.api_keys c.api_keys_distinct c.hashed,
          sanitize_webhooks-id sha256 d.webhooks c.webhooks_distinct c.scoped,
          migrate_json_attestation_usage-id sha256 d.attestation_usage c.usage_distinct c.migrated,
        )
        refl

  -- After an operation whose write works, on data with a correct index and rows of the present form, a
  -- restart, whatever becomes of its own write, has the same attestations, keys, webhooks and counters
  -- in memory, and a rebuilt index that answers every look-up as the old one did.
  pub start-commit :
      (w : Write) (d : PersistedData) (answer : ℕ) (s : Store)
      → IsIndexed d
      → IsClean sha256 d
      → let r = (start sha256 w (disk_of (commit written d answer s).1.files)).data_in_memory in
        (r ≡ record d { tx_hash_index = r.tx_hash_index })
        × ((h : String) → Dict.get r.tx_hash_index h ≡ Dict.get d.tx_hash_index h)
  unfolding start commit load
  start-commit written d answer s v c = (reloaded d c, index_of-get d v c.attestations_distinct)
  start-commit (broken n m) d answer s v c =
      (reloaded d c, index_of-get d v c.attestations_distinct)

  load_malformed :
      (disk : Disk)
      → is_malformed disk.attestations
          || (is_malformed disk.api_keys
              || (is_malformed disk.webhooks || is_malformed disk.attestation_usage))
        ≡ true
      → (load sha256 disk).0 ≡ empty
  unfolding load
  load_malformed disk h = ground arith

  -- If one of the four files is not JSON, a start whose write works replaces all four by empty
  -- tables and reports no error.
  start_malformed :
      (disk : Disk)
      → is_malformed disk.attestations
          || (is_malformed disk.api_keys
              || (is_malformed disk.webhooks || is_malformed disk.attestation_usage))
        ≡ true
      → (start sha256 written disk).disk ≡ record {
        attestations = parsed [];
        api_keys = parsed [];
        webhooks = parsed [];
        attestation_usage = parsed [];
      }
        × ((start sha256 written disk).last_error ≡ none)
  unfolding start
  start_malformed disk h = (ap (λ d. rewritten_disk 4 d disk) (load_malformed disk h), refl)
