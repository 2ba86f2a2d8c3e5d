-- ===== src/Store.antt =====
-- src/store.ts and src/types.ts: the records of the JSON file store, its four files, and the write
-- that ends every operation. The operations are in the modules below.
pub mod Attestations
pub mod Usage
pub mod ApiKeys
pub mod Webhooks
pub mod Load
use xrplink.Prelude.{
  inr, inl, ◌⊎◌, ℕ, String, ◌≡◌, refl, Bool, not, Option, none, some, List, ltb, is_some, truthy,
  if◌then◌else◌,
}
use xrplink.Dict.{Dict}

pub data Tier : Type 0 where
  free paid pro : Tier

pub data AttestationStatus : Type 0 where
  pending ready verified failed not_found : AttestationStatus

pub record ResponseBody : Type 0 where
  pub block_number : String
  pub block_timestamp : String
  pub source_address : String
  pub received_amount : String
  pub has_memo_data : Bool
  pub first_memo_data : String
  pub has_destination_tag : Bool
  pub destination_tag : String
  pub status : String

pub record ProofResponse : Type 0 where
  pub voting_round : String
  pub response_body : ResponseBody
  pub proof : List String

-- The instants are those that the source writes as ISO texts, in milliseconds.
pub record Attestation : Type 0 where
  pub id : String
  pub tx_hash : String
  pub status : AttestationStatus
  pub round_id : Option ℕ
  pub abi_encoded_request : Option String
  pub proof : Option ProofResponse
  pub verified_tx_hash : Option String
  pub error : Option String
  pub created_at : ℕ
  pub updated_at : ℕ
  pub owner_key_id : Option String

pub record ApiKey : Type 0 where
  pub key : String
  pub name : String
  pub tier : Tier
  pub active : Bool
  pub usage_count : ℕ
  pub created_at : ℕ
  pub key_prefix : Option String
  pub key_last4 : Option String

pub record Webhook : Type 0 where
  pub id : String
  pub url : String
  pub attestation_id : Option String
  pub api_key_id : Option String
  pub secret : Option String
  pub created_at : ℕ
  pub active : Option Bool

pub record PersistedData : Type 0 where
  pub attestations : Dict Attestation
  pub tx_hash_index : Dict String
  pub api_keys : Dict ApiKey
  pub webhooks : Dict Webhook
  pub attestation_usage : Dict ℕ

-- The four JSON files; the index is not written.
pub record Files : Type 0 where
  pub attestations : Dict Attestation
  pub api_keys : Dict ApiKey
  pub webhooks : Dict Webhook
  pub attestation_usage : Dict ℕ

pub record Store : Type 0 where
  pub data_in_memory : PersistedData
  pub open data_in_memory use *
  pub files : Files
  pub last_error : Option String

-- How one round of file writes goes: all four are replaced, or the first `n` are and then a write
-- throws. Each replacement is a rename, so a file is old or new.
pub data Write : Type 0 where
  written : Write
  broken : ℕ → String → Write

pub data Outcome {ℓ} (A : Type ℓ) : Type ℓ where
  returned : A → Outcome A
  threw : String → Outcome A

abbrev replaced {ℓ} : {A : Type ℓ} → ℕ → ℕ → A → A → A
replaced place n old new = if ltb place n then new else old

-- The files after the first `n` were replaced, in the order of `syncPersist`.
abbrev pub written_files : ℕ → PersistedData → Files → Files
written_files n d f = record {
  attestations = replaced 0 n f.attestations d.attestations;
  api_keys = replaced 1 n f.api_keys d.api_keys;
  webhooks = replaced 2 n f.webhooks d.webhooks;
  attestation_usage = replaced 3 n f.attestation_usage d.attestation_usage;
}

unfoldable pub sync_persist {ℓ} : {A : Type ℓ} → Write → A → Store → Outcome A × Store
sync_persist written a s =
    (returned a, record s { files = written_files 4 s.data_in_memory s.files; last_error = none })
sync_persist (broken n message) a s = (
  threw message,
  record s { files = written_files n s.data_in_memory s.files; last_error = some message },
)

-- An operation changes the data in memory, then writes; the change stays if the write throws.
unfoldable pub commit {ℓ} : {A : Type ℓ} → Write → PersistedData → A → Store → Outcome A × Store
unfolding sync_persist
commit w d a s = sync_persist w a (record s { data_in_memory = d })

pub record StoreHealth : Type 0 where
  pub ok : Bool
  pub error : Option String

-- Truthiness of `lastError`: an empty message counts as none.
unfoldable pub get_health : Store → StoreHealth
get_health s = record { ok = not (is_some (truthy s.last_error)); error = s.last_error }

-- What an operation leaves in memory does not depend on the fate of its write.
pub data_in_memory-commit :
    {A : Type 0} (w : Write) (d : PersistedData) (a : A) (s : Store)
    → (commit w d a s).1.data_in_memory ≡ d
unfolding commit
data_in_memory-commit written d a s = refl
data_in_memory-commit (broken n m) d a s = refl

-- A result is returned only as it was given.
pub commit-eq-returned :
    {A : Type 0} (w : Write) (d : PersistedData) (a : A) (s : Store) {b : A}
    → (commit w d a s).0 ≡ returned b
    → a ≡ b
unfolding commit
commit-eq-returned written d a s e = cc
commit-eq-returned (broken n m) d a s e = cc

pub outcomes :
    {A : Type 0} (o : Outcome A) → ((m : String) × (o ≡ threw m)) ⊎ ((a : A) × (o ≡ returned a))
outcomes (threw m) = inl (m, refl)
outcomes (returned a) = inr (a, refl)
