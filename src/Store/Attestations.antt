-- ===== src/Store/Attestations.antt =====
-- src/store.ts: the attestation table and its index by transaction hash.
pub mod Index
pub mod Runs
use xrplink.Prelude.{ℕ, String, Option, none, some, List, get_or, or_else, truthy, newest_first}
use xrplink.Prelude.Text.{lower}
use xrplink.Dict
use xrplink.Store.{
  Store, PersistedData, Write, Outcome, returned, commit, Attestation, AttestationStatus, pending,
  ProofResponse,
}

-- `Partial<Attestation>`: the fields that the program's calls set.
pub record Updates : Type 0 where
  pub status : Option AttestationStatus
  pub round_id : Option ℕ
  pub abi_encoded_request : Option String
  pub proof : Option ProofResponse
  pub verified_tx_hash : Option String
  pub error : Option String

abbrev pub no_updates : Updates
no_updates = record {
  status = none;
  round_id = none;
  abi_encoded_request = none;
  proof = none;
  verified_tx_hash = none;
  error = none;
}

-- `{ ...record, ...updates, updatedAt: now }`
unfoldable pub with_updates : Updates → ℕ → Attestation → Attestation
with_updates u now a = record a {
  status = get_or u.status a.status;
  round_id = or_else u.round_id a.round_id;
  abi_encoded_request = or_else u.abi_encoded_request a.abi_encoded_request;
  proof = or_else u.proof a.proof;
  verified_tx_hash = or_else u.verified_tx_hash a.verified_tx_hash;
  error = or_else u.error a.error;
  updated_at = now;
}

unfoldable pub get_attestation : String → Store → Option Attestation
get_attestation id s = Dict.get s.attestations id

-- `if (!id) return undefined` on what the index gives.
unfoldable pub get_by_tx_hash : String → Store → Option Attestation
unfolding get_attestation
get_by_tx_hash tx_hash s = elim (truthy (Dict.get s.tx_hash_index (lower tx_hash))) [
  | none ↦ none
  | some id ↦ get_attestation id s
]

abbrev pub new_attestation : ℕ → String → String → Option String → Attestation
new_attestation now id tx_hash owner = record {
  id = id;
  tx_hash = tx_hash;
  status = pending;
  round_id = none;
  abi_encoded_request = none;
  proof = none;
  verified_tx_hash = none;
  error = none;
  created_at = now;
  updated_at = now;
  owner_key_id = truthy owner;
}

-- `id` is the fresh `uuid()`, `now` the clock.
unfoldable pub create_attestation :
    Write → ℕ → String → String → Option String → Store → Outcome (Option Attestation) × Store
unfolding commit
create_attestation w now id tx_hash owner s =
    elim (truthy (Dict.get s.tx_hash_index (lower tx_hash))) [
      | some existing ↦ (returned (Dict.get s.attestations existing), s)
      | none ↦
          let a = new_attestation now id tx_hash owner in
          commit w
            (record s.data_in_memory {
              attestations = Dict.set s.attestations id a;
              tx_hash_index = Dict.set s.tx_hash_index (lower tx_hash) id;
            })
            (some a) s
    ]

unfoldable pub update_attestation :
    Write → ℕ → String → Updates → Store → Outcome (Option Attestation) × Store
unfolding commit with_updates
update_attestation w now id u s = elim (Dict.get s.attestations id) [
  | none ↦ (returned none, s)
  | some a ↦
      let b = with_updates u now a in
      commit w (record s.data_in_memory { attestations = Dict.set s.attestations id b }) (some b) s
]

unfoldable pub list_attestations : Store → List Attestation
list_attestations s = newest_first (λ a. a.created_at) (Dict.values s.attestations)
