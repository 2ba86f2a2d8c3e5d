-- ===== src/Postgres/Attestations.antt =====
-- src/store.ts: the attestations of PostgresStore.
use xrplink.Prelude.Text.{lower}
use xrplink.Store.{Attestation, Outcome, returned, threw}
use xrplink.Store.Attestations.{Updates, new_attestation, with_updates}
use xrplink.Postgres.{Postgres, with_attestations, update_where, fits, too_long, duplicate}
use xrplink.Prelude.{
  ℕ, String, Bool, not, ◌&&◌, ◌||◌, Option, none, some, List, [], ◌∷◌, ◌==◌, if◌then◌else◌, is_some,
  get_or, truthy, find, any, concat, newest_first,
}

-- `owner_key_id || null`
unfoldable pub row_to_attestation : Attestation → Attestation
row_to_attestation row = record row { owner_key_id = truthy row.owner_key_id }

abbrev as_attestation : Option Attestation → Option Attestation
as_attestation none = none
as_attestation (some row) = some (row_to_attestation row)

unfoldable pub get_attestation : String → Postgres → Option Attestation
unfolding row_to_attestation
get_attestation id s = as_attestation (find (λ row. row.id == id) s.attestations)

-- `WHERE LOWER(tx_hash) = LOWER($1)`
unfoldable pub get_by_tx_hash : String → Postgres → Option Attestation
unfolding row_to_attestation
get_by_tx_hash tx_hash s =
    as_attestation (find (λ row. lower row.tx_hash == lower tx_hash) s.attestations)

-- The look-up, then the insert of a row with a fresh id.
unfoldable pub create_attestation :
    ℕ → String → String → Option String → Postgres → Outcome Attestation × Postgres
unfolding get_by_tx_hash row_to_attestation
create_attestation now id tx_hash owner s = elim (get_by_tx_hash tx_hash s) [
  | some existing ↦ (returned existing, s)
  | none ↦
      let row = new_attestation now id tx_hash owner in
      if not (fits 64 tx_hash) || not (fits 100 (get_or row.owner_key_id ""))
      then (threw too_long, s)
      else if any (λ r. (r.id == id) || (r.tx_hash == tx_hash)) s.attestations
      then (threw duplicate, s)
      else (
        returned (row_to_attestation row),
        with_attestations (concat s.attestations (row ∷ [])) s,
      )
]

abbrev is_empty : Updates → Bool
is_empty u =
    not (is_some u.status)
    && (not (is_some u.round_id)
        && (not (is_some u.abi_encoded_request)
            && (not (is_some u.proof)
                && (not (is_some u.verified_tx_hash) && not (is_some u.error)))))

unfoldable pub update_attestation :
    ℕ → String → Updates → Postgres → Outcome (Option Attestation) × Postgres
unfolding get_attestation with_updates row_to_attestation
update_attestation now id u s =
    if is_empty u
    then (returned (get_attestation id s), s)
    else if not (fits 66 (get_or u.verified_tx_hash ""))
    then (threw too_long, s)
    else (let rows = update_where (λ row. row.id == id) (with_updates u now) s.attestations in
        (returned (as_attestation (find (λ row. row.id == id) rows)), with_attestations rows s))

-- `ORDER BY created_at DESC`, rows of one instant in the order of the table.
unfoldable pub list_attestations : Postgres → List Attestation
list_attestations s = newest_first (λ row. row.created_at) s.attestations
