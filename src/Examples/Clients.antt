-- ===== src/Examples/Clients.antt =====
-- Runs of the tools of src/mcp/tools.ts and of the calls of src/fdc-service.ts.
use xrplink.Prelude.Text.{strip_0x, upper, lower}
use xrplink.Store.{Store, ApiKey, free}
use xrplink.Store.Attestations.{new_attestation}
use xrplink.Store.ApiKeys.{new_api_key}
use xrplink.Keys.{hash_api_key}
use xrplink.Attest.{done}
use xrplink.Attest.Flow.{is_hex_tx_hash}
use xrplink.Routes.{get_status, get_status_by_tx}
use xrplink.Mcp.{McpRequestContext, handle_get_attestation_status, handle_lookup_by_tx}
use xrplink.Mcp.Same.{seen, told, handle_lookup_by_tx-eq-get_status_by_tx}
use xrplink.Fdc.{Round, round, Mined, mined, Submitted, submit_request}
use xrplink.Fdc.Rounds.{IsWithin, submit_request-IsWithin}
use xrplink.Examples.{attested_hash}
use xrplink.Examples.Stores.{empty_store, sha256, digest}
use xrplink.Prelude.{ℕ, ◌≡◌, refl, ◌≢◌, true, none, some, [], ◌∷◌}

abbrev caller : ApiKey
caller = new_api_key sha256 5 "sk_live_0123456789abcdef" "User" free

abbrev context : McpRequestContext
context = record {
  auth = record { http = true; api_key_record = some caller; api_key = none };
  payment_signature = none;
  client_ip = none;
}

abbrev owned : Store
owned = record empty_store {
  data_in_memory = record empty_store.data_in_memory {
    attestations = ("id1", new_attestation 7 "id1" attested_hash (some digest)) ∷ [];
    tx_hash_index = (lower attested_hash, "id1") ∷ [];
  };
}

caller_named : caller.key ≢ ""
unfolding hash_api_key
caller_named e = cc

is_hex : is_hex_tx_hash (upper (strip_0x attested_hash)) ≡ true
unfolding is_hex_tx_hash upper strip_0x
is_hex = refl

shown_example :
    (told (handle_get_attestation_status sha256 (λ s. s) context "id1" owned)
      ≡ seen (get_status sha256 (λ s. s) "id1" caller owned))
    × (told (handle_lookup_by_tx sha256 (λ s. s) context attested_hash owned)
        ≡ seen (get_status_by_tx sha256 (λ s. s) attested_hash caller owned))
shown_example =
    handle_lookup_by_tx-eq-get_status_by_tx sha256 (λ s. s) context caller "id1" attested_hash owned
      refl refl caller_named is_hex

abbrev block : Mined
block = mined "0xabc" 12 (some 1658430200)

abbrev submitted : Submitted
submitted = record { round_id = round 2; tx_hash = "0xabc"; block_number = 12 }

good_block : submit_request 1658430000 block ≡ done submitted
unfolding submit_request
good_block = refl

right_round_example :
    (t : ℕ) × (block ≡ mined "0xabc" 12 (some t))
    × IsWithin 1658430000 t (round 2)
    × ((r : Round) → IsWithin 1658430000 t r → r ≡ round 2)
right_round_example = submit_request-IsWithin 1658430000 block submitted good_block
