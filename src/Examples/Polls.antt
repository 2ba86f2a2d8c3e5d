-- ===== src/Examples/Polls.antt =====
-- A run of the polling of src/attest.ts.
use xrplink.Prelude.{ℕ, ◌≡◌, refl, true, false, none, some, [], ◌∷◌, nat_eq, if◌then◌else◌}
use xrplink.Dict
use xrplink.Store.{ProofResponse, written}
use xrplink.Store.Attestations.{new_attestation}
use xrplink.Attest.{World, done, raised, plain}
use xrplink.Attest.Poll.{Polling, poll_for_proof}
use xrplink.Attest.Poll.Outcome.{first_proof, row, Leaves}
use xrplink.Attest.Poll.Loop.{poll_for_proof-Leaves}
use xrplink.Examples.Requests.{world}

abbrev some_proof : ProofResponse
some_proof = record {
  voting_round = "77";
  response_body = record {
    block_number = "1";
    block_timestamp = "2";
    source_address = "rPayer";
    received_amount = "250000";
    has_memo_data = false;
    first_memo_data = "";
    has_destination_tag = false;
    destination_tag = "0";
    status = "0";
  };
  proof = [];
}

-- No proof, then an error, then the proof; the check on chain fails.
abbrev polling : Polling
polling = record {
  now = 9;
  fate = λ n. written;
  has_verifier_contract = true;
  fetch_proof = λ n.
      if nat_eq n 1
      then done none
      else if nat_eq n 2
      then raised (plain "timeout")
      else done (some some_proof);
  verify_proof_on_chain = λ q. raised (plain "reverted");
  deliver_webhooks = done tt;
}

abbrev submitted : World
submitted = record world {
  store = record world.store {
    data_in_memory = record world.store.data_in_memory {
      attestations = ("id1", new_attestation 7 "id1" "AB" none) ∷ [];
    };
  };
}

works : (n : ℕ) → polling.fate n ≡ written
works n = refl

is_submitted : row polling "id1" works submitted ≡ some (new_attestation 7 "id1" "AB" none)
unfolding Dict.get
is_submitted = refl

third_is_proof : first_proof polling.fetch_proof 4 1 ≡ some some_proof
unfolding first_proof
third_is_proof = refl

poll_example :
    Leaves polling "id1" works
      (first_proof polling.fetch_proof 4 1)
      (poll_for_proof polling "id1" 4 1 submitted)
poll_example =
    poll_for_proof-Leaves polling "id1" 4 1 (new_attestation 7 "id1" "AB" none) submitted works refl
      is_submitted
