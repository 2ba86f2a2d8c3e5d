-- ===== src/Examples/Requests.antt =====
-- A run of src/attest.ts.
use xrplink.Dict
use xrplink.Keys.{is_api_key_hash, is_plaintext_api_key}
use xrplink.Store.Usage.{usage_key}
use xrplink.Xrpl.{not_found, preflight_xrpl_payment, fails_with, tx_not_on_ledger}
use xrplink.Attest.Access.{by_payment}
use xrplink.Attest.Flow.{guarded}
use xrplink.Attest.Flow.Counted.{used}
use xrplink.Attest.Flow.Releases.{guarded_lost_slot}
use xrplink.Prelude.{◌+◌, ◌≡◌, refl, arith, ◌∷◌, [], ◌<◌, true, false, none, some}
use xrplink.X402.{saved}
use xrplink.Store.{paid, written, broken, Write}
use xrplink.Examples.{not_found, attested_hash, config, price, outside, run, quoted_state}
use xrplink.Examples.Stores.{sha256, digest, empty_store}
use xrplink.Store.ApiKeys.{new_api_key}
use xrplink.Attest.{World, Site, release, reserve, Env, Request, done}
use xrplink.Attest.Flow.{attest_xrp_payment}
use xrplink.Attest.Flow.Quota.{Verdict, attest_xrp_payment-quota}

abbrev pub world : World
world = record {
  store = record empty_store {
    data_in_memory = record empty_store.data_in_memory {
      api_keys = (digest, new_api_key sha256 5 "sk_live_0123456789abcdef" "User: a" paid) ∷ [];
    };
  };
  users = record { users = []; email_index = [] };
  x402 = quoted_state;
}

-- Every write but those of reserving and releasing fails.
abbrev fate : Site → Write
fate reserve = written
fate release = written
fate _ = broken 0 "disk full"

abbrev env : Env
env = record {
  now = 1746684800000;
  sha256 = sha256;
  fate = fate;
  quote_fate = saved;
  mark_fate = saved;
  attestation_id = "id1";
  invoice_id = "inv2";
  is_mainnet = true;
  has_verifier_contract = false;
  limits = λ tier. 20;
  price = some price;
  x402_config = config;
  outside = outside;
  run = run;
  is_already_verified = λ hash. none;
  prepare_request = λ hash. done "abi";
  submit_request = λ abi. done 77;
}

abbrev by_header : Request
by_header = record {
  tx_hash = attested_hash;
  api_key_header = some "sk_live_0123456789abcdef";
  api_key_record = none;
  payment_signature = none;
}

quota_example : Verdict env world (attest_xrp_payment env by_header world)
quota_example = attest_xrp_payment-quota env by_header world refl refl

-- One slot is taken by another request; this one's release breaks, and the ledger does not know the
-- transaction.
abbrev broken_env : Env
broken_env = record env {
  fate = λ site. broken 3 "disk full";
  outside = record outside { lookup = λ hash. not_found };
}

abbrev two_slots : World
two_slots = record world {
  store = record world.store {
    data_in_memory = record world.store.data_in_memory { attestation_usage = ("k:17", 2) ∷ [] };
  };
}

refused_hash :
    preflight_xrpl_payment (broken_env.outside.lookup attested_hash) broken_env.now
    ≡ fails_with tx_not_on_ledger 404
unfolding preflight_xrpl_payment
refused_hash = refl

two_taken : 1 < used (usage_key sha256 "k" "17") two_slots
unfolding Dict.get usage_key is_api_key_hash is_plaintext_api_key
two_taken = omega arith

lost_slot_example :
    used
        (usage_key sha256 "k" "17")
        (guarded broken_env by_header attested_hash
          (some ("k", "17"))
          (by_payment "sig")
          two_slots).1
      + 2
    ≡ used (usage_key sha256 "k" "17") two_slots
lost_slot_example =
    guarded_lost_slot broken_env 3 "disk full" refl "k" "17" by_header attested_hash
      (by_payment "sig") tx_not_on_ledger 404 two_slots refused_hash two_taken
