-- ===== src/Examples/Migrations.antt =====
-- Runs of scripts/migrate-to-postgres.ts, followed by the start of the server.
use xrplink.Dict
use xrplink.Store.{Webhook, returned}
use xrplink.Store.Attestations.{new_attestation}
use xrplink.Store.Load.{absent, parsed}
use xrplink.Postgres.{init_pool}
use xrplink.Postgres.Attestations.{get_attestation}
use xrplink.Postgres.Webhooks.{get_webhooks_for_attestation, count_webhooks_for_api_key}
use xrplink.Migration.{Sources, Target, Stats, main}
use xrplink.Migration.Lost.{main-loses_webhooks, server_on}
use xrplink.Migration.Reads.{main-get_attestation}
use xrplink.Examples.Stores.{sha256}
use xrplink.Prelude.{String, ◌≡◌, refl, true, Option, none, some, [], ◌∷◌}

abbrev hook : Webhook
hook = record {
  id = "w1";
  url = "https://example.com/hook";
  attestation_id = some "a1";
  api_key_id = some "k1";
  secret = none;
  created_at = 5;
  active = some true;
}

abbrev files : Sources
files = record {
  attestations = parsed (
      ("a1", new_attestation 5 "a1" "AB" (some "k1"))
      ∷ ("a2", new_attestation 6 "a2" "CD" none)
      ∷ []);
  api_keys = absent;
  webhooks = parsed (("w1", hook) ∷ []);
  users = absent;
}

abbrev empty_tables : Target
empty_tables = record {
  database = record { attestations = []; api_keys = []; webhooks = []; attestation_usage = [] };
  users = [];
}

abbrev url : Option String
url = some "postgres://localhost/xrplink"

abbrev copied : Stats
copied = record { attestations = 2; api_keys = 0; webhooks = 1; users = 0 }

main_run : (main url none files empty_tables).0 ≡ returned copied
unfolding main
main_run = refl

loses_webhooks_example :
    let s = (init_pool none (server_on (main url none files empty_tables).1)).1 in
    (get_webhooks_for_attestation "a1" s ≡ []) × (count_webhooks_for_api_key sha256 "k1" s ≡ 0)
loses_webhooks_example = main-loses_webhooks sha256 url none files empty_tables "a1" "k1" tt

migrated_example :
    get_attestation "a1" (init_pool none (server_on (main url none files empty_tables).1)).1
    ≡ some (new_attestation 5 "a1" "AB" none)
unfolding Dict.get
migrated_example =
    main-get_attestation url none files empty_tables copied
      (("a1", new_attestation 5 "a1" "AB" (some "k1"))
        ∷ ("a2", new_attestation 6 "a2" "CD" none)
        ∷ [])
      "a1" refl (refl, (refl, tt)) (refl, (refl, tt)) refl main_run
