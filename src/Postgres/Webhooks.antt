-- ===== src/Postgres/Webhooks.antt =====
-- src/store.ts: the webhooks of PostgresStore.
use xrplink.Keys.{api_key_lookup_id}
use xrplink.Store.{Webhook, Outcome, returned, threw}
use xrplink.Store.Webhooks.{is_active}
use xrplink.Postgres.{Postgres, with_webhooks, fits, too_long, duplicate}
use xrplink.Prelude.{
  ℕ, String, Bool, true, false, not, ◌&&◌, ◌||◌, Option, none, some, List, [], ◌∷◌, ◌==◌,
  if◌then◌else◌, is_some, get_or, truthy, length, keep, find, any, concat,
}

-- `api_key_id || undefined` and `active !== false`
unfoldable pub row_to_webhook : Webhook → Webhook
row_to_webhook row = record row {
  api_key_id = truthy row.api_key_id;
  active = some (is_active row);
}

abbrev rows_to_webhooks : List Webhook → List Webhook
rows_to_webhooks [] = []
rows_to_webhooks (row ∷ rows) = row_to_webhook row ∷ rows_to_webhooks rows

abbrev as_webhook : Option Webhook → Option Webhook
as_webhook none = none
as_webhook (some row) = some (row_to_webhook row)

unfoldable pub get_webhook : String → Postgres → Option Webhook
unfolding row_to_webhook
get_webhook id s = as_webhook (find (λ row. row.id == id) s.webhooks)

-- `WHERE active = true AND api_key_id IS NOT NULL AND attestation_id = $1`
unfoldable pub get_webhooks_for_attestation : String → Postgres → List Webhook
unfolding row_to_webhook
get_webhooks_for_attestation attestation_id s = rows_to_webhooks (
    keep
      (λ row.
        is_active row
        && (is_some row.api_key_id
            && (elim row.attestation_id [ none ↦ false | some id ↦ id == attestation_id ])))
      s.webhooks)

unfoldable pub remove_webhook : String → Postgres → Outcome Bool × Postgres
remove_webhook id s = (
  returned (any (λ row. row.id == id) s.webhooks),
  with_webhooks (keep (λ row. not (row.id == id)) s.webhooks) s,
)

module _ (sha256 : String → String) where
  unfoldable pub register_webhook :
      ℕ → String → String → String → String → Option String → Postgres → Outcome Webhook × Postgres
  unfolding row_to_webhook
  register_webhook now id url attestation_id api_key_id secret s =
      let row : Webhook = record {
        id = id;
        url = url;
        attestation_id = some attestation_id;
        api_key_id = some (api_key_lookup_id sha256 api_key_id);
        secret = truthy secret;
        created_at = now;
        active = some true;
      } in
      if not (fits 100 (get_or row.api_key_id "")) || not (fits 255 (get_or row.secret ""))
      then (threw too_long, s)
      else if any (λ r. r.id == id) s.webhooks
      then (threw duplicate, s)
      else (returned (row_to_webhook row), with_webhooks (concat s.webhooks (row ∷ [])) s)

  -- `WHERE active = true AND api_key_id = $1`
  unfoldable pub count_webhooks_for_api_key : String → Postgres → ℕ
  count_webhooks_for_api_key api_key_id s = length (
      keep
        (λ row. is_active row && (elim row.api_key_id [
          | none ↦ false
          | some id ↦ id == api_key_lookup_id sha256 api_key_id
        ]))
        s.webhooks)
