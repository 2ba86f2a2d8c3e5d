-- ===== src/Store/Webhooks.antt =====
-- src/store.ts: the webhooks, each for one attestation and one API key.
use xrplink.Prelude.{
  ℕ, String, Bool, true, false, ◌&&◌, Option, none, some, List, ◌==◌, is_some, truthy, length, keep,
}
use xrplink.Dict
use xrplink.Keys.{api_key_lookup_id}
use xrplink.Store.{Webhook, Store, Write, Outcome, returned, commit}

-- `h.active !== false`
abbrev pub is_active : Webhook → Bool
is_active h = elim h.active [ none ↦ true | some b ↦ b ]

unfoldable pub get_webhooks_for_attestation : String → Store → List Webhook
get_webhooks_for_attestation attestation_id s =
    keep
      (λ h.
        is_active h
        && (is_some (truthy h.api_key_id)
            && (elim h.attestation_id [ none ↦ false | some id ↦ id == attestation_id ])))
      (Dict.values s.webhooks)

unfoldable pub get_webhook : String → Store → Option Webhook
get_webhook id s = Dict.get s.webhooks id

unfoldable pub remove_webhook : Write → String → Store → Outcome Bool × Store
remove_webhook w id s = elim (Dict.get s.webhooks id) [
  | none ↦ (returned false, s)
  | some h ↦ commit w (record s.data_in_memory { webhooks = Dict.remove s.webhooks id }) true s
]

module _ (sha256 : String → String) where
  -- `id` is the fresh `uuid()`, `now` the clock.
  unfoldable pub register_webhook :
      Write
      → ℕ
      → String
      → String
      → String
      → String
      → Option String
      → Store
      → Outcome Webhook × Store
  register_webhook w now id url attestation_id api_key_id secret s =
      let hook : Webhook = record {
        id = id;
        url = url;
        attestation_id = some attestation_id;
        api_key_id = some (api_key_lookup_id sha256 api_key_id);
        secret = secret;
        created_at = now;
        active = some true;
      } in
      commit w (record s.data_in_memory { webhooks = Dict.set s.webhooks id hook }) hook s

  unfoldable pub count_webhooks_for_api_key : String → Store → ℕ
  count_webhooks_for_api_key api_key_id s = length (
      keep
        (λ h. is_active h && (elim (truthy h.api_key_id) [
          | none ↦ false
          | some id ↦ api_key_lookup_id sha256 id == api_key_lookup_id sha256 api_key_id
        ]))
        (Dict.values s.webhooks))
