-- ===== src/Postgres.antt =====
-- src/store.ts: the tables of PostgresStore and what its SQL statements do to them. A column's length
-- and a primary key are checked as the server checks them; every statement is taken to reach it.
pub mod Usage
pub mod ApiKeys
pub mod Attestations
pub mod Webhooks
use Prim.Native.String.{count}
use xrplink.Store.{Attestation, ApiKey, Webhook, StoreHealth, Outcome, returned, threw}
use xrplink.Prelude.{
  ℕ, ◌*◌, String, Bool, true, false, not, ◌&&◌, ◌||◌, Option, none, some, List, [], ◌∷◌, leb,
  if◌then◌else◌, is_some, truthy,
}

pub record UsageRow : Type 0 where
  pub api_key : String
  pub month_key : String
  pub usage_count : ℕ

pub record Database : Type 0 where
  pub attestations : List Attestation
  pub api_keys : List ApiKey
  pub webhooks : List Webhook
  pub attestation_usage : List UsageRow

pub record Postgres : Type 0 where
  pub database : Database
  pub open database use *
  pub initialized : Bool
  pub last_error : Option String

abbrev pub with_usage : List UsageRow → Postgres → Postgres
with_usage rows s = record s { database = record s.database { attestation_usage = rows } }

abbrev pub with_api_keys : List ApiKey → Postgres → Postgres
with_api_keys rows s = record s { database = record s.database { api_keys = rows } }

abbrev pub with_webhooks : List Webhook → Postgres → Postgres
with_webhooks rows s = record s { database = record s.database { webhooks = rows } }

abbrev pub with_attestations : List Attestation → Postgres → Postgres
with_attestations rows s = record s { database = record s.database { attestations = rows } }

-- `VARCHAR(n)`
abbrev pub fits : ℕ → String → Bool
fits n s = leb (count s) n

abbrev pub too_long : String
too_long = "value too long for type character varying"

abbrev pub duplicate : String
duplicate = "duplicate key value violates unique constraint"

module _ {A : Type 0} where
  -- `UPDATE … SET … WHERE …`
  abbrev pub update_where : (A → Bool) → (A → A) → List A → List A
  update_where p f [] = []
  update_where p f (row ∷ rows) = (if p row then f row else row) ∷ update_where p f rows

-- `UPDATE webhooks SET active = false WHERE attestation_id IS NULL OR api_key_id IS NULL`
unfoldable pub deactivate_unscoped : List Webhook → List Webhook
deactivate_unscoped =
    update_where (λ h. not (is_some h.attestation_id) || not (is_some h.api_key_id))
      (λ h. record h { active = some false })

-- `CREATE TABLE IF NOT EXISTS` leaves the tables as they are.
unfoldable pub ensure_tables : Postgres → Postgres
unfolding deactivate_unscoped
ensure_tables s = with_webhooks (deactivate_unscoped s.webhooks) s

-- `none` if the connection and the set-up work, else the message.
unfoldable pub init_pool : Option String → Postgres → Outcome (Unit {0}) × Postgres
unfolding ensure_tables
init_pool none s = (returned tt, record (ensure_tables s) { initialized = true; last_error = none })
init_pool (some m) s = (threw m, record s { last_error = some m })

unfoldable pub get_health : Postgres → StoreHealth
get_health s = record {
  ok = s.initialized && not (is_some (truthy s.last_error));
  error = s.last_error;
}
