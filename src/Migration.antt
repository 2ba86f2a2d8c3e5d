-- ===== src/Migration.antt =====
-- scripts/migrate-to-postgres.ts: the JSON files copied into the tables. The tables of the server and
-- the users table, which only this script writes; ids are taken to be UUIDs, as the columns want.
pub mod Lost
pub mod Reads
use xrplink.Dict.{Dict}
use xrplink.Store.{Attestation, ApiKey, Webhook, Tier, Outcome, returned, threw}
use xrplink.Store.Load.{FileRead, absent, parsed, malformed}
use xrplink.Postgres.{Database, update_where, fits, too_long, duplicate}
use xrplink.Users.{StoredUser}
use xrplink.Prelude.{
  ℕ, ◌+◌, String, Bool, true, not, ◌&&◌, ◌||◌, Option, none, some, List, [], ◌∷◌, ◌==◌, nat_eq,
  if◌then◌else◌, get_or, truthy, any, concat,
}

pub record UserRow : Type 0 where
  pub id : String
  pub email : String
  pub password_hash : String
  pub api_key_ids : List String
  pub stripe_customer_id : Option String
  pub tier : Tier
  pub created_at : ℕ
  pub session_version : ℕ

pub record Target : Type 0 where
  pub database : Database
  pub users : List UserRow

-- `data/*.json`
pub record Sources : Type 0 where
  pub attestations : FileRead Attestation
  pub api_keys : FileRead ApiKey
  pub webhooks : FileRead Webhook
  pub users : FileRead StoredUser

pub record Stats : Type 0 where
  pub attestations : ℕ
  pub api_keys : ℕ
  pub webhooks : ℕ
  pub users : ℕ

module _ {A : Type 0} where
  -- `INSERT … ON CONFLICT (key) DO UPDATE SET …`
  unfoldable pub upsert : (A → Bool) → (A → A) → A → List A → List A
  upsert same set row rows =
      if any same rows then update_where same set rows else concat rows (row ∷ [])

-- `createTables`: the tables are there, with the rows they had.
unfoldable pub create_tables : Target → Target
create_tables t = t

-- A new row has no owner; `created_at` and the owner of an old one stay.
abbrev pub set_attestation_columns : Attestation → Attestation → Attestation
set_attestation_columns a row = record row {
  tx_hash = a.tx_hash;
  status = a.status;
  round_id = a.round_id;
  abi_encoded_request = a.abi_encoded_request;
  proof = a.proof;
  verified_tx_hash = a.verified_tx_hash;
  error = a.error;
  updated_at = a.updated_at;
}

abbrev pub row_of_attestation : Attestation → Attestation
row_of_attestation a = record a { owner_key_id = none }

unfoldable pub insert_attestation : Attestation → List Attestation → Outcome (List Attestation)
unfolding upsert
insert_attestation a rows =
    if not (fits 64 a.tx_hash) || not (fits 66 (get_or a.verified_tx_hash ""))
    then threw too_long
    else if any (λ r. not (r.id == a.id) && (r.tx_hash == a.tx_hash)) rows
    then threw duplicate
    else returned
        (upsert (λ r. r.id == a.id) (set_attestation_columns a) (row_of_attestation a) rows)

-- The parts of a key that are shown are not copied.
abbrev pub set_api_key_columns : ApiKey → ApiKey → ApiKey
set_api_key_columns k row = record row {
  name = k.name;
  tier = k.tier;
  active = k.active;
  usage_count = k.usage_count;
}

abbrev pub row_of_api_key : ApiKey → ApiKey
row_of_api_key k = record k { key_prefix = none; key_last4 = none }

unfoldable pub insert_api_key : ApiKey → List ApiKey → Outcome (List ApiKey)
unfolding upsert
insert_api_key k rows =
    if not (fits 100 k.key) || not (fits 255 k.name)
    then threw too_long
    else returned (upsert (λ r. r.key == k.key) (set_api_key_columns k) (row_of_api_key k) rows)

-- The key of a webhook is not copied, nor whether it is active: the column's default is true.
abbrev pub set_webhook_columns : Webhook → Webhook → Webhook
set_webhook_columns h row = record row {
  url = h.url;
  attestation_id = h.attestation_id;
  secret = truthy h.secret;
}

abbrev pub row_of_webhook : Webhook → Webhook
row_of_webhook h = record h { api_key_id = none; secret = truthy h.secret; active = some true }

unfoldable pub insert_webhook : Webhook → List Webhook → Outcome (List Webhook)
unfolding upsert
insert_webhook h rows =
    if not (fits 255 (get_or (truthy h.secret) ""))
    then threw too_long
    else returned (upsert (λ r. r.id == h.id) (set_webhook_columns h) (row_of_webhook h) rows)

-- `user.sessionVersion || 1`
abbrev version_of : StoredUser → ℕ
version_of u = elim u.session_version [ none ↦ 1 | some v ↦ if nat_eq v 0 then 1 else v ]

abbrev pub row_of_user : StoredUser → UserRow
row_of_user u = record {
  id = u.id;
  email = u.email;
  password_hash = u.password_hash;
  api_key_ids = u.api_key_ids;
  stripe_customer_id = truthy (some u.stripe_customer_id);
  tier = u.tier;
  created_at = u.created_at;
  session_version = version_of u;
}

unfoldable pub insert_user : StoredUser → List UserRow → Outcome (List UserRow)
unfolding upsert
insert_user u rows =
    if not (fits 255 u.email)
      || (not (fits 255 u.password_hash) || not (fits 255 u.stripe_customer_id))
    then threw too_long
    else if any (λ r. not (r.id == u.id) && (r.email == u.email)) rows
    then threw duplicate
    else returned (
        upsert (λ r. r.id == u.id)
          (λ r. record (row_of_user u) { id = r.id; created_at = r.created_at }) (row_of_user u)
          rows)

-- `stats.…++`
abbrev pub counted_one : Outcome ℕ → Outcome ℕ
counted_one (threw m) = threw m
counted_one (returned n) = returned (n + 1)

module _ {A B : Type 0} where
  -- The loop over the entries of a file: one statement for each, up to the first that throws. What
  -- the statements before it did stays.
  unfoldable pub copy_rows : (A → List B → Outcome (List B)) → Dict A → List B → Outcome ℕ × List B
  copy_rows insert [] rows = (returned 0, rows)
  copy_rows insert ((id, a) ∷ entries) rows = elim (insert a rows) [
    | threw m ↦ (threw m, rows)
    | returned next ↦ let (r, last) = copy_rows insert entries next in (counted_one r, last)
  ]

  -- A file that is not there is skipped; one that is no JSON throws.
  unfoldable pub copy_file :
      (A → List B → Outcome (List B)) → FileRead A → List B → Outcome ℕ × List B
  unfolding copy_rows
  copy_file insert absent rows = (returned 0, rows)
  copy_file insert (malformed m) rows = (threw m, rows)
  copy_file insert (parsed entries) rows = copy_rows insert entries rows

unfoldable pub copy_attestations : Sources → Target → Outcome ℕ × Target
unfolding copy_file insert_attestation
copy_attestations files t =
    let (r, rows) = copy_file insert_attestation files.attestations t.database.attestations in
    (r, record t { database = record t.database { attestations = rows } })

unfoldable pub copy_api_keys : Sources → Target → Outcome ℕ × Target
unfolding copy_file insert_api_key
copy_api_keys files t =
    let (r, rows) = copy_file insert_api_key files.api_keys t.database.api_keys in
    (r, record t { database = record t.database { api_keys = rows } })

unfoldable pub copy_webhooks : Sources → Target → Outcome ℕ × Target
unfolding copy_file insert_webhook
copy_webhooks files t =
    let (r, rows) = copy_file insert_webhook files.webhooks t.database.webhooks in
    (r, record t { database = record t.database { webhooks = rows } })

unfoldable pub copy_users : Sources → Target → Outcome ℕ × Target
unfolding copy_file insert_user
copy_users files t =
    let (r, rows) = copy_file insert_user files.users t.users in (r, record t { users = rows })

-- A file that throws ends the script, by `main().catch`.
abbrev pub then_file :
    Outcome ℕ × Target → (ℕ → Target → Outcome Stats × Target) → Outcome Stats × Target
then_file (threw m, t) k = (threw m, t)
then_file (returned n, t) k = k n t

unfoldable pub copy_files : Sources → Target → Outcome Stats × Target
unfolding copy_attestations copy_api_keys copy_webhooks copy_users
copy_files files t = then_file (copy_attestations files t) (λ a t1.
    then_file (copy_api_keys files t1) (λ k t2. then_file (copy_webhooks files t2) (λ w t3.
      then_file (copy_users files t3) (λ u t4.
        (returned (record { attestations = a; api_keys = k; webhooks = w; users = u }), t4)))))

-- `main`: without a URL, or a connection, the script ends before it touches a table. `connection` is
-- the error of `SELECT 1`.
unfoldable pub main : Option String → Option String → Sources → Target → Outcome Stats × Target
unfolding copy_files create_tables
main database_url connection files t = elim (truthy database_url) [
  | none ↦ (threw "DATABASE_URL environment variable is not set.", t)
  | some url ↦ elim connection [ some m ↦ (threw m, t) | none ↦ copy_files files (create_tables t) ]
]
