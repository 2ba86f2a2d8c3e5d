-- ===== src/Postgres/Usage.antt =====
-- src/store.ts: the quota counters of PostgresStore. The table's key is the API key with the period.
pub mod Laws
use xrplink.Keys.{api_key_lookup_id}
use xrplink.Store.{Outcome, returned, threw}
use xrplink.Store.Usage.{Reservation}
use xrplink.Postgres.{Postgres, UsageRow, with_usage, update_where, fits, too_long, duplicate}
use xrplink.Prelude.{
  ℕ, ◌+◌, ◌-◌, String, Bool, true, false, not, ◌&&◌, ◌||◌, Option, none, some, List, [], ◌∷◌, ◌==◌,
  leb, if◌then◌else◌, is_some, get_or, concat,
}

-- The columns' lengths.
abbrev pub api_key_length : ℕ
api_key_length = 100

abbrev pub month_key_length : ℕ
month_key_length = 7

abbrev pub is_row : String → String → UsageRow → Bool
is_row k p row = (row.api_key == k) && (row.month_key == p)

-- `SELECT usage_count … WHERE api_key = $1 AND month_key = $2`
abbrev pub select_usage : String → String → List UsageRow → Option ℕ
select_usage k p [] = none
select_usage k p (row ∷ rows) =
    if is_row k p row then some row.usage_count else select_usage k p rows

abbrev pub one_more : UsageRow → UsageRow
one_more row = record row { usage_count = row.usage_count + 1 }

abbrev pub new_row : String → String → UsageRow
new_row k p = record { api_key = k; month_key = p; usage_count = 1 }

-- `INSERT INTO attestation_usage … VALUES ($1, $2, 1)`
unfoldable pub insert_usage : String → String → List UsageRow → Outcome (List UsageRow)
insert_usage k p rows =
    if not (fits api_key_length k) || not (fits month_key_length p)
    then threw too_long
    else if is_some (select_usage k p rows)
    then threw duplicate
    else returned (concat rows (new_row k p ∷ []))

module _ (sha256 : String → String) where
  unfoldable pub get_attestation_usage : String → String → Postgres → ℕ
  get_attestation_usage api_key period_key s =
      get_or (select_usage (api_key_lookup_id sha256 api_key) period_key s.attestation_usage) 0

  -- `INSERT … ON CONFLICT (api_key, month_key) DO UPDATE`
  unfoldable pub increment_attestation_usage : String → String → Postgres → Outcome ℕ × Postgres
  increment_attestation_usage api_key period_key s =
      let k = api_key_lookup_id sha256 api_key in
      if not (fits api_key_length k) || not (fits month_key_length period_key)
      then (threw too_long, s)
      else (elim (select_usage k period_key s.attestation_usage) [
        | some n ↦ (
          returned (n + 1),
          with_usage (update_where (is_row k period_key) one_more s.attestation_usage) s,
        )
        | none ↦ (returned 1, with_usage (concat s.attestation_usage (new_row k period_key ∷ [])) s)
      ])

  abbrev pub refused : ℕ → Reservation
  refused n = record { reserved = false; used = n }

  abbrev pub granted : ℕ → Reservation
  granted n = record { reserved = true; used = n }

  -- The first slot of a period: a failed insert rolls the transaction back.
  abbrev reserve_first : String → String → Postgres → Outcome Reservation × Postgres
  reserve_first k p s = elim (insert_usage k p s.attestation_usage) [
    | threw m ↦ (threw m, s)
    | returned rows ↦ (returned (granted 1), with_usage rows s)
  ]

  -- The transaction, from BEGIN to COMMIT or ROLLBACK, with the row locked.
  unfoldable pub reserve_attestation_usage :
      String → String → ℕ → Postgres → Outcome Reservation × Postgres
  unfolding insert_usage
  reserve_attestation_usage api_key period_key limit s =
      let k = api_key_lookup_id sha256 api_key in
      let row = select_usage k period_key s.attestation_usage in
      let current = get_or row 0 in
      if leb limit 0 || leb limit current then (returned (refused current), s) else (elim row [
        | some n ↦ (
          returned (granted (n + 1)),
          with_usage (update_where (is_row k period_key) one_more s.attestation_usage) s,
        )
        | none ↦ reserve_first k period_key s
      ])

  -- `GREATEST(usage_count - 1, 0)`
  unfoldable pub release_attestation_usage :
      String → String → Postgres → Outcome (Unit {0}) × Postgres
  release_attestation_usage api_key period_key s = (
    returned tt,
    with_usage
        (update_where (is_row (api_key_lookup_id sha256 api_key) period_key)
          (λ row. record row { usage_count = row.usage_count - 1 }) s.attestation_usage)
        s,
  )

  abbrev has_row : UsageRow → List UsageRow → Bool
  has_row row rows = is_some (select_usage row.api_key row.month_key rows)

  abbrev has_duplicate : List UsageRow → Bool
  has_duplicate [] = false
  has_duplicate (row ∷ rows) = has_row row rows || has_duplicate rows

  -- `UPDATE attestation_usage SET api_key = $1 WHERE …`: two rows of one key and period are refused.
  unfoldable pub rekey_rows : (String → Bool) → String → Postgres → Outcome (Unit {0}) × Postgres
  rekey_rows p new_id s =
      let rows =
        update_where (λ row. p row.api_key) (λ row. record row { api_key = new_id })
          s.attestation_usage in
      if has_duplicate rows then (threw duplicate, s) else (returned tt, with_usage rows s)

  unfoldable pub rekey_attestation_usage :
      String → String → Postgres → Outcome (Unit {0}) × Postgres
  unfolding rekey_rows
  rekey_attestation_usage old_key new_key s =
      rekey_rows (λ k. (k == api_key_lookup_id sha256 old_key) || (k == old_key))
        (api_key_lookup_id sha256 new_key) s
