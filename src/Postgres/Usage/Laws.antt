-- ===== src/Postgres/Usage/Laws.antt =====
-- src/store.ts: what the columns of PostgresStore do to the keys of billing periods.
use xrplink.Postgres.{Postgres, UsageRow, fits}
use xrplink.Postgres.Usage.{month_key_length}
use xrplink.Prelude.{◌≡◌, true, List, All}

-- No row has a month key that the column could not hold.
abbrev pub IsTyped : List UsageRow → Type 0
IsTyped rows = All (λ row. fits month_key_length row.month_key ≡ true) rows
