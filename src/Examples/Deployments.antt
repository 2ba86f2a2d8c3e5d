-- ===== src/Examples/Deployments.antt =====
-- Runs of the start of the store, of src/env-validation.ts, src/price-service.ts, src/x402-ledger.ts and
-- of PostgresStore.
use mathlib.Core.Path.{subst}
use xrplink.Dict
use xrplink.Keys.{api_key_lookup_id, is_api_key_hash, is_plaintext_api_key}
use xrplink.Prelude.Text.{lower, split_last_colon}
use xrplink.Quota.{BillingPeriod}
use xrplink.Store.{Attestation, PersistedData, written, broken, commit}
use xrplink.Store.Attestations.{new_attestation}
use xrplink.Store.Attestations.Index.{IsIndexed}
use xrplink.Store.Load.{absent, parsed, malformed, Disk, disk_of, start, migrated_usage_key}
use xrplink.Store.Load.Copies.{IsClean}
use xrplink.Store.Load.Restart.{start-commit}
use xrplink.Environment.{Env}
use xrplink.X402.{Number, bits}
use xrplink.Ledger.{
  LedgerEvent, quote, settled, LedgerFile, holding, load, in_range, get_margin_summaries,
}
use xrplink.Ledger.Totals.{sum_quotes, sum_settlements, get_margin_summaries-sum}
use xrplink.Postgres.{Postgres}
use xrplink.Quota.{BillingPeriod}
use xrplink.Examples.Stores.{empty_store, sha256}
use xrplink.Prelude.{
  ℕ, String, ◌≡◌, refl, sym, ap, ◌∙◌, inl, inr, true, Option, none, some, [], ◌∷◌, arith, ◌==◌,
  eq_iff, if◌then◌else◌, Bool-cases,
}

abbrev broken_disk : Disk
broken_disk = record {
  attestations = parsed (("a1", new_attestation 5 "a1" "AB" none) ∷ []);
  api_keys = absent;
  webhooks = malformed "Unexpected end of JSON input";
  attestation_usage = absent;
}

abbrev row : Attestation
row = new_attestation 5 "a1" "AB" none

abbrev kept : PersistedData
kept = record {
  attestations = ("a1", row) ∷ [];
  tx_hash_index = ("ab", "a1") ∷ [];
  api_keys = [];
  webhooks = [];
  attestation_usage = ("k:9", 3) ∷ [];
}

one_key :
    (k : String) (a : Attestation) → Dict.get kept.attestations k ≡ some a → ("a1" ≡ k) × (row ≡ a)
unfolding Dict.get
one_key k a e = elim (Bool-cases ("a1" == k)) [
  | inl same ↦ ((eq_iff "a1" k).0 same, ground arith)
  | inr other ↦ absurd (ground arith)
]

one_hash : (h id : String) → Dict.get kept.tx_hash_index h ≡ some id → ("ab" ≡ h) × ("a1" ≡ id)
unfolding Dict.get
one_hash h id e = elim (Bool-cases ("ab" == h)) [
  | inl same ↦ ((eq_iff "ab" h).0 same, ground arith)
  | inr other ↦ absurd (ground arith)
]

row_example : ◌≡◌ {A = Option Attestation} (some row) none → ⊥
row_example e = cc

a1_named : ◌≡◌ {A = String} "a1" "" → ⊥
a1_named e = ground (arith, eq_iff "a1" "")

kept-IsIndexed : IsIndexed kept
unfolding Dict.get lower
kept-IsIndexed = record {
  present = λ h id e f.
      row_example (subst (λ i. Dict.get kept.attestations i ≡ none) (sym (one_hash h id e).1) f);
  named = λ h id e f. a1_named ((one_hash h id e).1 ∙ f);
  hashed = λ h id a e f.
      subst (λ (b : Attestation). lower b.tx_hash ≡ h) (one_key id a f).1 (one_hash h id e).0;
  listed = λ id a e.
      subst (λ (b : Attestation). Dict.get kept.tx_hash_index (lower b.tx_hash) ≡ some id)
        (one_key id a e).1 (ap some (one_key id a e).0);
}

kept-IsClean : IsClean sha256 kept
unfolding Dict.get migrated_usage_key split_last_colon api_key_lookup_id is_api_key_hash
    is_plaintext_api_key
kept-IsClean = record {
  attestations_distinct = (refl, tt);
  api_keys_distinct = tt;
  webhooks_distinct = tt;
  usage_distinct = (refl, tt);
  hashed = tt;
  scoped = tt;
  migrated = (refl, tt);
}

restart_example :
    let r =
      (start sha256
        (broken 0 "disk full")
        (disk_of (commit {A = ℕ} written kept 7 empty_store).1.files)).data_in_memory in
    (r ≡ record kept { tx_hash_index = r.tx_hash_index })
    × ((h : String) → Dict.get r.tx_hash_index h ≡ Dict.get kept.tx_hash_index h)
restart_example =
    start-commit sha256 (broken 0 "disk full") kept 7 empty_store kept-IsIndexed kept-IsClean

abbrev postgres : Postgres
postgres = record {
  database = record {
    attestations = [];
    api_keys = [];
    webhooks = [];
    attestation_usage = record { api_key = "k"; month_key = "2024-01"; usage_count = 2 } ∷ [];
  };
  initialized = true;
  last_error = none;
}

abbrev june : BillingPeriod
june = record { start = 1717200000; end = 1719792000 }

abbrev staging_in_production : Env
staging_in_production name =
    if name == "NODE_ENV"
    then some "production"
    else if name == "SESSION_SECRET"
    then some "correct horse battery staple"
    else none

abbrev quoted : LedgerEvent
quoted = quote (record {
  invoice_id = "i1";
  time = "2025-06-01T10:00:00.000Z";
  usd = bits 1;
  flr_usd = bits 2;
  fee_flr = bits 3;
  flr_cost_usd = bits 4;
  xrp_usd = bits 5;
  assets = [];
})

abbrev paid_for : LedgerEvent
paid_for = settled (record {
  invoice_id = "i1";
  time = "2025-06-02T10:00:00.000Z";
  asset = "XRP";
  amount = "1";
  usd = bits 1;
  flr_usd = bits 2;
  fee_flr = bits 3;
  flr_cost_usd = bits 4;
  settlement_tx = none;
})

abbrev ledger_file : LedgerFile
ledger_file = holding (quoted ∷ (paid_for ∷ (quoted ∷ [])))

abbrev first : Number → Number → Number
first a b = a

dated_june : ◌≡◌ {A = String} "2025-06-01" "" → ⊥
dated_june e = ground (arith, eq_iff "2025-06-01" "")

dated_june_second : ◌≡◌ {A = String} "2025-06-02" "" → ⊥
dated_june_second e = ground (arith, eq_iff "2025-06-02" "")

sum_example :
    let summaries =
      get_margin_summaries first first
        (λ a. a)
        (bits 0)
        "2025-06-03"
        (some "2025-06-01")
        none
        ledger_file in
    (sum_quotes summaries ≡ 2) × (sum_settlements summaries ≡ 1)
unfolding in_range load
sum_example =
    get_margin_summaries-sum first first (λ a. a) (bits 0) "2025-06-03" (some "2025-06-01") none
      ledger_file (dated_june, (dated_june_second, (dated_june, tt)))
