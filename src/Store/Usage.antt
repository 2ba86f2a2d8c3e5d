-- ===== src/Store/Usage.antt =====
-- src/store.ts: the attestation quota counters, one for each API key and billing period.
pub mod Laws
use xrplink.Prelude.{
  ℕ, ◌+◌, ◌-◌, String, ◌++◌, Bool, true, false, ◌||◌, Option, none, some, ltb, leb, get_or,
  if◌then◌else◌,
}
use xrplink.Dict
use xrplink.Keys.{api_key_lookup_id}
use xrplink.Store.{Store, PersistedData, Write, Outcome, returned, commit}

pub record Reservation : Type 0 where
  pub reserved : Bool
  pub used : ℕ

module _ (sha256 : String → String) where
  unfoldable pub usage_key : String → String → String
  unfolding api_key_lookup_id
  usage_key api_key period_key = api_key_lookup_id sha256 api_key ++ (":" ++ period_key)

  unfoldable pub get_attestation_usage : String → String → Store → ℕ
  get_attestation_usage api_key period_key s =
      get_or (Dict.get s.attestation_usage (usage_key api_key period_key)) 0

  abbrev set_usage : String → String → ℕ → Store → PersistedData
  set_usage api_key period_key n s = record s.data_in_memory {
    attestation_usage = Dict.set s.attestation_usage (usage_key api_key period_key) n;
  }

  unfoldable pub increment_attestation_usage : Write → String → String → Store → Outcome ℕ × Store
  unfolding commit get_attestation_usage
  increment_attestation_usage w api_key period_key s =
      let current = get_attestation_usage api_key period_key s in
      commit w (set_usage api_key period_key (current + 1) s) (current + 1) s

  unfoldable pub reserve_attestation_usage :
      Write → String → String → ℕ → Store → Outcome Reservation × Store
  unfolding commit get_attestation_usage
  reserve_attestation_usage w api_key period_key limit s =
      let current = get_attestation_usage api_key period_key s in
      if leb limit 0 || leb limit current
      then (returned (record { reserved = false; used = current }), s)
      else commit w (set_usage api_key period_key (current + 1) s)
          (record { reserved = true; used = current + 1 }) s

  unfoldable pub release_attestation_usage :
      Write → String → String → Store → Outcome (Unit {0}) × Store
  unfolding commit get_attestation_usage
  release_attestation_usage w api_key period_key s =
      let current = get_attestation_usage api_key period_key s in
      if ltb 0 current
      then commit w (set_usage api_key period_key (current - 1) s) tt s
      else (returned tt, s)
