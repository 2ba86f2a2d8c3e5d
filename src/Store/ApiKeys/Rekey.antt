-- ===== src/Store/ApiKeys/Rekey.antt =====
-- src/store.ts: what `rekeyAttestationUsage` does to the counters.
use text.Mathlib.TextLemmas.{append_cancel_left}
use xrplink.Dict
use xrplink.Dict.{get-set}
use xrplink.Keys.{api_key_lookup_id}
use xrplink.Prelude.Text.{split_last_colon}
use xrplink.Store.{Store, Write, data_in_memory-commit}
use xrplink.Store.Usage.{usage_key, get_attestation_usage}
use xrplink.Store.ApiKeys.{rekey_entry, rekey_entries, rekey_attestation_usage}
use xrplink.Prelude.{
  ℕ, ◌+◌, String, ◌≡◌, refl, ap, ◌∙◌, ◌≢◌, inl, inr, Bool, true, false, ◌&&◌, ◌||◌, List, [], ◌∷◌,
  arith, ◌==◌, eq_iff, if◌then◌else◌, Bool-cases, get_or, All,
}

module _ (sha256 : String → String) where
  -- The key and the period that the name of a counter is made of.
  abbrev pub parts_of : String → String × String
  parts_of name = get_or (split_last_colon name) (name, "")

  -- The counter is one of the key, under its id or, as before there were ids, under the key itself.
  abbrev pub is_of : String → String → Bool
  is_of key name =
      (api_key_lookup_id sha256 (parts_of name).0 == api_key_lookup_id sha256 key)
      || ((parts_of name).0 == key)

  abbrev is_counted : String → String → String → Bool
  is_counted key period name = is_of key name && ((parts_of name).1 == period)

  -- What the counters of a key come to in a period.
  abbrev pub used_in : String → String → List (String × ℕ) → ℕ
  used_in key period [] = 0
  used_in key period ((name, n) ∷ entries) =
      let rest = used_in key period entries in if is_counted key period name then n + rest else rest

  -- No counter but those of the old key stands under the name.
  abbrev pub IsFree : String → String → List (String × ℕ) → Type 0
  IsFree old name entries = All (λ e. is_of old e.0 ≡ false → e.0 ≢ name) entries

  same_period : (new p q : String) → usage_key sha256 new p ≡ usage_key sha256 new q → p ≡ q
  unfolding usage_key
  same_period new p q e =
      append_cancel_left ":" p q (append_cancel_left (api_key_lookup_id sha256 new) _ _ e)

  at : String → Dict.Dict ℕ → ℕ
  at name d = get_or (Dict.get d name) 0

  rekey_entry-shape :
      (old new name : String) (n : ℕ) (next : Dict.Dict ℕ)
      → let moved = usage_key sha256 new (parts_of name).1 in
        rekey_entry sha256 old new (name, n) next
        ≡ (if is_of old name then Dict.set next moved (at moved next + n) else Dict.set next name n)
  unfolding rekey_entry usage_key at
  rekey_entry-shape old new name n next = refl

  at-turn :
      (ours same : Bool) (k moved name : String) (n : ℕ) (next : Dict.Dict ℕ)
      → (same ≡ true → moved ≡ k)
      → (same ≡ false → moved ≢ k)
      → (ours ≡ false → name ≢ k)
      → at k (if ours then Dict.set next moved (at moved next + n) else Dict.set next name n)
        ≡ at k next + (if ours && same then n else 0)
  unfolding at
  at-turn false same k moved name n next is other free =
      ground (arith, get-set next name k n, eq_iff name k, free refl)
  at-turn true false k moved name n next is other free =
      ground (arith, get-set next moved k (at moved next + n), eq_iff moved k, other refl)
  at-turn true true k moved name n next is other free =
      let e = is refl in ground (arith, get-set next moved k (at moved next + n), eq_iff moved k, e)

  at-rekey_entry :
      (old new period name : String) (n : ℕ) (next : Dict.Dict ℕ)
      → (is_of old name ≡ false → name ≢ usage_key sha256 new period)
      → at (usage_key sha256 new period) (rekey_entry sha256 old new (name, n) next)
        ≡ at (usage_key sha256 new period) next + (if is_counted old period name then n else 0)
  at-rekey_entry old new period name n next free =
      let q = (parts_of name).1 in
      ap (at (usage_key sha256 new period)) (rekey_entry-shape old new name n next)
      ∙ at-turn (is_of old name) (q == period) (usage_key sha256 new period)
          (usage_key sha256 new q) name n next
          (λ e. ap (usage_key sha256 new) ((eq_iff q period).0 e))
          (λ e f. ground (arith, same_period new q period f, eq_iff q period)) free

  at-rekey_entries :
      (old new period : String) (entries : List (String × ℕ)) (next : Dict.Dict ℕ)
      → IsFree old (usage_key sha256 new period) entries
      → at (usage_key sha256 new period) (rekey_entries sha256 old new entries next)
        ≡ at (usage_key sha256 new period) next + used_in old period entries
  unfolding rekey_entries
  at-rekey_entries old new period [] next free = omega arith
  at-rekey_entries old new period ((name, n) ∷ entries) next free =
      let first = at-rekey_entry old new period name n next free.0 in
      let rest =
        at-rekey_entries old new period entries (rekey_entry sha256 old new (name, n) next)
          free.1 in
      elim (Bool-cases (is_counted old period name)) [
        | inl e ↦ ground (arith, e, first, rest)
        | inr e ↦ ground (arith, e, first, rest)
      ]

  none_before : (name : String) (n : ℕ) → at name [] + n ≡ n
  unfolding at Dict.get
  none_before name n = omega arith

  -- Whatever becomes of the write: in every period the new key has used what the old key had, the
  -- counters under its id and those under the key itself added up, if no counter of another key stands
  -- under the new key's name.
  pub get_attestation_usage-rekey_attestation_usage :
      (w : Write) (old new period : String) (s : Store)
      → IsFree old (usage_key sha256 new period) s.attestation_usage
      → get_attestation_usage sha256 new period (rekey_attestation_usage sha256 w old new s).1
        ≡ used_in old period s.attestation_usage
  unfolding get_attestation_usage rekey_attestation_usage at Dict.get
  get_attestation_usage-rekey_attestation_usage w old new period s free =
      ap (λ d. at (usage_key sha256 new period) d.attestation_usage) (data_in_memory-commit w _ _ s)
      ∙ at-rekey_entries old new period s.attestation_usage [] free
      ∙ none_before (usage_key sha256 new period) (used_in old period s.attestation_usage)
