-- ===== src/Store/Load/Copies.antt =====
-- src/store.ts: the loops of the start leave rows of the present form as they are.
use xrplink.Dict
use xrplink.Dict.{get-empty, get-set}
use native.Mathlib.Nat.{zero-add}
use xrplink.Dict.{Dict}
use xrplink.Keys.{is_plaintext_api_key}
use xrplink.Store.{ApiKey, Webhook, PersistedData}
use xrplink.Store.Load.{
  sanitize_webhook_record, sanitize_webhooks, migrate_api_key, migrate_json_api_keys,
  migrated_usage_key, migrate_json_attestation_usage,
}
use xrplink.Prelude.{
  ℕ, String, ◌≡◌, refl, sym, ap, ◌∙◌, inl, inr, false, none, List, [], ◌∷◌, arith, ◌==◌, eq_iff,
  Bool-cases, All, concat,
}

-- No two entries have one key.
abbrev pub IsDistinct : {V : Type 0} → Dict V → Type 0
IsDistinct [] = Unit
IsDistinct ((k, v) ∷ d) = (Dict.get d k ≡ none) × IsDistinct d

-- Setting a key that is not there puts it at the end.
set-new :
    {V : Type 0} (next : Dict V) (k : String) (v : V)
    → Dict.get next k ≡ none
    → Dict.set next k v ≡ concat next ((k, v) ∷ [])
unfolding Dict.get Dict.set
set-new [] k v e = refl
set-new ((j, w) ∷ next) k v e = elim (Bool-cases (j == k)) [
  | inl same ↦ absurd (ground arith)
  | inr other ↦ rw other (ap (λ d. (j, w) ∷ d) (set-new next k v (ground arith)))
]

abbrev IsFresh : {V : Type 0} → Dict V → Dict V → Type 0
IsFresh next d = All (λ e. Dict.get next e.0 ≡ none) d

-- Keys of `d` stay new when a key that `d` lacks is set.
IsFresh-set :
    {V : Type 0} (next d : Dict V) (k : String) (v : V)
    → Dict.get d k ≡ none
    → IsFresh next d
    → IsFresh (Dict.set next k v) d
unfolding Dict.get
IsFresh-set next [] k v e f = tt
IsFresh-set next ((j, w) ∷ d) k v e f = (
  ground (arith, get-set next k j v, eq_iff j k, eq_iff k j),
  IsFresh-set next d k v (ground (arith, eq_iff j k)) f.1,
)

concat_assoc :
    {A : Type 0} (xs : List A) (x : A) (ys : List A)
    → concat (concat xs (x ∷ [])) ys ≡ concat xs (x ∷ ys)
concat_assoc [] x ys = refl
concat_assoc (y ∷ xs) x ys = ap (λ l. y ∷ l) (concat_assoc xs x ys)

concat-nil : {A : Type 0} (xs : List A) → concat xs [] ≡ xs
concat-nil [] = refl
concat-nil (x ∷ xs) = ap (λ l. x ∷ l) (concat-nil xs)

-- A loop that sets each clean entry under its own key copies a table of clean entries.
module _ {V : Type 0} (Clean : String → V → Type 0) (loop : Dict V → Dict V → Dict V)
    (done : (next : Dict V) → loop [] next ≡ next)
    (turn : (k : String) (v : V) (d next : Dict V)
      → Clean k v
      → Dict.get next k ≡ none
      → loop ((k, v) ∷ d) next ≡ loop d (Dict.set next k v)) where
  loop-concat :
      (d next : Dict V)
      → IsDistinct d
      → All (λ e. Clean e.0 e.1) d
      → IsFresh next d
      → loop d next ≡ concat next d
  loop-concat [] next distinct clean fresh = done next ∙ sym (concat-nil next)
  loop-concat ((k, v) ∷ d) next distinct clean fresh =
      turn k v d next clean.0 fresh.0
      ∙ loop-concat d (Dict.set next k v) distinct.1 clean.1
          (IsFresh-set next d k v distinct.0 fresh.1)
      ∙ ap (λ l. concat l d) (set-new next k v fresh.0)
      ∙ concat_assoc next (k, v) d

IsFresh-nil : {V : Type 0} (d : Dict V) → IsFresh [] d
unfolding Dict.get
IsFresh-nil [] = tt
IsFresh-nil (e ∷ d) = (refl, IsFresh-nil d)

abbrev pub IsHashed : String → ApiKey → Type 0
IsHashed id k = (is_plaintext_api_key id ≡ false) × (is_plaintext_api_key k.key ≡ false)

abbrev pub IsScoped : String → Webhook → Type 0
IsScoped id h = sanitize_webhook_record h ≡ h

module _ (sha256 : String → String) where
  abbrev pub IsMigrated : String → ℕ → Type 0
  IsMigrated usage_key n = migrated_usage_key sha256 usage_key ≡ usage_key

  pub migrate_json_api_keys-id :
      (d : Dict ApiKey)
      → IsDistinct d
      → All (λ e. IsHashed e.0 e.1) d
      → migrate_json_api_keys sha256 d [] ≡ d
  unfolding migrate_json_api_keys migrate_api_key
  migrate_json_api_keys-id d distinct hashed =
      loop-concat IsHashed (migrate_json_api_keys sha256) (λ next. refl)
        (λ k v rest next c f. rw (c.0, c.1) refl) d [] distinct hashed (IsFresh-nil d)

  pub sanitize_webhooks-id :
      (d : Dict Webhook) → IsDistinct d → All (λ e. IsScoped e.0 e.1) d → sanitize_webhooks d [] ≡ d
  unfolding sanitize_webhooks
  sanitize_webhooks-id d distinct scoped =
      loop-concat IsScoped sanitize_webhooks (λ next. refl)
        (λ k v rest next c f. ap (λ h. sanitize_webhooks rest (Dict.set next k h)) c) d [] distinct
        scoped (IsFresh-nil d)

  pub migrate_json_attestation_usage-id :
      (d : Dict ℕ)
      → IsDistinct d
      → All (λ e. IsMigrated e.0 e.1) d
      → migrate_json_attestation_usage sha256 d [] ≡ d
  unfolding migrate_json_attestation_usage
  migrate_json_attestation_usage-id d distinct migrated =
      loop-concat IsMigrated (migrate_json_attestation_usage sha256) (λ next. refl)
        (λ k v rest next c f. rw (c, f, zero-add) refl) d [] distinct migrated (IsFresh-nil d)

  -- Rows of the present form: distinct keys, no secret among the keys' ids, webhooks that are scoped,
  -- and counters under the id of a key.
  pub record IsClean (d : PersistedData) : Type 0 where
    pub attestations_distinct : IsDistinct d.attestations
    pub api_keys_distinct : IsDistinct d.api_keys
    pub webhooks_distinct : IsDistinct d.webhooks
    pub usage_distinct : IsDistinct d.attestation_usage
    pub hashed : All (λ e. IsHashed e.0 e.1) d.api_keys
    pub scoped : All (λ e. IsScoped e.0 e.1) d.webhooks
    pub migrated : All (λ e. IsMigrated e.0 e.1) d.attestation_usage
