-- ===== src/Attest/Effects.antt =====
-- src/attest.ts: the pieces of a request that leave the quota counters alone.
use xrplink.Prelude.{ℕ, String, ◌≡◌, refl, ap, ◌∙◌, inl, inr, Option, Option-cases, truthy}
use xrplink.Dict
use xrplink.Prelude.Text.{lower}
use xrplink.Dict.{Dict}
use xrplink.Store.{Store, Write, Outcome, data_in_memory-commit}
use xrplink.Store.Attestations.{Updates, create_attestation, update_attestation}
use xrplink.Store.ApiKeys.{change_api_key, increment_api_key_usage, find_api_key}
use xrplink.X402.{State}
use xrplink.Attest.{
  World, Attempt, done, raised, Failure, Flow, ◌>>=◌, pure, catching, on_store, on_x402,
}

abbrev pub usage : World → Dict ℕ
usage w = w.store.attestation_usage

-- Whatever it gives or throws, the counters are as they were.
abbrev pub IsQuiet : {A : Type 0} → Flow A → Type 0
IsQuiet m = (w : World) → usage (m w).1 ≡ usage w

pub pure-IsQuiet : {A : Type 0} (a : A) → IsQuiet (pure a)
pure-IsQuiet a w = refl

module _ {A B : Type 0} where
  bound :
      (f : A → Flow B)
      → ((a : A) → IsQuiet (f a))
      → (r : Attempt A) (v : World)
      → usage (elim r as (λ _. Attempt B × World) [ done a ↦ f a v | raised e ↦ (raised e, v) ]).1
        ≡ usage v
  bound f q (done a) v = q a v
  bound f q (raised e) v = refl

  pub bind-IsQuiet :
      (m : Flow A) (f : A → Flow B) → IsQuiet m → ((a : A) → IsQuiet (f a)) → IsQuiet (m >>= f)
  unfolding ◌>>=◌
  bind-IsQuiet m f p q w = bound f q (m w).0 (m w).1 ∙ p w

module _ {A : Type 0} where
  caught :
      (h : Failure → Flow A)
      → ((e : Failure) → IsQuiet (h e))
      → (r : Attempt A) (v : World)
      → usage (elim r as (λ _. Attempt A × World) [ done a ↦ (done a, v) | raised e ↦ h e v ]).1
        ≡ usage v
  caught h q (done a) v = refl
  caught h q (raised e) v = q e v

  pub catching-IsQuiet :
      (m : Flow A) (h : Failure → Flow A)
      → IsQuiet m
      → ((e : Failure) → IsQuiet (h e))
      → IsQuiet (catching m h)
  unfolding catching
  catching-IsQuiet m h p q w = caught h q (m w).0 (m w).1 ∙ p w

  pub on_x402-IsQuiet : (f : State → Outcome A × State) → IsQuiet (on_x402 f)
  unfolding on_x402
  on_x402-IsQuiet f w = refl

  pub on_store-IsQuiet :
      (f : Store → Outcome A × Store)
      → ((s : Store) → (f s).1.attestation_usage ≡ s.attestation_usage)
      → IsQuiet (on_store f)
  unfolding on_store
  on_store-IsQuiet f h w = h w.store

pub usage-create_attestation :
    (w : Write) (now : ℕ) (id tx_hash : String) (owner : Option String) (s : Store)
    → (create_attestation w now id tx_hash owner s).1.attestation_usage ≡ s.attestation_usage
unfolding create_attestation
usage-create_attestation w now id tx_hash owner s =
    elim (Option-cases (truthy (Dict.get s.tx_hash_index (lower tx_hash)))) [
      | inl e ↦
          rw (e, create_attestation) (ap (λ d. d.attestation_usage) (data_in_memory-commit w _ _ s))
      | inr (id, e) ↦ rw (e, create_attestation) refl
    ]

pub usage-update_attestation :
    (w : Write) (now : ℕ) (id : String) (u : Updates) (s : Store)
    → (update_attestation w now id u s).1.attestation_usage ≡ s.attestation_usage
unfolding update_attestation
usage-update_attestation w now id u s = elim (Option-cases (Dict.get s.attestations id)) [
  | inl e ↦ rw (e, update_attestation) refl
  | inr (a, e) ↦
      rw (e, update_attestation) (ap (λ d. d.attestation_usage) (data_in_memory-commit w _ _ s))
]

pub usage-increment_api_key_usage :
    (sha256 : String → String) (w : Write) (key : String) (s : Store)
    → (increment_api_key_usage sha256 w key s).1.attestation_usage ≡ s.attestation_usage
unfolding increment_api_key_usage change_api_key
usage-increment_api_key_usage sha256 w key s = elim (Option-cases (find_api_key sha256 key s)) [
  | inl e ↦ rw (e, change_api_key) refl
  | inr (row, e) ↦
      rw (e, change_api_key) (ap (λ d. d.attestation_usage) (data_in_memory-commit w _ _ s))
]

module _ {A B : Type 0} where
  -- How a piece goes on, by what the one before it did.
  pub bind-done :
      (m : Flow A) (f : A → Flow B) (w v : World) (a : A) → m w ≡ (done a, v) → (m >>= f) w ≡ f a v
  unfolding ◌>>=◌
  bind-done m f w v a e =
      (ap
        (λ (x : Attempt A × World). elim x.0 as (λ _. Attempt B × World) [
          | done b ↦ f b x.1
          | raised y ↦ (raised y, x.1)
        ])
        e)

  pub bind-raised :
      (m : Flow A) (f : A → Flow B) (w v : World) (x : Failure)
      → m w ≡ (raised x, v)
      → (m >>= f) w ≡ (raised x, v)
  unfolding ◌>>=◌
  bind-raised m f w v x e =
      (ap
        (λ (x : Attempt A × World). elim x.0 as (λ _. Attempt B × World) [
          | done b ↦ f b x.1
          | raised y ↦ (raised y, x.1)
        ])
        e)

module _ {A : Type 0} where
  pub catching-done :
      (m : Flow A) (h : Failure → Flow A) (w v : World) (a : A)
      → m w ≡ (done a, v)
      → catching m h w ≡ (done a, v)
  unfolding catching
  catching-done m h w v a e =
      (ap
        (λ (x : Attempt A × World). elim x.0 as (λ _. Attempt A × World) [
          | done b ↦ (done b, x.1)
          | raised y ↦ h y x.1
        ])
        e)

  pub catching-raised :
      (m : Flow A) (h : Failure → Flow A) (w v : World) (x : Failure)
      → m w ≡ (raised x, v)
      → catching m h w ≡ h x v
  unfolding catching
  catching-raised m h w v x e =
      (ap
        (λ (x : Attempt A × World). elim x.0 as (λ _. Attempt A × World) [
          | done b ↦ (done b, x.1)
          | raised y ↦ h y x.1
        ])
        e)
