-- ===== src/Environment/Flaws.antt =====
-- src/env-validation.ts: the environments that are found invalid, told apart from the checks.
use xrplink.Environment.{Env, trim}
use xrplink.Environment.Reads.{IsEthereum, IsClassic, HasText, IsProduction, IsFlare}
use xrplink.Prelude.{String, ◌≡◌, ◌≢◌, ◌⊎◌, some, get_or}

module _ (env : Env) where
  -- The variable `a`, or `b` where `a` has no text, is `v`, a text that is not empty.
  abbrev pub IsFirst : String → String → String → Type 0
  IsFirst a b v =
      ((env a ≡ some v) × (v ≢ "")) ⊎ ((HasText env a → ⊥) × (env b ≡ some v) × (v ≢ ""))

  -- The address of the verifier contract for the network, or else the general one.
  abbrev pub IsVerifier : String → Type 0
  IsVerifier v =
      (IsFlare env × IsFirst "PAYMENT_VERIFIER_ADDRESS_FLARE" "PAYMENT_VERIFIER_ADDRESS" v)
      ⊎ ((IsFlare env → ⊥)
          × IsFirst "PAYMENT_VERIFIER_ADDRESS_COSTON2" "PAYMENT_VERIFIER_ADDRESS" v)

  -- No session secret, or the one for development.
  abbrev pub HasDevSecret : Type 0
  HasDevSecret =
      (HasText env "SESSION_SECRET" → ⊥) ⊎ (env "SESSION_SECRET" ≡ some "dev-secret-change-in-prod")

  abbrev pub HasBadVerifier : Type 0
  HasBadVerifier = (v : String) × IsVerifier v × (v ≢ "undefined") × (IsEthereum v → ⊥)

  abbrev address : String
  address = trim (get_or (env "X402_PAY_TO_ADDRESS") "")

  abbrev pub HasBadPayTo : Type 0
  HasBadPayTo = (env "X402_ENABLED" ≢ some "false") × ((address ≢ "") × (IsClassic address → ⊥))

  abbrev pub HasHalfStripe : Type 0
  HasHalfStripe = HasText env "STRIPE_SECRET_KEY" × (HasText env "STRIPE_WEBHOOK_SECRET" → ⊥)

  -- What a deployment must not be.
  abbrev pub IsFlawed : Type 0
  IsFlawed =
      (HasDevSecret × IsProduction env)
      ⊎ (((env "NODE_ENV" ≡ some "production") × (IsFlare env → ⊥))
          ⊎ (HasBadVerifier ⊎ ((HasHalfStripe × IsProduction env) ⊎ HasBadPayTo)))
