-- ===== src/Environment/Production.antt =====
-- src/env-validation.ts: which tests lead to an error, and when a server starts.
use xrplink.Environment.{
  Startup, error_if, warn_if, private_key, session_secret_default, testnet_in_production,
  private_key_missing, private_key_missing_dev, verifier_address_invalid,
  stripe_webhook_secret_missing, stripe_key_missing, pay_to_invalid, Env, EnvError, EnvWarning,
  Findings, validate_env, require_valid_env, runs, exits, is_production, has_default_secret,
  network, equals, is_set, verifier_address, is_effectively_unset, is_valid_ethereum_address,
  pay_to, is_classic_address, check_session_secret, check_verifier_key, check_network,
  check_private_key, check_verifier_address, check_stripe, check_optional, check_pay_to, findings,
  is_nil,
}
use xrplink.Prelude.{
  ◌≡◌, refl, ap, ◌∙◌, Bool, true, false, not, ◌&&◌, ◌||◌, List, [], ◌∷◌, arith, ◌==◌, if◌then◌else◌,
  is_some, get_or, truthy, concat,
}

-- The tests that lead to the five errors.
abbrev pub is_flawed : Env → Bool
is_flawed env =
    (has_default_secret env && is_production env)
    || ((equals env "NODE_ENV" "production" && not (network env == "flare"))
        || ((not (is_effectively_unset (verifier_address env))
              && not (is_valid_ethereum_address (get_or (verifier_address env) "")))
            || (((is_set env "STRIPE_SECRET_KEY" && not (is_set env "STRIPE_WEBHOOK_SECRET"))
                  && is_production env)
                || (not (equals env "X402_ENABLED" "false")
                    && (not (pay_to env == "") && not (is_classic_address (pay_to env)))))))

and-false : (b : Bool) → false ≡ (b && false)
and-false true = refl
and-false false = refl

and-true : (b : Bool) → b ≡ (b && true)
and-true true = refl
and-true false = refl

-- Whether a check leaves the list of errors empty.
is_nil-concat : (es : List EnvError) (e : EnvError) → is_nil (concat es (e ∷ [])) ≡ false
is_nil-concat [] e = refl
is_nil-concat (x ∷ es) e = refl

nil-error_if :
    (b : Bool) (e : EnvError) (f : Findings)
    → is_nil (error_if b e f).errors ≡ (is_nil f.errors && not b)
nil-error_if true e f = is_nil-concat f.errors e ∙ and-false (is_nil f.errors)
nil-error_if false e f = and-true (is_nil f.errors)

nil-warn_if :
    (b : Bool) (w : EnvWarning) (f : Findings) → is_nil (warn_if b w f).errors ≡ is_nil f.errors
nil-warn_if true w f = refl
nil-warn_if false w f = refl

module _ (env : Env) (f : Findings) where
  nil-session_secret :
      is_nil (check_session_secret env f).errors
      ≡ (is_nil f.errors && not (has_default_secret env && is_production env))
  unfolding check_session_secret
  nil-session_secret = ground (arith, nil-error_if true session_secret_default f)

  nil-verifier_key : is_nil (check_verifier_key env f).errors ≡ is_nil f.errors
  unfolding check_verifier_key
  nil-verifier_key = ground arith

  nil-network : is_nil (check_network env f).errors ≡ (
      is_nil f.errors && not (equals env "NODE_ENV" "production" && not (network env == "flare")))
  unfolding check_network
  nil-network =
      nil-error_if (equals env "NODE_ENV" "production" && not (network env == "flare"))
        testnet_in_production f

  nil-private_key : is_nil (check_private_key env f).errors ≡ is_nil f.errors
  unfolding check_private_key
  nil-private_key =
      nil-warn_if (not (is_some (truthy (private_key env))))
        (if is_production env then private_key_missing else private_key_missing_dev) f

  nil-verifier_address : is_nil (check_verifier_address env f).errors ≡ (
      is_nil f.errors
      && not (
          not (is_effectively_unset (verifier_address env))
          && not (is_valid_ethereum_address (get_or (verifier_address env) ""))))
  unfolding check_verifier_address
  nil-verifier_address = ground (
    arith,
    nil-error_if (not (is_valid_ethereum_address (get_or (verifier_address env) "")))
        verifier_address_invalid f,
  )

  nil-stripe : is_nil (check_stripe env f).errors ≡ (
      is_nil f.errors
      && not (
          (is_set env "STRIPE_SECRET_KEY" && not (is_set env "STRIPE_WEBHOOK_SECRET"))
          && is_production env))
  unfolding check_stripe
  nil-stripe =
      nil-error_if
        ((is_set env "STRIPE_SECRET_KEY" && not (is_set env "STRIPE_WEBHOOK_SECRET"))
          && is_production env)
        stripe_webhook_secret_missing
        (warn_if (not (is_set env "STRIPE_SECRET_KEY")) stripe_key_missing f)
      ∙ ap
          (λ b.
            b
            && not (
                (is_set env "STRIPE_SECRET_KEY" && not (is_set env "STRIPE_WEBHOOK_SECRET"))
                && is_production env))
          (nil-warn_if (not (is_set env "STRIPE_SECRET_KEY")) stripe_key_missing f)

  nil-optional : is_nil (check_optional env f).errors ≡ is_nil f.errors
  unfolding check_optional
  nil-optional = rw (nil-warn_if, nil-warn_if, nil-warn_if, nil-warn_if) refl

  nil-pay_to : is_nil (check_pay_to env f).errors ≡ (
      is_nil f.errors
      && not (
          not (equals env "X402_ENABLED" "false")
          && (not (pay_to env == "") && not (is_classic_address (pay_to env)))))
  unfolding check_pay_to
  nil-pay_to = ground (arith, nil-error_if (not (is_classic_address (pay_to env))) pay_to_invalid f)

flip :
    (b c : Bool)
    → ◌≡◌ {A = Startup} (if not (not b) && c then exits else runs) (if b && c then exits else runs)
flip true c = refl
flip false c = refl

-- No flaw, one by one or all at once.
none_of :
    (a b c d e : Bool)
    → (((((true && not a) && not b) && not c) && not d) && not e)
      ≡ not (a || (b || (c || (d || e))))
none_of true b c d e = refl
none_of false true c d e = refl
none_of false false true d e = refl
none_of false false false true e = refl
none_of false false false false e = refl

valid-lem : (env : Env) → is_nil (findings env).errors ≡ not (is_flawed env)
valid-lem env =
    let f0 : Findings = record { errors = []; warnings = [] } in
    let f1 = check_session_secret env f0 in
    let f2 = check_verifier_key env f1 in
    let f3 = check_network env f2 in
    let f4 = check_private_key env f3 in
    let f5 = check_verifier_address env f4 in
    let f6 = check_stripe env f5 in
    let f7 = check_optional env f6 in
    rw
      (
        nil-pay_to env f7,
        nil-optional env f6,
        nil-stripe env f5,
        nil-verifier_address env f4,
        nil-private_key env f3,
        nil-network env f2,
        nil-verifier_key env f1,
        nil-session_secret env f0,
      )
      (none_of _ _ _ _ _)

-- The environment is found valid exactly if none of the tests of the five errors is true, and the
-- server refuses to start exactly if one is and it is in production.
pub validate_env-eq-is_flawed :
    (env : Env)
    → ((validate_env env).valid ≡ not (is_flawed env))
      × (require_valid_env env ≡ (if is_flawed env && is_production env then exits else runs))
unfolding validate_env require_valid_env
validate_env-eq-is_flawed env =
    (valid-lem env, rw (valid-lem env) (flip (is_flawed env) (is_production env)))
