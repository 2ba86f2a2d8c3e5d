-- ===== src/Environment.antt =====
-- src/env-validation.ts: the check of the environment at the start. The texts of the messages are left
-- out: each is a constructor.
pub mod Production
pub mod Reads
pub mod Flaws
use Prim.Native.Char.{code}
use Prim.Native.String
use Prim.Native.String.{count, slice, len}
use text.Mathlib.Text.{starts_with}
use xrplink.Prelude.Text.{is_digit, all_chars}
use xrplink.Prelude.{
  ℕ, ◌+◌, ◌-◌, String, ◌++◌, ◌≡◌, refl, Bool, true, false, not, ◌&&◌, ◌||◌, Option, none, some,
  List, [], ◌∷◌, ◌==◌, leb, nat_eq, if◌then◌else◌, is_some, get_or, truthy, concat,
}

pub data EnvError : Type 0 where
  session_secret_default testnet_in_production verifier_address_invalid : EnvError
  stripe_webhook_secret_missing pay_to_invalid : EnvError

pub data EnvWarning : Type 0 where
  session_secret_dev verifier_key_public verifier_key_public_dev private_key_missing : EnvWarning
  private_key_missing_dev verifier_address_missing stripe_key_missing resend_key_missing :
      EnvWarning
  webhook_signing_missing admin_key_missing database_missing pay_to_missing : EnvWarning

pub record EnvValidationResult : Type 0 where
  pub valid : Bool
  pub errors : List EnvError
  pub warnings : List EnvWarning

-- `process.env`: a variable that is not set is missing.
abbrev pub Env : Type 0
Env = String → Option String

abbrev pub dev_session_secret : String
dev_session_secret = "dev-secret-change-in-prod"

abbrev pub public_verifier_api_key : String
public_verifier_api_key = "00000000-0000-0000-0000-000000000000"

-- `!!process.env[name]`
abbrev pub is_set : Env → String → Bool
is_set env name = is_some (truthy (env name))

-- `process.env[name] === value`
abbrev pub equals : Env → String → String → Bool
equals env name value = elim (env name) [ none ↦ false | some v ↦ v == value ]

abbrev is_hex : ℕ → Bool
is_hex c = is_digit c || ((leb b'a' c && leb c b'f') || (leb b'A' c && leb c b'F'))

-- `/^0x[0-9a-fA-F]{40}$/`
unfoldable pub is_valid_ethereum_address : String → Bool
is_valid_ethereum_address address =
    starts_with address "0x"
    && (nat_eq (count address) 42 && all_chars is_hex (slice address 2 (len address)))

unfoldable pub is_effectively_unset : Option String → Bool
is_effectively_unset value = elim (truthy value) [ none ↦ true | some v ↦ v == "undefined" ]

unfoldable pub is_production : Env → Bool
is_production env =
    equals env "NODE_ENV" "production" || (is_set env "FLY_APP_NAME" || is_set env "FLY_REGION")

-- `[1-9A-HJ-NP-Za-km-z]`
abbrev is_base58 : ℕ → Bool
is_base58 c =
    (leb b'1' c && leb c b'9')
    || ((leb b'A' c && leb c b'H')
        || ((leb b'J' c && leb c b'N')
            || ((leb b'P' c && leb c b'Z')
                || ((leb b'a' c && leb c b'k') || (leb b'm' c && leb c b'z')))))

unfoldable pub is_classic_address : String → Bool
is_classic_address s =
    starts_with s "r"
    && (leb 25 (count s) && (leb (count s) 35 && all_chars is_base58 (slice s 1 (len s))))

abbrev is_space : ℕ → Bool
is_space c = nat_eq c 32 || (leb 9 c && leb c 13)

trim_start : String → String
trim_start String.[] = ""
trim_start (String.◌∷◌ c s) =
    let rest = trim_start s in if is_space (code c) then rest else String.◌∷◌ c s

add_unless_space : ℕ → String → String → String
add_unless_space c s rest = if rest == "" && is_space c then "" else s ++ rest

trim_end : String → String
unfolding add_unless_space
trim_end String.[] = ""
trim_end (String.◌∷◌ c s) = add_unless_space (code c) (String.◌∷◌ c "") (trim_end s)

-- `s.trim()`, for the white space of ASCII.
unfoldable pub trim : String → String
unfolding trim_start trim_end
trim s = trim_end (trim_start s)

abbrev pub network : Env → String
network env = get_or (truthy (env "FLARE_NETWORK")) "coston2"

-- `process.env[a] || process.env.b`
abbrev first_set : Env → String → String → Option String
first_set env a b = elim (truthy (env a)) [ some v ↦ some v | none ↦ env b ]

abbrev pub private_key : Env → Option String
private_key env =
    first_set env (if network env == "flare" then "PRIVATE_KEY_FLARE" else "PRIVATE_KEY_COSTON2")
      "PRIVATE_KEY"

abbrev pub verifier_address : Env → Option String
verifier_address env =
    first_set env
      (if network env == "flare"
        then "PAYMENT_VERIFIER_ADDRESS_FLARE"
        else "PAYMENT_VERIFIER_ADDRESS_COSTON2")
      "PAYMENT_VERIFIER_ADDRESS"

abbrev pub pay_to : Env → String
pay_to env = trim (get_or (env "X402_PAY_TO_ADDRESS") "")

-- The two lists that the checks push to.
pub record Findings : Type 0 where
  pub errors : List EnvError
  pub warnings : List EnvWarning

abbrev pub error_if : Bool → EnvError → Findings → Findings
error_if b e f = if b then record f { errors = concat f.errors (e ∷ []) } else f

abbrev pub warn_if : Bool → EnvWarning → Findings → Findings
warn_if b w f = if b then record f { warnings = concat f.warnings (w ∷ []) } else f

abbrev pub has_default_secret : Env → Bool
has_default_secret env =
    not (is_set env "SESSION_SECRET") || equals env "SESSION_SECRET" dev_session_secret

unfoldable pub check_session_secret : Env → Findings → Findings
check_session_secret env f =
    if has_default_secret env
    then (if is_production env
        then error_if true session_secret_default f
        else warn_if true session_secret_dev f)
    else f

unfoldable pub check_verifier_key : Env → Findings → Findings
check_verifier_key env f =
    if not (is_set env "VERIFIER_API_KEY") || equals env "VERIFIER_API_KEY" public_verifier_api_key
    then warn_if true (if is_production env then verifier_key_public else verifier_key_public_dev) f
    else f

unfoldable pub check_network : Env → Findings → Findings
check_network env f =
    error_if (equals env "NODE_ENV" "production" && not (network env == "flare"))
      testnet_in_production f

unfoldable pub check_private_key : Env → Findings → Findings
check_private_key env f =
    warn_if (not (is_some (truthy (private_key env))))
      (if is_production env then private_key_missing else private_key_missing_dev) f

unfoldable pub check_verifier_address : Env → Findings → Findings
check_verifier_address env f =
    if is_effectively_unset (verifier_address env)
    then warn_if true verifier_address_missing f
    else error_if (not (is_valid_ethereum_address (get_or (verifier_address env) "")))
        verifier_address_invalid f

unfoldable pub check_stripe : Env → Findings → Findings
check_stripe env f =
    error_if
      ((is_set env "STRIPE_SECRET_KEY" && not (is_set env "STRIPE_WEBHOOK_SECRET"))
        && is_production env)
      stripe_webhook_secret_missing
      (warn_if (not (is_set env "STRIPE_SECRET_KEY")) stripe_key_missing f)

unfoldable pub check_optional : Env → Findings → Findings
check_optional env f = warn_if (not (is_set env "DATABASE_URL")) database_missing (
    warn_if (is_effectively_unset (env "ADMIN_API_KEY")) admin_key_missing (
      warn_if (not (is_set env "WEBHOOK_SIGNING_SECRET") && is_production env)
        webhook_signing_missing (warn_if (not (is_set env "RESEND_API_KEY")) resend_key_missing f)))

unfoldable pub check_pay_to : Env → Findings → Findings
check_pay_to env f =
    if not (equals env "X402_ENABLED" "false")
    then (if pay_to env == ""
        then warn_if true pay_to_missing f
        else error_if (not (is_classic_address (pay_to env))) pay_to_invalid f)
    else f

abbrev pub is_nil : List EnvError → Bool
is_nil [] = true
is_nil (e ∷ es) = false

abbrev pub findings : Env → Findings
findings env = check_pay_to env (
    check_optional env (
      check_stripe env (
        check_verifier_address env (
          check_private_key env (
            check_network env (
              check_verifier_key env
                (check_session_secret env (record { errors = []; warnings = [] }))))))))

unfoldable pub validate_env : Env → EnvValidationResult
validate_env env = record {
  valid = is_nil (findings env).errors;
  errors = (findings env).errors;
  warnings = (findings env).warnings;
}

pub data Startup : Type 0 where
  runs exits : Startup

-- `process.exit(1)`, or the start goes on.
unfoldable pub require_valid_env : Env → Startup
unfolding validate_env
require_valid_env env = if not (validate_env env).valid && is_production env then exits else runs

trim_test : trim " rX\t" ≡ "rX"
unfolding trim
trim_test = refl
