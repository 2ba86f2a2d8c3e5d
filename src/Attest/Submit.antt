-- ===== src/Attest/Submit.antt =====
-- src/attest.ts: submitting a request to the Flare data connector, and what a failure there answers.
use xrplink.Prelude.{String, Bool, false, ◌||◌, Option, none, some, leb, if◌then◌else◌, is_some}
use text.Mathlib.Text.{starts_with}
use Prim.Native.String
use Prim.Native.String.{len}
use xrplink.Store.{Attestation, pending, failed}
use xrplink.Store.Attestations.{Updates, no_updates, create_attestation, update_attestation}
use xrplink.X402.Marks.{mark_payment_fdc_ok, mark_payment_fdc_failed}
use xrplink.Attest.{
  Failure, Attempt, raised, plain, Site, create, encoded, round, failing, Env, verifier_error,
  submit_failed, AttestResult, ok, error, Flow, ◌>>=◌, pure, catching, on_store, on_x402,
}

-- `s.includes(t)`
abbrev includes : String → String → Bool
includes s t = leb (String.find s t) (len s)

-- `mapSubmitError`
unfoldable pub map_submit_error : Failure → Option String → AttestResult
map_submit_error e invoice =
    if is_some e.verifier
      || (starts_with e.message "Verifier " || includes e.message "Verifier returned non-VALID")
    then error
        (elim e.verifier [
          | none ↦ 400
          | some http ↦ elim http [ none ↦ 400 | some n ↦ if leb 500 n then 502 else 400 ]
        ])
        (verifier_error e.message invoice)
    else error 500 (submit_failed e.message invoice)

module _ (env : Env) where
  abbrev pub update_at : Site → String → Updates → Flow (Option Attestation)
  update_at site id u = on_store (update_attestation (env.fate site) env.now id u)

  -- `if (x402InvoiceId) await markPayment…(x402InvoiceId)`
  abbrev pub mark_ok : Option String → Flow (Unit {0})
  mark_ok none = pure tt
  mark_ok (some id) = on_x402 (mark_payment_fdc_ok env.x402_config id env.now env.mark_fate)

  abbrev pub mark_failed : Option String → Flow (Unit {0})
  mark_failed none = pure tt
  mark_failed (some id) = on_x402 (mark_payment_fdc_failed env.x402_config id env.now env.mark_fate)

  abbrev attempt {ℓ} : {A : Type ℓ} → Attempt A → Flow A
  attempt r w = (r, w)

  -- The `try` block, for the row that the request stands under.
  unfoldable pub submit_row : String → Option String → Attestation → Flow AttestResult
  submit_row clean_hash invoice a = attempt (env.prepare_request clean_hash) >>= λ abi_encoded.
      update_at encoded a.id (record no_updates { abi_encoded_request = some abi_encoded }) >>= λ _.
      attempt (env.submit_request abi_encoded) >>= λ round_id.
      update_at round a.id (record no_updates { round_id = some round_id; status = some pending })
      >>= λ _. mark_ok invoice >>= λ _. pure (
          ok (record {
            http_status = 202;
            id = a.id;
            tx_hash = clean_hash;
            round_id = some round_id;
            status = pending;
            cached = false;
            x402 = is_some invoice;
            payment_response = none;
          }))

  -- The `catch` block.
  unfoldable pub submit_failure : Option String → Attestation → Failure → Flow AttestResult
  submit_failure invoice a e =
      update_at failing a.id (record no_updates { status = some failed; error = some e.message })
      >>= λ _. mark_failed invoice >>= λ _. pure (map_submit_error e invoice)

  -- A row that the index names and that is not there makes the `catch` block throw too.
  unfoldable pub submit_found : String → Option String → Option Attestation → Flow AttestResult
  submit_found clean_hash invoice none w = (raised (plain "Cannot read properties of undefined"), w)
  submit_found clean_hash invoice (some a) w =
      catching (submit_row clean_hash invoice a) (submit_failure invoice a) w

  -- `submitToFdc`. The polling that is started here goes on beside the request.
  unfoldable pub submit_to_fdc : String → Option String → Option String → Flow AttestResult
  submit_to_fdc clean_hash invoice owner_key_id =
      on_store
        (create_attestation (env.fate create) env.now env.attestation_id clean_hash owner_key_id)
      >>= submit_found clean_hash invoice
