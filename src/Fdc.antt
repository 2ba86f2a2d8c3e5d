-- ===== src/Fdc.antt =====
-- src/fdc-service.ts: the calls of the verifier, of FdcHub, of the data availability layer and of the
-- PaymentVerifier contract. What the services answer is a parameter; a failure is one of `Attest`.
pub mod Rounds
use xrplink.Store.{ProofResponse}
use xrplink.Attest.{Failure, Attempt, done, raised, plain}
use xrplink.Prelude.Text.Digits
use xrplink.Prelude.Text.{decimal_text}
use xrplink.Prelude.{
  ℕ, zero, suc, ◌+◌, ◌-◌, ◌*◌, ◌/◌, ◌%◌, ◌^◌, ◌≤◌, ◌<◌, min, max, String, ◌++◌, ◌≡◌, refl, sym, ap,
  ◌∙◌, ◌≢◌, ◌↔◌, ◌⊎◌, inl, inr, Bool, true, false, not, ◌&&◌, ◌||◌, Option, none, some, List, [],
  ◌∷◌, arith, ◌==◌, eq_iff, eq_refl, ltb, leb, nat_eq, if◌then◌else◌, ltb→lt, lt→ltb, Bool-cases,
  Option-cases, is_some, get_or, or_else, truthy, truthy_of_ne, length, take, drop, take_last, keep,
  find, any, length-append, All, concat, newest_first,
}

-- What `fetch` gives: an error, or a status with a body that is a text, and JSON unless it is `none`.
pub data Fetched {ℓ} (A : Type ℓ) : Type ℓ where
  unreachable : String → Fetched A
  replied : ℕ → String → Option A → Fetched A

abbrev pub is_ok_status : ℕ → Bool
is_ok_status status = leb 200 status && ltb status 300

abbrev malformed_json : Failure
malformed_json = plain "Unexpected token in JSON"

-- The fields of the verifier's answer that are read.
pub record Prepared : Type 0 where
  pub status : String
  pub abi_encoded_request : String

abbrev verifier_failed : ℕ → String → Failure
verifier_failed status text = record {
  message = "Verifier error (" ++ (decimal_text status ++ ("): " ++ text));
  verifier = some (some status);
}

abbrev non_valid_failure : String → Failure
non_valid_failure status = record {
  message = "Verifier returned non-VALID status: " ++ status;
  verifier = some none;
}

unfoldable pub prepare_request : Fetched Prepared → Attempt String
prepare_request (unreachable m) = raised (plain m)
prepare_request (replied status text body) =
    if not (is_ok_status status) then raised (verifier_failed status text) else elim body [
      | none ↦ raised malformed_json
      | some p ↦
          if p.status == "VALID"
          then done p.abi_encoded_request
          else raised (non_valid_failure p.status)
    ]

-- A voting round; one below zero is `before_first n`, for -(n + 1).
pub data Round : Type 0 where
  round : ℕ → Round
  before_first : ℕ → Round

-- `Math.floor((timestamp - start) / 90)`
unfoldable pub round_at : ℕ → ℕ → Round
round_at start timestamp =
    if leb start timestamp
    then round ((timestamp - start) / 90)
    else before_first ((start - timestamp - 1) / 90)

-- The contract's call: it throws, it is not mined, or it is in a block that the provider has, with its
-- timestamp, or has not.
pub data Mined : Type 0 where
  reverted : String → Mined
  not_mined : Mined
  mined : String → ℕ → Option ℕ → Mined

pub record Submitted : Type 0 where
  pub round_id : Round
  pub tx_hash : String
  pub block_number : ℕ

unfoldable pub submit_request : ℕ → Mined → Attempt Submitted
unfolding round_at
submit_request start (reverted m) = raised (plain m)
submit_request start not_mined = raised (plain "FdcHub transaction was not mined")
submit_request start (mined tx_hash block none) = raised (plain "FdcHub block not found")
submit_request start (mined tx_hash block (some timestamp)) =
    done (record { round_id = round_at start timestamp; tx_hash = tx_hash; block_number = block })

-- A status 400 tells that there is no proof yet.
unfoldable pub fetch_proof : Fetched ProofResponse → Attempt (Option ProofResponse)
fetch_proof (unreachable m) = raised (plain m)
fetch_proof (replied status text body) =
    if nat_eq status 400
    then done none
    else if not (is_ok_status status)
    then raised (plain ("DA Layer error (" ++ (decimal_text status ++ ("): " ++ text))))
    else elim body [ none ↦ raised malformed_json | some p ↦ done (some p) ]

-- `artifact` is the error of reading the contract's description, and `mine` what its call does.
unfoldable pub verify_proof_on_chain :
    String → Option String → (ProofResponse → Mined) → ProofResponse → Attempt String
verify_proof_on_chain address artifact mine proof =
    if address == ""
    then raised (plain "PAYMENT_VERIFIER_ADDRESS not configured")
    else elim artifact [
      | some m ↦ raised (plain m)
      | none ↦ elim (mine proof) [
        | reverted m ↦ raised (plain m)
        | not_mined ↦ raised (plain "PaymentVerifier transaction was not mined")
        | mined tx_hash block timestamp ↦ done tx_hash
      ]
    ]

-- A call that throws counts as not verified; reading the description throws, for which it is `none`.
unfoldable pub is_already_verified :
    String → Option String → (String → Option Bool) → String → Option Bool
is_already_verified address artifact processed tx_hash =
    if address == ""
    then some false
    else elim artifact [ some m ↦ none | none ↦ some (get_or (processed ("0x" ++ tx_hash)) false) ]
