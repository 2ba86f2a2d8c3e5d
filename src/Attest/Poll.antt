-- ===== src/Attest/Poll.antt =====
-- src/attest.ts: `pollForProof`, which waits for the proof of a submitted request.
pub mod Outcome
pub mod Loop
use xrplink.Prelude.{ℕ, zero, suc, max, String, Bool, not, Option, none, some, if◌then◌else◌}
use xrplink.Store.{
  ProofResponse, Write, Attestation, AttestationStatus, ready, verified, failed, not_found,
}
use xrplink.Store.Attestations.{Updates, no_updates, update_attestation}
use xrplink.Attest.{World, Failure, Attempt, done, raised, Flow, ◌>>=◌, pure, catching, on_store}

-- What the polling of one request meets: the answer of the data availability layer to each attempt,
-- the check on chain, the delivery of the webhooks, and the fate of each write of an attempt.
pub record Polling : Type 0 where
  pub now : ℕ
  pub fate : ℕ → Write
  pub has_verifier_contract : Bool
  pub fetch_proof : ℕ → Attempt (Option ProofResponse)
  pub verify_proof_on_chain : ProofResponse → Attempt String
  pub deliver_webhooks : Attempt (Unit {0})

-- How an attempt ends: with the polling over, or with another attempt wanted because there was no
-- proof, or because something threw.
pub data Ended : Type 0 where
  over no_proof : Ended

module _ (p : Polling) (id : String) where
  abbrev pub update_row : ℕ → Updates → Flow (Option Attestation)
  update_row attempt u = on_store (update_attestation (p.fate attempt) p.now id u)

  -- The check on chain, with its own `try`.
  unfoldable pub verify_stored : ℕ → ProofResponse → Flow (Unit {0})
  verify_stored attempt proof =
      catching
        ((λ w. (p.verify_proof_on_chain proof, w)) >>= λ tx.
          update_row attempt
            (record no_updates { verified_tx_hash = some tx; status = some verified })
          >>= λ _. pure tt)
        (λ e. update_row attempt (record no_updates { error = some e.message }) >>= λ _. pure tt)

  unfoldable pub store_proof : ℕ → ProofResponse → Flow (Unit {0})
  store_proof attempt proof =
      update_row attempt (record no_updates { proof = some proof; status = some ready }) >>= λ _.
      (if p.has_verifier_contract then verify_stored attempt proof else pure tt) >>= λ _.
      λ w. (p.deliver_webhooks, w)

  -- The `try` block without the recursive calls.
  unfoldable pub attempt_once : ℕ → Flow Ended
  attempt_once attempt w = elim (p.fetch_proof attempt) [
    | raised e ↦ (raised e, w)
    | done proof ↦ elim proof [
      | none ↦ (done no_proof, w)
      | some q ↦ (store_proof attempt q >>= λ _. pure over) w
    ]
  ]

  -- The `catch` block at the last attempt.
  unfoldable pub give_up : ℕ → String → Flow (Unit {0})
  give_up attempt message =
      update_row attempt (record no_updates { status = some failed; error = some message }) >>= λ _.
      pure tt

  -- The update for a missing proof stands in the `try`, so that its throw is caught as well.
  unfoldable pub set_not_found : ℕ → Flow (Unit {0})
  set_not_found attempt =
      catching
        (update_row attempt (record no_updates {
          status = some not_found;
          error = some "Proof not found after max poll attempts";
        })
          >>= λ _. pure tt)
        (λ e. give_up attempt e.message)

  -- After the last attempt.
  unfoldable pub ended_last : ℕ → Attempt Ended → Flow (Unit {0})
  ended_last attempt (done over) v = (done tt, v)
  ended_last attempt (done no_proof) v = set_not_found attempt v
  ended_last attempt (raised e) v = give_up attempt e.message v

  -- After an attempt that is not the last.
  unfoldable pub ended_early : Flow (Unit {0}) → Attempt Ended → Flow (Unit {0})
  ended_early again (done over) v = (done tt, v)
  ended_early again (done no_proof) v = again v
  ended_early again (raised e) v = again v

  -- `left` is how many attempts are left after this one, `maxPollAttempts - attempt`. The next attempt
  -- is returned and not awaited, so that what it throws is not caught here.
  unfoldable pub poll_for_proof : ℕ → ℕ → Flow (Unit {0})
  poll_for_proof zero attempt w = let (r, v) = attempt_once attempt w in ended_last attempt r v
  poll_for_proof (suc left) attempt w =
      let again = poll_for_proof left (suc attempt) in
      let (r, v) = attempt_once attempt w in ended_early again r v
