-- ===== src/Attest/Poll/Loop.antt =====
-- src/attest.ts: what the polling comes to, over all its attempts.
use xrplink.Prelude.{
  zero, suc, sym, refl, ℕ, zero, suc, String, ◌≡◌, refl, sym, inl, inr, Option, none, some,
}
use xrplink.Store.{ProofResponse, written, Attestation}
use mathlib.Core.Path.{subst}
use xrplink.Attest.{Failure, World, Attempt, done, raised}
use xrplink.Attest.Poll.{
  ended_last, ended_early, Polling, Ended, no_proof, attempt_once, store_proof, poll_for_proof,
}
use xrplink.Attest.Poll.Outcome.{
  first_proof, Attempt-cases, row, Leaves, stored_one, attempt_stores, last_none, last_raised,
}

module _ (p : Polling) (id : String) where
  -- An attempt without a proof leaves the world as it is.
  attempt_none :
      (n : ℕ) (w : World) → p.fetch_proof n ≡ done none → attempt_once p id n w ≡ (done no_proof, w)
  unfolding attempt_once
  attempt_none n w f = rw (f, attempt_once) refl

  attempt_raised :
      (n : ℕ) (w : World) (x : Failure)
      → p.fetch_proof n ≡ raised x
      → attempt_once p id n w ≡ (raised x, w)
  unfolding attempt_once
  attempt_raised n w x f = rw (f, attempt_once) refl

  module _ (works : (n : ℕ) → p.fate n ≡ written) where
    at_last :
        (q : Option ProofResponse) (n : ℕ) (w : World) (x : Attempt Ended × World)
        → attempt_once p id n w ≡ x
        → Leaves p id works q (ended_last p id n x.0 x.1)
        → Leaves p id works q (poll_for_proof p id zero n w)
    unfolding poll_for_proof
    at_last q n w x e l = subst (λ y. Leaves p id works q (ended_last p id n y.0 y.1)) (sym e) l

    at_early :
        (q : Option ProofResponse) (left n : ℕ) (w : World) (x : Attempt Ended × World)
        → attempt_once p id n w ≡ x
        → Leaves p id works q (ended_early p id (poll_for_proof p id left (suc n)) x.0 x.1)
        → Leaves p id works q (poll_for_proof p id (suc left) n w)
    unfolding poll_for_proof
    at_early q left n w x e l =
        subst
          (λ y. Leaves p id works q (ended_early p id (poll_for_proof p id left (suc n)) y.0 y.1))
          (sym e) l

    -- The proof is stored, and the polling is over.
    stored :
        (delivered : p.deliver_webhooks ≡ done tt) (n : ℕ) (q : ProofResponse) (a : Attestation)
        (w : World)
        → row p id works w ≡ some a
        → Leaves p id works (some q) (done tt, (store_proof p id n q w).1)
    stored delivered n q a w e =
        let l = stored_one p id works delivered n q a w e in
        record { ended = refl; attestation = l.attestation; stored = l.stored; settled = l.settled }

  -- If the writes and the delivery of the webhooks work: the polling of a stored attestation ends, after
  -- at most `left + 1` attempts, and without a throw. If one of these attempts gets a proof, the row
  -- has the proof of the first that does, and is ready or verified, whatever the check on chain does;
  -- otherwise the row is failed or not found.
  pub poll_for_proof-Leaves :
      (left attempt : ℕ) (a : Attestation) (w : World)
      → (works : (n : ℕ) → p.fate n ≡ written) → p.deliver_webhooks ≡ done tt
      → row p id works w ≡ some a
      → Leaves p id works
          (first_proof p.fetch_proof left attempt)
          (poll_for_proof p id left attempt w)
  unfolding poll_for_proof first_proof ended_last ended_early
  poll_for_proof-Leaves zero n a w works delivered e = elim (Attempt-cases (p.fetch_proof n)) [
    | inr (x, f) ↦
        rw (f, first_proof)
          (at_last works none n w _ (attempt_raised n w x f)
            (last_raised p id works delivered n x.message a w e))
    | inl (none, f) ↦
        rw (f, first_proof)
          (at_last works none n w _ (attempt_none n w f) (last_none p id works delivered n a w e))
    | inl (some q, f) ↦
        rw (f, first_proof)
          (at_last works (some q) n w _ (attempt_stores p id works delivered n q a w e f)
            (stored works delivered n q a w e))
  ]
  poll_for_proof-Leaves (suc left) n a w works delivered e =
      elim (Attempt-cases (p.fetch_proof n)) [
        | inr (x, f) ↦
            rw (f, first_proof)
              (at_early works _ left n w _ (attempt_raised n w x f)
                (poll_for_proof-Leaves left (suc n) a w works delivered e))
        | inl (none, f) ↦
            rw (f, first_proof)
              (at_early works _ left n w _ (attempt_none n w f)
                (poll_for_proof-Leaves left (suc n) a w works delivered e))
        | inl (some q, f) ↦
            rw (f, first_proof)
              (at_early works (some q) left n w _ (attempt_stores p id works delivered n q a w e f)
                (stored works delivered n q a w e))
      ]
