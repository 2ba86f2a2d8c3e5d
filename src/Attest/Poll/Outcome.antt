-- ===== src/Attest/Poll/Outcome.antt =====
-- src/attest.ts: where the polling leaves the attestation.
use xrplink.Prelude.{
  ◌⊎◌, inl, inr, Bool-cases, ℕ, zero, suc, String, ◌≡◌, refl, sym, ap, ◌∙◌, ◌⊎◌, inl, inr, Option,
  none, some, arith, eq_refl, if◌then◌else◌, Bool-cases, or_else,
}
use xrplink.Dict
use xrplink.Dict.{get-set}
use xrplink.Store.{
  PersistedData, data_in_memory-commit, ProofResponse, Write, written, broken, Store, Attestation,
  ready, verified, failed, not_found, commit, returned,
}
use xrplink.Store.Attestations.{Updates, no_updates, update_attestation, with_updates}
use xrplink.Attest.{World, Failure, Attempt, done, raised, Flow, ◌>>=◌, pure, on_store}
use mathlib.Core.Path.{subst}
use xrplink.Attest.Effects.{bind-done, bind-raised, catching-done, catching-raised}
use xrplink.Attest.Poll.{
  Polling, over, update_row, verify_stored, store_proof, attempt_once, give_up, set_not_found,
}

-- The proof of the first attempt that gets one, of `left + 1` attempts.
unfoldable pub first_proof : (ℕ → Attempt (Option ProofResponse)) → ℕ → ℕ → Option ProofResponse
first_proof fetch zero attempt = elim (fetch attempt) [ done q ↦ q | raised e ↦ none ]
first_proof fetch (suc left) attempt =
    let rest = first_proof fetch left (suc attempt) in
    elim (fetch attempt) [ raised e ↦ rest | done q ↦ or_else q rest ]

commit_written :
    {A : Type 0} (w : Write) (d : PersistedData) (a : A) (s : Store)
    → w ≡ written
    → (commit w d a s).0 ≡ returned a
unfolding commit
commit_written written d a s e = refl
commit_written (broken n m) d a s e = cc

module _ (now : ℕ) (id : String) (u : Updates) (x : Write) (a : Attestation) (s : Store)
    (found : Dict.get s.attestations id ≡ some a) where
  update_result :
      x ≡ written → (update_attestation x now id u s).0 ≡ returned (some (with_updates u now a))
  unfolding update_attestation
  update_result e = rw (found, update_attestation) (commit_written x _ _ s e)

  update_stored :
      Dict.get (update_attestation x now id u s).1.attestations id ≡ some (with_updates u now a)
  unfolding update_attestation
  update_stored =
      rw (found, update_attestation)
        (ap (λ d. Dict.get d.attestations id) (data_in_memory-commit x _ _ s)
          ∙ (ground (arith, get-set s.attestations id id (with_updates u now a), eq_refl id)))

pub Attempt-cases :
    {A : Type 0} (r : Attempt A) → ((a : A) × (r ≡ done a)) ⊎ ((e : Failure) × (r ≡ raised e))
Attempt-cases (done a) = inl (a, refl)
Attempt-cases (raised e) = inr (e, refl)

module _ (p : Polling) (id : String) (works : (n : ℕ) → p.fate n ≡ written) where
  abbrev pub row : World → Option Attestation
  row w = Dict.get w.store.attestations id

  abbrev after : ℕ → Updates → World → World
  after n u w = (update_row p id n u w).1

  -- A write that works puts the updated row in place.
  updated :
      (n : ℕ) (u : Updates) (a : Attestation) (w : World)
      → row w ≡ some a
      → (update_row p id n u w ≡ (done (some (with_updates u p.now a)), after n u w))
        × (row (after n u w) ≡ some (with_updates u p.now a))
  unfolding on_store
  updated n u a w e = (
    rw (update_result p.now id u (p.fate n) a w.store e (works n), on_store) refl,
    update_stored p.now id u (p.fate n) a w.store e,
  )

  -- The update and nothing else.
  updates_only :
      (n : ℕ) (u : Updates) (a : Attestation) (w : World)
      → row w ≡ some a
      → (update_row p id n u >>= λ _. pure (tt {0})) w ≡ (done (tt {0}), after n u w)
  updates_only n u a w e =
      bind-done (update_row p id n u) (λ _. pure tt) w (after n u w) _ (updated n u a w e).0

  -- What the row says of the proof of the first attempt that gets one.
  abbrev pub Settled : Option ProofResponse → Attestation → Type 0
  Settled none a = (a.status ≡ failed) ⊎ (a.status ≡ not_found)
  Settled (some q) a = (a.proof ≡ some q) × ((a.status ≡ ready) ⊎ (a.status ≡ verified))

  -- The piece has ended without a throw, with a row that is settled.
  pub record Leaves (q : Option ProofResponse) (x : Attempt (Unit {0}) × World) : Type 0 where
    pub ended : x.0 ≡ done tt
    pub attestation : Attestation
    pub stored : row x.1 ≡ some attestation
    pub settled : Settled q attestation

  leaves_update :
      (q : Option ProofResponse) (n : ℕ) (u : Updates) (a : Attestation) (w : World)
      → row w ≡ some a
      → Settled q (with_updates u p.now a)
      → Leaves q (done tt, after n u w)
  leaves_update q n u a w e s = record {
    ended = refl;
    attestation = with_updates u p.now a;
    stored = (updated n u a w e).1;
    settled = s;
  }

  verified_stored :
      (n : ℕ) (q : ProofResponse) (a : Attestation) (w : World)
      → row w ≡ some a
      → a.proof ≡ some q
      → a.status ≡ ready
      → Leaves (some q) (verify_stored p id n q w)
  unfolding verify_stored with_updates
  verified_stored n q a w e has is_ready = elim (Attempt-cases (p.verify_proof_on_chain q)) [
    | inl (tx, f) ↦
        let u = record no_updates { verified_tx_hash = some tx; status = some verified } in
        subst (Leaves (some q))
          (sym (
            catching-done _ _ w (after n u w) tt
              (bind-done _ _ w w tx (ap (λ r. (r, w)) f) ∙ updates_only n u a w e)))
          (leaves_update (some q) n u a w e (has, inr refl))
    | inr (failure, f) ↦
        let u = record no_updates { error = some failure.message } in
        subst (Leaves (some q))
          (sym (
            catching-raised _ _ w w failure (bind-raised _ _ w w failure (ap (λ r. (r, w)) f))
            ∙ updates_only n u a w e))
          (leaves_update (some q) n u a w e (has, inl is_ready))
  ]

  module _ (delivered : p.deliver_webhooks ≡ done tt) where
    then_deliver :
        (q : Option ProofResponse) (mid : Flow (Unit {0})) (v : World)
        → Leaves q (mid v)
        → Leaves q ((mid >>= λ _ z. (p.deliver_webhooks, z)) v)
    then_deliver q mid v l =
        subst (Leaves q)
          (sym (
            bind-done mid _ v (mid v).1 tt (ap (λ r. (r, (mid v).1)) l.ended)
            ∙ ap (λ r. (r, (mid v).1)) delivered))
          (record {
            ended = refl;
            attestation = l.attestation;
            stored = l.stored;
            settled = l.settled;
          })

    checked :
        (n : ℕ) (q : ProofResponse) (a : Attestation) (w : World)
        → row w ≡ some a
        → a.proof ≡ some q
        → a.status ≡ ready
        → Leaves (some q) ((if p.has_verifier_contract then verify_stored p id n q else pure tt) w)
    checked n q a w e has is_ready = elim (Bool-cases p.has_verifier_contract) [
      | inl f ↦
          subst (λ b. Leaves (some q) ((if b then verify_stored p id n q else pure tt) w)) (sym f)
            (verified_stored n q a w e has is_ready)
      | inr f ↦
          subst (λ b. Leaves (some q) ((if b then verify_stored p id n q else pure tt) w)) (sym f)
            (record { ended = refl; attestation = a; stored = e; settled = (has, inl is_ready) })
    ]

    pub stored_one :
        (n : ℕ) (q : ProofResponse) (a : Attestation) (w : World)
        → row w ≡ some a
        → Leaves (some q) (store_proof p id n q w)
    unfolding store_proof with_updates
    stored_one n q a w e =
        let u = record no_updates { proof = some q; status = some ready } in
        let (x, y) = updated n u a w e in
        subst (Leaves (some q)) (sym (bind-done _ _ w (after n u w) _ x)) (
          then_deliver (some q) _ (after n u w)
            (checked n q (with_updates u p.now a) (after n u w) y refl refl))

    pub attempt_stores :
        (n : ℕ) (q : ProofResponse) (a : Attestation) (w : World)
        → row w ≡ some a
        → p.fetch_proof n ≡ done (some q)
        → attempt_once p id n w ≡ (done over, (store_proof p id n q w).1)
    unfolding attempt_once
    attempt_stores n q a w e f =
        let l = stored_one n q a w e in
        rw (f, attempt_once)
          (bind-done (store_proof p id n q) _ w (store_proof p id n q w).1 tt
            (ap (λ r. (r, (store_proof p id n q w).1)) l.ended))

    -- The last attempt had no proof, or threw.
    pub last_none :
        (n : ℕ) (a : Attestation) (w : World)
        → row w ≡ some a
        → Leaves none (set_not_found p id n w)
    unfolding set_not_found with_updates
    last_none n a w e =
        subst (Leaves none) (sym (catching-done _ _ w (after n _ w) tt (updates_only n _ a w e)))
          (leaves_update none n _ a w e (inr refl))

    pub last_raised :
        (n : ℕ) (message : String) (a : Attestation) (w : World)
        → row w ≡ some a
        → Leaves none (give_up p id n message w)
    unfolding give_up with_updates
    last_raised n message a w e =
        subst (Leaves none) (sym (updates_only n _ a w e)) (leaves_update none n _ a w e (inl refl))
