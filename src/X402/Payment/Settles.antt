-- ===== src/X402/Payment/Settles.antt =====
-- src/x402-service.ts: a payment that settles is on record, in memory and in the state file, and stays
-- the only settlement of its invoice.
use xrplink.Prelude.{
  ℕ, suc, String, ◌≡◌, refl, ap, ◌∙◌, inl, inr, true, Option, none, some, List, [], ◌∷◌, arith,
  eq_refl, Option-cases, All,
}
use xrplink.Dict
use xrplink.Dict.{get-set}
use xrplink.Store.{returned}
use xrplink.X402.{
  Requirements, StoredQuote, PaymentRecord, Payload, State, Save, saved, save_failed, SettleReply,
  Config, Outside, persist_unlocked,
}
use xrplink.X402.Payment.{Run, settled_memory, commit_settlement, process_x402_payment_locked}
use xrplink.X402.Facilitator.{SettlementResponse, settled_now, settled_record, settled_event}
use xrplink.X402.Payment.Keeps.{is_settled_now, process_locked-keeps}
use xrplink.X402.Payment.Once.{is_paid, paid_record}
use xrplink.X402.Payment.History.{
  Save-cases, settlements_of, settlements_of-append, own, IsPaid, Event, IsFresh, history,
  history-IsPaid,
}

module _ (cfg : Config) (now : ℕ) where
  disk-persist :
      (fate : Save) (s : State)
      → (persist_unlocked cfg now fate s).0 ≡ none
      → (persist_unlocked cfg now fate s).1.disk ≡ (persist_unlocked cfg now fate s).1.memory
  unfolding persist_unlocked
  disk-persist saved s h = refl
  disk-persist (save_failed m) s h = cc

  pub payments-persist :
      (fate : Save) (s : State) → (persist_unlocked cfg now fate s).1.payments ≡ s.payments
  unfolding persist_unlocked
  payments-persist saved s = refl
  payments-persist (save_failed m) s = refl

  ledger-persist : (fate : Save) (s : State) → (persist_unlocked cfg now fate s).1.ledger ≡ s.ledger
  unfolding persist_unlocked
  ledger-persist saved s = refl
  ledger-persist (save_failed m) s = refl

module _ (o : Outside) (cfg : Config) (run : Run) (id : String) (n : ℕ) where
  commit-settles :
      (fp expected : String) (reply : SettleReply) (q : Requirements) (quote : StoredQuote)
      (rec : Option PaymentRecord) (s : State)
      → settlements_of id s.ledger ≡ n
      → is_settled_now (commit_settlement o cfg run fp expected id reply q quote rec s).0 ≡ true
      → IsPaid id (suc n) (commit_settlement o cfg run fp expected id reply q quote rec s).1
  unfolding commit_settlement
  commit-settles fp expected reply q quote rec s h =
      let paid = settled_memory o cfg run fp expected id reply q rec s in
      let t = persist_unlocked cfg run.later run.save paid in
      elim (Option-cases t.0) [
        | inr (m, e) ↦ rw (e, commit_settlement) (λ k. cc)
        | inl e ↦ elim (Save-cases run.ledger_save) [
          | inr (m, f) ↦ rw (e, f, commit_settlement) (λ k. cc)
          | inl f ↦
              rw (e, f, commit_settlement)
                λ _.
                  let r = settled_record id expected reply q rec run.later in
                  let here : Dict.get (Dict.set s.payments id r) id ≡ some r =
                    ground (arith, get-set s.payments id id r, eq_refl id) in
                  let row : Dict.get t.1.payments id ≡ some r =
                    ap (λ p. Dict.get p id) (payments-persist cfg run.later run.save paid) ∙ here in
                  record {
                    in_memory = ap paid_record row;
                    on_disk =
                        ap (is_paid id) (disk-persist cfg run.later run.save paid e)
                        ∙ ap paid_record row;
                    counted =
                        settlements_of-append id t.1.ledger
                          (settled_event o id run.later q quote.price reply ∷ [])
                        ∙ omega (
                          arith,
                          own id (settled_event o id run.later q quote.price reply) refl,
                          ap (settlements_of id) (ledger-persist cfg run.later run.save paid),
                          h,
                        );
                  }
        ]
      ]

-- Once a payment is reported as settled, the ledger file has one settlement of the invoice more, and
-- after any history of requests with whatever signatures, quotes for other invoices, marks and
-- restarts that can read the state file, with whatever file writes that fail, it has no further one,
-- and the invoice still counts as paid in memory and on disk.
pub process_x402_payment_locked-once :
    (o : Outside) (cfg : Config) (run : Run) (signature expected : String) (payload : Payload)
    (id : String) (s : State) (response : SettlementResponse) (paid : Requirements)
    (events : List Event)
    → (process_x402_payment_locked o cfg run signature expected payload id s).0
      ≡ returned (settled_now id response paid)
    → All (IsFresh id) events
    → IsPaid id (suc (settlements_of id s.ledger)) (
        history o cfg events
          (process_x402_payment_locked o cfg run signature expected payload id s).1)
process_x402_payment_locked-once o cfg run signature expected payload id s response paid events h
      fresh =
    let n = settlements_of id s.ledger in
    history-IsPaid o cfg id (suc n) events _ fresh (
      process_locked-keeps o cfg run id (λ t. settlements_of id t.ledger ≡ n)
        (λ r. is_settled_now r.0 ≡ true → IsPaid id (suc n) r.1) (λ r t unsettled k e. cc)
        (λ c t k. k) (λ now t k. k) (commit-settles o cfg run id n) signature expected payload s
        refl (rw h))
