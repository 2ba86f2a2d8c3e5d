-- ===== src/X402/Payment/Keeps.antt =====
-- src/x402-service.ts: a rule for what holds after a payment run.
use xrplink.Prelude.{
  ℕ, String, ◌≡◌, refl, inl, inr, Bool, true, false, Option, none, some, ◌==◌, Bool-cases,
  Option-cases, any,
}
use xrplink.Dict
use xrplink.Store.{Outcome, returned}
use xrplink.X402.{
  Requirements, StoredQuote, PaymentStatus, quoted, settled, fdc_ok, fdc_failed, PaymentRecord,
  Payload, FacilitatorCall, State, SettleReply, Config, Outside, pruned,
}
use xrplink.X402.Quotes.{get_quote, match_accept}
use xrplink.X402.Settlement.{confirm_settlement_on_ledger}
use xrplink.X402.Payment.{
  Run, send, commit_settlement, settle_payment, verify_payment, pay_quote, charge, by_status,
  process_x402_payment_locked,
}
use xrplink.X402.Facilitator.{settled_now, ProcessResult, verify_error, settle_error}

abbrev pub is_settled_now : Outcome ProcessResult → Bool
is_settled_now (returned (settled_now id response paid)) = true
is_settled_now _ = false

module _ (o : Outside) (cfg : Config) (run : Run) (invoice_id : String) (P : State → Type 0)
    (Q : Outcome ProcessResult × State → Type 0)
    (stays : (r : Outcome ProcessResult) (s : State) → is_settled_now r ≡ false → P s → Q (r, s))
    (sends : (c : FacilitatorCall) (s : State) → P s → P (send o cfg run c s))
    (prunes : (now : ℕ) (s : State) → P s → P (pruned cfg now s))
    (commits : (fp expected : String) (reply : SettleReply) (q : Requirements) (quote : StoredQuote)
        (rec : Option PaymentRecord) (s : State)
      → P s
      → Q (commit_settlement o cfg run fp expected invoice_id reply q quote rec s)) where
  module _ (fp expected : String) (payload : Payload) (rec : Option PaymentRecord) where
    settle-keeps :
        (q : Requirements) (quote : StoredQuote) (s : State)
        → P s
        → Q (settle_payment o cfg run fp expected payload invoice_id q quote rec s)
    unfolding settle_payment
    settle-keeps q quote s h = elim (Option-cases (o.settle payload q)) [
      | inl e ↦ rw (e, settle_payment) (stays _ _ refl (sends _ s h))
      | inr (reply, e) ↦
          rw (e, settle_payment)
            (elim (Option-cases (settle_error reply)) [
              | inr (error, f) ↦ rw f (stays _ _ refl (sends _ s h))
              | inl f ↦
                  rw f
                    (elim (Option-cases
                      (confirm_settlement_on_ledger o reply.transaction q invoice_id)) [
                        | inr (error, g) ↦ rw g (stays _ _ refl (sends _ s h))
                        | inl g ↦ rw g (commits fp expected reply q quote rec _ (sends _ s h))
                      ])
            ])
    ]

    verify-keeps :
        (q : Requirements) (quote : StoredQuote) (s : State)
        → P s
        → Q (verify_payment o cfg run fp expected payload invoice_id q quote rec s)
    unfolding verify_payment
    verify-keeps q quote s h = elim (Option-cases (o.verify payload q)) [
      | inl e ↦ rw (e, verify_payment) (stays _ _ refl (sends _ s h))
      | inr (reply, e) ↦
          rw (e, verify_payment)
            (elim (Option-cases (verify_error reply)) [
              | inr (error, f) ↦ rw f (stays _ _ refl (sends _ s h))
              | inl f ↦ rw f (settle-keeps q quote _ (sends _ s h))
            ])
    ]

    pay_quote-keeps :
        (quote : StoredQuote) (s : State)
        → P s
        → Q (pay_quote o cfg run fp expected payload invoice_id rec quote s)
    unfolding pay_quote
    pay_quote-keeps quote s h = elim (Bool-cases (quote.tx_hash == expected)) [
      | inr elsewhere ↦ rw (elsewhere, pay_quote) (stays _ _ refl h)
      | inl bound ↦
          rw (bound, pay_quote)
            (elim (Option-cases (match_accept payload quote.accepts)) [
              | inl f ↦ rw f (stays _ _ refl h)
              | inr (q, f) ↦ rw f (verify-keeps q quote s h)
            ])
    ]

  charge-keeps :
      (signature expected : String) (payload : Payload) (rec : Option PaymentRecord) (s : State)
      → P s
      → Q (charge o cfg run signature expected payload invoice_id rec s)
  unfolding charge get_quote
  charge-keeps signature expected payload rec s h =
      let fp = o.payload_fingerprint signature in
      elim (Bool-cases (any (λ h. h == fp) s.used_payload_hashes)) [
        | inl used ↦ rw (used, charge) (stays _ _ refl h)
        | inr fresh ↦
            rw (fresh, charge)
              (elim (Option-cases (get_quote cfg invoice_id run.now s).0) [
                | inl e ↦ rw e (stays _ _ refl (prunes run.now s h))
                | inr (quote, e) ↦
                    rw e (pay_quote-keeps fp expected payload rec quote _ (prunes run.now s h))
              ])
      ]

  by_status-keeps :
      (status : PaymentStatus) (signature expected : String) (payload : Payload)
      (rec : PaymentRecord) (s : State)
      → P s
      → Q (by_status o cfg run status signature expected payload invoice_id rec s)
  unfolding by_status
  by_status-keeps quoted signature expected payload rec s h =
      charge-keeps signature expected payload (some rec) s h
  by_status-keeps settled signature expected payload rec s h = stays _ _ refl h
  by_status-keeps fdc_ok signature expected payload rec s h = stays _ _ refl h
  by_status-keeps fdc_failed signature expected payload rec s h = stays _ _ refl h

  -- `Q` holds of the result and state if every way out that settles nothing gives it from `P`, and
  -- the commit does, where sending and pruning keep `P`.
  pub process_locked-keeps :
      (signature expected : String) (payload : Payload) (s : State)
      → P s
      → Q (process_x402_payment_locked o cfg run signature expected payload invoice_id s)
  unfolding process_x402_payment_locked
  process_locked-keeps signature expected payload s h =
      elim (Option-cases (Dict.get s.payments invoice_id)) [
        | inl e ↦
            rw (e, process_x402_payment_locked) (charge-keeps signature expected payload none s h)
        | inr (rec, e) ↦
            rw (e, process_x402_payment_locked)
              (elim (Bool-cases (rec.tx_hash == expected)) [
                | inr elsewhere ↦ rw elsewhere (stays _ _ refl h)
                | inl bound ↦
                    rw bound (by_status-keeps rec.status signature expected payload rec s h)
              ])
      ]
