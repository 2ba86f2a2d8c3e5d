-- ===== src/X402/Payment/Charged.antt =====
-- src/x402-service.ts: what a payment that settles has gone through.
use xrplink.Prelude.{
  String, ◌≡◌, refl, inl, inr, Bool, false, Option, none, some, arith, ◌==◌, eq_iff, Bool-cases,
  Option-cases, any,
}
use xrplink.Store.{returned}
use mathlib.Core.Path.{subst}
use xrplink.Dict
use xrplink.X402.Quotes.{get_quote, match_accept}
use xrplink.X402.{
  PaymentStatus, quoted, settled, fdc_ok, fdc_failed, persist_unlocked, StoredQuote, Requirements,
  PaymentRecord, Payload, State, VerifyReply, SettleReply, Config, Outside,
}
use xrplink.X402.Settlement.{confirm_settlement_on_ledger}
use xrplink.X402.Payment.{
  pay_quote, charge, by_status, process_x402_payment_locked, Run, commit_settlement, settle_payment,
  verify_payment,
}
use xrplink.X402.Facilitator.{SettlementResponse, settled_now, verify_error, settle_error}

module _ (o : Outside) (cfg : Config) (run : Run) where
  -- The facilitator settled, and the ledger shows it.
  pub record IsSettled (payload : Payload) (invoice_id : String) (requirements : Requirements)
      (response : SettlementResponse) : Type 0 where
    pub reply : SettleReply
    pub settled : o.settle payload requirements ≡ some reply
    pub successful : settle_error reply ≡ none
    pub on_ledger : confirm_settlement_on_ledger o reply.transaction requirements invoice_id ≡ none
    pub given : record { transaction = reply.transaction; payer = reply.payer } ≡ response

  -- The facilitator found the payment valid.
  pub record IsVerified (payload : Payload) (requirements : Requirements) : Type 0 where
    pub reply : VerifyReply
    pub verified : o.verify payload requirements ≡ some reply
    pub valid : verify_error reply ≡ none

  module _ (fp expected : String) (payload : Payload) (invoice_id : String)
      (requirements : Requirements) (quote : StoredQuote) (rec : Option PaymentRecord) (id : String)
      (response : SettlementResponse) (paid : Requirements) where
    commit-settled :
        (reply : SettleReply) (s : State)
        → (commit_settlement o cfg run fp expected invoice_id reply requirements quote rec s).0
          ≡ returned (settled_now id response paid)
        → (record { transaction = reply.transaction; payer = reply.payer } ≡ response)
          × (requirements ≡ paid)
    unfolding commit_settlement persist_unlocked
    commit-settled reply s h = ground arith

    settle-IsSettled :
        (s : State)
        → (settle_payment o cfg run fp expected payload invoice_id requirements quote rec s).0
          ≡ returned (settled_now id response paid)
        → IsSettled payload invoice_id requirements response × (requirements ≡ paid)
    unfolding settle_payment
    settle-IsSettled s h = elim (Option-cases (o.settle payload requirements)) [
      | inl e ↦ let k = rw (e, settle_payment) at h in cc
      | inr (reply, e) ↦
          let k = rw (e, settle_payment) at h in
          elim (Option-cases (settle_error reply)) [
            | inr (error, f) ↦ let l = rw f at k in cc
            | inl f ↦
                let l = rw f at k in
                elim (Option-cases
                  (confirm_settlement_on_ledger o reply.transaction requirements invoice_id)) [
                    | inr (error, g) ↦ let m = rw g at l in cc
                    | inl g ↦
                        let (same, right) = commit-settled reply _ (rw g at l) in
                        (
                          record {
                            reply = reply;
                            settled = e;
                            successful = f;
                            on_ledger = g;
                            given = same;
                          },
                          right,
                        )
                  ]
          ]
    ]

    verify-IsSettled :
        (s : State)
        → (verify_payment o cfg run fp expected payload invoice_id requirements quote rec s).0
          ≡ returned (settled_now id response paid)
        → IsVerified payload requirements
          × IsSettled payload invoice_id requirements response
          × (requirements ≡ paid)
    unfolding verify_payment
    verify-IsSettled s h = elim (Option-cases (o.verify payload requirements)) [
      | inl e ↦ let k = rw (e, verify_payment) at h in cc
      | inr (reply, e) ↦
          let k = rw (e, verify_payment) at h in
          elim (Option-cases (verify_error reply)) [
            | inr (error, f) ↦ let l = rw f at k in cc
            | inl f ↦
                let (settles, right) = settle-IsSettled _ (rw f at k) in
                (record { reply = reply; verified = e; valid = f }, settles, right)
          ]
    ]

  -- The quote is for this transaction and offers the asset that the payload names.
  pub record IsOffered (expected : String) (payload : Payload) (quote : StoredQuote)
      (requirements : Requirements) : Type 0 where
    pub for_transaction : quote.tx_hash ≡ expected
    pub accepted : match_accept payload quote.accepts ≡ some requirements

  abbrev pub is_used : String → State → Bool
  is_used signature s = any (λ h. h == o.payload_fingerprint signature) s.used_payload_hashes

  pub record IsCharged (signature expected : String) (payload : Payload) (invoice_id : String)
      (s : State) (response : SettlementResponse) (requirements : Requirements) : Type 0 where
    pub unused : is_used signature s ≡ false
    pub quote : StoredQuote
    pub stands : (get_quote cfg invoice_id run.now s).0 ≡ some quote
    pub offered : IsOffered expected payload quote requirements
    pub verifying : IsVerified payload requirements
    pub settling : IsSettled payload invoice_id requirements response

  module _ (expected : String) (payload : Payload) (invoice_id : String)
      (rec : Option PaymentRecord) (id : String) (response : SettlementResponse)
      (paid : Requirements) where
    abbrev Outgoing : StoredQuote → Requirements → Type 0
    Outgoing quote requirements =
        IsOffered expected payload quote requirements
        × IsVerified payload requirements
        × IsSettled payload invoice_id requirements response

    moved :
        (quote : StoredQuote) (a : Requirements) → a ≡ paid → Outgoing quote a → Outgoing quote paid
    moved quote a same = subst (Outgoing quote) same

    pay_quote-settled :
        (fp : String) (quote : StoredQuote) (s : State)
        → (pay_quote o cfg run fp expected payload invoice_id rec quote s).0
          ≡ returned (settled_now id response paid)
        → Outgoing quote paid
    unfolding pay_quote
    pay_quote-settled fp quote s h = elim (Bool-cases (quote.tx_hash == expected)) [
      | inr elsewhere ↦ let k = rw (elsewhere, pay_quote) at h in cc
      | inl bound ↦
          let k = rw (bound, pay_quote) at h in
          elim (Option-cases (match_accept payload quote.accepts)) [
            | inl f ↦ let n = rw f at k in cc
            | inr (requirements, f) ↦
                let (verifies, settles, right) =
                  verify-IsSettled fp expected payload invoice_id requirements quote rec id response
                    paid s (rw f at k) in
                moved quote requirements right (
                  record {
                    for_transaction = (eq_iff quote.tx_hash expected).0 bound;
                    accepted = f;
                  },
                  verifies,
                  settles,
                )
          ]
    ]

    charge-settled :
        (signature : String) (s : State)
        → (charge o cfg run signature expected payload invoice_id rec s).0
          ≡ returned (settled_now id response paid)
        → IsCharged signature expected payload invoice_id s response paid
    unfolding charge
    charge-settled signature s h = elim (Bool-cases (is_used signature s)) [
      | inl used ↦ let k = rw (used, charge) at h in cc
      | inr fresh ↦
          let k = rw (fresh, charge) at h in
          elim (Option-cases (get_quote cfg invoice_id run.now s).0) [
            | inl e ↦ let l = rw e at k in cc
            | inr (quote, e) ↦
                let (offers, verifies, settles) =
                  pay_quote-settled (o.payload_fingerprint signature) quote
                    (get_quote cfg invoice_id run.now s).1 (rw e at k) in
                record {
                  unused = fresh;
                  quote = quote;
                  stands = e;
                  offered = offers;
                  verifying = verifies;
                  settling = settles;
                }
          ]
    ]

module _ (o : Outside) (cfg : Config) (run : Run) (signature expected : String) (payload : Payload)
    (invoice_id : String) (s : State) where
  -- A record is none, or that of a quote for this transaction that has not been paid.
  abbrev pub IsUnpaid : Type 0
  IsUnpaid =
      (rec : PaymentRecord)
      → Dict.get s.payments invoice_id ≡ some rec
      → (rec.status ≡ quoted) × (rec.tx_hash ≡ expected)

  by_status-settled :
      (status : PaymentStatus) (rec : PaymentRecord) (id : String) (response : SettlementResponse)
      (paid : Requirements)
      → (by_status o cfg run status signature expected payload invoice_id rec s).0
        ≡ returned (settled_now id response paid)
      → (status ≡ quoted)
        × IsCharged o cfg run signature expected payload invoice_id s response paid
  unfolding by_status
  by_status-settled quoted rec id response paid h = (
    refl,
    charge-settled o cfg run expected payload invoice_id (some rec) id response paid signature s h,
  )
  by_status-settled settled rec id response paid h = cc
  by_status-settled fdc_ok rec id response paid h = cc
  by_status-settled fdc_failed rec id response paid h = cc

  -- A payment is reported as settled only if it was unpaid, its signature is new, an unexpired quote
  -- for this transaction offers the asset that is paid, the facilitator verified and then settled
  -- just those requirements, and the XRP Ledger, read again, shows the payment.
  pub process_x402_payment_locked-settled :
      (id : String) (response : SettlementResponse) (paid : Requirements)
      → (process_x402_payment_locked o cfg run signature expected payload invoice_id s).0
        ≡ returned (settled_now id response paid)
      → IsUnpaid × IsCharged o cfg run signature expected payload invoice_id s response paid
  unfolding process_x402_payment_locked
  process_x402_payment_locked-settled id response paid h =
      elim (Option-cases (Dict.get s.payments invoice_id)) [
        | inl e ↦ (
          (λ rec f. cc),
          charge-settled o cfg run expected payload invoice_id none id response paid signature s
              (rw (e, process_x402_payment_locked) at h),
        )
        | inr (rec, e) ↦
            let k = rw (e, process_x402_payment_locked) at h in
            elim (Bool-cases (rec.tx_hash == expected)) [
              | inr elsewhere ↦ let l = rw elsewhere at k in cc
              | inl bound ↦
                  let (status, charged) =
                    by_status-settled rec.status rec id response paid (rw bound at k) in
                  (
                    (λ r f. (
                      ground (arith, status, e),
                      ground (arith, e, (eq_iff rec.tx_hash expected).0 bound),
                    )),
                    charged,
                  )
            ]
      ]
