-- ===== src/X402/Payment/Reopen.antt =====
-- src/x402-service.ts: a failure that is recorded after the attestation of a payment succeeded.
use xrplink.Prelude.{ℕ, String, ◌≡◌, ap, ◌∙◌, some, arith, eq_refl}
use xrplink.Dict
use xrplink.Dict.{get-set}
use xrplink.Store.{returned}
use xrplink.X402.{fdc_ok, fdc_failed, PaymentRecord, Payload, State, Save, Config, Outside}
use xrplink.X402.Marks.{mark, mark_payment_fdc_failed}
use xrplink.X402.Payment.{Run, process_x402_payment_locked}
use xrplink.X402.Facilitator.{retry_fdc, retry_requirements}
use xrplink.X402.Payment.Once.{process_x402_payment_locked-paid}
use xrplink.X402.Payment.Settles.{payments-persist}

payments-mark_failed :
    (cfg : Config) (id : String) (now : ℕ) (fate : Save) (rec : PaymentRecord) (s : State)
    → Dict.get s.payments id ≡ some rec
    → Dict.get (mark_payment_fdc_failed cfg id now fate s).1.payments id
      ≡ some (record rec { status = fdc_failed; updated_at = now })
unfolding mark_payment_fdc_failed
payments-mark_failed cfg id now fate rec s e =
    let r = record rec { status = fdc_failed; updated_at = now } in
    rw (e, mark)
      (ap (λ p. Dict.get p id) (payments-persist cfg now fate _)
        ∙ (ground (arith, get-set s.payments id id r, eq_refl id)))

-- Marking a payment as failed whose attestation succeeded opens it again: the next request for its
-- transaction that names the invoice, whatever its signature, is answered as a retry of the
-- attestation on the earlier settlement, and nothing is changed or sent.
pub mark_payment_fdc_failed-reopens :
    (o : Outside) (cfg : Config) (run : Run) (signature : String) (payload : Payload) (id : String)
    (now : ℕ) (fate : Save) (rec : PaymentRecord) (s : State)
    → Dict.get s.payments id ≡ some rec
    → rec.status ≡ fdc_ok
    → let t = (mark_payment_fdc_failed cfg id now fate s).1 in
      process_x402_payment_locked o cfg run signature rec.tx_hash payload id t ≡ (
        returned (
            retry_fdc id
              (record { transaction = rec.settlement_tx; payer = rec.payer })
              (retry_requirements cfg
                (record rec { status = fdc_failed; updated_at = now })
                (Dict.get t.quotes id))),
        t,
      )
mark_payment_fdc_failed-reopens o cfg run signature payload id now fate rec s e ok =
    let r = record rec { status = fdc_failed; updated_at = now } in
    let t = (mark_payment_fdc_failed cfg id now fate s).1 in
    process_x402_payment_locked-paid o cfg run signature rec.tx_hash payload id r t
      (payments-mark_failed cfg id now fate rec s e) (λ q. cc)
    ∙ (ground (arith, eq_refl rec.tx_hash))
