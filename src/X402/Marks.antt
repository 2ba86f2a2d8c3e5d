-- ===== src/X402/Marks.antt =====
-- src/x402-service.ts: recording how the attestation of a settled payment went.
use xrplink.Prelude.{ℕ, String, none, some}
use xrplink.Dict
use xrplink.Store.{Outcome, returned, threw}
use xrplink.X402.{PaymentStatus, fdc_ok, fdc_failed, State, Save, Config, persist_unlocked}

unfoldable pub mark :
    PaymentStatus → Config → String → ℕ → Save → State → Outcome (Unit {0}) × State
unfolding persist_unlocked
mark status cfg invoice_id now save s = elim (Dict.get s.payments invoice_id) [
  | none ↦ (returned tt, s)
  | some rec ↦
      let (failure, t) = persist_unlocked cfg now save (record s {
        memory = record s.memory {
          payments =
              Dict.set s.payments invoice_id (record rec { status = status; updated_at = now });
        };
      }) in
      ((elim failure [ none ↦ returned tt | some m ↦ threw m ]), t)
]

unfoldable pub mark_payment_fdc_ok : Config → String → ℕ → Save → State → Outcome (Unit {0}) × State
unfolding mark
mark_payment_fdc_ok = mark fdc_ok

unfoldable pub mark_payment_fdc_failed :
    Config → String → ℕ → Save → State → Outcome (Unit {0}) × State
unfolding mark
mark_payment_fdc_failed = mark fdc_failed
