-- ===== src/X402/Payment/Once.antt =====
-- src/x402-service.ts: an invoice that was paid is never charged again.
use xrplink.Prelude.{
  String, ◌≡◌, refl, ◌≢◌, inl, inr, Bool, true, false, not, Option, none, some, ◌==◌, if◌then◌else◌,
  Bool-cases,
}
use xrplink.Dict
use xrplink.Dict.{get-set}
use xrplink.Store.{returned}
use xrplink.X402.{
  PaymentStatus, quoted, settled, fdc_ok, fdc_failed, PaymentRecord, Payload, Memory, State, Config,
  Outside,
}
use xrplink.X402.Payment.{Run, by_status, process_x402_payment_locked}
use xrplink.X402.Facilitator.{
  ProcessResult, replay, retry_fdc, retry_requirements, failed, bound_elsewhere,
}

abbrev pub is_quoted : PaymentStatus → Bool
is_quoted quoted = true
is_quoted _ = false

abbrev pub paid_record : Option PaymentRecord → Bool
paid_record none = false
paid_record (some rec) = not (is_quoted rec.status)

not_quoted : (status : PaymentStatus) → status ≢ quoted → is_quoted status ≡ false
not_quoted quoted h = absurd (h refl)
not_quoted settled h = refl
not_quoted fdc_ok h = refl
not_quoted fdc_failed h = refl

-- The invoice has a record past `quoted`.
abbrev pub is_paid : String → Memory → Bool
is_paid id m = paid_record (Dict.get m.payments id)

-- What a paid invoice answers, to whatever signature and payload name it.
abbrev pub answer_paid :
    Outside → Config → Run → String → String → PaymentRecord → State → ProcessResult
answer_paid o cfg run expected invoice_id rec s =
    if not (rec.tx_hash == expected) then failed bound_elsewhere else elim rec.status [
      | fdc_ok ↦ replay invoice_id
      | _ ↦
          retry_fdc invoice_id (record { transaction = rec.settlement_tx; payer = rec.payer })
            (retry_requirements cfg rec (Dict.get s.quotes invoice_id))
    ]

module _ (o : Outside) (cfg : Config) where
  by_status-paid :
      (run : Run) (signature expected : String) (payload : Payload) (invoice_id : String)
      (rec : PaymentRecord) (s : State) (status : PaymentStatus)
      → is_quoted status ≡ false
      → by_status o cfg run status signature expected payload invoice_id rec s ≡ (
        returned (elim status [
          | fdc_ok ↦ replay invoice_id
          | _ ↦
              retry_fdc invoice_id
                (record { transaction = rec.settlement_tx; payer = rec.payer })
                (retry_requirements cfg rec (Dict.get s.quotes invoice_id))
        ]),
        s,
      )
  unfolding by_status
  by_status-paid run signature expected payload invoice_id rec s quoted h = cc
  by_status-paid run signature expected payload invoice_id rec s settled h = refl
  by_status-paid run signature expected payload invoice_id rec s fdc_ok h = refl
  by_status-paid run signature expected payload invoice_id rec s fdc_failed h = refl

  pub process_x402_payment_locked-paid :
      (run : Run) (signature expected : String) (payload : Payload) (invoice_id : String)
      (rec : PaymentRecord) (s : State)
      → Dict.get s.payments invoice_id ≡ some rec
      → rec.status ≢ quoted
      → process_x402_payment_locked o cfg run signature expected payload invoice_id s
        ≡ (returned (answer_paid o cfg run expected invoice_id rec s), s)
  unfolding process_x402_payment_locked
  process_x402_payment_locked-paid run signature expected payload invoice_id rec s e h =
      rw (e, process_x402_payment_locked)
        (elim (Bool-cases (rec.tx_hash == expected)) [
          | inr elsewhere ↦ rw elsewhere
          | inl bound ↦ rw bound (
              by_status-paid run signature expected payload invoice_id rec s rec.status
                (not_quoted rec.status h))
        ])
