-- ===== src/X402/Payment.antt =====
-- src/x402-service.ts: verifying and settling a PAYMENT-SIGNATURE. `process_x402_payment_locked` runs
-- under the lock of its invoice; `now` is the clock at its start and `later` the clock at its commit.
pub mod Keeps
pub mod Once
pub mod Charged
pub mod History
pub mod Settles
pub mod Reopen
use xrplink.Prelude.{
  ℕ, ◌+◌, String, ◌++◌, not, Option, none, some, List, [], ◌∷◌, ◌==◌, if◌then◌else◌, any,
}
use mathlib.Core.List
use xrplink.Dict
use xrplink.Store.{Outcome, returned, threw}
use xrplink.X402.{
  Number, AttestationPrice, Requirements, StoredQuote, PaymentStatus, quoted, settled, fdc_ok,
  fdc_failed, PaymentRecord, Payload, SettledEvent, FacilitatorCall, verify_call, settle_call,
  State, Save, saved, save_failed, Flag, absent, yes_bool, no_bool, yes_text, other, VerifyReply,
  SettleReply, Config, Outside, rlusd_hex, get_pay_to_address, max_timeout_seconds,
  persist_unlocked,
}
use xrplink.X402.Quotes.{extract_invoice_id, get_quote, of_asset, match_accept}
use xrplink.X402.Settlement.{LedgerError, confirm_settlement_on_ledger}
use xrplink.X402.Facilitator.{
  PaymentError, ProcessResult, SettlementResponse, asset_not_accepted, bound_elsewhere, facilitator,
  failed, invalid_encoding, ledger, missing_invoice_id, replay, retry_fdc, retry_requirements,
  settle_error, settled_event, settled_now, settled_record, unknown_or_expired, verify_error,
}

-- The two instants of one run, and the fates of its two file writes: the state and the ledger.
pub record Run : Type 0 where
  pub now : ℕ
  pub later : ℕ
  pub save : Save
  pub ledger_save : Save

module _ (o : Outside) (cfg : Config) (run : Run) where
  abbrev pub send : FacilitatorCall → State → State
  send call s = record s { sent = List.◌++◌ s.sent (call ∷ []) }

  -- What the commit makes of the memory; a set of hashes holds each once.
  abbrev pub settled_memory :
      String → String → String → SettleReply → Requirements → Option PaymentRecord → State → State
  settled_memory fp expected invoice_id reply requirements rec s = record s {
    memory = record s.memory {
      used_payload_hashes =
          if any (λ h. h == fp) s.used_payload_hashes
          then s.used_payload_hashes
          else List.◌++◌ s.used_payload_hashes (fp ∷ []);
      payments =
          Dict.set s.payments invoice_id
            (settled_record invoice_id expected reply requirements rec run.later);
    };
  }

  -- The commit under the state lock, then the ledger event, which throws if its file cannot be written.
  unfoldable pub commit_settlement :
      String
      → String
      → String
      → SettleReply
      → Requirements
      → StoredQuote
      → Option PaymentRecord
      → State
      → Outcome ProcessResult × State
  commit_settlement fp expected invoice_id reply requirements quote rec s =
      let (failure, t) =
        persist_unlocked cfg run.later run.save
          (settled_memory fp expected invoice_id reply requirements rec s) in
      elim failure [
        | some m ↦ (threw m, t)
        | none ↦ elim run.ledger_save [
          | save_failed m ↦ (threw m, t)
          | saved ↦ (
            returned (
                settled_now invoice_id
                  (record { transaction = reply.transaction; payer = reply.payer }) requirements),
            record t {
              ledger =
                  List.◌++◌ t.ledger
                    (settled_event o invoice_id run.later requirements quote.price reply ∷ []);
            },
          )
        ]
      ]

  unfoldable pub settle_payment :
      String
      → String
      → Payload
      → String
      → Requirements
      → StoredQuote
      → Option PaymentRecord
      → State
      → Outcome ProcessResult × State
  settle_payment fp expected payload invoice_id requirements quote rec s =
      let t = send (settle_call payload requirements) s in
      elim (o.settle payload requirements) [
        | none ↦ (threw "fetch failed", t)
        | some reply ↦ elim (settle_error reply) [
          | some e ↦ (returned (failed e), t)
          | none ↦ elim (confirm_settlement_on_ledger o reply.transaction requirements invoice_id) [
            | some e ↦ (returned (failed (ledger e)), t)
            | none ↦ commit_settlement fp expected invoice_id reply requirements quote rec t
          ]
        ]
      ]

  unfoldable pub verify_payment :
      String
      → String
      → Payload
      → String
      → Requirements
      → StoredQuote
      → Option PaymentRecord
      → State
      → Outcome ProcessResult × State
  verify_payment fp expected payload invoice_id requirements quote rec s =
      let t = send (verify_call payload requirements) s in
      elim (o.verify payload requirements) [
        | none ↦ (threw "fetch failed", t)
        | some reply ↦ elim (verify_error reply) [
          | some e ↦ (returned (failed e), t)
          | none ↦ settle_payment fp expected payload invoice_id requirements quote rec t
        ]
      ]

  -- From the test of the quote's transaction on.
  unfoldable pub pay_quote :
      String
      → String
      → Payload
      → String
      → Option PaymentRecord
      → StoredQuote
      → State
      → Outcome ProcessResult × State
  pay_quote fp expected payload invoice_id rec quote s =
      if not (quote.tx_hash == expected)
      then (returned (failed bound_elsewhere), s)
      else elim (match_accept payload quote.accepts) [
        | none ↦ (returned (failed asset_not_accepted), s)
        | some requirements ↦ verify_payment fp expected payload invoice_id requirements quote rec s
      ]

  -- From the fingerprint test on: the payment has not been settled.
  unfoldable pub charge :
      String
      → String
      → Payload
      → String
      → Option PaymentRecord
      → State
      → Outcome ProcessResult × State
  charge signature expected payload invoice_id rec s =
      let fp = o.payload_fingerprint signature in
      if any (λ h. h == fp) s.used_payload_hashes
      then (returned (replay invoice_id), s)
      else let (quote, t) = get_quote cfg invoice_id run.now s in
        elim quote [
          | none ↦ (returned (failed unknown_or_expired), t)
          | some q ↦ pay_quote fp expected payload invoice_id rec q t
        ]

  abbrev pub retried : PaymentRecord → String → State → ProcessResult
  retried rec invoice_id s =
      retry_fdc invoice_id (record { transaction = rec.settlement_tx; payer = rec.payer })
        (retry_requirements cfg rec (Dict.get s.quotes invoice_id))

  unfoldable pub by_status :
      PaymentStatus
      → String
      → String
      → Payload
      → String
      → PaymentRecord
      → State
      → Outcome ProcessResult × State
  by_status quoted signature expected payload invoice_id rec s =
      charge signature expected payload invoice_id (some rec) s
  by_status settled signature expected payload invoice_id rec s =
      (returned (retried rec invoice_id s), s)
  by_status fdc_ok signature expected payload invoice_id rec s = (returned (replay invoice_id), s)
  by_status fdc_failed signature expected payload invoice_id rec s =
      (returned (retried rec invoice_id s), s)

  unfoldable pub process_x402_payment_locked :
      String → String → Payload → String → State → Outcome ProcessResult × State
  process_x402_payment_locked signature expected payload invoice_id s =
      elim (Dict.get s.payments invoice_id) [
        | none ↦ charge signature expected payload invoice_id none s
        | some rec ↦
            if not (rec.tx_hash == expected)
            then (returned (failed bound_elsewhere), s)
            else by_status rec.status signature expected payload invoice_id rec s
      ]

  unfoldable pub process_x402_payment : String → String → State → Outcome ProcessResult × State
  process_x402_payment signature expected s = elim (o.decode signature) [
    | none ↦ (returned (failed invalid_encoding), s)
    | some payload ↦ elim (extract_invoice_id payload) [
      | none ↦ (returned (failed missing_invoice_id), s)
      | some invoice_id ↦ process_x402_payment_locked signature expected payload invoice_id s
    ]
  ]
