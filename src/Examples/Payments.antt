-- ===== src/Examples/Payments.antt =====
-- Runs of src/x402-service.ts and src/xrpl-tx.ts.
use xrplink.Prelude.{
  suc, String, ◌≡◌, refl, ◌≢◌, ◌↔◌, false, none, some, List, [], ◌∷◌, ◌==◌, eq_iff,
}
use xrplink.Dict
use xrplink.Store.{returned}
use xrplink.Examples.{
  attested_hash, config, price, xrp_requirements, payload, payment_tx, outside, run, quoted_memory,
  quoted_state, response,
}
use xrplink.Prelude.Text.{upper}
use xrplink.X402.{
  intact, PaymentRecord, fdc_ok, fdc_failed, State, saved, persist_unlocked, prune_quotes,
  get_pay_to_address,
}
use xrplink.X402.Quotes.{get_quote, match_accept}
use xrplink.X402.Settlement.{
  assert_settled_xrpl_payment, on_lookup, confirm_settlement_on_ledger, amount_error,
  invoice_bound_on_tx,
}
use xrplink.X402.Settlement.Laws.{IsSettlement, assert_settled_xrpl_payment_iff}
use xrplink.X402.Payment.{
  retried, commit_settlement, settle_payment, verify_payment, pay_quote, charge,
  process_x402_payment_locked,
}
use xrplink.X402.Facilitator.{settled_now, verify_error, settle_error}
use xrplink.X402.Payment.Charged.{IsUnpaid, IsCharged, process_x402_payment_locked-settled}
use xrplink.X402.Payment.History.{
  Event, request, quote_for, restart, history, settlements_of, IsPaid, history-IsPaid,
}
use xrplink.X402.Payment.Settles.{process_x402_payment_locked-once}
use xrplink.X402.Payment.Reopen.{mark_payment_fdc_failed-reopens}
use xrplink.X402.Marks.{mark_payment_fdc_failed}
use xrplink.Xrpl.{
  found, not_found, unavailable, txn_not_found, fails, lookup_xrpl_tx, preflight_xrpl_payment,
  passes,
}
use xrplink.Xrpl.Lookup.{verdict, lookup_xrpl_tx-eq-verdict}
use xrplink.Xrpl.Preflight.{IsAttempted, preflight_xrpl_payment_iff}

-- The first request pays.
settles :
    (process_x402_payment_locked outside config run "sig" attested_hash payload "inv1"
      quoted_state).0
    ≡ returned (settled_now "inv1" response xrp_requirements)
unfolding Dict.get Dict.set process_x402_payment_locked charge get_quote prune_quotes pay_quote
    match_accept upper verify_payment verify_error settle_payment settle_error
    confirm_settlement_on_ledger on_lookup assert_settled_xrpl_payment invoice_bound_on_tx
    amount_error commit_settlement persist_unlocked
settles = refl

other_invoice : ◌≢◌ {A = String} "inv2" "inv1"
other_invoice e = cc ((eq_iff "inv2" "inv1").1 e)

-- The client tries again with a new signature, the service restarts, and a quote goes out.
abbrev later_events : List Event
later_events =
    request run "sig2" attested_hash
    ∷ (restart intact 4000 ∷ (quote_for (some price) "inv2" attested_hash 5000 saved ∷ []))

once_example : IsPaid "inv1" (suc (settlements_of "inv1" quoted_state.ledger)) (
    history outside config later_events
      (process_x402_payment_locked outside config run "sig" attested_hash payload "inv1"
        quoted_state).1)
once_example =
    process_x402_payment_locked-once outside config run "sig" attested_hash payload "inv1"
      quoted_state response xrp_requirements later_events settles (tt, (refl, (other_invoice, tt)))

settled_example :
    IsUnpaid outside config run "sig" attested_hash payload "inv1" quoted_state
    × IsCharged outside config run "sig" attested_hash payload "inv1" quoted_state response
        xrp_requirements
settled_example =
    process_x402_payment_locked-settled outside config run "sig" attested_hash payload "inv1"
      quoted_state "inv1" response xrp_requirements settles

assert_settled_xrpl_payment_iff_example :
    (assert_settled_xrpl_payment outside payment_tx xrp_requirements "inv1" ≡ none)
    ↔ IsSettlement outside payment_tx xrp_requirements "inv1"
assert_settled_xrpl_payment_iff_example =
    assert_settled_xrpl_payment_iff outside payment_tx xrp_requirements "inv1"

-- An invoice whose attestation succeeded, in memory, in the file and in the ledger file.
abbrev paid_record_of : PaymentRecord
paid_record_of = record {
  invoice_id = "inv1";
  tx_hash = attested_hash;
  status = fdc_ok;
  settlement_tx = some "SETTLE";
  payer = some "rPayer";
  asset = some "XRP";
  amount = some "250000";
  issuer = none;
  created_at = 1000;
  updated_at = 3000;
}

abbrev paid_state : State
paid_state =
    let m = record quoted_memory { payments = ("inv1", paid_record_of) ∷ [] } in
    record quoted_state { memory = m; disk = m }

paid_row : Dict.get paid_state.payments "inv1" ≡ some paid_record_of
unfolding Dict.get
paid_row = refl

paid_state-IsPaid : IsPaid "inv1" 0 paid_state
unfolding Dict.get settlements_of
paid_state-IsPaid = record { in_memory = refl; on_disk = refl; counted = refl }

history_example : IsPaid "inv1" 0 (history outside config later_events paid_state)
history_example =
    history-IsPaid outside config "inv1" 0 later_events paid_state (tt, (refl, (other_invoice, tt)))
      paid_state-IsPaid

reopens_example :
    let t = (mark_payment_fdc_failed config "inv1" 9000 saved paid_state).1 in
    process_x402_payment_locked outside config run "sig3" attested_hash payload "inv1" t ≡ (
      returned (
          retried outside config run
            (record paid_record_of { status = fdc_failed; updated_at = 9000 })
            "inv1"
            t),
      t,
    )
reopens_example =
    mark_payment_fdc_failed-reopens outside config run "sig3" payload "inv1" 9000 saved
      paid_record_of paid_state paid_row refl

named : (get_pay_to_address config == "") ≡ false
unfolding get_pay_to_address
named = refl

new_invoice : Dict.get paid_state.quotes "inv2" ≡ none
unfolding Dict.get
new_invoice = refl

lookup_example :
    lookup_xrpl_tx (fails ∷ (txn_not_found ∷ (fails ∷ [])))
    ≡ verdict (fails ∷ (txn_not_found ∷ (fails ∷ [])))
lookup_example = lookup_xrpl_tx-eq-verdict (fails ∷ (txn_not_found ∷ (fails ∷ [])))

preflight_example :
    ((preflight_xrpl_payment (found payment_tx) 1746684800000 ≡ passes)
      ↔ IsAttempted payment_tx 1746684800000)
    × (preflight_xrpl_payment not_found 1746684800000 ≢ passes)
    × (preflight_xrpl_payment unavailable 1746684800000 ≡ passes)
preflight_example = preflight_xrpl_payment_iff payment_tx 1746684800000
