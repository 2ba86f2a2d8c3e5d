-- ===== src/X402/Settlement.antt =====
-- src/x402-service.ts: the independent check of a settlement on the XRP Ledger.
pub mod Laws
use xrplink.Prelude.{
  ℕ, ◌/◌, ◌%◌, String, Bool, true, false, not, ◌&&◌, ◌||◌, Option, none, some, List, [], ◌∷◌, ◌==◌,
  ltb, nat_eq, if◌then◌else◌, get_or, or_else, truthy,
}
use xrplink.Prelude.Text.{upper, strip_0x, decimal}
use xrplink.Xrpl.{
  IssuedAmount, Amount, native, issued, TxResult, Meta, XrplLookup, found, not_found, unavailable,
  tf_partial_payment,
}
use xrplink.X402.{Requirements, Outside, rlusd_hex}

-- One constructor for each message of the source.
pub data LedgerError : Type 0 where
  not_validated not_a_payment partial_payment wrong_destination : LedgerError
  invoice_mismatch not_native_xrp below_price asset_mismatch : LedgerError
  no_transaction_hash cannot_reread : LedgerError

-- `meta?.delivered_amount ?? meta?.DeliveredAmount ?? tx.Amount`
unfoldable pub delivered_amount : TxResult → Option Amount
delivered_amount tx = elim tx.meta [
  | none ↦ tx.amount
  | some m ↦ or_else m.delivered_amount (or_else m.delivered_amount_pascal tx.amount)
]

-- `(Number(tx.Flags || 0) & TF_PARTIAL_PAYMENT) !== 0`: bit 17.
abbrev pub is_partial : TxResult → Bool
is_partial tx = nat_eq ((get_or tx.flags 0 / tf_partial_payment) % 2) 1

-- The loop over the memos.
memo_bound : (String → String) → String → String → List (Option String) → Bool
memo_bound memo_text expected invoice_id [] = false
memo_bound memo_text expected invoice_id (memo ∷ memos) =
    let rest = memo_bound memo_text expected invoice_id memos in
    elim (truthy memo) [
      | none ↦ rest
      | some text ↦
          if upper (strip_0x text) == expected || memo_text text == invoice_id then true else rest
    ]

unfoldable pub invoice_bound_on_tx : Outside → TxResult → String → Bool
unfolding upper strip_0x memo_bound
invoice_bound_on_tx o tx invoice_id =
    let expected = o.invoice_binding_hash invoice_id in
    let field = upper (strip_0x (get_or tx.invoice_id "")) in
    if not (field == "") && (field == expected)
    then true
    else memo_bound o.memo_text expected invoice_id tx.memos

abbrev has_currency : String → Bool
has_currency currency = currency == "RLUSD" || currency == upper rlusd_hex

-- `!issuer || amount.issuer === issuer`
abbrev has_issuer : Option String → Option String → Bool
has_issuer actual quoted = elim (truthy quoted) [
  | none ↦ true
  | some want ↦ elim actual [ none ↦ false | some have ↦ have == want ]
]

-- `issuedMatches`; `covers` compares the two values as doubles.
unfoldable pub issued_matches : Outside → Option Amount → String → Option String → Bool
unfolding upper
issued_matches o none quoted issuer = false
issued_matches o (some (native drops)) quoted issuer = false
issued_matches o (some (issued a)) quoted issuer =
    has_currency (upper (get_or a.currency ""))
    && (has_issuer a.issuer issuer && o.covers (get_or a.value "") quoted)

-- `BigInt` of a quoted amount throws unless it is a whole number; the quotes hold decimal digits.
unfoldable pub compare_drops : Option ℕ → Option ℕ → Option LedgerError
compare_drops none need = some not_native_xrp
compare_drops (some drops) none = some not_native_xrp
compare_drops (some drops) (some need) = if ltb drops need then some below_price else none

abbrev pub native_drops : Option Amount → String
native_drops none = ""
native_drops (some (native drops)) = drops
native_drops (some (issued a)) = ""

unfoldable pub amount_error : Outside → TxResult → Requirements → Option LedgerError
unfolding compare_drops decimal issued_matches delivered_amount
amount_error o tx requirements =
    let delivered = delivered_amount tx in
    if requirements.asset == "XRP"
    then compare_drops (decimal (native_drops delivered)) (decimal requirements.amount)
    else if issued_matches o delivered requirements.amount requirements.issuer
    then none
    else some asset_mismatch

abbrev pub is_validated : TxResult → Bool
is_validated tx = get_or tx.validated false

abbrev pub goes_to : TxResult → String → Bool
goes_to tx address = elim tx.destination [ none ↦ false | some d ↦ d == address ]

-- `assertSettledXrplPayment`: `none` is the source's `null`, no error.
unfoldable pub assert_settled_xrpl_payment :
    Outside → TxResult → Requirements → String → Option LedgerError
assert_settled_xrpl_payment o tx requirements invoice_id =
    if not (is_validated tx)
    then some not_validated
    else if not (tx.transaction_type == "Payment")
    then some not_a_payment
    else if is_partial tx
    then some partial_payment
    else if not (goes_to tx requirements.pay_to)
    then some wrong_destination
    else if not (invoice_bound_on_tx o tx invoice_id)
    then some invoice_mismatch
    else amount_error o tx requirements

unfoldable pub on_lookup : Outside → XrplLookup → Requirements → String → Option LedgerError
on_lookup o (found tx) requirements invoice_id =
    assert_settled_xrpl_payment o tx requirements invoice_id
on_lookup o not_found requirements invoice_id = some cannot_reread
on_lookup o unavailable requirements invoice_id = some cannot_reread

unfoldable pub confirm_settlement_on_ledger :
    Outside → Option String → Requirements → String → Option LedgerError
confirm_settlement_on_ledger o settlement_tx requirements invoice_id = elim (truthy settlement_tx) [
  | none ↦ some no_transaction_hash
  | some tx ↦ on_lookup o (o.lookup tx) requirements invoice_id
]
