-- ===== src/Xrpl/Preflight.antt =====
-- src/xrpl-tx.ts: which hashes the preflight lets through to the verifier.
use xrplink.Prelude.{
  String, Option, ℕ, ◌+◌, ◌/◌, ◌≤◌, ◌≡◌, refl, ◌≢◌, ◌↔◌, inl, inr, true, some, arith, eq_iff,
  Option-cases,
}
use xrplink.Prelude.{none, String, Option}
use xrplink.Prelude.Text.{decimal}
use xrplink.Xrpl.{
  Amount, native, issued, issued, decimal, native, Amount, TxResult, found, not_found, unavailable,
  ripple_epoch, is_native_xrp_amount, passes, preflight_xrpl_payment,
}

-- A Payment of an amount of drops, written in decimal digits, that shows no close time or closed at
-- most 14 days before the clock.
pub record IsAttempted (tx : TxResult) (now : ℕ) : Type 0 where
  pub payment : tx.transaction_type ≡ "Payment"
  pub amount : String
  pub drops : ℕ
  pub paid : tx.amount ≡ some (native amount)
  pub in_digits : decimal amount ≡ some drops
  pub recent : (date : ℕ) → tx.date ≡ some date → now / 1000 ≤ ripple_epoch + date + 1209600

in_drops :
    (a : Option Amount)
    → is_native_xrp_amount a ≡ true
    → (amount : String) × (drops : ℕ) × (a ≡ some (native amount)) × (decimal amount ≡ some drops)
unfolding is_native_xrp_amount
in_drops none h = cc
in_drops (some (issued a)) h = cc
in_drops (some (native amount)) h = elim (Option-cases (decimal amount)) [
  | inl e ↦ cc
  | inr (drops, e) ↦ (amount, drops, refl, e)
]

is_native :
    {a : Option Amount} {amount : String} {drops : ℕ}
    → a ≡ some (native amount)
    → decimal amount ≡ some drops
    → is_native_xrp_amount a ≡ true
unfolding is_native_xrp_amount
is_native e f = rw (e, f) refl

module _ (tx : TxResult) (now : ℕ) where
  abbrev IsRecent : Type 0
  IsRecent = (date : ℕ) → tx.date ≡ some date → now / 1000 ≤ ripple_epoch + date + 1209600

  guards_passed :
      preflight_xrpl_payment (found tx) now ≡ passes
      → (tx.transaction_type ≡ "Payment") × (is_native_xrp_amount tx.amount ≡ true) × IsRecent
  unfolding preflight_xrpl_payment
  guards_passed e = (
    ground (arith, eq_iff tx.transaction_type "Payment"),
    ground arith,
    λ date same. ground arith,
  )

  passes_guards :
      tx.transaction_type ≡ "Payment"
      → is_native_xrp_amount tx.amount ≡ true
      → IsRecent
      → preflight_xrpl_payment (found tx) now ≡ passes
  unfolding preflight_xrpl_payment
  passes_guards payment native_xrp recent = elim (Option-cases tx.date) [
    | inl undated ↦ ground (arith, undated, eq_iff tx.transaction_type "Payment")
    | inr (date, dated) ↦
        ground (arith, dated, recent date dated, eq_iff tx.transaction_type "Payment")
  ]

-- A transaction that was found passes exactly if it is a Payment of native XRP, an amount in decimal
-- digits, that closed at most 14 days before the clock or shows no close time; one that is not on the
-- ledger never passes, and when no endpoint can be reached every hash does.
pub preflight_xrpl_payment_iff :
    (tx : TxResult) (now : ℕ)
    → ((preflight_xrpl_payment (found tx) now ≡ passes) ↔ IsAttempted tx now)
      × (preflight_xrpl_payment not_found now ≢ passes)
      × (preflight_xrpl_payment unavailable now ≡ passes)
unfolding preflight_xrpl_payment
preflight_xrpl_payment_iff tx now = (
  (
    λ e.
        let (is_payment, native_xrp, young) = guards_passed tx now e in
        let (amount, drops, same_amount, digits) = in_drops tx.amount native_xrp in
        record {
          payment = is_payment;
          amount = amount;
          drops = drops;
          paid = same_amount;
          in_digits = digits;
          recent = young;
        },
    λ p. passes_guards tx now p.payment (is_native p.paid p.in_digits) p.recent,
  ),
  cc,
  refl,
)
