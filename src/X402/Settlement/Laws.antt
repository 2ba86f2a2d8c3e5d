-- ===== src/X402/Settlement/Laws.antt =====
-- src/x402-service.ts: which ledger transactions the check accepts as the payment of a quote.
use xrplink.Prelude.{
  ◌/◌, ◌%◌, sym, ap, ◌∙◌, List, [], ◌∷◌, get_or, Bool-cases, ℕ, ◌≤◌, String, ◌≡◌, refl, ◌≢◌, ◌↔◌,
  ◌⊎◌, inl, inr, Bool, true, false, Option, none, some, arith, ◌==◌, eq_iff, eq_refl, if◌then◌else◌,
  Option-cases,
}
use xrplink.Prelude.Text.{decimal}
use xrplink.Prelude.Text.{upper, strip_0x}
use xrplink.Xrpl.{TxResult, Meta, Amount, IssuedAmount, native, issued}
use xrplink.X402.{Requirements, Outside}
use xrplink.X402.Settlement.{
  memo_bound, has_issuer, LedgerError, compare_drops, native_drops, amount_error, goes_to,
  invoice_bound_on_tx, issued_matches, delivered_amount, assert_settled_xrpl_payment,
}

-- What a transaction delivered: the amount of its metadata in either spelling, the first where there
-- are both, and the amount of the transaction where there is none.
pub data IsDelivered (tx : TxResult) (a : Amount) : Type 0 where
  reported : (m : Meta) → tx.meta ≡ some m → m.delivered_amount ≡ some a → IsDelivered tx a
  reported_pascal :
      (m : Meta)
      → tx.meta ≡ some m
      → m.delivered_amount ≡ none
      → m.delivered_amount_pascal ≡ some a
      → IsDelivered tx a
  unreported :
      (m : Meta)
      → tx.meta ≡ some m
      → m.delivered_amount ≡ none
      → m.delivered_amount_pascal ≡ none
      → tx.amount ≡ some a
      → IsDelivered tx a
  without_meta : tx.meta ≡ none → tx.amount ≡ some a → IsDelivered tx a

-- RLUSD by its name or by its code, in whatever case.
abbrev pub IsRlusd : String → Type 0
IsRlusd currency =
    (upper currency ≡ "RLUSD") ⊎ (upper currency ≡ "524C555344000000000000000000000000000000")

-- Where the quote names no issuer, any will do.
abbrev pub IsIssuedBy : Option String → Option String → Type 0
IsIssuedBy quoted actual =
    (quoted ≡ none)
    ⊎ ((quoted ≡ some "") ⊎ ((issuer : String) × (quoted ≡ some issuer) × (actual ≡ some issuer)))

-- At least the quoted drops of native XRP; or an amount of RLUSD of the quoted issuer whose value, as
-- a double, the comparison takes to be enough.
pub data IsCovered (o : Outside) (tx : TxResult) (q : Requirements) : Type 0 where
  in_drops :
      (text : String) (drops need : ℕ)
      → q.asset ≡ "XRP"
      → IsDelivered tx (native text)
      → decimal text ≡ some drops
      → decimal q.amount ≡ some need
      → need ≤ drops
      → IsCovered o tx q
  in_rlusd :
      (a : IssuedAmount)
      → q.asset ≢ "XRP"
      → IsDelivered tx (issued a)
      → IsRlusd (get_or a.currency "")
      → IsIssuedBy q.issuer a.issuer
      → o.covers (get_or a.value "") q.amount ≡ true
      → IsCovered o tx q

-- A memo whose data is the hash of the invoice in hex, or its id as text.
abbrev pub IsMemo : Outside → String → Option String → Type 0
IsMemo o id memo =
    (text : String) × (memo ≡ some text)
    × (text ≢ "")
    × ((upper (strip_0x text) ≡ o.invoice_binding_hash id) ⊎ (o.memo_text text ≡ id))

abbrev pub HasMemo : Outside → String → List (Option String) → Type 0
HasMemo o id [] = ⊥
HasMemo o id (memo ∷ memos) = IsMemo o id memo ⊎ HasMemo o id memos

-- The invoice is named by the InvoiceID field or by a memo.
abbrev pub IsBound : Outside → TxResult → String → Type 0
IsBound o tx id =
    ((upper (strip_0x (get_or tx.invoice_id "")) ≢ "")
      × (upper (strip_0x (get_or tx.invoice_id "")) ≡ o.invoice_binding_hash id))
    ⊎ HasMemo o id tx.memos

-- The flag of a partial payment, 2 ^ 17, is not set.
abbrev pub IsFull : TxResult → Type 0
IsFull tx = get_or tx.flags 0 / 131072 % 2 ≡ 0

pub record IsSettlement (o : Outside) (tx : TxResult) (q : Requirements) (invoice_id : String)
    : Type 0 where
  pub validated : tx.validated ≡ some true
  pub payment : tx.transaction_type ≡ "Payment"
  pub full : IsFull tx
  pub destination : tx.destination ≡ some q.pay_to
  pub bound : IsBound o tx invoice_id
  covered : IsCovered o tx q

module _ (tx : TxResult) (a : Amount) where
  delivered_amount-IsDelivered : delivered_amount tx ≡ some a → IsDelivered tx a
  unfolding delivered_amount
  delivered_amount-IsDelivered h = elim (Option-cases tx.meta) [
    | inl e ↦ without_meta e (rw (e, delivered_amount) at h)
    | inr (m, e) ↦
        let k = rw (e, delivered_amount) at h in
        elim (Option-cases m.delivered_amount) [
          | inr (b, f) ↦ reported m e (f ∙ (rw f at k))
          | inl f ↦
              let l = rw f at k in
              elim (Option-cases m.delivered_amount_pascal) [
                | inr (b, g) ↦ reported_pascal m e f (g ∙ (rw g at l))
                | inl g ↦ unreported m e f g (rw g at l)
              ]
        ]
  ]

  delivered_of : IsDelivered tx a → delivered_amount tx ≡ some a
  unfolding delivered_amount
  delivered_of (reported m e f) = rw (e, f, delivered_amount) refl
  delivered_of (reported_pascal m e f g) = rw (e, f, g, delivered_amount) refl
  delivered_of (unreported m e f g h) = rw (e, f, g, delivered_amount) h
  delivered_of (without_meta e h) = rw (e, delivered_amount) h

has_issuer_iff :
    (actual quoted : Option String) → (has_issuer actual quoted ≡ true) ↔ IsIssuedBy quoted actual
has_issuer_iff actual none = ((λ h. inl refl), λ h. refl)
has_issuer_iff actual (some want) = elim (Bool-cases (want == "")) [
  | inl e ↦
      let blank = (eq_iff want "").0 e in
      ((λ h. inr (inl (ap some blank))), λ h. rw (blank, has_issuer) refl)
  | inr e ↦ (
    (λ h. elim (Option-cases actual) [
      | inl f ↦ let k = rw (e, f, has_issuer) at h in cc
      | inr (have, f) ↦
          let k = rw (e, f, has_issuer) at h in
          inr (inr (want, refl, f ∙ ap some ((eq_iff have want).0 k)))
    ]),
    λ h. elim h [
      | inl f ↦ cc
      | inr (inl f) ↦ ground (arith, eq_iff want "")
      | inr (inr (issuer, f, g)) ↦ ground (arith, eq_refl issuer)
    ],
  )
]

module _ (o : Outside) (q : Requirements) (a : IssuedAmount) where
  issued_matches-parts :
      issued_matches o (some (issued a)) q.amount q.issuer ≡ true
      → IsRlusd (get_or a.currency "")
        × IsIssuedBy q.issuer a.issuer
        × (o.covers (get_or a.value "") q.amount ≡ true)
  unfolding issued_matches upper
  issued_matches-parts h =
      let c = upper (get_or a.currency "") in
      (
        elim (Bool-cases (c == "RLUSD")) [
          | inl e ↦ inl ((eq_iff c "RLUSD").0 e)
          | inr e ↦ inr ((eq_iff c "524C555344000000000000000000000000000000").0 (ground arith))
        ],
        (has_issuer_iff a.issuer q.issuer).0 (ground arith),
        ground arith,
      )

  parts-issued_matches :
      IsRlusd (get_or a.currency "")
      → IsIssuedBy q.issuer a.issuer
      → o.covers (get_or a.value "") q.amount ≡ true
      → issued_matches o (some (issued a)) q.amount q.issuer ≡ true
  unfolding issued_matches upper
  parts-issued_matches (inl e) i v =
      let k = (has_issuer_iff a.issuer q.issuer).1 i in
      let f = (eq_iff (upper (get_or a.currency "")) "RLUSD").1 e in ground arith
  parts-issued_matches (inr e) i v =
      let k = (has_issuer_iff a.issuer q.issuer).1 i in
      let f =
        (eq_iff (upper (get_or a.currency "")) "524C555344000000000000000000000000000000").1 e in
      ground arith

compare_drops_parts :
    (a b : Option ℕ)
    → compare_drops a b ≡ none
    → (drops : ℕ) × (need : ℕ) × (a ≡ some drops) × (b ≡ some need) × (need ≤ drops)
unfolding compare_drops
compare_drops_parts (some a) (some b) h = (a, b, refl, refl, ground arith)
compare_drops_parts none b h = cc
compare_drops_parts (some a) none h = cc

parts_compare_drops :
    (a b : Option ℕ) (drops need : ℕ)
    → a ≡ some drops
    → b ≡ some need
    → need ≤ drops
    → compare_drops a b ≡ none
unfolding compare_drops
parts_compare_drops a b drops need e f g = rw (e, f, compare_drops) (ground arith)

-- The branch that an accepted amount came through.
chosen :
    (b : Bool) (x y : Option LedgerError)
    → (if b then x else y) ≡ none
    → ((b ≡ true) × (x ≡ none)) ⊎ ((b ≡ false) × (y ≡ none))
chosen true x y h = inl (refl, h)
chosen false x y h = inr (refl, h)

-- Only an amount of drops has a text that is a number.
drops_of :
    (a : Option Amount) (n : ℕ)
    → decimal (native_drops a) ≡ some n
    → (text : String) × (a ≡ some (native text)) × (decimal text ≡ some n)
unfolding decimal
drops_of none n h = cc
drops_of (some (native text)) n h = (text, refl, h)
drops_of (some (issued a)) n h = cc

issued_of :
    (o : Outside) (a : Option Amount) (amount : String) (issuer : Option String)
    → issued_matches o a amount issuer ≡ true
    → (x : IssuedAmount) × (a ≡ some (issued x))
unfolding issued_matches
issued_of o none amount issuer h = cc
issued_of o (some (native text)) amount issuer h = cc
issued_of o (some (issued x)) amount issuer h = (x, refl)

module _ (o : Outside) (tx : TxResult) (q : Requirements) where
  amount_error-IsCovered : amount_error o tx q ≡ none → IsCovered o tx q
  unfolding amount_error
  amount_error-IsCovered h = elim (chosen (q.asset == "XRP") _ _ h) [
    | inl (xrp, e) ↦
        let (drops, need, f, g, enough) = compare_drops_parts _ _ e in
        let (text, delivered, digits) = drops_of (delivered_amount tx) drops f in
        in_drops text drops need ((eq_iff q.asset "XRP").0 xrp)
          (delivered_amount-IsDelivered tx (native text) delivered) digits g enough
    | inr (other, e) ↦
        elim (chosen (issued_matches o (delivered_amount tx) q.amount q.issuer) none _ e) [
          | inl (fits, _) ↦
              let (a, delivered) = issued_of o (delivered_amount tx) q.amount q.issuer fits in
              let (currency, issuer, value) = issued_matches-parts o q a (rw delivered at fits) in
              in_rlusd a (λ same. cc ((eq_iff q.asset "XRP").1 same))
                (delivered_amount-IsDelivered tx (issued a) delivered) currency issuer value
          | inr (_, f) ↦ cc
        ]
  ]

  covered-amount_error : IsCovered o tx q → amount_error o tx q ≡ none
  unfolding amount_error
  covered-amount_error (in_drops text drops need xrp delivered digits quoted enough) =
      rw ((eq_iff q.asset "XRP").1 xrp, delivered_of tx (native text) delivered, amount_error)
        (parts_compare_drops _ _ drops need digits quoted enough)
  covered-amount_error (in_rlusd a other delivered currency issuer value) =
      let fits = parts-issued_matches o q a currency issuer value in
      rw (delivered_of tx (issued a) delivered, amount_error)
        (ground (arith, fits, other, eq_iff q.asset "XRP"))

  memo_iff :
      (expected id : String) (memos : List (Option String))
      → o.invoice_binding_hash id ≡ expected
      → (memo_bound o.memo_text expected id memos ≡ true) ↔ HasMemo o id memos
  unfolding memo_bound
  memo_iff expected id [] e = ((λ h. cc), λ h. absurd h)
  memo_iff expected id (none ∷ memos) e =
      let rest = memo_iff expected id memos e in
      ((λ h. inr (rest.0 h)), λ h. elim h [ inl (text, f, g, k) ↦ cc | inr k ↦ rest.1 k ])
  memo_iff expected id (some text ∷ memos) e =
      let rest = memo_iff expected id memos e in
      let blank = eq_iff text "" in
      let by_hash = eq_iff (upper (strip_0x text)) expected in
      let by_text = eq_iff (o.memo_text text) id in
      (
        (λ h. elim (Bool-cases (text == "")) [
          | inl f ↦ inr (rest.0 (ground arith))
          | inr f ↦ elim (Bool-cases (upper (strip_0x text) == expected)) [
            | inl g ↦ inl (text, refl, (λ s. cc (blank.1 s)), inl (by_hash.0 g ∙ sym e))
            | inr g ↦ elim (Bool-cases (o.memo_text text == id)) [
              | inl k ↦ inl (text, refl, (λ s. cc (blank.1 s)), inr (by_text.0 k))
              | inr k ↦ inr (rest.0 (ground arith))
            ]
          ]
        ]),
        λ h. elim h [
          | inr k ↦ let l = rest.1 k in ground arith
          | inl (t, f, g, inl k) ↦ ground (arith, f)
          | inl (t, f, g, inr k) ↦ ground (arith, f)
        ],
      )

  invoice_bound_on_tx_iff : (id : String) → (invoice_bound_on_tx o tx id ≡ true) ↔ IsBound o tx id
  unfolding invoice_bound_on_tx
  invoice_bound_on_tx_iff id =
      let field = upper (strip_0x (get_or tx.invoice_id "")) in
      let memos = memo_iff (o.invoice_binding_hash id) id tx.memos refl in
      let blank = eq_iff field "" in
      let same = eq_iff field (o.invoice_binding_hash id) in
      (
        (λ h. elim (Bool-cases (field == "")) [
          | inl e ↦ inr (memos.0 (ground arith))
          | inr e ↦ elim (Bool-cases (field == o.invoice_binding_hash id)) [
            | inl f ↦ inl ((λ s. cc (blank.1 s)), same.0 f)
            | inr f ↦ inr (memos.0 (ground arith))
          ]
        ]),
        λ h. elim h [ inl (e, f) ↦ ground arith | inr k ↦ let l = memos.1 k in ground arith ],
      )

  goes_to-eq : goes_to tx q.pay_to ≡ true → tx.destination ≡ some q.pay_to
  goes_to-eq h = elim (Option-cases tx.destination) [
    | inl e ↦ ground arith
    | inr (d, e) ↦ ground (arith, eq_iff d q.pay_to)
  ]

  assert_settled_sound :
      (invoice_id : String)
      → assert_settled_xrpl_payment o tx q invoice_id ≡ none
      → IsSettlement o tx q invoice_id
  unfolding assert_settled_xrpl_payment
  assert_settled_sound invoice_id h = record {
    validated = ground arith;
    payment = ground (arith, eq_iff tx.transaction_type "Payment");
    full = ground arith;
    destination = goes_to-eq (ground arith);
    bound = (invoice_bound_on_tx_iff invoice_id).0 (ground arith);
    covered = amount_error-IsCovered (ground arith);
  }

  assert_settled_complete :
      (invoice_id : String)
      → IsSettlement o tx q invoice_id
      → assert_settled_xrpl_payment o tx q invoice_id ≡ none
  unfolding assert_settled_xrpl_payment
  assert_settled_complete invoice_id s = ground (
    arith,
    s.validated,
    s.payment,
    s.full,
    s.destination,
    (invoice_bound_on_tx_iff invoice_id).1 s.bound,
    covered-amount_error s.covered,
    eq_iff tx.transaction_type "Payment",
    eq_refl q.pay_to,
  )

-- The check accepts a transaction exactly if it is a validated Payment without the partial flag, to the
-- quoted address, that names the invoice in its InvoiceID field or in a memo, and that delivered, by
-- its metadata if they report it, at least the quoted drops of XRP, or for a quote in another asset
-- an amount of RLUSD of the quoted issuer, if one is quoted, whose value covers the quoted one.
pub assert_settled_xrpl_payment_iff :
    (o : Outside) (tx : TxResult) (q : Requirements) (invoice_id : String)
    → (assert_settled_xrpl_payment o tx q invoice_id ≡ none) ↔ IsSettlement o tx q invoice_id
assert_settled_xrpl_payment_iff o tx q invoice_id =
    (assert_settled_sound o tx q invoice_id, assert_settled_complete o tx q invoice_id)
