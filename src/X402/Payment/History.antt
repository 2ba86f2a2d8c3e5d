-- ===== src/X402/Payment/History.antt =====
-- src/x402-service.ts: over any history of requests, marks, quotes and restarts a paid invoice is
-- settled no second time.
use xrplink.Prelude.{
  ℕ, ◌+◌, String, ◌≡◌, refl, ◌∙◌, ◌≢◌, ◌⊎◌, inl, inr, true, false, Option, none, some, List, [],
  ◌∷◌, arith, ◌==◌, eq_iff, if◌then◌else◌, Bool-cases, Option-cases, All,
}
use mathlib.Core.List
use xrplink.Dict
use xrplink.Dict.{get-set}
use xrplink.X402.Marks.{mark, mark_payment_fdc_ok, mark_payment_fdc_failed}
use xrplink.X402.Quotes.{build_payment_required, extract_invoice_id, quoted_record}
use xrplink.X402.{
  AttestationPrice, get_pay_to_address, reload, AttestationPrice, Requirements, StoredQuote,
  PaymentStatus, quoted, fdc_ok, fdc_failed, PaymentRecord, Payload, Memory, SettledEvent, State,
  StateRead, intact, Save, saved, save_failed, SettleReply, Config, Outside, pruned,
  persist_unlocked, reload, get_pay_to_address,
}
use xrplink.X402.Quotes.{build_payment_required, extract_invoice_id, quoted_record}
use xrplink.X402.Marks.{mark_payment_fdc_ok, mark_payment_fdc_failed}
use xrplink.X402.Payment.{
  Run, settled_memory, commit_settlement, process_x402_payment_locked, process_x402_payment,
}
use xrplink.X402.Facilitator.{settled_record, settled_event}
use xrplink.X402.Payment.Once.{is_quoted, paid_record, is_paid, process_x402_payment_locked-paid}
use xrplink.X402.Payment.Keeps.{process_locked-keeps}

pub Save-cases : (fate : Save) → (fate ≡ saved) ⊎ ((m : String) × (fate ≡ save_failed m))
Save-cases saved = inl refl
Save-cases (save_failed m) = inr (m, refl)

-- The settlements of the invoice in the ledger file.
unfoldable pub settlements_of : String → List SettledEvent → ℕ
settlements_of id [] = 0
settlements_of id (e ∷ events) = (if e.invoice_id == id then 1 else 0) + settlements_of id events

pub settlements_of-append :
    (id : String) (events more : List SettledEvent)
    → settlements_of id (List.◌++◌ events more) ≡ settlements_of id events + settlements_of id more
unfolding settlements_of
settlements_of-append id [] more = omega arith
settlements_of-append id (e ∷ events) more = omega (arith, settlements_of-append id events more)

-- One event of the invoice counts once.
pub own : (id : String) (e : SettledEvent) → e.invoice_id ≡ id → settlements_of id (e ∷ []) ≡ 1
unfolding settlements_of
own id e same = ground (arith, eq_iff e.invoice_id id)

foreign : (id : String) (e : SettledEvent) → e.invoice_id ≢ id → settlements_of id (e ∷ []) ≡ 0
unfolding settlements_of
foreign id e other = ground (arith, eq_iff e.invoice_id id)

-- Paid in memory and in the file, and the ledger file shows `n` settlements.
pub record IsPaid (id : String) (n : ℕ) (s : State) : Type 0 where
  pub in_memory : is_paid id s.memory ≡ true
  pub on_disk : is_paid id s.disk ≡ true
  pub counted : settlements_of id s.ledger ≡ n

module _ (cfg : Config) (id : String) (n : ℕ) where
  pruned-IsPaid : (now : ℕ) (s : State) → IsPaid id n s → IsPaid id n (pruned cfg now s)
  pruned-IsPaid now s h = record {
    in_memory = h.in_memory;
    on_disk = h.on_disk;
    counted = h.counted;
  }

  persist-IsPaid :
      (now : ℕ) (fate : Save) (s : State)
      → IsPaid id n s
      → IsPaid id n (persist_unlocked cfg now fate s).1
  unfolding persist_unlocked
  persist-IsPaid now saved s h = record {
    in_memory = h.in_memory;
    on_disk = h.in_memory;
    counted = h.counted;
  }
  persist-IsPaid now (save_failed m) s h = record {
    in_memory = h.in_memory;
    on_disk = h.on_disk;
    counted = h.counted;
  }

  reload-IsPaid : (now : ℕ) (s : State) → IsPaid id n s → IsPaid id n (reload cfg intact now s)
  unfolding reload
  reload-IsPaid now s h = record { in_memory = h.on_disk; on_disk = h.on_disk; counted = h.counted }

  -- A record that is not `quoted`, written for any invoice, leaves the paid ones paid.
  is_paid-set :
      (j : String) (rec : PaymentRecord) (m : Memory)
      → (is_quoted rec.status ≡ false) ⊎ (j ≢ id)
      → is_paid id m ≡ true
      → paid_record (Dict.get (Dict.set m.payments j rec) id) ≡ true
  is_paid-set j rec m (inl past) h = ground (arith, get-set m.payments j id rec)
  is_paid-set j rec m (inr other) h = ground (arith, get-set m.payments j id rec, eq_iff j id)

  settled_memory-IsPaid :
      (o : Outside) (run : Run) (fp expected j : String) (reply : SettleReply) (q : Requirements)
      (rec : Option PaymentRecord) (s : State)
      → IsPaid id n s
      → IsPaid id n (settled_memory o cfg run fp expected j reply q rec s)
  settled_memory-IsPaid o run fp expected j reply q rec s h = record {
    in_memory =
        is_paid-set j (settled_record j expected reply q rec run.later) s.memory (inl refl)
          h.in_memory;
    on_disk = h.on_disk;
    counted = h.counted;
  }

  commit-IsPaid :
      (o : Outside) (run : Run) (fp expected j : String) (reply : SettleReply) (q : Requirements)
      (quote : StoredQuote) (rec : Option PaymentRecord) (s : State)
      → j ≢ id
      → IsPaid id n s
      → IsPaid id n (commit_settlement o cfg run fp expected j reply q quote rec s).1
  unfolding commit_settlement
  commit-IsPaid o run fp expected j reply q quote rec s other h =
      let paid = settled_memory o cfg run fp expected j reply q rec s in
      let t = persist_unlocked cfg run.later run.save paid in
      let k =
        persist-IsPaid run.later run.save paid
          (settled_memory-IsPaid o run fp expected j reply q rec s h) in
      elim (Option-cases t.0) [
        | inr (m, e) ↦ rw (e, commit_settlement) k
        | inl e ↦ elim (Save-cases run.ledger_save) [
          | inr (m, f) ↦ rw (e, f, commit_settlement) k
          | inl f ↦
              rw (e, f, commit_settlement)
                (record {
                  in_memory = k.in_memory;
                  on_disk = k.on_disk;
                  counted =
                      settlements_of-append id t.1.ledger
                        (settled_event o j run.later q quote.price reply ∷ [])
                      ∙ omega (
                        arith,
                        foreign id (settled_event o j run.later q quote.price reply) other,
                        k.counted,
                      );
                })
        ]
      ]

-- What can happen to the service.
pub data Event : Type 0 where
  request : Run → String → String → Event
  quote_for : Option AttestationPrice → String → String → ℕ → Save → Event
  attested : String → ℕ → Save → Event
  not_attested : String → ℕ → Save → Event
  restart : StateRead → ℕ → Event

-- A quote takes an invoice id of its own, and a restart can read the state file.
abbrev pub IsFresh : String → Event → Type 0
IsFresh id (quote_for price j tx_hash now fate) = j ≢ id
IsFresh id (request run signature tx_hash) = Unit
IsFresh id (attested j now fate) = Unit
IsFresh id (not_attested j now fate) = Unit
IsFresh id (restart read now) = read ≡ intact

module _ (j id : String) (m : Memory) (same : j ≡ id) where
  unpaid : Dict.get m.payments j ≡ none → is_paid id m ≡ true → ⊥
  unpaid e h = ground arith

  past :
      {rec : PaymentRecord}
      → Dict.get m.payments j ≡ some rec
      → is_paid id m ≡ true
      → rec.status ≢ quoted
  past e h = λ q. ground arith

module _ (o : Outside) (cfg : Config) where
  unfoldable pub step : Event → State → State
  step (request run signature tx_hash) s = (process_x402_payment o cfg run signature tx_hash s).1
  step (quote_for price id tx_hash now fate) s =
      (build_payment_required cfg price id tx_hash now fate s).1
  step (attested id now fate) s = (mark_payment_fdc_ok cfg id now fate s).1
  step (not_attested id now fate) s = (mark_payment_fdc_failed cfg id now fate s).1
  step (restart read now) s = reload cfg read now s

  unfoldable pub history : List Event → State → State
  history [] s = s
  history (e ∷ events) s = history events (step e s)

  module _ (id : String) (n : ℕ) where
    locked-IsPaid :
        (run : Run) (signature expected : String) (payload : Payload) (j : String) (s : State)
        → IsPaid id n s
        → IsPaid id n (process_x402_payment_locked o cfg run signature expected payload j s).1
    locked-IsPaid run signature expected payload j s h = elim (Bool-cases (j == id)) [
      | inl same ↦
          let at_id = (eq_iff j id).0 same in
          elim (Option-cases (Dict.get s.payments j)) [
            | inl e ↦ absurd (unpaid j id s.memory at_id e h.in_memory)
            | inr (rec, e) ↦
                rw
                  (process_x402_payment_locked-paid o cfg run signature expected payload j rec s e
                    (past j id s.memory at_id e h.in_memory))
                  h
          ]
      | inr other ↦
          process_locked-keeps o cfg run j (IsPaid id n) (λ r. IsPaid id n r.1) (λ r t _ k. k)
            (λ c t k. record { in_memory = k.in_memory; on_disk = k.on_disk; counted = k.counted })
            (pruned-IsPaid cfg id n)
            (λ fp expected reply q quote rec t k.
              commit-IsPaid cfg id n o run fp expected j reply q quote rec t
                (λ e. cc ((eq_iff j id).1 e, other)) k)
            signature expected payload s h
    ]

    mark-IsPaid :
        (status : PaymentStatus) (j : String) (now : ℕ) (fate : Save) (s : State)
        → is_quoted status ≡ false
        → IsPaid id n s
        → IsPaid id n (mark status cfg j now fate s).1
    unfolding mark
    mark-IsPaid status j now fate s past h = elim (Option-cases (Dict.get s.payments j)) [
      | inl e ↦ rw (e, mark) h
      | inr (rec, e) ↦
          rw (e, mark)
            (persist-IsPaid cfg id n now fate _ (record {
              in_memory =
                  is_paid-set cfg id n j (record rec { status = status; updated_at = now }) s.memory
                    (inl past) h.in_memory;
              on_disk = h.on_disk;
              counted = h.counted;
            }))
    ]

    build-IsPaid :
        (price : Option AttestationPrice) (j tx_hash : String) (now : ℕ) (fate : Save) (s : State)
        → j ≢ id
        → IsPaid id n s
        → IsPaid id n (build_payment_required cfg price j tx_hash now fate s).1
    unfolding build_payment_required
    build-IsPaid none j tx_hash now fate s other h =
        elim (Bool-cases (get_pay_to_address cfg == "")) [
          | inl e ↦ rw (e, build_payment_required) h
          | inr e ↦ rw (e, build_payment_required) h
        ]
    build-IsPaid (some p) j tx_hash now fate s other h =
        elim (Bool-cases (get_pay_to_address cfg == "")) [
          | inl e ↦ rw (e, build_payment_required) h
          | inr e ↦
              rw (e, build_payment_required)
                (persist-IsPaid cfg id n now fate _ (record {
                  in_memory =
                      is_paid-set cfg id n j (quoted_record j tx_hash now) s.memory (inr other)
                        h.in_memory;
                  on_disk = h.on_disk;
                  counted = h.counted;
                }))
        ]

    request-IsPaid :
        (run : Run) (signature expected : String) (s : State)
        → IsPaid id n s
        → IsPaid id n (process_x402_payment o cfg run signature expected s).1
    unfolding process_x402_payment
    request-IsPaid run signature expected s h = elim (Option-cases (o.decode signature)) [
      | inl e ↦ rw (e, process_x402_payment) h
      | inr (payload, e) ↦
          rw (e, process_x402_payment)
            (elim (Option-cases (extract_invoice_id payload)) [
              | inl f ↦ rw f h
              | inr (j, f) ↦ rw f (locked-IsPaid run signature expected payload j s h)
            ])
    ]

    step-IsPaid : (e : Event) (s : State) → IsFresh id e → IsPaid id n s → IsPaid id n (step e s)
    unfolding step mark_payment_fdc_ok mark_payment_fdc_failed
    step-IsPaid (request run signature expected) s fresh h =
        request-IsPaid run signature expected s h
    step-IsPaid (quote_for price j tx_hash now fate) s fresh h =
        build-IsPaid price j tx_hash now fate s fresh h
    step-IsPaid (attested j now fate) s fresh h = mark-IsPaid fdc_ok j now fate s refl h
    step-IsPaid (not_attested j now fate) s fresh h = mark-IsPaid fdc_failed j now fate s refl h
    step-IsPaid (restart read now) s fresh h = rw fresh (reload-IsPaid cfg id n now s h)

    -- From a state where the invoice is paid in memory and in the state file, no history of requests
    -- with whatever signatures, quotes for other invoices, marks and restarts that can read the state
    -- file, and with whatever file writes that fail, makes it unpaid or settles it again.
    pub history-IsPaid :
        (events : List Event) (s : State)
        → All (IsFresh id) events
        → IsPaid id n s
        → IsPaid id n (history events s)
    unfolding history
    history-IsPaid [] s fresh h = h
    history-IsPaid (e ∷ events) s (first, fresh) h =
        history-IsPaid events (step e s) fresh (step-IsPaid e s first h)
