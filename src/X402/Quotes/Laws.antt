-- ===== src/X402/Quotes/Laws.antt =====
-- src/x402-service.ts: which quotes are found, and what a payload is matched to.
use xrplink.Prelude.{
  ℕ, ◌+◌, ◌≤◌, String, ◌≡◌, refl, inl, inr, false, none, some, [], ◌∷◌, arith, ◌==◌, eq_iff,
  eq_refl, leb, if◌then◌else◌, Bool-cases, All,
}
use xrplink.Dict
use xrplink.Dict.{get-set, Dict}
use xrplink.X402.{
  AttestationPrice, StoredQuote, State, Save, saved, save_failed, Config, get_pay_to_address,
  is_expired, prune_quotes, persist_unlocked,
}
use xrplink.X402.Quotes.{accepts_for, build_payment_required, get_quote}

-- Every entry under the id holds this quote.
abbrev IsSole : String → StoredQuote → Dict StoredQuote → Type 0
IsSole id q quotes = All (λ e. e.0 ≡ id → e.1 ≡ q) quotes

module _ (cfg : Config) (id : String) (q : StoredQuote) where
  set-IsSole :
      (quotes : Dict StoredQuote) → Dict.get quotes id ≡ none → IsSole id q (Dict.set quotes id q)
  unfolding Dict.get Dict.set
  set-IsSole [] e = ((λ _. refl), tt)
  set-IsSole ((j, r) ∷ quotes) e = elim (Bool-cases (j == id)) [
    | inl same ↦ let k = rw same at e in cc
    | inr other ↦
        rw other ((λ same. cc ((eq_iff j id).1 same, other)), set-IsSole quotes (rw other at e))
  ]

  prune-IsSole :
      (now : ℕ) (quotes : Dict StoredQuote)
      → IsSole id q quotes
      → IsSole id q (prune_quotes cfg now quotes)
  unfolding prune_quotes
  prune-IsSole now [] h = tt
  prune-IsSole now ((j, r) ∷ quotes) (h, hs) = elim (Bool-cases (is_expired cfg now r)) [
    | inl old ↦ rw old (prune-IsSole now quotes hs)
    | inr young ↦ rw young (h, prune-IsSole now quotes hs)
  ]

  -- Pruning drops the quote exactly if it has expired.
  get-prune :
      (now : ℕ) (quotes : Dict StoredQuote)
      → IsSole id q quotes
      → Dict.get (prune_quotes cfg now quotes) id
        ≡ (if is_expired cfg now q then none else Dict.get quotes id)
  unfolding prune_quotes Dict.get
  get-prune now [] h = ground arith
  get-prune now ((j, r) ∷ quotes) (h, hs) = elim (Bool-cases (j == id)) [
    | inl same ↦ rw (h ((eq_iff j id).0 same)) (ground (arith, same, get-prune now quotes hs))
    | inr other ↦ ground (arith, other, get-prune now quotes hs)
  ]

-- A quote that is found has not expired.
get_quote_fresh :
    (cfg : Config) (id : String) (now : ℕ) (s : State) (q : StoredQuote)
    → (get_quote cfg id now s).0 ≡ some q
    → now ≤ q.created_at + cfg.quote_ttl_ms
unfolding get_quote
get_quote_fresh cfg id now s q h = ground arith

abbrev pub quote_of : Config → AttestationPrice → String → String → ℕ → StoredQuote
quote_of cfg p id tx_hash now = record {
  invoice_id = id;
  tx_hash = tx_hash;
  accepts = accepts_for cfg p id tx_hash;
  price = p;
  created_at = now;
}

quotes-persist :
    (cfg : Config) (now : ℕ) (fate : Save) (s : State)
    → (persist_unlocked cfg now fate s).1.quotes ≡ prune_quotes cfg now s.quotes
unfolding persist_unlocked
quotes-persist cfg now saved s = refl
quotes-persist cfg now (save_failed m) s = refl

module _ (cfg : Config) (p : AttestationPrice) (id tx_hash : String) (now : ℕ) (fate : Save)
    (s : State) (named : get_pay_to_address cfg == "" ≡ false) where
  abbrev q : StoredQuote
  q = quote_of cfg p id tx_hash now

  quotes-build :
      (build_payment_required cfg (some p) id tx_hash now fate s).1.quotes
      ≡ prune_quotes cfg now (Dict.set s.quotes id q)
  unfolding build_payment_required
  quotes-build = rw (named, build_payment_required) (quotes-persist cfg now fate _)

  -- A quote under a new id is found until its time to live is over, and not after.
  get_quote-build :
      (later : ℕ)
      → Dict.get s.quotes id ≡ none
      → (get_quote cfg id later (build_payment_required cfg (some p) id tx_hash now fate s).1).0
        ≡ (if leb later (now + cfg.quote_ttl_ms) then some q else none)
  unfolding get_quote
  get_quote-build later new =
      let here : Dict.get (Dict.set s.quotes id q) id ≡ some q =
        ground (arith, get-set s.quotes id id q, eq_refl id) in
      let sole = set-IsSole cfg id q s.quotes new in
      rw (quotes-build, get_quote)
        (ground (
          arith,
          here,
          get-prune cfg id q now (Dict.set s.quotes id q) sole,
          get-prune cfg id q later (prune_quotes cfg now (Dict.set s.quotes id q))
              (prune-IsSole cfg id q now (Dict.set s.quotes id q) sole),
        ))
