-- ===== src/Ledger/Counting.antt =====
-- src/x402-ledger.ts: sums over days against sums over events.
use xrplink.Ledger.Days.{times, times-sort_days, occurs, times-days_in}
use xrplink.Ledger.{
  LedgerEvent, quote, settled, day_of, in_range, before, add_day, days_in, insert_day, sort_days,
}
use xrplink.Prelude.{
  ℕ, ◌+◌, String, ◌≡◌, refl, sym, ap, ◌∙◌, ◌≢◌, inl, inr, Bool, true, false, ◌&&◌, Option, List, [],
  ◌∷◌, arith, ◌==◌, eq_iff, eq_refl, if◌then◌else◌, Bool-cases, any, All, concat,
}

-- Numbers of events, of one kind or the other.
abbrev pub is_quote : LedgerEvent → Bool
is_quote (quote e) = true
is_quote (settled e) = false

abbrev pub count_where : (LedgerEvent → Bool) → List LedgerEvent → ℕ
count_where p [] = 0
count_where p (e ∷ events) = (if p e then 1 else 0) + count_where p events

-- The sum over days of the events of each day counts an event once for each time that its day is
-- there.
unfoldable pub sum_days : (LedgerEvent → Bool) → List LedgerEvent → List String → ℕ
sum_days p events [] = 0
sum_days p events (d ∷ days) =
    count_where (λ e. p e && (day_of e == d)) events + sum_days p events days

pub weight : (LedgerEvent → Bool) → List String → LedgerEvent → ℕ
weight p days e = if p e then times (day_of e) days else 0

pub weights : (LedgerEvent → Bool) → List String → List LedgerEvent → ℕ
weights p days [] = 0
weights p days (e ∷ events) = weight p days e + weights p days events

weights-nil : (p : LedgerEvent → Bool) (events : List LedgerEvent) → weights p [] events ≡ 0
unfolding weights weight times
weights-nil p [] = refl
weights-nil p (e ∷ events) = ground (arith, weights-nil p events)

weights-cons :
    (p : LedgerEvent → Bool) (d : String) (days : List String) (events : List LedgerEvent)
    → weights p (d ∷ days) events
      ≡ count_where (λ e. p e && (day_of e == d)) events + weights p days events
unfolding weights weight times
weights-cons p d days [] = refl
weights-cons p d days (e ∷ events) =
    ground (arith, weights-cons p d days events, eq_iff d (day_of e), eq_iff (day_of e) d)

pub sum_days-eq-weights :
    (p : LedgerEvent → Bool) (events : List LedgerEvent) (days : List String)
    → sum_days p events days ≡ weights p days events
unfolding sum_days
sum_days-eq-weights p events [] = sym (weights-nil p events)
sum_days-eq-weights p events (d ∷ days) =
    ap (λ n. count_where (λ e. p e && (day_of e == d)) events + n)
      (sum_days-eq-weights p events days)
    ∙ sym (weights-cons p d days events)

pub occurs_self :
    (events later : List LedgerEvent)
    → ((d : String) → occurs d later ≡ true → occurs d events ≡ true)
    → All (λ e. occurs (day_of e) events ≡ true) later
unfolding occurs
occurs_self events [] inside = tt
occurs_self events (e ∷ later) inside = (
  inside (day_of e) (rw (eq_refl (day_of e)) refl),
  occurs_self events later (λ d h. inside d (ground (arith))),
)

-- A date that is not empty.
abbrev pub IsDated : LedgerEvent → Type 0
IsDated e = day_of e ≢ ""

All-end :
    (P : String → Type 0) (x : String) (xs : List String)
    → P x
    → All P xs
    → All P (concat xs (x ∷ []))
All-end P x [] h p = (h, tt)
All-end P x (y ∷ xs) h p = (p.0, All-end P x xs h p.1)

choose :
    (b : Bool) (xs ys : List String)
    → All (λ d. d ≢ "") xs
    → All (λ d. d ≢ "") ys
    → All (λ d. d ≢ "") (if b then xs else ys)
choose true xs ys p q = p
choose false xs ys p q = q

pub times-nil : (d : String) → times d [] ≡ 0
unfolding times
times-nil d = refl

add_day-named :
    (day : String) (days : List String)
    → day ≢ ""
    → All (λ d. d ≢ "") days
    → All (λ d. d ≢ "") (add_day day days)
add_day-named day days h p = elim (Bool-cases (any (λ d. d == day) days)) [
  | inl e ↦ rw (e, add_day) p
  | inr e ↦ rw (e, add_day) (All-end (λ d. d ≢ "") day days h p)
]

module _ (from_date to_date : Option String) where
  pub days_in-named :
      (events : List LedgerEvent) (days : List String)
      → All IsDated events
      → All (λ d. d ≢ "") days
      → All (λ d. d ≢ "") (days_in from_date to_date events days)
  unfolding days_in
  days_in-named [] days dated p = p
  days_in-named (e ∷ events) days dated p = days_in-named events _ dated.1 (
      choose (in_range from_date to_date (day_of e)) (add_day (day_of e) days) days
        (add_day-named (day_of e) days dated.0 p) p)

  pub weights-days :
      (p : LedgerEvent → Bool) (events later : List LedgerEvent)
      → All (λ e. occurs (day_of e) events ≡ true) later
      → weights p (sort_days (days_in from_date to_date events [])) later
        ≡ count_where (λ e. p e && in_range from_date to_date (day_of e)) later
  unfolding weights weight
  weights-days p events [] h = refl
  weights-days p events (e ∷ later) h = ground (
    arith,
    weights-days p events later h.1,
    times-sort_days (day_of e) (days_in from_date to_date events []),
    times-days_in from_date to_date (day_of e) events [] (λ y. omega (arith, times-nil y)),
    times-nil (day_of e),
  )

insert_day-named :
    (x : String) (days : List String)
    → x ≢ ""
    → All (λ d. d ≢ "") days
    → All (λ d. d ≢ "") (insert_day x days)
unfolding insert_day
insert_day-named x [] h p = (h, tt)
insert_day-named x (y ∷ days) h p =
    choose (before y x) (y ∷ insert_day x days) (x ∷ (y ∷ days))
      (p.0, insert_day-named x days h p.1) (h, p)

pub sort_days-named :
    (days : List String) → All (λ d. d ≢ "") days → All (λ d. d ≢ "") (sort_days days)
unfolding sort_days
sort_days-named [] p = tt
sort_days-named (x ∷ days) p = insert_day-named x (sort_days days) p.0 (sort_days-named days p.1)
