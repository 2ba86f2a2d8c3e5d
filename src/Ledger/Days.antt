-- ===== src/Ledger/Days.antt =====
-- src/x402-ledger.ts: the days of a range, each once.
use xrplink.Ledger.{LedgerEvent, day_of, in_range, add_day, days_in, insert_day, sort_days}
use xrplink.Prelude.{
  ℕ, ◌+◌, ◌≤◌, String, ◌≡◌, refl, ap, ◌∙◌, inl, inr, Bool, true, false, ◌&&◌, ◌||◌, Option, List,
  [], ◌∷◌, arith, ◌==◌, eq_iff, if◌then◌else◌, Bool-cases, any, concat,
}

-- How often a day is in a list.
unfoldable pub times : String → List String → ℕ
times d [] = 0
times d (x ∷ days) = (if x == d then 1 else 0) + times d days

times-concat :
    (d x : String) (days : List String)
    → times d (concat days (x ∷ [])) ≡ times d days + (if x == d then 1 else 0)
unfolding times
times-concat d x [] = ground arith
times-concat d x (y ∷ days) = omega (arith, times-concat d x days)

-- A day that the set has is in it, and one that it has not is not.
times-any : (d : String) (days : List String) → any (λ y. y == d) days ≡ true → 1 ≤ times d days
unfolding times
times-any d [] h = cc
times-any d (y ∷ days) h = ground (arith, times-any d days)

times-not-any :
    (d : String) (days : List String) → any (λ y. y == d) days ≡ false → times d days ≡ 0
unfolding times
times-not-any d [] h = refl
times-not-any d (y ∷ days) h = ground (arith, times-not-any d days)

times-add_day :
    (d x : String) (days : List String)
    → ((y : String) → times y days ≤ 1)
    → times d (add_day x days) ≡ (if x == d then 1 else times d days)
times-add_day d x days once = elim (Bool-cases (any (λ y. y == x) days)) [
  | inl e ↦ rw e (ground (arith, once x, times-any x days e, eq_iff x d))
  | inr e ↦ rw e (ground (arith, times-concat d x days, times-not-any x days e, eq_iff x d))
]

times-insert_day :
    (d x : String) (days : List String)
    → times d (insert_day x days) ≡ (if x == d then 1 else 0) + times d days
unfolding times insert_day
times-insert_day d x [] = refl
times-insert_day d x (y ∷ days) = ground (arith, times-insert_day d x days)

pub times-sort_days : (d : String) (days : List String) → times d (sort_days days) ≡ times d days
unfolding times sort_days
times-sort_days d [] = refl
times-sort_days d (x ∷ days) =
    times-insert_day d x (sort_days days)
    ∙ ap (λ n. (if x == d then 1 else 0) + n) (times-sort_days d days)

-- Some event is of the day.
unfoldable pub occurs : String → List LedgerEvent → Bool
occurs d events = any (λ e. day_of e == d) events

either :
    (r a b : Bool) (n : ℕ)
    → ◌≡◌ {A = ℕ} (if r && b then 1 else if r && a then 1 else n) (if r && (a || b) then 1 else n)
either true true b n = ground arith
either true false b n = refl
either false a b n = refl

module _ (from_date to_date : Option String) where
  -- The set after one turn of the loop.
  next_days : LedgerEvent → List String → List String
  next_days e days = if in_range from_date to_date (day_of e) then add_day (day_of e) days else days

  counted :
      (d x : String) (days : List String)
      → ((y : String) → times y days ≤ 1)
      → in_range from_date to_date x ≡ true
      → times d (add_day x days)
        ≡ (if in_range from_date to_date d && (x == d) then 1 else times d days)
  counted d x days once keeps = ground (arith, times-add_day d x days once, eq_iff x d)

  skipped :
      (d x : String) (days : List String)
      → in_range from_date to_date x ≡ false
      → times d days ≡ (if in_range from_date to_date d && (x == d) then 1 else times d days)
  skipped d x days skips = ground (arith, eq_iff x d)

  times-next_days :
      (d : String) (e : LedgerEvent) (days : List String)
      → ((y : String) → times y days ≤ 1)
      → times d (next_days e days)
        ≡ (if in_range from_date to_date d && (day_of e == d) then 1 else times d days)
  unfolding next_days
  times-next_days d e days once =
      let x = day_of e in
      elim (Bool-cases (in_range from_date to_date x)) [
        | inl keeps ↦ rw keeps (counted d x days once keeps)
        | inr skips ↦ rw skips (skipped d x days skips)
      ]

  next_days-once :
      (e : LedgerEvent) (days : List String)
      → ((y : String) → times y days ≤ 1)
      → (y : String) → times y (next_days e days) ≤ 1
  next_days-once e days once y = ground (arith, times-next_days y e days once, once y)

  pub times-days_in :
      (d : String) (events : List LedgerEvent) (days : List String)
      → ((y : String) → times y days ≤ 1)
      → times d (days_in from_date to_date events days)
        ≡ (if in_range from_date to_date d && occurs d events then 1 else times d days)
  unfolding days_in occurs next_days
  times-days_in d [] days once = ground arith
  times-days_in d (e ∷ events) days once =
      let next = next_days e days in
      times-days_in d events next (next_days-once e days once)
      ∙ rw (times-next_days d e days once)
          (either (in_range from_date to_date d) (day_of e == d) (occurs d events) (times d days))
