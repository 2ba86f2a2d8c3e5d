-- ===== src/Ledger/Totals.antt =====
-- src/x402-ledger.ts: the daily sums against the events.
use xrplink.Ledger.Counting.{
  is_quote, count_where, sum_days, sum_days-eq-weights, occurs_self, IsDated, days_in-named,
  weights-days, sort_days-named,
}
use xrplink.X402.{Number}
use xrplink.Ledger.{
  LedgerEvent, quote, settled, LedgerFile, load, day_of, in_range, days_in, sort_days,
  DailyMarginSummary, Tally, tally, get_daily_margin, margins, get_margin_summaries,
}
use xrplink.Prelude.{
  ℕ, ◌+◌, String, ◌≡◌, refl, ◌∙◌, ◌≢◌, not, ◌&&◌, Option, some, List, [], ◌∷◌, arith, ◌==◌,
  truthy_of_ne, keep, All,
}

abbrev pub sum_quotes : List DailyMarginSummary → ℕ
sum_quotes [] = 0
sum_quotes (m ∷ margins') = m.quotes + sum_quotes margins'

abbrev pub sum_settlements : List DailyMarginSummary → ℕ
sum_settlements [] = 0
sum_settlements (m ∷ margins') = m.settlements + sum_settlements margins'

module _ (plus minus : Number → Number → Number) (round_usd : Number → Number)
    (zero_usd : Number) where
  tally-quotes :
      (d : String) (events : List LedgerEvent) (t : Tally)
      → (tally plus minus round_usd zero_usd (keep (λ e. day_of e == d) events) t).quotes
        ≡ t.quotes + count_where (λ e. is_quote e && (day_of e == d)) events
  unfolding tally
  tally-quotes d [] t = omega arith
  tally-quotes d (quote q ∷ events) t =
      ground
        (arith, tally-quotes d events t, tally-quotes d events (record t { quotes = t.quotes + 1 }))
  tally-quotes d (settled s ∷ events) t = ground (
    arith,
    tally-quotes d events t,
    tally-quotes d events (record t {
      settlements = t.settlements + 1;
      revenue_usd = plus t.revenue_usd s.usd;
      flr_cost_usd = plus t.flr_cost_usd s.flr_cost_usd;
    }),
  )

  tally-settlements :
      (d : String) (events : List LedgerEvent) (t : Tally)
      → (tally plus minus round_usd zero_usd (keep (λ e. day_of e == d) events) t).settlements
        ≡ t.settlements + count_where (λ e. not (is_quote e) && (day_of e == d)) events
  unfolding tally
  tally-settlements d [] t = omega arith
  tally-settlements d (quote q ∷ events) t = ground (
    arith,
    tally-settlements d events t,
    tally-settlements d events (record t { quotes = t.quotes + 1 }),
  )
  tally-settlements d (settled s ∷ events) t = ground (
    arith,
    tally-settlements d events t,
    tally-settlements d events (record t {
      settlements = t.settlements + 1;
      revenue_usd = plus t.revenue_usd s.usd;
      flr_cost_usd = plus t.flr_cost_usd s.flr_cost_usd;
    }),
  )

  daily-quotes :
      (today d : String) (file : LedgerFile)
      → d ≢ ""
      → (get_daily_margin plus minus round_usd zero_usd today (some d) file).quotes
        ≡ count_where (λ e. is_quote e && (day_of e == d)) (load file)
  unfolding get_daily_margin
  daily-quotes today d file h = rw (truthy_of_ne d h) (
      omega (
        arith,
        tally-quotes d (load file) (record {
          quotes = 0;
          settlements = 0;
          revenue_usd = zero_usd;
          flr_cost_usd = zero_usd;
        }),
      ))

  daily-settlements :
      (today d : String) (file : LedgerFile)
      → d ≢ ""
      → (get_daily_margin plus minus round_usd zero_usd today (some d) file).settlements
        ≡ count_where (λ e. not (is_quote e) && (day_of e == d)) (load file)
  unfolding get_daily_margin
  daily-settlements today d file h = rw (truthy_of_ne d h) (
      omega (
        arith,
        tally-settlements d (load file) (record {
          quotes = 0;
          settlements = 0;
          revenue_usd = zero_usd;
          flr_cost_usd = zero_usd;
        }),
      ))

  margins-quotes :
      (today : String) (file : LedgerFile) (days : List String)
      → All (λ d. d ≢ "") days
      → sum_quotes (margins plus minus round_usd zero_usd today file days)
        ≡ sum_days is_quote (load file) days
  unfolding sum_days
  margins-quotes today file [] h = refl
  margins-quotes today file (d ∷ days) h =
      omega (arith, daily-quotes today d file h.0, margins-quotes today file days h.1)

  margins-settlements :
      (today : String) (file : LedgerFile) (days : List String)
      → All (λ d. d ≢ "") days
      → sum_settlements (margins plus minus round_usd zero_usd today file days)
        ≡ sum_days (λ e. not (is_quote e)) (load file) days
  unfolding sum_days
  margins-settlements today file [] h = refl
  margins-settlements today file (d ∷ days) h =
      omega (arith, daily-settlements today d file h.0, margins-settlements today file days h.1)

  -- Where every event has a date, the daily summaries of a range count each quote and each settlement
  -- of the range once: their sums are the numbers of quotes and of settlements in the file whose day
  -- lies in the range.
  pub get_margin_summaries-sum :
      (today : String) (from_date to_date : Option String) (file : LedgerFile)
      → All IsDated (load file)
      → let summaries =
          get_margin_summaries plus minus round_usd zero_usd today from_date to_date file in
        (sum_quotes summaries
          ≡ count_where (λ e. is_quote e && in_range from_date to_date (day_of e)) (load file))
        × (sum_settlements summaries
            ≡ count_where
                (λ e. not (is_quote e) && in_range from_date to_date (day_of e))
                (load file))
  unfolding get_margin_summaries
  get_margin_summaries-sum today from_date to_date file dated =
      let events = load file in
      let days = sort_days (days_in from_date to_date events []) in
      let named =
        sort_days-named (days_in from_date to_date events [])
          (days_in-named from_date to_date events [] dated tt) in
      let all = occurs_self events events (λ d h. h) in
      (
        margins-quotes today file days named
            ∙ sum_days-eq-weights is_quote events days
            ∙ weights-days from_date to_date is_quote events events all,
        margins-settlements today file days named
            ∙ sum_days-eq-weights (λ e. not (is_quote e)) events days
            ∙ weights-days from_date to_date (λ e. not (is_quote e)) events events all,
      )
