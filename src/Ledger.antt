-- ===== src/Ledger.antt =====
-- src/x402-ledger.ts: the file of quotes and settlements, and the daily sums over it. The arithmetic on
-- doubles is a parameter; texts are compared by their code points.
pub mod Days
pub mod Counting
pub mod Totals
use Prim.Native.Nat.{Ordering}
use Prim.Native.String.{compare, slice}
use xrplink.Store.{Outcome, returned, threw}
use xrplink.X402.{Number}
use xrplink.Prelude.{
  ℕ, ◌+◌, String, Bool, true, false, not, ◌&&◌, Option, none, some, List, [], ◌∷◌, ◌==◌,
  if◌then◌else◌, get_or, truthy, keep, any, concat,
}

pub record LedgerAsset : Type 0 where
  pub asset : String
  pub amount : String

pub record QuoteEvent : Type 0 where
  pub invoice_id : String
  pub time : String
  pub usd : Number
  pub flr_usd : Number
  pub fee_flr : Number
  pub flr_cost_usd : Number
  pub xrp_usd : Number
  pub assets : List LedgerAsset

pub record SettlementEvent : Type 0 where
  pub invoice_id : String
  pub time : String
  pub asset : String
  pub amount : String
  pub usd : Number
  pub flr_usd : Number
  pub fee_flr : Number
  pub flr_cost_usd : Number
  pub settlement_tx : Option String

pub data LedgerEvent : Type 0 where
  quote : QuoteEvent → LedgerEvent
  settled : SettlementEvent → LedgerEvent

-- The file: not there or not readable, or its events.
pub data LedgerFile : Type 0 where
  missing unreadable : LedgerFile
  holding : List LedgerEvent → LedgerFile

unfoldable pub load : LedgerFile → List LedgerEvent
load missing = []
load unreadable = []
load (holding events) = events

-- `atomicWriteJson` replaces the file, or throws and leaves it.
abbrev save : Option String → List LedgerEvent → LedgerFile → Outcome (Unit {0}) × LedgerFile
save none events file = (returned tt, holding events)
save (some m) events file = (threw m, file)

-- Both recorders append under the lock. `fate` is what the write does.
abbrev append_event :
    {E : Type 0} → (E → LedgerEvent) → Option String → E → LedgerFile → Outcome E × LedgerFile
append_event as_event fate e file =
    let (r, written) = save fate (concat (load file) (as_event e ∷ [])) file in
    elim r [ returned u ↦ (returned e, written) | threw m ↦ (threw m, written) ]

unfoldable pub record_x402_quote :
    Option String → QuoteEvent → LedgerFile → Outcome QuoteEvent × LedgerFile
unfolding load
record_x402_quote = append_event quote

unfoldable pub record_x402_settlement :
    Option String → SettlementEvent → LedgerFile → Outcome SettlementEvent × LedgerFile
unfolding load
record_x402_settlement = append_event settled

unfoldable pub list_x402_ledger_events : LedgerFile → List LedgerEvent
unfolding load
list_x402_ledger_events file = load file

abbrev pub time_of : LedgerEvent → String
time_of (quote e) = e.time
time_of (settled e) = e.time

-- `iso.slice(0, 10)`
abbrev pub day_of : LedgerEvent → String
day_of e = slice (time_of e) 0 10

abbrev pub before : String → String → Bool
before a b = elim (compare a b) [ Ordering.lt ↦ true | _ ↦ false ]

-- Neither of the two `continue`s of the loop is taken.
unfoldable pub in_range : Option String → Option String → String → Bool
in_range from_date to_date day =
    not (elim (truthy from_date) [ none ↦ false | some d ↦ before day d ])
    && not (elim (truthy to_date) [ none ↦ false | some d ↦ before d day ])

-- `days.add(day)`
abbrev pub add_day : String → List String → List String
add_day day days = if any (λ d. d == day) days then days else concat days (day ∷ [])

unfoldable pub days_in :
    Option String → Option String → List LedgerEvent → List String → List String
days_in from_date to_date [] days = days
days_in from_date to_date (e ∷ events) days =
    days_in from_date to_date events
      (if in_range from_date to_date (day_of e) then add_day (day_of e) days else days)

unfoldable pub insert_day : String → List String → List String
insert_day day [] = day ∷ []
insert_day day (other ∷ days) =
    let rest = insert_day day days in
    if before other day then other ∷ rest else day ∷ (other ∷ days)

-- `[...days].sort()`
unfoldable pub sort_days : List String → List String
unfolding insert_day
sort_days [] = []
sort_days (day ∷ days) = insert_day day (sort_days days)

pub record DailyMarginSummary : Type 0 where
  pub date : String
  pub quotes : ℕ
  pub settlements : ℕ
  pub revenue_usd : Number
  pub flr_cost_usd : Number
  pub margin_usd : Number

-- The four variables of the loop.
pub record Tally : Type 0 where
  pub quotes : ℕ
  pub settlements : ℕ
  pub revenue_usd : Number
  pub flr_cost_usd : Number

module _ (plus minus : Number → Number → Number) (round_usd : Number → Number)
    (zero_usd : Number) where
  abbrev pub count_event : LedgerEvent → Tally → Tally
  count_event (quote e) t = record t { quotes = t.quotes + 1 }
  count_event (settled e) t = record t {
    settlements = t.settlements + 1;
    revenue_usd = plus t.revenue_usd e.usd;
    flr_cost_usd = plus t.flr_cost_usd e.flr_cost_usd;
  }

  unfoldable pub tally : List LedgerEvent → Tally → Tally
  tally [] t = t
  tally (e ∷ events) t = tally events (count_event e t)

  abbrev no_events : Tally
  no_events = record {
    quotes = 0;
    settlements = 0;
    revenue_usd = zero_usd;
    flr_cost_usd = zero_usd;
  }

  abbrev summary : String → Tally → DailyMarginSummary
  summary day t = record {
    date = day;
    quotes = t.quotes;
    settlements = t.settlements;
    revenue_usd = round_usd t.revenue_usd;
    flr_cost_usd = round_usd t.flr_cost_usd;
    margin_usd = round_usd (minus t.revenue_usd t.flr_cost_usd);
  }

  -- `today` is the day of the clock, which an empty date stands for.
  unfoldable pub get_daily_margin : String → Option String → LedgerFile → DailyMarginSummary
  unfolding tally load
  get_daily_margin today date file =
      let day = get_or (truthy date) today in
      summary day (tally (keep (λ e. day_of e == day) (load file)) no_events)

  abbrev pub margins : String → LedgerFile → List String → List DailyMarginSummary
  margins today file [] = []
  margins today file (day ∷ days) = get_daily_margin today (some day) file ∷ margins today file days

  unfoldable pub get_margin_summaries :
      String → Option String → Option String → LedgerFile → List DailyMarginSummary
  unfolding get_daily_margin days_in sort_days
  get_margin_summaries today from_date to_date file =
      margins today file (sort_days (days_in from_date to_date (load file) []))
