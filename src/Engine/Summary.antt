-- ===== src/Engine/Summary.antt =====
-- The summary of a backtest: `_degraded_time_ppm` and the last part of `run` of
-- src/polymarket_bt/backtest/engine.py. The identifiers of the run and the percentiles of the slippage are
-- left out.
use polymarket_btc_15min_bac.Base.{
  ℕ, zero, suc, ◌+◌, ◌-◌, ◌*◌, ◌/◌, Bool, true, false, Option, none, some, List, [], ◌∷◌, ◌++◌, leb,
  ◌==◌, if◌then◌else◌, min, max, sum_by, length, map, ℤ, pos, ◌+ℤ◌, ◌-ℤ◌,
}
use polymarket_btc_15min_bac.Dict.{Dict}
use polymarket_btc_15min_bac.SortedDict.{SortedDict}
use polymarket_btc_15min_bac.Models.{
  OrderResult, OrderStatus, rejected, partial, filled, SimulatedFill,
}
use polymarket_btc_15min_bac.Metrics.{maximum_drawdown}
use polymarket_btc_15min_bac.OrderBook.{OrderBook, top}
use polymarket_btc_15min_bac.Portfolio.{PortfolioEvent, mark_to_market, equity_scaled}
use polymarket_btc_15min_bac.Replay.{QualityInterval}
use polymarket_btc_15min_bac.Sorting.{sorted, by_key, lex_le}
use polymarket_btc_15min_bac.Timeline.{ReplayEvent}
use polymarket_btc_15min_bac.Engine.{BacktestEngine}

abbrev pub Span : Type 0
Span = ℕ × ℕ

abbrev pub span_key : Span → List ℕ
span_key span = span.0 ∷ span.1 ∷ []

-- `interval.end_utc_ns or replay_end`
abbrev pub end_or : Option ℕ → ℕ → ℕ
end_or none last = last
end_or (some zero) last = last
end_or (some (suc n)) last = suc n

abbrev pub span_of : ℕ → ℕ → QualityInterval → Span
span_of first last interval =
    (max first interval.start_utc_ns, min last (end_or interval.end_utc_ns last))

-- The loop that merges the spans, on the last merged one: the time that the merged spans cover. An empty
-- span is skipped.
unfoldable pub covered_time : Option Span → List Span → ℕ
covered_time none [] = 0
covered_time (some current) [] = current.1 - current.0
covered_time none (span ∷ spans) =
    let skipped = covered_time none spans in
    let started = covered_time (some span) spans in if leb span.1 span.0 then skipped else started
covered_time (some current) (span ∷ spans) =
    let skipped = covered_time (some current) spans in
    let widened = covered_time (some (current.0, max current.1 span.1)) spans in
    let started = covered_time (some span) spans in
    if leb span.1 span.0
    then skipped
    else (if leb span.0 current.1 then widened else (current.1 - current.0) + started)

abbrev pub least : ℕ → List ReplayEvent → ℕ
least n [] = n
least n (event ∷ events) = least (min n event.received_utc_ns) events

abbrev pub greatest : ℕ → List ReplayEvent → ℕ
greatest n [] = n
greatest n (event ∷ events) = greatest (max n event.received_utc_ns) events

-- The spans of the intervals within the replay, in order.
abbrev pub spans_of : ℕ → ℕ → List QualityInterval → List Span
spans_of first last intervals = sorted (by_key lex_le span_key) (map (span_of first last) intervals)

unfoldable pub degraded_part : ℕ → ℕ → List QualityInterval → ℕ
unfolding covered_time
degraded_part first last intervals =
    if leb last first
    then 1_000_000
    else min 1_000_000
        (covered_time none (spans_of first last intervals) * 1_000_000 / max (last - first) 1)

-- `_degraded_time_ppm`
unfoldable pub degraded_time_ppm : List ReplayEvent → List QualityInterval → ℕ
unfolding degraded_part
degraded_time_ppm [] intervals = 0
degraded_time_ppm (event ∷ events) [] = 0
degraded_time_ppm (event ∷ events) (interval ∷ intervals) =
    degraded_part (least event.received_utc_ns events) (greatest event.received_utc_ns events)
      (interval ∷ intervals)

abbrev pub is_rejected : OrderStatus → Bool
is_rejected rejected = true
is_rejected partial = false
is_rejected filled = false

abbrev pub is_accepted : OrderStatus → Bool
is_accepted rejected = false
is_accepted partial = true
is_accepted filled = true

abbrev pub is_partial : OrderStatus → Bool
is_partial rejected = false
is_partial partial = true
is_partial filled = false

unfoldable pub count_by : (OrderStatus → Bool) → List OrderResult → ℕ
count_by test [] = 0
count_by test (result ∷ results) = (if test result.status then 1 else 0) + count_by test results

abbrev pub fills_of : List OrderResult → List SimulatedFill
fills_of [] = []
fills_of (result ∷ results) = result.fills ++ fills_of results

abbrev pub or_zero : Option ℕ → ℕ
or_zero none = 0
or_zero (some n) = n

abbrev pub priced : ℕ → Option ℕ → Dict ℕ → Dict ℕ
priced token none prices = prices
priced token (some midpoint) prices = (token, midpoint) ∷ prices

module _ {M : Type 0} ⦃d : SortedDict M⦄ where
  -- `midpoint_prices`
  unfoldable pub midpoint_prices : Dict (OrderBook M) → Dict ℕ
  midpoint_prices [] = []
  midpoint_prices ((token, book) ∷ books) =
      priced token (top book).midpoint_scaled (midpoint_prices books)

pub record BacktestSummary : Type 0 where
  pub starting_capital_scaled : ℤ
  pub ending_capital_scaled : ℤ
  pub net_pnl_scaled : ℤ
  pub gross_pnl_scaled : ℤ
  pub fees_scaled : ℕ
  pub order_intents : ℕ
  pub accepted_orders : ℕ
  pub rejected_orders : ℕ
  pub fills : ℕ
  pub partial_fills : ℕ
  pub share_volume_scaled : ℕ
  pub notional_volume_scaled : ℕ
  pub maximum_drawdown_scaled : ℤ
  pub fill_ratio_ppm : ℕ
  pub degraded_time_ppm : ℕ

module _ {M S : Type 0} ⦃d : SortedDict M⦄ where
  unfoldable pub summarise : List ReplayEvent → BacktestEngine M S → BacktestSummary
  summarise ordered engine =
      let prices = midpoint_prices engine.reconstructor.books in
      let marked = (mark_to_market prices engine.portfolio).1 in
      let ending = equity_scaled prices marked in
      let fills = fills_of engine.order_results in
      let requested =
        sum_by (λ (r : OrderResult). or_zero r.intent.requested_shares_scaled)
          engine.order_results in
      let shares = sum_by (λ (f : SimulatedFill). f.size_scaled) fills in
      record {
        starting_capital_scaled = marked.starting_cash_scaled;
        ending_capital_scaled = ending;
        net_pnl_scaled = ending -ℤ marked.starting_cash_scaled;
        gross_pnl_scaled = ending -ℤ marked.starting_cash_scaled +ℤ pos marked.fees_paid_scaled;
        fees_scaled = marked.fees_paid_scaled;
        order_intents = length engine.order_results;
        accepted_orders = count_by is_accepted engine.order_results;
        rejected_orders = count_by is_rejected engine.order_results;
        fills = length fills;
        partial_fills = count_by is_partial engine.order_results;
        share_volume_scaled = shares;
        notional_volume_scaled = sum_by (λ (f : SimulatedFill). f.notional_scaled) fills;
        maximum_drawdown_scaled = maximum_drawdown (
            marked.starting_cash_scaled
            ∷ map (λ (e : PortfolioEvent). e.cash_scaled) marked.events);
        fill_ratio_ppm = if requested == 0 then 0 else shares * 1_000_000 / max requested 1;
        degraded_time_ppm = degraded_time_ppm ordered engine.used_degraded;
      }
