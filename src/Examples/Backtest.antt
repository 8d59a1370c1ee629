-- ===== src/Examples/Backtest.antt =====
-- The replay's theorems on a short feed of one market: a snapshot of its book, a price, and its resolution.
-- The strategy buys once at each book event.
use mathlib.Core.List.{Perm}
use polymarket_btc_15min_bac.Base.{
  ℕ, suc, ◌-◌, ◌≤◌, ◌≡◌, refl, some, none, List, [], ◌∷◌, ℤ, pos, negsuc, ◌+ℤ◌, ◌-ℤ◌, ◌*ℤ◌,
  floor_div, arith, true, false, map, Result, ok, err,
}
use polymarket_btc_15min_bac.Dict.{lookup, total}
use polymarket_btc_15min_bac.Models.{buy, OrderIntent, marketable_taker}
use polymarket_btc_15min_bac.SortedDict.{Entries, entries_dict, Entries-IsSortedDict}
use polymarket_btc_15min_bac.OrderBook.{
  replace, load, validate_level, validate_cross, available_levels, remaining, consume, BookSnapshot,
  BookLevelChange, OrderBook, clob_market_ws, new_book,
}
use polymarket_btc_15min_bac.Fees.{
  calculate, quantize, minimum_scaled, notional_scaled, zero_formula, taker, half_up,
}
use polymarket_btc_15min_bac.Portfolio.{portfolio, apply_fill, buy_fill, settle_market}
use polymarket_btc_15min_bac.Execution.{execute, plan, planned_for, fill_all, required_cash}
use polymarket_btc_15min_bac.Sorting.{sorted, put_in}
use polymarket_btc_15min_bac.Portfolio.Identity.{cost_of}
use polymarket_btc_15min_bac.Portfolio.Identity as Account
use polymarket_btc_15min_bac.Replay.{check, QualityInterval, degraded}
use polymarket_btc_15min_bac.Reconstructor.{
  register, BookReconstructor, new_reconstructor, apply_snapshot, apply_change, mark_uncertain,
  valid, no_valid_snapshot,
}
use polymarket_btc_15min_bac.Reconstructor.Invariant.{
  Call, snapshot_call, tick_call, change_call, uncertain_call, IsSound, run-IsSound,
}
use polymarket_btc_15min_bac.Reconstructor.Invariant as Reconstruction
use polymarket_btc_15min_bac.Reconstructor.Intervals.{
  open_count, uncertain-until-snapshot, stale-snapshot-closes,
}
use polymarket_btc_15min_bac.Timeline.{
  timestamp, advance, keyed, deterministic_event_key, ReplayEvent, Payload, book_snapshot,
  btc_price, market_resolution, exchange_time, new_clock, EventClock, merge_events, BtcPriceEvent,
}
use polymarket_btc_15min_bac.Timeline.Order.{
  Merged, merge_events-Merged, advance_all, merge_events-advances,
}
use polymarket_btc_15min_bac.Metrics.{maximum_drawdown}
use polymarket_btc_15min_bac.Metrics.Drawdown.{deepest_fall, maximum_drawdown-deepest_fall}
use polymarket_btc_15min_bac.Engine.{
  schedule, Strategy, BacktestConfig, BacktestEngine, EngineError, PendingOrder, backtest_engine,
  execute_pending, constant, sample_ns,
}
use polymarket_btc_15min_bac.Engine.Run.{run, groups_of, drain}
use polymarket_btc_15min_bac.Engine.Pending.{Cut, execute_pending-Cut, intent_of}
use polymarket_btc_15min_bac.Engine.Orders.{recording, unreferenced, numbered, run-answers}
use polymarket_btc_15min_bac.Engine.Account.{Interleaves, fill_calls, fees_paid, settle_calls}
use polymarket_btc_15min_bac.Engine.Turn.{resolutions}
use polymarket_btc_15min_bac.Engine.Ledger.{run-account}
use polymarket_btc_15min_bac.Engine.Failures.{Safe, run-Safe}
use polymarket_btc_15min_bac.Engine.Books.{run-books}
use polymarket_btc_15min_bac.Engine.Summary.{covered_time, spans_of}
use polymarket_btc_15min_bac.Engine.Figures.{degraded-once}

abbrev snapshot_of : ℕ → BookSnapshot
snapshot_of sequence = record {
  sequence = sequence;
  source = clob_market_ws;
  condition_id = 7;
  token_id = 3;
  outcome = 0;
  received_utc_ns = 100;
  book_hash = none;
  tick_size_scaled = pos 10_000;
  minimum_order_size_scaled = 5;
  bids = record { price_scaled = pos 400_000; size_scaled = pos 20_000_000 } ∷ [];
  asks = record { price_scaled = pos 420_000; size_scaled = pos 30_000_000 } ∷ [];
}

abbrev change_of : ℕ → BookLevelChange
change_of sequence = record {
  sequence = sequence;
  condition_id = 7;
  token_id = 3;
  received_utc_ns = 120;
  side = buy;
  price_scaled = pos 410_000;
  new_size_scaled = pos 5_000_000;
  book_hash = none;
  reported_best_bid_scaled = none;
  reported_best_ask_scaled = none;
}

abbrev event_at : ℕ → Payload → ReplayEvent
event_at t payload = record {
  exchange_timestamp_ns = some t;
  received_utc_ns = t;
  connection_id = 1;
  sequence = t;
  parent_change_index = 0;
  source_priority = 0;
  payload = payload;
}

abbrev price : BtcPriceEvent
price = record {
  source = 1;
  sequence = 2;
  underlying_source_timestamp_ns = none;
  received_utc_ns = 110;
  price_scaled = 60_000;
}

abbrev feed : List ReplayEvent
feed =
    event_at 500 (market_resolution 7 3)
    ∷ event_at 100 (book_snapshot (snapshot_of 4))
    ∷ event_at 110 (btc_price price)
    ∷ []

abbrev purchase : ℕ → OrderIntent
purchase now = record {
  order_intent_id = 0;
  decision_timestamp_ns = now;
  token_id = 3;
  condition_id = 7;
  outcome = 0;
  side = buy;
  order_type = marketable_taker;
  limit_price_scaled = none;
  requested_shares_scaled = some 10_000_000;
  requested_notional_scaled = none;
  decision_reference_price_scaled = none;
}

-- It counts the events that it is told of.
abbrev buyer : Strategy Entries ℕ
buyer = record {
  on_start = λ context n. n;
  on_market_event = λ event context n. (purchase context.now_ns ∷ [], suc n);
  on_btc_price = λ quote context n. ([], suc n);
  on_trade = λ print context n. ([], suc n);
  on_market_close = λ close context n. ([], suc n);
}

abbrev config : BacktestConfig
config = record {
  replay_clock = exchange_time;
  reject_on_gap = true;
  quality_intervals = [];
  starting_cash = pos 100_000_000;
  allow_negative_cash = false;
  allow_short_positions = false;
  fees = record {
    formula = zero_formula;
    liquidity_role = taker;
    rate = 0;
    rate_den = 1;
    exponent = 1;
    minimum = 0;
    minimum_den = 1;
    rounding = half_up;
  };
  latency = constant (pos 0);
}

abbrev value_of : Result EngineError (BacktestEngine Entries ℕ) → BacktestEngine Entries ℕ
value_of (ok engine) = engine
value_of (err e) = backtest_engine config 0

final : BacktestEngine Entries ℕ
final = value_of (run buyer config feed 0)

returned : run buyer config feed 0 ≡ ok final
unfolding run final merge_events timestamp advance check execute_pending schedule sample_ns
    backtest_engine apply_snapshot register replace load validate_level validate_cross execute
    settle_market apply_fill buy_fill plan planned_for fill_all required_cash calculate
    available_levels remaining consume deterministic_event_key keyed sorted put_in groups_of drain
    quantize minimum_scaled notional_scaled ◌+ℤ◌ ◌-ℤ◌ ◌*ℤ◌ floor_div
returned = refl

abbrev recorded_of :
    Result EngineError (BacktestEngine Entries (ℕ × List OrderIntent))
    → BacktestEngine Entries (ℕ × List OrderIntent)
recorded_of (ok engine) = engine
recorded_of (err e) = backtest_engine config (0, [])

recorded : BacktestEngine Entries (ℕ × List OrderIntent)
recorded = recorded_of (run (recording buyer) config feed (0, []))

recorded_lem : run (recording buyer) config feed (0, []) ≡ ok recorded
unfolding run recorded merge_events timestamp advance check execute_pending schedule sample_ns
    backtest_engine apply_snapshot register replace load validate_level validate_cross execute
    settle_market apply_fill buy_fill plan planned_for fill_all required_cash calculate
    available_levels remaining consume deterministic_event_key keyed sorted put_in groups_of drain
    quantize minimum_scaled notional_scaled ◌+ℤ◌ ◌-ℤ◌ ◌*ℤ◌ floor_div
recorded_lem = refl

run-answers_example :
    (recorded.pending ≡ [])
    × Perm
        (map unreferenced (map intent_of recorded.order_results))
        (numbered 0 recorded.strategy_state.1)
run-answers_example = run-answers config buyer feed 0 recorded recorded_lem

run-account_example :
    (ordered : List ReplayEvent) × (merge_events exchange_time feed ≡ ok ordered)
    × (settle_calls final.market_results ≡ resolutions exchange_time ordered)
    × ((cs : List Account.Call) × Interleaves
          (fill_calls final.order_results)
          (resolutions exchange_time ordered)
          cs
        × (final.portfolio ≡ Account.run cs (portfolio (pos 100_000_000) false false)))
    × (final.portfolio.available_cash_scaled
          +ℤ total cost_of final.portfolio.positions
          +ℤ pos (fees_paid final.order_results)
        ≡ pos 100_000_000 +ℤ final.portfolio.realized_pnl_scaled)
run-account_example = run-account config buyer feed 0 final returned

run-books_example : IsSound final.reconstructor
run-books_example = run-books Entries-IsSortedDict config buyer feed 0 final returned

run-Safe_example :
    Safe (constant (pos 0)) (λ (after : BacktestEngine Entries ℕ). Unit) (run buyer config feed 0)
run-Safe_example = run-Safe config buyer feed 0

abbrev order_at : ℕ → ℕ → PendingOrder
order_at arrival counter = record { arrival = arrival; counter = counter; intent = purchase 100 }

abbrev queued : BacktestEngine Entries ℕ
queued = record final { pending = order_at 150 0 ∷ order_at 300 1 ∷ [] }

later : BacktestEngine Entries ℕ
later = value_of (execute_pending config 200 true queued)

executed : execute_pending config 200 true queued ≡ ok later
unfolding later final run merge_events timestamp advance check execute_pending schedule sample_ns
    backtest_engine apply_snapshot register replace load validate_level validate_cross execute
    settle_market apply_fill buy_fill plan planned_for fill_all required_cash calculate
    available_levels remaining consume deterministic_event_key keyed sorted put_in groups_of drain
    quantize minimum_scaled notional_scaled ◌+ℤ◌ ◌-ℤ◌ ◌*ℤ◌ floor_div
executed = refl

execute_pending-Cut_example : Cut config 200 true queued.pending queued later
execute_pending-Cut_example =
    execute_pending-Cut config 200 true queued later ((refl, tt), (tt, tt)) executed

merge_events-Merged_example : Merged exchange_time feed (merge_events exchange_time feed)
merge_events-Merged_example = merge_events-Merged exchange_time feed

abbrev ordered : List ReplayEvent
ordered =
    event_at 100 (book_snapshot (snapshot_of 4))
    ∷ event_at 110 (btc_price price)
    ∷ event_at 500 (market_resolution 7 3)
    ∷ []

merged : merge_events exchange_time feed ≡ ok ordered
unfolding merge_events timestamp deterministic_event_key keyed sorted put_in
merged = refl

merge_events-advances_example :
    (clock : EventClock) × (advance_all ordered (new_clock exchange_time) ≡ ok clock)
merge_events-advances_example = merge_events-advances exchange_time feed ordered merged

abbrev calls : List Call
calls =
    snapshot_call (snapshot_of 4)
    ∷ tick_call (record { condition_id = 7; token_id = 3; new_tick_size_scaled = pos 1_000 })
    ∷ uncertain_call 3 130 none
    ∷ change_call (change_of 5)
    ∷ snapshot_call (snapshot_of 2)
    ∷ []

run-IsSound_example : IsSound (Reconstruction.run calls (new_reconstructor {M = Entries}))
run-IsSound_example = run-IsSound Entries-IsSortedDict calls

abbrev stored : OrderBook Entries
stored = record (new_book 7 3 0) { last_sequence = 9 }

abbrev rebuilt : BookReconstructor Entries
rebuilt = record {
  books = (3, stored) ∷ [];
  uncertainty =
      record {
        token_id = 3;
        start_utc_ns = 90;
        end_utc_ns = none;
        first_sequence = none;
        last_sequence = none;
      }
      ∷ [];
  effective_tick_sizes = [];
}

uncertain-until-snapshot_example :
    let after =
      Reconstruction.run (change_call (change_of 10) ∷ []) (mark_uncertain 3 130 none rebuilt) in
    (valid 3 after ≡ false) × (apply_change (change_of 11) after ≡ (err no_valid_snapshot, after))
uncertain-until-snapshot_example =
    uncertain-until-snapshot 3 130 none (change_call (change_of 10) ∷ []) (change_of 11) rebuilt
      (tt, tt) refl

stale-snapshot-closes_example :
    let after = (apply_snapshot (snapshot_of 4) rebuilt).1 in
    (lookup 3 after.books ≡ some stored)
    × (open_count 3 after.uncertainty ≡ open_count 3 rebuilt.uncertainty - 1)
stale-snapshot-closes_example =
    stale-snapshot-closes (snapshot_of 4) stored rebuilt refl refl refl refl (omega arith)

abbrev other_token : ℕ
other_token = 5

abbrev gap : ℕ → ℕ → QualityInterval
gap start end = record {
  start_utc_ns = start;
  end_utc_ns = some end;
  state = degraded;
  details = 0;
}

degraded-once_example :
    covered_time none (spans_of 100 500 (gap 150 300 ∷ gap 50 200 ∷ gap 400 900 ∷ [])) ≤ 500 - 100
degraded-once_example = degraded-once 100 500 (gap 150 300 ∷ gap 50 200 ∷ gap 400 900 ∷ [])

abbrev equity : List ℤ
equity = pos 100 ∷ pos 130 ∷ pos 90 ∷ pos 140 ∷ negsuc 9 ∷ []

maximum_drawdown-deepest_fall_example : maximum_drawdown equity ≡ deepest_fall equity
maximum_drawdown-deepest_fall_example = maximum_drawdown-deepest_fall equity
