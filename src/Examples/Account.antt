-- ===== src/Examples/Account.antt =====
-- The portfolio's theorems on an account of 1000 that buys, sells and settles.
use polymarket_btc_15min_bac.Base.{ℕ, ◌+◌, ◌≡◌, refl, List, [], ◌∷◌, pos, ◌+ℤ◌, arith, false, All}
use polymarket_btc_15min_bac.Dict.{Dict, total}
use polymarket_btc_15min_bac.Models.{Side, buy, sell, SimulatedFill}
use polymarket_btc_15min_bac.Portfolio.{
  Portfolio, portfolio, settle_market, equity_scaled, mark_to_market,
}
use polymarket_btc_15min_bac.Portfolio.Identity.{
  Call, fill_call, settle_call, run, buy_fees, cost_of, unpriced_cost, run-cash, run-equity,
}
use polymarket_btc_15min_bac.Portfolio.Solvency.{IsSolvent, IsCoveredCall, run-IsSolvent}
use polymarket_btc_15min_bac.Portfolio.Inventory.{settle_market-once}
use polymarket_btc_15min_bac.Portfolio.Payable.{Affords}

abbrev fill_of_size : Side → ℕ → ℕ → ℕ → SimulatedFill
fill_of_size side size notional fee = record {
  order_intent_id = 1;
  condition_id = 7;
  token_id = 3;
  side = side;
  price_scaled = 400_000;
  size_scaled = size;
  notional_scaled = notional;
  fee_scaled = fee;
  book_event_sequence = 1;
  decision_time_ns = 10;
  scheduled_arrival_time_ns = 11;
  fill_time_ns = 11;
  level_rank = 1;
  liquidity_remaining_after_scaled = 0;
}

abbrev opened : Portfolio
opened = portfolio (pos 1000) false false

abbrev trades : List Call
trades =
    fill_call (fill_of_size buy 500 200 3) 0
    ∷ fill_call (fill_of_size sell 200 120 2) 0
    ∷ fill_call (fill_of_size sell 900 500 2) 0
    ∷ settle_call 7 3 20
    ∷ []

trades-IsCoveredCall : All IsCoveredCall trades
trades-IsCoveredCall = (tt, (omega arith, (omega arith, (tt, tt))))

opened-IsSolvent : IsSolvent opened
opened-IsSolvent = record { long_only = refl; cash_only = refl; cash = omega arith; long = tt }

run-cash_example :
    let p = run trades opened in
    p.available_cash_scaled +ℤ total cost_of p.positions +ℤ pos (buy_fees trades opened)
    ≡ pos 1000 +ℤ p.realized_pnl_scaled
run-cash_example = run-cash trades (pos 1000) false false

run-equity_example :
    let cs = fill_call (fill_of_size buy 500 200 3) 0 ∷ [] in
    let prices : Dict ℕ = (3, 1_000_000) ∷ [] in
    let p = run cs opened in
    equity_scaled prices p +ℤ pos (buy_fees cs opened) +ℤ unpriced_cost prices p.positions
    ≡ pos 1000 +ℤ p.realized_pnl_scaled +ℤ (mark_to_market prices p).0
run-equity_example =
    run-equity (fill_call (fill_of_size buy 500 200 3) 0 ∷ []) (pos 1000) false false
      ((3, 1_000_000) ∷ [])

run-IsSolvent_example : IsSolvent (run trades opened)
run-IsSolvent_example = run-IsSolvent trades opened trades-IsCoveredCall opened-IsSolvent

settle_market-once_example :
    let held = run (fill_call (fill_of_size buy 500 200 3) 0 ∷ []) opened in
    let (_, once) = settle_market 7 3 20 held in
    let (payout, twice) = settle_market 7 4 21 once in
    (payout ≡ pos 0)
    × (twice.available_cash_scaled ≡ once.available_cash_scaled)
    × (twice.realized_pnl_scaled ≡ once.realized_pnl_scaled)
    × (twice.positions ≡ once.positions)
settle_market-once_example =
    settle_market-once 7 3 4 20 21 (run (fill_call (fill_of_size buy 500 200 3) 0 ∷ []) opened)

affordable_lem : Affords buy 3 (203 + 100) opened
affordable_lem = omega arith
