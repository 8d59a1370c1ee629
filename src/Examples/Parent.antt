-- ===== src/Examples/Parent.antt =====
-- The theorems on parent orders: a BUY of 100 shares over the times 1000 to 2000.
use polymarket_btc_15min_bac.Base.{
  ℕ, ◌-◌, ◌≡◌, refl, some, none, List, [], ◌∷◌, ok, arith, sum_by, ◌≤◌,
}
use polymarket_btc_15min_bac.Models.{buy}
use polymarket_btc_15min_bac.Realism.{execute, FillSlice}
use polymarket_btc_15min_bac.Examples.Orders.{realism, taker_order}
use polymarket_btc_15min_bac.OptimalExecution.Session.{outcome_error}
use polymarket_btc_15min_bac.OptimalExecution.Policy.{taker_slice, twap_schedule}
use polymarket_btc_15min_bac.OptimalExecution.Handoff.{IsPriced, execute-accepted}
use polymarket_btc_15min_bac.OptimalExecution.State.{ExecutionPlan, ExecutionState, state_error}
use polymarket_btc_15min_bac.Fees.{notional_scaled}
use polymarket_btc_15min_bac.OptimalExecution.Policy.{
  PolicyLimits, AdaptivePovPolicy, twap_decide, pov_decide,
}
use polymarket_btc_15min_bac.OptimalExecution.Bounds.{IsBounded, pov_target, pov_decide-IsBounded}
use polymarket_btc_15min_bac.OptimalExecution.Cursor.{
  VolumeCursor, volume_cursor, advance, advance_all, zip_trades,
}
use polymarket_btc_15min_bac.OptimalExecution.Objective.{score}
use polymarket_btc_15min_bac.OptimalExecution.Session.{
  Session, MarketView, session, decide, evaluate, record_fill, record_no_fill, complete_pending,
  apply_fills,
}
use polymarket_btc_15min_bac.OptimalExecution.Consistent.{IsConsistent}
use polymarket_btc_15min_bac.OptimalExecution.Span.{advanced, advance-span}
use polymarket_btc_15min_bac.OptimalExecution.Account.{
  Call, decide_call, fill_call, no_fill_call, run, run-IsConsistent, evaluate-total,
}

abbrev plan : ExecutionPlan
plan = record {
  side = buy;
  target_shares_scaled = 100;
  start_utc_ns = 1000;
  deadline_utc_ns = 2000;
  benchmark_price_scaled = 420_000;
  limit_price_scaled = some 450_000;
  objective = record {
    implementation_shortfall_ppm = 1_000_000;
    non_fill_penalty_ppm = 100_000;
    adverse_selection_penalty_ppm = 50_000;
  };
}

abbrev limits : PolicyLimits
limits = record {
  minimum_action_interval_ns = 50;
  max_child_shares_scaled = some 40;
  max_l2_participation_ppm = 500_000;
  fee_reserve_ppm = 20_000;
}

abbrev adaptive : AdaptivePovPolicy
adaptive = record {
  participation_ppm = 100_000;
  twap_floor_ppm = 500_000;
  adverse_move_tolerance_scaled = some 20_000;
  minimum_adverse_multiplier_ppm = 250_000;
  limits = limits;
}

abbrev state_at : ℕ → ExecutionState
state_at now = record {
  plan = plan;
  now_utc_ns = now;
  filled_shares_scaled = 10;
  inventory_shares_scaled = 10;
  available_cash_scaled = 1000;
  bids = (400_000, 80) ∷ [];
  asks = (420_000, 60) ∷ (430_000, 90) ∷ (460_000, 10) ∷ [];
  observed_market_volume_scaled = 500;
  minimum_order_size_scaled = 5;
  last_action_utc_ns = some 1100;
  current_reference_price_scaled = some 430_000;
}

abbrev cursor : VolumeCursor
cursor = record {
  token_index = 0;
  ahead =
      record { timestamp_utc_ns = 1000; token_index = 0; size_scaled = 30 }
      ∷ record { timestamp_utc_ns = 1500; token_index = 1; size_scaled = 7 }
      ∷ record { timestamp_utc_ns = 1600; token_index = 0; size_scaled = 50 }
      ∷ [];
  last_utc_ns = 999;
  volume_scaled = 0;
}

cursor_lem :
    volume_cursor (900 ∷ 1000 ∷ 1500 ∷ 1600 ∷ []) (0 ∷ 0 ∷ 1 ∷ 0 ∷ []) (5 ∷ 30 ∷ 7 ∷ 50 ∷ []) 0 1000
    ≡ ok cursor
unfolding volume_cursor
cursor_lem = refl

abbrev view_at : ℕ → MarketView
view_at now = record {
  now_utc_ns = now;
  bids = (400_000, 80) ∷ [];
  asks = (420_000, 60) ∷ (430_000, 90) ∷ [];
  minimum_order_size_scaled = 5;
  current_reference_price_scaled = none;
}

abbrev opened : Session
opened = record {
  plan = plan;
  volume_cursor = cursor;
  cash_scaled = 1000;
  inventory_shares_scaled = 10;
  filled_shares_scaled = 0;
  fills = [];
  last_action_utc_ns = none;
  last_decision_utc_ns = none;
  next_decision_not_before_utc_ns = 1000;
  pending = none;
}

opened_lem : session plan cursor 1000 10 ≡ ok opened
unfolding session
opened_lem = refl

opened-IsConsistent : IsConsistent plan 10 opened
opened-IsConsistent = (refl, refl, omega arith, tt, refl)

abbrev calls : List Call
calls =
    decide_call (view_at 1200)
    ∷ fill_call (record {
      timestamp_utc_ns = 1210;
      shares_scaled = 20;
      price_scaled = 420_000;
      fee_scaled = 1;
    })
    ∷ no_fill_call 1300
    ∷ decide_call (view_at 1100)
    ∷ []

idle_lem : (run (twap_decide limits 4) calls opened).pending ≡ none
unfolding decide record_fill record_no_fill complete_pending apply_fills twap_decide state_error
    notional_scaled
idle_lem = refl

pov_decide-IsBounded_example :
    IsBounded limits
      (state_at 1500)
      (pov_target adaptive (state_at 1500) - 10)
      (pov_decide adaptive (state_at 1500))
pov_decide-IsBounded_example = pov_decide-IsBounded adaptive (state_at 1500) (omega arith)

advance-span_example :
    (advance 1600 (advance_all (1200 ∷ 1500 ∷ []) cursor)).0
    ≡ advanced 0 1000 1600
        (zip_trades (900 ∷ 1000 ∷ 1500 ∷ 1600 ∷ []) (0 ∷ 0 ∷ 1 ∷ 0 ∷ []) (5 ∷ 30 ∷ 7 ∷ 50 ∷ []))
        (advance_all (1200 ∷ 1500 ∷ []) cursor)
advance-span_example =
    advance-span (900 ∷ 1000 ∷ 1500 ∷ 1600 ∷ []) (0 ∷ 0 ∷ 1 ∷ 0 ∷ []) (5 ∷ 30 ∷ 7 ∷ 50 ∷ []) 0 1000
      cursor (1200 ∷ 1500 ∷ []) 1600 cursor_lem

run-IsConsistent_example : IsConsistent plan 10 (run (twap_decide limits 4) calls opened)
run-IsConsistent_example =
    run-IsConsistent plan 10 (twap_decide limits 4) calls opened opened-IsConsistent

evaluate-total_example :
    evaluate 2500 (some 430_000) (run (twap_decide limits 4) calls opened)
    ≡ ok (score plan (run (twap_decide limits 4) calls opened).fills (some 430_000))
evaluate-total_example =
    evaluate-total plan 10 (twap_decide limits 4) cursor 1000 opened calls 2500 429_999 opened_lem
      idle_lem (omega arith)

prices_lem : IsPriced ((420_000, 30) ∷ (430_000, 5) ∷ [])
prices_lem = (omega arith, (omega arith, tt))

execute-accepted_example :
    outcome_error plan
        (taker_slice 32 none twap_schedule)
        10
        (execute realism taker_order ((420_000, 30) ∷ (430_000, 5) ∷ []))
      ≡ none
    × (sum_by
          (λ (s : FillSlice). s.size_scaled)
          (execute realism taker_order ((420_000, 30) ∷ (430_000, 5) ∷ [])).slices
        ≤ 32)
execute-accepted_example =
    execute-accepted plan (taker_slice 32 none twap_schedule) realism taker_order 420_000 30
      ((430_000, 5) ∷ []) refl (omega arith) (omega arith) prices_lem
