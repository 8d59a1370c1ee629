-- ===== src/Examples/Simulator.antt =====
-- The theorems on one order of the episode simulator, on a tape of two rows of one token.
use polymarket_btc_15min_bac.Base.{ℕ, ◌≤◌, ◌≡◌, refl, some, none, List, [], ◌∷◌, arith, true, false}
use polymarket_btc_15min_bac.Models.{buy}
use polymarket_btc_15min_bac.Fees.{
  FeeModel, zero_formula, taker, half_up, calculate, notional_scaled,
}
use polymarket_btc_15min_bac.Realism.{execute, ExecutionRealism}
use polymarket_btc_15min_bac.FastSim.{
  TapeRow, EpisodeTape, token_rows, kind_snapshot, side_none, all_in_cost, max_affordable_shares,
  reconcile_self_impact, row_at, is_uncertain, taker_ladder, apply_self_impact, cap_slices,
}
use polymarket_btc_15min_bac.FastSim.Send.{
  SendRequest, SelfImpact, send, is_filled, cap_buy_to_spend, enforced,
}
use polymarket_btc_15min_bac.FastSim.Spend.{spent, send-affordable, FillWindow, send-window}
use polymarket_btc_15min_bac.FastSim.Afford.{max_affordable-largest}

abbrev fees : FeeModel
fees = record {
  formula = zero_formula;
  liquidity_role = taker;
  rate = 0;
  rate_den = 1;
  exponent = 1;
  minimum = 0;
  minimum_den = 1;
  rounding = half_up;
}

abbrev realism : ExecutionRealism
realism = record {
  displayed_depth_haircut_ppm = 0;
  max_level_participation_ppm = 1_000_000;
  max_levels_swept = none;
  volume_participation_ppm = none;
  stale_book_max_age_ms = none;
  max_ticks_through_touch = none;
  max_price_through_touch_scaled = none;
  fee_model = fees;
}

abbrev row_of : ℕ → TapeRow
row_of t = record {
  received_utc_ns = t;
  token_index = 0;
  event_kind = kind_snapshot;
  event_side = side_none;
  event_price_scaled = 0;
  book_valid = true;
  bids = (400_000, 20) ∷ [];
  asks = (420_000, 30) ∷ (430_000, 50) ∷ [];
}

abbrev tape : EpisodeTape
tape = record {
  end_utc_ns = 900;
  minimum_order_size_scaled = 1;
  tick_size_scaled = 10_000;
  rows = row_of 100 ∷ row_of 200 ∷ [];
  uncertainty = [];
}

abbrev rows : List (ℕ × TapeRow)
rows = (0, row_of 100) ∷ (1, row_of 200) ∷ []

abbrev request : SendRequest
request = record {
  token_index = 0;
  side = buy;
  decision_ns = 150;
  latency_ns = 30;
  taker_delay_ns = 40;
  shares_scaled = 60;
  max_spend_scaled = none;
  available_cash_scaled = some (λ t. 20);
  require_full_fill = false;
  limit_price_scaled = none;
  reference_price_scaled = none;
  deadline_ns = some 500;
}

abbrev untouched : SelfImpact
untouched = record { consumed = []; cursor = none }

send-affordable_example : spent (send realism true tape request rows untouched).0 ≤ 20
send-affordable_example =
    send-affordable realism true tape request rows untouched (λ t. 20) refl refl

filled_lem :
    is_filled (send realism true tape request (token_rows 0 0 tape.rows) untouched).0 ≡ true
unfolding token_rows send reconcile_self_impact row_at is_uncertain taker_ladder apply_self_impact
    cap_slices cap_buy_to_spend enforced execute calculate notional_scaled
filled_lem = refl

send-window_example : FillWindow true tape request (token_rows 0 0 tape.rows)
send-window_example = send-window realism true tape request untouched filled_lem

max_affordable-largest_example :
    let shares = max_affordable_shares fees 20 420_000 (some 60) in
    (all_in_cost fees 420_000 shares ≤ 20) × (shares ≤ 60) × (45 ≤ shares)
unfolding all_in_cost calculate notional_scaled
max_affordable-largest_example =
    max_affordable-largest fees 20 420_000 60 45 (omega arith) (omega arith) (omega arith)
      (omega arith)

abbrev other_token : ℕ
other_token = 1
