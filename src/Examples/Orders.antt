-- ===== src/Examples/Orders.antt =====
-- The theorems on orders: what is planned on a ladder, what is filled, and what it costs.
use polymarket_btc_15min_bac.Base.{ℕ, ◌<◌, some, none, List, [], ◌∷◌, pos, arith, true, false, All}
use polymarket_btc_15min_bac.Models.{buy, OrderIntent, marketable_taker}
use polymarket_btc_15min_bac.SortedDict.{Entries, entries_dict}
use polymarket_btc_15min_bac.Portfolio.{portfolio}
use polymarket_btc_15min_bac.OrderBook.{new_book}
use polymarket_btc_15min_bac.Fees.{FeeModel, shares_rate_p_one_minus_p, taker, half_up}
use polymarket_btc_15min_bac.Execution.{Market, plan, execute}
use polymarket_btc_15min_bac.Execution.Plan.{Takes, WithinLimit, plan-Takes}
use polymarket_btc_15min_bac.Execution.Settle.{Executed, execute-Executed}
use polymarket_btc_15min_bac.Realism.{ExecutionRealism, TakerOrder, ExecutionOutcome}
use polymarket_btc_15min_bac.Realism as Taker
use polymarket_btc_15min_bac.Realism.Sweep.{IsFaithful, execute-IsFaithful}
use polymarket_btc_15min_bac.Realism.Reasons.{IsExplained, execute-IsExplained}

abbrev ladder : List (ℕ × ℕ)
ladder = (420_000, 30) ∷ (430_000, 5) ∷ (900_000, 50) ∷ []

abbrev fees : FeeModel
fees = record {
  formula = shares_rate_p_one_minus_p;
  liquidity_role = taker;
  rate = 7;
  rate_den = 100;
  exponent = 1;
  minimum = 1;
  minimum_den = 1_000_000;
  rounding = half_up;
}

abbrev intent : OrderIntent
intent = record {
  order_intent_id = 1;
  decision_timestamp_ns = 10;
  token_id = 3;
  condition_id = 7;
  outcome = 0;
  side = buy;
  order_type = marketable_taker;
  limit_price_scaled = some 500_000;
  requested_shares_scaled = some 32;
  requested_notional_scaled = none;
  decision_reference_price_scaled = none;
}

abbrev market : Market Entries
market = record {
  book = record (new_book 7 3 0) {
    bids = (400_000, 10) ∷ [];
    asks = (420_000, 30) ∷ (430_000, 5) ∷ [];
    valid = true;
  };
  portfolio = portfolio (pos 1000) false false;
}

ladder-positive : All (λ (level : ℕ × ℕ). 0 < level.1) ladder
ladder-positive = (omega arith, (omega arith, (omega arith, tt)))

plan-Takes_example :
    let slices = plan buy (some 500_000) 1 (some 60) none ladder in
    Takes slices ladder × WithinLimit buy (some 500_000) slices
plan-Takes_example = plan-Takes buy (some 500_000) 1 (some 60) none ladder

execute-Executed_example : Executed fees intent 12 market (execute fees intent 12 market)
execute-Executed_example = execute-Executed fees intent 12 market

abbrev pub realism : ExecutionRealism
realism = record {
  displayed_depth_haircut_ppm = 250_000;
  max_level_participation_ppm = 500_000;
  max_levels_swept = some 2;
  volume_participation_ppm = some 100_000;
  stale_book_max_age_ms = some 5000;
  max_ticks_through_touch = some 10;
  max_price_through_touch_scaled = some 10_000;
  fee_model = fees;
}

abbrev pub taker_order : TakerOrder
taker_order = record {
  side = buy;
  requested_shares_scaled = 32;
  limit_price_scaled = some 500_000;
  reference_price_scaled = some 410_000;
  realised_volume_scaled = some 90;
  decision_utc_ns = 10;
  arrival_utc_ns = 12;
  book_age_ns = 1000;
  minimum_order_size_scaled = 5;
  tick_size_scaled = 10_000;
}

abbrev outcome : ExecutionOutcome
outcome = Taker.execute realism taker_order ladder

execute-IsFaithful_example : IsFaithful realism taker_order 420_000 ladder outcome
execute-IsFaithful_example =
    execute-IsFaithful realism taker_order 420_000 30 ((430_000, 5) ∷ (900_000, 50) ∷ [])

execute-IsExplained_example :
    IsExplained 32 outcome.rejected_reason outcome.binding_constraint outcome.filled_shares_scaled
execute-IsExplained_example =
    execute-IsExplained realism taker_order 420_000 30 ((430_000, 5) ∷ (900_000, 50) ∷ [])
