-- ===== src/Models.antt =====
-- The records of src/polymarket_bt/models/orders.py that execution and the portfolio exchange.
use polymarket_btc_15min_bac.Base.{ℕ, Option, List}

pub data Side : Type 0 where
  buy sell : Side

pub data SimulatedOrderType : Type 0 where
  marketable_taker limit_gtc_simulated : SimulatedOrderType

-- The free-form fields of an intent (its strategy's name, its time in force) are carried and never
-- read; of its metadata the program reads back the decision's reference price alone.
pub record OrderIntent : Type 0 where
  pub order_intent_id : ℕ
  pub decision_timestamp_ns : ℕ
  pub token_id : ℕ
  pub condition_id : ℕ
  pub outcome : ℕ
  pub side : Side
  pub order_type : SimulatedOrderType
  pub limit_price_scaled : Option ℕ
  pub requested_shares_scaled : Option ℕ
  pub requested_notional_scaled : Option ℕ
  pub decision_reference_price_scaled : Option ℕ

pub record SimulatedFill : Type 0 where
  pub order_intent_id : ℕ
  pub condition_id : ℕ
  pub token_id : ℕ
  pub side : Side
  pub price_scaled : ℕ
  pub size_scaled : ℕ
  pub notional_scaled : ℕ
  pub fee_scaled : ℕ
  pub book_event_sequence : ℕ
  pub decision_time_ns : ℕ
  pub scheduled_arrival_time_ns : ℕ
  pub fill_time_ns : ℕ
  pub level_rank : ℕ
  pub liquidity_remaining_after_scaled : ℕ

pub data OrderStatus : Type 0 where
  rejected partial filled : OrderStatus

pub data Rejection : Type 0 where
  book_invalid size_required insufficient_cash insufficient_inventory no_liquidity : Rejection
  already_resolved book_unavailable maker_unsupported : Rejection

pub record OrderResult : Type 0 where
  pub intent : OrderIntent
  pub status : OrderStatus
  pub rejection_reason : Option Rejection
  pub fills : List SimulatedFill
