-- ===== src/Engine.antt =====
-- The event-driven replay engine, `BacktestEngine` of src/polymarket_bt/backtest/engine.py, with
-- `StrategyContext` and the `Strategy` protocol of src/polymarket_bt/backtest/strategy.py and
-- `LatencyModel` of src/polymarket_bt/backtest/latency.py. A strategy keeps a state of its own
-- and reads the context. A method that raises ends the run, so the state it leaves is dropped.
pub mod Run
pub mod Summary
pub mod Figures
pub mod Steps
pub mod Trace
pub mod Pending
pub mod Orders
pub mod Account
pub mod Turn
pub mod Ledger
pub mod Failures
pub mod Books
use polymarket_btc_15min_bac.Base.{
  ℕ, zero, suc, ◌+◌, ◌*◌, ◌/◌, ◌%◌, length, pos_part, Bool, true, false, ◌&&◌, ◌||◌, Option, none,
  some, List, [], ◌∷◌, ◌++◌, ltb, ◌==◌, if◌then◌else◌, any_of, sum_by, Result, ok, err, ◌>>=◌, ℤ,
  pos, ◌-ℤ◌, is_some,
}
use polymarket_btc_15min_bac.Dict.{Dict, lookup, insert}
use polymarket_btc_15min_bac.SortedDict.{SortedDict}
use polymarket_btc_15min_bac.Models.{
  Side, buy, sell, OrderIntent, SimulatedFill, OrderResult, SimulatedOrderType, marketable_taker,
  limit_gtc_simulated, rejected, Rejection, already_resolved, book_unavailable, maker_unsupported,
}
use polymarket_btc_15min_bac.Fees.{FeeModel}
use polymarket_btc_15min_bac.OrderBook.{OrderBook, best_bid, best_ask}
use polymarket_btc_15min_bac.Portfolio.{Portfolio, PortfolioError, portfolio, settle_market}
use polymarket_btc_15min_bac.Execution.{Market, execute, refuse}
use polymarket_btc_15min_bac.Replay.{QualityInterval, ReplayError, check}
use polymarket_btc_15min_bac.Reconstructor.{
  BookReconstructor, ReconstructorError, new_reconstructor, apply_snapshot, apply_change,
  apply_tick_size_change, store,
}
use polymarket_btc_15min_bac.Timeline.{
  ReplayClockMode, ReplayEvent, Payload, book_snapshot, book_update, tick_size_change, btc_price,
  trade, market_resolution, other_event, BtcPriceEvent, TradeEvent, ClockError, timestamp,
  EventClock, new_clock, advance,
}
use polymarket_btc_15min_bac.Sorting.{put_in, lex_le, by_key}

pub record MarketCloseEvent : Type 0 where
  pub timestamp_ns : ℕ
  pub condition_id : ℕ
  pub winning_token_id : ℕ

pub record StrategyContext (M : Type 0) : Type 0 where
  pub portfolio : Portfolio
  pub now_ns : ℕ
  pub books : Dict (OrderBook M)
  pub btc_prices : Dict BtcPriceEvent

-- The protocol, on a state `S` of the strategy's own.
pub record Strategy (M S : Type 0) : Type 0 where
  pub on_start : StrategyContext M → S → S
  pub on_market_event : ReplayEvent → StrategyContext M → S → List OrderIntent × S
  pub on_btc_price : BtcPriceEvent → StrategyContext M → S → List OrderIntent × S
  pub on_trade : TradeEvent → StrategyContext M → S → List OrderIntent × S
  pub on_market_close : MarketCloseEvent → StrategyContext M → S → List OrderIntent × S

-- `LatencyConfig`, with the n-th draws of Python's random generator: an index for
-- `random.choice`, and for the lognormal model the nanoseconds of the draw, or none where `math.exp`
-- overflows.
pub data LatencyConfig : Type 0 where
  disabled : LatencyConfig
  constant : (constant_ms : ℤ) → LatencyConfig
  empirical : (samples_ms : List ℤ) → (choice : ℕ → ℕ) → LatencyConfig
  lognormal : (draw : ℕ → Option ℕ) → LatencyConfig

pub data LatencyError : Type 0 where
  requires_samples overflow : LatencyError

-- `max(0, int(milliseconds * 1_000_000))`
abbrev pub whole_ns : ℤ → ℕ
whole_ns milliseconds = pos_part milliseconds * 1_000_000

-- An element of a list that is not empty, by its index.
abbrev pub pick : ℕ → ℤ → List ℤ → ℤ
pick zero sample samples = sample
pick (suc n) sample [] = sample
pick (suc n) sample (other ∷ samples) = pick n other samples

-- `LatencyModel.sample_ns`, its n-th call
unfoldable pub sample_ns : LatencyConfig → ℕ → Result LatencyError ℕ
sample_ns disabled n = ok 0
sample_ns (constant milliseconds) n = ok (whole_ns milliseconds)
sample_ns (empirical [] choice) n = err requires_samples
sample_ns (empirical (sample ∷ samples) choice) n =
    ok (whole_ns (pick (choice n % suc (length samples)) sample samples))
sample_ns (lognormal draw) n = elim (draw n) [ none ↦ err overflow | some sample ↦ ok sample ]

pub data EngineError : Type 0 where
  clock_error : ClockError → EngineError
  replay_error : ReplayError → EngineError
  book_error : ReconstructorError → EngineError
  account_error : PortfolioError → EngineError
  latency_error : LatencyError → EngineError

-- An exception of a component, passed on by the engine.
abbrev pub raising : {E A : Type 0} → (E → EngineError) → Result E A → Result EngineError A
raising f (ok a) = ok a
raising f (err e) = err (f e)

-- An order on its way: when it arrives, its counter and the intent.
pub record PendingOrder : Type 0 where
  pub arrival : ℕ
  pub counter : ℕ
  pub intent : OrderIntent

abbrev pub pending_key : PendingOrder → List ℕ
pending_key order = order.arrival ∷ order.counter ∷ []

-- The heap's order: `heapq` keeps its smallest entry in front, as a list in order does.
abbrev pub pending_le : PendingOrder → PendingOrder → Bool
pending_le = by_key lex_le pending_key

pub record MarketResult : Type 0 where
  pub condition_id : ℕ
  pub winning_token_id : ℕ
  pub settlement_timestamp_ns : ℕ
  pub payout_scaled : ℤ

-- The configuration of a backtest.
pub record BacktestConfig : Type 0 where
  pub replay_clock : ReplayClockMode
  pub reject_on_gap : Bool
  pub quality_intervals : List QualityInterval
  pub starting_cash : ℤ
  pub allow_negative_cash : Bool
  pub allow_short_positions : Bool
  pub fees : FeeModel
  pub latency : LatencyConfig

pub record BacktestEngine (M S : Type 0) : Type 0 where
  pub clock : EventClock
  pub used_degraded : List QualityInterval
  pub portfolio : Portfolio
  pub reconstructor : BookReconstructor M
  pub now_ns : ℕ
  pub btc_prices : Dict BtcPriceEvent
  pub draws : ℕ
  pub pending : List PendingOrder
  pub intent_counter : ℕ
  pub order_results : List OrderResult
  pub market_results : List MarketResult
  pub slippages : List ℤ
  pub resolved_conditions : List ℕ
  pub strategy_state : S

abbrev pub is_limit : SimulatedOrderType → Bool
is_limit marketable_taker = false
is_limit limit_gtc_simulated = true

-- `schedule` of the latency model
abbrev pub schedule_arrival : ℕ → ℕ → ℕ
schedule_arrival decision_timestamp_ns sample_ns = decision_timestamp_ns + sample_ns

abbrev pub or_else {ℓ} : {A : Type ℓ} → Option A → Option A → Option A
or_else none b = b
or_else (some a) b = some a

-- The order has arrived by the cutoff.
abbrev pub is_due : ℕ → Bool → PendingOrder → Bool
is_due cutoff inclusive order = ltb order.arrival cutoff || (inclusive && (order.arrival == cutoff))

-- The slippage of an execution against the price at the decision. A fill has a positive
-- size, so the total is never zero, where the code would raise.
abbrev pub average_price : List SimulatedFill → ℕ → ℕ
average_price fills zero = 0
average_price fills (suc n) =
    sum_by (λ (f : SimulatedFill). f.price_scaled * f.size_scaled) fills / suc n

abbrev pub slippage_of : Side → ℕ → ℕ → ℤ
slippage_of buy average reference = pos average -ℤ pos reference
slippage_of sell average reference = pos reference -ℤ pos average

unfoldable pub slippage : OrderIntent → List SimulatedFill → Option ℕ → List ℤ
slippage intent [] reference = []
slippage intent (fill ∷ fills) none = []
slippage intent (fill ∷ fills) (some reference) =
    let total_size = sum_by (λ (f : SimulatedFill). f.size_scaled) (fill ∷ fills) in
    slippage_of intent.side (average_price (fill ∷ fills) total_size) reference ∷ []

module _ {M : Type 0} ⦃d : SortedDict M⦄ where
  -- The best opposite price at the decision.
  abbrev pub reference_of : Side → Option (OrderBook M) → Option ℕ
  reference_of side none = none
  reference_of buy (some book) = best_ask book
  reference_of sell (some book) = best_bid book

module _ {M S : Type 0} ⦃d : SortedDict M⦄ where
  -- `__init__`
  unfoldable pub backtest_engine : BacktestConfig → S → BacktestEngine M S
  backtest_engine config start = record {
    clock = new_clock config.replay_clock;
    used_degraded = [];
    portfolio =
        portfolio config.starting_cash config.allow_negative_cash config.allow_short_positions;
    reconstructor = new_reconstructor;
    now_ns = 0;
    btc_prices = [];
    draws = 0;
    pending = [];
    intent_counter = 0;
    order_results = [];
    market_results = [];
    slippages = [];
    resolved_conditions = [];
    strategy_state = start;
  }

  abbrev pub context : BacktestEngine M S → StrategyContext M
  context engine = record {
    portfolio = engine.portfolio;
    now_ns = engine.now_ns;
    books = engine.reconstructor.books;
    btc_prices = engine.btc_prices;
  }

  -- The intent under its own identifier, a hash of the counter among others, so the counter here.
  abbrev pub deterministic : OrderIntent → BacktestEngine M S → OrderIntent
  deterministic intent engine = record intent {
    order_intent_id = engine.intent_counter;
    decision_reference_price_scaled =
        or_else (reference_of intent.side (lookup intent.token_id engine.reconstructor.books))
          intent.decision_reference_price_scaled;
  }

  -- `heapq.heappush(self.pending, ...)`
  abbrev pub push : PendingOrder → BacktestEngine M S → BacktestEngine M S
  push order engine = record engine { pending = put_in pending_le order engine.pending }

  abbrev pub record_result : OrderResult → BacktestEngine M S → BacktestEngine M S
  record_result result engine = record engine {
    order_results = engine.order_results ++ (result ∷ []);
  }

  -- The order is on its way.
  abbrev pub sent : ℕ → OrderIntent → BacktestEngine M S → BacktestEngine M S
  sent sample order engine =
      push
        (record {
          arrival = schedule_arrival order.decision_timestamp_ns sample;
          counter = engine.intent_counter;
          intent = order;
        })
        (record engine { intent_counter = suc engine.intent_counter; draws = suc engine.draws })

  -- A simulated limit order is refused at once.
  abbrev pub refused_limit : OrderIntent → BacktestEngine M S → BacktestEngine M S
  refused_limit order engine =
      let counted : BacktestEngine M S = record engine {
        intent_counter = suc engine.intent_counter;
      } in
      record_result (refuse order maker_unsupported) counted

  -- An order with its arrival, by the sample of its latency.
  abbrev pub send_off :
      Result LatencyError ℕ
      → OrderIntent
      → BacktestEngine M S
      → Result EngineError (BacktestEngine M S)
  send_off (err e) order engine = err (latency_error e)
  send_off (ok sample) order engine = ok (sent sample order engine)

  -- The body of `_schedule`'s loop.
  unfoldable pub schedule_intent :
      BacktestConfig → OrderIntent → BacktestEngine M S → Result EngineError (BacktestEngine M S)
  unfolding sample_ns
  schedule_intent config intent engine =
      let order = deterministic intent engine in
      if is_limit intent.order_type
      then ok (refused_limit order engine)
      else send_off (sample_ns config.latency engine.draws) order engine

  -- `_schedule`
  unfoldable pub schedule :
      BacktestConfig
      → List OrderIntent
      → BacktestEngine M S
      → Result EngineError (BacktestEngine M S)
  unfolding schedule_intent
  schedule config [] engine = ok engine
  schedule config (intent ∷ intents) engine =
      schedule_intent config intent engine >>= λ next. schedule config intents next

  -- `self.execution.execute(...)`, which changes the book in the reconstructor and the portfolio.
  abbrev pub executed :
      ℕ
      → Result PortfolioError OrderResult × Market M
      → BacktestEngine M S
      → Result EngineError (OrderResult × BacktestEngine M S)
  executed token (err e, market) engine = err (account_error e)
  executed token (ok result, market) engine = ok (
    result,
    record engine {
      portfolio = market.portfolio;
      reconstructor = store token market.book engine.reconstructor;
    },
  )

  abbrev pub execute_on :
      BacktestConfig
      → ℕ
      → OrderIntent
      → Option (OrderBook M)
      → BacktestEngine M S
      → Result EngineError (OrderResult × BacktestEngine M S)
  execute_on config arrival intent none engine = ok (refuse intent book_unavailable, engine)
  execute_on config arrival intent (some book) engine =
      executed intent.token_id
        (execute config.fees intent arrival (record { book = book; portfolio = engine.portfolio }))
        engine

  -- One order of `_execute_pending`, up to its result.
  unfoldable pub attempt :
      BacktestConfig
      → PendingOrder
      → BacktestEngine M S
      → Result EngineError (OrderResult × BacktestEngine M S)
  attempt config order engine =
      if any_of (λ condition. order.intent.condition_id == condition) engine.resolved_conditions
      then ok (refuse order.intent already_resolved, engine)
      else execute_on config order.arrival order.intent
          (lookup order.intent.token_id engine.reconstructor.books) engine

  abbrev pub add_slippage : OrderIntent → OrderResult → BacktestEngine M S → BacktestEngine M S
  add_slippage intent result engine = record engine {
    slippages =
        engine.slippages ++ slippage intent result.fills intent.decision_reference_price_scaled;
  }

  -- One order of `_execute_pending`, with its result and its slippage kept.
  unfoldable pub handle_order :
      BacktestConfig → PendingOrder → BacktestEngine M S → Result EngineError (BacktestEngine M S)
  unfolding attempt slippage
  handle_order config order engine = do
    done ← attempt config order engine
    ok (add_slippage order.intent done.0 (record_result done.0 done.1))

  -- `heapq.heappop(self.pending)` has left these.
  abbrev pub with_pending : List PendingOrder → BacktestEngine M S → BacktestEngine M S
  with_pending later engine = record engine { pending = later }

  -- The loop of `_execute_pending`, over what is pending: no order is pushed while it runs.
  unfoldable pub execute_due :
      BacktestConfig
      → ℕ
      → Bool
      → List PendingOrder
      → BacktestEngine M S
      → Result EngineError (BacktestEngine M S)
  unfolding handle_order
  execute_due config cutoff inclusive [] engine = ok engine
  execute_due config cutoff inclusive (order ∷ later) engine =
      if is_due cutoff inclusive order
      then handle_order config order (with_pending later engine)
        >>= (λ next. execute_due config cutoff inclusive later next)
      else ok engine

  unfoldable pub execute_pending :
      BacktestConfig → ℕ → Bool → BacktestEngine M S → Result EngineError (BacktestEngine M S)
  unfolding execute_due
  execute_pending config cutoff inclusive engine =
      execute_due config cutoff inclusive engine.pending engine
