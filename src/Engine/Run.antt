-- ===== src/Engine/Run.antt =====
-- What the engine does with an event, and its run over all of them: `_apply_event` and `run` of
-- src/polymarket_bt/backtest/engine.py, with `settle_categorical_market` of
-- src/polymarket_bt/backtest/settlement.py.
use polymarket_btc_15min_bac.Base.{
  ℕ, zero, suc, true, false, List, [], ◌∷◌, ◌++◌, ◌==◌, if◌then◌else◌, length, Result, ok, err,
  ◌>>=◌, any_of,
}
use polymarket_btc_15min_bac.Dict.{insert}
use polymarket_btc_15min_bac.SortedDict.{SortedDict}
use polymarket_btc_15min_bac.Models.{OrderIntent}
use polymarket_btc_15min_bac.Portfolio.{settle_market}
use polymarket_btc_15min_bac.Replay.{ReplayError, QualityState, QualityInterval, check}
use polymarket_btc_15min_bac.Reconstructor.{
  BookReconstructor, ReconstructorError, apply_snapshot, apply_change, apply_tick_size_change,
}
use polymarket_btc_15min_bac.Timeline.{
  ReplayEvent, Payload, book_snapshot, book_update, tick_size_change, btc_price, trade,
  market_resolution, other_event, ReplayClockMode, ClockError, timestamp, advance, merge_events,
}
use polymarket_btc_15min_bac.Engine.{
  Strategy, BacktestConfig, BacktestEngine, EngineError, clock_error, replay_error, book_error,
  raising, PendingOrder, context, schedule, execute_pending, backtest_engine,
}

-- The events that share a time, with it: how the loop of `run` cuts the merged events.
abbrev pub join_group : ℕ → ReplayEvent → List (ℕ × List ReplayEvent) → List (ℕ × List ReplayEvent)
join_group t event [] = (t, event ∷ []) ∷ []
join_group t event (group ∷ groups) =
    if t == group.0 then (t, event ∷ group.1) ∷ groups else (t, event ∷ []) ∷ group ∷ groups

unfoldable pub groups_of :
    ReplayClockMode → List ReplayEvent → Result ClockError (List (ℕ × List ReplayEvent))
groups_of mode [] = ok []
groups_of mode (event ∷ events) = do
  t ← timestamp mode event
  later ← groups_of mode events
  ok (join_group t event later)

-- `condition_id` joins the set of the resolved markets.
abbrev pub add_condition : ℕ → List ℕ → List ℕ
add_condition condition resolved =
    if any_of (λ known. condition == known) resolved then resolved else condition ∷ resolved

module _ {M S : Type 0} where
  -- What a strategy's method returns, and the engine with the state it leaves.
  abbrev pub decided :
      List OrderIntent × S → BacktestEngine M S → List OrderIntent × BacktestEngine M S
  decided (intents, state) engine = (intents, record engine { strategy_state = state })

  -- The branch of a resolution, up to the strategy's turn.
  abbrev pub settled : ℕ → ℕ → BacktestEngine M S → BacktestEngine M S
  settled condition winner engine =
      let (payout, p) = settle_market condition winner engine.now_ns engine.portfolio in
      record engine {
        portfolio = p;
        resolved_conditions = add_condition condition engine.resolved_conditions;
        market_results =
            engine.market_results
            ++ (record {
              condition_id = condition;
              winning_token_id = winner;
              settlement_timestamp_ns = engine.now_ns;
              payout_scaled = payout;
            }
                ∷ []);
      }

  -- `self.integrity.check(...)`
  abbrev pub inspected :
      Result ReplayError QualityState × List QualityInterval
      → BacktestEngine M S
      → Result EngineError (BacktestEngine M S)
  inspected (err e, used) engine = err (replay_error e)
  inspected (ok _, used) engine = ok (record engine { used_degraded = used })

module _ {M S : Type 0} ⦃d : SortedDict M⦄ (config : BacktestConfig) where
  -- The last loop: the orders that are still on their way. Each round takes at least the first.
  unfoldable pub drain :
      ℕ → List PendingOrder → BacktestEngine M S → Result EngineError (BacktestEngine M S)
  drain fuel [] engine = ok engine
  drain zero (order ∷ later) engine = ok engine
  drain (suc fuel) (order ∷ later) engine =
      execute_pending config order.arrival true engine >>= λ next. drain fuel next.pending next

module _ {M S : Type 0} ⦃d : SortedDict M⦄ (strategy : Strategy M S) (config : BacktestConfig) where
  abbrev pub on_market : ReplayEvent → BacktestEngine M S → List OrderIntent × BacktestEngine M S
  on_market event engine =
      decided (strategy.on_market_event event (context engine) engine.strategy_state) engine

  -- A book event: the reconstructor, and then the strategy on what it left.
  abbrev pub after_book :
      {A : Type 0}
      → ReplayEvent
      → Result ReconstructorError A × BookReconstructor M
      → BacktestEngine M S
      → Result EngineError (List OrderIntent × BacktestEngine M S)
  after_book event (err e, r) engine = err (book_error e)
  after_book event (ok _, r) engine = ok (on_market event (record engine { reconstructor = r }))

  abbrev pub on_close : ℕ → ℕ → BacktestEngine M S → List OrderIntent × BacktestEngine M S
  on_close condition winner engine =
      decided
        (strategy.on_market_close
          (record {
            timestamp_ns = engine.now_ns;
            condition_id = condition;
            winning_token_id = winner;
          })
          (context engine) engine.strategy_state)
        engine

  unfoldable pub dispatch :
      Payload
      → ReplayEvent
      → BacktestEngine M S
      → Result EngineError (List OrderIntent × BacktestEngine M S)
  dispatch (book_snapshot snapshot) event engine =
      after_book event (apply_snapshot snapshot engine.reconstructor) engine
  dispatch (book_update change) event engine =
      after_book event (apply_change change engine.reconstructor) engine
  dispatch (tick_size_change change) event engine =
      after_book event (apply_tick_size_change change engine.reconstructor) engine
  dispatch (btc_price price) event engine =
      let priced : BacktestEngine M S = record engine {
        btc_prices = insert price.source price engine.btc_prices;
      } in
      ok (decided (strategy.on_btc_price price (context priced) engine.strategy_state) priced)
  dispatch (trade print) event engine =
      ok (decided (strategy.on_trade print (context engine) engine.strategy_state) engine)
  dispatch (market_resolution condition winner) event engine =
      ok (on_close condition winner (settled condition winner engine))
  dispatch other_event event engine = ok ([], engine)

  -- `_apply_event`
  unfoldable pub apply_event :
      ReplayEvent → BacktestEngine M S → Result EngineError (List OrderIntent × BacktestEngine M S)
  unfolding dispatch
  apply_event event engine = do
    now ← raising clock_error (timestamp config.replay_clock event)
    dispatch event.payload event (record engine { now_ns = now })

  -- One event of a group, after its check.
  unfoldable pub advance_and_apply :
      ReplayEvent → BacktestEngine M S → Result EngineError (BacktestEngine M S)
  unfolding apply_event
  advance_and_apply event engine = do
    moved ← raising clock_error (advance event engine.clock)
    decided ← apply_event event (record engine { clock = moved.1 })
    schedule config decided.0 decided.1

  -- One event of a group.
  unfoldable pub handle_event :
      ReplayEvent → BacktestEngine M S → Result EngineError (BacktestEngine M S)
  unfolding advance_and_apply
  handle_event event engine =
      let result =
        check config.reject_on_gap event.received_utc_ns config.quality_intervals
          engine.used_degraded in
      inspected result engine >>= advance_and_apply event

  unfoldable pub handle_events :
      List ReplayEvent → BacktestEngine M S → Result EngineError (BacktestEngine M S)
  unfolding handle_event
  handle_events [] engine = ok engine
  handle_events (event ∷ events) engine =
      handle_event event engine >>= λ next. handle_events events next

  -- The body of the loop over the groups.
  unfoldable pub handle_group :
      ℕ → List ReplayEvent → BacktestEngine M S → Result EngineError (BacktestEngine M S)
  unfolding handle_events
  handle_group t group engine = do
    earlier ← execute_pending config t false engine
    handled ← handle_events group earlier
    execute_pending config t true handled

  unfoldable pub handle_groups :
      List (ℕ × List ReplayEvent) → BacktestEngine M S → Result EngineError (BacktestEngine M S)
  unfolding handle_group
  handle_groups [] engine = ok engine
  handle_groups ((t, group) ∷ groups) engine =
      handle_group t group engine >>= λ next. handle_groups groups next

  -- `run`, up to the summary.
  unfoldable pub run : List ReplayEvent → S → Result EngineError (BacktestEngine M S)
  unfolding handle_groups groups_of drain
  run events start = do
    ordered ← raising clock_error (merge_events config.replay_clock events)
    groups ← raising clock_error (groups_of config.replay_clock ordered)
    let fresh : BacktestEngine M S = backtest_engine config start
    let started : BacktestEngine M S = record fresh {
      strategy_state = strategy.on_start (context fresh) start;
    }
    handled ← handle_groups groups started
    drain config (length handled.pending) handled.pending handled
