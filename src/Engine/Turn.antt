-- ===== src/Engine/Turn.antt =====
-- One event of src/polymarket_bt/backtest/engine.py: which settlement it makes, which method of the
-- strategy answers it, and that just the intents of the answer are scheduled.
use polymarket_btc_15min_bac.Base.{
  ℕ, ◌≡◌, refl, sym, List, [], ◌∷◌, ◌++◌, Result, ok, err, ◌>>=◌, Returns, Returns-bind,
  Returns-after, Returns-ok, append-nil,
}
use polymarket_btc_15min_bac.SortedDict.{SortedDict}
use polymarket_btc_15min_bac.Models.{OrderIntent}
use polymarket_btc_15min_bac.Portfolio.Identity.{Call, settle_call}
use polymarket_btc_15min_bac.Replay.{QualityInterval, QualityState, ReplayError, check}
use polymarket_btc_15min_bac.Reconstructor.{BookReconstructor, ReconstructorError}
use polymarket_btc_15min_bac.Timeline.{
  ReplayClockMode, ReplayEvent, Payload, book_snapshot, book_update, tick_size_change, btc_price,
  trade, market_resolution, other_event, BtcPriceEvent, TradeEvent, ClockError, timestamp, advance,
}
use polymarket_btc_15min_bac.Engine.{
  Strategy, StrategyContext, MarketCloseEvent, BacktestConfig, BacktestEngine, EngineError,
  clock_error, raising, schedule,
}
use polymarket_btc_15min_bac.Engine.Run.{
  after_book, dispatch, apply_event, inspected, advance_and_apply, handle_event,
}
use polymarket_btc_15min_bac.Engine.Account.{settle_calls, settle_calls-append}

-- The settlement that an event asks for, at its time.
abbrev pub resolution_at : ℕ → Payload → List Call
resolution_at t (market_resolution condition winner) = settle_call condition winner t ∷ []
resolution_at t (book_snapshot snapshot) = []
resolution_at t (book_update change) = []
resolution_at t (tick_size_change change) = []
resolution_at t (btc_price price) = []
resolution_at t (trade print) = []
resolution_at t other_event = []

abbrev pub dated_resolution : Result ClockError ℕ → Payload → List Call
dated_resolution (ok t) payload = resolution_at t payload
dated_resolution (err e) payload = []

-- The resolutions among the events, in their order, each at the time of the replay's clock.
unfoldable pub resolutions : ReplayClockMode → List ReplayEvent → List Call
resolutions mode [] = []
resolutions mode (event ∷ events) =
    dated_resolution (timestamp mode event) event.payload ++ resolutions mode events

-- The answer of one of the strategy's methods, from a state, or silence.
pub data Reply {M S : Type 0} (strategy : Strategy M S) : S → List OrderIntent × S → Type 0 where
  by_market :
      (event : ReplayEvent) (now : StrategyContext M) (s : S)
      → Reply strategy s (strategy.on_market_event event now s)
  by_price :
      (price : BtcPriceEvent) (now : StrategyContext M) (s : S)
      → Reply strategy s (strategy.on_btc_price price now s)
  by_trade :
      (print : TradeEvent) (now : StrategyContext M) (s : S)
      → Reply strategy s (strategy.on_trade print now s)
  by_close :
      (close : MarketCloseEvent) (now : StrategyContext M) (s : S)
      → Reply strategy s (strategy.on_market_close close now s)
  silent : (s : S) → Reply strategy s ([], s)

module _ {M S : Type 0} ⦃d : SortedDict M⦄ (strategy : Strategy M S) (config : BacktestConfig) where
  -- A turn makes these settlements, touches no order, and has the strategy's answer.
  pub record Turn (calls : List Call) (before : BacktestEngine M S)
      (pair : List OrderIntent × BacktestEngine M S) : Type 0 where
    pub settlements :
        settle_calls pair.1.market_results ≡ settle_calls before.market_results ++ calls
    pub results : pair.1.order_results ≡ before.order_results
    pub queue : pair.1.pending ≡ before.pending
    pub counter : pair.1.intent_counter ≡ before.intent_counter
    pub reply : Reply strategy before.strategy_state (pair.0, pair.1.strategy_state)

  after_book-Turn :
      {A : Type 0} (event : ReplayEvent) (u : Result ReconstructorError A × BookReconstructor M)
      (engine : BacktestEngine M S)
      → Returns (Turn [] engine) (after_book strategy config event u engine)
  after_book-Turn event (err e, r) engine = tt
  after_book-Turn event (ok _, r) engine = record {
    settlements = sym (append-nil _);
    results = refl;
    queue = refl;
    counter = refl;
    reply = by_market event _ _;
  }

  dispatch-Turn :
      (payload : Payload) (event : ReplayEvent) (engine : BacktestEngine M S)
      → Returns
          (Turn (resolution_at engine.now_ns payload) engine)
          (dispatch strategy config payload event engine)
  unfolding dispatch
  dispatch-Turn (book_snapshot snapshot) event engine = after_book-Turn event _ engine
  dispatch-Turn (book_update change) event engine = after_book-Turn event _ engine
  dispatch-Turn (tick_size_change change) event engine = after_book-Turn event _ engine
  dispatch-Turn (btc_price price) event engine = record {
    settlements = sym (append-nil _);
    results = refl;
    queue = refl;
    counter = refl;
    reply = by_price price _ _;
  }
  dispatch-Turn (trade print) event engine = record {
    settlements = sym (append-nil _);
    results = refl;
    queue = refl;
    counter = refl;
    reply = by_trade print _ _;
  }
  dispatch-Turn (market_resolution condition winner) event engine = record {
    settlements = settle_calls-append engine.market_results _;
    results = refl;
    queue = refl;
    counter = refl;
    reply = by_close _ _ _;
  }
  dispatch-Turn other_event event engine = record {
    settlements = sym (append-nil _);
    results = refl;
    queue = refl;
    counter = refl;
    reply = silent _;
  }

  -- An event's turn, whose intents are then scheduled.
  abbrev pub TakesTurn : ReplayEvent → BacktestEngine M S → BacktestEngine M S → Type 0
  TakesTurn event before after =
      (pair : List OrderIntent × BacktestEngine M S) × Turn
        (dated_resolution (timestamp config.replay_clock event) event.payload) before pair
      × (schedule config pair.0 pair.1 ≡ ok after)

  apply_event-Turn :
      (event : ReplayEvent) (engine : BacktestEngine M S)
      → Returns
          (Turn (dated_resolution (timestamp config.replay_clock event) event.payload) engine)
          (apply_event strategy config event engine)
  unfolding apply_event
  apply_event-Turn event engine = at_time (timestamp config.replay_clock event)
    where
      moved :
          (t : ℕ) (calls : List Call)
          (r : Result EngineError (List OrderIntent × BacktestEngine M S))
          → Returns (Turn calls (record engine { now_ns = t })) r
          → Returns (Turn calls engine) r
      moved t calls (ok pair) h = record {
        settlements = h.settlements;
        results = h.results;
        queue = h.queue;
        counter = h.counter;
        reply = h.reply;
      }
      moved t calls (err e) h = tt

      at_time :
          (r : Result ClockError ℕ)
          → Returns (Turn (dated_resolution r event.payload) engine) (
              raising clock_error r >>= λ now.
              dispatch strategy config event.payload event (record engine { now_ns = now }))
      at_time (err e) = tt
      at_time (ok t) =
          moved t (resolution_at t event.payload) _
            (dispatch-Turn event.payload event (record engine { now_ns = t }))

  advance_and_apply-Turn :
      (event : ReplayEvent) (engine : BacktestEngine M S)
      → Returns (TakesTurn event engine) (advance_and_apply strategy config event engine)
  unfolding advance_and_apply
  advance_and_apply-Turn event engine =
      Returns-after (TakesTurn event engine) (raising clock_error (advance event engine.clock)) _
        λ moved.
          let ticked : BacktestEngine M S = record engine { clock = moved.1 } in
          Returns-bind
            (Turn (dated_resolution (timestamp config.replay_clock event) event.payload) ticked)
            (TakesTurn event engine) (apply_event strategy config event ticked) _
            (apply_event-Turn event ticked)
            λ pair h.
              ending pair
                (record {
                  settlements = h.settlements;
                  results = h.results;
                  queue = h.queue;
                  counter = h.counter;
                  reply = h.reply;
                })
                (schedule config pair.0 pair.1) refl
    where
      ending :
          (pair : List OrderIntent × BacktestEngine M S)
          → Turn (dated_resolution (timestamp config.replay_clock event) event.payload) engine pair
          → (r : Result EngineError (BacktestEngine M S)) → schedule config pair.0 pair.1 ≡ r
          → Returns (TakesTurn event engine) r
      ending pair h (ok after) e = (pair, h, e)
      ending pair h (err x) e = tt

  pub handle_event-TakesTurn :
      (event : ReplayEvent) (before after : BacktestEngine M S)
      → handle_event strategy config event before ≡ ok after
      → TakesTurn event before after
  unfolding handle_event
  handle_event-TakesTurn event before after e =
      Returns-ok (TakesTurn event before) _
        (checked (
          check config.reject_on_gap event.received_utc_ns config.quality_intervals
            before.used_degraded))
        e
    where
      unchecked :
          (used : List QualityInterval) (r : Result EngineError (BacktestEngine M S))
          → Returns (TakesTurn event (record before { used_degraded = used })) r
          → Returns (TakesTurn event before) r
      unchecked used (ok last) (pair, h, e) = (
        pair,
        record {
          settlements = h.settlements;
          results = h.results;
          queue = h.queue;
          counter = h.counter;
          reply = h.reply;
        },
        e,
      )
      unchecked used (err x) h = tt

      checked :
          (u : Result ReplayError QualityState × List QualityInterval)
          → Returns
              (TakesTurn event before)
              (inspected u before >>= advance_and_apply strategy config event)
      checked (err x, used) = tt
      checked (ok _, used) =
          unchecked used _ (advance_and_apply-Turn event (record before { used_degraded = used }))
