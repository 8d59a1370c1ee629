-- ===== src/Engine/Steps.antt =====
-- The engine of src/polymarket_bt/backtest/engine.py as a step relation: what a run can do to its state,
-- one change after another.
use polymarket_btc_15min_bac.Base.{
  ℕ, zero, suc, ◌≡◌, refl, Bool, true, false, Option, none, some, List, [], ◌∷◌, length, Result, ok,
  err, ◌>>=◌, Returns, Returns-bind, Returns-after, Returns-ok, if-either, any_of, ◌==◌,
}
use polymarket_btc_15min_bac.Dict.{Dict, insert, lookup}
use polymarket_btc_15min_bac.SortedDict.{SortedDict}
use polymarket_btc_15min_bac.Models.{OrderIntent, OrderResult}
use polymarket_btc_15min_bac.Portfolio.{PortfolioError}
use polymarket_btc_15min_bac.Execution.{Market, execute}
use polymarket_btc_15min_bac.OrderBook.{OrderBook, BookSnapshot, BookLevelChange}
use polymarket_btc_15min_bac.Replay.{QualityInterval, QualityState, ReplayError}
use polymarket_btc_15min_bac.Reconstructor.{
  BookReconstructor, ReconstructorError, TickSizeChange, apply_snapshot, apply_change,
  apply_tick_size_change,
}
use polymarket_btc_15min_bac.Timeline.{
  ReplayEvent, Payload, book_snapshot, book_update, tick_size_change, btc_price, trade,
  market_resolution, other_event, BtcPriceEvent, timestamp, EventClock, advance, merge_events,
}
use polymarket_btc_15min_bac.Engine.{
  Strategy, BacktestConfig, BacktestEngine, EngineError, clock_error, raising, PendingOrder,
  schedule_intent, schedule, refused_limit, deterministic, sent, is_limit, send_off, sample_ns,
  LatencyError, handle_order, attempt, execute_on, executed, with_pending, is_due, execute_due,
  execute_pending, backtest_engine,
}
use polymarket_btc_15min_bac.Engine.Run.{
  settled, on_market, after_book, dispatch, apply_event, inspected, handle_event, advance_and_apply,
  handle_events, handle_group, handle_groups, drain, run, groups_of,
}

module _ {M S : Type 0} ⦃d : SortedDict M⦄ (config : BacktestConfig) where
  pub data Step : BacktestEngine M S → BacktestEngine M S → Type 0 where
    inspects :
        (engine : BacktestEngine M S) (used : List QualityInterval)
        → Step engine (record engine { used_degraded = used })
    moves :
        (engine : BacktestEngine M S) (clock : EventClock)
        → Step engine (record engine { clock = clock })
    enters : (engine : BacktestEngine M S) (now : ℕ) → Step engine (record engine { now_ns = now })
    quotes :
        (engine : BacktestEngine M S) (prices : Dict BtcPriceEvent)
        → Step engine (record engine { btc_prices = prices })
    decides :
        (engine : BacktestEngine M S) (state : S)
        → Step engine (record engine { strategy_state = state })
    replaces :
        (engine : BacktestEngine M S) (snapshot : BookSnapshot)
        → Step engine
            (record engine { reconstructor = (apply_snapshot snapshot engine.reconstructor).1 })
    changes :
        (engine : BacktestEngine M S) (change : BookLevelChange)
        → Step engine
            (record engine { reconstructor = (apply_change change engine.reconstructor).1 })
    resizes :
        (engine : BacktestEngine M S) (change : TickSizeChange)
        → Step engine (record engine {
          reconstructor = (apply_tick_size_change change engine.reconstructor).1;
        })
    settles :
        (engine : BacktestEngine M S) (condition winner : ℕ)
        → Step engine (settled condition winner engine)
    schedules :
        (engine : BacktestEngine M S) (intent : OrderIntent) (next : BacktestEngine M S)
        → schedule_intent config intent engine ≡ ok next
        → Step engine next
    handles :
        (engine : BacktestEngine M S) (order : PendingOrder) (later : List PendingOrder)
        (next : BacktestEngine M S)
        → engine.pending ≡ order ∷ later
        → handle_order config order (with_pending later engine) ≡ ok next
        → Step engine next

  pub data Steps : BacktestEngine M S → BacktestEngine M S → Type 0 where
    stop : {engine : BacktestEngine M S} → Steps engine engine
    next : {a b c : BacktestEngine M S} → Step a b → Steps b c → Steps a c

  one : {a b : BacktestEngine M S} → Step a b → Steps a b
  one h = next h stop

  pub Steps-trans : {a b c : BacktestEngine M S} → Steps a b → Steps b c → Steps a c
  Steps-trans stop s = s
  Steps-trans (next h rest) s = next h (Steps-trans rest s)

  -- What every step keeps, every sequence of steps keeps.
  pub Steps-keep :
      (P : BacktestEngine M S → Type 0)
      → ((a b : BacktestEngine M S) → Step a b → P a → P b)
      → {a b : BacktestEngine M S} → Steps a b
      → P a
      → P b
  Steps-keep P keep stop p = p
  Steps-keep P keep (next {a} {b} h rest) p = Steps-keep P keep rest (keep a b h p)

  abbrev Leads : BacktestEngine M S → Result EngineError (BacktestEngine M S) → Type 0
  Leads engine = Returns (Steps engine)

  Leads-extend :
      {a b : BacktestEngine M S} (r : Result EngineError (BacktestEngine M S))
      → Steps a b
      → Leads b r
      → Leads a r
  Leads-extend (ok last) s t = Steps-trans s t
  Leads-extend (err e) s t = tt

  Leads-bind :
      (engine : BacktestEngine M S) (r : Result EngineError (BacktestEngine M S))
      (f : BacktestEngine M S → Result EngineError (BacktestEngine M S))
      → Leads engine r
      → ((after : BacktestEngine M S) → Leads after (f after))
      → Leads engine (r >>= f)
  Leads-bind engine r f s h =
      Returns-bind (Steps engine) (Steps engine) r f s λ after t. Leads-extend (f after) t (h after)

  -- An intent that is scheduled is refused at once or sent off.
  pub schedule_intent-either :
      (P : BacktestEngine M S → Type 0) (intent : OrderIntent) (engine : BacktestEngine M S)
      → P (refused_limit (deterministic intent engine) engine)
      → ((sample : ℕ) → P (sent sample (deterministic intent engine) engine))
      → Returns P (schedule_intent config intent engine)
  unfolding schedule_intent
  schedule_intent-either P intent engine refused on_way =
      if-either (Returns P) (is_limit intent.order_type) refused
        (off (sample_ns config.latency engine.draws))
    where
      off :
          (r : Result LatencyError ℕ) → Returns P (send_off r (deterministic intent engine) engine)
      off (ok sample) = on_way sample
      off (err e) = tt

  scheduled-Step :
      (intent : OrderIntent) (engine : BacktestEngine M S)
      (r : Result EngineError (BacktestEngine M S))
      → schedule_intent config intent engine ≡ r
      → Leads engine r
  scheduled-Step intent engine (ok after) e = one (schedules engine intent after e)
  scheduled-Step intent engine (err x) e = tt

  pub schedule-Steps :
      (intents : List OrderIntent) (engine : BacktestEngine M S)
      → Leads engine (schedule config intents engine)
  unfolding schedule
  schedule-Steps [] engine = stop
  schedule-Steps (intent ∷ intents) engine =
      Leads-bind engine (schedule_intent config intent engine) (schedule config intents)
        (scheduled-Step intent engine (schedule_intent config intent engine) refl)
        (schedule-Steps intents)

  abbrev KeepsPending :
      BacktestEngine M S → {A : Type 0} → Result EngineError (A × BacktestEngine M S) → Type 0
  KeepsPending engine = Returns λ done. done.1.pending ≡ engine.pending

  executed-pending :
      (token : ℕ) (r : Result PortfolioError OrderResult × Market M) (engine : BacktestEngine M S)
      → KeepsPending engine (executed token r engine)
  executed-pending token (ok result, market) engine = refl
  executed-pending token (err e, market) engine = tt

  execute_on-pending :
      (arrival : ℕ) (intent : OrderIntent) (found : Option (OrderBook M))
      (engine : BacktestEngine M S)
      → KeepsPending engine (execute_on config arrival intent found engine)
  execute_on-pending arrival intent none engine = refl
  execute_on-pending arrival intent (some book) engine =
      executed-pending intent.token_id
        (execute config.fees intent arrival (record { book = book; portfolio = engine.portfolio }))
        engine

  attempt-pending :
      (order : PendingOrder) (engine : BacktestEngine M S)
      → KeepsPending engine (attempt config order engine)
  unfolding attempt
  attempt-pending order engine =
      if-either (KeepsPending engine)
        (any_of (λ condition. order.intent.condition_id == condition) engine.resolved_conditions)
        refl
        (execute_on-pending order.arrival order.intent
          (lookup order.intent.token_id engine.reconstructor.books) engine)

  pub handle_order-pending :
      (order : PendingOrder) (engine : BacktestEngine M S)
      → Returns (λ next. next.pending ≡ engine.pending) (handle_order config order engine)
  unfolding handle_order
  handle_order-pending order engine =
      Returns-bind (λ done. done.1.pending ≡ engine.pending) (λ next. next.pending ≡ engine.pending)
        (attempt config order engine) _ (attempt-pending order engine) λ done same. same

  handled-Step :
      (order : PendingOrder) (later : List PendingOrder) (engine : BacktestEngine M S)
      (r : Result EngineError (BacktestEngine M S))
      → engine.pending ≡ order ∷ later
      → handle_order config order (with_pending later engine) ≡ r
      → Returns (λ after. after.pending ≡ later) r
      → Returns (λ after. Steps engine after × (after.pending ≡ later)) r
  handled-Step order later engine (ok after) front e kept =
      (one (handles engine order later after front e), kept)
  handled-Step order later engine (err x) front e kept = tt

  execute_due-Steps :
      (cutoff : ℕ) (inclusive : Bool) (l : List PendingOrder) (engine : BacktestEngine M S)
      → engine.pending ≡ l
      → Leads engine (execute_due config cutoff inclusive l engine)
  unfolding execute_due
  execute_due-Steps cutoff inclusive [] engine sync = stop
  execute_due-Steps cutoff inclusive (order ∷ later) engine sync =
      let popped = with_pending later engine in
      let handled =
        handled-Step order later engine (handle_order config order popped) sync refl
          (handle_order-pending order popped) in
      if-either (Leads engine) (is_due cutoff inclusive order)
        (Returns-bind (λ after. Steps engine after × (after.pending ≡ later)) (Steps engine)
          (handle_order config order popped) (execute_due config cutoff inclusive later) handled
          λ after (s, kept).
            Leads-extend (execute_due config cutoff inclusive later after) s
              (execute_due-Steps cutoff inclusive later after kept))
        stop

  pub execute_pending-Steps :
      (cutoff : ℕ) (inclusive : Bool) (engine : BacktestEngine M S)
      → Leads engine (execute_pending config cutoff inclusive engine)
  unfolding execute_pending
  execute_pending-Steps cutoff inclusive engine =
      execute_due-Steps cutoff inclusive engine.pending engine refl

  pub drain-Steps :
      (fuel : ℕ) (l : List PendingOrder) (engine : BacktestEngine M S)
      → Leads engine (drain config fuel l engine)
  unfolding drain
  drain-Steps fuel [] engine = stop
  drain-Steps zero (order ∷ later) engine = stop
  drain-Steps (suc fuel) (order ∷ later) engine =
      Leads-bind engine (execute_pending config order.arrival true engine) _
        (execute_pending-Steps order.arrival true engine)
        λ after. drain-Steps fuel after.pending after

  module _ (strategy : Strategy M S) where
    -- A list of intents beside the engine.
    abbrev LeadsBeside :
        BacktestEngine M S → Result EngineError (List OrderIntent × BacktestEngine M S) → Type 0
    LeadsBeside engine = Returns λ pair. Steps engine pair.1

    on_market-Steps :
        (event : ReplayEvent) (engine : BacktestEngine M S)
        → Steps engine (on_market strategy config event engine).1
    on_market-Steps event engine = one (decides engine _)

    after_book-Steps :
        {A : Type 0} (event : ReplayEvent) (u : Result ReconstructorError A × BookReconstructor M)
        (engine : BacktestEngine M S)
        → Step engine (record engine { reconstructor = u.1 })
        → LeadsBeside engine (after_book strategy config event u engine)
    after_book-Steps event (err e, r) engine h = tt
    after_book-Steps event (ok _, r) engine h =
        next h (on_market-Steps event (record engine { reconstructor = r }))

    dispatch-Steps :
        (payload : Payload) (event : ReplayEvent) (engine : BacktestEngine M S)
        → LeadsBeside engine (dispatch strategy config payload event engine)
    unfolding dispatch
    dispatch-Steps (book_snapshot snapshot) event engine =
        after_book-Steps event (apply_snapshot snapshot engine.reconstructor) engine
          (replaces engine snapshot)
    dispatch-Steps (book_update change) event engine =
        after_book-Steps event (apply_change change engine.reconstructor) engine
          (changes engine change)
    dispatch-Steps (tick_size_change change) event engine =
        after_book-Steps event (apply_tick_size_change change engine.reconstructor) engine
          (resizes engine change)
    dispatch-Steps (btc_price price) event engine =
        next (quotes engine (insert price.source price engine.btc_prices)) (one (decides _ _))
    dispatch-Steps (trade print) event engine = one (decides engine _)
    dispatch-Steps (market_resolution condition winner) event engine =
        next (settles engine condition winner) (one (decides _ _))
    dispatch-Steps other_event event engine = stop

    apply_event-Steps :
        (event : ReplayEvent) (engine : BacktestEngine M S)
        → LeadsBeside engine (apply_event strategy config event engine)
    unfolding apply_event
    apply_event-Steps event engine =
        Returns-after (λ pair. Steps engine pair.1)
          (raising clock_error (timestamp config.replay_clock event)) _
          λ now.
            extend (dispatch strategy config event.payload event (record engine { now_ns = now }))
              (enters engine now)
              (dispatch-Steps event.payload event (record engine { now_ns = now }))
      where
        extend :
            {a b : BacktestEngine M S}
            (r : Result EngineError (List OrderIntent × BacktestEngine M S))
            → Step a b
            → LeadsBeside b r
            → LeadsBeside a r
        extend (ok pair) h s = next h s
        extend (err e) h s = tt

    inspected-Steps :
        (u : Result ReplayError QualityState × List QualityInterval) (engine : BacktestEngine M S)
        → Leads engine (inspected u engine)
    inspected-Steps (ok _, used) engine = one (inspects engine used)
    inspected-Steps (err e, used) engine = tt

    advance_and_apply-Steps :
        (event : ReplayEvent) (engine : BacktestEngine M S)
        → Leads engine (advance_and_apply strategy config event engine)
    unfolding advance_and_apply
    advance_and_apply-Steps event engine =
        Returns-after (Steps engine) (raising clock_error (advance event engine.clock)) _ λ moved.
          let ticked : BacktestEngine M S = record engine { clock = moved.1 } in
          Returns-bind (λ pair. Steps ticked pair.1) (Steps engine)
            (apply_event strategy config event ticked) _ (apply_event-Steps event ticked)
            λ pair s.
              Leads-extend (schedule config pair.0 pair.1) (next (moves engine moved.1) s)
                (schedule-Steps pair.0 pair.1)

    handle_event-Steps :
        (event : ReplayEvent) (engine : BacktestEngine M S)
        → Leads engine (handle_event strategy config event engine)
    unfolding handle_event
    handle_event-Steps event engine =
        Leads-bind engine _ (advance_and_apply strategy config event) (inspected-Steps _ engine)
          (advance_and_apply-Steps event)

    handle_events-Steps :
        (events : List ReplayEvent) (engine : BacktestEngine M S)
        → Leads engine (handle_events strategy config events engine)
    unfolding handle_events
    handle_events-Steps [] engine = stop
    handle_events-Steps (event ∷ events) engine =
        Leads-bind engine (handle_event strategy config event engine) _
          (handle_event-Steps event engine) (handle_events-Steps events)

    handle_group-Steps :
        (t : ℕ) (group : List ReplayEvent) (engine : BacktestEngine M S)
        → Leads engine (handle_group strategy config t group engine)
    unfolding handle_group
    handle_group-Steps t group engine =
        Leads-bind engine (execute_pending config t false engine) _
          (execute_pending-Steps t false engine)
          λ earlier.
            Leads-bind earlier (handle_events strategy config group earlier) _
              (handle_events-Steps group earlier) (execute_pending-Steps t true)

    handle_groups-Steps :
        (groups : List (ℕ × List ReplayEvent)) (engine : BacktestEngine M S)
        → Leads engine (handle_groups strategy config groups engine)
    unfolding handle_groups
    handle_groups-Steps [] engine = stop
    handle_groups-Steps ((t, group) ∷ groups) engine =
        Leads-bind engine (handle_group strategy config t group engine) _
          (handle_group-Steps t group engine) (handle_groups-Steps groups)

    -- A run that returns has gone from the new engine to the state it ends in by these steps, so that
    -- what every step keeps holds at the end.
    pub run-Steps :
        (events : List ReplayEvent) (start : S) (final : BacktestEngine M S)
        → run strategy config events start ≡ ok final
        → Steps (backtest_engine config start) final
    unfolding run
    run-Steps events start final e =
        let fresh : BacktestEngine M S = backtest_engine config start in
        Returns-ok (Steps fresh) _
          (Returns-after (Steps fresh)
            (raising clock_error (merge_events config.replay_clock events)) _
            λ ordered.
              Returns-after (Steps fresh)
                (raising clock_error (groups_of config.replay_clock ordered)) _
                λ groups. Leads-extend _ (one (decides fresh _)) (
                  Leads-bind _ (handle_groups strategy config groups _) _
                    (handle_groups-Steps groups _)
                    λ handled. drain-Steps (length handled.pending) handled.pending handled))
          e
