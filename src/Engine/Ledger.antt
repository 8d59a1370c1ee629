-- ===== src/Engine/Ledger.antt =====
-- The account of a whole backtest of src/polymarket_bt/backtest/engine.py: its portfolio against the order
-- results and market results that the run returns, and against the resolutions of the feed.
use polymarket_btc_15min_bac.Base.{
  ◌≡◌, ◌∙◌, ap, refl, sym, List, [], ◌∷◌, ◌++◌, Result, ok, err, Returns, Returns-bind, Returns-ok,
  append_assoc, append-nil, pos, ◌+ℤ◌, subst,
}
use polymarket_btc_15min_bac.Dict.{total}
use polymarket_btc_15min_bac.SortedDict.{SortedDict}
use polymarket_btc_15min_bac.Models.{OrderIntent}
use polymarket_btc_15min_bac.Portfolio.Identity.{Call, cost_of, run-cash}
use polymarket_btc_15min_bac.Portfolio.Identity as Account
use polymarket_btc_15min_bac.Timeline.{ReplayEvent, merge_events}
use polymarket_btc_15min_bac.Engine.{
  Strategy, BacktestConfig, BacktestEngine, EngineError, schedule, schedule_intent, handle_order,
  with_pending, backtest_engine,
}
use polymarket_btc_15min_bac.Engine.Run.{run}
use polymarket_btc_15min_bac.Engine.Steps.{schedule_intent-either}
use polymarket_btc_15min_bac.Engine.Trace.{Trace, stop, takes, answers, run-Trace}
use polymarket_btc_15min_bac.Engine.Account.{
  Interleaves, fill_calls, settle_calls, fees_paid, fresh_account, run-IsAccounted,
  handle_order-PaysOne, PaysOne,
}
use polymarket_btc_15min_bac.Engine.Turn.{resolutions, handle_event-TakesTurn}

module _ {M S : Type 0} ⦃d : SortedDict M⦄ (config : BacktestConfig) where
  abbrev KeepsMarkets : BacktestEngine M S → BacktestEngine M S → Type 0
  KeepsMarkets engine after = after.market_results ≡ engine.market_results

  schedule-markets :
      (intents : List OrderIntent) (engine : BacktestEngine M S)
      → Returns (KeepsMarkets engine) (schedule config intents engine)
  unfolding schedule
  schedule-markets [] engine = refl
  schedule-markets (intent ∷ intents) engine =
      Returns-bind (KeepsMarkets engine) (KeepsMarkets engine)
        (schedule_intent config intent engine) (schedule config intents)
        (schedule_intent-either config (KeepsMarkets engine) intent engine refl (λ sample. refl))
        λ middle same.
          widen middle same (schedule config intents middle) (schedule-markets intents middle)
    where
      widen :
          (middle : BacktestEngine M S)
          → KeepsMarkets engine middle
          → (r : Result EngineError (BacktestEngine M S)) → Returns (KeepsMarkets middle) r
          → Returns (KeepsMarkets engine) r
      widen middle same (ok after) h = h ∙ same
      widen middle same (err e) h = tt

  module _ (strategy : Strategy M S) where
    Trace-settlements :
        {events : List ReplayEvent} {a b : BacktestEngine M S}
        → Trace strategy config events a b
        → settle_calls b.market_results
          ≡ settle_calls a.market_results ++ resolutions config.replay_clock events
    unfolding resolutions
    Trace-settlements stop = sym (append-nil _)
    Trace-settlements (takes {event} {events} {a} {b} e rest) =
        let (pair, turn, scheduled) = handle_event-TakesTurn strategy config event a b e in
        let same =
          Returns-ok (KeepsMarkets pair.1) (schedule config pair.0 pair.1)
            (schedule-markets pair.0 pair.1) scheduled in
        Trace-settlements rest
        ∙ ap (λ l. l ++ resolutions config.replay_clock events)
            (ap settle_calls same ∙ turn.settlements)
        ∙ append_assoc (settle_calls a.market_results) _ _
    Trace-settlements (answers {order} {later} {events} {a} {b} front e rest) =
        let popped = with_pending later a in
        let (result, _, markets, _, _) =
          Returns-ok (PaysOne config popped) (handle_order config order popped)
            (handle_order-PaysOne config order popped) e in
        Trace-settlements rest
        ∙ ap (λ m. settle_calls m ++ resolutions config.replay_clock events) markets

    -- Whatever the events and the strategy, a backtest that returns has an account that is made from the
    -- fresh one by these calls alone, each once and in its order: the fills of the order results, and the
    -- settlements of the market results, which are the resolutions among the merged events, with the
    -- winner that the event names, at its time. And so its cash and the cost of what it holds, with
    -- the fees of the BUY fills among the order results, are the starting cash and the realized
    -- result.
    pub run-account :
        (events : List ReplayEvent) (start : S) (final : BacktestEngine M S)
        → run strategy config events start ≡ ok final
        → (ordered : List ReplayEvent) × (merge_events config.replay_clock events ≡ ok ordered)
          × (settle_calls final.market_results ≡ resolutions config.replay_clock ordered)
          × ((cs : List Call) × Interleaves
                (fill_calls final.order_results)
                (resolutions config.replay_clock ordered)
                cs
              × (final.portfolio ≡ Account.run cs (fresh_account config)))
          × (final.portfolio.available_cash_scaled
                +ℤ total cost_of final.portfolio.positions
                +ℤ pos (fees_paid final.order_results)
              ≡ config.starting_cash +ℤ final.portfolio.realized_pnl_scaled)
    unfolding backtest_engine
    run-account events start final e =
        let (ordered, merged, trace) = run-Trace strategy config events start final e in
        let (cs, parts, same, fees) = run-IsAccounted config strategy events start final e in
        let settled = Trace-settlements trace in
        let cash =
          run-cash cs config.starting_cash config.allow_negative_cash
            config.allow_short_positions in
        (
          ordered,
          merged,
          settled,
          (cs, subst (λ l. Interleaves (fill_calls final.order_results) l cs) settled parts, same),
          rw (same, ← fees) cash,
        )
