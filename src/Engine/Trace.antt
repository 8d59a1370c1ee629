-- ===== src/Engine/Trace.antt =====
-- A run of src/polymarket_bt/backtest/engine.py as the events it takes and the orders it answers, one
-- after another: what happens between them is the whole of `handle_event` and of `handle_order`.
use polymarket_btc_15min_bac.Base.{
  ℕ, zero, suc, ◌≡◌, ◌∙◌, ap, refl, Bool, true, false, List, [], ◌∷◌, ◌++◌, ◌==◌, length, Result,
  ok, err, ◌>>=◌, Returns, Returns-bind, Returns-after, Returns-ok, if-either, subst,
}
use polymarket_btc_15min_bac.SortedDict.{SortedDict}
use polymarket_btc_15min_bac.Timeline.{
  ReplayEvent, ReplayClockMode, ClockError, timestamp, merge_events,
}
use polymarket_btc_15min_bac.Engine.{
  Strategy, BacktestConfig, BacktestEngine, EngineError, clock_error, raising, PendingOrder,
  handle_order, with_pending, is_due, execute_due, execute_pending, backtest_engine, context,
}
use polymarket_btc_15min_bac.Engine.Run.{
  join_group, groups_of, handle_event, handle_events, handle_group, handle_groups, drain, run,
}
use polymarket_btc_15min_bac.Engine.Steps.{handle_order-pending}

-- The events of the groups, in order.
abbrev pub flatten : List (ℕ × List ReplayEvent) → List ReplayEvent
flatten [] = []
flatten (group ∷ groups) = group.1 ++ flatten groups

pub join_group-flatten :
    (t : ℕ) (event : ReplayEvent) (groups : List (ℕ × List ReplayEvent))
    → flatten (join_group t event groups) ≡ event ∷ flatten groups
join_group-flatten t event [] = refl
join_group-flatten t event (group ∷ groups) =
    if-either (λ gs. flatten gs ≡ event ∷ flatten (group ∷ groups)) (t == group.0) refl refl

groups_of-flatten :
    (mode : ReplayClockMode) (events : List ReplayEvent)
    → Returns (λ groups. flatten groups ≡ events) (groups_of mode events)
unfolding groups_of
groups_of-flatten mode [] = refl
groups_of-flatten mode (event ∷ events) =
    Returns-after (λ groups. flatten groups ≡ event ∷ events) (timestamp mode event) _
      λ t.
        Returns-bind (λ groups. flatten groups ≡ events) (λ groups. flatten groups ≡ event ∷ events)
          (groups_of mode events) _ (groups_of-flatten mode events)
          λ groups same. join_group-flatten t event groups ∙ ap (◌∷◌ event) same

module _ {M S : Type 0} ⦃d : SortedDict M⦄ (strategy : Strategy M S) (config : BacktestConfig) where
  pub data Trace : List ReplayEvent → BacktestEngine M S → BacktestEngine M S → Type 0 where
    stop : {engine : BacktestEngine M S} → Trace [] engine engine
    takes :
        {event : ReplayEvent} {events : List ReplayEvent} {a b c : BacktestEngine M S}
        → handle_event strategy config event a ≡ ok b
        → Trace events b c
        → Trace (event ∷ events) a c
    answers :
        {order : PendingOrder} {later : List PendingOrder} {events : List ReplayEvent}
        {a b c : BacktestEngine M S}
        → a.pending ≡ order ∷ later
        → handle_order config order (with_pending later a) ≡ ok b
        → Trace events b c
        → Trace events a c

  -- What every event and every answer keeps, the run keeps.
  pub Trace-keep :
      (P : BacktestEngine M S → Type 0)
      → ((event : ReplayEvent) (a b : BacktestEngine M S)
          → handle_event strategy config event a ≡ ok b
          → P a
          → P b)
      → ((order : PendingOrder) (later : List PendingOrder) (a b : BacktestEngine M S)
          → a.pending ≡ order ∷ later
          → handle_order config order (with_pending later a) ≡ ok b
          → P a
          → P b)
      → {events : List ReplayEvent} {a b : BacktestEngine M S} → Trace events a b
      → P a
      → P b
  Trace-keep P on_event on_order stop p = p
  Trace-keep P on_event on_order (takes {event} {events} {a} {b} e rest) p =
      Trace-keep P on_event on_order rest (on_event event a b e p)
  Trace-keep P on_event on_order (answers {order} {later} {events} {a} {b} front e rest) p =
      Trace-keep P on_event on_order rest (on_order order later a b front e p)

  Trace-trans :
      {es fs : List ReplayEvent} {a b c : BacktestEngine M S}
      → Trace es a b
      → Trace fs b c
      → Trace (es ++ fs) a c
  Trace-trans stop s = s
  Trace-trans (takes e rest) s = takes e (Trace-trans rest s)
  Trace-trans (answers front e rest) s = answers front e (Trace-trans rest s)

  Trace-after :
      {es : List ReplayEvent} {a b c : BacktestEngine M S}
      → Trace es a b
      → Trace [] b c
      → Trace es a c
  Trace-after stop s = s
  Trace-after (takes e rest) s = takes e (Trace-after rest s)
  Trace-after (answers front e rest) s = answers front e (Trace-after rest s)

  abbrev Leads :
      List ReplayEvent → BacktestEngine M S → Result EngineError (BacktestEngine M S) → Type 0
  Leads es engine = Returns (Trace es engine)

  Leads-extend :
      (es fs : List ReplayEvent) {a b : BacktestEngine M S}
      (r : Result EngineError (BacktestEngine M S))
      → Trace es a b
      → Leads fs b r
      → Leads (es ++ fs) a r
  Leads-extend es fs (ok last) s t = Trace-trans s t
  Leads-extend es fs (err e) s t = tt

  Leads-after :
      (es : List ReplayEvent) {a b : BacktestEngine M S}
      (r : Result EngineError (BacktestEngine M S))
      → Trace es a b
      → Leads [] b r
      → Leads es a r
  Leads-after es (ok last) s t = Trace-after s t
  Leads-after es (err e) s t = tt

  Leads-bind :
      (es fs : List ReplayEvent) (engine : BacktestEngine M S)
      (r : Result EngineError (BacktestEngine M S))
      (f : BacktestEngine M S → Result EngineError (BacktestEngine M S))
      → Leads es engine r
      → ((after : BacktestEngine M S) → Leads fs after (f after))
      → Leads (es ++ fs) engine (r >>= f)
  Leads-bind es fs engine r f s h =
      Returns-bind (Trace es engine) (Trace (es ++ fs) engine) r f s
        λ after t. Leads-extend es fs (f after) t (h after)

  Leads-then :
      (es : List ReplayEvent) (engine : BacktestEngine M S)
      (r : Result EngineError (BacktestEngine M S))
      (f : BacktestEngine M S → Result EngineError (BacktestEngine M S))
      → Leads es engine r
      → ((after : BacktestEngine M S) → Leads [] after (f after))
      → Leads es engine (r >>= f)
  Leads-then es engine r f s h =
      Returns-bind (Trace es engine) (Trace es engine) r f s
        λ after t. Leads-after es (f after) t (h after)

  answered :
      (order : PendingOrder) (later : List PendingOrder) (engine : BacktestEngine M S)
      (r : Result EngineError (BacktestEngine M S))
      → engine.pending ≡ order ∷ later
      → handle_order config order (with_pending later engine) ≡ r
      → Returns (λ after. after.pending ≡ later) r
      → Returns (λ after. Trace [] engine after × (after.pending ≡ later)) r
  answered order later engine (ok after) front e kept = (answers front e stop, kept)
  answered order later engine (err x) front e kept = tt

  execute_due-Trace :
      (cutoff : ℕ) (inclusive : Bool) (l : List PendingOrder) (engine : BacktestEngine M S)
      → engine.pending ≡ l
      → Leads [] engine (execute_due config cutoff inclusive l engine)
  unfolding execute_due
  execute_due-Trace cutoff inclusive [] engine sync = stop
  execute_due-Trace cutoff inclusive (order ∷ later) engine sync =
      let popped = with_pending later engine in
      if-either (Leads [] engine) (is_due cutoff inclusive order)
        (Returns-bind (λ after. Trace [] engine after × (after.pending ≡ later)) (Trace [] engine)
          (handle_order config order popped) (execute_due config cutoff inclusive later)
          (answered order later engine (handle_order config order popped) sync refl
            (handle_order-pending config order popped))
          λ after (s, kept).
            Leads-after [] (execute_due config cutoff inclusive later after) s
              (execute_due-Trace cutoff inclusive later after kept))
        stop

  execute_pending-Trace :
      (cutoff : ℕ) (inclusive : Bool) (engine : BacktestEngine M S)
      → Leads [] engine (execute_pending config cutoff inclusive engine)
  unfolding execute_pending
  execute_pending-Trace cutoff inclusive engine =
      execute_due-Trace cutoff inclusive engine.pending engine refl

  drain-Trace :
      (fuel : ℕ) (l : List PendingOrder) (engine : BacktestEngine M S)
      → Leads [] engine (drain config fuel l engine)
  unfolding drain
  drain-Trace fuel [] engine = stop
  drain-Trace zero (order ∷ later) engine = stop
  drain-Trace (suc fuel) (order ∷ later) engine =
      Leads-then [] engine (execute_pending config order.arrival true engine) _
        (execute_pending-Trace order.arrival true engine)
        λ after. drain-Trace fuel after.pending after

  taken :
      (event : ReplayEvent) (engine : BacktestEngine M S)
      (r : Result EngineError (BacktestEngine M S))
      → handle_event strategy config event engine ≡ r
      → Leads (event ∷ []) engine r
  taken event engine (ok after) e = takes e stop
  taken event engine (err x) e = tt

  handle_events-Trace :
      (events : List ReplayEvent) (engine : BacktestEngine M S)
      → Leads events engine (handle_events strategy config events engine)
  unfolding handle_events
  handle_events-Trace [] engine = stop
  handle_events-Trace (event ∷ events) engine =
      Leads-bind (event ∷ []) events engine (handle_event strategy config event engine) _
        (taken event engine (handle_event strategy config event engine) refl)
        (handle_events-Trace events)

  handle_group-Trace :
      (t : ℕ) (group : List ReplayEvent) (engine : BacktestEngine M S)
      → Leads group engine (handle_group strategy config t group engine)
  unfolding handle_group
  handle_group-Trace t group engine =
      Leads-bind [] group engine (execute_pending config t false engine) _
        (execute_pending-Trace t false engine)
        λ earlier.
          Leads-then group earlier (handle_events strategy config group earlier) _
            (handle_events-Trace group earlier) (execute_pending-Trace t true)

  handle_groups-Trace :
      (groups : List (ℕ × List ReplayEvent)) (engine : BacktestEngine M S)
      → Leads (flatten groups) engine (handle_groups strategy config groups engine)
  unfolding handle_groups
  handle_groups-Trace [] engine = stop
  handle_groups-Trace ((t, group) ∷ groups) engine =
      Leads-bind group (flatten groups) engine (handle_group strategy config t group engine) _
        (handle_group-Trace t group engine) (handle_groups-Trace groups)

  -- The engine after `on_start`.
  abbrev pub started : S → BacktestEngine M S
  started start =
      let fresh : BacktestEngine M S = backtest_engine config start in
      record fresh { strategy_state = strategy.on_start (context fresh) start }

  -- The run takes the merged events, in their order.
  abbrev pub Replays : List ReplayEvent → S → BacktestEngine M S → Type 0
  Replays events start final =
      (ordered : List ReplayEvent) × (merge_events config.replay_clock events ≡ ok ordered)
      × Trace ordered (started start) final

  pub run-Trace :
      (events : List ReplayEvent) (start : S) (final : BacktestEngine M S)
      → run strategy config events start ≡ ok final
      → Replays events start final
  unfolding run
  run-Trace events start final e =
      Returns-ok (Replays events start) _ (from (merge_events config.replay_clock events) refl) e
    where
      from :
          (r : Result ClockError (List ReplayEvent))
          → merge_events config.replay_clock events ≡ r
          → Returns (Replays events start) (
              raising clock_error r >>= λ ordered.
              raising clock_error (groups_of config.replay_clock ordered) >>= λ groups.
              handle_groups strategy config groups (started start) >>= λ handled.
              drain config (length handled.pending) handled.pending handled)
      from (err x) e = tt
      from (ok ordered) e =
          cut (groups_of config.replay_clock ordered)
            (groups_of-flatten config.replay_clock ordered)
        where
          cut :
              (g : Result ClockError (List (ℕ × List ReplayEvent)))
              → Returns (λ groups. flatten groups ≡ ordered) g
              → Returns (Replays events start) (
                  raising clock_error g >>= λ groups.
                  handle_groups strategy config groups (started start) >>= λ handled.
                  drain config (length handled.pending) handled.pending handled)
          cut (err x) same = tt
          cut (ok groups) same =
              Returns-bind (Trace (flatten groups) (started start)) (Replays events start)
                (handle_groups strategy config groups (started start)) _
                (handle_groups-Trace groups (started start))
                λ handled t.
                  wrap (flatten groups) same
                    (drain config (length handled.pending) handled.pending handled)
                    (Leads-after (flatten groups) _ t
                      (drain-Trace (length handled.pending) handled.pending handled))
            where
              wrap :
                  (es : List ReplayEvent)
                  → es ≡ ordered
                  → (r : Result EngineError (BacktestEngine M S)) → Leads es (started start) r
                  → Returns (Replays events start) r
              wrap es same (ok final) t =
                  (ordered, e, subst (λ es. Trace es (started start) final) same t)
              wrap es same (err x) t = tt
