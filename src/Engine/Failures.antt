-- ===== src/Engine/Failures.antt =====
-- How a backtest can fail: the exceptions that the loop of src/polymarket_bt/backtest/engine.py lets out.
use polymarket_btc_15min_bac.Base.{
  ℕ, zero, suc, ◌≡◌, ◌∙◌, ap, sym, refl, Bool, true, false, Option, none, some, List, [], ◌∷◌, ◌++◌,
  ◌==◌, if-either, Result, ok, err, subst, length, ◌>>=◌, any_of, All, le→ltb-false,
}
use polymarket_btc_15min_bac.Dict.{lookup}
use polymarket_btc_15min_bac.SortedDict.{SortedDict}
use polymarket_btc_15min_bac.Models.{OrderIntent, OrderResult}
use polymarket_btc_15min_bac.OrderBook.{OrderBook}
use polymarket_btc_15min_bac.Portfolio.{PortfolioError}
use polymarket_btc_15min_bac.Execution.{Market, execute}
use polymarket_btc_15min_bac.Execution.Settle.{Executed, execute-Executed}
use polymarket_btc_15min_bac.Replay.{ReplayError, QualityState, QualityInterval, check}
use polymarket_btc_15min_bac.Reconstructor.{BookReconstructor, ReconstructorError}
use polymarket_btc_15min_bac.Timeline.{
  ReplayClockMode, ReplayEvent, Payload, book_snapshot, book_update, tick_size_change, btc_price,
  trade, market_resolution, other_event, ClockError, lacks_exchange_timestamp, moved_backwards,
  timestamp, is_before, EventClock, new_clock, advance, merge_events,
}
use polymarket_btc_15min_bac.Timeline.Order.{
  IsChronological, NotBefore, All-Precedes, advance_reached, Merged, merge_events-Merged,
}
use polymarket_btc_15min_bac.Engine.{
  Strategy, BacktestConfig, BacktestEngine, EngineError, clock_error, replay_error, book_error,
  account_error, latency_error, LatencyConfig, LatencyError, disabled, constant, empirical,
  lognormal, requires_samples, overflow, sample_ns, send_off, deterministic, PendingOrder, attempt,
  execute_on, executed, handle_order, with_pending, is_due, is_limit, execute_due, execute_pending,
  schedule_intent, schedule, backtest_engine, raising,
}
use polymarket_btc_15min_bac.Engine.Trace.{flatten, join_group-flatten}
use polymarket_btc_15min_bac.Engine.Run.{
  drain, run, join_group, groups_of, after_book, dispatch, apply_event, inspected, handle_event,
  advance_and_apply, handle_events, handle_group, handle_groups,
}

-- A latency cannot be sampled without samples, or where the draw overflows.
abbrev pub IsSamplingFailure : LatencyConfig → LatencyError → Type 0
IsSamplingFailure (empirical [] choice) requires_samples = Unit
IsSamplingFailure (lognormal draw) overflow = (n : ℕ) × (draw n ≡ none)
IsSamplingFailure _ _ = ⊥

-- What a replay may fail with: an event without the time that the clock asks for, an interval of bad
-- quality, a book event that the reconstructor refuses, or a latency that cannot be sampled. Neither
-- a clock that moves back nor the execution of an order is a reason.
abbrev pub IsExpected : LatencyConfig → EngineError → Type 0
IsExpected latency (clock_error lacks_exchange_timestamp) = Unit
IsExpected latency (clock_error moved_backwards) = ⊥
IsExpected latency (replay_error e) = Unit
IsExpected latency (book_error e) = Unit
IsExpected latency (account_error e) = ⊥
IsExpected latency (latency_error e) = IsSamplingFailure latency e

-- A value with the property, or an expected failure.
abbrev pub Safe : LatencyConfig → {A : Type 0} → (A → Type 0) → Result EngineError A → Type 0
Safe latency P (ok a) = P a
Safe latency P (err e) = IsExpected latency e

Safe-bind :
    (latency : LatencyConfig) {A B : Type 0} (P : A → Type 0) (Q : B → Type 0)
    (r : Result EngineError A) (f : A → Result EngineError B)
    → Safe latency P r
    → ((a : A) → P a → Safe latency Q (f a))
    → Safe latency Q (r >>= f)
Safe-bind latency P Q (ok a) f p next = next a p
Safe-bind latency P Q (err e) f p next = p

Safe-weaken :
    (latency : LatencyConfig) {A : Type 0} (P Q : A → Type 0) (r : Result EngineError A)
    → ((a : A) → P a → Q a)
    → Safe latency P r
    → Safe latency Q r
Safe-weaken latency P Q (ok a) h p = h a p
Safe-weaken latency P Q (err e) h p = p

abbrev IsSampled : LatencyConfig → Result LatencyError ℕ → Type 0
IsSampled latency (ok n) = Unit
IsSampled latency (err e) = IsSamplingFailure latency e

drawn-IsSampled :
    (draw : ℕ → Option ℕ) (n : ℕ) (o : Option ℕ)
    → draw n ≡ o
    → IsSampled (lognormal draw) (elim o [ none ↦ err overflow | some sample ↦ ok sample ])
drawn-IsSampled draw n none e = (n, e)
drawn-IsSampled draw n (some sample) e = tt

sample_ns-IsSampled : (latency : LatencyConfig) (n : ℕ) → IsSampled latency (sample_ns latency n)
unfolding sample_ns
sample_ns-IsSampled disabled n = tt
sample_ns-IsSampled (constant milliseconds) n = tt
sample_ns-IsSampled (empirical [] choice) n = tt
sample_ns-IsSampled (empirical (sample ∷ samples) choice) n = tt
sample_ns-IsSampled (lognormal draw) n = drawn-IsSampled draw n (draw n) refl

module _ {M S : Type 0} ⦃d : SortedDict M⦄ (config : BacktestConfig) where
  abbrev SameClock : BacktestEngine M S → BacktestEngine M S → Type 0
  SameClock engine after = after.clock ≡ engine.clock

  abbrev SameClockBeside : {A : Type 0} → BacktestEngine M S → A × BacktestEngine M S → Type 0
  SameClockBeside engine pair = pair.1.clock ≡ engine.clock

  executed-Safe :
      (intent : OrderIntent) (arrival : ℕ) (m : Market M)
      (u : Result PortfolioError OrderResult × Market M) (engine : BacktestEngine M S)
      → Executed config.fees intent arrival m u
      → Safe config.latency (SameClockBeside engine) (executed intent.token_id u engine)
  executed-Safe intent arrival m (ok result, after) engine h = refl
  executed-Safe intent arrival m (err e, after) engine h = h

  execute_on-Safe :
      (arrival : ℕ) (intent : OrderIntent) (found : Option (OrderBook M))
      (engine : BacktestEngine M S)
      → Safe config.latency (SameClockBeside engine) (execute_on config arrival intent found engine)
  execute_on-Safe arrival intent none engine = refl
  execute_on-Safe arrival intent (some book) engine =
      let m : Market M = record { book = book; portfolio = engine.portfolio } in
      executed-Safe intent arrival m (execute config.fees intent arrival m) engine
        (execute-Executed config.fees intent arrival m)

  handle_order-Safe :
      (order : PendingOrder) (engine : BacktestEngine M S)
      → Safe config.latency (SameClock engine) (handle_order config order engine)
  unfolding handle_order attempt
  handle_order-Safe order engine =
      Safe-bind config.latency (SameClockBeside engine) (SameClock engine)
        (attempt config order engine) _
        (if-either (Safe config.latency (SameClockBeside engine))
          (any_of (λ condition. order.intent.condition_id == condition) engine.resolved_conditions)
          refl
          (execute_on-Safe order.arrival order.intent
            (lookup order.intent.token_id engine.reconstructor.books) engine))
        λ done same. same

  execute_due-Safe :
      (cutoff : ℕ) (inclusive : Bool) (l : List PendingOrder) (engine : BacktestEngine M S)
      → Safe config.latency (SameClock engine) (execute_due config cutoff inclusive l engine)
  unfolding execute_due
  execute_due-Safe cutoff inclusive [] engine = refl
  execute_due-Safe cutoff inclusive (order ∷ later) engine =
      if-either (Safe config.latency (SameClock engine)) (is_due cutoff inclusive order)
        (Safe-bind config.latency (SameClock engine) (SameClock engine)
          (handle_order config order (with_pending later engine)) _
          (handle_order-Safe order (with_pending later engine))
          λ middle same.
            Safe-weaken config.latency (SameClock middle) (SameClock engine) _ (λ after h. h ∙ same)
              (execute_due-Safe cutoff inclusive later middle))
        refl

  execute_pending-Safe :
      (cutoff : ℕ) (inclusive : Bool) (engine : BacktestEngine M S)
      → Safe config.latency (SameClock engine) (execute_pending config cutoff inclusive engine)
  unfolding execute_pending
  execute_pending-Safe cutoff inclusive engine =
      execute_due-Safe cutoff inclusive engine.pending engine

  drain-Safe :
      (fuel : ℕ) (l : List PendingOrder) (engine : BacktestEngine M S)
      → Safe config.latency (SameClock engine) (drain config fuel l engine)
  unfolding drain
  drain-Safe fuel [] engine = refl
  drain-Safe zero (order ∷ later) engine = refl
  drain-Safe (suc fuel) (order ∷ later) engine =
      Safe-bind config.latency (SameClock engine) (SameClock engine)
        (execute_pending config order.arrival true engine) _
        (execute_pending-Safe order.arrival true engine)
        λ middle same.
          Safe-weaken config.latency (SameClock middle) (SameClock engine) _ (λ after h. h ∙ same)
            (drain-Safe fuel middle.pending middle)

  send_off-Safe :
      (r : Result LatencyError ℕ) (order : OrderIntent) (engine : BacktestEngine M S)
      → IsSampled config.latency r
      → Safe config.latency (SameClock engine) (send_off r order engine)
  send_off-Safe (ok sample) order engine h = refl
  send_off-Safe (err e) order engine h = h

  schedule-Safe :
      (intents : List OrderIntent) (engine : BacktestEngine M S)
      → Safe config.latency (SameClock engine) (schedule config intents engine)
  unfolding schedule schedule_intent
  schedule-Safe [] engine = refl
  schedule-Safe (intent ∷ intents) engine =
      Safe-bind config.latency (SameClock engine) (SameClock engine)
        (schedule_intent config intent engine) (schedule config intents)
        (if-either (Safe config.latency (SameClock engine)) (is_limit intent.order_type) refl (
          send_off-Safe (sample_ns config.latency engine.draws) (deterministic intent engine) engine
            (sample_ns-IsSampled config.latency engine.draws)))
        λ middle same.
          Safe-weaken config.latency (SameClock middle) (SameClock engine) _ (λ after h. h ∙ same)
            (schedule-Safe intents middle)

  module _ (strategy : Strategy M S) where
    after_book-Safe :
        {A : Type 0} (event : ReplayEvent) (u : Result ReconstructorError A × BookReconstructor M)
        (engine : BacktestEngine M S)
        → Safe config.latency (SameClockBeside engine) (after_book strategy config event u engine)
    after_book-Safe event (ok _, r) engine = refl
    after_book-Safe event (err e, r) engine = tt

    dispatch-Safe :
        (payload : Payload) (event : ReplayEvent) (engine : BacktestEngine M S)
        → Safe config.latency
            (SameClockBeside engine)
            (dispatch strategy config payload event engine)
    unfolding dispatch
    dispatch-Safe (book_snapshot snapshot) event engine = after_book-Safe event _ engine
    dispatch-Safe (book_update change) event engine = after_book-Safe event _ engine
    dispatch-Safe (tick_size_change change) event engine = after_book-Safe event _ engine
    dispatch-Safe (btc_price price) event engine = refl
    dispatch-Safe (trade print) event engine = refl
    dispatch-Safe (market_resolution condition winner) event engine = refl
    dispatch-Safe other_event event engine = refl

    inspected-Safe :
        (u : Result ReplayError QualityState × List QualityInterval) (engine : BacktestEngine M S)
        → Safe config.latency (SameClock engine) (inspected u engine)
    inspected-Safe (ok _, used) engine = refl
    inspected-Safe (err e, used) engine = tt

-- The clock has not passed a time.
abbrev NotPast : Option ℕ → Result ClockError ℕ → Type 0
NotPast none r = Unit
NotPast (some current) r = NotBefore current r

-- The clock stands before the events that are left, which are in order.
abbrev Ready : ReplayClockMode → List ReplayEvent → EventClock → Type 0
Ready mode events clock =
    (clock.mode ≡ mode)
    × IsChronological mode events
    × All (λ event. NotPast clock.current_ns (timestamp mode event)) events

not_past : (current : Option ℕ) (t : ℕ) → NotPast current (ok t) → is_before t current ≡ false
not_past none t h = refl
not_past (some c) t h = le→ltb-false t c h

Ready-advance :
    (mode : ReplayClockMode) (event : ReplayEvent) (events : List ReplayEvent) (clock : EventClock)
    → Ready mode (event ∷ events) clock
    → (t : ℕ) × (timestamp mode event ≡ ok t)
      × (advance event clock ≡ ok (t, record clock { current_ns = some t }))
      × Ready mode events (record clock { current_ns = some t })
Ready-advance mode event events clock (same, ((t, known), later, s), (h, hs)) =
    let reached : is_before t clock.current_ns ≡ false =
      not_past clock.current_ns t (subst (NotPast clock.current_ns) known h) in
    let timed : timestamp clock.mode event ≡ ok t = ap (λ m. timestamp m event) same ∙ known in
    (
      t,
      known,
      advance_reached event clock t timed reached,
      (same, s, All-Precedes mode event events t known later),
    )

-- Events in order are cut into groups without a failure, and without losing one.
abbrev CutAs : List ReplayEvent → Result ClockError (List (ℕ × List ReplayEvent)) → Type 0
CutAs events (ok groups) = flatten groups ≡ events
CutAs events (err e) = ⊥

pub groups_of-CutAs :
    (mode : ReplayClockMode) (events : List ReplayEvent)
    → IsChronological mode events
    → CutAs events (groups_of mode events)
unfolding groups_of
groups_of-CutAs mode [] _ = refl
groups_of-CutAs mode (event ∷ events) ((t, known), later, s) =
    rw known (joined (groups_of mode events) (groups_of-CutAs mode events s))
  where
    joined :
        (r : Result ClockError (List (ℕ × List ReplayEvent)))
        → CutAs events r
        → CutAs (event ∷ events) (r >>= λ groups. ok (join_group t event groups))
    joined (ok groups) same = join_group-flatten t event groups ∙ ap (◌∷◌ event) same
    joined (err e) h = h

module _ {M S : Type 0} ⦃d : SortedDict M⦄ (config : BacktestConfig) (strategy : Strategy M S) where
  abbrev ReadyFor : List ReplayEvent → BacktestEngine M S → Type 0
  ReadyFor events engine = Ready config.replay_clock events engine.clock

  ReadyFor-clock :
      (events : List ReplayEvent) (a b : BacktestEngine M S)
      → b.clock ≡ a.clock
      → ReadyFor events a
      → ReadyFor events b
  ReadyFor-clock events a b same h = subst (Ready config.replay_clock events) (sym same) h

  apply_event-Safe :
      (event : ReplayEvent) (t : ℕ) (engine : BacktestEngine M S)
      → timestamp config.replay_clock event ≡ ok t
      → Safe config.latency
          (SameClockBeside config engine)
          (apply_event strategy config event engine)
  unfolding apply_event
  apply_event-Safe event t engine known =
      rw known (dispatch-Safe config strategy event.payload event (record engine { now_ns = t }))

  advance_and_apply-Safe :
      (event : ReplayEvent) (events : List ReplayEvent) (engine : BacktestEngine M S)
      → ReadyFor (event ∷ events) engine
      → Safe config.latency (ReadyFor events) (advance_and_apply strategy config event engine)
  unfolding advance_and_apply
  advance_and_apply-Safe event events engine h =
      let (t, known, moved, left) = Ready-advance config.replay_clock event events engine.clock h in
      let ticked : BacktestEngine M S = record engine {
        clock = record engine.clock { current_ns = some t };
      } in
      rw moved (
        Safe-bind config.latency (SameClockBeside config ticked) (ReadyFor events)
          (apply_event strategy config event ticked) _ (apply_event-Safe event t ticked known)
          λ pair kept.
            Safe-weaken config.latency (SameClock config pair.1) (ReadyFor events) _
              (λ after same. ReadyFor-clock events ticked after (same ∙ kept) left)
              (schedule-Safe config pair.0 pair.1))

  handle_event-Safe :
      (event : ReplayEvent) (events : List ReplayEvent) (engine : BacktestEngine M S)
      → ReadyFor (event ∷ events) engine
      → Safe config.latency (ReadyFor events) (handle_event strategy config event engine)
  unfolding handle_event
  handle_event-Safe event events engine h =
      let result =
        check config.reject_on_gap event.received_utc_ns config.quality_intervals
          engine.used_degraded in
      Safe-bind config.latency (SameClock config engine) (ReadyFor events) (inspected result engine)
        (advance_and_apply strategy config event) (inspected-Safe config strategy result engine)
        λ checked same.
          advance_and_apply-Safe event events checked
            (ReadyFor-clock (event ∷ events) engine checked same h)

  handle_events-Safe :
      (group events : List ReplayEvent) (engine : BacktestEngine M S)
      → ReadyFor (group ++ events) engine
      → Safe config.latency (ReadyFor events) (handle_events strategy config group engine)
  unfolding handle_events
  handle_events-Safe [] events engine h = h
  handle_events-Safe (event ∷ group) events engine h =
      Safe-bind config.latency (ReadyFor (group ++ events)) (ReadyFor events)
        (handle_event strategy config event engine) _
        (handle_event-Safe event (group ++ events) engine h) (handle_events-Safe group events)

  handle_group-Safe :
      (t : ℕ) (group events : List ReplayEvent) (engine : BacktestEngine M S)
      → ReadyFor (group ++ events) engine
      → Safe config.latency (ReadyFor events) (handle_group strategy config t group engine)
  unfolding handle_group
  handle_group-Safe t group events engine h =
      Safe-bind config.latency (SameClock config engine) (ReadyFor events)
        (execute_pending config t false engine) _ (execute_pending-Safe config t false engine)
        λ earlier same.
          Safe-bind config.latency (ReadyFor events) (ReadyFor events)
            (handle_events strategy config group earlier) _
            (handle_events-Safe group events earlier
              (ReadyFor-clock (group ++ events) engine earlier same h))
            λ handled ready.
              Safe-weaken config.latency (SameClock config handled) (ReadyFor events) _
                (λ after kept. ReadyFor-clock events handled after kept ready)
                (execute_pending-Safe config t true handled)

  handle_groups-Safe :
      (groups : List (ℕ × List ReplayEvent)) (engine : BacktestEngine M S)
      → ReadyFor (flatten groups) engine
      → Safe config.latency (λ after. Unit) (handle_groups strategy config groups engine)
  unfolding handle_groups
  handle_groups-Safe [] engine h = tt
  handle_groups-Safe (group ∷ groups) engine h =
      Safe-bind config.latency (ReadyFor (flatten groups)) (λ after. Unit)
        (handle_group strategy config group.0 group.1 engine) _
        (handle_group-Safe group.0 group.1 (flatten groups) engine h) (handle_groups-Safe groups)

  start-ReadyFor :
      (events merged : List ReplayEvent) (engine : BacktestEngine M S)
      → engine.clock ≡ new_clock config.replay_clock
      → Merged config.replay_clock events (ok merged)
      → ReadyFor merged engine
  start-ReadyFor events merged engine new (_, chronological, _, _) =
      subst (Ready config.replay_clock merged) (sym new) (refl, chronological, unread merged)
    where
      unread :
          (l : List ReplayEvent)
          → All (λ event. NotPast none (timestamp config.replay_clock event)) l
      unread [] = tt
      unread (event ∷ l) = (tt, unread l)

  -- The merged events, from the started engine to the drained queue.
  replay-Safe :
      (events : List ReplayEvent) (r : Result ClockError (List ReplayEvent))
      (engine : BacktestEngine M S)
      → Merged config.replay_clock events r
      → engine.clock ≡ new_clock config.replay_clock
      → Safe config.latency
          (λ after. Unit)
          (raising clock_error r >>= λ ordered.
            raising clock_error (groups_of config.replay_clock ordered) >>= λ groups.
            handle_groups strategy config groups engine >>= λ handled.
            drain config (length handled.pending) handled.pending handled)
  replay-Safe events (err e) engine (lacks, _) new = rw lacks tt
  replay-Safe events (ok ordered) engine merged new =
      grouped (groups_of config.replay_clock ordered)
        (groups_of-CutAs config.replay_clock ordered merged.1)
    where
      grouped :
          (r : Result ClockError (List (ℕ × List ReplayEvent)))
          → CutAs ordered r
          → Safe config.latency
              (λ after. Unit)
              (raising clock_error r >>= λ groups.
                handle_groups strategy config groups engine >>= λ handled.
                drain config (length handled.pending) handled.pending handled)
      grouped (err e) h = absurd h
      grouped (ok groups) same =
          Safe-bind config.latency (λ after. Unit) (λ after. Unit)
            (handle_groups strategy config groups engine) _
            (handle_groups-Safe groups engine (
              subst (λ l. ReadyFor l engine) (sym same)
                (start-ReadyFor events ordered engine new merged)))
            λ handled _.
              Safe-weaken config.latency (SameClock config handled) (λ after. Unit) _
                (λ after h. tt) (drain-Safe config (length handled.pending) handled.pending handled)

  -- A backtest returns, or fails for one of four reasons: an event lacks the exchange timestamp that the
  -- clock asks for, a quality interval rejects the replay, the reconstructor refuses a book event, or
  -- a latency cannot be sampled, and that only in the empirical model without samples or in the
  -- lognormal one where a draw overflows. The clock never finds an event behind it, and the execution
  -- of an order never raises.
  pub run-Safe :
      (events : List ReplayEvent) (start : S)
      → Safe config.latency
          (λ (after : BacktestEngine M S). Unit)
          (run strategy config events start)
  unfolding run backtest_engine
  run-Safe events start =
      replay-Safe events (merge_events config.replay_clock events) _
        (merge_events-Merged config.replay_clock events) refl
