-- ===== src/Engine/Orders.antt =====
-- Every order of a backtest ends: the queue of src/polymarket_bt/backtest/engine.py is emptied, and each
-- intent has one result.
use mathlib.Core.List.{Perm}
use mathlib.Core.List.Perm
use polymarket_btc_15min_bac.Base.{
  ℕ, zero, suc, ◌+◌, ◌∙◌, ap, none, ◌≡◌, ◌≤◌, sym, refl, Bool, true, List, [], ◌∷◌, ◌++◌, if-either,
  Result, ok, err, Returns, Returns-bind, Returns-ok, Returns-after, subst, length, map,
  append_assoc, append-nil, arith,
}
use polymarket_btc_15min_bac.SortedDict.{SortedDict}
use polymarket_btc_15min_bac.Execution.{refuse}
use polymarket_btc_15min_bac.Models.{OrderIntent, maker_unsupported}
use polymarket_btc_15min_bac.Sorting.{
  IsSorted, put_in, put_in-IsSorted, put_in-perm, Perm-middle, by_key-IsOrder, lex_le-IsOrder,
  lex_le,
}
use polymarket_btc_15min_bac.Timeline.{ReplayEvent, merge_events}
use polymarket_btc_15min_bac.Engine.{
  Strategy, BacktestConfig, BacktestEngine, EngineError, PendingOrder, pending_le, pending_key,
  handle_order, with_pending, is_due, execute_due, execute_pending, schedule_intent, schedule,
  backtest_engine, raising, clock_error, deterministic,
}
use polymarket_btc_15min_bac.Engine.Run.{drain, run, handle_event, handle_groups, groups_of}
use polymarket_btc_15min_bac.Engine.Steps.{handle_order-pending, schedule_intent-either}
use polymarket_btc_15min_bac.Engine.Trace.{Trace-keep, run-Trace}
use polymarket_btc_15min_bac.Engine.Account.{PaysOne, handle_order-PaysOne}
use polymarket_btc_15min_bac.Engine.Turn.{
  Reply, by_market, by_price, by_trade, by_close, silent, handle_event-TakesTurn,
}
use polymarket_btc_15min_bac.Engine.Pending.{
  intent_of, pending_intent, map-append, Handled, handle_order-Handled,
}

module _ {M S : Type 0} ⦃d : SortedDict M⦄ (config : BacktestConfig) where
  abbrev Shortens : List PendingOrder → Result EngineError (BacktestEngine M S) → Type 0
  Shortens l = Returns λ after. length after.pending ≤ length l

  Shortens-cons :
      (order : PendingOrder) (later : List PendingOrder)
      (r : Result EngineError (BacktestEngine M S))
      → Shortens later r
      → Shortens (order ∷ later) r
  Shortens-cons order later (ok after) h = omega (arith, h)
  Shortens-cons order later (err e) h = tt

  execute_due-Shortens :
      (cutoff : ℕ) (inclusive : Bool) (l : List PendingOrder) (engine : BacktestEngine M S)
      → engine.pending ≡ l
      → Shortens l (execute_due config cutoff inclusive l engine)
  unfolding execute_due
  execute_due-Shortens cutoff inclusive [] engine sync = rw sync (omega arith)
  execute_due-Shortens cutoff inclusive (order ∷ later) engine sync =
      if-either (Shortens (order ∷ later)) (is_due cutoff inclusive order)
        (Returns-bind (λ after. after.pending ≡ later)
          (λ after. length after.pending ≤ length (order ∷ later))
          (handle_order config order (with_pending later engine)) _
          (handle_order-pending config order (with_pending later engine))
          λ after same.
            Shortens-cons order later _ (execute_due-Shortens cutoff inclusive later after same))
        (rw sync (omega arith))

  -- Up to the arrival of the first order, the queue loses that order at least.
  round-Shortens :
      (order : PendingOrder) (later : List PendingOrder) (engine : BacktestEngine M S)
      → engine.pending ≡ order ∷ later
      → Shortens later (execute_pending config order.arrival true engine)
  unfolding execute_pending execute_due
  round-Shortens order later engine sync =
      let now : is_due order.arrival true order ≡ true = ground arith in
      rw (sync, now)
        (Returns-bind (λ after. after.pending ≡ later)
          (λ after. length after.pending ≤ length later)
          (handle_order config order (with_pending later engine)) _
          (handle_order-pending config order (with_pending later engine))
          λ after same. execute_due-Shortens order.arrival true later after same)

  abbrev Empties : Result EngineError (BacktestEngine M S) → Type 0
  Empties = Returns λ after. after.pending ≡ []

  -- A round for each order that is pending is enough.
  drain-Empties :
      (fuel : ℕ) (l : List PendingOrder) (engine : BacktestEngine M S)
      → engine.pending ≡ l
      → length l ≤ fuel
      → Empties (drain config fuel l engine)
  unfolding drain
  drain-Empties fuel [] engine sync h = sync
  drain-Empties zero (order ∷ later) engine sync h = absurd (omega (arith, h))
  drain-Empties (suc fuel) (order ∷ later) engine sync h =
      Returns-bind (λ after. length after.pending ≤ length later) (λ after. after.pending ≡ [])
        (execute_pending config order.arrival true engine) _
        (round-Shortens order later engine sync)
        λ after shorter. drain-Empties fuel after.pending after refl (omega (arith, shorter, h))

-- A strategy that also writes down every intent that it gives.
abbrev pub noted :
    {S : Type 0}
    → List OrderIntent × S
    → List OrderIntent
    → List OrderIntent × (S × List OrderIntent)
noted (intents, state) earlier = (intents, (state, earlier ++ intents))

abbrev pub recording : {M S : Type 0} → Strategy M S → Strategy M (S × List OrderIntent)
recording strategy = record {
  on_start = λ now s. (strategy.on_start now s.0, s.1);
  on_market_event = λ event now s. noted (strategy.on_market_event event now s.0) s.1;
  on_btc_price = λ price now s. noted (strategy.on_btc_price price now s.0) s.1;
  on_trade = λ print now s. noted (strategy.on_trade print now s.0) s.1;
  on_market_close = λ close now s. noted (strategy.on_market_close close now s.0) s.1;
}

-- An intent under a number, without its reference price, which the engine fills in.
abbrev pub under : ℕ → OrderIntent → OrderIntent
under n intent = record intent { order_intent_id = n; decision_reference_price_scaled = none }

abbrev pub unreferenced : OrderIntent → OrderIntent
unreferenced intent = record intent { decision_reference_price_scaled = none }

-- The intents under the numbers from `n` on.
unfoldable pub numbered : ℕ → List OrderIntent → List OrderIntent
numbered n [] = []
numbered n (intent ∷ intents) = under n intent ∷ numbered (suc n) intents

numbered-append :
    (n : ℕ) (intents : List OrderIntent) (last : OrderIntent)
    → numbered n (intents ++ (last ∷ []))
      ≡ numbered n intents ++ (under (n + length intents) last ∷ [])
unfolding numbered
numbered-append n [] last =
    let same : n ≡ n + 0 = omega arith in ap (λ (m : ℕ). under m last ∷ []) same
numbered-append n (intent ∷ intents) last =
    let same : suc n + length intents ≡ n + suc (length intents) = omega arith in
    ap (◌∷◌ (under n intent)) (
      numbered-append (suc n) intents last
      ∙ ap (λ (m : ℕ). numbered (suc n) intents ++ (under m last ∷ [])) same)

length-append :
    (intents : List OrderIntent) (last : OrderIntent)
    → length (intents ++ (last ∷ [])) ≡ suc (length intents)
length-append [] last = refl
length-append (intent ∷ intents) last = ap suc (length-append intents last)

-- What has a result and what is pending, without their reference prices.
unfoldable pub known : List OrderIntent → List OrderIntent → List OrderIntent
known answered pending = map unreferenced (answered ++ pending)

known-answer :
    (answered pending : List OrderIntent) (intent : OrderIntent)
    → Perm
        (known (answered ++ (intent ∷ [])) pending)
        (unreferenced intent ∷ known answered pending)
unfolding known
known-answer answered pending intent =
    subst
      (λ l.
        Perm (map unreferenced l) (unreferenced intent ∷ map unreferenced (answered ++ pending)))
      (sym (append_assoc answered (intent ∷ []) pending))
      (Perm.map unreferenced (Perm-middle intent answered pending))

known-push :
    (answered : List OrderIntent) (order : PendingOrder) (queue : List PendingOrder)
    → Perm
        (known answered (map pending_intent (put_in pending_le order queue)))
        (unreferenced order.intent ∷ known answered (map pending_intent queue))
unfolding known
known-push answered order queue = Perm.map unreferenced (
    Perm.trans
      (Perm.append_left answered (Perm.map pending_intent (put_in-perm pending_le order queue)))
      (Perm-middle order.intent answered (map pending_intent queue)))

Perm-last : (x : OrderIntent) (l : List OrderIntent) → Perm (x ∷ l) (l ++ (x ∷ []))
Perm-last x l =
    Perm.symm (subst (λ k. Perm (l ++ (x ∷ [])) (x ∷ k)) (append-nil l) (Perm-middle x l []))

module _ {M S : Type 0} ⦃d : SortedDict M⦄ (config : BacktestConfig) where
  -- Each of the intents `given` so far has a result or is pending, once and under its own number; and the
  -- queue is in order.
  abbrev pub Tracks : List OrderIntent → BacktestEngine M S → Type 0
  Tracks given engine =
      Perm (known (map intent_of engine.order_results) (map pending_intent engine.pending))
        (numbered 0 given)
      × (engine.intent_counter ≡ length given)
      × IsSorted pending_le engine.pending

  -- One intent more, in front of what is known.
  known-more :
      (given : List OrderIntent) (intent : OrderIntent) (engine : BacktestEngine M S)
      (l : List OrderIntent)
      → Perm l (numbered 0 given)
      → engine.intent_counter ≡ length given
      → Perm (unreferenced (deterministic intent engine) ∷ l) (numbered 0 (given ++ (intent ∷ [])))
  known-more given intent engine l h count =
      let named : unreferenced (deterministic intent engine) ≡ under (length given) intent =
        ap (λ (n : ℕ). under n intent) count in
      let from_zero : 0 + length given ≡ length given = omega arith in
      rw (numbered-append 0 given intent, from_zero, named)
        (Perm.trans (Perm.cons _ h) (Perm-last (under (length given) intent) (numbered 0 given)))

  schedule_intent-Tracks :
      (given : List OrderIntent) (intent : OrderIntent) (engine : BacktestEngine M S)
      → Tracks given engine
      → Returns (Tracks (given ++ (intent ∷ []))) (schedule_intent config intent engine)
  schedule_intent-Tracks given intent engine (all, count, queue) =
      let order = deterministic intent engine in
      let answered = map intent_of engine.order_results in
      let waiting = map pending_intent engine.pending in
      let more = known-more given intent engine (known answered waiting) all count in
      let counted : suc engine.intent_counter ≡ length (given ++ (intent ∷ [])) =
        ap suc count ∙ sym (length-append given intent) in
      schedule_intent-either config (Tracks (given ++ (intent ∷ []))) intent engine
        (
          rw (map-append engine.order_results (refuse order maker_unsupported ∷ []))
              (Perm.trans (known-answer answered waiting order) more),
          counted,
          queue,
        )
        λ sample. (
          Perm.trans (known-push answered _ engine.pending) more,
          counted,
          put_in-IsSorted pending_le (by_key-IsOrder lex_le pending_key lex_le-IsOrder) _
              engine.pending queue,
        )

  abbrev SameState : BacktestEngine M S → BacktestEngine M S → Type 0
  SameState engine after = after.strategy_state ≡ engine.strategy_state

  -- Scheduling a list of intents tracks all of them and leaves the strategy alone.
  schedule-Tracks :
      (intents given : List OrderIntent) (engine : BacktestEngine M S)
      → Tracks given engine
      → Returns
          (λ after. Tracks (given ++ intents) after × SameState engine after)
          (schedule config intents engine)
  unfolding schedule
  schedule-Tracks [] given engine h =
      (subst (λ l. Tracks l engine) (sym (append-nil given)) h, refl)
  schedule-Tracks (intent ∷ intents) given engine h =
      Returns-bind (λ after. Tracks (given ++ (intent ∷ [])) after × SameState engine after)
        (λ after. Tracks (given ++ (intent ∷ intents)) after × SameState engine after)
        (schedule_intent config intent engine) (schedule config intents)
        (both (schedule_intent config intent engine) (schedule_intent-Tracks given intent engine h)
          (schedule_intent-either config (SameState engine) intent engine refl (λ sample. refl)))
        λ middle (tracked, same).
          widen middle same (schedule config intents middle)
            (schedule-Tracks intents (given ++ (intent ∷ [])) middle tracked)
    where
      both :
          (r : Result EngineError (BacktestEngine M S))
          → Returns (Tracks (given ++ (intent ∷ []))) r
          → Returns (SameState engine) r
          → Returns (λ after. Tracks (given ++ (intent ∷ [])) after × SameState engine after) r
      both (ok after) p q = (p, q)
      both (err e) p q = tt

      widen :
          (middle : BacktestEngine M S)
          → SameState engine middle
          → (r : Result EngineError (BacktestEngine M S))
          → Returns
              (λ after. Tracks ((given ++ (intent ∷ [])) ++ intents) after × SameState middle after)
              r
          → Returns (λ after. Tracks (given ++ (intent ∷ intents)) after × SameState engine after) r
      widen middle same (ok after) (p, q) =
          (subst (λ l. Tracks l after) (append_assoc given (intent ∷ []) intents) p, q ∙ same)
      widen middle same (err e) h = tt

  Handled-Tracks :
      (given : List OrderIntent) (order : PendingOrder) (later : List PendingOrder)
      (engine after : BacktestEngine M S)
      → engine.pending ≡ order ∷ later
      → Handled config order (with_pending later engine) after
      → Tracks given engine
      → Tracks given after
  unfolding known
  Handled-Tracks given order later engine after front (results, pending, counter)
        (all, count, queue) =
      let answered = map intent_of engine.order_results in
      let moved : map intent_of after.order_results ++ map pending_intent after.pending
          ≡ answered ++ map pending_intent engine.pending =
        rw (results, pending, front) (append_assoc answered (order.intent ∷ []) _) in
      (
        subst (λ l. Perm (map unreferenced l) (numbered 0 given)) (sym moved) all,
        counter ∙ count,
        subst (IsSorted pending_le) (sym pending) (subst (IsSorted pending_le) front queue).1,
      )

  run-Empties :
      (strategy : Strategy M S) (events : List ReplayEvent) (start : S)
      → Empties config (run strategy config events start)
  unfolding run
  run-Empties strategy events start =
      Returns-after (λ after. after.pending ≡ [])
        (raising clock_error (merge_events config.replay_clock events)) _
        λ ordered.
          Returns-after (λ after. after.pending ≡ [])
            (raising clock_error (groups_of config.replay_clock ordered)) _
            λ groups.
              Returns-after (λ after. after.pending ≡ []) (handle_groups strategy config groups _) _
                λ handled.
                  drain-Empties config (length handled.pending) handled.pending handled refl
                    (omega arith)

module _ {M S : Type 0} ⦃d : SortedDict M⦄ (config : BacktestConfig) (strategy : Strategy M S) where
  -- Every answer of a recording strategy is written down.
  Reply-noted :
      {s : S × List OrderIntent} {r : List OrderIntent × (S × List OrderIntent)}
      → Reply (recording strategy) s r
      → r.1.1 ≡ s.1 ++ r.0
  Reply-noted (by_market event now s) = refl
  Reply-noted (by_price price now s) = refl
  Reply-noted (by_trade print now s) = refl
  Reply-noted (by_close close now s) = refl
  Reply-noted (silent s) = sym (append-nil s.1)

  -- The engine tracks what its strategy has written down.
  abbrev pub IsTracked : BacktestEngine M (S × List OrderIntent) → Type 0
  IsTracked engine = Tracks config engine.strategy_state.1 engine

  event-IsTracked :
      (event : ReplayEvent) (before after : BacktestEngine M (S × List OrderIntent))
      → handle_event (recording strategy) config event before ≡ ok after
      → IsTracked before
      → IsTracked after
  event-IsTracked event before after e h =
      let ((intents, middle), turn, scheduled) =
        handle_event-TakesTurn (recording strategy) config event before after e in
      let kept : Tracks config before.strategy_state.1 middle =
        rw (turn.results, turn.queue, turn.counter) h in
      let (tracked, same) =
        Returns-ok
          (λ done.
            Tracks config (before.strategy_state.1 ++ intents) done × SameState config middle done)
          (schedule config intents middle)
          (schedule-Tracks config intents before.strategy_state.1 middle kept) scheduled in
      subst (λ l. Tracks config l after) (sym (ap (λ s. s.1) same ∙ Reply-noted turn.reply)) tracked

  order-IsTracked :
      (order : PendingOrder) (later : List PendingOrder)
      (before after : BacktestEngine M (S × List OrderIntent))
      → before.pending ≡ order ∷ later
      → handle_order config order (with_pending later before) ≡ ok after
      → IsTracked before
      → IsTracked after
  order-IsTracked order later before after front e h =
      let popped = with_pending later before in
      let (_, _, _, state, _) =
        Returns-ok (PaysOne config popped) (handle_order config order popped)
          (handle_order-PaysOne config order popped) e in
      subst (λ l. Tracks config l after) (sym (ap (λ s. s.1) state))
        (Handled-Tracks config before.strategy_state.1 order later before after front
          (Returns-ok (Handled config order popped) _ (handle_order-Handled config order popped) e)
          h)

  -- A backtest that returns has no order left on its way, and just one result for each intent that its
  -- strategy's methods gave, written down as they gave them: the results are, in some order, those
  -- intents, each unchanged but for its number, which counts the intents from 0, and for its
  -- reference price.
  pub run-answers :
      (events : List ReplayEvent) (start : S) (final : BacktestEngine M (S × List OrderIntent))
      → run (recording strategy) config events (start, []) ≡ ok final
      → (final.pending ≡ [])
        × Perm
            (map unreferenced (map intent_of final.order_results))
            (numbered 0 final.strategy_state.1)
  unfolding known numbered backtest_engine
  run-answers events start final e =
      let (ordered, merged, trace) =
        run-Trace (recording strategy) config events (start, []) final e in
      let (all, count, queue) : IsTracked final =
        Trace-keep (recording strategy) config IsTracked event-IsTracked order-IsTracked trace
          (Perm.nil, refl, tt) in
      let emptied : final.pending ≡ [] =
        Returns-ok (λ after. after.pending ≡ []) _
          (run-Empties config (recording strategy) events (start, [])) e in
      (
        emptied,
        subst (λ l. Perm (map unreferenced l) (numbered 0 final.strategy_state.1)) (append-nil _)
            (subst
              (λ (l : List PendingOrder).
                Perm (map unreferenced (map intent_of final.order_results ++ map pending_intent l))
                  (numbered 0 final.strategy_state.1))
              emptied all),
      )
