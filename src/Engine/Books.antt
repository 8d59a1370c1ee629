-- ===== src/Engine/Books.antt =====
-- The books of a backtest: what events and executed orders of src/polymarket_bt/backtest/engine.py leave
-- of the books of src/polymarket_bt/orderbook/state.py.
use polymarket_btc_15min_bac.Base.{
  ℕ, ◌≡◌, ◌∙◌, refl, not, ◌&&◌, Option, none, some, List, [], ◌∷◌, ◌==◌, any_of, if-either, is_some,
  Result, ok, err, Returns, Returns-bind, Returns-ok, Result-cases, inl, inr,
}
use polymarket_btc_15min_bac.Dict.{lookup, All-entry}
use polymarket_btc_15min_bac.SortedDict.{SortedDict, IsSortedDict}
use polymarket_btc_15min_bac.Models.{
  Side, buy, sell, OrderIntent, OrderResult, SimulatedFill, Rejection,
}
use polymarket_btc_15min_bac.Fees.{FeeModel}
use polymarket_btc_15min_bac.OrderBook.{OrderBook, consume}
use polymarket_btc_15min_bac.OrderBook.Invariant.{consume-IsWellFormed}
use polymarket_btc_15min_bac.Portfolio.{PortfolioError, apply_fill}
use polymarket_btc_15min_bac.Execution.{
  Market, execute, fill_all, fill_of, opposite, settle_plan, concluded, Planned,
}
use polymarket_btc_15min_bac.Reconstructor.Invariant.{
  IsBookOf, IsSound, store-IsSound, apply_snapshot-IsSound, apply_change-IsSound,
  apply_tick_size_change-IsSound,
}
use polymarket_btc_15min_bac.Timeline.{ReplayEvent}
use polymarket_btc_15min_bac.Engine.{
  Strategy, BacktestConfig, BacktestEngine, PendingOrder, attempt, execute_on, executed,
  handle_order, with_pending, schedule_intent, backtest_engine,
}
use polymarket_btc_15min_bac.Engine.Run.{run}
use polymarket_btc_15min_bac.Engine.Steps.{
  Step, inspects, moves, enters, quotes, decides, replaces, changes, resizes, settles, schedules,
  handles, schedule_intent-either, Steps-keep, run-Steps,
}

module _ {M : Type 0} ⦃d : SortedDict M⦄ (laws : IsSortedDict M) (token : ℕ) where
  abbrev KeepsBook : {A : Type 0} → A × Market M → Type 0
  KeepsBook u = IsBookOf (token, u.1.book)

  consume-token :
      (side : Side) (price size : ℕ) (book : OrderBook M)
      → (consume side price size book).token_id ≡ book.token_id
  unfolding consume
  consume-token buy price size book = refl
  consume-token sell price size book = refl

  module _ (fees : FeeModel) (intent : OrderIntent) (arrival : ℕ) where
    fill_all-IsBookOf :
        (planned : List Planned) (m : Market M)
        → IsBookOf (token, m.book)
        → KeepsBook (fill_all fees intent arrival planned m)
    unfolding fill_all
    fill_all-IsBookOf [] m b = b
    fill_all-IsBookOf (s ∷ planned) m (own, w) =
        let fill = fill_of fees intent m.book.last_sequence arrival s in
        let side = opposite intent.side in
        let after : Market M = record {
          book = consume side s.price s.size m.book;
          portfolio = (apply_fill fill intent.outcome m.portfolio).1;
        } in
        let kept : IsBookOf (token, after.book) = (
          consume-token side s.price s.size m.book ∙ own,
          consume-IsWellFormed laws side s.price s.size m.book w,
        ) in
        elim (Result-cases (apply_fill fill intent.outcome m.portfolio).0) [
          | inl (done, accepted) ↦ rw (fill_all, accepted) (fill_all-IsBookOf planned after kept)
          | inr (e, refused) ↦ rw (fill_all, refused) (own, w)
        ]

    concluded-IsBookOf :
        (u : Result PortfolioError (List SimulatedFill) × Market M)
        → KeepsBook u
        → KeepsBook (concluded fees intent arrival u)
    concluded-IsBookOf (ok fills, m) b = b
    concluded-IsBookOf (err e, m) b = b

    settle_plan-IsBookOf :
        (reason : Option Rejection) (planned : List Planned) (m : Market M)
        → IsBookOf (token, m.book)
        → KeepsBook (settle_plan fees intent arrival reason planned m)
    settle_plan-IsBookOf (some reason) planned m b = b
    settle_plan-IsBookOf none planned m b = concluded-IsBookOf _ (fill_all-IsBookOf planned m b)

    execute-IsBookOf :
        (m : Market M) → IsBookOf (token, m.book) → KeepsBook (execute fees intent arrival m)
    unfolding execute
    execute-IsBookOf m b = if-either KeepsBook (not m.book.valid) b (
        if-either KeepsBook
          (not (is_some intent.requested_shares_scaled)
            && not (is_some intent.requested_notional_scaled))
          b (settle_plan-IsBookOf _ _ m b))

module _ {M S : Type 0} ⦃d : SortedDict M⦄ (laws : IsSortedDict M) (config : BacktestConfig) where
  abbrev HasSoundBooks : BacktestEngine M S → Type 0
  HasSoundBooks engine = IsSound engine.reconstructor

  abbrev SoundBeside : OrderResult × BacktestEngine M S → Type 0
  SoundBeside done = HasSoundBooks done.1

  executed-HasSoundBooks :
      (token : ℕ) (u : Result PortfolioError OrderResult × Market M) (engine : BacktestEngine M S)
      → IsBookOf (token, u.1.book)
      → HasSoundBooks engine
      → Returns SoundBeside (executed token u engine)
  executed-HasSoundBooks token (ok result, m) engine b s =
      store-IsSound laws token m.book engine.reconstructor b s
  executed-HasSoundBooks token (err e, m) engine b s = tt

  execute_on-HasSoundBooks :
      (arrival : ℕ) (intent : OrderIntent) (found : Option (OrderBook M))
      (engine : BacktestEngine M S)
      → lookup intent.token_id engine.reconstructor.books ≡ found
      → HasSoundBooks engine
      → Returns SoundBeside (execute_on config arrival intent found engine)
  execute_on-HasSoundBooks arrival intent none engine e s = s
  execute_on-HasSoundBooks arrival intent (some book) engine e s =
      executed-HasSoundBooks intent.token_id _ engine
        (execute-IsBookOf laws intent.token_id config.fees intent arrival
          (record { book = book; portfolio = engine.portfolio })
          (All-entry IsBookOf intent.token_id engine.reconstructor.books s e))
        s

  handle_order-HasSoundBooks :
      (order : PendingOrder) (engine : BacktestEngine M S)
      → HasSoundBooks engine
      → Returns HasSoundBooks (handle_order config order engine)
  unfolding handle_order attempt
  handle_order-HasSoundBooks order engine s =
      Returns-bind SoundBeside HasSoundBooks (attempt config order engine) _
        (if-either (Returns SoundBeside)
          (any_of (λ condition. order.intent.condition_id == condition) engine.resolved_conditions)
          s
          (execute_on-HasSoundBooks order.arrival order.intent
            (lookup order.intent.token_id engine.reconstructor.books) engine refl s))
        λ done t. t

  Step-HasSoundBooks :
      (a b : BacktestEngine M S) → Step config a b → HasSoundBooks a → HasSoundBooks b
  Step-HasSoundBooks _ _ (inspects engine used) s = s
  Step-HasSoundBooks _ _ (moves engine clock) s = s
  Step-HasSoundBooks _ _ (enters engine now) s = s
  Step-HasSoundBooks _ _ (quotes engine prices) s = s
  Step-HasSoundBooks _ _ (decides engine state) s = s
  Step-HasSoundBooks _ _ (replaces engine snapshot) s =
      apply_snapshot-IsSound laws snapshot engine.reconstructor s
  Step-HasSoundBooks _ _ (changes engine change) s =
      apply_change-IsSound laws change engine.reconstructor s
  Step-HasSoundBooks _ _ (resizes engine change) s =
      apply_tick_size_change-IsSound laws change engine.reconstructor s
  Step-HasSoundBooks _ _ (settles engine condition winner) s = s
  Step-HasSoundBooks _ _ (schedules engine intent after e) s =
      Returns-ok HasSoundBooks (schedule_intent config intent engine)
        (schedule_intent-either config HasSoundBooks intent engine s (λ sample. s)) e
  Step-HasSoundBooks _ _ (handles engine order later after front e) s =
      Returns-ok HasSoundBooks (handle_order config order (with_pending later engine))
        (handle_order-HasSoundBooks order (with_pending later engine) s) e

  -- Whatever the events and the strategy, when a backtest returns every book is stored under its own token
  -- and shows only levels with a price strictly between 0 and 1 and a positive size, and a valid one is
  -- not crossed: neither events nor executed orders break a book.
  pub run-books :
      (strategy : Strategy M S) (events : List ReplayEvent) (start : S) (final : BacktestEngine M S)
      → run strategy config events start ≡ ok final
      → IsSound final.reconstructor
  unfolding backtest_engine
  run-books strategy events start final e =
      Steps-keep config HasSoundBooks Step-HasSoundBooks
        (run-Steps config strategy events start final e) tt
