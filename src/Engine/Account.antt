-- ===== src/Engine/Account.antt =====
-- The account of a backtest: what the orders and the settlements of src/polymarket_bt/backtest/engine.py
-- do to the portfolio of src/polymarket_bt/backtest/portfolio.py.
use polymarket_btc_15min_bac.Base.{
  ℕ, ◌+◌, ◌≡◌, ◌∙◌, ap, sym, refl, not, ◌&&◌, Option, none, some, List, [], ◌∷◌, ◌++◌, ◌==◌, any_of,
  map, if-either, is_some, sum_by, Result, ok, err, Returns, Returns-bind, Returns-ok, Result-cases,
  inl, inr, arith, append_assoc, append-nil,
}
use polymarket_btc_15min_bac.Dict.{lookup}
use polymarket_btc_15min_bac.SortedDict.{SortedDict}
use polymarket_btc_15min_bac.Models.{OrderIntent, SimulatedFill, OrderResult, Rejection}
use polymarket_btc_15min_bac.Fees.{FeeModel}
use polymarket_btc_15min_bac.OrderBook.{OrderBook, consume}
use polymarket_btc_15min_bac.Portfolio.{Portfolio, PortfolioError, portfolio, apply_fill}
use polymarket_btc_15min_bac.Portfolio.Identity.{
  Call, fill_call, settle_call, apply, run-cash, cost_of, buy_fees, unbooked_fee,
}
use polymarket_btc_15min_bac.Portfolio.Identity as Account
use polymarket_btc_15min_bac.Execution.{
  Market, execute, fill_all, fill_of, add_fill, opposite, settle_plan, concluded, Planned,
}
use polymarket_btc_15min_bac.Timeline.{ReplayEvent}
use polymarket_btc_15min_bac.Engine.{
  Strategy, BacktestConfig, BacktestEngine, PendingOrder, MarketResult, attempt, execute_on,
  executed, handle_order, with_pending, schedule_intent, backtest_engine,
}
use polymarket_btc_15min_bac.Engine.Run.{run, settled}
use polymarket_btc_15min_bac.Engine.Steps.{
  Step, inspects, moves, enters, quotes, decides, replaces, changes, resizes, settles, schedules,
  handles, schedule_intent-either, Steps-keep, run-Steps,
}

abbrev pub fills_at_once : ℕ → List SimulatedFill → List Call
fills_at_once outcome = map λ fill. fill_call fill outcome

-- The fees that go into no other figure: those of BUY fills.
abbrev pub unbooked_fees : List SimulatedFill → ℕ
unbooked_fees = sum_by λ fill. unbooked_fee fill fill.side

-- The calls of the portfolio that the results stand for, and the fees of their BUY fills.
unfoldable pub fill_calls : List OrderResult → List Call
fill_calls [] = []
fill_calls (result ∷ results) =
    fills_at_once result.intent.outcome result.fills ++ fill_calls results

unfoldable pub fees_paid : List OrderResult → ℕ
fees_paid [] = 0
fees_paid (result ∷ results) = unbooked_fees result.fills + fees_paid results

abbrev pub settlement_of : MarketResult → Call
settlement_of result =
    settle_call result.condition_id result.winning_token_id result.settlement_timestamp_ns

abbrev pub settle_calls : List MarketResult → List Call
settle_calls = map settlement_of

-- The last list has the calls of the other two, each in its own order, and no other.
pub data Interleaves : List Call → List Call → List Call → Type 0 where
  neither : Interleaves [] [] []
  left : {a : Call} {ls rs cs : List Call} → Interleaves ls rs cs → Interleaves (a ∷ ls) rs (a ∷ cs)
  right :
      {b : Call} {ls rs cs : List Call} → Interleaves ls rs cs → Interleaves ls (b ∷ rs) (b ∷ cs)

all_left : (xs : List Call) → Interleaves xs [] xs
all_left [] = neither
all_left (x ∷ xs) = left (all_left xs)

all_right : (xs : List Call) → Interleaves [] xs xs
all_right [] = neither
all_right (x ∷ xs) = right (all_right xs)

extend_left :
    (xs : List Call) {ls rs cs : List Call}
    → Interleaves ls rs cs
    → Interleaves (ls ++ xs) rs (cs ++ xs)
extend_left xs neither = all_left xs
extend_left xs (left h) = left (extend_left xs h)
extend_left xs (right h) = right (extend_left xs h)

extend_right :
    (xs : List Call) {ls rs cs : List Call}
    → Interleaves ls rs cs
    → Interleaves ls (rs ++ xs) (cs ++ xs)
extend_right xs neither = all_right xs
extend_right xs (left h) = left (extend_right xs h)
extend_right xs (right h) = right (extend_right xs h)

fill_calls-append :
    (results : List OrderResult) (last : OrderResult)
    → fill_calls (results ++ (last ∷ []))
      ≡ fill_calls results ++ fills_at_once last.intent.outcome last.fills
unfolding fill_calls
fill_calls-append [] last = append-nil _
fill_calls-append (result ∷ results) last =
    ap (λ cs. fills_at_once result.intent.outcome result.fills ++ cs)
      (fill_calls-append results last)
    ∙ sym (append_assoc (fills_at_once result.intent.outcome result.fills) (fill_calls results) _)

fees_paid-append :
    (results : List OrderResult) (last : OrderResult)
    → fees_paid (results ++ (last ∷ [])) ≡ fees_paid results + unbooked_fees last.fills
unfolding fees_paid
fees_paid-append [] last = omega arith
fees_paid-append (result ∷ results) last =
    let ih = fees_paid-append results last in omega (arith, ih)

pub settle_calls-append :
    (results : List MarketResult) (last : MarketResult)
    → settle_calls (results ++ (last ∷ [])) ≡ settle_calls results ++ (settlement_of last ∷ [])
settle_calls-append [] last = refl
settle_calls-append (result ∷ results) last =
    ap (◌∷◌ (settlement_of result)) (settle_calls-append results last)

run-append :
    (cs ds : List Call) (p : Portfolio)
    → Account.run (cs ++ ds) p ≡ Account.run ds (Account.run cs p)
unfolding Account.run
run-append [] ds p = refl
run-append (c ∷ cs) ds p = run-append cs ds (apply c p)

buy_fees-append :
    (cs ds : List Call) (p : Portfolio)
    → buy_fees (cs ++ ds) p ≡ buy_fees cs p + buy_fees ds (Account.run cs p)
unfolding Account.run buy_fees
buy_fees-append [] ds p = omega arith
buy_fees-append (c ∷ cs) ds p = let ih = buy_fees-append cs ds (apply c p) in omega (arith, ih)

-- The fills lead from one portfolio to the other, and every one of them is accepted.
unfoldable pub Pays : ℕ → List SimulatedFill → Portfolio → Portfolio → Type 0
Pays outcome fills p q =
    (q ≡ Account.run (fills_at_once outcome fills) p)
    × (buy_fees (fills_at_once outcome fills) p ≡ unbooked_fees fills)

Pays-none : (outcome : ℕ) (p : Portfolio) → Pays outcome [] p p
unfolding Pays Account.run buy_fees
Pays-none outcome p = (refl, refl)

Pays-fill :
    (outcome : ℕ) (fill : SimulatedFill) (fills : List SimulatedFill) (p q : Portfolio)
    → (apply_fill fill outcome p).0 ≡ ok tt
    → Pays outcome fills (apply_fill fill outcome p).1 q
    → Pays outcome (fill ∷ fills) p q
unfolding Pays Account.run Account.apply buy_fees
Pays-fill outcome fill fills p q accepted (reached, fees) = (reached, rw (accepted, fees) refl)

-- The fills of a result, if there is one, are what has been paid.
abbrev PaidFills :
    ℕ → Portfolio → {M : Type 0} → Result PortfolioError (List SimulatedFill) × Market M → Type 0
PaidFills outcome p (ok fills, m) = Pays outcome fills p m.portfolio
PaidFills outcome p (err e, m) = Unit

module _ {M : Type 0} ⦃d : SortedDict M⦄ (fees : FeeModel) (intent : OrderIntent)
    (arrival : ℕ) where
  add_fill-PaidFills :
      (fill : SimulatedFill) (p : Portfolio)
      (u : Result PortfolioError (List SimulatedFill) × Market M)
      → (apply_fill fill intent.outcome p).0 ≡ ok tt
      → PaidFills intent.outcome (apply_fill fill intent.outcome p).1 u
      → PaidFills intent.outcome p (add_fill fill u.0, u.1)
  add_fill-PaidFills fill p (ok fills, m) accepted h =
      Pays-fill intent.outcome fill fills p m.portfolio accepted h
  add_fill-PaidFills fill p (err e, m) accepted h = tt

  fill_all-PaidFills :
      (planned : List Planned) (m : Market M)
      → PaidFills intent.outcome m.portfolio (fill_all fees intent arrival planned m)
  unfolding fill_all
  fill_all-PaidFills [] m = Pays-none intent.outcome m.portfolio
  fill_all-PaidFills (s ∷ planned) m =
      let fill = fill_of fees intent m.book.last_sequence arrival s in
      let after : Market M = record {
        book = consume (opposite intent.side) s.price s.size m.book;
        portfolio = (apply_fill fill intent.outcome m.portfolio).1;
      } in
      elim (Result-cases (apply_fill fill intent.outcome m.portfolio).0) [
        | inl (_, accepted) ↦
            rw (fill_all, accepted)
              (add_fill-PaidFills fill m.portfolio (fill_all fees intent arrival planned after)
                accepted (fill_all-PaidFills planned after))
        | inr (e, refused) ↦ rw (fill_all, refused) tt
      ]

  -- The result has the order's outcome, and its fills are what has been paid.
  abbrev PaidResult : Portfolio → Result PortfolioError OrderResult × Market M → Type 0
  PaidResult p (ok result, m) = Pays result.intent.outcome result.fills p m.portfolio
  PaidResult p (err e, m) = Unit

  concluded-PaidResult :
      (p : Portfolio) (u : Result PortfolioError (List SimulatedFill) × Market M)
      → PaidFills intent.outcome p u
      → PaidResult p (concluded fees intent arrival u)
  concluded-PaidResult p (ok [], m) h = h
  concluded-PaidResult p (ok (fill ∷ fills), m) h = h
  concluded-PaidResult p (err e, m) h = tt

  settle_plan-PaidResult :
      (reason : Option Rejection) (planned : List Planned) (m : Market M)
      → PaidResult m.portfolio (settle_plan fees intent arrival reason planned m)
  settle_plan-PaidResult (some reason) planned m = Pays-none intent.outcome m.portfolio
  settle_plan-PaidResult none planned m =
      concluded-PaidResult m.portfolio (fill_all fees intent arrival planned m)
        (fill_all-PaidFills planned m)

  execute-PaidResult : (m : Market M) → PaidResult m.portfolio (execute fees intent arrival m)
  unfolding execute
  execute-PaidResult m =
      if-either (PaidResult m.portfolio) (not m.book.valid) (Pays-none intent.outcome m.portfolio) (
        if-either (PaidResult m.portfolio)
          (not (is_some intent.requested_shares_scaled)
            && not (is_some intent.requested_notional_scaled))
          (Pays-none intent.outcome m.portfolio) (settle_plan-PaidResult _ _ m))

-- The portfolio of a new engine.
abbrev pub fresh_account : BacktestConfig → Portfolio
fresh_account config =
    portfolio config.starting_cash config.allow_negative_cash config.allow_short_positions

module _ {M S : Type 0} ⦃d : SortedDict M⦄ (config : BacktestConfig) where
  -- An attempt pays for the fills of its result, and leaves the other results as they are.
  abbrev PaysBeside : BacktestEngine M S → OrderResult × BacktestEngine M S → Type 0
  PaysBeside engine done =
      (done.1.order_results ≡ engine.order_results)
      × (done.1.market_results ≡ engine.market_results)
      × (done.1.strategy_state ≡ engine.strategy_state)
      × Pays done.0.intent.outcome done.0.fills engine.portfolio done.1.portfolio

  executed-PaysBeside :
      (intent : OrderIntent) (arrival token : ℕ) (u : Result PortfolioError OrderResult × Market M)
      (engine : BacktestEngine M S)
      → PaidResult config.fees intent arrival engine.portfolio u
      → Returns (PaysBeside engine) (executed token u engine)
  executed-PaysBeside intent arrival token (ok result, m) engine h = (refl, refl, refl, h)
  executed-PaysBeside intent arrival token (err e, m) engine h = tt

  execute_on-PaysBeside :
      (arrival : ℕ) (intent : OrderIntent) (found : Option (OrderBook M))
      (engine : BacktestEngine M S)
      → Returns (PaysBeside engine) (execute_on config arrival intent found engine)
  execute_on-PaysBeside arrival intent none engine =
      (refl, refl, refl, Pays-none intent.outcome engine.portfolio)
  execute_on-PaysBeside arrival intent (some book) engine =
      executed-PaysBeside intent arrival intent.token_id _ engine (
        execute-PaidResult config.fees intent arrival
          (record { book = book; portfolio = engine.portfolio }))

  -- What handling an order leaves: one result more, whose fills have been paid.
  abbrev pub PaysOne : BacktestEngine M S → BacktestEngine M S → Type 0
  PaysOne engine after =
      (result : OrderResult) × (after.order_results ≡ engine.order_results ++ (result ∷ []))
      × (after.market_results ≡ engine.market_results)
      × (after.strategy_state ≡ engine.strategy_state)
      × Pays result.intent.outcome result.fills engine.portfolio after.portfolio

  pub handle_order-PaysOne :
      (order : PendingOrder) (engine : BacktestEngine M S)
      → Returns (PaysOne engine) (handle_order config order engine)
  unfolding handle_order attempt
  handle_order-PaysOne order engine =
      Returns-bind (PaysBeside engine) (PaysOne engine) (attempt config order engine) _
        (if-either (Returns (PaysBeside engine))
          (any_of (λ condition. order.intent.condition_id == condition) engine.resolved_conditions)
          (refl, refl, refl, Pays-none order.intent.outcome engine.portfolio)
          (execute_on-PaysBeside order.arrival order.intent
            (lookup order.intent.token_id engine.reconstructor.books) engine))
        λ (result, after) (results, markets, state, paid).
          (result, ap (λ rs. rs ++ (result ∷ [])) results, markets, state, paid)

  -- The account is what the fills of the results and the settlements of the markets make of the fresh
  -- one, each once and in its order, and every fill has been accepted.
  abbrev pub IsAccounted : BacktestEngine M S → Type 0
  IsAccounted engine =
      (cs : List Call) × Interleaves (fill_calls engine.order_results)
        (settle_calls engine.market_results) cs
      × (engine.portfolio ≡ Account.run cs (fresh_account config))
      × (buy_fees cs (fresh_account config) ≡ fees_paid engine.order_results)

  PaysOne-IsAccounted :
      (engine after : BacktestEngine M S)
      → PaysOne engine after
      → IsAccounted engine
      → IsAccounted after
  unfolding Pays
  PaysOne-IsAccounted engine after (result, results, markets, state, (reached, paid))
        (cs, parts, same, fees) =
      let more = fills_at_once result.intent.outcome result.fills in
      (
        cs ++ more,
        rw (results, markets, fill_calls-append engine.order_results result)
            (extend_left more parts),
        reached ∙ ap (Account.run more) same ∙ sym (run-append cs more (fresh_account config)),
        buy_fees-append cs more (fresh_account config)
            ∙ ap (λ p. buy_fees cs (fresh_account config) + buy_fees more p) (sym same)
            ∙ rw (results, fees_paid-append engine.order_results result, fees, paid) refl,
      )

  settled-IsAccounted :
      (condition winner : ℕ) (engine : BacktestEngine M S)
      → IsAccounted engine
      → IsAccounted (settled condition winner engine)
  unfolding Account.run Account.apply buy_fees
  settled-IsAccounted condition winner engine (cs, parts, same, fees) =
      let more : List Call = settle_call condition winner engine.now_ns ∷ [] in
      (
        cs ++ more,
        rw (settle_calls-append engine.market_results _) (extend_right more parts),
        ap (Account.run more) same ∙ sym (run-append cs more (fresh_account config)),
        buy_fees-append cs more (fresh_account config) ∙ omega (arith, fees),
      )

  schedule-IsAccounted :
      (intent : OrderIntent) (engine : BacktestEngine M S)
      → IsAccounted engine
      → Returns IsAccounted (schedule_intent config intent engine)
  schedule-IsAccounted intent engine (cs, parts, same, fees) =
      schedule_intent-either config IsAccounted intent engine
        (
          cs,
          rw (fill_calls-append engine.order_results _)
              (rw (append-nil (fill_calls engine.order_results)) parts),
          same,
          fees ∙ sym (fees_paid-append engine.order_results _ ∙ omega arith),
        )
        λ sample. (cs, parts, same, fees)

  Step-IsAccounted : (a b : BacktestEngine M S) → Step config a b → IsAccounted a → IsAccounted b
  Step-IsAccounted _ _ (inspects engine used) h = h
  Step-IsAccounted _ _ (moves engine clock) h = h
  Step-IsAccounted _ _ (enters engine now) h = h
  Step-IsAccounted _ _ (quotes engine prices) h = h
  Step-IsAccounted _ _ (decides engine state) h = h
  Step-IsAccounted _ _ (replaces engine snapshot) h = h
  Step-IsAccounted _ _ (changes engine change) h = h
  Step-IsAccounted _ _ (resizes engine change) h = h
  Step-IsAccounted _ _ (settles engine condition winner) h =
      settled-IsAccounted condition winner engine h
  Step-IsAccounted _ _ (schedules engine intent after e) h =
      Returns-ok IsAccounted (schedule_intent config intent engine)
        (schedule-IsAccounted intent engine h) e
  Step-IsAccounted _ _ (handles engine order later after front e) h =
      let popped = with_pending later engine in
      PaysOne-IsAccounted popped after
        (Returns-ok (PaysOne popped) (handle_order config order popped)
          (handle_order-PaysOne order popped) e)
        h

  pub run-IsAccounted :
      (strategy : Strategy M S) (events : List ReplayEvent) (start : S) (final : BacktestEngine M S)
      → run strategy config events start ≡ ok final
      → IsAccounted final
  unfolding backtest_engine fill_calls fees_paid Account.run buy_fees
  run-IsAccounted strategy events start final e =
      Steps-keep config IsAccounted Step-IsAccounted
        (run-Steps config strategy events start final e) ([], neither, refl, refl)
