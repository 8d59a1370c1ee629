-- ===== src/Engine/Pending.antt =====
-- The orders on their way, `_execute_pending` of src/polymarket_bt/backtest/engine.py: which are executed,
-- in which order, and what is left.
use polymarket_btc_15min_bac.Base.{
  ℕ, ◌≡◌, ◌∙◌, ap, sym, refl, Bool, true, false, not, ◌&&◌, Option, none, some, List, [], ◌∷◌, ◌++◌,
  ◌==◌, any_of, if-either, is_some, Result, ok, err, Returns, Returns-bind, Returns-ok, subst, inl,
  inr, Bool-cases, All, All-map, map, append_assoc, append-nil, arith,
}
use polymarket_btc_15min_bac.Dict.{lookup}
use polymarket_btc_15min_bac.SortedDict.{SortedDict}
use polymarket_btc_15min_bac.Models.{OrderIntent, OrderResult, SimulatedFill, Rejection}
use polymarket_btc_15min_bac.Fees.{FeeModel}
use polymarket_btc_15min_bac.OrderBook.{OrderBook}
use polymarket_btc_15min_bac.Portfolio.{PortfolioError}
use polymarket_btc_15min_bac.Execution.{
  Market, execute, fill_all, settle_plan, concluded, conclude, Planned,
}
use polymarket_btc_15min_bac.Sorting.{IsSorted}
use polymarket_btc_15min_bac.Engine.{
  BacktestConfig, BacktestEngine, EngineError, PendingOrder, pending_le, attempt, execute_on,
  executed, handle_order, with_pending, is_due, execute_due, execute_pending,
}

abbrev pub intent_of : OrderResult → OrderIntent
intent_of result = result.intent

abbrev pub pending_intent : PendingOrder → OrderIntent
pending_intent order = order.intent

-- An order that arrives no earlier than one that is not due is not due.
due_later :
    (cutoff : ℕ) (inclusive : Bool) (a b : PendingOrder)
    → pending_le a b ≡ true
    → is_due cutoff inclusive a ≡ false
    → is_due cutoff inclusive b ≡ false
due_later cutoff inclusive a b h e = ground arith

none_due :
    (cutoff : ℕ) (inclusive : Bool) (order : PendingOrder) (later : List PendingOrder)
    → IsSorted pending_le (order ∷ later)
    → is_due cutoff inclusive order ≡ false
    → All (λ o. is_due cutoff inclusive o ≡ false) (order ∷ later)
none_due cutoff inclusive order later (below, s) e =
    (e, All-map _ _ later (λ o h. due_later cutoff inclusive order o h e) below)

conclude-intent :
    (intent : OrderIntent) (fills : List SimulatedFill) → (conclude intent fills).intent ≡ intent
conclude-intent intent [] = refl
conclude-intent intent (fill ∷ fills) = refl

pub map-append :
    (xs ys : List OrderResult) → map intent_of (xs ++ ys) ≡ map intent_of xs ++ map intent_of ys
map-append [] ys = refl
map-append (x ∷ xs) ys = ap (◌∷◌ x.intent) (map-append xs ys)

module _ {M : Type 0} ⦃d : SortedDict M⦄ (fees : FeeModel) (intent : OrderIntent)
    (arrival : ℕ) where
  abbrev AnswersIntent : Result PortfolioError OrderResult × Market M → Type 0
  AnswersIntent u = Returns (λ r. r.intent ≡ intent) u.0

  concluded-intent :
      (u : Result PortfolioError (List SimulatedFill) × Market M)
      → AnswersIntent (concluded fees intent arrival u)
  concluded-intent (ok fills, m) = conclude-intent intent fills
  concluded-intent (err e, m) = tt

  settle_plan-intent :
      (reason : Option Rejection) (planned : List Planned) (m : Market M)
      → AnswersIntent (settle_plan fees intent arrival reason planned m)
  settle_plan-intent (some reason) planned m = refl
  settle_plan-intent none planned m = concluded-intent (fill_all fees intent arrival planned m)

  execute-intent : (m : Market M) → AnswersIntent (execute fees intent arrival m)
  unfolding execute
  execute-intent m = if-either AnswersIntent (not m.book.valid) refl (
      if-either AnswersIntent
        (not (is_some intent.requested_shares_scaled)
          && not (is_some intent.requested_notional_scaled))
        refl (settle_plan-intent _ _ m))

module _ {M S : Type 0} ⦃d : SortedDict M⦄ (config : BacktestConfig) where
  -- What an attempt leaves of the queue and of the results, and whose result it is.
  abbrev Answers : OrderIntent → BacktestEngine M S → OrderResult × BacktestEngine M S → Type 0
  Answers intent engine done =
      (done.0.intent ≡ intent)
      × (done.1.pending ≡ engine.pending)
      × (done.1.order_results ≡ engine.order_results)
      × (done.1.intent_counter ≡ engine.intent_counter)

  executed-Answers :
      (token : ℕ) (intent : OrderIntent) (u : Result PortfolioError OrderResult × Market M)
      (engine : BacktestEngine M S)
      → Returns (λ r. r.intent ≡ intent) u.0
      → Returns (Answers intent engine) (executed token u engine)
  executed-Answers token intent (ok result, m) engine h = (h, refl, refl, refl)
  executed-Answers token intent (err e, m) engine h = tt

  execute_on-Answers :
      (arrival : ℕ) (intent : OrderIntent) (found : Option (OrderBook M))
      (engine : BacktestEngine M S)
      → Returns (Answers intent engine) (execute_on config arrival intent found engine)
  execute_on-Answers arrival intent none engine = (refl, refl, refl, refl)
  execute_on-Answers arrival intent (some book) engine =
      executed-Answers intent.token_id intent _ engine (
        execute-intent config.fees intent arrival
          (record { book = book; portfolio = engine.portfolio }))

  -- What handling an order leaves: its result, behind the others, and nothing else of these.
  abbrev pub Handled : PendingOrder → BacktestEngine M S → BacktestEngine M S → Type 0
  Handled order engine after =
      (map intent_of after.order_results
        ≡ map intent_of engine.order_results ++ (order.intent ∷ []))
      × (after.pending ≡ engine.pending)
      × (after.intent_counter ≡ engine.intent_counter)

  pub handle_order-Handled :
      (order : PendingOrder) (engine : BacktestEngine M S)
      → Returns (Handled order engine) (handle_order config order engine)
  unfolding handle_order attempt
  handle_order-Handled order engine =
      Returns-bind (Answers order.intent engine) (Handled order engine)
        (attempt config order engine) _
        (if-either (Returns (Answers order.intent engine))
          (any_of (λ condition. order.intent.condition_id == condition) engine.resolved_conditions)
          (refl, refl, refl, refl)
          (execute_on-Answers order.arrival order.intent
            (lookup order.intent.token_id engine.reconstructor.books) engine))
        λ (result, next) (own, pending, results, counter).
          (rw (map-append next.order_results (result ∷ []), results, own) refl, pending, counter)

  -- The queue `l` is cut in two by the cutoff: the orders in front, all due, have been answered in their
  -- order, and those that are left are not due.
  abbrev pub Cut : ℕ → Bool → List PendingOrder → BacktestEngine M S → BacktestEngine M S → Type 0
  Cut cutoff inclusive l before after =
      (done : List PendingOrder) × (l ≡ done ++ after.pending)
      × All (λ o. is_due cutoff inclusive o ≡ true) done
      × All (λ o. is_due cutoff inclusive o ≡ false) after.pending
      × (map intent_of after.order_results
          ≡ map intent_of before.order_results ++ map pending_intent done)

  Cut-none :
      (cutoff : ℕ) (inclusive : Bool) (l : List PendingOrder) (engine : BacktestEngine M S)
      → engine.pending ≡ l
      → All (λ o. is_due cutoff inclusive o ≡ false) l
      → Cut cutoff inclusive l engine engine
  Cut-none cutoff inclusive l engine sync left = (
    [],
    sym sync,
    tt,
    subst (All λ o. is_due cutoff inclusive o ≡ false) (sym sync) left,
    sym (append-nil _),
  )

  Cut-one :
      (cutoff : ℕ) (inclusive : Bool) (order : PendingOrder) (later : List PendingOrder)
      (engine middle after : BacktestEngine M S)
      → is_due cutoff inclusive order ≡ true
      → Handled order (with_pending later engine) middle
      → Cut cutoff inclusive later middle after
      → Cut cutoff inclusive (order ∷ later) engine after
  Cut-one cutoff inclusive order later engine middle after due (results, _, _)
        (done, parts, all_due, none_left, answered) =
      (
        order ∷ done,
        ap (◌∷◌ order) parts,
        (due, all_due),
        none_left,
        answered
            ∙ ap (λ rs. rs ++ map pending_intent done) results
            ∙ append_assoc (map intent_of engine.order_results) (order.intent ∷ [])
                (map pending_intent done),
      )

  execute_due-Cut :
      (cutoff : ℕ) (inclusive : Bool) (l : List PendingOrder) (engine : BacktestEngine M S)
      → engine.pending ≡ l
      → IsSorted pending_le l
      → Returns (Cut cutoff inclusive l engine) (execute_due config cutoff inclusive l engine)
  unfolding execute_due
  execute_due-Cut cutoff inclusive [] engine sync sorted =
      Cut-none cutoff inclusive [] engine sync tt
  execute_due-Cut cutoff inclusive (order ∷ later) engine sync sorted =
      let popped = with_pending later engine in
      elim (Bool-cases (is_due cutoff inclusive order)) [
        | inl due ↦ rw due (
            Returns-bind (Handled order popped) (Cut cutoff inclusive (order ∷ later) engine)
              (handle_order config order popped) _ (handle_order-Handled order popped)
              λ middle h.
                widen middle h (execute_due config cutoff inclusive later middle) due
                  (execute_due-Cut cutoff inclusive later middle h.1 sorted.1))
        | inr early ↦ rw early (
            Cut-none cutoff inclusive (order ∷ later) engine sync
              (none_due cutoff inclusive order later sorted early))
      ]
    where
      widen :
          (middle : BacktestEngine M S)
          → Handled order (with_pending later engine) middle
          → (r : Result EngineError (BacktestEngine M S)) → is_due cutoff inclusive order ≡ true
          → Returns (Cut cutoff inclusive later middle) r
          → Returns (Cut cutoff inclusive (order ∷ later) engine) r
      widen middle h (ok after) due c =
          Cut-one cutoff inclusive order later engine middle after due h c
      widen middle h (err e) due c = tt

  -- Executing what is pending by a cutoff, on a queue in order: the orders that are due, and no other, get
  -- their result, in the order in which they arrive, and the others stay in the queue as they are.
  pub execute_pending-Cut :
      (cutoff : ℕ) (inclusive : Bool) (engine after : BacktestEngine M S)
      → IsSorted pending_le engine.pending
      → execute_pending config cutoff inclusive engine ≡ ok after
      → Cut cutoff inclusive engine.pending engine after
  unfolding execute_pending
  execute_pending-Cut cutoff inclusive engine after sorted e =
      Returns-ok (Cut cutoff inclusive engine.pending engine) _
        (execute_due-Cut cutoff inclusive engine.pending engine refl sorted) e
