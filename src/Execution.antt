-- ===== src/Execution.antt =====
-- `TakerExecutionSimulator` of src/polymarket_bt/backtest/execution.py: a marketable order walks the
-- levels that are left, is checked against the account, and is filled level by level.
pub mod Plan
pub mod Settle
use polymarket_btc_15min_bac.Base.{
  ℕ, zero, suc, ◌+◌, ◌-◌, ◌*◌, ◌/◌, Bool, true, false, not, ◌&&◌, ◌||◌, Option, none, some, List,
  [], ◌∷◌, ltb, leb, ◌==◌, if◌then◌else◌, min, max, sum_by, Result, ok, err, ℤ, pos, ltb_ℤ, is_some,
}
use polymarket_btc_15min_bac.SortedDict.{SortedDict}
use polymarket_btc_15min_bac.Models.{
  Side, buy, sell, OrderIntent, SimulatedFill, OrderResult, OrderStatus, rejected, partial, filled,
  Rejection, book_invalid, size_required, insufficient_cash, insufficient_inventory, no_liquidity,
}
use polymarket_btc_15min_bac.Fees.{FeeModel, calculate, notional_scaled, scale}
use polymarket_btc_15min_bac.OrderBook.{OrderBook, available_levels, consume}
use polymarket_btc_15min_bac.Portfolio.{Portfolio, PortfolioError, apply_fill, inventory}

-- A slice of the plan: rank, price, size, notional and what is left of the level.
pub record Planned : Type 0 where
  pub rank : ℕ
  pub price : ℕ
  pub size : ℕ
  pub notional : ℕ
  pub displayed_after : ℕ

-- The price is past the limit.
abbrev pub is_past : Side → Option ℕ → ℕ → Bool
is_past side none price = false
is_past buy (some limit) price = ltb limit price
is_past sell (some limit) price = ltb price limit

-- `desired`, by the shares that remain, or else by the notional that remains.
abbrev pub desired_size : Option ℕ → Option ℕ → ℕ → ℕ → ℕ
desired_size (some shares) _ price displayed = min shares displayed
desired_size none (some notional) price displayed = min displayed (notional * scale / max price 1)
desired_size none none price displayed = 0

-- What remains of a request after `n`; `max(0, …)` is what subtraction of naturals does.
abbrev pub less : Option ℕ → ℕ → Option ℕ
less none n = none
less (some left) n = some (left - n)

abbrev pub is_done : Option ℕ → Bool
is_done none = false
is_done (some left) = left == 0

-- The loop over the levels.
unfoldable pub plan : Side → Option ℕ → ℕ → Option ℕ → Option ℕ → List (ℕ × ℕ) → List Planned
plan side limit rank shares notional [] = []
plan side limit rank shares notional ((price, displayed) ∷ levels) =
    let size = desired_size shares notional price displayed in
    let cost = notional_scaled size price in
    let shares' = less shares size in
    let notional' = less notional cost in
    let rest = plan side limit (rank + 1) shares' notional' levels in
    if is_past side limit price || (size == 0)
    then []
    else record {
      rank = rank;
      price = price;
      size = size;
      notional = cost;
      displayed_after = displayed - size;
    }
      ∷ (if is_done shares' || is_done notional' then [] else rest)

abbrev pub opposite : Side → Side
opposite buy = sell
opposite sell = buy

abbrev pub fill_of : FeeModel → OrderIntent → ℕ → ℕ → Planned → SimulatedFill
fill_of fees intent sequence arrival s = record {
  order_intent_id = intent.order_intent_id;
  condition_id = intent.condition_id;
  token_id = intent.token_id;
  side = intent.side;
  price_scaled = s.price;
  size_scaled = s.size;
  notional_scaled = s.notional;
  fee_scaled = calculate fees s.size s.price;
  book_event_sequence = sequence;
  decision_time_ns = intent.decision_timestamp_ns;
  scheduled_arrival_time_ns = arrival;
  fill_time_ns = arrival;
  level_rank = s.rank;
  liquidity_remaining_after_scaled = s.displayed_after;
}

-- What the plan needs: cash with fees for a BUY, shares for a SELL.
unfoldable pub required_cash : FeeModel → List Planned → ℕ
required_cash fees = sum_by λ s. s.notional + calculate fees s.size s.price

unfoldable pub required_inventory : List Planned → ℕ
required_inventory = sum_by λ s. s.size

abbrev pub shortfall : FeeModel → Side → ℕ → List Planned → Portfolio → Option Rejection
shortfall fees buy token planned p =
    if ltb_ℤ p.available_cash_scaled (pos (required_cash fees planned))
    then some insufficient_cash
    else none
shortfall fees sell token planned p =
    if ltb_ℤ (inventory token p) (pos (required_inventory planned))
    then some insufficient_inventory
    else none

abbrev pub refuse : OrderIntent → Rejection → OrderResult
refuse intent reason = record {
  intent = intent;
  status = rejected;
  rejection_reason = some reason;
  fills = [];
}

abbrev pub reaches : Option ℕ → ℕ → Bool
reaches none n = false
reaches (some requested) n = leb requested n

abbrev pub equals : Option ℕ → ℕ → Bool
equals none n = false
equals (some requested) n = n == requested

-- The result of the fills that were made.
abbrev pub conclude : OrderIntent → List SimulatedFill → OrderResult
conclude intent [] = refuse intent no_liquidity
conclude intent (fill ∷ fills) =
    let size = sum_by (λ (f : SimulatedFill). f.size_scaled) (fill ∷ fills) in
    let notional = sum_by (λ (f : SimulatedFill). f.notional_scaled) (fill ∷ fills) in
    record {
      intent = intent;
      status =
          if equals intent.requested_shares_scaled size
            || reaches intent.requested_notional_scaled notional
          then filled
          else partial;
      rejection_reason = none;
      fills = fill ∷ fills;
    }

abbrev pub add_fill :
    SimulatedFill
    → Result PortfolioError (List SimulatedFill)
    → Result PortfolioError (List SimulatedFill)
add_fill fill (ok fills) = ok (fill ∷ fills)
add_fill fill (err e) = err e

-- The book and the account, which an order changes together.
pub record Market (M : Type 0) : Type 0 where
  pub book : OrderBook M
  pub portfolio : Portfolio

module _ {M : Type 0} ⦃d : SortedDict M⦄ (fees : FeeModel) (intent : OrderIntent)
    (arrival : ℕ) where
  -- The loop over the plan. `apply_fill` may raise, and the loop then stops where it is.
  unfoldable pub fill_all :
      List Planned → Market M → Result PortfolioError (List SimulatedFill) × Market M
  fill_all [] m = (ok [], m)
  fill_all (s ∷ planned) m =
      let fill = fill_of fees intent m.book.last_sequence arrival s in
      let (r, p) = apply_fill fill intent.outcome m.portfolio in
      let next : Market M = record {
        book = consume (opposite intent.side) s.price s.size m.book;
        portfolio = p;
      } in
      let (rest, last) = fill_all planned next in
      elim r [ ok _ ↦ (add_fill fill rest, last) | err e ↦ (err e, record m { portfolio = p }) ]

  abbrev pub concluded :
      Result PortfolioError (List SimulatedFill) × Market M
      → Result PortfolioError OrderResult × Market M
  concluded (ok fills, m) = (ok (conclude intent fills), m)
  concluded (err e, m) = (err e, m)

  abbrev pub settle_plan :
      Option Rejection → List Planned → Market M → Result PortfolioError OrderResult × Market M
  settle_plan (some reason) planned m = (ok (refuse intent reason), m)
  settle_plan none planned m = concluded (fill_all planned m)

  unfoldable pub planned_for : Market M → List Planned
  planned_for m =
      plan intent.side intent.limit_price_scaled 1 intent.requested_shares_scaled
        intent.requested_notional_scaled (available_levels (opposite intent.side) m.book)

  -- `execute`
  unfoldable pub execute : Market M → Result PortfolioError OrderResult × Market M
  unfolding fill_all plan planned_for
  execute m =
      if not m.book.valid
      then (ok (refuse intent book_invalid), m)
      else if not (is_some intent.requested_shares_scaled)
          && not (is_some intent.requested_notional_scaled)
      then (ok (refuse intent size_required), m)
      else settle_plan (shortfall fees intent.side intent.token_id (planned_for m) m.portfolio)
          (planned_for m) m
