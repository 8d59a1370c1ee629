-- ===== src/Portfolio.antt =====
-- The account of the event engine, `Position` and `Portfolio` of
-- src/polymarket_bt/backtest/portfolio.py. Cash, shares and cost bases are signed: short positions
-- and negative cash can be allowed. A method returns the portfolio that it leaves, also when it
-- raises.
pub mod Identity
pub mod Solvency
pub mod Inventory
pub mod Payable
use polymarket_btc_15min_bac.Base.{
  ℕ, zero, suc, ◌+◌, ◌≡◌, Bool, true, false, ◌&&◌, ◌||◌, not, Option, none, some, List, [], ◌∷◌,
  ◌++◌, ◌==◌, if◌then◌else◌, Result, ok, err, ℤ, pos, negsuc, ◌+ℤ◌, ◌-ℤ◌, ◌*ℤ◌, floor_div, ltb_ℤ,
  map,
}
use polymarket_btc_15min_bac.Dict.{Dict, lookup, insert, set_default, value_or}
use polymarket_btc_15min_bac.Models.{Side, buy, sell, SimulatedFill}

pub record Position : Type 0 where
  pub condition_id : ℕ
  pub outcome : ℕ
  pub shares_scaled : ℤ
  pub cost_basis_scaled : ℤ

pub data EventType : Type 0 where
  fill_event settlement_event : EventType

pub record PortfolioEvent : Type 0 where
  pub timestamp_ns : ℕ
  pub event_type : EventType
  pub token_id : ℕ
  pub cash_scaled : ℤ
  pub inventory_scaled : ℤ
  pub realized_pnl_scaled : ℤ
  pub fees_scaled : ℕ

pub record Portfolio : Type 0 where
  pub starting_cash_scaled : ℤ
  pub available_cash_scaled : ℤ
  pub reserved_cash_scaled : ℤ
  pub allow_negative_cash : Bool
  pub allow_short_positions : Bool
  pub positions : Dict Position
  pub realized_pnl_scaled : ℤ
  pub unrealized_pnl_scaled : ℤ
  pub fees_paid_scaled : ℕ
  pub settlement_receivable_scaled : ℤ
  pub settled_cash_scaled : ℤ
  pub events : List PortfolioEvent

-- `Portfolio.__init__`
abbrev pub portfolio : ℤ → Bool → Bool → Portfolio
portfolio starting_cash allow_negative allow_short = record {
  starting_cash_scaled = starting_cash;
  available_cash_scaled = starting_cash;
  reserved_cash_scaled = pos 0;
  allow_negative_cash = allow_negative;
  allow_short_positions = allow_short;
  positions = [];
  realized_pnl_scaled = pos 0;
  unrealized_pnl_scaled = pos 0;
  fees_paid_scaled = 0;
  settlement_receivable_scaled = pos 0;
  settled_cash_scaled = pos 0;
  events = [];
}

pub data PortfolioError : Type 0 where
  insufficient_cash insufficient_inventory : PortfolioError

-- `a // b` for a divisor that is not zero.
abbrev pub floor_div_ℤ : ℤ → ℤ → ℤ
floor_div_ℤ a (pos d) = floor_div a d
floor_div_ℤ a (negsuc d) = floor_div (pos 0 -ℤ a) (suc d)

-- `if position.shares_scaled` and the like: a number is true unless it is zero.
abbrev pub is_zero : ℤ → Bool
is_zero (pos zero) = true
is_zero (pos (suc _)) = false
is_zero (negsuc _) = false

-- `inventory`
abbrev pub shares_of : Option Position → ℤ
shares_of none = pos 0
shares_of (some position) = position.shares_scaled

unfoldable pub inventory : ℕ → Portfolio → ℤ
inventory token p = shares_of (lookup token p.positions)

-- The position that a token's first fill opens.
abbrev pub new_position : SimulatedFill → ℕ → Position
new_position fill outcome = record {
  condition_id = fill.condition_id;
  outcome = outcome;
  shares_scaled = pos 0;
  cost_basis_scaled = pos 0;
}

-- The last statements of `apply_fill`, on either side.
abbrev pub book_fill : SimulatedFill → Position → ℤ → ℤ → Portfolio → Portfolio
book_fill fill position cash realized p = record p {
  available_cash_scaled = cash;
  realized_pnl_scaled = realized;
  positions = insert fill.token_id position p.positions;
  fees_paid_scaled = p.fees_paid_scaled + fill.fee_scaled;
  events =
      p.events
      ++ (record {
        timestamp_ns = fill.fill_time_ns;
        event_type = fill_event;
        token_id = fill.token_id;
        cash_scaled = cash;
        inventory_scaled = position.shares_scaled;
        realized_pnl_scaled = realized;
        fees_scaled = p.fees_paid_scaled + fill.fee_scaled;
      }
          ∷ []);
}

-- The branch of a BUY, after `setdefault` has returned `position`.
unfoldable pub buy_fill :
    SimulatedFill → Position → Portfolio → Result PortfolioError (Unit {0}) × Portfolio
buy_fill fill position p =
    let debit = pos (fill.notional_scaled + fill.fee_scaled) in
    if not p.allow_negative_cash && ltb_ℤ p.available_cash_scaled debit
    then (err insufficient_cash, p)
    else (
      ok tt,
      book_fill fill
          (record position {
            shares_scaled = position.shares_scaled +ℤ pos fill.size_scaled;
            cost_basis_scaled = position.cost_basis_scaled +ℤ pos fill.notional_scaled;
          })
          (p.available_cash_scaled -ℤ debit) p.realized_pnl_scaled p,
    )

-- The cost that leaves a position with the shares that are sold.
unfoldable pub removed_cost : Position → ℕ → ℤ
removed_cost position size =
    if is_zero position.shares_scaled
    then pos 0
    else floor_div_ℤ (position.cost_basis_scaled *ℤ pos size) position.shares_scaled

-- The branch of a SELL.
unfoldable pub sell_fill :
    SimulatedFill → Position → Portfolio → Result PortfolioError (Unit {0}) × Portfolio
unfolding removed_cost
sell_fill fill position p =
    if not p.allow_short_positions && ltb_ℤ position.shares_scaled (pos fill.size_scaled)
    then (err insufficient_inventory, p)
    else (let removed = removed_cost position fill.size_scaled in
        let net_proceeds = pos fill.notional_scaled -ℤ pos fill.fee_scaled in
        (
          ok tt,
          book_fill fill
              (record position {
                shares_scaled = position.shares_scaled -ℤ pos fill.size_scaled;
                cost_basis_scaled = position.cost_basis_scaled -ℤ removed;
              })
              (p.available_cash_scaled +ℤ net_proceeds)
              (p.realized_pnl_scaled +ℤ (net_proceeds -ℤ removed)) p,
        ))

abbrev pub fill_branch :
    Side → SimulatedFill → Position → Portfolio → Result PortfolioError (Unit {0}) × Portfolio
fill_branch buy = buy_fill
fill_branch sell = sell_fill

-- `self.positions.setdefault(...)`: the entry stays when the fill is then refused.
abbrev pub with_default : SimulatedFill → ℕ → Portfolio → Portfolio
with_default fill outcome p = record p {
  positions = set_default fill.token_id (new_position fill outcome) p.positions;
}

unfoldable pub apply_fill :
    SimulatedFill → ℕ → Portfolio → Result PortfolioError (Unit {0}) × Portfolio
unfolding buy_fill sell_fill
apply_fill fill outcome p =
    let position = value_or (lookup fill.token_id p.positions) (new_position fill outcome) in
    fill_branch fill.side fill position (with_default fill outcome p)

-- The loop of `settle_market`: the positions, the payout and the realized result.
pub record Settled : Type 0 where
  pub positions : Dict Position
  pub payout : ℤ
  pub realized : ℤ

abbrev pub token_payout : ℕ → ℕ → Position → ℤ
token_payout winner token position = if token == winner then position.shares_scaled else pos 0

-- The guard of the loop: another market, or nothing held.
abbrev pub skips : ℕ → Position → Bool
skips condition position =
    not (position.condition_id == condition) || is_zero position.shares_scaled

unfoldable pub settle_loop : ℕ → ℕ → Dict Position → ℤ → ℤ → Settled
settle_loop condition winner [] payout realized = record {
  positions = [];
  payout = payout;
  realized = realized;
}
settle_loop condition winner ((token, position) ∷ rest) payout realized =
    let skip = skips condition position in
    let paid = token_payout winner token position in
    let after =
      settle_loop condition winner rest (if skip then payout else payout +ℤ paid)
        (if skip then realized else realized +ℤ (paid -ℤ position.cost_basis_scaled)) in
    record after {
      positions =
          (
            token,
            if skip
                then position
                else record position { shares_scaled = pos 0; cost_basis_scaled = pos 0 },
          )
          ∷ after.positions;
    }

unfoldable pub settle_market : ℕ → ℕ → ℕ → Portfolio → ℤ × Portfolio
unfolding settle_loop
settle_market condition winner timestamp p =
    let done = settle_loop condition winner p.positions (pos 0) p.realized_pnl_scaled in
    let cash = p.available_cash_scaled +ℤ done.payout in
    (
      done.payout,
      record p {
        positions = done.positions;
        realized_pnl_scaled = done.realized;
        settlement_receivable_scaled = p.settlement_receivable_scaled +ℤ done.payout -ℤ done.payout;
        available_cash_scaled = cash;
        settled_cash_scaled = p.settled_cash_scaled +ℤ done.payout;
        events =
            p.events
            ++ (record {
              timestamp_ns = timestamp;
              event_type = settlement_event;
              token_id = winner;
              cash_scaled = cash;
              inventory_scaled = pos 0;
              realized_pnl_scaled = done.realized;
              fees_scaled = p.fees_paid_scaled;
            }
                ∷ []);
      },
    )

-- `position.shares_scaled * price // 1_000_000`
abbrev pub marked : Position → ℕ → ℤ
marked position price = floor_div (position.shares_scaled *ℤ pos price) 1_000_000

abbrev pub unrealized_of : Option ℕ → Position → ℤ
unrealized_of none position = pos 0
unrealized_of (some price) position = marked position price -ℤ position.cost_basis_scaled

unfoldable pub unrealized_sum : Dict ℕ → Dict Position → ℤ
unrealized_sum prices [] = pos 0
unrealized_sum prices ((token, position) ∷ rest) =
    unrealized_of (lookup token prices) position +ℤ unrealized_sum prices rest

unfoldable pub mark_to_market : Dict ℕ → Portfolio → ℤ × Portfolio
unfolding unrealized_sum
mark_to_market prices p =
    let unrealized = unrealized_sum prices p.positions in
    (unrealized, record p { unrealized_pnl_scaled = unrealized })

abbrev pub marked_of : Option ℕ → Position → ℤ
marked_of none position = pos 0
marked_of (some price) position = marked position price

unfoldable pub marked_sum : Dict ℕ → Dict Position → ℤ
marked_sum prices [] = pos 0
marked_sum prices ((token, position) ∷ rest) =
    marked_of (lookup token prices) position +ℤ marked_sum prices rest

-- `equity_scaled`. With no price known nothing is marked, which the sum gives as well.
unfoldable pub equity_scaled : Dict ℕ → Portfolio → ℤ
unfolding marked_sum
equity_scaled prices p =
    p.available_cash_scaled +ℤ marked_sum prices p.positions +ℤ p.settlement_receivable_scaled
