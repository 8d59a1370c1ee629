-- ===== src/FastSim/Send.antt =====
-- One order of the episode simulator from its decision to its outcome: `_cap_buy_to_spend` and `_send` of
-- src/polymarket_bt/backtest/fastsim.py.
use polymarket_btc_15min_bac.Base.{
  ℕ, ◌+◌, ◌-◌, Bool, false, not, ◌&&◌, ◌||◌, Option, none, some, List, [], ◌∷◌, ltb, leb, ◌==◌,
  if◌then◌else◌, sum_by, length, is_some,
}
use polymarket_btc_15min_bac.Models.{Side, buy, sell}
use polymarket_btc_15min_bac.Fees.{FeeModel}
use polymarket_btc_15min_bac.Realism.{
  ExecutionRealism, FillSlice, ExecutionOutcome, TakerOrder, RejectedReason,
  parent_deadline_elapsed, market_closed_at_arrival, insufficient_available_cash,
  no_book_at_arrival, book_state_uncertain, partial_entry_disallowed,
  insufficient_cash_including_fees, cash_budget, refused, execute,
}
use polymarket_btc_15min_bac.FastSim.{
  BookSide, side_bids, side_asks, TapeRow, EpisodeTape, taker_ladder, is_uncertain, row_at,
  Consumed, consume_slices, reconcile_self_impact, apply_self_impact, max_affordable_shares,
  cap_slices,
}

-- `outcome.filled`
abbrev pub is_filled : ExecutionOutcome → Bool
is_filled outcome = ltb 0 outcome.filled_shares_scaled

-- The outcome on the slices that the cash has left.
unfoldable pub trimmed : List FillSlice → Bool → ExecutionOutcome → ExecutionOutcome
trimmed kept bound outcome =
    let filled = sum_by (λ (s : FillSlice). s.size_scaled) kept in
    record outcome {
      slices = kept;
      filled_shares_scaled = filled;
      notional_scaled = sum_by (λ (s : FillSlice). s.notional) kept;
      fees_scaled = sum_by (λ (s : FillSlice). s.fee_scaled) kept;
      binding_constraint = if bound then some cash_budget else outcome.binding_constraint;
      rejected_reason =
          if ltb 0 filled then outcome.rejected_reason else some insufficient_cash_including_fees;
    }

-- `_cap_buy_to_spend`: the trimmed outcome, and whether the cash bound the order.
unfoldable pub cap_buy_to_spend : FeeModel → ℕ → ExecutionOutcome → ExecutionOutcome × Bool
unfolding cap_slices trimmed
cap_buy_to_spend fees spend outcome =
    let (kept, cut) = cap_slices fees spend outcome.slices in
    let bound = cut || ltb (length kept) (length outcome.slices) in
    (trimmed kept bound outcome, bound)

-- The arguments of `_send`, with the latency that is drawn and the cash at each time, if it is limited.
pub record SendRequest : Type 0 where
  pub token_index : ℕ
  pub side : Side
  pub decision_ns : ℕ
  pub latency_ns : ℕ
  pub taker_delay_ns : ℕ
  pub shares_scaled : ℕ
  pub max_spend_scaled : Option ℕ
  pub available_cash_scaled : Option (ℕ → ℕ)
  pub require_full_fill : Bool
  pub limit_price_scaled : Option ℕ
  pub reference_price_scaled : Option ℕ
  pub deadline_ns : Option ℕ

-- What own orders have taken, and the last row that was read for it.
pub record SelfImpact : Type 0 where
  pub consumed : List Consumed
  pub cursor : Option ℕ

abbrev pub arrival_of : SendRequest → ℕ
arrival_of request = request.decision_ns + request.latency_ns + request.taker_delay_ns

-- `_cash_at`
abbrev pub cash_at : Option (ℕ → ℕ) → ℕ → Option ℕ
cash_at none t = none
cash_at (some source) t = some (source t)

abbrev pub is_late : Option ℕ → ℕ → Bool
is_late none arrival = false
is_late (some deadline) arrival = ltb deadline arrival

-- The two guards of a BUY on the cash.
abbrev pub lacks_cash : Side → Option ℕ → Option ℕ → Bool
lacks_cash sell spend cash = false
lacks_cash buy spend none = false
lacks_cash buy none (some cash) = cash == 0
lacks_cash buy (some spend) (some cash) = (cash == 0) || ltb cash spend

-- The guards that need no book, in the order of the code.
unfoldable pub early_reason : EpisodeTape → SendRequest → ℕ → Option RejectedReason
early_reason tape request arrival =
    if is_late request.deadline_ns arrival
    then some parent_deadline_elapsed
    else if leb tape.end_utc_ns arrival
    then some market_closed_at_arrival
    else if lacks_cash request.side request.max_spend_scaled
        (cash_at request.available_cash_scaled arrival)
    then some insufficient_available_cash
    else none

abbrev pub taken_side : Side → BookSide
taken_side buy = side_asks
taken_side sell = side_bids

-- `spend_cap`, which a SELL does not read.
abbrev pub spend_cap : Side → Option ℕ → Option ℕ → Option ℕ
spend_cap sell spend cash = none
spend_cap buy (some spend) cash = some spend
spend_cap buy none cash = cash

-- The shares to ask for: what the dollars buy at the touch, for a BUY that is sized in dollars.
abbrev pub shares_for : FeeModel → Side → Option ℕ → List (ℕ × ℕ) → ℕ → ℕ
shares_for fees buy (some spend) ((touch, size) ∷ levels) shares =
    max_affordable_shares fees spend touch none
shares_for fees buy (some spend) [] shares = shares
shares_for fees buy none levels shares = shares
shares_for fees sell spend levels shares = shares

abbrev pub is_notional_sized : Side → Option ℕ → Bool
is_notional_sized buy spend = is_some spend
is_notional_sized sell spend = false

abbrev pub order_for : EpisodeTape → SendRequest → ℕ → ℕ → ℕ → TakerOrder
order_for tape request shares arrival book_time = record {
  side = request.side;
  requested_shares_scaled = shares;
  limit_price_scaled = request.limit_price_scaled;
  reference_price_scaled = request.reference_price_scaled;
  realised_volume_scaled = none;
  decision_utc_ns = request.decision_ns;
  arrival_utc_ns = arrival;
  book_age_ns = arrival - book_time;
  minimum_order_size_scaled = tape.minimum_order_size_scaled;
  tick_size_scaled = tape.tick_size_scaled;
}

-- `_rejected_outcome`
abbrev pub rejected_outcome : EpisodeTape → SendRequest → RejectedReason → ℕ → ExecutionOutcome
rejected_outcome tape request reason arrival =
    refused (order_for tape request request.shares_scaled arrival 0) reason

abbrev pub capped : FeeModel → Option ℕ → ExecutionOutcome → ExecutionOutcome × Bool
capped fees none outcome = (outcome, false)
capped fees (some cap) outcome =
    if is_filled outcome then cap_buy_to_spend fees cap outcome else (outcome, false)

-- An entry that must be filled whole and is not.
abbrev pub emptied : ExecutionOutcome → ExecutionOutcome
emptied outcome = record outcome {
  slices = [];
  filled_shares_scaled = 0;
  notional_scaled = 0;
  fees_scaled = 0;
  rejected_reason = some partial_entry_disallowed;
}

unfoldable pub enforced : Bool → Bool → ExecutionOutcome × Bool → ExecutionOutcome
enforced require_full notional_sized (outcome, bound) =
    let full =
      (notional_sized && bound)
      || (outcome.filled_shares_scaled == outcome.requested_shares_scaled) in
    if require_full && (is_filled outcome && not full) then emptied outcome else outcome

-- `_send` on the row that the order meets.
unfoldable pub send_at :
    ExecutionRealism
    → EpisodeTape
    → SendRequest
    → ℕ
    → List (ℕ × TapeRow)
    → ℕ × TapeRow
    → SelfImpact
    → ExecutionOutcome × SelfImpact
unfolding cap_buy_to_spend enforced
send_at realism tape request arrival rows (index, row) impact =
    let (consumed, cursor) =
      reconcile_self_impact request.token_index index rows (impact.consumed, impact.cursor) in
    let side = taken_side request.side in
    let levels =
      apply_self_impact request.token_index side consumed (taker_ladder request.side row) in
    let shares =
      shares_for realism.fee_model request.side request.max_spend_scaled levels
        request.shares_scaled in
    let cap =
      spend_cap request.side request.max_spend_scaled
        (cash_at request.available_cash_scaled arrival) in
    let outcome =
      enforced request.require_full_fill (is_notional_sized request.side request.max_spend_scaled) (
        capped realism.fee_model cap
          (execute realism (order_for tape request shares arrival row.received_utc_ns) levels)) in
    (
      outcome,
      record {
        consumed = consume_slices request.token_index side outcome.slices consumed;
        cursor = cursor;
      },
    )

abbrev pub send_found :
    ExecutionRealism
    → Bool
    → EpisodeTape
    → SendRequest
    → ℕ
    → List (ℕ × TapeRow)
    → Option (ℕ × TapeRow)
    → SelfImpact
    → ExecutionOutcome × SelfImpact
send_found realism require_valid tape request arrival rows none impact =
    (rejected_outcome tape request no_book_at_arrival arrival, impact)
send_found realism require_valid tape request arrival rows (some found) impact =
    if require_valid
      && (not found.1.book_valid || is_uncertain request.token_index arrival tape.uncertainty)
    then (rejected_outcome tape request book_state_uncertain arrival, impact)
    else send_at realism tape request arrival rows found impact

abbrev pub send_checked :
    Option RejectedReason
    → ExecutionRealism
    → Bool
    → EpisodeTape
    → SendRequest
    → List (ℕ × TapeRow)
    → SelfImpact
    → ExecutionOutcome × SelfImpact
send_checked (some reason) realism require_valid tape request rows impact =
    (rejected_outcome tape request reason (arrival_of request), impact)
send_checked none realism require_valid tape request rows impact =
    send_found realism require_valid tape request (arrival_of request) rows
      (row_at (arrival_of request) rows) impact

-- `_send`
unfoldable pub send :
    ExecutionRealism
    → Bool
    → EpisodeTape
    → SendRequest
    → List (ℕ × TapeRow)
    → SelfImpact
    → ExecutionOutcome × SelfImpact
unfolding early_reason send_at
send realism require_valid tape request rows impact =
    send_checked (early_reason tape request (arrival_of request)) realism require_valid tape request
      rows impact
