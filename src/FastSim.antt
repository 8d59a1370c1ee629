-- ===== src/FastSim.antt =====
-- How the episode simulator sends one order: `ThresholdHoldSimulator._send` and the helpers it calls, of
-- src/polymarket_bt/backtest/fastsim.py, on the columns of `EpisodeTape` of
-- src/polymarket_bt/backtest/tape.py, a row a record. Dollar amounts are natural numbers: `_cash_at`
-- floors them at zero.
pub mod Send
pub mod Spend
pub mod Impact
pub mod Afford
use polymarket_btc_15min_bac.Base.{
  ℕ, zero, suc, ◌+◌, ◌-◌, ◌*◌, ◌/◌, Bool, true, false, not, ◌&&◌, ◌||◌, Option, none, some, List,
  [], ◌∷◌, ◌++◌, ltb, leb, ◌==◌, if◌then◌else◌, keep_if, any_of, sum_by, length,
}
use polymarket_btc_15min_bac.Models.{Side, buy, sell}
use polymarket_btc_15min_bac.Fees.{FeeModel, calculate, notional_scaled, scale}
use polymarket_btc_15min_bac.Realism.{FillSlice, slice_of}

pub data EventKind : Type 0 where
  kind_snapshot kind_update kind_tick : EventKind

-- A side of the book, as the tape and the record of the own orders name it.
pub data BookSide : Type 0 where
  side_none side_bids side_asks : BookSide

pub record TapeRow : Type 0 where
  pub received_utc_ns : ℕ
  pub token_index : ℕ
  pub event_kind : EventKind
  pub event_side : BookSide
  pub event_price_scaled : ℕ
  pub book_valid : Bool
  pub bids : List (ℕ × ℕ)
  pub asks : List (ℕ × ℕ)

pub record TapeUncertainty : Type 0 where
  pub token_index : ℕ
  pub start_utc_ns : ℕ
  pub end_utc_ns : Option ℕ

pub record EpisodeTape : Type 0 where
  pub end_utc_ns : ℕ
  pub minimum_order_size_scaled : ℕ
  pub tick_size_scaled : ℕ
  pub rows : List TapeRow
  pub uncertainty : List TapeUncertainty

-- `ladder`, without the padding, and `taker_ladder`
abbrev pub ladder : List (ℕ × ℕ) → List (ℕ × ℕ)
ladder = keep_if λ level. ltb 0 level.1

unfoldable pub taker_ladder : Side → TapeRow → List (ℕ × ℕ)
taker_ladder buy row = ladder row.asks
taker_ladder sell row = ladder row.bids

abbrev pub is_through : ℕ → Option ℕ → Bool
is_through t none = true
is_through t (some end) = leb t end

-- `is_uncertain`
unfoldable pub is_uncertain : ℕ → ℕ → List TapeUncertainty → Bool
is_uncertain token t = any_of λ interval.
    (interval.token_index == token)
    && (leb interval.start_utc_ns t && is_through t interval.end_utc_ns)

-- The rows of a token with their indices, in tape order, from the index `n`: `_token_rows`, whose second
-- list is the rows' times.
unfoldable pub token_rows : ℕ → ℕ → List TapeRow → List (ℕ × TapeRow)
token_rows token n [] = []
token_rows token n (row ∷ rows) =
    let later = token_rows token (suc n) rows in
    if row.token_index == token then (n, row) ∷ later else later

-- `_row_at`: the last of the rows, which are in the order of time, at or before `t`.
unfoldable pub row_at : ℕ → List (ℕ × TapeRow) → Option (ℕ × TapeRow)
row_at t [] = none
row_at t (entry ∷ rows) =
    let later = row_at t rows in
    if ltb t entry.1.received_utc_ns
    then none
    else elim later [ none ↦ some entry | some e ↦ some e ]

-- An entry of `consumed`: what own orders have taken at a price.
pub record Consumed : Type 0 where
  pub token_index : ℕ
  pub side : BookSide
  pub price_scaled : ℕ
  pub size_scaled : ℕ

abbrev pub same_side : BookSide → BookSide → Bool
same_side side_none side_none = true
same_side side_bids side_bids = true
same_side side_asks side_asks = true
same_side _ _ = false

abbrev pub is_at : ℕ → BookSide → ℕ → Consumed → Bool
is_at token side price entry =
    (entry.token_index == token) && (same_side entry.side side && (entry.price_scaled == price))

-- `consumed.get(key, 0)`
unfoldable pub consumed_at : ℕ → BookSide → ℕ → List Consumed → ℕ
consumed_at token side price [] = 0
consumed_at token side price (entry ∷ entries) =
    let later = consumed_at token side price entries in
    if is_at token side price entry then entry.size_scaled else later

-- `consumed[key] = consumed.get(key, 0) + size`
unfoldable pub consume_more : ℕ → BookSide → ℕ → ℕ → List Consumed → List Consumed
consume_more token side price size [] =
    record { token_index = token; side = side; price_scaled = price; size_scaled = size } ∷ []
consume_more token side price size (entry ∷ entries) =
    let later = consume_more token side price size entries in
    if is_at token side price entry
    then record entry { size_scaled = entry.size_scaled + size } ∷ entries
    else entry ∷ later

unfoldable pub consume_slices : ℕ → BookSide → List FillSlice → List Consumed → List Consumed
unfolding consume_more
consume_slices token side [] consumed = consumed
consume_slices token side (s ∷ slices) consumed =
    consume_slices token side slices (consume_more token side s.price_scaled s.size_scaled consumed)

-- What one row of the token gives back: a snapshot everything, an update its side and price.
abbrev pub restored_by : ℕ → EventKind → BookSide → ℕ → List Consumed → List Consumed
restored_by token kind_snapshot side price = keep_if λ entry. not (entry.token_index == token)
restored_by token kind_update side price = keep_if λ entry. not (is_at token side price entry)
restored_by token kind_tick side price = λ consumed. consumed

abbrev pub restored : ℕ → TapeRow → List Consumed → List Consumed
restored token row = restored_by token row.event_kind row.event_side row.event_price_scaled

-- `impact_cursor.get(token_index, -1)`: the last row that was reconciled, if any.
abbrev pub is_after : Option ℕ → ℕ → Bool
is_after none row = true
is_after (some last) row = ltb last row

-- The loop of `_reconcile_self_impact` over the rows after the last and through `through`.
unfoldable pub reconcile : ℕ → Option ℕ → ℕ → List (ℕ × TapeRow) → List Consumed → List Consumed
reconcile token last through [] consumed = consumed
reconcile token last through (entry ∷ rows) consumed = reconcile token last through rows (
    if is_after last entry.0 && leb entry.0 through
    then restored token entry.1 consumed
    else consumed)

-- `_reconcile_self_impact`: a cursor that is not before the row stays where it is.
unfoldable pub reconcile_self_impact :
    ℕ → ℕ → List (ℕ × TapeRow) → List Consumed × Option ℕ → List Consumed × Option ℕ
unfolding reconcile
reconcile_self_impact token through rows (consumed, cursor) =
    if is_after cursor through
    then (reconcile token cursor through rows consumed, some through)
    else (consumed, cursor)

-- `_apply_self_impact`. The levels of a ladder have a size, so with nothing consumed all of them stay.
unfoldable pub apply_self_impact : ℕ → BookSide → List Consumed → List (ℕ × ℕ) → List (ℕ × ℕ)
unfolding consumed_at
apply_self_impact token side consumed [] = []
apply_self_impact token side consumed ((price, size) ∷ levels) =
    let left = size - consumed_at token side price consumed in
    let rest = apply_self_impact token side consumed levels in
    if ltb 0 left then (price, left) ∷ rest else rest

-- What a quantity costs, with the taker fee.
unfoldable pub all_in_cost : FeeModel → ℕ → ℕ → ℕ
all_in_cost fees price size = notional_scaled size price + calculate fees size price

-- The loop of `_max_affordable_shares`, on fuel.
unfoldable pub search_shares : FeeModel → ℕ → ℕ → ℕ → ℕ → ℕ → ℕ
unfolding all_in_cost
search_shares fees spend price zero low high = low
search_shares fees spend price (suc fuel) low high =
    let middle = (low + high + 1) / 2 in
    let fits = leb (all_in_cost fees price middle) spend in
    let rest =
      search_shares fees spend price fuel (if fits then middle else low)
        (if fits then high else middle - 1) in
    if ltb low high then rest else low

abbrev pub upper_or : Option ℕ → ℕ → ℕ → ℕ
upper_or (some upper) spend price = upper
upper_or none spend zero = 0
upper_or none spend (suc p) = spend * scale / suc p + 1

-- `_max_affordable_shares`. The interval loses a share in each round.
unfoldable pub max_affordable_shares : FeeModel → ℕ → ℕ → Option ℕ → ℕ
unfolding search_shares
max_affordable_shares fees spend price upper =
    let high = upper_or upper spend price in
    if (spend == 0) || (price == 0) then 0 else search_shares fees spend price high 0 high

-- The loop of `_cap_buy_to_spend`: the slices that are kept, and whether the cash cut one.
unfoldable pub cap_slices : FeeModel → ℕ → List FillSlice → List FillSlice × Bool
unfolding max_affordable_shares
cap_slices fees remaining [] = ([], false)
cap_slices fees remaining (s ∷ slices) =
    let cost = s.notional + s.fee_scaled in
    let rest = cap_slices fees (remaining - cost) slices in
    let size = max_affordable_shares fees remaining s.price_scaled (some s.size_scaled) in
    if leb cost remaining
    then (s ∷ rest.0, rest.1)
    else (if ltb 0 size then slice_of fees s.level_rank s.price_scaled size ∷ [] else [], true)
