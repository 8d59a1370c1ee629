-- ===== src/OrderBook/Depth.antt =====
-- Depth read off a book: `depth_metrics` of src/polymarket_bt/orderbook/state.py and the functions of
-- src/polymarket_bt/orderbook/metrics.py.
use mathlib.Core.List.{reverse}
use mathlib.Core.Option.{some-injective}
use native.Mathlib.Nat.{le-div_iff_mul-le, div-le_of_le-mul, mul-le-mul, le_refl}
use polymarket_btc_15min_bac.Base.{
  ℕ, ◌+◌, ◌-◌, ◌*◌, ◌/◌, ◌≤◌, ◌<◌, ◌≡◌, Option, none, some, List, [], ◌∷◌, ◌==◌, leb, if◌then◌else◌,
  ℤ, pos, ◌-ℤ◌, ◌*ℤ◌, floor_div, sum_by, take, keep_if, min, Bool-cases, inl, inr, arith,
}
use polymarket_btc_15min_bac.Dict.{lookup}
use polymarket_btc_15min_bac.SortedDict.{SortedDict}
use polymarket_btc_15min_bac.OrderBook.{OrderBook, best_bid, best_ask, level_size}

pub record DepthMetrics : Type 0 where
  pub l1_bid_scaled : ℕ
  pub l1_ask_scaled : ℕ
  pub l5_bid_scaled : ℕ
  pub l5_ask_scaled : ℕ
  pub l10_bid_scaled : ℕ
  pub l10_ask_scaled : ℕ
  pub within_1c_bid_scaled : ℕ
  pub within_1c_ask_scaled : ℕ
  pub within_2c_bid_scaled : ℕ
  pub within_2c_ask_scaled : ℕ
  pub within_5c_bid_scaled : ℕ
  pub within_5c_ask_scaled : ℕ
  pub imbalance_ppm : Option ℤ

abbrev pub top_sum : List (ℕ × ℕ) → ℕ → ℕ
top_sum levels count = sum_by level_size (take count levels)

-- `abs(price - best)`
abbrev pub distance : ℕ → ℕ → ℕ
distance a b = (a - b) + (b - a)

abbrev pub within : List (ℕ × ℕ) → Option ℕ → ℕ → ℕ
within levels none amount = 0
within levels (some best) amount =
    sum_by level_size (keep_if (λ level. leb (distance level.0 best) amount) levels)

abbrev pub imbalance : ℕ → ℕ → Option ℤ
imbalance bid_depth ask_depth =
    let total = bid_depth + ask_depth in
    if total == 0
    then none
    else some (floor_div ((pos bid_depth -ℤ pos ask_depth) *ℤ pos 1_000_000) total)

-- The loop that both executable sums share, over the levels from the best on: the shares left, the
-- money and the shares filled so far.
unfoldable pub sweep : List (ℕ × ℕ) → ℕ → ℕ → ℕ → ℕ × ℕ
sweep [] left money filled = (money, filled)
sweep ((price, available) ∷ levels) left money filled =
    let taken = min left available in
    let money' = money + taken * price / 1_000_000 in
    let rest = sweep levels (left - taken) money' (filled + taken) in
    if (left - taken) == 0 then (money', filled + taken) else rest

-- The share-weighted price of the touch.
abbrev pub weighted_touch : ℕ → ℕ → ℕ → ℕ → Option ℕ
weighted_touch bid ask bid_size ask_size =
    let total = bid_size + ask_size in
    if total == 0 then none else some ((ask * bid_size + bid * ask_size) / total)

abbrev pub touch_size : List (ℕ × ℕ) → ℕ → ℕ
touch_size levels price = elim (lookup price levels) [ none ↦ 0 | some size ↦ size ]

module _ {M : Type 0} ⦃d : SortedDict M⦄ where
  unfoldable pub depth_metrics : OrderBook M → DepthMetrics
  depth_metrics book =
      let bids = reverse (d.items book.bids) in
      let asks = d.items book.asks in
      record {
        l1_bid_scaled = top_sum bids 1;
        l1_ask_scaled = top_sum asks 1;
        l5_bid_scaled = top_sum bids 5;
        l5_ask_scaled = top_sum asks 5;
        l10_bid_scaled = top_sum bids 10;
        l10_ask_scaled = top_sum asks 10;
        within_1c_bid_scaled = within bids (best_bid book) 10_000;
        within_1c_ask_scaled = within asks (best_ask book) 10_000;
        within_2c_bid_scaled = within bids (best_bid book) 20_000;
        within_2c_ask_scaled = within asks (best_ask book) 20_000;
        within_5c_bid_scaled = within bids (best_bid book) 50_000;
        within_5c_ask_scaled = within asks (best_ask book) 50_000;
        imbalance_ppm = imbalance (top_sum bids 5) (top_sum asks 5);
      }

  unfoldable pub microprice_of : Option ℕ → Option ℕ → OrderBook M → Option ℕ
  microprice_of (some bid) (some ask) book =
      weighted_touch bid ask (touch_size (d.items book.bids) bid)
        (touch_size (d.items book.asks) ask)
  microprice_of _ _ book = none

  unfoldable pub microprice_scaled : OrderBook M → Option ℕ
  unfolding microprice_of
  microprice_scaled book = microprice_of (best_bid book) (best_ask book) book

  unfoldable pub executable_cost_scaled : OrderBook M → ℕ → ℕ × ℕ
  unfolding sweep
  executable_cost_scaled book shares = sweep (d.items book.asks) shares 0 0

  unfoldable pub executable_proceeds_scaled : OrderBook M → ℕ → ℕ × ℕ
  unfolding sweep
  executable_proceeds_scaled book shares = sweep (reverse (d.items book.bids)) shares 0 0

none≢some : {A : Type 0} {a : A} → ¬ (◌≡◌ {A = Option A} none (some a))
none≢some e = cc

sweep-filled :
    (levels : List (ℕ × ℕ)) (left money filled : ℕ)
    → (sweep levels left money filled).1 ≡ filled + min left (sum_by level_size levels)
unfolding sweep
sweep-filled [] left money filled = omega arith
sweep-filled ((price, available) ∷ levels) left money filled =
    let taken = min left available in
    let ih =
      sweep-filled levels (left - taken) (money + taken * price / 1_000_000) (filled + taken) in
    elim (Bool-cases ((left - taken) == 0)) [
      | inl done ↦ rw done (ground arith)
      | inr more ↦ rw more (omega (arith, ih))
    ]

weighted-bounds :
    (bid ask m n : ℕ)
    → bid ≤ ask
    → (bid * (m + n) ≤ ask * m + bid * n) × (ask * m + bid * n ≤ (m + n) * ask)
weighted-bounds bid ask m n h =
    let low = mul-le-mul h (le_refl m) in
    let high = mul-le-mul h (le_refl n) in (omega arith, omega arith)

weighted_touch-between :
    (bid ask bid_size ask_size : ℕ) {price : ℕ}
    → bid ≤ ask
    → weighted_touch bid ask bid_size ask_size ≡ some price
    → (bid ≤ price) × (price ≤ ask)
weighted_touch-between bid ask m n {price} h e = elim (Bool-cases ((m + n) == 0)) [
  | inl empty ↦ absurd (none≢some (rw empty at e))
  | inr sized ↦
      let total : 0 < m + n = ground arith in
      let (low, high) = weighted-bounds bid ask m n h in
      let value = some-injective _ _ (rw sized at e) in
      rw (← value) ((le-div_iff_mul-le total).1 low, div-le_of_le-mul (m + n) high)
]

microprice_of-between :
    {M : Type 0} ⦃d : SortedDict M⦄ (b a : Option ℕ) {bid ask price : ℕ} (book : OrderBook M)
    → b ≡ some bid
    → a ≡ some ask
    → bid ≤ ask
    → microprice_of b a book ≡ some price
    → (bid ≤ price) × (price ≤ ask)
unfolding microprice_of
microprice_of-between b a {bid} {ask} book eb ea h e =
    weighted_touch-between bid ask _ _ h (rw (eb, ea) at e)

module _ {M : Type 0} ⦃d : SortedDict M⦄ where
  -- The size-weighted price lies between the best bid and the best ask of a book that is not crossed.
  pub microprice_scaled-between :
      (book : OrderBook M) {bid ask price : ℕ}
      → best_bid book ≡ some bid
      → best_ask book ≡ some ask
      → bid ≤ ask
      → microprice_scaled book ≡ some price
      → (bid ≤ price) × (price ≤ ask)
  unfolding microprice_scaled
  microprice_scaled-between book eb ea h e =
      microprice_of-between (best_bid book) (best_ask book) book eb ea h e

  -- A marketable size is filled as far as the side is deep, and no further.
  pub executable_cost_scaled-filled :
      (book : OrderBook M) (shares : ℕ)
      → (executable_cost_scaled book shares).1 ≡ min shares (sum_by level_size (d.items book.asks))
  unfolding executable_cost_scaled
  executable_cost_scaled-filled book shares =
      omega (arith, sweep-filled (d.items book.asks) shares 0 0)
