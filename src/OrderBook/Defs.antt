-- ===== src/OrderBook/Defs.antt =====
-- The state of a book and its readings: src/polymarket_bt/orderbook/validator.py, the fields of
-- src/polymarket_bt/models/books.py that a book reads, and `OrderBook` up to `consume`.
use mathlib.Core.List.{reverse}
use polymarket_btc_15min_bac.Base.{
  ℕ, zero, suc, ◌+◌, ◌-◌, ◌/◌, ◌%◌, Bool, true, false, not, ◌&&◌, Option, none, some, List, [], ◌∷◌,
  ◌++◌, ltb, leb, ◌==◌, if◌then◌else◌, ℤ, pos, negsuc, pos_part, neg_part, is_neg, ltb_ℤ, ◌-ℤ◌,
}
use polymarket_btc_15min_bac.Dict.{Dict, lookup, insert}
use polymarket_btc_15min_bac.SortedDict.{SortedDict, first_key, last_key}
use polymarket_btc_15min_bac.Models.{Side, buy, sell}

-- `POLYMARKET_PRICE_SCALE`
abbrev pub price_scale : ℕ
price_scale = 1_000_000

pub data ValidationIssue : Type 0 where
  invalid_price negative_size tick_noncompliance book_crossed : ValidationIssue
  duplicate_level token_mapping_invalid reported_top_mismatch : ValidationIssue

-- The issue, if the test says so.
abbrev pub issue_if : Bool → ValidationIssue → List ValidationIssue
issue_if test issue = if test then issue ∷ [] else []

-- `price_scaled % tick_size_scaled` is not zero, for a positive tick.
abbrev pub is_misaligned : ℤ → ℤ → Bool
is_misaligned price (pos zero) = true
is_misaligned price (pos (suc n)) = not (((pos_part price + neg_part price) % suc n) == 0)
is_misaligned price (negsuc _) = true

unfoldable pub validate_level : ℤ → ℤ → ℤ → List ValidationIssue
validate_level price size tick =
    issue_if (not (ltb_ℤ (pos 0) price && ltb_ℤ price (pos price_scale))) invalid_price
    ++ (issue_if (is_neg size) negative_size
        ++ issue_if (is_misaligned price tick) tick_noncompliance)

unfoldable pub validate_cross : Option ℕ → Option ℕ → List ValidationIssue
validate_cross (some bid) (some ask) = issue_if (leb ask bid) book_crossed
validate_cross _ _ = []

pub record BookLevel : Type 0 where
  pub price_scaled : ℤ
  pub size_scaled : ℤ

pub data SnapshotSource : Type 0 where
  clob_rest clob_market_ws : SnapshotSource

pub record BookSnapshot : Type 0 where
  pub sequence : ℕ
  pub source : SnapshotSource
  pub condition_id : ℕ
  pub token_id : ℕ
  pub outcome : ℕ
  pub received_utc_ns : ℕ
  pub book_hash : Option ℕ
  pub tick_size_scaled : ℤ
  pub minimum_order_size_scaled : ℕ
  pub bids : List BookLevel
  pub asks : List BookLevel

pub record BookLevelChange : Type 0 where
  pub sequence : ℕ
  pub condition_id : ℕ
  pub token_id : ℕ
  pub received_utc_ns : ℕ
  pub side : Side
  pub price_scaled : ℤ
  pub new_size_scaled : ℤ
  pub book_hash : Option ℕ
  pub reported_best_bid_scaled : Option ℤ
  pub reported_best_ask_scaled : Option ℤ

pub record OrderBook (M : Type 0) : Type 0 where
  pub condition_id : ℕ
  pub token_id : ℕ
  pub outcome : ℕ
  pub bids : M
  pub asks : M
  pub consumed_bids : Dict ℕ
  pub consumed_asks : Dict ℕ
  pub tick_size_scaled : ℤ
  pub minimum_order_size_scaled : ℕ
  pub last_sequence : ℕ
  pub last_received_utc_ns : ℕ
  pub source_hash : Option ℕ
  pub valid : Bool

pub record TopOfBook : Type 0 where
  pub condition_id : ℕ
  pub token_id : ℕ
  pub sequence : ℕ
  pub received_utc_ns : ℕ
  pub best_bid_scaled : Option ℕ
  pub best_ask_scaled : Option ℕ
  pub spread_scaled : Option ℤ
  pub midpoint_scaled : Option ℕ
  pub bid_size_scaled : Option ℕ
  pub ask_size_scaled : Option ℕ

abbrev pub level_price : ℕ × ℕ → ℕ
level_price level = level.0

abbrev pub level_size : ℕ × ℕ → ℕ
level_size level = level.1

-- A level's size less what simulated fills have taken of it; the loop of `available_levels`.
abbrev pub taken_at : Dict ℕ → ℕ → ℕ
taken_at consumed price = elim (lookup price consumed) [ none ↦ 0 | some taken ↦ taken ]

unfoldable pub remaining : Dict ℕ → List (ℕ × ℕ) → List (ℕ × ℕ)
remaining consumed [] = []
remaining consumed ((price, size) ∷ levels) =
    let left = size - taken_at consumed price in
    if ltb 0 left then (price, left) ∷ remaining consumed levels else remaining consumed levels

-- Both sides known: `f(bid, ask)`, and `None` otherwise.
abbrev pub both {ℓ} : {A : Type ℓ} → (ℕ → ℕ → A) → Option ℕ → Option ℕ → Option A
both f (some bid) (some ask) = some (f bid ask)
both f _ _ = none

-- `self.bids.get(bid) if bid is not None else None`
abbrev pub size_at : Option ℕ → List (ℕ × ℕ) → Option ℕ
size_at none levels = none
size_at (some price) levels = lookup price levels

module _ {M : Type 0} ⦃d : SortedDict M⦄ where
  abbrev pub new_book : ℕ → ℕ → ℕ → OrderBook M
  new_book condition token outcome = record {
    condition_id = condition;
    token_id = token;
    outcome = outcome;
    bids = d.empty;
    asks = d.empty;
    consumed_bids = [];
    consumed_asks = [];
    tick_size_scaled = pos 10_000;
    minimum_order_size_scaled = 0;
    last_sequence = 0;
    last_received_utc_ns = 0;
    source_hash = none;
    valid = false;
  }

  abbrev pub best_bid : OrderBook M → Option ℕ
  best_bid book = last_key (d.items book.bids)

  abbrev pub best_ask : OrderBook M → Option ℕ
  best_ask book = first_key (d.items book.asks)

  -- `available_levels`, best level first.
  unfoldable pub available_levels : Side → OrderBook M → List (ℕ × ℕ)
  unfolding remaining
  available_levels buy book = remaining book.consumed_bids (reverse (d.items book.bids))
  available_levels sell book = remaining book.consumed_asks (d.items book.asks)

  unfoldable pub consume : Side → ℕ → ℕ → OrderBook M → OrderBook M
  consume buy price size book = record book {
    consumed_bids = insert price (taken_at book.consumed_bids price + size) book.consumed_bids;
  }
  consume sell price size book = record book {
    consumed_asks = insert price (taken_at book.consumed_asks price + size) book.consumed_asks;
  }

  unfoldable pub top : OrderBook M → TopOfBook
  top book =
      let bid = best_bid book in
      let ask = best_ask book in
      record {
        condition_id = book.condition_id;
        token_id = book.token_id;
        sequence = book.last_sequence;
        received_utc_ns = book.last_received_utc_ns;
        best_bid_scaled = bid;
        best_ask_scaled = ask;
        spread_scaled = both (λ b a. pos a -ℤ pos b) bid ask;
        midpoint_scaled = both (λ b a. (a + b) / 2) bid ask;
        bid_size_scaled = size_at bid (d.items book.bids);
        ask_size_scaled = size_at ask (d.items book.asks);
      }
