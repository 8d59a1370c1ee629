-- ===== src/OrderBook/Apply.antt =====
-- `OrderBook.apply`: one level's new absolute size, with the top of the book that the source reports.
use polymarket_btc_15min_bac.Base.{
  ℕ, Bool, true, false, not, Option, none, some, List, [], ◌∷◌, ◌++◌, ltb, ◌==◌, if◌then◌else◌, ℤ,
  pos, pos_part, ltb_ℤ, eqb_ℤ, Result, ok, err, keep_if, map,
}
use polymarket_btc_15min_bac.Dict.{Dict}
use polymarket_btc_15min_bac.SortedDict.{SortedDict}
use polymarket_btc_15min_bac.Models.{Side, buy, sell}
use polymarket_btc_15min_bac.OrderBook.Defs.{
  ValidationIssue, validate_level, validate_cross, issue_if, token_mapping_invalid,
  reported_top_mismatch, BookLevelChange, OrderBook, best_bid, best_ask, price_scale,
}
use polymarket_btc_15min_bac.OrderBook.Replace.{is_foreign}

-- `consumed.pop(price, None)`
abbrev pub erase : ℕ → Dict ℕ → Dict ℕ
erase k [] = []
erase k (e ∷ d) = if k == e.0 then d else e ∷ erase k d

-- The reported best as the book would say it: 0 for a bid, or the price scale for an ask, is no level.
abbrev pub expected_top : ℕ → ℤ → Option ℤ
expected_top empty reported = if eqb_ℤ reported (pos empty) then none else some reported

abbrev pub same_top : Option ℕ → Option ℤ → Bool
same_top none none = true
same_top (some best) (some expected) = eqb_ℤ (pos best) expected
same_top _ _ = false

-- The check of one side's best against the report, if there is one.
abbrev pub top_issue : ℕ → Option ℤ → Option ℕ → List ValidationIssue
top_issue empty none best = []
top_issue empty (some reported) best =
    issue_if (not (same_top best (expected_top empty reported))) reported_top_mismatch

-- `change.book_hash or self.source_hash`; an empty hash counts as none.
abbrev pub or_hash : Option ℕ → Option ℕ → Option ℕ
or_hash none old = old
or_hash (some hash) _ = some hash

module _ {M : Type 0} ⦃d : SortedDict M⦄ where
  -- `for price in tuple(...): side.pop(price, None)`
  abbrev pub pop_all : List ℕ → M → M
  pop_all [] m = m
  pop_all (price ∷ prices) m = pop_all prices (d.pop price m)

  -- `irange(minimum=reported + 1)` and `irange(maximum=reported - 1)`
  abbrev pub keys_above : ℤ → M → List ℕ
  keys_above reported m = map (λ e. e.0) (keep_if (λ e. ltb_ℤ reported (pos e.0)) (d.items m))

  abbrev pub keys_below : ℤ → M → List ℕ
  keys_below reported m = map (λ e. e.0) (keep_if (λ e. ltb_ℤ (pos e.0) reported) (d.items m))

  -- Prices above a reported best bid can no longer exist.
  abbrev pub cut_bids : Option ℤ → M → M
  cut_bids none m = m
  cut_bids (some reported) m =
      if eqb_ℤ reported (pos 0) then d.empty else pop_all (keys_above reported m) m

  abbrev pub cut_asks : Option ℤ → M → M
  cut_asks none m = m
  cut_asks (some reported) m =
      if eqb_ℤ reported (pos price_scale) then d.empty else pop_all (keys_below reported m) m

  -- The restated level. `validate_level` has passed: the price and the size are not negative.
  abbrev pub put_level : ℕ → ℕ → M → M
  put_level price size m = if size == 0 then d.pop price m else d.set_item price size m

  abbrev pub restate : Side → ℕ → ℕ → OrderBook M → OrderBook M
  restate buy price size book = record book {
    consumed_bids = erase price book.consumed_bids;
    bids = put_level price size book.bids;
  }
  restate sell price size book = record book {
    consumed_asks = erase price book.consumed_asks;
    asks = put_level price size book.asks;
  }

  -- The book after the level and the reported tops, before it is checked.
  unfoldable pub moved : BookLevelChange → OrderBook M → OrderBook M
  moved change book =
      let book' =
        restate change.side (pos_part change.price_scaled) (pos_part change.new_size_scaled) book in
      record book' {
        bids = cut_bids change.reported_best_bid_scaled book'.bids;
        asks = cut_asks change.reported_best_ask_scaled book'.asks;
      }

  unfoldable pub top_issues : BookLevelChange → OrderBook M → List ValidationIssue
  top_issues change book =
      validate_cross (best_bid book) (best_ask book)
      ++ (top_issue 0 change.reported_best_bid_scaled (best_bid book)
          ++ top_issue price_scale change.reported_best_ask_scaled (best_ask book))

  abbrev pub finish :
      List ValidationIssue
      → BookLevelChange
      → OrderBook M
      → Result (List ValidationIssue) (Unit {0}) × OrderBook M
  finish [] change book = (
    ok tt,
    record book {
      last_sequence = change.sequence;
      last_received_utc_ns = change.received_utc_ns;
      source_hash = or_hash change.book_hash book.source_hash;
      valid = true;
    },
  )
  finish (issue ∷ issues) change book = (err (issue ∷ issues), record book { valid = false })

  abbrev pub checked :
      List ValidationIssue
      → BookLevelChange
      → OrderBook M
      → Result (List ValidationIssue) (Unit {0}) × OrderBook M
  checked [] change book = finish (top_issues change (moved change book)) change (moved change book)
  checked (issue ∷ issues) change book = (err (issue ∷ issues), record book { valid = false })

  unfoldable pub apply :
      BookLevelChange → OrderBook M → Result (List ValidationIssue) (Unit {0}) × OrderBook M
  unfolding moved top_issues
  apply change book =
      if is_foreign change.token_id change.condition_id book.token_id book.condition_id
      then (err (token_mapping_invalid ∷ []), book)
      else if ltb change.sequence book.last_sequence
      then (ok tt, book)
      else checked (validate_level change.price_scaled change.new_size_scaled book.tick_size_scaled)
          change book
