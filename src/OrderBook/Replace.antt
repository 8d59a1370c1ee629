-- ===== src/OrderBook/Replace.antt =====
-- `OrderBook.replace`: a snapshot supersedes the book, or is refused.
use polymarket_btc_15min_bac.Base.{
  ℕ, Bool, true, false, not, ◌||◌, List, [], ◌∷◌, ◌++◌, ltb, ◌==◌, if◌then◌else◌, ℤ, pos, negsuc,
  pos_part, ltb_ℤ, is_some, Result, ok, err,
}
use polymarket_btc_15min_bac.Dict.{lookup}
use polymarket_btc_15min_bac.SortedDict.{SortedDict, first_key, last_key}
use polymarket_btc_15min_bac.OrderBook.Defs.{
  ValidationIssue, validate_level, validate_cross, issue_if, duplicate_level, token_mapping_invalid,
  BookLevel, BookSnapshot, OrderBook,
}

-- The snapshot's or the change's identifiers are not the book's.
abbrev pub is_foreign : ℕ → ℕ → ℕ → ℕ → Bool
is_foreign token condition book_token book_condition =
    not (token == book_token) || not (condition == book_condition)

module _ {M : Type 0} ⦃d : SortedDict M⦄ where
  -- `if level.price_scaled in bids`. No price below zero is ever entered: its level has an issue of its
  -- own, so that the snapshot is refused and the new side thrown away.
  abbrev pub has_price : ℤ → M → Bool
  has_price (pos p) m = is_some (lookup p (d.items m))
  has_price (negsuc _) m = false

  abbrev pub enter : ℤ → ℤ → M → M
  enter (pos p) size m = if ltb_ℤ (pos 0) size then d.set_item p (pos_part size) m else m
  enter (negsuc _) size m = m

  -- The loop over one side of the snapshot: the new side, and the issues so far.
  unfoldable pub load : ℤ → List BookLevel → M → List ValidationIssue → M × List ValidationIssue
  load tick [] m issues = (m, issues)
  load tick (level ∷ levels) m issues =
      load tick levels (enter level.price_scaled level.size_scaled m) (
        issues
        ++ (validate_level level.price_scaled level.size_scaled tick
            ++ issue_if (has_price level.price_scaled m) duplicate_level))

  abbrev pub loaded : BookSnapshot → M × M × List ValidationIssue
  loaded snapshot =
      let (bids, bid_issues) = load snapshot.tick_size_scaled snapshot.bids d.empty [] in
      let (asks, issues) = load snapshot.tick_size_scaled snapshot.asks d.empty bid_issues in
      (bids, asks, issues ++ validate_cross (last_key (d.items bids)) (first_key (d.items asks)))

  abbrev pub superseded : BookSnapshot → M → M → OrderBook M → OrderBook M
  superseded snapshot bids asks book = record book {
    bids = bids;
    asks = asks;
    consumed_bids = [];
    consumed_asks = [];
    tick_size_scaled = snapshot.tick_size_scaled;
    minimum_order_size_scaled = snapshot.minimum_order_size_scaled;
    last_sequence = snapshot.sequence;
    last_received_utc_ns = snapshot.received_utc_ns;
    source_hash = snapshot.book_hash;
    valid = true;
  }

  -- The last part of `replace`, on the issues found.
  abbrev pub accept_snapshot :
      List ValidationIssue
      → BookSnapshot
      → M
      → M
      → OrderBook M
      → Result (List ValidationIssue) Bool × OrderBook M
  accept_snapshot [] snapshot bids asks book = (ok true, superseded snapshot bids asks book)
  accept_snapshot (issue ∷ issues) snapshot bids asks book =
      (err (issue ∷ issues), record book { valid = false })

  unfoldable pub replace :
      BookSnapshot → OrderBook M → Result (List ValidationIssue) Bool × OrderBook M
  unfolding load
  replace snapshot book =
      if is_foreign snapshot.token_id snapshot.condition_id book.token_id book.condition_id
      then (err (token_mapping_invalid ∷ []), book)
      else if ltb snapshot.sequence book.last_sequence
      then (ok false, book)
      else (let (bids, asks, issues) = loaded snapshot in
          accept_snapshot issues snapshot bids asks book)
