-- ===== src/Examples/Book.antt =====
-- The order book's theorems on a book with bids at 0.40 and 0.39 and asks at 0.42 and 0.43, in the
-- implementation of the sorted mapping by a list.
use polymarket_btc_15min_bac.Base.{ℕ, ◌≡◌, refl, some, none, List, [], ◌∷◌, pos, true}
use polymarket_btc_15min_bac.Models.{buy, sell}
use polymarket_btc_15min_bac.SortedDict.{Entries, entries_dict, Entries-IsSortedDict}
use polymarket_btc_15min_bac.OrderBook.{
  BookSnapshot, BookLevel, BookLevelChange, OrderBook, clob_rest, new_book, best_bid, best_ask,
  replace,
}
use polymarket_btc_15min_bac.OrderBook.Invariant.{
  IsWellFormed, Call, replace_call, change_call, consume_call, run, run-IsWellFormed,
}
use polymarket_btc_15min_bac.OrderBook.Behaviour.{ReplaceOutcome, replace-atomic}
use polymarket_btc_15min_bac.OrderBook.Depth.{microprice_scaled}

abbrev level_of : ℕ → ℕ → BookLevel
level_of price size = record { price_scaled = pos price; size_scaled = pos size }

abbrev snapshot_of : ℕ → BookSnapshot
snapshot_of sequence = record {
  sequence = sequence;
  source = clob_rest;
  condition_id = 7;
  token_id = 3;
  outcome = 0;
  received_utc_ns = 100;
  book_hash = some 1;
  tick_size_scaled = pos 10_000;
  minimum_order_size_scaled = 5;
  bids = level_of 400_000 10 ∷ level_of 390_000 20 ∷ [];
  asks = level_of 420_000 30 ∷ level_of 430_000 5 ∷ [];
}

abbrev change_to : ℕ → ℕ → ℕ → BookLevelChange
change_to sequence price size = record {
  sequence = sequence;
  condition_id = 7;
  token_id = 3;
  received_utc_ns = 110;
  side = buy;
  price_scaled = pos price;
  new_size_scaled = pos size;
  book_hash = none;
  reported_best_bid_scaled = some (pos 410_000);
  reported_best_ask_scaled = some (pos 420_000);
}

abbrev stored : OrderBook Entries
stored = record (new_book 7 3 0) {
  bids = (390_000, 20) ∷ (400_000, 10) ∷ [];
  asks = (420_000, 30) ∷ (430_000, 5) ∷ [];
  last_sequence = 4;
  valid = true;
}

abbrev feed : List Call
feed =
    replace_call (snapshot_of 4)
    ∷ change_call (change_to 5 410_000 8)
    ∷ consume_call sell 420_000 30
    ∷ change_call (change_to 6 425_000 8)
    ∷ replace_call (snapshot_of 2)
    ∷ []

bid_lem : best_bid stored ≡ some 400_000
bid_lem = refl

ask_lem : best_ask stored ≡ some 420_000
ask_lem = refl

microprice_lem : microprice_scaled stored ≡ some 405_000
unfolding microprice_scaled
microprice_lem = refl

run-IsWellFormed_example : IsWellFormed (run feed (new_book {M = Entries} 7 3 0))
run-IsWellFormed_example = run-IsWellFormed Entries-IsSortedDict 7 3 0 feed

replace-atomic_example : ReplaceOutcome (snapshot_of 6) stored (replace (snapshot_of 6) stored)
replace-atomic_example = replace-atomic (snapshot_of 6) stored
