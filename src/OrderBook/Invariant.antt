-- ===== src/OrderBook/Invariant.antt =====
-- What holds of every book that snapshots, changes and simulated fills can reach.
use polymarket_btc_15min_bac.Base.{
  ℕ, ◌<◌, ◌≡◌, refl, false, ◌⊎◌, inl, inr, List, [], ◌∷◌, ltb, pos_part, All, nil-append,
  Bool-cases,
}
use polymarket_btc_15min_bac.SortedDict.{SortedDict, IsSortedDict, first_key, last_key}
use polymarket_btc_15min_bac.Models.{Side, buy, sell}
use polymarket_btc_15min_bac.OrderBook.{
  ValidationIssue, validate_cross, BookSnapshot, BookLevelChange, OrderBook, best_bid, best_ask,
  price_scale, load, loaded, accept_snapshot, replace, is_foreign, apply, checked, finish, moved,
  top_issues, restate, consume, new_book,
}
use polymarket_btc_15min_bac.OrderBook.Levels.{
  IsLevel, IsUncrossed, validate_level-nil, validate_cross-nil, put_level-levels, empty-levels,
  cut_bids-levels, cut_asks-levels, load-issues, load-levels,
}

module _ {M : Type 0} ⦃d : SortedDict M⦄ where
  -- Every level is one that the source may display, and a valid book is not crossed.
  pub record IsWellFormed (book : OrderBook M) : Type 0 where
    pub bid_levels : All IsLevel (d.items book.bids)
    pub ask_levels : All IsLevel (d.items book.asks)
    pub uncrossed : (book.valid ≡ false) ⊎ IsUncrossed (best_bid book) (best_ask book)

  module _ (laws : IsSortedDict M) where
    open laws use {items-empty, items-set_item, items-pop}

    accept_snapshot-IsWellFormed :
        (issues : List ValidationIssue) (snapshot : BookSnapshot) (bids asks : M)
        (book : OrderBook M)
        → (issues ≡ []
            → All IsLevel (d.items bids)
              × All IsLevel (d.items asks)
              × IsUncrossed (last_key (d.items bids)) (first_key (d.items asks)))
        → IsWellFormed book
        → IsWellFormed (accept_snapshot issues snapshot bids asks book).1
    accept_snapshot-IsWellFormed [] snapshot bids asks book sides w =
        let (b, a, u) = sides refl in record { bid_levels = b; ask_levels = a; uncrossed = inr u }
    accept_snapshot-IsWellFormed (issue ∷ issues) snapshot bids asks book sides w = record {
      bid_levels = w.bid_levels;
      ask_levels = w.ask_levels;
      uncrossed = inl refl;
    }

    loaded-levels :
        (snapshot : BookSnapshot)
        → let (bids, asks, issues) = loaded {M = M} snapshot in
          issues ≡ []
          → All IsLevel (d.items bids)
            × All IsLevel (d.items asks)
            × IsUncrossed (last_key (d.items bids)) (first_key (d.items asks))
    loaded-levels snapshot e =
        let tick = snapshot.tick_size_scaled in
        let bids = load tick snapshot.bids d.empty [] in
        let asks = load tick snapshot.asks d.empty bids.1 in
        let parts =
          nil-append asks.1
            (validate_cross (last_key (d.items bids.0)) (first_key (d.items asks.0))) e in
        (
          load-levels laws tick snapshot.bids d.empty [] (empty-levels laws)
              (load-issues laws tick snapshot.asks d.empty bids.1 parts.0),
          load-levels laws tick snapshot.asks d.empty bids.1 (empty-levels laws) parts.0,
          validate_cross-nil _ _ parts.1,
        )

    pub replace-IsWellFormed :
        (snapshot : BookSnapshot) (book : OrderBook M)
        → IsWellFormed book
        → IsWellFormed (replace snapshot book).1
    unfolding replace
    replace-IsWellFormed snapshot book w =
        elim (Bool-cases
          (is_foreign snapshot.token_id snapshot.condition_id book.token_id book.condition_id)) [
            | inl foreign ↦ rw foreign w
            | inr own ↦ rw own (elim (Bool-cases (ltb snapshot.sequence book.last_sequence)) [
              | inl stale ↦ rw stale w
              | inr fresh ↦
                  rw fresh
                    (accept_snapshot-IsWellFormed _ snapshot _ _ book (loaded-levels snapshot) w)
            ])
          ]

    restate-levels :
        (side : Side) (price size : ℕ) (book : OrderBook M)
        → 0 < price
        → price < price_scale
        → IsWellFormed book
        → let book' = restate side price size book in
          All IsLevel (d.items book'.bids) × All IsLevel (d.items book'.asks)
    restate-levels buy price size book low high w =
        (put_level-levels laws price size book.bids low high w.bid_levels, w.ask_levels)
    restate-levels sell price size book low high w =
        (w.bid_levels, put_level-levels laws price size book.asks low high w.ask_levels)

    -- The levels and the reported tops of a change keep both sides made of levels.
    moved-levels :
        (change : BookLevelChange) (book : OrderBook M)
        → (0 < pos_part change.price_scaled) × (pos_part change.price_scaled < price_scale)
        → IsWellFormed book
        → All IsLevel (d.items (moved change book).bids)
          × All IsLevel (d.items (moved change book).asks)
    unfolding moved
    moved-levels change book (low, high) w =
        let price = pos_part change.price_scaled in
        let size = pos_part change.new_size_scaled in
        let book' = restate change.side price size book in
        let (b, a) = restate-levels change.side price size book low high w in
        (
          cut_bids-levels laws change.reported_best_bid_scaled book'.bids b,
          cut_asks-levels laws change.reported_best_ask_scaled book'.asks a,
        )

    finish-IsWellFormed :
        (issues : List ValidationIssue) (change : BookLevelChange) (book : OrderBook M)
        → All IsLevel (d.items book.bids)
        → All IsLevel (d.items book.asks)
        → (issues ≡ [] → IsUncrossed (best_bid book) (best_ask book))
        → IsWellFormed (finish issues change book).1
    finish-IsWellFormed [] change book b a u = record {
      bid_levels = b;
      ask_levels = a;
      uncrossed = inr (u refl);
    }
    finish-IsWellFormed (issue ∷ issues) change book b a u = record {
      bid_levels = b;
      ask_levels = a;
      uncrossed = inl refl;
    }

    checked-IsWellFormed :
        (issues : List ValidationIssue) (change : BookLevelChange) (book : OrderBook M)
        → (issues ≡ []
            → (0 < pos_part change.price_scaled) × (pos_part change.price_scaled < price_scale))
        → IsWellFormed book
        → IsWellFormed (checked issues change book).1
    unfolding top_issues
    checked-IsWellFormed [] change book range w =
        let after = moved change book in
        let (b, a) = moved-levels change book (range refl) w in
        finish-IsWellFormed (top_issues change after) change after b a λ none_found.
          validate_cross-nil (best_bid after) (best_ask after)
            (nil-append (validate_cross (best_bid after) (best_ask after)) _ none_found).0
    checked-IsWellFormed (issue ∷ issues) change book range w = record {
      bid_levels = w.bid_levels;
      ask_levels = w.ask_levels;
      uncrossed = inl refl;
    }

    pub apply-IsWellFormed :
        (change : BookLevelChange) (book : OrderBook M)
        → IsWellFormed book
        → IsWellFormed (apply change book).1
    unfolding apply
    apply-IsWellFormed change book w =
        elim (Bool-cases
          (is_foreign change.token_id change.condition_id book.token_id book.condition_id)) [
            | inl foreign ↦ rw foreign w
            | inr own ↦ rw own (elim (Bool-cases (ltb change.sequence book.last_sequence)) [
              | inl stale ↦ rw stale w
              | inr fresh ↦ rw fresh (
                  checked-IsWellFormed _ change book
                    (λ passed.
                      let valid =
                        validate_level-nil change.price_scaled change.new_size_scaled
                          book.tick_size_scaled passed in
                      (valid.0, valid.1))
                    w)
            ])
          ]

    pub consume-IsWellFormed :
        (side : Side) (price size : ℕ) (book : OrderBook M)
        → IsWellFormed book
        → IsWellFormed (consume side price size book)
    unfolding consume
    consume-IsWellFormed buy price size book w = record {
      bid_levels = w.bid_levels;
      ask_levels = w.ask_levels;
      uncrossed = w.uncrossed;
    }
    consume-IsWellFormed sell price size book w = record {
      bid_levels = w.bid_levels;
      ask_levels = w.ask_levels;
      uncrossed = w.uncrossed;
    }

    pub new_book-IsWellFormed :
        (condition token outcome : ℕ) → IsWellFormed (new_book condition token outcome)
    new_book-IsWellFormed condition token outcome = record {
      bid_levels = (empty-levels laws);
      ask_levels = (empty-levels laws);
      uncrossed = inl refl;
    }

-- What can be done to a book; a refused call leaves what it leaves.
pub data Call : Type 0 where
  replace_call : BookSnapshot → Call
  change_call : BookLevelChange → Call
  consume_call : Side → ℕ → ℕ → Call

module _ {M : Type 0} ⦃d : SortedDict M⦄ where
  unfoldable pub call : Call → OrderBook M → OrderBook M
  call (replace_call snapshot) book = (replace snapshot book).1
  call (change_call change) book = (apply change book).1
  call (consume_call side price size) book = consume side price size book

  unfoldable pub run : List Call → OrderBook M → OrderBook M
  unfolding call
  run [] book = book
  run (c ∷ cs) book = run cs (call c book)

  module _ (laws : IsSortedDict M) where
    call-IsWellFormed :
        (c : Call) (book : OrderBook M) → IsWellFormed book → IsWellFormed (call c book)
    unfolding call
    call-IsWellFormed (replace_call snapshot) book w = replace-IsWellFormed laws snapshot book w
    call-IsWellFormed (change_call change) book w = apply-IsWellFormed laws change book w
    call-IsWellFormed (consume_call side price size) book w =
        consume-IsWellFormed laws side price size book w

    run_from-IsWellFormed :
        (cs : List Call) (book : OrderBook M) → IsWellFormed book → IsWellFormed (run cs book)
    unfolding run
    run_from-IsWellFormed [] book w = w
    run_from-IsWellFormed (c ∷ cs) book w =
        run_from-IsWellFormed cs (call c book) (call-IsWellFormed c book w)

    -- Whatever snapshots, changes and simulated fills a new book has met, refused ones included:
    -- every level it shows has a price strictly between 0 and 1 and a positive size, and if it calls
    -- itself valid its best bid is below its best ask.
    pub run-IsWellFormed :
        (condition token outcome : ℕ) (cs : List Call)
        → IsWellFormed (run cs (new_book condition token outcome))
    run-IsWellFormed condition token outcome cs =
        run_from-IsWellFormed cs (new_book condition token outcome)
          (new_book-IsWellFormed laws condition token outcome)
