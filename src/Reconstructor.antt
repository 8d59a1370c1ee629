-- ===== src/Reconstructor.antt =====
-- `BookReconstructor` and `UncertaintyInterval` of src/polymarket_bt/orderbook/reconstructor.py, with
-- `TickSizeChange` of src/polymarket_bt/models/books.py. A method that raises leaves what it wrote before.
pub mod Invariant
pub mod Intervals
use polymarket_btc_15min_bac.Base.{
  ℕ, Bool, true, false, not, ◌&&◌, ◌||◌, Option, none, some, List, [], ◌∷◌, ◌++◌, ◌==◌,
  if◌then◌else◌, ℤ, pos, ltb_ℤ, is_some, Result, ok, err,
}
use polymarket_btc_15min_bac.Dict.{Dict, lookup, insert, value_or}
use polymarket_btc_15min_bac.SortedDict.{SortedDict}
use polymarket_btc_15min_bac.OrderBook.{
  OrderBook, BookSnapshot, BookLevelChange, SnapshotSource, clob_rest, clob_market_ws, TopOfBook,
  ValidationIssue, new_book, top, replace, apply,
}

pub record TickSizeChange : Type 0 where
  pub condition_id : ℕ
  pub token_id : ℕ
  pub new_tick_size_scaled : ℤ

-- The reason of an interval is text that nothing reads.
pub record UncertaintyInterval : Type 0 where
  pub token_id : ℕ
  pub start_utc_ns : ℕ
  pub end_utc_ns : Option ℕ
  pub first_sequence : Option ℕ
  pub last_sequence : Option ℕ

pub record BookReconstructor (M : Type 0) : Type 0 where
  pub books : Dict (OrderBook M)
  pub uncertainty : List UncertaintyInterval
  pub effective_tick_sizes : Dict ℤ

pub data ReconstructorError : Type 0 where
  token_mapping_changed tick_size_not_positive tick_size_mapping no_valid_snapshot :
      ReconstructorError
  validation_failed : List ValidationIssue → ReconstructorError

abbrev pub is_open_for : ℕ → UncertaintyInterval → Bool
is_open_for token interval = (interval.token_id == token) && not (is_some interval.end_utc_ns)

abbrev pub closed_by : BookSnapshot → UncertaintyInterval → UncertaintyInterval
closed_by snapshot interval = record interval {
  end_utc_ns = some snapshot.received_utc_ns;
  last_sequence = some snapshot.sequence;
}

abbrev pub any_open : ℕ → List UncertaintyInterval → Bool
any_open token [] = false
any_open token (interval ∷ later) = is_open_for token interval || any_open token later

-- The loop over `reversed(self.uncertainty)`: it closes the last interval of the token that is open.
unfoldable pub close_last : BookSnapshot → List UncertaintyInterval → List UncertaintyInterval
close_last snapshot [] = []
close_last snapshot (interval ∷ later) =
    let closed_later = close_last snapshot later in
    if any_open snapshot.token_id later
    then interval ∷ closed_later
    else (if is_open_for snapshot.token_id interval
        then closed_by snapshot interval ∷ later
        else interval ∷ later)

abbrev pub is_rest : SnapshotSource → Bool
is_rest clob_rest = true
is_rest clob_market_ws = false

-- The tick size that the snapshot is read with: its own, when it comes from the REST source or when
-- none is known, and the known one otherwise.
abbrev pub tick_for : SnapshotSource → Option ℤ → ℤ → ℤ
tick_for clob_rest known own = own
tick_for clob_market_ws none own = own
tick_for clob_market_ws (some tick) own = tick

module _ {M : Type 0} ⦃d : SortedDict M⦄ where
  abbrev pub new_reconstructor : BookReconstructor M
  new_reconstructor = record { books = []; uncertainty = []; effective_tick_sizes = [] }

  abbrev pub store : ℕ → OrderBook M → BookReconstructor M → BookReconstructor M
  store token book r = record r { books = insert token book r.books }

  abbrev pub is_changed : ℕ → ℕ → OrderBook M → Bool
  is_changed condition outcome book =
      not (book.condition_id == condition) || not (book.outcome == outcome)

  -- `register`, after the lookup.
  abbrev pub registered :
      ℕ
      → ℕ
      → ℕ
      → BookReconstructor M
      → Option (OrderBook M)
      → Result ReconstructorError (OrderBook M) × BookReconstructor M
  registered condition token outcome r none =
      (ok (new_book condition token outcome), store token (new_book condition token outcome) r)
  registered condition token outcome r (some book) =
      if is_changed condition outcome book then (err token_mapping_changed, r) else (ok book, r)

  unfoldable pub register :
      ℕ
      → ℕ
      → ℕ
      → BookReconstructor M
      → Result ReconstructorError (OrderBook M) × BookReconstructor M
  register condition token outcome r = registered condition token outcome r (lookup token r.books)

  -- `book.replace(snapshot)`, the closing of the interval and `book.top()`.
  abbrev pub after_replace :
      BookSnapshot
      → Result (List ValidationIssue) Bool × OrderBook M
      → BookReconstructor M
      → Result ReconstructorError TopOfBook × BookReconstructor M
  after_replace snapshot (err issues, book) r =
      (err (validation_failed issues), store snapshot.token_id book r)
  after_replace snapshot (ok _, book) r = (
    ok (top book),
    record (store snapshot.token_id book r) { uncertainty = close_last snapshot r.uncertainty },
  )

  abbrev pub after_register :
      BookSnapshot
      → Result ReconstructorError (OrderBook M) × BookReconstructor M
      → Result ReconstructorError TopOfBook × BookReconstructor M
  after_register snapshot (err e, r) = (err e, r)
  after_register snapshot (ok book, r) = after_replace snapshot (replace snapshot book) r

  -- The snapshot as it is read, and the effective tick size that it leaves.
  abbrev pub effective : BookSnapshot → BookReconstructor M → BookSnapshot
  effective snapshot r = record snapshot {
    tick_size_scaled =
        tick_for snapshot.source (lookup snapshot.token_id r.effective_tick_sizes)
          snapshot.tick_size_scaled;
  }

  abbrev pub with_tick : BookSnapshot → BookReconstructor M → BookReconstructor M
  with_tick snapshot r = record r {
    effective_tick_sizes =
        insert snapshot.token_id (effective snapshot r).tick_size_scaled r.effective_tick_sizes;
  }

  unfoldable pub apply_snapshot :
      BookSnapshot → BookReconstructor M → Result ReconstructorError TopOfBook × BookReconstructor M
  unfolding register close_last
  apply_snapshot snapshot r =
      after_register (effective snapshot r)
        (register snapshot.condition_id snapshot.token_id snapshot.outcome (with_tick snapshot r))

  -- The book with the tick size of a change, if the token has a book.
  abbrev pub retick :
      TickSizeChange
      → BookReconstructor M
      → Option (OrderBook M)
      → Result ReconstructorError (Option TopOfBook) × BookReconstructor M
  retick change r none = (ok none, r)
  retick change r (some book) =
      let moved : OrderBook M = record book { tick_size_scaled = change.new_tick_size_scaled } in
      if not (book.condition_id == change.condition_id)
      then (err tick_size_mapping, r)
      else (ok (some (top moved)), store change.token_id moved r)

  unfoldable pub apply_tick_size_change :
      TickSizeChange
      → BookReconstructor M
      → Result ReconstructorError (Option TopOfBook) × BookReconstructor M
  apply_tick_size_change change r =
      if not (ltb_ℤ (pos 0) change.new_tick_size_scaled)
      then (err tick_size_not_positive, r)
      else retick change
          (record r {
            effective_tick_sizes =
                insert change.token_id change.new_tick_size_scaled r.effective_tick_sizes;
          })
          (lookup change.token_id r.books)

  abbrev pub after_apply :
      ℕ
      → Result (List ValidationIssue) (Unit {0}) × OrderBook M
      → BookReconstructor M
      → Result ReconstructorError TopOfBook × BookReconstructor M
  after_apply token (err issues, book) r = (err (validation_failed issues), store token book r)
  after_apply token (ok _, book) r = (ok (top book), store token book r)

  abbrev pub change_of :
      BookLevelChange
      → BookReconstructor M
      → Option (OrderBook M)
      → Result ReconstructorError TopOfBook × BookReconstructor M
  change_of change r none = (err no_valid_snapshot, r)
  change_of change r (some book) =
      if not book.valid
      then (err no_valid_snapshot, r)
      else after_apply change.token_id (apply change book) r

  unfoldable pub apply_change :
      BookLevelChange
      → BookReconstructor M
      → Result ReconstructorError TopOfBook × BookReconstructor M
  apply_change change r = change_of change r (lookup change.token_id r.books)

  abbrev pub invalidated : OrderBook M → OrderBook M
  invalidated book = record book { valid = false }

  abbrev pub invalidate : ℕ → Option (OrderBook M) → BookReconstructor M → BookReconstructor M
  invalidate token none r = r
  invalidate token (some book) r = store token (invalidated book) r

  unfoldable pub mark_uncertain : ℕ → ℕ → Option ℕ → BookReconstructor M → BookReconstructor M
  mark_uncertain token start first r = record (invalidate token (lookup token r.books) r) {
    uncertainty =
        r.uncertainty
        ++ (record {
          token_id = token;
          start_utc_ns = start;
          end_utc_ns = none;
          first_sequence = first;
          last_sequence = none;
        }
            ∷ []);
  }

  abbrev pub is_usable : Option (OrderBook M) → Bool
  is_usable none = false
  is_usable (some book) = book.valid

  unfoldable pub valid : ℕ → BookReconstructor M → Bool
  valid token r = is_usable (lookup token r.books)
