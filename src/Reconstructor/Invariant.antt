-- ===== src/Reconstructor/Invariant.antt =====
-- What holds of the reconstructed books after any calls: `BookReconstructor` of
-- src/polymarket_bt/orderbook/reconstructor.py.
use polymarket_btc_15min_bac.Base.{
  ℕ, ◌≡◌, ◌∙◌, refl, Bool, not, Option, none, some, List, [], ◌∷◌, ◌==◌, inl, inr, Bool-cases,
  Option-cases, All, if-either, Result, ok, err, ℤ, pos, ltb_ℤ, ltb,
}
use polymarket_btc_15min_bac.Dict.{lookup, All-insert, All-entry}
use polymarket_btc_15min_bac.SortedDict.{SortedDict, IsSortedDict}
use polymarket_btc_15min_bac.OrderBook.{
  OrderBook, BookSnapshot, BookLevelChange, ValidationIssue, new_book, replace, apply, is_foreign,
  accept_snapshot, checked, finish, moved, restate,
}
use polymarket_btc_15min_bac.Models.{Side, buy, sell}
use polymarket_btc_15min_bac.OrderBook.Invariant.{
  IsWellFormed, replace-IsWellFormed, apply-IsWellFormed, new_book-IsWellFormed,
}
use polymarket_btc_15min_bac.Reconstructor.{
  BookReconstructor, TickSizeChange, ReconstructorError, new_reconstructor, register, is_changed,
  store, apply_snapshot, after_register, after_replace, effective, with_tick,
  apply_tick_size_change, apply_change, after_apply, retick, registered, change_of, mark_uncertain,
  invalidated,
}

module _ {M : Type 0} ⦃d : SortedDict M⦄ where
  -- A book stored under its own token, with the levels of a well-formed book.
  abbrev pub IsBookOf : ℕ × OrderBook M → Type 0
  IsBookOf entry = (entry.1.token_id ≡ entry.0) × IsWellFormed entry.1

  abbrev pub IsSound : BookReconstructor M → Type 0
  IsSound r = All IsBookOf r.books

  abbrev LeavesSound : {A : Type 0} → Result ReconstructorError A × BookReconstructor M → Type 0
  LeavesSound u = IsSound u.1

  retick-IsWellFormed :
      (tick : ℤ) (book : OrderBook M)
      → IsWellFormed book
      → IsWellFormed (record book { tick_size_scaled = tick })
  retick-IsWellFormed tick book w = record {
    bid_levels = w.bid_levels;
    ask_levels = w.ask_levels;
    uncrossed = w.uncrossed;
  }

  invalidated-IsWellFormed :
      (book : OrderBook M) → IsWellFormed book → IsWellFormed (invalidated book)
  invalidated-IsWellFormed book w = record {
    bid_levels = w.bid_levels;
    ask_levels = w.ask_levels;
    uncrossed = inl refl;
  }

  accept_snapshot-token :
      (issues : List ValidationIssue) (snapshot : BookSnapshot) (bids asks : M) (book : OrderBook M)
      → (accept_snapshot issues snapshot bids asks book).1.token_id ≡ book.token_id
  accept_snapshot-token [] snapshot bids asks book = refl
  accept_snapshot-token (issue ∷ issues) snapshot bids asks book = refl

  pub replace-token :
      (snapshot : BookSnapshot) (book : OrderBook M)
      → (replace snapshot book).1.token_id ≡ book.token_id
  unfolding replace
  replace-token snapshot book =
      elim (Bool-cases
        (is_foreign snapshot.token_id snapshot.condition_id book.token_id book.condition_id)) [
          | inl foreign ↦ rw foreign refl
          | inr own ↦ rw own (elim (Bool-cases (ltb snapshot.sequence book.last_sequence)) [
            | inl stale ↦ rw stale refl
            | inr fresh ↦ rw fresh (accept_snapshot-token _ snapshot _ _ book)
          ])
        ]

  finish-token :
      (issues : List ValidationIssue) (change : BookLevelChange) (book : OrderBook M)
      → (finish issues change book).1.token_id ≡ book.token_id
  finish-token [] change book = refl
  finish-token (issue ∷ issues) change book = refl

  restate-token :
      (side : Side) (price size : ℕ) (book : OrderBook M)
      → (restate side price size book).token_id ≡ book.token_id
  restate-token buy price size book = refl
  restate-token sell price size book = refl

  moved-token :
      (change : BookLevelChange) (book : OrderBook M) → (moved change book).token_id ≡ book.token_id
  unfolding moved
  moved-token change book = restate-token change.side _ _ book

  checked-token :
      (issues : List ValidationIssue) (change : BookLevelChange) (book : OrderBook M)
      → (checked issues change book).1.token_id ≡ book.token_id
  checked-token [] change book = finish-token _ change (moved change book) ∙ moved-token change book
  checked-token (issue ∷ issues) change book = refl

  pub apply-token :
      (change : BookLevelChange) (book : OrderBook M)
      → (apply change book).1.token_id ≡ book.token_id
  unfolding apply
  apply-token change book =
      elim (Bool-cases
        (is_foreign change.token_id change.condition_id book.token_id book.condition_id)) [
          | inl foreign ↦ rw foreign refl
          | inr own ↦ rw own (elim (Bool-cases (ltb change.sequence book.last_sequence)) [
            | inl stale ↦ rw stale refl
            | inr fresh ↦ rw fresh (checked-token _ change book)
          ])
        ]

  module _ (laws : IsSortedDict M) where
    pub store-IsSound :
        (token : ℕ) (book : OrderBook M) (r : BookReconstructor M)
        → IsBookOf (token, book)
        → IsSound r
        → IsSound (store token book r)
    store-IsSound token book r b s = All-insert IsBookOf token book r.books b s

    abbrev RegisteredOf : ℕ → Result ReconstructorError (OrderBook M) × BookReconstructor M → Type 0
    RegisteredOf token (ok book, r) = IsBookOf (token, book) × IsSound r
    RegisteredOf token (err e, r) = IsSound r

    registered-IsSound :
        (condition token outcome : ℕ) (r : BookReconstructor M) (o : Option (OrderBook M))
        → lookup token r.books ≡ o
        → IsSound r
        → RegisteredOf token (registered condition token outcome r o)
    registered-IsSound condition token outcome r none e s =
        let new : IsBookOf (token, new_book condition token outcome) =
          (refl, new_book-IsWellFormed laws condition token outcome) in
        (new, store-IsSound token (new_book condition token outcome) r new s)
    registered-IsSound condition token outcome r (some book) e s =
        if-either (RegisteredOf token) (is_changed condition outcome book) s
          (All-entry IsBookOf token r.books s e, s)

    after_replace-IsSound :
        (snapshot : BookSnapshot) (u : Result (List ValidationIssue) Bool × OrderBook M)
        (r : BookReconstructor M)
        → IsBookOf (snapshot.token_id, u.1)
        → IsSound r
        → IsSound (after_replace snapshot u r).1
    after_replace-IsSound snapshot (err issues, book) r b s =
        store-IsSound snapshot.token_id book r b s
    after_replace-IsSound snapshot (ok _, book) r b s = store-IsSound snapshot.token_id book r b s

    after_register-IsSound :
        (snapshot : BookSnapshot)
        (u : Result ReconstructorError (OrderBook M) × BookReconstructor M)
        → RegisteredOf snapshot.token_id u
        → IsSound (after_register snapshot u).1
    after_register-IsSound snapshot (err e, r) s = s
    after_register-IsSound snapshot (ok book, r) ((own, w), s) =
        after_replace-IsSound snapshot (replace snapshot book) r
          (replace-token snapshot book ∙ own, replace-IsWellFormed laws snapshot book w) s

    pub apply_snapshot-IsSound :
        (snapshot : BookSnapshot) (r : BookReconstructor M)
        → IsSound r
        → IsSound (apply_snapshot snapshot r).1
    unfolding apply_snapshot register
    apply_snapshot-IsSound snapshot r s =
        let priced = with_tick snapshot r in
        after_register-IsSound (effective snapshot r)
          (register snapshot.condition_id snapshot.token_id snapshot.outcome priced)
          (registered-IsSound snapshot.condition_id snapshot.token_id snapshot.outcome priced
            (lookup snapshot.token_id r.books) refl s)

    retick-IsSound :
        (change : TickSizeChange) (r : BookReconstructor M) (o : Option (OrderBook M))
        → lookup change.token_id r.books ≡ o
        → IsSound r
        → IsSound (retick change r o).1
    retick-IsSound change r none e s = s
    retick-IsSound change r (some book) e s =
        let (own, w) = All-entry IsBookOf change.token_id r.books s e in
        let moved =
          store-IsSound change.token_id _ r
            (own, retick-IsWellFormed change.new_tick_size_scaled book w) s in
        if-either LeavesSound (not (book.condition_id == change.condition_id)) s moved

    pub apply_tick_size_change-IsSound :
        (change : TickSizeChange) (r : BookReconstructor M)
        → IsSound r
        → IsSound (apply_tick_size_change change r).1
    unfolding apply_tick_size_change
    apply_tick_size_change-IsSound change r s =
        if-either LeavesSound (not (ltb_ℤ (pos 0) change.new_tick_size_scaled)) s
          (retick-IsSound change _ (lookup change.token_id r.books) refl s)

    after_apply-IsSound :
        (token : ℕ) (u : Result (List ValidationIssue) (Unit {0}) × OrderBook M)
        (r : BookReconstructor M)
        → IsBookOf (token, u.1)
        → IsSound r
        → IsSound (after_apply token u r).1
    after_apply-IsSound token (err issues, book) r b s = store-IsSound token book r b s
    after_apply-IsSound token (ok _, book) r b s = store-IsSound token book r b s

    change_of-IsSound :
        (change : BookLevelChange) (r : BookReconstructor M) (o : Option (OrderBook M))
        → lookup change.token_id r.books ≡ o
        → IsSound r
        → IsSound (change_of change r o).1
    change_of-IsSound change r none e s = s
    change_of-IsSound change r (some book) e s =
        let (own, w) = All-entry IsBookOf change.token_id r.books s e in
        let applied =
          after_apply-IsSound change.token_id (apply change book) r
            (apply-token change book ∙ own, apply-IsWellFormed laws change book w) s in
        if-either LeavesSound (not book.valid) s applied

    pub apply_change-IsSound :
        (change : BookLevelChange) (r : BookReconstructor M)
        → IsSound r
        → IsSound (apply_change change r).1
    unfolding apply_change
    apply_change-IsSound change r s =
        change_of-IsSound change r (lookup change.token_id r.books) refl s

    pub mark_uncertain-IsSound :
        (token start : ℕ) (first : Option ℕ) (r : BookReconstructor M)
        → IsSound r
        → IsSound (mark_uncertain token start first r)
    unfolding mark_uncertain
    mark_uncertain-IsSound token start first r s = elim (Option-cases (lookup token r.books)) [
      | inl unknown ↦ rw unknown s
      | inr (book, known) ↦
          let (own, w) = All-entry IsBookOf token r.books s known in
          rw known
            (store-IsSound token (invalidated book) r (own, invalidated-IsWellFormed book w) s)
    ]

-- The calls of a reconstructor; one that raises leaves what it leaves.
pub data Call : Type 0 where
  snapshot_call : BookSnapshot → Call
  tick_call : TickSizeChange → Call
  change_call : BookLevelChange → Call
  uncertain_call : ℕ → ℕ → Option ℕ → Call

module _ {M : Type 0} ⦃d : SortedDict M⦄ where
  unfoldable pub call : Call → BookReconstructor M → BookReconstructor M
  call (snapshot_call snapshot) r = (apply_snapshot snapshot r).1
  call (tick_call change) r = (apply_tick_size_change change r).1
  call (change_call change) r = (apply_change change r).1
  call (uncertain_call token start first) r = mark_uncertain token start first r

  unfoldable pub run : List Call → BookReconstructor M → BookReconstructor M
  unfolding call
  run [] r = r
  run (c ∷ cs) r = run cs (call c r)

  module _ (laws : IsSortedDict M) where
    call-IsSound : (c : Call) (r : BookReconstructor M) → IsSound r → IsSound (call c r)
    unfolding call
    call-IsSound (snapshot_call snapshot) r s = apply_snapshot-IsSound laws snapshot r s
    call-IsSound (tick_call change) r s = apply_tick_size_change-IsSound laws change r s
    call-IsSound (change_call change) r s = apply_change-IsSound laws change r s
    call-IsSound (uncertain_call token start first) r s =
        mark_uncertain-IsSound laws token start first r s

    run_from-IsSound : (cs : List Call) (r : BookReconstructor M) → IsSound r → IsSound (run cs r)
    unfolding run
    run_from-IsSound [] r s = s
    run_from-IsSound (c ∷ cs) r s = run_from-IsSound cs (call c r) (call-IsSound c r s)

    -- After any snapshots, changes, tick-size changes and markings of a new reconstructor, raising ones
    -- included: every book is stored under its own token, shows only levels with a price strictly
    -- between 0 and 1 and a positive size, and is not crossed if it is valid.
    pub run-IsSound : (cs : List Call) → IsSound (run cs new_reconstructor)
    run-IsSound cs = run_from-IsSound cs new_reconstructor tt
