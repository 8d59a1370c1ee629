-- ===== src/OrderBook/Behaviour.antt =====
-- What a snapshot or a change does to a book on each of its outcomes.
use native.Mathlib.Nat.{le_refl}
use polymarket_btc_15min_bac.Base.{
  ℕ, ◌≤◌, ◌≡◌, refl, Bool, true, false, inl, inr, List, [], ◌∷◌, ltb, Result, ok, err, Bool-cases,
  arith, ltb-false→le, ltb→lt, ◌<◌, ◌≢◌, ◌⊎◌, sym, subst,
}
use polymarket_btc_15min_bac.SortedDict.{SortedDict}
use polymarket_btc_15min_bac.Models.{Side, buy, sell}
use polymarket_btc_15min_bac.OrderBook.{
  ValidationIssue, BookSnapshot, BookLevelChange, OrderBook, loaded, accept_snapshot, replace,
  is_foreign, apply, checked, finish, moved, top_issues, consume, restate,
}
use polymarket_btc_15min_bac.OrderBook.Invariant.{
  Call, replace_call, change_call, consume_call, call, run,
}

cons≢nil {ℓ} : {A : Type ℓ} {x : A} {xs : List A} → x ∷ xs ≢ []
cons≢nil e = cc

module _ {M : Type 0} ⦃d : SortedDict M⦄ where
  -- What a refused call keeps: the levels and the record of the feed. Only `valid` may fall.
  pub record IsKept (before after : OrderBook M) : Type 0 where
    pub bids : after.bids ≡ before.bids
    pub asks : after.asks ≡ before.asks
    pub last_sequence : after.last_sequence ≡ before.last_sequence
    pub source_hash : after.source_hash ≡ before.source_hash
    pub tick : after.tick_size_scaled ≡ before.tick_size_scaled

  -- The snapshot is of the book's own token and market.
  abbrev pub IsOwn : BookSnapshot → OrderBook M → Type 0
  IsOwn snapshot book =
      (snapshot.token_id ≡ book.token_id) × (snapshot.condition_id ≡ book.condition_id)

  -- The book is the snapshot's, for the same token: its levels and what it says of itself, with no
  -- simulated fill left and the book valid.
  pub record IsLoaded (snapshot : BookSnapshot) (before after : OrderBook M) : Type 0 where
    pub token : after.token_id ≡ before.token_id
    pub condition : after.condition_id ≡ before.condition_id
    pub bids : after.bids ≡ (loaded {M = M} snapshot).0
    pub asks : after.asks ≡ (loaded {M = M} snapshot).1
    pub consumed_bids : after.consumed_bids ≡ []
    pub consumed_asks : after.consumed_asks ≡ []
    pub tick : after.tick_size_scaled ≡ snapshot.tick_size_scaled
    pub minimum : after.minimum_order_size_scaled ≡ snapshot.minimum_order_size_scaled
    pub last_sequence : after.last_sequence ≡ snapshot.sequence
    pub received : after.last_received_utc_ns ≡ snapshot.received_utc_ns
    pub source_hash : after.source_hash ≡ snapshot.book_hash
    pub valid : after.valid ≡ true

  -- Why a snapshot is refused: it is of another token or market, and then the book stays as valid as
  -- it was; or it is not older, its levels have issues, which are raised, and the book is invalid.
  abbrev pub IsRefusal : BookSnapshot → OrderBook M → List ValidationIssue → OrderBook M → Type 0
  IsRefusal snapshot before issues after =
      ((¬ IsOwn snapshot before) × (after.valid ≡ before.valid))
      ⊎ (IsOwn snapshot before
          × (before.last_sequence ≤ snapshot.sequence)
          × ((loaded {M = M} snapshot).2 ≢ [])
          × (issues ≢ [])
          × (after.valid ≡ false))

  -- What a snapshot leaves, by how `replace` ended.
  abbrev pub ReplaceOutcome :
      BookSnapshot → OrderBook M → Result (List ValidationIssue) Bool × OrderBook M → Type 0
  ReplaceOutcome snapshot before (ok true, after) =
      IsOwn snapshot before
      × (before.last_sequence ≤ snapshot.sequence)
      × ((loaded {M = M} snapshot).2 ≡ [])
      × IsLoaded snapshot before after
  ReplaceOutcome snapshot before (ok false, after) =
      IsOwn snapshot before × (snapshot.sequence < before.last_sequence) × (after ≡ before)
  ReplaceOutcome snapshot before (err issues, after) =
      IsKept before after × IsRefusal snapshot before issues after

  accept_snapshot-outcome :
      (issues : List ValidationIssue) (snapshot : BookSnapshot) (book : OrderBook M)
      → IsOwn snapshot book
      → book.last_sequence ≤ snapshot.sequence
      → (loaded {M = M} snapshot).2 ≡ issues
      → ReplaceOutcome snapshot book
          (accept_snapshot issues snapshot (loaded snapshot).0 (loaded snapshot).1 book)
  accept_snapshot-outcome [] snapshot book own fresh e = (
    own,
    fresh,
    e,
    record {
      token = refl;
      condition = refl;
      bids = refl;
      asks = refl;
      consumed_bids = refl;
      consumed_asks = refl;
      tick = refl;
      minimum = refl;
      last_sequence = refl;
      received = refl;
      source_hash = refl;
      valid = refl;
    },
  )
  accept_snapshot-outcome (issue ∷ issues) snapshot book own fresh e = (
    record { bids = refl; asks = refl; last_sequence = refl; source_hash = refl; tick = refl },
    inr (own, fresh, subst (λ l. l ≢ []) (sym e) cons≢nil, cons≢nil, refl),
  )

  is_foreign-IsOwn :
      (snapshot : BookSnapshot) (book : OrderBook M)
      → is_foreign snapshot.token_id snapshot.condition_id book.token_id book.condition_id ≡ false
      → IsOwn snapshot book
  is_foreign-IsOwn snapshot book e = ground arith

  is_foreign-IsOther :
      (snapshot : BookSnapshot) (book : OrderBook M)
      → is_foreign snapshot.token_id snapshot.condition_id book.token_id book.condition_id ≡ true
      → ¬ IsOwn snapshot book
  is_foreign-IsOther snapshot book e own = ground (arith, own.0, own.1)

  -- A snapshot is all or nothing: of the book's own token, not older than the book and without an
  -- issue, it is applied whole, and what was there before, simulated fills included, is gone; of the
  -- own token and strictly older, it is ignored and nothing changes; of another token or market, or
  -- not older and with issues, it is refused, and every level stays as it was. The last invalidates
  -- the book, a foreign snapshot does not.
  pub replace-atomic :
      (snapshot : BookSnapshot) (book : OrderBook M)
      → ReplaceOutcome snapshot book (replace snapshot book)
  unfolding replace
  replace-atomic snapshot book =
      elim (Bool-cases
        (is_foreign snapshot.token_id snapshot.condition_id book.token_id book.condition_id)) [
          | inl foreign ↦ rw foreign (
            record {
              bids = refl;
              asks = refl;
              last_sequence = refl;
              source_hash = refl;
              tick = refl;
            },
            inl (is_foreign-IsOther snapshot book foreign, refl),
          )
          | inr own ↦ rw own (elim (Bool-cases (ltb snapshot.sequence book.last_sequence)) [
            | inl stale ↦ rw stale (
              is_foreign-IsOwn snapshot book own,
              ltb→lt snapshot.sequence book.last_sequence stale,
              refl,
            )
            | inr fresh ↦ rw fresh (
                accept_snapshot-outcome (loaded {M = M} snapshot).2 snapshot book
                  (is_foreign-IsOwn snapshot book own)
                  (ltb-false→le snapshot.sequence book.last_sequence fresh) refl)
          ])
        ]

  finish-sequence :
      (issues : List ValidationIssue) (change : BookLevelChange) (book : OrderBook M)
      → book.last_sequence ≤ change.sequence
      → book.last_sequence ≤ (finish issues change book).1.last_sequence
  finish-sequence [] change book h = h
  finish-sequence (issue ∷ issues) change book h = le_refl _

  restate-sequence :
      (side : Side) (price size : ℕ) (book : OrderBook M)
      → (restate side price size book).last_sequence ≡ book.last_sequence
  restate-sequence buy price size book = refl
  restate-sequence sell price size book = refl

  moved-sequence :
      (change : BookLevelChange) (book : OrderBook M)
      → (moved change book).last_sequence ≡ book.last_sequence
  unfolding moved
  moved-sequence change book = restate-sequence change.side _ _ book

  checked-sequence :
      (issues : List ValidationIssue) (change : BookLevelChange) (book : OrderBook M)
      → book.last_sequence ≤ change.sequence
      → book.last_sequence ≤ (checked issues change book).1.last_sequence
  checked-sequence [] change book h =
      let same = moved-sequence change book in
      let later =
        finish-sequence (top_issues change (moved change book)) change (moved change book)
          (rw same h) in
      omega (arith, same, later)
  checked-sequence (issue ∷ issues) change book h = le_refl _

  apply-sequence :
      (change : BookLevelChange) (book : OrderBook M)
      → book.last_sequence ≤ (apply change book).1.last_sequence
  unfolding apply
  apply-sequence change book =
      elim (Bool-cases
        (is_foreign change.token_id change.condition_id book.token_id book.condition_id)) [
          | inl foreign ↦ rw foreign (le_refl _)
          | inr own ↦ rw own (elim (Bool-cases (ltb change.sequence book.last_sequence)) [
            | inl stale ↦ rw stale (le_refl _)
            | inr fresh ↦ rw fresh (
                checked-sequence _ change book
                  (ltb-false→le change.sequence book.last_sequence fresh))
          ])
        ]

  outcome-sequence :
      (snapshot : BookSnapshot) (book : OrderBook M)
      (r : Result (List ValidationIssue) Bool × OrderBook M)
      → ReplaceOutcome snapshot book r
      → book.last_sequence ≤ r.1.last_sequence
  outcome-sequence snapshot book (ok true, after) (own, fresh, clean, whole) =
      rw whole.last_sequence fresh
  outcome-sequence snapshot book (ok false, after) (own, older, e) = rw e (le_refl _)
  outcome-sequence snapshot book (err issues, after) (kept, why) = omega (arith, kept.last_sequence)

  call-sequence : (c : Call) (book : OrderBook M) → book.last_sequence ≤ (call c book).last_sequence
  unfolding call consume
  call-sequence (replace_call snapshot) book =
      outcome-sequence snapshot book _ (replace-atomic snapshot book)
  call-sequence (change_call change) book = apply-sequence change book
  call-sequence (consume_call buy price size) book = le_refl _
  call-sequence (consume_call sell price size) book = le_refl _

  -- No snapshot or change, however late it arrives, takes a book back to an earlier sequence number.
  pub run-sequence :
      (cs : List Call) (book : OrderBook M) → book.last_sequence ≤ (run cs book).last_sequence
  unfolding run
  run-sequence [] book = le_refl _
  run-sequence (c ∷ cs) book = omega (arith, call-sequence c book, run-sequence cs (call c book))
