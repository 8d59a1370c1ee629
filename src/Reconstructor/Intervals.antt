-- ===== src/Reconstructor/Intervals.antt =====
-- The times in which a token's book is not to be trusted, by src/polymarket_bt/orderbook/reconstructor.py:
-- when its book may be used, and how its intervals open and close.
use polymarket_btc_15min_bac.Base.{
  ℕ, ◌+◌, ◌-◌, ◌≡◌, ◌≢◌, ◌⊎◌, ◌∙◌, sym, ap, refl, Bool, true, false, not, ◌||◌, Option, none, some,
  List, [], ◌∷◌, ◌==◌, ==_iff, inl, inr, Bool-cases, Option-cases, All, Result, ok, err, pos, ltb_ℤ,
  ltb, if◌then◌else◌, if-either, arith, ◌<◌,
}
use polymarket_btc_15min_bac.Dict.{lookup, lookup-insert, lookup_assigned}
use polymarket_btc_15min_bac.SortedDict.{SortedDict}
use polymarket_btc_15min_bac.OrderBook.{
  OrderBook, BookSnapshot, BookLevelChange, ValidationIssue, replace, apply, is_foreign,
}
use polymarket_btc_15min_bac.Reconstructor.Invariant.{
  Call, snapshot_call, tick_call, change_call, uncertain_call, call, run,
}
use polymarket_btc_15min_bac.Reconstructor.{
  BookReconstructor, UncertaintyInterval, TickSizeChange, ReconstructorError, no_valid_snapshot,
  register, is_changed, store, apply_snapshot, after_register, after_replace, effective, with_tick,
  apply_tick_size_change, retick, registered, apply_change, change_of, after_apply, mark_uncertain,
  invalidated, valid, any_open, is_open_for, close_last, closed_by,
}

-- How many intervals of a token are open.
unfoldable pub open_count : ℕ → List UncertaintyInterval → ℕ
open_count token [] = 0
open_count token (interval ∷ later) =
    (if is_open_for token interval then 1 else 0) + open_count token later

any_open-count :
    (token : ℕ) (l : List UncertaintyInterval)
    → ((any_open token l ≡ true) × (0 < open_count token l))
      ⊎ ((any_open token l ≡ false) × (open_count token l ≡ 0))
unfolding open_count
any_open-count token [] = inr (refl, refl)
any_open-count token (interval ∷ later) = let ih = any_open-count token later in ground (arith, ih)

closed_by-count :
    (token : ℕ) (snapshot : BookSnapshot) (interval : UncertaintyInterval)
    → is_open_for token (closed_by snapshot interval) ≡ false
closed_by-count token snapshot interval = ground arith

close_last-own :
    (snapshot : BookSnapshot) (l : List UncertaintyInterval)
    → open_count snapshot.token_id (close_last snapshot l) ≡ open_count snapshot.token_id l - 1
unfolding open_count close_last
close_last-own snapshot [] = refl
close_last-own snapshot (interval ∷ later) =
    let token = snapshot.token_id in
    let ih = close_last-own snapshot later in
    let counted = any_open-count token later in
    let shut = closed_by-count token snapshot interval in
    elim counted [
      | inl (opened, positive) ↦ rw opened (omega (arith, ih, positive))
      | inr (none_open, zero_count) ↦ rw none_open (elim (Bool-cases (is_open_for token interval)) [
        | inl here ↦ rw here (rw shut (omega (arith, zero_count)))
        | inr not_here ↦ rw not_here (rw not_here (omega (arith, zero_count)))
      ])
    ]

close_last-other :
    (token : ℕ) (snapshot : BookSnapshot) (l : List UncertaintyInterval)
    → token ≢ snapshot.token_id
    → open_count token (close_last snapshot l) ≡ open_count token l
unfolding open_count close_last
close_last-other token snapshot [] h = refl
close_last-other token snapshot (interval ∷ later) h =
    let ih = close_last-other token snapshot later h in
    let shut = closed_by-count token snapshot interval in
    elim (Bool-cases (any_open snapshot.token_id later)) [
      | inl opened ↦ rw (opened, ih) refl
      | inr none_open ↦ rw none_open (elim (Bool-cases (is_open_for snapshot.token_id interval)) [
        | inl here ↦
            let elsewhere : is_open_for token interval ≡ false = ground (arith, here, h) in
            rw here (rw (shut, elsewhere) refl)
        | inr not_here ↦ rw not_here refl
      ])
    ]

-- Closing for a snapshot takes one open interval from the snapshot's token, if it has one, and none from
-- another token.
pub close_last-count :
    (token : ℕ) (snapshot : BookSnapshot) (l : List UncertaintyInterval)
    → (open_count snapshot.token_id (close_last snapshot l) ≡ open_count snapshot.token_id l - 1)
      × (token ≢ snapshot.token_id → open_count token (close_last snapshot l) ≡ open_count token l)
close_last-count token snapshot l = (close_last-own snapshot l, close_last-other token snapshot l)

own_book : (a b : ℕ) → a ≡ b → (not (a == b)) ≡ false
own_book a b e = ground arith

own_market : (a b x y : ℕ) → a ≡ b → x ≡ y → (not (a == b) || not (x == y)) ≡ false
own_market a b x y e f = rw (own_book a b e, own_book x y f) refl

-- Not a snapshot of the token.
abbrev pub IsNotSnapshotOf : ℕ → Call → Type 0
IsNotSnapshotOf token (snapshot_call snapshot) = token ≢ snapshot.token_id
IsNotSnapshotOf token (tick_call change) = Unit
IsNotSnapshotOf token (change_call change) = Unit
IsNotSnapshotOf token (uncertain_call key start first) = Unit

module _ {M : Type 0} ⦃d : SortedDict M⦄ where
  store-not_valid :
      (token key : ℕ) (book : OrderBook M) (r : BookReconstructor M)
      → valid token r ≡ false
      → (token ≡ key → book.valid ≡ false)
      → valid token (store key book r) ≡ false
  unfolding valid
  store-not_valid token key book r v h =
      rw (lookup-insert token key book r.books) (elim (Bool-cases (token == key)) [
        | inl same ↦ rw same (h ((==_iff token key).0 same))
        | inr other ↦ rw other v
      ])

  -- A book that is found under the token is not valid when the token is not.
  found-not_valid :
      (token : ℕ) (book : OrderBook M) (r : BookReconstructor M)
      → valid token r ≡ false
      → lookup token r.books ≡ some book
      → book.valid ≡ false
  unfolding valid
  found-not_valid token book r v e = rw e at v

  abbrev Stays : ℕ → {A : Type 0} → Result ReconstructorError A × BookReconstructor M → Type 0
  Stays token u = valid token u.1 ≡ false

  after_replace-Stays :
      (token : ℕ) (snapshot : BookSnapshot) (u : Result (List ValidationIssue) Bool × OrderBook M)
      (r : BookReconstructor M)
      → token ≢ snapshot.token_id
      → valid token r ≡ false
      → Stays token (after_replace snapshot u r)
  unfolding valid
  after_replace-Stays token snapshot (err issues, book) r h v =
      store-not_valid token snapshot.token_id book r v λ same. absurd (h same)
  after_replace-Stays token snapshot (ok _, book) r h v =
      store-not_valid token snapshot.token_id book r v λ same. absurd (h same)

  registered-Stays :
      (token condition key outcome : ℕ) (o : Option (OrderBook M)) (r : BookReconstructor M)
      → token ≢ key
      → valid token r ≡ false
      → Stays token (registered condition key outcome r o)
  registered-Stays token condition key outcome none r h v =
      store-not_valid token key _ r v λ same. absurd (h same)
  registered-Stays token condition key outcome (some book) r h v =
      if-either (Stays token) (is_changed condition outcome book) v v

  after_register-Stays :
      (token : ℕ) (snapshot : BookSnapshot)
      (u : Result ReconstructorError (OrderBook M) × BookReconstructor M)
      → token ≢ snapshot.token_id
      → Stays token u
      → Stays token (after_register snapshot u)
  after_register-Stays token snapshot (err e, r) h v = v
  after_register-Stays token snapshot (ok book, r) h v =
      after_replace-Stays token snapshot (replace snapshot book) r h v

  apply_snapshot-Stays :
      (token : ℕ) (snapshot : BookSnapshot) (r : BookReconstructor M)
      → token ≢ snapshot.token_id
      → valid token r ≡ false
      → Stays token (apply_snapshot snapshot r)
  unfolding apply_snapshot register valid
  apply_snapshot-Stays token snapshot r h v =
      let priced = with_tick snapshot r in
      after_register-Stays token (effective snapshot r)
        (register snapshot.condition_id snapshot.token_id snapshot.outcome priced) h
        (registered-Stays token snapshot.condition_id snapshot.token_id snapshot.outcome
          (lookup snapshot.token_id r.books) priced h v)

  retick-Stays :
      (token : ℕ) (change : TickSizeChange) (o : Option (OrderBook M)) (r : BookReconstructor M)
      → lookup change.token_id r.books ≡ o
      → valid token r ≡ false
      → Stays token (retick change r o)
  retick-Stays token change none r e v = v
  retick-Stays token change (some book) r e v =
      let moved =
        store-not_valid token change.token_id _ r v
          λ same. found-not_valid token book r v (ap (λ k. lookup k r.books) same ∙ e) in
      if-either (Stays token) (not (book.condition_id == change.condition_id)) v moved

  apply_tick_size_change-Stays :
      (token : ℕ) (change : TickSizeChange) (r : BookReconstructor M)
      → valid token r ≡ false
      → Stays token (apply_tick_size_change change r)
  unfolding apply_tick_size_change valid
  apply_tick_size_change-Stays token change r v =
      if-either (Stays token) (not (ltb_ℤ (pos 0) change.new_tick_size_scaled)) v
        (retick-Stays token change (lookup change.token_id r.books) _ refl v)

  after_apply-Stays :
      (token key : ℕ) (u : Result (List ValidationIssue) (Unit {0}) × OrderBook M)
      (r : BookReconstructor M)
      → token ≢ key
      → valid token r ≡ false
      → Stays token (after_apply key u r)
  after_apply-Stays token key (err issues, book) r h v =
      store-not_valid token key book r v λ same. absurd (h same)
  after_apply-Stays token key (ok _, book) r h v =
      store-not_valid token key book r v λ same. absurd (h same)

  change_of-Stays :
      (token : ℕ) (change : BookLevelChange) (o : Option (OrderBook M)) (r : BookReconstructor M)
      → lookup change.token_id r.books ≡ o
      → valid token r ≡ false
      → Stays token (change_of change r o)
  change_of-Stays token change none r e v = v
  change_of-Stays token change (some book) r e v = elim (Bool-cases (token == change.token_id)) [
    | inl same ↦
        let found = ap (λ k. lookup k r.books) ((==_iff token change.token_id).0 same) ∙ e in
        rw (found-not_valid token book r v found) v
    | inr other ↦
        let elsewhere : token ≢ change.token_id = ground (arith, other) in
        if-either (Stays token) (not book.valid) v
          (after_apply-Stays token change.token_id (apply change book) r elsewhere v)
  ]

  mark-stays :
      (token key start : ℕ) (first : Option ℕ) (r : BookReconstructor M)
      → valid token r ≡ false
      → valid token (mark_uncertain key start first r) ≡ false
  unfolding mark_uncertain valid
  mark-stays token key start first r v = elim (Option-cases (lookup key r.books)) [
    | inl unknown ↦ rw unknown v
    | inr (book, known) ↦ rw known (store-not_valid token key (invalidated book) r v λ same. refl)
  ]

  mark-not_valid :
      (token start : ℕ) (first : Option ℕ) (r : BookReconstructor M)
      → valid token (mark_uncertain token start first r) ≡ false
  unfolding mark_uncertain valid
  mark-not_valid token start first r = elim (Option-cases (lookup token r.books)) [
    | inl unknown ↦ rw unknown (rw unknown refl)
    | inr (book, known) ↦ rw known (rw (lookup_assigned token (invalidated book) r.books) refl)
  ]

  call-stays :
      (token : ℕ) (c : Call) (r : BookReconstructor M)
      → IsNotSnapshotOf token c
      → valid token r ≡ false
      → valid token (call c r) ≡ false
  unfolding call apply_change
  call-stays token (snapshot_call snapshot) r h v = apply_snapshot-Stays token snapshot r h v
  call-stays token (tick_call change) r h v = apply_tick_size_change-Stays token change r v
  call-stays token (change_call change) r h v =
      change_of-Stays token change (lookup change.token_id r.books) r refl v
  call-stays token (uncertain_call key start first) r h v = mark-stays token key start first r v

  run-stays :
      (token : ℕ) (cs : List Call) (r : BookReconstructor M)
      → All (IsNotSnapshotOf token) cs
      → valid token r ≡ false
      → valid token (run cs r) ≡ false
  unfolding run
  run-stays token [] r _ v = v
  run-stays token (c ∷ cs) r (h, hs) v = run-stays token cs (call c r) hs (call-stays token c r h v)

  -- Once a token is marked uncertain, no changes, tick sizes, markings or snapshots of other tokens make
  -- its book valid again, and its changes raise: only a snapshot of its own can.
  pub uncertain-until-snapshot :
      (token start : ℕ) (first : Option ℕ) (cs : List Call) (change : BookLevelChange)
      (r : BookReconstructor M)
      → All (IsNotSnapshotOf token) cs
      → change.token_id ≡ token
      → let after = run cs (mark_uncertain token start first r) in
        (valid token after ≡ false) × (apply_change change after ≡ (err no_valid_snapshot, after))
  unfolding apply_change valid
  uncertain-until-snapshot token start first cs change r hs own =
      let after = run cs (mark_uncertain token start first r) in
      let v = run-stays token cs _ hs (mark-not_valid token start first r) in
      (
        v,
        rw own (elim (Option-cases (lookup token after.books)) [
          | inl unknown ↦ rw unknown refl
          | inr (book, known) ↦ rw (known, found-not_valid token book after v known) refl
        ]),
      )

  stale-replace :
      (snapshot : BookSnapshot) (book : OrderBook M)
      → is_foreign snapshot.token_id snapshot.condition_id book.token_id book.condition_id ≡ false
      → ltb snapshot.sequence book.last_sequence ≡ true
      → replace snapshot book ≡ (ok false, book)
  unfolding replace
  stale-replace snapshot book own stale = rw (own, stale) refl

  -- A snapshot of a known book that is older than the book leaves the book as it was, invalid if it was
  -- invalid, and yet ends the token's open interval of uncertainty, if it has one.
  pub stale-snapshot-closes :
      (snapshot : BookSnapshot) (book : OrderBook M) (r : BookReconstructor M)
      → lookup snapshot.token_id r.books ≡ some book
      → snapshot.token_id ≡ book.token_id
      → book.condition_id ≡ snapshot.condition_id
      → book.outcome ≡ snapshot.outcome
      → snapshot.sequence < book.last_sequence
      → let token = snapshot.token_id in
        let after = (apply_snapshot snapshot r).1 in
        (lookup token after.books ≡ some book)
        × (open_count token after.uncertainty ≡ open_count token r.uncertainty - 1)
  unfolding apply_snapshot register
  stale-snapshot-closes snapshot book r e own condition outcome older =
      let token = snapshot.token_id in
      let read = effective snapshot r in
      let same : is_changed snapshot.condition_id snapshot.outcome book ≡ false =
        own_market _ _ _ _ condition outcome in
      let stale : ltb snapshot.sequence book.last_sequence ≡ true = ground (arith, older) in
      let ignored : replace read book ≡ (ok false, book) =
        stale-replace read book (own_market _ _ _ _ own (sym condition)) stale in
      rw e (
        rw same
          (rw ignored (lookup_assigned token book r.books, close_last-own read r.uncertainty)))
