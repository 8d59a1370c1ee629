-- ===== src/FastSim/Impact.antt =====
-- What own orders have taken from the book, and when it comes back: `_reconcile_self_impact` of
-- src/polymarket_bt/backtest/fastsim.py.
use polymarket_btc_15min_bac.Base.{
  ℕ, ◌+◌, ◌≡◌, ◌≢◌, refl, Bool, true, false, not, Option, List, [], ◌∷◌, ltb, ◌==◌, if◌then◌else◌,
  keep_if, Bool-cases, inl, inr, arith,
}
use polymarket_btc_15min_bac.Realism.{FillSlice}
use polymarket_btc_15min_bac.FastSim.{
  BookSide, side_none, side_bids, side_asks, kind_snapshot, TapeRow, Consumed, same_side, is_at,
  consumed_at, consume_more, consume_slices, restored, is_after, reconcile_self_impact,
}

-- A second reading of the same row changes nothing: depth that an order took after it is not given back.
pub reconcile-idempotent :
    (token through : ℕ) (rows rows' : List (ℕ × TapeRow)) (consumed : List Consumed)
    (cursor : Option ℕ) (taken : List Consumed)
    → let once = reconcile_self_impact token through rows (consumed, cursor) in
      (is_after once.1 through ≡ false)
      × (reconcile_self_impact token through rows' (taken, once.1) ≡ (taken, once.1))
unfolding reconcile_self_impact
reconcile-idempotent token through rows rows' consumed cursor taken =
    elim (Bool-cases (is_after cursor through)) [
      | inl later ↦
          let again : ltb through through ≡ false = ground arith in rw later (again, rw again refl)
      | inr read ↦ rw read (read, rw read refl)
    ]

-- After a snapshot nothing of its token counts as taken, and another token's record is untouched.
pub restored-snapshot :
    (token other : ℕ) (side : BookSide) (price : ℕ) (row : TapeRow) (consumed : List Consumed)
    → row.event_kind ≡ kind_snapshot
    → (consumed_at token side price (restored token row consumed) ≡ 0)
      × (other ≢ token
          → consumed_at other side price (restored token row consumed)
            ≡ consumed_at other side price consumed)
unfolding consumed_at
restored-snapshot token other side price row consumed snapshot =
    rw snapshot (own consumed, λ h. others h consumed)
  where
    kept : List Consumed → List Consumed
    kept = keep_if λ entry. not (entry.token_index == token)

    own : (l : List Consumed) → consumed_at token side price (kept l) ≡ 0
    own [] = refl
    own (entry ∷ l) = elim (Bool-cases (entry.token_index == token)) [
      | inl same ↦ rw same (own l)
      | inr differs ↦ rw differs (rw differs (own l))
    ]

    others :
        other ≢ token
        → (l : List Consumed)
        → consumed_at other side price (kept l) ≡ consumed_at other side price l
    others h [] = refl
    others h (entry ∷ l) =
        let ih = others h l in
        elim (Bool-cases (entry.token_index == token)) [
          | inl same ↦
              let elsewhere : (entry.token_index == other) ≡ false = ground (arith, same, h) in
              rw same (rw elsewhere ih)
          | inr differs ↦ rw differs (rw ih refl)
        ]

same_side_refl : (side : BookSide) → same_side side side ≡ true
same_side_refl side_none = refl
same_side_refl side_bids = refl
same_side_refl side_asks = refl

-- Two keys of one token and side.
same_key :
    (token : ℕ) (side : BookSide) (price price' : ℕ) (entry : Consumed)
    → is_at token side price' entry ≡ true
    → is_at token side price entry ≡ (price == price')
same_key token side price price' entry h = ground arith

new_key :
    (token : ℕ) (side : BookSide) (price price' size : ℕ)
    → is_at token side price
        (record { token_index = token; side = side; price_scaled = price'; size_scaled = size })
      ≡ (price == price')
new_key token side price price' size = rw (same_side_refl side) (ground arith)

other_key :
    (token : ℕ) (side : BookSide) (price price' : ℕ) (entry : Consumed)
    → is_at token side price entry ≡ true
    → is_at token side price' entry ≡ false
    → (price == price') ≡ false
other_key token side price price' entry h k = ground arith

abbrev if_here : Bool → ℕ → ℕ
if_here here size = if here then size else 0

consume_more-at :
    (token : ℕ) (side : BookSide) (price price' size : ℕ) (l : List Consumed)
    → consumed_at token side price (consume_more token side price' size l)
      ≡ consumed_at token side price l + if_here (price == price') size
unfolding consume_more consumed_at
consume_more-at token side price price' size [] =
    rw (new_key token side price price' size) (omega arith)
consume_more-at token side price price' size (entry ∷ l) =
    elim (Bool-cases (is_at token side price' entry)) [
      | inl same ↦
          let key = same_key token side price price' entry same in
          rw same (
            rw key (elim (Bool-cases (price == price')) [
              | inl here ↦ rw here (omega arith)
              | inr there ↦ rw there (omega arith)
            ]))
      | inr differs ↦
          let ih = consume_more-at token side price price' size l in
          rw differs (elim (Bool-cases (is_at token side price entry)) [
            | inl here ↦
                let apart = other_key token side price price' entry here differs in
                rw here (rw apart (omega arith))
            | inr there ↦ rw there ih
          ])
    ]

-- What slices took at a price.
unfoldable pub slices_at : ℕ → List FillSlice → ℕ
slices_at price [] = 0
slices_at price (s ∷ slices) =
    if_here (price == s.price_scaled) s.size_scaled + slices_at price slices

-- What an order's slices take is recorded price by price: at each price of the order's token and side, the
-- record grows by just what the slices took there.
pub consume_slices-at :
    (token : ℕ) (side : BookSide) (price : ℕ) (slices : List FillSlice) (consumed : List Consumed)
    → consumed_at token side price (consume_slices token side slices consumed)
      ≡ consumed_at token side price consumed + slices_at price slices
unfolding consume_slices slices_at
consume_slices-at token side price [] consumed = omega arith
consume_slices-at token side price (s ∷ slices) consumed =
    let next = consume_more token side s.price_scaled s.size_scaled consumed in
    let ih = consume_slices-at token side price slices next in
    let one = consume_more-at token side price s.price_scaled s.size_scaled consumed in
    omega (arith, ih, one)
