-- ===== src/Execution/Settle.antt =====
-- The fills of an order: the check of its resources is enough, and a refusal changes nothing.
use polymarket_btc_15min_bac.Base.{
  ℕ, ◌+◌, ◌≡◌, refl, Bool, true, false, not, ◌&&◌, ◌||◌, Option, none, some, List, [], ◌∷◌, map,
  sum_by, Bool-cases, arith, Result, ok, err, ok-injective, ℤ, pos, ◌≤ℤ◌, ltb_ℤ, inl, inr, is_some,
  if◌then◌else◌, ltb-false→le, ap, ◌∙◌, ◌⊎◌, ◌≢◌,
}
use polymarket_btc_15min_bac.SortedDict.{SortedDict}
use polymarket_btc_15min_bac.Models.{
  Side, buy, sell, OrderIntent, SimulatedFill, OrderResult, rejected, partial, filled, Rejection,
}
use polymarket_btc_15min_bac.Fees.{FeeModel}
use polymarket_btc_15min_bac.OrderBook.{OrderBook, consume}
use polymarket_btc_15min_bac.Portfolio.{Portfolio, PortfolioError, apply_fill, inventory}
use polymarket_btc_15min_bac.Portfolio.Payable.{Affords, apply_fill-payable, drain}
use polymarket_btc_15min_bac.Execution.{
  Planned, Market, fill_of, add_fill, fill_all, required_cash, required_inventory, shortfall,
  execute, planned_for, conclude, concluded, settle_plan, opposite, equals, reaches,
}

-- What a whole plan needs of the account.
abbrev pub needed : FeeModel → Side → List Planned → ℕ
needed fees buy planned = required_cash fees planned
needed fees sell planned = required_inventory planned

if_some-none :
    (test : Bool) (reason : Rejection) → (if test then some reason else none) ≡ none → test ≡ false
if_some-none true reason e = cc
if_some-none false reason e = refl

ltb_ℤ-false→le : (a b : ℤ) → ltb_ℤ a b ≡ false → b ≤ℤ a
ltb_ℤ-false→le a b h = omega (arith, ltb-false→le _ _ h)

no_shortfall :
    (fees : FeeModel) (side : Side) (token : ℕ) (planned : List Planned) (p : Portfolio)
    → shortfall fees side token planned p ≡ none
    → Affords side token (needed fees side planned) p
no_shortfall fees buy token planned p e =
    ltb_ℤ-false→le p.available_cash_scaled (pos (required_cash fees planned)) (if_some-none _ _ e)
no_shortfall fees sell token planned p e =
    ltb_ℤ-false→le (inventory token p) (pos (required_inventory planned)) (if_some-none _ _ e)

needed-cons :
    (fees : FeeModel) (intent : OrderIntent) (sequence arrival : ℕ) (side : Side) (s : Planned)
    (planned : List Planned)
    → needed fees side (s ∷ planned)
      ≡ drain side (fill_of fees intent sequence arrival s) + needed fees side planned
unfolding required_cash required_inventory
needed-cons fees intent sequence arrival buy s planned = refl
needed-cons fees intent sequence arrival sell s planned = refl

status_cases : (full : Bool) → (if full then filled else partial) ≢ rejected
status_cases true e = cc
status_cases false e = cc

conclude-traded :
    (intent : OrderIntent) (fill : SimulatedFill) (fills : List SimulatedFill)
    → (conclude intent (fill ∷ fills)).status ≢ rejected
conclude-traded intent fill fills =
    let size = sum_by (λ (f : SimulatedFill). f.size_scaled) (fill ∷ fills) in
    let notional = sum_by (λ (f : SimulatedFill). f.notional_scaled) (fill ∷ fills) in
    status_cases (
      equals intent.requested_shares_scaled size
      || reaches intent.requested_notional_scaled notional)

-- The fills that a plan makes, in its order.
abbrev pub fills_of : FeeModel → OrderIntent → ℕ → ℕ → List Planned → List SimulatedFill
fills_of fees intent arrival sequence = map (fill_of fees intent sequence arrival)

module _ {M : Type 0} ⦃d : SortedDict M⦄ (fees : FeeModel) (intent : OrderIntent)
    (arrival : ℕ) where
  consume-sequence :
      (side : Side) (price size : ℕ) (book : OrderBook M)
      → (consume side price size book).last_sequence ≡ book.last_sequence
  unfolding consume
  consume-sequence buy price size book = refl
  consume-sequence sell price size book = refl

  -- With the resources for the plan, every slice is filled.
  fill_all-accepted :
      (planned : List Planned) (m : Market M)
      → Affords intent.side intent.token_id (needed fees intent.side planned) m.portfolio
      → (fill_all fees intent arrival planned m).0
        ≡ ok (fills_of fees intent arrival m.book.last_sequence planned)
  unfolding fill_all
  fill_all-accepted [] m h = refl
  fill_all-accepted (s ∷ planned) m h =
      let fill = fill_of fees intent m.book.last_sequence arrival s in
      let total = needed-cons fees intent m.book.last_sequence arrival intent.side s planned in
      let (paid, left) =
        apply_fill-payable fill intent.outcome m.portfolio (needed fees intent.side planned)
          (rw total at h) in
      let next : Market M = record {
        book = consume (opposite intent.side) s.price s.size m.book;
        portfolio = (apply_fill fill intent.outcome m.portfolio).1;
      } in
      let ih = fill_all-accepted planned next left in
      let same = consume-sequence (opposite intent.side) s.price s.size m.book in
      rw (paid, fill_all)
        (ap (add_fill fill) (
          ih
          ∙ ap {B = Result PortfolioError (List SimulatedFill)}
              (λ n. ok (fills_of fees intent arrival n planned)) same))

  -- How an order can end: refused, with the book and the account untouched, or filled by its whole plan.
  -- An order never ends with an exception.
  abbrev pub Executed : Market M → Result PortfolioError OrderResult × Market M → Type 0
  Executed m (ok r, m') =
      ((r.status ≡ rejected) × (r.fills ≡ []) × (m' ≡ m))
      ⊎ ((r.status ≢ rejected)
          × (r.fills
              ≡ fills_of fees intent arrival m.book.last_sequence
                  (planned_for fees intent arrival m)))
  Executed m (err e, m') = ⊥

  concluded-Executed :
      (planned : List Planned) (m : Market M)
      (r : Result PortfolioError (List SimulatedFill) × Market M)
      → planned ≡ planned_for fees intent arrival m
      → r ≡ fill_all fees intent arrival planned m
      → r.0 ≡ ok (fills_of fees intent arrival m.book.last_sequence planned)
      → Executed m (concluded fees intent arrival r)
  unfolding fill_all
  concluded-Executed [] m r p e h = rw e (inl (refl, refl, refl))
  concluded-Executed (s ∷ planned) m (ok [], m') p e h = cc
  concluded-Executed (s ∷ planned) m (ok (fill ∷ fills), m') p e h = inr (
    conclude-traded intent fill fills,
    ok-injective h ∙ ap (fills_of fees intent arrival m.book.last_sequence) p,
  )
  concluded-Executed (s ∷ planned) m (err x, m') p e h = cc

  settle_plan-Executed :
      (reason : Option Rejection) (m : Market M)
      → shortfall fees intent.side intent.token_id (planned_for fees intent arrival m) m.portfolio
        ≡ reason
      → Executed m (settle_plan fees intent arrival reason (planned_for fees intent arrival m) m)
  settle_plan-Executed (some reason) m e = inl (refl, refl, refl)
  settle_plan-Executed none m e =
      let planned = planned_for fees intent arrival m in
      concluded-Executed planned m (fill_all fees intent arrival planned m) refl refl (
        fill_all-accepted planned m
          (no_shortfall fees intent.side intent.token_id planned m.portfolio e))

  -- An order is all or nothing on its plan and never raises: it is refused and neither the book nor the
  -- account changes, or every slice of its plan is filled, since the check of cash or of shares that
  -- comes first is enough for all of them.
  pub execute-Executed : (m : Market M) → Executed m (execute fees intent arrival m)
  unfolding execute
  execute-Executed m = elim (Bool-cases (not m.book.valid)) [
    | inl invalid ↦ rw invalid (inl (refl, refl, refl))
    | inr valid ↦
        rw valid
          (elim (Bool-cases (
            not (is_some intent.requested_shares_scaled)
            && not (is_some intent.requested_notional_scaled))) [
              | inl sizeless ↦ rw sizeless (inl (refl, refl, refl))
              | inr sized ↦ rw sized (settle_plan-Executed _ m refl)
            ])
  ]
