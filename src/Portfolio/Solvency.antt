-- ===== src/Portfolio/Solvency.antt =====
-- What the default flags promise: no short position, no negative cost, no negative cash.
use native.Mathlib.Nat.{le_refl, mul-le-mul}
use polymarket_btc_15min_bac.Base.{
  ℕ, zero, suc, ◌+◌, ◌*◌, ◌/◌, ◌≤◌, ◌≡◌, Bool, false, List, [], ◌∷◌, All, inl, inr, Bool-cases,
  arith, Option-cases, if◌then◌else◌, ℤ, pos, negsuc, ◌+ℤ◌, ◌-ℤ◌, ◌*ℤ◌, ◌≤ℤ◌, floor_div, int_laws,
  ltb_ℤ, pos-*ℤ, not, ◌&&◌, ltb-false→le, ◌==◌,
}
use polymarket_btc_15min_bac.Dict.{Dict, lookup, value_or, All-insert, All-set_default, All-lookup}
use polymarket_btc_15min_bac.Models.{Side, buy, sell, SimulatedFill}
use polymarket_btc_15min_bac.Portfolio.{
  Position, Portfolio, new_position, buy_fill, sell_fill, fill_branch, with_default, apply_fill,
  removed_cost, settle_loop, settle_market, skips, token_payout, mark_to_market, is_zero,
  floor_div_ℤ,
}
use polymarket_btc_15min_bac.Portfolio.Identity.{
  Call, fill_call, settle_call, mark_call, apply, run,
}

-- A long position, held at a cost that is not negative.
pub record IsLong (position : Position) : Type 0 where
  pub shares : pos 0 ≤ℤ position.shares_scaled
  pub cost : pos 0 ≤ℤ position.cost_basis_scaled

pub record IsSolvent (p : Portfolio) : Type 0 where
  pub long_only : p.allow_short_positions ≡ false
  pub cash_only : p.allow_negative_cash ≡ false
  pub cash : pos 0 ≤ℤ p.available_cash_scaled
  pub long : All (λ e. IsLong e.1) p.positions

-- Selling part of a position removes a share of its cost, and no more than all of it.
mul-div-le : (cost size n : ℕ) → size ≤ suc n → cost * size / suc n ≤ cost
mul-div-le cost size n h = let m = mul-le-mul (le_refl cost) h in grind arith

removed-le :
    (cost shares : ℤ) (size : ℕ)
    → pos 0 ≤ℤ cost
    → pos 0 ≤ℤ shares
    → pos size ≤ℤ shares
    → (if is_zero shares then pos 0 else floor_div_ℤ (cost *ℤ pos size) shares) ≤ℤ cost
unfolding floor_div
removed-le (pos c) (pos zero) size hc hs h = omega arith
removed-le (pos c) (pos (suc n)) size hc hs h =
    rw (pos-*ℤ c size) (omega (arith, mul-div-le c size n (omega arith)))
removed-le (pos c) (negsuc n) size hc hs h = absurd (omega arith)
removed-le (negsuc c) shares size hc hs h = absurd (omega arith)

removed_cost-le :
    (position : Position) (size : ℕ)
    → IsLong position
    → pos size ≤ℤ position.shares_scaled
    → removed_cost position size ≤ℤ position.cost_basis_scaled
unfolding removed_cost
removed_cost-le position size long h =
    removed-le position.cost_basis_scaled position.shares_scaled size long.cost long.shares h

ltb_ℤ-false→le : (a b : ℤ) → ltb_ℤ a b ≡ false → b ≤ℤ a
ltb_ℤ-false→le a b h = omega (arith, ltb-false→le _ _ h)

-- A sale whose fee is no more than what it brings.
abbrev pub IsCovered : Side → SimulatedFill → Type 0
IsCovered buy fill = Unit
IsCovered sell fill = fill.fee_scaled ≤ fill.notional_scaled

refused : (allowed test : Bool) {b : Bool} → allowed ≡ false → test ≡ b → (not allowed && test) ≡ b
refused allowed test e h = rw e h

fill_branch-IsSolvent :
    (side : Side) (fill : SimulatedFill) (position : Position) (p : Portfolio)
    → IsLong position
    → IsCovered side fill
    → IsSolvent p
    → IsSolvent (fill_branch side fill position p).1
unfolding buy_fill sell_fill
fill_branch-IsSolvent buy fill position p long covered v =
    elim (Bool-cases
      (ltb_ℤ p.available_cash_scaled (pos (fill.notional_scaled + fill.fee_scaled)))) [
        | inl short ↦ rw (refused _ _ v.cash_only short) v
        | inr paid ↦
            let enough : pos (fill.notional_scaled + fill.fee_scaled) ≤ℤ p.available_cash_scaled =
              ltb_ℤ-false→le p.available_cash_scaled (pos (fill.notional_scaled + fill.fee_scaled))
                paid in
            rw (refused _ _ v.cash_only paid) (record {
              long_only = v.long_only;
              cash_only = v.cash_only;
              cash = omega (int_laws, enough);
              long =
                  All-insert _ fill.token_id _ p.positions
                    (record {
                      shares = omega (int_laws, long.shares);
                      cost = omega (int_laws, long.cost);
                    })
                    v.long;
            })
      ]
fill_branch-IsSolvent sell fill position p long covered v =
    elim (Bool-cases (ltb_ℤ position.shares_scaled (pos fill.size_scaled))) [
      | inl short ↦ rw (refused _ _ v.long_only short) v
      | inr held ↦
          let enough : pos fill.size_scaled ≤ℤ position.shares_scaled =
            ltb_ℤ-false→le position.shares_scaled (pos fill.size_scaled) held in
          let removed = removed_cost-le position fill.size_scaled long enough in
          rw (refused _ _ v.long_only held) (record {
            long_only = v.long_only;
            cash_only = v.cash_only;
            cash = omega (int_laws, v.cash);
            long =
                All-insert _ fill.token_id _ p.positions
                  (record { shares = omega int_laws; cost = omega int_laws }) v.long;
          })
    ]

held-IsLong :
    (fill : SimulatedFill) (outcome : ℕ) (p : Portfolio)
    → IsSolvent p
    → IsLong (value_or (lookup fill.token_id p.positions) (new_position fill outcome))
held-IsLong fill outcome p v = elim (Option-cases (lookup fill.token_id p.positions)) [
  | inl new ↦ rw new (omega arith)
  | inr (old, known) ↦ rw known (All-lookup IsLong fill.token_id p.positions v.long known)
]

pub apply_fill-IsSolvent :
    (fill : SimulatedFill) (outcome : ℕ) (p : Portfolio)
    → IsCovered fill.side fill
    → IsSolvent p
    → IsSolvent (apply_fill fill outcome p).1
unfolding apply_fill
apply_fill-IsSolvent fill outcome p covered v =
    fill_branch-IsSolvent fill.side fill _ (with_default fill outcome p)
      (held-IsLong fill outcome p v) covered
      (record {
        long_only = v.long_only;
        cash_only = v.cash_only;
        cash = v.cash;
        long =
            All-set_default _ fill.token_id (new_position fill outcome) p.positions (omega arith)
              v.long;
      })

payout-nonneg :
    (winner token : ℕ) (position : Position) (payout : ℤ)
    → IsLong position
    → pos 0 ≤ℤ payout
    → pos 0 ≤ℤ payout +ℤ token_payout winner token position
payout-nonneg winner token position payout one h = elim (Bool-cases (token == winner)) [
  | inl won ↦ rw won (omega (int_laws, one.shares))
  | inr lost ↦ rw lost (omega int_laws)
]

settle_loop-IsLong :
    (condition winner : ℕ) (d : Dict Position) (payout realized : ℤ)
    → All (λ e. IsLong e.1) d
    → pos 0 ≤ℤ payout
    → let s = settle_loop condition winner d payout realized in
      All (λ e. IsLong e.1) s.positions × (pos 0 ≤ℤ s.payout)
unfolding settle_loop
settle_loop-IsLong condition winner [] payout realized long h = (tt, h)
settle_loop-IsLong condition winner ((token, position) ∷ d) payout realized (one, long) h =
    elim (Bool-cases (skips condition position)) [
      | inl skip ↦
          let ih = settle_loop-IsLong condition winner d payout realized long h in
          rw skip ((one, ih.0), ih.1)
      | inr take ↦
          let paid = token_payout winner token position in
          let ih =
            settle_loop-IsLong condition winner d (payout +ℤ paid)
              (realized +ℤ (paid -ℤ position.cost_basis_scaled)) long
              (payout-nonneg winner token position payout one h) in
          rw take ((omega arith, ih.0), ih.1)
    ]

settle_market-IsSolvent :
    (condition winner t : ℕ) (p : Portfolio)
    → IsSolvent p
    → IsSolvent (settle_market condition winner t p).1
unfolding settle_market
settle_market-IsSolvent condition winner t p v =
    let (long, paid) =
      settle_loop-IsLong condition winner p.positions (pos 0) p.realized_pnl_scaled v.long
        (omega arith) in
    record {
      long_only = v.long_only;
      cash_only = v.cash_only;
      cash = omega (int_laws, v.cash);
      long = long;
    }

abbrev pub IsCoveredCall : Call → Type 0
IsCoveredCall (fill_call fill outcome) = IsCovered fill.side fill
IsCoveredCall _ = Unit

apply-IsSolvent : (c : Call) (p : Portfolio) → IsCoveredCall c → IsSolvent p → IsSolvent (apply c p)
unfolding apply mark_to_market
apply-IsSolvent (fill_call fill outcome) p covered v = apply_fill-IsSolvent fill outcome p covered v
apply-IsSolvent (settle_call condition winner t) p covered v =
    settle_market-IsSolvent condition winner t p v
apply-IsSolvent (mark_call prices) p covered v = record {
  long_only = v.long_only;
  cash_only = v.cash_only;
  cash = v.cash;
  long = v.long;
}

-- With both default flags, and no sale charged more than it brings, nothing that is done to the
-- portfolio, a refused fill included, makes the cash, a position's shares or its cost negative.
pub run-IsSolvent :
    (cs : List Call) (p : Portfolio) → All IsCoveredCall cs → IsSolvent p → IsSolvent (run cs p)
unfolding run
run-IsSolvent [] p h v = v
run-IsSolvent (c ∷ cs) p (h, hs) v = run-IsSolvent cs (apply c p) hs (apply-IsSolvent c p h v)
