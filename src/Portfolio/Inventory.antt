-- ===== src/Portfolio/Inventory.antt =====
-- What fills and settlements do to the shares that each token holds.
use polymarket_btc_15min_bac.Base.{
  ℕ, ◌+◌, ◌≡◌, ◌≢◌, ◌∙◌, refl, Bool, true, [], ◌∷◌, All, inl, inr, Bool-cases, arith, Option-cases,
  if◌then◌else◌, Result, ok, err, ℤ, pos, ◌+ℤ◌, ◌-ℤ◌, int_laws, ltb_ℤ, not, ◌&&◌, some, ◌==◌,
  ==_iff, ap,
}
use polymarket_btc_15min_bac.Dict.{
  Dict, lookup, value_or, lookup_assigned, lookup_other, lookup-set_default, lookup-set_default_ne,
}
use polymarket_btc_15min_bac.Models.{Side, buy, sell, SimulatedFill}
use polymarket_btc_15min_bac.Portfolio.{
  Position, Portfolio, PortfolioError, new_position, buy_fill, sell_fill, fill_branch, with_default,
  apply_fill, settle_loop, settle_market, skips, inventory, shares_of,
}

-- The shares that a fill adds.
abbrev pub signed_size : Side → SimulatedFill → ℤ
signed_size buy fill = pos fill.size_scaled
signed_size sell fill = pos 0 -ℤ pos fill.size_scaled

abbrev pub accepted : Result PortfolioError (Unit {0}) → ℤ → ℤ
accepted (ok _) n = n
accepted (err _) n = pos 0

plus_zero : (a : ℤ) → a ≡ a +ℤ pos 0
plus_zero a = omega int_laws

plus_neg : (a b : ℤ) → a -ℤ b ≡ a +ℤ (pos 0 -ℤ b)
plus_neg a b = omega int_laws

-- The guards of the two branches.
abbrev buy_test : SimulatedFill → Portfolio → Bool
buy_test fill p =
    not p.allow_negative_cash
    && ltb_ℤ p.available_cash_scaled (pos (fill.notional_scaled + fill.fee_scaled))

abbrev sell_test : SimulatedFill → Position → Portfolio → Bool
sell_test fill position p =
    not p.allow_short_positions && ltb_ℤ position.shares_scaled (pos fill.size_scaled)

pub fill_branch-inventory :
    (side : Side) (fill : SimulatedFill) (position : Position) (p : Portfolio)
    → lookup fill.token_id p.positions ≡ some position
    → let (r, p') = fill_branch side fill position p in
      inventory fill.token_id p' ≡ position.shares_scaled +ℤ accepted r (signed_size side fill)
unfolding buy_fill sell_fill inventory
fill_branch-inventory buy fill position p e = elim (Bool-cases (buy_test fill p)) [
  | inl short ↦ rw short (ap shares_of e ∙ plus_zero _)
  | inr covered ↦ rw covered (ap shares_of (lookup_assigned fill.token_id _ p.positions))
]
fill_branch-inventory sell fill position p e = elim (Bool-cases (sell_test fill position p)) [
  | inl short ↦ rw short (ap shares_of e ∙ plus_zero _)
  | inr covered ↦
      rw covered (ap shares_of (lookup_assigned fill.token_id _ p.positions) ∙ plus_neg _ _)
]

fill_branch-others :
    (side : Side) (fill : SimulatedFill) (position : Position) (p : Portfolio) (token : ℕ)
    → token ≢ fill.token_id
    → inventory token (fill_branch side fill position p).1 ≡ inventory token p
unfolding buy_fill sell_fill inventory
fill_branch-others buy fill position p token ne = elim (Bool-cases (buy_test fill p)) [
  | inl short ↦ rw short refl
  | inr covered ↦ rw covered (ap shares_of (lookup_other token fill.token_id _ p.positions ne))
]
fill_branch-others sell fill position p token ne = elim (Bool-cases (sell_test fill position p)) [
  | inl short ↦ rw short refl
  | inr covered ↦ rw covered (ap shares_of (lookup_other token fill.token_id _ p.positions ne))
]

pub held-inventory :
    (fill : SimulatedFill) (outcome : ℕ) (p : Portfolio)
    → (value_or (lookup fill.token_id p.positions) (new_position fill outcome)).shares_scaled
      ≡ inventory fill.token_id p
unfolding inventory
held-inventory fill outcome p = elim (Option-cases (lookup fill.token_id p.positions)) [
  | inl new ↦ rw new refl
  | inr (old, known) ↦ rw known refl
]

default-others :
    (fill : SimulatedFill) (outcome : ℕ) (p : Portfolio) (token : ℕ)
    → token ≢ fill.token_id
    → inventory token (with_default fill outcome p) ≡ inventory token p
unfolding inventory
default-others fill outcome p token ne =
    ap shares_of
      (lookup-set_default_ne token fill.token_id (new_position fill outcome) p.positions ne)

-- A fill moves its own token's shares by its size, up for a BUY and down for a SELL, if it is
-- accepted, and by nothing if it is refused; no other token's shares change.
pub apply_fill-inventory :
    (fill : SimulatedFill) (outcome : ℕ) (p : Portfolio) (token : ℕ)
    → let (r, p') = apply_fill fill outcome p in
      inventory token p'
      ≡ inventory token p
        +ℤ (if token == fill.token_id then accepted r (signed_size fill.side fill) else pos 0)
unfolding apply_fill
apply_fill-inventory fill outcome p token =
    let start = with_default fill outcome p in
    let held = value_or (lookup fill.token_id p.positions) (new_position fill outcome) in
    elim (Bool-cases (token == fill.token_id)) [
      | inl same ↦
          rw (same, (==_iff token fill.token_id).0 same)
            (fill_branch-inventory fill.side fill held start
                (lookup-set_default fill.token_id (new_position fill outcome) p.positions)
              ∙ ap
                  (λ (n : ℤ).
                    n
                    +ℤ accepted (fill_branch fill.side fill held start).0
                        (signed_size fill.side fill))
                  (held-inventory fill outcome p))
      | inr other ↦
          let ne : token ≢ fill.token_id = ground arith in
          rw other (
            fill_branch-others fill.side fill held start token ne
            ∙ default-others fill outcome p token ne
            ∙ plus_zero _)
    ]

-- What a settled position still holds.
abbrev pub IsSettled : ℕ → Dict Position → Type 0
IsSettled condition = All λ e. skips condition e.1 ≡ true

closed :
    (condition : ℕ) (position : Position)
    → skips condition (record position { shares_scaled = pos 0; cost_basis_scaled = pos 0 }) ≡ true
closed condition position = ground arith

settle_loop-IsSettled :
    (condition winner : ℕ) (d : Dict Position) (payout realized : ℤ)
    → IsSettled condition (settle_loop condition winner d payout realized).positions
unfolding settle_loop
settle_loop-IsSettled condition winner [] payout realized = tt
settle_loop-IsSettled condition winner ((token, position) ∷ d) payout realized =
    elim (Bool-cases (skips condition position)) [
      | inl skip ↦ rw skip (skip, settle_loop-IsSettled condition winner d payout realized)
      | inr take ↦ rw take (closed condition position, settle_loop-IsSettled condition winner d _ _)
    ]

settle_loop-settled :
    (condition winner : ℕ) (d : Dict Position) (payout realized : ℤ)
    → IsSettled condition d
    → settle_loop condition winner d payout realized
      ≡ record { positions = d; payout = payout; realized = realized }
unfolding settle_loop
settle_loop-settled condition winner [] payout realized h = refl
settle_loop-settled condition winner ((token, position) ∷ d) payout realized (h, hs) =
    rw (h, settle_loop-settled condition winner d payout realized hs) refl

-- A market is paid once: a second settlement, whatever winner it names, pays nothing and changes
-- neither the cash, the realized result nor any position.
pub settle_market-once :
    (condition winner other t u : ℕ) (p : Portfolio)
    → let (_, once) = settle_market condition winner t p in
      let (payout, twice) = settle_market condition other u once in
      (payout ≡ pos 0)
      × (twice.available_cash_scaled ≡ once.available_cash_scaled)
      × (twice.realized_pnl_scaled ≡ once.realized_pnl_scaled)
      × (twice.positions ≡ once.positions)
unfolding settle_market
settle_market-once condition winner other t u p =
    let done = settle_loop condition winner p.positions (pos 0) p.realized_pnl_scaled in
    let again =
      settle_loop-settled condition other done.positions (pos 0) done.realized
        (settle_loop-IsSettled condition winner p.positions (pos 0) p.realized_pnl_scaled) in
    rw again (refl, omega int_laws, refl, refl)
