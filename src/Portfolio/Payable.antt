-- ===== src/Portfolio/Payable.antt =====
-- Fills that the account can pay for are accepted.
use polymarket_btc_15min_bac.Base.{
  ℕ, ◌+◌, ◌≡◌, refl, Bool, true, false, not, ◌&&◌, arith, Result, ok, err, ℤ, pos, ◌+ℤ◌, ◌-ℤ◌, ◌≤ℤ◌,
  int_laws, parts_of_eq, ltb_ℤ, some, le→ltb-false,
}
use polymarket_btc_15min_bac.Dict.{lookup, value_or, lookup-set_default}
use polymarket_btc_15min_bac.Models.{Side, buy, sell, SimulatedFill}
use polymarket_btc_15min_bac.Portfolio.{
  Position, Portfolio, PortfolioError, new_position, buy_fill, sell_fill, fill_branch, with_default,
  apply_fill, inventory,
}
use polymarket_btc_15min_bac.Portfolio.Inventory.{fill_branch-inventory, held-inventory, accepted}

-- What an account needs for a fill and for `rest` after it: cash, or shares.
abbrev pub Affords : Side → ℕ → ℕ → Portfolio → Type 0
Affords buy token amount p = pos amount ≤ℤ p.available_cash_scaled
Affords sell token amount p = pos amount ≤ℤ inventory token p

abbrev pub drain : Side → SimulatedFill → ℕ
drain buy fill = fill.notional_scaled + fill.fee_scaled
drain sell fill = fill.size_scaled

passes : (allowed : Bool) (have need : ℤ) → need ≤ℤ have → (not allowed && ltb_ℤ have need) ≡ false
passes true have need h = refl
passes false have need h = le→ltb-false _ _ (omega arith)

abbrev HasShares : Side → SimulatedFill → Position → ℕ → Portfolio → Type 0
HasShares buy fill position rest p =
    pos (fill.notional_scaled + fill.fee_scaled + rest) ≤ℤ p.available_cash_scaled
HasShares sell fill position rest p = pos (fill.size_scaled + rest) ≤ℤ position.shares_scaled

sell-accepted :
    (fill : SimulatedFill) (position : Position) (p : Portfolio)
    → pos fill.size_scaled ≤ℤ position.shares_scaled
    → (sell_fill fill position p).0 ≡ ok tt
unfolding sell_fill
sell-accepted fill position p h =
    rw (passes p.allow_short_positions position.shares_scaled (pos fill.size_scaled) h) refl

-- The shares that an accepted sale leaves.
sold-left :
    (r : Result PortfolioError (Unit {0})) (left held : ℤ) (size rest : ℕ)
    → r ≡ ok tt
    → left ≡ held +ℤ accepted r (pos 0 -ℤ pos size)
    → pos (size + rest) ≤ℤ held
    → pos rest ≤ℤ left
sold-left (ok _) left held size rest e same h = omega (int_laws, parts_of_eq same)
sold-left (err _) left held size rest e same h = cc

fill_branch-payable :
    (side : Side) (fill : SimulatedFill) (position : Position) (p : Portfolio) (rest : ℕ)
    → lookup fill.token_id p.positions ≡ some position
    → HasShares side fill position rest p
    → let (r, p') = fill_branch side fill position p in
      (r ≡ ok tt) × Affords side fill.token_id rest p'
unfolding buy_fill
fill_branch-payable buy fill position p rest e h =
    let cost = pos (fill.notional_scaled + fill.fee_scaled) in
    rw (passes p.allow_negative_cash p.available_cash_scaled cost (omega arith))
      (refl, omega int_laws)
fill_branch-payable sell fill position p rest e h =
    let ok_sell = sell-accepted fill position p (omega arith) in
    let left = fill_branch-inventory sell fill position p e in
    (ok_sell, sold-left _ _ position.shares_scaled fill.size_scaled rest ok_sell left h)

Affords-HasShares :
    (side : Side) (fill : SimulatedFill) (outcome : ℕ) (p : Portfolio) (rest : ℕ)
    → Affords side fill.token_id (drain side fill + rest) p
    → HasShares side fill
        (value_or (lookup fill.token_id p.positions) (new_position fill outcome))
        rest
        (with_default fill outcome p)
Affords-HasShares buy fill outcome p rest h = h
Affords-HasShares sell fill outcome p rest h =
    omega (int_laws, parts_of_eq (held-inventory fill outcome p))

-- A fill that the account can pay for, together with `rest` more, is accepted and leaves `rest`: in cash
-- after a BUY, in shares of the token after a SELL.
pub apply_fill-payable :
    (fill : SimulatedFill) (outcome : ℕ) (p : Portfolio) (rest : ℕ)
    → Affords fill.side fill.token_id (drain fill.side fill + rest) p
    → let (r, p') = apply_fill fill outcome p in
      (r ≡ ok tt) × Affords fill.side fill.token_id rest p'
unfolding apply_fill
apply_fill-payable fill outcome p rest h =
    fill_branch-payable fill.side fill _ (with_default fill outcome p) rest
      (lookup-set_default fill.token_id (new_position fill outcome) p.positions)
      (Affords-HasShares fill.side fill outcome p rest h)
