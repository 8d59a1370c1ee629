-- ===== src/Portfolio/Identity.antt =====
-- The accounting identity of the portfolio: what each operation does to cash, cost bases and the
-- realized result taken together.
use polymarket_btc_15min_bac.Base.{
  if◌then◌else◌, ℕ, ◌+◌, ◌≡◌, ◌∙◌, refl, Bool, not, some, List, [], ◌∷◌, inl, inr, Bool-cases,
  Option-cases, Result, ok, err, ℤ, pos, ◌+ℤ◌, ◌-ℤ◌, arith, int_laws, parts_of_eq, ltb_ℤ, ◌&&◌,
  is_some,
}
use polymarket_btc_15min_bac.Dict.{
  Dict, lookup, total, total-insert, total-set_default, lookup-set_default,
}
use polymarket_btc_15min_bac.Models.{Side, buy, sell, SimulatedFill}
use polymarket_btc_15min_bac.Portfolio.{
  Position, Portfolio, PortfolioError, portfolio, new_position, equity_scaled, mark_to_market,
  unrealized_sum, marked_sum, buy_fill, sell_fill, fill_branch, with_default, apply_fill,
  settle_loop, settle_market, skips, token_payout,
}

abbrev pub cost_of : Position → ℤ
cost_of position = position.cost_basis_scaled

-- Cash plus what the open positions cost, less the realized result.
abbrev pub book_value : Portfolio → ℤ
book_value p = p.available_cash_scaled +ℤ total cost_of p.positions -ℤ p.realized_pnl_scaled

-- The fee that a fill takes out of the book value: a BUY's fee is in no cost basis and in no realized
-- result, while a SELL's is part of its realized result.
abbrev pub unbooked_fee : SimulatedFill → Side → ℕ
unbooked_fee fill buy = fill.fee_scaled
unbooked_fee fill sell = 0

-- The book value across a purchase for `n` with the fee `f`, and across a sale for `net`.
bought :
    (cash before after realized cost : ℤ) (n f : ℕ)
    → after +ℤ cost ≡ before +ℤ (cost +ℤ pos n)
    → cash -ℤ pos (n + f) +ℤ after -ℤ realized +ℤ pos f ≡ cash +ℤ before -ℤ realized
bought cash before after realized cost n f h = omega (int_laws, parts_of_eq h)

sold :
    (cash before after realized cost net removed : ℤ)
    → after +ℤ cost ≡ before +ℤ (cost -ℤ removed)
    → cash +ℤ net +ℤ after -ℤ (realized +ℤ (net -ℤ removed)) +ℤ pos 0 ≡ cash +ℤ before -ℤ realized
sold cash before after realized cost net removed h = omega (int_laws, parts_of_eq h)

abbrev SettlesTo : Result PortfolioError (Unit {0}) × Portfolio → ℤ → ℕ → Type 0
SettlesTo (ok _, p) value fee = book_value p +ℤ pos fee ≡ value
SettlesTo (err _, p) value fee = book_value p ≡ value

fill_branch-value :
    (side : Side) (fill : SimulatedFill) (position : Position) (p : Portfolio)
    → lookup fill.token_id p.positions ≡ some position
    → SettlesTo (fill_branch side fill position p) (book_value p) (unbooked_fee fill side)
unfolding buy_fill sell_fill
fill_branch-value buy fill position p e =
    elim (Bool-cases (
      not p.allow_negative_cash
      && ltb_ℤ p.available_cash_scaled (pos (fill.notional_scaled + fill.fee_scaled)))) [
        | inl short ↦ rw short refl
        | inr covered ↦
            rw covered
              (bought _ _ _ _ _ _ _ (total-insert cost_of fill.token_id _ position p.positions e))
      ]
fill_branch-value sell fill position p e =
    elim (Bool-cases
      (not p.allow_short_positions && ltb_ℤ position.shares_scaled (pos fill.size_scaled))) [
        | inl short ↦ rw short refl
        | inr covered ↦
            rw covered
              (sold _ _ _ _ _ _ _ (total-insert cost_of fill.token_id _ position p.positions e))
      ]

book_value-with_default :
    (fill : SimulatedFill) (outcome : ℕ) (p : Portfolio)
    → book_value (with_default fill outcome p) ≡ book_value p
book_value-with_default fill outcome p =
    rw (total-set_default cost_of fill.token_id (new_position fill outcome) p.positions refl) refl

apply_fill-value :
    (fill : SimulatedFill) (outcome : ℕ) (p : Portfolio)
    → SettlesTo (apply_fill fill outcome p) (book_value p) (unbooked_fee fill fill.side)
unfolding apply_fill
apply_fill-value fill outcome p = rw (← book_value-with_default fill outcome p) (
    fill_branch-value fill.side fill _ (with_default fill outcome p)
      (lookup-set_default fill.token_id (new_position fill outcome) p.positions))

-- The loop of a settlement turns shares into payout and cost bases into realized result, so what it
-- pays out, less what it realizes, is the fall of the cost bases.
settle_loop-value :
    (condition winner : ℕ) (d : Dict Position) (payout realized : ℤ)
    → let s = settle_loop condition winner d payout realized in
      s.payout +ℤ total cost_of s.positions +ℤ realized ≡ s.realized +ℤ total cost_of d +ℤ payout
unfolding settle_loop
settle_loop-value condition winner [] payout realized = omega int_laws
settle_loop-value condition winner ((token, position) ∷ d) payout realized =
    elim (Bool-cases (skips condition position)) [
      | inl skip ↦
          let ih = settle_loop-value condition winner d payout realized in
          rw skip (omega (int_laws, parts_of_eq ih))
      | inr take ↦
          let paid = token_payout winner token position in
          let ih =
            settle_loop-value condition winner d (payout +ℤ paid)
              (realized +ℤ (paid -ℤ position.cost_basis_scaled)) in
          rw take (omega (int_laws, parts_of_eq ih))
    ]

settle_market-value :
    (condition winner t : ℕ) (p : Portfolio)
    → book_value (settle_market condition winner t p).1 ≡ book_value p
unfolding settle_market
settle_market-value condition winner t p = omega (
  int_laws,
  parts_of_eq (settle_loop-value condition winner p.positions (pos 0) p.realized_pnl_scaled),
)

pub data Call : Type 0 where
  fill_call : SimulatedFill → ℕ → Call
  settle_call : ℕ → ℕ → ℕ → Call
  mark_call : Dict ℕ → Call

-- The portfolio after a call, whether or not it raised.
unfoldable pub apply : Call → Portfolio → Portfolio
apply (fill_call fill outcome) p = (apply_fill fill outcome p).1
apply (settle_call condition winner t) p = (settle_market condition winner t p).1
apply (mark_call prices) p = (mark_to_market prices p).1

unfoldable pub run : List Call → Portfolio → Portfolio
unfolding apply
run [] p = p
run (c ∷ cs) p = run cs (apply c p)

abbrev pub fee_if_ok : Result PortfolioError (Unit {0}) → ℕ → ℕ
fee_if_ok (ok _) fee = fee
fee_if_ok (err _) fee = 0

-- The fees of the BUY fills that a run accepts.
abbrev pub call_fee : Call → Portfolio → ℕ
call_fee (fill_call fill outcome) p =
    fee_if_ok (apply_fill fill outcome p).0 (unbooked_fee fill fill.side)
call_fee _ p = 0

unfoldable pub buy_fees : List Call → Portfolio → ℕ
buy_fees [] p = 0
buy_fees (c ∷ cs) p = call_fee c p + buy_fees cs (apply c p)

SettlesTo-fee :
    (r : Result PortfolioError (Unit {0}) × Portfolio) (value : ℤ) (fee : ℕ)
    → SettlesTo r value fee
    → book_value r.1 +ℤ pos (fee_if_ok r.0 fee) ≡ value
SettlesTo-fee (ok _, p) value fee h = h
SettlesTo-fee (err _, p) value fee h = omega (int_laws, parts_of_eq h)

apply-value :
    (c : Call) (p : Portfolio) → book_value (apply c p) +ℤ pos (call_fee c p) ≡ book_value p
unfolding apply mark_to_market
apply-value (fill_call fill outcome) p =
    SettlesTo-fee (apply_fill fill outcome p) _ _ (apply_fill-value fill outcome p)
apply-value (settle_call condition winner t) p =
    omega (int_laws, parts_of_eq (settle_market-value condition winner t p))
apply-value (mark_call prices) p = (omega int_laws)

run-value :
    (cs : List Call) (p : Portfolio) → book_value (run cs p) +ℤ pos (buy_fees cs p) ≡ book_value p
unfolding run buy_fees
run-value [] p = omega int_laws
run-value (c ∷ cs) p =
    omega (int_laws, parts_of_eq (apply-value c p), parts_of_eq (run-value cs (apply c p)))

-- After any calls on a new portfolio, refused fills included: the available cash is the starting cash
-- plus the realized result, less the cost of what is still held, less the fees of the accepted BUY
-- fills, which no other figure holds.
pub run-cash :
    (cs : List Call) (cash : ℤ) (negative short : Bool)
    → let p = run cs (portfolio cash negative short) in
      p.available_cash_scaled
        +ℤ total cost_of p.positions
        +ℤ pos (buy_fees cs (portfolio cash negative short))
      ≡ cash +ℤ p.realized_pnl_scaled
run-cash cs cash negative short =
    omega (int_laws, parts_of_eq (run-value cs (portfolio cash negative short)))

-- The cost of the positions whose token has no price, as when its book has one side alone.
unfoldable pub unpriced_cost : Dict ℕ → Dict Position → ℤ
unpriced_cost prices [] = pos 0
unpriced_cost prices ((token, position) ∷ d) =
    let later = unpriced_cost prices d in
    (if is_some (lookup token prices) then pos 0 else position.cost_basis_scaled) +ℤ later

marked-unrealized :
    (prices : Dict ℕ) (d : Dict Position)
    → marked_sum prices d +ℤ unpriced_cost prices d ≡ unrealized_sum prices d +ℤ total cost_of d
unfolding marked_sum unrealized_sum unpriced_cost
marked-unrealized prices [] = omega int_laws
marked-unrealized prices ((token, position) ∷ d) =
    let ih = marked-unrealized prices d in
    elim (Option-cases (lookup token prices)) [
      | inl unknown ↦ rw unknown (omega (int_laws, parts_of_eq ih))
      | inr (price, known) ↦ rw known (omega (int_laws, parts_of_eq ih))
    ]

branch-receivable :
    (side : Side) (fill : SimulatedFill) (position : Position) (p : Portfolio)
    → (fill_branch side fill position p).1.settlement_receivable_scaled
      ≡ p.settlement_receivable_scaled
unfolding buy_fill sell_fill
branch-receivable buy fill position p = ground arith
branch-receivable sell fill position p = ground arith

apply-receivable :
    (c : Call) (p : Portfolio)
    → (apply c p).settlement_receivable_scaled ≡ p.settlement_receivable_scaled
unfolding apply apply_fill settle_market mark_to_market
apply-receivable (fill_call fill outcome) p =
    branch-receivable fill.side fill _ (with_default fill outcome p)
apply-receivable (settle_call condition winner t) p = omega int_laws
apply-receivable (mark_call prices) p = refl

run-receivable :
    (cs : List Call) (p : Portfolio)
    → (run cs p).settlement_receivable_scaled ≡ p.settlement_receivable_scaled
unfolding run
run-receivable [] p = refl
run-receivable (c ∷ cs) p = run-receivable cs (apply c p) ∙ apply-receivable c p

-- The equity that a run reports is the starting cash plus the realized and the unrealized result, less
-- the fees of the accepted BUY fills and less the cost of the positions that have no price: such
-- a position is marked at nothing, and its cost is missing from both figures. No settlement or
-- rounding of a price falls between them.
pub run-equity :
    (cs : List Call) (cash : ℤ) (negative short : Bool) (prices : Dict ℕ)
    → let start = portfolio cash negative short in
      let p = run cs start in
      equity_scaled prices p +ℤ pos (buy_fees cs start) +ℤ unpriced_cost prices p.positions
      ≡ cash +ℤ p.realized_pnl_scaled +ℤ (mark_to_market prices p).0
unfolding equity_scaled mark_to_market
run-equity cs cash negative short prices =
    let p = run cs (portfolio cash negative short) in
    omega (
      int_laws,
      parts_of_eq (run-cash cs cash negative short),
      parts_of_eq (run-receivable cs (portfolio cash negative short)),
      parts_of_eq (marked-unrealized prices p.positions),
    )
