-- ===== src/Metrics.antt =====
-- The figures of src/polymarket_bt/backtest/metrics.py on whole numbers: the drawdown of an equity curve and
-- the two sums that the profit factor divides.
pub mod Drawdown
use polymarket_btc_15min_bac.Base.{
  ℕ, zero, suc, ◌+◌, ◌-◌, ◌*◌, ◌/◌, Bool, true, false, Option, none, some, List, [], ◌∷◌, ltb,
  if◌then◌else◌, min, length, ℤ, pos, negsuc, ◌-ℤ◌, max_ℤ, ltb_ℤ, leb_ℤ, pos_part, neg_part, sum_by,
}
use polymarket_btc_15min_bac.Sorting.{sorted}

-- The loop of `maximum_drawdown`.
unfoldable pub drawdown_loop : ℤ → ℤ → List ℤ → ℤ
drawdown_loop peak drawdown [] = drawdown
drawdown_loop peak drawdown (value ∷ values) =
    let higher = max_ℤ peak value in drawdown_loop higher (max_ℤ drawdown (higher -ℤ value)) values

unfoldable pub maximum_drawdown : List ℤ → ℤ
unfolding drawdown_loop
maximum_drawdown [] = pos 0
maximum_drawdown (value ∷ values) = drawdown_loop value (pos 0) (value ∷ values)

-- `profit_factor`: the gains and the losses that it divides.
unfoldable pub gains_and_losses : List ℤ → ℕ × ℕ
gains_and_losses changes = (sum_by pos_part changes, sum_by neg_part changes)
