-- ===== src/Fees.antt =====
-- Fees and notionals, src/polymarket_bt/backtest/fees.py and `notional_scaled` of
-- src/polymarket_bt/backtest/execution.py. Python's decimals are exact at the program's sizes (28
-- digits), so they are fractions here, rounded where the code calls `quantize`. A rate and a minimum
-- fee are not negative, and an exponent is a natural number.
pub mod Order
use polymarket_btc_15min_bac.Base.{
  ℕ, ◌+◌, ◌-◌, ◌*◌, ◌/◌, ◌%◌, ◌^◌, ◌≤◌, ◌<◌, Bool, true, false, not, ◌&&◌, ltb, ◌==◌, if◌then◌else◌,
  max, arith,
}

pub data Rounding : Type 0 where
  half_up floor ceiling : Rounding

-- `quantize(Decimal(1), rounding=…)` of n / d.
unfoldable pub quantize : Rounding → ℕ → ℕ → ℕ
quantize half_up n d = (2 * n + d) / (2 * d)
quantize floor n d = n / d
quantize ceiling n d = (n + (d - 1)) / d

abbrev pub scale : ℕ
scale = 1_000_000

-- `notional_scaled`, here and in src/polymarket_bt/backtest/realism.py
unfoldable pub notional_scaled : ℕ → ℕ → ℕ
unfolding quantize
notional_scaled size price = quantize half_up (size * price) scale

pub data Formula : Type 0 where
  shares_rate_p_one_minus_p zero_formula : Formula

pub data LiquidityRole : Type 0 where
  taker maker : LiquidityRole

-- A `FeeModel` on its `FeeConfig`: the rate is `rate / rate_den`, the minimum fee
-- `minimum / minimum_den`.
pub record FeeModel : Type 0 where
  pub formula : Formula
  pub liquidity_role : LiquidityRole
  pub rate : ℕ
  pub rate_den : ℕ
  pub exponent : ℕ
  pub minimum : ℕ
  pub minimum_den : ℕ
  pub rounding : Rounding

unfoldable pub minimum_scaled : FeeModel → ℕ
unfolding quantize
minimum_scaled m = quantize m.rounding (m.minimum * scale) m.minimum_den

-- `self.config.formula == "zero" or self.config.liquidity_role == "maker"`
abbrev pub is_free : Formula → LiquidityRole → Bool
is_free zero_formula _ = true
is_free shares_rate_p_one_minus_p maker = true
is_free shares_rate_p_one_minus_p taker = false

-- The curve p(1 - p) without its sign, in units of 1 / scale².
abbrev pub curve : ℕ → ℕ
curve price = price * ((scale - price) + (price - scale))

-- `raw_scaled` is below zero: a price above one, to an odd power.
abbrev pub is_below_zero : ℕ → ℕ → Bool
is_below_zero price exponent = ltb scale price && ((exponent % 2) == 1)

unfoldable pub calculate : FeeModel → ℕ → ℕ → ℕ
unfolding minimum_scaled quantize
calculate m shares price =
    let raw = shares * m.rate * curve price ^ m.exponent in
    let fee = quantize m.rounding raw (m.rate_den * (scale * scale) ^ m.exponent) in
    if is_free m.formula m.liquidity_role
    then 0
    else if ltb 0 raw && not (is_below_zero price m.exponent)
    then max fee (minimum_scaled m)
    else 0

-- Rounding is off by at most a half, upward on a tie.
pub notional_scaled-nearest :
    (size price : ℕ)
    → (notional_scaled size price * (2 * scale) ≤ 2 * (size * price) + scale)
      × (2 * (size * price) < notional_scaled size price * (2 * scale) + scale)
unfolding notional_scaled
notional_scaled-nearest size price = omega arith

-- What an amount buys at a price, rounded down, costs no more than the amount.
pub notional-affordable :
    (budget size price : ℕ) → size * price ≤ budget * scale → notional_scaled size price ≤ budget
unfolding notional_scaled
notional-affordable budget size price h = omega arith
