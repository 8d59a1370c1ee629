-- ===== src/Fees/Order.antt =====
-- A larger quantity costs no less, and none costs nothing: src/polymarket_bt/backtest/fees.py.
use native.Mathlib.Nat.{div-zero, div-mul-le_self, le-div_iff_mul-le, le_trans, le_refl, mul-le-mul}
use polymarket_btc_15min_bac.Base.{
  ℕ, zero, suc, ◌+◌, ◌-◌, ◌*◌, ◌/◌, ◌^◌, ◌≤◌, ◌<◌, ◌≡◌, refl, Bool, true, false, not, ◌&&◌, ltb,
  if◌then◌else◌, if-either, max, arith, Bool-cases, inl, inr,
}
use polymarket_btc_15min_bac.Fees.{
  FeeModel, Rounding, half_up, floor, ceiling, quantize, scale, notional_scaled, calculate, curve,
  is_free, is_below_zero, minimum_scaled,
}

div-le : (a b d : ℕ) → a ≤ b → a / d ≤ b / d
div-le a b zero h = omega (arith, div-zero a, div-zero b)
div-le a b (suc d) h =
    let positive : 0 < suc d = omega arith in
    (le-div_iff_mul-le positive).1 (le_trans (div-mul-le_self a (suc d)) h)

quantize-le : (r : Rounding) (a b d : ℕ) → a ≤ b → quantize r a d ≤ quantize r b d
unfolding quantize
quantize-le half_up a b d h = div-le (2 * a + d) (2 * b + d) (2 * d) (omega (arith, h))
quantize-le floor a b d h = div-le a b d h
quantize-le ceiling a b d h = div-le (a + (d - 1)) (b + (d - 1)) d (omega (arith, h))

pub notional_scaled-le : (a b price : ℕ) → a ≤ b → notional_scaled a price ≤ notional_scaled b price
unfolding notional_scaled
notional_scaled-le a b price h =
    quantize-le half_up (a * price) (b * price) scale (mul-le-mul h (le_refl price))

-- The fee of a raw amount, by whether it is positive.
charged :
    (below : Bool) (raw raw' fee fee' least : ℕ)
    → raw ≤ raw'
    → fee ≤ fee'
    → (if ltb 0 raw && not below then max fee least else 0)
      ≤ (if ltb 0 raw' && not below then max fee' least else 0)
charged true raw raw' fee fee' least h k = ground arith
charged false raw raw' fee fee' least h k = ground arith

pub calculate-le :
    (m : FeeModel) (a b price : ℕ) → a ≤ b → calculate m a price ≤ calculate m b price
unfolding calculate
calculate-le m a b price h =
    let slope = curve price ^ m.exponent in
    let raw : a * m.rate * slope ≤ b * m.rate * slope =
      mul-le-mul (mul-le-mul h (le_refl m.rate)) (le_refl slope) in
    elim (Bool-cases (is_free m.formula m.liquidity_role)) [
      | inl free ↦ rw free (omega arith)
      | inr taker ↦ rw taker (
          charged (is_below_zero price m.exponent) _ _ _ _ (minimum_scaled m) raw
            (quantize-le m.rounding _ _ _ raw))
    ]

uncharged :
    (below : Bool) (raw fee least : ℕ)
    → raw ≡ 0
    → (if ltb 0 raw && not below then max fee least else 0) ≡ 0
uncharged below raw fee least h = ground arith

pub calculate-zero : (m : FeeModel) (price : ℕ) → calculate m 0 price ≡ 0
unfolding calculate
calculate-zero m price =
    let nothing : 0 * m.rate * curve price ^ m.exponent ≡ 0 = grind arith in
    if-either (λ n. n ≡ 0) (is_free m.formula m.liquidity_role) refl
      (uncharged (is_below_zero price m.exponent) _ _ _ nothing)

pub notional_scaled-zero : (price : ℕ) → notional_scaled 0 price ≡ 0
unfolding notional_scaled
notional_scaled-zero price = omega arith
