-- ===== src/FastSim/Afford.antt =====
-- What dollars buy: the binary search of `_max_affordable_shares` of
-- src/polymarket_bt/backtest/fastsim.py.
use polymarket_btc_15min_bac.Base.{
  ℕ, zero, suc, ◌+◌, ◌-◌, ◌/◌, ◌≤◌, ◌<◌, ◌≡◌, false, ◌||◌, Option, some, ltb, leb, ◌==◌, Bool-cases,
  inl, inr, arith, leb→le,
}
use polymarket_btc_15min_bac.Fees.{FeeModel}
use polymarket_btc_15min_bac.Fees.Order.{
  notional_scaled-le, calculate-le, calculate-zero, notional_scaled-zero,
}
use polymarket_btc_15min_bac.FastSim.{all_in_cost, search_shares, max_affordable_shares, upper_or}

all_in_cost-le :
    (fees : FeeModel) (price a b : ℕ) → a ≤ b → all_in_cost fees price a ≤ all_in_cost fees price b
unfolding all_in_cost
all_in_cost-le fees price a b h =
    omega (arith, notional_scaled-le a b price h, calculate-le fees a b price h)

all_in_cost-zero : (fees : FeeModel) (price : ℕ) → all_in_cost fees price 0 ≡ 0
unfolding all_in_cost
all_in_cost-zero fees price = omega (arith, notional_scaled-zero price, calculate-zero fees price)

search-affordable :
    (fees : FeeModel) (spend price fuel low high : ℕ)
    → all_in_cost fees price low ≤ spend
    → all_in_cost fees price (search_shares fees spend price fuel low high) ≤ spend
unfolding search_shares
search-affordable fees spend price zero low high h = h
search-affordable fees spend price (suc fuel) low high h =
    let middle = (low + high + 1) / 2 in
    elim (Bool-cases (ltb low high)) [
      | inl wide ↦ rw wide (elim (Bool-cases (leb (all_in_cost fees price middle) spend)) [
        | inl fits ↦ rw fits (
            search-affordable fees spend price fuel middle high
              (leb→le (all_in_cost fees price middle) spend fits))
        | inr over ↦ rw over (search-affordable fees spend price fuel low (middle - 1) h)
      ])
      | inr narrow ↦ rw narrow h
    ]

-- The search loses no affordable quantity, with as much fuel as its interval is wide.
search-largest :
    (fees : FeeModel) (spend price fuel low high n : ℕ)
    → high - low ≤ fuel
    → n ≤ high
    → all_in_cost fees price n ≤ spend
    → n ≤ search_shares fees spend price fuel low high
unfolding search_shares
search-largest fees spend price zero low high n width under h = omega (arith, width, under)
search-largest fees spend price (suc fuel) low high n width under h =
    let middle : ℕ = (low + high + 1) / 2 in
    elim (Bool-cases (ltb low high)) [
      | inl wide ↦ rw wide (elim (Bool-cases (leb (all_in_cost fees price middle) spend)) [
        | inl fits ↦
            let narrower : high - middle ≤ fuel = ground (arith, wide, width) in
            rw fits (search-largest fees spend price fuel middle high n narrower under h)
        | inr over ↦
            let narrower : middle - 1 - low ≤ fuel = ground (arith, wide, width) in
            let dearer = all_in_cost-le fees price middle n in
            let below : n ≤ middle - 1 = ground (arith, over, dearer, h) in
            rw over (search-largest fees spend price fuel low (middle - 1) n narrower below h)
      ])
      | inr narrow ↦ rw narrow (ground (arith, narrow, under))
    ]

search-under :
    (fees : FeeModel) (spend price fuel low high : ℕ)
    → low ≤ high
    → search_shares fees spend price fuel low high ≤ high
unfolding search_shares
search-under fees spend price zero low high h = h
search-under fees spend price (suc fuel) low high h =
    let middle : ℕ = (low + high + 1) / 2 in
    elim (Bool-cases (ltb low high)) [
      | inl wide ↦ rw wide (elim (Bool-cases (leb (all_in_cost fees price middle) spend)) [
        | inl fits ↦
            let within : middle ≤ high = ground (arith, wide) in
            rw fits (search-under fees spend price fuel middle high within)
        | inr over ↦
            let above : low ≤ middle - 1 = ground (arith, wide) in
            let ih = search-under fees spend price fuel low (middle - 1) above in
            let within : middle - 1 ≤ high = ground (arith, wide) in
            rw over (omega (arith, ih, within))
      ])
      | inr narrow ↦ rw narrow h
    ]

-- The dollars pay for the quantity that the search returns.
pub max_affordable-paid :
    (fees : FeeModel) (spend price : ℕ) (upper : Option ℕ)
    → all_in_cost fees price (max_affordable_shares fees spend price upper) ≤ spend
unfolding max_affordable_shares
max_affordable-paid fees spend price upper =
    let free : all_in_cost fees price 0 ≤ spend = omega (arith, all_in_cost-zero fees price) in
    elim (Bool-cases ((spend == 0) || (price == 0))) [
      | inl nothing ↦ rw nothing free
      | inr something ↦
          let high = upper_or upper spend price in
          rw something (search-affordable fees spend price high 0 high free)
    ]

-- The binary search under an upper bound returns the largest quantity under it that the dollars pay for,
-- fee included: what it returns is paid for and under the bound, and no affordable quantity under the
-- bound is larger. The fuel of the model, the bound itself, is enough for every round.
pub max_affordable-largest :
    (fees : FeeModel) (spend price upper n : ℕ)
    → 0 < spend
    → 0 < price
    → n ≤ upper
    → all_in_cost fees price n ≤ spend
    → let shares = max_affordable_shares fees spend price (some upper) in
      (all_in_cost fees price shares ≤ spend) × (shares ≤ upper) × (n ≤ shares)
unfolding max_affordable_shares
max_affordable-largest fees spend price upper n positive priced under h =
    let something : ((spend == 0) || (price == 0)) ≡ false = ground (arith, positive, priced) in
    let wide : upper - 0 ≤ upper = omega arith in
    let free : all_in_cost fees price 0 ≤ spend = omega (arith, all_in_cost-zero fees price) in
    rw something (
      search-affordable fees spend price upper 0 upper free,
      search-under fees spend price upper 0 upper (omega arith),
      search-largest fees spend price upper 0 upper n wide under h,
    )
