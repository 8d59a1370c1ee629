-- ===== src/OptimalExecution/Bounds.antt =====
-- The bounds that a policy keeps: of `_child_action` in src/polymarket_bt/backtest/optimal_execution.py,
-- and of the schedules that ask for a child.
use native.Mathlib.Nat.{
  div-mul-le_self, mul-le-mul, le_refl, le_trans, div-le_of_le-mul, le-div_iff_mul-le,
  div-lt_iff_lt-mul, mul_comm,
}
use polymarket_btc_15min_bac.Base.{
  ℕ, suc, ◌+◌, ◌-◌, ◌*◌, ◌/◌, ◌≤◌, ◌<◌, ◌≡◌, refl, Option, none, some, [], ◌∷◌, ltb, ◌==◌,
  if◌then◌else◌, min, Bool-cases, inl, inr, arith,
}
use polymarket_btc_15min_bac.Models.{Side, buy, sell}
use polymarket_btc_15min_bac.OptimalExecution.State.{
  ppm_scale, ppm, ceil_div, Ladder, ExecutionState, remaining_shares, by_side,
}
use polymarket_btc_15min_bac.OptimalExecution.Policy.{
  Reason, ExecutionAction, wait, taker_slice, PolicyLimits, preflight, executable_levels,
  executable_depth, affordable, at_least, last_price, cap, child_size, child_action, unless_blocked,
  twap_scheduled, twap_decide, AdaptivePovPolicy, adverse_multiplier, pov_desired, pov_decide,
}

abbrev pub IsCapped : ℕ → Option ℕ → Type 0
IsCapped size none = Unit
IsCapped size (some limit) = size ≤ limit

-- At the worst executable price, or at the limit where that is worse, and with the reserve for fees,
-- a size costs no more than the cash.
abbrev pub IsPayable : PolicyLimits → ℕ → Option ℕ → Ladder → ℕ → Type 0
IsPayable limits cash limit [] size = size ≡ 0
IsPayable limits cash limit ((price, _) ∷ levels) size =
    size * (at_least (last_price price levels) limit * (ppm_scale + limits.fee_reserve_ppm))
    ≤ cash * 1_000_000 * ppm_scale

-- What holds of a child of `size` shares.
abbrev pub IsAllowed : PolicyLimits → ExecutionState → ℕ → Type 0
IsAllowed limits s size =
    (size ≤ remaining_shares s)
    × IsCapped size limits.max_child_shares_scaled
    × (size ≤ ppm (executable_depth s) limits.max_l2_participation_ppm)
    × by_side s.plan.side
        (IsPayable limits s.available_cash_scaled s.plan.limit_price_scaled (executable_levels s)
          size)
        (size ≤ s.inventory_shares_scaled)

-- What holds of an action, for a policy that has `due` shares to ask for.
abbrev pub IsBounded : PolicyLimits → ExecutionState → ℕ → ExecutionAction → Type 0
IsBounded limits s due (wait reason) = Unit
IsBounded limits s due (taker_slice size limit reason) =
    (0 < size)
    × (s.minimum_order_size_scaled ≤ size)
    × (size ≤ due)
    × (limit ≡ s.plan.limit_price_scaled)
    × IsAllowed limits s size

affordable-IsPayable :
    (limits : PolicyLimits) (cash : ℕ) (limit : Option ℕ) (levels : Ladder) (size : ℕ)
    → size ≤ affordable limits cash limit levels
    → IsPayable limits cash limit levels size
unfolding affordable
affordable-IsPayable limits cash limit [] size h = omega arith
affordable-IsPayable limits cash limit ((price, n) ∷ levels) size h =
    let unit : ℕ =
      at_least (last_price price levels) limit * (ppm_scale + limits.fee_reserve_ppm) in
    let money : ℕ = cash * 1_000_000 * ppm_scale in
    let most : money / unit * unit ≤ money = div-mul-le_self money unit in
    le_trans (mul-le-mul h (le_refl unit)) most

cap-IsCapped : (size : ℕ) (limit : Option ℕ) (n : ℕ) → n ≤ cap size limit → IsCapped n limit
cap-IsCapped size none n h = tt
cap-IsCapped size (some limit) n h = omega arith

cap-le : (size : ℕ) (limit : Option ℕ) (n : ℕ) → n ≤ cap size limit → n ≤ size
cap-le size none n h = h
cap-le size (some limit) n h = omega arith

side_sized :
    (limits : PolicyLimits) (side : Side) (limit : Option ℕ) (levels : Ladder)
    (cash inventory wanted depth size : ℕ)
    → size
      ≤ by_side side
          (min (min wanted depth) (affordable limits cash limit levels))
          (min (min wanted inventory) depth)
    → (size ≤ wanted)
      × (size ≤ depth)
      × by_side side (IsPayable limits cash limit levels size) (size ≤ inventory)
side_sized limits buy limit levels cash inventory wanted depth size h =
    (omega arith, omega arith, affordable-IsPayable limits cash limit levels size (omega arith))
side_sized limits sell limit levels cash inventory wanted depth size h =
    (omega arith, omega arith, omega arith)

child_size-IsAllowed :
    (limits : PolicyLimits) (s : ExecutionState) (requested : ℕ)
    → IsAllowed limits s (child_size limits s requested)
      × (child_size limits s requested ≤ requested)
unfolding child_size
child_size-IsAllowed limits s requested =
    let n : ℕ = child_size limits s requested in
    let wanted : ℕ = cap (min requested (remaining_shares s)) limits.max_child_shares_scaled in
    let (small, depth, paid) =
      side_sized limits s.plan.side s.plan.limit_price_scaled (executable_levels s)
        s.available_cash_scaled s.inventory_shares_scaled wanted
        (ppm (executable_depth s) limits.max_l2_participation_ppm) n (le_refl n) in
    let least : n ≤ min requested (remaining_shares s) =
      cap-le (min requested (remaining_shares s)) limits.max_child_shares_scaled n small in
    (
      (
        omega (arith, least),
        cap-IsCapped (min requested (remaining_shares s)) limits.max_child_shares_scaled n small,
        depth,
        paid,
      ),
      omega (arith, least),
    )

-- A child that `_child_action` sends is not empty, is at least the venue's minimum and at most what
-- was requested; it is within the parent's remainder, the cap on a child and the participation in
-- the executable depth, and the cash of a BUY or the inventory of a SELL is enough for it.
pub child_action-IsBounded :
    (limits : PolicyLimits) (s : ExecutionState) (requested : ℕ) (reason : Reason)
    → IsBounded limits s requested (child_action limits s requested reason)
unfolding child_action
child_action-IsBounded limits s requested reason =
    let n : ℕ = child_size limits s requested in
    let (allowed, least) = child_size-IsAllowed limits s requested in
    elim (Bool-cases (n == 0)) [
      | inl none_left ↦ rw none_left tt
      | inr positive ↦ rw positive (elim (Bool-cases (ltb n s.minimum_order_size_scaled)) [
        | inl small ↦ rw small tt
        | inr enough ↦ rw enough (ground arith, ground arith, least, refl, allowed)
      ])
    ]

blocked-IsBounded :
    (limits : PolicyLimits) (s : ExecutionState) (due : ℕ) (reason : Option Reason)
    (action : ExecutionAction)
    → IsBounded limits s due action
    → IsBounded limits s due (unless_blocked reason action)
blocked-IsBounded limits s due none action h = h
blocked-IsBounded limits s due (some reason) action h = tt

-- Whatever `TwapPolicy` sends is bounded as a child is, and never takes the parent ahead of the
-- schedule.
pub twap_decide-IsBounded :
    (limits : PolicyLimits) (slices : ℕ) (s : ExecutionState)
    → IsBounded limits s
        (twap_scheduled slices s - s.filled_shares_scaled)
        (twap_decide limits slices s)
unfolding twap_decide
twap_decide-IsBounded limits slices s =
    let due : ℕ = twap_scheduled slices s - s.filled_shares_scaled in
    blocked-IsBounded limits s due (preflight limits s) _ (elim (Bool-cases (due == 0)) [
      | inl nothing ↦ rw nothing tt
      | inr something ↦ rw something (child_action-IsBounded limits s due _)
    ])

-- What `AdaptivePovPolicy` wants in all at the state's time.
abbrev pub pov_target : AdaptivePovPolicy → ExecutionState → ℕ
pov_target p s =
    if s.now_utc_ns == s.plan.deadline_utc_ns then s.plan.target_shares_scaled else pov_desired p s

widen :
    (limits : PolicyLimits) (s : ExecutionState) (n m : ℕ) (action : ExecutionAction)
    → n ≤ m
    → IsBounded limits s n action
    → IsBounded limits s m action
widen limits s n m (wait reason) h b = tt
widen limits s n m (taker_slice size limit reason) h (p, q, r, l, rest) =
    (p, q, le_trans r h, l, rest)

-- The pressure of an adverse price only makes a child smaller.
pub adverse_multiplier-le :
    (p : AdaptivePovPolicy) (tolerance : Option ℕ) (s : ExecutionState)
    → p.minimum_adverse_multiplier_ppm ≤ ppm_scale
    → adverse_multiplier p tolerance s ≤ ppm_scale
unfolding adverse_multiplier
adverse_multiplier-le p none s h = le_refl ppm_scale
adverse_multiplier-le p (some tolerance) s h = ground arith

swap : (n d m : ℕ) → n ≤ d * m → n ≤ m * d
swap n d m h = rw (mul_comm m d) h

-- Whatever `AdaptivePovPolicy` sends, with a minimum multiplier of at most one, is bounded as a child
-- is, and never takes the parent ahead of its target: the whole parent at the deadline, and before it
-- the share of the observed volume or of the linear schedule that is wanted.
pub pov_decide-IsBounded :
    (p : AdaptivePovPolicy) (s : ExecutionState)
    → p.minimum_adverse_multiplier_ppm ≤ ppm_scale
    → IsBounded p.limits s (pov_target p s - s.filled_shares_scaled) (pov_decide p s)
unfolding pov_decide ppm
pov_decide-IsBounded p s h =
    let due : ℕ = pov_desired p s - s.filled_shares_scaled in
    let multiplier : ℕ = adverse_multiplier p p.adverse_move_tolerance_scaled s in
    let scaled : ℕ = due * multiplier / ppm_scale in
    let eased : multiplier ≤ ppm_scale =
      adverse_multiplier-le p p.adverse_move_tolerance_scaled s h in
    let less : scaled ≤ due =
      div-le_of_le-mul ppm_scale (swap _ due ppm_scale (mul-le-mul (le_refl due) eased)) in
    elim (Bool-cases (s.now_utc_ns == s.plan.deadline_utc_ns)) [
      | inl last ↦ rw last (
          blocked-IsBounded p.limits s _ (preflight p.limits s) _
            (child_action-IsBounded p.limits s (remaining_shares s) _))
      | inr early ↦ rw early (
          blocked-IsBounded p.limits s due (preflight p.limits s) _ (elim (Bool-cases (due == 0)) [
            | inl nothing ↦ rw nothing tt
            | inr something ↦ rw something (elim (Bool-cases (scaled == 0)) [
              | inl small ↦ rw small tt
              | inr enough ↦
                  rw enough (
                    widen p.limits s scaled due _ less (child_action-IsBounded p.limits s scaled _))
            ])
          ]))
    ]

ceil_div-le : (t slot slices : ℕ) → 0 < slices → slot ≤ slices → ceil_div (t * slot) slices ≤ t
unfolding ceil_div
ceil_div-le t slot slices h k =
    let most : t * slot ≤ t * slices = mul-le-mul (le_refl t) k in
    let below : t * slot + (slices - 1) < suc t * slices = omega (arith, most) in
    omega (arith, (div-lt_iff_lt-mul h).1 below)

ceil_div-whole : (t slices : ℕ) → 0 < slices → ceil_div (t * slices) slices ≡ t
unfolding ceil_div
ceil_div-whole t slices h =
    let low : t ≤ (t * slices + (slices - 1)) / slices = (le-div_iff_mul-le h).1 (omega arith) in
    omega (arith, low, ceil_div-le t slices slices h (le_refl slices))

-- The schedule of `TwapPolicy`, with at least one slice, stays within the parent.
pub twap_scheduled-le :
    (slices : ℕ) (s : ExecutionState)
    → 0 < slices
    → twap_scheduled slices s ≤ s.plan.target_shares_scaled
unfolding twap_scheduled
twap_scheduled-le slices s h = ceil_div-le s.plan.target_shares_scaled _ slices h (omega arith)

-- From the deadline on, the schedule asks for the whole parent.
pub twap_scheduled-deadline :
    (slices : ℕ) (s : ExecutionState)
    → 0 < slices
    → s.plan.start_utc_ns < s.plan.deadline_utc_ns
    → s.plan.deadline_utc_ns ≤ s.now_utc_ns
    → twap_scheduled slices s ≡ s.plan.target_shares_scaled
unfolding twap_scheduled
twap_scheduled-deadline slices s h k past =
    let duration : ℕ = s.plan.deadline_utc_ns - s.plan.start_utc_ns in
    let elapsed : ℕ = s.now_utc_ns - s.plan.start_utc_ns in
    let long : duration ≤ elapsed = omega arith in
    let all : slices ≤ elapsed * slices / duration =
      (le-div_iff_mul-le (omega arith)).1
        (swap _ slices elapsed (mul-le-mul (le_refl slices) long)) in
    let reached : slices ≤ elapsed * slices / duration = all in
    let last : min slices (elapsed * slices / duration + 1) ≡ slices = omega (arith, reached) in
    rw last (ceil_div-whole s.plan.target_shares_scaled slices h)
