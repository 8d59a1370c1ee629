-- ===== src/OptimalExecution/Policy.antt =====
-- The policies: `ExecutionAction`, `PolicyLimits`, `_PolicyBase`, `TwapPolicy` and `AdaptivePovPolicy`.
use polymarket_btc_15min_bac.Base.{
  ℕ, ◌+◌, ◌-◌, ◌*◌, ◌/◌, Bool, true, false, ◌&&◌, Option, none, some, [], ◌∷◌, ltb, leb, ◌==◌,
  if◌then◌else◌, sum_by, keep_if, min, max,
}
use polymarket_btc_15min_bac.Models.{Side, buy, sell}
use polymarket_btc_15min_bac.OptimalExecution.State.{
  ppm_scale, ppm, ceil_div, Ladder, ExecutionState, remaining_shares, taker_ladder, progress_ppm,
  adverse_move, by_side,
}

pub data Reason : Type 0 where
  before_start deadline_passed parent_complete empty_taker_ladder no_inventory : Reason
  minimum_action_interval no_executable_capacity below_minimum_order_size : Reason
  ahead_of_twap_schedule deadline_catch_up twap_schedule : Reason
  participation_target_satisfied adverse_price_wait adaptive_participation : Reason
  child_outstanding previous_child_not_arrived : Reason

-- An action: a wait requests no shares, a taker slice its size at the plan's limit.
pub data ExecutionAction : Type 0 where
  wait : Reason → ExecutionAction
  taker_slice : ℕ → Option ℕ → Reason → ExecutionAction

pub record PolicyLimits : Type 0 where
  pub minimum_action_interval_ns : ℕ
  pub max_child_shares_scaled : Option ℕ
  pub max_l2_participation_ppm : ℕ
  pub fee_reserve_ppm : ℕ

abbrev pub is_empty : Ladder → Bool
is_empty [] = true
is_empty (_ ∷ _) = false

abbrev pub is_sell : Side → Bool
is_sell buy = false
is_sell sell = true

-- The last action is less than the interval ago.
abbrev pub is_recent : Option ℕ → ℕ → ℕ → Bool
is_recent none now interval = false
is_recent (some last) now interval = ltb (now - last) interval

-- `_preflight`: the reason to wait, if there is one.
unfoldable pub preflight : PolicyLimits → ExecutionState → Option Reason
preflight limits s =
    if ltb s.now_utc_ns s.plan.start_utc_ns
    then some before_start
    else if ltb s.plan.deadline_utc_ns s.now_utc_ns
    then some deadline_passed
    else if remaining_shares s == 0
    then some parent_complete
    else if is_empty (taker_ladder s)
    then some empty_taker_ladder
    else if is_sell s.plan.side && (s.inventory_shares_scaled == 0)
    then some no_inventory
    else if ltb s.now_utc_ns s.plan.deadline_utc_ns
        && is_recent s.last_action_utc_ns s.now_utc_ns limits.minimum_action_interval_ns
    then some minimum_action_interval
    else none

abbrev pub is_within : Side → Option ℕ → ℕ × ℕ → Bool
is_within side none level = true
is_within buy (some limit) level = leb level.0 limit
is_within sell (some limit) level = leb limit level.0

-- `_executable_levels` and `_executable_depth`
unfoldable pub executable_levels : ExecutionState → Ladder
executable_levels s = keep_if (is_within s.plan.side s.plan.limit_price_scaled) (taker_ladder s)

unfoldable pub executable_depth : ExecutionState → ℕ
unfolding executable_levels
executable_depth s = sum_by (λ (level : ℕ × ℕ). level.1) (executable_levels s)

-- `levels[-1][0]`
abbrev pub last_price : ℕ → Ladder → ℕ
last_price price [] = price
last_price price ((next, size) ∷ levels) = last_price next levels

abbrev pub at_least : ℕ → Option ℕ → ℕ
at_least n none = n
at_least n (some limit) = max n limit

-- `_cash_affordable_shares`, on the executable levels.
unfoldable pub affordable : PolicyLimits → ℕ → Option ℕ → Ladder → ℕ
affordable limits cash limit [] = 0
affordable limits cash limit ((price, size) ∷ levels) =
    cash
    * 1_000_000
    * ppm_scale
    / (at_least (last_price price levels) limit * (ppm_scale + limits.fee_reserve_ppm))

abbrev pub cap : ℕ → Option ℕ → ℕ
cap size none = size
cap size (some limit) = min size limit

-- The size that `_child_action` settles on.
unfoldable pub child_size : PolicyLimits → ExecutionState → ℕ → ℕ
unfolding executable_levels executable_depth affordable ppm
child_size limits s requested =
    let wanted = cap (min requested (remaining_shares s)) limits.max_child_shares_scaled in
    let depth = ppm (executable_depth s) limits.max_l2_participation_ppm in
    let cash =
      affordable limits s.available_cash_scaled s.plan.limit_price_scaled (executable_levels s) in
    by_side s.plan.side (min (min wanted depth) cash)
      (min (min wanted s.inventory_shares_scaled) depth)

-- `_child_action`
unfoldable pub child_action : PolicyLimits → ExecutionState → ℕ → Reason → ExecutionAction
unfolding child_size
child_action limits s requested reason =
    let size = child_size limits s requested in
    if size == 0
    then wait no_executable_capacity
    else if ltb size s.minimum_order_size_scaled
    then wait below_minimum_order_size
    else taker_slice size s.plan.limit_price_scaled reason

-- An action, unless the policy is blocked.
abbrev pub unless_blocked : Option Reason → ExecutionAction → ExecutionAction
unless_blocked none action = action
unless_blocked (some reason) action = wait reason

-- The cumulative target of `TwapPolicy` at the state's time.
unfoldable pub twap_scheduled : ℕ → ExecutionState → ℕ
unfolding ceil_div
twap_scheduled slices s =
    let duration = s.plan.deadline_utc_ns - s.plan.start_utc_ns in
    let elapsed = s.now_utc_ns - s.plan.start_utc_ns in
    let slot = min slices (elapsed * slices / duration + 1) in
    ceil_div (s.plan.target_shares_scaled * slot) slices

-- `TwapPolicy.decide`
unfoldable pub twap_decide : PolicyLimits → ℕ → ExecutionState → ExecutionAction
unfolding preflight twap_scheduled child_action
twap_decide limits slices s =
    let due = twap_scheduled slices s - s.filled_shares_scaled in
    unless_blocked (preflight limits s) (
      if due == 0
      then wait ahead_of_twap_schedule
      else child_action limits s due
          (if s.now_utc_ns == s.plan.deadline_utc_ns then deadline_catch_up else twap_schedule))

pub record AdaptivePovPolicy : Type 0 where
  pub participation_ppm : ℕ
  pub twap_floor_ppm : ℕ
  pub adverse_move_tolerance_scaled : Option ℕ
  pub minimum_adverse_multiplier_ppm : ℕ
  pub limits : PolicyLimits

abbrev pub multiplier_at : ℕ → ℕ → ℕ → ℕ → ℕ
multiplier_at tolerance move progress minimum =
    let pressure = min ppm_scale (move * ppm_scale / tolerance) in
    max minimum (ppm_scale - (pressure * (ppm_scale - progress) / ppm_scale))

-- `_adverse_multiplier`
unfoldable pub adverse_multiplier : AdaptivePovPolicy → Option ℕ → ExecutionState → ℕ
unfolding adverse_move progress_ppm
adverse_multiplier p none s = ppm_scale
adverse_multiplier p (some tolerance) s =
    if adverse_move s == 0
    then ppm_scale
    else multiplier_at tolerance (adverse_move s) (progress_ppm s) p.minimum_adverse_multiplier_ppm

-- The cumulative target before the deadline: the flow's share, at least a part of the linear
-- schedule, and no more than the parent.
unfoldable pub pov_desired : AdaptivePovPolicy → ExecutionState → ℕ
unfolding ppm progress_ppm
pov_desired p s =
    let flow =
      s.observed_market_volume_scaled * p.participation_ppm / (ppm_scale - p.participation_ppm) in
    let linear = ppm s.plan.target_shares_scaled (progress_ppm s) in
    min s.plan.target_shares_scaled (max flow (ppm linear p.twap_floor_ppm))

-- `AdaptivePovPolicy.decide`
unfoldable pub pov_decide : AdaptivePovPolicy → ExecutionState → ExecutionAction
unfolding preflight child_action pov_desired adverse_multiplier ppm
pov_decide p s =
    let due = pov_desired p s - s.filled_shares_scaled in
    let scaled = ppm due (adverse_multiplier p p.adverse_move_tolerance_scaled s) in
    unless_blocked (preflight p.limits s) (
      if s.now_utc_ns == s.plan.deadline_utc_ns
      then child_action p.limits s (remaining_shares s) deadline_catch_up
      else if due == 0
      then wait participation_target_satisfied
      else if scaled == 0
      then wait adverse_price_wait
      else child_action p.limits s scaled adaptive_participation)
