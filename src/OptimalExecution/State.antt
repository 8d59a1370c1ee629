-- ===== src/OptimalExecution/State.antt =====
-- The parent order and what a policy may know: `ObjectiveWeights`, `ExecutionPlan` and
-- `ExecutionState`. The checks of `__post_init__` on values that are naturals here hold of themselves
-- and are left out; the others are the error that `plan_error` and `state_error` find.
use polymarket_btc_15min_bac.Base.{
  ℕ, zero, suc, ◌+◌, ◌-◌, ◌*◌, ◌/◌, Bool, true, false, ◌||◌, Option, none, some, List, [], ◌∷◌, ltb,
  leb, ◌==◌, if◌then◌else◌,
}
use polymarket_btc_15min_bac.Models.{Side, buy, sell}

-- `PPM`
abbrev pub ppm_scale : ℕ
ppm_scale = 1_000_000

-- `_ppm` of a value that is not negative.
unfoldable pub ppm : ℕ → ℕ → ℕ
ppm value rate = value * rate / ppm_scale

-- `_ceil_div`, for a divisor that is not zero.
unfoldable pub ceil_div : ℕ → ℕ → ℕ
ceil_div n d = (n + (d - 1)) / d

abbrev pub Ladder : Type 0
Ladder = List (ℕ × ℕ)

pub record ObjectiveWeights : Type 0 where
  pub implementation_shortfall_ppm : ℕ
  pub non_fill_penalty_ppm : ℕ
  pub adverse_selection_penalty_ppm : ℕ

pub record ExecutionPlan : Type 0 where
  pub side : Side
  pub target_shares_scaled : ℕ
  pub start_utc_ns : ℕ
  pub deadline_utc_ns : ℕ
  pub benchmark_price_scaled : ℕ
  pub limit_price_scaled : Option ℕ
  pub objective : ObjectiveWeights

pub data ExecutionError : Type 0 where
  bad_target bad_deadline bad_benchmark bad_limit : ExecutionError
  bad_filled future_action bad_reference bad_level unordered_ladder : ExecutionError
  cursor_backwards decide_backwards unequal_lengths unsorted_trades sell_without_inventory :
      ExecutionError
  no_pending wrong_size wrong_decision early_arrival late_fill : ExecutionError
  wrong_shares wrong_notional wrong_fees over_child over_parent over_cash over_inventory :
      ExecutionError
  negative_cash early_evaluation no_mark outstanding bad_fill : ExecutionError

abbrev pub first_error : List (Bool × ExecutionError) → Option ExecutionError
first_error [] = none
first_error ((failed, error) ∷ checks) = if failed then some error else first_error checks

abbrev pub is_zero_option : Option ℕ → Bool
is_zero_option none = false
is_zero_option (some n) = n == 0

-- `ExecutionPlan.__post_init__`
unfoldable pub plan_error : ExecutionPlan → Option ExecutionError
plan_error plan = first_error (
    (plan.target_shares_scaled == 0, bad_target)
    ∷ (leb plan.deadline_utc_ns plan.start_utc_ns, bad_deadline)
    ∷ (plan.benchmark_price_scaled == 0, bad_benchmark)
    ∷ (is_zero_option plan.limit_price_scaled, bad_limit)
    ∷ [])

pub record ExecutionState : Type 0 where
  pub plan : ExecutionPlan
  pub now_utc_ns : ℕ
  pub filled_shares_scaled : ℕ
  pub inventory_shares_scaled : ℕ
  pub available_cash_scaled : ℕ
  pub bids : Ladder
  pub asks : Ladder
  pub observed_market_volume_scaled : ℕ
  pub minimum_order_size_scaled : ℕ
  pub last_action_utc_ns : Option ℕ
  pub current_reference_price_scaled : Option ℕ

abbrev pub is_out_of_order : Bool → Option ℕ → ℕ → Bool
is_out_of_order descending none price = false
is_out_of_order true (some previous) price = leb previous price
is_out_of_order false (some previous) price = leb price previous

-- `_validate_ladder`
unfoldable pub ladder_error : Bool → Option ℕ → Ladder → Option ExecutionError
ladder_error descending previous [] = none
ladder_error descending previous ((price, size) ∷ levels) =
    let rest = ladder_error descending (some price) levels in
    if (price == 0) || (size == 0)
    then some bad_level
    else if is_out_of_order descending previous price
    then some unordered_ladder
    else rest

abbrev pub exceeds : Option ℕ → ℕ → Bool
exceeds none n = false
exceeds (some m) n = ltb n m

abbrev pub or_error : Option ExecutionError → Option ExecutionError → Option ExecutionError
or_error none later = later
or_error (some e) _ = some e

-- `ExecutionState.__post_init__`
unfoldable pub state_error : ExecutionState → Option ExecutionError
unfolding ladder_error
state_error s =
    or_error
      (first_error (
        (ltb s.plan.target_shares_scaled s.filled_shares_scaled, bad_filled)
        ∷ (exceeds s.last_action_utc_ns s.now_utc_ns, future_action)
        ∷ (is_zero_option s.current_reference_price_scaled, bad_reference)
        ∷ []))
      (or_error (ladder_error true none s.bids) (ladder_error false none s.asks))

abbrev pub remaining_shares : ExecutionState → ℕ
remaining_shares s = s.plan.target_shares_scaled - s.filled_shares_scaled

abbrev pub by_side {ℓ} : {A : Type ℓ} → Side → A → A → A
by_side buy a b = a
by_side sell a b = b

abbrev pub taker_ladder : ExecutionState → Ladder
taker_ladder s = by_side s.plan.side s.asks s.bids

abbrev pub touch_of : Ladder → Option ℕ
touch_of [] = none
touch_of ((price, size) ∷ levels) = some price

-- `progress_ppm`
unfoldable pub progress_ppm : ExecutionState → ℕ
progress_ppm s =
    if leb s.now_utc_ns s.plan.start_utc_ns
    then 0
    else if leb s.plan.deadline_utc_ns s.now_utc_ns
    then ppm_scale
    else (s.now_utc_ns - s.plan.start_utc_ns)
      * ppm_scale
      / (s.plan.deadline_utc_ns - s.plan.start_utc_ns)

-- `self.current_reference_price_scaled or self.touch_price_scaled`
abbrev pub or_touch : Option ℕ → Option ℕ → Option ℕ
or_touch none touch = touch
or_touch (some zero) touch = touch
or_touch (some (suc p)) touch = some (suc p)

abbrev pub worse_by : Side → Option ℕ → ℕ → ℕ
worse_by side none benchmark = 0
worse_by buy (some price) benchmark = price - benchmark
worse_by sell (some price) benchmark = benchmark - price

-- `adverse_move_scaled`; its `max(0, …)` is what subtraction of naturals does.
unfoldable pub adverse_move : ExecutionState → ℕ
adverse_move s =
    worse_by s.plan.side (or_touch s.current_reference_price_scaled (touch_of (taker_ladder s)))
      s.plan.benchmark_price_scaled
