-- ===== src/OptimalExecution/Objective.antt =====
-- `evaluate_execution_objective`: the score of a parent order after its deadline.
use polymarket_btc_15min_bac.Base.{
  ℕ, suc, ◌+◌, ◌-◌, ◌*◌, ◌/◌, ◌≤◌, ◌≡◌, refl, Bool, true, false, not, ◌&&◌, Option, none, some,
  List, [], ◌∷◌, ltb, ◌==◌, if◌then◌else◌, sum_by, any_of, arith, Result, ok, err, ℤ, pos, negsuc,
  ◌+ℤ◌, ◌-ℤ◌, sub_ℕ, All, le→ltb-false,
}
use polymarket_btc_15min_bac.Models.{Side, buy, sell}
use polymarket_btc_15min_bac.Fees.{notional_scaled}
use polymarket_btc_15min_bac.OptimalExecution.State.{
  ppm_scale, ppm, ExecutionPlan, ExecutionError, early_evaluation, no_mark, late_fill, over_parent,
}

pub record ExecutionFill : Type 0 where
  pub timestamp_utc_ns : ℕ
  pub shares_scaled : ℕ
  pub price_scaled : ℕ
  pub fee_scaled : ℕ

pub record ExecutionObjectiveResult : Type 0 where
  pub filled_shares_scaled : ℕ
  pub unfilled_shares_scaled : ℕ
  pub fill_rate_ppm : ℕ
  pub raw_implementation_shortfall_scaled : ℤ
  pub implementation_shortfall_scaled : ℤ
  pub non_fill_penalty_scaled : ℕ
  pub adverse_selection_penalty_scaled : ℕ
  pub total_objective_scaled : ℤ
  pub deadline_mark_price_scaled : Option ℕ

-- `_ppm`, which truncates toward zero on both sides.
unfoldable pub ppm_ℤ : ℤ → ℕ → ℤ
unfolding ppm
ppm_ℤ (pos n) rate = pos (ppm n rate)
ppm_ℤ (negsuc n) rate = sub_ℕ 0 (ppm (suc n) rate)

abbrev pub shares_of_fills : List ExecutionFill → ℕ
shares_of_fills = sum_by (λ (f : ExecutionFill). f.shares_scaled)

abbrev pub notional_of_fills : List ExecutionFill → ℕ
notional_of_fills = sum_by (λ (f : ExecutionFill). notional_scaled f.shares_scaled f.price_scaled)

abbrev pub fees_of_fills : List ExecutionFill → ℕ
fees_of_fills = sum_by (λ (f : ExecutionFill). f.fee_scaled)

-- `raw_shortfall`
unfoldable pub raw_shortfall : Side → ℕ → ℕ → ℕ → ℤ
raw_shortfall buy actual fees benchmark = pos (actual + fees) -ℤ pos benchmark
raw_shortfall sell actual fees benchmark = pos benchmark -ℤ (pos actual -ℤ pos fees)

abbrev pub adverse_price : Side → ℕ → ℕ → ℕ
adverse_price buy price mark = price - mark
adverse_price sell price mark = mark - price

-- `adverse_base`
unfoldable pub adverse_base : Side → Option ℕ → List ExecutionFill → ℕ
adverse_base side none fills = 0
adverse_base side (some mark) fills =
    sum_by
      (λ (f : ExecutionFill).
        notional_scaled f.shares_scaled (adverse_price side f.price_scaled mark))
      fills

-- There is no positive mark.
abbrev pub is_unmarked : Option ℕ → Bool
is_unmarked none = true
is_unmarked (some mark) = mark == 0

-- The result of a score whose fills are sound.
unfoldable pub score : ExecutionPlan → List ExecutionFill → Option ℕ → ExecutionObjectiveResult
unfolding raw_shortfall adverse_base ppm_ℤ ppm
score plan fills mark =
    let filled = shares_of_fills fills in
    let unfilled = plan.target_shares_scaled - filled in
    let benchmark_filled = notional_scaled filled plan.benchmark_price_scaled in
    let raw =
      raw_shortfall plan.side (notional_of_fills fills) (fees_of_fills fills) benchmark_filled in
    let shortfall = ppm_ℤ raw plan.objective.implementation_shortfall_ppm in
    let non_fill =
      ppm (notional_scaled unfilled plan.benchmark_price_scaled)
        plan.objective.non_fill_penalty_ppm in
    let adverse =
      ppm (adverse_base plan.side mark fills) plan.objective.adverse_selection_penalty_ppm in
    record {
      filled_shares_scaled = filled;
      unfilled_shares_scaled = unfilled;
      fill_rate_ppm = filled * ppm_scale / plan.target_shares_scaled;
      raw_implementation_shortfall_scaled = raw;
      implementation_shortfall_scaled = shortfall;
      non_fill_penalty_scaled = non_fill;
      adverse_selection_penalty_scaled = adverse;
      total_objective_scaled = shortfall +ℤ pos (non_fill + adverse);
      deadline_mark_price_scaled = mark;
    }

-- `evaluate_execution_objective`
unfoldable pub evaluate_execution_objective :
    ExecutionPlan
    → List ExecutionFill
    → ℕ
    → Option ℕ
    → Result ExecutionError ExecutionObjectiveResult
unfolding score
evaluate_execution_objective plan fills evaluation mark =
    if ltb evaluation plan.deadline_utc_ns
    then err early_evaluation
    else if not (plan.objective.adverse_selection_penalty_ppm == 0) && is_unmarked mark
    then err no_mark
    else if any_of (λ (f : ExecutionFill). ltb plan.deadline_utc_ns f.timestamp_utc_ns) fills
    then err late_fill
    else if ltb plan.target_shares_scaled (shares_of_fills fills)
    then err over_parent
    else ok (score plan fills mark)

abbrev pub IsTimely : ℕ → List ExecutionFill → Type 0
IsTimely deadline = All (λ (f : ExecutionFill). f.timestamp_utc_ns ≤ deadline)

timely_lem :
    (deadline : ℕ) (fills : List ExecutionFill)
    → IsTimely deadline fills
    → any_of (λ (f : ExecutionFill). ltb deadline f.timestamp_utc_ns) fills ≡ false
timely_lem deadline [] h = refl
timely_lem deadline (f ∷ fills) (h, hs) =
    rw (le→ltb-false deadline f.timestamp_utc_ns h) (timely_lem deadline fills hs)

-- Timely fills within the parent are scored, at the deadline or later and with a positive mark.
pub evaluate-scored :
    (plan : ExecutionPlan) (fills : List ExecutionFill) (evaluation mark : ℕ)
    → plan.deadline_utc_ns ≤ evaluation
    → IsTimely plan.deadline_utc_ns fills
    → shares_of_fills fills ≤ plan.target_shares_scaled
    → evaluate_execution_objective plan fills evaluation (some (suc mark))
      ≡ ok (score plan fills (some (suc mark)))
unfolding evaluate_execution_objective
evaluate-scored plan fills evaluation mark late timely within =
    rw
      (
        le→ltb-false evaluation plan.deadline_utc_ns late,
        timely_lem plan.deadline_utc_ns fills timely,
        le→ltb-false plan.target_shares_scaled (shares_of_fills fills) within,
      )
      (ground arith)
