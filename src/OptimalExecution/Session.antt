-- ===== src/OptimalExecution/Session.antt =====
-- `SequentialExecutionSession`: one parent order, its account, its fills and the child that is out. A
-- policy is any function from the state that it may see. The child and the time of its decision are
-- set and cleared together, and are one field here.
use polymarket_btc_15min_bac.Base.{
  ℕ, ◌+◌, ◌-◌, Bool, not, ◌&&◌, ◌||◌, Option, none, some, List, [], ◌∷◌, ◌++◌, map, sum_by, any_of,
  max, ltb, ◌==◌, if◌then◌else◌, Result, ok, err, is_some,
}
use polymarket_btc_15min_bac.Models.{Side, buy, sell}
use polymarket_btc_15min_bac.Fees.{notional_scaled}
use polymarket_btc_15min_bac.Realism.{ExecutionOutcome, FillSlice}
use polymarket_btc_15min_bac.OptimalExecution.State.{
  Ladder, ExecutionPlan, ExecutionState, ExecutionError, state_error, first_error, exceeds,
  decide_backwards, sell_without_inventory, no_pending, wrong_size, wrong_decision, early_arrival,
  late_fill, wrong_shares, wrong_notional, wrong_fees, over_child, over_parent, over_cash,
  over_inventory, negative_cash, outstanding, bad_fill,
}
use polymarket_btc_15min_bac.OptimalExecution.Policy.{
  ExecutionAction, wait, taker_slice, child_outstanding, previous_child_not_arrived, is_sell,
}
use polymarket_btc_15min_bac.OptimalExecution.Cursor.{VolumeCursor, advance}
use polymarket_btc_15min_bac.OptimalExecution.Objective.{
  ExecutionFill, ExecutionObjectiveResult, shares_of_fills, evaluate_execution_objective,
}

pub record Session : Type 0 where
  pub plan : ExecutionPlan
  pub volume_cursor : VolumeCursor
  pub cash_scaled : ℕ
  pub inventory_shares_scaled : ℕ
  pub filled_shares_scaled : ℕ
  pub fills : List ExecutionFill
  pub last_action_utc_ns : Option ℕ
  pub last_decision_utc_ns : Option ℕ
  pub next_decision_not_before_utc_ns : ℕ
  pub pending : Option (ExecutionAction × ℕ)

-- `__init__`
unfoldable pub session : ExecutionPlan → VolumeCursor → ℕ → ℕ → Result ExecutionError Session
session plan cursor cash inventory =
    if is_sell plan.side && ltb inventory plan.target_shares_scaled
    then err sell_without_inventory
    else ok (record {
      plan = plan;
      volume_cursor = cursor;
      cash_scaled = cash;
      inventory_shares_scaled = inventory;
      filled_shares_scaled = 0;
      fills = [];
      last_action_utc_ns = none;
      last_decision_utc_ns = none;
      next_decision_not_before_utc_ns = plan.start_utc_ns;
      pending = none;
    })

abbrev pub remaining_of : Session → ℕ
remaining_of s = s.plan.target_shares_scaled - s.filled_shares_scaled

-- What a caller of `decide` shows of the market.
pub record MarketView : Type 0 where
  pub now_utc_ns : ℕ
  pub bids : Ladder
  pub asks : Ladder
  pub minimum_order_size_scaled : ℕ
  pub current_reference_price_scaled : Option ℕ

-- The state that the policy sees.
abbrev pub state_of : MarketView → ℕ → Session → ExecutionState
state_of view volume s = record {
  plan = s.plan;
  now_utc_ns = view.now_utc_ns;
  filled_shares_scaled = s.filled_shares_scaled;
  inventory_shares_scaled = s.inventory_shares_scaled;
  available_cash_scaled = s.cash_scaled;
  bids = view.bids;
  asks = view.asks;
  observed_market_volume_scaled = volume;
  minimum_order_size_scaled = view.minimum_order_size_scaled;
  last_action_utc_ns = s.last_action_utc_ns;
  current_reference_price_scaled = view.current_reference_price_scaled;
}

-- The action, with the child noted.
abbrev pub noted : ℕ → ExecutionAction → Session → Result ExecutionError ExecutionAction × Session
noted now (wait reason) s = (ok (wait reason), s)
noted now (taker_slice size limit reason) s = (
  ok (taker_slice size limit reason),
  record s { pending = some (taker_slice size limit reason, now); last_action_utc_ns = some now },
)

-- The policy's decision on a state, which raises if its checks fail.
abbrev pub decided :
    (ExecutionState → ExecutionAction)
    → ExecutionState
    → Option ExecutionError
    → Session
    → Result ExecutionError ExecutionAction × Session
decided policy state none s = noted state.now_utc_ns (policy state) s
decided policy state (some e) s = (err e, s)

-- `decide` after the cursor was advanced: the session that comes in has its new cursor.
abbrev pub decide_at :
    (ExecutionState → ExecutionAction)
    → MarketView
    → Result ExecutionError ℕ
    → Session
    → Session
    → Result ExecutionError ExecutionAction × Session
decide_at policy view (err e) old s = (err e, old)
decide_at policy view (ok volume) old s =
    if is_some s.pending
    then (ok (wait child_outstanding), s)
    else if ltb view.now_utc_ns s.next_decision_not_before_utc_ns
    then (ok (wait previous_child_not_arrived), s)
    else decided policy (state_of view volume s) (state_error (state_of view volume s)) s

-- `decide`
unfoldable pub decide :
    (ExecutionState → ExecutionAction)
    → MarketView
    → Session
    → Result ExecutionError ExecutionAction × Session
unfolding advance
decide policy view s =
    let advanced = advance view.now_utc_ns s.volume_cursor in
    if exceeds s.last_decision_utc_ns view.now_utc_ns
    then (err decide_backwards, s)
    else decide_at policy view advanced.0 s
        (record s { volume_cursor = advanced.1; last_decision_utc_ns = some view.now_utc_ns })

-- `action.requested_shares_scaled`
abbrev pub requested_of : ExecutionAction → ℕ
requested_of (wait reason) = 0
requested_of (taker_slice size limit reason) = size

-- `_complete_pending`
unfoldable pub complete_pending : ℕ → Session → Session
complete_pending arrival s = record s {
  next_decision_not_before_utc_ns = max s.next_decision_not_before_utc_ns arrival;
  pending = none;
}

-- The account after a trade.
abbrev pub traded : List ExecutionFill → ℕ → ℕ → Session → Session
traded fills cash inventory s = record s {
  cash_scaled = cash;
  inventory_shares_scaled = inventory;
  filled_shares_scaled = s.filled_shares_scaled + shares_of_fills fills;
  fills = s.fills ++ fills;
}

abbrev pub pay : Side → List ExecutionFill → ℕ → ℕ → Session → Result ExecutionError Session
pay buy fills notional fee s =
    if ltb s.cash_scaled (notional + fee)
    then err over_cash
    else ok (
        traded fills (s.cash_scaled - (notional + fee))
          (s.inventory_shares_scaled + shares_of_fills fills) s)
pay sell fills notional fee s =
    if ltb s.inventory_shares_scaled (shares_of_fills fills)
    then err over_inventory
    else if ltb (s.cash_scaled + notional) fee
    then err negative_cash
    else ok (
        traded fills (s.cash_scaled + notional - fee)
          (s.inventory_shares_scaled - shares_of_fills fills) s)

-- `_apply_fills`, for a pending child that requested `requested` shares.
unfoldable pub apply_fills :
    ℕ → List ExecutionFill → ℕ → ℕ → Session → Result ExecutionError Session
apply_fills requested fills notional fee s =
    if ltb requested (shares_of_fills fills)
    then err over_child
    else if ltb (remaining_of s) (shares_of_fills fills)
    then err over_parent
    else pay s.plan.side fills notional fee s

-- The session after a call, which is the one before it if the call raised.
abbrev pub concluded :
    ℕ → Result ExecutionError Session → Session → Result ExecutionError Unit × Session
concluded arrival (ok s) old = (ok tt, complete_pending arrival s)
concluded arrival (err e) old = (err e, old)

-- `ExecutionFill.__post_init__` on naturals
abbrev pub is_bad_fill : ExecutionFill → Bool
is_bad_fill f = (f.shares_scaled == 0) || (f.price_scaled == 0)

abbrev pub fills_at : ℕ → List FillSlice → List ExecutionFill
fills_at arrival = map (λ (s : FillSlice). record {
  timestamp_utc_ns = arrival;
  shares_scaled = s.size_scaled;
  price_scaled = s.price_scaled;
  fee_scaled = s.fee_scaled;
})

abbrev pub fills_of_outcome : ExecutionOutcome → List ExecutionFill
fills_of_outcome outcome = fills_at outcome.arrival_utc_ns outcome.slices

abbrev pub outcome_checks :
    ExecutionPlan → ExecutionAction → ℕ → ExecutionOutcome → List (Bool × ExecutionError)
outcome_checks plan action decision o =
    (not (o.requested_shares_scaled == requested_of action), wrong_size)
    ∷ (not (o.decision_utc_ns == decision), wrong_decision)
    ∷ (ltb o.arrival_utc_ns decision, early_arrival)
    ∷ (ltb plan.deadline_utc_ns o.arrival_utc_ns && ltb 0 o.filled_shares_scaled, late_fill)
    ∷ (
      not (sum_by (λ (s : FillSlice). s.size_scaled) o.slices == o.filled_shares_scaled),
      wrong_shares,
    )
    ∷ (not (sum_by (λ (s : FillSlice). s.notional) o.slices == o.notional_scaled), wrong_notional)
    ∷ (not (sum_by (λ (s : FillSlice). s.fee_scaled) o.slices == o.fees_scaled), wrong_fees)
    ∷ (any_of is_bad_fill (fills_of_outcome o), bad_fill)
    ∷ []

-- The checks of an outcome against the pending child, before its fills are applied.
unfoldable pub outcome_error :
    ExecutionPlan → ExecutionAction → ℕ → ExecutionOutcome → Option ExecutionError
outcome_error plan action decision o = first_error (outcome_checks plan action decision o)

-- Raise what the checks found, or apply the fills and complete the child.
abbrev pub settle_child :
    Option ExecutionError
    → ExecutionAction
    → List ExecutionFill
    → ℕ
    → ℕ
    → ℕ
    → Session
    → Result ExecutionError Unit × Session
settle_child (some e) action fills notional fee arrival s = (err e, s)
settle_child none action fills notional fee arrival s =
    concluded arrival (apply_fills (requested_of action) fills notional fee s) s

abbrev pub record_outcome_of :
    Option (ExecutionAction × ℕ) → ExecutionOutcome → Session → Result ExecutionError Unit × Session
record_outcome_of none o s = (err no_pending, s)
record_outcome_of (some (action, decision)) o s =
    settle_child (outcome_error s.plan action decision o) action (fills_of_outcome o)
      o.notional_scaled o.fees_scaled o.arrival_utc_ns s

-- `record_outcome`
unfoldable pub record_outcome : ExecutionOutcome → Session → Result ExecutionError Unit × Session
unfolding outcome_error apply_fills complete_pending
record_outcome o s = record_outcome_of s.pending o s

abbrev pub fill_error : ExecutionPlan → ℕ → ExecutionFill → Option ExecutionError
fill_error plan decision f =
    if ltb f.timestamp_utc_ns decision
    then some early_arrival
    else if ltb plan.deadline_utc_ns f.timestamp_utc_ns
    then some late_fill
    else none

abbrev pub record_fill_of :
    Option (ExecutionAction × ℕ) → ExecutionFill → Session → Result ExecutionError Unit × Session
record_fill_of none f s = (err no_pending, s)
record_fill_of (some (action, decision)) f s =
    settle_child (fill_error s.plan decision f) action (f ∷ [])
      (notional_scaled f.shares_scaled f.price_scaled) f.fee_scaled f.timestamp_utc_ns s

-- `record_fill`
unfoldable pub record_fill : ExecutionFill → Session → Result ExecutionError Unit × Session
unfolding apply_fills complete_pending
record_fill f s = record_fill_of s.pending f s

abbrev pub record_no_fill_of :
    Option (ExecutionAction × ℕ) → ℕ → Session → Result ExecutionError Unit × Session
record_no_fill_of none arrival s = (err no_pending, s)
record_no_fill_of (some (action, decision)) arrival s =
    if ltb arrival decision then (err early_arrival, s) else (ok tt, complete_pending arrival s)

-- `record_no_fill`
unfoldable pub record_no_fill : ℕ → Session → Result ExecutionError Unit × Session
unfolding complete_pending
record_no_fill arrival s = record_no_fill_of s.pending arrival s

-- `evaluate`
unfoldable pub evaluate : ℕ → Option ℕ → Session → Result ExecutionError ExecutionObjectiveResult
unfolding evaluate_execution_objective
evaluate evaluation mark s =
    if is_some s.pending
    then err outstanding
    else evaluate_execution_objective s.plan s.fills evaluation mark
