-- ===== src/Realism.antt =====
-- Execution realism for taker orders, src/polymarket_bt/backtest/realism.py: `TakerExecutor.execute`
-- on a depth ladder, best level first. Sampling a latency and reading the configuration are left out.
-- A bound below zero is 0 here, which no price is under.
pub mod Sweep
pub mod Reasons
use polymarket_btc_15min_bac.Base.{
  ℕ, zero, suc, ◌+◌, ◌-◌, ◌*◌, ◌/◌, Bool, true, false, not, ◌&&◌, ◌||◌, Option, none, some, List,
  [], ◌∷◌, ltb, leb, ◌==◌, if◌then◌else◌, sum_by, min, max, take, length, ℤ, pos, ◌-ℤ◌,
}
use polymarket_btc_15min_bac.Models.{Side, buy, sell}
use polymarket_btc_15min_bac.Fees.{FeeModel, calculate, notional_scaled}

abbrev pub ppm_scale : ℕ
ppm_scale = 1_000_000

pub record ExecutionRealism : Type 0 where
  pub displayed_depth_haircut_ppm : ℕ
  pub max_level_participation_ppm : ℕ
  pub max_levels_swept : Option ℕ
  pub volume_participation_ppm : Option ℕ
  pub stale_book_max_age_ms : Option ℕ
  pub max_ticks_through_touch : Option ℕ
  pub max_price_through_touch_scaled : Option ℕ
  pub fee_model : FeeModel

-- One consumed price level.
pub record FillSlice : Type 0 where
  pub price_scaled : ℕ
  pub size_scaled : ℕ
  pub notional : ℕ
  pub fee_scaled : ℕ
  pub level_rank : ℕ

-- What cut an order short.
pub data Constraint : Type 0 where
  limit_price max_price_through_touch no_recent_public_volume volume_participation : Constraint
  max_levels_swept_hit displayed_depth_haircut book_depth_exhausted cash_budget : Constraint

pub data RejectedReason : Type 0 where
  non_positive_size empty_book_side below_minimum_order_size stale_book no_executable_liquidity :
      RejectedReason
  bound_by : Constraint → RejectedReason
  parent_deadline_elapsed market_closed_at_arrival insufficient_available_cash : RejectedReason
  no_book_at_arrival book_state_uncertain partial_entry_disallowed : RejectedReason
  insufficient_cash_including_fees : RejectedReason

pub record ExecutionOutcome : Type 0 where
  pub requested_shares_scaled : ℕ
  pub filled_shares_scaled : ℕ
  pub notional_scaled : ℕ
  pub fees_scaled : ℕ
  pub slices : List FillSlice
  pub rejected_reason : Option RejectedReason
  pub binding_constraint : Option Constraint
  pub arrival_utc_ns : ℕ
  pub decision_utc_ns : ℕ
  pub reference_price_scaled : Option ℕ
  pub side_is_buy : Bool

-- The arguments of `execute` but the ladder.
pub record TakerOrder : Type 0 where
  pub side : Side
  pub requested_shares_scaled : ℕ
  pub limit_price_scaled : Option ℕ
  pub reference_price_scaled : Option ℕ
  pub realised_volume_scaled : Option ℕ
  pub decision_utc_ns : ℕ
  pub arrival_utc_ns : ℕ
  pub book_age_ns : ℕ
  pub minimum_order_size_scaled : ℕ
  pub tick_size_scaled : ℕ

-- `average_price_scaled` and `slippage_scaled`
unfoldable pub average_price : ExecutionOutcome → Option ℕ
average_price outcome =
    if outcome.filled_shares_scaled == 0
    then none
    else some (
        sum_by (λ (s : FillSlice). s.price_scaled * s.size_scaled) outcome.slices
        / outcome.filled_shares_scaled)

abbrev pub distance : Bool → Option ℕ → Option ℕ → Option ℤ
distance is_buy none reference = none
distance is_buy (some average) none = none
distance true (some average) (some reference) = some (pos average -ℤ pos reference)
distance false (some average) (some reference) = some (pos reference -ℤ pos average)

unfoldable pub slippage : ExecutionOutcome → Option ℤ
unfolding average_price
slippage outcome =
    distance outcome.side_is_buy (average_price outcome) outcome.reference_price_scaled

-- The tighter of the two bounds on how far to chase the book, if there is one.
abbrev pub slack_of : Option ℕ → Option ℕ → ℕ → Option ℕ
slack_of none none tick = none
slack_of (some ticks) none tick = some (ticks * max tick 1)
slack_of none (some absolute) tick = some absolute
slack_of (some ticks) (some absolute) tick = some (min (ticks * max tick 1) absolute)

abbrev pub bound_at : Side → ℕ → ℕ → ℕ
bound_at buy touch slack = touch + slack
bound_at sell touch slack = touch - slack

abbrev pub tighter_of : Side → ℕ → ℕ → ℕ
tighter_of buy limit bound = min limit bound
tighter_of sell limit bound = max limit bound

abbrev pub combine_limits : Side → Option ℕ → Option ℕ → Option (ℕ × Constraint)
combine_limits side none none = none
combine_limits side (some limit) none = some (limit, limit_price)
combine_limits side none (some bound) = some (bound, max_price_through_touch)
combine_limits side (some limit) (some bound) = some (
  tighter_of side limit bound,
  if tighter_of side limit bound == limit then limit_price else max_price_through_touch,
)

abbrev pub bound_of : Side → ℕ → Option ℕ → Option ℕ
bound_of side touch none = none
bound_of side touch (some slack) = some (bound_at side touch slack)

-- `_effective_limit`: the worst price the order may accept, with the rule that set it.
unfoldable pub effective_limit : ExecutionRealism → TakerOrder → ℕ → Option (ℕ × Constraint)
effective_limit realism order touch = combine_limits order.side order.limit_price_scaled (
    bound_of order.side touch (
      slack_of realism.max_ticks_through_touch realism.max_price_through_touch_scaled
        order.tick_size_scaled))

abbrev pub flow_cap : Option ℕ → Option ℕ → ℕ → Option ℕ
flow_cap none volume minimum = none
flow_cap (some participation) none minimum = none
flow_cap (some participation) (some volume) minimum =
    some (max (volume * participation / max (ppm_scale - participation) 1) minimum)

-- `_volume_cap`
unfoldable pub volume_cap : ExecutionRealism → TakerOrder → Option ℕ
volume_cap realism order =
    flow_cap realism.volume_participation_ppm order.realised_volume_scaled
      order.minimum_order_size_scaled

-- How the walk of the ladder ends: the slices, what is left and what cut it short.
pub record Walked : Type 0 where
  pub slices : List FillSlice
  pub remaining : ℕ
  pub hit_limit : Bool
  pub cut_by_depth : Bool
  pub cut_by_volume : Bool

-- What of a level an order may take.
unfoldable pub allowed_of : ExecutionRealism → ℕ → ℕ
allowed_of realism displayed =
    min (displayed * (ppm_scale - realism.displayed_depth_haircut_ppm) / ppm_scale)
      (displayed * realism.max_level_participation_ppm / ppm_scale)

abbrev pub is_beyond : Side → Option (ℕ × Constraint) → ℕ → Bool
is_beyond side none price = false
is_beyond buy (some (limit, source)) price = ltb limit price
is_beyond sell (some (limit, source)) price = ltb price limit

abbrev pub under_cap : Option ℕ → ℕ → ℕ → ℕ
under_cap none consumed wanted = wanted
under_cap (some cap) consumed wanted =
    if ltb (cap - consumed) wanted then cap - consumed else wanted

abbrev pub is_over_cap : Option ℕ → ℕ → ℕ → Bool
is_over_cap none consumed wanted = false
is_over_cap (some cap) consumed wanted = ltb (cap - consumed) wanted

abbrev pub is_spent : Option ℕ → ℕ → Bool
is_spent none consumed = false
is_spent (some cap) consumed = leb cap consumed

abbrev pub stopped : ℕ → Bool → Walked
stopped remaining hit = record {
  slices = [];
  remaining = remaining;
  hit_limit = hit;
  cut_by_depth = false;
  cut_by_volume = false;
}

abbrev pub flagged : Bool → Bool → Walked → Walked
flagged depth volume w = record w {
  cut_by_depth = depth || w.cut_by_depth;
  cut_by_volume = volume || w.cut_by_volume;
}

abbrev pub with_slice : FillSlice → Walked → Walked
with_slice s w = record w { slices = s ∷ w.slices }

abbrev pub slice_of : FeeModel → ℕ → ℕ → ℕ → FillSlice
slice_of fees rank price size = record {
  price_scaled = price;
  size_scaled = size;
  notional = notional_scaled size price;
  fee_scaled = calculate fees size price;
  level_rank = rank;
}

-- The loop over the levels from the one of rank `rank`.
unfoldable pub walk :
    ExecutionRealism → Side → Option (ℕ × Constraint) → Option ℕ → ℕ → ℕ → ℕ → List (ℕ × ℕ) → Walked
unfolding allowed_of
walk realism side limit cap rank remaining consumed [] = stopped remaining false
walk realism side limit cap rank remaining consumed ((price, displayed) ∷ levels) =
    let allowed = allowed_of realism displayed in
    let wanted = min remaining allowed in
    let size = under_cap cap consumed wanted in
    let rest = walk realism side limit cap (suc rank) (remaining - size) (consumed + size) levels in
    if is_beyond side limit price
    then stopped remaining true
    else flagged (ltb allowed remaining) (is_over_cap cap consumed wanted) (
        if size == 0
        then (if is_spent cap consumed then stopped remaining false else rest)
        else with_slice (slice_of realism.fee_model rank price size)
            (if (remaining - size) == 0 then stopped 0 false else rest))

abbrev pub visible : Option ℕ → List (ℕ × ℕ) → List (ℕ × ℕ)
visible none ladder = ladder
visible (some levels) ladder = take levels ladder

abbrev pub hits_level_cap : Option ℕ → List (ℕ × ℕ) → Bool
hits_level_cap none ladder = false
hits_level_cap (some levels) ladder = ltb levels (length ladder)

-- `limit_source or "limit_price"`
abbrev pub source_of : Option (ℕ × Constraint) → Constraint
source_of none = limit_price
source_of (some (limit, source)) = source

-- `not realised_volume_scaled`
abbrev pub is_quiet : Option ℕ → Bool
is_quiet none = true
is_quiet (some volume) = volume == 0

-- What bound an order that is left with some of its size.
unfoldable pub binding_of :
    ExecutionRealism
    → TakerOrder
    → Option (ℕ × Constraint)
    → List (ℕ × ℕ)
    → Walked
    → Option Constraint
binding_of realism order limit ladder w =
    if w.remaining == 0
    then none
    else some (
        if w.hit_limit
        then source_of limit
        else if w.cut_by_volume
        then (if is_quiet order.realised_volume_scaled
            then no_recent_public_volume
            else volume_participation)
        else if hits_level_cap realism.max_levels_swept ladder
        then max_levels_swept_hit
        else if w.cut_by_depth
        then displayed_depth_haircut
        else book_depth_exhausted)

abbrev pub is_buy : Side → Bool
is_buy buy = true
is_buy sell = false

abbrev pub refused : TakerOrder → RejectedReason → ExecutionOutcome
refused order reason = record {
  requested_shares_scaled = order.requested_shares_scaled;
  filled_shares_scaled = 0;
  notional_scaled = 0;
  fees_scaled = 0;
  slices = [];
  rejected_reason = some reason;
  binding_constraint = none;
  arrival_utc_ns = order.arrival_utc_ns;
  decision_utc_ns = order.decision_utc_ns;
  reference_price_scaled = order.reference_price_scaled;
  side_is_buy = is_buy order.side;
}

-- `binding or "no_executable_liquidity"`
abbrev pub reason_of : Option Constraint → RejectedReason
reason_of none = no_executable_liquidity
reason_of (some constraint) = bound_by constraint

-- The outcome of a walk, with what bound it.
unfoldable pub outcome_of : TakerOrder → Option Constraint → List FillSlice → ExecutionOutcome
outcome_of order binding slices =
    let filled = sum_by (λ (s : FillSlice). s.size_scaled) slices in
    if filled == 0
    then refused order (reason_of binding)
    else record (refused order no_executable_liquidity) {
      filled_shares_scaled = filled;
      notional_scaled = sum_by (λ (s : FillSlice). s.notional) slices;
      fees_scaled = sum_by (λ (s : FillSlice). s.fee_scaled) slices;
      slices = slices;
      rejected_reason = none;
      binding_constraint = binding;
    }

abbrev pub is_stale : Option ℕ → ℕ → Bool
is_stale none age = false
is_stale (some milliseconds) age = ltb (milliseconds * 1_000_000) age

-- The walk of an order that passed the checks, on a ladder whose touch is `touch`.
unfoldable pub walk_of : ExecutionRealism → TakerOrder → ℕ → List (ℕ × ℕ) → Walked
unfolding walk effective_limit volume_cap
walk_of realism order touch ladder =
    walk realism order.side (effective_limit realism order touch) (volume_cap realism order) 1
      order.requested_shares_scaled 0 (visible realism.max_levels_swept ladder)

-- `execute`
unfoldable pub execute : ExecutionRealism → TakerOrder → List (ℕ × ℕ) → ExecutionOutcome
unfolding walk_of effective_limit binding_of outcome_of
execute realism order [] =
    refused order
      (if order.requested_shares_scaled == 0 then non_positive_size else empty_book_side)
execute realism order ((touch, displayed) ∷ levels) =
    let ladder = (touch, displayed) ∷ levels in
    let w = walk_of realism order touch ladder in
    if order.requested_shares_scaled == 0
    then refused order non_positive_size
    else if ltb order.requested_shares_scaled order.minimum_order_size_scaled
    then refused order below_minimum_order_size
    else if is_stale realism.stale_book_max_age_ms order.book_age_ns
    then refused order stale_book
    else outcome_of order (binding_of realism order (effective_limit realism order touch) ladder w)
        w.slices
