-- ===== src/OptimalExecution/Handoff.antt =====
-- The outcomes that `TakerExecutor.execute` hands to `record_outcome`.
use polymarket_btc_15min_bac.Base.{
  ℕ, suc, ◌≤◌, ◌<◌, ◌≡◌, refl, sym, ◌∙◌, Bool, false, not, ◌||◌, Option, none, List, [], ◌∷◌,
  sum_by, All, any_of, ltb, ◌==◌, Bool-cases, inl, inr, arith, le→ltb-false,
}
use polymarket_btc_15min_bac.Models.{Side}
use polymarket_btc_15min_bac.Realism.{
  ExecutionRealism, TakerOrder, ExecutionOutcome, FillSlice, Constraint, execute, outcome_of,
  effective_limit, is_stale,
}
use polymarket_btc_15min_bac.Realism.Sweep.{Takes, execute-IsFaithful}
use polymarket_btc_15min_bac.OptimalExecution.State.{ExecutionPlan, ExecutionError, first_error}
use polymarket_btc_15min_bac.OptimalExecution.Policy.{ExecutionAction}
use polymarket_btc_15min_bac.OptimalExecution.Session.{
  requested_of, outcome_error, outcome_checks, fills_at, is_bad_fill,
}

-- An outcome repeats the order's size and times.
abbrev IsEcho : TakerOrder → ExecutionOutcome → Type 0
IsEcho order o =
    (o.requested_shares_scaled ≡ order.requested_shares_scaled)
    × (o.decision_utc_ns ≡ order.decision_utc_ns)
    × (o.arrival_utc_ns ≡ order.arrival_utc_ns)

outcome_of-IsEcho :
    (order : TakerOrder) (binding : Option Constraint) (slices : List FillSlice)
    → IsEcho order (outcome_of order binding slices)
unfolding outcome_of
outcome_of-IsEcho order binding slices =
    elim (Bool-cases (sum_by (λ (s : FillSlice). s.size_scaled) slices == 0)) [
      | inl nothing ↦ rw nothing (refl, refl, refl)
      | inr something ↦ rw something (refl, refl, refl)
    ]

execute-IsEcho :
    (realism : ExecutionRealism) (order : TakerOrder) (ladder : List (ℕ × ℕ))
    → IsEcho order (execute realism order ladder)
unfolding execute
execute-IsEcho realism order [] = (refl, refl, refl)
execute-IsEcho realism order ((touch, displayed) ∷ levels) =
    elim (Bool-cases (order.requested_shares_scaled == 0)) [
      | inl empty ↦ rw empty (refl, refl, refl)
      | inr sized ↦
          rw sized
            (elim (Bool-cases (ltb order.requested_shares_scaled order.minimum_order_size_scaled)) [
              | inl small ↦ rw small (refl, refl, refl)
              | inr enough ↦
                  rw enough
                    (elim (Bool-cases (is_stale realism.stale_book_max_age_ms order.book_age_ns)) [
                      | inl stale ↦ rw stale (refl, refl, refl)
                      | inr fresh ↦ rw fresh (outcome_of-IsEcho order _ _)
                    ])
            ])
    ]

abbrev pub IsPriced : List (ℕ × ℕ) → Type 0
IsPriced = All (λ (level : ℕ × ℕ). 0 < level.0)

good_slice : (size price : ℕ) → 0 < size → 0 < price → ((size == 0) || (price == 0)) ≡ false
good_slice size price p q =
    let a : (size == 0) ≡ false = ground arith in
    let b : (price == 0) ≡ false = ground arith in rw (a, b) refl

Takes-good :
    (realism : ExecutionRealism) (side : Side) (limit : Option (ℕ × Constraint)) (arrival rank : ℕ)
    (ladder : List (ℕ × ℕ)) (slices : List FillSlice)
    → IsPriced ladder
    → Takes realism side limit rank ladder slices
    → any_of is_bad_fill (fills_at arrival slices) ≡ false
Takes-good realism side limit arrival rank [] slices priced h = rw h refl
Takes-good realism side limit arrival rank (level ∷ levels) slices (p, ps) (inl h) =
    Takes-good realism side limit arrival (suc rank) levels slices ps h
Takes-good realism side limit arrival rank ((price, displayed) ∷ levels) slices (p, ps)
      (inr (size, rest, e, sized, reach, within, h)) =
    let good = good_slice size price sized p in
    let ih = Takes-good realism side limit arrival (suc rank) levels rest ps h in rw (e, good) ih

first_error-passed :
    (checks : List (Bool × ExecutionError))
    → All (λ (c : Bool × ExecutionError). c.0 ≡ false) checks
    → first_error checks ≡ none
first_error-passed [] h = refl
first_error-passed ((failed, error) ∷ checks) (p, ps) = rw p (first_error-passed checks ps)

same-passes : (a b : ℕ) → a ≡ b → not (a == b) ≡ false
same-passes a b e = rw e (ground arith)

-- An outcome of the executor, for an order that has the pending child's size and decision time, that does
-- not arrive before its decision or after the parent's deadline, and on a ladder of positive prices,
-- passes the checks that `record_outcome` makes on the outcome itself, and its slices come to no more
-- than the child. Whether the cash, the inventory and the parent bear the fills is checked after
-- that, and not stated here.
pub execute-accepted :
    (plan : ExecutionPlan) (action : ExecutionAction) (realism : ExecutionRealism)
    (order : TakerOrder) (touch displayed : ℕ) (levels : List (ℕ × ℕ))
    → order.requested_shares_scaled ≡ requested_of action
    → order.decision_utc_ns ≤ order.arrival_utc_ns
    → order.arrival_utc_ns ≤ plan.deadline_utc_ns
    → IsPriced ((touch, displayed) ∷ levels)
    → outcome_error plan action order.decision_utc_ns
          (execute realism order ((touch, displayed) ∷ levels))
        ≡ none
      × (sum_by
            (λ (s : FillSlice). s.size_scaled)
            (execute realism order ((touch, displayed) ∷ levels)).slices
          ≤ requested_of action)
unfolding outcome_error
execute-accepted plan action realism order touch displayed levels size before late priced =
    let ladder : List (ℕ × ℕ) = (touch, displayed) ∷ levels in
    let o : ExecutionOutcome = execute realism order ladder in
    let (requested, decision, arrival) = execute-IsEcho realism order ladder in
    let (most, filled, notional, fees, under, takes) =
      execute-IsFaithful realism order touch displayed levels in
    let in_time : ltb plan.deadline_utc_ns o.arrival_utc_ns ≡ false =
      le→ltb-false _ _ (omega (arith, arrival, late)) in
    (
      first_error-passed (outcome_checks plan action order.decision_utc_ns o) (
        same-passes _ _ (requested ∙ size),
        (
          same-passes _ _ decision,
          (
            le→ltb-false _ _ (omega (arith, arrival, before)),
            (
              rw in_time refl,
              (
                same-passes _ _ (sym filled),
                (
                  same-passes _ _ (sym notional),
                  (
                    same-passes _ _ (sym fees),
                    (
                      Takes-good realism order.side (effective_limit realism order touch)
                          o.arrival_utc_ns 1 ladder o.slices priced takes,
                      tt,
                    ),
                  ),
                ),
              ),
            ),
          ),
        ),
      ),
      omega (arith, most, filled, size),
    )
