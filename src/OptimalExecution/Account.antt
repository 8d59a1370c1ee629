-- ===== src/OptimalExecution/Account.antt =====
-- What a session keeps over any sequence of calls.
use polymarket_btc_15min_bac.Base.{
  ℕ, suc, ◌≤◌, ◌≡◌, refl, ◌&&◌, Option, none, some, List, [], ◌∷◌, ltb, Bool-cases, inl, inr, arith,
  Result, ok, err, is_some, err≢ok, ok-injective, sym,
}
use polymarket_btc_15min_bac.Fees.{notional_scaled}
use polymarket_btc_15min_bac.Realism.{ExecutionOutcome}
use polymarket_btc_15min_bac.OptimalExecution.State.{
  ExecutionPlan, ExecutionState, ExecutionError, state_error, exceeds,
}
use polymarket_btc_15min_bac.OptimalExecution.Policy.{ExecutionAction, wait, taker_slice, is_sell}
use polymarket_btc_15min_bac.OptimalExecution.Cursor.{VolumeCursor}
use polymarket_btc_15min_bac.OptimalExecution.Objective.{ExecutionFill, score, evaluate-scored}
use polymarket_btc_15min_bac.OptimalExecution.Session.{
  Session, session, MarketView, state_of, noted, decided, decide_at, decide, fills_of_outcome,
  outcome_error, record_outcome_of, record_outcome, fill_error, record_fill_of, record_fill,
  record_no_fill_of, record_no_fill, evaluate,
}
use polymarket_btc_15min_bac.OptimalExecution.Consistent.{
  IsConsistent, IsAccount-start, settle-IsConsistent, complete-IsConsistent, outcome-IsTimely,
  fill-IsTimely,
}

pub data Call : Type 0 where
  decide_call : MarketView → Call
  outcome_call : ExecutionOutcome → Call
  fill_call : ExecutionFill → Call
  no_fill_call : ℕ → Call

-- The session after a call, which may have raised.
abbrev pub apply : (ExecutionState → ExecutionAction) → Call → Session → Session
apply policy (decide_call view) s = (decide policy view s).1
apply policy (outcome_call o) s = (record_outcome o s).1
apply policy (fill_call f) s = (record_fill f s).1
apply policy (no_fill_call arrival) s = (record_no_fill arrival s).1

abbrev pub run : (ExecutionState → ExecutionAction) → List Call → Session → Session
run policy [] s = s
run policy (c ∷ calls) s = run policy calls (apply policy c s)

module _ (plan : ExecutionPlan) (inventory : ℕ) (policy : ExecutionState → ExecutionAction) where
  noted-IsConsistent :
      (now : ℕ) (action : ExecutionAction) (s : Session)
      → IsConsistent plan inventory s
      → IsConsistent plan inventory (noted now action s).1
  noted-IsConsistent now (wait reason) s h = h
  noted-IsConsistent now (taker_slice size limit reason) s h = h

  decided-IsConsistent :
      (state : ExecutionState) (error : Option ExecutionError) (s : Session)
      → IsConsistent plan inventory s
      → IsConsistent plan inventory (decided policy state error s).1
  decided-IsConsistent state none s h = noted-IsConsistent state.now_utc_ns (policy state) s h
  decided-IsConsistent state (some e) s h = h

  decide_at-IsConsistent :
      (view : MarketView) (r : Result ExecutionError ℕ) (old s : Session)
      → IsConsistent plan inventory old
      → IsConsistent plan inventory s
      → IsConsistent plan inventory (decide_at policy view r old s).1
  decide_at-IsConsistent view (err e) old s h k = h
  decide_at-IsConsistent view (ok volume) old s h k =
      let state = state_of view volume s in
      elim (Bool-cases (is_some s.pending)) [
        | inl out ↦ rw out k
        | inr free ↦
            rw free (elim (Bool-cases (ltb view.now_utc_ns s.next_decision_not_before_utc_ns)) [
              | inl early ↦ rw early k
              | inr ready ↦ rw ready (decided-IsConsistent state (state_error state) s k)
            ])
      ]

  decide-IsConsistent :
      (view : MarketView) (s : Session)
      → IsConsistent plan inventory s
      → IsConsistent plan inventory (decide policy view s).1
  unfolding decide
  decide-IsConsistent view s h =
      elim (Bool-cases (exceeds s.last_decision_utc_ns view.now_utc_ns)) [
        | inl backwards ↦ rw backwards h
        | inr forwards ↦ rw forwards (decide_at-IsConsistent view _ s _ h h)
      ]

  outcome-IsConsistent :
      (pending : Option (ExecutionAction × ℕ)) (o : ExecutionOutcome) (s : Session)
      → IsConsistent plan inventory s
      → IsConsistent plan inventory (record_outcome_of pending o s).1
  outcome-IsConsistent none o s h = h
  outcome-IsConsistent (some (action, decision)) o s h =
      settle-IsConsistent plan inventory (outcome_error s.plan action decision o) action
        (fills_of_outcome o) o.notional_scaled o.fees_scaled o.arrival_utc_ns s
        (λ e. rw (sym h.0) (outcome-IsTimely s.plan action decision o e)) h

  fill-IsConsistent :
      (pending : Option (ExecutionAction × ℕ)) (f : ExecutionFill) (s : Session)
      → IsConsistent plan inventory s
      → IsConsistent plan inventory (record_fill_of pending f s).1
  fill-IsConsistent none f s h = h
  fill-IsConsistent (some (action, decision)) f s h =
      settle-IsConsistent plan inventory (fill_error s.plan decision f) action (f ∷ [])
        (notional_scaled f.shares_scaled f.price_scaled) f.fee_scaled f.timestamp_utc_ns s
        (λ e. rw (sym h.0) (fill-IsTimely s.plan decision f e)) h

  no_fill-IsConsistent :
      (pending : Option (ExecutionAction × ℕ)) (arrival : ℕ) (s : Session)
      → IsConsistent plan inventory s
      → IsConsistent plan inventory (record_no_fill_of pending arrival s).1
  no_fill-IsConsistent none arrival s h = h
  no_fill-IsConsistent (some (action, decision)) arrival s h =
      elim (Bool-cases (ltb arrival decision)) [
        | inl early ↦ rw early h
        | inr later ↦ rw later (complete-IsConsistent plan inventory arrival s h)
      ]

  apply-IsConsistent :
      (c : Call) (s : Session)
      → IsConsistent plan inventory s
      → IsConsistent plan inventory (apply policy c s)
  unfolding record_outcome record_fill record_no_fill
  apply-IsConsistent (decide_call view) s h = decide-IsConsistent view s h
  apply-IsConsistent (outcome_call o) s h = outcome-IsConsistent s.pending o s h
  apply-IsConsistent (fill_call f) s h = fill-IsConsistent s.pending f s h
  apply-IsConsistent (no_fill_call arrival) s h = no_fill-IsConsistent s.pending arrival s h

  -- Over any calls, whatever the policy and whether or not they raise, the shares filled are those of
  -- the recorded fills and within the parent order, no fill is after the deadline, and the inventory is
  -- what it began with and the shares bought, or less the shares sold.
  pub run-IsConsistent :
      (calls : List Call) (s : Session)
      → IsConsistent plan inventory s
      → IsConsistent plan inventory (run policy calls s)
  run-IsConsistent [] s h = h
  run-IsConsistent (c ∷ calls) s h =
      run-IsConsistent calls (apply policy c s) (apply-IsConsistent c s h)

  session-IsConsistent :
      (cursor : VolumeCursor) (cash : ℕ) (s : Session)
      → session plan cursor cash inventory ≡ ok s
      → IsConsistent plan inventory s
  unfolding session
  session-IsConsistent cursor cash s e =
      elim (Bool-cases (is_sell plan.side && ltb inventory plan.target_shares_scaled)) [
        | inl short ↦ elim (err≢ok (rw short at e)) [ ]
        | inr enough ↦
            rw (sym (ok-injective (rw enough at e)))
              (refl, refl, omega arith, tt, IsAccount-start plan.side inventory)
      ]

  -- A session with no child out is always scored, at the deadline or later and with a positive mark: the
  -- errors that the score has for late fills and for fills beyond the parent do not occur.
  pub evaluate-total :
      (cursor : VolumeCursor) (cash : ℕ) (s : Session) (calls : List Call) (evaluation mark : ℕ)
      → session plan cursor cash inventory ≡ ok s
      → (run policy calls s).pending ≡ none
      → plan.deadline_utc_ns ≤ evaluation
      → evaluate evaluation (some (suc mark)) (run policy calls s)
        ≡ ok (score plan (run policy calls s).fills (some (suc mark)))
  unfolding evaluate
  evaluate-total cursor cash s calls evaluation mark made idle late =
      let end = run policy calls s in
      let (same, sum, le, timely, account) =
        run-IsConsistent calls s (session-IsConsistent cursor cash s made) in
      rw (idle, same)
        (evaluate-scored plan end.fills evaluation mark late timely (omega (arith, sum, le)))
