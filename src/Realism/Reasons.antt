-- ===== src/Realism/Reasons.antt =====
-- Why an order of src/polymarket_bt/backtest/realism.py was not filled, or not in full.
use polymarket_btc_15min_bac.Base.{
  ℕ, ◌+◌, ◌<◌, ◌≡◌, ◌≢◌, refl, true, Option, none, some, List, ◌∷◌, ltb, ◌==◌, Bool-cases, inl, inr,
  arith, ==_iff, is_some,
}
use polymarket_btc_15min_bac.Realism.{
  ExecutionRealism, Constraint, RejectedReason, no_executable_liquidity, TakerOrder,
  effective_limit, volume_cap, Walked, visible, binding_of, reason_of, outcome_of, is_stale,
  walk_of, execute,
}
use polymarket_btc_15min_bac.Realism.Sweep.{total_size, walk-IsWalk}

-- A filled order has no binding constraint just when it is filled in full; a rejected one is filled
-- by nothing, and some check or some constraint is named.
abbrev pub IsExplained : ℕ → Option RejectedReason → Option Constraint → ℕ → Type 0
IsExplained requested none binding filled = (0 < filled) × (is_some binding ≡ ltb filled requested)
IsExplained requested (some reason) binding filled =
    (filled ≡ 0) × (reason ≢ no_executable_liquidity)

binding_of-filled :
    (realism : ExecutionRealism) (order : TakerOrder) (limit : Option (ℕ × Constraint))
    (ladder : List (ℕ × ℕ)) (w : Walked)
    → is_some (binding_of realism order limit ladder w) ≡ ltb 0 w.remaining
unfolding binding_of
binding_of-filled realism order limit ladder w = elim (Bool-cases (w.remaining == 0)) [
  | inl done ↦ rw done (rw ((==_iff w.remaining 0).0 done) refl)
  | inr left ↦ rw left (ground arith)
]

reason_of-named : (o : Option Constraint) → is_some o ≡ true → reason_of o ≢ no_executable_liquidity
reason_of-named none h e = cc
reason_of-named (some c) h e = cc

outcome_of-IsExplained :
    (order : TakerOrder) (binding : Option Constraint) (w : Walked)
    → 0 < order.requested_shares_scaled
    → total_size w.slices + w.remaining ≡ order.requested_shares_scaled
    → is_some binding ≡ ltb 0 w.remaining
    → let o = outcome_of order binding w.slices in
      IsExplained order.requested_shares_scaled o.rejected_reason o.binding_constraint
        o.filled_shares_scaled
unfolding outcome_of
outcome_of-IsExplained order binding w h sum whole = elim (Bool-cases (total_size w.slices == 0)) [
  | inl nothing ↦ rw nothing (refl, reason_of-named binding (rw whole (ground arith)))
  | inr something ↦ rw something (ground arith, rw whole (ground arith))
]

-- An order on a ladder that is not empty is either filled in part or in full, and then a constraint is
-- named just when the fill is partial, or it is rejected with nothing filled and for a definite
-- reason: the fallback of no executable liquidity never occurs.
pub execute-IsExplained :
    (realism : ExecutionRealism) (order : TakerOrder) (touch displayed : ℕ) (levels : List (ℕ × ℕ))
    → let o = execute realism order ((touch, displayed) ∷ levels) in
      IsExplained order.requested_shares_scaled o.rejected_reason o.binding_constraint
        o.filled_shares_scaled
unfolding execute walk_of
execute-IsExplained realism order touch displayed levels =
    let ladder : List (ℕ × ℕ) = (touch, displayed) ∷ levels in
    let limit = effective_limit realism order touch in
    let w = walk_of realism order touch ladder in
    elim (Bool-cases (order.requested_shares_scaled == 0)) [
      | inl empty ↦ rw empty (refl, λ e. cc)
      | inr sized ↦
          rw sized
            (elim (Bool-cases (ltb order.requested_shares_scaled order.minimum_order_size_scaled)) [
              | inl small ↦ rw small (refl, λ e. cc)
              | inr enough ↦
                  rw enough
                    (elim (Bool-cases (is_stale realism.stale_book_max_age_ms order.book_age_ns)) [
                      | inl stale ↦ rw stale (refl, λ e. cc)
                      | inr fresh ↦ rw fresh (
                          outcome_of-IsExplained order (binding_of realism order limit ladder w) w
                            (ground arith)
                            (walk-IsWalk realism order.side limit (volume_cap realism order)
                              (visible realism.max_levels_swept ladder) 1
                              order.requested_shares_scaled 0).0
                            (binding_of-filled realism order limit ladder w))
                    ])
            ])
    ]
