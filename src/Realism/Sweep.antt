-- ===== src/Realism/Sweep.antt =====
-- The walk of the ladder and the outcome that `TakerExecutor.execute` of
-- src/polymarket_bt/backtest/realism.py reports.
use polymarket_btc_15min_bac.Base.{
  ℕ, zero, suc, ◌+◌, ◌-◌, ◌≤◌, ◌<◌, ◌≡◌, refl, sym, Bool, true, false, Option, none, some, List, [],
  ◌∷◌, ltb, ◌==◌, sum_by, min, take, Bool-cases, inl, inr, arith, ◌⊎◌, ==_iff,
}
use polymarket_btc_15min_bac.Models.{Side}
use polymarket_btc_15min_bac.Realism.{
  ExecutionRealism, FillSlice, Constraint, RejectedReason, non_positive_size,
  below_minimum_order_size, stale_book, ExecutionOutcome, TakerOrder, effective_limit, volume_cap,
  Walked, allowed_of, is_beyond, under_cap, is_spent, stopped, with_slice, slice_of, walk, visible,
  refused, reason_of, outcome_of, is_stale, walk_of, execute,
}

abbrev pub total_size : List FillSlice → ℕ
total_size = sum_by (λ (s : FillSlice). s.size_scaled)

-- The price is no worse than the limit.
unfoldable pub IsWithinLimit : Side → Option (ℕ × Constraint) → ℕ → Type 0
IsWithinLimit side limit price = is_beyond side limit price ≡ false

is_beyond-IsWithinLimit :
    (side : Side) (limit : Option (ℕ × Constraint)) (price : ℕ)
    → is_beyond side limit price ≡ false
    → IsWithinLimit side limit price
unfolding IsWithinLimit
is_beyond-IsWithinLimit side limit price h = h

-- The slices come from levels of the ladder in its order, the first of which has rank `rank`: at most
-- one of each, at its price and within the limit, not empty, no larger than the level's reachable part,
-- with the notional and the fee of its size.
abbrev pub Takes :
    ExecutionRealism → Side → Option (ℕ × Constraint) → ℕ → List (ℕ × ℕ) → List FillSlice → Type 0
Takes realism side limit rank [] slices = slices ≡ []
Takes realism side limit rank ((price, displayed) ∷ levels) slices =
    Takes realism side limit (suc rank) levels slices
    ⊎ ((size : ℕ) × (rest : List FillSlice) × (slices
          ≡ slice_of realism.fee_model rank price size ∷ rest)
        × (0 < size)
        × (size ≤ allowed_of realism displayed)
        × IsWithinLimit side limit price
        × Takes realism side limit (suc rank) levels rest)

abbrev pub IsUnderCap : Option ℕ → ℕ → ℕ → Type 0
IsUnderCap none consumed filled = Unit
IsUnderCap (some cap) consumed filled = filled ≤ cap - consumed

-- What holds of a walk from `remaining` shares, `consumed` of them being taken already.
abbrev pub IsWalk :
    ExecutionRealism
    → Side
    → Option (ℕ × Constraint)
    → Option ℕ
    → ℕ
    → ℕ
    → ℕ
    → List (ℕ × ℕ)
    → Walked
    → Type 0
IsWalk realism side limit cap rank remaining consumed ladder w =
    (total_size w.slices + w.remaining ≡ remaining)
    × IsUnderCap cap consumed (total_size w.slices)
    × Takes realism side limit rank ladder w.slices

under_cap-le : (cap : Option ℕ) (consumed wanted : ℕ) → under_cap cap consumed wanted ≤ wanted
under_cap-le none consumed wanted = omega arith
under_cap-le (some cap) consumed wanted = ground arith

under_cap-IsUnderCap :
    (cap : Option ℕ) (consumed wanted : ℕ) → IsUnderCap cap consumed (under_cap cap consumed wanted)
under_cap-IsUnderCap none consumed wanted = tt
under_cap-IsUnderCap (some cap) consumed wanted = ground arith

IsUnderCap-zero : (cap : Option ℕ) (consumed : ℕ) → IsUnderCap cap consumed 0
IsUnderCap-zero none consumed = tt
IsUnderCap-zero (some cap) consumed = omega arith

IsUnderCap-add :
    (cap : Option ℕ) (consumed size filled : ℕ)
    → IsUnderCap cap consumed size
    → IsUnderCap cap (consumed + size) filled
    → IsUnderCap cap consumed (size + filled)
IsUnderCap-add none consumed size filled h k = tt
IsUnderCap-add (some cap) consumed size filled h k = omega arith

IsUnderCap-later :
    (cap : Option ℕ) (consumed size filled : ℕ)
    → IsUnderCap cap (consumed + size) filled
    → IsUnderCap cap consumed filled
IsUnderCap-later none consumed size filled h = tt
IsUnderCap-later (some cap) consumed size filled h = omega arith

module _ (realism : ExecutionRealism) (side : Side) (limit : Option (ℕ × Constraint)) where
  Takes-nil : (rank : ℕ) (ladder : List (ℕ × ℕ)) → Takes realism side limit rank ladder []
  Takes-nil rank [] = refl
  Takes-nil rank (level ∷ levels) = inl (Takes-nil (suc rank) levels)

  Takes-take :
      (n rank : ℕ) (ladder : List (ℕ × ℕ)) (slices : List FillSlice)
      → Takes realism side limit rank (take n ladder) slices
      → Takes realism side limit rank ladder slices
  Takes-take zero rank ladder slices h = rw h (Takes-nil rank ladder)
  Takes-take (suc n) rank [] slices h = h
  Takes-take (suc n) rank (level ∷ levels) slices (inl h) =
      inl (Takes-take n (suc rank) levels slices h)
  Takes-take (suc n) rank (level ∷ levels) slices (inr (size, rest, e, p, a, b, h)) =
      inr (size, rest, e, p, a, b, Takes-take n (suc rank) levels rest h)

  pub Takes-visible :
      (cap : Option ℕ) (rank : ℕ) (ladder : List (ℕ × ℕ)) (slices : List FillSlice)
      → Takes realism side limit rank (visible cap ladder) slices
      → Takes realism side limit rank ladder slices
  Takes-visible none rank ladder slices h = h
  Takes-visible (some n) rank ladder slices h = Takes-take n rank ladder slices h

  module _ (cap : Option ℕ) where
    stopped-IsWalk :
        (rank remaining left consumed : ℕ) (ladder : List (ℕ × ℕ)) (hit : Bool)
        → left ≡ remaining
        → IsWalk realism side limit cap rank remaining consumed ladder (stopped left hit)
    stopped-IsWalk rank remaining left consumed ladder hit e =
        (omega (arith, e), IsUnderCap-zero cap consumed, Takes-nil rank ladder)

    skip-IsWalk :
        (rank remaining consumed size : ℕ) (level : ℕ × ℕ) (ladder : List (ℕ × ℕ)) (w : Walked)
        → size ≡ 0
        → IsWalk realism side limit cap (suc rank) (remaining - size) (consumed + size) ladder w
        → IsWalk realism side limit cap rank remaining consumed (level ∷ ladder) w
    skip-IsWalk rank remaining consumed size level ladder w e (sum, under, takes) =
        (omega arith, IsUnderCap-later cap consumed size (total_size w.slices) under, inl takes)

    take-IsWalk :
        (rank remaining consumed price displayed size : ℕ) (levels : List (ℕ × ℕ)) (w : Walked)
        → 0 < size
        → size ≤ remaining
        → size ≤ allowed_of realism displayed
        → IsUnderCap cap consumed size
        → IsWithinLimit side limit price
        → IsWalk realism side limit cap (suc rank) (remaining - size) (consumed + size) levels w
        → IsWalk realism side limit cap rank remaining consumed
            ((price, displayed) ∷ levels)
            (with_slice (slice_of realism.fee_model rank price size) w)
    take-IsWalk rank remaining consumed price displayed size levels w p r a u b
          (sum, under, takes) =
        (
          omega arith,
          IsUnderCap-add cap consumed size (total_size w.slices) u under,
          inr (size, w.slices, refl, p, a, b, takes),
        )

    pub walk-IsWalk :
        (ladder : List (ℕ × ℕ)) (rank remaining consumed : ℕ)
        → IsWalk realism side limit cap rank remaining consumed ladder
            (walk realism side limit cap rank remaining consumed ladder)
    unfolding walk
    walk-IsWalk [] rank remaining consumed = (omega arith, IsUnderCap-zero cap consumed, refl)
    walk-IsWalk ((price, displayed) ∷ levels) rank remaining consumed =
        let wanted : ℕ = min remaining (allowed_of realism displayed) in
        let size : ℕ = under_cap cap consumed wanted in
        let small : size ≤ wanted = under_cap-le cap consumed wanted in
        let rest =
          walk realism side limit cap (suc rank) (remaining - size) (consumed + size) levels in
        let next = walk-IsWalk levels (suc rank) (remaining - size) (consumed + size) in
        let under = under_cap-IsUnderCap cap consumed wanted in
        elim (Bool-cases (is_beyond side limit price)) [
          | inl beyond ↦ rw beyond (
              stopped-IsWalk rank remaining remaining consumed ((price, displayed) ∷ levels) true
                refl)
          | inr within ↦
              let inside = is_beyond-IsWithinLimit side limit price within in
              rw within (elim (Bool-cases (size == 0)) [
                | inl empty ↦ rw empty (elim (Bool-cases (is_spent cap consumed)) [
                  | inl spent ↦ rw spent (
                      stopped-IsWalk rank remaining remaining consumed ((price, displayed) ∷ levels)
                        false refl)
                  | inr left ↦ rw left (
                      skip-IsWalk rank remaining consumed size (price, displayed) levels rest
                        ((==_iff size 0).0 empty) next)
                ])
                | inr some_size ↦ rw some_size (elim (Bool-cases ((remaining - size) == 0)) [
                  | inl done ↦ rw done (
                      take-IsWalk rank remaining consumed price displayed size levels
                        (stopped 0 false) (ground arith) (omega (arith, small))
                        (omega (arith, small)) under inside
                        (stopped-IsWalk (suc rank) (remaining - size) 0 (consumed + size) levels
                          false (sym ((==_iff (remaining - size) 0).0 done))))
                  | inr more ↦ rw more (
                      take-IsWalk rank remaining consumed price displayed size levels rest
                        (ground arith) (omega (arith, small)) (omega (arith, small)) under inside
                        next)
                ])
              ])
        ]

-- What the outcome of an order says of its fill, on the ladder whose touch is `touch`.
abbrev pub IsFaithful : ExecutionRealism → TakerOrder → ℕ → List (ℕ × ℕ) → ExecutionOutcome → Type 0
IsFaithful realism order touch ladder o =
    (o.filled_shares_scaled ≤ order.requested_shares_scaled)
    × (o.filled_shares_scaled ≡ total_size o.slices)
    × (o.notional_scaled ≡ sum_by (λ (s : FillSlice). s.notional) o.slices)
    × (o.fees_scaled ≡ sum_by (λ (s : FillSlice). s.fee_scaled) o.slices)
    × IsUnderCap (volume_cap realism order) 0 o.filled_shares_scaled
    × Takes realism order.side (effective_limit realism order touch) 1 ladder o.slices

refused-IsFaithful :
    (realism : ExecutionRealism) (order : TakerOrder) (touch : ℕ) (ladder : List (ℕ × ℕ))
    (reason : RejectedReason)
    → IsFaithful realism order touch ladder (refused order reason)
refused-IsFaithful realism order touch ladder reason = (
  omega arith,
  refl,
  refl,
  refl,
  IsUnderCap-zero (volume_cap realism order) 0,
  Takes-nil realism order.side (effective_limit realism order touch) 1 ladder,
)

outcome_of-IsFaithful :
    (realism : ExecutionRealism) (order : TakerOrder) (touch : ℕ) (ladder : List (ℕ × ℕ))
    (binding : Option Constraint) (w : Walked)
    → IsWalk realism order.side
        (effective_limit realism order touch)
        (volume_cap realism order)
        1
        order.requested_shares_scaled
        0
        (visible realism.max_levels_swept ladder)
        w
    → IsFaithful realism order touch ladder (outcome_of order binding w.slices)
unfolding outcome_of
outcome_of-IsFaithful realism order touch ladder binding w (sum, under, takes) =
    elim (Bool-cases (total_size w.slices == 0)) [
      | inl nothing ↦ rw nothing (refused-IsFaithful realism order touch ladder (reason_of binding))
      | inr something ↦ rw something (
        omega (arith, sum),
        refl,
        refl,
        refl,
        under,
        Takes-visible realism order.side (effective_limit realism order touch)
            realism.max_levels_swept 1 ladder w.slices takes,
      )
    ]

-- On every path an order fills at most what was requested and at most its cap by volume; the sizes,
-- notionals and fees of the slices add up to the outcome's; and each slice takes a reachable part of
-- a level of the ladder, in its order, within the limit that is in force.
pub execute-IsFaithful :
    (realism : ExecutionRealism) (order : TakerOrder) (touch displayed : ℕ) (levels : List (ℕ × ℕ))
    → IsFaithful realism order touch
        ((touch, displayed) ∷ levels)
        (execute realism order ((touch, displayed) ∷ levels))
unfolding execute walk_of
execute-IsFaithful realism order touch displayed levels =
    let ladder : List (ℕ × ℕ) = (touch, displayed) ∷ levels in
    let limit = effective_limit realism order touch in
    elim (Bool-cases (order.requested_shares_scaled == 0)) [
      | inl empty ↦ rw empty (refused-IsFaithful realism order touch ladder non_positive_size)
      | inr sized ↦
          rw sized
            (elim (Bool-cases (ltb order.requested_shares_scaled order.minimum_order_size_scaled)) [
              | inl small ↦
                  rw small (refused-IsFaithful realism order touch ladder below_minimum_order_size)
              | inr enough ↦
                  rw enough
                    (elim (Bool-cases (is_stale realism.stale_book_max_age_ms order.book_age_ns)) [
                      | inl stale ↦
                          rw stale (refused-IsFaithful realism order touch ladder stale_book)
                      | inr fresh ↦ rw fresh (
                          outcome_of-IsFaithful realism order touch ladder _
                            (walk_of realism order touch ladder)
                            (walk-IsWalk realism order.side limit (volume_cap realism order)
                              (visible realism.max_levels_swept ladder) 1
                              order.requested_shares_scaled 0))
                    ])
            ])
    ]
