-- ===== src/OptimalExecution/Consistent.antt =====
-- When the account of a session is consistent, and that its trades keep it so: `_apply_fills` and the
-- checks of `record_outcome` and `record_fill`.
use mathlib.Core.Bool.{false≢true}
use polymarket_btc_15min_bac.Base.{
  ℕ, ◌+◌, ◌-◌, ◌≤◌, ◌≡◌, refl, Bool, true, false, not, ◌&&◌, Option, none, some, List, [], ◌∷◌,
  sum_by, sum_by-append, All, All-append, any_of, ltb, Bool-cases, inl, inr, arith, Result, ok, err,
  ltb-false→le, sym, ap, ==_iff, if_some-none,
}
use polymarket_btc_15min_bac.Models.{Side, buy, sell}
use polymarket_btc_15min_bac.Realism.{ExecutionOutcome, FillSlice}
use polymarket_btc_15min_bac.OptimalExecution.State.{
  ExecutionPlan, ExecutionError, first_error, early_arrival, late_fill,
}
use polymarket_btc_15min_bac.OptimalExecution.Policy.{ExecutionAction}
use polymarket_btc_15min_bac.OptimalExecution.Objective.{ExecutionFill, shares_of_fills, IsTimely}
use polymarket_btc_15min_bac.OptimalExecution.Session.{
  Session, requested_of, complete_pending, traded, pay, apply_fills, concluded, fills_of_outcome,
  fills_at, outcome_checks, is_bad_fill, outcome_error, settle_child, fill_error, remaining_of,
}

-- The shares held, after `filled` shares were bought or sold.
abbrev pub IsAccount : Side → ℕ → ℕ → ℕ → Type 0
IsAccount buy inventory filled held = held ≡ inventory + filled
IsAccount sell inventory filled held = held + filled ≡ inventory

-- What the fills amount to, for a session that began with `inventory`.
abbrev pub IsConsistent : ExecutionPlan → ℕ → Session → Type 0
IsConsistent plan inventory s =
    (s.plan ≡ plan)
    × (s.filled_shares_scaled ≡ shares_of_fills s.fills)
    × (s.filled_shares_scaled ≤ plan.target_shares_scaled)
    × IsTimely plan.deadline_utc_ns s.fills
    × IsAccount plan.side inventory s.filled_shares_scaled s.inventory_shares_scaled

IsAccount-buy :
    (side : Side) (inventory filled held n : ℕ)
    → side ≡ buy
    → IsAccount side inventory filled held
    → IsAccount side inventory (filled + n) (held + n)
IsAccount-buy buy inventory filled held n e h = omega arith
IsAccount-buy sell inventory filled held n e h = cc

IsAccount-sell :
    (side : Side) (inventory filled held n : ℕ)
    → side ≡ sell
    → n ≤ held
    → IsAccount side inventory filled held
    → IsAccount side inventory (filled + n) (held - n)
IsAccount-sell buy inventory filled held n e le h = cc
IsAccount-sell sell inventory filled held n e le h = omega arith

pub IsAccount-start : (side : Side) (inventory : ℕ) → IsAccount side inventory 0 inventory
IsAccount-start buy inventory = omega arith
IsAccount-start sell inventory = omega arith

module _ (plan : ExecutionPlan) (inventory : ℕ) where
  traded-IsConsistent :
      (fills : List ExecutionFill) (cash held : ℕ) (s : Session)
      → IsConsistent plan inventory s
      → IsTimely plan.deadline_utc_ns fills
      → s.filled_shares_scaled + shares_of_fills fills ≤ plan.target_shares_scaled
      → IsAccount plan.side inventory (s.filled_shares_scaled + shares_of_fills fills) held
      → IsConsistent plan inventory (traded fills cash held s)
  traded-IsConsistent fills cash held s (same, sum, le, timely, account) new within moved = (
    same,
    omega (arith, sum, sum_by-append (λ (f : ExecutionFill). f.shares_scaled) s.fills fills),
    within,
    All-append _ s.fills fills timely new,
    moved,
  )

  -- A result keeps what its session does.
  abbrev IsKept : Result ExecutionError Session → Type 0
  IsKept (ok s) = IsConsistent plan inventory s
  IsKept (err e) = Unit

  pay-IsKept :
      (side : Side) (fills : List ExecutionFill) (notional fee : ℕ) (s : Session)
      → plan.side ≡ side
      → IsConsistent plan inventory s
      → IsTimely plan.deadline_utc_ns fills
      → s.filled_shares_scaled + shares_of_fills fills ≤ plan.target_shares_scaled
      → IsKept (pay side fills notional fee s)
  pay-IsKept buy fills notional fee s side h timely within =
      elim (Bool-cases (ltb s.cash_scaled (notional + fee))) [
        | inl poor ↦ rw poor tt
        | inr rich ↦ rw rich (
            let (same, sum, le, old, account) = h in
            traded-IsConsistent fills (s.cash_scaled - (notional + fee))
              (s.inventory_shares_scaled + shares_of_fills fills) s h timely within
              (IsAccount-buy plan.side inventory s.filled_shares_scaled s.inventory_shares_scaled
                (shares_of_fills fills) side account))
      ]
  pay-IsKept sell fills notional fee s side h timely within =
      elim (Bool-cases (ltb s.inventory_shares_scaled (shares_of_fills fills))) [
        | inl short ↦ rw short tt
        | inr long ↦ rw long (elim (Bool-cases (ltb (s.cash_scaled + notional) fee)) [
          | inl poor ↦ rw poor tt
          | inr rich ↦ rw rich (
              let (same, sum, le, old, account) = h in
              let held = ltb-false→le s.inventory_shares_scaled (shares_of_fills fills) long in
              traded-IsConsistent fills (s.cash_scaled + notional - fee)
                (s.inventory_shares_scaled - shares_of_fills fills) s h timely within
                (IsAccount-sell plan.side inventory s.filled_shares_scaled s.inventory_shares_scaled
                  (shares_of_fills fills) side held account))
        ])
      ]

  apply_fills-IsKept :
      (requested : ℕ) (fills : List ExecutionFill) (notional fee : ℕ) (s : Session)
      → IsConsistent plan inventory s
      → IsTimely plan.deadline_utc_ns fills
      → IsKept (apply_fills requested fills notional fee s)
  unfolding apply_fills
  apply_fills-IsKept requested fills notional fee s (same, sum, le, old, account) timely =
      elim (Bool-cases (ltb requested (shares_of_fills fills))) [
        | inl over ↦ rw over tt
        | inr child ↦ rw child (elim (Bool-cases (ltb (remaining_of s) (shares_of_fills fills))) [
          | inl over ↦ rw over tt
          | inr parent ↦
              let within = ltb-false→le (remaining_of s) (shares_of_fills fills) parent in
              let target : s.plan.target_shares_scaled ≡ plan.target_shares_scaled =
                ap (λ (p : ExecutionPlan). p.target_shares_scaled) same in
              rw parent (
                pay-IsKept s.plan.side fills notional fee s
                  (ap (λ (p : ExecutionPlan). p.side) (sym same)) (same, sum, le, old, account)
                  timely (omega (arith, within, target, le)))
        ])
      ]

  pub complete-IsConsistent :
      (arrival : ℕ) (s : Session)
      → IsConsistent plan inventory s
      → IsConsistent plan inventory (complete_pending arrival s)
  unfolding complete_pending
  complete-IsConsistent arrival s h = h

  concluded-IsConsistent :
      (arrival : ℕ) (r : Result ExecutionError Session) (s : Session)
      → IsKept r
      → IsConsistent plan inventory s
      → IsConsistent plan inventory (concluded arrival r s).1
  concluded-IsConsistent arrival (ok next) s kept h = complete-IsConsistent arrival next kept
  concluded-IsConsistent arrival (err e) s kept h = h

  -- A child is settled consistently when its checks let only timely fills through.
  pub settle-IsConsistent :
      (error : Option ExecutionError) (action : ExecutionAction) (fills : List ExecutionFill)
      (notional fee arrival : ℕ) (s : Session)
      → (error ≡ none → IsTimely plan.deadline_utc_ns fills)
      → IsConsistent plan inventory s
      → IsConsistent plan inventory (settle_child error action fills notional fee arrival s).1
  settle-IsConsistent (some e) action fills notional fee arrival s timely h = h
  settle-IsConsistent none action fills notional fee arrival s timely h =
      concluded-IsConsistent arrival _ s
        (apply_fills-IsKept (requested_of action) fills notional fee s h (timely refl)) h

first_error-none :
    (checks : List (Bool × ExecutionError))
    → first_error checks ≡ none
    → All (λ (c : Bool × ExecutionError). c.0 ≡ false) checks
first_error-none [] e = tt
first_error-none ((failed, error) ∷ checks) e =
    let (passed, rest) = if_some-none failed error (first_error checks) e in
    (passed, first_error-none checks rest)

not-false : (b : Bool) → not b ≡ false → b ≡ true
not-false true e = refl
not-false false e = cc

-- An outcome that passes is in time, or fills nothing.
no_bad_fill :
    (arrival : ℕ) (slices : List FillSlice)
    → sum_by (λ (s : FillSlice). s.size_scaled) slices ≡ 0
    → any_of is_bad_fill (fills_at arrival slices) ≡ false
    → slices ≡ []
no_bad_fill arrival [] sum h = refl
no_bad_fill arrival (s ∷ slices) sum h =
    let empty : s.size_scaled ≡ 0 = omega (arith, sum) in
    elim (false≢true (sym (rw empty at h))) [ ]

fills-IsTimely :
    (deadline arrival : ℕ) (slices : List FillSlice)
    → arrival ≤ deadline
    → IsTimely deadline (fills_at arrival slices)
fills-IsTimely deadline arrival [] h = tt
fills-IsTimely deadline arrival (s ∷ slices) h = (h, fills-IsTimely deadline arrival slices h)

pub outcome-IsTimely :
    (plan : ExecutionPlan) (action : ExecutionAction) (decision : ℕ) (o : ExecutionOutcome)
    → outcome_error plan action decision o ≡ none
    → IsTimely plan.deadline_utc_ns (fills_of_outcome o)
unfolding outcome_error
outcome-IsTimely plan action decision o e =
    let passed = first_error-none (outcome_checks plan action decision o) e in
    let late : ltb plan.deadline_utc_ns o.arrival_utc_ns && ltb 0 o.filled_shares_scaled ≡ false =
      passed.1.1.1.0 in
    let shares = passed.1.1.1.1.0 in
    let bad = passed.1.1.1.1.1.1.1.0 in
    elim (Bool-cases (ltb plan.deadline_utc_ns o.arrival_utc_ns)) [
      | inr in_time ↦
          fills-IsTimely plan.deadline_utc_ns o.arrival_utc_ns o.slices
            (ltb-false→le plan.deadline_utc_ns o.arrival_utc_ns in_time)
      | inl too_late ↦
          let filled : ltb 0 o.filled_shares_scaled ≡ false = rw too_late at late in
          let same = not-false _ shares in
          let sum : sum_by (λ (s : FillSlice). s.size_scaled) o.slices ≡ 0 =
            omega (arith, (==_iff _ _).0 same, ltb-false→le 0 o.filled_shares_scaled filled) in
          rw (no_bad_fill o.arrival_utc_ns o.slices sum bad) tt
    ]

pub fill-IsTimely :
    (plan : ExecutionPlan) (decision : ℕ) (f : ExecutionFill)
    → fill_error plan decision f ≡ none
    → IsTimely plan.deadline_utc_ns (f ∷ [])
fill-IsTimely plan decision f e =
    let (early, rest) = if_some-none (ltb f.timestamp_utc_ns decision) early_arrival _ e in
    let (late, _) =
      if_some-none (ltb plan.deadline_utc_ns f.timestamp_utc_ns) late_fill none rest in
    (ltb-false→le plan.deadline_utc_ns f.timestamp_utc_ns late, tt)
