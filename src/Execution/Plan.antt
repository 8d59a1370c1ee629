-- ===== src/Execution/Plan.antt =====
-- The plan of a marketable order: which levels it takes, at which prices, and how much.
use native.Mathlib.Nat.{mul-le-mul, div-mul-le_self, le_trans}
use polymarket_btc_15min_bac.Base.{
  ℕ, ◌+◌, ◌-◌, ◌*◌, ◌/◌, ◌≤◌, ◌<◌, ◌≡◌, refl, Bool, false, ◌||◌, Option, none, some, List, [], ◌∷◌,
  ◌==◌, min, max, sum_by, All, Bool-cases, inl, inr, arith, ==_iff,
}
use polymarket_btc_15min_bac.Models.{Side}
use polymarket_btc_15min_bac.Fees.{notional_scaled, notional-affordable, scale}
use polymarket_btc_15min_bac.Execution.{Planned, plan, is_past, desired_size, less, is_done}

-- The n-th slice takes from the n-th best level: its price, and no more than its size.
abbrev pub Takes : List Planned → List (ℕ × ℕ) → Type 0
Takes [] levels = Unit
Takes (s ∷ slices) [] = ⊥
Takes (s ∷ slices) ((price, displayed) ∷ levels) =
    (s.price ≡ price)
    × (0 < s.size)
    × (s.size + s.displayed_after ≡ displayed)
    × Takes slices levels

-- No slice trades past the order's limit.
abbrev pub WithinLimit : Side → Option ℕ → List Planned → Type 0
WithinLimit side limit = All λ s. is_past side limit s.price ≡ false

-- The total of the slices' sizes, or notionals.
abbrev pub planned_size : List Planned → ℕ
planned_size = sum_by λ s. s.size

abbrev pub planned_notional : List Planned → ℕ
planned_notional = sum_by λ s. s.notional

desired-le :
    (shares notional : Option ℕ) (price displayed : ℕ)
    → desired_size shares notional price displayed ≤ displayed
desired-le (some shares) notional price displayed = omega arith
desired-le none (some notional) price displayed = omega arith
desired-le none none price displayed = omega arith

slice-affordable :
    (budget displayed price : ℕ)
    → notional_scaled (min displayed (budget * scale / max price 1)) price ≤ budget
slice-affordable budget displayed price =
    let unit = max price 1 in
    let most = budget * scale / unit in
    let size = min displayed most in
    let bought : most * unit ≤ budget * scale = div-mul-le_self (budget * scale) unit in
    let fewer : size * price ≤ most * unit = mul-le-mul (omega arith) (omega arith) in
    notional-affordable budget size price (le_trans fewer bought)

module _ (side : Side) (limit : Option ℕ) where
  abbrev stops : Option ℕ → Option ℕ → ℕ → ℕ → Bool
  stops shares notional price displayed =
      is_past side limit price || (desired_size shares notional price displayed == 0)

  abbrev ends : Option ℕ → Option ℕ → ℕ → ℕ → Bool
  ends shares notional price displayed =
      let size = desired_size shares notional price displayed in
      is_done (less shares size) || is_done (less notional (notional_scaled size price))

  not_past : (past empty : Bool) → (past || empty) ≡ false → past ≡ false
  not_past past empty e = ground arith

  not_empty : (past : Bool) (n : ℕ) → (past || (n == 0)) ≡ false → 0 < n
  not_empty past n e = ground arith

  -- Slices are taken best level first, each from one level and within it, and none past the limit.
  pub plan-Takes :
      (rank : ℕ) (shares notional : Option ℕ) (levels : List (ℕ × ℕ))
      → let slices = plan side limit rank shares notional levels in
        Takes slices levels × WithinLimit side limit slices
  unfolding plan
  plan-Takes rank shares notional [] = (tt, tt)
  plan-Takes rank shares notional ((price, displayed) ∷ levels) =
      let size = desired_size shares notional price displayed in
      let ih =
        plan-Takes (rank + 1) (less shares size) (less notional (notional_scaled size price))
          levels in
      let small = desired-le shares notional price displayed in
      elim (Bool-cases (stops shares notional price displayed)) [
        | inl stop ↦ rw stop (tt, tt)
        | inr go ↦
            let some_size : 0 < size = not_empty (is_past side limit price) size go in
            let inside = not_past (is_past side limit price) (size == 0) go in
            rw go (elim (Bool-cases (ends shares notional price displayed)) [
              | inl done ↦ rw done ((refl, some_size, omega arith, tt), (inside, tt))
              | inr more ↦ rw more ((refl, some_size, omega arith, ih.0), (inside, ih.1))
            ])
      ]

  -- An order by shares plans no more than it asks for.
  pub plan-shares :
      (rank requested : ℕ) (notional : Option ℕ) (levels : List (ℕ × ℕ))
      → planned_size (plan side limit rank (some requested) notional levels) ≤ requested
  unfolding plan
  plan-shares rank requested notional [] = omega arith
  plan-shares rank requested notional ((price, displayed) ∷ levels) =
      let size = min requested displayed in
      let ih =
        plan-shares (rank + 1) (requested - size) (less notional (notional_scaled size price))
          levels in
      elim (Bool-cases (stops (some requested) notional price displayed)) [
        | inl stop ↦ rw stop (omega arith)
        | inr go ↦ rw go (elim (Bool-cases (ends (some requested) notional price displayed)) [
          | inl done ↦ rw done (omega arith)
          | inr more ↦ rw more (omega arith)
        ])
      ]

  -- An order by notional plans to spend, or to raise, no more than it asks for: rounding every slice's
  -- notional to the nearest unit never overshoots.
  pub plan-notional :
      (rank requested : ℕ) (levels : List (ℕ × ℕ))
      → planned_notional (plan side limit rank none (some requested) levels) ≤ requested
  unfolding plan
  plan-notional rank requested [] = omega arith
  plan-notional rank requested ((price, displayed) ∷ levels) =
      let size = min displayed (requested * scale / max price 1) in
      let cost = notional_scaled size price in
      let ih = plan-notional (rank + 1) (requested - cost) levels in
      let afford = slice-affordable requested displayed price in
      elim (Bool-cases (stops none (some requested) price displayed)) [
        | inl stop ↦ rw stop (omega arith)
        | inr go ↦ rw go (elim (Bool-cases (ends none (some requested) price displayed)) [
          | inl done ↦ rw done (omega arith)
          | inr more ↦ rw more (omega arith)
        ])
      ]

-- With no limit an order by shares plans for all it asks, or for all the depth there is.
pub plan_complete :
    (side : Side) (rank requested : ℕ) (levels : List (ℕ × ℕ))
    → All (λ (level : ℕ × ℕ). 0 < level.1) levels
    → planned_size (plan side none rank (some requested) none levels)
      ≡ min requested (sum_by (λ (level : ℕ × ℕ). level.1) levels)
unfolding plan
plan_complete side rank requested [] h = omega arith
plan_complete side rank requested ((price, displayed) ∷ levels) (h, hs) =
    let size = min requested displayed in
    let ih = plan_complete side (rank + 1) (requested - size) levels hs in
    elim (Bool-cases (size == 0)) [
      | inl stop ↦ let e = (==_iff size 0).0 stop in rw stop (omega arith)
      | inr go ↦ rw go (elim (Bool-cases ((requested - size) == 0)) [
        | inl done ↦ let e = (==_iff (requested - size) 0).0 done in rw done (omega arith)
        | inr more ↦ rw more (omega arith)
      ])
    ]
