-- ===== src/Episodes/Eligible.antt =====
-- Which episodes are eligible: `_exclusion_reason` of src/polymarket_bt/backtest/episodes.py on the winner
-- and the coverage that `build` computes.
use polymarket_btc_15min_bac.Base.{
  ℕ, ◌≤◌, ◌≡◌, ◌↔◌, refl, Bool, true, false, not, Option, none, some, inl, inr, min, max, ◌==◌,
  ◌||◌, if_some-none, is_some, arith, if◌then◌else◌, sub_ℕ,
}
use polymarket_btc_15min_bac.Episodes.{
  Coverage, MarketRow, Verdict, Episode, resolve_winner, exclusion_reason, build_episode, is_short,
  is_ambiguous, coverage_lead, coverage_lag, window_reason,
}
use polymarket_btc_15min_bac.Episodes.Causal.{IsVerdict, resolve_winner-IsVerdict}

-- If the full window is required, both sides' data reach from the market's start to its end.
abbrev pub Spans : Bool → MarketRow → Coverage → Coverage → Type 0
Spans false row up down = Unit
Spans true row up down =
    ((up.first ≤ row.start_ns) × (down.first ≤ row.start_ns))
    × ((row.end_ns ≤ up.last) × (row.end_ns ≤ down.last))

abbrev pub IsEligible : Bool → MarketRow → Episode → Type 0
IsEligible require_full_window row e =
    (up : Coverage) × (down : Coverage) × (row.up_cov ≡ some up)
    × (row.down_cov ≡ some down)
    × ((token : ℕ) × (e.winner_token_id ≡ some token))
    × (row.blocking_errors ≡ 0)
    × (row.gap_count ≡ 0)
    × Spans require_full_window row up down

lead_lem :
    (start first other : ℕ)
    → (is_short (some (sub_ℕ start (max first other))) ≡ false)
      ↔ ((first ≤ start) × (other ≤ start))
lead_lem start first other = ground arith

lag_lem :
    (end_ns last other : ℕ)
    → (is_short (some (sub_ℕ (min last other) end_ns)) ≡ false)
      ↔ ((end_ns ≤ last) × (end_ns ≤ other))
lag_lem end_ns last other = ground arith

coverage_lead-some :
    (row : MarketRow) {up down : Coverage}
    → row.up_cov ≡ some up
    → row.down_cov ≡ some down
    → coverage_lead row ≡ some (sub_ℕ row.start_ns (max up.first down.first))
coverage_lead-some row a b = rw (a, b) refl

coverage_lag-some :
    (row : MarketRow) {up down : Coverage}
    → row.up_cov ≡ some up
    → row.down_cov ≡ some down
    → coverage_lag row ≡ some (sub_ℕ (min up.last down.last) row.end_ns)
coverage_lag-some row a b = rw (a, b) refl

both_known :
    {A : Type 0} (a b : Option A)
    → (not (is_some a) || not (is_some b)) ≡ false
    → (x : A) × (y : A) × (a ≡ some x) × (b ≡ some y)
both_known none b e = cc
both_known (some x) none e = cc
both_known (some x) (some y) e = (x, y, refl, refl)

is_zero : (n : ℕ) → not (n == 0) ≡ false → n ≡ 0
is_zero n e = ground arith

-- A check that passes leaves the rest of the chain.
if_passed :
    {A : Type 0} (test : Bool) (a : A) (rest : Option A)
    → test ≡ false
    → rest ≡ none
    → (if test then some a else rest) ≡ none
if_passed test a rest passed later = rw (passed, later) refl

is_covered :
    {A : Type 0} {a b : Option A} {x y : A}
    → a ≡ some x
    → b ≡ some y
    → (not (is_some a) || not (is_some b)) ≡ false
is_covered p q = rw (p, q) refl

zero_passed : (n : ℕ) → n ≡ 0 → not (n == 0) ≡ false
zero_passed n e = ground arith

-- The checks of the window pass just when the sides span it.
window_reason-Spans :
    (require_full_window : Bool) (row : MarketRow) {up down : Coverage}
    → row.up_cov ≡ some up
    → row.down_cov ≡ some down
    → (window_reason require_full_window row ≡ none) ↔ Spans require_full_window row up down
window_reason-Spans false row a b = (λ _. tt, λ _. refl)
window_reason-Spans true row {up} {down} a b =
    let lead = coverage_lead-some row a b in
    let lag = coverage_lag-some row a b in
    (
      λ e.
          let (starts, later) = if_some-none (is_short (coverage_lead row)) _ _ e in
          let (ends, _) = if_some-none (is_short (coverage_lag row)) _ none later in
          (
            (lead_lem row.start_ns up.first down.first).0 (rw lead at starts),
            (lag_lem row.end_ns up.last down.last).0 (rw lag at ends),
          ),
      λ (starts, ends).
          let on_lead = (lead_lem row.start_ns up.first down.first).1 starts in
          let on_lag = (lag_lem row.end_ns up.last down.last).1 ends in
          rw (lead, lag, on_lead, on_lag) refl,
    )

true_not_false : ¬ (◌≡◌ {A = Bool} true false)
true_not_false e = cc

clear-winner :
    (up down : ℕ) (v : Verdict)
    → IsVerdict up down v
    → is_ambiguous v.source ≡ false
    → (token : ℕ) × (v.winner ≡ some token)
unfolding IsVerdict
clear-winner up down v (inl (nothing, unclear)) clear =
    absurd (true_not_false (rw unclear at clear))
clear-winner up down v (inr (token, known, member, named_source)) clear = (token, known)

winner-clear :
    (up down : ℕ) (v : Verdict) {token : ℕ}
    → IsVerdict up down v
    → v.winner ≡ some token
    → is_ambiguous v.source ≡ false
unfolding IsVerdict
winner-clear up down v (inl (nothing, unclear)) known = cc
winner-clear up down v (inr (token, named_one, member, clear)) known = clear

-- An episode is eligible just when both sides have book data, it has a winner, there is no blocking
-- error and no gap in the connection, and, if the full window is required, the data of each side
-- reach from the market's start to its end.
pub build_episode-IsEligible :
    (post_end_ns : ℕ) (require_full_window : Bool) (row : MarketRow)
    → ((build_episode post_end_ns require_full_window row).exclusion_reason ≡ none)
      ↔ IsEligible require_full_window row (build_episode post_end_ns require_full_window row)
unfolding build_episode exclusion_reason
build_episode-IsEligible post_end_ns require_full_window row =
    let verdict = resolve_winner row in
    let p = resolve_winner-IsVerdict row in
    (
      λ e.
          let (covered, e1) = if_some-none _ _ _ e in
          let (clear, e2) = if_some-none _ _ _ e1 in
          let (errors, e3) = if_some-none _ _ _ e2 in
          let (gaps, e4) = if_some-none _ _ _ e3 in
          let (up, down, a, b) = both_known row.up_cov row.down_cov covered in
          (
            up,
            down,
            a,
            b,
            clear-winner _ _ verdict p clear,
            is_zero _ errors,
            is_zero _ gaps,
            (window_reason-Spans require_full_window row a b).0 e4,
          ),
      λ (up, down, a, b, (token, known), errors, gaps, spans).
          let clear = winner-clear _ _ verdict p known in
          let passed = (window_reason-Spans require_full_window row a b).1 spans in
          if_passed _ _ _ (is_covered a b) (
            if_passed _ _ _ clear (
              if_passed _ _ _ (zero_passed _ errors)
                (if_passed _ _ _ (zero_passed _ gaps) passed))),
    )
