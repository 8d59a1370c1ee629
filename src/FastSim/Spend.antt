-- ===== src/FastSim/Spend.antt =====
-- What an order may spend and when it may fill: `_cap_buy_to_spend` and the guards of `_send` of
-- src/polymarket_bt/backtest/fastsim.py.
use mathlib.Core.Bool.{false≢true}
use mathlib.Core.Option.{some-injective}
use polymarket_btc_15min_bac.Base.{
  ℕ, ◌+◌, ◌-◌, ◌≤◌, ◌<◌, ◌≡◌, ◌⊎◌, refl, Bool, true, false, not, ◌&&◌, ◌||◌, Option, none, some,
  List, [], ◌∷◌, ltb, leb, ◌==◌, if◌then◌else◌, if-either, sum_by, Bool-cases, if_some-none, inl,
  inr, arith, leb→le, All, ==_iff, suc, Option-cases, subst, ltb-false→le,
}
use polymarket_btc_15min_bac.Models.{buy}
use polymarket_btc_15min_bac.Fees.{FeeModel}
use polymarket_btc_15min_bac.Realism.{
  ExecutionRealism, FillSlice, ExecutionOutcome, TakerOrder, RejectedReason, Constraint, execute,
  outcome_of, slice_of, is_stale,
}
use polymarket_btc_15min_bac.FastSim.{
  TapeRow, EpisodeTape, token_rows, is_uncertain, row_at, cap_slices, all_in_cost,
}
use polymarket_btc_15min_bac.FastSim.Afford.{max_affordable-paid}
use polymarket_btc_15min_bac.FastSim.Send.{
  is_filled, trimmed, cap_buy_to_spend, SendRequest, SelfImpact, arrival_of, cash_at, is_late,
  lacks_cash, early_reason, spend_cap, is_notional_sized, capped, emptied, enforced, send_at,
  send_found, send_checked, send,
}

-- What the slices cost together.
abbrev pub cost_of : List FillSlice → ℕ
cost_of slices =
    sum_by (λ (s : FillSlice). s.notional) slices + sum_by (λ (s : FillSlice). s.fee_scaled) slices

last-cost :
    (fees : FeeModel) (rank price size remaining : ℕ)
    → all_in_cost fees price size ≤ remaining
    → cost_of (if ltb 0 size then slice_of fees rank price size ∷ [] else []) ≤ remaining
unfolding all_in_cost
last-cost fees rank price size remaining h =
    if-either {A = List FillSlice} (λ l. cost_of l ≤ remaining) (ltb 0 size) (omega (arith, h))
      (omega arith)

cap_slices-cost :
    (fees : FeeModel) (remaining : ℕ) (slices : List FillSlice)
    → cost_of (cap_slices fees remaining slices).0 ≤ remaining
unfolding cap_slices
cap_slices-cost fees remaining [] = omega arith
cap_slices-cost fees remaining (s ∷ slices) =
    let cost : ℕ = s.notional + s.fee_scaled in
    elim (Bool-cases (leb cost remaining)) [
      | inl fits ↦
          let ih = cap_slices-cost fees (remaining - cost) slices in
          let paid = leb→le cost remaining fits in rw fits (omega (arith, ih, paid))
      | inr over ↦ rw over (
          last-cost fees s.level_rank s.price_scaled _ remaining
            (max_affordable-paid fees remaining s.price_scaled (some s.size_scaled)))
    ]

abbrev pub spent : ExecutionOutcome → ℕ
spent outcome = outcome.notional_scaled + outcome.fees_scaled

cap-spent :
    (fees : FeeModel) (spend : ℕ) (outcome : ExecutionOutcome)
    → spent (cap_buy_to_spend fees spend outcome).0 ≤ spend
unfolding cap_buy_to_spend trimmed
cap-spent fees spend outcome = cap_slices-cost fees spend outcome.slices

-- An outcome that has filled nothing has spent nothing.
abbrev NoFreeFill : ExecutionOutcome → Type 0
NoFreeFill outcome = (is_filled outcome ≡ true) ⊎ (spent outcome ≡ 0)

outcome_of-NoFreeFill :
    (order : TakerOrder) (binding : Option Constraint) (slices : List FillSlice)
    → NoFreeFill (outcome_of order binding slices)
unfolding outcome_of
outcome_of-NoFreeFill order binding slices =
    let filled : ℕ = sum_by (λ (s : FillSlice). s.size_scaled) slices in
    elim (Bool-cases (filled == 0)) [
      | inl nothing ↦ rw nothing (inr refl)
      | inr something ↦
          let positive : ltb 0 filled ≡ true = ground (arith, something) in
          rw something (inl positive)
    ]

execute-NoFreeFill :
    (realism : ExecutionRealism) (order : TakerOrder) (ladder : List (ℕ × ℕ))
    → NoFreeFill (execute realism order ladder)
unfolding execute
execute-NoFreeFill realism order [] = inr refl
execute-NoFreeFill realism order ((touch, displayed) ∷ levels) =
    if-either NoFreeFill (order.requested_shares_scaled == 0) (inr refl) (
      if-either NoFreeFill (ltb order.requested_shares_scaled order.minimum_order_size_scaled)
        (inr refl)
        (if-either NoFreeFill (is_stale realism.stale_book_max_age_ms order.book_age_ns) (inr refl)
          (outcome_of-NoFreeFill order _ _)))

capped-spent :
    (fees : FeeModel) (cap : ℕ) (outcome : ExecutionOutcome)
    → NoFreeFill outcome
    → spent (capped fees (some cap) outcome).0 ≤ cap
capped-spent fees cap outcome (inl filled) = rw filled (cap-spent fees cap outcome)
capped-spent fees cap outcome (inr free) =
    if-either {A = ExecutionOutcome × Bool} (λ u. spent u.0 ≤ cap) (is_filled outcome)
      (cap-spent fees cap outcome) (omega (arith, free))

enforced-spent :
    (require_full notional_sized : Bool) (u : ExecutionOutcome × Bool) (most : ℕ)
    → spent u.0 ≤ most
    → spent (enforced require_full notional_sized u) ≤ most
unfolding enforced
enforced-spent require_full notional_sized (outcome, bound) most h =
    let full : Bool =
      (notional_sized && bound)
      || (outcome.filled_shares_scaled == outcome.requested_shares_scaled) in
    if-either (λ o. spent o ≤ most) (require_full && (is_filled outcome && not full))
      {x = emptied outcome} (omega arith) h

send_at-spent :
    (realism : ExecutionRealism) (tape : EpisodeTape) (request : SendRequest) (arrival : ℕ)
    (rows : List (ℕ × TapeRow)) (found : ℕ × TapeRow) (impact : SelfImpact) (most : ℕ)
    → spend_cap request.side request.max_spend_scaled
        (cash_at request.available_cash_scaled arrival)
      ≡ some most
    → spent (send_at realism tape request arrival rows found impact).0 ≤ most
unfolding send_at
send_at-spent realism tape request arrival rows (index, row) impact most e = rw e (
    enforced-spent request.require_full_fill
      (is_notional_sized request.side request.max_spend_scaled) _ most
      (capped-spent realism.fee_model most _ (execute-NoFreeFill realism _ _)))

-- A BUY that the guards let pass may spend no more than the cash.
buy_cap :
    (spend : Option ℕ) (cash : ℕ)
    → lacks_cash buy spend (some cash) ≡ false
    → (most : ℕ) × (spend_cap buy spend (some cash) ≡ some most) × (most ≤ cash)
buy_cap none cash h = (cash, refl, omega arith)
buy_cap (some spend) cash h = (spend, refl, ground (arith, h))

send_found-spent :
    (realism : ExecutionRealism) (require_valid : Bool) (tape : EpisodeTape) (request : SendRequest)
    (arrival : ℕ) (rows : List (ℕ × TapeRow)) (found : Option (ℕ × TapeRow)) (impact : SelfImpact)
    (most : ℕ)
    → spend_cap request.side request.max_spend_scaled
        (cash_at request.available_cash_scaled arrival)
      ≡ some most
    → spent (send_found realism require_valid tape request arrival rows found impact).0 ≤ most
send_found-spent realism require_valid tape request arrival rows none impact most e = omega arith
send_found-spent realism require_valid tape request arrival rows (some found) impact most e =
    if-either {A = ExecutionOutcome × SelfImpact} (λ u. spent u.0 ≤ most)
      (require_valid
        && (not found.1.book_valid || is_uncertain request.token_index arrival tape.uncertainty))
      (omega arith) (send_at-spent realism tape request arrival rows found impact most e)

early_reason-none :
    (tape : EpisodeTape) (request : SendRequest) (arrival : ℕ)
    → early_reason tape request arrival ≡ none
    → (is_late request.deadline_ns arrival ≡ false)
      × (leb tape.end_utc_ns arrival ≡ false)
      × (lacks_cash request.side request.max_spend_scaled
            (cash_at request.available_cash_scaled arrival)
          ≡ false)
unfolding early_reason
early_reason-none tape request arrival e =
    let (on_time, later) = if_some-none (is_late request.deadline_ns arrival) _ _ e in
    let (before_end, last) = if_some-none (leb tape.end_utc_ns arrival) _ _ later in
    let (pays, _) =
      if_some-none
        (lacks_cash request.side request.max_spend_scaled
          (cash_at request.available_cash_scaled arrival))
        _ _ last in
    (on_time, before_end, pays)

checked-spent :
    (realism : ExecutionRealism) (require_valid : Bool) (tape : EpisodeTape) (request : SendRequest)
    (rows : List (ℕ × TapeRow)) (impact : SelfImpact) (cash : ℕ) (reason : Option RejectedReason)
    → early_reason tape request (arrival_of request) ≡ reason
    → request.side ≡ buy
    → cash_at request.available_cash_scaled (arrival_of request) ≡ some cash
    → spent (send_checked reason realism require_valid tape request rows impact).0 ≤ cash
checked-spent realism require_valid tape request rows impact cash (some reason) e side known =
    omega arith
checked-spent realism require_valid tape request rows impact cash none e side known =
    let pays = (early_reason-none tape request (arrival_of request) e).2 in
    let (most, cap_is, under) = buy_cap request.max_spend_scaled cash (rw (side, known) at pays) in
    let paid =
      send_found-spent realism require_valid tape request (arrival_of request) rows
        (row_at (arrival_of request) rows) impact most (rw (side, known) cap_is) in
    omega (arith, paid, under)

-- A BUY whose cash is limited never spends more, fees included, than the cash there is when it arrives,
-- whether it is sized in shares or in dollars.
pub send-affordable :
    (realism : ExecutionRealism) (require_valid : Bool) (tape : EpisodeTape) (request : SendRequest)
    (rows : List (ℕ × TapeRow)) (impact : SelfImpact) (source : ℕ → ℕ)
    → request.side ≡ buy
    → request.available_cash_scaled ≡ some source
    → spent (send realism require_valid tape request rows impact).0 ≤ source (arrival_of request)
unfolding send
send-affordable realism require_valid tape request rows impact source side limited =
    checked-spent realism require_valid tape request rows impact (source (arrival_of request))
      (early_reason tape request (arrival_of request)) refl side (rw limited refl)

none≢some : {e : ℕ × TapeRow} → ¬ (◌≡◌ {A = Option (ℕ × TapeRow)} none (some e))
none≢some e = cc

-- The entry is of the token.
abbrev IsOf : ℕ → ℕ × TapeRow → Type 0
IsOf token entry = entry.1.token_index ≡ token

token_rows-IsOf : (token n : ℕ) (rows : List TapeRow) → All (IsOf token) (token_rows token n rows)
unfolding token_rows
token_rows-IsOf token n [] = tt
token_rows-IsOf token n (row ∷ rows) =
    let later = token_rows-IsOf token (suc n) rows in
    elim (Bool-cases (row.token_index == token)) [
      | inl own ↦ rw own ((==_iff row.token_index token).0 own, later)
      | inr other ↦ rw other later
    ]

-- What holds of the rows holds of the one that is found, and it is not after the time.
row_at-found :
    (P : ℕ × TapeRow → Type 0) (t : ℕ) (rows : List (ℕ × TapeRow)) {entry : ℕ × TapeRow}
    → All P rows
    → row_at t rows ≡ some entry
    → P entry × (entry.1.received_utc_ns ≤ t)
unfolding row_at
row_at-found P t [] a e = cc
row_at-found P t (row ∷ rows) (p, ps) e = elim (Bool-cases (ltb t row.1.received_utc_ns)) [
  | inl early ↦ absurd (none≢some (rw early at e))
  | inr passed ↦ elim (Option-cases (row_at t rows)) [
    | inl last ↦
        subst (λ x. P x × (x.1.received_utc_ns ≤ t)) (some-injective _ _ (rw (passed, last) at e))
          (p, ltb-false→le t row.1.received_utc_ns passed)
    | inr (later, known) ↦
        subst (λ x. P x × (x.1.received_utc_ns ≤ t)) (some-injective _ _ (rw (passed, known) at e))
          (row_at-found P t rows ps known)
  ]
]

-- What an order that fills has met.
pub record FillWindow (require_valid : Bool) (tape : EpisodeTape) (request : SendRequest)
    (rows : List (ℕ × TapeRow)) : Type 0 where
  pub on_time : is_late request.deadline_ns (arrival_of request) ≡ false
  pub before_end : arrival_of request < tape.end_utc_ns
  pub entry : ℕ × TapeRow
  pub met : row_at (arrival_of request) rows ≡ some entry
  pub own : entry.1.token_index ≡ request.token_index
  pub seen : entry.1.received_utc_ns ≤ arrival_of request
  pub trusted :
      (require_valid
        && (not entry.1.book_valid
            || is_uncertain request.token_index (arrival_of request) tape.uncertainty))
      ≡ false

found-window :
    (realism : ExecutionRealism) (require_valid : Bool) (tape : EpisodeTape) (request : SendRequest)
    (rows : List (ℕ × TapeRow)) (found : Option (ℕ × TapeRow)) (impact : SelfImpact)
    → All (IsOf request.token_index) rows
    → early_reason tape request (arrival_of request) ≡ none
    → row_at (arrival_of request) rows ≡ found
    → is_filled
        (send_found realism require_valid tape request (arrival_of request) rows found impact).0
      ≡ true
    → FillWindow require_valid tape request rows
found-window realism require_valid tape request rows none impact owned e met h =
    absurd (false≢true h)
found-window realism require_valid tape request rows (some entry) impact owned e met h =
    let (on_time, before_end, _) = early_reason-none tape request (arrival_of request) e in
    let untrusted : Bool =
      require_valid
      && (not entry.1.book_valid
          || is_uncertain request.token_index (arrival_of request) tape.uncertainty) in
    elim (Bool-cases untrusted) [
      | inl bad ↦ absurd (false≢true (rw bad at h))
      | inr good ↦ record {
        on_time = on_time;
        before_end = ground (arith, before_end);
        entry = entry;
        met = met;
        own = (row_at-found (IsOf request.token_index) (arrival_of request) rows owned met).0;
        seen = (row_at-found (IsOf request.token_index) (arrival_of request) rows owned met).1;
        trusted = good;
      }
    ]

checked-window :
    (realism : ExecutionRealism) (require_valid : Bool) (tape : EpisodeTape) (request : SendRequest)
    (rows : List (ℕ × TapeRow)) (impact : SelfImpact) (reason : Option RejectedReason)
    → All (IsOf request.token_index) rows
    → early_reason tape request (arrival_of request) ≡ reason
    → is_filled (send_checked reason realism require_valid tape request rows impact).0 ≡ true
    → FillWindow require_valid tape request rows
checked-window realism require_valid tape request rows impact (some reason) owned e h =
    absurd (false≢true h)
checked-window realism require_valid tape request rows impact none owned e h =
    found-window realism require_valid tape request rows (row_at (arrival_of request) rows) impact
      owned e refl h

-- On the rows of its token in the tape, an order fills only if it arrives by its deadline and before the
-- market's end, meets the row that `row_at` finds, which is of its own token and not later than its
-- arrival, and, where valid books are asked for, that row's book is valid and no
-- interval of uncertainty of the token holds at its arrival.
pub send-window :
    (realism : ExecutionRealism) (require_valid : Bool) (tape : EpisodeTape) (request : SendRequest)
    (impact : SelfImpact)
    → let rows = token_rows request.token_index 0 tape.rows in
      is_filled (send realism require_valid tape request rows impact).0 ≡ true
      → FillWindow require_valid tape request rows
unfolding send
send-window realism require_valid tape request impact h =
    let rows : List (ℕ × TapeRow) = token_rows request.token_index 0 tape.rows in
    checked-window realism require_valid tape request rows impact
      (early_reason tape request (arrival_of request))
      (token_rows-IsOf request.token_index 0 tape.rows) refl h
