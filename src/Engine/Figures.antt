-- ===== src/Engine/Figures.antt =====
-- What the summary's figures count: src/polymarket_bt/backtest/engine.py.
use polymarket_btc_15min_bac.Base.{
  ℕ, ◌+◌, ◌-◌, ◌≤◌, ◌≡◌, true, none, some, List, [], ◌∷◌, leb, if◌then◌else◌, max, length, map, All,
  All-map, arith, Bool-cases, inl, inr,
}
use polymarket_btc_15min_bac.Models.{OrderResult, OrderStatus, rejected, partial, filled}
use polymarket_btc_15min_bac.Replay.{QualityInterval}
use polymarket_btc_15min_bac.Sorting.{
  sorted, IsSorted, sorted-IsSorted, All-sorted, by_key, by_key-IsOrder, lex_le, lex_le-IsOrder,
}
use polymarket_btc_15min_bac.Engine.Summary.{
  Span, span_key, span_of, covered_time, spans_of, is_accepted, is_rejected, count_by,
}

abbrev IsWithin : ℕ → ℕ → Span → Type 0
IsWithin first last span = (first ≤ span.0) × (span.1 ≤ last)

abbrev StartsAfter : Span → Span → Type 0
StartsAfter a b = by_key lex_le span_key a b ≡ true

start-le : (a b : Span) → StartsAfter a b → a.0 ≤ b.0
start-le a b h = ground arith

IsWithin-from :
    (first start last : ℕ) (l : List Span)
    → All (λ (t : Span). start ≤ t.0) l
    → All (λ (t : Span). IsWithin first last t) l
    → All (λ (t : Span). IsWithin start last t) l
IsWithin-from first start last [] _ _ = tt
IsWithin-from first start last (t ∷ l) (p, ps) (q, qs) =
    ((p, q.1), IsWithin-from first start last l ps qs)

-- Spans that start at or after the current one, and end by `last`, cover no time twice.
covered_time-le :
    (last : ℕ) (current : Span) (spans : List Span)
    → current.0 ≤ current.1
    → current.1 ≤ last
    → All (λ s. IsWithin current.0 last s) spans
    → IsSorted (by_key lex_le span_key) spans
    → covered_time (some current) spans ≤ last - current.0
unfolding covered_time
covered_time-le last current [] low high _ _ = omega (arith, low, high)
covered_time-le last current (span ∷ spans) low high (w, ws) (below, s) =
    elim (Bool-cases (leb span.1 span.0)) [
      | inl empty ↦ rw empty (covered_time-le last current spans low high ws s)
      | inr wide ↦ rw wide (elim (Bool-cases (leb span.0 current.1)) [
        | inl meets ↦
            let top : ℕ = max current.1 span.1 in
            rw meets (
              covered_time-le last (current.0, top) spans (omega (arith, low))
                (omega (arith, high, w)) ws s)
        | inr apart ↦
            let ordered : span.0 ≤ span.1 = ground (arith, wide) in
            let after =
              All-map (StartsAfter span) (λ (t : Span). span.0 ≤ t.0) spans (start-le span) below in
            let ih =
              covered_time-le last span spans ordered w.1
                (IsWithin-from current.0 span.0 last spans after ws) s in
            let gap : current.1 ≤ span.0 = ground (arith, apart) in
            rw apart (omega (arith, ih, gap, ordered, w, low))
      ])
    ]

covered_time-start :
    (first last : ℕ) (spans : List Span)
    → All (λ s. IsWithin first last s) spans
    → IsSorted (by_key lex_le span_key) spans
    → covered_time none spans ≤ last - first
unfolding covered_time
covered_time-start first last [] _ _ = omega arith
covered_time-start first last (span ∷ spans) (w, ws) (below, s) =
    elim (Bool-cases (leb span.1 span.0)) [
      | inl empty ↦ rw empty (covered_time-start first last spans ws s)
      | inr wide ↦
          let ordered : span.0 ≤ span.1 = ground (arith, wide) in
          let later =
            All-map (StartsAfter span) (λ (t : Span). span.0 ≤ t.0) spans (start-le span) below in
          let ih =
            covered_time-le last span spans ordered w.1
              (IsWithin-from first span.0 last spans later ws) s in
          rw wide (omega (arith, ih, w))
    ]

spans-IsWithin :
    (first last : ℕ) (intervals : List QualityInterval)
    → All (λ s. IsWithin first last s) (map (span_of first last) intervals)
spans-IsWithin first last [] = tt
spans-IsWithin first last (interval ∷ intervals) =
    ((omega arith, omega arith), spans-IsWithin first last intervals)

-- However the quality intervals overlap, nest or leave the replay, the time that the merged spans cover
-- is at most the time of the replay: no instant is counted twice, so the degraded share never needs its
-- cap.
pub degraded-once :
    (first last : ℕ) (intervals : List QualityInterval)
    → covered_time none (spans_of first last intervals) ≤ last - first
degraded-once first last intervals =
    let le = by_key lex_le span_key in
    let spans = map (span_of first last) intervals in
    covered_time-start first last (sorted le spans)
      (All-sorted le (λ (s : Span). IsWithin first last s) spans
        (spans-IsWithin first last intervals))
      (sorted-IsSorted le (by_key-IsOrder lex_le span_key lex_le-IsOrder) spans)

status-counted :
    (status : OrderStatus)
    → (if is_accepted status then 1 else 0) + (if is_rejected status then 1 else 0) ≡ 1
status-counted rejected = omega arith
status-counted partial = omega arith
status-counted filled = omega arith

count_by-total :
    (results : List OrderResult)
    → count_by is_accepted results + count_by is_rejected results ≡ length results
unfolding count_by
count_by-total [] = omega arith
count_by-total (result ∷ results) =
    omega (arith, status-counted result.status, count_by-total results)
