-- ===== src/Episodes.antt =====
-- Which markets become episodes: the rules that `EpisodeIndexBuilder.build` of
-- src/polymarket_bt/backtest/episodes.py applies to the rows of one market. The rows themselves come from the
-- database; a row that is missing is `none` or has empty fields. Confidences are in hundredths.
pub mod Causal
pub mod Eligible
use mathlib.Core.Option
use polymarket_btc_15min_bac.Base.{
  ℕ, ◌+◌, Bool, true, false, ◌&&◌, ◌||◌, not, Option, none, some, min, max, ltb, leb, ◌==◌,
  if◌then◌else◌, is_some, ℤ, sub_ℕ, is_neg,
}

pub data WinnerSource : Type 0 where
  market_resolution gamma terminal_book reference_price ambiguous : WinnerSource

pub data Exclusion : Type 0 where
  missing_book_data_for_one_side winner_not_determinable non_replay_eligible_quality_error
        clob_connection_gap_during_market book_data_starts_after_market_open
        book_data_ends_before_market_close :
      Exclusion

pub record Coverage : Type 0 where
  pub first : ℕ
  pub last : ℕ

pub record Terminal : Type 0 where
  pub bid : Option ℕ
  pub received : Option ℕ

pub record Reference : Type 0 where
  pub open_px : ℕ
  pub close_px : ℕ

-- What the tables have of one market.
pub record MarketRow : Type 0 where
  pub up_token : ℕ
  pub down_token : ℕ
  pub start_ns : ℕ
  pub end_ns : ℕ
  pub up_cov : Option Coverage
  pub down_cov : Option Coverage
  pub up_terminal : Terminal
  pub down_terminal : Terminal
  pub reference : Option Reference
  pub gamma_winner : Option ℕ
  pub gamma_received : Option ℕ
  pub resolution_winner : Option ℕ
  pub resolution_received : Option ℕ
  pub resolution_conflict : Bool
  pub blocking_errors : ℕ
  pub gap_count : ℕ

pub record Verdict : Type 0 where
  pub winner : Option ℕ
  pub source : WinnerSource
  pub confidence : ℕ

-- The fields of an `Episode` that `build` computes by these rules; `eligible` is that no reason
-- excludes it.
pub record Episode : Type 0 where
  pub winner_token_id : Option ℕ
  pub winner_source : WinnerSource
  pub winner_confidence : ℕ
  pub coverage_start_lead_ns : Option ℤ
  pub coverage_end_lag_ns : Option ℤ
  pub exclusion_reason : Option Exclusion
  pub resolution_received_utc_ns : Option ℕ

-- `bid is not None and bid >= SETTLED_BID_SCALED`
abbrev pub is_settled : Option ℕ → Bool
is_settled none = false
is_settled (some bid) = leb 950_000 bid

-- `bid is None or bid <= SETTLED_ASK_SCALED`
abbrev pub is_dead : Option ℕ → Bool
is_dead none = true
is_dead (some bid) = leb bid 50_000

unfoldable pub winner_from_terminal_book : ℕ → ℕ → Option ℕ → Option ℕ → Option ℕ
winner_from_terminal_book up down up_bid down_bid =
    if is_settled up_bid && is_dead down_bid
    then some up
    else if is_settled down_bid && is_dead up_bid
    then some down
    else none

unfoldable pub winner_from_reference : ℕ → ℕ → Option Reference → Option ℕ
winner_from_reference up down none = none
winner_from_reference up down (some reference) =
    some (if leb reference.open_px reference.close_px then up else down)

-- `winner in {up_token, down_token}`
abbrev pub is_either : ℕ → ℕ → ℕ → Bool
is_either up down token = (token == up) || (token == down)

abbrev pub nobody : Verdict
nobody = record { winner = none; source = ambiguous; confidence = 0 }

abbrev pub named : ℕ → WinnerSource → ℕ → Verdict
named token source confidence = record {
  winner = some token;
  source = source;
  confidence = confidence;
}

abbrev pub inferred : Option ℕ → Option ℕ → Verdict
inferred (some book) (some close) = if book == close then named book terminal_book 99 else nobody
inferred (some book) none = named book terminal_book 90
inferred none (some close) = named close reference_price 70
inferred none none = nobody

unfoldable pub inference : MarketRow → Verdict
inference row =
    let bids = winner_from_terminal_book row.up_token row.down_token row.up_terminal.bid in
    inferred (bids row.down_terminal.bid)
      (winner_from_reference row.up_token row.down_token row.reference)

-- The rules after the lifecycle event: Gamma's winner, then the inferences.
abbrev pub without_resolution : MarketRow → Option ℕ → Verdict
without_resolution row none = inference row
without_resolution row (some token) =
    let rest = inference row in
    if is_either row.up_token row.down_token token then named token gamma 100 else rest

abbrev pub with_resolution : MarketRow → Option ℕ → Verdict
with_resolution row none = without_resolution row row.gamma_winner
with_resolution row (some token) =
    if is_either row.up_token row.down_token token
    then named token market_resolution 100
    else nobody

unfoldable pub resolve_winner : MarketRow → Verdict
resolve_winner row =
    if row.resolution_conflict then nobody else with_resolution row row.resolution_winner

-- A receipt after the end, or else the end of the observation window.
abbrev pub received_or_window : ℕ → ℕ → ℕ → ℕ
received_or_window post_end_ns end_ns received =
    if ltb end_ns received then received else end_ns + post_end_ns

unfoldable pub resolution_available_time :
    ℕ → ℕ → Option ℕ → Option ℕ → Option ℕ → WinnerSource → Option ℕ
resolution_available_time post_end_ns end_ns event gamma_row book market_resolution =
    Option.map (max end_ns) event
resolution_available_time post_end_ns end_ns event gamma_row book gamma =
    Option.map (received_or_window post_end_ns end_ns) gamma_row
resolution_available_time post_end_ns end_ns event gamma_row book terminal_book =
    Option.map (received_or_window post_end_ns end_ns) book
resolution_available_time post_end_ns end_ns event gamma_row book reference_price =
    some (end_ns + post_end_ns)
resolution_available_time post_end_ns end_ns event gamma_row book ambiguous = none

-- `max` and `min` over what is not None, with None for nothing.
abbrev pub join : (ℕ → ℕ → ℕ) → Option ℕ → Option ℕ → Option ℕ
join f none b = b
join f (some a) none = some a
join f (some a) (some b) = some (f a b)

abbrev pub coverage_lead : MarketRow → Option ℤ
coverage_lead row =
    Option.map (sub_ℕ row.start_ns)
      (join max (Option.map Coverage.first row.up_cov) (Option.map Coverage.first row.down_cov))

abbrev pub coverage_lag : MarketRow → Option ℤ
coverage_lag row =
    Option.map (λ last. sub_ℕ last row.end_ns)
      (join min (Option.map Coverage.last row.up_cov) (Option.map Coverage.last row.down_cov))

-- `lead is None or lead < 0`
abbrev pub is_short : Option ℤ → Bool
is_short none = true
is_short (some margin) = is_neg margin

abbrev pub is_ambiguous : WinnerSource → Bool
is_ambiguous market_resolution = false
is_ambiguous gamma = false
is_ambiguous terminal_book = false
is_ambiguous reference_price = false
is_ambiguous ambiguous = true

-- The checks of the full window.
abbrev pub window_reason : Bool → MarketRow → Option Exclusion
window_reason false row = none
window_reason true row =
    if is_short (coverage_lead row)
    then some book_data_starts_after_market_open
    else if is_short (coverage_lag row)
    then some book_data_ends_before_market_close
    else none

unfoldable pub exclusion_reason : Bool → MarketRow → WinnerSource → Option Exclusion
exclusion_reason require_full_window row source =
    if not (is_some row.up_cov) || not (is_some row.down_cov)
    then some missing_book_data_for_one_side
    else if is_ambiguous source
    then some winner_not_determinable
    else if not (row.blocking_errors == 0)
    then some non_replay_eligible_quality_error
    else if not (row.gap_count == 0)
    then some clob_connection_gap_during_market
    else window_reason require_full_window row

-- One turn of the loop of `build`.
unfoldable pub build_episode : ℕ → Bool → MarketRow → Episode
build_episode post_end_ns require_full_window row =
    let verdict = resolve_winner row in
    record {
      winner_token_id = verdict.winner;
      winner_source = verdict.source;
      winner_confidence = verdict.confidence;
      coverage_start_lead_ns = coverage_lead row;
      coverage_end_lag_ns = coverage_lag row;
      exclusion_reason = exclusion_reason require_full_window row verdict.source;
      resolution_received_utc_ns =
          resolution_available_time post_end_ns row.end_ns row.resolution_received
            row.gamma_received (join max row.up_terminal.received row.down_terminal.received)
            verdict.source;
    }
