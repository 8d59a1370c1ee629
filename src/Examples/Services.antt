-- ===== src/Examples/Services.antt =====
-- The theorems on a resting order, on the collector's health, on the quality of a replay, on the
-- choice of episodes, and on the scales of numbers.
use polymarket_btc_15min_bac.Base.{
  ◌-◌, ◌^◌, refl, arith, pos, negsuc, ◌*ℤ◌, ok, ◌≡◌, ◌↔◌, true, false, some, none, List, [], ◌∷◌,
  min, if◌then◌else◌,
}
use polymarket_btc_15min_bac.Maker.{
  Observation, trade_seen, decrease_seen, resting, run, proportional, run-trades,
}
use polymarket_btc_15min_bac.Health.{
  HealthInputs, Thresholds, snapshot_state, is_unhealthy, is_near_capacity, is_full, is_alarmed,
  snapshot_state-is_unhealthy,
}
use polymarket_btc_15min_bac.Replay.{QualityInterval, degraded, unreliable}
use polymarket_btc_15min_bac.Clock.{
  finite, integral, in_context, decimal_to_scaled, scaled_to_decimal, scaled_to_decimal-round_trip,
  Reads, parse_numeric-units,
}
use polymarket_btc_15min_bac.Episodes.{MarketRow, build_episode}
use polymarket_btc_15min_bac.Episodes.Causal.{IsCausal, build_episode-IsCausal}
use polymarket_btc_15min_bac.Episodes.Eligible.{IsEligible, build_episode-IsEligible}

abbrev observations : List Observation
observations = trade_seen 30 ∷ decrease_seen 20 100 ∷ trade_seen 70 ∷ []

run-trades_example :
    (run (trade_seen 30 ∷ trade_seen 70 ∷ []) (resting proportional 80 40)).filled_scaled
    ≡ min 40 (100 - 80)
run-trades_example = run-trades (30 ∷ 70 ∷ []) proportional 80 40

abbrev limits : Thresholds
limits = record {
  warning = 300;
  critical = 200;
  emergency = 100;
  high_watermark = 8;
  watermark_den = 10;
}

-- The disk is at the emergency threshold, and the queue is filled to 90 %.
abbrev inputs : HealthInputs
inputs = record {
  gamma_last_success_utc_ns = some 1000;
  clob_connected = true;
  rtds_connected = true;
  last_clob_event_utc_ns = some 1000;
  last_btc_event_utc_ns = none;
  raw_queue_size = 90;
  raw_queue_capacity = 100;
  last_rest_snapshot_utc_ns = some 1000;
  all_books_valid = true;
  clock_synchronized = true;
  disk_free_bytes = 50;
  dropped_events = 3;
}

snapshot_state-is_unhealthy_example :
    is_unhealthy (snapshot_state limits 2000 inputs)
    ≡ (if is_near_capacity limits inputs then is_full inputs else is_alarmed limits inputs)
snapshot_state-is_unhealthy_example = snapshot_state-is_unhealthy limits 2000 inputs

abbrev intervals : List QualityInterval
intervals =
    record { start_utc_ns = 10; end_utc_ns = some 20; state = degraded; details = 1 }
    ∷ record { start_utc_ns = 15; end_utc_ns = none; state = unreliable; details = 2 }
    ∷ []

-- The bids say that UP has won, and Gamma does not know yet.
abbrev market_row : MarketRow
market_row = record {
  up_token = 1;
  down_token = 2;
  start_ns = 100;
  end_ns = 1000;
  up_cov = some (record { first = 90; last = 1010 });
  down_cov = some (record { first = 100; last = 1005 });
  up_terminal = record { bid = some 990_000; received = some 1020 };
  down_terminal = record { bid = none; received = some 1015 };
  reference = some (record { open_px = 50; close_px = 50 });
  gamma_winner = none;
  gamma_received = some 80;
  resolution_winner = none;
  resolution_received = none;
  resolution_conflict = false;
  blocking_errors = 0;
  gap_count = 0;
}

build_episode-IsCausal_example : IsCausal market_row (build_episode 60 true market_row)
build_episode-IsCausal_example = build_episode-IsCausal 60 true market_row

build_episode-IsEligible_example :
    ((build_episode 60 true market_row).exclusion_reason ≡ none)
    ↔ IsEligible true market_row (build_episode 60 true market_row)
build_episode-IsEligible_example = build_episode-IsEligible 60 true market_row

-- A decimal of 31 digits is rounded to the context before it is asked whether it is whole.
long_lem :
    decimal_to_scaled (finite (pos 5_000_000_000_000_000_000_000_000_000_001) 31) (10 ^ 6)
    ≡ ok (pos 500_000)
unfolding decimal_to_scaled integral in_context ◌*ℤ◌
long_lem = refl

-- The decimal 0.42 at the scale of a million.
decimal_lem : decimal_to_scaled (finite (pos 42) 2) (10 ^ 6) ≡ ok (pos 420_000)
unfolding decimal_to_scaled integral in_context ◌*ℤ◌
decimal_lem = refl

scaled_to_decimal-round_trip_example :
    (decimal_to_scaled (scaled_to_decimal (negsuc 6) 6) (10 ^ 6) ≡ ok (negsuc 6))
    × (decimal_to_scaled (scaled_to_decimal (pos 420_000) 6) (10 ^ 2) ≡ ok (pos 42))
scaled_to_decimal-round_trip_example =
    scaled_to_decimal-round_trip (negsuc 6) (pos 42) (pos 420_000) 2 6 (omega arith) (omega arith)
      (omega arith) decimal_lem

parse_numeric-units_example :
    Reads 1_785_000_000 1_785_000_000_000_000_000
    × Reads 1_785_000_000_000 1_785_000_000_000_000_000
    × Reads 1_785_000_000_000_000 1_785_000_000_000_000_000
    × Reads 1_785_000_000_000_000_000 1_785_000_000_000_000_000
parse_numeric-units_example = parse_numeric-units 1_785_000_000 (omega arith) (omega arith)
