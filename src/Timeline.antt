-- ===== src/Timeline.antt =====
-- The replay's events and clock, src/polymarket_bt/replay/event_clock.py, and their merging,
-- src/polymarket_bt/replay/merger.py, with the prices and trades of src/polymarket_bt/models/prices.py and
-- src/polymarket_bt/models/trades.py that events carry. A connection's identifier is its place in the
-- order of the identifiers.
pub mod Order
use polymarket_btc_15min_bac.Base.{
  ℕ, Bool, true, false, Option, none, some, List, [], ◌∷◌, ltb, if◌then◌else◌, map, Result, ok, err,
  ◌>>=◌,
}
use polymarket_btc_15min_bac.OrderBook.{BookSnapshot, BookLevelChange}
use polymarket_btc_15min_bac.Reconstructor.{TickSizeChange}
use polymarket_btc_15min_bac.Sorting.{sorted, lex_le, by_key}

pub data ReplayClockMode : Type 0 where
  exchange_time local_receive_time : ReplayClockMode

pub record BtcPriceEvent : Type 0 where
  pub source : ℕ
  pub sequence : ℕ
  pub underlying_source_timestamp_ns : Option ℕ
  pub received_utc_ns : ℕ
  pub price_scaled : ℕ

pub record TradeEvent : Type 0 where
  pub sequence : ℕ
  pub condition_id : ℕ
  pub token_id : ℕ
  pub exchange_timestamp_ns : Option ℕ
  pub received_utc_ns : ℕ
  pub price_scaled : ℕ
  pub size_scaled : Option ℕ

-- `event_type`, with the payload that the engine reads it by.
pub data Payload : Type 0 where
  book_snapshot : BookSnapshot → Payload
  book_update : BookLevelChange → Payload
  tick_size_change : TickSizeChange → Payload
  btc_price : BtcPriceEvent → Payload
  trade : TradeEvent → Payload
  market_resolution : (condition_id winning_token_id : ℕ) → Payload
  other_event : Payload

pub record ReplayEvent : Type 0 where
  pub exchange_timestamp_ns : Option ℕ
  pub received_utc_ns : ℕ
  pub connection_id : ℕ
  pub sequence : ℕ
  pub parent_change_index : ℕ
  pub source_priority : ℕ
  pub payload : Payload

pub data ClockError : Type 0 where
  lacks_exchange_timestamp moved_backwards : ClockError

abbrev pub stamp : Option ℕ → Result ClockError ℕ
stamp none = err lacks_exchange_timestamp
stamp (some t) = ok t

unfoldable pub timestamp : ReplayClockMode → ReplayEvent → Result ClockError ℕ
timestamp local_receive_time event = ok event.received_utc_ns
timestamp exchange_time event = stamp event.exchange_timestamp_ns

pub record EventClock : Type 0 where
  pub mode : ReplayClockMode
  pub current_ns : Option ℕ

abbrev pub new_clock : ReplayClockMode → EventClock
new_clock mode = record { mode = mode; current_ns = none }

abbrev pub is_before : ℕ → Option ℕ → Bool
is_before t none = false
is_before t (some current) = ltb t current

abbrev pub tick : ℕ → EventClock → Result ClockError (ℕ × EventClock)
tick t clock =
    if is_before t clock.current_ns
    then err moved_backwards
    else ok (t, record clock { current_ns = some t })

unfoldable pub advance : ReplayEvent → EventClock → Result ClockError (ℕ × EventClock)
unfolding timestamp
advance event clock = timestamp clock.mode event >>= λ t. tick t clock

-- What the key holds after the time.
abbrev pub tie_break : ReplayEvent → List ℕ
tie_break event =
    event.received_utc_ns ∷ event.source_priority ∷ event.connection_id ∷ event.sequence
    ∷ event.parent_change_index ∷ []

unfoldable pub deterministic_event_key : ReplayClockMode → ReplayEvent → Result ClockError (List ℕ)
unfolding timestamp
deterministic_event_key mode event = timestamp mode event >>= λ t. ok (t ∷ tie_break event)

-- The keys, which `sorted` computes before it compares.
unfoldable pub keyed :
    ReplayClockMode → List ReplayEvent → Result ClockError (List (List ℕ × ReplayEvent))
unfolding deterministic_event_key
keyed mode [] = ok []
keyed mode (event ∷ events) = do
  key ← deterministic_event_key mode event
  rest ← keyed mode events
  ok ((key, event) ∷ rest)

abbrev pub key_of : List ℕ × ReplayEvent → List ℕ
key_of pair = pair.0

abbrev pub event_of : List ℕ × ReplayEvent → ReplayEvent
event_of pair = pair.1

unfoldable pub merge_events :
    ReplayClockMode → List ReplayEvent → Result ClockError (List ReplayEvent)
unfolding keyed sorted
merge_events mode events = do
  pairs ← keyed mode events
  ok (map event_of (sorted (by_key lex_le key_of) pairs))
