-- ===== src/OptimalExecution/Cursor.antt =====
-- `CausalVolumeCursor`: the public volume up to a time, counted incrementally. The three arrays are a
-- list of trades here, and the cursor holds the trades from its `_position` on. Times are naturals,
-- so that the time before the start is 0 for a start of 0.
use polymarket_btc_15min_bac.Base.{
  ℕ, ◌+◌, ◌-◌, Bool, true, not, ◌&&◌, List, [], ◌∷◌, length, ltb, leb, ◌==◌, if◌then◌else◌, Result,
  ok, err,
}
use polymarket_btc_15min_bac.OptimalExecution.State.{
  ExecutionError, cursor_backwards, unequal_lengths, unsorted_trades,
}

pub record Trade : Type 0 where
  pub timestamp_utc_ns : ℕ
  pub token_index : ℕ
  pub size_scaled : ℕ

pub record VolumeCursor : Type 0 where
  pub token_index : ℕ
  pub ahead : List Trade
  pub last_utc_ns : ℕ
  pub volume_scaled : ℕ

abbrev pub zip_trades : List ℕ → List ℕ → List ℕ → List Trade
zip_trades [] tokens sizes = []
zip_trades (t ∷ ts) [] sizes = []
zip_trades (t ∷ ts) (k ∷ ks) [] = []
zip_trades (t ∷ ts) (k ∷ ks) (n ∷ ns) =
    record { timestamp_utc_ns = t; token_index = k; size_scaled = n } ∷ zip_trades ts ks ns

-- No trade is before the one that precedes it.
abbrev pub is_sorted_from : ℕ → List Trade → Bool
is_sorted_from time [] = true
is_sorted_from time (t ∷ ts) = leb time t.timestamp_utc_ns && is_sorted_from t.timestamp_utc_ns ts

-- The trades from `bisect_left(timestamps, start)` on.
abbrev pub from_time : ℕ → List Trade → List Trade
from_time start [] = []
from_time start (t ∷ ts) = if ltb t.timestamp_utc_ns start then from_time start ts else t ∷ ts

-- `CausalVolumeCursor.__init__`
unfoldable pub volume_cursor : List ℕ → List ℕ → List ℕ → ℕ → ℕ → Result ExecutionError VolumeCursor
volume_cursor timestamps tokens sizes token start =
    let trades = zip_trades timestamps tokens sizes in
    if not ((length timestamps == length tokens) && (length tokens == length sizes))
    then err unequal_lengths
    else if not (is_sorted_from 0 trades)
    then err unsorted_trades
    else ok (record {
      token_index = token;
      ahead = from_time start trades;
      last_utc_ns = start - 1;
      volume_scaled = 0;
    })

abbrev pub of_token : ℕ → Trade → ℕ
of_token token t = if t.token_index == token then t.size_scaled else 0

-- The token's volume in the trades before `bisect_right(timestamps, now, lo=position)`.
abbrev pub passed : ℕ → ℕ → List Trade → ℕ
passed token now [] = 0
passed token now (t ∷ ts) =
    if leb t.timestamp_utc_ns now then of_token token t + passed token now ts else 0

-- The trades from there on.
abbrev pub after_time : ℕ → List Trade → List Trade
after_time now [] = []
after_time now (t ∷ ts) = if leb t.timestamp_utc_ns now then after_time now ts else t ∷ ts

-- `advance`
unfoldable pub advance : ℕ → VolumeCursor → Result ExecutionError ℕ × VolumeCursor
advance now c =
    let volume = c.volume_scaled + passed c.token_index now c.ahead in
    if ltb now c.last_utc_ns then (err cursor_backwards, c) else (
      ok volume,
      record c { ahead = after_time now c.ahead; last_utc_ns = now; volume_scaled = volume },
    )

-- The cursor after calls at the given times; one that raises leaves it as it is.
abbrev pub advance_all : List ℕ → VolumeCursor → VolumeCursor
advance_all [] c = c
advance_all (now ∷ nows) c = advance_all nows (advance now c).1
