-- ===== src/Wallet.antt =====
-- The timestamped collateral ledger, `ReplayWallet` of src/polymarket_bt/backtest/wallet.py.
-- Amounts that a caller passes are signed, as in Python, and are refused below zero; cash and
-- timestamps are naturals from then on. The heap of pending credits is a list in heap order: its
-- pop is the head, its push inserts by (due time, sequence number).
pub mod Release
pub mod Invariant
pub mod Cash
use Prim.Native.String.{String}
use polymarket_btc_15min_bac.Base.{
  ℕ, ◌+◌, ◌-◌, Bool, true, false, ◌&&◌, ◌||◌, List, [], ◌∷◌, ◌++◌, ltb, leb, ◌==◌, if◌then◌else◌,
  sum_by, keep_if, Result, ok, err, ◌>>=◌, ◌>>◌, raise_if, ℤ, pos, pos_part, is_neg, ◌-ℤ◌, max,
}

pub data WalletError : Type 0 where
  negative_timestamp negative_amount negative_start backwards insufficient_cash : WalletError

pub record PendingCredit : Type 0 where
  pub available_utc_ns : ℕ
  pub amount_scaled : ℕ
  pub source : String

-- `PendingCredit.__post_init__`
unfoldable pub pending_credit : ℤ → ℤ → String → Result WalletError PendingCredit
pending_credit available amount source = do
  raise_if (is_neg available) negative_timestamp
  raise_if (is_neg amount) negative_amount
  ok (record {
    available_utc_ns = pos_part available;
    amount_scaled = pos_part amount;
    source = source;
  })

pub data EventKind : Type 0 where
  credit_released debited credited : EventKind

pub record WalletEvent : Type 0 where
  pub timestamp_utc_ns : ℕ
  pub kind : EventKind
  pub amount_scaled : ℤ
  pub available_cash_scaled : ℕ
  pub source : String

-- An entry of the heap: due time, sequence number, credit.
pub record Entry : Type 0 where
  pub due : ℕ
  pub sequence : ℕ
  pub credit : PendingCredit

pub record ReplayWallet : Type 0 where
  pub available : ℕ
  pub now : ℕ
  pub pending : List Entry
  pub sequence : ℕ
  pub events : List WalletEvent

-- `ReplayWallet.__init__`
unfoldable pub replay_wallet : ℤ → ℤ → Result WalletError ReplayWallet
replay_wallet starting_cash start_utc_ns = do
  raise_if (is_neg starting_cash) negative_start
  raise_if (is_neg start_utc_ns) negative_timestamp
  ok (record {
    available = pos_part starting_cash;
    now = pos_part start_utc_ns;
    pending = [];
    sequence = 0;
    events = [];
  })

abbrev pub entry_amount : Entry → ℕ
entry_amount e = e.credit.amount_scaled

abbrev pub pending_cash_scaled : ReplayWallet → ℕ
pending_cash_scaled w = sum_by entry_amount w.pending

unfoldable pub total_equity_scaled : ReplayWallet → ℕ
total_equity_scaled w = w.available + pending_cash_scaled w

unfoldable pub peek_available_at : ℕ → ReplayWallet → Result WalletError ℕ
peek_available_at t w =
    if ltb t w.now
    then err backwards
    else ok (w.available + sum_by entry_amount (keep_if (λ e. leb e.due t) w.pending))

-- The event that the loop of `advance_to` appends for a credit that it releases.
abbrev pub released : Entry → ℕ → WalletEvent
released e cash = record {
  timestamp_utc_ns = e.due;
  kind = credit_released;
  amount_scaled = pos (entry_amount e);
  available_cash_scaled = cash;
  source = e.credit.source;
}

-- The `while` loop of `advance_to`, over the heap, the cash and the event list.
unfoldable pub release :
    ℕ
    → List Entry
    → ℕ
    → List WalletEvent
    → record { pending : List Entry; available : ℕ; events : List WalletEvent }
release t [] cash events = record { pending = []; available = cash; events = events }
release t (e ∷ pending) cash events =
    let cash' = cash + entry_amount e in
    let rest = release t pending cash' (events ++ (released e cash' ∷ [])) in
    if leb e.due t
    then rest
    else record { pending = e ∷ pending; available = cash; events = events }

unfoldable pub advance : ℕ → ReplayWallet → ReplayWallet
advance t w =
    let out = release t w.pending w.available w.events in
    record w { available = out.available; now = t; pending = out.pending; events = out.events }

unfoldable pub advance_to : ℕ → ReplayWallet → Result WalletError ℕ × ReplayWallet
unfolding advance
advance_to t w =
    if ltb t w.now then (err backwards, w) else (ok (advance t w).available, advance t w)

abbrev pub log_event : ℕ → EventKind → ℤ → ℕ → String → ReplayWallet → ReplayWallet
log_event t kind amount cash source w = record w {
  available = cash;
  events =
      w.events
      ++ (record {
        timestamp_utc_ns = t;
        kind = kind;
        amount_scaled = amount;
        available_cash_scaled = cash;
        source = source;
      }
          ∷ []);
}

-- What a failed step leaves behind: the error, and the state as it was.
abbrev pub then_do :
    {A : Type 0}
    → Result WalletError A × ReplayWallet
    → (ReplayWallet → Result WalletError (Unit {0}) × ReplayWallet)
    → Result WalletError (Unit {0}) × ReplayWallet
then_do (ok _, w) next = next w
then_do (err e, w) next = (err e, w)

unfoldable pub debit : ℕ → ℤ → String → ReplayWallet → Result WalletError (Unit {0}) × ReplayWallet
unfolding advance_to
debit t amount source w =
    if is_neg amount
    then (err negative_amount, w)
    else then_do (advance_to t w) λ w'.
      if ltb w'.available (pos_part amount)
      then (err insufficient_cash, w')
      else (ok tt, log_event t debited (pos 0 -ℤ amount) (w'.available - pos_part amount) source w')

unfoldable pub credit : ℕ → ℤ → String → ReplayWallet → Result WalletError (Unit {0}) × ReplayWallet
unfolding advance_to
credit t amount source w =
    if is_neg amount
    then (err negative_amount, w)
    else then_do (advance_to t w)
        λ w'. (ok tt, log_event t credited amount (w'.available + pos_part amount) source w')

-- The order of the heap's tuples. Sequence numbers differ, so credits are never compared.
abbrev pub before : Entry → Entry → Bool
before e f = ltb e.due f.due || (e.due == f.due && ltb e.sequence f.sequence)

unfoldable pub heappush : Entry → List Entry → List Entry
heappush e [] = e ∷ []
heappush e (f ∷ fs) = if before e f then e ∷ f ∷ fs else f ∷ heappush e fs

unfoldable pub schedule_credit : PendingCredit → ReplayWallet → ReplayWallet
unfolding heappush
schedule_credit c w =
    if c.amount_scaled == 0
    then w
    else if leb c.available_utc_ns w.now
    then log_event w.now credit_released (pos c.amount_scaled) (w.available + c.amount_scaled)
        c.source w
    else record w {
      sequence = w.sequence + 1;
      pending =
          heappush (record { due = c.available_utc_ns; sequence = w.sequence + 1; credit = c })
            w.pending;
    }

-- `max(item[0] for item in self._pending)`
abbrev pub last_due : List Entry → ℕ
last_due [] = 0
last_due (e ∷ es) = max e.due (last_due es)

abbrev pub then_read : Result WalletError ℕ × ReplayWallet → Result WalletError ℕ × ReplayWallet
then_read (ok _, w) = (ok w.available, w)
then_read (err e, w) = (err e, w)

-- `release_all`, on whether anything is pending.
unfoldable pub release_up_to : List Entry → ReplayWallet → Result WalletError ℕ × ReplayWallet
unfolding advance_to
release_up_to [] w = (ok w.available, w)
release_up_to (e ∷ es) w = then_read (advance_to (last_due (e ∷ es)) w)

unfoldable pub release_all : ReplayWallet → Result WalletError ℕ × ReplayWallet
unfolding release_up_to
release_all w = release_up_to w.pending w
