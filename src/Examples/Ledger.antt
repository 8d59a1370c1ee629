-- ===== src/Examples/Ledger.antt =====
-- The wallet's theorems on a ledger that opens with 100 at time 5 and waits for two credits.
use polymarket_btc_15min_bac.Base.{ℕ, ◌+◌, ◌≡◌, refl, List, [], ◌∷◌, ok, pos, arith}
use polymarket_btc_15min_bac.Wallet.{
  PendingCredit, Entry, ReplayWallet, replay_wallet, peek_available_at, debit, total_equity_scaled,
}
use polymarket_btc_15min_bac.Wallet.Release.{IsSorted, IsLater}
use polymarket_btc_15min_bac.Wallet.Invariant.{
  IsValid, Call, advance_call, debit_call, schedule_call, release_call, run, run-IsValid,
}
use polymarket_btc_15min_bac.Wallet.Cash.{debit-paid}

abbrev credit_of : ℕ → ℕ → PendingCredit
credit_of due amount = record { available_utc_ns = due; amount_scaled = amount; source = "sale" }

abbrev entry_of : ℕ → ℕ → ℕ → Entry
entry_of due sequence amount = record {
  due = due;
  sequence = sequence;
  credit = credit_of due amount;
}

abbrev opened : ReplayWallet
opened = record { available = 100; now = 5; pending = []; sequence = 0; events = [] }

abbrev waiting : ReplayWallet
waiting = record opened { pending = entry_of 7 1 20 ∷ entry_of 9 2 30 ∷ []; sequence = 2 }

abbrev calls : List Call
calls =
    schedule_call (credit_of 9 30)
    ∷ debit_call 6 (pos 40) "buy"
    ∷ debit_call 8 (pos 900) "too much"
    ∷ advance_call 9
    ∷ release_call
    ∷ []

opened_lem : replay_wallet (pos 100) (pos 5) ≡ ok opened
unfolding replay_wallet
opened_lem = refl

waiting-IsSorted : IsSorted waiting.pending
waiting-IsSorted = ((omega arith, tt), (tt, tt))

waiting-IsLater : IsLater waiting.now waiting.pending
waiting-IsLater = (omega arith, (omega arith, tt))

peek_lem : peek_available_at 8 waiting ≡ ok 120
unfolding peek_available_at
peek_lem = refl

run-IsValid_example : IsValid 100 (run calls opened)
run-IsValid_example = run-IsValid (pos 100) (pos 5) opened calls opened_lem

debit-paid_example :
    let (r, w') = debit 8 (pos 110) "buy" waiting in
    (r ≡ ok tt)
    × (w'.available + 110 ≡ 120)
    × (total_equity_scaled w' + 110 ≡ total_equity_scaled waiting)
    × (w'.now ≡ 8)
debit-paid_example = debit-paid 8 110 120 "buy" waiting waiting-IsSorted peek_lem
