-- ===== src/Wallet/Invariant.antt =====
-- The invariant of the ledger, and the calls that a client can make.
use Prim.Native.String.{String}
use polymarket_btc_15min_bac.Base.{
  ℕ, ◌+◌, ◌≤◌, ◌<◌, ◌≡◌, refl, List, [], ◌∷◌, leb, ltb, ◌==◌, sum_by, All, All-map, arith, inl, inr,
  Bool-cases, ◌+ℤ◌, ◌-ℤ◌, ℤ, pos, int_laws, ◌-◌, false, is_neg, pos_part, negsuc, ok, err, Result,
}
use polymarket_btc_15min_bac.Wallet.{
  ReplayWallet, Entry, PendingCredit, entry_amount, advance, advance_to, debit, credit,
  schedule_credit, release_all, heappush, before, replay_wallet, last_due, EventKind, debited,
  credited, credit_released, WalletError, log_event, then_do, then_read, release_up_to,
}
use polymarket_btc_15min_bac.Wallet.Release.{
  IsSorted, IsLater, IsTrail, IsTrail-snoc, release-IsLater, release-IsTrail,
}

-- Pending credits are in heap order and all lie in the future, and the event log leads from the
-- starting cash to the present cash.
pub record IsValid (start : ℕ) (w : ReplayWallet) : Type 0 where
  pub sorted : IsSorted w.pending
  pub later : IsLater w.now w.pending
  pub trail : IsTrail start w.events w.available

pub data Call : Type 0 where
  advance_call : ℕ → Call
  debit_call credit_call : ℕ → ℤ → String → Call
  schedule_call : PendingCredit → Call
  release_call : Call

-- The ledger after a call, whether or not it raised.
unfoldable pub apply : Call → ReplayWallet → ReplayWallet
apply (advance_call t) w = (advance_to t w).1
apply (debit_call t amount source) w = (debit t amount source w).1
apply (credit_call t amount source) w = (credit t amount source w).1
apply (schedule_call c) w = schedule_credit c w
apply release_call w = (release_all w).1

unfoldable pub run : List Call → ReplayWallet → ReplayWallet
unfolding apply
run [] w = w
run (c ∷ cs) w = run cs (apply c w)

heappush-All :
    (d : ℕ) (e : Entry) (es : List Entry)
    → d ≤ e.due
    → All (λ f. d ≤ f.due) es
    → All (λ f. d ≤ f.due) (heappush e es)
unfolding heappush
heappush-All d e [] h a = (h, tt)
heappush-All d e (f ∷ fs) h (a, rest) = elim (Bool-cases (before e f)) [
  | inl p ↦ rw p (h, (a, rest))
  | inr p ↦ rw p (a, heappush-All d e fs h rest)
]

heappush-IsSorted : (e : Entry) (es : List Entry) → IsSorted es → IsSorted (heappush e es)
unfolding heappush
heappush-IsSorted e [] s = (tt, tt)
heappush-IsSorted e (f ∷ fs) (a, s) = elim (Bool-cases (before e f)) [
  | inl p ↦
      let le : e.due ≤ f.due = ground arith in
      rw p ((le, All-map _ _ fs (λ g q. omega arith) a), (a, s))
  | inr p ↦
      let le : f.due ≤ e.due = ground arith in
      rw p (heappush-All f.due e fs le a, heappush-IsSorted e fs s)
]

pub sum_by-heappush :
    (e : Entry) (es : List Entry)
    → sum_by entry_amount (heappush e es) ≡ entry_amount e + sum_by entry_amount es
unfolding heappush
sum_by-heappush e [] = refl
sum_by-heappush e (f ∷ fs) = elim (Bool-cases (before e f)) [
  | inl p ↦ rw p refl
  | inr p ↦ rw p (omega (arith, sum_by-heappush e fs))
]

heappush-IsLater :
    (t : ℕ) (e : Entry) (es : List Entry) → t < e.due → IsLater t es → IsLater t (heappush e es)
unfolding heappush
heappush-IsLater t e [] h a = (h, tt)
heappush-IsLater t e (f ∷ fs) h (a, rest) = elim (Bool-cases (before e f)) [
  | inl p ↦ rw p (h, (a, rest))
  | inr p ↦ rw p (a, heappush-IsLater t e fs h rest)
]

debit_step :
    (cash : ℕ) (amount : ℤ)
    → is_neg amount ≡ false
    → ltb cash (pos_part amount) ≡ false
    → pos (cash - pos_part amount) ≡ pos cash +ℤ (pos 0 -ℤ amount)
debit_step cash (pos n) p r = let le : n ≤ cash = ground arith in omega int_laws
debit_step cash (negsuc n) p r = ground arith

credit_step :
    (cash : ℕ) (amount : ℤ)
    → is_neg amount ≡ false
    → pos (cash + pos_part amount) ≡ pos cash +ℤ amount
credit_step cash (pos n) p = omega int_laws
credit_step cash (negsuc n) p = ground arith

module _ {start : ℕ} where
  pub advance-IsValid :
      (t : ℕ) (w : ReplayWallet) → w.now ≤ t → IsValid start w → IsValid start (advance t w)
  unfolding advance
  advance-IsValid t w h v =
      let kept = release-IsLater t w.pending w.available w.events v.sorted in
      record {
        sorted = kept.1;
        later = kept.0;
        trail = release-IsTrail t start w.pending w.available w.events v.trail;
      }

  pub advance_to-IsValid :
      (t : ℕ) (w : ReplayWallet) → IsValid start w → IsValid start (advance_to t w).1
  unfolding advance_to
  advance_to-IsValid t w v = elim (Bool-cases (ltb t w.now)) [
    | inl p ↦ rw p v
    | inr p ↦ rw p (advance-IsValid t w (ground arith) v)
  ]

  log_event-IsValid :
      (t : ℕ) (kind : EventKind) (amount : ℤ) (cash : ℕ) (source : String) (w : ReplayWallet)
      → pos cash ≡ pos w.available +ℤ amount
      → IsValid start w
      → IsValid start (log_event t kind amount cash source w)
  log_event-IsValid t kind amount cash source w step v = record {
    sorted = v.sorted;
    later = v.later;
    trail = IsTrail-snoc start w.events w.available _ v.trail step;
  }

  then_do-IsValid :
      {A : Type 0} (r : Result WalletError A × ReplayWallet)
      (next : ReplayWallet → Result WalletError (Unit {0}) × ReplayWallet)
      → IsValid start r.1
      → ((w : ReplayWallet) → IsValid start w → IsValid start (next w).1)
      → IsValid start (then_do r next).1
  then_do-IsValid (ok a, w) next v keep = keep w v
  then_do-IsValid (err e, w) next v keep = v

  debit-IsValid :
      (t : ℕ) (amount : ℤ) (source : String) (w : ReplayWallet)
      → IsValid start w
      → IsValid start (debit t amount source w).1
  unfolding debit
  debit-IsValid t amount source w v = elim (Bool-cases (is_neg amount)) [
    | inl p ↦ rw p v
    | inr p ↦ rw p (
        then_do-IsValid (advance_to t w) _ (advance_to-IsValid t w v) λ w' v'.
          elim (Bool-cases (ltb w'.available (pos_part amount))) [
            | inl r ↦ rw r v'
            | inr r ↦ rw r (
                log_event-IsValid t debited (pos 0 -ℤ amount) _ source w'
                  (debit_step w'.available amount p r) v')
          ])
  ]

  credit-IsValid :
      (t : ℕ) (amount : ℤ) (source : String) (w : ReplayWallet)
      → IsValid start w
      → IsValid start (credit t amount source w).1
  unfolding credit
  credit-IsValid t amount source w v = elim (Bool-cases (is_neg amount)) [
    | inl p ↦ rw p v
    | inr p ↦ rw p (
        then_do-IsValid (advance_to t w) _ (advance_to-IsValid t w v) λ w' v'.
          log_event-IsValid t credited amount _ source w' (credit_step w'.available amount p) v')
  ]

  schedule_credit-IsValid :
      (c : PendingCredit) (w : ReplayWallet) → IsValid start w → IsValid start (schedule_credit c w)
  unfolding schedule_credit
  schedule_credit-IsValid c w v = elim (Bool-cases (c.amount_scaled == 0)) [
    | inl p ↦ rw p v
    | inr p ↦ rw p (elim (Bool-cases (leb c.available_utc_ns w.now)) [
      | inl q ↦ rw q (log_event-IsValid _ credit_released _ _ _ w (omega int_laws) v)
      | inr q ↦ rw q (record {
        sorted = heappush-IsSorted _ w.pending v.sorted;
        later = heappush-IsLater w.now _ w.pending (ground arith) v.later;
        trail = v.trail;
      })
    ])
  ]

  then_read-IsValid :
      (r : Result WalletError ℕ × ReplayWallet) → IsValid start r.1 → IsValid start (then_read r).1
  then_read-IsValid (ok _, w) v = v
  then_read-IsValid (err e, w) v = v

  release_up_to-IsValid :
      (es : List Entry) (w : ReplayWallet) → IsValid start w → IsValid start (release_up_to es w).1
  unfolding release_up_to
  release_up_to-IsValid [] w v = v
  release_up_to-IsValid (e ∷ es) w v =
      then_read-IsValid (advance_to (last_due (e ∷ es)) w) (advance_to-IsValid _ w v)

  apply-IsValid : (c : Call) (w : ReplayWallet) → IsValid start w → IsValid start (apply c w)
  unfolding apply release_all
  apply-IsValid (advance_call t) w v = advance_to-IsValid t w v
  apply-IsValid (debit_call t amount source) w v = debit-IsValid t amount source w v
  apply-IsValid (credit_call t amount source) w v = credit-IsValid t amount source w v
  apply-IsValid (schedule_call c) w v = schedule_credit-IsValid c w v
  apply-IsValid release_call w v = release_up_to-IsValid w.pending w v

  run_from-IsValid :
      (cs : List Call) (w : ReplayWallet) → IsValid start w → IsValid start (run cs w)
  unfolding run
  run_from-IsValid [] w v = v
  run_from-IsValid (c ∷ cs) w v = run_from-IsValid cs (apply c w) (apply-IsValid c w v)

replay_wallet-IsValid :
    (cash start : ℤ) (w : ReplayWallet)
    → replay_wallet cash start ≡ ok w
    → IsValid (pos_part cash) w
unfolding replay_wallet
replay_wallet-IsValid cash start w e = ground arith

-- From any start, no sequence of calls, failing ones included, breaks the ledger: pending credits
-- stay in heap order and in the future, and the event log leads from the starting cash to the
-- available cash, each logged balance being the one before it plus the event's signed amount.
pub run-IsValid :
    (cash start : ℤ) (w : ReplayWallet) (cs : List Call)
    → replay_wallet cash start ≡ ok w
    → IsValid (pos_part cash) (run cs w)
unfolding replay_wallet
run-IsValid cash start w cs e = run_from-IsValid cs w (replay_wallet-IsValid cash start w e)
