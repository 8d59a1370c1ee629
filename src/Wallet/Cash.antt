-- ===== src/Wallet/Cash.antt =====
-- What cash a caller of the ledger can spend, and when.
use Prim.Native.String.{String}
use native.Mathlib.Nat.{le_refl}
use polymarket_btc_15min_bac.Base.{
  ℕ, ◌+◌, ◌≤◌, ◌≡◌, refl, true, false, List, [], ◌∷◌, leb, ltb, ◌==◌, if◌then◌else◌, sum_by, arith,
  inl, inr, Bool-cases, ap, ◌∙◌, ok-injective, err≢ok, pos, ok, err, le→ltb-false, ==_iff,
  ltb-false→le,
}
use polymarket_btc_15min_bac.Wallet.{
  ReplayWallet, Entry, PendingCredit, entry_amount, advance, advance_to, debit, schedule_credit,
  release_up_to, release_all, heappush, before, last_due, peek_available_at, total_equity_scaled,
  insufficient_cash,
}
use polymarket_btc_15min_bac.Wallet.Release.{
  IsSorted, IsLater, due_now, release-conserves, release-pays, release-release, release-all_due,
}
use polymarket_btc_15min_bac.Wallet.Invariant.{sum_by-heappush}

-- Looking ahead to a time tells exactly the cash that moving to that time would leave, and is
-- refused exactly when moving there is.
pub advance_to-eq-peek :
    (t : ℕ) (w : ReplayWallet) → IsSorted w.pending → (advance_to t w).0 ≡ peek_available_at t w
unfolding advance_to advance peek_available_at due_now
advance_to-eq-peek t w s = elim (Bool-cases (ltb t w.now)) [
  | inl p ↦ rw p refl
  | inr p ↦ rw p (ap ok (release-pays t w.pending w.available w.events s))
]

pub advance-conserves :
    (t : ℕ) (w : ReplayWallet) → total_equity_scaled (advance t w) ≡ total_equity_scaled w
unfolding advance total_equity_scaled
advance-conserves t w = release-conserves t w.pending w.available w.events

advance_to-forward :
    (t : ℕ) (w : ReplayWallet)
    → w.now ≤ t
    → advance_to t w ≡ (ok (advance t w).available, advance t w)
unfolding advance_to
advance_to-forward t w h = rw (le→ltb-false t w.now h) refl

advance-all_due : (t : ℕ) (w : ReplayWallet) → last_due w.pending ≤ t → (advance t w).pending ≡ []
unfolding advance
advance-all_due t w h = release-all_due t w.pending w.available w.events h

-- Moving in two steps is moving at once: cash, pending credits, clock and event log agree.
pub advance_to-advance_to :
    (t u : ℕ) (w : ReplayWallet)
    → w.now ≤ t
    → t ≤ u
    → advance_to u (advance_to t w).1 ≡ advance_to u w
unfolding advance_to advance
advance_to-advance_to t u w h k =
    rw
      (
        le→ltb-false t w.now h,
        le→ltb-false u w.now (omega arith),
        le→ltb-false u t k,
        release-release t u w.pending w.available w.events k,
      )
      refl

-- Moving to a time at which the cash can be told is moving there.
peek-advance :
    (t : ℕ) {c : ℕ} (w : ReplayWallet)
    → IsSorted w.pending
    → peek_available_at t w ≡ ok c
    → (advance_to t w ≡ (ok (advance t w).available, advance t w)) × ((advance t w).available ≡ c)
unfolding advance_to advance peek_available_at due_now
peek-advance t w s e = elim (Bool-cases (ltb t w.now)) [
  | inl p ↦ absurd (err≢ok (rw p at e))
  | inr p ↦ (rw p refl, release-pays t w.pending w.available w.events s ∙ ok-injective (rw p at e))
]

-- A debit of `a` at `t` is paid exactly when the cash that is released by `t` covers it; otherwise
-- it is refused as insufficient. The cash and the total equity fall by what is paid and by no more,
-- and the clock stands at `t` either way.
pub debit-paid :
    (t a c : ℕ) (source : String) (w : ReplayWallet)
    → IsSorted w.pending
    → peek_available_at t w ≡ ok c
    → let (r, w') = debit t (pos a) source w in
      let paid = if ltb c a then 0 else a in
      (r ≡ (if ltb c a then err insufficient_cash else ok tt))
      × (w'.available + paid ≡ c)
      × (total_equity_scaled w' + paid ≡ total_equity_scaled w)
      × (w'.now ≡ t)
unfolding debit total_equity_scaled
debit-paid t a c source w s e =
    let (moved, cash) = peek-advance t w s e in
    let kept = advance-conserves t w in
    elim (Bool-cases (ltb c a)) [
      | inl p ↦
          let q : ltb (advance t w).available a ≡ true = rw cash p in
          rw (moved, q, p) (refl, omega arith, omega arith, refl)
      | inr p ↦
          let q : ltb (advance t w).available a ≡ false = rw cash p in
          let le : a ≤ (advance t w).available = ltb-false→le _ _ q in
          rw (moved, q, p) (refl, omega arith, omega arith, refl)
    ]

due_now-heappush :
    (t : ℕ) (e : Entry) (es : List Entry)
    → due_now t (heappush e es) ≡ (if leb e.due t then entry_amount e else 0) + due_now t es
unfolding due_now heappush
due_now-heappush t e [] = elim (Bool-cases (leb e.due t)) [ inl p ↦ rw p refl | inr p ↦ rw p refl ]
due_now-heappush t e (f ∷ fs) =
    let ih = due_now-heappush t e fs in
    elim (Bool-cases (before e f)) [
      | inl p ↦
          rw p (elim (Bool-cases (leb e.due t)) [ inl q ↦ rw q refl | inr q ↦ rw q (omega arith) ])
      | inr p ↦
          rw p (elim (Bool-cases (leb f.due t)) [ inl q ↦ rw q (omega arith) | inr q ↦ rw q ih ])
    ]

abbrev new_entry : PendingCredit → ReplayWallet → Entry
new_entry p w = record { due = p.available_utc_ns; sequence = w.sequence + 1; credit = p }

-- A scheduled credit can be spent from its due time on and not before: looking ahead to any time
-- from now on, the cash is what it was without the credit, plus the credit if it is due by then.
pub peek-schedule_credit :
    (t : ℕ) (p : PendingCredit) (w : ReplayWallet) {c : ℕ}
    → peek_available_at t w ≡ ok c
    → peek_available_at t (schedule_credit p w)
      ≡ ok (c + (if leb p.available_utc_ns t then p.amount_scaled else 0))
unfolding peek_available_at schedule_credit due_now
peek-schedule_credit t p w e = elim (Bool-cases (ltb t w.now)) [
  | inl past ↦ absurd (err≢ok (rw past at e))
  | inr past ↦
      let cash = ok-injective (rw past at e) in
      elim (Bool-cases (p.amount_scaled == 0)) [
        | inl z ↦ let e' = (==_iff _ _).0 z in rw (z, past) (ap ok (grind arith))
        | inr z ↦ rw z (elim (Bool-cases (leb p.available_utc_ns w.now)) [
          | inl q ↦
              let due : leb p.available_utc_ns t ≡ true = ground arith in
              rw (q, past, due) (ap ok (omega arith))
          | inr q ↦
              rw (q, past) (ap ok (omega (arith, due_now-heappush t (new_entry p w) w.pending)))
        ])
      ]
]

-- Scheduling a credit raises the total equity by its amount at once, due or not.
pub schedule_credit-equity :
    (p : PendingCredit) (w : ReplayWallet)
    → total_equity_scaled (schedule_credit p w) ≡ total_equity_scaled w + p.amount_scaled
unfolding schedule_credit total_equity_scaled
schedule_credit-equity p w = elim (Bool-cases (p.amount_scaled == 0)) [
  | inl z ↦ rw z (let e = (==_iff _ _).0 z in omega arith)
  | inr z ↦ rw z (elim (Bool-cases (leb p.available_utc_ns w.now)) [
    | inl q ↦ rw q (omega arith)
    | inr q ↦ rw q (omega (arith, sum_by-heappush _ w.pending))
  ])
]

release_up_to-settles :
    (es : List Entry) (w : ReplayWallet)
    → w.pending ≡ es
    → IsLater w.now es
    → let (r, w') = release_up_to es w in
      (w'.pending ≡ []) × (w'.available ≡ total_equity_scaled w) × (r ≡ ok w'.available)
unfolding release_up_to total_equity_scaled
release_up_to-settles [] w p h = (p, omega (arith, ap (sum_by entry_amount) p), refl)
release_up_to-settles (e ∷ es) w p h =
    let t = last_due (e ∷ es) in
    let moved : advance_to t w ≡ (ok (advance t w).available, advance t w) =
      advance_to-forward t w (omega arith) in
    let none_left = advance-all_due t w (rw p (le_refl t)) in
    let kept = advance-conserves t w in
    rw moved (none_left, omega (arith, ap (sum_by entry_amount) none_left), refl)

-- Releasing everything leaves no credit pending, and all of the equity is cash.
pub release_all-settles :
    (w : ReplayWallet)
    → IsLater w.now w.pending
    → let (r, w') = release_all w in
      (w'.pending ≡ []) × (w'.available ≡ total_equity_scaled w) × (r ≡ ok w'.available)
unfolding release_all
release_all-settles w h = release_up_to-settles w.pending w refl h
