-- ===== src/Wallet/Release.antt =====
-- The release loop of `advance_to`: what it keeps, what it pays out, and in what order.
use polymarket_btc_15min_bac.Base.{
  ℕ, ◌+◌, ◌≤◌, ◌<◌, ◌≡◌, refl, true, List, [], ◌∷◌, ◌++◌, leb, sum_by, keep_if, All, All-map, arith,
  inl, inr, Bool-cases, ◌+ℤ◌, pos, int_laws, le→leb,
}
use polymarket_btc_15min_bac.Wallet.{Entry, WalletEvent, entry_amount, release, released, last_due}

-- Heap order by due time: nothing behind an entry is due before it.
abbrev pub IsSorted : List Entry → Type 0
IsSorted [] = Unit
IsSorted (e ∷ es) = All (λ f. e.due ≤ f.due) es × IsSorted es

abbrev pub IsLater : ℕ → List Entry → Type 0
IsLater t = All λ e. t < e.due

unfoldable pub due_now : ℕ → List Entry → ℕ
due_now t es = sum_by entry_amount (keep_if (λ e. leb e.due t) es)

pub due_now-IsLater : (t : ℕ) (es : List Entry) → IsLater t es → due_now t es ≡ 0
unfolding due_now
due_now-IsLater t [] h = refl
due_now-IsLater t (e ∷ es) (h, hs) = ground (arith, due_now-IsLater t es hs)

IsLater-IsSorted :
    (t : ℕ) (e : Entry) (es : List Entry) → t < e.due → IsSorted (e ∷ es) → IsLater t (e ∷ es)
IsLater-IsSorted t e es h (s, _) = (h, All-map _ _ es (λ a p. omega arith) s)

-- `IsTrail b log c`: the balances in the log lead from `b` to `c`, each the one before it plus the
-- amount of its event.
abbrev pub IsTrail : ℕ → List WalletEvent → ℕ → Type 0
IsTrail b [] c = b ≡ c
IsTrail b (e ∷ log) c =
    (pos e.available_cash_scaled ≡ pos b +ℤ e.amount_scaled) × IsTrail e.available_cash_scaled log c

pub IsTrail-snoc :
    (b : ℕ) (log : List WalletEvent) (c : ℕ) (e : WalletEvent)
    → IsTrail b log c
    → pos e.available_cash_scaled ≡ pos c +ℤ e.amount_scaled
    → IsTrail b (log ++ (e ∷ [])) e.available_cash_scaled
IsTrail-snoc b [] c e h step = (rw h step, refl)
IsTrail-snoc b (f ∷ log) c e h step = (h.0, IsTrail-snoc f.available_cash_scaled log c e h.1 step)

module _ (t : ℕ) where
  pub release-conserves :
      (es : List Entry) (cash : ℕ) (log : List WalletEvent)
      → let out = release t es cash log in
        out.available + sum_by entry_amount out.pending ≡ cash + sum_by entry_amount es
  unfolding release
  release-conserves [] cash log = refl
  release-conserves (e ∷ es) cash log =
      let cash' = cash + entry_amount e in
      let ih = release-conserves es cash' (log ++ (released e cash' ∷ [])) in
      elim (Bool-cases (leb e.due t)) [ inl p ↦ rw p (omega arith) | inr p ↦ rw p refl ]

  pub release-IsLater :
      (es : List Entry) (cash : ℕ) (log : List WalletEvent)
      → IsSorted es
      → let left = (release t es cash log).pending in IsLater t left × IsSorted left
  unfolding release
  release-IsLater [] cash log s = (tt, tt)
  release-IsLater (e ∷ es) cash log s =
      let cash' = cash + entry_amount e in
      let ih = release-IsLater es cash' (log ++ (released e cash' ∷ [])) s.1 in
      elim (Bool-cases (leb e.due t)) [
        | inl p ↦ rw p ih
        | inr p ↦ rw p (IsLater-IsSorted t e es (ground arith) s, s)
      ]

  pub release-pays :
      (es : List Entry) (cash : ℕ) (log : List WalletEvent)
      → IsSorted es
      → (release t es cash log).available ≡ cash + due_now t es
  unfolding release due_now
  release-pays [] cash log s = omega arith
  release-pays (e ∷ es) cash log s =
      let cash' = cash + entry_amount e in
      let ih = release-pays es cash' (log ++ (released e cash' ∷ [])) s.1 in
      elim (Bool-cases (leb e.due t)) [
        | inl p ↦ rw p (omega arith)
        | inr p ↦
            let later = IsLater-IsSorted t e es (ground arith) s in
            rw p (omega (arith, due_now-IsLater t es later.1))
      ]

  -- What is released leaves a log in which every balance follows from the one before.
  pub release-IsTrail :
      (start : ℕ) (es : List Entry) (cash : ℕ) (log : List WalletEvent)
      → IsTrail start log cash
      → let out = release t es cash log in IsTrail start out.events out.available
  unfolding release
  release-IsTrail start [] cash log h = h
  release-IsTrail start (e ∷ es) cash log h =
      let cash' = cash + entry_amount e in
      let event = released e cash' in
      let ih =
        release-IsTrail start es cash' (log ++ (event ∷ []))
          (IsTrail-snoc start log cash event h (omega int_laws)) in
      elim (Bool-cases (leb e.due t)) [ inl p ↦ rw p ih | inr p ↦ rw p h ]

-- Releasing up to `t` and then up to `u` is releasing up to `u`.
pub release-release :
    (t u : ℕ) (es : List Entry) (cash : ℕ) (log : List WalletEvent)
    → t ≤ u
    → let out = release t es cash log in
      release u out.pending out.available out.events ≡ release u es cash log
unfolding release
release-release t u [] cash log h = refl
release-release t u (e ∷ es) cash log h =
    let cash' = cash + entry_amount e in
    let ih = release-release t u es cash' (log ++ (released e cash' ∷ [])) h in
    elim (Bool-cases (leb e.due t)) [
      | inl p ↦ let q : leb e.due u ≡ true = ground arith in rw (p, q) ih
      | inr p ↦ rw p refl
    ]

-- Everything is paid once the last credit is due.
pub release-all_due :
    (t : ℕ) (es : List Entry) (cash : ℕ) (log : List WalletEvent)
    → last_due es ≤ t
    → (release t es cash log).pending ≡ []
unfolding release
release-all_due t [] cash log h = refl
release-all_due t (e ∷ es) cash log h =
    let cash' = cash + entry_amount e in
    let ih = release-all_due t es cash' (log ++ (released e cash' ∷ [])) (omega arith) in
    let p : leb e.due t ≡ true = le→leb _ _ (omega arith) in rw p ih
