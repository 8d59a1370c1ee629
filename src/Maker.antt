-- ===== src/Maker.antt =====
-- The queue of a resting order, src/polymarket_bt/backtest/maker.py: `MakerQueueState`.
use polymarket_btc_15min_bac.Base.{
  ℕ, ◌+◌, ◌-◌, ◌*◌, ◌/◌, ◌≤◌, ◌≡◌, refl, List, [], ◌∷◌, min, sum_by, if◌then◌else◌, ◌==◌, arith,
  Bool-cases, inl, inr,
}

pub data QueueModel : Type 0 where
  optimistic conservative proportional : QueueModel

pub record MakerQueueState : Type 0 where
  pub displayed_ahead_scaled : ℕ
  pub simulated_size_scaled : ℕ
  pub queue_model : QueueModel
  pub filled_scaled : ℕ

-- `observe_trade`: the fill, and the state after it.
unfoldable pub observe_trade : ℕ → MakerQueueState → ℕ × MakerQueueState
observe_trade trade s =
    let advance = min s.displayed_ahead_scaled trade in
    let residual = trade - advance in
    let fill = min residual (s.simulated_size_scaled - s.filled_scaled) in
    (
      fill,
      record s {
        displayed_ahead_scaled = s.displayed_ahead_scaled - advance;
        filled_scaled = s.filled_scaled + fill;
      },
    )

-- What is left ahead after a decrease of the displayed size, by the model of the queue.
abbrev pub ahead_after : QueueModel → ℕ → ℕ → ℕ → ℕ
ahead_after conservative decrease total ahead = ahead
ahead_after optimistic decrease total ahead = ahead - decrease
ahead_after proportional decrease total ahead =
    if total == 0 then ahead else ahead - (ahead * decrease / total)

-- `observe_displayed_decrease`
unfoldable pub observe_displayed_decrease : ℕ → ℕ → MakerQueueState → MakerQueueState
observe_displayed_decrease decrease total s = record s {
  displayed_ahead_scaled = ahead_after s.queue_model decrease total s.displayed_ahead_scaled;
}

pub data Observation : Type 0 where
  trade_seen : ℕ → Observation
  decrease_seen : ℕ → ℕ → Observation

abbrev pub observe : Observation → MakerQueueState → MakerQueueState
observe (trade_seen trade) s = (observe_trade trade s).1
observe (decrease_seen decrease total) s = observe_displayed_decrease decrease total s

abbrev pub run : List Observation → MakerQueueState → MakerQueueState
run [] s = s
run (o ∷ os) s = run os (observe o s)

-- A resting order of a size, behind a queue.
abbrev pub resting : QueueModel → ℕ → ℕ → MakerQueueState
resting model ahead size = record {
  displayed_ahead_scaled = ahead;
  simulated_size_scaled = size;
  queue_model = model;
  filled_scaled = 0;
}

abbrev trades_seen : List ℕ → List Observation
trades_seen [] = []
trades_seen (n ∷ ns) = trade_seen n ∷ trades_seen ns

-- The first state is as far in its queue as the second, which is conservative, or further.
record IsFurther (n : ℕ) (a b : MakerQueueState) : Type 0 where
  size : a.simulated_size_scaled ≡ n
  same : b.simulated_size_scaled ≡ n
  ahead : a.displayed_ahead_scaled ≤ b.displayed_ahead_scaled
  filled : b.filled_scaled ≤ a.filled_scaled
  within : a.filled_scaled ≤ n
  model : b.queue_model ≡ conservative

ahead_after-le :
    (model : QueueModel) (decrease total ahead : ℕ) → ahead_after model decrease total ahead ≤ ahead
ahead_after-le conservative decrease total ahead = omega arith
ahead_after-le optimistic decrease total ahead = omega arith
ahead_after-le proportional decrease total ahead = elim (Bool-cases (total == 0)) [
  | inl nothing ↦ rw nothing (omega arith)
  | inr something ↦ rw something (omega arith)
]

observe-IsFurther :
    (o : Observation) (n : ℕ) (a b : MakerQueueState)
    → IsFurther n a b
    → IsFurther n (observe o a) (observe o b)
unfolding observe_trade observe_displayed_decrease
observe-IsFurther (trade_seen trade) n a b h =
    let size = h.size in
    let same = h.same in
    let ahead = h.ahead in
    let filled = h.filled in
    let within = h.within in
    record {
      size = size;
      same = same;
      ahead = omega arith;
      filled = omega arith;
      within = omega arith;
      model = h.model;
    }
observe-IsFurther (decrease_seen decrease total) n a b h =
    let ahead = h.ahead in
    let less = ahead_after-le a.queue_model decrease total a.displayed_ahead_scaled in
    let still : ahead_after b.queue_model decrease total b.displayed_ahead_scaled
        ≡ b.displayed_ahead_scaled =
      rw h.model refl in
    record {
      size = h.size;
      same = h.same;
      ahead = omega (arith, less, still);
      filled = h.filled;
      within = h.within;
      model = h.model;
    }

run-IsFurther :
    (os : List Observation) (n : ℕ) (a b : MakerQueueState)
    → IsFurther n a b
    → IsFurther n (run os a) (run os b)
run-IsFurther [] n a b h = h
run-IsFurther (o ∷ os) n a b h =
    run-IsFurther os n (observe o a) (observe o b) (observe-IsFurther o n a b h)

-- On the same observations the conservative model fills no more than any other, and no model fills
-- more than the order.
pub run-conservative :
    (os : List Observation) (model : QueueModel) (ahead size : ℕ)
    → ((run os (resting conservative ahead size)).filled_scaled
        ≤ (run os (resting model ahead size)).filled_scaled)
      × ((run os (resting model ahead size)).filled_scaled ≤ size)
run-conservative os model ahead size =
    let further =
      run-IsFurther os size (resting model ahead size) (resting conservative ahead size) (record {
        size = refl;
        same = refl;
        ahead = omega arith;
        filled = omega arith;
        within = omega arith;
        model = refl;
      }) in
    (further.filled, further.within)

trades-filled :
    (trades : List ℕ) (s : MakerQueueState)
    → s.filled_scaled ≤ s.simulated_size_scaled
    → (run (trades_seen trades) s).filled_scaled
      ≡ min s.simulated_size_scaled
          (s.filled_scaled + (sum_by (λ n. n) trades - s.displayed_ahead_scaled))
unfolding observe_trade
trades-filled [] s h = omega arith
trades-filled (n ∷ ns) s h =
    let next = (observe_trade n s).1 in
    let ih = trades-filled ns next (omega arith) in omega (arith, ih)

-- Trades alone fill a resting order by what they exceed the queue ahead of it, up to its size: nothing
-- is filled before the queue is consumed, and how the volume is cut into trades does not matter.
pub run-trades :
    (trades : List ℕ) (model : QueueModel) (ahead size : ℕ)
    → (run (trades_seen trades) (resting model ahead size)).filled_scaled
      ≡ min size (sum_by (λ n. n) trades - ahead)
run-trades trades model ahead size =
    omega (arith, trades-filled trades (resting model ahead size) (omega arith))
