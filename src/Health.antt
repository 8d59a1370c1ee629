-- ===== src/Health.antt =====
-- The collector's health state, `HealthMonitor.snapshot` of src/polymarket_bt/monitoring/health.py. The
-- thresholds of the disk are in bytes, and the watermark of the queue is the fraction
-- `high_watermark / watermark_den`, which the code has as a float. The texts of the reasons are left
-- out.
use polymarket_btc_15min_bac.Base.{
  ℕ, ◌-◌, ◌*◌, ◌≡◌, ◌∙◌, ap, refl, Bool, true, false, not, ◌||◌, Option, none, some, max, ltb, leb,
  ◌==◌, if◌then◌else◌, Bool-cases, inl, inr,
}

pub data HealthState : Type 0 where
  healthy degraded unhealthy : HealthState

pub record HealthInputs : Type 0 where
  pub gamma_last_success_utc_ns : Option ℕ
  pub clob_connected : Bool
  pub rtds_connected : Bool
  pub last_clob_event_utc_ns : Option ℕ
  pub last_btc_event_utc_ns : Option ℕ
  pub raw_queue_size : ℕ
  pub raw_queue_capacity : ℕ
  pub last_rest_snapshot_utc_ns : Option ℕ
  pub all_books_valid : Bool
  pub clock_synchronized : Bool
  pub disk_free_bytes : ℕ
  pub dropped_events : ℕ

pub record Thresholds : Type 0 where
  pub warning : ℕ
  pub critical : ℕ
  pub emergency : ℕ
  pub high_watermark : ℕ
  pub watermark_den : ℕ

-- `if state == "healthy": state = "degraded"`, under a condition.
abbrev pub degrade_if : Bool → HealthState → HealthState
degrade_if false state = state
degrade_if true healthy = degraded
degrade_if true degraded = degraded
degrade_if true unhealthy = unhealthy

abbrev pub unhealthy_if : Bool → HealthState → HealthState
unhealthy_if test state = if test then unhealthy else state

-- No event, or one that is more than the threshold ago.
abbrev pub is_late : ℕ → Option ℕ → ℕ → Bool
is_late now none seconds = true
is_late now (some time) seconds = ltb (seconds * 1_000_000_000) (now - time)

abbrev pub disk_state : Thresholds → ℕ → HealthState
disk_state limits free =
    if leb free limits.emergency
    then unhealthy
    else if leb free limits.critical
    then unhealthy
    else if leb free limits.warning
    then degraded
    else healthy

-- `utilization >= high_watermark_fraction`
abbrev pub is_near_capacity : Thresholds → HealthInputs → Bool
is_near_capacity limits inputs =
    leb (limits.high_watermark * max inputs.raw_queue_capacity 1)
      (inputs.raw_queue_size * limits.watermark_den)

-- `utilization >= 0.95`
abbrev pub is_full : HealthInputs → Bool
is_full inputs = leb (95 * max inputs.raw_queue_capacity 1) (100 * inputs.raw_queue_size)

abbrev pub queue_state : Bool → Bool → HealthState → HealthState
queue_state near full state = if near then (if full then unhealthy else degraded) else state

abbrev pub stale_state : ℕ → HealthInputs → HealthState → HealthState
stale_state now inputs state = degrade_if (is_late now inputs.last_rest_snapshot_utc_ns 120) (
    degrade_if (is_late now inputs.last_btc_event_utc_ns 30) (
      degrade_if (is_late now inputs.last_clob_event_utc_ns 60)
        (degrade_if (is_late now inputs.gamma_last_success_utc_ns 120) state)))

-- `snapshot`: the state that the checks come to, in their order.
unfoldable pub snapshot_state : Thresholds → ℕ → HealthInputs → HealthState
snapshot_state limits now inputs =
    let disk = disk_state limits inputs.disk_free_bytes in
    let dropped = unhealthy_if (not (inputs.dropped_events == 0)) disk in
    let clock = unhealthy_if (not inputs.clock_synchronized) dropped in
    let feeds = degrade_if (not inputs.clob_connected || not inputs.rtds_connected) clock in
    let queue = queue_state (is_near_capacity limits inputs) (is_full inputs) feeds in
    stale_state now inputs (degrade_if (not inputs.all_books_valid) queue)

abbrev pub is_unhealthy : HealthState → Bool
is_unhealthy healthy = false
is_unhealthy degraded = false
is_unhealthy unhealthy = true

-- A check on the disk, the drops or the clock says `unhealthy`.
abbrev pub is_alarmed : Thresholds → HealthInputs → Bool
is_alarmed limits inputs =
    (((leb inputs.disk_free_bytes limits.emergency || leb inputs.disk_free_bytes limits.critical)
        || not (inputs.dropped_events == 0))
      || not inputs.clock_synchronized)

degrade_if-is_unhealthy :
    (test : Bool) (state : HealthState) → is_unhealthy (degrade_if test state) ≡ is_unhealthy state
degrade_if-is_unhealthy false state = refl
degrade_if-is_unhealthy true healthy = refl
degrade_if-is_unhealthy true degraded = refl
degrade_if-is_unhealthy true unhealthy = refl

stale_state-is_unhealthy :
    (now : ℕ) (inputs : HealthInputs) (state : HealthState)
    → is_unhealthy (stale_state now inputs state) ≡ is_unhealthy state
stale_state-is_unhealthy now inputs state =
    degrade_if-is_unhealthy (is_late now inputs.last_rest_snapshot_utc_ns 120) _
    ∙ degrade_if-is_unhealthy (is_late now inputs.last_btc_event_utc_ns 30) _
    ∙ degrade_if-is_unhealthy (is_late now inputs.last_clob_event_utc_ns 60) _
    ∙ degrade_if-is_unhealthy (is_late now inputs.gamma_last_success_utc_ns 120) state

queue_state-is_unhealthy :
    (near full : Bool) (state : HealthState)
    → is_unhealthy (queue_state near full state) ≡ (if near then full else is_unhealthy state)
queue_state-is_unhealthy true true state = refl
queue_state-is_unhealthy true false state = refl
queue_state-is_unhealthy false full state = refl

disk_state-is_unhealthy :
    (limits : Thresholds) (free : ℕ)
    → is_unhealthy (disk_state limits free)
      ≡ (leb free limits.emergency || leb free limits.critical)
disk_state-is_unhealthy limits free = elim (Bool-cases (leb free limits.emergency)) [
  | inl a ↦ rw a refl
  | inr a ↦ elim (Bool-cases (leb free limits.critical)) [
    | inl b ↦ rw (a, b) refl
    | inr b ↦ elim (Bool-cases (leb free limits.warning)) [
      | inl c ↦ rw (a, b, c) refl
      | inr c ↦ rw (a, b, c) refl
    ]
  ]
]

unhealthy_if-is_unhealthy :
    (test : Bool) (state : HealthState)
    → is_unhealthy (unhealthy_if test state) ≡ (is_unhealthy state || test)
unhealthy_if-is_unhealthy true healthy = refl
unhealthy_if-is_unhealthy true degraded = refl
unhealthy_if-is_unhealthy true unhealthy = refl
unhealthy_if-is_unhealthy false healthy = refl
unhealthy_if-is_unhealthy false degraded = refl
unhealthy_if-is_unhealthy false unhealthy = refl

-- The state is unhealthy just when a check on the disk, the drops or the clock fails, as long as the
-- queue is below its watermark; from the watermark on those checks count for nothing, and only
-- a queue that is at least 95 % full is unhealthy.
pub snapshot_state-is_unhealthy :
    (limits : Thresholds) (now : ℕ) (inputs : HealthInputs)
    → is_unhealthy (snapshot_state limits now inputs)
      ≡ (if is_near_capacity limits inputs then is_full inputs else is_alarmed limits inputs)
unfolding snapshot_state
snapshot_state-is_unhealthy limits now inputs =
    let disk : HealthState = disk_state limits inputs.disk_free_bytes in
    let dropped : HealthState = unhealthy_if (not (inputs.dropped_events == 0)) disk in
    let clock : HealthState = unhealthy_if (not inputs.clock_synchronized) dropped in
    let is_off : Bool = not inputs.clob_connected || not inputs.rtds_connected in
    let feeds : HealthState = degrade_if is_off clock in
    let alarms : is_unhealthy feeds ≡ is_alarmed limits inputs =
      degrade_if-is_unhealthy is_off clock
      ∙ unhealthy_if-is_unhealthy (not inputs.clock_synchronized) dropped
      ∙ ap (λ b. b || not inputs.clock_synchronized)
          (unhealthy_if-is_unhealthy (not (inputs.dropped_events == 0)) disk
            ∙ ap (λ b. b || not (inputs.dropped_events == 0))
                (disk_state-is_unhealthy limits inputs.disk_free_bytes)) in
    stale_state-is_unhealthy now inputs _
    ∙ degrade_if-is_unhealthy (not inputs.all_books_valid) _
    ∙ queue_state-is_unhealthy (is_near_capacity limits inputs) (is_full inputs) feeds
    ∙ ap (λ b. if is_near_capacity limits inputs then is_full inputs else b) alarms
