-- ===== src/Replay.antt =====
-- The quality of a replay, src/polymarket_bt/replay/integrity.py: `QualityInterval` and `ReplayIntegrity`.
-- An interval's category and details are one number, which only tells intervals apart.
use polymarket_btc_15min_bac.Base.{
  ℕ, ◌≡◌, Bool, true, false, not, ◌&&◌, ◌||◌, Option, none, some, List, [], ◌∷◌, ◌++◌, any_of, leb,
  ◌==◌, if◌then◌else◌, Result, ok, err,
}

pub data QualityState : Type 0 where
  complete degraded unreliable excluded : QualityState

pub record QualityInterval : Type 0 where
  pub start_utc_ns : ℕ
  pub end_utc_ns : Option ℕ
  pub state : QualityState
  pub details : ℕ

abbrev pub is_by : ℕ → Option ℕ → Bool
is_by t none = true
is_by t (some end) = leb t end

-- `contains`
abbrev pub contains : ℕ → QualityInterval → Bool
contains t i = leb i.start_utc_ns t && is_by t i.end_utc_ns

abbrev pub same_state : QualityState → QualityState → Bool
same_state complete complete = true
same_state degraded degraded = true
same_state unreliable unreliable = true
same_state excluded excluded = true
same_state _ _ = false

abbrev pub same_end : Option ℕ → Option ℕ → Bool
same_end none none = true
same_end (some a) (some b) = a == b
same_end _ _ = false

abbrev pub same_interval : QualityInterval → QualityInterval → Bool
same_interval i j =
    (i.start_utc_ns == j.start_utc_ns)
    && (same_end i.end_utc_ns j.end_utc_ns
        && (same_state i.state j.state && (i.details == j.details)))

-- `if interval not in self.used_degraded: self.used_degraded.append(interval)`
abbrev pub remember : QualityInterval → List QualityInterval → List QualityInterval
remember i used = if any_of (same_interval i) used then used else used ++ (i ∷ [])

pub data ReplayError : Type 0 where
  replay_rejected : QualityInterval → ReplayError

abbrev pub is_bad : QualityState → Bool
is_bad complete = false
is_bad degraded = false
is_bad unreliable = true
is_bad excluded = true

abbrev pub is_complete : QualityState → Bool
is_complete complete = true
is_complete degraded = false
is_complete unreliable = false
is_complete excluded = false

-- The state after an interval that contains the time and does not reject the replay.
abbrev pub after_interval : QualityState → QualityState → QualityState
after_interval complete state = state
after_interval degraded complete = degraded
after_interval degraded degraded = degraded
after_interval degraded unreliable = unreliable
after_interval degraded excluded = excluded
after_interval unreliable state = unreliable
after_interval excluded state = excluded

-- The loop of `check`: the state or the rejection, and the intervals that were used.
unfoldable pub check_loop :
    Bool
    → ℕ
    → List QualityInterval
    → QualityState
    → List QualityInterval
    → Result ReplayError QualityState × List QualityInterval
check_loop reject t [] state used = (ok state, used)
check_loop reject t (i ∷ intervals) state used =
    let here = contains t i in
    let rest =
      check_loop reject t intervals (if here then after_interval i.state state else state)
        (if here && not (is_complete i.state) then remember i used else used) in
    if here && (is_bad i.state && reject) then (err (replay_rejected i), used) else rest

-- `check`
unfoldable pub check :
    Bool
    → ℕ
    → List QualityInterval
    → List QualityInterval
    → Result ReplayError QualityState × List QualityInterval
unfolding check_loop
check reject t intervals used = check_loop reject t intervals complete used

-- An interval at the time that is not complete, or that is unreliable or excluded.
abbrev pub is_impaired_at : ℕ → QualityInterval → Bool
is_impaired_at t i = contains t i && not (is_complete i.state)

abbrev pub is_bad_at : ℕ → QualityInterval → Bool
is_bad_at t i = contains t i && is_bad i.state

-- What a check owes, from a state: a rejection only where it is asked for and an interval at the time is
-- bad, and otherwise a state that is complete, or bad, just when the intervals at the time make it so.
abbrev pub IsHonest :
    Bool → ℕ → List QualityInterval → QualityState → Result ReplayError QualityState → Type 0
IsHonest reject t intervals state (err e) =
    (reject ≡ true) × (any_of (is_bad_at t) intervals ≡ true)
IsHonest reject t intervals state (ok s) =
    (reject && any_of (is_bad_at t) intervals ≡ false)
    × (is_complete s ≡ (is_complete state && not (any_of (is_impaired_at t) intervals)))
    × (is_bad s ≡ (is_bad state || any_of (is_bad_at t) intervals))

abbrev pub later_or : Option QualityState → Option QualityState → Option QualityState
later_or none earlier = earlier
later_or (some quality) earlier = some quality

abbrev pub kind_or : Option QualityState → QualityState → QualityState
kind_or none state = state
kind_or (some quality) state = quality

-- The kind of the last interval at the time that is unreliable or excluded.
abbrev pub last_bad : ℕ → List QualityInterval → Option QualityState
last_bad t [] = none
last_bad t (i ∷ intervals) =
    later_or (last_bad t intervals) (if is_bad_at t i then some i.state else none)

-- What a check returns after the intervals, from a state: the kind of the last bad one, or else
-- degraded for a complete state that meets an impaired one.
abbrev pub verdict : ℕ → List QualityInterval → QualityState → QualityState
verdict t intervals state =
    kind_or (last_bad t intervals)
      (if is_complete state && any_of (is_impaired_at t) intervals then degraded else state)

abbrev pub IsVerdict :
    ℕ → List QualityInterval → QualityState → Result ReplayError QualityState → Type 0
IsVerdict t intervals state (ok s) = s ≡ verdict t intervals state
IsVerdict t intervals state (err e) = Unit
