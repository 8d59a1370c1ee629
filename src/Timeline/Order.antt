-- ===== src/Timeline/Order.antt =====
-- What merging owes the replay: src/polymarket_bt/replay/merger.py with the clock of
-- src/polymarket_bt/replay/event_clock.py.
use mathlib.Core.List.{Perm}
use mathlib.Core.List.Perm
use polymarket_btc_15min_bac.Base.{
  ℕ, ◌≡◌, ◌≤◌, ap, refl, subst, Bool, true, false, Option, none, some, List, [], ◌∷◌, map, not,
  is_some, All, All-map, any_of, ◌<◌, ◌⊎◌, inl, inr, ltb, ◌==◌, ==_iff, Bool-cases, ltb→lt, Result,
  ok, err, ◌>>=◌, err≢ok, arith, le→ltb-false,
}
use polymarket_btc_15min_bac.Sorting.{
  sorted, lex_le, by_key, IsSorted, All-sorted, sorted-perm, sorted-IsSorted, lex_le-IsOrder,
  by_key-IsOrder,
}
use polymarket_btc_15min_bac.Timeline.{
  ReplayClockMode, exchange_time, local_receive_time, ReplayEvent, ClockError,
  lacks_exchange_timestamp, stamp, timestamp, EventClock, new_clock, is_before, advance,
  deterministic_event_key, keyed, key_of, event_of, merge_events, tie_break,
}

false≢true : ¬ (◌≡◌ {A = Bool} false true)
false≢true e = cc

-- The event has no time in the mode.
abbrev pub lacks_stamp : ReplayClockMode → ReplayEvent → Bool
lacks_stamp local_receive_time event = false
lacks_stamp exchange_time event = not (is_some event.exchange_timestamp_ns)

abbrev pub KeysAscend : Result ClockError (List ℕ) → Result ClockError (List ℕ) → Type 0
KeysAscend (ok k) (ok l) = lex_le k l ≡ true
KeysAscend _ _ = ⊥

abbrev pub Precedes : ReplayClockMode → ReplayEvent → ReplayEvent → Type 0
Precedes mode a b = KeysAscend (deterministic_event_key mode a) (deterministic_event_key mode b)

abbrev pub HasTime : ReplayClockMode → ReplayEvent → Type 0
HasTime mode event = (t : ℕ) × (timestamp mode event ≡ ok t)

-- Every event has a time, and its key is at most that of each later one.
abbrev pub IsChronological : ReplayClockMode → List ReplayEvent → Type 0
IsChronological mode [] = Unit
IsChronological mode (event ∷ later) =
    HasTime mode event × All (Precedes mode event) later × IsChronological mode later

abbrev IsKeyed : ReplayClockMode → List ℕ × ReplayEvent → Type 0
IsKeyed mode pair = deterministic_event_key mode pair.1 ≡ ok pair.0

-- The pairs of a replay: the events in their places, each with its key.
abbrev KeyedAs :
    ReplayClockMode → List ReplayEvent → Result ClockError (List (List ℕ × ReplayEvent)) → Type 0
KeyedAs mode events (ok pairs) =
    All (IsKeyed mode) pairs
    × (map event_of pairs ≡ events)
    × (any_of (lacks_stamp mode) events ≡ false)
KeyedAs mode events (err e) =
    (e ≡ lacks_exchange_timestamp) × (any_of (lacks_stamp mode) events ≡ true)

abbrev KeyOutcome : Bool → Result ClockError (List ℕ) → Type 0
KeyOutcome lacks (ok key) = lacks ≡ false
KeyOutcome lacks (err e) = (e ≡ lacks_exchange_timestamp) × (lacks ≡ true)

stamp-outcome :
    (o : Option ℕ) (key : ℕ → List ℕ) → KeyOutcome (not (is_some o)) (stamp o >>= λ t. ok (key t))
stamp-outcome none key = (refl, refl)
stamp-outcome (some t) key = refl

key-outcome :
    (mode : ReplayClockMode) (event : ReplayEvent)
    → KeyOutcome (lacks_stamp mode event) (deterministic_event_key mode event)
unfolding deterministic_event_key timestamp
key-outcome local_receive_time event = refl
key-outcome exchange_time event = stamp-outcome event.exchange_timestamp_ns _

cons-KeyedAs :
    (mode : ReplayClockMode) (event : ReplayEvent) (events : List ReplayEvent)
    (k : Result ClockError (List ℕ)) (r : Result ClockError (List (List ℕ × ReplayEvent)))
    → deterministic_event_key mode event ≡ k
    → KeyOutcome (lacks_stamp mode event) k
    → KeyedAs mode events r
    → KeyedAs mode (event ∷ events) (k >>= λ key. r >>= λ rest. ok ((key, event) ∷ rest))
cons-KeyedAs mode event events (err x) r e (o, lacks) h = (o, rw lacks refl)
cons-KeyedAs mode event events (ok key) (err x) e o (h, lacks) = (h, rw o lacks)
cons-KeyedAs mode event events (ok key) (ok rest) e o (each, same, none_lack) =
    ((e, each), ap (◌∷◌ event) same, rw o none_lack)

keyed-KeyedAs :
    (mode : ReplayClockMode) (events : List ReplayEvent) → KeyedAs mode events (keyed mode events)
unfolding keyed
keyed-KeyedAs mode [] = (tt, refl, refl)
keyed-KeyedAs mode (event ∷ events) =
    cons-KeyedAs mode event events (deterministic_event_key mode event) (keyed mode events) refl
      (key-outcome mode event) (keyed-KeyedAs mode events)

bound-time :
    (r : Result ClockError ℕ) (key : ℕ → List ℕ) (k : List ℕ)
    → (r >>= λ t. ok (key t)) ≡ ok k
    → (t : ℕ) × (r ≡ ok t)
bound-time (ok t) key k e = (t, refl)
bound-time (err x) key k e = absurd (err≢ok e)

key-HasTime :
    (mode : ReplayClockMode) (event : ReplayEvent) (k : List ℕ)
    → deterministic_event_key mode event ≡ ok k
    → HasTime mode event
unfolding deterministic_event_key
key-HasTime mode event k e = bound-time (timestamp mode event) _ k e

sorted-KeyedAs :
    (mode : ReplayClockMode) (pairs : List (List ℕ × ReplayEvent))
    → All (IsKeyed mode) pairs
    → IsSorted (by_key lex_le key_of) pairs
    → IsChronological mode (map event_of pairs)
sorted-KeyedAs mode [] _ _ = tt
sorted-KeyedAs mode (pair ∷ pairs) (e, es) (below, s) =
    (key-HasTime mode pair.1 pair.0 e, all_precede pairs es below, sorted-KeyedAs mode pairs es s)
  where
    all_precede :
        (later : List (List ℕ × ReplayEvent))
        → All (IsKeyed mode) later
        → All (λ p. by_key lex_le key_of pair p ≡ true) later
        → All (Precedes mode pair.1) (map event_of later)
    all_precede [] _ _ = tt
    all_precede (p ∷ later) (k, ks) (h, hs) = (rw (e, k) h, all_precede later ks hs)

-- The first number is less, or the two are equal and the rest decides.
abbrev pub Lesser : ℕ → ℕ → Type 0 → Type 0
Lesser a b Rest = (a < b) ⊎ ((a ≡ b) × Rest)

-- The order of a replay, written out: by the replay time, then by the time of the receipt, the priority
-- of the source, the connection, the sequence number, and the place within the parent.
abbrev pub InOrder : Result ClockError ℕ → Result ClockError ℕ → ReplayEvent → ReplayEvent → Type 0
InOrder (ok t) (ok u) a b = Lesser t u (
    Lesser a.received_utc_ns b.received_utc_ns (
      Lesser a.source_priority b.source_priority (
        Lesser a.connection_id b.connection_id
          (Lesser a.sequence b.sequence (a.parent_change_index ≤ b.parent_change_index)))))
InOrder _ _ a b = ⊥

-- Each event comes before all the later ones.
abbrev pub IsOrdered : ReplayClockMode → List ReplayEvent → Type 0
IsOrdered mode [] = Unit
IsOrdered mode (event ∷ later) =
    All (λ b. InOrder (timestamp mode event) (timestamp mode b) event b) later
    × IsOrdered mode later

lex_le-Lesser :
    (a b : ℕ) (k l : List ℕ) (Rest : Type 0)
    → (lex_le k l ≡ true → Rest)
    → lex_le (a ∷ k) (b ∷ l) ≡ true
    → Lesser a b Rest
lex_le-Lesser a b k l Rest rest h = elim (Bool-cases (ltb a b)) [
  | inl less ↦ inl (ltb→lt a b less)
  | inr other ↦ elim (Bool-cases (a == b)) [
    | inl same ↦ inr ((==_iff a b).0 same, rest (rw (other, same) at h))
    | inr differ ↦ absurd (false≢true (rw (other, differ) at h))
  ]
]

last_le : (a b : ℕ) → lex_le (a ∷ []) (b ∷ []) ≡ true → a ≤ b
last_le a b h = ground arith

key-InOrder :
    (a b : ReplayEvent) (r s : Result ClockError ℕ)
    → KeysAscend (r >>= λ t. ok (t ∷ tie_break a)) (s >>= λ t. ok (t ∷ tie_break b))
    → InOrder r s a b
key-InOrder a b (err e) s h = h
key-InOrder a b (ok t) (err e) h = h
key-InOrder a b (ok t) (ok u) h =
    lex_le-Lesser t u (tie_break a) (tie_break b) _
      (lex_le-Lesser a.received_utc_ns b.received_utc_ns
        (a.source_priority ∷ a.connection_id ∷ a.sequence ∷ a.parent_change_index ∷ [])
        (b.source_priority ∷ b.connection_id ∷ b.sequence ∷ b.parent_change_index ∷ []) _
        (lex_le-Lesser a.source_priority b.source_priority
          (a.connection_id ∷ a.sequence ∷ a.parent_change_index ∷ [])
          (b.connection_id ∷ b.sequence ∷ b.parent_change_index ∷ []) _
          (lex_le-Lesser a.connection_id b.connection_id (a.sequence ∷ a.parent_change_index ∷ [])
            (b.sequence ∷ b.parent_change_index ∷ []) _
            (lex_le-Lesser a.sequence b.sequence (a.parent_change_index ∷ [])
              (b.parent_change_index ∷ []) _
              (last_le a.parent_change_index b.parent_change_index)))))
      h

Precedes-InOrder :
    (mode : ReplayClockMode) (a b : ReplayEvent)
    → Precedes mode a b
    → InOrder (timestamp mode a) (timestamp mode b) a b
unfolding deterministic_event_key
Precedes-InOrder mode a b h = key-InOrder a b (timestamp mode a) (timestamp mode b) h

IsChronological-IsOrdered :
    (mode : ReplayClockMode) (events : List ReplayEvent)
    → IsChronological mode events
    → IsOrdered mode events
IsChronological-IsOrdered mode [] _ = tt
IsChronological-IsOrdered mode (event ∷ later) (_, h, s) =
    (All-map _ _ later (Precedes-InOrder mode event) h, IsChronological-IsOrdered mode later s)

-- What merging leaves: the events in an order in which no key falls, or the one error, and which of the
-- two depends only on whether an event lacks the time that the mode asks for.
abbrev pub Merged :
    ReplayClockMode → List ReplayEvent → Result ClockError (List ReplayEvent) → Type 0
Merged mode events (ok merged) =
    Perm merged events
    × IsChronological mode merged
    × IsOrdered mode merged
    × (any_of (lacks_stamp mode) events ≡ false)
Merged mode events (err e) =
    (e ≡ lacks_exchange_timestamp) × (any_of (lacks_stamp mode) events ≡ true)

KeyedAs-Merged :
    (mode : ReplayClockMode) (events : List ReplayEvent)
    (r : Result ClockError (List (List ℕ × ReplayEvent)))
    → KeyedAs mode events r
    → Merged mode events (r >>= λ pairs. ok (map event_of (sorted (by_key lex_le key_of) pairs)))
KeyedAs-Merged mode events (err e) h = h
KeyedAs-Merged mode events (ok pairs) (each, same, none_lack) =
    let le = by_key lex_le key_of in
    let chronological =
      sorted-KeyedAs mode (sorted le pairs) (All-sorted le (IsKeyed mode) pairs each)
        (sorted-IsSorted le (by_key-IsOrder lex_le key_of lex_le-IsOrder) pairs) in
    (
      subst (λ l. Perm (map event_of (sorted le pairs)) l) same
          (Perm.map event_of (sorted-perm le pairs)),
      chronological,
      IsChronological-IsOrdered mode _ chronological,
      none_lack,
    )

-- Merging gives the same events, each before all that follow it by the replay time, then the time of
-- the receipt, the priority of the source, the connection, the sequence number and the place within
-- the parent, in this order; or it raises, just when the clock is the exchange's and an event has no
-- exchange timestamp.
pub merge_events-Merged :
    (mode : ReplayClockMode) (events : List ReplayEvent)
    → Merged mode events (merge_events mode events)
unfolding merge_events
merge_events-Merged mode events =
    KeyedAs-Merged mode events (keyed mode events) (keyed-KeyedAs mode events)

-- The clock over a list of events, one after another.
unfoldable pub advance_all : List ReplayEvent → EventClock → Result ClockError EventClock
unfolding advance
advance_all [] clock = ok clock
advance_all (event ∷ events) clock = do moved ← advance event clock; advance_all events moved.1

-- The event's time is at least `t`.
abbrev pub NotBefore : ℕ → Result ClockError ℕ → Type 0
NotBefore t (ok u) = t ≤ u
NotBefore t (err e) = ⊥

ascend-times :
    (t : ℕ) (r : Result ClockError ℕ) (left right : ℕ → List ℕ)
    → KeysAscend (ok (t ∷ left t)) (r >>= λ u. ok (u ∷ right u))
    → NotBefore t r
ascend-times t (ok u) left right h = ground arith
ascend-times t (err e) left right h = h

Precedes-NotBefore :
    (mode : ReplayClockMode) (a b : ReplayEvent) (t : ℕ)
    → timestamp mode a ≡ ok t
    → Precedes mode a b
    → NotBefore t (timestamp mode b)
unfolding deterministic_event_key
Precedes-NotBefore mode a b t e h =
    ascend-times t (timestamp mode b) (λ t. tie_break a) (λ t. tie_break b) (rw e at h)

pub All-Precedes :
    (mode : ReplayClockMode) (a : ReplayEvent) (later : List ReplayEvent) (t : ℕ)
    → timestamp mode a ≡ ok t
    → All (Precedes mode a) later
    → All (λ b. NotBefore t (timestamp mode b)) later
All-Precedes mode a later t e = All-map _ _ later λ b. Precedes-NotBefore mode a b t e

-- One step of a clock that is not past the event.
pub advance_reached :
    (event : ReplayEvent) (clock : EventClock) (t : ℕ)
    → timestamp clock.mode event ≡ ok t
    → is_before t clock.current_ns ≡ false
    → advance event clock ≡ ok (t, record clock { current_ns = some t })
unfolding advance
advance_reached event clock t e h = rw (e, h) refl

advance_from :
    (mode : ReplayClockMode) (t : ℕ) (events : List ReplayEvent)
    → IsChronological mode events
    → All (λ b. NotBefore t (timestamp mode b)) events
    → (clock : EventClock) × (advance_all events (record { mode = mode; current_ns = some t })
        ≡ ok clock)
unfolding advance_all
advance_from mode t [] _ _ = (record { mode = mode; current_ns = some t }, refl)
advance_from mode t (event ∷ events) ((u, e), later, s) (h, hs) =
    let reached : is_before u (some t) ≡ false = le→ltb-false u t (subst (NotBefore t) e h) in
    let (clock, rest) = advance_from mode u events s (All-Precedes mode event events u e later) in
    (
      clock,
      rw (advance_reached event (record { mode = mode; current_ns = some t }) u e reached) rest,
    )

-- A new clock goes over merged events to the end: it never finds one earlier than the one before.
pub merge_events-advances :
    (mode : ReplayClockMode) (events merged : List ReplayEvent)
    → merge_events mode events ≡ ok merged
    → (clock : EventClock) × (advance_all merged (new_clock mode) ≡ ok clock)
unfolding advance_all
merge_events-advances mode events merged e =
    advance_new merged (subst (Merged mode events) e (merge_events-Merged mode events)).1
  where
    advance_new :
        (l : List ReplayEvent)
        → IsChronological mode l
        → (clock : EventClock) × (advance_all l (new_clock mode) ≡ ok clock)
    advance_new [] _ = (new_clock mode, refl)
    advance_new (event ∷ l) ((t, known), later, s) =
        let (clock, rest) = advance_from mode t l s (All-Precedes mode event l t known later) in
        (clock, rw (advance_reached event (new_clock mode) t known refl) rest)
