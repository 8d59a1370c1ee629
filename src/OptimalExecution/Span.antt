-- ===== src/OptimalExecution/Span.antt =====
-- What a volume cursor returns: the volume of a span, whatever calls came before.
use mathlib.Core.Bool.{false≢true}
use polymarket_btc_15min_bac.Base.{
  ℕ, suc, ◌+◌, ◌≤◌, ◌<◌, ◌≡◌, refl, true, false, not, ◌&&◌, List, [], ◌∷◌, length, ltb, leb, ◌==◌,
  if◌then◌else◌, Bool-cases, inl, inr, arith, Result, ok, err, sum_by, All, All-map, leb→le, le→leb,
  ap, ◌∙◌, ltb-false→le, ok-injective, err≢ok, sym,
}
use polymarket_btc_15min_bac.OptimalExecution.State.{ExecutionError, cursor_backwards}
use polymarket_btc_15min_bac.OptimalExecution.Cursor.{
  Trade, VolumeCursor, zip_trades, is_sorted_from, from_time, volume_cursor, of_token, passed,
  after_time, advance, advance_all,
}

-- The volume of a token in a span of time, both ends included.
abbrev pub in_span : ℕ → ℕ → ℕ → Trade → ℕ
in_span token start end t =
    if leb start t.timestamp_utc_ns && leb t.timestamp_utc_ns end then of_token token t else 0

abbrev pub span_volume : ℕ → ℕ → ℕ → List Trade → ℕ
span_volume token start end = sum_by (in_span token start end)

abbrev pub IsFrom : ℕ → List Trade → Type 0
IsFrom time = All (λ (t : Trade). time ≤ t.timestamp_utc_ns)

abbrev pub IsSorted : List Trade → Type 0
IsSorted [] = Unit
IsSorted (t ∷ ts) = IsFrom t.timestamp_utc_ns ts × IsSorted ts

-- What a cursor owes: its volume and what it still has ahead make up the span up to any later time.
abbrev pub IsCausal : ℕ → List Trade → VolumeCursor → Type 0
IsCausal start trades c =
    IsSorted c.ahead
    × ((later : ℕ)
        → c.last_utc_ns ≤ later
        → c.volume_scaled + span_volume c.token_index 0 later c.ahead
          ≡ span_volume c.token_index start later trades)

IsFrom-weaken : (a b : ℕ) (ts : List Trade) → a ≤ b → IsFrom b ts → IsFrom a ts
IsFrom-weaken a b ts h = All-map _ _ ts (λ t k. omega arith)

is_sorted_from-IsSorted :
    (time : ℕ) (ts : List Trade) → is_sorted_from time ts ≡ true → IsFrom time ts × IsSorted ts
is_sorted_from-IsSorted time [] h = (tt, tt)
is_sorted_from-IsSorted time (t ∷ ts) h = elim (Bool-cases (leb time t.timestamp_utc_ns)) [
  | inl le ↦
      let (later, sorted) = is_sorted_from-IsSorted t.timestamp_utc_ns ts (rw le at h) in
      let first = leb→le _ _ le in
      ((first, IsFrom-weaken time t.timestamp_utc_ns ts first later), (later, sorted))
  | inr gt ↦ elim (false≢true (rw gt at h)) [ ]
]

from_time-IsSorted : (start : ℕ) (ts : List Trade) → IsSorted ts → IsSorted (from_time start ts)
from_time-IsSorted start [] h = tt
from_time-IsSorted start (t ∷ ts) h = elim (Bool-cases (ltb t.timestamp_utc_ns start)) [
  | inl early ↦ rw early (from_time-IsSorted start ts h.1)
  | inr late ↦ rw late h
]

after_time-IsSorted : (now : ℕ) (ts : List Trade) → IsSorted ts → IsSorted (after_time now ts)
after_time-IsSorted now [] h = tt
after_time-IsSorted now (t ∷ ts) h = elim (Bool-cases (leb t.timestamp_utc_ns now)) [
  | inl early ↦ rw early (after_time-IsSorted now ts h.1)
  | inr late ↦ rw late h
]

in_span-from :
    (token start later : ℕ) (t : Trade)
    → start ≤ t.timestamp_utc_ns
    → in_span token 0 later t ≡ in_span token start later t
in_span-from token start later t h =
    let low = le→leb start t.timestamp_utc_ns h in
    let zero_low = le→leb 0 t.timestamp_utc_ns (omega arith) in rw (low, zero_low) refl

in_span-early :
    (token start later : ℕ) (t : Trade)
    → ltb t.timestamp_utc_ns start ≡ true
    → in_span token start later t ≡ 0
in_span-early token start later t h =
    let low : leb start t.timestamp_utc_ns ≡ false = ground arith in rw low refl

in_span-passed :
    (token later : ℕ) (t : Trade)
    → t.timestamp_utc_ns ≤ later
    → in_span token 0 later t ≡ of_token token t
in_span-passed token later t h =
    let zero_low = le→leb 0 t.timestamp_utc_ns (omega arith) in
    let high = le→leb t.timestamp_utc_ns later h in rw (zero_low, high) refl

in_span-late :
    (token start now : ℕ) (t : Trade) → now < t.timestamp_utc_ns → in_span token start now t ≡ 0
in_span-late token start now t h =
    let high : leb t.timestamp_utc_ns now ≡ false = ground arith in
    elim (Bool-cases (leb start t.timestamp_utc_ns)) [
      | inl low ↦ rw (low, high) refl
      | inr low ↦ rw low refl
    ]

span-late :
    (token start now : ℕ) (ts : List Trade)
    → IsFrom (suc now) ts
    → span_volume token start now ts ≡ 0
span-late token start now [] h = refl
span-late token start now (t ∷ ts) (h, hs) =
    omega (arith, span-late token start now ts hs, in_span-late token start now t h)

-- From a time on, the start of a span does not matter.
span-from :
    (token start later : ℕ) (ts : List Trade)
    → IsFrom start ts
    → span_volume token 0 later ts ≡ span_volume token start later ts
span-from token start later [] h = refl
span-from token start later (t ∷ ts) (h, hs) =
    omega (arith, span-from token start later ts hs, in_span-from token start later t h)

span-from_time :
    (token start later : ℕ) (ts : List Trade)
    → IsSorted ts
    → span_volume token 0 later (from_time start ts) ≡ span_volume token start later ts
span-from_time token start later [] h = refl
span-from_time token start later (t ∷ ts) (h, hs) =
    elim (Bool-cases (ltb t.timestamp_utc_ns start)) [
      | inl early ↦ rw early (
          omega (
            arith,
            span-from_time token start later ts hs,
            in_span-early token start later t early,
          ))
      | inr late ↦ rw late (
          let first = ltb-false→le t.timestamp_utc_ns start late in
          span-from token start later (t ∷ ts)
            (first, IsFrom-weaken start t.timestamp_utc_ns ts first h))
    ]

span-after_time :
    (token now later : ℕ) (ts : List Trade)
    → now ≤ later
    → passed token now ts + span_volume token 0 later (after_time now ts)
      ≡ span_volume token 0 later ts
span-after_time token now later [] h = refl
span-after_time token now later (t ∷ ts) h =
    let ih = span-after_time token now later ts h in
    elim (Bool-cases (leb t.timestamp_utc_ns now)) [
      | inl early ↦
          let first = leb→le t.timestamp_utc_ns now early in
          rw early (omega (arith, ih, in_span-passed token later t (omega (arith, first))))
      | inr late ↦ rw late (omega arith)
    ]

-- Nothing that is ahead of a time is in the span up to it.
span-ahead :
    (token now : ℕ) (ts : List Trade)
    → IsSorted ts
    → span_volume token 0 now (after_time now ts) ≡ 0
span-ahead token now [] h = refl
span-ahead token now (t ∷ ts) (h, hs) = elim (Bool-cases (leb t.timestamp_utc_ns now)) [
  | inl early ↦ rw early (span-ahead token now ts hs)
  | inr late ↦
      let first : now < t.timestamp_utc_ns = ground arith in
      rw late (span-late token 0 now (t ∷ ts) (first, IsFrom-weaken _ _ ts first h))
]

pub advance-IsCausal :
    (start now : ℕ) (trades : List Trade) (c : VolumeCursor)
    → IsCausal start trades c
    → IsCausal start trades (advance now c).1
unfolding advance
advance-IsCausal start now trades c (sorted, owed) = elim (Bool-cases (ltb now c.last_utc_ns)) [
  | inl backwards ↦ rw backwards (sorted, owed)
  | inr forwards ↦
      let ahead = ltb-false→le now c.last_utc_ns forwards in
      rw forwards (
        after_time-IsSorted now c.ahead sorted,
        λ later h. omega (
          arith,
          owed later (omega (arith, ahead)),
          span-after_time c.token_index now later c.ahead h,
        ),
      )
]

pub advance_all-IsCausal :
    (start : ℕ) (nows : List ℕ) (trades : List Trade) (c : VolumeCursor)
    → IsCausal start trades c
    → IsCausal start trades (advance_all nows c)
advance_all-IsCausal start [] trades c h = h
advance_all-IsCausal start (now ∷ nows) trades c h =
    advance_all-IsCausal start nows trades (advance now c).1 (advance-IsCausal start now trades c h)

advance-token : (now : ℕ) (c : VolumeCursor) → (advance now c).1.token_index ≡ c.token_index
unfolding advance
advance-token now c = elim (Bool-cases (ltb now c.last_utc_ns)) [
  | inl backwards ↦ rw backwards refl
  | inr forwards ↦ rw forwards refl
]

advance_all-token :
    (nows : List ℕ) (c : VolumeCursor) → (advance_all nows c).token_index ≡ c.token_index
advance_all-token [] c = refl
advance_all-token (now ∷ nows) c = advance_all-token nows (advance now c).1 ∙ advance-token now c

-- What an advance of a cursor returns, in the state that it is in.
abbrev pub advanced : ℕ → ℕ → ℕ → List Trade → VolumeCursor → Result ExecutionError ℕ
advanced token start now trades c =
    if ltb now c.last_utc_ns then err cursor_backwards else ok (span_volume token start now trades)

advance-IsCausal-volume :
    (start now : ℕ) (trades : List Trade) (c : VolumeCursor)
    → IsCausal start trades c
    → (advance now c).0 ≡ advanced c.token_index start now trades c
unfolding advance
advance-IsCausal-volume start now trades c (sorted, owed) =
    elim (Bool-cases (ltb now c.last_utc_ns)) [
      | inl backwards ↦ rw backwards refl
      | inr forwards ↦
          let ahead = ltb-false→le now c.last_utc_ns forwards in
          let volume : c.volume_scaled + passed c.token_index now c.ahead
              ≡ span_volume c.token_index start now trades =
            omega (
              arith,
              owed now ahead,
              span-after_time c.token_index now now c.ahead (omega arith),
              span-ahead c.token_index now c.ahead sorted,
            ) in
          rw forwards (ap {B = Result ExecutionError ℕ} (λ n. ok n) volume)
    ]

volume_cursor-IsCausal :
    (timestamps tokens sizes : List ℕ) (token start : ℕ) (c : VolumeCursor)
    → volume_cursor timestamps tokens sizes token start ≡ ok c
    → IsCausal start (zip_trades timestamps tokens sizes) c × (c.token_index ≡ token)
unfolding volume_cursor
volume_cursor-IsCausal timestamps tokens sizes token start c e =
    let trades : List Trade = zip_trades timestamps tokens sizes in
    elim (Bool-cases
      (not ((length timestamps == length tokens) && (length tokens == length sizes)))) [
        | inl unequal ↦ elim (err≢ok (rw unequal at e)) [ ]
        | inr equal ↦ elim (Bool-cases (is_sorted_from 0 trades)) [
          | inr unsorted ↦ elim (err≢ok (rw (equal, unsorted) at e)) [ ]
          | inl sorted ↦
              let is_sorted = (is_sorted_from-IsSorted 0 trades sorted).1 in
              let made = ok-injective (rw (equal, sorted) at e) in
              rw (sym made) (
                (
                  from_time-IsSorted start trades is_sorted,
                  λ later h. omega (arith, span-from_time token start later trades is_sorted),
                ),
                refl,
              )
        ]
      ]

-- Whatever calls came before, an advance of a cursor on trades that it accepted returns the token's
-- volume from the start to the given time, both included, and no later trade counts; it raises when the
-- time is before the last one.
pub advance-span :
    (timestamps tokens sizes : List ℕ) (token start : ℕ) (c : VolumeCursor) (nows : List ℕ)
    (now : ℕ)
    → volume_cursor timestamps tokens sizes token start ≡ ok c
    → (advance now (advance_all nows c)).0
      ≡ advanced token start now (zip_trades timestamps tokens sizes) (advance_all nows c)
advance-span timestamps tokens sizes token start c nows now e =
    let (causal, same) = volume_cursor-IsCausal timestamps tokens sizes token start c e in
    let trades : List Trade = zip_trades timestamps tokens sizes in
    let is_token = advance_all-token nows c ∙ same in
    advance-IsCausal-volume start now trades (advance_all nows c)
      (advance_all-IsCausal start nows trades c causal)
    ∙ ap (λ k. advanced k start now trades (advance_all nows c)) is_token
