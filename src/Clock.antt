-- ===== src/Clock.antt =====
-- Fixed-scale numbers and timestamps: src/polymarket_bt/clock.py. A `Decimal` is a whole number of units in
-- the last of its decimal places; `Decimal(str(value))` itself is not in the repository, so a value
-- is what it comes to. An operation on decimals rounds its result to the 28 digits of the default
-- context. Texts in ISO-8601, and no value at all, are left out.
use native.Mathlib.Nat.{mul-div_cancel, mul-mod_left, one-le-pow, div-add-mod', pow-suc}
use polymarket_btc_15min_bac.Base.{
  ℕ, zero, suc, ◌+◌, ◌-◌, true, false, lt→ltb, ◌*◌, ◌/◌, ◌%◌, ◌^◌, ◌≤◌, ◌<◌, ◌≡◌, ◌↔◌, refl, sym,
  ap, ◌∙◌, Bool-cases, inl, inr, ◌==◌, ltb, if◌then◌else◌, arith, Result, ok, err, ok-injective,
  err≢ok, ℤ, pos, negsuc, ◌*ℤ◌, sub_ℕ, pos-*ℤ, ==_iff,
}

pub data ClockError : Type 0 where
  invalid_decimal non_finite precision_error : ClockError

-- What a value is as a `Decimal`: `finite c p` is c / 10^p.
pub data Numeral : Type 0 where
  finite : ℤ → ℕ → Numeral
  infinite : Numeral
  malformed : Numeral

abbrev pub abs : ℤ → ℕ
abs (pos n) = n
abs (negsuc n) = suc n

abbrev pub with_sign : ℤ → ℕ → ℤ
with_sign (pos _) q = pos q
with_sign (negsuc _) q = sub_ℕ 0 q

-- The coefficients of Python's default context: at most 28 digits.
abbrev pub context_limit : ℕ
context_limit = 10_000_000_000_000_000_000_000_000_000

-- How many digits are too many; each round takes one off.
unfoldable pub excess_digits : ℕ → ℕ → ℕ
excess_digits zero n = 0
excess_digits (suc fuel) n = elim (ltb n context_limit) [
  | true ↦ 0
  | false ↦ suc (excess_digits fuel (n / 10))
]

-- n / d, rounded half to even
abbrev pub half_even : ℕ → ℕ → ℕ
half_even n d =
    if ltb (2 * (n % d)) d
    then n / d
    else if ltb d (2 * (n % d))
    then n / d + 1
    else n / d + n / d % 2

-- An operation's exact result, rounded as the context has it.
unfoldable pub rounded : ℕ → ℕ
unfolding excess_digits
rounded n = half_even n (10 ^ excess_digits n n) * 10 ^ excess_digits n n

unfoldable pub in_context : ℤ → ℤ
unfolding rounded
in_context n = with_sign n (rounded (abs n))

-- n / d as an integer, if it is one.
unfoldable pub integral : ℤ → ℕ → Result ClockError ℤ
integral n d = if (abs n % d) == 0 then ok (with_sign n (abs n / d)) else err precision_error

-- `decimal * scale` is rounded to the context before it is asked whether it is whole.
unfoldable pub decimal_to_scaled : Numeral → ℕ → Result ClockError ℤ
unfolding in_context integral
decimal_to_scaled (finite c p) scale = integral (in_context (c *ℤ pos scale)) (10 ^ p)
decimal_to_scaled infinite scale = err non_finite
decimal_to_scaled malformed scale = err invalid_decimal

-- `Decimal(value) / Decimal(scale)`, for the scale 10^places
unfoldable pub scaled_to_decimal : ℤ → ℕ → Numeral
unfolding in_context
scaled_to_decimal value places = finite (in_context value) places

-- The unit of a timestamp goes by its size; `one` is 10^p.
abbrev pub multiplier : ℕ → ℕ → ℕ
multiplier absolute one =
    if ltb absolute (100_000_000_000 * one)
    then 1_000_000_000
    else if ltb absolute (100_000_000_000_000 * one)
    then 1_000_000
    else if ltb absolute (100_000_000_000_000_000 * one)
    then 1_000
    else 1

-- The numeric branch of `parse_timestamp_ns`. It does not ask whether a value is finite: one that
-- is not raises in the comparison or in `int`.
unfoldable pub parse_numeric : Numeral → Result ClockError ℤ
unfolding in_context integral rounded
parse_numeric (finite c p) =
    integral (in_context (c *ℤ pos (multiplier (rounded (abs c)) (10 ^ p)))) (10 ^ p)
parse_numeric infinite = err non_finite
parse_numeric malformed = err invalid_decimal

neg-*ℤ : (q d : ℕ) → sub_ℕ 0 q *ℤ pos d ≡ sub_ℕ 0 (q * d)
unfolding ◌*ℤ◌
neg-*ℤ q d = ground arith

integral-pos : (a d : ℕ) → 0 < d → integral (pos (a * d)) d ≡ ok (pos a)
unfolding integral
integral-pos a d h = rw (mul-mod_left a d, mul-div_cancel a h) refl

abs_neg : (n : ℕ) → abs (sub_ℕ 0 n) ≡ n
abs_neg n = ground arith

with_sign-neg : (n q : ℕ) → 0 < n → with_sign (sub_ℕ 0 n) q ≡ sub_ℕ 0 q
with_sign-neg n q h = ground arith

integral-neg : (a d : ℕ) → 0 < d → integral (sub_ℕ 0 (suc a * d)) d ≡ ok (sub_ℕ 0 (suc a))
unfolding integral
integral-neg a d h =
    let positive : 0 < suc a * d = omega arith in
    rw
      (
        abs_neg (suc a * d),
        mul-mod_left (suc a) d,
        mul-div_cancel (suc a) h,
        with_sign-neg (suc a * d) (suc a) positive,
      )
      refl

negated : (a : ℕ) → sub_ℕ 0 (suc a) ≡ negsuc a
negated a = ground arith

integral-*ℤ : (v : ℤ) (d : ℕ) → 0 < d → integral (v *ℤ pos d) d ≡ ok v
integral-*ℤ (pos a) d h = ap (λ n. integral n d) (pos-*ℤ a d) ∙ integral-pos a d h
integral-*ℤ (negsuc a) d h =
    rw (← negated a) (ap (λ n. integral n d) (neg-*ℤ (suc a) d) ∙ integral-neg a d h)

with_sign-abs : (n : ℤ) (d : ℕ) → abs n % d ≡ 0 → with_sign n (abs n / d) *ℤ pos d ≡ n
with_sign-abs (pos n) d e =
    let whole = div-add-mod' n d in
    let same : n / d * d ≡ n = omega (arith, whole, e) in pos-*ℤ (n / d) d ∙ ap pos same
with_sign-abs (negsuc n) d e =
    let whole = div-add-mod' (suc n) d in
    let same : suc n / d * d ≡ suc n = omega (arith, whole, e) in
    neg-*ℤ (suc n / d) d ∙ ap (sub_ℕ 0) same ∙ negated n

integral-ok : (n : ℤ) (d : ℕ) {v : ℤ} → integral n d ≡ ok v → v *ℤ pos d ≡ n
unfolding integral
integral-ok n d e = elim (Bool-cases ((abs n % d) == 0)) [
  | inl whole ↦
      rw (← ok-injective (rw whole at e)) (with_sign-abs n d ((==_iff (abs n % d) 0).0 whole))
  | inr part ↦ absurd (err≢ok (rw part at e))
]

times_assoc : (a b c : ℕ) → a * b * c ≡ a * (b * c)
times_assoc a b c = grind arith

excess_digits-le : (fuel k a : ℕ) → a < context_limit → excess_digits fuel (a * 10 ^ k) ≤ k
unfolding excess_digits
excess_digits-le zero k a small = omega arith
excess_digits-le (suc fuel) zero a small =
    let one : a * 10 ^ 0 ≡ a = omega arith in
    let fits : ltb (a * 10 ^ 0) context_limit ≡ true = lt→ltb _ _ (omega (arith, one, small)) in
    rw (excess_digits, fits) (omega arith)
excess_digits-le (suc fuel) (suc k) a small =
    elim (Bool-cases (ltb (a * 10 ^ suc k) context_limit)) [
      | inl fits ↦ rw (excess_digits, fits) (omega arith)
      | inr long ↦
          let step : a * 10 ^ suc k ≡ a * 10 ^ k * 10 =
            ap (λ (n : ℕ). a * n) (pow-suc 10 k) ∙ sym (times_assoc a (10 ^ k) 10) in
          let shorter : a * 10 ^ suc k / 10 ≡ a * 10 ^ k =
            ap (λ (n : ℕ). n / 10) step ∙ mul-div_cancel (a * 10 ^ k) (omega arith) in
          let ih = excess_digits-le fuel k a small in
          rw (excess_digits, long, shorter) (omega (arith, ih))
    ]

ten_power-add : (i j : ℕ) → 10 ^ (i + j) ≡ 10 ^ i * 10 ^ j
ten_power-add i zero =
    let none_more : i + 0 ≡ i = omega arith in
    let once : 10 ^ i ≡ 10 ^ i * 1 = omega arith in ap (λ (n : ℕ). 10 ^ n) none_more ∙ once
ten_power-add i (suc j) =
    let ih = ten_power-add i j in
    let shift : i + suc j ≡ suc (i + j) = omega arith in
    let more : 10 ^ (i + suc j) ≡ 10 ^ (i + j) * 10 =
      ap (λ (n : ℕ). 10 ^ n) shift ∙ pow-suc 10 (i + j) in
    let last = pow-suc 10 j in
    more
    ∙ ap (λ (n : ℕ). n * 10) ih
    ∙ times_assoc (10 ^ i) (10 ^ j) 10
    ∙ ap (λ (n : ℕ). 10 ^ i * n) (sym last)

half_even-exact : (n d : ℕ) → 0 < d → n % d ≡ 0 → half_even n d * d ≡ n
half_even-exact n d h whole =
    let below : ltb (2 * 0) d ≡ true = lt→ltb _ _ (omega (arith, h)) in
    let parts = div-add-mod' n d in rw (whole, below) (omega (arith, parts, whole))

-- A number of at most 28 digits before its last zeros is not rounded.
rounded-exact : (k a : ℕ) → a < context_limit → rounded (a * 10 ^ k) ≡ a * 10 ^ k
unfolding rounded
rounded-exact k a small =
    let n = a * 10 ^ k in
    let j = excess_digits n n in
    let few : j ≤ k = excess_digits-le n k a small in
    let split : 10 ^ k ≡ 10 ^ (k - j) * 10 ^ j =
      ap (λ (m : ℕ). 10 ^ m) (omega (arith, few)) ∙ ten_power-add (k - j) j in
    let factor : n ≡ a * 10 ^ (k - j) * 10 ^ j =
      ap (λ (m : ℕ). a * m) split ∙ sym (times_assoc a (10 ^ (k - j)) (10 ^ j)) in
    half_even-exact n (10 ^ j) (one-le-pow j 10 (omega arith))
      (ap (λ (m : ℕ). m % 10 ^ j) factor ∙ mul-mod_left (a * 10 ^ (k - j)) (10 ^ j))

with_sign-same : (x : ℤ) → with_sign x (abs x) ≡ x
with_sign-same (pos n) = refl
with_sign-same (negsuc n) = negated n

in_context-exact : (x : ℤ) (k a : ℕ) → abs x ≡ a * 10 ^ k → a < context_limit → in_context x ≡ x
unfolding in_context
in_context-exact x k a e small =
    ap (with_sign x) (ap rounded e ∙ rounded-exact k a small ∙ sym e) ∙ with_sign-same x

abs-*ℤ : (c : ℤ) (s : ℕ) → abs (c *ℤ pos s) ≡ abs c * s
abs-*ℤ (pos n) s = ap abs (pos-*ℤ n s)
abs-*ℤ (negsuc n) s =
    ap (λ x. abs (x *ℤ pos s)) (sym (negated n)) ∙ ap abs (neg-*ℤ (suc n) s) ∙ abs_neg (suc n * s)

-- A decimal of at most 28 digits, at a scale that is a power of ten, is given a scaled value exactly
-- when the value stands for the same number at the scale: nothing is rounded.
pub decimal_to_scaled-exact :
    (c : ℤ) (p places : ℕ) (v : ℤ)
    → abs c < context_limit
    → (decimal_to_scaled (finite c p) (10 ^ places) ≡ ok v)
      ↔ (v *ℤ pos (10 ^ p) ≡ c *ℤ pos (10 ^ places))
unfolding decimal_to_scaled
decimal_to_scaled-exact c p places v small =
    let exact : in_context (c *ℤ pos (10 ^ places)) ≡ c *ℤ pos (10 ^ places) =
      in_context-exact (c *ℤ pos (10 ^ places)) places (abs c) (abs-*ℤ c (10 ^ places)) small in
    (
      λ e. integral-ok (c *ℤ pos (10 ^ places)) (10 ^ p) (rw exact at e),
      λ e.
          ap (λ n. integral n (10 ^ p)) (exact ∙ sym e)
          ∙ integral-*ℤ v (10 ^ p) (one-le-pow p 10 (omega arith)),
    )

within_context : (v : ℤ) → abs v < context_limit → in_context v ≡ v
within_context v small =
    let one : abs v ≡ abs v * 10 ^ 0 = omega arith in in_context-exact v 0 (abs v) one small

-- At a scale that is a power of ten, a scaled value of at most 28 digits that is turned into a decimal
-- and back is the same value; and a decimal of at most 28 digits that is read as a scaled value of at
-- most 28 digits comes back as a decimal that stands for the number that was read.
pub scaled_to_decimal-round_trip :
    (v c r : ℤ) (p places : ℕ)
    → abs v < context_limit
    → abs c < context_limit
    → abs r < context_limit
    → decimal_to_scaled (finite c p) (10 ^ places) ≡ ok r
    → (decimal_to_scaled (scaled_to_decimal v places) (10 ^ places) ≡ ok v)
      × (decimal_to_scaled (scaled_to_decimal r places) (10 ^ p) ≡ ok c)
unfolding scaled_to_decimal
scaled_to_decimal-round_trip v c r p places v_small c_small r_small e = (
  rw (within_context v v_small) ((decimal_to_scaled-exact v places places v v_small).1 refl),
  rw (within_context r r_small) (
      (decimal_to_scaled-exact r places p c r_small).1
        (sym ((decimal_to_scaled-exact c p places r c_small).0 e))),
)

whole_timestamp :
    (n unit : ℕ)
    → n < context_limit
    → n * unit < context_limit
    → multiplier n (10 ^ 0) ≡ unit
    → parse_numeric (finite (pos n) 0) ≡ ok (pos (n * unit))
unfolding parse_numeric
whole_timestamp n unit small fits e =
    let one_more : n * unit ≡ n * unit * 1 = omega arith in
    let step = pos-*ℤ n unit ∙ ap pos one_more ∙ sym (pos-*ℤ (n * unit) 1) in
    let one : n ≡ n * 10 ^ 0 = omega arith in
    let same : rounded n ≡ n = ap rounded one ∙ rounded-exact 0 n small ∙ sym one in
    let exact : in_context (pos n *ℤ pos unit) ≡ pos n *ℤ pos unit =
      ap in_context (pos-*ℤ n unit) ∙ within_context (pos (n * unit)) fits ∙ sym (pos-*ℤ n unit) in
    rw (same, e, exact) (ap (λ m. integral m 1) step ∙ integral-*ℤ (pos (n * unit)) 1 (omega arith))

abbrev pub Reads : ℕ → ℕ → Type 0
Reads n ns = parse_numeric (finite (pos n) 0) ≡ ok (pos ns)

timestamp_lem :
    (n unit ns : ℕ)
    → multiplier n (10 ^ 0) ≡ unit
    → n * unit ≡ ns
    → n < context_limit
    → ns < context_limit
    → Reads n ns
timestamp_lem n unit ns e whole small fits =
    whole_timestamp n unit small (omega (arith, whole, fits)) e ∙ ap (λ (m : ℕ). ok (pos m)) whole

-- A whole number of seconds from 10^8 up to 10^11 (the years 1973 to 5138) is read the same in
-- seconds, in milliseconds, in microseconds and in nanoseconds.
pub parse_numeric-units :
    (seconds : ℕ)
    → 100_000_000 ≤ seconds
    → seconds < 100_000_000_000
    → Reads seconds (seconds * 1_000_000_000)
      × Reads (seconds * 1_000) (seconds * 1_000_000_000)
      × Reads (seconds * 1_000_000) (seconds * 1_000_000_000)
      × Reads (seconds * 1_000_000_000) (seconds * 1_000_000_000)
parse_numeric-units seconds low high = (
  timestamp_lem seconds 1_000_000_000 _ (ground arith) refl (omega arith) (omega arith),
  timestamp_lem (seconds * 1_000) 1_000_000 _ (ground arith) (omega arith) (omega arith)
      (omega arith),
  timestamp_lem (seconds * 1_000_000) 1_000 _ (ground arith) (omega arith) (omega arith)
      (omega arith),
  timestamp_lem (seconds * 1_000_000_000) 1 _ (ground arith) (omega arith) (omega arith)
      (omega arith),
)
