-- ===== src/Metrics/Drawdown.antt =====
-- What the drawdown of src/polymarket_bt/backtest/metrics.py measures.
use polymarket_btc_15min_bac.Base.{
  ◌≡◌, ◌∙◌, refl, sym, ap, List, [], ◌∷◌, ℤ, pos, ◌-ℤ◌, max_ℤ, ◌≤ℤ◌, int_laws, arith, -ℤ_parts,
  eq_of_parts,
}
use polymarket_btc_15min_bac.Metrics.{drawdown_loop, maximum_drawdown}

-- The deepest fall from `from` to one of the values, or 0.
unfoldable pub fall_from : ℤ → List ℤ → ℤ
fall_from from [] = pos 0
fall_from from (value ∷ values) = max_ℤ (from -ℤ value) (fall_from from values)

-- The deepest fall from a value to a later one, over all the pairs.
unfoldable pub deepest_fall : List ℤ → ℤ
unfolding fall_from
deepest_fall [] = pos 0
deepest_fall (value ∷ values) = max_ℤ (fall_from value values) (deepest_fall values)

antisym : (a b : ℤ) → a ≤ℤ b → b ≤ℤ a → a ≡ b
antisym a b h k = eq_of_parts a b (omega (arith, h, k))

le_refl : (a : ℤ) → a ≤ℤ a
le_refl a = omega arith

le_trans : (a b c : ℤ) → a ≤ℤ b → b ≤ℤ c → a ≤ℤ c
le_trans a b c h k = omega (arith, h, k)

le_left : (a b : ℤ) → a ≤ℤ max_ℤ a b
le_left a b = ground arith

le_right : (a b : ℤ) → b ≤ℤ max_ℤ a b
le_right a b = ground arith

max_le : (a b c : ℤ) → a ≤ℤ c → b ≤ℤ c → max_ℤ a b ≤ℤ c
max_le a b c h k = ground arith

under_left : (a x y : ℤ) → a ≤ℤ x → a ≤ℤ max_ℤ x y
under_left a x y h = le_trans a x (max_ℤ x y) h (le_left x y)

under_right : (a x y : ℤ) → a ≤ℤ y → a ≤ℤ max_ℤ x y
under_right a x y h = le_trans a y (max_ℤ x y) h (le_right x y)

max_mono : (a b x y : ℤ) → a ≤ℤ x → b ≤ℤ y → max_ℤ a b ≤ℤ max_ℤ x y
max_mono a b x y h k = max_le a b (max_ℤ x y) (under_left a x y h) (under_right b x y k)

medial-le : (p q x y : ℤ) → max_ℤ (max_ℤ p q) (max_ℤ x y) ≤ℤ max_ℤ (max_ℤ p x) (max_ℤ q y)
medial-le p q x y =
    let left = max_ℤ p x in
    let right = max_ℤ q y in
    max_le (max_ℤ p q) (max_ℤ x y) (max_ℤ left right)
      (max_mono p q left right (le_left p x) (le_left q y))
      (max_mono x y left right (le_right p x) (le_right q y))

medial : (p q x y : ℤ) → max_ℤ (max_ℤ p q) (max_ℤ x y) ≡ max_ℤ (max_ℤ p x) (max_ℤ q y)
medial p q x y =
    antisym (max_ℤ (max_ℤ p q) (max_ℤ x y)) (max_ℤ (max_ℤ p x) (max_ℤ q y)) (medial-le p q x y)
      (medial-le p x q y)

max_assoc : (a b c : ℤ) → max_ℤ (max_ℤ a b) c ≡ max_ℤ a (max_ℤ b c)
max_assoc a b c =
    let left = max_ℤ (max_ℤ a b) c in
    let right = max_ℤ a (max_ℤ b c) in
    antisym left right
      (max_le (max_ℤ a b) c right (max_mono a b a (max_ℤ b c) (le_refl a) (le_left b c))
        (under_right c a (max_ℤ b c) (le_right b c)))
      (max_le a (max_ℤ b c) left (under_left a (max_ℤ a b) c (le_left a b))
        (max_mono b c (max_ℤ a b) c (le_right a b) (le_refl c)))

max_above : (a b : ℤ) → b ≤ℤ a → max_ℤ a b ≡ a
max_above a b h = antisym (max_ℤ a b) a (max_le a b a (le_refl a) h) (le_left a b)

max_comm : (a b : ℤ) → max_ℤ a b ≡ max_ℤ b a
max_comm a b =
    antisym (max_ℤ a b) (max_ℤ b a) (max_le a b (max_ℤ b a) (le_right b a) (le_left b a))
      (max_le b a (max_ℤ a b) (le_right a b) (le_left a b))

sub-max : (a b v : ℤ) → max_ℤ a b -ℤ v ≡ max_ℤ (a -ℤ v) (b -ℤ v)
sub-max a b v =
    antisym (max_ℤ a b -ℤ v) (max_ℤ (a -ℤ v) (b -ℤ v)) (ground (arith, -ℤ_parts a v, -ℤ_parts b v))
      (ground (arith, -ℤ_parts a v, -ℤ_parts b v))

fall_from-max :
    (a b : ℤ) (values : List ℤ)
    → fall_from (max_ℤ a b) values ≡ max_ℤ (fall_from a values) (fall_from b values)
unfolding fall_from
fall_from-max a b [] = refl
fall_from-max a b (value ∷ values) =
    rw (sub-max a b value, fall_from-max a b values)
      (medial (a -ℤ value) (b -ℤ value) (fall_from a values) (fall_from b values))

-- One value more, with the drawdown so far not below zero.
regroup :
    (dd q f g deep : ℤ)
    → pos 0 ≤ℤ dd
    → max_ℤ (max_ℤ dd (max_ℤ q (pos 0))) (max_ℤ (max_ℤ f g) deep)
      ≡ max_ℤ dd (max_ℤ (max_ℤ q f) (max_ℤ g deep))
regroup dd q f g deep h =
    let floored : max_ℤ dd (max_ℤ q (pos 0)) ≡ max_ℤ dd q =
      ap (max_ℤ dd) (max_comm q (pos 0))
      ∙ sym (max_assoc dd (pos 0) q)
      ∙ ap (λ m. max_ℤ m q) (max_above dd (pos 0) h) in
    ap (λ m. max_ℤ m (max_ℤ (max_ℤ f g) deep)) floored
    ∙ ap (max_ℤ (max_ℤ dd q)) (max_assoc f g deep)
    ∙ max_assoc dd q (max_ℤ f (max_ℤ g deep))
    ∙ ap (max_ℤ dd) (sym (max_assoc q f (max_ℤ g deep)))

self-sub : (v : ℤ) → v -ℤ v ≡ pos 0
self-sub v = omega int_laws

drawdown_loop-falls :
    (peak dd : ℤ) (values : List ℤ)
    → pos 0 ≤ℤ dd
    → drawdown_loop peak dd values ≡ max_ℤ dd (max_ℤ (fall_from peak values) (deepest_fall values))
unfolding drawdown_loop fall_from deepest_fall
drawdown_loop-falls peak dd [] h = sym (max_above dd (pos 0) h)
drawdown_loop-falls peak dd (value ∷ values) h =
    let higher = max_ℤ peak value in
    let lower = max_ℤ dd (higher -ℤ value) in
    let ih =
      drawdown_loop-falls higher lower values
        (le_trans (pos 0) dd lower h (le_left dd (higher -ℤ value))) in
    let fall : higher -ℤ value ≡ max_ℤ (peak -ℤ value) (pos 0) =
      sub-max peak value value ∙ ap (max_ℤ (peak -ℤ value)) (self-sub value) in
    ih
    ∙ ap (λ m. max_ℤ (max_ℤ dd m) (max_ℤ (fall_from higher values) (deepest_fall values))) fall
    ∙ ap (λ m. max_ℤ (max_ℤ dd (max_ℤ (peak -ℤ value) (pos 0))) (max_ℤ m (deepest_fall values)))
        (fall_from-max peak value values)
    ∙ regroup dd (peak -ℤ value) (fall_from peak values) (fall_from value values)
        (deepest_fall values) h

falls-positive : (values : List ℤ) → pos 0 ≤ℤ deepest_fall values
unfolding deepest_fall
falls-positive [] = omega arith
falls-positive (value ∷ values) =
    under_right (pos 0) (fall_from value values) (deepest_fall values) (falls-positive values)

-- The one pass with a running peak finds the deepest fall from any value to any later one, over all the
-- pairs of the curve.
pub maximum_drawdown-deepest_fall :
    (values : List ℤ) → maximum_drawdown values ≡ deepest_fall values
unfolding maximum_drawdown deepest_fall fall_from
maximum_drawdown-deepest_fall [] = refl
maximum_drawdown-deepest_fall (value ∷ values) =
    let start = fall_from value values in
    let deepest = max_ℤ start (deepest_fall values) in
    let positive : pos 0 ≤ℤ deepest = falls-positive (value ∷ values) in
    let covered : max_ℤ (pos 0) start ≤ℤ deepest =
      max_le (pos 0) start deepest positive (le_left start (deepest_fall values)) in
    drawdown_loop-falls value (pos 0) (value ∷ values) (le_refl (pos 0))
    ∙ ap (λ m. max_ℤ (pos 0) (max_ℤ (max_ℤ m start) deepest)) (self-sub value)
    ∙ ap (max_ℤ (pos 0)) (max_comm (max_ℤ (pos 0) start) deepest)
    ∙ ap (max_ℤ (pos 0)) (max_above deepest (max_ℤ (pos 0) start) covered)
    ∙ max_comm (pos 0) deepest
    ∙ max_above deepest (pos 0) positive
