-- ===== src/Sorting.antt =====
-- Python's `sorted` by a key, for any key type with a Boolean order, and what its callers rely on: the
-- result is in order and holds the same items.
use mathlib.Core.List.{Perm}
use mathlib.Core.List.Perm
use polymarket_btc_15min_bac.Base.{
  ℕ, ◌≡◌, Bool, true, false, List, [], ◌∷◌, ◌++◌, All, All-map, if◌then◌else◌, Bool-cases, inl, inr,
  refl, ltb, ◌==◌, arith,
}

-- What sorting asks of a comparison.
pub record IsOrder {ℓ} {A : Type ℓ} (le : A → A → Bool) : Type ℓ where
  pub total : (a b : A) → le a b ≡ false → le b a ≡ true
  pub trans : (a b c : A) → le a b ≡ true → le b c ≡ true → le a c ≡ true

pub Perm-middle {ℓ} : {A : Type ℓ} (a : A) (xs ys : List A) → Perm (xs ++ (a ∷ ys)) (a ∷ (xs ++ ys))
Perm-middle a [] ys = Perm.rfl
Perm-middle a (x ∷ xs) ys =
    Perm.trans (Perm.cons x (Perm-middle a xs ys)) (Perm.swap a x (xs ++ ys))

module _ {ℓ} {A : Type ℓ} (le : A → A → Bool) where
  -- An item goes in front of the first one that it may precede: equal items keep their order.
  unfoldable pub put_in : A → List A → List A
  put_in a [] = a ∷ []
  put_in a (b ∷ l) = let later = put_in a l in if le a b then a ∷ b ∷ l else b ∷ later

  unfoldable pub sorted : List A → List A
  sorted [] = []
  sorted (a ∷ l) = put_in a (sorted l)

  abbrev pub IsBelow : A → A → Type 0
  IsBelow a b = le a b ≡ true

  abbrev pub IsSorted : List A → Type ℓ
  IsSorted [] = Unit
  IsSorted (a ∷ l) = All (IsBelow a) l × IsSorted l

  pub All-put_in {κ} : (P : A → Type κ) (a : A) (l : List A) → P a → All P l → All P (put_in a l)
  unfolding put_in
  All-put_in P a [] p _ = (p, tt)
  All-put_in P a (b ∷ l) p (q, qs) = elim (Bool-cases (le a b)) [
    | inl first ↦ rw first (p, (q, qs))
    | inr later ↦ rw later (q, All-put_in P a l p qs)
  ]

  pub All-sorted {κ} : (P : A → Type κ) (l : List A) → All P l → All P (sorted l)
  unfolding sorted
  All-sorted P [] _ = tt
  All-sorted P (a ∷ l) (p, ps) = All-put_in P a (sorted l) p (All-sorted P l ps)

  pub put_in-perm : (a : A) (l : List A) → Perm (put_in a l) (a ∷ l)
  unfolding put_in
  put_in-perm a [] = Perm.rfl
  put_in-perm a (b ∷ l) = elim (Bool-cases (le a b)) [
    | inl first ↦ rw first Perm.rfl
    | inr later ↦ rw later (Perm.trans (Perm.cons b (put_in-perm a l)) (Perm.swap a b l))
  ]

  pub sorted-perm : (l : List A) → Perm (sorted l) l
  unfolding sorted
  sorted-perm [] = Perm.nil
  sorted-perm (a ∷ l) = Perm.trans (put_in-perm a (sorted l)) (Perm.cons a (sorted-perm l))

  module _ (order : IsOrder le) where
    pub put_in-IsSorted : (a : A) (l : List A) → IsSorted l → IsSorted (put_in a l)
    unfolding put_in
    put_in-IsSorted a [] _ = (tt, tt)
    put_in-IsSorted a (b ∷ l) (below, s) = elim (Bool-cases (le a b)) [
      | inl first ↦
          rw first ((first, All-map _ _ l (λ c h. order.trans a b c first h) below), (below, s))
      | inr later ↦ rw later (All-put_in _ a l (order.total a b later) below, put_in-IsSorted a l s)
    ]

    pub sorted-IsSorted : (l : List A) → IsSorted (sorted l)
    unfolding sorted
    sorted-IsSorted [] = tt
    sorted-IsSorted (a ∷ l) = put_in-IsSorted a (sorted l) (sorted-IsSorted l)

  -- A list in order is left as it is.
  pub sorted_of_IsSorted : (l : List A) → IsSorted l → sorted l ≡ l
  unfolding sorted put_in
  sorted_of_IsSorted [] _ = refl
  sorted_of_IsSorted (a ∷ []) _ = refl
  sorted_of_IsSorted (a ∷ b ∷ l) ((h, _), s) = rw (sorted_of_IsSorted (b ∷ l) s, h) refl

-- The comparison of tuples of numbers.
abbrev pub lex_le : List ℕ → List ℕ → Bool
lex_le [] _ = true
lex_le (_ ∷ _) [] = false
lex_le (a ∷ l) (b ∷ r) =
    let later = lex_le l r in if ltb a b then true else (if a == b then later else false)

lex_le_trans : (l m r : List ℕ) → lex_le l m ≡ true → lex_le m r ≡ true → lex_le l r ≡ true
lex_le_trans [] m r h k = refl
lex_le_trans (a ∷ l) [] r h k = cc
lex_le_trans (a ∷ l) (b ∷ m) [] h k = cc
lex_le_trans (a ∷ l) (b ∷ m) (c ∷ r) h k = let ih = lex_le_trans l m r in ground (arith, ih)

lex_le_total : (l r : List ℕ) → lex_le l r ≡ false → lex_le r l ≡ true
lex_le_total [] r h = cc
lex_le_total (a ∷ l) [] h = refl
lex_le_total (a ∷ l) (b ∷ r) h = let ih = lex_le_total l r in ground (arith, ih)

pub lex_le-IsOrder : IsOrder lex_le
lex_le-IsOrder = record { total = lex_le_total; trans = lex_le_trans }

-- An order on keys is one on the items that have them.
abbrev pub by_key {ℓ κ} : {A : Type ℓ} {K : Type κ} → (K → K → Bool) → (A → K) → A → A → Bool
by_key le key a b = le (key a) (key b)

pub by_key-IsOrder {ℓ κ} :
    {A : Type ℓ} {K : Type κ} (le : K → K → Bool) (key : A → K)
    → IsOrder le
    → IsOrder (by_key le key)
by_key-IsOrder le key order = record {
  total = λ a b. order.total (key a) (key b);
  trans = λ a b c. order.trans (key a) (key b) (key c);
}
