-- ===== src/OrderBook/Levels.antt =====
-- The levels of a book: what the validator lets through, and what loading and cutting levels keep.
use polymarket_btc_15min_bac.Base.{
  ℕ, zero, suc, ◌<◌, ◌≡◌, refl, Bool, true, false, not, ◌&&◌, inl, inr, Option, none, some, List,
  [], ◌∷◌, ◌++◌, ◌==◌, ℤ, pos, negsuc, pos_part, ltb_ℤ, eqb_ℤ, is_neg, All, nil-append, Bool-cases,
  arith,
}
use polymarket_btc_15min_bac.SortedDict.{SortedDict, IsSortedDict, All-place, All-keep_if}
use polymarket_btc_15min_bac.OrderBook.{
  ValidationIssue, validate_level, validate_cross, issue_if, is_misaligned, BookLevel, price_scale,
  load, enter, has_price, duplicate_level, put_level, cut_bids, cut_asks, keys_above, keys_below,
  tick_noncompliance, pop_all, invalid_price, negative_size,
}

-- A displayed level: a price strictly between 0 and 1, and a size.
abbrev pub IsLevel : ℕ × ℕ → Type 0
IsLevel (price, size) = (0 < price) × (price < price_scale) × (0 < size)

abbrev pub IsUncrossed : Option ℕ → Option ℕ → Type 0
IsUncrossed (some bid) (some ask) = bid < ask
IsUncrossed _ _ = Unit

issue_if-nil : (test : Bool) (issue : ValidationIssue) → issue_if test issue ≡ [] → test ≡ false
issue_if-nil true issue e = cc
issue_if-nil false issue e = refl

in_range-bounds :
    (price : ℤ)
    → not (ltb_ℤ (pos 0) price && ltb_ℤ price (pos price_scale)) ≡ false
    → (0 < pos_part price) × (pos_part price < price_scale)
in_range-bounds (pos p) h = ground arith
in_range-bounds (negsuc p) h = ground arith

pub validate_level-nil :
    (price size tick : ℤ)
    → validate_level price size tick ≡ []
    → (0 < pos_part price) × (pos_part price < price_scale) × (is_neg size ≡ false)
unfolding validate_level
validate_level-nil price size tick e =
    let in_range = ltb_ℤ (pos 0) price && ltb_ℤ price (pos price_scale) in
    let sign = issue_if (is_neg size) negative_size in
    let tail = sign ++ issue_if (is_misaligned price tick) tick_noncompliance in
    let parts = nil-append (issue_if (not in_range) invalid_price) tail e in
    let range = in_range-bounds price (issue_if-nil (not in_range) invalid_price parts.0) in
    let signs = nil-append sign (issue_if (is_misaligned price tick) tick_noncompliance) parts.1 in
    (range.0, range.1, issue_if-nil (is_neg size) negative_size signs.0)

pub validate_cross-nil : (bid ask : Option ℕ) → validate_cross bid ask ≡ [] → IsUncrossed bid ask
unfolding validate_cross
validate_cross-nil (some bid) (some ask) e = ground arith
validate_cross-nil (some bid) none e = tt
validate_cross-nil none ask e = tt

module _ {M : Type 0} ⦃d : SortedDict M⦄ where
  module _ (laws : IsSortedDict M) where
    open laws use {items-empty, items-set_item, items-pop}

    pub put_level-levels :
        (price size : ℕ) (m : M)
        → 0 < price
        → price < price_scale
        → All IsLevel (d.items m)
        → All IsLevel (d.items (put_level price size m))
    put_level-levels price zero m low high h =
        rw items-pop (All-keep_if IsLevel (λ e. not (e.0 == price)) (d.items m) h)
    put_level-levels price (suc size) m low high h =
        let sized : (suc size == 0) ≡ false = ground arith in
        rw (sized, items-set_item)
          (All-place IsLevel price (suc size) (d.items m) (low, high, omega arith) h)

    pop_all-levels :
        (prices : List ℕ) (m : M)
        → All IsLevel (d.items m)
        → All IsLevel (d.items (pop_all prices m))
    pop_all-levels [] m h = h
    pop_all-levels (price ∷ prices) m h =
        pop_all-levels prices (d.pop price m)
          (rw items-pop (All-keep_if IsLevel (λ e. not (e.0 == price)) (d.items m) h))

    pub empty-levels : All IsLevel (d.items d.empty)
    empty-levels = rw items-empty tt

    pub cut_bids-levels :
        (reported : Option ℤ) (m : M)
        → All IsLevel (d.items m)
        → All IsLevel (d.items (cut_bids reported m))
    cut_bids-levels none m h = h
    cut_bids-levels (some reported) m h = elim (Bool-cases (eqb_ℤ reported (pos 0))) [
      | inl gone ↦ rw gone empty-levels
      | inr cut ↦ rw cut (pop_all-levels (keys_above reported m) m h)
    ]

    pub cut_asks-levels :
        (reported : Option ℤ) (m : M)
        → All IsLevel (d.items m)
        → All IsLevel (d.items (cut_asks reported m))
    cut_asks-levels none m h = h
    cut_asks-levels (some reported) m h = elim (Bool-cases (eqb_ℤ reported (pos price_scale))) [
      | inl gone ↦ rw gone empty-levels
      | inr cut ↦ rw cut (pop_all-levels (keys_below reported m) m h)
    ]

    enter-levels :
        (price size : ℤ) (m : M)
        → (0 < pos_part price) × (pos_part price < price_scale) × (is_neg size ≡ false)
        → All IsLevel (d.items m)
        → All IsLevel (d.items (enter price size m))
    enter-levels (pos p) size m (low, high, _) h = elim (Bool-cases (ltb_ℤ (pos 0) size)) [
      | inl sized ↦
          rw (sized, items-set_item)
            (All-place IsLevel p (pos_part size) (d.items m) (low, high, ground arith) h)
      | inr gone ↦ rw gone h
    ]
    enter-levels (negsuc p) size m range h = h

    abbrev level_issues : ℤ → BookLevel → M → List ValidationIssue
    level_issues tick level m =
        validate_level level.price_scaled level.size_scaled tick
        ++ issue_if (has_price level.price_scaled m) duplicate_level

    -- Issues only accumulate.
    pub load-issues :
        (tick : ℤ) (levels : List BookLevel) (m : M) (issues : List ValidationIssue)
        → (load tick levels m issues).1 ≡ []
        → issues ≡ []
    unfolding load
    load-issues tick [] m issues e = e
    load-issues tick (level ∷ levels) m issues e =
        (nil-append issues (level_issues tick level m)
          (load-issues tick levels (enter level.price_scaled level.size_scaled m) _ e)).0

    -- A side that is loaded without an issue holds nothing but levels.
    pub load-levels :
        (tick : ℤ) (levels : List BookLevel) (m : M) (issues : List ValidationIssue)
        → All IsLevel (d.items m)
        → (load tick levels m issues).1 ≡ []
        → All IsLevel (d.items (load tick levels m issues).0)
    unfolding load
    load-levels tick [] m issues h e = h
    load-levels tick (level ∷ levels) m issues h e =
        let m' = enter level.price_scaled level.size_scaled m in
        let issues' = issues ++ level_issues tick level m in
        let none_before = load-issues tick levels m' issues' e in
        let none_here = (nil-append issues (level_issues tick level m) none_before).1 in
        let valid =
          (nil-append (validate_level level.price_scaled level.size_scaled tick) _ none_here).0 in
        load-levels tick levels m' issues'
          (enter-levels level.price_scaled level.size_scaled m
            (validate_level-nil level.price_scaled level.size_scaled tick valid) h)
          e
