-- ===== src/Dict.antt =====
-- A Python dict in insertion order, keyed by identifiers. The program's identifiers (tokens, markets,
-- orders) are strings that it only compares, so they are numbers here.
use mathlib.Core.Option.{some-injective}
use polymarket_btc_15min_bac.Base.{
  ℕ, ◌≡◌, ◌≢◌, refl, sym, ◌∙◌, true, false, ==_iff, Option, none, some, List, [], ◌∷◌, ◌==◌,
  if◌then◌else◌, is_some, Bool-cases, Option-cases, subst, inl, inr, arith, ℤ, pos, ◌+ℤ◌, int_laws,
  parts_of_eq, All,
}

abbrev pub Dict {ℓ} : Type ℓ → Type ℓ
Dict Value = List (ℕ × Value)

module _ {ℓ} {V : Type ℓ} where
  abbrev pub value_or : Option V → V → V
  value_or none v = v
  value_or (some old) _ = old

  -- `d.get(key)`
  abbrev pub lookup : ℕ → Dict V → Option V
  lookup key [] = none
  lookup key (entry ∷ rest) =
      let found = lookup key rest in if key == entry.0 then some entry.1 else found

  -- The assignment `d[key] = value`, which keeps the place of a known key.
  abbrev pub insert : ℕ → V → Dict V → Dict V
  insert key value [] = (key, value) ∷ []
  insert key value (entry ∷ rest) =
      let later = insert key value rest in
      if key == entry.0 then (key, value) ∷ rest else entry ∷ later

  -- `d.setdefault(k, v)`, as the dict that it leaves
  abbrev pub set_default : ℕ → V → Dict V → Dict V
  set_default k v d = if is_some (lookup k d) then d else insert k v d

  -- What a lookup finds after an assignment, to the same key or to another.
  pub lookup-insert :
      (other key : ℕ) (value : V) (d : Dict V)
      → lookup other (insert key value d) ≡ (if other == key then some value else lookup other d)
  lookup-insert other key value [] = refl
  lookup-insert other key value (entry ∷ rest) =
      let ih = lookup-insert other key value rest in ground (arith, ih)

  pub lookup_assigned :
      (key : ℕ) (value : V) (d : Dict V) → lookup key (insert key value d) ≡ some value
  lookup_assigned key value d =
      let same : (key == key) ≡ true = ground arith in lookup-insert key key value d ∙ rw same refl

  pub lookup_other :
      (other key : ℕ) (value : V) (d : Dict V)
      → other ≢ key
      → lookup other (insert key value d) ≡ lookup other d
  lookup_other other key value d h =
      let differ : (other == key) ≡ false = ground arith in
      lookup-insert other key value d ∙ rw differ refl

  pub All-insert {κ} :
      (P : ℕ × V → Type κ) (k : ℕ) (v : V) (d : Dict V) → P (k, v) → All P d → All P (insert k v d)
  All-insert P k v [] p a = (p, tt)
  All-insert P k v (e ∷ d) p (q, qs) = elim (Bool-cases (k == e.0)) [
    | inl same ↦ rw same (p, qs)
    | inr other ↦ rw other (q, All-insert P k v d p qs)
  ]

  -- The sum of a signed quantity over the values.
  abbrev pub total : (V → ℤ) → Dict V → ℤ
  total f [] = pos 0
  total f (e ∷ d) = f e.1 +ℤ total f d

  pub total-insert :
      (f : V → ℤ) (k : ℕ) (v old : V) (d : Dict V)
      → lookup k d ≡ some old
      → total f (insert k v d) +ℤ f old ≡ total f d +ℤ f v
  total-insert f k v old [] e = cc
  total-insert f k v old (x ∷ d) e = elim (Bool-cases (k == x.0)) [
    | inl same ↦ rw (same, ← some-injective _ _ (rw same at e)) (omega int_laws)
    | inr other ↦
        rw other (omega (int_laws, parts_of_eq (total-insert f k v old d (rw other at e))))
  ]

  not_known : {v : V} → ¬ (◌≡◌ {A = Option V} (some v) none)
  not_known e = cc

  pub total-insert_new :
      (f : V → ℤ) (k : ℕ) (v : V) (d : Dict V)
      → lookup k d ≡ none
      → total f (insert k v d) ≡ total f d +ℤ f v
  total-insert_new f k v [] e = omega int_laws
  total-insert_new f k v (x ∷ d) e = elim (Bool-cases (k == x.0)) [
    | inl same ↦ absurd (not_known (rw same at e))
    | inr other ↦
        rw other (omega (int_laws, parts_of_eq (total-insert_new f k v d (rw other at e))))
  ]

  -- What `setdefault` returns is what the dict then holds.
  pub lookup-set_default :
      (k : ℕ) (v : V) (d : Dict V) → lookup k (set_default k v d) ≡ some (value_or (lookup k d) v)
  lookup-set_default k v d = elim (Option-cases (lookup k d)) [
    | inl new ↦ rw new (lookup_assigned k v d)
    | inr (old, known) ↦ rw known known
  ]

  pub lookup-set_default_ne :
      (j k : ℕ) (v : V) (d : Dict V) → j ≢ k → lookup j (set_default k v d) ≡ lookup j d
  lookup-set_default_ne j k v d h = elim (Option-cases (lookup k d)) [
    | inl new ↦ rw new (lookup_other j k v d h)
    | inr (old, known) ↦ rw known refl
  ]

  pub total-set_default :
      (f : V → ℤ) (k : ℕ) (v : V) (d : Dict V)
      → f v ≡ pos 0
      → total f (set_default k v d) ≡ total f d
  total-set_default f k v d zero_value = elim (Option-cases (lookup k d)) [
    | inl new ↦
        rw new
          (omega (int_laws, parts_of_eq (total-insert_new f k v d new), parts_of_eq zero_value))
    | inr (old, known) ↦ rw known refl
  ]

  pub All-set_default {κ} :
      (P : ℕ × V → Type κ) (k : ℕ) (v : V) (d : Dict V)
      → P (k, v)
      → All P d
      → All P (set_default k v d)
  All-set_default P k v d p a = elim (Option-cases (lookup k d)) [
    | inl new ↦ rw new (All-insert P k v d p a)
    | inr (old, known) ↦ rw known a
  ]

  pub All-lookup {κ} :
      (P : V → Type κ) (k : ℕ) (d : Dict V) {v : V} → All (λ e. P e.1) d → lookup k d ≡ some v → P v
  All-lookup P k [] a e = cc
  All-lookup P k (x ∷ d) (p, ps) e = elim (Bool-cases (k == x.0)) [
    | inl same ↦ subst P (some-injective _ _ (rw same at e)) p
    | inr other ↦ All-lookup P k d ps (rw other at e)
  ]

  -- What holds of every entry holds of the one that a lookup finds.
  pub All-entry {κ} :
      (P : ℕ × V → Type κ) (k : ℕ) (d : Dict V) {v : V} → All P d → lookup k d ≡ some v → P (k, v)
  All-entry P k [] a e = cc
  All-entry P k (x ∷ d) (p, ps) e = elim (Bool-cases (k == x.0)) [
    | inl same ↦
        let key = (==_iff k x.0).0 same in
        subst (λ v. P (k, v)) (some-injective _ _ (rw same at e))
          (subst (λ (j : ℕ). P (j, x.1)) (sym key) p)
    | inr other ↦ All-entry P k d ps (rw other at e)
  ]
