-- ===== src/Base/Monad.antt =====
-- Python's exceptions, and methods that mutate an object: the state comes back after a raise too,
-- since what was written before the raise stays written.
use mathlib.Core.Path.{◌≡◌, refl, ap, subst}
use mathlib.Core.Logic.{◌⊎◌, inl, inr}
use mathlib.Core.Bool.{Bool, true, false}

pub data Result (E A : Type 0) : Type 0 where
  ok : A → Result E A
  err : E → Result E A

module _ {E : Type 0} where
  infixl 5 ◌>>=◌ ◌>>◌
  abbrev pub ◌>>=◌ : {A B : Type 0} → Result E A → (A → Result E B) → Result E B
  ok a >>= f = f a
  err e >>= f = err e

  abbrev pub ◌>>◌ : {B : Type 0} → Result E (Unit {0}) → Result E B → Result E B
  m >> k = m >>= λ _. k

  -- `if test: raise e`
  abbrev pub raise_if : Bool → E → Result E (Unit {0})
  raise_if true e = err e
  raise_if false e = ok tt

  pub Result-cases :
      {A : Type 0} (r : Result E A) → ((a : A) × (r ≡ ok a)) ⊎ ((e : E) × (r ≡ err e))
  Result-cases (ok a) = inl (a, refl)
  Result-cases (err e) = inr (e, refl)

  pub ok-injective : {A : Type 0} {a b : A} → ◌≡◌ {A = Result E A} (ok a) (ok b) → a ≡ b
  ok-injective {a = a} p = ap (λ r. elim r [ ok x ↦ x | err e ↦ a ]) p

  pub err≢ok : {A : Type 0} {a : A} {e : E} → ¬ (◌≡◌ {A = Result E A} (err e) (ok a))
  err≢ok p = cc

  -- What holds of the value, if there is one.
  abbrev pub Returns {ℓ} : {A : Type 0} → (A → Type ℓ) → Result E A → Type ℓ
  Returns P (ok a) = P a
  Returns P (err e) = Unit

  pub Returns-bind {ℓ κ} :
      {A B : Type 0} (P : A → Type ℓ) (Q : B → Type κ) (r : Result E A) (f : A → Result E B)
      → Returns P r
      → ((a : A) → P a → Returns Q (f a))
      → Returns Q (r >>= f)
  Returns-bind P Q (ok a) f p next = next a p
  Returns-bind P Q (err e) f p next = tt

  pub Returns-after {κ} :
      {A B : Type 0} (Q : B → Type κ) (r : Result E A) (f : A → Result E B)
      → ((a : A) → Returns Q (f a))
      → Returns Q (r >>= f)
  Returns-after Q (ok a) f next = next a
  Returns-after Q (err e) f next = tt

  -- A property of whatever is returned holds of what is returned.
  pub Returns-ok {ℓ} :
      {A : Type 0} (P : A → Type ℓ) (r : Result E A) {a : A} → Returns P r → r ≡ ok a → P a
  Returns-ok P (ok b) {a} p e = subst P (ok-injective e) p
  Returns-ok P (err x) p e = absurd (err≢ok e)
