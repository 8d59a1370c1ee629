-- ===== src/SortedDict.antt =====
-- `sortedcontainers.SortedDict`, the container of a book side: a package that the program imports, so
-- an interface here. Prices are the keys and sizes the values.
use polymarket_btc_15min_bac.Base.{
  ℕ, ◌≡◌, refl, Bool, not, Option, none, some, List, [], ◌∷◌, ltb, ◌==◌, if◌then◌else◌, keep_if,
  All, inl, inr, Bool-cases,
}

-- A mapping's entries with one more key, in key order.
abbrev pub place : ℕ → ℕ → List (ℕ × ℕ) → List (ℕ × ℕ)
place k v [] = (k, v) ∷ []
place k v (e ∷ d) =
    if ltb k e.0 then (k, v) ∷ e ∷ d else if k == e.0 then (k, v) ∷ d else e ∷ place k v d

abbrev pub without : ℕ → List (ℕ × ℕ) → List (ℕ × ℕ)
without k = keep_if λ e. not (e.0 == k)

-- The calls of the program: `SortedDict()`, `d[k] = v`, `d.pop(k, None)` and `d.items()`.
pub record SortedDict (M : Type 0) : Type 0 where
  pub empty : M
  pub set_item : ℕ → ℕ → M → M
  pub pop : ℕ → M → M
  pub items : M → List (ℕ × ℕ)

-- What the package documents: the items are the entries in key order.
pub record IsSortedDict (M : Type 0) ⦃d : SortedDict M⦄ : Type 0 where
  pub items-empty : d.items d.empty ≡ []
  pub items-set_item : (k v : ℕ) (m : M) → d.items (d.set_item k v m) ≡ place k v (d.items m)
  pub items-pop : (k : ℕ) (m : M) → d.items (d.pop k m) ≡ without k (d.items m)

-- The interface can be met: entries kept in key order.
abbrev pub Entries : Type 0
Entries = List (ℕ × ℕ)

instance abbrev pub entries_dict : SortedDict Entries
entries_dict = record { empty = []; set_item = place; pop = without; items = λ m. m }

pub Entries-IsSortedDict : IsSortedDict Entries
Entries-IsSortedDict = record {
  items-empty = refl;
  items-set_item = λ k v m. refl;
  items-pop = λ k m. refl;
}

module _ {κ} (P : ℕ × ℕ → Type κ) where
  pub All-place : (k v : ℕ) (d : List (ℕ × ℕ)) → P (k, v) → All P d → All P (place k v d)
  All-place k v [] p a = (p, tt)
  All-place k v (e ∷ d) p (q, qs) = elim (Bool-cases (ltb k e.0)) [
    | inl low ↦ rw low (p, (q, qs))
    | inr high ↦ rw high (elim (Bool-cases (k == e.0)) [
      | inl same ↦ rw same (p, qs)
      | inr other ↦ rw other (q, All-place k v d p qs)
    ])
  ]

  pub All-keep_if : (test : ℕ × ℕ → Bool) (d : List (ℕ × ℕ)) → All P d → All P (keep_if test d)
  All-keep_if test [] a = tt
  All-keep_if test (e ∷ d) (q, qs) = elim (Bool-cases (test e)) [
    | inl keep ↦ rw keep (q, All-keep_if test d qs)
    | inr drop ↦ rw drop (All-keep_if test d qs)
  ]

-- The least and the greatest key, `peekitem(0)[0]` and `peekitem(-1)[0]`.
abbrev pub first_key : List (ℕ × ℕ) → Option ℕ
first_key [] = none
first_key (e ∷ _) = some e.0

abbrev pub last_key : List (ℕ × ℕ) → Option ℕ
last_key [] = none
last_key (e ∷ []) = some e.0
last_key (e ∷ f ∷ d) = last_key (f ∷ d)
