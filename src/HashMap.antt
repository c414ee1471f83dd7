-- ===== src/HashMap.antt =====
-- `hashbrown::HashMap` with integer keys, as the association list of its entries. The order of the
-- list carries no meaning: what iterates over a map takes the order as an argument.
use lloogg.Prelude.{
  ◌≤◌, ℕ, suc, ◌≡◌, refl, Option, none, some, List, [], ◌∷◌, arith, ◌==◌, if◌then◌else◌, length,
  All, subst, Bool-cases, inl, inr, ==_iff, ==-refl, ◌∙◌, false,
}

abbrev pub HashMap {ℓ} : Type ℓ → Type ℓ
HashMap V = List (ℕ × V)

module _ {ℓ} {V : Type ℓ} where
  -- `get`
  unfoldable pub lookup : ℕ → HashMap V → Option V
  lookup k [] = none
  lookup k ((j, v) ∷ m) = if j == k then some v else lookup k m

  unfoldable pub remove : ℕ → HashMap V → HashMap V
  remove k [] = []
  remove k ((j, v) ∷ m) = let rest = remove k m in if j == k then rest else (j, v) ∷ rest

  -- `insert`, and a write through a reference to the value of `k`
  unfoldable pub insert : ℕ → V → HashMap V → HashMap V
  insert k v m = (k, v) ∷ remove k m

  -- No key occurs twice.
  abbrev pub HasUniqueKeys : HashMap V → Type ℓ
  HasUniqueKeys [] = Unit
  HasUniqueKeys ((k, v) ∷ m) = (lookup k m ≡ none) × HasUniqueKeys m

  pub lookup-remove :
      (k j : ℕ) (m : HashMap V) → lookup j (remove k m) ≡ (if k == j then none else lookup j m)
  unfolding lookup remove
  lookup-remove k j [] = ground arith
  lookup-remove k j ((i, v) ∷ m) = ground (arith, lookup-remove k j m)

  pub lookup-insert :
      (k j : ℕ) (v : V) (m : HashMap V)
      → lookup j (insert k v m) ≡ (if k == j then some v else lookup j m)
  unfolding lookup insert
  lookup-insert k j v m = ground (arith, lookup-remove k j m)

  pub remove-absent : (k : ℕ) (m : HashMap V) → lookup k m ≡ none → remove k m ≡ m
  unfolding lookup remove
  remove-absent k [] h = refl
  remove-absent k ((j, v) ∷ m) h = ground (arith, remove-absent k m)

  pub remove-HasUniqueKeys : (k : ℕ) (m : HashMap V) → HasUniqueKeys m → HasUniqueKeys (remove k m)
  unfolding remove
  remove-HasUniqueKeys k [] u = tt
  remove-HasUniqueKeys k ((j, v) ∷ m) u =
      ground (arith, remove-HasUniqueKeys k m u.1, lookup-remove k j m)

  pub length-remove :
      (k : ℕ) {v : V} (m : HashMap V)
      → HasUniqueKeys m
      → lookup k m ≡ some v
      → suc (length (remove k m)) ≡ length m
  unfolding lookup remove
  length-remove k [] u h = ground arith
  length-remove k {v} ((j, w) ∷ m) u h =
      ground (arith, length-remove k {v = v} m u.1, remove-absent k m, ==_iff j k)

  pub All-remove {κ} : (P : ℕ × V → Type κ) (k : ℕ) (m : HashMap V) → All P m → All P (remove k m)
  unfolding remove
  All-remove P k [] h = tt
  All-remove P k ((j, v) ∷ m) h = elim (Bool-cases (j == k)) [
    | inl same ↦ rw same (All-remove P k m h.1)
    | inr other ↦ rw other (h.0, All-remove P k m h.1)
  ]

  pub All-lookup {κ} :
      (P : V → Type κ) (k : ℕ) {v : V} (m : HashMap V)
      → All (λ e. P e.1) m
      → lookup k m ≡ some v
      → P v
  unfolding lookup
  All-lookup P k [] h e = absurd (cc)
  All-lookup P k {v} ((j, w) ∷ m) h e = elim (Bool-cases (j == k)) [
    | inl same ↦ let found : w ≡ v = ground arith in subst P found h.0
    | inr other ↦ let later : lookup k m ≡ some v = ground arith in All-lookup P k m h.1 later
  ]

  pub lookup-remove_self : (k : ℕ) (m : HashMap V) → lookup k (remove k m) ≡ none
  lookup-remove_self k m = lookup-remove k k m ∙ ground arith

  pub remove-insert : (k : ℕ) (v : V) (m : HashMap V) → remove k (insert k v m) ≡ remove k m
  unfolding insert remove
  remove-insert k v m = rw (==-refl k) (remove-absent k (remove k m) (lookup-remove_self k m))

  pub lookup-remove_ne :
      (k j : ℕ) (m : HashMap V) → (k == j) ≡ false → lookup j (remove k m) ≡ lookup j m
  lookup-remove_ne k j m h = lookup-remove k j m ∙ rw h

  pub length-remove-le : (k : ℕ) (m : HashMap V) → length (remove k m) ≤ length m
  unfolding remove
  length-remove-le k [] = omega arith
  length-remove-le k ((j, v) ∷ m) = ground (arith, length-remove-le k m)
