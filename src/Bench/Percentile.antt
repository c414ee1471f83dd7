-- ===== src/Bench/Percentile.antt =====
-- `percentile` of src/bin/bench.rs.
use lloogg.Prelude.{
  ℕ, zero, suc, ◌+◌, ◌-◌, ◌%◌, ◌^◌, ◌≤◌, ◌<◌, ◌≡◌, refl, true, Option, none, some, List, [], ◌∷◌,
  min, leb, ltb, length, get_or, arith, All, if◌then◌else◌,
}

-- `rank` is `(sorted.len() as f64 * p / 100.0).ceil() as usize`. `none` is the panic of an index out of
-- bounds: a rank of 0 wraps around.
unfoldable pub percentile : (rank : ℕ) → List ℕ → Option ℕ
percentile rank [] = some 0
percentile rank (x ∷ xs) =
    let sorted = x ∷ xs in
    let idx = (min rank (length sorted) + 2 ^ 64 - 1) % 2 ^ 64 in
    if ltb idx (length sorted) then some (get_or sorted idx 0) else none

abbrev pub IsSorted : List ℕ → Type 0
IsSorted [] = Unit
IsSorted (x ∷ xs) = All (λ y. x ≤ y) xs × IsSorted xs

-- How many are at most `v`, and how many are at least `v`.
abbrev pub at_most : ℕ → List ℕ → ℕ
at_most v [] = 0
at_most v (x ∷ xs) = (if leb x v then 1 else 0) + at_most v xs

abbrev pub at_least : ℕ → List ℕ → ℕ
at_least v [] = 0
at_least v (x ∷ xs) = (if leb v x then 1 else 0) + at_least v xs

All-get_or : (P : ℕ → Type 0) (xs : List ℕ) (k : ℕ) → k < length xs → All P xs → P (get_or xs k 0)
All-get_or P [] k h a = absurd (omega arith)
All-get_or P (x ∷ xs) zero h a = a.0
All-get_or P (x ∷ xs) (suc k) h a = All-get_or P xs k (omega arith) a.1

at_least-All : (v : ℕ) (xs : List ℕ) → All (λ y. v ≤ y) xs → at_least v xs ≡ length xs
at_least-All v [] a = refl
at_least-All v (x ∷ xs) a = ground (arith, at_least-All v xs a.1, a.0)

-- The `k`-th of sorted values has `k` others that are not above it, and the rest not below it.
IsSorted-ranks :
    (xs : List ℕ) (k : ℕ)
    → IsSorted xs
    → k < length xs
    → (k + 1 ≤ at_most (get_or xs k 0) xs) × (length xs ≤ at_least (get_or xs k 0) xs + k)
IsSorted-ranks [] k s h = absurd (omega arith)
IsSorted-ranks (x ∷ xs) zero s h = ground (arith, at_least-All x xs s.0)
IsSorted-ranks (x ∷ xs) (suc k) s h =
    let (below, above) = IsSorted-ranks xs k s.1 (omega arith) in
    let first : x ≤ get_or xs k 0 = All-get_or (λ y. x ≤ y) xs k (omega arith) s.0 in
    ground (arith, below, above, first)

-- The percentile of sorted latencies is one of which at least `rank` latencies, all of them if there are
-- fewer, are not above it, and at least the others, and itself, not below it; nothing panics. There is a
-- latency, fewer than 2 ^ 64, and the rank is positive.
pub percentile_lem :
    (rank : ℕ) (sorted : List ℕ)
    → IsSorted sorted
    → 0 < length sorted
    → length sorted < 2 ^ 64
    → 0 < rank
    → (v : ℕ) × (percentile rank sorted ≡ some v)
      × (min rank (length sorted) ≤ at_most v sorted)
      × (length sorted + 1 ≤ at_least v sorted + min rank (length sorted))
unfolding percentile
percentile_lem rank [] s some_left word p = absurd (omega arith)
percentile_lem rank (x ∷ xs) s some_left word p =
    let sorted : List ℕ = x ∷ xs in
    let k : ℕ = min rank (length sorted) - 1 in
    let index : (min rank (length sorted) + 2 ^ 64 - 1) % 2 ^ 64 ≡ k = omega arith in
    let inside : ltb k (length sorted) ≡ true = ground arith in
    let (below, above) = IsSorted-ranks sorted k s (omega arith) in
    (get_or sorted k 0, rw (index, inside), omega (arith, below), omega (arith, above))
