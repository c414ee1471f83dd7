-- ===== src/Ring/Newest.antt =====
-- The abstract view of a ring buffer: its records, the newest first.
use native.Mathlib.Nat.{mod-eq_of_lt, mod-eq-sub-mod}
use native.Mathlib.Decide.{dec_lt}
use lloogg.Prelude.{
  ℕ, zero, suc, ◌+◌, ◌-◌, ◌*◌, ◌%◌, ◌^◌, ◌≤◌, ◌<◌, ◌≡◌, refl, ap, ap₂, ◌⊎◌, inl, inr, List, [], ◌∷◌,
  arith, length, min, take,
}
use lloogg.Memory.{Memory, read-cong}
use lloogg.Record.{Record, of_bytes}
use lloogg.Ring.{RingBuffer, IsValid, newest_index, load}

-- The records number `i` to `i + n - 1`, counted from the newest.
unfoldable pub newest : Memory → RingBuffer → ℕ → ℕ → List Record
newest m b i zero = []
newest m b i (suc n) = load m b (newest_index b i) ∷ newest m b (i + 1) n

abbrev pub contents : Memory → RingBuffer → List Record
contents m b = newest m b 0 b.count

pub length-newest : (m : Memory) (b : RingBuffer) (i n : ℕ) → length (newest m b i n) ≡ n
unfolding newest
length-newest m b i zero = refl
length-newest m b i (suc n) = ap suc (length-newest m b (i + 1) n)

pub take-newest :
    (m : Memory) (b : RingBuffer) (i k n : ℕ) → take k (newest m b i n) ≡ newest m b i (min k n)
unfolding newest
take-newest m b i zero n = let e : min zero n ≡ zero = omega arith in rw e
take-newest m b i (suc k) zero = let e : min (suc k) zero ≡ zero = omega arith in rw e
take-newest m b i (suc k) (suc n) =
    let e : min (suc k) (suc n) ≡ suc (min k n) = omega arith in rw (e, take-newest m b (i + 1) k n)

-- The index without the remainder: the slot before the head, going round.
pub newest_index-cases :
    {cap : ℕ} {b : RingBuffer} (i : ℕ)
    → IsValid cap b
    → i < cap
    → (i < b.head × (newest_index b i + i + 1 ≡ b.head))
      ⊎ (b.head ≤ i × (newest_index b i + i + 1 ≡ b.head + cap))
unfolding newest_index
newest_index-cases {cap} {b} i v h =
    let wide : (b.head + b.capacity + (2 ^ 64 - 1) + (2 ^ 64 - i)) % 2 ^ 64 ≡ b.head + cap - 1 - i =
      omega arith in
    let at_cap : b.capacity ≡ cap = v.capacity in
    let total : ℕ = b.head + cap - 1 - i in
    elim (dec_lt i b.head) [
      | yes p ↦ inl (
        p,
        rw (wide, at_cap)
            (omega (
              arith,
              mod-eq-sub-mod {n = total} {m = cap} (omega arith),
              mod-eq_of_lt {n = total - cap} {m = cap} (omega arith),
            )),
      )
      | no p ↦ inr (
        omega arith,
        rw (wide, at_cap) (omega (arith, mod-eq_of_lt {n = total} {m = cap} (omega arith))),
      )
    ]

pub newest_index-lt :
    {cap : ℕ} {b : RingBuffer} (i : ℕ) → IsValid cap b → i < cap → newest_index b i < cap
newest_index-lt i v h = omega (arith, newest_index-cases i v h, v.head_in)

-- The view depends on the slot's bytes alone.
pub newest-cong :
    {cap : ℕ} (m m' : Memory) (b : RingBuffer) (i n : ℕ)
    → IsValid cap b
    → i + n ≤ cap
    → ((x : ℕ) → b.data_ptr ≤ x → x < b.data_ptr + 17 * cap → m x ≡ m' x)
    → newest m b i n ≡ newest m' b i n
unfolding newest load
newest-cong m m' b i zero v h same = refl
newest-cong m m' b i (suc n) v h same =
    let bound : newest_index b i < _ = newest_index-lt i v (omega arith) in
    ap₂ (λ r rest. of_bytes r ∷ rest)
      (read-cong m m' _ 17 (λ x p q. same x (omega arith) (omega arith)))
      (newest-cong m m' b (i + 1) n v (omega arith) same)
