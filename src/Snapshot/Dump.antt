-- ===== src/Snapshot/Dump.antt =====
-- The records in a snapshot and the view of the buffer that they are from.
use native.Mathlib.Nat.{mod-eq_of_lt, mod-eq-sub-mod}
use lloogg.Prelude.{
  ℕ, zero, suc, ◌+◌, ◌-◌, ◌%◌, ◌^◌, ◌≤◌, ◌<◌, ◌≡◌, refl, sym, ap, ap₂, ◌∙◌, inl, inr, ◌⊎◌,
  Bool-cases, leb, leb→le, leb→gt, List, [], ◌∷◌, ◌++◌, arith,
}
use lloogg.Memory.{Memory}
use lloogg.Record.{Record, to_bytes}
use lloogg.Ring.{RingBuffer, IsValid, load, newest_index}
use lloogg.Ring.Newest.{contents, newest, newest_index-cases}
use lloogg.Commands.{records_bytes}
use lloogg.Snapshot.{oldest_index, dump_records}

-- The index without the remainder, as for the newest one.
oldest_index-cases :
    {cap : ℕ} (b : RingBuffer)
    → IsValid cap b
    → (b.count ≤ b.head × (oldest_index b + b.count ≡ b.head))
      ⊎ (b.head < b.count × (oldest_index b + b.count ≡ b.head + cap))
unfolding oldest_index
oldest_index-cases {cap} b v =
    let wide : (b.head + b.capacity + (2 ^ 64 - b.count)) % 2 ^ 64 ≡ b.head + cap - b.count =
      omega arith in
    let at_cap : b.capacity ≡ cap = v.capacity in
    let total : ℕ = b.head + cap - b.count in
    elim (Bool-cases (leb b.count b.head)) [
      | inl p ↦
          let le : b.count ≤ b.head = leb→le b.count b.head p in
          inl (
            le,
            rw (wide, at_cap)
                (omega (
                  arith,
                  mod-eq-sub-mod {n = total} {m = cap} (omega arith),
                  mod-eq_of_lt {n = total - cap} {m = cap} (omega arith),
                )),
          )
      | inr p ↦
          let lt : b.head < b.count = leb→gt b.count b.head p in
          inr (
            lt,
            rw (wide, at_cap) (omega (arith, mod-eq_of_lt {n = total} {m = cap} (omega arith))),
          )
    ]

-- The `i`-th record of the dump is the one that is `count - 1 - i` from the newest.
dump_index :
    {cap : ℕ} (b : RingBuffer) (n : ℕ)
    → IsValid cap b
    → n < b.count
    → (oldest_index b + (b.count - suc n)) % b.capacity ≡ newest_index b n
dump_index {cap} b n v h =
    let at_cap : b.capacity ≡ cap = v.capacity in
    let at : ℕ = oldest_index b + (b.count - suc n) in
    ap (λ (c : ℕ). at % c) at_cap ∙ elim (Bool-cases (leb cap at)) [
      | inl over ↦ omega (
        arith,
        oldest_index-cases b v,
        newest_index-cases n v (omega arith),
        leb→le cap at over,
        mod-eq-sub-mod {n = at} {m = cap} (leb→le cap at over),
        mod-eq_of_lt {n = at - cap} {m = cap} (omega (arith, oldest_index-cases b v)),
      )
      | inr under ↦ omega (
        arith,
        oldest_index-cases b v,
        newest_index-cases n v (omega arith),
        leb→gt cap at under,
        mod-eq_of_lt {n = at} {m = cap} (leb→gt cap at under),
      )
    ]

abbrev pub reverse : List Record → List Record
reverse [] = []
reverse (r ∷ rs) = reverse rs ++ r ∷ []

reverse-snoc : (rs : List Record) (r : Record) → reverse (rs ++ r ∷ []) ≡ r ∷ reverse rs
reverse-snoc [] r = refl
reverse-snoc (x ∷ rs) r = ap (λ t. t ++ x ∷ []) (reverse-snoc rs r)

newest-snoc :
    (m : Memory) (b : RingBuffer) (i n : ℕ)
    → newest m b i (suc n) ≡ newest m b i n ++ load m b (newest_index b (i + n)) ∷ []
unfolding newest
newest-snoc m b i zero = let e : i + 0 ≡ i = omega arith in rw e
newest-snoc m b i (suc n) =
    let e : i + 1 + n ≡ i + suc n = omega arith in
    ap (λ t. load m b (newest_index b i) ∷ t) (newest-snoc m b (i + 1) n ∙ rw e)

dump_records-tail :
    {cap : ℕ} (m : Memory) (b : RingBuffer) (n : ℕ)
    → IsValid cap b
    → n ≤ b.count
    → dump_records m b (b.count - n) n ≡ records_bytes (reverse (newest m b 0 n))
unfolding dump_records newest
dump_records-tail m b zero v h = refl
dump_records-tail m b (suc n) v h =
    let next : b.count - suc n + 1 ≡ b.count - n = omega (arith, h) in
    let from_head : 0 + n ≡ n = omega arith in
    ap₂ (λ j rest. to_bytes (load m b j) ++ rest) (dump_index b n v h)
      (ap (λ i. dump_records m b i n) next ∙ dump_records-tail m b n v (omega (arith, h)))
    ∙ sym (
        ap (λ rs. records_bytes (reverse rs)) (newest-snoc m b 0 n)
        ∙ ap records_bytes (reverse-snoc (newest m b 0 n) (load m b (newest_index b (0 + n))))
        ∙ ap (λ j. records_bytes (load m b (newest_index b j) ∷ reverse (newest m b 0 n)))
            from_head)

-- The records that a snapshot holds for a valid buffer are exactly those of its view, in reverse: the
-- oldest record first.
pub dump_records_lem :
    {cap : ℕ} (m : Memory) (b : RingBuffer)
    → IsValid cap b
    → dump_records m b 0 b.count ≡ records_bytes (reverse (contents m b))
dump_records_lem m b v =
    let e : b.count - b.count ≡ 0 = omega arith in
    rw e at (dump_records-tail m b b.count v (omega arith))
