-- ===== src/Ring/Push.antt =====
-- `RingBuffer::push` and the abstract view.
use lloogg.Prelude.{
  ℕ, zero, suc, ◌+◌, ◌-◌, ◌*◌, ◌≤◌, ◌<◌, ◌≡◌, ◌≢◌, refl, sym, ap, ap₂, ◌∙◌, ◌⊎◌, ◌∷◌, arith, min,
  take,
}
use lloogg.Memory.{Memory, read-write_self, read-write_apart, write_outside}
use lloogg.Record.{Record, IsTyped, to_bytes, of_bytes, of_bytes-to_bytes, length-to_bytes}
use lloogg.Ring.{RingBuffer, IsValid, newest_index, load, store, push}
use lloogg.Ring.Newest.{newest, contents, newest_index-cases, take-newest}

load-store_self :
    (m : Memory) (b : RingBuffer) (i : ℕ) (r : Record) → IsTyped r → load (store m b i r) b i ≡ r
unfolding load store to_bytes
load-store_self m b i r t =
    ap of_bytes (read-write_self m (b.data_ptr + 17 * i) (to_bytes r)) ∙ of_bytes-to_bytes r t

load-store_ne :
    (m : Memory) (b : RingBuffer) (i j : ℕ) (r : Record)
    → i ≢ j
    → load (store m b i r) b j ≡ load m b j
unfolding load store
load-store_ne m b i j r h = ap of_bytes (
    read-write_apart m (b.data_ptr + 17 * i) (to_bytes r) (b.data_ptr + 17 * j) 17
      (omega (arith, length-to_bytes r)))

-- A push writes inside the slot only.
pub push_outside :
    {cap : ℕ} (m : Memory) (b : RingBuffer) (r : Record) (ts x : ℕ)
    → IsValid cap b
    → (x < b.data_ptr) ⊎ (b.data_ptr + 17 * cap ≤ x)
    → (push m b r ts).0 x ≡ m x
unfolding push
push_outside m b r ts x v h =
    write_outside m (b.data_ptr + 17 * b.head) (to_bytes r) x
      (omega (arith, length-to_bytes r, v.head_in))

module _ {cap : ℕ} (m : Memory) {b : RingBuffer} (r : Record) (ts : ℕ) (v : IsValid cap b) where
  head-push :
      (b.head + 1 < cap × ((push m b r ts).1.head ≡ b.head + 1))
      ⊎ (b.head + 1 ≡ cap × ((push m b r ts).1.head ≡ 0))
  unfolding push
  head-push = grind (arith, v.capacity, v.positive, v.small, v.head_in)

  count-push : (push m b r ts).1.count ≡ suc (min (cap - 1) b.count)
  unfolding push
  count-push = ground (arith, v.capacity, v.positive, v.small, v.count_in)

  -- A push keeps the buffer valid.
  pub push-IsValid : IsValid cap (push m b r ts).1
  unfolding push
  push-IsValid = ground (arith, v.capacity, v.positive, v.small, v.head_in, v.count_in)

  newest_index-push_zero : newest_index (push m b r ts).1 0 ≡ b.head
  newest_index-push_zero =
      omega (arith, head-push, newest_index-cases 0 push-IsValid v.positive, v.head_in, v.positive)

  newest_index-push_suc :
      (i : ℕ) → i + 1 < cap → newest_index (push m b r ts).1 (i + 1) ≡ newest_index b i
  newest_index-push_suc i h = omega (
    arith,
    head-push,
    newest_index-cases (i + 1) push-IsValid h,
    newest_index-cases i v (omega arith),
    v.head_in,
    v.positive,
  )

  newest_index-ne-head : (i : ℕ) → i + 1 < cap → b.head ≢ newest_index b i
  newest_index-ne-head i h = omega (arith, newest_index-cases i v (omega arith), v.head_in)

  load-push_newest : IsTyped r → load (push m b r ts).0 (push m b r ts).1 b.head ≡ r
  unfolding push load
  load-push_newest t = load-store_self m b b.head r t

  load-push_older :
      (i : ℕ)
      → i + 1 < cap
      → load (push m b r ts).0 (push m b r ts).1 (newest_index b i) ≡ load m b (newest_index b i)
  unfolding push load
  load-push_older i h = load-store_ne m b b.head (newest_index b i) r (newest_index-ne-head i h)

  newest-push :
      (i n : ℕ)
      → i + n < cap
      → newest (push m b r ts).0 (push m b r ts).1 (i + 1) n ≡ newest m b i n
  unfolding newest
  newest-push i zero h = refl
  newest-push i (suc n) h =
      ap₂ ◌∷◌
        (ap (load (push m b r ts).0 (push m b r ts).1) (newest_index-push_suc i (omega arith))
          ∙ load-push_older i (omega arith))
        (newest-push (i + 1) n (omega arith))

  -- After a push of a record that fits its types, on a valid buffer, the view is the new record
  -- before the old view, cut to the capacity.
  pub push_refines :
      IsTyped r → contents (push m b r ts).0 (push m b r ts).1 ≡ take cap (r ∷ contents m b)
  unfolding newest
  push_refines t =
      let room : cap ≡ suc (cap - 1) = omega (arith, v.positive) in
      rw (count-push, newest_index-push_zero, load-push_newest t)
        (ap (λ rest. r ∷ rest)
            (newest-push 0 (min (cap - 1) b.count) (omega (arith, v.positive))
              ∙ sym (take-newest m b 0 (cap - 1) b.count))
          ∙ ap (λ k. take k (r ∷ contents m b)) (sym room))

  pub last_write_ts-push : (push m b r ts).1.last_write_ts ≡ ts
  unfolding push
  last_write_ts-push = refl

  pub data_ptr-push : (push m b r ts).1.data_ptr ≡ b.data_ptr
  unfolding push
  data_ptr-push = refl
