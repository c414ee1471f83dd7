-- ===== src/Ring.antt =====
-- src/ring_buffer.rs: the ring buffer of one user. `data` is the address of its slot in the memory.
pub mod Newest
pub mod Push
pub mod GetLast
use lloogg.Prelude.{
  ℕ, zero, suc, ◌+◌, ◌-◌, ◌*◌, ◌%◌, ◌^◌, ◌≤◌, ◌<◌, ◌≡◌, min, List, [], ◌∷◌, ltb, if◌then◌else◌, set,
}
use lloogg.Memory.{Memory, read, write}
use lloogg.Record.{Record, record_size, to_bytes, of_bytes}

pub record RingBuffer : Type 0 where
  pub data_ptr : ℕ
  pub capacity : ℕ
  pub head : ℕ
  pub count : ℕ
  pub last_write_ts : ℕ

-- `data.add(i)`
abbrev pub slot_addr : RingBuffer → ℕ → ℕ
slot_addr b i = b.data_ptr + record_size * i

-- `*data.add(i)`
unfoldable pub load : Memory → RingBuffer → ℕ → Record
load m b i = of_bytes (read m (slot_addr b i) record_size)

-- `*data.add(i) = r`
unfoldable pub store : Memory → RingBuffer → ℕ → Record → Memory
store m b i r = write m (slot_addr b i) (to_bytes r)

-- `head` and `count` are `u16`.
unfoldable pub push : Memory → RingBuffer → Record → ℕ → Memory × RingBuffer
unfolding store
push m b r write_ts = (
  store m b b.head r,
  record b {
    head = (b.head + 1) % 2 ^ 16 % b.capacity;
    count = if ltb b.count b.capacity then (b.count + 1) % 2 ^ 16 else b.count;
    last_write_ts = write_ts;
  },
)

-- `(head + capacity - 1 - i) % capacity` in `usize`
unfoldable pub newest_index : RingBuffer → ℕ → ℕ
newest_index b i = (b.head + b.capacity + (2 ^ 64 - 1) + (2 ^ 64 - i)) % 2 ^ 64 % b.capacity

-- The rounds of the loop from `i` on: `out[i] = *data.add(idx)`.
unfoldable pub fill : Memory → RingBuffer → ℕ → ℕ → List Record → List Record
unfolding newest_index load
fill m b i zero out = out
fill m b i (suc rounds) out = fill m b (i + 1) rounds (set out i (load m b (newest_index b i)))

unfoldable pub get_last : Memory → RingBuffer → ℕ → List Record → ℕ × List Record
unfolding fill
get_last m b n out = let actual = min n b.count in (actual, fill m b 0 actual out)

-- The invariant of a buffer whose slot holds `cap` records.
pub record IsValid (cap : ℕ) (b : RingBuffer) : Type 0 where
  pub capacity : b.capacity ≡ cap
  pub positive : 0 < cap
  pub small : cap < 2 ^ 16
  pub head_in : b.head < cap
  pub count_in : b.count ≤ cap
