-- ===== src/Store.antt =====
-- src/store.rs: the ring buffers of all users, with the memory that their slots lie in.
pub mod Separate
pub mod Parts
pub mod Spec
pub mod View
pub mod Open
pub mod Fresh
pub mod Plain
pub mod Push
pub mod Erase
pub mod Create
pub mod Full
use lloogg.Prelude.{
  ℕ, ◌+◌, ◌≤◌, ◌<◌, ◌≡◌, Option, none, some, List, [], ◌∷◌, map, if◌then◌else◌, ◌>>=◌, length, ◌==◌,
  Bool,
}
use lloogg.Memory.{Memory}
use lloogg.Record.{Record}
use lloogg.Ring
use lloogg.Ring.{RingBuffer}
use lloogg.HashMap.{HashMap, lookup, insert, remove}
use lloogg.StoreAlloc
use lloogg.StoreAlloc.{StoreAlloc, alloc, free}

-- `mem` is the memory that the raw pointers of the store reach.
pub record Store : Type 0 where
  pub mem : Memory
  pub alloc_state : StoreAlloc
  pub map_of : HashMap RingBuffer
  pub capacity : ℕ

-- `compiled_n` is COMPILED_N, which the build writes. `none` is a failed assertion.
unfoldable pub with_pool_slots : Memory → Option ℕ → ℕ → ℕ → Option Store
unfolding StoreAlloc.new
with_pool_slots m allocated compiled_n pool_slots = do
  (m', a) ← StoreAlloc.new m allocated compiled_n pool_slots
  some (record { mem = m'; alloc_state = a; map_of = []; capacity = compiled_n })

-- The pointer that `get_or_create` returns is the entry of `uid`, returned here by value: a caller
-- that writes through it writes the entry back by `insert`.
unfoldable pub get_or_create : Store → ℕ → Option (Store × RingBuffer)
get_or_create s uid = elim (lookup uid s.map_of) [
  | some b ↦ some (s, b)
  | none ↦ do
    (ptr, a) ← alloc s.mem s.alloc_state
    let b : RingBuffer = record {
      data_ptr = ptr;
      capacity = s.capacity;
      head = 0;
      count = 0;
      last_write_ts = 0;
    }
    some (record s { alloc_state = a; map_of = insert uid b s.map_of }, b)
]

-- `(*buf).push(r, ts)` on the entry of `uid`.
unfoldable pub push_entry : Store × RingBuffer → ℕ → Record → ℕ → Store
push_entry (s, b) uid r ts =
    let (m, b') = Ring.push s.mem b r ts in record s { mem = m; map_of = insert uid b' s.map_of }

-- `let buf = store.get_or_create(uid); (*buf).push(r, ts);` as PUSH and the replay do.
unfoldable pub push_record : Store → ℕ → Record → ℕ → Option Store
unfolding get_or_create push_entry
push_record s uid r ts = do found ← get_or_create s uid; some (push_entry found uid r ts)

unfoldable pub get : Store → ℕ → Option RingBuffer
get s uid = lookup uid s.map_of

unfoldable pub erase : Store → ℕ → Store
erase s uid = elim (lookup uid s.map_of) [
  | none ↦ s
  | some b ↦
      let (m, a) = free s.mem s.alloc_state b.data_ptr in
      record s { mem = m; alloc_state = a; map_of = remove uid s.map_of }
]

abbrev pub len : Store → ℕ
len s = length s.map_of

abbrev pub is_empty : Store → Bool
is_empty s = len s == 0
