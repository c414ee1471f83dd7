-- ===== src/MemoryPool.antt =====
-- src/memory_pool.rs: slots of equal size with a free list threaded through the free ones.
pub mod Chain
use lloogg.Prelude.{
  ℕ, zero, suc, ◌+◌, ◌*◌, ◌≤◌, ◌<◌, Option, none, some, List, [], ◌∷◌, to_le, from_le, ltb, ◌==◌,
  if◌then◌else◌, ◌>>=◌,
}
use lloogg.Memory.{Memory, read, write}

abbrev pub null : ℕ
null = 0

abbrev pub ptr_size : ℕ
ptr_size = 8

-- `*(p as *mut *mut u8)`
unfoldable pub load_ptr : Memory → ℕ → ℕ
load_ptr m p = from_le (read m p ptr_size)

-- `*(p as *mut *mut u8) = q`
unfoldable pub store_ptr : Memory → ℕ → ℕ → Memory
store_ptr m p q = write m p (to_le ptr_size q)

pub record MemoryPool : Type 0 where
  pub base : ℕ
  pub slot_size : ℕ
  pub total_slots : ℕ
  pub free_list : ℕ

-- The loop that builds the free list, from round `i` on. `Store` builds its slab by the same loop.
unfoldable pub link_slots : Memory → ℕ → ℕ → ℕ → ℕ → ℕ → Memory
link_slots m base slot_size total_slots i zero = m
link_slots m base slot_size total_slots i (suc rounds) =
    let next = if ltb (i + 1) total_slots then base + (i + 1) * slot_size else null in
    link_slots (store_ptr m (base + i * slot_size) next) base slot_size total_slots (i + 1) rounds

-- `mapped` is what `mmap` returned, `none` for MAP_FAILED. A failed assertion is `none`.
unfoldable pub new : Memory → Option ℕ → ℕ → ℕ → Option (Memory × MemoryPool)
new m mapped total_slots slot_size =
    if ltb slot_size ptr_size then none else if total_slots == 0 then none else do
      base ← mapped
      some (
        link_slots m base slot_size total_slots 0 total_slots,
        record { base = base; slot_size = slot_size; total_slots = total_slots; free_list = base },
      )

-- `none` is the panic of an exhausted pool.
unfoldable pub alloc_slot : Memory → MemoryPool → Option (ℕ × MemoryPool)
alloc_slot m pool =
    if pool.free_list == null
    then none
    else some (pool.free_list, record pool { free_list = load_ptr m pool.free_list })

unfoldable pub free_slot : Memory → MemoryPool → ℕ → Memory × MemoryPool
free_slot m pool ptr = (store_ptr m ptr pool.free_list, record pool { free_list = ptr })
