-- ===== src/StoreAlloc.antt =====
-- The `StoreAlloc` of src/store.rs: a slab of its own for small buffers, a `MemoryPool` for large
-- ones.
pub mod Safe
use lloogg.Prelude.{ℕ, ◌+◌, ◌-◌, ◌*◌, ◌/◌, max, Option, none, some, leb, ◌==◌, if◌then◌else◌, ◌>>=◌}
use lloogg.Memory.{Memory}
use lloogg.Record.{record_size}
use lloogg.MemoryPool
use lloogg.MemoryPool.{
  MemoryPool, null, ptr_size, load_ptr, store_ptr, link_slots, alloc_slot, free_slot,
}

-- `layout_size` is `layout.size()`; the alignment plays no part in the model.
pub data StoreAlloc : Type 0 where
  slab : (base layout_size free_list : ℕ) → StoreAlloc
  pool : MemoryPool → StoreAlloc

unfoldable pub slot_size : ℕ → ℕ
slot_size capacity =
    let record_bytes = capacity * record_size in
    (max record_bytes ptr_size + (ptr_size - 1)) / ptr_size * ptr_size

-- `allocated` is what `alloc` or `mmap` returned, `none` for a failure. A failed assertion is `none`.
unfoldable pub new : Memory → Option ℕ → ℕ → ℕ → Option (Memory × StoreAlloc)
unfolding MemoryPool.new
new m allocated capacity total =
    if leb capacity 200
    then (do
      base ← allocated
      some (
        link_slots m base (slot_size capacity) total 0 total,
        slab base (total * slot_size capacity) base,
      ))
    else do (m', p) ← MemoryPool.new m allocated total (slot_size capacity); some (m', pool p)

-- `none` is the panic of an exhausted allocator.
unfoldable pub alloc : Memory → StoreAlloc → Option (ℕ × StoreAlloc)
unfolding alloc_slot
alloc m (slab base size free_list) =
    if free_list == null then none else some (free_list, slab base size (load_ptr m free_list))
alloc m (pool p) = do (ptr, p') ← alloc_slot m p; some (ptr, pool p')

unfoldable pub free : Memory → StoreAlloc → ℕ → Memory × StoreAlloc
unfolding free_slot
free m (slab base size free_list) ptr = (store_ptr m ptr free_list, slab base size ptr)
free m (pool p) ptr = let (m', p') = free_slot m p ptr in (m', pool p')

-- The head of the free list, whichever the allocator.
abbrev pub start : StoreAlloc → ℕ
start (slab base size free_list) = free_list
start (pool p) = p.free_list
