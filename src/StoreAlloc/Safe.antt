-- ===== src/StoreAlloc/Safe.antt =====
-- What the store relies on: `alloc` and `free` on the chain of free slots.
use lloogg.Prelude.{
  ℕ, ◌+◌, ◌*◌, ◌^◌, ◌≤◌, ◌<◌, ◌≡◌, refl, none, some, List, [], ◌∷◌, arith, ◌==◌, leb, if◌then◌else◌,
  Bool-cases, inl, inr,
}
use lloogg.Memory.{Memory}
use lloogg.MemoryPool.{null, load_ptr, store_ptr, link_slots}
use lloogg.MemoryPool.Chain.{IsChain, slots_from, link_slots-IsChain}
use lloogg.StoreAlloc.{StoreAlloc, slab, pool, slot_size, new, alloc, free, start}

-- A slot holds the records of a buffer, and a pointer while it is free.
pub slot_size_bounds : (cap : ℕ) → (17 * cap ≤ slot_size cap) × (8 ≤ slot_size cap)
unfolding slot_size
slot_size_bounds cap = omega arith

-- With a free slot `alloc` returns the first one, and the rest stays free.
pub alloc-cons :
    (m : Memory) (a : StoreAlloc) (p : ℕ) (rest : List ℕ)
    → IsChain m (start a) (p ∷ rest)
    → (a' : StoreAlloc) × (alloc m a ≡ some (p, a')) × IsChain m (start a') rest
unfolding alloc
alloc-cons m (slab base size f) p rest c = (slab base size (load_ptr m f), ground arith, rw c.0 c.3)
alloc-cons m (pool q) p rest c =
    (pool (record q { free_list = load_ptr m q.free_list }), ground arith, rw c.0 c.3)

-- Without a free slot `alloc` panics.
pub alloc-nil : (m : Memory) (a : StoreAlloc) → IsChain m (start a) [] → alloc m a ≡ none
unfolding alloc
alloc-nil m (slab base size f) c = ground arith
alloc-nil m (pool q) c = ground arith

pub free-mem : (m : Memory) (a : StoreAlloc) (p : ℕ) → (free m a p).0 ≡ store_ptr m p (start a)
unfolding free
free-mem m (slab base size f) p = refl
free-mem m (pool q) p = refl

pub start-free : (m : Memory) (a : StoreAlloc) (p : ℕ) → start (free m a p).1 ≡ p
unfolding free
start-free m (slab base size f) p = refl
start-free m (pool q) p = refl

-- A new allocator of at least one slot has every slot of the block free, and no two overlap.
pub new-IsChain :
    (m : Memory) (cap total base : ℕ)
    → 0 < total
    → 0 < base
    → base + total * slot_size cap ≤ 2 ^ 64
    → (m' : Memory) × (a : StoreAlloc) × (new m (some base) cap total ≡ some (m', a))
      × IsChain m' (start a) (slots_from base (slot_size cap) 0 total)
unfolding new
new-IsChain m cap total base t p h =
    let size : ℕ = slot_size cap in
    let big : 8 ≤ size = (slot_size_bounds cap).1 in
    let head : (if total == 0 then null else base + 0 * size) ≡ base = ground arith in
    let linked : IsChain (link_slots m base size total 0 total) base
        (slots_from base size 0 total) =
      rw head at (link_slots-IsChain m base size total 0 total big p h (omega arith)) in
    elim (Bool-cases (leb cap 200)) [
      | inl small ↦
          (link_slots m base size total 0 total, slab base (total * size) base, rw small, linked)
      | inr large ↦ (
        link_slots m base size total 0 total,
        pool (record { base = base; slot_size = size; total_slots = total; free_list = base }),
        rw large (ground arith),
        linked,
      )
    ]
