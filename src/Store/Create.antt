-- ===== src/Store/Create.antt =====
-- `Store::with_pool_slots` of src/store.rs.
use lloogg.Prelude.{ℕ, ◌+◌, ◌*◌, ◌^◌, ◌≤◌, ◌<◌, ◌≡◌, refl, some, [], arith, append-nil}
use lloogg.Memory.{Memory}
use lloogg.HashMap.{lookup}
use lloogg.MemoryPool.Chain.{slots_from, slots_from-AreSeparate, length-slots_from}
use lloogg.StoreAlloc.{slot_size}
use lloogg.StoreAlloc.Safe.{new-IsChain}
use lloogg.Store.{Store, with_pool_slots}
use lloogg.Store.Spec.{no_logs}
use lloogg.Store.View.{IsValid, view}

-- At a block of memory that the allocator returned, not null and inside the 64-bit address space, a
-- store of at least one slot is built; it is valid, has the capacity of the build, and holds no log.
pub with_pool_slots_lem :
    (m : Memory) (base cap slots : ℕ)
    → 0 < slots
    → 0 < base
    → base + slots * slot_size cap ≤ 2 ^ 64
    → (s : Store) × (with_pool_slots m (some base) cap slots ≡ some s)
      × IsValid slots s
      × (s.capacity ≡ cap)
      × ((u : ℕ) → view s u ≡ no_logs u)
unfolding with_pool_slots lookup
with_pool_slots_lem m base cap slots t p h =
    let (m', a, made, chain) = new-IsChain m cap slots base t p h in
    (
      record { mem = m'; alloc_state = a; map_of = []; capacity = cap },
      rw made,
      record {
        free = slots_from base (slot_size cap) 0 slots;
        parts = record {
          chain = chain;
          separate = rw append-nil (slots_from-AreSeparate base (slot_size cap) 0 slots);
          placed = tt;
          keys = tt;
          counted = omega (arith, length-slots_from base (slot_size cap) 0 slots);
        };
      },
      refl,
      λ u. refl,
    )
