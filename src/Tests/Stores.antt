-- ===== src/Tests/Stores.antt =====
-- A store of two slots of two records each, and its buffers.
use lloogg.Prelude.{ℕ, ◌+◌, ◌*◌, ◌^◌, ◌≤◌, ◌≡◌, refl, inl, some, [], ◌∷◌, arith, take}
use lloogg.Memory.{Memory}
use lloogg.Record.{Record, IsTyped}
use lloogg.Ring
use lloogg.Ring.{RingBuffer, get_last}
use lloogg.Ring.Newest.{contents}
use lloogg.Ring.Push.{push_refines}
use lloogg.StoreAlloc.{slot_size, slab}
use lloogg.MemoryPool.{link_slots}
use lloogg.MemoryPool.Chain.{link_slots-IsChain}
use lloogg.Store.{Store, with_pool_slots, push_record, erase}
use lloogg.Store.Spec.{no_logs}
use lloogg.Store.Open.{IsCapacity}
use lloogg.Store.Push.{Pushed, push_record_lem}
use lloogg.Store.Erase.{Erased, erase_lem}
use lloogg.Store.Create.{with_pool_slots_lem}
use lloogg.Store.View.{IsValid, view}

abbrev pub zeroed : Memory
zeroed x = 0

abbrev pub visit : Record
visit = record { event_type = 1; timestamp = 1000; url_hash = 2000 }

pub visit-IsTyped : IsTyped visit
visit-IsTyped = omega arith

-- The slots of 40 bytes at 4096.
pub slot_size_two : slot_size 2 ≡ 40
unfolding slot_size
slot_size_two = refl

pub room_for_two : 4096 + 2 * slot_size 2 ≤ 2 ^ 64
room_for_two = rw slot_size_two (omega arith)

with_pool_slots_example :
    (s : Store) × (with_pool_slots zeroed (some 4096) 2 2 ≡ some s)
    × IsValid 2 s
    × (s.capacity ≡ 2)
    × ((u : ℕ) → view s u ≡ no_logs u)
with_pool_slots_example =
    with_pool_slots_lem zeroed 4096 2 2 (omega arith) (omega arith) room_for_two

-- A buffer that is full: the next push overwrites its oldest record.
abbrev full : RingBuffer
full = record { data_ptr = 4096; capacity = 2; head = 1; count = 2; last_write_ts = 5 }

full-IsValid : Ring.IsValid 2 full
full-IsValid = omega arith

push_refines_example :
    contents (Ring.push zeroed full visit 9).0 (Ring.push zeroed full visit 9).1
    ≡ take 2 (visit ∷ contents zeroed full)
push_refines_example = push_refines zeroed visit 9 full-IsValid visit-IsTyped

-- The store that `with_pool_slots` makes of two slots.
abbrev pub two_slots : Store
two_slots = record {
  mem = link_slots zeroed 4096 40 2 0 2;
  alloc_state = slab 4096 80 4096;
  map_of = [];
  capacity = 2;
}

pub two_slots-IsValid : IsValid 2 two_slots
unfolding slot_size
two_slots-IsValid = record {
  free = 4096 ∷ 4136 ∷ [];
  parts = record {
    chain = link_slots-IsChain zeroed 4096 40 2 0 2 (omega arith) (omega arith) (omega arith) refl;
    separate = omega arith;
    placed = tt;
    keys = tt;
    counted = refl;
  };
}

pub two-IsCapacity : IsCapacity 2
two-IsCapacity = omega arith

push_record_example :
    (s' : Store) × (push_record two_slots 7 visit 9 ≡ some s') × Pushed 2 two_slots 7 visit 9 s'
push_record_example =
    push_record_lem 7 visit 9 visit-IsTyped two-IsCapacity two_slots-IsValid (inl (omega arith))

erase_example : Erased 2 two_slots 7 (erase two_slots 7)
erase_example = erase_lem 7 two_slots-IsValid
