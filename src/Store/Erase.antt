-- ===== src/Store/Erase.antt =====
-- `Store::erase` of src/store.rs, on the parts and on the view.
use mathlib.Core.Path.{fun_ext}
use lloogg.Prelude.{
  ℕ, ◌+◌, ◌-◌, ◌^◌, ◌≤◌, ◌<◌, ◌≡◌, refl, ap, ◌∙◌, inl, inr, none, some, List, [], ◌∷◌, arith, ◌==◌,
  Bool-cases, Option-cases,
}
use lloogg.Memory.{Memory}
use lloogg.Ring.{RingBuffer}
use lloogg.HashMap.{HashMap, lookup, remove, lookup-remove, length-remove-le, lookup-remove_ne}
use lloogg.MemoryPool.{store_ptr}
use lloogg.MemoryPool.Chain.{IsChain, IsApart, load_ptr-store_ptr, store_ptr_outside}
use lloogg.StoreAlloc.{slot_size, start, free}
use lloogg.StoreAlloc.Safe.{slot_size_bounds, free-mem, start-free}
use lloogg.Store.{Store, erase, len}
use lloogg.Store.Spec.{Logs, erase_log}
use lloogg.Store.Parts.{Parts, ptrs, Parts-remove, Parts-free, Parts-SameOutside}
use lloogg.Store.Separate.{All-append-right}
use lloogg.Store.View.{IsValid, HasLogs, view, view_of, view_of-SameOutside}

-- What one erase does to a store.
pub record Erased (slots : ℕ) (s : Store) (uid : ℕ) (s' : Store) : Type 0 where
  pub valid : IsValid slots s'
  pub capacity : s'.capacity ≡ s.capacity
  pub logs : (u : ℕ) → view s' u ≡ erase_log uid (view s) u
  pub len_le : len s' ≤ len s

erase-absent : (s : Store) (uid : ℕ) → lookup uid s.map_of ≡ none → erase s uid ≡ s
unfolding erase
erase-absent s uid absent = ground arith

abbrev erased : Store → ℕ → RingBuffer → Store
erased s uid b = record s {
  mem = (free s.mem s.alloc_state b.data_ptr).0;
  alloc_state = (free s.mem s.alloc_state b.data_ptr).1;
  map_of = remove uid s.map_of;
}

erase-found :
    (s : Store) (uid : ℕ) (b : RingBuffer)
    → lookup uid s.map_of ≡ some b
    → erase s uid ≡ erased s uid b
unfolding erase
erase-found s uid b found = ground arith

absent_log :
    (s : Store) (uid u : ℕ) → lookup uid s.map_of ≡ none → view s u ≡ erase_log uid (view s) u
absent_log s uid u absent = elim (Bool-cases (uid == u)) [
  | inl same ↦ let e : uid ≡ u = ground arith in rw (same, ← e, absent)
  | inr other ↦ rw other
]

chain_start_small :
    (m : Memory) {first : ℕ} (slots : List ℕ) → IsChain m first slots → first < 2 ^ 64
chain_start_small m [] c = omega arith
chain_start_small m (p ∷ rest) c = omega (arith, c.0, c.2)

module _ {slots : ℕ} {s : Store} (uid : ℕ) (b : RingBuffer) (v : IsValid slots s)
    (found : lookup uid s.map_of ≡ some b) where
  start_small : start s.alloc_state < 2 ^ 64
  start_small = chain_start_small s.mem v.free v.parts.chain

  erased-IsValid : IsValid slots (erased s uid b)
  erased-IsValid =
      let (parts, apart, placed, positive) = Parts-remove uid b v.parts found in
      let p : ℕ = b.data_ptr in
      let m' : Memory = store_ptr s.mem p (start s.alloc_state) in
      let count : slots - 1 + 1 ≡ slots = omega (arith, positive) in
      let whole : Parts s.capacity slots m' p (p ∷ v.free) (remove uid s.map_of) = rw count at (
        Parts-free p
          (Parts-SameOutside m' p parts apart (
            store_ptr_outside s.mem (slot_size s.capacity) p (start s.alloc_state)
              (slot_size_bounds s.capacity).1))
          apart (load_ptr-store_ptr s.mem p (start s.alloc_state) start_small) placed.not_null
          placed.in_range) in
      record {
        free = p ∷ v.free;
        parts = rw (free-mem s.mem s.alloc_state p, start-free s.mem s.alloc_state p) whole;
      }

  erased_log : (u : ℕ) → view (erased s uid b) u ≡ erase_log uid (view s) u
  erased_log u = elim (Bool-cases (uid == u)) [
    | inl same ↦ rw (lookup-remove, same)
    | inr other ↦
        let (parts, apart, placed, positive) = Parts-remove uid b v.parts found in
        let p : ℕ = b.data_ptr in
        let m' : Memory = store_ptr s.mem p (start s.alloc_state) in
        let rest : HashMap RingBuffer = remove uid s.map_of in
        rw (other, free-mem s.mem s.alloc_state p)
          (view_of-SameOutside s.capacity s.mem m' p u rest parts.placed
              (All-append-right (IsApart (slot_size s.capacity) p) v.free (ptrs rest) apart)
              (store_ptr_outside s.mem (slot_size s.capacity) p (start s.alloc_state)
                (slot_size_bounds s.capacity).1)
            ∙ ap (view_of s.mem) (lookup-remove_ne uid u s.map_of other))
  ]

-- An erase keeps the invariant and the capacity, adds no user, removes the user's log, if there is
-- one, and changes no other log.
pub erase_lem :
    {slots : ℕ} {s : Store} (uid : ℕ) → IsValid slots s → Erased slots s uid (erase s uid)
erase_lem {slots} {s} uid v = elim (Option-cases (lookup uid s.map_of)) [
  | inl absent ↦ rw (erase-absent s uid absent) (record {
    valid = v;
    capacity = refl;
    logs = λ u. absent_log s uid u absent;
    len_le = omega arith;
  })
  | inr (b, found) ↦ rw (erase-found s uid b found) (record {
    valid = erased-IsValid uid b v found;
    capacity = refl;
    logs = erased_log uid b v found;
    len_le = length-remove-le uid s.map_of;
  })
]

pub Erased-HasLogs :
    {slots cap : ℕ} {logs : Logs} {s s' : Store} (uid : ℕ)
    → HasLogs slots cap logs s
    → Erased slots s uid s'
    → HasLogs slots cap (erase_log uid logs) s'
Erased-HasLogs uid h e = record {
  valid = e.valid;
  capacity = e.capacity ∙ h.capacity;
  logs_eq = fun_ext e.logs ∙ ap (erase_log uid) h.logs_eq;
}
