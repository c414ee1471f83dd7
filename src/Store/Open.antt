-- ===== src/Store/Open.antt =====
-- `get_or_create` of src/store.rs: the entry of the user, held apart from the rest of the store.
use lloogg.Prelude.{
  ℕ, ◌-◌, ◌^◌, ◌<◌, ◌≡◌, ◌≢◌, refl, ◌∙◌, ◌⊎◌, inl, inr, none, some, List, [], ◌∷◌, ◌++◌, arith, All,
  Option-cases,
}
use lloogg.Memory.{Memory}
use lloogg.Ring.{RingBuffer}
use lloogg.Ring.Newest.{newest, contents}
use lloogg.HashMap.{lookup, insert, remove, remove-insert, remove-absent}
use lloogg.MemoryPool.Chain.{IsApart}
use lloogg.StoreAlloc.{StoreAlloc, slot_size, start, alloc}
use lloogg.StoreAlloc.Safe.{alloc-cons}
use lloogg.Store.{Store, get_or_create, len}
use lloogg.Store.Spec.{records}
use lloogg.Store.Parts.{Parts, IsPlaced, ptrs, Parts-remove, Parts-alloc}
use lloogg.Store.View.{IsValid, view}

-- What a positive capacity below 2 ^ 16 is: `COMPILED_N as u16` of a build that build.rs accepts.
pub record IsCapacity (cap : ℕ) : Type 0 where
  pub positive : 0 < cap
  pub small : cap < 65536

-- The state between `get_or_create` and the write through its pointer: the entry `b` of `uid` is
-- held apart from the rest of the store `s1`.
pub record Opened (slots : ℕ) (s : Store) (uid : ℕ) (s1 : Store) (b : RingBuffer) : Type 0 where
  pub free : List ℕ
  pub capacity : s1.capacity ≡ s.capacity
  pub parts : Parts s.capacity (slots - 1) s.mem (start s1.alloc_state) free (remove uid s1.map_of)
  pub apart : All (IsApart (slot_size s.capacity) b.data_ptr) (free ++ ptrs (remove uid s1.map_of))
  pub placed : IsPlaced s.capacity b
  pub some_slot : 0 < slots
  pub mem : s1.mem ≡ s.mem
  pub others : remove uid s1.map_of ≡ remove uid s.map_of
  pub before : contents s.mem b ≡ records (view s uid)

open_existing :
    {slots : ℕ} {s : Store} (uid : ℕ) (b : RingBuffer)
    → IsValid slots s
    → lookup uid s.map_of ≡ some b
    → Opened slots s uid s b
open_existing {slots} {s} uid b v found =
    let (parts, apart, placed, positive) = Parts-remove uid b v.parts found in
    record {
      free = v.free;
      capacity = refl;
      parts = parts;
      apart = apart;
      placed = placed;
      some_slot = positive;
      mem = refl;
      others = refl;
      before = rw found;
    }

abbrev pub fresh_buffer : ℕ → ℕ → RingBuffer
fresh_buffer ptr cap = record {
  data_ptr = ptr;
  capacity = cap;
  head = 0;
  count = 0;
  last_write_ts = 0;
}

pub fresh_empty : (m : Memory) (p cap : ℕ) → contents m (fresh_buffer p cap) ≡ []
unfolding newest
fresh_empty m p cap = refl

open_fresh :
    {slots : ℕ} {s : Store} (uid p : ℕ) (rest : List ℕ) (a : StoreAlloc)
    → IsCapacity s.capacity
    → Parts s.capacity (slots - 1) s.mem (start a) rest s.map_of
    → All (IsApart (slot_size s.capacity) p) (rest ++ ptrs s.map_of)
    → 0 < p
    → p < 2 ^ 64
    → 0 < slots
    → lookup uid s.map_of ≡ none
    → Opened slots s uid
        (record s { alloc_state = a; map_of = insert uid (fresh_buffer p s.capacity) s.map_of })
        (fresh_buffer p s.capacity)
open_fresh {slots} {s} uid p rest a c v apart lo hi positive absent =
    let b : RingBuffer = fresh_buffer p s.capacity in
    let same : remove uid (insert uid b s.map_of) ≡ s.map_of =
      remove-insert uid b s.map_of ∙ remove-absent uid s.map_of absent in
    record {
      free = rest;
      capacity = refl;
      parts = rw same v;
      apart = rw same apart;
      placed = record { ring = omega (arith, c.positive, c.small); not_null = lo; in_range = hi };
      some_slot = positive;
      mem = refl;
      others = remove-insert uid b s.map_of;
      before = fresh_empty s.mem p s.capacity ∙ rw absent;
    }

get_or_create-found :
    (s : Store) (uid : ℕ) (b : RingBuffer)
    → lookup uid s.map_of ≡ some b
    → get_or_create s uid ≡ some (s, b)
unfolding get_or_create
get_or_create-found s uid b found = ground arith

abbrev pub with_fresh : Store → ℕ → ℕ → StoreAlloc → Store
with_fresh s uid p a = record s {
  alloc_state = a;
  map_of = insert uid (fresh_buffer p s.capacity) s.map_of;
}

get_or_create-fresh :
    (s : Store) (uid p : ℕ) (a : StoreAlloc)
    → lookup uid s.map_of ≡ none
    → alloc s.mem s.alloc_state ≡ some (p, a)
    → get_or_create s uid ≡ some (with_fresh s uid p a, fresh_buffer p s.capacity)
unfolding get_or_create
get_or_create-fresh s uid p a absent taken = ground arith

abbrev pub Opens : ℕ → Store → ℕ → Type 0
Opens slots s uid =
    (s1 : Store) × (b : RingBuffer) × (get_or_create s uid ≡ some (s1, b)) × Opened slots s uid s1 b

-- The first free slot becomes the buffer of a new user.
pub vacant-Opened :
    {slots : ℕ} {s : Store} (uid : ℕ) (free : List ℕ)
    → IsCapacity s.capacity
    → Parts s.capacity slots s.mem (start s.alloc_state) free s.map_of
    → lookup uid s.map_of ≡ none
    → len s < slots
    → (p : ℕ) × (a : StoreAlloc) × (get_or_create s uid
        ≡ some (with_fresh s uid p a, fresh_buffer p s.capacity))
      × Opened slots s uid (with_fresh s uid p a) (fresh_buffer p s.capacity)
vacant-Opened uid [] c v absent h = absurd (omega (arith, v.counted))
vacant-Opened {slots} {s} uid (p ∷ rest) c v absent h =
    let (parts, apart, lo, hi, positive) = Parts-alloc p rest v in
    let (a, taken, tail) = alloc-cons s.mem s.alloc_state p rest v.chain in
    (
      p,
      a,
      get_or_create-fresh s uid p a absent taken,
      open_fresh uid p rest a c
          (record {
            chain = tail;
            separate = parts.separate;
            placed = parts.placed;
            keys = parts.keys;
            counted = parts.counted;
          })
          apart lo hi positive absent,
    )

-- With a slot for a new user, `get_or_create` returns.
pub get_or_create-Opened :
    {slots : ℕ} {s : Store} (uid : ℕ)
    → IsCapacity s.capacity
    → IsValid slots s
    → (len s < slots) ⊎ (view s uid ≢ none)
    → Opens slots s uid
get_or_create-Opened {slots} {s} uid c v room = elim (Option-cases (lookup uid s.map_of)) [
  | inr (b, found) ↦ (s, b, get_or_create-found s uid b found, open_existing uid b v found)
  | inl absent ↦
      let (p, a, opened, o) = vacant-Opened uid v.free c v.parts absent (ground (arith, room)) in
      (with_fresh s uid p a, fresh_buffer p s.capacity, opened, o)
]
