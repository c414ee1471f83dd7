-- ===== src/Store/View.antt =====
-- The abstract view of a store, its invariant, and the frame rule of views.
use lloogg.Prelude.{ℕ, ◌≡◌, Option, none, some, List, arith, All, Option-cases, inl, inr}
use lloogg.Memory.{Memory}
use lloogg.Ring.{RingBuffer}
use lloogg.Ring.Newest.{contents, newest-cong}
use lloogg.HashMap.{HashMap, lookup, All-lookup}
use lloogg.MemoryPool.Chain.{IsApart, SameOutside}
use lloogg.StoreAlloc.{slot_size, start}
use lloogg.StoreAlloc.Safe.{slot_size_bounds}
use lloogg.Store.{Store}
use lloogg.Store.Spec.{UserLog, Logs}
use lloogg.Store.Parts.{Parts, IsPlaced, ptrs, All-ptrs-lookup}

abbrev pub view_of : Memory → Option RingBuffer → UserLog
view_of m none = none
view_of m (some b) = some (contents m b, b.last_write_ts)

-- The records of each user, newest first, with the time of the last push.
abbrev pub view : Store → Logs
view s u = view_of s.mem (lookup u s.map_of)

-- The invariant of a store that was built with `slots` slots.
pub record IsValid (slots : ℕ) (s : Store) : Type 0 where
  pub free : List ℕ
  pub parts : Parts s.capacity slots s.mem (start s.alloc_state) free s.map_of

-- A store with these logs.
pub record HasLogs (slots cap : ℕ) (logs : Logs) (s : Store) : Type 0 where
  pub valid : IsValid slots s
  pub capacity : s.capacity ≡ cap
  pub logs_eq : view s ≡ logs

pub contents-SameOutside :
    {cap : ℕ} (m m' : Memory) (p : ℕ) (b : RingBuffer)
    → IsPlaced cap b
    → IsApart (slot_size cap) p b.data_ptr
    → SameOutside (slot_size cap) p m m'
    → contents m b ≡ contents m' b
contents-SameOutside {cap} m m' p b v a same =
    newest-cong m m' b 0 b.count v.ring (omega (arith, v.ring.count_in))
      (λ x lo hi. same x (omega (arith, slot_size_bounds cap)))

-- A change of a slot apart from the entries changes no view.
pub view_of-SameOutside :
    (cap : ℕ) (m m' : Memory) (p u : ℕ) (entries : HashMap RingBuffer)
    → All (λ e. IsPlaced cap e.1) entries
    → All (IsApart (slot_size cap) p) (ptrs entries)
    → SameOutside (slot_size cap) p m m'
    → view_of m' (lookup u entries) ≡ view_of m (lookup u entries)
view_of-SameOutside cap m m' p u entries v a same = elim (Option-cases (lookup u entries)) [
  | inl absent ↦ rw absent
  | inr (b, found) ↦ rw (
    found,
    contents-SameOutside {cap = cap} m m' p b (All-lookup (IsPlaced cap) u entries v found)
        (All-ptrs-lookup (IsApart (slot_size cap) p) u entries a found) same,
  )
]
