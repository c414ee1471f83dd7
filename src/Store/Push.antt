-- ===== src/Store/Push.antt =====
-- The push through the pointer of `get_or_create`, on the parts and on the view.
use mathlib.Core.Path.{fun_ext}
use lloogg.Prelude.{
  ℕ, ◌+◌, ◌-◌, ◌≤◌, ◌<◌, ◌≡◌, ◌≢◌, refl, sym, ap, ap₂, ◌∙◌, ◌⊎◌, inl, inr, none, some, ◌∷◌, arith,
  ◌==◌, length, Bool-cases, take, false, Option-cases,
}
use lloogg.Record.{Record, IsTyped}
use lloogg.Ring
use lloogg.Ring.{RingBuffer}
use lloogg.Ring.Push.{push_outside, push-IsValid, push_refines, last_write_ts-push, data_ptr-push}
use lloogg.HashMap.{
  HashMap, lookup, insert, remove, lookup-insert, length-remove-le, length-remove, lookup-remove_ne,
  lookup-remove_self,
}
use lloogg.MemoryPool.Chain.{IsApart, SameOutside}
use lloogg.StoreAlloc.{slot_size, start}
use lloogg.StoreAlloc.Safe.{slot_size_bounds}
use lloogg.Store.{Store, push_entry, push_record, len}
use lloogg.Store.Spec.{Logs, push_log, records}
use lloogg.Store.Parts.{Parts, IsPlaced, ptrs, Parts-insert, Parts-SameOutside}
use lloogg.Store.Separate.{All-append-right}
use lloogg.Store.View.{HasLogs, IsValid, view, view_of, view_of-SameOutside}
use lloogg.Store.Open.{IsCapacity, Opened, get_or_create-Opened}

module _ {slots : ℕ} {s : Store} {uid : ℕ} {s1 : Store} {b : RingBuffer}
    (o : Opened slots s uid s1 b) (r : Record) (ts : ℕ) where
  changed : SameOutside (slot_size s.capacity) b.data_ptr s.mem (Ring.push s.mem b r ts).0
  changed x h =
      sym (push_outside s.mem b r ts x o.placed.ring (omega (arith, slot_size_bounds s.capacity)))

  entry-IsPlaced : IsPlaced s.capacity (Ring.push s.mem b r ts).1
  entry-IsPlaced = record {
    ring = push-IsValid s.mem r ts o.placed.ring;
    not_null = rw (data_ptr-push s.mem r ts o.placed.ring) o.placed.not_null;
    in_range = rw (data_ptr-push s.mem r ts o.placed.ring) o.placed.in_range;
  }

  -- The parts after the write, with the entry put back.
  closed :
      Parts s.capacity slots
        (Ring.push s.mem b r ts).0
        (start s1.alloc_state)
        o.free
        ((uid, (Ring.push s.mem b r ts).1) ∷ remove uid s1.map_of)
  closed =
      let count : slots - 1 + 1 ≡ slots = omega (arith, o.some_slot) in
      rw count at (
        Parts-insert uid (Ring.push s.mem b r ts).1
          (Parts-SameOutside (Ring.push s.mem b r ts).0 b.data_ptr o.parts o.apart changed)
          (lookup-remove_self uid s1.map_of) (rw (data_ptr-push s.mem r ts o.placed.ring) o.apart)
          entry-IsPlaced)

  pub push_entry-IsValid : IsValid slots (push_entry (s1, b) uid r ts)
  unfolding push_entry insert
  push_entry-IsValid = record { free = o.free; parts = rw (o.mem, o.capacity) closed }

  own_log :
      IsTyped r
      → view_of (Ring.push s.mem b r ts).0 (some (Ring.push s.mem b r ts).1)
        ≡ some (take s.capacity (r ∷ records (view s uid)), ts)
  own_log t = rw (
    push_refines s.mem r ts o.placed.ring t,
    o.before,
    last_write_ts-push s.mem r ts o.placed.ring,
  )

  other_log :
      (u : ℕ)
      → (uid == u) ≡ false
      → view_of (Ring.push s.mem b r ts).0 (lookup u s1.map_of) ≡ view s u
  other_log u other =
      let rest : HashMap RingBuffer = remove uid s1.map_of in
      ap (view_of (Ring.push s.mem b r ts).0) (sym (lookup-remove_ne uid u s1.map_of other))
      ∙ view_of-SameOutside s.capacity s.mem (Ring.push s.mem b r ts).0 b.data_ptr u rest
          o.parts.placed
          (All-append-right (IsApart (slot_size s.capacity) b.data_ptr) o.free (ptrs rest) o.apart)
          changed
      ∙ ap (λ m. view_of s.mem (lookup u m)) o.others
      ∙ ap (view_of s.mem) (lookup-remove_ne uid u s.map_of other)

  push_entry-view :
      IsTyped r
      → (u : ℕ) → view (push_entry (s1, b) uid r ts) u ≡ push_log s.capacity uid r ts (view s) u
  unfolding push_entry
  push_entry-view t u = elim (Bool-cases (uid == u)) [
    | inl same ↦ rw (o.mem, lookup-insert, same) (own_log t)
    | inr other ↦ rw (o.mem, lookup-insert, other) (other_log u other)
  ]

push_entry-len :
    {slots : ℕ} {s : Store} {uid : ℕ} {s1 : Store} {b : RingBuffer}
    → Opened slots s uid s1 b
    → (r : Record) (ts : ℕ) → len (push_entry (s1, b) uid r ts) ≤ len s + 1
unfolding push_entry insert
push_entry-len {s = s} {uid = uid} o r ts =
    omega (arith, ap (λ m. length m) o.others, length-remove-le uid s.map_of)

push_entry-len_known :
    {slots : ℕ} {s : Store} {uid : ℕ} {s1 : Store} {b : RingBuffer}
    → IsValid slots s
    → Opened slots s uid s1 b
    → (r : Record) (ts : ℕ) → view s uid ≢ none
    → len (push_entry (s1, b) uid r ts) ≡ len s
unfolding push_entry insert
push_entry-len_known {s = s} {uid = uid} v o r ts known =
    elim (Option-cases (lookup uid s.map_of)) [
      | inl absent ↦ absurd (known (ap (view_of s.mem) absent))
      | inr (old, found) ↦ omega (
        arith,
        ap (λ m. length m) o.others,
        length-remove uid {v = old} s.map_of v.parts.keys found,
      )
    ]

pub capacity-push_entry :
    (s1 : Store) (b : RingBuffer) (uid : ℕ) (r : Record) (ts : ℕ)
    → (push_entry (s1, b) uid r ts).capacity ≡ s1.capacity
unfolding push_entry
capacity-push_entry s1 b uid r ts = refl

-- What one push does to a store: the new state, its invariant and all its logs.
pub record Pushed (slots : ℕ) (s : Store) (uid : ℕ) (r : Record) (ts : ℕ) (s' : Store)
    : Type 0 where
  pub valid : IsValid slots s'
  pub capacity : s'.capacity ≡ s.capacity
  pub logs : (u : ℕ) → view s' u ≡ push_log s.capacity uid r ts (view s) u
  pub len_le : len s' ≤ len s + 1
  pub len_known : view s uid ≢ none → len s' ≡ len s

-- In a valid store of a capacity that a ring buffer admits, with a slot left or for a known user, a
-- push of a record that fits its types succeeds; it keeps the invariant and the capacity, adds at
-- most one user, none if the user is known, puts the record in front of the user's log, cut to the capacity, with the time of
-- the push, and changes no other log.
pub push_record_lem :
    {slots : ℕ} {s : Store} (uid : ℕ) (r : Record) (ts : ℕ)
    → IsTyped r
    → IsCapacity s.capacity
    → IsValid slots s
    → (len s < slots) ⊎ (view s uid ≢ none)
    → (s' : Store) × (push_record s uid r ts ≡ some s') × Pushed slots s uid r ts s'
unfolding push_record
push_record_lem {slots} {s} uid r ts t c v room =
    let (s1, b, opened, o) = get_or_create-Opened uid c v room in
    (
      push_entry (s1, b) uid r ts,
      rw opened,
      record {
        valid = push_entry-IsValid o r ts;
        capacity = capacity-push_entry s1 b uid r ts ∙ o.capacity;
        logs = push_entry-view o r ts t;
        len_le = push_entry-len o r ts;
        len_known = push_entry-len_known v o r ts;
      },
    )

pub Pushed-HasLogs :
    {slots cap : ℕ} {logs : Logs} {s s' : Store} (uid : ℕ) (r : Record) (ts : ℕ)
    → HasLogs slots cap logs s
    → Pushed slots s uid r ts s'
    → HasLogs slots cap (push_log cap uid r ts logs) s'
Pushed-HasLogs uid r ts h p = record {
  valid = p.valid;
  capacity = p.capacity ∙ h.capacity;
  logs_eq = fun_ext p.logs ∙ ap₂ (λ n l. push_log n uid r ts l) h.capacity h.logs_eq;
}
