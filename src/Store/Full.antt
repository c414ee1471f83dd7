-- ===== src/Store/Full.antt =====
-- A push in src/store.rs for any bytes of a record, with and without a free slot.
use native.Mathlib.Decide.{dec_lt}
use lloogg.Prelude.{
  ℕ, ◌≤◌, ◌≡◌, ◌⊎◌, ◌≢◌, ◌+◌, ◌∙◌, ap, List, [], ◌∷◌, length, inl, inr, none, some, arith,
  Option-cases, result_only,
}
use lloogg.Record.{Record, IsTyped}
use lloogg.HashMap.{lookup}
use lloogg.MemoryPool.Chain.{IsChain}
use lloogg.StoreAlloc.{start, alloc}
use lloogg.StoreAlloc.Safe.{alloc-nil}
use lloogg.Store.{Store, get_or_create, push_record, push_entry, len}
use lloogg.Store.View.{IsValid, view, view_of}
use lloogg.Store.Open.{IsCapacity, Opens, get_or_create-Opened}
use lloogg.Store.Push.{Pushed, push_record_lem, push_entry-IsValid, capacity-push_entry}

-- What a push comes to: a valid store, or a panic because there is no slot left.
abbrev pub Pushes : ℕ → Store → ℕ → Record → ℕ → Type 0
Pushes slots s uid r ts =
    ((s' : Store) × (push_record s uid r ts ≡ some s')
      × IsValid slots s'
      × (s'.capacity ≡ s.capacity))
    ⊎ ((push_record s uid r ts ≡ none) × (slots ≤ len s))

Opens-Pushes :
    {slots : ℕ} {s : Store} (uid : ℕ) (r : Record) (ts : ℕ)
    → Opens slots s uid
    → Pushes slots s uid r ts
unfolding push_record
Opens-Pushes uid r ts (s1, b, opened, o) = inl (
  push_entry (s1, b) uid r ts,
  rw opened,
  push_entry-IsValid o r ts,
  capacity-push_entry s1 b uid r ts ∙ o.capacity,
)

get_or_create-none :
    (s : Store) (uid : ℕ)
    → lookup uid s.map_of ≡ none
    → alloc s.mem s.alloc_state ≡ none
    → get_or_create s uid ≡ none
unfolding get_or_create
get_or_create-none s uid absent full = ground arith

no_slot :
    {slots : ℕ} (s : Store) (uid : ℕ) (r : Record) (ts : ℕ) (free : List ℕ)
    → IsChain s.mem (start s.alloc_state) free
    → length free + len s ≡ slots
    → lookup uid s.map_of ≡ none
    → slots ≤ len s
    → push_record s uid r ts ≡ none
unfolding push_record
no_slot s uid r ts [] chain e absent full =
    rw (get_or_create-none s uid absent (alloc-nil s.mem s.alloc_state chain))
no_slot s uid r ts (p ∷ free) chain e absent full = absurd (omega arith)

pub push_record-cases :
    {slots : ℕ} {s : Store} (uid : ℕ) (r : Record) (ts : ℕ)
    → IsCapacity s.capacity
    → IsValid slots s
    → Pushes slots s uid r ts
push_record-cases {slots} {s} uid r ts c v = elim (Option-cases (lookup uid s.map_of)) [
  | inr (b, found) ↦
      let known : view s uid ≢ none = λ e. absurd (cc (e, ap (view_of s.mem) found)) in
      Opens-Pushes uid r ts (get_or_create-Opened uid c v (inr known))
  | inl absent ↦ elim (dec_lt (len s) slots) [
    | yes room ↦ Opens-Pushes uid r ts (get_or_create-Opened uid c v (inl room))
    | no h ↦
        let full : slots ≤ len s = omega arith in
        inr (no_slot s uid r ts v.free v.parts.chain v.parts.counted absent full, full)
  ]
]

-- A push that does not panic does what a push does.
pub push_record-Pushed :
    {slots : ℕ} {s s' : Store} (uid : ℕ) (r : Record) (ts : ℕ)
    → IsTyped r
    → IsCapacity s.capacity
    → IsValid slots s
    → push_record s uid r ts ≡ some s'
    → Pushed slots s uid r ts s'
push_record-Pushed {slots} {s} uid r ts t c v e = elim (Option-cases (lookup uid s.map_of)) [
  | inr (b, found) ↦
      let known : view s uid ≢ none = λ e. absurd (cc (e, ap (view_of s.mem) found)) in
      result_only (Pushed slots s uid r ts) (push_record_lem uid r ts t c v (inr known)) e
  | inl absent ↦ elim (dec_lt (len s) slots) [
    | yes room ↦ result_only (Pushed slots s uid r ts) (push_record_lem uid r ts t c v (inl room)) e
    | no h ↦
        let panics = no_slot s uid r ts v.free v.parts.chain v.parts.counted absent (omega arith) in
        absurd (cc (e, panics))
  ]
]
