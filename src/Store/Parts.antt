-- ===== src/Store/Parts.antt =====
-- The representation invariant of the store on its parts: the free slots, the entries, and no
-- overlap. An entry or a free slot is taken out and put in by one lemma each.
use lloogg.Prelude.{
  ℕ, suc, ◌+◌, ◌-◌, ◌^◌, ◌<◌, ◌≡◌, refl, inl, inr, none, some, List, [], ◌∷◌, ◌++◌, arith, ◌==◌,
  length, All, All-append, Bool-cases, ==_iff, subst,
}
use lloogg.Memory.{Memory}
use lloogg.Ring
use lloogg.Ring.{RingBuffer}
use lloogg.HashMap.{
  HashMap, HasUniqueKeys, lookup, remove, remove-absent, remove-HasUniqueKeys, length-remove,
  All-remove, All-lookup,
}
use lloogg.MemoryPool.{load_ptr}
use lloogg.MemoryPool.Chain.{IsChain, IsApart, AreSeparate, SameOutside, IsChain-SameOutside}
use lloogg.Store.Separate.{
  All-middle, IsApart-sym, AreSeparate-middle, AreSeparate-middle_inv, All-append-left,
  All-append-right,
}
use lloogg.StoreAlloc.{slot_size}
use lloogg.StoreAlloc.Safe.{slot_size_bounds}

abbrev pub ptrs : HashMap RingBuffer → List ℕ
ptrs [] = []
ptrs ((k, b) ∷ m) = b.data_ptr ∷ ptrs m

-- What the invariant says of one buffer.
pub record IsPlaced (cap : ℕ) (b : RingBuffer) : Type 0 where
  pub ring : Ring.IsValid cap b
  pub not_null : 0 < b.data_ptr
  pub in_range : b.data_ptr < 2 ^ 64

pub record Parts (cap slots : ℕ) (m : Memory) (start : ℕ) (free : List ℕ)
    (entries : HashMap RingBuffer) : Type 0 where
  pub chain : IsChain m start free
  pub separate : AreSeparate (slot_size cap) (free ++ ptrs entries)
  pub placed : All (λ e. IsPlaced cap e.1) entries
  pub keys : HasUniqueKeys entries
  pub counted : length free + length entries ≡ slots

All-ptrs-remove {κ} :
    (P : ℕ → Type κ) (k : ℕ) (m : HashMap RingBuffer) → All P (ptrs m) → All P (ptrs (remove k m))
unfolding remove
All-ptrs-remove P k [] h = tt
All-ptrs-remove P k ((j, b) ∷ m) h = elim (Bool-cases (j == k)) [
  | inl same ↦ rw same (All-ptrs-remove P k m h.1)
  | inr other ↦ rw other (h.0, All-ptrs-remove P k m h.1)
]

pub All-ptrs-lookup {κ} :
    (P : ℕ → Type κ) (k : ℕ) {b : RingBuffer} (m : HashMap RingBuffer)
    → All P (ptrs m)
    → lookup k m ≡ some b
    → P b.data_ptr
unfolding lookup
All-ptrs-lookup P k [] h e = absurd (cc)
All-ptrs-lookup P k {b} ((j, w) ∷ m) h e = elim (Bool-cases (j == k)) [
  | inl same ↦ let found : w ≡ b = ground arith in subst (λ t. P t.data_ptr) found h.0
  | inr other ↦ let later : lookup k m ≡ some b = ground arith in All-ptrs-lookup P k m h.1 later
]

-- An entry that is taken out lies apart from all that is left.
separate-remove :
    (size : ℕ) (free : List ℕ) (k : ℕ) {b : RingBuffer} (m : HashMap RingBuffer)
    → HasUniqueKeys m
    → lookup k m ≡ some b
    → AreSeparate size (free ++ ptrs m)
    → All (IsApart size b.data_ptr) (free ++ ptrs (remove k m))
      × AreSeparate size (free ++ ptrs (remove k m))
unfolding lookup remove
separate-remove size free k [] u e s = absurd (cc)
separate-remove size free k {b} ((j, w) ∷ m) u e s =
    let (apart, rest) = AreSeparate-middle_inv size free (ptrs m) w.data_ptr s in
    elim (Bool-cases (j == k)) [
      | inl same ↦
          let found : w ≡ b = ground arith in
          let gone : remove k m ≡ m = remove-absent k m (ground (arith, ==_iff j k)) in
          rw (same, gone, ← found) (apart, rest)
      | inr other ↦
          let later : lookup k m ≡ some b = ground arith in
          let (b_apart, left) = separate-remove size free k {b = b} m u.1 later rest in
          let at_right : All (IsApart size w.data_ptr) (ptrs m) =
            All-append-right (IsApart size w.data_ptr) free (ptrs m) apart in
          rw other (
            All-middle (IsApart size b.data_ptr) free (ptrs (remove k m)) w.data_ptr b_apart (
                IsApart-sym size w.data_ptr b.data_ptr
                  (All-ptrs-lookup (IsApart size w.data_ptr) k m at_right later)),
            AreSeparate-middle size free (ptrs (remove k m)) w.data_ptr
                (All-append (IsApart size w.data_ptr) free (ptrs (remove k m))
                  (All-append-left (IsApart size w.data_ptr) free (ptrs m) apart)
                  (All-ptrs-remove (IsApart size w.data_ptr) k m at_right))
                left,
          )
    ]

module _ {cap slots : ℕ} {m : Memory} {start : ℕ} {free : List ℕ}
    {entries : HashMap RingBuffer} where
  -- Take the entry of `k` out.
  pub Parts-remove :
      (k : ℕ) (b : RingBuffer)
      → Parts cap slots m start free entries
      → lookup k entries ≡ some b
      → Parts cap (slots - 1) m start free (remove k entries)
        × All (IsApart (slot_size cap) b.data_ptr) (free ++ ptrs (remove k entries))
        × IsPlaced cap b
        × (0 < slots)
  Parts-remove k b v e =
      let (apart, left) =
        separate-remove (slot_size cap) free k {b = b} entries v.keys e v.separate in
      let short : suc (length (remove k entries)) ≡ length entries =
        length-remove k {v = b} entries v.keys e in
      (
        record {
          chain = v.chain;
          separate = left;
          placed = All-remove (λ e. IsPlaced cap e.1) k entries v.placed;
          keys = remove-HasUniqueKeys k entries v.keys;
          counted = omega (arith, short, v.counted);
        },
        apart,
        All-lookup (IsPlaced cap) k entries v.placed e,
        omega (arith, short, v.counted),
      )

  -- Put an entry in.
  pub Parts-insert :
      (k : ℕ) (b : RingBuffer)
      → Parts cap slots m start free entries
      → lookup k entries ≡ none
      → All (IsApart (slot_size cap) b.data_ptr) (free ++ ptrs entries)
      → IsPlaced cap b
      → Parts cap (slots + 1) m start free ((k, b) ∷ entries)
  Parts-insert k b v e a p = record {
    chain = v.chain;
    separate = AreSeparate-middle (slot_size cap) free (ptrs entries) b.data_ptr a v.separate;
    placed = (p, v.placed);
    keys = (e, v.keys);
    counted = omega (arith, v.counted);
  }

  -- Put a free slot in.
  pub Parts-free :
      (p : ℕ)
      → Parts cap slots m start free entries
      → All (IsApart (slot_size cap) p) (free ++ ptrs entries)
      → load_ptr m p ≡ start
      → 0 < p
      → p < 2 ^ 64
      → Parts cap (slots + 1) m p (p ∷ free) entries
  Parts-free p v a e lo hi = record {
    chain = (refl, lo, hi, rw e v.chain);
    separate = (a, v.separate);
    placed = v.placed;
    keys = v.keys;
    counted = omega (arith, v.counted);
  }

  -- The store's parts do not depend on memory apart from them.
  pub Parts-SameOutside :
      (m' : Memory) (p : ℕ)
      → Parts cap slots m start free entries
      → All (IsApart (slot_size cap) p) (free ++ ptrs entries)
      → SameOutside (slot_size cap) p m m'
      → Parts cap slots m' start free entries
  Parts-SameOutside m' p v a same = record {
    chain =
        IsChain-SameOutside m m' (slot_size cap) p start free (slot_size_bounds cap).1
          (All-append-left (IsApart (slot_size cap) p) free (ptrs entries) a) same v.chain;
    separate = v.separate;
    placed = v.placed;
    keys = v.keys;
    counted = v.counted;
  }

-- Take the first free slot out.
pub Parts-alloc :
    {cap slots : ℕ} {m : Memory} {start : ℕ} (p : ℕ) (free : List ℕ) {entries : HashMap RingBuffer}
    → Parts cap slots m start (p ∷ free) entries
    → Parts cap (slots - 1) m (load_ptr m p) free entries
      × All (IsApart (slot_size cap) p) (free ++ ptrs entries)
      × (0 < p)
      × (p < 2 ^ 64)
      × (0 < slots)
Parts-alloc p free v = (
  record {
    chain = v.chain.3;
    separate = v.separate.1;
    placed = v.placed;
    keys = v.keys;
    counted = omega (arith, v.counted);
  },
  v.separate.0,
  v.chain.1,
  v.chain.2,
  omega (arith, v.counted),
)
