-- ===== src/MemoryPool/Chain.antt =====
-- The free list as the list of its slots, and what keeps it: slots that do not overlap.
use lloogg.Prelude.{
  ℕ, zero, suc, ◌+◌, ◌*◌, ◌^◌, ◌≤◌, ◌<◌, ◌≡◌, refl, sym, ap, ◌∙◌, ◌⊎◌, inl, List, [], ◌∷◌, arith,
  length, to_le, from_le, from_le-to_le, suc-==-zero, ltb, ◌==◌, if◌then◌else◌, All,
}
use lloogg.Memory.{Memory, read-cong, read-write_self, write_outside}
use lloogg.MemoryPool.{null, load_ptr, store_ptr, link_slots}

-- `free` lists the slots that the chain of pointers from `start` visits before null.
abbrev pub IsChain : Memory → ℕ → List ℕ → Type 0
IsChain m start [] = start ≡ null
IsChain m start (p ∷ free) = (start ≡ p) × (0 < p) × (p < 2 ^ 64) × IsChain m (load_ptr m p) free

-- The slots at `p` and `q` do not overlap.
abbrev pub IsApart : ℕ → ℕ → ℕ → Type 0
IsApart size p q = (p + size ≤ q) ⊎ (q + size ≤ p)

abbrev pub AreSeparate : ℕ → List ℕ → Type 0
AreSeparate size [] = Unit
AreSeparate size (p ∷ ps) = All (IsApart size p) ps × AreSeparate size ps

-- `m'` differs from `m` at most in the slot at `p`.
abbrev pub SameOutside : ℕ → ℕ → Memory → Memory → Type 0
SameOutside size p m m' = (x : ℕ) → (x < p) ⊎ (p + size ≤ x) → m x ≡ m' x

pub load_ptr-store_ptr : (m : Memory) (p q : ℕ) → q < 2 ^ 64 → load_ptr (store_ptr m p q) p ≡ q
unfolding load_ptr store_ptr
load_ptr-store_ptr m p q h = ap from_le (read-write_self m p (to_le 8 q)) ∙ from_le-to_le 8 q h

pub store_ptr_outside :
    (m : Memory) (size p q : ℕ) → 8 ≤ size → SameOutside size p m (store_ptr m p q)
unfolding store_ptr
store_ptr_outside m size p q h x out = sym (write_outside m p (to_le 8 q) x (omega arith))

load_ptr-SameOutside :
    (m m' : Memory) (size p q : ℕ)
    → 8 ≤ size
    → IsApart size p q
    → SameOutside size p m m'
    → load_ptr m q ≡ load_ptr m' q
unfolding load_ptr
load_ptr-SameOutside m m' size p q h a same =
    ap from_le (read-cong m m' q 8 (λ x lo hi. same x (omega arith)))

-- A change of a slot apart from the free ones keeps the chain.
pub IsChain-SameOutside :
    (m m' : Memory) (size p start : ℕ) (free : List ℕ)
    → 8 ≤ size
    → All (IsApart size p) free
    → SameOutside size p m m'
    → IsChain m start free
    → IsChain m' start free
IsChain-SameOutside m m' size p start [] h a same c = c
IsChain-SameOutside m m' size p start (q ∷ free) h a same c = (
  c.0,
  c.1,
  c.2,
  rw (← load_ptr-SameOutside m m' size p q h a.0 same)
      (IsChain-SameOutside m m' size p (load_ptr m q) free h a.1 same c.3),
)

-- The slots number `i` to `i + n - 1` of a slab.
abbrev pub slots_from : ℕ → ℕ → ℕ → ℕ → List ℕ
slots_from base size i zero = []
slots_from base size i (suc n) = (base + i * size) ∷ slots_from base size (i + 1) n

pub length-slots_from : (base size i n : ℕ) → length (slots_from base size i n) ≡ n
length-slots_from base size i zero = refl
length-slots_from base size i (suc n) = ap suc (length-slots_from base size (i + 1) n)

slots_from-IsApart :
    (base size p i n : ℕ)
    → p + size ≤ base + i * size
    → All (IsApart size p) (slots_from base size i n)
slots_from-IsApart base size p i zero h = tt
slots_from-IsApart base size p i (suc n) h =
    (inl h, slots_from-IsApart base size p (i + 1) n (omega arith))

pub slots_from-AreSeparate : (base size i n : ℕ) → AreSeparate size (slots_from base size i n)
slots_from-AreSeparate base size i zero = tt
slots_from-AreSeparate base size i (suc n) = (
  slots_from-IsApart base size (base + i * size) (i + 1) n (omega arith),
  slots_from-AreSeparate base size (i + 1) n,
)

link_slots_below :
    (m : Memory) (base size total i n x : ℕ)
    → x < base + i * size
    → link_slots m base size total i n x ≡ m x
unfolding link_slots store_ptr
link_slots_below m base size total i zero x h = refl
link_slots_below m base size total i (suc n) x h =
    let next : ℕ = if ltb (i + 1) total then base + (i + 1) * size else null in
    link_slots_below (store_ptr m (base + i * size) next) base size total (i + 1) n x (omega arith)
    ∙ write_outside m (base + i * size) (to_le 8 next) x (inl h)

load_ptr-below :
    (m m' : Memory) (p : ℕ) → ((x : ℕ) → x < p + 8 → m x ≡ m' x) → load_ptr m p ≡ load_ptr m' p
unfolding load_ptr
load_ptr-below m m' p same = ap from_le (read-cong m m' p 8 (λ x lo hi. same x hi))

-- The test of the loop asks whether a round is left.
next-eq :
    (i n total a : ℕ)
    → i + suc n ≡ total
    → (if ltb (i + 1) total then a else null) ≡ (if n == 0 then null else a)
next-eq i n total a e = ground arith

next-lt :
    (i n total base size : ℕ)
    → i + suc n ≡ total
    → 8 ≤ size
    → base + total * size ≤ 2 ^ 64
    → (if n == 0 then null else base + (i + 1) * size) < 2 ^ 64
next-lt i zero total base size e s h = omega arith
next-lt i (suc n) total base size e s h =
    rw (suc-==-zero n) (omega (arith, ap (λ (t : ℕ). t * size) e))

-- The loop leaves a chain of all slots from number `i` on, in order.
pub link_slots-IsChain :
    (m : Memory) (base size total i n : ℕ)
    → 8 ≤ size
    → 0 < base
    → base + total * size ≤ 2 ^ 64
    → i + n ≡ total
    → IsChain
        (link_slots m base size total i n)
        (if n == 0 then null else base + i * size)
        (slots_from base size i n)
unfolding link_slots
link_slots-IsChain m base size total i zero s p h e = refl
link_slots-IsChain m base size total i (suc n) s p h e =
    let next : ℕ = if ltb (i + 1) total then base + (i + 1) * size else null in
    let here : ℕ = base + i * size in
    let m1 : Memory = store_ptr m here next in
    let m2 : Memory = link_slots m1 base size total (i + 1) n in
    let target : next ≡ (if n == 0 then null else base + (i + 1) * size) =
      next-eq i n total (base + (i + 1) * size) e in
    let small : next < 2 ^ 64 = rw target (next-lt i n total base size e s h) in
    let linked : load_ptr m2 here ≡ next =
      load_ptr-below m2 m1 here
        (λ x lt. link_slots_below m1 base size total (i + 1) n x (omega arith))
      ∙ load_ptr-store_ptr m here next small in
    (
      rw (suc-==-zero n),
      omega arith,
      omega (arith, ap (λ (t : ℕ). t * size) e),
      rw (linked, target) (link_slots-IsChain m1 base size total (i + 1) n s p h (omega arith)),
    )
