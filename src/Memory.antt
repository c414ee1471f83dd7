-- ===== src/Memory.antt =====
-- The process memory that raw pointers read and write: a byte at each address. Used by the slots
-- of src/store.rs and src/memory_pool.rs and by the byte ring of src/aof.rs.
use lloogg.Prelude.{
  ℕ, zero, suc, ◌+◌, ◌≤◌, ◌<◌, ◌≡◌, refl, ap, ap₂, ◌∙◌, ◌⊎◌, List, [], ◌∷◌, ◌++◌, arith, ◌==◌,
  if◌then◌else◌, length,
}

abbrev pub Memory : Type 0
Memory = ℕ → ℕ

-- `copy_nonoverlapping(bs, a, bs.len())`, and any typed write as its bytes.
unfoldable pub write : Memory → ℕ → List ℕ → Memory
write m a [] = m
write m a (b ∷ bs) = λ x. if x == a then b else write m (a + 1) bs x

-- The `n` bytes from `a` on.
unfoldable pub read : Memory → ℕ → ℕ → List ℕ
read m a zero = []
read m a (suc n) = m a ∷ read m (a + 1) n

pub length-read : (m : Memory) (a n : ℕ) → length (read m a n) ≡ n
unfolding read
length-read m a zero = refl
length-read m a (suc n) = ap suc (length-read m (a + 1) n)

pub read-append : (m : Memory) (a n k : ℕ) → read m a (n + k) ≡ read m a n ++ read m (a + n) k
unfolding read
read-append m a zero k = ap₂ (read m) (omega arith) (omega arith)
read-append m a (suc n) k =
    let inner : suc n + k ≡ suc (n + k) = omega arith in
    let start : a + suc n ≡ a + 1 + n = omega arith in
    rw (inner, start, ← read-append m (a + 1) n k)

-- Reads of memories that agree on the range are equal.
pub read-cong :
    (m m' : Memory) (a n : ℕ)
    → ((x : ℕ) → a ≤ x → x < a + n → m x ≡ m' x)
    → read m a n ≡ read m' a n
unfolding read
read-cong m m' a zero h = refl
read-cong m m' a (suc n) h =
    ap₂ ◌∷◌ (h a (omega arith) (omega arith))
      (read-cong m m' (a + 1) n (λ x p q. h x (omega arith) (omega arith)))

-- A write leaves the other addresses alone.
pub write_outside :
    (m : Memory) (a : ℕ) (bs : List ℕ) (x : ℕ)
    → (x < a) ⊎ (a + length bs ≤ x)
    → write m a bs x ≡ m x
unfolding write
write_outside m a [] x h = refl
write_outside m a (b ∷ bs) x h = ground (arith, write_outside m (a + 1) bs x)

-- What was written is read back.
pub read-write_self : (m : Memory) (a : ℕ) (bs : List ℕ) → read (write m a bs) a (length bs) ≡ bs
unfolding read write
read-write_self m a [] = refl
read-write_self m a (b ∷ bs) = ap₂ ◌∷◌ (ground arith) (
    read-cong _ (write m (a + 1) bs) (a + 1) (length bs) (λ x p q. ground arith)
    ∙ read-write_self m (a + 1) bs)

-- A write does not change a read of a range apart from it.
pub read-write_apart :
    (m : Memory) (a : ℕ) (bs : List ℕ) (c n : ℕ)
    → (c + n ≤ a) ⊎ (a + length bs ≤ c)
    → read (write m a bs) c n ≡ read m c n
read-write_apart m a bs c n h =
    read-cong (write m a bs) m c n (λ x p q. write_outside m a bs x (omega arith))
