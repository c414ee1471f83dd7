-- ===== src/Aof/Circular.antt =====
-- The bytes of the ring from an offset on, going round, against its reads and writes in fragments.
use lloogg.Prelude.{
  ℕ, zero, suc, ◌+◌, ◌-◌, ◌%◌, ◌≤◌, ◌<◌, ◌≡◌, refl, sym, ap, ap₂, ◌∙◌, ◌⊎◌, inl, inr, List, [], ◌∷◌,
  ◌++◌, arith, leb, leb→le, leb→gt, length, take, drop, length-take, length-drop, Bool-cases,
}
use lloogg.Memory.{Memory, read, write, read-write_self, read-write_apart}
use lloogg.Constants.{aof_buf_size}
use lloogg.Aof.{put_bytes}

pub circular : Memory → ℕ → ℕ → List ℕ
circular buf off zero = []
circular buf off (suc n) = buf off ∷ circular buf ((off + 1) % aof_buf_size) n

pub circular-zero : (buf : Memory) (off : ℕ) → circular buf off 0 ≡ []
unfolding circular
circular-zero buf off = refl

pub circular-append :
    (buf : Memory) (off n k : ℕ)
    → off < aof_buf_size
    → circular buf off (n + k) ≡ circular buf off n ++ circular buf ((off + n) % aof_buf_size) k
unfolding circular
circular-append buf off zero k h = ap₂ (circular buf) (omega arith) (omega arith)
circular-append buf off (suc n) k h =
    let outer : suc n + k ≡ suc (n + k) = omega arith in
    let inner : (off + suc n) % aof_buf_size ≡ ((off + 1) % aof_buf_size + n) % aof_buf_size =
      omega arith in
    rw (outer, inner, ← circular-append buf ((off + 1) % aof_buf_size) n k (omega arith))

pub circular-straight :
    (buf : Memory) (off n : ℕ) → off + n ≤ aof_buf_size → circular buf off n ≡ read buf off n
unfolding circular read
circular-straight buf off zero h = refl
circular-straight buf off (suc zero) h = refl
circular-straight buf off (suc (suc n)) h =
    let next : (off + 1) % aof_buf_size ≡ off + 1 = omega arith in
    rw (next, circular-straight buf (off + 1) (suc n) (omega arith))

pub circular-wrapped :
    (buf : Memory) (off n : ℕ)
    → off < aof_buf_size
    → n ≤ aof_buf_size
    → aof_buf_size < off + n
    → circular buf off n
      ≡ read buf off (aof_buf_size - off) ++ read buf 0 (n - (aof_buf_size - off))
circular-wrapped buf off n h k wrap =
    let first : ℕ = aof_buf_size - off in
    let split : n ≡ first + (n - first) = omega arith in
    let back : (off + first) % aof_buf_size ≡ 0 = omega arith in
    ap (circular buf off) split
    ∙ circular-append buf off first (n - first) h
    ∙ ap₂ ◌++◌ (circular-straight buf off first (omega arith)) (
        ap (λ o. circular buf o (n - first)) back
        ∙ circular-straight buf 0 (n - first) (omega arith))

take-append-drop : (n : ℕ) (xs : List ℕ) → take n xs ++ drop n xs ≡ xs
take-append-drop zero xs = refl
take-append-drop (suc n) [] = refl
take-append-drop (suc n) (x ∷ xs) = ap (λ t. x ∷ t) (take-append-drop n xs)

two_fragments :
    (buf : Memory) (w : ℕ) (xs ys : List ℕ)
    → w + length xs ≡ aof_buf_size
    → w < aof_buf_size
    → length ys ≤ w
    → 0 < length ys
    → circular (write (write buf w xs) 0 ys) w (length xs + length ys) ≡ xs ++ ys
two_fragments buf w xs ys e h k positive =
    let m : Memory = write (write buf w xs) 0 ys in
    let first : aof_buf_size - w ≡ length xs = omega arith in
    let second : length xs + length ys - length xs ≡ length ys = omega arith in
    circular-wrapped m w (length xs + length ys) h (omega arith) (omega arith)
    ∙ rw (first, second)
        (ap₂ ◌++◌
          (read-write_apart (write buf w xs) 0 ys w (length xs) (omega arith)
            ∙ read-write_self buf w xs)
          (read-write_self (write buf w xs) 0 ys))

module _ (buf : Memory) (w : ℕ) (bytes : List ℕ) (inside : w < aof_buf_size) where
  -- What was put into the ring is read back going round.
  pub circular-put_bytes_self :
      length bytes ≤ aof_buf_size → circular (put_bytes buf w bytes) w (length bytes) ≡ bytes
  unfolding put_bytes
  circular-put_bytes_self h = elim (Bool-cases (leb (w + length bytes) aof_buf_size)) [
    | inl fits ↦ rw fits (
        circular-straight (write buf w bytes) w (length bytes) (leb→le _ _ fits)
        ∙ read-write_self buf w bytes)
    | inr wraps ↦
        let first : ℕ = aof_buf_size - w in
        let front : length (take first bytes) ≡ first =
          omega (arith, length-take first bytes, leb→gt _ _ wraps) in
        let whole : length bytes ≡ length (take first bytes) + length (drop first bytes) =
          omega (arith, front, length-drop first bytes, leb→gt _ _ wraps) in
        rw wraps (
          ap (circular (write (write buf w (take first bytes)) 0 (drop first bytes)) w) whole
          ∙ two_fragments buf w (take first bytes) (drop first bytes) (omega (arith, front)) inside
              (omega (arith, length-drop first bytes))
              (omega (arith, length-drop first bytes, leb→gt _ _ wraps))
          ∙ take-append-drop first bytes)
  ]

  -- A range of the ring apart from the bytes put keeps its bytes.
  read-put_bytes :
      (c k : ℕ)
      → (w + length bytes ≤ aof_buf_size) × ((c + k ≤ w) ⊎ (w + length bytes ≤ c))
        ⊎ (aof_buf_size < w + length bytes) × (c + k ≤ w) × (w + length bytes ≤ aof_buf_size + c)
      → read (put_bytes buf w bytes) c k ≡ read buf c k
  unfolding put_bytes
  read-put_bytes c k apart = elim (Bool-cases (leb (w + length bytes) aof_buf_size)) [
    | inl fits ↦ rw fits (read-write_apart buf w bytes c k (omega (arith, leb→le _ _ fits)))
    | inr wraps ↦
        let first : ℕ = aof_buf_size - w in
        rw wraps (
          read-write_apart (write buf w (take first bytes)) 0 (drop first bytes) c k
            (omega (arith, length-drop first bytes, leb→gt _ _ wraps))
          ∙ read-write_apart buf w (take first bytes) c k
              (omega (arith, length-take first bytes, leb→gt _ _ wraps)))
  ]

  -- The `n` bytes before the bytes put are kept, as long as all fit.
  pub circular-put_bytes_before :
      (off n : ℕ)
      → off < aof_buf_size
      → w ≡ (off + n) % aof_buf_size
      → n + length bytes ≤ aof_buf_size
      → circular (put_bytes buf w bytes) off n ≡ circular buf off n
  circular-put_bytes_before off n h e room = elim (Bool-cases (leb (off + n) aof_buf_size)) [
    | inl fits ↦
        let le : off + n ≤ aof_buf_size = leb→le _ _ fits in
        circular-straight (put_bytes buf w bytes) off n le
        ∙ read-put_bytes off n (omega arith)
        ∙ sym (circular-straight buf off n le)
    | inr wraps ↦
        let gt : aof_buf_size < off + n = leb→gt _ _ wraps in
        circular-wrapped (put_bytes buf w bytes) off n h (omega arith) gt
        ∙ ap₂ ◌++◌ (read-put_bytes off (aof_buf_size - off) (omega arith))
            (read-put_bytes 0 (n - (aof_buf_size - off)) (omega arith))
        ∙ sym (circular-wrapped buf off n h (omega arith) gt)
  ]
