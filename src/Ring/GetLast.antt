-- ===== src/Ring/GetLast.antt =====
-- `RingBuffer::get_last` and the abstract view.
use lloogg.Prelude.{
  ℕ, zero, suc, ◌+◌, ◌≤◌, ◌<◌, ◌≡◌, refl, sym, ap, ◌∙◌, List, [], ◌∷◌, ◌++◌, arith, length, min,
  take, drop, set, length-set, append_assoc,
}
use lloogg.Memory.{Memory}
use lloogg.Record.{Record}
use lloogg.Ring.{RingBuffer, newest_index, load, fill, get_last}
use lloogg.Ring.Newest.{newest, contents, take-newest}

module _ {ℓ} {A : Type ℓ} where
  take-set_next :
      (i : ℕ) (xs : List A) (v : A)
      → i < length xs
      → take (i + 1) (set xs i v) ≡ take i xs ++ (v ∷ [])
  take-set_next i [] v h = absurd (omega arith)
  take-set_next zero (x ∷ xs) v h = refl
  take-set_next (suc i) (x ∷ xs) v h =
      let e : suc i + 1 ≡ suc (i + 1) = omega arith in rw (e, take-set_next i xs v (omega arith))

  drop-set : (i k : ℕ) (xs : List A) (v : A) → i < k → drop k (set xs i v) ≡ drop k xs
  drop-set i k [] v h = refl
  drop-set i zero (x ∷ xs) v h = absurd (omega arith)
  drop-set zero (suc k) (x ∷ xs) v h = refl
  drop-set (suc i) (suc k) (x ∷ xs) v h = drop-set i k xs v (omega arith)

  take-drop-all : (n : ℕ) (xs : List A) → take n xs ++ drop n xs ≡ xs
  take-drop-all zero xs = refl
  take-drop-all (suc n) [] = refl
  take-drop-all (suc n) (x ∷ xs) = ap (λ t. x ∷ t) (take-drop-all n xs)

fill-eq :
    (m : Memory) (b : RingBuffer) (i n : ℕ) (out : List Record)
    → i + n ≤ length out
    → fill m b i n out ≡ take i out ++ (newest m b i n ++ drop (i + n) out)
unfolding fill newest
fill-eq m b i zero out h = let e : i + zero ≡ i = omega arith in rw e (sym (take-drop-all i out))
fill-eq m b i (suc n) out h =
    let e : i + suc n ≡ i + 1 + n = omega arith in
    let r : Record = load m b (newest_index b i) in
    rw (e) (
      fill-eq m b (i + 1) n (set out i r) (omega (arith, length-set out i r))
      ∙ rw (
        take-set_next i out r (omega arith),
        drop-set i (i + 1 + n) out r (omega arith),
        append_assoc,
      ))

-- With room in `out`, `get_last` writes the newest `min(n, count)` records in front, newest first,
-- and leaves the rest of `out` alone.
pub get_last_lem :
    (m : Memory) (b : RingBuffer) (n : ℕ) (out : List Record)
    → min n b.count ≤ length out
    → (get_last m b n out).1 ≡ take n (contents m b) ++ drop (min n b.count) out
unfolding get_last
get_last_lem m b n out h =
    let e : 0 + min n b.count ≡ min n b.count = omega arith in
    fill-eq m b 0 (min n b.count) out (omega arith) ∙ rw (e, take-newest)
