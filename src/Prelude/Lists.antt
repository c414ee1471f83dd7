-- ===== src/Prelude/Lists.antt =====
-- Lists measured and indexed by native numbers, under the library's names, and a predicate on
-- every element.
use Prim.Native.Nat.{ℕ, zero, suc, ◌+◌, ◌-◌, ◌≤◌, ◌<◌, min}
use mathlib.Core.Path.{◌≡◌, refl, sym, ap, ◌∙◌}
use mathlib.Core.List.{List, [], ◌∷◌, ◌++◌}
use native.Mathlib.Omega.{arith}

module _ {ℓ} {A : Type ℓ} where
  abbrev pub length : List A → ℕ
  length [] = 0
  length (x ∷ xs) = suc (length xs)

  -- A write out of bounds changes nothing.
  abbrev pub set : List A → ℕ → A → List A
  set [] i v = []
  set (x ∷ xs) zero v = v ∷ xs
  set (x ∷ xs) (suc i) v = x ∷ set xs i v

  abbrev pub get_or : List A → ℕ → A → A
  get_or [] i d = d
  get_or (x ∷ xs) zero d = x
  get_or (x ∷ xs) (suc i) d = get_or xs i d

  abbrev pub take : ℕ → List A → List A
  take zero xs = []
  take (suc n) [] = []
  take (suc n) (x ∷ xs) = x ∷ take n xs

  abbrev pub drop : ℕ → List A → List A
  drop zero xs = xs
  drop (suc n) [] = []
  drop (suc n) (x ∷ xs) = drop n xs

  abbrev pub replicate : ℕ → A → List A
  replicate zero a = []
  replicate (suc n) a = a ∷ replicate n a

  abbrev pub All {κ} : (A → Type κ) → List A → Type κ
  All P [] = Unit
  All P (x ∷ xs) = P x × All P xs

  -- `xs[off..off + n]`
  abbrev pub slice : List A → ℕ → ℕ → List A
  slice xs off n = take n (drop off xs)

  -- `xs[off..off + ys.len()].copy_from_slice(ys)`
  abbrev pub splice : List A → ℕ → List A → List A
  splice xs zero [] = xs
  splice [] zero (y ∷ ys) = []
  splice (x ∷ xs) zero (y ∷ ys) = y ∷ splice xs zero ys
  splice [] (suc off) ys = []
  splice (x ∷ xs) (suc off) ys = x ∷ splice xs off ys

module _ {ℓ} {A : Type ℓ} where
  pub length-append : (xs ys : List A) → length (xs ++ ys) ≡ length xs + length ys
  length-append [] ys = omega arith
  length-append (x ∷ xs) ys = omega (arith, length-append xs ys)

  pub length-take : (n : ℕ) (xs : List A) → length (take n xs) ≡ min n (length xs)
  length-take zero xs = omega arith
  length-take (suc n) [] = omega arith
  length-take (suc n) (x ∷ xs) = omega (arith, length-take n xs)

  pub length-drop : (n : ℕ) (xs : List A) → length (drop n xs) ≡ length xs - n
  length-drop zero xs = omega arith
  length-drop (suc n) [] = omega arith
  length-drop (suc n) (x ∷ xs) = omega (arith, length-drop n xs)

  pub length-slice : (xs : List A) (off n : ℕ) → off + n ≤ length xs → length (slice xs off n) ≡ n
  length-slice xs off n h = omega (arith, length-take n (drop off xs), length-drop off xs)

  pub take-append : (n : ℕ) (xs ys : List A) → n ≡ length xs → take n (xs ++ ys) ≡ xs
  take-append zero [] ys h = refl
  take-append zero (x ∷ xs) ys h = absurd (omega arith)
  take-append (suc n) [] ys h = absurd (omega arith)
  take-append (suc n) (x ∷ xs) ys h = ap (λ t. x ∷ t) (take-append n xs ys (omega arith))

  pub drop-append : (n : ℕ) (xs ys : List A) → n ≡ length xs → drop n (xs ++ ys) ≡ ys
  drop-append zero [] ys h = refl
  drop-append zero (x ∷ xs) ys h = absurd (omega arith)
  drop-append (suc n) [] ys h = absurd (omega arith)
  drop-append (suc n) (x ∷ xs) ys h = drop-append n xs ys (omega arith)

  pub take-append_over :
      (m n : ℕ) (xs ys : List A) → m ≡ length xs → take (m + n) (xs ++ ys) ≡ xs ++ take n ys
  take-append_over zero n [] ys h = ap (λ m. take m ys) (omega arith)
  take-append_over zero n (x ∷ xs) ys h = absurd (omega arith)
  take-append_over (suc m) n [] ys h = absurd (omega arith)
  take-append_over (suc m) n (x ∷ xs) ys h =
      let e : suc m + n ≡ suc (m + n) = omega arith in
      rw e (ap (λ t. x ∷ t) (take-append_over m n xs ys (omega arith)))

  pub take_all : (n : ℕ) (xs : List A) → length xs ≤ n → take n xs ≡ xs
  take_all zero [] h = refl
  take_all zero (x ∷ xs) h = absurd (omega arith)
  take_all (suc n) [] h = refl
  take_all (suc n) (x ∷ xs) h = ap (λ t. x ∷ t) (take_all n xs (omega arith))

  pub length-set : (xs : List A) (i : ℕ) (v : A) → length (set xs i v) ≡ length xs
  length-set [] i v = refl
  length-set (x ∷ xs) zero v = refl
  length-set (x ∷ xs) (suc i) v = ap suc (length-set xs i v)

  pub length-splice : (xs : List A) (off : ℕ) (ys : List A) → length (splice xs off ys) ≡ length xs
  length-splice xs zero [] = refl
  length-splice [] zero (y ∷ ys) = refl
  length-splice (x ∷ xs) zero (y ∷ ys) = ap suc (length-splice xs zero ys)
  length-splice [] (suc off) ys = refl
  length-splice (x ∷ xs) (suc off) ys = ap suc (length-splice xs off ys)

  pub All-append {κ} : (P : A → Type κ) (xs ys : List A) → All P xs → All P ys → All P (xs ++ ys)
  All-append P [] ys h k = k
  All-append P (x ∷ xs) ys h k = (h.0, All-append P xs ys h.1 k)

  pub All-take {κ} : (P : A → Type κ) (n : ℕ) (xs : List A) → All P xs → All P (take n xs)
  All-take P zero xs h = tt
  All-take P (suc n) [] h = tt
  All-take P (suc n) (x ∷ xs) h = (h.0, All-take P n xs h.1)

  pub All-drop {κ} : (P : A → Type κ) (n : ℕ) (xs : List A) → All P xs → All P (drop n xs)
  All-drop P zero xs h = h
  All-drop P (suc n) [] h = tt
  All-drop P (suc n) (x ∷ xs) h = All-drop P n xs h.1

  pub All-slice {κ} : (P : A → Type κ) (xs : List A) (off n : ℕ) → All P xs → All P (slice xs off n)
  All-slice P xs off n h = All-take P n (drop off xs) (All-drop P off xs h)

  pub All-splice {κ} :
      (P : A → Type κ) (xs : List A) (off : ℕ) (ys : List A)
      → All P xs
      → All P ys
      → All P (splice xs off ys)
  All-splice P xs zero [] h k = h
  All-splice P [] zero (y ∷ ys) h k = tt
  All-splice P (x ∷ xs) zero (y ∷ ys) h k = (k.0, All-splice P xs zero ys h.1 k.1)
  All-splice P [] (suc off) ys h k = tt
  All-splice P (x ∷ xs) (suc off) ys h k = (h.0, All-splice P xs off ys h.1 k)

  pub slice-take :
      (k : ℕ) (xs : List A) (off n : ℕ) → off + n ≤ k → slice xs off n ≡ slice (take k xs) off n
  slice-take zero xs zero zero h = refl
  slice-take zero xs zero (suc n) h = absurd (omega arith)
  slice-take zero xs (suc off) n h = absurd (omega arith)
  slice-take (suc k) [] zero n h = refl
  slice-take (suc k) [] (suc off) n h = refl
  slice-take (suc k) (x ∷ xs) zero zero h = refl
  slice-take (suc k) (x ∷ xs) zero (suc n) h =
      ap (λ t. x ∷ t) (slice-take k xs zero n (omega arith))
  slice-take (suc k) (x ∷ xs) (suc off) n h = slice-take k xs off n (omega arith)

  pub drop-add : (n k : ℕ) (xs : List A) → drop (n + k) xs ≡ drop k (drop n xs)
  drop-add zero k xs = ap (λ t. drop t xs) (omega arith)
  drop-add (suc n) zero [] = let e : suc n + zero ≡ suc n = omega arith in rw e
  drop-add (suc n) (suc k) [] = let e : suc n + suc k ≡ suc (n + suc k) = omega arith in rw e
  drop-add (suc n) k (x ∷ xs) =
      let e : suc n + k ≡ suc (n + k) = omega arith in rw (e, drop-add n k xs)

  -- A write does not change what lies before it.
  pub take-splice_before :
      (k : ℕ) (xs : List A) (off : ℕ) (ys : List A)
      → k ≤ off
      → take k (splice xs off ys) ≡ take k xs
  take-splice_before zero xs off ys h = refl
  take-splice_before (suc k) xs zero ys h = absurd (omega arith)
  take-splice_before (suc k) [] (suc off) ys h = refl
  take-splice_before (suc k) (x ∷ xs) (suc off) ys h =
      ap (λ t. x ∷ t) (take-splice_before k xs off ys (omega arith))

  pub slice-splice_before :
      (xs : List A) (off : ℕ) (ys : List A) (i n : ℕ)
      → i + n ≤ off
      → slice (splice xs off ys) i n ≡ slice xs i n
  slice-splice_before xs off ys i n h =
      slice-take off (splice xs off ys) i n h
      ∙ ap (λ t. slice t i n) (take-splice_before off xs off ys (omega arith))
      ∙ sym (slice-take off xs i n h)

  pub get_or-splice_before :
      (xs : List A) (off : ℕ) (ys : List A) (i : ℕ) (d : A)
      → i < off
      → get_or (splice xs off ys) i d ≡ get_or xs i d
  get_or-splice_before xs zero ys i d h = absurd (omega arith)
  get_or-splice_before [] (suc off) ys i d h = refl
  get_or-splice_before (x ∷ xs) (suc off) ys zero d h = refl
  get_or-splice_before (x ∷ xs) (suc off) ys (suc i) d h =
      get_or-splice_before xs off ys i d (omega arith)

  take-nil : (k : ℕ) → take {A = A} k [] ≡ []
  take-nil zero = refl
  take-nil (suc k) = refl

  pub slice-split :
      (xs : List A) (off n k : ℕ)
      → take n (slice xs off (n + k)) ++ slice xs (off + n) k ≡ slice xs off (n + k)
  slice-split xs off n k =
      ap (λ t. take n (slice xs off (n + k)) ++ take k t) (drop-add off n xs)
      ∙ split n (drop off xs)
    where
      split :
          (n : ℕ) (ys : List A) → take n (take (n + k) ys) ++ take k (drop n ys) ≡ take (n + k) ys
      split zero ys = let e : zero + k ≡ k = omega arith in rw e
      split (suc n) [] = let e : suc n + k ≡ suc (n + k) = omega arith in rw (e, take-nil k)
      split (suc n) (y ∷ ys) =
          let e : suc n + k ≡ suc (n + k) = omega arith in rw e (ap (λ t. y ∷ t) (split n ys))
