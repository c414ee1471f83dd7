-- ===== src/Store/Separate.antt =====
-- Lists of slots that lie apart from each other.
use lloogg.Prelude.{ℕ, List, [], ◌∷◌, ◌++◌, arith, All}
use lloogg.MemoryPool.Chain.{IsApart, AreSeparate}

pub All-middle {κ} :
    (P : ℕ → Type κ) (xs ys : List ℕ) (y : ℕ) → All P (xs ++ ys) → P y → All P (xs ++ y ∷ ys)
All-middle P [] ys y h k = (k, h)
All-middle P (x ∷ xs) ys y h k = (h.0, All-middle P xs ys y h.1 k)

pub All-middle_inv {κ} :
    (P : ℕ → Type κ) (xs ys : List ℕ) (y : ℕ) → All P (xs ++ y ∷ ys) → P y × All P (xs ++ ys)
All-middle_inv P [] ys y h = h
All-middle_inv P (x ∷ xs) ys y h = let (k, rest) = All-middle_inv P xs ys y h.1 in (k, (h.0, rest))

pub IsApart-sym : (size p q : ℕ) → IsApart size p q → IsApart size q p
IsApart-sym size p q h = omega arith

-- An element may stand anywhere in a list of separate slots.
pub AreSeparate-middle :
    (size : ℕ) (xs ys : List ℕ) (y : ℕ)
    → All (IsApart size y) (xs ++ ys)
    → AreSeparate size (xs ++ ys)
    → AreSeparate size (xs ++ y ∷ ys)
AreSeparate-middle size [] ys y a s = (a, s)
AreSeparate-middle size (x ∷ xs) ys y a s = (
  All-middle (IsApart size x) xs ys y s.0 (IsApart-sym size y x a.0),
  AreSeparate-middle size xs ys y a.1 s.1,
)

pub AreSeparate-middle_inv :
    (size : ℕ) (xs ys : List ℕ) (y : ℕ)
    → AreSeparate size (xs ++ y ∷ ys)
    → All (IsApart size y) (xs ++ ys) × AreSeparate size (xs ++ ys)
AreSeparate-middle_inv size [] ys y s = s
AreSeparate-middle_inv size (x ∷ xs) ys y s =
    let (a, rest) = AreSeparate-middle_inv size xs ys y s.1 in
    let (xy, xrest) = All-middle_inv (IsApart size x) xs ys y s.0 in
    ((IsApart-sym size x y xy, a), (xrest, rest))

pub All-append-left {κ} : (P : ℕ → Type κ) (xs ys : List ℕ) → All P (xs ++ ys) → All P xs
All-append-left P [] ys h = tt
All-append-left P (x ∷ xs) ys h = (h.0, All-append-left P xs ys h.1)

pub All-append-right {κ} : (P : ℕ → Type κ) (xs ys : List ℕ) → All P (xs ++ ys) → All P ys
All-append-right P [] ys h = h
All-append-right P (x ∷ xs) ys h = All-append-right P xs ys h.1
