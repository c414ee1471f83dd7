-- ===== src/Prelude/Bytes.antt =====
-- `to_le_bytes` and `from_le_bytes` of the unsigned integers of `k` bytes.
use Prim.Native.Nat.{ℕ, zero, suc, ◌+◌, ◌*◌, ◌/◌, ◌%◌, ◌^◌, ◌<◌, ◌≤◌}
use mathlib.Core.Path.{◌≡◌, refl, ap, ap₂, ◌∙◌, subst}
use mathlib.Core.List.{List, [], ◌∷◌}
use native.Mathlib.Omega.{arith}
use native.Mathlib.Nat.{pow-suc}
use lloogg.Prelude.Lists.{length, slice, All, All-slice, length-slice}

abbrev pub to_le : ℕ → ℕ → List ℕ
to_le zero x = []
to_le (suc k) x = x % 256 ∷ to_le k (x / 256)

abbrev pub from_le : List ℕ → ℕ
from_le [] = 0
from_le (b ∷ bs) = b + 256 * from_le bs

abbrev pub IsByte : ℕ → Type 0
IsByte b = b < 256

pub length-to_le : (k x : ℕ) → length (to_le k x) ≡ k
length-to_le zero x = refl
length-to_le (suc k) x = ap suc (length-to_le k (x / 256))

pub to_le-IsByte : (k x : ℕ) → All IsByte (to_le k x)
to_le-IsByte zero x = tt
to_le-IsByte (suc k) x = (omega arith, to_le-IsByte k (x / 256))

pub from_le-to_le : (k x : ℕ) → x < 256 ^ k → from_le (to_le k x) ≡ x
from_le-to_le zero x h = omega arith
from_le-to_le (suc k) x h = omega (arith, from_le-to_le k (x / 256) (omega (arith, pow-suc 256 k)))

pub to_le-from_le : (bs : List ℕ) → All IsByte bs → to_le (length bs) (from_le bs) ≡ bs
to_le-from_le [] h = refl
to_le-from_le (b ∷ bs) h =
    ap₂ ◌∷◌ (omega arith) (ap (to_le (length bs)) quotient ∙ to_le-from_le bs h.1)
  where
    quotient : (b + 256 * from_le bs) / 256 ≡ from_le bs
    quotient = omega arith

pub from_le-lt : (bs : List ℕ) → All IsByte bs → from_le bs < 256 ^ length bs
from_le-lt [] h = omega arith
from_le-lt (b ∷ bs) h = omega (arith, pow-suc 256 (length bs), from_le-lt bs h.1)

-- The number that `k` of the bytes hold.
pub from_le-slice-lt :
    (bs : List ℕ) (off k : ℕ)
    → All IsByte bs
    → off + k ≤ length bs
    → from_le (slice bs off k) < 256 ^ k
from_le-slice-lt bs off k h fits =
    subst (λ n. from_le (slice bs off k) < 256 ^ n) (length-slice bs off k fits)
      (from_le-lt (slice bs off k) (All-slice IsByte bs off k h))
