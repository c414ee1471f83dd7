-- ===== src/Spsc/Mask.antt =====
-- The mask of a power of two and the remainder.
use Prim.Native.Nat.{bit_and, bit_and-bitwise, digits}
use lloogg.Prelude.{ℕ, zero, suc, ◌+◌, ◌-◌, ◌*◌, ◌/◌, ◌%◌, ◌^◌, ◌≤◌, ◌<◌, ◌≡◌, ap, ◌∙◌, arith, min}
use native.Mathlib.Nat.{mod-lt, mod-eq_of_lt, add-mul-mod_self_right, div-add-mod'}

-- The remainder by twice `m`, from that of the half.
mod_double : (x m : ℕ) → 0 < m → x % (m * 2) ≡ x / 2 % m * 2 + x % 2
mod_double x m h =
    let r : ℕ = x / 2 % m * 2 + x % 2 in
    let small : r < m * 2 = omega (arith, mod-lt (x / 2) {m = m} h) in
    let split : x ≡ r + x / 2 / m * (m * 2) = omega (arith, div-add-mod' (x / 2) m) in
    ap (λ t. t % (m * 2)) split ∙ add-mul-mod_self_right r (x / 2 / m) (m * 2) ∙ mod-eq_of_lt small

low_digits : ℕ → ℕ → ℕ → ℕ
low_digits n a b = digits (λ b. zero) min n a b

pow_positive : (k : ℕ) → 0 < 2 ^ k
pow_positive zero = omega arith
pow_positive (suc k) = omega (arith, pow_positive k)

low_digits_mask : (n a k : ℕ) → a ≤ n → low_digits n a (2 ^ k - 1) ≡ a % 2 ^ k
unfolding low_digits
low_digits_mask zero zero k h = omega (arith, pow_positive k)
low_digits_mask zero (suc a) k h = absurd (omega arith)
low_digits_mask (suc n) zero k h = omega (arith, pow_positive k)
low_digits_mask (suc n) (suc a) zero h =
    omega (arith, low_digits_mask n (suc a / 2) 0 (omega arith))
low_digits_mask (suc n) (suc a) (suc k) h =
    let half : (2 ^ suc k - 1) / 2 ≡ 2 ^ k - 1 = omega (arith, pow_positive k) in
    let ones : (2 ^ suc k - 1) % 2 ≡ 1 = omega (arith, pow_positive k) in
    let twice : 2 ^ suc k ≡ 2 ^ k * 2 = omega arith in
    rw (half, ones, twice, mod_double (suc a) (2 ^ k) (pow_positive k))
      (omega (arith, low_digits_mask n (suc a / 2) k (omega arith)))

pub bit_and-mask : (a k : ℕ) → bit_and a (2 ^ k - 1) ≡ a % 2 ^ k
unfolding low_digits
bit_and-mask a k = omega (arith, bit_and-bitwise a (2 ^ k - 1), low_digits_mask a a k (omega arith))
