-- ===== src/Spsc/Counter.antt =====
-- The counters of the queue and the slots that they stand for.
use native.Mathlib.Nat.{
  mod-lt, mod-eq_of_lt, mod-eq-sub-mod, add-mod, mod-add-div', add-mul-mod_self_right, pow-suc,
  mul_assoc,
}
use lloogg.Prelude.{
  ℕ, zero, suc, ◌+◌, ◌-◌, ◌*◌, ◌/◌, ◌%◌, ◌^◌, ◌<◌, ◌≡◌, ◌≢◌, sym, ap, ◌∙◌, inl, inr, arith, leb,
  leb→le, leb→gt, Bool-cases,
}
use lloogg.Spsc.{slot}
use lloogg.Spsc.Mask.{bit_and-mask}

-- Positions that are less than the capacity apart are different slots.
pub mod_apart : (t d c : ℕ) → 0 < d → d < c → (t + d) % c ≢ t % c
mod_apart t d c p h e =
    let r : ℕ = t % c in
    let lt : r < c = mod-lt t {m = c} (omega (arith, h)) in
    let shifted : (t + d) % c ≡ (r + d) % c =
      add-mod t d c ∙ ap (λ x. (r + x) % c) (mod-eq_of_lt h) in
    elim (Bool-cases (leb c (r + d))) [
      | inl over ↦
          let low : (r + d) % c ≡ r + d - c =
            mod-eq-sub-mod (leb→le c (r + d) over) ∙ mod-eq_of_lt (omega (arith, lt, h)) in
          omega (arith, e, shifted, low, p, h, lt, leb→le c (r + d) over)
      | inr under ↦
          let low : (r + d) % c ≡ r + d = mod-eq_of_lt (leb→gt c (r + d) under) in
          omega (arith, e, shifted, low, p)
    ]

pub mod_next : (a b c : ℕ) → a % c ≡ b % c → (a + 1) % c ≡ (b + 1) % c
mod_next a b c e = add-mod a 1 c ∙ ap (λ x. (x + 1 % c) % c) e ∙ sym (add-mod b 1 c)

pub pow_add : (a b : ℕ) → 2 ^ (a + b) ≡ 2 ^ a * 2 ^ b
pow_add zero b = let e : zero + b ≡ b = omega arith in rw e (omega arith)
pow_add (suc a) b =
    let e : suc a + b ≡ suc (a + b) = omega arith in
    rw (e, pow-suc 2 (a + b), pow-suc 2 a, pow_add a b) (twice (2 ^ a) (2 ^ b))
  where
    twice : (x y : ℕ) → x * y * 2 ≡ x * 2 * y
    twice x y = omega arith

-- The wrap-around of a counter does not move its slot.
pub mod_counter : (t k : ℕ) → k < 64 → t % 2 ^ 64 % 2 ^ k ≡ t % 2 ^ k
mod_counter t k h =
    let all : 64 ≡ 64 - k + k = omega (arith, h) in
    let whole : 2 ^ 64 ≡ 2 ^ (64 - k) * 2 ^ k = ap (λ (n : ℕ). 2 ^ n) all ∙ pow_add (64 - k) k in
    let split : t ≡ t % 2 ^ 64 + t / 2 ^ 64 * 2 ^ (64 - k) * 2 ^ k =
      sym (mod-add-div' t (2 ^ 64))
      ∙ ap (λ (n : ℕ). t % 2 ^ 64 + n)
          (ap (λ (n : ℕ). t / 2 ^ 64 * n) whole
            ∙ sym (mul_assoc (t / 2 ^ 64) (2 ^ (64 - k)) (2 ^ k))) in
    sym (
      ap (λ n. n % 2 ^ k) split
      ∙ add-mul-mod_self_right (t % 2 ^ 64) (t / 2 ^ 64 * 2 ^ (64 - k)) (2 ^ k))

pub slot-mask : (x k : ℕ) → slot (2 ^ k) x ≡ x % 2 ^ k
unfolding slot
slot-mask x k = bit_and-mask x k
