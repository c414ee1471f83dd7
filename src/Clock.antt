-- ===== src/Clock.antt =====
-- src/time.rs: the time in nanoseconds.
use lloogg.Prelude.{
  ℕ, ◌+◌, ◌*◌, ◌%◌, ◌^◌, ◌<◌, ◌≡◌, ◌↔◌, ◌⊎◌, ap, Option, none, some, ◌==◌, if◌then◌else◌, arith,
}

-- What `clock_gettime` fills in; `tv_sec` is its two's complement as `u64`.
pub record Timespec : Type 0 where
  pub tv_sec : ℕ
  pub tv_nsec : ℕ

-- `ret` is what `clock_gettime` returned; `none` where the assertion fails.
unfoldable pub now_ns : (ret : ℕ) → Timespec → Option ℕ
now_ns ret ts =
    if ret == 0 then some ((ts.tv_sec * 1_000_000_000 % 2 ^ 64 + ts.tv_nsec) % 2 ^ 64) else none

-- What the clock promises up to the year 2554, where the nanoseconds leave 64 bits.
pub record IsTime (ts : Timespec) : Type 0 where
  pub nanos : ts.tv_nsec < 1_000_000_000
  pub range : ts.tv_sec < 18_446_744_073

now_ns-whole : (a : Timespec) → IsTime a → now_ns 0 a ≡ some (a.tv_sec * 1_000_000_000 + a.tv_nsec)
unfolding now_ns
now_ns-whole a t = ap some (omega (arith, t.nanos, t.range))

-- The number orders two readings as their seconds and nanoseconds do, and is a 64-bit one: no
-- carry is lost.
pub now_ns-order :
    (a b : Timespec) {m n : ℕ}
    → IsTime a
    → IsTime b
    → now_ns 0 a ≡ some m
    → now_ns 0 b ≡ some n
    → (m < 2 ^ 64)
      × ((m < n) ↔ ((a.tv_sec < b.tv_sec) ⊎ ((a.tv_sec ≡ b.tv_sec) × (a.tv_nsec < b.tv_nsec))))
now_ns-order a b {m} {n} s t e f =
    let m_eq : m ≡ a.tv_sec * 1_000_000_000 + a.tv_nsec = ground (arith, now_ns-whole a s, e) in
    let n_eq : n ≡ b.tv_sec * 1_000_000_000 + b.tv_nsec = ground (arith, now_ns-whole b t, f) in
    (
      omega (arith, m_eq, s.nanos, s.range),
      (
        λ h. omega (arith, h, m_eq, n_eq, s.nanos, t.nanos),
        λ h. omega (arith, h, m_eq, n_eq, s.nanos, t.nanos),
      ),
    )
