-- ===== src/Spsc.antt =====
-- src/spsc.rs: the bounded queue between one producer and one consumer.
pub mod Mask
pub mod Counter
pub mod Fifo
use Prim.Native.Nat.{bit_and}
use lloogg.Prelude.{
  ℕ, ◌+◌, ◌-◌, ◌%◌, ◌^◌, Bool, true, false, Option, none, some, leb, ◌==◌, if◌then◌else◌,
}

-- `buf` is read and written below the capacity.
pub record SpscQueue (A : Type 0) : Type 0 where
  pub buf : ℕ → A
  pub head : ℕ
  pub tail : ℕ

-- `(x as usize) & (CAP - 1)`
unfoldable pub slot : ℕ → ℕ → ℕ
slot cap x = bit_and x (cap - 1)

module _ {A : Type 0} where
  -- `uninit` is what the slots of the new queue happen to hold.
  unfoldable pub new : (ℕ → A) → SpscQueue A
  new uninit = record { buf = uninit; head = 0; tail = 0 }

  -- `head.wrapping_sub(tail)`
  unfoldable pub queued : SpscQueue A → ℕ
  queued q = (q.head + 2 ^ 64 - q.tail) % 2 ^ 64

  unfoldable pub push : ℕ → SpscQueue A → A → Bool × SpscQueue A
  unfolding queued slot
  push cap q item = if leb cap (queued q) then (false, q) else (
    true,
    record q {
      buf = λ x. if x == slot cap q.head then item else q.buf x;
      head = (q.head + 1) % 2 ^ 64;
    },
  )

  unfoldable pub pop : ℕ → SpscQueue A → Option A × SpscQueue A
  unfolding slot
  pop cap q =
      if q.tail == q.head
      then (none, q)
      else (some (q.buf (slot cap q.tail)), record q { tail = (q.tail + 1) % 2 ^ 64 })

  unfoldable pub is_empty : SpscQueue A → Bool
  is_empty q = q.tail == q.head
