-- ===== src/Ttl.antt =====
-- src/ttl.rs, and the eviction in src/event_loop.rs.
pub mod Evict
pub mod Keep
pub mod Batch
pub mod Collect
pub mod Round
pub mod Worker
pub mod Stop
use lloogg.Prelude.{
  ℕ, zero, suc, ◌+◌, ◌-◌, ◌*◌, ◌^◌, ◌%◌, Option, none, some, List, [], ◌∷◌, ltb, ◌==◌,
  if◌then◌else◌,
}
use lloogg.Constants.{candidates_in_cap, expired_keys_cap, ttl_collect_interval_s}
use lloogg.Ring.{RingBuffer}
use lloogg.HashMap.{HashMap}
use lloogg.Store.{Store, get, erase}
use lloogg.Spsc.{SpscQueue, push, pop}

pub record Candidate : Type 0 where
  pub uid : ℕ
  pub last_write_ts : ℕ

-- The loop of `drain_batch` with no push in between; `now i` is what the `i`-th `now_ns()` returns.
-- `none` means that the fuel ran out.
unfoldable pub drain_batch :
    ℕ
    → (now : ℕ → ℕ) → ℕ
    → (ttl_ns : ℕ) → (candidates_in expired_out : SpscQueue Candidate)
    → Option (SpscQueue Candidate × SpscQueue Candidate)
drain_batch zero now i ttl_ns candidates_in expired_out = none
drain_batch (suc fuel) now i ttl_ns candidates_in expired_out =
    let popped = pop candidates_in_cap candidates_in in
    elim popped.0 [
      | none ↦ some (popped.1, expired_out)
      | some c ↦ drain_batch fuel now (i + 1) ttl_ns popped.1 (
          if ltb ttl_ns (now i - c.last_write_ts)
          then (push expired_keys_cap expired_out c).1
          else expired_out)
    ]

-- The body of the loop of `drain_expired_keys`.
unfoldable pub evict : Store → Candidate → Store
evict store c = elim (get store c.uid) [
  | none ↦ store
  | some buf ↦ if buf.last_write_ts == c.last_write_ts then erase store c.uid else store
]

-- The loop of `drain_expired_keys` with no push in between. `none` means that the fuel ran out.
unfoldable pub drain_expired_keys :
    ℕ → SpscQueue Candidate → Store → Option (SpscQueue Candidate × Store)
unfolding evict
drain_expired_keys zero expired_out store = none
drain_expired_keys (suc fuel) expired_out store =
    let popped = pop expired_keys_cap expired_out in
    elim popped.0 [
      | none ↦ some (popped.1, store)
      | some c ↦ drain_expired_keys fuel popped.1 (evict store c)
    ]

-- The iteration of `for_each` over the entries, in the order of the list.
unfoldable pub push_candidates : HashMap RingBuffer → SpscQueue Candidate → SpscQueue Candidate
push_candidates [] candidates_in = candidates_in
push_candidates ((uid, buf) ∷ entries) candidates_in =
    push_candidates entries
      (push candidates_in_cap candidates_in
        (record { uid = uid; last_write_ts = buf.last_write_ts })).1

-- `order` are the entries of the store's map in the order of the iteration. The result is the queue and
-- `last_ttl_collect`.
unfoldable pub collect_ttl_candidates :
    (now last_ttl_collect : ℕ) (order : HashMap RingBuffer)
    → SpscQueue Candidate
    → SpscQueue Candidate × ℕ
unfolding push_candidates
collect_ttl_candidates now last_ttl_collect order candidates_in =
    if ltb ((now + 2 ^ 64 - last_ttl_collect) % 2 ^ 64) (ttl_collect_interval_s * 1_000_000_000)
    then (candidates_in, last_ttl_collect)
    else (push_candidates order candidates_in, now)
