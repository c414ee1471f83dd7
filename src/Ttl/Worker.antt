-- ===== src/Ttl/Worker.antt =====
-- `TTLEvictionWorker` of src/ttl.rs: the loop of its thread, its start and its stop.
use lloogg.Prelude.{ℕ, zero, suc, Bool, true, false, Option, none, some, List, [], ◌∷◌}
use lloogg.Constants.{candidates_in_cap, expired_keys_cap}
use lloogg.Ring.{RingBuffer}
use lloogg.HashMap.{HashMap}
use lloogg.Spsc.{SpscQueue, pop}
use lloogg.Ttl.{Candidate, drain_batch, push_candidates}

-- What comes between two loads of `running`: the event loop collects the candidates of `order`, none if
-- it is empty, and pops `taken` times from the other queue. `clock i` is what the `i`-th `now_ns()`
-- returns in the drain behind the load.
pub record Round : Type 0 where
  pub order : HashMap RingBuffer
  pub taken : ℕ
  pub clock : ℕ → ℕ

abbrev pub Queues : Type 0
Queues = SpscQueue Candidate × SpscQueue Candidate

unfoldable pub pops : ℕ → SpscQueue Candidate → SpscQueue Candidate
pops zero q = q
pops (suc n) q = pops n (pop expired_keys_cap q).1

unfoldable pub drained_after : ℕ → Round → Queues → Option Queues
unfolding push_candidates pops drain_batch
drained_after ttl_ns r (candidates_in, expired_out) =
    drain_batch (suc candidates_in_cap) r.clock 0 ttl_ns (push_candidates r.order candidates_in)
      (pops r.taken expired_out)

-- `running` is true at the load behind each of the rounds, and false behind `last`. `none` means that
-- the fuel of a drain ran out.
unfoldable pub eviction_loop : ℕ → List Round → Round → Queues → Option Queues
unfolding drained_after
eviction_loop ttl_ns [] last queues = drained_after ttl_ns last queues
eviction_loop ttl_ns (r ∷ rounds) last queues = elim (drained_after ttl_ns r queues) [
  | none ↦ none
  | some queues' ↦ eviction_loop ttl_ns rounds last queues'
]

-- `thread` says whether there is a thread that has not been joined.
pub record TtlEvictionWorker : Type 0 where
  pub running : Bool
  pub thread : Bool
  pub ttl_ns : ℕ

unfoldable pub new : ℕ → TtlEvictionWorker
new ttl_ns = record { running = true; thread = true; ttl_ns = ttl_ns }

-- The join waits for the whole loop of the thread.
unfoldable pub stop :
    List Round → Round → TtlEvictionWorker → Queues → Option (TtlEvictionWorker × Queues)
unfolding eviction_loop
stop rounds last worker queues = elim worker.thread [
  | false ↦ some (record worker { running = false }, queues)
  | true ↦ elim (eviction_loop worker.ttl_ns rounds last queues) [
    | none ↦ none
    | some queues' ↦ some (record worker { running = false; thread = false }, queues')
  ]
]

unfoldable pub drop_worker :
    List Round → Round → TtlEvictionWorker → Queues → Option (TtlEvictionWorker × Queues)
unfolding stop
drop_worker rounds last worker queues = elim worker.thread [
  | false ↦ some (worker, queues)
  | true ↦ stop rounds last worker queues
]
