-- ===== src/Tests/Eviction.antt =====
-- A batch of candidates, and a round of eviction at a store with one late user.
use lloogg.Prelude.{◌∷◌, false, ℕ, suc, ◌*◌, ◌<◌, ◌≡◌, refl, some, [], arith}
use lloogg.Constants.{candidates_in_cap, expired_keys_cap}
use lloogg.Store.{Store}
use lloogg.Store.View.{IsValid, view}
use lloogg.Spsc.{SpscQueue, queued}
use lloogg.Spsc.Fifo.{IsQueue, contents}
use lloogg.Ttl.{Candidate, drain_batch, drain_expired_keys, collect_ttl_candidates}
use lloogg.Ttl.Round.{unless_expired, ttl_round_lem}
use lloogg.Ttl.Worker.{Round, Queues, TtlEvictionWorker, new as new_worker, stop, drop_worker}
use lloogg.Ttl.Stop.{passed_by, stop_lem}
use lloogg.Tests.Restart.{one_pushed, one_pushed-HasLogs, own_order, len-one_pushed}
use lloogg.Tests.Server.{no_candidates, no_candidates-IsQueue}

abbrev two_candidates : SpscQueue Candidate
two_candidates = record {
  buf = λ i. record { uid = i; last_write_ts = 40 * i };
  head = 2;
  tail = 0;
}

two_candidates-IsQueue : IsQueue 13 two_candidates
unfolding queued
two_candidates-IsQueue = record {
  small = omega arith;
  head = omega arith;
  tail = omega arith;
  room = omega arith;
}

two_queued : queued two_candidates < 3
unfolding queued
two_queued = omega arith

empty_in : contents candidates_in_cap no_candidates ≡ []
unfolding queued
empty_in = refl

empty_out : contents expired_keys_cap no_candidates ≡ []
unfolding queued
empty_out = refl

ttl_round_example :
    (q' r' r'' : SpscQueue Candidate) × (s' : Store) × (drain_batch
        (suc candidates_in_cap)
        (λ i. 100)
        0
        50
        (collect_ttl_candidates 20_000_000_000 0 one_pushed.map_of no_candidates).0
        no_candidates
      ≡ some (q', r'))
    × (drain_expired_keys (suc expired_keys_cap) r' one_pushed ≡ some (r'', s'))
    × IsValid 2 s'
    × ((u : ℕ) → view s' u ≡ unless_expired 50 100 (view one_pushed u))
ttl_round_example =
    ttl_round_lem one_pushed one_pushed.map_of 20_000_000_000 0 100 50 no_candidates no_candidates
      one_pushed-HasLogs.valid own_order (no_candidates-IsQueue 13 (omega arith))
      (no_candidates-IsQueue 12 (omega arith)) empty_in empty_out (omega (arith, len-one_pushed))
      (omega arith) (omega arith)

-- The event loop collects once more between two passes, and takes one candidate before the last.
abbrev first_round : Round
first_round = record { order = one_pushed.map_of; taken = 0; clock = λ i. 60 }

abbrev last_round : Round
last_round = record { order = []; taken = 1; clock = λ i. 70 }

stop_example :
    (worker' : TtlEvictionWorker) × (queues' : Queues) × (stop
        (first_round ∷ [])
        last_round
        (new_worker 30)
        (two_candidates, no_candidates)
      ≡ some (worker', queues'))
    × (worker'.running ≡ false)
    × (contents candidates_in_cap queues'.0 ≡ [])
    × (contents expired_keys_cap queues'.1
        ≡ passed_by 30
            (first_round ∷ [])
            last_round
            (contents candidates_in_cap two_candidates)
            (contents expired_keys_cap no_candidates))
    × (stop (first_round ∷ []) last_round worker' queues' ≡ some (worker', queues'))
    × (drop_worker (first_round ∷ []) last_round worker' queues' ≡ some (worker', queues'))
unfolding new_worker
stop_example =
    stop_lem (first_round ∷ []) last_round (new_worker 30) two_candidates no_candidates refl
      two_candidates-IsQueue (no_candidates-IsQueue 12 (omega arith))
