-- ===== src/Ttl/Stop.antt =====
-- The end of the worker of src/ttl.rs.
use lloogg.Prelude.{
  Bool-cases, inl, inr, ℕ, zero, suc, ◌<◌, ◌≡◌, refl, ap, ap₂, ◌∙◌, true, false, some, List, [],
  ◌∷◌, ◌++◌, arith, take, drop, result_only,
}
use lloogg.Constants.{candidates_in_cap, expired_keys_cap}
use lloogg.Spsc.{SpscQueue, queued, pop}
use lloogg.Spsc.Fifo.{IsQueue, contents, fifo_pop, pop_fifo, pop-IsQueue}
use lloogg.Ttl.{Candidate, push_candidates}
use lloogg.Ttl.Keep.{push_candidates-IsQueue, drain_batch-IsQueue}
use lloogg.Ttl.Batch.{forwarded, drain_batch_lem}
use lloogg.Ttl.Collect.{candidates, contents-push_candidates}
use lloogg.Ttl.Worker.{
  Round, Queues, pops, drained_after, eviction_loop, TtlEvictionWorker, stop, drop_worker,
}

-- The candidates that one pass checks are those that wait and those that are collected, as far as there
-- is room; it passes on the late ones behind those that the event loop has not taken yet.
abbrev pub passed : ℕ → Round → (waiting out : List Candidate) → List Candidate
passed ttl_ns r waiting out = take expired_keys_cap (
    drop r.taken out
    ++ forwarded r.clock 0 ttl_ns (take candidates_in_cap (waiting ++ candidates r.order)))

-- What all the passes of the worker pass on.
abbrev pub passed_by : ℕ → List Round → Round → (waiting out : List Candidate) → List Candidate
passed_by ttl_ns [] last waiting out = passed ttl_ns last waiting out
passed_by ttl_ns (r ∷ rounds) last waiting out =
    passed_by ttl_ns rounds last [] (passed ttl_ns r waiting out)

fifo_pop-drop : (xs : List Candidate) → (fifo_pop xs).1 ≡ drop 1 xs
fifo_pop-drop [] = refl
fifo_pop-drop (x ∷ xs) = refl

drop-one : (n : ℕ) (xs : List Candidate) → drop n (drop 1 xs) ≡ drop (suc n) xs
drop-one n [] = drop-nil n
  where
    drop-nil : (n : ℕ) → drop {A = Candidate} n [] ≡ []
    drop-nil zero = refl
    drop-nil (suc n) = refl
drop-one n (x ∷ xs) = refl

pops-IsQueue : (n : ℕ) (q : SpscQueue Candidate) → IsQueue 12 q → IsQueue 12 (pops n q)
unfolding pops
pops-IsQueue zero q i = i
pops-IsQueue (suc n) q i = pops-IsQueue n (pop expired_keys_cap q).1 (pop-IsQueue 12 q i)

contents-pops :
    (n : ℕ) (q : SpscQueue Candidate)
    → IsQueue 12 q
    → contents expired_keys_cap (pops n q) ≡ drop n (contents expired_keys_cap q)
unfolding pops
contents-pops zero q i = refl
contents-pops (suc n) q i =
    contents-pops n (pop expired_keys_cap q).1 (pop-IsQueue 12 q i)
    ∙ ap (drop n) (ap (λ p. p.1) (pop_fifo 12 q i) ∙ fifo_pop-drop (contents expired_keys_cap q))
    ∙ drop-one n (contents expired_keys_cap q)

-- A pass ends, and leaves no candidate behind.
pub record Passed (ttl_ns : ℕ) (r : Round) (queues queues' : Queues) : Type 0 where
  pub checked : IsQueue 13 queues'.0
  pub out : IsQueue 12 queues'.1
  pub empty : contents candidates_in_cap queues'.0 ≡ []
  pub passed_eq :
      contents expired_keys_cap queues'.1
      ≡ passed ttl_ns r (contents candidates_in_cap queues.0) (contents expired_keys_cap queues.1)

drained_after_lem :
    (ttl_ns : ℕ) (r : Round) (q o : SpscQueue Candidate)
    → IsQueue 13 q
    → IsQueue 12 o
    → (queues' : Queues) × (drained_after ttl_ns r (q, o) ≡ some queues')
      × Passed ttl_ns r (q, o) queues'
unfolding drained_after
drained_after_lem ttl_ns r q o i j =
    let full = push_candidates r.order q in
    let rest = pops r.taken o in
    let i' : IsQueue 13 full = push_candidates-IsQueue r.order q i in
    let j' : IsQueue 12 rest = pops-IsQueue r.taken o j in
    let enough : queued full < suc candidates_in_cap = omega (arith, i'.room) in
    let (q1, o1, ran, q1-ok, o1-ok) =
      drain_batch-IsQueue (suc candidates_in_cap) r.clock 0 ttl_ns full rest i' j' enough in
    let (empty, all) =
      result_only
        (λ (p : Queues).
          (contents candidates_in_cap p.0 ≡ [])
          × (contents expired_keys_cap p.1
              ≡ take expired_keys_cap (
                  contents expired_keys_cap rest
                  ++ forwarded r.clock 0 ttl_ns (contents candidates_in_cap full))))
        (let (q2, o2, done, none_left, all) =
            drain_batch_lem (suc candidates_in_cap) r.clock ttl_ns full rest i' j' enough in
          ((q2, o2), done, (none_left, all)))
        ran in
    (
      (q1, o1),
      ran,
      record {
        checked = q1-ok;
        out = o1-ok;
        empty = empty;
        passed_eq =
            all
            ∙ ap₂ (λ a b. take expired_keys_cap (a ++ forwarded r.clock 0 ttl_ns b))
                (contents-pops r.taken o j) (contents-push_candidates r.order q i);
      },
    )

eviction_loop_lem :
    (ttl_ns : ℕ) (rounds : List Round) (last : Round) (q o : SpscQueue Candidate)
    → IsQueue 13 q
    → IsQueue 12 o
    → (queues' : Queues) × (eviction_loop ttl_ns rounds last (q, o) ≡ some queues')
      × (contents candidates_in_cap queues'.0 ≡ [])
      × (contents expired_keys_cap queues'.1
          ≡ passed_by ttl_ns rounds last
              (contents candidates_in_cap q)
              (contents expired_keys_cap o))
unfolding eviction_loop
eviction_loop_lem ttl_ns [] last q o i j =
    let (queues', ran, p) = drained_after_lem ttl_ns last q o i j in
    (queues', ran, p.empty, p.passed_eq)
eviction_loop_lem ttl_ns (r ∷ rounds) last q o i j =
    let ((q1, o1), ran, p) = drained_after_lem ttl_ns r q o i j in
    let (queues', ended, empty, all) = eviction_loop_lem ttl_ns rounds last q1 o1 p.checked p.out in
    (
      queues',
      rw (eviction_loop, ran) ended,
      empty,
      all ∙ ap₂ (passed_by ttl_ns rounds last) p.empty p.passed_eq,
    )

-- Stopping the worker ends its thread: whatever the event loop has collected and popped meanwhile, no
-- candidate is left unchecked, and what waits for the event loop are, in order, the candidates that were
-- late when they were checked, as far as there was room. A second stop and the drop at the end of the
-- program change nothing. The thread has not been joined, and the counters of both queues are in step.
pub stop_lem :
    (rounds : List Round) (last : Round) (worker : TtlEvictionWorker) (q o : SpscQueue Candidate)
    → worker.thread ≡ true
    → IsQueue 13 q
    → IsQueue 12 o
    → (worker' : TtlEvictionWorker) × (queues' : Queues) × (stop rounds last worker (q, o)
        ≡ some (worker', queues'))
      × (worker'.running ≡ false)
      × (contents candidates_in_cap queues'.0 ≡ [])
      × (contents expired_keys_cap queues'.1
          ≡ passed_by worker.ttl_ns rounds last
              (contents candidates_in_cap q)
              (contents expired_keys_cap o))
      × (stop rounds last worker' queues' ≡ some (worker', queues'))
      × (drop_worker rounds last worker' queues' ≡ some (worker', queues'))
unfolding stop drop_worker
stop_lem rounds last worker q o alive i j =
    let (queues', ran, empty, all) = eviction_loop_lem worker.ttl_ns rounds last q o i j in
    (
      record worker { running = false; thread = false },
      queues',
      rw (stop, alive, ran),
      refl,
      empty,
      all,
      refl,
      refl,
    )

-- Stopping a worker always comes to an end, also when its thread has been joined before.
pub stop-ends :
    (rounds : List Round) (last : Round) (worker : TtlEvictionWorker) (q o : SpscQueue Candidate)
    → IsQueue 13 q
    → IsQueue 12 o
    → (worker' : TtlEvictionWorker) × (queues' : Queues) × (stop rounds last worker (q, o)
        ≡ some (worker', queues'))
unfolding stop
stop-ends rounds last worker q o i j = elim (Bool-cases worker.thread) [
  | inl alive ↦
      let (worker', queues', ran, stopped, empty, all, again, dropped) =
        stop_lem rounds last worker q o alive i j in
      (worker', queues', ran)
  | inr joined ↦ (record worker { running = false }, (q, o), rw (stop, joined, ← joined) refl)
]
