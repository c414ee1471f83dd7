-- ===== src/Bench/Answered.antt =====
-- A thread of the benchmark client of src/bin/bench.rs against a server that answers.
use lloogg.Prelude.{
  ℕ, zero, suc, ◌+◌, ◌-◌, ◌/◌, ◌≤◌, ◌<◌, ◌≡◌, refl, ap, ◌∙◌, inl, inr, true, some, [], ◌∷◌, min,
  max, leb, ltb, length, length-append, arith, Bool-cases, replicate, leb→gt, ltb→ge, ltb→lt,
}
use lloogg.Bench.Work.{
  replied, Peer, Work, measured, marked, request, sequential, send_batch, receive_batch, shared_out,
  pipelined, run_thread,
}
use lloogg.Bench.Count.{Connects, ready, run_thread-ready, ready-fresh}

length-replicate : (n x : ℕ) → length (replicate n x) ≡ n
length-replicate zero x = refl
length-replicate (suc n) x = ap suc (length-replicate n x)

-- A peer that takes every request and answers it.
pub record Answers (peer : Peer) : Type 0 where
  pub connects : Connects peer
  pub takes : (i : ℕ) → peer.write i ≡ true
  pub answers : (i : ℕ) → peer.read i ≡ replied

module _ (peer : Peer) where
  -- One round of the loop with a pipeline, from its parts.
  pipelined-next :
      (fuel pipeline count i n : ℕ) (w w1 w2 : Work)
      → ltb i count ≡ true
      → 1 ≤ n
      → send_batch peer (min pipeline (count - i)) 0 w ≡ (w1, n)
      → receive_batch peer n 0 w1 ≡ some (w2, n)
      → pipelined peer (suc fuel) pipeline count i w
        ≡ pipelined peer fuel pipeline count (i + n) (record (shared_out peer n w2) {
          measure_done = (shared_out peer n w2).measure_done + n;
        })
  unfolding pipelined
  pipelined-next fuel pipeline count i n w w1 w2 more some_sent sent got =
      let advance : max n 1 ≡ n = omega arith in rw (pipelined, more, sent, got, advance)

  module _ (a : Answers peer) where
    sequential-answered :
        (i rounds : ℕ) (w : Work)
        → (w' : Work) × (sequential peer i rounds w ≡ some w')
          × (length w'.latencies ≡ length w.latencies + rounds)
          × (w'.errors ≡ w.errors)
    unfolding sequential request measured marked
    sequential-answered i zero w = (w, refl, omega arith, refl)
    sequential-answered i (suc rounds) w =
        let w1 =
          marked peer i (measured peer (record w { writes = w.writes + 1; reads = w.reads + 1 })) in
        let (w', rest, all, none_new) = sequential-answered (i + 1) rounds w1 in
        (
          w',
          rw (sequential, request, a.takes w.writes, a.answers w.reads) rest,
          omega (arith, all, length-append w.latencies (peer.elapsed w.timers ∷ [])),
          none_new,
        )

    send_batch-answered :
        (left sent : ℕ) (w : Work)
        → (w' : Work) × (send_batch peer left sent w ≡ (w', sent + left))
          × (w'.latencies ≡ w.latencies)
          × (w'.errors ≡ w.errors)
    unfolding send_batch
    send_batch-answered zero sent w = (w, ap (λ n. (w, n)) (omega arith), refl, refl)
    send_batch-answered (suc left) sent w =
        let (w', rest, same, none_new) =
          send_batch-answered left (sent + 1) (record w { writes = w.writes + 1 }) in
        (
          w',
          rw (send_batch, a.takes w.writes) (rest ∙ ap (λ n. (w', n)) (omega arith)),
          same,
          none_new,
        )

    receive_batch-answered :
        (left received : ℕ) (w : Work)
        → (w' : Work) × (receive_batch peer left received w ≡ some (w', received + left))
          × (w'.latencies ≡ w.latencies)
          × (w'.errors ≡ w.errors)
    unfolding receive_batch
    receive_batch-answered zero received w = (w, ap (λ n. some (w, n)) (omega arith), refl, refl)
    receive_batch-answered (suc left) received w =
        let (w', rest, same, none_new) =
          receive_batch-answered left (received + 1) (record w { reads = w.reads + 1 }) in
        (
          w',
          rw (receive_batch, a.answers w.reads) (rest ∙ ap (λ n. some (w', n)) (omega arith)),
          same,
          none_new,
        )

    shared_out-length :
        (received : ℕ) (w : Work)
        → (length (shared_out peer received w).latencies ≡ length w.latencies + received)
          × ((shared_out peer received w).errors ≡ w.errors)
    unfolding shared_out
    shared_out-length received w = elim (Bool-cases (ltb 0 received)) [
      | inl some_more ↦
          let one = peer.elapsed w.timers / received in
          rw (shared_out, some_more)
            (
              omega (
                arith,
                length-append w.latencies (replicate received one),
                length-replicate received one,
              ),
              refl,
            )
      | inr none_new ↦ rw (shared_out, none_new) (omega (arith, ltb→ge 0 received none_new), refl)
    ]

    pipelined-answered :
        (fuel pipeline count i : ℕ) (w : Work)
        → 1 ≤ pipeline
        → i ≤ count
        → count - i < fuel
        → (w' : Work) × (pipelined peer fuel pipeline count i w ≡ some w')
          × (length w'.latencies ≡ length w.latencies + (count - i))
          × (w'.errors ≡ w.errors)
    unfolding pipelined
    pipelined-answered zero pipeline count i w p inside enough = absurd (omega arith)
    pipelined-answered (suc fuel) pipeline count i w p inside enough =
        elim (Bool-cases (ltb i count)) [
          | inr over ↦ (w, rw (pipelined, over), omega (arith, ltb→ge i count over), refl)
          | inl more ↦
              let n = min pipeline (count - i) in
              let less : i < count = ltb→lt i count more in
              let (w1, sent, same1, none1) = send_batch-answered n 0 w in
              let (w2, got, same2, none2) = receive_batch-answered n 0 w1 in
              let w3 = shared_out peer n w2 in
              let (longer, none3) = shared_out-length n w2 in
              let (w', rest, all, none4) =
                pipelined-answered fuel pipeline count (i + n)
                  (record w3 { measure_done = w3.measure_done + n }) p (omega arith)
                  (omega arith) in
              (
                w',
                pipelined-next fuel pipeline count i n w w1 w2 more (omega arith)
                      (sent ∙ ap (λ k. (w1, k)) (omega arith))
                      (got ∙ ap (λ k. some (w2, k)) (omega arith))
                    ∙ rest,
                omega (arith, all, longer, ap length same1, ap length same2),
                none4 ∙ none3 ∙ none2 ∙ none1,
              )
        ]

-- Against a server that takes and answers every request, a thread of the benchmark client ends and
-- reports exactly `count` latencies and no error, whatever the length of the pipeline and of the warm-up.
pub run_thread-answered :
    (peer : Peer) (warmup count pipeline : ℕ)
    → Answers peer
    → (w : Work) × (run_thread peer warmup count pipeline ≡ some w)
      × (length w.latencies ≡ count)
      × (w.errors ≡ 0)
run_thread-answered peer warmup count pipeline a =
    let start = run_thread-ready peer warmup count pipeline a.connects in
    let (none_yet, no_error) = ready-fresh peer warmup in
    elim (Bool-cases (leb pipeline 1)) [
      | inl single ↦
          let (w, ran, all, same) = sequential-answered peer a 0 count (ready peer warmup) in
          (w, start ∙ rw single ran, omega (arith, all, ap length none_yet), same ∙ no_error)
      | inr batches ↦
          let (w, ran, all, same) =
            pipelined-answered peer a (suc count) pipeline count 0 (ready peer warmup)
              (omega (arith, leb→gt pipeline 1 batches)) (omega arith) (omega arith) in
          (w, start ∙ rw batches ran, omega (arith, all, ap length none_yet), same ∙ no_error)
    ]
