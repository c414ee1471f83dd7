-- ===== src/Bench/Count.antt =====
-- What one thread of the benchmark client of src/bin/bench.rs counts.
use lloogg.Prelude.{
  ℕ, zero, suc, ◌+◌, ◌%◌, ◌≤◌, ◌≡◌, ◌⊎◌, refl, ap, ◌∙◌, inl, inr, true, some, [], ◌∷◌, leb, length,
  length-append, arith, Bool-cases, if◌then◌else◌,
}
use lloogg.Bench.Work.{
  Reply, replied, lost, broken, Peer, Work, idle, progress_granularity, tcp_connect, warm_up,
  fail_over, measured, marked, request, sequential, pipelined, run_thread,
}

Reply-cases : (r : Reply) → (r ≡ replied) ⊎ ((r ≡ lost) ⊎ (r ≡ broken))
Reply-cases replied = inl refl
Reply-cases lost = inr (inl refl)
Reply-cases broken = inr (inr refl)

-- The number of requests that have been counted, as a latency or as an error.
abbrev pub counted : Work → ℕ
counted w = length w.latencies + w.errors

-- A peer to which every connection is made.
abbrev pub Connects : Peer → Type 0
Connects peer = (i : ℕ) → peer.connect i ≡ true

module _ (peer : Peer) where
  -- The warm-up measures nothing.
  warm_up-keeps :
      (i rounds : ℕ) (w : Work)
      → ((warm_up peer i rounds w).latencies ≡ w.latencies)
        × ((warm_up peer i rounds w).errors ≡ w.errors)
  unfolding warm_up
  warm_up-keeps i zero w = (refl, refl)
  warm_up-keeps i (suc rounds) w = elim (Bool-cases (peer.write w.writes)) [
    | inr no_write ↦ rw (warm_up, no_write) (refl, refl)
    | inl written ↦ elim (Reply-cases (peer.read w.reads)) [
      | inl ok ↦ rw (warm_up, written, ok) (warm_up-keeps (i + 1) rounds _)
      | inr (inl gone) ↦ rw (warm_up, written, gone) (refl, refl)
      | inr (inr other) ↦ rw (warm_up, written, other) (refl, refl)
    ]
  ]

  module _ (connects : Connects peer) where
    fail_over-eq :
        (w : Work)
        → fail_over peer w ≡ some (record w { errors = w.errors + 1; connects = w.connects + 1 })
    unfolding fail_over tcp_connect
    fail_over-eq w = rw (connects w.connects)

    request-counted :
        (i : ℕ) (w : Work)
        → (w' : Work) × (request peer i w ≡ some w') × (counted w' ≡ counted w + 1)
    unfolding request measured marked
    request-counted i w = elim (Bool-cases (peer.write w.writes)) [
      | inr no_write ↦
          rw (request, no_write, fail_over-eq (record w { writes = w.writes + 1 }))
            (_, refl, omega arith)
      | inl written ↦
          let after = record w { writes = w.writes + 1; reads = w.reads + 1 } in
          elim (Reply-cases (peer.read w.reads)) [
            | inl ok ↦
                rw (request, written, ok)
                  (_, refl, omega (arith, length-append w.latencies (peer.elapsed w.timers ∷ [])))
            | inr (inl gone) ↦
                rw (request, written, gone, fail_over-eq after) (_, refl, omega arith)
            | inr (inr other) ↦
                rw (request, written, other, fail_over-eq after) (_, refl, omega arith)
          ]
    ]

    sequential-counted :
        (i rounds : ℕ) (w : Work)
        → (w' : Work) × (sequential peer i rounds w ≡ some w') × (counted w' ≡ counted w + rounds)
    unfolding sequential
    sequential-counted i zero w = (w, refl, omega arith)
    sequential-counted i (suc rounds) w =
        let (w1, ran, one) = request-counted i w in
        let (w', rest, all) = sequential-counted (i + 1) rounds w1 in
        (w', rw (sequential, ran) rest, omega (arith, one, all))

abbrev pub ready : Peer → ℕ → Work
ready peer warmup =
    let w = warm_up peer 0 warmup (record idle { connects = 1 }) in
    record w { warmup_done = w.warmup_done + warmup % progress_granularity }

pub run_thread-ready :
    (peer : Peer) (warmup count pipeline : ℕ)
    → Connects peer
    → run_thread peer warmup count pipeline ≡ (
        if leb pipeline 1
        then sequential peer 0 count (ready peer warmup)
        else pipelined peer (suc count) pipeline count 0 (ready peer warmup))
unfolding run_thread tcp_connect idle
run_thread-ready peer warmup count pipeline connects = rw (run_thread, connects 0)

pub ready-fresh :
    (peer : Peer) (warmup : ℕ)
    → ((ready peer warmup).latencies ≡ []) × ((ready peer warmup).errors ≡ 0)
unfolding idle
ready-fresh peer warmup = warm_up-keeps peer 0 warmup (record idle { connects = 1 })

-- Without a pipeline a thread of the benchmark client counts each of its `count` requests exactly once,
-- as a latency or as an error, whichever of them fail, as long as it can connect again.
pub run_thread-counted :
    (peer : Peer) (warmup count pipeline : ℕ)
    → Connects peer
    → pipeline ≤ 1
    → (w : Work) × (run_thread peer warmup count pipeline ≡ some w) × (counted w ≡ count)
run_thread-counted peer warmup count pipeline connects single =
    let (none_yet, no_error) = ready-fresh peer warmup in
    let (w, ran, all) = sequential-counted peer connects 0 count (ready peer warmup) in
    let alone : leb pipeline 1 ≡ true = ground arith in
    (
      w,
      run_thread-ready peer warmup count pipeline connects ∙ rw alone ran,
      omega (arith, all, ap length none_yet, no_error),
    )
