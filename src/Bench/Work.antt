-- ===== src/Bench/Work.antt =====
-- `run_thread` of src/bin/bench.rs: the work of one thread of the benchmark client.
use lloogg.Prelude.{
  ℕ, zero, suc, ◌+◌, ◌-◌, ◌/◌, ◌%◌, Bool, Option, none, some, List, [], ◌∷◌, ◌++◌, min, max, leb,
  ltb, ◌==◌, if◌then◌else◌, ◌>>=◌, replicate,
}

-- The result of a `read_exact` of five bytes: `lost` are the four kinds of errors that a batch answers
-- with a new connection, `broken` the others.
pub data Reply : Type 0 where
  replied lost broken : Reply

-- What the calls of one thread give: whether the `i`-th `write_all` succeeds, the result of the `i`-th
-- `read_exact`, whether the `i`-th connection is made, and the nanoseconds that the `i`-th measurement
-- shows.
pub record Peer : Type 0 where
  pub write : ℕ → Bool
  pub read : ℕ → Reply
  pub connect : ℕ → Bool
  pub elapsed : ℕ → ℕ

-- How many calls there were, what has been measured, and what the shared counters have gained.
pub record Work : Type 0 where
  pub writes : ℕ
  pub reads : ℕ
  pub connects : ℕ
  pub timers : ℕ
  pub latencies : List ℕ
  pub errors : ℕ
  pub warmup_done : ℕ
  pub measure_done : ℕ

abbrev pub progress_granularity : ℕ
progress_granularity = 256

unfoldable pub idle : Work
idle = record {
  writes = 0;
  reads = 0;
  connects = 0;
  timers = 0;
  latencies = [];
  errors = 0;
  warmup_done = 0;
  measure_done = 0;
}

-- What the `i`-th request adds to a counter of progress.
unfoldable pub granule : ℕ → ℕ
granule i = if i % progress_granularity == 0 then progress_granularity else 0

module _ (peer : Peer) where
  -- `none` is `std::process::exit(1)`.
  unfoldable pub tcp_connect : Work → Option Work
  tcp_connect w =
      if peer.connect w.connects then some (record w { connects = w.connects + 1 }) else none

  -- The requests of the warm-up from the `i`-th on.
  unfoldable pub warm_up : ℕ → ℕ → Work → Work
  unfolding granule
  warm_up i zero w = w
  warm_up i (suc rounds) w =
      let after = record w { writes = w.writes + 1; reads = w.reads + 1 } in
      let rest =
        warm_up (i + 1) rounds (record after { warmup_done = w.warmup_done + granule i }) in
      if peer.write w.writes
      then elim (peer.read w.reads) [ replied ↦ rest | lost ↦ after | broken ↦ after ]
      else record w { writes = w.writes + 1 }

  -- One error, and a new connection.
  unfoldable pub fail_over : Work → Option Work
  unfolding tcp_connect
  fail_over w = tcp_connect (record w { errors = w.errors + 1 })

  -- A latency that is pushed.
  unfoldable pub measured : Work → Work
  measured w = record w {
    timers = w.timers + 1;
    latencies = w.latencies ++ peer.elapsed w.timers ∷ [];
  }

  unfoldable pub marked : ℕ → Work → Work
  unfolding granule
  marked i w = record w { measure_done = w.measure_done + granule i }

  -- The body of the loop without a pipeline.
  unfoldable pub request : ℕ → Work → Option Work
  unfolding fail_over measured marked
  request i w =
      let after = record w { writes = w.writes + 1; reads = w.reads + 1 } in
      if peer.write w.writes
      then elim (peer.read w.reads) [
        | replied ↦ some (marked i (measured after))
        | lost ↦ do w' ← fail_over after; some (marked i w')
        | broken ↦ do w' ← fail_over after; some (marked i w')
      ]
      else fail_over (record w { writes = w.writes + 1 })

  unfoldable pub sequential : ℕ → ℕ → Work → Option Work
  unfolding request
  sequential i zero w = some w
  sequential i (suc rounds) w = do w' ← request i w; sequential (i + 1) rounds w'

  -- The requests of a batch that are still to be sent, and `sent`.
  unfoldable pub send_batch : ℕ → ℕ → Work → Work × ℕ
  send_batch zero sent w = (w, sent)
  send_batch (suc left) sent w =
      let after = record w { writes = w.writes + 1 } in
      let rest = send_batch left (sent + 1) after in
      if peer.write w.writes then rest else (record after { errors = w.errors + 1 }, sent)

  -- The replies that are still to be read, and `received`.
  unfoldable pub receive_batch : ℕ → ℕ → Work → Option (Work × ℕ)
  unfolding fail_over
  receive_batch zero received w = some (w, received)
  receive_batch (suc left) received w =
      let after = record w { reads = w.reads + 1 } in
      let rest = receive_batch left (received + 1) after in
      elim (peer.read w.reads) [
        | replied ↦ rest
        | lost ↦ do w' ← fail_over after; some (w', received)
        | broken ↦ some (record after { errors = w.errors + 1 }, received)
      ]

  -- The latency that each reply of a batch is given.
  unfoldable pub shared_out : ℕ → Work → Work
  shared_out received w =
      if ltb 0 received
      then record w {
        timers = w.timers + 1;
        latencies = w.latencies ++ replicate received (peer.elapsed w.timers / received);
      }
      else w

  -- The loop with a pipeline, from the `i`-th request on. `none` is the exit, or that the fuel ran out.
  unfoldable pub pipelined : ℕ → (pipeline count i : ℕ) → Work → Option Work
  unfolding send_batch receive_batch shared_out
  pipelined zero pipeline count i w = none
  pipelined (suc fuel) pipeline count i w =
      let batch = send_batch (min pipeline (count - i)) 0 w in
      let advance = max batch.1 1 in
      let rest = (do
        got ← receive_batch batch.1 0 batch.0
        let w' = shared_out got.1 got.0
        pipelined fuel pipeline count (i + advance)
            (record w' { measure_done = w'.measure_done + advance })) in
      if ltb i count then rest else some w

  -- The connection, the warm-up, and the measurement.
  unfoldable pub run_thread : (warmup count pipeline : ℕ) → Option Work
  unfolding tcp_connect warm_up sequential pipelined idle
  run_thread warmup count pipeline = do
    w ← tcp_connect idle
    let ready = warm_up 0 warmup w
    let counted = record ready { warmup_done = ready.warmup_done + warmup % progress_granularity }
    if leb pipeline 1
        then sequential 0 count counted
        else pipelined (suc count) pipeline count 0 counted
