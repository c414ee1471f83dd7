-- ===== src/EventLoop/Ahead.antt =====
-- What the interleaved steps of the server change in the store and in the log.
use lloogg.Prelude.{
  none, result_only, ℕ, zero, suc, ◌≡◌, ◌≢◌, refl, sym, ◌∙◌, inl, inr, some, List, [], ◌∷◌, ◌++◌,
  arith, ap, map, append-nil, ◌==◌, Bool-cases, Option-cases, subst,
}
use lloogg.Constants.{expired_keys_cap, wbuf_size, IsCompiledN}
use lloogg.Outcome.{done}
use lloogg.Memory.{Memory}
use lloogg.Store.{Store}
use lloogg.Config.{always}
use lloogg.Aof.{AofWriter, Writes, flush_to, flush_once}
use lloogg.Aof.Log.{log, IsComplete}
use lloogg.Aof.Flush.{log-flush_once}
use lloogg.Aof.Life.{shutdown_lem}
use lloogg.Spsc.{SpscQueue, pop}
use lloogg.Ttl.{Candidate, evict, drain_expired_keys}
use lloogg.EventLoop.{EventLoop, Sockets}
use lloogg.EventLoop.Accept.{accept_one, accept_connections}
use lloogg.Ttl.Worker.{Round}
use lloogg.Ttl.Stop.{stop-ends}
use lloogg.EventLoop.Tick.{
  stop_worker, close_all, Event, drain_phase, collect_phase, fork_phase, handle_event, shutdown,
}
use lloogg.EventLoop.Serving.{IsServing}
use lloogg.EventLoop.Receive.{IsBounded}
use lloogg.EventLoop.Rounds.{ArePosix}
use lloogg.EventLoop.Threads.{
  Step, Steps, here, next, drain, collect, fork, event, flush, batch, Steps-IsServing,
}
use lloogg.EventLoop.Changes.{
  evicted, IsTime, changed, changes_bytes, IsLogged, IsLogged-refl, IsLogged-one, IsLogged-trans,
}
use lloogg.EventLoop.Requests.{event_changes, step_changes, changes_of}
use lloogg.Ttl.Evict.{Popped, at_end, one, Popped-of}
use lloogg.Spsc.Fifo.{IsQueue, contents, pop_fifo, pop-IsQueue, fifo_pop}
use lloogg.EventLoop.Logged.{Logs, LogsIf, handle_read-Logs, handle_write-Logs}

drained-IsLogged :
    (fuel : ℕ) (q : SpscQueue Candidate) (s : Store) (w : AofWriter) (cs : List Candidate)
    {q' : SpscQueue Candidate} {s' : Store}
    → IsQueue 12 q
    → Popped q cs
    → drain_expired_keys fuel q s ≡ some (q', s')
    → IsLogged (map evicted cs) s w s' w
unfolding drain_expired_keys
drained-IsLogged zero q s w cs i p e = absurd (cc e)
drained-IsLogged (suc fuel) q s w [] i (at_end over left) e =
    result_only (λ p. IsLogged [] s w p.1 w)
      (((pop expired_keys_cap q).1, s), rw (drain_expired_keys, over), IsLogged-refl s w) e
drained-IsLogged (suc fuel) q s w (c ∷ cs) i (one took left) e =
    let next : SpscQueue Candidate = (pop expired_keys_cap q).1 in
    let i' : IsQueue 12 next = pop-IsQueue 12 q i in
    IsLogged-trans (IsLogged-one (evicted c) tt refl (sym (append-nil (log w))) refl) (
      drained-IsLogged fuel next (evict s c) w cs i'
        (Popped-of next cs (pop_fifo 12 next i' ∙ ap fifo_pop left))
        (rw (drain_expired_keys, took) at e))

module _ {S : Type 0} where
  accepted-IsLogged :
      (n : ℕ) (fds : List (ℕ × Memory)) (l : EventLoop S)
      → Logs [] l (done (accept_connections n fds l))
  unfolding accept_connections accept_one
  accepted-IsLogged n [] l = IsLogged-refl l.store l.aof
  accepted-IsLogged n ((fd, uninit) ∷ fds) l = accepted-IsLogged n fds (accept_one n uninit fd l)

  drain_phase-IsLogged :
      (l : EventLoop S) {l' : EventLoop S}
      → IsQueue 12 l.expired_out
      → drain_phase l ≡ some l'
      → IsLogged
          (map evicted (contents expired_keys_cap l.expired_out))
          l.store
          l.aof
          l'.store
          l'.aof
  unfolding drain_phase
  drain_phase-IsLogged l i e =
      elim (Option-cases (drain_expired_keys (suc expired_keys_cap) l.expired_out l.store)) [
        | inl no_fuel ↦ absurd (cc (rw (drain_phase, no_fuel) at e))
        | inr ((q', s'), ran) ↦
            result_only
              (λ m.
                IsLogged (map evicted (contents expired_keys_cap l.expired_out)) l.store l.aof
                  m.store m.aof)
              (
                record l { expired_out = q'; store = s' },
                rw (drain_phase, ran),
                drained-IsLogged (suc expired_keys_cap) l.expired_out l.store l.aof
                    (contents expired_keys_cap l.expired_out) i
                    (Popped-of l.expired_out (contents expired_keys_cap l.expired_out)
                      (pop_fifo 12 l.expired_out i))
                    ran,
              )
              e
      ]

  handle_event-Logs :
      {slots : ℕ} (sockets : Sockets S) (n : ℕ) (e : Event) (l : EventLoop S)
      → IsBounded sockets
      → IsTime e.now
      → l.aof.fsync_mode ≢ always
      → IsServing slots n l
      → LogsIf (event_changes sockets e l) l (handle_event sockets n e l)
  unfolding handle_event
  handle_event-Logs sockets n e l b time mode h = elim (Bool-cases (e.fd == l.listen_fd)) [
    | inl listening ↦ rw listening (accepted-IsLogged n e.accepted l)
    | inr other ↦ elim (Bool-cases e.is_readable) [
      | inl reads ↦
          rw (other, reads) (handle_read-Logs n e.writes e.now e.fd time sockets l b mode h)
      | inr no_read ↦ elim (Bool-cases e.is_writable) [
        | inl writes ↦ rw (other, no_read, writes) (handle_write-Logs sockets e.fd l (wbuf_size n))
        | inr no_write ↦ rw (other, no_read, no_write) (IsLogged-refl l.store l.aof)
      ]
    ]
  ]

-- The shutdown of a serving event loop ends, keeps the store, and leaves the whole log in the file.
pub shutdown-ends :
    {S : Type 0} {slots n : ℕ} (rounds : List Round) (last_round : Round) (last sync : Writes)
    (fds : List ℕ) (l : EventLoop S)
    → IsServing slots n l
    → IsComplete last
    → IsComplete sync
    → (end : EventLoop S) × (shutdown rounds last_round last sync fds l ≡ some end)
      × (end.store ≡ l.store)
      × (end.aof.file ≡ log l.aof)
unfolding shutdown stop_worker close_all
shutdown-ends rounds last_round last sync fds l h c0 c1 =
    let file = (shutdown_lem last sync l.aof c0 c1 h.aof).0 in
    elim (Option-cases l.ttl_worker) [
      | inl joined ↦ (close_all last sync fds l, rw (shutdown, joined), refl, file)
      | inr (worker, running) ↦
          let (worker', (q, o), ran) =
            stop-ends rounds last_round worker l.candidates_in l.expired_out h.candidates_in
              h.expired_out in
          (
            close_all last sync fds
                (record l { ttl_worker = none; candidates_in = q; expired_out = o }),
            rw (shutdown, running, ran),
            refl,
            file,
          )
    ]

mode-flush_once :
    (writes : Writes) (w : AofWriter) → (flush_once writes w).fsync_mode ≡ w.fsync_mode
unfolding flush_once flush_to
mode-flush_once writes w = ground arith

module _ {S : Type 0} {sockets : Sockets S} {slots n : ℕ} (c : IsCompiledN n)
    (posix : ArePosix sockets) where
  Step-IsLogged :
      {l l' : EventLoop S}
      → (step : Step sockets n l l') → IsServing slots n l
      → l.aof.fsync_mode ≢ always
      → IsLogged (step_changes step) l.store l.aof l'.store l'.aof
  unfolding collect_phase fork_phase
  Step-IsLogged (drain {l = l} e) h mode = drain_phase-IsLogged l h.expired_out e
  Step-IsLogged (collect {l = l} now order) h mode = IsLogged-refl l.store l.aof
  Step-IsLogged (fork {l = l} now running result) h mode = IsLogged-refl l.store l.aof
  Step-IsLogged (event {l = l} e time ran) h mode =
      subst (LogsIf (event_changes sockets e l) l) ran
        (handle_event-Logs sockets n e l posix.bounded time mode h)
  Step-IsLogged (flush {l = l} writes complete) h mode = record {
    typed = tt;
    changed_eq = refl;
    log_eq = log-flush_once writes l.aof complete h.aof ∙ sym (append-nil (log l.aof));
    mode = mode-flush_once writes l.aof;
  }
  Step-IsLogged (batch {l = l} now ttl_ns e) h mode = IsLogged-refl l.store l.aof

  pub Steps-IsLogged :
      {l l' : EventLoop S}
      → IsServing slots n l
      → l.aof.fsync_mode ≢ always
      → (steps : Steps sockets n l l') → IsLogged (changes_of steps) l.store l.aof l'.store l'.aof
  Steps-IsLogged {l} h mode here = IsLogged-refl l.store l.aof
  Steps-IsLogged h mode (next steps step) =
      let before = Steps-IsLogged h mode steps in
      IsLogged-trans before
        (Step-IsLogged step (Steps-IsServing c posix h steps) (λ e. mode (sym before.mode ∙ e)))

  -- The server leaves no change out of its file, and makes no other: however the event loop, the flush
  -- thread and the eviction worker have taken turns up to the shutdown, the store has changed by exactly
  -- the pushes and the removals that the requests of the steps ask for and the evictions of the
  -- candidates that the worker has handed over, in their order, and the file then holds, behind what the
  -- log held at the start, exactly the entries of those pushes and removals. The shutdown
  -- always comes to an end. The start is a serving state, the file is written by the flush thread, the sockets keep their promises, the clock reads a positive
  -- 64-bit number at each event, and the writes of the flushes are complete.
  pub shutdown-IsLogged :
      {l l' : EventLoop S} (rounds : List Round) (last_round : Round) (last sync : Writes)
      (fds : List ℕ)
      → IsServing slots n l
      → l.aof.fsync_mode ≢ always
      → (steps : Steps sockets n l l') → IsComplete last
      → IsComplete sync
      → (end : EventLoop S) × (shutdown rounds last_round last sync fds l' ≡ some end)
        × (changed (changes_of steps) l.store ≡ some end.store)
        × (end.aof.file ≡ log l.aof ++ changes_bytes (changes_of steps))
  shutdown-IsLogged {l' = l'} rounds last_round last sync fds h mode steps c0 c1 =
      let logged = Steps-IsLogged h mode steps in
      let serving = Steps-IsServing c posix h steps in
      let (end, ran, store_eq, file_eq) =
        shutdown-ends rounds last_round last sync fds l' serving c0 c1 in
      (end, ran, logged.changed_eq ∙ ap some (sym store_eq), file_eq ∙ logged.log_eq)
