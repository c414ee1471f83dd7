-- ===== src/EventLoop/Threads.antt =====
-- The server as interleaved steps: the event loop of src/event_loop.rs, the flush thread of src/aof.rs
-- and the worker of src/ttl.rs.
use lloogg.Prelude.{ℕ, ◌⊎◌, inl, inr, suc, ◌≤◌, ◌≡◌, Bool, refl, Option, some, arith, result_only}
use lloogg.Constants.{candidates_in_cap, IsCompiledN}
use lloogg.Outcome.{Outcome, done, waits, panics}
use lloogg.Ring.{RingBuffer}
use lloogg.HashMap.{HashMap}
use lloogg.Store.{Store, len}
use lloogg.Store.View
use lloogg.Aof.{AofWriter, Writes, pending, flush_once}
use lloogg.Aof.Log
use lloogg.Aof.Log.{IsComplete}
use lloogg.Aof.Flush.{flush_once_lem, flush_once-IsValid}
use lloogg.Config.{Config}
use lloogg.Spsc
use lloogg.Spsc.{SpscQueue, queued}
use lloogg.Spsc.Fifo.{IsQueue}
use lloogg.Ttl.{Candidate, drain_batch}
use lloogg.Ttl.Keep.{drain_batch-IsQueue}
use lloogg.EventLoop.{EventLoop, Sockets}
use lloogg.EventLoop.Serving.{IsServing, IsHandled}
use lloogg.EventLoop.Rounds.{ArePosix, handle_event-IsHandled}
use lloogg.EventLoop.Phases.{drain_phase-IsServing, collect_phase-IsServing, fork_phase-IsServing}
use lloogg.EventLoop.Changes.{IsTime}
use lloogg.EventLoop.Tick.{Event, new, drain_phase, collect_phase, fork_phase, handle_event}

module _ {S : Type 0} (sockets : Sockets S) (n : ℕ) where
  -- One step of the event loop, between two of its calls, or of another thread.
  pub data Step : EventLoop S → EventLoop S → Type 0 where
    drain : {l l' : EventLoop S} → drain_phase l ≡ some l' → Step l l'
    collect :
        {l : EventLoop S} (now : ℕ) (order : HashMap RingBuffer)
        → Step l (collect_phase now order l)
    fork :
        {l : EventLoop S} (now : ℕ) (running : ℕ → Bool) (result : Option ℕ)
        → Step l (fork_phase now running result l)
    event :
        {l l' : EventLoop S} (e : Event)
        → IsTime e.now
        → handle_event sockets n e l ≡ some (done l')
        → Step l l'
    flush :
        {l : EventLoop S} (writes : Writes)
        → IsComplete writes
        → Step l (record l { aof = flush_once writes l.aof })
    batch :
        {l : EventLoop S} (now : ℕ → ℕ) (ttl_ns : ℕ) {q r : SpscQueue Candidate}
        → drain_batch (suc candidates_in_cap) now 0 ttl_ns l.candidates_in l.expired_out
          ≡ some (q, r)
        → Step l (record l { candidates_in = q; expired_out = r })

  pub data Steps (l : EventLoop S) : EventLoop S → Type 0 where
    here : Steps l l
    next : {l' l'' : EventLoop S} → Steps l l' → Step l' l'' → Steps l l''

-- The event loop as it is built, with a valid store and a valid writer.
pub new-IsServing :
    {S : Type 0} {slots n : ℕ} (epoll_fd : ℕ) (uninit : ℕ → Candidate) (net : S) (config : Config)
    (store : Store) (aof : AofWriter) (listen_fd : ℕ)
    → View.IsValid slots store
    → store.capacity ≡ n
    → Log.IsValid aof
    → (l : EventLoop S) × (new (some epoll_fd) uninit net config store aof listen_fd ≡ some l)
      × IsServing slots n l
      × (l.store ≡ store)
unfolding new Spsc.new queued
new-IsServing epoll_fd uninit net config store aof listen_fd v same ring = (
  _,
  refl,
  record {
    store = v;
    capacity = same;
    aof = ring;
    connections = tt;
    candidates_in = record {
      small = omega arith;
      head = omega arith;
      tail = omega arith;
      room = omega arith;
    };
    expired_out = record {
      small = omega arith;
      head = omega arith;
      tail = omega arith;
      room = omega arith;
    };
  },
  refl,
)

module _ {S : Type 0} (sockets : Sockets S) (slots n : ℕ) where
  -- The handler of an event ends, without a wait.
  abbrev pub GoesOn : Event → EventLoop S → Type 0
  GoesOn e l =
      ((l' : EventLoop S) × (handle_event sockets n e l ≡ some (done l')) × IsServing slots n l')
      ⊎ ((handle_event sockets n e l ≡ some panics) × (slots ≤ len l.store))

  goes_on :
      (e : Event) (l : EventLoop S) (o : Outcome (EventLoop S))
      → pending l.aof ≡ 0
      → handle_event sockets n e l ≡ some o
      → IsHandled slots n l o
      → GoesOn e l
  goes_on e l (done l') flushed ran k = inl (l', ran, k)
  goes_on e l waits flushed ran k = absurd (omega (arith, flushed, k))
  goes_on e l panics flushed ran k = inr (ran, k)

module _ {S : Type 0} {sockets : Sockets S} {slots n : ℕ} (c : IsCompiledN n)
    (posix : ArePosix sockets) where
  Step-IsServing :
      {l l' : EventLoop S} → Step sockets n l l' → IsServing slots n l → IsServing slots n l'
  Step-IsServing (drain {l = l} e) h = result_only (IsServing slots n) (drain_phase-IsServing l h) e
  Step-IsServing (collect {l = l} now order) h = collect_phase-IsServing now order l h
  Step-IsServing (fork {l = l} now running result) h = fork_phase-IsServing now running result l h
  Step-IsServing (event {l = l} e time ran) h =
      result_only (IsHandled slots n l) (handle_event-IsHandled c sockets posix e l h) ran
  Step-IsServing (flush {l = l} writes complete) h = record {
    store = h.store;
    capacity = h.capacity;
    aof = flush_once-IsValid writes l.aof complete h.aof;
    connections = h.connections;
    candidates_in = h.candidates_in;
    expired_out = h.expired_out;
  }
  Step-IsServing (batch {l = l} now ttl_ns e) h =
      let (q', r', ran, i, j) =
        drain_batch-IsQueue (suc candidates_in_cap) now 0 ttl_ns l.candidates_in l.expired_out
          h.candidates_in h.expired_out (omega (arith, h.candidates_in.room)) in
      let (q, r) = result_only (λ p. IsQueue 13 p.0 × IsQueue 12 p.1) ((q', r'), ran, (i, j)) e in
      record {
        store = h.store;
        capacity = h.capacity;
        aof = h.aof;
        connections = h.connections;
        candidates_in = q;
        expired_out = r;
      }

  -- Every state that the server reaches from a serving one, however the event loop, the flush thread and
  -- the eviction worker take turns, is serving: the store is valid, the counters of the ring and of both
  -- queues are in step, and every connection holds what its state asks for, its response inside its
  -- buffer. The sockets keep their promises, the clock reads a positive 64-bit number at each event, and
  -- the writes of the flush thread are complete.
  pub Steps-IsServing :
      {l l' : EventLoop S} → IsServing slots n l → Steps sockets n l l' → IsServing slots n l'
  Steps-IsServing h here = h
  Steps-IsServing h (next steps step) = Step-IsServing step (Steps-IsServing h steps)

  -- A handler that waits for room in the ring does not wait for ever: in a serving state, behind a flush
  -- whose writes are complete, the handler of every event returns, within its fuel, in a serving state, or
  -- panics because a new user finds no slot.
  pub flush-GoesOn :
      (writes : Writes) (e : Event) (l : EventLoop S)
      → IsComplete writes
      → IsServing slots n l
      → GoesOn sockets slots n e (record l { aof = flush_once writes l.aof })
  flush-GoesOn writes e l complete h =
      let flushed : EventLoop S = record l { aof = flush_once writes l.aof } in
      let h' : IsServing slots n flushed = Step-IsServing (flush writes complete) h in
      let (o, ran, k) = handle_event-IsHandled c sockets posix e flushed h' in
      goes_on sockets slots n e flushed o (flush_once_lem writes l.aof complete h.aof).1 ran k
