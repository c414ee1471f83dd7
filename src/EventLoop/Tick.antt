-- ===== src/EventLoop/Tick.antt =====
-- `run`: the start, the rounds and the end of the event loop.
use lloogg.Prelude.{
  ℕ, suc, ◌*◌, ◌^◌, ◌%◌, Bool, Option, none, some, List, [], ◌∷◌, ◌++◌, map, ◌==◌, if◌then◌else◌,
  ◌>>=◌,
}
use lloogg.Constants.{expired_keys_cap, wbuf_size}
use lloogg.Outcome.{Outcome, done, waits, panics}
use lloogg.Memory.{Memory}
use lloogg.HashMap.{HashMap}
use lloogg.Ring.{RingBuffer}
use lloogg.Store.{Store}
use lloogg.Aof.{AofWriter, Writes}
use lloogg.Aof.Life
use lloogg.Config.{Config}
use lloogg.Spsc
use lloogg.Snapshot.Manager
use lloogg.Snapshot.Manager.{maybe_fork}
use lloogg.Ttl.Worker
use lloogg.Ttl.Worker.{Round, stop}
use lloogg.Ttl.{Candidate, drain_expired_keys, collect_ttl_candidates}
use lloogg.EventLoop.{EventLoop, Sockets, epoll_add, close, dump, readable}
use lloogg.EventLoop.Accept.{accept_connections}
use lloogg.EventLoop.Handlers.{handle_read, handle_write}

-- What a round takes from outside for one event of `epoll_wait`: its descriptor and whether EPOLLIN and
-- EPOLLOUT are set, and the results of the calls that its handler makes.
pub record Event : Type 0 where
  pub fd : ℕ
  pub is_readable : Bool
  pub is_writable : Bool
  pub accepted : List (ℕ × Memory)
  pub now : ℕ
  pub writes : Writes

-- What a round takes from outside: the times, the order of the iteration over the store's map, the
-- results of `waitpid` and `fork`, and the events.
pub record Tick : Type 0 where
  pub collect_now : ℕ
  pub order : HashMap RingBuffer
  pub fork_now : ℕ
  pub running : ℕ → Bool
  pub fork : Option ℕ
  pub events : List Event

module _ {S : Type 0} where
  -- `epoll` is the result of `epoll_create1`, `none` an error, at which the assertion fails. The slots of
  -- the new queues hold `uninit`. The TTL in nanoseconds is a `u64`, and its product is not checked.
  unfoldable pub new :
      Option ℕ → (ℕ → Candidate) → S → Config → Store → AofWriter → ℕ → Option (EventLoop S)
  unfolding Spsc.new Manager.new Worker.new
  new epoll uninit net config store aof listen_fd = do
    epoll_fd ← epoll
    some (record {
      store = store;
      aof = aof;
      connections = [];
      config = config;
      snapshot = Manager.new config.snapshot_path;
      epoll_fd = epoll_fd;
      listen_fd = listen_fd;
      ttl_worker = some (Worker.new (config.ttl_seconds * 1_000_000_000 % 2 ^ 64));
      candidates_in = Spsc.new uninit;
      expired_out = Spsc.new uninit;
      last_ttl_collect = 0;
      net = net;
      calls = epoll_add listen_fd readable ∷ [];
    })

  -- `drain_expired_keys`, with no push in between.
  unfoldable pub drain_phase : EventLoop S → Option (EventLoop S)
  drain_phase l = do
    (expired_out', store') ← drain_expired_keys (suc expired_keys_cap) l.expired_out l.store
    some (record l { expired_out = expired_out'; store = store' })

  unfoldable pub collect_phase : (now : ℕ) → HashMap RingBuffer → EventLoop S → EventLoop S
  unfolding collect_ttl_candidates
  collect_phase now order l =
      let collected = collect_ttl_candidates now l.last_ttl_collect order l.candidates_in in
      record l { candidates_in = collected.0; last_ttl_collect = collected.1 }

  unfoldable pub fork_phase : (now : ℕ) (running : ℕ → Bool) → Option ℕ → EventLoop S → EventLoop S
  unfolding maybe_fork
  fork_phase now running fork l =
      let forked =
        maybe_fork now (l.config.snapshot_interval * 1_000_000_000) running fork l.snapshot in
      record l {
        snapshot = forked.0;
        calls = elim forked.1 [ none ↦ l.calls | some ts ↦ dump l.store ts ∷ l.calls ];
      }

  -- `rounds` and `last_round` are the rounds of the worker's loop until its thread is joined.
  unfoldable pub stop_worker : List Round → Round → EventLoop S → Option (EventLoop S)
  unfolding stop
  stop_worker rounds last_round l = elim l.ttl_worker [
    | none ↦ some l
    | some worker ↦ do
      (worker', queues') ← stop rounds last_round worker (l.candidates_in, l.expired_out)
      some (record l { ttl_worker = none; candidates_in = queues'.0; expired_out = queues'.1 })
  ]

  -- The end of the writer and of the descriptors, behind that of the worker.
  unfoldable pub close_all : (last sync : Writes) (fds : List ℕ) → EventLoop S → EventLoop S
  unfolding Life.shutdown
  close_all last sync fds l = record l {
    aof = Life.shutdown last sync l.aof;
    connections = [];
    calls = close l.listen_fd ∷ close l.epoll_fd ∷ (map close fds ++ l.calls);
  }

  -- `fds` are the descriptors of the connections in the order of the iteration over the map. `none` means
  -- that the fuel of the worker's loop ran out.
  unfoldable pub shutdown :
      List Round → Round → (last sync : Writes) (fds : List ℕ) → EventLoop S → Option (EventLoop S)
  unfolding stop_worker close_all
  shutdown rounds last_round last sync fds l = do
    l' ← stop_worker rounds last_round l
    some (close_all last sync fds l')

  -- The calls of a round before `epoll_wait`.
  unfoldable pub prepare : Tick → EventLoop S → Option (EventLoop S)
  unfolding drain_phase collect_phase fork_phase
  prepare t l = do
    drained ← drain_phase l
    some (fork_phase t.fork_now t.running t.fork (collect_phase t.collect_now t.order drained))

module _ {S : Type 0} (sockets : Sockets S) (compiled_n : ℕ) where
  -- The handler of one event. `none` means that the fuel ran out.
  unfoldable pub handle_event : Event → EventLoop S → Option (Outcome (EventLoop S))
  unfolding accept_connections handle_read handle_write
  handle_event e l =
      if e.fd == l.listen_fd
      then some (done (accept_connections compiled_n e.accepted l))
      else if e.is_readable
      then handle_read sockets 27 compiled_n e.writes e.now e.fd l
      else if e.is_writable
      then handle_write sockets (wbuf_size compiled_n) e.fd l
      else some (done l)

  -- The loop over the events; a handler that waits or panics is the last one.
  unfoldable pub handle_events : List Event → EventLoop S → Option (Outcome (EventLoop S))
  unfolding handle_event
  handle_events [] l = some (done l)
  handle_events (e ∷ es) l = do
    outcome ← handle_event e l
    elim outcome [ done l' ↦ handle_events es l' | waits ↦ some waits | panics ↦ some panics ]

  -- One round of the loop of `run`.
  unfoldable pub tick : Tick → EventLoop S → Option (Outcome (EventLoop S))
  unfolding prepare handle_events
  tick t l = do prepared ← prepare t l; handle_events t.events prepared
