-- ===== src/EventLoop/Phases.antt =====
-- New connections, and the calls of a round before its events, from a serving state.
use lloogg.Prelude.{ℕ, suc, Bool, ◌≡◌, refl, ◌∙◌, Option, some, List, [], ◌∷◌, arith}
use lloogg.Constants.{expired_keys_cap, wbuf_size}
use lloogg.Memory.{Memory, length-read}
use lloogg.Ring.{RingBuffer}
use lloogg.HashMap.{HashMap}
use lloogg.Connection
use lloogg.Connection.{Connection}
use lloogg.Ttl.Keep.{drain_expired_keys-IsValid, collect-IsQueue}
use lloogg.EventLoop.{EventLoop}
use lloogg.EventLoop.Accept.{accept_one, accept_connections}
use lloogg.EventLoop.Open.{IsOpen}
use lloogg.EventLoop.Serving.{IsServing, insert-AreOpen}
use lloogg.EventLoop.Tick.{Tick, drain_phase, collect_phase, fork_phase, prepare}

new-IsOpen : (n : ℕ) (uninit : Memory) (fd : ℕ) → IsOpen (wbuf_size n) (Connection.new n uninit fd)
unfolding Connection.new
new-IsOpen n uninit fd = record {
  size = refl;
  room_eq = length-read uninit 0 (wbuf_size n);
  bytes = omega arith;
  at = omega arith;
}

module _ {S : Type 0} {slots n : ℕ} where
  accept_one-IsServing :
      (uninit : Memory) (fd : ℕ) (l : EventLoop S)
      → IsServing slots n l
      → IsServing slots n (accept_one n uninit fd l)
  unfolding accept_one
  accept_one-IsServing uninit fd l h = record {
    store = h.store;
    capacity = h.capacity;
    aof = h.aof;
    connections =
        insert-AreOpen (wbuf_size n) fd (Connection.new n uninit fd) l.connections
          (new-IsOpen n uninit fd) h.connections;
    candidates_in = h.candidates_in;
    expired_out = h.expired_out;
  }

  pub accept_connections-IsServing :
      (fds : List (ℕ × Memory)) (l : EventLoop S)
      → IsServing slots n l
      → IsServing slots n (accept_connections n fds l)
  unfolding accept_connections
  accept_connections-IsServing [] l h = h
  accept_connections-IsServing ((fd, uninit) ∷ fds) l h =
      accept_connections-IsServing fds (accept_one n uninit fd l)
        (accept_one-IsServing uninit fd l h)

  pub drain_phase-IsServing :
      (l : EventLoop S)
      → IsServing slots n l
      → (l' : EventLoop S) × (drain_phase l ≡ some l') × IsServing slots n l'
  unfolding drain_phase
  drain_phase-IsServing l h =
      let (q', s', ran, kept, valid, same) =
        drain_expired_keys-IsValid (suc expired_keys_cap) l.expired_out l.store h.expired_out
          h.store (omega (arith, h.expired_out.room)) in
      (
        record l { expired_out = q'; store = s' },
        rw (drain_phase, ran),
        record {
          store = valid;
          capacity = same ∙ h.capacity;
          aof = h.aof;
          connections = h.connections;
          candidates_in = h.candidates_in;
          expired_out = kept;
        },
      )

  pub collect_phase-IsServing :
      (now : ℕ) (order : HashMap RingBuffer) (l : EventLoop S)
      → IsServing slots n l
      → IsServing slots n (collect_phase now order l)
  unfolding collect_phase
  collect_phase-IsServing now order l h = record {
    store = h.store;
    capacity = h.capacity;
    aof = h.aof;
    connections = h.connections;
    candidates_in = collect-IsQueue now l.last_ttl_collect order l.candidates_in h.candidates_in;
    expired_out = h.expired_out;
  }

  pub fork_phase-IsServing :
      (now : ℕ) (running : ℕ → Bool) (result : Option ℕ) (l : EventLoop S)
      → IsServing slots n l
      → IsServing slots n (fork_phase now running result l)
  unfolding fork_phase
  fork_phase-IsServing now running result l h = record {
    store = h.store;
    capacity = h.capacity;
    aof = h.aof;
    connections = h.connections;
    candidates_in = h.candidates_in;
    expired_out = h.expired_out;
  }

  pub prepare-IsServing :
      (t : Tick) (l : EventLoop S)
      → IsServing slots n l
      → (l' : EventLoop S) × (prepare t l ≡ some l') × IsServing slots n l'
  unfolding prepare
  prepare-IsServing t l h =
      let (drained, ran, h') = drain_phase-IsServing l h in
      (
        fork_phase t.fork_now t.running t.fork (collect_phase t.collect_now t.order drained),
        rw (prepare, ran),
        fork_phase-IsServing t.fork_now t.running t.fork
            (collect_phase t.collect_now t.order drained)
            (collect_phase-IsServing t.collect_now t.order drained h'),
      )
