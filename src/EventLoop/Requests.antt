-- ===== src/EventLoop/Requests.antt =====
-- What the clients ask for in the steps of the server, and what the worker has found to be evicted.
use lloogg.Prelude.{ℕ, none, some, List, [], ◌∷◌, ◌++◌, map, slice, ◌==◌, if◌then◌else◌, Option}
use lloogg.Constants.{opcode_push, opcode_del, expired_keys_cap}
use lloogg.Record.{of_bytes}
use lloogg.HashMap.{lookup}
use lloogg.Spsc.Fifo.{contents}
use lloogg.Connection.{Connection, header_opcode, header_user_id}
use lloogg.EventLoop.{
  EventLoop, Sockets, Ended, waits, leaves, closes, fails, is_process, read_loop,
}
use lloogg.EventLoop.Tick.{Event}
use lloogg.EventLoop.Threads.{Step, Steps, here, next, drain, collect, fork, event, flush, batch}
use lloogg.EventLoop.Changes.{Change, pushed, removed, evicted}

-- A PUSH asks for a push of its record, a DEL for a removal, and nothing else for a change.
abbrev pub request_changes : ℕ → Connection → List Change
request_changes now conn =
    if header_opcode conn == opcode_push
    then pushed (header_user_id conn) (of_bytes (slice conn.rbuf 9 17)) now ∷ []
    else if header_opcode conn == opcode_del
    then removed (header_user_id conn) now ∷ []
    else []

-- A connection asks for something when its request is complete.
abbrev pub ended_changes : ℕ → Ended → List Change
ended_changes now (waits conn) = []
ended_changes now (leaves conn) = if is_process conn.state then request_changes now conn else []
ended_changes now closes = []
ended_changes now fails = []

abbrev pub read_changes : {S : Type 0} → ℕ → Option (Ended × S) → List Change
read_changes now none = []
read_changes now (some (ended, net)) = ended_changes now ended

-- The bytes that arrive in an event complete a request, or ask for nothing.
abbrev pub event_changes : {S : Type 0} → Sockets S → Event → EventLoop S → List Change
event_changes sockets e l =
    if e.fd == l.listen_fd
    then []
    else if e.is_readable
    then elim (lookup e.fd l.connections) [
      | none ↦ []
      | some conn ↦ read_changes e.now (read_loop sockets 27 l.net e.fd conn)
    ]
    else []

module _ {S : Type 0} {sockets : Sockets S} {n : ℕ} where
  -- The changes that a step is to make: those of its request, or the evictions of the candidates that the
  -- worker has handed over.
  abbrev pub step_changes : {l l' : EventLoop S} → Step sockets n l l' → List Change
  step_changes (drain {l = l} e) = map evicted (contents expired_keys_cap l.expired_out)
  step_changes (collect now order) = []
  step_changes (fork now running result) = []
  step_changes (event {l = l} e time ran) = event_changes sockets e l
  step_changes (flush writes complete) = []
  step_changes (batch now ttl_ns e) = []

  abbrev pub changes_of : {l l' : EventLoop S} → Steps sockets n l l' → List Change
  changes_of here = []
  changes_of (next steps step) = changes_of steps ++ step_changes step
