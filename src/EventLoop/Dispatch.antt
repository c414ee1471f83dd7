-- ===== src/EventLoop/Dispatch.antt =====
-- `process_command`, `handle_close` and what they do to the event loop.
use lloogg.Prelude.{ℕ, none, some, ◌∷◌, ◌==◌, if◌then◌else◌}
use lloogg.Constants.{opcode_push, opcode_get, opcode_del}
use lloogg.Error.{Result, ok, err}
use lloogg.Outcome.{Outcome, done, ◌>>=◌}
use lloogg.HashMap.{lookup, insert, remove}
use lloogg.Aof.{Writes}
use lloogg.Connection.{Connection, validate_get_count, header_opcode}
use lloogg.Commands.{push_command, get_command, del_command}
use lloogg.EventLoop.{EventLoop, epoll_mod, epoll_del, close, writable, is_write_response}

module _ {S : Type 0} where
  unfoldable pub handle_close : ℕ → EventLoop S → EventLoop S
  handle_close fd l = record l {
    connections = remove fd l.connections;
    calls = close fd ∷ epoll_del fd ∷ l.calls;
  }

  -- The end of `process_command` for a connection that was answered.
  unfoldable pub answered : ℕ → EventLoop S → Connection → EventLoop S
  answered fd l conn = record l {
    connections = insert fd (record conn { rbuf_pos = 0 }) l.connections;
    calls = if is_write_response conn.state then epoll_mod fd writable ∷ l.calls else l.calls;
  }

  -- The refusal of a command: the connection is out of the map and is closed.
  unfoldable pub refused : ℕ → EventLoop S → EventLoop S
  refused fd l = record l { calls = close fd ∷ epoll_del fd ∷ l.calls }

  unfoldable pub get_checked : ℕ → EventLoop S → Connection → Result ℕ → EventLoop S
  unfolding answered refused
  get_checked fd l conn (err e) = refused fd l
  get_checked fd l conn (ok count) = answered fd l (get_command conn l.store)

  -- The dispatch on the opcode; `l` has the connection taken out of the map.
  unfoldable pub dispatch : ℕ → Writes → ℕ → ℕ → EventLoop S → Connection → Outcome (EventLoop S)
  unfolding answered refused get_checked
  dispatch compiled_n writes now fd l conn =
      if header_opcode conn == opcode_push
      then (do
        (conn', store', aof') ← push_command writes now conn l.store l.aof
        done (answered fd (record l { store = store'; aof = aof' }) conn'))
      else if header_opcode conn == opcode_get
      then done (get_checked fd l conn (validate_get_count compiled_n conn))
      else if header_opcode conn == opcode_del
      then (do
        (conn', store', aof') ← del_command writes now conn l.store l.aof
        done (answered fd (record l { store = store'; aof = aof' }) conn'))
      else done (refused fd l)

  -- `now` is what `now_ns()` returns in the command.
  unfoldable pub process_command : ℕ → Writes → ℕ → ℕ → EventLoop S → Outcome (EventLoop S)
  unfolding dispatch
  process_command compiled_n writes now fd l = elim (lookup fd l.connections) [
    | none ↦ done l
    | some conn ↦
        dispatch compiled_n writes now fd (record l { connections = remove fd l.connections }) conn
  ]
