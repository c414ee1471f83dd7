-- ===== src/EventLoop/Handlers.antt =====
-- `handle_read` and `handle_write`.
use lloogg.Prelude.{ℕ, Bool, Option, none, some, ◌∷◌, if◌then◌else◌, ◌&&◌, ◌>>=◌}
use lloogg.Outcome.{Outcome, done, panics}
use lloogg.HashMap.{lookup, insert}
use lloogg.Aof.{Writes}
use lloogg.EventLoop.{
  EventLoop, Sockets, Ended, waits, leaves, closes, fails, epoll_mod, readable, is_process,
  is_write_response, is_read_header, read_loop, write_loop,
}
use lloogg.EventLoop.Dispatch.{handle_close, process_command}

module _ {S : Type 0} (sockets : Sockets S) where
  -- `handle_read` after its loop.
  unfoldable pub read_ended : ℕ → Writes → ℕ → ℕ → EventLoop S → Ended × S → Outcome (EventLoop S)
  unfolding handle_close process_command
  read_ended compiled_n writes now fd l (waits conn, net) =
      done (record l { connections = insert fd conn l.connections; net = net })
  read_ended compiled_n writes now fd l (leaves conn, net) =
      let l' : EventLoop S = record l { connections = insert fd conn l.connections; net = net } in
      if is_process conn.state then process_command compiled_n writes now fd l' else done l'
  read_ended compiled_n writes now fd l (closes, net) =
      done (handle_close fd (record l { net = net }))
  read_ended compiled_n writes now fd l (fails, net) = panics

  -- `none` means that the fuel ran out.
  unfoldable pub handle_read : ℕ → ℕ → Writes → ℕ → ℕ → EventLoop S → Option (Outcome (EventLoop S))
  unfolding read_loop read_ended
  handle_read fuel compiled_n writes now fd l = elim (lookup fd l.connections) [
    | none ↦ some (done l)
    | some conn ↦ do
      ended ← read_loop sockets fuel l.net fd conn
      some (read_ended compiled_n writes now fd l ended)
  ]

  -- `handle_write` after its loop; `was_sending` tells whether the response was sent just now.
  unfoldable pub write_ended : ℕ → EventLoop S → Bool → Ended × S → Outcome (EventLoop S)
  unfolding handle_close
  write_ended fd l was_sending (waits conn, net) =
      done (record l { connections = insert fd conn l.connections; net = net })
  write_ended fd l was_sending (leaves conn, net) = done (record l {
    connections = insert fd conn l.connections;
    net = net;
    calls =
        if was_sending && is_read_header conn.state
        then epoll_mod fd readable ∷ l.calls
        else l.calls;
  })
  write_ended fd l was_sending (closes, net) = done (handle_close fd (record l { net = net }))
  write_ended fd l was_sending (fails, net) = panics

  unfoldable pub handle_write : ℕ → ℕ → EventLoop S → Option (Outcome (EventLoop S))
  unfolding write_loop write_ended
  handle_write fuel fd l = elim (lookup fd l.connections) [
    | none ↦ some (done l)
    | some conn ↦ do
      ended ← write_loop sockets fuel l.net fd conn
      some (write_ended fd l (is_write_response conn.state) ended)
  ]
