-- ===== src/EventLoop/Accept.antt =====
-- `accept_connections`.
use lloogg.Prelude.{ℕ, List, [], ◌∷◌}
use lloogg.Connection
use lloogg.Memory.{Memory}
use lloogg.HashMap.{insert}
use lloogg.EventLoop.{EventLoop, epoll_add, set_nodelay, readable}

module _ {S : Type 0} where
  -- The round of the loop for a new connection; `uninit` is what its response buffer happens to hold.
  unfoldable pub accept_one : ℕ → Memory → ℕ → EventLoop S → EventLoop S
  unfolding Connection.new
  accept_one compiled_n uninit fd l = record l {
    connections = insert fd (Connection.new compiled_n uninit fd) l.connections;
    calls = epoll_add fd readable ∷ set_nodelay fd ∷ l.calls;
  }

  -- `fds` are the results of `accept4` before the first that is negative, at which the loop ends, each
  -- with the `uninit` of its connection.
  unfoldable pub accept_connections : ℕ → List (ℕ × Memory) → EventLoop S → EventLoop S
  unfolding accept_one
  accept_connections compiled_n [] l = l
  accept_connections compiled_n ((fd, uninit) ∷ fds) l =
      accept_connections compiled_n fds (accept_one compiled_n uninit fd l)
