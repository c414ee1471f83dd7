-- ===== src/EventLoop/Serving.antt =====
-- The invariant of the event loop, and what one handler comes to.
use lloogg.Prelude.{ℕ, ◌+◌, ◌≤◌, ◌<◌, ◌≡◌, All}
use lloogg.Constants.{aof_buf_size, wbuf_size}
use lloogg.Outcome.{Outcome, done, waits, panics}
use lloogg.HashMap.{HashMap, insert, remove, All-remove}
use lloogg.Store.{len}
use lloogg.Store.View
use lloogg.Aof.{pending}
use lloogg.Aof.Log
use lloogg.Spsc.Fifo.{IsQueue}
use lloogg.Connection.{Connection}
use lloogg.EventLoop.{EventLoop}
use lloogg.EventLoop.Open.{IsOpen}

abbrev pub AreOpen : ℕ → HashMap Connection → Type 0
AreOpen room connections = All (λ e. IsOpen room e.1) connections

-- The store of the build's capacity is valid, the counters of the ring and of both queues are in step,
-- and every connection is open.
pub record IsServing {S : Type 0} (slots compiled_n : ℕ) (l : EventLoop S) : Type 0 where
  pub store : View.IsValid slots l.store
  pub capacity : l.store.capacity ≡ compiled_n
  pub aof : Log.IsValid l.aof
  pub connections : AreOpen (wbuf_size compiled_n) l.connections
  pub candidates_in : IsQueue 13 l.candidates_in
  pub expired_out : IsQueue 12 l.expired_out

-- What a handler comes to: the event loop serves on, or it waits because the ring has no room for an
-- entry, or it panics because a new user finds no slot.
abbrev pub IsHandled : {S : Type 0} → ℕ → ℕ → EventLoop S → Outcome (EventLoop S) → Type 0
IsHandled slots compiled_n l (done l') = IsServing slots compiled_n l'
IsHandled slots compiled_n l waits = aof_buf_size < pending l.aof + 32
IsHandled slots compiled_n l panics = slots ≤ len l.store

pub insert-AreOpen :
    (room fd : ℕ) (conn : Connection) (connections : HashMap Connection)
    → IsOpen room conn
    → AreOpen room connections
    → AreOpen room (insert fd conn connections)
unfolding insert
insert-AreOpen room fd conn connections i h =
    (i, All-remove (λ e. IsOpen room e.1) fd connections h)

pub remove-AreOpen :
    (room fd : ℕ) (connections : HashMap Connection)
    → AreOpen room connections
    → AreOpen room (remove fd connections)
remove-AreOpen room fd connections h = All-remove (λ e. IsOpen room e.1) fd connections h
