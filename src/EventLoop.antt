-- ===== src/EventLoop.antt =====
-- src/event_loop.rs: the state of the event loop and the loops that read a request and send a response.
pub mod Accept
pub mod Advance
pub mod Answer
pub mod Dispatch
pub mod Handlers
pub mod Open
pub mod Serving
pub mod Process
pub mod Events
pub mod Phases
pub mod Rounds
pub mod Threads
pub mod Changes
pub mod Requests
pub mod Logged
pub mod Ahead
pub mod Receive
pub mod Send
pub mod Tick
use lloogg.Prelude.{
  ◌≡◌, refl, ◌⊎◌, inl, inr, ℕ, zero, suc, ◌+◌, ◌-◌, Bool, true, false, Option, none, some, List, [],
  ◌∷◌, ltb, leb, ◌==◌, if◌then◌else◌, length, slice, splice, not, ◌||◌, ◌&&◌,
}
use lloogg.Constants.{opcode_push, opcode_get, opcode_del}
use lloogg.Error.{Result, ok, err}
use lloogg.HashMap.{HashMap, lookup, insert, remove}
use lloogg.Store.{Store}
use lloogg.Aof.{AofWriter, Writes}
use lloogg.Config.{Config}
use lloogg.Snapshot.Manager.{SnapshotManager}
use lloogg.Spsc.{SpscQueue}
use lloogg.Ttl.{Candidate}
use lloogg.Ttl.Worker.{TtlEvictionWorker}
use lloogg.Connection
use lloogg.Connection.{
  Connection, State, read_header, read_payload, process, write_response, validate_header,
  validate_get_count, header_opcode, header_payload_len,
}
use lloogg.Commands.{push_command, get_command, del_command}

-- What `read` and `write` return: a value, EAGAIN or EINTR, or another error.
pub data IoResult {ℓ} (A : Type ℓ) : Type ℓ where
  got : A → IoResult A
  again failed : IoResult A

pub IoResult-cases {ℓ} :
    {A : Type ℓ} (r : IoResult A) → ((a : A) × (r ≡ got a)) ⊎ (r ≡ again) ⊎ (r ≡ failed)
IoResult-cases (got a) = inl (a, refl)
IoResult-cases again = inr (inl refl)
IoResult-cases failed = inr (inr refl)

-- `libc::read` and `libc::write` on sockets, over a state `S` of the kernel.
pub record Sockets (S : Type 0) : Type 0 where
  pub read : S → (fd len : ℕ) → IoResult (List ℕ) × S
  pub write : S → (fd : ℕ) → List ℕ → IoResult ℕ × S

-- The events that a descriptor is registered for: EPOLLIN or EPOLLOUT.
pub data Interest : Type 0 where
  readable writable : Interest

-- The calls whose results the code ignores; `dump` is the start of a child that writes a snapshot of
-- the store as it is at the fork.
pub data Call : Type 0 where
  epoll_add epoll_mod : (fd : ℕ) → Interest → Call
  epoll_del close set_nodelay : (fd : ℕ) → Call
  dump : Store → (snapshot_ts : ℕ) → Call

-- `net` stands for the kernel's side, the epoll instance with it. `calls` are the calls so far, the
-- last one first.
pub record EventLoop (S : Type 0) : Type 0 where
  pub store : Store
  pub aof : AofWriter
  pub connections : HashMap Connection
  pub config : Config
  pub snapshot : SnapshotManager
  pub epoll_fd : ℕ
  pub listen_fd : ℕ
  pub ttl_worker : Option TtlEvictionWorker
  pub candidates_in : SpscQueue Candidate
  pub expired_out : SpscQueue Candidate
  pub last_ttl_collect : ℕ
  pub net : S
  pub calls : List Call

-- The `match` on the state: `needed`, or `none` where the loop is left.
unfoldable pub needed_in : State → Connection → Option ℕ
needed_in read_header conn = some 9
needed_in read_payload conn = some (9 + header_payload_len conn)
needed_in process conn = none
needed_in write_response conn = none

unfoldable pub needed_of : Connection → Option ℕ
unfolding needed_in
needed_of conn = needed_in conn.state conn

-- The connection after a header was read.
unfoldable pub header_read : Connection → Result (ℕ × ℕ × ℕ) → Option Connection
header_read conn (err e) = none
header_read conn (ok (opcode, user_id, payload_len)) =
    some (record conn { state = if payload_len == 0 then process else read_payload })

-- The `match` on the state behind the read; `none` is a header that is refused.
unfoldable pub advance_in : State → Connection → Option Connection
unfolding header_read
advance_in read_header conn =
    if leb 9 conn.rbuf_pos then header_read conn (validate_header conn) else some conn
advance_in read_payload conn =
    if leb (9 + header_payload_len conn) conn.rbuf_pos
    then some (record conn { state = process })
    else some conn
advance_in process conn = some conn
advance_in write_response conn = some conn

-- `bytes` have been read behind the ones that the buffer holds.
unfoldable pub read_into : Connection → List ℕ → Connection
read_into conn bytes = record conn {
  rbuf = splice conn.rbuf conn.rbuf_pos bytes;
  rbuf_pos = conn.rbuf_pos + length bytes;
}

unfoldable pub received : Connection → List ℕ → Option Connection
unfolding advance_in read_into
received conn bytes = advance_in conn.state (read_into conn bytes)

-- How the loops of `handle_read` and `handle_write` end: `waits` is a `return` with the connection
-- kept, `leaves` a `break`, `closes` the call of `handle_close`, `fails` a panic.
pub data Ended : Type 0 where
  waits leaves : Connection → Ended
  closes fails : Ended

abbrev pub is_write_response : State → Bool
is_write_response write_response = true
is_write_response _ = false

abbrev pub is_process : State → Bool
is_process process = true
is_process _ = false

abbrev pub is_read_header : State → Bool
is_read_header read_header = true
is_read_header _ = false

-- The connection when its response has been sent.
unfoldable pub sent : Connection → Connection
sent conn = record conn { state = read_header; rbuf_pos = 0; wbuf_pos = 0; wbuf_len = 0 }

module _ {S : Type 0} (sockets : Sockets S) where
  -- The loop of `handle_read` on the connection of `fd`. `none` means that the fuel ran out.
  unfoldable pub read_loop : ℕ → S → (fd : ℕ) → Connection → Option (Ended × S)
  unfolding needed_of received
  read_loop zero net fd conn = none
  read_loop (suc fuel) net fd conn = elim (needed_of conn) [
    | none ↦ some (leaves conn, net)
    | some needed ↦
        if leb needed conn.rbuf_pos
        then some (leaves conn, net)
        else let (result, net') = sockets.read net fd (needed - conn.rbuf_pos) in
          elim result [
            | again ↦ some (waits conn, net')
            | failed ↦ some (closes, net')
            | got bytes ↦
                if length bytes == 0 then some (closes, net') else elim (received conn bytes) [
                  | none ↦ some (closes, net')
                  | some conn' ↦ read_loop fuel net' fd conn'
                ]
          ]
  ]

  -- The loop of `handle_write`; a response that was sent whole goes back to the header state.
  unfoldable pub write_loop : ℕ → S → (fd : ℕ) → Connection → Option (Ended × S)
  write_loop zero net fd conn = none
  write_loop (suc fuel) net fd conn =
      if not (is_write_response conn.state)
      then some (leaves conn, net)
      else if conn.wbuf_len == conn.wbuf_pos
      then some (leaves conn, net)
      else if ltb conn.wbuf_len conn.wbuf_pos || ltb (length conn.wbuf) conn.wbuf_len
      then some (fails, net)
      else let remaining = conn.wbuf_len - conn.wbuf_pos in
        let (result, net') = sockets.write net fd (slice conn.wbuf conn.wbuf_pos remaining) in
        elim result [
          | again ↦ some (waits conn, net')
          | failed ↦ some (closes, net')
          | got n ↦
              if conn.wbuf_pos + n == conn.wbuf_len
              then some (leaves (sent conn), net')
              else write_loop fuel net' fd (record conn { wbuf_pos = conn.wbuf_pos + n })
        ]
