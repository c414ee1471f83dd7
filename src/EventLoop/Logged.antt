-- ===== src/EventLoop/Logged.antt =====
-- What one handler of src/event_loop.rs changes in the store and in the log.
use lloogg.Prelude.{
  arith, ℕ, ◌≡◌, ◌≢◌, refl, inl, inr, Option, none, some, List, [], ◌∷◌, ◌++◌, slice, ◌==◌, false,
  Bool, Bool-cases, Option-cases, ◌<◌, ◌^◌, from_le-slice-lt, IsByte, All-slice, length-slice,
}
use lloogg.Constants.{opcode_push, opcode_get, opcode_del}
use lloogg.Error.{Result, ok, err}
use lloogg.Outcome.{Outcome, done, waits, panics, ◌>>=◌}
use lloogg.Record.{of_bytes, of_bytes-IsTyped, IsTyped}
use lloogg.HashMap.{lookup, insert, remove, All-lookup, lookup-insert}
use lloogg.Constants.{wbuf_size}
use lloogg.Store.{push_record}
use lloogg.Config.{FsyncMode, always, everysec, never}
use lloogg.Aof.{
  AofWriter, Writes, ring_write, write_entry, push_entry, del_entry, append_push, append_del,
}
use lloogg.Aof.Log
use lloogg.Aof.Log.{log, ring_write-Appended}
use lloogg.Connection.{Connection, header_opcode, header_user_id, validate_get_count}
use lloogg.Commands.{push_command, del_command}
use lloogg.EventLoop.{
  EventLoop, Sockets, Ended, waits, leaves, closes, fails, is_process, read_loop, is_write_response,
  write_loop,
}
use lloogg.EventLoop.Dispatch.{
  answered, refused, get_checked, dispatch, process_command, handle_close,
}
use lloogg.EventLoop.Handlers.{read_ended, handle_read, write_ended, handle_write}
use lloogg.EventLoop.Open.{IsOpen}
use lloogg.EventLoop.Receive.{IsBounded, IsEnded, read_loop_lem}
use lloogg.EventLoop.Serving.{IsServing}
use lloogg.EventLoop.Events.{kept-IsServing}
use lloogg.EventLoop.Requests.{request_changes, ended_changes, read_changes}
use lloogg.EventLoop.Changes.{
  pushed, removed, IsTime, Change, IsLogged, IsLogged-refl, IsLogged-one,
}

ring_write-logged :
    (w : AofWriter) (bytes : List ℕ) {w' : AofWriter}
    → Log.IsValid w
    → ring_write w bytes ≡ some w'
    → (log w' ≡ log w ++ bytes) × (w'.fsync_mode ≡ w.fsync_mode)
unfolding ring_write
ring_write-logged w bytes v e = ((ring_write-Appended w bytes v e).log_eq, ground (arith, e))

-- The append of an entry by a writer that leaves the file to the flush thread.
write_entry-logged :
    (writes : Writes) (w : AofWriter) (bytes : List ℕ) (mode : FsyncMode) {w' : AofWriter}
    → w.fsync_mode ≡ mode
    → mode ≢ always
    → Log.IsValid w
    → write_entry writes w bytes ≡ some w'
    → (log w' ≡ log w ++ bytes) × (w'.fsync_mode ≡ w.fsync_mode)
unfolding write_entry
write_entry-logged writes w bytes always m other v e = absurd (other refl)
write_entry-logged writes w bytes everysec m other v e =
    ring_write-logged w bytes v (rw (write_entry, m) at e)
write_entry-logged writes w bytes never m other v e =
    ring_write-logged w bytes v (rw (write_entry, m) at e)

-- A handler that returns has made the changes `cs` and no other.
abbrev pub Logs : {S : Type 0} → List Change → EventLoop S → Outcome (EventLoop S) → Type 0
Logs cs l (done l') = IsLogged cs l.store l.aof l'.store l'.aof
Logs cs l waits = Unit
Logs cs l panics = Unit

header_user_id-lt : {room : ℕ} (conn : Connection) → IsOpen room conn → header_user_id conn < 2 ^ 32
unfolding header_user_id
header_user_id-lt conn i = from_le-slice-lt conn.rbuf 3 4 i.bytes (omega (arith, i.size))

of_bytes_rbuf-IsTyped :
    {room : ℕ} (conn : Connection) → IsOpen room conn → IsTyped (of_bytes (slice conn.rbuf 9 17))
of_bytes_rbuf-IsTyped conn i =
    of_bytes-IsTyped (slice conn.rbuf 9 17) (All-slice IsByte conn.rbuf 9 17 i.bytes)
      (length-slice conn.rbuf 9 17 (omega (arith, i.size)))

module _ {S : Type 0} {room : ℕ} (writes : Writes) (now fd : ℕ) (l : EventLoop S)
    (mode : l.aof.fsync_mode ≢ always) (v : Log.IsValid l.aof) (time : IsTime now)
    (conn : Connection) (i : IsOpen room conn) where
  push-Logs : Logs (pushed (header_user_id conn) (of_bytes (slice conn.rbuf 9 17)) now ∷ []) l (do
    (conn', store', aof') ← push_command writes now conn l.store l.aof
    done (answered fd (record l { store = store'; aof = aof' }) conn'))
  unfolding push_command append_push answered
  push-Logs =
      let uid = header_user_id conn in
      let r = of_bytes (slice conn.rbuf 9 17) in
      elim (Option-cases (write_entry writes l.aof (push_entry uid r now))) [
        | inl full ↦ rw full tt
        | inr (aof', appended) ↦ elim (Option-cases (push_record l.store uid r now)) [
          | inl no_slot ↦ rw (appended, no_slot) tt
          | inr (store', placed) ↦
              let (more, same) =
                write_entry-logged writes l.aof (push_entry uid r now) l.aof.fsync_mode refl mode v
                  appended in
              rw (appended, placed)
                (IsLogged-one (pushed uid r now)
                  ((header_user_id-lt conn i, time.1, of_bytes_rbuf-IsTyped conn i), time.0) placed
                  more same)
        ]
      ]

  del-Logs : Logs (removed (header_user_id conn) now ∷ []) l (do
    (conn', store', aof') ← del_command writes now conn l.store l.aof
    done (answered fd (record l { store = store'; aof = aof' }) conn'))
  unfolding del_command append_del answered
  del-Logs =
      let uid = header_user_id conn in
      elim (Option-cases (write_entry writes l.aof (del_entry uid now))) [
        | inl full ↦ rw full tt
        | inr (aof', appended) ↦
            let (more, same) =
              write_entry-logged writes l.aof (del_entry uid now) l.aof.fsync_mode refl mode v
                appended in
            rw appended (
              IsLogged-one (removed uid now) ((header_user_id-lt conn i, time.1), time.0) refl more
                same)
      ]

  get-Logs : (r : Result ℕ) → Logs [] l (done (get_checked fd l conn r))
  unfolding get_checked answered refused
  get-Logs (err e) = IsLogged-refl l.store l.aof
  get-Logs (ok count) = IsLogged-refl l.store l.aof

  dispatch-Logs : (n : ℕ) → Logs (request_changes now conn) l (dispatch n writes now fd l conn)
  unfolding dispatch refused
  dispatch-Logs n = elim (Bool-cases (header_opcode conn == opcode_push)) [
    | inl is_push ↦ rw is_push push-Logs
    | inr not_push ↦ elim (Bool-cases (header_opcode conn == opcode_get)) [
      | inl is_get ↦
          let not_del : (header_opcode conn == opcode_del) ≡ false = ground arith in
          rw (not_push, is_get, not_del) (get-Logs (validate_get_count n conn))
      | inr not_get ↦ elim (Bool-cases (header_opcode conn == opcode_del)) [
        | inl is_del ↦ rw (not_push, not_get, is_del) del-Logs
        | inr not_del ↦ rw (not_push, not_get, not_del) (IsLogged-refl l.store l.aof)
      ]
    ]
  ]

-- What an outcome that is not out of fuel changes.
abbrev pub LogsIf :
    {S : Type 0} → List Change → EventLoop S → Option (Outcome (EventLoop S)) → Type 0
LogsIf cs l none = Unit
LogsIf cs l (some o) = Logs cs l o

module _ {S : Type 0} {slots : ℕ} (n : ℕ) (writes : Writes) (now fd : ℕ) (time : IsTime now) where
  process_command-Logs :
      (l : EventLoop S) (conn : Connection)
      → lookup fd l.connections ≡ some conn
      → l.aof.fsync_mode ≢ always
      → IsServing slots n l
      → Logs (request_changes now conn) l (process_command n writes now fd l)
  unfolding process_command
  process_command-Logs l conn found mode h =
      rw (process_command, found)
        (dispatch-Logs writes now fd (record l { connections = remove fd l.connections }) mode h.aof
          time conn (All-lookup (IsOpen (wbuf_size n)) fd l.connections h.connections found) n)

  module _ (sockets : Sockets S) where
    read_ended-Logs :
        (l : EventLoop S) (ended : Ended) (net : S)
        → l.aof.fsync_mode ≢ always
        → IsServing slots n l
        → IsEnded (wbuf_size n) ended
        → Logs (ended_changes now ended) l (read_ended sockets n writes now fd l (ended, net))
    unfolding read_ended handle_close
    read_ended-Logs l (waits conn) net mode h e = IsLogged-refl l.store l.aof
    read_ended-Logs l (leaves conn) net mode h e = elim (Bool-cases (is_process conn.state)) [
      | inl complete ↦
          let found : lookup fd (insert fd conn l.connections) ≡ some conn =
            ground (arith, lookup-insert fd fd conn l.connections) in
          rw complete (
            process_command-Logs
              (record l { connections = insert fd conn l.connections; net = net }) conn found mode
              (kept-IsServing fd conn net l h e.0))
      | inr partial ↦ rw partial (IsLogged-refl l.store l.aof)
    ]
    read_ended-Logs l closes net mode h e = IsLogged-refl l.store l.aof
    read_ended-Logs l fails net mode h e = tt

    -- The changes of what has been read.
    pub handle_read-Logs :
        (l : EventLoop S)
        → IsBounded sockets
        → l.aof.fsync_mode ≢ always
        → IsServing slots n l
        → LogsIf
            (elim (lookup fd l.connections) [
              | none ↦ []
              | some conn ↦ read_changes now (read_loop sockets 27 l.net fd conn)
            ])
            l
            (handle_read sockets 27 n writes now fd l)
    unfolding handle_read
    handle_read-Logs l b mode h = elim (Option-cases (lookup fd l.connections)) [
      | inl absent ↦ rw (handle_read, absent) (IsLogged-refl l.store l.aof)
      | inr (conn, found) ↦
          let i : IsOpen (wbuf_size n) conn =
            All-lookup (IsOpen (wbuf_size n)) fd l.connections h.connections found in
          let (ended, net, ran, e) = read_loop_lem sockets 27 l.net fd conn b i (omega arith) in
          rw (handle_read, found, ran) (read_ended-Logs l ended net mode h e)
    ]

module _ {S : Type 0} (sockets : Sockets S) (fd : ℕ) (l : EventLoop S) where
  write_ended-Logs :
      (was_sending : Bool) (ended : Ended) (net : S)
      → Logs [] l (write_ended sockets fd l was_sending (ended, net))
  unfolding write_ended handle_close
  write_ended-Logs was_sending (waits conn) net = IsLogged-refl l.store l.aof
  write_ended-Logs was_sending (leaves conn) net = IsLogged-refl l.store l.aof
  write_ended-Logs was_sending closes net = IsLogged-refl l.store l.aof
  write_ended-Logs was_sending fails net = tt

  pub handle_write-Logs : (fuel : ℕ) → LogsIf [] l (handle_write sockets fuel fd l)
  unfolding handle_write
  handle_write-Logs fuel = elim (Option-cases (lookup fd l.connections)) [
    | inl absent ↦ rw (handle_write, absent) (IsLogged-refl l.store l.aof)
    | inr (conn, found) ↦ elim (Option-cases (write_loop sockets fuel l.net fd conn)) [
      | inl no_fuel ↦ rw (handle_write, found, no_fuel) tt
      | inr ((ended, net), ran) ↦
          rw (handle_write, found, ran) (write_ended-Logs (is_write_response conn.state) ended net)
    ]
  ]
