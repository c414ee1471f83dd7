-- ===== src/EventLoop/Process.antt =====
-- `process_command` from a serving state.
use lloogg.Prelude.{
  ℕ, ◌≤◌, ◌≡◌, sym, ◌∙◌, inl, inr, none, some, arith, length, slice, ◌==◌, subst, Bool-cases,
  Option-cases,
}
use lloogg.Constants.{wbuf_size, IsCompiledN, opcode_push, opcode_get, opcode_del}
use lloogg.Error.{Result, ok, err}
use lloogg.Outcome.{done, ◌>>=◌}
use lloogg.Record.{of_bytes}
use lloogg.HashMap.{lookup, remove, All-lookup}
use lloogg.Store.{Store}
use lloogg.Store.Open.{IsCapacity}
use lloogg.Store.Full.{push_record-cases}
use lloogg.Store.Erase.{erase_lem}
use lloogg.Store.View
use lloogg.Aof.{AofWriter, Writes, push_entry, del_entry, append_push, append_del}
use lloogg.Aof.Log
use lloogg.Aof.Append.{write_entry-cases}
use lloogg.Aof.Entry.{push, del, push_entry-bytes, del_entry-bytes, length-entry_bytes-le}
use lloogg.Connection.{
  Connection, header_opcode, header_user_id, validate_get_count, write_ok_response,
}
use lloogg.Commands.{push_command, del_command}
use lloogg.EventLoop.{EventLoop}
use lloogg.EventLoop.Dispatch.{answered, refused, get_checked, dispatch, process_command}
use lloogg.EventLoop.Open.{IsOpen}
use lloogg.EventLoop.Answer.{
  IsAnswer, IsAnswer-IsOpen, wbuf_size-le, write_status_response-IsAnswer, get_command-IsAnswer,
}
use lloogg.EventLoop.Serving.{IsServing, IsHandled, insert-AreOpen, remove-AreOpen}

pub IsCapacity-of : {n : ℕ} → IsCompiledN n → IsCapacity n
IsCapacity-of c = record { positive = c.positive; small = omega (arith, c.limit) }

module _ {S : Type 0} {slots n : ℕ} (c : IsCompiledN n) (writes : Writes) (now fd : ℕ)
    (l : EventLoop S) (h : IsServing slots n l) (conn : Connection)
    (i : IsOpen (wbuf_size n) conn) where
  -- The connection goes back into the map with its answer.
  answered-IsServing :
      {conn' : Connection} {store' : Store} {aof' : AofWriter}
      → IsAnswer (wbuf_size n) conn conn'
      → View.IsValid slots store'
      → store'.capacity ≡ n
      → Log.IsValid aof'
      → IsServing slots n (answered fd (record l { store = store'; aof = aof' }) conn')
  unfolding answered
  answered-IsServing {conn'} a v same ring = record {
    store = v;
    capacity = same;
    aof = ring;
    connections =
        insert-AreOpen (wbuf_size n) fd (record conn' { rbuf_pos = 0 }) l.connections
          (IsAnswer-IsOpen i a) h.connections;
    candidates_in = h.candidates_in;
    expired_out = h.expired_out;
  }

  ok-IsAnswer : IsAnswer (wbuf_size n) conn (write_ok_response conn)
  unfolding write_ok_response
  ok-IsAnswer = write_status_response-IsAnswer conn _ i.room_eq (omega (arith, wbuf_size-le n))

  push-IsHandled : IsHandled slots n l (do
    (conn', store', aof') ← push_command writes now conn l.store l.aof
    done (answered fd (record l { store = store'; aof = aof' }) conn'))
  unfolding push_command append_push
  push-IsHandled =
      let uid = header_user_id conn in
      let r = of_bytes (slice conn.rbuf 9 17) in
      let size : length (push_entry uid r now) ≤ 32 =
        rw (push_entry-bytes uid r now) (length-entry_bytes-le (push uid r now)) in
      elim (write_entry-cases writes l.aof (push_entry uid r now) h.aof) [
        | inr (full, lacks) ↦ rw full (omega (arith, lacks, size))
        | inl (aof', appended, ring) ↦
            elim (push_record-cases uid r now (subst IsCapacity (sym h.capacity) (IsCapacity-of c))
              h.store) [
                | inr (none_left, slots_used) ↦ rw (appended, none_left) slots_used
                | inl (store', pushed, v, same) ↦
                    rw (appended, pushed)
                      (answered-IsServing ok-IsAnswer v (same ∙ h.capacity) ring)
              ]
      ]

  del-IsHandled : IsHandled slots n l (do
    (conn', store', aof') ← del_command writes now conn l.store l.aof
    done (answered fd (record l { store = store'; aof = aof' }) conn'))
  unfolding del_command append_del
  del-IsHandled =
      let uid = header_user_id conn in
      let size : length (del_entry uid now) ≤ 32 =
        rw (del_entry-bytes uid now) (length-entry_bytes-le (del uid now)) in
      elim (write_entry-cases writes l.aof (del_entry uid now) h.aof) [
        | inr (full, lacks) ↦ rw full (omega (arith, lacks, size))
        | inl (aof', appended, ring) ↦
            let e = erase_lem uid h.store in
            rw appended (answered-IsServing ok-IsAnswer e.valid (e.capacity ∙ h.capacity) ring)
      ]

  refused-IsServing : IsServing slots n (refused fd l)
  unfolding refused
  refused-IsServing = record {
    store = h.store;
    capacity = h.capacity;
    aof = h.aof;
    connections = h.connections;
    candidates_in = h.candidates_in;
    expired_out = h.expired_out;
  }

  get-IsServing : (r : Result ℕ) → IsServing slots n (get_checked fd l conn r)
  unfolding get_checked
  get-IsServing (err e) = refused-IsServing
  get-IsServing (ok count) =
      answered-IsServing (get_command-IsAnswer conn l.store i.room_eq h.store h.capacity) h.store
        h.capacity h.aof

  pub dispatch-IsHandled : IsHandled slots n l (dispatch n writes now fd l conn)
  unfolding dispatch
  dispatch-IsHandled = elim (Bool-cases (header_opcode conn == opcode_push)) [
    | inl is_push ↦ rw is_push push-IsHandled
    | inr not_push ↦ elim (Bool-cases (header_opcode conn == opcode_get)) [
      | inl is_get ↦ rw (not_push, is_get) (get-IsServing (validate_get_count n conn))
      | inr not_get ↦ elim (Bool-cases (header_opcode conn == opcode_del)) [
        | inl is_del ↦ rw (not_push, not_get, is_del) del-IsHandled
        | inr not_del ↦ rw (not_push, not_get, not_del) refused-IsServing
      ]
    ]
  ]

-- Without the connection of a descriptor the event loop serves on.
removed-IsServing :
    {S : Type 0} {slots n : ℕ} (fd : ℕ) (l : EventLoop S)
    → IsServing slots n l
    → IsServing slots n (record l { connections = remove fd l.connections })
removed-IsServing {n = n} fd l h = record {
  store = h.store;
  capacity = h.capacity;
  aof = h.aof;
  connections = remove-AreOpen (wbuf_size n) fd l.connections h.connections;
  candidates_in = h.candidates_in;
  expired_out = h.expired_out;
}

process_command-absent :
    {S : Type 0} (n : ℕ) (writes : Writes) (now fd : ℕ) (l : EventLoop S)
    → lookup fd l.connections ≡ none
    → process_command n writes now fd l ≡ done l
unfolding process_command
process_command-absent n writes now fd l e = rw (process_command, e)

process_command-found :
    {S : Type 0} (n : ℕ) (writes : Writes) (now fd : ℕ) (l : EventLoop S) {conn : Connection}
    → lookup fd l.connections ≡ some conn
    → process_command n writes now fd l
      ≡ dispatch n writes now fd (record l { connections = remove fd l.connections }) conn
unfolding process_command
process_command-found n writes now fd l e = rw (process_command, e)

pub process_command-IsHandled :
    {S : Type 0} {slots n : ℕ} (c : IsCompiledN n) (writes : Writes) (now fd : ℕ) (l : EventLoop S)
    → IsServing slots n l
    → IsHandled slots n l (process_command n writes now fd l)
process_command-IsHandled {slots = slots} {n} c writes now fd l h =
    elim (Option-cases (lookup fd l.connections)) [
      | inl absent ↦ rw (process_command-absent n writes now fd l absent) h
      | inr (conn, found) ↦
          let i : IsOpen (wbuf_size n) conn =
            All-lookup (IsOpen (wbuf_size n)) fd l.connections h.connections found in
          rw (process_command-found n writes now fd l found) (
            dispatch-IsHandled c writes now fd (record l { connections = remove fd l.connections })
              (removed-IsServing fd l h) conn i)
    ]
