-- ===== src/Commands/Push.antt =====
-- PUSH and DEL of src/commands.rs, with the log entry, the store and the answer of each.
use lloogg.Prelude.{ℕ, ◌+◌, ◌≤◌, ◌<◌, ◌≡◌, ◌≢◌, ◌⊎◌, none, List, arith, length, slice}
use lloogg.Record.{Record}
use lloogg.Constants.{status_ok, aof_buf_size}
use lloogg.Outcome.{done}
use lloogg.Store.{Store, erase, len}
use lloogg.Store.Open.{IsCapacity}
use lloogg.Store.Push.{Pushed, push_record_lem}
use lloogg.Store.Erase.{Erased, erase_lem}
use lloogg.Store.View.{IsValid, view}
use lloogg.Config.{always}
use lloogg.Aof.{
  AofWriter, Writes, pending, push_entry, del_entry, ring_write, write_entry, append_push,
  append_del,
}
use lloogg.Aof.Entry.{Entry, entry_bytes, length-entry_bytes-le, push_entry-bytes, del_entry-bytes}
use lloogg.Aof.Log
use lloogg.Aof.Log.{Appended, ring_write_lem}
use lloogg.Connection.{Connection, write_response, write_ok_response}
use lloogg.Connection.Response.{encode_status, write_status_response_lem}
use lloogg.Commands.{push_command, del_command}
use lloogg.Commands.Frame.{push, del, IsRequest, Holds, header_user_id-Holds, payload-Holds}

-- The response buffer holds the five bytes of `status`, to be sent from their start.
pub record Answers (conn : Connection) (status : ℕ) : Type 0 where
  pub bytes : slice conn.wbuf conn.wbuf_pos conn.wbuf_len ≡ encode_status status
  pub state : conn.state ≡ write_response

write_ok_response-Answers :
    (conn : Connection) → 5 ≤ length conn.wbuf → Answers (write_ok_response conn) status_ok
unfolding write_ok_response
write_ok_response-Answers conn h =
    let (bytes, state) = write_status_response_lem conn status_ok h in
    record { bytes = bytes; state = state }

-- In the modes with a flush thread an entry goes into the ring.
write_entry-ring :
    (writes : Writes) (w : AofWriter) (bytes : List ℕ)
    → w.fsync_mode ≢ always
    → write_entry writes w bytes ≡ ring_write w bytes
unfolding write_entry
write_entry-ring writes w bytes h = ground arith

module _ (writes : Writes) (ts : ℕ) (conn : Connection) {slots : ℕ} {store : Store}
    {aof : AofWriter} (wide : 5 ≤ length conn.wbuf) (valid : IsValid slots store)
    (ring : Log.IsValid aof) (mode : aof.fsync_mode ≢ always)
    (room : pending aof + 32 ≤ aof_buf_size) where
  -- PUSH of a well-formed frame, with room in the ring and in the store, appends exactly one entry
  -- with the record and the time, puts the record in front of the user's log and answers OK.
  pub push_command_lem :
      (uid : ℕ) (r : Record)
      → IsRequest (push uid r)
      → Holds conn (push uid r)
      → IsCapacity store.capacity
      → (len store < slots) ⊎ (view store uid ≢ none)
      → (conn' : Connection) × (store' : Store) × (aof' : AofWriter) × (push_command writes ts conn
            store aof
          ≡ done (conn', store', aof'))
        × Appended aof (entry_bytes (Entry.push uid r ts)) aof'
        × Pushed slots store uid r ts store'
        × Answers conn' status_ok
  unfolding push_command append_push
  push_command_lem uid r i held capacity slot =
      let (aof', appended, a) =
        ring_write_lem aof (entry_bytes (Entry.push uid r ts)) ring
          (omega (arith, room, length-entry_bytes-le (Entry.push uid r ts))) in
      let (store', pushed, p) = push_record_lem uid r ts i.1 capacity valid slot in
      (
        write_ok_response conn,
        store',
        aof',
        rw (
          header_user_id-Holds conn (push uid r) i held,
          payload-Holds conn uid r i.1 held,
          write_entry-ring writes aof (push_entry uid r ts) mode,
          push_entry-bytes uid r ts,
          appended,
          pushed,
        ),
        a,
        p,
        write_ok_response-Answers conn wide,
      )

  -- DEL of a well-formed frame, with room in the ring, appends exactly one entry, removes the user's
  -- log if there is one, and answers OK in both cases.
  pub del_command_lem :
      (uid : ℕ)
      → IsRequest (del uid)
      → Holds conn (del uid)
      → (conn' : Connection) × (store' : Store) × (aof' : AofWriter) × (del_command writes ts conn
            store aof
          ≡ done (conn', store', aof'))
        × Appended aof (entry_bytes (Entry.del uid ts)) aof'
        × Erased slots store uid store'
        × Answers conn' status_ok
  unfolding del_command append_del
  del_command_lem uid i held =
      let (aof', appended, a) =
        ring_write_lem aof (entry_bytes (Entry.del uid ts)) ring (omega (arith, room)) in
      (
        write_ok_response conn,
        erase store uid,
        aof',
        rw (
          header_user_id-Holds conn (del uid) i held,
          write_entry-ring writes aof (del_entry uid ts) mode,
          del_entry-bytes uid ts,
          appended,
        ),
        a,
        erase_lem uid valid,
        write_ok_response-Answers conn wide,
      )
