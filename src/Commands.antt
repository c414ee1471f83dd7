-- ===== src/Commands.antt =====
-- src/commands.rs: PUSH, GET and DEL on a connection whose request is complete.
pub mod Frame
pub mod Push
pub mod Copy
pub mod Get
use lloogg.Prelude.{
  ℕ, ◌+◌, ◌*◌, ◌%◌, ◌^◌, Option, none, some, List, [], ◌∷◌, ◌++◌, min, ltb, if◌then◌else◌, slice,
  splice, set, to_le, take, drop, replicate,
}
use lloogg.Record.{Record, record_size, of_bytes, to_bytes}
use lloogg.Constants.{magic_wire, status_ok}
use lloogg.Outcome.{Outcome, or_panic, or_wait, done, ◌>>=◌}
use lloogg.Ring.{RingBuffer, get_last}
use lloogg.Store.{Store, push_record, get, erase}
use lloogg.Aof.{AofWriter, Writes, append_push, append_del}
use lloogg.Connection.{
  Connection, write_response, header_user_id, get_count, write_ok_response,
  write_not_found_response,
}

-- `write_ts` is what `now_ns()` returned. The outcome waits while the AOF ring is full, and panics
-- if the store has no slot for a new user.
unfoldable pub push_command :
    Writes → ℕ → Connection → Store → AofWriter → Outcome (Connection × Store × AofWriter)
push_command writes write_ts conn store aof = do
  let uid = header_user_id conn
  let rec = of_bytes (slice conn.rbuf 9 17)
  aof' ← or_wait (append_push writes aof uid rec write_ts)
  store' ← or_panic (push_record store uid rec write_ts)
  done (write_ok_response conn, store', aof')

-- The bytes of a slice of records.
abbrev pub records_bytes : List Record → List ℕ
records_bytes [] = []
records_bytes (r ∷ rs) = to_bytes r ++ records_bytes rs

-- The records that `n` times 17 bytes of the write buffer stand for.
abbrev pub bytes_records : ℕ → List ℕ → List Record
bytes_records ℕ.zero bytes = []
bytes_records (ℕ.suc n) bytes = of_bytes (take 17 bytes) ∷ bytes_records n (drop 17 bytes)

-- The response to GET for a user with a buffer. `get_last` writes through a slice of records that
-- lies over `wbuf[7..7 + actual_count * 17]`.
unfoldable pub records_response : Store → Connection → RingBuffer → Connection
unfolding get_count get_last
records_response store conn buf =
    let actual_count = min buf.count (get_count conn) in
    let payload_len = 2 + actual_count * 17 in
    let header =
      splice
        (splice (set (splice conn.wbuf 0 (to_le 2 magic_wire)) 2 status_ok) 3
          (to_le 2 (payload_len % 2 ^ 16)))
        5 (to_le 2 actual_count) in
    let out = bytes_records actual_count (slice header 7 (actual_count * 17)) in
    record conn {
      wbuf =
          if ltb 0 actual_count
          then splice header 7 (records_bytes (get_last store.mem buf actual_count out).1)
          else header;
      wbuf_len = 7 + actual_count * 17;
      wbuf_pos = 0;
      state = write_response;
    }

unfoldable pub get_command : Connection → Store → Connection
unfolding records_response write_not_found_response
get_command conn store = elim (get store (header_user_id conn)) [
  | none ↦ write_not_found_response conn
  | some buf ↦ records_response store conn buf
]

-- `now` is what `now_ns()` returned.
unfoldable pub del_command :
    Writes → ℕ → Connection → Store → AofWriter → Outcome (Connection × Store × AofWriter)
del_command writes now conn store aof = do
  let uid = header_user_id conn
  aof' ← or_wait (append_del writes aof uid now)
  done (write_ok_response conn, erase store uid, aof')
