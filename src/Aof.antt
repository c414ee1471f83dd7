-- ===== src/Aof.antt =====
-- src/aof.rs: the append-only file and the byte ring between the event loop and the flush thread.
pub mod Circular
pub mod Entry
pub mod Log
pub mod Flush
pub mod Threads
pub mod Life
pub mod Append
use lloogg.Prelude.{
  ℕ, ◌+◌, ◌-◌, ◌%◌, ◌^◌, Bool, true, false, Option, none, some, List, [], ◌∷◌, ◌++◌, leb, ◌==◌,
  if◌then◌else◌, length, take, drop, set, splice, replicate, to_le,
}
use lloogg.Memory.{Memory, read, write}
use lloogg.Record.{Record, to_bytes}
use lloogg.Constants.{opcode_push, opcode_del, aof_buf_size}
use lloogg.Config.{FsyncMode, always, everysec, never}

abbrev pub aof_header_len : ℕ
aof_header_len = 15

abbrev pub aof_push_len : ℕ
aof_push_len = 32

-- `buf` is read and written below `aof_buf_size`; `file` is what the file holds.
pub record AofWriter : Type 0 where
  pub buf : Memory
  pub head : ℕ
  pub tail : ℕ
  pub file : List ℕ
  pub fsync_mode : FsyncMode

-- `libc::write` as a parameter: the result of the `i`-th call for `len` bytes, `none` for an error.
abbrev pub Writes : Type 0
Writes = ℕ → ℕ → Option ℕ

-- The two error branches log a message and go on.
unfoldable pub checked_write : Writes → ℕ → List ℕ → List ℕ → List ℕ
checked_write writes i file bytes = elim (writes i (length bytes)) [
  | none ↦ file
  | some written ↦ file ++ take written bytes
]

-- The entry of PUSH, copied into a zeroed array field by field.
unfoldable pub push_entry : ℕ → Record → ℕ → List ℕ
unfolding to_bytes
push_entry uid r write_ts =
    splice
      (splice
        (splice (splice (set (replicate aof_push_len 0) 0 opcode_push) 1 (to_le 4 uid)) 5
          (to_le 8 write_ts))
        13 (to_le 2 17))
      15 (to_bytes r)

unfoldable pub del_entry : ℕ → ℕ → List ℕ
del_entry uid write_ts =
    splice
      (splice (splice (set (replicate aof_header_len 0) 0 opcode_del) 1 (to_le 4 uid)) 5
        (to_le 8 write_ts))
      13 (to_le 2 0)

-- `head - tail` in `u64`
unfoldable pub pending : AofWriter → ℕ
pending w = (w.head + 2 ^ 64 - w.tail) % 2 ^ 64

-- The copy into the ring from `offset` on, in one fragment or in two.
unfoldable pub put_bytes : Memory → ℕ → List ℕ → Memory
put_bytes buf offset bytes =
    if leb (offset + length bytes) aof_buf_size
    then write buf offset bytes
    else let first_len = aof_buf_size - offset in
      write (write buf offset (take first_len bytes)) 0 (drop first_len bytes)

-- `none` while the loop spins: the ring has no room until the flush thread moves `tail`.
unfoldable pub ring_write : AofWriter → List ℕ → Option AofWriter
unfolding pending put_bytes
ring_write w bytes =
    if leb (pending w + length bytes) aof_buf_size
    then some (record w {
      buf = put_bytes w.buf (w.head % aof_buf_size) bytes;
      head = (w.head + length bytes) % 2 ^ 64;
    })
    else none

unfoldable pub write_entry : Writes → AofWriter → List ℕ → Option AofWriter
unfolding ring_write checked_write
write_entry writes w bytes = elim w.fsync_mode [
  | always ↦ some (record w { file = checked_write writes 0 w.file bytes })
  | everysec ↦ ring_write w bytes
  | never ↦ ring_write w bytes
]

unfoldable pub append_push : Writes → AofWriter → ℕ → Record → ℕ → Option AofWriter
append_push writes w uid r write_ts = write_entry writes w (push_entry uid r write_ts)

unfoldable pub append_del : Writes → AofWriter → ℕ → ℕ → Option AofWriter
append_del writes w uid write_ts = write_entry writes w (del_entry uid write_ts)

-- The writes of `flush_once` and `flush_sync`: `count` bytes of the ring from `offset` on.
unfoldable pub write_pending : Writes → List ℕ → Memory → ℕ → ℕ → List ℕ
unfolding checked_write
write_pending writes file buf offset count =
    if leb (offset + count) aof_buf_size
    then checked_write writes 0 file (read buf offset count)
    else let first = aof_buf_size - offset in
      checked_write writes 1 (checked_write writes 0 file (read buf offset first))
        (read buf 0 (count - first))

-- The part of `flush_once` after the loads: `h` is the `head` that was loaded, and by now the event
-- loop may have moved on.
unfoldable pub flush_to : Writes → AofWriter → ℕ → AofWriter
unfolding write_pending
flush_to writes w h =
    let count = (h + 2 ^ 64 - w.tail) % 2 ^ 64 in
    if count == 0 then w else record w {
      file = write_pending writes w.file w.buf (w.tail % aof_buf_size) count;
      tail = h;
    }

-- `flush_once` with nothing in between, and `flush_sync`, which differs in its `fdatasync` alone.
unfoldable pub flush_once : Writes → AofWriter → AofWriter
unfolding flush_to
flush_once writes w = flush_to writes w w.head
