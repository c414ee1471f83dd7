-- ===== src/Recovery.antt =====
-- src/recovery.rs: the replay of the append-only file over a store that a snapshot has filled.
pub mod Round
pub mod Replay
pub mod Tail
pub mod Restart
pub mod Service
pub mod Changes
pub mod Shutdown
pub mod Snapshots
pub mod Crash
use lloogg.Prelude.{
  ℕ, zero, suc, ◌+◌, Option, none, some, List, leb, ltb, ◌==◌, ◌&&◌, if◌then◌else◌, length, slice,
  get_or, from_le,
}
use lloogg.Record.{of_bytes}
use lloogg.Constants.{opcode_push, opcode_del}
use lloogg.Error.{Result, ok, err, io}
use lloogg.Files.{Read, read, not_found, failed}
use lloogg.Snapshot.{load}
use lloogg.Store.{Store, push_record, erase}

-- The `match` on the opcode of one entry; `none` is the panic of a full store.
unfoldable pub apply_entry : Store → ℕ → ℕ → ℕ → List ℕ → Option Store
apply_entry store opcode uid write_ts payload =
    if opcode == opcode_push && length payload == 17
    then push_record store uid (of_bytes payload) write_ts
    else if opcode == opcode_del
    then some (erase store uid)
    else some store

-- Entries that the snapshot covers are skipped.
unfoldable pub apply_after : ℕ → Store → ℕ → ℕ → ℕ → List ℕ → Option Store
unfolding apply_entry
apply_after snapshot_ts store opcode uid write_ts payload =
    if leb write_ts snapshot_ts then some store else apply_entry store opcode uid write_ts payload

-- The loop of `replay_aof` from `pos` on. The outer `none` means that the fuel ran out, the inner
-- one is a panic. Every round moves `pos` by 15 or more.
unfoldable pub replay_loop : ℕ → List ℕ → ℕ → ℕ → Store → Option (Option Store)
unfolding apply_after
replay_loop zero bytes pos snapshot_ts store = none
replay_loop (suc fuel) bytes pos snapshot_ts store =
    let payload_len = from_le (slice bytes (pos + 13) 2) in
    let after =
      apply_after snapshot_ts store (get_or bytes pos 0) (from_le (slice bytes (pos + 1) 4))
        (from_le (slice bytes (pos + 5) 8)) (slice bytes (pos + 15) payload_len) in
    let rest : Option (Option Store) = elim after [
      | none ↦ some none
      | some store' ↦ replay_loop fuel bytes (pos + 15 + payload_len) snapshot_ts store'
    ] in
    if ltb (length bytes) (pos + 15)
    then some (some store)
    else if ltb (length bytes) (pos + 15 + payload_len)
    then some (some store)
    else rest

-- `replay_aof` behind the read of the file, on its bytes.
unfoldable pub replay_aof : List ℕ → ℕ → Store → Option (Option Store)
unfolding replay_loop
replay_aof bytes snapshot_ts store = replay_loop (suc (length bytes)) bytes 0 snapshot_ts store

-- `replay_aof` from the read of the file on.
unfoldable pub replay_file : Read → ℕ → Store → Option (Option (Result Store))
unfolding replay_aof
replay_file (read bytes) snapshot_ts store = elim (replay_aof bytes snapshot_ts store) [
  | none ↦ none
  | some none ↦ some none
  | some (some store') ↦ some (some (ok store'))
]
replay_file not_found snapshot_ts store = some (some (ok store))
replay_file (failed errno) snapshot_ts store = some (some (err (io errno)))

-- The outer `none` means that the fuel ran out, the inner one is a panic.
unfoldable pub recover : (snapshot aof : Read) → Store → Option (Option (Result Store))
unfolding load replay_file
recover snapshot aof store = elim (load snapshot store) [
  | none ↦ some none
  | some (err e) ↦ some (some (err e))
  | some (ok (snapshot_ts, store')) ↦ replay_file aof snapshot_ts store'
]
