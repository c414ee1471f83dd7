-- ===== src/Snapshot.antt =====
-- src/snapshot.rs: the bytes of a snapshot, and the load of a store from them.
pub mod Dump
pub mod Keys
pub mod Load
pub mod Manager
pub mod Restore
pub mod RoundTrip
pub mod Disk
pub mod Effects
pub mod Writes
pub mod Atomic
use lloogg.Prelude.{
  ℕ, zero, suc, ◌+◌, ◌-◌, ◌*◌, ◌%◌, ◌^◌, Option, none, some, List, [], ◌∷◌, ◌++◌, ltb, ◌==◌,
  if◌then◌else◌, length, slice, to_le, from_le,
}
use lloogg.Error.{Result, ok, err, io}
use lloogg.Files.{Read, read, not_found, failed}
use lloogg.Constants.{magic_snapshot, snapshot_version}
use lloogg.Memory.{Memory}
use lloogg.Record.{of_bytes, to_bytes}
use lloogg.Ring.{RingBuffer, load as load_record}
use lloogg.HashMap.{HashMap}
use lloogg.Store.{Store, get_or_create, push_record, len}

-- `(head + cap - count) % cap` in `usize`
unfoldable pub oldest_index : RingBuffer → ℕ
oldest_index b = (b.head + b.capacity + (2 ^ 64 - b.count)) % 2 ^ 64 % b.capacity

-- The rounds of the loop over the records from `i` on, the oldest record first.
unfoldable pub dump_records : Memory → RingBuffer → ℕ → ℕ → List ℕ
unfolding oldest_index
dump_records m b i zero = []
dump_records m b i (suc rounds) =
    to_bytes (load_record m b ((oldest_index b + i) % b.capacity))
    ++ dump_records m b (i + 1) rounds

unfoldable pub dump_keys : Memory → HashMap RingBuffer → List ℕ
unfolding dump_records
dump_keys m [] = []
dump_keys m ((uid, b) ∷ entries) =
    to_le 4 uid
    ++ to_le 8 b.last_write_ts
    ++ to_le 2 b.count
    ++ dump_records m b 0 b.count
    ++ dump_keys m entries

-- What `dump_to_path` writes, if no write fails. `order` are the entries of the store's map in the order
-- of the iteration.
unfoldable pub dump_bytes : Store → HashMap RingBuffer → ℕ → List ℕ
unfolding dump_keys
dump_bytes store order snapshot_ts =
    to_le 4 magic_snapshot
    ++ to_le 1 snapshot_version
    ++ to_le 8 snapshot_ts
    ++ to_le 4 (len store % 2 ^ 32)
    ++ dump_keys store.mem order

-- The loop over the records of a key: `buf_ptr` points to the entry of `uid`, which `push_record` finds.
-- The result is the store and `pos`; `none` is a panic.
unfoldable pub parse_records : ℕ → List ℕ → ℕ → ℕ → ℕ → Store → Option (Store × ℕ)
parse_records zero bytes pos uid last_write_ts store = some (store, pos)
parse_records (suc rounds) bytes pos uid last_write_ts store =
    if ltb (length bytes) (pos + 17)
    then some (store, pos)
    else elim (push_record store uid (of_bytes (slice bytes pos 17)) last_write_ts) [
      | none ↦ none
      | some store' ↦ parse_records rounds bytes (pos + 17) uid last_write_ts store'
    ]

-- The loop over the keys from `pos` on.
unfoldable pub parse_keys : ℕ → List ℕ → ℕ → Store → Option Store
unfolding parse_records
parse_keys zero bytes pos store = some store
parse_keys (suc rounds) bytes pos store =
    if ltb (length bytes) (pos + 14)
    then some store
    else let uid = from_le (slice bytes pos 4) in
      elim (get_or_create store uid) [
        | none ↦ none
        | some found ↦
            elim (parse_records (from_le (slice bytes (pos + 12) 2)) bytes (pos + 14) uid
              (from_le (slice bytes (pos + 4) 8)) found.0) [
                | none ↦ none
                | some next ↦ parse_keys rounds bytes next.1 next.0
              ]
      ]

-- The result is the time of the snapshot, 0 if there is none, and the store.
unfoldable pub parse_snapshot : List ℕ → Store → Option (ℕ × Store)
unfolding parse_keys
parse_snapshot bytes store =
    if ltb (length bytes) 17
    then some (0, store)
    else if from_le (slice bytes 0 4) == magic_snapshot
    then elim (parse_keys (from_le (slice bytes 13 4)) bytes 17 store) [
      | none ↦ none
      | some store' ↦ some (from_le (slice bytes 5 8), store')
    ]
    else some (0, store)

-- `load` on what the read of `snapshot.bin` gave; `none` is a panic.
unfoldable pub load : Read → Store → Option (Result (ℕ × Store))
unfolding parse_snapshot
load (read bytes) store = elim (parse_snapshot bytes store) [
  | none ↦ none
  | some loaded ↦ some (ok loaded)
]
load not_found store = some (ok (0, store))
load (failed errno) store = some (err (io errno))
