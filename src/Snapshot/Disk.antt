-- ===== src/Snapshot/Disk.antt =====
-- `dump_to_path` of src/snapshot.rs on a disk whose calls can fail.
use lloogg.Prelude.{
  ℕ, zero, suc, ◌+◌, ◌%◌, ◌^◌, Option, none, some, List, [], ◌∷◌, ◌++◌, take, to_le,
}
use lloogg.Constants.{magic_snapshot, snapshot_version}
use lloogg.Memory.{Memory}
use lloogg.Record.{to_bytes}
use lloogg.Ring.{RingBuffer, load as load_record}
use lloogg.HashMap.{HashMap}
use lloogg.Store.{Store, len}
use lloogg.Files.{Read, read, not_found}
use lloogg.Snapshot.{oldest_index}

-- What `snapshot.tmp` and `snapshot.bin` hold, if they are there, and the buffer of the `BufWriter`.
pub record Directory : Type 0 where
  pub buffer : List ℕ
  pub tmp : Option (List ℕ)
  pub bin : Option (List ℕ)

-- What a call does to the directory. A `BufWriter` may write its bytes before its `flush`, which changes
-- only what `snapshot.tmp` holds until then.
pub data Effect : Type 0 where
  created : Effect
  flushed : Effect
  appended : (bytes : List ℕ) → Effect
  renamed : Effect

abbrev pub affect : Directory → Effect → Directory
affect d created = record d { buffer = []; tmp = some [] }
affect d (appended bytes) = record d { buffer = d.buffer ++ bytes }
affect d flushed = elim d.tmp [
  | none ↦ d
  | some t ↦ record d { buffer = []; tmp = some (t ++ d.buffer) }
]
affect d renamed = elim d.tmp [ none ↦ d | some t ↦ record d { tmp = none; bin = some t } ]

abbrev pub affected : Directory → List Effect → Directory
affected d [] = d
affected d (e ∷ es) = affected (affect d e) es

-- A read of `snapshot.bin`.
abbrev pub reading : Option (List ℕ) → Read
reading none = not_found
reading (some bytes) = read bytes

-- The results of the calls: `none`, or the error. The `i`-th `write_all` takes all its bytes, or fails
-- when it has taken some of them.
pub record Disk : Type 0 where
  pub create : Option ℕ
  pub write : ℕ → Option (ℕ × ℕ)
  pub flush : Option ℕ
  pub into_inner : Option ℕ
  pub sync : Option ℕ
  pub rename : Option ℕ

abbrev pub header_writes : Store → ℕ → List (List ℕ)
header_writes store snapshot_ts =
    to_le 4 magic_snapshot
    ∷ to_le 1 snapshot_version
    ∷ to_le 8 snapshot_ts
    ∷ to_le 4 (len store % 2 ^ 32)
    ∷ []

unfoldable pub record_writes : Memory → RingBuffer → ℕ → ℕ → List (List ℕ)
unfolding oldest_index
record_writes m b i zero = []
record_writes m b i (suc rounds) =
    to_bytes (load_record m b ((oldest_index b + i) % b.capacity))
    ∷ record_writes m b (i + 1) rounds

unfoldable pub key_writes : Memory → HashMap RingBuffer → List (List ℕ)
unfolding record_writes
key_writes m [] = []
key_writes m ((uid, b) ∷ entries) =
    to_le 4 uid
    ∷ to_le 8 b.last_write_ts
    ∷ to_le 2 b.count
    ∷ (record_writes m b 0 b.count ++ key_writes m entries)

-- The writes of the header: the first error ends them.
unfoldable pub write_header : Disk → ℕ → List (List ℕ) → List Effect × Option ℕ
write_header disk i [] = ([], none)
write_header disk i (bytes ∷ rest) =
    let more = write_header disk (i + 1) rest in
    elim (disk.write i) [
      | none ↦ (appended bytes ∷ more.0, more.1)
      | some (errno, taken) ↦ (appended (take taken bytes) ∷ [], some errno)
    ]

-- The writes of the keys, whose errors the code ignores.
unfoldable pub write_keys : Disk → ℕ → List (List ℕ) → List Effect
write_keys disk i [] = []
write_keys disk i (bytes ∷ rest) =
    let more = write_keys disk (i + 1) rest in
    elim (disk.write i) [
      | none ↦ appended bytes ∷ more
      | some (errno, taken) ↦ appended (take taken bytes) ∷ more
    ]

-- The `?` behind a call without an effect on the directory.
abbrev pub or_fails : Option ℕ → List Effect × Option ℕ → List Effect × Option ℕ
or_fails (some errno) rest = ([], some errno)
or_fails none rest = rest

-- From the `flush` on.
unfoldable pub finish : Disk → List Effect × Option ℕ
finish disk =
    let rest =
      or_fails disk.into_inner (or_fails disk.sync (or_fails disk.rename (renamed ∷ [], none))) in
    or_fails disk.flush (flushed ∷ rest.0, rest.1)

-- The effects of the calls in their order, and the error that is returned, if there is one. `order` are
-- the entries of the store's map in the order of the iteration.
unfoldable pub dump_to_path : Disk → Store → HashMap RingBuffer → ℕ → List Effect × Option ℕ
unfolding write_header write_keys key_writes finish
dump_to_path disk store order snapshot_ts =
    let header = write_header disk 0 (header_writes store snapshot_ts) in
    or_fails disk.create (elim header.1 [
      | some errno ↦ (created ∷ header.0, some errno)
      | none ↦ (
        created ∷ (header.0 ++ (write_keys disk 4 (key_writes store.mem order) ++ (finish disk).0)),
        (finish disk).1,
      )
    ])
