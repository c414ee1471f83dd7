-- ===== src/Recovery/Crash.antt =====
-- A crash of the server, or of the child that writes a snapshot, while src/snapshot.rs dumps.
use lloogg.Prelude.{
  ℕ, ◌+◌, ◌^◌, ◌≤◌, ◌<◌, ◌≡◌, sym, inl, inr, none, some, List, ◌++◌, append_assoc, length, take,
  subst,
}
use lloogg.Error.{ok}
use lloogg.Files.{read}
use lloogg.Ring.{RingBuffer}
use lloogg.HashMap.{HashMap}
use lloogg.Store.{Store, len}
use lloogg.Store.Spec.{no_logs}
use lloogg.Store.View.{IsValid, HasLogs, view}
use lloogg.Store.Open.{IsCapacity}
use lloogg.Aof.{AofWriter, Writes, flush_once}
use lloogg.Aof.Entry.{Entry}
use lloogg.Aof.Log.{IsComplete}
use lloogg.Snapshot.{dump_bytes}
use lloogg.Snapshot.Keys.{IsIteration}
use lloogg.Snapshot.Disk.{Directory, Disk, affected, reading, dump_to_path}
use lloogg.Snapshot.Atomic.{dump_to_path-IsAtomic}
use lloogg.Recovery.{recover}
use lloogg.Recovery.Service.{IsRecorded}
use lloogg.Recovery.Snapshots.{AreCovered, AreBehind, snapshot_restart_lem}

-- A snapshot of the store `s`, which was dumped in the order `order` at the time `ts`, when the entries
-- `es` were recorded, and the entries `fs` behind it.
pub record IsSnapshot (slots cap : ℕ) (s : Store) (order : HashMap RingBuffer) (ts : ℕ)
    (es fs : List Entry) : Type 0 where
  pub writer : AofWriter
  pub recorded : IsRecorded slots cap es s writer
  pub iteration : IsIteration order s.map_of
  pub covered : AreCovered ts es
  pub behind : AreBehind ts fs
  pub small : len s < 2 ^ 32
  pub word : ts < 2 ^ 64

-- A crash in the middle of a snapshot loses nothing: while the store `mid` is dumped over the snapshot
-- of `old`, the recovery from what a crash leaves of the snapshot after `n` calls, and from the
-- append-only file that a flush has completed, succeeds, and gives a valid store with exactly the logs
-- of the running store. `es` were recorded at the old snapshot, `fs` more at the new one, and `gs` after
-- it; the entries behind a snapshot are later than it. No write of a key fails. The capacity is one
-- that a ring buffer admits, and the new store has no log and a slot for each user of a snapshot and
-- each entry behind it.
pub crash_restart_lem :
    (disk : Disk) (n : ℕ) (d : Directory) (writes : Writes) {slots slots' cap ts ts' : ℕ}
    (es fs gs : List Entry) {old s : Store} (mid : Store) {w : AofWriter}
    {order : HashMap RingBuffer} (order' : HashMap RingBuffer) (fresh : Store)
    → ((i : ℕ) → 4 ≤ i → disk.write i ≡ none)
    → d.bin ≡ some (dump_bytes old order ts)
    → IsSnapshot slots cap old order ts es (fs ++ gs)
    → IsSnapshot slots cap mid order' ts' (es ++ fs) gs
    → IsRecorded slots cap (es ++ (fs ++ gs)) s w
    → IsComplete writes
    → IsCapacity cap
    → HasLogs slots' cap no_logs fresh
    → len fresh + len old + length (fs ++ gs) ≤ slots'
    → len fresh + len mid + length gs ≤ slots'
    → (s' : Store) × (recover
          (reading (affected d (take n (dump_to_path disk mid order' ts').0)).bin)
          (read (flush_once writes w).file)
          fresh
        ≡ some (some (ok s')))
      × IsValid slots' s'
      × (s'.capacity ≡ cap)
      × (view s' ≡ view s)
crash_restart_lem disk n d writes {slots} {cap = cap} {ts} {ts'} es fs gs {s = s} mid {w} {order}
      order' fresh keys held before after now complete c h room room' =
    let again : IsRecorded slots cap ((es ++ fs) ++ gs) s w =
      subst (λ t. IsRecorded slots cap t s w) (sym (append_assoc es fs gs)) now in
    elim (dump_to_path-IsAtomic disk mid order' ts' n d keys).crash [
      | inl old_one ↦
          rw (old_one, held)
            (snapshot_restart_lem writes (fs ++ gs) order ts fresh complete before.recorded now
              before.iteration before.covered before.behind c before.small before.word h room)
      | inr new_one ↦ rw new_one (
          snapshot_restart_lem writes gs order' ts' fresh complete after.recorded again
            after.iteration after.covered after.behind c after.small after.word h room')
    ]
