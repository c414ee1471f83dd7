-- ===== src/Snapshot/Manager.antt =====
-- `SnapshotManager` of src/snapshot.rs: when a child is forked that writes a snapshot.
use Prim.Native.String.{String}
use lloogg.Prelude.{
  ℕ, ◌+◌, ◌-◌, ◌%◌, ◌^◌, ◌≤◌, ◌<◌, ◌≡◌, ◌⊎◌, Bool, false, Option, none, some, ◌==◌, ◌&&◌, not, ltb,
  if◌then◌else◌, arith,
}

-- `child_pid` is 0 if there is no child.
pub record SnapshotManager : Type 0 where
  pub snapshot_path : String
  pub child_pid : ℕ
  pub last_snapshot_ts : ℕ

unfoldable pub new : String → SnapshotManager
new path = record { snapshot_path = path; child_pid = 0; last_snapshot_ts = 0 }

-- The parent's side of the fork; `fork` is its result, `none` an error. The second part of the result is
-- the time of the snapshot that a child writes.
unfoldable pub fork_child : ℕ → Option ℕ → SnapshotManager → SnapshotManager × Option ℕ
fork_child now fork m = elim fork [
  | none ↦ (record m { child_pid = 0; last_snapshot_ts = now }, none)
  | some pid ↦ (record m { child_pid = pid; last_snapshot_ts = now }, some now)
]

-- `now` is what `now_ns()` returned, `running` whether `waitpid` on a child says that it still runs.
unfoldable pub maybe_fork :
    (now interval_ns : ℕ) (running : ℕ → Bool)
    → Option ℕ
    → SnapshotManager
    → SnapshotManager × Option ℕ
unfolding fork_child
maybe_fork now interval_ns running fork m =
    if ltb ((now + 2 ^ 64 - m.last_snapshot_ts) % 2 ^ 64) interval_ns
    then (m, none)
    else if not (m.child_pid == 0) && running m.child_pid
    then (m, none)
    else fork_child now fork m

-- If a snapshot is started, then no child was running and a whole interval has gone by since the last
-- snapshot; its time is the present and is noted, and the new child is remembered. The clock has not gone
-- back behind the last snapshot.
pub maybe_fork_lem :
    (now interval_ns : ℕ) (running : ℕ → Bool) (fork : Option ℕ) (m : SnapshotManager)
    {m' : SnapshotManager} {ts : ℕ}
    → m.last_snapshot_ts ≤ now
    → now < 2 ^ 64
    → maybe_fork now interval_ns running fork m ≡ (m', some ts)
    → (ts ≡ now)
      × (m.last_snapshot_ts + interval_ns ≤ ts)
      × ((m.child_pid ≡ 0) ⊎ (running m.child_pid ≡ false))
      × (m'.last_snapshot_ts ≡ ts)
      × (fork ≡ some m'.child_pid)
unfolding maybe_fork fork_child
maybe_fork_lem now interval_ns running fork m {m'} {ts} back word e = ground arith
