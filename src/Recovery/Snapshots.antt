-- ===== src/Recovery/Snapshots.antt =====
-- A restart from a snapshot and the append-only file behind it.
use lloogg.Prelude.{
  ℕ, ◌+◌, ◌^◌, ◌≤◌, ◌<◌, ◌≡◌, refl, sym, ap, ◌∙◌, some, List, [], ◌∷◌, ◌++◌, arith, leb, length,
  All, append-nil, true, false, if◌then◌else◌,
}
use lloogg.Ring.{RingBuffer}
use lloogg.HashMap.{HashMap}
use lloogg.Store.{Store, len}
use lloogg.Store.Spec.{Logs, no_logs}
use lloogg.Store.Plain.{ArePlain, no_logs-ArePlain, push_log-ArePlain, erase_log-ArePlain}
use lloogg.Store.View.{IsValid, HasLogs, view}
use lloogg.Store.Open.{IsCapacity}
use lloogg.Aof.{AofWriter, Writes, flush_once}
use lloogg.Aof.Entry.{Entry, push, del, IsEntry, entry_ts, entries_bytes}
use lloogg.Aof.Log.{IsComplete}
use lloogg.Aof.Flush.{flush_once_lem}
use lloogg.Snapshot.{dump_bytes, parse_snapshot}
use lloogg.Snapshot.Keys.{IsIteration}
use lloogg.Snapshot.RoundTrip.{parse_snapshot-dump_bytes}
use lloogg.Error.{ok}
use lloogg.Files.{read}
use lloogg.Snapshot.{load}
use lloogg.Recovery.{replay_aof, recover}
use lloogg.Recovery.Round.{IsTorn-nil}
use lloogg.Recovery.Replay.{apply_all, replay_aof_lem}
use lloogg.Recovery.Restart.{logs_after-append, apply_log, logs_after, apply_all-HasLogs}
use lloogg.Recovery.Service.{IsRecorded, replay_file-read}

-- The entries up to the time of a snapshot, and those behind it.
abbrev pub AreCovered : ℕ → List Entry → Type 0
AreCovered ts es = All (λ e. entry_ts e ≤ ts) es

abbrev pub AreBehind : ℕ → List Entry → Type 0
AreBehind ts es = All (λ e. ts < entry_ts e) es

apply_log-ArePlain :
    (cap : ℕ) (e : Entry) (logs : Logs)
    → 0 < cap
    → IsEntry e
    → ArePlain cap logs
    → ArePlain cap (apply_log cap e logs)
apply_log-ArePlain cap (push uid r ts) logs c i p =
    push_log-ArePlain cap uid r ts logs c i.0 i.1 i.2 p
apply_log-ArePlain cap (del uid ts) logs c i p = erase_log-ArePlain cap uid logs p

logs_after-ArePlain :
    (cap ts : ℕ) (es : List Entry) (logs : Logs)
    → 0 < cap
    → All IsEntry es
    → ArePlain cap logs
    → ArePlain cap (logs_after cap ts es logs)
unfolding logs_after
logs_after-ArePlain cap ts [] logs c i p = p
logs_after-ArePlain cap ts (e ∷ es) logs c i p =
    logs_after-ArePlain cap ts es (if leb (entry_ts e) ts then logs else apply_log cap e logs) c i.1
      (pick (leb (entry_ts e) ts))
  where
    pick : (b : _) → ArePlain cap (if b then logs else apply_log cap e logs)
    pick true = p
    pick false = apply_log-ArePlain cap e logs c i.0 p

-- An earlier time of the snapshot changes nothing for the entries behind it.
logs_after-AreBehind :
    (cap ts : ℕ) (es : List Entry) (logs : Logs)
    → AreBehind ts es
    → logs_after cap ts es logs ≡ logs_after cap 0 es logs
unfolding logs_after
logs_after-AreBehind cap ts [] logs h = refl
logs_after-AreBehind cap ts (e ∷ es) logs h =
    let later : leb (entry_ts e) ts ≡ false = ground (arith, h.0) in
    let later_zero : leb (entry_ts e) 0 ≡ false = ground (arith, h.0) in
    rw (later, later_zero) (logs_after-AreBehind cap ts es (apply_log cap e logs) h.1)

apply_all-AreCovered :
    (ts : ℕ) (es fs : List Entry) (s : Store)
    → AreCovered ts es
    → apply_all ts (es ++ fs) s ≡ apply_all ts fs s
unfolding apply_all
apply_all-AreCovered ts [] fs s h = refl
apply_all-AreCovered ts (e ∷ es) fs s h =
    let covered : leb (entry_ts e) ts ≡ true = ground (arith, h.0) in
    rw (covered, apply_all) (apply_all-AreCovered ts es fs s h.1)

pub recover-loaded :
    (snapshot aof : List ℕ) (fresh : Store) {loaded s' : Store} {ts : ℕ}
    → parse_snapshot snapshot fresh ≡ some (ts, loaded)
    → replay_aof aof ts loaded ≡ some (some s')
    → recover (read snapshot) (read aof) fresh ≡ some (some (ok s'))
unfolding recover load
recover-loaded snapshot aof fresh {loaded} {ts = ts} h ran =
    rw (recover, load, h) (replay_file-read aof ts loaded ran)

pub replay_aof-behind :
    (ts : ℕ) (es fs : List Entry) (s : Store)
    → AreCovered ts es
    → All IsEntry (es ++ fs)
    → replay_aof (entries_bytes (es ++ fs)) ts s ≡ some (apply_all ts fs s)
replay_aof-behind ts es fs s h i =
    ap (λ bytes. replay_aof bytes ts s) (sym (append-nil (entries_bytes (es ++ fs))))
    ∙ replay_aof_lem (es ++ fs) [] ts s i IsTorn-nil
    ∙ ap some (apply_all-AreCovered ts es fs s h)

All-append-last : (es fs : List Entry) → All IsEntry (es ++ fs) → All IsEntry fs
All-append-last [] fs i = i
All-append-last (e ∷ es) fs i = All-append-last es fs i.1

-- After a flush, whose writes are complete, the recovery from a snapshot and the whole append-only
-- file into a new store succeeds, and gives a valid store of the same capacity with exactly the logs
-- of the running store. The snapshot of `old` was dumped, in any order of its map, when the entries
-- `es` were recorded, none of them later than the snapshot's time, and the entries `fs` that came
-- after are all later. Both states are in step with their logs, the capacity is one that a ring
-- buffer admits, the snapshot has less than 2 ^ 32 users, and the new store has no log and a slot for
-- each of its users and of `fs`.
pub snapshot_restart_lem :
    (writes : Writes) {slots slots' cap : ℕ} {es : List Entry} (fs : List Entry) {old s : Store}
    {old_w w : AofWriter} (order : HashMap RingBuffer) (ts : ℕ) (fresh : Store)
    → IsComplete writes
    → IsRecorded slots cap es old old_w
    → IsRecorded slots cap (es ++ fs) s w
    → IsIteration order old.map_of
    → AreCovered ts es
    → AreBehind ts fs
    → IsCapacity cap
    → len old < 2 ^ 32
    → ts < 2 ^ 64
    → HasLogs slots' cap no_logs fresh
    → len fresh + len old + length fs ≤ slots'
    → (s' : Store) × (recover
          (read (dump_bytes old order ts))
          (read (flush_once writes w).file)
          fresh
        ≡ some (some (ok s')))
      × IsValid slots' s'
      × (s'.capacity ≡ cap)
      × (view s' ≡ view s)
snapshot_restart_lem writes {cap = cap} {es} fs {old} {s} {w = w} order ts fresh complete before now
      i covered behind c small word f room =
    let whole : (flush_once writes w).file ≡ entries_bytes (es ++ fs) =
      (flush_once_lem writes w complete now.ring).0 ∙ now.logged in
    let plain : ArePlain cap (logs_after cap 0 es no_logs) =
      logs_after-ArePlain cap 0 es no_logs c.positive before.entries (no_logs-ArePlain cap) in
    let (loaded, parsed, h, more) =
      parse_snapshot-dump_bytes order ts before.store i plain c f (omega arith) small word in
    let (s', ran, h') =
      apply_all-HasLogs ts fs (All-append-last es fs now.entries) c h (omega (arith, more)) in
    (
      s',
      recover-loaded (dump_bytes old order ts) (flush_once writes w).file fresh parsed (
          ap (λ bytes. replay_aof bytes ts loaded) whole
          ∙ replay_aof-behind ts es fs loaded covered now.entries
          ∙ ap some ran),
      h'.valid,
      h'.capacity,
      h'.logs_eq
          ∙ logs_after-AreBehind cap ts fs (logs_after cap 0 es no_logs) behind
          ∙ sym (logs_after-append cap 0 es fs no_logs)
          ∙ sym now.store.logs_eq,
    )
