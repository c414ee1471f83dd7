-- ===== src/Recovery/Restart.antt =====
-- The replay of a file and the logs of the store.
use lloogg.Prelude.{
  ℕ, ◌+◌, ◌≤◌, ◌<◌, ◌≡◌, refl, sym, ap, ◌∙◌, inl, inr, true, false, some, List, [], ◌∷◌, ◌++◌,
  arith, leb, if◌then◌else◌, length, All, Bool-cases, subst,
}
use lloogg.Store.{Store, erase, len}
use lloogg.Store.Spec.{Logs, push_log, erase_log}
use lloogg.Store.View.{HasLogs}
use lloogg.Store.Open.{IsCapacity}
use lloogg.Store.Push.{push_record_lem, Pushed-HasLogs}
use lloogg.Store.Erase.{Erased, erase_lem, Erased-HasLogs}
use lloogg.Aof.Entry.{Entry, push, del, IsEntry, entry_ts, entries_bytes}
use lloogg.Recovery.{replay_aof}
use lloogg.Recovery.Round.{IsTorn}
use lloogg.Recovery.Replay.{apply, apply_all, replay_aof_lem}

-- What an entry does to the logs.
abbrev pub apply_log : ℕ → Entry → Logs → Logs
apply_log cap (push uid r ts) logs = push_log cap uid r ts logs
apply_log cap (del uid ts) logs = erase_log uid logs

-- What the entries behind the snapshot do, the first one first.
unfoldable pub logs_after : ℕ → ℕ → List Entry → Logs → Logs
logs_after cap snapshot_ts [] logs = logs
logs_after cap snapshot_ts (e ∷ es) logs =
    logs_after cap snapshot_ts es
      (if leb (entry_ts e) snapshot_ts then logs else apply_log cap e logs)

pub logs_after-append :
    (cap ts : ℕ) (es fs : List Entry) (logs : Logs)
    → logs_after cap ts (es ++ fs) logs ≡ logs_after cap ts fs (logs_after cap ts es logs)
unfolding logs_after
logs_after-append cap ts [] fs logs = refl
logs_after-append cap ts (e ∷ es) fs logs =
    logs_after-append cap ts es fs (if leb (entry_ts e) ts then logs else apply_log cap e logs)

apply-HasLogs :
    {slots cap : ℕ} {logs : Logs} {s : Store} (e : Entry)
    → IsEntry e
    → IsCapacity cap
    → HasLogs slots cap logs s
    → len s < slots
    → (s' : Store) × (apply s e ≡ some s')
      × HasLogs slots cap (apply_log cap e logs) s'
      × (len s' ≤ len s + 1)
apply-HasLogs {slots} {cap} {logs} {s} (push uid r ts) i c h room =
    let (s', pushed, p) =
      push_record_lem {slots = slots} {s = s} uid r ts i.2 (subst IsCapacity (sym h.capacity) c)
        h.valid (inl room) in
    (s', pushed, Pushed-HasLogs uid r ts h p, p.len_le)
apply-HasLogs {slots} {cap} {logs} {s} (del uid ts) i c h room =
    let p : Erased slots s uid (erase s uid) = erase_lem uid h.valid in
    (erase s uid, refl, Erased-HasLogs uid h p, omega (arith, p.len_le))

apply_all-covered :
    (snapshot_ts : ℕ) (e : Entry) (es : List Entry) (s : Store)
    → leb (entry_ts e) snapshot_ts ≡ true
    → apply_all snapshot_ts (e ∷ es) s ≡ apply_all snapshot_ts es s
unfolding apply_all
apply_all-covered snapshot_ts e es s h = rw (h, apply_all)

apply_all-later :
    (snapshot_ts : ℕ) (e : Entry) (es : List Entry) (s : Store) {t : Store}
    → leb (entry_ts e) snapshot_ts ≡ false
    → apply s e ≡ some t
    → apply_all snapshot_ts (e ∷ es) s ≡ apply_all snapshot_ts es t
unfolding apply_all
apply_all-later snapshot_ts e es s h a = rw (h, a, apply_all)

-- With a slot for every entry, applying the entries succeeds and gives the logs of the entries.
pub apply_all-HasLogs :
    {slots cap : ℕ} (snapshot_ts : ℕ) (es : List Entry) {logs : Logs} {s : Store}
    → All IsEntry es
    → IsCapacity cap
    → HasLogs slots cap logs s
    → len s + length es ≤ slots
    → (s' : Store) × (apply_all snapshot_ts es s ≡ some s')
      × HasLogs slots cap (logs_after cap snapshot_ts es logs) s'
unfolding apply_all logs_after
apply_all-HasLogs snapshot_ts [] {s = s} i c h room = (s, refl, h)
apply_all-HasLogs {slots} {cap} snapshot_ts (e ∷ es) {logs} {s} i c h room =
    elim (Bool-cases (leb (entry_ts e) snapshot_ts)) [
      | inl covered ↦
          let (s', done, h') = apply_all-HasLogs snapshot_ts es i.1 c h (omega arith) in
          (s', apply_all-covered snapshot_ts e es s covered ∙ done, rw covered h')
      | inr later ↦
          let (t, applied, k, more) = apply-HasLogs e i.0 c h (omega arith) in
          let (s', done, h') = apply_all-HasLogs snapshot_ts es i.1 c k (omega arith) in
          (s', apply_all-later snapshot_ts e es s later applied ∙ done, rw later h')
    ]

-- From a store with the logs of a snapshot, the replay of the file ends without a panic, if there
-- is a slot for every entry, and gives the logs that the entries after the snapshot make of them; a
-- torn entry at the end counts for nothing.
pub replay_aof-HasLogs :
    {slots cap : ℕ} {logs : Logs} {s : Store} (snapshot_ts : ℕ) (es : List Entry) (torn : List ℕ)
    → All IsEntry es
    → IsTorn torn
    → IsCapacity cap
    → HasLogs slots cap logs s
    → len s + length es ≤ slots
    → (s' : Store) × (replay_aof (entries_bytes es ++ torn) snapshot_ts s ≡ some (some s'))
      × HasLogs slots cap (logs_after cap snapshot_ts es logs) s'
replay_aof-HasLogs {s = s} snapshot_ts es torn i t c h room =
    let (s', done, h') = apply_all-HasLogs snapshot_ts es i c h room in
    (s', replay_aof_lem es torn snapshot_ts s i t ∙ ap some done, h')
