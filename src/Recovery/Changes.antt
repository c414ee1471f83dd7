-- ===== src/Recovery/Changes.antt =====
-- The changes of the running server and the logs of its store, with and without the evictions.
use mathlib.Core.Path.{fun_ext}
use lloogg.Prelude.{
  ℕ, ◌≡◌, refl, sym, ap, ap₂, ◌∙◌, inl, inr, some, List, [], ◌∷◌, ◌++◌, All, subst, Option-cases,
}
use lloogg.Store.{Store}
use lloogg.Store.Spec.{Logs, push_log, erase_log}
use lloogg.Store.View.{HasLogs}
use lloogg.Store.Open.{IsCapacity}
use lloogg.Store.Full.{push_record-Pushed}
use lloogg.Store.Push.{Pushed-HasLogs}
use lloogg.Store.Erase.{erase_lem, Erased-HasLogs}
use lloogg.Aof.Entry.{push, del, IsEntry, entries_bytes, push_entry-bytes, del_entry-bytes}
use lloogg.EventLoop.Changes.{
  Change, pushed, removed, evicted, change, changed, changes_bytes, IsChange, entries_of,
}
use lloogg.Ttl.Keep.{evict-IsValid}
use lloogg.Ttl.Evict.{evicted as evicted_log, evict-view}
use lloogg.Recovery.Restart.{logs_after}
use lloogg.Recovery.Service.{logs_after-later}

-- What a change does to the logs; an eviction removes the log whose last push the candidate names.
abbrev pub change_log : ℕ → Change → Logs → Logs
change_log cap (pushed uid r now) logs = push_log cap uid r now logs
change_log cap (removed uid now) logs = erase_log uid logs
change_log cap (evicted c) logs = λ u. evicted_log (c ∷ []) u (logs u)

-- What the changes do, the first one first.
unfoldable pub logs_by : ℕ → List Change → Logs → Logs
logs_by cap [] logs = logs
logs_by cap (c ∷ cs) logs = logs_by cap cs (change_log cap c logs)

-- The changes without the evictions.
abbrev pub unevicted : List Change → List Change
unevicted [] = []
unevicted (pushed uid r now ∷ cs) = pushed uid r now ∷ unevicted cs
unevicted (removed uid now ∷ cs) = removed uid now ∷ unevicted cs
unevicted (evicted c ∷ cs) = unevicted cs

change-HasLogs :
    {slots cap : ℕ} {logs : Logs} {s s' : Store} (c : Change)
    → IsChange c
    → IsCapacity cap
    → HasLogs slots cap logs s
    → change c s ≡ some s'
    → HasLogs slots cap (change_log cap c logs) s'
change-HasLogs (pushed uid r now) i k h e =
    Pushed-HasLogs uid r now h
      (push_record-Pushed uid r now i.0.2 (subst IsCapacity (sym h.capacity) k) h.valid e)
change-HasLogs {slots} {cap} {logs} {s} {s'} (removed uid now) i k h e =
    subst (HasLogs slots cap (erase_log uid logs)) (cc e)
      (Erased-HasLogs uid h (erase_lem uid h.valid))
change-HasLogs {slots} {cap} {logs} {s} {s'} (evicted c) i k h e =
    let (valid, same) = evict-IsValid s c h.valid in
    subst (HasLogs slots cap (change_log cap (evicted c) logs)) (cc e) (record {
      valid = valid;
      capacity = same ∙ h.capacity;
      logs_eq = fun_ext (evict-view s c h.valid).1 ∙ ap (change_log cap (evicted c)) h.logs_eq;
    })

-- The logs of the store follow the changes.
pub changed-HasLogs :
    {slots cap : ℕ} {logs : Logs} {s s' : Store} (cs : List Change)
    → All IsChange cs
    → IsCapacity cap
    → HasLogs slots cap logs s
    → changed cs s ≡ some s'
    → HasLogs slots cap (logs_by cap cs logs) s'
unfolding logs_by
changed-HasLogs {slots} {cap} {logs} [] i k h e = subst (HasLogs slots cap logs) (cc e) h
changed-HasLogs {cap = cap} {logs = logs} {s = s} (c ∷ cs) i k h e =
    elim (Option-cases (change c s)) [
      | inl full ↦ absurd (cc (rw (changed, full) at e))
      | inr (t, placed) ↦
          changed-HasLogs {logs = change_log cap c logs} cs i.1 k (change-HasLogs c i.0 k h placed)
            (rw (changed, placed) at e)
    ]

pub changes_bytes-entries : (cs : List Change) → changes_bytes cs ≡ entries_bytes (entries_of cs)
changes_bytes-entries [] = refl
changes_bytes-entries (pushed uid r now ∷ cs) =
    ap₂ ◌++◌ (push_entry-bytes uid r now) (changes_bytes-entries cs)
changes_bytes-entries (removed uid now ∷ cs) =
    ap₂ ◌++◌ (del_entry-bytes uid now) (changes_bytes-entries cs)
changes_bytes-entries (evicted c ∷ cs) = changes_bytes-entries cs

pub entries_of-IsEntry : (cs : List Change) → All IsChange cs → All IsEntry (entries_of cs)
entries_of-IsEntry [] i = tt
entries_of-IsEntry (pushed uid r now ∷ cs) i = (i.0.0, entries_of-IsEntry cs i.1)
entries_of-IsEntry (removed uid now ∷ cs) i = (i.0.0, entries_of-IsEntry cs i.1)
entries_of-IsEntry (evicted c ∷ cs) i = entries_of-IsEntry cs i.1

-- The replay of the entries makes what the changes without the evictions make.
pub logs_after-entries_of :
    (cap : ℕ) (cs : List Change) (logs : Logs)
    → All IsChange cs
    → logs_after cap 0 (entries_of cs) logs ≡ logs_by cap (unevicted cs) logs
unfolding logs_by logs_after
logs_after-entries_of cap [] logs i = refl
logs_after-entries_of cap (pushed uid r now ∷ cs) logs i =
    logs_after-later cap (push uid r now) (entries_of cs) logs i.0.1
    ∙ logs_after-entries_of cap cs (push_log cap uid r now logs) i.1
logs_after-entries_of cap (removed uid now ∷ cs) logs i =
    logs_after-later cap (del uid now) (entries_of cs) logs i.0.1
    ∙ logs_after-entries_of cap cs (erase_log uid logs) i.1
logs_after-entries_of cap (evicted c ∷ cs) logs i = logs_after-entries_of cap cs logs i.1
