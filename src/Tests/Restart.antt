-- ===== src/Tests/Restart.antt =====
-- A store with one record, its snapshot, and the file behind it.
use mathlib.Core.Path.{fun_ext}
use lloogg.Prelude.{
  ◌+◌, ◌≤◌, ◌≡◌, refl, sym, ap, ◌∙◌, inl, Option, none, some, List, [], ◌∷◌, ◌++◌, arith, subst,
  All, append-nil,
}
use lloogg.Error.{ok}
use lloogg.Files.{read}
use lloogg.Store.{Store, push_record, erase, len}
use lloogg.Store.Spec.{Logs, no_logs, push_log, erase_log}
use lloogg.Store.View.{IsValid, HasLogs, view}
use lloogg.Store.Plain.{ArePlain, no_logs-ArePlain, push_log-ArePlain}
use lloogg.Store.Push.{Pushed, push_record_lem}
use lloogg.Store.Erase.{Erased, erase_lem}
use lloogg.Aof.{AofWriter, pending, flush_once}
use lloogg.Aof.Circular.{circular-zero}
use lloogg.Aof.Entry.{Entry, push, del, IsEntry, entries_bytes}
use lloogg.Aof.Log.{log}
use lloogg.Snapshot.{dump_bytes, parse_snapshot}
use lloogg.Snapshot.Keys.{IsIteration}
use lloogg.Snapshot.RoundTrip.{parse_snapshot-dump_bytes}
use lloogg.Recovery.{recover}
use lloogg.Recovery.Restart.{logs_after}
use lloogg.Recovery.Service.{IsRecorded}
use lloogg.Recovery.Snapshots.{snapshot_restart_lem}
use lloogg.Tests.Stores.{zeroed, visit, visit-IsTyped, two_slots, two_slots-IsValid, two-IsCapacity}
use lloogg.Tests.Logs.{near_end, two_slots-HasLogs, whole_writes}

abbrev pub stored : Option Store → Store
stored none = two_slots
stored (some s) = s

-- User 7 has one record.
abbrev pub one_pushed : Store
one_pushed = stored (push_record two_slots 7 visit 9)

one_pushed-Pushed : Pushed 2 two_slots 7 visit 9 one_pushed
one_pushed-Pushed =
    let (s', pushed, p) =
      push_record_lem 7 visit 9 visit-IsTyped two-IsCapacity two_slots-IsValid
        (inl (omega arith)) in
    subst (Pushed 2 two_slots 7 visit 9) (sym (ap stored pushed)) p

pub one_log : Logs
one_log = push_log 2 7 visit 9 no_logs

pub one_pushed-HasLogs : HasLogs 2 2 one_log one_pushed
unfolding one_log
one_pushed-HasLogs = record {
  valid = one_pushed-Pushed.valid;
  capacity = one_pushed-Pushed.capacity;
  logs_eq = fun_ext one_pushed-Pushed.logs ∙ ap (push_log 2 7 visit 9) (two_slots-HasLogs.logs_eq);
}

one_log-ArePlain : ArePlain 2 one_log
unfolding one_log
one_log-ArePlain =
    push_log-ArePlain 2 7 visit 9 no_logs (omega arith) (omega arith) (omega arith) visit-IsTyped
      (no_logs-ArePlain 2)

pub own_order : IsIteration one_pushed.map_of one_pushed.map_of
own_order = record { keys = one_pushed-HasLogs.valid.parts.keys; same = λ k. refl; size = refl }

pub len-one_pushed : len one_pushed ≤ 1
len-one_pushed = one_pushed-Pushed.len_le

parse_snapshot-dump_bytes_example :
    (s' : Store) × (parse_snapshot (dump_bytes one_pushed one_pushed.map_of 20) two_slots
      ≡ some (20, s'))
    × HasLogs 2 2 one_log s'
    × (len s' ≤ len two_slots + len one_pushed)
parse_snapshot-dump_bytes_example =
    parse_snapshot-dump_bytes one_pushed.map_of 20 one_pushed-HasLogs own_order one_log-ArePlain
      two-IsCapacity two_slots-HasLogs (omega (arith, len-one_pushed))
      (omega (arith, len-one_pushed)) (omega arith)

-- The ring of `near_end` behind a file of these entries.
abbrev pub logging : List Entry → AofWriter
logging es = record near_end { file = entries_bytes es }

log-logging : (es : List Entry) → log (logging es) ≡ entries_bytes es
unfolding log pending
log-logging es =
    ap (λ t. entries_bytes es ++ t) (circular-zero zeroed 4194301) ∙ append-nil (entries_bytes es)

logging-IsRecorded :
    (es : List Entry) {s : Store}
    → HasLogs 2 2 (logs_after 2 0 es no_logs) s
    → All IsEntry es
    → IsRecorded 2 2 es s (logging es)
unfolding pending
logging-IsRecorded es h i = record {
  store = h;
  ring = omega arith;
  logged = log-logging es;
  entries = i;
}

pub pushed-IsRecorded :
    IsRecorded 2 2 (push 7 visit 9 ∷ []) one_pushed (logging (push 7 visit 9 ∷ []))
unfolding logs_after one_log
pushed-IsRecorded =
    logging-IsRecorded (push 7 visit 9 ∷ []) one_pushed-HasLogs
      ((omega arith, omega arith, visit-IsTyped), tt)

abbrev pub erased_after : List Entry
erased_after = push 7 visit 9 ∷ del 7 25 ∷ []

-- User 7 is removed again.
erased-HasLogs : HasLogs 2 2 (erase_log 7 one_log) (erase one_pushed 7)
erased-HasLogs =
    let p : Erased 2 one_pushed 7 (erase one_pushed 7) = erase_lem 7 one_pushed-HasLogs.valid in
    record {
      valid = p.valid;
      capacity = p.capacity ∙ one_pushed-HasLogs.capacity;
      logs_eq = fun_ext p.logs ∙ ap (erase_log 7) one_pushed-HasLogs.logs_eq;
    }

pub erased-IsRecorded : IsRecorded 2 2 erased_after (erase one_pushed 7) (logging erased_after)
unfolding logs_after one_log
erased-IsRecorded =
    logging-IsRecorded erased_after erased-HasLogs
      ((omega arith, omega arith, visit-IsTyped), ((omega arith, omega arith), tt))

snapshot_restart_example :
    (s' : Store) × (recover
        (read (dump_bytes one_pushed one_pushed.map_of 20))
        (read (flush_once whole_writes (logging erased_after)).file)
        two_slots
      ≡ some (some (ok s')))
    × IsValid 2 s'
    × (s'.capacity ≡ 2)
    × (view s' ≡ view (erase one_pushed 7))
snapshot_restart_example =
    snapshot_restart_lem whole_writes (del 7 25 ∷ []) one_pushed.map_of 20 two_slots (λ i n. refl)
      pushed-IsRecorded erased-IsRecorded own_order (omega arith) (omega arith) two-IsCapacity
      (omega (arith, len-one_pushed)) (omega arith) two_slots-HasLogs
      (omega (arith, len-one_pushed))
