-- ===== src/Tests/Logs.antt =====
-- An append-only file with a few entries, its ring, and a restart.
use lloogg.Prelude.{ℕ, ◌≡◌, refl, none, some, List, [], ◌∷◌, ◌++◌, arith, take, All, replicate}
use lloogg.Record.{to_bytes}
use lloogg.HashMap.{lookup}
use lloogg.Constants.{status_ok}
use lloogg.Outcome.{done}
use lloogg.Store.{Store}
use lloogg.Store.Spec.{no_logs}
use lloogg.Store.View.{HasLogs}
use lloogg.Config.{everysec}
use lloogg.Aof.{put_bytes, ring_write, flush_to, AofWriter, Writes, pending, flush_once}
use lloogg.Aof.Circular.{circular-zero}
use lloogg.Aof.Entry.{Entry, push, del, IsEntry, entries_bytes}
use lloogg.Aof.Log
use lloogg.Aof.Log.{log, IsComplete, Appended, ring_write_lem}
use lloogg.Aof.Flush.{flush_once_drops}
use lloogg.Aof.Threads.{Shared, here, next, load, IsDurable, Steps-IsDurable}
use lloogg.Connection.{Connection, read_payload}
use lloogg.Commands.{push_command, del_command}
use lloogg.Commands.Frame
use lloogg.Commands.Push.{Answers}
use lloogg.Recovery.{replay_aof}
use lloogg.Recovery.Round.{IsTorn}
use lloogg.Recovery.Replay.{apply_all, replay_aof_lem}
use lloogg.Recovery.Restart.{logs_after}
use lloogg.Recovery.Service.{IsRecorded, push_command-IsRecorded, del_command-IsRecorded}
use lloogg.Tests.Stores.{zeroed, visit, visit-IsTyped, two_slots, two_slots-IsValid, two-IsCapacity}

abbrev pub whole_writes : Writes
whole_writes i n = some n

abbrev failing_writes : Writes
failing_writes i n = none

-- A ring three bytes before the end of its buffer, with nothing pending.
abbrev pub near_end : AofWriter
near_end = record { buf = zeroed; head = 4194301; tail = 4194301; file = []; fsync_mode = everysec }

pub near_end-IsValid : Log.IsValid near_end
unfolding pending
near_end-IsValid = omega arith

log-near_end : log near_end ≡ []
unfolding log pending
log-near_end = circular-zero zeroed 4194301

-- Five zero bytes pending, of which a flush has seen two.
abbrev five_pending : AofWriter
five_pending = record near_end { head = 4194306 }

five_pending-IsValid : Log.IsValid five_pending
unfolding pending
five_pending-IsValid = omega arith

-- Three bytes more, behind a flush that has failed.
abbrev three_more : AofWriter
three_more = record (flush_once failing_writes five_pending) {
  buf = put_bytes (flush_once failing_writes five_pending).buf 2 (7 ∷ 8 ∷ 9 ∷ []);
  head = 4194309;
}

three_more-appended :
    ring_write (flush_once failing_writes five_pending) (7 ∷ 8 ∷ 9 ∷ []) ≡ some three_more
unfolding ring_write flush_once flush_to pending
three_more-appended = refl

flush_once_drops_example :
    ((flush_once failing_writes five_pending).head ≡ 4194306)
    × ((flush_once failing_writes five_pending).tail ≡ 4194306)
    × ((flush_once whole_writes three_more).file ≡ 7 ∷ 8 ∷ 9 ∷ [])
flush_once_drops_example =
    flush_once_drops failing_writes five_pending (λ i n. refl) five_pending-IsValid whole_writes
      (7 ∷ 8 ∷ 9 ∷ []) (λ i n. refl) three_more-appended

abbrev idle : Shared
idle = record { writer = near_end; seen = none; history = [] }

idle-IsDurable : IsDurable idle
idle-IsDurable = record { valid = near_end-IsValid; complete = log-near_end; seen = tt }

Steps-IsDurable_example : IsDurable (record idle { seen = some 4194301 })
Steps-IsDurable_example =
    Steps-IsDurable {writes = whole_writes} (λ i n. refl) idle-IsDurable (next here (load refl))

abbrev two_entries : List Entry
two_entries = push 7 visit 9 ∷ del 7 10 ∷ []

two_entries-IsEntry : All IsEntry two_entries
two_entries-IsEntry = omega arith

-- The first twenty bytes of a push.
abbrev torn : List ℕ
torn = take 20 (entries_bytes (push 8 visit 11 ∷ []))

torn-IsTorn : IsTorn torn
unfolding to_bytes
torn-IsTorn = record { entry = push 8 visit 11; kept = 20; short = omega arith; torn_eq = refl }

replay_aof_example :
    replay_aof (entries_bytes two_entries ++ torn) 9 two_slots
    ≡ some (apply_all 9 two_entries two_slots)
replay_aof_example = replay_aof_lem two_entries torn 9 two_slots two_entries-IsEntry torn-IsTorn

pub two_slots-HasLogs : HasLogs 2 2 no_logs two_slots
unfolding lookup
two_slots-HasLogs = record { valid = two_slots-IsValid; capacity = refl; logs_eq = refl }

pub two_slots-IsRecorded : IsRecorded 2 2 [] two_slots near_end
unfolding logs_after
two_slots-IsRecorded = record {
  store = two_slots-HasLogs;
  ring = near_end-IsValid;
  logged = log-near_end;
  entries = tt;
}

abbrev pub requesting : Frame.Request → Connection
requesting req = record {
  fd = 5;
  state = read_payload;
  rbuf = Frame.encode req ++ replicate 8 0;
  rbuf_pos = 0;
  wbuf = replicate 64 0;
  wbuf_len = 0;
  wbuf_pos = 0;
}

push-Holds : Frame.Holds (requesting (Frame.push 7 visit)) (Frame.push 7 visit)
unfolding to_bytes
push-Holds = refl

push_command-IsRecorded_example :
    (conn' : Connection) × (s' : Store) × (w' : AofWriter) × (push_command whole_writes 9
        (requesting (Frame.push 7 visit))
        two_slots
        near_end
      ≡ done (conn', s', w'))
    × IsRecorded 2 2 (push 7 visit 9 ∷ []) s' w'
    × Answers conn' status_ok
unfolding pending
push_command-IsRecorded_example =
    push_command-IsRecorded whole_writes 9 (requesting (Frame.push 7 visit)) (omega arith)
      two_slots-IsRecorded (λ e. cc) (omega arith) (omega arith) (omega arith) 7 visit
      (omega arith, visit-IsTyped) push-Holds two-IsCapacity (omega arith)

del_command-IsRecorded_example :
    (conn' : Connection) × (s' : Store) × (w' : AofWriter) × (del_command whole_writes 9
        (requesting (Frame.del 7))
        two_slots
        near_end
      ≡ done (conn', s', w'))
    × IsRecorded 2 2 (del 7 9 ∷ []) s' w'
    × Answers conn' status_ok
unfolding pending
del_command-IsRecorded_example =
    del_command-IsRecorded whole_writes 9 (requesting (Frame.del 7)) (omega arith)
      two_slots-IsRecorded (λ e. cc) (omega arith) (omega arith) (omega arith) 7 (omega arith) refl
