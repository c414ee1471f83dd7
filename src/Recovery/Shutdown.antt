-- ===== src/Recovery/Shutdown.antt =====
-- The recovery from the file that a shutdown of the server leaves.
use lloogg.Prelude.{
  ℕ, ◌+◌, ◌≤◌, ◌≡◌, ◌≢◌, refl, sym, ap, ap₂, ◌∙◌, some, List, ◌++◌, All-append, length, arith,
  length-append,
}
use lloogg.Constants.{IsCompiledN}
use lloogg.Error.{ok}
use lloogg.Files.{read, not_found}
use lloogg.Store.{Store, len}
use lloogg.Store.Spec.{no_logs}
use lloogg.Store.View.{IsValid, HasLogs, view}
use lloogg.Config.{always}
use lloogg.Aof.{AofWriter, Writes}
use lloogg.Aof.Entry.{Entry, IsEntry, entries_bytes, entries_bytes-append}
use lloogg.Aof.Log.{log, IsComplete}
use lloogg.EventLoop.{EventLoop, Sockets}
use lloogg.EventLoop.Serving.{IsServing}
use lloogg.EventLoop.Process.{IsCapacity-of}
use lloogg.EventLoop.Rounds.{ArePosix}
use lloogg.EventLoop.Tick.{shutdown}
use lloogg.EventLoop.Threads.{Steps, Steps-IsServing}
use lloogg.EventLoop.Changes.{Change, entries_of, IsLogged}
use lloogg.EventLoop.Requests.{changes_of}
use lloogg.Ttl.Worker.{Round}
use lloogg.EventLoop.Ahead.{shutdown-ends, Steps-IsLogged}
use lloogg.Recovery.{recover}
use lloogg.Recovery.Restart.{logs_after, logs_after-append}
use lloogg.Recovery.Service.{IsRecorded, recover-entries_bytes}
use lloogg.Recovery.Changes.{
  logs_by, unevicted, changed-HasLogs, changes_bytes-entries, entries_of-IsEntry,
  logs_after-entries_of,
}

module _ {slots n : ℕ} (c : IsCompiledN n) {es : List Entry} {s : Store} {w : AofWriter}
    (recorded : IsRecorded slots n es s w) where
  -- The recovery from the entries at the start and those of the changes.
  recover-changes :
      {cs : List Change} {room : ℕ} {t : Store} {w' : AofWriter} (logged : IsLogged cs s w t w')
      (fresh : Store)
      → HasLogs room n no_logs fresh
      → len fresh + (length es + length (entries_of cs)) ≤ room
      → (s' : Store) × (recover not_found (read (log w')) fresh ≡ some (some (ok s')))
        × IsValid room s'
        × (view s' ≡ logs_by n (unevicted cs) (view s))
  recover-changes {cs} {w' = w'} logged fresh empty fits =
      let fs = entries_of cs in
      let entries =
        All-append IsEntry es fs recorded.entries (entries_of-IsEntry cs logged.typed) in
      let whole : log w' ≡ entries_bytes (es ++ fs) =
        logged.log_eq
        ∙ ap₂ ◌++◌ recorded.logged (changes_bytes-entries cs)
        ∙ sym (entries_bytes-append es fs) in
      let (s', ran, h') =
        recover-entries_bytes (es ++ fs) fresh entries (IsCapacity-of c) empty
          (omega (arith, length-append es fs, fits)) in
      (
        s',
        rw whole ran,
        h'.valid,
        h'.logs_eq
            ∙ logs_after-append n 0 es fs no_logs
            ∙ ap (logs_after n 0 fs) (sym recorded.store.logs_eq)
            ∙ logs_after-entries_of n cs (view s) logged.typed,
      )

module _ {S : Type 0} {sockets : Sockets S} {slots n : ℕ} (c : IsCompiledN n)
    (posix : ArePosix sockets) {es : List Entry} {l l' : EventLoop S} where
  -- However the event loop, the flush thread and the eviction worker have taken turns up to the shutdown,
  -- the shutdown comes to an end and the next start recovers what the clients asked for: from the file that is left, with no snapshot, the
  -- recovery into a new store succeeds and gives a valid store. The logs of the running store are what
  -- the requests of the steps and the evictions of the candidates that the worker has handed over, in
  -- their order, make of the logs at the start; the recovered ones are what the same requests make
  -- without the evictions. The start is a serving state in step with its log, the file is written by the
  -- flush thread, the sockets keep their promises, the clock reads a positive 64-bit number at each event,
  -- the writes of the flushes are complete, and the new store has a slot for every entry at the start and
  -- for every push and removal since.
  pub recover-shutdown :
      {room : ℕ} (rounds : List Round) (last_round : Round) (last sync : Writes) (fds : List ℕ)
      (fresh : Store)
      → IsServing slots n l
      → IsRecorded slots n es l.store l.aof
      → l.aof.fsync_mode ≢ always
      → (steps : Steps sockets n l l') → IsComplete last
      → IsComplete sync
      → HasLogs room n no_logs fresh
      → len fresh + (length es + length (entries_of (changes_of steps))) ≤ room
      → (end : EventLoop S) × (s' : Store) × (shutdown rounds last_round last sync fds l'
          ≡ some end)
        × (recover not_found (read end.aof.file) fresh ≡ some (some (ok s')))
        × IsValid room s'
        × (view s' ≡ logs_by n (unevicted (changes_of steps)) (view l.store))
        × (view end.store ≡ logs_by n (changes_of steps) (view l.store))
  recover-shutdown rounds last_round last sync fds fresh h recorded mode steps c0 c1 empty fits =
      let logged = Steps-IsLogged c posix h mode steps in
      let (s', ran, valid, view_eq) = recover-changes c recorded logged fresh empty fits in
      let (end, ended, store_eq, file_eq) =
        shutdown-ends rounds last_round last sync fds l' (Steps-IsServing c posix h steps) c0 c1 in
      let running =
        changed-HasLogs (changes_of steps) logged.typed (IsCapacity-of c)
          (record { valid = h.store; capacity = h.capacity; logs_eq = refl }) logged.changed_eq in
      (end, s', ended, rw file_eq ran, valid, view_eq, rw store_eq running.logs_eq)
