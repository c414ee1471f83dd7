-- ===== src/Recovery/Service.antt =====
-- The running server against its log, and a restart.
use lloogg.Prelude.{
  ℕ, ◌+◌, ◌^◌, ◌≤◌, ◌<◌, ◌≡◌, ◌≢◌, sym, ap, ◌∙◌, some, List, [], ◌∷◌, ◌++◌, arith, leb, length,
  false, inl, All, All-append, append-nil, subst,
}
use lloogg.Record.{Record}
use lloogg.Constants.{aof_buf_size, status_ok}
use lloogg.Outcome.{done}
use lloogg.Store.{Store, len}
use lloogg.Store.Spec.{Logs, no_logs}
use lloogg.Store.View.{IsValid, HasLogs, view}
use lloogg.Store.Open.{IsCapacity}
use lloogg.Config.{always}
use lloogg.Aof.{AofWriter, Writes, pending, flush_once}
use lloogg.Aof.Entry.{
  Entry, push, del, IsEntry, entry_ts, entry_bytes, entries_bytes, entries_bytes-append,
}
use lloogg.Aof.Log
use lloogg.Aof.Log.{log, IsComplete}
use lloogg.Aof.Flush.{flush_once_lem}
use lloogg.Connection.{Connection}
use lloogg.Commands.{push_command, del_command}
use lloogg.Commands.Frame
use lloogg.Commands.Frame.{Request, IsRequest, Holds}
use lloogg.Commands.Push.{Answers, push_command_lem, del_command_lem}
use lloogg.Error.{ok}
use lloogg.Files.{read, not_found}
use lloogg.Snapshot.{load}
use lloogg.Recovery.{replay_aof, replay_file, recover}
use lloogg.Recovery.Round.{IsTorn-nil}
use lloogg.Store.Push.{Pushed-HasLogs}
use lloogg.Store.Erase.{Erased-HasLogs}
use lloogg.Recovery.Restart.{logs_after-append, apply_log, logs_after, replay_aof-HasLogs}

-- The store's logs are those of the entries `es` of its append-only file, ring included.
pub record IsRecorded (slots cap : ℕ) (es : List Entry) (s : Store) (w : AofWriter) : Type 0 where
  pub store : HasLogs slots cap (logs_after cap 0 es no_logs) s
  pub ring : Log.IsValid w
  pub logged : log w ≡ entries_bytes es
  pub entries : All IsEntry es

entries_bytes-last :
    (es : List Entry) (e : Entry) → entries_bytes (es ++ e ∷ []) ≡ entries_bytes es ++ entry_bytes e
entries_bytes-last es e =
    entries_bytes-append es (e ∷ []) ∙ ap (λ t. entries_bytes es ++ t) (append-nil (entry_bytes e))

pub logs_after-later :
    (cap : ℕ) (e : Entry) (es : List Entry) (logs : Logs)
    → 0 < entry_ts e
    → logs_after cap 0 (e ∷ es) logs ≡ logs_after cap 0 es (apply_log cap e logs)
unfolding logs_after
logs_after-later cap e es logs h = let later : leb (entry_ts e) 0 ≡ false = ground arith in rw later

logs_after-last :
    (cap : ℕ) (es : List Entry) (e : Entry) (logs : Logs)
    → 0 < entry_ts e
    → logs_after cap 0 (es ++ e ∷ []) logs ≡ apply_log cap e (logs_after cap 0 es logs)
unfolding logs_after
logs_after-last cap es e logs h =
    logs_after-append cap 0 es (e ∷ []) logs
    ∙ logs_after-later cap e [] (logs_after cap 0 es logs) h

module _ (writes : Writes) (ts : ℕ) (conn : Connection) {slots cap : ℕ} {es : List Entry}
    {s : Store} {w : AofWriter} (wide : 5 ≤ length conn.wbuf)
    (recorded : IsRecorded slots cap es s w) (mode : w.fsync_mode ≢ always)
    (room : pending w + 32 ≤ aof_buf_size) (clock : 0 < ts) (word : ts < 2 ^ 64) where
  -- PUSH of a well-formed frame answers OK and keeps the store and the log in step: both gain the
  -- same push. The file is written by the flush thread, the ring has room for 32 bytes, the clock is
  -- a positive 64-bit number, the response buffer has five bytes, the capacity is one that a ring
  -- buffer admits, and the store has a free slot.
  pub push_command-IsRecorded :
      (uid : ℕ) (r : Record)
      → IsRequest (Frame.push uid r)
      → Holds conn (Frame.push uid r)
      → IsCapacity cap
      → len s < slots
      → (conn' : Connection) × (s' : Store) × (w' : AofWriter) × (push_command writes ts conn s w
          ≡ done (conn', s', w'))
        × IsRecorded slots cap (es ++ push uid r ts ∷ []) s' w'
        × Answers conn' status_ok
  push_command-IsRecorded uid r i held c slot =
      let h : HasLogs slots cap (logs_after cap 0 es no_logs) s = recorded.store in
      let (conn', s', w', ran, a, p, answer) =
        push_command_lem writes ts conn wide h.valid recorded.ring mode room uid r i held
          (subst IsCapacity (sym h.capacity) c) (inl slot) in
      (
        conn',
        s',
        w',
        ran,
        record {
          store =
              subst (λ logs. HasLogs slots cap logs s')
                (sym (logs_after-last cap es (push uid r ts) no_logs clock))
                (Pushed-HasLogs uid r ts h p);
          ring = a.valid;
          logged =
              a.log_eq
              ∙ ap (λ t. t ++ entry_bytes (push uid r ts)) recorded.logged
              ∙ sym (entries_bytes-last es (push uid r ts));
          entries =
              All-append IsEntry es (push uid r ts ∷ []) recorded.entries ((i.0, word, i.1), tt);
        },
        answer,
      )

  -- DEL of a well-formed frame answers OK and keeps the store and the log in step: both gain the
  -- same removal, also for a user without a log. The file is written by the flush thread, the ring
  -- has room for 32 bytes, the clock is a positive 64-bit number, and the response buffer has five
  -- bytes.
  pub del_command-IsRecorded :
      (uid : ℕ)
      → IsRequest (Frame.del uid)
      → Holds conn (Frame.del uid)
      → (conn' : Connection) × (s' : Store) × (w' : AofWriter) × (del_command writes ts conn s w
          ≡ done (conn', s', w'))
        × IsRecorded slots cap (es ++ del uid ts ∷ []) s' w'
        × Answers conn' status_ok
  del_command-IsRecorded uid i held =
      let h : HasLogs slots cap (logs_after cap 0 es no_logs) s = recorded.store in
      let (conn', s', w', ran, a, p, answer) =
        del_command_lem writes ts conn wide h.valid recorded.ring mode room uid i held in
      (
        conn',
        s',
        w',
        ran,
        record {
          store =
              subst (λ logs. HasLogs slots cap logs s')
                (sym (logs_after-last cap es (del uid ts) no_logs clock)) (Erased-HasLogs uid h p);
          ring = a.valid;
          logged =
              a.log_eq
              ∙ ap (λ t. t ++ entry_bytes (del uid ts)) recorded.logged
              ∙ sym (entries_bytes-last es (del uid ts));
          entries = All-append IsEntry es (del uid ts ∷ []) recorded.entries ((i, word), tt);
        },
        answer,
      )

pub replay_file-read :
    (aof : List ℕ) (snapshot_ts : ℕ) (s : Store) {s' : Store}
    → replay_aof aof snapshot_ts s ≡ some (some s')
    → replay_file (read aof) snapshot_ts s ≡ some (some (ok s'))
unfolding replay_file
replay_file-read aof snapshot_ts s h = rw (replay_file, h)

recover-no_snapshot :
    (aof : List ℕ) (s : Store) {s' : Store}
    → replay_aof aof 0 s ≡ some (some s')
    → recover not_found (read aof) s ≡ some (some (ok s'))
unfolding recover load
recover-no_snapshot aof s h = replay_file-read aof 0 s h

-- The recovery from a file of whole entries, with no snapshot, into a new store with a slot for each.
pub recover-entries_bytes :
    {slots cap : ℕ} (es : List Entry) (fresh : Store)
    → All IsEntry es
    → IsCapacity cap
    → HasLogs slots cap no_logs fresh
    → len fresh + length es ≤ slots
    → (s' : Store) × (recover not_found (read (entries_bytes es)) fresh ≡ some (some (ok s')))
      × HasLogs slots cap (logs_after cap 0 es no_logs) s'
recover-entries_bytes es fresh entries cap h room =
    let whole : entries_bytes es ≡ entries_bytes es ++ [] = sym (append-nil (entries_bytes es)) in
    let (s', ran, h') = replay_aof-HasLogs 0 es [] entries IsTorn-nil cap h room in
    (s', recover-no_snapshot (entries_bytes es) fresh (rw whole ran), h')

-- After a flush, whose writes are complete, the recovery from the file, with no snapshot, into a new
-- store with a slot for every entry succeeds, and gives a valid store with exactly the logs of the
-- running store. The running store is in step with its log, and the capacity is one that a ring
-- buffer admits.
pub restart_lem :
    (writes : Writes) {slots cap : ℕ} {es : List Entry} {s : Store} {w : AofWriter} (fresh : Store)
    → IsComplete writes
    → IsRecorded slots cap es s w
    → IsCapacity cap
    → HasLogs slots cap no_logs fresh
    → len fresh + length es ≤ slots
    → (s' : Store) × (recover not_found (read (flush_once writes w).file) fresh
        ≡ some (some (ok s')))
      × IsValid slots s'
      × (view s' ≡ view s)
restart_lem writes {es = es} {s = s} {w = w} fresh c recorded cap h room =
    let whole = (flush_once_lem writes w c recorded.ring).0 ∙ recorded.logged in
    let (s', ran, h') = recover-entries_bytes es fresh recorded.entries cap h room in
    (s', rw whole ran, h'.valid, h'.logs_eq ∙ sym recorded.store.logs_eq)
