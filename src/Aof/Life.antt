-- ===== src/Aof/Life.antt =====
-- The start and the end of an `AOFWriter` of src/aof.rs.
use Prim.Native.String.{String}
use lloogg.Prelude.{Option, some, ◌>>=◌, ℕ, ◌≡◌, refl, ap, ◌∙◌, List, ◌++◌, arith, append-nil}
use lloogg.Error.{Result, ok, err}
use lloogg.Config.{FsyncMode, always, everysec, never}
use lloogg.Aof.{AofWriter, Writes, pending, flush_once}
use lloogg.Aof.Circular.{circular-zero}
use lloogg.Aof.Log.{log, IsValid, IsComplete}
use lloogg.Aof.Flush.{flush_once_lem, flush_once-IsValid, log-flush_once}

-- What the file holds that `libc::open` has opened for appending, or `errno`.
unfoldable pub opened_writer : Result (List ℕ) → FsyncMode → Result AofWriter
opened_writer (err e) fsync_mode = err e
opened_writer (ok file) fsync_mode =
    ok (record { buf = λ x. 0; head = 0; tail = 0; file = file; fsync_mode = fsync_mode })

-- `opened path` is what `CString::new` and `libc::open` give, `none` for a path with a NUL byte, at which
-- the `unwrap` panics.
unfoldable pub open_writer :
    (opened : String → Option (Result (List ℕ))) → String → FsyncMode → Option (Result AofWriter)
unfolding opened_writer
open_writer opened path fsync_mode = do result ← opened path; some (opened_writer result fsync_mode)

-- The last drain of the flush thread, if there is one.
unfoldable pub joined : FsyncMode → Writes → AofWriter → AofWriter
joined always last w = w
joined everysec last w = flush_once last w
joined never last w = flush_once last w

-- `shutdown`: the end of the flush thread, and a flush behind it.
unfoldable pub shutdown : (last sync : Writes) → AofWriter → AofWriter
unfolding joined
shutdown last sync w = flush_once sync (joined w.fsync_mode last w)

joined-log :
    (mode : FsyncMode) (last : Writes) (w : AofWriter)
    → IsComplete last
    → IsValid w
    → IsValid (joined mode last w) × (log (joined mode last w) ≡ log w)
unfolding joined
joined-log always last w c v = (v, refl)
joined-log everysec last w c v = (flush_once-IsValid last w c v, log-flush_once last w c v)
joined-log never last w c v = (flush_once-IsValid last w c v, log-flush_once last w c v)

-- When all writes are complete, the end of the writer leaves nothing in the ring, and the file holds what
-- the log held: no entry that was appended is lost.
pub shutdown_lem :
    (last sync : Writes) (w : AofWriter)
    → IsComplete last
    → IsComplete sync
    → IsValid w
    → ((shutdown last sync w).file ≡ log w) × (pending (shutdown last sync w) ≡ 0)
unfolding shutdown
shutdown_lem last sync w l s v =
    let (v', same) = joined-log w.fsync_mode last w l v in
    let (file, empty) = flush_once_lem sync (joined w.fsync_mode last w) s v' in
    (file ∙ same, empty)

-- A writer that was opened on a file has a ring in step with it: its log is what the file holds.
pub open_writer_lem :
    (opened : String → Option (Result (List ℕ))) (path : String) (file : List ℕ)
    (fsync_mode : FsyncMode)
    → opened path ≡ some (ok file)
    → (w : AofWriter) × (open_writer opened path fsync_mode ≡ some (ok w))
      × IsValid w
      × (log w ≡ file)
      × (w.file ≡ file)
unfolding open_writer opened_writer log pending
open_writer_lem opened path file fsync_mode e = (
  record { buf = λ x. 0; head = 0; tail = 0; file = file; fsync_mode = fsync_mode },
  rw (open_writer, e),
  omega arith,
  ap (λ t. file ++ t) (circular-zero (λ x. 0) 0) ∙ append-nil file,
  refl,
)
