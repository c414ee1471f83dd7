-- ===== src/Main.antt =====
-- The start of the server, `main` of src/main.rs.
use Prim.Native.String.{String}
use mathlib.Core.Path.{fun_ext}
use lloogg.Prelude.{
  ℕ, ◌+◌, ◌*◌, ◌^◌, ◌≤◌, ◌<◌, ◌≡◌, refl, ap, ◌∙◌, Option, none, some, List, [], ◌∷◌, ◌++◌, arith,
  length, ==-refl,
}
use lloogg.Constants.{IsCompiledN}
use lloogg.Error.{Result, ok, err}
use lloogg.Files.{Read, read}
use lloogg.Memory.{Memory}
use lloogg.Config.{Config}
use lloogg.Config.Load.{Document, from_args}
use lloogg.Ring.{RingBuffer}
use lloogg.HashMap.{HashMap, lookup}
use lloogg.StoreAlloc.{slot_size}
use lloogg.Store.{Store, with_pool_slots, len}
use lloogg.Store.View.{HasLogs, view, view_of}
use lloogg.Store.Spec.{no_logs}
use lloogg.Store.Create.{with_pool_slots_lem}
use lloogg.Aof.{AofWriter, Writes, flush_once}
use lloogg.Aof.Life.{open_writer, open_writer_lem}
use lloogg.Aof.Entry.{Entry}
use lloogg.Aof.Log.{IsComplete}
use lloogg.Snapshot.{dump_bytes}
use lloogg.Snapshot.Keys.{IsIteration}
use lloogg.Recovery.{recover}
use lloogg.Recovery.Service.{IsRecorded}
use lloogg.Recovery.Snapshots.{AreCovered, AreBehind, snapshot_restart_lem}
use lloogg.Ttl.{Candidate}
use lloogg.EventLoop.{EventLoop}
use lloogg.EventLoop.Tick.{new}
use lloogg.EventLoop.Serving.{IsServing}
use lloogg.EventLoop.Process.{IsCapacity-of}
use lloogg.EventLoop.Threads.{new-IsServing}

-- What the start takes from outside: the arguments, the file system and the parser of TOML, the memory
-- and the block for the slots, the results of `bind_listen_socket` and `epoll_create1`, `none` where an
-- assertion fails, what the append-only file at a path holds when it is opened, `none` for a path with a
-- NUL byte, and what the reads of the snapshot in a directory and of the append-only file at a path give.
pub record Machine (S : Type 0) : Type 0 where
  pub args : List String
  pub read : String → Option String
  pub parse : String → Option Document
  pub memory : Memory
  pub allocated : Option ℕ
  pub bound : Option ℕ
  pub opened : String → Option (Result (List ℕ))
  pub snapshot : String → Read
  pub aof : String → Read
  pub epoll : Option ℕ
  pub uninit : ℕ → Candidate
  pub net : S

-- `exits` is `std::process::exit(1)`.
pub data Started (S : Type 0) : Type 0 where
  runs : EventLoop S → Started S
  exits panics : Started S

abbrev pub or_panics {ℓ} :
    {A : Type ℓ} {S : Type 0} → Option A → (A → Option (Started S)) → Option (Started S)
or_panics none f = some panics
or_panics (some a) f = f a

abbrev pub or_exits {ℓ} :
    {A : Type ℓ} {S : Type 0} → Result A → (A → Option (Started S)) → Option (Started S)
or_exits (err e) f = some exits
or_exits (ok a) f = f a

module _ {S : Type 0} (compiled_n : ℕ) (m : Machine S) where
  -- The steps behind the configuration. `none` means that the fuel of the replay ran out.
  unfoldable pub start_with : Config → Option (Started S)
  unfolding with_pool_slots open_writer recover new
  start_with config =
      or_panics (with_pool_slots m.memory m.allocated compiled_n config.memory_pool_slots) (λ store.
        or_panics m.bound (λ listen_fd.
          or_panics (open_writer m.opened config.aof_path config.aof_fsync) (λ opened.
            or_exits opened (λ aof.
              elim (recover (m.snapshot config.snapshot_path) (m.aof config.aof_path) store) [
                | none ↦ none
                | some recovered ↦ or_panics recovered (λ result. or_exits result (λ store'.
                    or_panics (new m.epoll m.uninit m.net config store' aof listen_fd)
                      (λ l. some (runs l))))
              ]))))

  unfoldable pub main : Option (Started S)
  unfolding start_with from_args
  main = or_exits (from_args m.read m.parse compiled_n m.args) start_with

-- A store in which no user has a log has no user.
no_users :
    (m : Memory) (entries : HashMap RingBuffer)
    → ((u : ℕ) → view_of m (lookup u entries) ≡ none)
    → length entries ≡ 0
unfolding lookup
no_users m [] h = refl
no_users m ((uid, b) ∷ entries) h = absurd (ground (arith, h uid, ==-refl uid))

-- The steps in their order, each of them with a result.
start_with-runs :
    {S : Type 0} (n : ℕ) (m : Machine S) (config : Config) {store store' : Store} {listen_fd : ℕ}
    {aof : AofWriter} {l : EventLoop S}
    → with_pool_slots m.memory m.allocated n config.memory_pool_slots ≡ some store
    → m.bound ≡ some listen_fd
    → open_writer m.opened config.aof_path config.aof_fsync ≡ some (ok aof)
    → recover (m.snapshot config.snapshot_path) (m.aof config.aof_path) store
      ≡ some (some (ok store'))
    → new m.epoll m.uninit m.net config store' aof listen_fd ≡ some l
    → start_with n m config ≡ some (runs l)
unfolding start_with
start_with-runs n m config made bound opened recovered built =
    rw (start_with, made, bound, opened, or_exits, recovered, built)

-- A store as it is built holds no log and no user.
built-HasLogs :
    (m : Memory) (base cap slots : ℕ)
    → 0 < slots
    → 0 < base
    → base + slots * slot_size cap ≤ 2 ^ 64
    → (s : Store) × (with_pool_slots m (some base) cap slots ≡ some s)
      × HasLogs slots cap no_logs s
      × (len s ≡ 0)
built-HasLogs m base cap slots t p h =
    let (s, made, v, same, none_held) = with_pool_slots_lem m base cap slots t p h in
    (
      s,
      made,
      record { valid = v; capacity = same; logs_eq = fun_ext none_held },
      no_users s.mem s.map_of none_held,
    )

-- What the machine gives to the next start of the server: a configuration that is accepted, memory for
-- the slots, the sockets, the file `aof` and the snapshot.
pub record IsReady {S : Type 0} (n : ℕ) (config : Config) (snapshot aof : List ℕ) (m : Machine S)
    : Type 0 where
  pub configured : from_args m.read m.parse n m.args ≡ ok config
  pub base : ℕ
  pub allocated : m.allocated ≡ some base
  pub not_null : 0 < base
  pub in_range : base + config.memory_pool_slots * slot_size n ≤ 2 ^ 64
  pub some_slot : 0 < config.memory_pool_slots
  pub listen_fd : ℕ
  pub bound : m.bound ≡ some listen_fd
  pub epoll_fd : ℕ
  pub epoll : m.epoll ≡ some epoll_fd
  pub opened : m.opened config.aof_path ≡ some (ok aof)
  pub snapshot_eq : m.snapshot config.snapshot_path ≡ read snapshot
  pub aof_eq : m.aof config.aof_path ≡ read aof

main-configured :
    {S : Type 0} (n : ℕ) (m : Machine S) {config : Config}
    → from_args m.read m.parse n m.args ≡ ok config
    → main n m ≡ start_with n m config
unfolding main
main-configured n m h = rw (main, h)

-- The server survives a restart: after a flush, whose writes are complete, the next start of the server,
-- on a machine that is ready, from a snapshot and the append-only file, runs, with its invariant, and holds
-- exactly the logs that the old server held. The snapshot of `old` was dumped, in any order of its map, at
-- the time `ts`, when the entries `es` were recorded, none of them later, and the entries `fs` that came
-- after are all later; both states were in step with their logs. The capacity is that of the build, the
-- snapshot has less than 2 ^ 32 users, and there is a slot for each of them and of `fs`.
pub main_lem :
    {S : Type 0} (writes : Writes) {slots n : ℕ} {es : List Entry} (fs : List Entry) {old s : Store}
    {old_w w : AofWriter} (order : HashMap RingBuffer) (ts : ℕ) (config : Config) (m : Machine S)
    → IsComplete writes
    → IsRecorded slots n es old old_w
    → IsRecorded slots n (es ++ fs) s w
    → IsIteration order old.map_of
    → AreCovered ts es
    → AreBehind ts fs
    → IsCompiledN n
    → len old < 2 ^ 32
    → ts < 2 ^ 64
    → IsReady n config (dump_bytes old order ts) (flush_once writes w).file m
    → len old + length fs ≤ config.memory_pool_slots
    → (l : EventLoop S) × (main n m ≡ some (runs l))
      × IsServing config.memory_pool_slots n l
      × (view l.store ≡ view s)
main_lem writes {n = n} fs {old} {w = w} order ts config m complete before now i covered behind c
      small word ready room =
    let (fresh, made, h, no_user) =
      built-HasLogs m.memory ready.base n config.memory_pool_slots ready.some_slot ready.not_null
        ready.in_range in
    let (aof, opened, ring, whole, file) =
      open_writer_lem m.opened config.aof_path (flush_once writes w).file config.aof_fsync
        ready.opened in
    let (s', ran, v, same, logs) =
      snapshot_restart_lem writes fs order ts fresh complete before now i covered behind
        (IsCapacity-of c) small word h (omega (arith, room, no_user)) in
    let (l, built, serving, held) =
      new-IsServing ready.epoll_fd m.uninit m.net config s' aof ready.listen_fd v same ring in
    (
      l,
      main-configured n m ready.configured
          ∙ start_with-runs n m config {store = fresh} {store' = s'} {listen_fd = ready.listen_fd}
              {aof = aof} {l = l} (rw ready.allocated made) ready.bound opened
              (rw (ready.snapshot_eq, ready.aof_eq) ran) (rw ready.epoll built),
      serving,
      ap view held ∙ logs,
    )
