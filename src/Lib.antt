-- ===== src/Lib.antt =====
-- lloogg keeps, for each user, the newest COMPILED_N events in memory. Clients push a record, ask
-- for the newest records and delete a user over a binary protocol on TCP. One thread, the event
-- loop, owns all state. A change is appended to the append-only file before it is applied; a
-- second thread flushes the file. At start the store is filled from a snapshot and from the file.
--
-- The parts, with the code they model:
--
--   - Record, Constants, Error: src/record.rs, src/constants.rs, src/error.rs: the packed record
--     and its 17 bytes (`transmute` on a little-endian target is `to_bytes` and `of_bytes`), the
--     constants, the errors, whose messages are kept as the values they show.
--   - Memory: the process memory that raw pointers reach: a byte at each address. A pointer is a
--     number and null is 0. A typed write is the write of its bytes.
--   - Ring: src/ring_buffer.rs: `RingBuffer` (`data` is `data_ptr`), `push` and `get_last`, whose
--     loop is `fill`. Ring.Newest defines the view, the list of the records, newest first.
--   - MemoryPool, StoreAlloc: src/memory_pool.rs and the enum `StoreAlloc` of src/store.rs: the
--     free list threaded through the free slots, read and written through the memory.
--   - HashMap: `hashbrown::HashMap` as an association list.
--   - Store: src/store.rs: `with_pool_slots`, `get_or_create`, `get`, `erase`, `len`, `is_empty`.
--     `get_or_create` returns a pointer to the entry, which its callers write through at once:
--     `push_record` is that pair. Store.Spec says what a store promises, Store.View the view and
--     the invariant: the free list is a chain of slots, apart from each other and from the slots
--     of the users, and free and used slots together are all slots.
--   - Config: src/config.rs: `Config::validate`.
--   - Connection, Commands: src/connection.rs and src/commands.rs: the buffers of a client, the
--     header check, the responses, and PUSH, GET and DEL on a complete request.
--   - Aof: src/aof.rs: `AOFWriter` with its ring of 4 MiB and `head` and `tail` as 64-bit
--     counters. `flush_to` is `flush_once` after its loads. Aof.Life is `open` and `shutdown`.
--     Aof.Threads interleaves the event loop and the flush thread as a step relation: a flush loads
--     `head`, and other steps come before it stores `tail`.
--   - Files: the result of a read of a file.
--   - Build, Clock: build.rs, which writes COMPILED_N, and src/time.rs, the clock in nanoseconds.
--   - Snapshot: src/snapshot.rs: `dump_bytes` are the bytes of a snapshot, `parse_snapshot` and `load`
--     the way back. Snapshot.Disk is `dump_to_path` on a disk whose calls can fail: a call is an
--     effect on the directory with `snapshot.tmp` and `snapshot.bin`, and a crash cuts the list of
--     effects off. Every call of the buffered writer can fail there, also one that only fills the
--     buffer; the standard library's fails less often. Snapshot.Manager is `SnapshotManager` with `maybe_fork`. Snapshot.Keys has the
--     logs as a snapshot lists them, Snapshot.Load and Restore the two loops of the load.
--   - Recovery: src/recovery.rs: `recover`, `replay_file` (`replay_aof` with its read) and
--     `replay_aof` on the bytes. Recovery.Service relates the running store, the ring and the file,
--     Recovery.Changes and Shutdown the changes of the whole server and the file that it leaves,
--     Recovery.Snapshots adds a snapshot, Recovery.Crash a dump that is cut off. Recovery.Tail
--     is about entries behind a torn one.
--   - Spsc: src/spsc.rs: `SPSCQueue` with its mask as a bitwise and. Spsc.Fifo has the view as a
--     list.
--   - Ttl: src/ttl.rs: `drain_batch`, and of src/event_loop.rs `drain_expired_keys` and
--     `collect_ttl_candidates`, which are the other ends of the two queues. Ttl.Worker is
--     `TTLEvictionWorker`: its loop, with what the event loop does between two passes, and its stop.
--   - EventLoop: src/event_loop.rs: the state, the loops over `read` and `write` on one connection
--     (`read_loop`, `write_loop`), the handlers (Handlers, Dispatch, Accept), and the rounds of
--     `run` with what they take from outside (Tick). The calls whose results the code ignores are a
--     list, the last one first. Open says what a connection holds in each state, Serving what holds
--     of the whole loop between two handlers; Answer, Process, Events, Phases and Rounds follow
--     the calls from a response up to a round. Threads interleaves the event loop with the flush
--     thread and the eviction worker; a handler is one step, since the steps of the other threads
--     inside it can as well be taken before it or after it. Changes lists the changes of the store
--     with the bytes that are appended for them, and Requests says which changes the steps are to
--     make: that of the request which an event completes, and the evictions of the candidates in the
--     queue. Logged and Ahead follow them from a command up to the shutdown.
--   - Main: src/main.rs: the start of the server in its order, from the arguments to an event loop
--     that runs (`start_with`), an exit with code 1, or a panic. Config.Load is `from_args` and
--     `from_file` of src/config.rs.
--   - Bench: src/bin/bench.rs: the frame that the benchmark client sends, its command line, the work
--     of one of its threads with what it counts (Work), and the percentile.
--   - Tests: concrete inputs at which the results are applied.
--
-- How the code is modelled:
--
--   - COMPILED_N, which the build writes, is a parameter. `IsCompiledN` is what build.rs and the
--     static assertion require of it.
--   - A panic is `none`, or `panics` of Outcome where a handler may also wait; the spin loop of a
--     full ring is `none` of `ring_write`, `waits` of Outcome. The warning it logs is left out.
--   - What is not in the repository is an argument: the results of `libc::write` (`Writes`), the
--     time of `now_ns()`, `read` and `write` on sockets (`Sockets`), the results of `accept4`,
--     `epoll_wait`, `waitpid`, `fork` and `clock_gettime`, the reads of files, the results of the
--     calls of a dump (`Disk`), the server of the benchmark client (`Peer`), the order of an
--     iteration over a map, the base that `alloc` or `mmap` returned, and the content of
--     uninitialised buffers. `IsComplete` says that every write takes all its bytes.
--   - The file is the list of its bytes. `fdatasync` has no counterpart: the file is what was
--     written.
--   - `u16`, `u64` and `usize` arithmetic has its wrap-around written out.
--   - Atomic loads and stores are single steps on one shared state, as the release and acquire
--     pairs make them appear.
--   - Loops that end by what they read run on fuel. `replay_aof` starts with one more than the
--     length of the file, and each round takes 15 bytes or more. `read_loop` needs 27 at most,
--     since a request has 26 bytes at most; `write_loop` needs one for each byte of the response,
--     and the drain of a queue one more than the queue holds, since no push comes in between.
--
-- Not modelled: `bind_listen_socket` of src/event_loop.rs, a chain of socket calls; the signal
-- handlers of src/main.rs; syncing and closing files, and the start of threads; of src/bin/bench.rs
-- the threads, the printing, and the floating point in which the rank of a percentile is computed.
pub mod Prelude
pub mod Memory
pub mod Record
pub mod Constants
pub mod Error
pub mod Outcome
pub mod Files
pub mod Build
pub mod Clock
pub mod HashMap
pub mod Ring
pub mod MemoryPool
pub mod StoreAlloc
pub mod Store
pub mod Config
pub mod Aof
pub mod Connection
pub mod Commands
pub mod Snapshot
pub mod Recovery
pub mod Spsc
pub mod Ttl
pub mod EventLoop
pub mod Main
pub mod Bench
pub mod Tests
