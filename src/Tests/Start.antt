-- ===== src/Tests/Start.antt =====
-- The start of the server from a snapshot and a file, and the configuration that it reads.
use lloogg.Prelude.{◌<◌, ◌^◌, ◌↔◌, ◌⊎◌, ℕ, ◌≡◌, refl, none, some, List, [], ◌∷◌, arith}
use lloogg.Constants.{IsCompiledN}
use lloogg.Build.{requested, compiled_n, compiled_n_iff}
use lloogg.Clock.{Timespec, now_ns, now_ns-order}
use lloogg.Error.{ok}
use lloogg.Files.{read}
use lloogg.Config.{parse_fsync, validate}
use lloogg.Config.Load.{Document, with_defaults, from_file, from_args}
use lloogg.Store.View.{view}
use lloogg.Store.{erase}
use lloogg.Aof.{flush_once}
use lloogg.Aof.Entry.{del}
use lloogg.Snapshot.{dump_bytes}
use lloogg.EventLoop.{EventLoop}
use lloogg.EventLoop.Serving.{IsServing}
use lloogg.Main.{Machine, runs, main, IsReady, main_lem}
use lloogg.Tests.Stores.{zeroed, room_for_two}
use lloogg.Tests.Logs.{whole_writes}
use lloogg.Tests.Restart.{
  one_pushed, own_order, len-one_pushed, logging, erased_after, pushed-IsRecorded,
  erased-IsRecorded,
}
use lloogg.Tests.Server.{settings, two-IsCompiledN}

abbrev document : Document
document = record {
  max_records = 2;
  ttl_seconds = 60;
  aof_path = "aof.bin";
  snapshot_path = "snapshots";
  snapshot_interval = some 10;
  listen_port = none;
  memory_pool_slots = some 2;
  aof_fsync = none;
}

-- User 7 was pushed before the snapshot and removed behind it.
abbrev machine : Machine (List ℕ)
machine = record {
  args = "lloogg" ∷ "my.toml" ∷ [];
  read = λ path. some path;
  parse = λ content. some document;
  memory = zeroed;
  allocated = some 4096;
  bound = some 3;
  opened = λ path. some (ok (flush_once whole_writes (logging erased_after)).file);
  snapshot = λ path. read (dump_bytes one_pushed one_pushed.map_of 20);
  aof = λ path. read (flush_once whole_writes (logging erased_after)).file;
  epoll = some 4;
  uninit = λ i. record { uid = 0; last_write_ts = 0 };
  net = [];
}

machine-IsReady :
    IsReady 2 settings
      (dump_bytes one_pushed one_pushed.map_of 20)
      (flush_once whole_writes (logging erased_after)).file
      machine
unfolding from_args from_file with_defaults validate parse_fsync
machine-IsReady = record {
  configured = refl;
  base = 4096;
  allocated = refl;
  not_null = omega arith;
  in_range = room_for_two;
  some_slot = omega arith;
  listen_fd = 3;
  bound = refl;
  epoll_fd = 4;
  epoll = refl;
  opened = refl;
  snapshot_eq = refl;
  aof_eq = refl;
}

main_example :
    (l : EventLoop (List ℕ)) × (main 2 machine ≡ some (runs l))
    × IsServing 2 2 l
    × (view l.store ≡ view (erase one_pushed 7))
main_example =
    main_lem whole_writes (del 7 25 ∷ []) one_pushed.map_of 20 settings machine (λ i n. refl)
      pushed-IsRecorded erased-IsRecorded own_order (omega arith) (omega arith) two-IsCompiledN
      (omega (arith, len-one_pushed)) (omega arith) machine-IsReady (omega (arith, len-one_pushed))

compiled_n_example :
    (compiled_n (some "2") (λ text. some 2) ≡ some 2)
    ↔ ((2 ≡ requested (some "2") (λ text. some 2)) × IsCompiledN 2)
compiled_n_example = compiled_n_iff (some "2") (λ text. some 2) 2

abbrev early : Timespec
early = record { tv_sec = 1_700_000_000; tv_nsec = 999_999_999 }

abbrev late : Timespec
late = record { tv_sec = 1_700_000_001; tv_nsec = 0 }

now_ns-order_example :
    (1_700_000_000_999_999_999 < 2 ^ 64)
    × ((1_700_000_000_999_999_999 < 1_700_000_001_000_000_000) ↔ (
        (early.tv_sec < late.tv_sec)
        ⊎ ((early.tv_sec ≡ late.tv_sec) × (early.tv_nsec < late.tv_nsec))))
unfolding now_ns
now_ns-order_example = now_ns-order early late (omega arith) (omega arith) refl refl
