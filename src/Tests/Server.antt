-- ===== src/Tests/Server.antt =====
-- A server with a store of two slots, a listening socket and one connection.
use lloogg.Prelude.{
  ℕ, ◌+◌, ◌≤◌, ◌<◌, ◌≡◌, ◌⊎◌, refl, true, false, Option, some, List, [], ◌∷◌, arith,
}
use lloogg.Constants.{IsCompiledN}
use lloogg.Outcome.{Outcome}
use lloogg.Aof.{flush_once}
use lloogg.Config.{Config, everysec}
use lloogg.Commands.{get_command}
use lloogg.Commands.Frame
use lloogg.Spsc.{SpscQueue, queued}
use lloogg.Spsc.Fifo.{IsQueue}
use lloogg.Snapshot.Manager.{SnapshotManager, maybe_fork, maybe_fork_lem}
use lloogg.Ttl.{Candidate}
use lloogg.EventLoop.{EventLoop}
use lloogg.EventLoop.Answer.{IsAnswer, get_command-IsAnswer}
use lloogg.EventLoop.Serving.{IsServing}
use lloogg.EventLoop.Rounds.{ArePosix, IsRound, tick_lem}
use lloogg.EventLoop.Threads.{
  Steps, collect, fork, flush, here, next, Steps-IsServing, GoesOn, flush-GoesOn,
}
use lloogg.EventLoop.Tick.{Event, Tick, prepare, tick, collect_phase, fork_phase}
use lloogg.Tests.Stores.{two_slots, two_slots-IsValid}
use lloogg.Tests.Logs.{near_end, near_end-IsValid, whole_writes, requesting}
use lloogg.Tests.Loop.{slow, slow-IsBounded, slow-IsStream, accepted, accepted-IsOpen}

abbrev pub settings : Config
settings = record {
  max_records = 2;
  ttl_seconds = 60;
  aof_path = "aof.bin";
  snapshot_path = "snapshots";
  snapshot_interval = 10;
  listen_port = 7379;
  memory_pool_slots = 2;
  aof_fsync = everysec;
}

abbrev pub no_candidates : SpscQueue Candidate
no_candidates = record { buf = λ i. record { uid = 0; last_write_ts = 0 }; head = 0; tail = 0 }

pub no_candidates-IsQueue : (k : ℕ) → k < 64 → IsQueue k no_candidates
unfolding queued
no_candidates-IsQueue k h = record {
  small = h;
  head = omega arith;
  tail = omega arith;
  room = omega arith;
}

-- The peer of the connection has sent a DEL.
abbrev pub serving : EventLoop (List ℕ)
serving = record {
  store = two_slots;
  aof = near_end;
  connections = (5, accepted) ∷ [];
  config = settings;
  snapshot = record { snapshot_path = "snapshots"; child_pid = 0; last_snapshot_ts = 0 };
  epoll_fd = 4;
  listen_fd = 3;
  ttl_worker = some (record { running = true; thread = true; ttl_ns = 600 });
  candidates_in = no_candidates;
  expired_out = no_candidates;
  last_ttl_collect = 0;
  net = Frame.encode (Frame.del 7);
  calls = [];
}

pub serving-IsServing : IsServing 2 2 serving
serving-IsServing = record {
  store = two_slots-IsValid;
  capacity = refl;
  aof = near_end-IsValid;
  connections = (accepted-IsOpen, tt);
  candidates_in = no_candidates-IsQueue 13 (omega arith);
  expired_out = no_candidates-IsQueue 12 (omega arith);
}

pub two-IsCompiledN : IsCompiledN 2
two-IsCompiledN = omega arith

pub slow-ArePosix : ArePosix slow
slow-ArePosix = record {
  delivered = λ fd net. net;
  bounded = slow-IsBounded;
  stream = slow-IsStream;
}

abbrev arrival : Event
arrival = record {
  fd = 3;
  is_readable = true;
  is_writable = false;
  accepted = (6, λ x. 0) ∷ [];
  now = 9;
  writes = whole_writes;
}

abbrev pub request : Event
request = record arrival { fd = 5; accepted = [] }

-- A new connection, and a request on the old one.
abbrev busy : Tick
busy = record {
  collect_now = 20_000_000_000;
  order = [];
  fork_now = 20_000_000_000;
  running = λ pid. true;
  fork = some 77;
  events = arrival ∷ request ∷ [];
}

tick_example :
    (prepared : EventLoop (List ℕ)) × (o : Outcome (EventLoop (List ℕ))) × (prepare busy serving
      ≡ some prepared)
    × (tick slow 2 busy serving ≡ some o)
    × IsServing 2 2 prepared
    × IsRound 2 2 slow prepared o
tick_example = tick_lem two-IsCompiledN slow slow-ArePosix busy serving serving-IsServing

abbrev forked : EventLoop (List ℕ)
forked = fork_phase 20_000_000_000 (λ pid. true) (some 77) (collect_phase 20_000_000_000 [] serving)

forked-Steps : Steps slow 2 serving (record forked { aof = flush_once whole_writes forked.aof })
forked-Steps =
    next
      (next (next here (collect 20_000_000_000 [])) (fork 20_000_000_000 (λ pid. true) (some 77)))
      (flush whole_writes (λ i n. refl))

Steps-IsServing_example : IsServing 2 2 (record forked { aof = flush_once whole_writes forked.aof })
Steps-IsServing_example =
    Steps-IsServing two-IsCompiledN slow-ArePosix serving-IsServing forked-Steps

flush-GoesOn_example :
    GoesOn slow 2 2 request (record serving { aof = flush_once whole_writes serving.aof })
flush-GoesOn_example =
    flush-GoesOn two-IsCompiledN slow-ArePosix whole_writes request serving (λ i n. refl)
      serving-IsServing

get_command-IsAnswer_example :
    IsAnswer 64 (requesting (Frame.get 7 2)) (get_command (requesting (Frame.get 7 2)) two_slots)
get_command-IsAnswer_example =
    get_command-IsAnswer (requesting (Frame.get 7 2)) two_slots refl two_slots-IsValid refl

-- A child that has ended, and a new one ten seconds later.
abbrev ended_child : SnapshotManager
ended_child = record {
  snapshot_path = "snapshots";
  child_pid = 76;
  last_snapshot_ts = 5_000_000_000;
}

abbrev next_child : SnapshotManager
next_child = record ended_child { child_pid = 77; last_snapshot_ts = 20_000_000_000 }

abbrev later : ℕ
later = 20_000_000_000

abbrev child : Option ℕ
child = some 77

forks_again :
    maybe_fork later 10_000_000_000 (λ pid. false) child ended_child ≡ (next_child, some later)
unfolding maybe_fork
forks_again = refl

maybe_fork_example :
    (later ≡ later)
    × (ended_child.last_snapshot_ts + 10_000_000_000 ≤ later)
    × ((ended_child.child_pid ≡ 0) ⊎ (false ≡ false))
    × (next_child.last_snapshot_ts ≡ later)
    × (child ≡ some next_child.child_pid)
maybe_fork_example =
    maybe_fork_lem later 10_000_000_000 (λ pid. false) child ended_child (omega arith) (omega arith)
      forks_again
