-- ===== src/Tests/Client.antt =====
-- The benchmark client: a frame in a receive buffer, and a command line.
use Prim.Native.String.{String}
use text.Mathlib.Text.{◌==◌ as str_eq}
use lloogg.Prelude.{
  List, ◌++◌, ◌∷◌, [], ℕ, true, ◌+◌, ◌%◌, ◌≤◌, ◌==◌, length, ℕ, ◌≡◌, refl, Option, none, some,
  if◌then◌else◌, ◌++◌, arith, replicate, slice,
}
use lloogg.Constants.{opcode_push}
use lloogg.Error.{ok}
use lloogg.Record.{of_bytes}
use lloogg.Connection.{Connection, validate_header, read_header}
use lloogg.Connection.Header.{IsBuffer}
use lloogg.Bench.{Cfg, build_push, parse_args}
use lloogg.Bench.Work.{Peer, Work, replied, lost, run_thread}
use lloogg.Bench.Count.{counted, run_thread-counted}
use lloogg.Bench.Answered.{Answers, run_thread-answered}
use lloogg.Bench.Percentile.{at_most, at_least, percentile, percentile_lem}
use lloogg.Bench.Frame.{probe, build_push_lem}
use lloogg.Bench.CommandLine.{
  Setting, threads, count, warmup, uid, pipeline, address, unknown, command_line,
  parse_args-command_line,
}

abbrev receiving : Connection
receiving = record {
  fd = 5;
  state = read_header;
  rbuf = build_push 7 ++ replicate 6 0;
  rbuf_pos = 26;
  wbuf = replicate 64 0;
  wbuf_len = 0;
  wbuf_pos = 0;
}

receiving-IsBuffer : IsBuffer 32 receiving.rbuf
unfolding build_push
receiving-IsBuffer = record { size_eq = refl; bytes = omega arith }

build_push_example :
    (validate_header receiving ≡ ok (opcode_push, 7, 17))
    × (of_bytes (slice receiving.rbuf 9 17) ≡ probe)
unfolding build_push
build_push_example = build_push_lem 7 receiving (omega arith) receiving-IsBuffer refl

abbrev load : Cfg
load = record {
  addr = "10.0.0.1:7379";
  threads = 8;
  count = 500;
  warmup = 8;
  uid = 500;
  pipeline = 8;
}

-- A parser that knows two numbers.
abbrev read_number : String → String → Option ℕ
read_number flag text =
    if str_eq text "8" then some 8 else if str_eq text "500" then some 500 else none

-- The address first, as in the usage, an option twice, and one that is unknown.
abbrev settings : List Setting
settings =
    address "10.0.0.1:7379"
    ∷ threads "8" 8
    ∷ warmup "500" 500
    ∷ unknown "--verbose"
    ∷ count "500" 500
    ∷ uid "500" 500
    ∷ pipeline "8" 8
    ∷ warmup "8" 8
    ∷ []

parse_args_example :
    (parse_args read_number (command_line settings) ≡ some load)
    × (parse_args read_number (command_line settings ++ "--threads" ∷ []) ≡ none)
    × (parse_args read_number (command_line settings ++ "--count" ∷ []) ≡ none)
    × (parse_args read_number (command_line settings ++ "--warmup" ∷ []) ≡ none)
    × (parse_args read_number (command_line settings ++ "--uid" ∷ []) ≡ none)
    × (parse_args read_number (command_line settings ++ "--pipeline" ∷ []) ≡ none)
parse_args_example = parse_args-command_line read_number settings (
  refl,
  (refl, (refl, ((refl, refl, refl, refl, refl, refl), (refl, (refl, (refl, (refl, tt))))))),
)

-- A server that answers at once.
abbrev quick : Peer
quick = record {
  write = λ i. true;
  read = λ i. replied;
  connect = λ i. true;
  elapsed = λ i. 80 + i;
}

quick-Answers : Answers quick
quick-Answers = record { connects = λ i. refl; takes = λ i. refl; answers = λ i. refl }

run_thread-answered_example :
    (w : Work) × (run_thread quick 3 10 4 ≡ some w) × (length w.latencies ≡ 10) × (w.errors ≡ 0)
run_thread-answered_example = run_thread-answered quick 3 10 4 quick-Answers

-- A server that closes the connection at every third request.
abbrev flaky : Peer
flaky = record quick { read = λ i. if i % 3 == 0 then lost else replied }

run_thread-counted_example : (w : Work) × (run_thread flaky 3 10 1 ≡ some w) × (counted w ≡ 10)
run_thread-counted_example = run_thread-counted flaky 3 10 1 (λ i. refl) (omega arith)

percentile_example :
    (v : ℕ) × (percentile 3 (10 ∷ 20 ∷ 20 ∷ 90 ∷ []) ≡ some v)
    × (3 ≤ at_most v (10 ∷ 20 ∷ 20 ∷ 90 ∷ []))
    × (5 ≤ at_least v (10 ∷ 20 ∷ 20 ∷ 90 ∷ []) + 3)
percentile_example =
    percentile_lem 3 (10 ∷ 20 ∷ 20 ∷ 90 ∷ []) (omega arith) (omega arith) (omega arith)
      (omega arith)
