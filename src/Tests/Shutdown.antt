-- ===== src/Tests/Shutdown.antt =====
-- A server that handles a request and is shut down.
use lloogg.Prelude.{arith, ℕ, ◌≡◌, refl, Option, none, some, List, [], ◌∷◌, ◌++◌}
use lloogg.Outcome.{Outcome, done, waits, panics}
use lloogg.HashMap.{lookup, insert}
use lloogg.Record.{to_bytes, of_bytes}
use lloogg.Connection
use lloogg.Connection.{header_user_id, header_opcode, validate_header}
use lloogg.Commands.{push_command, del_command}
use lloogg.Aof.{append_push, append_del, write_entry, push_entry, del_entry, flush_once}
use lloogg.Aof.Log.{log}
use lloogg.Commands.Frame
use lloogg.EventLoop.{EventLoop, read_loop}
use lloogg.EventLoop.Serving.{IsServing}
use lloogg.EventLoop.Threads.{Steps, event, flush, here, next}
use lloogg.EventLoop.Tick.{handle_event, shutdown}
use lloogg.EventLoop.Changes.{pushed, removed, changed, changes_bytes}
use lloogg.EventLoop.Requests.{changes_of}
use lloogg.Ttl.Worker.{Round}
use lloogg.EventLoop.Ahead.{shutdown-IsLogged}
use lloogg.Error.{ok}
use lloogg.Files.{read, not_found}
use lloogg.StoreAlloc.{alloc}
use lloogg.Store.{Store, push_record}
use lloogg.Store.View.{IsValid, view}
use lloogg.Recovery.{recover}
use lloogg.Recovery.Changes.{logs_by, unevicted}
use lloogg.Recovery.Shutdown.{recover-shutdown}
use lloogg.Tests.Stores.{visit, two_slots}
use lloogg.Tests.Logs.{two_slots-IsRecorded, two_slots-HasLogs, whole_writes}
use lloogg.Tests.Loop.{slow}
use lloogg.Tests.Server.{serving, serving-IsServing, slow-ArePosix, two-IsCompiledN, request}

abbrev handled : Option (Outcome (EventLoop (List ℕ))) → EventLoop (List ℕ)
handled (some (done l)) = l
handled (some waits) = serving
handled (some panics) = serving
handled none = serving

abbrev after_request : EventLoop (List ℕ)
after_request = handled (handle_event slow 2 request serving)

request-handled : handle_event slow 2 request serving ≡ some (done after_request)
unfolding handle_event lookup validate_header insert del_command append_del write_entry del_entry
request-handled = refl

-- The request and then a flush.
abbrev request_steps :
    Steps slow 2 serving (record after_request { aof = flush_once whole_writes after_request.aof })
request_steps =
    next (next here (event request (omega arith) request-handled))
      (flush whole_writes (λ i n. refl))

request-removes : changes_of request_steps ≡ removed 7 9 ∷ []
unfolding read_loop lookup header_user_id header_opcode Connection.new validate_header
request-removes = refl

-- The worker has one round more.
abbrev idle_round : Round
idle_round = record { order = []; taken = 0; clock = λ i. 9 }

shutdown-IsLogged_example :
    (end : EventLoop (List ℕ)) × (shutdown [] idle_round whole_writes whole_writes
        (5 ∷ [])
        (record after_request { aof = flush_once whole_writes after_request.aof })
      ≡ some end)
    × (changed (changes_of request_steps) serving.store ≡ some end.store)
    × (end.aof.file ≡ log serving.aof ++ changes_bytes (changes_of request_steps))
shutdown-IsLogged_example =
    shutdown-IsLogged two-IsCompiledN slow-ArePosix [] idle_round whole_writes whole_writes (5 ∷ [])
      serving-IsServing (λ e. cc) request_steps (λ i n. refl) (λ i n. refl)

-- The same server when a PUSH arrives.
abbrev pushing : EventLoop (List ℕ)
pushing = record serving { net = Frame.encode (Frame.push 7 visit) }

pushing-IsServing : IsServing 2 2 pushing
pushing-IsServing = record {
  store = serving-IsServing.store;
  capacity = serving-IsServing.capacity;
  aof = serving-IsServing.aof;
  connections = serving-IsServing.connections;
  candidates_in = serving-IsServing.candidates_in;
  expired_out = serving-IsServing.expired_out;
}

abbrev after_push : EventLoop (List ℕ)
after_push = handled (handle_event slow 2 request pushing)

push-handled : handle_event slow 2 request pushing ≡ some (done after_push)
unfolding handle_event lookup validate_header insert push_command append_push write_entry push_entry
    push_record alloc
push-handled = refl

abbrev push_steps : Steps slow 2 pushing after_push
push_steps = next here (event request (omega arith) push-handled)

push-pushes : changes_of push_steps ≡ pushed 7 visit 9 ∷ []
unfolding read_loop lookup header_user_id header_opcode Connection.new validate_header to_bytes
    of_bytes
push-pushes = refl

recover-shutdown_example :
    (end : EventLoop (List ℕ)) × (s' : Store) × (shutdown [] idle_round whole_writes whole_writes
        (5 ∷ [])
        after_push
      ≡ some end)
    × (recover not_found (read end.aof.file) two_slots ≡ some (some (ok s')))
    × IsValid 2 s'
    × (view s' ≡ logs_by 2 (unevicted (changes_of push_steps)) (view two_slots))
    × (view end.store ≡ logs_by 2 (changes_of push_steps) (view two_slots))
recover-shutdown_example =
    recover-shutdown two-IsCompiledN slow-ArePosix [] idle_round whole_writes whole_writes (5 ∷ [])
      two_slots pushing-IsServing two_slots-IsRecorded (λ e. cc) push_steps (λ i n. refl)
      (λ i n. refl) two_slots-HasLogs (rw push-pushes (omega arith))
