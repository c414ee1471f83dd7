-- ===== src/Tests/Requests.antt =====
-- Requests as they arrive, the responses, and a configuration.
use lloogg.Prelude.{◌^◌, ◌<◌, ◌≡◌, ◌↔◌, refl, ◌++◌, arith, slice, replicate}
use lloogg.Error.{ok}
use lloogg.Constants.{opcode_get}
use lloogg.Connection.{Connection, read_header, validate_header}
use lloogg.Connection.Header.{encode_header, IsCommand, validate_header_iff}
use lloogg.Commands.{get_command}
use lloogg.Commands.Frame
use lloogg.Commands.Get.{AnswersGet, get_command_lem}
use lloogg.Store.View.{view}
use lloogg.Config.{Config, RawConfig, everysec, validate}
use lloogg.Config.Validate.{IsAccepted, validate_iff}
use lloogg.Tests.Stores.{two_slots, two_slots-IsValid}
use lloogg.Tests.Logs.{requesting}

-- A request for the newest record of user 7, with a response buffer for two records.
abbrev asking : Connection
asking = requesting (Frame.get 7 1)

get_command_example : AnswersGet (get_command asking two_slots) 1 (view two_slots 7)
get_command_example =
    get_command_lem asking 7 1 (omega arith) refl two_slots-IsValid (omega arith) refl

-- A receive buffer with the header of a GET.
abbrev get_header : Connection
get_header = record asking {
  state = read_header;
  rbuf = encode_header opcode_get 7 2 ++ replicate 23 0;
}

validate_header_example :
    (validate_header get_header ≡ ok (opcode_get, 7, 2))
    ↔ (slice get_header.rbuf 0 9 ≡ encode_header opcode_get 7 2)
      × IsCommand opcode_get 2
      × (7 < 2 ^ 32)
validate_header_example =
    validate_header_iff get_header opcode_get 7 2 (record { size_eq = refl; bytes = omega arith })

abbrev raw_config : RawConfig
raw_config = record {
  max_records = 2;
  ttl_seconds = 600;
  aof_path = "a.aof";
  snapshot_path = "s.snap";
  snapshot_interval = 300;
  listen_port = 7878;
  memory_pool_slots = 2;
  aof_fsync = "everysec";
}

abbrev checked_config : Config
checked_config = record {
  max_records = 2;
  ttl_seconds = 600;
  aof_path = "a.aof";
  snapshot_path = "s.snap";
  snapshot_interval = 300;
  listen_port = 7878;
  memory_pool_slots = 2;
  aof_fsync = everysec;
}

validate_example :
    (validate 2 raw_config ≡ ok checked_config) ↔ IsAccepted 2 raw_config checked_config
validate_example = validate_iff 2 raw_config checked_config
