-- ===== src/Constants.antt =====
-- src/constants.rs, and the bounds that build.rs checks on COMPILED_N.
use Prim.Native.String.{String}
use lloogg.Prelude.{ℕ, ◌+◌, ◌*◌, ◌/◌, ◌≤◌, ◌<◌}

abbrev pub magic_wire : ℕ
magic_wire = 0xAE01

abbrev pub magic_snapshot : ℕ
magic_snapshot = 0x574C4F58

abbrev pub snapshot_version : ℕ
snapshot_version = 1

abbrev pub opcode_push : ℕ
opcode_push = 0x01

abbrev pub opcode_get : ℕ
opcode_get = 0x02

abbrev pub opcode_del : ℕ
opcode_del = 0x03

abbrev pub status_ok : ℕ
status_ok = 0x00

abbrev pub status_not_found : ℕ
status_not_found = 0x02

abbrev pub rbuf_size : ℕ
rbuf_size = 32

abbrev pub aof_buf_size : ℕ
aof_buf_size = 4_194_304

abbrev pub max_records_protocol_limit : ℕ
max_records_protocol_limit = 3_854

abbrev pub ttl_collect_interval_s : ℕ
ttl_collect_interval_s = 10

-- ceil((7 + N * 17) / 64) * 64
abbrev pub wbuf_size : ℕ → ℕ
wbuf_size compiled_n = (7 + compiled_n * 17 + 63) / 64 * 64

-- What build.rs and the static assertion require of COMPILED_N.
pub record IsCompiledN (n : ℕ) : Type 0 where
  pub positive : 0 < n
  pub limit : n ≤ max_records_protocol_limit

abbrev pub candidates_in_cap : ℕ
candidates_in_cap = 8_192

abbrev pub expired_keys_cap : ℕ
expired_keys_cap = 4_096

abbrev pub port_default : ℕ
port_default = 7379

abbrev pub snapshot_interval_s : ℕ
snapshot_interval_s = 120

abbrev pub memory_pool_slots_default : ℕ
memory_pool_slots_default = 1_200_000

abbrev pub config_path_default : String
config_path_default = "weloxs.toml"
