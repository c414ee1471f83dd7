-- ===== src/Config.antt =====
-- src/config.rs: the checks on a configuration that was read from TOML.
pub mod Validate
pub mod Load
use Prim.Native.String.{String}
use text.Mathlib.Text.{◌==◌ as str_eq}
use lloogg.Prelude.{ℕ, ◌==◌, if◌then◌else◌, ltb, not}
use lloogg.Constants.{max_records_protocol_limit}
use lloogg.Error.{
  Result, ok, err, config, max_records_mismatch, max_records_limit, zero_ttl, no_aof_path,
  no_snapshot_path, unknown_fsync, ◌>>=◌,
}

pub data FsyncMode : Type 0 where
  always everysec never : FsyncMode

pub record Config : Type 0 where
  pub max_records : ℕ
  pub ttl_seconds : ℕ
  pub aof_path : String
  pub snapshot_path : String
  pub snapshot_interval : ℕ
  pub listen_port : ℕ
  pub memory_pool_slots : ℕ
  pub aof_fsync : FsyncMode

pub record RawConfig : Type 0 where
  pub max_records : ℕ
  pub ttl_seconds : ℕ
  pub aof_path : String
  pub snapshot_path : String
  pub snapshot_interval : ℕ
  pub listen_port : ℕ
  pub memory_pool_slots : ℕ
  pub aof_fsync : String

unfoldable pub parse_fsync : String → Result FsyncMode
parse_fsync text =
    if str_eq text "always"
    then ok always
    else if str_eq text "everysec"
    then ok everysec
    else if str_eq text "no"
    then ok never
    else err (config unknown_fsync)

unfoldable pub with_fsync : RawConfig → FsyncMode → Config
with_fsync raw fsync = record {
  max_records = raw.max_records;
  ttl_seconds = raw.ttl_seconds;
  aof_path = raw.aof_path;
  snapshot_path = raw.snapshot_path;
  snapshot_interval = raw.snapshot_interval;
  listen_port = raw.listen_port;
  memory_pool_slots = raw.memory_pool_slots;
  aof_fsync = fsync;
}

unfoldable pub validate : ℕ → RawConfig → Result Config
unfolding with_fsync
validate compiled_n raw =
    if not (raw.max_records == compiled_n)
    then err (config max_records_mismatch)
    else if ltb max_records_protocol_limit raw.max_records
    then err (config max_records_limit)
    else if raw.ttl_seconds == 0
    then err (config zero_ttl)
    else if str_eq raw.aof_path ""
    then err (config no_aof_path)
    else if str_eq raw.snapshot_path ""
    then err (config no_snapshot_path)
    else do fsync ← parse_fsync raw.aof_fsync; ok (with_fsync raw fsync)
