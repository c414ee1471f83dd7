-- ===== src/Error.antt =====
-- src/error.rs. A message that the source formats is kept as the values that it shows.
use lloogg.Prelude.{ℕ}

pub data ProtocolError : Type 0 where
  bad_magic : (magic : ℕ) → ProtocolError
  unknown_opcode : (opcode : ℕ) → ProtocolError
  bad_payload_len : (opcode expected got : ℕ) → ProtocolError
  bad_count : (count : ℕ) → ProtocolError

pub data ConfigError : Type 0 where
  max_records_mismatch max_records_limit zero_ttl no_aof_path no_snapshot_path : ConfigError
  unknown_fsync cannot_read toml_parse : ConfigError

pub data WeloxsError : Type 0 where
  io : (errno : ℕ) → WeloxsError
  config : ConfigError → WeloxsError
  protocol : ProtocolError → WeloxsError

pub data Result {ℓ} (A : Type ℓ) : Type ℓ where
  ok : A → Result A
  err : WeloxsError → Result A

infixl 5 ◌>>=◌
abbrev pub ◌>>=◌ {ℓ κ} : {A : Type ℓ} {B : Type κ} → Result A → (A → Result B) → Result B
ok a >>= f = f a
err e >>= f = err e
