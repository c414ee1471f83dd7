-- ===== src/Config/Load.antt =====
-- `from_args` and `from_file` of src/config.rs, and the defaults of its fields.
use Prim.Native.String.{String}
use lloogg.Prelude.{ℕ, ◌<◌, ◌≡◌, ◌≢◌, refl, Option, none, some, List, [], ◌∷◌, get_or}
use lloogg.Constants.{
  config_path_default, port_default, snapshot_interval_s, memory_pool_slots_default, IsCompiledN,
}
use lloogg.Error.{Result, ok, err, config, cannot_read, toml_parse, ◌>>=◌}
use lloogg.Config.{Config, RawConfig, everysec, parse_fsync, validate}
use lloogg.Config.Validate.{validate_iff}

-- The fields of a TOML document, of which those with a default may be missing.
pub record Document : Type 0 where
  pub max_records : ℕ
  pub ttl_seconds : ℕ
  pub aof_path : String
  pub snapshot_path : String
  pub snapshot_interval : Option ℕ
  pub listen_port : Option ℕ
  pub memory_pool_slots : Option ℕ
  pub aof_fsync : Option String

abbrev pub or_default {ℓ} : {A : Type ℓ} → Option A → A → A
or_default none d = d
or_default (some a) d = a

-- The `serde` attributes of `RawConfig`.
unfoldable pub with_defaults : Document → RawConfig
with_defaults doc = record {
  max_records = doc.max_records;
  ttl_seconds = doc.ttl_seconds;
  aof_path = doc.aof_path;
  snapshot_path = doc.snapshot_path;
  snapshot_interval = or_default doc.snapshot_interval snapshot_interval_s;
  listen_port = or_default doc.listen_port port_default;
  memory_pool_slots = or_default doc.memory_pool_slots memory_pool_slots_default;
  aof_fsync = or_default doc.aof_fsync "everysec";
}

-- An error of the file or of the parser, as the configuration error that it becomes.
abbrev pub or_error {ℓ} : {A : Type ℓ} → Option A → Result A → Result A
or_error none e = e
or_error (some a) e = ok a

-- `read` is `read_to_string`, and `parse` is `toml::from_str` before the defaults.
module _ (read : String → Option String) (parse : String → Option Document) (compiled_n : ℕ) where
  unfoldable pub from_file : String → Result Config
  unfolding with_defaults validate
  from_file path = do
    content ← or_error (read path) (err (config cannot_read))
    doc ← or_error (parse content) (err (config toml_parse))
    validate compiled_n (with_defaults doc)

  unfoldable pub from_args : List String → Result Config
  unfolding from_file
  from_args args = from_file (get_or args 1 config_path_default)

-- A document with the required fields alone.
abbrev pub required : (max_records ttl_seconds : ℕ) (aof_path snapshot_path : String) → Document
required max_records ttl_seconds aof_path snapshot_path = record {
  max_records = max_records;
  ttl_seconds = ttl_seconds;
  aof_path = aof_path;
  snapshot_path = snapshot_path;
  snapshot_interval = none;
  listen_port = none;
  memory_pool_slots = none;
  aof_fsync = none;
}

-- A server that is started with no argument reads the default path; a document with the four required
-- fields alone is accepted there, and gives the default port, interval and slots, and a flush every
-- second. It has the capacity of the build, a positive TTL and two paths.
pub from_args-required :
    (read : String → Option String) (parse : String → Option Document) (compiled_n ttl : ℕ)
    (program aof_path snapshot_path content : String)
    → IsCompiledN compiled_n
    → 0 < ttl
    → aof_path ≢ ""
    → snapshot_path ≢ ""
    → read config_path_default ≡ some content
    → parse content ≡ some (required compiled_n ttl aof_path snapshot_path)
    → from_args read parse compiled_n (program ∷ [])
      ≡ ok (record {
        max_records = compiled_n;
        ttl_seconds = ttl;
        aof_path = aof_path;
        snapshot_path = snapshot_path;
        snapshot_interval = 120;
        listen_port = 7379;
        memory_pool_slots = 1_200_000;
        aof_fsync = everysec;
      })
unfolding from_args from_file with_defaults parse_fsync
from_args-required read parse compiled_n ttl program aof_path snapshot_path content c t a s is_read
      parsed =
    rw (from_args, from_file, is_read, parsed)
      ((validate_iff compiled_n (with_defaults (required compiled_n ttl aof_path snapshot_path))
          _).1
        (record {
          capacity = refl;
          limit = c.limit;
          ttl = t;
          aof_given = a;
          snapshot_given = s;
          word = refl;
          max_records = refl;
          ttl_seconds = refl;
          aof_path = refl;
          snapshot_path = refl;
          snapshot_interval = refl;
          listen_port = refl;
          memory_pool_slots = refl;
        }))
