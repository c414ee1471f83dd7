-- ===== src/Config/Validate.antt =====
-- What `Config::validate` accepts.
use text.Mathlib.Text.{◌==◌ as str_eq}
use text.Mathlib.TextEquality.{eq_iff}
use Prim.Native.String.{String}
use lloogg.Prelude.{ℕ, ◌≤◌, ◌<◌, ◌≡◌, ◌≢◌, ◌↔◌, false, arith, refl, ap, ◌∙◌, inl, inr, Bool-cases}
use lloogg.Constants.{max_records_protocol_limit}
use lloogg.Error.{Result, ok, err}
use lloogg.Config.{
  Config, RawConfig, FsyncMode, always, everysec, never, parse_fsync, with_fsync, validate,
}

-- The word that a mode is written as.
abbrev pub fsync_word : FsyncMode → String
fsync_word always = "always"
fsync_word everysec = "everysec"
fsync_word never = "no"

parse_fsync_word : (mode : FsyncMode) → parse_fsync (fsync_word mode) ≡ ok mode
unfolding parse_fsync
parse_fsync_word always = refl
parse_fsync_word everysec = refl
parse_fsync_word never = refl

-- No other text is a mode.
fsync_word_of :
    (text : String) (mode : FsyncMode) → parse_fsync text ≡ ok mode → text ≡ fsync_word mode
unfolding parse_fsync
fsync_word_of text mode e = elim (Bool-cases (str_eq text "always")) [
  | inl is_always ↦
      let same : always ≡ mode = ground (arith, e) in
      (eq_iff text "always").0 is_always ∙ ap fsync_word same
  | inr not_always ↦ elim (Bool-cases (str_eq text "everysec")) [
    | inl is_everysec ↦
        let same : everysec ≡ mode = ground (arith, e) in
        (eq_iff text "everysec").0 is_everysec ∙ ap fsync_word same
    | inr not_everysec ↦ elim (Bool-cases (str_eq text "no")) [
      | inl is_no ↦
          let same : never ≡ mode = ground (arith, e) in
          (eq_iff text "no").0 is_no ∙ ap fsync_word same
      | inr unknown ↦ absurd (ground (arith, e))
    ]
  ]
]

-- The conditions on a configuration in the file, and what becomes of each of its values.
pub record IsAccepted (compiled_n : ℕ) (raw : RawConfig) (config : Config) : Type 0 where
  pub capacity : raw.max_records ≡ compiled_n
  pub limit : raw.max_records ≤ max_records_protocol_limit
  pub ttl : 0 < raw.ttl_seconds
  pub aof_given : raw.aof_path ≢ ""
  pub snapshot_given : raw.snapshot_path ≢ ""
  pub word : raw.aof_fsync ≡ fsync_word config.aof_fsync
  pub max_records : config.max_records ≡ compiled_n
  pub ttl_seconds : config.ttl_seconds ≡ raw.ttl_seconds
  pub aof_path : config.aof_path ≡ raw.aof_path
  pub snapshot_path : config.snapshot_path ≡ raw.snapshot_path
  pub snapshot_interval : config.snapshot_interval ≡ raw.snapshot_interval
  pub listen_port : config.listen_port ≡ raw.listen_port
  pub memory_pool_slots : config.memory_pool_slots ≡ raw.memory_pool_slots

str_eq_ne : (s t : String) → s ≢ t → str_eq s t ≡ false
str_eq_ne s t h = elim (Bool-cases (str_eq s t)) [
  | inl same ↦ absurd (h ((eq_iff s t).0 same))
  | inr other ↦ other
]

ne_str_eq : (s t : String) → str_eq s t ≡ false → s ≢ t
ne_str_eq s t h e = let same = (eq_iff s t).1 e in absurd (cc)

module _ (compiled_n : ℕ) (raw : RawConfig) where
  -- The checks that stand before the one of the mode, as the code makes them.
  record IsChecked : Type 0 where
    capacity : raw.max_records ≡ compiled_n
    limit : raw.max_records ≤ max_records_protocol_limit
    ttl : 0 < raw.ttl_seconds
    aof_given : str_eq raw.aof_path "" ≡ false
    snapshot_given : str_eq raw.snapshot_path "" ≡ false

  validate-mode :
      (config : Config) (mode : Result FsyncMode)
      → parse_fsync raw.aof_fsync ≡ mode
      → validate compiled_n raw ≡ ok config
      → IsChecked × (fsync : FsyncMode) × (mode ≡ ok fsync) × (config ≡ with_fsync raw fsync)
  unfolding validate
  validate-mode config (err e) m h = absurd (ground (arith, m, h))
  validate-mode config (ok fsync) m h = (
    record {
      capacity = ground (arith, m, h);
      limit = ground (arith, m, h);
      ttl = ground (arith, m, h);
      aof_given = ground (arith, m, h);
      snapshot_given = ground (arith, m, h);
    },
    fsync,
    refl,
    ground (arith, m, h),
  )

  IsAccepted-validate :
      (config : Config) → validate compiled_n raw ≡ ok config → IsAccepted compiled_n raw config
  unfolding with_fsync
  IsAccepted-validate config e =
      let (h, fsync, mode, same) = validate-mode config (parse_fsync raw.aof_fsync) refl e in
      rw same (record {
        capacity = h.capacity;
        limit = h.limit;
        ttl = h.ttl;
        aof_given = ne_str_eq raw.aof_path "" h.aof_given;
        snapshot_given = ne_str_eq raw.snapshot_path "" h.snapshot_given;
        word = fsync_word_of raw.aof_fsync fsync mode;
        max_records = h.capacity;
        ttl_seconds = refl;
        aof_path = refl;
        snapshot_path = refl;
        snapshot_interval = refl;
        listen_port = refl;
        memory_pool_slots = refl;
      })

  validate-IsAccepted :
      (config : Config) → IsAccepted compiled_n raw config → validate compiled_n raw ≡ ok config
  unfolding validate with_fsync
  validate-IsAccepted config a =
      let aof_given = str_eq_ne raw.aof_path "" a.aof_given in
      let snapshot_given = str_eq_ne raw.snapshot_path "" a.snapshot_given in
      let mode : parse_fsync raw.aof_fsync ≡ ok config.aof_fsync =
        ap parse_fsync a.word ∙ parse_fsync_word config.aof_fsync in
      let same : with_fsync raw config.aof_fsync ≡ config = ground (
        arith, a.capacity, a.max_records, a.ttl_seconds, a.aof_path, a.snapshot_path,
        a.snapshot_interval, a.listen_port, a.memory_pool_slots,
      ) in
      ground (arith, a.capacity, a.limit, a.ttl, aof_given, snapshot_given, mode, same)

-- A configuration in the file is accepted, as `config` and as no other, exactly if its capacity is the
-- compiled one and in the protocol's limit, the TTL is positive, both paths are given, the mode is one of
-- the words `always`, `everysec` and `no`, and `config` has the mode of that word and each other value as
-- it stands in the file.
pub validate_iff :
    (compiled_n : ℕ) (raw : RawConfig) (config : Config)
    → (validate compiled_n raw ≡ ok config) ↔ IsAccepted compiled_n raw config
validate_iff compiled_n raw config =
    (IsAccepted-validate compiled_n raw config, validate-IsAccepted compiled_n raw config)
