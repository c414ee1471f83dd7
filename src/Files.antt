-- ===== src/Files.antt =====
-- What `std::fs` promises of the files that src/snapshot.rs and src/recovery.rs read.
use lloogg.Prelude.{ℕ, List}

-- The result of `std::fs::read`: the bytes, `ErrorKind::NotFound`, or another error.
pub data Read : Type 0 where
  read : (bytes : List ℕ) → Read
  not_found : Read
  failed : (errno : ℕ) → Read
