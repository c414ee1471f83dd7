-- ===== src/Bench.antt =====
-- src/bin/bench.rs: the frame that the benchmark client sends, and its command line.
pub mod Frame
pub mod CommandLine
pub mod Work
pub mod Count
pub mod Answered
pub mod Percentile
use Prim.Native.String.{String}
use text.Mathlib.Text.{◌==◌ as str_eq, starts_with}
use lloogg.Prelude.{
  ℕ, Option, none, some, List, [], ◌∷◌, set, splice, replicate, to_le, if◌then◌else◌, ◌>>=◌,
}
use lloogg.Constants.{magic_wire, opcode_push}

-- The array that is filled field by field; its timestamp and hash are left zero.
unfoldable pub build_push : ℕ → List ℕ
build_push uid =
    set
      (splice
        (splice (set (splice (replicate 26 0) 0 (to_le 2 magic_wire)) 2 opcode_push) 3
          (to_le 4 uid))
        7 (to_le 2 17))
      9 1

pub record Cfg : Type 0 where
  pub addr : String
  pub threads : ℕ
  pub count : ℕ
  pub warmup : ℕ
  pub uid : ℕ
  pub pipeline : ℕ

unfoldable pub default_cfg : Cfg
default_cfg = record {
  addr = "127.0.0.1:7379";
  threads = 4;
  count = 100_000;
  warmup = 500;
  uid = 1;
  pipeline = 1;
}

-- A flag that takes a value, and what the value is written to.
unfoldable pub flag_of : String → Option (Cfg → ℕ → Cfg)
flag_of arg =
    if str_eq arg "--threads"
    then some (λ cfg n. record cfg { threads = n })
    else if str_eq arg "--count"
    then some (λ cfg n. record cfg { count = n })
    else if str_eq arg "--warmup"
    then some (λ cfg n. record cfg { warmup = n })
    else if str_eq arg "--uid"
    then some (λ cfg n. record cfg { uid = n })
    else if str_eq arg "--pipeline"
    then some (λ cfg n. record cfg { pipeline = n })
    else none

-- An argument that is no such flag: an address, or an unknown flag, which is only reported.
unfoldable pub other_arg : Cfg → String → Cfg
other_arg cfg arg = if starts_with arg "--" then cfg else record cfg { addr = arg }

-- The loop from the argument `i` on, `args` being those that are left. `parse` is `parse` at the type of
-- the flag's field. `none` is a panic: a value that is missing or no number.
unfoldable pub parse_loop : (parse : String → String → Option ℕ) → List String → Cfg → Option Cfg
unfolding flag_of other_arg
parse_loop parse [] cfg = some cfg
parse_loop parse (arg ∷ []) cfg = elim (flag_of arg) [
  | some write ↦ none
  | none ↦ some (other_arg cfg arg)
]
parse_loop parse (arg ∷ value ∷ args) cfg = elim (flag_of arg) [
  | some write ↦ do n ← parse arg value; parse_loop parse args (write cfg n)
  | none ↦ parse_loop parse (value ∷ args) (other_arg cfg arg)
]

unfoldable pub parse_args : (parse : String → String → Option ℕ) → List String → Option Cfg
unfolding parse_loop default_cfg
parse_args parse args = parse_loop parse args default_cfg
