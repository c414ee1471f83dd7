-- ===== src/Build.antt =====
-- build.rs: the capacity that a build of the server is compiled for.
use Prim.Native.String.{String}
use lloogg.Prelude.{ℕ, ◌≡◌, ◌↔◌, Option, none, some, ltb, leb, ◌&&◌, if◌then◌else◌, arith}
use lloogg.Constants.{IsCompiledN}

-- `var` is what `std::env::var` gave for WELOXS_N, `none` for an error, and `parse` is `str::parse` at
-- `usize`.
unfoldable pub requested : (var : Option String) (parse : String → Option ℕ) → ℕ
requested none parse = 100
requested (some text) parse = elim (parse text) [ none ↦ 100 | some n ↦ n ]

-- The COMPILED_N that is written out; `none` where the assertion fails, and with it the build.
unfoldable pub compiled_n : (var : Option String) (parse : String → Option ℕ) → Option ℕ
unfolding requested
compiled_n var parse = let n = requested var parse in if ltb 0 n && leb n 3854 then some n else none

-- A build succeeds exactly for the capacities that the protocol admits, and is then compiled for the one
-- that the environment asks for, or for 100 if it asks for none or for no number.
pub compiled_n_iff :
    (var : Option String) (parse : String → Option ℕ) (n : ℕ)
    → (compiled_n var parse ≡ some n) ↔ ((n ≡ requested var parse) × IsCompiledN n)
unfolding compiled_n
compiled_n_iff var parse n = (λ h. ground arith, λ h. ground arith)
