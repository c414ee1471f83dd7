-- ===== src/Prelude/Cursor.antt =====
-- A position in a file that was read into memory, and the bytes from there on.
use Prim.Native.Nat.{ℕ, zero, suc, ◌+◌}
use mathlib.Core.Path.{◌≡◌, refl, ap, ◌∙◌}
use mathlib.Core.List.{List, [], ◌∷◌, ◌++◌}
use native.Mathlib.Omega.{arith}
use lloogg.Prelude.Lists.{length, take, drop, slice, get_or, length-append, drop-append, drop-add}

-- `rest` is what `bytes` holds from `pos` on.
pub record IsAt (bytes : List ℕ) (pos : ℕ) (rest : List ℕ) : Type 0 where
  pub left : drop pos bytes ≡ rest
  pub size : length bytes ≡ pos + length rest

get_or-drop : (pos : ℕ) (bytes : List ℕ) → get_or bytes pos 0 ≡ get_or (drop pos bytes) 0 0
get_or-drop zero bytes = refl
get_or-drop (suc pos) [] = refl
get_or-drop (suc pos) (b ∷ bytes) = get_or-drop pos bytes

module _ {bytes : List ℕ} {pos : ℕ} {rest : List ℕ} (a : IsAt bytes pos rest) where
  pub slice-IsAt : (k n : ℕ) → slice bytes (pos + k) n ≡ slice rest k n
  slice-IsAt k n = ap (take n) (drop-add pos k bytes ∙ ap (drop k) a.left)

  pub get_or-IsAt : get_or bytes pos 0 ≡ get_or rest 0 0
  get_or-IsAt = get_or-drop pos bytes ∙ ap (λ t. get_or t 0 0) a.left

-- What is left after `entry`.
pub IsAt-next :
    {bytes : List ℕ} {pos : ℕ} (entry more : List ℕ) (n : ℕ)
    → n ≡ length entry
    → IsAt bytes pos (entry ++ more)
    → IsAt bytes (pos + n) more
IsAt-next {bytes} {pos} entry more n e a = record {
  left = drop-add pos n bytes ∙ ap (drop n) a.left ∙ drop-append n entry more e;
  size = omega (arith, a.size, length-append entry more);
}
