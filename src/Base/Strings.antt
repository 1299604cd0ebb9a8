-- ===== src/Base/Strings.antt =====
-- Strings of C: the characters before the first NUL, and the lines that `fgets` reads.
use Prim.Native.Nat.{ℕ, ◌≤◌}
use mathlib.Core.Logic.{inl, inr}
use mathlib.Core.List.{List, [], ◌∷◌}
use native.Mathlib.Omega.{arith}
use temp.Base.Tests.{◌==◌, if◌then◌else◌, Bool-cases}
use temp.Base.Lists.{length, length-take, take}

unfoldable pub until_nul : List ℕ → List ℕ
until_nul [] = []
until_nul (x ∷ xs) = if x == 0 then [] else x ∷ until_nul xs

pub length-until_nul : (xs : List ℕ) → length (until_nul xs) ≤ length xs
unfolding until_nul
length-until_nul [] = omega arith
length-until_nul (x ∷ xs) = elim (Bool-cases (x == 0)) [
  | inl y ↦ rw y (omega arith)
  | inr y ↦ rw y (omega (arith, length-until_nul xs))
]

-- The string in a buffer of `n + 1` characters that `fgets` filled with some bytes.
abbrev pub fgets_line : ℕ → List ℕ → List ℕ
fgets_line n bytes = until_nul (take n bytes)

pub length-fgets_line : (n : ℕ) (bytes : List ℕ) → length (fgets_line n bytes) ≤ n
length-fgets_line n bytes = omega (arith, length-until_nul (take n bytes), length-take n bytes)
