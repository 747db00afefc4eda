-- ===== src/Common/Counts.antt =====
-- How often a number, such as the address of a thread, is in a list.
use Prim.Native.Nat.{ℕ, ◌+◌}
use mathlib.Core.Path.{◌≡◌}
use mathlib.Core.List.{List, [], ◌∷◌, ◌++◌}
use native.Mathlib.Omega.{arith}
use cs124_my_pintos.Common.Tests.{◌==◌, if◌then◌else◌}

unfoldable pub count : ℕ → List ℕ → ℕ
count y [] = 0
count y (x ∷ xs) = (if y == x then 1 else 0) + count y xs

pub count-append : (y : ℕ) (xs ys : List ℕ) → count y (xs ++ ys) ≡ count y xs + count y ys
unfolding count
count-append y [] ys = omega arith
count-append y (x ∷ xs) ys = omega (arith, count-append y xs ys)

pub count-append_one :
    (y : ℕ) (xs : List ℕ) (x : ℕ)
    → count y (xs ++ (x ∷ [])) ≡ count y xs + (if y == x then 1 else 0)
unfolding count
count-append_one y xs x = let a = count-append y xs (x ∷ []) in ground arith
