-- ===== src/Common/Int.antt =====
-- Signed integers over the native numbers, under the library's names, and the C types `int` and
-- `int64_t`: a result that does not fit is taken modulo a power of two.
use Prim.Native.Nat.{ℕ, suc, ◌+◌, ◌-◌, ◌*◌, ◌/◌, ◌%◌, ◌^◌, ◌≤◌}
use mathlib.Core.Bool.{Bool}
use mathlib.Core.Option.{Option, none, some}
use cs124_my_pintos.Common.Tests.{ltb, leb, ◌==◌, if◌then◌else◌}

-- `negsuc n` is -(n + 1).
pub data ℤ : Type 0 where
  pos : ℕ → ℤ
  negsuc : ℕ → ℤ

abbrev pub pos_part : ℤ → ℕ
pos_part (pos n) = n
pos_part (negsuc n) = 0

abbrev pub neg_part : ℤ → ℕ
neg_part (pos n) = 0
neg_part (negsuc n) = suc n

abbrev pub sub_ℕ : ℕ → ℕ → ℤ
sub_ℕ a b = if leb b a then pos (a - b) else negsuc (b - a - 1)

infixl 65 ◌+ℤ◌ ◌-ℤ◌
infixl 70 ◌*ℤ◌
infix 50 ◌≤ℤ◌
unfoldable pub ◌+ℤ◌ : ℤ → ℤ → ℤ
a +ℤ b = sub_ℕ (pos_part a + pos_part b) (neg_part a + neg_part b)

unfoldable pub ◌-ℤ◌ : ℤ → ℤ → ℤ
a -ℤ b = sub_ℕ (pos_part a + neg_part b) (neg_part a + pos_part b)

unfoldable pub ◌*ℤ◌ : ℤ → ℤ → ℤ
a *ℤ b =
    sub_ℕ (pos_part a * pos_part b + neg_part a * neg_part b)
      (pos_part a * neg_part b + neg_part a * pos_part b)

abbrev pub ◌≤ℤ◌ : ℤ → ℤ → Type 0
a ≤ℤ b = pos_part a + neg_part b ≤ pos_part b + neg_part a

abbrev pub ltb_ℤ : ℤ → ℤ → Bool
ltb_ℤ a b = ltb (pos_part a + neg_part b) (pos_part b + neg_part a)

-- The quotient by a positive number, rounded towards 0.
unfoldable pub quot_ℕ : ℤ → ℕ → ℤ
quot_ℕ (pos a) n = pos (a / n)
quot_ℕ (negsuc a) n = sub_ℕ 0 (suc a / n)

-- `/`; a division by 0 traps.
unfoldable pub quot : ℤ → ℤ → Option ℤ
unfolding quot_ℕ ◌-ℤ◌
quot a (pos b) = if b == 0 then none else some (quot_ℕ a b)
quot a (negsuc b) = some (pos 0 -ℤ quot_ℕ a (suc b))

-- What a type of `w` bits keeps of an integer, given half of `2 ^ w`.
unfoldable pub wrap : (half : ℕ) → ℤ → ℤ
wrap half (pos n) =
    let m = n % (2 * half) in if ltb m half then pos m else negsuc (2 * half - m - 1)
wrap half (negsuc n) =
    let m = n % (2 * half) in if ltb m half then negsuc m else pos (2 * half - m - 1)

unfoldable pub int32 : ℤ → ℤ
unfolding wrap
int32 z = wrap (2 ^ 31) z

unfoldable pub int64 : ℤ → ℤ
unfolding wrap
int64 z = wrap (2 ^ 63) z
