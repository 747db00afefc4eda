-- ===== src/PriorityScheduler/FixedPoint.antt =====
-- priority-scheduler/lib/kernel/fixed-point.c: numbers of type `int` with `q` bits after the point.
-- `int` is 32 bits with wrap-around, and the products that the code widens are 64 bits. A function
-- that divides by an argument gives `none` where the division traps.
pub mod Laws
mod Tests
use cs124_my_pintos.Common.{
  ℕ, ◌^◌, Bool, true, false, Option, none, some, if◌then◌else◌, ℤ, pos, negsuc, ◌+ℤ◌, ◌-ℤ◌, ◌*ℤ◌,
  ltb_ℤ, quot_ℕ, quot, int32, int64,
}

abbrev pub FixedPoint : Type 0
FixedPoint = ℤ

-- `1 << q`, for the formats that are used
abbrev pub one : (q : ℕ) → ℕ
one q = 2 ^ q

abbrev pub int32? : Option ℤ → Option ℤ
int32? none = none
int32? (some z) = some (int32 z)

unfoldable pub fxp_of_int : (q : ℕ) → ℤ → FixedPoint
unfolding int32 ◌*ℤ◌
fxp_of_int q n = int32 (n *ℤ pos (one q))

unfoldable pub fxp_trunc : (q : ℕ) → FixedPoint → ℤ
unfolding quot_ℕ
fxp_trunc q x = quot_ℕ x (one q)

unfoldable pub fxp_round : (q : ℕ) → FixedPoint → ℤ
unfolding int32 quot_ℕ ◌+ℤ◌ ◌*ℤ◌
fxp_round q x =
    let sgn = if ltb_ℤ x (pos 0) then negsuc 0 else pos 1 in
    quot_ℕ (int32 (x +ℤ quot_ℕ (sgn *ℤ pos (one q)) 2)) (one q)

unfoldable pub fxp_reformat : (old_q new_q : ℕ) → FixedPoint → FixedPoint
unfolding int32 int64 quot_ℕ ◌*ℤ◌
fxp_reformat old_q new_q x = int32 (quot_ℕ (int64 (x *ℤ pos (one new_q))) (one old_q))

unfoldable pub fxp_add : FixedPoint → FixedPoint → FixedPoint
unfolding int32 ◌+ℤ◌
fxp_add x y = int32 (x +ℤ y)

unfoldable pub fxp_sub : FixedPoint → FixedPoint → FixedPoint
unfolding int32 ◌-ℤ◌
fxp_sub x y = int32 (x -ℤ y)

unfoldable pub fxp_neg : FixedPoint → FixedPoint
unfolding int32 ◌-ℤ◌
fxp_neg x = int32 (pos 0 -ℤ x)

unfoldable pub fxp_mul : (q : ℕ) → FixedPoint → FixedPoint → FixedPoint
unfolding int32 int64 quot_ℕ ◌*ℤ◌
fxp_mul q x y = int32 (quot_ℕ (int64 (x *ℤ y)) (one q))

unfoldable pub fxp_div : (q : ℕ) → FixedPoint → FixedPoint → Option FixedPoint
unfolding int32 int64 quot ◌*ℤ◌
fxp_div q x y = int32? (quot (int64 (x *ℤ pos (one q))) y)

unfoldable pub fxp_inv : (q : ℕ) → FixedPoint → Option FixedPoint
unfolding int32 int64 quot
fxp_inv q x = int32? (quot (int64 (pos (one q) *ℤ pos (one q))) x)

unfoldable pub fxp_addi : (q : ℕ) → FixedPoint → ℤ → FixedPoint
unfolding int32 ◌+ℤ◌ ◌*ℤ◌
fxp_addi q x n = int32 (x +ℤ int32 (n *ℤ pos (one q)))

unfoldable pub fxp_subi : (q : ℕ) → FixedPoint → ℤ → FixedPoint
unfolding int32 ◌-ℤ◌ ◌*ℤ◌
fxp_subi q x n = int32 (x -ℤ int32 (n *ℤ pos (one q)))

unfoldable pub fxp_muli : FixedPoint → ℤ → FixedPoint
unfolding int32 ◌*ℤ◌
fxp_muli x n = int32 (x *ℤ n)

unfoldable pub fxp_divi : FixedPoint → ℤ → Option FixedPoint
unfolding int32 quot
fxp_divi x n = int32? (quot x n)

unfoldable pub fxp_invi : (q : ℕ) → ℤ → Option FixedPoint
unfolding int32 quot
fxp_invi q n = int32? (quot (pos (one q)) n)

unfoldable pub fxp_isub : (q : ℕ) → ℤ → FixedPoint → FixedPoint
unfolding int32 ◌-ℤ◌ ◌*ℤ◌
fxp_isub q n x = int32 (int32 (n *ℤ pos (one q)) -ℤ x)

unfoldable pub fxp_idiv : (q : ℕ) → ℤ → FixedPoint → Option FixedPoint
unfolding int32 int64 quot ◌*ℤ◌
fxp_idiv q n x = int32? (quot (int64 (int64 (n *ℤ pos (one q)) *ℤ pos (one q))) x)

unfoldable pub fxp_idivi : (q : ℕ) → (n d : ℤ) → Option FixedPoint
unfolding int32 int64 quot ◌*ℤ◌
fxp_idivi q n d = int32? (quot (int64 (n *ℤ pos (one q))) d)
