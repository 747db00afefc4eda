-- ===== src/PriorityScheduler/FixedPoint/Laws.antt =====
-- The conversions of fixed point numbers with 14 bits after the point, the format of the scheduler.
use cs124_my_pintos.Common.{
  ◌+◌, ◌*◌, ◌^◌, ◌≤◌, ◌<◌, ◌≡◌, arith, ℤ, pos, negsuc, ◌+ℤ◌, ◌-ℤ◌, ◌*ℤ◌, quot_ℕ, int32, wrap,
  pos_part, neg_part,
}
use cs124_my_pintos.PriorityScheduler.FixedPoint.{
  FixedPoint, fxp_of_int, fxp_trunc, fxp_round, fxp_isub,
}

-- An integer from -2^17 up and below 2^17 is what `fxp_trunc` reads off the fixed point number of
-- `fxp_of_int`, with 14 bits after the point.
pub fxp_trunc-fxp_of_int :
    (n : ℤ) → pos_part n < 2 ^ 17 → neg_part n ≤ 2 ^ 17 → fxp_trunc 14 (fxp_of_int 14 n) ≡ n
unfolding fxp_trunc fxp_of_int int32 wrap quot_ℕ ◌*ℤ◌
fxp_trunc-fxp_of_int (pos n) h k = ground arith
fxp_trunc-fxp_of_int (negsuc n) h k = ground arith

-- `fxp_round` with 14 bits after the point gives a nearest integer, where adding one half does not
-- overflow.
pub fxp_round-nearest :
    (x : FixedPoint)
    → pos_part x + 2 ^ 13 < 2 ^ 31
    → neg_part x + 2 ^ 13 ≤ 2 ^ 31
    → let r = fxp_round 14 x in
      (pos_part x + neg_part r * 2 ^ 14 ≤ pos_part r * 2 ^ 14 + neg_part x + 2 ^ 13)
      × (pos_part r * 2 ^ 14 + neg_part x ≤ pos_part x + neg_part r * 2 ^ 14 + 2 ^ 13)
unfolding fxp_round int32 wrap quot_ℕ ◌+ℤ◌ ◌*ℤ◌
fxp_round-nearest (pos x) h k = ground arith
fxp_round-nearest (negsuc x) h k = ground arith

-- `fxp_isub` undoes itself, whatever wraps around: n - (n - x) is x.
pub fxp_isub-fxp_isub :
    (n : ℤ) (x : FixedPoint)
    → pos_part x < 2 ^ 31
    → neg_part x ≤ 2 ^ 31
    → fxp_isub 14 n (fxp_isub 14 n x) ≡ x
unfolding fxp_isub int32 wrap ◌-ℤ◌ ◌*ℤ◌
fxp_isub-fxp_isub n x h k = ground arith
