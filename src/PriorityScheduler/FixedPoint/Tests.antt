-- ===== src/PriorityScheduler/FixedPoint/Tests.antt =====
-- The conversions at a number below 0.
use cs124_my_pintos.Common.{◌+◌, ◌*◌, ◌^◌, ◌≤◌, ◌≡◌, arith, pos, negsuc, pos_part, neg_part}
use cs124_my_pintos.PriorityScheduler.FixedPoint.{fxp_round, fxp_isub}
use cs124_my_pintos.PriorityScheduler.FixedPoint.Laws.{fxp_round-nearest, fxp_isub-fxp_isub}

fxp_round-nearest_example :
    let r = fxp_round 14 (negsuc 40000) in
    (0 + neg_part r * 2 ^ 14 ≤ pos_part r * 2 ^ 14 + 40001 + 2 ^ 13)
    × (pos_part r * 2 ^ 14 + 40001 ≤ 0 + neg_part r * 2 ^ 14 + 2 ^ 13)
fxp_round-nearest_example = fxp_round-nearest (negsuc 40000) (omega arith) (omega arith)

fxp_isub-fxp_isub_example : fxp_isub 14 (pos 63) (fxp_isub 14 (pos 63) (negsuc 5)) ≡ negsuc 5
fxp_isub-fxp_isub_example = fxp_isub-fxp_isub (pos 63) (negsuc 5) (omega arith) (omega arith)
