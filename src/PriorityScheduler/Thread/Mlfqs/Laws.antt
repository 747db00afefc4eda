-- ===== src/PriorityScheduler/Thread/Mlfqs/Laws.antt =====
-- The priorities that the feedback queue of thread.c sets.
use cs124_my_pintos.Common.{ℕ, ◌≤◌, ◌≡◌, refl, some, arith, ℤ, pos, negsuc, int32, quot_ℕ, ◌*ℤ◌}
use cs124_my_pintos.PriorityScheduler.FixedPoint.{fxp_trunc, fxp_subi, fxp_isub, fxp_divi}
use cs124_my_pintos.PriorityScheduler.Thread.{Thread, pri_max}
use cs124_my_pintos.PriorityScheduler.Thread.Mlfqs.{recent_cpu_q, clamp, update_priority}

clamp_le : (z : ℤ) → clamp z ≤ pri_max
unfolding clamp
clamp_le (pos n) = ground arith
clamp_le (negsuc n) = omega arith

-- `update_priority` never traps, sets a priority of at most PRI_MAX, whatever overflows, and
-- changes nothing else of the thread.
pub update_priority-clamped :
    (t : Thread) → (p : ℕ) × (update_priority t ≡ some (record t { priority = p })) × (p ≤ pri_max)
unfolding update_priority fxp_divi clamp
update_priority-clamped t =
    let z = fxp_trunc recent_cpu_q (
      fxp_subi recent_cpu_q (fxp_isub recent_cpu_q (pos pri_max) (int32 (quot_ℕ t.recent_cpu 4)))
        (int32 (t.nice *ℤ pos 2))) in
    (clamp z, refl, clamp_le z)
