-- ===== src/PriorityScheduler.antt =====
-- The directory priority-scheduler: fixed point numbers, threads and the timer.
pub mod FixedPoint
pub mod Thread
pub mod Timer
