-- ===== src/PriorityScheduler/Timer/Tests.antt =====
-- Two threads asleep, one of which is due.
use cs124_my_pintos.Common.{
  ℕ, ◌≡◌, refl, true, false, some, List, [], ◌∷◌, arith, ◌==◌, if◌then◌else◌, ℤ, pos, count,
}
use cs124_my_pintos.PriorityScheduler.Thread.{thread_blocked, Kernel}
use cs124_my_pintos.PriorityScheduler.Timer.{Sorted, wake_loop}
use cs124_my_pintos.PriorityScheduler.Timer.Laws.{IsAsleep, Woke, wake_loop-Woke}

abbrev times : ℕ → ℤ
times t = if t == 7 then pos 100 else pos 200

abbrev sleepers : Kernel
sleepers = record {
  threads = λ t. record {
    tid = t;
    status = thread_blocked;
    base_priority = 31;
    held_locks = [];
    priority = 31;
    nice = pos 0;
    recent_cpu = pos 0;
    wakeup_ticks = times t;
  };
  waiters = λ lock. [];
  ready_list = 1 ∷ [];
  all_list = 1 ∷ 7 ∷ 8 ∷ [];
  idle_thread = 0;
  initial_thread = 9;
  running = 0;
  interrupts_on = false;
  in_external_intr = true;
  yield_on_return = false;
  thread_ticks = 0;
  next_tid = 9;
  load_avg = pos 0;
  thread_mlfqs = false;
  freed = [];
}

sleepers-IsAsleep : IsAsleep times sleepers (7 ∷ 8 ∷ [])
unfolding count Sorted
sleepers-IsAsleep = record {
  keys = λ t. refl;
  blocked = λ t h. refl;
  once = λ t. ground arith;
  sorted = ((λ y h. ground arith), ((λ y h. ground arith), tt));
}

wake_loop-Woke_example :
    (rest woken : List ℕ) × (l : Kernel) × (wake_loop 150 (7 ∷ 8 ∷ []) sleepers ≡ some (rest, l))
    × Woke 150 times sleepers (7 ∷ 8 ∷ []) rest woken l
wake_loop-Woke_example = wake_loop-Woke 150 times (7 ∷ 8 ∷ []) sleepers sleepers-IsAsleep
