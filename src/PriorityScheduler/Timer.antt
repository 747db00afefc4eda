-- ===== src/PriorityScheduler/Timer.antt =====
-- priority-scheduler/devices/timer.c: threads that sleep, and the interrupt that wakes them. The
-- delays that keep the CPU busy are events. `ticks` counts from 0 up; other times are `int64_t`.
pub mod Laws
mod Tests
use cs124_my_pintos.Common.{
  ℕ, suc, ◌+◌, ◌%◌, Bool, true, false, Option, none, some, List, [], ◌∷◌, ◌==◌, if◌then◌else◌, ℤ,
  pos, negsuc, ◌+ℤ◌, ◌-ℤ◌, ◌*ℤ◌, quot_ℕ, ltb_ℤ, int64, ◌≤ℤ◌, ◌/◌, ◌<◌, ◌≡◌, count,
}
use cs124_my_pintos.PriorityScheduler.Thread.{
  Thread, Kernel, PopMax, set_thread, thread_current, thread_block, thread_unblock,
}
use cs124_my_pintos.PriorityScheduler.Thread.Mlfqs.{timer_freq, thread_tick, bind}

-- `busy_waits` are the numbers of loops that `busy_wait` was called with.
pub record Timer : Type 0 where
  pub kernel : Kernel
  pub asleep_list : List ℕ
  pub ticks : ℕ
  pub loops_per_tick : ℕ
  pub busy_waits : List ℤ

abbrev pub timer_ticks : Timer → ℕ
timer_ticks s = s.ticks

unfoldable pub timer_elapsed : (then_ : ℤ) → Timer → ℤ
unfolding int64 ◌-ℤ◌
timer_elapsed then_ s = int64 (pos (timer_ticks s) -ℤ then_)

-- `e1` and `e2` are threads.
unfoldable pub wakes_up_before : Kernel → (e1 e2 : ℕ) → Bool
wakes_up_before k e1 e2 = ltb_ℤ (k.threads e1).wakeup_ticks (k.threads e2).wakeup_ticks

-- A list of threads in the order of `key`.
unfoldable pub Sorted : (key : ℕ → ℤ) → List ℕ → Type 0
Sorted key [] = Unit
Sorted key (x ∷ xs) = ((y : ℕ) → 0 < count y xs → key x ≤ℤ key y) × Sorted key xs

-- `list_insert_ordered` puts an element into a list that is in order, and keeps it so.
pub record InsertOrdered : Type 0 where
  pub list_insert_ordered : (less : ℕ → ℕ → Bool) → ℕ → List ℕ → List ℕ
  pub inserts :
      (less : ℕ → ℕ → Bool) (x : ℕ) (xs : List ℕ) (y : ℕ)
      → count y (list_insert_ordered less x xs) ≡ (if y == x then 1 else 0) + count y xs
  pub keeps_order :
      (less : ℕ → ℕ → Bool) (key : ℕ → ℤ)
      → ((a b : ℕ) → less a b ≡ ltb_ℤ (key a) (key b))
      → (x : ℕ) (xs : List ℕ) → Sorted key xs
      → Sorted key (list_insert_ordered less x xs)

module _ (inserted : InsertOrdered) where
  -- What `timer_sleep` has done when it calls `thread_block`.
  unfoldable pub fall_asleep : (ticks : ℤ) → Timer → Option Timer
  unfolding wakes_up_before int64 ◌+ℤ◌ thread_current
  fall_asleep ticks s =
      let start = timer_ticks s in
      if s.kernel.interrupts_on
      then bind (thread_current s.kernel) (λ t.
        let k =
          set_thread t (record (s.kernel.threads t) { wakeup_ticks = int64 (pos start +ℤ ticks) })
            (record s.kernel { interrupts_on = false }) in
        some (record s {
          kernel = k;
          asleep_list = inserted.list_insert_ordered (wakes_up_before k) t s.asleep_list;
        }))
      else none

  -- Up to the switch to another thread; interrupts are enabled again when the thread comes back.
  unfoldable pub timer_sleep : PopMax → (fuel : ℕ) → (ticks : ℤ) → Timer → Option Timer
  unfolding fall_asleep thread_block
  timer_sleep lists fuel ticks s = bind (fall_asleep ticks s) (λ asleep.
      bind (thread_block lists fuel asleep.kernel) (λ k. some (record asleep { kernel = k })))

  -- `loops_per_tick` is unsigned, and the products are `int64_t`; `none` is a failed assertion. The
  -- denominators are 1000 at least.
  unfoldable pub real_time_delay : (num : ℤ) (denom : ℕ) → Timer → Option Timer
  unfolding int64 quot_ℕ ◌*ℤ◌
  real_time_delay num denom s =
      if denom % 1000 == 0
      then some (record s {
        busy_waits =
            quot_ℕ (int64 (quot_ℕ (int64 (pos s.loops_per_tick *ℤ num)) 1000 *ℤ pos timer_freq))
              (denom / 1000)
            ∷ s.busy_waits;
      })
      else none

  unfoldable pub real_time_sleep :
      PopMax → (fuel : ℕ) → (num : ℤ) (denom : ℕ) → Timer → Option Timer
  unfolding timer_sleep real_time_delay int64 quot_ℕ ◌*ℤ◌
  real_time_sleep lists fuel num denom s =
      let ticks = quot_ℕ (int64 (num *ℤ pos timer_freq)) denom in
      if s.kernel.interrupts_on
      then if ltb_ℤ (pos 0) ticks
        then timer_sleep lists fuel ticks s
        else real_time_delay num denom s
      else none

-- The loop of `timer_interrupt` over the sleeping threads: the list that is left, and the kernel.
unfoldable pub wake_loop : (ticks : ℕ) → List ℕ → Kernel → Option (List ℕ × Kernel)
unfolding thread_unblock
wake_loop ticks [] k = some ([], k)
wake_loop ticks (t ∷ ts) k =
    if ltb_ℤ (pos ticks) (k.threads t).wakeup_ticks
    then some (t ∷ ts, k)
    else bind (thread_unblock t k) (wake_loop ticks ts)

unfoldable pub timer_interrupt : Timer → Option Timer
unfolding thread_tick wake_loop
timer_interrupt s =
    let ticks = s.ticks + 1 in
    bind (thread_tick ticks s.kernel) (λ k.
      bind (wake_loop ticks s.asleep_list k)
        (λ r. some (record s { ticks = ticks; asleep_list = r.0; kernel = r.1 })))
