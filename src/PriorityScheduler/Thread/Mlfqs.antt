-- ===== src/PriorityScheduler/Thread/Mlfqs.antt =====
-- The multi-level feedback queue scheduler: the load average, the recent CPU time and the priority
-- of a thread, the tick of the timer, and the functions that set and read them.
pub mod Laws
use cs124_my_pintos.Common.{
  ℕ, zero, suc, ◌+◌, ◌%◌, ◌*◌, Bool, true, false, not, ◌&&◌, Option, none, some, List, [], ◌∷◌,
  ◌++◌, ◌==◌, ltb, leb, if◌then◌else◌, ℤ, pos, negsuc, ltb_ℤ, ◌*ℤ◌, ◌+ℤ◌, int32, length, foldl,
}
use cs124_my_pintos.PriorityScheduler.FixedPoint.{
  FixedPoint, fxp_trunc, fxp_round, fxp_reformat, fxp_add, fxp_mul, fxp_div, fxp_addi, fxp_subi,
  fxp_muli, fxp_divi, fxp_isub, fxp_idivi,
}
use cs124_my_pintos.PriorityScheduler.Thread.{
  ThreadStatus, thread_blocked, Thread, Kernel, PopMax, set_thread, thread_current, thread_yield,
  pri_min, pri_max,
}

abbrev pub load_avg_q : ℕ
load_avg_q = 14

abbrev pub recent_cpu_q : ℕ
recent_cpu_q = 14

-- TIMER_FREQ of devices/timer.h
abbrev pub timer_freq : ℕ
timer_freq = 100

abbrev pub bind {ℓ κ} : {A : Type ℓ} {B : Type κ} → Option A → (A → Option B) → Option B
bind none f = none
bind (some a) f = f a

-- The size of the ready list is an `int`.
unfoldable pub update_load_avg : Kernel → Option Kernel
unfolding fxp_add fxp_mul fxp_idivi thread_current
update_load_avg k = bind (thread_current k) (λ cur.
    let ready_threads =
      if cur == k.idle_thread then length k.ready_list else length k.ready_list + 1 in
    bind (fxp_idivi load_avg_q (pos 59) (pos 60)) (λ decay.
      bind (fxp_idivi load_avg_q (pos ready_threads) (pos 60)) (λ share.
        some (record k { load_avg = fxp_add (fxp_mul load_avg_q decay k.load_avg) share }))))

unfoldable pub update_recent_cpu : (load_avg : FixedPoint) → Thread → Option Thread
unfolding fxp_addi fxp_mul fxp_reformat fxp_div fxp_muli
update_recent_cpu load_avg t =
    bind
      (fxp_div load_avg_q (fxp_muli load_avg (pos 2))
        (fxp_addi load_avg_q (fxp_muli load_avg (pos 2)) (pos 1)))
      (λ q. some (record t {
        recent_cpu =
            fxp_addi recent_cpu_q
              (fxp_mul recent_cpu_q (fxp_reformat load_avg_q recent_cpu_q q) t.recent_cpu) t.nice;
      }))

-- Puts a priority into PRI_MIN .. PRI_MAX.
unfoldable pub clamp : ℤ → ℕ
clamp (negsuc n) = pri_min
clamp (pos n) = if ltb pri_max n then pri_max else n

unfoldable pub update_priority : Thread → Option Thread
unfolding fxp_trunc fxp_subi fxp_isub fxp_divi int32 clamp ◌*ℤ◌
update_priority t = bind (fxp_divi t.recent_cpu (pos 4)) (λ quarter. some (record t {
  priority = clamp (
      fxp_trunc recent_cpu_q (
        fxp_subi recent_cpu_q (fxp_isub recent_cpu_q (pos pri_max) quarter)
          (int32 (t.nice *ℤ pos 2))));
}))

-- `func` on the threads of a list; `none` is a division that traps.
unfoldable pub each_thread : (func : Thread → Option Thread) → List ℕ → Kernel → Option Kernel
each_thread func [] k = some k
each_thread func (t ∷ ts) k =
    bind (func (k.threads t)) (λ x. each_thread func ts (set_thread t x k))

unfoldable pub thread_foreach : (func : Thread → Option Thread) → Kernel → Option Kernel
unfolding each_thread
thread_foreach func k = if k.interrupts_on then none else each_thread func k.all_list k

unfoldable pub tick_mlfqs : (timer_ticks cur : ℕ) → Kernel → Option Kernel
unfolding thread_foreach update_load_avg update_recent_cpu update_priority int32 ◌+ℤ◌
tick_mlfqs timer_ticks cur k =
    let x = k.threads cur in
    let used = set_thread cur (record x { recent_cpu = int32 (x.recent_cpu +ℤ pos 1) }) k in
    bind
      (if timer_ticks % timer_freq == 0
        then bind (update_load_avg used) (λ l. thread_foreach (update_recent_cpu l.load_avg) l)
        else some used)
      (λ s. if timer_ticks % 4 == 0 then thread_foreach update_priority s else some s)

-- `intr_yield_on_return` asserts an external interrupt. The counts of ticks for the statistics are
-- not modelled.
unfoldable pub thread_tick : (timer_ticks : ℕ) → Kernel → Option Kernel
unfolding tick_mlfqs thread_current
thread_tick timer_ticks k = bind (thread_current k) (λ cur.
    bind (if k.thread_mlfqs then tick_mlfqs timer_ticks cur k else some k) (λ s.
      let ticked : Kernel = record s { thread_ticks = s.thread_ticks + 1 } in
      if leb 4 ticked.thread_ticks
      then if s.in_external_intr then some (record ticked { yield_on_return = true }) else none
      else some ticked))

-- A blocked thread with the arguments as its fields; `name` is not modelled.
unfoldable pub init_thread :
    (t : ℕ) (priority : ℤ) (nice : ℤ) (recent_cpu : FixedPoint) → Kernel → Option Kernel
unfolding update_priority
init_thread t (negsuc n) nice recent_cpu k = none
init_thread t (pos n) nice recent_cpu k =
    if leb n pri_max
    then bind
        (update_priority (record {
          tid = 0;
          status = thread_blocked;
          base_priority = n;
          held_locks = [];
          priority = 0;
          nice = nice;
          recent_cpu = recent_cpu;
          wakeup_ticks = pos 0;
        }))
        (λ x. some (set_thread t x (record k { all_list = k.all_list ++ (t ∷ []) })))
    else none

unfoldable pub thread_set_nice : PopMax → (fuel : ℕ) → (nice : ℤ) → Kernel → Option Kernel
unfolding update_priority thread_yield thread_current
thread_set_nice lists fuel nice k =
    if ltb_ℤ nice (negsuc 19)
    then none
    else if ltb_ℤ (pos 20) nice
    then none
    else bind (thread_current k) (λ cur.
      bind (update_priority (record (k.threads cur) { nice = nice }))
        (λ x. thread_yield lists fuel (set_thread cur x k)))

unfoldable pub thread_get_nice : Kernel → Option ℤ
unfolding thread_current
thread_get_nice k = bind (thread_current k) (λ cur. some (k.threads cur).nice)

unfoldable pub thread_get_load_avg : Kernel → ℤ
unfolding fxp_round fxp_muli
thread_get_load_avg k = fxp_round recent_cpu_q (fxp_muli k.load_avg (pos 100))

unfoldable pub thread_get_recent_cpu : Kernel → Option ℤ
unfolding thread_current fxp_round fxp_muli
thread_get_recent_cpu k =
    bind (thread_current k)
      (λ cur. some (fxp_round recent_cpu_q (fxp_muli (k.threads cur).recent_cpu (pos 100))))
