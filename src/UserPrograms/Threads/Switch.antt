-- ===== src/UserPrograms/Threads/Switch.antt =====
-- user-programs/threads/thread.c: the switch of threads and the functions that end in it.
-- `process_exit` stands for what thread_exit does for the process: `process_exit` of process.c, the
-- closing of the executable and the `sema_up` for the parent. `process_activate` loads the page
-- directory of the thread.
use cs124_my_pintos.Common.{
  ℕ, true, false, not, ◌&&◌, Option, none, some, List, [], ◌∷◌, ◌++◌, ◌==◌, if◌then◌else◌,
}
use cs124_my_pintos.UserPrograms.Threads.{
  thread_running, thread_ready, thread_blocked, thread_dying, Kernel, set_thread, set_status,
  is_running, is_dying, is_thread, thread_current,
}

unfoldable pub next_thread_to_run : Kernel → ℕ × Kernel
next_thread_to_run k = elim k.ready_list [
  | [] ↦ (k.idle_thread, k)
  | t ∷ rest ↦ (t, record k { ready_list = rest })
]

-- `prev` is `none` for NULL.
unfoldable pub thread_schedule_tail : (prev : Option ℕ) → Kernel → Option Kernel
thread_schedule_tail prev k =
    let cur = k.running in
    let started : Kernel = record (set_status cur thread_running k) {
      thread_ticks = 0;
      active_pagedir = (k.threads cur).pagedir;
    } in
    if k.interrupts_on then none else elim prev [
      | none ↦ some started
      | some p ↦
          if is_dying (started.threads p).status && not (p == k.initial_thread)
          then if p == cur then none else some (record started { freed = p ∷ k.freed })
          else some started
    ]

-- `switch_threads` puts the next thread on the CPU, which then runs the tail.
unfoldable pub schedule : Kernel → Option Kernel
unfolding next_thread_to_run thread_schedule_tail
schedule k =
    let cur = k.running in
    let (next, chosen) = next_thread_to_run k in
    if k.interrupts_on
    then none
    else if is_running (chosen.threads cur).status
    then none
    else if not (is_thread next chosen)
    then none
    else if cur == next
    then thread_schedule_tail none chosen
    else thread_schedule_tail (some cur) (record chosen { running = next })

unfoldable pub thread_block : Kernel → Option Kernel
thread_block k =
    if k.in_external_intr then none else if k.interrupts_on then none else elim (thread_current k) [
      | none ↦ none
      | some cur ↦ schedule (set_status cur thread_blocked k)
    ]

-- The state right after the switch, with interrupts off. The code puts the interrupt level back when the
-- thread that yields runs again; that is a step of its own.
unfoldable pub thread_yield : Kernel → Option Kernel
thread_yield k = elim (thread_current k) [
  | none ↦ none
  | some cur ↦
      let queued : Kernel = record k {
        ready_list = if cur == k.idle_thread then k.ready_list else k.ready_list ++ (cur ∷ []);
        interrupts_on = false;
      } in
      if k.in_external_intr then none else schedule (set_status cur thread_ready queued)
]

-- `list_remove (&allelem)`
unfoldable pub list_remove : ℕ → List ℕ → List ℕ
list_remove t [] = []
list_remove t (x ∷ xs) = if t == x then xs else x ∷ list_remove t xs

module _ (process_exit : Kernel → Option Kernel) where
  unfoldable pub thread_exit : Kernel → Option Kernel
  unfolding list_remove
  thread_exit k = if k.in_external_intr then none else elim (process_exit k) [
    | none ↦ none
    | some q ↦ elim (thread_current q) [
      | none ↦ none
      | some cur ↦ schedule (
          set_status cur thread_dying
            (record q { interrupts_on = false; all_list = list_remove cur q.all_list }))
    ]
  ]

  -- `call` is the function of the thread with its argument.
  unfoldable pub kernel_thread :
      (function aux : ℕ) (call : ℕ → ℕ → Kernel → Option Kernel) → Kernel → Option Kernel
  kernel_thread function aux call k =
      if function == 0 then none else elim (call function aux (record k { interrupts_on = true })) [
        | none ↦ none
        | some r ↦ thread_exit r
      ]

-- `func` on every thread of the list.
unfoldable pub each_thread : (func : ℕ → Kernel → Kernel) → List ℕ → Kernel → Kernel
each_thread func [] k = k
each_thread func (t ∷ ts) k = each_thread func ts (func t k)

unfoldable pub thread_foreach : (func : ℕ → Kernel → Kernel) → Kernel → Option Kernel
unfolding each_thread
thread_foreach func k = if k.interrupts_on then none else some (each_thread func k.all_list k)

unfoldable pub thread_set_priority : (new_priority : ℕ) → Kernel → Option Kernel
thread_set_priority new_priority k = elim (thread_current k) [
  | none ↦ none
  | some t ↦ some (set_thread t (record (k.threads t) { priority = new_priority }) k)
]

unfoldable pub thread_get_priority : Kernel → Option ℕ
thread_get_priority k = elim (thread_current k) [
  | none ↦ none
  | some t ↦ some (k.threads t).priority
]

-- `idle` up to its first switch: `sema_up` of the semaphore of `thread_start` is a parameter. The
-- loop after that is one round, `thread_block`, for each time that the thread runs.
unfoldable pub idle : (sema_up : Kernel → Kernel) → Kernel → Option Kernel
idle sema_up k = elim (thread_current k) [
  | none ↦ none
  | some t ↦
      thread_block (record (sema_up (record k { idle_thread = t })) { interrupts_on = false })
]
