-- ===== src/PriorityScheduler/Thread.antt =====
-- priority-scheduler/threads/thread.c: the threads, the ready list, priority donation and the
-- switch of threads. A thread is the address of its page; `none` is a failed assertion or, in
-- `get_priority`, fuel that has run out. Not modelled are the stack, the name and the `magic` of a
-- thread; `list_pop_max`, of the kernel's lists, is a parameter.
pub mod Donation
pub mod Ready
pub mod Mlfqs
mod Tests
use cs124_my_pintos.Common.{
  ℕ, zero, suc, ◌+◌, Bool, true, false, not, ◌&&◌, Option, none, some, List, [], ◌∷◌, ◌++◌, ◌==◌,
  ltb, leb, if◌then◌else◌, ℤ, pos, negsuc, ltb_ℤ, ◌≡◌, ◌≤◌, ◌<◌, count,
}
use cs124_my_pintos.PriorityScheduler.FixedPoint.{FixedPoint}

pub data ThreadStatus : Type 0 where
  thread_running : ThreadStatus
  thread_ready : ThreadStatus
  thread_blocked : ThreadStatus
  thread_dying : ThreadStatus

abbrev pub pri_min : ℕ
pri_min = 0

abbrev pub pri_max : ℕ
pri_max = 63

-- The priorities are of type `int`, and asserted or clamped to PRI_MIN .. PRI_MAX. `held_locks` are
-- the addresses of locks, and `wakeup_ticks` belongs to the timer.
pub record Thread : Type 0 where
  pub tid : ℕ
  pub status : ThreadStatus
  pub base_priority : ℕ
  pub held_locks : List ℕ
  pub priority : ℕ
  pub nice : ℤ
  pub recent_cpu : FixedPoint
  pub wakeup_ticks : ℤ

-- The static variables of thread.c, the memory of the threads and of the locks' waiters, the thread
-- on the CPU, the interrupt flag and context, and the pages that were given back.
pub record Kernel : Type 0 where
  pub threads : ℕ → Thread
  pub waiters : ℕ → List ℕ
  pub ready_list : List ℕ
  pub all_list : List ℕ
  pub idle_thread : ℕ
  pub initial_thread : ℕ
  pub running : ℕ
  pub interrupts_on : Bool
  pub in_external_intr : Bool
  pub yield_on_return : Bool
  pub thread_ticks : ℕ
  pub next_tid : ℕ
  pub load_avg : FixedPoint
  pub thread_mlfqs : Bool
  pub freed : List ℕ

abbrev pub set_thread : ℕ → Thread → Kernel → Kernel
set_thread t x k = record k { threads = λ u. if u == t then x else k.threads u }

abbrev pub set_status : ℕ → ThreadStatus → Kernel → Kernel
set_status t status k = set_thread t (record (k.threads t) { status = status }) k

abbrev pub is_blocked : ThreadStatus → Bool
is_blocked thread_blocked = true
is_blocked thread_running = false
is_blocked thread_ready = false
is_blocked thread_dying = false

abbrev pub is_running : ThreadStatus → Bool
is_running thread_blocked = false
is_running thread_running = true
is_running thread_ready = false
is_running thread_dying = false

abbrev pub is_dying : ThreadStatus → Bool
is_dying thread_blocked = false
is_dying thread_running = false
is_dying thread_ready = false
is_dying thread_dying = true

-- Puts each of a list at the front of `donors`, in turn.
unfoldable pub push_waiters : List ℕ → (donors : List ℕ) → List ℕ
push_waiters [] donors = donors
push_waiters (w ∷ ws) donors = push_waiters ws (w ∷ donors)

unfoldable pub push_locks : (waiters : ℕ → List ℕ) (held_locks donors : List ℕ) → List ℕ
unfolding push_waiters
push_locks waiters [] donors = donors
push_locks waiters (lock ∷ locks) donors =
    push_locks waiters locks (push_waiters (waiters lock) donors)

-- The loop of `get_priority`, a unit of fuel for each round.
unfoldable pub donors_loop : Kernel → (fuel : ℕ) (donors : List ℕ) (max_priority : ℕ) → Option ℕ
unfolding push_locks
donors_loop k zero donors max_priority = none
donors_loop k (suc fuel) [] max_priority = some max_priority
donors_loop k (suc fuel) (t ∷ donors) max_priority =
    donors_loop k fuel (push_locks k.waiters (k.threads t).held_locks donors) (
      if ltb max_priority (k.threads t).base_priority
      then (k.threads t).base_priority
      else max_priority)

unfoldable pub get_priority : (fuel : ℕ) → Kernel → ℕ → Option ℕ
unfolding donors_loop
get_priority fuel k thread =
    if k.thread_mlfqs
    then some (k.threads thread).priority
    else donors_loop k fuel (thread ∷ []) pri_min

unfoldable pub lower_priority : (fuel : ℕ) → Kernel → (t1 t2 : ℕ) → Bool
unfolding get_priority
lower_priority fuel k t1 t2 = elim (get_priority fuel k t1) [
  | none ↦ false
  | some p ↦ elim (get_priority fuel k t2) [ none ↦ false | some q ↦ ltb p q ]
]

-- `list_pop_max` takes an element with none above it off the list, which is not empty.
pub record PopMax : Type 0 where
  pub list_pop_max : (less : ℕ → ℕ → Bool) → (x : ℕ) (xs : List ℕ) → ℕ × List ℕ
  pub removes :
      (less : ℕ → ℕ → Bool) (x : ℕ) (xs : List ℕ) (y : ℕ)
      → count y (x ∷ xs)
        ≡ (if y == (list_pop_max less x xs).0 then 1 else 0) + count y (list_pop_max less x xs).1
  pub is_max :
      (less : ℕ → ℕ → Bool) (key : ℕ → ℕ)
      → ((a b : ℕ) → less a b ≡ ltb (key a) (key b))
      → (x : ℕ) (xs : List ℕ) (y : ℕ) → 0 < count y (x ∷ xs)
      → key y ≤ key (list_pop_max less x xs).0

unfoldable pub thread_current : Kernel → Option ℕ
thread_current k = if is_running (k.threads k.running).status then some k.running else none

unfoldable pub thread_unblock : ℕ → Kernel → Option Kernel
thread_unblock t k =
    if is_blocked (k.threads t).status
    then some (set_status t thread_ready (record k { ready_list = k.ready_list ++ (t ∷ []) }))
    else none

-- `prev` is `none` for NULL; a page is given back when the thread on it has died.
unfoldable pub thread_schedule_tail : (prev : Option ℕ) → Kernel → Option Kernel
thread_schedule_tail prev k =
    let cur = k.running in
    let started : Kernel = record (set_status cur thread_running k) { thread_ticks = 0 } in
    if k.interrupts_on then none else elim prev [
      | none ↦ some started
      | some p ↦
          if is_dying (started.threads p).status && not (p == k.initial_thread)
          then if p == cur then none else some (record started { freed = p ∷ k.freed })
          else some started
    ]

module _ (lists : PopMax) (fuel : ℕ) where
  unfoldable pub next_thread_to_run : Kernel → ℕ × Kernel
  unfolding lower_priority
  next_thread_to_run k = elim k.ready_list [
    | [] ↦ (k.idle_thread, k)
    | x ∷ xs ↦
        let (t, rest) = lists.list_pop_max (lower_priority fuel k) x xs in
        (t, record k { ready_list = rest })
  ]

  -- `switch_threads` puts the next thread on the CPU, which then runs the tail.
  unfoldable pub schedule : Kernel → Option Kernel
  unfolding next_thread_to_run thread_schedule_tail
  schedule k =
      let cur = k.running in
      let (next, chosen) = next_thread_to_run k in
      if k.interrupts_on
      then none
      else if is_running (chosen.threads cur).status
      then none
      else if cur == next
      then thread_schedule_tail none chosen
      else thread_schedule_tail (some cur) (record chosen { running = next })

  unfoldable pub thread_block : Kernel → Option Kernel
  unfolding schedule thread_current
  thread_block k =
      if k.in_external_intr
      then none
      else if k.interrupts_on
      then none
      else elim (thread_current k) [
        | none ↦ none
        | some cur ↦ schedule (set_status cur thread_blocked k)
      ]

  -- The state right after the switch, with interrupts off. The interrupt level is put back when the
  -- thread runs again.
  unfoldable pub thread_yield : Kernel → Option Kernel
  unfolding schedule thread_current
  thread_yield k = elim (thread_current k) [
    | none ↦ none
    | some cur ↦
        let queued : Kernel = record k {
          ready_list = if cur == k.idle_thread then k.ready_list else k.ready_list ++ (cur ∷ []);
          interrupts_on = false;
        } in
        if k.in_external_intr then none else schedule (set_status cur thread_ready queued)
  ]

  -- `list_remove (&all_elem)`
  unfoldable pub list_remove : ℕ → List ℕ → List ℕ
  list_remove t [] = []
  list_remove t (x ∷ xs) = if t == x then xs else x ∷ list_remove t xs

  -- A thread that still holds a lock may not exit.
  unfoldable pub thread_exit : Kernel → Option Kernel
  unfolding schedule thread_current list_remove
  thread_exit k = elim (thread_current k) [
    | none ↦ none
    | some cur ↦ elim (k.threads cur).held_locks [
      | l ∷ ls ↦ none
      | [] ↦
          if k.in_external_intr
          then none
          else schedule (
              set_status cur thread_dying
                (record k { interrupts_on = false; all_list = list_remove cur k.all_list }))
    ]
  ]

  unfoldable pub thread_set_priority : (new_priority : ℤ) → Kernel → Option Kernel
  unfolding thread_yield thread_current
  thread_set_priority (negsuc n) k = none
  thread_set_priority (pos n) k =
      if leb n pri_max
      then elim (thread_current k) [
        | none ↦ none
        | some cur ↦ thread_yield (set_thread cur (record (k.threads cur) { base_priority = n }) k)
      ]
      else none

  unfoldable pub thread_get_priority : Kernel → Option ℕ
  unfolding get_priority thread_current
  thread_get_priority k = elim (thread_current k) [
    | none ↦ none
    | some cur ↦ get_priority fuel k cur
  ]
