-- ===== src/UserPrograms/Threads.antt =====
-- user-programs/threads/thread.c, which virtual-memory/threads/thread.c repeats: the threads and the
-- round robin of the kernel that runs user programs. A thread is the address of its page, 0 for NULL.
-- `none` is a failed assertion. Not modelled are the name of a thread and the printing of the
-- statistics; the lock of `allocate_tid` holds for one update.
pub mod Switch
pub mod Valid
pub mod Leave
pub mod Unblock
pub mod Create
pub mod Steps
pub mod Robin
mod Tests
use cs124_my_pintos.Common.{
  ℕ, zero, suc, ◌+◌, ◌-◌, ◌%◌, ◌^◌, Bool, true, false, not, ◌&&◌, Option, none, some, List, [], ◌∷◌,
  ◌++◌, ◌==◌, ltb, leb, if◌then◌else◌, is_some,
}

pub data ThreadStatus : Type 0 where
  thread_running : ThreadStatus
  thread_ready : ThreadStatus
  thread_blocked : ThreadStatus
  thread_dying : ThreadStatus

abbrev pub thread_magic : ℕ
thread_magic = 0xcd6a_bf4b

abbrev pub pri_min : ℕ
pri_min = 0

abbrev pub pri_default : ℕ
pri_default = 31

abbrev pub pri_max : ℕ
pri_max = 63

abbrev pub time_slice : ℕ
time_slice = 4

-- `function` and `aux` are what the frame of `kernel_thread` on the stack holds.
pub record Thread : Type 0 where
  pub tid : ℕ
  pub status : ThreadStatus
  pub stack : ℕ
  pub priority : ℕ
  pub pagedir : Option ℕ
  pub children_init : Bool
  pub magic : ℕ
  pub function : ℕ
  pub aux : ℕ

-- The static variables of thread.c, the memory of the threads, the thread on the CPU, the interrupt
-- flag and context, the page directory on the CPU and the pages that were given back.
pub record Kernel : Type 0 where
  pub threads : ℕ → Thread
  pub ready_list : List ℕ
  pub all_list : List ℕ
  pub idle_thread : ℕ
  pub initial_thread : ℕ
  pub running : ℕ
  pub interrupts_on : Bool
  pub in_external_intr : Bool
  pub yield_on_return : Bool
  pub idle_ticks : ℕ
  pub kernel_ticks : ℕ
  pub user_ticks : ℕ
  pub thread_ticks : ℕ
  pub next_tid : ℕ
  pub active_pagedir : Option ℕ
  pub freed : List ℕ

abbrev pub set_thread : ℕ → Thread → Kernel → Kernel
set_thread t x k = record k { threads = λ u. if u == t then x else k.threads u }

abbrev pub set_status : ℕ → ThreadStatus → Kernel → Kernel
set_status t status k = set_thread t (record (k.threads t) { status = status }) k

abbrev pub is_blocked : ThreadStatus → Bool
is_blocked thread_blocked = true
is_blocked thread_running = false
is_blocked thread_ready = false
is_blocked thread_dying = false

abbrev pub is_running : ThreadStatus → Bool
is_running thread_blocked = false
is_running thread_running = true
is_running thread_ready = false
is_running thread_dying = false

abbrev pub is_dying : ThreadStatus → Bool
is_dying thread_blocked = false
is_dying thread_running = false
is_dying thread_ready = false
is_dying thread_dying = true

abbrev pub is_thread : ℕ → Kernel → Bool
is_thread t k = not (t == 0) && ((k.threads t).magic == thread_magic)

unfoldable pub thread_current : Kernel → Option ℕ
thread_current k =
    if is_thread k.running k && is_running (k.threads k.running).status
    then some k.running
    else none

unfoldable pub thread_tid : Kernel → Option ℕ
unfolding thread_current
thread_tid k = elim (thread_current k) [ none ↦ none | some t ↦ some (k.threads t).tid ]

unfoldable pub allocate_tid : Kernel → ℕ × Kernel
allocate_tid k = (k.next_tid, record k { next_tid = k.next_tid + 1 })

-- The page at `t` is set to 0 first.
unfoldable pub init_thread : (t priority : ℕ) → Kernel → Option Kernel
init_thread t priority k =
    let x : Thread = record {
      tid = 0;
      status = thread_blocked;
      stack = t + 4096;
      priority = priority;
      pagedir = none;
      children_init = false;
      magic = thread_magic;
      function = 0;
      aux = 0;
    } in
    if t == 0
    then none
    else if leb priority pri_max
    then some (set_thread t x (record k { all_list = k.all_list ++ (t ∷ []) }))
    else none

unfoldable pub alloc_frame : (t size : ℕ) → Kernel → Option Kernel
alloc_frame t size k =
    let x = k.threads t in
    if is_thread t k && (size % 4 == 0)
    then some (set_thread t (record x { stack = x.stack - size }) k)
    else none

unfoldable pub thread_unblock : ℕ → Kernel → Option Kernel
thread_unblock t k =
    if is_thread t k && is_blocked (k.threads t).status
    then some (set_status t thread_ready (record k { ready_list = k.ready_list ++ (t ∷ []) }))
    else none

-- At the thread on the CPU, `t`, which is the address that its stack pointer is rounded down to.
unfoldable pub thread_init : (t : ℕ) → Kernel → Option Kernel
unfolding init_thread allocate_tid
thread_init t k =
    if k.interrupts_on
    then none
    else elim (init_thread t pri_default
        (record k { ready_list = []; all_list = []; initial_thread = t; running = t })) [
          | none ↦ none
          | some s ↦
              let (tid, u) = allocate_tid s in
              some (set_thread t (record (u.threads t) { status = thread_running; tid = tid }) u)
        ]

unfoldable pub thread_tick : Kernel → Option Kernel
unfolding thread_current
thread_tick k = elim (thread_current k) [
  | none ↦ none
  | some t ↦
      let counted : Kernel =
        if t == k.idle_thread
        then record k { idle_ticks = k.idle_ticks + 1 }
        else if is_some (k.threads t).pagedir
        then record k { user_ticks = k.user_ticks + 1 }
        else record k { kernel_ticks = k.kernel_ticks + 1 } in
      let ticked : Kernel = record counted { thread_ticks = (counted.thread_ticks + 1) % 2 ^ 32 } in
      some (
        if leb time_slice ticked.thread_ticks
        then record ticked { yield_on_return = true }
        else ticked)
]

-- The stack frames after that of `kernel_thread`, of 12 bytes, are of switch.h: `entry_size` and
-- `switch_size` are their sizes. `page` is what `palloc_get_page` returns, and a result of `none`
-- in the pair is TID_ERROR.
unfoldable pub thread_create :
    (entry_size switch_size : ℕ) (page : Option ℕ) (priority function aux : ℕ)
    → Kernel
    → Option (Option ℕ × Kernel)
thread_create entry_size switch_size page priority function aux k =
    if function == 0 then none else elim page [
      | none ↦ some (none, k)
      | some t ↦ elim (init_thread t priority k) [
        | none ↦ none
        | some s ↦
            let (tid, u) = allocate_tid s in
            elim (alloc_frame t 12 (set_thread t (record (u.threads t) { tid = tid }) u)) [
              | none ↦ none
              | some v ↦
                  elim (alloc_frame t entry_size
                    (set_thread t (record (v.threads t) { function = function; aux = aux }) v)) [
                      | none ↦ none
                      | some w ↦ elim (alloc_frame t switch_size w) [
                        | none ↦ none
                        | some x ↦ elim (thread_unblock t x) [
                          | none ↦ none
                          | some y ↦ some (some tid, y)
                        ]
                      ]
                    ]
            ]
      ]
    ]
