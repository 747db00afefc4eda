-- ===== src/UserPrograms/Threads/Steps.antt =====
-- The scheduler of user-programs/threads/thread.c as steps of its operations.
use cs124_my_pintos.Common.{
  ℕ, ◌+◌, ◌%◌, ◌≤◌, ◌<◌, ◌≡◌, ◌≢◌, refl, sym, ap, ◌∙◌, subst, inl, inr, Bool, true, false, Option,
  none, some, Bool-cases, Option-cases, is_some, leb, ◌==◌, ◌^◌, count, if◌then◌else◌,
}
use cs124_my_pintos.UserPrograms.Threads.{
  pri_max, time_slice, ThreadStatus, thread_running, thread_ready, thread_blocked, thread_dying,
  Thread, Kernel, is_blocked, thread_unblock, thread_create, thread_tick,
}
use cs124_my_pintos.UserPrograms.Threads.Switch.{
  thread_block, thread_yield, thread_exit, thread_set_priority,
}
use cs124_my_pintos.UserPrograms.Threads.Valid.{IsValid}
use cs124_my_pintos.UserPrograms.Threads.Leave.{
  with_flags-IsValid, thread_current-IsValid, thread_yield-IsValid, thread_block-IsValid,
  thread_exit-IsValid,
}
use cs124_my_pintos.UserPrograms.Threads.Unblock.{
  IsWaiting, set_thread-IsValid, thread_unblock-IsValid,
}
use cs124_my_pintos.UserPrograms.Threads.Create.{thread_create-IsValid}

returned :
    (o : Option Kernel) (s : Kernel) {a : Kernel} → o ≡ some a → o ≡ some s → IsValid a → IsValid s
returned o s {a} d e v =
    subst IsValid (ap (λ o. elim o as (λ x. Kernel) [ none ↦ a | some x ↦ x ]) (sym d ∙ e)) v

refused : (o : Option Kernel) (s : Kernel) → o ≡ none → o ≡ some s → ⊥
refused o s n e = cc

is_blocked-status : (s : ThreadStatus) → is_blocked s ≡ true → s ≡ thread_blocked
is_blocked-status thread_running h = cc
is_blocked-status thread_ready h = cc
is_blocked-status thread_blocked h = refl
is_blocked-status thread_dying h = cc

if-IsValid : (b : Bool) (j k : Kernel) → IsValid j → IsValid k → IsValid (if b then j else k)
if-IsValid true j k v w = v
if-IsValid false j k v w = w

exit-none {ℓ} :
    {A : Type ℓ} (f : A → Option A) (a : Bool) (o : Option A)
    → a ≡ false
    → o ≡ none
    → (if a then none else elim o as (λ x. Option A) [ none ↦ none | some q ↦ f q ]) ≡ none
exit-none f a o x e = rw (x, e) refl

thread_yield-external : (k : Kernel) → IsValid k → k.in_external_intr ≡ true → thread_yield k ≡ none
unfolding thread_yield
thread_yield-external k v x = let cur = thread_current-IsValid k v in rw (thread_yield, cur, x) refl

ticks-IsValid : (k s : Kernel) → thread_tick k ≡ some s → IsValid k → IsValid s
unfolding thread_tick
ticks-IsValid k s e v =
    let cur = thread_current-IsValid k v in
    let flags = λ (yield : Bool) (i ke u th : ℕ) (j : Kernel).
      with_flags-IsValid j.interrupts_on j.in_external_intr yield i ke u th j.next_tid j in
    let idle : Kernel = record k { idle_ticks = k.idle_ticks + 1 } in
    let user : Kernel = record k { user_ticks = k.user_ticks + 1 } in
    let kernel : Kernel = record k { kernel_ticks = k.kernel_ticks + 1 } in
    let other = if is_some (k.threads k.running).pagedir then user else kernel in
    let counted = if k.running == k.idle_thread then idle else other in
    let y = k.yield_on_return in
    let vi = flags y (k.idle_ticks + 1) k.kernel_ticks k.user_ticks k.thread_ticks k v in
    let vu = flags y k.idle_ticks k.kernel_ticks (k.user_ticks + 1) k.thread_ticks k v in
    let vk = flags y k.idle_ticks (k.kernel_ticks + 1) k.user_ticks k.thread_ticks k v in
    let vo = if-IsValid (is_some (k.threads k.running).pagedir) user kernel vu vk in
    let vc = if-IsValid (k.running == k.idle_thread) idle other vi vo in
    let ticks = (counted.thread_ticks + 1) % 2 ^ 32 in
    let ticked : Kernel = record counted { thread_ticks = ticks } in
    let vt =
      flags counted.yield_on_return counted.idle_ticks counted.kernel_ticks counted.user_ticks ticks
        counted vc in
    let vy =
      flags true counted.idle_ticks counted.kernel_ticks counted.user_ticks ticks counted vc in
    returned (thread_tick k) s (rw (thread_tick, cur) refl) e
      (if-IsValid (leb time_slice ticks) (record ticked { yield_on_return = true }) ticked vy vt)

-- `entry_size` and `switch_size` are the sizes of the frames of switch.h. What a process does when it
-- exits leaves a valid state, and the thread on the CPU and the idle thread as they are.
module _ (entry_size switch_size : ℕ) (entry_words : entry_size % 4 ≡ 0)
    (switch_words : switch_size % 4 ≡ 0) (process_exit : Kernel → Option Kernel)
    (exit_keeps : (k q : Kernel)
      → IsValid k
      → process_exit k ≡ some q
      → IsValid q × (q.running ≡ k.running) × (q.idle_thread ≡ k.idle_thread)) where
  -- One operation that returns. A page for a new thread is not the page of a live one, and a thread
  -- that is unblocked is live.
  pub data Step : Kernel → Kernel → Type 0 where
    yields : (k s : Kernel) → thread_yield k ≡ some s → Step k s
    blocks : (k s : Kernel) → thread_block k ≡ some s → Step k s
    exits :
        (k s : Kernel) → k.running ≢ k.idle_thread → thread_exit process_exit k ≡ some s → Step k s
    unblocks :
        (k s : Kernel) (t : ℕ) → 0 < count t k.all_list → thread_unblock t k ≡ some s → Step k s
    creates :
        (k s : Kernel) (t priority function aux tid : ℕ)
        → t ≢ 0
        → count t k.all_list ≡ 0
        → priority ≤ pri_max
        → function ≢ 0
        → thread_create entry_size switch_size (some t) priority function aux k ≡ some (some tid, s)
        → Step k s
    ticks : (k s : Kernel) → thread_tick k ≡ some s → Step k s
    sets_priority :
        (k s : Kernel) (new_priority : ℕ) → thread_set_priority new_priority k ≡ some s → Step k s
    -- Interrupts are set, as the thread that runs again after a yield does, or one begins or ends.
    interrupts :
        (k : Kernel) (on in_external : Bool)
        → Step k (record k { interrupts_on = on; in_external_intr = in_external })

  pub data Reach (start : Kernel) : Kernel → Type 0 where
    here : Reach start start
    then_step : (k s : Kernel) → Reach start k → Step k s → Reach start s

  yields-IsValid : (k s : Kernel) → thread_yield k ≡ some s → IsValid k → IsValid s
  yields-IsValid k s e v = elim (Bool-cases k.in_external_intr) [
    | inl x ↦ absurd (refused (thread_yield k) s (thread_yield-external k v x) e)
    | inr x ↦
        let (freed, done, valid) = thread_yield-IsValid k v x in
        returned (thread_yield k) s done e valid
  ]

  blocks-IsValid : (k s : Kernel) → thread_block k ≡ some s → IsValid k → IsValid s
  unfolding thread_block
  blocks-IsValid k s e v = elim (Bool-cases k.in_external_intr) [
    | inl x ↦ absurd (refused (thread_block k) s (rw (thread_block, x) refl) e)
    | inr x ↦ elim (Bool-cases k.interrupts_on) [
      | inl i ↦ absurd (refused (thread_block k) s (rw (thread_block, x, i) refl) e)
      | inr i ↦
          let (t, done, valid) = thread_block-IsValid k v x i in
          returned (thread_block k) s done e valid
    ]
  ]

  exits-IsValid :
      (k s : Kernel)
      → k.running ≢ k.idle_thread
      → thread_exit process_exit k ≡ some s
      → IsValid k
      → IsValid s
  unfolding thread_exit
  exits-IsValid k s n e v = elim (Bool-cases k.in_external_intr) [
    | inl x ↦ absurd (refused (thread_exit process_exit k) s (rw (thread_exit, x) refl) e)
    | inr x ↦ elim (Option-cases (process_exit k)) [
      | inl o ↦ absurd (
          refused (thread_exit process_exit k) s
            (exit-none _ k.in_external_intr (process_exit k) x o) e)
      | inr (q, o) ↦
          let (vq, r, i) = exit_keeps k q v o in
          let m : q.running ≢ q.idle_thread = λ p. n (sym r ∙ (p ∙ i)) in
          let (t, done, valid, gone) = thread_exit-IsValid process_exit k q x o vq m in
          returned (thread_exit process_exit k) s done e valid
    ]
  ]

  unblocks-IsValid :
      (k s : Kernel) (t : ℕ)
      → 0 < count t k.all_list
      → thread_unblock t k ≡ some s
      → IsValid k
      → IsValid s
  unfolding thread_unblock
  unblocks-IsValid k s t l e v = elim (Bool-cases (is_blocked (k.threads t).status)) [
    | inr b ↦
        let is = v.queue.is_thread t l in
        absurd (refused (thread_unblock t k) s (rw (thread_unblock, is, b) refl) e)
    | inl b ↦
        let w : IsWaiting t k = record {
          valid = v;
          live = l;
          blocked = is_blocked-status (k.threads t).status b;
        } in
        let (r, done, valid, st, rl, al) = thread_unblock-IsValid t k w in
        returned (thread_unblock t k) s done e valid
  ]

  sets_priority-IsValid :
      (k s : Kernel) (p : ℕ) → thread_set_priority p k ≡ some s → IsValid k → IsValid s
  unfolding thread_set_priority
  sets_priority-IsValid k s p e v =
      let cur = thread_current-IsValid k v in
      let x : Thread = record (k.threads k.running) { priority = p } in
      returned (thread_set_priority p k) s (rw (thread_set_priority, cur) refl) e
        (set_thread-IsValid k.running x k v refl refl)

  pub Step-IsValid : {k s : Kernel} → Step k s → IsValid k → IsValid s
  Step-IsValid (yields k s e) v = yields-IsValid k s e v
  Step-IsValid (blocks k s e) v = blocks-IsValid k s e v
  Step-IsValid (exits k s n e) v = exits-IsValid k s n e v
  Step-IsValid (unblocks k s t l e) v = unblocks-IsValid k s t l e v
  Step-IsValid (creates k s t priority function aux tid n z p f e) v =
      let (r, done, valid, rl, al, st) =
        thread_create-IsValid entry_size switch_size t priority function aux k v entry_words
          switch_words n z p f in
      subst IsValid (ap (λ o. elim o as (λ x. Kernel) [ none ↦ r | some q ↦ q.1 ]) (sym done ∙ e))
        valid
  Step-IsValid (ticks k s e) v = ticks-IsValid k s e v
  Step-IsValid (sets_priority k s p e) v = sets_priority-IsValid k s p e v
  Step-IsValid (interrupts k on in_external) v =
      with_flags-IsValid on in_external k.yield_on_return k.idle_ticks k.kernel_ticks k.user_ticks
        k.thread_ticks k.next_tid k v

  -- Where the exit of a process keeps the scheduler valid, every state that the operations of the
  -- scheduler reach from a valid state, in any order and number, is valid: the thread on the CPU
  -- is the one live thread that is running, and the ready list has each live thread that is ready,
  -- but for the idle thread, exactly once, and no other.
  pub Reach-IsValid : {start k : Kernel} → IsValid start → Reach start k → IsValid k
  Reach-IsValid v here = v
  Reach-IsValid v (then_step k s r e) = Step-IsValid e (Reach-IsValid v r)
