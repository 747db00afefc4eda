-- ===== src/UserPrograms/Threads/Tests.antt =====
-- The theorems at a kernel with a thread on the CPU, one that is ready and the idle thread.
use cs124_my_pintos.Common.{
  ℕ, ◌≡◌, refl, subst, inl, inr, true, false, none, some, [], ◌∷◌, ◌++◌, arith, ◌==◌, if◌then◌else◌,
  Bool-cases, count,
}
use cs124_my_pintos.UserPrograms.Threads.{
  thread_magic, ThreadStatus, thread_running, thread_ready, thread_blocked, Thread, Kernel,
  is_thread, thread_current, thread_create,
}
use cs124_my_pintos.UserPrograms.Threads.Switch.{schedule, thread_yield}
use cs124_my_pintos.UserPrograms.Threads.Valid.{IsValid}
use cs124_my_pintos.UserPrograms.Threads.Leave.{yielded}
use cs124_my_pintos.UserPrograms.Threads.Create.{thread_create-IsValid}
use cs124_my_pintos.UserPrograms.Threads.Steps.{Step, Reach, Reach-IsValid}
use cs124_my_pintos.UserPrograms.Threads.Robin.{yields, yields-running}

abbrev a_thread : (tid : ℕ) → ThreadStatus → Thread
a_thread tid status = record {
  tid = tid;
  status = status;
  stack = 0;
  priority = 31;
  pagedir = none;
  children_init = false;
  magic = thread_magic;
  function = 0;
  aux = 0;
}

abbrev kernel : Kernel
kernel = record {
  threads = λ t.
      if t == 4096
      then a_thread 1 thread_running
      else if t == 8192
      then a_thread 3 thread_ready
      else a_thread 2 thread_blocked;
  ready_list = 8192 ∷ [];
  all_list = 4096 ∷ 8192 ∷ 12288 ∷ [];
  idle_thread = 12288;
  initial_thread = 4096;
  running = 4096;
  interrupts_on = true;
  in_external_intr = false;
  yield_on_return = false;
  idle_ticks = 0;
  kernel_ticks = 0;
  user_ticks = 0;
  thread_ticks = 0;
  next_tid = 4;
  active_pagedir = none;
  freed = [];
}

kernel-IsValid : IsValid kernel
unfolding count
kernel-IsValid = record {
  queue = record {
    once = λ t. ground arith;
    queued = λ t h.
        let p : 8192 ≡ t = ground arith in
        subst (λ u. (kernel.threads u).status ≡ thread_ready) p refl;
    live = λ t h. ground arith;
    ready = λ t h e. elim (Bool-cases (t == 8192)) [
      | inl b ↦ inl (ground arith)
      | inr b ↦ elim (Bool-cases (t == 12288)) [
        | inl c ↦ inr (ground arith)
        | inr c ↦
            let p : t ≡ 4096 = ground arith in
            let r : thread_running ≡ thread_ready =
              subst (λ u. (kernel.threads u).status ≡ thread_ready) p e in
            cc
      ]
    ];
    once_live = λ t. ground arith;
    idle_live = omega arith;
    is_thread = λ t h. elim (Bool-cases (t == 8192)) [
      | inl b ↦ let p : 8192 ≡ t = ground arith in subst (λ u. is_thread u kernel ≡ true) p refl
      | inr b ↦ elim (Bool-cases (t == 12288)) [
        | inl c ↦ let p : 12288 ≡ t = ground arith in subst (λ u. is_thread u kernel ≡ true) p refl
        | inr c ↦ let p : 4096 ≡ t = ground arith in subst (λ u. is_thread u kernel ≡ true) p refl
      ]
    ];
  };
  running = refl;
  running_live = omega arith;
  only = λ t h e. elim (Bool-cases (t == 8192)) [
    | inl b ↦
        let p : t ≡ 8192 = ground arith in
        let r : thread_ready ≡ thread_running =
          subst (λ u. (kernel.threads u).status ≡ thread_running) p e in
        cc
    | inr b ↦ elim (Bool-cases (t == 12288)) [
      | inl c ↦
          let p : t ≡ 12288 = ground arith in
          let r : thread_blocked ≡ thread_running =
            subst (λ u. (kernel.threads u).status ≡ thread_running) p e in
          cc
      | inr c ↦ ground arith
    ]
  ];
}

no_thread : count 16384 kernel.all_list ≡ 0
unfolding count
no_thread = refl

thread_create-IsValid_example :
    (s : Kernel) × (thread_create 4 28 (some 16384) 31 1 2 kernel ≡ some (some 4, s))
    × IsValid s
    × (s.ready_list ≡ kernel.ready_list ++ (16384 ∷ []))
    × (s.all_list ≡ kernel.all_list ++ (16384 ∷ []))
    × ((s.threads 16384).status ≡ thread_ready)
thread_create-IsValid_example =
    thread_create-IsValid 4 28 16384 31 1 2 kernel kernel-IsValid refl refl (omega arith) no_thread
      (omega arith) (omega arith)

no_idle : count kernel.idle_thread kernel.ready_list ≡ 0
unfolding count
no_idle = refl

yields-running_example : (s : Kernel) × (yields 1 kernel ≡ some s) × (s.running ≡ 8192)
yields-running_example = yields-running 0 8192 kernel kernel-IsValid refl (omega arith) no_idle refl

one_yield : thread_yield kernel ≡ some (yielded [] kernel)
unfolding thread_yield thread_current schedule
one_yield = refl

keeps_some :
    (k q : Kernel)
    → IsValid k
    → some k ≡ some q
    → IsValid q × (q.running ≡ k.running) × (q.idle_thread ≡ k.idle_thread)
keeps_some k q v e =
    let p : k ≡ q = cc in
    subst (λ x. IsValid x × (x.running ≡ k.running) × (x.idle_thread ≡ k.idle_thread)) p
      (v, refl, refl)

Reach-IsValid_example : IsValid (yielded [] kernel)
Reach-IsValid_example = Reach-IsValid 4 28 refl refl some keeps_some kernel-IsValid (
    Reach.then_step kernel (yielded [] kernel) Reach.here
      (Step.yields kernel (yielded [] kernel) one_yield))
