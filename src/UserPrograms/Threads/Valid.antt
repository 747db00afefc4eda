-- ===== src/UserPrograms/Threads/Valid.antt =====
-- The state of the scheduler of user-programs/threads/thread.c, and what `schedule` does to it.
use cs124_my_pintos.Common.{
  ℕ, ◌≤◌, ◌<◌, ◌≡◌, ◌≢◌, refl, sym, ap, ◌∙◌, subst, ◌⊎◌, inl, inr, Bool, true, false, not, ◌&&◌,
  Option, none, some, List, [], ◌∷◌, arith, ◌==◌, if◌then◌else◌, Bool-cases, count,
}
use cs124_my_pintos.UserPrograms.Threads.{
  thread_magic, ThreadStatus, thread_running, thread_ready, thread_blocked, thread_dying, Kernel,
  set_status, is_running, is_dying, is_thread,
}
use cs124_my_pintos.UserPrograms.Threads.Switch.{next_thread_to_run, thread_schedule_tail, schedule}

-- The ready list has each thread at most once, and the threads of the list are live and ready. A live
-- thread that is ready is in the list, but for the idle thread.
pub record IsQueue (k : Kernel) : Type 0 where
  pub once : (t : ℕ) → count t k.ready_list ≤ 1
  pub queued : (t : ℕ) → 0 < count t k.ready_list → (k.threads t).status ≡ thread_ready
  pub live : (t : ℕ) → 0 < count t k.ready_list → 0 < count t k.all_list
  pub ready :
      (t : ℕ)
      → 0 < count t k.all_list
      → (k.threads t).status ≡ thread_ready
      → (0 < count t k.ready_list) ⊎ (t ≡ k.idle_thread)
  pub once_live : (t : ℕ) → count t k.all_list ≤ 1
  pub idle_live : 0 < count k.idle_thread k.all_list
  pub is_thread : (t : ℕ) → 0 < count t k.all_list → is_thread t k ≡ true

-- The thread on the CPU is the one live thread that is running.
pub record IsValid (k : Kernel) : Type 0 where
  pub queue : IsQueue k
  pub running : (k.threads k.running).status ≡ thread_running
  pub running_live : 0 < count k.running k.all_list
  pub only :
      (t : ℕ) → 0 < count t k.all_list → (k.threads t).status ≡ thread_running → t ≡ k.running

-- The thread that `next_thread_to_run` takes, and the ready list after it.
abbrev pub next_of : (idle_thread : ℕ) → List ℕ → ℕ × List ℕ
next_of idle_thread [] = (idle_thread, [])
next_of idle_thread (t ∷ rest) = (t, rest)

-- The state in which the thread `next` runs.
abbrev pub switched : (next : ℕ) → (rest freed : List ℕ) → Kernel → Kernel
switched next rest freed k = record (set_status next thread_running k) {
  ready_list = rest;
  running = next;
  thread_ticks = 0;
  active_pagedir = (k.threads next).pagedir;
  freed = freed;
}

next_thread_to_run-next_of :
    (xs : List ℕ) (k : Kernel)
    → k.ready_list ≡ xs
    → next_thread_to_run k
      ≡ ((next_of k.idle_thread xs).0, record k { ready_list = (next_of k.idle_thread xs).1 })
unfolding next_thread_to_run
next_thread_to_run-next_of [] k e =
    rw (next_thread_to_run, e) (ap (λ l. (k.idle_thread, record k { ready_list = l })) e)
next_thread_to_run-next_of (t ∷ rest) k e = rw (next_thread_to_run, e) refl

-- A thread other than the previous one has come on the CPU.
thread_schedule_tail-freed :
    (prev : ℕ) (k : Kernel)
    → k.interrupts_on ≡ false
    → (prev == k.running) ≡ false
    → (freed : List ℕ) × (thread_schedule_tail (some prev) k
        ≡ some (record (set_status k.running thread_running k) {
          thread_ticks = 0;
          active_pagedir = (k.threads k.running).pagedir;
          freed = freed;
        }))
unfolding thread_schedule_tail
thread_schedule_tail-freed prev k i n =
    let started : Kernel = record (set_status k.running thread_running k) {
      thread_ticks = 0;
      active_pagedir = (k.threads k.running).pagedir;
    } in
    let same : (started.threads prev).status ≡ (k.threads prev).status =
      ap
        (λ b.
          (if b
            then record (k.threads k.running) { status = thread_running }
            else k.threads prev).status)
        n in
    tail_cases k.interrupts_on
      (is_dying (started.threads prev).status && not (prev == k.initial_thread)) (prev == k.running)
      started prev i n
  where
    tail_cases :
        (a b c : Bool) (started : Kernel) (prev : ℕ)
        → a ≡ false
        → c ≡ false
        → (freed : List ℕ) × ((if a
              then none
              else if b
              then if c then none else some (record started { freed = prev ∷ started.freed })
              else some started)
            ≡ some (record started { freed = freed }))
    tail_cases a true c started prev i n = (prev ∷ started.freed, rw (i, n) refl)
    tail_cases a false c started prev i n = (started.freed, rw i refl)

-- The assertions of `schedule` hold.
schedule-tests {ℓ} :
    {A : Type ℓ} (a b c d : Bool) (x y z : Option A)
    → a ≡ false
    → b ≡ false
    → c ≡ true
    → (if d then x else y) ≡ z
    → (if a then none else if b then none else if not c then none else if d then x else y) ≡ z
schedule-tests a b c d x y z i r t e = rw (i, r, t) e

-- What `schedule` does with the result of `next_thread_to_run`.
abbrev scheduled : Kernel → ℕ × Kernel → Option Kernel
scheduled k r =
    if k.interrupts_on
    then none
    else if is_running (r.1.threads k.running).status
    then none
    else if not (is_thread r.0 r.1)
    then none
    else if k.running == r.0
    then thread_schedule_tail none r.1
    else thread_schedule_tail (some k.running) (record r.1 { running = r.0 })

thread_schedule_tail-none :
    (k : Kernel)
    → k.interrupts_on ≡ false
    → thread_schedule_tail none k ≡ some (switched k.running k.ready_list k.freed k)
unfolding thread_schedule_tail
thread_schedule_tail-none k i = rw i refl

pub schedule-switched :
    (k : Kernel)
    → k.interrupts_on ≡ false
    → is_running (k.threads k.running).status ≡ false
    → is_thread (next_of k.idle_thread k.ready_list).0 k ≡ true
    → (freed : List ℕ) × (schedule k
        ≡ some (
            switched
              (next_of k.idle_thread k.ready_list).0
              (next_of k.idle_thread k.ready_list).1
              freed
              k))
unfolding schedule
schedule-switched k i r t =
    let next = (next_of k.idle_thread k.ready_list).0 in
    let rest = (next_of k.idle_thread k.ready_list).1 in
    let chosen : Kernel = record k { ready_list = rest } in
    let other : Kernel = record k { ready_list = rest; running = next } in
    let stay = thread_schedule_tail none chosen in
    let leave = thread_schedule_tail (some k.running) other in
    let got = ap (scheduled k) (next_thread_to_run-next_of k.ready_list k refl) in
    let tests =
      schedule-tests k.interrupts_on (is_running (k.threads k.running).status) (is_thread next k)
        (k.running == next) stay leave in
    elim (Bool-cases (k.running == next)) [
      | inl e ↦
          let p : k.running ≡ next = ground arith in
          let here = ap (λ n. some (switched n rest k.freed k)) p in
          (
            k.freed,
            got
                ∙ tests (some (switched next rest k.freed k)) i r t (
                    ap (λ d. if d then stay else leave) e
                    ∙ (thread_schedule_tail-none chosen i ∙ here)),
          )
      | inr e ↦
          let (freed, tail) = thread_schedule_tail-freed k.running other i e in
          (
            freed,
            got
                ∙ tests (some (switched next rest freed k)) i r t
                    (ap (λ d. if d then stay else leave) e ∙ tail),
          )
    ]

-- The states between a thread's leaving the CPU and the next one's coming.
pub record IsStopped (k : Kernel) : Type 0 where
  pub queue : IsQueue k
  pub stopped : (t : ℕ) → 0 < count t k.all_list → (k.threads t).status ≢ thread_running
  pub off : k.interrupts_on ≡ false
  pub left : (k.threads k.running).status ≢ thread_running

pub status-set_status_self :
    (t : ℕ) (s : ThreadStatus) (k : Kernel) → ((set_status t s k).threads t).status ≡ s
status-set_status_self t s k = let e : (t == t) ≡ true = ground arith in rw e refl

pub status-set_status_ne :
    (t : ℕ) (s : ThreadStatus) (k : Kernel) (u : ℕ)
    → u ≢ t
    → ((set_status t s k).threads u).status ≡ (k.threads u).status
status-set_status_ne t s k u n = let e : (u == t) ≡ false = ground arith in rw e refl

pub is_thread-set_status :
    (t : ℕ) (s : ThreadStatus) (k : Kernel) (u : ℕ) → is_thread u (set_status t s k) ≡ is_thread u k
is_thread-set_status t s k u = elim (Bool-cases (u == t)) [
  | inl e ↦
      let p : t ≡ u = ground arith in
      rw e (ap (λ v. not (u == 0) && ((k.threads v).magic == thread_magic)) p)
  | inr e ↦ rw e refl
]

-- How `next_thread_to_run` takes a thread off the ready list.
record Taken (next : ℕ) (rest : List ℕ) (k : Kernel) : Type 0 where
  next_live : 0 < count next k.all_list
  fewer : (t : ℕ) → count t rest ≤ count t k.ready_list
  gone : count next rest ≡ 0
  kept : (t : ℕ) → 0 < count t k.ready_list → t ≢ next → 0 < count t rest

next_of-Taken :
    (xs : List ℕ) (k : Kernel)
    → k.ready_list ≡ xs
    → IsQueue k
    → Taken (next_of k.idle_thread xs).0 (next_of k.idle_thread xs).1 k
unfolding count
next_of-Taken [] k e q = record {
  next_live = q.idle_live;
  fewer = λ t. omega arith;
  gone = refl;
  kept = λ t h n. let z : count t k.ready_list ≡ 0 = ap (count t) e in absurd (omega arith);
}
next_of-Taken (x ∷ xs) k e q = record {
  next_live = (let z = ap (count x) e in q.live x (ground arith));
  fewer = λ t. let z = ap (count t) e in ground arith;
  gone = (let z = ap (count x) e in let o = q.once x in ground arith);
  kept = λ t h n. let z = ap (count t) e in ground arith;
}

switched-IsValid :
    (next : ℕ) (rest freed : List ℕ) (k : Kernel)
    → Taken next rest k
    → IsStopped k
    → IsValid (switched next rest freed k)
switched-IsValid next rest freed k n s =
    let q = s.queue in
    let self = status-set_status_self next thread_running k in
    let other = status-set_status_ne next thread_running k in
    record {
      queue = record {
        once = λ t. let a = q.once t in let b = n.fewer t in omega arith;
        queued = λ t h.
            let a = n.fewer t in
            let ne : t ≢ next = λ p.
              let z : count t rest ≡ 0 = subst (λ x. count x rest ≡ 0) (sym p) n.gone in
              omega arith in
            other t ne ∙ q.queued t (omega arith);
        live = λ t h. let b = n.fewer t in q.live t (omega arith);
        ready = λ t h e. elim (Bool-cases (t == next)) [
          | inl b ↦
              let p : t ≡ next = ground arith in
              let r : ((set_status next thread_running k).threads t).status ≡ thread_running =
                subst (λ x. ((set_status next thread_running k).threads x).status ≡ thread_running)
                  (sym p) self in
              (let c : thread_running ≡ thread_ready = sym r ∙ e in cc)
          | inr b ↦
              let ne : t ≢ next = ground arith in
              elim (q.ready t h (sym (other t ne) ∙ e)) [
                | inl c ↦ inl (n.kept t c ne)
                | inr c ↦ inr c
              ]
        ];
        once_live = q.once_live;
        idle_live = q.idle_live;
        is_thread = λ t h. is_thread-set_status next thread_running k t ∙ q.is_thread t h;
      };
      running = self;
      running_live = n.next_live;
      only = λ t h e. elim (Bool-cases (t == next)) [
        | inl b ↦ ground arith
        | inr b ↦ let ne : t ≢ next = ground arith in absurd (s.stopped t h (sym (other t ne) ∙ e))
      ];
    }

is_running-false : (s : ThreadStatus) → s ≢ thread_running → is_running s ≡ false
is_running-false thread_running n = absurd (n refl)
is_running-false thread_ready n = refl
is_running-false thread_blocked n = refl
is_running-false thread_dying n = refl

-- `schedule` never fails an assertion between two threads.
pub schedule-IsValid :
    (k : Kernel)
    → IsStopped k
    → let next = next_of k.idle_thread k.ready_list in
      (freed : List ℕ) × (schedule k ≡ some (switched next.0 next.1 freed k))
      × IsValid (switched next.0 next.1 freed k)
schedule-IsValid k s =
    let next = next_of k.idle_thread k.ready_list in
    let taken = next_of-Taken k.ready_list k refl s.queue in
    let (freed, done) =
      schedule-switched k s.off (is_running-false (k.threads k.running).status s.left)
        (s.queue.is_thread next.0 taken.next_live) in
    (freed, done, switched-IsValid next.0 next.1 freed k taken s)
