-- ===== src/UserPrograms/Threads/Leave.antt =====
-- The functions of user-programs/threads/thread.c in which the running thread leaves the CPU.
use cs124_my_pintos.Common.{
  ℕ, ◌≤◌, ◌<◌, ◌≡◌, ◌≢◌, refl, sym, ◌∙◌, subst, ◌⊎◌, inl, inr, Bool, true, false, Option, none,
  some, List, [], ◌∷◌, ◌++◌, arith, ◌==◌, if◌then◌else◌, Bool-cases, count, count-append_one,
}
use cs124_my_pintos.UserPrograms.Threads.{
  ThreadStatus, thread_running, thread_ready, thread_blocked, thread_dying, Kernel, set_status,
  is_thread, thread_current,
}
use cs124_my_pintos.UserPrograms.Threads.Switch.{
  schedule, thread_block, thread_yield, list_remove, thread_exit,
}
use cs124_my_pintos.UserPrograms.Threads.Valid.{
  IsValid, IsStopped, next_of, switched, status-set_status_self, status-set_status_ne,
  is_thread-set_status, schedule-IsValid,
}

-- What the thread on the CPU, leaving with the status `s`, has done to the two lists.
record Leaves (k : Kernel) (s : ThreadStatus) (ready_list all_list : List ℕ) : Type 0 where
  others_ready : (t : ℕ) → t ≢ k.running → count t ready_list ≡ count t k.ready_list
  others_live : (t : ℕ) → t ≢ k.running → count t all_list ≡ count t k.all_list
  not_running : s ≢ thread_running
  once : count k.running ready_list ≤ 1
  once_live : count k.running all_list ≤ 1
  queued : 0 < count k.running ready_list → (s ≡ thread_ready) × (0 < count k.running all_list)
  ready : s ≡ thread_ready → (0 < count k.running ready_list) ⊎ (k.running ≡ k.idle_thread)
  idle_live : 0 < count k.idle_thread all_list

abbrev pub left : (s : ThreadStatus) (ready_list all_list : List ℕ) → Kernel → Kernel
left s ready_list all_list k =
    set_status k.running s
      (record k { ready_list = ready_list; all_list = all_list; interrupts_on = false })

-- The thread on the CPU or another one.
by_running {ℓ} :
    (P : ℕ → Type ℓ) (k : Kernel) → P k.running → ((t : ℕ) → t ≢ k.running → P t) → (t : ℕ) → P t
by_running P k here other t = elim (Bool-cases (t == k.running)) [
  | inl b ↦ let p : k.running ≡ t = ground arith in subst P p here
  | inr b ↦ other t (ground arith)
]

Leaves-IsStopped :
    (s : ThreadStatus) (ready_list all_list : List ℕ) (k : Kernel)
    → Leaves k s ready_list all_list
    → IsValid k
    → IsStopped (left s ready_list all_list k)
Leaves-IsStopped s ready_list all_list k l v =
    let q = v.queue in
    let m = left s ready_list all_list k in
    let start : Kernel = record k {
      ready_list = ready_list;
      all_list = all_list;
      interrupts_on = false;
    } in
    let self = status-set_status_self k.running s start in
    let other = status-set_status_ne k.running s start in
    record {
      queue = record {
        once =
            by_running (λ t. count t ready_list ≤ 1) k l.once
              (λ t n. let a = q.once t in let b = l.others_ready t n in omega arith);
        queued =
            by_running (λ t. 0 < count t ready_list → (m.threads t).status ≡ thread_ready) k
              (λ h. self ∙ (l.queued h).0)
              (λ t n h. let b = l.others_ready t n in other t n ∙ q.queued t (omega arith));
        live =
            by_running (λ t. 0 < count t ready_list → 0 < count t all_list) k (λ h. (l.queued h).1)
              (λ t n h.
                let a = l.others_ready t n in
                let b = l.others_live t n in let c = q.live t (omega arith) in omega arith);
        ready =
            by_running
              (λ t.
                0 < count t all_list
                → (m.threads t).status ≡ thread_ready
                → (0 < count t ready_list) ⊎ (t ≡ k.idle_thread))
              k (λ h e. l.ready (sym self ∙ e))
              (λ t n h e.
                let a = l.others_ready t n in
                let b = l.others_live t n in
                elim (q.ready t (omega arith) (sym (other t n) ∙ e)) [
                  | inl c ↦ inl (omega arith)
                  | inr c ↦ inr c
                ]);
        once_live =
            by_running (λ t. count t all_list ≤ 1) k l.once_live
              (λ t n. let a = q.once_live t in let b = l.others_live t n in omega arith);
        idle_live = l.idle_live;
        is_thread =
            by_running (λ t. 0 < count t all_list → is_thread t m ≡ true) k
              (λ h.
                is_thread-set_status k.running s start k.running
                ∙ q.is_thread k.running v.running_live)
              (λ t n h.
                let b = l.others_live t n in
                is_thread-set_status k.running s start t ∙ q.is_thread t (omega arith));
      };
      stopped =
          by_running (λ t. 0 < count t all_list → (m.threads t).status ≢ thread_running) k
            (λ h e. l.not_running (sym self ∙ e))
            (λ t n h e.
              let b = l.others_live t n in n (v.only t (omega arith) (sym (other t n) ∙ e)));
      off = refl;
      left = λ e. l.not_running (sym self ∙ e);
    }

running-count : (k : Kernel) → IsValid k → count k.running k.ready_list ≡ 0
running-count k v = elim (Bool-cases (count k.running k.ready_list == 0)) [
  | inl b ↦ ground arith
  | inr b ↦
      let r = v.queue.queued k.running (ground arith) in
      let c : thread_ready ≡ thread_running = sym r ∙ v.running in cc
]

pub thread_current-IsValid : (k : Kernel) → IsValid k → thread_current k ≡ some k.running
unfolding thread_current
thread_current-IsValid k v =
    let t = v.queue.is_thread k.running v.running_live in
    let r = v.running in rw (thread_current, t, r) refl

-- The ready list after a yield.
abbrev pub requeued : Kernel → List ℕ
requeued k = if k.running == k.idle_thread then k.ready_list else k.ready_list ++ (k.running ∷ [])

requeued-Leaves : (k : Kernel) → IsValid k → Leaves k thread_ready (requeued k) k.all_list
requeued-Leaves k v =
    let z = running-count k v in
    elim (Bool-cases (k.running == k.idle_thread)) [
      | inl b ↦ rw b (record {
        others_ready = λ t n. refl;
        others_live = λ t n. refl;
        not_running = λ e. cc;
        once = omega arith;
        once_live = v.queue.once_live k.running;
        queued = λ h. absurd (omega arith);
        ready = λ e. inr (ground arith);
        idle_live = v.queue.idle_live;
      })
      | inr b ↦
          let a = λ (t : ℕ). count-append_one t k.ready_list k.running in
          let c = a k.running in
          rw b (record {
            others_ready = λ t n. let d = a t in ground arith;
            others_live = λ t n. refl;
            not_running = λ e. cc;
            once = ground arith;
            once_live = v.queue.once_live k.running;
            queued = λ h. (refl, v.running_live);
            ready = λ e. inl (ground arith);
            idle_live = v.queue.idle_live;
          })
    ]

blocked-Leaves : (k : Kernel) → IsValid k → Leaves k thread_blocked k.ready_list k.all_list
blocked-Leaves k v =
    let z = running-count k v in
    record {
      others_ready = λ t n. refl;
      others_live = λ t n. refl;
      not_running = λ e. cc;
      once = omega arith;
      once_live = v.queue.once_live k.running;
      queued = λ h. absurd (omega arith);
      ready = λ e. cc;
      idle_live = v.queue.idle_live;
    }

count-list_remove :
    (t u : ℕ) (xs : List ℕ)
    → count t xs ≤ 1
    → count t (list_remove u xs) ≡ (if t == u then 0 else count t xs)
unfolding count list_remove
count-list_remove t u [] h = ground arith
count-list_remove t u (x ∷ xs) h = let r = count-list_remove t u xs in ground arith

dying-Leaves :
    (k : Kernel)
    → IsValid k
    → k.running ≢ k.idle_thread
    → Leaves k thread_dying k.ready_list (list_remove k.running k.all_list)
dying-Leaves k v n =
    let z = running-count k v in
    let r = λ (t : ℕ). count-list_remove t k.running k.all_list (v.queue.once_live t) in
    record {
      others_ready = λ t n. refl;
      others_live = λ t n. let a = r t in ground arith;
      not_running = λ e. cc;
      once = omega arith;
      once_live = (let a = r k.running in ground arith);
      queued = λ h. absurd (omega arith);
      ready = λ e. cc;
      idle_live = (let a = r k.idle_thread in let b = v.queue.idle_live in ground arith);
    }

-- The state is as valid whatever the fields are that the lists and the threads do not depend on.
abbrev pub with_flags :
    (on in_external yield : Bool) (idle_ticks kernel_ticks user_ticks thread_ticks next_tid : ℕ)
    → Kernel
    → Kernel
with_flags on in_external yield i ke u th n k = record k {
  interrupts_on = on;
  in_external_intr = in_external;
  yield_on_return = yield;
  idle_ticks = i;
  kernel_ticks = ke;
  user_ticks = u;
  thread_ticks = th;
  next_tid = n;
}

pub with_flags-IsValid :
    (on in_external yield : Bool) (i ke u th n : ℕ) (k : Kernel)
    → IsValid k
    → IsValid (with_flags on in_external yield i ke u th n k)
with_flags-IsValid on in_external yield i ke u th n k v = record {
  queue = record {
    once = v.queue.once;
    queued = v.queue.queued;
    live = v.queue.live;
    ready = v.queue.ready;
    once_live = v.queue.once_live;
    idle_live = v.queue.idle_live;
    is_thread = v.queue.is_thread;
  };
  running = v.running;
  running_live = v.running_live;
  only = v.only;
}

-- The tests of a function that goes on with the current thread, outside an interrupt.
yield-tests {ℓ} :
    {A : Type ℓ} (o : Option ℕ) (b : Bool) (f : ℕ → Option A) (cur : ℕ) (z : A)
    → o ≡ some cur
    → b ≡ false
    → f cur ≡ some z
    → elim o as (λ x. Option A) [ none ↦ none | some c ↦ if b then none else f c ] ≡ some z
yield-tests o b f cur z e x h = rw (e, x) h

-- The state after a yield.
abbrev pub yielded : (freed : List ℕ) → Kernel → Kernel
yielded freed k =
    let next = next_of k.idle_thread (requeued k) in
    switched next.0 next.1 freed (left thread_ready (requeued k) k.all_list k)

-- `thread_yield` outside an interrupt.
pub thread_yield-IsValid :
    (k : Kernel)
    → IsValid k
    → k.in_external_intr ≡ false
    → (freed : List ℕ) × (thread_yield k ≡ some (yielded freed k)) × IsValid (yielded freed k)
unfolding thread_yield
thread_yield-IsValid k v x =
    let next = next_of k.idle_thread (requeued k) in
    let s = left thread_ready (requeued k) k.all_list k in
    let (freed, done, valid) =
      schedule-IsValid s
        (Leaves-IsStopped thread_ready (requeued k) k.all_list k (requeued-Leaves k v) v) in
    let cur = thread_current-IsValid k v in
    (
      freed,
      yield-tests (thread_current k) k.in_external_intr
          (λ c. schedule (
            set_status c thread_ready (record k {
              ready_list = if c == k.idle_thread then k.ready_list else k.ready_list ++ (c ∷ []);
              interrupts_on = false;
            })))
          k.running (switched next.0 next.1 freed s) cur x done,
      valid,
    )

block-tests {ℓ} :
    {A : Type ℓ} (a b : Bool) (o : Option ℕ) (f : ℕ → Option A) (cur : ℕ) (z : A)
    → a ≡ false
    → b ≡ false
    → o ≡ some cur
    → f cur ≡ some z
    → (if a
        then none
        else if b
        then none
        else elim o as (λ x. Option A) [ none ↦ none | some c ↦ f c ])
      ≡ some z
block-tests a b o f cur z x i e h = rw (x, i, e) h

exit-tests {ℓ} :
    {A : Type ℓ} (a : Bool) (o : Option A) (h : A → Option ℕ) (f : A → ℕ → Option A) (q : A)
    (cur : ℕ) (z : A)
    → a ≡ false
    → o ≡ some q
    → h q ≡ some cur
    → f q cur ≡ some z
    → (if a then none else elim o as (λ x. Option A) [
      | none ↦ none
      | some r ↦ elim (h r) as (λ x. Option A) [ none ↦ none | some c ↦ f r c ]
    ])
      ≡ some z
exit-tests a o h f q cur z x e g d = rw (x, e, g) d

-- `thread_block` with interrupts off, outside an interrupt.
pub thread_block-IsValid :
    (k : Kernel)
    → IsValid k
    → k.in_external_intr ≡ false
    → k.interrupts_on ≡ false
    → (s : Kernel) × (thread_block k ≡ some s) × IsValid s
unfolding thread_block
thread_block-IsValid k v x i =
    let stopped =
      subst (λ b. IsStopped (set_status k.running thread_blocked (record k { interrupts_on = b })))
        (sym i)
        (Leaves-IsStopped thread_blocked k.ready_list k.all_list k (blocked-Leaves k v) v) in
    let next = next_of k.idle_thread k.ready_list in
    let p = set_status k.running thread_blocked k in
    let (freed, done, valid) = schedule-IsValid p stopped in
    (
      switched next.0 next.1 freed p,
      block-tests k.in_external_intr k.interrupts_on (thread_current k)
          (λ c. schedule (set_status c thread_blocked k)) k.running (switched next.0 next.1 freed p)
          x i (thread_current-IsValid k v) done,
      valid,
    )

-- `thread_exit` outside an interrupt, of a thread other than the idle thread.
pub thread_exit-IsValid :
    (process_exit : Kernel → Option Kernel) (k q : Kernel)
    → k.in_external_intr ≡ false
    → process_exit k ≡ some q
    → IsValid q
    → q.running ≢ q.idle_thread
    → (s : Kernel) × (thread_exit process_exit k ≡ some s)
      × IsValid s
      × (count q.running s.all_list ≡ 0)
unfolding thread_exit
thread_exit-IsValid process_exit k q x e v n =
    let all_list = list_remove q.running q.all_list in
    let next = next_of q.idle_thread q.ready_list in
    let p = left thread_dying q.ready_list all_list q in
    let (freed, done, valid) =
      schedule-IsValid p
        (Leaves-IsStopped thread_dying q.ready_list all_list q (dying-Leaves q v n) v) in
    let gone = count-list_remove q.running q.running q.all_list (v.queue.once_live q.running) in
    (
      switched next.0 next.1 freed p,
      exit-tests k.in_external_intr (process_exit k) thread_current
          (λ r c. schedule (
            set_status c thread_dying
              (record r { interrupts_on = false; all_list = list_remove c r.all_list })))
          q q.running (switched next.0 next.1 freed p) x e (thread_current-IsValid q v) done,
      valid,
      ground arith,
    )
