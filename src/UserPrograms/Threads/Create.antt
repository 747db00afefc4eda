-- ===== src/UserPrograms/Threads/Create.antt =====
-- `thread_create` of user-programs/threads/thread.c.
use cs124_my_pintos.Common.{
  ℕ, ◌+◌, ◌-◌, ◌%◌, ◌≤◌, ◌<◌, ◌≡◌, ◌≢◌, refl, sym, ap, ◌∙◌, subst, ◌⊎◌, Bool, true, false, not,
  ◌&&◌, Option, none, some, [], ◌∷◌, ◌++◌, arith, ◌==◌, leb, if◌then◌else◌, count, count-append_one,
}
use cs124_my_pintos.UserPrograms.Threads.{
  thread_magic, pri_max, thread_running, thread_ready, thread_blocked, Thread, Kernel, set_thread,
  is_thread, init_thread, alloc_frame, allocate_tid, thread_unblock, thread_create,
}
use cs124_my_pintos.UserPrograms.Threads.Valid.{IsValid}
use cs124_my_pintos.UserPrograms.Threads.Leave.{with_flags-IsValid}
use cs124_my_pintos.UserPrograms.Threads.Unblock.{
  IsWaiting, by_thread, set_thread_self, set_thread_ne, set_thread-IsValid, thread_unblock-IsValid,
}

-- A change of fields that keeps a waiting thread waiting.
set_thread-IsWaiting :
    (t : ℕ) (x : Thread) (k : Kernel)
    → IsWaiting t k
    → x.status ≡ (k.threads t).status
    → x.magic ≡ (k.threads t).magic
    → IsWaiting t (set_thread t x k)
set_thread-IsWaiting t x k w s m = record {
  valid = set_thread-IsValid t x k w.valid s m;
  live = w.live;
  blocked = ap (λ y. y.status) (set_thread_self t x k) ∙ (s ∙ w.blocked);
}

alloc_frame-IsWaiting :
    (t size : ℕ) (k : Kernel)
    → IsWaiting t k
    → size % 4 ≡ 0
    → (s : Kernel) × (alloc_frame t size k ≡ some s)
      × IsWaiting t s
      × (s.ready_list ≡ k.ready_list)
      × (s.all_list ≡ k.all_list)
unfolding alloc_frame
alloc_frame-IsWaiting t size k w e =
    let is = w.valid.queue.is_thread t w.live in
    let f : (size % 4 == 0) ≡ true = ground arith in
    let x : Thread = record (k.threads t) { stack = (k.threads t).stack - size } in
    (
      set_thread t x k,
      rw (alloc_frame, is, f) refl,
      set_thread-IsWaiting t x k w refl refl,
      refl,
      refl,
    )

-- A new thread: not NULL, and in no list.
init_thread-IsWaiting :
    (t priority : ℕ) (k : Kernel)
    → IsValid k
    → t ≢ 0
    → priority ≤ pri_max
    → count t k.all_list ≡ 0
    → (s : Kernel) × (init_thread t priority k ≡ some s)
      × IsWaiting t s
      × (s.ready_list ≡ k.ready_list)
      × (s.all_list ≡ k.all_list ++ (t ∷ []))
      × (s.next_tid ≡ k.next_tid)
unfolding init_thread
init_thread-IsWaiting t priority k v n p z =
    let q = v.queue in
    let x : Thread = record {
      tid = 0;
      status = thread_blocked;
      stack = t + 4096;
      priority = priority;
      pagedir = none;
      children_init = false;
      magic = thread_magic;
      function = 0;
      aux = 0;
    } in
    let start : Kernel = record k { all_list = k.all_list ++ (t ∷ []) } in
    let s = set_thread t x start in
    let self = set_thread_self t x start in
    let other = set_thread_ne t x start in
    let added = λ (u : ℕ). count-append_one u k.all_list t in
    let more : (u : ℕ) → 0 < count u k.all_list → 0 < count u start.all_list =
      λ u h. let a = added u in ground arith in
    let unqueued : 0 < count t k.ready_list → ⊥ = λ h. let l = q.live t h in omega arith in
    let ne : k.running ≢ t = λ e.
      let r : 0 < count t k.all_list = subst (λ u. 0 < count u k.all_list) e v.running_live in
      omega arith in
    let a : (t == 0) ≡ false = ground arith in
    let b : leb priority pri_max ≡ true = ground arith in
    (
      s,
      rw (init_thread, a, b) refl,
      record {
        valid = record {
          queue = record {
            once = q.once;
            queued =
                by_thread (λ u. 0 < count u k.ready_list → (s.threads u).status ≡ thread_ready) t
                  (λ h. absurd (unqueued h))
                  (λ u n h. ap (λ y. y.status) (other u n) ∙ q.queued u h);
            live = λ u h. more u (q.live u h);
            ready =
                by_thread
                  (λ u.
                    0 < count u start.all_list
                    → (s.threads u).status ≡ thread_ready
                    → (0 < count u k.ready_list) ⊎ (u ≡ k.idle_thread))
                  t
                  (λ h e.
                    let c : thread_blocked ≡ thread_ready = sym (ap (λ y. y.status) self) ∙ e in cc)
                  (λ u n h e.
                    q.ready u (let a = added u in ground arith)
                      (sym (ap (λ y. y.status) (other u n)) ∙ e));
            once_live =
                by_thread (λ u. count u start.all_list ≤ 1) t (let a = added t in ground arith)
                  (λ u n. let a = added u in let o = q.once_live u in ground arith);
            idle_live = more k.idle_thread q.idle_live;
            is_thread =
                by_thread (λ u. 0 < count u start.all_list → is_thread u s ≡ true) t
                  (λ h.
                    ap (λ y. not (t == 0) && (y.magic == thread_magic)) self
                    ∙ ap (λ b. not b && (thread_magic == thread_magic)) a)
                  (λ u n h.
                    ap (λ y. not (u == 0) && (y.magic == thread_magic)) (other u n)
                    ∙ q.is_thread u (let a = added u in ground arith));
          };
          running = ap (λ y. y.status) (other k.running ne) ∙ v.running;
          running_live = more k.running v.running_live;
          only =
              by_thread
                (λ u.
                  0 < count u start.all_list
                  → (s.threads u).status ≡ thread_running
                  → u ≡ k.running)
                t
                (λ h e.
                  let c : thread_blocked ≡ thread_running = sym (ap (λ y. y.status) self) ∙ e in cc)
                (λ u n h e.
                  v.only u (let a = added u in ground arith)
                    (sym (ap (λ y. y.status) (other u n)) ∙ e));
        };
        live = (let a = added t in ground arith);
        blocked = ap (λ y. y.status) self;
      },
      refl,
      refl,
      refl,
    )

next_tid-IsWaiting :
    (t next_tid : ℕ) (k : Kernel) → IsWaiting t k → IsWaiting t (record k { next_tid = next_tid })
next_tid-IsWaiting t next_tid k w = record {
  valid =
      with_flags-IsValid k.interrupts_on k.in_external_intr k.yield_on_return k.idle_ticks
        k.kernel_ticks k.user_ticks k.thread_ticks next_tid k w.valid;
  live = w.live;
  blocked = w.blocked;
}

-- The chain of `thread_create`, each step of which succeeds.
created-steps {ℓ} :
    {A : Type ℓ} (b : Bool) (o : Option A) (first entry switch last : A → Option A) (tid : A → ℕ)
    (v w x y z : A) (n : ℕ)
    → b ≡ false
    → o ≡ some v
    → first v ≡ some w
    → entry w ≡ some x
    → switch x ≡ some y
    → last y ≡ some z
    → tid v ≡ n
    → (if b then none else elim o as (λ x. Option (Option ℕ × A)) [
      | none ↦ none
      | some v ↦ elim (first v) as (λ x. Option (Option ℕ × A)) [
        | none ↦ none
        | some w ↦ elim (entry w) as (λ x. Option (Option ℕ × A)) [
          | none ↦ none
          | some x ↦ elim (switch x) as (λ x. Option (Option ℕ × A)) [
            | none ↦ none
            | some y ↦ elim (last y) as (λ x. Option (Option ℕ × A)) [
              | none ↦ none
              | some z ↦ some (some (tid v), z)
            ]
          ]
        ]
      ]
    ])
      ≡ some (some n, z)
created-steps b o first entry switch last tid v w x y z n p q r s t u e =
    rw (p, q, r, s, t, u, e) refl

-- On a valid state, `thread_create` with a function, a priority up to PRI_MAX, frames of whole
-- words and a page that no live thread has returns the next identifier; the thread is ready at the
-- end of the ready list and in the list of all threads, and the state is valid.
pub thread_create-IsValid :
    (entry_size switch_size t priority function aux : ℕ) (k : Kernel)
    → IsValid k
    → entry_size % 4 ≡ 0
    → switch_size % 4 ≡ 0
    → t ≢ 0
    → count t k.all_list ≡ 0
    → priority ≤ pri_max
    → function ≢ 0
    → (s : Kernel) × (thread_create entry_size switch_size (some t) priority function aux k
        ≡ some (some k.next_tid, s))
      × IsValid s
      × (s.ready_list ≡ k.ready_list ++ (t ∷ []))
      × (s.all_list ≡ k.all_list ++ (t ∷ []))
      × ((s.threads t).status ≡ thread_ready)
unfolding thread_create allocate_tid
thread_create-IsValid es ss t priority function aux k v he hs n z p fn =
    let nf : (function == 0) ≡ false = ground arith in
    let (a, init, aw, ar, aa, at) = init_thread-IsWaiting t priority k v n p z in
    let b : Kernel = record a { next_tid = a.next_tid + 1 } in
    let bw = next_tid-IsWaiting t (a.next_tid + 1) a aw in
    let c = set_thread t (record (b.threads t) { tid = a.next_tid }) b in
    let cw = set_thread-IsWaiting t (record (b.threads t) { tid = a.next_tid }) b bw refl refl in
    let (d, first, dw, dr, da) = alloc_frame-IsWaiting t 12 c cw refl in
    let x : Thread = record (d.threads t) { function = function; aux = aux } in
    let e = set_thread t x d in
    let ew = set_thread-IsWaiting t x d dw refl refl in
    let (f, entry, fw, fr, fa) = alloc_frame-IsWaiting t es e ew he in
    let (g, switch, gw, gr, ga) = alloc_frame-IsWaiting t ss f fw hs in
    let (s, done, valid, status, sr, sa) = thread_unblock-IsValid t g gw in
    let queue = gr ∙ (fr ∙ (dr ∙ ar)) in
    (
      s,
      created-steps (function == 0) (init_thread t priority k)
          (λ r. alloc_frame t 12 (
            set_thread t (record (r.threads t) { tid = r.next_tid })
              (record r { next_tid = r.next_tid + 1 })))
          (λ r.
            alloc_frame t es
              (set_thread t (record (r.threads t) { function = function; aux = aux }) r))
          (alloc_frame t ss) (thread_unblock t) (λ r. r.next_tid) a d f g s k.next_tid nf init first
          entry switch done at,
      valid,
      sr ∙ ap (λ xs. xs ++ (t ∷ [])) queue,
      sa ∙ (ga ∙ (fa ∙ (da ∙ aa))),
      status,
    )
