-- ===== src/UserPrograms/Threads/Unblock.antt =====
-- `thread_unblock` of user-programs/threads/thread.c.
use cs124_my_pintos.Common.{
  ℕ, ◌≤◌, ◌<◌, ◌≡◌, ◌≢◌, refl, sym, ap, ◌∙◌, subst, ◌⊎◌, inl, inr, true, false, not, ◌&&◌, some, [],
  ◌∷◌, ◌++◌, arith, ◌==◌, Bool-cases, count, count-append_one,
}
use cs124_my_pintos.UserPrograms.Threads.{
  thread_magic, thread_running, thread_ready, thread_blocked, Thread, Kernel, set_thread,
  set_status, thread_unblock,
}
use cs124_my_pintos.UserPrograms.Threads.Valid.{
  IsValid, status-set_status_self, status-set_status_ne, is_thread-set_status,
}

-- A thread that can be unblocked.
pub record IsWaiting (t : ℕ) (k : Kernel) : Type 0 where
  pub valid : IsValid k
  pub live : 0 < count t k.all_list
  pub blocked : (k.threads t).status ≡ thread_blocked

-- One thread or another one.
pub by_thread {ℓ} : (P : ℕ → Type ℓ) (t : ℕ) → P t → ((u : ℕ) → u ≢ t → P u) → (u : ℕ) → P u
by_thread P t here other u = elim (Bool-cases (u == t)) [
  | inl b ↦ let p : t ≡ u = ground arith in subst P p here
  | inr b ↦ other u (ground arith)
]

pub set_thread_self : (t : ℕ) (x : Thread) (k : Kernel) → (set_thread t x k).threads t ≡ x
set_thread_self t x k = let e : (t == t) ≡ true = ground arith in rw e refl

pub set_thread_ne :
    (t : ℕ) (x : Thread) (k : Kernel) (u : ℕ) → u ≢ t → (set_thread t x k).threads u ≡ k.threads u
set_thread_ne t x k u n = let e : (u == t) ≡ false = ground arith in rw e refl

-- A change of the fields of a thread that the scheduler does not read.
pub set_thread-IsValid :
    (t : ℕ) (x : Thread) (k : Kernel)
    → IsValid k
    → x.status ≡ (k.threads t).status
    → x.magic ≡ (k.threads t).magic
    → IsValid (set_thread t x k)
set_thread-IsValid t x k v s m =
    let q = v.queue in
    let status : (u : ℕ) → ((set_thread t x k).threads u).status ≡ (k.threads u).status =
      by_thread (λ u. ((set_thread t x k).threads u).status ≡ (k.threads u).status) t
        (ap (λ y. y.status) (set_thread_self t x k) ∙ s)
        (λ u n. ap (λ y. y.status) (set_thread_ne t x k u n)) in
    let magic : (u : ℕ) → ((set_thread t x k).threads u).magic ≡ (k.threads u).magic =
      by_thread (λ u. ((set_thread t x k).threads u).magic ≡ (k.threads u).magic) t
        (ap (λ y. y.magic) (set_thread_self t x k) ∙ m)
        (λ u n. ap (λ y. y.magic) (set_thread_ne t x k u n)) in
    record {
      queue = record {
        once = q.once;
        queued = λ u h. status u ∙ q.queued u h;
        live = q.live;
        ready = λ u h e. q.ready u h (sym (status u) ∙ e);
        once_live = q.once_live;
        idle_live = q.idle_live;
        is_thread =
            λ u h. ap (λ y. not (u == 0) && (y == thread_magic)) (magic u) ∙ q.is_thread u h;
      };
      running = status k.running ∙ v.running;
      running_live = v.running_live;
      only = λ u h e. v.only u h (sym (status u) ∙ e);
    }

waiting-count : (t : ℕ) (k : Kernel) → IsWaiting t k → count t k.ready_list ≡ 0
waiting-count t k w = elim (Bool-cases (count t k.ready_list == 0)) [
  | inl b ↦ ground arith
  | inr b ↦
      let r = w.valid.queue.queued t (ground arith) in
      let c : thread_ready ≡ thread_blocked = sym r ∙ w.blocked in cc
]

pub thread_unblock-IsValid :
    (t : ℕ) (k : Kernel)
    → IsWaiting t k
    → (s : Kernel) × (thread_unblock t k ≡ some s)
      × IsValid s
      × ((s.threads t).status ≡ thread_ready)
      × (s.ready_list ≡ k.ready_list ++ (t ∷ []))
      × (s.all_list ≡ k.all_list)
unfolding thread_unblock
thread_unblock-IsValid t k w =
    let q = w.valid.queue in
    let v = w.valid in
    let start : Kernel = record k { ready_list = k.ready_list ++ (t ∷ []) } in
    let s = set_status t thread_ready start in
    let z = waiting-count t k w in
    let added = λ (u : ℕ). count-append_one u k.ready_list t in
    let self = status-set_status_self t thread_ready start in
    let other = status-set_status_ne t thread_ready start in
    let ne : k.running ≢ t = λ p.
      let c : thread_running ≡ thread_blocked =
        sym v.running ∙ subst (λ u. (k.threads u).status ≡ thread_blocked) (sym p) w.blocked in
      cc in
    let is = q.is_thread t w.live in
    let b = w.blocked in
    (
      s,
      rw (thread_unblock, is, b) refl,
      record {
        queue = record {
          once =
              by_thread (λ u. count u s.ready_list ≤ 1) t (let a = added t in ground arith)
                (λ u n. let a = added u in let o = q.once u in ground arith);
          queued =
              by_thread (λ u. 0 < count u s.ready_list → (s.threads u).status ≡ thread_ready) t
                (λ h. self) (λ u n h. other u n ∙ q.queued u (let a = added u in ground arith));
          live =
              by_thread (λ u. 0 < count u s.ready_list → 0 < count u k.all_list) t (λ h. w.live)
                (λ u n h. q.live u (let a = added u in ground arith));
          ready =
              by_thread
                (λ u.
                  0 < count u k.all_list
                  → (s.threads u).status ≡ thread_ready
                  → (0 < count u s.ready_list) ⊎ (u ≡ k.idle_thread))
                t (λ h e. inl (let a = added t in ground arith))
                (λ u n h e. elim (q.ready u h (sym (other u n) ∙ e)) [
                  | inl c ↦ inl (let a = added u in ground arith)
                  | inr c ↦ inr c
                ]);
          once_live = q.once_live;
          idle_live = q.idle_live;
          is_thread = λ u h. is_thread-set_status t thread_ready start u ∙ q.is_thread u h;
        };
        running = other k.running ne ∙ v.running;
        running_live = v.running_live;
        only =
            by_thread
              (λ u. 0 < count u k.all_list → (s.threads u).status ≡ thread_running → u ≡ k.running)
              t (λ h e. (let c : thread_ready ≡ thread_running = sym self ∙ e in cc))
              (λ u n h e. v.only u h (sym (other u n) ∙ e));
      },
      self,
      refl,
      refl,
    )
