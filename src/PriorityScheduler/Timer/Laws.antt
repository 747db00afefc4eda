-- ===== src/PriorityScheduler/Timer/Laws.antt =====
-- The threads that the timer wakes.
use cs124_my_pintos.Common.{
  ℕ, ◌≤◌, ◌<◌, ◌≡◌, refl, sym, subst, ◌∙◌, ap, inl, inr, true, false, some, List, [], ◌∷◌, ◌++◌,
  append_assoc, append-nil, arith, ◌==◌, Bool-cases, ℤ, pos, ltb_ℤ, ◌≤ℤ◌, count,
}
use cs124_my_pintos.PriorityScheduler.Thread.{
  thread_blocked, thread_ready, Thread, Kernel, set_thread, is_blocked, thread_unblock,
}
use cs124_my_pintos.PriorityScheduler.Timer.{Sorted, wake_loop}

-- The threads asleep are blocked, each once, in the order of their times to wake.
pub record IsAsleep (key : ℕ → ℤ) (k : Kernel) (asleep : List ℕ) : Type 0 where
  pub keys : (t : ℕ) → (k.threads t).wakeup_ticks ≡ key t
  pub blocked : (t : ℕ) → 0 < count t asleep → (k.threads t).status ≡ thread_blocked
  pub once : (t : ℕ) → count t asleep ≤ 1
  pub sorted : Sorted key asleep

abbrev pub woken_by : Kernel → ℕ → Kernel
woken_by k t =
    set_thread t (record (k.threads t) { status = thread_ready })
      (record k { ready_list = k.ready_list ++ (t ∷ []) })

wake_loop-next :
    (ticks t : ℕ) (ts : List ℕ) (k : Kernel) (r : List ℕ × Kernel)
    → ltb_ℤ (pos ticks) (k.threads t).wakeup_ticks ≡ false
    → (k.threads t).status ≡ thread_blocked
    → wake_loop ticks ts (woken_by k t) ≡ some r
    → wake_loop ticks (t ∷ ts) k ≡ some r
unfolding wake_loop thread_unblock
wake_loop-next ticks t ts k r late e q =
    let b : is_blocked (k.threads t).status ≡ true = ap is_blocked e in rw (late, b) q

next-IsAsleep :
    (key : ℕ → ℤ) (k : Kernel) (t : ℕ) (ts : List ℕ)
    → IsAsleep key k (t ∷ ts)
    → IsAsleep key (woken_by k t) ts
unfolding count Sorted
next-IsAsleep key k t ts v =
    let o = v.once t in
    let z : count t ts ≡ 0 = ground arith in
    record {
      keys = λ u. elim (Bool-cases (u == t)) [
        | inl b ↦ let e : t ≡ u = ground arith in rw b (v.keys t ∙ ap key e)
        | inr b ↦ rw b (v.keys u)
      ];
      blocked = λ u h. elim (Bool-cases (u == t)) [
        | inl b ↦
            let e : u ≡ t = ground arith in
            let c : count u ts ≡ count t ts = ap (λ x. count x ts) e in absurd (omega arith)
        | inr b ↦ rw b (v.blocked u (ground arith))
      ];
      once = λ u. let p = v.once u in omega arith;
      sorted = v.sorted.1;
    }

-- What the loop does: `woken` are the first of the list, and `rest` is what is left.
pub record Woke (ticks : ℕ) (key : ℕ → ℤ) (k : Kernel) (asleep rest woken : List ℕ) (l : Kernel)
    : Type 0 where
  pub parts : asleep ≡ woken ++ rest
  pub due : (t : ℕ) → 0 < count t woken → key t ≤ℤ pos ticks
  pub not_due : (t : ℕ) → 0 < count t rest → ltb_ℤ (pos ticks) (key t) ≡ true
  pub made_ready : l.ready_list ≡ k.ready_list ++ woken
  pub are_ready : (t : ℕ) → 0 < count t woken → (l.threads t).status ≡ thread_ready
  pub others : (t : ℕ) → count t woken ≡ 0 → l.threads t ≡ k.threads t
  pub still_asleep : IsAsleep key l rest

-- When the sleeping threads are blocked, distinct and in the order of their times, the loop of
-- `timer_interrupt` fails no assertion and unblocks exactly the threads that are due: they are
-- then ready, and in order at the end of the ready list, no other thread is changed, and the
-- others stay asleep in order.
pub wake_loop-Woke :
    (ticks : ℕ) (key : ℕ → ℤ) (asleep : List ℕ) (k : Kernel)
    → IsAsleep key k asleep
    → (rest woken : List ℕ) × (l : Kernel) × (wake_loop ticks asleep k ≡ some (rest, l))
      × Woke ticks key k asleep rest woken l
unfolding wake_loop count Sorted
wake_loop-Woke ticks key [] k v = (
  [],
  [],
  k,
  refl,
  record {
    parts = refl;
    due = λ t h. absurd (omega arith);
    not_due = λ t h. absurd (omega arith);
    made_ready = sym (append-nil k.ready_list);
    are_ready = λ t h. absurd (omega arith);
    others = λ t h. refl;
    still_asleep = v;
  },
)
wake_loop-Woke ticks key (t ∷ ts) k v =
    let same = v.keys t in
    elim (Bool-cases (ltb_ℤ (pos ticks) (key t))) [
      | inl b ↦ (
        t ∷ ts,
        [],
        k,
        rw (wake_loop, same, b) refl,
        record {
          parts = refl;
          due = λ t h. absurd (omega arith);
          not_due = λ u h. elim (Bool-cases (u == t)) [
            | inl c ↦
                let e : t ≡ u = ground arith in subst (λ x. ltb_ℤ (pos ticks) (key x) ≡ true) e b
            | inr c ↦ let le = v.sorted.0 u (ground arith) in ground arith
          ];
          made_ready = sym (append-nil k.ready_list);
          are_ready = λ u h. absurd (omega arith);
          others = λ u h. refl;
          still_asleep = v;
        },
      )
      | inr b ↦
          let e = (v.blocked t (let c : (t == t) ≡ true = ground arith in rw c (omega arith))) in
          let (rest, woken, l, q, w) =
            wake_loop-Woke ticks key ts (woken_by k t) (next-IsAsleep key k t ts v) in
          (
            rest,
            t ∷ woken,
            l,
            wake_loop-next ticks t ts k (rest, l) (rw same b) e q,
            record {
              parts = ap (λ xs. t ∷ xs) w.parts;
              due = λ u h. elim (Bool-cases (u == t)) [
                | inl c ↦
                    let e : t ≡ u = ground arith in
                    let le : key t ≤ℤ pos ticks = ground arith in
                    subst (λ x. key x ≤ℤ pos ticks) e le
                | inr c ↦ w.due u (ground arith)
              ];
              not_due = w.not_due;
              made_ready = w.made_ready ∙ append_assoc k.ready_list (t ∷ []) woken;
              are_ready = λ u h. elim (Bool-cases (count u woken == 0)) [
                | inl c ↦
                    let z : count u woken ≡ 0 = ground arith in
                    let b : (u == t) ≡ true = ground arith in
                    ap (λ (x : Thread). x.status) (w.others u z) ∙ rw b refl
                | inr c ↦ w.are_ready u (ground arith)
              ];
              others = λ u h.
                  let b : (u == t) ≡ false = ground arith in w.others u (ground arith) ∙ rw b refl;
              still_asleep = w.still_asleep;
            },
          )
    ]
