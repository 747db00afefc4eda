-- ===== src/PriorityScheduler/Thread/Tests.antt =====
-- Three threads: 1 holds the lock 10, for which 2 waits, which holds 20, for which 3 waits.
use cs124_my_pintos.Common.{
  ℕ, ◌+◌, ◌≤◌, ◌<◌, ◌≡◌, ◌⊎◌, inl, inr, refl, Bool, false, some, List, [], ◌∷◌, arith, ◌==◌,
  if◌then◌else◌, pos, ltb, ap, Bool-cases, count,
}
use cs124_my_pintos.PriorityScheduler.Thread.{
  ThreadStatus, thread_ready, thread_blocked, thread_dying, Thread, Kernel, get_priority, PopMax,
  pri_min,
}
use cs124_my_pintos.PriorityScheduler.Thread.Donation.{
  Donates, waiting, sum, IsWeight, get_priority-IsDonated,
}

abbrev sample_thread : (tid base_priority : ℕ) → ThreadStatus → List ℕ → Thread
sample_thread tid base_priority status held_locks = record {
  tid = tid;
  status = status;
  base_priority = base_priority;
  held_locks = held_locks;
  priority = 31;
  nice = pos 0;
  recent_cpu = pos 0;
  wakeup_ticks = pos 0;
}

abbrev sample_threads : ℕ → Thread
sample_threads t =
    if t == 1
    then sample_thread 1 10 thread_ready (10 ∷ [])
    else if t == 2
    then sample_thread 2 20 thread_blocked (20 ∷ [])
    else sample_thread t 40 thread_dying []

abbrev sample_waiters : ℕ → List ℕ
sample_waiters lock = if lock == 10 then 2 ∷ [] else if lock == 20 then 3 ∷ [] else []

abbrev sample : Kernel
sample = record {
  threads = sample_threads;
  waiters = sample_waiters;
  ready_list = 1 ∷ 5 ∷ [];
  all_list = 1 ∷ 2 ∷ 3 ∷ 5 ∷ [];
  idle_thread = 0;
  initial_thread = 9;
  running = 1;
  interrupts_on = false;
  in_external_intr = false;
  yield_on_return = false;
  thread_ticks = 3;
  next_tid = 6;
  load_avg = pos 0;
  thread_mlfqs = false;
  freed = [];
}

abbrev weights : ℕ → ℕ
weights t = if t == 1 then 3 else if t == 2 then 2 else 1

sample-IsWeight : IsWeight sample weights
unfolding IsWeight sum waiting
sample-IsWeight t = elim (Bool-cases (t == 1)) [
  | inl b ↦ rw b (omega arith)
  | inr b ↦ elim (Bool-cases (t == 2)) [
    | inl c ↦ rw (b, c) (omega arith)
    | inr c ↦ rw (b, c) (omega arith)
  ]
]

get_priority-IsDonated_example :
    (p : ℕ) × (get_priority 4 sample 1 ≡ some p)
    × ((u : ℕ) → Donates sample 1 u → (sample_threads u).base_priority ≤ p)
    × ((p ≡ pri_min) ⊎ ((u : ℕ) × Donates sample 1 u × (p ≡ (sample_threads u).base_priority)))
get_priority-IsDonated_example =
    get_priority-IsDonated sample weights sample-IsWeight 4 1 refl (omega arith)

-- A selection of the first that none is above.
abbrev pick : (less : ℕ → ℕ → Bool) → ℕ → List ℕ → ℕ × List ℕ
pick less x [] = (x, [])
pick less x (y ∷ ys) =
    if less x (pick less y ys).0 then ((pick less y ys).0, x ∷ (pick less y ys).1) else (x, y ∷ ys)

pick-removes :
    (less : ℕ → ℕ → Bool) (x : ℕ) (xs : List ℕ) (y : ℕ)
    → count y (x ∷ xs) ≡ (if y == (pick less x xs).0 then 1 else 0) + count y (pick less x xs).1
unfolding count
pick-removes less x [] y = refl
pick-removes less x (z ∷ zs) y =
    let r = pick-removes less z zs y in
    elim (Bool-cases (less x (pick less z zs).0)) [ inl b ↦ rw b (omega arith) | inr b ↦ rw b refl ]

pick-is_max :
    (less : ℕ → ℕ → Bool) (key : ℕ → ℕ)
    → ((a b : ℕ) → less a b ≡ ltb (key a) (key b))
    → (x : ℕ) (xs : List ℕ) (y : ℕ) → 0 < count y (x ∷ xs)
    → key y ≤ key (pick less x xs).0
unfolding count
pick-is_max less key h x [] y m =
    let e : y ≡ x = ground arith in let f : key y ≡ key x = ap key e in omega arith
pick-is_max less key h x (z ∷ zs) y m =
    let r = pick-is_max less key h z zs y in
    let l = h x (pick less z zs).0 in
    elim (Bool-cases (y == x)) [
      | inl e ↦
          let same : y ≡ x = ground arith in
          let f : key y ≡ key x = ap key same in
          elim (Bool-cases (less x (pick less z zs).0)) [
            | inl b ↦ rw b (ground arith)
            | inr b ↦ rw b (ground arith)
          ]
      | inr e ↦ elim (Bool-cases (less x (pick less z zs).0)) [
        | inl b ↦ rw b (ground arith)
        | inr b ↦ rw b (ground arith)
      ]
    ]

picked : PopMax
picked = record { list_pop_max = pick; removes = pick-removes; is_max = pick-is_max }
