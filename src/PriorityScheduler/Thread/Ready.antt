-- ===== src/PriorityScheduler/Thread/Ready.antt =====
-- The switch to the next thread.
use cs124_my_pintos.Common.{
  ℕ, ◌≡◌, ◌≢◌, refl, ap, inl, inr, false, not, ◌&&◌, Option, none, some, ◌∷◌, arith, ◌==◌,
  Bool-cases,
}
use cs124_my_pintos.PriorityScheduler.Thread.{
  thread_running, Kernel, thread_schedule_tail, is_dying, set_status,
}

module _ (k : Kernel) where
  abbrev pub IsStarted : (next : ℕ) → Kernel → Type 0
  IsStarted next s =
      (s.running ≡ next) × ((s.threads next).status ≡ thread_running) × (s.thread_ticks ≡ 0)

  -- With interrupts off and a thread before that is not the one on the CPU, `thread_schedule_tail`
  -- succeeds, marks the thread on the CPU as running and starts its time slice.
  pub thread_schedule_tail-starts :
      (prev : Option ℕ)
      → k.interrupts_on ≡ false
      → prev ≢ some k.running
      → (s : Kernel) × (thread_schedule_tail prev k ≡ some s) × IsStarted k.running s
  unfolding thread_schedule_tail
  thread_schedule_tail-starts none i n = (started, rw (thread_schedule_tail, i) refl, is_started)
    where
      started : Kernel
      started = record (set_status k.running thread_running k) { thread_ticks = 0 }

      is_started : IsStarted k.running started
      is_started = (refl, ground arith, refl)
  thread_schedule_tail-starts (some p) i n =
      elim (Bool-cases (is_dying (started.threads p).status && not (p == k.initial_thread))) [
        | inr b ↦ (started, rw (thread_schedule_tail, i, b) refl, is_started)
        | inl b ↦
            let c : (p == k.running) ≡ false = elim (Bool-cases (p == k.running)) [
              | inr e ↦ e
              | inl e ↦ let same : p ≡ k.running = ground arith in absurd (n (ap some same))
            ] in
            (
              record started { freed = p ∷ k.freed },
              rw (thread_schedule_tail, i, b, c) refl,
              is_started,
            )
      ]
    where
      started : Kernel
      started = record (set_status k.running thread_running k) { thread_ticks = 0 }

      is_started : IsStarted k.running started
      is_started = (refl, ground arith, refl)
