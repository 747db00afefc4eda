-- ===== src/PriorityScheduler/Thread/Donation.antt =====
-- Priority donation, `get_priority` of thread.c.
use cs124_my_pintos.Common.{
  ℕ, zero, suc, ◌+◌, ◌≤◌, ◌<◌, ◌≡◌, refl, subst, ap, ◌⊎◌, inl, inr, false, some, List, [], ◌∷◌,
  ◌++◌, arith, ◌==◌, ltb, if◌then◌else◌, Bool-cases, count, count-append,
}
use cs124_my_pintos.PriorityScheduler.Thread.{
  Kernel, push_waiters, push_locks, donors_loop, get_priority, pri_min,
}

-- The threads that wait for a lock of a list.
unfoldable pub waiting : (waiters : ℕ → List ℕ) → List ℕ → List ℕ
waiting waiters [] = []
waiting waiters (lock ∷ locks) = waiters lock ++ waiting waiters locks

unfoldable pub sum : (ℕ → ℕ) → List ℕ → ℕ
sum w [] = 0
sum w (x ∷ xs) = w x + sum w xs

-- `u` donates to `t`: it is `t`, or it donates to a thread that waits for a lock of `t`.
pub data Donates (k : Kernel) : ℕ → ℕ → Type 0 where
  itself : (t : ℕ) → Donates k t t
  waits :
      (t s u : ℕ)
      → 0 < count s (waiting k.waiters (k.threads t).held_locks)
      → Donates k s u
      → Donates k t u

sum-append : (w : ℕ → ℕ) (xs ys : List ℕ) → sum w (xs ++ ys) ≡ sum w xs + sum w ys
unfolding sum
sum-append w [] ys = omega arith
sum-append w (x ∷ xs) ys = omega (arith, sum-append w xs ys)

sum-push_waiters : (w : ℕ → ℕ) (xs ys : List ℕ) → sum w (push_waiters xs ys) ≡ sum w xs + sum w ys
unfolding sum push_waiters
sum-push_waiters w [] ys = omega arith
sum-push_waiters w (x ∷ xs) ys = omega (arith, sum-push_waiters w xs (x ∷ ys))

count-push_waiters :
    (y : ℕ) (xs ys : List ℕ) → count y (push_waiters xs ys) ≡ count y xs + count y ys
unfolding count push_waiters
count-push_waiters y [] ys = omega arith
count-push_waiters y (x ∷ xs) ys = omega (arith, count-push_waiters y xs (x ∷ ys))

sum-push_locks :
    (w : ℕ → ℕ) (waiters : ℕ → List ℕ) (ls ys : List ℕ)
    → sum w (push_locks waiters ls ys) ≡ sum w (waiting waiters ls) + sum w ys
unfolding sum push_locks waiting
sum-push_locks w waiters [] ys = omega arith
sum-push_locks w waiters (l ∷ ls) ys =
    let a = sum-push_locks w waiters ls (push_waiters (waiters l) ys) in
    let b = sum-push_waiters w (waiters l) ys in
    let c = sum-append w (waiters l) (waiting waiters ls) in omega arith

count-push_locks :
    (y : ℕ) (waiters : ℕ → List ℕ) (ls ys : List ℕ)
    → count y (push_locks waiters ls ys) ≡ count y (waiting waiters ls) + count y ys
unfolding count push_locks waiting
count-push_locks y waiters [] ys = omega arith
count-push_locks y waiters (l ∷ ls) ys =
    let a = count-push_locks y waiters ls (push_waiters (waiters l) ys) in
    let b = count-push_waiters y (waiters l) ys in
    let c = count-append y (waiters l) (waiting waiters ls) in omega arith

-- `weight t` bounds the rounds that `t` takes: it exists exactly when no thread waits, through
-- others, for itself.
unfoldable pub IsWeight : Kernel → (weight : ℕ → ℕ) → Type 0
IsWeight k weight = (t : ℕ) → sum weight (waiting k.waiters (k.threads t).held_locks) < weight t

module _ (k : Kernel) (weight : ℕ → ℕ) (is_weight : IsWeight k weight) where
  abbrev base : ℕ → ℕ
  base u = (k.threads u).base_priority

  abbrev Best : (donors : List ℕ) (acc p : ℕ) → Type 0
  Best donors acc p =
      (acc ≤ p)
      × ((t u : ℕ) → 0 < count t donors → Donates k t u → base u ≤ p)
      × ((p ≡ acc) ⊎ ((t : ℕ) × (u : ℕ) × (0 < count t donors) × Donates k t u × (p ≡ base u)))

  -- One round.
  Best-round :
      (t : ℕ) (donors : List ℕ) (acc p : ℕ)
      → Best
          (push_locks k.waiters (k.threads t).held_locks donors)
          (if ltb acc (base t) then base t else acc)
          p
      → Best (t ∷ donors) acc p
  unfolding count
  Best-round t donors acc p (least, above, from) = (ground arith, upper, attained from)
    where
      upper : (s u : ℕ) → 0 < count s (t ∷ donors) → Donates k s u → base u ≤ p
      upper s u m (itself _) = elim (Bool-cases (s == t)) [
        | inl b ↦
            let e : s ≡ t = ground arith in let f : base s ≡ base t = ap base e in ground arith
        | inr b ↦
            let c = count-push_locks s k.waiters (k.threads t).held_locks donors in
            above s s (ground arith) (itself s)
      ]
      upper s u m (waits _ r _ n d) = elim (Bool-cases (s == t)) [
        | inl b ↦
            let e : s ≡ t = ground arith in
            let n' : 0 < count r (waiting k.waiters (k.threads t).held_locks) =
              subst (λ s. 0 < count r (waiting k.waiters (k.threads s).held_locks)) e n in
            let c = count-push_locks r k.waiters (k.threads t).held_locks donors in
            above r u (omega arith) d
        | inr b ↦
            let c = count-push_locks s k.waiters (k.threads t).held_locks donors in
            above s u (ground arith) (waits s r u n d)
      ]

      attained :
          (p ≡ (if ltb acc (base t) then base t else acc))
            ⊎ ((s : ℕ) × (u : ℕ) × (0
                  < count s (push_locks k.waiters (k.threads t).held_locks donors))
                × Donates k s u
                × (p ≡ base u))
          → (p ≡ acc)
            ⊎ ((s : ℕ) × (u : ℕ) × (0 < count s (t ∷ donors)) × Donates k s u × (p ≡ base u))
      attained (inl e) = elim (Bool-cases (ltb acc (base t))) [
        | inl b ↦ inr (t, t, ground arith, itself t, ground arith)
        | inr b ↦ inl (ground arith)
      ]
      attained (inr (s, u, m, d, e)) =
          let c = count-push_locks s k.waiters (k.threads t).held_locks donors in
          elim (Bool-cases (ltb 0 (count s donors))) [
            | inl b ↦ inr (s, u, ground arith, d, e)
            | inr b ↦ inr (t, u, ground arith, waits t s u (ground arith) d, e)
          ]

  donors_loop-Best :
      (fuel : ℕ) (donors : List ℕ) (acc : ℕ)
      → sum weight donors < fuel
      → (p : ℕ) × (donors_loop k fuel donors acc ≡ some p) × Best donors acc p
  unfolding donors_loop sum count IsWeight
  donors_loop-Best zero donors acc h = absurd (omega arith)
  donors_loop-Best (suc fuel) [] acc h =
      (acc, refl, (omega arith, (λ t u m d. absurd (omega arith)), inl refl))
  donors_loop-Best (suc fuel) (t ∷ donors) acc h =
      let w = is_weight t in
      let s = sum-push_locks weight k.waiters (k.threads t).held_locks donors in
      let (p, e, best) =
        donors_loop-Best fuel (push_locks k.waiters (k.threads t).held_locks donors)
          (if ltb acc (base t) then base t else acc) (omega arith) in
      (p, e, Best-round t donors acc p best)

  -- Where a weight shows that no thread waits for itself, `get_priority` of the priority scheduler
  -- ends with fuel beyond the weight; its result is at least the base priority of every thread
  -- that donates through any number of locks, and is one of theirs or PRI_MIN.
  pub get_priority-IsDonated :
      (fuel t : ℕ)
      → k.thread_mlfqs ≡ false
      → weight t < fuel
      → (p : ℕ) × (get_priority fuel k t ≡ some p)
        × ((u : ℕ) → Donates k t u → (k.threads u).base_priority ≤ p)
        × ((p ≡ pri_min) ⊎ ((u : ℕ) × Donates k t u × (p ≡ (k.threads u).base_priority)))
  unfolding get_priority sum count
  get_priority-IsDonated fuel t mlfqs h =
      let (p, e, (least, above, from)) = donors_loop-Best fuel (t ∷ []) pri_min (omega arith) in
      (p, rw (get_priority, mlfqs) e, (λ u d. above t u (ground arith) d), attained p from)
    where
      attained :
          (p : ℕ)
          → (p ≡ pri_min)
            ⊎ ((s : ℕ) × (u : ℕ) × (0 < count s (t ∷ [])) × Donates k s u × (p ≡ base u))
          → (p ≡ pri_min) ⊎ ((u : ℕ) × Donates k t u × (p ≡ (k.threads u).base_priority))
      attained p (inl e) = inl e
      attained p (inr (s, u, m, d, e)) =
          let same : s ≡ t = ground arith in inr (u, subst (λ s. Donates k s u) same d, e)
