-- ===== src/UserPrograms/Threads/Robin.antt =====
-- The round robin of user-programs/threads/thread.c.
use cs124_my_pintos.Common.{
  ℕ, zero, suc, ◌≡◌, ◌≢◌, refl, sym, ap, ◌∙◌, true, false, Option, none, some, List, [], ◌∷◌, ◌++◌,
  arith, ◌==◌, get_elem?, count, count-append_one,
}
use cs124_my_pintos.UserPrograms.Threads.{Kernel}
use cs124_my_pintos.UserPrograms.Threads.Switch.{thread_yield}
use cs124_my_pintos.UserPrograms.Threads.Valid.{IsValid, next_of}
use cs124_my_pintos.UserPrograms.Threads.Leave.{requeued, yielded, thread_yield-IsValid}

-- The threads on the CPU yield it `n` times in all.
unfoldable pub yields : (n : ℕ) → Kernel → Option Kernel
yields zero k = some k
yields (suc n) k = elim (thread_yield k) [ none ↦ none | some s ↦ yields n s ]

yields-suc :
    (n : ℕ) (k s : Kernel) (o : Option Kernel)
    → thread_yield k ≡ some s
    → yields n s ≡ o
    → yields (suc n) k ≡ o
unfolding yields
yields-suc n k s o e h = rw (yields, e) h

get_elem?-append :
    (xs : List ℕ) (y n t : ℕ) → get_elem? xs n ≡ some t → get_elem? (xs ++ (y ∷ [])) n ≡ some t
get_elem?-append [] y n t h = (let c : true ≡ false = cc in cc)
get_elem?-append (x ∷ xs) y zero t h = h
get_elem?-append (x ∷ xs) y (suc n) t h = get_elem?-append xs y n t h

-- A yield while another thread is ready.
yield-head :
    (x : ℕ) (rest : List ℕ) (k : Kernel)
    → IsValid k
    → k.in_external_intr ≡ false
    → k.running ≢ k.idle_thread
    → k.ready_list ≡ x ∷ rest
    → (s : Kernel) × (thread_yield k ≡ some s)
      × IsValid s
      × (s.running ≡ x)
      × (s.ready_list ≡ rest ++ (k.running ∷ []))
      × (s.idle_thread ≡ k.idle_thread)
      × (s.in_external_intr ≡ false)
yield-head x rest k v e n q =
    let (freed, done, valid) = thread_yield-IsValid k v e in
    let b : (k.running == k.idle_thread) ≡ false = ground arith in
    let r : requeued k ≡ x ∷ (rest ++ (k.running ∷ [])) = rw (b, q) refl in
    (
      yielded freed k,
      done,
      valid,
      ap (λ xs. (next_of k.idle_thread xs).0) r,
      ap (λ xs. (next_of k.idle_thread xs).1) r,
      refl,
      e,
    )

yields-from :
    (n : ℕ) (xs : List ℕ) (t : ℕ) (k : Kernel)
    → IsValid k
    → k.in_external_intr ≡ false
    → k.running ≢ k.idle_thread
    → count k.idle_thread k.ready_list ≡ 0
    → k.ready_list ≡ xs
    → get_elem? xs n ≡ some t
    → (s : Kernel) × (yields (suc n) k ≡ some s) × (s.running ≡ t)
unfolding yields count
yields-from n [] t k v e r i q g = (let c : true ≡ false = cc in cc)
yields-from zero (x ∷ rest) t k v e r i q g =
    let (s, done, valid, run, ready, idle, out) = yield-head x rest k v e r q in
    (s, yields-suc zero k s (some s) done refl, run ∙ (let c : x ≡ t = cc in c))
yields-from (suc n) (x ∷ rest) t k v e r i q g =
    let (s, done, valid, run, ready, idle, out) = yield-head x rest k v e r q in
    let z : count k.idle_thread (x ∷ rest) ≡ 0 = sym (ap (count k.idle_thread) q) ∙ i in
    let ne : s.running ≢ s.idle_thread =
      λ p. let same : k.idle_thread ≡ x = sym idle ∙ (sym p ∙ run) in ground arith in
    let none_idle : count s.idle_thread s.ready_list ≡ 0 =
      ap (λ u. count u s.ready_list) idle
      ∙ (ap (count k.idle_thread) ready
          ∙ (let a = count-append_one k.idle_thread rest k.running in ground arith)) in
    let (f, last, ran) =
      yields-from n (rest ++ (k.running ∷ [])) t s valid out ne none_idle ready
        (get_elem?-append rest k.running n t g) in
    (f, yields-suc (suc n) k s (some f) done last, ran)

-- On a valid state, outside an interrupt, with a thread other than the idle thread on the CPU and
-- the idle thread not in the ready list, the thread in place n of the ready list runs after n + 1
-- yields, whichever threads yield.
pub yields-running :
    (n t : ℕ) (k : Kernel)
    → IsValid k
    → k.in_external_intr ≡ false
    → k.running ≢ k.idle_thread
    → count k.idle_thread k.ready_list ≡ 0
    → get_elem? k.ready_list n ≡ some t
    → (s : Kernel) × (yields (suc n) k ≡ some s) × (s.running ≡ t)
yields-running n t k v e r i g = yields-from n k.ready_list t k v e r i refl g
