-- ===== src/VirtualMemory/Frame/Clock.antt =====
-- The walk of `frame_clock` over the frame table of vm/frame.c.
use cs124_my_pintos.Common.{
  ℕ, zero, suc, ◌+◌, ◌/◌, ◌%◌, ◌^◌, ◌≤◌, ◌<◌, ◌≡◌, refl, ap, ◌∙◌, inl, inr, false, Option, none,
  some, List, [], ◌∷◌, arith, length, get_elem?, All, Bool-cases, Option-cases,
}
use cs124_my_pintos.VirtualMemory.Pagedir.{
  Pte, Memory, pagedir_is_accessed, pagedir_set_accessed, pagedir_get_page,
}
use cs124_my_pintos.VirtualMemory.Pagedir.Fields.{
  entered, entered-directories, entered_self, entered-cases, entered-field, pagedir_get_page-same,
}
use cs124_my_pintos.VirtualMemory.Frame.{Frame, clock_loop, frame_clock}

abbrev pub IsOwned : Frame → Type 0
IsOwned f = (pd : ℕ) × (f.pd ≡ some pd)

-- The second memory differs from the first in access bits only, and none is set that was not.
record Clears (m n : Memory) : Type 0 where
  directories : (d i : ℕ) → n.directories d i ≡ m.directories d i
  page : (t j : ℕ) → (n.tables t j).page ≡ (m.tables t j).page
  present : (t j : ℕ) → (n.tables t j).present ≡ (m.tables t j).present
  accessed : (t j : ℕ) → (m.tables t j).accessed ≡ false → (n.tables t j).accessed ≡ false

Clears-self : (m : Memory) → Clears m m
Clears-self m = record {
  directories = λ d i. refl;
  page = λ t j. refl;
  present = λ t j. refl;
  accessed = λ t j h. h;
}

Clears-trans : {k m n : Memory} → Clears k m → Clears m n → Clears k n
Clears-trans a b = record {
  directories = λ d i. b.directories d i ∙ a.directories d i;
  page = λ t j. b.page t j ∙ a.page t j;
  present = λ t j. b.present t j ∙ a.present t j;
  accessed = λ t j h. b.accessed t j (a.accessed t j h);
}

pagedir_is_accessed-Clears :
    (pd u : ℕ) {m n : Memory}
    → Clears m n
    → pagedir_is_accessed pd u m ≡ false
    → pagedir_is_accessed pd u n ≡ false
unfolding pagedir_is_accessed
pagedir_is_accessed-Clears pd u {m} {n} c h = elim (Option-cases (m.directories pd (u / 2 ^ 22))) [
  | inl e ↦ rw (pagedir_is_accessed, c.directories, e) refl
  | inr (pt, e) ↦
      let g = rw (pagedir_is_accessed, e) at h in
      rw (pagedir_is_accessed, c.directories, e) (c.accessed pt (u / 2 ^ 12 % 2 ^ 10) g)
]

-- The entry of a page with its access bit cleared, and the memory that has it.
abbrev cleared_pte : (pt i : ℕ) → Memory → Pte
cleared_pte pt i m = record (m.tables pt i) { accessed = false }

abbrev cleared : (pd pt i : ℕ) → Memory → Memory
cleared pd pt i m = entered pd pt i (cleared_pte pt i m) m

cleared-Clears : (pd pt i : ℕ) (m : Memory) → Clears m (cleared pd pt i m)
cleared-Clears pd pt i m = record {
  directories = entered-directories pd pt i (cleared_pte pt i m) m;
  page = λ t j. entered-field (λ e. e.page) pd pt i t j (cleared_pte pt i m) m refl;
  present = λ t j. entered-field (λ e. e.present) pd pt i t j (cleared_pte pt i m) m refl;
  accessed = λ t j h. elim (entered-cases pd pt i t j (cleared_pte pt i m) m) [
    | inl (a, b, e) ↦ ap (λ p. p.accessed) e
    | inr e ↦ ap (λ p. p.accessed) e ∙ h
  ];
}

pagedir_set_accessed-Clears :
    (pd u : ℕ) (m : Memory)
    → Clears m (pagedir_set_accessed pd u false m)
      × (pagedir_is_accessed pd u (pagedir_set_accessed pd u false m) ≡ false)
unfolding pagedir_set_accessed pagedir_is_accessed
pagedir_set_accessed-Clears pd u m = elim (Option-cases (m.directories pd (u / 2 ^ 22))) [
  | inl e ↦
      let same : pagedir_set_accessed pd u false m ≡ m = rw (pagedir_set_accessed, e) refl in
      rw same (Clears-self m, rw (pagedir_is_accessed, e) refl)
  | inr (pt, e) ↦
      let i = u / 2 ^ 12 % 2 ^ 10 in
      let done : pagedir_set_accessed pd u false m ≡ cleared pd pt i m =
        rw (pagedir_set_accessed, e) refl in
      let c = cleared-Clears pd pt i m in
      let here = entered_self pd pt i (cleared_pte pt i m) m in
      rw done (c, rw (pagedir_is_accessed, c.directories, e) (ap (λ p. p.accessed) here))
]

-- The frames `fs` from the place `at` up to the place `k` have no access bit set.
abbrev pub IsUnaccessed : (at k : ℕ) → List Frame → Memory → Type 0
IsUnaccessed at k fs m =
    (j pd : ℕ) (f : Frame)
    → at + j ≤ k
    → get_elem? fs j ≡ some f
    → f.pd ≡ some pd
    → pagedir_is_accessed pd f.upage m ≡ false

-- How the loop ends on a table with a frame at the place `at`.
Clocked : (at : ℕ) (fs : List Frame) (m : Memory) → Option (Option ℕ × Memory) → Type 0
Clocked at fs m r =
    (k : ℕ) × (n : Memory) × (r ≡ some (some k, n))
    × (at ≤ k)
    × (k < at + length fs)
    × Clears m n
    × IsUnaccessed at k fs n

IsUnaccessed-cons :
    (f : Frame) (fs : List Frame) (at k pd : ℕ) (m : Memory)
    → f.pd ≡ some pd
    → pagedir_is_accessed pd f.upage m ≡ false
    → IsUnaccessed (suc at) k fs m
    → IsUnaccessed at k (f ∷ fs) m
IsUnaccessed-cons f fs at k pd m o b rest zero q g l e p =
    let same : f ≡ g = cc in
    let own : q ≡ pd = (let n : f.pd ≡ some q = rw same p in cc) in rw (own, ← same) b
IsUnaccessed-cons f fs at k pd m o b rest (suc j) q g l e p = rest j q g (omega arith) e p

-- The loop stops at a frame whose access bit is clear.
Clocked-stop :
    (f : Frame) (fs : List Frame) (at pd : ℕ) (before : Option ℕ) (m : Memory)
    → f.pd ≡ some pd
    → pagedir_is_accessed pd f.upage m ≡ false
    → Clocked at (f ∷ fs) m (clock_loop (f ∷ fs) at before m)
unfolding clock_loop Clocked
Clocked-stop f fs at pd before m o b = (
  at,
  m,
  rw (clock_loop, o, b) refl,
  omega arith,
  omega arith,
  Clears-self m,
  IsUnaccessed-cons f fs at at pd m o b (λ j q g l e p. absurd (omega arith)),
)

clock_loop-Clocked :
    (f : Frame) (fs : List Frame) (at : ℕ) (before : Option ℕ) (m : Memory)
    → All IsOwned (f ∷ fs)
    → Clocked at (f ∷ fs) m (clock_loop (f ∷ fs) at before m)
unfolding clock_loop Clocked
clock_loop-Clocked f [] at before m ((pd, o), os) =
    elim (Bool-cases (pagedir_is_accessed pd f.upage m)) [
      | inr b ↦ Clocked-stop f [] at pd before m o b
      | inl b ↦
          let (c, here) = pagedir_set_accessed-Clears pd f.upage m in
          let n = pagedir_set_accessed pd f.upage false m in
          (
            at,
            n,
            rw (clock_loop, o, b, clock_loop) refl,
            omega arith,
            omega arith,
            c,
            IsUnaccessed-cons f [] at at pd n o here (λ j q g l e p. absurd (omega arith)),
          )
    ]
clock_loop-Clocked f (g ∷ gs) at before m ((pd, o), os) =
    elim (Bool-cases (pagedir_is_accessed pd f.upage m)) [
      | inr b ↦ Clocked-stop f (g ∷ gs) at pd before m o b
      | inl b ↦
          let (c, here) = pagedir_set_accessed-Clears pd f.upage m in
          let (k, n, r, l, u, d, una) =
            clock_loop-Clocked g gs (suc at) (some at) (pagedir_set_accessed pd f.upage false m)
              os in
          (
            k,
            n,
            rw (clock_loop, o, b) r,
            omega arith,
            omega arith,
            Clears-trans c d,
            IsUnaccessed-cons f (g ∷ gs) at k pd n o (pagedir_is_accessed-Clears pd f.upage d here)
                una,
          )
    ]

-- On a table with a frame, in which every frame has an owner, `frame_clock` fails no assertion and
-- finds a frame of the table; afterwards this frame and all before it have their access bits
-- clear, and every address of every directory is mapped as before.
pub frame_clock-IsUnaccessed :
    (f : Frame) (fs : List Frame) (m : Memory)
    → All IsOwned (f ∷ fs)
    → (k : ℕ) × (n : Memory) × (frame_clock (f ∷ fs) m ≡ some (some k, n))
      × (k < length (f ∷ fs))
      × IsUnaccessed 0 k (f ∷ fs) n
      × ((pd u : ℕ) → pagedir_get_page pd u n ≡ pagedir_get_page pd u m)
unfolding frame_clock Clocked
frame_clock-IsUnaccessed f fs m os =
    let (k, n, r, l, u, d, una) = clock_loop-Clocked f fs 0 none m os in
    (
      k,
      n,
      r,
      omega arith,
      una,
      λ pd v. pagedir_get_page-same pd v m n d.directories d.page d.present,
    )
