-- ===== src/VirtualMemory/Frame/Free.antt =====
-- `frame_free` of vm/frame.c and the walk of `frame_clock` after it.
use cs124_my_pintos.Common.{
  ℕ, zero, suc, ◌≡◌, ◌≢◌, refl, inl, inr, true, false, none, some, List, [], ◌∷◌, arith, ◌==◌,
  if◌then◌else◌, get_elem?, Bool-cases,
}
use cs124_my_pintos.VirtualMemory.Pagedir.{Memory}
use cs124_my_pintos.VirtualMemory.Frame.{Frame, clock_loop, belongs_to, frame_clock, frame_free}

-- `frame_free` keeps every frame at its place in the table, takes the owner and the page from exactly
-- those of the directory, and no frame of the table then has that directory.
pub frame_free-released :
    (pd i : ℕ) (fs : List Frame) (f : Frame)
    → get_elem? fs i ≡ some f
    → let g = if belongs_to pd f then record f { pd = none; upage = 0 } else f in
      (get_elem? (frame_free pd fs) i ≡ some g) × (g.pd ≢ some pd)
unfolding frame_free
frame_free-released pd i fs f h = (placed i fs h, free)
  where
    placed :
        (i : ℕ) (fs : List Frame)
        → get_elem? fs i ≡ some f
        → get_elem? (frame_free pd fs) i
          ≡ some (if belongs_to pd f then record f { pd = none; upage = 0 } else f)
    placed i [] h = (let n : true ≡ false = cc in cc)
    placed zero (g ∷ gs) h = let e : g ≡ f = cc in rw e refl
    placed (suc i) (g ∷ gs) h = placed i gs h

    free : (if belongs_to pd f then record f { pd = none; upage = 0 } else f).pd ≢ some pd
    free = elim (Bool-cases (belongs_to pd f)) [
      | inl b ↦ λ h. let n = rw b at h in cc
      | inr b ↦ λ h.
          let n : f.pd ≡ some pd = rw b at h in
          let d : (pd == pd) ≡ false = rw n at b in let e : (pd == pd) ≡ true = ground arith in cc
    ]

-- On a table that begins with a frame of the directory, the next `frame_clock` after `frame_free`
-- fails an assertion, since it looks at a frame without a directory.
pub frame_clock-frame_free :
    (pd : ℕ) (f : Frame) (fs : List Frame) (m : Memory)
    → f.pd ≡ some pd
    → frame_clock (frame_free pd (f ∷ fs)) m ≡ none
unfolding frame_clock clock_loop frame_free
frame_clock-frame_free pd f fs m e =
    let b : belongs_to pd f ≡ true = (let c : (pd == pd) ≡ true = ground arith in rw e c) in
    rw b refl
