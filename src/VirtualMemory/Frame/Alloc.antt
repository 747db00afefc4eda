-- ===== src/VirtualMemory/Frame/Alloc.antt =====
-- Handing out the frames of vm/frame.c while there are some that were never used.
use cs124_my_pintos.Common.{
  ℕ, zero, suc, ◌+◌, ◌-◌, ◌/◌, ◌%◌, ◌^◌, ◌≤◌, ◌<◌, ◌≡◌, ◌≢◌, refl, ap, ◌∙◌, inl, inr, Bool, true,
  false, Option, none, some, List, [], ◌∷◌, arith, ◌==◌, length, get_elem?, set, Bool-cases,
}
use cs124_my_pintos.UserPrograms.Segment.{phys_base}
use cs124_my_pintos.VirtualMemory.Swap.{SwapBlock}
use cs124_my_pintos.VirtualMemory.Pagedir.{Memory, pagedir_get_page, pagedir_set_page}
use cs124_my_pintos.VirtualMemory.Pagedir.Laws.{pagedir_get_page-pagedir_set_page}
use cs124_my_pintos.VirtualMemory.Frame.{
  Frame, FrameTable, Vm, step_frame, get_next_frame, frame_alloc,
}

-- A table whose frames from `i` on were never used.
abbrev pub unused : List Frame → (i : ℕ) → FrameTable
unused fs i = record { frame_table = fs; next_frame = i; fail_on_next = false }

-- The numbers from `i` on.
abbrev pub upwards : (i n : ℕ) → List ℕ
upwards i zero = []
upwards i (suc n) = i ∷ upwards (suc i) n

module _ {Sector : Type 0} (block : SwapBlock Sector) where
  -- The frames of `n` calls of `get_next_frame`, in order.
  unfoldable pub get_frames : (n : ℕ) → Vm block → Option (List ℕ × Vm block)
  get_frames zero s = some ([], s)
  get_frames (suc n) s = elim (get_next_frame block s) [
    | none ↦ none
    | some r ↦ elim (get_frames n r.1) [ none ↦ none | some q ↦ some (r.0 ∷ q.0, q.1) ]
  ]

  get_next_frame-more :
      (fs : List Frame) (i : ℕ) (s : Vm block)
      → suc i < length fs
      → get_next_frame block (record s { frames = unused fs i })
        ≡ some (i, record s { frames = unused fs (suc i) })
  unfolding get_next_frame step_frame
  get_next_frame-more fs i s l = let e : (suc i == length fs) ≡ false = ground arith in rw e refl

  get_frames-cons :
      (n i : ℕ) (s t u : Vm block) (is : List ℕ)
      → get_next_frame block s ≡ some (i, t)
      → get_frames n t ≡ some (is, u)
      → get_frames (suc n) s ≡ some (i ∷ is, u)
  unfolding get_frames
  get_frames-cons n i s t u is a b = rw (get_frames, a, b) refl

  get_frames-from :
      (n : ℕ) (fs : List Frame) (i : ℕ) (s : Vm block)
      → i + n ≤ length fs
      → i < length fs
      → (t : FrameTable) × (get_frames n (record s { frames = unused fs i })
          ≡ some (upwards i n, record s { frames = t }))
        × (t.frame_table ≡ fs)
        × (t.fail_on_next ≡ (i + n == length fs))
  unfolding get_frames get_next_frame step_frame
  get_frames-from zero fs i s h l = (unused fs i, refl, refl, ground arith)
  get_frames-from (suc zero) fs i s h l = elim (Bool-cases (suc i == length fs)) [
    | inl e ↦ (
      record (unused fs i) { next_frame = 0; fail_on_next = true },
      rw e refl,
      refl,
      ground arith,
    )
    | inr e ↦ (record (unused fs i) { next_frame = suc i }, rw e refl, refl, ground arith)
  ]
  get_frames-from (suc (suc n)) fs i s h l =
      let e = get_next_frame-more fs i s (omega arith) in
      let (t, r, a, b) = get_frames-from (suc n) fs (suc i) s (omega arith) (omega arith) in
      (
        t,
        get_frames-cons (suc n) i (record s { frames = unused fs i })
            (record s { frames = unused fs (suc i) }) (record s { frames = t })
            (upwards (suc i) (suc n)) e r,
        a,
        b ∙ ground arith,
      )

  -- On a table of which no frame was used, a number of calls of `get_next_frame` that is no more
  -- than that of the frames gives the first frames, each once and in order, and changes nothing
  -- but the position in the table; evicting starts exactly when all frames were given.
  pub get_frames_in_order :
      (n : ℕ) (fs : List Frame) (s : Vm block)
      → n ≤ length fs
      → 0 < length fs
      → (t : FrameTable) × (get_frames n (record s { frames = unused fs 0 })
          ≡ some (upwards 0 n, record s { frames = t }))
        × (t.frame_table ≡ fs)
        × (t.fail_on_next ≡ (n == length fs))
  get_frames_in_order n fs s h l =
      let (t, r, a, b) = get_frames-from n fs 0 s (omega arith) l in (t, r, a, b ∙ ground arith)

  step_frame-frame_table :
      (fs : List Frame) (i : ℕ) → (step_frame block (unused fs i)).frame_table ≡ fs
  unfolding step_frame
  step_frame-frame_table fs i = elim (Bool-cases (suc i == length fs)) [
    | inl e ↦ rw (step_frame, e) refl
    | inr e ↦ rw (step_frame, e) refl
  ]

  frame_alloc-steps :
      (init ram upage i new : ℕ) (writable : Bool) (f : Frame) (s : Vm block) (t : FrameTable)
      (m : Memory)
      → get_next_frame block s ≡ some (i, record s { frames = t })
      → get_elem? t.frame_table i ≡ some f
      → pagedir_get_page s.process.pagedir upage s.process.memory ≡ some none
      → pagedir_set_page init ram
          (some new)
          s.process.pagedir
          upage
          f.kpage
          writable
          s.process.memory
        ≡ some (true, m)
      → frame_alloc block init ram (some new) upage writable s
        ≡ some (
          f.kpage,
          record s {
            frames = record t {
              frame_table =
                  set t.frame_table i (record f { pd = some s.process.pagedir; upage = upage });
            };
            process = record s.process { memory = m };
          },
        )
  unfolding frame_alloc
  frame_alloc-steps init ram upage i new writable f s t m got at u done =
      rw (frame_alloc, got, at, u, done) refl

  pub frame_alloc-maps :
      (init_page_dir init_ram_pages new upage i : ℕ) (writable : Bool) (fs : List Frame) (f : Frame)
      (s : Vm block)
      → i < length fs
      → get_elem? fs i ≡ some f
      → upage % 2 ^ 12 ≡ 0
      → f.kpage % 2 ^ 12 ≡ 0
      → upage < phys_base
      → phys_base ≤ f.kpage
      → (f.kpage - phys_base) / 2 ^ 12 < init_ram_pages
      → s.process.pagedir ≢ init_page_dir
      → pagedir_get_page s.process.pagedir upage s.process.memory ≡ some none
      → (m : Memory) × (frame_alloc block init_page_dir init_ram_pages
            (some new)
            upage
            writable
            (record s { frames = unused fs i })
          ≡ some (
            f.kpage,
            record s {
              frames = record (step_frame block (unused fs i)) {
                frame_table = set fs i (record f { pd = some s.process.pagedir; upage = upage });
              };
              process = record s.process { memory = m };
            },
          ))
        × ((uaddr : ℕ)
            → uaddr / 2 ^ 12 ≡ upage / 2 ^ 12
            → pagedir_get_page s.process.pagedir uaddr m ≡ some (some (f.kpage + uaddr % 2 ^ 12)))
  unfolding get_next_frame
  frame_alloc-maps init ram new upage i writable fs f s l at a b c k d n u =
      let (m, done, found) =
        pagedir_get_page-pagedir_set_page init ram s.process.pagedir upage f.kpage new writable
          s.process.memory a b c k d n u in
      let t = step_frame block (unused fs i) in
      let same = step_frame-frame_table fs i in
      let here = ap (λ gs. get_elem? gs i) same ∙ at in
      let owned = record f { pd = some s.process.pagedir; upage = upage } in
      (
        m,
        frame_alloc-steps init ram upage i new writable f (record s { frames = unused fs i }) t m
              refl here u done
            ∙ ap
                (λ gs. some (
                  f.kpage,
                  record s {
                    frames = record t { frame_table = set gs i owned };
                    process = record s.process { memory = m };
                  },
                ))
                same,
        found,
      )
