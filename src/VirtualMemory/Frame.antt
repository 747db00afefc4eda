-- ===== src/VirtualMemory/Frame.antt =====
-- virtual-memory/vm/frame.c: the frame table, with `evict_frame` as the use of the swap and of the
-- supplemental page table. A frame is found by its place in the table, which stands for the pointer
-- to it; the table does not change its length after `frame_init`. The lock, which is held for one
-- walk or one step of the table, is not part of the model. `none` is a failed assertion or
-- NOT_REACHED.
pub mod Clock
pub mod Alloc
pub mod Free
pub mod Evict
pub mod Samples
mod Tests
use cs124_my_pintos.Common.{
  ℕ, zero, suc, ◌+◌, Bool, true, false, Option, none, some, List, [], ◌∷◌, ◌++◌, ◌==◌, length,
  get_elem?, set, if◌then◌else◌,
}
use cs124_my_pintos.VirtualMemory.Swap.{SwapBlock, Swap, swap_out}
use cs124_my_pintos.VirtualMemory.Pagedir.{
  Memory, pagedir_is_accessed, pagedir_set_accessed, pagedir_get_page, pagedir_set_page,
}
use cs124_my_pintos.VirtualMemory.Page.{Process, page_set_swap}

-- `pd` is `none` and `upage` 0 for NULL.
pub record Frame : Type 0 where
  pub kpage : ℕ
  pub pd : Option ℕ
  pub upage : ℕ

-- `fail_on_next` is the static variable of `get_next_frame`.
pub record FrameTable : Type 0 where
  pub frame_table : List Frame
  pub next_frame : ℕ
  pub fail_on_next : Bool

-- The loop of `frame_clock` from the place `at` on, with `frame_s` before it. The functions of
-- pagedir.c assert that the directory is not NULL.
unfoldable pub clock_loop :
    List Frame → (at : ℕ) (frame_s : Option ℕ) → Memory → Option (Option ℕ × Memory)
clock_loop [] at frame_s m = some (frame_s, m)
clock_loop (f ∷ fs) at frame_s m = elim f.pd [
  | none ↦ none
  | some pd ↦
      let rest = clock_loop fs (suc at) (some at) (pagedir_set_accessed pd f.upage false m) in
      if pagedir_is_accessed pd f.upage m then rest else some (some at, m)
]

unfoldable pub frame_clock : List Frame → Memory → Option (Option ℕ × Memory)
unfolding clock_loop
frame_clock fs m = clock_loop fs 0 none m

-- `palloc_get_page` is asked until it returns NULL and gives the pages `kpages` before.
unfoldable pub frame_init : (kpages : List ℕ) → Option FrameTable
frame_init [] = none
frame_init (k ∷ ks) =
    some (record { frame_table = frames (k ∷ ks); next_frame = 0; fail_on_next = false })
  where
    frames : List ℕ → List Frame
    frames [] = []
    frames (x ∷ xs) = record { kpage = x; pd = none; upage = 0 } ∷ frames xs

abbrev pub belongs_to : (pd : ℕ) → Frame → Bool
belongs_to pd f = elim f.pd [ none ↦ false | some d ↦ d == pd ]

unfoldable pub frame_free : (pd : ℕ) → List Frame → List Frame
frame_free pd [] = []
frame_free pd (f ∷ fs) =
    (if belongs_to pd f then record f { pd = none; upage = 0 } else f) ∷ frame_free pd fs

module _ {Sector : Type 0} (block : SwapBlock Sector) where
  -- `process` is the current thread's, and `ram` what each frame holds.
  pub record Vm : Type 0 where
    pub frames : FrameTable
    pub process : Process
    pub swap : Swap block
    pub ram : ℕ → ℕ → Sector

  unfoldable pub evict_frame : Frame → Vm → Option Vm
  unfolding swap_out page_set_swap
  evict_frame f s = elim (swap_out block (s.ram f.kpage) s.swap) [
    | none ↦ none
    | some out ↦ elim (page_set_swap f.upage out.0 s.process) [
      | none ↦ none
      | some r ↦ if r.0 then some (record s { process = r.1; swap = out.1 }) else none
    ]
  ]

  -- The step of `next_frame` through the table.
  unfoldable pub step_frame : FrameTable → FrameTable
  step_frame t =
      let next = suc t.next_frame in
      if next == length t.frame_table
      then record t { next_frame = 0; fail_on_next = true }
      else record t { next_frame = next }

  unfoldable pub get_next_frame : Vm → Option (ℕ × Vm)
  unfolding frame_clock evict_frame step_frame
  get_next_frame s =
      if s.frames.fail_on_next
      then elim (frame_clock s.frames.frame_table s.process.memory) [
        | none ↦ none
        | some r ↦ elim r.0 [
          | none ↦ none
          | some i ↦ elim (get_elem? s.frames.frame_table i) [
            | none ↦ none
            | some f ↦
                elim (evict_frame f (record s { process = record s.process { memory = r.1 } })) [
                  | none ↦ none
                  | some t ↦ some (i, t)
                ]
          ]
        ]
      ]
      else some (s.frames.next_frame, record s { frames = step_frame s.frames })

  -- `page` is what `palloc_get_page` has for a page table.
  unfoldable pub frame_alloc :
      (init_page_dir init_ram_pages : ℕ) (page : Option ℕ) (upage : ℕ) (writable : Bool)
      → Vm
      → Option (ℕ × Vm)
  frame_alloc init_page_dir init_ram_pages page upage writable s =
      let pd = s.process.pagedir in
      elim (get_next_frame s) [
        | none ↦ none
        | some (i, t) ↦ elim (get_elem? t.frames.frame_table i) [
          | none ↦ none
          | some f ↦ elim (pagedir_get_page pd upage t.process.memory) [
            | none ↦ none
            | some (some kpage) ↦ none
            | some none ↦
                elim (pagedir_set_page init_page_dir init_ram_pages page pd upage f.kpage writable
                  t.process.memory) [
                    | none ↦ none
                    | some (false, m) ↦ none
                    | some (true, m) ↦ some (
                      f.kpage,
                      record t {
                        process = record t.process { memory = m };
                        frames = record t.frames {
                          frame_table =
                              set t.frames.frame_table i (record f { upage = upage; pd = some pd });
                        };
                      },
                    )
                  ]
          ]
        ]
      ]
