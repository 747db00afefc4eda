-- ===== src/VirtualMemory/Frame/Tests.antt =====
-- The theorems at a table of two frames and a directory 7 with one page table.
use cs124_my_pintos.Common.{ℕ, ◌<◌, ◌≡◌, refl, inr, false, none, some, [], ◌∷◌, arith, length, pos}
use cs124_my_pintos.VirtualMemory.Swap.{SwapSlot}
use cs124_my_pintos.VirtualMemory.Swap.Slots.{IsValid}
use cs124_my_pintos.VirtualMemory.Swap.Laws.{Stored}
use cs124_my_pintos.VirtualMemory.Pagedir.{Memory, pagedir_get_page}
use cs124_my_pintos.VirtualMemory.Page.{find_upage}
use cs124_my_pintos.VirtualMemory.Page.Laws.{file_page}
use cs124_my_pintos.VirtualMemory.Frame.{Vm, frame_clock, frame_free, evict_frame}
use cs124_my_pintos.VirtualMemory.Frame.Clock.{IsUnaccessed, frame_clock-IsUnaccessed}
use cs124_my_pintos.VirtualMemory.Frame.Free.{frame_clock-frame_free}
use cs124_my_pintos.VirtualMemory.Frame.Evict.{evict_frame-Stored}
use cs124_my_pintos.VirtualMemory.Frame.Samples.{
  swap_block, memory, first_frame, second_frame, machine, swap-IsValid,
}

found : find_upage 0x8048000 machine.process.sup_page_table ≡ some (file_page 7 0x8048000 3 (pos 0))
unfolding find_upage
found = refl

frame_clock-IsUnaccessed_example :
    (k : ℕ) × (n : Memory) × (frame_clock (first_frame ∷ []) memory ≡ some (some k, n))
    × (k < length (first_frame ∷ []))
    × IsUnaccessed 0 k (first_frame ∷ []) n
    × ((pd u : ℕ) → pagedir_get_page pd u n ≡ pagedir_get_page pd u memory)
frame_clock-IsUnaccessed_example = frame_clock-IsUnaccessed first_frame [] memory ((7, refl), tt)

evict_frame-Stored_example :
    (ss : SwapSlot) × (t : Vm swap_block) × (evict_frame swap_block first_frame machine ≡ some t)
    × Stored swap_block (machine.ram 0xc0004000) machine.swap t.swap ss
    × IsValid swap_block t.swap
    × (find_upage 0x8048000 t.process.sup_page_table
        ≡ some (record (file_page 7 0x8048000 3 (pos 0)) { ss = some ss; active = false }))
    × (t.process.memory ≡ memory)
evict_frame-Stored_example =
    evict_frame-Stored swap_block first_frame (file_page 7 0x8048000 3 (pos 0)) machine swap-IsValid
      (inr (omega arith)) found

frame_clock-frame_free_example :
    frame_clock (frame_free 7 (first_frame ∷ second_frame ∷ [])) memory ≡ none
frame_clock-frame_free_example =
    frame_clock-frame_free 7 first_frame (second_frame ∷ []) memory refl
