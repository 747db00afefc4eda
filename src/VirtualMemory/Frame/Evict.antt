-- ===== src/VirtualMemory/Frame/Evict.antt =====
-- `evict_frame` of vm/frame.c.
use cs124_my_pintos.Common.{◌≡◌, refl, arith, true, false, ◌==◌, some}
use cs124_my_pintos.VirtualMemory.Swap.{SwapBlock, SwapSlot}
use cs124_my_pintos.VirtualMemory.Swap.Slots.{IsValid, HasRoom}
use cs124_my_pintos.VirtualMemory.Swap.Laws.{swap_out-Stored, Stored}
use cs124_my_pintos.VirtualMemory.Page.{Page, update_page, find_upage, page_set_swap}
use cs124_my_pintos.VirtualMemory.Page.Laws.{find_upage-update_page}
use cs124_my_pintos.VirtualMemory.Frame.{Frame, Vm, evict_frame}

module _ {Sector : Type 0} (block : SwapBlock Sector) where
  -- With valid slots, room on the swap block and a page of the current thread at the user address
  -- of the frame, `evict_frame` succeeds: what the frame held is in a slot that was free, the page
  -- has that slot and is not active, the slots stay valid, and the page directories are unchanged,
  -- so that the frame is still mapped where it was.
  pub evict_frame-Stored :
      (f : Frame) (p : Page) (s : Vm block)
      → IsValid block s.swap
      → HasRoom block s.swap
      → find_upage f.upage s.process.sup_page_table ≡ some p
      → (ss : SwapSlot) × (t : Vm block) × (evict_frame block f s ≡ some t)
        × Stored block (s.ram f.kpage) s.swap t.swap ss
        × IsValid block t.swap
        × (find_upage f.upage t.process.sup_page_table
            ≡ some (record p { ss = some ss; active = false }))
        × (t.process.memory ≡ s.process.memory)
  unfolding evict_frame page_set_swap
  evict_frame-Stored f p s v room e =
      let (ss, w, out, valid, stored) = swap_out-Stored block (s.ram f.kpage) s.swap v room in
      let change = λ (q : Page). record q { ss = some ss; active = false } in
      let k : (f.upage == f.upage) ≡ true = ground arith in
      let changed =
        find_upage-update_page f.upage f.upage change s.process.sup_page_table (λ q. refl) in
      (
        ss,
        record s {
          process = record s.process {
            sup_page_table = update_page f.upage change s.process.sup_page_table;
          };
          swap = w;
        },
        rw (evict_frame, out, page_set_swap, e) refl,
        stored,
        valid,
        rw (k, e) at changed,
        refl,
      )
