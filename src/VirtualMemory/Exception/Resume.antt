-- ===== src/VirtualMemory/Exception/Resume.antt =====
-- The first access to a page of a mapped file: `page_fault` of virtual-memory/userprog/exception.c.
use cs124_my_pintos.Common.{ℕ, Bool, some, List}
use cs124_my_pintos.VirtualMemory.Swap.{SwapBlock}
use cs124_my_pintos.VirtualMemory.Page.{Page}
use cs124_my_pintos.VirtualMemory.Frame.{Frame}
use cs124_my_pintos.VirtualMemory.Frame.Alloc.{unused}
use cs124_my_pintos.VirtualMemory.Fetch.{Files}
use cs124_my_pintos.VirtualMemory.Exception.{Faults}

module _ {Sector : Type 0} (block : SwapBlock Sector) (files : Files Sector)
    (sel_ucseg sel_kcseg init_page_dir init_ram_pages new : ℕ) (memory : Bool)
    (fsys : files.Fs) where
  abbrev pub Handler : Type 0
  Handler =
      Faults block files sel_ucseg sel_kcseg init_page_dir init_ram_pages (some new) memory fsys

  abbrev pub with_frames : List Frame → (i : ℕ) → Handler → Handler
  with_frames fs i s = record s { vm = record s.vm { frames = unused fs i } }
