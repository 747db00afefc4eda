-- ===== src/VirtualMemory/Exception/Tests.antt =====
-- A page fault of a process at an address of the kernel, and at one of its pages.
use cs124_my_pintos.Common.{some, ℕ, ◌+◌, true, none, pos}
use cs124_my_pintos.VirtualMemory.Interrupt.{intr_off}
use cs124_my_pintos.VirtualMemory.Frame.Samples.{swap_block, machine}
use cs124_my_pintos.VirtualMemory.Fetch.{Files}
use cs124_my_pintos.VirtualMemory.Exception.{IntrFrame, Faults}
use cs124_my_pintos.VirtualMemory.Page.{Page}
use cs124_my_pintos.VirtualMemory.Page.Laws.{file_page}

abbrev no_files : Files ℕ
no_files = record {
  Fs = ℕ;
  file_length = λ fs f. pos 0;
  file_read_at = λ fs f page size off. (page, pos 0);
  file_write_at = λ fs f page size off. fs;
}

abbrev faults : Faults swap_block no_files 0x1b 8 3 1024 none true 0
faults = record { page_fault_cnt = 6; intr_level = intr_off; vm = machine }

-- A write of the user's code.
abbrev frame : IntrFrame
frame = record { cs = 0x1b; error_code = 6; esp = 0xbffff000 }

abbrev sel_ucseg : ℕ
sel_ucseg = 0x1b

-- Files of 100 bytes whose contents are the number of the file.
abbrev small_files : Files ℕ
small_files = record {
  Fs = ℕ;
  file_length = λ fs f. pos 100;
  file_read_at = λ fs f page size off. ((λ i. f), size);
  file_write_at = λ fs f page size off. fs + 1;
}

abbrev first_access : Faults swap_block small_files 0x1b 8 3 1024 (some 11) true 5
first_access = record { page_fault_cnt = 6; intr_level = intr_off; vm = machine }

abbrev first_page : Page
first_page = file_page 7 0x8048000 3 (pos 0)
