-- ===== src/VirtualMemory/Fetch/Tests.antt =====
-- The theorems at a machine with one page in the swap and one of a file.
use cs124_my_pintos.Common.{ℕ, ◌+◌, ◌%◌, ◌^◌, ◌≡◌, refl, true, none, some, [], ◌∷◌, arith, pos}
use cs124_my_pintos.VirtualMemory.Pagedir.{Memory, pagedir_get_page, pagedir_is_dirty}
use cs124_my_pintos.VirtualMemory.Page.{
  Page, find_upage, page_in_table, file_size_in_page, activate,
}
use cs124_my_pintos.VirtualMemory.Page.Laws.{file_page}
use cs124_my_pintos.VirtualMemory.Frame.{Vm}
use cs124_my_pintos.VirtualMemory.Frame.Alloc.{unused}
use cs124_my_pintos.VirtualMemory.Frame.Samples.{
  first_frame, swap_block, memory, second_frame, machine,
}
use cs124_my_pintos.VirtualMemory.Fetch.{Files, pg_round_down, page_fetch, page_unmap}
use cs124_my_pintos.VirtualMemory.Fetch.Load.{Loaded, page_fetch-Loaded}
use cs124_my_pintos.VirtualMemory.Fetch.Unmap.{with_table, without, page_unmap-without}

-- Files of 100 bytes whose contents are the number of the file.
abbrev sample_files : Files ℕ
sample_files = record {
  Fs = ℕ;
  file_length = λ fs f. pos 100;
  file_read_at = λ fs f page size off. ((λ i. f), size);
  file_write_at = λ fs f page size off. fs + 1;
}

abbrev swapped_page : Page
swapped_page = record (file_page 7 0x8049000 3 (pos 0)) { file = none; ss = some 0 }

abbrev swapped : Vm swap_block
swapped = record machine {
  process = record machine.process {
    sup_page_table = file_page 7 0x8048000 3 (pos 0) ∷ swapped_page ∷ [];
  };
}

in_table : page_in_table (pg_round_down 0x8048123) swapped.process ≡ true
unfolding page_in_table find_upage
in_table = refl

abbrev first_page : Page
first_page = file_page 7 0x8048000 3 (pos 0)

page_found : find_upage (pg_round_down 0x8048123) swapped.process.sup_page_table ≡ some first_page
unfolding find_upage
page_found = refl

not_mapped : pagedir_get_page 7 (pg_round_down 0x8048123) memory ≡ some none
unfolding pagedir_get_page
not_mapped = refl

size_found : file_size_in_page (sample_files.file_length 5) first_page ≡ some (pos 100)
unfolding file_size_in_page
size_found = refl

-- The frame is the last that was never used.
page_fetch-Loaded_example :
    (t : Vm swap_block) × (page_fetch swap_block sample_files 3 1024
        (some 11)
        true
        0x8048123
        0
        true
        5
        (record swapped { frames = unused (first_frame ∷ second_frame ∷ []) 1 })
      ≡ some (true, t))
    × (pagedir_get_page 7 0x8048123 t.process.memory
        ≡ some (some (0xc0005000 + 0x8048123 % 2 ^ 12)))
    × Loaded swap_block sample_files 5 swapped t first_page 3 0xc0005000 (pos 100)
    × (find_upage (pg_round_down 0x8048123) t.process.sup_page_table
        ≡ some (activate 0xc0005000 first_page))
page_fetch-Loaded_example =
    page_fetch-Loaded swap_block sample_files 3 1024 11 0x8048123 0 1 3 true true (pos 100)
      (first_frame ∷ second_frame ∷ []) second_frame first_page 5 swapped (omega arith) in_table
      page_found refl size_found refl (omega arith) refl refl (omega arith) (omega arith)
      (omega arith) not_mapped

distinct : find_upage 0x8048000 (swapped_page ∷ []) ≡ none
unfolding find_upage
distinct = refl

page_unmap-without_example :
    (m : Memory) × (page_unmap swap_block sample_files 3 5 swapped
      ≡ some (
        5,
        with_table swap_block sample_files (without 3 swapped.process.sup_page_table) m swapped,
      ))
unfolding find_upage pagedir_is_dirty
page_unmap-without_example =
    page_unmap-without swap_block sample_files 3 5 swapped (distinct, (refl, tt))
      ((refl, omega arith), ((refl, omega arith), tt)) (λ h. refl, (λ h. refl, tt))
