-- ===== src/VirtualMemory/Mapping/Tests.antt =====
-- A file of 100 bytes, mapped at an address of user memory and unmapped.
use cs124_my_pintos.Common.{
  ◌^◌, ℕ, ◌+◌, ◌≤◌, ◌<◌, ◌≡◌, refl, subst, true, false, Option, none, some, [], ◌∷◌, arith, pos,
}
use cs124_my_pintos.UserPrograms.Descriptors.{next_fd, fd_to_file, fd_to_file_store}
use cs124_my_pintos.UserPrograms.Syscall.{returned}
use cs124_my_pintos.VirtualMemory.Pagedir.{Memory, pagedir_is_dirty}
use cs124_my_pintos.VirtualMemory.Page.{find_upage, match_file}
use cs124_my_pintos.VirtualMemory.Frame.Samples.{swap_block, machine}
use cs124_my_pintos.VirtualMemory.Fetch.{Files}
use cs124_my_pintos.VirtualMemory.Fetch.Unmap.{with_table}
use cs124_my_pintos.VirtualMemory.Mapping.{Mapper, sys_mmap, sys_munmap, upage_at}
use cs124_my_pintos.VirtualMemory.Mapping.Laws.{mapped_state, sys_mmap-mapped}
use cs124_my_pintos.VirtualMemory.Mapping.Undo.{sys_munmap-sys_mmap}

-- The state counts the operations; a file is reopened as the number above 50.
abbrev small_files : Files ℕ
small_files = record {
  Fs = ℕ;
  file_length = λ fs f. pos 100;
  file_read_at = λ fs f page size off. ((λ i. f), size);
  file_write_at = λ fs f page size off. fs + 1;
}

abbrev reopen : ℕ → ℕ → Option ℕ × ℕ
reopen fs f = (some (f + 50), fs + 1)

abbrev close : ℕ → ℕ → ℕ
close fs f = fs + 1

abbrev mapper : Mapper swap_block small_files reopen close
mapper = record {
  files_open = record { fd = 2; file = 5; mapped = false } ∷ [];
  fs = 0;
  vm = machine;
  self_status = 0;
}

opened : fd_to_file 2 mapper.files_open ≡ some 5
unfolding fd_to_file fd_to_file_store
opened = refl

not_mapped : find_upage 0x8050000 machine.process.sup_page_table ≡ none
unfolding find_upage
not_mapped = refl

next : 1 < next_fd mapper.files_open
unfolding next_fd
next = omega arith

next_word : next_fd mapper.files_open < 2 ^ 31
unfolding next_fd
next_word = omega arith

clean_first : pagedir_is_dirty 7 0x8050000 machine.process.memory ≡ false
unfolding pagedir_is_dirty
clean_first = refl

clean :
    (j : ℕ)
    → 0 ≤ j
    → j < 1
    → pagedir_is_dirty 7 (upage_at 0x8050000 j) machine.process.memory ≡ false
clean j l h =
    let e : 0 ≡ j = omega arith in
    subst (λ j. pagedir_is_dirty 7 (upage_at 0x8050000 j) machine.process.memory ≡ false) e
      clean_first

sys_mmap-mapped_example :
    sys_mmap swap_block small_files reopen close (λ k. true) 2 0x8050000 mapper
    ≡ returned 3 (mapped_state swap_block small_files reopen close 1 0x8050000 55 1 mapper)
unfolding next_fd
sys_mmap-mapped_example =
    sys_mmap-mapped swap_block small_files reopen close 5 55 2 0x8050000 mapper (omega arith)
      (omega arith) refl opened (omega arith) (omega arith) (not_mapped, tt) refl

sys_munmap-sys_mmap_example :
    (id : ℕ) × (t : Mapper swap_block small_files reopen close) × (m : Memory) × (sys_mmap
        swap_block small_files reopen close
        (λ k. true)
        2
        0x8050000
        mapper
      ≡ returned id t)
    × (sys_munmap swap_block small_files reopen close id t
        ≡ returned tt (record mapper {
          fs = 2;
          vm = with_table swap_block small_files machine.process.sup_page_table m machine;
        }))
unfolding find_upage match_file
sys_munmap-sys_mmap_example =
    sys_munmap-sys_mmap swap_block small_files reopen close 5 55 2 0x8050000 mapper (omega arith)
      (omega arith) refl opened next next_word (omega arith) (omega arith) (not_mapped, tt) refl
      (refl, tt) ((refl, omega arith), tt) (refl, tt) clean
