-- ===== src/VirtualMemory/Page/Tests.antt =====
-- The theorem at a table with one page.
use cs124_my_pintos.Common.{◌≡◌, refl, none, [], ◌∷◌, pos}
use cs124_my_pintos.VirtualMemory.Pagedir.{empty_pte}
use cs124_my_pintos.VirtualMemory.Page.{Process, find_upage}
use cs124_my_pintos.VirtualMemory.Page.Laws.{file_page}

abbrev mapped : Process
mapped = record {
  sup_page_table = file_page 7 0x8048000 3 (pos 0) ∷ [];
  pagedir = 7;
  memory = record {
    directories = λ d i. none;
    tables = λ t j. empty_pte;
    active = 7;
    loads = 1;
    freed = [];
  };
}

absent : find_upage 0x8049000 mapped.sup_page_table ≡ none
unfolding find_upage
absent = refl
