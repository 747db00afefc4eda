-- ===== src/VirtualMemory/Pagedir/Tests.antt =====
-- The theorems at a directory 7 with one page table, 9, and no page in it.
use cs124_my_pintos.Common.{
  ℕ, ◌/◌, ◌+◌, ◌%◌, ◌^◌, ◌≡◌, refl, true, none, some, [], arith, ◌==◌, if◌then◌else◌,
}
use cs124_my_pintos.VirtualMemory.Pagedir.{empty_pte, Memory, pagedir_set_page, pagedir_get_page}
use cs124_my_pintos.VirtualMemory.Pagedir.Laws.{pagedir_get_page-pagedir_set_page}

abbrev one_table : Memory
one_table = record {
  directories = λ d i. if d == 7 then (if i == 32 then some 9 else none) else none;
  tables = λ t j. empty_pte;
  active = 7;
  loads = 1;
  freed = [];
}

unmapped : pagedir_get_page 7 0x8048000 one_table ≡ some none
unfolding pagedir_get_page
unmapped = refl

pagedir_get_page-pagedir_set_page_example :
    (n : Memory) × (pagedir_set_page 3 1024 (some 11) 7 0x8048000 0xc0004000 true one_table
      ≡ some (true, n))
    × ((uaddr : ℕ)
        → uaddr / 2 ^ 12 ≡ 0x8048000 / 2 ^ 12
        → pagedir_get_page 7 uaddr n ≡ some (some (0xc0004000 + uaddr % 2 ^ 12)))
pagedir_get_page-pagedir_set_page_example =
    pagedir_get_page-pagedir_set_page 3 1024 7 0x8048000 0xc0004000 11 true one_table refl refl
      (omega arith) (omega arith) (omega arith) (omega arith) unmapped
