-- ===== src/VirtualMemory/Page.antt =====
-- virtual-memory/vm/page.c: the supplemental page table of a process. A page of the table is found by
-- its user address, which stands for the pointer to it; files and frames are numbers. `none` is a
-- failed assertion or a read through NULL. What moves the data of a page is
-- in VirtualMemory/Fetch.
pub mod Laws
mod Tests
use cs124_my_pintos.Common.{
  ℕ, ◌+◌, ◌-◌, ◌≡◌, refl, Bool, true, false, not, ◌&&◌, ◌||◌, Option, none, some, List, [], ◌∷◌,
  ◌++◌, ◌==◌, ltb, leb, if◌then◌else◌, is_some, ◌%◌, ℤ, pos, negsuc, ◌-ℤ◌, ltb_ℤ, int32,
}
use cs124_my_pintos.UserPrograms.Segment.{pg_size, u32}
use cs124_my_pintos.VirtualMemory.Swap.{SwapSlot}
use cs124_my_pintos.VirtualMemory.Pagedir.{Memory, pagedir_clear_page}

pub record Page : Type 0 where
  pub pd : ℕ
  pub upage : ℕ
  pub active : Bool
  pub frame : Option ℕ
  pub file : Option ℕ
  pub off : ℤ
  pub writable : Bool
  pub ss : Option SwapSlot

-- The current thread's `sup_page_table` and page directory, and the page tables.
pub record Process : Type 0 where
  pub sup_page_table : List Page
  pub pagedir : ℕ
  pub memory : Memory

unfoldable pub find_page : (match_page : Page → Bool) → List Page → Option Page
find_page match_page [] = none
find_page match_page (p ∷ ps) =
    let later = find_page match_page ps in if match_page p then some p else later

unfoldable pub match_upage : (upage : ℕ) → Page → Bool
match_upage upage p = p.upage == upage

unfoldable pub find_upage : (upage : ℕ) → List Page → Option Page
unfolding find_page match_upage
find_upage upage ps = find_page (match_upage upage) ps

unfoldable pub match_file : (file : ℕ) → Page → Bool
match_file file p = elim p.file [ none ↦ false | some f ↦ f == file ]

unfoldable pub find_file : (file : ℕ) → List Page → Option Page
unfolding find_page match_file
find_file file ps = find_page (match_file file) ps

-- An address 0 is NULL.
unfoldable pub page_in_table : (vaddr : ℕ) → Process → Bool
unfolding find_upage
page_in_table vaddr s = not (vaddr == 0) && is_some (find_upage vaddr s.sup_page_table)

-- `memory` says whether `malloc` succeeds; the page of `none` is NULL. The frame of the new page has
-- no value in the code until it is set.
unfoldable pub page_alloc :
    (memory : Bool) (pd upage : ℕ) (writable : Bool) → Process → Option Page × Process
unfolding page_in_table
page_alloc memory pd upage writable s =
    let p : Page = record {
      pd = pd;
      upage = upage;
      active = false;
      frame = none;
      file = none;
      off = pos 0;
      writable = writable;
      ss = none;
    } in
    if page_in_table upage s
    then (none, s)
    else if memory
    then (some p, record s { sup_page_table = s.sup_page_table ++ (p ∷ []) })
    else (none, s)

-- The change of the first page of an address.
unfoldable pub update_page : (upage : ℕ) (change : Page → Page) → List Page → List Page
update_page upage change [] = []
update_page upage change (p ∷ ps) =
    let later = update_page upage change ps in if p.upage == upage then change p ∷ ps else p ∷ later

abbrev pub same : Bool → Bool → Bool
same true b = b
same false b = not b

unfoldable pub activate : (kpage : ℕ) → Page → Page
activate kpage p = record p { active = true; frame = some kpage }

unfoldable pub page_set_frame :
    (memory : Bool) (upage kpage : ℕ) (writable : Bool) → Process → Option Process
unfolding find_upage page_alloc update_page activate
page_set_frame memory upage kpage writable s =
    let made = page_alloc memory s.pagedir upage writable s in
    let set = λ (p : Page) (t : Process).
      if same p.writable writable
      then some (record t { sup_page_table = update_page upage (activate kpage) t.sup_page_table })
      else none in
    elim (find_upage upage s.sup_page_table) [
      | some p ↦ set p s
      | none ↦ elim made.0 [ none ↦ none | some p ↦ set p made.1 ]
    ]

unfoldable pub page_set_file : (memory : Bool) (upage file : ℕ) (off : ℤ) → Process → Bool × Process
unfolding page_alloc update_page
page_set_file memory upage file off s =
    let (page, t) = page_alloc memory s.pagedir upage true s in
    elim page [
      | none ↦ (false, t)
      | some p ↦ (
        true,
        record t {
          sup_page_table =
              update_page upage (λ q. record q { file = some file; off = off }) t.sup_page_table;
        },
      )
    ]

-- `list_remove` of the first page of an address
unfoldable pub remove_page : (upage : ℕ) → List Page → List Page
remove_page upage [] = []
remove_page upage (p ∷ ps) =
    let later = remove_page upage ps in if p.upage == upage then ps else p ∷ later

unfoldable pub page_remove : (upage : ℕ) → Process → Option Process
unfolding find_upage remove_page
page_remove upage s = elim (find_upage upage s.sup_page_table) [
  | none ↦ none
  | some p ↦ elim (pagedir_clear_page p.pd upage s.memory) [
    | none ↦ none
    | some m ↦ some (record s { sup_page_table = remove_page upage s.sup_page_table; memory = m })
  ]
]

-- `file_length` is the length of the page's file.
unfoldable pub file_size_in_page : (file_length : ℕ → ℤ) → Page → Option ℤ
unfolding int32 ◌-ℤ◌
file_size_in_page file_length p = elim p.file [
  | none ↦ none
  | some f ↦
      let left = int32 (file_length f -ℤ p.off) in
      some (if ltb_ℤ left (pos pg_size) then left else pos pg_size)
]

unfoldable pub page_is_writable : (upage : ℕ) → Process → Option Bool
unfolding find_upage
page_is_writable upage s = elim (find_upage upage s.sup_page_table) [
  | none ↦ none
  | some p ↦ some p.writable
]

unfoldable pub page_set_swap : (upage : ℕ) (ss : SwapSlot) → Process → Option (Bool × Process)
unfolding find_upage update_page
page_set_swap upage ss s = elim (find_upage upage s.sup_page_table) [
  | none ↦ none
  | some p ↦ some (
    true,
    record s {
      sup_page_table =
          update_page upage (λ q. record q { ss = some ss; active = false }) s.sup_page_table;
    },
  )
]

-- Differences of addresses are taken in 32 bits.
unfoldable pub stack_growth : (uaddr esp : ℕ) → Bool
stack_growth uaddr esp =
    (uaddr == (esp + u32 - 4) % u32) || (uaddr == (esp + u32 - 32) % u32) || leb esp uaddr
