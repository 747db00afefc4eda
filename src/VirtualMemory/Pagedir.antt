-- ===== src/VirtualMemory/Pagedir.antt =====
-- virtual-memory/userprog/pagedir.c: the page directories. Addresses have 32 bits: 10 for the entry
-- of the directory, 10 for the entry of the page table and 12 for the byte in the page (pg_no, pd_no
-- and pt_no of the kernel's headers). An entry of a directory that is not 0 stands for the page
-- table at its address; the bits of an entry of a page table are the fields of a record. Page
-- tables are kernel addresses, `none` is a failed assertion.
pub mod Laws
pub mod Fields
mod Tests
use cs124_my_pintos.Common.{
  ℕ, ◌+◌, ◌-◌, ◌*◌, ◌/◌, ◌%◌, ◌^◌, Bool, true, false, not, ◌&&◌, Option, none, some, List, [], ◌∷◌,
  ◌==◌, ltb, if◌then◌else◌, is_some, zero, suc,
}
use cs124_my_pintos.UserPrograms.Segment.{pg_size, phys_base, is_user_vaddr}

abbrev pub pd_no : ℕ → ℕ
pd_no vaddr = vaddr / 2 ^ 22

abbrev pub pt_no : ℕ → ℕ
pt_no vaddr = vaddr / 2 ^ 12 % 2 ^ 10

abbrev pub pg_ofs : ℕ → ℕ
pg_ofs vaddr = vaddr % 2 ^ 12

-- An entry of a page table: the frame's kernel address, and PTE_P, PTE_W, PTE_D and PTE_A.
pub record Pte : Type 0 where
  pub page : ℕ
  pub present : Bool
  pub writable : Bool
  pub dirty : Bool
  pub accessed : Bool

abbrev pub empty_pte : Pte
empty_pte = record { page = 0; present = false; writable = false; dirty = false; accessed = false }

-- The page directories and page tables by their addresses, `active` in CR3, how often it was loaded,
-- and the pages that were given back.
pub record Memory : Type 0 where
  pub directories : ℕ → ℕ → Option ℕ
  pub tables : ℕ → ℕ → Pte
  pub active : ℕ
  pub loads : ℕ
  pub freed : List ℕ

abbrev pub set_pte : (pt i : ℕ) → Pte → Memory → Memory
set_pte pt i e m = record m {
  tables = λ t j. if t == pt then (if j == i then e else m.tables t j) else m.tables t j;
}

-- `init_page_dir` and `init_ram_pages` are of the kernel's start-up. `page` is what `palloc_get_page`
-- returns, `none` for NULL.
module _ (init_page_dir init_ram_pages : ℕ) where
  unfoldable pub pagedir_create : (page : Option ℕ) → Memory → Option ℕ × Memory
  pagedir_create none m = (none, m)
  pagedir_create (some pd) m = (
    some pd,
    record m {
      directories = λ d i. if d == pd then m.directories init_page_dir i else m.directories d i;
    },
  )

  -- The entries from 0 to `n`.
  unfoldable pub free_tables : (pd n : ℕ) → Memory → Memory
  free_tables pd zero m = m
  free_tables pd (suc n) m =
      let before = free_tables pd n m in
      elim (before.directories pd n) [
        | none ↦ before
        | some pt ↦ record before { freed = pt ∷ before.freed }
      ]

  -- A directory of NULL is `none`.
  unfoldable pub pagedir_destroy : (pd : Option ℕ) → Memory → Option Memory
  unfolding free_tables
  pagedir_destroy none m = some m
  pagedir_destroy (some pd) m =
      let freed = free_tables pd (pd_no phys_base) m in
      if pd == init_page_dir then none else some (record freed { freed = pd ∷ freed.freed })

  -- The place of an entry, or `none` for NULL; the assertion on `create` is the first test.
  unfoldable pub lookup_page :
      (page : Option ℕ) (pd vaddr : ℕ) (create : Bool) → Memory → Option (Option (ℕ × ℕ) × Memory)
  lookup_page page pd vaddr create m =
      if create && not (is_user_vaddr vaddr) then none else elim (m.directories pd (pd_no vaddr)) [
        | some pt ↦ some (some (pt, pt_no vaddr), m)
        | none ↦
            if create
            then elim page [
              | none ↦ some (none, m)
              | some pt ↦ some (
                some (pt, pt_no vaddr),
                record m {
                  directories = λ d i.
                      if d == pd
                      then (if i == pd_no vaddr then some pt else m.directories d i)
                      else m.directories d i;
                  tables = λ t j. if t == pt then empty_pte else m.tables t j;
                },
              )
            ]
            else some (none, m)
      ]

  -- `vtop` asserts that `kpage` is an address of the kernel. A second assertion refuses the NULL that the code goes on to test.
  unfoldable pub pagedir_set_page :
      (page : Option ℕ) (pd upage kpage : ℕ) (writable : Bool) → Memory → Option (Bool × Memory)
  unfolding lookup_page
  pagedir_set_page page pd upage kpage writable m =
      if not (pg_ofs upage == 0)
      then none
      else if not (pg_ofs kpage == 0)
      then none
      else if not (is_user_vaddr upage)
      then none
      else if ltb kpage phys_base
      then none
      else if not (ltb ((kpage - phys_base) / 2 ^ 12) init_ram_pages)
      then none
      else if pd == init_page_dir
      then none
      else elim (lookup_page page pd upage true m) [
        | none ↦ none
        | some r ↦ elim r.0 [
          | none ↦ none
          | some at ↦
              if (r.1.tables at.0 at.1).present
              then none
              else some (
                true,
                set_pte at.0 at.1
                    (record {
                      page = kpage;
                      present = true;
                      writable = writable;
                      dirty = false;
                      accessed = false;
                    })
                    r.1,
              )
        ]
      ]

-- The entry of an address, if its directory has a page table for it: `lookup_page` without `create`.
abbrev pub find_pte : (pd vaddr : ℕ) → Memory → Option (ℕ × ℕ)
find_pte pd vaddr m = elim (m.directories pd (pd_no vaddr)) [
  | none ↦ none
  | some pt ↦ some (pt, pt_no vaddr)
]

abbrev pub load_cr3 : (pd : ℕ) → Memory → Memory
load_cr3 pd m = record m { active = pd; loads = m.loads + 1 }

unfoldable pub pagedir_activate : (init_page_dir : ℕ) (pd : Option ℕ) → Memory → Memory
pagedir_activate init_page_dir none m = load_cr3 init_page_dir m
pagedir_activate init_page_dir (some pd) m = load_cr3 pd m

unfoldable pub invalidate_pagedir : (pd : ℕ) → Memory → Memory
invalidate_pagedir pd m = if m.active == pd then load_cr3 pd m else m

unfoldable pub pagedir_get_page : (pd uaddr : ℕ) → Memory → Option (Option ℕ)
pagedir_get_page pd uaddr m =
    if is_user_vaddr uaddr
    then elim (find_pte pd uaddr m) [
      | none ↦ some none
      | some at ↦
          if (m.tables at.0 at.1).present
          then some (some ((m.tables at.0 at.1).page + pg_ofs uaddr))
          else some none
    ]
    else none

unfoldable pub pagedir_clear_page : (pd upage : ℕ) → Memory → Option Memory
unfolding invalidate_pagedir
pagedir_clear_page pd upage m =
    if not (pg_ofs upage == 0)
    then none
    else if not (is_user_vaddr upage)
    then none
    else elim (find_pte pd upage m) [
      | none ↦ some m
      | some at ↦
          let e = m.tables at.0 at.1 in
          if e.present
          then some (invalidate_pagedir pd (set_pte at.0 at.1 (record e { present = false }) m))
          else some m
    ]

unfoldable pub pagedir_is_dirty : (pd vpage : ℕ) → Memory → Bool
pagedir_is_dirty pd vpage m = elim (find_pte pd vpage m) [
  | none ↦ false
  | some at ↦ (m.tables at.0 at.1).dirty
]

unfoldable pub pagedir_set_dirty : (pd vpage : ℕ) (dirty : Bool) → Memory → Memory
unfolding invalidate_pagedir
pagedir_set_dirty pd vpage dirty m = elim (find_pte pd vpage m) [
  | none ↦ m
  | some at ↦
      let set = set_pte at.0 at.1 (record (m.tables at.0 at.1) { dirty = dirty }) m in
      if dirty then set else invalidate_pagedir pd set
]

unfoldable pub pagedir_is_accessed : (pd vpage : ℕ) → Memory → Bool
pagedir_is_accessed pd vpage m = elim (find_pte pd vpage m) [
  | none ↦ false
  | some at ↦ (m.tables at.0 at.1).accessed
]

unfoldable pub pagedir_set_accessed : (pd vpage : ℕ) (accessed : Bool) → Memory → Memory
unfolding invalidate_pagedir
pagedir_set_accessed pd vpage accessed m = elim (find_pte pd vpage m) [
  | none ↦ m
  | some at ↦
      let set = set_pte at.0 at.1 (record (m.tables at.0 at.1) { accessed = accessed }) m in
      if accessed then set else invalidate_pagedir pd set
]
