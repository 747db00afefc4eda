-- ===== src/VirtualMemory/Fetch.antt =====
-- virtual-memory/vm/page.c: `page_write_data`, `page_fetch` and `page_unmap`, which move a page's data
-- between its frame, the swap and its file. The files are an interface, since the directory
-- virtual-memory has no file system. A page of user memory is read and written through the page
-- directory of the current thread. `none` is a failed assertion, an access through NULL or an access
-- to a page that is not mapped.
pub mod Refuse
pub mod Load
pub mod Unmap
mod Tests
use cs124_my_pintos.Common.{
  ℕ, zero, suc, ◌+◌, ◌-◌, ◌%◌, Bool, true, false, not, ◌&&◌, ◌||◌, Option, none, some, ◌==◌, length,
  if◌then◌else◌, ℤ, pos_part, neg_part,
}
use cs124_my_pintos.UserPrograms.Segment.{pg_size, is_user_vaddr}
use cs124_my_pintos.VirtualMemory.Swap.{SwapBlock, SwapSlot, Swap, swap_in}
use cs124_my_pintos.VirtualMemory.Pagedir.{
  Memory, pagedir_get_page, pagedir_is_dirty, pagedir_set_dirty,
}
use cs124_my_pintos.VirtualMemory.Page.{
  Page, Process, find_upage, find_file, page_in_table, page_set_frame, page_is_writable,
  page_remove, file_size_in_page, stack_growth,
}
use cs124_my_pintos.VirtualMemory.Frame.{Vm, frame_alloc}

-- The files that hold pages: `Fs` is their state. A read gives the page afterwards and the number of
-- bytes read.
pub record Files (Sector : Type 0) : Type 1 where
  pub Fs : Type 0
  pub file_length : Fs → (file : ℕ) → ℤ
  pub file_read_at : Fs → (file : ℕ) (page : ℕ → Sector) (size off : ℤ) → (ℕ → Sector) × ℤ
  pub file_write_at : Fs → (file : ℕ) (page : ℕ → Sector) (size off : ℤ) → Fs

abbrev pub pg_round_down : ℕ → ℕ
pg_round_down va = va - va % pg_size

-- `==` of two values of type off_t
abbrev pub eq_off : ℤ → ℤ → Bool
eq_off a b = pos_part a + neg_part b == pos_part b + neg_part a

module _ {Sector : Type 0} (block : SwapBlock Sector) (files : Files Sector) where
  abbrev pub set_ram : (kpage : ℕ) (page : ℕ → Sector) → Vm block → Vm block
  set_ram kpage page s = record s { ram = λ k. if k == kpage then page else s.ram k }

  abbrev pub set_clean : (pd upage : ℕ) → Vm block → Vm block
  set_clean pd upage s = record s {
    process = record s.process { memory = pagedir_set_dirty pd upage false s.process.memory };
  }

  unfoldable pub write_file_page :
      (upage file : ℕ) → Page → files.Fs → Vm block → Option (Bool × Vm block)
  write_file_page upage file p fs s = elim (file_size_in_page (files.file_length fs) p) [
    | none ↦ none
    | some size ↦ elim (pagedir_get_page s.process.pagedir upage s.process.memory) [
      | none ↦ none
      | some none ↦ none
      | some (some kpage) ↦
          let (page, bytes_read) = files.file_read_at fs file (s.ram kpage) size p.off in
          some (eq_off bytes_read size, set_clean p.pd upage (set_ram kpage page s))
    ]
  ]

  unfoldable pub write_swap_page :
      (upage : ℕ) → SwapSlot → Page → Vm block → Option (Bool × Vm block)
  unfolding swap_in
  write_swap_page upage ss p s = elim p.frame [
    | none ↦ none
    | some frame ↦
        let (page, swap) = swap_in block ss (s.ram frame) s.swap in
        some (true, set_clean p.pd upage (set_ram frame page (record s { swap = swap })))
  ]

  unfoldable pub page_write_data : (upage : ℕ) → files.Fs → Vm block → Option (Bool × Vm block)
  page_write_data upage fs s = elim (find_upage upage s.process.sup_page_table) [
    | none ↦ some (false, s)
    | some p ↦ elim p.file [
      | some file ↦ write_file_page upage file p fs s
      | none ↦ elim p.ss [ some ss ↦ write_swap_page upage ss p s | none ↦ some (false, s) ]
    ]
  ]

  module _ (init_page_dir init_ram_pages : ℕ) (new : Option ℕ) (memory : Bool) where
    -- `frame_alloc` and `page_set_frame`, as both branches of `page_fetch` call them.
    unfoldable pub alloc_page : (page : ℕ) → Vm block → Option (Vm block)
    alloc_page page s = elim (frame_alloc block init_page_dir init_ram_pages new page true s) [
      | none ↦ none
      | some (kpage, t) ↦ elim (page_set_frame memory page kpage true t.process) [
        | none ↦ none
        | some p ↦ some (record t { process = p })
      ]
    ]

    -- `new` and `memory` are what the allocators of the kernel have for a page table and for a page
    -- of the supplemental table; an `esp` of 0 is NULL.
    unfoldable pub page_fetch :
        (uaddr esp : ℕ) (write : Bool) → files.Fs → Vm block → Option (Bool × Vm block)
    page_fetch uaddr esp write fs s =
        let page = pg_round_down uaddr in
        if not (is_user_vaddr uaddr)
        then some (false, s)
        else if not (page_in_table page s.process)
        then (if esp == 0
            then some (false, s)
            else if stack_growth uaddr esp
            then elim (alloc_page page s) [ none ↦ none | some t ↦ some (true, t) ]
            else some (false, s))
        else elim (page_is_writable page s.process) [
          | none ↦ none
          | some writable ↦
              if write && not writable then some (false, s) else elim (alloc_page page s) [
                | none ↦ none
                | some t ↦ elim (page_write_data page fs t) [
                  | none ↦ none
                  | some r ↦ some (true, r.1)
                ]
              ]
        ]

  -- The body of the loop of `page_unmap` for the page `p` of the file: the files afterwards.
  unfoldable pub write_back : (f : ℕ) → Page → files.Fs → Vm block → Option files.Fs
  write_back f p fs s =
      if pagedir_is_dirty p.pd p.upage s.process.memory
      then elim (file_size_in_page (files.file_length fs) p) [
        | none ↦ none
        | some size ↦ elim (pagedir_get_page s.process.pagedir p.upage s.process.memory) [
          | none ↦ none
          | some none ↦ none
          | some (some kpage) ↦ some (files.file_write_at fs f (s.ram kpage) size p.off)
        ]
      ]
      else some fs

  unfoldable pub unmap_loop :
      (fuel : ℕ) (f : ℕ) → files.Fs → Vm block → Option (files.Fs × Vm block)
  unmap_loop zero f fs s = none
  unmap_loop (suc fuel) f fs s = elim (find_file f s.process.sup_page_table) [
    | none ↦ some (fs, s)
    | some p ↦ elim (write_back f p fs s) [
      | none ↦ none
      | some gs ↦ elim (page_remove p.upage s.process) [
        | none ↦ none
        | some q ↦ unmap_loop fuel f gs (record s { process = q })
      ]
    ]
  ]

  -- Each round takes a page from the table, so that its length is enough fuel.
  unfoldable pub page_unmap : (f : ℕ) → files.Fs → Vm block → Option (files.Fs × Vm block)
  page_unmap f fs s = unmap_loop (suc (length s.process.sup_page_table)) f fs s
