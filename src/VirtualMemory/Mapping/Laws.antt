-- ===== src/VirtualMemory/Mapping/Laws.antt =====
-- Mapping a file and unmapping it: `sys_mmap` and `sys_munmap` of virtual-memory/userprog/syscall.c.
use cs124_my_pintos.Common.{
  ℕ, zero, suc, ◌+◌, ◌*◌, ◌%◌, ◌≤◌, ◌<◌, ◌≡◌, refl, sym, ap, ◌∙◌, inl, inr, Bool, true, false, not,
  ◌||◌, Option, none, some, List, [], ◌∷◌, ◌++◌, ◌==◌, ℤ, pos, negsuc, arith, Bool-cases,
  append_assoc, append-nil,
}
use cs124_my_pintos.UserPrograms.Segment.{pg_size, u32}
use cs124_my_pintos.VirtualMemory.Page.{Page, Process, find_upage, page_in_table}
use cs124_my_pintos.VirtualMemory.Page.Laws.{
  file_page, find_upage-append, append_pages, page_set_file-append,
}
use cs124_my_pintos.VirtualMemory.Mapping.{
  upage_at, num_pages, any_in_table, set_file_loop, Mapper, mmap_fd, sys_mmap,
}
use cs124_my_pintos.UserPrograms.Descriptors.{next_fd, create_fd, fd_to_file}
use cs124_my_pintos.UserPrograms.Syscall.{returned}
use cs124_my_pintos.VirtualMemory.Swap.{SwapBlock}
use cs124_my_pintos.VirtualMemory.Fetch.{Files, eq_off}

-- The pages that a mapping enters.
abbrev pub mapped_pages : (n i pd addr f : ℕ) → List Page
mapped_pages zero i pd addr f = []
mapped_pages (suc n) i pd addr f =
    file_page pd (upage_at addr i) f (pos (i * pg_size)) ∷ mapped_pages n (suc i) pd addr f

-- The addresses of the pages from `i` on have no page in the table.
abbrev pub IsUnmapped : (n i addr : ℕ) → List Page → Type 0
IsUnmapped zero i addr ps = Unit
IsUnmapped (suc n) i addr ps =
    (find_upage (upage_at addr i) ps ≡ none) × IsUnmapped n (suc i) addr ps

any_in_table-IsUnmapped :
    (n i addr : ℕ) (p : Process)
    → IsUnmapped n i addr p.sup_page_table
    → any_in_table n i addr p ≡ false
unfolding any_in_table page_in_table
any_in_table-IsUnmapped zero i addr p h = refl
any_in_table-IsUnmapped (suc n) i addr p (e, h) =
    let out : page_in_table (upage_at addr i) p ≡ false = elim (Bool-cases (upage_at addr i == 0)) [
      | inl c ↦ rw (page_in_table, c) refl
      | inr c ↦ rw (page_in_table, c, e) refl
    ] in
    rw (any_in_table, out) (any_in_table-IsUnmapped n (suc i) addr p h)

pub IsUnmapped-append :
    (n i addr : ℕ) (p : Page) (ps : List Page)
    → find_upage p.upage ps ≡ none
    → ((j : ℕ) → i ≤ j → j < i + n → (p.upage == upage_at addr j) ≡ false)
    → IsUnmapped n i addr ps
    → IsUnmapped n i addr (ps ++ (p ∷ []))
IsUnmapped-append zero i addr p ps e d h = tt
IsUnmapped-append (suc n) i addr p ps e d (u, h) =
    let b = d i (omega arith) (omega arith) in
    (
      find_upage-append p.upage (upage_at addr i) p ps e refl ∙ rw b u,
      IsUnmapped-append n (suc i) addr p ps e (λ j l m. d j (omega arith) (omega arith)) h,
    )

pub upage_at-distinct :
    (addr i j : ℕ)
    → addr + (i + 1) * pg_size ≤ u32
    → addr + (j + 1) * pg_size ≤ u32
    → i < j
    → (upage_at addr i == upage_at addr j) ≡ false
upage_at-distinct addr i j h k l =
    let a : (addr + i * pg_size) % u32 ≡ addr + i * pg_size = omega arith in
    let b : (addr + j * pg_size) % u32 ≡ addr + j * pg_size = omega arith in
    let c : addr + i * pg_size < addr + j * pg_size = omega arith in rw (a, b) (ground arith)

set_file_loop-mapped_pages :
    (n i addr f : ℕ) (p : Process)
    → addr + (i + n) * pg_size ≤ u32
    → IsUnmapped n i addr p.sup_page_table
    → set_file_loop (λ k. true) n i addr f p
      ≡ (true, append_pages (mapped_pages n i p.pagedir addr f) p)
unfolding set_file_loop
set_file_loop-mapped_pages zero i addr f p l h =
    ap (λ ps. (true, record p { sup_page_table = ps })) (sym (append-nil p.sup_page_table))
set_file_loop-mapped_pages (suc n) i addr f p l (e, h) =
    let page = file_page p.pagedir (upage_at addr i) f (pos (i * pg_size)) in
    let first = page_set_file-append (upage_at addr i) f (pos (i * pg_size)) p e in
    let apart : (j : ℕ) → suc i ≤ j → j < suc i + n → (upage_at addr i == upage_at addr j) ≡ false =
      λ j a b. upage_at-distinct addr i j (omega arith) (omega arith) a in
    let later =
      set_file_loop-mapped_pages n (suc i) addr f (append_pages (page ∷ []) p) (omega arith)
        (IsUnmapped-append n (suc i) addr page p.sup_page_table e apart h) in
    rw (set_file_loop, first)
      (later
        ∙ ap (λ ps. (true, record p { sup_page_table = ps }))
            (append_assoc p.sup_page_table (page ∷ []) (mapped_pages n (suc i) p.pagedir addr f)))

num_pages-nonzero : (l : ℤ) → 0 < num_pages l → eq_off l (pos 0) ≡ false
num_pages-nonzero (pos n) h = ground arith
num_pages-nonzero (negsuc n) h = ground arith

module _ {Sector : Type 0} (block : SwapBlock Sector) (files : Files Sector)
    (file_reopen : files.Fs → ℕ → Option ℕ × files.Fs) (file_close : files.Fs → ℕ → files.Fs) where
  abbrev State : Type 0
  State = Mapper block files file_reopen file_close

  -- After the mapping of `n` pages of the file `g` at `addr`.
  abbrev pub mapped_state : (n addr g : ℕ) → files.Fs → State → State
  mapped_state n addr g fs s = record s {
    files_open = record { fd = next_fd s.files_open; file = g; mapped = true } ∷ s.files_open;
    fs = fs;
    vm = record s.vm {
      process = append_pages (mapped_pages n 0 s.vm.process.pagedir addr g) s.vm.process;
    };
  }

  abbrev pub pages_of : (file : ℕ) → State → ℕ
  pages_of file s = num_pages (files.file_length s.fs file)

  mmap-steps :
      (f g fd addr : ℕ) (p : Process) (s : State)
      → 1 < fd
      → 0 < addr
      → addr % pg_size ≡ 0
      → fd_to_file fd s.files_open ≡ some f
      → eq_off (files.file_length s.fs f) (pos 0) ≡ false
      → any_in_table (pages_of f s) 0 addr s.vm.process ≡ false
      → (file_reopen s.fs f).0 ≡ some g
      → set_file_loop (λ k. true) (pages_of f s) 0 addr g s.vm.process ≡ (true, p)
      → sys_mmap block files file_reopen file_close (λ k. true) fd addr s
        ≡ mmap_fd block files file_reopen file_close true g
            (record s { fs = (file_reopen s.fs f).1; vm = record s.vm { process = p } })
  unfolding sys_mmap
  mmap-steps f g fd addr p s l a al e z h r d =
      let c : ((fd == 0) || (fd == 1) || (addr == 0) || not (addr % pg_size == 0)) ≡ false =
        ground arith in
      let done = ap (λ (x : Bool × Process). x.0) d in
      let table = ap (λ (x : Bool × Process). x.1) d in
      rw (sys_mmap, c, e, z, h, r, done, table) refl

  -- With memory, `sys_mmap` of an open descriptor from 2 up, at an aligned address other than 0,
  -- of a file that has pages, can be reopened and fits in the address space where the table has no
  -- page, returns the next descriptor; it enters a page for each page of the file, each with its
  -- place in the reopened file, and the descriptor, and changes nothing else.
  pub sys_mmap-mapped :
      (f g fd addr : ℕ) (s : State)
      → 1 < fd
      → 0 < addr
      → addr % pg_size ≡ 0
      → fd_to_file fd s.files_open ≡ some f
      → 0 < pages_of f s
      → addr + pages_of f s * pg_size ≤ u32
      → IsUnmapped (pages_of f s) 0 addr s.vm.process.sup_page_table
      → (file_reopen s.fs f).0 ≡ some g
      → sys_mmap block files file_reopen file_close (λ k. true) fd addr s
        ≡ returned
            (next_fd s.files_open)
            (mapped_state (pages_of f s) addr g (file_reopen s.fs f).1 s)
  unfolding mmap_fd create_fd
  sys_mmap-mapped f g fd addr s l a al e some_ fits h r =
      let n = pages_of f s in
      mmap-steps f g fd addr
        (append_pages (mapped_pages n 0 s.vm.process.pagedir addr g) s.vm.process) s l a al e
        (num_pages-nonzero (files.file_length s.fs f) some_)
        (any_in_table-IsUnmapped n 0 addr s.vm.process h) r
        (set_file_loop-mapped_pages n 0 addr g s.vm.process (omega arith) h)
