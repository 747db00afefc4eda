-- ===== src/VirtualMemory/Mapping/Undo.antt =====
-- Unmapping a file after mapping it: `sys_mmap` and `sys_munmap` of virtual-memory/userprog/syscall.c.
use cs124_my_pintos.Common.{
  ◌||◌, leb, ◌^◌, ℕ, zero, suc, ◌+◌, ◌*◌, ◌%◌, ◌≤◌, ◌<◌, ◌≡◌, refl, sym, ap, ◌∙◌, subst, inl, inr,
  true, false, Option, none, some, List, [], ◌∷◌, ◌++◌, ◌==◌, ltb, pos, arith, Bool-cases,
  append_assoc, append-nil, All,
}
use cs124_my_pintos.UserPrograms.Segment.{pg_size, u32, phys_base}
use cs124_my_pintos.UserPrograms.Descriptors.{
  FileStore, min_user_fd, next_fd, fd_to_file, fd_to_file_store, store_loop, list_remove, remove_fd,
}
use cs124_my_pintos.UserPrograms.Syscall.{returned}
use cs124_my_pintos.VirtualMemory.Swap.{SwapBlock}
use cs124_my_pintos.VirtualMemory.Pagedir.{Memory, pagedir_is_dirty}
use cs124_my_pintos.VirtualMemory.Page.{Page, find_page, match_upage, find_upage, match_file}
use cs124_my_pintos.VirtualMemory.Page.Laws.{file_page, find_upage-append}
use cs124_my_pintos.VirtualMemory.Frame.{Vm}
use cs124_my_pintos.VirtualMemory.Fetch.{Files, page_unmap}
use cs124_my_pintos.VirtualMemory.Fetch.Unmap.{
  without, IsUnique, IsUser, IsClean, with_table, page_unmap-without,
}
use cs124_my_pintos.VirtualMemory.Mapping.{upage_at, Mapper, sys_mmap, sys_munmap}
use cs124_my_pintos.VirtualMemory.Mapping.Laws.{
  mapped_pages, IsUnmapped, IsUnmapped-append, upage_at-distinct, mapped_state, pages_of,
  sys_mmap-mapped,
}

All-append : (P : Page → Type 0) (xs ys : List Page) → All P xs → All P ys → All P (xs ++ ys)
All-append P [] ys a b = b
All-append P (x ∷ xs) ys (a, as_) b = (a, All-append P xs ys as_ b)

IsUnique-append :
    (p : Page) (ps : List Page)
    → find_upage p.upage ps ≡ none
    → IsUnique ps
    → IsUnique (ps ++ (p ∷ []))
unfolding find_upage find_page match_upage
IsUnique-append p [] e u = (refl, tt)
IsUnique-append p (q ∷ qs) e (h, u) = elim (Bool-cases (q.upage == p.upage)) [
  | inl b ↦ (let n = rw b at e in cc)
  | inr b ↦
      let c : (p.upage == q.upage) ≡ false = ground arith in
      let n = rw b at e in
      (find_upage-append p.upage q.upage p qs n refl ∙ rw c h, IsUnique-append p qs n u)
]

mapped_pages-IsUnique :
    (n i pd addr g : ℕ) (ps : List Page)
    → addr + (i + n) * pg_size ≤ u32
    → IsUnmapped n i addr ps
    → IsUnique ps
    → IsUnique (ps ++ mapped_pages n i pd addr g)
mapped_pages-IsUnique zero i pd addr g ps l h u = subst IsUnique (sym (append-nil ps)) u
mapped_pages-IsUnique (suc n) i pd addr g ps l (e, h) u =
    let page = file_page pd (upage_at addr i) g (pos (i * pg_size)) in
    let apart : (j : ℕ) → suc i ≤ j → j < suc i + n → (upage_at addr i == upage_at addr j) ≡ false =
      λ j a b. upage_at-distinct addr i j (omega arith) (omega arith) a in
    subst IsUnique (append_assoc ps (page ∷ []) (mapped_pages n (suc i) pd addr g)) (
      mapped_pages-IsUnique n (suc i) pd addr g (ps ++ (page ∷ [])) (omega arith)
        (IsUnmapped-append n (suc i) addr page ps e apart h) (IsUnique-append page ps e u))

mapped_pages-IsUser :
    (n i pd addr g : ℕ)
    → addr % pg_size ≡ 0
    → addr + (i + n) * pg_size ≤ phys_base
    → All IsUser (mapped_pages n i pd addr g)
mapped_pages-IsUser zero i pd addr g al l = tt
mapped_pages-IsUser (suc n) i pd addr g al l =
    let a : (addr + i * pg_size) % u32 ≡ addr + i * pg_size = omega arith in
    (
      (rw a (omega arith), rw a (omega arith)),
      mapped_pages-IsUser n (suc i) pd addr g al (omega arith),
    )

mapped_pages-IsClean :
    (n i pd addr g : ℕ) (m : Memory)
    → ((j : ℕ) → i ≤ j → j < i + n → pagedir_is_dirty pd (upage_at addr j) m ≡ false)
    → All (IsClean g m) (mapped_pages n i pd addr g)
mapped_pages-IsClean zero i pd addr g m d = tt
mapped_pages-IsClean (suc n) i pd addr g m d = (
  λ h. d i (omega arith) (omega arith),
  mapped_pages-IsClean n (suc i) pd addr g m (λ j l k. d j (omega arith) (omega arith)),
)

-- The page is of another file or of none.
abbrev pub IsOther : (file : ℕ) → Page → Type 0
IsOther file p = match_file file p ≡ false

IsOther-IsClean : (g : ℕ) (m : Memory) (ps : List Page) → All (IsOther g) ps → All (IsClean g m) ps
IsOther-IsClean g m [] a = tt
IsOther-IsClean g m (p ∷ ps) (a, as_) = (λ h. (let n = a in cc), IsOther-IsClean g m ps as_)

without-mapped_pages : (n i pd addr g : ℕ) → without g (mapped_pages n i pd addr g) ≡ []
unfolding match_file
without-mapped_pages zero i pd addr g = refl
without-mapped_pages (suc n) i pd addr g =
    let b : (g == g) ≡ true = ground arith in rw b (without-mapped_pages n (suc i) pd addr g)

without-append :
    (g : ℕ) (ps qs : List Page) → All (IsOther g) ps → without g qs ≡ [] → without g (ps ++ qs) ≡ ps
without-append g [] qs a e = e
without-append g (p ∷ ps) qs (b, a) e = rw b (ap (λ xs. p ∷ xs) (without-append g ps qs a e))

fd_to_file-head :
    (fd g : ℕ) (rest : List FileStore)
    → 1 < fd
    → fd < 2 ^ 31
    → let t = record { fd = fd; file = g; mapped = true } ∷ rest in
      (fd_to_file fd t ≡ some g) × ((remove_fd fd t).1 ≡ rest)
unfolding fd_to_file remove_fd fd_to_file_store store_loop list_remove
fd_to_file-head fd g rest l k =
    let c : (ltb fd min_user_fd || leb (2 ^ 31) fd) ≡ false = ground arith in
    let b : (fd == fd) ≡ true = ground arith in
    (
      rw (fd_to_file, fd_to_file_store, c, store_loop, b) refl,
      rw (remove_fd, fd_to_file_store, c, store_loop, b, list_remove, b) refl,
    )

module _ {Sector : Type 0} (block : SwapBlock Sector) (files : Files Sector)
    (file_reopen : files.Fs → ℕ → Option ℕ × files.Fs) (file_close : files.Fs → ℕ → files.Fs) where
  munmap-steps :
      (mapping g : ℕ) (t : Mapper block files file_reopen file_close) (gs : files.Fs) (v : Vm block)
      (files_open : List FileStore)
      → fd_to_file mapping t.files_open ≡ some g
      → page_unmap block files g t.fs t.vm ≡ some (gs, v)
      → (remove_fd mapping t.files_open).1 ≡ files_open
      → sys_munmap block files file_reopen file_close mapping t
        ≡ returned tt (record t { fs = file_close gs g; vm = v; files_open = files_open })
  unfolding sys_munmap
  munmap-steps mapping g t gs v files_open e w r = rw (sys_munmap, e, w, r) refl

  -- With memory, `sys_mmap` of an open descriptor from 2 up, at an aligned address other than 0,
  -- of a file that has pages, can be reopened and fits below PHYS_BASE where the table has no
  -- page, returns a descriptor; `sys_munmap` of that descriptor then closes the reopened file and
  -- restores the table, the descriptors, the frames and the swap, if the pages of the table are at
  -- distinct, aligned addresses of user memory and of other files, no page of the mapping is
  -- dirty, and the next descriptor is from 2 up and positive as an int.
  pub sys_munmap-sys_mmap :
      (f g fd addr : ℕ) (s : Mapper block files file_reopen file_close)
      → let n = pages_of block files file_reopen file_close f s in
        let p = s.vm.process in
        let gs = (file_reopen s.fs f).1 in
        1 < fd
        → 0 < addr
        → addr % pg_size ≡ 0
        → fd_to_file fd s.files_open ≡ some f
        → 1 < next_fd s.files_open
        → next_fd s.files_open < 2 ^ 31
        → 0 < n
        → addr + n * pg_size ≤ phys_base
        → IsUnmapped n 0 addr p.sup_page_table
        → (file_reopen s.fs f).0 ≡ some g
        → IsUnique p.sup_page_table
        → All IsUser p.sup_page_table
        → All (IsOther g) p.sup_page_table
        → ((j : ℕ) → 0 ≤ j → j < n → pagedir_is_dirty p.pagedir (upage_at addr j) p.memory ≡ false)
        → (id : ℕ) × (t : Mapper block files file_reopen file_close) × (m : Memory) × (sys_mmap
              block files file_reopen file_close
              (λ k. true)
              fd
              addr
              s
            ≡ returned id t)
          × (sys_munmap block files file_reopen file_close id t
              ≡ returned tt (record s {
                fs = file_close gs g;
                vm = with_table block files p.sup_page_table m s.vm;
              }))
  sys_munmap-sys_mmap f g fd addr s l a al e next word some_ fits h r u us os d =
      let n = pages_of block files file_reopen file_close f s in
      let p = s.vm.process in
      let ps = p.sup_page_table in
      let ms = mapped_pages n 0 p.pagedir addr g in
      let gs = (file_reopen s.fs f).1 in
      let t = mapped_state block files file_reopen file_close n addr g gs s in
      let (m, gone) =
        page_unmap-without block files g gs t.vm
          (mapped_pages-IsUnique n 0 p.pagedir addr g ps (omega arith) h u)
          (All-append IsUser ps ms us (mapped_pages-IsUser n 0 p.pagedir addr g al (omega arith)))
          (All-append (IsClean g p.memory) ps ms (IsOther-IsClean g p.memory ps os)
            (mapped_pages-IsClean n 0 p.pagedir addr g p.memory (λ j i k. d j i (omega arith)))) in
      let kept = without-append g ps ms os (without-mapped_pages n 0 p.pagedir addr g) in
      let (found, closed) = fd_to_file-head (next_fd s.files_open) g s.files_open next word in
      (
        next_fd s.files_open,
        t,
        m,
        sys_mmap-mapped block files file_reopen file_close f g fd addr s l a al e some_
            (omega arith) h r,
        munmap-steps (next_fd s.files_open) g t gs (with_table block files ps m s.vm) s.files_open
            found (gone ∙ ap (λ xs. some (gs, with_table block files xs m s.vm)) kept) closed,
      )
