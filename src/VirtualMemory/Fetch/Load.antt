-- ===== src/VirtualMemory/Fetch/Load.antt =====
-- `page_fetch` of vm/page.c for a page of a file.
use cs124_my_pintos.Common.{
  ℕ, ◌+◌, ◌-◌, ◌/◌, ◌%◌, ◌^◌, ◌<◌, ◌≡◌, ◌≢◌, refl, ◌∙◌, ap, Bool, true, false, Option, none, some,
  List, ℤ, ◌≤◌, arith, ◌==◌, length, get_elem?, set, inl, inr, Bool-cases,
}
use cs124_my_pintos.UserPrograms.Segment.{phys_base, is_user_vaddr}
use cs124_my_pintos.VirtualMemory.Swap.{SwapBlock}
use cs124_my_pintos.VirtualMemory.Pagedir.{pagedir_get_page}
use cs124_my_pintos.VirtualMemory.Pagedir.Fields.{pagedir_get_page-pagedir_set_dirty}
use cs124_my_pintos.VirtualMemory.Page.{
  Page, Process, find_upage, page_in_table, page_set_frame, page_is_writable, file_size_in_page,
  update_page, activate,
}
use cs124_my_pintos.VirtualMemory.Page.Laws.{find_upage-update_page}
use cs124_my_pintos.VirtualMemory.Frame.{Frame, Vm, step_frame, frame_alloc}
use cs124_my_pintos.VirtualMemory.Frame.Alloc.{unused, frame_alloc-maps}
use cs124_my_pintos.VirtualMemory.Fetch.{
  Files, pg_round_down, page_write_data, write_file_page, eq_off, page_fetch, alloc_page, set_ram,
  set_clean,
}

-- The page of an address has the address in it, at its offset.
pg_round_down_lem :
    (uaddr : ℕ)
    → (pg_round_down uaddr % 2 ^ 12 ≡ 0) × (uaddr / 2 ^ 12 ≡ pg_round_down uaddr / 2 ^ 12)
pg_round_down_lem uaddr = (omega arith, omega arith)

page_set_frame-writable :
    (memory : Bool) (upage kpage : ℕ) (p : Page) (s : Process)
    → find_upage upage s.sup_page_table ≡ some p
    → p.writable ≡ true
    → page_set_frame memory upage kpage true s
      ≡ some (record s { sup_page_table = update_page upage (activate kpage) s.sup_page_table })
unfolding page_set_frame
page_set_frame-writable memory upage kpage p s e w = rw (page_set_frame, e, w) refl

find_upage-activate :
    (upage kpage : ℕ) (p : Page) (ps : List Page)
    → find_upage upage ps ≡ some p
    → find_upage upage (update_page upage (activate kpage) ps) ≡ some (activate kpage p)
unfolding activate
find_upage-activate upage kpage p ps e =
    let k : (upage == upage) ≡ true = ground arith in
    let changed = find_upage-update_page upage upage (activate kpage) ps (λ q. refl) in
    rw (k, e) at changed

module _ {Sector : Type 0} (block : SwapBlock Sector) (files : Files Sector) where
  -- What fetching the page `p` of a file into the frame `kpage` leaves.
  abbrev pub Loaded :
      (fsys : files.Fs) (s t : Vm block) (p : Page) (file kpage : ℕ) (size : ℤ) → Type 0
  Loaded fsys s t p file kpage size =
      (t.ram kpage ≡ (files.file_read_at fsys file (s.ram kpage) size p.off).0)
      × ((k i : ℕ) → k ≢ kpage → t.ram k i ≡ s.ram k i)
      × (t.swap ≡ s.swap)

  write_file_page-Loaded :
      (upage kpage file : ℕ) (size : ℤ) (p : Page) (fsys : files.Fs) (s : Vm block)
      → file_size_in_page (files.file_length fsys) p ≡ some size
      → pagedir_get_page s.process.pagedir upage s.process.memory ≡ some (some kpage)
      → (t : Vm block) × (done : Bool) × (write_file_page block files upage file
            (activate kpage p)
            fsys
            s
          ≡ some (done, t))
        × Loaded fsys s t p file kpage size
        × ((uaddr : ℕ)
            → pagedir_get_page s.process.pagedir uaddr t.process.memory
              ≡ pagedir_get_page s.process.pagedir uaddr s.process.memory)
        × (t.process.sup_page_table ≡ s.process.sup_page_table)
  unfolding write_file_page activate file_size_in_page
  write_file_page-Loaded upage kpage file size p fsys s e g =
      let r = files.file_read_at fsys file (s.ram kpage) size p.off in
      let self : (kpage == kpage) ≡ true = ground arith in
      (
        set_clean block files p.pd upage (set_ram block files kpage r.0 s),
        eq_off r.1 size,
        rw (write_file_page, e, g) refl,
        (rw self refl, λ k i n. let e : (k == kpage) ≡ false = ground arith in rw e refl, refl),
        λ uaddr.
            pagedir_get_page-pagedir_set_dirty s.process.pagedir uaddr p.pd upage s.process.memory,
        refl,
      )

  page_fetch-in_table :
      (ipd irp uaddr esp : ℕ) (new : Option ℕ) (memory write : Bool) (fs : files.Fs)
      (s a t : Vm block) (done : Bool)
      → is_user_vaddr uaddr ≡ true
      → page_in_table (pg_round_down uaddr) s.process ≡ true
      → page_is_writable (pg_round_down uaddr) s.process ≡ some true
      → alloc_page block files ipd irp new memory (pg_round_down uaddr) s ≡ some a
      → page_write_data block files (pg_round_down uaddr) fs a ≡ some (done, t)
      → page_fetch block files ipd irp new memory uaddr esp write fs s ≡ some (true, t)
  unfolding page_fetch
  page_fetch-in_table ipd irp uaddr esp new memory write fs s a t done u i w al d =
      elim (Bool-cases write) [
        | inl x ↦ rw (page_fetch, u, i, w, x, al, d) refl
        | inr x ↦ rw (page_fetch, u, i, w, x, al, d) refl
      ]

  alloc_page-set :
      (ipd irp page kpage : ℕ) (new : Option ℕ) (memory : Bool) (s a : Vm block) (q : Process)
      → frame_alloc block ipd irp new page true s ≡ some (kpage, a)
      → page_set_frame memory page kpage true a.process ≡ some q
      → alloc_page block files ipd irp new memory page s ≡ some (record a { process = q })
  unfolding alloc_page
  alloc_page-set ipd irp page kpage new memory s a q al st = rw (alloc_page, al, st) refl

  page_write_data-file :
      (page file : ℕ) (p : Page) (fsys : files.Fs) (s : Vm block)
      → find_upage page s.process.sup_page_table ≡ some p
      → p.file ≡ some file
      → page_write_data block files page fsys s ≡ write_file_page block files page file p fsys s
  unfolding page_write_data
  page_write_data-file page file p fsys s e f = simp (page_write_data, e, f)

  -- While a frame was never used, `page_fetch` of an address of user memory whose page is in the
  -- table, writable, of a file and not mapped succeeds, with a page for a page table, if the next
  -- frame is an aligned page of memory from PHYS_BASE on and the directory is not the first one;
  -- the address is then at its place in that frame, the frame holds what the read of the file
  -- gives, the other frames and the swap are unchanged, and the page is active in the frame.
  pub page_fetch-Loaded :
      (init_page_dir init_ram_pages new uaddr esp i file : ℕ) (memory write : Bool) (size : ℤ)
      (fs : List Frame) (f : Frame) (p : Page) (fsys : files.Fs) (s : Vm block)
      → uaddr < phys_base
      → page_in_table (pg_round_down uaddr) s.process ≡ true
      → find_upage (pg_round_down uaddr) s.process.sup_page_table ≡ some p
      → p.file ≡ some file
      → file_size_in_page (files.file_length fsys) p ≡ some size
      → p.writable ≡ true
      → i < length fs
      → get_elem? fs i ≡ some f
      → f.kpage % 2 ^ 12 ≡ 0
      → phys_base ≤ f.kpage
      → (f.kpage - phys_base) / 2 ^ 12 < init_ram_pages
      → s.process.pagedir ≢ init_page_dir
      → pagedir_get_page s.process.pagedir (pg_round_down uaddr) s.process.memory ≡ some none
      → (t : Vm block) × (page_fetch block files init_page_dir init_ram_pages
            (some new)
            memory
            uaddr
            esp
            write
            fsys
            (record s { frames = unused fs i })
          ≡ some (true, t))
        × (pagedir_get_page s.process.pagedir uaddr t.process.memory
            ≡ some (some (f.kpage + uaddr % 2 ^ 12)))
        × Loaded fsys s t p file f.kpage size
        × (find_upage (pg_round_down uaddr) t.process.sup_page_table ≡ some (activate f.kpage p))
  unfolding page_is_writable activate
  page_fetch-Loaded ipd irp new uaddr esp i file memory write size fs f p fsys s u inn e pf ps w l
        at ka kernel kr ne un =
      let page = pg_round_down uaddr in
      let (al, same) = pg_round_down_lem uaddr in
      let (m, alloc, found) =
        frame_alloc-maps block ipd irp new page i true fs f s l at al ka (omega arith) kernel kr ne
          un in
      let us : is_user_vaddr uaddr ≡ true = ground arith in
      let set_page =
        page_set_frame-writable memory page f.kpage p (record s.process { memory = m }) e w in
      let now = find_upage-activate page f.kpage p s.process.sup_page_table e in
      let q = record s.process {
        memory = m;
        sup_page_table = update_page page (activate f.kpage) s.process.sup_page_table;
      } in
      let owned = record (step_frame block (unused fs i)) {
        frame_table = set fs i (record f { pd = some s.process.pagedir; upage = page });
      } in
      let a = record s { frames = owned; process = q } in
      let start = record s { frames = unused fs i } in
      let given =
        alloc_page-set ipd irp page f.kpage (some new) memory start
          (record s { frames = owned; process = record s.process { memory = m } }) q alloc
          set_page in
      let start_of : f.kpage + page % 2 ^ 12 ≡ f.kpage = omega arith in
      let (t, done, written, loaded, mapped, table) =
        write_file_page-Loaded page f.kpage file size p fsys a ps
          (found page refl ∙ ap (λ k. some (some k)) start_of) in
      let filled = page_write_data-file page file (activate f.kpage p) fsys a now pf ∙ written in
      (
        t,
        page_fetch-in_table ipd irp uaddr esp (some new) memory write fsys start a t done us inn
            (rw (page_is_writable, e, w) refl) given filled,
        mapped uaddr ∙ found uaddr same,
        loaded,
        ap (find_upage page) table ∙ now,
      )
