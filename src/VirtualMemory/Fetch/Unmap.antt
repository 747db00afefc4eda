-- ===== src/VirtualMemory/Fetch/Unmap.antt =====
-- The loop of `page_unmap` of vm/page.c over the supplemental page table.
use cs124_my_pintos.Common.{
  ℕ, zero, suc, ◌/◌, ◌%◌, ◌^◌, ◌<◌, ◌≡◌, refl, sym, ◌∙◌, ap, subst, inl, inr, true, false, none,
  some, List, [], ◌∷◌, arith, ◌==◌, if◌then◌else◌, length, All, Bool-cases, Option-cases,
}
use cs124_my_pintos.UserPrograms.Segment.{phys_base, is_user_vaddr}
use cs124_my_pintos.VirtualMemory.Swap.{SwapBlock}
use cs124_my_pintos.VirtualMemory.Pagedir.{Pte, Memory, pagedir_clear_page, pagedir_is_dirty}
use cs124_my_pintos.VirtualMemory.Pagedir.Fields.{entered, entered-directories, entered-field}
use cs124_my_pintos.VirtualMemory.Page.{
  Page, Process, find_page, match_upage, find_upage, match_file, find_file, remove_page,
  page_remove,
}
use cs124_my_pintos.VirtualMemory.Frame.{Vm}
use cs124_my_pintos.VirtualMemory.Fetch.{Files, write_back, unmap_loop, page_unmap}

-- The table without the pages of a file.
abbrev pub without : (file : ℕ) → List Page → List Page
without file [] = []
without file (p ∷ ps) = if match_file file p then without file ps else p ∷ without file ps

-- No two pages have the same address.
abbrev pub IsUnique : List Page → Type 0
IsUnique [] = Unit
IsUnique (p ∷ ps) = (find_upage p.upage ps ≡ none) × IsUnique ps

-- A page that `pagedir_clear_page` accepts.
abbrev pub IsUser : Page → Type 0
IsUser p = (p.upage % 2 ^ 12 ≡ 0) × (p.upage < phys_base)

-- If the page is of the file, it was not written.
abbrev pub IsClean : (file : ℕ) → Memory → Page → Type 0
IsClean file m p = match_file file p ≡ true → pagedir_is_dirty p.pd p.upage m ≡ false

find_file-All :
    (P : Page → Type 0) (file : ℕ) (p : Page) (ps : List Page)
    → find_file file ps ≡ some p
    → All P ps
    → P p × (match_file file p ≡ true)
unfolding find_file find_page
find_file-All P file p [] e a = (let n : true ≡ false = cc in cc)
find_file-All P file p (q ∷ ps) e (a, rest) = elim (Bool-cases (match_file file q)) [
  | inl b ↦ let f = rw b at e in let g : q ≡ p = cc in rw (← g) (a, b)
  | inr b ↦ find_file-All P file p ps (rw b at e) rest
]

remove_page-All : (P : Page → Type 0) (u : ℕ) (ps : List Page) → All P ps → All P (remove_page u ps)
unfolding remove_page
remove_page-All P u [] a = a
remove_page-All P u (q ∷ ps) (a, rest) = elim (Bool-cases (q.upage == u)) [
  | inl b ↦ rw b rest
  | inr b ↦ rw b (a, remove_page-All P u ps rest)
]

find_upage-remove_page :
    (k u : ℕ) (ps : List Page) → find_upage k ps ≡ none → find_upage k (remove_page u ps) ≡ none
unfolding find_upage find_page match_upage remove_page
find_upage-remove_page k u [] e = e
find_upage-remove_page k u (q ∷ ps) e = elim (Bool-cases (q.upage == k)) [
  | inl b ↦ (let n = rw b at e in cc)
  | inr b ↦
      let f = rw b at e in
      elim (Bool-cases (q.upage == u)) [
        | inl c ↦ rw c f
        | inr c ↦ rw (c, b) (find_upage-remove_page k u ps f)
      ]
]

-- What removing the first page of a file does to a table with distinct addresses.
abbrev Removed : (file : ℕ) → Page → List Page → Type 0
Removed file p ps =
    (find_upage p.upage ps ≡ some p)
    × (without file (remove_page p.upage ps) ≡ without file ps)
    × (suc (length (remove_page p.upage ps)) ≡ length ps)
    × IsUnique (remove_page p.upage ps)

find_file-Removed :
    (file : ℕ) (p : Page) (ps : List Page)
    → find_file file ps ≡ some p
    → IsUnique ps
    → Removed file p ps
unfolding find_file find_upage find_page match_upage remove_page
find_file-Removed file p [] e u = (let n : true ≡ false = cc in cc)
find_file-Removed file p (q ∷ ps) e (a, us) = elim (Bool-cases (match_file file q)) [
  | inl b ↦
      let f = rw b at e in
      let g : q ≡ p = cc in
      let k : (q.upage == q.upage) ≡ true = ground arith in
      let here : Removed file q (q ∷ ps) = (rw k refl, rw (k, b) refl, rw k refl, rw k us) in
      subst (λ x. Removed file x (q ∷ ps)) g here
  | inr b ↦
      let (found, kept, len, once) = find_file-Removed file p ps (rw b at e) us in
      let k : (q.upage == p.upage) ≡ false = apart p q ps a found in
      (
        rw k found,
        rw (k, b) (ap (λ xs. q ∷ xs) kept),
        rw k (omega arith),
        rw k (find_upage-remove_page q.upage p.upage ps a, once),
      )
]
  where
    apart :
        (p q : Page) (ps : List Page)
        → find_upage q.upage ps ≡ none
        → find_upage p.upage ps ≡ some p
        → (q.upage == p.upage) ≡ false
    apart p q ps a b = elim (Bool-cases (q.upage == p.upage)) [
      | inr k ↦ k
      | inl k ↦
          let same : q.upage ≡ p.upage = ground arith in
          let n : find_upage p.upage ps ≡ none = subst (λ u. find_upage u ps ≡ none) same a in cc
    ]

pagedir_is_dirty-same :
    (pd u : ℕ) (m n : Memory)
    → ((d i : ℕ) → n.directories d i ≡ m.directories d i)
    → ((t j : ℕ) → (n.tables t j).dirty ≡ (m.tables t j).dirty)
    → pagedir_is_dirty pd u n ≡ pagedir_is_dirty pd u m
unfolding pagedir_is_dirty
pagedir_is_dirty-same pd u m n dirs dirty = elim (Option-cases (m.directories pd (u / 2 ^ 22))) [
  | inl e ↦ rw (pagedir_is_dirty, dirs, e) refl
  | inr (pt, e) ↦ rw (pagedir_is_dirty, dirs, e) (dirty pt (u / 2 ^ 12 % 2 ^ 10))
]

-- `pagedir_clear_page` of an aligned page of user memory, and the dirty bits.
pagedir_clear_page-dirty :
    (pd upage : ℕ) (m : Memory)
    → upage % 2 ^ 12 ≡ 0
    → upage < phys_base
    → (n : Memory) × (pagedir_clear_page pd upage m ≡ some n)
      × ((q u : ℕ) → pagedir_is_dirty q u n ≡ pagedir_is_dirty q u m)
unfolding pagedir_clear_page
pagedir_clear_page-dirty pd upage m h k =
    let a : (upage % 2 ^ 12 == 0) ≡ true = ground arith in
    let b : is_user_vaddr upage ≡ true = ground arith in
    elim (Option-cases (m.directories pd (upage / 2 ^ 22))) [
      | inl e ↦ (m, rw (pagedir_clear_page, a, b, e) refl, λ q u. refl)
      | inr (pt, e) ↦
          let i = upage / 2 ^ 12 % 2 ^ 10 in
          let gone : Pte = record (m.tables pt i) { present = false } in
          elim (Bool-cases (m.tables pt i).present) [
            | inr p ↦ (m, rw (pagedir_clear_page, a, b, e, p) refl, λ q u. refl)
            | inl p ↦ (
              entered pd pt i gone m,
              rw (pagedir_clear_page, a, b, e, p) refl,
              λ q u.
                  pagedir_is_dirty-same q u m (entered pd pt i gone m)
                    (entered-directories pd pt i gone m)
                    (λ t j. entered-field (λ x. x.dirty) pd pt i t j gone m refl),
            )
          ]
    ]

page_remove-dirty :
    (p : Page) (s : Process)
    → find_upage p.upage s.sup_page_table ≡ some p
    → IsUser p
    → (m : Memory) × (page_remove p.upage s
        ≡ some (record s { sup_page_table = remove_page p.upage s.sup_page_table; memory = m }))
      × ((q u : ℕ) → pagedir_is_dirty q u m ≡ pagedir_is_dirty q u s.memory)
unfolding page_remove
page_remove-dirty p s e (h, k) =
    let (m, c, d) = pagedir_clear_page-dirty p.pd p.upage s.memory h k in
    (m, rw (page_remove, e, c) refl, d)

without-none : (file : ℕ) (ps : List Page) → find_file file ps ≡ none → without file ps ≡ ps
unfolding find_file find_page
without-none file [] e = refl
without-none file (p ∷ ps) e = elim (Bool-cases (match_file file p)) [
  | inl b ↦ (let n = rw b at e in cc)
  | inr b ↦ rw b (ap (λ xs. p ∷ xs) (without-none file ps (rw b at e)))
]

All-IsClean :
    (file : ℕ) (m n : Memory) (ps : List Page)
    → ((q u : ℕ) → pagedir_is_dirty q u n ≡ pagedir_is_dirty q u m)
    → All (IsClean file m) ps
    → All (IsClean file n) ps
All-IsClean file m n [] d a = tt
All-IsClean file m n (p ∷ ps) d (a, rest) =
    (λ b. d p.pd p.upage ∙ a b, All-IsClean file m n ps d rest)

module _ {Sector : Type 0} (block : SwapBlock Sector) (files : Files Sector) where
  -- The machine with another supplemental page table and other page directories.
  abbrev pub with_table : List Page → Memory → Vm block → Vm block
  with_table ps m s = record s { process = record s.process { sup_page_table = ps; memory = m } }

  write_back-IsClean :
      (file : ℕ) (p : Page) (fs : files.Fs) (s : Vm block)
      → pagedir_is_dirty p.pd p.upage s.process.memory ≡ false
      → write_back block files file p fs s ≡ some fs
  unfolding write_back
  write_back-IsClean file p fs s d = rw (write_back, d) refl

  unmap_loop-step :
      (fuel file : ℕ) (p : Page) (q : Process) (fs : files.Fs) (s : Vm block)
      → find_file file s.process.sup_page_table ≡ some p
      → write_back block files file p fs s ≡ some fs
      → page_remove p.upage s.process ≡ some q
      → unmap_loop block files (suc fuel) file fs s
        ≡ unmap_loop block files fuel file fs (record s { process = q })
  unfolding unmap_loop
  unmap_loop-step fuel file p q fs s e w r = rw (unmap_loop, e, w, r) refl

  unmap_loop-stop :
      (n file : ℕ) (fs : files.Fs) (s : Vm block)
      → find_file file s.process.sup_page_table ≡ none
      → unmap_loop block files (suc n) file fs s
        ≡ some (fs, with_table (without file s.process.sup_page_table) s.process.memory s)
  unfolding unmap_loop
  unmap_loop-stop n file fs s e =
      let same = without-none file s.process.sup_page_table e in
      rw (unmap_loop, e) (ap (λ xs. some (fs, with_table xs s.process.memory s)) (sym same))

  unmap_loop-without :
      (n file : ℕ) (fs : files.Fs) (s : Vm block)
      → length s.process.sup_page_table < n
      → IsUnique s.process.sup_page_table
      → All IsUser s.process.sup_page_table
      → All (IsClean file s.process.memory) s.process.sup_page_table
      → (m : Memory) × (unmap_loop block files n file fs s
          ≡ some (fs, with_table (without file s.process.sup_page_table) m s))
  unmap_loop-without zero file fs s l u a c = absurd (omega arith)
  unmap_loop-without (suc n) file fs s l u a c =
      let ps = s.process.sup_page_table in
      elim (Option-cases (find_file file ps)) [
        | inl e ↦ (s.process.memory, unmap_loop-stop n file fs s e)
        | inr (p, e) ↦
            let (user, matched) = find_file-All IsUser file p ps e a in
            let (clean, again) = find_file-All (IsClean file s.process.memory) file p ps e c in
            let (found, kept, len, once) = find_file-Removed file p ps e u in
            let (m, gone, dirty) = page_remove-dirty p s.process found user in
            let t = with_table (remove_page p.upage ps) m s in
            let (k, r) =
              unmap_loop-without n file fs t (omega arith) once
                (remove_page-All IsUser p.upage ps a)
                (All-IsClean file s.process.memory m (remove_page p.upage ps) dirty
                  (remove_page-All (IsClean file s.process.memory) p.upage ps c)) in
            (
              k,
              unmap_loop-step n file p t.process fs s e
                    (write_back-IsClean file p fs s (clean matched)) gone
                  ∙ (r ∙ ap (λ xs. some (fs, with_table xs k s)) kept),
            )
      ]

  -- On a table whose pages are at distinct, aligned addresses of user memory, and of which no page
  -- of the file was written, `page_unmap` ends within its fuel and fails no assertion; the table
  -- then has lost the pages of the file and no other, and the files, the frames and the swap are
  -- unchanged.
  pub page_unmap-without :
      (file : ℕ) (fs : files.Fs) (s : Vm block)
      → IsUnique s.process.sup_page_table
      → All IsUser s.process.sup_page_table
      → All (IsClean file s.process.memory) s.process.sup_page_table
      → (m : Memory) × (page_unmap block files file fs s
          ≡ some (fs, with_table (without file s.process.sup_page_table) m s))
  unfolding page_unmap
  page_unmap-without file fs s u a c =
      unmap_loop-without (suc (length s.process.sup_page_table)) file fs s (omega arith) u a c
