-- ===== src/VirtualMemory/Fetch/Refuse.antt =====
-- The accesses that `page_fetch` of vm/page.c refuses.
use cs124_my_pintos.Common.{
  ◌+◌, ◌≤◌, ◌<◌, ◌⊎◌, arith, ℕ, ◌≡◌, ◌≢◌, refl, inl, inr, Bool, true, false, not, ◌&&◌, ◌||◌,
  Option, none, some, ◌==◌, if◌then◌else◌, Bool-cases, Option-cases,
}
use cs124_my_pintos.UserPrograms.Segment.{phys_base, u32, is_user_vaddr}
use cs124_my_pintos.VirtualMemory.Swap.{SwapBlock}
use cs124_my_pintos.VirtualMemory.Page.{
  Page, Process, find_upage, page_in_table, page_is_writable, stack_growth,
}
use cs124_my_pintos.VirtualMemory.Frame.{Vm}
use cs124_my_pintos.VirtualMemory.Fetch.{
  Files, pg_round_down, page_write_data, page_fetch, alloc_page,
}

-- Whether the page at an address is one that its process may not write.
abbrev pub is_read_only : (page : ℕ) → Process → Bool
is_read_only page s = elim (find_upage page s.sup_page_table) [
  | none ↦ false
  | some p ↦ not p.writable
]

-- The accesses with no page to fetch: those of the kernel's memory, those of memory that is neither
-- in the table nor stack, and writes to a page that may not be written.
abbrev pub is_refused : (uaddr esp : ℕ) (write : Bool) → Process → Bool
is_refused uaddr esp write s =
    not (is_user_vaddr uaddr)
    || (if page_in_table (pg_round_down uaddr) s
        then write && is_read_only (pg_round_down uaddr) s
        else (esp == 0) || not (stack_growth uaddr esp))

pub page_in_table-find_upage :
    (page : ℕ) (s : Process)
    → page_in_table page s ≡ true
    → (p : Page) × (find_upage page s.sup_page_table ≡ some p)
unfolding page_in_table
page_in_table-find_upage page s h = elim (Option-cases (find_upage page s.sup_page_table)) [
  | inr found ↦ found
  | inl e ↦ elim (Bool-cases (page == 0)) [
    | inl z ↦ (let n : false ≡ true = rw (page_in_table, z) at h in cc)
    | inr z ↦ (let n : false ≡ true = rw (page_in_table, z, e) at h in cc)
  ]
]

-- The access is to a page of the table, and no write to one that may not be written.
abbrev pub IsMapped : (uaddr : ℕ) (write : Bool) → Process → Type 0
IsMapped uaddr write s =
    (pg_round_down uaddr ≢ 0)
    × (p : Page) × (find_upage (pg_round_down uaddr) s.sup_page_table ≡ some p)
    × ((write ≡ false) ⊎ (p.writable ≡ true))

-- The access is to no page of the table, and at the stack pointer or above, or where PUSH or PUSHA
-- writes.
abbrev pub IsStack : (uaddr esp : ℕ) → Process → Type 0
IsStack uaddr esp s =
    ((pg_round_down uaddr ≡ 0) ⊎ (find_upage (pg_round_down uaddr) s.sup_page_table ≡ none))
    × (esp ≢ 0)
    × ((esp ≤ uaddr) ⊎ (uaddr + 4 ≡ esp) ⊎ (uaddr + 32 ≡ esp))

-- The accesses that a process may make.
abbrev pub IsAllowed : (uaddr esp : ℕ) (write : Bool) → Process → Type 0
IsAllowed uaddr esp write s = (uaddr < phys_base) × (IsMapped uaddr write s ⊎ IsStack uaddr esp s)

page_in_table-nonzero : (page : ℕ) (s : Process) → page_in_table page s ≡ true → page ≢ 0
unfolding page_in_table
page_in_table-nonzero page s h = elim (Bool-cases (page == 0)) [
  | inl z ↦ (let n : false ≡ true = rw (page_in_table, z) at h in cc)
  | inr z ↦ ground arith
]

page_in_table-out :
    (page : ℕ) (s : Process)
    → page_in_table page s ≡ false
    → (page ≡ 0) ⊎ (find_upage page s.sup_page_table ≡ none)
unfolding page_in_table
page_in_table-out page s h = elim (Bool-cases (page == 0)) [
  | inl z ↦ inl (ground arith)
  | inr z ↦ elim (Option-cases (find_upage page s.sup_page_table)) [
    | inl e ↦ inr e
    | inr (p, e) ↦ (let n : true ≡ false = rw (page_in_table, z, e) at h in cc)
  ]
]

page_in_table-in :
    (page : ℕ) (p : Page) (s : Process)
    → page ≢ 0
    → find_upage page s.sup_page_table ≡ some p
    → page_in_table page s ≡ true
unfolding page_in_table
page_in_table-in page p s n e =
    let z : (page == 0) ≡ false = ground arith in rw (page_in_table, z, e) refl

page_in_table-not_in :
    (page : ℕ) (s : Process)
    → (page ≡ 0) ⊎ (find_upage page s.sup_page_table ≡ none)
    → page_in_table page s ≡ false
unfolding page_in_table
page_in_table-not_in page s (inl n) =
    let z : (page == 0) ≡ true = ground arith in rw (page_in_table, z) refl
page_in_table-not_in page s (inr e) = elim (Bool-cases (page == 0)) [
  | inl z ↦ rw (page_in_table, z) refl
  | inr z ↦ rw (page_in_table, z, e) refl
]

stack_growth-places :
    (uaddr esp : ℕ)
    → uaddr < phys_base
    → esp < u32
    → esp ≢ 0
    → stack_growth uaddr esp ≡ true
    → (esp ≤ uaddr) ⊎ (uaddr + 4 ≡ esp) ⊎ (uaddr + 32 ≡ esp)
unfolding stack_growth
stack_growth-places uaddr esp l w n h = ground arith

places-stack_growth :
    (uaddr esp : ℕ)
    → uaddr < phys_base
    → esp < u32
    → (esp ≤ uaddr) ⊎ (uaddr + 4 ≡ esp) ⊎ (uaddr + 32 ≡ esp)
    → stack_growth uaddr esp ≡ true
unfolding stack_growth
places-stack_growth uaddr esp l w h = ground arith

may_write :
    (write : Bool) (p : Page)
    → (write && not p.writable) ≡ false
    → (write ≡ false) ⊎ (p.writable ≡ true)
may_write false p h = inl refl
may_write true p h = elim (Bool-cases p.writable) [
  | inl b ↦ inr b
  | inr b ↦ (let n : true ≡ false = rw b at h in cc)
]

pub is_refused-IsAllowed :
    (uaddr esp : ℕ) (write : Bool) (s : Process)
    → esp < u32
    → IsAllowed uaddr esp write s
    → is_refused uaddr esp write s ≡ false
is_refused-IsAllowed uaddr esp write s w (l, inl (n, p, e, may)) =
    let u : is_user_vaddr uaddr ≡ true = ground arith in
    let i = page_in_table-in (pg_round_down uaddr) p s n e in
    elim may [
      | inl r ↦ rw (u, i, is_read_only, e, r) refl
      | inr b ↦ rw (u, i, is_read_only, e, b) (ground arith)
    ]
is_refused-IsAllowed uaddr esp write s w (l, inr (out, n, at)) =
    let u : is_user_vaddr uaddr ≡ true = ground arith in
    let i = page_in_table-not_in (pg_round_down uaddr) s out in
    let z : (esp == 0) ≡ false = ground arith in
    let g = places-stack_growth uaddr esp l w at in rw (u, i, z, g) refl

pub IsAllowed-is_refused :
    (uaddr esp : ℕ) (write : Bool) (s : Process)
    → esp < u32
    → is_refused uaddr esp write s ≡ false
    → IsAllowed uaddr esp write s
IsAllowed-is_refused uaddr esp write s w h = elim (Bool-cases (is_user_vaddr uaddr)) [
  | inr u ↦ (let n : true ≡ false = rw u at h in cc)
  | inl u ↦
      let l : uaddr < phys_base = ground arith in
      elim (Bool-cases (page_in_table (pg_round_down uaddr) s)) [
        | inl i ↦
            let (p, f) = page_in_table-find_upage (pg_round_down uaddr) s i in
            let r : (write && not p.writable) ≡ false = rw (u, i, is_read_only, f) at h in
            (l, inl (page_in_table-nonzero (pg_round_down uaddr) s i, p, f, may_write write p r))
        | inr i ↦ elim (Bool-cases (esp == 0)) [
          | inl z ↦ (let n : true ≡ false = rw (u, i, z) at h in cc)
          | inr z ↦ elim (Bool-cases (stack_growth uaddr esp)) [
            | inr g ↦ (let n : true ≡ false = rw (u, i, z, g) at h in cc)
            | inl g ↦
                let n : esp ≢ 0 = ground arith in
                (
                  l,
                  inr (
                    page_in_table-out (pg_round_down uaddr) s i,
                    n,
                    stack_growth-places uaddr esp l w n g,
                  ),
                )
          ]
        ]
      ]
]

module _ {Sector : Type 0} (block : SwapBlock Sector) (files : Files Sector) where
  alloc_page-true :
      (o : Option (Vm block)) (t : Vm block)
      → elim o as (λ x. Option (Bool × Vm block)) [ none ↦ none | some v ↦ some (true, v) ]
        ≢ some (false, t)
  alloc_page-true none t h = cc
  alloc_page-true (some v) t h = cc

  page_write_data-true :
      (o : Option (Vm block)) (page : ℕ) (fs : files.Fs) (t : Vm block)
      → elim o as (λ x. Option (Bool × Vm block)) [
        | none ↦ none
        | some v ↦ elim (page_write_data block files page fs v) as (λ x. Option (Bool × Vm block)) [
          | none ↦ none
          | some r ↦ some (true, r.1)
        ]
      ]
        ≢ some (false, t)
  page_write_data-true none page fs t = λ h. cc
  page_write_data-true (some v) page fs t =
      elim (page_write_data block files page fs v)
        as (λ o.
          elim o as (λ x. Option (Bool × Vm block)) [ none ↦ none | some r ↦ some (true, r.1) ]
          ≢ some (false, t)) [ none ↦ λ h. cc | some r ↦ λ h. cc ]

  -- `page_fetch` returns false for exactly the accesses to memory of the kernel, to memory that is
  -- neither in the table nor stack, and to write a page that may not be written, and then changes
  -- nothing.
  pub page_fetch-is_refused :
      (init_page_dir init_ram_pages : ℕ) (new : Option ℕ) (memory : Bool) (uaddr esp : ℕ)
      (write : Bool) (fs : files.Fs) (s : Vm block)
      → let r =
          page_fetch block files init_page_dir init_ram_pages new memory uaddr esp write fs s in
        (is_refused uaddr esp write s.process ≡ true → r ≡ some (false, s))
        × (is_refused uaddr esp write s.process ≡ false → (t : Vm block) → r ≢ some (false, t))
  unfolding page_fetch page_is_writable
  page_fetch-is_refused ipd irp new memory uaddr esp write fs s =
      let page = pg_round_down uaddr in
      elim (Bool-cases (is_user_vaddr uaddr)) [
        | inr u ↦ (λ h. rw (page_fetch, u) refl, λ h. let n : true ≡ false = rw u at h in cc)
        | inl u ↦ elim (Bool-cases (page_in_table page s.process)) [
          | inr i ↦ elim (Bool-cases (esp == 0)) [
            | inl e ↦ (
              λ h. rw (page_fetch, u, i, e) refl,
              λ h. let n : true ≡ false = rw (u, i, e) at h in cc,
            )
            | inr e ↦ elim (Bool-cases (stack_growth uaddr esp)) [
              | inr g ↦ (
                λ h. rw (page_fetch, u, i, e, g) refl,
                λ h. let n : true ≡ false = rw (u, i, e, g) at h in cc,
              )
              | inl g ↦ (
                λ h. let n : false ≡ true = rw (u, i, e, g) at h in cc,
                λ h t.
                    rw (page_fetch, u, i, e, g)
                      (alloc_page-true (alloc_page block files ipd irp new memory page s) t),
              )
            ]
          ]
          | inl i ↦
              let (p, f) = page_in_table-find_upage page s.process i in
              elim (Bool-cases (write && not p.writable)) [
                | inl w ↦ (
                  λ h. rw (page_fetch, u, i, f, w) refl,
                  λ h. let n : true ≡ false = rw (u, i, is_read_only, f, w) at h in cc,
                )
                | inr w ↦ (
                  λ h. let n : false ≡ true = rw (u, i, is_read_only, f, w) at h in cc,
                  λ h t.
                      rw (page_fetch, u, i, f, w)
                        (page_write_data-true (alloc_page block files ipd irp new memory page s)
                          page fs t),
                )
              ]
        ]
      ]
