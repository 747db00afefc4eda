-- ===== src/VirtualMemory/Pagedir/Laws.antt =====
-- Mapping, unmapping and finding a page with the functions of userprog/pagedir.c.
use cs124_my_pintos.Common.{
  ◌≤◌, ℕ, ◌+◌, ◌-◌, ◌/◌, ◌%◌, ◌^◌, ◌<◌, ◌≡◌, ◌≢◌, refl, sym, ◌∙◌, inl, inr, Bool, true, false, none,
  some, arith, ◌==◌, ltb, if◌then◌else◌, Bool-cases, Option-cases,
}
use cs124_my_pintos.UserPrograms.Segment.{phys_base, is_user_vaddr}
use cs124_my_pintos.VirtualMemory.Pagedir.{
  empty_pte, pg_ofs, Pte, Memory, set_pte, lookup_page, invalidate_pagedir, pagedir_set_page,
  pagedir_get_page, pagedir_clear_page,
}

pub invalidate_pagedir-tables :
    (pd : ℕ) (m : Memory) (t j : ℕ) → (invalidate_pagedir pd m).tables t j ≡ m.tables t j
unfolding invalidate_pagedir
invalidate_pagedir-tables pd m t j = ground arith

pub invalidate_pagedir-directories :
    (pd : ℕ) (m : Memory) (d i : ℕ) → (invalidate_pagedir pd m).directories d i ≡ m.directories d i
unfolding invalidate_pagedir
invalidate_pagedir-directories pd m d i = ground arith

pub set_pte_self : (pt i : ℕ) (e : Pte) (m : Memory) → (set_pte pt i e m).tables pt i ≡ e
set_pte_self pt i e m =
    let a : (pt == pt) ≡ true = ground arith in
    let b : (i == i) ≡ true = ground arith in rw (a, b) refl

-- What `pagedir_get_page` gives is read off the entry of the address.
pagedir_get_page-entry :
    (pd uaddr pt i : ℕ) (m : Memory) (e : Pte)
    → uaddr < phys_base
    → m.directories pd (uaddr / 2 ^ 22) ≡ some pt
    → uaddr / 2 ^ 12 % 2 ^ 10 ≡ i
    → m.tables pt i ≡ e
    → pagedir_get_page pd uaddr m ≡ some (if e.present then some (e.page + pg_ofs uaddr) else none)
unfolding pagedir_get_page
pagedir_get_page-entry pd uaddr pt i m e l d p q =
    let u : is_user_vaddr uaddr ≡ true = ground arith in
    elim (Bool-cases e.present) [
      | inl b ↦ rw (u, d, p, q, b) refl
      | inr b ↦ rw (u, d, p, q, b) refl
    ]

-- `pagedir_clear_page` of an aligned page of user memory fails no assertion, and no address of the
-- page is mapped afterwards.
pub pagedir_clear_page-unmaps :
    (pd upage uaddr : ℕ) (m : Memory)
    → upage % 2 ^ 12 ≡ 0
    → upage < phys_base
    → uaddr / 2 ^ 12 ≡ upage / 2 ^ 12
    → (n : Memory) × (pagedir_clear_page pd upage m ≡ some n)
      × (pagedir_get_page pd uaddr n ≡ some none)
unfolding pagedir_clear_page pagedir_get_page
pagedir_clear_page-unmaps pd upage uaddr m h k l =
    let same_pd : uaddr / 2 ^ 22 ≡ upage / 2 ^ 22 = omega arith in
    let same_pt : uaddr / 2 ^ 12 % 2 ^ 10 ≡ upage / 2 ^ 12 % 2 ^ 10 = omega arith in
    let user : uaddr < phys_base = omega arith in
    let a : (upage % 2 ^ 12 == 0) ≡ true = ground arith in
    let b : is_user_vaddr upage ≡ true = ground arith in
    let u : is_user_vaddr uaddr ≡ true = ground arith in
    elim (Option-cases (m.directories pd (upage / 2 ^ 22))) [
      | inl e ↦
          (m, rw (pagedir_clear_page, a, b, e) refl, rw (pagedir_get_page, u, same_pd, e) refl)
      | inr (pt, e) ↦
          let i = upage / 2 ^ 12 % 2 ^ 10 in
          let d : m.directories pd (uaddr / 2 ^ 22) ≡ some pt = rw same_pd e in
          let gone : Pte = record (m.tables pt i) { present = false } in
          elim (Bool-cases (m.tables pt i).present) [
            | inr p ↦ (
              m,
              rw (pagedir_clear_page, a, b, e, p) refl,
              (let g = pagedir_get_page-entry pd uaddr pt i m (m.tables pt i) user d same_pt refl in
                  rw p at g),
            )
            | inl p ↦ (
              invalidate_pagedir pd (set_pte pt i gone m),
              rw (pagedir_clear_page, a, b, e, p) refl,
              pagedir_get_page-entry pd uaddr pt i (invalidate_pagedir pd (set_pte pt i gone m))
                  gone user
                  (invalidate_pagedir-directories pd (set_pte pt i gone m) pd (uaddr / 2 ^ 22) ∙ d)
                  same_pt
                  (invalidate_pagedir-tables pd (set_pte pt i gone m) pt i
                    ∙ set_pte_self pt i gone m),
            )
          ]
    ]

-- The entry that `pagedir_set_page` makes.
abbrev user_pte : (kpage : ℕ) (writable : Bool) → Pte
user_pte kpage writable = record {
  page = kpage;
  present = true;
  writable = writable;
  dirty = false;
  accessed = false;
}

-- The memory in which the directory `pd` has the new page table `pt` at `i`.
abbrev with_table : (pd i pt : ℕ) → Memory → Memory
with_table pd i pt m = record m {
  directories =
      λ d j. if d == pd then (if j == i then some pt else m.directories d j) else m.directories d j;
  tables = λ t j. if t == pt then empty_pte else m.tables t j;
}

not_present :
    (pd upage pt : ℕ) (m : Memory)
    → upage < phys_base
    → m.directories pd (upage / 2 ^ 22) ≡ some pt
    → pagedir_get_page pd upage m ≡ some none
    → (m.tables pt (upage / 2 ^ 12 % 2 ^ 10)).present ≡ false
not_present pd upage pt m u d g =
    let i = upage / 2 ^ 12 % 2 ^ 10 in
    let f = pagedir_get_page-entry pd upage pt i m (m.tables pt i) u d refl refl in
    elim (Bool-cases (m.tables pt i).present) [
      | inr b ↦ b
      | inl b ↦ (let n = sym g ∙ rw b at f in cc)
    ]

same_page :
    (upage uaddr : ℕ)
    → uaddr / 2 ^ 12 ≡ upage / 2 ^ 12
    → upage < phys_base
    → (uaddr / 2 ^ 22 ≡ upage / 2 ^ 22)
      × (uaddr / 2 ^ 12 % 2 ^ 10 ≡ upage / 2 ^ 12 % 2 ^ 10)
      × (uaddr < phys_base)
same_page upage uaddr s l = (omega arith, omega arith, omega arith)

-- With a page for a page table, `pagedir_set_page` maps an unmapped, aligned page of user memory
-- to an aligned frame of memory from PHYS_BASE on, in a directory other than the first, and
-- `pagedir_get_page` then finds each address of the page at its place in the frame.
pub pagedir_get_page-pagedir_set_page :
    (init_page_dir init_ram_pages pd upage kpage new : ℕ) (writable : Bool) (m : Memory)
    → upage % 2 ^ 12 ≡ 0
    → kpage % 2 ^ 12 ≡ 0
    → upage < phys_base
    → phys_base ≤ kpage
    → (kpage - phys_base) / 2 ^ 12 < init_ram_pages
    → pd ≢ init_page_dir
    → pagedir_get_page pd upage m ≡ some none
    → (n : Memory) × (pagedir_set_page init_page_dir init_ram_pages
          (some new)
          pd
          upage
          kpage
          writable
          m
        ≡ some (true, n))
      × ((uaddr : ℕ)
          → uaddr / 2 ^ 12 ≡ upage / 2 ^ 12
          → pagedir_get_page pd uaddr n ≡ some (some (kpage + uaddr % 2 ^ 12)))
unfolding pagedir_set_page lookup_page
pagedir_get_page-pagedir_set_page init ram pd upage kpage new writable m h k l kernel r ne g =
    let a : (upage % 2 ^ 12 == 0) ≡ true = ground arith in
    let b : (kpage % 2 ^ 12 == 0) ≡ true = ground arith in
    let u : is_user_vaddr upage ≡ true = ground arith in
    let c : ltb kpage phys_base ≡ false = ground arith in
    let v : ltb ((kpage - phys_base) / 2 ^ 12) ram ≡ true = ground arith in
    let w : (pd == init) ≡ false = ground arith in
    let i = upage / 2 ^ 12 % 2 ^ 10 in
    let e = user_pte kpage writable in
    elim (Option-cases (m.directories pd (upage / 2 ^ 22))) [
      | inr (pt, d) ↦
          let p = not_present pd upage pt m l d g in
          (
            set_pte pt i e m,
            rw (pagedir_set_page, a, b, u, c, v, w, d, p) refl,
            λ uaddr s.
                let (same_pd, same_pt, user) = same_page upage uaddr s l in
                pagedir_get_page-entry pd uaddr pt i (set_pte pt i e m) e user (rw same_pd d)
                  same_pt (set_pte_self pt i e m),
          )
      | inl d ↦
          let t = with_table pd (upage / 2 ^ 22) new m in
          let x : (new == new) ≡ true = ground arith in
          let y : (pd == pd) ≡ true = ground arith in
          let z : (upage / 2 ^ 22 == upage / 2 ^ 22) ≡ true = ground arith in
          (
            set_pte new i e t,
            rw (pagedir_set_page, a, b, u, c, v, w, d, x) refl,
            λ uaddr s.
                let (same_pd, same_pt, user) = same_page upage uaddr s l in
                pagedir_get_page-entry pd uaddr new i (set_pte new i e t) e user
                  (rw (same_pd, y, z) refl) same_pt (set_pte_self new i e t),
          )
    ]
