-- ===== src/VirtualMemory/Pagedir/Fields.antt =====
-- Changes of one entry of a page table with the functions of userprog/pagedir.c that set a bit.
use cs124_my_pintos.Common.{
  ℕ, ◌/◌, ◌%◌, ◌^◌, ◌≡◌, refl, ap, ◌∙◌, ◌⊎◌, inl, inr, false, arith, ◌==◌, Bool-cases, Option-cases,
}
use cs124_my_pintos.UserPrograms.Segment.{is_user_vaddr}
use cs124_my_pintos.VirtualMemory.Pagedir.{
  Pte, Memory, set_pte, invalidate_pagedir, pagedir_set_dirty, pagedir_get_page,
}
use cs124_my_pintos.VirtualMemory.Pagedir.Laws.{
  invalidate_pagedir-tables, invalidate_pagedir-directories, set_pte_self,
}

pub set_pte-cases :
    (pt i t j : ℕ) (e : Pte) (m : Memory)
    → ((t ≡ pt) × (j ≡ i) × ((set_pte pt i e m).tables t j ≡ e))
      ⊎ ((set_pte pt i e m).tables t j ≡ m.tables t j)
set_pte-cases pt i t j e m = elim (Bool-cases (t == pt)) [
  | inr a ↦ inr (rw a refl)
  | inl a ↦ elim (Bool-cases (j == i)) [
    | inr b ↦ inr (rw (a, b) refl)
    | inl b ↦ inl (ground arith, ground arith, rw (a, b) refl)
  ]
]

-- The memory with an entry set and, where it must be, the directory loaded again.
abbrev pub entered : (pd pt i : ℕ) → Pte → Memory → Memory
entered pd pt i e m = invalidate_pagedir pd (set_pte pt i e m)

pub entered-directories :
    (pd pt i : ℕ) (e : Pte) (m : Memory) (d k : ℕ)
    → (entered pd pt i e m).directories d k ≡ m.directories d k
entered-directories pd pt i e m d k = invalidate_pagedir-directories pd (set_pte pt i e m) d k

pub entered_self : (pd pt i : ℕ) (e : Pte) (m : Memory) → (entered pd pt i e m).tables pt i ≡ e
entered_self pd pt i e m =
    invalidate_pagedir-tables pd (set_pte pt i e m) pt i ∙ set_pte_self pt i e m

pub entered-cases :
    (pd pt i t j : ℕ) (e : Pte) (m : Memory)
    → ((t ≡ pt) × (j ≡ i) × ((entered pd pt i e m).tables t j ≡ e))
      ⊎ ((entered pd pt i e m).tables t j ≡ m.tables t j)
entered-cases pd pt i t j e m =
    rw (invalidate_pagedir-tables pd (set_pte pt i e m) t j) (set_pte-cases pt i t j e m)

-- A field of the entries that the new entry does not change.
pub entered-field {ℓ} :
    {A : Type ℓ} (field : Pte → A) (pd pt i t j : ℕ) (e : Pte) (m : Memory)
    → field e ≡ field (m.tables pt i)
    → field ((entered pd pt i e m).tables t j) ≡ field (m.tables t j)
entered-field field pd pt i t j e m h = elim (entered-cases pd pt i t j e m) [
  | inl (a, b, c) ↦ rw (a, b) (ap field (entered_self pd pt i e m) ∙ h)
  | inr c ↦ ap field c
]

-- `pagedir_get_page` reads the directories, the frames and the present bits.
pub pagedir_get_page-same :
    (pd u : ℕ) (m n : Memory)
    → ((d i : ℕ) → n.directories d i ≡ m.directories d i)
    → ((t j : ℕ) → (n.tables t j).page ≡ (m.tables t j).page)
    → ((t j : ℕ) → (n.tables t j).present ≡ (m.tables t j).present)
    → pagedir_get_page pd u n ≡ pagedir_get_page pd u m
unfolding pagedir_get_page
pagedir_get_page-same pd u m n dirs page present = elim (Bool-cases (is_user_vaddr u)) [
  | inr b ↦ rw b refl
  | inl b ↦ elim (Option-cases (m.directories pd (u / 2 ^ 22))) [
    | inl e ↦ rw (b, dirs, e) refl
    | inr (pt, e) ↦ rw (b, dirs, e, present, page) refl
  ]
]

pub pagedir_get_page-pagedir_set_dirty :
    (q u pd v : ℕ) (m : Memory)
    → pagedir_get_page q u (pagedir_set_dirty pd v false m) ≡ pagedir_get_page q u m
unfolding pagedir_set_dirty
pagedir_get_page-pagedir_set_dirty q u pd v m =
    elim (Option-cases (m.directories pd (v / 2 ^ 22))) [
      | inl e ↦
          let same : pagedir_set_dirty pd v false m ≡ m = rw (pagedir_set_dirty, e) refl in
          rw same refl
      | inr (pt, e) ↦
          let i = v / 2 ^ 12 % 2 ^ 10 in
          let clean : Pte = record (m.tables pt i) { dirty = false } in
          let done : pagedir_set_dirty pd v false m ≡ entered pd pt i clean m =
            rw (pagedir_set_dirty, e) refl in
          rw done (
            pagedir_get_page-same q u m (entered pd pt i clean m)
              (entered-directories pd pt i clean m)
              (λ t j. entered-field (λ p. p.page) pd pt i t j clean m refl)
              (λ t j. entered-field (λ p. p.present) pd pt i t j clean m refl))
    ]
