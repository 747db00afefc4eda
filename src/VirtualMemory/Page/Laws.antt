-- ===== src/VirtualMemory/Page/Laws.antt =====
-- Finding pages in the supplemental page table of vm/page.c.
use cs124_my_pintos.Common.{
  ℕ, ◌≡◌, refl, ap, ◌∙◌, inl, inr, Bool, true, false, Option, none, some, List, [], ◌∷◌, ◌++◌,
  arith, ◌==◌, if◌then◌else◌, Bool-cases, ℤ, pos,
}
use cs124_my_pintos.VirtualMemory.Page.{
  Page, Process, find_page, match_upage, find_upage, page_in_table, page_alloc, update_page,
  page_set_file,
}

pub find_upage-append :
    (upage k : ℕ) (p : Page) (ps : List Page)
    → find_upage upage ps ≡ none
    → p.upage ≡ upage
    → find_upage k (ps ++ (p ∷ [])) ≡ (if upage == k then some p else find_upage k ps)
unfolding find_upage find_page match_upage
find_upage-append upage k p [] n e = rw e refl
find_upage-append upage k p (q ∷ ps) n e = elim (Bool-cases (q.upage == upage)) [
  | inl b ↦ (let f = rw b at n in cc)
  | inr b ↦
      let rest = find_upage-append upage k p ps (rw b at n) e in
      elim (Bool-cases (q.upage == k)) [
        | inl c ↦ let d : (upage == k) ≡ false = ground arith in rw (c, d) refl
        | inr c ↦ rw c rest
      ]
]

pub find_upage-update_page :
    (upage k : ℕ) (change : Page → Page) (ps : List Page)
    → ((p : Page) → (change p).upage ≡ p.upage)
    → find_upage k (update_page upage change ps) ≡ (
        if upage == k
        then elim (find_upage k ps) [ none ↦ none | some p ↦ some (change p) ]
        else find_upage k ps)
unfolding find_upage find_page match_upage update_page
find_upage-update_page upage k change [] h = elim (Bool-cases (upage == k)) [
  | inl c ↦ rw c refl
  | inr c ↦ rw c refl
]
find_upage-update_page upage k change (p ∷ ps) h =
    let rest = find_upage-update_page upage k change ps h in
    elim (Bool-cases (p.upage == upage)) [
      | inl b ↦ elim (Bool-cases (upage == k)) [
        | inl c ↦
            let d : (p.upage == k) ≡ true = ground arith in
            let hp = h p in
            let f : ((change p).upage == k) ≡ true = ground arith in rw (b, c, d, f) refl
        | inr c ↦
            let d : (p.upage == k) ≡ false = ground arith in
            let hp = h p in
            let f : ((change p).upage == k) ≡ false = ground arith in rw (b, c, d, f) refl
      ]
      | inr b ↦ elim (Bool-cases (p.upage == k)) [
        | inl c ↦ let d : (upage == k) ≡ false = ground arith in rw (b, c, d) refl
        | inr c ↦ rw (b, c) rest
      ]
    ]

-- The page that `page_set_file` enters.
abbrev pub file_page : (pd upage file : ℕ) (off : ℤ) → Page
file_page pd upage file off = record {
  pd = pd;
  upage = upage;
  active = false;
  frame = none;
  file = some file;
  off = off;
  writable = true;
  ss = none;
}

-- What `page_set_file` does with the result of `page_alloc`.
abbrev file_set : (upage file : ℕ) (off : ℤ) → Option Page × Process → Bool × Process
file_set upage file off r = elim r.0 as (λ x. Bool × Process) [
  | none ↦ (false, r.1)
  | some p ↦ (
    true,
    record r.1 {
      sup_page_table =
          update_page upage (λ q. record q { file = some file; off = off }) r.1.sup_page_table;
    },
  )
]

-- With memory, `page_set_file` of an address that has no page returns true; the address then has a
-- writable page with the file and the offset, and every other address has the page that it had.
pub page_set_file-find_upage :
    (upage file k : ℕ) (off : ℤ) (s : Process)
    → find_upage upage s.sup_page_table ≡ none
    → let (done, t) = page_set_file true upage file off s in
      (done ≡ true)
      × (find_upage k t.sup_page_table ≡ (
          if upage == k
          then some (file_page s.pagedir upage file off)
          else find_upage k s.sup_page_table))
unfolding page_set_file page_alloc page_in_table
page_set_file-find_upage upage file k off s n =
    let out : page_in_table upage s ≡ false = elim (Bool-cases (upage == 0)) [
      | inl c ↦ rw (page_in_table, c) refl
      | inr c ↦ rw (page_in_table, c, n) refl
    ] in
    let p : Page = record (file_page s.pagedir upage file off) { file = none; off = pos 0 } in
    let added = find_upage-append upage k p s.sup_page_table n refl in
    let changed =
      find_upage-update_page upage k (λ q. record q { file = some file; off = off })
        (s.sup_page_table ++ (p ∷ [])) (λ q. refl) in
    let got : page_alloc true s.pagedir upage true s
        ≡ (some p, record s { sup_page_table = s.sup_page_table ++ (p ∷ []) }) =
      rw (page_alloc, out) refl in
    let done = ap (file_set upage file off) got in
    (
      ap (λ r. r.0) done,
      ap (λ (r : Bool × Process). find_upage k r.1.sup_page_table) done
          ∙ (changed ∙ entered upage k p (find_upage k s.sup_page_table) added),
    )
  where
    entered :
        (upage k : ℕ) (p : Page) (o : Option Page)
        → find_upage k (s.sup_page_table ++ (p ∷ [])) ≡ (if upage == k then some p else o)
        → (if upage == k
            then elim (find_upage k (s.sup_page_table ++ (p ∷ []))) [
              | none ↦ none
              | some q ↦ some (record q { file = some file; off = off })
            ]
            else find_upage k (s.sup_page_table ++ (p ∷ [])))
          ≡ (if upage == k then some (record p { file = some file; off = off }) else o)
    entered upage k p o e = elim (Bool-cases (upage == k)) [
      | inl c ↦ (let f = rw c at e in rw (c, f) refl)
      | inr c ↦ (let f = rw c at e in rw (c, f) refl)
    ]

update_page-append :
    (upage : ℕ) (change : Page → Page) (p : Page) (ps : List Page)
    → find_upage upage ps ≡ none
    → p.upage ≡ upage
    → update_page upage change (ps ++ (p ∷ [])) ≡ ps ++ (change p ∷ [])
unfolding update_page find_upage find_page match_upage
update_page-append upage change p [] e u =
    let b : (p.upage == upage) ≡ true = ground arith in rw b refl
update_page-append upage change p (q ∷ qs) e u = elim (Bool-cases (q.upage == upage)) [
  | inl b ↦ (let n = rw b at e in cc)
  | inr b ↦ rw b (ap (λ xs. q ∷ xs) (update_page-append upage change p qs (rw b at e) u))
]

abbrev pub append_pages : List Page → Process → Process
append_pages ps s = record s { sup_page_table = s.sup_page_table ++ ps }

pub page_set_file-append :
    (upage file : ℕ) (off : ℤ) (s : Process)
    → find_upage upage s.sup_page_table ≡ none
    → page_set_file true upage file off s
      ≡ (true, append_pages (file_page s.pagedir upage file off ∷ []) s)
unfolding page_set_file page_alloc page_in_table
page_set_file-append upage file off s n =
    let out : page_in_table upage s ≡ false = elim (Bool-cases (upage == 0)) [
      | inl c ↦ rw (page_in_table, c) refl
      | inr c ↦ rw (page_in_table, c, n) refl
    ] in
    let p : Page = record (file_page s.pagedir upage file off) { file = none; off = pos 0 } in
    let got : page_alloc true s.pagedir upage true s
        ≡ (some p, record s { sup_page_table = s.sup_page_table ++ (p ∷ []) }) =
      rw (page_alloc, out) refl in
    ap (file_set upage file off) got
    ∙ ap (λ (ps : List Page). (true, record s { sup_page_table = ps }))
        (update_page-append upage (λ q. record q { file = some file; off = off }) p s.sup_page_table
          n refl)
