-- ===== src/UserPrograms/Children.antt =====
-- Waiting for a child: `process_wait` of user-programs/userprog/process.c, and how `process_execute`
-- enters a child in the list. A status is the bit pattern of an `int`; -1 is 2 ^ 32 - 1.
mod Tests
use cs124_my_pintos.Common.{
  ℕ, ◌+◌, ◌-◌, ◌^◌, ◌≡◌, refl, sym, ◌∙◌, ap, ◌≢◌, inl, inr, Bool, true, false, Option, none, some,
  List, [], ◌∷◌, ◌++◌, arith, ◌==◌, if◌then◌else◌, Bool-cases, Option-cases, All,
}

abbrev pub minus_one : ℕ
minus_one = 2 ^ 32 - 1

-- `struct child` as its parent sees it
pub record Child : Type 0 where
  pub tid : ℕ
  pub status : ℕ

-- The part of `struct thread` that these functions use. The list is not initialised before the
-- first child.
pub record Parent : Type 0 where
  pub children_init : Bool
  pub children : List Child

-- The end of `process_execute` for a thread `tid`; none is TID_ERROR, of `thread_create` or of a load
-- that failed. The new child's status is -1 until it exits.
unfoldable pub add_child : Parent → Option ℕ → Parent
add_child p none = p
add_child p (some tid) =
    let old = if p.children_init then p.children else [] in
    record { children_init = true; children = old ++ record { tid = tid; status = minus_one } ∷ [] }

-- The loop of `process_wait`
unfoldable pub find_child : ℕ → List Child → Option Child
find_child tid [] = none
find_child tid (c ∷ cs) = let later = find_child tid cs in if c.tid == tid then some c else later

unfoldable pub remove_child : ℕ → List Child → List Child
remove_child tid [] = []
remove_child tid (c ∷ cs) =
    let later = remove_child tid cs in if c.tid == tid then cs else c ∷ later

-- `exited` is the status that each child has once `sema_down` on its `terminated` returns: what it
-- gave `sys_exit`, or what it began with.
unfoldable pub process_wait : (exited : Child → ℕ) → Parent → ℕ → ℕ × Parent
unfolding find_child remove_child
process_wait exited p tid =
    if p.children_init
    then elim (find_child tid p.children) [
      | none ↦ (minus_one, p)
      | some c ↦ (exited c, record p { children = remove_child tid p.children })
    ]
    else (minus_one, p)

abbrev pub NoChild : ℕ → List Child → Type 0
NoChild tid = All (λ c. c.tid ≢ tid)

-- Thread identifiers are given out once, by `allocate_tid`.
abbrev pub IsDistinct : List Child → Type 0
IsDistinct [] = Unit
IsDistinct (c ∷ cs) = NoChild c.tid cs × IsDistinct cs

find_child-NoChild : (tid : ℕ) (cs : List Child) → NoChild tid cs → find_child tid cs ≡ none
unfolding find_child
find_child-NoChild tid [] h = refl
find_child-NoChild tid (c ∷ cs) h =
    let e : (c.tid == tid) ≡ false = ground arith in rw e (find_child-NoChild tid cs h.1)

find_child-remove_child :
    (tid k : ℕ) (cs : List Child)
    → IsDistinct cs
    → find_child k (remove_child tid cs) ≡ (if tid == k then none else find_child k cs)
unfolding find_child remove_child
find_child-remove_child tid k [] h = ground arith
find_child-remove_child tid k (c ∷ cs) h = elim (Bool-cases (c.tid == tid)) [
  | inl e ↦ rw e (elim (Bool-cases (tid == k)) [
    | inl p ↦ let q : c.tid ≡ k = ground arith in rw p (find_child-NoChild k cs (rw (← q) h.0))
    | inr p ↦ let q : (c.tid == k) ≡ false = ground arith in rw (p, q)
  ])
  | inr e ↦ rw e (elim (Bool-cases (c.tid == k)) [
    | inl p ↦ let q : (tid == k) ≡ false = ground arith in rw (p, q)
    | inr p ↦ rw p (find_child-remove_child tid k cs h.1)
  ])
]

-- `process_wait` for a thread that is not a child returns -1 and changes nothing.
pub process_wait-NoChild :
    (exited : Child → ℕ) (p : Parent) (tid : ℕ)
    → NoChild tid p.children
    → process_wait exited p tid ≡ (minus_one, p)
unfolding process_wait
process_wait-NoChild exited p tid h = elim (Bool-cases p.children_init) [
  | inl e ↦ rw (process_wait, find_child-NoChild tid p.children h) (ground arith)
  | inr e ↦ ground arith
]

wait-child :
    (exited : Child → ℕ) (p : Parent) (tid : ℕ) (c : Child)
    → p.children_init ≡ true
    → find_child tid p.children ≡ some c
    → process_wait exited p tid ≡ (exited c, record p { children = remove_child tid p.children })
unfolding process_wait
wait-child exited p tid c i f = simp (i, f)

wait-none :
    (exited : Child → ℕ) (p : Parent) (tid : ℕ)
    → p.children_init ≡ true
    → find_child tid p.children ≡ none
    → (process_wait exited p tid).0 ≡ minus_one
unfolding process_wait
wait-none exited p tid i f = simp (i, f)

wait-same :
    (exited : Child → ℕ) (p q : Parent) (k : ℕ)
    → p.children_init ≡ true
    → q.children_init ≡ true
    → find_child k p.children ≡ find_child k q.children
    → (process_wait exited p k).0 ≡ (process_wait exited q k).0
unfolding process_wait
wait-same exited p q k i j f = elim (Option-cases (find_child k q.children)) [
  | inl e ↦ simp (i, j, f, e)
  | inr (c, e) ↦ simp (i, j, f, e)
]

-- For distinct children, the first wait for a child returns its exit status and a second one -1,
-- and waits for other children are not affected.
pub process_wait_once :
    (exited : Child → ℕ) (p : Parent) (tid : ℕ) (c : Child)
    → p.children_init ≡ true
    → IsDistinct p.children
    → find_child tid p.children ≡ some c
    → let (status, p') = process_wait exited p tid in
      (status ≡ exited c)
      × ((process_wait exited p' tid).0 ≡ minus_one)
      × ((k : ℕ) → tid ≢ k → (process_wait exited p' k).0 ≡ (process_wait exited p k).0)
process_wait_once exited p tid c i d f =
    let p' : Parent = record p { children = remove_child tid p.children } in
    let first : process_wait exited p tid ≡ (exited c, p') = wait-child exited p tid c i f in
    let gone = find_child-remove_child tid tid p.children d in
    (
      ap (λ r. r.0) first,
      rw first (wait-none exited p' tid i (ground (arith, gone))),
      λ k ne. rw first (
          wait-same exited p' p k i i
            (find_child-remove_child tid k p.children d ∙ (ground arith))),
    )

find_child-append :
    (tid n : ℕ) (cs : List Child)
    → NoChild tid cs
    → find_child tid (cs ++ record { tid = tid; status = n } ∷ [])
      ≡ some (record { tid = tid; status = n })
unfolding find_child
find_child-append tid n [] h = ground arith
find_child-append tid n (c ∷ cs) h =
    let e : (c.tid == tid) ≡ false = ground arith in rw e (find_child-append tid n cs h.1)

-- A child with a new identifier can be waited for after `process_execute`, be it the first child
-- or not.
pub process_wait-add_child :
    (exited : Child → ℕ) (p : Parent) (tid : ℕ)
    → (p.children_init ≡ true → NoChild tid p.children)
    → (process_wait exited (add_child p (some tid)) tid).0
      ≡ exited (record { tid = tid; status = minus_one })
unfolding add_child
process_wait-add_child exited p tid h = elim (Bool-cases p.children_init) [
  | inl e ↦ simp e (
      ap (λ r. r.0)
        (wait-child exited _ tid (record { tid = tid; status = minus_one }) refl
          (find_child-append tid minus_one p.children (h e))))
  | inr e ↦ simp e (
      ap (λ r. r.0)
        (wait-child exited _ tid (record { tid = tid; status = minus_one }) refl
          (find_child-append tid minus_one [] tt)))
]
