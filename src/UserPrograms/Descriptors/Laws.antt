-- ===== src/UserPrograms/Descriptors/Laws.antt =====
-- Opening, finding and closing descriptors with the functions of syscall.c.
use cs124_my_pintos.Common.{
  ℕ, ◌+◌, ◌≤◌, ◌<◌, ◌≡◌, refl, sym, ◌∙◌, ap, ◌≢◌, inl, inr, Bool, true, false, Option, none, some,
  List, [], ◌∷◌, arith, ◌==◌, ◌||◌, ◌^◌, ltb, leb, if◌then◌else◌, Bool-cases, All,
}
use cs124_my_pintos.UserPrograms.Descriptors.{
  FileStore, min_user_fd, next_fd, create_fd, store_loop, fd_to_file_store, fd_to_file, list_remove,
  remove_fd,
}

-- Descriptors fall from the front of the list on, and none is below MIN_USER_FD.
abbrev pub IsDescending : List FileStore → Type 0
IsDescending [] = Unit
IsDescending (s ∷ rest) = (min_user_fd ≤ s.fd) × All (λ t. t.fd < s.fd) rest × IsDescending rest

abbrev pub NotOpen : ℕ → List FileStore → Type 0
NotOpen fd = All (λ s. s.fd ≢ fd)

below-next_fd :
    (s : FileStore) (rest : List FileStore)
    → All (λ t. t.fd < s.fd) rest
    → All (λ t. t.fd < s.fd + 1) rest
below-next_fd s [] h = tt
below-next_fd s (t ∷ rest) h = (omega arith, below-next_fd s rest h.1)

NotOpen-below : (n : ℕ) (l : List FileStore) → All (λ t. t.fd < n) l → NotOpen n l
NotOpen-below n [] h = tt
NotOpen-below n (t ∷ l) h = (omega arith, NotOpen-below n l h.1)

next_fd-below : (l : List FileStore) → IsDescending l → All (λ t. t.fd < next_fd l) l
unfolding next_fd
next_fd-below [] h = tt
next_fd-below (s ∷ rest) h = (omega arith, below-next_fd s rest h.1)

next_fd-min : (l : List FileStore) → IsDescending l → min_user_fd ≤ next_fd l
unfolding next_fd
next_fd-min [] h = omega arith
next_fd-min (s ∷ rest) h = omega arith

-- The open file of a descriptor, if there is one.
unfoldable pub open_file : ℕ → List FileStore → Option FileStore
open_file fd [] = none
open_file fd (s ∷ rest) = let later = open_file fd rest in if s.fd == fd then some s else later

store_loop-open :
    (fd : ℕ) (l : List FileStore) (o : Option FileStore) (s : FileStore)
    → open_file fd l ≡ some s
    → store_loop fd l o ≡ some s
unfolding open_file store_loop
store_loop-open fd [] o s h = cc
store_loop-open fd (t ∷ rest) o s h = elim (Bool-cases (t.fd == fd)) [
  | inl e ↦ rw e (rw e at h)
  | inr e ↦ rw e (store_loop-open fd rest (some t) s (rw e at h))
]

open_file-ge :
    (fd : ℕ) (l : List FileStore) (s : FileStore)
    → IsDescending l
    → open_file fd l ≡ some s
    → (min_user_fd ≤ fd) × (s.fd ≡ fd)
unfolding open_file
open_file-ge fd [] s d h = cc
open_file-ge fd (t ∷ rest) s d h = elim (Bool-cases (t.fd == fd)) [
  | inl e ↦
      let q : t ≡ s = ground arith in
      let p : t.fd ≡ fd = ground arith in (omega arith, sym (ap (λ x. x.fd) q) ∙ p)
  | inr e ↦ open_file-ge fd rest s d.2 (rw e at h)
]

-- An open descriptor finds its own file.
pub fd_to_file_store-open :
    (fd : ℕ) (l : List FileStore) (s : FileStore)
    → fd < 2 ^ 31
    → IsDescending l
    → open_file fd l ≡ some s
    → fd_to_file_store fd l ≡ some s
unfolding fd_to_file_store
fd_to_file_store-open fd l s k d h =
    let e : (ltb fd min_user_fd || leb (2 ^ 31) fd) ≡ false =
      ground (arith, open_file-ge fd l s d h) in
    rw e (store_loop-open fd l none s h)

-- With memory, `create_fd` on a descending list gives a descriptor that was not open and opens it
-- with the file; all other descriptors are as before, and the list is descending.
pub create_fd-fresh :
    (l : List FileStore) (f : ℕ) (mapped : Bool)
    → IsDescending l
    → (fd : ℕ) × ((create_fd true l (some f) mapped).0 ≡ some fd)
      × NotOpen fd l
      × IsDescending (create_fd true l (some f) mapped).1
      × ((k : ℕ)
          → open_file k (create_fd true l (some f) mapped).1 ≡ (
              if fd == k
              then some (record { fd = fd; file = f; mapped = mapped })
              else open_file k l))
unfolding create_fd open_file
create_fd-fresh l f mapped h = (
  next_fd l,
  refl,
  NotOpen-below (next_fd l) l (next_fd-below l h),
  (next_fd-min l h, next_fd-below l h, h),
  λ k. refl,
)

All-list_remove :
    (fd n : ℕ) (l : List FileStore) → All (λ t. t.fd < n) l → All (λ t. t.fd < n) (list_remove fd l)
unfolding list_remove
All-list_remove fd n [] h = tt
All-list_remove fd n (t ∷ rest) h = elim (Bool-cases (t.fd == fd)) [
  | inl e ↦ rw e h.1
  | inr e ↦ rw e (h.0, All-list_remove fd n rest h.1)
]

list_remove-IsDescending :
    (fd : ℕ) (l : List FileStore) → IsDescending l → IsDescending (list_remove fd l)
unfolding list_remove
list_remove-IsDescending fd [] h = tt
list_remove-IsDescending fd (t ∷ rest) h = elim (Bool-cases (t.fd == fd)) [
  | inl e ↦ rw e h.2
  | inr e ↦ rw e (h.0, All-list_remove fd t.fd rest h.1, list_remove-IsDescending fd rest h.2)
]

open_file-below :
    (k n : ℕ) (l : List FileStore) → All (λ t. t.fd < n) l → n ≤ k → open_file k l ≡ none
unfolding open_file
open_file-below k n [] h a = refl
open_file-below k n (t ∷ rest) h a =
    let e : (t.fd == k) ≡ false = ground arith in rw e (open_file-below k n rest h.1 a)

open_file-list_remove :
    (fd k : ℕ) (l : List FileStore)
    → IsDescending l
    → open_file k (list_remove fd l) ≡ (if fd == k then none else open_file k l)
unfolding open_file list_remove
open_file-list_remove fd k [] h = ground arith
open_file-list_remove fd k (t ∷ rest) h = elim (Bool-cases (t.fd == fd)) [
  | inl e ↦ rw e (elim (Bool-cases (fd == k)) [
    | inl p ↦ rw p (open_file-below k t.fd rest h.1 (ground arith))
    | inr p ↦ let q : (t.fd == k) ≡ false = ground arith in rw (p, q)
  ])
  | inr e ↦ rw e (elim (Bool-cases (t.fd == k)) [
    | inl p ↦ let q : (fd == k) ≡ false = ground arith in rw (p, q)
    | inr p ↦ rw p (open_file-list_remove fd k rest h.2)
  ])
]

-- `remove_fd` of an open descriptor of a descending list returns its file and closes it and no
-- other.
pub remove_fd-open :
    (fd : ℕ) (l : List FileStore) (s : FileStore)
    → fd < 2 ^ 31
    → IsDescending l
    → open_file fd l ≡ some s
    → ((remove_fd fd l).0 ≡ some s.file)
      × IsDescending (remove_fd fd l).1
      × ((k : ℕ) → open_file k (remove_fd fd l).1 ≡ (if fd == k then none else open_file k l))
unfolding remove_fd
remove_fd-open fd l s m d h =
    let e = fd_to_file_store-open fd l s m d h in
    let p = (open_file-ge fd l s d h).1 in
    (
      rw (e, remove_fd),
      rw (e, remove_fd) (list_remove-IsDescending s.fd l d),
      λ k. rw (e, remove_fd, p) (open_file-list_remove fd k l d),
    )

-- Without memory, or without a file, nothing is opened.
pub create_fd-none :
    (l : List FileStore) (f : Option ℕ) (mapped : Bool)
    → (create_fd false l f mapped ≡ (none, l)) × (create_fd true l none mapped ≡ (none, l))
unfolding create_fd
create_fd-none l none mapped = (refl, refl)
create_fd-none l (some f) mapped = (refl, refl)

-- the last element of a list that is not empty
abbrev pub last : FileStore → List FileStore → FileStore
last s [] = s
last s (t ∷ rest) = last t rest

store_loop-NotOpen :
    (fd : ℕ) (l : List FileStore) (s : FileStore)
    → NotOpen fd l
    → store_loop fd l (some s) ≡ some (last s l)
unfolding store_loop
store_loop-NotOpen fd [] s h = refl
store_loop-NotOpen fd (t ∷ rest) s h =
    let e : (t.fd == fd) ≡ false = ground arith in rw e (store_loop-NotOpen fd rest t h.1)

-- `fd_to_file` of a descriptor that is from 2 up, positive as an int and not open returns the file
-- that was opened first, if any file is open.
pub fd_to_file-NotOpen :
    (fd : ℕ) (s : FileStore) (rest : List FileStore)
    → min_user_fd ≤ fd
    → fd < 2 ^ 31
    → NotOpen fd (s ∷ rest)
    → fd_to_file fd (s ∷ rest) ≡ some (last s rest).file
unfolding fd_to_file fd_to_file_store store_loop
fd_to_file-NotOpen fd s rest m k h =
    let a : (ltb fd min_user_fd || leb (2 ^ 31) fd) ≡ false = ground arith in
    let b : (s.fd == fd) ≡ false = ground arith in
    rw (fd_to_file, a, b, store_loop-NotOpen fd rest s h.1)

list_remove-last-lem : (s : FileStore) (rest : List FileStore) → list_remove s.fd (s ∷ rest) ≡ rest
unfolding list_remove
list_remove-last-lem s rest = let e : (s.fd == s.fd) ≡ true = ground arith in rw e

-- So closing a descriptor that is not open closes the first file that the process opened: with one
-- file open, that one.
pub remove_fd-NotOpen :
    (fd : ℕ) (s : FileStore)
    → min_user_fd ≤ fd
    → fd < 2 ^ 31
    → s.fd ≢ fd
    → remove_fd fd (s ∷ []) ≡ (some s.file, [])
unfolding remove_fd fd_to_file_store store_loop
remove_fd-NotOpen fd s m k h =
    let a : (ltb fd min_user_fd || leb (2 ^ 31) fd) ≡ false = ground arith in
    let b : (s.fd == fd) ≡ false = ground arith in rw (remove_fd, a, b, list_remove-last-lem s [])
