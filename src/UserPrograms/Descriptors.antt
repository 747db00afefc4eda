-- ===== src/UserPrograms/Descriptors.antt =====
-- The file descriptors of a process: `create_fd`, `fd_to_file_store`, `fd_to_file` and `remove_fd` of
-- virtual-memory/userprog/syscall.c. A file is a number; fewer than 2 ^ 31 are opened.
pub mod Laws
mod Tests
use cs124_my_pintos.Common.{
  ℕ, ◌+◌, Bool, true, false, Option, none, some, List, [], ◌∷◌, ◌==◌, ◌||◌, ◌^◌, ltb, leb,
  if◌then◌else◌,
}

abbrev pub min_user_fd : ℕ
min_user_fd = 2

-- `struct file_store`
pub record FileStore : Type 0 where
  pub fd : ℕ
  pub file : ℕ
  pub mapped : Bool

-- the number that `create_fd` takes
unfoldable pub next_fd : List FileStore → ℕ
next_fd [] = min_user_fd
next_fd (s ∷ _) = s.fd + 1

-- `memory` says whether `malloc` succeeds; the result none is -1.
unfoldable pub create_fd :
    (memory : Bool) → List FileStore → Option ℕ → Bool → Option ℕ × List FileStore
unfolding next_fd
create_fd memory files_open none mapped = (none, files_open)
create_fd memory files_open (some f) mapped =
    let fd = next_fd files_open in
    if memory
    then (some fd, record { fd = fd; file = f; mapped = mapped } ∷ files_open)
    else (none, files_open)

-- The loop of `fd_to_file_store`; `file_s` keeps the element looked at last.
unfoldable pub store_loop : ℕ → List FileStore → Option FileStore → Option FileStore
store_loop fd [] file_s = file_s
store_loop fd (s ∷ rest) file_s =
    let later = store_loop fd rest (some s) in if s.fd == fd then some s else later

-- `fd` is the number of its 32 bits: from 2 ^ 31 on it is a negative int.
unfoldable pub fd_to_file_store : ℕ → List FileStore → Option FileStore
unfolding store_loop
fd_to_file_store fd files_open =
    if ltb fd min_user_fd || leb (2 ^ 31) fd then none else store_loop fd files_open none

unfoldable pub fd_to_file : ℕ → List FileStore → Option ℕ
fd_to_file fd files_open = elim (fd_to_file_store fd files_open) [
  | none ↦ none
  | some s ↦ some s.file
]

-- `list_remove` of the element of that descriptor
unfoldable pub list_remove : ℕ → List FileStore → List FileStore
list_remove fd [] = []
list_remove fd (s ∷ rest) =
    let later = list_remove fd rest in if s.fd == fd then rest else s ∷ later

unfoldable pub remove_fd : ℕ → List FileStore → Option ℕ × List FileStore
unfolding list_remove
remove_fd fd files_open = elim (fd_to_file_store fd files_open) [
  | none ↦ (none, files_open)
  | some s ↦ (some s.file, list_remove s.fd files_open)
]
