-- ===== src/UserPrograms/Descriptors/Tests.antt =====
-- The theorems at a process with two open files.
use cs124_my_pintos.Common.{
  ℕ, ◌≡◌, refl, true, false, some, List, [], ◌∷◌, arith, ◌==◌, if◌then◌else◌,
}
use cs124_my_pintos.UserPrograms.Descriptors.{
  FileStore, create_fd, fd_to_file_store, fd_to_file, remove_fd,
}
use cs124_my_pintos.UserPrograms.Descriptors.Laws.{
  IsDescending, NotOpen, open_file, create_fd-fresh, fd_to_file_store-open, fd_to_file-NotOpen,
}

abbrev two : List FileStore
two =
    record { fd = 4; file = 70; mapped = false } ∷ record { fd = 2; file = 50; mapped = false } ∷ []

two-IsDescending : IsDescending two
two-IsDescending = omega arith

create_fd-fresh_example :
    (fd : ℕ) × ((create_fd true two (some 90) false).0 ≡ some fd)
    × NotOpen fd two
    × IsDescending (create_fd true two (some 90) false).1
    × ((k : ℕ)
        → open_file k (create_fd true two (some 90) false).1 ≡ (
            if fd == k
            then some (record { fd = fd; file = 90; mapped = false })
            else open_file k two))
create_fd-fresh_example = create_fd-fresh two 90 false two-IsDescending

finds_two : fd_to_file_store 2 two ≡ some (record { fd = 2; file = 50; mapped = false })
unfolding open_file
finds_two = fd_to_file_store-open 2 two _ (omega arith) two-IsDescending refl

-- Descriptor 3 is not open, and finds the file of descriptor 2.
fd_to_file-NotOpen_example : fd_to_file 3 two ≡ some 50
fd_to_file-NotOpen_example =
    fd_to_file-NotOpen 3 (record { fd = 4; file = 70; mapped = false })
      (record { fd = 2; file = 50; mapped = false } ∷ []) (omega arith) (omega arith) (omega arith)

closes_wrong_file : (remove_fd 3 two).0 ≡ some 50
unfolding remove_fd fd_to_file_store
closes_wrong_file = refl
