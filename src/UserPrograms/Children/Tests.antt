-- ===== src/UserPrograms/Children/Tests.antt =====
-- The theorems at a parent of two children.
use cs124_my_pintos.Common.{ℕ, ◌≡◌, ◌≢◌, refl, true, [], ◌∷◌, arith, ◌+◌}
use cs124_my_pintos.UserPrograms.Children.{
  Child, Parent, minus_one, find_child, process_wait, process_wait_once,
}

abbrev mother : Parent
mother = record {
  children_init = true;
  children = record { tid = 5; status = minus_one } ∷ record { tid = 7; status = minus_one } ∷ [];
}

-- A child exits with its own number plus one.
abbrev exited : Child → ℕ
exited c = c.tid + 1

process_wait_once_example :
    ((process_wait exited mother 7).0 ≡ 8)
    × ((process_wait exited (process_wait exited mother 7).1 7).0 ≡ minus_one)
    × ((k : ℕ)
        → 7 ≢ k
        → (process_wait exited (process_wait exited mother 7).1 k).0
          ≡ (process_wait exited mother k).0)
unfolding find_child
process_wait_once_example =
    process_wait_once exited mother 7 (record { tid = 7; status = minus_one }) refl (omega arith)
      refl
