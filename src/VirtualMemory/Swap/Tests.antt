-- ===== src/VirtualMemory/Swap/Tests.antt =====
-- The theorems on a swap block of two pages, one of which is in use.
use cs124_my_pintos.Common.{
  ℕ, ◌+◌, ◌<◌, ◌≡◌, ◌≢◌, refl, inr, some, [], ◌∷◌, arith, ◌==◌, if◌then◌else◌, count,
}
use cs124_my_pintos.VirtualMemory.Swap.{
  swap_slot_num_sectors, SwapBlock, SwapSlot, Swap, swap_init, swap_in, swap_out,
}
use cs124_my_pintos.VirtualMemory.Swap.Slots.{IsValid}
use cs124_my_pintos.VirtualMemory.Swap.Laws.{
  swap_init-IsValid, swap_out-Stored, swap_in-frees, Stored,
}

abbrev sample_swap : SwapBlock ℕ
sample_swap = record {
  Disk = ℕ → ℕ;
  block_size = 16;
  block_read = λ d i. d i;
  block_write = λ d i x j. if j == i then x else d j;
  read-write_self = λ d i x h. ground arith;
  read-write_ne = λ d i j x h. ground arith;
}

abbrev one_out : Swap sample_swap
one_out = record { next_sector = 8; swap_occupied = 0 ∷ []; swap_unoccupied = []; disk = λ i. i }

one_out-IsValid : IsValid sample_swap one_out
unfolding count
one_out-IsValid = record {
  whole_block = refl;
  block_word = omega arith;
  next_aligned = refl;
  next_bounded = omega arith;
  slots_aligned = λ f h. ground arith;
  slots_bounded = λ f h. ground arith;
  slots_once = λ f. ground arith;
}

swap_init-IsValid_example : IsValid sample_swap (swap_init sample_swap (λ i. i))
swap_init-IsValid_example = swap_init-IsValid sample_swap (λ i. i) refl (omega arith)

swap_out-Stored_example :
    (ss : SwapSlot) × (t : Swap sample_swap) × (swap_out sample_swap (λ i. i + 100) one_out
      ≡ some (ss, t))
    × IsValid sample_swap t
    × Stored sample_swap (λ i. i + 100) one_out t ss
swap_out-Stored_example =
    swap_out-Stored sample_swap (λ i. i + 100) one_out one_out-IsValid (inr (omega arith))

swap_in-frees_example :
    let (page, t) = swap_in sample_swap 0 (λ i. 7) one_out in
    ((i : ℕ) → i < swap_slot_num_sectors → page i ≡ 0 + i)
    × (count 0 t.swap_occupied ≡ 0)
    × (count 0 t.swap_unoccupied ≡ 1)
    × ((f : SwapSlot)
        → f ≢ 0
        → (count f t.swap_occupied ≡ count f one_out.swap_occupied)
          × (count f t.swap_unoccupied ≡ count f one_out.swap_unoccupied))
    × (t.next_sector ≡ one_out.next_sector)
    × (t.disk ≡ one_out.disk)
    × IsValid sample_swap t
unfolding count
swap_in-frees_example = swap_in-frees sample_swap 0 (λ i. 7) one_out one_out-IsValid (omega arith)
