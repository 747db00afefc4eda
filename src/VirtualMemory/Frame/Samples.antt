-- ===== src/VirtualMemory/Frame/Samples.antt =====
-- A machine with two frames, a directory 7 with one page table, and a swap block of two pages.
use cs124_my_pintos.Common.{
  ℕ, ◌+◌, refl, none, some, [], ◌∷◌, arith, ◌==◌, if◌then◌else◌, pos, count,
}
use cs124_my_pintos.VirtualMemory.Swap.{SwapBlock}
use cs124_my_pintos.VirtualMemory.Swap.Slots.{IsValid}
use cs124_my_pintos.VirtualMemory.Pagedir.{empty_pte, Memory}
use cs124_my_pintos.VirtualMemory.Page.Laws.{file_page}
use cs124_my_pintos.VirtualMemory.Frame.{Frame, Vm}
use cs124_my_pintos.VirtualMemory.Frame.Alloc.{unused}

abbrev pub swap_block : SwapBlock ℕ
swap_block = record {
  Disk = ℕ → ℕ;
  block_size = 16;
  block_read = λ d i. d i;
  block_write = λ d i x j. if j == i then x else d j;
  read-write_self = λ d i x h. ground arith;
  read-write_ne = λ d i j x h. ground arith;
}

abbrev pub memory : Memory
memory = record {
  directories = λ d i. if d == 7 then (if i == 32 then some 9 else none) else none;
  tables = λ t j. empty_pte;
  active = 7;
  loads = 1;
  freed = [];
}

abbrev pub first_frame : Frame
first_frame = record { kpage = 0xc0004000; pd = some 7; upage = 0x8048000 }

abbrev pub second_frame : Frame
second_frame = record { kpage = 0xc0005000; pd = none; upage = 0 }

abbrev pub machine : Vm swap_block
machine = record {
  frames = unused (first_frame ∷ second_frame ∷ []) 0;
  process = record {
    sup_page_table = file_page 7 0x8048000 3 (pos 0) ∷ [];
    pagedir = 7;
    memory = memory;
  };
  swap = record { next_sector = 8; swap_occupied = 0 ∷ []; swap_unoccupied = []; disk = λ i. i };
  ram = λ k i. k + i;
}

pub swap-IsValid : IsValid swap_block machine.swap
unfolding count
swap-IsValid = record {
  whole_block = refl;
  block_word = omega arith;
  next_aligned = refl;
  next_bounded = omega arith;
  slots_aligned = λ f h. ground arith;
  slots_bounded = λ f h. ground arith;
  slots_once = λ f. ground arith;
}
