-- ===== src/VirtualMemory/Swap.antt =====
-- virtual-memory/vm/swap.c: the slots of the swap block. A page is a
-- function from the numbers of its sectors; the block is an interface, and `swap_slot_num_sectors` is `SWAP_SLOT_NUM_SECTORS` of swap.h. The locks,
-- which each hold for one update of the lists, are not part of the model.
pub mod Slots
pub mod Laws
mod Tests
use cs124_my_pintos.Common.{
  ℕ, zero, suc, ◌+◌, ◌*◌, Bool, true, false, Option, none, some, List, [], ◌∷◌, ◌++◌, ◌==◌, leb,
  ◌^◌, ◌%◌, ◌<◌, ◌≡◌, ◌≢◌, if◌then◌else◌,
}

-- PGSIZE / BLOCK_SECTOR_SIZE
abbrev pub swap_slot_num_sectors : ℕ
swap_slot_num_sectors = 8

-- The swap block: `Disk` is what it holds. A sector that was written reads back, and no other
-- sector changes.
pub record SwapBlock (Sector : Type 0) : Type 1 where
  pub Disk : Type 0
  pub block_size : ℕ
  pub block_read : Disk → ℕ → Sector
  pub block_write : Disk → ℕ → Sector → Disk
  pub read-write_self :
      (d : Disk) (i : ℕ) (x : Sector) → i < block_size → block_read (block_write d i x) i ≡ x
  pub read-write_ne :
      (d : Disk) (i j : ℕ) (x : Sector) → i ≢ j → block_read (block_write d i x) j ≡ block_read d j

-- A slot is an object of its own with a `first_sector` that never changes, and stands for it here.
abbrev pub SwapSlot : Type 0
SwapSlot = ℕ

-- The removal of an element from the list that it is in.
unfoldable pub list_remove : SwapSlot → List SwapSlot → List SwapSlot
list_remove f [] = []
list_remove f (x ∷ xs) = if f == x then xs else x ∷ list_remove f xs

module _ {Sector : Type 0} (block : SwapBlock Sector) where
  pub record Swap : Type 0 where
    pub next_sector : ℕ
    pub swap_occupied : List SwapSlot
    pub swap_unoccupied : List SwapSlot
    pub disk : block.Disk

  unfoldable pub swap_init : block.Disk → Swap
  swap_init d = record { next_sector = 0; swap_occupied = []; swap_unoccupied = []; disk = d }

  -- The slot is `none` for NULL. `malloc` finds memory, which the code does not test.
  unfoldable pub get_slot : Swap → Option SwapSlot × Swap
  get_slot s = elim s.swap_unoccupied [
    | [] ↦ if leb block.block_size s.next_sector then (none, s) else (
      some s.next_sector,
      record s {
        next_sector = (s.next_sector + swap_slot_num_sectors) % 2 ^ 32;
        swap_occupied = s.swap_occupied ++ (s.next_sector ∷ []);
      },
    )
    | ss ∷ rest ↦
        (some ss, record s { swap_unoccupied = rest; swap_occupied = s.swap_occupied ++ (ss ∷ []) })
  ]

  -- The first `n` rounds of the loop of `swap_out`, from the page at `kpage`.
  unfoldable pub write_loop : (n : ℕ) → SwapSlot → (kpage : ℕ → Sector) → block.Disk → block.Disk
  write_loop zero ss kpage d = d
  write_loop (suc n) ss kpage d = block.block_write (write_loop n ss kpage d) (ss + n) (kpage n)

  -- The first `n` rounds of the loop of `swap_in`: the page afterwards.
  unfoldable pub read_loop : (n : ℕ) → SwapSlot → (kpage : ℕ → Sector) → block.Disk → ℕ → Sector
  read_loop zero ss kpage d i = kpage i
  read_loop (suc n) ss kpage d i =
      if i == n then block.block_read d (ss + n) else read_loop n ss kpage d i

  unfoldable pub swap_in : SwapSlot → (kpage : ℕ → Sector) → Swap → (ℕ → Sector) × Swap
  unfolding read_loop list_remove
  swap_in ss kpage s = (
    read_loop swap_slot_num_sectors ss kpage s.disk,
    record s {
      swap_occupied = list_remove ss s.swap_occupied;
      swap_unoccupied = list_remove ss s.swap_unoccupied ++ (ss ∷ []);
    },
  )

  -- `none`: the code goes on with a slot that is NULL.
  unfoldable pub swap_out : (kpage : ℕ → Sector) → Swap → Option (SwapSlot × Swap)
  unfolding get_slot write_loop
  swap_out kpage s =
      let (slot, t) = get_slot s in
      elim slot [
        | none ↦ none
        | some ss ↦ some (ss, record t { disk = write_loop swap_slot_num_sectors ss kpage t.disk })
      ]
