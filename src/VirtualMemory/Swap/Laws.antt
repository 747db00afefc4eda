-- ===== src/VirtualMemory/Swap/Laws.antt =====
-- `swap_out` and `swap_in` of vm/swap.c, on the pages in the slots.
use cs124_my_pintos.Common.{
  count-append_one, ℕ, ◌+◌, ◌%◌, ◌^◌, ◌<◌, ◌≡◌, ◌≢◌, refl, sym, subst, ◌∙◌, ap, Option, none, some,
  arith, count,
}
use cs124_my_pintos.VirtualMemory.Swap.{
  list_remove, swap_slot_num_sectors, SwapBlock, SwapSlot, Swap, swap_init, get_slot, write_loop,
  swap_in, swap_out,
}
use cs124_my_pintos.VirtualMemory.Swap.Slots.{
  count-list_remove, count-move, IsValid, write_loop_self, write_loop-ne, read_loop_self, HasRoom,
  GotSlot, get_slot-GotSlot,
}

module _ {Sector : Type 0} (block : SwapBlock Sector) where
  -- The slots do not depend on what is on the disk.
  on_disk :
      (t : Swap block) (d : block.Disk) → IsValid block t → IsValid block (record t { disk = d })
  on_disk t d v = record {
    whole_block = v.whole_block;
    block_word = v.block_word;
    next_aligned = v.next_aligned;
    next_bounded = v.next_bounded;
    slots_aligned = v.slots_aligned;
    slots_bounded = v.slots_bounded;
    slots_once = v.slots_once;
  }

  abbrev pub Stored : (kpage : ℕ → Sector) (s t : Swap block) (ss : SwapSlot) → Type 0
  Stored kpage s t ss =
      (count ss s.swap_occupied ≡ 0)
      × (count ss t.swap_occupied ≡ 1)
      × ((i : ℕ) → i < swap_slot_num_sectors → block.block_read t.disk (ss + i) ≡ kpage i)
      × ((f i : ℕ)
          → 0 < count f s.swap_occupied
          → i < swap_slot_num_sectors
          → block.block_read t.disk (f + i) ≡ block.block_read s.disk (f + i))

  written-Stored :
      (kpage : ℕ → Sector) (s t : Swap block) (ss : SwapSlot)
      → IsValid block s
      → GotSlot block s t ss
      → Stored kpage s
          (record t { disk = write_loop block swap_slot_num_sectors ss kpage t.disk })
          ss
  written-Stored kpage s t ss v g = (
    g.was_free,
    (let o = g.occupied ss in let w = g.was_free in ground arith),
    λ i l. write_loop_self block swap_slot_num_sectors ss kpage t.disk i g.on_block l,
    λ f i h l.
        let a = v.slots_aligned f (omega arith) in
        let b = g.aligned in
        let w = g.was_free in
        let ne : f ≢ ss = λ e.
          let k : count f s.swap_occupied ≡ 0 =
            subst (λ f. count f s.swap_occupied ≡ 0) (sym e) w in
          omega arith in
        write_loop-ne block swap_slot_num_sectors ss kpage t.disk (f + i) (omega arith)
        ∙ ap (λ d. block.block_read d (f + i)) g.same_disk,
  )

  swap_out-get_slot :
      (kpage : ℕ → Sector) (s t : Swap block) (ss : SwapSlot)
      → get_slot block s ≡ (some ss, t)
      → swap_out block kpage s
        ≡ some (ss, record t { disk = write_loop block swap_slot_num_sectors ss kpage t.disk })
  unfolding swap_out
  swap_out-get_slot kpage s t ss e =
      ap
        (λ (r : Option SwapSlot × Swap block). elim r.0 as (λ x. Option (SwapSlot × Swap block)) [
          | none ↦ none
          | some ss ↦
              some
                (ss, record r.1 { disk = write_loop block swap_slot_num_sectors ss kpage r.1.disk })
        ])
        e

  -- With valid slots and room on the swap block, `swap_out` succeeds with a slot that was free;
  -- the page is on the block, the pages of all occupied slots are unchanged, and the slots stay
  -- valid.
  pub swap_out-Stored :
      (kpage : ℕ → Sector) (s : Swap block)
      → IsValid block s
      → HasRoom block s
      → (ss : SwapSlot) × (t : Swap block) × (swap_out block kpage s ≡ some (ss, t))
        × IsValid block t
        × Stored kpage s t ss
  swap_out-Stored kpage s v room =
      let (ss, t, e, g) =
        get_slot-GotSlot block s.next_sector s.swap_occupied s.swap_unoccupied s.disk v room in
      (
        ss,
        record t { disk = write_loop block swap_slot_num_sectors ss kpage t.disk },
        swap_out-get_slot kpage s t ss e,
        on_disk t (write_loop block swap_slot_num_sectors ss kpage t.disk) g.valid,
        written-Stored kpage s t ss v g,
      )

  -- With valid slots, `swap_in` of an occupied slot gives the page that is in it and moves that
  -- slot, and no other, from the occupied to the unoccupied ones; the disk is unchanged and the
  -- slots stay valid.
  pub swap_in-frees :
      (ss : SwapSlot) (kpage : ℕ → Sector) (s : Swap block)
      → IsValid block s
      → 0 < count ss s.swap_occupied
      → let (page, t) = swap_in block ss kpage s in
        ((i : ℕ) → i < swap_slot_num_sectors → page i ≡ block.block_read s.disk (ss + i))
        × (count ss t.swap_occupied ≡ 0)
        × (count ss t.swap_unoccupied ≡ 1)
        × ((f : SwapSlot)
            → f ≢ ss
            → (count f t.swap_occupied ≡ count f s.swap_occupied)
              × (count f t.swap_unoccupied ≡ count f s.swap_unoccupied))
        × (t.next_sector ≡ s.next_sector)
        × (t.disk ≡ s.disk)
        × IsValid block t
  unfolding swap_in
  swap_in-frees ss kpage s v h = (
    λ i l. read_loop_self block swap_slot_num_sectors ss kpage s.disk i l,
    (let o = v.slots_once ss in
        let r = count-list_remove ss ss s.swap_occupied (omega arith) in ground arith),
    (let o = v.slots_once ss in
        let r = count-list_remove ss ss s.swap_unoccupied (omega arith) in
        let c = count-append_one ss (list_remove ss s.swap_unoccupied) ss in ground arith),
    λ f n.
        let o = v.slots_once f in
        let r = count-list_remove f ss s.swap_occupied (omega arith) in
        let q = count-list_remove f ss s.swap_unoccupied (omega arith) in
        let c = count-append_one f (list_remove ss s.swap_unoccupied) ss in
        (ground arith, ground arith),
    refl,
    refl,
    record {
      whole_block = v.whole_block;
      block_word = v.block_word;
      next_aligned = v.next_aligned;
      next_bounded = v.next_bounded;
      slots_aligned = λ f k.
          v.slots_aligned f (
            let m = count-move f ss s.swap_occupied s.swap_unoccupied v.slots_once h in
            omega arith);
      slots_bounded = λ f k.
          v.slots_bounded f (
            let m = count-move f ss s.swap_occupied s.swap_unoccupied v.slots_once h in
            omega arith);
      slots_once = λ f.
          let m = count-move f ss s.swap_occupied s.swap_unoccupied v.slots_once h in
          let o = v.slots_once f in omega arith;
    },
  )

  -- The slots are valid at the start, on a block of whole pages.
  pub swap_init-IsValid :
      (d : block.Disk)
      → block.block_size % swap_slot_num_sectors ≡ 0
      → block.block_size < 2 ^ 32
      → IsValid block (swap_init block d)
  unfolding swap_init count
  swap_init-IsValid d w q = record {
    whole_block = w;
    block_word = q;
    next_aligned = refl;
    next_bounded = omega arith;
    slots_aligned = λ f h. absurd (omega arith);
    slots_bounded = λ f h. absurd (omega arith);
    slots_once = λ f. omega arith;
  }
