-- ===== src/VirtualMemory/Swap/Slots.antt =====
-- The slots of the swap block: what is in the two lists, and what `get_slot`, the loops and the
-- removal from a list do to them.
use cs124_my_pintos.Common.{
  ℕ, zero, suc, ◌+◌, ◌%◌, ◌^◌, ◌≤◌, ◌<◌, ◌≡◌, ◌≢◌, refl, sym, subst, ◌∙◌, ap, ◌⊎◌, inl, inr, false,
  some, List, [], ◌∷◌, ◌++◌, arith, ◌==◌, leb, if◌then◌else◌, Bool-cases, count, count-append_one,
}
use cs124_my_pintos.VirtualMemory.Swap.{
  swap_slot_num_sectors, SwapBlock, SwapSlot, list_remove, Swap, get_slot, write_loop, read_loop,
}

pub count-list_remove :
    (f ss : SwapSlot) (xs : List SwapSlot)
    → count f xs ≤ 1
    → count f (list_remove ss xs) ≡ (if f == ss then 0 else count f xs)
unfolding count list_remove
count-list_remove f ss [] h = ground arith
count-list_remove f ss (x ∷ xs) h = let r = count-list_remove f ss xs in ground arith

-- What moves a slot from one list to the end of the other keeps the count of every slot.
pub count-move :
    (f ss : SwapSlot) (xs ys : List SwapSlot)
    → ((g : SwapSlot) → count g xs + count g ys ≤ 1)
    → 0 < count ss xs
    → count f (list_remove ss xs) + count f (list_remove ss ys ++ (ss ∷ []))
      ≡ count f xs + count f ys
count-move f ss xs ys once h =
    let o = once f in
    let q = once ss in
    let a = count-list_remove f ss xs (omega arith) in
    let b = count-list_remove f ss ys (omega arith) in
    let c = count-append_one f (list_remove ss ys) ss in
    elim (Bool-cases (f == ss)) [
      | inr n ↦ ground arith
      | inl e ↦
          let p : f ≡ ss = ground arith in
          let k : count f xs ≡ count ss xs = ap (λ g. count g xs) p in ground arith
    ]

module _ {Sector : Type 0} (block : SwapBlock Sector) where
  -- Every slot is in one list, once; the slots lie on the block, at multiples of a page.
  pub record IsValid (s : Swap block) : Type 0 where
    pub whole_block : block.block_size % swap_slot_num_sectors ≡ 0
    pub block_word : block.block_size < 2 ^ 32
    pub next_aligned : s.next_sector % swap_slot_num_sectors ≡ 0
    pub next_bounded : s.next_sector ≤ block.block_size
    pub slots_aligned :
        (f : SwapSlot)
        → 0 < count f s.swap_occupied + count f s.swap_unoccupied
        → f % swap_slot_num_sectors ≡ 0
    pub slots_bounded :
        (f : SwapSlot)
        → 0 < count f s.swap_occupied + count f s.swap_unoccupied
        → f + swap_slot_num_sectors ≤ s.next_sector
    pub slots_once : (f : SwapSlot) → count f s.swap_occupied + count f s.swap_unoccupied ≤ 1

  pub write_loop_self :
      (n ss : ℕ) (kpage : ℕ → Sector) (d : block.Disk) (i : ℕ)
      → ss + n ≤ block.block_size
      → i < n
      → block.block_read (write_loop block n ss kpage d) (ss + i) ≡ kpage i
  unfolding write_loop
  write_loop_self zero ss kpage d i h l = absurd (omega arith)
  write_loop_self (suc n) ss kpage d i h l = elim (Bool-cases (i == n)) [
    | inl b ↦
        let e : i ≡ n = ground arith in
        subst (λ i. block.block_read (write_loop block (suc n) ss kpage d) (ss + i) ≡ kpage i)
          (sym e)
          (block.read-write_self (write_loop block n ss kpage d) (ss + n) (kpage n) (omega arith))
    | inr b ↦
        let e : i ≢ n = ground arith in
        block.read-write_ne (write_loop block n ss kpage d) (ss + n) (ss + i) (kpage n)
          (omega arith)
        ∙ write_loop_self n ss kpage d i (omega arith) (omega arith)
  ]

  pub write_loop-ne :
      (n ss : ℕ) (kpage : ℕ → Sector) (d : block.Disk) (j : ℕ)
      → (j < ss) ⊎ (ss + n ≤ j)
      → block.block_read (write_loop block n ss kpage d) j ≡ block.block_read d j
  unfolding write_loop
  write_loop-ne zero ss kpage d j h = refl
  write_loop-ne (suc n) ss kpage d j h =
      block.read-write_ne (write_loop block n ss kpage d) (ss + n) j (kpage n) (omega arith)
      ∙ write_loop-ne n ss kpage d j (omega arith)

  pub read_loop_self :
      (n ss : ℕ) (kpage : ℕ → Sector) (d : block.Disk) (i : ℕ)
      → i < n
      → read_loop block n ss kpage d i ≡ block.block_read d (ss + i)
  unfolding read_loop
  read_loop_self zero ss kpage d i l = absurd (omega arith)
  read_loop_self (suc n) ss kpage d i l = elim (Bool-cases (i == n)) [
    | inl b ↦ let e : i ≡ n = ground arith in rw b (ap (λ k. block.block_read d (ss + k)) (sym e))
    | inr b ↦ let e : i ≢ n = ground arith in rw b (read_loop_self n ss kpage d i (omega arith))
  ]

  abbrev pub HasRoom : Swap block → Type 0
  HasRoom s = (s.swap_unoccupied ≢ []) ⊎ (s.next_sector < block.block_size)

  -- What `get_slot` gives.
  pub record GotSlot (s t : Swap block) (ss : SwapSlot) : Type 0 where
    pub was_free : count ss s.swap_occupied ≡ 0
    pub valid : IsValid t
    pub same_disk : t.disk ≡ s.disk
    pub occupied :
        (f : SwapSlot)
        → count f t.swap_occupied ≡ count f s.swap_occupied + (if f == ss then 1 else 0)
    pub aligned : ss % swap_slot_num_sectors ≡ 0
    pub on_block : ss + swap_slot_num_sectors ≤ block.block_size

  -- A new slot, from the end of those in use.
  new_slot-GotSlot :
      (next : ℕ) (occ : List SwapSlot) (d : block.Disk)
      → let s : Swap block = record {
        next_sector = next;
        swap_occupied = occ;
        swap_unoccupied = [];
        disk = d;
      } in
        IsValid s
        → next < block.block_size
        → (t : Swap block) × (get_slot block s ≡ (some next, t)) × GotSlot s t next
  unfolding get_slot count
  new_slot-GotSlot next occ d v l =
      let b : leb block.block_size next ≡ false = ground arith in
      let m = v.next_aligned in
      let w = v.whole_block in
      let q = v.block_word in
      (
        record {
          next_sector = (next + swap_slot_num_sectors) % 2 ^ 32;
          swap_occupied = occ ++ (next ∷ []);
          swap_unoccupied = [];
          disk = d;
        },
        rw b refl,
        record {
          was_free = let a = v.slots_bounded next in grind arith;
          valid = record {
            whole_block = w;
            block_word = q;
            next_aligned = omega arith;
            next_bounded = omega arith;
            slots_aligned = λ f h.
                let c = count-append_one f occ next in let a = v.slots_aligned f in ground arith;
            slots_bounded = λ f h.
                let c = count-append_one f occ next in let a = v.slots_bounded f in ground arith;
            slots_once = λ f.
                let c = count-append_one f occ next in
                let a = v.slots_bounded f in let o = v.slots_once f in ground arith;
          };
          same_disk = refl;
          occupied = λ f. count-append_one f occ next;
          aligned = m;
          on_block = omega arith;
        },
      )

  -- A slot that was given back.
  old_slot-GotSlot :
      (next ss : ℕ) (occ rest : List SwapSlot) (d : block.Disk)
      → let s : Swap block = record {
        next_sector = next;
        swap_occupied = occ;
        swap_unoccupied = ss ∷ rest;
        disk = d;
      } in
        IsValid s → (t : Swap block) × (get_slot block s ≡ (some ss, t)) × GotSlot s t ss
  unfolding get_slot count
  old_slot-GotSlot next ss occ rest d v =
      let n = v.next_bounded in
      let a = v.slots_aligned ss in
      let b = v.slots_bounded ss in
      let o = v.slots_once ss in
      let self : Path ℕ (if ss == ss then 1 else 0) 1 = ground arith in
      (
        record {
          next_sector = next;
          swap_occupied = occ ++ (ss ∷ []);
          swap_unoccupied = rest;
          disk = d;
        },
        refl,
        record {
          was_free = omega arith;
          valid = record {
            whole_block = v.whole_block;
            block_word = v.block_word;
            next_aligned = v.next_aligned;
            next_bounded = n;
            slots_aligned =
                λ f h. let c = count-append_one f occ ss in v.slots_aligned f (omega arith);
            slots_bounded =
                λ f h. let c = count-append_one f occ ss in v.slots_bounded f (omega arith);
            slots_once =
                λ f. let c = count-append_one f occ ss in let o = v.slots_once f in omega arith;
          };
          same_disk = refl;
          occupied = λ f. count-append_one f occ ss;
          aligned = a (omega arith);
          on_block = let e = b (omega arith) in omega arith;
        },
      )

  pub get_slot-GotSlot :
      (next : ℕ) (occ u : List SwapSlot) (d : block.Disk)
      → let s : Swap block = record {
        next_sector = next;
        swap_occupied = occ;
        swap_unoccupied = u;
        disk = d;
      } in
        IsValid s
        → HasRoom s
        → (ss : SwapSlot) × (t : Swap block) × (get_slot block s ≡ (some ss, t)) × GotSlot s t ss
  get_slot-GotSlot next occ [] d v (inl h) = absurd (h refl)
  get_slot-GotSlot next occ [] d v (inr h) =
      let (t, e, g) = new_slot-GotSlot next occ d v h in (next, t, e, g)
  get_slot-GotSlot next occ (ss ∷ rest) d v h =
      let (t, e, g) = old_slot-GotSlot next ss occ rest d v in (ss, t, e, g)
