-- ===== src/FileSystem/Inode/Indirect.antt =====
-- Where the entries of the indirect blocks go, in `append_sector` and `byte_to_sector_disk`.
use cs124_my_pintos.Common.{
  ℕ, zero, suc, ◌+◌, ◌-◌, ◌*◌, ◌/◌, ◌%◌, ◌^◌, ◌<◌, ◌≡◌, refl, sym, ◌∙◌, ap, ◌≢◌, inl, inr, Bool,
  true, false, ◌==◌, if◌then◌else◌, some, List, [], ◌∷◌, arith, length, get_or,
}
use cs124_my_pintos.FileSystem.Block.{block_sector_size}
use cs124_my_pintos.FileSystem.Cache.Defs.{no_sector, splice, slice}
use cs124_my_pintos.FileSystem.FreeMap.Defs.{free_map_sector}
use cs124_my_pintos.FileSystem.Volume.{Volume}
use cs124_my_pintos.FileSystem.Inode.Disk.{
  InodeDisk, num_direct, indirect_len, round_up, encode_short, decode_short, Outcome, outcome,
  append_entry, append_indirect, append_sector,
}
use cs124_my_pintos.FileSystem.Inode.Bytes.{IsWellFormed}
use cs124_my_pintos.FileSystem.Inode.Allocate.{allocate_short-Took}

-- The bytes of a block after entry `n` was written at byte offset `n`, read at the entry before.
splice-slice :
    (xs : List ℕ) (n a b : ℕ)
    → n + 2 < length xs
    → slice (splice xs (n + 1) (a ∷ b ∷ [])) n 2 ≡ get_or xs n 0 ∷ a ∷ []
unfolding splice slice
splice-slice [] n a b h = absurd (omega arith)
splice-slice (x ∷ []) n a b h = absurd (omega arith)
splice-slice (x ∷ y ∷ xs) zero a b h = refl
splice-slice (x ∷ y ∷ xs) (suc n) a b h =
    let e : suc n + 1 ≡ suc (n + 1) = omega arith in
    let f : suc (n + 1) + 2 ≡ suc (n + 1 + 2) = omega arith in
    rw (e, f) (splice-slice (y ∷ xs) n a b (omega arith))

splice-before :
    (xs : List ℕ) (i s : ℕ)
    → 0 < i
    → i + 1 < length xs
    → decode_short (slice (splice xs i (encode_short s)) (i - 1) 2)
      ≡ (get_or xs (i - 1) 0 + 256 * (s % 256)) % 2 ^ 16
unfolding decode_short encode_short
splice-before xs zero s h k = absurd (omega arith)
splice-before xs (suc n) s h k =
    let a : suc n - 1 ≡ n = omega arith in
    let b : suc n ≡ n + 1 = omega arith in
    rw (a, b, splice-slice xs n (s % 256) ((s / 256) % 256) (omega arith))

module _ (volume : Volume) where
  open volume use {
    State, IsValid, contents, in_use, cache_write, cache_write-splice, length-contents,
  }

  -- The step from the last direct block to the first indirect one: no block is allocated.
  first_indirect :
      (v : State) (d : InodeDisk)
      → d.len ≡ num_direct * block_sector_size
      → append_sector volume v d
        ≡ append_entry volume v d num_direct ((num_direct + 1) * block_sector_size) false
  unfolding append_sector append_indirect round_up
  first_indirect v d e = simp e

  -- What `append_entry` does to the block that it is given: the new sector's number is laid over two
  -- bytes of it, at the entry's index counted in bytes.
  append_entry-splice :
      (v : State) (d : InodeDisk) (idx n : ℕ)
      → IsValid v
      → IsWellFormed d
      → let block = get_or d.indirect ((idx - num_direct) / indirect_len) 0 in
        in_use v block ≡ true
        → (o : Outcome volume Bool) × (append_entry volume v d idx n false ≡ some o)
          × (o.result ≡ true
              → (s : ℕ) × (in_use v s ≡ false)
                × (o.disk ≡ record d { len = n })
                × ((t : ℕ) → in_use o.volume_after t ≡ (if s == t then true else in_use v t))
                × (contents o.volume_after block
                    ≡ splice
                        (contents v block)
                        ((idx - num_direct) % indirect_len)
                        (encode_short s)))
  unfolding append_entry encode_short
  append_entry-splice v d idx n h w held =
      let block = get_or d.indirect ((idx - num_direct) / indirect_len) 0 in
      elim (allocate_short-Took volume v h) [
        | inl (v', e, s) ↦ (outcome volume false d v', rw (e, append_entry), λ q. cc)
        | inr (s, v', e, t) ↦
            let real : block ≢ no_sector =
              λ q. omega (arith, w.indirect_short ((idx - num_direct) / indirect_len)) in
            let (v2, got, valid, same, used) =
              cache_write-splice v' block (encode_short s) 2 ((idx - num_direct) % indirect_len)
                t.valid real (omega arith) (omega arith) in
            let apart : s ≢ block = λ q. cc (sym held, ap (in_use v) (sym q), t.was_free) in
            (
              outcome volume true (record d { len = n }) v2,
              rw (e, append_entry, got),
              λ _. (
                s,
                t.was_free,
                refl,
                λ x. used x ∙ t.same_use x,
                ground (arith, same block real, t.same block real apart),
              ),
            )
      ]

  -- On a valid volume where sector 0 is in use, growing a well-formed file of 188 sectors whose
  -- first indirect number is 0 fails no assertion; if it succeeds, it has taken one sector and
  -- none for an indirect block, the numbers of the inode are as before, and the number of the new
  -- sector is written to the first two bytes of sector 0, the inode of the free map.
  pub append_sector-free_map_sector :
      (v : State) (d : InodeDisk)
      → IsValid v
      → IsWellFormed d
      → d.len ≡ num_direct * block_sector_size
      → get_or d.indirect 0 0 ≡ free_map_sector
      → in_use v free_map_sector ≡ true
      → (o : Outcome volume Bool) × (append_sector volume v d ≡ some o)
        × (o.result ≡ true
            → (s : ℕ) × (in_use v s ≡ false)
              × (o.disk ≡ record d { len = (num_direct + 1) * block_sector_size })
              × ((t : ℕ) → in_use o.volume_after t ≡ (if s == t then true else in_use v t))
              × (contents o.volume_after free_map_sector
                  ≡ splice (contents v free_map_sector) 0 (encode_short s)))
  append_sector-free_map_sector v d h w e z held =
      let (o, r, k) =
        append_entry-splice v d num_direct ((num_direct + 1) * block_sector_size) h w (rw z held) in
      (
        o,
        first_indirect v d e ∙ r,
        λ q. let (s, free, kept, took, put) = k q in (s, free, kept, took, rw z at put),
      )

  -- Appending an entry to an indirect block leaves the low byte of the entry before it and
  -- replaces its high byte, since entries are two bytes long and one byte apart.
  pub append_entry-overlap :
      (v : State) (d : InodeDisk) (idx n : ℕ)
      → IsValid v
      → IsWellFormed d
      → 0 < (idx - num_direct) % indirect_len
      → let block = get_or d.indirect ((idx - num_direct) / indirect_len) 0 in
        let before = (idx - num_direct) % indirect_len - 1 in
        in_use v block ≡ true
        → (o : Outcome volume Bool) × (append_entry volume v d idx n false ≡ some o)
          × (o.result ≡ true
              → (s : ℕ) × (in_use v s ≡ false)
                × (decode_short (slice (contents o.volume_after block) before 2)
                    ≡ (get_or (contents v block) before 0 + 256 * (s % 256)) % 2 ^ 16))
  append_entry-overlap v d idx n h w pos held =
      let block = get_or d.indirect ((idx - num_direct) / indirect_len) 0 in
      let (o, r, k) = append_entry-splice v d idx n h w held in
      let full : length (contents v block) ≡ block_sector_size =
        length-contents v block h
          (λ q. omega (arith, w.indirect_short ((idx - num_direct) / indirect_len))) in
      (
        o,
        r,
        λ q.
            let (s, free, kept, took, put) = k q in
            (
              s,
              free,
              rw put (
                  splice-before (contents v block) ((idx - num_direct) % indirect_len) s pos
                    (omega (arith, full))),
            ),
      )
