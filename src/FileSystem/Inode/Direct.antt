-- ===== src/FileSystem/Inode/Direct.antt =====
-- file-system/filesys/inode.c: `append_sector` and `byte_to_sector_disk` on the direct sectors of a file.
use cs124_my_pintos.Common.{
  ℕ, ◌+◌, ◌-◌, ◌*◌, ◌/◌, ◌%◌, ◌≤◌, ◌<◌, ◌≡◌, refl, ◌∙◌, ap, ◌≢◌, ◌⊎◌, inl, inr, Bool, true, false,
  some, arith, ◌==◌, ltb, leb, if◌then◌else◌, length, get_or, set, replicate, get_or-set_self,
  get_or-set_ne,
}
use cs124_my_pintos.FileSystem.Block.{block_sector_size}
use cs124_my_pintos.FileSystem.Volume.{Volume}
use cs124_my_pintos.FileSystem.Inode.Disk.{
  InodeDisk, num_direct, max_inode_len, div_round_up, round_up, byte_to_sector_disk, Outcome,
  outcome, append_direct, append_sector,
}
use cs124_my_pintos.FileSystem.Inode.Bytes.{IsWellFormed, SameVolume}
use cs124_my_pintos.FileSystem.Inode.Allocate.{allocate_short-Took}

module _ (volume : Volume) where
  open volume use {State, IsValid, contents, in_use}

  byte_to_sector_disk-direct :
      (v : State) (d : InodeDisk) (pos : ℕ)
      → pos < d.len
      → pos < num_direct * block_sector_size
      → byte_to_sector_disk volume v d pos ≡ some (get_or d.direct (pos / block_sector_size) 0, v)
  unfolding byte_to_sector_disk
  byte_to_sector_disk-direct v d pos l k =
      let a : leb d.len pos ≡ false = ground arith in
      let b : ltb (pos / block_sector_size) num_direct ≡ true = ground arith in
      rw (byte_to_sector_disk, a, b) refl

  append_sector-direct :
      (v : State) (d : InodeDisk)
      → d.len % block_sector_size ≡ 0
      → d.len + block_sector_size ≤ num_direct * block_sector_size
      → append_sector volume v d
        ≡ append_direct volume v d (d.len / block_sector_size) (d.len + block_sector_size)
  unfolding append_sector round_up div_round_up
  append_sector-direct v d al l =
      let r : round_up d.len block_sector_size ≡ d.len = omega arith in
      let i : (d.len + block_sector_size - 1) / block_sector_size ≡ d.len / block_sector_size =
        omega arith in
      let a : ltb max_inode_len (d.len + block_sector_size) ≡ false = ground arith in
      let b : ltb (d.len / block_sector_size) num_direct ≡ true = ground arith in
      rw (append_sector, r, i, a, b) refl

  -- What a file is after a sector was appended to it: the new bytes are in a sector that was free and
  -- is zeroed, and each byte before is in the sector that it was in.
  pub record Appended (v : State) (d : InodeDisk) (o : Outcome volume Bool) : Type 0 where
    pub sector : ℕ
    pub was_free : in_use v sector ≡ false
    pub taken : (t : ℕ) → in_use o.volume_after t ≡ (if sector == t then true else in_use v t)
    pub zeroed : contents o.volume_after sector ≡ replicate block_sector_size 0
    pub longer : o.disk.len ≡ d.len + block_sector_size
    pub new_bytes :
        (pos : ℕ)
        → d.len ≤ pos
        → pos < d.len + block_sector_size
        → byte_to_sector_disk volume o.volume_after o.disk pos ≡ some (sector, o.volume_after)
    pub old_bytes :
        (pos s : ℕ)
        → pos < d.len
        → byte_to_sector_disk volume v d pos ≡ some (s, v)
        → byte_to_sector_disk volume o.volume_after o.disk pos ≡ some (s, o.volume_after)

  -- On a valid volume, `append_sector` of a well-formed file of whole sectors that stays within
  -- its 188 direct sectors fails no assertion; it returns false and leaves the file and the volume
  -- as they were, or it takes one sector that was free, zeroes it and makes the file a sector
  -- longer: `byte_to_sector_disk` then finds the new bytes in the new sector and every byte before
  -- in the sector where it was.
  pub append_sector-byte_to_sector_disk :
      (v : State) (d : InodeDisk)
      → IsValid v
      → IsWellFormed d
      → d.len % block_sector_size ≡ 0
      → d.len + block_sector_size ≤ num_direct * block_sector_size
      → (o : Outcome volume Bool) × (append_sector volume v d ≡ some o)
        × IsValid o.volume_after
        × (((o.result ≡ true) × Appended v d o)
            ⊎ ((o.result ≡ false) × (o.disk ≡ d) × SameVolume volume v o.volume_after))
  unfolding append_direct
  append_sector-byte_to_sector_disk v d h w al l = elim (allocate_short-Took volume v h) [
    | inl (v', e, same) ↦ (
      outcome volume false d v',
      append_sector-direct v d al l ∙ rw (append_direct, e) refl,
      same.valid,
      inr (refl, refl, same),
    )
    | inr (s, v', e, t) ↦
        let i = d.len / block_sector_size in
        let n = d.len + block_sector_size in
        let room : i < length d.direct = omega (arith, w.direct_count) in
        let d' = record d { len = n; direct = set d.direct i s } in
        (
          outcome volume true d' v',
          append_sector-direct v d al l ∙ rw (append_direct, e) refl,
          t.valid,
          inl (
            refl,
            record {
              sector = s;
              was_free = t.was_free;
              taken = t.same_use;
              zeroed = t.zeroed;
              longer = refl;
              new_bytes = λ pos a b.
                  let at : pos / block_sector_size ≡ i = omega arith in
                  byte_to_sector_disk-direct v' d' pos b (omega arith)
                  ∙ ap (λ x. some (x, v'))
                      (ap (λ j. get_or (set d.direct i s) j 0) at
                        ∙ get_or-set_self d.direct i s 0 room);
              old_bytes = λ pos x a q.
                  let other : i ≢ pos / block_sector_size = omega arith in
                  let old = byte_to_sector_disk-direct v d pos a (omega arith) in
                  byte_to_sector_disk-direct v' d' pos (omega arith) (omega arith)
                  ∙ ap (λ x. some (x, v'))
                      (get_or-set_ne d.direct i (pos / block_sector_size) s 0 other ∙ cc (old, q));
            },
          ),
        )
  ]
