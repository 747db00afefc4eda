-- ===== src/FileSystem/Inode/Read.antt =====
-- `inode_read_at` of inode.c and the bytes of a file.
use cs124_my_pintos.Common.{
  ℕ, zero, suc, ◌+◌, ◌-◌, ◌%◌, ◌<◌, ◌≤◌, min, ◌≡◌, refl, ◌∙◌, ap, ◌≢◌, false, ◌&&◌, some, ◌++◌,
  arith, ◌==◌, ltb, Bool-cases, inl, inr,
}
use cs124_my_pintos.FileSystem.Block.{block_sector_size}
use cs124_my_pintos.FileSystem.Cache.Defs.{no_sector, slice}
use cs124_my_pintos.FileSystem.Volume.{Volume}
use cs124_my_pintos.FileSystem.Inode.Disk.{InodeDisk}
use cs124_my_pintos.FileSystem.Inode.File.{Inode, chunk_size, read_loop, inode_read_at}
use cs124_my_pintos.FileSystem.Inode.Bytes.{
  IsWellFormed, SameVolume, sector_at, sector_at-lt, file_bytes, file_bytes-append, file_bytes-same,
  slice-file_bytes, byte_to_sector_disk-sector_at,
}

-- A round of the loops takes at least a byte, and stays inside the request, the file and the
-- sector.
pub chunk_size_bounds :
    (d : InodeDisk) (size offset : ℕ)
    → 0 < size
    → offset < d.len
    → (0 < chunk_size d size offset)
      × (chunk_size d size offset ≤ size)
      × (offset + chunk_size d size offset ≤ d.len)
      × (offset % block_sector_size + chunk_size d size offset ≤ block_sector_size)
unfolding chunk_size
chunk_size_bounds d size offset h k = ground arith

module _ (volume : Volume) where
  open volume use {State, IsValid, contents, in_use, cache_read, cache_read-slice}

  pub SameVolume-trans :
      {u v w : State} → SameVolume volume u v → SameVolume volume v w → SameVolume volume u w
  SameVolume-trans s t = record {
    valid = t.valid;
    same = λ k ne. t.same k ne ∙ s.same k ne;
    same_use = λ k. t.same_use k ∙ s.same_use k;
  }

  pub SameVolume-refl : (v : State) → IsValid v → SameVolume volume v v
  SameVolume-refl v h = record { valid = h; same = λ t u. refl; same_use = λ t. refl }

  module _ {d : InodeDisk} (w : IsWellFormed d) where
    abbrev Reads : State → ℕ → ℕ → ℕ → Type 0
    Reads v fuel size offset =
        (v' : State) × (read_loop volume fuel v d size offset
          ≡ some (file_bytes volume v d offset (min size (d.len - offset)), v'))
        × SameVolume volume v v'

    read_loop-done :
        (v : State) (fuel size offset : ℕ)
        → IsValid v
        → (ltb 0 size && ltb offset d.len) ≡ false
        → Reads v (suc fuel) size offset
    unfolding read_loop file_bytes
    read_loop-done v fuel size offset h e =
        let n : min size (d.len - offset) ≡ 0 = ground arith in (v, rw (e, n), SameVolume-refl v h)

    -- The bytes of one sector, and those of the rounds that follow.
    chunk-joined :
        (v v1 v2 : State) (size offset n : ℕ)
        → IsValid v
        → SameVolume volume v v1
        → SameVolume volume v v2
        → offset < d.len
        → n ≤ size
        → offset + n ≤ d.len
        → offset % block_sector_size + n ≤ block_sector_size
        → slice (contents v1 (sector_at volume v d offset)) (offset % block_sector_size) n
            ++ file_bytes volume v2 d (offset + n) (min (size - n) (d.len - (offset + n)))
          ≡ file_bytes volume v d offset (min size (d.len - offset))
    chunk-joined v v1 v2 size offset n h s1 s2 a b c e =
        let m = min (size - n) (d.len - (offset + n)) in
        let real : sector_at volume v d offset ≢ no_sector =
          λ q. omega (arith, sector_at-lt volume w v offset a) in
        let total : min size (d.len - offset) ≡ n + m = omega arith in
        rw (
          s1.same (sector_at volume v d offset) real,
          slice-file_bytes volume w v offset n h c e,
          file_bytes-same volume w v v2 (offset + n) m (omega arith) s2,
          file_bytes-append volume w v offset n m,
          total,
        )

    pub read_loop-Reads :
        (fuel : ℕ) (v : State) (size offset : ℕ)
        → size < fuel
        → IsValid v
        → Reads v fuel size offset
    unfolding read_loop
    read_loop-Reads zero v size offset f h = absurd (omega arith)
    read_loop-Reads (suc fuel) v size offset f h =
        elim (Bool-cases (ltb 0 size && ltb offset d.len)) [
          | inr e ↦ read_loop-done v fuel size offset h e
          | inl e ↦
              let a : 0 < size = ground arith in
              let b : offset < d.len = ground arith in
              let (c1, c2, c3, c4) = chunk_size_bounds d size offset a b in
              let (v1, got1, s1) = byte_to_sector_disk-sector_at volume w v offset h in
              let real : sector_at volume v d offset ≢ no_sector =
                λ q. omega (arith, sector_at-lt volume w v offset b) in
              let (v2, got2, h2, s2, u2) =
                cache_read-slice v1 (sector_at volume v d offset) (chunk_size d size offset)
                  (offset % block_sector_size) s1.valid real c4 in
              let s12 : SameVolume volume v v2 =
                SameVolume-trans s1 (record { valid = h2; same = s2; same_use = u2 }) in
              let (v3, got3, s3) =
                read_loop-Reads fuel v2 (size - chunk_size d size offset)
                  (offset + chunk_size d size offset) (omega arith) h2 in
              let t1 : (sector_at volume v d offset == no_sector) ≡ false = ground arith in
              let t2 : (chunk_size d size offset == 0) ≡ false = ground arith in
              (
                v3,
                rw (e, got1, t1, t2, got2, got3)
                    (ap (λ r. some (r, v3))
                      (chunk-joined v v1 v2 size offset _ h s1 s12 b c2 c3 c4)),
                SameVolume-trans s12 s3,
              )
        ]

  -- On a valid volume, `inode_read_at` of a well-formed inode fails no assertion, ends within its
  -- fuel, leaves the volume as it was and returns the bytes of the file from the offset on, up to
  -- the size asked for or the end of the file.
  pub inode_read_at-file_bytes :
      (v : State) (inode : Inode) (size offset : ℕ)
      → IsValid v
      → IsWellFormed inode.content
      → (v' : State) × (inode_read_at volume v inode size offset
          ≡ some (
            file_bytes volume v inode.content offset (min size (inode.content.len - offset)),
            v',
          ))
        × SameVolume volume v v'
  unfolding inode_read_at
  inode_read_at-file_bytes v inode size offset h w =
      read_loop-Reads w (size + 1) v size offset (omega arith) h
