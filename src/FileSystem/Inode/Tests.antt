-- ===== src/FileSystem/Inode/Tests.antt =====
-- The theorems on inodes at a mounted device of 100 sectors filled with sevens.
use cs124_my_pintos.FileSystem.Inode.Direct.{Appended, append_sector-byte_to_sector_disk}
use cs124_my_pintos.Common.{
  ◌⊎◌, if◌then◌else◌, ◌==◌, ℕ, ◌+◌, ◌*◌, ◌-◌, ◌%◌, ◌≤◌, ◌^◌, ◌≡◌, refl, Bool, true, false, some,
  min, max, arith, get_or, set, replicate, get_or-replicate, length-replicate,
}
use cs124_my_pintos.FileSystem.Cache.Defs.{cache_init, splice, slice}
use cs124_my_pintos.FileSystem.Cache.Save.{cache_init-IsValid}
use cs124_my_pintos.FileSystem.FreeMap.Defs.{free_map_init}
use cs124_my_pintos.FileSystem.Samples.{sample_block, sample_bitmap, set_bit}
use cs124_my_pintos.FileSystem.Volume.{Volume}
use cs124_my_pintos.FileSystem.Volume.Mounted.{Mounted, IsMounted, mounted}
use cs124_my_pintos.FileSystem.Inode.Disk.{
  InodeDisk, empty_disk, Outcome, outcome, append_sector, append_entry, extend_disk, encode_short,
  decode_short,
}
use cs124_my_pintos.FileSystem.Inode.File.{Inode, inode_read_at}
use cs124_my_pintos.FileSystem.Inode.Bytes.{IsWellFormed, SameVolume, file_bytes}
use cs124_my_pintos.FileSystem.Inode.Read.{inode_read_at-file_bytes}
use cs124_my_pintos.FileSystem.Inode.Grow.{
  set_direct-IsWellFormed, set_indirect-IsWellFormed, len-IsWellFormed, extend_disk-length,
}
use cs124_my_pintos.FileSystem.Inode.Indirect.{append_sector-free_map_sector, append_entry-overlap}

abbrev volume : Volume
volume = mounted sample_block sample_bitmap

start : Mounted sample_block sample_bitmap
start = record {
  cache = cache_init sample_block (λ s. replicate 512 7);
  map = record { free_map = (free_map_init sample_bitmap 100).free_map; free_map_file = some 0 };
}

start-IsMounted : IsMounted sample_block sample_bitmap start
unfolding start
start-IsMounted = record {
  cache_valid = (cache_init-IsValid sample_block (λ s. replicate 512 7)).0;
  map_open = λ e. cc;
}

empty-IsWellFormed : IsWellFormed empty_disk
empty-IsWellFormed = record {
  short = omega arith;
  direct_count = length-replicate {A = ℕ} 188 0;
  indirect_count = length-replicate {A = ℕ} 64 0;
  direct_short = λ i. omega (arith, get_or-replicate {A = ℕ} 188 i 0);
  indirect_short = λ i. omega (arith, get_or-replicate {A = ℕ} 64 i 0);
}

-- A file of 600 bytes in sectors 5 and 6.
abbrev small : Inode
small = record {
  sector = 4;
  open_cnt = 1;
  removed = false;
  deny_write_cnt = 0;
  content = record empty_disk { len = 600; direct = set (set (replicate 188 0) 0 5) 1 6 };
}

small-IsWellFormed : IsWellFormed small.content
small-IsWellFormed =
    set_direct-IsWellFormed 1 6 600
      (set_direct-IsWellFormed 0 5 512 empty-IsWellFormed (omega arith) (omega arith)) (omega arith)
      (omega arith)

-- 50 bytes are left of the 100 asked for.
inode_read_at-file_bytes_example :
    (v : Mounted sample_block sample_bitmap) × (inode_read_at volume start small 100 550
      ≡ some (file_bytes volume start small.content 550 (min 100 (600 - 550)), v))
    × SameVolume volume start v
inode_read_at-file_bytes_example =
    inode_read_at-file_bytes volume start small 100 550 start-IsMounted small-IsWellFormed

extend_disk-length_example :
    (o : Outcome volume ℕ) × (extend_disk volume start small.content 2000 ≡ some o)
    × (o.result ≡ o.disk.len)
    × (600 ≤ o.result)
    × (o.result ≤ max 600 2000)
    × (2000 ≤ 600 → o ≡ outcome volume 600 small.content start)
    × IsMounted sample_block sample_bitmap o.volume_after
    × IsWellFormed o.disk
extend_disk-length_example =
    extend_disk-length volume start small.content 2000 start-IsMounted small-IsWellFormed

-- A file that fills its direct sectors; its indirect numbers are still 0.
abbrev full_direct : InodeDisk
full_direct = record empty_disk { len = 188 * 512 }

full_direct-IsWellFormed : IsWellFormed full_direct
full_direct-IsWellFormed = len-IsWellFormed (188 * 512) empty-IsWellFormed (omega arith)

zero-in_use : volume.in_use start 0 ≡ true
unfolding start free_map_init set_bit
zero-in_use = refl

append_sector-free_map_sector_example :
    (o : Outcome volume Bool) × (append_sector volume start full_direct ≡ some o)
    × (o.result ≡ true
        → (s : ℕ) × (volume.in_use start s ≡ false)
          × (o.disk ≡ record full_direct { len = 189 * 512 })
          × ((t : ℕ)
              → volume.in_use o.volume_after t ≡ (if s == t then true else volume.in_use start t))
          × (volume.contents o.volume_after 0
              ≡ splice (volume.contents start 0) 0 (encode_short s)))
append_sector-free_map_sector_example =
    append_sector-free_map_sector volume start full_direct start-IsMounted full_direct-IsWellFormed
      refl (get_or-replicate {A = ℕ} 64 0 0) zero-in_use

-- The file goes on to the second entry of its indirect block, which is sector 1.
abbrev one_indirect : InodeDisk
one_indirect = record (record empty_disk { len = 189 * 512 }) {
  indirect = set (replicate 64 0) 0 1;
}

one_indirect-IsWellFormed : IsWellFormed one_indirect
one_indirect-IsWellFormed =
    set_indirect-IsWellFormed 0 1 (len-IsWellFormed (189 * 512) empty-IsWellFormed (omega arith))
      (omega arith)

one-in_use : volume.in_use start 1 ≡ true
unfolding start free_map_init set_bit
one-in_use = refl

append_entry-overlap_example :
    (o : Outcome volume Bool) × (append_entry volume start one_indirect 189 (190 * 512) false
      ≡ some o)
    × (o.result ≡ true
        → (s : ℕ) × (volume.in_use start s ≡ false)
          × (decode_short (slice (volume.contents o.volume_after 1) 0 2)
              ≡ (get_or (volume.contents start 1) 0 0 + 256 * (s % 256)) % 2 ^ 16))
append_entry-overlap_example =
    append_entry-overlap volume start one_indirect 189 (190 * 512) start-IsMounted
      one_indirect-IsWellFormed (omega arith) one-in_use

-- A file of two sectors.
abbrev two_sectors : InodeDisk
two_sectors = record empty_disk { len = 2 * 512 }

two_sectors-IsWellFormed : IsWellFormed two_sectors
two_sectors-IsWellFormed = len-IsWellFormed (2 * 512) empty-IsWellFormed (omega arith)

append_sector-byte_to_sector_disk_example :
    (o : Outcome volume Bool) × (append_sector volume start two_sectors ≡ some o)
    × IsMounted sample_block sample_bitmap o.volume_after
    × (((o.result ≡ true) × Appended volume start two_sectors o)
        ⊎ ((o.result ≡ false) × (o.disk ≡ two_sectors) × SameVolume volume start o.volume_after))
append_sector-byte_to_sector_disk_example =
    append_sector-byte_to_sector_disk volume start two_sectors start-IsMounted
      two_sectors-IsWellFormed (omega arith) (omega arith)
