-- ===== src/FileSystem/Tests.antt =====
-- The file system's theorems at a device of 100 sectors filled with sevens, and runs of its code.
use cs124_my_pintos.Common.{ℕ, ◌≡◌, refl, ◌≢◌, Option, some, List, [], ◌∷◌, arith, replicate}
use cs124_my_pintos.FileSystem.Cache.Defs.{
  Cache, no_sector, splice, slice, cache_init, cache_read, cache_write, cache_save,
  find_cache_entry,
}
use cs124_my_pintos.FileSystem.Cache.Invariant
use cs124_my_pintos.FileSystem.Cache.Lookup.{SameContents, Found, find_cache_entry-Found}
use cs124_my_pintos.FileSystem.Cache.Operations.{Stored, cache_write-Stored, cache_read-slice}
use cs124_my_pintos.FileSystem.Cache.Save.{cache_init-IsValid, cache_save-durable}
use cs124_my_pintos.FileSystem.FreeMap.Defs.{FreeMap, free_map_init, free_map_allocate}
use cs124_my_pintos.FileSystem.FreeMap.Laws.{Allocated, free_map_allocate-Allocated}
use cs124_my_pintos.FileSystem.Samples.{sample_block, read_sector, set_bit, scan, sample_bitmap}

abbrev sevens : ℕ → List ℕ
sevens s = replicate 512 7

-- the cache before the first call
cold : Cache (ℕ → List ℕ)
cold = cache_init sample_block sevens

cold-IsValid : Invariant.IsValid sample_block cold
unfolding cold
cold-IsValid = (cache_init-IsValid sample_block sevens).0

five-ne_no_sector : ◌≢◌ {A = ℕ} 5 no_sector
five-ne_no_sector = omega arith

find_cache_entry-Found_example :
    Found sample_block cold-IsValid 5 (find_cache_entry sample_block 1 5 cold)
find_cache_entry-Found_example =
    find_cache_entry-Found sample_block cold-IsValid 0 5 five-ne_no_sector

-- Bytes 3 and 4 of sector 5 are overwritten.
cache_write-Stored_example :
    Stored sample_block cold-IsValid 5 five-ne_no_sector
      (splice (Invariant.contents sample_block cold 5) 3 (1 ∷ 2 ∷ []))
      (cache_write sample_block cold 5 (1 ∷ 2 ∷ 9 ∷ []) 2 3)
cache_write-Stored_example =
    cache_write-Stored sample_block cold-IsValid 5 five-ne_no_sector (1 ∷ 2 ∷ 9 ∷ []) 2 3
      (omega arith) (omega arith)

cache_read-slice_example :
    (c : Cache (ℕ → List ℕ)) × (cache_read sample_block cold 5 4 508
      ≡ some (slice (Invariant.contents sample_block cold 5) 508 4, c))
    × Invariant.IsValid sample_block c
    × SameContents sample_block c cold
cache_read-slice_example =
    cache_read-slice sample_block cold-IsValid 5 five-ne_no_sector 4 508 (omega arith)

cache_save-durable_example :
    Invariant.IsValid sample_block (cache_save sample_block cold)
    × ((t : ℕ)
        → t ≢ no_sector
        → (Invariant.contents sample_block (cache_save sample_block cold) t
            ≡ Invariant.contents sample_block cold t)
          × (read_sector (cache_save sample_block cold).disk t
              ≡ Invariant.contents sample_block cold t))
cache_save-durable_example = cache_save-durable sample_block cold-IsValid

-- The map of a device of 100 sectors, its file open.
abbrev map : FreeMap sample_bitmap
map = record { free_map = (free_map_init sample_bitmap 100).free_map; free_map_file = some 0 }

free_map_allocate-Allocated_example :
    Allocated sample_bitmap map (free_map_allocate sample_bitmap map)
free_map_allocate-Allocated_example = free_map_allocate-Allocated sample_bitmap map

-- The first sector that is not reserved is the first to be allocated.
allocates_two : (free_map_allocate sample_bitmap map).0 ≡ some 2
unfolding free_map_allocate free_map_init scan set_bit
allocates_two = refl

-- What was written is read back, from the cache and, after a save, from the device.
written : Option (Cache (ℕ → List ℕ))
unfolding cold
written = cache_write sample_block cold 5 (1 ∷ 2 ∷ 9 ∷ []) 2 3
