-- ===== src/FileSystem/Volume.antt =====
-- What inode.c asks of cache.c and free-map.c: sectors that can be read and written, and that can
-- be taken and given back. `Volume/Mounted.antt` fills it from the two components.

pub mod Mounted
use cs124_my_pintos.Common.{
  ℕ, ◌+◌, ◌≤◌, ◌≡◌, ◌≢◌, Bool, true, false, Option, none, some, List, length, take, replicate, ◌==◌,
  if◌then◌else◌,
}
use cs124_my_pintos.FileSystem.Block.{block_sector_size}
use cs124_my_pintos.FileSystem.Cache.Defs.{no_sector, splice, slice}

pub record Volume : Type 1 where
  pub State : Type 0
  pub IsValid : State → Type 0
  -- the bytes that a sector holds, and whether it is allocated
  pub contents : State → ℕ → List ℕ
  pub in_use : State → ℕ → Bool
  pub cache_read : State → ℕ → ℕ → ℕ → Option (List ℕ × State)
  pub cache_write : State → ℕ → List ℕ → ℕ → ℕ → Option State
  pub cache_zero : State → ℕ → Option State
  -- the first `none` is the return value false
  pub free_map_allocate : State → Option ℕ × State
  pub free_map_release : State → ℕ → Option State
  pub length-contents :
      (v : State) (s : ℕ) → IsValid v → s ≢ no_sector → length (contents v s) ≡ block_sector_size
  pub cache_read-slice :
      (v : State) (s size offset : ℕ)
      → IsValid v
      → s ≢ no_sector
      → offset + size ≤ block_sector_size
      → (v' : State) × (cache_read v s size offset ≡ some (slice (contents v s) offset size, v'))
        × IsValid v'
        × ((t : ℕ) → t ≢ no_sector → contents v' t ≡ contents v t)
        × ((t : ℕ) → in_use v' t ≡ in_use v t)
  pub cache_write-splice :
      (v : State) (s : ℕ) (buffer : List ℕ) (size offset : ℕ)
      → IsValid v
      → s ≢ no_sector
      → offset + size ≤ block_sector_size
      → size ≤ length buffer
      → (v' : State) × (cache_write v s buffer size offset ≡ some v')
        × IsValid v'
        × ((t : ℕ)
            → t ≢ no_sector
            → contents v' t
              ≡ (if s == t then splice (contents v s) offset (take size buffer) else contents v t))
        × ((t : ℕ) → in_use v' t ≡ in_use v t)
  pub cache_zero-zeros :
      (v : State) (s : ℕ)
      → IsValid v
      → s ≢ no_sector
      → (v' : State) × (cache_zero v s ≡ some v')
        × IsValid v'
        × ((t : ℕ)
            → t ≢ no_sector
            → contents v' t ≡ (if s == t then replicate block_sector_size 0 else contents v t))
        × ((t : ℕ) → in_use v' t ≡ in_use v t)
  pub free_map_allocate-IsValid :
      (v : State)
      → IsValid v
      → IsValid (free_map_allocate v).1
        × ((t : ℕ) → t ≢ no_sector → contents (free_map_allocate v).1 t ≡ contents v t)
  pub free_map_allocate-some :
      (v : State) (s : ℕ)
      → (free_map_allocate v).0 ≡ some s
      → (in_use v s ≡ false)
        × ((t : ℕ) → in_use (free_map_allocate v).1 t ≡ (if s == t then true else in_use v t))
  pub free_map_allocate-none :
      (v : State)
      → (free_map_allocate v).0 ≡ none
      → (t : ℕ) → in_use (free_map_allocate v).1 t ≡ in_use v t
  pub free_map_release-frees :
      (v : State) (s : ℕ)
      → IsValid v
      → in_use v s ≡ true
      → (v' : State) × (free_map_release v s ≡ some v')
        × IsValid v'
        × ((t : ℕ) → t ≢ no_sector → contents v' t ≡ contents v t)
        × ((t : ℕ) → in_use v' t ≡ (if s == t then false else in_use v t))
