-- ===== src/FileSystem/Volume/Mounted.antt =====
-- The volume that inode.c runs on: the cache of cache.c with the free map of free-map.c, whose file
-- is open (`free_map_open` was called).
use cs124_my_pintos.Common.{
  ℕ, ◌+◌, ◌<◌, ◌≤◌, ◌≡◌, refl, ◌≢◌, inl, inr, Bool, true, false, ◌&&◌, Option, none, some, List,
  arith, ◌==◌, ltb, if◌then◌else◌, length, take, replicate, Option-cases,
}
use cs124_my_pintos.FileSystem.Block.{Block, block_sector_size}
use cs124_my_pintos.FileSystem.Cache
use cs124_my_pintos.FileSystem.Cache.Defs.{Cache, no_sector, slice, splice}
use cs124_my_pintos.FileSystem.FreeMap
use cs124_my_pintos.FileSystem.FreeMap.Defs.{Bitmap, FreeMap}
use cs124_my_pintos.FileSystem.FreeMap.Laws.{Allocated}
use cs124_my_pintos.FileSystem.Volume.{Volume}

module _ (block : Block) (bitmap : Bitmap) where
  open block use {Device}
  open bitmap use {File, size, bitmap_test, bitmap_set, bitmap_write}

  pub record Mounted : Type 0 where
    pub cache : Cache Device
    pub map : FreeMap bitmap

  pub record IsMounted (m : Mounted) : Type 0 where
    pub cache_valid : Cache.Invariant.IsValid block m.cache
    pub map_open : m.map.free_map_file ≢ none

  -- A sector is in use if its bit is set; there are no sectors past the end of the map.
  abbrev pub in_use : Mounted → ℕ → Bool
  in_use m t = ltb t (FreeMap.Laws.sectors bitmap m.map) && FreeMap.Defs.in_use bitmap m.map t

  unfoldable pub cache_read : Mounted → ℕ → ℕ → ℕ → Option (List ℕ × Mounted)
  cache_read m s n offset = elim (Cache.Defs.cache_read block m.cache s n offset) [
    | none ↦ none
    | some (bytes, c) ↦ some (bytes, record m { cache = c })
  ]

  unfoldable pub cache_write : Mounted → ℕ → List ℕ → ℕ → ℕ → Option Mounted
  cache_write m s buffer n offset = elim (Cache.Defs.cache_write block m.cache s buffer n offset) [
    | none ↦ none
    | some c ↦ some (record m { cache = c })
  ]

  unfoldable pub cache_zero : Mounted → ℕ → Option Mounted
  cache_zero m s = elim (Cache.Defs.cache_zero block m.cache s) [
    | none ↦ none
    | some c ↦ some (record m { cache = c })
  ]

  unfoldable pub free_map_allocate : Mounted → Option ℕ × Mounted
  free_map_allocate m =
      let (got, f) = FreeMap.Defs.free_map_allocate bitmap m.map in (got, record m { map = f })

  unfoldable pub free_map_release : Mounted → ℕ → Option Mounted
  free_map_release m s = elim (FreeMap.Defs.free_map_release bitmap m.map s) [
    | none ↦ none
    | some f ↦ some (record m { map = f })
  ]

  pub allocate-open :
      (m : FreeMap bitmap)
      → m.free_map_file ≢ none
      → (FreeMap.Defs.free_map_allocate bitmap m).1.free_map_file ≢ none
  unfolding FreeMap.Defs.free_map_allocate
  allocate-open m h = ground arith

  release-open :
      (m m' : FreeMap bitmap) (s : ℕ)
      → FreeMap.Defs.free_map_release bitmap m s ≡ some m'
      → m'.free_map_file ≢ none
  unfolding FreeMap.Defs.free_map_release
  release-open m m' s e = ground arith

  Allocated-some :
      (m : FreeMap bitmap) (r : Option ℕ × FreeMap bitmap) (s : ℕ)
      → r.0 ≡ some s
      → Allocated bitmap m r
      → (s < FreeMap.Laws.sectors bitmap m)
        × (FreeMap.Defs.in_use bitmap m s ≡ false)
        × (FreeMap.Laws.sectors bitmap r.1 ≡ FreeMap.Laws.sectors bitmap m)
        × ((t : ℕ)
            → FreeMap.Defs.in_use bitmap r.1 t
              ≡ (if s == t then true else FreeMap.Defs.in_use bitmap m t))
  Allocated-some m (none, m') s e a = cc
  Allocated-some m (some t, m') s e a = let p : t ≡ s = ground arith in rw (← p) a

  Allocated-none :
      (m : FreeMap bitmap) (r : Option ℕ × FreeMap bitmap)
      → r.0 ≡ none
      → Allocated bitmap m r
      → (FreeMap.Laws.sectors bitmap r.1 ≡ FreeMap.Laws.sectors bitmap m)
        × ((t : ℕ) → FreeMap.Defs.in_use bitmap r.1 t ≡ FreeMap.Defs.in_use bitmap m t)
  Allocated-none m (none, m') e a = a
  Allocated-none m (some t, m') e a = cc

  pub valid-after :
      {m : Mounted} (c : Cache Device)
      → IsMounted m
      → Cache.Invariant.IsValid block c
      → IsMounted (record m { cache = c })
  valid-after c h v = record { cache_valid = v; map_open = h.map_open }

  abbrev pub contents : Mounted → ℕ → List ℕ
  contents m s = Cache.Invariant.contents block m.cache s

  pub mounted_release :
      (m : Mounted) (s : ℕ)
      → IsMounted m
      → in_use m s ≡ true
      → (m' : Mounted) × (free_map_release m s ≡ some m')
        × IsMounted m'
        × ((t : ℕ) → t ≢ no_sector → contents m' t ≡ contents m t)
        × ((t : ℕ) → in_use m' t ≡ (if s == t then false else in_use m t))
  unfolding free_map_release
  mounted_release m s h u = elim (Option-cases m.map.free_map_file) [
    | inl e ↦ absurd (h.map_open e)
    | inr (f, e) ↦
        let (m', r, z, k) =
          FreeMap.Laws.free_map_release-frees bitmap m.map s f (ground arith) (ground arith) e in
        (
          record m { map = m' },
          rw (r, free_map_release),
          record { cache_valid = h.cache_valid; map_open = release-open m.map m' s r },
          λ t ne. refl,
          λ t. ground (arith, k t),
        )
  ]

  pub mounted_allocate-some :
      (m : Mounted) (s : ℕ)
      → (free_map_allocate m).0 ≡ some s
      → (in_use m s ≡ false)
        × ((t : ℕ) → in_use (free_map_allocate m).1 t ≡ (if s == t then true else in_use m t))
  unfolding free_map_allocate
  mounted_allocate-some m s e =
      let (a, b, z, k) =
        Allocated-some m.map (FreeMap.Defs.free_map_allocate bitmap m.map) s e
          (FreeMap.Laws.free_map_allocate-Allocated bitmap m.map) in
      (ground arith, λ t. ground (arith, k t))

  pub mounted_allocate-none :
      (m : Mounted)
      → (free_map_allocate m).0 ≡ none
      → (t : ℕ) → in_use (free_map_allocate m).1 t ≡ in_use m t
  unfolding free_map_allocate
  mounted_allocate-none m e t =
      let (z, k) =
        Allocated-none m.map (FreeMap.Defs.free_map_allocate bitmap m.map) e
          (FreeMap.Laws.free_map_allocate-Allocated bitmap m.map) in
      ground (arith, k t)

  pub mounted_read :
      (m : Mounted) (s n offset : ℕ)
      → IsMounted m
      → s ≢ no_sector
      → offset + n ≤ block_sector_size
      → (m' : Mounted) × (cache_read m s n offset ≡ some (slice (contents m s) offset n, m'))
        × IsMounted m'
        × ((t : ℕ) → t ≢ no_sector → contents m' t ≡ contents m t)
        × ((t : ℕ) → in_use m' t ≡ in_use m t)
  unfolding cache_read
  mounted_read m s n offset h u b =
      let (c, r, v, k) = Cache.Operations.cache_read-slice block h.cache_valid s u n offset b in
      (record m { cache = c }, rw (r, cache_read), valid-after c h v, k, λ t. refl)

  pub mounted_write :
      (m : Mounted) (s : ℕ) (buffer : List ℕ) (n offset : ℕ)
      → IsMounted m
      → s ≢ no_sector
      → offset + n ≤ block_sector_size
      → n ≤ length buffer
      → (m' : Mounted) × (cache_write m s buffer n offset ≡ some m')
        × IsMounted m'
        × ((t : ℕ)
            → t ≢ no_sector
            → contents m' t
              ≡ (if s == t then splice (contents m s) offset (take n buffer) else contents m t))
        × ((t : ℕ) → in_use m' t ≡ in_use m t)
  unfolding cache_write
  mounted_write m s buffer n offset h u b l =
      let (c, r, v, k) =
        Cache.Operations.cache_write-Stored block h.cache_valid s u buffer n offset b l in
      (record m { cache = c }, rw (r, cache_write), valid-after c h v, k, λ t. refl)

  pub mounted_zero :
      (m : Mounted) (s : ℕ)
      → IsMounted m
      → s ≢ no_sector
      → (m' : Mounted) × (cache_zero m s ≡ some m')
        × IsMounted m'
        × ((t : ℕ)
            → t ≢ no_sector
            → contents m' t ≡ (if s == t then replicate block_sector_size 0 else contents m t))
        × ((t : ℕ) → in_use m' t ≡ in_use m t)
  unfolding cache_zero
  mounted_zero m s h u =
      let (c, r, v, k) = Cache.Operations.cache_zero-Stored block h.cache_valid s u in
      (record m { cache = c }, rw (r, cache_zero), valid-after c h v, k, λ t. refl)

  pub mounted_allocate-IsMounted :
      (m : Mounted)
      → IsMounted m
      → IsMounted (free_map_allocate m).1
        × ((t : ℕ) → t ≢ no_sector → contents (free_map_allocate m).1 t ≡ contents m t)
  unfolding free_map_allocate
  mounted_allocate-IsMounted m h = (
    record { cache_valid = h.cache_valid; map_open = allocate-open m.map h.map_open },
    λ t u. refl,
  )

  -- The cache and the free map together keep every promise that inode.c relies on.
  abbrev pub mounted : Volume
  mounted = record {
    State = Mounted;
    IsValid = IsMounted;
    contents = contents;
    in_use = in_use;
    cache_read = cache_read;
    cache_write = cache_write;
    cache_zero = cache_zero;
    free_map_allocate = free_map_allocate;
    free_map_release = free_map_release;
    length-contents = λ m s h u. Cache.Operations.length-contents block h.cache_valid s u;
    cache_read-slice = mounted_read;
    cache_write-splice = mounted_write;
    cache_zero-zeros = mounted_zero;
    free_map_allocate-IsValid = mounted_allocate-IsMounted;
    free_map_allocate-some = mounted_allocate-some;
    free_map_allocate-none = mounted_allocate-none;
    free_map_release-frees = mounted_release;
  }
