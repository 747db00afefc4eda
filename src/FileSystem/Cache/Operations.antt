-- ===== src/FileSystem/Cache/Operations.antt =====
-- What the operations of cache.h do to the contents of the sectors.
use cs124_my_pintos.Common.{
  ℕ, ◌+◌, ◌<◌, ◌≤◌, ◌≡◌, refl, sym, ◌∙◌, ◌≢◌, inl, inr, true, some, List, ◌++◌, arith, length,
  get_or, set, take, drop, replicate, length-append, length-take, length-drop, length-replicate,
  get_or-set, length-set, Bool-cases, ◌==◌, leb, if◌then◌else◌, Option,
}
use cs124_my_pintos.FileSystem.Block.{Block, block_sector_size}
use cs124_my_pintos.FileSystem.Cache.Defs.{
  CacheEntry, Cache, entry, blank, cache_size, no_sector, splice, slice, cache_write, cache_read,
  cache_zero,
}
use cs124_my_pintos.FileSystem.Cache.Arrays.{SameBlock}
use cs124_my_pintos.FileSystem.Cache.Invariant.{
  IsValid, contents, contents-entry, put-IsValid, contents-put, alike-IsValid, contents-alike,
}
use cs124_my_pintos.FileSystem.Cache.Lookup.{SameContents, find_cache_entry-Found}

pub length-splice :
    (bytes buffer : List ℕ) (offset : ℕ)
    → offset + length buffer ≤ length bytes
    → length (splice bytes offset buffer) ≡ length bytes
unfolding splice
length-splice bytes buffer offset h = omega (
  arith,
  length-append (take offset bytes) (buffer ++ drop (offset + length buffer) bytes),
  length-append buffer (drop (offset + length buffer) bytes),
  length-take offset bytes,
  length-drop (offset + length buffer) bytes,
)

accessed-SameBlock :
    (es : List CacheEntry) (i : ℕ)
    → i < length es
    → (j : ℕ)
    → SameBlock
        (get_or (set es i (record (get_or es i blank) { accessed = true })) j blank)
        (get_or es j blank)
accessed-SameBlock es i h j = elim (Bool-cases (i == j)) [
  | inl p ↦
      let q : i ≡ j = ground arith in
      rw (get_or-set es i j (record (get_or es i blank) { accessed = true }) blank h, p, q)
        (refl, refl, refl)
  | inr p ↦
      rw (get_or-set es i j (record (get_or es i blank) { accessed = true }) blank h, p)
        (refl, refl, refl)
]

module _ (block : Block) where
  open block use {Device, block_read}

  module _ {c : Cache Device} (v : IsValid block c) (s : ℕ) (real : s ≢ no_sector) where
    -- A caller of `find_cache_entry` stores `bytes` in the entry `i` that it got, and marks it.
    module _ {c' : Cache Device} (i : ℕ) (inside : i < cache_size) (at : (entry c' i).sector ≡ s)
        (v' : IsValid block c') (same : SameContents block c' c) (bytes : List ℕ)
        (fits : length bytes ≡ block_sector_size) where
      abbrev stored : CacheEntry
      stored = record (entry c' i) { dirty = true; accessed = true; bytes = bytes }

      abbrev storing : Cache Device
      storing = record c' { entries = set c'.entries i stored }

      alone : (j : ℕ) → j < cache_size → j ≢ i → (entry c' j).sector ≢ (entry c' i).sector
      alone j a ne p = ne (sym (v'.unique i j inside a (rw at real) (sym p)))

      storing-IsValid : IsValid block storing
      storing-IsValid =
          put-IsValid block v' i stored c'.disk inside (rw at real) fits alone (λ h. cc)
            (λ _ _. refl)

      storing-contents :
          (t : ℕ)
          → t ≢ no_sector
          → contents block storing t ≡ (if s == t then bytes else contents block c t)
      storing-contents t u =
          contents-put block v' i stored c'.disk inside (rw at real) fits alone (λ h. cc)
            (λ _ _. refl) t u (inl refl)
          ∙ (rw (at, same t u) refl)

    -- What a store of `bytes` leaves: a valid cache in which `s` holds them and no other sector
    -- has changed.
    abbrev pub Stored : List ℕ → Option (Cache Device) → Type 0
    Stored bytes r =
        (c' : Cache Device) × (r ≡ some c')
        × IsValid block c'
        × ((t : ℕ)
            → t ≢ no_sector
            → contents block c' t ≡ (if s == t then bytes else contents block c t))

    entry-contents :
        {c' : Cache Device} (i : ℕ)
        → i < cache_size
        → (entry c' i).sector ≡ s
        → IsValid block c'
        → SameContents block c' c
        → (entry c' i).bytes ≡ contents block c s
    entry-contents {c'} i a at v' same =
        sym (contents-entry block v' i a (rw at real)) ∙ (rw at (same s real))

    pub length-contents : length (contents block c s) ≡ block_sector_size
    length-contents =
        let (i, c', got, a, at, v', same) = find_cache_entry-Found block v 0 s real in
        rw (← entry-contents i a at v' same) (v'.full i a)

    -- For a valid cache and a real sector, `cache_write` of a size that fits succeeds; the sector
    -- then holds its old contents with the bytes spliced in, every other sector is unchanged, and
    -- the cache is valid.
    pub cache_write-Stored :
        (buffer : List ℕ) (size offset : ℕ)
        → offset + size ≤ block_sector_size
        → size ≤ length buffer
        → Stored
            (splice (contents block c s) offset (take size buffer))
            (cache_write block c s buffer size offset)
    unfolding cache_write
    cache_write-Stored buffer size offset h l =
        let (i, c', got, a, at, v', same) = find_cache_entry-Found block v 0 s real in
        let fit : leb (offset + size) block_sector_size ≡ true = ground arith in
        let old = entry-contents i a at v' same in
        let n =
          length-splice (entry c' i).bytes (take size buffer) offset
            (omega (arith, length-take size buffer, v'.full i a)) in
        (
          storing i a at v' same (splice (entry c' i).bytes offset (take size buffer))
              (n ∙ v'.full i a),
          rw (fit, got),
          storing-IsValid i a at v' same _ (n ∙ v'.full i a),
          rw (← old) (storing-contents i a at v' same _ (n ∙ v'.full i a)),
        )

    -- For a valid cache and a real sector, `cache_zero` succeeds, the sector is zero afterwards,
    -- and every other sector is unchanged.
    pub cache_zero-Stored : Stored (replicate block_sector_size 0) (cache_zero block c s)
    unfolding cache_zero
    cache_zero-Stored =
        let (i, c', got, a, at, v', same) = find_cache_entry-Found block v 0 s real in
        let n = length-replicate {A = ℕ} block_sector_size 0 in
        (
          storing i a at v' same (replicate block_sector_size 0) n,
          rw (got, cache_zero),
          storing-IsValid i a at v' same _ n,
          storing-contents i a at v' same _ n,
        )

    -- For a valid cache and a real sector, `cache_read` of a size that fits succeeds with the
    -- bytes that are there, and changes the contents of no sector.
    pub cache_read-slice :
        (size offset : ℕ)
        → offset + size ≤ block_sector_size
        → (c' : Cache Device) × (cache_read block c s size offset
            ≡ some (slice (contents block c s) offset size, c'))
          × IsValid block c'
          × SameContents block c' c
    unfolding cache_read
    cache_read-slice size offset h =
        let (i, c', got, a, at, v', same) = find_cache_entry-Found block v 0 s real in
        let fit : leb (offset + size) block_sector_size ≡ true = ground arith in
        let seen : CacheEntry = record (entry c' i) { accessed = true } in
        let es = set c'.entries i seen in
        let alike = accessed-SameBlock c'.entries i (rw v'.count a) in
        let n = length-set c'.entries i seen in
        (
          record c' { entries = es },
          rw (fit, got, entry-contents i a at v' same) refl,
          alike-IsValid block v' es n alike,
          λ t u. contents-alike block v' es n alike t u ∙ same t u,
        )
