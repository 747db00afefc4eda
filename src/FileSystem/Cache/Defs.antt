-- ===== src/FileSystem/Cache/Defs.antt =====
-- The state and the functions of cache.c.
use cs124_my_pintos.Common.{
  ℕ, zero, suc, ◌+◌, ◌-◌, ◌^◌, Bool, true, false, Option, none, some, List, [], ◌∷◌, ◌++◌, ◌==◌,
  leb, if◌then◌else◌, length, get_or, set, take, drop, replicate,
}
use cs124_my_pintos.FileSystem.Block.{Block, block_sector_size}

abbrev pub cache_size : ℕ
cache_size = 64

-- `-1` as a `block_sector_t`
abbrev pub no_sector : ℕ
no_sector = 2 ^ 32 - 1

-- `struct cache_entry`
pub record CacheEntry : Type 0 where
  pub sector : ℕ
  pub dirty : Bool
  pub accessed : Bool
  pub bytes : List ℕ

-- An entry as `allocate_cache` leaves it: static memory is zero.
abbrev pub blank : CacheEntry
blank = record {
  sector = no_sector;
  dirty = false;
  accessed = false;
  bytes = replicate block_sector_size 0;
}

-- `buffer_cache`, with the device that it stands before
pub record Cache (D : Type 0) : Type 0 where
  pub entries : List CacheEntry
  pub disk : D

abbrev pub entry : {D : Type 0} → Cache D → ℕ → CacheEntry
entry c i = get_or c.entries i blank

-- The loop of `next_cache_entry`: it clears `accessed` up to the first entry without it, and stops
-- at that entry, or at the last.
unfoldable pub clock : List CacheEntry → ℕ × List CacheEntry
clock [] = (0, [])
clock (e ∷ []) = (0, (if e.accessed then record e { accessed = false } else e) ∷ [])
clock (e ∷ f ∷ rest) =
    let (i, rest') = clock (f ∷ rest) in
    if e.accessed then (suc i, record e { accessed = false } ∷ rest') else (0, e ∷ f ∷ rest)

-- The loop of `find_cache_entry`.
unfoldable pub find_index : ℕ → List CacheEntry → Option ℕ
find_index s [] = none
find_index s (e ∷ es) =
    let later = find_index s es in
    if e.sector == s then some 0 else elim later [ none ↦ none | some i ↦ some (suc i) ]

-- `memcpy(data + offset, buffer, size)`
unfoldable pub splice : List ℕ → ℕ → List ℕ → List ℕ
splice bytes offset buffer = take offset bytes ++ (buffer ++ drop (offset + length buffer) bytes)

-- `memcpy(buffer, data + offset, size)`
unfoldable pub slice : List ℕ → ℕ → ℕ → List ℕ
slice bytes offset size = take size (drop offset bytes)

-- How often the two functions that call themselves may do so.
abbrev pub rounds : ℕ
rounds = 1

module _ (block : Block) where
  open block use {Device, block_read, block_write}

  -- The body of the last test of `next_cache_entry` and of the loop of `cache_save`.
  unfoldable pub write_back : Cache Device → ℕ → Cache Device
  write_back c i =
      let e = entry c i in
      if e.dirty
      then record {
        entries = set c.entries i (record e { dirty = false });
        disk = block_write c.disk e.sector e.bytes;
      }
      else c

  unfoldable pub next_cache_entry : ℕ → Cache Device → Option (ℕ × Cache Device)
  next_cache_entry zero c = none
  next_cache_entry (suc fuel) c =
      let (i, es) = clock c.entries in
      let c' : Cache Device = record c { entries = es } in
      let again = next_cache_entry fuel c' in
      if (entry c' i).accessed then again else some (i, write_back c' i)

  -- What `find_cache_entry` does with the entry that it has taken over.
  unfoldable pub fill : Cache Device → ℕ → ℕ → Cache Device
  fill c i s = record c {
    entries = set c.entries i (record (entry c i) { sector = s; bytes = block_read c.disk s });
  }

  unfoldable pub find_cache_entry : ℕ → ℕ → Cache Device → Option (ℕ × Cache Device)
  find_cache_entry zero s c = none
  find_cache_entry (suc fuel) s c =
      let again = find_cache_entry fuel s c in
      elim (find_index s c.entries) [
        | none ↦ elim (next_cache_entry (suc fuel) c) [
          | none ↦ none
          | some (i, c') ↦ some (i, fill c' i s)
        ]
        | some i ↦ if (entry c i).sector == s then some (i, c) else again
      ]

  -- `none` is a failed assertion.
  unfoldable pub cache_write : Cache Device → ℕ → List ℕ → ℕ → ℕ → Option (Cache Device)
  cache_write c sector buffer size offset =
      if leb (offset + size) block_sector_size
      then elim (find_cache_entry rounds sector c) [
        | none ↦ none
        | some (i, c') ↦ some (record c' {
          entries = set c'.entries i (record (entry c' i) {
            dirty = true;
            accessed = true;
            bytes = splice (entry c' i).bytes offset (take size buffer);
          });
        })
      ]
      else none

  unfoldable pub cache_read : Cache Device → ℕ → ℕ → ℕ → Option (List ℕ × Cache Device)
  cache_read c sector size offset =
      if leb (offset + size) block_sector_size
      then elim (find_cache_entry rounds sector c) [
        | none ↦ none
        | some (i, c') ↦ some (
          slice (entry c' i).bytes offset size,
          record c' { entries = set c'.entries i (record (entry c' i) { accessed = true }) },
        )
      ]
      else none

  unfoldable pub cache_zero : Cache Device → ℕ → Option (Cache Device)
  cache_zero c sector = elim (find_cache_entry rounds sector c) [
    | none ↦ none
    | some (i, c') ↦ some (record c' {
      entries = set c'.entries i (record (entry c' i) {
        dirty = true;
        accessed = true;
        bytes = replicate block_sector_size 0;
      });
    })
  ]

  -- The loop of `cache_save`, from entry `i` on with `n` entries left.
  unfoldable pub save_from : ℕ → ℕ → Cache Device → Cache Device
  save_from zero i c = c
  save_from (suc n) i c = save_from n (i + 1) (write_back c i)

  unfoldable pub cache_save : Cache Device → Cache Device
  unfolding save_from
  cache_save c = save_from cache_size 0 c

  -- `cache_init` and `allocate_cache`, on the device as it is
  unfoldable pub cache_init : Device → Cache Device
  cache_init d = record { entries = replicate cache_size blank; disk = d }
