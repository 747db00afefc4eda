-- ===== src/FileSystem/Inode/File.antt =====
-- `struct inode`: reading, writing, creating, opening and closing. `inode_open` gives the same
-- structure to all openers of a sector, so the sector stands for the pointer.
use cs124_my_pintos.Common.{
  ℕ, zero, suc, ◌+◌, ◌-◌, ◌/◌, ◌%◌, Bool, true, false, ◌&&◌, Option, none, some, List, [], ◌∷◌,
  ◌++◌, ◌==◌, ltb, leb, if◌then◌else◌, drop,
}
use cs124_my_pintos.FileSystem.Block.{block_sector_size}
use cs124_my_pintos.FileSystem.Cache.Defs.{no_sector}
use cs124_my_pintos.FileSystem.Volume.{Volume}
use cs124_my_pintos.FileSystem.Inode.Disk.{InodeDisk, empty_disk, byte_to_sector_disk, extend_disk}

-- `struct inode`, less its list element and its lock
pub record Inode : Type 0 where
  pub sector : ℕ
  pub open_cnt : ℕ
  pub removed : Bool
  pub deny_write_cnt : ℕ
  pub content : InodeDisk

-- How much of a read or a write at `offset` the sector there takes.
unfoldable pub chunk_size : InodeDisk → ℕ → ℕ → ℕ
chunk_size disk size offset =
    let inode_left = disk.len - offset in
    let sector_left = block_sector_size - offset % block_sector_size in
    let min_left = if ltb inode_left sector_left then inode_left else sector_left in
    if ltb size min_left then size else min_left

module _ (volume : Volume) where
  open volume use {State, cache_read, cache_write, free_map_release}

  -- The loop of `inode_read_at`: the bytes that go to `buffer`. `none` is a failed assertion, or
  -- no fuel left.
  unfoldable pub read_loop : ℕ → State → InodeDisk → ℕ → ℕ → Option (List ℕ × State)
  read_loop zero v disk size offset = none
  read_loop (suc fuel) v disk size offset =
      let chunk = chunk_size disk size offset in
      if ltb 0 size && ltb offset disk.len
      then elim (byte_to_sector_disk volume v disk offset) [
        | none ↦ none
        | some (sector_idx, v') ↦
            if sector_idx == no_sector
            then none
            else if chunk == 0
            then some ([], v')
            else elim (cache_read v' sector_idx chunk (offset % block_sector_size)) [
              | none ↦ none
              | some (bytes, v'') ↦ elim (read_loop fuel v'' disk (size - chunk) (offset + chunk)) [
                | none ↦ none
                | some (rest, v3) ↦ some (bytes ++ rest, v3)
              ]
            ]
      ]
      else some ([], v)

  -- `inode_read_at`: the bytes read; the return value is their number.
  unfoldable pub inode_read_at : State → Inode → ℕ → ℕ → Option (List ℕ × State)
  inode_read_at v inode size offset = read_loop (size + 1) v inode.content size offset

  -- The loop of `inode_write_at`, from `buffer + bytes_written` on: how much it writes.
  unfoldable pub write_loop : ℕ → State → InodeDisk → List ℕ → ℕ → ℕ → Option (ℕ × State)
  write_loop zero v disk buffer size offset = none
  write_loop (suc fuel) v disk buffer size offset =
      let chunk = chunk_size disk size offset in
      if ltb 0 size && ltb offset disk.len
      then elim (byte_to_sector_disk volume v disk offset) [
        | none ↦ none
        | some (sector_idx, v') ↦
            if sector_idx == no_sector
            then none
            else if chunk == 0
            then some (0, v')
            else elim (cache_write v' sector_idx buffer chunk (offset % block_sector_size)) [
              | none ↦ none
              | some v'' ↦
                  elim (write_loop fuel v'' disk (drop chunk buffer) (size - chunk)
                    (offset + chunk)) [ none ↦ none | some (n, v3) ↦ some (chunk + n, v3) ]
            ]
      ]
      else some (0, v)

  unfoldable pub inode_write_at : State → Inode → List ℕ → ℕ → ℕ → Option (ℕ × Inode × State)
  inode_write_at v inode buffer size offset =
      if inode.deny_write_cnt == 0
      then elim (extend_disk volume v inode.content (offset + size)) [
        | none ↦ none
        | some o ↦ elim (write_loop (size + 1) o.volume_after o.disk buffer size offset) [
          | none ↦ none
          | some (n, v') ↦ some (n, record inode { content = o.disk }, v')
        ]
      ]
      else some (0, inode, v)

  -- The loops of `inode_create` and `inode_close` that release the sectors of a file; `n` sectors
  -- are left, from byte `ofs` on.
  unfoldable pub release_from : ℕ → State → InodeDisk → ℕ → Option State
  release_from zero v disk ofs = some v
  release_from (suc n) v disk ofs = elim (byte_to_sector_disk volume v disk ofs) [
    | none ↦ none
    | some (sector, v') ↦ elim (free_map_release v' sector) [
      | none ↦ none
      | some v'' ↦ release_from n v'' disk (ofs + block_sector_size)
    ]
  ]

  -- The rounds of `for (ofs = 0; ofs < length; ofs += BLOCK_SECTOR_SIZE)`.
  unfoldable pub release_all : State → InodeDisk → Option State
  release_all v disk =
      release_from ((disk.len + block_sector_size - 1) / block_sector_size) v disk 0

  -- `inode_create`; `memory` says whether `calloc` succeeds, and `image` is how an inode lies in its
  -- sector.
  unfoldable pub inode_create :
      (image : InodeDisk → List ℕ) → (memory : Bool) → State → ℕ → ℕ → Option (Bool × State)
  inode_create image memory v sector len =
      if memory
      then elim (extend_disk volume v empty_disk len) [
        | none ↦ none
        | some o ↦
            if ltb o.result len
            then elim (release_all o.volume_after o.disk) [
              | none ↦ none
              | some v' ↦ some (false, v')
            ]
            else elim (cache_write o.volume_after sector (image o.disk) block_sector_size 0) [
              | none ↦ none
              | some v' ↦ some (true, v')
            ]
      ]
      else some (false, v)

  -- The open inodes, with the volume.
  pub record Inodes : Type 0 where
    pub open_inodes : List Inode
    pub vol : State

  unfoldable pub find_inode : List Inode → ℕ → Option Inode
  find_inode [] s = none
  find_inode (i ∷ is) s = let later = find_inode is s in if i.sector == s then some i else later

  unfoldable pub replace_inode : List Inode → Inode → List Inode
  replace_inode [] j = []
  replace_inode (i ∷ is) j =
      let later = replace_inode is j in if i.sector == j.sector then j ∷ is else i ∷ later

  unfoldable pub remove_inode : List Inode → ℕ → List Inode
  remove_inode [] s = []
  remove_inode (i ∷ is) s = let later = remove_inode is s in if i.sector == s then is else i ∷ later

  -- `inode_reopen` of an inode that is open
  unfoldable pub inode_reopen : Inodes → Inode → Inodes
  inode_reopen t i = record t {
    open_inodes = replace_inode t.open_inodes (record i { open_cnt = i.open_cnt + 1 });
  }

  -- `inode_open`; `memory` says whether `malloc` succeeds, and `parse` reads an inode off its
  -- sector. The inner `none` is a null pointer.
  unfoldable pub inode_open :
      (parse : List ℕ → InodeDisk) → (memory : Bool) → Inodes → ℕ → Option (Option ℕ × Inodes)
  inode_open parse memory t s = elim (find_inode t.open_inodes s) [
    | some i ↦ some (some s, inode_reopen t i)
    | none ↦
        if memory
        then elim (cache_read t.vol s block_sector_size 0) [
          | none ↦ none
          | some (bytes, v') ↦ some (
            some s,
            record {
              open_inodes =
                  record {
                    sector = s;
                    open_cnt = 1;
                    removed = false;
                    deny_write_cnt = 0;
                    content = parse bytes;
                  }
                  ∷ t.open_inodes;
              vol = v';
            },
          )
        ]
        else some (none, t)
  ]

  -- `inode_close` of an inode that is open
  unfoldable pub inode_close : Inodes → Inode → Option Inodes
  inode_close t i =
      let rest = remove_inode t.open_inodes i.sector in
      if i.open_cnt == 1
      then if i.removed
        then elim (free_map_release t.vol i.sector) [
          | none ↦ none
          | some v ↦ elim (release_all v i.content) [
            | none ↦ none
            | some v' ↦ some (record { open_inodes = rest; vol = v' })
          ]
        ]
        else some (record t { open_inodes = rest })
      else some (record t {
        open_inodes = replace_inode t.open_inodes (record i { open_cnt = i.open_cnt - 1 });
      })

-- `inode_remove`
unfoldable pub inode_remove : Inode → Inode
inode_remove i = record i { removed = true }

-- `none` is a failed assertion.
unfoldable pub inode_deny_write : Inode → Option Inode
inode_deny_write i =
    if leb (i.deny_write_cnt + 1) i.open_cnt
    then some (record i { deny_write_cnt = i.deny_write_cnt + 1 })
    else none

unfoldable pub inode_allow_write : Inode → Option Inode
inode_allow_write i =
    if ltb 0 i.deny_write_cnt && leb i.deny_write_cnt i.open_cnt
    then some (record i { deny_write_cnt = i.deny_write_cnt - 1 })
    else none

unfoldable pub inode_length : Inode → ℕ
inode_length i = i.content.len
