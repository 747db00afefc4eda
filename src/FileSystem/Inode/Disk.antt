-- ===== src/FileSystem/Inode/Disk.antt =====
-- `struct inode_disk`: the map from a file's bytes to sectors, and its growth. An `off_t` is a
-- number here: no caller passes a negative one. Lengths stay below MAX_INODE_LEN, so nothing wraps.
use cs124_my_pintos.Common.{
  ℕ, zero, suc, ◌+◌, ◌-◌, ◌*◌, ◌/◌, ◌%◌, ◌^◌, Bool, true, false, Option, none, some, List, [], ◌∷◌,
  ltb, leb, if◌then◌else◌, get_or, set, replicate,
}
use cs124_my_pintos.FileSystem.Block.{block_sector_size}
use cs124_my_pintos.FileSystem.Cache.Defs.{no_sector}
use cs124_my_pintos.FileSystem.Volume.{Volume}

abbrev pub num_direct : ℕ
num_direct = 188

abbrev pub num_indirect : ℕ
num_indirect = 64

abbrev pub indirect_len : ℕ
indirect_len = 256

abbrev pub max_inode_len : ℕ
max_inode_len = 8 * 1024 * 1024

abbrev pub inode_magic : ℕ
inode_magic = 0x494e4f44

-- The arrays hold `uint16_t`.
pub record InodeDisk : Type 0 where
  pub len : ℕ
  pub magic : ℕ
  pub direct : List ℕ
  pub indirect : List ℕ

-- `calloc` and the two assignments of `inode_create`
abbrev pub empty_disk : InodeDisk
empty_disk = record {
  len = 0;
  magic = inode_magic;
  direct = replicate num_direct 0;
  indirect = replicate num_indirect 0;
}

unfoldable pub div_round_up : ℕ → ℕ → ℕ
div_round_up x step = (x + step - 1) / step

unfoldable pub round_up : ℕ → ℕ → ℕ
unfolding div_round_up
round_up x step = div_round_up x step * step

unfoldable pub bytes_to_sectors : ℕ → ℕ
unfolding div_round_up
bytes_to_sectors n = div_round_up n block_sector_size

-- A `uint16_t` in memory is two bytes, the low one first.
unfoldable pub encode_short : ℕ → List ℕ
encode_short n = n % 256 ∷ (n / 256) % 256 ∷ []

unfoldable pub decode_short : List ℕ → ℕ
decode_short bytes = (get_or bytes 0 0 + 256 * get_or bytes 1 0) % 2 ^ 16

module _ (volume : Volume) where
  open volume use {State, cache_read, cache_write, cache_zero, free_map_allocate, free_map_release}

  -- `none` is a failed assertion.
  unfoldable pub byte_to_sector_disk : State → InodeDisk → ℕ → Option (ℕ × State)
  byte_to_sector_disk v disk pos =
      let idx = pos / block_sector_size in
      let ind_idx = (idx - num_direct) / indirect_len in
      let ind_ofs = (idx - num_direct) % indirect_len in
      if leb disk.len pos
      then some (no_sector, v)
      else if ltb idx num_direct
      then some (get_or disk.direct idx 0, v)
      else elim (cache_read v (get_or disk.indirect ind_idx 0) 2 ind_ofs) [
        | none ↦ none
        | some (bytes, v') ↦ some (decode_short bytes, v')
      ]

  -- The inner `none` is the return value false; a success gives what goes through `shortp`.
  unfoldable pub allocate_short : State → Option (Option ℕ × State)
  allocate_short v =
      let (got, v') = free_map_allocate v in
      elim got [
        | none ↦ some (none, v')
        | some sector ↦
            if ltb (2 ^ 16 - 1) sector
            then elim (free_map_release v' sector) [ none ↦ none | some v'' ↦ some (none, v'') ]
            else elim (cache_zero v' sector) [ none ↦ none | some v'' ↦ some (some sector, v'') ]
      ]

  -- What an operation on the inode returns, with the inode and the volume afterwards.
  pub record Outcome {ℓ} (A : Type ℓ) : Type ℓ where
    pub result : A
    pub disk : InodeDisk
    pub volume_after : State

  abbrev pub outcome {ℓ} : {A : Type ℓ} → A → InodeDisk → State → Outcome A
  outcome a d v = record { result = a; disk = d; volume_after = v }

  -- `append_sector` below the direct blocks
  unfoldable pub append_direct : State → InodeDisk → ℕ → ℕ → Option (Outcome Bool)
  append_direct v disk idx new_length = elim (allocate_short v) [
    | none ↦ none
    | some (none, v') ↦ some (outcome false disk v')
    | some (some sector, v') ↦
        some
          (outcome true (record disk { len = new_length; direct = set disk.direct idx sector }) v')
  ]

  -- `append_sector` from the second `allocate_short` on; `grown` is `ind_idx > old_ind_idx`.
  unfoldable pub append_entry : State → InodeDisk → ℕ → ℕ → Bool → Option (Outcome Bool)
  append_entry v disk idx new_length grown =
      let ind_idx = (idx - num_direct) / indirect_len in
      let ind_ofs = (idx - num_direct) % indirect_len in
      let block = get_or disk.indirect ind_idx 0 in
      elim (allocate_short v) [
        | none ↦ none
        | some (none, v') ↦
            if grown
            then elim (free_map_release v' block) [
              | none ↦ none
              | some v'' ↦ some (outcome false disk v'')
            ]
            else some (outcome false disk v')
        | some (some dir_idx, v') ↦ elim (cache_write v' block (encode_short dir_idx) 2 ind_ofs) [
          | none ↦ none
          | some v'' ↦ some (outcome true (record disk { len = new_length }) v'')
        ]
      ]

  -- `append_sector` from the indirect blocks on. C rounds `(187 - 188) / 256` to 0, as the
  -- truncated difference does; `length` is positive here.
  unfoldable pub append_indirect : State → InodeDisk → ℕ → ℕ → Option (Outcome Bool)
  append_indirect v disk idx new_length =
      let old_idx = (disk.len - 1) / block_sector_size in
      let old_ind_idx = (old_idx - num_direct) / indirect_len in
      let ind_idx = (idx - num_direct) / indirect_len in
      if ltb old_ind_idx ind_idx
      then elim (allocate_short v) [
        | none ↦ none
        | some (none, v') ↦ some (outcome false disk v')
        | some (some sector, v') ↦
            append_entry v' (record disk { indirect = set disk.indirect ind_idx sector }) idx
              new_length true
      ]
      else append_entry v disk idx new_length false

  unfoldable pub append_sector : State → InodeDisk → Option (Outcome Bool)
  append_sector v disk =
      let new_length = round_up disk.len block_sector_size + block_sector_size in
      let idx = (new_length - 1) / block_sector_size in
      if ltb max_inode_len new_length
      then some (outcome false disk v)
      else if ltb idx num_direct
      then append_direct v disk idx new_length
      else append_indirect v disk idx new_length

  -- The loop of `extend_disk`, with fuel; `none` also when the fuel runs out.
  unfoldable pub grow : ℕ → State → InodeDisk → ℕ → Option (InodeDisk × State)
  grow zero v disk target = none
  grow (suc fuel) v disk target =
      if ltb disk.len target
      then elim (append_sector v disk) [
        | none ↦ none
        | some o ↦ elim o.result [
          | true ↦ grow fuel o.volume_after o.disk target
          | false ↦ some (o.disk, o.volume_after)
        ]
      ]
      else some (disk, v)

  unfoldable pub extend_disk : State → InodeDisk → ℕ → Option (Outcome ℕ)
  extend_disk v disk target =
      if leb target disk.len
      then some (outcome disk.len disk v)
      else elim (grow (target + 1) v (record disk { len = round_up disk.len block_sector_size })
          target) [
            | none ↦ none
            | some (disk', v') ↦
                let n = if ltb target disk'.len then target else disk'.len in
                some (outcome n (record disk' { len = n }) v')
          ]
