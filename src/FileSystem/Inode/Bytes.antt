-- ===== src/FileSystem/Inode/Bytes.antt =====
-- What reading a file returns, in terms of the sectors of the volume.
use cs124_my_pintos.Common.{
  ℕ, zero, suc, ◌+◌, ◌-◌, ◌/◌, ◌%◌, ◌^◌, ◌<◌, ◌≤◌, ◌≡◌, refl, ◌∙◌, ap, ◌≢◌, false, some, List, [],
  ◌∷◌, ◌++◌, arith, ltb, leb, if◌then◌else◌, length, get_or, drop, Bool-cases, inl, inr,
}
use cs124_my_pintos.FileSystem.Block.{block_sector_size}
use cs124_my_pintos.FileSystem.Cache.Defs.{no_sector, slice}
use cs124_my_pintos.FileSystem.Volume.{Volume}
use cs124_my_pintos.FileSystem.Inode.Disk.{
  InodeDisk, num_direct, indirect_len, num_indirect, max_inode_len, decode_short,
  byte_to_sector_disk,
}

-- The arrays hold `uint16_t`, and the length is one that `append_sector` allows.
pub record IsWellFormed (d : InodeDisk) : Type 0 where
  pub short : d.len ≤ max_inode_len
  pub direct_count : length d.direct ≡ num_direct
  pub indirect_count : length d.indirect ≡ num_indirect
  pub direct_short : (i : ℕ) → get_or d.direct i 0 < 2 ^ 16
  pub indirect_short : (i : ℕ) → get_or d.indirect i 0 < 2 ^ 16

drop-cons : (xs : List ℕ) (o : ℕ) → o < length xs → drop o xs ≡ get_or xs o 0 ∷ drop (o + 1) xs
drop-cons [] o h = absurd (omega arith)
drop-cons (x ∷ xs) zero h = refl
drop-cons (x ∷ xs) (suc o) h =
    let e : suc o + 1 ≡ suc (o + 1) = omega arith in rw e (drop-cons xs o (omega arith))

slice-suc :
    (xs : List ℕ) (o n : ℕ)
    → o < length xs
    → slice xs o (suc n) ≡ get_or xs o 0 ∷ slice xs (o + 1) n
unfolding slice
slice-suc xs o n h = rw (drop-cons xs o h)

slice-zero : (xs : List ℕ) (o : ℕ) → slice xs o 0 ≡ []
unfolding slice
slice-zero xs o = refl

module _ (volume : Volume) where
  open volume use {State, IsValid, contents, in_use, cache_read, cache_read-slice, length-contents}

  -- A valid volume in which nothing can be told from the one before.
  pub record SameVolume (v v' : State) : Type 0 where
    pub valid : IsValid v'
    pub same : (t : ℕ) → t ≢ no_sector → contents v' t ≡ contents v t
    pub same_use : (t : ℕ) → in_use v' t ≡ in_use v t

  -- The sector that the inode's numbers give for a byte. An entry of an indirect block is taken at the
  -- byte where the code keeps it.
  unfoldable pub sector_at : State → InodeDisk → ℕ → ℕ
  sector_at v d pos =
      let idx = pos / block_sector_size in
      let ind_idx = (idx - num_direct) / indirect_len in
      let ind_ofs = (idx - num_direct) % indirect_len in
      if leb d.len pos
      then no_sector
      else if ltb idx num_direct
      then get_or d.direct idx 0
      else decode_short (slice (contents v (get_or d.indirect ind_idx 0)) ind_ofs 2)

  abbrev pub byte_at : State → InodeDisk → ℕ → ℕ
  byte_at v d pos = get_or (contents v (sector_at v d pos)) (pos % block_sector_size) 0

  -- `n` bytes of a file from `pos` on
  unfoldable pub file_bytes : State → InodeDisk → ℕ → ℕ → List ℕ
  file_bytes v d pos zero = []
  file_bytes v d pos (suc n) = byte_at v d pos ∷ file_bytes v d (pos + 1) n

  module _ {d : InodeDisk} (w : IsWellFormed d) where
    indirect-ne : (i : ℕ) → get_or d.indirect i 0 ≢ no_sector
    indirect-ne i e = omega (arith, w.indirect_short i)

    -- A position in the file has a sector, and one past its end has none.
    pub sector_at-lt : (v : State) (pos : ℕ) → pos < d.len → sector_at v d pos < 2 ^ 16
    unfolding sector_at decode_short
    sector_at-lt v pos h = ground (arith, w.direct_short (pos / block_sector_size))

    -- On a valid volume, `byte_to_sector_disk` of a well-formed inode fails no assertion, gives
    -- the sector that the direct or indirect numbers name, or -1 past the end, and leaves the
    -- volume as it was.
    pub byte_to_sector_disk-sector_at :
        (v : State) (pos : ℕ)
        → IsValid v
        → (v' : State) × (byte_to_sector_disk volume v d pos ≡ some (sector_at v d pos, v'))
          × SameVolume v v'
    unfolding byte_to_sector_disk sector_at
    byte_to_sector_disk-sector_at v pos h = elim (Bool-cases (leb d.len pos)) [
      | inl p ↦ (v, rw p, record { valid = h; same = λ t u. refl; same_use = λ t. refl })
      | inr p ↦ elim (Bool-cases (ltb (pos / block_sector_size) num_direct)) [
        | inl q ↦ (v, rw (p, q), record { valid = h; same = λ t u. refl; same_use = λ t. refl })
        | inr q ↦
            let idx = pos / block_sector_size - num_direct in
            let (v', got, valid, same, same_use) =
              cache_read-slice v (get_or d.indirect (idx / indirect_len) 0) 2 (idx % indirect_len) h
                (indirect-ne (idx / indirect_len)) (omega arith) in
            (v', rw (p, q, got), record { valid = valid; same = same; same_use = same_use })
      ]
    ]

    sector_at-same :
        (v v' : State) (pos : ℕ) → SameVolume v v' → sector_at v' d pos ≡ sector_at v d pos
    unfolding sector_at
    sector_at-same v v' pos s =
        rw (s.same _ (indirect-ne ((pos / block_sector_size - num_direct) / indirect_len)))

    byte_at-same :
        (v v' : State) (pos : ℕ)
        → pos < d.len
        → SameVolume v v'
        → byte_at v' d pos ≡ byte_at v d pos
    byte_at-same v v' pos h s = rw (
      sector_at-same v v' pos s,
      s.same (sector_at v d pos) (λ e. omega (arith, sector_at-lt v pos h)),
    )

    pub file_bytes-same :
        (v v' : State) (pos n : ℕ)
        → pos + n ≤ d.len
        → SameVolume v v'
        → file_bytes v' d pos n ≡ file_bytes v d pos n
    unfolding file_bytes
    file_bytes-same v v' pos zero h s = refl
    file_bytes-same v v' pos (suc n) h s =
        rw (byte_at-same v v' pos (omega arith) s, file_bytes-same v v' (pos + 1) n (omega arith) s)

    sector_at-next :
        (v : State) (pos : ℕ)
        → pos + 1 < d.len
        → pos % block_sector_size + 1 < block_sector_size
        → sector_at v d (pos + 1) ≡ sector_at v d pos
    unfolding sector_at
    sector_at-next v pos h k =
        let e : (pos + 1) / block_sector_size ≡ pos / block_sector_size = omega arith in
        let a : leb d.len (pos + 1) ≡ false = ground arith in
        let b : leb d.len pos ≡ false = ground arith in rw (a, b, e)

    -- One `cache_read` gives the bytes of the file that lie in its sector.
    pub slice-file_bytes :
        (v : State) (pos n : ℕ)
        → IsValid v
        → pos + n ≤ d.len
        → pos % block_sector_size + n ≤ block_sector_size
        → slice (contents v (sector_at v d pos)) (pos % block_sector_size) n ≡ file_bytes v d pos n
    unfolding file_bytes
    slice-file_bytes v pos zero h a b = slice-zero _ _
    slice-file_bytes v pos (suc zero) h a b =
        slice-suc _ _ 0 (omega (arith, full)) ∙ ap (λ r. byte_at v d pos ∷ r) (slice-zero _ _)
      where
        full : length (contents v (sector_at v d pos)) ≡ block_sector_size
        full = length-contents v (sector_at v d pos) h (λ e. omega (arith, sector_at-lt v pos))
    slice-file_bytes v pos (suc (suc n)) h a b =
        slice-suc _ _ (suc n) (omega (arith, full))
        ∙ ap (λ r. byte_at v d pos ∷ r)
            ((rw (← sector_at-next v pos (omega arith) (omega arith), next) refl)
              ∙ slice-file_bytes v (pos + 1) (suc n) h (omega arith) (omega arith))
      where
        full : length (contents v (sector_at v d pos)) ≡ block_sector_size
        full = length-contents v (sector_at v d pos) h (λ e. omega (arith, sector_at-lt v pos))

        next : pos % block_sector_size + 1 ≡ (pos + 1) % block_sector_size
        next = omega arith

    pub file_bytes-append :
        (v : State) (pos m n : ℕ)
        → file_bytes v d pos m ++ file_bytes v d (pos + m) n ≡ file_bytes v d pos (m + n)
    unfolding file_bytes
    file_bytes-append v pos zero n =
        let a : pos + 0 ≡ pos = omega arith in let b : 0 + n ≡ n = omega arith in rw (a, b)
    file_bytes-append v pos (suc m) n =
        let a : pos + suc m ≡ pos + 1 + m = omega arith in
        let b : suc m + n ≡ suc (m + n) = omega arith in
        rw (a, b) (ap (λ r. byte_at v d pos ∷ r) (file_bytes-append v (pos + 1) m n))
