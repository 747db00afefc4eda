-- ===== src/FileSystem/Inode/Grow.antt =====
-- The growth of a file: `append_sector` and `extend_disk` of inode.c.
use cs124_my_pintos.Common.{
  ℕ, zero, suc, ◌+◌, ◌-◌, ◌/◌, ◌%◌, ◌^◌, ◌<◌, ◌≤◌, max, ◌≡◌, refl, ◌∙◌, inl, inr, Bool, true, false,
  Option, some, List, [], ◌∷◌, arith, ltb, leb, if◌then◌else◌, get_or, set, length-set,
  get_or-set_self, Bool-cases,
}
use cs124_my_pintos.FileSystem.Block.{block_sector_size}
use cs124_my_pintos.FileSystem.Volume.{Volume}
use cs124_my_pintos.FileSystem.Inode.Disk.{
  InodeDisk, num_direct, indirect_len, max_inode_len, round_up, encode_short, Outcome, outcome,
  append_direct, append_entry, append_indirect, append_sector, grow, extend_disk,
}
use cs124_my_pintos.FileSystem.Inode.Bytes.{IsWellFormed}
use cs124_my_pintos.FileSystem.Inode.Allocate.{allocate_short-Took}

pub round_up_bounds :
    (n : ℕ)
    → (n ≤ round_up n block_sector_size)
      × (round_up n block_sector_size < n + block_sector_size)
      × (round_up n block_sector_size % block_sector_size ≡ 0)
unfolding round_up
round_up_bounds n = omega arith

get_or-set-lt :
    (xs : List ℕ) (i j s b : ℕ) → s < b → get_or xs j 0 < b → get_or (set xs i s) j 0 < b
get_or-set-lt [] i j s b h k = k
get_or-set-lt (x ∷ xs) zero zero s b h k = h
get_or-set-lt (x ∷ xs) zero (suc j) s b h k = k
get_or-set-lt (x ∷ xs) (suc i) zero s b h k = k
get_or-set-lt (x ∷ xs) (suc i) (suc j) s b h k = get_or-set-lt xs i j s b h k

pub set_direct-IsWellFormed :
    {d : InodeDisk} (i s n : ℕ)
    → IsWellFormed d
    → s < 2 ^ 16
    → n ≤ max_inode_len
    → IsWellFormed (record d { len = n; direct = set d.direct i s })
set_direct-IsWellFormed {d} i s n w h k = record {
  short = k;
  direct_count = length-set d.direct i s ∙ w.direct_count;
  indirect_count = w.indirect_count;
  direct_short = λ j. get_or-set-lt d.direct i j s (2 ^ 16) h (w.direct_short j);
  indirect_short = w.indirect_short;
}

pub set_indirect-IsWellFormed :
    {d : InodeDisk} (i s : ℕ)
    → IsWellFormed d
    → s < 2 ^ 16
    → IsWellFormed (record d { indirect = set d.indirect i s })
set_indirect-IsWellFormed {d} i s w h = record {
  short = w.short;
  direct_count = w.direct_count;
  indirect_count = length-set d.indirect i s ∙ w.indirect_count;
  direct_short = w.direct_short;
  indirect_short = λ j. get_or-set-lt d.indirect i j s (2 ^ 16) h (w.indirect_short j);
}

pub len-IsWellFormed :
    {d : InodeDisk} (n : ℕ)
    → IsWellFormed d
    → n ≤ max_inode_len
    → IsWellFormed (record d { len = n })
len-IsWellFormed n w k = record {
  short = k;
  direct_count = w.direct_count;
  indirect_count = w.indirect_count;
  direct_short = w.direct_short;
  indirect_short = w.indirect_short;
}

module _ (volume : Volume) where
  open volume use {
    State, IsValid, contents, in_use, cache_write, free_map_release, cache_write-splice,
    free_map_release-frees,
  }

  -- The state after an attempt to grow `d` to `n` bytes.
  pub record Grew (d : InodeDisk) (n : ℕ) (o : Outcome volume Bool) : Type 0 where
    pub valid : IsValid o.volume_after
    pub formed : IsWellFormed o.disk
    pub length_after : o.disk.len ≡ (if o.result then n else d.len)

  abbrev pub Appends : InodeDisk → ℕ → Option (Outcome volume Bool) → Type 0
  Appends d n r = (o : Outcome volume Bool) × (r ≡ some o) × Grew d n o

  module _ {v : State} {d : InodeDisk} (h : IsValid v) (w : IsWellFormed d) (idx n : ℕ)
      (fits : n ≤ max_inode_len) where
    append_direct-Grew : Appends d n (append_direct volume v d idx n)
    unfolding append_direct
    append_direct-Grew = elim (allocate_short-Took volume v h) [
      | inl (v', e, s) ↦ (
        outcome volume false d v',
        rw (e, append_direct),
        record { valid = s.valid; formed = w; length_after = refl },
      )
      | inr (s, v', e, t) ↦ (
        outcome volume true (record d { len = n; direct = set d.direct idx s }) v',
        rw (e, append_direct),
        record {
          valid = t.valid;
          formed = set_direct-IsWellFormed idx s n w t.fits fits;
          length_after = refl;
        },
      )
    ]

    abbrev block : ℕ
    block = get_or d.indirect ((idx - num_direct) / indirect_len) 0

    -- The indirect block, when it has just been allocated, is given back if the data sector cannot
    -- be.
    append_entry-Grew :
        (grown : Bool)
        → (grown ≡ true → in_use v block ≡ true)
        → Appends d n (append_entry volume v d idx n grown)
    unfolding append_entry encode_short
    append_entry-Grew true held = elim (allocate_short-Took volume v h) [
      | inl (v', e, s) ↦
          let (v2, got, valid, same, used) =
            free_map_release-frees v' block s.valid (s.same_use block ∙ held refl) in
          (
            outcome volume false d v2,
            rw (e, append_entry, got),
            record { valid = valid; formed = w; length_after = refl },
          )
      | inr (s, v', e, t) ↦
          let (v2, got, valid, same, used) =
            cache_write-splice v' block (encode_short s) 2 ((idx - num_direct) % indirect_len)
              t.valid (λ q. omega (arith, w.indirect_short ((idx - num_direct) / indirect_len)))
              (omega arith) (omega arith) in
          (
            outcome volume true (record d { len = n }) v2,
            rw (e, append_entry, got),
            record { valid = valid; formed = len-IsWellFormed n w fits; length_after = refl },
          )
    ]
    append_entry-Grew false held = elim (allocate_short-Took volume v h) [
      | inl (v', e, s) ↦ (
        outcome volume false d v',
        rw (e, append_entry),
        record { valid = s.valid; formed = w; length_after = refl },
      )
      | inr (s, v', e, t) ↦
          let (v2, got, valid, same, used) =
            cache_write-splice v' block (encode_short s) 2 ((idx - num_direct) % indirect_len)
              t.valid (λ q. omega (arith, w.indirect_short ((idx - num_direct) / indirect_len)))
              (omega arith) (omega arith) in
          (
            outcome volume true (record d { len = n }) v2,
            rw (e, append_entry, got),
            record { valid = valid; formed = len-IsWellFormed n w fits; length_after = refl },
          )
    ]

  append_indirect-Grew :
      {v : State} {d : InodeDisk} (idx n : ℕ)
      → IsValid v
      → IsWellFormed d
      → n ≤ max_inode_len
      → idx ≡ (n - 1) / block_sector_size
      → Appends d n (append_indirect volume v d idx n)
  unfolding append_indirect
  append_indirect-Grew {v} {d} idx n h w fits at =
      elim (Bool-cases (
        ltb (((d.len - 1) / block_sector_size - num_direct) / indirect_len)
          ((idx - num_direct) / indirect_len))) [
            | inr e ↦ rw e (append_entry-Grew h w idx n fits false (λ q. cc))
            | inl e ↦ elim (allocate_short-Took volume v h) [
              | inl (v', got, s) ↦ (
                outcome volume false d v',
                rw (e, got),
                record { valid = s.valid; formed = w; length_after = refl },
              )
              | inr (s, v', got, t) ↦
                  let i = (idx - num_direct) / indirect_len in
                  let w' = set_indirect-IsWellFormed i s w t.fits in
                  let put : get_or (set d.indirect i s) i 0 ≡ s =
                    get_or-set_self d.indirect i s 0 (omega (arith, w.indirect_count)) in
                  let held : in_use v' (get_or (set d.indirect i s) i 0) ≡ true =
                    rw put (ground (arith, t.same_use s)) in
                  let (o, r, g) = append_entry-Grew t.valid w' idx n fits true (λ _. held) in
                  (
                    o,
                    rw (e, got) r,
                    record { valid = g.valid; formed = g.formed; length_after = g.length_after },
                  )
            ]
          ]

  -- On a valid volume, `append_sector` of a well-formed inode fails no assertion; it returns true
  -- with the next whole length, or false with the old one, and false when the new length would
  -- pass MAX_INODE_LEN.
  pub append_sector-Grew :
      (v : State) (d : InodeDisk)
      → IsValid v
      → IsWellFormed d
      → (o : Outcome volume Bool) × (append_sector volume v d ≡ some o)
        × Grew d (round_up d.len block_sector_size + block_sector_size) o
        × (max_inode_len < round_up d.len block_sector_size + block_sector_size → o.result ≡ false)
  unfolding append_sector
  append_sector-Grew v d h w =
      let n = round_up d.len block_sector_size + block_sector_size in
      let idx = (n - 1) / block_sector_size in
      elim (Bool-cases (ltb max_inode_len n)) [
        | inl e ↦ (
          outcome volume false d v,
          rw e,
          record { valid = h; formed = w; length_after = refl },
          λ _. refl,
        )
        | inr e ↦
            let fits : n ≤ max_inode_len = ground arith in
            elim (Bool-cases (ltb idx num_direct)) [
              | inl q ↦
                  let (o, r, g) = append_direct-Grew h w idx n fits in
                  (o, rw (e, q) r, g, λ k. absurd (omega arith))
              | inr q ↦
                  let (o, r, g) = append_indirect-Grew idx n h w fits refl in
                  (o, rw (e, q) r, g, λ k. absurd (omega arith))
            ]
      ]

  record Grown (d : InodeDisk) (target : ℕ) (d' : InodeDisk) (v' : State) : Type 0 where
    valid : IsValid v'
    formed : IsWellFormed d'
    no_less : d.len ≤ d'.len
    no_more : d'.len ≤ max d.len (target + block_sector_size - 1)

  module _ (fuel : ℕ) (v : State) (d : InodeDisk) (target : ℕ) {o : Outcome volume Bool}
      (below : ltb d.len target ≡ true) (got : append_sector volume v d ≡ some o) where
    grow-stop : o.result ≡ false → grow volume (suc fuel) v d target ≡ some (o.disk, o.volume_after)
    unfolding grow
    grow-stop e = rw (below, got, e)

    grow-on :
        {r : Option (InodeDisk × State)}
        → o.result ≡ true
        → grow volume fuel o.volume_after o.disk target ≡ r
        → grow volume (suc fuel) v d target ≡ r
    unfolding grow
    grow-on e t = rw (below, got, e) t

  grow-Grown :
      (fuel : ℕ) (v : State) (d : InodeDisk) (target : ℕ)
      → target - d.len < fuel
      → d.len % block_sector_size ≡ 0
      → IsValid v
      → IsWellFormed d
      → (d' : InodeDisk) × (v' : State) × (grow volume fuel v d target ≡ some (d', v'))
        × Grown d target d' v'
  unfolding grow
  grow-Grown zero v d target f m h w = elim f [ ]
  grow-Grown (suc fuel) v d target f m h w = elim (Bool-cases (ltb d.len target)) [
    | inr e ↦
        (d, v, rw e, record { valid = h; formed = w; no_less = omega arith; no_more = omega arith })
    | inl e ↦
        let (o, r, g, _) = append_sector-Grew v d h w in
        elim (Bool-cases o.result) [
          | inr stop ↦ (
            o.disk,
            o.volume_after,
            grow-stop fuel v d target e r stop,
            record {
              valid = g.valid;
              formed = g.formed;
              no_less = ground (arith, g.length_after);
              no_more = ground (arith, g.length_after);
            },
          )
          | inl go ↦
              let len : o.disk.len ≡ d.len + block_sector_size =
                ground (arith, g.length_after, round_up_bounds d.len) in
              let below : d.len < target = ground arith in
              let (d', v', r', k) =
                grow-Grown fuel o.volume_after o.disk target (omega arith) (omega arith) g.valid
                  g.formed in
              (
                d',
                v',
                grow-on fuel v d target e r go r',
                record {
                  valid = k.valid;
                  formed = k.formed;
                  no_less = omega (arith, k.no_less);
                  no_more = omega (arith, k.no_more);
                },
              )
        ]
  ]

  -- On a valid volume, `extend_disk` of a well-formed inode fails no assertion and ends within its
  -- fuel; it returns the new length, which is between the old one and the larger of the old one
  -- and the target; a file that is long enough is untouched, and the inode stays well formed.
  pub extend_disk-length :
      (v : State) (d : InodeDisk) (target : ℕ)
      → IsValid v
      → IsWellFormed d
      → (o : Outcome volume ℕ) × (extend_disk volume v d target ≡ some o)
        × (o.result ≡ o.disk.len)
        × (d.len ≤ o.result)
        × (o.result ≤ max d.len target)
        × (target ≤ d.len → o ≡ outcome volume d.len d v)
        × IsValid o.volume_after
        × IsWellFormed o.disk
  unfolding extend_disk
  extend_disk-length v d target h w = elim (Bool-cases (leb target d.len)) [
    | inl e ↦ (outcome volume d.len d v, rw e, refl, omega arith, omega arith, λ _. refl, h, w)
    | inr e ↦
        let start = round_up d.len block_sector_size in
        let (a, b, c) = round_up_bounds d.len in
        let above : d.len < target = ground arith in
        let (d', v', r, k) =
          grow-Grown (target + 1) v (record d { len = start }) target (omega arith) c h
            (len-IsWellFormed start w (omega (arith, w.short))) in
        let n = if ltb target d'.len then target else d'.len in
        let up : n ≤ d'.len = ground arith in
        (
          outcome volume n (record d' { len = n }) v',
          rw (e, r),
          refl,
          ground (arith, k.no_less),
          ground arith,
          λ q. absurd (omega arith),
          k.valid,
          len-IsWellFormed n k.formed (omega (arith, k.formed.short)),
        )
  ]
