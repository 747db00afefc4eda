-- ===== src/FileSystem/Inode/Allocate.antt =====
-- `allocate_short`, the one way in which inode.c takes sectors.
use cs124_my_pintos.Common.{
  ℕ, ◌-◌, ◌^◌, ◌<◌, ◌≡◌, sym, ◌∙◌, ◌≢◌, ◌⊎◌, inl, inr, true, false, Option, none, some, arith, ◌==◌,
  ltb, if◌then◌else◌, replicate, Bool-cases, Option-cases,
}
use cs124_my_pintos.FileSystem.Block.{block_sector_size}
use cs124_my_pintos.FileSystem.Cache.Defs.{no_sector}
use cs124_my_pintos.FileSystem.Volume.{Volume}
use cs124_my_pintos.FileSystem.Inode.Disk.{allocate_short}
use cs124_my_pintos.FileSystem.Inode.Bytes.{SameVolume}

module _ (volume : Volume) where
  open volume use {
    State, IsValid, contents, in_use, free_map_allocate, free_map_release, cache_zero,
    cache_zero-zeros, free_map_allocate-IsValid, free_map_allocate-some, free_map_allocate-none,
    free_map_release-frees,
  }

  -- The volume after sector `s` was taken and zeroed.
  pub record TookSector (v : State) (s : ℕ) (v' : State) : Type 0 where
    pub valid : IsValid v'
    pub fits : s < 2 ^ 16
    pub was_free : in_use v s ≡ false
    pub same : (t : ℕ) → t ≢ no_sector → s ≢ t → contents v' t ≡ contents v t
    pub zeroed : contents v' s ≡ replicate block_sector_size 0
    pub same_use : (t : ℕ) → in_use v' t ≡ (if s == t then true else in_use v t)

  abbrev pub Took : State → Option (Option ℕ × State) → Type 0
  Took v r =
      ((v' : State) × (r ≡ some (none, v')) × SameVolume volume v v')
      ⊎ ((s : ℕ) × (v' : State) × (r ≡ some (some s, v')) × TookSector v s v')

  module _ (v : State) (h : IsValid v) where
    abbrev scanned : State
    scanned = (free_map_allocate v).1

    refused : (free_map_allocate v).0 ≡ none → Took v (allocate_short volume v)
    unfolding allocate_short
    refused e =
        let (valid, same) = free_map_allocate-IsValid v h in
        inl (
          scanned,
          rw (e, allocate_short),
          record { valid = valid; same = same; same_use = free_map_allocate-none v e },
        )

    module _ (s : ℕ) (e : (free_map_allocate v).0 ≡ some s) where
      free_now :
          (in_use v s ≡ false)
          × ((t : ℕ) → in_use scanned t ≡ (if s == t then true else in_use v t))
      free_now = free_map_allocate-some v s e

      -- A sector whose number does not fit is given back, so nothing has changed.
      too_large : ltb (2 ^ 16 - 1) s ≡ true → Took v (allocate_short volume v)
      unfolding allocate_short
      too_large big =
          let (valid, same) = free_map_allocate-IsValid v h in
          let (v', got, valid', same', use') =
            free_map_release-frees scanned s valid (ground (arith, free_now.1 s)) in
          inl (
            v',
            rw (e, allocate_short, big, got),
            record {
              valid = valid';
              same = λ t ne. same' t ne ∙ same t ne;
              same_use = λ t. use' t ∙ given_back t;
            },
          )
        where
          given_back : (t : ℕ) → (if s == t then false else in_use scanned t) ≡ in_use v t
          given_back t = elim (Bool-cases (s == t)) [
            | inl p ↦ let q : s ≡ t = ground arith in rw (p, ← q) (sym free_now.0)
            | inr p ↦ rw p (ground (arith, free_now.1 t))
          ]

      small : ltb (2 ^ 16 - 1) s ≡ false → Took v (allocate_short volume v)
      unfolding allocate_short
      small fit =
          let (valid, same) = free_map_allocate-IsValid v h in
          let real : s ≢ no_sector = ground arith in
          let (v', got, valid', same', use') = cache_zero-zeros scanned s valid real in
          inr (
            s,
            v',
            rw (e, allocate_short, fit, got),
            record {
              valid = valid';
              fits = ground arith;
              was_free = free_now.0;
              same = λ t ne d. ground (arith, same' t ne, same t ne);
              zeroed = ground (arith, same' s real);
              same_use = λ t. use' t ∙ free_now.1 t;
            },
          )

    -- On a valid volume, `allocate_short` takes a free sector whose number fits in 16 bits and
    -- zeroes it, or returns false and leaves the volume as it was.
    pub allocate_short-Took : Took v (allocate_short volume v)
    allocate_short-Took = elim (Option-cases (free_map_allocate v).0) [
      | inl e ↦ refused e
      | inr (s, e) ↦ elim (Bool-cases (ltb (2 ^ 16 - 1) s)) [
        | inl big ↦ too_large s e big
        | inr fit ↦ small s e fit
      ]
    ]
