-- ===== src/FileSystem/Cache/Lookup.antt =====
-- `next_cache_entry` and `find_cache_entry` of cache.c.
use cs124_my_pintos.Common.{
  ℕ, suc, ◌<◌, ◌≡◌, refl, sym, ◌∙◌, ◌≢◌, inl, inr, true, false, Option, none, some, get_or-set_self,
  arith, set, get_or-set, Bool-cases, ◌==◌, if◌then◌else◌,
}
use cs124_my_pintos.FileSystem.Block.{Block}
use cs124_my_pintos.FileSystem.Cache.Defs.{
  CacheEntry, Cache, entry, blank, cache_size, no_sector, clock, find_index, write_back,
  next_cache_entry, fill, find_cache_entry,
}
use cs124_my_pintos.FileSystem.Cache.Arrays.{
  length-clock, clock-lt, clock-SameBlock, clock-not_accessed, find_index-some, find_index-none,
}
use cs124_my_pintos.FileSystem.Cache.Invariant.{
  IsValid, contents, contents-entry, contents-absent, put-IsValid, contents-put, alike-IsValid,
  contents-alike,
}

module _ (block : Block) where
  open block use {Device, block_read, block_write, block_read-block_write, length-block_read}

  abbrev pub SameContents : Cache Device → Cache Device → Type 0
  SameContents c' c = (t : ℕ) → t ≢ no_sector → contents block c' t ≡ contents block c t

  module _ {c : Cache Device} (v : IsValid block c) (i : ℕ) (inside : i < cache_size) where
    abbrev cleaned : CacheEntry
    cleaned = record (entry c i) { dirty = false }

    abbrev flushed : Cache Device
    flushed = record {
      entries = set c.entries i cleaned;
      disk = block_write c.disk (entry c i).sector (entry c i).bytes;
    }

    module _ (d : (entry c i).dirty ≡ true) where
      used : (entry c i).sector ≢ no_sector
      used = ground (arith, v.unused i inside)

      wrote :
          (t : ℕ)
          → block_read flushed.disk t
            ≡ (if (entry c i).sector == t then (entry c i).bytes else block_read c.disk t)
      wrote t =
          block_read-block_write c.disk (entry c i).sector t (entry c i).bytes (v.full i inside)

      alone : (j : ℕ) → j < cache_size → j ≢ i → (entry c j).sector ≢ (entry c i).sector
      alone j a ne p = ne (sym (v.unique i j inside a used (sym p)))

      same : (t : ℕ) → t ≢ (entry c i).sector → block_read flushed.disk t ≡ block_read c.disk t
      same t ne = ground (arith, wrote t)

      flush-IsValid : IsValid block flushed
      flush-IsValid =
          put-IsValid block v i cleaned flushed.disk inside used (v.full i inside) alone
            (λ _. ground (arith, wrote (entry c i).sector)) same

      flush-contents : SameContents flushed c
      flush-contents t u =
          contents-put block v i cleaned flushed.disk inside used (v.full i inside) alone
            (λ _. ground (arith, wrote (entry c i).sector)) same t u (inl refl)
          ∙ kept
        where
          kept :
              (if (entry c i).sector == t then (entry c i).bytes else contents block c t)
              ≡ contents block c t
          kept = elim (Bool-cases ((entry c i).sector == t)) [
            | inl p ↦
                let q : (entry c i).sector ≡ t = ground arith in
                rw (p, ← q) (sym (contents-entry block v i inside used))
            | inr p ↦ rw p
          ]

    -- Writing an entry back keeps the invariant, changes no sector's contents, and leaves the entry
    -- clean.
    pub write_back-IsValid : IsValid block (write_back block c i)
    unfolding write_back
    write_back-IsValid = elim (Bool-cases (entry c i).dirty) [
      | inl d ↦ simp d (flush-IsValid d)
      | inr d ↦ simp d v
    ]

    pub write_back-contents : SameContents (write_back block c i) c
    unfolding write_back
    write_back-contents t u = elim (Bool-cases (entry c i).dirty) [
      | inl d ↦ simp d (flush-contents d t u)
      | inr d ↦ simp d refl
    ]

    pub write_back-entry :
        (j : ℕ) → entry (write_back block c i) j ≡ (if i == j then cleaned else entry c j)
    unfolding write_back
    write_back-entry j = elim (Bool-cases (entry c i).dirty) [
      | inl d ↦ simp d (get_or-set c.entries i j cleaned blank (rw v.count inside))
      | inr d ↦ simp d (elim (Bool-cases (i == j)) [
        | inl p ↦
            let q : i ≡ j = ground arith in rw (p, ← q) (λ k. record (entry c i) { dirty = d k })
        | inr p ↦ rw p
      ])
    ]

  module _ {c : Cache Device} (v : IsValid block c) where
    abbrev victim : ℕ
    victim = (clock c.entries).0

    abbrev passed : Cache Device
    passed = record c { entries = (clock c.entries).1 }

    passed-IsValid : IsValid block passed
    passed-IsValid =
        alike-IsValid block v (clock c.entries).1 (length-clock c.entries)
          (clock-SameBlock c.entries)

    victim-lt : victim < cache_size
    victim-lt = omega (arith, clock-lt c.entries, v.count)

    -- One round is enough: the entry at which the loop stops is never `accessed`.
    next_cache_entry-some :
        (fuel : ℕ)
        → next_cache_entry block (suc fuel) c ≡ some (victim, write_back block passed victim)
    unfolding next_cache_entry
    next_cache_entry-some fuel = rw (clock-not_accessed c.entries)

    abbrev taken : Cache Device
    taken = write_back block passed victim

    taken-IsValid : IsValid block taken
    taken-IsValid = write_back-IsValid passed-IsValid victim victim-lt

    taken-contents : SameContents taken c
    taken-contents t u =
        write_back-contents passed-IsValid victim victim-lt t u
        ∙ contents-alike block v (clock c.entries).1 (length-clock c.entries)
            (clock-SameBlock c.entries) t u

    taken-clean : (entry taken victim).dirty ≡ false
    taken-clean = ground (arith, write_back-entry passed-IsValid victim victim-lt victim)

    taken-sector : (j : ℕ) → (entry taken j).sector ≡ (entry c j).sector
    taken-sector j = elim (Bool-cases (victim == j)) [
      | inl p ↦
          let q : victim ≡ j = ground arith in
          rw (write_back-entry passed-IsValid victim victim-lt j, p, q)
            ((clock-SameBlock c.entries j).0)
      | inr p ↦
          rw (write_back-entry passed-IsValid victim victim-lt j, p)
            ((clock-SameBlock c.entries j).0)
    ]

    module _ (s : ℕ) (real : s ≢ no_sector)
        (miss : (j : ℕ) → j < cache_size → (entry c j).sector ≢ s) where
      abbrev loaded : CacheEntry
      loaded = record (entry taken victim) { sector = s; bytes = block_read taken.disk s }

      free : (j : ℕ) → j < cache_size → (entry taken j).sector ≢ s
      free j a = rw (taken-sector j) (miss j a)

      fill-IsValid : IsValid block (fill block taken victim s)
      unfolding fill
      fill-IsValid =
          put-IsValid block taken-IsValid victim loaded taken.disk victim-lt real
            (length-block_read taken.disk s) (λ j a _. free j a) (λ _. refl) (λ _ _. refl)

      fill-contents : SameContents (fill block taken victim s) c
      unfolding fill
      fill-contents t u =
          contents-put block taken-IsValid victim loaded taken.disk victim-lt real
            (length-block_read taken.disk s) (λ j a _. free j a) (λ _. refl) (λ _ _. refl) t u
            (inr taken-clean)
          ∙ (kept ∙ taken-contents t u)
        where
          kept :
              (if s == t then block_read taken.disk s else contents block taken t)
              ≡ contents block taken t
          kept = elim (Bool-cases (s == t)) [
            | inl p ↦
                let q : s ≡ t = ground arith in
                rw (p, ← q) (sym (contents-absent block taken-IsValid s free))
            | inr p ↦ rw p
          ]

      fill-sector : (entry (fill block taken victim s) victim).sector ≡ s
      unfolding fill
      fill-sector =
          rw (get_or-set_self taken.entries victim loaded blank (rw taken-IsValid.count victim-lt))

    -- What a caller of `find_cache_entry` gets: an entry of the sector, in a valid cache in which
    -- every sector reads as before.
    abbrev pub Found : ℕ → Option (ℕ × Cache Device) → Type 0
    Found s r =
        (i : ℕ) × (c' : Cache Device) × (r ≡ some (i, c'))
        × (i < cache_size)
        × ((entry c' i).sector ≡ s)
        × IsValid block c'
        × SameContents c' c

    find_cache_entry-cases :
        (fuel s : ℕ)
        → s ≢ no_sector
        → (o : Option ℕ) → find_index s c.entries ≡ o
        → Found s (find_cache_entry block (suc fuel) s c)
    unfolding find_cache_entry
    find_cache_entry-cases fuel s real none e =
        let miss = λ (j : ℕ) (a : j < cache_size). find_index-none s c.entries j e (rw v.count a) in
        (
          victim,
          fill block taken victim s,
          rw (e, find_cache_entry, next_cache_entry-some fuel),
          victim-lt,
          fill-sector s real miss,
          fill-IsValid s real miss,
          fill-contents s real miss,
        )
    find_cache_entry-cases fuel s real (some i) e =
        let (a, b) = find_index-some s c.entries i e in
        let hit : ((entry c i).sector == s) ≡ true = ground arith in
        (i, c, rw (e, find_cache_entry, hit), rw v.count at a, b, v, λ t u. refl)

    -- For a valid cache and a real sector, `find_cache_entry` ends within its rounds with an entry
    -- that holds the sector; the cache stays valid and no contents change.
    pub find_cache_entry-Found :
        (fuel s : ℕ) → s ≢ no_sector → Found s (find_cache_entry block (suc fuel) s c)
    find_cache_entry-Found fuel s real =
        find_cache_entry-cases fuel s real (find_index s c.entries) refl
