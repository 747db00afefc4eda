-- ===== src/FileSystem/Cache/Invariant.antt =====
-- What every operation on the cache keeps, and what the cache and the device hold between them.
use cs124_my_pintos.Common.{
  ℕ, ◌<◌, ◌≡◌, refl, sym, ◌∙◌, subst, ◌≢◌, ◌⊎◌, inl, inr, false, none, some, List, arith, length,
  get_or, set, get_or-set, length-set, Option-cases, Bool-cases, ◌==◌, if◌then◌else◌,
}
use native.Mathlib.Decide.{ℕ_discrete}
use cs124_my_pintos.FileSystem.Block.{Block, block_sector_size}
use cs124_my_pintos.FileSystem.Cache.Defs.{
  CacheEntry, Cache, entry, blank, cache_size, no_sector, find_index,
}
use cs124_my_pintos.FileSystem.Cache.Arrays.{
  SameBlock, find_index-some, find_index-none, find_index_unique, find_index-absent,
}

module _ (block : Block) where
  open block use {Device, block_read, block_write, block_read-block_write, length-block_read}

  pub record IsValid (c : Cache Device) : Type 0 where
    pub count : length c.entries ≡ cache_size
    -- no sector is in two entries
    pub unique :
        (i j : ℕ)
        → i < cache_size
        → j < cache_size
        → (entry c i).sector ≢ no_sector
        → (entry c i).sector ≡ (entry c j).sector
        → i ≡ j
    -- an entry that is not dirty agrees with the device
    pub synced :
        (i : ℕ)
        → i < cache_size
        → (entry c i).sector ≢ no_sector
        → (entry c i).dirty ≡ false
        → block_read c.disk (entry c i).sector ≡ (entry c i).bytes
    pub unused :
        (i : ℕ) → i < cache_size → (entry c i).sector ≡ no_sector → (entry c i).dirty ≡ false
    pub full : (i : ℕ) → i < cache_size → length (entry c i).bytes ≡ block_sector_size

  -- What a reader of sector `s` is to see: the cached copy, or else the device's.
  abbrev pub contents : Cache Device → ℕ → List ℕ
  contents c s = elim (find_index s c.entries) [
    | none ↦ block_read c.disk s
    | some i ↦ (entry c i).bytes
  ]

  module _ {c : Cache Device} (v : IsValid c) where
    pub contents-entry :
        (i : ℕ)
        → i < cache_size
        → (entry c i).sector ≢ no_sector
        → contents c (entry c i).sector ≡ (entry c i).bytes
    contents-entry i l used = rw (
      find_index_unique (entry c i).sector c.entries i (rw v.count l) refl
          (λ j a e. sym (v.unique i j l (rw v.count at a) used (sym e))),
      contents,
    )

    pub contents-absent :
        (s : ℕ)
        → ((j : ℕ) → j < cache_size → (entry c j).sector ≢ s)
        → contents c s ≡ block_read c.disk s
    contents-absent s out =
        rw (find_index-absent s c.entries (λ j a. out j (rw v.count at a)), contents)

    -- A sector is cached at one index, or nowhere.
    pub located :
        (s : ℕ)
        → ((i : ℕ) × (i < cache_size) × ((entry c i).sector ≡ s))
          ⊎ ((j : ℕ) → j < cache_size → (entry c j).sector ≢ s)
    located s = elim (Option-cases (find_index s c.entries)) [
      | inl n ↦ inr (λ j a. find_index-none s c.entries j n (rw v.count a))
      | inr (i, e) ↦ let (a, b) = find_index-some s c.entries i e in inl (i, rw v.count at a, b)
    ]

  -- Putting a block `e` into entry `i` while the device becomes `d`.
  module _ {c : Cache Device} (v : IsValid c) (i : ℕ) (e : CacheEntry) (d : Device)
      (inside : i < cache_size) (used : e.sector ≢ no_sector)
      (fits : length e.bytes ≡ block_sector_size)
      (alone : (j : ℕ) → j < cache_size → j ≢ i → (entry c j).sector ≢ e.sector)
      (clean : e.dirty ≡ false → block_read d e.sector ≡ e.bytes)
      (same : (t : ℕ) → t ≢ e.sector → block_read d t ≡ block_read c.disk t) where
    abbrev pub after : Cache Device
    after = record { entries = set c.entries i e; disk = d }

    entry-after : (j : ℕ) → entry after j ≡ (if i == j then e else entry c j)
    entry-after j = get_or-set c.entries i j e blank (rw v.count inside)

    unique-after :
        (j k : ℕ)
        → j < cache_size
        → k < cache_size
        → (entry after j).sector ≢ no_sector
        → (entry after j).sector ≡ (entry after k).sector
        → j ≡ k
    unique-after j k a b =
        rw (entry-after j, entry-after k)
          λ p q. ground (arith, v.unique j k a b, alone j a, alone k b)

    pub put-IsValid : IsValid after
    put-IsValid = record {
      count = length-set c.entries i e ∙ v.count;
      unique = unique-after;
      synced = λ j a.
          rw (entry-after j)
            (λ p q. ground (arith, v.synced j a, alone j a, same (entry c j).sector));
      unused = λ j a. rw (entry-after j) (λ p. ground (arith, v.unused j a));
      full = λ j a. rw (entry-after j) (ground (arith, v.full j a));
    }

    contents-at :
        (k : ℕ)
        → k < cache_size
        → (entry after k).sector ≢ no_sector
        → contents after (entry after k).sector ≡ (entry after k).bytes
    contents-at k a n = contents-entry put-IsValid k a n

    contents-new : contents after e.sector ≡ e.bytes
    contents-new =
        let h : entry after i ≡ e = ground (arith, entry-after i) in
        subst (λ x. contents after x.sector ≡ x.bytes) h
          (contents-entry put-IsValid i inside (rw h used))

    contents-kept :
        (k : ℕ)
        → k < cache_size
        → k ≢ i
        → (entry c k).sector ≢ no_sector
        → contents after (entry c k).sector ≡ contents c (entry c k).sector
    contents-kept k a n u =
        let h : entry after k ≡ entry c k = ground (arith, entry-after k) in
        subst (λ x. contents after x.sector ≡ x.bytes) h (contents-entry put-IsValid k a (rw h u))
        ∙ sym (contents-entry v k a u)

    contents-out :
        (t : ℕ)
        → t ≢ e.sector
        → ((j : ℕ) → j < cache_size → j ≢ i → (entry c j).sector ≢ t)
        → contents after t ≡ block_read c.disk t
    contents-out t n out =
        contents-absent put-IsValid t (λ j a. rw (entry-after j) (ground (arith, out j a)))
        ∙ same t n

    contents-old :
        ((entry c i).sector ≡ e.sector) ⊎ ((entry c i).dirty ≡ false)
        → (entry c i).sector ≢ e.sector
        → (entry c i).sector ≢ no_sector
        → contents after (entry c i).sector ≡ contents c (entry c i).sector
    contents-old (inl s) n u = absurd (n s)
    contents-old (inr s) n u =
        contents-out (entry c i).sector n (λ j a ne p. ne (v.unique j i a inside (rw p u) p))
        ∙ (v.synced i inside u s ∙ sym (contents-entry v i inside u))

    -- Every other sector reads as before, if the entry kept its sector or was clean.
    pub contents-put :
        (t : ℕ)
        → t ≢ no_sector
        → ((entry c i).sector ≡ e.sector) ⊎ ((entry c i).dirty ≡ false)
        → contents after t ≡ (if e.sector == t then e.bytes else contents c t)
    contents-put t u moved = elim (Bool-cases (e.sector == t)) [
      | inl p ↦ let q : e.sector ≡ t = ground arith in rw (p, ← q) contents-new
      | inr p ↦ rw p (elim (located v t) [
        | inl (k, a, b) ↦ elim (ℕ_discrete k i) [
          | yes q ↦
              subst (λ x. contents after x ≡ contents c x) (rw (← q) b)
                (contents-old moved (ground arith) (ground arith))
          | no q ↦ subst (λ x. contents after x ≡ contents c x) b (contents-kept k a q (rw b u))
        ]
        | inr out ↦ contents-out t (ground arith) (λ j a _. out j a) ∙ sym (contents-absent v t out)
      ])
    ]

  -- Entries that differ from those of a valid cache in `accessed` only.
  module _ {c : Cache Device} (v : IsValid c) (es : List CacheEntry)
      (count : length es ≡ length c.entries)
      (alike : (j : ℕ) → SameBlock (get_or es j blank) (entry c j)) where
    pub alike-IsValid : IsValid (record c { entries = es })
    alike-IsValid = record {
      count = count ∙ v.count;
      unique = λ j k a b p q.
          v.unique j k a b (ground (arith, alike j)) (ground (arith, alike j, alike k));
      synced = λ j a p q. ground (arith, alike j, v.synced j a);
      unused = λ j a p. ground (arith, alike j, v.unused j a);
      full = λ j a. ground (arith, alike j, v.full j a);
    }

    pub contents-alike :
        (t : ℕ) → t ≢ no_sector → contents (record c { entries = es }) t ≡ contents c t
    contents-alike t u = elim (located v t) [
      | inl (k, a, b) ↦
          subst (λ x. contents (record c { entries = es }) x ≡ (get_or es k blank).bytes)
            ((alike k).0 ∙ b) (contents-entry alike-IsValid k a (rw ((alike k).0, b) u))
          ∙ ((alike k).2
              ∙ sym
                  (subst (λ x. contents c x ≡ (entry c k).bytes) b (contents-entry v k a (rw b u))))
      | inr out ↦
          contents-absent alike-IsValid t (λ j a. rw (alike j).0 (out j a))
          ∙ sym (contents-absent v t out)
    ]
