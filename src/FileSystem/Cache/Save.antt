-- ===== src/FileSystem/Cache/Save.antt =====
-- `cache_init` and `cache_save`: the start of the cache, and what is on the device after a save.
use cs124_my_pintos.Common.{
  ℕ, zero, suc, ◌+◌, ◌<◌, ◌≡◌, refl, sym, ◌∙◌, ap, ◌≢◌, inl, inr, false, arith, length,
  length-replicate, get_or-replicate, Bool-cases, ◌==◌, subst,
}
use cs124_my_pintos.FileSystem.Block.{Block, block_sector_size}
use cs124_my_pintos.FileSystem.Cache.Defs.{
  Cache, entry, blank, cache_size, no_sector, cache_save, save_from, cache_init, write_back,
}
use cs124_my_pintos.FileSystem.Cache.Invariant.{
  IsValid, contents, contents-entry, contents-absent, located,
}
use cs124_my_pintos.FileSystem.Cache.Lookup.{
  SameContents, write_back-IsValid, write_back-contents, write_back-entry,
}

module _ (block : Block) where
  open block use {Device, block_read}

  -- The cache of `cache_init` is valid and has no sector in it.
  pub cache_init-IsValid :
      (d : Device)
      → IsValid block (cache_init block d)
        × ((t : ℕ) → t ≢ no_sector → contents block (cache_init block d) t ≡ block_read d t)
  unfolding cache_init
  cache_init-IsValid d = (
    valid,
    λ t u.
        contents-absent block valid t
          (λ j a p. u (sym p ∙ ap (λ e. e.sector) (get_or-replicate cache_size j blank))),
  )
    where
      empty : (i : ℕ) → entry (cache_init block d) i ≡ blank
      empty i = get_or-replicate cache_size i blank

      valid : IsValid block (cache_init block d)
      valid = record {
        count = length-replicate cache_size blank;
        unique = λ i j a b u p. absurd (u (ap (λ e. e.sector) (empty i)));
        synced = λ i a u p. absurd (u (ap (λ e. e.sector) (empty i)));
        unused = λ i a p. ap (λ e. e.dirty) (empty i);
        full = λ i a.
            ap (λ e. length e.bytes) (empty i) ∙ length-replicate {A = ℕ} block_sector_size 0;
      }

  abbrev CleanBelow : ℕ → Cache Device → Type 0
  CleanBelow n c = (j : ℕ) → j < n → (entry c j).dirty ≡ false

  write_back-CleanBelow :
      {c : Cache Device} (i : ℕ)
      → IsValid block c
      → i < cache_size
      → CleanBelow i c
      → CleanBelow (i + 1) (write_back block c i)
  write_back-CleanBelow {c} i v a clean j l =
      rw (write_back-entry block v i a j)
        (elim (Bool-cases (i == j)) [ inl p ↦ rw p | inr p ↦ rw p (clean j (ground arith)) ])

  save_from-lem :
      (n i : ℕ) (c : Cache Device)
      → i + n ≡ cache_size
      → IsValid block c
      → CleanBelow i c
      → IsValid block (save_from block n i c)
        × SameContents block (save_from block n i c) c
        × CleanBelow cache_size (save_from block n i c)
  unfolding save_from
  save_from-lem zero i c e v clean = (v, λ t u. refl, λ j a. clean j (omega arith))
  save_from-lem (suc n) i c e v clean =
      let a : i < cache_size = omega arith in
      let (valid, same, all) =
        save_from-lem n (i + 1) (write_back block c i) (omega arith)
          (write_back-IsValid block v i a) (write_back-CleanBelow i v a clean) in
      (valid, λ t u. same t u ∙ write_back-contents block v i a t u, all)

  clean-synced :
      {c : Cache Device}
      → IsValid block c
      → CleanBelow cache_size c
      → (t : ℕ) → t ≢ no_sector
      → block_read c.disk t ≡ contents block c t
  clean-synced {c} v clean t u = elim (located block v t) [
    | inl (i, a, p) ↦
        subst (λ s. block_read c.disk s ≡ contents block c s) p
          (v.synced i a (rw p u) (clean i a) ∙ sym (contents-entry block v i a (rw p u)))
    | inr out ↦ sym (contents-absent block v t out)
  ]

  -- After `cache_save` of a valid cache the device holds, in every sector, what the cache held,
  -- and the cache is valid with the same contents.
  pub cache_save-durable :
      {c : Cache Device}
      → IsValid block c
      → IsValid block (cache_save block c)
        × ((t : ℕ)
            → t ≢ no_sector
            → (contents block (cache_save block c) t ≡ contents block c t)
              × (block_read (cache_save block c).disk t ≡ contents block c t))
  unfolding cache_save
  cache_save-durable {c} v =
      let (valid, same, all) = save_from-lem cache_size 0 c refl v (λ j l. elim l [ ]) in
      (valid, λ t u. (same t u, clean-synced valid all t u ∙ same t u))
