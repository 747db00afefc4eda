-- ===== src/FileSystem/FreeMap/Laws.antt =====
-- Allocation and release of sectors.
use cs124_my_pintos.Common.{
  ℕ, ◌<◌, ◌≡◌, refl, sym, ◌∙◌, ap, ◌≢◌, inl, inr, true, false, Option, none, some, arith, ◌==◌,
  if◌then◌else◌, Bool-cases, Option-cases,
}
use cs124_my_pintos.FileSystem.FreeMap.Defs.{
  Bitmap, FreeMap, free_map_init, free_map_allocate, free_map_release, write_allocated, in_use,
  free_map_sector, root_dir_sector,
}

module _ (bitmap : Bitmap) where
  open bitmap use {
    Bits, File, size, bitmap_test, bitmap_create, bitmap_set, bitmap_scan_and_flip, bitmap_write,
    bitmap_test-bitmap_set, bitmap_scan_and_flip-some, bitmap_scan_and_flip-none, size-bitmap_set,
    bitmap_test-bitmap_create, size-bitmap_create,
  }

  abbrev pub sectors : FreeMap bitmap → ℕ
  sectors m = size m.free_map

  -- A call that fails leaves every sector as it was; one that succeeds takes a sector that was
  -- free, and no other changes.
  abbrev pub Allocated : FreeMap bitmap → Option ℕ × FreeMap bitmap → Type 0
  Allocated m (none, m') =
      (sectors m' ≡ sectors m) × ((t : ℕ) → in_use bitmap m' t ≡ in_use bitmap m t)
  Allocated m (some s, m') =
      (s < sectors m)
      × (in_use bitmap m s ≡ false)
      × (sectors m' ≡ sectors m)
      × ((t : ℕ) → in_use bitmap m' t ≡ (if s == t then true else in_use bitmap m t))

  module _ (m : FreeMap bitmap) (s : ℕ) (inside : s < sectors m)
      (free : in_use bitmap m s ≡ false) where
    abbrev taken : FreeMap bitmap
    taken = record m { free_map = bitmap_set m.free_map s true }

    taken-in_use : (t : ℕ) → in_use bitmap taken t ≡ (if s == t then true else in_use bitmap m t)
    taken-in_use t = bitmap_test-bitmap_set m.free_map s t true inside

    undone-in_use : (t : ℕ) → bitmap_test (bitmap_set taken.free_map s false) t ≡ in_use bitmap m t
    undone-in_use t =
        bitmap_test-bitmap_set taken.free_map s t false (rw size-bitmap_set inside)
        ∙ elim (Bool-cases (s == t)) [
          | inl p ↦ let q : s ≡ t = ground arith in rw (p, ← q) (sym free)
          | inr p ↦ rw p (ground (arith, taken-in_use t))
        ]

    write_allocated-Allocated : Allocated m (write_allocated bitmap taken s)
    unfolding write_allocated
    write_allocated-Allocated = elim (Option-cases m.free_map_file) [
      | inl e ↦ simp e (inside, free, size-bitmap_set m.free_map s true, taken-in_use)
      | inr (f, e) ↦ simp e (elim (Bool-cases (bitmap_write taken.free_map f).0) [
        | inl w ↦ simp w (inside, free, size-bitmap_set m.free_map s true, taken-in_use)
        | inr w ↦ simp w (
          size-bitmap_set taken.free_map s false ∙ size-bitmap_set m.free_map s true,
          undone-in_use,
        )
      ])
    ]

  allocate-none :
      (m : FreeMap bitmap)
      → (bitmap_scan_and_flip m.free_map).0 ≡ none
      → free_map_allocate bitmap m
        ≡ (none, record m { free_map = (bitmap_scan_and_flip m.free_map).1 })
  unfolding free_map_allocate
  allocate-none m e = rw (e, free_map_allocate)

  allocate-some :
      (m : FreeMap bitmap) (s : ℕ)
      → (bitmap_scan_and_flip m.free_map).0 ≡ some s
      → free_map_allocate bitmap m
        ≡ write_allocated bitmap (record m { free_map = (bitmap_scan_and_flip m.free_map).1 }) s
  unfolding free_map_allocate
  allocate-some m s e = rw (e, free_map_allocate)

  -- `free_map_allocate` hands out a sector that was free and marks it alone, or returns false and
  -- every sector is as before.
  pub free_map_allocate-Allocated : (m : FreeMap bitmap) → Allocated m (free_map_allocate bitmap m)
  free_map_allocate-Allocated m = elim (Option-cases (bitmap_scan_and_flip m.free_map).0) [
    | inl e ↦ rw (allocate-none m e, (bitmap_scan_and_flip-none m.free_map e).0) (refl, λ t. refl)
    | inr (s, e) ↦
        let (a, b, c) = bitmap_scan_and_flip-some m.free_map s e in
        rw (allocate-some m s e, c) (write_allocated-Allocated m s a b)
  ]

  write_allocated-closed :
      (m : FreeMap bitmap) (s : ℕ)
      → m.free_map_file ≡ none
      → (write_allocated bitmap m s).0 ≡ some s
  unfolding write_allocated
  write_allocated-closed m s f = rw (f, write_allocated)

  -- While the map's file is not open, `free_map_allocate` fails only when no sector is free.
  pub free_map_allocate-full :
      (m : FreeMap bitmap) (t : ℕ)
      → (free_map_allocate bitmap m).0 ≡ none
      → m.free_map_file ≡ none
      → t < sectors m
      → in_use bitmap m t ≡ true
  free_map_allocate-full m t e f a = elim (Option-cases (bitmap_scan_and_flip m.free_map).0) [
    | inl n ↦ (bitmap_scan_and_flip-none m.free_map n).1 t a
    | inr (s, n) ↦ cc (
      rw (allocate-some m s n) at e,
      write_allocated-closed (record m { free_map = (bitmap_scan_and_flip m.free_map).1 }) s f,
    )
  ]

  -- A released sector, and no other, becomes free.
  pub free_map_release-frees :
      (m : FreeMap bitmap) (s : ℕ) (file : File)
      → s < sectors m
      → in_use bitmap m s ≡ true
      → m.free_map_file ≡ some file
      → (m' : FreeMap bitmap) × (free_map_release bitmap m s ≡ some m')
        × (sectors m' ≡ sectors m)
        × ((t : ℕ) → in_use bitmap m' t ≡ (if s == t then false else in_use bitmap m t))
  unfolding free_map_release
  free_map_release-frees m s file a u f = (
    record {
      free_map = bitmap_set m.free_map s false;
      free_map_file = some (bitmap_write (bitmap_set m.free_map s false) file).1;
    },
    simp (u, f),
    size-bitmap_set m.free_map s false,
    λ t. bitmap_test-bitmap_set m.free_map s t false a,
  )

  -- A double release is stopped by the assertion.
  pub free_map_release-free :
      (m : FreeMap bitmap) (s : ℕ) → in_use bitmap m s ≡ false → free_map_release bitmap m s ≡ none
  unfolding free_map_release
  free_map_release-free m s u = rw u

  -- The free map's own sector and the root directory's are never handed out.
  abbrev pub Reserved : FreeMap bitmap → Type 0
  Reserved m = (in_use bitmap m free_map_sector ≡ true) × (in_use bitmap m root_dir_sector ≡ true)

  -- On a device of two sectors at least, `free_map_init` marks the sectors of the free map and of
  -- the root directory.
  pub free_map_init-Reserved : (n : ℕ) → 1 < n → Reserved (free_map_init bitmap n)
  unfolding free_map_init
  free_map_init-Reserved n h = (
    bitmap_test-bitmap_set _ root_dir_sector free_map_sector true
          (rw (size-bitmap_set, size-bitmap_create) h)
        ∙ bitmap_test-bitmap_set _ free_map_sector free_map_sector true
            (rw size-bitmap_create (omega arith)),
    bitmap_test-bitmap_set _ root_dir_sector root_dir_sector true
        (rw (size-bitmap_set, size-bitmap_create) h),
  )

  Allocated-cases :
      (m : FreeMap bitmap) (o : Option ℕ)
      → (m' : FreeMap bitmap) → Allocated m (o, m')
      → (t : ℕ) → in_use bitmap m t ≡ true
      → (in_use bitmap m' t ≡ true) × (o ≢ some t)
  Allocated-cases m none m' a t u = (a.1 t ∙ u, λ e. cc)
  Allocated-cases m (some s) m' (i, f, z, a) t u = elim (Bool-cases (s == t)) [
    | inl p ↦ let q : s ≡ t = ground arith in cc (sym u, ap (in_use bitmap m) (sym q), f)
    | inr p ↦ (ground (arith, a t), λ e. ground arith)
  ]

  -- A sector that is in use stays in use and is not handed out by `free_map_allocate`.
  pub free_map_allocate-in_use :
      (m : FreeMap bitmap) (t : ℕ)
      → in_use bitmap m t ≡ true
      → (in_use bitmap (free_map_allocate bitmap m).1 t ≡ true)
        × ((free_map_allocate bitmap m).0 ≢ some t)
  free_map_allocate-in_use m t u =
      Allocated-cases m (free_map_allocate bitmap m).0 (free_map_allocate bitmap m).1
        (free_map_allocate-Allocated m) t u
