-- ===== src/FileSystem/FreeMap/Defs.antt =====
-- The functions of free-map.c. Bitmaps (lib/kernel/bitmap.h) and the file that the map is kept in
-- are outside the repository: an interface with their documented behaviour.
use cs124_my_pintos.Common.{ℕ, ◌<◌, ◌≡◌, Bool, true, false, Option, none, some, ◌==◌, if◌then◌else◌}

pub record Bitmap : Type 1 where
  pub Bits : Type 0
  pub File : Type 0
  pub size : Bits → ℕ
  pub bitmap_test : Bits → ℕ → Bool
  -- `bitmap_create` of a number of bits, all false
  pub bitmap_create : ℕ → Bits
  -- `bitmap_set_multiple` of one bit
  pub bitmap_set : Bits → ℕ → Bool → Bits
  -- `bitmap_scan_and_flip (b, 0, 1, false)`; `none` is BITMAP_ERROR
  pub bitmap_scan_and_flip : Bits → Option ℕ × Bits
  -- whether the file could be written, and the file afterwards
  pub bitmap_write : Bits → File → Bool × File
  pub size-bitmap_create : (n : ℕ) → size (bitmap_create n) ≡ n
  pub bitmap_test-bitmap_create : (n i : ℕ) → bitmap_test (bitmap_create n) i ≡ false
  pub size-bitmap_set : (b : Bits) (i : ℕ) (v : Bool) → size (bitmap_set b i v) ≡ size b
  pub bitmap_test-bitmap_set :
      (b : Bits) (i j : ℕ) (v : Bool)
      → i < size b
      → bitmap_test (bitmap_set b i v) j ≡ (if i == j then v else bitmap_test b j)
  pub bitmap_scan_and_flip-some :
      (b : Bits) (i : ℕ)
      → (bitmap_scan_and_flip b).0 ≡ some i
      → (i < size b)
        × (bitmap_test b i ≡ false)
        × ((bitmap_scan_and_flip b).1 ≡ bitmap_set b i true)
  pub bitmap_scan_and_flip-none :
      (b : Bits)
      → (bitmap_scan_and_flip b).0 ≡ none
      → ((bitmap_scan_and_flip b).1 ≡ b) × ((i : ℕ) → i < size b → bitmap_test b i ≡ true)

abbrev pub free_map_sector : ℕ
free_map_sector = 0

abbrev pub root_dir_sector : ℕ
root_dir_sector = 1

module _ (bitmap : Bitmap) where
  open bitmap use {
    Bits, File, size, bitmap_test, bitmap_create, bitmap_set, bitmap_scan_and_flip, bitmap_write,
  }

  -- `free_map` and `free_map_file`, `none` where the latter is a null pointer
  pub record FreeMap : Type 0 where
    pub free_map : Bits
    pub free_map_file : Option File

  -- `free_map_init` on a device of `sectors` sectors; the file is not open yet
  unfoldable pub free_map_init : ℕ → FreeMap
  free_map_init sectors = record {
    free_map =
        bitmap_set (bitmap_set (bitmap_create sectors) free_map_sector true) root_dir_sector true;
    free_map_file = none;
  }

  -- The test of `free_map_allocate` on the file, at the sector that the scan has found.
  unfoldable pub write_allocated : FreeMap → ℕ → Option ℕ × FreeMap
  write_allocated m sector = elim m.free_map_file [
    | none ↦ (some sector, m)
    | some file ↦
        let (written, file') = bitmap_write m.free_map file in
        if written then (some sector, record m { free_map_file = some file' }) else (
          none,
          record { free_map = bitmap_set m.free_map sector false; free_map_file = some file' },
        )
  ]

  -- `none` is the return value false.
  unfoldable pub free_map_allocate : FreeMap → Option ℕ × FreeMap
  unfolding write_allocated
  free_map_allocate m =
      let (found, bits) = bitmap_scan_and_flip m.free_map in
      let m' : FreeMap = record m { free_map = bits } in
      elim found [ none ↦ (none, m') | some sector ↦ write_allocated m' sector ]

  -- `none` is a failed assertion, or a write through the null pointer.
  unfoldable pub free_map_release : FreeMap → ℕ → Option FreeMap
  free_map_release m sector =
      if bitmap_test m.free_map sector
      then elim m.free_map_file [
        | none ↦ none
        | some file ↦
            let bits = bitmap_set m.free_map sector false in
            some (record { free_map = bits; free_map_file = some (bitmap_write bits file).1 })
      ]
      else none

  -- The sectors that are in use.
  abbrev pub in_use : FreeMap → ℕ → Bool
  in_use m = bitmap_test m.free_map
