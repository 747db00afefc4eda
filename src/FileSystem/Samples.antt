-- ===== src/FileSystem/Samples.antt =====
-- A device and a bitmap as functions: the interfaces can be met, and the tests run on them.
use cs124_my_pintos.Common.{
  ℕ, zero, suc, ◌+◌, ◌<◌, ◌≤◌, ◌≡◌, refl, sym, ◌∙◌, ap, Bool, true, false, inl, inr, Option, none,
  some, List, arith, length, replicate, length-replicate, Bool-cases, ◌==◌, if◌then◌else◌,
}
use cs124_my_pintos.FileSystem.Block.{Block, block_sector_size}
use cs124_my_pintos.FileSystem.FreeMap.Defs.{Bitmap}

-- A device whose sectors are the values of a function; one of the wrong length reads as zeros.
unfoldable pub read_sector : (ℕ → List ℕ) → ℕ → List ℕ
read_sector d s = if length (d s) == block_sector_size then d s else replicate block_sector_size 0

unfoldable pub write_sector : (ℕ → List ℕ) → ℕ → List ℕ → ℕ → List ℕ
write_sector d s bytes t = if s == t then bytes else d t

pub length-read_sector : (d : ℕ → List ℕ) (s : ℕ) → length (read_sector d s) ≡ block_sector_size
unfolding read_sector
length-read_sector d s = elim (Bool-cases (length (d s) == block_sector_size)) [
  | inl e ↦ rw e (ground arith)
  | inr e ↦ rw e (length-replicate {A = ℕ} block_sector_size 0)
]

pub read_sector-write_sector :
    (d : ℕ → List ℕ) (s t : ℕ) (bytes : List ℕ)
    → length bytes ≡ block_sector_size
    → read_sector (write_sector d s bytes) t ≡ (if s == t then bytes else read_sector d t)
unfolding read_sector write_sector
read_sector-write_sector d s t bytes h = elim (Bool-cases (s == t)) [
  | inl e ↦ rw (e, h)
  | inr e ↦ rw e
]

abbrev pub sample_block : Block
sample_block = record {
  Device = ℕ → List ℕ;
  block_read = read_sector;
  block_write = write_sector;
  length-block_read = length-read_sector;
  block_read-block_write = read_sector-write_sector;
}

pub record Bits : Type 0 where
  pub count : ℕ
  pub test : ℕ → Bool

unfoldable pub set_bit : Bits → ℕ → Bool → Bits
set_bit b i v = record b { test = λ j. if i == j then v else b.test j }

-- The first false bit among the `n` from `i` on.
unfoldable pub first_clear : ℕ → ℕ → (ℕ → Bool) → Option ℕ
first_clear zero i f = none
first_clear (suc n) i f = let later = first_clear n (i + 1) f in if f i then later else some i

unfoldable pub flip_found : Bits → Option ℕ → Option ℕ × Bits
flip_found b none = (none, b)
flip_found b (some i) = (some i, set_bit b i true)

unfoldable pub scan : Bits → Option ℕ × Bits
unfolding first_clear flip_found set_bit
scan b = flip_found b (first_clear b.count 0 b.test)

first_clear-some :
    (n i k : ℕ) (f : ℕ → Bool) → first_clear n i f ≡ some k → (i ≤ k) × (k < i + n) × (f k ≡ false)
unfolding first_clear
first_clear-some zero i k f h = cc
first_clear-some (suc n) i k f h = elim (Bool-cases (f i)) [
  | inl e ↦
      let (a, b, c) = first_clear-some n (i + 1) k f (rw e at h) in (omega arith, omega arith, c)
  | inr e ↦ let q : i ≡ k = ground arith in (omega arith, omega arith, rw (← q) e)
]

first_clear-none :
    (n i k : ℕ) (f : ℕ → Bool) → first_clear n i f ≡ none → i ≤ k → k < i + n → f k ≡ true
unfolding first_clear
first_clear-none zero i k f h a b = absurd (omega arith)
first_clear-none (suc n) i k f h a b = elim (Bool-cases (f i)) [
  | inl e ↦ elim (Bool-cases (i == k)) [
    | inl p ↦ let q : i ≡ k = ground arith in rw (← q) e
    | inr p ↦ first_clear-none n (i + 1) k f (rw e at h) (ground arith) (omega arith)
  ]
  | inr e ↦ cc (rw e at h)
]

flip_found-eq : (b : Bits) (o : Option ℕ) → (flip_found b o).0 ≡ o
unfolding flip_found
flip_found-eq b none = refl
flip_found-eq b (some i) = refl

scan-found : (b : Bits) → (scan b).0 ≡ first_clear b.count 0 b.test
unfolding scan
scan-found b = flip_found-eq b (first_clear b.count 0 b.test)

scan-flip : (b : Bits) (o : Option ℕ) → first_clear b.count 0 b.test ≡ o → scan b ≡ flip_found b o
unfolding scan
scan-flip b o e = ap (flip_found b) e

pub scan-some :
    (b : Bits) (i : ℕ)
    → (scan b).0 ≡ some i
    → (i < b.count) × (b.test i ≡ false) × ((scan b).1 ≡ set_bit b i true)
unfolding flip_found
scan-some b i h =
    let e = sym (scan-found b) ∙ h in
    let (_, k, f) = first_clear-some b.count 0 i b.test e in
    (omega arith, f, ap (λ r. r.1) (scan-flip b (some i) e))

pub scan-none :
    (b : Bits) → (scan b).0 ≡ none → ((scan b).1 ≡ b) × ((i : ℕ) → i < b.count → b.test i ≡ true)
unfolding flip_found
scan-none b h =
    let e = sym (scan-found b) ∙ h in
    (
      ap (λ r. r.1) (scan-flip b none e),
      λ i l. first_clear-none b.count 0 i b.test e (omega arith) (omega arith),
    )

pub count-set_bit : (b : Bits) (i : ℕ) (v : Bool) → (set_bit b i v).count ≡ b.count
unfolding set_bit
count-set_bit b i v = refl

pub test-set_bit :
    (b : Bits) (i j : ℕ) (v : Bool)
    → i < b.count
    → (set_bit b i v).test j ≡ (if i == j then v else b.test j)
unfolding set_bit
test-set_bit b i j v h = refl

abbrev pub sample_bitmap : Bitmap
sample_bitmap = record {
  Bits = Bits;
  File = ℕ;
  size = λ b. b.count;
  bitmap_test = λ b. b.test;
  bitmap_create = λ n. record { count = n; test = λ _. false };
  bitmap_set = set_bit;
  bitmap_scan_and_flip = scan;
  bitmap_write = λ b n. (true, n + 1);
  size-bitmap_create = λ n. refl;
  bitmap_test-bitmap_create = λ n i. refl;
  size-bitmap_set = count-set_bit;
  bitmap_test-bitmap_set = test-set_bit;
  bitmap_scan_and_flip-some = scan-some;
  bitmap_scan_and_flip-none = scan-none;
}
