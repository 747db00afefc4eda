-- ===== src/FileSystem/Cache/Arrays.antt =====
-- What the two loops over `buffer_cache` find.
use cs124_my_pintos.Common.{
  ℕ, zero, suc, ◌<◌, ◌≡◌, refl, ◌≢◌, inl, inr, false, none, some, List, [], ◌∷◌, arith, length,
  get_or, Option-cases, Bool-cases,
}
use cs124_my_pintos.FileSystem.Cache.Defs.{CacheEntry, blank, clock, find_index}

-- Two entries that differ at most in `accessed`.
abbrev pub SameBlock : CacheEntry → CacheEntry → Type 0
SameBlock e f = (e.sector ≡ f.sector) × (e.dirty ≡ f.dirty) × (e.bytes ≡ f.bytes)

pub length-clock : (es : List CacheEntry) → length (clock es).1 ≡ length es
unfolding clock
length-clock [] = refl
length-clock (e ∷ []) = refl
length-clock (e ∷ f ∷ rest) = ground (arith, length-clock (f ∷ rest))

pub clock-lt : (es : List CacheEntry) → 0 < length es → (clock es).0 < length es
unfolding clock
clock-lt [] h = absurd (omega arith)
clock-lt (e ∷ []) h = omega arith
clock-lt (e ∷ f ∷ rest) h = ground (arith, clock-lt (f ∷ rest))

-- The loop changes `accessed` flags only.
pub clock-SameBlock :
    (es : List CacheEntry) (j : ℕ) → SameBlock (get_or (clock es).1 j blank) (get_or es j blank)
unfolding clock
clock-SameBlock [] j = (refl, refl, refl)
clock-SameBlock (e ∷ []) zero = ground arith
clock-SameBlock (e ∷ []) (suc j) = (refl, refl, refl)
clock-SameBlock (e ∷ f ∷ rest) zero = ground arith
clock-SameBlock (e ∷ f ∷ rest) (suc j) = elim (Bool-cases e.accessed) [
  | inl a ↦ rw a (clock-SameBlock (f ∷ rest) j)
  | inr a ↦ rw a (refl, refl, refl)
]

-- The entry that it stops at has lost its `accessed` flag, so its caller takes it at once.
pub clock-not_accessed :
    (es : List CacheEntry) → (get_or (clock es).1 (clock es).0 blank).accessed ≡ false
unfolding clock
clock-not_accessed [] = refl
clock-not_accessed (e ∷ []) = ground arith
clock-not_accessed (e ∷ f ∷ rest) = elim (Bool-cases e.accessed) [
  | inl a ↦ rw a (clock-not_accessed (f ∷ rest))
  | inr a ↦ rw a
]

pub find_index-some :
    (s : ℕ) (es : List CacheEntry) (i : ℕ)
    → find_index s es ≡ some i
    → (i < length es) × ((get_or es i blank).sector ≡ s)
unfolding find_index
find_index-some s [] i h = cc
find_index-some s (e ∷ es) zero h = ground arith
find_index-some s (e ∷ es) (suc i) h = ground (arith, find_index-some s es i)

pub find_index-none :
    (s : ℕ) (es : List CacheEntry) (j : ℕ)
    → find_index s es ≡ none
    → j < length es
    → (get_or es j blank).sector ≢ s
unfolding find_index
find_index-none s [] j h l = absurd (omega arith)
find_index-none s (e ∷ es) zero h l = ground arith
find_index-none s (e ∷ es) (suc j) h l = ground (arith, find_index-none s es j)

-- The only entry of a sector is the one that is found.
pub find_index_unique :
    (s : ℕ) (es : List CacheEntry) (i : ℕ)
    → i < length es
    → (get_or es i blank).sector ≡ s
    → ((j : ℕ) → j < length es → (get_or es j blank).sector ≡ s → j ≡ i)
    → find_index s es ≡ some i
find_index_unique s es i l e only = elim (Option-cases (find_index s es)) [
  | inl n ↦ absurd (find_index-none s es i n l e)
  | inr (j, p) ↦ let (a, b) = find_index-some s es j p in let q : j ≡ i = only j a b in rw (← q) p
]

pub find_index-absent :
    (s : ℕ) (es : List CacheEntry)
    → ((j : ℕ) → j < length es → (get_or es j blank).sector ≢ s)
    → find_index s es ≡ none
find_index-absent s es out = elim (Option-cases (find_index s es)) [
  | inl n ↦ n
  | inr (j, p) ↦ let (a, b) = find_index-some s es j p in absurd (out j a b)
]
