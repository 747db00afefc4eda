-- ===== src/UserPrograms/Stack/Strings.antt =====
-- The strings and their addresses on the stack of `setup_stack` in user-programs/userprog/process.c.
use cs124_my_pintos.Common.{
  ℕ, suc, ◌+◌, ◌-◌, ◌*◌, ◌≤◌, ◌≡◌, refl, sym, ap, subst, some, List, [], ◌∷◌, ◌++◌, arith, length,
  length-append,
}
use cs124_my_pintos.UserPrograms.Segment.{pg_size, phys_base}
use cs124_my_pintos.UserPrograms.Stack.{Stack, bytes_of_word, push_strings, push_addresses}
use cs124_my_pintos.UserPrograms.Stack.Push.{IsAt, Grows, Grows-trans, IsAt-Grows, push-Grows}

-- How many bytes strings take, with their 0.
abbrev pub strings_size : List (List ℕ) → ℕ
strings_size [] = 0
strings_size (t ∷ ts) = strings_size ts + (length t + 1)

-- Each string, with its 0, is at its address on the stack.
abbrev pub StringsAt : Stack → (addresses : List ℕ) (tokens : List (List ℕ)) → Type 0
StringsAt s [] [] = Unit
StringsAt s [] (t ∷ ts) = ⊥
StringsAt s (a ∷ as_) [] = ⊥
StringsAt s (a ∷ as_) (t ∷ ts) = ((s.esp ≤ a) × IsAt s.bytes a (t ++ (0 ∷ []))) × StringsAt s as_ ts

-- The words at an address, one after the other.
abbrev pub WordsAt : (bytes : ℕ → ℕ) (a : ℕ) → List ℕ → Type 0
WordsAt bytes a [] = Unit
WordsAt bytes a (w ∷ ws) = IsAt bytes a (bytes_of_word w) × WordsAt bytes (a + 4) ws

pub StringsAt-Grows :
    (n : ℕ) (s t : Stack) (addresses : List ℕ) (tokens : List (List ℕ))
    → Grows n s t
    → StringsAt s addresses tokens
    → StringsAt t addresses tokens
StringsAt-Grows n s t [] [] g h = tt
StringsAt-Grows n s t [] (x ∷ xs) g h = h
StringsAt-Grows n s t (a ∷ rest) [] g h = h
StringsAt-Grows n s t (a ∷ rest) (x ∷ xs) g ((l, h), hs) =
    let e = g.esp in
    ((omega arith, IsAt-Grows n a (x ++ (0 ∷ [])) s t g l h), StringsAt-Grows n s t rest xs g hs)

pub WordsAt-Grows :
    (n a : ℕ) (s t : Stack) (ws : List ℕ)
    → Grows n s t
    → s.esp ≤ a
    → WordsAt s.bytes a ws
    → WordsAt t.bytes a ws
WordsAt-Grows n a s t [] g l h = tt
WordsAt-Grows n a s t (w ∷ ws) g l (h, hs) =
    (IsAt-Grows n a (bytes_of_word w) s t g l h, WordsAt-Grows n (a + 4) s t ws g (omega arith) hs)

pub push_strings-StringsAt :
    (tokens : List (List ℕ)) (s : Stack)
    → phys_base - pg_size + strings_size tokens ≤ s.esp
    → (addresses : List ℕ) × (t : Stack) × (push_strings tokens s ≡ some (addresses, t))
      × Grows (strings_size tokens) s t
      × StringsAt t addresses tokens
      × (length addresses ≡ length tokens)
unfolding push_strings
push_strings-StringsAt [] s l =
    ([], s, refl, record { esp = omega arith; kept = λ a h. refl }, tt, refl)
push_strings-StringsAt (x ∷ xs) s l =
    let (addresses, t, e, g, h, n) = push_strings-StringsAt xs s (omega arith) in
    let size = length-append x (0 ∷ []) in
    let b = g.esp in
    let (u, d, k, at) = push-Grows (x ++ (0 ∷ [])) t (omega arith) in
    let k' : Grows (length x + 1) t u = subst (λ n. Grows n t u) size k in
    (
      u.esp ∷ addresses,
      u,
      rw (push_strings, e, d) refl,
      Grows-trans (strings_size xs) (length x + 1) s t u g k',
      ((omega arith, at), StringsAt-Grows (length x + 1) t u addresses xs k' h),
      ap suc n,
    )

pub push_addresses-WordsAt :
    (ws : List ℕ) (s : Stack)
    → phys_base - pg_size + 4 * length ws ≤ s.esp
    → (t : Stack) × (push_addresses ws s ≡ some t)
      × Grows (4 * length ws) s t
      × WordsAt t.bytes t.esp ws
unfolding push_addresses bytes_of_word
push_addresses-WordsAt [] s l = (s, refl, record { esp = omega arith; kept = λ a h. refl }, tt)
push_addresses-WordsAt (w ∷ ws) s l =
    let (t, e, g, h) = push_addresses-WordsAt ws s (omega arith) in
    let b = g.esp in
    let (u, d, k, at) = push-Grows (bytes_of_word w) t (omega arith) in
    let c : t.esp ≡ u.esp + 4 = sym k.esp in
    let both = Grows-trans (4 * length ws) 4 s t u g k in
    let size : 4 * length ws + 4 ≡ 4 * length (w ∷ ws) = omega arith in
    (
      u,
      rw (push_addresses, e, d) refl,
      subst (λ n. Grows n s u) size both,
      (at, subst (λ a. WordsAt u.bytes a ws) c (WordsAt-Grows 4 t.esp t u ws k (omega arith) h)),
    )
