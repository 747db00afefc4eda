-- ===== src/UserPrograms/Stack/Layout.antt =====
-- The arguments on the stack of `setup_stack` in user-programs/userprog/process.c.
use cs124_my_pintos.Common.{
  ℕ, ◌+◌, ◌-◌, ◌*◌, ◌%◌, ◌≤◌, ◌<◌, ◌≡◌, refl, sym, subst, some, List, [], ◌∷◌, arith, length,
  replicate, length-replicate,
}
use cs124_my_pintos.UserPrograms.Segment.{pg_size, phys_base}
use cs124_my_pintos.UserPrograms.Stack.{
  Stack, push, bytes_of_word, push_strings, push_addresses, push_arguments,
}
use cs124_my_pintos.UserPrograms.Stack.Push.{IsAt, Grows, Grows-trans, IsAt-Grows, push-Grows}
use cs124_my_pintos.UserPrograms.Stack.Strings.{
  strings_size, StringsAt, WordsAt, StringsAt-Grows, WordsAt-Grows, push_strings-StringsAt,
  push_addresses-WordsAt,
}

abbrev pub null_word : List ℕ
null_word = 0 ∷ 0 ∷ 0 ∷ 0 ∷ []

-- The stack that a program finds: a return address of 0, `argc`, `argv`, and at `argv` the addresses
-- of the strings and NULL.
pub record IsLaidOut (tokens : List (List ℕ)) (s : Stack) : Type 0 where
  pub addresses : List ℕ
  pub aligned : s.esp % 4 ≡ 0
  pub return_address : IsAt s.bytes s.esp null_word
  pub argc : IsAt s.bytes (s.esp + 4) (bytes_of_word (length tokens))
  pub argv : IsAt s.bytes (s.esp + 8) (bytes_of_word (s.esp + 12))
  pub pointers : WordsAt s.bytes (s.esp + 12) addresses
  pub null : IsAt s.bytes (s.esp + 12 + 4 * length tokens) null_word
  pub strings : StringsAt s addresses tokens

-- What is on the stack before its last three words.
record Prepared (tokens : List (List ℕ)) (addresses : List ℕ) (s : Stack) : Type 0 where
  fits : phys_base - pg_size + 12 ≤ s.esp
  aligned : s.esp % 4 ≡ 0
  pointers : WordsAt s.bytes s.esp addresses
  null : IsAt s.bytes (s.esp + 4 * length tokens) null_word
  strings : StringsAt s addresses tokens

Prepared-IsLaidOut :
    (tokens : List (List ℕ)) (addresses : List ℕ) (s v w z : Stack)
    → Prepared tokens addresses s
    → Grows 4 s v
    → Grows 4 v w
    → Grows 4 w z
    → IsAt v.bytes v.esp (bytes_of_word s.esp)
    → IsAt w.bytes w.esp (bytes_of_word (length tokens))
    → IsAt z.bytes z.esp null_word
    → IsLaidOut tokens z
Prepared-IsLaidOut tokens addresses s v w z p g h k argv argc zero_ =
    let a = g.esp in
    let b = h.esp in
    let c = k.esp in
    let vz = Grows-trans 4 4 v w z h k in
    let sz = Grows-trans 4 8 s v z g vz in
    let al = p.aligned in
    let at_s : s.esp ≡ z.esp + 12 = omega arith in
    let at_v : v.esp ≡ z.esp + 8 = omega arith in
    let at_w : w.esp ≡ z.esp + 4 = sym c in
    record {
      addresses = addresses;
      aligned = omega arith;
      return_address = zero_;
      argc =
          subst (λ a. IsAt z.bytes a (bytes_of_word (length tokens))) at_w
            (IsAt-Grows 4 w.esp (bytes_of_word (length tokens)) w z k (omega arith) argc);
      argv =
          subst (λ a. IsAt z.bytes a (bytes_of_word (z.esp + 12))) at_v
            (subst (λ a. IsAt z.bytes v.esp (bytes_of_word a)) at_s
              (IsAt-Grows 8 v.esp (bytes_of_word s.esp) v z vz (omega arith) argv));
      pointers =
          subst (λ a. WordsAt z.bytes a addresses) at_s
            (WordsAt-Grows 12 s.esp s z addresses sz (omega arith) p.pointers);
      null =
          subst (λ a. IsAt z.bytes (a + 4 * length tokens) null_word) at_s
            (IsAt-Grows 12 (s.esp + 4 * length tokens) null_word s z sz (omega arith) p.null);
      strings = StringsAt-Grows 12 s z addresses tokens sz p.strings;
    }

-- The bytes that make `esp` a multiple of 4.
align :
    (t : Stack)
    → phys_base - pg_size + 7 ≤ t.esp
    → (s : Stack) × (gap : ℕ) × (push (replicate ((t.esp - 4) % 4) 0) t ≡ some s)
      × Grows gap t s
      × (gap < 4)
      × (s.esp % 4 ≡ 0)
align t l =
    let gap : ℕ = (t.esp - 4) % 4 in
    let small : gap < 4 = omega arith in
    let size : length (replicate gap 0) ≡ gap = length-replicate gap 0 in
    let fits : phys_base - pg_size + length (replicate gap 0) ≤ t.esp = omega arith in
    let (s, e, g, z) = push-Grows (replicate gap 0) t fits in
    let h : Grows gap t s = subst (λ n. Grows n t s) size g in
    let at : s.esp + gap ≡ t.esp = h.esp in (s, gap, e, h, small, omega arith)

pushes :
    (tokens : List (List ℕ)) (addresses : List ℕ) (s t aligned u argv v w z : Stack)
    → push_strings tokens s ≡ some (addresses, t)
    → push (replicate ((t.esp - 4) % 4) 0) t ≡ some aligned
    → push null_word aligned ≡ some u
    → push_addresses addresses u ≡ some argv
    → push (bytes_of_word argv.esp) argv ≡ some v
    → push (bytes_of_word (length tokens)) v ≡ some w
    → push null_word w ≡ some z
    → push_arguments tokens s ≡ some z
unfolding push_arguments
pushes tokens addresses s t aligned u argv v w z e1 e2 e3 e4 e5 e6 e7 =
    rw (push_arguments, e1, e2, e3, e4, e5, e6, e7) refl

-- When the strings with their zeros, an address for each and 19 more bytes fit in a page, the
-- arguments that are pushed from PHYS_BASE down stay in the page; the stack is then aligned and
-- holds, from its pointer up, a return address of 0, argc, argv, the addresses and NULL, argv
-- points to the first address, and each address has its string with a zero at its end.
pub push_arguments-IsLaidOut :
    (tokens : List (List ℕ)) (s : Stack)
    → s.esp ≡ phys_base
    → strings_size tokens + 4 * length tokens + 19 ≤ pg_size
    → (t : Stack) × (push_arguments tokens s ≡ some t) × IsLaidOut tokens t
unfolding bytes_of_word
push_arguments-IsLaidOut tokens s top fits =
    let (addresses, t, e1, g1, strings, n) = push_strings-StringsAt tokens s (omega arith) in
    let a1 = g1.esp in
    let (al, gap, e2, g2, small, aligned) = align t (omega arith) in
    let a2 = g2.esp in
    let (u, e3, g3, null) = push-Grows null_word al (omega arith) in
    let a3 = g3.esp in
    let (av, e4, g4, pointers) = push_addresses-WordsAt addresses u (omega arith) in
    let a4 = g4.esp in
    let (v, e5, g5, argv) = push-Grows (bytes_of_word av.esp) av (omega arith) in
    let a5 = g5.esp in
    let (w, e6, g6, argc) = push-Grows (bytes_of_word (length tokens)) v (omega arith) in
    let a6 = g6.esp in
    let (z, e7, g7, zero_) = push-Grows null_word w (omega arith) in
    let at : u.esp ≡ av.esp + 4 * length tokens = omega arith in
    let p : Prepared tokens addresses av = record {
      fits = omega arith;
      aligned = omega arith;
      pointers = pointers;
      null =
          subst (λ a. IsAt av.bytes a null_word) at
            (IsAt-Grows (4 * length addresses) u.esp null_word u av g4 (omega arith) null);
      strings = StringsAt-Grows (4 * length addresses) u av addresses tokens g4 (
          StringsAt-Grows 4 al u addresses tokens g3
            (StringsAt-Grows gap t al addresses tokens g2 strings));
    } in
    (
      z,
      pushes tokens addresses s t al u av v w z e1 e2 e3 e4 e5 e6 e7,
      Prepared-IsLaidOut tokens addresses av v w z p g5 g6 g7 argv argc zero_,
    )
