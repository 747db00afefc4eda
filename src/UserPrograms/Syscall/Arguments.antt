-- ===== src/UserPrograms/Syscall/Arguments.antt =====
-- The arguments of system calls in user-programs/userprog/syscall.c.
use cs124_my_pintos.Common.{
  ℕ, zero, suc, ◌+◌, ◌*◌, ◌%◌, ◌<◌, ◌≡◌, refl, subst, ◌∙◌, ◌⊎◌, inl, inr, true, false, some, List,
  [], ◌∷◌, arith, Bool-cases, Option-cases,
}
use cs124_my_pintos.UserPrograms.Segment.{u32, is_user_vaddr}
use cs124_my_pintos.UserPrograms.Children.{minus_one}
use cs124_my_pintos.UserPrograms.Syscall.{
  System, Outcome, returned, process_exited, and_then, World, user_kaddr, is_valid_uaddr,
  valid_bytes, read_bytes, word_of, sys_exit, grab_arg,
}
use cs124_my_pintos.UserPrograms.Syscall.Handler.{
  Call, arity, with_one, with_two, with_three, dispatch, syscall_handler,
}

module _ (system : System) where
  -- The process has exited with the status -1, and nothing else has changed.
  abbrev pub killed : {A : Type 0} → World system → Outcome (World system) A
  killed w = process_exited (record w { self_status = minus_one })

  pub is_valid_uaddr-user_kaddr :
      (uaddr : ℕ) (w : World system)
      → is_valid_uaddr system uaddr w ≡ true
      → (kaddr : ℕ) × (user_kaddr system uaddr w ≡ some kaddr)
  unfolding is_valid_uaddr
  is_valid_uaddr-user_kaddr uaddr w h = elim (Option-cases (user_kaddr system uaddr w)) [
    | inr found ↦ found
    | inl e ↦ elim (Bool-cases (is_user_vaddr uaddr)) [
      | inl u ↦ (let n : false ≡ true = rw (is_valid_uaddr, u, e) at h in cc)
      | inr u ↦ (let n : false ≡ true = rw (is_valid_uaddr, u) at h in cc)
    ]
  ]

  pub valid_bytes-read_bytes :
      (n uaddr : ℕ) (w : World system)
      → valid_bytes system n uaddr w ≡ true
      → (bs : List ℕ) × (read_bytes system n uaddr w ≡ some bs)
  unfolding valid_bytes read_bytes
  valid_bytes-read_bytes zero uaddr w h = ([], refl)
  valid_bytes-read_bytes (suc n) uaddr w h = elim (Bool-cases (is_valid_uaddr system uaddr w)) [
    | inr b ↦ (let c : false ≡ true = rw (valid_bytes, b) at h in cc)
    | inl b ↦
        let (kaddr, k) = is_valid_uaddr-user_kaddr uaddr w b in
        let (bs, e) = valid_bytes-read_bytes n ((uaddr + 1) % u32) w (rw (valid_bytes, b) at h) in
        (w.ram kaddr ∷ bs, rw (read_bytes, k, e) refl)
  ]

  -- `grab_arg` returns or kills the process.
  pub grab_arg-cases :
      (esp : ℕ) (w : World system)
      → ((valid_bytes system 4 esp w ≡ true) × ((a : ℕ) × (grab_arg system esp w ≡ returned a w)))
        ⊎ (grab_arg system esp w ≡ killed w)
  unfolding grab_arg sys_exit
  grab_arg-cases esp w = elim (Bool-cases (valid_bytes system 4 esp w)) [
    | inr b ↦ inr (rw (grab_arg, b) refl)
    | inl b ↦
        let (bs, e) = valid_bytes-read_bytes 4 esp w b in
        inl (b, (word_of bs, rw (grab_arg, b, e) refl))
  ]

  grab_arg-killed :
      (esp : ℕ) (w : World system)
      → valid_bytes system 4 esp w ≡ false
      → grab_arg system esp w ≡ killed w
  unfolding grab_arg sys_exit
  grab_arg-killed esp w b = rw (grab_arg, b) refl

  module _ (call_of : ℕ → Call) (indeterminate : ℕ) where
    with_one-killed :
        {A : Type 0} (esp : ℕ) (f : ℕ → World system → Outcome (World system) A) (w : World system)
        → valid_bytes system 4 esp w ≡ false
        → with_one system call_of indeterminate esp f w ≡ killed w
    unfolding with_one and_then
    with_one-killed esp f w b = rw (with_one, grab_arg-killed esp w b) refl

    with_one-exits :
        {A : Type 0} (esp : ℕ) (f : ℕ → World system → Outcome (World system) A) (w : World system)
        → grab_arg system esp w ≡ killed w
        → with_one system call_of indeterminate esp f w ≡ killed w
    unfolding with_one and_then
    with_one-exits esp f w e = rw (with_one, e) refl

    with_one-next :
        {A : Type 0} (esp : ℕ) (f : ℕ → World system → Outcome (World system) A) (w : World system)
        → ((a : ℕ) → f a w ≡ killed w)
        → with_one system call_of indeterminate esp f w ≡ killed w
    unfolding with_one and_then
    with_one-next esp f w h = elim (grab_arg-cases esp w) [
      | inl (b, (a, e)) ↦ rw (with_one, e) (h a)
      | inr e ↦ with_one-exits esp f w e
    ]

    -- The bytes of the argument `j` from `esp` up are not all valid.
    IsBad : (esp j : ℕ) → World system → Type 0
    IsBad esp j w = valid_bytes system 4 ((esp + 4 * j) % u32) w ≡ false

    IsBad-first :
        (esp : ℕ) (w : World system)
        → esp < u32
        → IsBad esp 0 w
        → valid_bytes system 4 esp w ≡ false
    unfolding IsBad
    IsBad-first esp w l b =
        let e : (esp + 4 * 0) % u32 ≡ esp = omega arith in
        subst (λ a. valid_bytes system 4 a w ≡ false) e b

    IsBad-later : (esp j : ℕ) (w : World system) → IsBad esp (suc j) w → IsBad ((esp + 4) % u32) j w
    unfolding IsBad
    IsBad-later esp j w b =
        let e : (esp + 4 * suc j) % u32 ≡ ((esp + 4) % u32 + 4 * j) % u32 = omega arith in
        subst (λ a. valid_bytes system 4 a w ≡ false) e b

    with_one-IsBad :
        {A : Type 0} (esp j : ℕ) (f : ℕ → World system → Outcome (World system) A)
        (w : World system)
        → esp < u32
        → j < 1
        → IsBad esp j w
        → with_one system call_of indeterminate esp f w ≡ killed w
    with_one-IsBad esp zero f w l h b = with_one-killed esp f w (IsBad-first esp w l b)
    with_one-IsBad esp (suc j) f w l h b = absurd (omega arith)

    with_two-IsBad :
        {A : Type 0} (esp j : ℕ) (f : ℕ → ℕ → World system → Outcome (World system) A)
        (w : World system)
        → esp < u32
        → j < 2
        → IsBad esp j w
        → with_two system call_of indeterminate esp f w ≡ killed w
    unfolding with_two
    with_two-IsBad esp zero f w l h b = with_one-killed esp _ w (IsBad-first esp w l b)
    with_two-IsBad esp (suc j) f w l h b = with_one-next esp _ w (λ a.
        with_one-IsBad ((esp + 4) % u32) j (f a) w (omega arith) (omega arith)
          (IsBad-later esp j w b))

    with_three-IsBad :
        {A : Type 0} (esp j : ℕ) (f : ℕ → ℕ → ℕ → World system → Outcome (World system) A)
        (w : World system)
        → esp < u32
        → j < 3
        → IsBad esp j w
        → with_three system call_of indeterminate esp f w ≡ killed w
    unfolding with_three
    with_three-IsBad esp zero f w l h b = with_one-killed esp _ w (IsBad-first esp w l b)
    with_three-IsBad esp (suc j) f w l h b = with_one-next esp _ w (λ a.
        with_two-IsBad ((esp + 4) % u32) j (f a) w (omega arith) (omega arith)
          (IsBad-later esp j w b))

    dispatch-IsBad :
        (call : Call) (esp j : ℕ) (w : World system)
        → esp < u32
        → j < arity call
        → IsBad esp j w
        → dispatch system call_of indeterminate call esp w ≡ killed w
    unfolding dispatch
    dispatch-IsBad Call.halt esp j w l h b = absurd (omega arith)
    dispatch-IsBad Call.exit esp j w l h b = with_one-IsBad esp j _ w l h b
    dispatch-IsBad Call.exec esp j w l h b = with_one-IsBad esp j _ w l h b
    dispatch-IsBad Call.wait esp j w l h b = with_one-IsBad esp j _ w l h b
    dispatch-IsBad Call.create esp j w l h b = with_two-IsBad esp j _ w l h b
    dispatch-IsBad Call.remove esp j w l h b = with_one-IsBad esp j _ w l h b
    dispatch-IsBad Call.open_file esp j w l h b = with_one-IsBad esp j _ w l h b
    dispatch-IsBad Call.filesize esp j w l h b = with_one-IsBad esp j _ w l h b
    dispatch-IsBad Call.read esp j w l h b = with_three-IsBad esp j _ w l h b
    dispatch-IsBad Call.write esp j w l h b = with_three-IsBad esp j _ w l h b
    dispatch-IsBad Call.seek esp j w l h b = with_two-IsBad esp j _ w l h b
    dispatch-IsBad Call.tell esp j w l h b = with_one-IsBad esp j _ w l h b
    dispatch-IsBad Call.close esp j w l h b = with_one-IsBad esp j _ w l h b
    dispatch-IsBad Call.chdir esp j w l h b = with_one-IsBad esp j _ w l h b
    dispatch-IsBad Call.mkdir esp j w l h b = with_one-IsBad esp j _ w l h b
    dispatch-IsBad Call.readdir esp j w l h b = with_two-IsBad esp j _ w l h b
    dispatch-IsBad Call.isdir esp j w l h b = with_one-IsBad esp j _ w l h b
    dispatch-IsBad Call.inumber esp j w l h b = with_one-IsBad esp j _ w l h b
    dispatch-IsBad Call.unknown esp j w l h b = absurd (omega arith)

    syscall_handler-grab_arg :
        (esp number : ℕ) (w : World system)
        → grab_arg system esp w ≡ returned number w
        → syscall_handler system call_of indeterminate esp w
          ≡ dispatch system call_of indeterminate (call_of number) ((esp + 4) % u32) w
    unfolding syscall_handler with_one and_then
    syscall_handler-grab_arg esp number w e = rw (with_one, e) refl

    -- For a stack pointer of 32 bits, whenever a byte of the number of the call, or of one of the
    -- arguments that the call takes, is not valid user memory, `syscall_handler` ends the process
    -- with the status -1 and changes nothing else.
    pub syscall_handler-killed :
        (esp j : ℕ) (w : World system)
        → esp < u32
        → valid_bytes system 4 ((esp + 4 * j) % u32) w ≡ false
        → ((number : ℕ)
            → grab_arg system esp w ≡ returned number w
            → j < suc (arity (call_of number)))
        → syscall_handler system call_of indeterminate esp w ≡ killed w
    unfolding syscall_handler IsBad
    syscall_handler-killed esp zero w l b h = with_one-killed esp _ w (IsBad-first esp w l b)
    syscall_handler-killed esp (suc j) w l b h = elim (grab_arg-cases esp w) [
      | inl (v, (number, e)) ↦
          let k = h number e in
          syscall_handler-grab_arg esp number w e
          ∙ dispatch-IsBad (call_of number) ((esp + 4) % u32) j w (omega arith) (omega arith)
              (IsBad-later esp j w b)
      | inr e ↦ with_one-exits esp _ w e
    ]
