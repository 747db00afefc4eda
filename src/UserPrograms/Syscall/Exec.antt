-- ===== src/UserPrograms/Syscall/Exec.antt =====
-- The command line of `sys_exec` of user-programs/userprog/syscall.c.
use cs124_my_pintos.Common.{
  ℕ, zero, suc, ◌+◌, ◌-◌, ◌≤◌, ◌<◌, ◌≡◌, refl, ◌⊎◌, inl, inr, true, false, some, List, [], ◌∷◌,
  arith, ◌==◌, Bool-cases,
}
use cs124_my_pintos.UserPrograms.Segment.{phys_base, is_user_vaddr}
use cs124_my_pintos.UserPrograms.Children.{add_child}
use cs124_my_pintos.UserPrograms.Syscall.{
  System, returned, World, is_valid_uaddr, string_loop, read_string, sys_exit,
}
use cs124_my_pintos.UserPrograms.Syscall.Calls.{or_minus_one, exec_loop, sys_exec}
use cs124_my_pintos.UserPrograms.Syscall.Arguments.{killed, is_valid_uaddr-user_kaddr}

module _ (system : System) where
  is_valid_uaddr-user :
      (uaddr : ℕ) (w : World system) → is_valid_uaddr system uaddr w ≡ true → uaddr < phys_base
  unfolding is_valid_uaddr
  is_valid_uaddr-user uaddr w h = elim (Bool-cases (is_user_vaddr uaddr)) [
    | inl u ↦ ground arith
    | inr u ↦ (let n : false ≡ true = rw (is_valid_uaddr, u) at h in cc)
  ]

  -- How the loop ends: at an address that is not valid, or at the end of a string.
  Scanned : (fuel c : ℕ) → World system → Type 0
  Scanned fuel c w =
      (exec_loop system fuel c w ≡ some false)
      ⊎ ((exec_loop system fuel c w ≡ some true)
          × ((name : List ℕ) × (string_loop system fuel c w ≡ some name)))

  exec_loop-Scanned :
      (fuel c : ℕ) (w : World system)
      → phys_base ≤ fuel + c
      → is_valid_uaddr system c w ≡ true
      → Scanned fuel c w
  unfolding exec_loop string_loop Scanned
  exec_loop-Scanned zero c w l v = let u = is_valid_uaddr-user c w v in absurd (omega arith)
  exec_loop-Scanned (suc fuel) c w l v =
      let (kaddr, k) = is_valid_uaddr-user_kaddr system c w v in
      elim (Bool-cases (w.ram kaddr == 0)) [
        | inl z ↦ inr (rw (exec_loop, k, z) refl, ([], rw (string_loop, k, z) refl))
        | inr z ↦ elim (Bool-cases (is_valid_uaddr system (c + 1) w)) [
          | inr n ↦ inl (rw (exec_loop, k, z, n) refl)
          | inl n ↦ elim (exec_loop-Scanned fuel (c + 1) w (omega arith) n) [
            | inl e ↦ inl (rw (exec_loop, k, z, n) e)
            | inr (e, (name, s)) ↦
                inr
                  (rw (exec_loop, k, z, n) e, (w.ram kaddr ∷ name, rw (string_loop, k, z, s) refl))
          ]
        ]
      ]

  -- `sys_exec` of any address either ends the process with the status -1 and changes nothing else,
  -- or finds a string that ends in user memory, executes it and adds the child.
  pub sys_exec-killed :
      (cmd_line : ℕ) (w : World system)
      → (sys_exec system cmd_line w ≡ killed system w)
        ⊎ ((name : List ℕ) × (read_string system cmd_line w ≡ some name)
            × (sys_exec system cmd_line w
                ≡ returned (or_minus_one (system.process_execute w.outside name).0) (record w {
                  parent = add_child w.parent (system.process_execute w.outside name).0;
                  outside = (system.process_execute w.outside name).1;
                })))
  unfolding sys_exec sys_exit read_string Scanned
  sys_exec-killed cmd_line w = elim (Bool-cases (is_valid_uaddr system cmd_line w)) [
    | inr v ↦ inl (rw (sys_exec, v) refl)
    | inl v ↦
        let u = is_valid_uaddr-user cmd_line w v in
        elim (exec_loop-Scanned (phys_base - cmd_line) cmd_line w (omega arith) v) [
          | inl e ↦ inl (rw (sys_exec, v, e) refl)
          | inr (e, (name, s)) ↦ inr (name, s, rw (sys_exec, v, e, s) refl)
        ]
  ]
