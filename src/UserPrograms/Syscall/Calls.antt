-- ===== src/UserPrograms/Syscall/Calls.antt =====
-- user-programs/userprog/syscall.c: the functions sys_halt to sys_close.
use cs124_my_pintos.Common.{
  ℕ, zero, suc, ◌+◌, ◌-◌, ◌%◌, Bool, true, false, not, ◌||◌, Option, none, some, List, [], ◌∷◌,
  ◌++◌, ◌==◌, leb, if◌then◌else◌, length,
}
use cs124_my_pintos.UserPrograms.Segment.{u32, phys_base}
use cs124_my_pintos.UserPrograms.Descriptors.{create_fd, fd_to_file, remove_fd}
use cs124_my_pintos.UserPrograms.Children.{minus_one, add_child, process_wait}
use cs124_my_pintos.UserPrograms.Syscall.{
  System, Outcome, returned, powered_off, kernel_fault, World, user_kaddr, is_valid_uaddr,
  valid_bytes, read_bytes, read_string, sys_exit,
}

abbrev pub std_in : ℕ
std_in = 0

abbrev pub std_out : ℕ
std_out = 1

abbrev pub max_putbuf_len : ℕ
max_putbuf_len = 300

abbrev pub bool_to_word : Bool → ℕ
bool_to_word true = 1
bool_to_word false = 0

-- -1 for an error.
abbrev pub or_minus_one : Option ℕ → ℕ
or_minus_one none = minus_one
or_minus_one (some n) = n

module _ (system : System) where
  unfoldable pub sys_halt : {A : Type 0} → World system → Outcome (World system) A
  sys_halt w = powered_off w

  -- The loop over the command line: whether each byte up to the 0 is valid. The byte at `c` is.
  unfoldable pub exec_loop : (fuel c : ℕ) → World system → Option Bool
  exec_loop zero c w = none
  exec_loop (suc fuel) c w = elim (user_kaddr system c w) [
    | none ↦ none
    | some kaddr ↦
        let rest = exec_loop fuel (c + 1) w in
        if w.ram kaddr == 0
        then some true
        else if is_valid_uaddr system (c + 1) w
        then rest
        else some false
  ]

  unfoldable pub sys_exec : (cmd_line : ℕ) → World system → Outcome (World system) ℕ
  unfolding exec_loop
  sys_exec cmd_line w =
      if not (is_valid_uaddr system cmd_line w)
      then sys_exit system minus_one w
      else elim (exec_loop (phys_base - cmd_line) cmd_line w) [
        | none ↦ kernel_fault
        | some false ↦ sys_exit system minus_one w
        | some true ↦ elim (read_string system cmd_line w) [
          | none ↦ kernel_fault
          | some name ↦
              let (tid, outside) = system.process_execute w.outside name in
              returned (or_minus_one tid)
                (record w { parent = add_child w.parent tid; outside = outside })
        ]
      ]

  unfoldable pub sys_wait : (pid : ℕ) → World system → Outcome (World system) ℕ
  sys_wait pid w =
      let (status, parent) = process_wait (system.exited w.outside) w.parent pid in
      returned status (record w { parent = parent })

  unfoldable pub sys_create : (file initial_size : ℕ) → World system → Outcome (World system) ℕ
  sys_create file initial_size w =
      if not (is_valid_uaddr system file w)
      then sys_exit system minus_one w
      else elim (read_string system file w) [
        | none ↦ kernel_fault
        | some name ↦
            let (done, outside) = system.filesys_create w.outside name initial_size in
            returned (bool_to_word done) (record w { outside = outside })
      ]

  unfoldable pub sys_remove : (file : ℕ) → World system → Outcome (World system) ℕ
  sys_remove file w =
      if not (is_valid_uaddr system file w)
      then sys_exit system minus_one w
      else elim (read_string system file w) [
        | none ↦ kernel_fault
        | some name ↦
            let (done, outside) = system.filesys_remove w.outside name in
            returned (bool_to_word done) (record w { outside = outside })
      ]

  unfoldable pub sys_open : (file : ℕ) → World system → Outcome (World system) ℕ
  sys_open file w =
      if not (is_valid_uaddr system file w)
      then sys_exit system minus_one w
      else elim (read_string system file w) [
        | none ↦ kernel_fault
        | some name ↦
            let (f, outside) = system.filesys_open w.outside name in
            let (fd, files_open) = create_fd (system.has_memory outside) w.files_open f false in
            returned (or_minus_one fd) (record w { outside = outside; files_open = files_open })
      ]

  unfoldable pub sys_filesize : (fd : ℕ) → World system → Outcome (World system) ℕ
  sys_filesize fd w = elim (fd_to_file fd w.files_open) [
    | none ↦ sys_exit system minus_one w
    | some f ↦ returned (system.file_length w.outside f) w
  ]

  -- The bytes of a read, put at the buffer; `none` is a byte that is not mapped.
  unfoldable pub write_user : (uaddr : ℕ) → List ℕ → World system → Option (World system)
  write_user uaddr [] w = some w
  write_user uaddr (b ∷ bs) w = elim (user_kaddr system uaddr w) [
    | none ↦ none
    | some kaddr ↦
        write_user ((uaddr + 1) % u32) bs
          (record w { ram = λ k. if k == kaddr then b else w.ram k })
  ]

  unfoldable pub sys_read : (fd buffer size : ℕ) → World system → Outcome (World system) ℕ
  unfolding write_user
  sys_read fd buffer size w =
      if not (is_valid_uaddr system buffer w) || (fd == std_out)
      then sys_exit system minus_one w
      else if fd == std_in
      then (let (c, outside) = system.input_getc w.outside in
          returned c (record w { outside = outside }))
      else elim (fd_to_file fd w.files_open) [
        | none ↦ returned minus_one w
        | some f ↦
            let (bytes, outside) = system.file_read w.outside f size in
            elim (write_user buffer bytes (record w { outside = outside })) [
              | none ↦ kernel_fault
              | some t ↦ returned (length bytes) t
            ]
      ]

  -- `putbuf` of the first `n` bytes of the buffer.
  unfoldable pub putbuf : (buffer n : ℕ) → World system → Option (World system)
  putbuf buffer n w = elim (read_bytes system n buffer w) [
    | none ↦ none
    | some bytes ↦ some (record w { console = w.console ++ bytes })
  ]

  -- The loop that prints, with what remains after it; `remaining` is enough fuel.
  unfoldable pub putbuf_loop :
      (fuel buffer remaining : ℕ) → World system → Option (ℕ × World system)
  putbuf_loop zero buffer remaining w = none
  putbuf_loop (suc fuel) buffer remaining w =
      if leb remaining max_putbuf_len
      then some (remaining, w)
      else elim (putbuf buffer max_putbuf_len w) [
        | none ↦ none
        | some t ↦ putbuf_loop fuel buffer (remaining - max_putbuf_len) t
      ]

  unfoldable pub sys_write : (fd buffer size : ℕ) → World system → Outcome (World system) ℕ
  sys_write fd buffer size w =
      if not (is_valid_uaddr system buffer w) || (fd == std_in)
      then sys_exit system minus_one w
      else if not (valid_bytes system size buffer w)
      then sys_exit system minus_one w
      else if fd == std_out
      then elim (putbuf_loop (suc size) buffer size w) [
        | none ↦ kernel_fault
        | some (remaining, t) ↦ elim (putbuf buffer remaining t) [
          | none ↦ kernel_fault
          | some u ↦ returned size u
        ]
      ]
      else elim (fd_to_file fd w.files_open) [
        | none ↦ returned minus_one w
        | some f ↦ elim (read_bytes system size buffer w) [
          | none ↦ kernel_fault
          | some bytes ↦
              let (written, outside) = system.file_write w.outside f bytes in
              returned written (record w { outside = outside })
        ]
      ]

  unfoldable pub sys_seek : (fd position : ℕ) → World system → Outcome (World system) (Unit {0})
  sys_seek fd position w = elim (fd_to_file fd w.files_open) [
    | none ↦ returned tt w
    | some f ↦ returned tt (record w { outside = system.file_seek w.outside f position })
  ]

  unfoldable pub sys_tell : (fd : ℕ) → World system → Outcome (World system) ℕ
  sys_tell fd w = elim (fd_to_file fd w.files_open) [
    | none ↦ returned minus_one w
    | some f ↦ returned (system.file_tell w.outside f) w
  ]

  unfoldable pub sys_close : (fd : ℕ) → World system → Outcome (World system) (Unit {0})
  sys_close fd w =
      let (f, files_open) = remove_fd fd w.files_open in
      elim f [
        | none ↦ sys_exit system minus_one w
        | some file ↦ returned tt (record w { files_open = files_open })
      ]
